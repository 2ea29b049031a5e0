-- ===== src/ScaledAmount.antt =====
-- `ScaledAmount` (prototype/ensuro.py): an amount that earns interest, kept divided by a scale that
-- grows with time. The model's `time_control.now` is the argument `now`.
use ensuro.Prelude.{Option, none, some, if◌then◌else◌}
use ensuro.Prelude.Int.{ℤ, pos, ◌+ℤ◌, ◌-ℤ◌, ◌≤?◌, ◌=?◌}
use ensuro.Prelude.Calls.{Fault, Result, ok, err, ◌>>=◌}
use ensuro.WadRay.{WadRay, ◌*R◌, ◌/R◌}
use ensuro.RiskModule.State.{seconds_in_year}

pub record ScaledAmount : Type 0 where
  pub amount : ℤ
  pub scale : ℤ
  pub last_update : Option ℤ

module _ ⦃w : WadRay⦄ where
  -- `ScaledAmount()`
  abbrev pub empty_amount : ScaledAmount
  empty_amount = record { amount = pos 0; scale = w.ray (pos 1); last_update = none }

  -- The scale after `seconds` at a yearly rate; `EToken._calculate_current_scale` has the same
  -- lines.
  unfoldable pub grown_scale : ℤ → ℤ → ℤ → Result ℤ
  grown_scale scale seconds interest_rate = if seconds ≤? pos 0 then ok scale else do
    increment ← w.ray seconds *R w.to_ray interest_rate /R w.ray seconds_in_year
    ok (scale *R (w.ray (pos 1) +ℤ increment))

  -- Subtracting `None` from the time raises.
  unfoldable pub scale_since : ℤ → ℤ → ℤ → Option ℤ → Result ℤ
  scale_since now interest_rate scale none = err Fault.type_error
  scale_since now interest_rate scale (some t) = grown_scale scale (now -ℤ t) interest_rate

  unfoldable pub get_scale : ℤ → ℤ → ScaledAmount → Result ℤ
  get_scale now interest_rate s = scale_since now interest_rate s.scale s.last_update

  -- `not last_update` holds of `None` and of 0.
  unfoldable pub next_scale : ℤ → ℤ → ℤ → Option ℤ → Result ℤ
  next_scale now interest_rate scale none = ok (w.ray (pos 1))
  next_scale now interest_rate scale (some t) =
      if t =? pos 0 then ok (w.ray (pos 1)) else grown_scale scale (now -ℤ t) interest_rate

  unfoldable pub update_scale : ℤ → ℤ → ScaledAmount → Result ScaledAmount
  update_scale now interest_rate s = do
    scale ← next_scale now interest_rate s.scale s.last_update
    ok (record s { scale = scale; last_update = some now })

  unfoldable pub get_scaled_amount : ℤ → ℤ → ScaledAmount → Result ℤ
  get_scaled_amount now interest_rate s =
      if s.amount =? pos 0
      then ok s.amount
      else do scale ← get_scale now interest_rate s; ok (w.to_wad (w.to_ray s.amount *R scale))

  unfoldable pub add : ℤ → ℤ → ℤ → ScaledAmount → Result ScaledAmount
  add now scaled_amount interest_rate s = do
    s' ← update_scale now interest_rate s
    units ← w.to_ray scaled_amount /R s'.scale
    ok (record s' { amount = s'.amount +ℤ w.to_wad units })

  unfoldable pub sub : ℤ → ℤ → ℤ → ScaledAmount → Result ScaledAmount
  sub now scaled_amount interest_rate s = do
    s' ← update_scale now interest_rate s
    current ← get_scaled_amount now interest_rate s'
    units ← w.to_ray (current -ℤ scaled_amount) /R s'.scale
    ok (record s' { amount = w.to_wad units })
