-- ===== src/EToken/Scale.antt =====
-- The scale of an eToken and what follows from it: supply, balances, funds available and rates
-- (`EToken`, prototype/ensuro.py).
use ensuro.Prelude.{ℕ, Bool, true, false, ◌||◌, none, some, if◌then◌else◌}
use ensuro.Prelude.Int.{ℤ, pos, ◌+ℤ◌, ◌-ℤ◌, ◌≤?◌, ◌<?◌, ◌=?◌, max}
use ensuro.Prelude.Calls.{Fault, Result, ok, ◌>>=◌, ◌>>◌, require}
use ensuro.WadRay.{WadRay, ◌*W◌, ◌/W◌, ◌*R◌, ◌/R◌}
use ensuro.Outside.{Outside, TokenBase, negligible}
use ensuro.ScaledAmount.{grown_scale}
use ensuro.EToken.State.{EToken}

module _ {L : Type 0} ⦃w : WadRay⦄ ⦃b : TokenBase L⦄ where
  unfoldable pub calculate_current_scale : ℤ → EToken L → Result ℤ
  calculate_current_scale now e =
      grown_scale e.scale_factor (now -ℤ e.last_scale_update) e.token_interest_rate

  -- An assignment to `scale_factor` runs the hook `non_negative`; both places that assign check
  -- `MIN_SCALE` next.
  unfoldable pub set_scale_factor : ℤ → EToken L → Result (EToken L)
  set_scale_factor scale e = do
    require (pos 0 ≤? scale) Fault.negative_scale
    require (w.min_scale ≤? scale) Fault.scale_too_small
    ok (record e { scale_factor = scale })

  unfoldable pub update_current_scale : ℤ → EToken L → Result (EToken L)
  update_current_scale now e = do
    scale ← calculate_current_scale now e
    e' ← set_scale_factor scale e
    ok (record e' { last_scale_update = now })

  unfoldable pub get_current_scale : ℤ → Bool → EToken L → Result ℤ
  get_current_scale now true e = calculate_current_scale now e
  get_current_scale now false e = ok e.scale_factor

  unfoldable pub total_supply : ℤ → EToken L → Result ℤ
  total_supply now e = do
    scale ← calculate_current_scale now e
    ok (w.to_wad (w.to_ray (b.total_supply e.base) *R scale))

  unfoldable pub balance_of : ℤ → ℕ → EToken L → Result ℤ
  balance_of now provider e = do
    let principal = b.balance_of e.base provider
    if principal =? pos 0
        then ok (pos 0)
        else do scale ← calculate_current_scale now e; ok (w.to_wad (w.to_ray principal *R scale))

  unfoldable pub update_token_interest_rate : ℤ → EToken L → Result (EToken L)
  update_token_interest_rate now e = do
    supply ← total_supply now e
    if supply =? pos 0 then ok (record e { token_interest_rate = pos 0 }) else do
      rate ← e.scr_interest_rate *W e.scr /W supply
      ok (record e { token_interest_rate = rate })

  unfoldable pub funds_available : ℤ → EToken L → Result ℤ
  funds_available now e = do supply ← total_supply now e; ok (max (supply -ℤ e.scr) (pos 0))

  unfoldable pub funds_available_to_lock : ℤ → EToken L → Result ℤ
  funds_available_to_lock now e = do
    supply ← total_supply now e
    ok (max (supply *W e.max_utilization_rate -ℤ e.scr) (pos 0))

  unfoldable pub total_withdrawable : ℤ → EToken L → Result ℤ
  total_withdrawable now e = do
    let locked = e.scr *W e.liquidity_requirement
    supply ← total_supply now e
    ok (max (pos 0) (supply -ℤ locked))

  unfoldable pub utilization_rate : ℤ → EToken L → Result ℤ
  utilization_rate now e = do supply ← total_supply now e; e.scr /W supply

  unfoldable pub max_negative_adjustment : ℤ → EToken L → Result ℤ
  max_negative_adjustment now e = do
    supply ← total_supply now e
    let kept = w.to_wad (w.min_scale *R w.ray (pos 10) *R w.to_ray (b.total_supply e.base))
    ok (max (supply -ℤ kept) (pos 0))

  unfoldable pub discrete_earning : ℤ → ℤ → EToken L → Result (EToken L)
  discrete_earning now amount e = do
    e' ← update_current_scale now e
    supply ← total_supply now e'
    scale ← w.to_ray (amount +ℤ supply) /R w.to_ray (b.total_supply e'.base)
    e'' ← set_scale_factor scale e'
    update_token_interest_rate now e''

  -- The check is skipped where it is disabled and where an asset manager is plugged.
  unfoldable pub check_balance : {W : Type 0} ⦃o : Outside W⦄ → ℤ → EToken L → W → Result (Unit {0})
  check_balance ⦃o⦄ now e x = if e.check_balance_disabled then ok tt else elim e.asset_manager [
    | some manager ↦ ok tt
    | none ↦ do
      supply ← total_supply now e
      let balance = o.balance_of x e.contract_id
      require (supply ≤? balance || (supply -ℤ balance) <? negligible o) Fault.balance_under_supply
  ]
