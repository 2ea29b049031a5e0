-- ===== src/RiskModule/Pricing.antt =====
-- `RiskModule.get_minimum_premium_composition`, `get_minimum_premium` and the buckets of
-- `SignedBucketRiskModule` (prototype/ensuro.py).
use ensuro.Prelude.{Option, none, some, List, [], ◌∷◌, if◌then◌else◌}
use ensuro.Prelude.Int.{ℤ, pos, ◌+ℤ◌, ◌-ℤ◌, ◌=?◌, max}
use ensuro.Prelude.Calls.{Result, ok, err, Fault, ◌>>=◌}
use ensuro.WadRay.{WadRay, ◌*W◌, ◌/W◌}
use ensuro.RiskModule.State.{RiskModule, BucketParams, from_rm, seconds_in_year}

pub record PremiumComposition : Type 0 where
  pub pure_premium : ℤ
  pub ensuro_commission : ℤ
  pub jr_coc : ℤ
  pub sr_coc : ℤ
  pub total : ℤ

module _ ⦃w : WadRay⦄ where
  -- The arithmetic of the method, for given parameters and time to expiration.
  unfoldable pub composition : BucketParams → ℤ → ℤ → ℤ → Result PremiumComposition
  composition params payout loss_prob term = do
    let pure_premium = payout *W loss_prob *W params.moc
    let jr_scr = max (payout *W params.jr_coll_ratio -ℤ pure_premium) (pos 0)
    let sr_scr = max (payout *W params.coll_ratio -ℤ pure_premium -ℤ jr_scr) (pos 0)
    jr_coc ← jr_scr *W params.jr_roc *W w.wad term /W w.wad seconds_in_year
    sr_coc ← sr_scr *W params.sr_roc *W w.wad term /W w.wad seconds_in_year
    let ensuro_commission =
        pure_premium *W params.ensuro_pp_fee +ℤ (jr_coc +ℤ sr_coc) *W params.ensuro_coc_fee
    ok (record {
      pure_premium = pure_premium;
      ensuro_commission = ensuro_commission;
      jr_coc = jr_coc;
      sr_coc = sr_coc;
      total = pure_premium +ℤ ensuro_commission +ℤ jr_coc +ℤ sr_coc;
    })

  -- `params` is `None` for the risk module's own.
  unfoldable pub get_minimum_premium_composition :
      ℤ → RiskModule → ℤ → ℤ → ℤ → Option BucketParams → Result PremiumComposition
  get_minimum_premium_composition now rm payout loss_prob expiration none =
      composition (from_rm rm) payout loss_prob (expiration -ℤ now)
  get_minimum_premium_composition now rm payout loss_prob expiration (some params) =
      composition params payout loss_prob (expiration -ℤ now)

  unfoldable pub get_minimum_premium : ℤ → RiskModule → ℤ → ℤ → ℤ → Result ℤ
  get_minimum_premium now rm payout loss_prob expiration = do
    c ← get_minimum_premium_composition now rm payout loss_prob expiration none
    ok c.total

-- The dictionary `_buckets` of `SignedBucketRiskModule`.
abbrev pub Buckets : Type 0
Buckets = List (ℤ × BucketParams)

unfoldable pub find_bucket : ℤ → Buckets → Option BucketParams
find_bucket k [] = none
find_bucket k ((j, v) ∷ d) = if k =? j then some v else find_bucket k d

unfoldable pub set_bucket_params : ℤ → BucketParams → Buckets → Buckets
set_bucket_params k v [] = (k, v) ∷ []
set_bucket_params k v ((j, u) ∷ d) = if k =? j then (k, v) ∷ d else (j, u) ∷ set_bucket_params k v d

-- `del`, which raises for a missing key.
unfoldable pub delete_bucket : ℤ → Buckets → Result Buckets
delete_bucket k [] = err Fault.key_error
delete_bucket k ((j, u) ∷ d) =
    let rest = (do d' ← delete_bucket k d; ok ((j, u) ∷ d')) in if k =? j then ok d else rest

unfoldable pub bucket_params : RiskModule → Buckets → ℤ → BucketParams
bucket_params rm d k = elim (find_bucket k d) [ none ↦ from_rm rm | some params ↦ params ]

unfoldable pub get_minimum_premium_for_bucket :
    ⦃w : WadRay⦄ → ℤ → RiskModule → Buckets → ℤ → ℤ → ℤ → ℤ → Result ℤ
get_minimum_premium_for_bucket now rm d payout loss_prob expiration bucket_id = do
  c ←
      get_minimum_premium_composition now rm payout loss_prob expiration
        (some (bucket_params rm d bucket_id))
  ok c.total
