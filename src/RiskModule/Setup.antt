-- ===== src/RiskModule/Setup.antt =====
-- The checks of `RiskModule.__init__` (prototype/ensuro.py).
use ensuro.Prelude.{not, ◌&&◌, ◌==◌, ◌≡◌, ◌≢◌, ◌↔◌, arith}
use ensuro.Prelude.Int.{ℤ, pos, ◌≤ℤ◌, ◌<ℤ◌, ◌≤?◌, ◌<?◌, ≤?_of_le, <?_of_lt}
use ensuro.Prelude.Calls.{Fault, Result, ok, ◌>>=◌, ◌>>◌, require}
use ensuro.WadRay.{WadRay}
use ensuro.RiskModule.State.{RiskModule}

module _ ⦃w : WadRay⦄ where
  -- `_W(1)`
  abbrev pub one : ℤ
  one = w.wad (pos 1)

  unfoldable pub validate_ratios : RiskModule → Result (Unit {0})
  validate_ratios rm = do
    require (rm.coll_ratio ≤? one && (pos 0 <? rm.coll_ratio)) Fault.coll_ratio_range
    require (rm.jr_coll_ratio ≤? one) Fault.jr_coll_ratio_range
    require (rm.jr_coll_ratio ≤? rm.coll_ratio) Fault.coll_ratio_below_jr
    require (rm.moc ≤? w.wad (pos 4) && (w.half_wad ≤? rm.moc)) Fault.moc_range
    require (rm.ensuro_pp_fee ≤? one) Fault.pp_fee_range
    require (rm.ensuro_coc_fee ≤? one) Fault.coc_fee_range
    require (rm.sr_roc ≤? one) Fault.sr_roc_range
    require (rm.jr_roc ≤? one) Fault.jr_roc_range

  unfoldable pub validate_limits : RiskModule → Result (Unit {0})
  validate_limits rm = do
    require (rm.active_exposure ≤? rm.exposure_limit) Fault.limit_below_exposure
    require (pos 0 ≤? rm.exposure_limit && (pos 0 <? rm.max_payout_per_policy)) Fault.exposure_sign
    require (not (rm.wallet == 0)) Fault.zero_wallet

  unfoldable pub init : RiskModule → Result RiskModule
  init rm = do validate_ratios rm; validate_limits rm; ok rm

  pub record HasValidRatios (rm : RiskModule) : Type 0 where
    pub coll_ratio : (pos 0 <ℤ rm.coll_ratio) × (rm.coll_ratio ≤ℤ one)
    pub jr_coll_ratio : rm.jr_coll_ratio ≤ℤ rm.coll_ratio
    pub moc : (w.half_wad ≤ℤ rm.moc) × (rm.moc ≤ℤ w.wad (pos 4))
    pub fees : (rm.ensuro_pp_fee ≤ℤ one) × (rm.ensuro_coc_fee ≤ℤ one)
    pub rocs : (rm.sr_roc ≤ℤ one) × (rm.jr_roc ≤ℤ one)

  pub record HasValidLimits (rm : RiskModule) : Type 0 where
    pub exposure : (pos 0 ≤ℤ rm.exposure_limit) × (rm.active_exposure ≤ℤ rm.exposure_limit)
    pub payouts : pos 0 <ℤ rm.max_payout_per_policy
    pub wallet : rm.wallet ≢ 0

  ratios_sound : (rm : RiskModule) → validate_ratios rm ≡ ok tt → HasValidRatios rm
  unfolding validate_ratios ◌>>=◌
  ratios_sound rm h = ground arith

  ratios_complete : (rm : RiskModule) → HasValidRatios rm → validate_ratios rm ≡ ok tt
  unfolding validate_ratios ◌>>=◌
  ratios_complete rm v = rw (
    ≤?_of_le _ one v.coll_ratio.1,
    <?_of_lt _ _ v.coll_ratio.0,
    ≤?_of_le rm.jr_coll_ratio one (omega arith),
    ≤?_of_le _ rm.coll_ratio v.jr_coll_ratio,
    ≤?_of_le _ (w.wad (pos 4)) v.moc.1,
    ≤?_of_le w.half_wad _ v.moc.0,
    ≤?_of_le _ one v.fees.0,
    ≤?_of_le _ one v.fees.1,
    ≤?_of_le _ one v.rocs.0,
    ≤?_of_le _ one v.rocs.1,
  )

  limits_sound : (rm : RiskModule) → validate_limits rm ≡ ok tt → HasValidLimits rm
  unfolding validate_limits ◌>>=◌
  limits_sound rm h = ground arith

  limits_complete : (rm : RiskModule) → HasValidLimits rm → validate_limits rm ≡ ok tt
  unfolding validate_limits ◌>>=◌
  limits_complete rm v = ground arith

  -- A risk module can be created exactly when its parameters are in range.
  pub init-iff-valid :
      (rm : RiskModule) → (init rm ≡ ok rm) ↔ (HasValidRatios rm × HasValidLimits rm)
  unfolding init ◌>>=◌
  init-iff-valid rm = (
    λ h. (ratios_sound rm (ground arith), limits_sound rm (ground arith)),
    λ v. rw (ratios_complete rm v.0, limits_complete rm v.1),
  )
