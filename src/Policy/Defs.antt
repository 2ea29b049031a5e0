-- ===== src/Policy/Defs.antt =====
-- `Policy` of prototype/ensuro.py: the split of a premium, the interest rates that it fixes and the
-- interests accrued so far.

use ensuro.Prelude.{ℕ, if◌then◌else◌}
use ensuro.Prelude.Int.{ℤ, pos, negsuc, ◌+ℤ◌, ◌-ℤ◌, ◌≤?◌, ◌<?◌, ◌=?◌, max}
use ensuro.Prelude.Calls.{Fault, Result, ok, ◌>>=◌, ◌>>◌, require}
use ensuro.WadRay.{WadRay, ◌*W◌, ◌/W◌}
use ensuro.RiskModule.State.{RiskModule, seconds_in_year}

pub record Policy : Type 0 where
  pub id : ℤ
  pub risk_module : ℕ
  pub payout : ℤ
  pub premium : ℤ
  pub jr_scr : ℤ
  pub sr_scr : ℤ
  pub loss_prob : ℤ
  pub start : ℤ
  pub expiration : ℤ
  pub pure_premium : ℤ
  pub ensuro_commission : ℤ
  pub partner_commission : ℤ
  pub jr_coc : ℤ
  pub sr_coc : ℤ

-- The arguments of the constructor.
pub record Terms : Type 0 where
  pub payout : ℤ
  pub premium : ℤ
  pub loss_prob : ℤ
  pub start : ℤ
  pub expiration : ℤ

-- What the premium has to reach.
abbrev pub minimum : Policy → ℤ
minimum p = p.pure_premium +ℤ p.jr_coc +ℤ p.sr_coc +ℤ p.ensuro_commission

module _ ⦃w : WadRay⦄ where
  -- The junior SCR: three branches, on `jr_coll_ratio` and on the pure premium.
  unfoldable pub junior_scr : RiskModule → ℤ → ℤ → ℤ
  junior_scr rm payout pure_premium =
      if rm.jr_coll_ratio =? pos 0
      then pos 0
      else if (payout *W rm.jr_coll_ratio) <? pure_premium
      then pos 0
      else payout *W rm.jr_coll_ratio -ℤ pure_premium

  unfoldable pub senior_scr : RiskModule → ℤ → ℤ → ℤ → ℤ
  senior_scr rm payout pure_premium jr_scr =
      max (payout *W rm.coll_ratio -ℤ pure_premium -ℤ jr_scr) (pos 0)

  -- The return on capital for the whole life of the policy.
  unfoldable pub roc_for_term : ℤ → ℤ → ℤ → Result ℤ
  roc_for_term roc start expiration = roc *W w.wad (expiration -ℤ start) /W w.wad seconds_in_year

  -- The attributes once the two returns on capital are known. The id is -1 until the pool sets it.
  unfoldable pub split_at : RiskModule → Terms → ℤ → ℤ → Policy
  split_at rm t sr_roc jr_roc =
      let pure_premium = t.payout *W t.loss_prob *W rm.moc in
      let jr_scr = junior_scr rm t.payout pure_premium in
      let sr_scr = senior_scr rm t.payout pure_premium jr_scr in
      let sr_coc = sr_scr *W sr_roc in
      let jr_coc = jr_scr *W jr_roc in
      let ensuro_commission =
        pure_premium *W rm.ensuro_pp_fee +ℤ (sr_coc +ℤ jr_coc) *W rm.ensuro_coc_fee in
      record {
        id = negsuc 0;
        risk_module = rm.contract_id;
        payout = t.payout;
        premium = t.premium;
        jr_scr = jr_scr;
        sr_scr = sr_scr;
        loss_prob = t.loss_prob;
        start = t.start;
        expiration = t.expiration;
        pure_premium = pure_premium;
        ensuro_commission = ensuro_commission;
        partner_commission = t.premium -ℤ pure_premium -ℤ jr_coc -ℤ sr_coc -ℤ ensuro_commission;
        jr_coc = jr_coc;
        sr_coc = sr_coc;
      }

  -- `Policy.__init__`, that is `_do_premium_split` of the given fields.
  unfoldable pub do_premium_split : RiskModule → Terms → Result Policy
  do_premium_split rm t = do
    sr_roc ← roc_for_term rm.sr_roc t.start t.expiration
    jr_roc ← roc_for_term rm.jr_roc t.start t.expiration
    let p = split_at rm t sr_roc jr_roc
    require (minimum p ≤? t.premium) Fault.premium_below_minimum
    ok p

  unfoldable pub sr_interest_rate : Policy → Result ℤ
  sr_interest_rate p =
      p.sr_coc *W w.wad seconds_in_year /W (w.wad (p.expiration -ℤ p.start) *W p.sr_scr)

  unfoldable pub jr_interest_rate : Policy → Result ℤ
  jr_interest_rate p =
      p.jr_coc *W w.wad seconds_in_year /W (w.wad (p.expiration -ℤ p.start) *W p.jr_scr)

  unfoldable pub sr_accrued_interest : ℤ → Policy → Result ℤ
  sr_accrued_interest now p = do
    rate ← sr_interest_rate p
    p.sr_scr *W w.wad (now -ℤ p.start) *W rate /W w.wad seconds_in_year

  unfoldable pub jr_accrued_interest : ℤ → Policy → Result ℤ
  jr_accrued_interest now p = do
    rate ← jr_interest_rate p
    p.jr_scr *W w.wad (now -ℤ p.start) *W rate /W w.wad seconds_in_year
