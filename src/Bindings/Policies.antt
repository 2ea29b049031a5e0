-- ===== src/Bindings/Policies.antt =====
-- `Policy` and `PolicyDB` of prototype/wrappers.py: the policies of a deployed pool, as the bindings
-- keep them, and the tuples that its contracts take.
use ensuro.Prelude.{ℕ, Bool, ◌&&◌, List, [], ◌∷◌, ◌==◌, if◌then◌else◌}
use ensuro.Prelude.Int.{ℤ, ◌-ℤ◌, ◌=?◌}
use ensuro.Prelude.Calls.{Result, ok, err, Fault, ◌>>=◌}
use ensuro.WadRay.{WadRay, ◌*W◌, ◌/W◌}
use ensuro.RiskModule.State.{seconds_in_year}
use ensuro.Policy.Defs.{Policy}

-- `Policy.PolicyData` (contracts/Policy.sol), which the event `NewPolicy` carries.
pub record PolicyData : Type 0 where
  pub id : ℤ
  pub payout : ℤ
  pub premium : ℤ
  pub jr_scr : ℤ
  pub sr_scr : ℤ
  pub loss_prob : ℤ
  pub pure_premium : ℤ
  pub ensuro_commission : ℤ
  pub partner_commission : ℤ
  pub jr_coc : ℤ
  pub sr_coc : ℤ
  pub risk_module : ℕ
  pub start : ℤ
  pub expiration : ℤ

-- The struct as the contracts take it: a tuple in the order of `FIELDS`.
abbrev pub PolicyTuple : Type 0
PolicyTuple = ℤ × ℤ × ℤ × ℤ × ℤ × ℤ × ℤ × ℤ × ℤ × ℤ × ℤ × ℕ × ℤ × ℤ

-- `Policy`: `address` is its field `_risk_module`, and `risk_module` the address's name.
pub record BoundPolicy : Type 0 where
  pub id : ℤ
  pub address : ℕ
  pub risk_module : ℕ
  pub payout : ℤ
  pub premium : ℤ
  pub jr_scr : ℤ
  pub sr_scr : ℤ
  pub loss_prob : ℤ
  pub start : ℤ
  pub expiration : ℤ
  pub pure_premium : ℤ
  pub ensuro_commission : ℤ
  pub partner_commission : ℤ
  pub sr_coc : ℤ
  pub jr_coc : ℤ

unfoldable pub as_tuple : BoundPolicy → PolicyTuple
as_tuple p = (
  p.id, p.payout, p.premium, p.jr_scr, p.sr_scr, p.loss_prob, p.pure_premium, p.ensuro_commission,
  p.partner_commission, p.jr_coc, p.sr_coc, p.address, p.start, p.expiration,
)

-- `get_name` is the address book's.
unfoldable pub from_policy_data : (ℕ → ℕ) → PolicyData → BoundPolicy
from_policy_data get_name d = record {
  id = d.id;
  address = d.risk_module;
  risk_module = get_name d.risk_module;
  payout = d.payout;
  premium = d.premium;
  jr_scr = d.jr_scr;
  sr_scr = d.sr_scr;
  loss_prob = d.loss_prob;
  start = d.start;
  expiration = d.expiration;
  pure_premium = d.pure_premium;
  ensuro_commission = d.ensuro_commission;
  partner_commission = d.partner_commission;
  sr_coc = d.sr_coc;
  jr_coc = d.jr_coc;
}

abbrev pub fake_rm_address : ℕ
fake_rm_address = 0x7291Ba1DC551b666c49Da22dE76eC7ceEB51AeDC

-- A policy of the prototype, whose risk module has no address.
unfoldable pub from_prototype_policy : (ℕ → ℕ) → Policy → BoundPolicy
from_prototype_policy get_name p = record {
  id = p.id;
  address = fake_rm_address;
  risk_module = get_name fake_rm_address;
  payout = p.payout;
  premium = p.premium;
  jr_scr = p.jr_scr;
  sr_scr = p.sr_scr;
  loss_prob = p.loss_prob;
  start = p.start;
  expiration = p.expiration;
  pure_premium = p.pure_premium;
  ensuro_commission = p.ensuro_commission;
  partner_commission = p.partner_commission;
  sr_coc = p.sr_coc;
  jr_coc = p.jr_coc;
}

module _ ⦃w : WadRay⦄ where
  unfoldable pub sr_interest_rate : BoundPolicy → Result ℤ
  sr_interest_rate p =
      p.sr_coc *W w.wad seconds_in_year /W (w.wad (p.expiration -ℤ p.start) *W p.sr_scr)

  unfoldable pub jr_interest_rate : BoundPolicy → Result ℤ
  jr_interest_rate p =
      p.jr_coc *W w.wad seconds_in_year /W (w.wad (p.expiration -ℤ p.start) *W p.jr_scr)

  unfoldable pub sr_accrued_interest : ℤ → BoundPolicy → Result ℤ
  sr_accrued_interest now p = do
    rate ← sr_interest_rate p
    p.sr_scr *W w.wad (now -ℤ p.start) *W rate /W w.wad seconds_in_year

  unfoldable pub jr_accrued_interest : ℤ → BoundPolicy → Result ℤ
  jr_accrued_interest now p = do
    rate ← jr_interest_rate p
    p.jr_scr *W w.wad (now -ℤ p.start) *W rate /W w.wad seconds_in_year

-- `PolicyDB._policies`, a dictionary with pairs of a pool's address and an id for keys.
abbrev pub PolicyDb : Type 0
PolicyDb = List ((ℕ × ℤ) × BoundPolicy)

abbrev pub same_key : ℕ × ℤ → ℕ × ℤ → Bool
same_key (a, i) (b, j) = (a == b) && (i =? j)

unfoldable pub put_entry : ℕ × ℤ → BoundPolicy → PolicyDb → PolicyDb
put_entry k p [] = (k, p) ∷ []
put_entry k p ((j, q) ∷ db) = if same_key k j then (k, p) ∷ db else (j, q) ∷ put_entry k p db

unfoldable pub add_policy : ℕ → BoundPolicy → PolicyDb → PolicyDb
add_policy pool p db = put_entry (pool, p.id) p db

unfoldable pub get_policy : ℕ → ℤ → PolicyDb → Result BoundPolicy
get_policy pool i [] = err Fault.key_error
get_policy pool i ((k, p) ∷ db) =
    let rest = get_policy pool i db in if same_key (pool, i) k then ok p else rest
