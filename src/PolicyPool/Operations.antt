-- ===== src/PolicyPool/Operations.antt =====
-- `PolicyPool`: deposits, new and replaced policies, expirations and resolutions
-- (prototype/ensuro.py).
use ensuro.Prelude.{ℕ, Bool, true, false, ◌&&◌, ◌||◌, Option, List, [], ◌∷◌, ◌==◌, if◌then◌else◌}
use ensuro.Prelude.Int.{ℤ, pos, ◌-ℤ◌, ◌≤?◌, ◌<?◌, ◌=?◌}
use ensuro.Prelude.Calls.{Fault, Result, ok, ◌>>=◌, ◌>>◌, require, or_fault}
use ensuro.Prelude.Dict.{entry}
use ensuro.WadRay.{WadRay}
use ensuro.Outside.{Outside, TokenBase}
use ensuro.EToken.Liquidity
use ensuro.RiskModule.State.{RiskModule}
use ensuro.Policy.{Policy}
use ensuro.World.{World, put_etk}
use ensuro.PremiumsAccount.State.{PremiumsAccount}
use ensuro.PremiumsAccount.Policies.{
  policy_created, policy_replaced, policy_resolved_with_payout, policy_expired,
}
use ensuro.PolicyPool.State.{
  Nft, Pool, find_policy, put_policy, remove_policy, make_policy_id, put_account, put_risk_module,
}
use ensuro.PolicyPool.Premiums.{Parties, collect, collect_replacement}

-- The second argument of `resolve_policy`: an amount, or a Boolean.
pub data Payout : Type 0 where
  wad_amount : ℤ → Payout
  customer_won : Bool → Payout

unfoldable pub payout_of : Policy → Payout → ℤ
payout_of p (wad_amount x) = x
payout_of p (customer_won true) = p.payout
payout_of p (customer_won false) = pos 0

-- `RiskModule.remove_policy`
unfoldable pub release_exposure : ℤ → RiskModule → RiskModule
release_exposure payout rm = record rm { active_exposure = rm.active_exposure -ℤ payout }

-- The comparison of all fields in `replace_policy`.
unfoldable pub not_smaller : Policy → Policy → Bool
not_smaller old new =
    old.payout ≤? new.payout
    && (old.pure_premium ≤? new.pure_premium)
    && (old.ensuro_commission ≤? new.ensuro_commission)
    && (old.jr_coc ≤? new.jr_coc)
    && (old.sr_coc ≤? new.sr_coc)
    && (old.jr_scr ≤? new.jr_scr)
    && (old.sr_scr ≤? new.sr_scr)
    && (old.partner_commission ≤? new.partner_commission)
    && (old.expiration ≤? new.expiration)
    && (old.risk_module == new.risk_module)

module _ {L W N : Type 0} where
  -- The premiums account of a policy's risk module.
  unfoldable pub account_of : Policy → Pool L W N → ℕ
  account_of p s = (s.risk_modules p.risk_module).premiums_account

  -- The books after a policy has left: its payout is taken from the exposure and it is deleted.
  unfoldable pub close_policy : Policy → ℤ → Pool L W N → Pool L W N
  close_policy p policy_id s =
      let rm = release_exposure p.payout (s.risk_modules p.risk_module) in
      let s' = put_risk_module p.risk_module rm s in
      record s' { policies = remove_policy policy_id s'.policies }

  unfoldable pub parties : ℕ → ℕ → Policy → Pool L W N → Parties
  parties payer holder p s = record {
    pool = s.contract_id;
    payer = payer;
    holder = holder;
    wallet = (s.risk_modules p.risk_module).wallet;
    treasury = s.treasury;
  }

module _ {L W N : Type 0} ⦃w : WadRay⦄ ⦃b : TokenBase L⦄ ⦃o : Outside W⦄ ⦃n : Nft N⦄ where
  -- `name` is the eToken's, a key of `etokens`.
  unfoldable pub deposit : ℕ → ℕ → ℤ → Pool L W N → Result (ℤ × Pool L W N)
  deposit name provider amount s = do
    etoken ← or_fault (entry name s.etokens) Fault.key_error
    x ← o.transfer_from s.contract_id provider etoken amount s.world.out
    r ← Liquidity.deposit s.world.now provider amount (s.world.etk etoken) x
    ok (r.0, record s { world = record (put_etk etoken r.1 s.world) { out = x } })

  unfoldable pub withdraw : ℕ → ℕ → Option ℤ → Pool L W N → Result (ℤ × Pool L W N)
  withdraw name provider amount s = do
    etoken ← or_fault (entry name s.etokens) Fault.key_error
    r ← Liquidity.withdraw s.world.now provider amount (s.world.etk etoken) s.world.out
    ok (r.0, record s { world = record (put_etk etoken r.1 s.world) { out = r.2 } })

  -- The result is the policy with its id.
  unfoldable pub new_policy : Policy → ℕ → ℕ → ℤ → Pool L W N → Result (Policy × Pool L W N)
  new_policy policy payer policy_holder internal_id s = do
    let p = record policy { id = make_policy_id n.digest policy.risk_module internal_id }
    nft ← n.mint policy_holder p.id s.nft
    let a = account_of p s
    r ← policy_created p (s.accounts a) s.world
    x ← collect (parties payer policy_holder p s) r.0 p r.1.out
    ok (
      p,
      record (put_account a r.0 s) {
        policies = put_policy p.id p s.policies;
        nft = nft;
        world = record r.1 { out = x };
      },
    )

  -- `old_id` is the id of the policy that is replaced.
  unfoldable pub replace_policy : ℤ → Policy → ℕ → ℤ → Pool L W N → Result (Policy × Pool L W N)
  replace_policy old_id policy payer internal_id s = do
    old ← or_fault (find_policy old_id s.policies) Fault.policy_unknown
    require (policy.start =? old.start) Fault.other_start
    require (not_smaller old policy) Fault.policy_smaller
    let p = record policy { id = make_policy_id n.digest policy.risk_module internal_id }
    holder ← n.owner_of s.nft old.id
    nft ← n.mint holder p.id s.nft
    let a = account_of p s
    r ← policy_replaced old p (s.accounts a) s.world
    x ← collect_replacement (parties payer holder p s) r.0 old p r.1.out
    ok (
      p,
      record (put_account a r.0 s) {
        policies = remove_policy old.id (put_policy p.id p s.policies);
        nft = nft;
        world = record r.1 { out = x };
      },
    )

  -- A resolution with a payout, or as an expiration.
  unfoldable pub settle : Policy → ℤ → Pool L W N → Result (PremiumsAccount × World L W)
  settle p payout s =
      let pa = s.accounts (account_of p s) in
      if pos 0 <? payout
      then (do
        owner ← n.owner_of s.nft p.id
        r ← policy_resolved_with_payout owner p payout pa s.world
        ok (r.1, r.2))
      else policy_expired p pa s.world

  unfoldable pub resolve_policy : ℤ → Payout → Pool L W N → Result (Pool L W N)
  resolve_policy policy_id asked s = do
    p ← or_fault (find_policy policy_id s.policies) Fault.policy_unknown
    let payout = payout_of p asked
    require (payout =? pos 0 || (s.world.now <? p.expiration)) Fault.pays_expired
    r ← settle p payout s
    ok (close_policy p policy_id (record (put_account (account_of p s) r.0 s) { world = r.1 }))

  unfoldable pub expire_policy : ℤ → Pool L W N → Result (Pool L W N)
  expire_policy policy_id s = do
    p ← or_fault (find_policy policy_id s.policies) Fault.policy_unknown
    require (p.expiration ≤? s.world.now) Fault.policy_not_expired
    resolve_policy policy_id (wad_amount (pos 0)) s

  unfoldable pub expire_policies : List ℤ → Pool L W N → Result (Pool L W N)
  expire_policies [] s = ok s
  expire_policies (policy_id ∷ ids) s = do s' ← expire_policy policy_id s; expire_policies ids s'
