-- ===== src/Bindings/Stored.antt =====
-- The policies that the bindings store (prototype/wrappers.py) are those of the chain's events, when
-- they are passed back to the contracts.
use ensuro.Prelude.{
  ℕ, ◌≡◌, refl, sym, subst, arith, true, false, Bool-cases, inl, inr, none, some, List, [], ◌∷◌,
  if◌then◌else◌, map, zero, suc,
}
use ensuro.Prelude.Int.{ℤ, ◌=?◌, =?_true}
use ensuro.Prelude.Calls.{ok, ◌>>=◌}
use ensuro.Bindings.Policies.{
  PolicyData, PolicyTuple, BoundPolicy, PolicyDb, as_tuple, from_policy_data, same_key, put_entry,
  add_policy, get_policy,
}
use ensuro.Bindings.Calls.{
  PolicyArgs, Outcome, PolicyRef, with_id, with_tuple, Deployed, filled, store_receipt,
  stored_tuples, new_policy, send_outcome, resolve_policy, expire_policies,
}

-- The struct of an event, in the order of its fields.
abbrev pub event_tuple : PolicyData → PolicyTuple
event_tuple d = (
  d.id, d.payout, d.premium, d.jr_scr, d.sr_scr, d.loss_prob, d.pure_premium, d.ensuro_commission,
  d.partner_commission, d.jr_coc, d.sr_coc, d.risk_module, d.start, d.expiration,
)

key_equal : (k j : ℕ × ℤ) → same_key k j ≡ true → k ≡ j
key_equal (a, i) (b, j) h =
    let pools : a ≡ b = ground arith in
    let ids : (i =? j) ≡ true = ground arith in
    let ids_equal = =?_true i j ids in rw (pools, ids_equal) refl

get_policy-put_entry :
    (pool : ℕ) (i : ℤ) (k : ℕ × ℤ) (p : BoundPolicy) (db : PolicyDb)
    → get_policy pool i (put_entry k p db)
      ≡ (if same_key (pool, i) k then ok p else get_policy pool i db)
unfolding get_policy put_entry
get_policy-put_entry pool i k p [] = refl
get_policy-put_entry pool i k p ((j, q) ∷ db) = elim (Bool-cases (same_key k j)) [
  | inl same ↦
      let equal = key_equal k j same in
      rw (same, ← equal)
        (elim (Bool-cases (same_key (pool, i) k)) [
          | inl hit ↦ rw hit refl
          | inr miss ↦ rw miss refl
        ])
  | inr other ↦
      rw (other, get_policy-put_entry pool i k p db)
        (elim (Bool-cases (same_key (pool, i) k)) [
          | inl hit ↦
              let equal = key_equal (pool, i) k hit in
              let apart : same_key (pool, i) j ≡ false =
                subst (λ k'. same_key k' j ≡ false) (sym equal) other in
              rw (hit, apart) refl
          | inr miss ↦ rw miss refl
        ])
]

-- Policies stored one after the other.
unfoldable pub add_all : ℕ → List BoundPolicy → PolicyDb → PolicyDb
add_all pool [] db = db
add_all pool (p ∷ later) db = add_all pool later (add_policy pool p db)

-- None of them has the id.
unfoldable pub Without : ℤ → List BoundPolicy → Type 0
Without i [] = Unit
Without i (p ∷ later) = ((i =? p.id) ≡ false) × Without i later

get_policy-add_all :
    (pool : ℕ) (i : ℤ) (later : List BoundPolicy) (db : PolicyDb)
    → Without i later
    → get_policy pool i (add_all pool later db) ≡ get_policy pool i db
unfolding add_all Without add_policy
get_policy-add_all pool i [] db h = refl
get_policy-add_all pool i (p ∷ later) db (apart, h) =
    let miss : same_key (pool, i) (pool, p.id) ≡ false = ground arith in
    rw
      (
        get_policy-add_all pool i later (add_policy pool p db) h,
        get_policy-put_entry pool i (pool, p.id) p db,
        miss,
      )
      refl

get_policy-added :
    (pool : ℕ) (p : BoundPolicy) (later : List BoundPolicy) (db : PolicyDb)
    → Without p.id later
    → get_policy pool p.id (add_all pool later (add_policy pool p db)) ≡ ok p
unfolding add_policy
get_policy-added pool p later db h =
    let hit : same_key (pool, p.id) (pool, p.id) ≡ true = ground arith in
    rw
      (
        get_policy-add_all pool p.id later (add_policy pool p db) h,
        get_policy-put_entry pool p.id (pool, p.id) p db,
        hit,
      )
      refl

module _ {N : Type 0} ⦃c : Deployed N⦄ (get_name : ℕ → ℕ) (pool : ℕ) where
  pub resolve_policy-new_policy :
      (args : PolicyArgs) (db : PolicyDb) (chain chain' : N) (d : PolicyData)
      → c.new_policy_ (filled args) chain ≡ ok (chain', some d)
      → (later : List BoundPolicy) → Without d.id later
      → (outcome : Outcome) (chain'' : N)
      → (db' : PolicyDb) × (new_policy get_name pool args (db, chain)
          ≡ ok (some (from_policy_data get_name d), (db', chain')))
        × (resolve_policy pool d.id outcome (add_all pool later db', chain'')
            ≡ send_outcome (event_tuple d) outcome chain'')
  unfolding new_policy resolve_policy ◌>>=◌ store_receipt from_policy_data as_tuple add_policy
  resolve_policy-new_policy args db chain chain' d sent later h outcome chain'' = (
    add_policy pool (from_policy_data get_name d) db,
    rw sent refl,
    rw (get_policy-added pool (from_policy_data get_name d) later db h) refl,
  )

-- The database has each event's policy.
unfoldable pub Stored : (ℕ → ℕ) → ℕ → PolicyDb → List PolicyData → Type 0
Stored get_name pool db [] = Unit
Stored get_name pool db (d ∷ ds) =
    (get_policy pool d.id db ≡ ok (from_policy_data get_name d)) × Stored get_name pool db ds

abbrev pub id_of : PolicyData → PolicyRef
id_of d = with_id d.id

stored_tuples_lem :
    (get_name : ℕ → ℕ) (pool : ℕ) (db : PolicyDb) (ds : List PolicyData)
    → Stored get_name pool db ds
    → stored_tuples pool (map id_of ds) db ≡ ok (map event_tuple ds)
unfolding stored_tuples Stored ◌>>=◌ from_policy_data as_tuple
stored_tuples_lem get_name pool db [] h = refl
stored_tuples_lem get_name pool db (d ∷ ds) (stored, h) =
    rw (stored, stored_tuples_lem get_name pool db ds h) refl

module _ {N : Type 0} ⦃c : Deployed N⦄ (pool : ℕ) where
  -- For ids of stored policies, `expire_policies` returns whatever the depth of calls, and sends the
  -- contract one transaction with the structs of their events, in the order of the ids. For a list
  -- that starts with a tuple it returns at no depth, since it calls itself with the same list.
  pub expire_policies_lem :
      (get_name : ℕ → ℕ) (db : PolicyDb) (chain : N) (d : PolicyData) (ds : List PolicyData)
      → Stored get_name pool db (d ∷ ds)
      → (fuel : ℕ) (policy : PolicyTuple) (refs : List PolicyRef)
      → (expire_policies pool (suc fuel) (map id_of (d ∷ ds)) (db, chain)
          ≡ some (c.expire_policies_ (map event_tuple (d ∷ ds)) chain))
        × (expire_policies pool fuel (with_tuple policy ∷ refs) (db, chain) ≡ none)
  unfolding expire_policies ◌>>=◌
  expire_policies_lem get_name db chain d ds h fuel policy refs = (sent d ds h, never fuel)
    where
      sent :
          (d : PolicyData) (ds : List PolicyData)
          → Stored get_name pool db (d ∷ ds)
          → expire_policies pool (suc fuel) (map id_of (d ∷ ds)) (db, chain)
            ≡ some (c.expire_policies_ (map event_tuple (d ∷ ds)) chain)
      sent d ds h = rw (stored_tuples_lem get_name pool db (d ∷ ds) h) refl

      never : (fuel : ℕ) → expire_policies pool fuel (with_tuple policy ∷ refs) (db, chain) ≡ none
      never zero = refl
      never (suc fuel) = never fuel
