-- ===== src/Bindings/Calls.antt =====
-- The calls on policies in prototype/wrappers.py: `new_policy`, `replace_policy` and `resolve_policy`
-- of the risk modules, `expire_policy` and `expire_policies` of the pool.
use ensuro.Prelude.{ℕ, ◌-◌, ◌*◌, ◌^◌, Bool, Option, none, some, List, [], ◌∷◌, zero, suc}
use ensuro.Prelude.Int.{ℤ, pos, ◌+ℤ◌}
use ensuro.Prelude.Calls.{Result, ok, err, Fault, ◌>>=◌}
use ensuro.Bindings.Policies.{
  PolicyData, PolicyTuple, BoundPolicy, PolicyDb, as_tuple, from_policy_data, add_policy,
  get_policy,
}

abbrev pub max_uint : ℤ
max_uint = pos (2 ^ 256 - 1)

-- The keyword arguments of `new_policy`; `none` is one that is not given.
pub record PolicyArgs : Type 0 where
  pub payout : ℤ
  pub premium : Option ℤ
  pub loss_prob : ℤ
  pub expiration : ℤ
  pub on_behalf_of : Option ℕ
  pub payer : Option ℕ
  pub internal_id : ℤ

-- The arguments once the missing ones are filled in; a `payer` of `none` is Python's `None`.
pub record FullArgs : Type 0 where
  pub payout : ℤ
  pub premium : ℤ
  pub loss_prob : ℤ
  pub expiration : ℤ
  pub on_behalf_of : Option ℕ
  pub payer : Option ℕ
  pub internal_id : ℤ

-- What `resolve_policy` is given: whether the customer won, or an amount.
pub data Outcome : Type 0 where
  won : Bool → Outcome
  amount : ℤ → Outcome

-- An argument of `expire_policy`: an id, or the policy's tuple.
pub data PolicyRef : Type 0 where
  with_id : ℤ → PolicyRef
  with_tuple : PolicyTuple → PolicyRef

-- The deployed contracts, which are no part of the bindings: each call sends a transaction. Of the
-- receipt, a call that makes a policy gives the event `NewPolicy` if there is one.
pub record Deployed (N : Type 0) : Type 0 where
  pub new_policy_ : FullArgs → N → Result (N × Option PolicyData)
  pub replace_policy_ : PolicyTuple → FullArgs → N → Result (N × Option PolicyData)
  pub resolve_policy_full_payout : PolicyTuple → Bool → N → Result N
  pub resolve_policy_ : PolicyTuple → ℤ → N → Result N
  pub expire_policy_ : PolicyTuple → N → Result N
  pub expire_policies_ : List PolicyTuple → N → Result N

abbrev pub premium_or_max : Option ℤ → ℤ
premium_or_max none = max_uint
premium_or_max (some premium) = premium

abbrev pub payer_or : Option ℕ → Option ℕ → Option ℕ
payer_or none on_behalf_of = on_behalf_of
payer_or (some payer) on_behalf_of = some payer

unfoldable pub filled : PolicyArgs → FullArgs
filled args = record {
  payout = args.payout;
  premium = premium_or_max args.premium;
  loss_prob = args.loss_prob;
  expiration = args.expiration;
  on_behalf_of = args.on_behalf_of;
  payer = payer_or args.payer args.on_behalf_of;
  internal_id = args.internal_id;
}

-- `replace_policy` fills in the premium alone.
unfoldable pub premium_filled : PolicyArgs → FullArgs
premium_filled args = record {
  payout = args.payout;
  premium = premium_or_max args.premium;
  loss_prob = args.loss_prob;
  expiration = args.expiration;
  on_behalf_of = args.on_behalf_of;
  payer = args.payer;
  internal_id = args.internal_id;
}

-- The global `policy_db` and the chain.
abbrev pub Bound : Type 0 → Type 0
Bound N = PolicyDb × N

-- What is done with a receipt: the new policy is stored under the pool's address.
unfoldable pub store_receipt :
    {N : Type 0} → (ℕ → ℕ) → ℕ → PolicyDb → N × Option PolicyData → Option BoundPolicy × Bound N
store_receipt get_name pool db (chain, none) = (none, (db, chain))
store_receipt get_name pool db (chain, some d) =
    let p = from_policy_data get_name d in (some p, (add_policy pool p db, chain))

-- `int(rm_addr, 16)` is the argument `address`.
unfoldable pub make_policy_id : ℕ → ℤ → ℤ
make_policy_id address internal_id = pos (address * 2 ^ 96) +ℤ internal_id

module _ {N : Type 0} ⦃c : Deployed N⦄ (get_name : ℕ → ℕ) (pool : ℕ) where
  unfoldable pub new_policy : PolicyArgs → Bound N → Result (Option BoundPolicy × Bound N)
  new_policy args (db, chain) = do
    receipt ← c.new_policy_ (filled args) chain
    ok (store_receipt get_name pool db receipt)

  unfoldable pub replace_policy :
      BoundPolicy → PolicyArgs → Bound N → Result (Option BoundPolicy × Bound N)
  replace_policy old args (db, chain) = do
    receipt ← c.replace_policy_ (as_tuple old) (premium_filled args) chain
    ok (store_receipt get_name pool db receipt)

-- The tuples of a list of ids. A tuple is no key of the dictionary.
unfoldable pub stored_tuples : ℕ → List PolicyRef → PolicyDb → Result (List PolicyTuple)
stored_tuples pool [] db = ok []
stored_tuples pool (with_tuple policy ∷ refs) db = err Fault.key_error
stored_tuples pool (with_id policy_id ∷ refs) db = do
  policy ← get_policy pool policy_id db
  tuples ← stored_tuples pool refs db
  ok (as_tuple policy ∷ tuples)

module _ {N : Type 0} ⦃c : Deployed N⦄ where
  -- The last line of `resolve_policy`.
  unfoldable pub send_outcome : PolicyTuple → Outcome → N → Result N
  send_outcome policy (won customer_won) chain =
      c.resolve_policy_full_payout policy customer_won chain
  send_outcome policy (amount payout) chain = c.resolve_policy_ policy payout chain

module _ {N : Type 0} ⦃c : Deployed N⦄ (pool : ℕ) where
  unfoldable pub resolve_policy : ℤ → Outcome → Bound N → Result N
  resolve_policy policy_id outcome (db, chain) = do
    policy ← get_policy pool policy_id db
    send_outcome (as_tuple policy) outcome chain

  unfoldable pub expire_policy : PolicyRef → Bound N → Result N
  expire_policy (with_tuple policy) (db, chain) = c.expire_policy_ policy chain
  expire_policy (with_id policy_id) (db, chain) = do
    policy ← get_policy pool policy_id db
    c.expire_policy_ (as_tuple policy) chain

  -- On fuel, since `expire_policies` calls itself: `none` where that call goes on.
  unfoldable pub expire_policies : ℕ → List PolicyRef → Bound N → Option (Result N)
  expire_policies zero refs s = none
  expire_policies (suc fuel) [] s = some (err Fault.assertion_failed)
  expire_policies (suc fuel) (with_tuple policy ∷ refs) s =
      expire_policies fuel (with_tuple policy ∷ refs) s
  expire_policies (suc fuel) (with_id policy_id ∷ refs) (db, chain) = some (do
    tuples ← stored_tuples pool (with_id policy_id ∷ refs) db
    c.expire_policies_ tuples chain)
