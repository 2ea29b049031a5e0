-- ===== src/Bindings/Buckets.antt =====
-- `SignedBucketRiskModule.fetch_buckets` (prototype/wrappers.py): the buckets' parameters, rebuilt
-- from the events of the deployed contract.
use ensuro.Prelude.{
  ℕ, Bool, true, false, none, some, List, [], ◌∷◌, ◌++◌, ◌==◌, ltb, leb, if◌then◌else◌,
}
use ensuro.Prelude.Int.{ℤ}
use ensuro.Prelude.Dict.{entry, enter, leave}
use ensuro.Prelude.Calls.{Result, ok, err, Fault, ◌>>=◌}
use ensuro.RiskModule.State.{BucketParams}

-- The contract's parameters, in the order of `bucket_tuple_fields`.
abbrev pub BucketTuple : Type 0
BucketTuple = ℤ × ℤ × ℤ × ℤ × ℤ × ℤ × ℤ

-- `BucketParams.from_contract_bucket_params`
unfoldable pub from_contract_bucket_params : BucketTuple → BucketParams
from_contract_bucket_params (m, jr, cr, pp_fee, coc_fee, jr_rate, sr_rate) = record {
  moc = m;
  jr_coll_ratio = jr;
  coll_ratio = cr;
  ensuro_pp_fee = pp_fee;
  ensuro_coc_fee = coc_fee;
  jr_roc = jr_rate;
  sr_roc = sr_rate;
}

-- `evt.args.params` of a `NewBucket` event: a dictionary with these names.
pub record EventParams : Type 0 where
  pub coll_ratio : ℤ
  pub ensuro_coc_fee : ℤ
  pub ensuro_pp_fee : ℤ
  pub jr_coll_ratio : ℤ
  pub jr_roc : ℤ
  pub moc : ℤ
  pub sr_roc : ℤ

unfoldable pub bucket_tuple : EventParams → BucketTuple
bucket_tuple p =
    (p.moc, p.jr_coll_ratio, p.coll_ratio, p.ensuro_pp_fee, p.ensuro_coc_fee, p.jr_roc, p.sr_roc)

pub data BucketChange : Type 0 where
  new_bucket : ℕ → EventParams → BucketChange
  bucket_deleted : ℕ → BucketChange

pub record BucketEvent : Type 0 where
  pub block_number : ℕ
  pub transaction_index : ℕ
  pub args : BucketChange

abbrev pub is_new : BucketChange → Bool
is_new (new_bucket k p) = true
is_new (bucket_deleted k) = false

-- `<=` of the pairs that `sorted` compares.
abbrev pub leb_key : BucketEvent → BucketEvent → Bool
leb_key e f =
    if e.block_number == f.block_number
    then leb e.transaction_index f.transaction_index
    else ltb e.block_number f.block_number

-- `sorted`, which leaves events with the same key in the order that they have.
unfoldable pub place : BucketEvent → List BucketEvent → List BucketEvent
place e [] = e ∷ []
place e (f ∷ events) = if leb_key e f then e ∷ f ∷ events else f ∷ place e events

unfoldable pub sorted : List BucketEvent → List BucketEvent
sorted [] = []
sorted (e ∷ events) = place e (sorted events)

-- The dictionary `buckets`.
abbrev pub BucketTuples : Type 0
BucketTuples = List (ℕ × BucketTuple)

-- `buckets.pop(k)`
unfoldable pub pop_bucket : ℕ → BucketTuples → Result BucketTuples
pop_bucket k d = elim (entry k d) [ none ↦ err Fault.key_error | some v ↦ ok (leave k d) ]

-- The loop over the sorted events, and its body.
unfoldable pub apply_change : BucketChange → BucketTuples → Result BucketTuples
apply_change (new_bucket k params) d = ok (enter k (bucket_tuple params) d)
apply_change (bucket_deleted k) d = pop_bucket k d

unfoldable pub apply_changes : List BucketEvent → BucketTuples → Result BucketTuples
apply_changes [] d = ok d
apply_changes (e ∷ events) d = do d' ← apply_change e.args d; apply_changes events d'

-- What `get_events` gives for the two names, and `fetch_buckets` of it.
unfoldable pub fetch_buckets : List BucketEvent → List BucketEvent → Result BucketTuples
fetch_buckets new_bucket_events delete_bucket_events =
    apply_changes (sorted (new_bucket_events ++ delete_bucket_events)) []
