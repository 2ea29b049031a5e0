-- ===== src/RiskModule/Buckets.antt =====
-- The price parameters of the buckets that a `SignedBucketRiskModule` has (prototype/ensuro.py).
use ensuro.Prelude.{
  ◌≡◌, refl, arith, Bool-cases, false, none, some, [], ◌∷◌, inl, inr, if◌then◌else◌,
}
use ensuro.Prelude.Int.{ℤ, ◌=?◌, =?_true}
use ensuro.Prelude.Calls.{ok, Returns, returns, Returns-after, Returns-eq_ok}
use ensuro.RiskModule.State.{RiskModule, BucketParams, from_rm}
use ensuro.RiskModule.Pricing.{
  Buckets, find_bucket, set_bucket_params, delete_bucket, bucket_params,
}

-- No bucket has two entries.
OneEach : Buckets → Type 0
OneEach [] = Unit
OneEach ((k, v) ∷ d) = (find_bucket k d ≡ none) × OneEach d

-- The buckets that calls lead to from none.
pub data Kept : Buckets → Type 0 where
  no_buckets : Kept []
  set : {d : Buckets} (k : ℤ) (v : BucketParams) → Kept d → Kept (set_bucket_params k v d)
  deleted : {d d' : Buckets} (k : ℤ) → Kept d → delete_bucket k d ≡ ok d' → Kept d'

find-set :
    (j k : ℤ) (v : BucketParams) (d : Buckets)
    → find_bucket j (set_bucket_params k v d) ≡ (if j =? k then some v else find_bucket j d)
unfolding find_bucket set_bucket_params
find-set j k v [] = refl
find-set j k v ((i, u) ∷ d) = ground (arith, find-set j k v d)

OneEach-set :
    (k : ℤ) (v : BucketParams) (d : Buckets) → OneEach d → OneEach (set_bucket_params k v d)
unfolding OneEach set_bucket_params find_bucket
OneEach-set k v [] h = (refl, tt)
OneEach-set k v ((j, u) ∷ d) (absent, h) = elim (Bool-cases (k =? j)) [
  | inl same ↦ let equal = =?_true k j same in rw (same, equal) (absent, h)
  | inr other ↦
      let apart : (j =? k) ≡ false = ground arith in
      let still : find_bucket j (set_bucket_params k v d) ≡ none =
        rw (find-set j k v d, apart) absent in
      rw other (still, OneEach-set k v d h)
]

-- The entries after a deletion.
Deleted : ℤ → Buckets → Buckets → Type 0
Deleted k d d' = (j : ℤ) → find_bucket j d' ≡ (if j =? k then none else find_bucket j d)

delete-Returns :
    (k : ℤ) (d : Buckets)
    → OneEach d
    → Returns (λ d'. OneEach d' × Deleted k d d') (delete_bucket k d)
unfolding OneEach delete_bucket Deleted find_bucket
delete-Returns k [] h = Returns.raises
delete-Returns k ((i, u) ∷ d) (absent, h) = elim (Bool-cases (k =? i)) [
  | inl same ↦
      let equal = =?_true k i same in
      let gone : find_bucket k d ≡ none = rw equal absent in
      rw same (returns (h, λ j. only_entry j k i d u equal gone))
  | inr other ↦ rw other (
      Returns-after _ _ (delete-Returns k d h) λ d' _ (h', entries).
        let apart : (i =? k) ≡ false = ground arith in
        returns ((rw (entries i, apart) absent, h'), λ j. ground (arith, entries j, apart)))
]
  where
    only_entry :
        (j k i : ℤ) (d : Buckets) (u : BucketParams)
        → k ≡ i
        → find_bucket k d ≡ none
        → find_bucket j d ≡ (if j =? k then none else (if j =? i then some u else find_bucket j d))
    only_entry j k i d u equal gone = elim (Bool-cases (j =? k)) [
      | inl same ↦ let j_is = =?_true j k same in rw (same, j_is) gone
      | inr other ↦ let apart : (j =? i) ≡ false = rw (← equal) other in rw (other, apart) refl
    ]

Kept-OneEach : {d : Buckets} → Kept d → OneEach d
unfolding OneEach
Kept-OneEach Kept.no_buckets = tt
Kept-OneEach (Kept.set {d} k v before) = OneEach-set k v d (Kept-OneEach before)
Kept-OneEach (Kept.deleted {d} k before e) =
    (Returns-eq_ok _ (delete-Returns k d (Kept-OneEach before)) e).0

-- After `set_bucket_params` a bucket's prices are the ones given, and every other bucket has those
-- that it had, its own or the module's.
pub bucket_params-set_bucket_params :
    (rm : RiskModule) (j k : ℤ) (v : BucketParams) (d : Buckets)
    → bucket_params rm (set_bucket_params k v d) j ≡ (if j =? k then v else bucket_params rm d j)
unfolding bucket_params
bucket_params-set_bucket_params rm j k v d = elim (Bool-cases (j =? k)) [
  | inl same ↦ rw (bucket_params, find-set j k v d, same) refl
  | inr other ↦ rw (bucket_params, find-set j k v d, other) refl
]

-- Of buckets that calls lead to from none, a deletion takes one alone: that bucket has the
-- module's own prices from then on, and every other one has those that it had.
pub bucket_params-delete_bucket :
    (rm : RiskModule) (j k : ℤ) {d d' : Buckets}
    → Kept d
    → delete_bucket k d ≡ ok d'
    → bucket_params rm d' j ≡ (if j =? k then from_rm rm else bucket_params rm d j)
unfolding bucket_params Deleted
bucket_params-delete_bucket rm j k {d} {d'} kept gone =
    let (_, entries) = Returns-eq_ok _ (delete-Returns k d (Kept-OneEach kept)) gone in
    elim (Bool-cases (j =? k)) [
      | inl same ↦ rw (bucket_params, entries j, same) refl
      | inr other ↦ rw (bucket_params, entries j, other) refl
    ]
