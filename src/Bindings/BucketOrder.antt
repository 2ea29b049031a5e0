-- ===== src/Bindings/BucketOrder.antt =====
-- The order in which `fetch_buckets` (prototype/wrappers.py) replays a contract's events, and the
-- prototype's risk module after the same calls.
use ensuro.Prelude.{
  ℕ, ◌≡◌, refl, arith, ap, Bool, true, false, Bool-cases, Option-cases, inl, inr, List, [], ◌∷◌,
  ◌++◌, ◌==◌, if◌then◌else◌, ◌⊎◌,
}
use ensuro.Prelude.Int.{pos, ◌=?◌}
use ensuro.Prelude.Dict.{entry, enter, leave}
use ensuro.Prelude.Calls.{Result, ok, err, ◌>>=◌}
use ensuro.RiskModule.State.{BucketParams}
use ensuro.RiskModule.Pricing.{Buckets, set_bucket_params, delete_bucket}
use ensuro.Bindings.Buckets.{
  BucketTuple, BucketTuples, EventParams, new_bucket, bucket_deleted, BucketEvent, BucketChange,
  from_contract_bucket_params, bucket_tuple, is_new, leb_key, place, sorted, pop_bucket,
  apply_change, apply_changes, fetch_buckets,
}

-- The events of one name among a log's.
unfoldable pub of_name : Bool → List BucketEvent → List BucketEvent
of_name new [] = []
of_name true (e ∷ log) = if is_new e.args then e ∷ of_name true log else of_name true log
of_name false (e ∷ log) = if is_new e.args then of_name false log else e ∷ of_name false log

-- `f` may come after `e`: in a later transaction, or in the same one unless it is a new bucket
-- after a deletion.
abbrev MayFollow : BucketEvent → BucketEvent → Type 0
MayFollow e f =
    (leb_key f e ≡ false)
    ⊎ ((leb_key e f ≡ true) × ((is_new e.args ≡ true) ⊎ (is_new f.args ≡ false)))

unfoldable pub AllFollow : BucketEvent → List BucketEvent → Type 0
AllFollow e [] = Unit
AllFollow e (f ∷ log) = MayFollow e f × AllFollow e log

unfoldable pub Chronological : List BucketEvent → Type 0
Chronological [] = Unit
Chronological (e ∷ log) = AllFollow e log × Chronological log

-- The parameters of a `NewBucket` event, each under its own name.
abbrev pub named_params : EventParams → BucketParams
named_params p = record {
  moc = p.moc;
  jr_coll_ratio = p.jr_coll_ratio;
  coll_ratio = p.coll_ratio;
  ensuro_pp_fee = p.ensuro_pp_fee;
  ensuro_coc_fee = p.ensuro_coc_fee;
  jr_roc = p.jr_roc;
  sr_roc = p.sr_roc;
}

-- The same calls on the prototype's risk module.
unfoldable pub call_prototype : BucketChange → Buckets → Result Buckets
call_prototype (new_bucket k params) d = ok (set_bucket_params (pos k) (named_params params) d)
call_prototype (bucket_deleted k) d = delete_bucket (pos k) d

unfoldable pub prototype_calls : List BucketEvent → Buckets → Result Buckets
prototype_calls [] d = ok d
prototype_calls (e ∷ log) d = do d' ← call_prototype e.args d; prototype_calls log d'

leb_key_total : (e f : BucketEvent) → leb_key f e ≡ false → leb_key e f ≡ true
leb_key_total e f h = ground arith

MayFollow-leb_key : (e f : BucketEvent) → MayFollow e f → leb_key e f ≡ true
MayFollow-leb_key e f (inl later) = leb_key_total e f later
MayFollow-leb_key e f (inr (h, _)) = h

place_first : (e : BucketEvent) (log : List BucketEvent) → AllFollow e log → place e log ≡ e ∷ log
unfolding place AllFollow
place_first e [] h = refl
place_first e (f ∷ log) (h, _) = rw (MayFollow-leb_key e f h) refl

AllFollow-place :
    (e f : BucketEvent) (log : List BucketEvent)
    → MayFollow e f
    → AllFollow e log
    → AllFollow e (place f log)
unfolding place AllFollow
AllFollow-place e f [] h tail = (h, tt)
AllFollow-place e f (g ∷ log) h (first, tail) = elim (Bool-cases (leb_key f g)) [
  | inl before ↦ rw before (h, (first, tail))
  | inr after ↦ rw after (first, AllFollow-place e f log h tail)
]

AllFollow-sorted :
    (e : BucketEvent) (log : List BucketEvent) → AllFollow e log → AllFollow e (sorted log)
unfolding sorted AllFollow
AllFollow-sorted e [] h = tt
AllFollow-sorted e (f ∷ log) (h, tail) =
    AllFollow-place e f (sorted log) h (AllFollow-sorted e log tail)

AllFollow-of_name :
    (e : BucketEvent) (log : List BucketEvent) → AllFollow e log → AllFollow e (of_name false log)
unfolding AllFollow of_name
AllFollow-of_name e [] h = tt
AllFollow-of_name e (f ∷ log) (h, tail) = elim (Bool-cases (is_new f.args)) [
  | inl new ↦ rw new (AllFollow-of_name e log tail)
  | inr old ↦ rw old (h, AllFollow-of_name e log tail)
]

-- Every event is in a later transaction than `e`.
unfoldable AllLater : BucketEvent → List BucketEvent → Type 0
AllLater e [] = Unit
AllLater e (f ∷ log) = (leb_key f e ≡ false) × AllLater e log

AllLater-of_name :
    (e : BucketEvent) (log : List BucketEvent)
    → is_new e.args ≡ false
    → AllFollow e log
    → AllLater e (of_name true log)
unfolding AllFollow AllLater of_name
AllLater-of_name e [] old h = tt
AllLater-of_name e (f ∷ log) old (h, tail) = elim (Bool-cases (is_new f.args)) [
  | inl new ↦ rw new (later f new h, AllLater-of_name e log old tail)
  | inr other ↦ rw other (AllLater-of_name e log old tail)
]
  where
    later : (f : BucketEvent) → is_new f.args ≡ true → MayFollow e f → leb_key f e ≡ false
    later f new (inl after) = after
    later f new (inr (_, inl not_old)) = cc
    later f new (inr (_, inr not_new)) = cc

-- A deletion before every event of `deleted`, in an earlier transaction than those of `news`.
sorted_deletion :
    (e : BucketEvent) (news deleted : List BucketEvent)
    → AllLater e news
    → AllFollow e deleted
    → sorted (news ++ e ∷ deleted) ≡ e ∷ sorted (news ++ deleted)
unfolding sorted AllLater place
sorted_deletion e [] deleted later h = place_first e (sorted deleted) (AllFollow-sorted e deleted h)
sorted_deletion e (f ∷ news) deleted (h, later) follow =
    rw (sorted_deletion e news deleted later follow, h) refl

sorted_log :
    (log : List BucketEvent)
    → Chronological log
    → sorted (of_name true log ++ of_name false log) ≡ log
unfolding sorted of_name Chronological
sorted_log [] h = refl
sorted_log (e ∷ log) (h, chronological) = elim (Bool-cases (is_new e.args)) [
  | inl new ↦ rw (new, sorted_log log chronological) (place_first e log h)
  | inr old ↦
      let same =
        sorted_deletion e (of_name true log) (of_name false log) (AllLater-of_name e log old h)
          (AllFollow-of_name e log h) in
      rw (old, same, sorted_log log chronological) refl
]

-- The dictionary of the prototype's risk module for one of the binding.
unfoldable pub as_prototype : BucketTuples → Buckets
as_prototype [] = []
as_prototype ((k, params) ∷ d) = (pos k, from_contract_bucket_params params) ∷ as_prototype d

set-as_prototype :
    (k : ℕ) (params : BucketTuple) (d : BucketTuples)
    → set_bucket_params (pos k) (from_contract_bucket_params params) (as_prototype d)
      ≡ as_prototype (enter k params d)
unfolding set_bucket_params as_prototype enter
set-as_prototype k params [] = refl
set-as_prototype k params ((j, u) ∷ d) = ground (arith, set-as_prototype k params d)

-- What the prototype's risk module has, for what the binding rebuilds.
abbrev pub prototype_result : Result BucketTuples → Result Buckets
prototype_result (ok d) = ok (as_prototype d)
prototype_result (err e) = err e

delete-as_prototype :
    (k : ℕ) (d : BucketTuples)
    → delete_bucket (pos k) (as_prototype d) ≡ prototype_result (pop_bucket k d)
unfolding delete_bucket as_prototype pop_bucket entry leave ◌>>=◌
delete-as_prototype k [] = refl
delete-as_prototype k ((j, u) ∷ d) = elim (Bool-cases (k == j)) [
  | inl same ↦
      let as_pos : (pos k =? pos j) ≡ true = ground arith in
      rw (as_pos, same, prototype_result) (rw same refl)
  | inr other ↦
      let as_pos : (pos k =? pos j) ≡ false = ground arith in
      rw (as_pos, other, prototype_result, delete-as_prototype k d)
        (elim (Option-cases (entry k d)) [
          | inl absent ↦ rw (absent, prototype_result) refl
          | inr (v, present) ↦ rw (present, prototype_result) (rw other refl)
        ])
]

params_lem : (p : EventParams) → named_params p ≡ from_contract_bucket_params (bucket_tuple p)
unfolding from_contract_bucket_params bucket_tuple
params_lem p = refl

call_prototype_lem :
    (change : BucketChange) (d : BucketTuples)
    → call_prototype change (as_prototype d) ≡ prototype_result (apply_change change d)
unfolding call_prototype apply_change
call_prototype_lem (new_bucket k params) d =
    rw (params_lem params) (ap ok (set-as_prototype k (bucket_tuple params) d))
call_prototype_lem (bucket_deleted k) d = delete-as_prototype k d

prototype_result-bind :
    (m : Result BucketTuples) (f : Buckets → Result Buckets)
    (g : BucketTuples → Result BucketTuples)
    → ((d : BucketTuples) → f (as_prototype d) ≡ prototype_result (g d))
    → (prototype_result m >>= f) ≡ prototype_result (m >>= g)
unfolding ◌>>=◌
prototype_result-bind (ok d) f g h = h d
prototype_result-bind (err e) f g h = refl

prototype_calls_lem :
    (log : List BucketEvent) (d : BucketTuples)
    → prototype_calls log (as_prototype d) ≡ prototype_result (apply_changes log d)
unfolding prototype_calls apply_changes
prototype_calls_lem [] d = refl
prototype_calls_lem (e ∷ log) d = rw (call_prototype_lem e.args d) (
    prototype_result-bind (apply_change e.args d) (λ d'. prototype_calls log d')
      (λ d'. apply_changes log d') (prototype_calls_lem log))

pub fetch_buckets_lem :
    (log : List BucketEvent)
    → Chronological log
    → prototype_calls log []
      ≡ prototype_result (fetch_buckets (of_name true log) (of_name false log))
unfolding fetch_buckets as_prototype
fetch_buckets_lem log h = rw (sorted_log log h) (prototype_calls_lem log [])
