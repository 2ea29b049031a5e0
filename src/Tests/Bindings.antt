-- ===== src/Tests/Bindings.antt =====
-- The bindings of the deployed contracts at concrete inputs.
use ensuro.Prelude.{ℕ, ◌+◌, ◌≡◌, refl, arith, true, false, none, some, List, [], ◌∷◌, map, inl, inr}
use ensuro.Prelude.Int.{ℤ, pos}
use ensuro.Prelude.Dict.{entry}
use ensuro.Prelude.Calls.{ok}
use ensuro.Bindings.Components.{
  StatusChanged, fetch_etokens, fetch_riskmodules, fetch_premiums_accounts, status_after, found_at,
  fetched_lem,
}
use ensuro.Bindings.Buckets.{EventParams, new_bucket, bucket_deleted, BucketEvent, fetch_buckets}
use ensuro.Bindings.BucketOrder.{
  Chronological, AllFollow, of_name, prototype_calls, prototype_result, fetch_buckets_lem,
}
use ensuro.Bindings.Policies.{PolicyData, PolicyDb, from_policy_data, add_policy}
use ensuro.Bindings.Calls.{
  PolicyArgs, amount, with_tuple, Deployed, new_policy, send_outcome, resolve_policy,
  expire_policies,
}
use ensuro.Bindings.Stored.{
  event_tuple, id_of, add_all, Without, Stored, resolve_policy-new_policy, expire_policies_lem,
}
use ensuro.Tests.Running.{bindings}
use ensuro.Tests.Samples.{units, thousandths}

-- Two eTokens become active and one of them deprecated; a risk module becomes active.
abbrev log : List StatusChanged
log =
    record { component = 5; kind = 1; new_status = 1 }
    ∷ record { component = 7; kind = 2; new_status = 1 }
    ∷ record { component = 6; kind = 1; new_status = 1 }
    ∷ record { component = 5; kind = 1; new_status = 2 }
    ∷ []

-- An eToken's name.
abbrev name_of : ℕ → ℕ
name_of a = a + 100

finds_active :
    (entry 105 (fetch_etokens name_of log) ≡ none)
    × (entry 106 (fetch_etokens name_of log) ≡ some 6)
unfolding bindings
finds_active = (refl, refl)

fetched_lem_example :
    (entry 105 (fetch_etokens name_of log) ≡ found_at 5 (status_after 1 5 0 log))
    × (entry 5 (fetch_riskmodules log) ≡ found_at 5 (status_after 2 5 0 log))
    × (entry 5 (fetch_premiums_accounts log) ≡ found_at 5 (status_after 3 5 0 log))
fetched_lem_example = fetched_lem name_of (λ a b. ground arith) log 5

abbrev params : ℤ → EventParams
params fee = record {
  coll_ratio = units 1;
  ensuro_coc_fee = fee;
  ensuro_pp_fee = fee;
  jr_coll_ratio = pos 0;
  jr_roc = pos 0;
  moc = units 1;
  sr_roc = thousandths 50;
}

-- A bucket is set and deleted in one transaction, and set again in a later block.
abbrev bucket_log : List BucketEvent
bucket_log =
    record { block_number = 10; transaction_index = 3; args = new_bucket 1 (params (units 1)) }
    ∷ record { block_number = 10; transaction_index = 3; args = bucket_deleted 1 }
    ∷ record { block_number = 12; transaction_index = 2; args = new_bucket 1 (params (units 2)) }
    ∷ []

in_order : Chronological bucket_log
unfolding Chronological AllFollow
in_order = ((inr (refl, inl refl), (inl refl, tt)), ((inl refl, tt), (tt, tt)))

fetch_buckets_lem_example :
    prototype_calls bucket_log []
    ≡ prototype_result (fetch_buckets (of_name true bucket_log) (of_name false bucket_log))
fetch_buckets_lem_example = fetch_buckets_lem bucket_log in_order

-- A bucket is deleted and set again in one transaction: the new event is replayed first.
abbrev reset_log : List BucketEvent
reset_log =
    record { block_number = 10; transaction_index = 3; args = new_bucket 1 (params (units 1)) }
    ∷ record { block_number = 11; transaction_index = 0; args = bucket_deleted 1 }
    ∷ record { block_number = 11; transaction_index = 0; args = new_bucket 1 (params (units 2)) }
    ∷ []

loses_bucket : fetch_buckets (of_name true reset_log) (of_name false reset_log) ≡ ok []
unfolding bindings
loses_bucket = refl

-- A contract that counts its calls, and issues a policy with the payout that it is asked for.
abbrev issued : PolicyArgs → PolicyData
issued args = record {
  id = pos 77;
  payout = args.payout;
  premium = units 10;
  jr_scr = units 20;
  sr_scr = units 40;
  loss_prob = args.loss_prob;
  pure_premium = units 5;
  ensuro_commission = units 1;
  partner_commission = units 2;
  jr_coc = units 1;
  sr_coc = units 1;
  risk_module = 7;
  start = pos 1000;
  expiration = args.expiration;
}

abbrev asked : PolicyArgs
asked = record {
  payout = units 100;
  premium = none;
  loss_prob = thousandths 50;
  expiration = pos 9000;
  on_behalf_of = some 9;
  payer = none;
  internal_id = pos 1;
}

instance abbrev counting : Deployed ℕ
counting = record {
  new_policy_ = λ args n. ok (n + 1, some (issued asked));
  replace_policy_ = λ old args n. ok (n + 1, none);
  resolve_policy_full_payout = λ p won n. ok (n + 1);
  resolve_policy_ = λ p payout n. ok (n + 1);
  expire_policy_ = λ p n. ok (n + 1);
  expire_policies_ = λ ps n. ok (n + 1);
}

nothing_later : Without (pos 77) []
unfolding Without
nothing_later = tt

resolve_policy-new_policy_example :
    (db' : PolicyDb) × (new_policy {N = ℕ} (λ a. a) 2 asked ([], 0)
      ≡ ok (some (from_policy_data (λ a. a) (issued asked)), (db', 1)))
    × (resolve_policy {N = ℕ} 2 (pos 77) (amount (units 30)) (add_all 2 [] db', 5)
        ≡ send_outcome (event_tuple (issued asked)) (amount (units 30)) 5)
resolve_policy-new_policy_example =
    resolve_policy-new_policy (λ a. a) 2 asked [] 0 1 (issued asked) refl [] nothing_later
      (amount (units 30)) 5

abbrev stored : PolicyDb
stored = add_policy 2 (from_policy_data (λ a. a) (issued asked)) []

has_issued : Stored (λ a. a) 2 stored (issued asked ∷ [])
unfolding bindings Stored
has_issued = (refl, tt)

expire_policies_lem_example :
    (expire_policies {N = ℕ} 2 1 (map id_of (issued asked ∷ [])) (stored, 0) ≡ some (ok 1))
    × (expire_policies {N = ℕ} 2 0 (with_tuple (event_tuple (issued asked)) ∷ []) (stored, 0)
        ≡ none)
expire_policies_lem_example =
    expire_policies_lem 2 (λ a. a) stored 0 (issued asked) [] has_issued 0
      (event_tuple (issued asked)) []
