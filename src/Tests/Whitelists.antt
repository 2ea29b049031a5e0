-- ===== src/Tests/Whitelists.antt =====
-- Whitelists, and an account that is added to a pool, at concrete inputs.
use ensuro.Prelude.{ℕ, ◌≡◌, refl, false, some, [], ◌∷◌}
use ensuro.Prelude.Dict.{entry}
use ensuro.Prelude.Calls.{ok}
use ensuro.ScaledAmount.{ScaledAmount, empty_amount}
use ensuro.EToken.State.{EToken}
use ensuro.PolicyPool.State.{Pool}
use ensuro.PolicyPool.Registry.{add_premiums_account, Registered, add_premiums_account_lem}
use ensuro.Whitelist.Defs.{
  whitelisted, blacklisted, undefined, Operation, Statuses, is_undefined, Whitelist, init,
  whitelist_address, get_status,
}
use ensuro.Whitelist.Statuses.{Managed, get_status-defined}
use ensuro.Tests.Runs.{got, ok_got}
use ensuro.Tests.Running.{services}
use ensuro.Tests.Samples.{sample_wadray, Units, Cash, Holders, root, etoken, world, pool}

-- Nobody but those who are listed may deposit; withdrawals and transfers are free.
abbrev defaults : Statuses
defaults = record {
  for_deposit = blacklisted;
  for_withdraw = whitelisted;
  for_send = whitelisted;
  for_receive = whitelisted;
}

-- One who may deposit and not receive, the rest as by default.
abbrev provider_statuses : Statuses
provider_statuses = record {
  for_deposit = whitelisted;
  for_withdraw = undefined;
  for_send = undefined;
  for_receive = blacklisted;
}

abbrev no_whitelist : Whitelist
no_whitelist = record { contract_id = 0; wl_status = []; default_status = defaults }

abbrev created_list : Whitelist
created_list = got (init 11 defaults) no_whitelist

abbrev with_provider : Whitelist
with_provider = got (whitelist_address root 10 provider_statuses created_list) no_whitelist

listed_ok : whitelist_address root 10 provider_statuses created_list ≡ ok with_provider
unfolding services
listed_ok = ok_got (whitelist_address root 10 provider_statuses created_list) no_whitelist refl

with_provider-Managed : Managed with_provider
unfolding services
with_provider-Managed =
    Managed.listed root 10 provider_statuses
      (Managed.created 11 defaults (ok_got (init 11 defaults) no_whitelist refl)) listed_ok

get_status-defined_example : is_undefined (get_status 10 Operation.withdraw with_provider) ≡ false
get_status-defined_example = get_status-defined 10 Operation.withdraw with_provider-Managed

-- A pool whose eTokens lend to another account, 40, and not yet to the account 4.
abbrev lending : ℕ → EToken Units
lending a = record (etoken a) { loans = (40, empty_amount) ∷ [] }

abbrev before : Pool Units Cash Holders
before = record pool { premiums_accounts = []; world = record world { etk = lending } }

abbrev added : Pool Units Cash Holders
added = got (add_premiums_account 4 before) before

added_ok : add_premiums_account 4 before ≡ ok added
unfolding services
added_ok = ok_got (add_premiums_account 4 before) before refl

add_premiums_account_lem_example :
    Registered (some 6) 4 added.world
    × Registered (some 5) 4 added.world
    × ((etk borrower : ℕ) (loan : ScaledAmount)
        → entry borrower (before.world.etk etk).loans ≡ some loan
        → entry borrower (added.world.etk etk).loans ≡ some loan)
add_premiums_account_lem_example = add_premiums_account_lem 4 before added_ok
