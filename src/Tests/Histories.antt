-- ===== src/Tests/Histories.antt =====
-- A pool through the calls of a policy's life and the time between them, at concrete inputs.
use ensuro.Prelude.{ℕ, Option, true, ◌≡◌, refl, some}
use ensuro.Prelude.Int.{pos, ◌+ℤ◌, ◌≤ℤ◌, int_laws}
use ensuro.Prelude.Calls.{ok}
use ensuro.PremiumsAccount.State.{PremiumsAccount, receive_grant}
use ensuro.PremiumsAccount.Calls.{AccountCall}
use ensuro.RiskModule.Books.{Call, History, IsProper, AllProper, History-IsBooked}
use ensuro.RiskModule.Backing.{History-IsBacked, History-locks}
use ensuro.PolicyPool.State.{Pool, put_account}
use ensuro.PolicyPool.Operations.{Payout}
use ensuro.PolicyPool.Locks.{AllLock, locks}
use ensuro.PolicyPool.Backing.{IsBacked}
use ensuro.PolicyPool.Exposure.{IsBooked, total}
use ensuro.Tests.Runs.{got, ok_got}
use ensuro.Tests.Running.{pools}
use ensuro.Tests.Samples.{
  cash, units_base, holders_nft, sample_wadray, units, Cash, Units, Holders, pool, root,
}
use ensuro.Tests.Underwriting.{
  request, sold, sold_ok, larger_request, replaced, replaced_ok, sold_stored, no_policy,
  no_second_policy, sold-at_7, empty_pool-IsBooked, paid, paid_ok,
}

-- A month later, the account receives a grant.
abbrev pub settled : Pool Units Cash Holders
settled = record paid { world = record paid.world { now = paid.world.now +ℤ pos 2592000 } }

abbrev pub grant : PremiumsAccount × Cash
grant =
    got (receive_grant 9 (units 5) (settled.accounts 4) settled.world.out)
      (settled.accounts 4, settled.world.out)

abbrev pub granted : Pool Units Cash Holders
granted = record (put_account 4 grant.0 settled) { world = record settled.world { out = grant.1 } }

grant_ok : receive_grant 9 (units 5) (settled.accounts 4) settled.world.out ≡ ok grant
unfolding pools
grant_ok =
    ok_got (receive_grant 9 (units 5) (settled.accounts 4) settled.world.out)
      (settled.accounts 4, settled.world.out) refl

abbrev paid-History : History Units Cash Holders pool paid
paid-History =
    History.then_call
      (History.then_call
        (History.then_call History.start (Call.created root 7 request (some 9) sold_ok))
        (Call.replaced root 7 sold.0 larger_request replaced_ok))
      (Call.resolved replaced.0.id (Payout.customer_won true) paid_ok)

abbrev granted-History : History Units Cash Holders pool granted
granted-History =
    History.then_call
      (History.then_call paid-History
        (Call.waited (paid.world.now +ℤ pos 2592000) (omega int_laws)))
      (Call.account_called 4 (AccountCall.granted 9 (units 5) grant_ok))

granted-AllProper : AllProper granted-History
unfolding AllProper IsProper
granted-AllProper =
    (((((tt, (refl, no_policy)), (sold-at_7, sold_stored, no_second_policy)), tt), tt), tt)

History-IsBooked_example : IsBooked granted
History-IsBooked_example = History-IsBooked empty_pool-IsBooked granted-History granted-AllProper

-- The module's account uses the senior eToken 5 and the junior eToken 6.
abbrev senior_of : ℕ → Option ℕ
senior_of m = some 5

abbrev junior_of : ℕ → Option ℕ
junior_of m = some 6

empty_pool-IsBacked : IsBacked senior_of junior_of pool
unfolding AllLock total
empty_pool-IsBacked = record { backed = λ a. refl; routed = λ m. (refl, refl); all_lock = tt }

History-IsBacked_example : IsBacked senior_of junior_of granted
History-IsBacked_example =
    History-IsBacked senior_of junior_of empty_pool-IsBacked granted-History granted-AllProper

abbrev sold-History : History Units Cash Holders pool sold.1
sold-History = History.then_call History.start (Call.created root 7 request (some 9) sold_ok)

sold-AllProper : AllProper sold-History
unfolding AllProper IsProper
sold-AllProper = (tt, (refl, no_policy))

History-locks_example : locks senior_of junior_of 5 sold.0 ≤ℤ (sold.1.world.etk 5).scr
History-locks_example =
    History-locks senior_of junior_of sold.0.id 5 empty_pool-IsBacked sold-History sold-AllProper
      sold_stored
