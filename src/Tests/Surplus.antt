-- ===== src/Tests/Surplus.antt =====
-- A premiums account with an asset manager of two vaults, at concrete inputs.
use ensuro.Prelude.{◌≡◌, refl, arith, some}
use ensuro.Prelude.Int.{pos, ◌+ℤ◌}
use ensuro.Prelude.Calls.{ok}
use ensuro.PremiumsAccount.State.{PremiumsAccount}
use ensuro.AssetManager.Vaults.{Fund}
use ensuro.AssetManager.Forwarding.{Reserve, Managing, checkpoint, invested}
use ensuro.AssetManager.Surplus.{Apart, Managed, Managed-surplus, account_hooks}
use ensuro.Tests.Runs.{got, ok_got}
use ensuro.Tests.Running.{services}
use ensuro.Tests.Samples.{sample_wadray, units_base, cash, account, units, Units, Cash}
use ensuro.Tests.Assets.{cash-IsCurrency, vault, manager}
use ensuro.Tests.Managers.{purse}

abbrev funded : Reserve (Fund Units Cash PremiumsAccount)
funded = (
  some manager,
  record {
    books = record account { contract_id = 10; surplus = units 920 };
    vault = vault;
    discretionary = record vault { contract_id = 13 };
    out = purse;
  },
)

-- A checkpoint books what the vaults are worth, and moves cash into one of them or out of it.
abbrev checked : Reserve (Fund Units Cash PremiumsAccount)
checked = got (checkpoint ⦃h = account_hooks 10 (pos 4600)⦄ funded) funded

checked_ok : checkpoint ⦃h = account_hooks 10 (pos 4600)⦄ funded ≡ ok checked
unfolding services
checked_ok = ok_got (checkpoint ⦃h = account_hooks 10 (pos 4600)⦄ funded) funded refl

-- Later, a checkpoint again.
abbrev again : Reserve (Fund Units Cash PremiumsAccount)
again = got (checkpoint ⦃h = account_hooks 10 (pos 90000)⦄ checked) checked

again_ok : checkpoint ⦃h = account_hooks 10 (pos 90000)⦄ checked ≡ ok again
unfolding services
again_ok = ok_got (checkpoint ⦃h = account_hooks 10 (pos 90000)⦄ checked) checked refl

again-Managed : Managed 10 funded again
again-Managed =
    Managed.then_managed (pos 90000)
      (Managed.then_managed (pos 4600) Managed.no_calls (Managing.checkpointed checked_ok))
      (Managing.checkpointed again_ok)

funded-Apart : Apart 10 funded.1
unfolding Apart
funded-Apart = (ground arith, ground arith)

Managed-surplus_example :
    again.1.books.surplus +ℤ (units 900 +ℤ units 20)
    ≡ units 920 +ℤ (invested again.0 +ℤ cash.balance_of again.1.out 10)
unfolding invested
Managed-surplus_example = Managed-surplus 10 cash-IsCurrency funded-Apart again-Managed
