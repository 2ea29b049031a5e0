-- ===== src/Tests/Managers.antt =====
-- Asset managers over vaults at concrete inputs.
use ensuro.Prelude.{◌≡◌, refl, arith, ◌==◌, if◌then◌else◌, some, ◌⊎◌}
use ensuro.Prelude.Int.{ℤ, pos, ◌+ℤ◌}
use ensuro.Prelude.Calls.{Result, ok}
use ensuro.AssetManager.Defs.{Manager, Hooks, checkpoint}
use ensuro.AssetManager.Liquidity.{MovesCash}
use ensuro.AssetManager.Records.{Booked, checkpoint_lem}
use ensuro.AssetManager.Vaults.{Fund, vault_hooks, plus_deinvest}
use ensuro.Reserve.{transfer_to}
use ensuro.AssetManager.Payments.{managed, FromCash, Refilled, payment_lem}
use ensuro.AssetManager.Transfers.{vault_hooks-MovesCash}
use ensuro.AssetManager.Deinvestment.{Deinvested, plus_deinvest-Deinvested}
use ensuro.Tests.Runs.{got, ok_got}
use ensuro.Tests.Running.{services}
use ensuro.Tests.Samples.{sample_wadray, units_base, cash, units, Units, Cash}
use ensuro.Tests.Assets.{cash-IsCurrency, vault, manager, funds_hooks}

-- The reserve 10 owns all shares of the vault 12 and none of the vault 13, and keeps its earnings
-- as a number.
abbrev pub purse : Cash
purse k = if k == 10 then units 20 else units 5000

abbrev fund : Fund Units Cash ℤ
fund = record {
  books = pos 0;
  vault = vault;
  discretionary = record vault { contract_id = 13 };
  out = purse;
}

abbrev add_earnings : ℤ → ℤ → Result ℤ
add_earnings amount total = ok (total +ℤ amount)

-- The first vault has 5500 and a little more, and the second one nothing.
abbrev deinvested : Fund Units Cash ℤ
deinvested = got (plus_deinvest (pos 4600) 10 (units 700) fund) fund

deinvested_ok : plus_deinvest (pos 4600) 10 (units 700) fund ≡ ok deinvested
unfolding services
deinvested_ok = ok_got (plus_deinvest (pos 4600) 10 (units 700) fund) fund refl

plus_deinvest-Deinvested_example :
    (cash.balance_of deinvested.out 10 ≡ units 20 +ℤ units 700)
    × Deinvested (pos 4600) 10 (units 700) fund deinvested
plus_deinvest-Deinvested_example =
    plus_deinvest-Deinvested (pos 4600) 10 cash-IsCurrency (units 700) fund (ground arith)
      (ground arith) deinvested_ok

-- A checkpoint of the manager of one vault, which is short of cash.
instance abbrev the_hooks : Hooks (Fund Units Cash ℤ)
the_hooks = vault_hooks (pos 4600) 10 add_earnings

abbrev checked : Manager × Fund Units Cash ℤ
checked = got (checkpoint manager fund) (manager, fund)

checked_ok : checkpoint manager fund ≡ ok checked
unfolding services
checked_ok = ok_got (checkpoint manager fund) (manager, fund) refl

keeps_moving :
    (amount : ℤ) (s : Fund Units Cash ℤ) → the_hooks.earn amount fund ≡ ok s → MovesCash the_hooks s
unfolding services
keeps_moving amount s earned =
    let same : s.vault ≡ vault = cc in
    vault_hooks-MovesCash cash-IsCurrency (pos 4600) 10 add_earnings s (rw same (ground arith))

checkpoint_lem_example :
    (booked : Fund Units Cash ℤ) × (value : ℤ) × Booked manager fund booked value checked
checkpoint_lem_example =
    checkpoint_lem manager fund keeps_moving (omega arith, omega arith) checked_ok

-- The reserve 10 pays more than the cash that it has.
abbrev paid : Manager × Fund Units Cash ℤ
paid =
    got (transfer_to ⦃o = managed cash the_hooks⦄ 10 (some 1) 9 (units 100) (manager, fund))
      (manager, fund)

paid_ok :
    transfer_to ⦃o = managed cash the_hooks⦄ 10 (some 1) 9 (units 100) (manager, fund) ≡ ok paid
unfolding services
paid_ok =
    ok_got (transfer_to ⦃o = managed cash the_hooks⦄ 10 (some 1) 9 (units 100) (manager, fund))
      (manager, fund) refl

payment_lem_example :
    FromCash cash the_hooks 10 (units 100) (manager, fund) paid
    ⊎ Refilled cash the_hooks 10 (units 100) (manager, fund) paid
payment_lem_example =
    payment_lem cash the_hooks 10 cash-IsCurrency (λ s. refl) 1 9 (units 100) (manager, fund)
      (vault_hooks-MovesCash cash-IsCurrency (pos 4600) 10 add_earnings fund (ground arith))
      (ground arith) (ground arith) paid_ok
