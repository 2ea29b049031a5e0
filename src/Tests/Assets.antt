-- ===== src/Tests/Assets.antt =====
-- Vaults and asset managers at concrete inputs.
use ensuro.Prelude.{
  ℕ, ◌^◌, some, ◌≡◌, ◌≢◌, refl, ap, arith, Bool-cases, inl, inr, ◌==◌, if◌then◌else◌,
}
use ensuro.Prelude.Int.{ℤ, pos, ◌+ℤ◌, ◌-ℤ◌, ◌*ℤ◌, ◌≤ℤ◌, ◌<ℤ◌, ◌<?◌}
use ensuro.Prelude.Calls.{ok, Returns, returns, Returns-eq_ok}
use ensuro.Outside.Laws.{Moves, IsCurrency}
use ensuro.Vault.Defs.{Vault, total_assets, convert_to_shares}
use ensuro.Vault.Shares.{convert_to_shares_proportion}
use ensuro.AssetManager.Defs.{Manager, Hooks, rebalance}
use ensuro.AssetManager.Liquidity.{MovesCash, Rebalanced, rebalance_lem}
use ensuro.Tests.Runs.{got, ok_got}
use ensuro.Tests.Running.{services}
use ensuro.Tests.Samples.{
  sample_wadray, units_base, cash, units, thousandths, Units, Cash, put, send,
}

-- The sample currency moves what it is asked to.
send_lem :
    (from to : ℕ) (amount : ℤ) (x : Cash)
    → from ≢ to
    → Returns (Moves cash from to amount x) (send from to amount x)
unfolding send
send_lem from to amount x apart = elim (Bool-cases (x from <? amount)) [
  | inl short ↦ rw short Returns.raises
  | inr covered ↦ rw covered (returns (ground arith, ground arith, λ a other third. ground arith))
]

pub cash-IsCurrency : IsCurrency cash
cash-IsCurrency = record {
  transfer =
      λ from to amount x y apart moved. Returns-eq_ok _ (send_lem from to amount x apart) moved;
  transfer_from = λ caller from to amount x y apart moved.
      Returns-eq_ok _ (send_lem from to amount x apart) moved;
  mint = λ to amount x y minted a other. minted_other to amount x y minted a other;
}
  where
    minted_other :
        (to : ℕ) (amount : ℤ) (x y : Cash)
        → ok (put to (x to +ℤ amount) x) ≡ ok y
        → (a : ℕ) → a ≢ to
        → y a ≡ x a
    minted_other to amount x y minted a other =
        let same : put to (x to +ℤ amount) x ≡ y = cc in
        let at : put to (x to +ℤ amount) x a ≡ y a = ap (λ f. f a) same in ground arith

-- A vault with 5000 shares, all of them the provider's, that holds 5500 at an interest of 5 %.
abbrev pub vault : Vault Units
vault = record {
  contract_id = 12;
  base = record { supply = units 5000; held = λ k. if k == 10 then units 5000 else pos 0 };
  decimals = 18;
  asset_decimals = 18;
  interest_rate = thousandths 50;
  total_assets_ = record {
    amount = units 5500;
    scale = pos (10 ^ 27);
    last_update = some (pos 1000);
  };
  broken = pos 0;
}

-- An hour later.
abbrev held_assets : ℤ
held_assets = got (total_assets (pos 4600) vault) (pos 0)

abbrev new_shares : ℤ
new_shares = got (convert_to_shares (pos 4600) (units 7) vault) (pos 0)

held_assets_ok : total_assets (pos 4600) vault ≡ ok held_assets
unfolding services
held_assets_ok = ok_got (total_assets (pos 4600) vault) (pos 0) refl

new_shares_ok : convert_to_shares (pos 4600) (units 7) vault ≡ ok new_shares
unfolding services
new_shares_ok = ok_got (convert_to_shares (pos 4600) (units 7) vault) (pos 0) refl

held_assets_positive : pos 0 <ℤ held_assets
unfolding services
held_assets_positive = omega arith

convert_to_shares_proportion_example :
    (new_shares *ℤ held_assets ≤ℤ units 7 *ℤ units 5000)
    × (units 7 *ℤ units 5000 <ℤ new_shares *ℤ held_assets +ℤ held_assets)
convert_to_shares_proportion_example =
    convert_to_shares_proportion (pos 4600) (units 7) held_assets vault (ground arith)
      (ground arith) held_assets_ok held_assets_positive new_shares_ok

-- A reserve with cash and a strategy that holds the rest, as two amounts.
abbrev pub Funds : Type 0
Funds = ℤ × ℤ

instance abbrev pub funds_hooks : Hooks Funds
funds_hooks = record {
  cash = λ s. s.0;
  earn = λ amount s. ok s;
  value = λ s. ok s.1;
  move_in = λ amount s. ok (s.0 -ℤ amount, s.1 +ℤ amount);
  move_out = λ amount s. ok (s.0 +ℤ amount, s.1 -ℤ amount);
}

abbrev pub short_of_cash : Funds
short_of_cash = (units 20, units 1000)

funds_hooks-MovesCash : MovesCash funds_hooks short_of_cash
funds_hooks-MovesCash = record {
  into = λ amount s' e. funds_after e;
  out_of = λ amount s' e. funds_after e;
}
  where
    funds_after : {s s' : Funds} → ok s ≡ ok s' → s'.0 ≡ s.0
    funds_after e = cc

abbrev pub manager : Manager
manager = record {
  liquidity_min = units 100;
  liquidity_middle = units 150;
  liquidity_max = units 200;
  last_investment_value = units 900;
}

abbrev rebalanced : Manager × Funds
rebalanced = got (rebalance manager short_of_cash) (manager, short_of_cash)

rebalanced_ok : rebalance manager short_of_cash ≡ ok rebalanced
unfolding services
rebalanced_ok = ok_got (rebalance manager short_of_cash) (manager, short_of_cash) refl

rebalance_lem_example :
    Rebalanced manager short_of_cash rebalanced.1.0
    × (rebalanced.0.last_investment_value +ℤ rebalanced.1.0 ≡ units 900 +ℤ units 20)
    × (rebalanced.0 ≡ record manager { last_investment_value = rebalanced.0.last_investment_value })
rebalance_lem_example =
    rebalance_lem manager short_of_cash funds_hooks-MovesCash (omega arith, omega arith)
      rebalanced_ok
