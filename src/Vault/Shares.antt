-- ===== src/Vault/Shares.antt =====
-- What shares of a vault are worth, and who can withdraw.
use ensuro.Prelude.{
  ℕ, suc, ◌-◌, ◌^◌, ◌<◌, ◌≡◌, ◌≢◌, refl, sym, ap, ◌∙◌, arith, Bool-cases, inl, inr, true, false,
}
use ensuro.Prelude.Int.{ℤ, pos, ◌+ℤ◌, ◌*ℤ◌, ◌≤ℤ◌, ◌<ℤ◌, ◌=?◌, ◌<?◌, int_laws, =?_true}
use ensuro.Prelude.Calls.{
  ok, ◌>>=◌, Returns, returns, Returns-bind, Returns-after, Returns-of, Returns-require,
  Returns-eq_ok,
}
use native.Mathlib.Nat.{pow-le-pow_right}
use ensuro.Prelude.Division.{floordiv, floordiv_bounds, floordiv-*ℤ}
use ensuro.WadRay.{WadRay}
use ensuro.Outside.{Outside, TokenBase}
use ensuro.Outside.Laws.{IsCurrency}
use ensuro.Vault.Defs.{Vault, total_assets, convert_to_shares, top_up, pay_assets, withdraw}

pow_pos : (n : ℕ) → 0 < 10 ^ n
pow_pos n = pow-le-pow_right {n = 10} (omega arith) {i = 0} {j = n} (omega arith)

nonzero_test : (a : ℤ) → a ≢ pos 0 → (a =? pos 0) ≡ false
nonzero_test a h = ground arith

module _ {L : Type 0} ⦃w : WadRay⦄ ⦃b : TokenBase L⦄ where
  -- The first shares are issued one for one: where there are none, an amount of assets converts to
  -- the same amount of shares, whatever the vault holds.
  pub convert_to_shares-first :
      (now assets : ℤ) (v : Vault L)
      → v.decimals ≡ v.asset_decimals
      → b.total_supply v.base ≡ pos 0
      → convert_to_shares now assets v ≡ ok assets
  unfolding convert_to_shares
  convert_to_shares-first now assets v same none_issued =
      let unit : 10 ^ v.decimals ≡ suc (10 ^ v.decimals - 1) = omega (arith, pow_pos v.decimals) in
      let none : (b.total_supply v.base =? pos 0) ≡ true = rw none_issued refl in
      rw (none, ← same, unit) (floordiv-*ℤ assets (10 ^ v.decimals - 1))

  -- Where shares exist and the vault holds a positive amount `total`, an amount of assets converts to
  -- the largest number of shares whose proportional value is at most that amount: the depositor gets
  -- no more than the proportion, and less than one share below it.
  pub convert_to_shares_proportion :
      (now assets total : ℤ) (v : Vault L) {shares : ℤ}
      → b.total_supply v.base ≢ pos 0
      → assets ≢ pos 0
      → total_assets now v ≡ ok total
      → pos 0 <ℤ total
      → convert_to_shares now assets v ≡ ok shares
      → (shares *ℤ total ≤ℤ assets *ℤ b.total_supply v.base)
        × (assets *ℤ b.total_supply v.base <ℤ shares *ℤ total +ℤ total)
  unfolding convert_to_shares ◌>>=◌
  convert_to_shares_proportion now assets total v {shares} issued some_assets worth positive
        converted =
      let supply_test : (b.total_supply v.base =? pos 0) ≡ false = nonzero_test _ issued in
      let assets_test : (assets =? pos 0) ≡ false = nonzero_test _ some_assets in
      let quotient : floordiv (assets *ℤ b.total_supply v.base) total ≡ ok shares =
        rw (supply_test, assets_test, worth) at converted in
      floordiv_bounds (assets *ℤ b.total_supply v.base) total shares positive quotient

module _ {W : Type 0} ⦃o : Outside W⦄ (currency : IsCurrency o) where
  top_up-Returns :
      (vault receiver : ℕ) (assets : ℤ) (x : W)
      → receiver ≢ vault
      → Returns (λ x1. o.balance_of x1 receiver ≡ o.balance_of x receiver) (top_up vault assets x)
  unfolding top_up
  top_up-Returns vault receiver assets x apart =
      elim (Bool-cases (o.balance_of x vault <? assets)) [
        | inl short ↦
            rw short (Returns-of _ λ x1 minted. currency.mint vault _ x x1 minted receiver apart)
        | inr enough ↦ rw enough (returns refl)
      ]

  pay_assets-Returns :
      (vault receiver : ℕ) (assets : ℤ) (x : W)
      → receiver ≢ vault
      → Returns
          (λ x1. o.balance_of x1 receiver ≡ o.balance_of x receiver +ℤ assets)
          (pay_assets vault receiver assets x)
  unfolding pay_assets
  pay_assets-Returns vault receiver assets x apart = elim (Bool-cases (assets =? pos 0)) [
    | inl nothing ↦
        let zero_assets = =?_true assets (pos 0) nothing in
        rw nothing (returns (rw zero_assets (omega int_laws)))
    | inr something ↦ rw something (
        Returns-of _
          λ x1 sent. (currency.transfer vault receiver assets x x1 (λ e. apart (sym e)) sent).1)
  ]

module _ {L W : Type 0} ⦃w : WadRay⦄ ⦃b : TokenBase L⦄ ⦃o : Outside W⦄ where
  withdraw-Returns :
      IsCurrency o
      → (now : ℤ) (caller : ℕ) (assets : ℤ) (receiver owner : ℕ) (v : Vault L) (x : W)
      → receiver ≢ v.contract_id
      → Returns
          (λ r.
            (caller ≡ owner)
            × (v.broken ≡ pos 0)
            × (o.balance_of r.1 receiver ≡ o.balance_of x receiver +ℤ assets))
          (withdraw now caller assets receiver owner v x)
  unfolding withdraw
  withdraw-Returns currency now caller assets receiver owner v x apart =
      Returns-require _ _ _ λ whole. Returns-bind _ _ λ shares _. Returns-bind _ _ λ total _.
        Returns-after _ _ (top_up-Returns currency v.contract_id receiver assets x apart)
          λ x1 _ kept. Returns-require _ _ _ λ own. Returns-bind _ _ λ base _.
            Returns-after _ _ (pay_assets-Returns currency v.contract_id receiver assets x1 apart)
              λ x2 _ paid.
                returns
                  (ground arith, =?_true v.broken (pos 0) whole, paid ∙ ap (λ t. t +ℤ assets) kept)

  -- Under a currency that moves what it is asked to, a withdrawal is made by the owner of the
  -- shares alone and from a vault that is not broken, and a receiver that is not the vault gets
  -- exactly the assets asked for, whatever cash the vault held.
  pub withdraw-owner :
      IsCurrency o
      → (now : ℤ) (caller : ℕ) (assets : ℤ) (receiver owner : ℕ) (v : Vault L) (x : W)
      → {r : Vault L × W} → receiver ≢ v.contract_id
      → withdraw now caller assets receiver owner v x ≡ ok r
      → (caller ≡ owner)
        × (v.broken ≡ pos 0)
        × (o.balance_of r.1 receiver ≡ o.balance_of x receiver +ℤ assets)
  withdraw-owner currency now caller assets receiver owner v x apart done =
      Returns-eq_ok _ (withdraw-Returns currency now caller assets receiver owner v x apart) done
