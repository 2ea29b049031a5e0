-- ===== src/AssetManager/Deinvestment.antt =====
-- Which of its two vaults `ERC4626PlusVaultAssetManager._deinvest` takes from (prototype/ensuro.py).
use ensuro.Prelude.{ℕ, ◌≡◌, ◌≢◌, refl, ap, true, false, Bool-cases, ◌⊎◌, inl, inr}
use ensuro.Prelude.Int.{
  ℤ, pos, ◌+ℤ◌, ◌-ℤ◌, ◌≤ℤ◌, ◌<ℤ◌, ◌<?◌, ◌=?◌, =?_true, int_laws, parts_of_eq, <?_true, <?_false,
}
use ensuro.Prelude.Calls.{
  Result, ok, Returns, returns, Returns-bind, Returns-after, Returns-of, Returns-eq_ok,
}
use ensuro.WadRay.{WadRay}
use ensuro.Outside.{Outside, TokenBase}
use ensuro.Outside.Laws.{IsCurrency}
use ensuro.Vault.Defs.{max_withdraw}
use ensuro.AssetManager.Vaults.{
  Fund, if_some, vault_withdraw, discretionary_withdraw, plus_deinvest,
}
use ensuro.AssetManager.Transfers.{plus_deinvest-Returns}

-- A call of an amount that is made, or an amount of 0.
abbrev pub Made : {S : Type 0} → (ℤ → S → Result S) → ℤ → S → S → Type 0
Made call part s t = ((part ≡ pos 0) × (t ≡ s)) ⊎ (call part s ≡ ok t)

if_some-Made :
    {S : Type 0} (call : ℤ → S → Result S) (part : ℤ) (s : S)
    → Returns (Made call part s) (if_some call part s)
unfolding if_some
if_some-Made call part s = elim (Bool-cases (part =? pos 0)) [
  | inl nothing ↦ rw nothing (returns (inl (=?_true part (pos 0) nothing, refl)))
  | inr something ↦ rw something (Returns-of _ λ t made. inr made)
]

differs : (a c : ℤ) → c <ℤ a → (a -ℤ c =? pos 0) ≡ false
differs a c less = elim (Bool-cases (a -ℤ c =? pos 0)) [
  | inl same ↦
      let none_left = parts_of_eq (a -ℤ c) (pos 0) (=?_true (a -ℤ c) (pos 0) same) in
      absurd (omega (int_laws, none_left, less))
  | inr other ↦ other
]

all_taken : (a : ℤ) → (a -ℤ a =? pos 0) ≡ true
all_taken a = let nothing : a -ℤ a ≡ pos 0 = omega int_laws in rw nothing refl

module _ {L W R : Type 0} ⦃w : WadRay⦄ ⦃b : TokenBase L⦄ ⦃o : Outside W⦄ (now : ℤ)
    (reserve : ℕ) where
  -- The first vault gives all, and the second one is left alone.
  pub record FromFirst (amount : ℤ) (s s' : Fund L W R) : Type 0 where
    pub taken : Made (vault_withdraw now reserve) amount s s'
    pub spared : s'.discretionary ≡ s.discretionary

  -- The first vault gives all that it has to give, and the second one the rest.
  pub record FromBoth (available amount : ℤ) (s s' : Fund L W R) : Type 0 where
    pub halfway : Fund L W R
    pub first : Made (vault_withdraw now reserve) available s halfway
    pub second : discretionary_withdraw now reserve (amount -ℤ available) halfway ≡ ok s'

  pub record Deinvested (amount : ℤ) (s s' : Fund L W R) : Type 0 where
    pub available : ℤ
    pub limit : max_withdraw now reserve s.vault ≡ ok available
    pub from :
        ((amount ≤ℤ available) × FromFirst amount s s')
        ⊎ ((available <ℤ amount) × FromBoth available amount s s')

  vault_withdraw-spared :
      (amount : ℤ) (s : Fund L W R)
      → Returns (λ t. t.discretionary ≡ s.discretionary) (vault_withdraw now reserve amount s)
  unfolding vault_withdraw
  vault_withdraw-spared amount s = Returns-bind _ _ λ r _. returns refl

  Made-spared :
      (amount : ℤ) (s t : Fund L W R)
      → Made (vault_withdraw now reserve) amount s t
      → t.discretionary ≡ s.discretionary
  Made-spared amount s t (inl (_, same)) = ap (λ f. f.discretionary) same
  Made-spared amount s t (inr made) = Returns-eq_ok _ (vault_withdraw-spared amount s) made

  plus_deinvest-parts :
      (amount : ℤ) (s : Fund L W R)
      → Returns (Deinvested amount s) (plus_deinvest now reserve amount s)
  unfolding plus_deinvest if_some
  plus_deinvest-parts amount s = Returns-bind _ _ λ available limit.
      elim (Bool-cases (available <? amount)) [
        | inl short ↦
            let less = <?_true available amount short in
            let lacks = differs amount available less in
            rw short (
              Returns-after _ _ (if_some-Made (vault_withdraw now reserve) available s) λ t _ first.
                rw lacks (
                  Returns-of _ λ s' second. record {
                    available = available;
                    limit = limit;
                    from = inr (less, record { halfway = t; first = first; second = second });
                  }))
        | inr covered ↦
            let most = <?_false available amount covered in
            let none_left = all_taken amount in
            rw covered (
              Returns-after _ _ (if_some-Made (vault_withdraw now reserve) amount s) λ t _ taken.
                rw none_left (
                  returns (record {
                    available = available;
                    limit = limit;
                    from =
                        inl (most, record { taken = taken; spared = Made-spared amount s t taken });
                  })))
      ]

  pub plus_deinvest-Deinvested :
      IsCurrency o
      → (amount : ℤ) (s : Fund L W R) {s' : Fund L W R} → reserve ≢ s.vault.contract_id
      → reserve ≢ s.discretionary.contract_id
      → plus_deinvest now reserve amount s ≡ ok s'
      → (o.balance_of s'.out reserve ≡ o.balance_of s.out reserve +ℤ amount)
        × Deinvested amount s s'
  plus_deinvest-Deinvested currency amount s apart apart' done = (
    Returns-eq_ok _ (plus_deinvest-Returns currency now reserve amount s apart apart') done,
    Returns-eq_ok _ (plus_deinvest-parts amount s) done,
  )
