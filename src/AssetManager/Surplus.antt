-- ===== src/AssetManager/Surplus.antt =====
-- A premiums account whose asset manager invests in two vaults (prototype/ensuro.py): its surplus
-- against its cash and investments.
use ensuro.Prelude.{ℕ, ◌≡◌, ◌≢◌, refl, ◌∙◌, Bool-cases, ap, inl, inr}
use ensuro.Prelude.Int.{ℤ, pos, ◌+ℤ◌, negℤ, ◌≤?◌, ◌=?◌, =?_true, int_laws, parts_of_eq}
use ensuro.Prelude.Calls.{
  Result, Returns, returns, Returns-bind, Returns-after, Returns-map, Returns-then, Returns-require,
}
use ensuro.WadRay.{WadRay}
use ensuro.Outside.{Outside, TokenBase}
use ensuro.Outside.Laws.{IsCurrency}
use ensuro.Vault.Defs.{Vault, deposit, withdraw}
use ensuro.PremiumsAccount.State.{PremiumsAccount, asset_earnings, pay_from_premiums}
use ensuro.PremiumsAccount.Solvency.{pay_from_premiums_lem, store_pure_premium_won_lem}
use ensuro.AssetManager.Defs.{Hooks}
use ensuro.AssetManager.Vaults.{
  Fund, if_some, vault_deposit, vault_withdraw, discretionary_withdraw, plus_deinvest, plus_hooks,
}
use ensuro.AssetManager.Transfers.{plus_hooks-MovesCash}
use ensuro.AssetManager.Forwarding.{
  Reserve, Managing, BooksEarnings, GrowTogether, invested, managing-GrowTogether,
}

module _ ⦃w : WadRay⦄ where
  -- What an account books as earned changes its surplus by as much.
  asset_earnings-surplus :
      (amount : ℤ) (pa : PremiumsAccount)
      → Returns (λ pa'. pa'.surplus ≡ pa.surplus +ℤ amount) (asset_earnings amount pa)
  unfolding asset_earnings
  asset_earnings-surplus amount pa = elim (Bool-cases (pos 0 ≤? amount)) [
    | inl gain ↦ rw gain (returns (ap (λ p. p.surplus) (store_pure_premium_won_lem amount pa)))
    | inr loss ↦
        let paid = pay_from_premiums (negℤ amount) pa in
        let (_, same, _) = pay_from_premiums_lem (negℤ amount) pa in
        rw loss (
          Returns-require _ _ _ λ covered.
            let all = parts_of_eq paid.0 (pos 0) (=?_true paid.0 (pos 0) covered) in
            returns (ap (λ p. p.surplus) same ∙ omega (int_laws, all)))
  ]

-- The books and the vaults' addresses stay.
Same : {L W R : Type 0} → Fund L W R → Fund L W R → Type 0
Same s t =
    (t.books ≡ s.books)
    × (t.vault.contract_id ≡ s.vault.contract_id)
    × (t.discretionary.contract_id ≡ s.discretionary.contract_id)

module _ {L W : Type 0} ⦃w : WadRay⦄ ⦃b : TokenBase L⦄ ⦃o : Outside W⦄ (now : ℤ) (reserve : ℕ) where
  deposit-id :
      (amount : ℤ) (v : Vault L) (x : W)
      → Returns (λ r. r.1.contract_id ≡ v.contract_id) (deposit now reserve amount reserve v x)
  unfolding deposit
  deposit-id amount v x = Returns-bind _ _ λ shares _.
      Returns-bind _ _ λ total _. Returns-bind _ _ λ x' _. Returns-bind _ _ λ base _. returns refl

  withdraw-id :
      (amount : ℤ) (v : Vault L) (x : W)
      → Returns
          (λ r. r.0.contract_id ≡ v.contract_id)
          (withdraw now reserve amount reserve reserve v x)
  unfolding withdraw
  withdraw-id amount v x = Returns-then _ _ (
      Returns-bind _ _ λ shares _. Returns-bind _ _ λ total _.
        Returns-bind _ _ λ x1 _.
          Returns-then _ _ (Returns-bind _ _ λ base _. Returns-bind _ _ λ x2 _. returns refl))

module _ {L W R : Type 0} ⦃w : WadRay⦄ ⦃b : TokenBase L⦄ ⦃o : Outside W⦄ (now : ℤ)
    (reserve : ℕ) where
  vault_deposit-Same :
      (amount : ℤ) (s : Fund L W R) → Returns (Same s) (vault_deposit now reserve amount s)
  unfolding vault_deposit Same
  vault_deposit-Same amount s =
      Returns-after _ _ (deposit-id now reserve amount s.vault s.out)
        λ r _ same. returns (refl, same, refl)

  vault_withdraw-Same :
      (amount : ℤ) (s : Fund L W R) → Returns (Same s) (vault_withdraw now reserve amount s)
  unfolding vault_withdraw Same
  vault_withdraw-Same amount s =
      Returns-after _ _ (withdraw-id now reserve amount s.vault s.out)
        λ r _ same. returns (refl, same, refl)

  discretionary_withdraw-Same :
      (amount : ℤ) (s : Fund L W R) → Returns (Same s) (discretionary_withdraw now reserve amount s)
  unfolding discretionary_withdraw Same
  discretionary_withdraw-Same amount s =
      Returns-after _ _ (withdraw-id now reserve amount s.discretionary s.out)
        λ r _ same. returns (refl, refl, same)

  if_some-Same :
      (call : ℤ → Fund L W R → Result (Fund L W R)) (amount : ℤ) (s : Fund L W R)
      → Returns (Same s) (call amount s)
      → Returns (Same s) (if_some call amount s)
  unfolding if_some Same
  if_some-Same call amount s same = elim (Bool-cases (amount =? pos 0)) [
    | inl nothing ↦ rw nothing (returns (refl, refl, refl))
    | inr something ↦ rw something same
  ]

  plus_deinvest-Same :
      (amount : ℤ) (s : Fund L W R) → Returns (Same s) (plus_deinvest now reserve amount s)
  unfolding plus_deinvest Same
  plus_deinvest-Same amount s = Returns-bind _ _ λ available _.
      Returns-after _ _ (if_some-Same _ _ s (vault_withdraw-Same _ s)) λ t _ (books, id, other).
        Returns-map _ (if_some-Same _ _ t (discretionary_withdraw-Same _ t))
          λ t' (books', id', other'). (books' ∙ books, id' ∙ id, other' ∙ other)

-- Neither vault is the reserve.
unfoldable pub Apart : {L W R : Type 0} → ℕ → Fund L W R → Type 0
Apart reserve s = (reserve ≢ s.vault.contract_id) × (reserve ≢ s.discretionary.contract_id)

module _ {L W : Type 0} ⦃w : WadRay⦄ ⦃b : TokenBase L⦄ ⦃o : Outside W⦄ (reserve : ℕ) where
  abbrev pub account_hooks : ℤ → Hooks (Fund L W PremiumsAccount)
  account_hooks now = plus_hooks now reserve asset_earnings

  Same-Apart :
      (s t : Fund L W PremiumsAccount)
      → Same s t
      → Apart reserve s
      → (t.books.surplus ≡ s.books.surplus) × Apart reserve t
  unfolding Same Apart
  Same-Apart s t (books, id, other) (apart, apart') =
      (ap (λ p. p.surplus) books, ((λ same. apart (same ∙ id)), (λ same. apart' (same ∙ other))))

  account-BooksEarnings :
      IsCurrency o
      → (now : ℤ) → BooksEarnings (account_hooks now) (λ s. s.books.surplus) (Apart reserve)
  unfolding Apart
  account-BooksEarnings currency now = record {
    moves = λ s (apart, apart').
        plus_hooks-MovesCash currency now reserve asset_earnings s apart apart';
    earned = λ amount s apart.
        Returns-after _ _ (asset_earnings-surplus amount s.books)
          λ books _ more. returns (more, refl, apart);
    into = λ amount s apart.
        Returns-map _ (vault_deposit-Same now reserve amount s) λ t same. Same-Apart s t same apart;
    out_of = λ amount s apart.
        Returns-map _ (plus_deinvest-Same now reserve amount s) λ t same. Same-Apart s t same apart;
  }

  -- Calls of the manager, one after the other, at any times.
  pub data Managed
      : Reserve (Fund L W PremiumsAccount) → Reserve (Fund L W PremiumsAccount) → Type 0 where
    no_calls : {x : Reserve (Fund L W PremiumsAccount)} → Managed x x
    then_managed :
        {x y z : Reserve (Fund L W PremiumsAccount)} (now : ℤ)
        → Managed x y
        → Managing ⦃h = account_hooks now⦄ reserve y z
        → Managed x z

  managed-Apart :
      {x y : Reserve (Fund L W PremiumsAccount)}
      → IsCurrency o
      → Apart reserve x.1
      → Managed x y
      → GrowTogether (λ s. s.books.surplus) (λ s. o.balance_of s.out reserve) x y
        × Apart reserve y.1
  unfolding GrowTogether
  managed-Apart currency apart Managed.no_calls = (refl, apart)
  managed-Apart {x} currency apart (Managed.then_managed {y = y} {z = z} now before call) =
      let (first, apart') = managed-Apart currency apart before in
      let (next, apart'') =
        managing-GrowTogether (account_hooks now) (λ s. s.books.surplus) (Apart reserve)
          (account-BooksEarnings currency now) reserve y z apart' call in
      (omega (int_laws, parts_of_eq _ _ first, parts_of_eq _ _ next), apart'')

  -- Under a currency that moves what it is asked to, through any sequence of checkpoints, rebalances,
  -- recorded earnings, refills, forwarded changes of the thresholds and forwarded liquidations, at
  -- any times, of a premiums account whose manager has two vaults that are not the account, the
  -- account's surplus changes by exactly as much as its cash and the recorded value of its
  -- investments together do.
  pub Managed-surplus :
      {x y : Reserve (Fund L W PremiumsAccount)}
      → IsCurrency o
      → Apart reserve x.1
      → Managed x y
      → y.1.books.surplus +ℤ (invested x.0 +ℤ o.balance_of x.1.out reserve)
        ≡ x.1.books.surplus +ℤ (invested y.0 +ℤ o.balance_of y.1.out reserve)
  unfolding GrowTogether
  Managed-surplus currency apart history = (managed-Apart currency apart history).0
