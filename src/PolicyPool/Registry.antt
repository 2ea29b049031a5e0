-- ===== src/PolicyPool/Registry.antt =====
-- How the pool learns of its components (`add_etoken`, `add_risk_module` and `add_premiums_account`
-- of `PolicyPool`, prototype/ensuro.py).
use ensuro.Prelude.{
  ℕ, ◌≡◌, arith, Bool-cases, Option-cases, inl, inr, true, Option, none, some, List, [], ◌∷◌, ◌++◌,
  ◌==◌,
}
use ensuro.Prelude.Calls.{Result, ok, ◌>>=◌, Returns, returns, Returns-after, Returns-eq_ok}
use ensuro.Prelude.Dict.{entry, enter, entry-enter}
use ensuro.WadRay.{WadRay}
use ensuro.ScaledAmount.{ScaledAmount, empty_amount}
use ensuro.EToken.State.{EToken}
use ensuro.EToken.Loans.{add_borrower}
use ensuro.World.{World, put_etk, on_etk}
use ensuro.PolicyPool.State.{Pool}

module _ {L W N : Type 0} where
  unfoldable pub add_etoken : ℕ → ℕ → Pool L W N → Pool L W N
  add_etoken name address s = record s { etokens = enter name address s.etokens }

  unfoldable pub add_risk_module : ℕ → ℕ → Pool L W N → Pool L W N
  add_risk_module name address s = record s { module_names = enter name address s.module_names }

module _ {L W : Type 0} ⦃w : WadRay⦄ where
  -- `if account.junior_etk: account.junior_etk.add_borrower(account)`, and so for the senior one
  unfoldable pub add_borrower_if : Option ℕ → ℕ → World L W → Result (World L W)
  add_borrower_if none borrower s = ok s
  add_borrower_if (some etk) borrower s = on_etk etk (λ e x. add_borrower (some borrower) e) s

module _ {L W N : Type 0} ⦃w : WadRay⦄ where
  -- The account stands at the address `a` already.
  unfoldable pub add_premiums_account : ℕ → Pool L W N → Result (Pool L W N)
  add_premiums_account a s = do
    let pa = s.accounts a
    s1 ← add_borrower_if pa.junior_etk pa.contract_id s.world
    s2 ← add_borrower_if pa.senior_etk pa.contract_id s1
    ok (record s { premiums_accounts = s.premiums_accounts ++ a ∷ []; world = s2 })

-- An eToken whose borrowers include those of another, with the same loans.
KeepsLoans : {L : Type 0} → EToken L → EToken L → Type 0
KeepsLoans e e' =
    (k : ℕ) (loan : ScaledAmount) → entry k e.loans ≡ some loan → entry k e'.loans ≡ some loan

IsBorrower : {L : Type 0} → ℕ → EToken L → Type 0
IsBorrower k e = (loan : ScaledAmount) × (entry k e.loans ≡ some loan)

entered :
    ⦃w : WadRay⦄ (k : ℕ) (d : List (ℕ × ScaledAmount))
    → entry k d ≡ none
    → (entry k (enter k empty_amount d) ≡ some empty_amount)
      × ((j : ℕ) (loan : ScaledAmount)
          → entry j d ≡ some loan
          → entry j (enter k empty_amount d) ≡ some loan)
entered k d fresh = (
  ground (arith, entry-enter k k empty_amount d),
  λ j loan found. ground (arith, entry-enter j k empty_amount d),
)

add_borrower-Returns :
    {L : Type 0} ⦃w : WadRay⦄ (k : ℕ) (e : EToken L)
    → Returns (λ e'. KeepsLoans e e' × IsBorrower k e') (add_borrower (some k) e)
unfolding add_borrower ◌>>=◌ KeepsLoans IsBorrower
add_borrower-Returns k e = elim (Option-cases (entry k e.loans)) [
  | inl fresh ↦
      let (there, others) = entered k e.loans fresh in
      rw fresh (returns (others, (empty_amount, there)))
  | inr (loan, known) ↦ rw known (returns ((λ j l found. found), (loan, known)))
]

module _ {L W : Type 0} where
  -- Every eToken keeps its loans.
  KeepsAll : World L W → World L W → Type 0
  KeepsAll s s' = (a : ℕ) → KeepsLoans (s.etk a) (s'.etk a)

  -- An account is a borrower of an eToken, where it has one.
  pub Registered : Option ℕ → ℕ → World L W → Type 0
  Registered none borrower s = Unit {0}
  Registered (some etk) borrower s =
      (loan : ScaledAmount) × (entry borrower (s.etk etk).loans ≡ some loan)

  Registered-kept :
      (etk : Option ℕ) (borrower : ℕ) (s s' : World L W)
      → KeepsAll s s'
      → Registered etk borrower s
      → Registered etk borrower s'
  unfolding Registered KeepsAll KeepsLoans
  Registered-kept none borrower s s' keeps h = tt
  Registered-kept (some etk) borrower s s' keeps (loan, h) = (loan, keeps etk borrower loan h)

  put_keeps :
      (etk : ℕ) (e' : EToken L) (s : World L W)
      → KeepsLoans (s.etk etk) e'
      → KeepsAll s (put_etk etk e' s)
  unfolding KeepsAll KeepsLoans put_etk
  put_keeps etk e' s keeps a k loan found = elim (Bool-cases (etk == a)) [
    | inl same ↦
        let at : entry k (s.etk etk).loans ≡ some loan = grind arith in rw same (keeps k loan at)
    | inr other ↦ rw other found
  ]

  registered :
      (etk borrower : ℕ) (e' : EToken L) (s : World L W)
      → IsBorrower borrower e'
      → Registered (some etk) borrower (put_etk etk e' s)
  unfolding Registered IsBorrower put_etk
  registered etk borrower e' s there =
      let self : (etk == etk) ≡ true = ground arith in rw self there

  added-Returns :
      ⦃w : WadRay⦄ (etk : Option ℕ) (borrower : ℕ) (s : World L W)
      → Returns (λ s'. KeepsAll s s' × Registered etk borrower s') (add_borrower_if etk borrower s)
  unfolding add_borrower_if on_etk Registered KeepsAll KeepsLoans
  added-Returns none borrower s = returns ((λ a k loan found. found), tt)
  added-Returns (some etk) borrower s =
      Returns-after _ _ (add_borrower-Returns borrower (s.etk etk)) λ e' _ (keeps, there).
        returns (put_keeps etk e' s keeps, registered etk borrower e' s there)

module _ {L W N : Type 0} ⦃w : WadRay⦄ where
  added_account-Returns :
      (a : ℕ) (s : Pool L W N)
      → Returns
          (λ s'.
            KeepsAll s.world s'.world
            × Registered (s.accounts a).junior_etk (s.accounts a).contract_id s'.world
            × Registered (s.accounts a).senior_etk (s.accounts a).contract_id s'.world)
          (add_premiums_account a s)
  unfolding add_premiums_account KeepsAll KeepsLoans
  added_account-Returns a s =
      let pa = s.accounts a in
      Returns-after _ _ (added-Returns pa.junior_etk pa.contract_id s.world) λ s1 _ (keeps, junior).
        Returns-after _ _ (added-Returns pa.senior_etk pa.contract_id s1) λ s2 _ (keeps', senior).
          returns (
            (λ e k loan found. keeps' e k loan (keeps e k loan found)),
            Registered-kept pa.junior_etk pa.contract_id s1 s2 keeps' junior,
            senior,
          )

  -- A premiums account that is added to the pool is then a borrower of its junior and of its senior
  -- eToken, where it has one, and no loan that any eToken had given before is lost or reset.
  pub add_premiums_account_lem :
      (a : ℕ) (s : Pool L W N) {s' : Pool L W N}
      → add_premiums_account a s ≡ ok s'
      → Registered (s.accounts a).junior_etk (s.accounts a).contract_id s'.world
        × Registered (s.accounts a).senior_etk (s.accounts a).contract_id s'.world
        × ((etk borrower : ℕ) (loan : ScaledAmount)
            → entry borrower (s.world.etk etk).loans ≡ some loan
            → entry borrower (s'.world.etk etk).loans ≡ some loan)
  unfolding KeepsAll KeepsLoans
  add_premiums_account_lem a s added =
      let (keeps, junior, senior) = Returns-eq_ok _ (added_account-Returns a s) added in
      (junior, senior, keeps)
