-- ===== src/EToken/Steps.antt =====
-- The operations of `EToken` (prototype/ensuro.py) as steps, and what any sequence of them does to
-- the scale and to the locked capital.
use ensuro.Prelude.{ℕ, ◌≡◌, refl, ◌∙◌, ap, Option, Option-cases, inl, inr}
use ensuro.Prelude.Int.{ℤ, pos, ◌+ℤ◌, negℤ, ◌≤ℤ◌, int_laws}
use ensuro.Prelude.Calls.{Result, ok, Returns, returns, Returns-bind, Returns-then, Returns-eq_ok}
use ensuro.Prelude.Dict.{entry}
use ensuro.WadRay.{WadRay}
use ensuro.Outside.{Outside, TokenBase}
use ensuro.EToken.State.{EToken}
use ensuro.EToken.Capital.{lock_scr, unlock_scr}
use ensuro.EToken.Liquidity.{deposit, withdraw, transfer, asset_earnings}
use ensuro.EToken.Loans.{add_borrower, set_internal_loan_interest_rate, internal_loan, repay_loan}
use ensuro.EToken.Settings.{set_max_utilization_rate, set_min_utilization_rate, set_whitelist}
use ensuro.EToken.Scales.{discrete_earning-Returns}
use ensuro.EToken.Locking.{lock_scr-Returns, unlock_scr-Returns}
use ensuro.EToken.Movements.{
  Kept, deposit-Returns, withdraw_lem, internal_loan_lem, repay_loan-Returns,
}

module _ (L W : Type 0) ⦃w : WadRay⦄ ⦃b : TokenBase L⦄ ⦃o : Outside W⦄ where
  -- A successful call that locks so much capital, less than nothing where it unlocks.
  pub data Step : ℤ → EToken L → EToken L → Type 0 where
    locked :
        {e e' : EToken L} (now amount rate : ℤ) (x : W)
        → lock_scr now amount rate e x ≡ ok e'
        → Step amount e e'
    unlocked :
        {e e' : EToken L} (now amount rate adjustment : ℤ) (x : W)
        → unlock_scr now amount rate adjustment e x ≡ ok e'
        → Step (negℤ amount) e e'
    deposited :
        {e e' : EToken L} (now : ℤ) (provider : ℕ) (amount balance : ℤ) (x : W)
        → deposit now provider amount e x ≡ ok (balance, e')
        → Step (pos 0) e e'
    withdrawn :
        {e e' : EToken L} (now : ℤ) (provider : ℕ) (amount : Option ℤ) (paid : ℤ) (x x' : W)
        → withdraw now provider amount e x ≡ ok (paid, e', x')
        → Step (pos 0) e e'
    transferred :
        {e e' : EToken L} (now : ℤ) (sender recipient : ℕ) (amount : ℤ) (x : W)
        → transfer now sender recipient amount e x ≡ ok e'
        → Step (pos 0) e e'
    lent :
        {e e' : EToken L} (now : ℤ) (borrower : ℕ) (asked : ℤ) (receiver : ℕ) (rest : ℤ) (x x' : W)
        → internal_loan now borrower asked receiver e x ≡ ok (rest, e', x')
        → Step (pos 0) e e'
    repaid :
        {e e' : EToken L} (now amount : ℤ) (borrower : ℕ) (x x' : W)
        → repay_loan now amount borrower e x ≡ ok (e', x')
        → Step (pos 0) e e'
    earned :
        {e e' : EToken L} (now amount : ℤ) → asset_earnings now amount e ≡ ok e' → Step (pos 0) e e'
    borrower_added :
        {e e' : EToken L} (borrower : Option ℕ)
        → add_borrower borrower e ≡ ok e'
        → Step (pos 0) e e'
    loan_rate_set :
        {e e' : EToken L} (now rate : ℤ)
        → set_internal_loan_interest_rate now rate e ≡ ok e'
        → Step (pos 0) e e'
    max_utilization_set :
        {e : EToken L} (rate : ℤ) → Step (pos 0) e (set_max_utilization_rate rate e)
    min_utilization_set :
        {e : EToken L} (rate : ℤ) → Step (pos 0) e (set_min_utilization_rate rate e)
    whitelist_set :
        {e e' : EToken L} (granted : Result (Unit {0})) (whitelist : Option ℕ)
        → set_whitelist granted whitelist e ≡ ok e'
        → Step (pos 0) e e'

  -- A sequence of steps, with the sum of what they lock.
  pub data History : ℤ → EToken L → EToken L → Type 0 where
    no_steps : {e : EToken L} → History (pos 0) e e
    then_step :
        {n amount : ℤ} {e e' e'' : EToken L}
        → History n e e'
        → Step amount e' e''
        → History (n +ℤ amount) e e''

module _ {L W : Type 0} ⦃w : WadRay⦄ ⦃b : TokenBase L⦄ ⦃o : Outside W⦄ where
  -- What a call asks to be locked is not negative.
  unfoldable pub LocksNonneg : {n : ℤ} {e e' : EToken L} → Step L W n e e' → Type 0
  LocksNonneg (Step.locked now amount rate x called) = pos 0 ≤ℤ amount
  LocksNonneg _ = Unit {0}

  unfoldable pub AllNonneg : {n : ℤ} {e e' : EToken L} → History L W n e e' → Type 0
  AllNonneg History.no_steps = Unit {0}
  AllNonneg (History.then_step before step) = AllNonneg before × LocksNonneg step

stays_positive : (a c : ℤ) → c ≡ a +ℤ pos 0 → pos 0 ≤ℤ a → pos 0 ≤ℤ c
stays_positive a c same h = rw same (omega (int_laws, h))

plus_nothing : (a : ℤ) → a ≡ a +ℤ pos 0
plus_nothing a = omega int_laws

module _ {L : Type 0} ⦃w : WadRay⦄ where
  -- What a call that locks `n` does.
  pub record Moved (n : ℤ) (e e' : EToken L) : Type 0 where
    pub scale : w.min_scale ≤ℤ e.scale_factor → w.min_scale ≤ℤ e'.scale_factor
    pub capital : e'.scr ≡ e.scr +ℤ n

  Kept-Moved : (e : EToken L) {e' : EToken L} → Kept e e' → Moved (pos 0) e e'
  Kept-Moved e (large, same) = record { scale = λ h. large; capital = same ∙ plus_nothing e.scr }

  -- A call that writes neither of the two fields.
  Same-Moved :
      (e e' : EToken L) → e'.scale_factor ≡ e.scale_factor → e'.scr ≡ e.scr → Moved (pos 0) e e'
  Same-Moved e e' scale same = record {
    scale = λ h. rw scale h;
    capital = same ∙ plus_nothing e.scr;
  }

  add_borrower-Returns :
      (borrower : Option ℕ) (e : EToken L) → Returns (Moved (pos 0) e) (add_borrower borrower e)
  unfolding add_borrower
  add_borrower-Returns borrower e = Returns-bind _ _ λ address _.
      elim (Option-cases (entry address e.loans)) [
        | inl new ↦ rw new (returns (Same-Moved e _ refl refl))
        | inr (loan, old) ↦ rw old (returns (Same-Moved e _ refl refl))
      ]

  loan_rate-Returns :
      (now rate : ℤ) (e : EToken L)
      → Returns (Moved (pos 0) e) (set_internal_loan_interest_rate now rate e)
  unfolding set_internal_loan_interest_rate
  loan_rate-Returns now rate e = Returns-bind _ _ λ loans _. returns (Same-Moved e _ refl refl)

  whitelist-Returns :
      (granted : Result (Unit {0})) (whitelist : Option ℕ) (e : EToken L)
      → Returns (Moved (pos 0) e) (set_whitelist granted whitelist e)
  unfolding set_whitelist
  whitelist-Returns granted whitelist e = Returns-then _ _ (returns (Same-Moved e _ refl refl))

module _ {L W : Type 0} ⦃w : WadRay⦄ ⦃b : TokenBase L⦄ ⦃o : Outside W⦄ where
  transfer-Returns :
      (now : ℤ) (sender recipient : ℕ) (amount : ℤ) (e : EToken L) (x : W)
      → Returns (Moved (pos 0) e) (transfer now sender recipient amount e x)
  unfolding transfer
  transfer-Returns now sender recipient amount e x = Returns-then _ _ (
      Returns-bind _ _ λ scale _.
        Returns-bind _ _ λ units _. Returns-bind _ _ λ base _. returns (Same-Moved e _ refl refl))

  pub step-Moved : {n : ℤ} {e e' : EToken L} → Step L W n e e' → Moved n e e'
  unfolding asset_earnings set_max_utilization_rate set_min_utilization_rate
  step-Moved (Step.locked {e} {e'} now amount rate x called) =
      let ((scale, scr_rate, token_rate, same, large), _) =
        Returns-eq_ok _ (lock_scr-Returns now amount rate e x) called in
      record { scale = λ h'. rw same large; capital = rw same refl }
  step-Moved (Step.unlocked {e} {e'} now amount rate adjustment x called) =
      let ((scale, scr_rate, token_rate, same, large), _) =
        Returns-eq_ok _ (unlock_scr-Returns now amount rate adjustment e x) called in
      record { scale = λ h'. rw same large; capital = rw same (omega int_laws) }
  step-Moved (Step.deposited {e} now provider amount balance x called) =
      Kept-Moved e (Returns-eq_ok _ (deposit-Returns now provider amount e x) called)
  step-Moved (Step.withdrawn {e} now provider amount paid x x' called) =
      let (_, _, _, _, _, _, kept) = withdraw_lem now provider amount e x called in
      Kept-Moved e kept
  step-Moved (Step.transferred {e} now sender recipient amount x called) =
      Returns-eq_ok _ (transfer-Returns now sender recipient amount e x) called
  step-Moved (Step.lent {e} now borrower asked receiver rest x x' called) =
      elim (internal_loan_lem now borrower asked receiver e x called) [
        | inl (_, same, _) ↦ Same-Moved e _ (ap (λ t. t.scale_factor) same) (ap (λ t. t.scr) same)
        | inr (_, _, _, _, _, _, _, _, _, kept) ↦ Kept-Moved e kept
      ]
  step-Moved (Step.repaid {e} now amount borrower x x' called) =
      Kept-Moved e (Returns-eq_ok _ (repay_loan-Returns now amount borrower e x) called)
  step-Moved (Step.earned {e} now amount called) =
      let (_, _, same, large) = Returns-eq_ok _ (discrete_earning-Returns now amount e) called in
      Kept-Moved e (rw same (large, refl))
  step-Moved (Step.borrower_added {e} borrower called) =
      Returns-eq_ok _ (add_borrower-Returns borrower e) called
  step-Moved (Step.loan_rate_set {e} now rate called) =
      Returns-eq_ok _ (loan_rate-Returns now rate e) called
  step-Moved (Step.max_utilization_set {e} rate) = Same-Moved e _ refl refl
  step-Moved (Step.min_utilization_set {e} rate) = Same-Moved e _ refl refl
  step-Moved (Step.whitelist_set {e} granted whitelist called) =
      Returns-eq_ok _ (whitelist-Returns granted whitelist e) called

  -- What an unlock asks is at most what is locked.
  step-positive :
      {n : ℤ} {e e' : EToken L} (step : Step L W n e e')
      → LocksNonneg step
      → pos 0 ≤ℤ e.scr
      → pos 0 ≤ℤ e'.scr
  unfolding LocksNonneg
  step-positive (Step.locked {e} now amount rate x called) asked h =
      let moved = step-Moved (Step.locked {e = e} now amount rate x called) in
      rw moved.capital (omega (int_laws, asked))
  step-positive (Step.unlocked {e} now amount rate adjustment x called) asked h =
      let moved = step-Moved (Step.unlocked {e = e} now amount rate adjustment x called) in
      let (_, enough) =
        Returns-eq_ok _ (unlock_scr-Returns now amount rate adjustment e x) called in
      rw moved.capital (omega (int_laws, enough))
  step-positive step asked h = stays_positive _ _ (step-Moved step).capital h

  -- After any sequence of successful calls of an eToken, none of which asks to lock a negative amount,
  -- at any times and with any currency and asset manager, the SCR is what it was, plus all that was
  -- locked, less all that was unlocked. It does not fall below zero, nor the scale below its minimum,
  -- if they were not below before.
  pub History-capital :
      {n : ℤ} {e e' : EToken L} (history : History L W n e e')
      → AllNonneg history
      → pos 0 ≤ℤ e.scr
      → w.min_scale ≤ℤ e.scale_factor
      → (e'.scr ≡ e.scr +ℤ n) × (pos 0 ≤ℤ e'.scr) × (w.min_scale ≤ℤ e'.scale_factor)
  unfolding AllNonneg
  History-capital (History.no_steps {e}) asked positive large =
      (plus_nothing e.scr, positive, large)
  History-capital (History.then_step {n} {amount} {e} {e'} {e''} before step) (asked, asked')
        positive large =
      let (capital, positive', large') = History-capital before asked positive large in
      let moved = step-Moved step in
      (
        moved.capital ∙ rw capital (omega int_laws),
        step-positive step asked' positive',
        moved.scale large',
      )
