-- ===== src/PremiumsAccount/Shifts.antt =====
-- What locking, unlocking and borrowing of a premiums account do to the capital that each eToken has
-- locked (prototype/ensuro.py).
use ensuro.Prelude.{
  ℕ, ◌≡◌, refl, ap, arith, Bool, true, false, Bool-cases, Option, none, some, inl, inr, ◌==◌,
  if◌then◌else◌,
}
use ensuro.Prelude.Int.{ℤ, pos, ◌+ℤ◌, negℤ, ◌≤ℤ◌, ◌≤?◌, ◌<?◌, int_laws}
use ensuro.Prelude.Calls.{
  Result, ok, Returns, returns, Returns-bind, Returns-found, Returns-after, Returns-map,
  Returns-then,
}
use ensuro.WadRay.{WadRay}
use ensuro.Outside.{Outside, TokenBase, negligible}
use ensuro.Policy.{Policy}
use ensuro.EToken.State.{EToken}
use ensuro.EToken.Loans.{internal_loan}
use ensuro.EToken.Locking.{lock_scr-Returns, unlock_scr-Returns}
use ensuro.EToken.Movements.{internal_loan_lem}
use ensuro.World.{World, put_etk, on_etk, on_etk_value}
use ensuro.PremiumsAccount.State.{PremiumsAccount, loan_limit}
use ensuro.PremiumsAccount.Borrow.{borrow_junior, borrow_senior, borrow_from_etk}
use ensuro.PremiumsAccount.Policies.{lock_if, unlock_if}

-- What is locked in the eToken `a` of an amount that goes to an eToken, if there is one.
unfoldable pub portion : Option ℕ → ℕ → ℤ → ℤ
portion none a x = pos 0
portion (some e) a x = if e == a then x else pos 0

-- What a policy locks in the eToken `a`, with its senior and its junior eToken.
abbrev pub capital : Option ℕ → Option ℕ → ℕ → Policy → ℤ
capital senior junior a p = portion senior a p.sr_scr +ℤ portion junior a p.jr_scr

portion_nothing : (etoken : Option ℕ) (a : ℕ) → portion etoken a (pos 0) ≡ pos 0
unfolding portion
portion_nothing none a = refl
portion_nothing (some e) a = ground arith

portion-neg :
    (etoken : Option ℕ) (a : ℕ) (x : ℤ) → portion etoken a (negℤ x) ≡ negℤ (portion etoken a x)
unfolding portion
portion-neg none a x = omega int_laws
portion-neg (some e) a x = elim (Bool-cases (e == a)) [
  | inl same ↦ rw same refl
  | inr other ↦ rw other (omega int_laws)
]

pub portion-nonneg : (etoken : Option ℕ) (a : ℕ) (x : ℤ) → pos 0 ≤ℤ x → pos 0 ≤ℤ portion etoken a x
unfolding portion
portion-nonneg none a x h = omega arith
portion-nonneg (some e) a x h = elim (Bool-cases (e == a)) [
  | inl same ↦ rw same h
  | inr other ↦ rw other (omega arith)
]

module _ {L W : Type 0} where
  -- Every eToken has so much more capital locked.
  pub record Shifts (more : ℕ → ℤ) (s s' : World L W) : Type 0 where
    pub scr_of : (a : ℕ) → (s'.etk a).scr ≡ (s.etk a).scr +ℤ more a

  pub Shifts-nothing : (s : World L W) → Shifts (λ a. pos 0) s s
  Shifts-nothing s = record { scr_of = λ a. omega int_laws }

  pub Shifts-then :
      {f g h : ℕ → ℤ} {s s1 s2 : World L W}
      → Shifts f s s1
      → Shifts g s1 s2
      → ((a : ℕ) → f a +ℤ g a ≡ h a)
      → Shifts h s s2
  Shifts-then first next sum = record {
    scr_of = λ a. rw (next.scr_of a, first.scr_of a, ← sum a) (omega int_laws);
  }

  pub Shifts-ext :
      {f g : ℕ → ℤ} {s s' : World L W} → Shifts f s s' → ((a : ℕ) → f a ≡ g a) → Shifts g s s'
  Shifts-ext shifts same = record { scr_of = λ a. rw (← same a) (shifts.scr_of a) }

  pub Shifts-out :
      {f : ℕ → ℤ} {s s' : World L W} (x : W) → Shifts f s s' → Shifts f s (record s' { out = x })
  Shifts-out x shifts = record { scr_of = shifts.scr_of }

  put_etk-Shifts :
      (e : ℕ) (t : EToken L) (x : ℤ) (s : World L W)
      → t.scr ≡ (s.etk e).scr +ℤ x
      → Shifts (λ a. portion (some e) a x) s (put_etk e t s)
  unfolding put_etk portion
  put_etk-Shifts e t x s more = record {
    scr_of = λ a. elim (Bool-cases (e == a)) [
      | inl here ↦ (let same : e ≡ a = ground arith in rw (here, ← same) more)
      | inr other ↦ rw other (omega int_laws)
    ];
  }

  pub put_etk-Unmoved :
      (e : ℕ) (t : EToken L) (x : W) (s : World L W)
      → t.scr ≡ (s.etk e).scr
      → Shifts (λ a. pos 0) s (record (put_etk e t s) { out = x })
  put_etk-Unmoved e t x s same = Shifts-out x (
      Shifts-ext (put_etk-Shifts e t (pos 0) s (rw same (omega int_laws)))
        λ a. portion_nothing (some e) a)

module _ {L W : Type 0} ⦃w : WadRay⦄ ⦃b : TokenBase L⦄ ⦃o : Outside W⦄ where
  pub lock_if-Shifts :
      (wanted : Bool) (etoken : Option ℕ) (scr : ℤ) (rate : Result ℤ) (s : World L W)
      → (wanted ≡ false → scr ≡ pos 0)
      → Returns (Shifts (λ a. portion etoken a scr) s) (lock_if wanted etoken scr rate s)
  unfolding lock_if on_etk
  lock_if-Shifts false etoken scr rate s unwanted =
      returns (Shifts-ext (Shifts-nothing s) λ a. rw (unwanted refl, portion_nothing etoken a) refl)
  lock_if-Shifts true etoken scr rate s unwanted = Returns-found _ _ _ λ etk found.
      Returns-bind _ _ λ r _.
        Returns-after _ _ (lock_scr-Returns s.now scr r (s.etk etk) s.out)
          λ t _ ((_, _, _, same, _), _).
            returns (rw found (put_etk-Shifts etk t scr s (rw same refl)))

  pub unlock_if-Shifts :
      (wanted : Bool) (etoken : Option ℕ) (scr : ℤ) (rate change : Result ℤ) (s : World L W)
      → (wanted ≡ false → scr ≡ pos 0)
      → Returns
          (Shifts (λ a. negℤ (portion etoken a scr)) s)
          (unlock_if wanted etoken scr rate change s)
  unfolding unlock_if on_etk negℤ
  unlock_if-Shifts false etoken scr rate change s unwanted =
      returns (Shifts-ext (Shifts-nothing s) λ a. rw (unwanted refl, portion_nothing etoken a) refl)
  unlock_if-Shifts true etoken scr rate change s unwanted = Returns-bind _ _ λ c _.
      Returns-found _ _ _ λ etk found. Returns-bind _ _ λ r _.
        Returns-after _ _ (unlock_scr-Returns s.now scr r c (s.etk etk) s.out)
          λ t _ ((_, _, _, same, _), _). returns (
            rw found (
              Shifts-ext (put_etk-Shifts etk t (negℤ scr) s (rw same (omega int_laws)))
                λ a. portion-neg (some etk) a scr))

  -- A call that leaves every eToken's locked capital as it is.
  abbrev pub Unmoved : World L W → World L W → Type 0
  Unmoved s s' = Shifts (λ a. pos 0) s s'

  loan-Unmoved :
      (e : ℕ) (borrower : ℕ) (amount : ℤ) (receiver : ℕ) (s : World L W)
      → Returns
          (λ r. Unmoved s r.1)
          (on_etk_value e (internal_loan s.now borrower amount receiver) s)
  unfolding on_etk_value
  loan-Unmoved e borrower amount receiver s = Returns-bind _ _ λ r lent.
      let same : r.1.scr ≡ (s.etk e).scr =
        elim (internal_loan_lem s.now borrower amount receiver (s.etk e) s.out lent) [
          | inl (_, untouched, _) ↦ ap (λ t. t.scr) untouched
          | inr (_, _, _, _, _, _, _, _, _, kept) ↦ kept.1
        ] in
      returns (put_etk-Unmoved e r.1 r.2 s same)

  borrow_junior-Unmoved :
      (pa : PremiumsAccount) (borrow : ℤ) (receiver : ℕ) (s : World L W)
      → Returns (λ r. Unmoved s r.1) (borrow_junior pa borrow receiver s)
  unfolding borrow_junior
  borrow_junior-Unmoved pa borrow receiver s = Returns-found _ _ _ λ etk _.
      Returns-bind _ _ λ loan _.
        elim (Bool-cases ((loan +ℤ borrow) ≤? loan_limit pa.jr_loan_limit_)) [
          | inl whole ↦ rw whole (loan-Unmoved etk pa.contract_id borrow receiver s)
          | inr part ↦ rw part (elim (Bool-cases (loan <? loan_limit pa.jr_loan_limit_)) [
            | inl room ↦ rw room (
                Returns-after _ _ (loan-Unmoved etk pa.contract_id _ receiver s) λ r _ h. returns h)
            | inr full ↦ rw full (returns (Shifts-nothing s))
          ])
        ]

  borrow_senior-Unmoved :
      (pa : PremiumsAccount) (left : ℤ) (receiver : ℕ) (s : World L W)
      → Returns (Unmoved s) (borrow_senior pa left receiver s)
  unfolding borrow_senior
  borrow_senior-Unmoved pa left receiver s = Returns-found _ _ _ λ etk _. Returns-bind _ _ λ loan _.
      elim (Bool-cases ((loan +ℤ left) ≤? loan_limit pa.sr_loan_limit_)) [
        | inl room ↦ rw room (
            Returns-after _ _ (loan-Unmoved etk pa.contract_id left receiver s)
              λ r _ h. Returns-then _ _ (returns h))
        | inr full ↦ rw full (
            Returns-after {Q = λ r. Unmoved s r.1} _ _ (returns (Shifts-nothing s))
              λ r _ h. Returns-then _ _ (returns h))
      ]

  pub borrow-Unmoved :
      (pa : PremiumsAccount) (amount : ℤ) (receiver : Option ℕ) (junior : Bool) (s : World L W)
      → Returns (Unmoved s) (borrow_from_etk pa amount receiver junior s)
  unfolding borrow_from_etk
  borrow-Unmoved pa amount receiver junior s = Returns-bind _ _ λ target _.
      Returns-after _ _ (first target junior) λ r _ h. elim (Bool-cases (negligible o <? r.0)) [
        | inl more ↦ rw more (
            Returns-map _ (borrow_senior-Unmoved pa r.0 target r.1)
              λ s' h'. Shifts-then h h' (λ a. omega int_laws))
        | inr enough ↦ rw enough (returns h)
      ]
    where
      first :
          (target : ℕ) (junior : Bool)
          → Returns
              (λ r. Unmoved s r.1)
              (if junior then borrow_junior pa amount target s else ok (amount, s))
      first target true = borrow_junior-Unmoved pa amount target s
      first target false = returns (Shifts-nothing s)
