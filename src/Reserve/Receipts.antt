-- ===== src/Reserve/Receipts.antt =====
-- What the target of `ReserveMixin._transfer_to` receives (prototype/ensuro.py).
use ensuro.Prelude.{ℕ, ◌≡◌, ◌≢◌, refl, arith, Bool-cases, inl, inr, Option, none, some}
use ensuro.Prelude.Int.{ℤ, pos, ◌+ℤ◌, ◌≤ℤ◌, ◌<?◌, ◌=?◌, =?_true, int_laws}
use ensuro.Prelude.Calls.{ok, Returns, returns, Returns-map, Returns-require}
use ensuro.Outside.{Outside, negligible}
use ensuro.Outside.Laws.{IsCurrency}
use ensuro.Reserve.{refill_if_short, transfer_to}
use ensuro.Reserve.Transfers.{Sent, transfer_to-Returns}

-- An asset manager's refill leaves the balance of an address as it is.
unfoldable pub LeavesAlone : {W : Type 0} → Outside W → ℕ → Type 0
LeavesAlone {W} o c =
    (manager : ℕ) (amount : ℤ) (x y : W)
    → o.refill_wallet manager amount x ≡ ok y
    → o.balance_of y c ≡ o.balance_of x c

module _ {W : Type 0} ⦃o : Outside W⦄ where
  -- An address has received an amount, or less by at most a slack.
  pub record Receives (c : ℕ) (amount slack : ℤ) (x y : W) : Type 0 where
    pub at_most : o.balance_of y c ≤ℤ o.balance_of x c +ℤ amount
    pub at_least : o.balance_of x c +ℤ amount ≤ℤ o.balance_of y c +ℤ slack

  refill-kept :
      (c : ℕ) (manager : Option ℕ) (balance amount : ℤ) (x y : W)
      → LeavesAlone o c
      → refill_if_short manager balance amount x ≡ ok y
      → o.balance_of y c ≡ o.balance_of x c
  unfolding refill_if_short LeavesAlone
  refill-kept c none balance amount x y alone e = let same : x ≡ y = cc in rw same refl
  refill-kept c (some manager) balance amount x y alone e = elim (Bool-cases (balance <? amount)) [
    | inl short ↦ alone manager amount x y (rw short at e)
    | inr enough ↦ let kept : ok x ≡ ok y = rw enough at e in let same : x ≡ y = cc in rw same refl
  ]

  received :
      (self : ℕ) (manager : Option ℕ) (c : ℕ) (amount : ℤ) (x y : W)
      → LeavesAlone o c
      → Sent self manager c amount x y
      → Receives c amount (negligible o) x y
  received self manager c amount x y alone was =
      let before = refill-kept c manager _ amount x was.refilled alone was.refill in
      let after = was.moved.1 in
      elim was.size [
        | inl whole ↦ record {
          at_most = rw (after, before, whole) (omega arith);
          at_least = rw (after, before, whole) (omega int_laws);
        }
        | inr (balance, less, little) ↦ record {
          at_most = rw (after, before) (omega int_laws);
          at_least = rw (after, before) (omega int_laws);
        }
      ]

  pub transfer_to-Receives :
      IsCurrency o
      → (self : ℕ) (manager : Option ℕ) (c : ℕ) (amount : ℤ) (x : W) → LeavesAlone o c
      → self ≢ c
      → Returns (Receives c amount (negligible o) x) (transfer_to self manager c amount x)
  unfolding transfer_to
  transfer_to-Receives currency self manager c amount x alone apart =
      elim (Bool-cases (amount =? pos 0)) [
        | inl nothing ↦
            let zero_amount = =?_true amount (pos 0) nothing in
            Returns-require _ _ _ λ _. rw nothing (
              returns
                (rw zero_amount (record { at_most = omega int_laws; at_least = omega int_laws })))
        | inr something ↦
            Returns-map _
              (transfer_to-Returns currency self manager c amount x apart (ground arith))
              λ y was. received self manager c amount x y alone was
      ]
