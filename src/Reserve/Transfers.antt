-- ===== src/Reserve/Transfers.antt =====
-- What `ReserveMixin._transfer_to` sends (prototype/ensuro.py).
use ensuro.Prelude.{ℕ, ◌≡◌, ◌≢◌, refl, arith, false, ◌⊎◌, inl, inr, Bool-cases, Option}
use ensuro.Prelude.Int.{ℤ, pos, ◌-ℤ◌, ◌≤ℤ◌, ◌<ℤ◌, ◌<?◌, ◌=?◌, <?_true}
use ensuro.Prelude.Calls.{ok, Returns, Returns-bind, Returns-require, Returns-of, Returns-eq_ok}
use ensuro.Outside.{Outside, negligible}
use ensuro.Outside.Laws.{Moves, IsCurrency}
use ensuro.Reserve.{amount_sent, refill_if_short, transfer_to}

amount_sent-cases :
    (small balance amount : ℤ)
    → pos 0 ≤ℤ small
    → (amount_sent small balance amount ≡ amount)
      ⊎ ((amount_sent small balance amount ≡ balance)
          × (balance <ℤ amount)
          × (amount -ℤ balance <ℤ small))
unfolding amount_sent
amount_sent-cases small balance amount nonneg = elim (Bool-cases (balance <? amount)) [
  | inl short ↦ elim (Bool-cases (amount -ℤ balance <? small)) [
    | inl little ↦ inr (
      rw (short, little) refl,
      <?_true balance amount short,
      <?_true (amount -ℤ balance) small little,
    )
    | inr much ↦ inl (rw (short, much) refl)
  ]
  | inr enough ↦ inl (rw enough refl)
]

module _ {W : Type 0} ⦃o : Outside W⦄ where
  -- What was sent, after the refill, and how much that is.
  pub record Sent (self : ℕ) (manager : Option ℕ) (target : ℕ) (amount : ℤ) (x y : W) : Type 0 where
    pub sent : ℤ
    pub refilled : W
    pub refill : refill_if_short manager (o.balance_of x self) amount x ≡ ok refilled
    pub moved : Moves o self target sent refilled y
    pub size :
        (sent ≡ amount)
        ⊎ ((sent ≡ o.balance_of x self) × (sent <ℤ amount) × (amount -ℤ sent <ℤ negligible o))

  pub transfer_to-Returns :
      IsCurrency o
      → (self : ℕ) (manager : Option ℕ) (target : ℕ) (amount : ℤ) (x : W) → self ≢ target
      → amount ≢ pos 0
      → Returns (Sent self manager target amount x) (transfer_to self manager target amount x)
  unfolding transfer_to
  transfer_to-Returns currency self manager target amount x apart some_amount =
      let test : (amount =? pos 0) ≡ false = ground arith in
      Returns-require _ _ _ λ _. rw test (
        Returns-bind _ _ λ x1 refilled_ok.
          let sent_amount = amount_sent (negligible o) (o.balance_of x self) amount in
          Returns-of _ λ y sent_ok. record {
            sent = sent_amount;
            refilled = x1;
            refill = refilled_ok;
            moved = currency.transfer self target sent_amount x1 y apart sent_ok;
            size =
                elim (amount_sent-cases (negligible o) (o.balance_of x self) amount
                  (ground arith)) [
                    | inl whole ↦ inl whole
                    | inr (short, less, little) ↦ inr (short, rw short less, rw short little)
                  ];
          })

  pub transfer_to_lem :
      IsCurrency o
      → (self : ℕ) (manager : Option ℕ) (target : ℕ) (amount : ℤ) (x : W) {y : W} → self ≢ target
      → amount ≢ pos 0
      → transfer_to self manager target amount x ≡ ok y
      → Sent self manager target amount x y
  transfer_to_lem currency self manager target amount x apart some_amount =
      Returns-eq_ok _ (transfer_to-Returns currency self manager target amount x apart some_amount)
