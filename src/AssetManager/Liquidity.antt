-- ===== src/AssetManager/Liquidity.antt =====
-- What the strategy leaves in cash, for hooks that move what they are asked to.
use ensuro.Prelude.{◌≡◌, refl, subst, ◌∙◌, arith, true, Bool-cases, ◌⊎◌, inl, inr}
use ensuro.Prelude.Int.{
  ℤ, pos, ◌+ℤ◌, ◌-ℤ◌, ◌≤ℤ◌, ◌<ℤ◌, ◌<?◌, max, min, min_is_left, min_is_right, int_laws, <?_of_lt,
  <?_true, <?_false,
}
use ensuro.Prelude.Calls.{ok, Returns, returns, Returns-bind, Returns-map, Returns-eq_ok}
use ensuro.AssetManager.Defs.{
  Manager, Hooks, invest, deinvest, raise_cash, rebalance, refill_wallet,
}

-- The investments are paid out of the reserve's cash and pay into it.
pub record MovesCash {S : Type 0} (h : Hooks S) (s : S) : Type 0 where
  pub into : (amount : ℤ) (s' : S) → h.move_in amount s ≡ ok s' → h.cash s' ≡ h.cash s -ℤ amount
  pub out_of : (amount : ℤ) (s' : S) → h.move_out amount s ≡ ok s' → h.cash s' ≡ h.cash s +ℤ amount

module _ {S : Type 0} ⦃h : Hooks S⦄ where
  -- The cash after a call, with the same thresholds and as much more in cash as less is recorded as
  -- invested.
  pub record Ends (m : Manager) (s : S) (cash : ℤ) (r : Manager × S) : Type 0 where
    pub cash_is : h.cash r.1 ≡ cash
    pub kept : r.0 ≡ record m { last_investment_value = r.0.last_investment_value }
    pub balanced : r.0.last_investment_value +ℤ h.cash r.1 ≡ m.last_investment_value +ℤ h.cash s

  invest-Ends :
      (amount : ℤ) (m : Manager) (s : S)
      → MovesCash h s
      → Returns (Ends m s (h.cash s -ℤ amount)) (invest amount m s)
  unfolding invest
  invest-Ends amount m s moves = Returns-bind _ _ λ s' moved.
      let less = moves.into amount s' moved in
      returns (record { cash_is = less; kept = refl; balanced = rw less (omega int_laws) })

  deinvest-Ends :
      (amount : ℤ) (m : Manager) (s : S)
      → MovesCash h s
      → Returns (Ends m s (h.cash s +ℤ amount)) (deinvest amount m s)
  unfolding deinvest
  deinvest-Ends amount m s moves = Returns-bind _ _ λ s' moved.
      let more = moves.out_of amount s' moved in
      returns (record { cash_is = more; kept = refl; balanced = rw more (omega int_laws) })

-- The order of the thresholds, which every manager has passed.
abbrev pub IsOrdered : Manager → Type 0
IsOrdered m = (m.liquidity_min ≤ℤ m.liquidity_middle) × (m.liquidity_middle ≤ℤ m.liquidity_max)

-- Cash within the thresholds, or all that was invested is cash now and that is at most the middle.
unfoldable pub Rebalanced : {S : Type 0} ⦃h : Hooks S⦄ → Manager → S → ℤ → Type 0
Rebalanced ⦃h⦄ m s cash =
    ((m.liquidity_min ≤ℤ cash) × (cash ≤ℤ m.liquidity_max))
    ⊎ ((value : ℤ) × (h.value s ≡ ok value)
        × (cash ≡ h.cash s +ℤ max (pos 0) value)
        × (cash ≤ℤ m.liquidity_middle))

module _ {S : Type 0} ⦃h : Hooks S⦄ (m : Manager) (s : S) where
  stays : Ends m s (h.cash s) (m, s)
  stays = record { cash_is = refl; kept = refl; balanced = refl }

  EndsRebalanced : Manager × S → Type 0
  EndsRebalanced r = (cash : ℤ) × Ends m s cash r × Rebalanced m s cash

module _ {S : Type 0} ⦃h : Hooks S⦄ (m : Manager) (s : S) (moves : MovesCash h s) where
  raise_cash-Rebalanced :
      IsOrdered m
      → h.cash s <ℤ m.liquidity_min
      → Returns (EndsRebalanced m s) (raise_cash (h.cash s) m s)
  unfolding raise_cash EndsRebalanced Rebalanced
  raise_cash-Rebalanced ordered low = Returns-bind _ _ λ value worth.
      let missing = m.liquidity_middle -ℤ h.cash s in
      let amount = min missing value in
      elim (Bool-cases (value <? missing)) [
        | inl scarce ↦ rw scarce (elim (Bool-cases (pos 0 <? value)) [
          | inl some_left ↦
              let less = <?_true value missing scarce in
              rw some_left (
                Returns-map _ (deinvest-Ends value m s moves) λ r ends.
                  (h.cash s +ℤ value, ends, inr (value, worth, rw some_left refl, omega int_laws)))
          | inr none_left ↦ rw none_left (
              returns (
                h.cash s,
                stays m s,
                inr (value, worth, rw none_left (omega int_laws), omega arith),
              ))
        ])
        | inr enough ↦
            let lacks : (pos 0 <? missing) ≡ true = <?_of_lt (pos 0) missing (omega int_laws) in
            rw (enough, lacks)
              (Returns-map _ (deinvest-Ends missing m s moves)
                λ r ends. (h.cash s +ℤ missing, ends, inl (omega int_laws, omega int_laws)))
      ]

  rebalance-Rebalanced : IsOrdered m → Returns (EndsRebalanced m s) (rebalance m s)
  unfolding rebalance EndsRebalanced Rebalanced
  rebalance-Rebalanced ordered = elim (Bool-cases (m.liquidity_max <? h.cash s)) [
    | inl high ↦ rw high (
        Returns-map _ (invest-Ends (h.cash s -ℤ m.liquidity_middle) m s moves) λ r ends. (
          h.cash s -ℤ (h.cash s -ℤ m.liquidity_middle),
          ends,
          inl (omega int_laws, omega int_laws),
        ))
    | inr not_high ↦
        let below_max = <?_false m.liquidity_max (h.cash s) not_high in
        rw not_high (elim (Bool-cases (h.cash s <? m.liquidity_min)) [
          | inl low ↦
              rw low (raise_cash-Rebalanced ordered (<?_true (h.cash s) m.liquidity_min low))
          | inr not_low ↦
              let above_min = <?_false (h.cash s) m.liquidity_min not_low in
              rw not_low (returns (h.cash s, stays m s, inl (omega arith, omega arith)))
        ])
  ]

  refill-Ends :
      (payment : ℤ)
      → Returns
          (λ r.
            (value : ℤ) × (h.value s ≡ ok value)
            × Ends m s (min (payment +ℤ m.liquidity_middle) (h.cash s +ℤ value)) r)
          (refill_wallet payment m s)
  unfolding refill_wallet
  refill-Ends payment = Returns-bind _ _ λ value worth.
      let wanted = payment +ℤ m.liquidity_middle -ℤ h.cash s in
      elim (Bool-cases (value <? wanted)) [
        | inl scarce ↦
            let less = <?_true value wanted scarce in
            let all : h.cash s +ℤ value ≡ min (payment +ℤ m.liquidity_middle) (h.cash s +ℤ value) =
              min_is_right _ _ (omega int_laws) in
            rw scarce (
              Returns-map _ (deinvest-Ends value m s moves)
                λ r ends. (value, worth, subst (λ c. Ends m s c r) all ends))
        | inr enough ↦
            let more = <?_false value wanted enough in
            let whole : h.cash s +ℤ wanted ≡ payment +ℤ m.liquidity_middle = omega int_laws in
            let reached = whole ∙ min_is_left _ (h.cash s +ℤ value) (omega int_laws) in
            rw enough (
              Returns-map _ (deinvest-Ends wanted m s moves)
                λ r ends. (value, worth, subst (λ c. Ends m s c r) reached ends))
      ]

  -- Where what a manager invests leaves the reserve's cash and what it deinvests enters it, exactly
  -- (`MovesCash`), a rebalance of a manager with ordered thresholds leaves the cash within the thresholds, or has
  -- brought in all that was invested, which leaves at most the middle. Cash and the recorded value of
  -- the investments add up to what they did before, and the thresholds stay.
  pub rebalance_lem :
      {r : Manager × S}
      → IsOrdered m
      → rebalance m s ≡ ok r
      → Rebalanced m s (h.cash r.1)
        × (r.0.last_investment_value +ℤ h.cash r.1 ≡ m.last_investment_value +ℤ h.cash s)
        × (r.0 ≡ record m { last_investment_value = r.0.last_investment_value })
  unfolding EndsRebalanced
  rebalance_lem ordered done =
      let (cash, ends, good) = Returns-eq_ok _ (rebalance-Rebalanced ordered) done in
      (rw ends.cash_is good, ends.balanced, ends.kept)

  -- Where the manager moves exactly what it is asked to (`MovesCash`), a refill for a payment leaves the payment and the middle threshold in cash, or all that there
  -- is in cash and investments where that is less. Cash and the recorded value of the investments add
  -- up to what they did before.
  pub refill_wallet_lem :
      (payment : ℤ) {r : Manager × S}
      → refill_wallet payment m s ≡ ok r
      → (value : ℤ) × (h.value s ≡ ok value)
        × (h.cash r.1 ≡ min (payment +ℤ m.liquidity_middle) (h.cash s +ℤ value))
        × (r.0.last_investment_value +ℤ h.cash r.1 ≡ m.last_investment_value +ℤ h.cash s)
  refill_wallet_lem payment done =
      let (value, worth, ends) = Returns-eq_ok _ (refill-Ends payment) done in
      (value, worth, ends.cash_is, ends.balanced)
