-- ===== src/Outside/Laws.antt =====
-- What is relied on of the currency: a transfer moves its amount from the sender to the receiver,
-- a mint adds its amount, and no other balance changes.
use ensuro.Prelude.{ℕ, ◌≡◌, ◌≢◌}
use ensuro.Prelude.Int.{ℤ, ◌+ℤ◌, ◌-ℤ◌}
use ensuro.Prelude.Calls.{ok}
use ensuro.Outside.{Outside}

-- The balances after `amount` has gone from one address to another one.
abbrev pub Moves : {W : Type 0} → Outside W → ℕ → ℕ → ℤ → W → W → Type 0
Moves o from to amount x y =
    (o.balance_of y from ≡ o.balance_of x from -ℤ amount)
    × (o.balance_of y to ≡ o.balance_of x to +ℤ amount)
    × ((a : ℕ) → a ≢ from → a ≢ to → o.balance_of y a ≡ o.balance_of x a)

pub record IsCurrency {W : Type 0} (o : Outside W) : Type 0 where
  pub transfer :
      (from to : ℕ) (amount : ℤ) (x y : W)
      → from ≢ to
      → o.transfer from to amount x ≡ ok y
      → Moves o from to amount x y
  pub transfer_from :
      (caller from to : ℕ) (amount : ℤ) (x y : W)
      → from ≢ to
      → o.transfer_from caller from to amount x ≡ ok y
      → Moves o from to amount x y
  pub mint :
      (to : ℕ) (amount : ℤ) (x y : W)
      → o.mint to amount x ≡ ok y
      → (a : ℕ) → a ≢ to
      → o.balance_of y a ≡ o.balance_of x a
