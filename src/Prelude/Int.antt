-- ===== src/Prelude/Int.antt =====
-- Python's integers, over the native numbers: sums and orders go through the two parts of an
-- integer, which are numbers that `omega` reads. A Wad or a Ray is such an integer.
use ensuro.Prelude.Tests.{ltb, leb, ◌==◌, if◌then◌else◌}
use Prim.Native.Nat.{ℕ, suc, ◌+◌, ◌-◌, ◌*◌, ◌≤◌}
use mathlib.Core.Path.{◌≡◌, refl}
use mathlib.Core.Logic.{◌≢◌}
use mathlib.Core.Bool.{Bool, true, false}
use native.Mathlib.Omega.{arith}

-- `negsuc n` is -(n + 1).
pub data ℤ : Type 0 where
  pos : ℕ → ℤ
  negsuc : ℕ → ℤ

abbrev pub pos_part : ℤ → ℕ
pos_part (pos n) = n
pos_part (negsuc n) = 0

abbrev pub neg_part : ℤ → ℕ
neg_part (pos n) = 0
neg_part (negsuc n) = suc n

-- a - b, as an integer.
abbrev pub sub_ℕ : ℕ → ℕ → ℤ
sub_ℕ a b = if leb b a then pos (a - b) else negsuc (b - a - 1)

infixl 65 ◌+ℤ◌ ◌-ℤ◌
infixl 70 ◌*ℤ◌
infix 50 ◌≤ℤ◌ ◌<ℤ◌ ◌≤?◌ ◌<?◌ ◌=?◌
unfoldable pub ◌+ℤ◌ : ℤ → ℤ → ℤ
a +ℤ b = sub_ℕ (pos_part a + pos_part b) (neg_part a + neg_part b)

unfoldable pub ◌-ℤ◌ : ℤ → ℤ → ℤ
a -ℤ b = sub_ℕ (pos_part a + neg_part b) (neg_part a + pos_part b)

unfoldable pub ◌*ℤ◌ : ℤ → ℤ → ℤ
a *ℤ b =
    sub_ℕ (pos_part a * pos_part b + neg_part a * neg_part b)
      (pos_part a * neg_part b + neg_part a * pos_part b)

-- `-a`
unfoldable pub negℤ : ℤ → ℤ
negℤ a = sub_ℕ (neg_part a) (pos_part a)

abbrev pub ◌≤ℤ◌ : ℤ → ℤ → Type 0
a ≤ℤ b = pos_part a + neg_part b ≤ pos_part b + neg_part a

abbrev pub ◌<ℤ◌ : ℤ → ℤ → Type 0
a <ℤ b = suc (pos_part a + neg_part b) ≤ pos_part b + neg_part a

-- The source's tests `a < b`, `a <= b` and `a == b`.
abbrev pub ◌<?◌ : ℤ → ℤ → Bool
a <? b = ltb (pos_part a + neg_part b) (pos_part b + neg_part a)

abbrev pub ◌≤?◌ : ℤ → ℤ → Bool
a ≤? b = leb (pos_part a + neg_part b) (pos_part b + neg_part a)

abbrev pub ◌=?◌ : ℤ → ℤ → Bool
a =? b = pos_part a + neg_part b == pos_part b + neg_part a

-- Python's `max` and `min` of two values.
abbrev pub max : ℤ → ℤ → ℤ
max a b = if a <? b then b else a

abbrev pub min : ℤ → ℤ → ℤ
min a b = if b <? a then b else a

pub +ℤ_parts :
    (a b : ℤ)
    → pos_part (a +ℤ b) + neg_part a + neg_part b ≡ neg_part (a +ℤ b) + pos_part a + pos_part b
unfolding ◌+ℤ◌
+ℤ_parts a b = ground arith

pub -ℤ_parts :
    (a b : ℤ)
    → pos_part (a -ℤ b) + neg_part a + pos_part b ≡ neg_part (a -ℤ b) + pos_part a + neg_part b
unfolding ◌-ℤ◌
-ℤ_parts a b = ground arith

pub negℤ_parts : (a : ℤ) → pos_part (negℤ a) + pos_part a ≡ neg_part (negℤ a) + neg_part a
unfolding negℤ
negℤ_parts a = ground arith

pub eq_of_parts : (a b : ℤ) → pos_part a + neg_part b ≡ pos_part b + neg_part a → a ≡ b
eq_of_parts a b h = ground arith

pub parts_of_eq : (a b : ℤ) → a ≡ b → pos_part a + neg_part b ≡ pos_part b + neg_part a
parts_of_eq a b h = ground arith

-- How the tests are read.
pub <?_true : (a b : ℤ) → (a <? b) ≡ true → a <ℤ b
<?_true a b h = ground arith

pub <?_false : (a b : ℤ) → (a <? b) ≡ false → b ≤ℤ a
<?_false a b h = ground arith

pub ≤?_true : (a b : ℤ) → (a ≤? b) ≡ true → a ≤ℤ b
≤?_true a b h = ground arith

pub ≤?_false : (a b : ℤ) → (a ≤? b) ≡ false → b <ℤ a
≤?_false a b h = ground arith

pub =?_true : (a b : ℤ) → (a =? b) ≡ true → a ≡ b
=?_true a b h = ground arith

pub =?_false : (a b : ℤ) → (a =? b) ≡ false → a ≢ b
=?_false a b h = ground arith

pub <?_of_lt : (a b : ℤ) → a <ℤ b → (a <? b) ≡ true
<?_of_lt a b h = ground arith

pub <?_of_le : (a b : ℤ) → b ≤ℤ a → (a <? b) ≡ false
<?_of_le a b h = ground arith

pub ≤?_of_le : (a b : ℤ) → a ≤ℤ b → (a ≤? b) ≡ true
≤?_of_le a b h = ground arith

pub ≤?_of_lt : (a b : ℤ) → b <ℤ a → (a ≤? b) ≡ false
≤?_of_lt a b h = ground arith

pub ruleset int_laws = (arith, +ℤ_parts, -ℤ_parts, negℤ_parts, eq_of_parts)

pub ruleset int_tests = (int_laws, <?_true, <?_false, ≤?_true, ≤?_false, =?_true)

pub le_max_left : (a b : ℤ) → a ≤ℤ max a b
le_max_left a b = ground arith

pub le_max_right : (a b : ℤ) → b ≤ℤ max a b
le_max_right a b = ground arith

pub +ℤ_cancel : (a b : ℤ) → a +ℤ b -ℤ b ≡ a
+ℤ_cancel a b = omega int_laws

pub min_is_left : (a b : ℤ) → a ≤ℤ b → a ≡ min a b
min_is_left a b l = rw (<?_of_le b a l) refl

pub min_is_right : (a b : ℤ) → b <ℤ a → b ≡ min a b
min_is_right a b l = rw (<?_of_lt b a l) refl
