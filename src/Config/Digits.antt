-- ===== src/Config/Digits.antt =====
-- The numbers and the suffixes that `parse_period` reads (prototype/utils.py).
use ensuro.Prelude.{
  ℕ, suc, ◌+◌, ◌-◌, ◌*◌, ◌^◌, ◌<◌, ◌≡◌, refl, ap, arith, Bool, true, false, ◌==◌, if◌then◌else◌,
  Option, none, some, inl, inr, Option-cases, List, [], ◌∷◌, ◌++◌, map,
}
use native.Mathlib.Omega.{pow_step}
use ensuro.Prelude.Int.{ℤ, pos, ◌*ℤ◌}
use ensuro.Prelude.Calls.{Result, ok, err, Fault, ◌>>=◌}
use ensuro.Config.Periods.{
  is_digit, all_digits, isdigit, is_space, lstrip, rstrip, digits_value, signed_value, int,
  multiplier, but_last, last_of, multiplier_of, parse_period,
}

-- The characters of a sequence of digits.
abbrev pub digit : ℕ → ℕ
digit d = 48 + d

unfoldable pub length : List ℕ → ℕ
length [] = 0
length (d ∷ ds) = suc (length ds)

-- The number that they write in base ten.
unfoldable pub value : List ℕ → ℕ
value [] = 0
value (d ∷ ds) = d * 10 ^ length ds + value ds

unfoldable pub AllBelowTen : List ℕ → Type 0
AllBelowTen [] = Unit
AllBelowTen (d ∷ ds) = (d < 10) × AllBelowTen ds

all_digits_lem : (ds : List ℕ) → AllBelowTen ds → all_digits (map digit ds) ≡ true
unfolding all_digits AllBelowTen
all_digits_lem [] h = refl
all_digits_lem (d ∷ ds) (below, h) = rw (all_digits_lem ds h) (ground arith)

all_digits-suffix :
    (ds : List ℕ) (c : ℕ) → is_digit c ≡ false → all_digits (map digit ds ++ c ∷ []) ≡ false
unfolding all_digits
all_digits-suffix [] c h = rw h refl
all_digits-suffix (d ∷ ds) c h = rw (all_digits-suffix ds c h) (ground arith)

shift_digit : (acc d n v : ℕ) → (acc * 10 + d) * 10 ^ n + v ≡ acc * 10 ^ suc n + (d * 10 ^ n + v)
shift_digit acc d n v = rw (pow_step 10 n) (omega arith)

next_digit :
    (acc d : ℕ) (b : Bool) (cs : List ℕ)
    → d < 10
    → digits_value acc b (digit d ∷ cs) ≡ digits_value (acc * 10 + d) true cs
unfolding digits_value
next_digit acc d b cs below =
    let a_digit : is_digit (digit d) ≡ true = ground arith in
    let same : digit d - 48 ≡ d = omega arith in rw (a_digit, same) refl

digits_value_lem :
    (acc : ℕ) (ds : List ℕ)
    → AllBelowTen ds
    → digits_value acc true (map digit ds) ≡ some (acc * 10 ^ length ds + value ds)
unfolding AllBelowTen value length digits_value
digits_value_lem acc [] h = ap some (omega arith)
digits_value_lem acc (d ∷ ds) (below, h) =
    rw
      (
        next_digit acc d true (map digit ds) below,
        digits_value_lem (acc * 10 + d) ds h,
        shift_digit acc d (length ds) (value ds),
      )
      refl

rstrip_digits : (ds : List ℕ) → AllBelowTen ds → rstrip (map digit ds) ≡ map digit ds
unfolding rstrip AllBelowTen
rstrip_digits [] h = refl
rstrip_digits (d ∷ []) (below, h) =
    let not_blank : is_space (digit d) ≡ false = ground arith in rw not_blank refl
rstrip_digits (d ∷ e ∷ ds) (below, h) = rw (rstrip_digits (e ∷ ds) h) refl

int_digits :
    (d : ℕ) (ds : List ℕ)
    → AllBelowTen (d ∷ ds)
    → int (map digit (d ∷ ds)) ≡ ok (pos (value (d ∷ ds)))
unfolding int lstrip signed_value AllBelowTen value
int_digits d ds (below, h) =
    let not_blank : is_space (digit d) ≡ false = ground arith in
    let not_minus : (digit d == 45) ≡ false = ground arith in
    let not_plus : (digit d == 43) ≡ false = ground arith in
    rw
      (
        not_blank,
        rstrip_digits (d ∷ ds) (below, h),
        not_minus,
        not_plus,
        next_digit 0 d false (map digit ds) below,
        digits_value_lem (0 * 10 + d) ds h,
      )
      (ap (λ n. ok (pos n)) (omega arith))

but_last_suffix : (cs : List ℕ) (c : ℕ) → but_last (cs ++ c ∷ []) ≡ cs
unfolding but_last
but_last_suffix [] c = refl
but_last_suffix (b ∷ []) c = refl
but_last_suffix (a ∷ b ∷ cs) c = ap (λ bs. a ∷ bs) (but_last_suffix (b ∷ cs) c)

last_of_suffix : (b : ℕ) (cs : List ℕ) (c : ℕ) → last_of b (cs ++ c ∷ []) ≡ c
unfolding last_of
last_of_suffix b [] c = refl
last_of_suffix b (a ∷ cs) c = last_of_suffix a cs c

-- The seconds of an hour, a day, a week, a month of 30 days and a year of 365, by the letter.
abbrev pub seconds_of : ℕ → Option ℕ
seconds_of c =
    if c == 104
    then some 3600
    else if c == 100
    then some 86400
    else if c == 119
    then some 604800
    else if c == 109
    then some 2592000
    else if c == 121
    then some 31536000
    else none

multiplier_lem : (c : ℕ) → multiplier c ≡ seconds_of c
unfolding multiplier
multiplier_lem c = refl

-- What a count before a suffix stands for; without a digit there is no count.
abbrev pub counted : List ℕ → ℕ → Result ℤ
counted [] c = err Fault.value_error
counted (d ∷ ds) c = elim (seconds_of c) [
  | none ↦ err Fault.key_error
  | some seconds ↦ ok (pos (value (d ∷ ds) * seconds))
]

plain :
    (d : ℕ) (ds : List ℕ)
    → AllBelowTen (d ∷ ds)
    → parse_period (map digit (d ∷ ds)) ≡ ok (pos (value (d ∷ ds)))
unfolding parse_period isdigit
plain d ds h = rw (all_digits_lem (d ∷ ds) h) (int_digits d ds h)

product : (a b : ℕ) → pos a *ℤ pos b ≡ pos (a * b)
unfolding ◌*ℤ◌
product a b = ground arith

int_nothing : int [] ≡ err Fault.value_error
unfolding int lstrip rstrip signed_value
int_nothing = refl

with_suffix :
    (ds : List ℕ) (c : ℕ)
    → AllBelowTen ds
    → is_digit c ≡ false
    → parse_period (map digit ds ++ c ∷ []) ≡ counted ds c
unfolding parse_period isdigit ◌>>=◌ multiplier_of
with_suffix [] c h other = rw (all_digits-suffix [] c other, but_last_suffix [] c, int_nothing) refl
with_suffix (d ∷ ds) c h other =
    rw
      (
        all_digits-suffix (d ∷ ds) c other,
        but_last_suffix (map digit (d ∷ ds)) c,
        int_digits d ds h,
        last_of_suffix (digit d) (map digit ds) c,
        multiplier_lem c,
      )
      (elim (Option-cases (seconds_of c)) [
        | inl unknown ↦ rw (unknown, counted) refl
        | inr (seconds, known) ↦ rw (known, counted) (ap ok (product (value (d ∷ ds)) seconds))
      ])

-- Digits alone are a number of seconds, the one that they write in base ten. Before an ASCII
-- character that is no digit they are so many hours, days, weeks, months of 30 days or years of 365,
-- as the character is h, d, w, m or y; another character raises a KeyError, and a character without
-- digits before it a ValueError.
pub parse_period_lem :
    (ds : List ℕ) (c : ℕ)
    → AllBelowTen ds
    → c < 128
    → is_digit c ≡ false
    → (parse_period (map digit ds ++ c ∷ []) ≡ counted ds c)
      × ((d : ℕ) → d < 10 → parse_period (map digit (d ∷ ds)) ≡ ok (pos (value (d ∷ ds))))
unfolding AllBelowTen
parse_period_lem ds c h ascii other = (with_suffix ds c h other, λ d below. plain d ds (below, h))
