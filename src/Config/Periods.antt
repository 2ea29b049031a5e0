-- ===== src/Config/Periods.antt =====
-- `parse_period` (prototype/utils.py) on strings of ASCII characters, as lists of their codes, with
-- the parts of Python's `str.isdigit` and `int` that it uses.
use ensuro.Prelude.{
  ℕ, ◌+◌, ◌-◌, ◌*◌, Bool, true, false, ◌&&◌, ◌||◌, Option, none, some, List, [], ◌∷◌, ◌==◌, leb,
  if◌then◌else◌,
}
use ensuro.Prelude.Int.{ℤ, pos, ◌*ℤ◌, negℤ}
use ensuro.Prelude.Calls.{Result, ok, err, Fault, or_fault, ◌>>=◌}

abbrev pub hour : ℕ
hour = 3600

abbrev pub day : ℕ
day = 24 * hour

abbrev pub week : ℕ
week = 7 * day

abbrev pub month : ℕ
month = 30 * day

abbrev pub days_in_year : ℕ
days_in_year = 365

abbrev pub year : ℕ
year = days_in_year * day

-- The characters `0` to `9`.
abbrev pub is_digit : ℕ → Bool
is_digit c = leb 48 c && leb c 57

unfoldable pub all_digits : List ℕ → Bool
all_digits [] = true
all_digits (c ∷ cs) = is_digit c && all_digits cs

-- `isdigit`
unfoldable pub isdigit : List ℕ → Bool
isdigit [] = false
isdigit (c ∷ cs) = all_digits (c ∷ cs)

-- What `int` strips: the blank, tab to carriage return, and the four separators.
abbrev pub is_space : ℕ → Bool
is_space c = c == 32 || (leb 9 c && leb c 13) || (leb 28 c && leb c 31)

unfoldable pub lstrip : List ℕ → List ℕ
lstrip [] = []
lstrip (c ∷ cs) = if is_space c then lstrip cs else c ∷ cs

-- The blanks of the end.
unfoldable pub rstrip : List ℕ → List ℕ
rstrip [] = []
rstrip (c ∷ cs) = elim (rstrip cs) [ [] ↦ if is_space c then [] else c ∷ [] | d ∷ ds ↦ c ∷ d ∷ ds ]

-- The digits, with single underscores between them; the flag says that a digit came last.
unfoldable pub digits_value : ℕ → Bool → List ℕ → Option ℕ
digits_value acc true [] = some acc
digits_value acc false [] = none
digits_value acc after_digit (c ∷ cs) =
    let further = digits_value (acc * 10 + (c - 48)) true cs in
    let joined = digits_value acc false cs in
    if is_digit c then further else if c == 95 && after_digit then joined else none

-- The sign and the digits.
unfoldable pub signed_value : List ℕ → Option ℤ
signed_value [] = none
signed_value (c ∷ cs) =
    if c == 45
    then (elim (digits_value 0 false cs) [ none ↦ none | some n ↦ some (negℤ (pos n)) ])
    else if c == 43
    then (elim (digits_value 0 false cs) [ none ↦ none | some n ↦ some (pos n) ])
    else (elim (digits_value 0 false (c ∷ cs)) [ none ↦ none | some n ↦ some (pos n) ])

-- `int(s)`
unfoldable pub int : List ℕ → Result ℤ
int cs = or_fault (signed_value (rstrip (lstrip cs))) Fault.value_error

-- The dictionary of the suffixes.
unfoldable pub multiplier : ℕ → Option ℕ
multiplier c =
    if c == 104
    then some hour
    else if c == 100
    then some day
    else if c == 119
    then some week
    else if c == 109
    then some month
    else if c == 121
    then some year
    else none

-- `period[:-1]` and `period[-1]`, where the period has a character.
unfoldable pub but_last : List ℕ → List ℕ
but_last [] = []
but_last (c ∷ []) = []
but_last (c ∷ d ∷ cs) = c ∷ but_last (d ∷ cs)

unfoldable pub last_of : ℕ → List ℕ → ℕ
last_of c [] = c
last_of c (d ∷ cs) = last_of d cs

unfoldable pub multiplier_of : List ℕ → Result ℕ
multiplier_of [] = err Fault.index_error
multiplier_of (c ∷ cs) = or_fault (multiplier (last_of c cs)) Fault.key_error

unfoldable pub parse_period : List ℕ → Result ℤ
parse_period period = if isdigit period then int period else (do
  count ← int (but_last period)
  seconds ← multiplier_of period
  ok (count *ℤ pos seconds))
