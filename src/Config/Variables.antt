-- ===== src/Config/Variables.antt =====
-- `envvar_matcher` and `envvar_constructor` (prototype/utils.py) on strings of ASCII characters, as
-- lists of their codes. `env.str` of the package environs is a parameter.
use ensuro.Prelude.{
  ℕ, ◌≡◌, refl, Bool, true, false, not, ◌&&◌, ◌||◌, Option, none, some, List, [], ◌∷◌, ◌++◌, ◌==◌,
  leb, if◌then◌else◌,
}
use ensuro.Prelude.Calls.{Result, ok, Fault, or_fault, ◌>>=◌}
use ensuro.Config.Periods.{is_digit}

-- What a class of characters in the pattern matches: as many characters as it can.
unfoldable pub span : (ℕ → Bool) → List ℕ → List ℕ × List ℕ
span test [] = ([], [])
span test (c ∷ cs) = let r = span test cs in if test c then (c ∷ r.0, r.1) else ([], c ∷ cs)

-- `[A-Za-z0-9_]`
unfoldable pub is_word : ℕ → Bool
is_word c = is_digit c || (leb 65 c && leb c 90) || (leb 97 c && leb c 122) || c == 95

-- `[^\}]`
unfoldable pub is_open : ℕ → Bool
is_open c = not (c == 125)

-- The match: the name, the default without its `:-`, and what follows the match.
pub record Variable : Type 0 where
  pub name : List ℕ
  pub default : Option (List ℕ)
  pub rest : List ℕ

-- `(:-[^\}]*)?`
unfoldable pub default_of : List ℕ → Option (List ℕ) × List ℕ
default_of [] = (none, [])
default_of (c ∷ []) = (none, c ∷ [])
default_of (c ∷ d ∷ cs) =
    let r = span is_open cs in if c == 58 && d == 45 then (some r.0, r.1) else (none, c ∷ d ∷ cs)

-- `\}`
unfoldable pub closed : List ℕ → Option (List ℕ) → List ℕ → Option Variable
closed name default [] = none
closed name default (c ∷ rest) =
    if c == 125 then some (record { name = name; default = default; rest = rest }) else none

-- A name is not empty.
unfoldable pub named : List ℕ → Option (List ℕ) × List ℕ → Option Variable
named [] r = none
named (c ∷ cs) r = closed (c ∷ cs) r.0 r.1

-- `envvar_matcher.match(value)`
unfoldable pub match_variable : List ℕ → Option Variable
match_variable [] = none
match_variable (c ∷ []) = none
match_variable (c ∷ d ∷ cs) =
    let r = span is_word cs in if c == 36 && d == 123 then named r.0 (default_of r.1) else none

-- `env.str` with the name and the default, if one is given.
unfoldable pub envvar_constructor :
    (List ℕ → Option (List ℕ) → Result (List ℕ)) → List ℕ → Result (List ℕ)
envvar_constructor env_str value = do
  m ← or_fault (match_variable value) Fault.attribute_error
  expanded ← env_str m.name m.default
  ok (expanded ++ m.rest)

unfoldable pub AllAre : (ℕ → Bool) → List ℕ → Type 0
AllAre test [] = Unit {0}
AllAre test (c ∷ cs) = (test c ≡ true) × AllAre test cs

-- The way a variable is written: `${NAME}rest` or `${NAME:-default}rest`.
unfoldable pub written_default : Option (List ℕ) → List ℕ → List ℕ
written_default none end = end
written_default (some text) end = 58 ∷ 45 ∷ text ++ end

unfoldable pub written : Variable → List ℕ
written m = 36 ∷ 123 ∷ m.name ++ written_default m.default (125 ∷ m.rest)

unfoldable pub DefaultIsOpen : Option (List ℕ) → Type 0
DefaultIsOpen none = Unit {0}
DefaultIsOpen (some text) = AllAre is_open text

-- A name of at least one character of a word, and a default without a closing brace.
pub data IsVariable : Variable → Type 0 where
  variable :
      (c : ℕ) (cs : List ℕ) (default : Option (List ℕ)) (rest : List ℕ)
      → AllAre is_word (c ∷ cs)
      → DefaultIsOpen default
      → IsVariable (record { name = c ∷ cs; default = default; rest = rest })

span-append :
    (test : ℕ → Bool) (a : List ℕ) (c : ℕ) (b : List ℕ)
    → AllAre test a
    → test c ≡ false
    → span test (a ++ c ∷ b) ≡ (a, c ∷ b)
unfolding span AllAre
span-append test [] c b all stop = rw stop refl
span-append test (d ∷ a) c b (here, all) stop = rw (here, span-append test a c b all stop) refl

named_lem :
    (c : ℕ) (cs : List ℕ) (default : Option (List ℕ)) (rest : List ℕ)
    → DefaultIsOpen default
    → named (c ∷ cs) (default_of (written_default default (125 ∷ rest)))
      ≡ some (record { name = c ∷ cs; default = default; rest = rest })
unfolding named default_of written_default closed DefaultIsOpen is_open
named_lem c cs none [] no_brace = refl
named_lem c cs none (d ∷ rest) no_brace = refl
named_lem c cs (some text) rest no_brace = rw (span-append is_open text 125 rest no_brace refl) refl

pub match_variable-written : (m : Variable) → IsVariable m → match_variable (written m) ≡ some m
unfolding match_variable written is_word written_default
match_variable-written _ (IsVariable.variable c cs none rest word no_brace) =
    rw (span-append is_word (c ∷ cs) 125 rest word refl) (named_lem c cs none rest no_brace)
match_variable-written _ (IsVariable.variable c cs (some text) rest word no_brace) =
    rw (span-append is_word (c ∷ cs) 58 (45 ∷ text ++ 125 ∷ rest) word refl)
      (named_lem c cs (some text) rest no_brace)
