-- ===== src/Config/Expansion.antt =====
-- The values that `envvar_constructor` (prototype/utils.py) expands.
use ensuro.Prelude.{
  ℕ, ◌≡◌, refl, sym, ◌∙◌, Bool, Bool-cases, ◌&&◌, Option, none, some, Option-cases, inl, inr, ◌⊎◌,
  List, [], ◌∷◌, ◌++◌, ◌==◌, arith, ap,
}
use ensuro.Prelude.Calls.{Result, ok, err, Fault, ◌>>=◌}
use ensuro.Config.Variables.{
  span, is_word, is_open, Variable, default_of, closed, named, match_variable, AllAre,
  envvar_constructor, written_default, written, DefaultIsOpen, IsVariable, match_variable-written,
}

span_lem :
    (test : ℕ → Bool) (cs : List ℕ)
    → ((span test cs).0 ++ (span test cs).1 ≡ cs) × AllAre test (span test cs).0
unfolding span AllAre
span_lem test [] = (refl, tt)
span_lem test (c ∷ cs) =
    let (joined, all) = span_lem test cs in
    elim (Bool-cases (test c)) [
      | inl here ↦ rw here (ap (λ t. c ∷ t) joined, (here, all))
      | inr stop ↦ rw stop (refl, tt)
    ]

default_of_lem :
    (cs : List ℕ)
    → (written_default (default_of cs).0 (default_of cs).1 ≡ cs) × DefaultIsOpen (default_of cs).0
unfolding default_of written_default DefaultIsOpen
default_of_lem [] = (refl, tt)
default_of_lem (c ∷ []) = (refl, tt)
default_of_lem (c ∷ d ∷ cs) =
    let (joined, all) = span_lem is_open cs in
    elim (Bool-cases (c == 58 && d == 45)) [
      | inl given ↦
          let first : c ≡ 58 = ground arith in
          let second : d ≡ 45 = ground arith in rw given (rw (first, second, joined) refl, all)
      | inr absent ↦ rw absent (refl, tt)
    ]

closed_lem :
    (name : List ℕ) (default : Option (List ℕ)) (cs : List ℕ) {m : Variable}
    → closed name default cs ≡ some m
    → (rest : List ℕ) × (cs ≡ 125 ∷ rest)
      × (m ≡ record { name = name; default = default; rest = rest })
unfolding closed
closed_lem name default [] e = cc
closed_lem name default (c ∷ rest) {m} e = elim (Bool-cases (c == 125)) [
  | inl brace ↦
      let at : c ≡ 125 = ground arith in
      let same : some (record { name = name; default = default; rest = rest }) ≡ some m =
        rw brace at e in
      (rest, rw at refl, cc)
  | inr other ↦ absurd (let no : none ≡ some m = rw other at e in cc)
]

named_lem :
    (name : List ℕ) (cs : List ℕ) {m : Variable}
    → AllAre is_word name
    → named name (default_of cs) ≡ some m
    → (name ++ cs ≡ m.name ++ written_default m.default (125 ∷ m.rest)) × IsVariable m
unfolding named
named_lem [] cs word e = cc
named_lem (c ∷ name) cs word e =
    let (joined, no_brace) = default_of_lem cs in
    let (rest, end, same) = closed_lem (c ∷ name) (default_of cs).0 (default_of cs).1 e in
    rw same (
      ap (λ t. c ∷ name ++ t) (sym joined ∙ ap (λ t. written_default (default_of cs).0 t) end),
      IsVariable.variable c name (default_of cs).0 rest word no_brace,
    )

match_variable_lem :
    (value : List ℕ) {m : Variable}
    → match_variable value ≡ some m
    → (value ≡ written m) × IsVariable m
unfolding match_variable written
match_variable_lem [] e = cc
match_variable_lem (c ∷ []) e = cc
match_variable_lem (c ∷ d ∷ cs) {m} e =
    let (joined, word) = span_lem is_word cs in
    elim (Bool-cases (c == 36 && d == 123)) [
      | inl opened ↦
          let first : c ≡ 36 = ground arith in
          let second : d ≡ 123 = ground arith in
          let inside : named (span is_word cs).0 (default_of (span is_word cs).1) ≡ some m =
            rw opened at e in
          let (same, good) = named_lem _ (span is_word cs).1 word inside in
          (rw (first, second) (ap (λ t. 36 ∷ 123 ∷ t) (sym joined ∙ same)), good)
      | inr other ↦ absurd (let no : none ≡ some m = rw other at e in cc)
    ]

pub envvar_constructor_lem :
    (env_str : List ℕ → Option (List ℕ) → Result (List ℕ)) (value : List ℕ)
    → ((m : Variable) × (value ≡ written m)
        × IsVariable m
        × (envvar_constructor env_str value
            ≡ (env_str m.name m.default >>= λ expanded. ok (expanded ++ m.rest))))
      ⊎ ((¬ ((m : Variable) × IsVariable m × (value ≡ written m)))
          × (envvar_constructor env_str value ≡ err Fault.attribute_error))
unfolding envvar_constructor ◌>>=◌
envvar_constructor_lem env_str value = elim (Option-cases (match_variable value)) [
  | inl missed ↦ inr (
    (λ (m, good, same).
        let found = match_variable-written m good in
        let no : none ≡ some m = sym missed ∙ ap (λ t. match_variable t) same ∙ found in cc),
    rw missed refl,
  )
  | inr (m, found) ↦
      let (same, good) = match_variable_lem value found in inl (m, same, good, rw found refl)
]
