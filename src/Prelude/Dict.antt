-- ===== src/Prelude/Dict.antt =====
-- Python's dictionaries with numbers for keys, in the order of insertion. Names and addresses are
-- such keys.
use ensuro.Prelude.Tests.{◌==◌, if◌then◌else◌, Bool-cases}
use Prim.Native.Nat.{ℕ}
use mathlib.Core.Path.{◌≡◌, refl}
use mathlib.Core.Logic.{inl, inr}
use mathlib.Core.Bool.{true, false}
use mathlib.Core.Option.{Option, none, some}
use mathlib.Core.List.{List, [], ◌∷◌}
use native.Mathlib.Omega.{arith}

module _ {V : Type 0} where
  -- `d.get(k)`
  unfoldable pub entry : ℕ → List (ℕ × V) → Option V
  entry k [] = none
  entry k ((j, v) ∷ d) = if k == j then some v else entry k d

  -- `d[k] = v`
  unfoldable pub enter : ℕ → V → List (ℕ × V) → List (ℕ × V)
  enter k v [] = (k, v) ∷ []
  enter k v ((j, u) ∷ d) = if k == j then (k, v) ∷ d else (j, u) ∷ enter k v d

  pub entry-enter :
      (i k : ℕ) (v : V) (d : List (ℕ × V))
      → entry i (enter k v d) ≡ (if i == k then some v else entry i d)
  unfolding entry enter
  entry-enter i k v [] = refl
  entry-enter i k v ((j, u) ∷ d) = ground (arith, entry-enter i k v d)

  -- `d.pop(k)`, where the key is there
  unfoldable pub leave : ℕ → List (ℕ × V) → List (ℕ × V)
  leave k [] = []
  leave k ((j, u) ∷ d) = if k == j then d else (j, u) ∷ leave k d

  -- No key has two entries.
  unfoldable pub OneEach : List (ℕ × V) → Type 0
  OneEach [] = Unit
  OneEach ((k, v) ∷ d) = (entry k d ≡ none) × OneEach d

  pub OneEach-enter : (k : ℕ) (v : V) (d : List (ℕ × V)) → OneEach d → OneEach (enter k v d)
  unfolding OneEach enter entry
  OneEach-enter k v [] h = (refl, tt)
  OneEach-enter k v ((j, u) ∷ d) (absent, h) = elim (Bool-cases (k == j)) [
    | inl same ↦ let equal : k ≡ j = ground arith in rw same ((rw equal absent), h)
    | inr other ↦
        let apart : (j == k) ≡ false = ground arith in
        rw other ((rw (entry-enter j k v d, apart) absent), OneEach-enter k v d h)
  ]

  pub entry-leave :
      (i k : ℕ) (d : List (ℕ × V))
      → OneEach d
      → entry i (leave k d) ≡ (if i == k then none else entry i d)
  unfolding OneEach leave entry
  entry-leave i k [] h = ground arith
  entry-leave i k ((j, u) ∷ d) (absent, h) = elim (Bool-cases (k == j)) [
    | inl same ↦ rw same (only_entry same)
    | inr other ↦
        let apart : (j == k) ≡ false = ground arith in
        rw other (ground (arith, entry-leave i k d h, apart))
  ]
    where
      only_entry :
          (k == j) ≡ true
          → entry i d ≡ (if i == k then none else (if i == j then some u else entry i d))
      only_entry same = elim (Bool-cases (i == k)) [
        | inl first ↦ let i_is : i ≡ j = ground arith in rw first (rw i_is absent)
        | inr later ↦ let apart : (i == j) ≡ false = ground arith in rw (later, apart) refl
      ]

  pub OneEach-leave : (k : ℕ) (d : List (ℕ × V)) → OneEach d → OneEach (leave k d)
  unfolding OneEach leave
  OneEach-leave k [] h = tt
  OneEach-leave k ((j, u) ∷ d) (absent, h) = elim (Bool-cases (k == j)) [
    | inl same ↦ rw same h
    | inr other ↦
        let apart : (j == k) ≡ false = ground arith in
        rw other ((rw (entry-leave j k d h, apart) absent), OneEach-leave k d h)
  ]
