-- ===== src/Bindings/Components.antt =====
-- `fetch_etokens`, `fetch_premiums_accounts` and `fetch_riskmodules` of `PolicyPool`
-- (prototype/wrappers.py): the active components, from the events of status changes.
use ensuro.Prelude.{
  ℕ, ◌≡◌, refl, arith, true, false, Bool-cases, Option-cases, inl, inr, Option, none, some, List,
  [], ◌∷◌, ◌==◌, if◌then◌else◌,
}
use ensuro.Prelude.Dict.{
  entry, enter, leave, OneEach, entry-enter, entry-leave, OneEach-enter, OneEach-leave,
}

-- `ComponentStatusChanged`
pub record StatusChanged : Type 0 where
  pub component : ℕ
  pub kind : ℕ
  pub new_status : ℕ

-- The dictionary keys: an eToken's name, which the binding asks the contract for, and otherwise the
-- component's address.
unfoldable pub change : (ℕ → ℕ) → StatusChanged → List (ℕ × ℕ) → List (ℕ × ℕ)
change key evt d =
    if evt.new_status == 1
    then enter (key evt.component) evt.component d
    else (elim (entry (key evt.component) d) [ some c ↦ leave (key evt.component) d | none ↦ d ])

unfoldable pub replay : ℕ → (ℕ → ℕ) → List StatusChanged → List (ℕ × ℕ) → List (ℕ × ℕ)
replay kind key [] d = d
replay kind key (evt ∷ events) d =
    replay kind key events (if evt.kind == kind then change key evt d else d)

unfoldable pub fetch_etokens : (ℕ → ℕ) → List StatusChanged → List (ℕ × ℕ)
fetch_etokens name_of events = replay 1 name_of events []

unfoldable pub fetch_riskmodules : List StatusChanged → List (ℕ × ℕ)
fetch_riskmodules events = replay 2 (λ a. a) events []

unfoldable pub fetch_premiums_accounts : List StatusChanged → List (ℕ × ℕ)
fetch_premiums_accounts events = replay 3 (λ a. a) events []

-- What an address's last event of a kind says, or `before` where it has none.
unfoldable pub status_after : ℕ → ℕ → ℕ → List StatusChanged → ℕ
status_after kind a before [] = before
status_after kind a before (evt ∷ events) =
    status_after kind a
      (if evt.kind == kind then (if evt.component == a then evt.new_status else before) else before)
      events

-- What is found at an address of a status.
abbrev pub found_at : ℕ → ℕ → Option ℕ
found_at a status = if status == 1 then some a else none

module _ (key : ℕ → ℕ) (same_key : (a b : ℕ) → (key a == key b) ≡ (a == b)) where
  this_one :
      (evt : StatusChanged) (d : List (ℕ × ℕ))
      → OneEach d
      → entry (key evt.component) (change key evt d) ≡ found_at evt.component evt.new_status
  unfolding change
  this_one evt d h = elim (Bool-cases (evt.new_status == 1)) [
    | inl active ↦ rw active (
        rw
          (
            entry-enter (key evt.component) (key evt.component) evt.component d,
            same_key evt.component evt.component,
          )
          (ground arith))
    | inr other ↦ rw other (elim (Option-cases (entry (key evt.component) d)) [
      | inl absent ↦ rw absent absent
      | inr (c, present) ↦ rw present (
          rw
            (
              entry-leave (key evt.component) (key evt.component) d h,
              same_key evt.component evt.component,
            )
            (ground arith))
    ])
  ]

  other_one :
      (evt : StatusChanged) (k : ℕ)
      → (k == key evt.component) ≡ false
      → (d : List (ℕ × ℕ)) → OneEach d
      → entry k (change key evt d) ≡ entry k d
  unfolding change
  other_one evt k apart d h = elim (Bool-cases (evt.new_status == 1)) [
    | inl active ↦ rw active (rw (entry-enter k (key evt.component) evt.component d, apart) refl)
    | inr other ↦ rw other (elim (Option-cases (entry (key evt.component) d)) [
      | inl absent ↦ rw absent refl
      | inr (c, present) ↦ rw present (rw (entry-leave k (key evt.component) d h, apart) refl)
    ])
  ]

  change-OneEach : (evt : StatusChanged) (d : List (ℕ × ℕ)) → OneEach d → OneEach (change key evt d)
  unfolding change
  change-OneEach evt d h = elim (Bool-cases (evt.new_status == 1)) [
    | inl active ↦ rw active (OneEach-enter (key evt.component) evt.component d h)
    | inr other ↦ rw other (elim (Option-cases (entry (key evt.component) d)) [
      | inl absent ↦ rw absent h
      | inr (c, present) ↦ rw present (OneEach-leave (key evt.component) d h)
    ])
  ]

  change-entry :
      (evt : StatusChanged) (a before : ℕ) (d : List (ℕ × ℕ))
      → OneEach d
      → entry (key a) d ≡ found_at a before
      → entry (key a) (change key evt d)
        ≡ found_at a (if evt.component == a then evt.new_status else before)
  unfolding change
  change-entry evt a before d h at = elim (Bool-cases (a == evt.component)) [
    | inl same ↦
        let of_a : a ≡ evt.component = ground arith in
        let hit : (evt.component == a) ≡ true = ground arith in rw hit (rw of_a (this_one evt d h))
    | inr other ↦
        let apart : (key a == key evt.component) ≡ false = rw same_key other in
        let unlike : (evt.component == a) ≡ false = ground arith in
        rw unlike (rw (← at) (other_one evt (key a) apart d h))
  ]

  replay-entry :
      (kind a before : ℕ) (events : List StatusChanged) (d : List (ℕ × ℕ))
      → OneEach d
      → entry (key a) d ≡ found_at a before
      → entry (key a) (replay kind key events d) ≡ found_at a (status_after kind a before events)
  unfolding replay status_after
  replay-entry kind a before [] d h at = at
  replay-entry kind a before (evt ∷ events) d h at = elim (Bool-cases (evt.kind == kind)) [
    | inl wanted ↦ rw wanted (
        replay-entry kind a (if evt.component == a then evt.new_status else before) events
          (change key evt d) (change-OneEach evt d h) (change-entry evt a before d h at))
    | inr other ↦ rw other (replay-entry kind a before events d h at)
  ]

-- After any events of status changes, the active components that the bindings find are those whose
-- last event of their kind made them active: risk modules (kind 2) and premiums accounts (kind 3),
-- looked up by address, and eTokens (kind 1), looked up by name, where no two components have the
-- same name. Each is found with its address, and nothing is found of the others.
pub fetched_lem :
    (name_of : ℕ → ℕ)
    → ((a b : ℕ) → (name_of a == name_of b) ≡ (a == b))
    → (events : List StatusChanged) (a : ℕ)
    → (entry (name_of a) (fetch_etokens name_of events) ≡ found_at a (status_after 1 a 0 events))
      × (entry a (fetch_riskmodules events) ≡ found_at a (status_after 2 a 0 events))
      × (entry a (fetch_premiums_accounts events) ≡ found_at a (status_after 3 a 0 events))
unfolding fetch_etokens fetch_riskmodules fetch_premiums_accounts OneEach entry
fetched_lem name_of distinct events a = (
  replay-entry name_of distinct 1 a 0 events [] tt refl,
  replay-entry (λ i. i) (λ i j. refl) 2 a 0 events [] tt refl,
  replay-entry (λ i. i) (λ i j. refl) 3 a 0 events [] tt refl,
)
