-- ===== src/Reserve/Management.antt =====
-- The plug of an asset manager into a reserve (`ReserveMixin.set_asset_manager`, prototype/ensuro.py).
use ensuro.Prelude.{
  ℕ, ◌≡◌, refl, ◌⊎◌, inl, inr, Option-cases, Bool, true, false, Option, none, some,
}
use ensuro.Prelude.Calls.{Fault, Result, ok, err, ◌>>=◌, ◌>>◌}

-- How a call of a manager ends: the state that it leaves, and what it raised.
pub record Attempt (S : Type 0) : Type 0 where
  pub raised : Option Fault
  pub left : S

-- The reserve's field `asset_manager` and the state that the managers' calls change.
pub record Plugged (S : Type 0) : Type 0 where
  pub asset_manager : Option ℕ
  pub state : S

-- With `force`, what was raised is caught.
unfoldable pub if_forced : {S : Type 0} → Bool → Fault → S → Result S
if_forced true e s = ok s
if_forced false e s = err e

unfoldable pub attempted : {S : Type 0} → Bool → Attempt S → Result S
attempted force t = elim t.raised [ none ↦ ok t.left | some e ↦ if_forced force e t.left ]

-- `granted` is what the decorator `only_role` of ethproto says of the caller, and `deinvest_all`
-- the managers' method.
unfoldable pub set_asset_manager :
    {S : Type 0}
    → (ℕ → S → Attempt S)
    → Result (Unit {0})
    → Option ℕ
    → Bool
    → Plugged S
    → Result (Plugged S)
set_asset_manager deinvest_all granted asset_manager force p = do
  granted
  s ← elim p.asset_manager [
    | none ↦ ok p.state
    | some old ↦ attempted force (deinvest_all old p.state)
  ]
  ok (record { asset_manager = asset_manager; state = s })

-- With `force` a caller with the role always plugs the new manager in, in the state that the old
-- one's attempt to pay everything back has left. Without it, what the old manager raises is raised, and
-- otherwise the new one is plugged in.
pub set_asset_manager_lem :
    {S : Type 0} (deinvest_all : ℕ → S → Attempt S) (new : Option ℕ) (old : ℕ) (s : S)
    → (set_asset_manager deinvest_all
          (ok tt)
          new
          true
          (record { asset_manager = some old; state = s })
        ≡ ok (record { asset_manager = new; state = (deinvest_all old s).left }))
      × (((e : Fault) × ((deinvest_all old s).raised ≡ some e)
            × (set_asset_manager deinvest_all
                  (ok tt)
                  new
                  false
                  (record { asset_manager = some old; state = s })
                ≡ err e))
          ⊎ (((deinvest_all old s).raised ≡ none)
              × (set_asset_manager deinvest_all
                    (ok tt)
                    new
                    false
                    (record { asset_manager = some old; state = s })
                  ≡ ok (record { asset_manager = new; state = (deinvest_all old s).left }))))
unfolding set_asset_manager attempted if_forced ◌>>=◌
set_asset_manager_lem deinvest_all new old s = elim (Option-cases (deinvest_all old s).raised) [
  | inl paid ↦ (rw (attempted, paid) refl, inr (paid, rw (attempted, paid) refl))
  | inr (e, failed) ↦ (rw (attempted, failed) refl, inl (e, failed, rw (attempted, failed) refl))
]
