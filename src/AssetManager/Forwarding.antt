-- ===== src/AssetManager/Forwarding.antt =====
-- The calls of its asset manager that a reserve forwards (`ReserveMixin`, prototype/ensuro.py), and
-- what they leave of the reserve's books against its cash and investments.
use ensuro.Prelude.{ℕ, ◌≡◌, refl, Bool-cases, Option, none, some, inl, inr, [], ◌∷◌}
use ensuro.Prelude.Int.{ℤ, pos, ◌+ℤ◌, ◌-ℤ◌, ◌<?◌, min, int_laws, parts_of_eq}
use ensuro.Prelude.Calls.{
  Fault, Result, ok, err, ◌>>=◌, ◌>>◌, Returns, returns, Returns-bind, Returns-after, Returns-then,
  Returns-map, Returns-eq_ok,
}
use ensuro.Roles.{Caller, RoleName, only_component_role}
use ensuro.AssetManager.Liquidity.{MovesCash}
use ensuro.AssetManager.Defs
use ensuro.AssetManager.Defs.{
  Manager, Hooks, invest, deinvest, raise_cash, refill_wallet, deinvest_all,
  set_liquidity_thresholds, validate_params,
}

-- A method of the manager, on its state and the one it shares with the reserve.
abbrev pub Method : Type 0 → Type 0
Method S = Manager → S → Result (Manager × S)

-- A reserve with its field `asset_manager`.
abbrev pub Reserve : Type 0 → Type 0
Reserve S = Option Manager × S

-- `self.asset_manager.method()`
unfoldable pub on_manager : {S : Type 0} → Method S → Reserve S → Result (Reserve S)
on_manager method (none, s) = err Fault.attribute_error
on_manager method (some m, s) = do r ← method m s; ok (some r.0, r.1)

module _ {S : Type 0} ⦃h : Hooks S⦄ where
  unfoldable pub checkpoint : Reserve S → Result (Reserve S)
  checkpoint x = on_manager Defs.checkpoint x

  unfoldable pub rebalance : Reserve S → Result (Reserve S)
  rebalance x = on_manager Defs.rebalance x

  unfoldable pub record_earnings : Reserve S → Result (Reserve S)
  record_earnings x = on_manager Defs.record_earnings x

unfoldable pub forward_to_asset_manager :
    {S : Type 0} → Caller → ℕ → Method S → Reserve S → Result (Reserve S)
forward_to_asset_manager c contract_id method x = do
  only_component_role c contract_id (RoleName.level2 ∷ [])
  on_manager method x

-- The method that sets the thresholds.
unfoldable pub set_thresholds : {S : Type 0} → Option ℤ → Option ℤ → Option ℤ → Method S
set_thresholds new_min new_middle new_max m s = do
  m' ← set_liquidity_thresholds new_min new_middle new_max m
  ok (m', s)

-- The calls of a manager at the time of the hooks: three that anybody can make, the payments', and
-- two that are forwarded for a role.
pub data Managing {S : Type 0} ⦃h : Hooks S⦄ (self : ℕ) (x y : Reserve S) : Type 0 where
  checkpointed : checkpoint x ≡ ok y → Managing self x y
  rebalanced : rebalance x ≡ ok y → Managing self x y
  recorded : record_earnings x ≡ ok y → Managing self x y
  refilled : (amount : ℤ) → on_manager (refill_wallet amount) x ≡ ok y → Managing self x y
  thresholds_set :
      (c : Caller) (new_min new_middle new_max : Option ℤ)
      → forward_to_asset_manager c self (set_thresholds new_min new_middle new_max) x ≡ ok y
      → Managing self x y
  all_deinvested :
      (c : Caller) → forward_to_asset_manager c self deinvest_all x ≡ ok y → Managing self x y

-- Hooks that move what they are asked to between cash and investments, and book what they are told
-- to be earned, in the states that have a property.
pub record BooksEarnings {S : Type 0} (h : Hooks S) (books : S → ℤ) (P : S → Type 0) : Type 0 where
  pub moves : (s : S) → P s → MovesCash h s
  pub earned :
      (amount : ℤ) (s : S)
      → P s
      → Returns (λ t. (books t ≡ books s +ℤ amount) × (h.cash t ≡ h.cash s) × P t) (h.earn amount s)
  pub into :
      (amount : ℤ) (s : S) → P s → Returns (λ t. (books t ≡ books s) × P t) (h.move_in amount s)
  pub out_of :
      (amount : ℤ) (s : S) → P s → Returns (λ t. (books t ≡ books s) × P t) (h.move_out amount s)

-- What the manager has recorded as invested: nothing, if there is no manager.
unfoldable pub invested : Option Manager → ℤ
invested none = pos 0
invested (some m) = m.last_investment_value

-- The books grow as the cash and the recorded investments do.
unfoldable pub GrowTogether : {S : Type 0} → (S → ℤ) → (S → ℤ) → Reserve S → Reserve S → Type 0
GrowTogether books cash x y =
    books y.1 +ℤ (invested x.0 +ℤ cash x.1) ≡ books x.1 +ℤ (invested y.0 +ℤ cash y.1)

module _ {S : Type 0} (h : Hooks S) (books : S → ℤ) (P : S → Type 0)
    (laws : BooksEarnings h books P) where
  record Kept (m : Manager) (s : S) (r : Manager × S) : Type 0 where
    pub together :
        books r.1 +ℤ (m.last_investment_value +ℤ h.cash s)
        ≡ books s +ℤ (r.0.last_investment_value +ℤ h.cash r.1)
    pub keeps : P r.1

  Keeps : Method S → Type 0
  Keeps method = (m : Manager) (s : S) → P s → Returns (Kept m s) (method m s)

  invest-Keeps : (amount : ℤ) → Keeps (invest ⦃h = h⦄ amount)
  unfolding Keeps Defs.invest
  invest-Keeps amount m s good =
      Returns-after _ _ (laws.into amount s good) λ t moved (same, keeps).
        let cash = (laws.moves s good).into amount t moved in
        returns (record { together = rw (same, cash) (omega int_laws); keeps = keeps })

  deinvest-Keeps : (amount : ℤ) → Keeps (deinvest ⦃h = h⦄ amount)
  unfolding Keeps Defs.deinvest
  deinvest-Keeps amount m s good =
      Returns-after _ _ (laws.out_of amount s good) λ t moved (same, keeps).
        let cash = (laws.moves s good).out_of amount t moved in
        returns (record { together = rw (same, cash) (omega int_laws); keeps = keeps })

  record_earnings-Keeps : Keeps (Defs.record_earnings ⦃h = h⦄)
  unfolding Keeps Defs.record_earnings
  record_earnings-Keeps m s good = Returns-bind _ _ λ value _.
      Returns-after _ _ (laws.earned (value -ℤ m.last_investment_value) s good)
        λ t _ (more, same, keeps).
          returns (record { together = rw (more, same) (omega int_laws); keeps = keeps })

  stays : (m : Manager) (s : S) → P s → Kept m s (m, s)
  stays m s good = record { together = refl; keeps = good }

  raise_cash-Keeps : (cash : ℤ) → Keeps (raise_cash ⦃h = h⦄ cash)
  unfolding Keeps Defs.raise_cash
  raise_cash-Keeps cash m s good = Returns-bind _ _ λ value _.
      let amount = min (m.liquidity_middle -ℤ cash) value in
      elim (Bool-cases (pos 0 <? amount)) [
        | inl some_left ↦ rw some_left (deinvest-Keeps amount m s good)
        | inr none_left ↦ rw none_left (returns (stays m s good))
      ]

  rebalance-Keeps : Keeps (Defs.rebalance ⦃h = h⦄)
  unfolding Keeps Defs.rebalance
  rebalance-Keeps m s good = elim (Bool-cases (m.liquidity_max <? h.cash s)) [
    | inl high ↦ rw high (invest-Keeps (h.cash s -ℤ m.liquidity_middle) m s good)
    | inr not_high ↦ rw not_high (elim (Bool-cases (h.cash s <? m.liquidity_min)) [
      | inl low ↦ rw low (raise_cash-Keeps (h.cash s) m s good)
      | inr fits ↦ rw fits (returns (stays m s good))
    ])
  ]

  refill-Keeps : (amount : ℤ) → Keeps (refill_wallet ⦃h = h⦄ amount)
  unfolding Keeps Defs.refill_wallet
  refill-Keeps amount m s good = Returns-bind _ _ λ value _. deinvest-Keeps _ m s good

  deinvest_all-Keeps : Keeps (deinvest_all ⦃h = h⦄)
  unfolding Keeps Defs.deinvest_all
  deinvest_all-Keeps m s good = Returns-bind _ _ λ value _. deinvest-Keeps value m s good

  checkpoint-Keeps : Keeps (Defs.checkpoint ⦃h = h⦄)
  unfolding Keeps Defs.checkpoint
  checkpoint-Keeps m s good = Returns-after _ _ (record_earnings-Keeps m s good) λ r _ first.
      Returns-map _ (rebalance-Keeps r.0 r.1 first.keeps) λ r' next. record {
        together = omega (int_laws, parts_of_eq _ _ first.together, parts_of_eq _ _ next.together);
        keeps = next.keeps;
      }

  thresholds-Keeps :
      (new_min new_middle new_max : Option ℤ) → Keeps (set_thresholds new_min new_middle new_max)
  unfolding Keeps set_thresholds Defs.set_liquidity_thresholds
  thresholds-Keeps new_min new_middle new_max m s good =
      Returns-after {Q = λ m'. m'.last_investment_value ≡ m.last_investment_value} _ _
        (Returns-then _ _ (returns refl))
        λ m' _ same. returns (record { together = rw same refl; keeps = good })

  -- What a forwarded call keeps.
  abbrev Together : Reserve S → Reserve S → Type 0
  Together x y = GrowTogether books (λ s. h.cash s) x y × P y.1

  on_manager-Together :
      (method : Method S) (x : Reserve S)
      → Keeps method
      → P x.1
      → Returns (Together x) (on_manager method x)
  unfolding Keeps on_manager GrowTogether invested
  on_manager-Together method (none, s) keeps good = Returns.raises
  on_manager-Together method (some m, s) keeps good =
      Returns-after _ _ (keeps m s good) λ r _ kept. returns (kept.together, kept.keeps)

  pub managing-GrowTogether :
      (self : ℕ) (x y : Reserve S)
      → P x.1
      → Managing ⦃h = h⦄ self x y
      → GrowTogether books (λ s. h.cash s) x y × P y.1
  unfolding checkpoint rebalance record_earnings forward_to_asset_manager
  managing-GrowTogether self x y good (Managing.checkpointed done) =
      Returns-eq_ok _ (on_manager-Together (Defs.checkpoint ⦃h = h⦄) x checkpoint-Keeps good) done
  managing-GrowTogether self x y good (Managing.rebalanced done) =
      Returns-eq_ok _ (on_manager-Together (Defs.rebalance ⦃h = h⦄) x rebalance-Keeps good) done
  managing-GrowTogether self x y good (Managing.recorded done) =
      Returns-eq_ok _
        (on_manager-Together (Defs.record_earnings ⦃h = h⦄) x record_earnings-Keeps good) done
  managing-GrowTogether self x y good (Managing.refilled amount done) =
      Returns-eq_ok _ (on_manager-Together _ x (refill-Keeps amount) good) done
  managing-GrowTogether self x y good (Managing.thresholds_set c new_min new_middle new_max done) =
      Returns-eq_ok _
        (Returns-then _ _
          (on_manager-Together _ x (thresholds-Keeps new_min new_middle new_max) good))
        done
  managing-GrowTogether self x y good (Managing.all_deinvested c done) =
      Returns-eq_ok _ (Returns-then _ _ (on_manager-Together _ x deinvest_all-Keeps good)) done
