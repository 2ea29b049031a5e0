-- ===== src/AssetManager/Records.antt =====
-- What is recorded of the investments at a checkpoint (prototype/ensuro.py).
use ensuro.Prelude.{◌≡◌, refl, ◌∙◌}
use ensuro.Prelude.Int.{ℤ, ◌+ℤ◌, ◌-ℤ◌}
use ensuro.Prelude.Calls.{
  ok, Returns, returns, Returns-bind, Returns-after, Returns-of, Returns-eq_ok,
}
use ensuro.AssetManager.Defs.{Manager, Hooks, record_earnings, checkpoint}
use ensuro.AssetManager.Liquidity.{MovesCash, IsOrdered, Rebalanced, rebalance_lem}

module _ {S : Type 0} ⦃h : Hooks S⦄ (m : Manager) (s : S) where
  -- The state in which the earnings are booked.
  pub record Booked (booked : S) (value : ℤ) (r : Manager × S) : Type 0 where
    pub worth : h.value s ≡ ok value
    pub earned : h.earn (value -ℤ m.last_investment_value) s ≡ ok booked
    pub total : r.0.last_investment_value +ℤ h.cash r.1 ≡ value +ℤ h.cash booked
    pub in_range : Rebalanced m booked (h.cash r.1)

  BookedBy : Manager × S → Type 0
  BookedBy r = (booked : S) × (value : ℤ) × Booked booked value r

  checkpoint-Returns :
      ((amount : ℤ) (s' : S) → h.earn amount s ≡ ok s' → MovesCash h s')
      → IsOrdered m
      → Returns BookedBy (checkpoint m s)
  unfolding checkpoint record_earnings BookedBy Rebalanced
  checkpoint-Returns moves ordered = Returns-after _ _ recorded λ r _ (value, worth, earned, same).
      Returns-of _ λ r' done.
        let (in_range, total, _) =
          rebalance_lem r.0 r.1 (moves (value -ℤ m.last_investment_value) r.1 earned)
            (rw same ordered) done in
        (
          r.1,
          value,
          record {
            worth = worth;
            earned = earned;
            total = total ∙ rw same refl;
            in_range = rw same at in_range;
          },
        )
    where
      recorded :
          Returns
            (λ r.
              (value : ℤ) × (h.value s ≡ ok value)
              × (h.earn (value -ℤ m.last_investment_value) s ≡ ok r.1)
              × (r.0 ≡ record m { last_investment_value = value }))
            (record_earnings m s)
      recorded =
          Returns-bind _ _
            λ value worth. Returns-bind _ _ λ s' earned. returns (value, worth, earned, refl)

  -- Where, after the earnings are reported, what a manager invests leaves the reserve's cash and what
  -- it deinvests enters it, exactly (`MovesCash`), a checkpoint with ordered thresholds reports as earnings exactly what the
  -- investments are worth over the recorded value. Then the recorded value and the cash add up to
  -- that worth and the cash after the report, and the cash is rebalanced.
  pub checkpoint_lem :
      {r : Manager × S}
      → ((amount : ℤ) (s' : S) → h.earn amount s ≡ ok s' → MovesCash h s')
      → IsOrdered m
      → checkpoint m s ≡ ok r
      → (booked : S) × (value : ℤ) × Booked booked value r
  unfolding BookedBy
  checkpoint_lem moves ordered done = Returns-eq_ok _ (checkpoint-Returns moves ordered) done
