-- ===== src/RiskModule/Allowances.antt =====
-- Which allowances `RiskModule.new_policy` and `replace_policy` ask for (prototype/ensuro.py).
use ensuro.Prelude.{ℕ, ◌≡◌, refl, arith, true, Bool-cases, Option, inl, inr, ◌||◌, ◌==◌}
use ensuro.Prelude.Int.{ℤ, pos, ◌-ℤ◌, ◌≤?◌, ◌<?◌, ◌≤ℤ◌, ≤?_of_le, <?_false, int_laws}
use ensuro.Prelude.Calls.{Fault, Result, ok, ◌>>=◌, ◌>>◌, require}
use ensuro.Outside.{Outside}
use ensuro.Roles.{Caller}
use ensuro.RiskModule.Underwriting.{wanted_allowance, check_allowances, trustful_payer}

then_passed : (m : Result (Unit {0})) → (m >> ok tt) ≡ m
unfolding ◌>>=◌
then_passed (ok u) = refl
then_passed (Result.err e) = refl

module _ {W : Type 0} ⦃o : Outside W⦄ where
  -- Where the caller is the payer or is allowed as much, only the pool's allowance counts.
  pool_alone :
      (c : Caller) (pool payer : ℕ) (for_pool for_pricer : ℤ) (x : W)
      → (c.running_as == payer || (for_pricer ≤? o.allowance x payer c.running_as)) ≡ true
      → check_allowances c pool payer for_pool for_pricer x
        ≡ require (for_pool ≤? o.allowance x payer pool) Fault.pool_allowance
  unfolding check_allowances
  pool_alone c pool payer for_pool for_pricer x passes = rw passes (then_passed _)

  -- The check of a replacement for a premium that is not below the old one: where allowances are
  -- not negative, it never asks for an allowance of the caller, whoever the caller is, and passes
  -- exactly where the pool may spend the difference.
  pub check_allowances-replacement :
      (c : Caller) (pool payer : ℕ) (old_premium premium : ℤ) (x : W)
      → old_premium ≤ℤ premium
      → pos 0 ≤ℤ o.allowance x payer c.running_as
      → check_allowances c pool payer (premium -ℤ old_premium) (old_premium -ℤ premium) x
        ≡ require (premium -ℤ old_premium ≤? o.allowance x payer pool) Fault.pool_allowance
  check_allowances-replacement c pool payer old_premium premium x larger allowed =
      let enough =
        ≤?_of_le (old_premium -ℤ premium) (o.allowance x payer c.running_as) (omega int_laws) in
      pool_alone c pool payer _ _ x (ground (arith, enough))

  trustful_passes :
      (c : Caller) (customer : ℕ) (premium : Option ℤ) (asked : ℤ) (x : W)
      → asked ≤ℤ wanted_allowance premium
      → (c.running_as == trustful_payer c customer premium x
          || (asked ≤? o.allowance x (trustful_payer c customer premium x) c.running_as))
        ≡ true
  unfolding trustful_payer
  trustful_passes c customer premium asked x within = elim (Bool-cases (c.running_as == customer)) [
    | inl own ↦ rw own (ground (arith, own))
    | inr other ↦
        rw other
          (elim (Bool-cases (o.allowance x customer c.running_as <? wanted_allowance premium)) [
            | inl short ↦ rw short (ground arith)
            | inr covered ↦
                let least =
                  <?_false (o.allowance x customer c.running_as) (wanted_allowance premium)
                    covered in
                let enough : (asked ≤? o.allowance x customer c.running_as) ≡ true =
                  ≤?_of_le asked (o.allowance x customer c.running_as) (omega int_laws) in
                rw covered (ground (arith, enough))
          ])
  ]

  pub check_allowances-trustful_payer :
      (c : Caller) (pool customer : ℕ) (premium : Option ℤ) (asked : ℤ) (x : W)
      → asked ≤ℤ wanted_allowance premium
      → check_allowances c pool (trustful_payer c customer premium x) asked asked x
        ≡ require
            (asked ≤? o.allowance x (trustful_payer c customer premium x) pool)
            Fault.pool_allowance
  check_allowances-trustful_payer c pool customer premium asked x within =
      pool_alone c pool _ asked asked x (trustful_passes c customer premium asked x within)
