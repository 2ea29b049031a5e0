-- ===== src/PremiumsAccount/Solvency.antt =====
-- The deficit of a premiums account never passes `deficit_ratio` of its active pure premiums, and
-- what it pays, borrows and keeps adds up.
use ensuro.Prelude.{◌≡◌, refl, sym, ap, arith, inl, inr, Bool-cases}
use ensuro.Prelude.Int.{
  ℤ, pos, ◌+ℤ◌, ◌-ℤ◌, negℤ, ◌≤ℤ◌, ◌<ℤ◌, ◌≤?◌, ◌=?◌, max, parts_of_eq, int_laws, <?_of_lt, ≤?_true,
  ≤?_false, =?_true, -ℤ_parts,
}
use ensuro.WadRay.{WadRay, IsWadRay}
use ensuro.PremiumsAccount.State.{
  PremiumsAccount, max_deficit, pay_from_premiums, store_pure_premium_won, funds_available,
}

module _ ⦃w : WadRay⦄ where
  pub record IsSound (pa : PremiumsAccount) : Type 0 where
    pub ratio : (pos 0 ≤ℤ pa.deficit_ratio) × (pa.deficit_ratio ≤ℤ w.wad (pos 1))
    pub solvent : max_deficit pa ≤ℤ pa.surplus

  pub max_deficit-surplus :
      (x : ℤ) (pa : PremiumsAccount) → max_deficit (record pa { surplus = x }) ≡ max_deficit pa
  unfolding max_deficit
  max_deficit-surplus x pa = refl

  -- What a payment of `to_pay` cannot take from the premiums.
  abbrev pub shortfall : ℤ → PremiumsAccount → ℤ
  shortfall to_pay pa = max (pos 0) (to_pay -ℤ funds_available pa)

  paid_in_full :
      (to_pay : ℤ) (pa : PremiumsAccount)
      → max_deficit pa ≤ℤ pa.surplus -ℤ to_pay
      → shortfall to_pay pa ≡ pos 0
  unfolding funds_available
  paid_in_full to_pay pa h = ground (
    arith,
    -ℤ_parts to_pay (pa.surplus -ℤ max_deficit pa),
    -ℤ_parts pa.surplus (max_deficit pa),
    -ℤ_parts pa.surplus to_pay,
  )

  paid_in_part :
      (to_pay : ℤ) (pa : PremiumsAccount)
      → pa.surplus -ℤ to_pay <ℤ max_deficit pa
      → shortfall to_pay pa ≡ negℤ (pa.surplus -ℤ to_pay) +ℤ max_deficit pa
  unfolding funds_available
  paid_in_part to_pay pa h =
      let more : pos 0 <ℤ to_pay -ℤ (pa.surplus -ℤ max_deficit pa) = omega int_laws in
      rw (<?_of_lt (pos 0) (to_pay -ℤ (pa.surplus -ℤ max_deficit pa)) more) (omega int_laws)

  -- A payment out of the premiums leaves to borrow what the available funds cannot cover, 0 if they
  -- can, and takes the rest of it from the surplus and nothing from the other fields. After it the
  -- deficit is within its limit, whatever it was before.
  pub pay_from_premiums_lem :
      (to_pay : ℤ) (pa : PremiumsAccount)
      → let (left, pa') = pay_from_premiums to_pay pa in
        (left ≡ shortfall to_pay pa)
        × (pa' ≡ record pa { surplus = pa.surplus -ℤ (to_pay -ℤ left) })
        × (max_deficit pa' ≤ℤ pa'.surplus)
  unfolding pay_from_premiums
  pay_from_premiums_lem to_pay pa = elim (Bool-cases (max_deficit pa ≤? (pa.surplus -ℤ to_pay))) [
    | inl enough ↦
        let h : max_deficit pa ≤ℤ pa.surplus -ℤ to_pay = ≤?_true (max_deficit pa) _ enough in
        let e : pa.surplus -ℤ to_pay ≡ pa.surplus -ℤ (to_pay -ℤ pos 0) = omega int_laws in
        rw enough (
          sym (paid_in_full to_pay pa h),
          ap (λ s. record pa { surplus = s }) e,
          rw max_deficit-surplus h,
        )
    | inr short ↦
        let h : pa.surplus -ℤ to_pay <ℤ max_deficit pa = ≤?_false (max_deficit pa) _ short in
        let left = negℤ (pa.surplus -ℤ to_pay) +ℤ max_deficit pa in
        let e : max_deficit pa ≡ pa.surplus -ℤ (to_pay -ℤ left) = omega int_laws in
        rw short (
          sym (paid_in_part to_pay pa h),
          ap (λ s. record pa { surplus = s }) e,
          rw max_deficit-surplus (omega arith),
        )
  ]

  pub pay_from_premiums-IsSound :
      (to_pay : ℤ) (pa : PremiumsAccount)
      → (pos 0 ≤ℤ pa.deficit_ratio) × (pa.deficit_ratio ≤ℤ w.wad (pos 1))
      → IsSound (pay_from_premiums to_pay pa).1
  pay_from_premiums-IsSound to_pay pa ratio =
      let (_, same, solvent) = pay_from_premiums_lem to_pay pa in
      record { ratio = rw same ratio; solvent = solvent }

-- Storing adds to the surplus, also where there is nothing to add.
pub store_pure_premium_won_lem :
    (won : ℤ) (pa : PremiumsAccount)
    → store_pure_premium_won won pa ≡ record pa { surplus = pa.surplus +ℤ won }
unfolding store_pure_premium_won
store_pure_premium_won_lem won pa = elim (Bool-cases (won =? pos 0)) [
  | inl nothing ↦
      let e : pa.surplus ≡ pa.surplus +ℤ won =
        omega (int_laws, parts_of_eq won (pos 0) (=?_true won (pos 0) nothing)) in
      rw nothing (ap (λ s. record pa { surplus = s }) e)
  | inr something ↦ rw something
]

module _ ⦃w : WadRay⦄ (laws : IsWadRay w) where
  -- More active premiums allow a larger deficit.
  pub activate-IsSound :
      (more : ℤ) (pa : PremiumsAccount)
      → pos 0 ≤ℤ more
      → IsSound pa
      → IsSound (record pa { active_pure_premiums = pa.active_pure_premiums +ℤ more })
  unfolding max_deficit
  activate-IsSound more pa h v = record {
    ratio = v.ratio;
    solvent =
        let a = negℤ pa.active_pure_premiums in
        let b = negℤ (pa.active_pure_premiums +ℤ more) in
        omega (arith, v.solvent, laws.mul_mono b a pa.deficit_ratio (omega int_laws) v.ratio.0);
  }

  -- An expired policy's pure premium leaves the active premiums and is won.
  pub expire-IsSound :
      (pure : ℤ) (pa : PremiumsAccount)
      → pos 0 ≤ℤ pure
      → IsSound pa
      → IsSound (
          store_pure_premium_won pure
            (record pa { active_pure_premiums = pa.active_pure_premiums -ℤ pure }))
  unfolding max_deficit
  expire-IsSound pure pa h v =
      let a = negℤ pa.active_pure_premiums in
      let b = negℤ (pa.active_pure_premiums -ℤ pure) in
      let grows = laws.mul_contracts a b pa.deficit_ratio (omega int_laws) v.ratio.0 v.ratio.1 in
      rw store_pure_premium_won_lem
        (record { ratio = v.ratio; solvent = omega (int_laws, v.solvent, grows) })

  pub store-IsSound :
      (won : ℤ) (pa : PremiumsAccount)
      → pos 0 ≤ℤ won
      → IsSound pa
      → IsSound (store_pure_premium_won won pa)
  unfolding max_deficit
  store-IsSound won pa h v =
      rw store_pure_premium_won_lem
        (record { ratio = v.ratio; solvent = omega (int_laws, v.solvent) })
