-- ===== src/WadRay/Laws.antt =====
-- What the prototype relies on of `ethproto.wadray`: products and quotients of amounts and ratios
-- have the sign and the order that they have without rounding.
use ensuro.Prelude.{◌≡◌}
use ensuro.Prelude.Int.{ℤ, pos, ◌+ℤ◌, ◌≤ℤ◌, ◌<ℤ◌}
use ensuro.Prelude.Calls.{Fault, ok, err}
use ensuro.WadRay.Ops.{WadRay}

pub record IsWadRay (w : WadRay) : Type 0 where
  pub mul_nonneg : (a b : ℤ) → pos 0 ≤ℤ a → pos 0 ≤ℤ b → pos 0 ≤ℤ w.wad_mul a b
  pub mul_zero : (a : ℤ) → w.wad_mul a (pos 0) ≡ pos 0
  pub zero_mul : (r : ℤ) → w.wad_mul (pos 0) r ≡ pos 0
  pub mul_one : (a : ℤ) → w.wad_mul a (w.wad (pos 1)) ≡ a
  pub mul_mono : (a b r : ℤ) → a ≤ℤ b → pos 0 ≤ℤ r → w.wad_mul a r ≤ℤ w.wad_mul b r
  -- a product by a ratio of at most one grows no faster than its argument
  pub mul_contracts :
      (a b r : ℤ)
      → a ≤ℤ b
      → pos 0 ≤ℤ r
      → r ≤ℤ w.wad (pos 1)
      → w.wad_mul b r +ℤ a ≤ℤ w.wad_mul a r +ℤ b
  pub div_zero : (a : ℤ) → w.wad_div a (pos 0) ≡ err Fault.zero_division
  pub div_some : (a b : ℤ) → pos 0 <ℤ b → (q : ℤ) × (w.wad_div a b ≡ ok q)
  pub div_nonneg : (a b q : ℤ) → pos 0 ≤ℤ a → pos 0 <ℤ b → w.wad_div a b ≡ ok q → pos 0 ≤ℤ q
  pub wad_pos : (n : ℤ) → pos 0 <ℤ n → pos 0 <ℤ w.wad n
  -- Rays
  pub ray_mul_nonneg : (a b : ℤ) → pos 0 ≤ℤ a → pos 0 ≤ℤ b → pos 0 ≤ℤ w.ray_mul a b
  pub ray_mul_grows : (a g : ℤ) → pos 0 ≤ℤ a → pos 0 ≤ℤ g → a ≤ℤ w.ray_mul a (w.ray (pos 1) +ℤ g)
  pub ray_div_nonneg : (a b q : ℤ) → pos 0 ≤ℤ a → pos 0 <ℤ b → w.ray_div a b ≡ ok q → pos 0 ≤ℤ q
  pub to_ray_nonneg : (a : ℤ) → pos 0 ≤ℤ a → pos 0 ≤ℤ w.to_ray a
  pub to_wad_nonneg : (a : ℤ) → pos 0 ≤ℤ a → pos 0 ≤ℤ w.to_wad a
  pub ray_nonneg : (n : ℤ) → pos 0 ≤ℤ n → pos 0 ≤ℤ w.ray n
  pub ray_pos : (n : ℤ) → pos 0 <ℤ n → pos 0 <ℤ w.ray n
  pub min_scale_pos : pos 0 <ℤ w.min_scale
  pub min_scale-le_one : w.min_scale ≤ℤ w.ray (pos 1)
