-- ===== src/WadRay/Sample.antt =====
-- A parameter that meets the laws: results rounded half up, as WadRayMath.sol does.
use ensuro.Prelude.{ℕ, zero, suc, ◌+◌, ◌/◌, Bool, ltb}
use ensuro.Prelude.Int.{ℤ, pos, negsuc, pos_part, neg_part, ◌+ℤ◌, ◌-ℤ◌, ◌*ℤ◌, negℤ}
use ensuro.Prelude.Calls.{Fault, Result, ok, err}
use ensuro.Prelude.Division.{floor_div, floordiv}
use ensuro.WadRay.Ops.{WadRay}

abbrev pub wad_unit : ℕ
wad_unit = 1000000000000000000

abbrev pub ray_unit : ℕ
ray_unit = 1000000000000000000000000000

unfoldable pub mul_at : ℕ → ℤ → ℤ → ℤ
mul_at unit a b = floor_div (a *ℤ b +ℤ pos (unit / 2)) unit

unfoldable pub div_at : ℕ → ℤ → ℤ → Result ℤ
div_at unit a (pos zero) = err Fault.zero_division
div_at unit a (pos (suc n)) = ok (floor_div (a *ℤ pos unit +ℤ pos (suc n / 2)) (suc n))
div_at unit a (negsuc n) = ok (floor_div (negℤ a *ℤ pos unit +ℤ pos (suc n / 2)) (suc n))

unfoldable pub equal_4 : ℤ → ℤ → Bool
unfolding ◌-ℤ◌
equal_4 a b = let d = a -ℤ b in ltb (pos_part d + neg_part d) 50000000000000

abbrev pub half_up : WadRay
half_up = record {
  wad_mul = mul_at wad_unit;
  wad_div = div_at wad_unit;
  ray_mul = mul_at ray_unit;
  ray_div = div_at ray_unit;
  to_ray = λ a. a *ℤ pos 1000000000;
  to_wad = λ a. floor_div (a +ℤ pos 500000000) 1000000000;
  wad = λ n. n *ℤ pos wad_unit;
  ray = λ n. n *ℤ pos ray_unit;
  int_mul_div = λ a b c. floordiv (a *ℤ b) c;
  half_wad = pos 500000000000000000;
  min_scale = pos 100000000000000000;
  equal4 = equal_4;
}
