-- ===== src/WadRay/SampleLaws.antt =====
-- The sample of WadRay/Sample.antt meets the laws that the prototype relies on.
use native.Mathlib.Nat.{mul-le-mul_right, mul-le-mul_left}
use ensuro.Prelude.{ℕ, zero, suc, ◌+◌, ◌-◌, ◌*◌, ◌/◌, ◌≤◌, ◌<◌, ◌≡◌, refl, arith, subst}
use ensuro.Prelude.Int.{ℤ, pos, negsuc, pos_part, neg_part, ◌+ℤ◌, ◌*ℤ◌, ◌≤ℤ◌, ◌<ℤ◌, int_laws}
use ensuro.Prelude.Division.{
  floor_div, mul_parts, floor_div_parts, floor_div_mono, floor_div_nonneg, mul_right,
  mul_right_mono, mul_nonneg,
}
use ensuro.Prelude.Calls.{Fault, ok, err}
use ensuro.WadRay.Laws.{IsWadRay}
use ensuro.WadRay.Sample.{wad_unit, ray_unit, mul_at, div_at, half_up}

rearrange_add : (a e k d : ℕ) → k ≤ d → (a + e) * k + a * d ≤ a * k + (a + e) * d
rearrange_add a e k d l = omega (arith, mul-le-mul_left e l)

rearrange : (a b k d : ℕ) → a ≤ b → k ≤ d → b * k + a * d ≤ a * k + b * d
rearrange a b k d h l =
    let e : a + (b - a) ≡ b = omega arith in
    subst (λ t. t * k + a * d ≤ a * k + t * d) e (rearrange_add a (b - a) k d l)

mul_right_contracts :
    (a b : ℤ) (k d : ℕ) → a ≤ℤ b → k ≤ d → b *ℤ pos k +ℤ a *ℤ pos d ≤ℤ a *ℤ pos k +ℤ b *ℤ pos d
mul_right_contracts a b k d h l = omega (
  int_laws,
  mul_right a k,
  mul_right b k,
  mul_right a d,
  mul_right b d,
  rearrange (pos_part a + neg_part b) (pos_part b + neg_part a) k d h l,
)

mul_at_nonneg : (d : ℕ) (a b : ℤ) → pos 0 ≤ℤ a → pos 0 ≤ℤ b → pos 0 ≤ℤ mul_at d a b
unfolding mul_at
mul_at_nonneg d a b p q =
    floor_div_nonneg (a *ℤ b +ℤ pos (d / 2)) d (omega (int_laws, mul_nonneg a b p q))

mul_at_mono : (d : ℕ) → 0 < d → (a b r : ℤ) → a ≤ℤ b → pos 0 ≤ℤ r → mul_at d a r ≤ℤ mul_at d b r
unfolding mul_at
mul_at_mono d dpos a b (pos k) h p =
    floor_div_mono (a *ℤ pos k +ℤ pos (d / 2)) (b *ℤ pos k +ℤ pos (d / 2)) d dpos
      (omega (int_laws, mul_right_mono a b k h))
mul_at_mono d dpos a b (negsuc k) h p = absurd (omega arith)

mul_at_zero : (a : ℤ) → mul_at wad_unit a (pos 0) ≡ pos 0
unfolding mul_at
mul_at_zero a = omega (
  int_laws,
  mul_right a 0,
  floor_div_parts (a *ℤ pos 0 +ℤ pos (wad_unit / 2)) wad_unit (omega arith),
)

zero_mul_at : (r : ℤ) → mul_at wad_unit (pos 0) r ≡ pos 0
unfolding mul_at
zero_mul_at r = omega (
  int_laws,
  mul_parts (pos 0) r,
  floor_div_parts (pos 0 *ℤ r +ℤ pos (wad_unit / 2)) wad_unit (omega arith),
)

mul_at_one : (a : ℤ) → mul_at wad_unit a (pos 1 *ℤ pos wad_unit) ≡ a
unfolding mul_at floor_div ◌+ℤ◌ ◌*ℤ◌
mul_at_one a = omega (
  int_laws,
  mul_right a wad_unit,
  floor_div_parts (a *ℤ pos wad_unit +ℤ pos (wad_unit / 2)) wad_unit (omega arith),
)

mul_at_contracts :
    (a b r : ℤ)
    → a ≤ℤ b
    → pos 0 ≤ℤ r
    → r ≤ℤ pos 1 *ℤ pos wad_unit
    → mul_at wad_unit b r +ℤ a ≤ℤ mul_at wad_unit a r +ℤ b
unfolding mul_at
mul_at_contracts a b (negsuc k) h p l = absurd (omega arith)
mul_at_contracts a b (pos k) h p l = omega (
  int_laws,
  mul_right a wad_unit,
  mul_right b wad_unit,
  mul_right_contracts a b k wad_unit h (omega (arith, mul_right (pos 1) wad_unit)),
  floor_div_parts (a *ℤ pos k +ℤ pos (wad_unit / 2)) wad_unit (omega arith),
  floor_div_parts (b *ℤ pos k +ℤ pos (wad_unit / 2)) wad_unit (omega arith),
)

div_at_some : (unit : ℕ) (a b : ℤ) → pos 0 <ℤ b → (q : ℤ) × (div_at unit a b ≡ ok q)
unfolding div_at
div_at_some unit a (pos zero) h = absurd (omega arith)
div_at_some unit a (pos (suc n)) h = (floor_div (a *ℤ pos unit +ℤ pos (suc n / 2)) (suc n), refl)
div_at_some unit a (negsuc n) h = absurd (omega arith)

div_at_nonneg :
    (unit : ℕ) (a b q : ℤ) → pos 0 ≤ℤ a → pos 0 <ℤ b → div_at unit a b ≡ ok q → pos 0 ≤ℤ q
unfolding div_at
div_at_nonneg unit a (pos zero) q p h e = absurd (omega arith)
div_at_nonneg unit a (negsuc n) q p h e = absurd (omega arith)
div_at_nonneg unit a (pos (suc n)) q p h e =
    let x = a *ℤ pos unit +ℤ pos (suc n / 2) in
    let r : pos 0 ≤ℤ floor_div x (suc n) =
      floor_div_nonneg x (suc n) (omega (int_laws, mul_nonneg a (pos unit) p (omega arith))) in
    let same : floor_div x (suc n) ≡ q = cc in subst (λ t. pos 0 ≤ℤ t) same r

div_at_zero : (unit : ℕ) (a : ℤ) → div_at unit a (pos 0) ≡ err Fault.zero_division
unfolding div_at
div_at_zero unit a = refl

scaled_pos : (unit : ℕ) (n : ℤ) → 0 < unit → pos 0 <ℤ n → pos 0 <ℤ n *ℤ pos unit
scaled_pos unit (pos n) u h =
    omega (arith, mul_right (pos n) unit, mul-le-mul_right {m = 1} {n = n} unit (omega arith))
scaled_pos unit (negsuc n) u h = absurd (omega arith)

at_least_once : (m j : ℕ) → ray_unit ≤ j → pos m ≤ℤ mul_at ray_unit (pos m) (pos j)
unfolding mul_at
at_least_once m j h = omega (
  int_laws,
  mul_right (pos m) j,
  mul-le-mul_left m h,
  floor_div_parts (pos m *ℤ pos j +ℤ pos (ray_unit / 2)) ray_unit (omega arith),
)

ray_mul_grows :
    (a g : ℤ) → pos 0 ≤ℤ a → pos 0 ≤ℤ g → a ≤ℤ mul_at ray_unit a (pos 1 *ℤ pos ray_unit +ℤ g)
ray_mul_grows (negsuc m) g p q = absurd (omega arith)
ray_mul_grows (pos m) (negsuc k) p q = absurd (omega arith)
ray_mul_grows (pos m) (pos k) p q =
    let e : pos 1 *ℤ pos ray_unit +ℤ pos k ≡ pos (ray_unit + k) =
      omega (int_laws, mul_right (pos 1) ray_unit) in
    rw e (at_least_once m (ray_unit + k) (omega arith))

pub half_up-IsWadRay : IsWadRay half_up
half_up-IsWadRay = record {
  mul_nonneg = mul_at_nonneg wad_unit;
  mul_zero = mul_at_zero;
  zero_mul = zero_mul_at;
  mul_one = mul_at_one;
  mul_mono = mul_at_mono wad_unit (omega arith);
  mul_contracts = mul_at_contracts;
  div_zero = div_at_zero wad_unit;
  div_some = div_at_some wad_unit;
  div_nonneg = div_at_nonneg wad_unit;
  wad_pos = λ n h. scaled_pos wad_unit n (omega arith) h;
  ray_mul_nonneg = mul_at_nonneg ray_unit;
  ray_mul_grows = ray_mul_grows;
  ray_div_nonneg = div_at_nonneg ray_unit;
  to_ray_nonneg = λ a h. mul_nonneg a (pos 1000000000) h (omega arith);
  to_wad_nonneg = λ a h. floor_div_nonneg (a +ℤ pos 500000000) 1000000000 (omega int_laws);
  ray_nonneg = λ n h. mul_nonneg n (pos ray_unit) h (omega arith);
  ray_pos = λ n h. scaled_pos ray_unit n (omega arith) h;
  min_scale_pos = omega arith;
  min_scale-le_one = omega (int_laws, mul_right (pos 1) ray_unit);
}
