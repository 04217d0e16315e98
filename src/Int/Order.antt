-- ===== src/Int/Order.antt =====
-- Products and quotients of the integers of Int in their order.
use suban.Base.{suc, ◌/◌, ◌*◌, ◌≤◌, ◌≡◌, ap, ◌↔◌, arith}
use suban.Int.{ℤ, pos, negsuc, ◌*ℤ◌, ◌/ℤ◌, ◌≤ℤ◌, ◌<ℤ◌}
use native.Mathlib.Nat.{
  mul-le-mul, le-div_iff_mul-le, mul-div_cancel, mul-le-mul_left, div-mul-le_self,
}

pub *ℤ_one : (a : ℤ) → a *ℤ pos 1 ≡ a
unfolding ◌*ℤ◌
*ℤ_one (pos a) = ground arith
*ℤ_one (negsuc a) = ground arith

pub *ℤ_zero : (a : ℤ) → pos 0 *ℤ a ≡ pos 0
unfolding ◌*ℤ◌
*ℤ_zero (pos a) = ground arith
*ℤ_zero (negsuc a) = ground arith

pub mul_mono : (a b k : ℤ) → a ≤ℤ b → pos 0 ≤ℤ k → a *ℤ k ≤ℤ b *ℤ k
unfolding ◌*ℤ◌
mul_mono (pos a) (pos b) (pos k) h p =
    let m : a * k ≤ b * k = mul-le-mul (omega (arith, h)) (omega arith) in omega (arith, m)
mul_mono (pos a) (negsuc b) (pos k) h p = absurd (omega (arith, h))
mul_mono (negsuc a) (pos b) (pos k) h p = ground arith
mul_mono (negsuc a) (negsuc b) (pos k) h p =
    let m : suc b * k ≤ suc a * k = mul-le-mul (omega (arith, h)) (omega arith) in ground (arith, m)
mul_mono a b (negsuc k) h p = absurd (omega (arith, p))

-- A ratio in basis points is at least one if its numerator is at least its denominator.
pub ratio_at_least_one : (x y : ℤ) → pos 0 <ℤ y → (pos 10000 ≤ℤ x *ℤ pos 10000 /ℤ y) ↔ (y ≤ℤ x)
unfolding ◌*ℤ◌ ◌/ℤ◌
ratio_at_least_one (pos x) (pos y) p =
    let q = le-div_iff_mul-le {k = y} {x = 10000} {y = x * 10000} (omega (arith, p)) in
    (
      λ h. let m = q.0 (omega (arith, h)) in omega (arith, m),
      λ h. let m = q.1 (omega (arith, h)) in omega (arith, m),
    )
ratio_at_least_one (negsuc x) (pos y) p = (λ h. ground arith, λ h. absurd (omega (arith, h)))
ratio_at_least_one x (negsuc y) p = absurd (omega (arith, p))

pub mul_pos : (a b : ℤ) → pos 0 <ℤ a → pos 0 <ℤ b → pos 0 <ℤ a *ℤ b
unfolding ◌*ℤ◌
mul_pos (pos a) (pos b) p q =
    let m = mul-le-mul {n₁ = 1} {m₁ = 1} {n₂ = a} {m₂ = b} (omega (arith, p)) (omega (arith, q)) in
    omega (arith, m)
mul_pos (negsuc a) b p q = absurd (omega (arith, p))
mul_pos a (negsuc b) p q = absurd (omega (arith, q))

pub mul_nonneg : (a b : ℤ) → pos 0 ≤ℤ a → pos 0 ≤ℤ b → pos 0 ≤ℤ a *ℤ b
unfolding ◌*ℤ◌
mul_nonneg (pos a) (pos b) p q = omega arith
mul_nonneg (negsuc a) b p q = absurd (omega (arith, p))
mul_nonneg a (negsuc b) p q = absurd (omega (arith, q))

pub mul_div : (a b : ℤ) → pos 0 ≤ℤ a → pos 0 <ℤ b → a *ℤ b /ℤ b ≡ a
unfolding ◌*ℤ◌ ◌/ℤ◌
mul_div (pos a) (pos b) p q = ap pos (mul-div_cancel a (omega (arith, q)))
mul_div (negsuc a) b p q = absurd (omega (arith, p))
mul_div a (negsuc b) p q = absurd (omega (arith, q))

pub div_nonneg : (a b : ℤ) → pos 0 ≤ℤ a → pos 0 ≤ℤ b → pos 0 ≤ℤ a /ℤ b
unfolding ◌/ℤ◌
div_nonneg (pos a) (pos b) p q = omega arith
div_nonneg (negsuc a) b p q = absurd (omega (arith, p))
div_nonneg a (negsuc b) p q = absurd (omega (arith, q))

-- A share of a larger amount is no smaller.
pub scaled_mono :
    (x a b k : ℤ) → pos 0 ≤ℤ x → pos 0 ≤ℤ a → a ≤ℤ b → pos 0 <ℤ k → x *ℤ a /ℤ k ≤ℤ x *ℤ b /ℤ k
unfolding ◌*ℤ◌ ◌/ℤ◌
scaled_mono (pos x) (pos a) (pos b) (pos k) p q r s =
    let m : x * a ≤ x * b = mul-le-mul_left x (omega (arith, r)) in
    let d : x * a / k ≤ x * b / k =
      (le-div_iff_mul-le {k = k} {x = x * a / k} {y = x * b} (omega (arith, s))).1
        (omega (arith, m, div-mul-le_self (x * a) k)) in
    omega (arith, d)
scaled_mono (negsuc x) a b k p q r s = absurd (omega (arith, p))
scaled_mono x (negsuc a) b k p q r s = absurd (omega (arith, q))
scaled_mono x (pos a) (negsuc b) k p q r s = absurd (omega (arith, r))
scaled_mono x a b (negsuc k) p q r s = absurd (omega (arith, s))
