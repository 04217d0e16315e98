-- ===== src/CpmmPool/Isqrt.antt =====
-- `isqrt` of contracts/cpmm-pool/src/lib.rs, the Babylonian integer square root.
use suban.Base.{
  ℕ, ◌-◌, zero, suc, ◌+◌, ◌*◌, ◌/◌, ◌≤◌, ◌<◌, ◌^◌, ◌≡◌, refl, false, ltb, ◌==◌, arith,
  if◌then◌else◌, Bool-cases, inl, inr,
}
use native.Mathlib.Decide.{dec_le, dec_lt}
use native.Mathlib.Nat.{mul-le-mul, div-add-mod, mod-lt}
use suban.Host.{
  Call, Outcome, Returns, ok, panic, pure, ◌>>=◌, ◌>>◌, panic_if, add_u128, fits_u128_lem,
  fits_u128,
}

module _ {S E : Type 0} where
  -- `while y < x { x = y; y = (x + n / x) / 2; }` on fuel; running out of it counts as a panic.
  unfoldable pub isqrt_loop : ℕ → ℕ → ℕ → ℕ → Call S E ℕ
  isqrt_loop zero n x y = λ s. panic
  isqrt_loop (suc fuel) n x y =
      let rest =
        panic_if (y == 0) >> (add_u128 y (n / y) >>= λ sum. isqrt_loop fuel n y (sum / 2)) in
      if ltb y x then rest else pure x

  unfoldable pub isqrt : ℕ → Call S E ℕ
  unfolding isqrt_loop
  isqrt n = if n == 0 then pure 0 else (add_u128 n 1 >>= λ sum. isqrt_loop (n + 1) n n (sum / 2))

square_gap : (a d : ℕ) → 4 * (a * (a + d)) ≤ (a + (a + d)) * (a + (a + d))
square_gap a d = omega arith

double_square : (a b : ℕ) → 4 * (a * b) ≤ (a + b) * (a + b)
double_square a b = elim (dec_le a b) [
  | yes h ↦ let e : b ≡ a + (b - a) = omega arith in rw e (square_gap a (b - a))
  | no h ↦ let e : a ≡ b + (a - b) = omega arith in rw e (omega (arith, square_gap b (a - b)))
]

-- The mean of `x` and `n / x` is at least the root.
mean_above : (n x : ℕ) → 0 < x → n < suc ((x + n / x) / 2) * suc ((x + n / x) / 2)
mean_above n x p =
    let q = n / x in
    let h = (x + q) / 2 in
    let below : n < x * suc q = omega (arith, div-add-mod n x, mod-lt n p) in
    let wide : (x + suc q) * (x + suc q) ≤ (2 * suc h) * (2 * suc h) =
      mul-le-mul (omega arith) (omega arith) in
    omega (arith, double_square x (suc q), wide, below)

pub mean_fits : (n x : ℕ) → 0 < x → x ≤ n → x + n / x ≤ n + 1
mean_fits n x p h = let slack : (x - 1) * (n / x - 1) ≤ n = grind arith in grind arith

at_most : (n x : ℕ) → 0 < x → x ≤ (x + n / x) / 2 → x * x ≤ n
at_most n x p h =
    let small : x ≤ n / x = omega arith in
    let wide : x * x ≤ x * (n / x) = mul-le-mul (omega arith) small in
    omega (arith, wide, div-add-mod n x)

positive : (n y : ℕ) → 0 < n → n < suc y * suc y → 0 < y
positive n zero q h = absurd (omega arith)
positive n (suc y) q h = omega arith

abbrev pub IsRoot : ℕ → ℕ → Type 0
IsRoot n r = (r * r ≤ n) × (n < suc r * suc r)

-- The call returns the root and leaves the storage alone.
abbrev pub Finds : {S E : Type 0} → ℕ → S → Outcome E (ℕ × S) → Type 0
Finds n s o = (r : ℕ) × (o ≡ ok (r, s)) × IsRoot n r

module _ {S E : Type 0} (n : ℕ) (below : n + 1 < 2 ^ 128) (s : S) where
  -- The loop ends at a root when the fuel exceeds `x`, and no sum in it overflows.
  isqrt_loop-Finds :
      (fuel x : ℕ)
      → 0 < n
      → 0 < x
      → x < fuel
      → x ≤ n
      → n < suc x * suc x
      → Finds n s (isqrt_loop {S = S} {E = E} fuel n x ((x + n / x) / 2) s)
  unfolding isqrt_loop
  isqrt_loop-Finds zero x q p f le h = absurd (omega arith)
  isqrt_loop-Finds (suc fuel) x q p f le h =
      let y = (x + n / x) / 2 in
      let above = mean_above n x p in
      let y_pos = positive n y q above in
      elim (Bool-cases (ltb y x)) [
        | inl smaller ↦
            let y_le : y ≤ n = ground arith in
            let fits = fits_u128_lem (y + n / y) (omega (arith, mean_fits n y y_pos y_le)) in
            let nonzero : (y == 0) ≡ false = ground arith in
            rw (smaller, nonzero, fits) (isqrt_loop-Finds fuel y q y_pos (ground arith) y_le above)
        | inr stop ↦ rw stop (x, refl, (at_most n x p (ground arith), h))
      ]

-- Below the largest `u128`, `isqrt` neither overflows nor fails to end, changes nothing, and
-- returns the integer square root of its argument.
pub isqrt_root :
    {S E : Type 0} (n : ℕ) (s : S) → n + 1 < 2 ^ 128 → Finds n s (isqrt {S = S} {E = E} n s)
unfolding isqrt
isqrt_root {S} {E} n s below = elim (Bool-cases (n == 0)) [
  | inl none_left ↦ rw none_left (0, refl, ground arith)
  | inr some_left ↦
      let pos_n : 0 < n = ground arith in
      let start : n / n ≡ 1 = grind arith in
      let fits = fits_u128_lem (n + 1) below in
      let loop =
        isqrt_loop-Finds {S = S} {E = E} n below s (n + 1) n pos_n pos_n (omega arith) (omega arith)
          (grind arith) in
      rw (some_left, fits) (rw start at loop)
]

too_large :
    {S : Type 0} (E : Type 0) (n : ℕ) (s : S)
    → ¬ (n + 1 < 2 ^ 128)
    → Returns (λ r s'. (s' ≡ s) × IsRoot n r) (isqrt {S = S} {E = E} n s)
unfolding isqrt fits_u128
too_large E n s above = ground arith

-- Whatever the argument, a root that `isqrt` returns is the integer square root.
pub isqrt-IsRoot :
    {S : Type 0} (E : Type 0) (n : ℕ) (s : S)
    → Returns (λ r s'. (s' ≡ s) × IsRoot n r) (isqrt {S = S} {E = E} n s)
isqrt-IsRoot {S} E n s = elim (dec_lt (n + 1) (2 ^ 128)) [
  | yes below ↦ let (r, e, root) = isqrt_root {S = S} {E = E} n s below in rw e (refl, root)
  | no above ↦ too_large E n s above
]
