-- ===== src/CpmmPool/Amounts.antt =====
-- What the shares of a deposit and the amounts of a withdrawal in contracts/cpmm-pool/src/lib.rs
-- come to, over natural numbers.
use suban.Base.{
  ℕ, zero, suc, ◌*◌, ◌/◌, ◌≤◌, ◌<◌, ◌^◌, ◌≡◌, true, false, arith, inl, inr, Bool-cases,
}
use suban.Int.{ℤ, pos, ◌*ℤ◌, ◌/ℤ◌, ◌==ℤ◌, min_ℤ}
use suban.Host.{Returns, bind_rule, weaken, as_i128, fits_u128, pure}
use suban.Tokens.{Chain}
use suban.CpmmPool.Store.{Store, PoolError}
use suban.CpmmPool.Isqrt.{isqrt, IsRoot, isqrt-IsRoot}
use suban.CpmmPool.Pricing.{first_shares, proportional_shares, shares_for, amounts_for}
use native.Mathlib.Decide.{dec_le, dec_lt}
use native.Mathlib.Nat.{mul-le-mul, mul-div-le}

-- No more shares of `total` than in proportion to the amount that joins the reserve.
abbrev pub IsFair : (amount reserve shares total : ℕ) → Type 0
IsFair amount reserve shares total = shares * reserve ≤ amount * total

-- The shares of a deposit: in proportion, or the root of the product where there are none yet.
abbrev pub IsIssue : (a b x y total : ℕ) → ℤ → Type 0
IsIssue a b x y total out =
    (q : ℕ) × (out ≡ pos q)
    × (0 < total → IsFair a x q total × IsFair b y q total)
    × (total ≡ 0 → IsRoot (a * b) q)

quotient-IsFair : (a x t : ℕ) → IsFair a x (a * t / x) t
quotient-IsFair a x t = omega (arith, mul-div-le (a * t) x)

proportional_shares-lem :
    {W : Type 0} (a b x y t : ℕ) (c : Chain Store W)
    → Returns
        (λ out c'. (c' ≡ c) × (out ≡ min_ℤ (pos (a * t / x)) (pos (b * t / y))))
        (proportional_shares (pos a) (pos b) (pos x) (pos y) (pos t) c)
unfolding proportional_shares ◌*ℤ◌ ◌/ℤ◌
proportional_shares-lem a b x y t c = ground arith

IsFair-below : (a x p q t : ℕ) → IsFair a x p t → q ≤ p → IsFair a x q t
IsFair-below a x p q t f h =
    let less : q * x ≤ p * x = mul-le-mul h (omega arith) in omega (arith, less, f)

smaller-IsIssue :
    (a b x y t p q : ℕ)
    → 0 < t
    → IsFair a x p t
    → IsFair b y q t
    → IsIssue a b x y t (min_ℤ (pos p) (pos q))
smaller-IsIssue a b x y t p q some_shares f g = elim (dec_le p q) [
  | yes h ↦
      (p, ground arith, λ _. (f, IsFair-below b y q p t g h), λ none_yet. absurd (omega arith))
  | no h ↦ (
    q,
    ground arith,
    λ _. (IsFair-below a x p q t f (omega arith), g),
    λ none_yet. absurd (omega arith),
  )
]

root_small : (n r : ℕ) → n < 2 ^ 128 → IsRoot n r → r < 2 ^ 64
root_small n r h root = elim (dec_lt r (2 ^ 64)) [
  | yes small ↦ small
  | no large ↦
      let wide : 2 ^ 64 ≤ r = omega arith in
      let square : 2 ^ 64 * 2 ^ 64 ≤ r * r = mul-le-mul wide wide in
      absurd (omega (arith, square, root.0))
]

product_small : (n : ℕ) → fits_u128 n ≡ true → n < 2 ^ 128
unfolding fits_u128
product_small n h = ground arith

root-IsIssue : (a b x y r : ℕ) → a * b < 2 ^ 128 → IsRoot (a * b) r → IsIssue a b x y 0 (as_i128 r)
root-IsIssue a b x y r h root =
    let small = root_small (a * b) r h root in
    (r, ground arith, λ some_shares. absurd (omega arith), λ _. root)

first_shares-IsIssue :
    {W : Type 0} (a b x y : ℕ) (c : Chain Store W)
    → Returns (λ out c'. (c' ≡ c) × IsIssue a b x y 0 out) (first_shares (pos a) (pos b) c)
unfolding first_shares
first_shares-IsIssue {W} a b x y c = elim (Bool-cases (fits_u128 (a * b))) [
  | inl fits ↦ rw fits (
      bind_rule (λ r c'. (c' ≡ c) × IsRoot (a * b) r) (λ out c'. (c' ≡ c) × IsIssue a b x y 0 out)
        (isqrt {S = Chain Store W} {E = PoolError} (a * b) c) (λ r. pure (as_i128 r))
        (isqrt-IsRoot PoolError (a * b) c)
        (λ r c' p. (p.0, root-IsIssue a b x y r (product_small (a * b) fits) p.1)))
  | inr overflow ↦ rw overflow tt
]

-- The shares of a deposit are fair, and the call that computes them changes nothing.
pub shares_for-IsIssue :
    {W : Type 0} (a b x y t : ℕ) (c : Chain Store W)
    → Returns
        (λ out c'. (c' ≡ c) × IsIssue a b x y t out)
        (shares_for (pos a) (pos b) (pos x) (pos y) (pos t) c)
unfolding shares_for
shares_for-IsIssue a b x y zero c = first_shares-IsIssue a b x y c
shares_for-IsIssue a b x y (suc t) c =
    let nonzero : (pos (suc t) ==ℤ pos 0) ≡ false = ground arith in
    rw nonzero (
      weaken (λ out c'. (c' ≡ c) × (out ≡ min_ℤ (pos (a * suc t / x)) (pos (b * suc t / y))))
        (λ out c'. (c' ≡ c) × IsIssue a b x y (suc t) out)
        (proportional_shares (pos a) (pos b) (pos x) (pos y) (pos (suc t)) c)
        (proportional_shares-lem a b x y (suc t) c)
        (λ out c' p. (
          p.0,
          rw p.1 (
              smaller-IsIssue a b x y (suc t) (a * suc t / x) (b * suc t / y) (omega arith)
                (quotient-IsFair a x (suc t)) (quotient-IsFair b y (suc t))),
        )))

-- The part of a reserve that is paid for `s` of `t` shares.
abbrev pub portion : (s reserve t : ℕ) → ℕ
portion s reserve t = s * reserve / t

pub amounts_for-lem :
    {W : Type 0} (n x y t : ℕ) (c : Chain Store W)
    → Returns
        (λ out c'. (c' ≡ c) × (out ≡ (pos (portion n x t), pos (portion n y t))))
        (amounts_for (pos n) (pos x) (pos y) (pos t) c)
unfolding amounts_for ◌*ℤ◌ ◌/ℤ◌
amounts_for-lem n x y t c = ground arith

-- What is paid for shares is at most in proportion, and at most what is there.
pub portion_fair : (n x t : ℕ) → portion n x t * t ≤ n * x
portion_fair n x t = omega (arith, mul-div-le (n * x) t)

pub portion-le : (n x t : ℕ) → n ≤ t → 0 < t → portion n x t ≤ x
portion-le n x t h p = grind arith
