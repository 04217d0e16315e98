-- ===== src/Stableswap/Amounts.antt =====
-- What deposits, withdrawals and swaps in contracts/stableswap/src/lib.rs come to.
use suban.Base.{
  ℕ, zero, suc, ◌-◌, ◌*◌, ◌/◌, ◌≤◌, ◌<◌, ◌^◌, ◌≡◌, ◌⊎◌, inl, inr, refl, arith, Bool, true, false,
  Bool-cases, Option, none, unwrap_or, some,
}
use native.Mathlib.Nat.{mul-le-mul, mul-div-le}
use native.Mathlib.Decide.{dec_lt}
use suban.Int.{ℤ, pos, negsuc, ◌+ℤ◌, ◌-ℤ◌, ◌*ℤ◌, ◌/ℤ◌, ◌≤ℤ◌}
use suban.Host.{
  Outcome, Call, add_u128, div_u128, ok, err, panic, unwrap, Returns, bind_rule, weaken, fits_u128,
  as_u128, as_i128, add_i128,
}
use suban.Tokens.{Chain}
use suban.Stableswap.Store.{Store, StableswapError, read_fee_bps}
use suban.Stableswap.Curve.{
  scaled, ann_of, compute_d, compute_y, y_round, y_rounds, y_from, settled,
}
use suban.Stableswap.Liquidity.{shares_gained, shares_for, part_of}
use suban.Stableswap.Swap.{net_output, output_for}
use suban.Stableswap.Newton.{compute_d-InRange, div_at_most}

as_i128-small : (n : ℕ) → n < 2 ^ 127 → pos 0 ≤ℤ as_i128 n
as_i128-small n h = ground arith

pub as_i128-le : (n : ℕ) → as_i128 n ≤ℤ pos n
as_i128-le n = ground arith

-- A product in the range, divided by 2 or more.
half_range : (n d : ℕ) → n < 2 ^ 128 → 2 ≤ d → n / d < 2 ^ 127
half_range n d h p = elim (dec_lt (n / d) (2 ^ 127)) [
  | yes small ↦ small
  | no large ↦
      let in_far : 2 ^ 127 ≤ n / d = omega arith in
      let wide : 2 * 2 ^ 127 ≤ d * (n / d) = mul-le-mul p in_far in
      absurd (omega (arith, wide, mul-div-le n d))
]

-- Calls that leave the storage alone, one after another.
then_same :
    {S E A B : Type 0} (s : S) (m : Outcome E (A × S)) (f : A → Call S E B)
    → Returns (λ _ s'. s' ≡ s) m
    → ((a : A) → Returns (λ _ s'. s' ≡ s) (f a s))
    → Returns (λ _ s'. s' ≡ s) (elim m [ ok r ↦ f r.0 r.1 | err e ↦ err e | panic ↦ panic ])
then_same s m f h k = bind_rule (λ _ s'. s' ≡ s) _ m f h (λ a s' e. rw e (k a))

module _ {W : Type 0} (c : Chain Store W) where
  shares_gained-nonneg :
      (d0 d1 : ℕ) (t : ℤ)
      → (d0 ≡ 0) ⊎ (2 ≤ d0)
      → Returns (λ out c'. (c' ≡ c) × (pos 0 ≤ℤ out)) (shares_gained d0 d1 t c)
  unfolding shares_gained fits_u128
  shares_gained-nonneg d0 d1 t h =
      let n = (d1 - d0) * as_u128 t in ground (arith, half_range n d0, as_i128-small (n / d0))

  add_i128-sum :
      (a b : ℤ) → Returns (λ r c'. (c' ≡ c) × (r ≡ a +ℤ b)) (add_i128 {E = StableswapError} a b c)
  add_i128-sum a b = ground arith

  -- With a positive amplification, nobody gets a negative number of shares.
  pub shares_for-nonneg :
      (a b x y t : ℤ) (amp : ℕ) (first : Bool)
      → 0 < amp
      → Returns (λ out c'. (c' ≡ c) × (pos 0 ≤ℤ out)) (shares_for a b x y t amp first c)
  unfolding shares_for
  shares_for-nonneg a b x y t amp true p =
      bind_rule _ _ (compute_d (as_u128 a) (as_u128 b) amp c) _
        (compute_d-InRange StableswapError c (as_u128 a) (as_u128 b) amp p)
        (λ d c' e. (e.0, as_i128-small d e.1))
  shares_for-nonneg a b x y t amp false p =
      bind_rule _ _ (compute_d (as_u128 x) (as_u128 y) amp c) _
        (compute_d-InRange StableswapError c (as_u128 x) (as_u128 y) amp p)
        (λ d0 c' e. rw e.0 (
          bind_rule _ _ (add_i128 x a c) _ (add_i128-sum x a) (λ xa c1 e1. rw e1.0 (
            bind_rule _ _ (add_i128 y b c) _ (add_i128-sum y b) (λ yb c2 e2. rw e2.0 (
              bind_rule _ _ (compute_d (as_u128 xa) (as_u128 yb) amp c) _
                (compute_d-InRange StableswapError c (as_u128 xa) (as_u128 yb) amp p)
                (λ d1 c3 e3. rw e3.0 (shares_gained-nonneg d0 d1 t e.2))))))))

  part_of-portion :
      (n x t : ℕ)
      → Returns
          (λ out c'. (c' ≡ c) × (0 < t) × (out ≡ as_i128 (n * x / t)))
          (part_of (pos n) (pos x) (pos t) c)
  unfolding part_of
  part_of-portion n x t = ground arith

  -- What is paid for shares is no more than there is.
  pub part_of-le :
      (n x t : ℤ)
      → pos 0 ≤ℤ n
      → n ≤ℤ t
      → pos 0 ≤ℤ x
      → Returns (λ out c'. (c' ≡ c) × (out ≤ℤ x)) (part_of n x t c)
  part_of-le (pos n) (pos x) (pos t) hn le hx =
      weaken _ _ (part_of (pos n) (pos x) (pos t) c) (part_of-portion n x t) (λ out c' d. (
        d.0,
        let wide : n * x ≤ t * x = mul-le-mul (omega arith) (omega arith) in
            let small : n * x / t ≤ x = div_at_most (n * x) t x d.1 (omega arith) in
            rw d.2 (omega (arith, as_i128-le (n * x / t))),
      ))
  part_of-le (negsuc n) x t hn le hx = absurd (omega arith)
  part_of-le (pos n) (negsuc x) t hn le hx = absurd (omega arith)
  part_of-le (pos n) (pos x) (negsuc t) hn le hx = absurd (omega arith)

  y_round-same : (b k d y : ℕ) → Returns (λ r c'. c' ≡ c) (y_round {E = StableswapError} b k d y c)
  unfolding y_round
  y_round-same b k d y = ground arith

  y_rounds-same :
      (rounds b k d y : ℕ)
      → Returns (λ r c'. c' ≡ c) (y_rounds {E = StableswapError} rounds b k d y c)
  unfolding y_rounds
  y_rounds-same zero b k d y = refl
  y_rounds-same (suc rounds) b k d y =
      bind_rule (λ r c'. c' ≡ c) _ (y_round {E = StableswapError} b k d y c) _
        (y_round-same b k d y)
        (λ next c' e. rw e (elim (Bool-cases (settled next y)) [
          | inl stop ↦ rw stop refl
          | inr go_on ↦ rw go_on (y_rounds-same rounds b k d next)
        ]))

  scaled-same : (a b k : ℕ) → Returns (λ r c'. c' ≡ c) (scaled {E = StableswapError} a b k c)
  unfolding scaled
  scaled-same a b k = ground arith

  add_u128-same : (a b : ℕ) → Returns (λ r c'. c' ≡ c) (add_u128 {E = StableswapError} a b c)
  add_u128-same a b = ground arith

  div_u128-same : (a b : ℕ) → Returns (λ r c'. c' ≡ c) (div_u128 {E = StableswapError} a b c)
  div_u128-same a b = ground arith

  y_from-same :
      (x a y ann d : ℕ) → Returns (λ r c'. c' ≡ c) (y_from {E = StableswapError} x a y ann d c)
  unfolding y_from
  y_from-same x a y ann zero = refl
  y_from-same x a y ann (suc less) =
      let d = suc less in
      then_same c (add_u128 x a c) _ (add_u128-same x a) (λ whole.
        then_same c (scaled d d whole c) _ (scaled-same d d whole) (λ first.
          then_same c (scaled first d ann c) _ (scaled-same first d ann) (λ k.
            then_same c (div_u128 d ann c) _ (div_u128-same d ann) (λ share.
              then_same c (add_u128 whole share c) _ (add_u128-same whole share)
                (λ b. y_rounds-same 256 b k d y)))))

  ann_of-same : (amp : ℕ) → Returns (λ r c'. c' ≡ c) (ann_of {E = StableswapError} amp c)
  unfolding ann_of
  ann_of-same amp = ground arith

  pub compute_y-same :
      (x a y amp : ℕ)
      → 0 < amp
      → Returns (λ r c'. c' ≡ c) (compute_y {E = StableswapError} x a y amp c)
  unfolding compute_y
  compute_y-same x a y amp p = then_same c (ann_of amp c) _ (ann_of-same amp) (λ ann.
      then_same c (compute_d x y amp c) _
        (weaken _ _ (compute_d {E = StableswapError} x y amp c)
          (compute_d-InRange StableswapError c x y amp p) (λ _ c' e. e.0))
        (λ d. y_from-same x a y ann d))

-- What is left of at most `y` after a fee.
net_le : (z : ℤ) (k y : ℕ) → z ≤ℤ pos y → k ≤ 10000 → z *ℤ pos k /ℤ pos 10000 ≤ℤ pos y
unfolding ◌*ℤ◌ ◌/ℤ◌
net_le (pos z) k y h p =
    let wide : z * k ≤ z * 10000 = mul-le-mul (omega arith) p in omega (arith, wide)
net_le (negsuc z) k y h p = ground arith

-- The kept part of what leaves the reserve, at the fee that the pool has.
module _ {W : Type 0} (c : Chain Store W) where
  net_output-le :
      (y n : ℕ)
      → read_fee_bps c.store ≤ 10000
      → Returns (λ out c'. (c' ≡ c) × (out ≤ℤ pos y)) (net_output (pos y) n c)
  unfolding net_output ◌-ℤ◌
  net_output-le y n h =
      let kept = 10000 - read_fee_bps c.store in
      ground (arith, as_i128-le (y - n), net_le (as_i128 (y - n)) kept y)

  pub unwrap-found :
      {A : Type 0} (o : Option A)
      → Returns (λ a c'. (c' ≡ c) × (o ≡ some a)) (unwrap {E = StableswapError} o c)
  unwrap-found none = tt
  unwrap-found (some a) = (refl, refl)

  pub output_for-le :
      (x y a : ℤ)
      → pos 0 ≤ℤ y
      → read_fee_bps c.store ≤ 10000
      → 0 < unwrap_or c.store.amplification 1
      → Returns (λ out c'. (c' ≡ c) × (out ≤ℤ y)) (output_for x y a c)
  unfolding output_for
  output_for-le x (negsuc y) a hy h p = absurd (omega arith)
  output_for-le x (pos y) a hy h p =
      bind_rule _ _ (unwrap c.store.amplification c) _ (unwrap-found c.store.amplification)
        (λ amp c' g. rw g.0 (
          bind_rule _ _ (compute_y (as_u128 x) (as_u128 a) y amp c) _
            (compute_y-same c (as_u128 x) (as_u128 a) y amp (rw g.1 at p))
            (λ n c'' e. rw e (net_output-le y n h))))
