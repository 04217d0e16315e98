-- ===== src/Stableswap/Curve.antt =====
-- `compute_d` and `compute_y` of contracts/stableswap/src/lib.rs, Newton's iterations for the
-- StableSwap invariant of two tokens.
use suban.Base.{ℕ, zero, suc, ◌-◌, Bool, ltb, leb, if◌then◌else◌}
use suban.Host.{Call, ◌>>=◌, pure, add_u128, sub_u128, mul_u128, div_u128}

-- `MAX_ITERATIONS`
abbrev pub max_iterations : ℕ
max_iterations = 256

-- Whether an iteration has moved by at most one.
unfoldable pub settled : (next previous : ℕ) → Bool
settled next previous =
    if ltb previous next then leb (next - previous) 1 else leb (previous - next) 1

module _ {S E : Type 0} where
  -- `a * b / (c * N)`
  unfoldable pub scaled : (a b c : ℕ) → Call S E ℕ
  scaled a b c = do product ← mul_u128 a b; divisor ← mul_u128 c 2; div_u128 product divisor

  -- `amp * N * N`
  unfoldable pub ann_of : (amp : ℕ) → Call S E ℕ
  ann_of amp = do doubled ← mul_u128 amp 2; mul_u128 doubled 2

  -- `(ann * s + d_p * N) * d / ((ann - 1) * d + (N + 1) * d_p)`
  unfoldable pub next_d : (s ann d d_p : ℕ) → Call S E ℕ
  next_d s ann d d_p = do
    weighted ← mul_u128 ann s
    doubled ← mul_u128 d_p 2
    sum ← add_u128 weighted doubled
    numerator ← mul_u128 sum d
    less ← sub_u128 ann 1
    left ← mul_u128 less d
    tripled ← mul_u128 3 d_p
    denominator ← add_u128 left tripled
    div_u128 numerator denominator

  unfoldable pub d_round : (reserve_a reserve_b s ann d : ℕ) → Call S E ℕ
  unfolding scaled next_d
  d_round reserve_a reserve_b s ann d =
      scaled d d reserve_a >>= λ half. scaled half d reserve_b >>= λ d_p. next_d s ann d d_p

  unfoldable pub d_rounds : (rounds reserve_a reserve_b s ann d : ℕ) → Call S E ℕ
  unfolding d_round settled
  d_rounds zero reserve_a reserve_b s ann d = pure d
  d_rounds (suc rounds) reserve_a reserve_b s ann d =
      d_round reserve_a reserve_b s ann d >>= λ next.
      let rest = d_rounds rounds reserve_a reserve_b s ann next in
      if settled next d then pure next else rest

  unfoldable pub d_from : (reserve_a reserve_b amp s : ℕ) → Call S E ℕ
  unfolding ann_of d_rounds
  d_from reserve_a reserve_b amp zero = pure 0
  d_from reserve_a reserve_b amp (suc less) = do
    ann ← ann_of amp
    d_rounds max_iterations reserve_a reserve_b (suc less) ann (suc less)

  unfoldable pub compute_d : (reserve_a reserve_b amp : ℕ) → Call S E ℕ
  unfolding d_from
  compute_d reserve_a reserve_b amp = do
    s ← add_u128 reserve_a reserve_b
    d_from reserve_a reserve_b amp s

  unfoldable pub y_round : (b c d y : ℕ) → Call S E ℕ
  y_round b c d y = do
    square ← mul_u128 y y
    numerator ← add_u128 square c
    doubled ← mul_u128 2 y
    sum ← add_u128 doubled b
    denominator ← sub_u128 sum d
    div_u128 numerator denominator

  unfoldable pub y_rounds : (rounds b c d y : ℕ) → Call S E ℕ
  unfolding y_round settled
  y_rounds zero b c d y = pure y
  y_rounds (suc rounds) b c d y = y_round b c d y >>= λ next.
      let rest = y_rounds rounds b c d next in if settled next y then pure next else rest

  -- `compute_y` once `D` is known.
  unfoldable pub y_from : (reserve_in amount_in reserve_out ann d : ℕ) → Call S E ℕ
  unfolding scaled y_rounds
  y_from reserve_in amount_in reserve_out ann zero = pure 0
  y_from reserve_in amount_in reserve_out ann (suc less) = do
    let d = suc less
    new_reserve_in ← add_u128 reserve_in amount_in
    first ← scaled d d new_reserve_in
    c ← scaled first d ann
    share ← div_u128 d ann
    b ← add_u128 new_reserve_in share
    y_rounds max_iterations b c d reserve_out

  unfoldable pub compute_y : (reserve_in amount_in reserve_out amp : ℕ) → Call S E ℕ
  unfolding ann_of compute_d y_from
  compute_y reserve_in amount_in reserve_out amp = do
    ann ← ann_of amp
    d ← compute_d reserve_in reserve_out amp
    y_from reserve_in amount_in reserve_out ann d
