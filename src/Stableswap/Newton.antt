-- ===== src/Stableswap/Newton.antt =====
-- The range of `compute_d` of contracts/stableswap/src/lib.rs.
use suban.Base.{
  ℕ, zero, suc, ◌+◌, ◌-◌, ◌*◌, ◌/◌, ◌≤◌, ◌<◌, ◌^◌, ◌≡◌, ◌⊎◌, inl, inr, refl, arith, Bool-cases,
}
use native.Mathlib.Nat.{mul-le-mul, div-add-mod, mod-lt}
use native.Mathlib.Decide.{dec_le}
use suban.Host.{Returns, bind_rule, weaken, fits_u128}
use suban.Stableswap.Curve.{scaled, settled, next_d, d_round, d_rounds, d_from, ann_of, compute_d}

pub div_at_most : (n m b : ℕ) → 0 < m → n ≤ m * b → n / m ≤ b
div_at_most n m b p h = elim (dec_le (n / m) b) [
  | yes small ↦ small
  | no large ↦
      let wide : m * suc b ≤ m * (n / m) = mul-le-mul (omega arith) (omega arith) in
      absurd (omega (arith, wide, div-add-mod n m))
]

div_at_least : (n m b : ℕ) → 0 < m → m * b ≤ n → b ≤ n / m
div_at_least n m b p h = elim (dec_le b (n / m)) [
  | yes large ↦ large
  | no small ↦
      let wide : m * suc (n / m) ≤ m * b = mul-le-mul (omega arith) (omega arith) in
      absurd (omega (arith, wide, div-add-mod n m, mod-lt n p))
]

-- The quotient of the iteration.
abbrev above : (s ann d d_p : ℕ) → ℕ
above s ann d d_p = (ann * s + d_p * 2) * d

abbrev below : (ann d d_p : ℕ) → ℕ
below ann d d_p = (ann - 1) * d + 3 * d_p

module _ {S : Type 0} (E : Type 0) (c : S) where
  scaled-returns :
      (a b k : ℕ)
      → Returns
          (λ r c'. (c' ≡ c) × (0 < k) × (r ≡ a * b / (k * 2)))
          (scaled {S = S} {E = E} a b k c)
  unfolding scaled fits_u128
  scaled-returns a b k = ground arith

  next_d-returns :
      (s ann d d_p : ℕ)
      → Returns
          (λ r c'.
            (c' ≡ c)
            × (above s ann d d_p < 2 ^ 128)
            × (0 < below ann d d_p)
            × (r ≡ above s ann d d_p / below ann d d_p))
          (next_d {S = S} {E = E} s ann d d_p c)
  unfolding next_d fits_u128
  next_d-returns s ann d d_p = ground arith

third_small : (n m : ℕ) → 3 ≤ m → n < 2 ^ 128 → n / m < 2 ^ 127
third_small n m p h =
    let small : n / m ≤ 2 ^ 127 - 1 = div_at_most n m (2 ^ 127 - 1) (omega arith) (omega arith) in
    omega arith

-- The divisor is at least 3, so the quotient is below half of the range.
divisor_large : (ann d d_p : ℕ) → 4 ≤ ann → 0 < below ann d d_p → 3 ≤ below ann d d_p
divisor_large ann zero d_p big p = omega arith
divisor_large ann (suc d) d_p big p =
    let wide : 3 * suc d ≤ (ann - 1) * suc d = mul-le-mul (omega arith) (omega arith) in omega arith

pred_mul : (n d : ℕ) → 0 < n → (n - 1) * d + d ≡ n * d
pred_mul zero d p = absurd (omega arith)
pred_mul (suc n) d p = grind arith

-- A divisor of the iteration, doubled, if `d_p` is no more than it is at `d = 2`.
twice_below :
    (s ann d p : ℕ)
    → 4 ≤ ann
    → 2 ≤ s
    → 2 ≤ d
    → (p ≤ 2) ⊎ (3 ≤ d)
    → below ann d p * 2 ≤ above s ann d p
twice_below s ann d p big ps pd least =
    let less : (ann - 1) * d + d ≡ ann * d = pred_mul ann d (omega arith) in
    let same : d * ann ≤ d * ann = omega arith in
    let alike : p ≤ p = omega arith in
    let wide : d * ann * 2 ≤ d * ann * s = mul-le-mul same ps in
    elim least [
      | inl small ↦
          let high : p * 2 ≤ p * d = mul-le-mul alike pd in omega (arith, less, wide, high)
      | inr far ↦ let high : p * 3 ≤ p * d = mul-le-mul alike far in omega (arith, less, wide, high)
    ]

quotient_large :
    (s ann d d_p : ℕ)
    → 4 ≤ ann
    → 2 ≤ s
    → 2 ≤ d
    → (d_p ≤ 2) ⊎ (3 ≤ d)
    → 0 < below ann d d_p
    → 2 ≤ above s ann d d_p / below ann d d_p
quotient_large s ann d d_p big ps pd least p =
    div_at_least (above s ann d d_p) (below ann d d_p) 2 p (twice_below s ann d d_p big ps pd least)

-- `d_p` at `d = 2`
least_part :
    (ra rb d : ℕ) → 0 < ra → 0 < rb → 2 ≤ d → (d * d / (ra * 2) * d / (rb * 2) ≤ 2) ⊎ (3 ≤ d)
least_part ra rb zero pa pb h = absurd (omega arith)
least_part ra rb (suc zero) pa pb h = absurd (omega arith)
least_part ra rb (suc (suc zero)) pa pb h =
    let half : 2 * 2 / (ra * 2) ≤ 2 = div_at_most (2 * 2) (ra * 2) 2 (omega arith) (omega arith) in
    inl (div_at_most (2 * 2 / (ra * 2) * 2) (rb * 2) 2 (omega arith) (omega arith))
least_part ra rb (suc (suc (suc d))) pa pb h = inr (omega arith)

module _ {S : Type 0} (E : Type 0) (c : S) (ra rb ann : ℕ) (big : 4 ≤ ann) where
  -- What a round leaves: it only returns on two reserves, and then in the range.
  abbrev Rounds : ℕ → ℕ → S → Type 0
  Rounds d r c' = (c' ≡ c) × (2 ≤ ra + rb) × (r < 2 ^ 127) × (2 ≤ d → 2 ≤ r)

  next_d-Rounds :
      (d : ℕ)
      → 0 < ra
      → 0 < rb
      → Returns
          (Rounds d)
          (next_d {S = S} {E = E} (ra + rb) ann d (d * d / (ra * 2) * d / (rb * 2)) c)
  next_d-Rounds d pa pb =
      let p = d * d / (ra * 2) * d / (rb * 2) in
      weaken _ _ (next_d {S = S} {E = E} (ra + rb) ann d p c) (next_d-returns E c (ra + rb) ann d p)
        (λ r c' e. (
          e.0,
          omega arith,
          rw e.3 (third_small _ _ (divisor_large ann d p big e.2) e.1),
          λ pd. rw e.3 (
              quotient_large (ra + rb) ann d p big (omega arith) pd (least_part ra rb d pa pb pd)
                e.2),
        ))

  d_round-Rounds : (d : ℕ) → Returns (Rounds d) (d_round {S = S} {E = E} ra rb (ra + rb) ann d c)
  unfolding d_round
  d_round-Rounds d =
      bind_rule _ (Rounds d) (scaled {S = S} {E = E} d d ra c) _ (scaled-returns E c d d ra)
        (λ half c' e. rw e.0 (
          bind_rule _ (Rounds d) (scaled {S = S} {E = E} half d rb c) _
            (scaled-returns E c half d rb)
            (λ d_p c'' g. rw (g.0, g.2, e.2) (next_d-Rounds d e.1 g.1))))

  -- The rounds keep the range.
  d_rounds-Kept :
      (rounds d : ℕ)
      → Returns
          (λ r c'. (c' ≡ c) × (d < 2 ^ 127 → r < 2 ^ 127) × (2 ≤ d → 2 ≤ r))
          (d_rounds {S = S} {E = E} rounds ra rb (ra + rb) ann d c)
  unfolding d_rounds
  d_rounds-Kept zero d = (refl, (λ h. h), (λ h. h))
  d_rounds-Kept (suc rounds) d =
      bind_rule (Rounds d) _ (d_round {S = S} {E = E} ra rb (ra + rb) ann d c) _ (d_round-Rounds d)
        (λ next c' e. rw e.0 (elim (Bool-cases (settled next d)) [
          | inl stop ↦ rw stop (refl, (λ _. e.2), e.3)
          | inr go_on ↦ rw go_on (
              weaken _ _ (d_rounds {S = S} {E = E} rounds ra rb (ra + rb) ann next c)
                (d_rounds-Kept rounds next) (λ r c'' f. (f.0, (λ _. f.1 e.2), (λ h. f.2 (e.3 h)))))
        ]))

  first_rounds :
      (rounds : ℕ)
      → Returns
          (λ r c'. (c' ≡ c) × (r < 2 ^ 127) × (2 ≤ r))
          (d_rounds {S = S} {E = E} (suc rounds) ra rb (ra + rb) ann (ra + rb) c)
  unfolding d_rounds
  first_rounds rounds =
      bind_rule (Rounds (ra + rb)) _ (d_round {S = S} {E = E} ra rb (ra + rb) ann (ra + rb) c) _
        (d_round-Rounds (ra + rb))
        (λ next c' e. rw e.0 (elim (Bool-cases (settled next (ra + rb))) [
          | inl stop ↦ rw stop (refl, e.2, e.3 e.1)
          | inr go_on ↦ rw go_on (
              weaken _ _ (d_rounds {S = S} {E = E} rounds ra rb (ra + rb) ann next c)
                (d_rounds-Kept rounds next) (λ r c'' f. (f.0, f.1 e.2, f.2 (e.3 e.1))))
        ]))

module _ {S : Type 0} (E : Type 0) (c : S) (ra rb amp : ℕ) (big : 0 < amp) where
  abbrev InRange : ℕ → S → Type 0
  InRange r c' = (c' ≡ c) × (r < 2 ^ 127) × ((r ≡ 0) ⊎ (2 ≤ r))

  ann_of-returns : Returns (λ r c'. (c' ≡ c) × (r ≡ amp * 2 * 2)) (ann_of {S = S} {E = E} amp c)
  unfolding ann_of
  ann_of-returns = ground arith

  d_from-InRange : (n : ℕ) → n ≡ ra + rb → Returns InRange (d_from {S = S} {E = E} ra rb amp n c)
  unfolding d_from
  d_from-InRange zero e = (refl, omega arith, inl refl)
  d_from-InRange (suc n) e =
      bind_rule _ InRange (ann_of {S = S} {E = E} amp c) _ ann_of-returns (λ ann c' f.
        rw (f.0, e)
          (weaken _ _ (d_rounds {S = S} {E = E} 256 ra rb (ra + rb) ann (ra + rb) c)
            (first_rounds E c ra rb ann (let g = f.1 in omega arith) 255)
            (λ r c'' h. (h.0, h.1, inr h.2))))

  -- With a positive amplification, a `compute_d` that returns changes nothing, and returns either
  -- nothing or at least 2, below half of the range of a `u128`.
  pub compute_d-InRange : Returns InRange (compute_d {S = S} {E = E} ra rb amp c)
  unfolding compute_d
  compute_d-InRange = ground (arith, d_from-InRange (ra + rb) refl)
