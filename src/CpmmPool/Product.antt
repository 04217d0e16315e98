-- ===== src/CpmmPool/Product.antt =====
-- A swap in contracts/cpmm-pool/src/lib.rs and the product of the reserves.
use suban.Base.{
  ℕ, ◌+◌, ◌-◌, ◌*◌, ◌/◌, ◌≤◌, ◌<◌, ◌≡◌, ◌⊎◌, Bool, true, false, arith, some, if◌then◌else◌,
}
use suban.Int.{ℤ, pos, negsuc, pos_part, ◌+ℤ◌, ◌-ℤ◌, ◌*ℤ◌, ◌/ℤ◌, ◌≤ℤ◌, ◌<ℤ◌, nonneg-eq-pos}
use suban.Host.{Env, bind_rule, weaken, ◌>>=◌, Returns}
use suban.Tokens.{Tokens, Chain}
use suban.CpmmPool.Store.{
  Store, read_reserve_a, read_reserve_b, read_fee_bps, write_reserve_a, write_reserve_b,
}
use suban.CpmmPool.Pricing.{output_for}
use suban.CpmmPool.Swap.{swap, exchange, sides}
use native.Mathlib.Nat.{mul-le-mul, mul-div-le}

-- The input that counts, after a fee of `f` in ten thousand, and the output for it.
abbrev pub charged : ℕ → ℕ → ℕ
charged f d = d * (10_000 - f) / 10_000

abbrev pub paid_out : ℕ → ℕ → ℕ → ℕ
paid_out x y e = y * e / (x + e)

pub output_for-pos :
    {W : Type 0} (x y f d : ℕ) (c : Chain Store W)
    → Returns
        (λ q c'. (c' ≡ c) × (f ≤ 10_000) × (q ≡ pos (paid_out x y (charged f d))))
        (output_for (pos x) (pos y) f (pos d) c)
unfolding output_for ◌+ℤ◌ ◌*ℤ◌ ◌/ℤ◌
output_for-pos x y f d c = ground arith

paid_out-le : (x y e : ℕ) → paid_out x y e ≤ y
paid_out-le x y e = grind arith

-- With `r` left of `r + q` in the pool: an input that counts in full does not lower the product.
product_left : (x q r e d : ℕ) → (x + e) * q ≤ (r + q) * e → e ≤ d → x * (r + q) ≤ (x + d) * r
product_left x q r e d paid h =
    let more : (x + e) * r ≤ (x + d) * r = mul-le-mul (omega arith) (omega arith) in
    omega (arith, paid, more)

pub product_grows : (x y e d : ℕ) → e ≤ d → x * y ≤ (x + d) * (y - paid_out x y e)
product_grows x y e d h =
    let q = paid_out x y e in
    let whole : y - q + q ≡ y = omega (arith, paid_out-le x y e) in
    let paid : (x + e) * q ≤ (y - q + q) * e = rw whole (mul-div-le (y * e) (x + e)) in
    rw whole at (product_left x q (y - q) e d paid h)

pub charged-le : (f d : ℕ) → charged f d ≤ d
charged-le f d =
    let all : d * (10_000 - f) ≤ d * 10_000 = mul-le-mul (omega arith) (omega arith) in
    omega (arith, all)

-- What an exchange of `d` against the reserves `x` and `y` leaves.
abbrev Exchanged : ℕ → ℕ → ℕ → ℤ → Bool → ℤ → Store → Store → Type 0
Exchanged x y d least swap_to_a out s s' =
    let q = paid_out x y (charged (read_fee_bps s) d) in
    (least ≤ℤ out)
    × (0 < x)
    × (0 < y)
    × (out ≡ pos q)
    × (read_reserve_a s' ≡ (if swap_to_a then pos (y - q) else pos (x + d)))
    × (read_reserve_b s' ≡ (if swap_to_a then pos (x + d) else pos (y - q)))

exchange-Exchanged :
    {W : Type 0} (t : Tokens W) (env : Env) (trader token_in x y d : ℕ) (least : ℤ)
    (r : ℤ × ℤ × ℕ × Bool) (c : Chain Store W)
    → r.0 ≡ pos x
    → r.1 ≡ pos y
    → Returns
        (λ out c'. Exchanged x y d least r.3 out c.store c'.store)
        (exchange t env trader token_in (pos d) least r c)
unfolding exchange read_reserve_a read_reserve_b write_reserve_a write_reserve_b ◌-ℤ◌ ◌+ℤ◌
exchange-Exchanged t env trader token_in x y d least r c hx hy =
    let f = read_fee_bps c.store in
    ground (arith, output_for-pos x y f d c, paid_out-le x y (charged f d))

-- What `sides` finds.
abbrev pub Sides : ℕ → Store → ℤ × ℤ × ℕ × Bool → Type 0
Sides token_in s r =
    ((s.token_a ≡ some token_in)
      × (s.token_b ≡ some r.2)
      × (r.0 ≡ read_reserve_a s)
      × (r.1 ≡ read_reserve_b s)
      × (r.3 ≡ false))
    ⊎ ((s.token_b ≡ some token_in)
        × (s.token_a ≡ some r.2)
        × (r.0 ≡ read_reserve_b s)
        × (r.1 ≡ read_reserve_a s)
        × (r.3 ≡ true))

pub sides-Sides :
    {W : Type 0} (token_in : ℕ) (c : Chain Store W)
    → Returns (λ r c'. (c' ≡ c) × Sides token_in c.store r) (sides token_in c)
unfolding sides
sides-Sides token_in c = ground arith

pub reserve_product : Store → ℕ
reserve_product s = pos_part (read_reserve_a s) * pos_part (read_reserve_b s)

reserve_product-eq :
    (m n : ℕ) (s : Store)
    → read_reserve_a s ≡ pos m
    → read_reserve_b s ≡ pos n
    → reserve_product s ≡ m * n
unfolding reserve_product
reserve_product-eq m n s p q = rw (p, q)

-- The amount goes into the reserve of the token that is sold, and the output leaves the other.
abbrev pub Trades : ℕ → ℤ → ℤ → Store → Store → Type 0
Trades token_in amount out s s' =
    ((s.token_a ≡ some token_in)
      × (read_reserve_a s' ≡ read_reserve_a s +ℤ amount)
      × (read_reserve_b s' +ℤ out ≡ read_reserve_b s))
    ⊎ ((s.token_b ≡ some token_in)
        × (read_reserve_b s' ≡ read_reserve_b s +ℤ amount)
        × (read_reserve_a s' +ℤ out ≡ read_reserve_a s))

abbrev pub HasReserves : Store → Type 0
HasReserves s = (pos 0 ≤ℤ read_reserve_a s) × (pos 0 ≤ℤ read_reserve_b s)

abbrev pub Swaps : ℕ → ℤ → ℤ → Store → ℤ → Store → Type 0
Swaps token_in amount least s out s' =
    (least ≤ℤ out)
    × (pos 0 ≤ℤ out)
    × Trades token_in amount out s s'
    × HasReserves s'
    × (reserve_product s ≤ reserve_product s')

Exchanged-Swaps :
    (x y token_in d : ℕ) (least : ℤ) (r : ℤ × ℤ × ℕ × Bool) (out : ℤ) (s s' : Store)
    → read_reserve_a s ≡ pos x
    → read_reserve_b s ≡ pos y
    → Sides token_in s r
    → Exchanged (pos_part r.0) (pos_part r.1) d least r.3 out s s'
    → Swaps token_in (pos d) least s out s'
unfolding ◌+ℤ◌
Exchanged-Swaps x y token_in d least r out s s' hx hy found e =
    let f = read_fee_bps s in
    let counted = charged f d in
    let q = paid_out x y counted in
    let q' = paid_out y x counted in
    let other : x * y ≤ (x - q') * (y + d) =
      omega (arith, product_grows y x counted d (charged-le f d)) in
    ground (
      arith,
      product_grows x y counted d (charged-le f d),
      other,
      reserve_product-eq x y s hx hy,
      reserve_product-eq (x + d) (y - q) s',
      reserve_product-eq (x - q') (y + d) s',
      paid_out-le x y counted,
      paid_out-le y x counted,
    )

module _ {W : Type 0} (t : Tokens W) (env : Env) (trader token_in d : ℕ) (least : ℤ)
    (c : Chain Store W) (h : HasReserves c.store) where
  exchange-Swaps :
      (r : ℤ × ℤ × ℕ × Bool)
      → Sides token_in c.store r
      → Returns
          (λ out c'. Swaps token_in (pos d) least c.store out c'.store)
          (exchange t env trader token_in (pos d) least r c)
  exchange-Swaps r found =
      let (x, hx) = nonneg-eq-pos (read_reserve_a c.store) h.0 in
      let (y, hy) = nonneg-eq-pos (read_reserve_b c.store) h.1 in
      let m = pos_part r.0 in
      let n = pos_part r.1 in
      let hm : r.0 ≡ pos m = ground arith in
      let hn : r.1 ≡ pos n = ground arith in
      weaken (λ out c'. Exchanged m n d least r.3 out c.store c'.store)
        (λ out c'. Swaps token_in (pos d) least c.store out c'.store)
        (exchange t env trader token_in (pos d) least r c)
        (exchange-Exchanged t env trader token_in m n d least r c hm hn)
        (λ out c' e. Exchanged-Swaps x y token_in d least r out c.store c'.store hx hy found e)

  sold-Swaps :
      Returns
        (λ out c'. Swaps token_in (pos d) least c.store out c'.store)
        ((sides token_in >>= λ r. exchange t env trader token_in (pos d) least r) c)
  sold-Swaps =
      bind_rule (λ r c'. (c' ≡ c) × Sides token_in c.store r)
        (λ out c'. Swaps token_in (pos d) least c.store out c'.store) (sides token_in c)
        (λ r. exchange t env trader token_in (pos d) least r) (sides-Sides token_in c)
        (λ r c' p. rw p.0 (exchange-Swaps r p.1))

-- From reserves that are not negative, a swap that returns has an output of at least what the trader
-- asked for, and never a negative one; the amount goes into the reserve of the token that is sold, the
-- output leaves the other, neither reserve falls below zero, and the product of the reserves is no
-- smaller than before.
pub swap-Swaps :
    {W : Type 0} (t : Tokens W) (env : Env) (trader token_in : ℕ) (amount least : ℤ)
    (c : Chain Store W)
    → HasReserves c.store
    → Returns
        (λ out c'. (pos 0 <ℤ amount) × Swaps token_in amount least c.store out c'.store)
        (swap t env trader token_in amount least c)
unfolding swap
swap-Swaps t env trader token_in (negsuc d) least c h = ground arith
swap-Swaps t env trader token_in (pos d) least c h =
    ground (arith, sold-Swaps t env trader token_in d least c h)
