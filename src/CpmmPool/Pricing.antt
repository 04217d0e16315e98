-- ===== src/CpmmPool/Pricing.antt =====
-- The shares and the output that contracts/cpmm-pool/src/lib.rs computes from the reserves.
use suban.Base.{ℕ, if◌then◌else◌}
use suban.Int.{ℤ, pos, ◌==ℤ◌, min_ℤ}
use suban.Dict.{nat_eq}
use suban.Host.{pure, ◌>>=◌, add_i128, mul_i128, div_i128, mul_u128, sub_u32, as_u128, as_i128}
use suban.CpmmPool.Isqrt.{isqrt}
use suban.CpmmPool.Store.{Action}

-- The shares that `add_liquidity` issues: the root of the product for the first deposit, and
-- then the smaller of the two proportions.
unfoldable pub first_shares : {W : Type 0} → ℤ → ℤ → Action W ℤ
first_shares amount_a amount_b = do
  product ← mul_u128 (as_u128 amount_a) (as_u128 amount_b)
  root ← isqrt product
  pure (as_i128 root)

unfoldable pub proportional_shares : {W : Type 0} → ℤ → ℤ → ℤ → ℤ → ℤ → Action W ℤ
proportional_shares amount_a amount_b reserve_a reserve_b total_shares = do
  product_a ← mul_i128 amount_a total_shares
  shares_a ← div_i128 product_a reserve_a
  product_b ← mul_i128 amount_b total_shares
  shares_b ← div_i128 product_b reserve_b
  pure (min_ℤ shares_a shares_b)

unfoldable pub shares_for : {W : Type 0} → ℤ → ℤ → ℤ → ℤ → ℤ → Action W ℤ
unfolding first_shares proportional_shares
shares_for amount_a amount_b reserve_a reserve_b total_shares =
    if total_shares ==ℤ pos 0
    then first_shares amount_a amount_b
    else proportional_shares amount_a amount_b reserve_a reserve_b total_shares

-- The amounts of the two tokens that `remove_liquidity` pays for shares.
unfoldable pub amounts_for : {W : Type 0} → ℤ → ℤ → ℤ → ℤ → Action W (ℤ × ℤ)
amounts_for shares_in reserve_a reserve_b total_shares = do
  product_a ← mul_i128 shares_in reserve_a
  amount_a ← div_i128 product_a total_shares
  product_b ← mul_i128 shares_in reserve_b
  amount_b ← div_i128 product_b total_shares
  pure (amount_a, amount_b)

-- The output of a swap, after the fee, as `swap` and `get_quote` compute it.
unfoldable pub output_for : {W : Type 0} → ℤ → ℤ → ℕ → ℤ → Action W ℤ
output_for reserve_in reserve_out fee_bps amount_in = do
  kept ← sub_u32 10_000 fee_bps
  charged ← mul_i128 amount_in (pos kept)
  amount_in_after_fee ← div_i128 charged (pos 10_000)
  product ← mul_i128 reserve_out amount_in_after_fee
  divisor ← add_i128 reserve_in amount_in_after_fee
  div_i128 product divisor
