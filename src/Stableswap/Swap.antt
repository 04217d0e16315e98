-- ===== src/Stableswap/Swap.antt =====
-- `swap` and the queries of contracts/stableswap/src/lib.rs.
use suban.Base.{ℕ, Bool, true, false, ◌==◌, ◌||◌, if◌then◌else◌}
use suban.Int.{ℤ, pos, ltb_ℤ, leb_ℤ, ◌==ℤ◌}
use suban.Dict.{nat_eq}
use suban.Host.{
  Env, pure, fail, unwrap, ◌>>=◌, ◌>>◌, fail_if, require_auth, add_i128, sub_i128, mul_i128,
  div_i128, sub_u128, as_u128, as_i128,
}
use suban.Tokens.{Tokens, token_transfer, reads, writes}
use suban.Stableswap.Store.{
  Action, insufficient_liquidity, slippage_exceeded, zero_amount, invalid_fee, read_reserve_a,
  write_reserve_a, read_reserve_b, write_reserve_b, read_fee_bps, read_total_shares,
  read_lp_balance,
}
use suban.Stableswap.Curve.{compute_y}

module _ {W : Type 0} where
  -- The reserves as a token going in sees them: in, out, the token going out, and whether that is
  -- the first token.
  unfoldable pub sides : (token_in : ℕ) → Action W (ℤ × ℤ × ℕ × Bool)
  unfolding read_reserve_a read_reserve_b
  sides token_in = do
    token_a_addr ← unwrap (← reads (λ s. s.token_a))
    token_b_addr ← unwrap (← reads (λ s. s.token_b))
    reserve_a ← reads read_reserve_a
    reserve_b ← reads read_reserve_b
    if token_in == token_a_addr
        then pure (reserve_a, reserve_b, token_b_addr, false)
        else if token_in == token_b_addr
        then pure (reserve_b, reserve_a, token_a_addr, true)
        else fail invalid_fee

  -- What leaves the reserve, less the fee: `amount_out_net`.
  unfoldable pub net_output : (reserve_out : ℤ) → (new_reserve_out : ℕ) → Action W ℤ
  unfolding read_fee_bps
  net_output reserve_out new_reserve_out = do
    amount_out ← sub_u128 (as_u128 reserve_out) new_reserve_out
    fee_bps ← reads read_fee_bps
    kept ← sub_i128 (pos 10000) (pos fee_bps)
    product ← mul_i128 (as_i128 amount_out) kept
    div_i128 product (pos 10000)

  -- What goes out for an amount, after the fee.
  unfoldable pub output_for : (reserve_in reserve_out amount_in : ℤ) → Action W ℤ
  unfolding compute_y net_output
  output_for reserve_in reserve_out amount_in = do
    amp ← unwrap (← reads (λ s. s.amplification))
    new_reserve_out ← compute_y (as_u128 reserve_in) (as_u128 amount_in) (as_u128 reserve_out) amp
    net_output reserve_out new_reserve_out

module _ {W : Type 0} (t : Tokens W) where
  -- `swap` once the output is known.
  unfoldable pub settle_swap :
      Env
      → (trader token_in token_out_addr : ℕ) → (swap_to_a : Bool)
      → (reserve_in reserve_out amount_in amount_out_net : ℤ) → Action W ℤ
  unfolding write_reserve_a write_reserve_b
  settle_swap env trader token_in token_out_addr swap_to_a reserve_in reserve_out amount_in
        amount_out_net =
      do
        let vault = env.current_contract_address
        token_transfer t token_in trader vault amount_in
        new_in ← add_i128 reserve_in amount_in
        new_out ← sub_i128 reserve_out amount_out_net
        writes (λ s. write_reserve_a (if swap_to_a then new_out else new_in) s)
        writes (λ s. write_reserve_b (if swap_to_a then new_in else new_out) s)
        token_transfer t token_out_addr vault trader amount_out_net
        pure amount_out_net

  -- `swap` once the reserves are read.
  unfoldable pub exchange :
      Env → (trader token_in : ℕ) → (amount_in min_amount_out : ℤ) → ℤ × ℤ × ℕ × Bool → Action W ℤ
  unfolding output_for settle_swap
  exchange env trader token_in amount_in min_amount_out
        (reserve_in, reserve_out, token_out_addr, swap_to_a) =
      do
        fail_if (reserve_in ==ℤ pos 0 || reserve_out ==ℤ pos 0) insufficient_liquidity
        amount_out_net ← output_for reserve_in reserve_out amount_in
        fail_if (ltb_ℤ amount_out_net min_amount_out) slippage_exceeded
        settle_swap env trader token_in token_out_addr swap_to_a reserve_in reserve_out amount_in
            amount_out_net

  unfoldable pub swap : Env → (trader token_in : ℕ) → (amount_in min_amount_out : ℤ) → Action W ℤ
  unfolding sides exchange
  swap env trader token_in amount_in min_amount_out = do
    require_auth env trader
    fail_if (leb_ℤ amount_in (pos 0)) zero_amount
    found ← sides token_in
    exchange env trader token_in amount_in min_amount_out found

module _ {W : Type 0} where
  unfoldable pub get_quote : (token_in : ℕ) → (amount_in : ℤ) → Action W ℤ
  unfolding sides output_for
  get_quote token_in amount_in = do
    (reserve_in, reserve_out, _, _) ← sides token_in
    fail_if (reserve_in ==ℤ pos 0 || reserve_out ==ℤ pos 0) insufficient_liquidity
    output_for reserve_in reserve_out amount_in

  unfoldable pub get_reserves : Action W (ℤ × ℤ)
  unfolding read_reserve_a read_reserve_b
  get_reserves = do
    reserve_a ← reads read_reserve_a
    reserve_b ← reads read_reserve_b
    pure (reserve_a, reserve_b)

  unfoldable pub get_total_shares : Action W ℤ
  unfolding read_total_shares
  get_total_shares = reads read_total_shares

  unfoldable pub get_amplification : Action W ℕ
  get_amplification = do found ← reads (λ s. s.amplification); unwrap found

  unfoldable pub get_fee_bps : Action W ℕ
  unfolding read_fee_bps
  get_fee_bps = reads read_fee_bps

  unfoldable pub get_lp_balance : (owner : ℕ) → Action W ℤ
  unfolding read_lp_balance
  get_lp_balance owner = reads (λ s. read_lp_balance s owner)

  unfoldable pub get_token_a : Action W ℕ
  get_token_a = do found ← reads (λ s. s.token_a); unwrap found

  unfoldable pub get_token_b : Action W ℕ
  get_token_b = do found ← reads (λ s. s.token_b); unwrap found

  unfoldable pub admin : Action W ℕ
  admin = do found ← reads (λ s. s.admin); unwrap found
