-- ===== src/CpmmPool/Swap.antt =====
-- `swap` and the queries of contracts/cpmm-pool/src/lib.rs.
use suban.Base.{ℕ, Bool, true, false, ◌==◌, ◌||◌, if◌then◌else◌}
use suban.Int.{ℤ, pos, ltb_ℤ, leb_ℤ, ◌==ℤ◌}
use suban.Dict.{nat_eq}
use suban.Host.{Env, pure, fail, unwrap, ◌>>=◌, ◌>>◌, fail_if, require_auth, add_i128, sub_i128}
use suban.Tokens.{Tokens, token_transfer, reads, writes}
use suban.CpmmPool.Store.{
  Action, insufficient_liquidity, slippage_exceeded, zero_amount, invalid_fee, read_reserve_a,
  write_reserve_a, read_reserve_b, write_reserve_b, read_fee_bps,
}
use suban.CpmmPool.Pricing.{output_for}

-- The reserves as a token going in sees them: in, out, the token going out, and whether that is
-- the first token.
unfoldable pub sides : {W : Type 0} → ℕ → Action W (ℤ × ℤ × ℕ × Bool)
unfolding read_reserve_a read_reserve_b
sides token_in = do
  token_a_addr ← unwrap (← reads (λ s. s.token_a))
  token_b_addr ← unwrap (← reads (λ s. s.token_b))
  reserve_a ← reads read_reserve_a
  reserve_b ← reads read_reserve_b
  if token_in == token_a_addr
      then pure (reserve_a, reserve_b, token_b_addr, false)
      else if token_in == token_b_addr
      then pure (reserve_b, reserve_a, token_a_addr, true)
      else fail invalid_fee

-- `swap` once the reserves are read.
unfoldable pub exchange :
    {W : Type 0} → Tokens W → Env → ℕ → ℕ → ℤ → ℤ → ℤ × ℤ × ℕ × Bool → Action W ℤ
unfolding read_fee_bps write_reserve_a write_reserve_b
exchange t env trader token_in amount_in min_amount_out
      (reserve_in, reserve_out, token_out_addr, swap_to_a) =
    do
      fail_if (reserve_in ==ℤ pos 0 || reserve_out ==ℤ pos 0) insufficient_liquidity
      fee_bps ← reads read_fee_bps
      amount_out ← output_for reserve_in reserve_out fee_bps amount_in
      fail_if (ltb_ℤ amount_out min_amount_out) slippage_exceeded
      let vault = env.current_contract_address
      token_transfer t token_in trader vault amount_in
      new_out ← sub_i128 reserve_out amount_out
      new_in ← add_i128 reserve_in amount_in
      writes (λ s. write_reserve_a (if swap_to_a then new_out else new_in) s)
      writes (λ s. write_reserve_b (if swap_to_a then new_in else new_out) s)
      token_transfer t token_out_addr vault trader amount_out
      pure amount_out

unfoldable pub swap : {W : Type 0} → Tokens W → Env → ℕ → ℕ → ℤ → ℤ → Action W ℤ
unfolding sides exchange
swap t env trader token_in amount_in min_amount_out = do
  require_auth env trader
  fail_if (leb_ℤ amount_in (pos 0)) zero_amount
  found ← sides token_in
  exchange t env trader token_in amount_in min_amount_out found

unfoldable pub get_quote : {W : Type 0} → ℕ → ℤ → Action W ℤ
unfolding read_fee_bps
get_quote token_in amount_in = do
  (reserve_in, reserve_out, _, _) ← sides token_in
  fail_if (reserve_in ==ℤ pos 0 || reserve_out ==ℤ pos 0) insufficient_liquidity
  fee_bps ← reads read_fee_bps
  output_for reserve_in reserve_out fee_bps amount_in
