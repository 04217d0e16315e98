-- ===== src/CpmmPool/Liquidity.antt =====
-- `initialize`, `add_liquidity` and `remove_liquidity` of contracts/cpmm-pool/src/lib.rs.
use suban.Base.{ℕ, ◌==◌, ◌||◌, is_some, ltb}
use suban.Int.{ℤ, pos, ltb_ℤ, leb_ℤ, ◌==ℤ◌}
use suban.Dict.{nat_eq}
use suban.Host.{Env, pure, unwrap, ◌>>=◌, ◌>>◌, fail_if, panic_if, require_auth, add_i128, sub_i128}
use suban.Tokens.{Tokens, token_transfer, reads, writes}
use suban.CpmmPool.Store.{
  Action, opened, insufficient_liquidity, slippage_exceeded, zero_amount, insufficient_lp_shares,
  read_reserve_a, write_reserve_a, read_reserve_b, write_reserve_b, read_total_shares,
  write_total_shares, read_lp_balance, write_lp_balance,
}
use suban.CpmmPool.Pricing.{shares_for, amounts_for}

unfoldable pub initialize : {W : Type 0} → Env → ℕ → ℕ → ℕ → ℕ → Action W (Unit {0})
initialize env admin token_a token_b fee_bps = do
  initialized ← reads (λ s. is_some s.admin)
  panic_if initialized
  require_auth env admin
  panic_if (token_a == token_b)
  panic_if (ltb 1000 fee_bps)
  writes (opened admin token_a token_b fee_bps)

module _ {W : Type 0} (t : Tokens W) where
  -- `add_liquidity` once the shares are known.
  unfoldable pub accept_deposit : Env → ℕ → ℤ → ℤ → ℤ → ℤ → ℤ → ℤ → ℤ → Action W ℤ
  unfolding read_lp_balance write_lp_balance write_reserve_a write_reserve_b write_total_shares
  accept_deposit env provider amount_a amount_b min_shares_out reserve_a reserve_b total_shares
        shares =
      do
        fail_if (ltb_ℤ shares min_shares_out) slippage_exceeded
        token_a_addr ← unwrap (← reads (λ s. s.token_a))
        token_b_addr ← unwrap (← reads (λ s. s.token_b))
        let vault = env.current_contract_address
        token_transfer t token_a_addr provider vault amount_a
        token_transfer t token_b_addr provider vault amount_b
        owned ← reads (λ s. read_lp_balance s provider)
        credited ← add_i128 owned shares
        writes (write_lp_balance provider credited)
        new_a ← add_i128 reserve_a amount_a
        writes (write_reserve_a new_a)
        new_b ← add_i128 reserve_b amount_b
        writes (write_reserve_b new_b)
        new_total ← add_i128 total_shares shares
        writes (write_total_shares new_total)
        pure shares

  unfoldable pub add_liquidity : Env → ℕ → ℤ → ℤ → ℤ → Action W ℤ
  unfolding shares_for read_reserve_a read_reserve_b read_total_shares accept_deposit
  add_liquidity env provider amount_a amount_b min_shares_out = do
    require_auth env provider
    fail_if (leb_ℤ amount_a (pos 0) || leb_ℤ amount_b (pos 0)) zero_amount
    reserve_a ← reads read_reserve_a
    reserve_b ← reads read_reserve_b
    total_shares ← reads read_total_shares
    shares ← shares_for amount_a amount_b reserve_a reserve_b total_shares
    accept_deposit env provider amount_a amount_b min_shares_out reserve_a reserve_b total_shares
        shares

  -- `remove_liquidity` once the amounts are known.
  unfoldable pub pay_out : Env → ℕ → ℤ → ℤ → ℤ → ℤ → ℤ → ℤ → ℤ → ℤ × ℤ → Action W (ℤ × ℤ)
  unfolding write_lp_balance write_reserve_a write_reserve_b write_total_shares
  pay_out env provider shares_in min_a_out min_b_out provider_shares reserve_a reserve_b
        total_shares (amount_a, amount_b) =
      do
        fail_if (ltb_ℤ amount_a min_a_out || ltb_ℤ amount_b min_b_out) slippage_exceeded
        token_a_addr ← unwrap (← reads (λ s. s.token_a))
        token_b_addr ← unwrap (← reads (λ s. s.token_b))
        let vault = env.current_contract_address
        left ← sub_i128 provider_shares shares_in
        writes (write_lp_balance provider left)
        new_a ← sub_i128 reserve_a amount_a
        writes (write_reserve_a new_a)
        new_b ← sub_i128 reserve_b amount_b
        writes (write_reserve_b new_b)
        new_total ← sub_i128 total_shares shares_in
        writes (write_total_shares new_total)
        token_transfer t token_a_addr vault provider amount_a
        token_transfer t token_b_addr vault provider amount_b
        pure (amount_a, amount_b)

  unfoldable pub remove_liquidity : Env → ℕ → ℤ → ℤ → ℤ → Action W (ℤ × ℤ)
  unfolding amounts_for read_reserve_a read_reserve_b read_total_shares read_lp_balance pay_out
  remove_liquidity env provider shares_in min_a_out min_b_out = do
    require_auth env provider
    fail_if (leb_ℤ shares_in (pos 0)) zero_amount
    provider_shares ← reads (λ s. read_lp_balance s provider)
    fail_if (ltb_ℤ provider_shares shares_in) insufficient_lp_shares
    reserve_a ← reads read_reserve_a
    reserve_b ← reads read_reserve_b
    total_shares ← reads read_total_shares
    fail_if (total_shares ==ℤ pos 0) insufficient_liquidity
    amounts ← amounts_for shares_in reserve_a reserve_b total_shares
    pay_out env provider shares_in min_a_out min_b_out provider_shares reserve_a reserve_b
        total_shares amounts
