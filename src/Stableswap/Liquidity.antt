-- ===== src/Stableswap/Liquidity.antt =====
-- `initialize`, `set_fee`, `add_liquidity` and `remove_liquidity` of contracts/stableswap/src/lib.rs.
use suban.Base.{ℕ, Bool, true, false, not, ◌==◌, ◌||◌, is_some, some, ltb}
use suban.Int.{ℤ, pos, ltb_ℤ, leb_ℤ, ◌==ℤ◌}
use suban.Dict.{nat_eq}
use suban.Host.{
  Env, pure, unwrap, ◌>>=◌, ◌>>◌, fail_if, panic_if, require_auth, add_i128, sub_i128, mul_u128,
  sub_u128, div_u128, as_u128, as_i128,
}
use suban.Tokens.{Tokens, token_transfer, reads, writes}
use suban.Stableswap.Store.{
  Action, not_admin, zero_amount, slippage_exceeded, insufficient_liquidity, insufficient_lp_shares,
  invalid_fee, read_reserve_a, write_reserve_a, read_reserve_b, write_reserve_b, read_total_shares,
  write_total_shares, read_lp_balance, write_lp_balance,
}
use suban.Stableswap.Curve.{compute_d}

-- `MAX_AMPLIFICATION`
abbrev pub max_amplification : ℕ
max_amplification = 1000000

module _ {W : Type 0} where
  unfoldable pub initialize : Env → (admin token_a token_b amplification : ℕ) → Action W (Unit {0})
  initialize env admin token_a token_b amplification = do
    initialized ← reads (λ s. is_some s.admin)
    panic_if initialized
    require_auth env admin
    panic_if (token_a == token_b)
    panic_if (amplification == 0)
    panic_if (ltb max_amplification amplification)
    writes (λ s. record s {
      admin = some admin;
      token_a = some token_a;
      token_b = some token_b;
      reserve_a = some (pos 0);
      reserve_b = some (pos 0);
      total_shares = some (pos 0);
      amplification = some amplification;
      fee_bps = some 30;
    })

  unfoldable pub set_fee : Env → (admin fee_bps : ℕ) → Action W (Unit {0})
  set_fee env admin fee_bps = do
    stored ← unwrap (← reads (λ s. s.admin))
    fail_if (not (admin == stored)) not_admin
    require_auth env admin
    fail_if (ltb 1000 fee_bps) invalid_fee
    writes (λ s. record s { fee_bps = some fee_bps })

  -- `((d1 - d0) * total_shares as u128 / d0) as i128`
  unfoldable pub shares_gained : (d0 d1 : ℕ) → (total_shares : ℤ) → Action W ℤ
  shares_gained d0 d1 total_shares = do
    gained ← sub_u128 d1 d0
    product ← mul_u128 gained (as_u128 total_shares)
    shares ← div_u128 product d0
    pure (as_i128 shares)

  -- The shares that a deposit is worth, before any or with some there.
  unfoldable pub shares_for :
      (amount_a amount_b reserve_a reserve_b total_shares : ℤ)
      → (amp : ℕ) → (first : Bool) → Action W ℤ
  unfolding compute_d shares_gained
  shares_for amount_a amount_b reserve_a reserve_b total_shares amp true = do
    d ← compute_d (as_u128 amount_a) (as_u128 amount_b) amp
    pure (as_i128 d)
  shares_for amount_a amount_b reserve_a reserve_b total_shares amp false = do
    d0 ← compute_d (as_u128 reserve_a) (as_u128 reserve_b) amp
    after_a ← add_i128 reserve_a amount_a
    after_b ← add_i128 reserve_b amount_b
    d1 ← compute_d (as_u128 after_a) (as_u128 after_b) amp
    shares_gained d0 d1 total_shares

module _ {W : Type 0} (t : Tokens W) where
  -- `add_liquidity` once the shares are known.
  unfoldable pub accept_deposit :
      Env
      → (provider : ℕ)
      → (amount_a amount_b min_shares_out reserve_a reserve_b total_shares shares : ℤ) → Action W ℤ
  unfolding read_lp_balance write_lp_balance write_reserve_a write_reserve_b write_total_shares
  accept_deposit env provider amount_a amount_b min_shares_out reserve_a reserve_b total_shares
        shares =
      do
        fail_if (ltb_ℤ shares min_shares_out) slippage_exceeded
        token_a_addr ← unwrap (← reads (λ s. s.token_a))
        token_b_addr ← unwrap (← reads (λ s. s.token_b))
        let vault = env.current_contract_address
        token_transfer t token_a_addr provider vault amount_a
        token_transfer t token_b_addr provider vault amount_b
        owned ← reads (λ s. read_lp_balance s provider)
        credited ← add_i128 owned shares
        writes (write_lp_balance provider credited)
        new_a ← add_i128 reserve_a amount_a
        writes (write_reserve_a new_a)
        new_b ← add_i128 reserve_b amount_b
        writes (write_reserve_b new_b)
        new_total ← add_i128 total_shares shares
        writes (write_total_shares new_total)
        pure shares

  unfoldable pub add_liquidity :
      Env → (provider : ℕ) → (amount_a amount_b min_shares_out : ℤ) → Action W ℤ
  unfolding read_reserve_a read_reserve_b read_total_shares shares_for accept_deposit
  add_liquidity env provider amount_a amount_b min_shares_out = do
    require_auth env provider
    fail_if (leb_ℤ amount_a (pos 0) || leb_ℤ amount_b (pos 0)) zero_amount
    reserve_a ← reads read_reserve_a
    reserve_b ← reads read_reserve_b
    total_shares ← reads read_total_shares
    amp ← unwrap (← reads (λ s. s.amplification))
    shares ←
        shares_for amount_a amount_b reserve_a reserve_b total_shares amp (total_shares ==ℤ pos 0)
    accept_deposit env provider amount_a amount_b min_shares_out reserve_a reserve_b total_shares
        shares

module _ {W : Type 0} where
  -- `(shares_in as u128) * (reserve as u128) / (total_shares as u128)`, cast to `i128`
  unfoldable pub part_of : (shares_in reserve total_shares : ℤ) → Action W ℤ
  part_of shares_in reserve total_shares = do
    product ← mul_u128 (as_u128 shares_in) (as_u128 reserve)
    amount ← div_u128 product (as_u128 total_shares)
    pure (as_i128 amount)

module _ {W : Type 0} (t : Tokens W) where
  -- `remove_liquidity` once the amounts are known.
  unfoldable pub pay_out :
      Env
      → (provider : ℕ)
      → (shares_in provider_shares reserve_a reserve_b total_shares amount_a amount_b : ℤ)
      → Action W (ℤ × ℤ)
  unfolding write_lp_balance write_reserve_a write_reserve_b write_total_shares
  pay_out env provider shares_in provider_shares reserve_a reserve_b total_shares amount_a
        amount_b =
      do
        token_a_addr ← unwrap (← reads (λ s. s.token_a))
        token_b_addr ← unwrap (← reads (λ s. s.token_b))
        let vault = env.current_contract_address
        left ← sub_i128 provider_shares shares_in
        writes (write_lp_balance provider left)
        new_a ← sub_i128 reserve_a amount_a
        writes (write_reserve_a new_a)
        new_b ← sub_i128 reserve_b amount_b
        writes (write_reserve_b new_b)
        new_total ← sub_i128 total_shares shares_in
        writes (write_total_shares new_total)
        token_transfer t token_a_addr vault provider amount_a
        token_transfer t token_b_addr vault provider amount_b
        amp ← unwrap (← reads (λ s. s.amplification))
        pure (amount_a, amount_b)

  unfoldable pub remove_liquidity :
      Env → (provider : ℕ) → (shares_in min_a_out min_b_out : ℤ) → Action W (ℤ × ℤ)
  unfolding read_lp_balance read_reserve_a read_reserve_b read_total_shares part_of pay_out
  remove_liquidity env provider shares_in min_a_out min_b_out = do
    require_auth env provider
    fail_if (leb_ℤ shares_in (pos 0)) zero_amount
    provider_shares ← reads (λ s. read_lp_balance s provider)
    fail_if (ltb_ℤ provider_shares shares_in) insufficient_lp_shares
    reserve_a ← reads read_reserve_a
    reserve_b ← reads read_reserve_b
    total_shares ← reads read_total_shares
    fail_if (total_shares ==ℤ pos 0) insufficient_liquidity
    amount_a ← part_of shares_in reserve_a total_shares
    amount_b ← part_of shares_in reserve_b total_shares
    fail_if (ltb_ℤ amount_a min_a_out || ltb_ℤ amount_b min_b_out) slippage_exceeded
    pay_out env provider shares_in provider_shares reserve_a reserve_b total_shares amount_a
        amount_b
