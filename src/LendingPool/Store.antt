-- ===== src/LendingPool/Store.antt =====
-- The storage of contracts/lending-pool/src/lib.rs and how it is read.
use suban.Base.{ℕ, Bool, false, not, Option, unwrap_or, ◌==◌}
use suban.Int.{ℤ, pos}
use suban.Dict.{Dict, lookup, nat_eq}
use suban.Host.{Env, Call, ◌>>=◌, ◌>>◌, unwrap, fail_if, require_auth}
use suban.Tokens.{Chain, reads}

pub data PoolError : Type 0 where
  not_admin pool_is_paused insufficient_balance insufficient_collateral : PoolError
  health_factor_below_one liquidation_not_profitable slippage_exceeded zero_amount : PoolError
  reserve_factor_too_high collateral_factor_too_high : PoolError
  oracle_unavailable invalid_oracle_price : PoolError

-- The instance storage, a field for each symbol.
pub record Store : Type 0 where
  pub total_supplies : Option ℤ
  pub total_borrows : Option ℤ
  pub collateral_factor : Option ℤ
  pub liquidation_threshold : Option ℤ
  pub liquidation_bonus : Option ℤ
  pub pool_admin : Option ℕ
  pub user_deposits : Dict ℕ ℤ
  pub user_borrows : Dict ℕ ℤ
  pub user_collateral : Dict ℕ ℤ
  pub last_accrual : Option ℕ
  pub interest_rate : Option ℤ
  pub reserve_factor : Option ℤ
  pub total_reserves : Option ℤ
  pub pool_paused : Option Bool
  pub collateral_asset : Option ℕ
  pub collateral_token : Option ℕ
  pub price_oracle : Option ℕ
  pub oracle_max_age : Option ℕ

abbrev pub Action : Type 0 → Type 0 → Type 0
Action W A = Call (Chain Store W) PoolError A

-- What `unwrap_or` gives for each field.
unfoldable pub read_total_supply : Store → ℤ
read_total_supply s = unwrap_or s.total_supplies (pos 0)

unfoldable pub read_total_borrows : Store → ℤ
read_total_borrows s = unwrap_or s.total_borrows (pos 0)

unfoldable pub read_total_reserves : Store → ℤ
read_total_reserves s = unwrap_or s.total_reserves (pos 0)

unfoldable pub read_deposit : Store → ℕ → ℤ
read_deposit s user = unwrap_or (lookup user s.user_deposits) (pos 0)

unfoldable pub read_borrow : Store → ℕ → ℤ
read_borrow s user = unwrap_or (lookup user s.user_borrows) (pos 0)

unfoldable pub read_collateral : Store → ℕ → ℤ
read_collateral s user = unwrap_or (lookup user s.user_collateral) (pos 0)

unfoldable pub read_liquidation_threshold : Store → ℤ
read_liquidation_threshold s = unwrap_or s.liquidation_threshold (pos 8500)

unfoldable pub read_liquidation_bonus : Store → ℤ
read_liquidation_bonus s = unwrap_or s.liquidation_bonus (pos 500)

unfoldable pub read_interest_rate : Store → ℤ
read_interest_rate s = unwrap_or s.interest_rate (pos 500)

unfoldable pub read_reserve_factor : Store → ℤ
read_reserve_factor s = unwrap_or s.reserve_factor (pos 1000)

unfoldable pub read_last_accrual : Store → ℕ
read_last_accrual s = unwrap_or s.last_accrual 0

unfoldable pub read_oracle_max_age : Store → ℕ
read_oracle_max_age s = unwrap_or s.oracle_max_age 10

unfoldable pub is_paused : Store → Bool
is_paused s = unwrap_or s.pool_paused false

unfoldable pub pool_asset : Env → Store → ℕ
pool_asset env s = unwrap_or s.collateral_asset env.current_contract_address

unfoldable pub collateral_token : Env → Store → ℕ
collateral_token env s = unwrap_or s.collateral_token (pool_asset env s)

module _ {W : Type 0} where
  unfoldable pub require_not_paused : Action W (Unit {0})
  unfolding is_paused
  require_not_paused = do paused ← reads is_paused; fail_if paused pool_is_paused

  -- `admin != stored_admin`, then `require_auth`
  unfoldable pub admin_only : Env → ℕ → Action W (Unit {0})
  admin_only env admin = do
    stored_admin ← unwrap (← reads (λ s. s.pool_admin))
    fail_if (not (admin == stored_admin)) not_admin
    require_auth env admin
