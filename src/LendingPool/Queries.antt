-- ===== src/LendingPool/Queries.antt =====
-- The queries of contracts/lending-pool/src/lib.rs.
use suban.Base.{ℕ, unwrap_or}
use suban.Int.{ℤ, pos}
use suban.Host.{Env}
use suban.LendingPool.Store.{
  Store, read_total_supply, read_total_borrows, read_total_reserves, read_deposit, read_borrow,
  read_collateral, read_liquidation_threshold, read_liquidation_bonus, read_interest_rate,
  read_reserve_factor, read_last_accrual, collateral_token,
}

pub record UserPosition : Type 0 where
  pub deposit : ℤ
  pub borrow : ℤ
  pub collateral : ℤ

pub record PoolConfig : Type 0 where
  pub collateral_factor : ℤ
  pub liquidation_threshold : ℤ
  pub liquidation_bonus : ℤ
  pub interest_rate : ℤ
  pub reserve_factor : ℤ
  pub collateral_asset : ℕ

pub record PoolState : Type 0 where
  pub total_supply : ℤ
  pub total_borrows : ℤ
  pub total_reserves : ℤ
  pub last_accrual : ℕ

unfoldable pub get_position : Store → (user : ℕ) → UserPosition
get_position s user = record {
  deposit = read_deposit s user;
  borrow = read_borrow s user;
  collateral = read_collateral s user;
}

unfoldable pub get_pool_state : Store → PoolState
get_pool_state s = record {
  total_supply = read_total_supply s;
  total_borrows = read_total_borrows s;
  total_reserves = read_total_reserves s;
  last_accrual = read_last_accrual s;
}

unfoldable pub get_pool_config : Env → Store → PoolConfig
get_pool_config env s = record {
  collateral_factor = unwrap_or s.collateral_factor (pos 8000);
  liquidation_threshold = read_liquidation_threshold s;
  liquidation_bonus = read_liquidation_bonus s;
  interest_rate = read_interest_rate s;
  reserve_factor = read_reserve_factor s;
  collateral_asset = collateral_token env s;
}
