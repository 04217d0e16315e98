-- ===== src/LendingPool/Admin.antt =====
-- The administration of contracts/lending-pool/src/lib.rs.
use suban.Base.{ℕ, Bool, false, Option, none, some, ◌==◌}
use suban.Int.{ℤ, pos, ltb_ℤ}
use suban.Dict.{nat_eq}
use suban.Host.{Env, ◌>>◌, pure, fail_if}
use suban.Tokens.{writes}
use suban.LendingPool.Store.{
  Action, reserve_factor_too_high, collateral_factor_too_high, invalid_oracle_price, admin_only,
}

-- A value that was passed on replaces the one that is stored.
unfoldable pub or_else : (new stored : Option ℤ) → Option ℤ
or_else none stored = stored
or_else (some new) stored = some new

module _ {W : Type 0} where
  -- Nobody signs for it, and it can be called again.
  unfoldable pub initialize :
      Env
      → (admin : ℕ)
      → (collateral_factor liquidation_threshold liquidation_bonus interest_rate reserve_factor : ℤ)
      → Action W (Unit {0})
  initialize env admin factor threshold bonus rate reserve = do
    fail_if (ltb_ℤ (pos 8000) factor) collateral_factor_too_high
    fail_if (ltb_ℤ (pos 5000) reserve) reserve_factor_too_high
    writes (λ s. record s {
      pool_admin = some admin;
      collateral_factor = some factor;
      liquidation_threshold = some threshold;
      liquidation_bonus = some bonus;
      interest_rate = some rate;
      reserve_factor = some reserve;
      pool_paused = some false;
      total_supplies = some (pos 0);
      total_borrows = some (pos 0);
      total_reserves = some (pos 0);
      last_accrual = some env.sequence;
    })

  unfoldable pub set_paused : Env → (admin : ℕ) → Bool → Action W (Unit {0})
  unfolding admin_only
  set_paused env admin paused = do
    admin_only env admin
    writes (λ s. record s { pool_paused = some paused })

  -- `if let Some(cf) = collateral_factor { … }`
  unfoldable pub update_collateral_factor : Option ℤ → Action W (Unit {0})
  update_collateral_factor none = pure tt
  update_collateral_factor (some factor) = do
    fail_if (ltb_ℤ (pos 8000) factor) collateral_factor_too_high
    writes (λ s. record s { collateral_factor = some factor })

  unfoldable pub update_reserve_factor : Option ℤ → Action W (Unit {0})
  update_reserve_factor none = pure tt
  update_reserve_factor (some factor) = do
    fail_if (ltb_ℤ (pos 5000) factor) reserve_factor_too_high
    writes (λ s. record s { reserve_factor = some factor })

  unfoldable pub update_config :
      Env
      → (admin : ℕ)
      → (collateral_factor liquidation_threshold liquidation_bonus interest_rate
          reserve_factor : Option ℤ)
      → Action W (Unit {0})
  unfolding admin_only update_collateral_factor update_reserve_factor or_else
  update_config env admin factor threshold bonus rate reserve = do
    admin_only env admin
    update_collateral_factor factor
    writes (λ s. record s {
      liquidation_threshold = or_else threshold s.liquidation_threshold;
      liquidation_bonus = or_else bonus s.liquidation_bonus;
      interest_rate = or_else rate s.interest_rate;
    })
    update_reserve_factor reserve

  unfoldable pub set_collateral_asset : Env → (admin asset : ℕ) → Action W (Unit {0})
  unfolding admin_only
  set_collateral_asset env admin asset = do
    admin_only env admin
    writes (λ s. record s { collateral_asset = some asset })

  unfoldable pub set_collateral_token : Env → (admin asset : ℕ) → Action W (Unit {0})
  unfolding admin_only
  set_collateral_token env admin asset = do
    admin_only env admin
    writes (λ s. record s { collateral_token = some asset })

  unfoldable pub set_price_oracle : Env → (admin oracle max_age_ledgers : ℕ) → Action W (Unit {0})
  unfolding admin_only
  set_price_oracle env admin oracle max_age_ledgers = do
    admin_only env admin
    fail_if (max_age_ledgers == 0) invalid_oracle_price
    writes (λ s. record s { price_oracle = some oracle; oracle_max_age = some max_age_ledgers })

  unfoldable pub clear_price_oracle : Env → (admin : ℕ) → Action W (Unit {0})
  unfolding admin_only
  clear_price_oracle env admin = do
    admin_only env admin
    writes (λ s. record s { price_oracle = none })
