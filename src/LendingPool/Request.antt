-- ===== src/LendingPool/Request.antt =====
-- The requests that contracts/lending-pool/src/lib.rs takes.
use suban.Base.{ℕ, Bool, true, false, Option, none, []}
use suban.Int.{ℤ}
use suban.Host.{Env, ◌>>◌, pure}
use suban.Tokens.{Tokens}
use suban.LendingPool.Store.{Store, Action}
use suban.LendingPool.Health.{Oracle}
use suban.LendingPool.Lending
use suban.LendingPool.Collateral
use suban.LendingPool.Admin

pub data Request : Type 0 where
  initialize :
      (admin : ℕ)
      → (collateral_factor liquidation_threshold liquidation_bonus interest_rate reserve_factor : ℤ)
      → Request
  deposit withdraw borrow repay : (user : ℕ) → (amount : ℤ) → Request
  set_collateral deposit_collateral withdraw_collateral : (user : ℕ) → (amount : ℤ) → Request
  liquidate : (liquidator borrower : ℕ) → (repay_amount min_collateral : ℤ) → Request
  accrue_interest : Request
  set_paused : (admin : ℕ) → (paused : Bool) → Request
  update_config :
      (admin : ℕ)
      → (collateral_factor liquidation_threshold liquidation_bonus interest_rate
          reserve_factor : Option ℤ)
      → Request
  set_collateral_asset set_collateral_token : (admin asset : ℕ) → Request
  set_price_oracle : (admin oracle max_age_ledgers : ℕ) → Request
  clear_price_oracle : (admin : ℕ) → Request

-- The requests that anybody can make, for himself.
abbrev pub is_public : Request → Bool
is_public (Request.deposit user amount) = true
is_public (Request.withdraw user amount) = true
is_public (Request.borrow user amount) = true
is_public (Request.repay user amount) = true
is_public (Request.set_collateral user amount) = true
is_public (Request.deposit_collateral user amount) = true
is_public (Request.withdraw_collateral user amount) = true
is_public (Request.liquidate liquidator borrower repay_amount min_collateral) = true
is_public Request.accrue_interest = true
is_public _ = false

-- The storage before the first call.
abbrev pub deployed : Store
deployed = record {
  total_supplies = none;
  total_borrows = none;
  collateral_factor = none;
  liquidation_threshold = none;
  liquidation_bonus = none;
  pool_admin = none;
  user_deposits = [];
  user_borrows = [];
  user_collateral = [];
  last_accrual = none;
  interest_rate = none;
  reserve_factor = none;
  total_reserves = none;
  pool_paused = none;
  collateral_asset = none;
  collateral_token = none;
  price_oracle = none;
  oracle_max_age = none;
}

module _ {W : Type 0} (t : Tokens W) (oracles : Oracle W) where
  unfoldable pub execute : Env → Request → Action W (Unit {0})
  execute env (Request.initialize a f l b i r) = Admin.initialize env a f l b i r
  execute env (Request.deposit user amount) = Lending.deposit t env user amount >> pure tt
  execute env (Request.withdraw user amount) = Lending.withdraw t oracles env user amount >> pure tt
  execute env (Request.borrow user amount) = Lending.borrow t oracles env user amount
  execute env (Request.repay user amount) = Lending.repay t env user amount >> pure tt
  execute env (Request.set_collateral user amount) =
      Collateral.set_collateral oracles env user amount
  execute env (Request.deposit_collateral user amount) =
      Collateral.deposit_collateral t env user amount
  execute env (Request.withdraw_collateral user amount) =
      Collateral.withdraw_collateral t oracles env user amount
  execute env (Request.liquidate liquidator borrower repay_amount min_collateral) =
      Collateral.liquidate t oracles env liquidator borrower repay_amount min_collateral
  execute env Request.accrue_interest = Lending.accrue_interest env
  execute env (Request.set_paused a b) = Admin.set_paused env a b
  execute env (Request.update_config a f l b i r) = Admin.update_config env a f l b i r
  execute env (Request.set_collateral_asset a k) = Admin.set_collateral_asset env a k
  execute env (Request.set_collateral_token a k) = Admin.set_collateral_token env a k
  execute env (Request.set_price_oracle a o m) = Admin.set_price_oracle env a o m
  execute env (Request.clear_price_oracle a) = Admin.clear_price_oracle env a
