-- ===== src/LendingPool/Lending.antt =====
-- Deposits, loans and their interest in contracts/lending-pool/src/lib.rs.
use suban.Base.{ℕ, zero, suc, ◌-◌, Bool, true, false, some}
use suban.Int.{ℤ, pos, leb_ℤ, ltb_ℤ, min_ℤ, ◌==ℤ◌}
use suban.Dict.{insert, nat_eq}
use suban.Host.{
  Env, ◌>>=◌, ◌>>◌, pure, fail_if, require_auth, add_i128, sub_i128, mul_i128, div_i128,
}
use suban.Tokens.{Tokens, token_transfer, reads, writes}
use suban.LendingPool.Store.{
  Action, zero_amount, insufficient_balance, health_factor_below_one, read_total_supply,
  read_total_borrows, read_total_reserves, read_deposit, read_borrow, read_interest_rate,
  read_reserve_factor, read_last_accrual, pool_asset, require_not_paused,
}
use suban.LendingPool.Health.{Oracle, calculate_health_factor}

module _ {W : Type 0} where
  -- `total_supply + total_borrows + total_reserves`
  unfoldable pub read_total_assets : Action W ℤ
  unfolding read_total_supply read_total_borrows read_total_reserves
  read_total_assets = do
    total_supply ← reads read_total_supply
    total_borrows ← reads read_total_borrows
    total_reserves ← reads read_total_reserves
    lent ← add_i128 total_supply total_borrows
    add_i128 lent total_reserves

  unfoldable pub shares_of : (amount total_supply : ℤ) → (first : Bool) → Action W ℤ
  unfolding read_total_assets
  shares_of amount total_supply true = pure amount
  shares_of amount total_supply false = do
    total_assets ← read_total_assets
    product ← mul_i128 amount total_supply
    div_i128 product total_assets

module _ {W : Type 0} (t : Tokens W) where
  unfoldable pub deposit : Env → (user : ℕ) → (amount : ℤ) → Action W ℤ
  unfolding require_not_paused shares_of read_total_supply read_deposit
  deposit env user amount = do
    fail_if (leb_ℤ amount (pos 0)) zero_amount
    require_not_paused
    require_auth env user
    total_supply ← reads read_total_supply
    b_tokens ← shares_of amount total_supply (total_supply ==ℤ pos 0)
    current ← reads (λ s. read_deposit s user)
    increased ← add_i128 current amount
    writes (λ s. record s { user_deposits = insert user increased s.user_deposits })
    new_supply ← add_i128 total_supply b_tokens
    writes (λ s. record s { total_supplies = some new_supply })
    asset ← reads (pool_asset env)
    token_transfer t asset user env.current_contract_address amount
    pure b_tokens

  unfoldable pub repay : Env → (user : ℕ) → (amount : ℤ) → Action W ℤ
  unfolding require_not_paused read_borrow read_total_borrows
  repay env user amount = do
    fail_if (leb_ℤ amount (pos 0)) zero_amount
    require_not_paused
    require_auth env user
    current_borrow ← reads (λ s. read_borrow s user)
    let repay_amount = min_ℤ amount current_borrow
    new_borrow ← sub_i128 current_borrow repay_amount
    writes (λ s. record s { user_borrows = insert user new_borrow s.user_borrows })
    total_borrows ← reads read_total_borrows
    new_total ← sub_i128 total_borrows repay_amount
    writes (λ s. record s { total_borrows = some new_total })
    asset ← reads (pool_asset env)
    token_transfer t asset user env.current_contract_address repay_amount
    pure repay_amount

module _ {W : Type 0} (t : Tokens W) (oracles : Oracle W) where
  unfoldable pub withdraw : Env → (user : ℕ) → (b_token_amount : ℤ) → Action W ℤ
  unfolding require_not_paused read_total_assets read_total_supply read_deposit
  withdraw env user b_token_amount = do
    fail_if (leb_ℤ b_token_amount (pos 0)) zero_amount
    require_not_paused
    require_auth env user
    total_supply ← reads read_total_supply
    total_assets ← read_total_assets
    product ← mul_i128 b_token_amount total_assets
    underlying ← div_i128 product total_supply
    user_balance ← reads (λ s. read_deposit s user)
    fail_if (ltb_ℤ user_balance b_token_amount) insufficient_balance
    health ← calculate_health_factor oracles env user
    fail_if (ltb_ℤ health (pos 10000)) health_factor_below_one
    decreased ← sub_i128 user_balance b_token_amount
    writes (λ s. record s { user_deposits = insert user decreased s.user_deposits })
    new_supply ← sub_i128 total_supply b_token_amount
    writes (λ s. record s { total_supplies = some new_supply })
    asset ← reads (pool_asset env)
    token_transfer t asset env.current_contract_address user underlying
    pure underlying

  -- The loan is written down before the health factor is computed; an error undoes that.
  unfoldable pub borrow : Env → (user : ℕ) → (amount : ℤ) → Action W (Unit {0})
  unfolding require_not_paused read_total_supply read_total_borrows read_borrow
  borrow env user amount = do
    fail_if (leb_ℤ amount (pos 0)) zero_amount
    require_not_paused
    require_auth env user
    total_supply ← reads read_total_supply
    total_borrows ← reads read_total_borrows
    available ← sub_i128 total_supply total_borrows
    fail_if (ltb_ℤ available amount) zero_amount
    current_borrow ← reads (λ s. read_borrow s user)
    new_borrow ← add_i128 current_borrow amount
    writes (λ s. record s { user_borrows = insert user new_borrow s.user_borrows })
    health ← calculate_health_factor oracles env user
    fail_if (ltb_ℤ health (pos 10000)) health_factor_below_one
    new_total ← add_i128 total_borrows amount
    writes (λ s. record s { total_borrows = some new_total })
    asset ← reads (pool_asset env)
    token_transfer t asset env.current_contract_address user amount

module _ {W : Type 0} where
  unfoldable pub accrue : Env → (ledgers_passed : ℕ) → Action W (Unit {0})
  unfolding read_total_borrows read_interest_rate read_reserve_factor read_total_reserves
  accrue env zero = pure tt
  accrue env (suc passed) = do
    total_borrows ← reads read_total_borrows
    interest_rate ← reads read_interest_rate
    reserve_factor ← reads read_reserve_factor
    yearly ← mul_i128 total_borrows interest_rate
    product ← mul_i128 yearly (pos (suc passed))
    interest ← div_i128 product (pos 1000000000)
    reserved ← mul_i128 interest reserve_factor
    reserve_share ← div_i128 reserved (pos 10000)
    total_borrows_new ← add_i128 total_borrows interest
    total_reserves ← reads read_total_reserves
    total_reserves_new ← add_i128 total_reserves reserve_share
    writes (λ s. record s {
      total_borrows = some total_borrows_new;
      total_reserves = some total_reserves_new;
      last_accrual = some env.sequence;
    })

  -- `checked_sub(last_accrual).unwrap_or(0)` is the difference on natural numbers.
  unfoldable pub accrue_interest : Env → Action W (Unit {0})
  unfolding require_not_paused accrue read_last_accrual
  accrue_interest env = do
    require_not_paused
    last_accrual ← reads read_last_accrual
    accrue env (env.sequence - last_accrual)
