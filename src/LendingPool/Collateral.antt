-- ===== src/LendingPool/Collateral.antt =====
-- Collateral and liquidations in contracts/lending-pool/src/lib.rs.
use suban.Base.{ℕ, some}
use suban.Int.{ℤ, pos, leb_ℤ, ltb_ℤ, min_ℤ}
use suban.Dict.{insert, nat_eq}
use suban.Host.{Env, ◌>>=◌, ◌>>◌, fail_if, require_auth, add_i128, sub_i128, mul_i128, div_i128}
use suban.Tokens.{Tokens, token_transfer, reads, writes}
use suban.LendingPool.Store.{
  Action, zero_amount, insufficient_balance, insufficient_collateral, health_factor_below_one,
  liquidation_not_profitable, slippage_exceeded, read_total_borrows, read_deposit, read_borrow,
  read_collateral, read_liquidation_bonus, pool_asset, collateral_token, require_not_paused,
}
use suban.LendingPool.Health.{Oracle, calculate_health_factor}

module _ {W : Type 0} (oracles : Oracle W) where
  unfoldable pub set_collateral : Env → (user : ℕ) → (amount : ℤ) → Action W (Unit {0})
  unfolding require_not_paused read_deposit
  set_collateral env user amount = do
    require_not_paused
    require_auth env user
    deposit ← reads (λ s. read_deposit s user)
    fail_if (ltb_ℤ deposit amount) insufficient_balance
    writes (λ s. record s { user_collateral = insert user amount s.user_collateral })
    health ← calculate_health_factor oracles env user
    fail_if (ltb_ℤ health (pos 10000)) health_factor_below_one

module _ {W : Type 0} (t : Tokens W) where
  unfoldable pub deposit_collateral : Env → (user : ℕ) → (amount : ℤ) → Action W (Unit {0})
  unfolding require_not_paused read_collateral
  deposit_collateral env user amount = do
    fail_if (leb_ℤ amount (pos 0)) zero_amount
    require_not_paused
    require_auth env user
    asset ← reads (collateral_token env)
    token_transfer t asset user env.current_contract_address amount
    current ← reads (λ s. read_collateral s user)
    increased ← add_i128 current amount
    writes (λ s. record s { user_collateral = insert user increased s.user_collateral })

  -- The debt is repaid, and the collateral goes to the liquidator.
  unfoldable pub seize :
      Env
      → (liquidator borrower : ℕ)
      → (actual_repay collateral_seize borrower_borrow borrower_collateral : ℤ)
      → Action W (Unit {0})
  unfolding read_total_borrows
  seize env liquidator borrower actual_repay collateral_seize borrower_borrow borrower_collateral =
      do
        new_borrow ← sub_i128 borrower_borrow actual_repay
        writes (λ s. record s { user_borrows = insert borrower new_borrow s.user_borrows })
        new_collateral ← sub_i128 borrower_collateral collateral_seize
        writes
            (λ s. record s { user_collateral = insert borrower new_collateral s.user_collateral })
        total_borrows ← reads read_total_borrows
        new_total ← sub_i128 total_borrows actual_repay
        writes (λ s. record s { total_borrows = some new_total })
        debt_asset ← reads (pool_asset env)
        collateral_asset ← reads (collateral_token env)
        token_transfer t debt_asset liquidator env.current_contract_address actual_repay
        token_transfer t collateral_asset env.current_contract_address liquidator collateral_seize

module _ {W : Type 0} (t : Tokens W) (oracles : Oracle W) where
  unfoldable pub withdraw_collateral : Env → (user : ℕ) → (amount : ℤ) → Action W (Unit {0})
  unfolding require_not_paused read_collateral
  withdraw_collateral env user amount = do
    fail_if (leb_ℤ amount (pos 0)) zero_amount
    require_not_paused
    require_auth env user
    current ← reads (λ s. read_collateral s user)
    fail_if (ltb_ℤ current amount) insufficient_collateral
    decreased ← sub_i128 current amount
    writes (λ s. record s { user_collateral = insert user decreased s.user_collateral })
    health ← calculate_health_factor oracles env user
    fail_if (ltb_ℤ health (pos 10000)) health_factor_below_one
    asset ← reads (collateral_token env)
    token_transfer t asset env.current_contract_address user amount

  unfoldable pub liquidate :
      Env → (liquidator borrower : ℕ) → (repay_amount min_collateral : ℤ) → Action W (Unit {0})
  unfolding require_not_paused read_borrow read_collateral read_liquidation_bonus seize
  liquidate env liquidator borrower repay_amount min_collateral = do
    fail_if (leb_ℤ repay_amount (pos 0)) zero_amount
    require_not_paused
    require_auth env liquidator
    health ← calculate_health_factor oracles env borrower
    fail_if (leb_ℤ (pos 10000) health) liquidation_not_profitable
    borrower_borrow ← reads (λ s. read_borrow s borrower)
    let actual_repay = min_ℤ repay_amount borrower_borrow
    liquidation_bonus ← reads read_liquidation_bonus
    rate ← add_i128 (pos 10000) liquidation_bonus
    product ← mul_i128 actual_repay rate
    collateral_seize ← div_i128 product (pos 10000)
    fail_if (ltb_ℤ collateral_seize min_collateral) slippage_exceeded
    borrower_collateral ← reads (λ s. read_collateral s borrower)
    fail_if (ltb_ℤ borrower_collateral collateral_seize) insufficient_collateral
    seize t env liquidator borrower actual_repay collateral_seize borrower_borrow
        borrower_collateral
