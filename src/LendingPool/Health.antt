-- ===== src/LendingPool/Health.antt =====
-- The health factor of contracts/lending-pool/src/lib.rs, and the price oracle behind it. The
-- oracle is a contract that the pool is told of: what it answers is a parameter.
use suban.Base.{ℕ, ◌-◌, ◌^◌, Bool, true, false, not, Option, none, some, ltb, ◌==◌}
use suban.Int.{ℤ, pos, ◌*ℤ◌, leb_ℤ, ◌==ℤ◌}
use suban.Host.{
  Env, Outcome, ok, err, panic, ◌>>=◌, ◌>>◌, pure, fail_if, fits_i128, mul_i128, div_i128,
}
use suban.Tokens.{Chain, reads}
use suban.Hub.Errors.{HubError}
use suban.Hub.Types.{Price}
use suban.LendingPool.Store.{
  Store, Action, PoolError, oracle_unavailable, invalid_oracle_price, read_borrow, read_collateral,
  read_liquidation_threshold, read_oracle_max_age, pool_asset, collateral_token,
}

-- `get_price` of the contract `oracle`, in a state of the other contracts.
abbrev pub Oracle : Type 0 → Type 0
Oracle W = (oracle asset : ℕ) → W → Outcome HubError Price

module _ {W : Type 0} where
  -- `result.map_err(|_| PoolError::OracleUnavailable)?`
  unfoldable pub quoted : Outcome HubError Price → Action W Price
  quoted (ok price) c = ok (price, c)
  quoted (err e) c = err oracle_unavailable
  quoted panic c = panic

  -- `x.checked_mul(y).ok_or(PoolError::InvalidOraclePrice)?`
  unfoldable pub checked_mul : (x y : ℤ) → Action W ℤ
  checked_mul x y = do fail_if (not (fits_i128 (x *ℤ y))) invalid_oracle_price; pure (x *ℤ y)

  -- The values of a position at two prices.
  unfoldable pub priced_values :
      (c_price d_price : Price) → (collateral borrow threshold : ℤ) → Action W (ℤ × ℤ)
  unfolding checked_mul
  priced_values c_price d_price collateral borrow threshold = do
    fail_if (not (c_price.decimals == d_price.decimals)) invalid_oracle_price
    c_priced ← checked_mul collateral c_price.price
    collateral_value ← checked_mul c_priced threshold
    d_priced ← checked_mul borrow d_price.price
    borrow_value ← checked_mul d_priced (pos 10000)
    pure (collateral_value, borrow_value)

  -- In basis points.
  unfoldable pub ratio : (collateral_value borrow_value : ℤ) → Action W ℤ
  ratio collateral_value borrow_value = do
    scaled ← mul_i128 collateral_value (pos 10000)
    div_i128 scaled borrow_value

module _ {W : Type 0} (oracles : Oracle W) where
  unfoldable pub read_oracle_price : Env → (oracle asset : ℕ) → Action W Price
  unfolding quoted read_oracle_max_age
  read_oracle_price env oracle asset = do
    price ← λ c. quoted (oracles oracle asset c.tokens) c
    fail_if (leb_ℤ price.price (pos 0)) invalid_oracle_price
    fail_if (ltb env.sequence price.timestamp) invalid_oracle_price
    max_age ← reads read_oracle_max_age
    fail_if (ltb max_age (env.sequence - price.timestamp)) oracle_unavailable
    pure price

  -- The price of the debt: that of the collateral, where the two are the same asset.
  unfoldable pub debt_price :
      Env
      → (oracle debt_asset : ℕ) → (same_asset : Bool) → (collateral_price : Price) → Action W Price
  debt_price env oracle debt_asset true collateral_price = pure collateral_price
  debt_price env oracle debt_asset false collateral_price = read_oracle_price env oracle debt_asset

  -- Collateral and debt in the same unit, with an oracle and without one.
  unfoldable pub values :
      Env
      → (oracle : Option ℕ) → (collateral_asset debt_asset : ℕ) → (collateral borrow threshold : ℤ)
      → Action W (ℤ × ℤ)
  unfolding debt_price priced_values
  values env (some oracle) collateral_asset debt_asset collateral borrow threshold = do
    c_price ← read_oracle_price env oracle collateral_asset
    d_price ← debt_price env oracle debt_asset (collateral_asset == debt_asset) c_price
    priced_values c_price d_price collateral borrow threshold
  values env none collateral_asset debt_asset collateral borrow threshold = do
    fail_if (not (collateral_asset == debt_asset)) oracle_unavailable
    collateral_value ← mul_i128 collateral threshold
    borrow_value ← mul_i128 borrow (pos 10000)
    pure (collateral_value, borrow_value)

  -- `i128::MAX` without a debt, and else what the collateral secures of it in basis points.
  unfoldable pub health_of : Env → (collateral borrow : ℤ) → (no_debt : Bool) → Action W ℤ
  unfolding values ratio
  health_of env collateral borrow true = pure (pos (2 ^ 127 - 1))
  health_of env collateral borrow false = do
    threshold ← reads read_liquidation_threshold
    collateral_asset ← reads (collateral_token env)
    debt_asset ← reads (pool_asset env)
    oracle ← reads (λ s. s.price_oracle)
    found ← values env oracle collateral_asset debt_asset collateral borrow threshold
    ratio found.0 found.1

  unfoldable pub calculate_health_factor : Env → (user : ℕ) → Action W ℤ
  unfolding read_borrow read_collateral health_of
  calculate_health_factor env user = do
    collateral ← reads (λ s. read_collateral s user)
    borrow ← reads (λ s. read_borrow s user)
    health_of env collateral borrow (borrow ==ℤ pos 0)

  -- `unwrap_or(0)`: no error reaches the caller, a panic does.
  unfoldable pub health_or_zero : Outcome PoolError (ℤ × Chain Store W) → Outcome PoolError ℤ
  health_or_zero (ok (health, c)) = ok health
  health_or_zero (err e) = ok (pos 0)
  health_or_zero panic = panic

  unfoldable pub get_health_factor : Env → (user : ℕ) → Chain Store W → Outcome PoolError ℤ
  get_health_factor env user c = health_or_zero (calculate_health_factor env user c)
