-- ===== src/LendingPool/Tests.antt =====
-- Runs of contracts/lending-pool/src/lib.rs, and the theorems at inputs that meet their hypotheses.
use suban.Base.{
  ℕ, ◌≡◌, ◌↔◌, refl, arith, inr, true, false, some, List, [], ◌∷◌, ◌==◌, if◌then◌else◌,
}
use suban.Int.{ℤ, pos, ◌+ℤ◌, ◌-ℤ◌, ◌*ℤ◌, ◌/ℤ◌, ◌≤ℤ◌, ◌<ℤ◌}
use suban.Dict.{lookup, insert, nat_eq}
use suban.Host.{Env, ok, ◌>>◌, Returns, history, fits_i128}
use suban.Tokens.{Chain, Balances, ledger, credit, debit}
use suban.Hub.Types.{Price}
use suban.LendingPool.Store.{
  Store, read_total_supply, read_total_borrows, read_total_reserves, read_deposit, read_borrow,
  read_collateral, read_liquidation_threshold, read_oracle_max_age, is_paused, pool_asset,
  collateral_token, require_not_paused, admin_only,
}
use suban.LendingPool.Health.{
  Oracle, quoted, checked_mul, priced_values, ratio, read_oracle_price, debt_price, values,
  health_of, calculate_health_factor, health_or_zero, get_health_factor,
}
use suban.LendingPool.Lending.{read_total_assets, shares_of, deposit, withdraw, borrow}
use suban.LendingPool.Collateral.{
  set_collateral, deposit_collateral, withdraw_collateral, liquidate,
}
use suban.LendingPool.Admin.{
  initialize, set_collateral_asset, set_collateral_token, set_price_oracle,
}
use suban.LendingPool.Request.{Request, execute, deployed}
use suban.LendingPool.Rates.{Secured, Exposed, priced}
use suban.LendingPool.Factor.{calculate_health_factor-Secured}
use suban.LendingPool.Books.{books, Leaves, paid, seized, exchanged, with_collateral}
use suban.LendingPool.Effects.{liquidate-Leaves}
use suban.LendingPool.Debts.{NoneNegative, Accounted, accrued, nonneg_borrow, execute-Accounted}
use suban.LendingPool.Protection.{execute-Secured}
use suban.LendingPool.Return.{deposit_collateral-withdraw_collateral}
use suban.LendingPool.History.{history-NoneNegative}

-- The pool is 100, and only it has not signed.
abbrev env : Env
env = record {
  sequence = 10;
  timestamp = 50;
  current_contract_address = 100;
  authorized = λ a. if a == 100 then false else true;
}

-- The asset 20 counts 10, and any other the given price.
abbrev priced_at : ℤ → Oracle Balances
priced_at p oracle asset w = ok (record {
  asset = asset;
  price = if asset == 20 then pos 10 else p;
  decimals = 7;
  timestamp = 8;
  confidence = 0;
})

abbrev purse : Balances
purse k a = if a == 100 then pos 0 else pos 1000

abbrev calls : List (Env × Request)
calls =
    (env, Request.initialize 1 (pos 7500) (pos 8500) (pos 500) (pos 500) (pos 1000))
    ∷ (env, Request.set_collateral_asset 1 20)
    ∷ (env, Request.set_collateral_token 1 21)
    ∷ (env, Request.set_price_oracle 1 30 10)
    ∷ (env, Request.deposit 2 (pos 500))
    ∷ (env, Request.deposit_collateral 3 (pos 50))
    ∷ (env, Request.borrow 3 (pos 100))
    ∷ (env, Request.borrow 3 (pos 100))
    ∷ []

abbrev pool : Store
pool = record {
  total_supplies = some (pos 500);
  total_borrows = some (pos 100);
  collateral_factor = some (pos 7500);
  liquidation_threshold = some (pos 8500);
  liquidation_bonus = some (pos 500);
  pool_admin = some 1;
  user_deposits = (2, pos 500) ∷ [];
  user_borrows = (3, pos 100) ∷ [];
  user_collateral = (3, pos 50) ∷ [];
  last_accrual = some 10;
  interest_rate = some (pos 500);
  reserve_factor = some (pos 1000);
  total_reserves = some (pos 0);
  pool_paused = some false;
  collateral_asset = some 20;
  collateral_token = some 21;
  price_oracle = some 30;
  oracle_max_age = some 10;
}

-- The second loan is refused: 50 of the collateral at 30 secure 1275 / 10 of the debt.
after_calls :
    (history
      (execute ledger (priced_at (pos 30)))
      (record { store = deployed; tokens = purse })
      calls).store
    ≡ pool
unfolding history execute initialize set_collateral_asset set_collateral_token set_price_oracle
    deposit deposit_collateral borrow shares_of admin_only require_not_paused is_paused
    read_total_supply read_total_borrows read_deposit read_borrow read_collateral
    read_liquidation_threshold read_oracle_max_age pool_asset collateral_token quoted checked_mul
    priced_values ratio read_oracle_price debt_price values health_of calculate_health_factor lookup
    insert fits_i128 ◌+ℤ◌ ◌-ℤ◌ ◌*ℤ◌ ◌/ℤ◌
after_calls = refl

abbrev now : Chain Store Balances
now = record { store = pool; tokens = λ k a. if a == 100 then pos 450 else pos 1000 }

-- At the price 20 the position of 3 can be liquidated.
health_low : get_health_factor (priced_at (pos 20)) env 3 now ≡ ok (pos 8500)
unfolding get_health_factor health_or_zero read_borrow read_collateral read_liquidation_threshold
    read_oracle_max_age pool_asset collateral_token quoted checked_mul priced_values ratio
    read_oracle_price debt_price values health_of calculate_health_factor lookup fits_i128 ◌+ℤ◌ ◌-ℤ◌
    ◌*ℤ◌ ◌/ℤ◌
health_low = refl

-- One deposit, paid out twice: once as collateral that was never moved anywhere, and once as a
-- deposit.
abbrev twice : List (Env × Request)
twice =
    (env, Request.initialize 1 (pos 7500) (pos 8500) (pos 500) (pos 500) (pos 1000))
    ∷ (env, Request.set_collateral_asset 1 20)
    ∷ (env, Request.deposit 2 (pos 500))
    ∷ (env, Request.deposit 4 (pos 100))
    ∷ (env, Request.set_collateral 4 (pos 100))
    ∷ (env, Request.withdraw_collateral 4 (pos 100))
    ∷ (env, Request.withdraw 4 (pos 100))
    ∷ []

paid_twice :
    (history
        (execute ledger (priced_at (pos 30)))
        (record { store = deployed; tokens = purse })
        twice).tokens
      20 4
    ≡ pos 1100
unfolding history execute initialize set_collateral_asset set_collateral deposit withdraw
    withdraw_collateral shares_of admin_only require_not_paused is_paused read_total_supply
    read_total_assets read_total_reserves read_total_borrows read_deposit read_borrow
    read_collateral pool_asset collateral_token health_of calculate_health_factor lookup insert
    fits_i128 ◌+ℤ◌ ◌-ℤ◌ ◌*ℤ◌ ◌/ℤ◌
paid_twice = refl

none_negative : NoneNegative pool
none_negative = (omega arith, tt)

threshold_nonneg : pos 0 ≤ℤ read_liquidation_threshold pool
unfolding read_liquidation_threshold
threshold_nonneg = omega arith

price_of : (oracle asset : ℕ) → Price
price_of oracle asset = record {
  asset = asset;
  price = if asset == 20 then pos 10 else pos 30;
  decimals = 7;
  timestamp = 8;
  confidence = 0;
}

Secured-now : Secured (priced_at (pos 30)) env pool now.tokens 3
unfolding read_borrow read_collateral read_liquidation_threshold read_oracle_max_age pool_asset
    collateral_token lookup ◌*ℤ◌ price_of
Secured-now = inr (
  pos 30,
  pos 10,
  priced 30 (price_of 30 21) (price_of 30 20) refl
      (record { answered = refl; positive = omega arith; past = omega arith; recent = omega arith })
      (record { answered = refl; positive = omega arith; past = omega arith; recent = omega arith })
      refl refl,
  omega arith,
)

execute-Secured_example :
    Returns
      (λ _ c'. Secured (priced_at (pos 30)) env c'.store now.tokens 3)
      (execute ledger (priced_at (pos 30)) env (Request.repay 3 (pos 60)) now)
execute-Secured_example =
    execute-Secured ledger (priced_at (pos 30)) env now none_negative threshold_nonneg 3 Secured-now
      (Request.repay 3 (pos 60)) refl

execute-Accounted_example :
    Returns
      (λ _ c'. Accounted pool (books c'.store) (accrued env pool (Request.repay 3 (pos 60))))
      (execute ledger (priced_at (pos 30)) env (Request.repay 3 (pos 60)) now)
execute-Accounted_example =
    execute-Accounted ledger (priced_at (pos 30)) env now none_negative (Request.repay 3 (pos 60))
      refl

calculate_health_factor-Secured_example :
    Returns
      (λ h c'. (c' ≡ now) × ((pos 10000 ≤ℤ h) ↔ Secured (priced_at (pos 20)) env pool now.tokens 3))
      (calculate_health_factor (priced_at (pos 20)) env 3 now)
calculate_health_factor-Secured_example =
    calculate_health_factor-Secured (priced_at (pos 20)) env 3 now
      (nonneg_borrow pool 3 none_negative)

liquidate-Leaves_example :
    Returns
      (λ _ c'.
        (pos 0 <ℤ pos 40)
        × Exposed (priced_at (pos 20)) env pool now.tokens 3
        × (env.authorized 2 ≡ true)
        × (pos 40 ≤ℤ seized pool 3 (pos 40))
        × (seized pool 3 (pos 40) ≤ℤ read_collateral pool 3)
        × (exchanged ledger env 2 (paid pool 3 (pos 40)) (seized pool 3 (pos 40)) now
            ≡ some c'.tokens)
        × Leaves pool c'.store (record {
          borrows = insert 3 (read_borrow pool 3 -ℤ paid pool 3 (pos 40)) pool.user_borrows;
          collateral =
              insert 3 (read_collateral pool 3 -ℤ seized pool 3 (pos 40)) pool.user_collateral;
          total = read_total_borrows pool -ℤ paid pool 3 (pos 40);
        }))
      (liquidate ledger (priced_at (pos 20)) env 2 3 (pos 40) (pos 40) now)
liquidate-Leaves_example =
    liquidate-Leaves ledger (priced_at (pos 20)) env now (λ u. nonneg_borrow pool u none_negative) 2
      3 (pos 40) (pos 40)

history-NoneNegative_example :
    NoneNegative
      (history
        (execute ledger (priced_at (pos 30)))
        (record { store = deployed; tokens = purse })
        calls).store
history-NoneNegative_example = history-NoneNegative ledger (priced_at (pos 30)) purse calls

free : read_borrow pool 5 ≡ pos 0
unfolding read_borrow lookup
free = refl

empty : read_collateral pool 5 ≡ pos 0
unfolding read_collateral lookup
empty = refl

running : is_paused pool ≡ false
unfolding is_paused
running = refl

fits_zero : fits_i128 (pos 0) ≡ true
unfolding fits_i128
fits_zero = refl

fits_seven : fits_i128 (pos 0 +ℤ pos 7) ≡ true
unfolding fits_i128 ◌+ℤ◌
fits_seven = refl

abbrev with_seven : Balances
with_seven = credit 21 100 (pos 7) (debit 21 5 (pos 7) now.tokens)

abbrev without_seven : Balances
without_seven = credit 21 5 (pos 7) (debit 21 100 (pos 7) with_seven)

paid_in : ledger.transfer (collateral_token env pool) 5 100 (pos 7) now.tokens ≡ some with_seven
unfolding collateral_token pool_asset ◌+ℤ◌ ◌-ℤ◌
paid_in = refl

paid_out : ledger.transfer (collateral_token env pool) 100 5 (pos 7) with_seven ≡ some without_seven
unfolding collateral_token pool_asset ◌+ℤ◌ ◌-ℤ◌
paid_out = refl

deposit_collateral-withdraw_collateral_example :
    (deposit_collateral ledger env 5 (pos 7)
        >> withdraw_collateral ledger (priced_at (pos 30)) env 5 (pos 7))
      now
    ≡ ok (
      tt,
      record { store = with_collateral pool 5 (read_collateral pool 5); tokens = without_seven },
    )
deposit_collateral-withdraw_collateral_example =
    deposit_collateral-withdraw_collateral ledger (priced_at (pos 30)) env 5 (pos 7) now
      (omega arith) running refl with_seven without_seven free (rw empty (omega arith))
      (rw empty fits_zero) (rw empty fits_seven) paid_in paid_out
