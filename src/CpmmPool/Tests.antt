-- ===== src/CpmmPool/Tests.antt =====
-- Runs of contracts/cpmm-pool/src/lib.rs, and the theorems at inputs that meet their hypotheses.
use suban.Base.{◌≡◌, refl, true, false, some, List, [], ◌∷◌, ◌==◌, arith, inl, if◌then◌else◌}
use suban.Int.{pos, ◌+ℤ◌, ◌-ℤ◌, ◌*ℤ◌, ◌/ℤ◌, ◌≤ℤ◌, ◌<ℤ◌}
use suban.Dict.{lookup, insert, sum_by}
use suban.Host.{Env, ok, err, Returns, history, fits_i128, fits_u128}
use suban.Tokens.{Delivered, Chain, Balances, ledger, ledger-IsLedger}
use suban.CpmmPool.Store.{
  Store, PoolError, invalid_fee, read_reserve_a, read_reserve_b, read_total_shares, read_lp_balance,
  read_fee_bps,
}
use suban.CpmmPool.Isqrt.{isqrt, Finds, isqrt_root}
use suban.CpmmPool.Pricing.{first_shares, proportional_shares, amounts_for, output_for}
use suban.CpmmPool.Liquidity.{initialize, add_liquidity, remove_liquidity}
use suban.CpmmPool.Swap.{swap, sides, get_quote}
use suban.CpmmPool.Shares.{IsSound, issued}
use suban.CpmmPool.Product.{Swaps, swap-Swaps}
use suban.CpmmPool.Deposits.{Deposited, add_liquidity-Deposited}
use suban.CpmmPool.Withdrawals.{Withdrawn, remove_liquidity-Withdrawn}
use suban.CpmmPool.History.{Request, execute, deployed, history-IsSound}
use suban.CpmmPool.Quote.{swap-get_quote}
use suban.CpmmPool.Solvency.{IsCovered, execute-IsCovered}

-- The vault is 100, and 9 has not signed.
abbrev env : Env
env = record {
  sequence = 10;
  timestamp = 50;
  current_contract_address = 100;
  authorized = λ a. if a == 9 then false else if a == 100 then false else true;
}

-- Customers 2 and 3 have 5,000 of each of the tokens 20 and 21.
abbrev funds : Balances
funds k a = if a == 100 then pos 0 else pos 5000

abbrev calls : List (Env × Request)
calls =
    (env, Request.initialize 1 20 21 30)
    ∷ (env, Request.add_liquidity 2 (pos 1000) (pos 4000) (pos 0))
    ∷ (env, Request.add_liquidity 3 (pos 50) (pos 100) (pos 0))
    ∷ (env, Request.swap 3 20 (pos 100) (pos 300))
    ∷ (env, Request.swap 3 22 (pos 100) (pos 0))
    ∷ (env, Request.remove_liquidity 2 (pos 1000) (pos 0) (pos 0))
    ∷ []

abbrev start : Chain Store Balances
start = record { store = deployed; tokens = funds }

abbrev pool : Store
pool = record {
  admin = some 1;
  token_a = some 20;
  token_b = some 21;
  reserve_a = some (pos 590);
  reserve_b = some (pos 1920);
  total_shares = some (pos 1050);
  fee_bps = some 30;
  lp_balance = (2, pos 1000) ∷ (3, pos 50) ∷ [];
}

run_calls : (history (execute ledger) start calls).store ≡ pool
unfolding history execute initialize add_liquidity remove_liquidity swap first_shares
    proportional_shares amounts_for output_for isqrt ◌+ℤ◌ ◌-ℤ◌ ◌*ℤ◌ ◌/ℤ◌ fits_i128 fits_u128 lookup
    insert
run_calls = refl

abbrev now : Chain Store Balances
now = record { store = pool; tokens = λ k a. if a == 100 then pos 2000 else pos 5000 }

pool-IsSound : IsSound pool
unfolding issued sum_by read_reserve_a read_reserve_b read_total_shares read_fee_bps ◌+ℤ◌
pool-IsSound = record {
  has_a = omega arith;
  has_b = omega arith;
  held = (omega arith, (omega arith, tt));
  shared = refl;
  started = inl refl;
  fee_fits = omega arith;
}

now-IsCovered : IsCovered ledger 100 20 21 now
unfolding read_reserve_a read_reserve_b
now-IsCovered = record { pair = (refl, refl); covered_a = omega arith; covered_b = omega arith }

unknown_token : swap ledger env 3 22 (pos 100) (pos 0) now ≡ err invalid_fee
unfolding swap sides
unknown_token = refl

isqrt_root_example : Finds {S = Unit {0}} {E = PoolError} 10 tt (isqrt 10 tt)
isqrt_root_example = isqrt_root 10 tt (omega arith)

swap-Swaps_example :
    Returns
      (λ out c'. (pos 0 <ℤ pos 100) × Swaps 20 (pos 100) (pos 5) pool out c'.store)
      (swap ledger env 3 20 (pos 100) (pos 5) now)
unfolding read_reserve_a read_reserve_b
swap-Swaps_example = swap-Swaps ledger env 3 20 (pos 100) (pos 5) now (omega arith, omega arith)

add_liquidity-Deposited_example :
    Returns
      (λ out c'.
        (pos 0 <ℤ pos 59)
        × (pos 0 <ℤ pos 192)
        × Deposited (pos 59) (pos 192) (pos 100) pool out c'.store)
      (add_liquidity ledger env 3 (pos 59) (pos 192) (pos 100) now)
add_liquidity-Deposited_example =
    add_liquidity-Deposited ledger env 3 (pos 59) (pos 192) (pos 100) now pool-IsSound

remove_liquidity-Withdrawn_example :
    Returns
      (λ out c'.
        (pos 0 <ℤ pos 50)
        × (pos 50 ≤ℤ read_lp_balance pool 3)
        × (pos 20 ≤ℤ out.0)
        × (pos 0 ≤ℤ out.1)
        × Withdrawn (pos 50) pool out c'.store)
      (remove_liquidity ledger env 3 (pos 50) (pos 20) (pos 0) now)
remove_liquidity-Withdrawn_example =
    remove_liquidity-Withdrawn ledger env 3 (pos 50) (pos 20) (pos 0) now pool-IsSound

history-IsSound_example : IsSound (history (execute ledger) start calls).store
history-IsSound_example = history-IsSound ledger funds calls

swap-get_quote_example :
    Returns
      (λ out c'.
        (get_quote 20 (pos 100) now ≡ ok (out, now))
        × Delivered ledger 100 3 (some 20) (some 21) 20 (pos 100) out now.tokens c'.tokens)
      (swap ledger env 3 20 (pos 100) (pos 5) now)
swap-get_quote_example = swap-get_quote ledger env 3 20 (pos 100) (pos 5) now

execute-IsCovered_example :
    Returns
      (λ _ c'. IsCovered ledger 100 20 21 c')
      (execute ledger env (Request.swap 3 20 (pos 100) (pos 5)) now)
execute-IsCovered_example =
    execute-IsCovered ledger ledger-IsLedger env 20 21 (Request.swap 3 20 (pos 100) (pos 5)) now
      (omega arith) refl pool-IsSound now-IsCovered
