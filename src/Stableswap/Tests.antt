-- ===== src/Stableswap/Tests.antt =====
-- Runs of contracts/stableswap/src/lib.rs, and the theorems at inputs that meet their hypotheses.
use suban.Base.{◌≡◌, refl, true, false, some, List, [], ◌∷◌, ◌==◌, arith, inl, if◌then◌else◌}
use suban.Int.{pos, ◌+ℤ◌, ◌-ℤ◌, ◌*ℤ◌, ◌/ℤ◌, ◌≤ℤ◌, ◌<ℤ◌}
use suban.Dict.{lookup, insert, sum_by}
use suban.Host.{Env, ok, err, Returns, history, fits_i128, fits_u128}
use suban.Tokens.{Delivered, Chain, Balances, ledger}
use suban.Stableswap.Store.{
  Store, invalid_fee, read_reserve_a, read_reserve_b, read_total_shares, read_fee_bps,
}
use suban.Stableswap.Curve.{compute_d, compute_y}
use suban.Stableswap.Liquidity.{initialize, set_fee, add_liquidity, remove_liquidity}
use suban.Stableswap.Swap.{swap, sides, get_quote, output_for}
use suban.Stableswap.Books.{IsStable}
use suban.Stableswap.Trades.{Traded, swap-Traded}
use suban.Stableswap.History.{Request, execute, deployed, history-IsStable}

-- The vault is 100, and 9 has not signed.
abbrev env : Env
env = record {
  sequence = 10;
  timestamp = 50;
  current_contract_address = 100;
  authorized = λ a. if a == 9 then false else if a == 100 then false else true;
}

-- Customers have 5,000,000 of each of the tokens 20 and 21.
abbrev funds : Balances
funds k a = if a == 100 then pos 0 else pos 5000000

abbrev calls : List (Env × Request)
calls =
    (env, Request.initialize 1 20 21 100)
    ∷ (env, Request.add_liquidity 2 (pos 1000000) (pos 1000000) (pos 0))
    ∷ (env, Request.set_fee 1 2000)
    ∷ (env, Request.set_fee 1 4)
    ∷ (env, Request.swap 3 20 (pos 100000) (pos 99000))
    ∷ (env, Request.swap 3 22 (pos 100) (pos 0))
    ∷ (env, Request.add_liquidity 3 (pos 50000) (pos 50000) (pos 0))
    ∷ (env, Request.remove_liquidity 2 (pos 1000000) (pos 0) (pos 0))
    ∷ []

abbrev start : Chain Store Balances
start = record { store = deployed; tokens = funds }

abbrev pool : Store
pool = record {
  admin = some 1;
  token_a = some 20;
  token_b = some 21;
  reserve_a = some (pos 602382);
  reserve_b = some (pos 497667);
  total_shares = some (pos 1100001);
  amplification = some 100;
  fee_bps = some 4;
  lp_balance = (2, pos 1000000) ∷ (3, pos 100001) ∷ [];
}

run_calls : (history (execute ledger) start calls).store ≡ pool
unfolding history execute initialize set_fee add_liquidity remove_liquidity swap compute_d
    output_for ◌+ℤ◌ ◌-ℤ◌ ◌*ℤ◌ ◌/ℤ◌ fits_i128 fits_u128 lookup insert
run_calls = refl

abbrev now : Chain Store Balances
now = record { store = pool; tokens = λ k a. if a == 100 then pos 700000 else pos 5000000 }

pool-IsStable : IsStable pool
unfolding sum_by read_reserve_a read_reserve_b read_total_shares read_fee_bps ◌+ℤ◌
pool-IsStable = record {
  has_a = omega arith;
  has_b = omega arith;
  held = (omega arith, (omega arith, tt));
  summed = refl;
  started = inl refl;
  fee_fits = omega arith;
  amplified = omega arith;
}

unknown_token : swap ledger env 3 22 (pos 100) (pos 0) now ≡ err invalid_fee
unfolding swap sides
unknown_token = refl

quote : get_quote 20 (pos 1000) now ≡ ok (pos 999, now)
unfolding get_quote sides output_for compute_y ◌+ℤ◌ ◌-ℤ◌ ◌*ℤ◌ ◌/ℤ◌ fits_i128 fits_u128
quote = refl

history-IsStable_example : IsStable (history (execute ledger) start calls).store
history-IsStable_example = history-IsStable ledger funds calls

swap-Traded_example :
    Returns
      (λ out c'.
        (get_quote 20 (pos 1000) now ≡ ok (out, now))
        × (pos 0 <ℤ pos 1000)
        × (pos 900 ≤ℤ out)
        × Traded 20 (pos 1000) out pool c'.store
        × Delivered ledger 100 3 (some 20) (some 21) 20 (pos 1000) out now.tokens c'.tokens)
      (swap ledger env 3 20 (pos 1000) (pos 900) now)
swap-Traded_example = swap-Traded ledger env now pool-IsStable 3 20 (pos 1000) (pos 900)
