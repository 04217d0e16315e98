-- ===== src/Stableswap/History.antt =====
-- The requests that contracts/stableswap/src/lib.rs takes, and its books under any history of them.
use suban.Base.{ℕ, refl, sym, arith, none, inr, List, [], inl}
use mathlib.Core.Path.{subst}
use suban.Int.{ℤ, pos, ◌<ℤ◌, int_laws}
use suban.Dict.{sum_by}
use suban.Host.{Env, ◌>>◌, pure, Returns, weaken, history, history_lem}
use suban.Tokens.{Tokens, Chain}
use suban.Stableswap.Store.{
  Store, Action, read_reserve_a, read_reserve_b, read_total_shares, read_fee_bps,
}
use suban.Stableswap.Liquidity
use suban.Stableswap.Swap
use suban.Stableswap.Books.{IsStable, add_liquidity-IsStable, remove_liquidity-IsStable}
use suban.Stableswap.Trades.{Traded, swap-Traded}

pub data Request : Type 0 where
  initialize : (admin token_a token_b amplification : ℕ) → Request
  set_fee : (admin fee_bps : ℕ) → Request
  add_liquidity : (provider : ℕ) → (amount_a amount_b min_shares_out : ℤ) → Request
  remove_liquidity : (provider : ℕ) → (shares_in min_a_out min_b_out : ℤ) → Request
  swap : (trader token_in : ℕ) → (amount_in min_amount_out : ℤ) → Request

-- The storage before the first call.
abbrev pub deployed : Store
deployed = record {
  admin = none;
  token_a = none;
  token_b = none;
  reserve_a = none;
  reserve_b = none;
  total_shares = none;
  amplification = none;
  fee_bps = none;
  lp_balance = [];
}

Traded-IsStable :
    (k : ℕ) (d out : ℤ) (s s' : Store) → IsStable s → pos 0 <ℤ d → Traded k d out s s' → IsStable s'
unfolding read_reserve_a read_reserve_b read_total_shares read_fee_bps
Traded-IsStable k d out s s' v p h = elim h [
  | inl (_, le, e) ↦ subst IsStable (sym e) (
      let a = v.has_a in
      record {
        has_a = omega (int_laws, a, p);
        has_b = omega (int_laws, le);
        held = v.held;
        summed = v.summed;
        started = v.started;
        fee_fits = v.fee_fits;
        amplified = v.amplified;
      })
  | inr (_, le, e) ↦ subst IsStable (sym e) (
      let b = v.has_b in
      record {
        has_a = omega (int_laws, le);
        has_b = omega (int_laws, b, p);
        held = v.held;
        summed = v.summed;
        started = v.started;
        fee_fits = v.fee_fits;
        amplified = v.amplified;
      })
]

module _ {W : Type 0} (t : Tokens W) where
  unfoldable pub execute : Env → Request → Action W (Unit {0})
  execute env (initialize admin token_a token_b amp) =
      Liquidity.initialize env admin token_a token_b amp
  execute env (set_fee admin fee_bps) = Liquidity.set_fee env admin fee_bps
  execute env (add_liquidity provider a b least) =
      Liquidity.add_liquidity t env provider a b least >> pure tt
  execute env (remove_liquidity provider n least_a least_b) =
      Liquidity.remove_liquidity t env provider n least_a least_b >> pure tt
  execute env (swap trader token_in d least) = Swap.swap t env trader token_in d least >> pure tt

  abbrev Stable : Chain Store W → Type 0
  Stable c = IsStable c.store

  initialize-IsStable :
      (env : Env) (a k k' amp : ℕ) (c : Chain Store W)
      → Stable c
      → Returns (λ _ c'. Stable c') (Liquidity.initialize {W = W} env a k k' amp c)
  unfolding Liquidity.initialize read_reserve_a read_reserve_b read_total_shares read_fee_bps
  initialize-IsStable env a k k' amp c v = ground (arith, v)

  set_fee-IsStable :
      (env : Env) (a fee : ℕ) (c : Chain Store W)
      → Stable c
      → Returns (λ _ c'. Stable c') (Liquidity.set_fee {W = W} env a fee c)
  unfolding Liquidity.set_fee read_reserve_a read_reserve_b read_total_shares read_fee_bps
  set_fee-IsStable env a fee c v = ground (arith, v)

  swap-IsStable :
      (env : Env) (trader k : ℕ) (d least : ℤ) (c : Chain Store W)
      → Stable c
      → Returns (λ _ c'. Stable c') (Swap.swap t env trader k d least c)
  swap-IsStable env trader k d least c v =
      weaken _ _ (Swap.swap t env trader k d least c) (swap-Traded t env c v trader k d least)
        (λ out c' e. Traded-IsStable k d out c.store c'.store v e.1 e.3)

  execute-IsStable :
      (env : Env) (r : Request) (c : Chain Store W)
      → Stable c
      → Returns (λ _ c'. Stable c') (execute env r c)
  unfolding execute
  execute-IsStable env (initialize a k k' amp) c v = initialize-IsStable env a k k' amp c v
  execute-IsStable env (set_fee a fee) c v = set_fee-IsStable env a fee c v
  execute-IsStable env (add_liquidity p a b least) c v =
      ground (arith, add_liquidity-IsStable t env c v p a b least)
  execute-IsStable env (remove_liquidity p n least_a least_b) c v =
      ground (arith, remove_liquidity-IsStable t env c v p n least_a least_b)
  execute-IsStable env (swap trader k d least) c v =
      ground (arith, swap-IsStable env trader k d least c v)

  -- Whatever calls a newly deployed pool receives, with whatever tokens behind it, in whatever order
  -- and whichever of them fail: the reserves are at least zero, no provider's shares are below zero,
  -- they add up to the total, the fee is at most a tenth and the amplification is positive, and there
  -- are no shares before `initialize`.
  pub history-IsStable :
      (w : W) (calls : List (Env × Request))
      → IsStable (history execute (record { store = deployed; tokens = w }) calls).store
  unfolding read_reserve_a read_reserve_b read_total_shares read_fee_bps sum_by
  history-IsStable w calls =
      history_lem execute Stable execute-IsStable calls (record { store = deployed; tokens = w })
        (record {
          has_a = omega arith;
          has_b = omega arith;
          held = tt;
          summed = refl;
          started = inr (refl, refl);
          fee_fits = omega arith;
          amplified = omega arith;
        })
