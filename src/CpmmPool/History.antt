-- ===== src/CpmmPool/History.antt =====
-- The requests that a client can send to contracts/cpmm-pool/src/lib.rs, the books under any
-- history of them, and the quote against the swap.
use suban.Base.{ℕ, ◌≡◌, refl, none, [], List, Bool, arith, inr}
use suban.Int.{ℤ, pos, ◌<ℤ◌, leb_ℤ}
use suban.Dict.{sum_by}
use suban.Host.{
  Env, ok, Returns, bind_rule, weaken, both, fail_if_rule, require_auth_rule, ◌>>◌, pure, history,
  history_lem,
}
use suban.Tokens.{Tokens, Chain}
use suban.CpmmPool.Store.{
  Store, Action, zero_amount, read_reserve_a, read_reserve_b, read_total_shares, read_fee_bps,
  write_reserve_a, write_reserve_b,
}
use suban.CpmmPool.Pricing.{output_for}
use suban.CpmmPool.Liquidity
use suban.CpmmPool.Liquidity.{accept_deposit}
use suban.CpmmPool.Swap
use suban.CpmmPool.Swap.{sides, exchange, get_quote}
use suban.CpmmPool.Shares.{IsSound, issued}
use suban.CpmmPool.Deposits.{Deposited, add_liquidity-Deposited}
use suban.CpmmPool.Withdrawals.{remove_liquidity-Withdrawn}
use suban.CpmmPool.Product.{Sides, sides-Sides, Swaps, HasReserves, swap-Swaps}

pub data Request : Type 0 where
  initialize : (admin token_a token_b fee_bps : ℕ) → Request
  add_liquidity : ℕ → (amount_a amount_b min_shares_out : ℤ) → Request
  remove_liquidity : ℕ → (shares_in min_a_out min_b_out : ℤ) → Request
  swap : (trader token_in : ℕ) → (amount_in min_amount_out : ℤ) → Request

-- The storage before the first call.
abbrev pub deployed : Store
deployed = record {
  admin = none;
  token_a = none;
  token_b = none;
  reserve_a = none;
  reserve_b = none;
  total_shares = none;
  fee_bps = none;
  lp_balance = [];
}

-- What a swap leaves alone.
abbrev SameBooks : Store → Store → Type 0
SameBooks s s' =
    (s'.lp_balance ≡ s.lp_balance)
    × (s'.total_shares ≡ s.total_shares)
    × (s'.admin ≡ s.admin)
    × (s'.token_a ≡ s.token_a)
    × (s'.fee_bps ≡ s.fee_bps)

-- Pricing changes nothing.
pub output_for-same :
    {W : Type 0} (x y : ℤ) (f : ℕ) (d : ℤ) (c : Chain Store W)
    → Returns (λ out c'. (c' ≡ c) × (output_for x y f d c ≡ ok (out, c))) (output_for x y f d c)
unfolding output_for
output_for-same x y f d c = ground arith

pub exchange-SameBooks :
    {W : Type 0} (t : Tokens W) (env : Env) (trader token_in : ℕ) (d least : ℤ)
    (r : ℤ × ℤ × ℕ × Bool) (c : Chain Store W)
    → Returns (λ out c'. SameBooks c.store c'.store) (exchange t env trader token_in d least r c)
unfolding exchange write_reserve_a write_reserve_b
exchange-SameBooks t env trader token_in d least r c =
    ground (arith, output_for-same r.0 r.1 (read_fee_bps c.store) d c)

swap-SameBooks :
    {W : Type 0} (t : Tokens W) (env : Env) (trader token_in : ℕ) (d least : ℤ) (c : Chain Store W)
    → Returns (λ out c'. SameBooks c.store c'.store) (Swap.swap t env trader token_in d least c)
unfolding Swap.swap
swap-SameBooks {W} t env trader token_in d least c =
    let Q : ℤ → Chain Store W → Type 0 = λ out c'. SameBooks c.store c'.store in
    require_auth_rule Q env trader _ c (λ _. fail_if_rule Q (leb_ℤ d (pos 0)) zero_amount _ c (λ _.
      bind_rule (λ r c'. (c' ≡ c) × Sides token_in c.store r) Q (sides token_in c)
        (λ r. exchange t env trader token_in d least r) (sides-Sides token_in c)
        (λ r c' p. rw p.0 (exchange-SameBooks t env trader token_in d least r c))))

same-IsSound : (s s' : Store) → IsSound s → SameBooks s s' → HasReserves s' → IsSound s'
unfolding issued read_total_shares read_fee_bps
same-IsSound s s' v e h = record {
  has_a = h.0;
  has_b = h.1;
  held = rw e.0 v.held;
  shared = rw (e.0, e.1) v.shared;
  started = rw (e.0, e.2, e.3) v.started;
  fee_fits = rw e.4 v.fee_fits;
}

module _ {W : Type 0} (t : Tokens W) where
  unfoldable pub execute : Env → Request → Action W (Unit {0})
  execute env (initialize admin token_a token_b fee_bps) =
      Liquidity.initialize env admin token_a token_b fee_bps
  execute env (add_liquidity provider amount_a amount_b min_shares_out) =
      Liquidity.add_liquidity t env provider amount_a amount_b min_shares_out >> pure tt
  execute env (remove_liquidity provider shares_in min_a_out min_b_out) =
      Liquidity.remove_liquidity t env provider shares_in min_a_out min_b_out >> pure tt
  execute env (swap trader token_in amount_in min_amount_out) =
      Swap.swap t env trader token_in amount_in min_amount_out >> pure tt

  abbrev Sound : Chain Store W → Type 0
  Sound c = IsSound c.store

  initialize-IsSound :
      (env : Env) (admin token_a token_b fee_bps : ℕ) (c : Chain Store W)
      → Sound c
      → Returns
          (λ _ c'. Sound c')
          (Liquidity.initialize {W = W} env admin token_a token_b fee_bps c)
  unfolding Liquidity.initialize read_reserve_a read_reserve_b read_total_shares read_fee_bps issued
  initialize-IsSound env admin token_a token_b fee_bps c v = ground arith

  add_liquidity-IsSound :
      (env : Env) (p : ℕ) (a b least : ℤ) (c : Chain Store W)
      → Sound c
      → Returns (λ _ c'. Sound c') (Liquidity.add_liquidity t env p a b least c)
  add_liquidity-IsSound env p a b least c v =
      weaken (λ out c'. (pos 0 <ℤ a) × (pos 0 <ℤ b) × Deposited a b least c.store out c'.store)
        (λ _ c'. Sound c') _ (add_liquidity-Deposited t env p a b least c v) (λ out c' d. d.2.sound)

  remove_liquidity-IsSound :
      (env : Env) (p : ℕ) (n least_a least_b : ℤ) (c : Chain Store W)
      → Sound c
      → Returns (λ _ c'. Sound c') (Liquidity.remove_liquidity t env p n least_a least_b c)
  remove_liquidity-IsSound env p n least_a least_b c v =
      ground (arith, remove_liquidity-Withdrawn t env p n least_a least_b c v)

  swap-IsSound :
      (env : Env) (trader token_in : ℕ) (d least : ℤ) (c : Chain Store W)
      → Sound c
      → Returns (λ _ c'. Sound c') (Swap.swap t env trader token_in d least c)
  swap-IsSound env trader token_in d least c v =
      let P : ℤ → Chain Store W → Type 0 =
        λ out c'. (pos 0 <ℤ d) × Swaps token_in d least c.store out c'.store in
      let Q : ℤ → Chain Store W → Type 0 = λ out c'. SameBooks c.store c'.store in
      let o = Swap.swap t env trader token_in d least c in
      weaken (λ out c'. P out c' × Q out c') (λ _ c'. Sound c') o
        (both P Q o (swap-Swaps t env trader token_in d least c (v.has_a, v.has_b))
          (swap-SameBooks t env trader token_in d least c))
        (λ out c' e. same-IsSound c.store c'.store v e.1 e.0.1.3)

  execute-IsSound :
      (env : Env) (r : Request) (c : Chain Store W)
      → Sound c
      → Returns (λ _ c'. Sound c') (execute env r c)
  unfolding execute
  execute-IsSound env (initialize admin token_a token_b fee_bps) c v =
      initialize-IsSound env admin token_a token_b fee_bps c v
  execute-IsSound env (add_liquidity p a b least) c v =
      ground (arith, add_liquidity-IsSound env p a b least c v)
  execute-IsSound env (remove_liquidity p n least_a least_b) c v =
      ground (arith, remove_liquidity-IsSound env p n least_a least_b c v)
  execute-IsSound env (swap trader token_in d least) c v =
      ground (arith, swap-IsSound env trader token_in d least c v)

deployed-IsSound : IsSound deployed
unfolding read_reserve_a read_reserve_b read_total_shares read_fee_bps issued sum_by
deployed-IsSound = record {
  has_a = omega arith;
  has_b = omega arith;
  held = tt;
  shared = refl;
  started = inr (refl, refl);
  fee_fits = omega arith;
}

-- Whatever calls a newly deployed pool receives, with whatever tokens behind it, in whatever order and
-- whichever of them fail: the reserves are at least zero, no provider's shares are below zero, they add
-- up to the total, the fee is at most a tenth, and there are shares only after `initialize`.
pub history-IsSound :
    {W : Type 0} (t : Tokens W) (w : W) (calls : List (Env × Request))
    → IsSound (history (execute t) (record { store = deployed; tokens = w }) calls).store
history-IsSound t w calls =
    history_lem (execute t) (λ c. IsSound c.store) (execute-IsSound t) calls
      (record { store = deployed; tokens = w }) deployed-IsSound
