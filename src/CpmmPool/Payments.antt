-- ===== src/CpmmPool/Payments.antt =====
-- What each operation of contracts/cpmm-pool/src/lib.rs pays in and out of the vault.
use suban.Base.{ℕ, ◌*◌, ◌||◌, ◌≡◌, ◌⊎◌, some, Bool, true, arith}
use suban.Int.{ℤ, pos, leb_ℤ, ltb_ℤ, ◌==ℤ◌}
use suban.Host.{Env, as_u128, Returns, bind_rule, weaken, fail_if_rule, require_auth_rule}
use suban.Tokens.{Tokens, Chain, Paid}
use suban.CpmmPool.Store.{
  Store, PoolError, zero_amount, insufficient_lp_shares, insufficient_liquidity, read_reserve_a,
  read_reserve_b, read_total_shares, read_lp_balance, read_fee_bps, write_reserve_a,
  write_reserve_b, write_lp_balance, write_total_shares,
}
use suban.CpmmPool.History.{output_for-same}
use suban.CpmmPool.Liquidity.{accept_deposit, pay_out, add_liquidity, remove_liquidity}
use suban.CpmmPool.Isqrt.{isqrt-IsRoot}
use suban.CpmmPool.Pricing.{shares_for, first_shares, proportional_shares, amounts_for}
use suban.CpmmPool.Swap.{sides, exchange, swap}
use suban.CpmmPool.Product.{Sides, sides-Sides}

-- The pair of a pool does not change.
abbrev pub IsPair : ℕ → ℕ → Store → Type 0
IsPair k l s = (s.token_a ≡ some k) × (s.token_b ≡ some l)

shares_for-same :
    {W : Type 0} (a b x y total : ℤ) (c : Chain Store W)
    → Returns (λ out c'. c' ≡ c) (shares_for a b x y total c)
unfolding shares_for first_shares proportional_shares
shares_for-same a b x y total c = ground (arith, isqrt-IsRoot PoolError (as_u128 a * as_u128 b) c)

amounts_for-same :
    {W : Type 0} (n x y total : ℤ) (c : Chain Store W)
    → Returns (λ out c'. c' ≡ c) (amounts_for n x y total c)
unfolding amounts_for
amounts_for-same n x y total c = ground arith

module _ {W : Type 0} (t : Tokens W) (env : Env) (p k l : ℕ) (c : Chain Store W) where
  abbrev pub vault : ℕ
  vault = env.current_contract_address

  accept_deposit-Paid :
      (a b least x y total shares : ℤ)
      → IsPair k l c.store
      → Returns
          (λ out c'. Paid t k p vault a l p vault b c.tokens c'.tokens × IsPair k l c'.store)
          (accept_deposit t env p a b least x y total shares c)
  unfolding accept_deposit write_lp_balance write_reserve_a write_reserve_b write_total_shares
  accept_deposit-Paid a b least x y total shares pair = ground arith

  pay_out-Paid :
      (n least_a least_b held x y total a b : ℤ)
      → IsPair k l c.store
      → Returns
          (λ out c'.
            Paid t k vault p out.0 l vault p out.1 c.tokens c'.tokens × IsPair k l c'.store)
          (pay_out t env p n least_a least_b held x y total (a, b) c)
  unfolding pay_out write_lp_balance write_reserve_a write_reserve_b write_total_shares
  pay_out-Paid n least_a least_b held x y total a b pair = ground arith

  exchange-Paid :
      (d least : ℤ) (r : ℤ × ℤ × ℕ × Bool)
      → IsPair k l c.store
      → (token_in : ℕ)
      → Returns
          (λ out c'.
            Paid t token_in p vault d r.2 vault p out c.tokens c'.tokens × IsPair k l c'.store)
          (exchange t env p token_in d least r c)
  unfolding exchange write_reserve_a write_reserve_b
  exchange-Paid d least r pair token_in =
      ground (arith, output_for-same r.0 r.1 (read_fee_bps c.store) d c)

  pub add_liquidity-Paid :
      (a b least : ℤ)
      → IsPair k l c.store
      → Returns
          (λ out c'.
            (env.authorized p ≡ true)
            × Paid t k p vault a l p vault b c.tokens c'.tokens
            × IsPair k l c'.store)
          (add_liquidity t env p a b least c)
  unfolding add_liquidity
  add_liquidity-Paid a b least pair =
      let s = c.store in
      let Q : ℤ → Chain Store W → Type 0 = λ out c'.
        (env.authorized p ≡ true)
        × Paid t k p vault a l p vault b c.tokens c'.tokens
        × IsPair k l c'.store in
      let finish = λ (shares : ℤ).
        accept_deposit t env p a b least (read_reserve_a s) (read_reserve_b s) (read_total_shares s)
          shares in
      require_auth_rule Q env p _ c (λ signed.
        fail_if_rule Q (leb_ℤ a (pos 0) || leb_ℤ b (pos 0)) zero_amount _ c (λ _.
          bind_rule (λ shares c'. c' ≡ c) Q
            (shares_for a b (read_reserve_a s) (read_reserve_b s) (read_total_shares s) c) finish
            (shares_for-same a b (read_reserve_a s) (read_reserve_b s) (read_total_shares s) c)
            (λ shares c' same. rw same (
              weaken _ Q (finish shares c)
                (accept_deposit-Paid a b least (read_reserve_a s) (read_reserve_b s)
                  (read_total_shares s) shares pair)
                (λ out c'' q. (signed, q.0, q.1))))))

  pub remove_liquidity-Paid :
      (n least_a least_b : ℤ)
      → IsPair k l c.store
      → Returns
          (λ out c'.
            (env.authorized p ≡ true)
            × Paid t k vault p out.0 l vault p out.1 c.tokens c'.tokens
            × IsPair k l c'.store)
          (remove_liquidity t env p n least_a least_b c)
  unfolding remove_liquidity
  remove_liquidity-Paid n least_a least_b pair =
      let s = c.store in
      let Q : ℤ × ℤ → Chain Store W → Type 0 = λ out c'.
        (env.authorized p ≡ true)
        × Paid t k vault p out.0 l vault p out.1 c.tokens c'.tokens
        × IsPair k l c'.store in
      let finish = λ (amounts : ℤ × ℤ).
        pay_out t env p n least_a least_b (read_lp_balance s p) (read_reserve_a s)
          (read_reserve_b s) (read_total_shares s) amounts in
      require_auth_rule Q env p _ c (λ signed.
        fail_if_rule Q (leb_ℤ n (pos 0)) zero_amount _ c (λ _.
          fail_if_rule Q (ltb_ℤ (read_lp_balance s p) n) insufficient_lp_shares _ c (λ _.
            fail_if_rule Q (read_total_shares s ==ℤ pos 0) insufficient_liquidity _ c (λ _.
              bind_rule (λ amounts c'. c' ≡ c) Q
                (amounts_for n (read_reserve_a s) (read_reserve_b s) (read_total_shares s) c) finish
                (amounts_for-same n (read_reserve_a s) (read_reserve_b s) (read_total_shares s) c)
                (λ amounts c' same. rw same (
                  weaken _ Q (finish amounts c)
                    (pay_out-Paid n least_a least_b (read_lp_balance s p) (read_reserve_a s)
                      (read_reserve_b s) (read_total_shares s) amounts.0 amounts.1 pair)
                    (λ out c'' q. (signed, q.0, q.1))))))))

  -- A swap of either token against the other.
  abbrev pub Swapped : ℕ → ℤ → ℤ → W → Type 0
  Swapped token_in d out w' =
      ((token_in ≡ k) × Paid t k p vault d l vault p out c.tokens w')
      ⊎ ((token_in ≡ l) × Paid t l p vault d k vault p out c.tokens w')

  found-Swapped :
      (token_in : ℕ) (d out : ℤ) (r : ℤ × ℤ × ℕ × Bool) (w' : W)
      → IsPair k l c.store
      → Sides token_in c.store r
      → Paid t token_in p vault d r.2 vault p out c.tokens w'
      → Swapped token_in d out w'
  found-Swapped token_in d out r w' pair found paid = ground arith

  pub swap-Paid :
      (token_in : ℕ) (d least : ℤ)
      → IsPair k l c.store
      → Returns
          (λ out c'.
            (env.authorized p ≡ true) × Swapped token_in d out c'.tokens × IsPair k l c'.store)
          (swap t env p token_in d least c)
  unfolding swap
  swap-Paid token_in d least pair =
      let Q : ℤ → Chain Store W → Type 0 = λ out c'.
        (env.authorized p ≡ true) × Swapped token_in d out c'.tokens × IsPair k l c'.store in
      require_auth_rule Q env p _ c (λ signed.
        fail_if_rule Q (leb_ℤ d (pos 0)) zero_amount _ c (λ _.
          bind_rule (λ r c'. (c' ≡ c) × Sides token_in c.store r) Q (sides token_in c)
            (λ r. exchange t env p token_in d least r) (sides-Sides token_in c)
            (λ r c' q. rw q.0 (
              weaken _ Q (exchange t env p token_in d least r c)
                (exchange-Paid d least r pair token_in)
                (λ out c'' h.
                  (signed, found-Swapped token_in d out r c''.tokens pair q.1 h.0, h.1))))))
