-- ===== src/CpmmPool/Quote.antt =====
-- `get_quote` of contracts/cpmm-pool/src/lib.rs against `swap`.
use suban.Base.{ℕ, ◌≡◌, arith, Bool, false, ◌||◌}
use suban.Int.{ℤ, pos, leb_ℤ, ◌==ℤ◌}
use suban.Host.{Env, ok, Returns, bind_rule, weaken, fail_if_rule, require_auth_rule}
use suban.Tokens.{Tokens, Chain, Paid, AreTraded, Delivered}
use suban.CpmmPool.Store.{Store, zero_amount, read_fee_bps, write_reserve_a, write_reserve_b}
use suban.CpmmPool.Pricing.{output_for}
use suban.CpmmPool.Swap.{sides, exchange, swap, get_quote}
use suban.CpmmPool.History.{output_for-same}

sides-ok :
    {W : Type 0} (token_in : ℕ) (c : Chain Store W)
    → Returns
        (λ r c'.
          (c' ≡ c)
          × (sides token_in c ≡ ok (r, c))
          × AreTraded c.store.token_a c.store.token_b token_in r.2)
        (sides token_in c)
unfolding sides
sides-ok token_in c = ground arith

exchange-output :
    {W : Type 0} (t : Tokens W) (env : Env) (trader token_in : ℕ) (d least : ℤ)
    (r : ℤ × ℤ × ℕ × Bool) (c : Chain Store W)
    → Returns
        (λ out c'.
          ((r.0 ==ℤ pos 0 || r.1 ==ℤ pos 0) ≡ false)
          × (output_for r.0 r.1 (read_fee_bps c.store) d c ≡ ok (out, c))
          × Paid t token_in trader env.current_contract_address d r.2 env.current_contract_address
              trader out c.tokens c'.tokens)
        (exchange t env trader token_in d least r c)
unfolding exchange write_reserve_a write_reserve_b
exchange-output t env trader token_in d least r c =
    ground (arith, output_for-same r.0 r.1 (read_fee_bps c.store) d c)

quote-of-output :
    {W : Type 0} (token_in : ℕ) (d out : ℤ) (r : ℤ × ℤ × ℕ × Bool) (c : Chain Store W)
    → sides token_in c ≡ ok (r, c)
    → (r.0 ==ℤ pos 0 || r.1 ==ℤ pos 0) ≡ false
    → output_for r.0 r.1 (read_fee_bps c.store) d c ≡ ok (out, c)
    → get_quote token_in d c ≡ ok (out, c)
unfolding get_quote
quote-of-output token_in d out r c e n q = ground arith

-- A swap that returns transfers the amount from the trader to the vault, and then exactly what
-- `get_quote` answers for the same token and amount just before it, of the pool's other token, from the
-- vault to the trader, and makes no other transfer; the query changes nothing.
pub swap-get_quote :
    {W : Type 0} (t : Tokens W) (env : Env) (trader token_in : ℕ) (d least : ℤ) (c : Chain Store W)
    → Returns
        (λ out c'.
          (get_quote token_in d c ≡ ok (out, c))
          × Delivered t env.current_contract_address trader c.store.token_a c.store.token_b token_in
              d out c.tokens c'.tokens)
        (swap t env trader token_in d least c)
unfolding swap
swap-get_quote {W} t env trader token_in d least c =
    let Q : ℤ → Chain Store W → Type 0 = λ out c'.
      (get_quote token_in d c ≡ ok (out, c))
      × Delivered t env.current_contract_address trader c.store.token_a c.store.token_b token_in d
          out c.tokens c'.tokens in
    require_auth_rule Q env trader _ c (λ _. fail_if_rule Q (leb_ℤ d (pos 0)) zero_amount _ c (λ _.
      bind_rule _ Q (sides token_in c) (λ r. exchange t env trader token_in d least r)
        (sides-ok token_in c)
        (λ r c' p. rw p.0 (
          weaken _ Q (exchange t env trader token_in d least r c)
            (exchange-output t env trader token_in d least r c)
            (λ out c'' q. (quote-of-output token_in d out r c p.1 q.0 q.1, (r.2, p.2, q.2)))))))
