-- ===== src/Stableswap/Trades.antt =====
-- What a swap in contracts/stableswap/src/lib.rs does, and its quote.
use suban.Base.{
  inl, inr, ◌∙◌, ℕ, ◌≡◌, ◌⊎◌, arith, refl, Bool, true, false, some, ◌||◌, if◌then◌else◌,
}
use suban.Int.{ℤ, pos, ◌+ℤ◌, ◌-ℤ◌, ◌≤ℤ◌, ◌<ℤ◌, leb_ℤ, ltb_ℤ, ◌==ℤ◌}
use suban.Host.{
  Env, Outcome, ok, err, panic, Returns, bind_rule, weaken, fail_if_rule, require_auth_rule,
}
use suban.Tokens.{Tokens, Chain, Paid, AreTraded, Delivered}
use suban.Stableswap.Store.{
  Store, zero_amount, slippage_exceeded, insufficient_liquidity, read_reserve_a, read_reserve_b,
  write_reserve_a, write_reserve_b,
}
use suban.Stableswap.Swap.{sides, output_for, settle_swap, exchange, swap, get_quote}
use suban.Stableswap.Amounts.{output_for-le}
use suban.Stableswap.Books.{IsStable}

not_below : (a b : ℤ) → ltb_ℤ a b ≡ false → b ≤ℤ a
not_below a b h = ground arith

not_at_most : (a b : ℤ) → leb_ℤ a b ≡ false → b <ℤ a
not_at_most a b h = ground arith

-- A call that leaves the storage alone returns what it returns.
itself :
    {S E A : Type 0} (P : A → Type 0) (s : S) (o : Outcome E (A × S))
    → Returns (λ a s'. (s' ≡ s) × P a) o
    → Returns (λ a s'. (s' ≡ s) × P a × (o ≡ ok (a, s))) o
itself P s (ok (a, s')) h = rw h.0 (refl, h.1, refl)
itself P s (err e) h = tt
itself P s panic h = tt

-- The reserves as the token going in sees them.
abbrev Sides : ℕ → Store → ℤ × ℤ × ℕ × Bool → Type 0
Sides token_in s r =
    ((s.token_a ≡ some token_in)
      × (r.0 ≡ read_reserve_a s)
      × (r.1 ≡ read_reserve_b s)
      × (r.3 ≡ false)
      × (s.token_b ≡ some r.2))
    ⊎ ((s.token_b ≡ some token_in)
        × (r.0 ≡ read_reserve_b s)
        × (r.1 ≡ read_reserve_a s)
        × (r.3 ≡ true)
        × (s.token_a ≡ some r.2))

-- The storage after a swap: the amount goes into one reserve, and the output leaves the other.
abbrev pub Traded : ℕ → (amount out : ℤ) → Store → Store → Type 0
Traded token_in amount out s s' =
    ((s.token_a ≡ some token_in)
      × (out ≤ℤ read_reserve_b s)
      × (s' ≡ record s {
        reserve_a = some (read_reserve_a s +ℤ amount);
        reserve_b = some (read_reserve_b s -ℤ out);
      }))
    ⊎ ((s.token_b ≡ some token_in)
        × (out ≤ℤ read_reserve_a s)
        × (s' ≡ record s {
          reserve_a = some (read_reserve_a s -ℤ out);
          reserve_b = some (read_reserve_b s +ℤ amount);
        }))

module _ {W : Type 0} (t : Tokens W) (env : Env) (c : Chain Store W) (v : IsStable c.store) where
  abbrev s : Store
  s = c.store

  sides-Sides : (k : ℕ) → Returns (λ r c'. (c' ≡ c) × Sides k s r) (sides k c)
  unfolding sides
  sides-Sides k = ground arith

  -- The storage with the output taken out of one reserve, and the amount put into the other.
  abbrev settled_store : ℤ × ℤ × ℕ × Bool → (d out : ℤ) → Store
  settled_store r d out = record s {
    reserve_a = some (if r.3 then r.1 -ℤ out else r.0 +ℤ d);
    reserve_b = some (if r.3 then r.0 +ℤ d else r.1 -ℤ out);
  }

  settle_swap-stored :
      (trader k : ℕ) (r : ℤ × ℤ × ℕ × Bool) (d out : ℤ)
      → Returns
          (λ n c'.
            (n ≡ out)
            × (c'.store ≡ settled_store r d out)
            × Paid t k trader env.current_contract_address d r.2 env.current_contract_address trader
                out c.tokens c'.tokens)
          (settle_swap t env trader k r.2 r.3 r.0 r.1 d out c)
  unfolding settle_swap write_reserve_a write_reserve_b
  settle_swap-stored trader k r d out = ground arith

  abbrev Settled : (trader k : ℕ) → ℤ × ℤ × ℕ × Bool → (d least out : ℤ) → Chain Store W → Type 0
  Settled trader k r d least out c' =
      ((r.0 ==ℤ pos 0 || r.1 ==ℤ pos 0) ≡ false)
      × (output_for r.0 r.1 d c ≡ ok (out, c))
      × (least ≤ℤ out)
      × (out ≤ℤ r.1)
      × (c'.store ≡ settled_store r d out)
      × Paid t k trader env.current_contract_address d r.2 env.current_contract_address trader out
          c.tokens c'.tokens

  exchange-Settled :
      (trader k : ℕ) (d least : ℤ) (r : ℤ × ℤ × ℕ × Bool)
      → pos 0 ≤ℤ r.1
      → Returns (Settled trader k r d least) (exchange t env trader k d least r c)
  unfolding exchange
  exchange-Settled trader k d least r low =
      let fee = v.fee_fits in
      let Q : ℤ → Chain Store W → Type 0 = Settled trader k r d least in
      fail_if_rule Q (r.0 ==ℤ pos 0 || r.1 ==ℤ pos 0) insufficient_liquidity _ c (λ some_reserves.
        bind_rule (λ out c'. (c' ≡ c) × (out ≤ℤ r.1) × (output_for r.0 r.1 d c ≡ ok (out, c))) Q
          (output_for r.0 r.1 d c) _
          (itself (λ out. out ≤ℤ r.1) c (output_for r.0 r.1 d c)
            (output_for-le c r.0 r.1 d low (omega (arith, fee)) v.amplified))
          (λ out c' f. rw f.0 (
            fail_if_rule Q (ltb_ℤ out least) slippage_exceeded _ c (λ enough.
              weaken _ Q (settle_swap t env trader k r.2 r.3 r.0 r.1 d out c)
                (settle_swap-stored trader k r d out)
                (λ n c'' e.
                  rw e.0 (some_reserves, f.2, not_below out least enough, f.1, e.1, e.2))))))

  traded :
      (k : ℕ) (d out : ℤ) (r : ℤ × ℤ × ℕ × Bool) (s' : Store)
      → Sides k s r
      → out ≤ℤ r.1
      → s' ≡ settled_store r d out
      → Traded k d out s s'
  traded k d out r s' found h e = elim found [
    | inl (p, x, y, q, _) ↦ inl (p, rw (← y) h, e ∙ rw (x, y, q) refl)
    | inr (p, x, y, q, _) ↦ inr (p, rw (← y) h, e ∙ rw (x, y, q) refl)
  ]

  Sides-AreTraded :
      (k : ℕ) (r : ℤ × ℤ × ℕ × Bool) → Sides k s r → AreTraded s.token_a s.token_b k r.2
  Sides-AreTraded k r found = elim found [
    | inl (p, _, _, _, q) ↦ inl (p, q)
    | inr (p, _, _, _, q) ↦ inr (p, q)
  ]

  sides-nonneg : (k : ℕ) (r : ℤ × ℤ × ℕ × Bool) → Sides k s r → pos 0 ≤ℤ r.1
  sides-nonneg k r found = elim found [
    | inl (p, x, y, q, _) ↦ rw y v.has_b
    | inr (p, x, y, q, _) ↦ rw y v.has_a
  ]

  quote-of-output :
      (k : ℕ) (d out : ℤ) (r : ℤ × ℤ × ℕ × Bool)
      → sides k c ≡ ok (r, c)
      → (r.0 ==ℤ pos 0 || r.1 ==ℤ pos 0) ≡ false
      → output_for r.0 r.1 d c ≡ ok (out, c)
      → get_quote k d c ≡ ok (out, c)
  unfolding get_quote
  quote-of-output k d out r e n q = ground arith

  -- On a pool in order: a swap that returns is of a positive amount, and its output is exactly what
  -- `get_quote` answers for the same token and amount just before it, at least the minimum and at most
  -- the reserve of the token going out. The amount goes into the one reserve and the output leaves the
  -- other, and nothing else of the storage changes; the same amount is transferred from the trader to
  -- the vault, and then the output, in the other token, from the vault to the trader.
  pub swap-Traded :
      (trader k : ℕ) (d least : ℤ)
      → Returns
          (λ out c'.
            (get_quote k d c ≡ ok (out, c))
            × (pos 0 <ℤ d)
            × (least ≤ℤ out)
            × Traded k d out s c'.store
            × Delivered t env.current_contract_address trader s.token_a s.token_b k d out c.tokens
                c'.tokens)
          (swap t env trader k d least c)
  unfolding swap
  swap-Traded trader k d least =
      let Q : ℤ → Chain Store W → Type 0 = λ out c'.
        (get_quote k d c ≡ ok (out, c))
        × (pos 0 <ℤ d)
        × (least ≤ℤ out)
        × Traded k d out s c'.store
        × Delivered t env.current_contract_address trader s.token_a s.token_b k d out c.tokens
            c'.tokens in
      require_auth_rule Q env trader _ c (λ _.
        fail_if_rule Q (leb_ℤ d (pos 0)) zero_amount _ c (λ sign.
          bind_rule _ Q (sides k c) (λ r. exchange t env trader k d least r)
            (itself (Sides k s) c (sides k c) (sides-Sides k))
            (λ r c' f. rw f.0 (
              weaken _ Q (exchange t env trader k d least r c)
                (exchange-Settled trader k d least r (sides-nonneg k r f.1))
                (λ out c'' e. (
                  quote-of-output k d out r f.2 e.0 e.1,
                  not_at_most d (pos 0) sign,
                  e.2,
                  traded k d out r c''.store f.1 e.3 e.4,
                  (r.2, Sides-AreTraded k r f.1, e.5),
                ))))))
