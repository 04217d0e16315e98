-- ===== src/LendingPool/Values.antt =====
-- The values of collateral and debt behind a health factor in contracts/lending-pool/src/lib.rs.
use suban.Base.{ℕ, ◌-◌, ◌≤◌, ◌≡◌, refl, arith, Bool, true, false, Option, none, some, ◌==◌, ==→eq}
use suban.Int.{ℤ, pos, ◌*ℤ◌, ◌<ℤ◌}
use suban.Int.Order.{*ℤ_one}
use suban.Host.{Env, Outcome, ok, err, panic, Returns, bind_rule, weaken}
use suban.Tokens.{Chain}
use suban.Hub.Errors.{HubError}
use suban.Hub.Types.{Price}
use suban.LendingPool.Store.{Store, read_oracle_max_age, pool_asset, collateral_token}
use suban.LendingPool.Health.{
  Oracle, quoted, checked_mul, priced_values, read_oracle_price, debt_price, values,
}
use suban.LendingPool.Rates.{IsFresh, Rates, priced, alike}

module _ {W : Type 0} (oracles : Oracle W) (env : Env) where
  quoted_answer :
      (x : Outcome HubError Price) (c : Chain Store W)
      → Returns (λ p c'. (c' ≡ c) × (x ≡ ok p)) (quoted x c)
  unfolding quoted
  quoted_answer (ok p) c = (refl, refl)
  quoted_answer (err e) c = tt
  quoted_answer panic c = tt

  -- The checks on a price, with their outcome.
  read_oracle_price-checked :
      (o a : ℕ) (c : Chain Store W)
      → Returns
          (λ p c'.
            (c' ≡ c)
            × (oracles o a c.tokens ≡ ok p)
            × (pos 0 <ℤ p.price)
            × (p.timestamp ≤ env.sequence)
            × (env.sequence - p.timestamp ≤ read_oracle_max_age c.store))
          (read_oracle_price oracles env o a c)
  unfolding read_oracle_price
  read_oracle_price-checked o a c = ground (arith, quoted_answer (oracles o a c.tokens) c)

  read_oracle_price-IsFresh :
      (o a : ℕ) (c : Chain Store W)
      → Returns
          (λ p c'. (c' ≡ c) × IsFresh oracles env c.store c.tokens o a p)
          (read_oracle_price oracles env o a c)
  read_oracle_price-IsFresh o a c =
      weaken _ _ (read_oracle_price oracles env o a c) (read_oracle_price-checked o a c)
        (λ p c' f. (f.0, record { answered = f.1; positive = f.2; past = f.3; recent = f.4 }))

  debt_price-IsFresh :
      (o a : ℕ) (same : Bool) (p : Price) (c : Chain Store W)
      → (same ≡ true → IsFresh oracles env c.store c.tokens o a p)
      → Returns
          (λ q c'. (c' ≡ c) × IsFresh oracles env c.store c.tokens o a q)
          (debt_price oracles env o a same p c)
  unfolding debt_price
  debt_price-IsFresh o a true p c h = (refl, h refl)
  debt_price-IsFresh o a false p c h = read_oracle_price-IsFresh o a c

  -- Values of a position at some rates.
  abbrev pub Valued : Store → W → (collateral borrow threshold : ℤ) → ℤ × ℤ → Type 0
  Valued s w collateral borrow threshold v =
      (c d : ℤ) × Rates oracles env s w c d
      × (v.0 ≡ collateral *ℤ c *ℤ threshold)
      × (v.1 ≡ borrow *ℤ d *ℤ pos 10000)

  priced_values_lem :
      (p q : Price) (collateral borrow threshold : ℤ) (c : Chain Store W)
      → Returns
          (λ v c'.
            (c' ≡ c)
            × (v.0 ≡ collateral *ℤ p.price *ℤ threshold)
            × (v.1 ≡ borrow *ℤ q.price *ℤ pos 10000))
          (priced_values p q collateral borrow threshold c)
  unfolding priced_values checked_mul
  priced_values_lem p q collateral borrow threshold c = ground arith

  priced-Valued :
      (c : Chain Store W) (o : ℕ) (collateral borrow threshold : ℤ)
      → c.store.price_oracle ≡ some o
      → Returns
          (λ v c'. (c' ≡ c) × Valued c.store c.tokens collateral borrow threshold v)
          (values oracles env
            (some o)
            (collateral_token env c.store)
            (pool_asset env c.store)
            collateral
            borrow
            threshold
            c)
  unfolding values
  priced-Valued c o collateral borrow threshold e =
      let k = collateral_token env c.store in
      let l = pool_asset env c.store in
      let P : Price → Chain Store W → Type 0 =
        λ p c'. (c' ≡ c) × IsFresh oracles env c.store c.tokens o k p in
      let Q : Price → Chain Store W → Type 0 =
        λ q c'. (c' ≡ c) × IsFresh oracles env c.store c.tokens o l q in
      bind_rule P _ (read_oracle_price oracles env o k c) _ (read_oracle_price-IsFresh o k c)
        (λ p c1 f. rw f.0 (
          bind_rule Q _ (debt_price oracles env o l (k == l) p c) _
            (debt_price-IsFresh o l (k == l) p c (λ same. rw (← ==→eq k l same) f.1))
            (λ q c2 g. rw g.0 (
              weaken _ _ (priced_values p q collateral borrow threshold c)
                (priced_values_lem p q collateral borrow threshold c)
                (λ v c3 r.
                  (r.0, (p.price, q.price, priced o p q e f.1 g.1 refl refl, r.1, r.2)))))))

  unpriced-Valued :
      (c : Chain Store W) (collateral borrow threshold : ℤ)
      → c.store.price_oracle ≡ none
      → Returns
          (λ v c'. (c' ≡ c) × Valued c.store c.tokens collateral borrow threshold v)
          (values oracles env none
            (collateral_token env c.store)
            (pool_asset env c.store)
            collateral
            borrow
            threshold
            c)
  unfolding values
  unpriced-Valued c collateral borrow threshold e =
      weaken
        (λ v c'.
          (c' ≡ c)
          × (collateral_token env c.store ≡ pool_asset env c.store)
          × (v.0 ≡ collateral *ℤ threshold)
          × (v.1 ≡ borrow *ℤ pos 10000))
        _
        (values oracles env none (collateral_token env c.store) (pool_asset env c.store) collateral
          borrow threshold c)
        (ground arith)
        (λ v c' r. (
          r.0,
          (pos 1, pos 1, alike e r.1 refl refl, rw (*ℤ_one collateral) r.2, rw (*ℤ_one borrow) r.3),
        ))

  pub values-Valued :
      (c : Chain Store W) (oracle : Option ℕ) (collateral borrow threshold : ℤ)
      → c.store.price_oracle ≡ oracle
      → Returns
          (λ v c'. (c' ≡ c) × Valued c.store c.tokens collateral borrow threshold v)
          (values oracles env oracle
            (collateral_token env c.store)
            (pool_asset env c.store)
            collateral
            borrow
            threshold
            c)
  values-Valued c none collateral borrow threshold e =
      unpriced-Valued c collateral borrow threshold e
  values-Valued c (some o) collateral borrow threshold e =
      priced-Valued c o collateral borrow threshold e
