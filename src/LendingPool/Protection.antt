-- ===== src/LendingPool/Protection.antt =====
-- That nobody can make a secured position of contracts/lending-pool/src/lib.rs insecure.
use suban.Base.{ℕ, ◌≡◌, ap, inl, inr, arith, ◌∙◌, true, Bool-cases, ◌==◌, ==→eq}
use suban.Int.{ℤ, pos, ◌+ℤ◌, ◌-ℤ◌, ◌≤ℤ◌, int_laws, parts_of_eq}
use suban.Dict.{nat_eq}
use suban.Host.{Env, Returns, weaken}
use suban.Tokens.{Tokens, Chain}
use suban.LendingPool.Store.{Store, read_borrow, read_collateral, read_liquidation_threshold}
use suban.LendingPool.Health.{Oracle}
use suban.LendingPool.Rates.{Secured, Exposed, exposed}
use suban.LendingPool.Lending
use suban.LendingPool.Collateral
use suban.LendingPool.Request.{Request, is_public, execute}
use suban.LendingPool.Books.{paid}
use suban.LendingPool.Effects.{
  deposit-Leaves, withdraw-Leaves, borrow-Leaves, repay-Leaves, set_collateral-Leaves,
  deposit_collateral-Leaves, withdraw_collateral-Leaves, liquidate-Leaves, accrue_interest-Leaves,
}
use suban.LendingPool.Debts.{NoneNegative, nonneg_borrow, paid_bounds}
use suban.LendingPool.Security.{
  borrow_after, collateral_after, borrow_kept, collateral_kept, Secured-better, same_position,
}
use suban.LendingPool.Positions.{
  hit, missed, untouched, own_borrow, own_collateral, borrower-Secured, collateral-Secured,
}

module _ {W : Type 0} (t : Tokens W) (oracles : Oracle W) (env : Env) (c : Chain Store W)
    (v : NoneNegative c.store) (h : pos 0 ≤ℤ read_liquidation_threshold c.store) (u : ℕ)
    (secured : Secured oracles env c.store c.tokens u) where
  abbrev s : Store
  s = c.store

  abbrev nonneg : (p : ℕ) → pos 0 ≤ℤ read_borrow s p
  nonneg p = nonneg_borrow s p v

  -- Secured in the new storage, at the rates at which the request was made.
  abbrev StaysSecured : Chain Store W → Type 0
  StaysSecured c' = Secured oracles env c'.store c.tokens u

  deposit-Secured :
      (p : ℕ) (x : ℤ) → Returns (λ _ c'. StaysSecured c') (Lending.deposit t env p x c)
  deposit-Secured p x =
      weaken _ _ (Lending.deposit t env p x c) (deposit-Leaves t env c p x) (λ _ c' d.
        untouched oracles env c u secured c'.store d.1 (ap (λ b. b.borrows) d.0)
          (ap (λ b. b.collateral) d.0))

  withdraw-Secured :
      (p : ℕ) (x : ℤ) → Returns (λ _ c'. StaysSecured c') (Lending.withdraw t oracles env p x c)
  withdraw-Secured p x =
      weaken _ _ (Lending.withdraw t oracles env p x c) (withdraw-Leaves t oracles env c nonneg p x)
        (λ _ c' d.
          untouched oracles env c u secured c'.store d.1 (ap (λ b. b.borrows) d.0)
            (ap (λ b. b.collateral) d.0))

  accrue_interest-Secured : Returns (λ _ c'. StaysSecured c') (Lending.accrue_interest env c)
  accrue_interest-Secured =
      weaken _ _ (Lending.accrue_interest env c) (accrue_interest-Leaves t env c) (λ _ c' d.
        untouched oracles env c u secured c'.store d.1 (ap (λ b. b.borrows) d.0)
          (ap (λ b. b.collateral) d.0))

  borrow-Secured :
      (p : ℕ) (x : ℤ) → Returns (λ _ c'. StaysSecured c') (Lending.borrow t oracles env p x c)
  borrow-Secured p x =
      weaken _ _ (Lending.borrow t oracles env p x c) (borrow-Leaves t oracles env c nonneg p x)
        (λ _ c' d.
          own_borrow oracles env c u secured p (read_borrow s p +ℤ x) c'.store d.2.1
            (ap (λ b. b.borrows) d.2.0) (ap (λ b. b.collateral) d.2.0) d.1)

  set_collateral-Secured :
      (p : ℕ) (x : ℤ)
      → Returns (λ _ c'. StaysSecured c') (Collateral.set_collateral oracles env p x c)
  set_collateral-Secured p x =
      weaken _ _ (Collateral.set_collateral oracles env p x c)
        (set_collateral-Leaves t oracles env c nonneg p x)
        (λ _ c' d.
          own_collateral oracles env c u secured p x c'.store d.1.1 (ap (λ b. b.borrows) d.1.0)
            (ap (λ b. b.collateral) d.1.0) d.0)

  withdraw_collateral-Secured :
      (p : ℕ) (x : ℤ)
      → Returns (λ _ c'. StaysSecured c') (Collateral.withdraw_collateral t oracles env p x c)
  withdraw_collateral-Secured p x =
      weaken _ _ (Collateral.withdraw_collateral t oracles env p x c)
        (withdraw_collateral-Leaves t oracles env c nonneg p x)
        (λ _ c' d.
          own_collateral oracles env c u secured p (read_collateral s p -ℤ x) c'.store d.1.1
            (ap (λ b. b.borrows) d.1.0) (ap (λ b. b.collateral) d.1.0) d.0)

  repay-Secured : (p : ℕ) (x : ℤ) → Returns (λ _ c'. StaysSecured c') (Lending.repay t env p x c)
  repay-Secured p x = weaken _ _ (Lending.repay t env p x c) (repay-Leaves t env c p x) (λ _ c' d.
      let e = ap (λ b. b.borrows) d.1.0 in
      let f = ap (λ b. b.collateral) d.1.0 in
      let less = read_borrow s p -ℤ paid s p x in
      borrower-Secured oracles env c u secured p less c'.store d.1.1 e f (λ self.
        let now =
          parts_of_eq (borrow_after s c'.store p u less e ∙ hit p u less (read_borrow s u) self) in
        let same_user = parts_of_eq (ap (λ i. read_borrow s i) (==→eq p u self)) in
        let bounds = paid_bounds s p x d.0 (nonneg p) in
        let kept = parts_of_eq (collateral_kept s c'.store u f) in
        Secured-better oracles env s c'.store c.tokens u d.1.1 h (omega (int_laws, now, bounds))
          (omega (int_laws, now, same_user, bounds)) (omega (arith, kept)) secured))

  deposit_collateral-Secured :
      (p : ℕ) (x : ℤ)
      → Returns (λ _ c'. StaysSecured c') (Collateral.deposit_collateral t env p x c)
  deposit_collateral-Secured p x =
      weaken _ _ (Collateral.deposit_collateral t env p x c) (deposit_collateral-Leaves t env c p x)
        (λ _ c' d.
          let e = ap (λ b. b.borrows) d.1.0 in
          let f = ap (λ b. b.collateral) d.1.0 in
          let more = read_collateral s p +ℤ x in
          collateral-Secured oracles env c u secured p more c'.store d.1.1 e f (λ self.
            let now =
              parts_of_eq (
                collateral_after s c'.store p u more f ∙ hit p u more (read_collateral s u) self) in
            let same_user = parts_of_eq (ap (λ i. read_collateral s i) (==→eq p u self)) in
            let kept = parts_of_eq (borrow_kept s c'.store u e) in
            let before = nonneg u in
            let positive = d.0 in
            Secured-better oracles env s c'.store c.tokens u d.1.1 h
              (omega (int_laws, kept, before)) (omega (arith, kept))
              (omega (int_laws, now, same_user, positive)) secured))

  not_both : (p : ℕ) → (p == u) ≡ true → Exposed oracles env s c.tokens p → ⊥
  not_both p self (exposed insecure) = insecure (rw (==→eq p u self) secured)

  -- Only an exposed position can be liquidated.
  liquidate-Secured :
      (l p : ℕ) (x m : ℤ)
      → Returns (λ _ c'. StaysSecured c') (Collateral.liquidate t oracles env l p x m c)
  liquidate-Secured l p x m =
      weaken _ _ (Collateral.liquidate t oracles env l p x m c)
        (liquidate-Leaves t oracles env c nonneg l p x m)
        (λ _ c' d. elim (Bool-cases (p == u)) [
          | inl self ↦ absurd (not_both p self d.1)
          | inr other ↦
              same_position oracles env s c'.store c.tokens u d.6.1
                (borrow_after s c'.store p u _ (ap (λ b. b.borrows) d.6.0) ∙ missed p u _ _ other)
                (collateral_after s c'.store p u _ (ap (λ b. b.collateral) d.6.0)
                  ∙ missed p u _ _ other)
                secured
        ])

  -- Behind any tokens and oracles, on books where no user owes less than nothing and with a
  -- liquidation threshold that is not negative: a user who is secured before a request of any
  -- user, himself included, is still secured after it if it returns, at the prices at which it was
  -- made.
  pub execute-Secured :
      (r : Request)
      → is_public r ≡ true
      → Returns (λ _ c'. Secured oracles env c'.store c.tokens u) (execute t oracles env r c)
  unfolding execute
  execute-Secured (Request.initialize a f l b i r) p = cc
  execute-Secured (Request.deposit q x) p = ground (arith, deposit-Secured q x)
  execute-Secured (Request.withdraw q x) p = ground (arith, withdraw-Secured q x)
  execute-Secured (Request.borrow q x) p = borrow-Secured q x
  execute-Secured (Request.repay q x) p = ground (arith, repay-Secured q x)
  execute-Secured (Request.set_collateral q x) p = set_collateral-Secured q x
  execute-Secured (Request.deposit_collateral q x) p = deposit_collateral-Secured q x
  execute-Secured (Request.withdraw_collateral q x) p = withdraw_collateral-Secured q x
  execute-Secured (Request.liquidate l q x m) p = liquidate-Secured l q x m
  execute-Secured Request.accrue_interest p = accrue_interest-Secured
  execute-Secured (Request.set_paused a b) p = cc
  execute-Secured (Request.update_config a f l b i r) p = cc
  execute-Secured (Request.set_collateral_asset a k) p = cc
  execute-Secured (Request.set_collateral_token a k) p = cc
  execute-Secured (Request.set_price_oracle a o m) p = cc
  execute-Secured (Request.clear_price_oracle a) p = cc
