-- ===== src/LendingPool/Factor.antt =====
-- That the health factor of contracts/lending-pool/src/lib.rs tells the secured positions.
use suban.Base.{ℕ, ◌≡◌, ◌↔◌, inl, inr, refl, arith, Bool, true, false}
use suban.Int.{ℤ, pos, ◌*ℤ◌, ◌/ℤ◌, leb_ℤ, ltb_ℤ, ◌==ℤ◌, ◌≤ℤ◌, ◌<ℤ◌, parts_of_eq}
use suban.Int.Order.{mul_pos, ratio_at_least_one}
use suban.Host.{Env, Returns, bind_rule, weaken}
use suban.Tokens.{Chain}
use suban.LendingPool.Store.{
  Store, read_borrow, read_collateral, read_liquidation_threshold, pool_asset, collateral_token,
}
use suban.LendingPool.Health.{Oracle, values, ratio, health_of, calculate_health_factor}
use suban.LendingPool.Rates.{Rates, Covers, Secured, Exposed, exposed, Rates-unique, rates_pos}
use suban.LendingPool.Values.{Valued, values-Valued}

module _ {W : Type 0} (oracles : Oracle W) (env : Env) where
  -- At given rates the health factor is at least one if the position is covered.
  ratio-Covers :
      (s : Store) (w : W) (user : ℕ) (c d h : ℤ)
      → pos 0 <ℤ read_borrow s user
      → Rates oracles env s w c d
      → h
        ≡ read_collateral s user
          *ℤ c
          *ℤ read_liquidation_threshold s
          *ℤ pos 10000
          /ℤ (read_borrow s user *ℤ d *ℤ pos 10000)
      → (pos 10000 ≤ℤ h) ↔ Covers s user c d
  ratio-Covers s w user c d h owes rates e =
      let debt = mul_pos (read_borrow s user) d owes (rates_pos oracles env s w c d rates).1 in
      rw e
        (ratio_at_least_one _ _ (mul_pos (read_borrow s user *ℤ d) (pos 10000) debt (omega arith)))

  owing-Secured :
      (s : Store) (w : W) (user : ℕ) (c d h : ℤ)
      → pos 0 <ℤ read_borrow s user
      → Rates oracles env s w c d
      → (pos 10000 ≤ℤ h) ↔ Covers s user c d
      → (pos 10000 ≤ℤ h) ↔ Secured oracles env s w user
  owing-Secured s w user c d h owes rates iff = (
    λ high. inr (c, d, rates, iff.0 high),
    λ secured. elim secured [
      | inl no_debt ↦ absurd (omega (arith, parts_of_eq no_debt, owes))
      | inr (c', d', rates', covers) ↦
          let same = Rates-unique oracles env s w c d c' d' rates rates' in
          iff.1 (rw (same.0, same.1) covers)
    ],
  )

  ratio_lem :
      (x y : ℤ) (c : Chain Store W)
      → Returns (λ h c'. (c' ≡ c) × (h ≡ x *ℤ pos 10000 /ℤ y)) (ratio x y c)
  unfolding ratio
  ratio_lem x y c = ground arith

  health_of_lem :
      (user : ℕ) (no_debt : Bool) (c : Chain Store W)
      → pos 0 ≤ℤ read_borrow c.store user
      → (read_borrow c.store user ==ℤ pos 0) ≡ no_debt
      → Returns
          (λ h c'. (c' ≡ c) × ((pos 10000 ≤ℤ h) ↔ Secured oracles env c.store c.tokens user))
          (health_of oracles env
            (read_collateral c.store user)
            (read_borrow c.store user)
            no_debt
            c)
  unfolding health_of
  health_of_lem user true c nonneg e = (refl, (λ _. inl (ground arith), λ _. omega arith))
  health_of_lem user false c nonneg e =
      let collateral = read_collateral c.store user in
      let borrow = read_borrow c.store user in
      let threshold = read_liquidation_threshold c.store in
      bind_rule
        (λ v c'. (c' ≡ c) × Valued oracles env c.store c.tokens collateral borrow threshold v) _
        (values oracles env c.store.price_oracle (collateral_token env c.store)
          (pool_asset env c.store) collateral borrow threshold c)
        _ (values-Valued oracles env c c.store.price_oracle collateral borrow threshold refl)
        (λ v c1 f. rw f.0 (
          weaken _ _ (ratio v.0 v.1 c) (ratio_lem v.0 v.1 c) (λ h c2 r. (
            r.0,
            let owes : pos 0 <ℤ borrow = ground arith in
                owing-Secured c.store c.tokens user f.1.0 f.1.1 h owes f.1.2 (
                  ratio-Covers c.store c.tokens user f.1.0 f.1.1 h owes f.1.2
                    (rw (← f.1.3, ← f.1.4) r.1)),
          ))))

  -- The health factor of a user whose debt is not negative changes nothing, and it is at least
  -- 10000 if and only if the user is secured: without a debt, or with one that is at most the
  -- collateral times the liquidation threshold, at fresh prices of the oracle or, without an
  -- oracle, one for one in the same asset.
  pub calculate_health_factor-Secured :
      (user : ℕ) (c : Chain Store W)
      → pos 0 ≤ℤ read_borrow c.store user
      → Returns
          (λ h c'. (c' ≡ c) × ((pos 10000 ≤ℤ h) ↔ Secured oracles env c.store c.tokens user))
          (calculate_health_factor oracles env user c)
  unfolding calculate_health_factor
  calculate_health_factor-Secured user c nonneg = health_of_lem user _ c nonneg refl

  -- What a request knows that goes on after asking whether the factor is below 10000, and one that
  -- goes on after asking whether it is not.
  pub factor_passed :
      (user : ℕ) (c : Chain Store W)
      → pos 0 ≤ℤ read_borrow c.store user
      → Returns
          (λ h c'.
            (c' ≡ c) × (ltb_ℤ h (pos 10000) ≡ false → Secured oracles env c.store c.tokens user))
          (calculate_health_factor oracles env user c)
  factor_passed user c nonneg =
      weaken _ _ (calculate_health_factor oracles env user c)
        (calculate_health_factor-Secured user c nonneg) (λ h c' f. (f.0, λ e. f.1.0 (ground arith)))

  pub factor_failed :
      (user : ℕ) (c : Chain Store W)
      → pos 0 ≤ℤ read_borrow c.store user
      → Returns
          (λ h c'.
            (c' ≡ c) × (leb_ℤ (pos 10000) h ≡ false → Exposed oracles env c.store c.tokens user))
          (calculate_health_factor oracles env user c)
  factor_failed user c nonneg =
      weaken _ _ (calculate_health_factor oracles env user c)
        (calculate_health_factor-Secured user c nonneg)
        (λ h c' f. (f.0, λ e. exposed (λ secured. let high = f.1.1 secured in ground arith)))
