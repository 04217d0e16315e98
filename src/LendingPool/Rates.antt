-- ===== src/LendingPool/Rates.antt =====
-- What the health factor of contracts/lending-pool/src/lib.rs means: at which rates collateral and
-- debt are compared, and when a position is secured.
use suban.Base.{ℕ, ◌-◌, ◌≤◌, ◌≡◌, ◌⊎◌, arith, none, some}
use suban.Int.{ℤ, pos, ◌*ℤ◌, ◌≤ℤ◌, ◌<ℤ◌}
use suban.Host.{Env, ok}
use suban.Hub.Types.{Price}
use suban.LendingPool.Store.{
  Store, read_borrow, read_collateral, read_liquidation_threshold, read_oracle_max_age, pool_asset,
  collateral_token,
}
use suban.LendingPool.Health.{Oracle}

-- The debt is at most the collateral at the liquidation threshold.
abbrev pub Covers : Store → ℕ → (c d : ℤ) → Type 0
Covers s user c d =
    read_borrow s user *ℤ d *ℤ pos 10000
    ≤ℤ read_collateral s user *ℤ c *ℤ read_liquidation_threshold s

module _ {W : Type 0} (oracles : Oracle W) (env : Env) where
  -- The oracle answers with a positive price that is neither from the future nor too old.
  pub record IsFresh (s : Store) (w : W) (oracle asset : ℕ) (p : Price) : Type 0 where
    pub answered : oracles oracle asset w ≡ ok p
    pub positive : pos 0 <ℤ p.price
    pub past : p.timestamp ≤ env.sequence
    pub recent : env.sequence - p.timestamp ≤ read_oracle_max_age s

  -- One unit of collateral counts `c` and one of debt `d`: the prices of the oracle, or one for
  -- one where there is no oracle and both are the same asset.
  pub data Rates (s : Store) (w : W) (c d : ℤ) : Type 0 where
    priced :
        (oracle : ℕ) (p q : Price)
        → s.price_oracle ≡ some oracle
        → IsFresh s w oracle (collateral_token env s) p
        → IsFresh s w oracle (pool_asset env s) q
        → c ≡ p.price
        → d ≡ q.price
        → Rates s w c d
    alike :
        s.price_oracle ≡ none
        → collateral_token env s ≡ pool_asset env s
        → c ≡ pos 1
        → d ≡ pos 1
        → Rates s w c d

  -- No debt, or one that the collateral covers at the rates of the moment.
  abbrev pub Secured : Store → W → ℕ → Type 0
  Secured s w user = (read_borrow s user ≡ pos 0) ⊎ ((c d : ℤ) × Rates s w c d × Covers s user c d)

  -- A debt that is not covered.
  pub data Exposed (s : Store) (w : W) (user : ℕ) : Type 0 where
    exposed : ¬ Secured s w user → Exposed s w user

  -- There is one rate at a time.
  price_unique :
      (s : Store) (w : W) (o o' a : ℕ) (p p' : Price)
      → s.price_oracle ≡ some o
      → s.price_oracle ≡ some o'
      → IsFresh s w o a p
      → IsFresh s w o' a p'
      → p.price ≡ p'.price
  price_unique s w o o' a p p' e e' f f' = let x = f.answered in let x' = f'.answered in cc

  pub Rates-unique :
      (s : Store) (w : W) (c d c' d' : ℤ) → Rates s w c d → Rates s w c' d' → (c ≡ c') × (d ≡ d')
  Rates-unique s w c d c' d' (priced o p q e f g x y) (priced o' p' q' e' f' g' x' y') =
      let m = price_unique s w o o' _ p p' e e' f f' in
      let n = price_unique s w o o' _ q q' e e' g g' in (cc, cc)
  Rates-unique s w c d c' d' (priced o p q e f g x y) (alike e' same x' y') = cc
  Rates-unique s w c d c' d' (alike e same x y) (priced o' p' q' e' f' g' x' y') = cc
  Rates-unique s w c d c' d' (alike e same x y) (alike e' same' x' y') = (cc, cc)

  pub rates_pos : (s : Store) (w : W) (c d : ℤ) → Rates s w c d → (pos 0 <ℤ c) × (pos 0 <ℤ d)
  rates_pos s w c d (priced o p q e f g x y) = (rw x f.positive, rw y g.positive)
  rates_pos s w c d (alike e same x y) = (rw x (omega arith), rw y (omega arith))
