-- ===== src/LendingPool/Security.antt =====
-- Which positions of contracts/lending-pool/src/lib.rs stay secured under the requests of users.
use suban.Base.{ℕ, ◌≡◌, inl, inr, arith, refl, sym, ◌∙◌, ◌==◌, if◌then◌else◌}
use suban.Int.{ℤ, pos, ◌*ℤ◌, ◌≤ℤ◌, ◌<ℤ◌, int_laws, parts_of_eq}
use suban.Int.Order.{mul_mono}
use suban.Dict.{insert, lookup-insert, nat_eq}
use suban.Host.{Env}
use suban.Hub.Types.{Price}
use suban.LendingPool.Store.{
  Store, read_borrow, read_collateral, read_liquidation_threshold, read_oracle_max_age, pool_asset,
  collateral_token,
}
use suban.LendingPool.Health.{Oracle}
use suban.LendingPool.Rates.{IsFresh, Rates, Secured, priced, alike, rates_pos}
use suban.LendingPool.Books.{SameTerms}

-- What a store holds for a user after an entry was written.
pub borrow_after :
    (s s' : Store) (p u : ℕ) (v : ℤ)
    → s'.user_borrows ≡ insert p v s.user_borrows
    → read_borrow s' u ≡ (if p == u then v else read_borrow s u)
unfolding read_borrow
borrow_after s s' p u v e = rw (e, lookup-insert p u v s.user_borrows) (ground arith)

pub collateral_after :
    (s s' : Store) (p u : ℕ) (v : ℤ)
    → s'.user_collateral ≡ insert p v s.user_collateral
    → read_collateral s' u ≡ (if p == u then v else read_collateral s u)
unfolding read_collateral
collateral_after s s' p u v e = rw (e, lookup-insert p u v s.user_collateral) (ground arith)

pub borrow_kept :
    (s s' : Store) (u : ℕ) → s'.user_borrows ≡ s.user_borrows → read_borrow s' u ≡ read_borrow s u
unfolding read_borrow
borrow_kept s s' u e = rw e refl

pub collateral_kept :
    (s s' : Store) (u : ℕ)
    → s'.user_collateral ≡ s.user_collateral
    → read_collateral s' u ≡ read_collateral s u
unfolding read_collateral
collateral_kept s s' u e = rw e refl

-- At positive rates and a threshold that is not negative, less debt or more collateral is covered
-- as well.
covers_better :
    (b b' k k' c d h : ℤ)
    → b' ≤ℤ b
    → k ≤ℤ k'
    → pos 0 <ℤ c
    → pos 0 <ℤ d
    → pos 0 ≤ℤ h
    → b *ℤ d *ℤ pos 10000 ≤ℤ k *ℤ c *ℤ h
    → b' *ℤ d *ℤ pos 10000 ≤ℤ k' *ℤ c *ℤ h
covers_better b b' k k' c d h less more cp dp hp covers =
    let debt =
      mul_mono (b' *ℤ d) (b *ℤ d) (pos 10000) (mul_mono b' b d less (omega (arith, dp)))
        (omega arith) in
    let secured = mul_mono (k *ℤ c) (k' *ℤ c) h (mul_mono k k' c more (omega (arith, cp))) hp in
    omega (arith, debt, secured, covers)

threshold_same :
    (s s' : Store) → SameTerms s s' → read_liquidation_threshold s' ≡ read_liquidation_threshold s
unfolding read_liquidation_threshold
threshold_same s s' t = rw t.same_threshold refl

module _ {W : Type 0} (oracles : Oracle W) (env : Env) where
  IsFresh-same :
      (s s' : Store) (w : W) (o a a' : ℕ) {p : Price}
      → SameTerms s s'
      → a' ≡ a
      → IsFresh oracles env s w o a p
      → IsFresh oracles env s' w o a' p
  unfolding read_oracle_max_age
  IsFresh-same s s' w o a a' t e f = record {
    answered = rw e f.answered;
    positive = f.positive;
    past = f.past;
    recent = rw t.same_age f.recent;
  }

  asset_same : (s s' : Store) → SameTerms s s' → pool_asset env s' ≡ pool_asset env s
  unfolding pool_asset
  asset_same s s' t = rw t.same_asset refl

  token_same : (s s' : Store) → SameTerms s s' → collateral_token env s' ≡ collateral_token env s
  unfolding collateral_token pool_asset
  token_same s s' t = rw (t.same_token, t.same_asset) refl

  Rates-same :
      (s s' : Store) (w : W) (c d : ℤ)
      → SameTerms s s'
      → Rates oracles env s w c d
      → Rates oracles env s' w c d
  Rates-same s s' w c d t (priced o p q e f g x y) =
      priced o p q (t.same_oracle ∙ e) (IsFresh-same s s' w o _ _ t (token_same s s' t) f)
        (IsFresh-same s s' w o _ _ t (asset_same s s' t) g) x y
  Rates-same s s' w c d t (alike e same x y) =
      alike (t.same_oracle ∙ e) (token_same s s' t ∙ same ∙ sym (asset_same s s' t)) x y

  -- A position that does not get worse stays secured.
  pub Secured-better :
      (s s' : Store) (w : W) (u : ℕ)
      → SameTerms s s'
      → pos 0 ≤ℤ read_liquidation_threshold s
      → pos 0 ≤ℤ read_borrow s' u
      → read_borrow s' u ≤ℤ read_borrow s u
      → read_collateral s u ≤ℤ read_collateral s' u
      → Secured oracles env s w u
      → Secured oracles env s' w u
  Secured-better s s' w u t h low less more (inl no_debt) =
      let e = parts_of_eq no_debt in inl (omega (int_laws, e, low, less))
  Secured-better s s' w u t h low less more (inr (c, d, rates, covers)) =
      let positive = rates_pos oracles env s w c d rates in
      inr (
        c,
        d,
        Rates-same s s' w c d t rates,
        rw (threshold_same s s' t) (
            covers_better (read_borrow s u) _ (read_collateral s u) _ c d
              (read_liquidation_threshold s) less more positive.0 positive.1 h covers),
      )

  pub same_position :
      (s s' : Store) (w : W) (u : ℕ)
      → SameTerms s s'
      → read_borrow s' u ≡ read_borrow s u
      → read_collateral s' u ≡ read_collateral s u
      → Secured oracles env s w u
      → Secured oracles env s' w u
  same_position s s' w u t e f (inl no_debt) = inl (e ∙ no_debt)
  same_position s s' w u t e f (inr (c, d, rates, covers)) =
      inr (c, d, Rates-same s s' w c d t rates, rw (threshold_same s s' t, e, f) covers)
