-- ===== src/LendingPool/Positions.antt =====
-- Positions of contracts/lending-pool/src/lib.rs that a request leaves alone, or writes once they were checked.
use suban.Base.{ℕ, ◌≡◌, inl, inr, refl, ◌∙◌, true, false, Bool-cases, ◌==◌, if◌then◌else◌, ==→eq}
use suban.Int.{ℤ}
use suban.Dict.{insert, nat_eq}
use suban.Host.{Env}
use suban.Tokens.{Chain}
use suban.LendingPool.Store.{Store}
use suban.LendingPool.Health.{Oracle}
use suban.LendingPool.Rates.{Secured}
use suban.LendingPool.Books.{SameTerms, with_borrow, with_collateral}
use suban.LendingPool.Security.{
  borrow_after, collateral_after, borrow_kept, collateral_kept, same_position,
}

pub hit : (p u : ℕ) (a b : ℤ) → (p == u) ≡ true → (if p == u then a else b) ≡ a
hit p u a b e = rw e refl

pub missed : (p u : ℕ) (a b : ℤ) → (p == u) ≡ false → (if p == u then a else b) ≡ b
missed p u a b e = rw e refl

-- The terms of a store whose positions alone differ.
from_borrow : (s s' : Store) (p : ℕ) (x : ℤ) → SameTerms s s' → SameTerms (with_borrow s p x) s'
from_borrow s s' p x t = record {
  same_oracle = t.same_oracle;
  same_age = t.same_age;
  same_asset = t.same_asset;
  same_token = t.same_token;
  same_threshold = t.same_threshold;
  same_rate = t.same_rate;
}

from_collateral :
    (s s' : Store) (p : ℕ) (x : ℤ) → SameTerms s s' → SameTerms (with_collateral s p x) s'
from_collateral s s' p x t = record {
  same_oracle = t.same_oracle;
  same_age = t.same_age;
  same_asset = t.same_asset;
  same_token = t.same_token;
  same_threshold = t.same_threshold;
  same_rate = t.same_rate;
}

module _ {W : Type 0} (oracles : Oracle W) (env : Env) (c : Chain Store W) (u : ℕ)
    (secured : Secured oracles env c.store c.tokens u) where
  abbrev s : Store
  s = c.store

  -- Neither the debt nor the collateral of the user has changed.
  pub untouched :
      (s' : Store)
      → SameTerms s s'
      → s'.user_borrows ≡ s.user_borrows
      → s'.user_collateral ≡ s.user_collateral
      → Secured oracles env s' c.tokens u
  untouched s' terms e f =
      same_position oracles env s s' c.tokens u terms (borrow_kept s s' u e)
        (collateral_kept s s' u f) secured

  pub borrower-Secured :
      (p : ℕ) (x : ℤ) (s' : Store)
      → SameTerms s s'
      → s'.user_borrows ≡ insert p x s.user_borrows
      → s'.user_collateral ≡ s.user_collateral
      → ((p == u) ≡ true → Secured oracles env s' c.tokens u)
      → Secured oracles env s' c.tokens u
  borrower-Secured p x s' terms e f own = elim (Bool-cases (p == u)) [
    | inl self ↦ own self
    | inr other ↦
        same_position oracles env s s' c.tokens u terms
          (borrow_after s s' p u x e ∙ missed p u _ _ other) (collateral_kept s s' u f) secured
  ]

  pub collateral-Secured :
      (p : ℕ) (y : ℤ) (s' : Store)
      → SameTerms s s'
      → s'.user_borrows ≡ s.user_borrows
      → s'.user_collateral ≡ insert p y s.user_collateral
      → ((p == u) ≡ true → Secured oracles env s' c.tokens u)
      → Secured oracles env s' c.tokens u
  collateral-Secured p y s' terms e f own = elim (Bool-cases (p == u)) [
    | inl self ↦ own self
    | inr other ↦
        same_position oracles env s s' c.tokens u terms (borrow_kept s s' u e)
          (collateral_after s s' p u y f ∙ missed p u _ _ other) secured
  ]

  -- The user's own new debt or collateral, once it was checked.
  pub own_borrow :
      (p : ℕ) (x : ℤ) (s' : Store)
      → SameTerms s s'
      → s'.user_borrows ≡ insert p x s.user_borrows
      → s'.user_collateral ≡ s.user_collateral
      → Secured oracles env (with_borrow s p x) c.tokens p
      → Secured oracles env s' c.tokens u
  own_borrow p x s' terms e f checked = borrower-Secured p x s' terms e f (λ self.
      let w = with_borrow s p x in
      same_position oracles env w s' c.tokens u (from_borrow s s' p x terms) (borrow_kept w s' u e)
        (collateral_kept w s' u f) (rw (← ==→eq p u self) checked))

  pub own_collateral :
      (p : ℕ) (y : ℤ) (s' : Store)
      → SameTerms s s'
      → s'.user_borrows ≡ s.user_borrows
      → s'.user_collateral ≡ insert p y s.user_collateral
      → Secured oracles env (with_collateral s p y) c.tokens p
      → Secured oracles env s' c.tokens u
  own_collateral p y s' terms e f checked = collateral-Secured p y s' terms e f (λ self.
      let w = with_collateral s p y in
      same_position oracles env w s' c.tokens u (from_collateral s s' p y terms)
        (borrow_kept w s' u e) (collateral_kept w s' u f) (rw (← ==→eq p u self) checked))
