-- ===== src/LendingPool/Effects.antt =====
-- What the requests of users do to debts and collateral in contracts/lending-pool/src/lib.rs.
use suban.Base.{zero, suc, ◌-◌, ℕ, ◌≡◌, arith, refl, Bool, true, false, some}
use suban.Int.{ℤ, pos, ◌+ℤ◌, ◌-ℤ◌, leb_ℤ, ◌≤ℤ◌, ◌<ℤ◌, ◌*ℤ◌, int_laws}
use suban.Dict.{insert, nat_eq}
use suban.Host.{Env, Returns, fail_if_rule}
use suban.Tokens.{Tokens, Chain}
use suban.LendingPool.Store.{
  Store, read_total_borrows, read_borrow, read_collateral, read_interest_rate, read_last_accrual,
  pool_asset, collateral_token, require_not_paused, zero_amount,
}
use suban.LendingPool.Health.{Oracle}
use suban.LendingPool.Rates.{Secured, Exposed}
use suban.LendingPool.Factor.{factor_passed, factor_failed}
use suban.LendingPool.Lending
use suban.LendingPool.Lending.{read_total_assets, shares_of, accrue}
use suban.LendingPool.Collateral
use suban.LendingPool.Collateral.{seize}
use suban.LendingPool.Books.{
  books, Leaves, with_borrow, with_collateral, interest, no_interest, no_change, paid, seized,
  exchanged, test_pos, with_borrow_read,
}

module _ {W : Type 0} (t : Tokens W) (env : Env) (c : Chain Store W) where
  abbrev s : Store
  s = c.store

  total_assets_same : Returns (λ _ c'. c' ≡ c) (read_total_assets c)
  unfolding read_total_assets
  total_assets_same = ground arith

  shares_of-same : (x y : ℤ) (b : Bool) → Returns (λ _ c'. c' ≡ c) (shares_of x y b c)
  unfolding shares_of
  shares_of-same x y true = refl
  shares_of-same x y false = ground (arith, total_assets_same)

  pub deposit-Leaves :
      (u : ℕ) (x : ℤ) → Returns (λ _ c'. Leaves s c'.store (books s)) (Lending.deposit t env u x c)
  unfolding Lending.deposit require_not_paused read_total_borrows
  deposit-Leaves u x = ground (arith, shares_of-same x)

  pub repay-Leaves :
      (u : ℕ) (x : ℤ)
      → Returns
          (λ _ c'.
            (pos 0 <ℤ x)
            × Leaves s c'.store (record {
              borrows = insert u (read_borrow s u -ℤ paid s u x) s.user_borrows;
              collateral = s.user_collateral;
              total = read_total_borrows s -ℤ paid s u x;
            }))
          (Lending.repay t env u x c)
  unfolding Lending.repay require_not_paused read_total_borrows
  repay-Leaves u x = ground arith

  pub deposit_collateral-Leaves :
      (u : ℕ) (x : ℤ)
      → Returns
          (λ _ c'.
            (pos 0 <ℤ x)
            × Leaves s c'.store (record (books s) {
              collateral = insert u (read_collateral s u +ℤ x) s.user_collateral;
            }))
          (Collateral.deposit_collateral t env u x c)
  unfolding Collateral.deposit_collateral require_not_paused read_total_borrows
  deposit_collateral-Leaves u x = ground arith

  accrue-Leaves :
      (passed : ℕ)
      → Returns
          (λ _ c'.
            Leaves s c'.store
              (record (books s) { total = read_total_borrows s +ℤ interest s passed }))
          (accrue env passed c)
  unfolding accrue read_total_borrows
  accrue-Leaves zero = (
    rw
        (no_change (read_total_borrows s) (interest s 0)
          (no_interest (read_total_borrows s *ℤ read_interest_rate s)))
        refl,
    record {
      same_oracle = refl;
      same_age = refl;
      same_asset = refl;
      same_token = refl;
      same_threshold = refl;
      same_rate = refl;
    },
  )
  accrue-Leaves (suc passed) = ground arith

  pub accrue_interest-Leaves :
      Returns
        (λ _ c'. Leaves s c'.store (record (books s) {
          total = read_total_borrows s +ℤ interest s (env.sequence - read_last_accrual s);
        }))
        (Lending.accrue_interest env c)
  unfolding Lending.accrue_interest require_not_paused
  accrue_interest-Leaves = ground (arith, accrue-Leaves (env.sequence - read_last_accrual s))

module _ {W : Type 0} (t : Tokens W) (oracles : Oracle W) (env : Env) (c : Chain Store W)
    (nonneg : (u : ℕ) → pos 0 ≤ℤ read_borrow c.store u) where
  abbrev old : Store
  old = c.store

  pub withdraw-Leaves :
      (u : ℕ) (x : ℤ)
      → Returns (λ _ c'. Leaves old c'.store (books old)) (Lending.withdraw t oracles env u x c)
  unfolding Lending.withdraw require_not_paused read_total_borrows
  withdraw-Leaves u x =
      ground (arith, total_assets_same t env c, factor_passed oracles env u c (nonneg u))

  pub borrow-Leaves :
      (u : ℕ) (x : ℤ)
      → Returns
          (λ _ c'.
            (pos 0 <ℤ x)
            × Secured oracles env (with_borrow old u (read_borrow old u +ℤ x)) c.tokens u
            × Leaves old c'.store (record {
              borrows = insert u (read_borrow old u +ℤ x) old.user_borrows;
              collateral = old.user_collateral;
              total = read_total_borrows old +ℤ x;
            }))
          (Lending.borrow t oracles env u x c)
  unfolding Lending.borrow require_not_paused read_total_borrows
  borrow-Leaves u x =
      let more = read_borrow old u +ℤ x in
      let before = nonneg u in
      fail_if_rule _ (leb_ℤ x (pos 0)) zero_amount _ c (λ positive. ground (
        arith,
        factor_passed oracles env u (record c { store = with_borrow old u more })
            (rw (with_borrow_read old u more) (omega (int_laws, before, test_pos x positive))),
      ))

  pub set_collateral-Leaves :
      (u : ℕ) (x : ℤ)
      → Returns
          (λ _ c'.
            Secured oracles env (with_collateral old u x) c.tokens u
            × Leaves old c'.store (books (with_collateral old u x)))
          (Collateral.set_collateral oracles env u x c)
  unfolding Collateral.set_collateral require_not_paused read_total_borrows read_borrow
  set_collateral-Leaves u x =
      ground (
        arith,
        factor_passed oracles env u (record c { store = with_collateral old u x }) (nonneg u),
      )

  pub withdraw_collateral-Leaves :
      (u : ℕ) (x : ℤ)
      → Returns
          (λ _ c'.
            Secured oracles env (with_collateral old u (read_collateral old u -ℤ x)) c.tokens u
            × Leaves old c'.store (books (with_collateral old u (read_collateral old u -ℤ x))))
          (Collateral.withdraw_collateral t oracles env u x c)
  unfolding Collateral.withdraw_collateral require_not_paused read_total_borrows read_borrow
  withdraw_collateral-Leaves u x =
      let less = read_collateral old u -ℤ x in
      ground (
        arith,
        factor_passed oracles env u (record c { store = with_collateral old u less }) (nonneg u),
      )

  seize-Leaves :
      (l u : ℕ) (p q : ℤ)
      → Returns
          (λ _ c'.
            (exchanged t env l p q c ≡ some c'.tokens)
            × Leaves old c'.store (record {
              borrows = insert u (read_borrow old u -ℤ p) old.user_borrows;
              collateral = insert u (read_collateral old u -ℤ q) old.user_collateral;
              total = read_total_borrows old -ℤ p;
            }))
          (seize t env l u p q (read_borrow old u) (read_collateral old u) c)
  unfolding seize read_total_borrows pool_asset collateral_token
  seize-Leaves l u p q = ground arith

  -- Where no user owes less than nothing, a liquidation that returns was signed by the liquidator,
  -- asked for a positive amount, and was of an exposed position. It repays that amount or the
  -- whole debt, whichever is less, and seizes the amount repaid with the liquidation bonus on top:
  -- no less than was asked for, and no more than the borrower has as collateral. Exactly the
  -- repayment goes to the pool and the seized collateral to the liquidator; both are taken from
  -- the borrower's entries, the repayment also from the total; no other debt or collateral
  -- changes, nor do the terms.
  pub liquidate-Leaves :
      (l u : ℕ) (x m : ℤ)
      → Returns
          (λ _ c'.
            (pos 0 <ℤ x)
            × Exposed oracles env old c.tokens u
            × (env.authorized l ≡ true)
            × (m ≤ℤ seized old u x)
            × (seized old u x ≤ℤ read_collateral old u)
            × (exchanged t env l (paid old u x) (seized old u x) c ≡ some c'.tokens)
            × Leaves old c'.store (record {
              borrows = insert u (read_borrow old u -ℤ paid old u x) old.user_borrows;
              collateral = insert u (read_collateral old u -ℤ seized old u x) old.user_collateral;
              total = read_total_borrows old -ℤ paid old u x;
            }))
          (Collateral.liquidate t oracles env l u x m c)
  unfolding Collateral.liquidate require_not_paused
  liquidate-Leaves l u x m = ground (
    arith,
    factor_failed oracles env u c (nonneg u),
    seize-Leaves l u (paid old u x) (seized old u x),
  )
