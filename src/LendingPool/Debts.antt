-- ===== src/LendingPool/Debts.antt =====
-- The debts of contracts/lending-pool/src/lib.rs and their recorded total.
use suban.Base.{ℕ, ◌-◌, ◌≡◌, inl, inr, arith, refl, sym, true, Option-cases}
use mathlib.Core.Path.{subst}
use suban.Int.{ℤ, pos, ◌+ℤ◌, ◌-ℤ◌, ◌≤ℤ◌, ◌<ℤ◌, int_laws, parts_of_eq}
use suban.Dict.{
  lookup, insert, nat_eq, sum_by, sum_by-insert, value_of, AllValues, insert-AllValues,
  lookup-AllValues,
}
use suban.Host.{Env, Returns, weaken}
use suban.Tokens.{Tokens, Chain}
use suban.LendingPool.Store.{Store, read_total_borrows, read_borrow, read_last_accrual}
use suban.LendingPool.Health.{Oracle}
use suban.LendingPool.Lending
use suban.LendingPool.Lending.{accrue}
use suban.LendingPool.Collateral
use suban.LendingPool.Request.{Request, is_public, execute}
use suban.LendingPool.Books.{Books, books, interest, paid}
use suban.LendingPool.Effects.{
  deposit-Leaves, withdraw-Leaves, borrow-Leaves, repay-Leaves, set_collateral-Leaves,
  deposit_collateral-Leaves, withdraw_collateral-Leaves, liquidate-Leaves, accrue_interest-Leaves,
}

abbrev pub same : ℤ → ℤ
same x = x

-- No user owes less than nothing.
abbrev pub NoneNegative : Store → Type 0
NoneNegative s = AllValues (λ x. pos 0 ≤ℤ x) s.user_borrows

-- What the recorded total has beyond the sum of all debts.
abbrev pub unassigned : Books → ℤ
unassigned b = b.total -ℤ sum_by same b.borrows

-- What a request adds to the total without adding it to a debt.
abbrev pub accrued : Env → Store → Request → ℤ
accrued env s Request.accrue_interest = interest s (env.sequence - read_last_accrual s)
accrued env s _ = pos 0

pub nonneg_borrow : (s : Store) (u : ℕ) → NoneNegative s → pos 0 ≤ℤ read_borrow s u
unfolding read_borrow
nonneg_borrow s u v = elim (Option-cases (lookup u s.user_borrows)) [
  | inl e ↦ rw e (omega arith)
  | inr (x, e) ↦ rw e (lookup-AllValues (λ x. pos 0 ≤ℤ x) u s.user_borrows v e)
]

borrow_value : (s : Store) (u : ℕ) → value_of same (lookup u s.user_borrows) ≡ read_borrow s u
unfolding read_borrow
borrow_value s u = elim (Option-cases (lookup u s.user_borrows)) [
  | inl e ↦ rw e refl
  | inr (x, e) ↦ rw e refl
]

-- A debt and the total change by the same amount.
moved_together :
    (s : Store) (u : ℕ) (v total : ℤ)
    → v -ℤ read_borrow s u ≡ total -ℤ read_total_borrows s
    → total -ℤ sum_by same (insert u v s.user_borrows) ≡ unassigned (books s) +ℤ pos 0
moved_together s u v total e =
    let change = parts_of_eq e in
    let old = parts_of_eq (borrow_value s u) in
    let sum = parts_of_eq (sum_by-insert same u v s.user_borrows) in omega int_laws

pub paid_bounds :
    (s : Store) (u : ℕ) (x : ℤ)
    → pos 0 <ℤ x
    → pos 0 ≤ℤ read_borrow s u
    → (pos 0 ≤ℤ read_borrow s u -ℤ paid s u x) × (pos 0 ≤ℤ paid s u x)
paid_bounds s u x p n =
    let low : pos 0 ≤ℤ paid s u x = ground arith in
    let high : paid s u x ≤ℤ read_borrow s u = ground arith in (omega (int_laws, low, high), low)

-- The debts that a request leaves, and by how much it raised the total without a debt.
abbrev pub Accounted : Store → Books → ℤ → Type 0
Accounted s b x = AllValues (λ y. pos 0 ≤ℤ y) b.borrows × (unassigned b ≡ unassigned (books s) +ℤ x)

raised :
    (s : Store) (x : ℤ)
    → read_total_borrows s +ℤ x -ℤ sum_by same s.user_borrows ≡ unassigned (books s) +ℤ x
raised s x = omega int_laws

unchanged : (s : Store) → NoneNegative s → Accounted s (books s) (pos 0)
unchanged s v = (v, omega int_laws)

changed_debt :
    (s : Store) (u : ℕ) (v total : ℤ)
    → NoneNegative s
    → pos 0 ≤ℤ v
    → v -ℤ read_borrow s u ≡ total -ℤ read_total_borrows s
    → AllValues (λ x. pos 0 ≤ℤ x) (insert u v s.user_borrows)
      × (total -ℤ sum_by same (insert u v s.user_borrows) ≡ unassigned (books s) +ℤ pos 0)
changed_debt s u v total n low change =
    (insert-AllValues (λ x. pos 0 ≤ℤ x) u v s.user_borrows n low, moved_together s u v total change)

same_change : (a b x : ℤ) → a +ℤ x -ℤ a ≡ b +ℤ x -ℤ b
same_change a b x = omega int_laws

same_loss : (a b x : ℤ) → a -ℤ x -ℤ a ≡ b -ℤ x -ℤ b
same_loss a b x = omega int_laws

module _ {W : Type 0} (t : Tokens W) (oracles : Oracle W) (env : Env) (c : Chain Store W)
    (v : NoneNegative c.store) where
  abbrev s : Store
  s = c.store

  abbrev Done : ℤ → Chain Store W → Type 0
  Done x c' = Accounted s (books c'.store) x

  abbrev nonneg : (u : ℕ) → pos 0 ≤ℤ read_borrow s u
  nonneg u = nonneg_borrow s u v

  by_books :
      (x : ℤ) (s' : Store) (b : Books) → books s' ≡ b → Accounted s b x → Accounted s (books s') x
  by_books x s' b e a = subst (λ b. Accounted s b x) (sym e) a

  borrow-Accounted :
      (u : ℕ) (x : ℤ) → Returns (λ _ c'. Done (pos 0) c') (Lending.borrow t oracles env u x c)
  borrow-Accounted u x =
      weaken _ _ (Lending.borrow t oracles env u x c) (borrow-Leaves t oracles env c nonneg u x)
        (λ _ c' d.
          let before = nonneg u in
          by_books (pos 0) c'.store _ d.2.0 (
            changed_debt s u (read_borrow s u +ℤ x) _ v (omega (int_laws, before, d.0))
              (same_change (read_borrow s u) (read_total_borrows s) x)))

  repay-Accounted : (u : ℕ) (x : ℤ) → Returns (λ _ c'. Done (pos 0) c') (Lending.repay t env u x c)
  repay-Accounted u x = weaken _ _ (Lending.repay t env u x c) (repay-Leaves t env c u x) (λ _ c' d.
      by_books (pos 0) c'.store _ d.1.0 (
        changed_debt s u (read_borrow s u -ℤ paid s u x) _ v (paid_bounds s u x d.0 (nonneg u)).0
          (same_loss (read_borrow s u) (read_total_borrows s) (paid s u x))))

  liquidate-Accounted :
      (l u : ℕ) (x m : ℤ)
      → Returns (λ _ c'. Done (pos 0) c') (Collateral.liquidate t oracles env l u x m c)
  liquidate-Accounted l u x m =
      weaken _ _ (Collateral.liquidate t oracles env l u x m c)
        (liquidate-Leaves t oracles env c nonneg l u x m)
        (λ _ c' d. by_books (pos 0) c'.store _ d.6.0 (
          changed_debt s u (read_borrow s u -ℤ paid s u x) _ v (paid_bounds s u x d.0 (nonneg u)).0
            (same_loss (read_borrow s u) (read_total_borrows s) (paid s u x))))

  deposit-Accounted :
      (u : ℕ) (x : ℤ) → Returns (λ _ c'. Done (pos 0) c') (Lending.deposit t env u x c)
  deposit-Accounted u x =
      weaken _ _ (Lending.deposit t env u x c) (deposit-Leaves t env c u x)
        (λ _ c' d. by_books (pos 0) c'.store _ d.0 (unchanged s v))

  withdraw-Accounted :
      (u : ℕ) (x : ℤ) → Returns (λ _ c'. Done (pos 0) c') (Lending.withdraw t oracles env u x c)
  withdraw-Accounted u x =
      weaken _ _ (Lending.withdraw t oracles env u x c) (withdraw-Leaves t oracles env c nonneg u x)
        (λ _ c' d. by_books (pos 0) c'.store _ d.0 (unchanged s v))

  set_collateral-Accounted :
      (u : ℕ) (x : ℤ)
      → Returns (λ _ c'. Done (pos 0) c') (Collateral.set_collateral oracles env u x c)
  unfolding read_total_borrows
  set_collateral-Accounted u x =
      weaken _ _ (Collateral.set_collateral oracles env u x c)
        (set_collateral-Leaves t oracles env c nonneg u x)
        (λ _ c' d. by_books (pos 0) c'.store _ d.1.0 (unchanged s v))

  deposit_collateral-Accounted :
      (u : ℕ) (x : ℤ)
      → Returns (λ _ c'. Done (pos 0) c') (Collateral.deposit_collateral t env u x c)
  deposit_collateral-Accounted u x =
      weaken _ _ (Collateral.deposit_collateral t env u x c) (deposit_collateral-Leaves t env c u x)
        (λ _ c' d. by_books (pos 0) c'.store _ d.1.0 (unchanged s v))

  withdraw_collateral-Accounted :
      (u : ℕ) (x : ℤ)
      → Returns (λ _ c'. Done (pos 0) c') (Collateral.withdraw_collateral t oracles env u x c)
  unfolding read_total_borrows
  withdraw_collateral-Accounted u x =
      weaken _ _ (Collateral.withdraw_collateral t oracles env u x c)
        (withdraw_collateral-Leaves t oracles env c nonneg u x)
        (λ _ c' d. by_books (pos 0) c'.store _ d.1.0 (unchanged s v))

  accrue_interest-Accounted :
      Returns
        (λ _ c'. Done (interest s (env.sequence - read_last_accrual s)) c')
        (Lending.accrue_interest env c)
  accrue_interest-Accounted =
      weaken _ _ (Lending.accrue_interest env c) (accrue_interest-Leaves t env c) (λ _ c' d.
        by_books (interest s (env.sequence - read_last_accrual s)) c'.store _ d.0
          (v, raised s (interest s (env.sequence - read_last_accrual s))))

  -- On books where no user owes less than nothing, a request of a user that returns leaves no
  -- debt below zero, and the recorded total of the debts changes exactly as the sum of all debts
  -- does, except that `accrue_interest` adds the interest to the total and to no debt.
  pub execute-Accounted :
      (r : Request)
      → is_public r ≡ true
      → Returns (λ _ c'. Accounted s (books c'.store) (accrued env s r)) (execute t oracles env r c)
  unfolding execute
  execute-Accounted (Request.initialize a f l b i r) p = cc
  execute-Accounted (Request.deposit u x) p = ground (arith, deposit-Accounted u x)
  execute-Accounted (Request.withdraw u x) p = ground (arith, withdraw-Accounted u x)
  execute-Accounted (Request.borrow u x) p = borrow-Accounted u x
  execute-Accounted (Request.repay u x) p = ground (arith, repay-Accounted u x)
  execute-Accounted (Request.set_collateral u x) p = set_collateral-Accounted u x
  execute-Accounted (Request.deposit_collateral u x) p = deposit_collateral-Accounted u x
  execute-Accounted (Request.withdraw_collateral u x) p = withdraw_collateral-Accounted u x
  execute-Accounted (Request.liquidate l u x m) p = liquidate-Accounted l u x m
  execute-Accounted Request.accrue_interest p = accrue_interest-Accounted
  execute-Accounted (Request.set_paused a b) p = cc
  execute-Accounted (Request.update_config a f l b i r) p = cc
  execute-Accounted (Request.set_collateral_asset a k) p = cc
  execute-Accounted (Request.set_collateral_token a k) p = cc
  execute-Accounted (Request.set_price_oracle a o m) p = cc
  execute-Accounted (Request.clear_price_oracle a) p = cc
