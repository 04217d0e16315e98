-- ===== src/LpToken/Balances.antt =====
-- The balances of contracts/lp-token/src/lib.rs and their sum.
use suban.Base.{
  ℕ, ◌≡◌, refl, true, Option, none, some, ◌==◌, arith, if◌then◌else◌, unwrap_or, Option-cases,
  is_some, ◌⊎◌, inl, inr,
}
use suban.Int.{ℤ, pos, ◌+ℤ◌, ◌≤ℤ◌}
use suban.Dict.{
  lookup, nat_eq, AllValues, sum_by, value_of, lookup-insert, sum_by-insert, insert-AllValues,
  lookup-AllValues,
}
use suban.LpToken.{Store, read_balance, write_balance, read_total_supply}

abbrev pub amount_of : ℤ → ℤ
amount_of v = v

unfoldable pub circulating : Store → ℤ
circulating s = sum_by amount_of s.balance

pub record IsBacked (s : Store) : Type 0 where
  pub nonneg : AllValues (λ v. pos 0 ≤ℤ v) s.balance
  pub supplied : read_total_supply s ≡ circulating s
  pub started : (is_some s.admin ≡ true) ⊎ (circulating s ≡ pos 0)

pub value_of-amount_of : (o : Option ℤ) → value_of amount_of o ≡ unwrap_or o (pos 0)
value_of-amount_of none = refl
value_of-amount_of (some v) = refl

pub read-write_balance :
    (a b : ℕ) (v : ℤ) (s : Store)
    → read_balance (write_balance a v s) b ≡ (if a == b then v else read_balance s b)
unfolding read_balance write_balance
read-write_balance a b v s = ground (arith, lookup-insert a b v s.balance)

pub circulating-write_balance :
    (a : ℕ) (v : ℤ) (s : Store)
    → circulating (write_balance a v s) +ℤ read_balance s a ≡ circulating s +ℤ v
unfolding circulating read_balance write_balance
circulating-write_balance a v s =
    rw (← value_of-amount_of (lookup a s.balance)) (sum_by-insert amount_of a v s.balance)

pub write_balance-nonneg :
    (a : ℕ) (v : ℤ) (s : Store)
    → AllValues (λ v. pos 0 ≤ℤ v) s.balance
    → pos 0 ≤ℤ v
    → AllValues (λ v. pos 0 ≤ℤ v) (write_balance a v s).balance
unfolding write_balance
write_balance-nonneg a v s h p = insert-AllValues (λ v. pos 0 ≤ℤ v) a v s.balance h p

pub read_balance-nonneg :
    (a : ℕ) (s : Store) → AllValues (λ v. pos 0 ≤ℤ v) s.balance → pos 0 ≤ℤ read_balance s a
unfolding read_balance
read_balance-nonneg a s h = elim (Option-cases (lookup a s.balance)) [
  | inl e ↦ rw e (omega arith)
  | inr (v, e) ↦ rw e (lookup-AllValues (λ v. pos 0 ≤ℤ v) a s.balance h e)
]
