-- ===== src/CpmmPool/Shares.antt =====
-- The books of contracts/cpmm-pool/src/lib.rs: the shares of the providers and the reserves under
-- deposits and withdrawals.
use suban.Base.{
  ℕ, ◌≤◌, ◌≡◌, ◌⊎◌, refl, true, arith, inl, inr, Option-cases, Option, none, some, is_some,
  unwrap_or,
}
use suban.Int.{ℤ, pos, ◌+ℤ◌, ◌-ℤ◌, ◌≤ℤ◌, int_laws, parts_of_eq}
use suban.Dict.{
  nat_eq, lookup, AllValues, sum_by, value_of, sum_by-insert, insert-AllValues, lookup-AllValues,
  value_of-le-sum_by,
}
use suban.Host.{Env, Returns}
use suban.Tokens.{Tokens, Chain}
use suban.CpmmPool.Store.{
  Store, read_reserve_a, read_reserve_b, read_total_shares, read_lp_balance, read_fee_bps,
  write_lp_balance, write_reserve_a, write_reserve_b, write_total_shares,
}
use suban.CpmmPool.Liquidity.{accept_deposit, pay_out}

abbrev pub amount_of : ℤ → ℤ
amount_of v = v

abbrev pub IsNonneg : ℤ → Type 0
IsNonneg v = pos 0 ≤ℤ v

-- The shares of all providers.
unfoldable pub issued : Store → ℤ
issued s = sum_by amount_of s.lp_balance

-- The reserves and shares are at least zero, the shares of the providers add up to the total, and
-- there are none before `initialize`, which admits a fee of at most a tenth.
pub record IsSound (s : Store) : Type 0 where
  pub has_a : pos 0 ≤ℤ read_reserve_a s
  pub has_b : pos 0 ≤ℤ read_reserve_b s
  pub held : AllValues IsNonneg s.lp_balance
  pub shared : read_total_shares s ≡ issued s
  pub started : (is_some s.admin ≡ true) ⊎ ((issued s ≡ pos 0) × (s.token_a ≡ none))
  pub fee_fits : read_fee_bps s ≤ 1000

value_of-amount_of : (o : Option ℤ) → value_of amount_of o ≡ unwrap_or o (pos 0)
value_of-amount_of none = refl
value_of-amount_of (some v) = refl

pub read_lp_balance-nonneg : (a : ℕ) (s : Store) → IsSound s → pos 0 ≤ℤ read_lp_balance s a
unfolding read_lp_balance
read_lp_balance-nonneg a s v = elim (Option-cases (lookup a s.lp_balance)) [
  | inl e ↦ rw e (omega arith)
  | inr (n, e) ↦ rw e (lookup-AllValues IsNonneg a s.lp_balance v.held e)
]

-- No provider holds more shares than there are.
pub read_lp_balance-le-total :
    (a : ℕ) (s : Store) → IsSound s → read_lp_balance s a ≤ℤ read_total_shares s
unfolding read_lp_balance issued
read_lp_balance-le-total a s v =
    rw (v.shared, ← value_of-amount_of (lookup a s.lp_balance))
      (value_of-le-sum_by amount_of a s.lp_balance v.held).0

-- What a deposit or a withdrawal writes.
abbrev pub rewritten : ℕ → (shares a b total : ℤ) → Store → Store
rewritten provider shares a b total s =
    write_total_shares total
      (write_reserve_b b (write_reserve_a a (write_lp_balance provider shares s)))

issued-rewritten :
    (p : ℕ) (n a b t : ℤ) (s : Store)
    → issued (rewritten p n a b t s) +ℤ read_lp_balance s p ≡ issued s +ℤ n
unfolding issued read_lp_balance write_lp_balance write_reserve_a write_reserve_b write_total_shares
issued-rewritten p n a b t s =
    rw (← value_of-amount_of (lookup p s.lp_balance)) (sum_by-insert amount_of p n s.lp_balance)

pub rewritten-IsSound :
    (p : ℕ) (n a b t : ℤ) (s : Store)
    → IsSound s
    → pos 0 ≤ℤ n
    → pos 0 ≤ℤ a
    → pos 0 ≤ℤ b
    → is_some s.admin ≡ true
    → t +ℤ read_lp_balance s p ≡ read_total_shares s +ℤ n
    → IsSound (rewritten p n a b t s)
unfolding write_lp_balance write_reserve_a write_reserve_b write_total_shares read_reserve_a
    read_reserve_b read_total_shares read_fee_bps
rewritten-IsSound p n a b t s v hn ha hb i e = record {
  has_a = ha;
  has_b = hb;
  held = insert-AllValues IsNonneg p n s.lp_balance v.held hn;
  shared =
      omega
        (int_laws, parts_of_eq e, parts_of_eq v.shared, parts_of_eq (issued-rewritten p n a b t s));
  started = inl i;
  fee_fits = v.fee_fits;
}

pub read_rewritten :
    (p : ℕ) (n a b t : ℤ) (s : Store)
    → (read_reserve_a (rewritten p n a b t s) ≡ a)
      × (read_reserve_b (rewritten p n a b t s) ≡ b)
      × (read_total_shares (rewritten p n a b t s) ≡ t)
unfolding write_lp_balance write_reserve_a write_reserve_b write_total_shares read_reserve_a
    read_reserve_b read_total_shares
read_rewritten p n a b t s = (refl, refl, refl)

-- What `accept_deposit` leaves, when it returns.
pub accept_deposit-rewritten :
    {W : Type 0} (t : Tokens W) (env : Env) (p : ℕ) (a b least x y total shares : ℤ)
    (c : Chain Store W)
    → Returns
        (λ out c'.
          (out ≡ shares)
          × (least ≤ℤ shares)
          × (is_some c.store.token_a ≡ true)
          × (c'.store
              ≡ rewritten p
                  (read_lp_balance c.store p +ℤ shares)
                  (x +ℤ a)
                  (y +ℤ b)
                  (total +ℤ shares)
                  c.store))
        (accept_deposit t env p a b least x y total shares c)
unfolding accept_deposit
accept_deposit-rewritten t env p a b least x y total shares c = ground arith

pub pay_out-rewritten :
    {W : Type 0} (t : Tokens W) (env : Env) (p : ℕ) (n least_a least_b held x y total a b : ℤ)
    (c : Chain Store W)
    → Returns
        (λ out c'.
          (out ≡ (a, b))
          × (is_some c.store.token_a ≡ true)
          × (least_a ≤ℤ a)
          × (least_b ≤ℤ b)
          × (c'.store ≡ rewritten p (held -ℤ n) (x -ℤ a) (y -ℤ b) (total -ℤ n) c.store))
        (pay_out t env p n least_a least_b held x y total (a, b) c)
unfolding pay_out
pay_out-rewritten t env p n least_a least_b held x y total a b c = ground arith

-- A pool whose tokens are known has an administrator.
pub has_admin : (s : Store) → IsSound s → is_some s.token_a ≡ true → is_some s.admin ≡ true
has_admin s v h = ground arith

pub total-nonneg : (s : Store) → IsSound s → pos 0 ≤ℤ read_total_shares s
unfolding issued
total-nonneg s v = rw v.shared (value_of-le-sum_by amount_of 0 s.lp_balance v.held).1
