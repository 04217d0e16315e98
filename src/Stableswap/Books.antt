-- ===== src/Stableswap/Books.antt =====
-- The shares and the reserves of contracts/stableswap/src/lib.rs under deposits and withdrawals.
use suban.Base.{
  ◌||◌, ℕ, ◌≤◌, ◌<◌, ◌≡◌, ◌⊎◌, refl, true, arith, inl, inr, Option-cases, none, some, is_some,
  unwrap_or,
}
use mathlib.Core.Path.{subst}
use suban.Base.{sym}
use suban.Int.{ℤ, pos, ◌+ℤ◌, ◌-ℤ◌, ◌≤ℤ◌, ◌<ℤ◌, ◌==ℤ◌, leb_ℤ, ltb_ℤ, int_laws, parts_of_eq}
use suban.Dict.{
  nat_eq, lookup, insert, AllValues, sum_by, value_of, sum_by-insert, insert-AllValues,
  lookup-AllValues, value_of-le-sum_by,
}
use suban.Host.{Env, Returns, weaken, bind_rule, fail_if_rule, require_auth_rule, unwrap}
use suban.Tokens.{Tokens, Chain}
use suban.Stableswap.Store.{
  zero_amount, insufficient_lp_shares, insufficient_liquidity, slippage_exceeded, Store,
  read_reserve_a, read_reserve_b, read_total_shares, read_lp_balance, read_fee_bps,
  write_lp_balance, write_reserve_a, write_reserve_b, write_total_shares,
}
use suban.Stableswap.Liquidity.{
  shares_for, part_of, accept_deposit, pay_out, add_liquidity, remove_liquidity,
}
use suban.Stableswap.Amounts.{unwrap-found, shares_for-nonneg, part_of-le}

abbrev pub same : ℤ → ℤ
same x = x

abbrev pub Nonneg : ℤ → Type 0
Nonneg x = pos 0 ≤ℤ x

-- The reserves and shares are at least zero, the shares of the providers add up to the total, the
-- amplification is positive and the fee at most a tenth; there are no shares before `initialize`.
pub record IsStable (s : Store) : Type 0 where
  pub has_a : pos 0 ≤ℤ read_reserve_a s
  pub has_b : pos 0 ≤ℤ read_reserve_b s
  pub held : AllValues Nonneg s.lp_balance
  pub summed : sum_by same s.lp_balance ≡ read_total_shares s
  pub started : (is_some s.admin ≡ true) ⊎ ((sum_by same s.lp_balance ≡ pos 0) × (s.token_a ≡ none))
  pub fee_fits : read_fee_bps s ≤ 1000
  pub amplified : 0 < unwrap_or s.amplification 1

share_value : (s : Store) (p : ℕ) → value_of same (lookup p s.lp_balance) ≡ read_lp_balance s p
unfolding read_lp_balance
share_value s p = elim (Option-cases (lookup p s.lp_balance)) [
  | inl e ↦ rw e refl
  | inr (x, e) ↦ rw e refl
]

share_nonneg : (s : Store) (p : ℕ) → IsStable s → pos 0 ≤ℤ read_lp_balance s p
unfolding read_lp_balance
share_nonneg s p v = elim (Option-cases (lookup p s.lp_balance)) [
  | inl e ↦ rw e (omega arith)
  | inr (x, e) ↦ rw e (lookup-AllValues Nonneg p s.lp_balance v.held e)
]

-- Nobody has more than there is.
share_bound : (s : Store) (p : ℕ) → IsStable s → read_lp_balance s p ≤ℤ read_total_shares s
share_bound s p v =
    let b = value_of-le-sum_by same p s.lp_balance v.held in
    let own = parts_of_eq (share_value s p) in
    let total = parts_of_eq v.summed in omega (arith, b, own, total)

-- The storage after a deposit or a withdrawal.
abbrev pub shared : Store → ℕ → (own a b total : ℤ) → Store
shared s p own a b total = record s {
  lp_balance = insert p own s.lp_balance;
  reserve_a = some a;
  reserve_b = some b;
  total_shares = some total;
}

shared-IsStable :
    (s : Store) (p : ℕ) (own a b total : ℤ)
    → IsStable s
    → pos 0 ≤ℤ own
    → pos 0 ≤ℤ a
    → pos 0 ≤ℤ b
    → is_some s.token_a ≡ true
    → own -ℤ read_lp_balance s p ≡ total -ℤ read_total_shares s
    → IsStable (shared s p own a b total)
unfolding read_reserve_a read_reserve_b read_total_shares read_fee_bps
shared-IsStable s p own a b total v low ha hb i change =
    let old = parts_of_eq (share_value s p) in
    let sum = parts_of_eq (sum_by-insert same p own s.lp_balance) in
    let before = parts_of_eq v.summed in
    let moves = parts_of_eq change in
    record {
      has_a = ha;
      has_b = hb;
      held = insert-AllValues Nonneg p own s.lp_balance v.held low;
      summed = omega int_laws;
      started = inl (ground (arith, v.started));
      fee_fits = v.fee_fits;
      amplified = v.amplified;
    }

same_gain : (a b x : ℤ) → a +ℤ x -ℤ a ≡ b +ℤ x -ℤ b
same_gain a b x = omega int_laws

same_loss : (a b x : ℤ) → a -ℤ x -ℤ a ≡ b -ℤ x -ℤ b
same_loss a b x = omega int_laws

module _ {W : Type 0} (t : Tokens W) (env : Env) (c : Chain Store W) where
  abbrev s : Store
  s = c.store

  accept_deposit-shared :
      (p : ℕ) (a b least x y total n : ℤ)
      → Returns
          (λ out c'.
            (out ≡ n)
            × (least ≤ℤ n)
            × (is_some s.token_a ≡ true)
            × (c'.store ≡ shared s p (read_lp_balance s p +ℤ n) (x +ℤ a) (y +ℤ b) (total +ℤ n)))
          (accept_deposit t env p a b least x y total n c)
  unfolding accept_deposit write_lp_balance write_reserve_a write_reserve_b write_total_shares
  accept_deposit-shared p a b least x y total n = ground arith

  pay_out-shared :
      (p : ℕ) (n held x y total a b : ℤ)
      → Returns
          (λ out c'.
            (out ≡ (a, b))
            × (is_some s.token_a ≡ true)
            × (c'.store ≡ shared s p (held -ℤ n) (x -ℤ a) (y -ℤ b) (total -ℤ n)))
          (pay_out t env p n held x y total a b c)
  unfolding pay_out write_lp_balance write_reserve_a write_reserve_b write_total_shares
  pay_out-shared p n held x y total a b = ground arith

  module _ (v : IsStable s) where
    abbrev Stable : Chain Store W → Type 0
    Stable c' = IsStable c'.store

    accept_deposit-IsStable :
        (p : ℕ) (a b least n : ℤ)
        → pos 0 <ℤ a
        → pos 0 <ℤ b
        → pos 0 ≤ℤ n
        → Returns
            (λ _ c'. Stable c')
            (accept_deposit t env p a b least
              (read_reserve_a s)
              (read_reserve_b s)
              (read_total_shares s)
              n
              c)
    accept_deposit-IsStable p a b least n ha hb hn =
        let own = share_nonneg s p v in
        let res_a = v.has_a in
        let res_b = v.has_b in
        weaken _ _
          (accept_deposit t env p a b least (read_reserve_a s) (read_reserve_b s)
            (read_total_shares s) n c)
          (accept_deposit-shared p a b least _ _ _ n)
          (λ out c' d. subst IsStable (sym d.3) (
            shared-IsStable s p _ _ _ _ v (omega (int_laws, own, hn)) (omega (int_laws, res_a, ha))
              (omega (int_laws, res_b, hb)) d.2 (same_gain _ _ n)))

    pub add_liquidity-IsStable :
        (p : ℕ) (a b least : ℤ) → Returns (λ _ c'. Stable c') (add_liquidity t env p a b least c)
    unfolding add_liquidity
    add_liquidity-IsStable p a b least =
        let Q : ℤ → Chain Store W → Type 0 = λ _ c'. Stable c' in
        require_auth_rule Q env p _ c (λ _.
          fail_if_rule Q (leb_ℤ a (pos 0) || leb_ℤ b (pos 0)) zero_amount _ c (λ signs.
            bind_rule _ Q (unwrap s.amplification c) _ (unwrap-found c s.amplification) (λ amp c' g.
              rw g.0 (
                bind_rule (λ n c''. (c'' ≡ c) × (pos 0 ≤ℤ n)) Q
                  (shares_for a b (read_reserve_a s) (read_reserve_b s) (read_total_shares s) amp
                    (read_total_shares s ==ℤ pos 0) c)
                  _
                  (shares_for-nonneg c a b (read_reserve_a s) (read_reserve_b s)
                    (read_total_shares s) amp (read_total_shares s ==ℤ pos 0)
                    (let some_amp = v.amplified in rw g.1 at some_amp))
                  (λ n c'' e. rw e.0 (
                    accept_deposit-IsStable p a b least n (ground (arith, signs))
                      (ground (arith, signs)) e.1))))))

    pay_out-IsStable :
        (p : ℕ) (n a b : ℤ)
        → n ≤ℤ read_lp_balance s p
        → a ≤ℤ read_reserve_a s
        → b ≤ℤ read_reserve_b s
        → Returns
            (λ _ c'. Stable c')
            (pay_out t env p n
              (read_lp_balance s p)
              (read_reserve_a s)
              (read_reserve_b s)
              (read_total_shares s)
              a
              b
              c)
    pay_out-IsStable p n a b hn ha hb =
        weaken _ _
          (pay_out t env p n (read_lp_balance s p) (read_reserve_a s) (read_reserve_b s)
            (read_total_shares s) a b c)
          (pay_out-shared p n _ _ _ _ a b)
          (λ out c' d. subst IsStable (sym d.2) (
            shared-IsStable s p _ _ _ _ v (omega (int_laws, hn)) (omega (int_laws, ha))
              (omega (int_laws, hb)) d.1 (same_loss _ _ n)))

    pub remove_liquidity-IsStable :
        (p : ℕ) (n least_a least_b : ℤ)
        → Returns (λ _ c'. Stable c') (remove_liquidity t env p n least_a least_b c)
    unfolding remove_liquidity
    remove_liquidity-IsStable p n least_a least_b =
        let Q : ℤ × ℤ → Chain Store W → Type 0 = λ _ c'. Stable c' in
        let held = read_lp_balance s p in
        let total = read_total_shares s in
        require_auth_rule Q env p _ c (λ _.
          fail_if_rule Q (leb_ℤ n (pos 0)) zero_amount _ c (λ some_n.
            fail_if_rule Q (ltb_ℤ held n) insufficient_lp_shares _ c (λ enough.
              fail_if_rule Q (total ==ℤ pos 0) insufficient_liquidity _ c (λ some_shares.
                let low : pos 0 ≤ℤ n = ground (arith, some_n) in
                let owned : n ≤ℤ held = ground (arith, enough) in
                let within : n ≤ℤ total = omega (arith, owned, share_bound s p v) in
                bind_rule _ Q (part_of n (read_reserve_a s) total c) _
                  (part_of-le c n _ total low within v.has_a)
                  (λ a c1 e1. rw e1.0 (
                    bind_rule _ Q (part_of n (read_reserve_b s) total c) _
                      (part_of-le c n _ total low within v.has_b)
                      (λ b c2 e2. rw e2.0 (
                        fail_if_rule Q (ltb_ℤ a least_a || ltb_ℤ b least_b) slippage_exceeded _ c
                          (λ _. pay_out-IsStable p n a b owned e1.1 e2.1)))))))))
