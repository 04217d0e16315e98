-- ===== src/CpmmPool/Deposits.antt =====
-- `add_liquidity` of contracts/cpmm-pool/src/lib.rs against the books and the shares that are there.
use mathlib.Core.Path.{subst₃}
use suban.Base.{sym, ◌||◌, ℕ, ◌<◌, ◌≡◌, true, arith, is_some}
use suban.Int.{
  leb_ℤ, ℤ, pos, negsuc, pos_part, ◌+ℤ◌, ◌≤ℤ◌, ◌<ℤ◌, nonneg-eq-pos, int_laws, parts_of_eq,
}
use suban.Host.{Env, Outcome, Returns, bind_rule, weaken, fail_if_rule, require_auth_rule, ◌>>=◌}
use suban.Tokens.{Tokens, Chain}
use suban.CpmmPool.Store.{
  Store, PoolError, zero_amount, read_reserve_a, read_reserve_b, read_total_shares, read_lp_balance,
}
use suban.CpmmPool.Pricing.{shares_for}
use suban.CpmmPool.Amounts.{IsFair, IsIssue, shares_for-IsIssue}
use suban.CpmmPool.Liquidity.{accept_deposit, add_liquidity}
use suban.CpmmPool.Shares.{
  IsSound, rewritten, rewritten-IsSound, read_rewritten, read_lp_balance-nonneg,
  accept_deposit-rewritten, has_admin, total-nonneg,
}

-- The books after a deposit of `a` and `b` for `out` shares.
pub record Deposited (a b least : ℤ) (s : Store) (out : ℤ) (s' : Store) : Type 0 where
  pub sound : IsSound s'
  pub enough : (least ≤ℤ out) × (pos 0 ≤ℤ out)
  pub reserve_a : read_reserve_a s' ≡ read_reserve_a s +ℤ a
  pub reserve_b : read_reserve_b s' ≡ read_reserve_b s +ℤ b
  pub total : read_total_shares s' ≡ read_total_shares s +ℤ out
  pub fair_a :
      0 < pos_part (read_total_shares s)
      → IsFair
          (pos_part a)
          (pos_part (read_reserve_a s))
          (pos_part out)
          (pos_part (read_total_shares s))
  pub fair_b :
      0 < pos_part (read_total_shares s)
      → IsFair
          (pos_part b)
          (pos_part (read_reserve_b s))
          (pos_part out)
          (pos_part (read_total_shares s))

module _ (p a b x y total : ℕ) (least : ℤ) (s : Store) (v : IsSound s)
    (hx : read_reserve_a s ≡ pos x) (hy : read_reserve_b s ≡ pos y)
    (ht : read_total_shares s ≡ pos total) where
  rewritten-Deposited :
      (out : ℤ)
      → is_some s.admin ≡ true
      → least ≤ℤ out
      → IsIssue a b x y total out
      → Deposited (pos a) (pos b) least s out (
          rewritten p
            (read_lp_balance s p +ℤ out)
            (pos x +ℤ pos a)
            (pos y +ℤ pos b)
            (pos total +ℤ out)
            s)
  rewritten-Deposited out i enough (q, e, fair, root) =
      let n = read_lp_balance s p +ℤ out in
      let own = read_lp_balance-nonneg p s v in
      let out_nonneg : pos 0 ≤ℤ out = rw e (omega arith) in
      let reads = read_rewritten p n (pos x +ℤ pos a) (pos y +ℤ pos b) (pos total +ℤ out) s in
      record {
        sound =
            rewritten-IsSound p n (pos x +ℤ pos a) (pos y +ℤ pos b) (pos total +ℤ out) s v
              (omega int_laws) (omega int_laws) (omega int_laws) i
              (omega (int_laws, parts_of_eq ht));
        enough = (enough, out_nonneg);
        reserve_a = rw (hx) reads.0;
        reserve_b = rw (hy) reads.1;
        total = rw (ht) reads.2;
        fair_a = rw (e, hx, ht) λ h. (fair h).0;
        fair_b = rw (e, hy, ht) λ h. (fair h).1;
      }

  module _ {W : Type 0} (t : Tokens W) (env : Env) (w : W) where
    abbrev here : Chain Store W
    here = record { store = s; tokens = w }

    -- The rest of `add_liquidity` from the reserves and the total that it has read.
    abbrev from : ℤ → ℤ → ℤ → Outcome PoolError (ℤ × Chain Store W)
    from reserve_a reserve_b total_shares =
        (shares_for (pos a) (pos b) reserve_a reserve_b total_shares >>= λ shares.
        accept_deposit t env p (pos a) (pos b) least reserve_a reserve_b total_shares shares)
          here

    issued-Deposited :
        Returns
          (λ out c'. Deposited (pos a) (pos b) least s out c'.store)
          (from (pos x) (pos y) (pos total))
    issued-Deposited =
        bind_rule (λ shares c'. (c' ≡ here) × IsIssue a b x y total shares)
          (λ out c'. Deposited (pos a) (pos b) least s out c'.store)
          (shares_for (pos a) (pos b) (pos x) (pos y) (pos total) here)
          (λ shares.
            accept_deposit t env p (pos a) (pos b) least (pos x) (pos y) (pos total) shares)
          (shares_for-IsIssue a b x y total here)
          (λ shares c' r. rw r.0 (
            weaken
              (λ out c'.
                (out ≡ shares)
                × (least ≤ℤ shares)
                × (is_some s.token_a ≡ true)
                × (c'.store
                    ≡ rewritten p (read_lp_balance s p +ℤ shares) (pos x +ℤ pos a) (pos y +ℤ pos b)
                        (pos total +ℤ shares) s))
              (λ out c'. Deposited (pos a) (pos b) least s out c'.store)
              (accept_deposit t env p (pos a) (pos b) least (pos x) (pos y) (pos total) shares here)
              (accept_deposit-rewritten t env p (pos a) (pos b) least (pos x) (pos y) (pos total)
                shares here)
              (λ out c' q. rw (q.0, q.3) (rewritten-Deposited shares (has_admin s v q.2) q.1 r.1))))

    read-Deposited :
        Returns
          (λ out c'. Deposited (pos a) (pos b) least s out c'.store)
          (from (read_reserve_a s) (read_reserve_b s) (read_total_shares s))
    read-Deposited =
        subst₃
          (λ i j k. Returns (λ out c'. Deposited (pos a) (pos b) least s out c'.store) (from i j k))
          (sym hx) (sym hy) (sym ht) issued-Deposited

-- On sound books a deposit that returns takes two positive amounts and issues at least the shares that the
-- provider asked for and never a negative number; the books stay sound, each reserve grows by its amount and the
-- total by the shares, and where there were shares before, the new ones are no more than in proportion
-- to either amount, so that no share is worth less of either token than before.
pub add_liquidity-Deposited :
    {W : Type 0} (t : Tokens W) (env : Env) (p : ℕ) (a b least : ℤ) (c : Chain Store W)
    → IsSound c.store
    → Returns
        (λ out c'. (pos 0 <ℤ a) × (pos 0 <ℤ b) × Deposited a b least c.store out c'.store)
        (add_liquidity t env p a b least c)
unfolding add_liquidity
add_liquidity-Deposited {W} t env p (negsuc a) b least c v = ground arith
add_liquidity-Deposited {W} t env p (pos a) (negsuc b) least c v = ground arith
add_liquidity-Deposited {W} t env p (pos a) (pos b) least c v =
    let (x, hx) = nonneg-eq-pos (read_reserve_a c.store) v.has_a in
    let (y, hy) = nonneg-eq-pos (read_reserve_b c.store) v.has_b in
    let (total, ht) = nonneg-eq-pos (read_total_shares c.store) (total-nonneg c.store v) in
    let Q : ℤ → Chain Store W → Type 0 = λ out c'.
      (pos 0 <ℤ pos a) × (pos 0 <ℤ pos b) × Deposited (pos a) (pos b) least c.store out c'.store in
    let bad = leb_ℤ (pos a) (pos 0) || leb_ℤ (pos b) (pos 0) in
    let rest = read-Deposited p a b x y total least c.store v hx hy ht t env c.tokens in
    (require_auth_rule Q env p _ c (λ _. fail_if_rule Q bad zero_amount _ c (λ good.
      weaken (λ out c'. Deposited (pos a) (pos b) least c.store out c'.store) Q _ rest
        (λ out c' d. (ground arith, ground arith, d)))))
