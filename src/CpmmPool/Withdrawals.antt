-- ===== src/CpmmPool/Withdrawals.antt =====
-- `remove_liquidity` of contracts/cpmm-pool/src/lib.rs against the books and the shares that stay.
use mathlib.Core.Path.{subst₃}
use suban.Base.{ℕ, ◌*◌, ◌≤◌, ◌<◌, ◌≡◌, sym, true, is_some, arith}
use suban.Int.{
  ℤ, pos, negsuc, pos_part, ◌+ℤ◌, ◌-ℤ◌, ◌≤ℤ◌, ◌<ℤ◌, ◌==ℤ◌, leb_ℤ, ltb_ℤ, nonneg-eq-pos, int_laws,
  parts_of_eq,
}
use suban.Host.{Env, Outcome, Returns, bind_rule, weaken, fail_if_rule, require_auth_rule, ◌>>=◌}
use suban.Tokens.{Tokens, Chain}
use suban.CpmmPool.Store.{
  Store, PoolError, zero_amount, insufficient_lp_shares, insufficient_liquidity, read_reserve_a,
  read_reserve_b, read_total_shares, read_lp_balance,
}
use suban.CpmmPool.Pricing.{amounts_for}
use suban.CpmmPool.Amounts.{portion, portion_fair, portion-le, amounts_for-lem}
use suban.CpmmPool.Liquidity.{pay_out, remove_liquidity}
use suban.CpmmPool.Shares.{
  IsSound, has_admin, total-nonneg, rewritten, rewritten-IsSound, read_rewritten,
  read_lp_balance-le-total, pay_out-rewritten,
}

-- The books after `n` shares were given back for the amounts `out`.
pub record Withdrawn (n : ℤ) (s : Store) (out : ℤ × ℤ) (s' : Store) : Type 0 where
  pub sound : IsSound s'
  pub nonneg_a : pos 0 ≤ℤ out.0
  pub nonneg_b : pos 0 ≤ℤ out.1
  pub reserve_a : read_reserve_a s' +ℤ out.0 ≡ read_reserve_a s
  pub reserve_b : read_reserve_b s' +ℤ out.1 ≡ read_reserve_b s
  pub total : read_total_shares s' +ℤ n ≡ read_total_shares s
  pub fair_a :
      pos_part out.0 * pos_part (read_total_shares s) ≤ pos_part n * pos_part (read_reserve_a s)
  pub fair_b :
      pos_part out.1 * pos_part (read_total_shares s) ≤ pos_part n * pos_part (read_reserve_b s)

module _ (p n x y total : ℕ) (s : Store) (v : IsSound s) (hx : read_reserve_a s ≡ pos x)
    (hy : read_reserve_b s ≡ pos y) (ht : read_total_shares s ≡ pos total)
    (owned : pos n ≤ℤ read_lp_balance s p) (some_shares : 0 < total) where
  abbrev a : ℕ
  a = portion n x total

  abbrev b : ℕ
  b = portion n y total

  rewritten-Withdrawn :
      is_some s.admin ≡ true
      → Withdrawn
          (pos n)
          s
          (pos a, pos b)
          (rewritten p
            (read_lp_balance s p -ℤ pos n)
            (pos x -ℤ pos a)
            (pos y -ℤ pos b)
            (pos total -ℤ pos n)
            s)
  rewritten-Withdrawn i =
      let m = read_lp_balance s p -ℤ pos n in
      let reads = read_rewritten p m (pos x -ℤ pos a) (pos y -ℤ pos b) (pos total -ℤ pos n) s in
      let most : n ≤ total = omega (int_laws, read_lp_balance-le-total p s v, parts_of_eq ht) in
      let a_le = portion-le n x total most some_shares in
      let b_le = portion-le n y total most some_shares in
      record {
        sound =
            rewritten-IsSound p m (pos x -ℤ pos a) (pos y -ℤ pos b) (pos total -ℤ pos n) s v
              (omega int_laws) (omega (int_laws, a_le)) (omega (int_laws, b_le)) i
              (omega (int_laws, parts_of_eq ht));
        nonneg_a = omega arith;
        nonneg_b = omega arith;
        reserve_a = rw (reads.0, hx) (omega int_laws);
        reserve_b = rw (reads.1, hy) (omega int_laws);
        total = rw (reads.2, ht) (omega int_laws);
        fair_a = rw (hx, ht) (portion_fair n x total);
        fair_b = rw (hy, ht) (portion_fair n y total);
      }

  module _ {W : Type 0} (t : Tokens W) (env : Env) (least_a least_b : ℤ) (w : W) where
    abbrev here : Chain Store W
    here = record { store = s; tokens = w }

    -- The rest of `remove_liquidity` from the reserves and the total that it has read.
    abbrev from : ℤ → ℤ → ℤ → Outcome PoolError ((ℤ × ℤ) × Chain Store W)
    from reserve_a reserve_b total_shares =
        (amounts_for (pos n) reserve_a reserve_b total_shares >>= λ amounts.
        pay_out t env p (pos n) least_a least_b (read_lp_balance s p) reserve_a reserve_b
          total_shares amounts)
          here

    abbrev Pays : ℤ × ℤ → Chain Store W → Type 0
    Pays out c' = (least_a ≤ℤ out.0) × (least_b ≤ℤ out.1) × Withdrawn (pos n) s out c'.store

    priced-Withdrawn : Returns Pays (from (pos x) (pos y) (pos total))
    priced-Withdrawn =
        bind_rule (λ out c'. (c' ≡ here) × (out ≡ (pos a, pos b))) Pays
          (amounts_for (pos n) (pos x) (pos y) (pos total) here)
          (λ amounts.
            pay_out t env p (pos n) least_a least_b (read_lp_balance s p) (pos x) (pos y)
              (pos total) amounts)
          (amounts_for-lem n x y total here)
          (λ out c' r.
            rw (r.0, r.1)
              (weaken
                (λ out c'.
                  (out ≡ (pos a, pos b))
                  × (is_some s.token_a ≡ true)
                  × (least_a ≤ℤ pos a)
                  × (least_b ≤ℤ pos b)
                  × (c'.store
                      ≡ rewritten p (read_lp_balance s p -ℤ pos n) (pos x -ℤ pos a) (pos y -ℤ pos b)
                          (pos total -ℤ pos n) s))
                Pays
                (pay_out t env p (pos n) least_a least_b (read_lp_balance s p) (pos x) (pos y)
                  (pos total) (pos a, pos b) here)
                (pay_out-rewritten t env p (pos n) least_a least_b (read_lp_balance s p) (pos x)
                  (pos y) (pos total) (pos a) (pos b) here)
                (λ out c' q. rw (q.0, q.4) (q.2, q.3, rewritten-Withdrawn (has_admin s v q.1)))))

    read-Withdrawn : Returns Pays (from (read_reserve_a s) (read_reserve_b s) (read_total_shares s))
    read-Withdrawn =
        subst₃ (λ i j k. Returns Pays (from i j k)) (sym hx) (sym hy) (sym ht) priced-Withdrawn

-- On sound books a withdrawal that returns takes a positive number of shares, no more than the provider holds,
-- and pays at least what the provider asked for and never a negative amount; the books stay sound, the
-- amounts leave the reserves and the shares the total, and neither amount is more than in proportion to
-- the shares, so that those who stay lose nothing.
pub remove_liquidity-Withdrawn :
    {W : Type 0} (t : Tokens W) (env : Env) (p : ℕ) (n least_a least_b : ℤ) (c : Chain Store W)
    → IsSound c.store
    → Returns
        (λ out c'.
          (pos 0 <ℤ n)
          × (n ≤ℤ read_lp_balance c.store p)
          × (least_a ≤ℤ out.0)
          × (least_b ≤ℤ out.1)
          × Withdrawn n c.store out c'.store)
        (remove_liquidity t env p n least_a least_b c)
unfolding remove_liquidity
remove_liquidity-Withdrawn t env p (negsuc n) least_a least_b c v = ground arith
remove_liquidity-Withdrawn {W} t env p (pos n) least_a least_b c v =
    let s = c.store in
    let (x, hx) = nonneg-eq-pos (read_reserve_a s) v.has_a in
    let (y, hy) = nonneg-eq-pos (read_reserve_b s) v.has_b in
    let (total, ht) = nonneg-eq-pos (read_total_shares s) (total-nonneg s v) in
    let Q : ℤ × ℤ → Chain Store W → Type 0 = λ out c'.
      (pos 0 <ℤ pos n)
      × (pos n ≤ℤ read_lp_balance s p)
      × (least_a ≤ℤ out.0)
      × (least_b ≤ℤ out.1)
      × Withdrawn (pos n) s out c'.store in
    require_auth_rule Q env p _ c (λ _.
      fail_if_rule Q (leb_ℤ (pos n) (pos 0)) zero_amount _ c (λ some_in.
        fail_if_rule Q (ltb_ℤ (read_lp_balance s p) (pos n)) insufficient_lp_shares _ c (λ enough.
          fail_if_rule Q (read_total_shares s ==ℤ pos 0) insufficient_liquidity _ c (λ issued.
            let owned : pos n ≤ℤ read_lp_balance s p = ground arith in
            let some_shares : 0 < total = ground arith in
            weaken _ Q _
              (read-Withdrawn p n x y total s v hx hy ht owned some_shares t env least_a least_b
                c.tokens)
              (λ out c' d. (ground arith, owned, d.0, d.1, d.2))))))
