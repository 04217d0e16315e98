-- ===== src/StrategyVault/Par.antt =====
-- What a share of contracts/strategy-vault/src/lib.rs is worth, under any history of requests.
use suban.Base.{ℕ, ◌≡◌, ◌⊎◌, inr, arith, refl, sym, ◌∙◌, Bool, true, none, List, [], is_some}
use mathlib.Core.Path.{subst}
use suban.Int.{ℤ, pos, ◌+ℤ◌, ◌-ℤ◌, ◌≤ℤ◌, int_laws, parts_of_eq}
use suban.Dict.{insert, nat_eq, sum_by, sum_by-insert, insert-AllValues}
use suban.Host.{Env, Returns, weaken, history, history_lem}
use suban.Tokens.{Tokens, Chain}
use suban.StrategyVault.Vault
use suban.StrategyVault.Vault.{
  Store, admin_only, read_admin, read_cap, read_total_assets, read_total_shares, read_paused,
  read_shares, require_not_paused,
}
use suban.StrategyVault.Accounts.{
  Request, deployed, execute, same, IsAtPar, share_value, share_nonneg, moved, deposit-moved,
  withdraw-moved, whole_share,
}

moved-IsAtPar :
    (s : Store) (u : ℕ) (own assets shares : ℤ)
    → IsAtPar s
    → pos 0 ≤ℤ own
    → own -ℤ read_shares s u ≡ shares -ℤ read_total_shares s
    → assets ≡ shares
    → assets ≤ℤ read_cap s
    → (is_some s.admin ≡ true) ⊎ ((s.asset ≡ none) × (insert u own s.shares ≡ []))
    → IsAtPar (moved s u own assets shares)
unfolding read_cap read_total_assets read_total_shares
moved-IsAtPar s u own assets shares v low change par cap start =
    let old = parts_of_eq (share_value s u) in
    let sum = parts_of_eq (sum_by-insert same u own s.shares) in
    let before = parts_of_eq v.summed in
    let moves = parts_of_eq change in
    record {
      shares_nonneg = insert-AllValues (λ x. pos 0 ≤ℤ x) u own s.shares v.shares_nonneg low;
      summed = omega int_laws;
      at_par = par;
      capped = cap;
      started = start;
    }

same_gain : (a b x : ℤ) → a +ℤ x -ℤ a ≡ b +ℤ x -ℤ b
same_gain a b x = omega int_laws

same_loss : (a b x : ℤ) → a -ℤ x -ℤ a ≡ b -ℤ x -ℤ b
same_loss a b x = omega int_laws

module _ {W : Type 0} (t : Tokens W) where
  abbrev AtPar : Chain Store W → Type 0
  AtPar c = IsAtPar c.store

  deposit-IsAtPar :
      (env : Env) (u : ℕ) (x : ℤ) (c : Chain Store W)
      → AtPar c
      → Returns (λ n c'. (n ≡ x) × AtPar c') (Vault.deposit t env u x c)
  deposit-IsAtPar env u x c v =
      weaken _ _ (Vault.deposit t env u x c) (deposit-moved t c v env u x) (λ n c' d.
        let par = parts_of_eq v.at_par in
        let own = share_nonneg c.store u v in
        (
          d.1,
          subst IsAtPar (sym d.4) (
              moved-IsAtPar c.store u (read_shares c.store u +ℤ x) _ _ v
                (omega (int_laws, own, d.0)) (same_gain _ _ x) (omega (int_laws, par)) d.3
                (ground (arith, v.started, d.2))),
        ))

  withdraw-IsAtPar :
      (env : Env) (u : ℕ) (n : ℤ) (c : Chain Store W)
      → AtPar c
      → Returns (λ x c'. (x ≡ n) × AtPar c') (Vault.withdraw t env u n c)
  withdraw-IsAtPar env u n c v =
      weaken _ _ (Vault.withdraw t env u n c) (withdraw-moved t c v env u n) (λ x c' d.
        let whole = d.2 ∙ whole_share t c v u n d.0 d.1 in
        let same_amount = parts_of_eq whole in
        let par = parts_of_eq v.at_par in
        let cap = v.capped in
        (
          whole,
          subst IsAtPar (sym d.4) (
              moved-IsAtPar c.store u (read_shares c.store u -ℤ n) _ _ v (omega (int_laws, d.1))
                (same_loss _ _ n) (omega (int_laws, par, same_amount))
                (omega (int_laws, cap, same_amount, d.0)) (ground (arith, v.started, d.3))),
        ))

  initialize-IsAtPar :
      (env : Env) (a k : ℕ) (x : ℤ) (c : Chain Store W)
      → AtPar c
      → Returns (λ _ c'. AtPar c') (Vault.initialize env a k x c)
  unfolding Vault.initialize read_total_assets read_total_shares read_cap sum_by
  initialize-IsAtPar env a k x c v = ground (arith, v)

  set_strategy-IsAtPar :
      (env : Env) (a k : ℕ) (c : Chain Store W)
      → AtPar c
      → Returns (λ _ c'. AtPar c') (Vault.set_strategy env a k c)
  unfolding Vault.set_strategy admin_only read_admin require_not_paused read_total_assets
      read_total_shares read_cap
  set_strategy-IsAtPar env a k c v = ground (arith, v)

  set_deposit_cap-IsAtPar :
      (env : Env) (a : ℕ) (x : ℤ) (c : Chain Store W)
      → AtPar c
      → Returns (λ _ c'. AtPar c') (Vault.set_deposit_cap env a x c)
  unfolding Vault.set_deposit_cap admin_only read_admin read_total_assets read_total_shares read_cap
  set_deposit_cap-IsAtPar env a x c v = ground (arith, v)

  set_paused-IsAtPar :
      (env : Env) (a : ℕ) (b : Bool) (c : Chain Store W)
      → AtPar c
      → Returns (λ _ c'. AtPar c') (Vault.set_paused env a b c)
  unfolding Vault.set_paused admin_only read_admin read_total_assets read_total_shares read_cap
  set_paused-IsAtPar env a b c v = ground (arith, v)

  execute-IsAtPar :
      (env : Env) (r : Request) (c : Chain Store W)
      → AtPar c
      → Returns (λ _ c'. AtPar c') (execute t env r c)
  unfolding execute
  execute-IsAtPar env (Request.initialize a k x) c v = initialize-IsAtPar env a k x c v
  execute-IsAtPar env (Request.set_strategy a k) c v = set_strategy-IsAtPar env a k c v
  execute-IsAtPar env (Request.set_deposit_cap a x) c v = set_deposit_cap-IsAtPar env a x c v
  execute-IsAtPar env (Request.set_paused a b) c v = set_paused-IsAtPar env a b c v
  execute-IsAtPar env (Request.deposit u x) c v = ground (arith, deposit-IsAtPar env u x c v)
  execute-IsAtPar env (Request.withdraw u n) c v = ground (arith, withdraw-IsAtPar env u n c v)

  -- Whatever calls a new vault receives, with whatever tokens behind it, in whatever order and
  -- whichever of them fail: no user's shares are below zero, they add up to the recorded total of
  -- the shares, and that is exactly the total of the assets, which is within the deposit cap.
  pub history-IsAtPar :
      (w : W) (calls : List (Env × Request))
      → IsAtPar (history (execute t) (record { store = deployed; tokens = w }) calls).store
  unfolding read_total_assets read_total_shares read_cap sum_by
  history-IsAtPar w calls =
      history_lem (execute t) AtPar execute-IsAtPar calls (record { store = deployed; tokens = w })
        (record {
          shares_nonneg = tt;
          summed = refl;
          at_par = refl;
          capped = omega arith;
          started = inr (refl, refl);
        })
