-- ===== src/UsdcVault/Accounts.antt =====
-- The requests that a client can send to contracts/usdc-vault/src/lib.rs, and its accounts under any
-- history of them.
use suban.Base.{
  ℕ, ◌≡◌, ◌⊎◌, inl, inr, arith, refl, sym, Bool, true, Option-cases, none, some, List, [], is_some,
}
use mathlib.Core.Path.{subst}
use suban.Int.{ℤ, pos, ◌+ℤ◌, ◌≤ℤ◌, ◌<ℤ◌, int_laws, parts_of_eq}
use suban.Dict.{
  lookup, insert, nat_eq, sum_by, sum_by-insert, value_of, AllValues, insert-AllValues,
  lookup-AllValues,
}
use suban.Host.{Env, Returns, weaken, history, history_lem}
use suban.Tokens.{Tokens, Chain}
use suban.UsdcVault.Vault
use suban.UsdcVault.Vault.{
  Store, Action, admin_only, is_paused, read_total_deposited, read_total_released,
  read_user_deposit, read_reserve_balance, pay_reserved,
}

pub data Request : Type 0 where
  initialize : (admin usdc_token : ℕ) → Request
  deposit : (depositor : ℕ) → (amount : ℤ) → Request
  release : (admin recipient : ℕ) → (amount : ℤ) → Request
  admin_withdraw : (admin destination : ℕ) → (amount : ℤ) → Request
  set_reserve_minimum : (admin : ℕ) → (reserve_minimum : ℤ) → Request
  set_paused : (admin : ℕ) → (paused : Bool) → Request
  set_admin : (admin new_admin : ℕ) → Request

-- The storage before the first call.
abbrev pub deployed : Store
deployed = record {
  admin = none;
  paused_flag = none;
  usdc_token = none;
  total_deposited = none;
  total_released = none;
  deposits = [];
  reserve_balance = none;
}

abbrev pub same : ℤ → ℤ
same x = x

-- The accounts agree: no deposit is below zero, the deposits add up to the total, and what was
-- released is not below zero. Nothing is deposited before there is a token.
pub record IsBalanced (s : Store) : Type 0 where
  pub deposits_nonneg : AllValues (λ x. pos 0 ≤ℤ x) s.deposits
  pub totalled : sum_by same s.deposits ≡ read_total_deposited s
  pub released_nonneg : pos 0 ≤ℤ read_total_released s
  pub started : (is_some s.admin ≡ true) ⊎ ((s.usdc_token ≡ none) × (s.deposits ≡ []))

module _ {W : Type 0} (t : Tokens W) where
  unfoldable pub execute : Env → Request → Action W (Unit {0})
  execute env (initialize admin usdc_token) = Vault.initialize env admin usdc_token
  execute env (deposit depositor amount) = Vault.deposit t env depositor amount
  execute env (release admin recipient amount) = Vault.release t env admin recipient amount
  execute env (admin_withdraw admin destination amount) =
      Vault.admin_withdraw t env admin destination amount
  execute env (set_reserve_minimum admin reserve_minimum) =
      Vault.set_reserve_minimum env admin reserve_minimum
  execute env (set_paused admin paused) = Vault.set_paused env admin paused
  execute env (set_admin admin new_admin) = Vault.set_admin env admin new_admin

  -- A payment leaves the storage alone.
  pay_reserved-store :
      (env : Env) (to : ℕ) (x : ℤ) (c : Chain Store W)
      → Returns (λ _ c'. c'.store ≡ c.store) (pay_reserved t env to x c)
  unfolding pay_reserved
  pay_reserved-store env to x c = ground arith

  deposit-effect :
      (env : Env) (p : ℕ) (x : ℤ) (c : Chain Store W)
      → Returns
          (λ _ c'.
            (pos 0 <ℤ x)
            × (is_some c.store.usdc_token ≡ true)
            × (c'.store ≡ record c.store {
              total_deposited = some (read_total_deposited c.store +ℤ x);
              deposits = insert p (read_user_deposit c.store p +ℤ x) c.store.deposits;
            }))
          (Vault.deposit t env p x c)
  unfolding Vault.deposit
  deposit-effect env p x c = ground arith

  release-effect :
      (env : Env) (a p : ℕ) (x : ℤ) (c : Chain Store W)
      → Returns
          (λ _ c'.
            (pos 0 <ℤ x)
            × (c'.store
                ≡ record c.store { total_released = some (read_total_released c.store +ℤ x) }))
          (Vault.release t env a p x c)
  unfolding Vault.release admin_only
  release-effect env a p x c = ground (arith, pay_reserved-store env p x c)

  abbrev Balanced : Chain Store W → Type 0
  Balanced c = IsBalanced c.store

  -- A user's deposit counts in the sum.
  user_value : (s : Store) (p : ℕ) → value_of same (lookup p s.deposits) ≡ read_user_deposit s p
  unfolding read_user_deposit
  user_value s p = elim (Option-cases (lookup p s.deposits)) [
    | inl e ↦ rw e refl
    | inr (x, e) ↦ rw e refl
  ]

  nonneg_user : (s : Store) (p : ℕ) → IsBalanced s → pos 0 ≤ℤ read_user_deposit s p
  unfolding read_user_deposit
  nonneg_user s p v = elim (Option-cases (lookup p s.deposits)) [
    | inl e ↦ rw e (omega arith)
    | inr (x, e) ↦ rw e (lookup-AllValues (λ x. pos 0 ≤ℤ x) p s.deposits v.deposits_nonneg e)
  ]

  deposited-IsBalanced :
      (s : Store) (p : ℕ) (x : ℤ)
      → IsBalanced s
      → pos 0 <ℤ x
      → is_some s.usdc_token ≡ true
      → IsBalanced (record s {
        total_deposited = some (read_total_deposited s +ℤ x);
        deposits = insert p (read_user_deposit s p +ℤ x) s.deposits;
      })
  unfolding read_total_deposited read_total_released
  deposited-IsBalanced s p x v positive has =
      let old = parts_of_eq (user_value s p) in
      let sum = parts_of_eq (sum_by-insert same p (read_user_deposit s p +ℤ x) s.deposits) in
      let before = parts_of_eq v.totalled in
      let low = nonneg_user s p v in
      record {
        deposits_nonneg =
            insert-AllValues (λ x. pos 0 ≤ℤ x) p (read_user_deposit s p +ℤ x) s.deposits
              v.deposits_nonneg (omega (int_laws, low, positive));
        totalled = omega (int_laws, old, sum, before);
        released_nonneg = v.released_nonneg;
        started = ground (arith, v.started, has);
      }

  deposit-IsBalanced :
      (env : Env) (p : ℕ) (x : ℤ) (c : Chain Store W)
      → Balanced c
      → Returns (λ _ c'. Balanced c') (Vault.deposit t env p x c)
  deposit-IsBalanced env p x c v =
      weaken _ _ (Vault.deposit t env p x c) (deposit-effect env p x c)
        (λ _ c' d. subst IsBalanced (sym d.2) (deposited-IsBalanced c.store p x v d.0 d.1))

  release-IsBalanced :
      (env : Env) (a p : ℕ) (x : ℤ) (c : Chain Store W)
      → Balanced c
      → Returns (λ _ c'. Balanced c') (Vault.release t env a p x c)
  unfolding read_total_deposited read_total_released
  release-IsBalanced env a p x c v =
      weaken _ _ (Vault.release t env a p x c) (release-effect env a p x c) (λ _ c' d.
        subst IsBalanced (sym d.1) (record {
          deposits_nonneg = v.deposits_nonneg;
          totalled = v.totalled;
          released_nonneg = let r = v.released_nonneg in let h = d.0 in omega int_laws;
          started = v.started;
        }))

  admin_withdraw-IsBalanced :
      (env : Env) (a p : ℕ) (x : ℤ) (c : Chain Store W)
      → Balanced c
      → Returns (λ _ c'. Balanced c') (Vault.admin_withdraw t env a p x c)
  unfolding Vault.admin_withdraw admin_only
  admin_withdraw-IsBalanced env a p x c v = ground (arith, pay_reserved-store env p x c, v)

  set_reserve_minimum-IsBalanced :
      (env : Env) (a : ℕ) (x : ℤ) (c : Chain Store W)
      → Balanced c
      → Returns (λ _ c'. Balanced c') (Vault.set_reserve_minimum env a x c)
  unfolding Vault.set_reserve_minimum admin_only read_total_deposited read_total_released
  set_reserve_minimum-IsBalanced env a x c v = ground (arith, v)

  set_paused-IsBalanced :
      (env : Env) (a : ℕ) (b : Bool) (c : Chain Store W)
      → Balanced c
      → Returns (λ _ c'. Balanced c') (Vault.set_paused env a b c)
  unfolding Vault.set_paused admin_only read_total_deposited read_total_released
  set_paused-IsBalanced env a b c v = ground (arith, v)

  set_admin-IsBalanced :
      (env : Env) (a b : ℕ) (c : Chain Store W)
      → Balanced c
      → Returns (λ _ c'. Balanced c') (Vault.set_admin env a b c)
  unfolding Vault.set_admin admin_only read_total_deposited read_total_released
  set_admin-IsBalanced env a b c v = ground (arith, v)

  initialize-IsBalanced :
      (env : Env) (a k : ℕ) (c : Chain Store W)
      → Balanced c
      → Returns (λ _ c'. Balanced c') (Vault.initialize env a k c)
  unfolding Vault.initialize read_total_deposited read_total_released sum_by
  initialize-IsBalanced env a k c v = ground (arith, v)

  execute-IsBalanced :
      (env : Env) (r : Request) (c : Chain Store W)
      → Balanced c
      → Returns (λ _ c'. Balanced c') (execute env r c)
  unfolding execute
  execute-IsBalanced env (initialize a k) c v = initialize-IsBalanced env a k c v
  execute-IsBalanced env (deposit p x) c v = deposit-IsBalanced env p x c v
  execute-IsBalanced env (release a p x) c v = release-IsBalanced env a p x c v
  execute-IsBalanced env (admin_withdraw a p x) c v = admin_withdraw-IsBalanced env a p x c v
  execute-IsBalanced env (set_reserve_minimum a x) c v = set_reserve_minimum-IsBalanced env a x c v
  execute-IsBalanced env (set_paused a b) c v = set_paused-IsBalanced env a b c v
  execute-IsBalanced env (set_admin a b) c v = set_admin-IsBalanced env a b c v

  -- Whatever calls a new vault receives, with whatever tokens behind it, in whatever order and whichever of
  -- them fail: no user's deposit is below zero, the deposits add up to the recorded total, and the
  -- recorded releases are not below zero.
  pub history-IsBalanced :
      (w : W) (calls : List (Env × Request))
      → IsBalanced (history execute (record { store = deployed; tokens = w }) calls).store
  unfolding read_total_deposited read_total_released sum_by
  history-IsBalanced w calls =
      history_lem execute Balanced execute-IsBalanced calls
        (record { store = deployed; tokens = w })
        (record {
          deposits_nonneg = tt;
          totalled = refl;
          released_nonneg = omega arith;
          started = inr (refl, refl);
        })
