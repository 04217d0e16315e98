-- ===== src/LendingPool/Return.antt =====
-- Collateral of contracts/lending-pool/src/lib.rs that is deposited and taken back.
use suban.Base.{ℕ, ◌≡◌, arith, refl, ◌∙◌, true, false, some}
use suban.Int.{ℤ, pos, ◌+ℤ◌, ◌-ℤ◌, ◌≤ℤ◌, ◌<ℤ◌, int_laws}
use suban.Dict.{lookup-insert_self, insert-insert, nat_eq}
use suban.Host.{Env, ok, ◌>>◌, after_ok, fits_i128}
use suban.Tokens.{Tokens, Chain}
use suban.LendingPool.Store.{
  Store, read_borrow, read_collateral, is_paused, collateral_token, pool_asset, require_not_paused,
}
use suban.LendingPool.Health.{Oracle, calculate_health_factor, health_of}
use suban.LendingPool.Collateral.{deposit_collateral, withdraw_collateral}
use suban.LendingPool.Books.{with_collateral}

back : (a x : ℤ) → a +ℤ x -ℤ x ≡ a
back a x = omega int_laws

module _ {W : Type 0} (t : Tokens W) (oracles : Oracle W) (env : Env) (u : ℕ) (x : ℤ)
    (c : Chain Store W) (positive : pos 0 <ℤ x) (running : is_paused c.store ≡ false)
    (signed : env.authorized u ≡ true) where
  abbrev k : ℕ
  k = collateral_token env c.store

  abbrev more : ℤ
  more = read_collateral c.store u +ℤ x

  deposited :
      (w : W)
      → t.transfer k u env.current_contract_address x c.tokens ≡ some w
      → fits_i128 more ≡ true
      → deposit_collateral t env u x c
        ≡ ok (tt, record { store = with_collateral c.store u more; tokens = w })
  unfolding deposit_collateral require_not_paused
  deposited w paid fits = ground (arith, positive, running, signed, paid, fits)

  more_read : read_collateral (with_collateral c.store u more) u ≡ more
  unfolding read_collateral
  more_read = rw (lookup-insert_self u more c.store.user_collateral) refl

  abbrev back_store : Store
  back_store = with_collateral (with_collateral c.store u more) u (more -ℤ x)

  withdrawn :
      (w w' : W)
      → read_borrow c.store u ≡ pos 0
      → pos 0 ≤ℤ read_collateral c.store u
      → fits_i128 (read_collateral c.store u) ≡ true
      → t.transfer k env.current_contract_address u x w ≡ some w'
      → withdraw_collateral t oracles env u x
          (record { store = with_collateral c.store u more; tokens = w })
        ≡ ok (tt, record { store = back_store; tokens = w' })
  unfolding withdraw_collateral require_not_paused calculate_health_factor health_of read_borrow
      is_paused collateral_token pool_asset
  withdrawn w w' free nonneg fits paid =
      let enough : x ≤ℤ more = omega (int_laws, nonneg) in
      let same : fits_i128 (more -ℤ x) ≡ true = rw (back (read_collateral c.store u) x) fits in
      ground (arith, positive, running, signed, paid, same, enough, more_read, free)

  -- Collateral that a user without a debt deposits can be taken back: if the amount is positive,
  -- the pool is not paused, the user has signed, the collateral before and after the deposit is
  -- at least zero and fits an `i128`, and the token makes both transfers, then both calls return,
  -- and the storage is as before, with the collateral of the user as it was.
  pub deposit_collateral-withdraw_collateral :
      (w w' : W)
      → read_borrow c.store u ≡ pos 0
      → pos 0 ≤ℤ read_collateral c.store u
      → fits_i128 (read_collateral c.store u) ≡ true
      → fits_i128 (read_collateral c.store u +ℤ x) ≡ true
      → t.transfer k u env.current_contract_address x c.tokens ≡ some w
      → t.transfer k env.current_contract_address u x w ≡ some w'
      → (deposit_collateral t env u x >> withdraw_collateral t oracles env u x) c
        ≡ ok (
          tt,
          record { store = with_collateral c.store u (read_collateral c.store u); tokens = w' },
        )
  deposit_collateral-withdraw_collateral w w' free nonneg fits fits' paid_in paid_out =
      after_ok (withdraw_collateral t oracles env u x) (deposit_collateral t env u x) c
        (deposited w paid_in fits')
        (withdrawn w w' free nonneg fits paid_out
          ∙ rw
              (
                back (read_collateral c.store u) x,
                insert-insert u more (read_collateral c.store u) c.store.user_collateral,
              )
              refl)
