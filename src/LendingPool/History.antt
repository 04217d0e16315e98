-- ===== src/LendingPool/History.antt =====
-- The debts of contracts/lending-pool/src/lib.rs under any history of requests.
use suban.Base.{ℕ, ◌≡◌, arith, refl, true, Option, none, some, List}
use suban.Int.{ℤ}
use suban.Host.{Env, Returns, weaken, history, history_lem}
use suban.Tokens.{Tokens, Chain}
use suban.LendingPool.Store.{Store, admin_only}
use suban.LendingPool.Health.{Oracle}
use suban.LendingPool.Admin
use suban.LendingPool.Admin.{update_collateral_factor, update_reserve_factor}
use suban.LendingPool.Request.{Request, is_public, execute, deployed}
use suban.LendingPool.Debts.{NoneNegative, execute-Accounted}

module _ {W : Type 0} (t : Tokens W) (oracles : Oracle W) where
  abbrev Sound : Chain Store W → Type 0
  Sound c = NoneNegative c.store

  by_user :
      (env : Env) (r : Request) (c : Chain Store W)
      → NoneNegative c.store
      → is_public r ≡ true
      → Returns (λ _ c'. Sound c') (execute t oracles env r c)
  by_user env r c v p =
      weaken _ _ (execute t oracles env r c) (execute-Accounted t oracles env c v r p)
        (λ _ c' d. d.0)

  -- The administration touches no debt.
  abbrev KeepsDebts : (c c' : Chain Store W) → Type 0
  KeepsDebts c c' = c'.store.user_borrows ≡ c.store.user_borrows

  update_config-KeepsDebts :
      (env : Env) (a : ℕ) (f l b i r : Option ℤ) (c : Chain Store W)
      → Returns (λ _ c'. KeepsDebts c c') (Admin.update_config env a f l b i r c)
  unfolding Admin.update_config admin_only update_collateral_factor update_reserve_factor
  update_config-KeepsDebts env a none l b i none c = ground arith
  update_config-KeepsDebts env a none l b i (some r) c = ground arith
  update_config-KeepsDebts env a (some f) l b i none c = ground arith
  update_config-KeepsDebts env a (some f) l b i (some r) c = ground arith

  pub execute-NoneNegative :
      (env : Env) (r : Request) (c : Chain Store W)
      → NoneNegative c.store
      → Returns (λ _ c'. Sound c') (execute t oracles env r c)
  unfolding execute Admin.initialize Admin.set_paused Admin.set_collateral_asset
      Admin.set_collateral_token Admin.set_price_oracle Admin.clear_price_oracle admin_only
  execute-NoneNegative env (Request.initialize a f l b i r) c v = ground (arith, v)
  execute-NoneNegative env (Request.set_paused a b) c v = ground (arith, v)
  execute-NoneNegative env (Request.update_config a f l b i r) c v =
      weaken _ _ (Admin.update_config env a f l b i r c)
        (update_config-KeepsDebts env a f l b i r c) (λ _ c' e. rw e v)
  execute-NoneNegative env (Request.set_collateral_asset a k) c v = ground (arith, v)
  execute-NoneNegative env (Request.set_collateral_token a k) c v = ground (arith, v)
  execute-NoneNegative env (Request.set_price_oracle a o m) c v = ground (arith, v)
  execute-NoneNegative env (Request.clear_price_oracle a) c v = ground (arith, v)
  execute-NoneNegative env (Request.deposit u x) c v = by_user env (Request.deposit u x) c v refl
  execute-NoneNegative env (Request.withdraw u x) c v = by_user env (Request.withdraw u x) c v refl
  execute-NoneNegative env (Request.borrow u x) c v = by_user env (Request.borrow u x) c v refl
  execute-NoneNegative env (Request.repay u x) c v = by_user env (Request.repay u x) c v refl
  execute-NoneNegative env (Request.set_collateral u x) c v =
      by_user env (Request.set_collateral u x) c v refl
  execute-NoneNegative env (Request.deposit_collateral u x) c v =
      by_user env (Request.deposit_collateral u x) c v refl
  execute-NoneNegative env (Request.withdraw_collateral u x) c v =
      by_user env (Request.withdraw_collateral u x) c v refl
  execute-NoneNegative env (Request.liquidate l u x m) c v =
      by_user env (Request.liquidate l u x m) c v refl
  execute-NoneNegative env Request.accrue_interest c v =
      by_user env Request.accrue_interest c v refl

  -- Whatever calls a new pool receives, with whatever tokens and oracles behind it, in whatever
  -- order and whichever of them fail: no user owes less than nothing.
  pub history-NoneNegative :
      (w : W) (calls : List (Env × Request))
      → NoneNegative
          (history (execute t oracles) (record { store = deployed; tokens = w }) calls).store
  history-NoneNegative w calls =
      history_lem (execute t oracles) Sound execute-NoneNegative calls
        (record { store = deployed; tokens = w }) tt
