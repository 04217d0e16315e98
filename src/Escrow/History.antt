-- ===== src/Escrow/History.antt =====
-- The books of contracts/escrow/src/lib.rs under any history of calls.
use suban.Base.{ℕ, ◌≡◌, arith, List, some, refl, sym, inl}
use mathlib.Core.Path.{subst}
use suban.Dict.{lookup, nat_eq, insert-AllValues, lookup-AllValues, lookup-insert}
use suban.Host.{Env, Returns, weaken, history, history_lem, fits_i128}
use suban.Tokens.{Tokens, Chain}
use suban.Hub.Types.{EscrowConfig, EscrowState}
use suban.Escrow.Store.{Store}
use suban.Escrow.Lifecycle.{new_state}
use suban.Escrow.Steps.{after, replaced}
use suban.Escrow.Request.{Request, execute, execute-Does, count, initialized, opened}
use suban.Escrow.Transitions.{Step, Does-Step}
use suban.Escrow.Books.{
  IsKept, IsInOrder, after-IsKept, length-pending_for, approved_count-pending_for,
}

new_state-IsKept : (id : ℕ) (config : EscrowConfig) → IsKept (new_state id config)
unfolding fits_i128
new_state-IsKept id config = record {
  released_nonneg = omega arith;
  released_covered = omega arith;
  deposited_fits = refl;
  a_status_each = length-pending_for config.milestones;
  approvals_counted = rw (approved_count-pending_for config.milestones) refl;
  refunded_all = inl refl;
}

opened-IsInOrder : (config : EscrowConfig) (s : Store) → IsInOrder s → IsInOrder (opened config s)
opened-IsInOrder config s v = record {
  has_admin = v.has_admin;
  fresh = λ id h.
      let earlier = v.fresh id in
      let read = lookup-insert (count s) id (new_state (count s) config) s.escrow_state in
      ground arith;
  kept =
      insert-AllValues IsKept (count s) (new_state (count s) config) s.escrow_state v.kept
        (new_state-IsKept (count s) config);
}

-- One escrow that was there gets another state.
replaced-IsInOrder :
    (id : ℕ) (st st' : EscrowState) (s : Store)
    → IsInOrder s
    → lookup id s.escrow_state ≡ some st
    → IsKept st'
    → IsInOrder (replaced id st' s)
replaced-IsInOrder id st st' s v found k = record {
  has_admin = v.has_admin;
  fresh = λ j h.
      let absent = v.fresh j h in let read = lookup-insert id j st' s.escrow_state in ground arith;
  kept = insert-AllValues IsKept id st' s.escrow_state v.kept k;
}

module _ {W : Type 0} (t : Tokens W) where
  Step-IsInOrder :
      (env : Env) (c c' : Chain Store W) → IsInOrder c.store → Step t env c c' → IsInOrder c'.store
  Step-IsInOrder env c c' v (Step.opens config made same) =
      subst IsInOrder (sym made) (opened-IsInOrder config c.store v)
  Step-IsInOrder env c c' v (Step.moves id move st found allowed made paid) =
      subst IsInOrder (sym made) (
        replaced-IsInOrder id st (after move st) c.store v found (
          after-IsKept env move st (lookup-AllValues IsKept id c.store.escrow_state v.kept found)
            allowed))
  Step-IsInOrder env c c' v (Step.governs escrows counter has same) = record {
    has_admin = has;
    fresh = rw (escrows, counter) v.fresh;
    kept = rw escrows v.kept;
  }

  -- A request that returns is one step from sound books to sound books.
  pub execute-steps :
      (env : Env) (r : Request) (c : Chain Store W)
      → IsInOrder c.store
      → Returns (λ _ c'. IsInOrder c'.store × Step t env c c') (execute t env r c)
  execute-steps env r c v = weaken _ _ (execute t env r c) (execute-Does t env r c) (λ _ c' d.
      let step = Does-Step t env r c c' v.has_admin d in (Step-IsInOrder env c c' v step, step))

  pub execute-IsInOrder :
      (env : Env) (r : Request) (c : Chain Store W)
      → IsInOrder c.store
      → Returns (λ _ c'. IsInOrder c'.store) (execute t env r c)
  execute-IsInOrder env r c v =
      weaken _ _ (execute t env r c) (execute-steps env r c v) (λ _ c' p. p.0)

initialized-IsInOrder : (admin : ℕ) → IsInOrder (initialized admin)
unfolding lookup
initialized-IsInOrder admin = record { has_admin = refl; fresh = λ id h. refl; kept = tt }

-- Whatever calls an initialized escrow contract receives, in whatever order and whichever of them
-- fail: of every escrow the released amount is at least zero and at most the deposited one, which fits
-- an `i128`; there is one status for each milestone, and the counter of completed milestones is the
-- number of approved ones; and a refunded escrow has nothing left. No identifier from the counter on is in use.
pub history-IsInOrder :
    {W : Type 0} (t : Tokens W) (admin : ℕ) (w : W) (calls : List (Env × Request))
    → IsInOrder (history (execute t) (record { store = initialized admin; tokens = w }) calls).store
history-IsInOrder t admin w calls =
    history_lem (execute t) (λ c. IsInOrder c.store) (execute-IsInOrder t) calls
      (record { store = initialized admin; tokens = w }) (initialized-IsInOrder admin)
