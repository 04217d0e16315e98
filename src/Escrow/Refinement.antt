-- ===== src/Escrow/Refinement.antt =====
-- Each operation of contracts/escrow/src/lib.rs against the moves of the state machine.
use Prim.Native.String.{String}
use suban.Base.{ℕ, ◌≡◌, Option-cases, some, none, arith, inl, inr}
use suban.Int.{ℤ}
use suban.Dict.{lookup, nat_eq}
use suban.Host.{Env, Outcome, Returns, weaken}
use suban.Tokens.{Tokens, Chain}
use suban.Hub.Errors.{HubError}
use suban.Hub.Types.{EscrowState}
use suban.Escrow.Store.{Store, is_paused, escrow_in, read_escrow_state}
use suban.Escrow.Lifecycle.{
  fund_escrow, submit_milestone, submitted_milestone, approve_milestone, reject_milestone,
}
use suban.Escrow.Payout.{release_funds, refund, dispute, resolve}
use suban.Escrow.Steps.{Move, Performs, left}
use suban.Escrow.Moves.{
  Moved, payable, resolution, fund_escrow-Moved, submit_milestone-Moved, approve_milestone-Moved,
  reject_milestone-Moved, release_funds-Moved, refund-Moved, dispute-Moved, resolve-Moved,
}

module _ {W : Type 0} (t : Tokens W) (env : Env) (id : ℕ) (c : Chain Store W) where
  -- A call on an escrow that may not be there.
  module _ {A : Type 0} (o : Outcome HubError (A × Chain Store W)) (move : EscrowState → Move)
      (absent : lookup id c.store.escrow_state ≡ none → Returns (λ _ c'. ⊥) o)
      (present : (st : EscrowState)
        → lookup id c.store.escrow_state ≡ some st
        → Returns (λ _ c'. Moved t env id c (move st) st c') o) where
    found-Performs : Returns (λ _ c'. Performs t env id move c c') o
    found-Performs = elim (Option-cases (lookup id c.store.escrow_state)) [
      | inl e ↦ weaken (λ _ c'. ⊥) _ o (absent e) (λ a c' h. absurd h)
      | inr (st, e) ↦ weaken _ _ o (present st e) (λ a c' m. (st, e, m.0, m.1, m.2, m.3))
    ]

  fund_escrow-absent :
      (x : ℤ)
      → lookup id c.store.escrow_state ≡ none
      → Returns (λ _ c'. ⊥) (fund_escrow t env id x c)
  unfolding fund_escrow is_paused read_escrow_state
  fund_escrow-absent x e = ground arith

  pub fund_escrow-Performs :
      (x : ℤ)
      → Returns (λ _ c'. Performs t env id (λ st. Move.fund x) c c') (fund_escrow t env id x c)
  fund_escrow-Performs x =
      found-Performs (fund_escrow t env id x c) (λ st. Move.fund x) (fund_escrow-absent x)
        (fund_escrow-Moved t env id c x)

  submit_milestone-absent :
      (i : ℕ)
      → lookup id c.store.escrow_state ≡ none
      → Returns (λ _ c'. ⊥) (submit_milestone env id i c)
  unfolding submit_milestone escrow_in read_escrow_state
  submit_milestone-absent i e = ground arith

  pub submit_milestone-Performs :
      (i : ℕ)
      → Returns (λ _ c'. Performs t env id (λ st. Move.submit i) c c') (submit_milestone env id i c)
  submit_milestone-Performs i =
      found-Performs (submit_milestone env id i c) (λ st. Move.submit i) (submit_milestone-absent i)
        (submit_milestone-Moved t env id c i)

  approve_milestone-absent :
      (i : ℕ)
      → lookup id c.store.escrow_state ≡ none
      → Returns (λ _ c'. ⊥) (approve_milestone env id i c)
  unfolding approve_milestone submitted_milestone escrow_in read_escrow_state
  approve_milestone-absent i e = ground arith

  pub approve_milestone-Performs :
      (i : ℕ)
      → Returns
          (λ _ c'. Performs t env id (λ st. Move.approve i) c c')
          (approve_milestone env id i c)
  approve_milestone-Performs i =
      found-Performs (approve_milestone env id i c) (λ st. Move.approve i)
        (approve_milestone-absent i) (approve_milestone-Moved t env id c i)

  reject_milestone-absent :
      (i : ℕ)
      → lookup id c.store.escrow_state ≡ none
      → Returns (λ _ c'. ⊥) (reject_milestone env id i c)
  unfolding reject_milestone submitted_milestone escrow_in read_escrow_state
  reject_milestone-absent i e = ground arith

  pub reject_milestone-Performs :
      (i : ℕ)
      → Returns (λ _ c'. Performs t env id (λ st. Move.reject i) c c') (reject_milestone env id i c)
  reject_milestone-Performs i =
      found-Performs (reject_milestone env id i c) (λ st. Move.reject i) (reject_milestone-absent i)
        (reject_milestone-Moved t env id c i)

  release_funds-absent :
      lookup id c.store.escrow_state ≡ none → Returns (λ _ c'. ⊥) (release_funds t env id c)
  unfolding release_funds escrow_in read_escrow_state
  release_funds-absent e = ground arith

  pub release_funds-Performs :
      Returns
        (λ _ c'. Performs t env id (λ st. Move.release (payable st)) c c')
        (release_funds t env id c)
  release_funds-Performs =
      found-Performs (release_funds t env id c) (λ st. Move.release (payable st))
        (release_funds-absent) (release_funds-Moved t env id c)

  refund-absent : lookup id c.store.escrow_state ≡ none → Returns (λ _ c'. ⊥) (refund t env id c)
  unfolding refund escrow_in read_escrow_state
  refund-absent e = ground arith

  pub refund-Performs :
      Returns (λ _ c'. Performs t env id (λ st. Move.refund (left st)) c c') (refund t env id c)
  refund-Performs =
      found-Performs (refund t env id c) (λ st. Move.refund (left st)) (refund-absent)
        (refund-Moved t env id c)

  dispute-absent :
      (d : ℕ) → lookup id c.store.escrow_state ≡ none → Returns (λ _ c'. ⊥) (dispute env id d c)
  unfolding dispute escrow_in read_escrow_state
  dispute-absent d e = ground arith

  pub dispute-Performs :
      (d : ℕ) → Returns (λ _ c'. Performs t env id (λ st. Move.dispute d) c c') (dispute env id d c)
  dispute-Performs d =
      found-Performs (dispute env id d c) (λ st. Move.dispute d) (dispute-absent d)
        (dispute-Moved t env id c d)

  resolve-absent :
      (outcome : String)
      → lookup id c.store.escrow_state ≡ none
      → Returns (λ _ c'. ⊥) (resolve t env id outcome c)
  unfolding resolve escrow_in read_escrow_state
  resolve-absent outcome e = ground arith

  pub resolve-Performs :
      (outcome : String)
      → Returns (λ _ c'. Performs t env id (resolution outcome) c c') (resolve t env id outcome c)
  resolve-Performs outcome =
      found-Performs (resolve t env id outcome c) (resolution outcome) (resolve-absent outcome)
        (resolve-Moved t env id c outcome)
