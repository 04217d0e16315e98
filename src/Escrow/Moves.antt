-- ===== src/Escrow/Moves.antt =====
-- Each operation of contracts/escrow/src/lib.rs on an escrow that is there, against the moves of the
-- state machine.
use text.Mathlib.Text.{◌==◌ as str_eq}
use Prim.Native.String.{String}
use suban.Base.{
  Bool-cases, ℕ, ◌≡◌, refl, false, some, List, [], ◌∷◌, if◌then◌else◌, arith, inl, inr,
}
use suban.Int.{ℤ, pos, ◌+ℤ◌, ◌-ℤ◌, int_laws}
use suban.Dict.{lookup, nat_eq}
use suban.Host.{Env, Returns}
use suban.Tokens.{Tokens, Chain}
use suban.Hub.Types.{Milestone, MilestoneStatus, EscrowState}
use suban.Escrow.Store.{Store, is_paused, escrow_in}
use suban.Escrow.Lifecycle.{
  fund_escrow, submit_milestone, submitted_milestone, approve_milestone, reject_milestone,
}
use suban.Escrow.Payout.{add_approved, release_funds, refund, dispute, resolve}
use suban.Escrow.Steps.{approved_sum, Move, Allows, after, replaced, Pays, left}

-- What `resolve` does.
abbrev pub resolution : String → EscrowState → Move
resolution outcome st =
    if str_eq outcome "release"
    then Move.resolve_to_receiver (left st)
    else Move.resolve_to_funder (left st)

-- What `release_funds` pays.
abbrev pub payable : EscrowState → ℤ
payable st = approved_sum st.config.milestones st.milestone_statuses -ℤ st.total_released

zero_add : (a : ℤ) → pos 0 +ℤ a ≡ a
zero_add a = omega int_laws

-- The loop of `release_funds` adds the amounts of the approved milestones.
add_approved-sum :
    {W : Type 0} (ms : List Milestone) (statuses : List MilestoneStatus) (acc : ℤ)
    (c : Chain Store W)
    → Returns
        (λ out c'. (c' ≡ c) × (out ≡ acc +ℤ approved_sum ms statuses))
        (add_approved ms statuses acc c)
unfolding add_approved approved_sum
add_approved-sum [] statuses acc c = (refl, omega int_laws)
add_approved-sum (m ∷ ms) [] acc c = tt
add_approved-sum (m ∷ ms) (status ∷ statuses) acc c =
    let rest = approved_sum ms statuses in
    let regroup : acc +ℤ m.amount +ℤ rest ≡ acc +ℤ (m.amount +ℤ rest) = omega int_laws in
    let skip : acc +ℤ rest ≡ acc +ℤ (pos 0 +ℤ rest) = omega int_laws in
    ground (
      arith,
      regroup,
      skip,
      add_approved-sum ms statuses (acc +ℤ m.amount) c,
      add_approved-sum ms statuses acc c,
    )

module _ {W : Type 0} (t : Tokens W) (env : Env) (id : ℕ) (c : Chain Store W) where
  -- A move of an escrow that was found.
  abbrev pub Moved : Move → EscrowState → Chain Store W → Type 0
  Moved move st c' =
      (is_paused c.store ≡ false)
      × (c'.store ≡ replaced id (after move st) c.store)
      × Allows env move st
      × Pays t env move st.config c.tokens c'.tokens

  pub fund_escrow-Moved :
      (x : ℤ) (st : EscrowState)
      → lookup id c.store.escrow_state ≡ some st
      → Returns (λ _ c'. Moved (Move.fund x) st c') (fund_escrow t env id x c)
  unfolding fund_escrow is_paused
  fund_escrow-Moved x st e = ground arith

  pub submit_milestone-Moved :
      (i : ℕ) (st : EscrowState)
      → lookup id c.store.escrow_state ≡ some st
      → Returns (λ _ c'. Moved (Move.submit i) st c') (submit_milestone env id i c)
  unfolding submit_milestone escrow_in is_paused
  submit_milestone-Moved i st e = ground arith

  pub approve_milestone-Moved :
      (i : ℕ) (st : EscrowState)
      → lookup id c.store.escrow_state ≡ some st
      → Returns (λ _ c'. Moved (Move.approve i) st c') (approve_milestone env id i c)
  unfolding approve_milestone submitted_milestone escrow_in is_paused
  approve_milestone-Moved i st e = ground arith

  pub reject_milestone-Moved :
      (i : ℕ) (st : EscrowState)
      → lookup id c.store.escrow_state ≡ some st
      → Returns (λ _ c'. Moved (Move.reject i) st c') (reject_milestone env id i c)
  unfolding reject_milestone submitted_milestone escrow_in is_paused
  reject_milestone-Moved i st e = ground arith

  pub release_funds-Moved :
      (st : EscrowState)
      → lookup id c.store.escrow_state ≡ some st
      → Returns (λ _ c'. Moved (Move.release (payable st)) st c') (release_funds t env id c)
  unfolding release_funds escrow_in is_paused
  release_funds-Moved st e = ground (
    arith,
    add_approved-sum st.config.milestones st.milestone_statuses (pos 0) c,
    zero_add (approved_sum st.config.milestones st.milestone_statuses),
  )

  pub refund-Moved :
      (st : EscrowState)
      → lookup id c.store.escrow_state ≡ some st
      → Returns (λ _ c'. Moved (Move.refund (left st)) st c') (refund t env id c)
  unfolding refund escrow_in is_paused
  refund-Moved st e = ground arith

  pub dispute-Moved :
      (d : ℕ) (st : EscrowState)
      → lookup id c.store.escrow_state ≡ some st
      → Returns (λ _ c'. Moved (Move.dispute d) st c') (dispute env id d c)
  unfolding dispute escrow_in is_paused
  dispute-Moved d st e = ground arith

  pub resolve-Moved :
      (outcome : String) (st : EscrowState)
      → lookup id c.store.escrow_state ≡ some st
      → Returns (λ _ c'. Moved (resolution outcome st) st c') (resolve t env id outcome c)
  unfolding resolve escrow_in is_paused
  resolve-Moved outcome st e = elim (Bool-cases (str_eq outcome "release")) [
    | inl releases ↦ rw releases (ground arith)
    | inr refunds ↦ rw refunds (ground arith)
  ]
