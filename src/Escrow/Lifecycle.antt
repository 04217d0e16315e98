-- ===== src/Escrow/Lifecycle.antt =====
-- `initialize`, `create_escrow`, `fund_escrow`, the three steps of a milestone, and the
-- administration of contracts/escrow/src/lib.rs.
use suban.Base.{
  ℕ, Bool, true, false, not, some, List, [], ◌∷◌, ◌==◌, ltb, leb, is_some, get_elem?, set, length,
}
use suban.Int.{ℤ, pos, leb_ℤ}
use suban.Host.{
  Env, ◌>>=◌, ◌>>◌, pure, unwrap, ok_or, fail_if, panic_if, require_auth, add_i128, add_u32,
}
use suban.Tokens.{Tokens, token_transfer, reads, writes}
use suban.Hub.Errors.{
  HubError, unauthorized, fee_bps_exceeds_maximum, invalid_argument, deadline_already_passed,
  invalid_escrow_status, milestone_already_submitted, milestone_not_approvable,
}
use suban.Hub.Types.{
  Milestone, MilestoneStatus, EscrowConfig, EscrowState, EscrowStatus, same_milestone, same_escrow,
}
use suban.Escrow.Store.{
  Action, is_paused, next_escrow_id, read_escrow_state, write_escrow_state, write_escrow_config,
  escrow_in,
}

abbrev pub is_empty : List Milestone → Bool
is_empty [] = true
is_empty (_ ∷ _) = false

-- The statuses of new milestones.
unfoldable pub pending_for : List Milestone → List MilestoneStatus
pending_for [] = []
pending_for (_ ∷ ms) = MilestoneStatus.pending ∷ pending_for ms

abbrev pub new_config :
    (funder receiver arbitrator asset : ℕ)
    → List Milestone
    → (fee_bps deadline_ledger : ℕ) → EscrowConfig
new_config funder receiver arbitrator asset milestones fee_bps deadline_ledger = record {
  funder = funder;
  receiver = receiver;
  arbitrator = arbitrator;
  asset = asset;
  milestones = milestones;
  fee_bps = fee_bps;
  deadline_ledger = deadline_ledger;
}

abbrev pub new_state : ℕ → EscrowConfig → EscrowState
new_state escrow_id config = record {
  escrow_id = escrow_id;
  config = config;
  total_deposited = pos 0;
  total_released = pos 0;
  milestones_completed = 0;
  milestone_statuses = pending_for config.milestones;
  status = EscrowStatus.active;
}

abbrev pub with_deposited : EscrowState → ℤ → EscrowState
with_deposited state deposited = record state { total_deposited = deposited }

abbrev pub with_status : EscrowState → ℕ → MilestoneStatus → ℕ → EscrowState
with_status state milestone_idx status completed = record state {
  milestone_statuses = set state.milestone_statuses milestone_idx status;
  milestones_completed = completed;
}

module _ {W : Type 0} where
  unfoldable pub initialize : Env → ℕ → Action W (Unit {0})
  initialize env admin = do
    initialized ← reads (λ s. is_some s.admin)
    panic_if initialized
    require_auth env admin
    writes (λ s. record s { admin = some admin; paused = some false; escrow_count = some 0 })

  unfoldable pub create_escrow :
      Env
      → (funder receiver arbitrator asset : ℕ) → List Milestone
      → (fee_bps deadline_ledger : ℕ) → Action W ℕ
  unfolding is_paused next_escrow_id write_escrow_state write_escrow_config
  create_escrow env funder receiver arbitrator asset milestones fee_bps deadline_ledger = do
    stopped ← reads is_paused
    fail_if stopped HubError.paused
    fail_if (ltb 10_000 fee_bps) fee_bps_exceeds_maximum
    fail_if (is_empty milestones) invalid_argument
    fail_if (leb deadline_ledger env.sequence) deadline_already_passed
    require_auth env funder
    escrow_id ← next_escrow_id
    let config = new_config funder receiver arbitrator asset milestones fee_bps deadline_ledger
    writes (write_escrow_config escrow_id config)
    writes (write_escrow_state escrow_id (new_state escrow_id config))
    pure escrow_id

  unfoldable pub fund_escrow : Tokens W → Env → ℕ → ℤ → Action W (Unit {0})
  unfolding is_paused read_escrow_state write_escrow_state
  fund_escrow t env escrow_id amount = do
    stopped ← reads is_paused
    fail_if stopped HubError.paused
    fail_if (leb_ℤ amount (pos 0)) invalid_argument
    state ← read_escrow_state escrow_id
    fail_if (not (same_escrow state.status EscrowStatus.active)) invalid_escrow_status
    require_auth env state.config.funder
    deposited ← add_i128 state.total_deposited amount
    writes (write_escrow_state escrow_id (with_deposited state deposited))
    token_transfer t state.config.asset state.config.funder env.current_contract_address amount

  unfoldable pub submit_milestone : Env → ℕ → ℕ → Action W (Unit {0})
  unfolding escrow_in write_escrow_state
  submit_milestone env escrow_id milestone_idx = do
    state ← escrow_in EscrowStatus.active escrow_id
    fail_if (leb (length state.config.milestones) milestone_idx) invalid_argument
    require_auth env state.config.receiver
    cur ← ok_or (get_elem? state.milestone_statuses milestone_idx) invalid_argument
    fail_if (not (same_milestone cur MilestoneStatus.pending)) milestone_already_submitted
    writes (
        write_escrow_state escrow_id
          (with_status state milestone_idx MilestoneStatus.submitted state.milestones_completed))

  -- What `approve_milestone` and `reject_milestone` do first: the milestone must be submitted, and
  -- its approver must sign.
  unfoldable pub submitted_milestone : Env → ℕ → ℕ → Action W EscrowState
  unfolding escrow_in
  submitted_milestone env escrow_id milestone_idx = do
    state ← escrow_in EscrowStatus.active escrow_id
    fail_if (leb (length state.config.milestones) milestone_idx) invalid_argument
    milestone ← ok_or (get_elem? state.config.milestones milestone_idx) invalid_argument
    require_auth env milestone.approver
    cur ← ok_or (get_elem? state.milestone_statuses milestone_idx) invalid_argument
    fail_if (not (same_milestone cur MilestoneStatus.submitted)) milestone_not_approvable
    pure state

  unfoldable pub approve_milestone : Env → ℕ → ℕ → Action W (Unit {0})
  unfolding write_escrow_state
  approve_milestone env escrow_id milestone_idx = do
    state ← submitted_milestone env escrow_id milestone_idx
    completed ← add_u32 state.milestones_completed 1
    writes (
        write_escrow_state escrow_id
          (with_status state milestone_idx MilestoneStatus.approved completed))

  unfoldable pub reject_milestone : Env → ℕ → ℕ → Action W (Unit {0})
  unfolding write_escrow_state
  reject_milestone env escrow_id milestone_idx = do
    state ← submitted_milestone env escrow_id milestone_idx
    writes (
        write_escrow_state escrow_id
          (with_status state milestone_idx MilestoneStatus.rejected state.milestones_completed))

  -- `admin != current_admin`, then `require_auth`
  unfoldable pub admin_only : Env → ℕ → Action W (Unit {0})
  admin_only env admin = do
    current_admin ← unwrap (← reads (λ s. s.admin))
    fail_if (not (admin == current_admin)) unauthorized
    require_auth env admin

  unfoldable pub set_paused : Env → ℕ → Bool → Action W (Unit {0})
  unfolding admin_only
  set_paused env admin value = do
    admin_only env admin
    writes (λ s. record s { paused = some value })

  unfoldable pub set_admin : Env → ℕ → ℕ → Action W (Unit {0})
  unfolding admin_only
  set_admin env admin new_admin = do
    admin_only env admin
    writes (λ s. record s { admin = some new_admin })
