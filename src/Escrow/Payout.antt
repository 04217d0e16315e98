-- ===== src/Escrow/Payout.antt =====
-- `release_funds`, `refund`, `dispute` and `resolve` of contracts/escrow/src/lib.rs.
use text.Mathlib.Text.{◌==◌ as str_eq}
use Prim.Native.String.{String}
use suban.Base.{ℕ, ◌&&◌, Bool, true, not, List, [], ◌∷◌, ◌==◌, leb, length, if◌then◌else◌}
use suban.Int.{ℤ, pos, leb_ℤ, ltb_ℤ}
use suban.Host.{Env, ◌>>=◌, ◌>>◌, pure, fail, fail_if, require_auth, add_i128, sub_i128}
use suban.Tokens.{Tokens, token_transfer, writes}
use suban.Hub.Errors.{
  unauthorized, invalid_argument, insufficient_escrow_balance, deadline_not_reached,
}
use suban.Hub.Types.{Milestone, MilestoneStatus, EscrowState, EscrowStatus, same_milestone}
use suban.Escrow.Store.{Action, write_escrow_state, escrow_in}

abbrev pub with_released : EscrowState → ℤ → EscrowStatus → EscrowState
with_released state released status = record state { total_released = released; status = status }

-- `.iter().all(|s| s == MilestoneStatus::Rejected)`
unfoldable pub all_rejected : List MilestoneStatus → Bool
all_rejected [] = true
all_rejected (status ∷ statuses) =
    same_milestone status MilestoneStatus.rejected && all_rejected statuses

module _ {W : Type 0} where
  -- The loop of `release_funds` over the milestones and their statuses.
  unfoldable pub add_approved : List Milestone → List MilestoneStatus → ℤ → Action W ℤ
  add_approved [] statuses amount = pure amount
  add_approved (m ∷ ms) [] amount = fail invalid_argument
  add_approved (m ∷ ms) (status ∷ statuses) amount =
      (if same_milestone status MilestoneStatus.approved
        then add_i128 amount m.amount
        else pure amount)
      >>= λ sum. add_approved ms statuses sum

  -- `disputer` must be the funder or the receiver.
  unfoldable pub dispute : Env → ℕ → ℕ → Action W (Unit {0})
  unfolding escrow_in write_escrow_state
  dispute env escrow_id disputer = do
    state ← escrow_in EscrowStatus.active escrow_id
    fail_if (not (disputer == state.config.funder) && not (disputer == state.config.receiver))
        unauthorized
    require_auth env disputer
    writes (
        write_escrow_state escrow_id
          (with_released state state.total_released EscrowStatus.disputed))

module _ {W : Type 0} (t : Tokens W) where
  unfoldable pub release_funds : Env → ℕ → Action W (Unit {0})
  unfolding escrow_in write_escrow_state
  release_funds env escrow_id = do
    state ← escrow_in EscrowStatus.active escrow_id
    approved ← add_approved state.config.milestones state.milestone_statuses (pos 0)
    release_amount ← sub_i128 approved state.total_released
    fail_if (leb_ℤ release_amount (pos 0)) insufficient_escrow_balance
    available ← sub_i128 state.total_deposited state.total_released
    fail_if (ltb_ℤ available release_amount) insufficient_escrow_balance
    released ← add_i128 state.total_released release_amount
    let status =
        if state.milestones_completed == length state.config.milestones
        then EscrowStatus.completed
        else state.status
    writes (write_escrow_state escrow_id (with_released state released status))
    token_transfer t state.config.asset env.current_contract_address state.config.receiver
        release_amount

  unfoldable pub refund : Env → ℕ → Action W (Unit {0})
  unfolding escrow_in write_escrow_state
  refund env escrow_id = do
    state ← escrow_in EscrowStatus.active escrow_id
    require_auth env state.config.funder
    remaining ← sub_i128 state.total_deposited state.total_released
    fail_if (leb_ℤ remaining (pos 0)) insufficient_escrow_balance
    let deadline_passed = leb state.config.deadline_ledger env.sequence
    fail_if (not (all_rejected state.milestone_statuses) && not deadline_passed)
        deadline_not_reached
    released ← add_i128 state.total_released remaining
    writes (write_escrow_state escrow_id (with_released state released EscrowStatus.refunded))
    token_transfer t state.config.asset env.current_contract_address state.config.funder remaining

  -- `outcome` is a symbol, which the host compares by its text.
  unfoldable pub resolve : Env → ℕ → String → Action W (Unit {0})
  unfolding escrow_in write_escrow_state
  resolve env escrow_id outcome = do
    state ← escrow_in EscrowStatus.disputed escrow_id
    require_auth env state.config.arbitrator
    remaining ← sub_i128 state.total_deposited state.total_released
    fail_if (leb_ℤ remaining (pos 0)) insufficient_escrow_balance
    let releases = str_eq outcome "release"
    fail_if (not releases && not (str_eq outcome "refund")) invalid_argument
    released ← add_i128 state.total_released remaining
    writes (
        write_escrow_state escrow_id (
          with_released state released
            (if releases then EscrowStatus.completed else EscrowStatus.refunded)))
    token_transfer t state.config.asset env.current_contract_address
        (if releases then state.config.receiver else state.config.funder) remaining
