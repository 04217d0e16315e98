-- ===== src/Hub/Types.antt =====
-- The records of crates/hub-types/src/lib.rs that the escrow, the fee router and the lending pool use.
use suban.Base.{ℕ, Bool, List, ◌==◌}
use suban.Int.{ℤ}

pub record Price : Type 0 where
  pub asset : ℕ
  pub price : ℤ
  pub decimals : ℕ
  pub timestamp : ℕ
  pub confidence : ℕ

pub record Milestone : Type 0 where
  pub description : ℕ
  pub amount : ℤ
  pub approver : ℕ

pub data MilestoneStatus : Type 0 where
  pending submitted approved rejected : MilestoneStatus

pub record EscrowConfig : Type 0 where
  pub funder : ℕ
  pub receiver : ℕ
  pub arbitrator : ℕ
  pub asset : ℕ
  pub milestones : List Milestone
  pub fee_bps : ℕ
  pub deadline_ledger : ℕ

pub data EscrowStatus : Type 0 where
  active completed refunded disputed : EscrowStatus

pub record EscrowState : Type 0 where
  pub escrow_id : ℕ
  pub config : EscrowConfig
  pub total_deposited : ℤ
  pub total_released : ℤ
  pub milestones_completed : ℕ
  pub milestone_statuses : List MilestoneStatus
  pub status : EscrowStatus

pub record FeeConfig : Type 0 where
  pub lp_share : ℕ
  pub protocol_share : ℕ
  pub backstop_share : ℕ
  pub platform_share : ℕ

-- The derived equality of the two enumerations compares their discriminants.
abbrev pub milestone_code : MilestoneStatus → ℕ
milestone_code MilestoneStatus.pending = 0
milestone_code MilestoneStatus.submitted = 1
milestone_code MilestoneStatus.approved = 2
milestone_code MilestoneStatus.rejected = 3

abbrev pub same_milestone : MilestoneStatus → MilestoneStatus → Bool
same_milestone a b = milestone_code a == milestone_code b

abbrev pub escrow_code : EscrowStatus → ℕ
escrow_code EscrowStatus.active = 0
escrow_code EscrowStatus.completed = 1
escrow_code EscrowStatus.refunded = 2
escrow_code EscrowStatus.disputed = 3

abbrev pub same_escrow : EscrowStatus → EscrowStatus → Bool
same_escrow a b = escrow_code a == escrow_code b
