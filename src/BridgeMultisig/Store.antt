-- ===== src/BridgeMultisig/Store.antt =====
-- The types, the storage and the small helpers of contracts/bridge-multisig/src/lib.rs.
use suban.Base.{
  ℕ, ◌+◌, ◌*◌, Bool, true, false, Option, List, [], ◌∷◌, unwrap_or, is_some, zero, suc, ◌==◌,
  if◌then◌else◌,
}
use suban.Int.{ℤ}
use suban.Dict.{Dict, lookup, nat_eq}
use suban.Host.{Call}
use suban.Tokens.{Chain}

pub data BridgeError : Type 0 where
  not_admin not_signer threshold_not_met proposal_not_found proposal_already_executed : BridgeError
  proposal_expired duplicate_approval duplicate_signer signer_not_found : BridgeError
  cannot_remove_below_threshold cannot_remove_last_signer invalid_threshold : BridgeError
  deposit_already_processed volume_cap_exceeded invalid_amount already_paused not_paused :
      BridgeError
  invalid_proposal_kind : BridgeError

pub data ProposalStatus : Type 0 where
  pending executed rejected expired : ProposalStatus

pub data ProposalKind : Type 0 where
  mint_wpi release_usdc add_signer remove_signer set_threshold set_volume_cap : ProposalKind
  pause unpause : ProposalKind

-- A deposit id is a list of bytes.
pub record Proposal : Type 0 where
  pub id : ℕ
  pub kind : ProposalKind
  pub proposer : ℕ
  pub target : ℕ
  pub amount : ℤ
  pub deposit_id : List ℕ
  pub approvals : List ℕ
  pub status : ProposalStatus
  pub created_at : ℕ
  pub executed_at : Option ℕ

-- The instance storage, a field for each `DataKey`.
pub record Store : Type 0 where
  pub admin : Option ℕ
  pub wpi_token : Option ℕ
  pub usdc_token : Option ℕ
  pub signer : Dict ℕ Bool
  pub signer_count : Option ℕ
  pub threshold : Option ℕ
  pub proposal : Dict ℕ Proposal
  pub proposal_count : Option ℕ
  pub nonce : Dict ℕ Bool
  pub next_nonce : Option ℕ
  pub volume_window_start : Option ℕ
  pub volume_in_window : Option ℤ
  pub volume_cap : Option ℤ
  pub volume_window_ledgers : Option ℕ
  pub paused : Option Bool
  pub max_proposal_age : Option ℕ

abbrev pub Action : Type 0 → Type 0 → Type 0
Action W A = Call (Chain Store W) BridgeError A

unfoldable pub is_paused : Store → Bool
is_paused s = unwrap_or s.paused false

unfoldable pub read_threshold : Store → ℕ
read_threshold s = unwrap_or s.threshold 1

unfoldable pub next_proposal_id : Store → ℕ
next_proposal_id s = unwrap_or s.proposal_count 0

unfoldable pub is_signer : Store → ℕ → Bool
is_signer s address = unwrap_or (lookup address s.signer) false

-- `u64::from_be_bytes`, after the bytes read so far.
abbrev pub from_be_bytes : ℕ → ℕ → List ℕ → ℕ
from_be_bytes zero read bytes = read
from_be_bytes (suc n) read [] = read
from_be_bytes (suc n) read (b ∷ bytes) = from_be_bytes n (read * 256 + b) bytes

-- The first eight bytes.
unfoldable pub deposit_id_to_nonce : List ℕ → ℕ
deposit_id_to_nonce deposit_id = from_be_bytes 8 0 deposit_id

unfoldable pub is_deposit_processed : Store → List ℕ → Bool
is_deposit_processed s deposit_id = is_some (lookup (deposit_id_to_nonce deposit_id) s.nonce)

abbrev pub is_pending : ProposalStatus → Bool
is_pending ProposalStatus.pending = true
is_pending ProposalStatus.executed = false
is_pending ProposalStatus.rejected = false
is_pending ProposalStatus.expired = false

-- `proposal.approvals` has the signer.
unfoldable pub has_approved : List ℕ → ℕ → Bool
has_approved [] signer = false
has_approved (a ∷ approvals) signer = if a == signer then true else has_approved approvals signer

-- `push_back`
unfoldable pub push_back : List ℕ → ℕ → List ℕ
push_back [] a = a ∷ []
push_back (x ∷ xs) a = x ∷ push_back xs a
