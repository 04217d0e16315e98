-- ===== src/BridgeMultisig/Proposals.antt =====
-- `propose`, `approve` and `execute_proposal` of contracts/bridge-multisig/src/lib.rs, and its circuit
-- breaker.
use suban.Base.{
  ℕ, Bool, true, false, not, none, some, List, [], ◌∷◌, unwrap_or, is_some, length, leb, ltb,
}
use suban.Int.{ℤ, pos, leb_ℤ, ltb_ℤ}
use suban.Dict.{lookup, insert, nat_eq}
use suban.Host.{
  Env, ◌>>=◌, ◌>>◌, pure, fail, ok_or, unwrap, fail_if, require_auth, add_i128, add_u32, add_u64,
}
use suban.Tokens.{Tokens, token_mint, token_transfer, reads, writes}
use suban.BridgeMultisig.Store.{
  Action, Store, Proposal, ProposalKind, ProposalStatus, not_signer, proposal_not_found,
  proposal_already_executed, proposal_expired, duplicate_approval, deposit_already_processed,
  volume_cap_exceeded, invalid_amount, already_paused, invalid_proposal_kind, is_paused,
  read_threshold, next_proposal_id, is_signer, deposit_id_to_nonce, is_pending, has_approved,
  push_back,
}

-- Only these two kinds can be proposed.
abbrev pub is_transfer : ProposalKind → Bool
is_transfer ProposalKind.mint_wpi = true
is_transfer ProposalKind.release_usdc = true
is_transfer ProposalKind.add_signer = false
is_transfer ProposalKind.remove_signer = false
is_transfer ProposalKind.set_threshold = false
is_transfer ProposalKind.set_volume_cap = false
is_transfer ProposalKind.pause = false
is_transfer ProposalKind.unpause = false

abbrev pub new_proposal :
    Env → ℕ → (proposer : ℕ) → ProposalKind → (target : ℕ) → ℤ → List ℕ → Proposal
new_proposal env proposal_id proposer kind target amount deposit_id = record {
  id = proposal_id;
  kind = kind;
  proposer = proposer;
  target = target;
  amount = amount;
  deposit_id = deposit_id;
  approvals = proposer ∷ [];
  status = ProposalStatus.pending;
  created_at = env.sequence;
  executed_at = none;
}

abbrev pub with_approvals : Proposal → List ℕ → Proposal
with_approvals proposal approvals = record proposal { approvals = approvals }

abbrev pub set_proposal : ℕ → Proposal → Store → Store
set_proposal proposal_id proposal s = record s { proposal = insert proposal_id proposal s.proposal }

module _ {W : Type 0} where
  unfoldable pub check_volume : ℤ → ℤ → Action W (Unit {0})
  check_volume amount cap = do
    current_volume ← reads (λ s. unwrap_or s.volume_in_window (pos 0))
    volume ← add_i128 current_volume amount
    fail_if (ltb_ℤ cap volume) volume_cap_exceeded

  -- `if cap > 0 { check_volume(...)?; }`
  unfoldable pub break_circuit : Bool → ℤ → ℤ → Action W (Unit {0})
  break_circuit true amount cap = check_volume amount cap
  break_circuit false amount cap = pure tt

  -- `if current_ledger >= window_start + window_ledgers { ... }`
  abbrev pub reset_window : Bool → Env → ℤ → Action W ℤ
  reset_window true env volume =
      writes (λ s. record s { volume_window_start = some env.sequence }) >> pure (pos 0)
  reset_window false env volume = pure volume

  unfoldable pub add_volume : Env → ℤ → Action W (Unit {0})
  add_volume env amount = do
    window_start ← reads (λ s. unwrap_or s.volume_window_start 0)
    window_ledgers ← reads (λ s. unwrap_or s.volume_window_ledgers 100)
    volume ← reads (λ s. unwrap_or s.volume_in_window (pos 0))
    window_end ← add_u64 window_start window_ledgers
    volume ← reset_window (leb window_end env.sequence) env volume
    volume ← add_i128 volume amount
    writes (λ s. record s { volume_in_window = some volume })

  unfoldable pub propose :
      Env → (proposer : ℕ) → ProposalKind → (target : ℕ) → ℤ → List ℕ → Action W ℕ
  propose env proposer kind target amount deposit_id = do
    require_auth env proposer
    stopped ← reads is_paused
    fail_if stopped already_paused
    known ← reads (λ s. is_signer s proposer)
    fail_if (not known) not_signer
    fail_if (leb_ℤ amount (pos 0)) invalid_amount
    fail_if (not (is_transfer kind)) invalid_proposal_kind
    used ← reads (λ s. is_some (lookup (deposit_id_to_nonce deposit_id) s.nonce))
    fail_if used deposit_already_processed
    cap ← reads (λ s. unwrap_or s.volume_cap (pos 0))
    break_circuit (ltb_ℤ (pos 0) cap) amount cap
    proposal_id ← reads next_proposal_id
    writes (
        set_proposal proposal_id
          (new_proposal env proposal_id proposer kind target amount deposit_id))
    next ← add_u32 proposal_id 1
    writes (λ s. record s { proposal_count = some next })
    pure proposal_id

  unfoldable pub get_proposal : ℕ → Action W Proposal
  get_proposal proposal_id = do
    found ← reads (λ s. lookup proposal_id s.proposal)
    ok_or found proposal_not_found

  -- `if current_ledger > proposal.created_at + max_age { ... }`
  abbrev pub expire : Bool → ℕ → Proposal → Action W (Unit {0})
  expire true proposal_id proposal =
      writes (set_proposal proposal_id (record proposal { status = ProposalStatus.expired }))
      >> fail proposal_expired
  expire false proposal_id proposal = pure tt

  -- What both kinds of transfer do first: mark the nonce, and count the volume.
  unfoldable pub mark : Env → Proposal → Action W (Unit {0})
  mark env proposal = do
    let nonce = deposit_id_to_nonce proposal.deposit_id
    writes (λ s. record s { nonce = insert nonce true s.nonce })
    add_volume env proposal.amount

module _ {W : Type 0} (t : Tokens W) where
  unfoldable pub execute_kind : ProposalKind → Env → Proposal → Action W (Unit {0})
  execute_kind ProposalKind.mint_wpi env proposal = do
    mark env proposal
    wpi ← unwrap (← reads (λ s. s.wpi_token))
    token_mint t wpi proposal.target proposal.amount
  execute_kind ProposalKind.release_usdc env proposal = do
    mark env proposal
    usdc ← unwrap (← reads (λ s. s.usdc_token))
    token_transfer t usdc env.current_contract_address proposal.target proposal.amount
  execute_kind _ env proposal = pure tt

  unfoldable pub execute_proposal : Env → Proposal → Action W ProposalStatus
  execute_proposal env proposal =
      execute_kind proposal.kind env proposal >> pure ProposalStatus.executed

  -- `if proposal.approvals.len() >= threshold { ... }`
  unfoldable pub conclude : Bool → Env → ℕ → Proposal → Action W ProposalStatus
  conclude true env proposal_id proposal = do
    status ← execute_proposal env proposal
    writes (
        set_proposal proposal_id
          (record proposal { status = status; executed_at = some env.sequence }))
    pure status
  conclude false env proposal_id proposal = do
    writes (set_proposal proposal_id proposal)
    pure ProposalStatus.pending

  unfoldable pub approve : Env → (signer proposal_id : ℕ) → Action W ProposalStatus
  unfolding get_proposal
  approve env signer proposal_id = do
    require_auth env signer
    known ← reads (λ s. is_signer s signer)
    fail_if (not known) not_signer
    proposal ← get_proposal proposal_id
    fail_if (not (is_pending proposal.status)) proposal_already_executed
    max_age ← reads (λ s. unwrap_or s.max_proposal_age 100)
    last ← add_u64 proposal.created_at max_age
    expire (ltb last env.sequence) proposal_id proposal
    fail_if (has_approved proposal.approvals signer) duplicate_approval
    let voted = with_approvals proposal (push_back proposal.approvals signer)
    threshold ← reads read_threshold
    conclude (leb threshold (length voted.approvals)) env proposal_id voted
