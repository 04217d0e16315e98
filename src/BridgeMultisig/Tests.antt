-- ===== src/BridgeMultisig/Tests.antt =====
-- Runs of contracts/bridge-multisig/src/lib.rs, and the theorems at inputs that meet their hypotheses.
use suban.Base.{ℕ, ◌≡◌, ◌⊎◌, refl, true, false, none, some, List, [], ◌∷◌, ◌==◌, if◌then◌else◌}
use suban.Int.{ℤ, pos, ◌+ℤ◌}
use suban.Dict.{lookup, insert, nat_eq}
use suban.Host.{Env, err, Returns, history, fits_i128, fits_u32, fits_u64}
use suban.Tokens.{Chain, Balances, ledger}
use suban.BridgeMultisig.Store.{
  Store, Proposal, ProposalKind, ProposalStatus, volume_cap_exceeded, is_paused, read_threshold,
  next_proposal_id, is_signer, deposit_id_to_nonce, is_deposit_processed, has_approved, push_back,
}
use suban.BridgeMultisig.Proposals.{
  check_volume, break_circuit, add_volume, propose, get_proposal, mark, execute_kind,
  execute_proposal, conclude, approve,
}
use suban.BridgeMultisig.Signers.{initialize, enrol, admin_only, remove_signer}
use suban.BridgeMultisig.Voting.{Voted, approve-Votes}
use suban.BridgeMultisig.Request.{Request, execute, Step}
use suban.BridgeMultisig.Effects.{execute-Step}
use suban.BridgeMultisig.Quorum.{IsQuorate, distinct}
use suban.BridgeMultisig.History.{deployed, history-IsQuorate}
use suban.BridgeMultisig.Finality.{history-Done, history-processed}
use suban.BridgeMultisig.Payments.{IsApproved, execute-quorum}

-- The vault is 100, and only it has not signed.
abbrev at_ledger : ℕ → Env
at_ledger sequence = record {
  sequence = sequence;
  timestamp = 50;
  current_contract_address = 100;
  authorized = λ a. if a == 100 then false else true;
}

abbrev deposit : List ℕ
deposit = 0 ∷ 0 ∷ 0 ∷ 0 ∷ 0 ∷ 0 ∷ 1 ∷ 2 ∷ 99 ∷ []

abbrev nothing : Balances
nothing k a = pos 0

-- Signers 2, 3 and 4, of whom two must agree; at most 1,000 in a window of 100 ledgers.
abbrev setup : Env × Request
setup = (at_ledger 1, Request.initialize 1 (2 ∷ 3 ∷ 4 ∷ []) 2 (pos 1000) 100 50 20 21)

abbrev mints : (signer : ℕ) → ℤ → Env × Request
mints signer amount = (at_ledger 200, Request.propose signer ProposalKind.mint_wpi 7 amount deposit)

abbrev empty : Chain Store Balances
empty = record { store = deployed; tokens = nothing }

-- The balance of the target after some calls.
abbrev target_balance : List (Env × Request) → ℤ
target_balance calls = (history (execute ledger) empty calls).tokens 20 7

two_votes :
    target_balance (
      setup
      ∷ mints 2 (pos 600)
      ∷ (at_ledger 210, Request.approve 3 0)
      ∷ (at_ledger 211, Request.approve 4 0)
      ∷ [])
    ≡ pos 600
unfolding history execute initialize enrol propose approve is_paused next_proposal_id is_signer
    read_threshold deposit_id_to_nonce check_volume break_circuit add_volume get_proposal mark
    execute_kind execute_proposal conclude has_approved push_back lookup insert fits_i128 fits_u32
    fits_u64 ◌+ℤ◌
two_votes = refl

-- Two proposals for one deposit, both made before the first is executed, are both paid.
minted_twice :
    target_balance (
      setup
      ∷ mints 2 (pos 300)
      ∷ mints 3 (pos 300)
      ∷ (at_ledger 210, Request.approve 3 0)
      ∷ (at_ledger 211, Request.approve 4 1)
      ∷ [])
    ≡ pos 600
unfolding history execute initialize enrol propose approve is_paused next_proposal_id is_signer
    read_threshold deposit_id_to_nonce check_volume break_circuit add_volume get_proposal mark
    execute_kind execute_proposal conclude has_approved push_back lookup insert fits_i128 fits_u32
    fits_u64 ◌+ℤ◌
minted_twice = refl

-- Two proposals below the cap are executed, and exceed it together.
over_the_cap :
    target_balance (
      setup
      ∷ mints 2 (pos 900)
      ∷ mints 3 (pos 900)
      ∷ (at_ledger 210, Request.approve 3 0)
      ∷ (at_ledger 211, Request.approve 4 1)
      ∷ [])
    ≡ pos 1800
unfolding history execute initialize enrol propose approve is_paused next_proposal_id is_signer
    read_threshold deposit_id_to_nonce check_volume break_circuit add_volume get_proposal mark
    execute_kind execute_proposal conclude has_approved push_back lookup insert fits_i128 fits_u32
    fits_u64 ◌+ℤ◌
over_the_cap = refl

-- Long after the window of a full volume, a proposal is still refused.
stale_window :
    propose (at_ledger 5000) 2 ProposalKind.mint_wpi 7 (pos 900) (1 ∷ []) (
      history
        (execute ledger)
        empty
        (setup ∷ mints 2 (pos 900) ∷ (at_ledger 210, Request.approve 3 0) ∷ []))
    ≡ err volume_cap_exceeded
unfolding history execute initialize enrol propose approve is_paused next_proposal_id is_signer
    read_threshold deposit_id_to_nonce check_volume break_circuit add_volume get_proposal mark
    execute_kind execute_proposal conclude has_approved push_back lookup insert fits_i128 fits_u32
    fits_u64 ◌+ℤ◌
stale_window = refl

abbrev calls : List (Env × Request)
calls =
    mints 2 (pos 600)
    ∷ mints 4 (pos 50)
    ∷ (at_ledger 210, Request.approve 3 0)
    ∷ (at_ledger 211, Request.remove_signer 1 4)
    ∷ []

abbrev minted : Proposal
minted = record {
  id = 0;
  kind = ProposalKind.mint_wpi;
  proposer = 2;
  target = 7;
  amount = pos 600;
  deposit_id = deposit;
  approvals = 2 ∷ 3 ∷ [];
  status = ProposalStatus.executed;
  created_at = 200;
  executed_at = some 210;
}

abbrev second : Proposal
second = record {
  id = 1;
  kind = ProposalKind.mint_wpi;
  proposer = 4;
  target = 7;
  amount = pos 50;
  deposit_id = deposit;
  approvals = 4 ∷ [];
  status = ProposalStatus.pending;
  created_at = 200;
  executed_at = none;
}

abbrev bridge : Store
bridge = record {
  admin = some 1;
  wpi_token = some 20;
  usdc_token = some 21;
  signer = (2, true) ∷ (3, true) ∷ (4, false) ∷ [];
  signer_count = some 2;
  threshold = some 2;
  proposal = (0, minted) ∷ (1, second) ∷ [];
  proposal_count = some 2;
  nonce = (258, true) ∷ [];
  next_nonce = some 0;
  volume_window_start = some 210;
  volume_in_window = some (pos 600);
  volume_cap = some (pos 1000);
  volume_window_ledgers = some 100;
  paused = some false;
  max_proposal_age = some 50;
}

abbrev ready : Chain Store Balances
ready = record { store = bridge; tokens = nothing }

history-IsQuorate_example :
    Returns
      (λ _ c. IsQuorate (history (execute ledger) c calls).store)
      (initialize (at_ledger 1) 1 (2 ∷ 3 ∷ 4 ∷ []) 2 (pos 1000) 100 50 20 21 empty)
unfolding distinct has_approved
history-IsQuorate_example =
    history-IsQuorate ledger (at_ledger 1) 1 (2 ∷ 3 ∷ 4 ∷ []) 2 (pos 1000) 100 50 20 21 nothing
      calls refl

bridge-IsQuorate : IsQuorate bridge
unfolding history execute initialize enrol propose approve is_paused next_proposal_id is_signer
    read_threshold deposit_id_to_nonce check_volume break_circuit add_volume get_proposal mark
    execute_kind execute_proposal conclude has_approved push_back lookup insert fits_i128 fits_u32
    fits_u64 ◌+ℤ◌ admin_only remove_signer distinct
bridge-IsQuorate =
    history-IsQuorate ledger (at_ledger 1) 1 (2 ∷ 3 ∷ 4 ∷ []) 2 (pos 1000) 100 50 20 21 nothing
      calls refl

approve-Votes_example :
    Returns
      (λ out c'. Voted ledger (at_ledger 220) 3 1 out ready c')
      (approve ledger (at_ledger 220) 3 1 ready)
approve-Votes_example = approve-Votes ledger (at_ledger 220) 3 1 ready

execute-Step_example :
    Returns
      (λ _ c'. Step ledger (at_ledger 220) ready c')
      (execute ledger (at_ledger 220) (Request.add_signer 1 4) ready)
execute-Step_example = execute-Step ledger (at_ledger 220) ready (Request.add_signer 1 4) refl

history-Done_example :
    lookup 0
      (history (execute ledger) ready (
        (at_ledger 220, Request.approve 3 1)
        ∷ (at_ledger 221, Request.approve 3 0)
        ∷ [])).store.proposal
    ≡ some minted
unfolding lookup
history-Done_example =
    history-Done ledger ready 0 minted
      ((at_ledger 220, Request.approve 3 1) ∷ (at_ledger 221, Request.approve 3 0) ∷ [])
      bridge-IsQuorate refl refl

history-processed_example :
    Returns
      (λ _ _. ⊥)
      (propose
        (at_ledger 230)
        2
        ProposalKind.release_usdc
        8
        (pos 5)
        deposit
        (history (execute ledger) ready ((at_ledger 220, Request.approve 3 1) ∷ [])))
unfolding is_deposit_processed deposit_id_to_nonce lookup
history-processed_example =
    history-processed ledger ready deposit ((at_ledger 220, Request.approve 3 1) ∷ [])
      (at_ledger 230) 2 ProposalKind.release_usdc 8 (pos 5) bridge-IsQuorate refl

execute-quorum_example :
    Returns
      (λ _ c'. (c'.tokens ≡ nothing) ⊎ IsApproved ledger (at_ledger 220) ready c')
      (execute ledger (at_ledger 220) (Request.approve 3 1) ready)
execute-quorum_example =
    execute-quorum ledger (at_ledger 220) (Request.approve 3 1) ready bridge-IsQuorate
