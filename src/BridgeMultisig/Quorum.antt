-- ===== src/BridgeMultisig/Quorum.antt =====
-- The books of contracts/bridge-multisig/src/lib.rs: signers, threshold, votes and nonces.
use suban.Base.{
  ℕ, ◌+◌, ◌≡◌, ◌⊎◌, ◌≤◌, ◌==◌, ◌&&◌, ◌||◌, not, arith, refl, Bool, true, false, inl, inr, none,
  some, Option-cases, List, [], ◌∷◌, is_some, length,
}
use suban.Int.{ℤ, pos, ◌<ℤ◌}
use suban.Dict.{Dict, lookup, insert, nat_eq, sum_by, value_of, AllValues, lookup-insert}
use suban.Host.{Env}
use suban.Tokens.{Tokens, Chain}
use suban.BridgeMultisig.Store.{
  Store, Proposal, ProposalKind, ProposalStatus, is_signer, read_threshold, next_proposal_id,
  deposit_id_to_nonce, is_deposit_processed, has_approved, push_back,
}
use suban.BridgeMultisig.Proposals.{is_transfer, new_proposal}
use suban.BridgeMultisig.Voting.{counted, Transfers, voted, executed_at_ledger}
use suban.BridgeMultisig.Request.{signer_total}

-- No address is in the list twice.
unfoldable pub distinct : List ℕ → Bool
distinct [] = true
distinct (a ∷ rest) = not (has_approved rest a) && distinct rest

has_approved-push_back :
    (xs : List ℕ) (a x : ℕ) → has_approved (push_back xs a) x ≡ (has_approved xs x || (a == x))
unfolding has_approved push_back
has_approved-push_back [] a x = ground arith
has_approved-push_back (y ∷ xs) a x = ground (arith, has_approved-push_back xs a x)

distinct-push_back :
    (xs : List ℕ) (a : ℕ)
    → distinct xs ≡ true
    → has_approved xs a ≡ false
    → distinct (push_back xs a) ≡ true
unfolding distinct has_approved push_back
distinct-push_back [] a d h = refl
distinct-push_back (y ∷ xs) a d h =
    ground (arith, has_approved-push_back xs a y, distinct-push_back xs a, d, h)

length-push_back : (xs : List ℕ) (a : ℕ) → length (push_back xs a) ≡ length xs + 1
unfolding push_back
length-push_back [] a = refl
length-push_back (y ∷ xs) a = let ih = length-push_back xs a in omega arith

-- The books of one proposal.
pub record IsKept (p : Proposal) : Type 0 where
  pub has_a_vote : 1 ≤ length p.approvals
  pub voters_distinct : distinct p.approvals ≡ true
  pub transfers : is_transfer p.kind ≡ true
  pub positive : pos 0 <ℤ p.amount
  pub pending_or_executed :
      ((p.status ≡ ProposalStatus.pending) × (p.executed_at ≡ none))
      ⊎ ((p.status ≡ ProposalStatus.executed) × (is_some p.executed_at ≡ true))

-- An active signer counts one.
abbrev pub active : Bool → ℤ
active true = pos 1
active false = pos 0

-- The books of the contract.
pub record IsQuorate (s : Store) : Type 0 where
  pub has_admin : is_some s.admin ≡ true
  pub fresh : (id : ℕ) → next_proposal_id s ≤ id → lookup id s.proposal ≡ none
  pub kept : AllValues IsKept s.proposal
  pub processed :
      (id : ℕ) (p : Proposal)
      → lookup id s.proposal ≡ some p
      → p.status ≡ ProposalStatus.executed
      → is_deposit_processed s p.deposit_id ≡ true
  pub has_threshold : 1 ≤ read_threshold s
  pub reachable : read_threshold s ≤ signer_total s
  pub signers_counted : sum_by active s.signer ≡ pos (signer_total s)

pub new_proposal-IsKept :
    (env : Env) (id proposer : ℕ) (kind : ProposalKind) (target : ℕ) (amount : ℤ)
    (deposit_id : List ℕ)
    → pos 0 <ℤ amount
    → is_transfer kind ≡ true
    → IsKept (new_proposal env id proposer kind target amount deposit_id)
unfolding distinct has_approved
new_proposal-IsKept env id proposer kind target amount deposit_id h k = record {
  has_a_vote = omega arith;
  voters_distinct = refl;
  transfers = k;
  positive = h;
  pending_or_executed = inl (refl, refl);
}

pub voted-IsKept :
    (signer : ℕ) (p : Proposal)
    → IsKept p
    → p.status ≡ ProposalStatus.pending
    → has_approved p.approvals signer ≡ false
    → IsKept (voted p signer)
voted-IsKept signer p v pending new = record {
  has_a_vote = let n = length-push_back p.approvals signer in omega arith;
  voters_distinct = distinct-push_back p.approvals signer v.voters_distinct new;
  transfers = v.transfers;
  positive = v.positive;
  pending_or_executed = v.pending_or_executed;
}

pub executed-IsKept : (env : Env) (p : Proposal) → IsKept p → IsKept (executed_at_ledger env p)
executed-IsKept env p v = record {
  has_a_vote = v.has_a_vote;
  voters_distinct = v.voters_distinct;
  transfers = v.transfers;
  positive = v.positive;
  pending_or_executed = inr (refl, refl);
}

-- Marking one more nonce keeps the others.
pub processed-insert :
    (n : ℕ) (deposit_id : List ℕ) (m : Dict ℕ Bool)
    → is_some (lookup (deposit_id_to_nonce deposit_id) m) ≡ true
    → is_some (lookup (deposit_id_to_nonce deposit_id) (insert n true m)) ≡ true
processed-insert n deposit_id m h =
    let read = lookup-insert n (deposit_id_to_nonce deposit_id) true m in ground (arith, read, h)

pub transfers-counted :
    {W : Type 0} (t : Tokens W) (env : Env) (kind : ProposalKind) (p : Proposal)
    (c c' : Chain Store W)
    → is_transfer kind ≡ true
    → Transfers t env kind p c c'
    → c'.store ≡ counted env p c.store
transfers-counted t env ProposalKind.mint_wpi p c c' k d = d.3
transfers-counted t env ProposalKind.release_usdc p c c' k d = d.3
transfers-counted t env ProposalKind.add_signer p c c' k d = cc
transfers-counted t env ProposalKind.remove_signer p c c' k d = cc
transfers-counted t env ProposalKind.set_threshold p c c' k d = cc
transfers-counted t env ProposalKind.set_volume_cap p c c' k d = cc
transfers-counted t env ProposalKind.pause p c c' k d = cc
transfers-counted t env ProposalKind.unpause p c c' k d = cc

-- What an entry of the signers counts for.
pub active_signer :
    (s : Store) (a : ℕ) → value_of active (lookup a s.signer) ≡ active (is_signer s a)
unfolding is_signer
active_signer s a = elim (Option-cases (lookup a s.signer)) [
  | inl e ↦ rw e refl
  | inr (b, e) ↦ rw e refl
]
