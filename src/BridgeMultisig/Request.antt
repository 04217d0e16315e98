-- ===== src/BridgeMultisig/Request.antt =====
-- The requests that a client can send to contracts/bridge-multisig/src/lib.rs, and the steps that
-- they amount to.
use suban.Base.{ℕ, ◌+◌, ◌-◌, ◌≡◌, ◌≤◌, ◌<◌, true, false, some, List, unwrap_or, is_some}
use suban.Int.{ℤ, pos, ◌<ℤ◌}
use suban.Dict.{lookup, insert, nat_eq}
use suban.Host.{Env, ◌>>◌, pure}
use suban.Tokens.{Tokens, Chain}
use suban.BridgeMultisig.Store.{
  Store, Action, Proposal, ProposalKind, ProposalStatus, is_paused, is_signer, read_threshold,
  next_proposal_id, deposit_id_to_nonce,
}
use suban.BridgeMultisig.Proposals
use suban.BridgeMultisig.Proposals.{
  is_transfer, new_proposal, set_proposal, break_circuit, check_volume,
}
use suban.BridgeMultisig.Signers
use suban.BridgeMultisig.Signers.{admin_only}
use suban.BridgeMultisig.Voting.{Voted}

pub data Request : Type 0 where
  initialize :
      (admin : ℕ)
      → List ℕ
      → (threshold : ℕ) → (volume_cap : ℤ)
      → (volume_window_ledgers max_proposal_age wpi_token usdc_token : ℕ) → Request
  propose :
      (proposer : ℕ) → ProposalKind → (target : ℕ) → (amount : ℤ) → (deposit_id : List ℕ) → Request
  approve : (signer proposal_id : ℕ) → Request
  add_signer remove_signer : (admin signer : ℕ) → Request
  set_threshold : (admin new_threshold : ℕ) → Request
  set_volume_cap : (admin : ℕ) → (cap : ℤ) → (window_ledgers : ℕ) → Request
  pause unpause : (admin : ℕ) → Request
  set_admin : (admin new_admin : ℕ) → Request
  set_max_proposal_age : (admin max_age : ℕ) → Request

-- The storage with one more proposal.
abbrev pub proposed : Proposal → Store → Store
proposed p s = record (set_proposal (next_proposal_id s) p s) {
  proposal_count = some (next_proposal_id s + 1);
}

-- The administrator of the storage has signed.
abbrev pub Governed : Env → Store → Type 0
Governed env s = (a : ℕ) × (s.admin ≡ some a) × (env.authorized a ≡ true)

abbrev pub signer_total : Store → ℕ
signer_total s = unwrap_or s.signer_count 0

-- What the administration of the rest leaves alone.
abbrev pub SameVotes : Store → Store → Type 0
SameVotes s s' =
    (is_some s'.admin ≡ true)
    × (s'.signer ≡ s.signer)
    × (s'.signer_count ≡ s.signer_count)
    × (s'.threshold ≡ s.threshold)
    × (s'.proposal ≡ s.proposal)
    × (s'.proposal_count ≡ s.proposal_count)
    × (s'.nonce ≡ s.nonce)

-- The steps of the contract: a new proposal, a vote, or an act of the administrator.
pub data Step {W : Type 0} (t : Tokens W) (env : Env) (c c' : Chain Store W) : Type 0 where
  proposes :
      (proposer : ℕ) (kind : ProposalKind) (target : ℕ) (amount : ℤ) (deposit_id : List ℕ)
      → env.authorized proposer ≡ true
      → is_paused c.store ≡ false
      → is_signer c.store proposer ≡ true
      → pos 0 <ℤ amount
      → is_transfer kind ≡ true
      → is_some (lookup (deposit_id_to_nonce deposit_id) c.store.nonce) ≡ false
      → c'.tokens ≡ c.tokens
      → c'.store
        ≡ proposed
            (new_proposal env (next_proposal_id c.store) proposer kind target amount deposit_id)
            c.store
      → Step t env c c'
  votes : (signer id : ℕ) (out : ProposalStatus) → Voted t env signer id out c c' → Step t env c c'
  enrols :
      (a : ℕ)
      → Governed env c.store
      → is_signer c.store a ≡ false
      → c'.tokens ≡ c.tokens
      → c'.store ≡ record c.store {
        signer = insert a true c.store.signer;
        signer_count = some (signer_total c.store + 1);
      }
      → Step t env c c'
  dismisses :
      (a : ℕ)
      → Governed env c.store
      → is_signer c.store a ≡ true
      → read_threshold c.store < signer_total c.store
      → c'.tokens ≡ c.tokens
      → c'.store ≡ record c.store {
        signer = insert a false c.store.signer;
        signer_count = some (signer_total c.store - 1);
      }
      → Step t env c c'
  tunes :
      (n : ℕ)
      → Governed env c.store
      → 1 ≤ n
      → n ≤ signer_total c.store
      → c'.tokens ≡ c.tokens
      → c'.store ≡ record c.store { threshold = some n }
      → Step t env c c'
  governs :
      Governed env c.store → c'.tokens ≡ c.tokens → SameVotes c.store c'.store → Step t env c c'

module _ {W : Type 0} (t : Tokens W) where
  unfoldable pub execute : Env → Request → Action W (Unit {0})
  execute env (initialize admin signers threshold cap window age wpi usdc) =
      Signers.initialize env admin signers threshold cap window age wpi usdc
  execute env (propose proposer kind target amount deposit_id) =
      Proposals.propose env proposer kind target amount deposit_id >> pure tt
  execute env (approve signer proposal_id) = Proposals.approve t env signer proposal_id >> pure tt
  execute env (add_signer admin signer) = Signers.add_signer env admin signer
  execute env (remove_signer admin signer) = Signers.remove_signer env admin signer
  execute env (set_threshold admin new_threshold) = Signers.set_threshold env admin new_threshold
  execute env (set_volume_cap admin cap window_ledgers) =
      Signers.set_volume_cap env admin cap window_ledgers
  execute env (pause admin) = Signers.pause env admin
  execute env (unpause admin) = Signers.unpause env admin
  execute env (set_admin admin new_admin) = Signers.set_admin env admin new_admin
  execute env (set_max_proposal_age admin max_age) = Signers.set_max_proposal_age env admin max_age
