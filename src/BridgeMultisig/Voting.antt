-- ===== src/BridgeMultisig/Voting.antt =====
-- A vote in contracts/bridge-multisig/src/lib.rs, and the transfer that it may cause.
use suban.Base.{
  ℕ, ◌+◌, ◌≡◌, ◌⊎◌, ◌≤◌, ◌<◌, arith, refl, Bool, true, false, Bool-cases, inl, inr, Option-cases,
  none, some, unwrap_or, length, leb, if◌then◌else◌,
}
use suban.Int.{pos, ◌+ℤ◌}
use suban.Dict.{lookup, insert, nat_eq}
use suban.Host.{Env, ok, Returns, weaken, bind_rule}
use suban.Tokens.{Tokens, Chain}
use suban.BridgeMultisig.Store.{
  Store, Proposal, ProposalKind, ProposalStatus, read_threshold, is_signer, deposit_id_to_nonce,
  has_approved, push_back,
}
use suban.BridgeMultisig.Proposals.{
  with_approvals, set_proposal, add_volume, mark, execute_kind, execute_proposal, conclude,
  get_proposal, approve,
}

-- The volume window has ended.
abbrev pub window_over : Env → Store → Bool
window_over env s =
    leb (unwrap_or s.volume_window_start 0 + unwrap_or s.volume_window_ledgers 100) env.sequence

-- The storage after a transfer was counted: the nonce is used, and the volume is added to the
-- window, or to a new one.
abbrev pub counted : Env → Proposal → Store → Store
counted env p s = record s {
  nonce = insert (deposit_id_to_nonce p.deposit_id) true s.nonce;
  volume_window_start = if window_over env s then some env.sequence else s.volume_window_start;
  volume_in_window =
      some
        ((if window_over env s then pos 0 else unwrap_or s.volume_in_window (pos 0)) +ℤ p.amount);
}

-- The transfer that a kind of proposal stands for, and its traces in the storage.
abbrev pub Transfers :
    {W : Type 0} → Tokens W → Env → ProposalKind → Proposal → Chain Store W → Chain Store W → Type 0
Transfers t env ProposalKind.mint_wpi p c c' =
    (k : ℕ) × (c.store.wpi_token ≡ some k)
    × (t.mint k p.target p.amount c.tokens ≡ some c'.tokens)
    × (c'.store ≡ counted env p c.store)
Transfers t env ProposalKind.release_usdc p c c' =
    (k : ℕ) × (c.store.usdc_token ≡ some k)
    × (t.transfer k env.current_contract_address p.target p.amount c.tokens ≡ some c'.tokens)
    × (c'.store ≡ counted env p c.store)
Transfers t env _ p c c' = c' ≡ c

abbrev pub voted : Proposal → ℕ → Proposal
voted p signer = with_approvals p (push_back p.approvals signer)

abbrev pub executed_at_ledger : Env → Proposal → Proposal
executed_at_ledger env p = record p {
  status = ProposalStatus.executed;
  executed_at = some env.sequence;
}

-- The vote of `signer` counts for the proposal `p`.
abbrev pub Admits : Env → (signer : ℕ) → Proposal → Store → Type 0
Admits env signer p s =
    (env.authorized signer ≡ true)
    × (is_signer s signer ≡ true)
    × (p.status ≡ ProposalStatus.pending)
    × (env.sequence ≤ p.created_at + unwrap_or s.max_proposal_age 100)
    × (has_approved p.approvals signer ≡ false)

-- What follows when the proposal has its new vote.
abbrev pub Concludes :
    {W : Type 0}
    → Tokens W
    → Env
    → (proposal_id : ℕ) → Proposal
    → ProposalStatus
    → Chain Store W
    → Chain Store W
    → Type 0
Concludes {W} t env id p out c c' =
    ((length p.approvals < read_threshold c.store)
      × (out ≡ ProposalStatus.pending)
      × (c'.tokens ≡ c.tokens)
      × (c'.store ≡ set_proposal id p c.store))
    ⊎ ((read_threshold c.store ≤ length p.approvals)
        × (out ≡ ProposalStatus.executed)
        × ((paid : Chain Store W) × Transfers t env p.kind p c paid
            × (c'.tokens ≡ paid.tokens)
            × (c'.store ≡ set_proposal id (executed_at_ledger env p) paid.store)))

-- A vote of `signer` was counted for the proposal `id`.
abbrev pub Voted :
    {W : Type 0}
    → Tokens W
    → Env
    → (signer proposal_id : ℕ) → ProposalStatus
    → Chain Store W
    → Chain Store W
    → Type 0
Voted t env signer id out c c' =
    (p : Proposal) × (lookup id c.store.proposal ≡ some p)
    × Admits env signer p c.store
    × Concludes t env id (voted p signer) out c c'

module _ {W : Type 0} (t : Tokens W) (env : Env) where
  mark-counted :
      (p : Proposal) (c : Chain Store W)
      → Returns (λ _ c'. c' ≡ record c { store = counted env p c.store }) (mark env p c)
  unfolding mark add_volume
  mark-counted p c = elim (Bool-cases (window_over env c.store)) [
    | inl over ↦ rw over (ground arith)
    | inr running ↦ rw running (ground arith)
  ]

  execute_kind-Transfers :
      (kind : ProposalKind) (p : Proposal) (c : Chain Store W)
      → Returns (λ _ c'. Transfers t env kind p c c') (execute_kind t kind env p c)
  unfolding execute_kind
  execute_kind-Transfers ProposalKind.mint_wpi p c = ground (arith, mark-counted p c)
  execute_kind-Transfers ProposalKind.release_usdc p c = ground (arith, mark-counted p c)
  execute_kind-Transfers ProposalKind.add_signer p c = refl
  execute_kind-Transfers ProposalKind.remove_signer p c = refl
  execute_kind-Transfers ProposalKind.set_threshold p c = refl
  execute_kind-Transfers ProposalKind.set_volume_cap p c = refl
  execute_kind-Transfers ProposalKind.pause p c = refl
  execute_kind-Transfers ProposalKind.unpause p c = refl

  execute_proposal-Transfers :
      (p : Proposal) (c : Chain Store W)
      → Returns
          (λ out c'. (out ≡ ProposalStatus.executed) × Transfers t env p.kind p c c')
          (execute_proposal t env p c)
  unfolding execute_proposal
  execute_proposal-Transfers p c =
      bind_rule (λ _ c'. Transfers t env p.kind p c c')
        (λ out c'. (out ≡ ProposalStatus.executed) × Transfers t env p.kind p c c')
        (execute_kind t p.kind env p c) (λ _ c'. ok (ProposalStatus.executed, c'))
        (execute_kind-Transfers p.kind p c) (λ _ c' done. (refl, done))

  conclude-Concludes :
      (id : ℕ) (p : Proposal) (c : Chain Store W)
      → Returns
          (λ out c'. Concludes t env id p out c c')
          (conclude t (leb (read_threshold c.store) (length p.approvals)) env id p c)
  unfolding conclude
  conclude-Concludes id p c =
      elim (Bool-cases (leb (read_threshold c.store) (length p.approvals))) [
        | inl met ↦ rw met (
            bind_rule (λ out c'. (out ≡ ProposalStatus.executed) × Transfers t env p.kind p c c')
              (λ out c'. Concludes t env id p out c c') (execute_proposal t env p c)
              (λ status c'. ok (
                status,
                record c' {
                  store =
                      set_proposal id
                        (record p { status = status; executed_at = some env.sequence }) c'.store;
                },
              ))
              (execute_proposal-Transfers p c)
              (λ status c' done. inr (ground arith, done.0, (c', done.1, refl, rw done.0 refl))))
        | inr short ↦ rw short (inl (ground arith, refl, refl, refl))
      ]

  -- A vote on a proposal that was found.
  abbrev Votes :
      (signer id : ℕ) → Proposal → ProposalStatus → Chain Store W → Chain Store W → Type 0
  Votes signer id p out c c' =
      Admits env signer p c.store × Concludes t env id (voted p signer) out c c'

  approve-found :
      (signer id : ℕ) (p : Proposal) (c : Chain Store W)
      → lookup id c.store.proposal ≡ some p
      → Returns (λ out c'. Votes signer id p out c c') (approve t env signer id c)
  unfolding approve get_proposal
  approve-found signer id p c found =
      ground (arith, found, conclude-Concludes id (voted p signer) c)

  approve-absent :
      (signer id : ℕ) (c : Chain Store W)
      → lookup id c.store.proposal ≡ none
      → Returns (λ out c'. ⊥) (approve t env signer id c)
  unfolding approve get_proposal
  approve-absent signer id c e = ground arith

  -- A vote that returns was the signature of an active signer who had not voted yet, on a pending
  -- proposal that is not too old. Below the threshold it is only written down. At the threshold the
  -- proposal is executed: exactly its amount goes to its target, as a mint of wPi or a release of USDC from
  -- the vault, its nonce is marked, the volume is added to the window, and it is executed for good.
  pub approve-Votes :
      (signer id : ℕ) (c : Chain Store W)
      → Returns (λ out c'. Voted t env signer id out c c') (approve t env signer id c)
  approve-Votes signer id c =
      let Q : ProposalStatus → Chain Store W → Type 0 = λ out c'. Voted t env signer id out c c' in
      let o = approve t env signer id c in
      elim (Option-cases (lookup id c.store.proposal)) [
        | inl e ↦ weaken (λ _ c'. ⊥) Q o (approve-absent signer id c e) (λ a c' h. absurd h)
        | inr (p, e) ↦
            weaken (λ out c'. Votes signer id p out c c') Q o (approve-found signer id p c e)
              (λ a c' m. (p, e, m.0, m.1))
      ]
