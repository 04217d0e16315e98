-- ===== src/BridgeMultisig/Effects.antt =====
-- Each request to contracts/bridge-multisig/src/lib.rs, seen as a step.
use suban.Base.{
  ℕ, ◌+◌, ◌-◌, ◌≡◌, ◌≤◌, ◌<◌, arith, refl, Bool, true, false, some, List, unwrap_or, is_some,
}
use suban.Int.{ℤ, pos, ◌<ℤ◌, ltb_ℤ}
use suban.Dict.{lookup, insert, nat_eq}
use suban.Host.{Env, ok, Returns, weaken, bind_rule}
use suban.Tokens.{Tokens, Chain}
use suban.BridgeMultisig.Store.{
  Store, ProposalKind, is_paused, is_signer, read_threshold, next_proposal_id, deposit_id_to_nonce,
}
use suban.BridgeMultisig.Proposals
use suban.BridgeMultisig.Proposals.{
  is_transfer, new_proposal, set_proposal, break_circuit, check_volume,
}
use suban.BridgeMultisig.Signers
use suban.BridgeMultisig.Signers.{admin_only}
use suban.BridgeMultisig.Voting.{Voted, approve-Votes}
use suban.BridgeMultisig.Request.{Request, execute, Step, proposed, signer_total, SameVotes}

module _ {W : Type 0} (t : Tokens W) (env : Env) (c : Chain Store W) where
  -- The circuit breaker changes nothing.
  break_circuit-same :
      (b : Bool) (amount cap : ℤ) → Returns (λ _ c'. c' ≡ c) (break_circuit b amount cap c)
  unfolding break_circuit check_volume
  break_circuit-same true amount cap = ground arith
  break_circuit-same false amount cap = refl

  -- What `propose` checks and writes.
  abbrev Proposes :
      (proposer : ℕ) → ProposalKind → (target : ℕ) → ℤ → List ℕ → Chain Store W → Type 0
  Proposes proposer kind target amount deposit_id c' =
      (env.authorized proposer ≡ true)
      × (is_paused c.store ≡ false)
      × (is_signer c.store proposer ≡ true)
      × (pos 0 <ℤ amount)
      × (is_transfer kind ≡ true)
      × (is_some (lookup (deposit_id_to_nonce deposit_id) c.store.nonce) ≡ false)
      × (c'.tokens ≡ c.tokens)
      × (c'.store
          ≡ proposed
              (new_proposal env (next_proposal_id c.store) proposer kind target amount deposit_id)
              c.store)

  pub propose-Proposes :
      (proposer : ℕ) (kind : ProposalKind) (target : ℕ) (amount : ℤ) (deposit_id : List ℕ)
      → Returns
          (λ _ c'. Proposes proposer kind target amount deposit_id c')
          (Proposals.propose env proposer kind target amount deposit_id c)
  unfolding Proposals.propose next_proposal_id
  propose-Proposes proposer kind target amount deposit_id =
      let cap = unwrap_or c.store.volume_cap (pos 0) in
      ground (arith, break_circuit-same (ltb_ℤ (pos 0) cap) amount cap)

  propose-Step :
      (proposer : ℕ) (kind : ProposalKind) (target : ℕ) (amount : ℤ) (deposit_id : List ℕ)
      → Returns
          (λ _ c'. Step t env c c')
          (execute t env (Request.propose proposer kind target amount deposit_id) c)
  unfolding execute
  propose-Step proposer kind target amount deposit_id =
      bind_rule (λ _ c'. Proposes proposer kind target amount deposit_id c')
        (λ _ c'. Step t env c c') (Proposals.propose env proposer kind target amount deposit_id c)
        (λ _ c'. ok (tt, c')) (propose-Proposes proposer kind target amount deposit_id)
        (λ _ c' p.
          Step.proposes proposer kind target amount deposit_id p.0 p.1 p.2 p.3 p.4 p.5 p.6 p.7)

  approve-Step :
      (signer id : ℕ)
      → Returns (λ _ c'. Step t env c c') (execute t env (Request.approve signer id) c)
  unfolding execute
  approve-Step signer id =
      bind_rule (λ out c'. Voted t env signer id out c c') (λ _ c'. Step t env c c')
        (Proposals.approve t env signer id c) (λ _ c'. ok (tt, c'))
        (approve-Votes t env signer id c) (λ out c' v. Step.votes signer id out v)

  -- The administrator is the one of the storage, and has signed.
  abbrev Signed : ℕ → Type 0
  Signed admin = (c.store.admin ≡ some admin) × (env.authorized admin ≡ true)

  add_signer-effect :
      (admin a : ℕ)
      → Returns
          (λ _ c'.
            Signed admin
            × (is_signer c.store a ≡ false)
            × (c'.tokens ≡ c.tokens)
            × (c'.store ≡ record c.store {
              signer = insert a true c.store.signer;
              signer_count = some (signer_total c.store + 1);
            }))
          (Signers.add_signer env admin a c)
  unfolding Signers.add_signer admin_only
  add_signer-effect admin a = ground arith

  remove_signer-effect :
      (admin a : ℕ)
      → Returns
          (λ _ c'.
            Signed admin
            × (is_signer c.store a ≡ true)
            × (read_threshold c.store < signer_total c.store)
            × (c'.tokens ≡ c.tokens)
            × (c'.store ≡ record c.store {
              signer = insert a false c.store.signer;
              signer_count = some (signer_total c.store - 1);
            }))
          (Signers.remove_signer env admin a c)
  unfolding Signers.remove_signer admin_only
  remove_signer-effect admin a = ground arith

  set_threshold-effect :
      (admin n : ℕ)
      → Returns
          (λ _ c'.
            Signed admin
            × (1 ≤ n)
            × (n ≤ signer_total c.store)
            × (c'.tokens ≡ c.tokens)
            × (c'.store ≡ record c.store { threshold = some n }))
          (Signers.set_threshold env admin n c)
  unfolding Signers.set_threshold admin_only
  set_threshold-effect admin n = ground arith

  -- What the remaining acts of the administrator do.
  abbrev Tended : ℕ → Chain Store W → Type 0
  Tended admin c' = Signed admin × (c'.tokens ≡ c.tokens) × SameVotes c.store c'.store

  set_volume_cap-Tended :
      (admin : ℕ) (cap : ℤ) (window_ledgers : ℕ)
      → Returns (λ _ c'. Tended admin c') (Signers.set_volume_cap env admin cap window_ledgers c)
  unfolding Signers.set_volume_cap admin_only
  set_volume_cap-Tended admin cap window_ledgers = ground arith

  pause-Tended : (admin : ℕ) → Returns (λ _ c'. Tended admin c') (Signers.pause env admin c)
  unfolding Signers.pause admin_only
  pause-Tended admin = ground arith

  unpause-Tended : (admin : ℕ) → Returns (λ _ c'. Tended admin c') (Signers.unpause env admin c)
  unfolding Signers.unpause admin_only
  unpause-Tended admin = ground arith

  set_admin-Tended :
      (admin new_admin : ℕ)
      → Returns (λ _ c'. Tended admin c') (Signers.set_admin env admin new_admin c)
  unfolding Signers.set_admin admin_only
  set_admin-Tended admin new_admin = ground arith

  set_max_proposal_age-Tended :
      (admin max_age : ℕ)
      → Returns (λ _ c'. Tended admin c') (Signers.set_max_proposal_age env admin max_age c)
  unfolding Signers.set_max_proposal_age admin_only
  set_max_proposal_age-Tended admin max_age = ground arith

  Tended-Step : (admin : ℕ) (c' : Chain Store W) → Tended admin c' → Step t env c c'
  Tended-Step admin c' (signed, same, kept) = Step.governs (admin, signed.0, signed.1) same kept

  initialize-refused :
      (admin : ℕ) (signers : List ℕ) (threshold : ℕ) (cap : ℤ) (window age wpi usdc : ℕ)
      → is_some c.store.admin ≡ true
      → Returns {S = Chain Store W}
          (λ _ c'. Step t env c c')
          (Signers.initialize env admin signers threshold cap window age wpi usdc c)
  unfolding Signers.initialize
  initialize-refused admin signers threshold cap window age wpi usdc has = rw has tt

  -- On an initialized contract, every request that returns is one step: a new proposal of an active signer
  -- for a deposit that is not processed yet, a vote that is counted, or an act that the administrator has
  -- signed and that leaves proposals, nonces and tokens alone.
  pub execute-Step :
      (r : Request)
      → is_some c.store.admin ≡ true
      → Returns (λ _ c'. Step t env c c') (execute t env r c)
  unfolding execute
  execute-Step (Request.initialize admin signers threshold cap window age wpi usdc) has =
      initialize-refused admin signers threshold cap window age wpi usdc has
  execute-Step (Request.propose proposer kind target amount deposit_id) has =
      propose-Step proposer kind target amount deposit_id
  execute-Step (Request.approve signer id) has = approve-Step signer id
  execute-Step (Request.add_signer admin a) has =
      weaken _ _ (Signers.add_signer env admin a c) (add_signer-effect admin a)
        (λ _ c' d. Step.enrols a (admin, d.0.0, d.0.1) d.1 d.2 d.3)
  execute-Step (Request.remove_signer admin a) has =
      weaken _ _ (Signers.remove_signer env admin a c) (remove_signer-effect admin a)
        (λ _ c' d. Step.dismisses a (admin, d.0.0, d.0.1) d.1 d.2 d.3 d.4)
  execute-Step (Request.set_threshold admin n) has =
      weaken _ _ (Signers.set_threshold env admin n c) (set_threshold-effect admin n)
        (λ _ c' d. Step.tunes n (admin, d.0.0, d.0.1) d.1 d.2 d.3 d.4)
  execute-Step (Request.set_volume_cap admin cap window_ledgers) has =
      weaken _ _ (Signers.set_volume_cap env admin cap window_ledgers c)
        (set_volume_cap-Tended admin cap window_ledgers) (λ _ c' d. Tended-Step admin c' d)
  execute-Step (Request.pause admin) has =
      weaken _ _ (Signers.pause env admin c) (pause-Tended admin) (λ _ c' d. Tended-Step admin c' d)
  execute-Step (Request.unpause admin) has =
      weaken _ _ (Signers.unpause env admin c) (unpause-Tended admin)
        (λ _ c' d. Tended-Step admin c' d)
  execute-Step (Request.set_admin admin new_admin) has =
      weaken _ _ (Signers.set_admin env admin new_admin c) (set_admin-Tended admin new_admin)
        (λ _ c' d. Tended-Step admin c' d)
  execute-Step (Request.set_max_proposal_age admin max_age) has =
      weaken _ _ (Signers.set_max_proposal_age env admin max_age c)
        (set_max_proposal_age-Tended admin max_age) (λ _ c' d. Tended-Step admin c' d)
