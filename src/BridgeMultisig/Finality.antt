-- ===== src/BridgeMultisig/Finality.antt =====
-- Executed proposals and processed deposits of contracts/bridge-multisig/src/lib.rs, under any history
-- of calls.
use suban.Base.{ℕ, ◌≡◌, ◌==◌, arith, refl, true, Bool-cases, inl, inr, some, List}
use mathlib.Core.Option.{some-injective}
use suban.Int.{ℤ}
use suban.Dict.{lookup, nat_eq, lookup-insert}
use suban.Host.{Env, Returns, weaken, history, history_lem}
use suban.Tokens.{Tokens, Chain}
use suban.BridgeMultisig.Store.{
  Store, Proposal, ProposalKind, ProposalStatus, next_proposal_id, deposit_id_to_nonce,
  is_deposit_processed,
}
use suban.BridgeMultisig.Proposals.{set_proposal, propose}
use suban.BridgeMultisig.Voting.{counted, voted, executed_at_ledger}
use suban.BridgeMultisig.Request.{Request, execute, Step, proposed}
use suban.BridgeMultisig.Effects.{propose-Proposes}
use suban.BridgeMultisig.Quorum.{IsQuorate, IsKept, processed-insert, transfers-counted}
use suban.Dict.{lookup-AllValues}
use suban.BridgeMultisig.History.{execute_sound}

-- A proposal that was executed.
abbrev pub Done : ℕ → Proposal → Store → Type 0
Done id p s = (lookup id s.proposal ≡ some p) × (p.status ≡ ProposalStatus.executed)

set-Done :
    (id j : ℕ) (p q q' : Proposal) (s : Store)
    → Done id p s
    → lookup j s.proposal ≡ some q
    → q.status ≡ ProposalStatus.pending
    → Done id p (set_proposal j q' s)
set-Done id j p q q' s d found pending = elim (Bool-cases (j == id)) [
  | inl same ↦
      let known : q ≡ p = some-injective _ _ (ground arith) in
      let status : q.status ≡ p.status = rw known refl in cc
  | inr other ↦ (rw (lookup-insert j id q' s.proposal, other) d.0, d.1)
]

proposed-Done :
    (id : ℕ) (p q : Proposal) (s : Store) → IsQuorate s → Done id p s → Done id p (proposed q s)
proposed-Done id p q s v d =
    let absent = v.fresh id in
    let read = lookup-insert (next_proposal_id s) id q s.proposal in (ground arith, d.1)

module _ {W : Type 0} (t : Tokens W) where
  Step-Done :
      (env : Env) (c c' : Chain Store W) (id : ℕ) (p : Proposal)
      → IsQuorate c.store
      → Done id p c.store
      → Step t env c c'
      → Done id p c'.store
  Step-Done env c c' id p v d
        (Step.proposes proposer kind target amount deposit_id _ _ _ h k _ same made) =
      rw made (proposed-Done id p _ c.store v d)
  Step-Done env c c' id p v d
        (Step.votes signer j out (q, found, admits, inl (short, o, same, made))) =
      rw made (set-Done id j p q (voted q signer) c.store d found admits.2)
  Step-Done env c c' id p v d
        (Step.votes signer j out (q, found, admits, inr (met, o, (paid, moved, same, made)))) =
      let k = lookup-AllValues IsKept j c.store.proposal v.kept found in
      let marked : paid.store ≡ counted env (voted q signer) c.store =
        transfers-counted t env q.kind (voted q signer) c paid k.transfers moved in
      rw (made, marked)
        (set-Done id j p q (executed_at_ledger env (voted q signer))
          (counted env (voted q signer) c.store) d found admits.2)
  Step-Done env c c' id p v d (Step.enrols a g new same made) = rw made d
  Step-Done env c c' id p v d (Step.dismisses a g known above same made) = rw made d
  Step-Done env c c' id p v d (Step.tunes n g low high same made) = rw made d
  Step-Done env c c' id p v d (Step.governs g same kept) = rw kept.4 d

  -- After every history of calls on sound books, an executed proposal is what it was: it is
  -- never executed again, and nobody can vote on it or change it.
  pub history-Done :
      (c : Chain Store W) (id : ℕ) (p : Proposal) (calls : List (Env × Request))
      → IsQuorate c.store
      → lookup id c.store.proposal ≡ some p
      → p.status ≡ ProposalStatus.executed
      → lookup id (history (execute t) c calls).store.proposal ≡ some p
  history-Done c id p calls v found executed =
      (history_lem (execute t) (λ c. IsQuorate c.store × Done id p c.store)
        (λ env r c h.
          weaken _ _ (execute t env r c) (execute_sound t env r c h.0)
            (λ _ c' q. (q.0, Step-Done env c c' id p h.0 h.1 q.1)))
        calls c (v, (found, executed))).1.0

  Step-processed :
      (env : Env) (c c' : Chain Store W) (d : List ℕ)
      → IsQuorate c.store
      → is_deposit_processed c.store d ≡ true
      → Step t env c c'
      → is_deposit_processed c'.store d ≡ true
  unfolding is_deposit_processed
  Step-processed env c c' d v h
        (Step.proposes proposer kind target amount deposit_id _ _ _ _ _ _ same made) =
      rw made h
  Step-processed env c c' d v h
        (Step.votes signer j out (q, found, admits, inl (short, o, same, made))) =
      rw made h
  Step-processed env c c' d v h
        (Step.votes signer j out (q, found, admits, inr (met, o, (paid, moved, same, made)))) =
      let k = lookup-AllValues IsKept j c.store.proposal v.kept found in
      let marked : paid.store ≡ counted env (voted q signer) c.store =
        transfers-counted t env q.kind (voted q signer) c paid k.transfers moved in
      rw (made, marked) (processed-insert (deposit_id_to_nonce q.deposit_id) d c.store.nonce h)
  Step-processed env c c' d v h (Step.enrols a g new same made) = rw made h
  Step-processed env c c' d v h (Step.dismisses a g known above same made) = rw made h
  Step-processed env c c' d v h (Step.tunes n g low high same made) = rw made h
  Step-processed env c c' d v h (Step.governs g same kept) = rw kept.6 h

  -- On sound books, once a deposit is processed it is processed after every history of calls, and
  -- no further proposal for it is accepted, from anybody, of any kind, for any target or amount.
  pub history-processed :
      (c : Chain Store W) (d : List ℕ) (calls : List (Env × Request)) (env : Env) (proposer : ℕ)
      (kind : ProposalKind) (target : ℕ) (amount : ℤ)
      → IsQuorate c.store
      → is_deposit_processed c.store d ≡ true
      → Returns (λ _ _. ⊥) (propose env proposer kind target amount d (history (execute t) c calls))
  unfolding is_deposit_processed
  history-processed c d calls env proposer kind target amount v h =
      let after =
        history_lem (execute t) (λ c. IsQuorate c.store × (is_deposit_processed c.store d ≡ true))
          (λ env r c h.
            weaken _ _ (execute t env r c) (execute_sound t env r c h.0)
              (λ _ c' q. (q.0, Step-processed env c c' d h.0 h.1 q.1)))
          calls c (v, h) in
      let now = history (execute t) c calls in
      weaken _ _ (propose env proposer kind target amount d now)
        (propose-Proposes t env now proposer kind target amount d) (λ _ c' p. let used = p.5 in cc)
