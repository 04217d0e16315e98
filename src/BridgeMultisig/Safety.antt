-- ===== src/BridgeMultisig/Safety.antt =====
-- The books of contracts/bridge-multisig/src/lib.rs, step by step.
use suban.Base.{
  ℕ, ◌+◌, ◌-◌, ◌≡◌, ◌≤◌, ◌==◌, arith, refl, sym, Bool, true, false, Bool-cases, inl, inr, some,
}
use mathlib.Core.Path.{subst}
use mathlib.Core.Option.{some-injective}
use suban.Int.{pos, ◌+ℤ◌, int_laws, parts_of_eq}
use suban.Dict.{
  lookup, insert, nat_eq, sum_by-insert, insert-AllValues, lookup-AllValues, lookup-insert,
  lookup-insert_self,
}
use suban.Host.{Env}
use suban.Tokens.{Tokens, Chain}
use suban.BridgeMultisig.Store.{
  Store, Proposal, ProposalStatus, is_signer, read_threshold, next_proposal_id, deposit_id_to_nonce,
  is_deposit_processed,
}
use suban.BridgeMultisig.Proposals.{set_proposal}
use suban.BridgeMultisig.Voting.{counted, voted, executed_at_ledger, Voted}
use suban.BridgeMultisig.Request.{Step, proposed, signer_total, SameVotes}
use suban.BridgeMultisig.Quorum.{
  IsQuorate, IsKept, active, active_signer, new_proposal-IsKept, voted-IsKept, executed-IsKept,
  processed-insert, transfers-counted,
}

-- Another state of a proposal that was there.
set-IsQuorate :
    (id : ℕ) (p p' : Proposal) (s : Store)
    → IsQuorate s
    → lookup id s.proposal ≡ some p
    → IsKept p'
    → (p'.status ≡ ProposalStatus.executed → is_deposit_processed s p'.deposit_id ≡ true)
    → IsQuorate (set_proposal id p' s)
unfolding is_deposit_processed next_proposal_id read_threshold
set-IsQuorate id p p' s v found k done = record {
  has_admin = v.has_admin;
  fresh = λ j h.
      let absent = v.fresh j h in let read = lookup-insert id j p' s.proposal in ground arith;
  kept = insert-AllValues IsKept id p' s.proposal v.kept k;
  processed = λ j q e executed. elim (Bool-cases (id == j)) [
    | inl same ↦
        let known : p' ≡ q =
          some-injective _ _ (rw (lookup-insert id j p' s.proposal, same) at e) in
        rw (← known) (done (rw (← known) at executed))
    | inr other ↦ v.processed j q (rw (lookup-insert id j p' s.proposal, other) at e) executed
  ];
  has_threshold = v.has_threshold;
  reachable = v.reachable;
  signers_counted = v.signers_counted;
}

counted-IsQuorate :
    (env : Env) (p : Proposal) (s : Store) → IsQuorate s → IsQuorate (counted env p s)
unfolding is_deposit_processed next_proposal_id read_threshold
counted-IsQuorate env p s v = record {
  has_admin = v.has_admin;
  fresh = v.fresh;
  kept = v.kept;
  processed = λ j q e executed.
      processed-insert (deposit_id_to_nonce p.deposit_id) q.deposit_id s.nonce
        (v.processed j q e executed);
  has_threshold = v.has_threshold;
  reachable = v.reachable;
  signers_counted = v.signers_counted;
}

counted-processed :
    (env : Env) (p : Proposal) (s : Store)
    → is_deposit_processed (counted env p s) p.deposit_id ≡ true
unfolding is_deposit_processed
counted-processed env p s =
    rw (lookup-insert_self (deposit_id_to_nonce p.deposit_id) true s.nonce) refl

proposed-IsQuorate :
    (p : Proposal) (s : Store)
    → IsQuorate s
    → IsKept p
    → p.status ≡ ProposalStatus.pending
    → IsQuorate (proposed p s)
unfolding is_deposit_processed next_proposal_id read_threshold
proposed-IsQuorate p s v k pending = record {
  has_admin = v.has_admin;
  fresh = λ j h.
      let absent = v.fresh j in
      let read = lookup-insert (next_proposal_id s) j p s.proposal in ground arith;
  kept = insert-AllValues IsKept (next_proposal_id s) p s.proposal v.kept k;
  processed = λ j q e executed. elim (Bool-cases (next_proposal_id s == j)) [
    | inl same ↦
        let known : p ≡ q =
          some-injective _ _ (rw (lookup-insert (next_proposal_id s) j p s.proposal, same) at e) in
        cc
    | inr other ↦
        v.processed j q (rw (lookup-insert (next_proposal_id s) j p s.proposal, other) at e)
          executed
  ];
  has_threshold = v.has_threshold;
  reachable = v.reachable;
  signers_counted = v.signers_counted;
}

-- The signers after one more, or one less, at a threshold that they can still reach.
signers-IsQuorate :
    (a : ℕ) (b : Bool) (n : ℕ) (s : Store)
    → IsQuorate s
    → read_threshold s ≤ n
    → pos (signer_total s) +ℤ active b ≡ pos n +ℤ active (is_signer s a)
    → IsQuorate (record s { signer = insert a b s.signer; signer_count = some n })
unfolding is_deposit_processed next_proposal_id read_threshold
signers-IsQuorate a b n s v h e =
    let sum = parts_of_eq (sum_by-insert active a b s.signer) in
    let entry = parts_of_eq (active_signer s a) in
    let before = parts_of_eq v.signers_counted in
    let change = parts_of_eq e in
    record {
      has_admin = v.has_admin;
      fresh = v.fresh;
      kept = v.kept;
      processed = v.processed;
      has_threshold = v.has_threshold;
      reachable = h;
      signers_counted = omega (int_laws, sum, entry, before, change);
    }

tuned-IsQuorate :
    (n : ℕ) (s : Store)
    → IsQuorate s
    → 1 ≤ n
    → n ≤ signer_total s
    → IsQuorate (record s { threshold = some n })
unfolding is_deposit_processed next_proposal_id read_threshold
tuned-IsQuorate n s v low high = record {
  has_admin = v.has_admin;
  fresh = v.fresh;
  kept = v.kept;
  processed = v.processed;
  has_threshold = low;
  reachable = high;
  signers_counted = v.signers_counted;
}

same-IsQuorate : (s s' : Store) → IsQuorate s → SameVotes s s' → IsQuorate s'
unfolding is_deposit_processed next_proposal_id read_threshold
same-IsQuorate s s' v (admin, signer, count, threshold, proposal, proposals, nonce) = record {
  has_admin = admin;
  fresh = rw (proposal, proposals) v.fresh;
  kept = rw proposal v.kept;
  processed = rw (proposal, nonce) v.processed;
  has_threshold = rw threshold v.has_threshold;
  reachable = rw (threshold, count) v.reachable;
  signers_counted = rw (signer, count) v.signers_counted;
}

module _ {W : Type 0} (t : Tokens W) (env : Env) (c c' : Chain Store W)
    (v : IsQuorate c.store) where
  Voted-IsQuorate :
      (signer id : ℕ) (out : ProposalStatus) → Voted t env signer id out c c' → IsQuorate c'.store
  Voted-IsQuorate signer id out (p, found, admits, inl (short, o, same, made)) =
      let k = lookup-AllValues IsKept id c.store.proposal v.kept found in
      subst IsQuorate (sym made) (
        set-IsQuorate id p (voted p signer) c.store v found
          (voted-IsKept signer p k admits.2 admits.4) (λ e. cc admits.2))
  Voted-IsQuorate signer id out (p, found, admits, inr (met, o, (paid, moved, same, made))) =
      let k = lookup-AllValues IsKept id c.store.proposal v.kept found in
      let k' = voted-IsKept signer p k admits.2 admits.4 in
      let marked : paid.store ≡ counted env (voted p signer) c.store =
        transfers-counted t env p.kind (voted p signer) c paid k.transfers moved in
      subst IsQuorate (sym made) (
        rw marked (
          set-IsQuorate id p (executed_at_ledger env (voted p signer))
            (counted env (voted p signer) c.store)
            (counted-IsQuorate env (voted p signer) c.store v) found
            (executed-IsKept env (voted p signer) k')
            (λ e. counted-processed env (voted p signer) c.store)))

  pub Step-IsQuorate : Step t env c c' → IsQuorate c'.store
  Step-IsQuorate (Step.proposes proposer kind target amount deposit_id _ _ _ h k _ same made) =
      subst IsQuorate (sym made) (
        proposed-IsQuorate _ c.store v
          (new_proposal-IsKept env (next_proposal_id c.store) proposer kind target amount deposit_id
            h k)
          refl)
  Step-IsQuorate (Step.votes signer id out d) = Voted-IsQuorate signer id out d
  Step-IsQuorate (Step.enrols a g new same made) = subst IsQuorate (sym made) (
      signers-IsQuorate a true (signer_total c.store + 1) c.store v
        (let r = v.reachable in omega arith) (rw new (omega int_laws)))
  Step-IsQuorate (Step.dismisses a g known above same made) = subst IsQuorate (sym made) (
      signers-IsQuorate a false (signer_total c.store - 1) c.store v (omega arith)
        (rw known (omega int_laws)))
  Step-IsQuorate (Step.tunes n g low high same made) =
      subst IsQuorate (sym made) (tuned-IsQuorate n c.store v low high)
  Step-IsQuorate (Step.governs g same kept) = same-IsQuorate c.store c'.store v kept
