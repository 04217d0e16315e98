-- ===== src/BridgeMultisig/Payments.antt =====
-- Which calls of contracts/bridge-multisig/src/lib.rs move tokens.
use suban.Base.{ℕ, ◌≡◌, ◌⊎◌, ◌≤◌, true, inl, inr, some, length}
use suban.Dict.{lookup, nat_eq, lookup-AllValues}
use suban.Host.{Env, Returns, weaken}
use suban.Tokens.{Tokens, Chain}
use suban.BridgeMultisig.Store.{Store, Proposal, ProposalStatus, is_signer, read_threshold}
use suban.BridgeMultisig.Voting.{Transfers, voted}
use suban.BridgeMultisig.Request.{Request, execute, Step}
use suban.BridgeMultisig.Quorum.{IsQuorate, IsKept, distinct, voted-IsKept}
use suban.BridgeMultisig.History.{execute_sound}

-- The one transfer of a proposal that was pending, which the last of at least `threshold` different
-- voters has just signed.
pub record IsApproved {W : Type 0} (t : Tokens W) (env : Env) (c c' : Chain Store W) : Type 0 where
  pub id : ℕ
  pub signer : ℕ
  pub proposal : Proposal
  pub paid : Chain Store W
  pub found : lookup id c.store.proposal ≡ some proposal
  pub was_pending : proposal.status ≡ ProposalStatus.pending
  pub signed : env.authorized signer ≡ true
  pub is_active : is_signer c.store signer ≡ true
  pub different : distinct (voted proposal signer).approvals ≡ true
  pub enough : read_threshold c.store ≤ length (voted proposal signer).approvals
  pub transfer : Transfers t env proposal.kind (voted proposal signer) c paid
  pub same : c'.tokens ≡ paid.tokens

module _ {W : Type 0} (t : Tokens W) (env : Env) where
  Step-IsApproved :
      (c c' : Chain Store W)
      → IsQuorate c.store
      → Step t env c c'
      → (c'.tokens ≡ c.tokens) ⊎ IsApproved t env c c'
  Step-IsApproved c c' v
        (Step.proposes proposer kind target amount deposit_id _ _ _ _ _ _ same made) =
      inl same
  Step-IsApproved c c' v (Step.votes signer id out (p, found, admits, inl (short, o, same, made))) =
      inl same
  Step-IsApproved c c' v
        (Step.votes signer id out (p, found, admits, inr (met, o, (paid, moved, same, made)))) =
      let k = lookup-AllValues IsKept id c.store.proposal v.kept found in
      inr (record {
        id = id;
        signer = signer;
        proposal = p;
        paid = paid;
        found = found;
        was_pending = admits.2;
        signed = admits.0;
        is_active = admits.1;
        different = (voted-IsKept signer p k admits.2 admits.4).voters_distinct;
        enough = met;
        transfer = moved;
        same = same;
      })
  Step-IsApproved c c' v (Step.enrols a g new same made) = inl same
  Step-IsApproved c c' v (Step.dismisses a g known above same made) = inl same
  Step-IsApproved c c' v (Step.tunes n g low high same made) = inl same
  Step-IsApproved c c' v (Step.governs g same kept) = inl same

  -- On sound books, a request that returns leaves all tokens alone, or is the vote of an active signer who
  -- has signed, on a pending proposal that then has at least as many voters as the threshold, no two of
  -- them the same; and the only transfer is the one of that proposal.
  pub execute-quorum :
      (r : Request) (c : Chain Store W)
      → IsQuorate c.store
      → Returns (λ _ c'. (c'.tokens ≡ c.tokens) ⊎ IsApproved t env c c') (execute t env r c)
  execute-quorum r c v =
      weaken _ _ (execute t env r c) (execute_sound t env r c v)
        (λ _ c' p. Step-IsApproved c c' v p.1)
