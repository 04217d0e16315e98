-- ===== src/Escrow/Steps.antt =====
-- The state machine of one escrow of contracts/escrow/src/lib.rs, apart from its storage: what each
-- operation wants of the escrow and of the signatures, and what it makes of them.
use suban.Base.{
  Bool, Option, none, false, ℕ, ◌+◌, ◌≡◌, ◌⊎◌, ◌≤◌, true, some, List, [], ◌∷◌, ◌==◌, get_elem?,
  length, if◌then◌else◌,
}
use suban.Int.{ℤ, pos, ◌+ℤ◌, ◌-ℤ◌, ◌≤ℤ◌, ◌<ℤ◌}
use suban.Dict.{lookup, insert, nat_eq}
use suban.Host.{Env, fits_i128}
use suban.Tokens.{Tokens, Chain}
use suban.Hub.Types.{
  Milestone, MilestoneStatus, EscrowConfig, EscrowState, EscrowStatus, same_milestone,
}
use suban.Escrow.Store.{Store, is_paused}
use suban.Escrow.Lifecycle.{with_deposited, with_status}
use suban.Escrow.Payout.{with_released, all_rejected}

-- The amounts of the approved milestones.
unfoldable pub approved_sum : List Milestone → List MilestoneStatus → ℤ
approved_sum [] statuses = pos 0
approved_sum (m ∷ ms) [] = pos 0
approved_sum (m ∷ ms) (status ∷ statuses) =
    (if same_milestone status MilestoneStatus.approved then m.amount else pos 0)
    +ℤ approved_sum ms statuses

pub data Move : Type 0 where
  fund : ℤ → Move
  submit approve reject : ℕ → Move
  release refund : ℤ → Move
  dispute : ℕ → Move
  resolve_to_receiver resolve_to_funder : ℤ → Move

-- What is left of the deposits.
abbrev pub left : EscrowState → ℤ
left st = st.total_deposited -ℤ st.total_released

-- What a move makes of the escrow.
abbrev pub after : Move → EscrowState → EscrowState
after (fund x) st = with_deposited st (st.total_deposited +ℤ x)
after (submit i) st = with_status st i MilestoneStatus.submitted st.milestones_completed
after (approve i) st = with_status st i MilestoneStatus.approved (st.milestones_completed + 1)
after (reject i) st = with_status st i MilestoneStatus.rejected st.milestones_completed
after (release x) st = with_released st (st.total_released +ℤ x) (
    if st.milestones_completed == length st.config.milestones
    then EscrowStatus.completed
    else st.status)
after (refund x) st = with_released st (st.total_released +ℤ x) EscrowStatus.refunded
after (dispute d) st = with_released st st.total_released EscrowStatus.disputed
after (resolve_to_receiver x) st = with_released st (st.total_released +ℤ x) EscrowStatus.completed
after (resolve_to_funder x) st = with_released st (st.total_released +ℤ x) EscrowStatus.refunded

-- The approver of a milestone has signed.
abbrev pub approver_signed : Env → Option Milestone → Bool
approver_signed env none = false
approver_signed env (some m) = env.authorized m.approver

-- The milestone `i` is submitted, and its approver has signed.
abbrev pub Reviews : Env → ℕ → EscrowState → Type 0
Reviews env i st =
    (approver_signed env (get_elem? st.config.milestones i) ≡ true)
    × (get_elem? st.milestone_statuses i ≡ some MilestoneStatus.submitted)

-- What a move wants of the escrow, of the signatures and of the ledger.
abbrev pub Allows : Env → Move → EscrowState → Type 0
Allows env (fund x) st =
    (st.status ≡ EscrowStatus.active)
    × (pos 0 <ℤ x)
    × (fits_i128 (st.total_deposited +ℤ x) ≡ true)
    × (env.authorized st.config.funder ≡ true)
Allows env (submit i) st =
    (st.status ≡ EscrowStatus.active)
    × (env.authorized st.config.receiver ≡ true)
    × (get_elem? st.milestone_statuses i ≡ some MilestoneStatus.pending)
Allows env (approve i) st = (st.status ≡ EscrowStatus.active) × Reviews env i st
Allows env (reject i) st = (st.status ≡ EscrowStatus.active) × Reviews env i st
Allows env (release x) st =
    (st.status ≡ EscrowStatus.active)
    × (pos 0 <ℤ x)
    × (x ≤ℤ left st)
    × (x ≡ approved_sum st.config.milestones st.milestone_statuses -ℤ st.total_released)
Allows env (refund x) st =
    (st.status ≡ EscrowStatus.active)
    × (pos 0 <ℤ x)
    × (x ≡ left st)
    × (env.authorized st.config.funder ≡ true)
    × ((all_rejected st.milestone_statuses ≡ true) ⊎ (st.config.deadline_ledger ≤ env.sequence))
Allows env (dispute d) st =
    (st.status ≡ EscrowStatus.active)
    × ((d ≡ st.config.funder) ⊎ (d ≡ st.config.receiver))
    × (env.authorized d ≡ true)
Allows env (resolve_to_receiver x) st =
    (st.status ≡ EscrowStatus.disputed)
    × (pos 0 <ℤ x)
    × (x ≡ left st)
    × (env.authorized st.config.arbitrator ≡ true)
Allows env (resolve_to_funder x) st =
    (st.status ≡ EscrowStatus.disputed)
    × (pos 0 <ℤ x)
    × (x ≡ left st)
    × (env.authorized st.config.arbitrator ≡ true)

-- The token transfer that goes with a move.
abbrev pub Pays : {W : Type 0} → Tokens W → Env → Move → EscrowConfig → W → W → Type 0
Pays t env (fund x) g w w' = t.transfer g.asset g.funder env.current_contract_address x w ≡ some w'
Pays t env (release x) g w w' =
    t.transfer g.asset env.current_contract_address g.receiver x w ≡ some w'
Pays t env (refund x) g w w' =
    t.transfer g.asset env.current_contract_address g.funder x w ≡ some w'
Pays t env (resolve_to_receiver x) g w w' =
    t.transfer g.asset env.current_contract_address g.receiver x w ≡ some w'
Pays t env (resolve_to_funder x) g w w' =
    t.transfer g.asset env.current_contract_address g.funder x w ≡ some w'
Pays t env (submit i) g w w' = w' ≡ w
Pays t env (approve i) g w w' = w' ≡ w
Pays t env (reject i) g w w' = w' ≡ w
Pays t env (dispute d) g w w' = w' ≡ w

-- The storage with the state of one escrow replaced.
abbrev pub replaced : ℕ → EscrowState → Store → Store
replaced id st s = record s { escrow_state = insert id st s.escrow_state }

-- A call found the contract running, made one move of the escrow `id`, which may depend on its
-- state, paid for it, and changed nothing else.
abbrev pub Performs :
    {W : Type 0}
    → Tokens W
    → Env
    → ℕ
    → (EscrowState → Move)
    → Chain Store W
    → Chain Store W
    → Type 0
Performs t env id move c c' =
    (st : EscrowState) × (lookup id c.store.escrow_state ≡ some st)
    × (is_paused c.store ≡ false)
    × (c'.store ≡ replaced id (after (move st) st) c.store)
    × Allows env (move st) st
    × Pays t env (move st) st.config c.tokens c'.tokens
