-- ===== src/Escrow/Books.antt =====
-- The books of contracts/escrow/src/lib.rs, and the moves of one escrow.
use suban.Base.{
  ℕ, true, false, ◌≡◌, ◌⊎◌, ◌+◌, ◌≤◌, arith, List, [], ◌∷◌, none, some, is_some, length, set,
  get_elem?, if◌then◌else◌, refl, inl, inr, zero, suc, ◌==◌,
}
use suban.Int.{ℤ, pos, ◌+ℤ◌, ◌≤ℤ◌, ◌<ℤ◌, int_laws, parts_of_eq}
use suban.Dict.{lookup, nat_eq, AllValues}
use suban.Host.{Env, fits_i128}
use suban.Hub.Types.{
  Milestone, MilestoneStatus, EscrowState, EscrowStatus, same_milestone, same_escrow,
}
use suban.Escrow.Store.{Store}
use suban.Escrow.Lifecycle.{pending_for}
use suban.Escrow.Payout.{with_released}
use suban.Escrow.Steps.{Move, Allows, after, left}
use suban.Escrow.Request.{count}

abbrev pub approvals : MilestoneStatus → ℕ
approvals status = if same_milestone status MilestoneStatus.approved then 1 else 0

-- The number of approved milestones.
unfoldable pub approved_count : List MilestoneStatus → ℕ
approved_count [] = 0
approved_count (status ∷ statuses) = approvals status + approved_count statuses

approved_count-set :
    (statuses : List MilestoneStatus) (i : ℕ) (old new : MilestoneStatus)
    → get_elem? statuses i ≡ some old
    → approved_count (set statuses i new) + approvals old ≡ approved_count statuses + approvals new
unfolding approved_count
approved_count-set [] i old new e = cc
approved_count-set (x ∷ xs) zero old new e = ground (arith, e)
approved_count-set (x ∷ xs) (suc i) old new e =
    let ih = approved_count-set xs i old new e in omega (arith, ih)

length-set :
    (statuses : List MilestoneStatus) (i : ℕ) (new : MilestoneStatus)
    → length (set statuses i new) ≡ length statuses
length-set [] i new = refl
length-set (x ∷ xs) zero new = refl
length-set (x ∷ xs) (suc i) new = rw (length-set xs i new) refl

pub length-pending_for : (ms : List Milestone) → length (pending_for ms) ≡ length ms
unfolding pending_for
length-pending_for [] = refl
length-pending_for (m ∷ ms) = rw (length-pending_for ms) refl

pub approved_count-pending_for : (ms : List Milestone) → approved_count (pending_for ms) ≡ 0
unfolding pending_for approved_count
approved_count-pending_for [] = refl
approved_count-pending_for (m ∷ ms) = rw (approved_count-pending_for ms) refl

-- The books of one escrow.
pub record IsKept (st : EscrowState) : Type 0 where
  pub released_nonneg : pos 0 ≤ℤ st.total_released
  pub released_covered : st.total_released ≤ℤ st.total_deposited
  pub deposited_fits : fits_i128 st.total_deposited ≡ true
  pub a_status_each : length st.milestone_statuses ≡ length st.config.milestones
  pub approvals_counted : st.milestones_completed ≡ approved_count st.milestone_statuses
  pub refunded_all :
      (same_escrow st.status EscrowStatus.refunded ≡ false)
      ⊎ (st.total_released ≡ st.total_deposited)

-- The books of the contract.
pub record IsInOrder (s : Store) : Type 0 where
  pub has_admin : is_some s.admin ≡ true
  pub fresh : (id : ℕ) → count s ≤ id → lookup id s.escrow_state ≡ none
  pub kept : AllValues IsKept s.escrow_state

move_status :
    (st : EscrowState) (i completed : ℕ) (old new : MilestoneStatus)
    → IsKept st
    → get_elem? st.milestone_statuses i ≡ some old
    → completed + approvals old ≡ st.milestones_completed + approvals new
    → st.status ≡ EscrowStatus.active
    → IsKept (record st {
      milestone_statuses = set st.milestone_statuses i new;
      milestones_completed = completed;
    })
move_status st i completed old new v found counted active = record {
  released_nonneg = v.released_nonneg;
  released_covered = v.released_covered;
  deposited_fits = v.deposited_fits;
  a_status_each = rw (length-set st.milestone_statuses i new) v.a_status_each;
  approvals_counted =
      let change = approved_count-set st.milestone_statuses i old new found in
      let before = v.approvals_counted in omega (arith);
  refunded_all = v.refunded_all;
}

-- A payment of at most what is left keeps the books.
pay_out :
    (st : EscrowState) (x : ℤ) (status : EscrowStatus)
    → IsKept st
    → pos 0 <ℤ x
    → x ≤ℤ left st
    → (same_escrow status EscrowStatus.refunded ≡ false)
      ⊎ (st.total_released +ℤ x ≡ st.total_deposited)
    → IsKept (with_released st (st.total_released +ℤ x) status)
pay_out st x status v positive covered rest = record {
  released_nonneg = let a = v.released_nonneg in omega int_laws;
  released_covered = let a = v.released_covered in omega int_laws;
  deposited_fits = v.deposited_fits;
  a_status_each = v.a_status_each;
  approvals_counted = v.approvals_counted;
  refunded_all = rest;
}

still_open :
    (st : EscrowState)
    → st.status ≡ EscrowStatus.active
    → same_escrow
        (if st.milestones_completed == length st.config.milestones
          then EscrowStatus.completed
          else st.status)
        EscrowStatus.refunded
      ≡ false
still_open st e = ground arith

-- Every move that an escrow allows keeps its books.
pub after-IsKept :
    (env : Env) (move : Move) (st : EscrowState)
    → IsKept st
    → Allows env move st
    → IsKept (after move st)
after-IsKept env (Move.fund x) st v a = record {
  released_nonneg = v.released_nonneg;
  released_covered = let b = v.released_covered in let p = a.1 in omega int_laws;
  deposited_fits = a.2;
  a_status_each = v.a_status_each;
  approvals_counted = v.approvals_counted;
  refunded_all = inl (rw a.0 refl);
}
after-IsKept env (Move.submit i) st v a =
    move_status st i st.milestones_completed _ MilestoneStatus.submitted v a.2 refl a.0
after-IsKept env (Move.approve i) st v a =
    move_status st i (st.milestones_completed + 1) _ MilestoneStatus.approved v a.1.1 (omega arith)
      a.0
after-IsKept env (Move.reject i) st v a =
    move_status st i st.milestones_completed _ MilestoneStatus.rejected v a.1.1 refl a.0
after-IsKept env (Move.release x) st v a = pay_out st x _ v a.1 a.2 (inl (still_open st a.0))
after-IsKept env (Move.refund x) st v a =
    let all : st.total_released +ℤ x ≡ st.total_deposited =
      (let e = parts_of_eq a.2 in omega int_laws) in
    pay_out st x _ v a.1 (let e = parts_of_eq a.2 in omega arith) (inr all)
after-IsKept env (Move.dispute d) st v a = record {
  released_nonneg = v.released_nonneg;
  released_covered = v.released_covered;
  deposited_fits = v.deposited_fits;
  a_status_each = v.a_status_each;
  approvals_counted = v.approvals_counted;
  refunded_all = inl refl;
}
after-IsKept env (Move.resolve_to_receiver x) st v a =
    pay_out st x _ v a.1 (let e = parts_of_eq a.2 in omega arith) (inl refl)
after-IsKept env (Move.resolve_to_funder x) st v a =
    let all : st.total_released +ℤ x ≡ st.total_deposited =
      (let e = parts_of_eq a.2 in omega int_laws) in
    pay_out st x _ v a.1 (let e = parts_of_eq a.2 in omega arith) (inr all)
