-- ===== src/Escrow/Tests.antt =====
-- Runs of contracts/escrow/src/lib.rs, and the theorems at inputs that meet their hypotheses.
use suban.Base.{
  ℕ, ◌≡◌, refl, true, false, some, List, [], ◌∷◌, ◌==◌, arith, inl, inr, if◌then◌else◌,
}
use suban.Int.{pos, ◌+ℤ◌, ◌-ℤ◌}
use suban.Dict.{lookup, insert, sum_by}
use suban.Host.{Env, ok, err, Returns, history, fits_i128, fits_u32}
use suban.Tokens.{Chain, Balances, credit, debit, ledger, ledger-IsLedger}
use suban.Hub.Errors.{deadline_not_reached}
use suban.Hub.Types.{Milestone, MilestoneStatus, EscrowConfig, EscrowState, EscrowStatus}
use suban.Escrow.Store.{
  Store, is_paused, next_escrow_id, escrow_in, read_escrow_state, write_escrow_state,
  write_escrow_config,
}
use suban.Escrow.Lifecycle.{
  initialize, create_escrow, fund_escrow, submit_milestone, submitted_milestone, approve_milestone,
  pending_for,
}
use suban.Escrow.Payout.{add_approved, release_funds, refund, all_rejected}
use suban.Escrow.Steps.{Move, replaced, after}
use suban.Escrow.Request.{Request, execute, Does, execute-Does, initialized}
use suban.Escrow.Books.{IsInOrder, IsKept, approved_count}
use suban.Escrow.History.{history-IsInOrder}
use suban.Escrow.Finality.{GrownFrom, history-GrownFrom}
use suban.Escrow.Custody.{IsFunded, execute-IsFunded}
use suban.Escrow.Recovery.{refund-pays}

-- The vault is 100, and only it has not signed.
abbrev at_ledger : ℕ → Env
at_ledger sequence = record {
  sequence = sequence;
  timestamp = 50;
  current_contract_address = 100;
  authorized = λ a. if a == 100 then false else true;
}

-- The funder 2 has 1,000 of the asset 20.
abbrev funds : Balances
funds k a = if a == 2 then pos 1000 else pos 0

abbrev two_milestones : List Milestone
two_milestones =
    (record { description = 1; amount = pos 60; approver = 7 })
    ∷ (record { description = 2; amount = pos 40; approver = 8 })
    ∷ []

abbrev terms : EscrowConfig
terms = record {
  funder = 2;
  receiver = 3;
  arbitrator = 4;
  asset = 20;
  milestones = two_milestones;
  fee_bps = 50;
  deadline_ledger = 30;
}

abbrev calls : List (Env × Request)
calls =
    (at_ledger 10, Request.create_escrow 2 3 4 20 two_milestones 50 30)
    ∷ (at_ledger 11, Request.fund_escrow 0 (pos 100))
    ∷ (at_ledger 12, Request.submit_milestone 0 0)
    ∷ (at_ledger 13, Request.approve_milestone 0 0)
    ∷ (at_ledger 14, Request.release_funds 0)
    ∷ (at_ledger 15, Request.release_funds 0)
    ∷ (at_ledger 16, Request.refund 0)
    ∷ []

abbrev start : Chain Store Balances
start = record { store = initialized 1; tokens = funds }

abbrev half_paid : EscrowState
half_paid = record {
  escrow_id = 0;
  config = terms;
  total_deposited = pos 100;
  total_released = pos 60;
  milestones_completed = 1;
  milestone_statuses = MilestoneStatus.approved ∷ MilestoneStatus.pending ∷ [];
  status = EscrowStatus.active;
}

abbrev store_of : EscrowState → Store
store_of st = record {
  admin = some 1;
  paused = some false;
  escrow_state = (0, st) ∷ [];
  escrow_config = (0, terms) ∷ [];
  escrow_count = some 1;
}

-- The vault holds the 40 that the escrow has left.
abbrev vault : Balances
vault k a = if a == 100 then pos 40 else pos 0

abbrev half_way : Chain Store Balances
half_way = record { store = store_of half_paid; tokens = vault }

after_calls : (history (execute ledger) start calls).store ≡ store_of half_paid
unfolding history execute initialize create_escrow fund_escrow submit_milestone submitted_milestone
    approve_milestone release_funds refund add_approved all_rejected escrow_in is_paused
    next_escrow_id read_escrow_state write_escrow_state write_escrow_config pending_for lookup
    insert ◌+ℤ◌ ◌-ℤ◌ fits_i128 fits_u32
after_calls = refl

-- The balances after the vault has paid 40 to the funder.
abbrev repaid : Balances
repaid = credit 20 2 (pos 40) (debit 20 100 (pos 40) vault)

-- After the deadline the funder gets the rest; before it, nothing.
refund_run :
    refund ledger (at_ledger 30) 0 half_way
    ≡ ok (
      tt,
      record {
        store =
            store_of
              (record half_paid { total_released = pos 100; status = EscrowStatus.refunded });
        tokens = repaid;
      },
    )
unfolding refund all_rejected escrow_in is_paused read_escrow_state write_escrow_state lookup insert
    ◌+ℤ◌ ◌-ℤ◌ fits_i128
refund_run = refl

early_refund : refund ledger (at_ledger 29) 0 half_way ≡ err deadline_not_reached
unfolding refund all_rejected escrow_in is_paused read_escrow_state lookup ◌-ℤ◌ fits_i128
early_refund = refl

half_paid-IsKept : IsKept half_paid
unfolding fits_i128 approved_count
half_paid-IsKept = record {
  released_nonneg = omega arith;
  released_covered = omega arith;
  deposited_fits = refl;
  a_status_each = refl;
  approvals_counted = refl;
  refunded_all = inl refl;
}

store_of-IsInOrder : IsInOrder (store_of half_paid)
unfolding lookup
store_of-IsInOrder = record {
  has_admin = refl;
  fresh = λ id h. ground arith;
  kept = (half_paid-IsKept, tt);
}

execute-Does_example :
    Returns
      (λ _ c'. Does ledger (at_ledger 30) (Request.refund 0) half_way c')
      (execute ledger (at_ledger 30) (Request.refund 0) half_way)
execute-Does_example = execute-Does ledger (at_ledger 30) (Request.refund 0) half_way

history-IsInOrder_example : IsInOrder (history (execute ledger) start calls).store
history-IsInOrder_example = history-IsInOrder ledger 1 funds calls

history-GrownFrom_example :
    GrownFrom 0 half_paid
      (history (execute ledger) half_way ((at_ledger 30, Request.refund 0) ∷ [])).store
unfolding lookup
history-GrownFrom_example =
    history-GrownFrom ledger 0 half_paid half_way ((at_ledger 30, Request.refund 0) ∷ [])
      store_of-IsInOrder refl

execute-IsFunded_example :
    Returns
      (λ _ c'. IsFunded ledger 100 20 c')
      (execute ledger (at_ledger 30) (Request.refund 0) half_way)
unfolding lookup sum_by ◌+ℤ◌ ◌-ℤ◌
execute-IsFunded_example =
    execute-IsFunded ledger ledger-IsLedger (at_ledger 30) 20 refl (Request.refund 0) half_way
      store_of-IsInOrder (omega arith)

refund-pays_example :
    refund ledger (at_ledger 30) 0 half_way
    ≡ ok (
      tt,
      record {
        store = replaced 0 (after (Move.refund (pos 40)) half_paid) (store_of half_paid);
        tokens = repaid;
      },
    )
unfolding lookup is_paused ◌+ℤ◌ ◌-ℤ◌
refund-pays_example =
    refund-pays ledger (at_ledger 30) 0 half_way half_paid repaid store_of-IsInOrder refl refl
      (refl, omega arith, refl, refl, inr (omega arith)) refl
