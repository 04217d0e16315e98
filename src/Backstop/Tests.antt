-- ===== src/Backstop/Tests.antt =====
-- Runs of contracts/backstop/src/lib.rs, and the theorems at inputs that meet their hypotheses.
use suban.Base.{ℕ, ◌≡◌, refl, true, false, none, some, [], ◌∷◌, ◌==◌, if◌then◌else◌}
use suban.Int.{ℤ, pos, ◌+ℤ◌, ◌-ℤ◌, ◌*ℤ◌, ◌/ℤ◌, ◌<ℤ◌}
use suban.Dict.{lookup, insert}
use suban.Host.{Env, err, Returns, ◌>>◌, fits_i128, fits_u32, settle}
use suban.Tokens.{Chain, Balances, ledger}
use suban.Backstop.Module.{
  Store, Action, initialize, deposit, withdraw, request_claim, claim, absorb_bad_debt,
  claim_pending,
}
use suban.Backstop.Claims.{IsDue, Paid, claim-Paid}

-- The contract is 100, which has not signed.
abbrev at : ℕ → Env
at sequence = record {
  sequence = sequence;
  timestamp = 50;
  current_contract_address = 100;
  authorized = λ a. if a == 100 then false else true;
}

abbrev backstop : Store
backstop = record {
  pool_admin = some 1;
  pool_address = some 5;
  backstop_asset = some 20;
  claim_requests = (2, record { depositor = 2; shares = pos 100; requested_at = 10 }) ∷ [];
  backstop_balance = some (pos 900);
  backstop_target = some (pos 5000);
  depositors = (2, pos 600) ∷ (3, pos 400) ∷ [];
  depositor_shares = (2, pos 600) ∷ (3, pos 400) ∷ [];
  total_shares = some (pos 1000);
  total_deposits = some (pos 1000);
  paused_flag = some false;
  claim_delay = some 20;
  max_deposit = some (pos 10000);
  min_deposit = some (pos 1);
}

abbrev now : Chain Store Balances
now = record { store = backstop; tokens = λ k a. if a == 100 then pos 900 else pos 5000 }

-- Before the first call.
abbrev empty : Chain Store Balances
empty = record {
  store = record {
    pool_admin = none;
    pool_address = none;
    backstop_asset = none;
    claim_requests = [];
    backstop_balance = none;
    backstop_target = none;
    depositors = [];
    depositor_shares = [];
    total_shares = none;
    total_deposits = none;
    paused_flag = none;
    claim_delay = none;
    max_deposit = none;
    min_deposit = none;
  };
  tokens = λ k a. if a == 100 then pos 0 else pos 5000;
}

-- Two deposits, a bad debt of 100 and a request for a claim.
abbrev calls : Action Balances (Unit {0})
calls = do
  initialize (at 1) 1 5 20 (pos 5000) 20 (pos 10000) (pos 1)
  deposit ledger (at 2) 2 (pos 600)
  deposit ledger (at 3) 3 (pos 400)
  absorb_bad_debt ledger (at 4) (pos 100)
  request_claim (at 10) 2 (pos 100)

prepared : (settle empty (calls empty)).store ≡ backstop
unfolding initialize deposit absorb_bad_debt request_claim ◌+ℤ◌ ◌-ℤ◌ ◌*ℤ◌ ◌/ℤ◌ fits_i128 lookup
    insert
prepared = refl

too_early : claim ledger (at 29) 2 (pos 100) now ≡ err claim_pending
unfolding claim fits_u32 lookup
too_early = refl

abbrev after_claim : Chain Store Balances
after_claim = settle now (claim ledger (at 30) 2 (pos 100) now)

claim_paid :
    (after_claim.store.backstop_balance ≡ some (pos 810))
    × (after_claim.store.total_deposits ≡ some (pos 910))
    × (after_claim.tokens 20 2 ≡ pos 5090)
unfolding claim ◌+ℤ◌ ◌-ℤ◌ ◌*ℤ◌ ◌/ℤ◌ fits_i128 fits_u32 lookup insert
claim_paid = (refl, refl, refl)

-- No request is asked for, the bad debt is not shared, and the balance stays.
abbrev after_withdraw : Chain Store Balances
after_withdraw = settle now (withdraw ledger (at 11) 3 (pos 400) now)

not_delayed :
    (after_withdraw.store.backstop_balance ≡ some (pos 900))
    × (after_withdraw.tokens 20 100 ≡ pos 500)
    × (after_withdraw.tokens 20 3 ≡ pos 5400)
unfolding withdraw ◌+ℤ◌ ◌-ℤ◌ ◌*ℤ◌ ◌/ℤ◌ fits_i128 fits_u32 lookup insert
not_delayed = (refl, refl, refl)

claim-Paid_example :
    Returns
      (λ y c'.
        IsDue (at 30) backstop 2
        × Paid ledger (at 30) now 2 (pos 100) y c'
        × ((m : ℤ) → pos 0 <ℤ m → claim ledger (at 30) 2 m c' ≡ err claim_pending))
      (claim ledger (at 30) 2 (pos 100) now)
claim-Paid_example = claim-Paid ledger (at 30) now 2 (pos 100)
