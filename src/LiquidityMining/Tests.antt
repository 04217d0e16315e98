-- ===== src/LiquidityMining/Tests.antt =====
-- Runs of contracts/liquidity-mining/src/lib.rs, and the theorems at inputs that meet their hypotheses.
use suban.Base.{ℕ, ◌≡◌, refl, arith, true, false, some, List, [], ◌∷◌, ◌==◌, if◌then◌else◌}
use suban.Int.{pos, ◌+ℤ◌, ◌-ℤ◌, ◌*ℤ◌, ◌/ℤ◌, ◌≤ℤ◌, ◌<ℤ◌}
use suban.Dict.{lookup, insert, nat_eq}
use suban.Host.{Env, ok, err, Returns, history, fits_i128}
use suban.Tokens.{Chain, Balances, ledger}
use suban.LiquidityMining.Effects.{posted, entry}
use suban.LiquidityMining.Farm.{
  FarmInfo, Store, no_rewards, initialize, stake, claim, pending_rewards, read_farm, read_stake,
  write_stake, write_farm, share_of, accrue, accrue_rewards, earned, pending_of, pay_pending,
  simulated, pending_at,
}
use suban.LiquidityMining.History.{Request, deployed, execute, history-IsFarmed}
use suban.LiquidityMining.Tallies.{IsFarmed}
use suban.LiquidityMining.Claims.{claim-pending_rewards}

-- The farm is 100, and only it has not signed.
abbrev at_ledger : ℕ → Env
at_ledger n = record {
  sequence = n;
  timestamp = 50;
  current_contract_address = 100;
  authorized = λ a. if a == 100 then false else true;
}

abbrev purse : Balances
purse k a = if a == 100 then pos 0 else pos 5000

abbrev calls : List (Env × Request)
calls =
    (at_ledger 10, Request.initialize 1 20 (pos 6))
    ∷ (at_ledger 10, Request.stake 2 (pos 100))
    ∷ (at_ledger 10, Request.stake 3 (pos 200))
    ∷ (at_ledger 20, Request.claim 2)
    ∷ (at_ledger 20, Request.claim 2)
    ∷ []

abbrev farm_now : FarmInfo
farm_now = record {
  reward_token = 20;
  reward_per_ledger = pos 6;
  total_staked = pos 300;
  last_ledger = 20;
  accumulated_rewards_per_share = pos 200000;
}

abbrev mining : Store
mining = record {
  admin = some 1;
  farm = some farm_now;
  stakes =
      (2, record { amount = pos 100; reward_debt = pos 20 })
      ∷ (3, record { amount = pos 200; reward_debt = pos 0 })
      ∷ [];
}

-- The rewards of 2 are paid from the stakes: nobody has funded any.
after_calls :
    history (execute ledger) (record { store = deployed; tokens = purse }) calls ≡ record {
      store = mining;
      tokens =
          (history (execute ledger) (record { store = deployed; tokens = purse }) calls).tokens;
    }
unfolding history execute initialize stake claim read_farm read_stake write_stake write_farm
    share_of accrue accrue_rewards earned pending_of pay_pending lookup insert fits_i128 ◌+ℤ◌ ◌-ℤ◌
    ◌*ℤ◌ ◌/ℤ◌
after_calls = refl

held :
    (history (execute ledger) (record { store = deployed; tokens = purse }) calls).tokens 20 100
    ≡ pos 280
unfolding history execute initialize stake claim read_farm read_stake write_stake write_farm
    share_of accrue accrue_rewards earned pending_of pay_pending lookup insert fits_i128 ◌+ℤ◌ ◌-ℤ◌
    ◌*ℤ◌ ◌/ℤ◌
held = refl

-- Who stakes first is paid for the ledgers before, in which nothing was staked.
abbrev late : List (Env × Request)
late =
    (at_ledger 10, Request.initialize 1 20 (pos 6)) ∷ (at_ledger 60, Request.stake 2 (pos 100)) ∷ []

paid_for_nothing :
    pending_rewards
      (at_ledger 60)
      2
      (history (execute ledger) (record { store = deployed; tokens = purse }) late)
    ≡ ok (pos 300, history (execute ledger) (record { store = deployed; tokens = purse }) late)
unfolding pending_rewards pending_at simulated history execute initialize stake claim read_farm
    read_stake write_stake write_farm share_of accrue accrue_rewards earned pending_of pay_pending
    lookup insert fits_i128 ◌+ℤ◌ ◌-ℤ◌ ◌*ℤ◌ ◌/ℤ◌
paid_for_nothing = refl

abbrev now : Chain Store Balances
now = record { store = mining; tokens = λ k a. if a == 100 then pos 280 else pos 5000 }

history-IsFarmed_example :
    IsFarmed (history (execute ledger) (record { store = deployed; tokens = purse }) calls).store
history-IsFarmed_example = history-IsFarmed ledger purse calls

no_debt : pos 0 ≤ℤ (read_stake mining 3).reward_debt
unfolding read_stake lookup
no_debt = omega arith

claim-pending_rewards_example :
    Returns
      (λ y c'.
        (pos 0 <ℤ y)
        × (pending_rewards (at_ledger 30) 3 now ≡ ok (y, now))
        × (ledger.transfer 20 100 3 y now.tokens ≡ some c'.tokens)
        × (c'.store
            ≡ posted ledger
                (at_ledger 30)
                now
                farm_now
                refl
                3
                (entry ledger (at_ledger 30) now farm_now refl (read_stake mining 3).amount)
                (pos 300))
        × (claim ledger (at_ledger 30) 3 c' ≡ err no_rewards))
      (claim ledger (at_ledger 30) 3 now)
claim-pending_rewards_example =
    claim-pending_rewards ledger (at_ledger 30) now farm_now refl (omega arith) 3 no_debt
