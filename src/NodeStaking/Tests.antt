-- ===== src/NodeStaking/Tests.antt =====
-- Runs of contracts/node-staking/src/lib.rs, and the theorems at inputs that meet their hypotheses.
use suban.Base.{
  ◌≡◌, refl, arith, inr, true, false, none, some, List, [], ◌∷◌, ◌==◌, if◌then◌else◌, Bool-cases,
  inl,
}
use suban.Int.{pos, negsuc, ltb_ℤ, ◌+ℤ◌, ◌-ℤ◌, ◌*ℤ◌, ◌/ℤ◌}
use suban.Dict.{lookup, insert, nat_eq}
use suban.Host.{Env, Returns, history, fits_i128, fits_u32}
use suban.Tokens.{Tokens, Chain, Balances, ledger, ledger-IsLedger}
use suban.NodeStaking.Staking.{
  Store, initialize, register_node, add_stake, unstake, slash, read_min_stake, read_reward_rate,
  read_reward_pool, read_total_staked, read_total_nodes, read_slashed, write_node, read_token,
  admin_only, get_node, reward_for,
}
use suban.NodeStaking.Effects.{Request, deployed, execute}
use suban.NodeStaking.Stakes.{IsStaked}
use suban.NodeStaking.Books.{RefusesNegative}
use suban.NodeStaking.History.{history-IsStaked}
use suban.NodeStaking.Surplus.{surplus, unbooked, execute-Kept}

-- The contract is 100, and only it has not signed.
abbrev env : Env
env = record {
  sequence = 10;
  timestamp = 50;
  current_contract_address = 100;
  authorized = λ a. if a == 100 then false else true;
}

abbrev purse : Balances
purse k a = if a == 100 then pos 0 else pos 5000

-- A ledger that makes no negative transfers.
abbrev strict : Tokens Balances
strict = record {
  transfer = λ token a b x w. if ltb_ℤ x (pos 0) then none else ledger.transfer token a b x w;
  mint = ledger.mint;
  balance = ledger.balance;
}

strict_refuses : RefusesNegative strict
strict_refuses token a b x w w' h = elim (Bool-cases (ltb_ℤ x (pos 0))) [
  | inl negative ↦ cc (rw negative at h)
  | inr other ↦ ground arith
]

abbrev calls : List (Env × Request)
calls =
    (env, Request.initialize 1 20 (pos 1000) 500)
    ∷ (env, Request.register_node 2 (pos 1000))
    ∷ (env, Request.register_node 3 (pos 1000))
    ∷ (env, Request.register_node 3 (pos 1000))
    ∷ (env, Request.slash 1 3 (pos 10))
    ∷ (env, Request.add_stake 3 (pos 10))
    ∷ []

abbrev staking : Store
staking = record {
  admin = some 1;
  token = some 20;
  nodes =
      (
        2,
        record {
          operator = 2;
          staked = pos 1000;
          rewards_accrued = pos 50;
          active = true;
          joined_at = 50;
        },
      )
      ∷ (
        3,
        record {
          operator = 3;
          staked = pos 990;
          rewards_accrued = pos 50;
          active = false;
          joined_at = 50;
        },
      )
      ∷ [];
  total_staked = some (pos 1990);
  total_nodes = some 2;
  min_stake = some (pos 1000);
  reward_rate_bps = some 500;
  slashed_amount = some (pos 10);
  reward_pool = some (pos 0);
}

-- A node that fell below the minimum can neither be registered again nor be topped up.
after_calls :
    (history (execute strict) (record { store = deployed; tokens = purse }) calls).store ≡ staking
unfolding history execute initialize register_node add_stake slash admin_only get_node reward_for
    read_token write_node read_min_stake read_reward_rate read_total_staked read_total_nodes
    read_slashed lookup insert fits_i128 fits_u32 ◌+ℤ◌ ◌-ℤ◌ ◌*ℤ◌ ◌/ℤ◌
after_calls = refl

abbrev now : Chain Store Balances
now = record { store = staking; tokens = λ k a. if a == 100 then pos 1990 else pos 4000 }

-- The rewards of 2 come out of the stake of 3: there is nothing in the pool.
rewards_from_stakes :
    surplus strict 20 100 (history (execute strict) now ((env, Request.unstake 2 (pos 1000)) ∷ []))
    ≡ negsuc 49
unfolding history execute unstake get_node read_token write_node read_min_stake read_total_staked
    read_reward_pool lookup insert fits_i128 ◌+ℤ◌ ◌-ℤ◌
rewards_from_stakes = refl

history-IsStaked_example :
    IsStaked (history (execute strict) (record { store = deployed; tokens = purse }) calls).store
history-IsStaked_example = history-IsStaked strict strict_refuses purse calls

execute-Kept_example :
    Returns
      (λ _ c'.
        surplus ledger 20 100 c' +ℤ unbooked staking (Request.unstake 2 (pos 1000))
        ≡ surplus ledger 20 100 now)
      (execute ledger env (Request.unstake 2 (pos 1000)) now)
execute-Kept_example =
    execute-Kept ledger ledger-IsLedger env 20 refl now refl refl (Request.unstake 2 (pos 1000))
