-- ===== src/LiquidityMining/History.antt =====
-- The requests that contracts/liquidity-mining/src/lib.rs takes, and its stakes under any history of them.
use suban.Base.{
  ℕ, ◌≡◌, inl, inr, arith, refl, sym, true, Option-cases, none, some, List, [], is_some,
}
use mathlib.Core.Path.{subst}
use suban.Int.{ℤ, pos, ◌+ℤ◌, ◌≤ℤ◌, int_laws}
use suban.Dict.{lookup, nat_eq, sum_by, value_of, lookup-AllValues}
use suban.Host.{Env, ◌>>◌, pure, Returns, weaken, history, history_lem}
use suban.Tokens.{Tokens, Chain}
use suban.LiquidityMining.Farm
use suban.LiquidityMining.Farm.{
  FarmInfo, StakeInfo, Store, Action, no_stake, read_stake, read_farm, read_admin, accrue_rewards,
  write_farm,
}
use suban.LiquidityMining.Effects.{
  accrued, posted, entry, claim-posted, stake-posted, unstake-posted, set_reward_per_ledger-posted,
}
use suban.LiquidityMining.Tallies.{
  amount_of, GoodStake, IsTallied, IsFarmed, unstarted, farming, accrued-IsTallied, entry-IsTallied,
}

pub data Request : Type 0 where
  initialize : (admin reward_token : ℕ) → (reward_per_ledger : ℤ) → Request
  set_reward_per_ledger : (admin : ℕ) → (new_rate : ℤ) → Request
  stake : (user : ℕ) → (amount : ℤ) → Request
  unstake : (user : ℕ) → (amount : ℤ) → Request
  claim : (user : ℕ) → Request

abbrev pub deployed : Store
deployed = record { admin = none; farm = none; stakes = [] }

stake_value : (s : Store) (u : ℕ) → value_of amount_of (lookup u s.stakes) ≡ (read_stake s u).amount
unfolding read_stake
stake_value s u = elim (Option-cases (lookup u s.stakes)) [
  | inl e ↦ rw e refl
  | inr (n, e) ↦ rw e refl
]

stake_nonneg :
    (s : Store) (u : ℕ) (f : FarmInfo) → IsTallied f s.stakes → pos 0 ≤ℤ (read_stake s u).amount
unfolding read_stake
stake_nonneg s u f v = elim (Option-cases (lookup u s.stakes)) [
  | inl e ↦ rw e (omega arith)
  | inr (n, e) ↦
      rw e
        (lookup-AllValues (GoodStake f.accumulated_rewards_per_share) u s.stakes v.stakes_good e).0
]

module _ {W : Type 0} (t : Tokens W) where
  unfoldable pub execute : Env → Request → Action W (Unit {0})
  execute env (Request.initialize admin token rate) = Farm.initialize env admin token rate
  execute env (Request.set_reward_per_ledger admin rate) = Farm.set_reward_per_ledger env admin rate
  execute env (Request.stake user amount) = Farm.stake t env user amount
  execute env (Request.unstake user amount) = Farm.unstake t env user amount >> pure tt
  execute env (Request.claim user) = Farm.claim t env user >> pure tt

  abbrev Farmed : {A : Type 0} → A → Chain Store W → Type 0
  Farmed _ c = IsFarmed c.store

  module _ (env : Env) (c : Chain Store W) (f : FarmInfo) (known : is_some c.store.admin ≡ true)
      (has : c.store.farm ≡ some f) (v : IsTallied f c.store.stakes) where
    abbrev s : Store
    s = c.store

    posted-IsFarmed :
        (u : ℕ) (x total : ℤ) (c' : Chain Store W)
        → pos 0 ≤ℤ x
        → total +ℤ (read_stake s u).amount ≡ (accrued env f).total_staked +ℤ x
        → c'.store ≡ posted t env c f has u (entry t env c f has x) total
        → IsFarmed c'.store
    posted-IsFarmed u x total c' low change e = subst IsFarmed (sym e) (
        farming _ known refl (
          entry-IsTallied (accrued env f) s.stakes u x total (accrued-IsTallied env f s.stakes v)
            low (rw (stake_value s u) change)))

    stake-IsFarmed : (u : ℕ) (x : ℤ) → Returns Farmed (Farm.stake t env u x c)
    stake-IsFarmed u x =
        let before = stake_nonneg s u f v in
        weaken _ Farmed (Farm.stake t env u x c) (stake-posted t env c f has u x)
          (λ _ c' d. posted-IsFarmed u _ _ c' (omega (int_laws, before, d.0)) (omega int_laws) d.1)

    unstake-IsFarmed : (u : ℕ) (x : ℤ) → Returns Farmed (Farm.unstake t env u x c)
    unstake-IsFarmed u x =
        weaken _ Farmed (Farm.unstake t env u x c) (unstake-posted t env c f has u x)
          (λ _ c' d. posted-IsFarmed u _ _ c' (omega (int_laws, d.1)) (omega int_laws) d.2)

    claim-IsFarmed : (u : ℕ) → Returns Farmed (Farm.claim t env u c)
    claim-IsFarmed u =
        weaken _ Farmed (Farm.claim t env u c) (claim-posted t env c f has u)
          (λ _ c' d. posted-IsFarmed u _ _ c' (stake_nonneg s u f v) refl d.2)

    set_reward_per_ledger-IsFarmed :
        (a : ℕ) (r : ℤ) → Returns Farmed (Farm.set_reward_per_ledger env a r c)
    set_reward_per_ledger-IsFarmed a r =
        let g = accrued-IsTallied env f s.stakes v in
        weaken _ Farmed (Farm.set_reward_per_ledger env a r c)
          (set_reward_per_ledger-posted t env c f has a r)
          (λ _ c' d. subst IsFarmed (sym d.1) (
            farming _ known refl (record {
              rate_nonneg = d.0;
              accumulator_nonneg = g.accumulator_nonneg;
              summed = g.summed;
              stakes_good = g.stakes_good;
            })))

    initialized : (a k : ℕ) (r : ℤ) → Returns Farmed (Farm.initialize env a k r c)
    unfolding Farm.initialize
    initialized a k r = ground (arith, known)

    execute_farming : (r : Request) → Returns Farmed (execute env r c)
    unfolding execute
    execute_farming (Request.initialize a k r) = initialized a k r
    execute_farming (Request.set_reward_per_ledger a r) = set_reward_per_ledger-IsFarmed a r
    execute_farming (Request.stake u x) = stake-IsFarmed u x
    execute_farming (Request.unstake u x) = ground (arith, unstake-IsFarmed u x)
    execute_farming (Request.claim u) = ground (arith, claim-IsFarmed u)

  first_farm :
      (k : ℕ) (r : ℤ) (n : ℕ)
      → pos 0 ≤ℤ r
      → IsTallied
          (record {
            reward_token = k;
            reward_per_ledger = r;
            total_staked = pos 0;
            last_ledger = n;
            accumulated_rewards_per_share = pos 0;
          })
          []
  unfolding sum_by
  first_farm k r n p = record {
    rate_nonneg = p;
    accumulator_nonneg = omega arith;
    summed = refl;
    stakes_good = tt;
  }

  initialize-effect :
      (env : Env) (a k : ℕ) (r : ℤ) (c : Chain Store W)
      → Returns
          (λ _ c'.
            (pos 0 ≤ℤ r)
            × (c'.store ≡ record c.store {
              admin = some a;
              farm = some (record {
                reward_token = k;
                reward_per_ledger = r;
                total_staked = pos 0;
                last_ledger = env.sequence;
                accumulated_rewards_per_share = pos 0;
              });
            }))
          (Farm.initialize env a k r c)
  unfolding Farm.initialize write_farm
  initialize-effect env a k r c = ground arith

  initialize-IsFarmed :
      (env : Env) (a k : ℕ) (r : ℤ) (c : Chain Store W)
      → c.store.stakes ≡ []
      → Returns Farmed (Farm.initialize env a k r c)
  initialize-IsFarmed env a k r c nobody =
      weaken _ Farmed (Farm.initialize env a k r c) (initialize-effect env a k r c) (λ _ c' d.
        subst IsFarmed (sym d.1)
          (farming _ refl refl (rw nobody (first_farm k r env.sequence d.0))))

  -- Before there is a farm, every other request fails.
  execute_unstarted :
      (env : Env) (r : Request) (c : Chain Store W)
      → c.store.admin ≡ none
      → c.store.farm ≡ none
      → c.store.stakes ≡ []
      → Returns Farmed (execute env r c)
  unfolding execute Farm.set_reward_per_ledger Farm.stake Farm.unstake Farm.claim accrue_rewards
      read_admin read_farm
  execute_unstarted env (Request.initialize a k r) c e f nobody =
      initialize-IsFarmed env a k r c nobody
  execute_unstarted env (Request.set_reward_per_ledger a r) c e f nobody = ground (arith, e)
  execute_unstarted env (Request.stake u x) c e f nobody = ground (arith, f)
  execute_unstarted env (Request.unstake u x) c e f nobody = ground (arith, f)
  execute_unstarted env (Request.claim u) c e f nobody = ground (arith, f)

  execute-IsFarmed :
      (env : Env) (r : Request) (c : Chain Store W)
      → IsFarmed c.store
      → Returns Farmed (execute env r c)
  execute-IsFarmed env r c (unstarted e f nobody) = execute_unstarted env r c e f nobody
  execute-IsFarmed env r c (farming f known has v) = execute_farming env c f known has v r

  -- Whatever calls a new contract receives, with whatever tokens behind it, in whatever order and
  -- whichever of them fail: either nothing was initialized and nobody has a stake, or there is an
  -- administrator and a farm whose reward rate and accumulator are not below zero, the stakes add up
  -- to the recorded total, no stake and no reward debt is below zero, and nobody's debt is more than
  -- his stake has earned by the accumulator, so that no pending reward is below zero.
  pub history-IsFarmed :
      (w : W) (calls : List (Env × Request))
      → IsFarmed (history execute (record { store = deployed; tokens = w }) calls).store
  history-IsFarmed w calls =
      history_lem execute (λ c. IsFarmed c.store) execute-IsFarmed calls
        (record { store = deployed; tokens = w }) (unstarted refl refl refl)
