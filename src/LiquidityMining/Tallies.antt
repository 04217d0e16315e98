-- ===== src/LiquidityMining/Tallies.antt =====
-- The stakes of contracts/liquidity-mining/src/lib.rs, their total and what they have earned.
use suban.Base.{ℕ, zero, suc, ◌-◌, ◌≡◌, arith, Bool, true, false, none, some, [], ◌∷◌, is_some}
use suban.Int.{ℤ, pos, ◌+ℤ◌, ◌*ℤ◌, ◌==ℤ◌, ◌≤ℤ◌, int_laws, parts_of_eq}
use suban.Int.Order.{mul_nonneg, div_nonneg, scaled_mono}
use suban.Dict.{
  Dict, lookup, insert, nat_eq, sum_by, sum_by-insert, value_of, value_of-le-sum_by, AllValues,
  insert-AllValues,
}
use suban.Host.{Env}
use suban.LiquidityMining.Farm.{FarmInfo, StakeInfo, Store}
use suban.LiquidityMining.Effects.{after_ledgers, accrued, earnings}

abbrev pub amount_of : StakeInfo → ℤ
amount_of n = n.amount

-- A stake has an amount and a debt that are not below zero, and has earned at least its debt.
abbrev pub GoodStake : ℤ → StakeInfo → Type 0
GoodStake acc n =
    (pos 0 ≤ℤ n.amount) × (pos 0 ≤ℤ n.reward_debt) × (n.reward_debt ≤ℤ earnings n.amount acc)

-- The stakes add up to the total, and all are good at the accumulator; rate and accumulator are not
-- below zero.
pub record IsTallied (f : FarmInfo) (stakes : Dict ℕ StakeInfo) : Type 0 where
  pub rate_nonneg : pos 0 ≤ℤ f.reward_per_ledger
  pub accumulator_nonneg : pos 0 ≤ℤ f.accumulated_rewards_per_share
  pub summed : sum_by amount_of stakes ≡ f.total_staked
  pub stakes_good : AllValues (GoodStake f.accumulated_rewards_per_share) stakes

-- Nothing has happened yet, or there is an administrator and a farm with sound stakes.
pub data IsFarmed (s : Store) : Type 0 where
  unstarted : s.admin ≡ none → s.farm ≡ none → s.stakes ≡ [] → IsFarmed s
  farming :
      (f : FarmInfo) → is_some s.admin ≡ true → s.farm ≡ some f → IsTallied f s.stakes → IsFarmed s

-- Stakes stay good when the accumulator grows.
grown_good :
    (acc acc' : ℤ) (stakes : Dict ℕ StakeInfo)
    → pos 0 ≤ℤ acc
    → acc ≤ℤ acc'
    → AllValues (GoodStake acc) stakes
    → AllValues (GoodStake acc') stakes
grown_good acc acc' [] p q h = tt
grown_good acc acc' ((u, n) ∷ stakes) p q (good, h) =
    let more = scaled_mono n.amount acc acc' (pos 1000000) good.0 p q (omega arith) in
    let below = good.2 in
    ((good.0, good.1, omega (arith, more, below)), grown_good acc acc' stakes p q h)

pub total_nonneg :
    (f : FarmInfo) (stakes : Dict ℕ StakeInfo) → IsTallied f stakes → pos 0 ≤ℤ f.total_staked
total_nonneg f stakes v =
    let bounds = value_of-le-sum_by amount_of 0 stakes (amounts stakes v.stakes_good) in
    let sum = parts_of_eq v.summed in omega (arith, bounds, sum)
  where
    amounts :
        (m : Dict ℕ StakeInfo)
        → AllValues (GoodStake f.accumulated_rewards_per_share) m
        → AllValues (λ n. pos 0 ≤ℤ n.amount) m
    amounts [] h = tt
    amounts ((u, n) ∷ m) (good, h) = (good.0, amounts m h)

after_ledgers-IsTallied :
    (env : Env) (f : FarmInfo) (stakes : Dict ℕ StakeInfo) (b : Bool) (n : ℕ)
    → IsTallied f stakes
    → IsTallied (after_ledgers env f b n) stakes
after_ledgers-IsTallied env f stakes true n v = v
after_ledgers-IsTallied env f stakes false zero v = v
after_ledgers-IsTallied env f stakes false (suc n) v =
    let reward = mul_nonneg f.reward_per_ledger (pos (suc n)) v.rate_nonneg (omega arith) in
    let scaled =
      mul_nonneg (f.reward_per_ledger *ℤ pos (suc n)) (pos 1000000) reward (omega arith) in
    let share = div_nonneg _ f.total_staked scaled (total_nonneg f stakes v) in
    let acc = v.accumulator_nonneg in
    record {
      rate_nonneg = v.rate_nonneg;
      accumulator_nonneg = omega (int_laws, share, acc);
      summed = v.summed;
      stakes_good =
          grown_good f.accumulated_rewards_per_share _ stakes acc (omega (int_laws, share))
            v.stakes_good;
    }

pub accrued-IsTallied :
    (env : Env) (f : FarmInfo) (stakes : Dict ℕ StakeInfo)
    → IsTallied f stakes
    → IsTallied (accrued env f) stakes
unfolding accrued
accrued-IsTallied env f stakes v =
    after_ledgers-IsTallied env f stakes (f.total_staked ==ℤ pos 0) (env.sequence - f.last_ledger) v

-- A stake that is written with what it has earned so far, and a total that moves with it.
pub entry-IsTallied :
    (g : FarmInfo) (stakes : Dict ℕ StakeInfo) (u : ℕ) (x total : ℤ)
    → IsTallied g stakes
    → pos 0 ≤ℤ x
    → total +ℤ value_of amount_of (lookup u stakes) ≡ g.total_staked +ℤ x
    → IsTallied
        (record g { total_staked = total })
        (insert u
          (record { amount = x; reward_debt = earnings x g.accumulated_rewards_per_share })
          stakes)
entry-IsTallied g stakes u x total v low change =
    let acc = g.accumulated_rewards_per_share in
    let n : StakeInfo = record { amount = x; reward_debt = earnings x acc } in
    let earned =
      div_nonneg (x *ℤ acc) (pos 1000000) (mul_nonneg x acc low v.accumulator_nonneg)
        (omega arith) in
    let sum = parts_of_eq (sum_by-insert amount_of u n stakes) in
    let before = parts_of_eq v.summed in
    let moves = parts_of_eq change in
    record {
      rate_nonneg = v.rate_nonneg;
      accumulator_nonneg = v.accumulator_nonneg;
      summed = omega int_laws;
      stakes_good =
          insert-AllValues (GoodStake acc) u n stakes v.stakes_good (low, earned, omega arith);
    }
