-- ===== src/LiquidityMining/Effects.antt =====
-- What the requests of contracts/liquidity-mining/src/lib.rs write.
use suban.Base.{ℕ, zero, suc, ◌-◌, ◌≡◌, arith, refl, sym, Bool, true, false, some}
use suban.Int.{ℤ, pos, ◌+ℤ◌, ◌-ℤ◌, ◌*ℤ◌, ◌/ℤ◌, ◌==ℤ◌, ◌≤ℤ◌, ◌<ℤ◌}
use suban.Dict.{insert, nat_eq}
use suban.Host.{Env, Returns}
use suban.Tokens.{Tokens, Chain}
use suban.LiquidityMining.Farm
use suban.LiquidityMining.Farm.{
  FarmInfo, StakeInfo, Store, Action, read_stake, write_stake, write_farm, read_farm, read_admin,
  share_of, accrue, accrue_rewards, earned, pending_of, pay_pending, simulated, pending_at,
}

-- The farm once its rewards are accrued up to the ledger of the call.
abbrev pub accumulated : FarmInfo → (passed : ℕ) → ℤ
accumulated f passed =
    f.accumulated_rewards_per_share
    +ℤ f.reward_per_ledger *ℤ pos passed *ℤ pos 1000000 /ℤ f.total_staked

abbrev pub after_ledgers : Env → FarmInfo → (nothing_staked : Bool) → (passed : ℕ) → FarmInfo
after_ledgers env f true passed = f
after_ledgers env f false zero = f
after_ledgers env f false (suc passed) = record f {
  accumulated_rewards_per_share = accumulated f (suc passed);
  last_ledger = env.sequence;
}

unfoldable pub accrued : Env → FarmInfo → FarmInfo
accrued env f = after_ledgers env f (f.total_staked ==ℤ pos 0) (env.sequence - f.last_ledger)

-- What an amount has earned since the beginning, at an accumulator.
abbrev pub earnings : (amount acc : ℤ) → ℤ
earnings amount acc = amount *ℤ acc /ℤ pos 1000000

abbrev pub with_farm : {W : Type 0} → Chain Store W → FarmInfo → Chain Store W
with_farm c g = record c { store = write_farm g c.store }

module _ {W : Type 0} (t : Tokens W) (env : Env) (c : Chain Store W) (f : FarmInfo)
    (has : c.store.farm ≡ some f) where
  abbrev s : Store
  s = c.store

  farm_here : with_farm c f ≡ c
  unfolding write_farm
  farm_here = rw (← has) refl

  pub accrue-with_farm :
      (b : Bool) (n : ℕ)
      → Returns (λ _ c'. c' ≡ with_farm c (after_ledgers env f b n)) (accrue env f b n c)
  unfolding accrue
  accrue-with_farm true n = sym farm_here
  accrue-with_farm false zero = sym farm_here
  accrue-with_farm false (suc n) = ground arith

  pub accrue_rewards-with_farm :
      Returns (λ _ c'. c' ≡ with_farm c (accrued env f)) (accrue_rewards env c)
  unfolding accrue_rewards read_farm accrued
  accrue_rewards-with_farm =
      ground
        (arith, has, accrue-with_farm (f.total_staked ==ℤ pos 0) (env.sequence - f.last_ledger))

  abbrev g : FarmInfo
  g = accrued env f

  -- A stake and the total, once the rewards are accrued.
  abbrev pub posted : (u : ℕ) → StakeInfo → (total : ℤ) → Store
  posted u n total = record s {
    farm = some (record g { total_staked = total });
    stakes = insert u n s.stakes;
  }

  abbrev pub entry : ℤ → StakeInfo
  entry x = record { amount = x; reward_debt = earnings x g.accumulated_rewards_per_share }

  pub claim-posted :
      (u : ℕ)
      → Returns
          (λ y c'.
            (pos 0 <ℤ y)
            × (y
                ≡ earnings (read_stake s u).amount g.accumulated_rewards_per_share
                  -ℤ (read_stake s u).reward_debt)
            × (c'.store ≡ posted u (entry (read_stake s u).amount) g.total_staked)
            × (t.transfer g.reward_token env.current_contract_address u y c.tokens
                ≡ some c'.tokens))
          (Farm.claim t env u c)
  unfolding Farm.claim read_farm read_stake write_stake write_farm earned pending_of
  claim-posted u = ground (arith, accrue_rewards-with_farm)

  pub stake-posted :
      (u : ℕ) (x : ℤ)
      → Returns
          (λ _ c'.
            (pos 0 <ℤ x)
            × (c'.store ≡ posted u (entry ((read_stake s u).amount +ℤ x)) (g.total_staked +ℤ x)))
          (Farm.stake t env u x c)
  unfolding Farm.stake read_farm read_stake write_stake write_farm earned pending_of pay_pending
  stake-posted u x = ground (arith, accrue_rewards-with_farm)

  pub unstake-posted :
      (u : ℕ) (x : ℤ)
      → Returns
          (λ _ c'.
            (pos 0 <ℤ x)
            × (x ≤ℤ (read_stake s u).amount)
            × (c'.store ≡ posted u (entry ((read_stake s u).amount -ℤ x)) (g.total_staked -ℤ x)))
          (Farm.unstake t env u x c)
  unfolding Farm.unstake read_farm read_stake write_stake write_farm earned pending_of pay_pending
  unstake-posted u x = ground (arith, accrue_rewards-with_farm)

  pub set_reward_per_ledger-posted :
      (a : ℕ) (r : ℤ)
      → Returns
          (λ _ c'.
            (pos 0 ≤ℤ r)
            × (c'.store ≡ record s { farm = some (record g { reward_per_ledger = r }) }))
          (Farm.set_reward_per_ledger env a r c)
  unfolding Farm.set_reward_per_ledger read_farm read_admin write_farm
  set_reward_per_ledger-posted a r = ground (arith, accrue_rewards-with_farm)
