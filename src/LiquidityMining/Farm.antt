-- ===== src/LiquidityMining/Farm.antt =====
-- contracts/liquidity-mining/src/lib.rs: the farm and its stakes.
use suban.Base.{
  ℕ, zero, suc, ◌-◌, Bool, true, false, not, Option, some, is_some, unwrap_or, ltb, ◌==◌, ◌&&◌,
}
use suban.Int.{ℤ, pos, leb_ℤ, ltb_ℤ, ◌==ℤ◌}
use suban.Dict.{Dict, lookup, insert, nat_eq}
use suban.Host.{
  Env, Call, ◌>>=◌, ◌>>◌, pure, unwrap, fail_if, panic_if, require_auth, add_i128, sub_i128,
  mul_i128, div_i128,
}
use suban.Tokens.{Tokens, Chain, token_transfer, reads, writes}

pub record FarmInfo : Type 0 where
  pub reward_token : ℕ
  pub reward_per_ledger : ℤ
  pub total_staked : ℤ
  pub last_ledger : ℕ
  pub accumulated_rewards_per_share : ℤ

pub record StakeInfo : Type 0 where
  pub amount : ℤ
  pub reward_debt : ℤ

pub data MiningError : Type 0 where
  not_admin already_initialized zero_amount insufficient_stake no_rewards : MiningError

-- The instance storage, a field for each `DataKey`.
pub record Store : Type 0 where
  pub admin : Option ℕ
  pub farm : Option FarmInfo
  pub stakes : Dict ℕ StakeInfo

abbrev pub Action : Type 0 → Type 0 → Type 0
Action W A = Call (Chain Store W) MiningError A

abbrev pub no_stake : StakeInfo
no_stake = record { amount = pos 0; reward_debt = pos 0 }

unfoldable pub read_stake : Store → ℕ → StakeInfo
read_stake s user = unwrap_or (lookup user s.stakes) no_stake

unfoldable pub write_stake : ℕ → StakeInfo → Store → Store
write_stake user stake s = record s { stakes = insert user stake s.stakes }

unfoldable pub write_farm : FarmInfo → Store → Store
write_farm farm s = record s { farm = some farm }

module _ {W : Type 0} where
  unfoldable pub read_farm : Action W FarmInfo
  read_farm = do found ← reads (λ s. s.farm); unwrap found

  unfoldable pub read_admin : Action W ℕ
  read_admin = do found ← reads (λ s. s.admin); unwrap found

  -- What every share gets for a number of ledgers.
  unfoldable pub share_of : FarmInfo → (ledgers_passed : ℕ) → Action W ℤ
  share_of farm ledgers_passed = do
    reward ← mul_i128 farm.reward_per_ledger (pos ledgers_passed)
    scaled ← mul_i128 reward (pos 1000000)
    div_i128 scaled farm.total_staked

  unfoldable pub accrue :
      Env → FarmInfo → (nothing_staked : Bool) → (ledgers_passed : ℕ) → Action W (Unit {0})
  unfolding share_of write_farm
  accrue env farm true ledgers_passed = pure tt
  accrue env farm false zero = pure tt
  accrue env farm false (suc passed) = do
    share ← share_of farm (suc passed)
    accumulated ← add_i128 farm.accumulated_rewards_per_share share
    writes (
        write_farm
          (record farm { accumulated_rewards_per_share = accumulated; last_ledger = env.sequence }))

  -- `saturating_sub` is the difference on natural numbers.
  unfoldable pub accrue_rewards : Env → Action W (Unit {0})
  unfolding read_farm accrue
  accrue_rewards env = do
    farm ← read_farm
    accrue env farm (farm.total_staked ==ℤ pos 0) (env.sequence - farm.last_ledger)

  -- `amount * accumulated_rewards_per_share / 1_000_000`
  unfoldable pub earned : (amount accumulated : ℤ) → Action W ℤ
  earned amount accumulated = do
    product ← mul_i128 amount accumulated
    div_i128 product (pos 1000000)

  unfoldable pub pending_of : StakeInfo → (accumulated : ℤ) → Action W ℤ
  unfolding earned
  pending_of stake accumulated = do
    total ← earned stake.amount accumulated
    sub_i128 total stake.reward_debt

  unfoldable pub initialize :
      Env → (admin reward_token : ℕ) → (reward_per_ledger : ℤ) → Action W (Unit {0})
  unfolding write_farm
  initialize env admin reward_token reward_per_ledger = do
    initialized ← reads (λ s. is_some s.admin)
    panic_if initialized
    require_auth env admin
    panic_if (ltb_ℤ reward_per_ledger (pos 0))
    writes (λ s. record s { admin = some admin })
    writes (
        write_farm (record {
          reward_token = reward_token;
          reward_per_ledger = reward_per_ledger;
          total_staked = pos 0;
          last_ledger = env.sequence;
          accumulated_rewards_per_share = pos 0;
        }))

  unfoldable pub set_reward_per_ledger : Env → (admin : ℕ) → (new_rate : ℤ) → Action W (Unit {0})
  unfolding read_admin accrue_rewards read_farm write_farm
  set_reward_per_ledger env admin new_rate = do
    stored ← read_admin
    fail_if (not (admin == stored)) not_admin
    require_auth env admin
    fail_if (ltb_ℤ new_rate (pos 0)) zero_amount
    accrue_rewards env
    farm ← read_farm
    writes (write_farm (record farm { reward_per_ledger = new_rate }))

  -- The accumulator that the next accrual would write.
  unfoldable pub simulated : FarmInfo → (ledgers_passed : ℕ) → (accrues : Bool) → Action W ℤ
  unfolding share_of
  simulated farm ledgers_passed false = pure farm.accumulated_rewards_per_share
  simulated farm ledgers_passed true = do
    share ← share_of farm ledgers_passed
    add_i128 farm.accumulated_rewards_per_share share

  unfoldable pub pending_at : Env → FarmInfo → StakeInfo → (no_amount : Bool) → Action W ℤ
  unfolding simulated pending_of
  pending_at env farm stake true = pure (pos 0)
  pending_at env farm stake false = do
    let passed = env.sequence - farm.last_ledger
    accumulated ← simulated farm passed (ltb 0 passed && ltb_ℤ (pos 0) farm.total_staked)
    pending_of stake accumulated

  unfoldable pub pending_rewards : Env → (user : ℕ) → Action W ℤ
  unfolding read_farm read_stake pending_at
  pending_rewards env user = do
    farm ← read_farm
    stake ← reads (λ s. read_stake s user)
    pending_at env farm stake (stake.amount ==ℤ pos 0)

module _ {W : Type 0} (t : Tokens W) where
  -- `if pending > 0 { token.transfer(vault, user, pending) }`
  unfoldable pub pay_pending :
      Env → (token user : ℕ) → (pending : ℤ) → (positive : Bool) → Action W (Unit {0})
  pay_pending env token user pending true =
      token_transfer t token env.current_contract_address user pending
  pay_pending env token user pending false = pure tt

  unfoldable pub stake : Env → (user : ℕ) → (amount : ℤ) → Action W (Unit {0})
  unfolding accrue_rewards read_farm read_stake write_stake write_farm earned pending_of pay_pending
  stake env user amount = do
    require_auth env user
    fail_if (leb_ℤ amount (pos 0)) zero_amount
    accrue_rewards env
    farm ← read_farm
    user_stake ← reads (λ s. read_stake s user)
    token_transfer t farm.reward_token user env.current_contract_address amount
    pending ← pending_of user_stake farm.accumulated_rewards_per_share
    pay_pending env farm.reward_token user pending (ltb_ℤ (pos 0) pending)
    new_amount ← add_i128 user_stake.amount amount
    reward_debt ← earned new_amount farm.accumulated_rewards_per_share
    writes (write_stake user (record { amount = new_amount; reward_debt = reward_debt }))
    again ← read_farm
    new_total ← add_i128 again.total_staked amount
    writes (write_farm (record again { total_staked = new_total }))

  unfoldable pub unstake : Env → (user : ℕ) → (amount : ℤ) → Action W ℤ
  unfolding accrue_rewards read_farm read_stake write_stake write_farm earned pending_of pay_pending
  unstake env user amount = do
    require_auth env user
    fail_if (leb_ℤ amount (pos 0)) zero_amount
    accrue_rewards env
    farm ← read_farm
    user_stake ← reads (λ s. read_stake s user)
    fail_if (ltb_ℤ user_stake.amount amount) insufficient_stake
    pending ← pending_of user_stake farm.accumulated_rewards_per_share
    new_amount ← sub_i128 user_stake.amount amount
    reward_debt ← earned new_amount farm.accumulated_rewards_per_share
    writes (write_stake user (record { amount = new_amount; reward_debt = reward_debt }))
    again ← read_farm
    new_total ← sub_i128 again.total_staked amount
    writes (write_farm (record again { total_staked = new_total }))
    token_transfer t farm.reward_token env.current_contract_address user amount
    pay_pending env farm.reward_token user pending (ltb_ℤ (pos 0) pending)
    pure pending

  unfoldable pub claim : Env → (user : ℕ) → Action W ℤ
  unfolding accrue_rewards read_farm read_stake write_stake earned pending_of
  claim env user = do
    require_auth env user
    accrue_rewards env
    farm ← read_farm
    user_stake ← reads (λ s. read_stake s user)
    pending ← pending_of user_stake farm.accumulated_rewards_per_share
    fail_if (leb_ℤ pending (pos 0)) no_rewards
    reward_debt ← earned user_stake.amount farm.accumulated_rewards_per_share
    writes (write_stake user (record user_stake { reward_debt = reward_debt }))
    token_transfer t farm.reward_token env.current_contract_address user pending
    pure pending
