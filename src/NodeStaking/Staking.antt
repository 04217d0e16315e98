-- ===== src/NodeStaking/Staking.antt =====
-- contracts/node-staking/src/lib.rs: registration, stakes, rewards and slashing.
use suban.Base.{ℕ, Bool, true, false, not, Option, some, is_some, unwrap_or, ◌==◌, if◌then◌else◌}
use suban.Int.{ℤ, pos, leb_ℤ, ltb_ℤ, min_ℤ}
use suban.Dict.{Dict, lookup, insert, nat_eq}
use suban.Host.{
  Env, Call, ◌>>=◌, ◌>>◌, pure, unwrap, ok_or, fail_if, panic_if, require_auth, add_i128, sub_i128,
  mul_i128, div_i128, add_u32,
}
use suban.Tokens.{Tokens, Chain, token_transfer, reads, writes}

pub record NodeInfo : Type 0 where
  pub operator : ℕ
  pub staked : ℤ
  pub rewards_accrued : ℤ
  pub active : Bool
  pub joined_at : ℕ

pub data StakingError : Type 0 where
  not_admin already_initialized node_not_found node_already_registered : StakingError
  below_min_stake insufficient_balance node_not_active nothing_to_unstake : StakingError

-- The instance storage, a field for each `DataKey`.
pub record Store : Type 0 where
  pub admin : Option ℕ
  pub token : Option ℕ
  pub nodes : Dict ℕ NodeInfo
  pub total_staked : Option ℤ
  pub total_nodes : Option ℕ
  pub min_stake : Option ℤ
  pub reward_rate_bps : Option ℕ
  pub slashed_amount : Option ℤ
  pub reward_pool : Option ℤ

abbrev pub Action : Type 0 → Type 0 → Type 0
Action W A = Call (Chain Store W) StakingError A

unfoldable pub read_min_stake : Store → ℤ
read_min_stake s = unwrap_or s.min_stake (pos 1000000000)

unfoldable pub read_reward_rate : Store → ℕ
read_reward_rate s = unwrap_or s.reward_rate_bps 50

unfoldable pub read_reward_pool : Store → ℤ
read_reward_pool s = unwrap_or s.reward_pool (pos 0)

unfoldable pub read_total_staked : Store → ℤ
read_total_staked s = unwrap_or s.total_staked (pos 0)

unfoldable pub read_total_nodes : Store → ℕ
read_total_nodes s = unwrap_or s.total_nodes 0

unfoldable pub read_slashed : Store → ℤ
read_slashed s = unwrap_or s.slashed_amount (pos 0)

-- `set(&DataKey::Node(operator), &node)`
unfoldable pub write_node : ℕ → NodeInfo → Store → Store
write_node operator node s = record s { nodes = insert operator node s.nodes }

module _ {W : Type 0} where
  unfoldable pub read_token : Action W ℕ
  read_token = do found ← reads (λ s. s.token); unwrap found

  -- `admin != read_admin(&env)`, then `require_auth`
  unfoldable pub admin_only : Env → ℕ → Action W (Unit {0})
  admin_only env admin = do
    stored ← unwrap (← reads (λ s. s.admin))
    fail_if (not (admin == stored)) not_admin
    require_auth env admin

  unfoldable pub get_node : (operator : ℕ) → Action W NodeInfo
  get_node operator = do found ← reads (λ s. lookup operator s.nodes); ok_or found node_not_found

  -- `amount * read_reward_rate(&env) as i128 / 10_000`
  unfoldable pub reward_for : (amount : ℤ) → Action W ℤ
  unfolding read_reward_rate
  reward_for amount = do
    rate ← reads read_reward_rate
    product ← mul_i128 amount (pos rate)
    div_i128 product (pos 10000)

  unfoldable pub initialize :
      Env → (admin token : ℕ) → (min_stake : ℤ) → (reward_rate_bps : ℕ) → Action W (Unit {0})
  initialize env admin token min_stake reward_rate_bps = do
    initialized ← reads (λ s. is_some s.admin)
    panic_if initialized
    require_auth env admin
    writes (λ s. record s {
      admin = some admin;
      token = some token;
      total_staked = some (pos 0);
      total_nodes = some 0;
      min_stake = some min_stake;
      reward_rate_bps = some reward_rate_bps;
      slashed_amount = some (pos 0);
      reward_pool = some (pos 0);
    })

module _ {W : Type 0} (t : Tokens W) where
  unfoldable pub register_node : Env → (operator : ℕ) → (stake_amount : ℤ) → Action W (Unit {0})
  unfolding read_min_stake reward_for read_total_staked read_total_nodes read_token write_node
  register_node env operator stake_amount = do
    require_auth env operator
    registered ← reads (λ s. is_some (lookup operator s.nodes))
    fail_if registered node_already_registered
    min_stake ← reads read_min_stake
    fail_if (ltb_ℤ stake_amount min_stake) below_min_stake
    rewards_accrued ← reward_for stake_amount
    writes (
        write_node operator (record {
          operator = operator;
          staked = stake_amount;
          rewards_accrued = rewards_accrued;
          active = true;
          joined_at = env.timestamp;
        }))
    total_staked ← reads read_total_staked
    new_staked ← add_i128 total_staked stake_amount
    writes (λ s. record s { total_staked = some new_staked })
    total_nodes ← reads read_total_nodes
    new_nodes ← add_u32 total_nodes 1
    writes (λ s. record s { total_nodes = some new_nodes })
    token ← read_token
    token_transfer t token operator env.current_contract_address stake_amount

  unfoldable pub add_stake : Env → (operator : ℕ) → (amount : ℤ) → Action W (Unit {0})
  unfolding get_node reward_for read_total_staked read_token write_node
  add_stake env operator amount = do
    require_auth env operator
    node ← get_node operator
    fail_if (not node.active) node_not_active
    staked ← add_i128 node.staked amount
    reward ← reward_for amount
    rewards_accrued ← add_i128 node.rewards_accrued reward
    writes
        (write_node operator (record node { staked = staked; rewards_accrued = rewards_accrued }))
    total_staked ← reads read_total_staked
    new_staked ← add_i128 total_staked amount
    writes (λ s. record s { total_staked = some new_staked })
    token ← read_token
    token_transfer t token operator env.current_contract_address amount

  unfoldable pub unstake : Env → (operator : ℕ) → (amount : ℤ) → Action W ℤ
  unfolding get_node read_min_stake read_total_staked read_token write_node
  unstake env operator amount = do
    require_auth env operator
    node ← get_node operator
    fail_if (leb_ℤ amount (pos 0)) nothing_to_unstake
    fail_if (ltb_ℤ node.staked amount) insufficient_balance
    staked ← sub_i128 node.staked amount
    min_stake ← reads read_min_stake
    payout ← add_i128 amount node.rewards_accrued
    writes (
        write_node operator (record node {
          staked = staked;
          active = leb_ℤ min_stake staked;
          rewards_accrued = pos 0;
        }))
    total_staked ← reads read_total_staked
    new_staked ← sub_i128 total_staked amount
    writes (λ s. record s { total_staked = some new_staked })
    token ← read_token
    token_transfer t token env.current_contract_address operator payout
    pure payout

  -- The rewards of a node, as far as the pool has them.
  unfoldable pub pay_rewards : Env → (operator : ℕ) → NodeInfo → (positive : Bool) → Action W ℤ
  unfolding read_reward_pool read_token write_node
  pay_rewards env operator node false = pure (pos 0)
  pay_rewards env operator node true = do
    pool ← reads read_reward_pool
    let paid = if leb_ℤ node.rewards_accrued pool then node.rewards_accrued else pool
    left ← sub_i128 node.rewards_accrued paid
    writes (write_node operator (record node { rewards_accrued = left }))
    new_pool ← sub_i128 pool paid
    writes (λ s. record s { reward_pool = some new_pool })
    token ← read_token
    token_transfer t token env.current_contract_address operator paid
    pure paid

  unfoldable pub claim_rewards : Env → (operator : ℕ) → Action W ℤ
  unfolding get_node pay_rewards
  claim_rewards env operator = do
    require_auth env operator
    node ← get_node operator
    pay_rewards env operator node (ltb_ℤ (pos 0) node.rewards_accrued)

  unfoldable pub distribute_rewards : Env → (admin : ℕ) → (amount : ℤ) → Action W (Unit {0})
  unfolding admin_only read_reward_pool read_token
  distribute_rewards env admin amount = do
    admin_only env admin
    pool ← reads read_reward_pool
    new_pool ← add_i128 pool amount
    writes (λ s. record s { reward_pool = some new_pool })
    token ← read_token
    token_transfer t token admin env.current_contract_address amount

  unfoldable pub slash : Env → (admin operator : ℕ) → (amount : ℤ) → Action W (Unit {0})
  unfolding admin_only get_node read_min_stake read_slashed read_total_staked read_token write_node
  slash env admin operator amount = do
    admin_only env admin
    node ← get_node operator
    let slashed = min_ℤ amount node.staked
    staked ← sub_i128 node.staked slashed
    min_stake ← reads read_min_stake
    writes (write_node operator (record node { staked = staked; active = leb_ℤ min_stake staked }))
    total_slashed ← reads read_slashed
    new_slashed ← add_i128 total_slashed slashed
    writes (λ s. record s { slashed_amount = some new_slashed })
    total_staked ← reads read_total_staked
    new_staked ← sub_i128 total_staked slashed
    writes (λ s. record s { total_staked = some new_staked })
    token ← read_token
    token_transfer t token env.current_contract_address admin slashed
