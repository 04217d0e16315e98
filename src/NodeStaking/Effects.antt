-- ===== src/NodeStaking/Effects.antt =====
-- The requests that contracts/node-staking/src/lib.rs takes, and what they write and pay.
use suban.Base.{ℕ, ◌+◌, ◌≡◌, arith, true, none, some, []}
use suban.Int.{ℤ, pos, ◌+ℤ◌, ◌-ℤ◌, ◌*ℤ◌, ◌/ℤ◌, min_ℤ, leb_ℤ, ◌≤ℤ◌, ◌<ℤ◌}
use suban.Dict.{lookup, insert, nat_eq}
use suban.Host.{Env, ◌>>◌, pure, Returns}
use suban.Tokens.{Tokens, Chain}
use suban.NodeStaking.Staking
use suban.NodeStaking.Staking.{
  NodeInfo, Store, Action, read_min_stake, read_reward_rate, read_reward_pool, read_total_staked,
  read_total_nodes, read_slashed, write_node, read_token, admin_only, get_node, reward_for,
  pay_rewards,
}

pub data Request : Type 0 where
  initialize : (admin token : ℕ) → (min_stake : ℤ) → (reward_rate_bps : ℕ) → Request
  register_node : (operator : ℕ) → (stake_amount : ℤ) → Request
  add_stake : (operator : ℕ) → (amount : ℤ) → Request
  unstake : (operator : ℕ) → (amount : ℤ) → Request
  claim_rewards : (operator : ℕ) → Request
  distribute_rewards : (admin : ℕ) → (amount : ℤ) → Request
  slash : (admin operator : ℕ) → (amount : ℤ) → Request

-- The storage before the first call.
abbrev pub deployed : Store
deployed = record {
  admin = none;
  token = none;
  nodes = [];
  total_staked = none;
  total_nodes = none;
  min_stake = none;
  reward_rate_bps = none;
  slashed_amount = none;
  reward_pool = none;
}

-- The same administrator, token and minimum.
abbrev pub SameTerms : Store → Store → Type 0
SameTerms s s' = (s'.admin ≡ s.admin) × (s'.token ≡ s.token) × (s'.min_stake ≡ s.min_stake)

-- The sums after a request.
abbrev pub Sums : Store → (total pool : ℤ) → (count : ℕ) → Type 0
Sums s' total pool count =
    (read_total_staked s' ≡ total) × (read_reward_pool s' ≡ pool) × (read_total_nodes s' ≡ count)

-- The node of `p` is written, with new sums, and nothing else that matters for the stakes.
abbrev pub Posted : (s s' : Store) → (p : ℕ) → NodeInfo → (total pool : ℤ) → (count : ℕ) → Type 0
Posted s s' p node total pool count =
    (s'.nodes ≡ insert p node s.nodes) × Sums s' total pool count × SameTerms s s'

abbrev pub reward : Store → ℤ → ℤ
reward s x = x *ℤ pos (read_reward_rate s) /ℤ pos 10000

module _ {W : Type 0} (t : Tokens W) where
  unfoldable pub execute : Env → Request → Action W (Unit {0})
  execute env (Request.initialize admin token min_stake rate) =
      Staking.initialize env admin token min_stake rate
  execute env (Request.register_node operator amount) = Staking.register_node t env operator amount
  execute env (Request.add_stake operator amount) = Staking.add_stake t env operator amount
  execute env (Request.unstake operator amount) = Staking.unstake t env operator amount >> pure tt
  execute env (Request.claim_rewards operator) = Staking.claim_rewards t env operator >> pure tt
  execute env (Request.distribute_rewards admin amount) =
      Staking.distribute_rewards t env admin amount
  execute env (Request.slash admin operator amount) = Staking.slash t env admin operator amount

module _ {W : Type 0} (t : Tokens W) (env : Env) (c : Chain Store W) (k : ℕ)
    (has : c.store.token ≡ some k) (p : ℕ) where
  abbrev s : Store
  s = c.store

  abbrev me : ℕ
  me = env.current_contract_address

  pub register_node-Posted :
      (x : ℤ)
      → lookup p s.nodes ≡ none
      → Returns
          (λ _ c'.
            (env.authorized p ≡ true)
            × (read_min_stake s ≤ℤ x)
            × (t.transfer k p me x c.tokens ≡ some c'.tokens)
            × Posted s c'.store p
                (record {
                  operator = p;
                  staked = x;
                  rewards_accrued = reward s x;
                  active = true;
                  joined_at = env.timestamp;
                })
                (read_total_staked s +ℤ x)
                (read_reward_pool s)
                (read_total_nodes s + 1))
          (Staking.register_node t env p x c)
  unfolding Staking.register_node reward_for read_token write_node read_total_staked
      read_reward_pool read_total_nodes
  register_node-Posted x new = ground (arith, has, new)

  module _ (n : NodeInfo) (found : lookup p s.nodes ≡ some n) where
    pub add_stake-Posted :
        (x : ℤ)
        → Returns
            (λ _ c'.
              (env.authorized p ≡ true)
              × (n.active ≡ true)
              × (t.transfer k p me x c.tokens ≡ some c'.tokens)
              × Posted s c'.store p
                  (record n {
                    staked = n.staked +ℤ x;
                    rewards_accrued = n.rewards_accrued +ℤ reward s x;
                  })
                  (read_total_staked s +ℤ x)
                  (read_reward_pool s)
                  (read_total_nodes s))
            (Staking.add_stake t env p x c)
    unfolding Staking.add_stake get_node reward_for read_token write_node read_total_staked
        read_reward_pool read_total_nodes
    add_stake-Posted x = ground (arith, has, found)

    pub unstake-Posted :
        (x : ℤ)
        → Returns
            (λ y c'.
              (y ≡ x +ℤ n.rewards_accrued)
              × (env.authorized p ≡ true)
              × (pos 0 <ℤ x)
              × (x ≤ℤ n.staked)
              × (t.transfer k me p y c.tokens ≡ some c'.tokens)
              × Posted s c'.store p
                  (record n {
                    staked = n.staked -ℤ x;
                    active = leb_ℤ (read_min_stake s) (n.staked -ℤ x);
                    rewards_accrued = pos 0;
                  })
                  (read_total_staked s -ℤ x)
                  (read_reward_pool s)
                  (read_total_nodes s))
            (Staking.unstake t env p x c)
    unfolding Staking.unstake get_node read_token write_node read_total_staked read_reward_pool
        read_total_nodes
    unstake-Posted x = ground (arith, has, found)

    -- What a claim pays.
    abbrev pub due : ℤ
    due = min_ℤ n.rewards_accrued (read_reward_pool s)

    pub pay_rewards-Posted :
        Returns
          (λ y c'.
            (y ≡ due)
            × (t.transfer k me p due c.tokens ≡ some c'.tokens)
            × Posted s c'.store p
                (record n { rewards_accrued = n.rewards_accrued -ℤ due })
                (read_total_staked s)
                (read_reward_pool s -ℤ due)
                (read_total_nodes s))
          (pay_rewards t env p n true c)
    unfolding pay_rewards read_token write_node read_total_staked read_reward_pool read_total_nodes
    pay_rewards-Posted = ground (arith, has)

    pub slash-Posted :
        (a : ℕ) (x : ℤ)
        → Returns
            (λ _ c'.
              (env.authorized a ≡ true)
              × (t.transfer k me a (min_ℤ x n.staked) c.tokens ≡ some c'.tokens)
              × Posted s c'.store p
                  (record n {
                    staked = n.staked -ℤ min_ℤ x n.staked;
                    active = leb_ℤ (read_min_stake s) (n.staked -ℤ min_ℤ x n.staked);
                  })
                  (read_total_staked s -ℤ min_ℤ x n.staked)
                  (read_reward_pool s)
                  (read_total_nodes s))
            (Staking.slash t env a p x c)
    unfolding Staking.slash admin_only get_node read_token write_node read_total_staked
        read_reward_pool read_total_nodes
    slash-Posted a x = ground (arith, has, found)

  pub distribute_rewards-Sums :
      (x : ℤ)
      → Returns
          (λ _ c'.
            (env.authorized p ≡ true)
            × (t.transfer k p me x c.tokens ≡ some c'.tokens)
            × (c'.store.nodes ≡ s.nodes)
            × Sums c'.store (read_total_staked s) (read_reward_pool s +ℤ x) (read_total_nodes s)
            × SameTerms s c'.store)
          (Staking.distribute_rewards t env p x c)
  unfolding Staking.distribute_rewards admin_only read_token read_total_staked read_reward_pool
      read_total_nodes
  distribute_rewards-Sums x = ground (arith, has)
