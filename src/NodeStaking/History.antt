-- ===== src/NodeStaking/History.antt =====
-- The stakes of contracts/node-staking/src/lib.rs under any history of requests.
use suban.Base.{ℕ, ◌≡◌, inl, inr, arith, refl, true, Option-cases, none, some, List, [], is_some}
use suban.Int.{ℤ}
use suban.Dict.{lookup, nat_eq, sum_by}
use suban.Host.{Env, Returns, history, history_lem}
use suban.Tokens.{Tokens, Chain}
use suban.NodeStaking.Staking
use suban.NodeStaking.Staking.{
  NodeInfo, Store, read_min_stake, read_reward_pool, read_total_staked, read_total_nodes, get_node,
  admin_only, read_token, pay_rewards, reward_for,
}
use suban.NodeStaking.Effects.{Request, deployed, execute}
use suban.NodeStaking.Stakes.{IsStaked}
use suban.NodeStaking.Books.{
  RefusesNegative, register_node-IsStaked, add_stake-IsStaked, unstake-IsStaked, slash-IsStaked,
  claim_rewards-IsStaked, distribute_rewards-IsStaked,
}

module _ {W : Type 0} (t : Tokens W) (refuses : RefusesNegative t) where
  abbrev StaysStaked : {A : Type 0} → A → Chain Store W → Type 0
  StaysStaked _ c = IsStaked c.store

  initialize-IsStaked :
      (env : Env) (a k : ℕ) (m : ℤ) (r : ℕ) (c : Chain Store W)
      → IsStaked c.store
      → Returns StaysStaked (Staking.initialize env a k m r c)
  unfolding Staking.initialize read_total_staked read_total_nodes read_reward_pool sum_by
  initialize-IsStaked env a k m r c v = ground (arith, v)

  -- Before there is a token every other request fails.
  idle :
      (env : Env) (r : Request) (c : Chain Store W)
      → IsStaked c.store
      → c.store.token ≡ none
      → c.store.nodes ≡ []
      → Returns StaysStaked (execute t env r c)
  unfolding execute Staking.register_node Staking.add_stake Staking.unstake Staking.claim_rewards
      Staking.slash Staking.distribute_rewards get_node admin_only read_token reward_for lookup
  idle env (Request.initialize a k m r) c v e f = initialize-IsStaked env a k m r c v
  idle env (Request.register_node p x) c v e f = ground (arith, e, f)
  idle env (Request.add_stake p x) c v e f = ground (arith, e, f)
  idle env (Request.unstake p x) c v e f = ground (arith, e, f)
  idle env (Request.claim_rewards p) c v e f = ground (arith, e, f)
  idle env (Request.distribute_rewards a x) c v e f = ground (arith, e, f)
  idle env (Request.slash a p x) c v e f = ground (arith, e, f)

  busy :
      (env : Env) (r : Request) (c : Chain Store W) (k : ℕ)
      → IsStaked c.store
      → (is_some c.store.admin ≡ true) × (is_some c.store.token ≡ true)
      → c.store.token ≡ some k
      → Returns StaysStaked (execute t env r c)
  unfolding execute
  busy env (Request.initialize a k' m r) c k v h e = initialize-IsStaked env a k' m r c v
  busy env (Request.register_node p x) c k v h e =
      register_node-IsStaked t refuses env c k v h e p x
  busy env (Request.add_stake p x) c k v h e = add_stake-IsStaked t refuses env c k v h e p x
  busy env (Request.unstake p x) c k v h e =
      ground (arith, unstake-IsStaked t refuses env c k v h e p x)
  busy env (Request.claim_rewards p) c k v h e =
      ground (arith, claim_rewards-IsStaked t refuses env c k v h e p)
  busy env (Request.distribute_rewards a x) c k v h e =
      distribute_rewards-IsStaked t refuses env c k v h e a x
  busy env (Request.slash a p x) c k v h e = slash-IsStaked t refuses env c k v h e a p x

  execute-IsStaked :
      (env : Env) (r : Request) (c : Chain Store W)
      → IsStaked c.store
      → Returns StaysStaked (execute t env r c)
  execute-IsStaked env r c v = elim v.started [
    | inr (e, f) ↦ idle env r c v e f
    | inl h ↦ elim (Option-cases c.store.token) [
      | inl none_yet ↦ cc (rw none_yet at h.1)
      | inr (k, e) ↦ busy env r c k v h e
    ]
  ]

  -- With a token that makes no negative transfers, whatever calls a new contract receives, in
  -- whatever order and whichever of them fail: no stake is below zero, the stakes of all nodes add
  -- up to the recorded total, the number of nodes is the recorded one, a node is active exactly if
  -- it has at least the minimum stake, the reward pool is not below zero, and there are no nodes
  -- before there is a token.
  pub history-IsStaked :
      (w : W) (calls : List (Env × Request))
      → IsStaked (history (execute t) (record { store = deployed; tokens = w }) calls).store
  unfolding read_total_staked read_total_nodes read_reward_pool sum_by
  history-IsStaked w calls =
      history_lem (execute t) (λ c. IsStaked c.store) execute-IsStaked calls
        (record { store = deployed; tokens = w })
        (record {
          nodes_good = tt;
          summed = refl;
          counted = refl;
          pool_nonneg = omega arith;
          started = inr (refl, refl);
        })
