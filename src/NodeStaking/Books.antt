-- ===== src/NodeStaking/Books.antt =====
-- The stakes of contracts/node-staking/src/lib.rs after one request.
use suban.Base.{ℕ, ◌≡◌, inl, inr, arith, refl, Bool, true, false, Option-cases, none, some, is_some}
use suban.Int.{ℤ, pos, ◌+ℤ◌, min_ℤ, leb_ℤ, ltb_ℤ, ◌≤ℤ◌, int_laws}
use suban.Dict.{lookup, nat_eq, lookup-AllValues}
use suban.Host.{Env, Returns, weaken}
use suban.Tokens.{Tokens, Chain}
use suban.NodeStaking.Staking
use suban.NodeStaking.Staking.{
  NodeInfo, Store, read_min_stake, read_reward_pool, read_total_staked, read_total_nodes, get_node,
  admin_only, read_token, pay_rewards, reward_for,
}
use suban.NodeStaking.Effects.{
  register_node-Posted, add_stake-Posted, unstake-Posted, due, pay_rewards-Posted, slash-Posted,
  distribute_rewards-Sums,
}
use suban.NodeStaking.Stakes.{
  GoodNode, IsStaked, Posted-IsStaked, Reposted-IsStaked, min_same, started_same,
}

-- A token that makes no transfer of a negative amount, as SEP-41 asks.
abbrev pub RefusesNegative : {W : Type 0} → Tokens W → Type 0
RefusesNegative {W} t =
    (token a b : ℕ) (x : ℤ) (w w' : W) → t.transfer token a b x w ≡ some w' → pos 0 ≤ℤ x

-- More stake keeps an active node active.
still_active : (m a x : ℤ) (b : Bool) → b ≡ true → b ≡ leb_ℤ m a → pos 0 ≤ℤ x → b ≡ leb_ℤ m (a +ℤ x)
still_active m a x b e f p =
    let enough : m ≤ℤ a = ground arith in
    let more : m ≤ℤ a +ℤ x = omega (int_laws, enough, p) in ground arith

module _ {W : Type 0} (t : Tokens W) (refuses : RefusesNegative t) where
  abbrev Staked : {A : Type 0} → A → Chain Store W → Type 0
  Staked _ c = IsStaked c.store

  module _ (env : Env) (c : Chain Store W) (k : ℕ) (v : IsStaked c.store)
      (start : (is_some c.store.admin ≡ true) × (is_some c.store.token ≡ true))
      (has : c.store.token ≡ some k) where
    abbrev s : Store
    s = c.store

    good_node : (p : ℕ) (n : NodeInfo) → lookup p s.nodes ≡ some n → GoodNode (read_min_stake s) n
    good_node p n found =
        lookup-AllValues (GoodNode (read_min_stake s)) p s.nodes v.nodes_good found

    nothing_paid : (p : ℕ) (n : NodeInfo) → Returns Staked (pay_rewards t env p n false c)
    unfolding pay_rewards
    nothing_paid p n = v

    registered :
        (p : ℕ) (x : ℤ) (n : NodeInfo)
        → lookup p s.nodes ≡ some n
        → Returns Staked (Staking.register_node t env p x c)
    unfolding Staking.register_node
    registered p x n found = ground (arith, found)

    pub register_node-IsStaked :
        (p : ℕ) (x : ℤ) → Returns Staked (Staking.register_node t env p x c)
    register_node-IsStaked p x = elim (Option-cases (lookup p s.nodes)) [
      | inl new ↦
          weaken _ Staked (Staking.register_node t env p x c)
            (register_node-Posted t env c k has p x new)
            (λ _ c' d.
              let low = refuses k p env.current_contract_address x c.tokens c'.tokens d.2 in
              let enough = d.1 in
              Posted-IsStaked s c'.store p _ _ _ _ v start d.3 (low, ground arith)
                (rw new (omega int_laws)) (rw new (omega int_laws)) v.pool_nonneg)
      | inr (n, found) ↦ registered p x n found
    ]

    -- Without a node nothing happens.
    no_node :
        (p a : ℕ) (x : ℤ)
        → lookup p s.nodes ≡ none
        → Returns Staked (Staking.add_stake t env p x c)
          × Returns Staked (Staking.unstake t env p x c)
          × Returns Staked (Staking.claim_rewards t env p c)
          × Returns Staked (Staking.slash t env a p x c)
    unfolding Staking.add_stake Staking.unstake Staking.claim_rewards Staking.slash get_node
        admin_only
    no_node p a x absent = (
      ground (arith, absent),
      ground (arith, absent),
      ground (arith, absent),
      ground (arith, absent),
    )

    pub add_stake-IsStaked : (p : ℕ) (x : ℤ) → Returns Staked (Staking.add_stake t env p x c)
    add_stake-IsStaked p x = elim (Option-cases (lookup p s.nodes)) [
      | inl absent ↦ (no_node p 0 x absent).0
      | inr (n, found) ↦
          weaken _ Staked (Staking.add_stake t env p x c)
            (add_stake-Posted t env c k has p n found x)
            (λ _ c' d.
              let low = refuses k p env.current_contract_address x c.tokens c'.tokens d.2 in
              let good = good_node p n found in
              Reposted-IsStaked s c'.store p n _ _ _ v start found d.3
                (
                  omega (int_laws, good.0, low),
                  still_active (read_min_stake s) n.staked x n.active d.1 good.1 low,
                )
                (omega int_laws) v.pool_nonneg)
    ]

    pub unstake-IsStaked : (p : ℕ) (x : ℤ) → Returns Staked (Staking.unstake t env p x c)
    unstake-IsStaked p x = elim (Option-cases (lookup p s.nodes)) [
      | inl absent ↦ (no_node p 0 x absent).1
      | inr (n, found) ↦
          weaken _ Staked (Staking.unstake t env p x c) (unstake-Posted t env c k has p n found x)
            (λ _ c' d.
              Reposted-IsStaked s c'.store p n _ _ _ v start found d.5 (omega (int_laws, d.3), refl)
                (omega int_laws) v.pool_nonneg)
    ]

    pub slash-IsStaked : (a p : ℕ) (x : ℤ) → Returns Staked (Staking.slash t env a p x c)
    slash-IsStaked a p x = elim (Option-cases (lookup p s.nodes)) [
      | inl absent ↦ (no_node p a x absent).3
      | inr (n, found) ↦
          weaken _ Staked (Staking.slash t env a p x c) (slash-Posted t env c k has p n found a x)
            (λ _ c' d.
              let part : min_ℤ x n.staked ≤ℤ n.staked = ground arith in
              Reposted-IsStaked s c'.store p n _ _ _ v start found d.2
                (omega (int_laws, part), refl) (omega int_laws) v.pool_nonneg)
    ]

    pay_rewards-IsStaked :
        (p : ℕ) (n : NodeInfo) (b : Bool)
        → lookup p s.nodes ≡ some n
        → Returns Staked (pay_rewards t env p n b c)
    pay_rewards-IsStaked p n false found = nothing_paid p n
    pay_rewards-IsStaked p n true found =
        weaken _ Staked (pay_rewards t env p n true c) (pay_rewards-Posted t env c k has p n found)
          (λ _ c' d.
            let part : due t env c k has p n found ≤ℤ read_reward_pool s = ground arith in
            Reposted-IsStaked s c'.store p n _ _ _ v start found d.2 (good_node p n found)
              (omega int_laws) (omega (int_laws, part)))

    pub claim_rewards-IsStaked : (p : ℕ) → Returns Staked (Staking.claim_rewards t env p c)
    unfolding Staking.claim_rewards get_node
    claim_rewards-IsStaked p = elim (Option-cases (lookup p s.nodes)) [
      | inl absent ↦ (no_node p 0 (pos 0) absent).2
      | inr (n, found) ↦
          ground (arith, found, pay_rewards-IsStaked p n (ltb_ℤ (pos 0) n.rewards_accrued) found)
    ]

    pub distribute_rewards-IsStaked :
        (a : ℕ) (x : ℤ) → Returns Staked (Staking.distribute_rewards t env a x c)
    distribute_rewards-IsStaked a x =
        weaken _ Staked (Staking.distribute_rewards t env a x c)
          (distribute_rewards-Sums t env c k has a x)
          (λ _ c' d.
            let low = refuses k a env.current_contract_address x c.tokens c'.tokens d.1 in
            let pool = v.pool_nonneg in
            let sums = d.3 in
            record {
              nodes_good = rw (min_same s c'.store d.4, d.2) v.nodes_good;
              summed = rw (sums.0, d.2) v.summed;
              counted = rw (sums.2, d.2) v.counted;
              pool_nonneg = rw sums.1 (omega (int_laws, pool, low));
              started = inl (started_same s c'.store d.4 start);
            })
