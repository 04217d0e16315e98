-- ===== src/NodeStaking/Stakes.antt =====
-- The stakes of contracts/node-staking/src/lib.rs and their sums.
use suban.Base.{ℕ, ◌≡◌, ◌⊎◌, inl, refl, true, none, some, [], is_some}
use suban.Int.{ℤ, pos, ◌+ℤ◌, leb_ℤ, ◌≤ℤ◌, int_laws, parts_of_eq}
use suban.Dict.{lookup, nat_eq, sum_by, sum_by-insert, value_of, AllValues, insert-AllValues}
use suban.NodeStaking.Staking.{
  NodeInfo, Store, read_min_stake, read_reward_pool, read_total_staked, read_total_nodes,
}
use suban.NodeStaking.Effects.{Posted, SameTerms}

abbrev pub staked_of : NodeInfo → ℤ
staked_of n = n.staked

abbrev pub one_of : NodeInfo → ℤ
one_of n = pos 1

-- A node has a stake that is not below zero, and is active if that is at least the minimum.
abbrev pub GoodNode : ℤ → NodeInfo → Type 0
GoodNode min_stake n = (pos 0 ≤ℤ n.staked) × (n.active ≡ leb_ℤ min_stake n.staked)

-- All nodes are good, their stakes add up to the total and their number is the recorded one; the
-- reward pool is not below zero. There are no nodes before there is a token.
pub record IsStaked (s : Store) : Type 0 where
  pub nodes_good : AllValues (GoodNode (read_min_stake s)) s.nodes
  pub summed : sum_by staked_of s.nodes ≡ read_total_staked s
  pub counted : sum_by one_of s.nodes ≡ pos (read_total_nodes s)
  pub pool_nonneg : pos 0 ≤ℤ read_reward_pool s
  pub started :
      ((is_some s.admin ≡ true) × (is_some s.token ≡ true)) ⊎ ((s.token ≡ none) × (s.nodes ≡ []))

pub min_same : (s s' : Store) → SameTerms s s' → read_min_stake s' ≡ read_min_stake s
unfolding read_min_stake
min_same s s' e = rw e.2 refl

pub started_same :
    (s s' : Store)
    → SameTerms s s'
    → (is_some s.admin ≡ true) × (is_some s.token ≡ true)
    → (is_some s'.admin ≡ true) × (is_some s'.token ≡ true)
started_same s s' e h = (rw e.0 h.0, rw e.1 h.1)

-- A node that is posted keeps the books if the sums change with it.
pub Posted-IsStaked :
    (s s' : Store) (p : ℕ) (node : NodeInfo) (total pool : ℤ) (count : ℕ)
    → IsStaked s
    → (is_some s.admin ≡ true) × (is_some s.token ≡ true)
    → Posted s s' p node total pool count
    → GoodNode (read_min_stake s) node
    → total +ℤ value_of staked_of (lookup p s.nodes) ≡ read_total_staked s +ℤ node.staked
    → pos count +ℤ value_of one_of (lookup p s.nodes) ≡ pos (read_total_nodes s) +ℤ pos 1
    → pos 0 ≤ℤ pool
    → IsStaked s'
Posted-IsStaked s s' p node total pool count v start (nodes, sums, terms) good stakes counts low =
    let sum = parts_of_eq (sum_by-insert staked_of p node s.nodes) in
    let number = parts_of_eq (sum_by-insert one_of p node s.nodes) in
    let old_sum = parts_of_eq v.summed in
    let old_number = parts_of_eq v.counted in
    let more = parts_of_eq stakes in
    let more_nodes = parts_of_eq counts in
    record {
      nodes_good =
          rw (min_same s s' terms, nodes)
            (insert-AllValues (GoodNode (read_min_stake s)) p node s.nodes v.nodes_good good);
      summed = rw (sums.0, nodes) (omega int_laws);
      counted = rw (sums.2, nodes) (omega int_laws);
      pool_nonneg = rw sums.1 low;
      started = inl (started_same s s' terms start);
    }

-- A node that is posted in the place of the one that was found.
pub Reposted-IsStaked :
    (s s' : Store) (p : ℕ) (old node : NodeInfo) (total pool : ℤ)
    → IsStaked s
    → (is_some s.admin ≡ true) × (is_some s.token ≡ true)
    → lookup p s.nodes ≡ some old
    → Posted s s' p node total pool (read_total_nodes s)
    → GoodNode (read_min_stake s) node
    → total +ℤ old.staked ≡ read_total_staked s +ℤ node.staked
    → pos 0 ≤ℤ pool
    → IsStaked s'
Reposted-IsStaked s s' p old node total pool v start found posted good stakes low =
    Posted-IsStaked s s' p node total pool (read_total_nodes s) v start posted good
      (rw found stakes) (rw found refl) low
