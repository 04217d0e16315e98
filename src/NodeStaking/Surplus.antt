-- ===== src/NodeStaking/Surplus.antt =====
-- What contracts/node-staking/src/lib.rs holds beyond its stakes and its reward pool.
use suban.Base.{
  ℕ, ◌≡◌, ◌≢◌, inl, inr, arith, Bool, true, false, Bool-cases, Option-cases, none, some, is_some,
}
use suban.Int.{ℤ, pos, ◌+ℤ◌, ◌-ℤ◌, ltb_ℤ, int_laws, parts_of_eq}
use suban.Dict.{lookup, nat_eq, value_of}
use suban.Host.{Env, Returns, weaken}
use suban.Tokens.{Tokens, Chain, IsLedger, receives_one, pays_one}
use suban.NodeStaking.Staking
use suban.NodeStaking.Staking.{
  NodeInfo, Store, read_reward_pool, read_total_staked, get_node, admin_only, pay_rewards,
}
use suban.NodeStaking.Effects.{
  Request, execute, register_node-Posted, add_stake-Posted, unstake-Posted, pay_rewards-Posted,
  slash-Posted, distribute_rewards-Sums,
}

abbrev pub rewards_of : NodeInfo → ℤ
rewards_of n = n.rewards_accrued

-- What a request takes out of the contract without taking it from the stakes or the pool.
abbrev pub unbooked : Store → Request → ℤ
unbooked s (Request.unstake operator amount) = value_of rewards_of (lookup operator s.nodes)
unbooked s _ = pos 0

-- The balance of the contract `me` in the token `k` beyond what is staked and what is in the pool.
abbrev pub surplus : {W : Type 0} → Tokens W → (k me : ℕ) → Chain Store W → ℤ
surplus t k me c = t.balance k me c.tokens -ℤ read_total_staked c.store -ℤ read_reward_pool c.store

-- The balance moves together with the stakes and the pool.
together :
    (b b' s s' p p' x : ℤ)
    → b' -ℤ b ≡ (s' -ℤ s) +ℤ (p' -ℤ p) -ℤ x
    → b' -ℤ s' -ℤ p' +ℤ x ≡ b -ℤ s -ℤ p
together b b' s s' p p' x e = omega (int_laws, parts_of_eq e)

module _ {W : Type 0} (t : Tokens W) (laws : IsLedger t) (env : Env) (k : ℕ)
    (unsigned : env.authorized env.current_contract_address ≡ false) where
  abbrev me : ℕ
  me = env.current_contract_address

  foreign : (p : ℕ) → env.authorized p ≡ true → p ≢ me
  foreign p signed e = cc (rw e at signed)

  module _ (c : Chain Store W) (known : is_some c.store.admin ≡ true)
      (has : c.store.token ≡ some k) where
    abbrev s : Store
    s = c.store

    abbrev Kept : ℤ → Chain Store W → Type 0
    Kept x c' = surplus t k me c' +ℤ x ≡ surplus t k me c

    registered :
        (p : ℕ) (x : ℤ) (n : NodeInfo)
        → lookup p s.nodes ≡ some n
        → Returns (λ _ c'. Kept (pos 0) c') (Staking.register_node t env p x c)
    unfolding Staking.register_node
    registered p x n found = ground (arith, found)

    -- An amount came in, or went out, and the sums moved by it.
    came_in :
        (p : ℕ) (x : ℤ) (c' : Chain Store W)
        → env.authorized p ≡ true
        → t.transfer k p me x c.tokens ≡ some c'.tokens
        → x
          ≡ (read_total_staked c'.store -ℤ read_total_staked s)
            +ℤ (read_reward_pool c'.store -ℤ read_reward_pool s)
        → Kept (pos 0) c'
    came_in p x c' signed paid e =
        let got =
          parts_of_eq (receives_one t laws k me p (foreign p signed) x c.tokens c'.tokens paid) in
        let sums = parts_of_eq e in together _ _ _ _ _ _ (pos 0) (omega int_laws)

    went_out :
        (p : ℕ) (x y : ℤ) (c' : Chain Store W)
        → env.authorized p ≡ true
        → t.transfer k me p x c.tokens ≡ some c'.tokens
        → x
          ≡ y
            +ℤ (read_total_staked s -ℤ read_total_staked c'.store)
            +ℤ (read_reward_pool s -ℤ read_reward_pool c'.store)
        → Kept y c'
    went_out p x y c' signed paid e =
        let gave =
          parts_of_eq (pays_one t laws k me p (foreign p signed) x c.tokens c'.tokens paid) in
        let sums = parts_of_eq e in together _ _ _ _ _ _ y (omega int_laws)

    register_node-Kept :
        (p : ℕ) (x : ℤ) → Returns (λ _ c'. Kept (pos 0) c') (Staking.register_node t env p x c)
    register_node-Kept p x = elim (Option-cases (lookup p s.nodes)) [
      | inr (n, found) ↦ registered p x n found
      | inl new ↦
          weaken _ _ (Staking.register_node t env p x c)
            (register_node-Posted t env c k has p x new)
            (λ _ c' d. came_in p x c' d.0 d.2 (rw (d.3.1.0, d.3.1.1) (omega int_laws)))
    ]

    -- Without a node nothing happens.
    no_node :
        (p a : ℕ) (x y : ℤ)
        → lookup p s.nodes ≡ none
        → Returns (λ _ c'. Kept y c') (Staking.add_stake t env p x c)
          × Returns (λ _ c'. Kept y c') (Staking.unstake t env p x c)
          × Returns (λ _ c'. Kept y c') (Staking.claim_rewards t env p c)
          × Returns (λ _ c'. Kept y c') (Staking.slash t env a p x c)
    unfolding Staking.add_stake Staking.unstake Staking.claim_rewards Staking.slash get_node
        admin_only
    no_node p a x y absent = (
      ground (arith, absent),
      ground (arith, absent),
      ground (arith, absent),
      ground (arith, absent),
    )

    add_stake-Kept :
        (p : ℕ) (x : ℤ) → Returns (λ _ c'. Kept (pos 0) c') (Staking.add_stake t env p x c)
    add_stake-Kept p x = elim (Option-cases (lookup p s.nodes)) [
      | inl absent ↦ (no_node p 0 x (pos 0) absent).0
      | inr (n, found) ↦
          weaken _ _ (Staking.add_stake t env p x c) (add_stake-Posted t env c k has p n found x)
            (λ _ c' d. came_in p x c' d.0 d.2 (rw (d.3.1.0, d.3.1.1) (omega int_laws)))
    ]

    unstake-Kept :
        (p : ℕ) (x : ℤ)
        → Returns (λ _ c'. Kept (unbooked s (Request.unstake p x)) c') (Staking.unstake t env p x c)
    unstake-Kept p x = elim (Option-cases (lookup p s.nodes)) [
      | inl absent ↦ (no_node p 0 x (unbooked s (Request.unstake p x)) absent).1
      | inr (n, found) ↦
          weaken _ _ (Staking.unstake t env p x c) (unstake-Posted t env c k has p n found x)
            (λ y c' d.
              went_out p y (unbooked s (Request.unstake p x)) c' d.1 d.4
                (rw (d.5.1.0, d.5.1.1, found, d.0) (omega int_laws)))
    ]

    slash-Kept : (a p : ℕ) (x : ℤ) → Returns (λ _ c'. Kept (pos 0) c') (Staking.slash t env a p x c)
    slash-Kept a p x = elim (Option-cases (lookup p s.nodes)) [
      | inl absent ↦ (no_node p a x (pos 0) absent).3
      | inr (n, found) ↦
          weaken _ _ (Staking.slash t env a p x c) (slash-Posted t env c k has p n found a x)
            (λ _ c' d. went_out a _ (pos 0) c' d.0 d.1 (rw (d.2.1.0, d.2.1.1) (omega int_laws)))
    ]

    nothing_paid :
        (p : ℕ) (n : NodeInfo) → Returns (λ _ c'. Kept (pos 0) c') (pay_rewards t env p n false c)
    unfolding pay_rewards
    nothing_paid p n = omega int_laws

    pay_rewards-Kept :
        (p : ℕ) (n : NodeInfo) (b : Bool)
        → env.authorized p ≡ true
        → lookup p s.nodes ≡ some n
        → Returns (λ _ c'. Kept (pos 0) c') (pay_rewards t env p n b c)
    pay_rewards-Kept p n false signed found = nothing_paid p n
    pay_rewards-Kept p n true signed found =
        weaken _ _ (pay_rewards t env p n true c) (pay_rewards-Posted t env c k has p n found)
          (λ _ c' d. went_out p _ (pos 0) c' signed d.1 (rw (d.2.1.0, d.2.1.1) (omega int_laws)))

    claim_rewards-Kept :
        (p : ℕ) → Returns (λ _ c'. Kept (pos 0) c') (Staking.claim_rewards t env p c)
    unfolding Staking.claim_rewards get_node
    claim_rewards-Kept p = elim (Option-cases (lookup p s.nodes)) [
      | inl absent ↦ (no_node p 0 (pos 0) (pos 0) absent).2
      | inr (n, found) ↦ elim (Bool-cases (env.authorized p)) [
        | inl signed ↦
            ground
              (arith, found, pay_rewards-Kept p n (ltb_ℤ (pos 0) n.rewards_accrued) signed found)
        | inr no_sign ↦ ground (arith, no_sign)
      ]
    ]

    distribute_rewards-Kept :
        (a : ℕ) (x : ℤ) → Returns (λ _ c'. Kept (pos 0) c') (Staking.distribute_rewards t env a x c)
    distribute_rewards-Kept a x =
        weaken _ _ (Staking.distribute_rewards t env a x c)
          (distribute_rewards-Sums t env c k has a x)
          (λ _ c' d. came_in a x c' d.0 d.1 (rw (d.3.0, d.3.1) (omega int_laws)))

    initialize-Kept :
        (a k' : ℕ) (m : ℤ) (r : ℕ)
        → Returns (λ _ c'. Kept (pos 0) c') (Staking.initialize env a k' m r c)
    unfolding Staking.initialize
    initialize-Kept a k' m r = ground (arith, known)

    -- Behind tokens that keep SEP-41's books, and as long as nobody can sign for the contract itself:
    -- on an initialized contract with the token `k`, a request that returns leaves what the contract
    -- holds of the token beyond its stakes and its reward pool as it was, except that `unstake`
    -- takes the rewards of the node out of it.
    pub execute-Kept :
        (r : Request)
        → Returns
            (λ _ c'. surplus t k me c' +ℤ unbooked c.store r ≡ surplus t k me c)
            (execute t env r c)
    unfolding execute
    execute-Kept (Request.initialize a k' m r) = initialize-Kept a k' m r
    execute-Kept (Request.register_node p x) = register_node-Kept p x
    execute-Kept (Request.add_stake p x) = add_stake-Kept p x
    execute-Kept (Request.unstake p x) = ground (arith, unstake-Kept p x)
    execute-Kept (Request.claim_rewards p) = ground (arith, claim_rewards-Kept p)
    execute-Kept (Request.distribute_rewards a x) = distribute_rewards-Kept a x
    execute-Kept (Request.slash a p x) = slash-Kept a p x
