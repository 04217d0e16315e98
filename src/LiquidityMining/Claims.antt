-- ===== src/LiquidityMining/Claims.antt =====
-- What a claim of contracts/liquidity-mining/src/lib.rs pays.
use suban.Base.{
  ℕ, zero, suc, ◌-◌, ◌≡◌, arith, refl, sym, ap, ◌∙◌, Bool, true, false, some, ◌⊎◌, inl, inr,
  Bool-cases, ltb, ◌&&◌,
}
use suban.Int.{ℤ, pos, negsuc, ◌-ℤ◌, ◌*ℤ◌, ◌/ℤ◌, ltb_ℤ, ◌==ℤ◌, ◌≤ℤ◌, ◌<ℤ◌, int_laws, parts_of_eq}
use suban.Dict.{lookup-insert_self, nat_eq}
use suban.Host.{Env, Returns, weaken, ok, err, both, fits_i128, fits_i128_lem}
use suban.Tokens.{Tokens, Chain}
use suban.LiquidityMining.Farm
use suban.LiquidityMining.Farm.{
  FarmInfo, StakeInfo, Store, no_rewards, read_stake, write_stake, write_farm, read_farm, share_of,
  accrue, accrue_rewards, earned, pending_of, simulated, pending_at, pending_rewards,
}
use suban.LiquidityMining.Effects.{
  after_ledgers, accrued, earnings, with_farm, accrue-with_farm, claim-posted, posted, entry,
}

zero_earned : (x acc : ℤ) → (x ==ℤ pos 0) ≡ true → earnings x acc ≡ pos 0
unfolding ◌*ℤ◌ ◌/ℤ◌
zero_earned (pos zero) (pos n) h = ground arith
zero_earned (pos zero) (negsuc n) h = ground arith
zero_earned (pos (suc m)) acc h = ground arith
zero_earned (negsuc m) acc h = ground arith

module _ {W : Type 0} (t : Tokens W) (env : Env) (c : Chain Store W) (f : FarmInfo)
    (has : c.store.farm ≡ some f) (total : pos 0 ≤ℤ f.total_staked) where
  abbrev s : Store
  s = c.store

  abbrev passed : ℕ
  passed = env.sequence - f.last_ledger

  -- The query simulates what the accrual writes.
  accrue-simulated :
      (b : Bool) (n : ℕ)
      → (f.total_staked ==ℤ pos 0) ≡ b
      → Returns
          (λ _ c'.
            (simulated f n (ltb 0 n && ltb_ℤ (pos 0) f.total_staked) c
              ≡ ok ((after_ledgers env f b n).accumulated_rewards_per_share, c)))
          (accrue env f b n c)
  unfolding accrue simulated
  accrue-simulated true n e = ground (arith, total)
  accrue-simulated false zero e = ground arith
  accrue-simulated false (suc n) e = ground (arith, total)

  accrue_rewards-simulated :
      Returns
        (λ _ c'.
          (c' ≡ with_farm c (accrued env f))
          × (simulated f passed (ltb 0 passed && ltb_ℤ (pos 0) f.total_staked) c
              ≡ ok ((accrued env f).accumulated_rewards_per_share, c)))
        (accrue_rewards env c)
  unfolding accrue_rewards read_farm accrued
  accrue_rewards-simulated = ground (
    arith,
    has,
    both _ _ (accrue env f (f.total_staked ==ℤ pos 0) passed c)
        (accrue-with_farm t env c f has (f.total_staked ==ℤ pos 0) passed)
        (accrue-simulated (f.total_staked ==ℤ pos 0) passed refl),
  )

  -- Right after an accrual nothing more accrues.
  just_accrued :
      (b : Bool) (n : ℕ)
      → n ≡ env.sequence - f.last_ledger
      → (b ≡ true) ⊎ (env.sequence - (after_ledgers env f b n).last_ledger ≡ 0)
  just_accrued true n e = inl refl
  just_accrued false zero e = inr (sym e)
  just_accrued false (suc n) e = inr (omega arith)

  accrue_idle :
      (g : FarmInfo) (b : Bool) (n : ℕ) (c' : Chain Store W)
      → (b ≡ true) ⊎ (n ≡ 0)
      → accrue env g b n c' ≡ ok (tt, c')
  unfolding accrue
  accrue_idle g true n c' h = refl
  accrue_idle g false zero c' h = refl
  accrue_idle g false (suc n) c' (inl h) = cc
  accrue_idle g false (suc n) c' (inr h) = absurd (omega (arith, h))

  accrue_rewards_idle :
      (g : FarmInfo) (c' : Chain Store W)
      → c'.store.farm ≡ some g
      → ((g.total_staked ==ℤ pos 0) ≡ true) ⊎ (env.sequence - g.last_ledger ≡ 0)
      → accrue_rewards env c' ≡ ok (tt, c')
  unfolding accrue_rewards read_farm
  accrue_rewards_idle g c' e h =
      ground
        (arith, e, accrue_idle g (g.total_staked ==ℤ pos 0) (env.sequence - g.last_ledger) c' h)

  -- What a claim that returns has computed.
  claim-computed :
      (u : ℕ)
      → Returns
          (λ y _.
            let n = read_stake s u in
            let acc = (accrued env f).accumulated_rewards_per_share in
            (env.authorized u ≡ true)
            × (pos 0 <ℤ y)
            × (y ≡ earnings n.amount acc -ℤ n.reward_debt)
            × (fits_i128 (n.amount *ℤ acc) ≡ true)
            × (fits_i128 (earnings n.amount acc) ≡ true)
            × (fits_i128 y ≡ true)
            × (simulated f passed (ltb 0 passed && ltb_ℤ (pos 0) f.total_staked) c ≡ ok (acc, c)))
          (Farm.claim t env u c)
  unfolding Farm.claim read_farm read_stake write_stake write_farm earned pending_of
  claim-computed u = ground (arith, accrue_rewards-simulated)

  query :
      (u : ℕ) (acc : ℤ)
      → simulated f passed (ltb 0 passed && ltb_ℤ (pos 0) f.total_staked) c ≡ ok (acc, c)
      → fits_i128 ((read_stake s u).amount *ℤ acc) ≡ true
      → fits_i128 (earnings (read_stake s u).amount acc) ≡ true
      → fits_i128 (earnings (read_stake s u).amount acc -ℤ (read_stake s u).reward_debt) ≡ true
      → ((read_stake s u).amount ==ℤ pos 0) ≡ false
      → pending_rewards env u c
        ≡ ok (earnings (read_stake s u).amount acc -ℤ (read_stake s u).reward_debt, c)
  unfolding pending_rewards read_farm pending_at pending_of earned
  query u acc sim fits fits' fits'' some_amount =
      ground (arith, has, sim, fits, fits', fits'', some_amount)

  some_amount :
      (u : ℕ) (y : ℤ)
      → pos 0 ≤ℤ (read_stake s u).reward_debt
      → pos 0 <ℤ y
      → y
        ≡ earnings (read_stake s u).amount (accrued env f).accumulated_rewards_per_share
          -ℤ (read_stake s u).reward_debt
      → ((read_stake s u).amount ==ℤ pos 0) ≡ false
  some_amount u y low positive e = elim (Bool-cases ((read_stake s u).amount ==ℤ pos 0)) [
    | inr other ↦ other
    | inl empty ↦
        let nothing = parts_of_eq (
          zero_earned (read_stake s u).amount (accrued env f).accumulated_rewards_per_share
            empty) in
        let paid = parts_of_eq e in absurd (omega (int_laws, nothing, paid, low, positive))
  ]

  claim-quoted :
      (u : ℕ)
      → pos 0 ≤ℤ (read_stake s u).reward_debt
      → Returns (λ y _. pending_rewards env u c ≡ ok (y, c)) (Farm.claim t env u c)
  claim-quoted u low =
      weaken _ _ (Farm.claim t env u c) (claim-computed u)
        (λ y _ d. rw d.2 (query u _ d.6 d.3 d.4 (rw (← d.2) d.5) (some_amount u y low d.1 d.2)))

  total_kept : (b : Bool) (n : ℕ) → (after_ledgers env f b n).total_staked ≡ f.total_staked
  total_kept true n = refl
  total_kept false zero = refl
  total_kept false (suc n) = refl

  token_kept : (b : Bool) (n : ℕ) → (after_ledgers env f b n).reward_token ≡ f.reward_token
  token_kept true n = refl
  token_kept false zero = refl
  token_kept false (suc n) = refl

  token_accrued : (accrued env f).reward_token ≡ f.reward_token
  unfolding accrued
  token_accrued = token_kept (f.total_staked ==ℤ pos 0) passed

  total_accrued : (accrued env f).total_staked ≡ f.total_staked
  unfolding accrued
  total_accrued = total_kept (f.total_staked ==ℤ pos 0) passed

  idle_after :
      (((accrued env f).total_staked ==ℤ pos 0) ≡ true)
      ⊎ (env.sequence - (accrued env f).last_ledger ≡ 0)
  unfolding accrued
  idle_after =
      rw (total_kept (f.total_staked ==ℤ pos 0) passed)
        (just_accrued (f.total_staked ==ℤ pos 0) passed refl)

  posted_stake :
      (u : ℕ) (c' : Chain Store W)
      → c'.store
        ≡ posted t env c f has u
            (entry t env c f has (read_stake s u).amount)
            (accrued env f).total_staked
      → read_stake c'.store u ≡ entry t env c f has (read_stake s u).amount
  unfolding read_stake
  posted_stake u c' e =
      rw (e, lookup-insert_self u (entry t env c f has (read_stake s u).amount) s.stakes) refl

  second_claim :
      (u : ℕ) (n : StakeInfo) (g : FarmInfo) (c' : Chain Store W)
      → env.authorized u ≡ true
      → c'.store.farm ≡ some g
      → ((g.total_staked ==ℤ pos 0) ≡ true) ⊎ (env.sequence - g.last_ledger ≡ 0)
      → read_stake c'.store u ≡ n
      → n.reward_debt ≡ earnings n.amount g.accumulated_rewards_per_share
      → fits_i128 (n.amount *ℤ g.accumulated_rewards_per_share) ≡ true
      → fits_i128 (earnings n.amount g.accumulated_rewards_per_share) ≡ true
      → Farm.claim t env u c' ≡ err no_rewards
  unfolding Farm.claim read_farm earned pending_of
  second_claim u n g c' signed e h stake debt fits fits' =
      let nothing : earnings n.amount g.accumulated_rewards_per_share -ℤ n.reward_debt ≡ pos 0 =
        rw debt (omega int_laws) in
      ground (
        arith,
        signed,
        accrue_rewards_idle g c' e h,
        e,
        stake,
        fits,
        fits',
        nothing,
        fits_i128_lem 0 (omega arith),
      )

  -- On a farm with no negative total, for a user with no negative debt: a claim that returns
  -- transfers to the user, out of the farm's own balance of the reward token, exactly what the query
  -- `pending_rewards` answers just before it, more than nothing, and makes no other transfer; the
  -- farm's rewards are accrued, the user's stake stays and its debt is what it has earned, and nothing
  -- else is written; and right after it another claim in the same ledger is refused, with
  -- `no_rewards`.
  pub claim-pending_rewards :
      (u : ℕ)
      → pos 0 ≤ℤ (read_stake s u).reward_debt
      → Returns
          (λ y c'.
            (pos 0 <ℤ y)
            × (pending_rewards env u c ≡ ok (y, c))
            × (t.transfer f.reward_token env.current_contract_address u y c.tokens ≡ some c'.tokens)
            × (c'.store
                ≡ posted t env c f has u
                    (entry t env c f has (read_stake s u).amount)
                    f.total_staked)
            × (Farm.claim t env u c' ≡ err no_rewards))
          (Farm.claim t env u c)
  claim-pending_rewards u low =
      weaken _ _ (Farm.claim t env u c)
        (both _ _ (Farm.claim t env u c) (claim-computed u)
          (both _ _ (Farm.claim t env u c) (claim-quoted u low) (claim-posted t env c f has u)))
        (λ y c' d.
          let g = accrued env f in
          let n = read_stake s u in
          (
            d.0.1,
            d.1.0,
            rw (← token_accrued) d.1.1.3,
            d.1.1.2
                ∙ ap (λ x. posted t env c f has u (entry t env c f has n.amount) x) total_accrued,
            second_claim u (entry t env c f has n.amount) g c' d.0.0 (ap (λ x. x.farm) d.1.1.2)
                idle_after (posted_stake u c' d.1.1.2) refl d.0.3 d.0.4,
          ))
