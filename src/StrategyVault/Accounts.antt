-- ===== src/StrategyVault/Accounts.antt =====
-- The requests that contracts/strategy-vault/src/lib.rs takes, and its shares under any history of them.
use suban.Base.{
  ℕ, ◌≡◌, ◌⊎◌, inl, inr, arith, refl, ◌∙◌, Bool, true, false, Option-cases, none, some, [], is_some,
}
use suban.Int.{ℤ, pos, ◌+ℤ◌, ◌-ℤ◌, ◌*ℤ◌, ◌/ℤ◌, ◌==ℤ◌, ◌≤ℤ◌, ◌<ℤ◌, parts_of_eq}
use suban.Int.Order.{mul_div}
use suban.Dict.{
  lookup, insert, nat_eq, sum_by, value_of, value_of-le-sum_by, AllValues, lookup-AllValues,
}
use suban.Host.{Env, ◌>>◌, pure, Returns, weaken}
use suban.Tokens.{Tokens, Chain}
use suban.StrategyVault.Vault
use suban.StrategyVault.Vault.{
  Store, Action, admin_only, read_admin, read_asset, read_cap, read_total_assets, read_total_shares,
  read_paused, read_shares, write_shares, require_not_paused, shares_for,
}

pub data Request : Type 0 where
  initialize : (admin asset : ℕ) → (deposit_cap : ℤ) → Request
  set_strategy : (admin strategy : ℕ) → Request
  set_deposit_cap : (admin : ℕ) → (deposit_cap : ℤ) → Request
  set_paused : (admin : ℕ) → (paused : Bool) → Request
  deposit : (user : ℕ) → (amount : ℤ) → Request
  withdraw : (user : ℕ) → (shares : ℤ) → Request

-- The storage before the first call.
abbrev pub deployed : Store
deployed = record {
  admin = none;
  asset = none;
  strategy = none;
  deposit_cap = none;
  total_assets = none;
  total_shares = none;
  paused_flag = none;
  shares = [];
}

abbrev pub same : ℤ → ℤ
same x = x

-- Every share is one unit of the asset: no user's shares are below zero, they add up to the total
-- of the shares, which is the total of the assets, and that is within the cap. Nobody has shares
-- before there is an asset.
pub record IsAtPar (s : Store) : Type 0 where
  pub shares_nonneg : AllValues (λ x. pos 0 ≤ℤ x) s.shares
  pub summed : sum_by same s.shares ≡ read_total_shares s
  pub at_par : read_total_assets s ≡ read_total_shares s
  pub capped : read_total_assets s ≤ℤ read_cap s
  pub started : (is_some s.admin ≡ true) ⊎ ((s.asset ≡ none) × (s.shares ≡ []))

pub share_value : (s : Store) (u : ℕ) → value_of same (lookup u s.shares) ≡ read_shares s u
unfolding read_shares
share_value s u = elim (Option-cases (lookup u s.shares)) [
  | inl e ↦ rw e refl
  | inr (x, e) ↦ rw e refl
]

pub share_nonneg : (s : Store) (u : ℕ) → IsAtPar s → pos 0 ≤ℤ read_shares s u
unfolding read_shares
share_nonneg s u v = elim (Option-cases (lookup u s.shares)) [
  | inl e ↦ rw e (omega arith)
  | inr (x, e) ↦ rw e (lookup-AllValues (λ x. pos 0 ≤ℤ x) u s.shares v.shares_nonneg e)
]

-- No user has more than there is.
pub share_bounds :
    (s : Store) (u : ℕ)
    → IsAtPar s
    → (read_shares s u ≤ℤ read_total_shares s) × (pos 0 ≤ℤ read_total_shares s)
share_bounds s u v =
    let b = value_of-le-sum_by same u s.shares v.shares_nonneg in
    let own = parts_of_eq (share_value s u) in
    let total = parts_of_eq v.summed in (omega (arith, b, own, total), omega (arith, b, total))

-- The storage after a deposit or a withdrawal.
abbrev pub moved : Store → ℕ → (own assets shares : ℤ) → Store
moved s u own assets shares = record s {
  shares = insert u own s.shares;
  total_assets = some assets;
  total_shares = some shares;
}

module _ {W : Type 0} (t : Tokens W) where
  unfoldable pub execute : Env → Request → Action W (Unit {0})
  execute env (initialize admin asset cap) = Vault.initialize env admin asset cap
  execute env (set_strategy admin strategy) = Vault.set_strategy env admin strategy
  execute env (set_deposit_cap admin cap) = Vault.set_deposit_cap env admin cap
  execute env (set_paused admin value) = Vault.set_paused env admin value
  execute env (deposit user amount) = Vault.deposit t env user amount >> pure tt
  execute env (withdraw user shares) = Vault.withdraw t env user shares >> pure tt

  module _ (c : Chain Store W) (v : IsAtPar c.store) where
    abbrev s : Store
    s = c.store

    -- At par a deposit of `x` is worth `x` shares.
    shares_for_par :
        (x : ℤ) (first : Bool)
        → (read_total_shares s ==ℤ pos 0) ≡ first
        → Returns
            (λ n c'. (c' ≡ c) × (pos 0 <ℤ x → n ≡ x))
            (shares_for x (read_total_assets s) (read_total_shares s) first c)
    unfolding shares_for
    shares_for_par x true e = (refl, λ _. refl)
    shares_for_par x false e =
        let total = (share_bounds s 0 v).1 in
        let some_shares : pos 0 <ℤ read_total_shares s = ground arith in
        weaken (λ n c'. (c' ≡ c) × (n ≡ x *ℤ read_total_shares s /ℤ read_total_assets s)) _
          (shares_for x (read_total_assets s) (read_total_shares s) false c) (ground arith)
          (λ n c' d. (
            d.0,
            λ p. d.1 ∙ rw v.at_par (mul_div x (read_total_shares s) (omega (arith, p)) some_shares),
          ))

    pub deposit-moved :
        (env : Env) (u : ℕ) (x : ℤ)
        → Returns
            (λ n c'.
              (pos 0 <ℤ x)
              × (n ≡ x)
              × (is_some s.asset ≡ true)
              × (read_total_assets s +ℤ x ≤ℤ read_cap s)
              × (c'.store
                  ≡ moved s u
                      (read_shares s u +ℤ x)
                      (read_total_assets s +ℤ x)
                      (read_total_shares s +ℤ x)))
            (Vault.deposit t env u x c)
    unfolding Vault.deposit require_not_paused read_asset write_shares
    deposit-moved env u x = ground (arith, shares_for_par x (read_total_shares s ==ℤ pos 0) refl)

    pub withdraw-moved :
        (env : Env) (u : ℕ) (n : ℤ)
        → Returns
            (λ x c'.
              (pos 0 <ℤ n)
              × (n ≤ℤ read_shares s u)
              × (x ≡ n *ℤ read_total_assets s /ℤ read_total_shares s)
              × (is_some s.asset ≡ true)
              × (c'.store
                  ≡ moved s u
                      (read_shares s u -ℤ n)
                      (read_total_assets s -ℤ x)
                      (read_total_shares s -ℤ n)))
            (Vault.withdraw t env u n c)
    unfolding Vault.withdraw read_asset write_shares
    withdraw-moved env u n = ground arith

    pub whole_share :
        (u : ℕ) (n : ℤ)
        → pos 0 <ℤ n
        → n ≤ℤ read_shares s u
        → n *ℤ read_total_assets s /ℤ read_total_shares s ≡ n
    whole_share u n p q =
        let b = share_bounds s u v in
        rw v.at_par (mul_div n (read_total_shares s) (omega (arith, p)) (omega (arith, p, q, b)))
