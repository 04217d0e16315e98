-- ===== src/StrategyVault/Vault.antt =====
-- contracts/strategy-vault/src/lib.rs: the vault and its shares.
use suban.Base.{ℕ, Bool, true, false, not, ◌||◌, Option, some, is_some, unwrap_or, ◌==◌}
use suban.Int.{ℤ, pos, leb_ℤ, ltb_ℤ, ◌==ℤ◌}
use suban.Dict.{Dict, lookup, insert, nat_eq}
use suban.Host.{
  Env, Call, ◌>>=◌, ◌>>◌, pure, unwrap, fail_if, panic_if, require_auth, add_i128, sub_i128,
  mul_i128, div_i128,
}
use suban.Tokens.{Tokens, Chain, token_transfer, reads, writes}

pub data VaultError : Type 0 where
  not_admin paused zero_amount deposit_cap_exceeded : VaultError
  insufficient_shares strategy_already_set vault_not_empty invalid_cap : VaultError

-- The instance storage, a field for each `DataKey`.
pub record Store : Type 0 where
  pub admin : Option ℕ
  pub asset : Option ℕ
  pub strategy : Option ℕ
  pub deposit_cap : Option ℤ
  pub total_assets : Option ℤ
  pub total_shares : Option ℤ
  pub paused_flag : Option Bool
  pub shares : Dict ℕ ℤ

pub record VaultState : Type 0 where
  pub asset : ℕ
  pub strategy : Option ℕ
  pub deposit_cap : ℤ
  pub total_assets : ℤ
  pub total_shares : ℤ
  pub paused : Bool

abbrev pub Action : Type 0 → Type 0 → Type 0
Action W A = Call (Chain Store W) VaultError A

unfoldable pub read_cap : Store → ℤ
read_cap s = unwrap_or s.deposit_cap (pos 0)

unfoldable pub read_total_assets : Store → ℤ
read_total_assets s = unwrap_or s.total_assets (pos 0)

unfoldable pub read_total_shares : Store → ℤ
read_total_shares s = unwrap_or s.total_shares (pos 0)

unfoldable pub read_paused : Store → Bool
read_paused s = unwrap_or s.paused_flag false

unfoldable pub read_shares : Store → ℕ → ℤ
read_shares s user = unwrap_or (lookup user s.shares) (pos 0)

unfoldable pub write_shares : ℕ → ℤ → Store → Store
write_shares user n s = record s { shares = insert user n s.shares }

module _ {W : Type 0} where
  unfoldable pub require_not_paused : Action W (Unit {0})
  unfolding read_paused
  require_not_paused = do stopped ← reads read_paused; fail_if stopped paused

  unfoldable pub read_admin : Action W ℕ
  read_admin = do found ← reads (λ s. s.admin); unwrap found

  unfoldable pub read_asset : Action W ℕ
  read_asset = do found ← reads (λ s. s.asset); unwrap found

  -- `admin != read_admin(&env)`, then `require_auth`
  unfoldable pub admin_only : Env → ℕ → Action W (Unit {0})
  unfolding read_admin
  admin_only env admin = do
    stored ← read_admin
    fail_if (not (admin == stored)) not_admin
    require_auth env admin

  unfoldable pub initialize : Env → (admin asset : ℕ) → (deposit_cap : ℤ) → Action W (Unit {0})
  initialize env admin asset deposit_cap = do
    initialized ← reads (λ s. is_some s.admin)
    panic_if initialized
    require_auth env admin
    panic_if (leb_ℤ deposit_cap (pos 0))
    writes (λ s. record s {
      admin = some admin;
      asset = some asset;
      deposit_cap = some deposit_cap;
      total_assets = some (pos 0);
      total_shares = some (pos 0);
      paused_flag = some false;
    })

  unfoldable pub set_strategy : Env → (admin strategy : ℕ) → Action W (Unit {0})
  unfolding admin_only require_not_paused read_total_assets
  set_strategy env admin strategy = do
    admin_only env admin
    require_not_paused
    total ← reads read_total_assets
    fail_if (not (total ==ℤ pos 0)) vault_not_empty
    known ← reads (λ s. is_some s.strategy)
    fail_if known strategy_already_set
    writes (λ s. record s { strategy = some strategy })

  unfoldable pub set_deposit_cap : Env → (admin : ℕ) → (deposit_cap : ℤ) → Action W (Unit {0})
  unfolding admin_only read_total_assets
  set_deposit_cap env admin deposit_cap = do
    admin_only env admin
    total ← reads read_total_assets
    fail_if (leb_ℤ deposit_cap (pos 0) || ltb_ℤ deposit_cap total) invalid_cap
    writes (λ s. record s { deposit_cap = some deposit_cap })

  unfoldable pub set_paused : Env → (admin : ℕ) → Bool → Action W (Unit {0})
  unfolding admin_only
  set_paused env admin value = do
    admin_only env admin
    writes (λ s. record s { paused_flag = some value })

  -- The shares of a deposit: one for one in an empty vault, and else in proportion.
  unfoldable pub shares_for : (amount total_assets total_shares : ℤ) → (first : Bool) → Action W ℤ
  shares_for amount total_assets total_shares true = pure amount
  shares_for amount total_assets total_shares false = do
    product ← mul_i128 amount total_shares
    div_i128 product total_assets

  unfoldable pub get_state : Action W VaultState
  unfolding read_asset
  get_state = do
    asset ← read_asset
    reads (λ s. record {
      asset = asset;
      strategy = s.strategy;
      deposit_cap = read_cap s;
      total_assets = read_total_assets s;
      total_shares = read_total_shares s;
      paused = read_paused s;
    })

module _ {W : Type 0} (t : Tokens W) where
  unfoldable pub deposit : Env → (user : ℕ) → (amount : ℤ) → Action W ℤ
  unfolding require_not_paused read_total_assets read_total_shares read_cap shares_for read_asset
      read_shares write_shares
  deposit env user amount = do
    require_not_paused
    require_auth env user
    fail_if (leb_ℤ amount (pos 0)) zero_amount
    total_assets ← reads read_total_assets
    total_shares ← reads read_total_shares
    new_assets ← add_i128 total_assets amount
    cap ← reads read_cap
    fail_if (ltb_ℤ cap new_assets) deposit_cap_exceeded
    shares ← shares_for amount total_assets total_shares (total_shares ==ℤ pos 0)
    fail_if (leb_ℤ shares (pos 0)) zero_amount
    asset ← read_asset
    token_transfer t asset user env.current_contract_address amount
    user_shares ← reads (λ s. read_shares s user)
    new_user ← add_i128 user_shares shares
    writes (write_shares user new_user)
    writes (λ s. record s { total_assets = some new_assets })
    new_shares ← add_i128 total_shares shares
    writes (λ s. record s { total_shares = some new_shares })
    pure shares

  unfoldable pub withdraw : Env → (user : ℕ) → (shares : ℤ) → Action W ℤ
  unfolding read_total_assets read_total_shares read_asset read_shares write_shares
  withdraw env user shares = do
    require_auth env user
    fail_if (leb_ℤ shares (pos 0)) zero_amount
    user_shares ← reads (λ s. read_shares s user)
    fail_if (ltb_ℤ user_shares shares) insufficient_shares
    total_assets ← reads read_total_assets
    total_shares ← reads read_total_shares
    product ← mul_i128 shares total_assets
    assets ← div_i128 product total_shares
    fail_if (leb_ℤ assets (pos 0)) zero_amount
    new_user ← sub_i128 user_shares shares
    writes (write_shares user new_user)
    new_assets ← sub_i128 total_assets assets
    writes (λ s. record s { total_assets = some new_assets })
    new_shares ← sub_i128 total_shares shares
    writes (λ s. record s { total_shares = some new_shares })
    asset ← read_asset
    token_transfer t asset env.current_contract_address user assets
    pure assets
