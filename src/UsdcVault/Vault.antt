-- ===== src/UsdcVault/Vault.antt =====
-- The storage and the operations of contracts/usdc-vault/src/lib.rs.
use suban.Base.{ℕ, Bool, false, not, Option, none, some, is_some, unwrap_or, ◌==◌, if◌then◌else◌}
use suban.Int.{ℤ, pos, leb_ℤ, ltb_ℤ, ◌-ℤ◌}
use suban.Dict.{Dict, lookup, insert, nat_eq}
use suban.Host.{
  Env, Call, ◌>>=◌, ◌>>◌, gets, unwrap, ok_or, fail_if, panic_if, require_auth, add_i128, sub_i128,
}
use suban.Tokens.{Tokens, Chain, token_transfer, reads, writes}

pub data VaultError : Type 0 where
  not_admin paused insufficient_balance insufficient_vault_balance : VaultError
  below_reserve_minimum invalid_amount usdc_token_not_set already_initialized : VaultError

-- The instance storage, a field for each `DataKey`.
pub record Store : Type 0 where
  pub admin : Option ℕ
  pub paused_flag : Option Bool
  pub usdc_token : Option ℕ
  pub total_deposited : Option ℤ
  pub total_released : Option ℤ
  pub deposits : Dict ℕ ℤ
  pub reserve_balance : Option ℤ

abbrev pub Action : Type 0 → Type 0 → Type 0
Action W A = Call (Chain Store W) VaultError A

unfoldable pub is_paused : Store → Bool
is_paused s = unwrap_or s.paused_flag false

unfoldable pub read_total_deposited : Store → ℤ
read_total_deposited s = unwrap_or s.total_deposited (pos 0)

unfoldable pub read_total_released : Store → ℤ
read_total_released s = unwrap_or s.total_released (pos 0)

unfoldable pub read_user_deposit : Store → ℕ → ℤ
read_user_deposit s user = unwrap_or (lookup user s.deposits) (pos 0)

unfoldable pub read_reserve_balance : Store → ℤ
read_reserve_balance s = unwrap_or s.reserve_balance (pos 0)

module _ {W : Type 0} where
  unfoldable pub initialize : Env → (admin usdc_token : ℕ) → Action W (Unit {0})
  initialize env admin usdc_token = do
    initialized ← reads (λ s. is_some s.admin)
    panic_if initialized
    require_auth env admin
    writes (λ s. record s {
      admin = some admin;
      usdc_token = some usdc_token;
      paused_flag = some false;
      total_deposited = some (pos 0);
      total_released = some (pos 0);
      reserve_balance = some (pos 0);
    })

  -- `admin != current_admin`, then `require_auth`
  unfoldable pub admin_only : Env → ℕ → Action W (Unit {0})
  admin_only env admin = do
    current_admin ← unwrap (← reads (λ s. s.admin))
    fail_if (not (admin == current_admin)) not_admin
    require_auth env admin

  unfoldable pub set_reserve_minimum :
      Env → (admin : ℕ) → (reserve_minimum : ℤ) → Action W (Unit {0})
  unfolding admin_only
  set_reserve_minimum env admin reserve_minimum = do
    admin_only env admin
    writes (λ s. record s { reserve_balance = some reserve_minimum })

  unfoldable pub set_paused : Env → (admin : ℕ) → Bool → Action W (Unit {0})
  unfolding admin_only
  set_paused env admin value = do
    admin_only env admin
    writes (λ s. record s { paused_flag = some value })

  unfoldable pub set_admin : Env → (admin new_admin : ℕ) → Action W (Unit {0})
  unfolding admin_only
  set_admin env admin new_admin = do
    admin_only env admin
    writes (λ s. record s { admin = some new_admin })

module _ {W : Type 0} (t : Tokens W) where
  unfoldable pub deposit : Env → (depositor : ℕ) → ℤ → Action W (Unit {0})
  unfolding is_paused read_total_deposited read_user_deposit
  deposit env depositor amount = do
    stopped ← reads is_paused
    fail_if stopped paused
    fail_if (leb_ℤ amount (pos 0)) invalid_amount
    require_auth env depositor
    found ← reads (λ s. s.usdc_token)
    usdc ← ok_or found usdc_token_not_set
    token_transfer t usdc depositor env.current_contract_address amount
    current_total ← reads read_total_deposited
    new_total ← add_i128 current_total amount
    writes (λ s. record s { total_deposited = some new_total })
    user_total ← reads (λ s. read_user_deposit s depositor)
    new_user ← add_i128 user_total amount
    writes (λ s. record s { deposits = insert depositor new_user s.deposits })

  -- The payment of `release` and `admin_withdraw`: the vault must have the amount, and keep the
  -- reserve minimum.
  unfoldable pub pay_reserved : Env → (to : ℕ) → ℤ → Action W (Unit {0})
  unfolding read_reserve_balance
  pay_reserved env to amount = do
    found ← reads (λ s. s.usdc_token)
    usdc ← ok_or found usdc_token_not_set
    vault_balance ← gets (λ c. t.balance usdc env.current_contract_address c.tokens)
    fail_if (ltb_ℤ vault_balance amount) insufficient_vault_balance
    reserve_min ← reads read_reserve_balance
    left ← sub_i128 vault_balance amount
    fail_if (ltb_ℤ left reserve_min) below_reserve_minimum
    token_transfer t usdc env.current_contract_address to amount

  unfoldable pub release : Env → (admin recipient : ℕ) → ℤ → Action W (Unit {0})
  unfolding admin_only is_paused read_total_released
  release env admin recipient amount = do
    admin_only env admin
    stopped ← reads is_paused
    fail_if stopped paused
    fail_if (leb_ℤ amount (pos 0)) invalid_amount
    pay_reserved env recipient amount
    current_released ← reads read_total_released
    new_released ← add_i128 current_released amount
    writes (λ s. record s { total_released = some new_released })

  unfoldable pub admin_withdraw : Env → (admin destination : ℕ) → ℤ → Action W (Unit {0})
  unfolding admin_only
  admin_withdraw env admin destination amount = do
    admin_only env admin
    fail_if (leb_ℤ amount (pos 0)) invalid_amount
    pay_reserved env destination amount

  unfoldable pub vault_balance : Env → Chain Store W → ℤ
  vault_balance env c = elim c.store.usdc_token [
    | none ↦ pos 0
    | some usdc ↦ t.balance usdc env.current_contract_address c.tokens
  ]

  unfoldable pub available_balance : Env → Chain Store W → ℤ
  available_balance env c =
      let balance = vault_balance env c in
      let reserve = read_reserve_balance c.store in
      if ltb_ℤ balance reserve then pos 0 else balance -ℤ reserve
