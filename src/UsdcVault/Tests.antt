-- ===== src/UsdcVault/Tests.antt =====
-- Runs of contracts/usdc-vault/src/lib.rs, and the theorems at inputs that meet their hypotheses.
use suban.Base.{◌≡◌, refl, arith, true, false, some, List, [], ◌∷◌, ◌==◌, if◌then◌else◌}
use suban.Int.{pos, ◌+ℤ◌, ◌-ℤ◌}
use suban.Dict.{lookup, insert, nat_eq}
use suban.Host.{Env, err, Returns, history, fits_i128}
use suban.Tokens.{Chain, Balances, ledger, ledger-IsLedger}
use suban.UsdcVault.Vault.{
  Store, below_reserve_minimum, initialize, admin_only, is_paused, read_total_deposited,
  read_total_released, read_user_deposit, read_reserve_balance, set_reserve_minimum, deposit,
  pay_reserved, release, admin_withdraw, vault_balance, available_balance,
}
use suban.UsdcVault.Accounts.{Request, execute, deployed, IsBalanced, history-IsBalanced}
use suban.UsdcVault.Reserve.{IsReserved, execute-IsReserved}

-- The vault is 100, and only it has not signed.
abbrev env : Env
env = record {
  sequence = 10;
  timestamp = 50;
  current_contract_address = 100;
  authorized = λ a. if a == 100 then false else true;
}

abbrev purse : Balances
purse k a = if a == 2 then pos 1000 else pos 0

abbrev calls : List (Env × Request)
calls =
    (env, Request.initialize 1 20)
    ∷ (env, Request.deposit 2 (pos 700))
    ∷ (env, Request.set_reserve_minimum 1 (pos 100))
    ∷ (env, Request.release 1 3 (pos 500))
    ∷ (env, Request.admin_withdraw 1 4 (pos 101))
    ∷ []

abbrev vault : Store
vault = record {
  admin = some 1;
  paused_flag = some false;
  usdc_token = some 20;
  total_deposited = some (pos 700);
  total_released = some (pos 500);
  deposits = (2, pos 700) ∷ [];
  reserve_balance = some (pos 100);
}

-- The withdrawal of 101 is refused.
after_calls :
    (history (execute ledger) (record { store = deployed; tokens = purse }) calls).store ≡ vault
unfolding history execute initialize set_reserve_minimum deposit pay_reserved release admin_withdraw
    admin_only is_paused read_total_deposited read_total_released read_user_deposit
    read_reserve_balance lookup insert fits_i128 ◌+ℤ◌ ◌-ℤ◌
after_calls = refl

abbrev now : Chain Store Balances
now = record { store = vault; tokens = λ k a. if a == 100 then pos 200 else pos 0 }

below : admin_withdraw ledger env 1 4 (pos 101) now ≡ err below_reserve_minimum
unfolding admin_withdraw pay_reserved admin_only read_reserve_balance fits_i128 ◌-ℤ◌
below = refl

available : available_balance ledger env now ≡ pos 100
unfolding available_balance vault_balance read_reserve_balance ◌-ℤ◌
available = refl

now-IsReserved : IsReserved ledger 100 20 now
unfolding read_reserve_balance
now-IsReserved = record { has_admin = refl; has_token = refl; reserved = omega arith }

history-IsBalanced_example :
    IsBalanced (history (execute ledger) (record { store = deployed; tokens = purse }) calls).store
history-IsBalanced_example = history-IsBalanced ledger purse calls

execute-IsReserved_example :
    Returns
      (λ _ c'. IsReserved ledger 100 20 c')
      (execute ledger env (Request.admin_withdraw 1 4 (pos 100)) now)
execute-IsReserved_example =
    execute-IsReserved ledger ledger-IsLedger env 20 refl now now-IsReserved
      (Request.admin_withdraw 1 4 (pos 100)) refl
