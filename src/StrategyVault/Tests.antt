-- ===== src/StrategyVault/Tests.antt =====
-- Runs of contracts/strategy-vault/src/lib.rs, and the theorems at inputs that meet their hypotheses.
use suban.Base.{◌≡◌, refl, arith, inl, true, false, some, List, [], ◌∷◌, ◌==◌, if◌then◌else◌}
use suban.Int.{pos, ◌+ℤ◌, ◌-ℤ◌, ◌*ℤ◌, ◌/ℤ◌, ◌≤ℤ◌}
use suban.Dict.{lookup, insert, nat_eq, sum_by}
use suban.Host.{Env, ok, err, history, fits_i128}
use suban.Tokens.{Chain, Balances, ledger, credit, debit}
use suban.StrategyVault.Vault.{
  Store, paused, initialize, set_strategy, set_paused, deposit, withdraw, get_state, admin_only,
  read_admin, read_asset, read_cap, read_total_assets, read_total_shares, read_paused, read_shares,
  write_shares, require_not_paused, shares_for,
}
use suban.StrategyVault.Accounts.{Request, deployed, execute, IsAtPar, moved}
use suban.StrategyVault.Par.{history-IsAtPar}
use suban.StrategyVault.Exit.{withdraw-pays}

-- The vault is 100, and only it has not signed.
abbrev env : Env
env = record {
  sequence = 10;
  timestamp = 50;
  current_contract_address = 100;
  authorized = λ a. if a == 100 then false else true;
}

abbrev purse : Balances
purse k a = if a == 100 then pos 0 else pos 1000

abbrev calls : List (Env × Request)
calls =
    (env, Request.initialize 1 20 (pos 800))
    ∷ (env, Request.set_strategy 1 30)
    ∷ (env, Request.deposit 2 (pos 500))
    ∷ (env, Request.deposit 3 (pos 300))
    ∷ (env, Request.deposit 3 (pos 1))
    ∷ (env, Request.withdraw 2 (pos 200))
    ∷ (env, Request.set_paused 1 true)
    ∷ []

abbrev vault : Store
vault = record {
  admin = some 1;
  asset = some 20;
  strategy = some 30;
  deposit_cap = some (pos 800);
  total_assets = some (pos 600);
  total_shares = some (pos 600);
  paused_flag = some true;
  shares = (2, pos 300) ∷ (3, pos 300) ∷ [];
}

-- The deposit above the cap is refused.
after_calls :
    (history (execute ledger) (record { store = deployed; tokens = purse }) calls).store ≡ vault
unfolding history execute initialize set_strategy set_paused deposit withdraw admin_only read_admin
    read_asset read_cap read_total_assets read_total_shares read_paused read_shares write_shares
    require_not_paused shares_for lookup insert fits_i128 ◌+ℤ◌ ◌-ℤ◌ ◌*ℤ◌ ◌/ℤ◌
after_calls = refl

abbrev now : Chain Store Balances
now = record { store = vault; tokens = λ k a. if a == 100 then pos 600 else pos 500 }

refused : deposit ledger env 2 (pos 1) now ≡ err paused
unfolding deposit require_not_paused read_paused
refused = refl

state_now :
    get_state now
    ≡ ok (
      (record {
        asset = 20;
        strategy = some 30;
        deposit_cap = pos 800;
        total_assets = pos 600;
        total_shares = pos 600;
        paused = true;
      }),
      now,
    )
unfolding get_state read_asset read_cap read_total_assets read_total_shares read_paused
state_now = refl

vault-IsAtPar : IsAtPar vault
unfolding sum_by read_total_shares read_total_assets read_cap ◌+ℤ◌
vault-IsAtPar = record {
  shares_nonneg = (omega arith, (omega arith, tt));
  summed = refl;
  at_par = refl;
  capped = omega arith;
  started = inl refl;
}

history-IsAtPar_example :
    IsAtPar (history (execute ledger) (record { store = deployed; tokens = purse }) calls).store
history-IsAtPar_example = history-IsAtPar ledger purse calls

enough : pos 100 ≤ℤ read_shares vault 3
unfolding read_shares lookup
enough = omega arith

small : fits_i128 (pos 100 *ℤ read_total_assets vault) ≡ true
unfolding fits_i128 read_total_assets ◌*ℤ◌
small = refl

withdraw-pays_example :
    withdraw ledger env 3 (pos 100) now
    ≡ ok (
      pos 100,
      record {
        store =
            moved vault 3
              (read_shares vault 3 -ℤ pos 100)
              (read_total_assets vault -ℤ pos 100)
              (read_total_shares vault -ℤ pos 100);
        tokens = credit 20 3 (pos 100) (debit 20 100 (pos 100) now.tokens);
      },
    )
withdraw-pays_example =
    withdraw-pays ledger env now vault-IsAtPar 3 20 (pos 100)
      (credit 20 3 (pos 100) (debit 20 100 (pos 100) now.tokens)) refl (omega arith) enough small
      refl refl
