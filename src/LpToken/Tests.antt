-- ===== src/LpToken/Tests.antt =====
-- Runs of contracts/lp-token/src/lib.rs, and the theorems at inputs that meet their hypotheses.
use suban.Base.{◌≡◌, refl, true, false, some, List, [], ◌∷◌, ◌==◌, if◌then◌else◌}
use suban.Int.{pos, ◌+ℤ◌, ◌-ℤ◌, ◌≤ℤ◌, ◌<ℤ◌}
use suban.Dict.{lookup, insert, pair_beq}
use suban.Host.{Env, err, Returns, history, fits_i128}
use suban.LpToken
use suban.LpToken.{Store, insufficient_allowance, insufficient_balance}
use suban.LpToken.Request.{Request, execute, deployed}
use suban.LpToken.Balances.{IsBacked}
use suban.LpToken.Supply.{history-IsBacked}
use suban.LpToken.Effects.{HasMoved, transfer_from_effect}

abbrev env : Env
env = record {
  sequence = 10;
  timestamp = 50;
  current_contract_address = 100;
  authorized = λ a. if a == 9 then false else true;
}

abbrev calls : List (Env × Request)
calls =
    (env, Request.mint 1 2 (pos 5))
    ∷ (env, Request.initialize 1)
    ∷ (env, Request.mint 1 2 (pos 70))
    ∷ (env, Request.transfer 2 3 (pos 30))
    ∷ (env, Request.transfer 2 3 (pos 41))
    ∷ (env, Request.approve 3 4 (pos 25))
    ∷ (env, Request.transfer_from 4 3 2 (pos 10))
    ∷ (env, Request.burn 1 2 (pos 20))
    ∷ []

abbrev after : Store
after = record {
  admin = some 1;
  paused = some false;
  total_supply = some (pos 50);
  balance = (2, pos 30) ∷ (3, pos 20) ∷ [];
  allowance = ((3, 4), pos 15) ∷ [];
}

run-calls : history execute deployed calls ≡ after
unfolding history execute LpToken.initialize LpToken.mint LpToken.transfer LpToken.approve
    LpToken.transfer_from LpToken.burn LpToken.move_balance ◌+ℤ◌ ◌-ℤ◌ fits_i128 lookup insert
run-calls = refl

allowance_spent : LpToken.transfer_from env 4 3 2 (pos 16) after ≡ err insufficient_allowance
unfolding LpToken.transfer_from lookup
allowance_spent = refl

history-IsBacked_example : IsBacked (history execute deployed calls)
history-IsBacked_example = history-IsBacked calls

transfer_from_effect_example :
    Returns
      (λ _ s'.
        (LpToken.is_paused after ≡ false)
        × (env.authorized 4 ≡ true)
        × (pos 0 <ℤ pos 15)
        × (pos 15 ≤ℤ LpToken.read_allowance after 3 4)
        × (pos 15 ≤ℤ LpToken.read_balance after 3)
        × HasMoved 3 2 (pos 15) after s'
        × (LpToken.read_allowance s' 3 4 ≡ (
            if pair_beq (3, 4) (3, 4)
            then LpToken.read_allowance after 3 4 -ℤ pos 15
            else LpToken.read_allowance after 3 4)))
      (LpToken.transfer_from env 4 3 2 (pos 15) after)
transfer_from_effect_example = transfer_from_effect env 4 3 2 3 4 (pos 15) after
