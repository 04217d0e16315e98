-- ===== src/LpToken/Request.antt =====
-- The requests that a client can send to contracts/lp-token/src/lib.rs.
use suban.Base.{ℕ, Bool, none, []}
use suban.Int.{ℤ}
use suban.Host.{Env}
use suban.LpToken
use suban.LpToken.{Action, Store}

pub data Request : Type 0 where
  initialize : ℕ → Request
  transfer : ℕ → ℕ → ℤ → Request
  transfer_from : ℕ → ℕ → ℕ → ℤ → Request
  approve mint burn : ℕ → ℕ → ℤ → Request
  set_paused : ℕ → Bool → Request

unfoldable pub execute : Env → Request → Action (Unit {0})
execute env (initialize admin) = LpToken.initialize env admin
execute env (transfer source to amount) = LpToken.transfer env source to amount
execute env (transfer_from spender source to amount) =
    LpToken.transfer_from env spender source to amount
execute env (approve owner spender amount) = LpToken.approve env owner spender amount
execute env (mint admin to amount) = LpToken.mint env admin to amount
execute env (burn admin source amount) = LpToken.burn env admin source amount
execute env (set_paused admin value) = LpToken.set_paused env admin value

-- The storage before the first call.
abbrev pub deployed : Store
deployed = record { admin = none; paused = none; total_supply = none; balance = []; allowance = [] }
