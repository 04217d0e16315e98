-- ===== src/LpToken.antt =====
-- contracts/lp-token/src/lib.rs: the ledger of liquidity-pool shares, function by function.
pub mod Balances
pub mod Supply
pub mod Request
pub mod Effects
mod Tests
use suban.Base.{
  ℕ, ◌+◌, Bool, true, false, not, Option, none, some, [], ◌==◌, unwrap_or, is_some, ltb,
}
use suban.Int.{ℤ, pos, ◌-ℤ◌, ltb_ℤ, leb_ℤ}
use suban.Dict.{Dict, lookup, insert, nat_eq, pair_eq}
use suban.Host.{
  Call, Env, pure, gets, unwrap, ◌>>=◌, ◌>>◌, modify, fail_if, panic_if, require_auth, add_i128,
  sub_i128,
}

pub data LpError : Type 0 where
  not_admin insufficient_balance insufficient_allowance invalid_amount paused : LpError

-- The instance storage, a field for each `DataKey`; `none` and a missing entry are an absent key.
pub record Store : Type 0 where
  pub admin : Option ℕ
  pub paused : Option Bool
  pub total_supply : Option ℤ
  pub balance : Dict ℕ ℤ
  pub allowance : Dict (ℕ × ℕ) ℤ

abbrev pub Action : Type 0 → Type 0
Action A = Call Store LpError A

pub read_admin : Action ℕ
read_admin s = unwrap s.admin s

pub is_paused : Store → Bool
is_paused s = unwrap_or s.paused false

pub read_balance : Store → ℕ → ℤ
read_balance s addr = unwrap_or (lookup addr s.balance) (pos 0)

pub write_balance : ℕ → ℤ → Store → Store
write_balance addr amount s = record s { balance = insert addr amount s.balance }

pub read_allowance : Store → ℕ → ℕ → ℤ
read_allowance s owner spender = unwrap_or (lookup (owner, spender) s.allowance) (pos 0)

pub write_allowance : ℕ → ℕ → ℤ → Store → Store
write_allowance owner spender amount s = record s {
  allowance = insert (owner, spender) amount s.allowance;
}

pub read_total_supply : Store → ℤ
read_total_supply s = unwrap_or s.total_supply (pos 0)

pub write_total_supply : ℤ → Store → Store
write_total_supply amount s = record s { total_supply = some amount }

pub initialize : Env → ℕ → Action (Unit {0})
unfolding write_total_supply
initialize env admin = do
  initialized ← gets (λ s. is_some s.admin)
  panic_if initialized
  require_auth env admin
  modify (λ s. record s { admin = some admin; paused = some false })
  modify (write_total_supply (pos 0))

-- The three writes that `transfer` and `transfer_from` end in.
pub move_balance : ℕ → ℕ → ℤ → ℤ → Action (Unit {0})
unfolding read_balance write_balance
move_balance source to from_bal amount = do
  debited ← sub_i128 from_bal amount
  modify (write_balance source debited)
  to_bal ← gets (λ s. read_balance s to)
  credited ← add_i128 to_bal amount
  modify (write_balance to credited)

pub transfer : Env → ℕ → ℕ → ℤ → Action (Unit {0})
unfolding is_paused read_balance
transfer env source to amount = do
  fail_if (← gets is_paused) paused
  fail_if (leb_ℤ amount (pos 0)) invalid_amount
  require_auth env source
  from_bal ← gets (λ s. read_balance s source)
  fail_if (ltb_ℤ from_bal amount) insufficient_balance
  move_balance source to from_bal amount

pub transfer_from : Env → ℕ → ℕ → ℕ → ℤ → Action (Unit {0})
unfolding is_paused read_allowance read_balance write_allowance
transfer_from env spender source to amount = do
  fail_if (← gets is_paused) paused
  fail_if (leb_ℤ amount (pos 0)) invalid_amount
  require_auth env spender
  allowance ← gets (λ s. read_allowance s source spender)
  fail_if (ltb_ℤ allowance amount) insufficient_allowance
  from_bal ← gets (λ s. read_balance s source)
  fail_if (ltb_ℤ from_bal amount) insufficient_balance
  reduced ← sub_i128 allowance amount
  modify (write_allowance source spender reduced)
  move_balance source to from_bal amount

pub approve : Env → ℕ → ℕ → ℤ → Action (Unit {0})
unfolding is_paused write_allowance
approve env owner spender amount = do
  fail_if (← gets is_paused) paused
  require_auth env owner
  modify (write_allowance owner spender amount)

-- `admin != current_admin`, then `require_auth`
pub admin_only : Env → ℕ → Action (Unit {0})
unfolding read_admin
admin_only env admin = do
  current_admin ← read_admin
  fail_if (not (admin == current_admin)) not_admin
  require_auth env admin

pub mint : Env → ℕ → ℕ → ℤ → Action (Unit {0})
unfolding admin_only read_balance write_balance read_total_supply write_total_supply
mint env admin to amount = do
  admin_only env admin
  fail_if (leb_ℤ amount (pos 0)) invalid_amount
  to_bal ← gets (λ s. read_balance s to)
  credited ← add_i128 to_bal amount
  modify (write_balance to credited)
  supply ← add_i128 (← gets read_total_supply) amount
  modify (write_total_supply supply)

pub burn : Env → ℕ → ℕ → ℤ → Action (Unit {0})
unfolding admin_only read_balance write_balance read_total_supply write_total_supply
burn env admin source amount = do
  admin_only env admin
  fail_if (leb_ℤ amount (pos 0)) invalid_amount
  bal ← gets (λ s. read_balance s source)
  fail_if (ltb_ℤ bal amount) insufficient_balance
  debited ← sub_i128 bal amount
  modify (write_balance source debited)
  supply ← sub_i128 (← gets read_total_supply) amount
  modify (write_total_supply supply)

pub set_paused : Env → ℕ → Bool → Action (Unit {0})
unfolding admin_only
set_paused env admin value = do admin_only env admin; modify (λ s. record s { paused = some value })
