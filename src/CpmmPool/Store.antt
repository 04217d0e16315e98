-- ===== src/CpmmPool/Store.antt =====
-- The storage of contracts/cpmm-pool/src/lib.rs, and the helpers that read and write it.
use suban.Base.{ℕ, Option, some, unwrap_or}
use suban.Int.{ℤ, pos}
use suban.Dict.{Dict, lookup, insert, nat_eq}
use suban.Host.{Call}
use suban.Tokens.{Chain}

pub data PoolError : Type 0 where
  not_admin insufficient_liquidity slippage_exceeded zero_amount : PoolError
  same_token invalid_fee insufficient_lp_shares : PoolError

-- The instance storage, a field for each `DataKey`.
pub record Store : Type 0 where
  pub admin : Option ℕ
  pub token_a : Option ℕ
  pub token_b : Option ℕ
  pub reserve_a : Option ℤ
  pub reserve_b : Option ℤ
  pub total_shares : Option ℤ
  pub fee_bps : Option ℕ
  pub lp_balance : Dict ℕ ℤ

unfoldable pub read_reserve_a : Store → ℤ
read_reserve_a s = unwrap_or s.reserve_a (pos 0)

unfoldable pub write_reserve_a : ℤ → Store → Store
write_reserve_a amount s = record s { reserve_a = some amount }

unfoldable pub read_reserve_b : Store → ℤ
read_reserve_b s = unwrap_or s.reserve_b (pos 0)

unfoldable pub write_reserve_b : ℤ → Store → Store
write_reserve_b amount s = record s { reserve_b = some amount }

unfoldable pub read_total_shares : Store → ℤ
read_total_shares s = unwrap_or s.total_shares (pos 0)

unfoldable pub write_total_shares : ℤ → Store → Store
write_total_shares amount s = record s { total_shares = some amount }

unfoldable pub read_fee_bps : Store → ℕ
read_fee_bps s = unwrap_or s.fee_bps 30

unfoldable pub read_lp_balance : Store → ℕ → ℤ
read_lp_balance s addr = unwrap_or (lookup addr s.lp_balance) (pos 0)

unfoldable pub write_lp_balance : ℕ → ℤ → Store → Store
write_lp_balance addr amount s = record s { lp_balance = insert addr amount s.lp_balance }

-- What `initialize` writes.
abbrev pub opened : ℕ → ℕ → ℕ → ℕ → Store → Store
opened admin token_a token_b fee_bps s = record s {
  admin = some admin;
  token_a = some token_a;
  token_b = some token_b;
  reserve_a = some (pos 0);
  reserve_b = some (pos 0);
  total_shares = some (pos 0);
  fee_bps = some fee_bps;
}

abbrev pub Action : Type 0 → Type 0 → Type 0
Action W A = Call (Chain Store W) PoolError A
