-- ===== src/Stableswap/Store.antt =====
-- The storage of contracts/stableswap/src/lib.rs, and the helpers that read and write it.
use suban.Base.{ℕ, Option, some, unwrap_or}
use suban.Int.{ℤ, pos}
use suban.Dict.{Dict, lookup, insert, nat_eq}
use suban.Host.{Call}
use suban.Tokens.{Chain}

pub data StableswapError : Type 0 where
  not_admin zero_amount slippage_exceeded insufficient_liquidity : StableswapError
  insufficient_lp_shares same_token invalid_fee : StableswapError

-- The instance storage, a field for each `DataKey`.
pub record Store : Type 0 where
  pub admin : Option ℕ
  pub token_a : Option ℕ
  pub token_b : Option ℕ
  pub reserve_a : Option ℤ
  pub reserve_b : Option ℤ
  pub total_shares : Option ℤ
  pub amplification : Option ℕ
  pub fee_bps : Option ℕ
  pub lp_balance : Dict ℕ ℤ

abbrev pub Action : Type 0 → Type 0 → Type 0
Action W A = Call (Chain Store W) StableswapError A

unfoldable pub read_reserve_a : Store → ℤ
read_reserve_a s = unwrap_or s.reserve_a (pos 0)

unfoldable pub write_reserve_a : ℤ → Store → Store
write_reserve_a val s = record s { reserve_a = some val }

unfoldable pub read_reserve_b : Store → ℤ
read_reserve_b s = unwrap_or s.reserve_b (pos 0)

unfoldable pub write_reserve_b : ℤ → Store → Store
write_reserve_b val s = record s { reserve_b = some val }

unfoldable pub read_total_shares : Store → ℤ
read_total_shares s = unwrap_or s.total_shares (pos 0)

unfoldable pub write_total_shares : ℤ → Store → Store
write_total_shares val s = record s { total_shares = some val }

unfoldable pub read_fee_bps : Store → ℕ
read_fee_bps s = unwrap_or s.fee_bps 30

unfoldable pub read_lp_balance : Store → ℕ → ℤ
read_lp_balance s addr = unwrap_or (lookup addr s.lp_balance) (pos 0)

unfoldable pub write_lp_balance : ℕ → ℤ → Store → Store
write_lp_balance addr val s = record s { lp_balance = insert addr val s.lp_balance }
