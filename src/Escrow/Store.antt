-- ===== src/Escrow/Store.antt =====
-- The storage of contracts/escrow/src/lib.rs, and the helpers that read and write it.
use suban.Base.{ℕ, Bool, false, Option, some, unwrap_or, not}
use suban.Dict.{Dict, lookup, insert, nat_eq}
use suban.Host.{Call, ◌>>=◌, ◌>>◌, pure, ok_or, fail_if, add_u32}
use suban.Tokens.{Chain, reads, writes}
use suban.Hub.Errors.{HubError, escrow_not_found, invalid_escrow_status}
use suban.Hub.Types.{EscrowConfig, EscrowState, EscrowStatus, same_escrow}

-- The instance storage, a field for each `DataKey`.
pub record Store : Type 0 where
  pub admin : Option ℕ
  pub paused : Option Bool
  pub escrow_state : Dict ℕ EscrowState
  pub escrow_config : Dict ℕ EscrowConfig
  pub escrow_count : Option ℕ

abbrev pub Action : Type 0 → Type 0 → Type 0
Action W A = Call (Chain Store W) HubError A

unfoldable pub is_paused : Store → Bool
is_paused s = unwrap_or s.paused false

unfoldable pub next_escrow_id : {W : Type 0} → Action W ℕ
next_escrow_id = do
  count ← reads (λ s. unwrap_or s.escrow_count 0)
  next ← add_u32 count 1
  writes (λ s. record s { escrow_count = some next })
  pure count

unfoldable pub read_escrow_state : {W : Type 0} → ℕ → Action W EscrowState
read_escrow_state escrow_id = do
  found ← reads (λ s. lookup escrow_id s.escrow_state)
  ok_or found escrow_not_found

unfoldable pub write_escrow_state : ℕ → EscrowState → Store → Store
write_escrow_state escrow_id state s = record s {
  escrow_state = insert escrow_id state s.escrow_state;
}

unfoldable pub write_escrow_config : ℕ → EscrowConfig → Store → Store
write_escrow_config escrow_id config s = record s {
  escrow_config = insert escrow_id config s.escrow_config;
}

-- The checks that the operations on one escrow begin with: not paused, known, and in the status.
unfoldable pub escrow_in : {W : Type 0} → EscrowStatus → ℕ → Action W EscrowState
unfolding is_paused read_escrow_state
escrow_in status escrow_id = do
  stopped ← reads is_paused
  fail_if stopped HubError.paused
  state ← read_escrow_state escrow_id
  fail_if (not (same_escrow state.status status)) invalid_escrow_status
  pure state
