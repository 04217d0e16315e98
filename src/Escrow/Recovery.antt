-- ===== src/Escrow/Recovery.antt =====
-- The way of a funder of contracts/escrow/src/lib.rs to the money.
use suban.Base.{ℕ, true, false, ◌≡◌, arith, some}
use suban.Int.{ℤ, pos, negsuc, ◌+ℤ◌, ◌≤ℤ◌, int_laws}
use suban.Dict.{lookup, nat_eq, lookup-AllValues}
use suban.Host.{Env, ok, fits_i128}
use suban.Tokens.{Tokens, Chain}
use suban.Hub.Types.{EscrowState}
use suban.Escrow.Store.{Store, is_paused, escrow_in, read_escrow_state, write_escrow_state}
use suban.Escrow.Payout.{refund}
use suban.Escrow.Steps.{Move, Allows, after, replaced, left}
use suban.Escrow.Books.{IsInOrder, IsKept}

-- Between zero and a value of `i128` everything is one.
fits_below : (a b : ℤ) → pos 0 ≤ℤ a → a ≤ℤ b → fits_i128 b ≡ true → fits_i128 a ≡ true
unfolding fits_i128
fits_below (pos n) (pos k) p h f = ground arith
fits_below (pos n) (negsuc k) p h f = absurd (omega arith)
fits_below (negsuc n) b p h f = absurd (omega arith)

-- On sound books, `refund` succeeds if the contract is not paused, the escrow is active and has
-- something left, the funder has signed, the deadline has passed or every milestone was rejected, and
-- the token lets the vault pay: the funder gets all that is left, and the escrow is closed as refunded.
pub refund-pays :
    {W : Type 0} (t : Tokens W) (env : Env) (id : ℕ) (c : Chain Store W) (st : EscrowState) (w : W)
    → IsInOrder c.store
    → lookup id c.store.escrow_state ≡ some st
    → is_paused c.store ≡ false
    → Allows env (Move.refund (left st)) st
    → t.transfer st.config.asset env.current_contract_address st.config.funder (left st) c.tokens
      ≡ some w
    → refund t env id c
      ≡ ok (
        tt,
        record { store = replaced id (after (Move.refund (left st)) st) c.store; tokens = w },
      )
unfolding refund escrow_in read_escrow_state write_escrow_state
refund-pays t env id c st w v found running a paid =
    let k : IsKept st = lookup-AllValues IsKept id c.store.escrow_state v.kept found in
    let all : st.total_released +ℤ left st ≡ st.total_deposited = omega int_laws in
    let low = k.released_nonneg in
    let high = k.released_covered in
    let fits_all : fits_i128 (st.total_released +ℤ left st) ≡ true = rw all k.deposited_fits in
    let left_low : pos 0 ≤ℤ left st = omega int_laws in
    let left_high : left st ≤ℤ st.total_deposited = omega int_laws in
    let fits_left : fits_i128 (left st) ≡ true =
      fits_below (left st) st.total_deposited left_low left_high k.deposited_fits in
    ground (arith, found, running, a, paid, fits_all, fits_left)
