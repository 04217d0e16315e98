-- ===== src/Escrow/Custody.antt =====
-- The vault of contracts/escrow/src/lib.rs against what its escrows have left of every asset.
use suban.Base.{ℕ, Bool, true, false, ◌≡◌, arith, refl, some, if◌then◌else◌, ◌==◌}
use suban.Int.{ℤ, pos, ◌+ℤ◌, ◌-ℤ◌, ◌≤ℤ◌, ◌<ℤ◌, int_laws, parts_of_eq}
use suban.Dict.{Dict, lookup, nat_eq, sum_by, sum_by-insert}
use suban.Host.{Env, Returns, weaken}
use suban.Tokens.{Tokens, Chain, IsLedger, share, share_owner}
use suban.Hub.Types.{EscrowConfig, EscrowState}
use suban.Escrow.Store.{Store}
use suban.Escrow.Lifecycle.{new_state}
use suban.Escrow.Steps.{Move, Allows, Pays, after, replaced, left}
use suban.Escrow.Request.{Request, execute, count, opened}
use suban.Escrow.Transitions.{Step}
use suban.Escrow.Books.{IsInOrder}
use suban.Escrow.History.{execute-steps}

-- What an escrow has left of the asset `k`.
abbrev pub due : ℕ → EscrowState → ℤ
due k st = if st.config.asset == k then left st else pos 0

-- What all the escrows have left of the asset `k`.
abbrev pub owed : ℕ → Dict ℕ EscrowState → ℤ
owed k escrows = sum_by (due k) escrows

-- The vault `me` holds what the escrows have left of `k`.
abbrev pub IsFunded : {W : Type 0} → Tokens W → (me k : ℕ) → Chain Store W → Type 0
IsFunded t me k c = owed k c.store.escrow_state ≤ℤ t.balance k me c.tokens

-- What a move adds to an escrow.
abbrev change : Move → ℤ
change (Move.fund x) = x
change (Move.release x) = pos 0 -ℤ x
change (Move.refund x) = pos 0 -ℤ x
change (Move.resolve_to_receiver x) = pos 0 -ℤ x
change (Move.resolve_to_funder x) = pos 0 -ℤ x
change (Move.submit i) = pos 0
change (Move.approve i) = pos 0
change (Move.reject i) = pos 0
change (Move.dispute d) = pos 0

left-after : (move : Move) (st : EscrowState) → left (after move st) ≡ left st +ℤ change move
left-after (Move.fund x) st = omega int_laws
left-after (Move.submit i) st = omega int_laws
left-after (Move.approve i) st = omega int_laws
left-after (Move.reject i) st = omega int_laws
left-after (Move.release x) st = omega int_laws
left-after (Move.refund x) st = omega int_laws
left-after (Move.dispute d) st = omega int_laws
left-after (Move.resolve_to_receiver x) st = omega int_laws
left-after (Move.resolve_to_funder x) st = omega int_laws

same_asset : (move : Move) (st : EscrowState) → (after move st).config.asset ≡ st.config.asset
same_asset (Move.fund x) st = refl
same_asset (Move.submit i) st = refl
same_asset (Move.approve i) st = refl
same_asset (Move.reject i) st = refl
same_asset (Move.release x) st = refl
same_asset (Move.refund x) st = refl
same_asset (Move.dispute d) st = refl
same_asset (Move.resolve_to_receiver x) st = refl
same_asset (Move.resolve_to_funder x) st = refl

-- What a move adds to what an escrow has left of the asset `k`.
abbrev portion : ℕ → EscrowState → Move → ℤ
portion k st move = if st.config.asset == k then change move else pos 0

if_add :
    (b : Bool) (x y : ℤ)
    → (if b then x +ℤ y else pos 0) ≡ (if b then x else pos 0) +ℤ (if b then y else pos 0)
if_add true x y = refl
if_add false x y = omega int_laws

due-after :
    (k : ℕ) (move : Move) (st : EscrowState) → due k (after move st) ≡ due k st +ℤ portion k st move
due-after k move st =
    rw (same_asset move st, left-after move st)
      (if_add (st.config.asset == k) (left st) (change move))

share_me : (asset k me : ℕ) (x : ℤ) → share asset me k me x ≡ (if asset == k then x else pos 0)
share_me asset k me x = ground arith

share_nonneg : (asset p k me : ℕ) (x : ℤ) → pos 0 <ℤ x → pos 0 ≤ℤ share asset p k me x
share_nonneg asset p k me x h = ground arith

-- What a transfer out of an account, and one into it, leave there.
settled_out :
    (b : Bool) (old new x lost gained : ℤ)
    → lost ≡ (if b then x else pos 0)
    → pos 0 ≤ℤ gained
    → new +ℤ lost ≡ old +ℤ gained
    → old +ℤ (if b then pos 0 -ℤ x else pos 0) ≤ℤ new
settled_out true old new x lost gained e h law = omega (int_laws, parts_of_eq e, parts_of_eq law)
settled_out false old new x lost gained e h law = omega (int_laws, parts_of_eq e, parts_of_eq law)

settled_in :
    (b : Bool) (old new x lost gained : ℤ)
    → lost ≡ pos 0
    → gained ≡ (if b then x else pos 0)
    → new +ℤ lost ≡ old +ℤ gained
    → old +ℤ (if b then x else pos 0) ≤ℤ new
settled_in true old new x lost gained d e law =
    omega (int_laws, parts_of_eq d, parts_of_eq e, parts_of_eq law)
settled_in false old new x lost gained d e law =
    omega (int_laws, parts_of_eq d, parts_of_eq e, parts_of_eq law)

if_zero : (b : Bool) → (if b then pos 0 else pos 0) ≡ pos 0
if_zero true = refl
if_zero false = refl

-- A new escrow has nothing.
due-new_state : (k id : ℕ) (config : EscrowConfig) → due k (new_state id config) ≡ pos 0
unfolding ◌-ℤ◌
due-new_state k id config = if_zero (config.asset == k)

module _ {W : Type 0} (t : Tokens W) (laws : IsLedger t) (env : Env) (k : ℕ)
    (unsigned : env.authorized env.current_contract_address ≡ false) where
  abbrev me : ℕ
  me = env.current_contract_address

  out_balance :
      (asset p : ℕ) (x : ℤ) (w w' : W)
      → pos 0 <ℤ x
      → t.transfer asset me p x w ≡ some w'
      → t.balance k me w +ℤ (if asset == k then pos 0 -ℤ x else pos 0) ≤ℤ t.balance k me w'
  out_balance asset p x w w' positive e =
      settled_out (asset == k) (t.balance k me w) (t.balance k me w') x _ _ (share_me asset k me x)
        (share_nonneg asset p k me x positive) (laws.transfer_moves asset me p x w w' e k me)

  in_balance :
      (asset p : ℕ) (x : ℤ) (w w' : W)
      → env.authorized p ≡ true
      → t.transfer asset p me x w ≡ some w'
      → t.balance k me w +ℤ (if asset == k then x else pos 0) ≤ℤ t.balance k me w'
  in_balance asset p x w w' signed e =
      settled_in (asset == k) (t.balance k me w) (t.balance k me w') x _ _
        (share_owner asset p k me x (λ same. cc)) (share_me asset k me x)
        (laws.transfer_moves asset p me x w w' e k me)

  same_balance : (w w' : W) → w' ≡ w → t.balance k me w +ℤ pos 0 ≤ℤ t.balance k me w'
  same_balance w w' e = rw e (omega int_laws)

  -- The vault gains at least what a move adds to its escrow.
  move-balance :
      (move : Move) (st : EscrowState) (w w' : W)
      → Allows env move st
      → Pays t env move st.config w w'
      → t.balance k me w +ℤ portion k st move ≤ℤ t.balance k me w'
  move-balance (Move.fund x) st w w' a p = in_balance st.config.asset st.config.funder x w w' a.3 p
  move-balance (Move.submit i) st w w' a p =
      rw (if_zero (st.config.asset == k)) (same_balance w w' p)
  move-balance (Move.approve i) st w w' a p =
      rw (if_zero (st.config.asset == k)) (same_balance w w' p)
  move-balance (Move.reject i) st w w' a p =
      rw (if_zero (st.config.asset == k)) (same_balance w w' p)
  move-balance (Move.release x) st w w' a p =
      out_balance st.config.asset st.config.receiver x w w' a.1 p
  move-balance (Move.refund x) st w w' a p =
      out_balance st.config.asset st.config.funder x w w' a.1 p
  move-balance (Move.dispute d) st w w' a p =
      rw (if_zero (st.config.asset == k)) (same_balance w w' p)
  move-balance (Move.resolve_to_receiver x) st w w' a p =
      out_balance st.config.asset st.config.receiver x w w' a.1 p
  move-balance (Move.resolve_to_funder x) st w w' a p =
      out_balance st.config.asset st.config.funder x w w' a.1 p

  opens-owed :
      (config : EscrowConfig) (s : Store)
      → IsInOrder s
      → owed k (opened config s).escrow_state ≡ owed k s.escrow_state
  opens-owed config s v =
      let fresh = v.fresh (count s) (omega arith) in
      let sum = rw fresh at (
        parts_of_eq
          (sum_by-insert (due k) (count s) (new_state (count s) config) s.escrow_state)) in
      let nothing = parts_of_eq (due-new_state k (count s) config) in omega (int_laws, sum, nothing)

  moves-owed :
      (id : ℕ) (move : Move) (st : EscrowState) (s : Store)
      → lookup id s.escrow_state ≡ some st
      → owed k (replaced id (after move st) s).escrow_state
        ≡ owed k s.escrow_state +ℤ portion k st move
  moves-owed id move st s found =
      let sum =
        rw found at (parts_of_eq (sum_by-insert (due k) id (after move st) s.escrow_state)) in
      let grown = parts_of_eq (due-after k move st) in omega (int_laws, sum, grown)

  Step-IsFunded :
      (c c' : Chain Store W)
      → IsInOrder c.store
      → IsFunded t me k c
      → Step t env c c'
      → IsFunded t me k c'
  Step-IsFunded c c' v covered (Step.opens config made same) =
      rw (made, same, opens-owed config c.store v) covered
  Step-IsFunded c c' v covered (Step.moves id move st found allowed made paid) =
      let gain = move-balance move st c.tokens c'.tokens allowed paid in
      let grown = parts_of_eq (moves-owed id move st c.store found) in
      rw made (omega (int_laws, gain, grown, covered))
  Step-IsFunded c c' v covered (Step.governs escrows counter has same) = rw (escrows, same) covered

  -- Behind tokens that keep SEP-41's books, and as long as nobody can sign for the vault itself: on sound
  -- books, every call that returns leaves the vault holding of the asset `k` at least what all its
  -- escrows of that asset have left, if it held that before.
  pub execute-IsFunded :
      (r : Request) (c : Chain Store W)
      → IsInOrder c.store
      → IsFunded t env.current_contract_address k c
      → Returns (λ _ c'. IsFunded t env.current_contract_address k c') (execute t env r c)
  execute-IsFunded r c v covered =
      weaken _ _ (execute t env r c) (execute-steps t env r c v)
        (λ _ c' p. Step-IsFunded c c' v covered p.1)
