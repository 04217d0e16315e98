-- ===== src/LpToken/Supply.antt =====
-- The shares in circulation in contracts/lp-token/src/lib.rs: the balances and the total supply.
use suban.Base.{ℕ, ◌≡◌, refl, Bool, true, arith, List, is_some, inl, inr}
use suban.Int.{ℤ, pos, ◌+ℤ◌, ◌-ℤ◌, ◌≤ℤ◌, int_laws, parts_of_eq}
use suban.Dict.{nat_eq, AllValues, sum_by}
use suban.Host.{Env, Returns, history, history_lem}
use suban.LpToken.Request.{Request, execute, deployed}
use suban.LpToken.{
  Store, read_balance, write_balance, read_total_supply, move_balance, initialize, transfer,
  transfer_from, approve, admin_only, mint, burn, set_paused, write_total_supply, read_allowance,
  write_allowance,
}
use suban.LpToken.Balances.{
  circulating, IsBacked, circulating-write_balance, write_balance-nonneg, read_balance-nonneg,
}

-- A move out of a sufficient balance keeps every balance at zero or more and the circulation.
move_balance-circulating :
    (a b : ℕ) (x : ℤ) (s : Store)
    → AllValues (λ v. pos 0 ≤ℤ v) s.balance
    → pos 0 ≤ℤ x
    → x ≤ℤ read_balance s a
    → Returns
        (λ _ s'. AllValues (λ v. pos 0 ≤ℤ v) s'.balance × (circulating s' ≡ circulating s))
        (move_balance a b (read_balance s a) x s)
unfolding move_balance
move_balance-circulating a b x s h p q =
    let debited = read_balance s a -ℤ x in
    let s' = write_balance a debited s in
    let credited = read_balance s' b +ℤ x in
    let left_all = write_balance-nonneg a debited s h (omega int_laws) in
    let left = read_balance-nonneg b s' left_all in
    let all = write_balance-nonneg b credited s' left_all (omega int_laws) in
    let total : circulating (write_balance b credited s') ≡ circulating s = omega (
      int_laws,
      parts_of_eq (circulating-write_balance a debited s),
      parts_of_eq (circulating-write_balance b credited s'),
    ) in
    ground (arith, total, all)

move_balance-supply :
    (a b : ℕ) (from_bal x : ℤ) (s : Store)
    → Returns
        (λ _ s'. (read_total_supply s' ≡ read_total_supply s) × (s'.admin ≡ s.admin))
        (move_balance a b from_bal x s)
unfolding move_balance write_balance read_total_supply
move_balance-supply a b from_bal x s = ground arith

-- Allowances play no part in the supply.
write_allowance-IsBacked :
    (a p : ℕ) (x : ℤ) (s : Store) → IsBacked s → IsBacked (write_allowance a p x s)
unfolding write_allowance circulating read_total_supply
write_allowance-IsBacked a p x s v = record {
  nonneg = v.nonneg;
  supplied = v.supplied;
  started = v.started;
}

-- The move that ends `transfer` and `transfer_from`.
move_balance-IsBacked :
    (a b : ℕ) (x : ℤ) (s : Store)
    → IsBacked s
    → pos 0 ≤ℤ x
    → x ≤ℤ read_balance s a
    → Returns (λ _ s'. IsBacked s') (move_balance a b (read_balance s a) x s)
move_balance-IsBacked a b x s v p q = ground (
  arith,
  move_balance-circulating a b x s v.nonneg p q,
  move_balance-supply a b (read_balance s a) x s,
)

transfer-IsBacked :
    (env : Env) (a b : ℕ) (x : ℤ) (s : Store)
    → IsBacked s
    → Returns (λ _ s'. IsBacked s') (transfer env a b x s)
unfolding transfer
transfer-IsBacked env a b x s v = ground (arith, move_balance-IsBacked a b x s v)

pub read_balance-write_allowance :
    (a p c : ℕ) (x : ℤ) (s : Store) → read_balance (write_allowance a p x s) c ≡ read_balance s c
unfolding read_balance write_allowance
read_balance-write_allowance a p c x s = refl

transfer_from-IsBacked :
    (env : Env) (p a b : ℕ) (x : ℤ) (s : Store)
    → IsBacked s
    → Returns (λ _ s'. IsBacked s') (transfer_from env p a b x s)
unfolding transfer_from
transfer_from-IsBacked env p a b x s v =
    let rest = read_allowance s a p -ℤ x in
    let s' = write_allowance a p rest s in
    ground (
      arith,
      read_balance-write_allowance a p a rest s,
      move_balance-IsBacked a b x s' (write_allowance-IsBacked a p rest s v),
    )

circulating-write_total_supply :
    (t : ℤ) (s : Store) → circulating (write_total_supply t s) ≡ circulating s
unfolding circulating write_total_supply
circulating-write_total_supply t s = refl

pub read_total_supply-write_balance :
    (a : ℕ) (v : ℤ) (s : Store) → read_total_supply (write_balance a v s) ≡ read_total_supply s
unfolding read_total_supply write_balance
read_total_supply-write_balance a v s = refl

-- A balance and the supply that change by the same amount.
write_both-IsBacked :
    (a : ℕ) (v t : ℤ) (s : Store)
    → IsBacked s
    → is_some s.admin ≡ true
    → pos 0 ≤ℤ v
    → t +ℤ read_balance s a ≡ read_total_supply s +ℤ v
    → IsBacked (write_total_supply t (write_balance a v s))
unfolding write_total_supply read_total_supply write_balance
write_both-IsBacked a v t s k i p e = record {
  nonneg = write_balance-nonneg a v s k.nonneg p;
  supplied = omega (
    int_laws,
    parts_of_eq e,
    parts_of_eq k.supplied,
    parts_of_eq (circulating-write_balance a v s),
    parts_of_eq (circulating-write_total_supply t (write_balance a v s)),
  );
  started = inl i;
}

mint-IsBacked :
    (env : Env) (admin to : ℕ) (x : ℤ) (s : Store)
    → IsBacked s
    → Returns (λ _ s'. IsBacked s') (mint env admin to x s)
unfolding mint admin_only
mint-IsBacked env admin to x s v =
    let credited = read_balance s to +ℤ x in
    let low = read_balance-nonneg to s v.nonneg in
    let same = read_total_supply-write_balance to credited s in
    let supply = read_total_supply s +ℤ x in
    let equal : supply +ℤ read_balance s to ≡ read_total_supply s +ℤ credited = omega int_laws in
    ground (
      arith,
      same,
      λ (i : is_some s.admin ≡ true) (h : pos 0 ≤ℤ x).
          write_both-IsBacked to credited supply s v i (omega int_laws) equal,
    )

burn-IsBacked :
    (env : Env) (admin source : ℕ) (x : ℤ) (s : Store)
    → IsBacked s
    → Returns (λ _ s'. IsBacked s') (burn env admin source x s)
unfolding burn admin_only
burn-IsBacked env admin source x s v =
    let debited = read_balance s source -ℤ x in
    let same = read_total_supply-write_balance source debited s in
    let supply = read_total_supply s -ℤ x in
    let equal : supply +ℤ read_balance s source ≡ read_total_supply s +ℤ debited = omega int_laws in
    ground (
      arith,
      same,
      λ (i : is_some s.admin ≡ true) (h : x ≤ℤ read_balance s source).
          write_both-IsBacked source debited supply s v i (omega int_laws) equal,
    )

initialize-IsBacked :
    (env : Env) (admin : ℕ) (s : Store)
    → IsBacked s
    → Returns (λ _ s'. IsBacked s') (initialize env admin s)
unfolding initialize circulating read_total_supply
initialize-IsBacked env admin s v = ground arith

set_paused-IsBacked :
    (env : Env) (admin : ℕ) (value : Bool) (s : Store)
    → IsBacked s
    → Returns (λ _ s'. IsBacked s') (set_paused env admin value s)
unfolding set_paused admin_only circulating read_total_supply
set_paused-IsBacked env admin value s v = ground arith

approve-IsBacked :
    (env : Env) (owner p : ℕ) (x : ℤ) (s : Store)
    → IsBacked s
    → Returns (λ _ s'. IsBacked s') (approve env owner p x s)
unfolding approve
approve-IsBacked env owner p x s v = ground (arith, write_allowance-IsBacked owner p x s v)

execute-IsBacked :
    (env : Env) (r : Request) (s : Store)
    → IsBacked s
    → Returns (λ _ s'. IsBacked s') (execute env r s)
unfolding execute
execute-IsBacked env (Request.initialize admin) s v = initialize-IsBacked env admin s v
execute-IsBacked env (Request.transfer a b x) s v = transfer-IsBacked env a b x s v
execute-IsBacked env (Request.transfer_from p a b x) s v = transfer_from-IsBacked env p a b x s v
execute-IsBacked env (Request.approve owner p x) s v = approve-IsBacked env owner p x s v
execute-IsBacked env (Request.mint admin to x) s v = mint-IsBacked env admin to x s v
execute-IsBacked env (Request.burn admin source x) s v = burn-IsBacked env admin source x s v
execute-IsBacked env (Request.set_paused admin value) s v = set_paused-IsBacked env admin value s v

deployed-IsBacked : IsBacked deployed
unfolding circulating read_total_supply sum_by
deployed-IsBacked = record { nonneg = tt; supplied = refl; started = inr refl }

-- Whatever calls a newly deployed contract receives, in whatever order and with whatever
-- authorisations, and whichever of them fail: every balance is at least zero, the balances add up
-- to the total supply, and none is in circulation before `initialize` has returned.
pub history-IsBacked : (calls : List (Env × Request)) → IsBacked (history execute deployed calls)
history-IsBacked calls =
    history_lem execute IsBacked execute-IsBacked calls deployed deployed-IsBacked
