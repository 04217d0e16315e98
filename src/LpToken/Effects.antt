-- ===== src/LpToken/Effects.antt =====
-- A transfer of shares in contracts/lp-token/src/lib.rs, with each balance and allowance, and who can
-- cause it.
use suban.Base.{ℕ, ◌≡◌, true, false, arith, ◌==◌, if◌then◌else◌}
use suban.Int.{ℤ, pos, ◌+ℤ◌, ◌-ℤ◌, ◌≤ℤ◌, ◌<ℤ◌, int_laws}
use suban.Dict.{pair_beq, pair_eq, lookup-insert}
use suban.Host.{Env, Returns}
use suban.LpToken.{
  Store, is_paused, read_balance, write_balance, read_allowance, write_allowance, move_balance,
  transfer_from,
}
use suban.LpToken.Balances.{read-write_balance}
use suban.LpToken.Supply.{read_balance-write_allowance}

-- The share of a balance that a payment between two holders takes or gives.
abbrev pub part : ℕ → ℕ → ℤ → ℤ
part a c x = if a == c then x else pos 0

-- `s'` is `s` after `x` moved from `a` to `b`.
abbrev pub HasMoved : ℕ → ℕ → ℤ → Store → Store → Type 0
HasMoved a b x s s' = (c : ℕ) → read_balance s' c +ℤ part a c x ≡ read_balance s c +ℤ part b c x

moved :
    (a b c : ℕ) (x : ℤ) (f : ℕ → ℤ)
    → (if b == c then (if a == b then f a -ℤ x else f b) +ℤ x else if a == c then f a -ℤ x else f c)
        +ℤ part a c x
      ≡ f c +ℤ part b c x
moved a b c x f = grind int_laws

write_both-HasMoved :
    (a b : ℕ) (x : ℤ) (s : Store)
    → let s' = write_balance a (read_balance s a -ℤ x) s in
      HasMoved a b x s (write_balance b (read_balance s' b +ℤ x) s')
write_both-HasMoved a b x s c =
    let s' = write_balance a (read_balance s a -ℤ x) s in
    rw
      (
        read-write_balance b c (read_balance s' b +ℤ x) s',
        read-write_balance a b (read_balance s a -ℤ x) s,
        read-write_balance a c (read_balance s a -ℤ x) s,
      )
      (moved a b c x (read_balance s))

move_balance-HasMoved :
    (a b : ℕ) (x : ℤ) (s : Store)
    → Returns (λ _ s'. HasMoved a b x s s') (move_balance a b (read_balance s a) x s)
unfolding move_balance
move_balance-HasMoved a b x s = ground (arith, write_both-HasMoved a b x s)

read_allowance-write_allowance :
    (o q a p : ℕ) (x : ℤ) (s : Store)
    → read_allowance (write_allowance a p x s) o q
      ≡ (if pair_beq (a, p) (o, q) then x else read_allowance s o q)
unfolding read_allowance write_allowance
read_allowance-write_allowance o q a p x s =
    ground (arith, lookup-insert (a, p) (o, q) x s.allowance)

move_balance-allowance :
    (a b o q : ℕ) (f x : ℤ) (s : Store)
    → Returns (λ _ s'. read_allowance s' o q ≡ read_allowance s o q) (move_balance a b f x s)
unfolding move_balance write_balance read_allowance
move_balance-allowance a b o q f x s = ground arith

-- When `transfer_from` returns, the contract was not paused, the spender authorised the call, the
-- amount was positive and within the spender's allowance and the owner's balance; every balance has changed
-- by exactly the amount that the holder paid or received (also where the owner pays himself), and of the
-- allowances just this spender's is lower, by the amount.
pub transfer_from_effect :
    (env : Env) (p a b o q : ℕ) (x : ℤ) (s : Store)
    → Returns
        (λ _ s'.
          (is_paused s ≡ false)
          × (env.authorized p ≡ true)
          × (pos 0 <ℤ x)
          × (x ≤ℤ read_allowance s a p)
          × (x ≤ℤ read_balance s a)
          × HasMoved a b x s s'
          × (read_allowance s' o q ≡ (
              if pair_beq (a, p) (o, q) then read_allowance s a p -ℤ x else read_allowance s o q)))
        (transfer_from env p a b x s)
unfolding transfer_from
transfer_from_effect env p a b o q x s =
    let rest = read_allowance s a p -ℤ x in
    let s' = write_allowance a p rest s in
    ground (
      arith,
      move_balance-HasMoved a b x s',
      move_balance-allowance a b o q (read_balance s a) x s',
      read_allowance-write_allowance o q a p rest s,
      read_balance-write_allowance a p a rest s,
    )
