-- ===== src/Tokens.antt =====
-- Token contracts (SEP-41), which the contracts reach through `token::Client`. They are not part
-- of the repository: a type `W` of token states and the operations on it are parameters.
use suban.Base.{
  ℕ, arith, ◌≡◌, ◌≢◌, ◌⊎◌, Bool, true, false, ◌&&◌, Option, none, some, ◌==◌, if◌then◌else◌,
  Bool-cases, inl, inr,
}
use mathlib.Core.Option.{some-injective}
use suban.Int.{ℤ, pos, ◌+ℤ◌, ◌-ℤ◌, int_laws, parts_of_eq, ltb_ℤ}
use suban.Host.{Call, ok, panic}

-- `none` is a call that the token refuses, which makes the calling contract panic.
pub record Tokens (W : Type 0) : Type 0 where
  pub transfer : (token source to : ℕ) → ℤ → W → Option W
  pub mint : (token to : ℕ) → ℤ → W → Option W
  pub balance : (token owner : ℕ) → W → ℤ

-- `x` for the account `c` of the token `k` if it is `a` of `token`, and else nothing.
abbrev pub share : (token a k c : ℕ) → ℤ → ℤ
share token a k c x = if (token == k) && (a == c) then x else pos 0

-- What SEP-41 says of a transfer and of a mint that go through: balances change by the amount
-- moved, and no other balance changes.
pub record IsLedger {W : Type 0} (t : Tokens W) : Type 0 where
  pub transfer_moves :
      (token a b : ℕ) (x : ℤ) (w w' : W)
      → t.transfer token a b x w ≡ some w'
      → (k c : ℕ) → t.balance k c w' +ℤ share token a k c x ≡ t.balance k c w +ℤ share token b k c x
  pub mint_adds :
      (token b : ℕ) (x : ℤ) (w w' : W)
      → t.mint token b x w ≡ some w'
      → (k c : ℕ) → t.balance k c w' ≡ t.balance k c w +ℤ share token b k c x

-- A contract's own storage beside the state of the tokens.
pub record Chain (S W : Type 0) : Type 0 where
  pub store : S
  pub tokens : W

-- Two transfers, one after the other.
abbrev pub Paid : {W : Type 0} → Tokens W → (k a b : ℕ) → ℤ → (l c d : ℕ) → ℤ → W → W → Type 0
Paid {W} t k a b x l c d y w w' =
    (w1 : W) × (t.transfer k a b x w ≡ some w1) × (t.transfer l c d y w1 ≡ some w')

-- `k` and `l` are the two tokens of a pool, in either order.
abbrev pub AreTraded : (token_a token_b : Option ℕ) → (k l : ℕ) → Type 0
AreTraded token_a token_b k l =
    ((token_a ≡ some k) × (token_b ≡ some l)) ⊎ ((token_b ≡ some k) × (token_a ≡ some l))

-- A swap of the amount `d` of the token `k` at a pool of the two tokens, settled: the amount goes from
-- the trader into the vault, and then `out` of the other token from the vault to the trader.
abbrev pub Delivered :
    {W : Type 0}
    → Tokens W
    → (vault trader : ℕ) → (token_a token_b : Option ℕ) → (k : ℕ) → (d out : ℤ) → W
    → W
    → Type 0
Delivered t vault trader token_a token_b k d out w w' =
    (l : ℕ) × AreTraded token_a token_b k l × Paid t k trader vault d l vault trader out w w'

module _ {S W E : Type 0} where
  abbrev pub client : Option W → Call (Chain S W) E (Unit {0})
  client none c = panic
  client (some w) c = ok (tt, record c { tokens = w })

  -- `token::Client::new(&env, &token).transfer(&source, &to, &amount)`
  abbrev pub token_transfer : Tokens W → (token source to : ℕ) → ℤ → Call (Chain S W) E (Unit {0})
  token_transfer t token source to amount c = client (t.transfer token source to amount c.tokens) c

  -- `StellarAssetClient::new(&env, &token).mint(&to, &amount)`
  abbrev pub token_mint : Tokens W → (token to : ℕ) → ℤ → Call (Chain S W) E (Unit {0})
  token_mint t token to amount c = client (t.mint token to amount c.tokens) c

  abbrev pub reads : {A : Type 0} → (S → A) → Call (Chain S W) E A
  reads f c = ok (f c.store, c)

  abbrev pub writes : (S → S) → Call (Chain S W) E (Unit {0})
  writes f c = ok (tt, record c { store = f c.store })

-- Token states that meet these laws: every balance of every token as a function.
abbrev pub Balances : Type 0
Balances = ℕ → ℕ → ℤ

abbrev pub credit : (token a : ℕ) → ℤ → Balances → Balances
credit token a x w k c = if (token == k) && (a == c) then w k c +ℤ x else w k c

abbrev pub debit : (token a : ℕ) → ℤ → Balances → Balances
debit token a x w k c = if (token == k) && (a == c) then w k c -ℤ x else w k c

abbrev pub ledger : Tokens Balances
ledger = record {
  transfer = λ token a b x w.
      if ltb_ℤ (w token a) x then none else some (credit token b x (debit token a x w));
  mint = λ token b x w. some (credit token b x w);
  balance = λ token a w. w token a;
}

moved :
    (p q : Bool) (v x : ℤ)
    → (if q then (if p then v -ℤ x else v) +ℤ x else if p then v -ℤ x else v)
        +ℤ (if p then x else pos 0)
      ≡ v +ℤ (if q then x else pos 0)
moved true true v x = omega int_laws
moved true false v x = omega int_laws
moved false true v x = omega int_laws
moved false false v x = omega int_laws

added : (q : Bool) (v x : ℤ) → (if q then v +ℤ x else v) ≡ v +ℤ (if q then x else pos 0)
added true v x = omega int_laws
added false v x = omega int_laws

ledger_moves :
    (token a b : ℕ) (x : ℤ) (w w' : Balances)
    → ledger.transfer token a b x w ≡ some w'
    → (k c : ℕ) → w' k c +ℤ share token a k c x ≡ w k c +ℤ share token b k c x
ledger_moves token a b x w w' h k c = elim (Bool-cases (ltb_ℤ (w token a) x)) [
  | inl refused ↦ cc (rw refused at h)
  | inr paid ↦
      rw (← some-injective _ _ (rw paid at h))
        (moved ((token == k) && (a == c)) ((token == k) && (b == c)) (w k c) x)
]

ledger_adds :
    (token b : ℕ) (x : ℤ) (w w' : Balances)
    → ledger.mint token b x w ≡ some w'
    → (k c : ℕ) → w' k c ≡ w k c +ℤ share token b k c x
ledger_adds token b x w w' h k c =
    rw (← some-injective _ _ h) (added ((token == k) && (b == c)) (w k c) x)

pub ledger-IsLedger : IsLedger ledger
ledger-IsLedger = record { transfer_moves = ledger_moves; mint_adds = ledger_adds }

pub share_self : (k a : ℕ) (x : ℤ) → share k a k a x ≡ x
share_self k a x = ground arith

pub share_owner : (k a l c : ℕ) (x : ℤ) → a ≢ c → share k a l c x ≡ pos 0
share_owner k a l c x h = ground arith

pub share_token : (k a l c : ℕ) (x : ℤ) → k ≢ l → share k a l c x ≡ pos 0
share_token k a l c x h = ground arith

module _ {W : Type 0} (t : Tokens W) (laws : IsLedger t) (k l me p : ℕ) (other : k ≢ l)
    (foreign : p ≢ me) where
  -- Into the account `me` comes what somebody else pays, and its other tokens stay.
  pub receives :
      (x : ℤ) (w w' : W)
      → t.transfer k p me x w ≡ some w'
      → (t.balance k me w' ≡ t.balance k me w +ℤ x) × (t.balance l me w' ≡ t.balance l me w)
  receives x w w' h =
      let at_k = parts_of_eq (laws.transfer_moves k p me x w w' h k me) in
      let at_l = parts_of_eq (laws.transfer_moves k p me x w w' h l me) in
      let none_out = parts_of_eq (share_owner k p k me x foreign) in
      let all_in = parts_of_eq (share_self k me x) in
      let none_out' = parts_of_eq (share_token k p l me x other) in
      let none_in' = parts_of_eq (share_token k me l me x other) in (omega int_laws, omega int_laws)

  -- Out of the account `me` goes what somebody else gets, and its other tokens stay.
  pub pays :
      (x : ℤ) (w w' : W)
      → t.transfer k me p x w ≡ some w'
      → (t.balance k me w' +ℤ x ≡ t.balance k me w) × (t.balance l me w' ≡ t.balance l me w)
  pays x w w' h =
      let at_k = parts_of_eq (laws.transfer_moves k me p x w w' h k me) in
      let at_l = parts_of_eq (laws.transfer_moves k me p x w w' h l me) in
      let none_in = parts_of_eq (share_owner k p k me x foreign) in
      let all_out = parts_of_eq (share_self k me x) in
      let none_out' = parts_of_eq (share_token k p l me x other) in
      let none_in' = parts_of_eq (share_token k me l me x other) in (omega int_laws, omega int_laws)

module _ {W : Type 0} (t : Tokens W) (laws : IsLedger t) (k me p : ℕ) (foreign : p ≢ me) (x : ℤ)
    (w w' : W) where
  -- What the account `me` has of the token after somebody else paid, or was paid.
  pub receives_one : t.transfer k p me x w ≡ some w' → t.balance k me w' ≡ t.balance k me w +ℤ x
  receives_one h =
      let law = parts_of_eq (laws.transfer_moves k p me x w w' h k me) in
      let none_out = parts_of_eq (share_owner k p k me x foreign) in
      let all_in = parts_of_eq (share_self k me x) in omega int_laws

  pub pays_one : t.transfer k me p x w ≡ some w' → t.balance k me w' ≡ t.balance k me w -ℤ x
  pays_one h =
      let law = parts_of_eq (laws.transfer_moves k me p x w w' h k me) in
      let none_in = parts_of_eq (share_owner k p k me x foreign) in
      let all_out = parts_of_eq (share_self k me x) in omega int_laws
