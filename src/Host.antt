-- ===== src/Host.antt =====
-- What a contract meets when the Soroban host runs it: the outcome of a call, the storage that a
-- call threads, the authorisations that the host checks, and arithmetic with the overflow checks
-- that the release profile of Cargo.toml turns on.
use suban.Base.{
  ℕ, ◌≡◌, refl, ◌<◌, arith, ◌+◌, ◌-◌, ◌*◌, ◌/◌, ◌^◌, ◌==◌, Bool, true, false, not, List, [], ◌∷◌,
  Option, none, some, ltb, leb, if◌then◌else◌,
}
use suban.Int.{ℤ, pos, negsuc, ◌+ℤ◌, ◌-ℤ◌, ◌*ℤ◌, ◌/ℤ◌, ◌==ℤ◌}

-- A call returns a value, returns one of the contract's errors, or panics.
pub data Outcome (E A : Type 0) : Type 0 where
  ok : A → Outcome E A
  err : E → Outcome E A
  panic : Outcome E A

-- A call from the storage `S`. After an error or a panic the host rolls the call back, so only a
-- call that returns has a storage to hand on.
abbrev pub Call : Type 0 → Type 0 → Type 0 → Type 0
Call S E A = S → Outcome E (A × S)

-- What the host tells a contract during one call: the ledger's sequence number and time, the
-- contract's own address, and which addresses have authorised the call.
pub record Env : Type 0 where
  pub sequence : ℕ
  pub timestamp : ℕ
  pub current_contract_address : ℕ
  pub authorized : ℕ → Bool

module _ {S E A : Type 0} where
  abbrev pub pure : A → Call S E A
  pure a s = ok (a, s)

  abbrev pub fail : E → Call S E A
  fail e s = err e

  abbrev pub gets : (S → A) → Call S E A
  gets f s = ok (f s, s)

  abbrev pub unwrap : Option A → Call S E A
  unwrap none s = panic
  unwrap (some a) s = ok (a, s)

  abbrev pub ok_or : Option A → E → Call S E A
  ok_or none e s = err e
  ok_or (some a) e s = ok (a, s)

infixl 5 ◌>>=◌ ◌>>◌
abbrev pub ◌>>=◌ : {S E A B : Type 0} → Call S E A → (A → Call S E B) → Call S E B
◌>>=◌ m f s = elim (m s) [ ok r ↦ f r.0 r.1 | err e ↦ err e | panic ↦ panic ]

abbrev pub ◌>>◌ : {S E A B : Type 0} → Call S E A → Call S E B → Call S E B
m >> k = m >>= λ _. k

module _ {S E : Type 0} where
  abbrev pub modify : (S → S) → Call S E (Unit {0})
  modify f s = ok (tt, f s)

  -- `if c { return Err(e); }`
  abbrev pub fail_if : Bool → E → Call S E (Unit {0})
  fail_if true e s = err e
  fail_if false e s = ok (tt, s)

  -- `if c { panic!(); }`
  abbrev pub panic_if : Bool → Call S E (Unit {0})
  panic_if true s = panic
  panic_if false s = ok (tt, s)

  -- The value of an operation that panics outside its range.
  abbrev pub in_range : {A : Type 0} → Bool → A → Call S E A
  in_range true a s = ok (a, s)
  in_range false a s = panic

  -- `address.require_auth()`
  abbrev pub require_auth : Env → ℕ → Call S E (Unit {0})
  require_auth env a = panic_if (not (env.authorized a))

-- The values of an `i128`.
unfoldable pub fits_i128 : ℤ → Bool
fits_i128 (pos n) = ltb n (2 ^ 127)
fits_i128 (negsuc n) = ltb n (2 ^ 127)

unfoldable pub fits_u32 : ℕ → Bool
fits_u32 n = ltb n (2 ^ 32)

unfoldable pub fits_u64 : ℕ → Bool
fits_u64 n = ltb n (2 ^ 64)

unfoldable pub fits_u128 : ℕ → Bool
fits_u128 n = ltb n (2 ^ 128)

pub fits_u128_lem : (n : ℕ) → n < 2 ^ 128 → fits_u128 n ≡ true
unfolding fits_u128
fits_u128_lem n h = ground arith

pub fits_i128_lem : (n : ℕ) → n < 2 ^ 127 → fits_i128 (pos n) ≡ true
unfolding fits_i128
fits_i128_lem n h = ground arith

module _ {S E : Type 0} where
  abbrev pub checked_i128 : ℤ → Call S E ℤ
  checked_i128 n = in_range (fits_i128 n) n

  abbrev pub add_i128 : ℤ → ℤ → Call S E ℤ
  add_i128 a b = checked_i128 (a +ℤ b)

  abbrev pub sub_i128 : ℤ → ℤ → Call S E ℤ
  sub_i128 a b = checked_i128 (a -ℤ b)

  abbrev pub mul_i128 : ℤ → ℤ → Call S E ℤ
  mul_i128 a b = checked_i128 (a *ℤ b)

  abbrev pub div_i128 : ℤ → ℤ → Call S E ℤ
  div_i128 a b = panic_if (b ==ℤ pos 0) >> checked_i128 (a /ℤ b)

  abbrev pub add_u32 : ℕ → ℕ → Call S E ℕ
  add_u32 a b = in_range (fits_u32 (a + b)) (a + b)

  -- A difference below zero overflows too.
  abbrev pub sub_u32 : ℕ → ℕ → Call S E ℕ
  sub_u32 a b = in_range (leb b a) (a - b)

  abbrev pub add_u64 : ℕ → ℕ → Call S E ℕ
  add_u64 a b = in_range (fits_u64 (a + b)) (a + b)

  abbrev pub add_u128 : ℕ → ℕ → Call S E ℕ
  add_u128 a b = in_range (fits_u128 (a + b)) (a + b)

  abbrev pub mul_u128 : ℕ → ℕ → Call S E ℕ
  mul_u128 a b = in_range (fits_u128 (a * b)) (a * b)

  abbrev pub sub_u128 : ℕ → ℕ → Call S E ℕ
  sub_u128 a b = in_range (leb b a) (a - b)

  abbrev pub div_u128 : ℕ → ℕ → Call S E ℕ
  div_u128 a b = panic_if (b == 0) >> pure (a / b)

-- `as u128` and `as i128` keep the 128 bits of a value.
abbrev pub as_u128 : ℤ → ℕ
as_u128 (pos n) = n
as_u128 (negsuc n) = 2 ^ 128 - 1 - n

abbrev pub as_i128 : ℕ → ℤ
as_i128 n = if ltb n (2 ^ 127) then pos n else negsuc (2 ^ 128 - 1 - n)

-- What a call that returns has done; nothing is said of one that does not.
abbrev pub Returns : {S E A : Type 0} → (A → S → Type 0) → Outcome E (A × S) → Type 0
Returns P (ok (a, s)) = P a s
Returns P (err e) = Unit
Returns P panic = Unit

-- What a call leaves behind: its storage if it returned, and else the storage that it found.
abbrev pub settle : {S E A : Type 0} → S → Outcome E (A × S) → S
settle s (ok (a, s')) = s'
settle s (err e) = s
settle s panic = s

module _ {S E A R : Type 0} (execute : Env → R → Call S E A) where
  -- The storage after a history of calls.
  unfoldable pub history : S → List (Env × R) → S
  history s [] = s
  history s ((env, r) ∷ calls) = history (settle s (execute env r s)) calls

  settle-Returns :
      (P : S → Type 0) (s : S) (o : Outcome E (A × S))
      → P s
      → Returns (λ _ s'. P s') o
      → P (settle s o)
  settle-Returns P s (ok (a, s')) h r = r
  settle-Returns P s (err e) h r = h
  settle-Returns P s panic h r = h

  -- What every returning call preserves holds after every history.
  pub history_lem :
      (P : S → Type 0)
      → ((env : Env) (r : R) (s : S) → P s → Returns (λ _ s'. P s') (execute env r s))
      → (calls : List (Env × R)) (s : S) → P s
      → P (history s calls)
  unfolding history
  history_lem P step [] s h = h
  history_lem P step ((env, r) ∷ calls) s h =
      history_lem P step calls (settle s (execute env r s))
        (settle-Returns P s (execute env r s) h (step env r s h))

-- The rule for a call that goes on with what another returned.
pub bind_rule :
    {S E A B : Type 0} (P : A → S → Type 0) (Q : B → S → Type 0) (m : Outcome E (A × S))
    (f : A → Call S E B)
    → Returns P m
    → ((a : A) (s : S) → P a s → Returns Q (f a s))
    → Returns Q (elim m [ ok r ↦ f r.0 r.1 | err e ↦ err e | panic ↦ panic ])
bind_rule P Q (ok (a, s)) f p k = k a s p
bind_rule P Q (err e) f p k = tt
bind_rule P Q panic f p k = tt

-- The rule of consequence.
pub weaken :
    {S E A : Type 0} (P Q : A → S → Type 0) (o : Outcome E (A × S))
    → Returns P o
    → ((a : A) (s : S) → P a s → Q a s)
    → Returns Q o
weaken P Q (ok (a, s)) p k = k a s p
weaken P Q (err e) p k = tt
weaken P Q panic p k = tt

module _ {S E A : Type 0} (Q : A → S → Type 0) where
  -- What a failing test or a missing authorisation leaves to show.
  pub fail_if_rule :
      (b : Bool) (e : E) (m : Call S E A) (s : S)
      → (b ≡ false → Returns Q (m s))
      → Returns Q ((fail_if b e >> m) s)
  fail_if_rule true e m s k = tt
  fail_if_rule false e m s k = k refl

  pub panic_if_rule :
      (b : Bool) (m : Call S E A) (s : S)
      → (b ≡ false → Returns Q (m s))
      → Returns Q ((panic_if b >> m) s)
  panic_if_rule true m s k = tt
  panic_if_rule false m s k = k refl

  pub require_auth_rule :
      (env : Env) (a : ℕ) (m : Call S E A) (s : S)
      → (env.authorized a ≡ true → Returns Q (m s))
      → Returns Q ((require_auth env a >> m) s)
  require_auth_rule env a m s k = panic_if_rule (not (env.authorized a)) m s (λ h. k (ground arith))

module _ {S E A B : Type 0} (k : Call S E B) {a : A} {s' : S} {r : Outcome E (B × S)} where
  after_outcome :
      (o : Outcome E (A × S))
      → o ≡ ok (a, s')
      → k s' ≡ r
      → elim o [ ok x ↦ k x.1 | err e ↦ err e | panic ↦ panic ] ≡ r
  after_outcome o e f = rw e f

  -- A call that returns, followed by another.
  pub after_ok : (m : Call S E A) (s : S) → m s ≡ ok (a, s') → k s' ≡ r → (m >> k) s ≡ r
  after_ok m s e f = after_outcome (m s) e f

pub both :
    {S E A : Type 0} (P Q : A → S → Type 0) (o : Outcome E (A × S))
    → Returns P o
    → Returns Q o
    → Returns (λ a s. P a s × Q a s) o
both P Q (ok (a, s)) p q = (p, q)
both P Q (err e) p q = tt
both P Q panic p q = tt
