-- ===== src/Dict.antt =====
-- Association lists: the maps under the keys of a contract's storage.
use suban.Base.{
  ℕ, ◌≡◌, refl, ap, ◌↔◌, Bool, true, ◌&&◌, Option, none, some, List, [], ◌∷◌, inl, inr, arith, ◌==◌,
  Bool-cases, if◌then◌else◌,
}
use mathlib.Core.Path.{subst}
use mathlib.Core.Option.{some-injective}
use suban.Int.{ℤ, pos, ◌+ℤ◌, ◌≤ℤ◌, int_laws, parts_of_eq}

-- Keys are compared by a Boolean test.
pub record Eq (K : Type 0) : Type 0 where
  pub beq : K → K → Bool
  pub beq_iff : (a b : K) → (beq a b ≡ true) ↔ (a ≡ b)

pub nat_beq_iff : (a b : ℕ) → ((a == b) ≡ true) ↔ (a ≡ b)
nat_beq_iff a b = (ground arith, ground arith)

abbrev pub nat_beq : ℕ → ℕ → Bool
nat_beq a b = a == b

instance abbrev pub nat_eq : Eq ℕ
nat_eq = record { beq = nat_beq; beq_iff = nat_beq_iff }

abbrev pub pair_beq : ℕ × ℕ → ℕ × ℕ → Bool
pair_beq (a, b) (c, d) = (a == c) && (b == d)

pub pair_beq_iff : (p q : ℕ × ℕ) → (pair_beq p q ≡ true) ↔ (p ≡ q)
pair_beq_iff (a, b) (c, d) = (ground arith, ground arith)

instance abbrev pub pair_eq : Eq (ℕ × ℕ)
pair_eq = record { beq = pair_beq; beq_iff = pair_beq_iff }

abbrev pub Dict : Type 0 → Type 0 → Type 0
Dict K V = List (K × V)

-- The number that a stored value counts for; a missing value counts zero.
abbrev pub value_of : {V : Type 0} → (V → ℤ) → Option V → ℤ
value_of f none = pos 0
value_of f (some v) = f v

abbrev pub AllValues : {K V : Type 0} → (V → Type 0) → Dict K V → Type 0
AllValues P [] = Unit
AllValues P ((j, v) ∷ m) = P v × AllValues P m

module _ {K V : Type 0} ⦃e : Eq K⦄ where
  unfoldable pub lookup : K → Dict K V → Option V
  lookup k [] = none
  lookup k ((j, v) ∷ m) = if e.beq j k then some v else lookup k m

  unfoldable pub insert : K → V → Dict K V → Dict K V
  insert k v [] = (k, v) ∷ []
  insert k v ((j, w) ∷ m) = if e.beq j k then (k, v) ∷ m else (j, w) ∷ insert k v m

  -- The sum of the numbers that the entries count for.
  unfoldable pub sum_by : (V → ℤ) → Dict K V → ℤ
  sum_by f [] = pos 0
  sum_by f ((j, v) ∷ m) = f v +ℤ sum_by f m

  pub lookup-insert :
      (k j : K) (v : V) (m : Dict K V)
      → lookup j (insert k v m) ≡ (if e.beq k j then some v else lookup j m)
  unfolding lookup insert
  lookup-insert k j v [] = refl
  lookup-insert k j v ((i, w) ∷ m) =
      ground (arith, lookup-insert k j v m, e.beq_iff i k, e.beq_iff i j, e.beq_iff k j)

  pub lookup-insert_self : (k : K) (v : V) (m : Dict K V) → lookup k (insert k v m) ≡ some v
  lookup-insert_self k v m = rw (lookup-insert k k v m, (e.beq_iff k k).1 refl)

  -- The last insertion under a key counts.
  pub insert-insert : (k : K) (v w : V) (m : Dict K V) → insert k w (insert k v m) ≡ insert k w m
  unfolding insert
  insert-insert k v w [] = rw ((e.beq_iff k k).1 refl) refl
  insert-insert k v w ((i, x) ∷ m) = elim (Bool-cases (e.beq i k)) [
    | inl same ↦ rw (same, (e.beq_iff k k).1 refl) refl
    | inr other ↦ rw (other, other) (ap (λ m. (i, x) ∷ m) (insert-insert k v w m))
  ]

  -- An insertion replaces what its key counted for by what the new value counts for.
  pub sum_by-insert :
      (f : V → ℤ) (k : K) (v : V) (m : Dict K V)
      → sum_by f (insert k v m) +ℤ value_of f (lookup k m) ≡ sum_by f m +ℤ f v
  unfolding lookup insert sum_by
  sum_by-insert f k v [] = omega int_laws
  sum_by-insert f k v ((i, w) ∷ m) = elim (Bool-cases (e.beq i k)) [
    | inl same ↦ rw same (omega int_laws)
    | inr other ↦ rw other (omega (int_laws, parts_of_eq (sum_by-insert f k v m)))
  ]

  pub insert-AllValues :
      (P : V → Type 0) (k : K) (v : V) (m : Dict K V)
      → AllValues P m
      → P v
      → AllValues P (insert k v m)
  unfolding insert
  insert-AllValues P k v [] h p = (p, tt)
  insert-AllValues P k v ((i, w) ∷ m) h p = elim (Bool-cases (e.beq i k)) [
    | inl same ↦ rw same (p, h.1)
    | inr other ↦ rw other (h.0, insert-AllValues P k v m h.1 p)
  ]

  pub lookup-AllValues :
      (P : V → Type 0) (k : K) (m : Dict K V) {v : V} → AllValues P m → lookup k m ≡ some v → P v
  unfolding lookup
  lookup-AllValues P k [] h found = cc
  lookup-AllValues P k ((i, w) ∷ m) h found = elim (Bool-cases (e.beq i k)) [
    | inl same ↦ subst P (some-injective _ _ (rw same at found)) h.0
    | inr other ↦ lookup-AllValues P k m h.1 (rw other at found)
  ]

  -- Where no entry counts less than zero, one entry counts at most the whole sum.
  pub value_of-le-sum_by :
      (f : V → ℤ) (k : K) (m : Dict K V)
      → AllValues (λ v. pos 0 ≤ℤ f v) m
      → (value_of f (lookup k m) ≤ℤ sum_by f m) × (pos 0 ≤ℤ sum_by f m)
  unfolding lookup sum_by
  value_of-le-sum_by f k [] h = (omega arith, omega arith)
  value_of-le-sum_by f k ((i, w) ∷ m) h =
      let ih = value_of-le-sum_by f k m h.1 in
      elim (Bool-cases (e.beq i k)) [
        | inl same ↦ rw same (omega (int_laws, ih))
        | inr other ↦ rw other (omega (int_laws, ih))
      ]
