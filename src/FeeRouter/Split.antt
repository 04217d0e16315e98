-- ===== src/FeeRouter/Split.antt =====
-- The payments of `route_fees` of contracts/fee-router/src/lib.rs, up to the assertion that the whole
-- fee was routed.
use suban.Base.{
  ℕ, ◌≡◌, arith, refl, sym, ◌∙◌, Bool, true, false, Bool-cases, inl, inr, not, some, ◌==◌,
  if◌then◌else◌,
}
use suban.Int.{ℤ, pos, ◌+ℤ◌, ◌≤ℤ◌, ltb_ℤ, ◌==ℤ◌, int_laws, parts_of_eq}
use suban.Host.{panic_if, Returns, bind_rule, weaken, ◌>>=◌}
use suban.Tokens.{Tokens, Chain, IsLedger, share}
use suban.FeeRouter.Router.{Store, Action, FeeError, route_part, pay_parts}

-- The amount `x` for the account `a` if it is the account `p`.
abbrev pub due_to : (p a : ℕ) → ℤ → ℤ
due_to p a x = if p == a then x else pos 0

due_to-add : (p a : ℕ) (x y : ℤ) → due_to p a (x +ℤ y) ≡ due_to p a x +ℤ due_to p a y
due_to-add p a x y = elim (Bool-cases (p == a)) [
  | inl same ↦ rw same refl
  | inr other ↦ rw other (omega int_laws)
]

due_to_zero : (p a : ℕ) → due_to p a (pos 0) ≡ pos 0
due_to_zero p a = ground arith

share-due_to : (k p a : ℕ) (x : ℤ) → share k p k a x ≡ due_to p a x
share-due_to k p a x = ground arith

==ℤ→eq : (x y : ℤ) → (x ==ℤ y) ≡ true → x ≡ y
==ℤ→eq x y h = ground arith

summed :
    (r1 r2 r3 r4 x1 x2 x3 x4 : ℤ)
    → r1 ≡ pos 0 +ℤ x1
    → r2 ≡ r1 +ℤ x2
    → r3 ≡ r2 +ℤ x3
    → r4 ≡ r3 +ℤ x4
    → r4 ≡ x1 +ℤ x2 +ℤ x3 +ℤ x4
summed r1 r2 r3 r4 x1 x2 x3 x4 e1 e2 e3 e4 =
    omega (int_laws, parts_of_eq e1, parts_of_eq e2, parts_of_eq e3, parts_of_eq e4)

-- The part of an amount that is paid: nothing of one that is not above zero.
abbrev pub paid : ℤ → ℤ
paid x = if ltb_ℤ (pos 0) x then x else pos 0

pub paid_bounds : (x : ℤ) → (pos 0 ≤ℤ paid x) × (x ≤ℤ paid x)
paid_bounds x = ground arith

pub paid-nonneg : (x : ℤ) → paid x ≡ x → pos 0 ≤ℤ x
paid-nonneg x e = let b = paid_bounds x in let p = parts_of_eq e in omega arith

module _ {W : Type 0} (t : Tokens W) (laws : IsLedger t) (token source a : ℕ) where
  -- The balance of the account `a`.
  abbrev pub held : Chain Store W → ℤ
  held c = t.balance token a c.tokens

  -- From `c` to `c'` the source has paid `out` in total, of which `into` went to the account `a`.
  abbrev pub Moved : (out into : ℤ) → Chain Store W → Chain Store W → Type 0
  Moved out into c c' = (held c' +ℤ due_to source a out ≡ held c +ℤ into) × (c'.store ≡ c.store)

  skipped-part :
      (dest : ℕ) (x routed : ℤ) (c : Chain Store W)
      → Returns
          (λ r c'. (r ≡ routed +ℤ pos 0) × Moved (pos 0) (due_to dest a (pos 0)) c c')
          (route_part t false token source dest x routed c)
  unfolding route_part
  skipped-part dest x routed c =
      let s = parts_of_eq (due_to_zero source a) in
      let d = parts_of_eq (due_to_zero dest a) in (omega int_laws, (omega (int_laws, s, d), refl))

  pays-part :
      (dest : ℕ) (x routed : ℤ) (c : Chain Store W)
      → Returns
          (λ r c'.
            (r ≡ routed +ℤ x)
            × (t.transfer token source dest x c.tokens ≡ some c'.tokens)
            × (c'.store ≡ c.store))
          (route_part t true token source dest x routed c)
  unfolding route_part
  pays-part dest x routed c = ground arith

  part-Moved :
      (b : Bool) (dest : ℕ) (x routed : ℤ) (c : Chain Store W)
      → Returns
          (λ r c'.
            (r ≡ routed +ℤ (if b then x else pos 0))
            × Moved (if b then x else pos 0) (due_to dest a (if b then x else pos 0)) c c')
          (route_part t b token source dest x routed c)
  part-Moved true dest x routed c =
      weaken _ _ (route_part t true token source dest x routed c) (pays-part dest x routed c)
        (λ r c' p.
          let s = parts_of_eq (share-due_to token source a x) in
          let d = parts_of_eq (share-due_to token dest a x) in
          let l =
            parts_of_eq (laws.transfer_moves token source dest x c.tokens c'.tokens p.1 token a) in
          let moved : held c' +ℤ due_to source a x ≡ held c +ℤ due_to dest a x =
            omega (int_laws, s, d, l) in
          (p.0, (moved, p.2)))
  part-Moved false dest x routed c = skipped-part dest x routed c

  route_part-Moved :
      (dest : ℕ) (x routed : ℤ) (c : Chain Store W)
      → Returns
          (λ r c'. (r ≡ routed +ℤ paid x) × Moved (paid x) (due_to dest a (paid x)) c c')
          (route_part t (ltb_ℤ (pos 0) x) token source dest x routed c)
  route_part-Moved dest x routed c = part-Moved (ltb_ℤ (pos 0) x) dest x routed c

  -- What the account gets of the four parts.
  abbrev pub received :
      (lp_dest protocol_dest backstop_dest platform_dest : ℕ)
      → (lp protocol backstop platform : ℤ) → ℤ
  received lp_dest protocol_dest backstop_dest platform_dest lp protocol backstop platform =
      due_to lp_dest a lp
      +ℤ due_to protocol_dest a protocol
      +ℤ due_to backstop_dest a backstop
      +ℤ due_to platform_dest a platform

  joined :
      (c0 c1 c2 : Chain Store W) (x y p q : ℤ)
      → Moved x p c0 c1
      → Moved y q c1 c2
      → Moved (x +ℤ y) (p +ℤ q) c0 c2
  joined c0 c1 c2 x y p q m n =
      let sum = parts_of_eq (due_to-add source a x y) in
      let first = parts_of_eq m.0 in
      let second = parts_of_eq n.0 in (omega (int_laws, sum, first, second), cc)

  -- The whole fee left the source, in the parts that are above zero.
  abbrev pub Routed :
      (d1 d2 d3 d4 : ℕ) → (total x1 x2 x3 x4 : ℤ) → Chain Store W → Chain Store W → Type 0
  Routed d1 d2 d3 d4 total x1 x2 x3 x4 c c' =
      (total ≡ paid x1 +ℤ paid x2 +ℤ paid x3 +ℤ paid x4)
      × Moved total (received d1 d2 d3 d4 (paid x1) (paid x2) (paid x3) (paid x4)) c c'

  -- The assertion holds only of the whole fee.
  checks-Routed :
      (d1 d2 d3 d4 : ℕ) (total x1 x2 x3 x4 r : ℤ) (c c' : Chain Store W)
      → r ≡ paid x1 +ℤ paid x2 +ℤ paid x3 +ℤ paid x4
      → Moved
          (paid x1 +ℤ paid x2 +ℤ paid x3 +ℤ paid x4)
          (received d1 d2 d3 d4 (paid x1) (paid x2) (paid x3) (paid x4))
          c
          c'
      → Returns
          (λ _ c''. Routed d1 d2 d3 d4 total x1 x2 x3 x4 c c'')
          (panic_if {E = FeeError} (not (r ==ℤ total)) c')
  checks-Routed d1 d2 d3 d4 total x1 x2 x3 x4 r c c' sum moved = elim (Bool-cases (r ==ℤ total)) [
    | inl equal ↦
        let whole : r ≡ total = ==ℤ→eq r total equal in
        rw equal (sym whole ∙ sum, rw (sym whole ∙ sum) moved)
    | inr unequal ↦ rw unequal tt
  ]

  -- The payments together.
  pub pay_parts-Moved :
      (d1 d2 d3 d4 : ℕ) (total x1 x2 x3 x4 : ℤ) (c : Chain Store W)
      → Returns
          (λ _ c'. Routed d1 d2 d3 d4 total x1 x2 x3 x4 c c')
          (pay_parts t token source d1 d2 d3 d4 total x1 x2 x3 x4 c)
  unfolding pay_parts
  pay_parts-Moved d1 d2 d3 d4 total x1 x2 x3 x4 c =
      let Q : Unit {0} → Chain Store W → Type 0 =
        λ _ c'. Routed d1 d2 d3 d4 total x1 x2 x3 x4 c c' in
      let checks : ℤ → Action W (Unit {0}) = λ r. panic_if (not (r ==ℤ total)) in
      let fourth : ℤ → Action W (Unit {0}) =
        λ r. route_part t (ltb_ℤ (pos 0) x4) token source d4 x4 r >>= checks in
      let third : ℤ → Action W (Unit {0}) =
        λ r. route_part t (ltb_ℤ (pos 0) x3) token source d3 x3 r >>= fourth in
      let second : ℤ → Action W (Unit {0}) =
        λ r. route_part t (ltb_ℤ (pos 0) x2) token source d2 x2 r >>= third in
      bind_rule _ Q (route_part t (ltb_ℤ (pos 0) x1) token source d1 x1 (pos 0) c) second
        (route_part-Moved d1 x1 (pos 0) c)
        (λ r1 c1 m1.
          bind_rule _ Q (route_part t (ltb_ℤ (pos 0) x2) token source d2 x2 r1 c1) third
            (route_part-Moved d2 x2 r1 c1)
            (λ r2 c2 m2.
              bind_rule _ Q (route_part t (ltb_ℤ (pos 0) x3) token source d3 x3 r2 c2) fourth
                (route_part-Moved d3 x3 r2 c2)
                (λ r3 c3 m3.
                  bind_rule _ Q (route_part t (ltb_ℤ (pos 0) x4) token source d4 x4 r3 c3) checks
                    (route_part-Moved d4 x4 r3 c3)
                    (λ r4 c4 m4.
                      let one = joined c c1 c2 _ _ _ _ m1.1 m2.1 in
                      let two = joined c c2 c3 _ _ _ _ one m3.1 in
                      let all = joined c c3 c4 _ _ _ _ two m4.1 in
                      checks-Routed d1 d2 d3 d4 total x1 x2 x3 x4 r4 c c4
                        (summed r1 r2 r3 r4 (paid x1) (paid x2) (paid x3) (paid x4) m1.0 m2.0 m3.0
                          m4.0)
                        all))))
