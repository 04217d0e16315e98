-- ===== src/FeeRouter/Routes.antt =====
-- `route_fees` of contracts/fee-router/src/lib.rs, and the accounts that it pays.
use Prim.Native.String.{String}
use suban.Base.{ℕ, ◌≡◌, arith, refl, ◌∙◌, ap, inl, inr, none, some, Option-cases}
use suban.Int.{ℤ, pos, ◌+ℤ◌, ◌-ℤ◌, ◌*ℤ◌, ◌/ℤ◌, ◌≤ℤ◌, int_laws, parts_of_eq}
use suban.Host.{Env, Returns, weaken}
use suban.Tokens.{Tokens, Chain, IsLedger, share}
use suban.Hub.Types.{FeeConfig}
use suban.FeeRouter.Router.{Store, get_fee_config, part_of, route_fees}
use suban.FeeRouter.Split.{
  due_to, paid, paid_bounds, paid-nonneg, received, Routed, pay_parts-Moved,
}

-- No part of a routed fee was below zero.
all_paid :
    (total x1 x2 x3 : ℤ)
    → total ≡ paid x1 +ℤ paid x2 +ℤ paid x3 +ℤ paid (total -ℤ x1 -ℤ x2 -ℤ x3)
    → (paid x1 ≡ x1)
      × (paid x2 ≡ x2)
      × (paid x3 ≡ x3)
      × (paid (total -ℤ x1 -ℤ x2 -ℤ x3) ≡ total -ℤ x1 -ℤ x2 -ℤ x3)
all_paid total x1 x2 x3 e =
    let x4 = total -ℤ x1 -ℤ x2 -ℤ x3 in
    let b1 = paid_bounds x1 in
    let b2 = paid_bounds x2 in
    let b3 = paid_bounds x3 in
    let b4 = paid_bounds x4 in
    let sum = parts_of_eq e in
    (
      omega (int_laws, b1, b2, b3, b4, sum),
      omega (int_laws, b1, b2, b3, b4, sum),
      omega (int_laws, b1, b2, b3, b4, sum),
      omega (int_laws, b1, b2, b3, b4, sum),
    )

module _ {W : Type 0} (t : Tokens W) (laws : IsLedger t) (token source a : ℕ) where
  -- `total_fee * share as i128 / 10000`
  abbrev pub part : ℤ → ℕ → ℤ
  part total share = total *ℤ pos share /ℤ pos 10_000

  abbrev pub platform_part : ℤ → FeeConfig → ℤ
  platform_part total g =
      total -ℤ part total g.lp_share -ℤ part total g.protocol_share -ℤ part total g.backstop_share

  route-found :
      (env : Env) (fee_type : String) (total : ℤ) (d1 d2 d3 d4 : ℕ) (g : FeeConfig)
      (c : Chain Store W)
      → get_fee_config fee_type c.store.fee_config ≡ some g
      → Returns
          (λ _ c'.
            Routed t laws token source a d1 d2 d3 d4 total
              (part total g.lp_share)
              (part total g.protocol_share)
              (part total g.backstop_share)
              (platform_part total g)
              c
              c')
          (route_fees t env source token fee_type total d1 d2 d3 d4 c)
  unfolding route_fees part_of
  route-found env fee_type total d1 d2 d3 d4 g c found = ground (
    arith,
    found,
    pay_parts-Moved t laws token source a d1 d2 d3 d4 total (part total g.lp_share)
        (part total g.protocol_share) (part total g.backstop_share) (platform_part total g) c,
  )

  route-absent :
      (env : Env) (fee_type : String) (total : ℤ) (d1 d2 d3 d4 : ℕ) (c : Chain Store W)
      → get_fee_config fee_type c.store.fee_config ≡ none
      → Returns (λ _ c'. ⊥) (route_fees t env source token fee_type total d1 d2 d3 d4 c)
  unfolding route_fees
  route-absent env fee_type total d1 d2 d3 d4 c e = ground arith

  -- What a routed fee does to the account: it gets the truncated parts that it is a destination of, and
  -- the platform the remainder; and if it is the source, it pays the whole fee.
  abbrev pub Routes : (d1 d2 d3 d4 : ℕ) → ℤ → FeeConfig → Chain Store W → Chain Store W → Type 0
  Routes d1 d2 d3 d4 total g c c' =
      (pos 0 ≤ℤ part total g.lp_share)
      × (pos 0 ≤ℤ part total g.protocol_share)
      × (pos 0 ≤ℤ part total g.backstop_share)
      × (pos 0 ≤ℤ platform_part total g)
      × (t.balance token a c'.tokens +ℤ due_to source a total
          ≡ t.balance token a c.tokens
            +ℤ received t laws token source a d1 d2 d3 d4 (part total g.lp_share)
                (part total g.protocol_share) (part total g.backstop_share) (platform_part total g))
      × (c'.store ≡ c.store)

  received-same :
      (d1 d2 d3 d4 : ℕ) (y1 y2 y3 y4 x1 x2 x3 x4 : ℤ)
      → y1 ≡ x1
      → y2 ≡ x2
      → y3 ≡ x3
      → y4 ≡ x4
      → received t laws token source a d1 d2 d3 d4 y1 y2 y3 y4
        ≡ received t laws token source a d1 d2 d3 d4 x1 x2 x3 x4
  received-same d1 d2 d3 d4 y1 y2 y3 y4 x1 x2 x3 x4 e1 e2 e3 e4 = rw (e1, e2, e3, e4) refl

  Routed-Routes :
      (d1 d2 d3 d4 : ℕ) (total : ℤ) (g : FeeConfig) (c c' : Chain Store W)
      → Routed t laws token source a d1 d2 d3 d4 total
          (part total g.lp_share)
          (part total g.protocol_share)
          (part total g.backstop_share)
          (platform_part total g)
          c
          c'
      → Routes d1 d2 d3 d4 total g c c'
  Routed-Routes d1 d2 d3 d4 total g c c' r =
      let p =
        all_paid total (part total g.lp_share) (part total g.protocol_share)
          (part total g.backstop_share) r.0 in
      let same =
        received-same d1 d2 d3 d4 _ _ _ _ (part total g.lp_share) (part total g.protocol_share)
          (part total g.backstop_share) (platform_part total g) p.0 p.1 p.2 p.3 in
      (
        paid-nonneg _ p.0,
        paid-nonneg _ p.1,
        paid-nonneg _ p.2,
        paid-nonneg _ p.3,
        r.1.0 ∙ ap (λ z. t.balance token a c.tokens +ℤ z) same,
        r.1.1,
      )

  -- Behind tokens that keep SEP-41's books: `route_fees` returns only for a configured fee type, and
  -- only if no part is below zero. Then for every account, the source and the four destinations among
  -- them: it gets the part of each destination that it is, `total * share / 10000` rounded down for the first three and what
  -- remains for the platform; and the source pays the whole fee, no less. The storage stays.
  pub route_fees-Routes :
      (env : Env) (fee_type : String) (total : ℤ) (d1 d2 d3 d4 : ℕ) (c : Chain Store W)
      → Returns
          (λ _ c'.
            (g : FeeConfig) × (get_fee_config fee_type c.store.fee_config ≡ some g)
            × Routes d1 d2 d3 d4 total g c c')
          (route_fees t env source token fee_type total d1 d2 d3 d4 c)
  route_fees-Routes env fee_type total d1 d2 d3 d4 c =
      let o = route_fees t env source token fee_type total d1 d2 d3 d4 c in
      elim (Option-cases (get_fee_config fee_type c.store.fee_config)) [
        | inl e ↦
            weaken (λ _ c'. ⊥) _ o (route-absent env fee_type total d1 d2 d3 d4 c e)
              (λ a c' h. absurd h)
        | inr (g, e) ↦
            weaken _ _ o (route-found env fee_type total d1 d2 d3 d4 g c e)
              (λ _ c' r. (g, e, Routed-Routes d1 d2 d3 d4 total g c c' r))
      ]
