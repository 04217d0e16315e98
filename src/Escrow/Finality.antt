-- ===== src/Escrow/Finality.antt =====
-- How the escrows of contracts/escrow/src/lib.rs change over time.
use suban.Base.{
  ℕ, Bool, true, false, ◌≡◌, ◌⊎◌, arith, List, some, refl, inl, inr, Bool-cases, ◌==◌,
  if◌then◌else◌,
}
use mathlib.Core.Option.{some-injective}
use suban.Int.{◌≤ℤ◌, int_laws}
use suban.Dict.{lookup, nat_eq, lookup-insert}
use suban.Host.{Env, weaken, history, history_lem}
use suban.Tokens.{Tokens, Chain}
use suban.Hub.Types.{EscrowConfig, EscrowState, EscrowStatus, same_escrow}
use suban.Escrow.Lifecycle.{new_state}
use suban.Escrow.Store.{Store}
use suban.Escrow.Steps.{Move, Allows, after, replaced}
use suban.Escrow.Request.{Request, execute, count, opened}
use suban.Escrow.Transitions.{Step}
use suban.Escrow.Books.{IsInOrder}
use suban.Escrow.History.{execute-steps}

-- Completed and refunded escrows are closed.
abbrev pub is_closed : EscrowState → Bool
is_closed st =
    if same_escrow st.status EscrowStatus.completed
    then true
    else same_escrow st.status EscrowStatus.refunded

-- What may become of an escrow: its terms stay, its totals do not fall, and nothing of a closed
-- one changes.
pub record Grows (st st' : EscrowState) : Type 0 where
  pub same_config : st'.config ≡ st.config
  pub deposits_grow : st.total_deposited ≤ℤ st'.total_deposited
  pub releases_grow : st.total_released ≤ℤ st'.total_released
  pub closed_stays : (is_closed st ≡ false) ⊎ (st' ≡ st)

Grows-refl : (st : EscrowState) → Grows st st
Grows-refl st = record {
  same_config = refl;
  deposits_grow = omega arith;
  releases_grow = omega arith;
  closed_stays = inr refl;
}

Grows-trans : (a b c : EscrowState) → Grows a b → Grows b c → Grows a c
Grows-trans a b c g h = record {
  same_config = rw (h.same_config) g.same_config;
  deposits_grow = let x = g.deposits_grow in let y = h.deposits_grow in omega arith;
  releases_grow = let x = g.releases_grow in let y = h.releases_grow in omega arith;
  closed_stays = elim g.closed_stays [
    | inl still ↦ inl still
    | inr same ↦ elim h.closed_stays [ inl still ↦ inl (rw same at still) | inr same' ↦ inr (cc) ]
  ];
}

-- What is allowed is done to an escrow that is not closed.
allowed-open :
    (env : Env) (move : Move) (st : EscrowState) → Allows env move st → is_closed st ≡ false
allowed-open env (Move.fund x) st a = rw a.0 refl
allowed-open env (Move.submit i) st a = rw a.0 refl
allowed-open env (Move.approve i) st a = rw a.0 refl
allowed-open env (Move.reject i) st a = rw a.0 refl
allowed-open env (Move.release x) st a = rw a.0 refl
allowed-open env (Move.refund x) st a = rw a.0 refl
allowed-open env (Move.dispute d) st a = rw a.0 refl
allowed-open env (Move.resolve_to_receiver x) st a = rw a.0 refl
allowed-open env (Move.resolve_to_funder x) st a = rw a.0 refl

-- Terms and totals that grow, whatever the status.
abbrev Grown : EscrowState → EscrowState → Type 0
Grown st st' =
    (st'.config ≡ st.config)
    × (st.total_deposited ≤ℤ st'.total_deposited)
    × (st.total_released ≤ℤ st'.total_released)

after-Grown :
    (env : Env) (move : Move) (st : EscrowState) → Allows env move st → Grown st (after move st)
after-Grown env (Move.fund x) st a = (refl, omega (int_laws, a), omega arith)
after-Grown env (Move.submit i) st a = (refl, omega arith, omega arith)
after-Grown env (Move.approve i) st a = (refl, omega arith, omega arith)
after-Grown env (Move.reject i) st a = (refl, omega arith, omega arith)
after-Grown env (Move.release x) st a = (refl, omega arith, omega (int_laws, a))
after-Grown env (Move.refund x) st a = (refl, omega arith, omega (int_laws, a))
after-Grown env (Move.dispute d) st a = (refl, omega arith, omega arith)
after-Grown env (Move.resolve_to_receiver x) st a = (refl, omega arith, omega (int_laws, a))
after-Grown env (Move.resolve_to_funder x) st a = (refl, omega arith, omega (int_laws, a))

after-Grows :
    (env : Env) (move : Move) (st : EscrowState) → Allows env move st → Grows st (after move st)
after-Grows env move st a =
    let g = after-Grown env move st a in
    record {
      same_config = g.0;
      deposits_grow = g.1;
      releases_grow = g.2;
      closed_stays = inl (allowed-open env move st a);
    }

-- The escrow `id` is there, and grew from `st`.
abbrev pub GrownFrom : ℕ → EscrowState → Store → Type 0
GrownFrom id st s = (st' : EscrowState) × (lookup id s.escrow_state ≡ some st') × Grows st st'

opened-GrownFrom :
    (id : ℕ) (st : EscrowState) (config : EscrowConfig) (s : Store)
    → IsInOrder s
    → GrownFrom id st s
    → GrownFrom id st (opened config s)
opened-GrownFrom id st config s v (st', found, g) =
    let absent = v.fresh id in
    let read = lookup-insert (count s) id (new_state (count s) config) s.escrow_state in
    (st', ground arith, g)

replaced-GrownFrom :
    (env : Env) (id j : ℕ) (st old : EscrowState) (move : Move) (s : Store)
    → lookup j s.escrow_state ≡ some old
    → Allows env move old
    → GrownFrom id st s
    → GrownFrom id st (replaced j (after move old) s)
replaced-GrownFrom env id j st old move s at_j a (st', found, g) = elim (Bool-cases (j == id)) [
  | inl same ↦
      let known : st' ≡ old = some-injective _ _ (ground arith) in
      (
        after move old,
        rw (lookup-insert j id (after move old) s.escrow_state, same) refl,
        Grows-trans st old (after move old) (rw known at g) (after-Grows env move old a),
      )
  | inr other ↦ (st', rw (lookup-insert j id (after move old) s.escrow_state, other) found, g)
]

module _ {W : Type 0} (t : Tokens W) (id : ℕ) (st : EscrowState) where
  Step-GrownFrom :
      (env : Env) (c c' : Chain Store W)
      → IsInOrder c.store
      → GrownFrom id st c.store
      → Step t env c c'
      → GrownFrom id st c'.store
  Step-GrownFrom env c c' v g (Step.opens config made same) =
      rw made (opened-GrownFrom id st config c.store v g)
  Step-GrownFrom env c c' v g (Step.moves j move old found allowed made paid) =
      rw made (replaced-GrownFrom env id j st old move c.store found allowed g)
  Step-GrownFrom env c c' v g (Step.governs escrows counter has same) = rw escrows g

  -- After every history of calls on sound books, an escrow is still there, with the terms that it was
  -- created with; its deposits and its releases have not fallen; and if it was completed or refunded
  -- already, nothing in it has changed, whatever was called.
  pub history-GrownFrom :
      (c : Chain Store W) (calls : List (Env × Request))
      → IsInOrder c.store
      → lookup id c.store.escrow_state ≡ some st
      → GrownFrom id st (history (execute t) c calls).store
  history-GrownFrom c calls v found =
      (history_lem (execute t) (λ c. IsInOrder c.store × GrownFrom id st c.store)
        (λ env r c p.
          weaken _ _ (execute t env r c) (execute-steps t env r c p.0)
            (λ _ c' q. (q.0, Step-GrownFrom env c c' p.0 p.1 q.1)))
        calls c (v, (st, found, Grows-refl st))).1
