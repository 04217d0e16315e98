-- ===== src/Escrow/Transitions.antt =====
-- The steps of contracts/escrow/src/lib.rs, whatever request caused them.
use suban.Base.{ℕ, true, ◌≡◌, arith, some, is_some, refl}
use suban.Dict.{lookup, nat_eq}
use suban.Host.{Env}
use suban.Tokens.{Tokens, Chain}
use suban.Hub.Types.{EscrowConfig, EscrowState}
use suban.Escrow.Store.{Store}
use suban.Escrow.Lifecycle.{new_config}
use suban.Escrow.Steps.{Move, Allows, after, replaced, Pays, Performs, left}
use suban.Escrow.Moves.{payable, resolution}
use suban.Escrow.Request.{Request, Does, opened}

module _ {W : Type 0} (t : Tokens W) where
  -- The steps of the whole contract, whatever request caused them: a new escrow, a move of an
  -- escrow, or a change of nothing but the administration.
  pub data Step (env : Env) (c c' : Chain Store W) : Type 0 where
    opens :
        (config : EscrowConfig)
        → c'.store ≡ opened config c.store
        → c'.tokens ≡ c.tokens
        → Step env c c'
    moves :
        (id : ℕ) (move : Move) (st : EscrowState)
        → lookup id c.store.escrow_state ≡ some st
        → Allows env move st
        → c'.store ≡ replaced id (after move st) c.store
        → Pays t env move st.config c.tokens c'.tokens
        → Step env c c'
    governs :
        c'.store.escrow_state ≡ c.store.escrow_state
        → c'.store.escrow_count ≡ c.store.escrow_count
        → is_some c'.store.admin ≡ true
        → c'.tokens ≡ c.tokens
        → Step env c c'

  Performs-Step :
      (env : Env) (id : ℕ) (move : EscrowState → Move) (c c' : Chain Store W)
      → Performs t env id move c c'
      → Step env c c'
  Performs-Step env id move c c' (st, found, running, made, allowed, paid) =
      Step.moves id (move st) st found allowed made paid

  pub Does-Step :
      (env : Env) (r : Request) (c c' : Chain Store W)
      → is_some c.store.admin ≡ true
      → Does t env r c c'
      → Step env c c'
  Does-Step env (Request.initialize admin) c c' has d = ground (arith, d)
  Does-Step env (Request.create_escrow f r a k ms fee deadline) c c' has d =
      Step.opens (new_config f r a k ms fee deadline) d.6 d.5
  Does-Step env (Request.fund_escrow id x) c c' has d =
      Performs-Step env id (λ _. Move.fund x) c c' d
  Does-Step env (Request.submit_milestone id i) c c' has d =
      Performs-Step env id (λ _. Move.submit i) c c' d
  Does-Step env (Request.approve_milestone id i) c c' has d =
      Performs-Step env id (λ _. Move.approve i) c c' d
  Does-Step env (Request.reject_milestone id i) c c' has d =
      Performs-Step env id (λ _. Move.reject i) c c' d
  Does-Step env (Request.release_funds id) c c' has d =
      Performs-Step env id (λ st. Move.release (payable st)) c c' d
  Does-Step env (Request.refund id) c c' has d =
      Performs-Step env id (λ st. Move.refund (left st)) c c' d
  Does-Step env (Request.dispute id x) c c' has d =
      Performs-Step env id (λ _. Move.dispute x) c c' d
  Does-Step env (Request.resolve id outcome) c c' has d =
      Performs-Step env id (resolution outcome) c c' d.1
  Does-Step env (Request.set_paused admin paused) c c' has d =
      Step.governs (rw d.2 refl) (rw d.2 refl) (rw d.2 has) d.1
  Does-Step env (Request.set_admin admin new_admin) c c' has d =
      Step.governs (rw d.2 refl) (rw d.2 refl) (rw d.2 refl) d.1
