-- ===== src/Escrow/Request.antt =====
-- The requests that a client can send to contracts/escrow/src/lib.rs, and what each of them may do.
use text.Mathlib.Text.{◌==◌ as str_eq}
use Prim.Native.String.{String}
use suban.Base.{
  ℕ, Bool, true, false, ◌≡◌, ◌⊎◌, ◌+◌, ◌<◌, ◌≤◌, arith, List, [], some, none, unwrap_or,
}
use suban.Dict.{insert, nat_eq}
use suban.Int.{ℤ}
use suban.Host.{Env, Returns, both, pure, ◌>>◌}
use suban.Tokens.{Tokens, Chain}
use suban.Hub.Types.{Milestone, EscrowConfig}
use suban.Escrow.Store.{
  Store, Action, is_paused, escrow_in, read_escrow_state, next_escrow_id, write_escrow_state,
  write_escrow_config,
}
use suban.Escrow.Lifecycle
use suban.Escrow.Lifecycle.{is_empty, new_config, new_state, admin_only}
use suban.Escrow.Payout
use suban.Escrow.Steps.{Move, Performs, left}
use suban.Escrow.Moves.{payable, resolution}
use suban.Escrow.Refinement.{
  fund_escrow-Performs, submit_milestone-Performs, approve_milestone-Performs,
  reject_milestone-Performs, release_funds-Performs, refund-Performs, dispute-Performs,
  resolve-Performs,
}

pub data Request : Type 0 where
  initialize : (admin : ℕ) → Request
  create_escrow :
      (funder receiver arbitrator asset : ℕ)
      → List Milestone
      → (fee_bps deadline_ledger : ℕ) → Request
  fund_escrow : (escrow_id : ℕ) → (amount : ℤ) → Request
  submit_milestone approve_milestone reject_milestone : (escrow_id milestone_idx : ℕ) → Request
  release_funds refund : (escrow_id : ℕ) → Request
  dispute : (escrow_id disputer : ℕ) → Request
  resolve : (escrow_id : ℕ) → (outcome : String) → Request
  set_paused : (admin : ℕ) → (paused : Bool) → Request
  set_admin : (admin new_admin : ℕ) → Request

-- The number of escrows, which is the next identifier.
abbrev pub count : Store → ℕ
count s = unwrap_or s.escrow_count 0

-- The storage after a first call of `initialize`.
abbrev pub initialized : ℕ → Store
initialized admin = record {
  admin = some admin;
  paused = some false;
  escrow_state = [];
  escrow_config = [];
  escrow_count = some 0;
}

-- The storage with one more escrow.
abbrev pub opened : EscrowConfig → Store → Store
opened config s = record s {
  escrow_count = some (count s + 1);
  escrow_config = insert (count s) config s.escrow_config;
  escrow_state = insert (count s) (new_state (count s) config) s.escrow_state;
}

-- The administrator signed, and it is the one of the storage.
abbrev pub Governs : Env → ℕ → Store → Type 0
Governs env admin s = (s.admin ≡ some admin) × (env.authorized admin ≡ true)

module _ {W : Type 0} (t : Tokens W) where
  unfoldable pub execute : Env → Request → Action W (Unit {0})
  execute env (initialize admin) = Lifecycle.initialize env admin
  execute env (create_escrow funder receiver arbitrator asset milestones fee_bps deadline_ledger) =
      Lifecycle.create_escrow env funder receiver arbitrator asset milestones fee_bps
        deadline_ledger
      >> pure tt
  execute env (fund_escrow escrow_id amount) = Lifecycle.fund_escrow t env escrow_id amount
  execute env (submit_milestone escrow_id milestone_idx) =
      Lifecycle.submit_milestone env escrow_id milestone_idx
  execute env (approve_milestone escrow_id milestone_idx) =
      Lifecycle.approve_milestone env escrow_id milestone_idx
  execute env (reject_milestone escrow_id milestone_idx) =
      Lifecycle.reject_milestone env escrow_id milestone_idx
  execute env (release_funds escrow_id) = Payout.release_funds t env escrow_id
  execute env (refund escrow_id) = Payout.refund t env escrow_id
  execute env (dispute escrow_id disputer) = Payout.dispute env escrow_id disputer
  execute env (resolve escrow_id outcome) = Payout.resolve t env escrow_id outcome
  execute env (set_paused admin paused) = Lifecycle.set_paused env admin paused
  execute env (set_admin admin new_admin) = Lifecycle.set_admin env admin new_admin

  -- What a request that returns has done.
  abbrev pub Does : Env → Request → Chain Store W → Chain Store W → Type 0
  Does env (initialize admin) c c' =
      (c.store.admin ≡ none)
      × (env.authorized admin ≡ true)
      × (c'.tokens ≡ c.tokens)
      × (c'.store
          ≡ record c.store { admin = some admin; paused = some false; escrow_count = some 0 })
  Does env (create_escrow funder receiver arbitrator asset milestones fee_bps deadline) c c' =
      (is_paused c.store ≡ false)
      × (env.authorized funder ≡ true)
      × (fee_bps ≤ 10_000)
      × (is_empty milestones ≡ false)
      × (env.sequence < deadline)
      × (c'.tokens ≡ c.tokens)
      × (c'.store
          ≡ opened (new_config funder receiver arbitrator asset milestones fee_bps deadline)
              c.store)
  Does env (fund_escrow id x) c c' = Performs t env id (λ _. Move.fund x) c c'
  Does env (submit_milestone id i) c c' = Performs t env id (λ _. Move.submit i) c c'
  Does env (approve_milestone id i) c c' = Performs t env id (λ _. Move.approve i) c c'
  Does env (reject_milestone id i) c c' = Performs t env id (λ _. Move.reject i) c c'
  Does env (release_funds id) c c' = Performs t env id (λ st. Move.release (payable st)) c c'
  Does env (refund id) c c' = Performs t env id (λ st. Move.refund (left st)) c c'
  Does env (dispute id d) c c' = Performs t env id (λ _. Move.dispute d) c c'
  Does env (resolve id outcome) c c' =
      ((str_eq outcome "release" ≡ true) ⊎ (str_eq outcome "refund" ≡ true))
      × Performs t env id (resolution outcome) c c'
  Does env (set_paused admin paused) c c' =
      Governs env admin c.store
      × (c'.tokens ≡ c.tokens)
      × (c'.store ≡ record c.store { paused = some paused })
  Does env (set_admin admin new_admin) c c' =
      Governs env admin c.store
      × (c'.tokens ≡ c.tokens)
      × (c'.store ≡ record c.store { admin = some new_admin })

  outcome-named :
      (env : Env) (id : ℕ) (outcome : String) (c : Chain Store W)
      → Returns
          (λ _ c'. (str_eq outcome "release" ≡ true) ⊎ (str_eq outcome "refund" ≡ true))
          (Payout.resolve t env id outcome c)
  unfolding Payout.resolve escrow_in read_escrow_state
  outcome-named env id outcome c = ground arith

  initialize-Does :
      (env : Env) (admin : ℕ) (c : Chain Store W)
      → Returns (λ _ c'. Does env (initialize admin) c c') (Lifecycle.initialize env admin c)
  unfolding Lifecycle.initialize
  initialize-Does env admin c = ground arith

  create_escrow-Does :
      (env : Env) (funder receiver arbitrator asset : ℕ) (milestones : List Milestone)
      (fee_bps deadline : ℕ) (c : Chain Store W)
      → Returns
          (λ _ c'.
            Does env
              (create_escrow funder receiver arbitrator asset milestones fee_bps deadline)
              c
              c')
          (execute env
            (create_escrow funder receiver arbitrator asset milestones fee_bps deadline)
            c)
  unfolding execute Lifecycle.create_escrow next_escrow_id write_escrow_state write_escrow_config
  create_escrow-Does env funder receiver arbitrator asset milestones fee_bps deadline c =
      ground arith

  set_paused-Does :
      (env : Env) (admin : ℕ) (paused : Bool) (c : Chain Store W)
      → Returns
          (λ _ c'. Does env (set_paused admin paused) c c')
          (Lifecycle.set_paused env admin paused c)
  unfolding Lifecycle.set_paused admin_only
  set_paused-Does env admin paused c = ground arith

  set_admin-Does :
      (env : Env) (admin new_admin : ℕ) (c : Chain Store W)
      → Returns
          (λ _ c'. Does env (set_admin admin new_admin) c c')
          (Lifecycle.set_admin env admin new_admin c)
  unfolding Lifecycle.set_admin admin_only
  set_admin-Does env admin new_admin c = ground arith

  -- Every request that returns has done what the state machine of the escrows says: a step of one
  -- escrow that its status, the signatures and the amounts allow, with the payment that belongs to
  -- it; or one new escrow under the next identifier; or an act of the administrator. Nothing else in
  -- the storage and no other payment has changed.
  pub execute-Does :
      (env : Env) (r : Request) (c : Chain Store W)
      → Returns (λ _ c'. Does env r c c') (execute env r c)
  unfolding execute
  execute-Does env (initialize admin) c = initialize-Does env admin c
  execute-Does env (create_escrow f r a k ms fee d) c = create_escrow-Does env f r a k ms fee d c
  execute-Does env (fund_escrow id x) c = fund_escrow-Performs t env id c x
  execute-Does env (submit_milestone id i) c = submit_milestone-Performs t env id c i
  execute-Does env (approve_milestone id i) c = approve_milestone-Performs t env id c i
  execute-Does env (reject_milestone id i) c = reject_milestone-Performs t env id c i
  execute-Does env (release_funds id) c = release_funds-Performs t env id c
  execute-Does env (refund id) c = refund-Performs t env id c
  execute-Does env (dispute id d) c = dispute-Performs t env id c d
  execute-Does env (resolve id outcome) c =
      both _ _ (Payout.resolve t env id outcome c) (outcome-named env id outcome c)
        (resolve-Performs t env id c outcome)
  execute-Does env (set_paused admin paused) c = set_paused-Does env admin paused c
  execute-Does env (set_admin admin new_admin) c = set_admin-Does env admin new_admin c
