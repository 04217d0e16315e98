-- ===== src/Backstop/Claims.antt =====
-- Claims in contracts/backstop/src/lib.rs: when they are paid, and what they change.
use suban.Base.{
  ℕ, ◌+◌, ◌≤◌, ◌≡◌, refl, arith, Bool, true, false, none, some, [], ◌∷◌, inl, inr, unwrap_or,
  Option-cases,
}
use suban.Int.{ℤ, pos, ◌-ℤ◌, ◌*ℤ◌, ◌/ℤ◌, ◌≤ℤ◌, ◌<ℤ◌, ltb_ℤ}
use suban.Dict.{Dict, lookup, insert, nat_eq}
use suban.Host.{Env, Returns, weaken, err}
use suban.Tokens.{Tokens, Chain}
use suban.Backstop.Module.{
  Store, ClaimRequest, claim_pending, remove_request, read_total_shares, read_total_deposits,
  read_balance, read_claim_delay, read_shares, read_asset, require_not_paused, payout_for,
  pay_claim, claim,
}

lookup-remove_request :
    (p : ℕ) (requests : Dict ℕ ClaimRequest) → lookup p (remove_request p requests) ≡ none
unfolding lookup remove_request
lookup-remove_request p [] = refl
lookup-remove_request p ((q, r) ∷ requests) = ground (arith, lookup-remove_request p requests)

-- The storage after a claim of `n` shares that pays `y`.
abbrev pub claimed : Store → (p : ℕ) → (n y : ℤ) → Store
claimed s p n y = record s {
  claim_requests = remove_request p s.claim_requests;
  depositor_shares = insert p (read_shares s p -ℤ n) s.depositor_shares;
  total_shares = some (read_total_shares s -ℤ n);
  total_deposits = some (read_total_deposits s -ℤ y);
  backstop_balance = some (read_balance s -ℤ y);
}

module _ {W : Type 0} (t : Tokens W) (env : Env) (c : Chain Store W) where
  abbrev s : Store
  s = c.store

  payout_for-share :
      (n b total : ℤ) (some_shares : Bool)
      → Returns
          (λ y c'. (c' ≡ c) × (pos 0 <ℤ y → y ≡ n *ℤ b /ℤ total))
          (payout_for n b total some_shares c)
  unfolding payout_for
  payout_for-share n b total false = (refl, λ h. absurd (omega (arith, h)))
  payout_for-share n b total true = ground arith

  pay_claim-paid :
      (p : ℕ) (n : ℤ)
      → Returns
          (λ y c'.
            (n ≤ℤ read_shares s p)
            × (pos 0 <ℤ y)
            × (y ≡ n *ℤ read_balance s /ℤ read_total_shares s)
            × (c'.store ≡ record s {
              depositor_shares = insert p (read_shares s p -ℤ n) s.depositor_shares;
              total_shares = some (read_total_shares s -ℤ n);
              total_deposits = some (read_total_deposits s -ℤ y);
              backstop_balance = some (read_balance s -ℤ y);
            })
            × (t.transfer (read_asset env s) env.current_contract_address p y c.tokens
                ≡ some c'.tokens))
          (pay_claim t env p n c)
  unfolding pay_claim
  pay_claim-paid p n =
      let total = read_total_shares s in
      ground (arith, payout_for-share n (read_balance s) total (ltb_ℤ (pos 0) total))

-- A request of the depositor is due: `claim_delay` ledgers have passed since it was made.
abbrev pub IsDue : Env → Store → ℕ → Type 0
IsDue env s p =
    (r : ClaimRequest) × (lookup p s.claim_requests ≡ some r)
    × (r.requested_at + read_claim_delay s ≤ env.sequence)

module _ {W : Type 0} (t : Tokens W) (env : Env) (c : Chain Store W) where
  -- What a claim that pays `y` has asked for, has written and has moved.
  abbrev pub Paid : (p : ℕ) → (n y : ℤ) → Chain Store W → Type 0
  Paid p n y c' =
      (env.authorized p ≡ true)
      × (unwrap_or c.store.paused_flag false ≡ false)
      × (n ≤ℤ read_shares c.store p)
      × (pos 0 <ℤ y)
      × (y ≡ n *ℤ read_balance c.store /ℤ read_total_shares c.store)
      × (c'.store ≡ claimed c.store p n y)
      × (t.transfer (read_asset env c.store) env.current_contract_address p y c.tokens
          ≡ some c'.tokens)

  abbrev without_request : ℕ → Chain Store W
  without_request p = record {
    store = record c.store { claim_requests = remove_request p c.store.claim_requests };
    tokens = c.tokens;
  }

  claim-found :
      (p : ℕ) (n : ℤ) (r : ClaimRequest)
      → lookup p c.store.claim_requests ≡ some r
      → Returns
          (λ y c'. (r.requested_at + read_claim_delay c.store ≤ env.sequence) × Paid p n y c')
          (claim t env p n c)
  unfolding claim require_not_paused read_shares read_balance read_total_shares read_total_deposits
      read_asset
  claim-found p n r found = ground (arith, found, pay_claim-paid t env (without_request p) p n)

  claim-absent :
      (p : ℕ) (n : ℤ)
      → lookup p c.store.claim_requests ≡ none
      → Returns (λ _ _. 1 ≤ 0) (claim t env p n c)
  unfolding claim require_not_paused
  claim-absent p n absent = ground (arith, absent)

  claim-again :
      (p : ℕ) (m : ℤ)
      → pos 0 <ℤ m
      → env.authorized p ≡ true
      → unwrap_or c.store.paused_flag false ≡ false
      → lookup p c.store.claim_requests ≡ none
      → claim t env p m c ≡ err claim_pending
  unfolding claim require_not_paused
  claim-again p m some_m signed running absent = ground arith

module _ {W : Type 0} (t : Tokens W) (env : Env) (c : Chain Store W) where
  -- A claim that returns is signed and made while the backstop runs, after a request whose delay is
  -- over; it pays the part of the balance that the shares are of all shares, more than nothing, lowers
  -- the user's shares and their total by the shares, and the deposits and the balance by what it pays,
  -- and uses the request up: right after it, every claim of a positive number of shares is refused,
  -- with `claim_pending`.
  pub claim-Paid :
      (p : ℕ) (n : ℤ)
      → Returns
          (λ y c'.
            IsDue env c.store p
            × Paid t env c p n y c'
            × ((m : ℤ) → pos 0 <ℤ m → claim t env p m c' ≡ err claim_pending))
          (claim t env p n c)
  claim-Paid p n = elim (Option-cases (lookup p c.store.claim_requests)) [
    | inl absent ↦
        weaken _ _ (claim t env p n c) (claim-absent t env c p n absent)
          (λ y c' d. absurd (omega (arith, d)))
    | inr (r, found) ↦ weaken _ _ (claim t env p n c) (claim-found t env c p n r found) (λ y c' d. (
      (r, found, d.0),
      d.1,
      λ m some_m.
          claim-again t env c' p m some_m d.1.0 (rw d.1.5 d.1.1)
            (rw d.1.5 (lookup-remove_request p c.store.claim_requests)),
    ))
  ]
