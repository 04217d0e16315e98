-- ===== src/CpmmPool/Solvency.antt =====
-- The vault of contracts/cpmm-pool/src/lib.rs against the reserves that it records.
use suban.Base.{ℕ, ◌≡◌, ◌≢◌, ◌⊎◌, refl, sym, is_some, true, false, arith, inl, inr}
use suban.Int.{ℤ, ◌+ℤ◌, ◌≤ℤ◌, int_laws, parts_of_eq}
use suban.Host.{Env, panic, Returns, weaken, both}
use suban.Tokens.{Paid, Tokens, Chain, IsLedger, receives, pays}
use suban.CpmmPool.Store.{Store, read_reserve_a, read_reserve_b}
use suban.CpmmPool.Liquidity.{initialize, add_liquidity, remove_liquidity}
use suban.CpmmPool.Swap.{swap}
use suban.CpmmPool.Shares.{IsSound, has_admin}
use suban.CpmmPool.History.{Request, execute}
use suban.CpmmPool.Product.{Trades, swap-Swaps}
use suban.CpmmPool.Deposits.{add_liquidity-Deposited}
use suban.CpmmPool.Withdrawals.{remove_liquidity-Withdrawn}
use suban.CpmmPool.Payments.{IsPair, add_liquidity-Paid, remove_liquidity-Paid, swap-Paid}

-- The vault `me` holds at least the reserves of a pool of the tokens `k` and `l`.
pub record IsCovered {W : Type 0} (t : Tokens W) (me k l : ℕ) (c : Chain Store W) : Type 0 where
  pub pair : IsPair k l c.store
  pub covered_a : read_reserve_a c.store ≤ℤ t.balance k me c.tokens
  pub covered_b : read_reserve_b c.store ≤ℤ t.balance l me c.tokens

signer_foreign :
    (env : Env) (p me : ℕ) → env.authorized me ≡ false → env.authorized p ≡ true → p ≢ me
signer_foreign env p me h signed e = cc

module _ {W : Type 0} (t : Tokens W) (laws : IsLedger t) (p me k l : ℕ) (other : k ≢ l)
    (foreign : p ≢ me) (c c' : Chain Store W) (v : IsCovered t me k l c)
    (pair : IsPair k l c'.store) where
  deposit-IsCovered :
      (a b : ℤ)
      → Paid t k p me a l p me b c.tokens c'.tokens
      → read_reserve_a c'.store ≡ read_reserve_a c.store +ℤ a
      → read_reserve_b c'.store ≡ read_reserve_b c.store +ℤ b
      → IsCovered t me k l c'
  deposit-IsCovered a b (w1, e1, e2) ea eb =
      let first = receives t laws k l me p other foreign a c.tokens w1 e1 in
      let second = receives t laws l k me p (λ e. other (sym e)) foreign b w1 c'.tokens e2 in
      let a0 = parts_of_eq first.0 in
      let a1 = parts_of_eq second.1 in
      let b0 = parts_of_eq first.1 in
      let b1 = parts_of_eq second.0 in
      let ra = parts_of_eq ea in
      let rb = parts_of_eq eb in
      record {
        pair = pair;
        covered_a = omega (int_laws, v.covered_a);
        covered_b = omega (int_laws, v.covered_b);
      }

  withdraw-IsCovered :
      (a b : ℤ)
      → Paid t k me p a l me p b c.tokens c'.tokens
      → read_reserve_a c'.store +ℤ a ≡ read_reserve_a c.store
      → read_reserve_b c'.store +ℤ b ≡ read_reserve_b c.store
      → IsCovered t me k l c'
  withdraw-IsCovered a b (w1, e1, e2) ea eb =
      let first = pays t laws k l me p other foreign a c.tokens w1 e1 in
      let second = pays t laws l k me p (λ e. other (sym e)) foreign b w1 c'.tokens e2 in
      let a0 = parts_of_eq first.0 in
      let a1 = parts_of_eq second.1 in
      let b0 = parts_of_eq first.1 in
      let b1 = parts_of_eq second.0 in
      let ra = parts_of_eq ea in
      let rb = parts_of_eq eb in
      record {
        pair = pair;
        covered_a = omega (int_laws, v.covered_a);
        covered_b = omega (int_laws, v.covered_b);
      }

  trade_a-IsCovered :
      (d out : ℤ)
      → Paid t k p me d l me p out c.tokens c'.tokens
      → read_reserve_a c'.store ≡ read_reserve_a c.store +ℤ d
      → read_reserve_b c'.store +ℤ out ≡ read_reserve_b c.store
      → IsCovered t me k l c'
  trade_a-IsCovered d out (w1, e1, e2) ea eb =
      let first = receives t laws k l me p other foreign d c.tokens w1 e1 in
      let second = pays t laws l k me p (λ e. other (sym e)) foreign out w1 c'.tokens e2 in
      let a0 = parts_of_eq first.0 in
      let a1 = parts_of_eq second.1 in
      let b0 = parts_of_eq first.1 in
      let b1 = parts_of_eq second.0 in
      let ra = parts_of_eq ea in
      let rb = parts_of_eq eb in
      record {
        pair = pair;
        covered_a = omega (int_laws, v.covered_a);
        covered_b = omega (int_laws, v.covered_b);
      }

  trade_b-IsCovered :
      (d out : ℤ)
      → Paid t l p me d k me p out c.tokens c'.tokens
      → read_reserve_b c'.store ≡ read_reserve_b c.store +ℤ d
      → read_reserve_a c'.store +ℤ out ≡ read_reserve_a c.store
      → IsCovered t me k l c'
  trade_b-IsCovered d out (w1, e1, e2) eb ea =
      let first = receives t laws l k me p (λ e. other (sym e)) foreign d c.tokens w1 e1 in
      let second = pays t laws k l me p other foreign out w1 c'.tokens e2 in
      let a0 = parts_of_eq first.1 in
      let a1 = parts_of_eq second.0 in
      let b0 = parts_of_eq first.0 in
      let b1 = parts_of_eq second.1 in
      let ra = parts_of_eq ea in
      let rb = parts_of_eq eb in
      record {
        pair = pair;
        covered_a = omega (int_laws, v.covered_a);
        covered_b = omega (int_laws, v.covered_b);
      }

  trade-IsCovered :
      (token_in : ℕ) (d out : ℤ)
      → ((token_in ≡ k) × Paid t k p me d l me p out c.tokens c'.tokens)
        ⊎ ((token_in ≡ l) × Paid t l p me d k me p out c.tokens c'.tokens)
      → Trades token_in d out c.store c'.store
      → IsCovered t me k l c'
  trade-IsCovered token_in d out (inl (e, paid)) (inl (f, ra, rb)) =
      trade_a-IsCovered d out paid ra rb
  trade-IsCovered token_in d out (inl (e, paid)) (inr (f, _, _)) = absurd (other (cc (v.pair.1)))
  trade-IsCovered token_in d out (inr (e, paid)) (inl (f, _, _)) = absurd (other (cc (v.pair.0)))
  trade-IsCovered token_in d out (inr (e, paid)) (inr (f, rb, ra)) =
      trade_b-IsCovered d out paid rb ra

module _ {W : Type 0} (t : Tokens W) (laws : IsLedger t) (env : Env) (k l : ℕ) (other : k ≢ l)
    (unsigned : env.authorized env.current_contract_address ≡ false) (c : Chain Store W)
    (sound : IsSound c.store) (v : IsCovered t env.current_contract_address k l c) where
  abbrev me : ℕ
  me = env.current_contract_address

  abbrev Covered : {A : Type 0} → A → Chain Store W → Type 0
  Covered _ c' = IsCovered t me k l c'

  add_liquidity-IsCovered :
      (p : ℕ) (a b least : ℤ) → Returns Covered (add_liquidity t env p a b least c)
  add_liquidity-IsCovered p a b least =
      let o = add_liquidity t env p a b least c in
      weaken _ Covered o
        (both _ _ o (add_liquidity-Deposited t env p a b least c sound)
          (add_liquidity-Paid t env p k l c a b least v.pair))
        (λ out c' q.
          deposit-IsCovered t laws p me k l other (signer_foreign env p me unsigned q.1.0) c c' v
            q.1.2 a b q.1.1 q.0.2.reserve_a q.0.2.reserve_b)

  remove_liquidity-IsCovered :
      (p : ℕ) (n least_a least_b : ℤ)
      → Returns Covered (remove_liquidity t env p n least_a least_b c)
  remove_liquidity-IsCovered p n least_a least_b =
      let o = remove_liquidity t env p n least_a least_b c in
      weaken _ Covered o
        (both _ _ o (remove_liquidity-Withdrawn t env p n least_a least_b c sound)
          (remove_liquidity-Paid t env p k l c n least_a least_b v.pair))
        (λ out c' q.
          withdraw-IsCovered t laws p me k l other (signer_foreign env p me unsigned q.1.0) c c' v
            q.1.2 out.0 out.1 q.1.1 q.0.4.reserve_a q.0.4.reserve_b)

  swap-IsCovered :
      (p token_in : ℕ) (d least : ℤ) → Returns Covered (swap t env p token_in d least c)
  swap-IsCovered p token_in d least =
      let o = swap t env p token_in d least c in
      weaken _ Covered o
        (both _ _ o (swap-Swaps t env p token_in d least c (sound.has_a, sound.has_b))
          (swap-Paid t env p k l c token_in d least v.pair))
        (λ out c' q.
          trade-IsCovered t laws p me k l other (signer_foreign env p me unsigned q.1.0) c c' v
            q.1.2 token_in d out q.1.1 q.0.1.2)

  initialize-refused :
      (admin token_a token_b fee_bps : ℕ)
      → initialize {W = W} env admin token_a token_b fee_bps c ≡ panic
  unfolding initialize
  initialize-refused admin token_a token_b fee_bps =
      let some_a : is_some c.store.token_a ≡ true = rw v.pair.0 refl in
      ground (arith, has_admin c.store sound some_a)

-- Behind tokens that keep SEP-41's books, and as long as nobody can sign for the vault itself: on sound books,
-- every call that returns leaves the vault holding at least the two reserves, if it held them before,
-- and the pair of tokens as it was.
pub execute-IsCovered :
    {W : Type 0} (t : Tokens W) (laws : IsLedger t) (env : Env) (k l : ℕ) (r : Request)
    (c : Chain Store W)
    → k ≢ l
    → env.authorized env.current_contract_address ≡ false
    → IsSound c.store
    → IsCovered t env.current_contract_address k l c
    → Returns (λ _ c'. IsCovered t env.current_contract_address k l c') (execute t env r c)
unfolding execute
execute-IsCovered t laws env k l (Request.initialize admin a b fee) c other unsigned sound v =
    rw (initialize-refused t laws env k l other unsigned c sound v admin a b fee) tt
execute-IsCovered t laws env k l (Request.add_liquidity p a b least) c other unsigned sound v =
    ground (arith, add_liquidity-IsCovered t laws env k l other unsigned c sound v p a b least)
execute-IsCovered t laws env k l (Request.remove_liquidity p n a b) c other unsigned sound v =
    ground (arith, remove_liquidity-IsCovered t laws env k l other unsigned c sound v p n a b)
execute-IsCovered t laws env k l (Request.swap p token_in d least) c other unsigned sound v =
    ground (arith, swap-IsCovered t laws env k l other unsigned c sound v p token_in d least)
