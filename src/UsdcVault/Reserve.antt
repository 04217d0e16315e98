-- ===== src/UsdcVault/Reserve.antt =====
-- The reserve minimum of contracts/usdc-vault/src/lib.rs.
use suban.Base.{ℕ, ◌≡◌, arith, Bool, true, false, some, is_some}
use suban.Int.{ℤ, pos, ◌+ℤ◌, ◌-ℤ◌, ◌≤ℤ◌, ◌<ℤ◌, int_laws, parts_of_eq}
use suban.Host.{Env, Returns, weaken}
use suban.Tokens.{Tokens, Chain, IsLedger, share, share_self, share_owner}
use suban.UsdcVault.Vault
use suban.UsdcVault.Vault.{
  Store, admin_only, is_paused, read_total_deposited, read_total_released, read_user_deposit,
  read_reserve_balance, pay_reserved,
}
use suban.UsdcVault.Accounts.{Request, execute}

-- The request that sets the minimum.
abbrev pub sets_minimum : Request → Bool
sets_minimum (Request.set_reserve_minimum admin minimum) = true
sets_minimum _ = false

-- The vault `me` keeps its minimum of the token `k`.
pub record IsReserved {W : Type 0} (t : Tokens W) (me k : ℕ) (c : Chain Store W) : Type 0 where
  pub has_admin : is_some c.store.admin ≡ true
  pub has_token : c.store.usdc_token ≡ some k
  pub reserved : read_reserve_balance c.store ≤ℤ t.balance k me c.tokens

share_nonneg : (k p me : ℕ) (x : ℤ) → pos 0 <ℤ x → pos 0 ≤ℤ share k p k me x
share_nonneg k p me x h = ground arith

-- What a transfer leaves with its source, and with its destination.
left_with :
    (old new x lost gained : ℤ)
    → lost ≡ x
    → pos 0 ≤ℤ gained
    → new +ℤ lost ≡ old +ℤ gained
    → old -ℤ x ≤ℤ new
left_with old new x lost gained e h law = omega (int_laws, parts_of_eq e, parts_of_eq law)

grown_with :
    (old new lost gained : ℤ)
    → lost ≡ pos 0
    → pos 0 ≤ℤ gained
    → new +ℤ lost ≡ old +ℤ gained
    → old ≤ℤ new
grown_with old new lost gained e h law = omega (int_laws, parts_of_eq e, parts_of_eq law)

module _ {W : Type 0} (t : Tokens W) (laws : IsLedger t) (env : Env) (k : ℕ)
    (unsigned : env.authorized env.current_contract_address ≡ false) (c : Chain Store W)
    (v : IsReserved t env.current_contract_address k c) where
  abbrev me : ℕ
  me = env.current_contract_address

  abbrev bal : Chain Store W → ℤ
  bal c' = t.balance k me c'.tokens

  -- Token, administrator and minimum as before.
  abbrev SameTerms : Chain Store W → Type 0
  SameTerms c' =
      (is_some c'.store.admin ≡ true)
      × (c'.store.usdc_token ≡ some k)
      × (read_reserve_balance c'.store ≡ read_reserve_balance c.store)

  abbrev Reserved : {A : Type 0} → A → Chain Store W → Type 0
  Reserved _ c' = IsReserved t me k c'

  pay_reserved-transfer :
      (to : ℕ) (x : ℤ)
      → Returns
          (λ _ c'.
            (c'.store ≡ c.store)
            × (read_reserve_balance c.store ≤ℤ bal c -ℤ x)
            × (t.transfer k me to x c.tokens ≡ some c'.tokens))
          (pay_reserved t env to x c)
  unfolding pay_reserved
  pay_reserved-transfer to x = ground (arith, v.has_token)

  -- An amount goes out, and the minimum stays.
  abbrev Paid : (to : ℕ) → ℤ → Chain Store W → Type 0
  Paid to x c' =
      (pos 0 <ℤ x)
      × (read_reserve_balance c.store ≤ℤ bal c -ℤ x)
      × (t.transfer k me to x c.tokens ≡ some c'.tokens)
      × SameTerms c'

  Paid-IsReserved : (to : ℕ) (x : ℤ) (c' : Chain Store W) → Paid to x c' → IsReserved t me k c'
  Paid-IsReserved to x c' p =
      let left =
        left_with (bal c) (bal c') x _ _ (share_self k me x) (share_nonneg k to me x p.0)
          (laws.transfer_moves k me to x c.tokens c'.tokens p.2 k me) in
      let same_minimum = parts_of_eq p.3.2 in
      record { has_admin = p.3.0; has_token = p.3.1; reserved = let r = p.1 in omega arith }

  release-Paid : (a to : ℕ) (x : ℤ) → Returns (λ _ c'. Paid to x c') (Vault.release t env a to x c)
  unfolding Vault.release admin_only read_reserve_balance
  release-Paid a to x = ground (arith, pay_reserved-transfer to x, v.has_admin, v.has_token)

  admin_withdraw-Paid :
      (a to : ℕ) (x : ℤ) → Returns (λ _ c'. Paid to x c') (Vault.admin_withdraw t env a to x c)
  unfolding Vault.admin_withdraw admin_only read_reserve_balance
  admin_withdraw-Paid a to x = ground (arith, pay_reserved-transfer to x, v.has_admin, v.has_token)

  deposit-received :
      (p : ℕ) (x : ℤ)
      → Returns
          (λ _ c'.
            (pos 0 <ℤ x)
            × (env.authorized p ≡ true)
            × (t.transfer k p me x c.tokens ≡ some c'.tokens)
            × SameTerms c')
          (Vault.deposit t env p x c)
  unfolding Vault.deposit read_reserve_balance
  deposit-received p x = ground (arith, v.has_admin, v.has_token)

  deposit-IsReserved : (p : ℕ) (x : ℤ) → Returns Reserved (Vault.deposit t env p x c)
  deposit-IsReserved p x =
      weaken _ Reserved (Vault.deposit t env p x c) (deposit-received p x) (λ _ c' d.
        let more =
          grown_with (bal c) (bal c') _ _ (share_owner k p k me x (λ e. cc))
            (share_nonneg k me me x d.0)
            (laws.transfer_moves k p me x c.tokens c'.tokens d.2 k me) in
        let same_minimum = parts_of_eq d.3.2 in
        record {
          has_admin = d.3.0;
          has_token = d.3.1;
          reserved = let r = v.reserved in omega arith;
        })

  -- The administration leaves token and balances alone.
  abbrev Kept : Chain Store W → Type 0
  Kept c' = (c'.tokens ≡ c.tokens) × SameTerms c'

  Kept-IsReserved : (c' : Chain Store W) → Kept c' → IsReserved t me k c'
  Kept-IsReserved c' d =
      let same_minimum = parts_of_eq d.1.2 in
      record {
        has_admin = d.1.0;
        has_token = d.1.1;
        reserved = rw d.0 (let r = v.reserved in omega arith);
      }

  set_paused-Kept : (a : ℕ) (b : Bool) → Returns (λ _ c'. Kept c') (Vault.set_paused env a b c)
  unfolding Vault.set_paused admin_only read_reserve_balance
  set_paused-Kept a b = ground (arith, v.has_admin, v.has_token)

  set_admin-Kept : (a b : ℕ) → Returns (λ _ c'. Kept c') (Vault.set_admin env a b c)
  unfolding Vault.set_admin admin_only read_reserve_balance
  set_admin-Kept a b = ground (arith, v.has_admin, v.has_token)

  initialize-Kept : (a b : ℕ) → Returns (λ _ c'. Kept c') (Vault.initialize env a b c)
  unfolding Vault.initialize
  initialize-Kept a b = rw v.has_admin tt

  -- Behind tokens that keep SEP-41's books, and as long as nobody can sign for the vault itself: once the
  -- vault of an initialized contract holds its reserve minimum, it holds it after every call that returns, releases and
  -- withdrawals of the administrator included, unless the call sets another minimum.
  pub execute-IsReserved :
      (r : Request) → sets_minimum r ≡ false → Returns Reserved (execute t env r c)
  unfolding execute
  execute-IsReserved (Request.initialize a b) h =
      weaken _ Reserved (Vault.initialize env a b c) (initialize-Kept a b)
        (λ _ c' d. Kept-IsReserved c' d)
  execute-IsReserved (Request.deposit p x) h = deposit-IsReserved p x
  execute-IsReserved (Request.release a to x) h =
      weaken _ Reserved (Vault.release t env a to x c) (release-Paid a to x)
        (λ _ c' p. Paid-IsReserved to x c' p)
  execute-IsReserved (Request.admin_withdraw a to x) h =
      weaken _ Reserved (Vault.admin_withdraw t env a to x c) (admin_withdraw-Paid a to x)
        (λ _ c' p. Paid-IsReserved to x c' p)
  execute-IsReserved (Request.set_reserve_minimum a x) h = cc
  execute-IsReserved (Request.set_paused a b) h =
      weaken _ Reserved (Vault.set_paused env a b c) (set_paused-Kept a b)
        (λ _ c' d. Kept-IsReserved c' d)
  execute-IsReserved (Request.set_admin a b) h =
      weaken _ Reserved (Vault.set_admin env a b c) (set_admin-Kept a b)
        (λ _ c' d. Kept-IsReserved c' d)
