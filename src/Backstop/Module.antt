-- ===== src/Backstop/Module.antt =====
-- contracts/backstop/src/lib.rs: the backstop module and its requests.
use suban.Base.{
  ℕ, Bool, true, false, not, [], ◌∷◌, Option, some, unwrap_or, ltb, ◌==◌, ◌^◌, ◌-◌, if◌then◌else◌,
}
use suban.Int.{ℤ, pos, leb_ℤ, ltb_ℤ, ◌==ℤ◌}
use suban.Dict.{Dict, lookup, insert, nat_eq}
use suban.Host.{
  Env, Call, ◌>>=◌, ◌>>◌, pure, unwrap, ok_or, fail_if, require_auth, add_i128, sub_i128, mul_i128,
  div_i128, add_u32,
}
use suban.Tokens.{Tokens, Chain, token_transfer, reads, writes}

pub data BackstopError : Type 0 where
  not_admin paused zero_amount insufficient_balance deposit_too_small : BackstopError
  deposit_too_large no_shares claim_pending claim_expired no_bad_debt : BackstopError

pub record BackstopState : Type 0 where
  pub total_shares : ℤ
  pub total_deposits : ℤ
  pub balance : ℤ
  pub target : ℤ
  pub claim_delay : ℕ
  pub max_deposit : ℤ
  pub min_deposit : ℤ

pub record ClaimRequest : Type 0 where
  pub depositor : ℕ
  pub shares : ℤ
  pub requested_at : ℕ

-- The instance storage, a field for each of its symbols; a missing map is read as an empty one.
pub record Store : Type 0 where
  pub pool_admin : Option ℕ
  pub pool_address : Option ℕ
  pub backstop_asset : Option ℕ
  pub claim_requests : Dict ℕ ClaimRequest
  pub backstop_balance : Option ℤ
  pub backstop_target : Option ℤ
  pub depositors : Dict ℕ ℤ
  pub depositor_shares : Dict ℕ ℤ
  pub total_shares : Option ℤ
  pub total_deposits : Option ℤ
  pub paused_flag : Option Bool
  pub claim_delay : Option ℕ
  pub max_deposit : Option ℤ
  pub min_deposit : Option ℤ

abbrev pub Action : Type 0 → Type 0 → Type 0
Action W A = Call (Chain Store W) BackstopError A

-- `Map::remove`
unfoldable pub remove_request : ℕ → Dict ℕ ClaimRequest → Dict ℕ ClaimRequest
remove_request from [] = []
remove_request from ((depositor, request) ∷ requests) =
    let rest = remove_request from requests in
    if from == depositor then rest else (depositor, request) ∷ rest

unfoldable pub read_total_shares : Store → ℤ
read_total_shares s = unwrap_or s.total_shares (pos 0)

unfoldable pub read_total_deposits : Store → ℤ
read_total_deposits s = unwrap_or s.total_deposits (pos 0)

unfoldable pub read_balance : Store → ℤ
read_balance s = unwrap_or s.backstop_balance (pos 0)

unfoldable pub read_claim_delay : Store → ℕ
read_claim_delay s = unwrap_or s.claim_delay 0

unfoldable pub read_min_deposit : Store → ℤ
read_min_deposit s = unwrap_or s.min_deposit (pos 0)

unfoldable pub read_max_deposit : Store → ℤ
read_max_deposit s = unwrap_or s.max_deposit (pos (2 ^ 127 - 1))

unfoldable pub read_shares : Store → ℕ → ℤ
read_shares s depositor = unwrap_or (lookup depositor s.depositor_shares) (pos 0)

unfoldable pub read_deposit : Store → ℕ → ℤ
read_deposit s depositor = unwrap_or (lookup depositor s.depositors) (pos 0)

unfoldable pub read_asset : Env → Store → ℕ
read_asset env s = unwrap_or s.backstop_asset env.current_contract_address

module _ {W : Type 0} where
  unfoldable pub require_not_paused : Action W (Unit {0})
  require_not_paused = do
    stopped ← reads (λ s. unwrap_or s.paused_flag false)
    fail_if stopped paused

  unfoldable pub initialize :
      Env
      → (admin pool asset : ℕ) → (target : ℤ) → (claim_delay : ℕ) → (max_deposit min_deposit : ℤ)
      → Action W (Unit {0})
  initialize env admin pool asset target claim_delay max_deposit min_deposit = do
    fail_if (leb_ℤ target (pos 0)) zero_amount
    writes (λ s. record s {
      pool_admin = some admin;
      pool_address = some pool;
      backstop_asset = some asset;
      backstop_target = some target;
      claim_delay = some claim_delay;
      max_deposit = some max_deposit;
      min_deposit = some min_deposit;
      backstop_balance = some (pos 0);
      total_shares = some (pos 0);
      total_deposits = some (pos 0);
      paused_flag = some false;
    })

  unfoldable pub shares_for : (amount total_shares total_deposits : ℤ) → (first : Bool) → Action W ℤ
  shares_for amount total_shares total_deposits true = pure amount
  shares_for amount total_shares total_deposits false = do
    product ← mul_i128 amount total_shares
    div_i128 product total_deposits

  unfoldable pub payout_for : (shares balance total_shares : ℤ) → (some_shares : Bool) → Action W ℤ
  payout_for shares balance total_shares false = pure (pos 0)
  payout_for shares balance total_shares true = do
    product ← mul_i128 shares balance
    div_i128 product total_shares

  unfoldable pub request_claim : Env → (from : ℕ) → (shares : ℤ) → Action W (Unit {0})
  unfolding require_not_paused
  request_claim env from shares = do
    fail_if (leb_ℤ shares (pos 0)) zero_amount
    require_not_paused
    require_auth env from
    let request : ClaimRequest = record {
      depositor = from;
      shares = shares;
      requested_at = env.sequence;
    }
    writes (λ s. record s { claim_requests = insert from request s.claim_requests })

  unfoldable pub set_paused : Env → (admin : ℕ) → Bool → Action W (Unit {0})
  set_paused env admin value = do
    stored_admin ← unwrap (← reads (λ s. s.pool_admin))
    fail_if (not (admin == stored_admin)) not_admin
    require_auth env admin
    writes (λ s. record s { paused_flag = some value })

  unfoldable pub get_state : Action W BackstopState
  unfolding read_total_shares read_total_deposits read_balance read_claim_delay read_max_deposit
      read_min_deposit
  get_state = reads (λ s. record {
    total_shares = read_total_shares s;
    total_deposits = read_total_deposits s;
    balance = read_balance s;
    target = unwrap_or s.backstop_target (pos 0);
    claim_delay = read_claim_delay s;
    max_deposit = read_max_deposit s;
    min_deposit = read_min_deposit s;
  })

  unfoldable pub get_shares : (depositor : ℕ) → Action W ℤ
  unfolding read_shares
  get_shares depositor = reads (λ s. read_shares s depositor)

module _ {W : Type 0} (t : Tokens W) where
  unfoldable pub deposit : Env → (from : ℕ) → (amount : ℤ) → Action W ℤ
  unfolding require_not_paused read_min_deposit read_max_deposit read_total_shares
      read_total_deposits shares_for read_shares read_balance read_deposit read_asset
  deposit env from amount = do
    fail_if (leb_ℤ amount (pos 0)) zero_amount
    require_not_paused
    require_auth env from
    min_deposit ← reads read_min_deposit
    max_deposit ← reads read_max_deposit
    fail_if (ltb_ℤ amount min_deposit) deposit_too_small
    fail_if (ltb_ℤ max_deposit amount) deposit_too_large
    total_shares ← reads read_total_shares
    total_deposits ← reads read_total_deposits
    shares ← shares_for amount total_shares total_deposits (total_shares ==ℤ pos 0)
    current_shares ← reads (λ s. read_shares s from)
    new_shares ← add_i128 current_shares shares
    writes (λ s. record s { depositor_shares = insert from new_shares s.depositor_shares })
    new_total ← add_i128 total_shares shares
    writes (λ s. record s { total_shares = some new_total })
    new_deposits ← add_i128 total_deposits amount
    writes (λ s. record s { total_deposits = some new_deposits })
    balance ← reads read_balance
    new_balance ← add_i128 balance amount
    writes (λ s. record s { backstop_balance = some new_balance })
    current_deposit ← reads (λ s. read_deposit s from)
    new_deposit ← add_i128 current_deposit amount
    writes (λ s. record s { depositors = insert from new_deposit s.depositors })
    asset ← reads (read_asset env)
    token_transfer t asset from env.current_contract_address amount
    pure shares

  unfoldable pub withdraw : Env → (from : ℕ) → (shares : ℤ) → Action W ℤ
  unfolding require_not_paused read_total_shares read_total_deposits read_shares read_deposit
      read_asset
  withdraw env from shares = do
    fail_if (leb_ℤ shares (pos 0)) zero_amount
    require_not_paused
    require_auth env from
    current_shares ← reads (λ s. read_shares s from)
    fail_if (ltb_ℤ current_shares shares) insufficient_balance
    total_shares ← reads read_total_shares
    total_deposits ← reads read_total_deposits
    product ← mul_i128 shares total_deposits
    amount ← div_i128 product total_shares
    new_shares ← sub_i128 current_shares shares
    writes (λ s. record s { depositor_shares = insert from new_shares s.depositor_shares })
    new_total ← sub_i128 total_shares shares
    writes (λ s. record s { total_shares = some new_total })
    new_deposits ← sub_i128 total_deposits amount
    writes (λ s. record s { total_deposits = some new_deposits })
    current_deposit ← reads (λ s. read_deposit s from)
    new_deposit ← sub_i128 current_deposit amount
    writes (λ s. record s { depositors = insert from new_deposit s.depositors })
    asset ← reads (read_asset env)
    token_transfer t asset env.current_contract_address from amount
    pure amount

  -- `claim` once the request is found to be due, and removed.
  unfoldable pub pay_claim : Env → (from : ℕ) → (shares : ℤ) → Action W ℤ
  unfolding read_shares read_total_shares read_total_deposits read_balance payout_for read_asset
  pay_claim env from shares = do
    current_shares ← reads (λ s. read_shares s from)
    fail_if (ltb_ℤ current_shares shares) insufficient_balance
    total_shares ← reads read_total_shares
    total_deposits ← reads read_total_deposits
    balance ← reads read_balance
    payout ← payout_for shares balance total_shares (ltb_ℤ (pos 0) total_shares)
    fail_if (leb_ℤ payout (pos 0)) no_bad_debt
    new_shares ← sub_i128 current_shares shares
    writes (λ s. record s { depositor_shares = insert from new_shares s.depositor_shares })
    new_total ← sub_i128 total_shares shares
    writes (λ s. record s { total_shares = some new_total })
    new_deposits ← sub_i128 total_deposits payout
    writes (λ s. record s { total_deposits = some new_deposits })
    new_balance ← sub_i128 balance payout
    writes (λ s. record s { backstop_balance = some new_balance })
    asset ← reads (read_asset env)
    token_transfer t asset env.current_contract_address from payout
    pure payout

  unfoldable pub claim : Env → (from : ℕ) → (shares : ℤ) → Action W ℤ
  unfolding require_not_paused read_claim_delay remove_request pay_claim
  claim env from shares = do
    fail_if (leb_ℤ shares (pos 0)) zero_amount
    require_not_paused
    require_auth env from
    claim_delay ← reads read_claim_delay
    request ← ok_or (← reads (λ s. lookup from s.claim_requests)) claim_pending
    due ← add_u32 request.requested_at claim_delay
    fail_if (ltb env.sequence due) claim_pending
    writes (λ s. record s { claim_requests = remove_request from s.claim_requests })
    pay_claim env from shares

  unfoldable pub absorb_bad_debt : Env → (amount : ℤ) → Action W (Unit {0})
  unfolding require_not_paused read_balance read_asset
  absorb_bad_debt env amount = do
    require_not_paused
    pool ← unwrap (← reads (λ s. s.pool_address))
    require_auth env pool
    balance ← reads read_balance
    let covered = if ltb_ℤ balance amount then balance else amount
    new_balance ← sub_i128 balance covered
    writes (λ s. record s { backstop_balance = some new_balance })
    asset ← reads (read_asset env)
    token_transfer t asset env.current_contract_address pool covered
