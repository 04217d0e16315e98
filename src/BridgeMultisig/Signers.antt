-- ===== src/BridgeMultisig/Signers.antt =====
-- `initialize` and the administration of contracts/bridge-multisig/src/lib.rs.
use suban.Base.{
  ℕ, ◌||◌, Bool, true, false, not, some, List, [], ◌∷◌, unwrap_or, is_some, length, leb, ltb, ◌==◌,
}
use suban.Int.{ℤ, pos}
use suban.Dict.{insert, nat_eq, Dict}
use suban.Host.{Env, ◌>>=◌, ◌>>◌, unwrap, fail_if, panic_if, require_auth, add_u32, sub_u32}
use suban.Tokens.{reads, writes}
use suban.BridgeMultisig.Store.{
  Action, not_admin, duplicate_signer, signer_not_found, cannot_remove_last_signer,
  cannot_remove_below_threshold, invalid_threshold, is_signer, read_threshold,
}

-- The loop over the first signers.
unfoldable pub enrol : List ℕ → Dict ℕ Bool → Dict ℕ Bool
enrol [] signer = signer
enrol (a ∷ signers) signer = enrol signers (insert a true signer)

module _ {W : Type 0} where
  unfoldable pub initialize :
      Env
      → ℕ
      → List ℕ
      → (threshold : ℕ) → (volume_cap : ℤ)
      → (volume_window_ledgers max_proposal_age wpi_token usdc_token : ℕ) → Action W (Unit {0})
  initialize env admin signers threshold volume_cap volume_window_ledgers max_proposal_age wpi_token
        usdc_token =
      do
        initialized ← reads (λ s. is_some s.admin)
        panic_if initialized
        require_auth env admin
        let signer_count = length signers
        panic_if ((threshold == 0) || ltb signer_count threshold)
        writes (λ s. record s {
          admin = some admin;
          wpi_token = some wpi_token;
          usdc_token = some usdc_token;
          threshold = some threshold;
          signer_count = some signer_count;
          proposal_count = some 0;
          next_nonce = some 0;
          paused = some false;
          volume_cap = some volume_cap;
          volume_window_ledgers = some volume_window_ledgers;
          volume_window_start = some 0;
          volume_in_window = some (pos 0);
          max_proposal_age = some max_proposal_age;
          signer = enrol signers s.signer;
        })

  -- `admin != read_admin`, then `require_auth`
  unfoldable pub admin_only : Env → ℕ → Action W (Unit {0})
  admin_only env admin = do
    current_admin ← unwrap (← reads (λ s. s.admin))
    fail_if (not (admin == current_admin)) not_admin
    require_auth env admin

  unfoldable pub add_signer : Env → (admin new_signer : ℕ) → Action W (Unit {0})
  unfolding admin_only
  add_signer env admin new_signer = do
    admin_only env admin
    known ← reads (λ s. is_signer s new_signer)
    fail_if known duplicate_signer
    writes (λ s. record s { signer = insert new_signer true s.signer })
    count ← reads (λ s. unwrap_or s.signer_count 0)
    next ← add_u32 count 1
    writes (λ s. record s { signer_count = some next })

  unfoldable pub remove_signer : Env → (admin signer : ℕ) → Action W (Unit {0})
  unfolding admin_only
  remove_signer env admin signer = do
    admin_only env admin
    known ← reads (λ s. is_signer s signer)
    fail_if (not known) signer_not_found
    count ← reads (λ s. unwrap_or s.signer_count 0)
    threshold ← reads read_threshold
    fail_if (leb count 1) cannot_remove_last_signer
    fewer ← sub_u32 count 1
    fail_if (ltb fewer threshold) cannot_remove_below_threshold
    writes (λ s. record s { signer = insert signer false s.signer; signer_count = some fewer })

  unfoldable pub set_threshold : Env → (admin new_threshold : ℕ) → Action W (Unit {0})
  unfolding admin_only
  set_threshold env admin new_threshold = do
    admin_only env admin
    count ← reads (λ s. unwrap_or s.signer_count 0)
    fail_if ((new_threshold == 0) || ltb count new_threshold) invalid_threshold
    writes (λ s. record s { threshold = some new_threshold })

  unfoldable pub set_volume_cap :
      Env → (admin : ℕ) → (cap : ℤ) → (window_ledgers : ℕ) → Action W (Unit {0})
  unfolding admin_only
  set_volume_cap env admin cap window_ledgers = do
    admin_only env admin
    writes (λ s. record s { volume_cap = some cap; volume_window_ledgers = some window_ledgers })

  unfoldable pub pause : Env → ℕ → Action W (Unit {0})
  unfolding admin_only
  pause env admin = do admin_only env admin; writes (λ s. record s { paused = some true })

  unfoldable pub unpause : Env → ℕ → Action W (Unit {0})
  unfolding admin_only
  unpause env admin = do admin_only env admin; writes (λ s. record s { paused = some false })

  unfoldable pub set_admin : Env → (admin new_admin : ℕ) → Action W (Unit {0})
  unfolding admin_only
  set_admin env admin new_admin = do
    admin_only env admin
    writes (λ s. record s { admin = some new_admin })

  unfoldable pub set_max_proposal_age : Env → (admin max_age : ℕ) → Action W (Unit {0})
  unfolding admin_only
  set_max_proposal_age env admin max_age = do
    admin_only env admin
    writes (λ s. record s { max_proposal_age = some max_age })
