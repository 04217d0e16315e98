-- ===== src/BridgeMultisig/History.antt =====
-- The books of contracts/bridge-multisig/src/lib.rs under any history of calls, from `initialize` on.
use suban.Base.{ℕ, ◌≡◌, ◌≤◌, arith, refl, Bool, true, false, none, some, List, [], ◌∷◌, length}
use suban.Int.{ℤ, pos, ◌+ℤ◌, int_laws, parts_of_eq}
use suban.Dict.{Dict, lookup, insert, nat_eq, sum_by, sum_by-insert, lookup-insert}
use suban.Host.{Env, Returns, weaken, history, history_lem}
use suban.Tokens.{Tokens, Chain}
use suban.BridgeMultisig.Store.{
  Store, read_threshold, next_proposal_id, is_deposit_processed, has_approved,
}
use suban.BridgeMultisig.Signers.{enrol, initialize}
use suban.BridgeMultisig.Request.{Request, execute, Step}
use suban.BridgeMultisig.Effects.{execute-Step}
use suban.BridgeMultisig.Quorum.{IsQuorate, active, distinct}
use suban.BridgeMultisig.Safety.{Step-IsQuorate}

-- The storage before the first call.
abbrev pub deployed : Store
deployed = record {
  admin = none;
  wpi_token = none;
  usdc_token = none;
  signer = [];
  signer_count = none;
  threshold = none;
  proposal = [];
  proposal_count = none;
  nonce = [];
  next_nonce = none;
  volume_window_start = none;
  volume_in_window = none;
  volume_cap = none;
  volume_window_ledgers = none;
  paused = none;
  max_proposal_age = none;
}

-- Different signers that are not there yet are as many active signers more.
enrol-sum :
    (signers : List ℕ) (m : Dict ℕ Bool)
    → distinct signers ≡ true
    → ((a : ℕ) → has_approved signers a ≡ true → lookup a m ≡ none)
    → sum_by active (enrol signers m) ≡ sum_by active m +ℤ pos (length signers)
unfolding enrol distinct has_approved
enrol-sum [] m d new = omega int_laws
enrol-sum (x ∷ xs) m d new =
    let absent : lookup x m ≡ none = new x (ground arith) in
    let later : (a : ℕ) → has_approved xs a ≡ true → lookup a (insert x true m) ≡ none =
      λ a h. let before = new a in let read = lookup-insert x a true m in ground arith in
    let ih = parts_of_eq (enrol-sum xs (insert x true m) (ground arith) later) in
    let one = rw absent at (parts_of_eq (sum_by-insert active x true m)) in
    let two : sum_by active (insert x true m) ≡ sum_by active m +ℤ pos 1 = omega (int_laws, one) in
    let two' = parts_of_eq two in omega (int_laws, ih, two')

module _ {W : Type 0} (t : Tokens W) where
  -- A request that returns is one step from sound books to sound books.
  pub execute_sound :
      (env : Env) (r : Request) (c : Chain Store W)
      → IsQuorate c.store
      → Returns (λ _ c'. IsQuorate c'.store × Step t env c c') (execute t env r c)
  execute_sound env r c v =
      weaken _ _ (execute t env r c) (execute-Step t env c r v.has_admin)
        (λ _ c' step. (Step-IsQuorate t env c c' v step, step))

  execute-IsQuorate :
      (env : Env) (r : Request) (c : Chain Store W)
      → IsQuorate c.store
      → Returns (λ _ c'. IsQuorate c'.store) (execute t env r c)
  execute-IsQuorate env r c v =
      weaken _ _ (execute t env r c) (execute_sound env r c v) (λ _ c' p. p.0)

-- The storage after a first call of `initialize`.
abbrev started : (admin : ℕ) → List ℕ → (threshold : ℕ) → ℤ → (window age wpi usdc : ℕ) → Store
started admin signers threshold cap window age wpi usdc = record deployed {
  admin = some admin;
  wpi_token = some wpi;
  usdc_token = some usdc;
  threshold = some threshold;
  signer_count = some (length signers);
  proposal_count = some 0;
  next_nonce = some 0;
  paused = some false;
  volume_cap = some cap;
  volume_window_ledgers = some window;
  volume_window_start = some 0;
  volume_in_window = some (pos 0);
  max_proposal_age = some age;
  signer = enrol signers [];
}

module _ {W : Type 0} (t : Tokens W) (env : Env) (admin : ℕ) (signers : List ℕ) (threshold : ℕ)
    (cap : ℤ) (window age wpi usdc : ℕ) (w : W) where
  initialize-started :
      Returns
        (λ _ c.
          (1 ≤ threshold)
          × (threshold ≤ length signers)
          × (c.store ≡ started admin signers threshold cap window age wpi usdc))
        (initialize env admin signers threshold cap window age wpi usdc
          (record { store = deployed; tokens = w }))
  unfolding initialize
  initialize-started = ground arith

  started-IsQuorate :
      distinct signers ≡ true
      → 1 ≤ threshold
      → threshold ≤ length signers
      → IsQuorate (started admin signers threshold cap window age wpi usdc)
  unfolding lookup is_deposit_processed read_threshold next_proposal_id sum_by
  started-IsQuorate d low high =
      let total = parts_of_eq (enrol-sum signers [] d (λ a h. refl)) in
      record {
        has_admin = refl;
        fresh = λ id h. refl;
        kept = tt;
        processed = λ id p found e. cc;
        has_threshold = low;
        reachable = high;
        signers_counted = omega (int_laws, total);
      }

  -- After a first call of `initialize` that returns, with different signers, and whatever calls follow, in
  -- whatever order and whichever of them fail: the threshold is at least one and at most the recorded
  -- number of signers, which is the number of active ones; every proposal is a mint or a release of more
  -- than zero with a vote and no voter twice, and is pending or executed; and the nonce of every executed
  -- proposal is marked.
  pub history-IsQuorate :
      (calls : List (Env × Request))
      → distinct signers ≡ true
      → Returns
          (λ _ c. IsQuorate (history (execute t) c calls).store)
          (initialize env admin signers threshold cap window age wpi usdc
            (record { store = deployed; tokens = w }))
  history-IsQuorate calls d =
      weaken _ _
        (initialize {W = W} env admin signers threshold cap window age wpi usdc
          (record { store = deployed; tokens = w }))
        initialize-started
        (λ _ c made.
          history_lem (execute t) (λ c. IsQuorate c.store) (execute-IsQuorate t) calls c
            (rw made.2 (started-IsQuorate d made.0 made.1)))
