-- ===== src/FeeRouter/Configs.antt =====
-- The configurations of contracts/fee-router/src/lib.rs after every history of calls.
use Prim.Native.String.{String}
use suban.Base.{ℕ, ◌+◌, ◌≡◌, arith, ap, sym, none, List, [], ◌∷◌}
use mathlib.Core.Path.{subst}
use suban.Int.{ℤ}
use suban.Host.{Env, Returns, weaken, history, history_lem}
use suban.Tokens.{Tokens, Chain, IsLedger}
use suban.Hub.Types.{FeeConfig}
use suban.FeeRouter.Router
use suban.FeeRouter.Routes.{route_fees-Routes}
use suban.FeeRouter.Router.{Store, Action, admin_only}

pub data Request : Type 0 where
  initialize : (admin : ℕ) → Request
  set_fee_config : (admin : ℕ) → (fee_type : String) → FeeConfig → Request
  set_admin : (admin new_admin : ℕ) → Request
  route_fees :
      (source token : ℕ)
      → (fee_type : String) → (total_fee : ℤ)
      → (lp_dest protocol_dest backstop_dest platform_dest : ℕ) → Request

-- The four shares are all of a fee, in ten thousandths.
abbrev pub IsWhole : FeeConfig → Type 0
IsWhole g = g.lp_share + g.protocol_share + g.backstop_share + g.platform_share ≡ 10_000

abbrev pub AllWhole : List (String × FeeConfig) → Type 0
AllWhole [] = Unit
AllWhole ((name, g) ∷ configs) = IsWhole g × AllWhole configs

abbrev pub deployed : Store
deployed = record { admin = none; fee_config = [] }

module _ {W : Type 0} (t : Tokens W) where
  unfoldable pub execute : Env → Request → Action W (Unit {0})
  execute env (initialize admin) = Router.initialize env admin
  execute env (set_fee_config admin fee_type config) =
      Router.set_fee_config env admin fee_type config
  execute env (set_admin admin new_admin) = Router.set_admin env admin new_admin
  execute env (route_fees source token fee_type total_fee d1 d2 d3 d4) =
      Router.route_fees t env source token fee_type total_fee d1 d2 d3 d4

module _ {W : Type 0} (t : Tokens W) (laws : IsLedger t) where
  abbrev Whole : Chain Store W → Type 0
  Whole c = AllWhole c.store.fee_config

  initialize-Whole :
      (env : Env) (admin : ℕ) (c : Chain Store W)
      → Whole c
      → Returns (λ _ c'. Whole c') (Router.initialize env admin c)
  unfolding Router.initialize
  initialize-Whole env admin c v = ground arith

  set_fee_config-Whole :
      (env : Env) (admin : ℕ) (fee_type : String) (g : FeeConfig) (c : Chain Store W)
      → Whole c
      → Returns (λ _ c'. Whole c') (Router.set_fee_config env admin fee_type g c)
  unfolding Router.set_fee_config admin_only
  set_fee_config-Whole env admin fee_type g c v = ground arith

  set_admin-Whole :
      (env : Env) (admin new_admin : ℕ) (c : Chain Store W)
      → Whole c
      → Returns (λ _ c'. Whole c') (Router.set_admin env admin new_admin c)
  unfolding Router.set_admin admin_only
  set_admin-Whole env admin new_admin c v = ground arith

  execute-Whole :
      (env : Env) (r : Request) (c : Chain Store W)
      → Whole c
      → Returns (λ _ c'. Whole c') (execute t env r c)
  unfolding execute
  execute-Whole env (initialize admin) c v = initialize-Whole env admin c v
  execute-Whole env (set_fee_config admin fee_type g) c v =
      set_fee_config-Whole env admin fee_type g c v
  execute-Whole env (set_admin admin new_admin) c v = set_admin-Whole env admin new_admin c v
  execute-Whole env (route_fees source token fee_type total d1 d2 d3 d4) c v =
      weaken _ _ (Router.route_fees t env source token fee_type total d1 d2 d3 d4 c)
        (route_fees-Routes t laws token source source env fee_type total d1 d2 d3 d4 c)
        (λ _ c' r. subst AllWhole (ap (λ s. s.fee_config) (sym r.2.5)) v)

  -- Whatever calls a new router receives, in whatever order and whichever of them fail, behind tokens that
  -- keep SEP-41's books: the four shares of every stored configuration add up to ten thousand.
  pub history-AllWhole :
      (w : W) (calls : List (Env × Request))
      → AllWhole
          (history (execute t) (record { store = deployed; tokens = w }) calls).store.fee_config
  history-AllWhole w calls =
      history_lem (execute t) Whole execute-Whole calls (record { store = deployed; tokens = w }) tt
