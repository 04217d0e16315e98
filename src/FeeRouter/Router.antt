-- ===== src/FeeRouter/Router.antt =====
-- The storage and the operations of contracts/fee-router/src/lib.rs.
use text.Mathlib.Text.{◌==◌ as str_eq}
use Prim.Native.String.{String}
use suban.Base.{
  ℕ, Bool, true, false, not, Option, none, some, List, [], ◌∷◌, is_some, ◌==◌, if◌then◌else◌,
}
use suban.Int.{ℤ, pos, ltb_ℤ, ◌==ℤ◌}
use suban.Host.{
  Env, Call, ◌>>=◌, ◌>>◌, pure, unwrap, ok_or, fail_if, panic_if, require_auth, add_u32, add_i128,
  sub_i128, mul_i128, div_i128,
}
use suban.Tokens.{Tokens, Chain, token_transfer, reads, writes}
use suban.Hub.Types.{FeeConfig}

pub data FeeError : Type 0 where
  not_admin invalid_bps no_routes total_bps_mismatch : FeeError

-- The instance storage; the configurations stand under the text of their fee type, and a new one
-- goes to the front, where it is found before the one it replaces.
pub record Store : Type 0 where
  pub admin : Option ℕ
  pub fee_config : List (String × FeeConfig)

abbrev pub Action : Type 0 → Type 0 → Type 0
Action W A = Call (Chain Store W) FeeError A

unfoldable pub get_fee_config : String → List (String × FeeConfig) → Option FeeConfig
get_fee_config fee_type [] = none
get_fee_config fee_type ((name, config) ∷ configs) =
    if str_eq name fee_type then some config else get_fee_config fee_type configs

module _ {W : Type 0} where
  unfoldable pub initialize : Env → ℕ → Action W (Unit {0})
  initialize env admin = do
    initialized ← reads (λ s. is_some s.admin)
    panic_if initialized
    require_auth env admin
    writes (λ s. record s { admin = some admin })

  -- `admin != current_admin`, then `require_auth`
  unfoldable pub admin_only : Env → ℕ → Action W (Unit {0})
  admin_only env admin = do
    current_admin ← unwrap (← reads (λ s. s.admin))
    fail_if (not (admin == current_admin)) not_admin
    require_auth env admin

  unfoldable pub set_fee_config :
      Env → (admin : ℕ) → (fee_type : String) → FeeConfig → Action W (Unit {0})
  unfolding admin_only
  set_fee_config env admin fee_type config = do
    admin_only env admin
    total ← add_u32 config.lp_share config.protocol_share
    total ← add_u32 total config.backstop_share
    total ← add_u32 total config.platform_share
    fail_if (not (total == 10_000)) total_bps_mismatch
    writes (λ s. record s { fee_config = (fee_type, config) ∷ s.fee_config })

  unfoldable pub set_admin : Env → (admin new_admin : ℕ) → Action W (Unit {0})
  unfolding admin_only
  set_admin env admin new_admin = do
    admin_only env admin
    writes (λ s. record s { admin = some new_admin })

  -- `total_fee * share as i128 / 10000`
  unfoldable pub part_of : (total_fee : ℤ) → (share : ℕ) → Action W ℤ
  part_of total_fee share = do
    product ← mul_i128 total_fee (pos share)
    div_i128 product (pos 10_000)

module _ {W : Type 0} (t : Tokens W) where
  -- `if amount > 0 { asset.transfer(&source, &dest, &amount); routed += amount; }`
  unfoldable pub route_part : Bool → (token source dest : ℕ) → (amount routed : ℤ) → Action W ℤ
  route_part true token source dest amount routed = do
    token_transfer t token source dest amount
    add_i128 routed amount
  route_part false token source dest amount routed = pure routed

  -- The four payments of `route_fees`, and the assertion after them.
  unfoldable pub pay_parts :
      (token source lp_dest protocol_dest backstop_dest platform_dest : ℕ)
      → (total_fee lp_amount protocol_amount backstop_amount platform_amount : ℤ)
      → Action W (Unit {0})
  pay_parts token source lp_dest protocol_dest backstop_dest platform_dest total_fee lp_amount
        protocol_amount backstop_amount platform_amount =
      do
        routed ← route_part (ltb_ℤ (pos 0) lp_amount) token source lp_dest lp_amount (pos 0)
        routed ←
            route_part (ltb_ℤ (pos 0) protocol_amount) token source protocol_dest protocol_amount
              routed
        routed ←
            route_part (ltb_ℤ (pos 0) backstop_amount) token source backstop_dest backstop_amount
              routed
        routed ←
            route_part (ltb_ℤ (pos 0) platform_amount) token source platform_dest platform_amount
              routed
        panic_if (not (routed ==ℤ total_fee))

  unfoldable pub route_fees :
      Env
      → (source token : ℕ) → (fee_type : String) → (total_fee : ℤ)
      → (lp_dest protocol_dest backstop_dest platform_dest : ℕ) → Action W (Unit {0})
  route_fees env source token fee_type total_fee lp_dest protocol_dest backstop_dest platform_dest =
      do
        found ← reads (λ s. get_fee_config fee_type s.fee_config)
        config ← ok_or found no_routes
        lp_amount ← part_of total_fee config.lp_share
        protocol_amount ← part_of total_fee config.protocol_share
        backstop_amount ← part_of total_fee config.backstop_share
        rest ← sub_i128 total_fee lp_amount
        rest ← sub_i128 rest protocol_amount
        platform_amount ← sub_i128 rest backstop_amount
        pay_parts token source lp_dest protocol_dest backstop_dest platform_dest total_fee lp_amount
            protocol_amount backstop_amount platform_amount
