-- ===== src/FeeRouter/Tests.antt =====
-- Runs of contracts/fee-router/src/lib.rs, and the theorems at inputs that meet their hypotheses.
use suban.Base.{◌≡◌, refl, true, some, List, [], ◌∷◌, ◌==◌, if◌then◌else◌}
use suban.Int.{pos, negsuc, ◌+ℤ◌, ◌-ℤ◌, ◌*ℤ◌, ◌/ℤ◌}
use suban.Host.{Env, panic, Returns, history, fits_i128, fits_u32}
use suban.Tokens.{Chain, Balances, ledger, ledger-IsLedger}
use suban.Hub.Types.{FeeConfig}
use suban.FeeRouter.Router.{
  Store, get_fee_config, initialize, set_fee_config, admin_only, part_of, route_part, pay_parts,
  route_fees,
}
use suban.FeeRouter.Routes.{Routes, route_fees-Routes}
use suban.FeeRouter.Configs.{Request, execute, deployed, AllWhole, history-AllWhole}

abbrev env : Env
env = record {
  sequence = 10;
  timestamp = 50;
  current_contract_address = 100;
  authorized = λ a. true;
}

abbrev shares : FeeConfig
shares = record {
  lp_share = 6000;
  protocol_share = 2500;
  backstop_share = 1000;
  platform_share = 500;
}

abbrev purse : Balances
purse k a = if a == 2 then pos 1000 else pos 0

abbrev calls : List (Env × Request)
calls =
    (env, Request.initialize 1)
    ∷ (env, Request.set_fee_config 1 "swap" shares)
    ∷ (env, Request.route_fees 2 20 "swap" (pos 333) 3 4 5 6)
    ∷ []

abbrev router : Chain Store Balances
router = history (execute ledger) (record { store = deployed; tokens = purse }) calls

-- The platform gets the remainder.
parts :
    (router.tokens 20 2
      ∷ router.tokens 20 3
      ∷ router.tokens 20 4
      ∷ router.tokens 20 5
      ∷ router.tokens 20 6
      ∷ [])
    ≡ (pos 667 ∷ pos 199 ∷ pos 83 ∷ pos 33 ∷ pos 18 ∷ [])
unfolding history execute initialize set_fee_config admin_only get_fee_config part_of route_part
    pay_parts route_fees fits_i128 fits_u32 ◌+ℤ◌ ◌-ℤ◌ ◌*ℤ◌ ◌/ℤ◌
parts = refl

-- A negative fee is refused.
negative : route_fees ledger env 2 20 "swap" (negsuc 99) 3 4 5 6 router ≡ panic
unfolding history execute initialize set_fee_config admin_only get_fee_config part_of route_part
    pay_parts route_fees fits_i128 fits_u32 ◌+ℤ◌ ◌-ℤ◌ ◌*ℤ◌ ◌/ℤ◌
negative = refl

abbrev routing : Chain Store Balances
routing = record {
  store = record { admin = some 1; fee_config = ("swap", shares) ∷ [] };
  tokens = purse;
}

route_fees-Routes_example :
    Returns
      (λ _ c'.
        (g : FeeConfig) × (get_fee_config "swap" (("swap", shares) ∷ []) ≡ some g)
        × Routes ledger ledger-IsLedger 20 2 3 3 4 5 6 (pos 333) g routing c')
      (route_fees ledger env 2 20 "swap" (pos 333) 3 4 5 6 routing)
route_fees-Routes_example =
    route_fees-Routes ledger ledger-IsLedger 20 2 3 env "swap" (pos 333) 3 4 5 6 routing

history-AllWhole_example :
    AllWhole
      (history
        (execute ledger)
        (record { store = deployed; tokens = purse })
        calls).store.fee_config
history-AllWhole_example = history-AllWhole ledger ledger-IsLedger purse calls
