-- ===== src/LendingPool/Books.antt =====
-- The part of the storage of contracts/lending-pool/src/lib.rs that debts and collateral are in, and
-- the amounts of a repayment, of a liquidation and of the interest.
use suban.Base.{ℕ, ◌≡◌, arith, refl, false, Option, none, some}
use suban.Int.{ℤ, pos, negsuc, ◌+ℤ◌, min_ℤ, leb_ℤ, ◌<ℤ◌, ◌*ℤ◌, ◌/ℤ◌, int_laws, parts_of_eq}
use suban.Dict.{Dict, insert, lookup-insert_self, nat_eq}
use suban.Host.{Env}
use suban.Tokens.{Tokens, Chain}
use suban.LendingPool.Store.{
  Store, read_total_borrows, read_borrow, read_liquidation_bonus, read_interest_rate, pool_asset,
  collateral_token,
}

-- The terms on which positions are compared.
pub record SameTerms (s s' : Store) : Type 0 where
  pub same_oracle : s'.price_oracle ≡ s.price_oracle
  pub same_age : s'.oracle_max_age ≡ s.oracle_max_age
  pub same_asset : s'.collateral_asset ≡ s.collateral_asset
  pub same_token : s'.collateral_token ≡ s.collateral_token
  pub same_threshold : s'.liquidation_threshold ≡ s.liquidation_threshold
  pub same_rate : s'.interest_rate ≡ s.interest_rate

-- Debts, collateral, and the total of the debts.
pub record Books : Type 0 where
  pub borrows : Dict ℕ ℤ
  pub collateral : Dict ℕ ℤ
  pub total : ℤ

abbrev pub books : Store → Books
books s = record {
  borrows = s.user_borrows;
  collateral = s.user_collateral;
  total = read_total_borrows s;
}

abbrev pub Leaves : Store → Store → Books → Type 0
Leaves s s' b = (books s' ≡ b) × SameTerms s s'

-- A new debt, and new collateral, before anything else is written.
abbrev pub with_borrow : Store → ℕ → ℤ → Store
with_borrow s u x = record s { user_borrows = insert u x s.user_borrows }

abbrev pub with_collateral : Store → ℕ → ℤ → Store
with_collateral s u x = record s { user_collateral = insert u x s.user_collateral }

-- The interest of all loans over a number of ledgers.
abbrev pub interest : Store → ℕ → ℤ
interest s ledgers_passed =
    read_total_borrows s *ℤ read_interest_rate s *ℤ pos ledgers_passed /ℤ pos 1000000000

pub no_interest : (a : ℤ) → a *ℤ pos 0 /ℤ pos 1000000000 ≡ pos 0
unfolding ◌*ℤ◌ ◌/ℤ◌
no_interest (pos a) = ground arith
no_interest (negsuc a) = ground arith

pub no_change : (a b : ℤ) → b ≡ pos 0 → a +ℤ b ≡ a
no_change a b e = omega (int_laws, parts_of_eq e)

-- What a liquidation of at most `x` repays, and the collateral that it seizes for it.
abbrev pub paid : Store → ℕ → ℤ → ℤ
paid s u x = min_ℤ x (read_borrow s u)

abbrev pub seized : Store → ℕ → ℤ → ℤ
seized s u x = paid s u x *ℤ (pos 10000 +ℤ read_liquidation_bonus s) /ℤ pos 10000

-- The tokens after `p` of the pool's asset went from `l` to the pool, and then `q` of the
-- collateral back.
abbrev pub exchanged :
    {W : Type 0} → Tokens W → Env → (l : ℕ) → (p q : ℤ) → Chain Store W → Option W
exchanged t env l p q c =
    elim (t.transfer (pool_asset env c.store) l env.current_contract_address p c.tokens) [
      | none ↦ none
      | some w ↦ t.transfer (collateral_token env c.store) env.current_contract_address l q w
    ]

pub test_pos : (x : ℤ) → leb_ℤ x (pos 0) ≡ false → pos 0 <ℤ x
test_pos x h = ground arith

pub with_borrow_read : (s : Store) (u : ℕ) (x : ℤ) → read_borrow (with_borrow s u x) u ≡ x
unfolding read_borrow
with_borrow_read s u x = rw (lookup-insert_self u x s.user_borrows) refl
