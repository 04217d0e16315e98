-- ===== src/StrategyVault/Exit.antt =====
-- Withdrawals from contracts/strategy-vault/src/lib.rs.
use suban.Base.{ℕ, ◌≡◌, arith, true, some}
use suban.Int.{ℤ, pos, negsuc, ◌-ℤ◌, ◌*ℤ◌, ◌≤ℤ◌, ◌<ℤ◌, int_laws, parts_of_eq}
use suban.Int.Order.{mul_mono}
use suban.Host.{Env, ok, fits_i128}
use suban.Tokens.{Tokens, Chain}
use suban.StrategyVault.Vault.{
  Store, withdraw, read_asset, read_total_assets, read_total_shares, read_shares, write_shares,
}
use suban.StrategyVault.Accounts.{IsAtPar, share_bounds, moved, whole_share}

pub fits_below : (a b : ℤ) → pos 0 ≤ℤ a → a ≤ℤ b → fits_i128 b ≡ true → fits_i128 a ≡ true
unfolding fits_i128
fits_below (pos a) (pos b) p q h = ground arith
fits_below (negsuc a) b p q h = absurd (omega (arith, p))
fits_below a (negsuc b) p q h = absurd (omega (arith, p, q))

one_times : (a : ℤ) → pos 0 ≤ℤ a → pos 1 *ℤ a ≡ a
unfolding ◌*ℤ◌
one_times (pos a) p = ground arith
one_times (negsuc a) p = absurd (omega (arith, p))

at_least_once : (n a : ℤ) → pos 0 <ℤ n → pos 0 ≤ℤ a → a ≤ℤ n *ℤ a
at_least_once n a p q =
    let m = mul_mono (pos 1) n a (omega (arith, p)) q in
    let e = parts_of_eq (one_times a q) in omega (arith, m, e)

fits_less :
    (a n m : ℤ) → pos 0 <ℤ n → n ≤ℤ a → a ≤ℤ m → fits_i128 m ≡ true → fits_i128 (a -ℤ n) ≡ true
fits_less a n m p q r h = fits_below (a -ℤ n) m (omega (int_laws, q)) (omega (int_laws, p, r)) h

module _ {W : Type 0} (t : Tokens W) (env : Env) (c : Chain Store W) (v : IsAtPar c.store) where
  abbrev s : Store
  s = c.store

  -- On books at par, paused or not: whoever signs can withdraw any number of shares above zero, up to
  -- what he has, if the product that the code computes fits an `i128` and the token makes the
  -- transfer. He gets one unit for each share, and exactly these shares and units leave the books.
  pub withdraw-pays :
      (u k : ℕ) (n : ℤ) (w : W)
      → env.authorized u ≡ true
      → pos 0 <ℤ n
      → n ≤ℤ read_shares s u
      → fits_i128 (n *ℤ read_total_assets s) ≡ true
      → s.asset ≡ some k
      → t.transfer k env.current_contract_address u n c.tokens ≡ some w
      → withdraw t env u n c
        ≡ ok (
          n,
          record {
            store =
                moved s u
                  (read_shares s u -ℤ n)
                  (read_total_assets s -ℤ n)
                  (read_total_shares s -ℤ n);
            tokens = w;
          },
        )
  unfolding withdraw read_asset write_shares
  withdraw-pays u k n w signed positive enough fits has paid =
      let bounds = share_bounds s u v in
      let par = parts_of_eq v.at_par in
      let whole = whole_share t c v u n positive enough in
      let below = at_least_once n (read_total_assets s) positive (omega (arith, bounds, par)) in
      let all = fits_below (read_total_assets s) _ (omega (arith, bounds, par)) below fits in
      let fits_n =
        fits_below n _ (omega (arith, positive)) (omega (arith, bounds, par, enough)) all in
      let own = fits_less (read_shares s u) n _ positive enough (omega (arith, bounds, par)) all in
      let assets =
        fits_less (read_total_assets s) n _ positive (omega (arith, bounds, par, enough))
          (omega arith) all in
      let shares =
        fits_less (read_total_shares s) n _ positive (omega (arith, bounds, enough))
          (omega (arith, par)) all in
      let some_shares : pos 0 <ℤ read_total_shares s = omega (arith, bounds, positive, enough) in
      ground (
        arith, signed, positive, enough, fits, has, paid, whole, fits_n, own, assets, shares,
        some_shares,
      )
