-- ===== src/Portfolio/Equity.antt =====
-- The equity at a fill's own price, before and after it, where no sum is rounded.
use binance_testnet_trading.Base.{Bool, Option-cases, arith, inl, inr, ok, ◌≡◌}
use binance_testnet_trading.Numbers.{Decimals, IsExact}
use binance_testnet_trading.Portfolio.{
  PortfolioState, apply_buy, apply_sell, entry_price, equity, reduce,
}

module _ {D : Type 0} ⦃num : Decimals D⦄ (exact : IsExact D) where
  open num use {nought, add, sub, mul, div, lt}
  open exact use {add_comm, add_assoc, sub_add, add_mul}

  spent :
      (q b n p f : D) → add (add (sub q (add (mul n p) f)) (mul (add b n) p)) f ≡ add q (mul b p)
  spent q b n p f =
      let cost = add (mul n p) f in
      cc (
        add_mul b n p,
        add_assoc (sub q cost) (add (mul b p) (mul n p)) f,
        add_assoc (mul b p) (mul n p) f,
        add_comm (mul b p) cost,
        add_assoc (sub q cost) cost (mul b p),
        sub_add q cost,
      )

  sold : (q b n p f : D) → add (add (add q (sub (mul n p) f)) (mul (sub b n) p)) f ≡ add q (mul b p)
  sold q b n p f =
      let kept = sub (mul n p) f in
      let rest = mul (sub b n) p in
      cc (
        add_assoc (add q kept) rest f,
        add_assoc q kept (add rest f),
        add_comm rest f,
        add_assoc kept f rest,
        sub_add (mul n p) f,
        add_comm (mul n p) rest,
        add_mul (sub b n) n p,
        sub_add b n,
      )

  -- In exact arithmetic, after a purchase at a price the equity at that price is short of what it was
  -- by the fee.
  pub apply_buy-equity :
      (s : PortfolioState D) (quantity price fee : D) (estimated : Bool) {t : PortfolioState D}
      → apply_buy s quantity price fee estimated ≡ ok t
      → add (equity t price) fee ≡ equity s price
  unfolding apply_buy equity
  apply_buy-equity s quantity price fee estimated {t = t} e =
      let cost = add (mul quantity price) fee in
      let paid : t.quote_balance ≡ sub s.quote_balance cost = ground arith in
      let got : t.base_balance ≡ add s.base_balance quantity = ground arith in
      rw (paid, got) (spent s.quote_balance s.base_balance quantity price fee)

  -- In exact arithmetic, after a sale at a price the equity at that price is short of what it was by
  -- the fee.
  pub apply_sell-equity :
      (s : PortfolioState D) (quantity price fee : D) (estimated : Bool) {t : PortfolioState D}
      → apply_sell s quantity price fee estimated ≡ ok t
      → add (equity t price) fee ≡ equity s price
  unfolding apply_sell reduce equity
  apply_sell-equity s quantity price fee estimated {t = t} e = elim (Option-cases (entry_price s)) [
    | inl closed ↦ ground arith
    | inr (entry, opened) ↦
        let got : t.quote_balance ≡ add s.quote_balance (sub (mul quantity price) fee) =
          ground arith in
        let left : t.base_balance ≡ sub s.base_balance quantity = ground arith in
        rw (got, left) (sold s.quote_balance s.base_balance quantity price fee)
  ]
