-- ===== src/Portfolio/Balances.antt =====
-- The base balance after a fill: what each transition of the portfolio does to it.
use binance_testnet_trading.Base.{Bool, Bool-cases, Option-cases, arith, inl, inr, ok, ◌≡◌}
use binance_testnet_trading.Numbers.{Decimals}
use binance_testnet_trading.Portfolio.{
  PortfolioState, apply_buy, apply_fill_delta, apply_partial_fill_increase, apply_sell, buy_side,
  entry_price, increase, is_long, reduce, sell_side,
}

module _ {D : Type 0} ⦃num : Decimals D⦄ where
  open num use {add, sub, div}

  apply_buy_base :
      (s : PortfolioState D) (quantity price fee : D) (estimated : Bool) {t : PortfolioState D}
      → apply_buy s quantity price fee estimated ≡ ok t
      → t.base_balance ≡ add s.base_balance quantity
  unfolding apply_buy
  apply_buy_base s quantity price fee estimated e = ground arith

  increase_base :
      (s : PortfolioState D) (quantity price fee : D) (estimated : Bool) {t : PortfolioState D}
      → apply_partial_fill_increase s quantity price fee estimated ≡ ok t
      → t.base_balance ≡ add s.base_balance quantity
  unfolding apply_partial_fill_increase increase
  increase_base s quantity price fee estimated e = elim (Option-cases (entry_price s)) [
    | inl closed ↦ ground arith
    | inr (entry, opened) ↦ ground arith
  ]

  apply_sell_base :
      (s : PortfolioState D) (quantity price fee : D) (estimated : Bool) {t : PortfolioState D}
      → apply_sell s quantity price fee estimated ≡ ok t
      → t.base_balance ≡ sub s.base_balance quantity
  unfolding apply_sell reduce
  apply_sell_base s quantity price fee estimated e = elim (Option-cases (entry_price s)) [
    | inl closed ↦ ground arith
    | inr (entry, opened) ↦ ground arith
  ]

  pub apply_fill_delta_bought :
      (s : PortfolioState D) (base quote fee_quote fee_base : D) (estimated : Bool)
      {t : PortfolioState D}
      → apply_fill_delta s buy_side base quote fee_quote fee_base estimated ≡ ok t
      → t.base_balance ≡ add s.base_balance (sub base fee_base)
  unfolding apply_fill_delta
  apply_fill_delta_bought s base quote fee_quote fee_base estimated {t = t} e =
      let net = sub base fee_base in
      let price = div quote net in
      elim (Bool-cases (is_long s.position_side)) [
        | inl open_position ↦
            let grown : apply_partial_fill_increase s net price fee_quote estimated ≡ ok t =
              ground arith in
            increase_base s net price fee_quote estimated grown
        | inr closed ↦
            let bought : apply_buy s net price fee_quote estimated ≡ ok t = ground arith in
            apply_buy_base s net price fee_quote estimated bought
      ]

  pub apply_fill_delta_sold :
      (s : PortfolioState D) (base quote fee_quote fee_base : D) (estimated : Bool)
      {t : PortfolioState D}
      → apply_fill_delta s sell_side base quote fee_quote fee_base estimated ≡ ok t
      → t.base_balance ≡ sub s.base_balance base
  unfolding apply_fill_delta
  apply_fill_delta_sold s base quote fee_quote fee_base estimated {t = t} e =
      let price = div quote base in
      let sold : apply_sell s base price fee_quote estimated ≡ ok t = ground arith in
      apply_sell_base s base price fee_quote estimated sold
