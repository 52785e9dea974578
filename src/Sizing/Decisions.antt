-- ===== src/Sizing/Decisions.antt =====
-- What a size that is approved satisfies.
use binance_testnet_trading.Base.{
  Bool-cases, arith, false, inl, inr, none, refl, true, ◌&&◌, ◌||◌, ◌≡◌, ◌⊎◌,
}
use binance_testnet_trading.Numbers.{Decimals, IsOrdered, eq, le, min_of}
use binance_testnet_trading.Sizing.{
  SizingDecision, SymbolFilters, accepted_size, check_minimums, compute_buy_quantity,
  compute_risk_based_buy_quantity, compute_sell_quantity, meets_lot_size, meets_min_notional,
  round_quantity, total_loss_per_unit,
}

module _ {D : Type 0} ⦃num : Decimals D⦄ where
  open num use {nought, mul, lt}

  -- The exchange takes the quantity at that price: it is within the lot size, and its value reaches
  -- the minimum where that applies to market orders.
  pub record IsTradable (filters : SymbolFilters D) (price quantity : D) : Type 0 where
    pub above_min : lt quantity filters.min_qty ≡ false
    pub below_max : (eq filters.max_qty nought ≡ false) → lt filters.max_qty quantity ≡ false
    pub worth :
        filters.apply_min_notional_to_market ≡ true
        → lt (mul price quantity) filters.min_notional ≡ false

  pub minimums-IsTradable :
      (filters : SymbolFilters D) (price quantity : D)
      → meets_lot_size quantity filters ≡ true
      → meets_min_notional price quantity filters ≡ true
      → IsTradable filters price quantity
  unfolding meets_lot_size meets_min_notional
  minimums-IsTradable filters price quantity lot worth = record {
    above_min = ground arith;
    below_max = λ h. ground arith;
    worth = λ h. ground arith;
  }

  -- What a decision says: it approves a positive quantity that the exchange takes, or it carries none.
  abbrev pub Decides : SymbolFilters D → D → D → SizingDecision D → Type 0
  Decides filters price quantity decision =
      ((decision ≡ accepted_size quantity) × IsTradable filters price quantity)
      ⊎ ((decision.approved ≡ false) × (decision.quantity ≡ none))

  pub check_minimums-Decides :
      (price quantity : D) (filters : SymbolFilters D)
      → Decides filters price quantity (check_minimums price quantity filters)
  unfolding check_minimums
  check_minimums-Decides price quantity filters =
      elim (Bool-cases (meets_lot_size quantity filters)) [
        | inl lot ↦ elim (Bool-cases (meets_min_notional price quantity filters)) [
          | inl worth ↦ inl (ground arith, minimums-IsTradable filters price quantity lot worth)
          | inr cheap ↦ inr (ground arith, ground arith)
        ]
        | inr small ↦ inr (ground arith, ground arith)
      ]

  -- A sell is sized at the held quantity rounded down to the step, or rejected with no quantity. An
  -- approved size is positive, no more than what is held, and one that the exchange takes.
  pub compute_sell_quantity_safe :
      (held price : D) (filters : SymbolFilters D)
      → let decision = compute_sell_quantity held price filters in
        let quantity = round_quantity held filters in
        Decides filters price quantity decision
        × (decision.approved ≡ true → (lt nought quantity ≡ true) × (lt held quantity ≡ false))
  unfolding compute_sell_quantity
  compute_sell_quantity_safe held price filters =
      let quantity = round_quantity held filters in
      elim (Bool-cases (le quantity nought || lt held quantity)) [
        | inl none_left ↦ rw none_left (inr (refl, refl), λ h. cc)
        | inr some_left ↦
            rw some_left
              (check_minimums-Decides price quantity filters, λ h. (ground arith, ground arith))
      ]

  -- A purchase sized by allocation is approved only for a positive price and a positive amount to
  -- spend, at a quantity that the exchange takes; otherwise no quantity is given.
  pub compute_buy_quantity_safe :
      (balance price max_allocation min_quote_buffer : D) (filters : SymbolFilters D)
      → let decision = compute_buy_quantity balance price max_allocation min_quote_buffer filters in
        let spendable = num.sub balance min_quote_buffer in
        Decides filters price
          (round_quantity (num.div (mul spendable max_allocation) price) filters)
          decision
        × (decision.approved ≡ true → (lt nought price ≡ true) × (lt nought spendable ≡ true))
  unfolding compute_buy_quantity
  compute_buy_quantity_safe balance price max_allocation min_quote_buffer filters =
      let spendable = num.sub balance min_quote_buffer in
      let quantity = round_quantity (num.div (mul spendable max_allocation) price) filters in
      elim (Bool-cases (lt nought price)) [
        | inl priced ↦ elim (Bool-cases (lt nought spendable)) [
          | inl funded ↦
              rw (priced, funded) (check_minimums-Decides price quantity filters, λ h. (refl, refl))
          | inr broke ↦ rw (priced, broke) (inr (refl, refl), λ h. cc)
        ]
        | inr unpriced ↦ rw unpriced (inr (refl, refl), λ h. cc)
      ]

  -- A purchase sized by risk is approved only for positive prices, a positive equity and a positive
  -- loss per unit, at a quantity that the exchange takes; otherwise no quantity is given. The amount
  -- that is rounded exceeds neither the share of the risk budget nor the cap on the position.
  pub compute_risk_based_buy_quantity_safe :
      (laws : IsOrdered D) (equity entry stop max_risk max_position fee slippage : D)
      (filters : SymbolFilters D)
      → let decision =
          compute_risk_based_buy_quantity equity entry stop max_risk max_position fee slippage
            filters in
        let loss = total_loss_per_unit entry stop fee slippage in
        let by_risk = num.div (mul equity max_risk) loss in
        let by_cap = num.div (mul equity max_position) entry in
        let amount = min_of by_risk by_cap in
        Decides filters entry (round_quantity amount filters) decision
        × (decision.approved ≡ true
            → (lt nought entry ≡ true)
              × (lt nought stop ≡ true)
              × (lt nought equity ≡ true)
              × (lt nought loss ≡ true))
        × (lt by_risk amount ≡ false)
        × (lt by_cap amount ≡ false)
  unfolding compute_risk_based_buy_quantity
  compute_risk_based_buy_quantity_safe laws equity entry stop max_risk max_position fee slippage
        filters =
      let loss = total_loss_per_unit entry stop fee slippage in
      let by_risk = num.div (mul equity max_risk) loss in
      let by_cap = num.div (mul equity max_position) entry in
      let quantity = round_quantity (min_of by_risk by_cap) filters in
      let checked = check_minimums-Decides entry quantity filters in
      let irrefl = laws.lt_irrefl in
      let asymm = laws.lt_asymm by_cap by_risk in
      (
        elim (Bool-cases
            (lt nought entry && lt nought stop && lt nought equity && lt nought loss)) [
              | inl fine ↦ ground (arith, checked)
              | inr bad ↦ inr (ground arith, ground arith)
            ],
        λ h. ground arith,
        ground (arith, irrefl by_risk, asymm),
        ground (arith, irrefl by_cap),
      )
