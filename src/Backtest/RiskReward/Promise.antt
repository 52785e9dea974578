-- ===== src/Backtest/RiskReward/Promise.antt =====
-- What an approved plan promises, before the fill and after it.
use binance_testnet_trading.Base.{
  Bool-cases, Option-cases, arith, false, inl, inr, none, not, refl, some, true, ◌&&◌, ◌≡◌, ◌⊎◌,
}
use binance_testnet_trading.Numbers.{Decimals, Floats, IsOrdered, PlanDecimals, le}
use binance_testnet_trading.Reasons.{rr_approved, rr_post_fill_revalidation_failed}
use binance_testnet_trading.Sizing.{
  SymbolFilters, meets_lot_size, meets_min_notional, round_quantity,
}
use binance_testnet_trading.Backtest.RiskReward.{
  PlannedAmounts, RiskRewardPlan, TradeCosts, affordable_size, build_realized_plan,
  fixed_max_risk_per_trade, gain_per_unit, loss_per_unit, meets_minimum, min_net_reward_to_risk,
  plan_for_target, plan_risk_reward_entry, plan_with, planned_amounts, realize,
  round_target_up_to_tick, solve_target_price, valid_target,
}
use binance_testnet_trading.Sizing.Decisions.{IsTradable, minimums-IsTradable}

module _ {D : Type 0} ⦃num : Decimals D⦄ ⦃plan_num : PlanDecimals D⦄ where
  open num use {nought, one, add, mul, lt}

  -- A target lies above the price that the plan is anchored to, and within the exchange's maximum.
  pub record IsTarget (filters : SymbolFilters D) (anchor target : D) : Type 0 where
    pub above : lt anchor target ≡ true
    pub within : lt nought filters.max_price ≡ true → lt filters.max_price target ≡ false

  valid_target-IsTarget :
      (raw : D) (filters : SymbolFilters D) (anchor : D) {target : D}
      → valid_target raw filters anchor ≡ some target
      → IsTarget filters anchor target
  unfolding valid_target round_target_up_to_tick
  valid_target-IsTarget raw filters anchor h = record {
    above = ground arith;
    within = λ capped. ground arith;
  }

  affordable_size-bounds :
      (laws : IsOrdered D) (equity balance entry fee loss : D)
      → let amount = affordable_size equity balance entry fee loss in
        (lt (num.div (mul equity fixed_max_risk_per_trade) loss) amount ≡ false)
        × (lt (num.div balance (mul entry (add one fee))) amount ≡ false)
  unfolding affordable_size
  affordable_size-bounds laws equity balance entry fee loss =
      let by_risk = num.div (mul equity fixed_max_risk_per_trade) loss in
      let by_cash = num.div balance (mul entry (add one fee)) in
      let irrefl = laws.lt_irrefl in
      (
        ground (arith, irrefl by_risk, laws.lt_asymm by_cash by_risk),
        ground (arith, irrefl by_cash),
      )

module _ {D F : Type 0} ⦃num : Decimals D⦄ ⦃plan_num : PlanDecimals D⦄ ⦃flo : Floats D F⦄ where
  open num use {nought, one, add, sub, mul, lt}

  -- The price of a sale at a level, after slippage.
  abbrev pub sold_at : TradeCosts F → D → D
  sold_at costs level = mul level (sub one (flo.to_decimal costs.slippage_pct))

  -- A fee on an amount.
  abbrev pub fee_on : TradeCosts F → D → D
  fee_on costs amount = mul amount (flo.to_decimal costs.taker_fee_pct)

  -- The stop of a price.
  abbrev pub stop_below : TradeCosts F → D → D
  stop_below costs price = mul price (sub one (flo.to_decimal costs.stop_distance_pct))

  -- What one unit loses when it is bought at an entry and sold at a stop: the difference of the two
  -- prices and both fees.
  abbrev pub net_loss : TradeCosts F → D → D → D
  net_loss costs entry stop =
      let sale = sold_at costs stop in
      add (add (sub entry sale) (fee_on costs entry)) (fee_on costs sale)

  -- What one unit earns when it is bought at an entry and sold at a target.
  abbrev pub net_gain : TradeCosts F → D → D → D
  net_gain costs entry target =
      let sale = sold_at costs target in
      sub (sub (sub sale entry) (fee_on costs entry)) (fee_on costs sale)

  -- The fixed policy on amounts, for a quantity that is bought at `entry`: the stop and the target of
  -- the price that the plan is anchored to, the loss at the stop and the reward at the target after
  -- slippage and fees, and a reward that is at least twice the loss; and the ratios of all these.
  pub record FollowsPolicy (costs : TradeCosts F) (filters : SymbolFilters D)
      (equity anchor entry quantity : D) (amounts : PlannedAmounts D F) : Type 0 where
    pub stops : amounts.stop ≡ stop_below costs anchor
    pub loses : lt nought (net_loss costs entry (stop_below costs anchor)) ≡ true
    pub risks : amounts.risk_quote ≡ mul quantity (net_loss costs entry (stop_below costs anchor))
    pub reaches : IsTarget filters anchor amounts.target
    pub earns : amounts.reward_quote ≡ mul quantity (net_gain costs entry amounts.target)
    pub rewards : lt amounts.reward_quote (mul min_net_reward_to_risk amounts.risk_quote) ≡ false
    pub shares :
        lt nought equity ≡ true
        → (amounts.risk_pct ≡ some (flo.to_float (num.div amounts.risk_quote equity)))
          × (amounts.reward_pct ≡ some (flo.to_float (num.div amounts.reward_quote equity)))
    pub gross_ratio :
        amounts.gross ≡ flo.to_float (num.div (sub amounts.target anchor) (sub anchor amounts.stop))
    pub net_ratio :
        lt nought amounts.risk_quote ≡ true
        → amounts.net ≡ some (flo.to_float (num.div amounts.reward_quote amounts.risk_quote))

  -- The amounts for a valid target follow the policy where the gate lets them through.
  planned_amounts-FollowsPolicy :
      (costs : TradeCosts F) (filters : SymbolFilters D) (equity anchor entry raw quantity : D)
      {target : D}
      → let stop = stop_below costs anchor in
        let amounts : PlannedAmounts D F =
          planned_amounts equity anchor entry stop
            (net_loss costs entry stop)
            target
            quantity
            (flo.to_decimal costs.taker_fee_pct)
            (flo.to_decimal costs.slippage_pct) in
        lt nought (net_loss costs entry stop) ≡ true
        → valid_target raw filters anchor ≡ some target
        → meets_minimum amounts ≡ true
        → FollowsPolicy costs filters equity anchor entry quantity amounts
  unfolding planned_amounts gain_per_unit meets_minimum
  planned_amounts-FollowsPolicy costs filters equity anchor entry raw quantity loses found met =
      record {
        stops = refl;
        loses = loses;
        risks = refl;
        reaches = valid_target-IsTarget raw filters anchor found;
        earns = refl;
        rewards = ground (arith, met);
        shares = λ rich. rw rich (refl, refl);
        gross_ratio = refl;
        net_ratio = λ risky. rw risky refl;
      }

  plan_for_target-FollowsPolicy :
      (costs : TradeCosts F) (equity reference entry quantity : D) (filters : SymbolFilters D)
      → let fee = flo.to_decimal costs.taker_fee_pct in
        let slippage = flo.to_decimal costs.slippage_pct in
        let stop = stop_below costs reference in
        let loss = net_loss costs entry stop in
        let plan : RiskRewardPlan D F =
          plan_for_target equity reference entry stop loss quantity fee slippage filters in
        lt nought loss ≡ true
        → ((amounts : PlannedAmounts D F) × (plan
              ≡ plan_with true rr_approved (some quantity) amounts)
            × FollowsPolicy costs filters equity reference entry quantity amounts)
          ⊎ ((plan.approved ≡ false) × (plan.quantity ≡ none))
  unfolding plan_for_target
  plan_for_target-FollowsPolicy costs equity reference entry quantity filters l =
      let fee = flo.to_decimal costs.taker_fee_pct in
      let slippage = flo.to_decimal costs.slippage_pct in
      let stop = stop_below costs reference in
      let loss = net_loss costs entry stop in
      let raw = solve_target_price entry loss fee slippage in
      elim (Option-cases (valid_target raw filters reference)) [
        | inl missed ↦ rw (missed, plan_for_target) (inr (refl, refl))
        | inr (target, found) ↦
            let amounts : PlannedAmounts D F =
              planned_amounts equity reference entry stop loss target quantity fee slippage in
            elim (Bool-cases (meets_minimum amounts)) [
              | inl met ↦
                  rw (found, met, plan_for_target)
                    (inl (
                      amounts,
                      refl,
                      planned_amounts-FollowsPolicy costs filters equity reference entry raw
                          quantity l found met,
                    ))
              | inr unmet ↦ rw (found, unmet, plan_for_target) (inr (refl, refl))
            ]
      ]

  -- A plan is approved only for a positive price, equity and quote balance, at a positive quantity that
  -- the exchange takes at the reference price. Its stop is the configured distance below that price;
  -- its target lies above that price and within the maximum price. Its net risk is the quantity times
  -- what a unit loses from the entry to the stop, its net reward the quantity times what a unit earns
  -- from the entry to the target, each after slippage and both fees; the first is positive for a unit,
  -- and the second is at least twice the first. The amount that is rounded to the quantity is within
  -- the risk budget and the quote balance. A plan that is not approved carries no quantity.
  pub plan_risk_reward_entry-FollowsPolicy :
      (laws : IsOrdered D) (equity balance reference : D) (costs : TradeCosts F)
      (filters : SymbolFilters D)
      → let plan = plan_risk_reward_entry equity balance reference costs filters in
        let fee = flo.to_decimal costs.taker_fee_pct in
        let slippage = flo.to_decimal costs.slippage_pct in
        let entry = mul reference (add one slippage) in
        let loss = net_loss costs entry (stop_below costs reference) in
        let amount = affordable_size equity balance entry fee loss in
        let quantity = round_quantity amount filters in
        (((amounts : PlannedAmounts D F) × (plan
              ≡ plan_with true rr_approved (some quantity) amounts)
            × FollowsPolicy costs filters equity reference entry quantity amounts)
          × (lt nought reference ≡ true)
          × (lt nought equity ≡ true)
          × (lt nought balance ≡ true)
          × (lt nought quantity ≡ true)
          × IsTradable filters reference quantity
          × (lt (num.div (mul equity fixed_max_risk_per_trade) loss) amount ≡ false)
          × (lt (num.div balance (mul entry (add one fee))) amount ≡ false))
        ⊎ ((plan.approved ≡ false) × (plan.quantity ≡ none))
  unfolding plan_risk_reward_entry loss_per_unit
  plan_risk_reward_entry-FollowsPolicy laws equity balance reference costs filters =
      let fee = flo.to_decimal costs.taker_fee_pct in
      let slippage = flo.to_decimal costs.slippage_pct in
      let stop = stop_below costs reference in
      let entry = mul reference (add one slippage) in
      let loss = net_loss costs entry stop in
      let amount = affordable_size equity balance entry fee loss in
      let quantity = round_quantity amount filters in
      let is_fraction =
        flo.exceeds costs.stop_distance_pct 0
        && not (flo.at_most (flo.to_float one) costs.stop_distance_pct) in
      let fine =
        lt nought reference
        && lt nought equity
        && lt nought balance
        && is_fraction
        && lt nought loss
        && lt nought quantity
        && meets_lot_size quantity filters
        && meets_min_notional reference quantity filters in
      let planned : RiskRewardPlan D F =
        plan_for_target equity reference entry stop loss quantity fee slippage filters in
      let follows = plan_for_target-FollowsPolicy costs equity reference entry quantity filters in
      let bounded = affordable_size-bounds laws equity balance entry fee loss in
      elim (Bool-cases fine) [
        | inl passed ↦
            let same : plan_risk_reward_entry equity balance reference costs filters ≡ planned =
              ground arith in
            let lot : meets_lot_size quantity filters ≡ true = ground arith in
            let worth : meets_min_notional reference quantity filters ≡ true = ground arith in
            rw same (elim (follows (ground arith)) [
              | inl kept ↦ inl (
                kept,
                ground arith,
                ground arith,
                ground arith,
                ground arith,
                minimums-IsTradable filters reference quantity lot worth,
                bounded.0,
                bounded.1,
              )
              | inr refused ↦ inr refused
            ])
        | inr failed ↦ inr (ground arith, ground arith)
      ]

  realize-FollowsPolicy :
      (plan : RiskRewardPlan D F) (quantity fill_price : D) (costs : TradeCosts F) (equity : D)
      (filters : SymbolFilters D)
      → plan.approved ≡ true
      → plan.quantity ≡ some quantity
      → let realized = realize plan quantity fill_price costs equity filters in
        (realized.quantity ≡ some quantity)
        × (((amounts : PlannedAmounts D F) × (realized
                ≡ plan_with true plan.reason_code (some quantity) amounts)
              × FollowsPolicy costs filters equity fill_price fill_price quantity amounts
              × (lt (mul equity fixed_max_risk_per_trade) amounts.risk_quote ≡ false))
            ⊎ ((realized.approved ≡ false)
                × (realized.reason_code ≡ rr_post_fill_revalidation_failed)))
  unfolding realize loss_per_unit planned_amounts
  realize-FollowsPolicy plan quantity fill_price costs equity filters p q =
      let fee = flo.to_decimal costs.taker_fee_pct in
      let slippage = flo.to_decimal costs.slippage_pct in
      let stop = stop_below costs fill_price in
      let loss = net_loss costs fill_price stop in
      let raw = solve_target_price fill_price loss fee slippage in
      let budget = mul equity fixed_max_risk_per_trade in
      elim (Bool-cases (lt nought loss)) [
        | inr harmless ↦ rw (harmless, realize) (q, inr (refl, refl))
        | inl loses ↦ elim (Option-cases (valid_target raw filters fill_price)) [
          | inl missed ↦ rw (loses, missed, realize) (q, inr (refl, refl))
          | inr (target, found) ↦
              let amounts : PlannedAmounts D F =
                planned_amounts equity fill_price fill_price stop loss target quantity fee
                  slippage in
              elim (Bool-cases (le amounts.risk_quote budget && meets_minimum amounts)) [
                | inl met ↦
                    rw (loses, found, met, p, q, realize)
                      (
                        refl,
                        inl (
                          amounts,
                          refl,
                          planned_amounts-FollowsPolicy costs filters equity fill_price fill_price
                              raw quantity loses found (ground (arith, met)),
                          ground arith,
                        ),
                      )
                | inr unmet ↦ rw (loses, found, unmet, realize) (q, inr (refl, refl))
              ]
        ]
      ]

  -- After the fill the plan is anchored to the fill's price, for the same quantity. It stays approved
  -- only where its stop is the configured distance below that price, its target lies above that price
  -- and within the maximum price, its net risk and its net reward are what the quantity loses at that
  -- stop and earns at that target after slippage and both fees, the net risk is within the risk budget,
  -- and the net reward is at least twice the net risk; then its reason is the plan's. Otherwise it is
  -- rejected as failed after the fill. Only an approved plan with a quantity can be anchored again.
  pub build_realized_plan-FollowsPolicy :
      (plan : RiskRewardPlan D F) (fill_price : D) (costs : TradeCosts F) (equity : D)
      (filters : SymbolFilters D) {realized : RiskRewardPlan D F}
      → build_realized_plan plan fill_price costs equity filters ≡ some realized
      → (plan.approved ≡ true)
        × ((quantity : D) × (plan.quantity ≡ some quantity)
            × (realized.quantity ≡ some quantity)
            × (((amounts : PlannedAmounts D F) × (realized
                    ≡ plan_with true plan.reason_code (some quantity) amounts)
                  × FollowsPolicy costs filters equity fill_price fill_price quantity amounts
                  × (lt (mul equity fixed_max_risk_per_trade) amounts.risk_quote ≡ false))
                ⊎ ((realized.approved ≡ false)
                    × (realized.reason_code ≡ rr_post_fill_revalidation_failed))))
  unfolding build_realized_plan
  build_realized_plan-FollowsPolicy plan fill_price costs equity filters {realized = realized} h =
      elim (Bool-cases plan.approved) [
        | inr refused ↦ ground arith
        | inl accepted ↦ elim (Option-cases plan.quantity) [
          | inl sizeless ↦ ground arith
          | inr (quantity, sized) ↦
              let same : realized ≡ realize plan quantity fill_price costs equity filters =
                ground arith in
              let (kept, outcome) =
                realize-FollowsPolicy plan quantity fill_price costs equity filters accepted
                  sized in
              (accepted, (quantity, sized, rw same kept, rw same outcome))
        ]
      ]
