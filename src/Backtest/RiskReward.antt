-- ===== src/Backtest/RiskReward.antt =====
-- backtest/risk_reward.py: a purchase is planned only where the net reward at its target is at least
-- twice the net loss at its stop. The percentages are floats, of which `Decimal(str(x))` is made. The
-- divisors are positive for percentages below 1, so the division by 0 that Python raises does not occur.
pub mod Promise
use binance_testnet_trading.Base.{
  Bool, Option, false, if◌then◌else◌, none, not, some, true, ◌&&◌, ◌||◌,
}
use binance_testnet_trading.Numbers.{Decimals, Floats, PlanDecimals, le, min_of}
use binance_testnet_trading.Reasons.{
  ReasonCode, approved, rr_approved, rr_below_min_lot_size, rr_below_min_notional,
  rr_insufficient_quote_balance, rr_invalid_equity, rr_invalid_price, rr_invalid_stop_distance,
  rr_invalid_target, rr_net_reward_to_risk_below_minimum, rr_post_fill_revalidation_failed,
}
use binance_testnet_trading.Sizing.{
  SymbolFilters, meets_lot_size, meets_min_notional, round_quantity,
}

pub record RiskRewardPlan (D F : Type 0) : Type 0 where
  pub approved : Bool
  pub reason_code : ReasonCode
  pub quantity : Option D
  pub stop_price : Option D
  pub target_price : Option D
  pub planned_risk_quote : Option D
  pub planned_risk_pct : Option F
  pub planned_reward_quote : Option D
  pub planned_reward_pct : Option F
  pub gross_reward_to_risk : Option F
  pub net_reward_to_risk : Option F

-- What the two planners compute once they have a target.
pub record PlannedAmounts (D F : Type 0) : Type 0 where
  pub stop : D
  pub target : D
  pub risk_quote : D
  pub reward_quote : D
  pub risk_pct : Option F
  pub reward_pct : Option F
  pub gross : F
  pub net : Option F

-- The configured percentages: `stop_loss.stop_distance_pct`, `fees.taker_fee_pct` and
-- `fees.slippage_pct`.
pub record TradeCosts (F : Type 0) : Type 0 where
  pub stop_distance_pct : F
  pub taker_fee_pct : F
  pub slippage_pct : F

module _ {D F : Type 0} where
  -- `_rejected` with a reason and a stop price.
  abbrev pub rejected_plan : ReasonCode → Option D → RiskRewardPlan D F
  rejected_plan reason stop = record {
    approved = false;
    reason_code = reason;
    quantity = none;
    stop_price = stop;
    target_price = none;
    planned_risk_quote = none;
    planned_risk_pct = none;
    planned_reward_quote = none;
    planned_reward_pct = none;
    gross_reward_to_risk = none;
    net_reward_to_risk = none;
  }

  -- A plan with all its amounts.
  abbrev pub plan_with : Bool → ReasonCode → Option D → PlannedAmounts D F → RiskRewardPlan D F
  plan_with accepted reason size amounts = record {
    approved = accepted;
    reason_code = reason;
    quantity = size;
    stop_price = some amounts.stop;
    target_price = some amounts.target;
    planned_risk_quote = some amounts.risk_quote;
    planned_risk_pct = amounts.risk_pct;
    planned_reward_quote = some amounts.reward_quote;
    planned_reward_pct = amounts.reward_pct;
    gross_reward_to_risk = some amounts.gross;
    net_reward_to_risk = amounts.net;
  }

module _ {D : Type 0} ⦃num : Decimals D⦄ ⦃plan_num : PlanDecimals D⦄ where
  open num use {nought, one, add, sub, mul, div, lt}

  -- MIN_NET_REWARD_TO_RISK and `_to_decimal(FIXED_MAX_RISK_PER_TRADE_PCT)`
  abbrev pub min_net_reward_to_risk : D
  min_net_reward_to_risk = plan_num.hundredths 200

  abbrev pub fixed_max_risk_per_trade : D
  fixed_max_risk_per_trade = plan_num.hundredths 1

  unfoldable pub loss_per_unit : D → D → D → D → D
  loss_per_unit effective_entry stop fee slippage =
      let effective_stop_exit = mul stop (sub one slippage) in
      add (add (sub effective_entry effective_stop_exit) (mul effective_entry fee))
        (mul effective_stop_exit fee)

  unfoldable pub gain_per_unit : D → D → D → D → D
  gain_per_unit effective_entry target fee slippage =
      let effective_target_exit = mul target (sub one slippage) in
      sub (sub (sub effective_target_exit effective_entry) (mul effective_entry fee))
        (mul effective_target_exit fee)

  unfoldable pub solve_target_price : D → D → D → D → D
  solve_target_price effective_entry loss fee slippage =
      let required_reward = mul min_net_reward_to_risk loss in
      div (add required_reward (mul effective_entry (add one fee)))
        (mul (sub one slippage) (sub one fee))

  unfoldable pub round_target_up_to_tick : D → SymbolFilters D → Option D
  round_target_up_to_tick target filters =
      let tick = filters.tick_size in
      let steps = plan_num.to_integral_up (div target tick) in
      let rounded = if lt nought tick then plan_num.quantize_up (mul steps tick) tick else target in
      if lt nought filters.max_price && lt filters.max_price rounded then none else some rounded

  -- The rounded target, refused where it is not above the price that the plan is anchored to.
  unfoldable pub valid_target : D → SymbolFilters D → D → Option D
  valid_target raw_target filters anchor = elim (round_target_up_to_tick raw_target filters) [
    | none ↦ none
    | some target ↦ if le target anchor then none else some target
  ]

  -- The size before it is rounded: within the risk budget and within the quote balance.
  unfoldable pub affordable_size : D → D → D → D → D → D
  affordable_size equity quote_balance effective_entry fee loss =
      min_of (div (mul equity fixed_max_risk_per_trade) loss)
        (div quote_balance (mul effective_entry (add one fee)))

module _ {D F : Type 0} ⦃num : Decimals D⦄ ⦃plan_num : PlanDecimals D⦄ ⦃flo : Floats D F⦄ where
  open num use {nought, one, add, sub, mul, div, lt}

  -- The amounts of a plan. Where equity is positive both planners have both shares of it.
  unfoldable pub planned_amounts : D → D → D → D → D → D → D → D → D → PlannedAmounts D F
  planned_amounts equity anchor effective_entry stop loss target quantity fee slippage =
      let risk_quote = mul quantity loss in
      let reward_quote = mul quantity (gain_per_unit effective_entry target fee slippage) in
      record {
        stop = stop;
        target = target;
        risk_quote = risk_quote;
        reward_quote = reward_quote;
        risk_pct = if lt nought equity then some (flo.to_float (div risk_quote equity)) else none;
        reward_pct =
            if lt nought equity then some (flo.to_float (div reward_quote equity)) else none;
        gross = flo.to_float (div (sub target anchor) (sub anchor stop));
        net =
            if lt nought risk_quote
            then some (flo.to_float (div reward_quote risk_quote))
            else none;
      }

  -- The gate of the policy, by exact multiplication.
  unfoldable pub meets_minimum : PlannedAmounts D F → Bool
  meets_minimum amounts = le (mul min_net_reward_to_risk amounts.risk_quote) amounts.reward_quote

  -- The plan for a quantity that the exchange takes, past the guards before the target.
  unfoldable pub plan_for_target :
      D → D → D → D → D → D → D → D → SymbolFilters D → RiskRewardPlan D F
  plan_for_target equity reference_price effective_entry stop loss quantity fee slippage filters =
      let raw_target = solve_target_price effective_entry loss fee slippage in
      elim (valid_target raw_target filters reference_price) [
        | none ↦ rejected_plan rr_invalid_target (some stop)
        | some target ↦
            let amounts =
              planned_amounts equity reference_price effective_entry stop loss target quantity fee
                slippage in
            if meets_minimum amounts
            then plan_with true rr_approved (some quantity) amounts
            else plan_with false rr_net_reward_to_risk_below_minimum none amounts
      ]

  unfoldable pub plan_risk_reward_entry :
      D → D → D → TradeCosts F → SymbolFilters D → RiskRewardPlan D F
  plan_risk_reward_entry equity quote_balance reference_price costs filters =
      let fee = flo.to_decimal costs.taker_fee_pct in
      let slippage = flo.to_decimal costs.slippage_pct in
      let stop = mul reference_price (sub one (flo.to_decimal costs.stop_distance_pct)) in
      let effective_entry = mul reference_price (add one slippage) in
      let loss = loss_per_unit effective_entry stop fee slippage in
      let raw_quantity = affordable_size equity quote_balance effective_entry fee loss in
      let quantity = round_quantity raw_quantity filters in
      -- `0 < stop_distance_pct < 1`
      let is_fraction =
        flo.exceeds costs.stop_distance_pct 0
        && not (flo.at_most (flo.to_float one) costs.stop_distance_pct) in
      if le reference_price nought
      then rejected_plan rr_invalid_price none
      else if le equity nought
      then rejected_plan rr_invalid_equity none
      else if le quote_balance nought
      then rejected_plan rr_insufficient_quote_balance none
      else if not is_fraction
      then rejected_plan rr_invalid_stop_distance none
      else if le loss nought
      then rejected_plan rr_invalid_stop_distance (some stop)
      else if le quantity nought || not (meets_lot_size quantity filters)
      then rejected_plan rr_below_min_lot_size (some stop)
      else if not (meets_min_notional reference_price quantity filters)
      then rejected_plan rr_below_min_notional (some stop)
      else plan_for_target equity reference_price effective_entry stop loss quantity fee slippage
          filters

  -- The two calls of `replace` that reject a plan after the fill.
  abbrev pub fail_without_target : RiskRewardPlan D F → D → RiskRewardPlan D F
  fail_without_target plan stop = record plan {
    approved = false;
    reason_code = rr_post_fill_revalidation_failed;
    stop_price = some stop;
    target_price = none;
  }

  -- The plan anchored to the fill, for the plan's quantity.
  unfoldable pub realize :
      RiskRewardPlan D F → D → D → TradeCosts F → D → SymbolFilters D → RiskRewardPlan D F
  realize plan quantity fill_price costs equity filters =
      let fee = flo.to_decimal costs.taker_fee_pct in
      let slippage = flo.to_decimal costs.slippage_pct in
      let stop = mul fill_price (sub one (flo.to_decimal costs.stop_distance_pct)) in
      let loss = loss_per_unit fill_price stop fee slippage in
      let raw_target = solve_target_price fill_price loss fee slippage in
      let risk_budget = mul equity fixed_max_risk_per_trade in
      if le loss nought
      then fail_without_target plan stop
      else elim (valid_target raw_target filters fill_price) [
        | none ↦ fail_without_target plan stop
        | some target ↦
            let amounts =
              planned_amounts equity fill_price fill_price stop loss target quantity fee slippage in
            if le amounts.risk_quote risk_budget && meets_minimum amounts
            then plan_with plan.approved plan.reason_code plan.quantity amounts
            else plan_with false rr_post_fill_revalidation_failed plan.quantity amounts
      ]

  -- `none` is the ValueError for a plan that is not approved.
  unfoldable pub build_realized_plan :
      RiskRewardPlan D F → D → TradeCosts F → D → SymbolFilters D → Option (RiskRewardPlan D F)
  build_realized_plan plan fill_price costs equity filters =
      if not plan.approved then none else elim plan.quantity [
        | none ↦ none
        | some quantity ↦ some (realize plan quantity fill_price costs equity filters)
      ]
