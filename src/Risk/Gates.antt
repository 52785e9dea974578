-- ===== src/Risk/Gates.antt =====
-- Exactly which trades the risk engine approves.
use binance_testnet_trading.Base.{
  Option-cases, arith, false, inl, inr, none, refl, some, true, ◌<◌, ◌↔◌, ◌≡◌, ◌⊎◌,
}
use binance_testnet_trading.Numbers.{Decimals, Floats}
use binance_testnet_trading.Strategy.{SignalType, buy, exit, hold}
use binance_testnet_trading.Risk.{
  RiskConfig, RiskContext, RiskDecision, TradeIntent, check_buy_gates, check_universal_gates,
  decide, evaluate,
}

module _ {D F : Type 0} ⦃num : Decimals D⦄ ⦃flo : Floats D F⦄ where
  -- The conditions that hold for every order.
  pub record IsClear (config : RiskConfig F) (context : RiskContext D F) : Type 0 where
    pub no_kill_switch : context.is_kill_switch_engaged ≡ false
    pub few_errors : context.consecutive_api_errors < config.max_consecutive_api_errors
    pub fresh : flo.exceeds context.data_age_seconds config.stale_data_max_age_seconds ≡ false
    pub no_duplicate : context.is_duplicate_order ≡ false
    pub reconciled : context.reconciliation_blocked ≡ false

  -- The further conditions on a purchase.
  pub record MayBuy (config : RiskConfig F) (intent : TradeIntent D) (context : RiskContext D F)
      : Type 0 where
    pub drawdown : flo.at_most config.max_drawdown_pct context.current_drawdown_pct ≡ false
    pub daily_loss :
        flo.at_most context.daily_realized_pnl_pct (flo.negate config.max_daily_loss_pct) ≡ false
    pub trades : context.trades_today < config.max_trades_per_day
    pub cooled : context.cooldown_bars_remaining ≡ 0
    pub funded : num.lt context.quote_balance (flo.to_decimal config.min_quote_balance) ≡ false
    pub solvent : num.lt num.nought context.equity ≡ true
    pub bounded :
        num.lt
          (flo.to_decimal config.max_position_pct)
          (num.div (num.mul intent.quantity intent.price) context.equity)
        ≡ false

  check_universal_gates-IsClear :
      (config : RiskConfig F) (context : RiskContext D F)
      → (check_universal_gates config context ≡ none) ↔ IsClear config context
  unfolding check_universal_gates
  check_universal_gates-IsClear config context = (λ h. ground arith, λ h. ground arith)

  check_universal_gates_denies :
      (config : RiskConfig F) (context : RiskContext D F) {decision : RiskDecision}
      → check_universal_gates config context ≡ some decision
      → decision.is_approved ≡ false
  unfolding check_universal_gates
  check_universal_gates_denies config context h = ground arith

  check_buy_gates_approves :
      (config : RiskConfig F) (intent : TradeIntent D) (context : RiskContext D F)
      → ((check_buy_gates config intent context).is_approved ≡ true) ↔ MayBuy config intent context
  unfolding check_buy_gates
  check_buy_gates_approves config intent context = (λ h. ground arith, λ h. ground arith)

  decide_approves :
      (config : RiskConfig F) (kind : SignalType) (intent : TradeIntent D)
      (context : RiskContext D F)
      → ((decide config kind intent context).is_approved ≡ true)
        ↔ ((kind ≡ SignalType.exit) ⊎ MayBuy config intent context)
  unfolding decide
  decide_approves config exit intent context = (λ h. inl refl, λ h. refl)
  decide_approves config buy intent context =
      let bought = check_buy_gates_approves config intent context in
      (λ h. inr (bought.0 h), λ h. elim h [ inl e ↦ cc | inr m ↦ bought.1 m ])
  decide_approves config hold intent context =
      let bought = check_buy_gates_approves config intent context in
      (λ h. inr (bought.0 h), λ h. elim h [ inl e ↦ cc | inr m ↦ bought.1 m ])

  -- An intent is approved exactly when every universal gate is clear and it is an exit or, being none,
  -- meets every condition on a purchase.
  pub evaluate_approves :
      (config : RiskConfig F) (intent : TradeIntent D) (context : RiskContext D F)
      → ((evaluate config intent context).is_approved ≡ true) ↔ (
          IsClear config context
          × ((intent.signal_type ≡ SignalType.exit) ⊎ MayBuy config intent context))
  unfolding evaluate
  evaluate_approves config intent context =
      let decided = decide_approves config intent.signal_type intent context in
      let clear = check_universal_gates-IsClear config context in
      elim (Option-cases (check_universal_gates config context)) [
        | inl passed ↦ rw passed (λ h. (clear.0 passed, decided.0 h), λ h. decided.1 h.1)
        | inr (denial, stopped) ↦
            let refused = check_universal_gates_denies config context stopped in
            rw stopped
              (λ h. absurd (ground (arith, h, refused)), λ h. absurd (ground (arith, clear.1 h.0)))
      ]

  -- An exit is decided by the universal conditions alone: for the same kill switch, error count, data
  -- age, duplicate and reconciliation flags the decision is the same, whatever the drawdown, the daily
  -- result, the number of trades, the cooldown, the balance and the equity are.
  pub evaluate_exit_ignores_performance :
      (config : RiskConfig F) (intent : TradeIntent D) (context context' : RiskContext D F)
      → intent.signal_type ≡ SignalType.exit
      → context.is_kill_switch_engaged ≡ context'.is_kill_switch_engaged
      → context.consecutive_api_errors ≡ context'.consecutive_api_errors
      → context.data_age_seconds ≡ context'.data_age_seconds
      → context.is_duplicate_order ≡ context'.is_duplicate_order
      → context.reconciliation_blocked ≡ context'.reconciliation_blocked
      → evaluate config intent context ≡ evaluate config intent context'
  unfolding evaluate check_universal_gates
  evaluate_exit_ignores_performance config intent context context' e k a d u r =
      rw (e, k, a, d, u, r)
