-- ===== src/Execution/Outcome/Accounting.antt =====
-- The base balance of a portfolio and the amounts applied of an order, over the order's reports.
use binance_testnet_trading.Base.{Result-cases, String, ap, arith, inl, inr, ok, refl, ◌∙◌, ◌≡◌}
use binance_testnet_trading.Numbers.{Decimals, IsExact}
use binance_testnet_trading.Portfolio.{
  OrderSide, PortfolioState, apply_fill_delta, buy_side, sell_side,
}
use binance_testnet_trading.Execution.Orders.{OrderResult}
use binance_testnet_trading.Execution.Outcome.{
  Applied, OrderApplicationResult, apply_delta, compute_order_application,
}
use binance_testnet_trading.Execution.Outcome.Application.{
  applied_after, apply_delta_fields, compute_order_application-Outcome,
}
use binance_testnet_trading.Execution.Fees.{compute_commission_buckets}
use binance_testnet_trading.Portfolio.Balances.{apply_fill_delta_bought, apply_fill_delta_sold}

module _ {D : Type 0} ⦃num : Decimals D⦄ where
  open num use {add, sub}

  -- A portfolio and the amounts applied of one order, before and after accepted reports of that order:
  -- any number of them, with any fills and fee, also repeated.
  pub data Reported (side : OrderSide) (quote_asset base_asset : String)
      : PortfolioState D → Applied D → PortfolioState D → Applied D → Type 0 where
    no_report :
        {s : PortfolioState D} {a : Applied D} → Reported side quote_asset base_asset s a s a
    reported_next :
        {s t : PortfolioState D} {a b : Applied D} (order : OrderResult D) (fee : D)
        {r : OrderApplicationResult D}
        → Reported side quote_asset base_asset s a t b
        → compute_order_application order side quote_asset base_asset t b fee ≡ ok r
        → Reported side quote_asset base_asset s a r.portfolio (applied_after r)

  -- The base balance moves by the executed quantity, less the commission taken in the base asset of a
  -- purchase: written without differences.
  abbrev pub Accounts :
      OrderSide → PortfolioState D → Applied D → PortfolioState D → Applied D → Type 0
  Accounts buy_side s a t b =
      add t.base_balance (add b.commission_base a.executed_qty)
      ≡ add s.base_balance (add a.commission_base b.executed_qty)
  Accounts sell_side s a t b = add t.base_balance b.executed_qty ≡ add s.base_balance a.executed_qty

  apply_delta_commission_base :
      (order : OrderResult D) (side : OrderSide) (quote_asset base_asset : String)
      (portfolio : PortfolioState D) (applied : Applied D) (fee : D) {r : OrderApplicationResult D}
      → apply_delta order side quote_asset base_asset portfolio applied fee ≡ ok r
      → let quote_qty = sub order.cumulative_quote_qty applied.cumulative_quote_qty in
        let fees = compute_commission_buckets order.fills quote_asset base_asset quote_qty fee in
        r.new_applied_commission_base ≡ add applied.commission_base fees.commission_base
  unfolding apply_delta
  apply_delta_commission_base order side qa ba portfolio applied fee {r = r} e =
      let base_qty = sub order.executed_qty applied.executed_qty in
      let quote_qty = sub order.cumulative_quote_qty applied.cumulative_quote_qty in
      let fees = compute_commission_buckets order.fills qa ba quote_qty fee in
      elim (Result-cases (
        apply_fill_delta portfolio side base_qty quote_qty fees.commission_quote
          fees.commission_base fees.is_estimated)) [
            | inl (p, applies) ↦ ground arith
            | inr (x, fails) ↦ ground arith
          ]

  module _ (exact : IsExact D) where
    open exact use {add_comm, add_assoc, sub_add}

    swap_last : (a b c d : D) → add (add a (add b c)) d ≡ add (add a (add b d)) c
    swap_last a b c d = cc (
      add_assoc a (add b c) d,
      add_assoc b c d,
      add_comm c d,
      add_assoc b d c,
      add_assoc a (add b d) c,
    )

    zero_of : (c a : D) → add (sub c c) a ≡ a
    zero_of c a =
        cc (sub_add a c, sub_add c c, add_comm (sub a c) c, add_assoc (sub c c) c (sub a c))

    add_cancel : (a b c : D) → add a c ≡ add b c → a ≡ b
    add_cancel a b c e =
        let back = sub (sub c c) c in
        cc (
          e,
          zero_of c a,
          zero_of c b,
          sub_add (sub c c) c,
          add_assoc back c a,
          add_assoc back c b,
          add_comm c a,
          add_comm c b,
        )

    bought_accounts :
        (base fees executed applied fee : D)
        → add (add base (sub (sub executed applied) fee)) (add (add fees fee) applied)
          ≡ add base (add fees executed)
    bought_accounts base fees executed applied fee =
        let delta = sub executed applied in
        let net = sub delta fee in
        cc (
          add_assoc base net (add (add fees fee) applied),
          add_assoc fees fee applied,
          add_assoc net fees (add fee applied),
          add_comm net fees,
          add_assoc fees net (add fee applied),
          add_assoc net fee applied,
          sub_add delta fee,
          sub_add executed applied,
        )

    sold_accounts :
        (base executed applied : D)
        → add (sub base (sub executed applied)) executed ≡ add base applied
    sold_accounts base executed applied =
        let delta = sub executed applied in
        cc (sub_add executed applied, sub_add base delta, add_assoc (sub base delta) delta applied)

    one_report-Accounts :
        (side : OrderSide) (quote_asset base_asset : String) (s : PortfolioState D) (a : Applied D)
        (order : OrderResult D) (fee : D) {r : OrderApplicationResult D}
        → compute_order_application order side quote_asset base_asset s a fee ≡ ok r
        → Accounts side s a r.portfolio (applied_after r)
    one_report-Accounts buy_side qa ba s a order fee {r = r} e =
        let (consistent, outcome) =
          compute_order_application-Outcome order buy_side qa ba s a fee e in
        elim outcome [
          | inl (quiet, (terminal, same, mark)) ↦ rw same refl
          | inr (more, seen, applies) ↦
              let (executed, quoted, terminal, event, filled) =
                apply_delta_fields order buy_side qa ba s a fee applies in
              let bought = apply_fill_delta_bought s _ _ _ _ _ filled in
              let recorded = apply_delta_commission_base order buy_side qa ba s a fee applies in
              rw (executed, bought, recorded)
                (bought_accounts s.base_balance a.commission_base order.executed_qty a.executed_qty
                  _)
        ]
    one_report-Accounts sell_side qa ba s a order fee {r = r} e =
        let (consistent, outcome) =
          compute_order_application-Outcome order sell_side qa ba s a fee e in
        elim outcome [
          | inl (quiet, (terminal, same, mark)) ↦ rw same refl
          | inr (more, seen, applies) ↦
              let (executed, quoted, terminal, event, filled) =
                apply_delta_fields order sell_side qa ba s a fee applies in
              rw (executed, apply_fill_delta_sold s _ _ _ _ _ filled)
                (sold_accounts s.base_balance order.executed_qty a.executed_qty)
        ]

    Accounts-trans :
        (side : OrderSide) (s t u : PortfolioState D) (a b c : Applied D)
        → Accounts side s a t b
        → Accounts side t b u c
        → Accounts side s a u c
    Accounts-trans buy_side s t u a b c first second = add_cancel _ _ b.executed_qty (
        swap_last u.base_balance c.commission_base a.executed_qty b.executed_qty
        ∙ ap (λ n. add n a.executed_qty) second
        ∙ swap_last t.base_balance b.commission_base c.executed_qty a.executed_qty
        ∙ ap (λ n. add n c.executed_qty) first
        ∙ swap_last s.base_balance a.commission_base b.executed_qty c.executed_qty)
    Accounts-trans sell_side s t u a b c first second = second ∙ first

    Accounts-refl :
        (side : OrderSide) (s : PortfolioState D) (a : Applied D) → Accounts side s a s a
    Accounts-refl buy_side s a = refl
    Accounts-refl sell_side s a = refl

    -- Where no sum needs rounding, the base balance counts each executed unit of an order once, over any
    -- reports of it that are accepted, also repeated ones: on a purchase it rises by what the reports
    -- executed beyond what was applied, less the commission that they recorded in the base asset, and on
    -- a sale it falls by what they executed beyond what was applied.
    pub compute_order_application-Accounts :
        (side : OrderSide) (quote_asset base_asset : String) {s t : PortfolioState D}
        {a b : Applied D}
        → Reported side quote_asset base_asset s a t b
        → Accounts side s a t b
    compute_order_application-Accounts side qa ba no_report = Accounts-refl side _ _
    compute_order_application-Accounts side qa ba (reported_next order fee earlier e) =
        Accounts-trans side _ _ _ _ _ _ (compute_order_application-Accounts side qa ba earlier)
          (one_report-Accounts side qa ba _ _ order fee e)
