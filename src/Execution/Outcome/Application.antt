-- ===== src/Execution/Outcome/Application.antt =====
-- Reports that are applied once, again, or out of order.

use mathlib.Core.Bool.{false≢true}
use binance_testnet_trading.Base.{
  Bool, Bool-cases, Result-cases, String, ap, arith, false, inl, inr, not, ok, refl, sym, true,
  ◌&&◌, ◌∙◌, ◌≡◌, ◌⊎◌,
}
use binance_testnet_trading.Numbers.{Decimals, HasSignedDifference, IsOrdered}
use binance_testnet_trading.Portfolio.{OrderSide, PortfolioState, apply_fill_delta}
use binance_testnet_trading.Execution.Orders.{
  OrderResult, is_new, is_terminal_status, journal_event_by_status,
}
use binance_testnet_trading.Execution.Outcome.{
  Applied, OrderApplicationResult, apply_delta, compute_order_application, is_inconsistent,
  unchanged,
}
use binance_testnet_trading.Execution.Fees.{compute_commission_buckets}

module _ {D : Type 0} where
  -- What stands applied after a report.
  abbrev pub applied_after : OrderApplicationResult D → Applied D
  applied_after r = record {
    executed_qty = r.new_applied_executed_qty;
    cumulative_quote_qty = r.new_applied_cumulative_quote_qty;
    commission_quote = r.new_applied_commission_quote;
    commission_base = r.new_applied_commission_base;
    commission_other = r.new_applied_commission_other;
  }

module _ {D : Type 0} ⦃num : Decimals D⦄ where
  open num use {nought, sub, lt}

  -- How an application ended: nothing new to apply, or the delta applied by `apply_delta`.
  abbrev pub Outcome :
      OrderResult D
      → OrderSide
      → String
      → String
      → PortfolioState D
      → Applied D
      → D
      → OrderApplicationResult D
      → Type 0
  Outcome order side quote_asset base_asset portfolio applied fee r =
      ((lt nought (sub order.executed_qty applied.executed_qty) ≡ false)
          ⊎ (is_new order.status ≡ true))
        × ((terminal : Bool) × (r
              ≡ unchanged portfolio terminal applied (journal_event_by_status order.status))
            × (terminal ≡ (not (is_new order.status) && is_terminal_status order.status)))
      ⊎ ((lt nought (sub order.executed_qty applied.executed_qty) ≡ true)
          × (is_new order.status ≡ false)
          × (apply_delta order side quote_asset base_asset portfolio applied fee ≡ ok r))

  pub compute_order_application-Outcome :
      (order : OrderResult D) (side : OrderSide) (quote_asset base_asset : String)
      (portfolio : PortfolioState D) (applied : Applied D) (fee : D) {r : OrderApplicationResult D}
      → compute_order_application order side quote_asset base_asset portfolio applied fee ≡ ok r
      → (is_inconsistent order applied ≡ false)
        × Outcome order side quote_asset base_asset portfolio applied fee r
  unfolding compute_order_application
  compute_order_application-Outcome order side qa ba portfolio applied fee {r = r} e = (
    ground arith,
    elim (Bool-cases (is_new order.status)) [
      | inl fresh ↦ inl (inr fresh, (false, ground arith, rw fresh))
      | inr seen ↦ elim (Bool-cases (lt nought (sub order.executed_qty applied.executed_qty))) [
        | inl more ↦ inr (more, seen, ground arith)
        | inr same ↦ inl (inl same, (is_terminal_status order.status, ground arith, rw seen))
      ]
    ],
  )

  pub apply_delta_fields :
      (order : OrderResult D) (side : OrderSide) (quote_asset base_asset : String)
      (portfolio : PortfolioState D) (applied : Applied D) (fee : D) {r : OrderApplicationResult D}
      → apply_delta order side quote_asset base_asset portfolio applied fee ≡ ok r
      → let base_qty = sub order.executed_qty applied.executed_qty in
        let quote_qty = sub order.cumulative_quote_qty applied.cumulative_quote_qty in
        let fees = compute_commission_buckets order.fills quote_asset base_asset quote_qty fee in
        (r.new_applied_executed_qty ≡ order.executed_qty)
        × (r.new_applied_cumulative_quote_qty ≡ order.cumulative_quote_qty)
        × (r.is_terminal ≡ is_terminal_status order.status)
        × (r.journal_event_type ≡ journal_event_by_status order.status)
        × (apply_fill_delta portfolio side base_qty quote_qty fees.commission_quote
              fees.commission_base fees.is_estimated
            ≡ ok r.portfolio)
  unfolding apply_delta
  apply_delta_fields order side qa ba portfolio applied fee {r = r} e =
      let base_qty = sub order.executed_qty applied.executed_qty in
      let quote_qty = sub order.cumulative_quote_qty applied.cumulative_quote_qty in
      let fees = compute_commission_buckets order.fills qa ba quote_qty fee in
      elim (Result-cases (
        apply_fill_delta portfolio side base_qty quote_qty fees.commission_quote
          fees.commission_base fees.is_estimated)) [
            | inl (p, applies) ↦
                (ground arith, ground arith, ground arith, ground arith, ground arith)
            | inr (x, fails) ↦ ground arith
          ]

  not_behind :
      (order : OrderResult D) (applied : Applied D)
      → is_inconsistent order applied ≡ false
      → (lt order.executed_qty applied.executed_qty ≡ false)
        × (lt order.cumulative_quote_qty applied.cumulative_quote_qty ≡ false)
  unfolding is_inconsistent
  not_behind order applied consistent = (ground arith, ground arith)

  up_to_date :
      (ordered : IsOrdered D) (order : OrderResult D) (applied now : Applied D)
      → is_inconsistent order applied ≡ false
      → now.executed_qty ≡ order.executed_qty
      → now.cumulative_quote_qty ≡ order.cumulative_quote_qty
      → is_inconsistent order now ≡ false
  unfolding is_inconsistent
  up_to_date ordered order applied now consistent executed quoted =
      let same_qty = ordered.lt_irrefl order.executed_qty in
      let same_quote = ordered.lt_irrefl order.cumulative_quote_qty in
      rw (executed, quoted, same_qty, same_quote) (ground arith)

  -- Seeing the same report again applies nothing: after a report was applied, it is accepted again with
  -- the portfolio, the applied amounts, the terminal mark and the journal's event unchanged, and no
  -- further result is realized.
  pub compute_order_application_idempotent :
      (ordered : IsOrdered D) (signed : HasSignedDifference D) (order : OrderResult D)
      (side : OrderSide) (quote_asset base_asset : String) (portfolio : PortfolioState D)
      (applied : Applied D) (fee : D) {r : OrderApplicationResult D}
      → compute_order_application order side quote_asset base_asset portfolio applied fee ≡ ok r
      → compute_order_application order side quote_asset base_asset r.portfolio
          (applied_after r)
          fee
        ≡ ok (unchanged r.portfolio r.is_terminal (applied_after r) r.journal_event_type)
  unfolding compute_order_application
  compute_order_application_idempotent ordered signed order side qa ba portfolio applied fee {r = r}
        e =
      let (consistent, outcome) =
        compute_order_application-Outcome order side qa ba portfolio applied fee e in
      elim outcome [
        | inl (quiet, (terminal, same, mark)) ↦ rw same (rw same at e)
        | inr (more, seen, applies) ↦
            let (executed, quoted, terminal, event, filled) =
              apply_delta_fields order side qa ba portfolio applied fee applies in
            let fresh =
              up_to_date ordered order applied (applied_after r) consistent executed quoted in
            let no_more =
              signed.sub-pos order.executed_qty r.new_applied_executed_qty
              ∙ ap (λ q. lt q order.executed_qty) executed
              ∙ ordered.lt_irrefl order.executed_qty in
            rw (fresh, seen, no_more, terminal, event) refl
      ]

  -- An accepted report never lowers what is applied: neither the executed quantity nor the quote
  -- quantity falls below what it was, and the applied amounts and the portfolio change only if the
  -- report executes more than was applied.
  pub compute_order_application_monotone :
      (ordered : IsOrdered D) (signed : HasSignedDifference D) (order : OrderResult D)
      (side : OrderSide) (quote_asset base_asset : String) (portfolio : PortfolioState D)
      (applied : Applied D) (fee : D) {r : OrderApplicationResult D}
      → compute_order_application order side quote_asset base_asset portfolio applied fee ≡ ok r
      → (lt r.new_applied_executed_qty applied.executed_qty ≡ false)
        × (lt r.new_applied_cumulative_quote_qty applied.cumulative_quote_qty ≡ false)
        × (lt applied.executed_qty order.executed_qty ≡ false
            → (applied_after r ≡ applied) × (r.portfolio ≡ portfolio))
  compute_order_application_monotone ordered signed order side qa ba portfolio applied fee {r = r}
        e =
      let (consistent, outcome) =
        compute_order_application-Outcome order side qa ba portfolio applied fee e in
      elim outcome [
        | inl (quiet, (terminal, same, mark)) ↦ rw same (
          ordered.lt_irrefl applied.executed_qty,
          ordered.lt_irrefl applied.cumulative_quote_qty,
          λ h. (refl, refl),
        )
        | inr (more, seen, applies) ↦
            let (executed, quoted, terminal, event, filled) =
              apply_delta_fields order side qa ba portfolio applied fee applies in
            let (qty, quote) = not_behind order applied consistent in
            (
              rw executed qty,
              rw quoted quote,
              λ h. absurd (
                  false≢true
                    (sym h ∙ sym (signed.sub-pos order.executed_qty applied.executed_qty) ∙ more)),
            )
      ]
