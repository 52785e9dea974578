-- ===== src/Live/Reconcile/Queries.antt =====
-- The calls that reconciliation makes to the exchange.
use binance_testnet_trading.Base.{
  Bool, List, Option, Option-cases, String, [], false, if◌then◌else◌, inl, inr, not, refl, some,
  true, ℕ, ◌∷◌,
}
use binance_testnet_trading.Numbers.{Decimals, le}
use binance_testnet_trading.Live.{
  Exchange, Live, apply_report, cold_start_reconciliation, journal_record,
}
use binance_testnet_trading.Live.Reconcile.{
  PendingStep, apply_reported, close_never_submitted, pending_step, reconcile_balances,
  reconcile_each, reconcile_initial_portfolio, reconcile_order, reconcile_pending_orders,
  resolve_pending, stop_unknown, synthetic, total_of,
}
use binance_testnet_trading.Live.Placing.{
  Quiet, apply_report-Quiet, get_account_balances-Quiet, journal_record-Quiet, quietly,
}
use binance_testnet_trading.Sizing.{SymbolFilters}
use binance_testnet_trading.Store.{PendingOrder, load_open_pending, load_portfolio}
use binance_testnet_trading.Base.Exec.{pure, throw_if, ◌>>=◌, ◌>>◌}
use binance_testnet_trading.Execution.Orders.{JournalEvent, OrderResult, reconciliation_startup}
use binance_testnet_trading.Execution.Outcome.{OrderApplicationResult}

module _ {D F : Type 0} where
  pub reconcile_order-Quiet :
      (exchange : Exchange D) (symbol id : String)
      → Quiet (reconcile_order {D = D} {F = F} exchange symbol id)
  unfolding reconcile_order
  reconcile_order-Quiet exchange symbol id w = record { related = refl }

module _ {D F : Type 0} ⦃num : Decimals D⦄ (exchange : Exchange D) (symbol quote base : String)
    (fee : D) (now_ms : ℕ) where
  reported-Quiet :
      (order : OrderResult D) (event : OrderApplicationResult D → JournalEvent) (id : Option String)
      (answer : OrderApplicationResult D → Bool)
      → Quiet {D = D} {F = F} (do
        result ← apply_report symbol quote base order fee now_ms
        journal_record (event result) id
        pure (answer result))
  reported-Quiet order event id answer w =
      quietly (apply_report-Quiet symbol quote base order fee now_ms w) (λ result u.
        quietly (journal_record-Quiet (event result) id u) (λ x v. record { related = refl }))

  resolve_pending-Quiet :
      (pending : PendingOrder D) (step : PendingStep D)
      → Quiet (resolve_pending {D = D} {F = F} exchange symbol quote base fee now_ms pending step)
  unfolding resolve_pending
  resolve_pending-Quiet pending close_never_submitted w =
      reported-Quiet (synthetic pending now_ms) (λ r. reconciliation_startup)
        (some pending.client_order_id) (λ r. false) w
  resolve_pending-Quiet pending stop_unknown w =
      quietly (journal_record-Quiet reconciliation_startup (some pending.client_order_id) w)
        (λ x v. record { related = refl })
  resolve_pending-Quiet pending (apply_reported order) w =
      reported-Quiet order (λ r. r.journal_event_type) (some pending.client_order_id)
        (λ r. not r.is_terminal) w

  stop_or-Quiet :
      (blocked : Bool) (rest : Live D F Bool)
      → Quiet rest
      → Quiet (if blocked then pure true else rest)
  stop_or-Quiet true rest h w = record { related = refl }
  stop_or-Quiet false rest h w = h w

  reconcile_each-Quiet :
      (pendings : List (PendingOrder D))
      → Quiet (reconcile_each {D = D} {F = F} exchange symbol quote base fee now_ms pendings)
  unfolding reconcile_each
  reconcile_each-Quiet [] w = record { related = refl }
  reconcile_each-Quiet (pending ∷ rest) w =
      let id = pending.client_order_id in
      quietly (reconcile_order-Quiet exchange symbol id w) (λ outcome u.
        let step = pending_step outcome.0 outcome.1 in
        quietly (resolve_pending-Quiet pending step u)
          (λ blocked. stop_or-Quiet blocked _ (reconcile_each-Quiet rest)))

  pub reconcile_pending_orders-Quiet :
      Quiet (reconcile_pending_orders {D = D} {F = F} exchange symbol quote base fee now_ms)
  unfolding reconcile_pending_orders
  reconcile_pending_orders-Quiet w = reconcile_each-Quiet (load_open_pending symbol w.store) w

module _ {D F : Type 0} ⦃num : Decimals D⦄ where
  pub reconcile_balances-Quiet :
      (exchange : Exchange D) (tolerance : D) (symbol quote base : String)
      → Quiet (reconcile_balances {D = D} {F = F} exchange tolerance symbol quote base)
  unfolding reconcile_balances
  reconcile_balances-Quiet exchange tolerance symbol quote base w =
      elim (Option-cases (load_portfolio symbol w.store)) [
        | inl unseeded ↦ rw unseeded record { related = refl }
        | inr (portfolio, stored) ↦
            rw stored
              (quietly (get_account_balances-Quiet exchange w) (λ b u. record { related = refl }))
      ]

  pub reconcile_initial_portfolio-Quiet :
      (exchange : Exchange D) (quote base : String) (filters : SymbolFilters D)
      → Quiet (reconcile_initial_portfolio {D = D} {F = F} exchange quote base filters)
  unfolding reconcile_initial_portfolio
  reconcile_initial_portfolio-Quiet exchange quote base filters w =
      quietly (get_account_balances-Quiet exchange w) (λ b u.
        quietly {run = throw_if (le filters.min_qty (total_of base b)) cold_start_reconciliation u}
          (record { related = refl }) (λ x v. record { related = refl }))
