-- ===== src/Store/Transaction.antt =====
-- The transaction on both tables: when it raises, when it commits, and when it runs again.
use text.Mathlib.TextEquality.{eq_iff}
use binance_testnet_trading.Base.{
  Option, Option-cases, Result, Result-cases, String, ap, arith, if◌then◌else◌, inl, inr, none, ok,
  raise, refl, some, ℕ, ◌∙◌, ◌≡◌, ◌≢◌, ◌⊎◌,
}
use binance_testnet_trading.Numbers.{Decimals, HasSignedDifference, IsOrdered}
use binance_testnet_trading.Portfolio.{PortfolioState}
use binance_testnet_trading.Execution.Orders.{OrderResult}
use binance_testnet_trading.Execution.Outcome.{
  ExecutionError, OrderApplicationResult, compute_order_application, injected_fault,
  no_pending_record, no_portfolio_state, unchanged,
}
use binance_testnet_trading.Store.{
  ExecutionStateStore, FaultPoint, PendingOrder, after_portfolio_write,
  apply_order_result_atomically, apply_statements, before_commit, before_write, commit_or_roll_back,
  get_pending, load_portfolio, resolved, save_portfolio, submitted, update_pending, with_report,
}
use binance_testnet_trading.Execution.Outcome.Application.{
  applied_after, compute_order_application_idempotent,
}
use binance_testnet_trading.Store.Pending.{
  KeepsId, find_pending-update_rows, find_pending-update_rows_ne, update_rows-update_rows,
}
use binance_testnet_trading.Base.Dict.{insert-insert, lookup-insert}

fault-cases :
    (fault : Option FaultPoint)
    → (fault ≡ none)
      ⊎ (fault ≡ some before_write)
      ⊎ (fault ≡ some after_portfolio_write)
      ⊎ (fault ≡ some before_commit)
fault-cases none = inl refl
fault-cases (some before_write) = inr (inl refl)
fault-cases (some after_portfolio_write) = inr (inr (inl refl))
fault-cases (some before_commit) = inr (inr (inr refl))

module _ {D : Type 0} ⦃num : Decimals D⦄ where
  -- The state that a committed report leaves.
  abbrev pub reported :
      String
      → OrderResult D
      → ℕ
      → OrderApplicationResult D
      → ExecutionStateStore D
      → ExecutionStateStore D
  reported symbol order now_ms result store =
      update_pending order result now_ms (save_portfolio symbol result.portfolio store)

  -- What a return says: both rows were there, the report was applied to them as they stood, no fault
  -- was injected, and the state is that with both writes.
  abbrev Committed :
      Option FaultPoint
      → String
      → String
      → String
      → OrderResult D
      → D
      → ℕ
      → ExecutionStateStore D
      → OrderApplicationResult D
      → ExecutionStateStore D
      → Type 0
  Committed fault symbol quote_asset base_asset order fee now_ms store result written =
      (pending : PendingOrder D) × (portfolio : PortfolioState D) × (get_pending
          order.client_order_id store
        ≡ some pending)
      × (load_portfolio symbol store ≡ some portfolio)
      × (compute_order_application order pending.side quote_asset base_asset portfolio
            pending.applied fee
          ≡ ok result)
      × (fault ≡ none)
      × (written ≡ reported symbol order now_ms result store)

  apply_statements-Committed :
      (fault : Option FaultPoint) (symbol quote_asset base_asset : String) (order : OrderResult D)
      (fee : D) (now_ms : ℕ) (store : ExecutionStateStore D) {result : OrderApplicationResult D}
      {written : ExecutionStateStore D}
      → apply_statements fault symbol quote_asset base_asset order fee now_ms store
        ≡ (ok result, written)
      → Committed fault symbol quote_asset base_asset order fee now_ms store result written
  unfolding apply_statements
  apply_statements-Committed fault symbol qa ba order fee now store {result = r} {written = w} e =
      elim (Option-cases (get_pending order.client_order_id store)) [
        | inl missing ↦ ground arith
        | inr (pending, found) ↦ elim (Option-cases (load_portfolio symbol store)) [
          | inl unseeded ↦ ground arith
          | inr (portfolio, seeded) ↦
              elim (Result-cases (
                compute_order_application order pending.side qa ba portfolio pending.applied fee)) [
                  | inl (result, applies) ↦
                      (pending, portfolio, found, seeded, ground arith, ground arith, ground arith)
                  | inr (x, fails) ↦ ground arith
                ]
        ]
      ]

  -- A return commits what was written.
  committed :
      (before : ExecutionStateStore D)
      (run : Result ExecutionError (OrderApplicationResult D) × ExecutionStateStore D)
      {result : OrderApplicationResult D} {written : ExecutionStateStore D}
      → commit_or_roll_back before run ≡ (ok result, written)
      → run ≡ (ok result, written)
  unfolding commit_or_roll_back
  committed before (ok a, after) e = e
  committed before (raise x, after) e = ground arith

  apply_order_result_atomically-Committed :
      (fault : Option FaultPoint) (symbol quote_asset base_asset : String) (order : OrderResult D)
      (fee : D) (now_ms : ℕ) (store : ExecutionStateStore D) {result : OrderApplicationResult D}
      {written : ExecutionStateStore D}
      → apply_order_result_atomically fault symbol quote_asset base_asset order fee now_ms store
        ≡ (ok result, written)
      → Committed fault symbol quote_asset base_asset order fee now_ms store result written
  unfolding apply_order_result_atomically
  apply_order_result_atomically-Committed fault symbol qa ba order fee now store e =
      apply_statements-Committed fault symbol qa ba order fee now store
        (committed store (apply_statements fault symbol qa ba order fee now store) e)

  -- Why an application to two rows raises: a fault before the first write, the report itself, or a fault
  -- after a write.
  abbrev pub RowsFail :
      Option FaultPoint → Result ExecutionError (OrderApplicationResult D) → ExecutionError → Type 0
  RowsFail fault application x =
      ((fault ≡ some before_write) × (x ≡ injected_fault))
      ⊎ ((fault ≢ some before_write) × (application ≡ raise x))
      ⊎ ((result : OrderApplicationResult D) × (application ≡ ok result)
          × ((fault ≡ some after_portfolio_write) ⊎ (fault ≡ some before_commit))
          × (x ≡ injected_fault))

  -- Why the transaction raises, in the order of its checks.
  abbrev pub Fails :
      Option FaultPoint
      → String
      → String
      → String
      → OrderResult D
      → D
      → ExecutionStateStore D
      → ExecutionError
      → Type 0
  Fails fault symbol quote_asset base_asset order fee store x =
      ((get_pending order.client_order_id store ≡ none) × (x ≡ no_pending_record))
      ⊎ ((pending : PendingOrder D) × (get_pending order.client_order_id store ≡ some pending)
          × (((load_portfolio symbol store ≡ none) × (x ≡ no_portfolio_state))
              ⊎ ((portfolio : PortfolioState D) × (load_portfolio symbol store ≡ some portfolio)
                  × RowsFail fault
                      (compute_order_application order pending.side quote_asset base_asset portfolio
                        pending.applied fee)
                      x)))

  Fails-raises :
      (fault : Option FaultPoint) (symbol quote_asset base_asset : String) (order : OrderResult D)
      (fee : D) (now_ms : ℕ) (store : ExecutionStateStore D) (x : ExecutionError)
      → Fails fault symbol quote_asset base_asset order fee store x
      → apply_order_result_atomically fault symbol quote_asset base_asset order fee now_ms store
        ≡ (raise x, store)
  unfolding apply_order_result_atomically apply_statements commit_or_roll_back
  Fails-raises fault symbol qa ba order fee now store x fails = elim fails [
    | inl (missing, e) ↦ ground arith
    | inr (pending, found, inl (unseeded, e)) ↦ ground arith
    | inr (pending, found, inr (portfolio, seeded, inl (early, e))) ↦ ground arith
    | inr (pending, found, inr (portfolio, seeded, inr (inl (later, refused)))) ↦
        elim (fault-cases fault) [
          | inl no_fault ↦ ground arith
          | inr (inl early) ↦ absurd (later early)
          | inr (inr (inl at)) ↦ ground arith
          | inr (inr (inr at)) ↦ ground arith
        ]
    | inr (pending, found, inr (portfolio, seeded, inr (inr (result, applies, at, e)))) ↦ elim at [
      | inl written ↦ ground arith
      | inr complete ↦ ground arith
    ]
  ]

  raises-Fails :
      (fault : Option FaultPoint) (symbol quote_asset base_asset : String) (order : OrderResult D)
      (fee : D) (now_ms : ℕ) (store : ExecutionStateStore D) (x : ExecutionError)
      (after : ExecutionStateStore D)
      → apply_order_result_atomically fault symbol quote_asset base_asset order fee now_ms store
        ≡ (raise x, after)
      → (after ≡ store) × Fails fault symbol quote_asset base_asset order fee store x
  unfolding apply_order_result_atomically apply_statements commit_or_roll_back
  raises-Fails fault symbol qa ba order fee now store x after e =
      elim (Option-cases (get_pending order.client_order_id store)) [
        | inl missing ↦ (ground arith, inl (missing, ground arith))
        | inr (pending, found) ↦ elim (Option-cases (load_portfolio symbol store)) [
          | inl unseeded ↦ (ground arith, inr (pending, found, inl (unseeded, ground arith)))
          | inr (portfolio, seeded) ↦
              let application =
                compute_order_application order pending.side qa ba portfolio pending.applied fee in
              let rows_fail : (after ≡ store) × RowsFail fault application x =
                elim (fault-cases fault) [
                  | inl no_fault ↦ elim (Result-cases application) [
                    | inl (result, applies) ↦ absurd (ground arith)
                    | inr (y, refused) ↦ (ground arith, inr (inl (ground arith, ground arith)))
                  ]
                  | inr (inl early) ↦ (ground arith, inl (early, ground arith))
                  | inr (inr (inl at)) ↦ elim (Result-cases application) [
                    | inl (result, applies) ↦
                        (ground arith, inr (inr (result, applies, inl at, ground arith)))
                    | inr (y, refused) ↦ (ground arith, inr (inl (ground arith, ground arith)))
                  ]
                  | inr (inr (inr at)) ↦ elim (Result-cases application) [
                    | inl (result, applies) ↦
                        (ground arith, inr (inr (result, applies, inr at, ground arith)))
                    | inr (y, refused) ↦ (ground arith, inr (inl (ground arith, ground arith)))
                  ]
                ] in
              (rows_fail.0, inr (pending, found, inr (portfolio, seeded, rows_fail.1)))
        ]
      ]

  -- The transaction raises exactly where one of its causes is there, and with the error of that cause: a
  -- missing row of the order, a missing portfolio, a fault before the first write, a refused report, or
  -- a fault after the first or the second write. Both tables are then exactly as they were, also where
  -- one or both had been written.
  pub apply_order_result_atomically_raises :
      (fault : Option FaultPoint) (symbol quote_asset base_asset : String) (order : OrderResult D)
      (fee : D) (now_ms : ℕ) (store : ExecutionStateStore D) (x : ExecutionError)
      → (Fails fault symbol quote_asset base_asset order fee store x
          → apply_order_result_atomically fault symbol quote_asset base_asset order fee now_ms store
            ≡ (raise x, store))
        × ((after : ExecutionStateStore D)
            → apply_order_result_atomically fault symbol quote_asset base_asset order fee now_ms
                store
              ≡ (raise x, after)
            → (after ≡ store) × Fails fault symbol quote_asset base_asset order fee store x)
  apply_order_result_atomically_raises fault symbol qa ba order fee now store x = (
    Fails-raises fault symbol qa ba order fee now store x,
    raises-Fails fault symbol qa ba order fee now store x,
  )

  with_report-KeepsId :
      (order : OrderResult D) (result : OrderApplicationResult D) (now_ms : ℕ)
      → KeepsId (with_report order result now_ms)
  with_report-KeepsId order result now p = refl

  -- A committed report is in both tables: the symbol's portfolio is the one that the report gives, the
  -- order's row holds the amounts applied after it and is resolved exactly if the report is terminal,
  -- and every other portfolio and every other order's row is as before. The report was computed from
  -- the two rows as they stood.
  pub apply_order_result_atomically_writes :
      (fault : Option FaultPoint) (symbol quote_asset base_asset : String) (order : OrderResult D)
      (fee : D) (now_ms : ℕ) (store : ExecutionStateStore D) {result : OrderApplicationResult D}
      {written : ExecutionStateStore D}
      → apply_order_result_atomically fault symbol quote_asset base_asset order fee now_ms store
        ≡ (ok result, written)
      → ((pending : PendingOrder D) × (portfolio : PortfolioState D) × (get_pending
              order.client_order_id store
            ≡ some pending)
          × (load_portfolio symbol store ≡ some portfolio)
          × (compute_order_application order pending.side quote_asset base_asset portfolio
                pending.applied fee
              ≡ ok result)
          × (get_pending order.client_order_id written
              ≡ some (record pending {
                applied = applied_after result;
                status = if result.is_terminal then resolved else submitted;
                resolved_order_status = if result.is_terminal then some order.status else none;
                resolved_at_ms = if result.is_terminal then some now_ms else none;
              })))
        × (load_portfolio symbol written ≡ some result.portfolio)
        × ((other : String)
            → other ≢ symbol
            → load_portfolio other written ≡ load_portfolio other store)
        × ((other : String)
            → other ≢ order.client_order_id
            → get_pending other written ≡ get_pending other store)
  unfolding load_portfolio save_portfolio get_pending
  apply_order_result_atomically_writes fault symbol qa ba order fee now store {result = r} e =
      let (pending, portfolio, found, seeded, applies, no_fault, same) =
        apply_order_result_atomically-Committed fault symbol qa ba order fee now store e in
      let report = with_report order r now in
      let keeps = with_report-KeepsId order r now in
      let id = order.client_order_id in
      rw same (
        (
          pending,
          portfolio,
          found,
          seeded,
          applies,
          find_pending-update_rows id report store.pendings keeps found,
        ),
        lookup-insert symbol symbol r.portfolio store.portfolios
            ∙ ground (arith, eq_iff symbol symbol),
        (λ other ne.
            lookup-insert symbol other r.portfolio store.portfolios
            ∙ ground (arith, eq_iff symbol other)),
        λ other ne. find_pending-update_rows_ne id other report store.pendings keeps ne,
      )

  apply_statements_run :
      (symbol quote_asset base_asset : String) (order : OrderResult D) (fee : D) (now_ms : ℕ)
      (store : ExecutionStateStore D) (pending : PendingOrder D) (portfolio : PortfolioState D)
      (result : OrderApplicationResult D)
      → get_pending order.client_order_id store ≡ some pending
      → load_portfolio symbol store ≡ some portfolio
      → compute_order_application order pending.side quote_asset base_asset portfolio
          pending.applied fee
        ≡ ok result
      → apply_statements none symbol quote_asset base_asset order fee now_ms store
        ≡ (ok result, reported symbol order now_ms result store)
  unfolding apply_statements
  apply_statements_run symbol qa ba order fee now store pending portfolio result found seeded
        applies =
      ground arith

  reported_again :
      (symbol : String) (order : OrderResult D) (now_ms : ℕ) (r : OrderApplicationResult D)
      (store : ExecutionStateStore D)
      → reported symbol order now_ms
          (unchanged r.portfolio r.is_terminal (applied_after r) r.journal_event_type)
          (reported symbol order now_ms r store)
        ≡ reported symbol order now_ms r store
  unfolding save_portfolio
  reported_again symbol order now r store =
      let report = with_report order r now in
      let keeps = with_report-KeepsId order r now in
      let rows =
        update_rows-update_rows order.client_order_id report report store.pendings keeps
          (λ p. refl) in
      let states = insert-insert symbol r.portfolio r.portfolio store.portfolios in
      λ i. record { portfolios = states i; pendings = rows i }

  -- A report that is applied twice counts once: after a committed report, the same report in a second
  -- transaction at the same time returns too, with the portfolio, the applied amounts and the terminal
  -- mark of the first and no realized result, and leaves both tables as the first one left them.
  pub apply_order_result_atomically_twice :
      (ordered : IsOrdered D) (signed : HasSignedDifference D)
      (symbol quote_asset base_asset : String) (order : OrderResult D) (fee : D) (now_ms : ℕ)
      (store : ExecutionStateStore D) {result : OrderApplicationResult D}
      {written : ExecutionStateStore D}
      → apply_order_result_atomically none symbol quote_asset base_asset order fee now_ms store
        ≡ (ok result, written)
      → apply_order_result_atomically none symbol quote_asset base_asset order fee now_ms written
        ≡ (
          ok (
              unchanged result.portfolio result.is_terminal
                (applied_after result)
                result.journal_event_type),
          written,
        )
  unfolding apply_order_result_atomically commit_or_roll_back
  apply_order_result_atomically_twice ordered signed symbol qa ba order fee now store {result = r}
        {written = w} e =
      let (rows, stored, others, other_rows) =
        apply_order_result_atomically_writes none symbol qa ba order fee now store e in
      let (pending, portfolio, found, seeded, applies, row) = rows in
      let (p, q, f, g, a, no_fault, same) =
        apply_order_result_atomically-Committed none symbol qa ba order fee now store e in
      let again = unchanged r.portfolio r.is_terminal (applied_after r) r.journal_event_type in
      let seen =
        compute_order_application_idempotent ordered signed order pending.side qa ba portfolio
          pending.applied fee applies in
      let run =
        apply_statements_run symbol qa ba order fee now w (with_report order r now pending)
          r.portfolio again row stored seen in
      let settled : reported symbol order now again w ≡ w =
        rw same (reported_again symbol order now r store) in
      rw run (ap (λ s. (ok again, s)) settled)
