-- ===== src/Live/Selling/Attempts.antt =====
-- The orders that a sale places.
use binance_testnet_trading.Base.{
  Bool-cases, List, Option, Option-cases, String, false, if◌then◌else◌, inl, inr, none, refl, true,
  ◌∷◌, ◌≡◌, ◌⊎◌,
}
use binance_testnet_trading.Numbers.{Decimals, Floats}
use binance_testnet_trading.Live.{
  Answer-cases, Call, CycleAction, Exchange, RiskState, World, journal_record, network_error,
  place_market_order, placed, refused, save_risk_state,
}
use binance_testnet_trading.Live.Reconcile.{
  is_does_not_exist, reconcile_order, safe_to_retry, safe_to_retry-status_of_report,
}
use binance_testnet_trading.Live.Placing.{
  Quiet, Ran, apply_report-Quiet, continue-Ran, continue-Ran-Quiet, journal_record-Quiet,
  on_store-Quiet, orders, quietly, sales, save_risk_state-Quiet,
}
use binance_testnet_trading.Live.Selling.{
  CycleInput, SellContext, Submission, already_submitted, ask_risk_engine, failed, finish,
  finish_with_error, reported, risk_context, sell, sell_order_id, settle, submit, submit_order,
  validate_and_submit,
}
use binance_testnet_trading.Reasons.{ReasonCode}
use binance_testnet_trading.Portfolio.{sell_side}
use binance_testnet_trading.Base.Int.{ℤ}
use binance_testnet_trading.Sizing.{compute_sell_quantity}
use binance_testnet_trading.Risk.{TradeIntent, evaluate, trade_intent}
use binance_testnet_trading.Execution.Validator.{invalid, validate_order}
use binance_testnet_trading.Risk.Gates.{evaluate_approves}
use binance_testnet_trading.Execution.ClientOrderId.{generate_client_order_id}

-- At most two sales of one quantity under the identifier.
abbrev pub Sells : {D : Type 0} → String → String → List (Call D) → List (Call D) → Type 0
Sells {D = D} symbol id before after =
    (after ≡ before)
    ⊎ ((quantity : D) × ((after ≡ sales 1 symbol quantity id before)
          ⊎ (after ≡ sales 2 symbol quantity id before)))

module _ {D F : Type 0} (exchange : Exchange D) (symbol : String) (quantity : D) (id : String) where
  -- The first attempt failed in the network, and the exchange then said that it knows no such order.
  abbrev pub IsUnknownThere : World D F → Type 0
  IsUnknownThere w =
      (exchange.on_place w.calls symbol sell_side quantity id ≡ network_error)
      × ((code : Option ℤ) × (exchange.on_get_order (placed symbol sell_side quantity id ∷ w.calls)
              symbol id
            ≡ refused code)
          × (is_does_not_exist code ≡ true))

  -- A sale is placed once; it is placed a second time, with the same quantity and identifier, only if
  -- the first attempt failed in the network and the exchange then answered that it knows no such order.
  pub submit_order_retries :
      (w : World D F)
      → let after = (submit_order exchange symbol sell_side quantity id w).1 in
        (orders after ≡ sales 1 symbol quantity id (orders w))
        ⊎ ((orders after ≡ sales 2 symbol quantity id (orders w)) × IsUnknownThere w)
  unfolding submit_order place_market_order journal_record reconcile_order safe_to_retry
  submit_order_retries w =
      let calls = placed symbol sell_side quantity id ∷ w.calls in
      elim (Answer-cases (exchange.on_place w.calls symbol sell_side quantity id)) [
        | inl (order, answers) ↦ rw answers (inl refl)
        | inr (inl (code, refuses)) ↦ rw refuses (inl refl)
        | inr (inr fails) ↦ elim (Answer-cases (exchange.on_get_order calls symbol id)) [
          | inl (order, found) ↦
              rw (fails, found, safe_to_retry-status_of_report order.status) (inl refl)
          | inr (inl (code, refuses)) ↦ elim (Bool-cases (is_does_not_exist code)) [
            | inl absent ↦ rw (fails, refuses, absent) (inr (refl, (refl, (code, refl, absent))))
            | inr present ↦ rw (fails, refuses, present) (inl refl)
          ]
          | inr (inr again) ↦ rw (fails, again) (inl refl)
        ]
      ]

  submit_order-Sells :
      (w : World D F)
      → Ran (Sells symbol id) (orders w) (submit_order exchange symbol sell_side quantity id w)
  submit_order-Sells w = elim (submit_order_retries w) [
    | inl once ↦ record { related = inr (quantity, inl once) }
    | inr twice ↦ record { related = inr (quantity, inr twice.0) }
  ]

module _ {D F : Type 0} where
  pub finish-Quiet :
      (symbol : String) (state : RiskState D F) (action : CycleAction) (reason : ReasonCode)
      → Quiet (finish symbol state action reason)
  unfolding finish save_risk_state
  finish-Quiet symbol state action reason w = record { related = refl }

module _ {D F : Type 0} ⦃num : Decimals D⦄ ⦃flo : Floats D F⦄ (input : CycleInput D F)
    (now : SellContext D F) where
  -- No order, or at most two of the same sale: under the identifier of the signal's candle, with no
  -- kill switch engaged, from reconciled balances.
  abbrev pub MaySell : List (Call D) → List (Call D) → Type 0
  MaySell before after =
      (after ≡ before)
      ⊎ ((input.is_kill_switch_engaged ≡ false)
          × (now.reconciliation_blocked ≡ false)
          × Sells input.config.symbol
              (generate_client_order_id input.sha256_hexdigest input.decimal_text
                input.config.symbol sell_side now.last_candle.close_time_ms)
              before after)

  still : (x : List (Call D)) → MaySell x x
  still x = inl refl

  settle-Quiet : (submission : Submission D) → Quiet (settle input now submission)
  unfolding settle finish_with_error
  settle-Quiet (failed reason) w =
      quietly (save_risk_state-Quiet _ _ w)
        (λ x u. quietly (journal_record-Quiet _ _ u) (λ y v. record { related = refl }))
  settle-Quiet (reported order) w = quietly (apply_report-Quiet _ _ _ order _ _ w) (λ r u.
      quietly (journal_record-Quiet _ _ u)
        (λ x v. quietly (save_risk_state-Quiet _ _ v) (λ y z. record { related = refl })))

  submit-MaySell :
      (quantity : D) (w : World D F)
      → input.is_kill_switch_engaged ≡ false
      → now.reconciliation_blocked ≡ false
      → Ran MaySell (orders w) (submit input now quantity w)
  unfolding submit
  submit-MaySell quantity w unstopped reconciled =
      continue-Ran MaySell still (on_store-Quiet _ w) (λ x u.
        continue-Ran MaySell still (journal_record-Quiet _ _ u) (λ y v.
          let sells = submit_order-Sells input.exchange input.config.symbol quantity _ v in
          continue-Ran-Quiet MaySell
            (record { related = inr (unstopped, reconciled, sells.related) }) settle-Quiet))

  finished :
      (symbol : String) (state : RiskState D F) (action : CycleAction) (reason : ReasonCode)
      (w : World D F)
      → Ran MaySell (orders w) (finish symbol state action reason w)
  finished symbol state action reason w = record { related = inl (finish-Quiet _ _ _ _ w).related }

  validate_and_submit-MaySell :
      (intent : TradeIntent D) (w : World D F)
      → input.is_kill_switch_engaged ≡ false
      → now.reconciliation_blocked ≡ false
      → Ran MaySell (orders w) (validate_and_submit input now intent w)
  unfolding validate_and_submit
  validate_and_submit-MaySell intent w unstopped reconciled =
      let validation = validate_order intent now.prepared.filters in
      let chosen = if validation.is_valid then validation.validated_quantity else none in
      continue-Ran MaySell still (journal_record-Quiet _ _ w) (λ x u. elim (Option-cases chosen) [
        | inl invalid ↦ rw invalid (finished _ _ _ _ u)
        | inr (quantity, valid) ↦ rw valid (submit-MaySell quantity u unstopped reconciled)
      ])

  ask_risk_engine-MaySell :
      (quantity : D) (w : World D F) → Ran MaySell (orders w) (ask_risk_engine input now quantity w)
  unfolding ask_risk_engine
  ask_risk_engine-MaySell quantity w =
      let context = risk_context input now (already_submitted (sell_order_id input now) w) in
      elim (Option-cases
        (trade_intent now.signal_type input.config.symbol quantity now.last_candle.close)) [
          | inl no_intent ↦ rw no_intent (record { related = inl refl })
          | inr (intent, made) ↦ rw made (
              continue-Ran MaySell still (journal_record-Quiet _ _ w) (λ x u.
                elim (Bool-cases (evaluate input.config.risk intent context).is_approved) [
                  | inl passed ↦
                      let clear =
                        ((evaluate_approves input.config.risk intent context).0 passed).0 in
                      rw passed
                        (validate_and_submit-MaySell intent u clear.no_kill_switch clear.reconciled)
                  | inr denied ↦ rw denied (finished _ _ _ _ u)
                ]))
        ]

  pub sell-MaySell : (w : World D F) → Ran MaySell (orders w) (sell input now w)
  unfolding sell
  sell-MaySell w =
      let sizing =
        compute_sell_quantity now.portfolio.base_balance now.last_candle.close
          now.prepared.filters in
      let chosen = if sizing.approved then sizing.quantity else none in
      continue-Ran MaySell still (journal_record-Quiet _ _ w) (λ x u. elim (Option-cases chosen) [
        | inl unsized ↦ rw unsized (finished _ _ _ _ u)
        | inr (quantity, sized) ↦ rw sized (ask_risk_engine-MaySell quantity u)
      ])
