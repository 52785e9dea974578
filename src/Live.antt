-- ===== src/Live.antt =====
-- The world of one live cycle (execution/live_runner.py): the database, the risk states, the journal,
-- and the calls that the exchange has received. The exchange, the clock, the file of the kill switch,
-- SHA-256 and the moving average of pandas are parameters.
pub mod Reconcile
pub mod Signals
pub mod Selling
pub mod Cycle
pub mod Placing
use binance_testnet_trading.Base.{
  List, Option, Result, String, [], inl, inr, none, ok, raise, refl, ℕ, ◌++◌, ◌∷◌, ◌≡◌, ◌⊎◌,
}
use binance_testnet_trading.Base.Int.{ℤ}
use binance_testnet_trading.Base.Dict.{Dict, insert, lookup}
use binance_testnet_trading.Base.Exec.{Exec}
use binance_testnet_trading.Numbers.{Decimals}
use binance_testnet_trading.Reasons.{ReasonCode}
use binance_testnet_trading.Portfolio.{OrderSide}
use binance_testnet_trading.Execution.Orders.{JournalEvent, OrderResult}
use binance_testnet_trading.Execution.Outcome.{ExecutionError, OrderApplicationResult}
use binance_testnet_trading.Store.{ExecutionStateStore, apply_order_result_atomically}

-- How a signed request ends: an answer, a BinanceApiError with its code, or a failure of the network
-- (`requests.exceptions.RequestException`).
pub data Answer (A : Type 0) : Type 0 where
  answered : A → Answer A
  refused : Option ℤ → Answer A
  network_error : Answer A

pub Answer-cases :
    {A : Type 0} (answer : Answer A)
    → ((a : A) × (answer ≡ answered a))
      ⊎ (((code : Option ℤ) × (answer ≡ refused code)) ⊎ (answer ≡ network_error))
Answer-cases (answered a) = inl (a, refl)
Answer-cases (refused code) = inr (inl (code, refl))
Answer-cases network_error = inr (inr refl)

-- The requests of `TestnetBrokerAdapter` that the cycle makes.
pub data Call (D : Type 0) : Type 0 where
  placed : String → OrderSide → D → String → Call D
  asked : String → String → Call D
  asked_balances : Call D

-- What the exchange answers, given the calls before, latest first.
pub record Exchange (D : Type 0) : Type 0 where
  pub on_place : List (Call D) → String → OrderSide → D → String → Answer (OrderResult D)
  pub on_get_order : List (Call D) → String → String → Answer (OrderResult D)
  pub on_balances : List (Call D) → Answer (Dict (D × D))

-- persistence/risk_state_store.py; the day is counted from the epoch.
pub record RiskState (D F : Type 0) : Type 0 where
  pub day_key : ℕ
  pub daily_start_equity : D
  pub daily_realized_pnl_pct : F
  pub trades_today : ℕ
  pub peak_equity : D
  pub cooldown_bars_remaining : ℕ
  pub consecutive_api_errors : ℕ

-- An entry of the journal: its type and, of its payload, the client order id.
pub record JournalEntry : Type 0 where
  pub entry_type : JournalEvent
  pub entry_order_id : Option String

pub record World (D F : Type 0) : Type 0 where
  pub store : ExecutionStateStore D
  pub risk_states : Dict (RiskState D F)
  pub journal : List JournalEntry
  pub calls : List (Call D)

-- The exceptions that no handler of the cycle catches.
pub data Crash : Type 0 where
  uncaught_network_error uncaught_api_error cold_start_reconciliation : Crash
  insufficient_data value_error index_error assertion_error : Crash
  execution_error : ExecutionError → Crash

pub data CycleAction : Type 0 where
  hold_action sell_action no_trade error_action : CycleAction

-- `CycleResult` without its detail.
pub record CycleResult : Type 0 where
  pub action : CycleAction
  pub reason_code : ReasonCode

abbrev pub ended : CycleAction → ReasonCode → CycleResult
ended action reason = record { action = action; reason_code = reason }

abbrev pub Live : Type 0 → Type 0 → Type 0 → Type 0
Live D F A = Exec (World D F) Crash A

pub lift_execution : {A : Type 0} → Result ExecutionError A → Result Crash A
lift_execution (ok a) = ok a
lift_execution (raise e) = raise (execution_error e)

-- An answer whose exceptions nothing catches.
pub answer_or_crash : {A : Type 0} → Answer A → Result Crash A
answer_or_crash (answered a) = ok a
answer_or_crash (refused code) = raise uncaught_api_error
answer_or_crash network_error = raise uncaught_network_error

module _ {D F : Type 0} where
  -- `journal.record`
  pub journal_record : JournalEvent → Option String → Live D F (Unit {0})
  journal_record event id w = (
    ok tt,
    record w { journal = w.journal ++ record { entry_type = event; entry_order_id = id } ∷ [] },
  )

  -- `risk_state_store.save`
  pub save_risk_state : String → RiskState D F → Live D F (Unit {0})
  save_risk_state symbol state w =
      (ok tt, record w { risk_states = insert symbol state w.risk_states })

  pub load_risk_state : String → World D F → Option (RiskState D F)
  load_risk_state symbol w = lookup symbol w.risk_states

  -- A statement on the store.
  pub on_store : (ExecutionStateStore D → ExecutionStateStore D) → Live D F (Unit {0})
  on_store f w = (ok tt, record w { store = f w.store })

  pub place_market_order :
      Exchange D → String → OrderSide → D → String → Live D F (Answer (OrderResult D))
  place_market_order exchange symbol side quantity id w = (
    ok (exchange.on_place w.calls symbol side quantity id),
    record w { calls = placed symbol side quantity id ∷ w.calls },
  )

  pub get_order : Exchange D → String → String → Live D F (Answer (OrderResult D))
  get_order exchange symbol id w =
      (ok (exchange.on_get_order w.calls symbol id), record w { calls = asked symbol id ∷ w.calls })

  -- `get_account_balances`, whose exceptions nothing catches.
  pub get_account_balances : Exchange D → Live D F (Dict (D × D))
  unfolding answer_or_crash
  get_account_balances exchange w = (
    answer_or_crash (exchange.on_balances w.calls),
    record w { calls = asked_balances ∷ w.calls },
  )

module _ {D F : Type 0} ⦃num : Decimals D⦄ where
  -- `execution_store.apply_order_result_atomically`, with no fault injected.
  pub apply_report :
      String → String → String → OrderResult D → D → ℕ → Live D F (OrderApplicationResult D)
  unfolding lift_execution
  apply_report symbol quote_asset base_asset order fee now_ms w =
      let (r, after) =
        apply_order_result_atomically none symbol quote_asset base_asset order fee now_ms w.store in
      (lift_execution r, record w { store = after })
