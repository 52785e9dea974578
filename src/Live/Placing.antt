-- ===== src/Live/Placing.antt =====
-- The orders among the calls that the exchange has received, and how a method changes them.

use mathlib.Core.Path.{subst}
use binance_testnet_trading.Base.{
  Bool, List, Option, Result, Result-cases, String, false, if◌then◌else◌, inl, inr, keep, refl, suc,
  sym, true, zero, ℕ, ◌∷◌, ◌≡◌,
}
use binance_testnet_trading.Base.Exec.{continue}
use binance_testnet_trading.Numbers.{Decimals}
use binance_testnet_trading.Live.{
  Call, Crash, Exchange, Live, RiskState, World, apply_report, asked, asked_balances,
  get_account_balances, get_order, journal_record, on_store, placed, save_risk_state,
}
use binance_testnet_trading.Portfolio.{sell_side}
use binance_testnet_trading.Execution.Orders.{JournalEvent, OrderResult}
use binance_testnet_trading.Store.{ExecutionStateStore}

abbrev pub is_placed : {D : Type 0} → Call D → Bool
is_placed (placed symbol side quantity id) = true
is_placed (asked symbol id) = false
is_placed asked_balances = false

-- The orders placed so far, latest first.
abbrev pub orders : {D F : Type 0} → World D F → List (Call D)
orders w = keep is_placed w.calls

-- `count` sales of the same quantity under the same identifier.
abbrev pub sales : {D : Type 0} → ℕ → String → D → String → List (Call D) → List (Call D)
sales zero symbol quantity id before = before
sales (suc count) symbol quantity id before =
    placed symbol sell_side quantity id ∷ sales count symbol quantity id before

abbrev pub Same : {D : Type 0} → List (Call D) → List (Call D) → Type 0
Same before after = after ≡ before

module _ {D F : Type 0} where
  -- A run that answered, with the orders before it and after it related by `R`.
  pub record Ran (R : List (Call D) → List (Call D) → Type 0) {A : Type 0} (before : List (Call D))
      (run : Result Crash A × World D F) : Type 0 where
    pub related : R before (orders run.1)

  -- A method that places no order.
  abbrev pub Quiet : {A : Type 0} → Live D F A → Type 0
  Quiet m = (w : World D F) → Ran Same (orders w) (m w)

  module _ {A B : Type 0} (R : List (Call D) → List (Call D) → Type 0)
      {run : Result Crash A × World D F} {k : A → Live D F B} {before : List (Call D)} where
    -- The rest of a method after a call that placed nothing, and returned or raised.
    pub continue-Ran :
        ((x : List (Call D)) → R x x)
        → Ran Same before run
        → ((a : A) (u : World D F) → Ran R (orders u) (k a u))
        → Ran R before (continue run.0 k run.1)
    continue-Ran reflexive e h = elim (Result-cases run.0) [
      | inl (a, returned) ↦ rw returned (subst (λ x. Ran R x (k a run.1)) e.related (h a run.1))
      | inr (x, raised) ↦ rw raised (record {
        related = subst (λ y. R y (orders run.1)) e.related (reflexive (orders run.1));
      })
    ]

    -- The rest, which places nothing, after a call that placed orders.
    pub continue-Ran-Quiet :
        Ran R before run → ((a : A) → Quiet (k a)) → Ran R before (continue run.0 k run.1)
    continue-Ran-Quiet e h = elim (Result-cases run.0) [
      | inl (a, returned) ↦
          rw returned
            (record { related = subst (λ x. R before x) (sym (h a run.1).related) e.related })
      | inr (x, raised) ↦ rw raised (record { related = e.related })
    ]

  module _ {A : Type 0} (R : List (Call D) → List (Call D) → Type 0) where
    pub branch-Ran :
        (b : Bool) (m n : Live D F A) (w : World D F) {before : List (Call D)}
        → Ran R before (m w)
        → Ran R before (n w)
        → Ran R before ((if b then m else n) w)
    branch-Ran true m n w h k = h
    branch-Ran false m n w h k = k

  module _ {A B : Type 0} {run : Result Crash A × World D F} {k : A → Live D F B}
      {before : List (Call D)} where
    pub quietly :
        Ran Same before run → ((a : A) → Quiet (k a)) → Ran Same before (continue run.0 k run.1)
    quietly = continue-Ran Same (λ x. refl)

  pub journal_record-Quiet :
      (event : JournalEvent) (id : Option String) → Quiet (journal_record {D = D} {F = F} event id)
  unfolding journal_record
  journal_record-Quiet event id w = record { related = refl }

  pub save_risk_state-Quiet :
      (symbol : String) (state : RiskState D F)
      → Quiet (save_risk_state {D = D} {F = F} symbol state)
  unfolding save_risk_state
  save_risk_state-Quiet symbol state w = record { related = refl }

  pub on_store-Quiet :
      (f : ExecutionStateStore D → ExecutionStateStore D) → Quiet (on_store {D = D} {F = F} f)
  unfolding on_store
  on_store-Quiet f w = record { related = refl }

  pub get_order-Quiet :
      (exchange : Exchange D) (symbol id : String)
      → Quiet (get_order {D = D} {F = F} exchange symbol id)
  unfolding get_order
  get_order-Quiet exchange symbol id w = record { related = refl }

  pub get_account_balances-Quiet :
      (exchange : Exchange D) → Quiet (get_account_balances {D = D} {F = F} exchange)
  unfolding get_account_balances
  get_account_balances-Quiet exchange w = record { related = refl }

module _ {D F : Type 0} ⦃num : Decimals D⦄ where
  pub apply_report-Quiet :
      (symbol quote base : String) (order : OrderResult D) (fee : D) (now_ms : ℕ)
      → Quiet (apply_report {D = D} {F = F} symbol quote base order fee now_ms)
  unfolding apply_report
  apply_report-Quiet symbol quote base order fee now_ms w = record { related = refl }
