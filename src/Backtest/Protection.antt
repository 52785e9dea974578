-- ===== src/Backtest/Protection.antt =====
-- The invariant of a run: positions with their trades and stops.
pub mod Closings
pub mod Openings
pub mod Signals
pub mod Bars
pub mod Runs
use binance_testnet_trading.Base.{
  All, All-append, Bool, List, Option, Option-cases, Result, [], arith, false, inl, inr, is_some,
  length, none, ok, raise, refl, some, ℕ, ◌++◌, ◌+◌, ◌∙◌, ◌∷◌, ◌≡◌, ◌≤◌,
}
use binance_testnet_trading.Numbers.{Decimals, HasNeutralZero, IsExact, IsOrdered, le}
use binance_testnet_trading.Strategy.{PositionSide, PositionSide-cases, flat, long}
use binance_testnet_trading.Sizing.{SymbolFilters, round_quantity}
use binance_testnet_trading.Portfolio.{PortfolioState, apply_buy, apply_sell, entry_price, reduce}
use binance_testnet_trading.Backtest.Trades.{
  EquityPoint, LoopState, OpenTrade, SegmentRun, Trade, raised_as,
}

-- `sum(t.pnl_quote for t in trades)` from a value on.
abbrev pub total_pnl_from : {D : Type 0} → Decimals D → D → List (Trade D) → D
total_pnl_from num total [] = total
total_pnl_from num total (trade ∷ trades) =
    total_pnl_from num (num.add total trade.pnl_quote) trades

pub total_pnl_from-append :
    {D : Type 0} (num : Decimals D) (total : D) (trades : List (Trade D)) (trade : Trade D)
    → total_pnl_from num total (trades ++ (trade ∷ []))
      ≡ num.add (total_pnl_from num total trades) trade.pnl_quote
total_pnl_from-append num total [] trade = refl
total_pnl_from-append num total (first ∷ trades) trade =
    total_pnl_from-append num (num.add total first.pnl_quote) trades trade

-- The entries whose position is still open.
abbrev pub open_entries : PositionSide → ℕ
open_entries flat = 0
open_entries long = 1

pub raised_returns :
    {E E' A : Type 0} (wrap : E → E') (m : Result E A) {a : A} → raised_as wrap m ≡ ok a → m ≡ ok a
raised_returns wrap (ok b) h = ground arith
raised_returns wrap (raise e) h = ground arith

module _ {D : Type 0} ⦃num : Decimals D⦄ where
  open num use {nought, add, sub, lt}

  pub bought_state :
      (s : PortfolioState D) (quantity price fee : D) {t : PortfolioState D}
      → apply_buy s quantity price fee false ≡ ok t
      → (s.position_side ≡ flat)
        × (t.position_side ≡ long)
        × (t.base_balance ≡ add s.base_balance quantity)
        × (t.realized_pnl_quote ≡ s.realized_pnl_quote)
  unfolding apply_buy
  bought_state s quantity price fee {t = t} h = elim (PositionSide-cases s.position_side) [
    | inl opened ↦ ground arith
    | inr closed ↦ (closed, ground arith, ground arith, ground arith)
  ]

  pub sold_when_long :
      (s : PortfolioState D) (quantity price fee : D) {t : PortfolioState D}
      → apply_sell s quantity price fee false ≡ ok t
      → s.position_side ≡ long
  unfolding apply_sell entry_price
  sold_when_long s quantity price fee h = elim (PositionSide-cases s.position_side) [
    | inl opened ↦ opened
    | inr closed ↦ ground arith
  ]

  pub sold_state :
      (neutral : HasNeutralZero D) (ordered : IsOrdered D) (s : PortfolioState D) (price fee : D)
      {t : PortfolioState D}
      → apply_sell s s.base_balance price fee false ≡ ok t
      → (s.position_side ≡ long) × (t.position_side ≡ flat) × (t.base_balance ≡ nought)
  unfolding apply_sell reduce entry_price
  sold_state neutral ordered s price fee {t = t} h =
      let gone = neutral.sub_self s.base_balance in
      let not_left : lt nought (sub s.base_balance s.base_balance) ≡ false =
        rw gone (ordered.lt_irrefl nought) in
      elim (PositionSide-cases s.position_side) [
        | inr closed ↦ ground arith
        | inl opened ↦ elim (Option-cases s.avg_entry_price) [
          | inl unpriced ↦ ground arith
          | inr (entry, priced) ↦ (opened, ground arith, ground arith)
        ]
      ]

-- What a replay rests on: sums with 0 and differences of equals, the order, sums that need no rounding,
-- and a size that is rounded to the step stays as it is when it is rounded again.
pub record ReplayLaws {D : Type 0} ⦃num : Decimals D⦄ (filters : SymbolFilters D) : Type 0 where
  pub neutral : HasNeutralZero D
  pub ordered : IsOrdered D
  pub exact : IsExact D
  pub rounded :
      (q : D) → round_quantity (round_quantity q filters) filters ≡ round_quantity q filters

module _ {D F : Type 0} ⦃num : Decimals D⦄ where
  open num use {nought, add, sub, mul, lt}

  -- Flat: nothing is held, and there is no trade, no stop and no target. Long: an amount that rounding
  -- leaves as it is, the trade that bought it, and a stop; a target exactly under the policy.
  abbrev pub Held :
      SymbolFilters D
      → Bool
      → PositionSide
      → D
      → Option (OpenTrade D F)
      → Option D
      → Option D
      → Type 0
  Held filters use_policy flat base trade stop target =
      (base ≡ nought) × (trade ≡ none) × (stop ≡ none) × (target ≡ none)
  Held filters use_policy long base trade stop target =
      (round_quantity base filters ≡ base)
      × ((opened : OpenTrade D F) × (trade ≡ some opened) × (opened.quantity ≡ base))
      × ((price : D) × (stop ≡ some price))
      × (is_some target ≡ use_policy)

  abbrev pub Guard : SymbolFilters D → Bool → PositionSide → LoopState D F → Type 0
  Guard filters use_policy side s =
      Held filters use_policy side s.portfolio.base_balance s.open_trade s.stop_price s.target_price

  pub record IsProtected (filters : SymbolFilters D) (use_policy : Bool) (run : SegmentRun D F)
      : Type 0 where
    pub guarded : Guard filters use_policy run.state.portfolio.position_side run.state
    pub counted :
        run.diag.executed_entries
        ≡ length run.trades + open_entries run.state.portfolio.position_side
    pub settled : run.state.portfolio.realized_pnl_quote ≡ total_pnl_from num nought run.trades

-- Trades follow one another: each ends no earlier than it begins, and begins no earlier than those
-- before it have ended.
abbrev pub EndsBy : {D : Type 0} → ℕ → Trade D → Type 0
EndsBy mark trade = trade.exit_time_ms ≤ mark

abbrev pub Sequential : {D : Type 0} → List (Trade D) → Type 0
Sequential [] = Unit
Sequential (trade ∷ trades) =
    (trade.entry_time_ms ≤ trade.exit_time_ms)
    × All (λ later. trade.exit_time_ms ≤ later.entry_time_ms) trades
    × Sequential trades

pub Sequential-append :
    {D : Type 0} (trades : List (Trade D)) (trade : Trade D)
    → Sequential trades
    → All (EndsBy trade.entry_time_ms) trades
    → trade.entry_time_ms ≤ trade.exit_time_ms
    → Sequential (trades ++ (trade ∷ []))
Sequential-append [] trade s before e = (e, tt, tt)
Sequential-append (first ∷ trades) trade s before e = (
  s.0,
  All-append (λ later. first.exit_time_ms ≤ later.entry_time_ms) trades (trade ∷ []) s.1
      (before.0, tt),
  Sequential-append trades trade s.2 before.1 e,
)

pub All-EndsBy :
    {D : Type 0} (earlier later : ℕ) (trades : List (Trade D))
    → earlier ≤ later
    → All (EndsBy earlier) trades
    → All (EndsBy later) trades
All-EndsBy earlier later [] le h = tt
All-EndsBy earlier later (trade ∷ trades) le h =
    (omega (arith, le, h.0), All-EndsBy earlier later trades le h.1)

-- The time by which the closed trades have ended: the entry of the open one, or now.
abbrev pub mark_of : {D F : Type 0} → ℕ → Option (OpenTrade D F) → ℕ
mark_of now none = now
mark_of now (some opened) = opened.entry_time_ms

module _ {D F : Type 0} ⦃num : Decimals D⦄ where
  -- What holds within a bar that opens at `now`, of which nothing is recorded yet: the equity curve is
  -- that of the bars before, the trades follow one another, and the open one began by now.
  pub record InBar (filters : SymbolFilters D) (use_policy : Bool) (now : ℕ)
      (curve : List (EquityPoint D)) (run : SegmentRun D F) : Type 0 where
    pub protected : IsProtected filters use_policy run
    pub unrecorded : run.equity_curve ≡ curve
    pub sequential : Sequential run.trades
    pub ended : All (EndsBy (mark_of now run.state.open_trade)) run.trades
    pub begun : mark_of now run.state.open_trade ≤ now

  -- All that a bar's invariant speaks of.
  pub alike-InBar :
      {filters : SymbolFilters D} {use_policy : Bool} {now : ℕ} {curve : List (EquityPoint D)}
      (run out : SegmentRun D F)
      → InBar filters use_policy now curve run
      → out.state.portfolio ≡ run.state.portfolio
      → out.state.open_trade ≡ run.state.open_trade
      → out.state.stop_price ≡ run.state.stop_price
      → out.state.target_price ≡ run.state.target_price
      → out.trades ≡ run.trades
      → out.diag.executed_entries ≡ run.diag.executed_entries
      → out.equity_curve ≡ run.equity_curve
      → InBar filters use_policy now curve out
  alike-InBar run out p portfolio trade stop target trades entries points = record {
    protected = record {
      guarded = rw (portfolio, trade, stop, target) p.protected.guarded;
      counted = rw (portfolio, trades, entries) p.protected.counted;
      settled = rw (portfolio, trades) p.protected.settled;
    };
    unrecorded = points ∙ p.unrecorded;
    sequential = rw trades p.sequential;
    ended = rw (trade, trades) p.ended;
    begun = rw trade p.begun;
  }
