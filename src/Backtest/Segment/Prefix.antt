-- ===== src/Backtest/Segment/Prefix.antt =====
-- A run over a segment and over the same segment with later candles.
use mathlib.Core.Path.{subst}
use mathlib.Core.List.{append_assoc}
use mathlib.Core.List.{append-nil}
use binance_testnet_trading.Base.{
  Bool, List, Result, Result-cases, [], ap, arith, drop, inl, inr, length, refl, suc, sym, take,
  zero, ℕ, ◌++◌, ◌-◌, ◌<◌, ◌>>=◌, ◌∷◌, ◌≡◌, ◌≤◌,
}
use binance_testnet_trading.Numbers.{Decimals, Floats, PlanDecimals, le}
use binance_testnet_trading.Data.{Candle}
use binance_testnet_trading.Sizing.{SymbolFilters}
use binance_testnet_trading.Backtest.Broker.{BacktestBroker}
use binance_testnet_trading.Backtest.Trades.{BacktestError, RunConfig, SegmentRun}
use binance_testnet_trading.Backtest.Segment.{
  SignalGenerator, new_run, run_bar, run_bars, run_from, run_loop,
}

module _ {A : Type 0} where
  take-append : (k : ℕ) (xs ys : List A) → k ≤ length xs → take k (xs ++ ys) ≡ take k xs
  take-append zero xs ys le = refl
  take-append (suc k) [] ys le = absurd (omega (arith, le))
  take-append (suc k) (x ∷ xs) ys le = ap (λ r. x ∷ r) (take-append k xs ys (omega (arith, le)))

  drop-append : (k : ℕ) (xs ys : List A) → k ≤ length xs → drop k (xs ++ ys) ≡ drop k xs ++ ys
  drop-append zero xs ys le = refl
  drop-append (suc k) [] ys le = absurd (omega (arith, le))
  drop-append (suc k) (x ∷ xs) ys le = drop-append k xs ys (omega (arith, le))

  pub append-take-drop : (k : ℕ) (xs : List A) → take k xs ++ drop k xs ≡ xs
  append-take-drop zero xs = refl
  append-take-drop (suc k) [] = refl
  append-take-drop (suc k) (x ∷ xs) = ap (λ r. x ∷ r) (append-take-drop k xs)

  drop_nonempty :
      (k : ℕ) (xs : List A) → k < length xs → (x : A) × ((rest : List A) × (drop k xs ≡ x ∷ rest))
  drop_nonempty k [] lt = absurd (omega (arith, lt))
  drop_nonempty zero (x ∷ xs) lt = (x, (xs, refl))
  drop_nonempty (suc k) (x ∷ xs) lt = drop_nonempty k xs (omega (arith, lt))

module _ {D F : Type 0} ⦃num : Decimals D⦄ ⦃plan_num : PlanDecimals D⦄ ⦃flo : Floats D F⦄
    (strategy : SignalGenerator D) (config : RunConfig F) (filters : SymbolFilters D)
    (broker : BacktestBroker D) (use_policy : Bool) where
  run_bars-append :
      (before bars later : List (Candle D)) (run : SegmentRun D F)
      → run_bars strategy config filters broker use_policy before (bars ++ later) run ≡ (
          run_bars strategy config filters broker use_policy before bars run
          >>= run_bars strategy config filters broker use_policy (before ++ bars) later)
  unfolding run_bars
  run_bars-append before [] later run = rw (append-nil before) refl
  run_bars-append before (bar ∷ bars) later run =
      let seen = before ++ (bar ∷ []) in
      let step = run_bar strategy config filters broker use_policy seen bar run in
      elim (Result-cases step) [
        | inl (next, ran) ↦
            rw (ran, sym (append_assoc before (bar ∷ []) bars))
              (run_bars-append seen bars later next)
        | inr (e, failed) ↦ rw failed refl
      ]

  -- A run over a segment with later candles behind it is the run over the segment, continued over
  -- them: no decision, fill, trade or point of the segment depends on a later candle.
  pub run_loop-append :
      (segment later : List (Candle D)) (min_required : ℕ) (starting_equity : D)
      → min_required - 1 < length segment
      → run_loop strategy config filters broker use_policy
          (segment ++ later)
          min_required
          starting_equity
        ≡ (run_loop strategy config filters broker use_policy segment min_required starting_equity
            >>= run_bars strategy config filters broker use_policy segment later)
  unfolding run_loop run_from
  run_loop-append segment later min_required starting_equity enough =
      let k = min_required - 1 in
      let le : k ≤ length segment = omega (arith, enough) in
      let (first, (rest, split)) = drop_nonempty k segment enough in
      let whole : take k segment ++ (first ∷ rest) ≡ segment =
        rw (sym split) (append-take-drop k segment) in
      let run = new_run starting_equity first.close in
      let replay : List (Candle D)
          → List (Candle D)
          → SegmentRun D F
          → Result BacktestError (SegmentRun D F) =
        run_bars strategy config filters broker use_policy in
      let warm_up = take k segment in
      let continued : replay warm_up (first ∷ rest ++ later) run
          ≡ (replay warm_up (first ∷ rest) run >>= replay segment later) =
        subst
          (λ w.
            replay warm_up (first ∷ rest ++ later) run
            ≡ (replay warm_up (first ∷ rest) run >>= replay w later))
          whole (run_bars-append warm_up (first ∷ rest) later run) in
      rw (take-append k segment later le, drop-append k segment later le, split) continued
