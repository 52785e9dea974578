-- ===== src/Strategy.antt =====
-- strategy/base.py and strategy/trend_baseline.py: a signal from completed candles and the position.
pub mod Crossover
use binance_testnet_trading.Base.{
  Bool, List, Option, Result, [], if◌then◌else◌, inl, inr, leb, length, ltb, map, none, not, ok,
  raise, refl, some, ℕ, ◌&&◌, ◌+◌, ◌>>=◌, ◌>>◌, ◌||◌, ◌∷◌, ◌≡◌, ◌⊎◌,
}
use binance_testnet_trading.Reasons.{
  ReasonCode, bearish_ema_crossover, bullish_ema_crossover, hold_already_flat, hold_already_long,
  hold_no_crossover,
}
use binance_testnet_trading.Numbers.{Floats}
use binance_testnet_trading.Data.{Candle}

pub data SignalType : Type 0 where
  buy exit hold : SignalType

pub data PositionSide : Type 0 where
  flat long : PositionSide

pub PositionSide-cases : (side : PositionSide) → (side ≡ long) ⊎ (side ≡ flat)
PositionSide-cases long = inl refl
PositionSide-cases flat = inr refl

-- The `inputs` of a signal are a record of the numbers it was computed from, and are left out.
pub record Signal : Type 0 where
  pub type : SignalType
  pub reason_code : ReasonCode
  pub candle_close_time_ms : ℕ

-- InsufficientDataError, and the IndexError of a moving average that is too short.
pub data StrategyError : Type 0 where
  too_few_candles no_such_value : StrategyError

-- `values[-2], values[-1]`
pub last_two : {F : Type 0} → List F → Result StrategyError (F × F)
last_two [] = raise no_such_value
last_two (a ∷ []) = raise no_such_value
last_two (a ∷ b ∷ []) = ok (a, b)
last_two (a ∷ b ∷ c ∷ rest) = last_two (b ∷ c ∷ rest)

-- `candles[-1].close_time_ms`
pub last_close_time : {D : Type 0} → List (Candle D) → Result StrategyError ℕ
last_close_time [] = raise no_such_value
last_close_time (c ∷ []) = ok c.close_time_ms
last_close_time (c ∷ d ∷ rest) = last_close_time (d ∷ rest)

-- `EmaCrossoverTrendStrategy.__init__`: `none` is its ValueError.
pub new_strategy : ℕ → ℕ → Option (ℕ × ℕ)
new_strategy ema_fast ema_slow =
    if leb ema_fast 0 || leb ema_slow 0
    then none
    else if leb ema_slow ema_fast
    then none
    else some (ema_fast, ema_slow)

abbrev pub signal : SignalType → ReasonCode → ℕ → Signal
signal type reason close_time = record {
  type = type;
  reason_code = reason;
  candle_close_time_ms = close_time;
}

-- The comparison `<=` of floats is `at_most`; `a > b` is its negation.
module _ {F : Type 0} (at_most : F → F → Bool) where
  -- A rise of the fast average from at most the slow one to above it, and the reverse.
  pub bullish_cross : F × F → F × F → Bool
  bullish_cross fast slow = at_most fast.0 slow.0 && not (at_most fast.1 slow.1)

  pub bearish_cross : F × F → F × F → Bool
  bearish_cross fast slow = at_most slow.0 fast.0 && not (at_most slow.1 fast.1)

  -- The answer to the two pairs of values (previous, current) at a position.
  pub signal_at : F × F → F × F → PositionSide → ℕ → Signal
  unfolding bullish_cross bearish_cross
  signal_at fast slow long close_time =
      if bullish_cross fast slow
      then signal hold hold_already_long close_time
      else if bearish_cross fast slow
      then signal exit bearish_ema_crossover close_time
      else signal hold hold_no_crossover close_time
  signal_at fast slow flat close_time =
      if bullish_cross fast slow
      then signal buy bullish_ema_crossover close_time
      else if bearish_cross fast slow
      then signal hold hold_already_flat close_time
      else signal hold hold_no_crossover close_time

module _ {D F : Type 0} ⦃flo : Floats D F⦄ where
  -- The two pairs of values that a signal is made of. `ema` is the exponential moving average of
  -- pandas, for a list of values and a span.
  pub averages :
      (List F → ℕ → List F) → ℕ × ℕ → List (Candle D) → Result StrategyError ((F × F) × (F × F))
  unfolding last_two
  averages ema periods candles = do
    let closes = map (λ (c : Candle D). flo.to_float c.close) candles
    fast ← last_two (ema closes periods.0)
    slow ← last_two (ema closes periods.1)
    ok (fast, slow)

  unfoldable pub generate_signal :
      (List F → ℕ → List F) → ℕ × ℕ → List (Candle D) → PositionSide → Result StrategyError Signal
  unfolding averages last_close_time signal_at
  generate_signal ema periods candles current_position =
      if ltb (length candles) (periods.1 + 1) then raise too_few_candles else do
        values ← averages ema periods candles
        close_time ← last_close_time candles
        ok (signal_at flo.at_most values.0 values.1 current_position close_time)
