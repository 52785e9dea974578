-- ===== src/Strategy/Crossover.antt =====
-- When the baseline strategy buys and when it exits.
use binance_testnet_trading.Base.{
  Bool, List, Result-cases, [], ap, arith, false, inl, inr, length, map, ok, refl, sym, true, ℕ,
  ◌++◌, ◌<◌, ◌↔◌, ◌∙◌, ◌∷◌, ◌≡◌, ◌⊎◌,
}
use binance_testnet_trading.Numbers.{Floats}
use binance_testnet_trading.Data.{Candle}
use binance_testnet_trading.Strategy.{
  PositionSide, Signal, averages, bearish_cross, bullish_cross, buy, exit, flat, generate_signal,
  last_close_time, last_two, long, signal_at,
}

last_two_ends :
    {F : Type 0} (values : List F) {previous current : F}
    → last_two values ≡ ok (previous, current)
    → (front : List F) × (values ≡ front ++ (previous ∷ current ∷ []))
unfolding last_two
last_two_ends [] e = absurd (ground arith)
last_two_ends (a ∷ []) e = absurd (ground arith)
last_two_ends (a ∷ b ∷ []) e = ([], ground arith)
last_two_ends (a ∷ b ∷ c ∷ rest) e =
    let (front, split) = last_two_ends (b ∷ c ∷ rest) e in (a ∷ front, ap (λ l. a ∷ l) split)

last_close_time_ends :
    {D : Type 0} (candles : List (Candle D)) {t : ℕ}
    → last_close_time candles ≡ ok t
    → (front : List (Candle D)) × (last : Candle D) × (candles ≡ front ++ (last ∷ []))
      × (last.close_time_ms ≡ t)
unfolding last_close_time
last_close_time_ends [] e = absurd (ground arith)
last_close_time_ends (c ∷ []) e = ([], c, refl, ground arith)
last_close_time_ends (c ∷ d ∷ rest) e =
    let (front, last, split, at) = last_close_time_ends (d ∷ rest) e in
    (c ∷ front, last, ap (λ l. c ∷ l) split, at)

-- What the signal says of the previous and the current values of the two averages.
abbrev pub FollowsCrossing :
    {F : Type 0} → (F → F → Bool) → F × F → F × F → PositionSide → Signal → Type 0
FollowsCrossing at_most fast slow position s =
    ((s.type ≡ buy)
      ↔ ((position ≡ flat) × (at_most fast.0 slow.0 ≡ true) × (at_most fast.1 slow.1 ≡ false)))
    × ((s.type ≡ exit) ↔ (
        (position ≡ long)
        × (at_most slow.0 fast.0 ≡ true)
        × (at_most slow.1 fast.1 ≡ false)
        × ((at_most fast.0 slow.0 ≡ false) ⊎ (at_most fast.1 slow.1 ≡ true))))

signal_at-FollowsCrossing :
    {F : Type 0} (at_most : F → F → Bool) (fast slow : F × F) (position : PositionSide)
    (close_time : ℕ)
    → FollowsCrossing at_most fast slow position (signal_at at_most fast slow position close_time)
unfolding signal_at bullish_cross bearish_cross
signal_at-FollowsCrossing at_most fast slow long close_time = ground arith
signal_at-FollowsCrossing at_most fast slow flat close_time = ground arith

signal_at_time :
    {F : Type 0} (at_most : F → F → Bool) (fast slow : F × F) (position : PositionSide)
    (close_time : ℕ)
    → (signal_at at_most fast slow position close_time).candle_close_time_ms ≡ close_time
unfolding signal_at
signal_at_time at_most fast slow long close_time = ground arith
signal_at_time at_most fast slow flat close_time = ground arith

module _ {D F : Type 0} ⦃flo : Floats D F⦄ where
  averages_ends :
      (ema : List F → ℕ → List F) (periods : ℕ × ℕ) (candles : List (Candle D)) {fast slow : F × F}
      → averages ema periods candles ≡ ok (fast, slow)
      → let closes = map (λ (c : Candle D). flo.to_float c.close) candles in
        (last_two (ema closes periods.0) ≡ ok fast) × (last_two (ema closes periods.1) ≡ ok slow)
  unfolding averages
  averages_ends ema periods candles e =
      let closes = map (λ (c : Candle D). flo.to_float c.close) candles in
      elim (Result-cases (last_two (ema closes periods.0))) [
        | inl (f, g) ↦ elim (Result-cases (last_two (ema closes periods.1))) [
          | inl (w, h) ↦ (ground arith, ground arith)
          | inr (x, h) ↦ absurd (ground arith)
        ]
        | inr (x, g) ↦ absurd (ground arith)
      ]

  -- A signal is made only from at least one candle more than the slow period, and carries the close
  -- time of the last candle. Of the two averages of the closing prices it reads the last two values,
  -- the previous and the current. It is BUY exactly when the agent is flat and the fast average was at
  -- most the slow one and now is above it, and EXIT exactly when the agent is long, the slow average
  -- was at most the fast one and now is above it, and the fast one did not rise above the slow one in
  -- the sense of BUY.
  pub generate_signal_moves :
      (ema : List F → ℕ → List F) (periods : ℕ × ℕ) (candles : List (Candle D))
      (position : PositionSide) {s : Signal}
      → generate_signal ema periods candles position ≡ ok s
      → let closes = map (λ (c : Candle D). flo.to_float c.close) candles in
        (periods.1 < length candles)
        × ((earlier : List (Candle D)) × (last : Candle D) × (candles ≡ earlier ++ (last ∷ []))
            × (last.close_time_ms ≡ s.candle_close_time_ms))
        × ((fast_front slow_front : List F) × (fast slow : F × F) × (ema closes periods.0
              ≡ fast_front ++ (fast.0 ∷ fast.1 ∷ []))
            × (ema closes periods.1 ≡ slow_front ++ (slow.0 ∷ slow.1 ∷ []))
            × FollowsCrossing flo.at_most fast slow position s)
  unfolding generate_signal
  generate_signal_moves ema periods candles position {s = s} e =
      elim (Result-cases (averages ema periods candles)) [
        | inl ((fast, slow), f) ↦ elim (Result-cases (last_close_time candles)) [
          | inl (t, h) ↦
              let made : signal_at flo.at_most fast slow position t ≡ s = ground arith in
              let long_enough : periods.1 < length candles = ground arith in
              let (fast_read, slow_read) = averages_ends ema periods candles f in
              let (earlier, last, split, at) = last_close_time_ends candles h in
              let (fast_front, fast_split) = last_two_ends _ fast_read in
              let (slow_front, slow_split) = last_two_ends _ slow_read in
              rw (sym made) (
                long_enough,
                (earlier, last, split, at ∙ sym (signal_at_time flo.at_most fast slow position t)),
                (
                  fast_front,
                  slow_front,
                  fast,
                  slow,
                  fast_split,
                  slow_split,
                  signal_at-FollowsCrossing flo.at_most fast slow position t,
                ),
              )
          | inr (x, h) ↦ absurd (ground arith)
        ]
        | inr (x, f) ↦ absurd (ground arith)
      ]
