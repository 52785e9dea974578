-- ===== src/Data/Forensics/Minutes.antt =====
-- The hour that `_aggregate_1m_to_1h` of data/gap_recovery.py makes of sixty minutes, described
-- without the order in which the minutes are folded.

use binance_testnet_trading.Base.{
  All, Bool-cases, In, List, String, [], ap, arith, false, if◌then◌else◌, inl, inr, length, map,
  refl, true, ℕ, ◌+◌, ◌∙◌, ◌∷◌, ◌≡◌,
}
use binance_testnet_trading.Numbers.{Decimals, IsOrdered, max_of, min_of}
use binance_testnet_trading.Data.{Candle, minute}
use binance_testnet_trading.Data.Forensics.{
  aggregate_1m_to_1h, highest, is_continuous_60_minutes, last_of, lowest, minutes_follow,
}

-- The candles open at `start` and then minute by minute.
abbrev pub OpensEveryMinute : {D : Type 0} → ℕ → List (Candle D) → Type 0
OpensEveryMinute start [] = Unit
OpensEveryMinute start (c ∷ cs) = (c.open_time_ms ≡ start) × OpensEveryMinute (start + minute) cs

minutes_follow-Opens :
    {D : Type 0} (c : Candle D) (cs : List (Candle D)) (start : ℕ)
    → c.open_time_ms ≡ start
    → minutes_follow (c ∷ cs) ≡ true
    → OpensEveryMinute start (c ∷ cs)
minutes_follow-Opens c [] start at h = (at, tt)
minutes_follow-Opens c (d ∷ cs) start at h =
    let step : d.open_time_ms ≡ start + minute = ground (arith, at, h) in
    let rest : minutes_follow (d ∷ cs) ≡ true = ground (arith, h) in
    (at, minutes_follow-Opens d cs (start + minute) step rest)

pub is_continuous-Opens :
    {D : Type 0} (candles : List (Candle D)) (hour : ℕ)
    → is_continuous_60_minutes candles hour ≡ true
    → (length candles ≡ 60) × OpensEveryMinute hour candles
unfolding is_continuous_60_minutes
is_continuous-Opens [] hour h = absurd (ground arith)
is_continuous-Opens (c ∷ cs) hour h =
    let at : c.open_time_ms ≡ hour = ground (arith, h) in
    let follow : minutes_follow (c ∷ cs) ≡ true = ground (arith, h) in
    (ground (arith, h), minutes_follow-Opens c cs hour at follow)

module _ {D : Type 0} ⦃num : Decimals D⦄ where
  -- A candle of the hour, from its minutes: `c` is the first of them.
  pub record IsHourOf (symbol : String) (hour : ℕ) (c : Candle D) (cs : List (Candle D))
      (candle : Candle D) : Type 0 where
    pub counted : length (c ∷ cs) ≡ 60
    pub every_minute : OpensEveryMinute hour (c ∷ cs)
    pub names :
        (candle.symbol ≡ symbol)
        × (candle.interval ≡ "1h")
        × (candle.open_time_ms ≡ hour)
        × (candle.close_time_ms ≡ hour + 3_599_999)
    pub opens : candle.open_price ≡ c.open_price
    pub closes : candle.close ≡ (last_of c cs).close
    pub top : All (λ m. num.lt candle.high m.high ≡ false) (c ∷ cs)
    pub top_reached : In candle.high (map (λ m. m.high) (c ∷ cs))
    pub bottom : All (λ m. num.lt m.low candle.low ≡ false) (c ∷ cs)
    pub bottom_reached : In candle.low (map (λ m. m.low) (c ∷ cs))

  module _ (ordered : IsOrdered D) where
    highest-bounds :
        (so_far : D) (cs : List (Candle D))
        → (num.lt (highest so_far cs) so_far ≡ false)
          × All (λ m. num.lt (highest so_far cs) m.high ≡ false) cs
    highest-bounds so_far [] = (ordered.lt_irrefl so_far, tt)
    highest-bounds so_far (c ∷ cs) =
        let (above, rest) = highest-bounds (max_of so_far c.high) cs in
        let left : num.lt (max_of so_far c.high) so_far ≡ false =
          elim (Bool-cases (num.lt so_far c.high)) [
            | inl less ↦ rw less (ordered.lt_asymm so_far c.high less)
            | inr more ↦ rw more (ordered.lt_irrefl so_far)
          ] in
        let right : num.lt (max_of so_far c.high) c.high ≡ false =
          elim (Bool-cases (num.lt so_far c.high)) [
            | inl less ↦ rw less (ordered.lt_irrefl c.high)
            | inr more ↦ rw more more
          ] in
        (ordered.le_trans so_far _ _ left above, (ordered.le_trans c.high _ _ right above, rest))

    lowest-bounds :
        (so_far : D) (cs : List (Candle D))
        → (num.lt so_far (lowest so_far cs) ≡ false)
          × All (λ m. num.lt m.low (lowest so_far cs) ≡ false) cs
    lowest-bounds so_far [] = (ordered.lt_irrefl so_far, tt)
    lowest-bounds so_far (c ∷ cs) =
        let (below, rest) = lowest-bounds (min_of so_far c.low) cs in
        let left : num.lt so_far (min_of so_far c.low) ≡ false =
          elim (Bool-cases (num.lt c.low so_far)) [
            | inl less ↦ rw less (ordered.lt_asymm c.low so_far less)
            | inr more ↦ rw more (ordered.lt_irrefl so_far)
          ] in
        let right : num.lt c.low (min_of so_far c.low) ≡ false =
          elim (Bool-cases (num.lt c.low so_far)) [
            | inl less ↦ rw less (ordered.lt_irrefl c.low)
            | inr more ↦ rw more more
          ] in
        (ordered.le_trans _ _ so_far below left, (ordered.le_trans _ _ c.low below right, rest))

  highest-In :
      (so_far : D) (cs : List (Candle D)) → In (highest so_far cs) (so_far ∷ map (λ m. m.high) cs)
  highest-In so_far [] = inl refl
  highest-In so_far (c ∷ cs) = elim (highest-In (max_of so_far c.high) cs) [
    | inr found ↦ inr (inr found)
    | inl e ↦ elim (Bool-cases (num.lt so_far c.high)) [
      | inl less ↦ inr (inl (e ∙ ap (λ b. if b then c.high else so_far) less))
      | inr more ↦ inl (e ∙ ap (λ b. if b then c.high else so_far) more)
    ]
  ]

  lowest-In :
      (so_far : D) (cs : List (Candle D)) → In (lowest so_far cs) (so_far ∷ map (λ m. m.low) cs)
  lowest-In so_far [] = inl refl
  lowest-In so_far (c ∷ cs) = elim (lowest-In (min_of so_far c.low) cs) [
    | inr found ↦ inr (inr found)
    | inl e ↦ elim (Bool-cases (num.lt c.low so_far)) [
      | inl less ↦ inr (inl (e ∙ ap (λ b. if b then c.low else so_far) less))
      | inr more ↦ inl (e ∙ ap (λ b. if b then c.low else so_far) more)
    ]
  ]

  pub aggregate-IsHourOf :
      (ordered : IsOrdered D) (symbol : String) (hour : ℕ) (c : Candle D) (cs : List (Candle D))
      → is_continuous_60_minutes (c ∷ cs) hour ≡ true
      → IsHourOf symbol hour c cs (aggregate_1m_to_1h symbol hour c cs)
  aggregate-IsHourOf ordered symbol hour c cs h = record {
    counted = (is_continuous-Opens (c ∷ cs) hour h).0;
    every_minute = (is_continuous-Opens (c ∷ cs) hour h).1;
    names = (refl, refl, refl, omega arith);
    opens = refl;
    closes = refl;
    top = highest-bounds ordered c.high cs;
    top_reached = highest-In c.high cs;
    bottom = lowest-bounds ordered c.low cs;
    bottom_reached = lowest-In c.low cs;
  }
