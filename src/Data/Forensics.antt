-- ===== src/Data/Forensics.antt =====
-- data/gap_recovery.py: what each missing hour of a gap is found to be, from the minutes that the
-- exchange still has. The texts for the reader, progress messages and waits are left out. The
-- exchange's answers, the readings of the monotonic clock and the SHA-256 of a candle are parameters.
pub mod Analysis
pub mod Minutes
pub mod Outcomes
pub mod Verdicts
pub mod Apply
pub mod Applied
use binance_testnet_trading.Base.{
  Bool, List, Option, String, [], false, if◌then◌else◌, length, none, not, some, suc, true, zero, ℕ,
  ◌&&◌, ◌*◌, ◌+◌, ◌-◌, ◌==◌, ◌||◌, ◌∷◌,
}
use binance_testnet_trading.Numbers.{Decimals, eq, max_of, min_of}
use binance_testnet_trading.Data.{Candle, minute}
use binance_testnet_trading.Data.Gaps.{GapRecord}
use binance_testnet_trading.Base.Int.{pos_part}

pub data RecoveryOutcome : Type 0 where
  fully_recoverable partially_recoverable genuine_no_data unresolved : RecoveryOutcome

-- The texts of `validation_result`.
pub data ValidationResult : Type 0 where
  valid_matches_native_1h valid_native_1h_check_skipped valid_native_1h_unavailable :
      ValidationResult

pub record RecoveredCandleProvenance : Type 0 where
  pub source : String
  pub retrieved_at_ms : ℕ
  pub component_count : ℕ
  pub first_component_open_time_ms : ℕ
  pub last_component_open_time_ms : ℕ
  pub validation_result : ValidationResult
  pub content_hash : String

pub record MissingHourOutcome (D : Type 0) : Type 0 where
  pub open_time_ms : ℕ
  pub outcome : RecoveryOutcome
  pub found_1m_candle_count : ℕ
  pub reconstructed_candle : Option (Candle D)
  pub provenance : Option RecoveredCandleProvenance

pub record GapForensicResult (D : Type 0) : Type 0 where
  pub gap : GapRecord
  pub missing_hours : List (MissingHourOutcome D)

abbrev pub one_hour_ms : ℕ
one_hour_ms = 60 * minute

abbrev pub minutes_per_hour : ℕ
minutes_per_hour = 60

-- `[first + i * _ONE_HOUR_MS for i in range(n)]`
abbrev pub hours_from : ℕ → ℕ → List ℕ
hours_from first zero = []
hours_from first (suc n) = first ∷ hours_from (first + one_hour_ms) n

abbrev pub missing_hours_for_gap : GapRecord → List ℕ
missing_hours_for_gap gap = hours_from gap.expected_open_time_ms (pos_part gap.missing_intervals)

module _ {D : Type 0} where
  -- Each candle but the first opens a minute after the one before.
  abbrev pub minutes_follow : List (Candle D) → Bool
  minutes_follow [] = true
  minutes_follow (c ∷ []) = true
  minutes_follow (c ∷ d ∷ cs) = d.open_time_ms - c.open_time_ms == minute && minutes_follow (d ∷ cs)

  unfoldable pub is_continuous_60_minutes : List (Candle D) → ℕ → Bool
  is_continuous_60_minutes [] hour_open_time_ms = false
  is_continuous_60_minutes (c ∷ cs) hour_open_time_ms =
      if not (length (c ∷ cs) == minutes_per_hour)
      then false
      else c.open_time_ms == hour_open_time_ms && minutes_follow (c ∷ cs)

  -- `candles[-1]` of the candles that begin with `c`.
  abbrev pub last_of : Candle D → List (Candle D) → Candle D
  last_of c [] = c
  last_of c (d ∷ cs) = last_of d cs

  -- `[c for c in page if c.open_time_ms == hour_open_time_ms][0]`, or None.
  abbrev pub first_at : ℕ → List (Candle D) → Option (Candle D)
  first_at hour_open_time_ms [] = none
  first_at hour_open_time_ms (c ∷ cs) =
      let rest = first_at hour_open_time_ms cs in
      if c.open_time_ms == hour_open_time_ms then some c else rest

  module _ ⦃num : Decimals D⦄ where
    -- `max(c.high for c in ...)`, `min(c.low for c in ...)` and `sum(c.volume for c in ...)`
    abbrev pub highest : D → List (Candle D) → D
    highest so_far [] = so_far
    highest so_far (c ∷ cs) = highest (max_of so_far c.high) cs

    abbrev pub lowest : D → List (Candle D) → D
    lowest so_far [] = so_far
    lowest so_far (c ∷ cs) = lowest (min_of so_far c.low) cs

    abbrev pub total_volume : D → List (Candle D) → D
    total_volume so_far [] = so_far
    total_volume so_far (c ∷ cs) = total_volume (num.add so_far c.volume) cs

    -- `_aggregate_1m_to_1h` of the first minute and the others: it is called with sixty.
    abbrev pub aggregate_1m_to_1h : String → ℕ → Candle D → List (Candle D) → Candle D
    aggregate_1m_to_1h symbol hour_open_time_ms c cs = record {
      symbol = symbol;
      interval = "1h";
      open_time_ms = hour_open_time_ms;
      close_time_ms = hour_open_time_ms + one_hour_ms - 1;
      open_price = c.open_price;
      high = highest c.high cs;
      low = lowest c.low cs;
      close = (last_of c cs).close;
      volume = total_volume num.nought (c ∷ cs);
    }

    -- The cross-check finds a difference.
    abbrev pub differs : Candle D → Candle D → Bool
    differs native reconstructed =
        not (eq native.open_price reconstructed.open_price)
        || not (eq native.high reconstructed.high)
        || not (eq native.low reconstructed.low)
        || not (eq native.close reconstructed.close)
        || not (eq native.volume reconstructed.volume)
