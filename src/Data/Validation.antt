-- ===== src/Data/Validation.antt =====
-- data/validation.py: the fail-closed checks of a candle series that live trading makes.
pub mod Contiguity
use binance_testnet_trading.Base.{
  Bool, List, Option, Result, String, [], any, if◌then◌else◌, last?, leb, ltb, none, ok, raise,
  some, true, ℕ, ◌*◌, ◌+◌, ◌-◌, ◌==◌, ◌>>=◌, ◌>>◌, ◌∷◌,
}
use binance_testnet_trading.Data.{
  Candle, DataError, duplicate_candle, empty_data, gap_detected, interval_to_ms,
  out_of_order_candle, stale_data,
}

module _ {D : Type 0} where
  -- `candle.open_time_ms in seen_open_times`
  abbrev pub seen_before : List ℕ → Candle D → Bool
  seen_before seen c = any (λ t. t == c.open_time_ms) seen

  -- The tests of one round, against `previous`.
  pub check_previous : ℕ → Option (Candle D) → Candle D → Result DataError (Unit {0})
  check_previous gap none c = ok tt
  check_previous gap (some p) c =
      if leb c.open_time_ms p.open_time_ms
      then raise out_of_order_candle
      else if c.open_time_ms - p.open_time_ms == gap
      then ok tt
      else raise gap_detected

  pub validate_loop : ℕ → List ℕ → Option (Candle D) → List (Candle D) → Result DataError (Unit {0})
  unfolding check_previous
  validate_loop gap seen previous [] = ok tt
  validate_loop gap seen previous (c ∷ cs) =
      let rest = validate_loop gap (c.open_time_ms ∷ seen) (some c) cs in
      if seen_before seen c
      then raise duplicate_candle
      else check_previous gap previous c >>= λ _. rest

  pub validate_candle_sequence : List (Candle D) → String → Result DataError (List (Candle D))
  validate_candle_sequence [] interval = raise empty_data
  validate_candle_sequence (c ∷ cs) interval = do
    gap ← interval_to_ms interval
    validate_loop gap [] none (c ∷ cs)
    ok (c ∷ cs)

  -- `age_seconds > max_age_seconds` for `age_seconds = (reference - close) / 1000`, with the division
  -- and the subtraction taken to the other side.
  stale : ℕ → ℕ → Option (Candle D) → Bool
  stale reference_time_ms max_age_seconds none = true
  stale reference_time_ms max_age_seconds (some c) =
      ltb (max_age_seconds * 1000 + c.close_time_ms) reference_time_ms

  pub validate_not_stale : List (Candle D) → ℕ → ℕ → Result DataError (List (Candle D))
  unfolding stale
  validate_not_stale [] reference_time_ms max_age_seconds = raise empty_data
  validate_not_stale (c ∷ cs) reference_time_ms max_age_seconds =
      if stale reference_time_ms max_age_seconds (last? (c ∷ cs))
      then raise stale_data
      else ok (c ∷ cs)
