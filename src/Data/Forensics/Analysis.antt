-- ===== src/Data/Forensics/Analysis.antt =====
-- The analysis of one gap in data/gap_recovery.py: the paging fetch of its minutes within a time
-- budget, and the classification of its hours.
use binance_testnet_trading.Base.{
  Bool, List, Option, String, [], false, if◌then◌else◌, keep, last?, leb, length, ltb, map, none,
  not, ok, some, suc, true, zero, ℕ, ◌&&◌, ◌++◌, ◌+◌, ◌-◌, ◌∷◌,
}
use binance_testnet_trading.Numbers.{Decimals, Floats}
use binance_testnet_trading.Data.Ingestion.{KlineRequest}
use binance_testnet_trading.Base.Exec.{Exec, pure, throw, ◌>>=◌}
use binance_testnet_trading.Data.History.{
  HistoryError, PageAnswer, out_of_fuel, page, put_candles, request_error, sort_by_open_time,
}
use binance_testnet_trading.Data.{Candle, minute}
use binance_testnet_trading.Data.Boundary.{below_exclusive_end, exclusive_upper_bound_for_request}
use binance_testnet_trading.Data.Forensics.{
  GapForensicResult, MissingHourOutcome, RecoveryOutcome, ValidationResult, aggregate_1m_to_1h,
  differs, first_at, fully_recoverable, genuine_no_data, is_continuous_60_minutes, last_of,
  minutes_per_hour, missing_hours_for_gap, one_hour_ms, partially_recoverable, unresolved,
  valid_matches_native_1h, valid_native_1h_check_skipped, valid_native_1h_unavailable,
}
use binance_testnet_trading.Data.Gaps.{GapRecord}
use binance_testnet_trading.Research.Cutoff.{research_cutoff_ms}

-- `stopped_reason`
pub data StopReason : Type 0 where
  gap_time_budget_exceeded max_retries_exhausted : StopReason

-- The requests sent, latest first, and how often the clock was read.
pub record Audit : Type 0 where
  pub sent : List KlineRequest
  pub readings : ℕ

abbrev pub kline_page_limit : ℕ
kline_page_limit = 1_000

abbrev pub recovery_source : String
recovery_source = "binance_1m_klines_aggregation"

-- The only error is the model's own: a paging loop that lacks fuel.
abbrev pub Run : Type 0 → Type 0
Run A = Exec Audit HistoryError A

module _ {D F : Type 0} ⦃num : Decimals D⦄ ⦃fl : Floats D F⦄
    (get_klines : List KlineRequest → KlineRequest → PageAnswer D)
    (now_fn : List KlineRequest → ℕ → F) (content_hash : Candle D → String) (symbol : String) where
  -- `now_fn()`
  abbrev pub read_clock : Run F
  read_clock s = (ok (now_fn s.sent s.readings), record s { readings = suc s.readings })

  abbrev pub ask_client : KlineRequest → Run (PageAnswer D)
  ask_client request s = (ok (get_klines s.sent request), record s { sent = request ∷ s.sent })

  -- `(page, True)` is some page and `(None, False)` is none; the last argument counts the attempts
  -- left.
  unfoldable pub fetch_klines_with_bounded_retries :
      String → ℕ → ℕ → ℕ → ℕ → Run (Option (List (Candle D)))
  fetch_klines_with_bounded_retries interval start_ms end_ms limit zero = pure none
  fetch_klines_with_bounded_retries interval start_ms end_ms limit (suc left) = do
    let again = fetch_klines_with_bounded_retries interval start_ms end_ms limit left
    answer ← ask_client (record {
      symbol = symbol;
      interval = interval;
      start_time_ms = some start_ms;
      end_time_ms = some (exclusive_upper_bound_for_request end_ms);
      limit = limit;
    })
    elim answer [
      | page candles ↦ pure (some (below_exclusive_end candles (some end_ms)))
      | request_error ↦ again
    ]

  -- The candles, `reached_up_to_ms` and `stopped_reason`, on fuel.
  unfoldable pub fetch_1m_range :
      ℕ → ℕ → ℕ → F → ℕ → List (Candle D) → Run (List (Candle D) × ℕ × Option StopReason)
  fetch_1m_range zero end_ms max_retries deadline cursor all_candles = throw out_of_fuel
  fetch_1m_range (suc fuel) end_ms max_retries deadline cursor all_candles =
      elim (ltb cursor end_ms) [
        | false ↦ pure (all_candles, end_ms, none)
        | true ↦ do
          now ← read_clock
          elim (fl.at_most deadline now) [
            | true ↦ pure (all_candles, cursor, some gap_time_budget_exceeded)
            | false ↦ do
              answer ←
                  fetch_klines_with_bounded_retries "1m" cursor end_ms kline_page_limit max_retries
              elim answer [
                | none ↦ pure (all_candles, cursor, some max_retries_exhausted)
                | some found ↦ elim (last? found) [
                  | none ↦ pure (all_candles, end_ms, none)
                  | some last ↦
                      let more = all_candles ++ found in
                      elim (ltb (length found) kline_page_limit) [
                        | true ↦ pure (more, end_ms, none)
                        | false ↦
                            fetch_1m_range fuel end_ms max_retries deadline
                              (last.open_time_ms + minute) more
                      ]
                ]
              ]
          ]
      ]

  unfoldable pub fetch_native_1h : ℕ → ℕ → Run (Option (Candle D))
  fetch_native_1h hour_open_time_ms max_retries = do
    answer ←
        fetch_klines_with_bounded_retries "1h" hour_open_time_ms (hour_open_time_ms + one_hour_ms) 1
          max_retries
    elim answer [ none ↦ pure none | some found ↦ pure (first_at hour_open_time_ms found) ]

  -- The native candle, if there is one, and whether the check was skipped.
  unfoldable pub cross_check : F → ℕ → ℕ → Run (Option (Candle D) × Bool)
  cross_check deadline hour_open_time_ms max_retries = do
    now ← read_clock
    elim (fl.at_most deadline now) [
      | true ↦ pure (none, true)
      | false ↦ do native ← fetch_native_1h hour_open_time_ms max_retries; pure (native, false)
    ]

  abbrev pub unrecovered : ℕ → RecoveryOutcome → ℕ → MissingHourOutcome D
  unrecovered hour_open_time_ms outcome count = record {
    open_time_ms = hour_open_time_ms;
    outcome = outcome;
    found_1m_candle_count = count;
    reconstructed_candle = none;
    provenance = none;
  }

  abbrev pub validation_of : Option (Candle D) → Bool → ValidationResult
  validation_of (some native) skipped = valid_matches_native_1h
  validation_of none true = valid_native_1h_check_skipped
  validation_of none false = valid_native_1h_unavailable

  -- What the cross-check makes of the sixty minutes, given as the first and the others.
  unfoldable pub judge :
      ℕ → ℕ → Candle D → List (Candle D) → Option (Candle D) → Bool → MissingHourOutcome D
  judge now_ms hour_open_time_ms c cs native skipped =
      let reconstructed = aggregate_1m_to_1h symbol hour_open_time_ms c cs in
      let count = length (c ∷ cs) in
      let refuted : Bool = elim native [ none ↦ false | some n ↦ differs n reconstructed ] in
      if refuted then unrecovered hour_open_time_ms unresolved count else record {
        open_time_ms = hour_open_time_ms;
        outcome = fully_recoverable;
        found_1m_candle_count = count;
        reconstructed_candle = some reconstructed;
        provenance = some (record {
          source = recovery_source;
          retrieved_at_ms = now_ms;
          component_count = count;
          first_component_open_time_ms = c.open_time_ms;
          last_component_open_time_ms = (last_of c cs).open_time_ms;
          validation_result = validation_of native skipped;
          content_hash = content_hash reconstructed;
        });
      }

  unfoldable pub classify_hour : ℕ → F → ℕ → ℕ → List (Candle D) → Run (MissingHourOutcome D)
  classify_hour now_ms deadline max_retries hour_open_time_ms [] =
      pure (unrecovered hour_open_time_ms genuine_no_data 0)
  classify_hour now_ms deadline max_retries hour_open_time_ms (c ∷ cs) =
      let count = length (c ∷ cs) in
      if not (is_continuous_60_minutes (c ∷ cs) hour_open_time_ms)
      then pure (
          if ltb count minutes_per_hour
          then unrecovered hour_open_time_ms partially_recoverable count
          else unrecovered hour_open_time_ms unresolved count)
      else do
        (native, skipped) ← cross_check deadline hour_open_time_ms max_retries
        pure (judge now_ms hour_open_time_ms c cs native skipped)

  -- `{c.open_time_ms: c for c in fetched}`, and its candles of one hour in order.
  abbrev pub minutes_of_hour : List (Candle D) → ℕ → List (Candle D)
  minutes_of_hour fetched hour = sort_by_open_time (
      keep (λ c. leb hour c.open_time_ms && ltb c.open_time_ms (hour + one_hour_ms))
        (put_candles fetched []))

  abbrev pub not_reached : Option StopReason → ℕ → ℕ → Bool
  not_reached none reached_up_to_ms hour = false
  not_reached (some reason) reached_up_to_ms hour = leb reached_up_to_ms hour

  -- `for hour in fetchable_hours`
  unfoldable pub classify_hours :
      ℕ
      → F
      → ℕ
      → List (Candle D)
      → ℕ
      → Option StopReason
      → List ℕ
      → Run (List (MissingHourOutcome D))
  classify_hours now_ms deadline max_retries fetched reached_up_to_ms stopped [] = pure []
  classify_hours now_ms deadline max_retries fetched reached_up_to_ms stopped (hour ∷ hours) = do
    outcome ←
        if not_reached stopped reached_up_to_ms hour
        then pure (unrecovered hour unresolved 0)
        else classify_hour now_ms deadline max_retries hour (minutes_of_hour fetched hour)
    rest ← classify_hours now_ms deadline max_retries fetched reached_up_to_ms stopped hours
    pure (outcome ∷ rest)

  abbrev pub last_hour : ℕ → List ℕ → ℕ
  last_hour hour [] = hour
  last_hour hour (next ∷ hours) = last_hour next hours

  -- `if fetchable_hours`; the loop has fuel for every millisecond of the range, and one round more.
  unfoldable pub fetch_hours : ℕ → F → List ℕ → Run (List (Candle D) × ℕ × Option StopReason)
  fetch_hours max_retries deadline [] = pure ([], 0, none)
  fetch_hours max_retries deadline (hour ∷ hours) =
      let end_ms = last_hour hour hours + one_hour_ms in
      fetch_1m_range (suc (end_ms - hour)) end_ms max_retries deadline hour []

  unfoldable pub analyze_one_gap : GapRecord → ℕ → F → ℕ → Run (GapForensicResult D)
  analyze_one_gap gap max_retries max_seconds_per_gap now_ms = do
    start ← read_clock
    let deadline = fl.plus start max_seconds_per_gap
    let all_missing_hours = missing_hours_for_gap gap
    let fetchable_hours = keep (λ h. ltb h research_cutoff_ms) all_missing_hours
    let cutoff_hours = keep (λ h. leb research_cutoff_ms h) all_missing_hours
    (fetched, reached_up_to_ms, stopped) ← fetch_hours max_retries deadline fetchable_hours
    outcomes ←
        classify_hours now_ms deadline max_retries fetched reached_up_to_ms stopped fetchable_hours
    pure (record {
      gap = gap;
      missing_hours = outcomes ++ map (λ h. unrecovered h unresolved 0) cutoff_hours;
    })
