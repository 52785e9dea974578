-- ===== src/Data/History.antt =====
-- data/historical_fetch.py: pages with retries, and gaps that are asked for again before they are
-- taken to be real. The waits between attempts are left out. The exchange's answer to a request may
-- depend on all requests before.
pub mod Range
pub mod Dictionary
pub mod Recovery
pub mod Series
pub mod Paging
use binance_testnet_trading.Base.{
  List, Option, Result, String, [], if◌then◌else◌, keep, leb, ltb, ok, raise, some, suc, zero, ℕ,
  ◌&&◌, ◌++◌, ◌==◌, ◌∷◌,
}
use binance_testnet_trading.Base.Int.{pos, pos_part, ◌+ℤ◌}
use binance_testnet_trading.Base.Exec.{Exec, lift, pure, throw, ◌>>=◌, ◌>>◌}
use binance_testnet_trading.Data.{Candle, DataError}
use binance_testnet_trading.Data.Ingestion.{KlineRequest}
use binance_testnet_trading.Data.Boundary.{below_exclusive_end, exclusive_upper_bound_for_request}
use binance_testnet_trading.Data.Gaps.{GapRecord, SegmentationResult, partition_into_segments}

-- Candles, or any `RequestException`.
pub data PageAnswer (D : Type 0) : Type 0 where
  page : List (Candle D) → PageAnswer D
  request_error : PageAnswer D

-- HistoricalFetchError, and the exceptions of the data layer; `out_of_fuel` is the model's own, for a
-- paging loop that has not ended.
pub data HistoryError : Type 0 where
  historical_fetch_error out_of_fuel : HistoryError
  data_error : DataError → HistoryError

pub record HistoricalFetchResult (D : Type 0) : Type 0 where
  pub candles : List (Candle D)
  pub confirmed_gaps : List GapRecord

-- A method that sends requests; the state is the requests sent so far, latest first.
abbrev pub Fetch : Type 0 → Type 0
Fetch A = Exec (List KlineRequest) HistoryError A

unfoldable pub lift_data : {A : Type 0} → Result DataError A → Result HistoryError A
lift_data (ok a) = ok a
lift_data (raise e) = raise (data_error e)

module _ {D : Type 0} where
  unfoldable pub assert_no_candle_at_or_after : List (Candle D) → ℕ → Result HistoryError (Unit {0})
  assert_no_candle_at_or_after candles end_time_ms =
      elim (keep (λ c. leb end_time_ms c.open_time_ms) candles) [
        | [] ↦ ok tt
        | c ∷ cs ↦ raise historical_fetch_error
      ]

  -- `seen[candle.open_time_ms] = candle`: a later candle takes the place of an earlier one.
  pub put_candle : Candle D → List (Candle D) → List (Candle D)
  put_candle c [] = c ∷ []
  put_candle c (d ∷ ds) = if d.open_time_ms == c.open_time_ms then c ∷ ds else d ∷ put_candle c ds

  unfoldable pub put_candles : List (Candle D) → List (Candle D) → List (Candle D)
  unfolding put_candle
  put_candles [] seen = seen
  put_candles (c ∷ cs) seen = put_candles cs (put_candle c seen)

  pub insert_by_open_time : Candle D → List (Candle D) → List (Candle D)
  insert_by_open_time c [] = c ∷ []
  insert_by_open_time c (d ∷ ds) =
      if ltb d.open_time_ms c.open_time_ms then d ∷ insert_by_open_time c ds else c ∷ d ∷ ds

  unfoldable pub sort_by_open_time : List (Candle D) → List (Candle D)
  unfolding insert_by_open_time
  sort_by_open_time [] = []
  sort_by_open_time (c ∷ cs) = insert_by_open_time c (sort_by_open_time cs)

  unfoldable pub dedup_by_open_time : List (Candle D) → List (Candle D)
  unfolding put_candles sort_by_open_time
  dedup_by_open_time candles = sort_by_open_time (put_candles candles [])

  -- The candles of a page that lie in the hole, before the end.
  pub found_in : GapRecord → Option ℕ → List (Candle D) → List (Candle D)
  found_in gap end_time_ms candles =
      below_exclusive_end
        (keep
          (λ c.
            leb gap.expected_open_time_ms c.open_time_ms
            && ltb c.open_time_ms gap.next_open_time_ms)
          candles)
        end_time_ms

pub narrow_request : String → String → GapRecord → KlineRequest
narrow_request symbol interval gap = record {
  symbol = symbol;
  interval = interval;
  start_time_ms = some gap.expected_open_time_ms;
  end_time_ms = some (exclusive_upper_bound_for_request gap.next_open_time_ms);
  limit = pos_part (gap.missing_intervals +ℤ pos 2);
}

module _ {D : Type 0} (get_klines : List KlineRequest → KlineRequest → PageAnswer D)
    (symbol interval : String) where
  pub ask : KlineRequest → Fetch (PageAnswer D)
  ask request sent = (ok (get_klines sent request), request ∷ sent)

  -- `for attempt in range(max_retries)`, with the attempts left.
  unfoldable pub fetch_page_with_retries : ℕ → ℕ → ℕ → ℕ → Fetch (List (Candle D))
  unfolding ask
  fetch_page_with_retries start_time_ms end_time_ms page_limit zero = throw historical_fetch_error
  fetch_page_with_retries start_time_ms end_time_ms page_limit (suc left) = do
    let again = fetch_page_with_retries start_time_ms end_time_ms page_limit left
    answer ← ask (record {
      symbol = symbol;
      interval = interval;
      start_time_ms = some start_time_ms;
      end_time_ms = some (exclusive_upper_bound_for_request end_time_ms);
      limit = page_limit;
    })
    elim answer [
      | page candles ↦ pure (below_exclusive_end candles (some end_time_ms))
      | request_error ↦ again
    ]

  pub attempt_narrow_recovery : GapRecord → Option ℕ → ℕ → List (Candle D) → Fetch (List (Candle D))
  unfolding ask narrow_request found_in
  attempt_narrow_recovery gap end_time_ms zero last_result = pure last_result
  attempt_narrow_recovery gap end_time_ms (suc left) last_result = do
    answer ← ask (narrow_request symbol interval gap)
    elim answer [
      | page candles ↦ elim (found_in gap end_time_ms candles) [
        | [] ↦ attempt_narrow_recovery gap end_time_ms left []
        | c ∷ cs ↦ pure (c ∷ cs)
      ]
      | request_error ↦ attempt_narrow_recovery gap end_time_ms left last_result
    ]

  -- `for gap in segmentation.gaps`
  pub recover_gaps : ℕ → Option ℕ → List GapRecord → List (Candle D) → Fetch (List (Candle D))
  unfolding attempt_narrow_recovery
  recover_gaps max_retries end_time_ms [] candles = pure candles
  recover_gaps max_retries end_time_ms (gap ∷ gaps) candles = do
    found ← attempt_narrow_recovery gap end_time_ms max_retries []
    recover_gaps max_retries end_time_ms gaps (candles ++ found)

  pub confirm :
      ℕ → Option ℕ → List (Candle D) → SegmentationResult D → Fetch (HistoricalFetchResult D)
  unfolding recover_gaps dedup_by_open_time lift_data
  confirm max_retries end_time_ms candles segmentation = elim segmentation.gaps [
    | [] ↦ pure (record { candles = candles; confirmed_gaps = [] })
    | gap ∷ gaps ↦ do
      recovered ← recover_gaps max_retries end_time_ms (gap ∷ gaps) candles
      let final_candles = dedup_by_open_time recovered
      final ← lift (lift_data (partition_into_segments final_candles interval))
      pure (record { candles = final_candles; confirmed_gaps = final.gaps })
  ]

  -- No candles are an EmptyDataError of `partition_into_segments` as well.
  unfoldable pub confirm_gaps : ℕ → Option ℕ → List (Candle D) → Fetch (HistoricalFetchResult D)
  unfolding confirm
  confirm_gaps max_retries end_time_ms candles = do
    segmentation ← lift (lift_data (partition_into_segments candles interval))
    confirm max_retries end_time_ms candles segmentation
