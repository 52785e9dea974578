-- ===== src/Tests/MarketData.antt =====
-- The data layer and the research split at concrete series.
use mathlib.Core.Path.{subst}
use mathlib.Core.List.{flatten}
use binance_testnet_trading.Base.{
  All, All-keep, In, List, Perm, Result, [], ap, arith, keep, last?, leb, leb→le, length, none, ok,
  raise, refl, some, ℕ, ◌*◌, ◌++◌, ◌+◌, ◌-◌, ◌/◌, ◌<◌, ◌↔◌, ◌∷◌, ◌≡◌, ◌≤◌, ◌⊎◌,
}
use binance_testnet_trading.Base.Int.{negsuc, pos, ℤ, ◌+ℤ◌}
use binance_testnet_trading.Tests.Samples.{candle, gapped_candles, two_candles}
use binance_testnet_trading.Data.{Candle, interval_to_ms}
use binance_testnet_trading.Data.Validation.{validate_candle_sequence}
use binance_testnet_trading.Research.Cutoff.{
  assert_pre_cutoff, research_cutoff_ms, split_at_cutoff, split_at_cutoff_separates,
}
use binance_testnet_trading.Data.Ingestion.{KlineRequest, MarketDataClient, fetch_completed_candles}
use binance_testnet_trading.Research.Blocks.{Tiles, block_boundaries, block_boundaries_tile}
use binance_testnet_trading.Data.Gaps.{SegmentationResult, gap_between, partition_into_segments}
use binance_testnet_trading.Data.Ingestion.Completed.{fetch_completed_candles_returns}
use binance_testnet_trading.Data.Validation.Contiguity.{
  IsContiguous, validate_candle_sequence_accepts,
}
use binance_testnet_trading.Data.Gaps.Segments.{IsSplit, partition_into_segments_splits}
use binance_testnet_trading.Data.Gaps.Acceptance.{
  IsAscending, missing_intervals_count, partition-no_gaps_iff_validate,
  partition_into_segments_returns,
}
use binance_testnet_trading.Data.History.{
  HistoricalFetchResult, HistoryError, PageAnswer, assert_no_candle_at_or_after, confirm_gaps,
  dedup_by_open_time, fetch_page_with_retries, lift_data, out_of_fuel, page, request_error,
}
use binance_testnet_trading.Data.History.Recovery.{confirm_gaps_stays_below}
use binance_testnet_trading.Data.Boundary.{below_exclusive_end, exclusive_upper_bound_for_request}
use binance_testnet_trading.Data.History.Paging.{
  IsFetched, StartsPages, fetch_historical_range_ends, fetch_historical_range_returns,
}
use binance_testnet_trading.Data.History.Range.{
  confirm_deduped, fetch_historical_range, page_loop, reference_of,
}

one_minute : interval_to_ms "1m" ≡ ok 60_000
unfolding interval_to_ms
one_minute = refl

abbrev gapped_result : SegmentationResult ℤ
gapped_result = record {
  segments =
      (candle 0 (pos 10) ∷ candle 60_000 (pos 11) ∷ []) ∷ (candle 180_000 (pos 12) ∷ []) ∷ [];
  gaps =
      record {
        expected_open_time_ms = 120_000;
        previous_open_time_ms = 60_000;
        next_open_time_ms = 180_000;
        missing_intervals = pos 1;
      }
      ∷ [];
}

gapped_split : partition_into_segments gapped_candles "1m" ≡ ok gapped_result
unfolding partition_into_segments interval_to_ms
gapped_split = refl

validate_candle_sequence_accepts_example :
    (validate_candle_sequence two_candles "1m" ≡ ok two_candles)
    ↔ ((two_candles ≡ two_candles) × IsContiguous 60_000 two_candles)
validate_candle_sequence_accepts_example =
    validate_candle_sequence_accepts two_candles two_candles "1m" one_minute

partition_into_segments_splits_example :
    (flatten gapped_result.segments ≡ gapped_candles)
    × ((gap : ℕ) × (p : Candle ℤ) × (interval_to_ms "1m" ≡ ok gap)
        × (last? gapped_candles ≡ some p)
        × IsSplit gap gapped_result.segments gapped_result.gaps p)
partition_into_segments_splits_example =
    partition_into_segments_splits gapped_candles "1m" gapped_split

partition_into_segments_returns_example :
    ((res : SegmentationResult ℤ) × (partition_into_segments gapped_candles "1m" ≡ ok res))
    ↔ IsAscending gapped_candles
partition_into_segments_returns_example =
    partition_into_segments_returns gapped_candles "1m" one_minute

partition-no_gaps_iff_validate_example :
    (gapped_result.gaps ≡ []) ↔ (validate_candle_sequence gapped_candles "1m" ≡ ok gapped_candles)
partition-no_gaps_iff_validate_example =
    partition-no_gaps_iff_validate gapped_candles "1m" gapped_split

intervals_of_one_gap :
    let g = gap_between 60_000 (candle 60_000 (pos 11)) (candle 200_000 (pos 12)) in
    ((n rest : ℕ) × (g.missing_intervals ≡ pos n)
      × (200_000 ≡ g.expected_open_time_ms + n * 60_000 + rest)
      × (rest < 60_000))
    ⊎ ((g.missing_intervals ≡ negsuc 0) × (200_000 < g.expected_open_time_ms))
intervals_of_one_gap =
    missing_intervals_count 60_000 (candle 60_000 (pos 11)) (candle 200_000 (pos 12)) (omega arith)
      (omega arith)

-- An exchange that answers every request with the two candles, the last one not closed yet.
abbrev pub market : MarketDataClient ℤ
market = record { get_server_time_ms = ok 100_000; get_klines = λ request. ok two_candles }

closed_only :
    fetch_completed_candles market "BTCUSDT" "1m" none none 10 (some 100_000)
    ≡ ok (candle 0 (pos 10) ∷ [])
unfolding fetch_completed_candles
closed_only = refl

late_candle_left_out :
    let c = candle 60_000 (pos 11) in
    In c (candle 0 (pos 10) ∷ []) ↔ (
      In c two_candles
      × (c.close_time_ms < 100_000)
      × ((e : ℕ) → none ≡ some e → c.open_time_ms < e))
late_candle_left_out =
    fetch_completed_candles_returns market "BTCUSDT" "1m" none none 10 100_000 refl closed_only
      (candle 60_000 (pos 11))

abbrev around_cutoff : List (Candle ℤ)
around_cutoff = candle 1_747_353_540_000 (pos 10) ∷ candle 1_747_353_600_000 (pos 11) ∷ []

split_at_cutoff_separates_example :
    let (pre, consumed) = split_at_cutoff around_cutoff in
    (assert_pre_cutoff pre ≡ ok tt)
    × All (λ c. research_cutoff_ms ≤ c.open_time_ms) consumed
    × Perm (pre ++ consumed) around_cutoff
split_at_cutoff_separates_example = split_at_cutoff_separates around_cutoff

abbrev three_blocks : List (ℕ × ℕ)
three_blocks = (2, 6) ∷ (6, 9) ∷ (9, 12) ∷ []

cut_in_three : block_boundaries 2 12 3 ≡ some three_blocks
unfolding block_boundaries
cut_in_three = refl

block_boundaries_tile_example : (length three_blocks ≡ 3) × Tiles ((12 - 2) / 3) 2 12 three_blocks
block_boundaries_tile_example = block_boundaries_tile 2 12 3 (omega arith) cut_in_three

-- An exchange that has nothing more to say about the hole.
abbrev silent : List KlineRequest → KlineRequest → PageAnswer ℤ
silent sent request = page []

abbrev hole_request : KlineRequest
hole_request = record {
  symbol = "BTCUSDT";
  interval = "1m";
  start_time_ms = some 120_000;
  end_time_ms = some (pos 179_999);
  limit = 3;
}

abbrev confirmed : HistoricalFetchResult ℤ
confirmed = record { candles = gapped_candles; confirmed_gaps = gapped_result.gaps }

hole_is_confirmed :
    confirm_gaps silent "BTCUSDT" "1m" 2 (some 240_000) gapped_candles []
    ≡ (ok confirmed, hole_request ∷ hole_request ∷ [])
unfolding confirm_gaps partition_into_segments interval_to_ms ◌+ℤ◌ below_exclusive_end
    exclusive_upper_bound_for_request
hole_is_confirmed = refl

confirm_gaps_stays_below_example :
    (assert_no_candle_at_or_after gapped_candles 240_000 ≡ ok tt)
    × ((segmentation : SegmentationResult ℤ) × (partition_into_segments gapped_candles "1m"
          ≡ ok segmentation)
        × (gapped_result.gaps ≡ segmentation.gaps))
confirm_gaps_stays_below_example =
    confirm_gaps_stays_below silent "BTCUSDT" "1m" 240_000 2 gapped_candles []
      (omega arith, (omega arith, (omega arith, tt))) hole_is_confirmed

-- A server that answers with the candles from the asked time on, in full pages of 2.
abbrev server : List KlineRequest → KlineRequest → PageAnswer ℤ
server sent request = elim request.start_time_ms [
  | none ↦ page []
  | some start ↦ page (keep (λ (c : Candle ℤ). leb start c.open_time_ms) two_candles)
]

server_answer : PageAnswer ℤ → List (Candle ℤ)
server_answer (page candles) = candles
server_answer request_error = []

server-StartsPages : StartsPages server
unfolding server_answer
server-StartsPages = record {
  starts = λ sent request start candles from paged.
      let same : keep (λ (c : Candle ℤ). leb start c.open_time_ms) two_candles ≡ candles =
        ap server_answer (rw from at paged) in
      subst (All (λ (c : Candle ℤ). start ≤ c.open_time_ms)) same (
        All-keep (λ (c : Candle ℤ). leb start c.open_time_ms)
          (λ (c : Candle ℤ). start ≤ c.open_time_ms) (λ c h. leb→le start c.open_time_ms h)
          two_candles);
}

abbrev fetched : Result HistoryError (HistoricalFetchResult ℤ) × List KlineRequest
fetched = fetch_historical_range server (ok 200_000) "BTCUSDT" "1m" 0 240_000 2 2 none []

fetch_historical_range_ends_example : ¬ (fetched.0 ≡ raise out_of_fuel)
fetch_historical_range_ends_example =
    fetch_historical_range_ends server (ok 200_000) "BTCUSDT" "1m" server-StartsPages 240_000 0 2 2
      none []

abbrev both_candles : HistoricalFetchResult ℤ
both_candles = record { candles = two_candles; confirmed_gaps = [] }

two_fetched :
    fetch_historical_range server (ok 200_000) "BTCUSDT" "1m" 0 240_000 2 2 none []
    ≡ (ok both_candles, fetched.1)
unfolding fetch_historical_range page_loop reference_of confirm_deduped lift_data interval_to_ms
    fetch_page_with_retries below_exclusive_end exclusive_upper_bound_for_request dedup_by_open_time
    confirm_gaps assert_no_candle_at_or_after partition_into_segments
two_fetched = refl

fetch_historical_range_returns_example :
    IsFetched server (ok 200_000) "BTCUSDT" "1m" server-StartsPages 240_000 both_candles
fetch_historical_range_returns_example =
    fetch_historical_range_returns server (ok 200_000) "BTCUSDT" "1m" server-StartsPages 240_000 0 2
      2 none [] two_fetched
