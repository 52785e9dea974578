-- ===== src/Data/History/Series.antt =====
-- The series of the candles that a fetch of data/historical_fetch.py returns.
use mathlib.Core.Path.{subst}
use binance_testnet_trading.Base.{
  All, All-append, Bool-cases, List, Option, Option-cases, Result, Result-cases, String, [], ap,
  arith, inl, inr, last?, length, ltb, none, ok, raise, some, suc, zero, ℕ, ◌++◌, ◌+◌, ◌-◌, ◌∷◌,
  ◌≡◌,
}
use binance_testnet_trading.Base.Exec.{continue}
use binance_testnet_trading.Data.{Candle, DataError, interval_to_ms}
use binance_testnet_trading.Data.History.{
  Fetch, HistoricalFetchResult, HistoryError, PageAnswer, assert_no_candle_at_or_after,
  attempt_narrow_recovery, confirm, confirm_gaps, dedup_by_open_time, fetch_page_with_retries,
  found_in, lift_data, narrow_request, page, recover_gaps,
}
use binance_testnet_trading.Data.Ingestion.{KlineRequest}
use binance_testnet_trading.Data.History.Dictionary.{All_kept, dedup_by_open_time-All}
use binance_testnet_trading.Data.Boundary.{below_exclusive_end, exclusive_upper_bound_for_request}
use binance_testnet_trading.Data.Gaps.{GapRecord, SegmentationResult, partition_into_segments}
use binance_testnet_trading.Data.History.Recovery.{List-cases, PageAnswer-cases, value_or}
use binance_testnet_trading.Data.History.Range.{
  confirm_deduped, fetch_historical_range, page_loop, reference_of,
}

abbrev pub IsOf : String → String → {D : Type 0} → Candle D → Type 0
IsOf symbol interval c = (c.symbol ≡ symbol) × (c.interval ≡ interval)

-- Every candle of an answer carries the symbol and the interval that were asked for: the client's parser
-- takes both from the request.
pub record AnswersSeries {D : Type 0} (get_klines : List KlineRequest → KlineRequest → PageAnswer D)
    : Type 0 where
  pub answers :
      (sent : List KlineRequest) (request : KlineRequest) (candles : List (Candle D))
      → get_klines sent request ≡ page candles
      → All (IsOf request.symbol request.interval) candles

-- A value that a run returns satisfies `P`.
record Gives {A : Type 0} (P : A → Type 0) (run : Result HistoryError A × List KlineRequest)
    : Type 0 where
  gives : (a : A) → run.0 ≡ ok a → P a

pure-Gives :
    {A : Type 0} (P : A → Type 0) (a : A) (sent : List KlineRequest) → P a → Gives P (ok a, sent)
pure-Gives P a sent p = record { gives = λ b e. subst P (ap (value_or a) e) p }

raise-Gives :
    {A : Type 0} (P : A → Type 0) (x : HistoryError) (sent : List KlineRequest)
    → Gives P (raise x, sent)
raise-Gives P x sent = record { gives = λ a e. absurd (ground (arith, e)) }

continue-Gives :
    {A B : Type 0} (P : A → Type 0) (Q : B → Type 0)
    {run : Result HistoryError A × List KlineRequest} {k : A → Fetch B}
    → Gives P run
    → ((a : A) (after : List KlineRequest) → P a → Gives Q (k a after))
    → Gives Q (continue run.0 k run.1)
continue-Gives P Q {run = run} {k = k} given next = elim (Result-cases run.0) [
  | inl (a, returned) ↦ rw returned (next a run.1 (given.gives a returned))
  | inr (x, raised) ↦ rw raised (raise-Gives Q x run.1)
]

-- What is only looked up.
any_value :
    {A : Type 0} (r : Result HistoryError A) (sent : List KlineRequest)
    → Gives (λ a. Unit {0}) (r, sent)
any_value r sent = record { gives = λ a e. tt }

module _ {D : Type 0} (get_klines : List KlineRequest → KlineRequest → PageAnswer D)
    (symbol interval : String) (documented : AnswersSeries get_klines) where
  abbrev IsSeries : List (Candle D) → Type 0
  IsSeries = All (IsOf symbol interval)

  bounded-Series :
      (candles : List (Candle D)) (end_time_ms : Option ℕ)
      → IsSeries candles
      → IsSeries (below_exclusive_end candles end_time_ms)
  unfolding below_exclusive_end
  bounded-Series candles none h = h
  bounded-Series candles (some end_time_ms) h = All_kept _ _ candles h

  found_in-Series :
      (gap : GapRecord) (end_time_ms : Option ℕ) (candles : List (Candle D))
      → IsSeries candles
      → IsSeries (found_in gap end_time_ms candles)
  unfolding found_in
  found_in-Series gap end_time_ms candles h = bounded-Series _ end_time_ms (All_kept _ _ candles h)

  attempt_narrow_recovery-Gives :
      (gap : GapRecord) (end_time_ms : Option ℕ) (left : ℕ) (last_result : List (Candle D))
      (sent : List KlineRequest)
      → IsSeries last_result
      → Gives IsSeries
          (attempt_narrow_recovery get_klines symbol interval gap end_time_ms left last_result sent)
  unfolding attempt_narrow_recovery narrow_request
  attempt_narrow_recovery-Gives gap end_time_ms zero last_result sent h =
      pure-Gives IsSeries last_result sent h
  attempt_narrow_recovery-Gives gap end_time_ms (suc left) last_result sent h =
      let request = narrow_request symbol interval gap in
      let again = attempt_narrow_recovery-Gives gap end_time_ms left in
      elim (PageAnswer-cases (get_klines sent request)) [
        | inl (candles, paged) ↦
            let of_series =
              found_in-Series gap end_time_ms candles
                (documented.answers sent request candles paged) in
            elim (List-cases (found_in gap end_time_ms candles)) [
              | inl nothing ↦ rw (paged, nothing) (again [] (request ∷ sent) tt)
              | inr (c, cs, some_found) ↦
                  rw (paged, some_found)
                    (pure-Gives IsSeries (c ∷ cs) (request ∷ sent) (rw some_found at of_series))
            ]
        | inr failed ↦ rw failed (again last_result (request ∷ sent) h)
      ]

  recover_gaps-Gives :
      (max_retries : ℕ) (end_time_ms : Option ℕ) (gaps : List GapRecord) (candles : List (Candle D))
      (sent : List KlineRequest)
      → IsSeries candles
      → Gives IsSeries
          (recover_gaps get_klines symbol interval max_retries end_time_ms gaps candles sent)
  unfolding recover_gaps
  recover_gaps-Gives max_retries end_time_ms [] candles sent h = pure-Gives IsSeries candles sent h
  recover_gaps-Gives max_retries end_time_ms (gap ∷ gaps) candles sent h =
      continue-Gives IsSeries IsSeries
        (attempt_narrow_recovery-Gives gap end_time_ms max_retries [] sent tt)
        (λ found after of_series.
          recover_gaps-Gives max_retries end_time_ms gaps (candles ++ found) after
            (All-append _ candles found h of_series))

  abbrev OfSeries : HistoricalFetchResult D → Type 0
  OfSeries result = IsSeries result.candles

  confirm-Gives :
      (max_retries : ℕ) (end_time_ms : Option ℕ) (candles : List (Candle D))
      (segmentation : SegmentationResult D) (sent : List KlineRequest)
      → IsSeries candles
      → Gives OfSeries
          (confirm get_klines symbol interval max_retries end_time_ms candles segmentation sent)
  unfolding confirm
  confirm-Gives max_retries end_time_ms candles segmentation sent h =
      elim (List-cases segmentation.gaps) [
        | inl whole ↦
            rw whole
              (pure-Gives OfSeries (record { candles = candles; confirmed_gaps = [] }) sent h)
        | inr (gap, gaps, broken) ↦ rw broken (
            continue-Gives IsSeries OfSeries
              (recover_gaps-Gives max_retries end_time_ms (gap ∷ gaps) candles sent h)
              (λ recovered after of_series.
                let final_candles = dedup_by_open_time recovered in
                continue-Gives (λ a. Unit {0}) OfSeries
                  (any_value (lift_data (partition_into_segments final_candles interval)) after)
                  (λ final last found.
                    pure-Gives OfSeries
                      (record { candles = final_candles; confirmed_gaps = final.gaps }) last
                      (dedup_by_open_time-All (IsOf symbol interval) recovered of_series))))
      ]

  confirm_gaps-Gives :
      (max_retries : ℕ) (end_time_ms : Option ℕ) (candles : List (Candle D))
      (sent : List KlineRequest)
      → IsSeries candles
      → Gives OfSeries
          (confirm_gaps get_klines symbol interval max_retries end_time_ms candles sent)
  unfolding confirm_gaps
  confirm_gaps-Gives max_retries end_time_ms candles sent h =
      continue-Gives (λ a. Unit {0}) OfSeries
        (any_value (lift_data (partition_into_segments candles interval)) sent)
        (λ seg after split. confirm-Gives max_retries end_time_ms candles seg after h)

  fetch_page_with_retries-Gives :
      (start end_time_ms page_limit left : ℕ) (sent : List KlineRequest)
      → Gives IsSeries (
          fetch_page_with_retries get_klines symbol interval start end_time_ms page_limit left sent)
  unfolding fetch_page_with_retries
  fetch_page_with_retries-Gives start end_time_ms page_limit zero sent = raise-Gives IsSeries _ sent
  fetch_page_with_retries-Gives start end_time_ms page_limit (suc left) sent =
      let request : KlineRequest = record {
        symbol = symbol;
        interval = interval;
        start_time_ms = some start;
        end_time_ms = some (exclusive_upper_bound_for_request end_time_ms);
        limit = page_limit;
      } in
      elim (PageAnswer-cases (get_klines sent request)) [
        | inl (candles, paged) ↦ rw paged (
            pure-Gives IsSeries _ (request ∷ sent) (
              bounded-Series candles (some end_time_ms)
                (documented.answers sent request candles paged)))
        | inr failed ↦
            rw failed
              (fetch_page_with_retries-Gives start end_time_ms page_limit left (request ∷ sent))
      ]

  page_loop-Gives :
      (get_server_time_ms : Result DataError ℕ)
      (fuel step_ms end_time_ms page_limit max_retries cursor : ℕ) (all_candles : List (Candle D))
      (sent : List KlineRequest)
      → IsSeries all_candles
      → Gives IsSeries (
          page_loop get_klines get_server_time_ms symbol interval fuel step_ms end_time_ms
            page_limit max_retries cursor all_candles sent)
  unfolding page_loop
  page_loop-Gives get_server_time_ms zero step_ms end_time_ms page_limit max_retries cursor
        all_candles sent h =
      raise-Gives IsSeries _ sent
  page_loop-Gives get_server_time_ms (suc fuel) step_ms end_time_ms page_limit max_retries cursor
        all_candles sent h =
      elim (Bool-cases (ltb cursor end_time_ms)) [
        | inr over ↦ rw (over, page_loop) (pure-Gives IsSeries all_candles sent h)
        | inl inside ↦
            rw (inside, page_loop)
              (continue-Gives IsSeries IsSeries
                (fetch_page_with_retries-Gives cursor end_time_ms page_limit max_retries sent)
                (λ found after of_series.
                  let more = all_candles ++ found in
                  let grown = All-append _ all_candles found h of_series in
                  elim (Option-cases (last? found)) [
                    | inl nothing ↦ rw nothing (pure-Gives IsSeries all_candles after h)
                    | inr (last, ends) ↦ elim (Bool-cases (ltb (length found) page_limit)) [
                      | inl short ↦ rw (ends, short) (pure-Gives IsSeries more after grown)
                      | inr full ↦
                          rw (ends, full)
                            (page_loop-Gives get_server_time_ms fuel step_ms end_time_ms page_limit
                              max_retries (last.open_time_ms + step_ms) more after grown)
                    ]
                  ]))
      ]

  confirm_deduped-Gives :
      (get_server_time_ms : Result DataError ℕ) (end_time_ms max_retries : ℕ)
      (candles : List (Candle D)) (sent : List KlineRequest)
      → IsSeries candles
      → Gives OfSeries (
          confirm_deduped get_klines get_server_time_ms symbol interval end_time_ms max_retries
            candles sent)
  unfolding confirm_deduped
  confirm_deduped-Gives get_server_time_ms end_time_ms max_retries [] sent h =
      pure-Gives OfSeries _ sent tt
  confirm_deduped-Gives get_server_time_ms end_time_ms max_retries (c ∷ cs) sent h =
      continue-Gives OfSeries OfSeries
        (confirm_gaps-Gives max_retries (some end_time_ms) (c ∷ cs) sent h)
        (λ result after of_series.
          continue-Gives (λ a. Unit {0}) OfSeries
            (any_value (assert_no_candle_at_or_after result.candles end_time_ms) after)
            (λ checked last passed. pure-Gives OfSeries result last of_series))

  -- Every candle that a fetch returns is of the series that was asked for.
  pub fetch_historical_range-OfSeries :
      (get_server_time_ms : Result DataError ℕ)
      (start_time_ms end_time_ms max_retries page_limit : ℕ) (reference_time_ms : Option ℕ)
      (sent : List KlineRequest) (answer : HistoricalFetchResult D)
      → (fetch_historical_range get_klines get_server_time_ms symbol interval start_time_ms
          end_time_ms max_retries page_limit reference_time_ms sent).0
        ≡ ok answer
      → All (IsOf symbol interval) answer.candles
  unfolding fetch_historical_range
  fetch_historical_range-OfSeries get_server_time_ms start_time_ms end_time_ms max_retries
        page_limit reference_time_ms sent =
      Gives.gives (
        continue-Gives (λ a. Unit {0}) OfSeries
          (any_value
            (lift_data
              (reference_of get_klines get_server_time_ms symbol interval reference_time_ms))
            sent)
          (λ reference at_reference known.
            continue-Gives (λ a. Unit {0}) OfSeries
              (any_value (lift_data (interval_to_ms interval)) at_reference)
              (λ step_ms at_step table.
                continue-Gives IsSeries OfSeries
                  (page_loop-Gives get_server_time_ms (suc (end_time_ms - start_time_ms)) step_ms
                    end_time_ms page_limit max_retries start_time_ms [] at_step tt)
                  (λ all_candles after of_series.
                    confirm_deduped-Gives get_server_time_ms end_time_ms max_retries _ after (
                      dedup_by_open_time-All (IsOf symbol interval) _ (
                        All_kept _ _ _
                          (bounded-Series all_candles (some end_time_ms) of_series)))))))
