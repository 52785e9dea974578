-- ===== src/Data/History/Paging.antt =====
-- The end of the paging loop, and what a fetch returns.

use binance_testnet_trading.Base.{
  All, All-append, All-keep, Bool-cases, List, Option, Option-cases, Result, String, [], ap, arith,
  inl, inr, last?, length, ltb, ltb→lt, ok, raise, refl, some, suc, sym, zero, ℕ, ◌++◌, ◌+◌, ◌-◌,
  ◌<◌, ◌∷◌, ◌≡◌, ◌≤◌, ◌⊎◌,
}
use binance_testnet_trading.Data.{Candle, DataError, interval_to_ms, interval_to_ms_pos}
use binance_testnet_trading.Data.Ingestion.{KlineRequest}
use binance_testnet_trading.Data.Boundary.{below_exclusive_end, exclusive_upper_bound_for_request}
use binance_testnet_trading.Data.History.{
  HistoricalFetchResult, PageAnswer, fetch_page_with_retries, lift_data, out_of_fuel, page,
}
use binance_testnet_trading.Data.History.Dictionary.{All_kept}
use binance_testnet_trading.Data.History.Range.{
  confirm_deduped, fetch_historical_range, page_loop, reference_of,
}
use binance_testnet_trading.Data.History.Recovery.{
  IsBelow, PageAnswer-cases, Yields, assert_no_candle_at_or_after_passes, confirm_gaps-IsConfirmed,
  continue-Yields, dedup_by_open_time-IsBelow, pure-Yields,
}
use binance_testnet_trading.Data.Gaps.{SegmentationResult, partition_into_segments}

pub All_last :
    {A : Type 0} (P : A → Type 0) (xs : List A) {x : A} → All P xs → last? xs ≡ some x → P x
All_last P [] h e = absurd (ground arith)
All_last P (x ∷ []) {x = y} h e = let same : x ≡ y = ground arith in rw (sym same) h.0
All_last P (x ∷ z ∷ xs) h e = All_last P (z ∷ xs) h.1 e

-- Of a page that is asked for from a time on, every candle opens at that time or later: what the
-- exchange documents of `startTime`.
pub record StartsPages {D : Type 0} (get_klines : List KlineRequest → KlineRequest → PageAnswer D)
    : Type 0 where
  pub starts :
      (sent : List KlineRequest) (request : KlineRequest) (start : ℕ) (candles : List (Candle D))
      → request.start_time_ms ≡ some start
      → get_klines sent request ≡ page candles
      → All (λ c. start ≤ c.open_time_ms) candles

module _ {D : Type 0} (get_klines : List KlineRequest → KlineRequest → PageAnswer D)
    (get_server_time_ms : Result DataError ℕ) (symbol interval : String)
    (documented : StartsPages get_klines) (end_time_ms : ℕ) where
  abbrev pub IsBetween : ℕ → List (Candle D) → Type 0
  IsBetween start candles = All (λ c. start ≤ c.open_time_ms) candles × IsBelow end_time_ms candles

  fetch_page_with_retries-IsBetween :
      (start page_limit left : ℕ) (sent : List KlineRequest)
      → Yields (IsBetween start) (
          fetch_page_with_retries get_klines symbol interval start end_time_ms page_limit left sent)
  unfolding fetch_page_with_retries below_exclusive_end
  fetch_page_with_retries-IsBetween start page_limit zero sent = record {
    holds = λ a e. absurd (ground arith);
    ends = λ e. ground (arith, e);
  }
  fetch_page_with_retries-IsBetween start page_limit (suc left) sent =
      let request : KlineRequest = record {
        symbol = symbol;
        interval = interval;
        start_time_ms = some start;
        end_time_ms = some (exclusive_upper_bound_for_request end_time_ms);
        limit = page_limit;
      } in
      elim (PageAnswer-cases (get_klines sent request)) [
        | inl (candles, paged) ↦
            let from = documented.starts sent request start candles refl paged in
            rw paged (
              pure-Yields (IsBetween start) _ (request ∷ sent) (
                All_kept (λ c. ltb c.open_time_ms end_time_ms) (λ c. start ≤ c.open_time_ms) candles
                    from,
                All-keep (λ c. ltb c.open_time_ms end_time_ms) (λ c. c.open_time_ms < end_time_ms)
                    (λ c h. ltb→lt c.open_time_ms end_time_ms h) candles,
              ))
        | inr failed ↦
            rw failed (fetch_page_with_retries-IsBetween start page_limit left (request ∷ sent))
      ]

  page_loop-IsBelow :
      (fuel step_ms page_limit max_retries cursor : ℕ) (all_candles : List (Candle D))
      (sent : List KlineRequest)
      → 0 < step_ms
      → end_time_ms - cursor < fuel
      → IsBelow end_time_ms all_candles
      → Yields (IsBelow end_time_ms) (
          page_loop get_klines get_server_time_ms symbol interval fuel step_ms end_time_ms
            page_limit max_retries cursor all_candles sent)
  unfolding page_loop
  page_loop-IsBelow zero step_ms page_limit max_retries cursor all_candles sent s m h =
      absurd (omega (arith, m))
  page_loop-IsBelow (suc fuel) step_ms page_limit max_retries cursor all_candles sent s m h =
      elim (Bool-cases (ltb cursor end_time_ms)) [
        | inr over ↦ rw (over, page_loop) (pure-Yields _ all_candles sent h)
        | inl inside ↦
            let left = ltb→lt cursor end_time_ms inside in
            rw (inside, page_loop)
              (continue-Yields (IsBetween cursor) (IsBelow end_time_ms)
                (fetch_page_with_retries-IsBetween cursor page_limit max_retries sent)
                (λ found after between.
                  let more = all_candles ++ found in
                  let grown = All-append _ all_candles found h between.1 in
                  elim (Option-cases (last? found)) [
                    | inl nothing ↦ rw nothing (pure-Yields _ all_candles after h)
                    | inr (last, ends) ↦ elim (Bool-cases (ltb (length found) page_limit)) [
                      | inl short ↦ rw (ends, short) (pure-Yields _ more after grown)
                      | inr full ↦
                          let at_least : cursor ≤ last.open_time_ms =
                            All_last (λ c. cursor ≤ c.open_time_ms) found between.0 ends in
                          rw (ends, full)
                            (page_loop-IsBelow fuel step_ms page_limit max_retries
                              (last.open_time_ms + step_ms) more after s
                              (omega (arith, at_least, s, m, left)) grown)
                    ]
                  ]))
      ]

  -- What a fetch returns.
  pub record IsFetched (result : HistoricalFetchResult D) : Type 0 where
    pub below : IsBelow end_time_ms result.candles
    pub confirmed :
        ((result.candles ≡ []) × (result.confirmed_gaps ≡ []))
        ⊎ ((segmentation : SegmentationResult D) × (partition_into_segments result.candles interval
              ≡ ok segmentation)
            × (result.confirmed_gaps ≡ segmentation.gaps))

  confirm_deduped-IsFetched :
      (max_retries : ℕ) (candles : List (Candle D)) (sent : List KlineRequest)
      → IsBelow end_time_ms candles
      → Yields IsFetched (
          confirm_deduped get_klines get_server_time_ms symbol interval end_time_ms max_retries
            candles sent)
  unfolding confirm_deduped
  confirm_deduped-IsFetched max_retries [] sent h =
      pure-Yields IsFetched _ sent (record { below = tt; confirmed = inl (refl, refl) })
  confirm_deduped-IsFetched max_retries (c ∷ cs) sent h =
      continue-Yields _ IsFetched
        (confirm_gaps-IsConfirmed get_klines symbol interval end_time_ms max_retries (c ∷ cs) sent
          h)
        (λ result after confirmed.
          rw (assert_no_candle_at_or_after_passes end_time_ms result.candles confirmed.0) (
            pure-Yields IsFetched result after
              (record { below = confirmed.0; confirmed = inr confirmed.1 })))

  looked_up :
      {A : Type 0} (r : Result DataError A) (sent : List KlineRequest)
      → Yields (λ a. r ≡ ok a) (lift_data r, sent)
  unfolding lift_data
  looked_up (ok a) sent = pure-Yields _ a sent refl
  looked_up (raise e) sent = record {
    holds = λ a h. absurd (ground (arith, h));
    ends = λ h. ground (arith, h);
  }

  fetch_historical_range-IsFetched :
      (start_time_ms max_retries page_limit : ℕ) (reference_time_ms : Option ℕ)
      (sent : List KlineRequest)
      → Yields IsFetched (
          fetch_historical_range get_klines get_server_time_ms symbol interval start_time_ms
            end_time_ms max_retries page_limit reference_time_ms sent)
  unfolding fetch_historical_range below_exclusive_end
  fetch_historical_range-IsFetched start_time_ms max_retries page_limit reference_time_ms sent =
      continue-Yields _ IsFetched
        (looked_up (reference_of get_klines get_server_time_ms symbol interval reference_time_ms)
          sent)
        (λ reference at_reference known.
          continue-Yields _ IsFetched (looked_up (interval_to_ms interval) at_reference)
            (λ step_ms at_step table.
              continue-Yields (IsBelow end_time_ms) IsFetched
                (page_loop-IsBelow (suc (end_time_ms - start_time_ms)) step_ms page_limit
                  max_retries start_time_ms [] at_step (interval_to_ms_pos interval table)
                  (omega arith) tt)
                (λ all_candles after below. confirm_deduped-IsFetched max_retries _ after (
                  dedup_by_open_time-IsBelow end_time_ms _
                    (All_kept _ _ _ (All_kept _ _ _ below))))))

  -- Where a page that is asked for from a time on holds no earlier candle, as the exchange documents:
  -- the paging loop of every fetch ends within one round for each millisecond of the range and one more,
  -- whatever the exchange answers, how many candles a page has, and how often a request fails.
  pub fetch_historical_range_ends :
      (start_time_ms max_retries page_limit : ℕ) (reference_time_ms : Option ℕ)
      (sent : List KlineRequest)
      → ¬ (
          (fetch_historical_range get_klines get_server_time_ms symbol interval start_time_ms
            end_time_ms max_retries page_limit reference_time_ms sent).0
          ≡ raise out_of_fuel)
  fetch_historical_range_ends start_time_ms max_retries page_limit reference_time_ms sent =
      (fetch_historical_range-IsFetched start_time_ms max_retries page_limit reference_time_ms
        sent).ends

  -- Under the same condition: every candle that a fetch returns opens before the end, and the gaps it
  -- reports are those that splitting the returned candles finds, or there are no candles and no gaps.
  pub fetch_historical_range_returns :
      (start_time_ms max_retries page_limit : ℕ) (reference_time_ms : Option ℕ)
      (sent : List KlineRequest) {result : HistoricalFetchResult D} {after : List KlineRequest}
      → fetch_historical_range get_klines get_server_time_ms symbol interval start_time_ms
          end_time_ms max_retries page_limit reference_time_ms sent
        ≡ (ok result, after)
      → IsFetched result
  fetch_historical_range_returns start_time_ms max_retries page_limit reference_time_ms sent
        {result = result} e =
      (fetch_historical_range-IsFetched start_time_ms max_retries page_limit reference_time_ms
          sent).holds
        result (ap (λ r. r.0) e)
