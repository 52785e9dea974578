-- ===== src/Data/History/Recovery.antt =====
-- What gap recovery returns.
use mathlib.Core.Path.{subst}
use binance_testnet_trading.Base.{
  All, All-append, All-keep, List, Result, Result-cases, String, [], ap, arith, inl, inr, keep, leb,
  ltb, ltb→lt, ok, raise, refl, some, suc, sym, zero, ℕ, ◌++◌, ◌<◌, ◌∷◌, ◌≡◌, ◌⊎◌,
}
use binance_testnet_trading.Base.Exec.{continue}
use binance_testnet_trading.Data.{Candle}
use binance_testnet_trading.Data.History.{
  Fetch, HistoricalFetchResult, HistoryError, PageAnswer, assert_no_candle_at_or_after,
  attempt_narrow_recovery, confirm, confirm_gaps, dedup_by_open_time, found_in, lift_data,
  narrow_request, out_of_fuel, page, recover_gaps, request_error,
}
use binance_testnet_trading.Data.Ingestion.{KlineRequest}
use binance_testnet_trading.Data.History.Dictionary.{dedup_by_open_time-All}
use binance_testnet_trading.Data.Boundary.{below_exclusive_end}
use binance_testnet_trading.Data.Gaps.{GapRecord, SegmentationResult, partition_into_segments}

pub PageAnswer-cases :
    {D : Type 0} (answer : PageAnswer D)
    → ((candles : List (Candle D)) × (answer ≡ page candles)) ⊎ (answer ≡ request_error)
PageAnswer-cases (page candles) = inl (candles, refl)
PageAnswer-cases request_error = inr refl

pub List-cases :
    {A : Type 0} (xs : List A) → (xs ≡ []) ⊎ ((x : A) × (rest : List A) × (xs ≡ x ∷ rest))
List-cases [] = inl refl
List-cases (x ∷ rest) = inr (x, rest, refl)

abbrev pub value_or : {E A : Type 0} → A → Result E A → A
value_or a (ok b) = b
value_or a (raise e) = a

-- A value that the run returns satisfies `P`, and the run does not lack fuel.
pub record Yields {A : Type 0} (P : A → Type 0) (run : Result HistoryError A × List KlineRequest)
    : Type 0 where
  pub holds : (a : A) → run.0 ≡ ok a → P a
  pub ends : ¬ (run.0 ≡ raise out_of_fuel)

pub pure-Yields :
    {A : Type 0} (P : A → Type 0) (a : A) (sent : List KlineRequest) → P a → Yields P (ok a, sent)
pure-Yields P a sent p = record {
  holds = λ b h. subst P (ap (value_or a) h) p;
  ends = λ e. ground (arith, e);
}

pub continue-Yields :
    {A B : Type 0} (P : A → Type 0) (Q : B → Type 0)
    {run : Result HistoryError A × List KlineRequest} {k : A → Fetch B}
    → Yields P run
    → ((a : A) (sent : List KlineRequest) → P a → Yields Q (k a sent))
    → Yields Q (continue run.0 k run.1)
continue-Yields P Q {run = run} h next = elim (Result-cases run.0) [
  | inl (a, returned) ↦ rw returned (next a run.1 (h.holds a returned))
  | inr (x, raised) ↦
      let fueled = h.ends in
      rw raised (record {
        holds = λ b e. absurd (ground arith);
        ends = λ e. fueled (ground (arith, raised, e));
      })
]

module _ {D : Type 0} (end_time_ms : ℕ) where
  -- Every candle opens before the end.
  abbrev pub IsBelow : List (Candle D) → Type 0
  IsBelow = All (λ c. c.open_time_ms < end_time_ms)

  found_in-IsBelow :
      (gap : GapRecord) (candles : List (Candle D))
      → IsBelow (found_in gap (some end_time_ms) candles)
  unfolding found_in below_exclusive_end
  found_in-IsBelow gap candles =
      All-keep (λ c. ltb c.open_time_ms end_time_ms) (λ c. c.open_time_ms < end_time_ms)
        (λ c h. ltb→lt c.open_time_ms end_time_ms h) _

  pub dedup_by_open_time-IsBelow :
      (cs : List (Candle D)) → IsBelow cs → IsBelow (dedup_by_open_time cs)
  dedup_by_open_time-IsBelow cs h = dedup_by_open_time-All (λ c. c.open_time_ms < end_time_ms) cs h

  none_after :
      (cs : List (Candle D)) → IsBelow cs → keep (λ c. leb end_time_ms c.open_time_ms) cs ≡ []
  none_after [] h = refl
  none_after (c ∷ cs) h = let first = h.0 in ground (arith, none_after cs h.1)

  pub assert_no_candle_at_or_after_passes :
      (cs : List (Candle D)) → IsBelow cs → assert_no_candle_at_or_after cs end_time_ms ≡ ok tt
  unfolding assert_no_candle_at_or_after
  assert_no_candle_at_or_after_passes cs h = rw (assert_no_candle_at_or_after, none_after cs h) refl

module _ {D : Type 0} (get_klines : List KlineRequest → KlineRequest → PageAnswer D)
    (symbol interval : String) (end_time_ms : ℕ) where
  attempt_narrow_recovery-IsBelow :
      (gap : GapRecord) (left : ℕ) (last_result : List (Candle D)) (sent : List KlineRequest)
      → IsBelow end_time_ms last_result
      → Yields (IsBelow end_time_ms) (
          attempt_narrow_recovery get_klines symbol interval gap
            (some end_time_ms)
            left
            last_result
            sent)
  unfolding attempt_narrow_recovery
  attempt_narrow_recovery-IsBelow gap zero last_result sent h = pure-Yields _ last_result sent h
  attempt_narrow_recovery-IsBelow gap (suc left) last_result sent h =
      let request = narrow_request symbol interval gap in
      let again = attempt_narrow_recovery-IsBelow gap left in
      elim (PageAnswer-cases (get_klines sent request)) [
        | inl (candles, paged) ↦
            let below = found_in-IsBelow end_time_ms gap candles in
            elim (List-cases (found_in gap (some end_time_ms) candles)) [
              | inl nothing ↦ rw (paged, nothing) (again [] (request ∷ sent) tt)
              | inr (c, cs, some_found) ↦
                  rw (paged, some_found)
                    (pure-Yields _ (c ∷ cs) (request ∷ sent) (rw some_found at below))
            ]
        | inr failed ↦ rw failed (again last_result (request ∷ sent) h)
      ]

  recover_gaps-IsBelow :
      (max_retries : ℕ) (gaps : List GapRecord) (candles : List (Candle D))
      (sent : List KlineRequest)
      → IsBelow end_time_ms candles
      → Yields
          (IsBelow end_time_ms)
          (recover_gaps get_klines symbol interval max_retries (some end_time_ms) gaps candles sent)
  unfolding recover_gaps
  recover_gaps-IsBelow max_retries [] candles sent h = pure-Yields _ candles sent h
  recover_gaps-IsBelow max_retries (gap ∷ gaps) candles sent h =
      continue-Yields (IsBelow end_time_ms) (IsBelow end_time_ms)
        (attempt_narrow_recovery-IsBelow gap max_retries [] sent tt)
        (λ found after below.
          recover_gaps-IsBelow max_retries gaps (candles ++ found) after
            (All-append _ candles found h below))

  -- What a returned result is held to.
  abbrev pub IsConfirmed : HistoricalFetchResult D → Type 0
  IsConfirmed res =
      IsBelow end_time_ms res.candles
      × ((segmentation : SegmentationResult D) × (partition_into_segments res.candles interval
            ≡ ok segmentation)
          × (res.confirmed_gaps ≡ segmentation.gaps))

  segmented :
      (candles : List (Candle D)) (sent : List KlineRequest)
      → Yields
          (λ seg. partition_into_segments candles interval ≡ ok seg)
          (lift_data (partition_into_segments candles interval), sent)
  unfolding lift_data
  segmented candles sent = elim (Result-cases (partition_into_segments candles interval)) [
    | inl (seg, split) ↦ rw split (pure-Yields _ seg sent refl)
    | inr (x, refused) ↦
        rw refused (record { holds = λ b e. absurd (ground arith); ends = λ e. ground (arith, e) })
  ]

  confirm-IsConfirmed :
      (max_retries : ℕ) (candles : List (Candle D)) (segmentation : SegmentationResult D)
      (sent : List KlineRequest)
      → IsBelow end_time_ms candles
      → partition_into_segments candles interval ≡ ok segmentation
      → Yields IsConfirmed (
          confirm get_klines symbol interval max_retries
            (some end_time_ms)
            candles
            segmentation
            sent)
  unfolding confirm
  confirm-IsConfirmed max_retries candles segmentation sent h split =
      elim (List-cases segmentation.gaps) [
        | inl whole ↦ rw whole (
            pure-Yields IsConfirmed (record { candles = candles; confirmed_gaps = [] }) sent
              (h, (segmentation, split, sym whole)))
        | inr (gap, gaps, broken) ↦ rw broken (
            continue-Yields (IsBelow end_time_ms) IsConfirmed
              (recover_gaps-IsBelow max_retries (gap ∷ gaps) candles sent h)
              (λ recovered after below.
                let final_candles = dedup_by_open_time recovered in
                continue-Yields _ IsConfirmed (segmented final_candles after) (λ final last again.
                  pure-Yields IsConfirmed
                    (record { candles = final_candles; confirmed_gaps = final.gaps }) last
                    (
                      dedup_by_open_time-IsBelow end_time_ms recovered below,
                      (final, again, refl),
                    ))))
      ]

  pub confirm_gaps-IsConfirmed :
      (max_retries : ℕ) (candles : List (Candle D)) (sent : List KlineRequest)
      → IsBelow end_time_ms candles
      → Yields IsConfirmed
          (confirm_gaps get_klines symbol interval max_retries (some end_time_ms) candles sent)
  unfolding confirm_gaps
  confirm_gaps-IsConfirmed max_retries candles sent h =
      continue-Yields _ IsConfirmed (segmented candles sent)
        (λ seg after split. confirm-IsConfirmed max_retries candles seg after h split)

  -- For candles that all open before the end: what gap confirmation returns passes the final check of
  -- the end, whatever the exchange answered to the requests for the gaps; and the gaps it reports are
  -- those that splitting the returned candles finds.
  pub confirm_gaps_stays_below :
      (max_retries : ℕ) (candles : List (Candle D)) (sent : List KlineRequest)
      {res : HistoricalFetchResult D} {after : List KlineRequest}
      → IsBelow end_time_ms candles
      → confirm_gaps get_klines symbol interval max_retries (some end_time_ms) candles sent
        ≡ (ok res, after)
      → (assert_no_candle_at_or_after res.candles end_time_ms ≡ ok tt)
        × ((segmentation : SegmentationResult D) × (partition_into_segments res.candles interval
              ≡ ok segmentation)
            × (res.confirmed_gaps ≡ segmentation.gaps))
  confirm_gaps_stays_below max_retries candles sent {res = res} h e =
      let run = confirm_gaps-IsConfirmed max_retries candles sent h in
      let confirmed = run.holds res (ap (λ r. r.0) e) in
      (assert_no_candle_at_or_after_passes end_time_ms res.candles confirmed.0, confirmed.1)
