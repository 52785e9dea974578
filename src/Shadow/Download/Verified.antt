-- ===== src/Shadow/Download/Verified.antt =====
-- What a download of the warm-up leaves behind.
use binance_testnet_trading.Data.History.Series.{
  AnswersSeries, IsOf, fetch_historical_range-OfSeries,
}
use binance_testnet_trading.Base.{
  All, Bool, Bool-cases, List, Option, Result, Result-cases, String, [], arith, false, inl, inr,
  keep, length, map, none, ok, raise, refl, some, true, ℕ, ◌<◌, ◌==◌, ◌∷◌, ◌≡◌, ◌⊎◌,
}
use binance_testnet_trading.Data.{Candle, DataError, interval_to_ms, interval_to_ms_pos}
use binance_testnet_trading.Data.History.{HistoricalFetchResult, PageAnswer}
use binance_testnet_trading.Data.Gaps.Acceptance.{Ascends, partition_into_segments_returns}
use binance_testnet_trading.Data.Gaps.{GapRecord, SegmentationResult, partition_into_segments}
use binance_testnet_trading.Data.Ingestion.{KlineRequest}
use binance_testnet_trading.Shadow.Store.{
  CycleFault, ShadowBootstrapState, WarmupCandle, after_warmup_candles, before_commit,
  injected_test_fault, is_fault, record_bootstrap_atomically,
}
use binance_testnet_trading.Shadow.Bootstrap.{
  bootstrap_verified, covers_range, verify_bootstrap_complete,
}
use binance_testnet_trading.Shadow.Boundary.{assert_valid_shadow_config, shadow_start_boundary_ms}
use binance_testnet_trading.Shadow.Download.{
  BootstrapError, BootstrapResult, Stores, accept_warmup, already_bootstrapped, bootstrap_ok,
  bootstrap_unless_recorded, bootstrapped, fetched_warmup, gap_in_warmup_data,
  insufficient_history_available, planned_state, record_failed, run_shadow_bootstrap, store_warmup,
  warmup_row,
}
use binance_testnet_trading.Shadow.Download.Range.{in_range, stored_range}

gaps-cases :
    (gs : List GapRecord)
    → (gs ≡ []) ⊎ ((g : GapRecord) × (rest : List GapRecord) × (gs ≡ g ∷ rest))
gaps-cases [] = inl refl
gaps-cases (g ∷ rest) = inr (g, rest, refl)

abbrev pub is_bootstrapped : Result BootstrapError BootstrapResult → Bool
is_bootstrapped (raise e) = false
is_bootstrapped (ok result) = elim result.status [
  | bootstrap_ok ↦ true
  | already_bootstrapped ↦ false
  | gap_in_warmup_data ↦ false
  | insufficient_history_available ↦ false
]

module _ {D F : Type 0} (symbol interval : String) (stores : Stores D F) where
  -- Nothing changed; or the second transaction failed, after the candles were stored; or the warm-up is
  -- there, ends before the boundary, and verifies.
  abbrev pub IsSettled : Result BootstrapError BootstrapResult × Stores D F → Type 0
  IsSettled (outcome, after) =
      ((is_bootstrapped outcome ≡ false) × (after ≡ stores))
      ⊎ ((outcome ≡ raise (record_failed injected_test_fault)) × (after.1 ≡ stores.1))
      ⊎ ((state : ShadowBootstrapState) × (outcome ≡ ok (bootstrapped bootstrap_ok state))
          × (state.warmup_last_open_time_ms < shadow_start_boundary_ms)
          × (after.1.bootstrap_state ≡ some state)
          × (verify_bootstrap_complete symbol interval after.0 after.1
              ≡ ok (bootstrap_verified state)))

  record_bootstrap-cases :
      (fault : Option CycleFault) (rows : List WarmupCandle) (state : ShadowBootstrapState)
      → stores.1.bootstrap_state ≡ none
      → let run = record_bootstrap_atomically fault rows state stores.1 in
        (run ≡ (raise injected_test_fault, stores.1))
        ⊎ ((run.0 ≡ ok tt) × (run.1.bootstrap_state ≡ some state))
  unfolding record_bootstrap_atomically
  record_bootstrap-cases fault rows state absent =
      elim (Bool-cases (is_fault fault after_warmup_candles)) [
        | inl a ↦ rw (a, record_bootstrap_atomically) (inl refl)
        | inr a ↦ elim (Bool-cases (is_fault fault before_commit)) [
          | inl b ↦ rw (a, b, record_bootstrap_atomically) (inl refl)
          | inr b ↦ rw (a, b, record_bootstrap_atomically) (inr (refl, rw absent refl))
        ]
      ]

  abbrev pub range_of : ShadowBootstrapState → List (Candle D) → List (Candle D)
  range_of state =
      keep (in_range symbol interval state.warmup_start_time_ms state.warmup_last_open_time_ms)

  store_warmup-IsSettled :
      (fault : Option CycleFault) (state : ShadowBootstrapState) (c : Candle D)
      (cs : List (Candle D)) (parts : SegmentationResult D)
      → stores.1.bootstrap_state ≡ none
      → state.warmup_last_open_time_ms < shadow_start_boundary_ms
      → Ascends c cs
      → partition_into_segments (c ∷ cs) interval ≡ ok parts
      → parts.gaps ≡ []
      → (length (c ∷ cs) == state.warmup_candle_count) ≡ true
      → covers_range state (c ∷ cs) ≡ true
      → All (IsOf symbol interval) (c ∷ cs)
      → range_of state stores.0.candles ≡ []
      → IsSettled (store_warmup fault state (c ∷ cs) stores)
  unfolding store_warmup verify_bootstrap_complete
  store_warmup-IsSettled fault state c cs parts absent early ascends split joined counted covers
        of_series empty =
      elim (record_bootstrap-cases fault (map (warmup_row state) (c ∷ cs)) state absent) [
        | inl failed ↦ rw (failed, store_warmup) (inr (inl (refl, refl)))
        | inr (done, kept) ↦
            let given_back =
              stored_range symbol interval state c cs stores.0 ascends covers of_series empty in
            inr (
              inr (
                state,
                rw (done, store_warmup) refl,
                early,
                kept,
                rw (kept, given_back, counted, covers, split, joined, verify_bootstrap_complete)
                    refl,
              ))
      ]

  accept_warmup-IsSettled :
      (fault : Option CycleFault) (state : ShadowBootstrapState) (candles : List (Candle D))
      {step_ms : ℕ}
      → interval_to_ms interval ≡ ok step_ms
      → stores.1.bootstrap_state ≡ none
      → state.warmup_last_open_time_ms < shadow_start_boundary_ms
      → All (IsOf symbol interval) candles
      → range_of state stores.0.candles ≡ []
      → IsSettled (accept_warmup interval fault state candles stores)
  unfolding accept_warmup
  accept_warmup-IsSettled fault state [] known absent early of_series empty = inl (refl, refl)
  accept_warmup-IsSettled fault state (c ∷ cs) known absent early of_series empty =
      elim (Result-cases (partition_into_segments (c ∷ cs) interval)) [
        | inr (e, failed) ↦ rw (failed, accept_warmup) (inl (refl, refl))
        | inl (parts, split) ↦
            let ascends =
              (partition_into_segments_returns (c ∷ cs) interval known).0 (parts, split) in
            elim (gaps-cases parts.gaps) [
              | inr (gap, gaps, found) ↦ rw (split, found, accept_warmup) (inl (refl, refl))
              | inl joined ↦ elim (Bool-cases (length (c ∷ cs) == state.warmup_candle_count)) [
                | inr short ↦ rw (split, joined, short, accept_warmup) (inl (refl, refl))
                | inl counted ↦ elim (Bool-cases (covers_range state (c ∷ cs))) [
                  | inr other ↦ rw (split, joined, counted, other, accept_warmup) (inl (refl, refl))
                  | inl covers ↦
                      rw (split, joined, counted, covers, accept_warmup)
                        (store_warmup-IsSettled fault state c cs parts absent early ascends split
                          joined counted covers of_series empty)
                ]
              ]
            ]
      ]

module _ {D F : Type 0} (get_klines : List KlineRequest → KlineRequest → PageAnswer D)
    (get_server_time_ms : Result DataError ℕ) (mode : Option String)
    (symbol interval source : String) (strategy_min_required_candles now_ms : ℕ) where
  bootstrap_unless_recorded-IsSettled :
      (fault : Option CycleFault) (stores : Stores D F) (existing : Option ShadowBootstrapState)
      {step_ms : ℕ}
      → let state = planned_state source strategy_min_required_candles now_ms step_ms in
        interval_to_ms interval ≡ ok step_ms
        → ((answer : HistoricalFetchResult D)
            → fetched_warmup get_klines get_server_time_ms symbol interval state ≡ ok answer
            → All (IsOf symbol interval) answer.candles)
        → range_of symbol interval stores state stores.0.candles ≡ []
        → stores.1.bootstrap_state ≡ existing
        → IsSettled symbol interval stores (
            bootstrap_unless_recorded get_klines get_server_time_ms mode symbol interval source
              strategy_min_required_candles now_ms fault step_ms existing stores)
  unfolding bootstrap_unless_recorded
  bootstrap_unless_recorded-IsSettled fault stores (some state) known of_series empty there =
      inl (refl, refl)
  bootstrap_unless_recorded-IsSettled fault stores none {step_ms = step_ms} known of_series empty
        absent =
      let state = planned_state source strategy_min_required_candles now_ms step_ms in
      let positive = interval_to_ms_pos interval known in
      elim (Result-cases (fetched_warmup get_klines get_server_time_ms symbol interval state)) [
        | inr (e, failed) ↦ rw (failed, bootstrap_unless_recorded) (inl (refl, refl))
        | inl (answer, came) ↦
            rw (came, bootstrap_unless_recorded)
              (accept_warmup-IsSettled symbol interval stores fault state answer.candles known
                absent (omega (arith, positive)) (of_series answer came) empty)
      ]

  -- Where the interval is a supported one, every candle of an answer carries the symbol and the interval
  -- that were asked for, and the store has no candle of that series in the range of the warm-up: a
  -- bootstrap leaves both stores as they were and does not report OK; or it raises because its last
  -- transaction failed, which leaves the tables of shadow mode as they were; or it reports OK, the
  -- warm-up ends before the boundary, its record is stored, and it verifies.
  pub run_shadow_bootstrap-IsSettled :
      (fault : Option CycleFault) (stores : Stores D F) {step_ms : ℕ}
      → AnswersSeries get_klines
      → interval_to_ms interval ≡ ok step_ms
      → range_of symbol interval stores
          (planned_state source strategy_min_required_candles now_ms step_ms)
          stores.0.candles
        ≡ []
      → IsSettled symbol interval stores (
          run_shadow_bootstrap get_klines get_server_time_ms mode symbol interval source
            strategy_min_required_candles now_ms fault stores)
  unfolding run_shadow_bootstrap
  run_shadow_bootstrap-IsSettled fault stores documented known empty =
      elim (Result-cases (assert_valid_shadow_config mode interval)) [
        | inr (e, failed) ↦ rw (failed, run_shadow_bootstrap) (inl (refl, refl))
        | inl (valid, passed) ↦
            rw (passed, known, run_shadow_bootstrap)
              (bootstrap_unless_recorded-IsSettled fault stores stores.1.bootstrap_state known
                (fetch_historical_range-OfSeries get_klines symbol interval documented
                  get_server_time_ms _ shadow_start_boundary_ms 5 1000
                  (some shadow_start_boundary_ms) [])
                empty refl)
      ]
