-- ===== src/Shadow/Engine/Warmup.antt =====
-- The candles from before the boundary and the record of the warm-up, on which every later cycle
-- rests,
-- under each step of a cycle of shadow/engine.py.
use binance_testnet_trading.Base.{
  Bool, Bool-cases, List, Option, Option-cases, Result, Result-cases, String, ap, false,
  if◌then◌else◌, inl, inr, keep, last?, length, ltb, none, ok, raise, refl, some, true, ℕ, ◌<◌,
  ◌||◌, ◌∙◌, ◌≡◌,
}
use binance_testnet_trading.Base.Exec.{Exec, continue, ◌>>=◌}
use binance_testnet_trading.Data.{Candle}
use binance_testnet_trading.Numbers.{Decimals, Floats, PlanDecimals}
use binance_testnet_trading.Shadow.Engine.Cycle.{
  ShadowCycleResult, ShadowEnv, ShadowWorld, fetch_new_candles, fetch_start_ms, is_mark, is_today,
  latest_close_time_ms, maybe_send_daily_summary, process_latest, process_segment, required_for,
  run_shadow_cycle, run_shadow_cycle_locked, score, score_and_send, send, touch,
}
use binance_testnet_trading.Shadow.Boundary.{
  assert_valid_shadow_config, filter_from_boundary_passes, shadow_start_boundary_ms,
}
use binance_testnet_trading.Shadow.Store.{
  CycleStatus, ShadowBootstrapState, ShadowDb, ShadowJournalEntry, ShadowTradeRecord, cycle_ok,
  enqueue_notifications_atomically, get_run_state, insufficient_data, no_new_candles, touch_cycle,
}
use binance_testnet_trading.Backtest.Segment.{SignalGenerator}
use binance_testnet_trading.Backtest.Report.{OpenPositionInfo, SegmentRunResult, run_segment}
use binance_testnet_trading.Shadow.Sender.{SendResult}
use binance_testnet_trading.Shadow.Engine.{ShadowError, data_failed, new_rows, score_segment}
use binance_testnet_trading.Sizing.{SymbolFilters}
use binance_testnet_trading.Shadow.Store.Cycles.{record_cycle_atomically-IsDecided}
use binance_testnet_trading.Data.Ingestion.{fetch_completed_candles}
use binance_testnet_trading.Data.Gaps.{partition_into_segments}
use binance_testnet_trading.Shadow.Bootstrap.{
  bootstrap_broken, bootstrap_missing, bootstrap_verified, verify_bootstrap_complete,
}
use binance_testnet_trading.Backtest.Trades.{raised_as}
use binance_testnet_trading.Shadow.Engine.Early.{early_upserts, is_early, verify_same}

-- What verification reads of the stores, less the later candles.
abbrev pub Warmup : Type 0 → Type 0
Warmup D = List (Candle D) × Option ShadowBootstrapState

abbrev pub warmup_of : {D F : Type 0} → ShadowWorld D F → Warmup D
warmup_of w = (keep is_early w.candle_db.candles, w.shadow_db.bootstrap_state)

module _ {D F : Type 0} ⦃num : Decimals D⦄ ⦃plan_num : PlanDecimals D⦄ ⦃flo : Floats D F⦄
    (strategy : SignalGenerator D) (raw_min_required_candles : ℕ)
    (journal : List (Candle D) → List ShadowJournalEntry)
    (entry_text : SegmentRunResult D F → OpenPositionInfo D → Option String)
    (exit_text : SegmentRunResult D F
      → List (ShadowTradeRecord D F)
      → ShadowTradeRecord D F
      → Option String)
    (summary_text : String → ShadowWorld D F → Option String)
    (send_message : List String → String → Option SendResult) (clock : List String → ℕ)
    (env : ShadowEnv D F) where
  abbrev World : Type 0
  World = ShadowWorld D F

  abbrev Cycle : Type 0
  Cycle = Exec World ShadowError ShadowCycleResult

  -- A step that keeps the warm-up, however it ends.
  abbrev Keeps : {A : Type 0} → Exec World ShadowError A → Type 0
  Keeps m = (w : World) → warmup_of (m w).1 ≡ warmup_of w

  summary_keeps :
      (w : World)
      → warmup_of (
          maybe_send_daily_summary strategy raw_min_required_candles journal entry_text exit_text
            summary_text send_message clock env w)
        ≡ warmup_of w
  unfolding maybe_send_daily_summary enqueue_notifications_atomically
  summary_keeps w =
      elim (Bool-cases (
        ltb env.melbourne_hour 8
        || is_today strategy raw_min_required_candles journal entry_text exit_text summary_text
            send_message clock env w.shadow_db.last_daily_summary)) [
              | inl skipped ↦ rw (skipped, maybe_send_daily_summary) refl
              | inr due ↦ elim (Option-cases (summary_text env.melbourne_date w)) [
                | inl nothing ↦ rw (due, nothing, maybe_send_daily_summary) refl
                | inr (text, made) ↦ rw (due, made, maybe_send_daily_summary) refl
              ]
            ]

  score_segment-keeps :
      (filters : SymbolFilters D) (threshold : Option ℕ) (required_len : ℕ)
      (segment : List (Candle D)) (db : ShadowDb D F)
      → (score_segment strategy env.run_config filters env.broker env.starting_equity journal
          entry_text exit_text none env.now_ms threshold required_len segment db).1.bootstrap_state
        ≡ db.bootstrap_state
  unfolding score_segment
  score_segment-keeps filters threshold required_len segment db =
      elim (Result-cases (
        run_segment strategy env.run_config filters env.broker true segment required_len
          env.starting_equity)) [
            | inr (e, failed) ↦ rw (failed, score_segment) refl
            | inl (result, ran) ↦ elim (Option-cases (last? segment)) [
              | inl nothing ↦ rw (ran, nothing, score_segment) refl
              | inr (last, ends) ↦
                  let rows =
                    new_rows strategy env.run_config filters env.broker env.starting_equity journal
                      entry_text exit_text env.now_ms threshold segment last result db in
                  elim (record_cycle_atomically-IsDecided none rows env.now_ms cycle_ok) [
                    | inl fails ↦ rw (ran, ends, score_segment, fails db) refl
                    | inr writes ↦ rw (ran, ends, score_segment, writes db) refl
                  ]
            ]
          ]

  touch-Keeps :
      (status : CycleStatus) (fetched : ℕ) (segment_length : Option ℕ) (required_len : ℕ)
      → Keeps (
          touch strategy raw_min_required_candles journal entry_text exit_text summary_text
            send_message clock env status fetched segment_length required_len)
  unfolding touch_cycle
  touch-Keeps status fetched segment_length required_len w = summary_keeps _

  fetch-Keeps : Keeps (
      fetch_new_candles strategy raw_min_required_candles journal entry_text exit_text summary_text
        send_message clock env)
  unfolding fetch_new_candles
  fetch-Keeps w =
      let start = fetch_start_ms (
        latest_close_time_ms strategy raw_min_required_candles journal entry_text exit_text
          summary_text send_message clock env w.candle_db) in
      elim (Result-cases
        (fetch_completed_candles env.client env.symbol env.interval (some start) none 1000 none)) [
          | inr (e, failed) ↦ rw (failed, fetch_new_candles) refl
          | inl (fetched, came) ↦
              rw (came, filter_from_boundary_passes fetched, fetch_new_candles)
                (ap (λ l. (l, w.shadow_db.bootstrap_state))
                  (early_upserts fetched w.candle_db.candles))
        ]

  continue-Keeps :
      {A B : Type 0} (r : Result ShadowError A) (f : A → Exec World ShadowError B)
      → ((a : A) → Keeps (f a))
      → (w : World) → warmup_of (continue r f w).1 ≡ warmup_of w
  continue-Keeps (ok a) f k w = k a w
  continue-Keeps (raise e) f k w = refl

  score-Keeps :
      (threshold : Option ℕ) (fetched required_len : ℕ) (segment : List (Candle D))
      → Keeps (
          score_and_send strategy raw_min_required_candles journal entry_text exit_text summary_text
            send_message clock env threshold fetched required_len segment)
  unfolding score_and_send
  score-Keeps threshold fetched required_len segment w =
      continue-Keeps (raised_as data_failed env.exchange_filters)
        (λ filters.
          score strategy raw_min_required_candles journal entry_text exit_text summary_text
            send_message clock env filters threshold required_len segment
          >>= send strategy raw_min_required_candles journal entry_text exit_text summary_text
              send_message clock env fetched required_len segment)
        (λ filters v.
          let scored =
            score strategy raw_min_required_candles journal entry_text exit_text summary_text
              send_message clock env filters threshold required_len segment v in
          let kept : warmup_of scored.1 ≡ warmup_of v =
            ap (λ s. (keep is_early v.candle_db.candles, s))
              (score_segment-keeps filters threshold required_len segment v.shadow_db) in
          continue-Keeps scored.0
            (send strategy raw_min_required_candles journal entry_text exit_text summary_text
              send_message clock env fetched required_len segment)
            (λ rows u. summary_keeps _) scored.1
          ∙ kept)
        w

  if-Keeps :
      {A : Type 0} (b : Bool) (m n : Exec World ShadowError A)
      → Keeps m
      → Keeps n
      → Keeps (if b then m else n)
  if-Keeps true m n k l = k
  if-Keeps false m n k l = l

  segment-Keeps :
      (state : ShadowBootstrapState) (fetched : ℕ) (threshold : Option ℕ)
      (all_candles : List (Candle D))
      → Keeps (
          process_segment strategy raw_min_required_candles journal entry_text exit_text
            summary_text send_message clock env state fetched threshold all_candles)
  unfolding process_segment
  segment-Keeps state fetched threshold all_candles w =
      elim (Result-cases (partition_into_segments all_candles env.interval)) [
        | inr (e, failed) ↦ rw (failed, process_segment) refl
        | inl (parts, split) ↦ elim (Option-cases (last? parts.segments)) [
          | inl empty ↦ rw (split, empty, process_segment) refl
          | inr (segment, latest) ↦
              let required_len =
                required_for strategy raw_min_required_candles journal entry_text exit_text
                  summary_text send_message clock env state segment in
              rw (split, latest, process_segment)
                (if-Keeps (ltb (length segment) required_len)
                  (touch strategy raw_min_required_candles journal entry_text exit_text summary_text
                    send_message clock env insufficient_data fetched (some (length segment))
                    required_len)
                  (score_and_send strategy raw_min_required_candles journal entry_text exit_text
                    summary_text send_message clock env threshold fetched required_len segment)
                  (touch-Keeps insufficient_data fetched (some (length segment)) required_len)
                  (score-Keeps threshold fetched required_len segment) w)
        ]
      ]

  process-Keeps :
      (state : ShadowBootstrapState) (fetched : ℕ) (all_candles : List (Candle D))
      (latest : Option (Candle D))
      → Keeps (
          process_latest strategy raw_min_required_candles journal entry_text exit_text summary_text
            send_message clock env state fetched all_candles latest)
  unfolding process_latest
  process-Keeps state fetched all_candles none w =
      touch-Keeps no_new_candles fetched none raw_min_required_candles w
  process-Keeps state fetched all_candles (some last) w =
      let run_state = get_run_state w.shadow_db in
      let mark = run_state.last_processed_close_time_ms in
      if-Keeps (is_mark mark last.close_time_ms)
        (touch strategy raw_min_required_candles journal entry_text exit_text summary_text
          send_message clock env no_new_candles fetched run_state.last_segment_length
          raw_min_required_candles)
        (process_segment strategy raw_min_required_candles journal entry_text exit_text summary_text
          send_message clock env state fetched mark all_candles)
        (touch-Keeps no_new_candles fetched run_state.last_segment_length raw_min_required_candles)
        (segment-Keeps state fetched mark all_candles) w

  locked-Keeps : Keeps (
      run_shadow_cycle_locked strategy raw_min_required_candles journal entry_text exit_text
        summary_text send_message clock env)
  unfolding run_shadow_cycle_locked
  locked-Keeps w =
      elim (Result-cases
        (verify_bootstrap_complete env.symbol env.interval w.candle_db w.shadow_db)) [
          | inr (e, failed) ↦ rw (failed, run_shadow_cycle_locked) refl
          | inl (bootstrap_missing, found) ↦ rw (found, run_shadow_cycle_locked) refl
          | inl (bootstrap_broken, found) ↦ rw (found, run_shadow_cycle_locked) refl
          | inl (bootstrap_verified state, found) ↦
              let fetching =
                fetch_new_candles strategy raw_min_required_candles journal entry_text exit_text
                  summary_text send_message clock env w in
              let kept = fetch-Keeps w in
              elim (Result-cases fetching.0) [
                | inr (e, failed) ↦ rw (found, failed, run_shadow_cycle_locked) kept
                | inl (fetched, came) ↦
                    rw (found, came, run_shadow_cycle_locked)
                      (process-Keeps state fetched _ _ fetching.1 ∙ kept)
              ]
        ]

  cycle-Keeps : Keeps (
      run_shadow_cycle strategy raw_min_required_candles journal entry_text exit_text summary_text
        send_message clock env)
  unfolding run_shadow_cycle
  cycle-Keeps w = elim (Result-cases (assert_valid_shadow_config env.mode env.interval)) [
    | inr (e, failed) ↦ rw (failed, run_shadow_cycle) refl
    | inl (valid, passed) ↦ elim (Bool-cases env.is_kill_switch_engaged) [
      | inl engaged ↦ rw (passed, engaged, run_shadow_cycle) refl
      | inr released ↦ elim (Bool-cases env.is_lock_held) [
        | inl held ↦ rw (passed, released, held, run_shadow_cycle) refl
        | inr free ↦ rw (passed, released, free, run_shadow_cycle) (locked-Keeps w)
      ]
    ]
  ]

  -- However a cycle ends, it leaves the stored candles from before the boundary and the record of the
  -- warm-up as they were, and so, where the warm-up ends before the boundary, the verification of the
  -- warm-up gives for every series what it gave before the cycle.
  pub run_shadow_cycle_keeps_warmup :
      (w : World) (state : ShadowBootstrapState)
      → w.shadow_db.bootstrap_state ≡ some state
      → state.warmup_last_open_time_ms < shadow_start_boundary_ms
      → let after =
          (run_shadow_cycle strategy raw_min_required_candles journal entry_text exit_text
            summary_text send_message clock env w).1 in
        (keep is_early after.candle_db.candles ≡ keep is_early w.candle_db.candles)
        × (after.shadow_db.bootstrap_state ≡ some state)
        × ((symbol interval : String)
            → verify_bootstrap_complete symbol interval after.candle_db after.shadow_db
              ≡ verify_bootstrap_complete symbol interval w.candle_db w.shadow_db)
  run_shadow_cycle_keeps_warmup w state recorded early =
      let after =
        (run_shadow_cycle strategy raw_min_required_candles journal entry_text exit_text
          summary_text send_message clock env w).1 in
      let same = ap (λ v. v.0) (cycle-Keeps w) in
      let kept = ap (λ v. v.1) (cycle-Keeps w) ∙ recorded in
      (
        same,
        kept,
        λ symbol interval.
            verify_same symbol interval after.candle_db w.candle_db after.shadow_db w.shadow_db
              state early same kept recorded,
      )
