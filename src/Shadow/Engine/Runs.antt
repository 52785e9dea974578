-- ===== src/Shadow/Engine/Runs.antt =====
-- Cycles of shadow/engine.py one after the other.
use binance_testnet_trading.Base.{List, Option, String, [], keep, refl, some, ℕ, ◌<◌, ◌∙◌, ◌∷◌, ◌≡◌}
use binance_testnet_trading.Data.{Candle}
use binance_testnet_trading.Numbers.{Decimals, Floats, PlanDecimals}
use binance_testnet_trading.Shadow.Engine.Cycle.{ShadowEnv, ShadowWorld, run_shadow_cycle}
use binance_testnet_trading.Shadow.Boundary.{shadow_start_boundary_ms}
use binance_testnet_trading.Shadow.Store.{
  ShadowBootstrapState, ShadowJournalEntry, ShadowTradeRecord,
}
use binance_testnet_trading.Backtest.Segment.{SignalGenerator}
use binance_testnet_trading.Backtest.Report.{OpenPositionInfo, SegmentRunResult}
use binance_testnet_trading.Shadow.Sender.{SendResult}
use binance_testnet_trading.Shadow.Bootstrap.{verify_bootstrap_complete}
use binance_testnet_trading.Shadow.Engine.Early.{is_early}
use binance_testnet_trading.Shadow.Engine.Warmup.{run_shadow_cycle_keeps_warmup}

module _ {D F : Type 0} ⦃num : Decimals D⦄ ⦃plan_num : PlanDecimals D⦄ ⦃flo : Floats D F⦄
    (strategy : SignalGenerator D) (raw_min_required_candles : ℕ)
    (journal : List (Candle D) → List ShadowJournalEntry)
    (entry_text : SegmentRunResult D F → OpenPositionInfo D → Option String)
    (exit_text : SegmentRunResult D F
      → List (ShadowTradeRecord D F)
      → ShadowTradeRecord D F
      → Option String)
    (summary_text : String → ShadowWorld D F → Option String)
    (send_message : List String → String → Option SendResult) (clock : List String → ℕ) where
  -- What cycles leave behind, whatever each of them finds; an exception ends its own cycle only.
  abbrev pub after_cycles : List (ShadowEnv D F) → ShadowWorld D F → ShadowWorld D F
  after_cycles [] w = w
  after_cycles (env ∷ envs) w =
      after_cycles envs
        (run_shadow_cycle strategy raw_min_required_candles journal entry_text exit_text
          summary_text send_message clock env w).1

  -- However many cycles run, and however each of them ends, they leave the stored candles from before
  -- the boundary and the record of the warm-up as they were; so where the warm-up ends before the
  -- boundary, its verification gives for every series what it gave before the first cycle.
  pub after_cycles-keep_warmup :
      (envs : List (ShadowEnv D F)) (w : ShadowWorld D F) (state : ShadowBootstrapState)
      → w.shadow_db.bootstrap_state ≡ some state
      → state.warmup_last_open_time_ms < shadow_start_boundary_ms
      → let after = after_cycles envs w in
        (keep is_early after.candle_db.candles ≡ keep is_early w.candle_db.candles)
        × (after.shadow_db.bootstrap_state ≡ some state)
        × ((symbol interval : String)
            → verify_bootstrap_complete symbol interval after.candle_db after.shadow_db
              ≡ verify_bootstrap_complete symbol interval w.candle_db w.shadow_db)
  after_cycles-keep_warmup [] w state recorded early = (refl, recorded, λ symbol interval. refl)
  after_cycles-keep_warmup (env ∷ envs) w state recorded early =
      let first =
        run_shadow_cycle_keeps_warmup strategy raw_min_required_candles journal entry_text exit_text
          summary_text send_message clock env w state recorded early in
      let rest =
        after_cycles-keep_warmup envs
          (run_shadow_cycle strategy raw_min_required_candles journal entry_text exit_text
            summary_text send_message clock env w).1
          state first.1 early in
      (
        rest.0 ∙ first.0,
        rest.1,
        λ symbol interval. rest.2 symbol interval ∙ first.2 symbol interval,
      )
