-- ===== src/Backtest/Protection/Closings.antt =====
-- The invariant of a bar under a sale of the whole position.
use mathlib.Core.Path.{subst}
use binance_testnet_trading.Base.{
  All, All-append, Bool, Bool-cases, List, Option-cases, [], arith, bind_returns, false, inl, inr,
  length, length-append, ok, refl, sym, ℕ, ◌&&◌, ◌+◌, ◌∙◌, ◌∷◌, ◌≡◌, ◌≤◌,
}
use binance_testnet_trading.Numbers.{Decimals, Floats}
use binance_testnet_trading.Strategy.{flat, long}
use binance_testnet_trading.Sizing.{SymbolFilters}
use binance_testnet_trading.Portfolio.{PortfolioState, apply_sell}
use binance_testnet_trading.Backtest.Broker.{SimulatedFill}
use binance_testnet_trading.Backtest.Trades.{
  DiagBuilder, EquityPoint, ExitReason, OpenTrade, RunConfig, SegmentRun, portfolio_failed,
  raised_as,
}
use binance_testnet_trading.Backtest.Exits.{
  apply_exit_fill, close_state, closed_trade, is_stop_loss, note_gap_loss, planned_risk, settle,
}
use binance_testnet_trading.Backtest.Protection.{
  All-EndsBy, EndsBy, Guard, InBar, ReplayLaws, Sequential-append, mark_of, open_entries,
  raised_returns, sold_state, total_pnl_from-append,
}

module _ {D F : Type 0} ⦃num : Decimals D⦄ ⦃flo : Floats D F⦄ (filters : SymbolFilters D)
    (use_policy : Bool) (laws : ReplayLaws filters) (curve : List (EquityPoint D)) where
  open num use {nought, add, sub, lt}

  note_gap_loss_keeps_entries :
      (opened : OpenTrade D F) (reason : ExitReason) (realized : D) (diag : DiagBuilder D F)
      → (note_gap_loss opened reason realized diag).executed_entries ≡ diag.executed_entries
  unfolding note_gap_loss
  note_gap_loss_keeps_entries opened reason realized diag =
      elim (Option-cases (planned_risk opened.realized_plan)) [
        | inl unplanned ↦ rw (unplanned, note_gap_loss) refl
        | inr (risk, planned) ↦
            elim (Bool-cases (is_stop_loss reason && lt risk (sub nought realized))) [
              | inl lost ↦ rw (planned, lost, note_gap_loss) refl
              | inr kept ↦ rw (planned, kept, note_gap_loss) refl
            ]
      ]

  settle-InBar :
      (config : RunConfig F) (time : ℕ) (quantity : D) (fill : SimulatedFill D)
      (reason : ExitReason) (reference : D) (sold : PortfolioState D) (run : SegmentRun D F)
      → InBar filters use_policy time curve run
      → run.state.portfolio.position_side ≡ long
      → sold.position_side ≡ flat
      → sold.base_balance ≡ nought
      → InBar filters use_policy time curve
          (settle config time quantity fill reason reference sold run)
  unfolding settle close_state
  settle-InBar config time quantity fill reason reference sold run p held closed emptied =
      let guard : Guard filters use_policy long run.state =
        subst (λ side. Guard filters use_policy side run.state) held p.protected.guarded in
      let opened = guard.1.0 in
      let realized = sub sold.realized_pnl_quote run.state.portfolio.realized_pnl_quote in
      let after = close_state config sold realized run.state in
      let trade = closed_trade opened time quantity fill realized reason reference in
      let kept = note_gap_loss_keeps_entries opened reason realized run.diag in
      let longer = length-append run.trades (trade ∷ []) in
      let entered : run.diag.executed_entries ≡ length run.trades + open_entries long =
        subst (λ side. run.diag.executed_entries ≡ length run.trades + open_entries side) held
          p.protected.counted in
      let sum = total_pnl_from-append num nought run.trades trade in
      let back =
        laws.exact.sub_add sold.realized_pnl_quote run.state.portfolio.realized_pnl_quote in
      let swapped = laws.exact.add_comm realized run.state.portfolio.realized_pnl_quote in
      let began : opened.entry_time_ms ≤ time =
        subst (λ o. mark_of time o ≤ time) guard.1.1 p.begun in
      let past : All (EndsBy opened.entry_time_ms) run.trades =
        subst (λ o. All (EndsBy (mark_of time o)) run.trades) guard.1.1 p.ended in
      rw (guard.1.1, settle)
        (record {
          protected = record {
            guarded =
                subst (λ side. Guard filters use_policy side after) (sym closed)
                  (emptied, refl, refl, refl);
            counted = rw (kept, longer, closed) (omega (arith, entered));
            settled = sym (sum ∙ (rw (sym p.protected.settled) (sym swapped) ∙ back));
          };
          unrecorded = p.unrecorded;
          sequential = Sequential-append run.trades trade p.sequential past began;
          ended =
              All-append (EndsBy time) run.trades (trade ∷ [])
                (All-EndsBy opened.entry_time_ms time run.trades began past) (omega arith, tt);
          begun = omega arith;
        })

  pub apply_exit_fill-InBar :
      (config : RunConfig F) (time : ℕ) (fill : SimulatedFill D) (reason : ExitReason)
      (reference : D) (run : SegmentRun D F) {out : SegmentRun D F}
      → InBar filters use_policy time curve run
      → apply_exit_fill config time run.state.portfolio.base_balance fill reason reference run
        ≡ ok out
      → InBar filters use_policy time curve out
  unfolding apply_exit_fill
  apply_exit_fill-InBar config time fill reason reference run {out = out} p h =
      let portfolio = run.state.portfolio in
      let quantity = portfolio.base_balance in
      let sale = apply_sell portfolio quantity fill.fill_price fill.fee_quote false in
      let (sold, returned, done) =
        bind_returns (raised_as portfolio_failed sale)
          (λ sold. ok (settle config time quantity fill reason reference sold run)) h in
      let (held, closed, emptied) =
        sold_state laws.neutral laws.ordered portfolio fill.fill_price fill.fee_quote
          (raised_returns portfolio_failed sale returned) in
      let same : out ≡ settle config time quantity fill reason reference sold run = ground arith in
      rw same
        (settle-InBar config time quantity fill reason reference sold run p held closed emptied)
