-- ===== src/Backtest/Protection/Openings.antt =====
-- The invariant of a run under a purchase.
use mathlib.Core.Path.{subst}
use binance_testnet_trading.Base.{
  All, Bool, List, Option, Option-cases, arith, bind_returns, false, inl, inr, is_some, length,
  none, ok, refl, some, sym, true, ℕ, ◌+◌, ◌∙◌, ◌≡◌,
}
use binance_testnet_trading.Numbers.{Decimals, Floats, PlanDecimals}
use binance_testnet_trading.Data.{Candle}
use binance_testnet_trading.Strategy.{flat, long}
use binance_testnet_trading.Sizing.{SymbolFilters, round_quantity}
use binance_testnet_trading.Portfolio.{PortfolioState, apply_buy}
use binance_testnet_trading.Backtest.Broker.{SimulatedFill}
use binance_testnet_trading.Backtest.RiskReward.{RiskRewardPlan, build_realized_plan}
use binance_testnet_trading.Backtest.RiskReward.Promise.{build_realized_plan-FollowsPolicy}
use binance_testnet_trading.Backtest.Trades.{
  DiagBuilder, EquityPoint, RunConfig, SegmentRun, portfolio_failed, raised_as,
  record_rejected_entry,
}
use binance_testnet_trading.Backtest.Entries.{
  enter_planned, note_planned, note_planned_entry, open_position, opened_run, stop_of, target_of,
}
use binance_testnet_trading.Backtest.Protection.{
  EndsBy, Guard, InBar, ReplayLaws, alike-InBar, bought_state, mark_of, open_entries,
  raised_returns,
}

module _ {D F : Type 0} ⦃num : Decimals D⦄ ⦃plan_num : PlanDecimals D⦄ ⦃flo : Floats D F⦄
    (filters : SymbolFilters D) (use_policy : Bool) (laws : ReplayLaws filters)
    (curve : List (EquityPoint D)) where
  open num use {nought, add, sub, lt}

  -- A plan backs a purchase exactly under the policy, and it has a stop and a target.
  abbrev pub Backed : Option (RiskRewardPlan D F) → Type 0
  Backed none = use_policy ≡ false
  Backed (some plan) =
      (use_policy ≡ true)
      × ((stop : D) × (plan.stop_price ≡ some stop))
      × ((target : D) × (plan.target_price ≡ some target))

  stop_of-Backed :
      (config : RunConfig F) (price : D) (plan : Option (RiskRewardPlan D F))
      → Backed plan
      → (stop : D) × (stop_of config price plan ≡ some stop)
  stop_of-Backed config price none b = (_, refl)
  stop_of-Backed config price (some plan) b = b.1

  target_of-Backed :
      (plan : Option (RiskRewardPlan D F))
      → Backed plan
      → is_some (target_of none plan) ≡ use_policy
  target_of-Backed none b = sym b
  target_of-Backed (some plan) b = rw b.2.1 (sym b.0)

  note_planned_keeps_entries :
      (plan : Option (RiskRewardPlan D F)) (diag : DiagBuilder D F)
      → (note_planned plan diag).executed_entries ≡ diag.executed_entries
  unfolding note_planned_entry
  note_planned_keeps_entries none diag = refl
  note_planned_keeps_entries (some plan) diag = refl

  opened_run-InBar :
      (config : RunConfig F) (bar : Candle D) (quantity : D) (fill : SimulatedFill D)
      (plan : Option (RiskRewardPlan D F)) (bought : PortfolioState D) (run : SegmentRun D F)
      → InBar filters use_policy bar.open_time_ms curve run
      → Backed plan
      → round_quantity quantity filters ≡ quantity
      → run.state.portfolio.position_side ≡ flat
      → bought.position_side ≡ long
      → bought.base_balance ≡ add run.state.portfolio.base_balance quantity
      → bought.realized_pnl_quote ≡ run.state.portfolio.realized_pnl_quote
      → InBar filters use_policy bar.open_time_ms curve
          (opened_run config bar quantity fill plan bought run)
  unfolding opened_run
  opened_run-InBar config bar quantity fill plan bought run p b fits closed held base pnl =
      let guard : Guard filters use_policy flat run.state =
        subst (λ side. Guard filters use_policy side run.state) closed p.protected.guarded in
      let after = (opened_run config bar quantity fill plan bought run).state in
      let entered : run.diag.executed_entries ≡ length run.trades + open_entries flat =
        subst (λ side. run.diag.executed_entries ≡ length run.trades + open_entries side) closed
          p.protected.counted in
      let holds : bought.base_balance ≡ quantity =
        base ∙ (rw guard.0 (laws.neutral.zero_add quantity)) in
      let kept = note_planned_keeps_entries plan run.diag in
      record {
        protected = record {
          guarded =
              subst (λ side. Guard filters use_policy side after) (sym held)
                (
                  rw holds fits,
                  (_, refl, sym holds),
                  stop_of-Backed config fill.fill_price plan b,
                  rw guard.3 (target_of-Backed plan b),
                );
          counted = rw (kept, held) (omega (arith, entered));
          settled = pnl ∙ p.protected.settled;
        };
        unrecorded = p.unrecorded;
        sequential = p.sequential;
        ended = subst (λ o. All (EndsBy (mark_of bar.open_time_ms o)) run.trades) guard.1 p.ended;
        begun = omega arith;
      }

  pub open_position-InBar :
      (config : RunConfig F) (bar : Candle D) (quantity : D) (fill : SimulatedFill D)
      (plan : Option (RiskRewardPlan D F)) (run : SegmentRun D F) {out : SegmentRun D F}
      → InBar filters use_policy bar.open_time_ms curve run
      → Backed plan
      → round_quantity quantity filters ≡ quantity
      → open_position config bar quantity fill plan run ≡ ok out
      → InBar filters use_policy bar.open_time_ms curve out
  unfolding open_position
  open_position-InBar config bar quantity fill plan run {out = out} p b fits h =
      let portfolio = run.state.portfolio in
      let purchase = apply_buy portfolio quantity fill.fill_price fill.fee_quote false in
      let (bought, returned, done) =
        bind_returns (raised_as portfolio_failed purchase)
          (λ bought. ok (opened_run config bar quantity fill plan bought run)) h in
      let (closed, held, base, pnl) =
        bought_state portfolio quantity fill.fill_price fill.fee_quote
          (raised_returns portfolio_failed purchase returned) in
      let same : out ≡ opened_run config bar quantity fill plan bought run = ground arith in
      rw same
        (opened_run-InBar config bar quantity fill plan bought run p b fits closed held base pnl)

  -- The diagnostics other than the count of entries are free.
  pub diag-InBar :
      {now : ℕ} (run : SegmentRun D F) (diag : DiagBuilder D F)
      → InBar filters use_policy now curve run
      → diag.executed_entries ≡ run.diag.executed_entries
      → InBar filters use_policy now curve (record run { diag = diag })
  diag-InBar run diag p same =
      alike-InBar run (record run { diag = diag }) p refl refl refl refl refl same refl

  pub enter_planned-InBar :
      (config : RunConfig F) (bar : Candle D) (equity_now quantity : D) (fill : SimulatedFill D)
      (plan : RiskRewardPlan D F) (run : SegmentRun D F) {out : SegmentRun D F}
      → InBar filters use_policy bar.open_time_ms curve run
      → use_policy ≡ true
      → round_quantity quantity filters ≡ quantity
      → enter_planned config filters bar equity_now quantity fill plan run ≡ ok out
      → InBar filters use_policy bar.open_time_ms curve out
  unfolding enter_planned record_rejected_entry
  enter_planned-InBar config bar equity_now quantity fill plan run {out = out} p on fits h =
      let plan_for_fill = record plan { quantity = some quantity } in
      let again =
        build_realized_plan plan_for_fill fill.fill_price config.costs equity_now filters in
      elim (Option-cases again) [
        | inl bad ↦ ground arith
        | inr (realized, made) ↦
            let (accepted, (size, sized, kept, outcome)) =
              build_realized_plan-FollowsPolicy plan_for_fill fill.fill_price config.costs
                equity_now filters made in
            elim outcome [
              | inl (amounts, planned, followed, within) ↦
                  let agreed : realized.approved ≡ true = rw planned refl in
                  let backed : Backed (some realized) =
                    (on, (amounts.stop, rw planned refl), (amounts.target, rw planned refl)) in
                  open_position-InBar config bar quantity fill (some realized) run p backed fits
                    (ground arith)
              | inr refused ↦
                  let rejected = record_rejected_entry realized.reason_code run.diag in
                  let noted = record rejected {
                    rr_rejected_post_fill_revalidation =
                        rejected.rr_rejected_post_fill_revalidation + 1;
                  } in
                  let same : out ≡ record run { diag = noted } = ground arith in
                  rw same (diag-InBar run noted p refl)
            ]
      ]
