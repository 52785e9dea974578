-- ===== src/Execution/Fees.antt =====
-- execution/fees.py: commissions bucketed by their asset.
use binance_testnet_trading.Base.{
  Bool, List, String, [], ap, arith, false, if◌then◌else◌, refl, true, ◌∙◌, ◌∷◌, ◌≡◌,
}
use binance_testnet_trading.Base.Dict.{Dict, get_or, insert, lookup, lookup-insert}
use binance_testnet_trading.Numbers.{Decimals}
use binance_testnet_trading.Execution.Orders.{Fill}
use text.Mathlib.Text.{◌==◌ as str_eq}
use text.Mathlib.TextEquality.{eq_iff}

-- The tuple that `compute_commission_buckets` returns.
pub record CommissionBuckets (D : Type 0) : Type 0 where
  pub commission_quote : D
  pub commission_base : D
  pub commission_other : Dict D
  pub is_estimated : Bool

module _ {D : Type 0} ⦃num : Decimals D⦄ where
  open num use {nought, add, mul}

  pub estimate_fee_from_notional : D → D → D
  estimate_fee_from_notional notional fallback_fee_pct = mul notional fallback_fee_pct

  unfoldable pub add_fill : String → String → CommissionBuckets D → Fill D → CommissionBuckets D
  add_fill quote_asset base_asset b fill =
      if str_eq fill.commission_asset quote_asset
      then record b { commission_quote = add b.commission_quote fill.commission }
      else if str_eq fill.commission_asset base_asset
      then record b { commission_base = add b.commission_base fill.commission }
      else record b {
        commission_other =
            insert fill.commission_asset
              (add (get_or fill.commission_asset b.commission_other nought) fill.commission)
              b.commission_other;
      }

  unfoldable pub add_fills :
      String → String → CommissionBuckets D → List (Fill D) → CommissionBuckets D
  add_fills quote_asset base_asset b [] = b
  add_fills quote_asset base_asset b (fill ∷ fills) =
      add_fills quote_asset base_asset (add_fill quote_asset base_asset b fill) fills

  abbrev pub no_commission : CommissionBuckets D
  no_commission = record {
    commission_quote = nought;
    commission_base = nought;
    commission_other = [];
    is_estimated = false;
  }

  unfoldable pub compute_commission_buckets :
      List (Fill D) → String → String → D → D → CommissionBuckets D
  compute_commission_buckets [] quote_asset base_asset fallback_notional fallback_fee_pct = record {
    commission_quote = estimate_fee_from_notional fallback_notional fallback_fee_pct;
    commission_base = nought;
    commission_other = [];
    is_estimated = true;
  }
  compute_commission_buckets (fill ∷ fills) quote_asset base_asset notional fee_pct =
      add_fills quote_asset base_asset no_commission (fill ∷ fills)

  -- The amount held for an asset.
  abbrev pub bucket : String → String → CommissionBuckets D → String → D
  bucket quote_asset base_asset b asset =
      if str_eq asset quote_asset
      then b.commission_quote
      else if str_eq asset base_asset
      then b.commission_base
      else get_or asset b.commission_other nought

  -- The commissions charged in an asset, added up in the order of the fills.
  abbrev pub charged : String → D → List (Fill D) → D
  charged asset total [] = total
  charged asset total (fill ∷ fills) =
      charged asset
        (if str_eq fill.commission_asset asset then add total fill.commission else total) fills

  bucket-add_fill :
      (quote_asset base_asset asset : String) (b : CommissionBuckets D) (fill : Fill D)
      → bucket quote_asset base_asset (add_fill quote_asset base_asset b fill) asset ≡ (
          if str_eq fill.commission_asset asset
          then add (bucket quote_asset base_asset b asset) fill.commission
          else bucket quote_asset base_asset b asset)
  unfolding add_fill
  bucket-add_fill quote_asset base_asset asset b fill =
      let paid_in = fill.commission_asset in
      let total = add (get_or paid_in b.commission_other nought) fill.commission in
      ground (
        arith,
        eq_iff asset quote_asset,
        eq_iff asset base_asset,
        eq_iff paid_in asset,
        eq_iff paid_in quote_asset,
        eq_iff paid_in base_asset,
        lookup-insert paid_in asset total b.commission_other,
      )

  bucket-add_fills :
      (quote_asset base_asset asset : String) (b : CommissionBuckets D) (fills : List (Fill D))
      → bucket quote_asset base_asset (add_fills quote_asset base_asset b fills) asset
        ≡ charged asset (bucket quote_asset base_asset b asset) fills
  unfolding add_fills
  bucket-add_fills quote_asset base_asset asset b [] = refl
  bucket-add_fills quote_asset base_asset asset b (fill ∷ fills) =
      rw
        (
          bucket-add_fills quote_asset base_asset asset (add_fill quote_asset base_asset b fill)
              fills,
          bucket-add_fill quote_asset base_asset asset b fill,
        )
        refl

  add_fill_estimated :
      (quote_asset base_asset : String) (b : CommissionBuckets D) (fill : Fill D)
      → (add_fill quote_asset base_asset b fill).is_estimated ≡ b.is_estimated
  unfolding add_fill
  add_fill_estimated quote_asset base_asset b fill = ground arith

  add_fills_estimated :
      (quote_asset base_asset : String) (b : CommissionBuckets D) (fills : List (Fill D))
      → (add_fills quote_asset base_asset b fills).is_estimated ≡ b.is_estimated
  unfolding add_fills
  add_fills_estimated quote_asset base_asset b [] = refl
  add_fills_estimated quote_asset base_asset b (fill ∷ fills) =
      add_fills_estimated quote_asset base_asset (add_fill quote_asset base_asset b fill) fills
      ∙ add_fill_estimated quote_asset base_asset b fill

  no_commission-bucket :
      (quote_asset base_asset asset : String)
      → bucket quote_asset base_asset no_commission asset ≡ nought
  unfolding lookup
  no_commission-bucket quote_asset base_asset asset = ground arith

  -- Where there are fills, every asset's bucket holds exactly the commissions charged in that asset,
  -- added in the order of the fills, and nothing is estimated.
  pub compute_commission_buckets-charged :
      (fill : Fill D) (fills : List (Fill D)) (quote_asset base_asset asset : String)
      (notional fee_pct : D)
      → let b = compute_commission_buckets (fill ∷ fills) quote_asset base_asset notional fee_pct in
        (bucket quote_asset base_asset b asset ≡ charged asset nought (fill ∷ fills))
        × (b.is_estimated ≡ false)
  unfolding compute_commission_buckets
  compute_commission_buckets-charged fill fills quote_asset base_asset asset notional fee_pct =
      let all = fill ∷ fills in
      (
        bucket-add_fills quote_asset base_asset asset no_commission all
            ∙ ap (λ start. charged asset start all)
                (no_commission-bucket quote_asset base_asset asset),
        add_fills_estimated quote_asset base_asset no_commission all,
      )
