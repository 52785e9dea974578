-- ===== src/Portfolio/Consistency.antt =====
-- The state invariant of the portfolio, under every fill.
use mathlib.Core.Path.{subst}
use binance_testnet_trading.Base.{
  Bool, Bool-cases, Option-cases, arith, false, inl, inr, none, ok, refl, some, sym, true, ◌||◌,
  ◌∙◌, ◌≡◌,
}
use binance_testnet_trading.Numbers.{Decimals, HasPositiveSum, HasSignedDifference, IsOrdered}
use binance_testnet_trading.Strategy.{PositionSide, PositionSide-cases, flat, long}
use binance_testnet_trading.Portfolio.{
  OrderSide, PortfolioState, apply_buy, apply_fill_delta, apply_partial_fill_increase, apply_sell,
  buy_side, entry_price, increase, reduce, sell_side,
}

module _ {D : Type 0} ⦃num : Decimals D⦄ where
  open num use {nought, add, sub, mul, lt}

  -- Flat: no base asset, no entry price, no entry fee, nothing estimated. Long: a positive amount of the
  -- base asset and an entry price.
  abbrev pub Position : PositionSide → PortfolioState D → Type 0
  Position flat s =
      (lt nought s.base_balance ≡ false)
      × (s.avg_entry_price ≡ none)
      × (s.open_position_entry_fee ≡ nought)
      × (s.pnl_is_estimated ≡ false)
  Position long s = (lt nought s.base_balance ≡ true) × ((p : D) × (s.avg_entry_price ≡ some p))

  pub record IsConsistent (s : PortfolioState D) : Type 0 where
    pub base_nonneg : lt s.base_balance nought ≡ false
    pub position : Position s.position_side s

  module _ (ordered : IsOrdered D) (signed : HasSignedDifference D) (sums : HasPositiveSum D) where
    apply_buy-IsConsistent :
        (s : PortfolioState D) (quantity price fee : D) (estimated : Bool) {t : PortfolioState D}
        → IsConsistent s
        → lt nought quantity ≡ true
        → apply_buy s quantity price fee estimated ≡ ok t
        → IsConsistent t × (lt t.quote_balance nought ≡ false)
    unfolding apply_buy
    apply_buy-IsConsistent s quantity price fee estimated {t = t} c q e =
        let cost = add (mul quantity price) fee in
        let more = sums.add-pos s.base_balance quantity c.base_nonneg q in
        let bought : t ≡ record s {
          quote_balance = sub s.quote_balance cost;
          base_balance = add s.base_balance quantity;
          position_side = long;
          avg_entry_price = some price;
          open_position_entry_fee = fee;
          pnl_is_estimated = estimated;
        } =
          ground arith in
        let covered : lt s.quote_balance cost ≡ false = ground arith in
        rw bought (
          record {
            base_nonneg = ordered.lt_asymm nought (add s.base_balance quantity) more;
            position = (more, (price, refl));
          },
          signed.sub-neg s.quote_balance cost ∙ covered,
        )

    increase-IsConsistent :
        (s : PortfolioState D) (entry quantity price fee : D) (estimated : Bool)
        {t : PortfolioState D}
        → IsConsistent s
        → lt nought quantity ≡ true
        → s.position_side ≡ long
        → increase s entry quantity price fee estimated ≡ ok t
        → IsConsistent t × (lt t.quote_balance nought ≡ false)
    unfolding increase
    increase-IsConsistent s entry quantity price fee estimated {t = t} c q l e =
        let cost = add (mul quantity price) fee in
        let total = add s.base_balance quantity in
        let more = sums.add-pos s.base_balance quantity c.base_nonneg q in
        let average = num.div (add (mul entry s.base_balance) (mul price quantity)) total in
        let added : t ≡ record s {
          quote_balance = sub s.quote_balance cost;
          base_balance = total;
          avg_entry_price = some average;
          open_position_entry_fee = add s.open_position_entry_fee fee;
          pnl_is_estimated = s.pnl_is_estimated || estimated;
        } =
          ground arith in
        let covered : lt s.quote_balance cost ≡ false = ground arith in
        rw added (
          record {
            base_nonneg = ordered.lt_asymm nought total more;
            position = rw l (more, (average, refl));
          },
          signed.sub-neg s.quote_balance cost ∙ covered,
        )

    reduce-IsConsistent :
        (s : PortfolioState D) (entry quantity price fee : D) (estimated : Bool)
        {t : PortfolioState D}
        → reduce s entry quantity price fee estimated ≡ ok t
        → IsConsistent t
    unfolding reduce
    reduce-IsConsistent s entry quantity price fee estimated {t = t} e =
        let left = sub s.base_balance quantity in
        let remains : t.base_balance ≡ left = ground arith in
        let enough : lt s.base_balance quantity ≡ false = ground arith in
        let nonneg = signed.sub-neg s.base_balance quantity ∙ enough in
        elim (Bool-cases (lt nought left)) [
          | inl some_left ↦
              let side : t.position_side ≡ long = ground arith in
              let entered : t.avg_entry_price ≡ some entry = ground arith in
              record {
                base_nonneg = rw remains nonneg;
                position =
                    subst (λ p. Position p t) (sym side) (rw remains some_left, (entry, entered));
              }
          | inr none_left ↦
              let side : t.position_side ≡ flat = ground arith in
              record {
                base_nonneg = rw remains nonneg;
                position =
                    subst (λ p. Position p t) (sym side)
                      (rw remains none_left, ground arith, ground arith, ground arith);
              }
        ]

    -- Under the laws on signs, a fill that is applied to a consistent state gives a consistent state; a
    -- bought one leaves a quote balance that is not negative, so a purchase never overdraws.
    pub apply_fill_delta-IsConsistent :
        (s : PortfolioState D) (side : OrderSide)
        (base_qty quote_qty commission_quote commission_base : D) (estimated : Bool)
        {t : PortfolioState D}
        → IsConsistent s
        → apply_fill_delta s side base_qty quote_qty commission_quote commission_base estimated
          ≡ ok t
        → IsConsistent t × (side ≡ buy_side → lt t.quote_balance nought ≡ false)
    unfolding apply_fill_delta apply_partial_fill_increase apply_sell entry_price
    apply_fill_delta-IsConsistent s buy_side base quote cq cb estimated {t = t} c e =
        let net = sub base cb in
        let price = num.div quote net in
        let positive : lt nought net ≡ true = ground arith in
        elim (PositionSide-cases s.position_side) [
          | inl opened ↦ elim (Option-cases (entry_price s)) [
            | inl closed ↦ ground arith
            | inr (entry, entered) ↦
                let (consistent, paid) =
                  increase-IsConsistent s entry net price cq estimated {t = t} c positive opened
                    (ground arith) in
                (consistent, λ h. paid)
          ]
          | inr closed ↦
              let (consistent, paid) =
                apply_buy-IsConsistent s net price cq estimated {t = t} c positive (ground arith) in
              (consistent, λ h. paid)
        ]
    apply_fill_delta-IsConsistent s sell_side base quote cq cb estimated {t = t} c e =
        elim (Option-cases (entry_price s)) [
          | inl closed ↦ ground arith
          | inr (entry, opened) ↦ (
            reduce-IsConsistent s entry base (num.div quote base) cq estimated (ground arith),
            λ h. cc,
          )
        ]
