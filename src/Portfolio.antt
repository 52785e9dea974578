-- ===== src/Portfolio.antt =====
-- portfolio/state.py: the portfolio and the functions that move it from one state to the next.
pub mod Balances
pub mod Consistency
pub mod Equity
use binance_testnet_trading.Base.{
  Bool, Option, Result, false, if◌then◌else◌, none, not, ok, raise, some, true, ◌||◌,
}
use binance_testnet_trading.Numbers.{Decimals, eq, le}
use binance_testnet_trading.Strategy.{PositionSide, flat, long}

pub record PortfolioState (D : Type 0) : Type 0 where
  pub quote_balance : D
  pub base_balance : D
  pub position_side : PositionSide
  pub avg_entry_price : Option D
  pub realized_pnl_quote : D
  pub open_position_entry_fee : D
  pub pnl_is_estimated : Bool

-- InvalidTransitionError and UnsupportedCommissionError.
pub data PortfolioError : Type 0 where
  invalid_transition unsupported_commission : PortfolioError

-- `Literal["BUY", "SELL"]`
pub data OrderSide : Type 0 where
  buy_side sell_side : OrderSide

abbrev pub is_long : PositionSide → Bool
is_long long = true
is_long flat = false

module _ {D : Type 0} ⦃num : Decimals D⦄ where
  open num use {nought, add, sub, mul, div, lt}

  unfoldable pub equity : PortfolioState D → D → D
  equity state current_price = add state.quote_balance (mul state.base_balance current_price)

  unfoldable pub initial : D → PortfolioState D
  initial starting_quote_balance = record {
    quote_balance = starting_quote_balance;
    base_balance = nought;
    position_side = flat;
    avg_entry_price = none;
    realized_pnl_quote = nought;
    open_position_entry_fee = nought;
    pnl_is_estimated = false;
  }

  unfoldable pub apply_buy :
      PortfolioState D → D → D → D → Bool → Result PortfolioError (PortfolioState D)
  apply_buy state quantity price fee_quote fee_is_estimated =
      let cost = add (mul quantity price) fee_quote in
      if is_long state.position_side
      then raise invalid_transition
      else if lt state.quote_balance cost
      then raise invalid_transition
      else ok (record state {
        quote_balance = sub state.quote_balance cost;
        base_balance = add state.base_balance quantity;
        position_side = long;
        avg_entry_price = some price;
        open_position_entry_fee = fee_quote;
        pnl_is_estimated = fee_is_estimated;
      })

  -- The position of `apply_partial_fill_increase`, past its first guard.
  unfoldable pub increase :
      PortfolioState D → D → D → D → D → Bool → Result PortfolioError (PortfolioState D)
  increase state entry quantity price fee_quote fee_is_estimated =
      let cost = add (mul quantity price) fee_quote in
      let total_qty = add state.base_balance quantity in
      if lt state.quote_balance cost
      then raise invalid_transition
      else ok (record state {
        quote_balance = sub state.quote_balance cost;
        base_balance = total_qty;
        avg_entry_price =
            some (div (add (mul entry state.base_balance) (mul price quantity)) total_qty);
        open_position_entry_fee = add state.open_position_entry_fee fee_quote;
        pnl_is_estimated = state.pnl_is_estimated || fee_is_estimated;
      })

  -- The entry price of an open position; `none` is the guard that `apply_partial_fill_increase` and
  -- `apply_sell` begin with.
  unfoldable pub entry_price : PortfolioState D → Option D
  entry_price state = if is_long state.position_side then state.avg_entry_price else none

  unfoldable pub apply_partial_fill_increase :
      PortfolioState D → D → D → D → Bool → Result PortfolioError (PortfolioState D)
  apply_partial_fill_increase state quantity price fee_quote fee_is_estimated =
      elim (entry_price state) [
        | none ↦ raise invalid_transition
        | some entry ↦ increase state entry quantity price fee_quote fee_is_estimated
      ]

  -- The sell of `apply_sell`, past its first guard.
  unfoldable pub reduce :
      PortfolioState D → D → D → D → D → Bool → Result PortfolioError (PortfolioState D)
  reduce state entry quantity price fee_quote fee_is_estimated =
      let proceeds = sub (mul quantity price) fee_quote in
      let entry_fee_allocated =
        if lt nought state.base_balance
        then mul state.open_position_entry_fee (div quantity state.base_balance)
        else nought in
      let realized_pnl = sub (sub (mul quantity (sub price entry)) fee_quote) entry_fee_allocated in
      let remaining_base = sub state.base_balance quantity in
      let still_open = lt nought remaining_base in
      if lt state.base_balance quantity
      then raise invalid_transition
      else ok (record state {
        quote_balance = add state.quote_balance proceeds;
        base_balance = remaining_base;
        position_side = if still_open then long else flat;
        avg_entry_price = if still_open then some entry else none;
        realized_pnl_quote = add state.realized_pnl_quote realized_pnl;
        open_position_entry_fee =
            if still_open then sub state.open_position_entry_fee entry_fee_allocated else nought;
        pnl_is_estimated = if still_open then state.pnl_is_estimated || fee_is_estimated else false;
      })

  unfoldable pub apply_sell :
      PortfolioState D → D → D → D → Bool → Result PortfolioError (PortfolioState D)
  apply_sell state quantity price fee_quote fee_is_estimated = elim (entry_price state) [
    | none ↦ raise invalid_transition
    | some entry ↦ reduce state entry quantity price fee_quote fee_is_estimated
  ]

  unfoldable pub apply_fill_delta :
      PortfolioState D → OrderSide → D → D → D → D → Bool → Result PortfolioError (PortfolioState D)
  apply_fill_delta state buy_side base_qty quote_qty commission_quote commission_base estimated =
      let net_base_qty = sub base_qty commission_base in
      let effective_price = div quote_qty net_base_qty in
      if le net_base_qty nought
      then raise invalid_transition
      else if is_long state.position_side
      then apply_partial_fill_increase state net_base_qty effective_price commission_quote estimated
      else apply_buy state net_base_qty effective_price commission_quote estimated
  apply_fill_delta state sell_side base_qty quote_qty commission_quote commission_base estimated =
      if not (eq commission_base nought)
      then raise unsupported_commission
      else if le base_qty nought
      then raise invalid_transition
      else apply_sell state base_qty (div quote_qty base_qty) commission_quote estimated
