-- ===== src/Data/Ingestion/Completed.antt =====
-- What a live fetch returns.
use binance_testnet_trading.Base.{
  In, In-keep, List, Option, String, arith, keep, ltb, ltb→lt, lt→ltb, none, ok, refl, some, ℕ, ◌<◌,
  ◌↔◌, ◌≡◌,
}
use binance_testnet_trading.Data.{Candle}
use binance_testnet_trading.Data.Ingestion.{
  MarketDataClient, before_end, end_bound, fetch_completed_candles,
}

module _ {D : Type 0} (client : MarketDataClient D) where
  In-before_end :
      (end_time_ms : Option ℕ) (cs : List (Candle D)) (c : Candle D)
      → In c (before_end client end_time_ms cs)
        ↔ (In c cs × ((e : ℕ) → end_time_ms ≡ some e → c.open_time_ms < e))
  unfolding before_end
  In-before_end none cs c = (λ h. (h, λ e q. ground arith), λ h. h.0)
  In-before_end (some e) cs c =
      let kept = In-keep (λ d. ltb d.open_time_ms e) cs c in
      (
        (λ h. ((kept.0 h).0, λ f q. ground (arith, (kept.0 h).1))),
        λ h. kept.1 (h.0, lt→ltb c.open_time_ms e (h.1 e refl)),
      )

  -- A candle is returned exactly when the exchange answered it to the request made, it closed strictly
  -- before the reference time, and it opened strictly before the end, if one was given.
  pub fetch_completed_candles_returns :
      (symbol interval : String) (start_time_ms end_time_ms : Option ℕ) (limit reference : ℕ)
      {raw_candles completed : List (Candle D)}
      → client.get_klines (record {
        symbol = symbol;
        interval = interval;
        start_time_ms = start_time_ms;
        end_time_ms = end_bound client end_time_ms;
        limit = limit;
      })
        ≡ ok raw_candles
      → fetch_completed_candles client symbol interval start_time_ms end_time_ms limit
          (some reference)
        ≡ ok completed
      → (c : Candle D)
      → In c completed ↔ (
          In c raw_candles
          × (c.close_time_ms < reference)
          × ((e : ℕ) → end_time_ms ≡ some e → c.open_time_ms < e))
  unfolding fetch_completed_candles
  fetch_completed_candles_returns symbol interval start_time_ms end_time_ms limit reference
        {raw_candles = raw_candles} {completed = completed} answered e c =
      let closed = keep (λ d. ltb d.close_time_ms reference) raw_candles in
      let all : completed ≡ before_end client end_time_ms closed = ground arith in
      let bounded = In-before_end end_time_ms closed c in
      let kept = In-keep (λ d. ltb d.close_time_ms reference) raw_candles c in
      rw all (
        (λ h.
            let (there, early) = bounded.0 h in
            let (raw, shut) = kept.0 there in (raw, ltb→lt c.close_time_ms reference shut, early)),
        λ h. bounded.1 (kept.1 (h.0, lt→ltb c.close_time_ms reference h.1), h.2),
      )
