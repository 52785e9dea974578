-- ===== src/Data/Ingestion.antt =====
-- data/ingestion.py: a live fetch keeps only candles that have closed. The exchange's client is a
-- parameter: what it answers to a request for klines, and its server time.
pub mod Completed
use binance_testnet_trading.Base.{
  List, Option, Result, String, [], keep, ltb, none, ok, raise, some, ℕ, ◌>>=◌, ◌>>◌, ◌∷◌,
}
use binance_testnet_trading.Base.Int.{sub_ℕ, ℤ}
use binance_testnet_trading.Data.{Candle, DataError, empty_data}

-- The arguments of `BinancePublicMarketDataClient.get_klines`.
pub record KlineRequest : Type 0 where
  pub symbol : String
  pub interval : String
  pub start_time_ms : Option ℕ
  pub end_time_ms : Option ℤ
  pub limit : ℕ

pub record MarketDataClient (D : Type 0) : Type 0 where
  pub get_server_time_ms : Result DataError ℕ
  pub get_klines : KlineRequest → Result DataError (List (Candle D))

module _ {D : Type 0} (client : MarketDataClient D) where
  pub reference_time : Option ℕ → Result DataError ℕ
  reference_time none = client.get_server_time_ms
  reference_time (some t) = ok t

  pub end_bound : Option ℕ → Option ℤ
  end_bound none = none
  end_bound (some end_time_ms) = some (sub_ℕ end_time_ms 1)

  -- The second filter, made only if an end was given.
  pub before_end : Option ℕ → List (Candle D) → List (Candle D)
  before_end none cs = cs
  before_end (some end_time_ms) cs = keep (λ c. ltb c.open_time_ms end_time_ms) cs

  unfoldable pub fetch_completed_candles :
      String → String → Option ℕ → Option ℕ → ℕ → Option ℕ → Result DataError (List (Candle D))
  unfolding reference_time end_bound before_end
  fetch_completed_candles symbol interval start_time_ms end_time_ms limit reference_time_ms = do
    reference ← reference_time reference_time_ms
    raw_candles ← client.get_klines (record {
      symbol = symbol;
      interval = interval;
      start_time_ms = start_time_ms;
      end_time_ms = end_bound end_time_ms;
      limit = limit;
    })
    ok (before_end end_time_ms (keep (λ c. ltb c.close_time_ms reference) raw_candles))

module _ {D : Type 0} where
  pub require_non_empty : List (Candle D) → Result DataError (List (Candle D))
  require_non_empty [] = raise empty_data
  require_non_empty (c ∷ cs) = ok (c ∷ cs)
