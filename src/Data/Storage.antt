-- ===== src/Data/Storage.antt =====
-- data/storage.py: the tables of candles and of confirmed gaps. A table is the list of its rows, at
-- most one for a primary key. A statement may fail, which a parameter decides.
pub mod Lookup
pub mod Repetition
use text.Mathlib.Text.{◌==◌ as str_eq}
use binance_testnet_trading.Base.{
  Bool, List, Option, String, [], any, if◌then◌else◌, keep, leb, map, none, not, ok, raise, some,
  true, ℕ, ◌&&◌, ◌==◌, ◌∷◌,
}
use binance_testnet_trading.Data.Gaps.{GapRecord}
use binance_testnet_trading.Base.Exec.{Exec, pure, ◌>>=◌, ◌>>◌}
use binance_testnet_trading.Data.{Candle}
use binance_testnet_trading.Data.History.{sort_by_open_time}

-- The primary keys: symbol, interval and an opening time.
abbrev pub Key : Type 0
Key = String × String × ℕ

abbrev pub same_key : Key → Key → Bool
same_key (s, i, t) (s', i', t') = str_eq s s' && (str_eq i i' && t == t')

-- A row of `candle_gaps`.
pub record StoredGap : Type 0 where
  pub symbol : String
  pub interval : String
  pub gap : GapRecord
  pub detected_at_ms : ℕ

pub record CandleDb (D : Type 0) : Type 0 where
  pub candles : List (Candle D)
  pub candle_gaps : List StoredGap

abbrev pub candle_key : {D : Type 0} → Candle D → Key
candle_key c = (c.symbol, c.interval, c.open_time_ms)

abbrev pub gap_key : StoredGap → Key
gap_key g = (g.symbol, g.interval, g.gap.expected_open_time_ms)

module _ {A : Type 0} (key : A → Key) where
  -- `INSERT ... ON CONFLICT ... DO UPDATE`
  unfoldable pub upsert : A → List A → List A
  upsert row [] = row ∷ []
  upsert row (r ∷ rs) = if same_key (key r) (key row) then row ∷ rs else r ∷ upsert row rs

  -- `executemany` of it
  unfoldable pub upserts : List A → List A → List A
  unfolding upsert
  upserts [] table = table
  upserts (row ∷ rows) table = upserts rows (upsert row table)

  abbrev pub is_listed : List Key → Key → Bool
  is_listed keys k = any (λ x. same_key x k) keys

  -- `executemany` of `DELETE ... WHERE`
  abbrev pub delete_keys : List Key → List A → List A
  delete_keys keys = keep (λ r. not (is_listed keys (key r)))

pub data Statement : Type 0 where
  upsert_candles upsert_gaps delete_gaps commit : Statement

pub data StorageError : Type 0 where
  storage_error : StorageError

-- `get_candles`: the series of a symbol and an interval between two opening times, in order.
abbrev pub is_in_series : String → String → Option ℕ → Option ℕ → {D : Type 0} → Candle D → Bool
is_in_series symbol interval start_time_ms end_time_ms c =
    str_eq c.symbol symbol
    && (str_eq c.interval interval
        && (elim start_time_ms [ none ↦ true | some t ↦ leb t c.open_time_ms ]
            && elim end_time_ms [ none ↦ true | some t ↦ leb c.open_time_ms t ]))

unfoldable pub get_candles :
    {D : Type 0} → String → String → Option ℕ → Option ℕ → CandleDb D → List (Candle D)
get_candles symbol interval start_time_ms end_time_ms db =
    sort_by_open_time (keep (is_in_series symbol interval start_time_ms end_time_ms) db.candles)

module _ {D : Type 0} (fails : Statement → Bool) where
  abbrev pub execute : Statement → (CandleDb D → CandleDb D) → Exec (CandleDb D) StorageError Unit
  execute statement change db =
      if fails statement then (raise storage_error, db) else (ok tt, change db)

  -- What is done inside `try`; `stale_gap_expected_open_times` may be absent or empty.
  unfoldable pub storing :
      List (Candle D)
      → List GapRecord
      → String
      → String
      → ℕ
      → Option (List ℕ)
      → Exec (CandleDb D) StorageError Unit
  unfolding upserts
  storing candles gaps symbol interval detected_at_ms stale = do
    upserted ←
        execute upsert_candles (λ db. record db { candles = upserts candle_key candles db.candles })
    deleted ← elim stale [
      | none ↦ pure tt
      | some [] ↦ pure tt
      | some (t ∷ ts) ↦ execute delete_gaps (λ db. record db {
        candle_gaps =
            delete_keys gap_key (map (λ u. (symbol, interval, u)) (t ∷ ts)) db.candle_gaps;
      })
    ]
    noted ← execute upsert_gaps (λ db. record db {
      candle_gaps =
          upserts gap_key
            (map
              (λ g. record {
                symbol = symbol;
                interval = interval;
                gap = g;
                detected_at_ms = detected_at_ms;
              })
              gaps)
            db.candle_gaps;
    })
    execute commit (λ db. db)

  -- An exception rolls the connection back.
  unfoldable pub store_candles_and_gaps :
      List (Candle D)
      → List GapRecord
      → String
      → String
      → ℕ
      → Option (List ℕ)
      → Exec (CandleDb D) StorageError Unit
  store_candles_and_gaps candles gaps symbol interval detected_at_ms stale db =
      let (outcome, working) = storing candles gaps symbol interval detected_at_ms stale db in
      elim outcome [ ok u ↦ (ok u, working) | raise e ↦ (raise e, db) ]
