-- ===== src/Data/Storage/Repetition.antt =====
-- `store_candles_and_gaps` of data/storage.py when it fails, and when the same download is stored
-- again.
use binance_testnet_trading.Base.{
  Bool, Bool-cases, List, Option, Result, String, [], ap, inl, inr, keep, map, none, ok, raise,
  refl, some, true, ℕ, ◌∷◌, ◌≡◌, ◌⊎◌,
}
use binance_testnet_trading.Data.Storage.{
  CandleDb, Key, Statement, StorageError, StoredGap, candle_key, commit, delete_gaps, gap_key,
  storage_error, store_candles_and_gaps, storing, upsert_candles, upsert_gaps, upserts,
}
use binance_testnet_trading.Data.Gaps.{GapRecord}
use binance_testnet_trading.Data.{Candle}
use binance_testnet_trading.Data.Storage.Lookup.{
  replace_rows, replace_rows_twice, row_at, upserts_twice,
}

keep_all : {A : Type 0} (xs : List A) → keep (λ x. true) xs ≡ xs
keep_all [] = refl
keep_all (x ∷ xs) = ap (λ l. x ∷ l) (keep_all xs)

-- The keys that are deleted, and the rows that are put in.
abbrev stale_keys : String → String → Option (List ℕ) → List Key
stale_keys symbol interval none = []
stale_keys symbol interval (some ts) = map (λ u. (symbol, interval, u)) ts

abbrev gap_rows : List GapRecord → String → String → ℕ → List StoredGap
gap_rows gaps symbol interval detected_at_ms =
    map
      (λ g. record {
        symbol = symbol;
        interval = interval;
        gap = g;
        detected_at_ms = detected_at_ms;
      })
      gaps

module _ {D : Type 0} (fails : Statement → Bool) (candles : List (Candle D)) (gaps : List GapRecord)
    (symbol interval : String) (detected_at_ms : ℕ) where
  abbrev pub written : Option (List ℕ) → CandleDb D → CandleDb D
  written stale db = record {
    candles = upserts candle_key candles db.candles;
    candle_gaps =
        replace_rows gap_key (stale_keys symbol interval stale)
          (gap_rows gaps symbol interval detected_at_ms) db.candle_gaps;
  }

  abbrev stored : Option (List ℕ) → CandleDb D → Result StorageError Unit × CandleDb D
  stored = store_candles_and_gaps fails candles gaps symbol interval detected_at_ms

  abbrev pub IsDecided : Option (List ℕ) → Type 0
  IsDecided stale =
      ((db : CandleDb D) → stored stale db ≡ (raise storage_error, db))
      ⊎ ((db : CandleDb D) → stored stale db ≡ (ok tt, written stale db))

  store_candles_and_gaps-none-IsDecided : IsDecided none
  unfolding store_candles_and_gaps storing
  store_candles_and_gaps-none-IsDecided = elim (Bool-cases (fails upsert_candles)) [
    | inl a ↦ inl (λ db. rw (a, store_candles_and_gaps, storing) refl)
    | inr a ↦ elim (Bool-cases (fails upsert_gaps)) [
      | inl c ↦ inl (λ db. rw (a, c, store_candles_and_gaps, storing) refl)
      | inr c ↦ elim (Bool-cases (fails commit)) [
        | inl d ↦ inl (λ db. rw (a, c, d, store_candles_and_gaps, storing) refl)
        | inr d ↦ inr (λ db.
            rw (a, c, d, store_candles_and_gaps, storing)
              (rw (a, c, d, storing, keep_all db.candle_gaps) refl))
      ]
    ]
  ]

  pub store_candles_and_gaps-IsDecided : (stale : Option (List ℕ)) → IsDecided stale
  unfolding store_candles_and_gaps storing
  store_candles_and_gaps-IsDecided none = store_candles_and_gaps-none-IsDecided
  store_candles_and_gaps-IsDecided (some []) = store_candles_and_gaps-none-IsDecided
  store_candles_and_gaps-IsDecided (some (t ∷ ts)) = elim (Bool-cases (fails upsert_candles)) [
    | inl a ↦ inl (λ db. rw (a, store_candles_and_gaps, storing) refl)
    | inr a ↦ elim (Bool-cases (fails delete_gaps)) [
      | inl b ↦ inl (λ db. rw (a, b, store_candles_and_gaps, storing) refl)
      | inr b ↦ elim (Bool-cases (fails upsert_gaps)) [
        | inl c ↦ inl (λ db. rw (a, b, c, store_candles_and_gaps, storing) refl)
        | inr c ↦ elim (Bool-cases (fails commit)) [
          | inl d ↦ inl (λ db. rw (a, b, c, d, store_candles_and_gaps, storing) refl)
          | inr d ↦ inr (λ db.
              rw (a, b, c, d, store_candles_and_gaps, storing) (rw (a, b, c, d, storing) refl))
        ]
      ]
    ]
  ]

  -- Storing a download either raises and leaves the database as it was, or it returns, and storing
  -- the same download again returns too and leaves the same row at every primary key of both tables.
  -- Whether a statement fails is taken not to change in between.
  pub store_candles_and_gaps_twice :
      (stale : Option (List ℕ)) (db : CandleDb D) (k : Key)
      → (store_candles_and_gaps fails candles gaps symbol interval detected_at_ms stale db
          ≡ (raise storage_error, db))
        ⊎ ((once : CandleDb D) × (again : CandleDb D) × (store_candles_and_gaps fails candles gaps
                symbol interval detected_at_ms stale db
              ≡ (ok tt, once))
            × (store_candles_and_gaps fails candles gaps symbol interval detected_at_ms stale once
                ≡ (ok tt, again))
            × (row_at candle_key k again.candles ≡ row_at candle_key k once.candles)
            × (row_at gap_key k again.candle_gaps ≡ row_at gap_key k once.candle_gaps))
  store_candles_and_gaps_twice stale db k = elim (store_candles_and_gaps-IsDecided stale) [
    | inl fails_always ↦ inl (fails_always db)
    | inr writes ↦ inr (
      written stale db,
      written stale (written stale db),
      writes db,
      writes (written stale db),
      upserts_twice candle_key k candles db.candles,
      replace_rows_twice gap_key k (stale_keys symbol interval stale)
          (gap_rows gaps symbol interval detected_at_ms) db.candle_gaps,
    )
  ]
