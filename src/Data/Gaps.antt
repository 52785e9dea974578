-- ===== src/Data/Gaps.antt =====
-- data/gap_detection.py: historical series are split into contiguous segments around their gaps.
pub mod Segments
pub mod Acceptance
use binance_testnet_trading.Base.{
  List, Option, Result, String, [], if◌then◌else◌, leb, none, ok, raise, some, ℕ, ◌++◌, ◌+◌, ◌-◌,
  ◌/◌, ◌==◌, ◌>>=◌, ◌>>◌, ◌∷◌,
}
use binance_testnet_trading.Base.Int.{sub_ℕ, ℤ}
use binance_testnet_trading.Data.{
  Candle, DataError, duplicate_candle, empty_data, interval_to_ms, out_of_order_candle,
}
use binance_testnet_trading.Data.Validation.{seen_before}

pub record GapRecord : Type 0 where
  pub expected_open_time_ms : ℕ
  pub previous_open_time_ms : ℕ
  pub next_open_time_ms : ℕ
  pub missing_intervals : ℤ

pub record SegmentationResult (D : Type 0) : Type 0 where
  pub segments : List (List (Candle D))
  pub gaps : List GapRecord

module _ {D : Type 0} where
  -- `segments[-1].append(candle)`
  abbrev pub append_last : List (List (Candle D)) → Candle D → List (List (Candle D))
  append_last [] c = (c ∷ []) ∷ []
  append_last (s ∷ []) c = (s ++ c ∷ []) ∷ []
  append_last (s ∷ t ∷ ts) c = s ∷ append_last (t ∷ ts) c

  abbrev pub gap_between : ℕ → Candle D → Candle D → GapRecord
  gap_between gap p c = record {
    expected_open_time_ms = p.open_time_ms + gap;
    previous_open_time_ms = p.open_time_ms;
    next_open_time_ms = c.open_time_ms;
    missing_intervals = sub_ℕ ((c.open_time_ms - p.open_time_ms) / gap) 1;
  }

  -- The gap and the new segment that a candle opens, if it does not follow `previous`.
  pub note_gap :
      ℕ
      → Option (Candle D)
      → Candle D
      → SegmentationResult D
      → Result DataError (SegmentationResult D)
  note_gap gap none c acc = ok acc
  note_gap gap (some p) c acc =
      if leb c.open_time_ms p.open_time_ms
      then raise out_of_order_candle
      else if c.open_time_ms - p.open_time_ms == gap
      then ok acc
      else ok (record {
        segments = acc.segments ++ [] ∷ [];
        gaps = acc.gaps ++ gap_between gap p c ∷ [];
      })

  abbrev pub with_candle : SegmentationResult D → Candle D → SegmentationResult D
  with_candle acc c = record acc { segments = append_last acc.segments c }

  pub partition_loop :
      ℕ
      → List ℕ
      → Option (Candle D)
      → List (Candle D)
      → SegmentationResult D
      → Result DataError (SegmentationResult D)
  unfolding note_gap
  partition_loop gap seen previous [] acc = ok acc
  partition_loop gap seen previous (c ∷ cs) acc =
      if seen_before seen c
      then raise duplicate_candle
      else note_gap gap previous c acc >>= λ next.
          partition_loop gap (c.open_time_ms ∷ seen) (some c) cs (with_candle next c)

  unfoldable pub partition_into_segments :
      List (Candle D) → String → Result DataError (SegmentationResult D)
  unfolding partition_loop
  partition_into_segments [] interval = raise empty_data
  partition_into_segments (c ∷ cs) interval = do
    gap ← interval_to_ms interval
    partition_loop gap [] none (c ∷ cs) (record { segments = [] ∷ []; gaps = [] })
