-- ===== src/Data/Gaps/Acceptance.antt =====
-- Which series `partition_into_segments` accepts, and how that agrees with live validation.

use native.Mathlib.Nat.{mod-lt}
use native.Mathlib.Nat.{div-add-mod'}
use native.Mathlib.Nat.{div-eq-sub-div}
use native.Mathlib.Nat.{div-eq_of_lt}
use mathlib.Core.List.{append-nil}
use native.Mathlib.Decide.{dec_lt}
use mathlib.Core.List.{flatten}
use binance_testnet_trading.Base.{
  Bool-cases, List, Result-cases, String, [], arith, inl, inr, ok, refl, some, ℕ, ◌%◌, ◌*◌, ◌++◌,
  ◌+◌, ◌-◌, ◌/◌, ◌<◌, ◌==◌, ◌↔◌, ◌∷◌, ◌≡◌, ◌≢◌, ◌⊎◌,
}
use binance_testnet_trading.Data.{Candle, interval_to_ms}
use binance_testnet_trading.Data.Validation.Contiguity.{
  Behind, Behind-later, Follows, not_seen, validate_candle_sequence_accepts,
}
use binance_testnet_trading.Data.Gaps.{
  SegmentationResult, gap_between, note_gap, partition_into_segments, partition_loop, with_candle,
}
use binance_testnet_trading.Data.Gaps.Segments.{IsSplit, Run, partition_into_segments_splits}
use binance_testnet_trading.Data.Validation.{validate_candle_sequence}
use binance_testnet_trading.Base.Int.{negsuc, pos}

module _ {D : Type 0} where
  -- Each candle opens after the one before it.
  abbrev pub Ascends : Candle D → List (Candle D) → Type 0
  Ascends p [] = Unit {0}
  Ascends p (c ∷ cs) = (p.open_time_ms < c.open_time_ms) × Ascends c cs

  abbrev pub IsAscending : List (Candle D) → Type 0
  IsAscending [] = ⊥
  IsAscending (c ∷ cs) = Ascends c cs

  note_gap_returns :
      (gap : ℕ) (p c : Candle D) (acc : SegmentationResult D)
      → p.open_time_ms < c.open_time_ms
      → (next : SegmentationResult D) × (note_gap gap (some p) c acc ≡ ok next)
  unfolding note_gap
  note_gap_returns gap p c acc lt = elim (Bool-cases (c.open_time_ms - p.open_time_ms == gap)) [
    | inl follows ↦ (acc, ground arith)
    | inr apart ↦ (
      record { segments = acc.segments ++ [] ∷ []; gaps = acc.gaps ++ gap_between gap p c ∷ [] },
      ground arith,
    )
  ]

  partition_loop_returns :
      (gap : ℕ) (seen : List ℕ) (p : Candle D) (cs : List (Candle D)) (acc : SegmentationResult D)
      → Behind p.open_time_ms seen
      → Ascends p cs
      → (res : SegmentationResult D) × (partition_loop gap seen (some p) cs acc ≡ ok res)
  unfolding partition_loop
  partition_loop_returns gap seen p [] acc b a = (acc, refl)
  partition_loop_returns gap seen p (c ∷ cs) acc b a =
      let (next, stepped) = note_gap_returns gap p c acc a.0 in
      let later = Behind-later seen p.open_time_ms c.open_time_ms (omega arith) b in
      let (res, rest) =
        partition_loop_returns gap (c.open_time_ms ∷ seen) c cs (with_candle next c)
          (omega arith, later) a.1 in
      (res, rw (not_seen seen p.open_time_ms c b a.0, stepped) rest)

  partition_loop-Ascends :
      (gap : ℕ) (seen : List ℕ) (p : Candle D) (cs : List (Candle D)) (acc : SegmentationResult D)
      {res : SegmentationResult D}
      → partition_loop gap seen (some p) cs acc ≡ ok res
      → Ascends p cs
  unfolding partition_loop note_gap
  partition_loop-Ascends gap seen p [] acc e = tt
  partition_loop-Ascends gap seen p (c ∷ cs) acc {res = res} e =
      elim (Result-cases (note_gap gap (some p) c acc)) [
        | inl (next, en) ↦ (
          ground arith,
          partition_loop-Ascends gap (c.open_time_ms ∷ seen) c cs (with_candle next c) {res = res}
              (ground arith),
        )
        | inr (x, en) ↦ ground arith
      ]

  -- With a supported interval, `partition_into_segments` returns exactly when the series is not empty
  -- and its candles open in strictly increasing order; it raises otherwise.
  pub partition_into_segments_returns :
      (cs : List (Candle D)) (interval : String) {gap : ℕ}
      → interval_to_ms interval ≡ ok gap
      → ((res : SegmentationResult D) × (partition_into_segments cs interval ≡ ok res))
        ↔ IsAscending cs
  unfolding partition_into_segments partition_loop note_gap
  partition_into_segments_returns [] interval e = (λ h. ground (arith, h.1), λ h. elim h [ ])
  partition_into_segments_returns (c ∷ cs) interval {gap = gap} e =
      let first : SegmentationResult D = record { segments = (c ∷ []) ∷ []; gaps = [] } in
      rw e (
        (λ h. partition_loop-Ascends gap (c.open_time_ms ∷ []) c cs first {res = h.0} h.1),
        λ h. partition_loop_returns gap (c.open_time_ms ∷ []) c cs first (omega arith, tt) h,
      )

  Run-Follows :
      (gap : ℕ) (c : Candle D) (cs : List (Candle D)) (p : Candle D)
      → Run gap (c ∷ cs) p
      → Follows gap c cs
  Run-Follows gap c [] p r = tt
  Run-Follows gap c (d ∷ ds) p r = (r.0, Run-Follows gap d ds p r.1)

  IsSplit-one :
      (gap : ℕ) (ss : List (List (Candle D))) (p : Candle D)
      → IsSplit gap ss [] p
      → Run gap (flatten ss) p
  unfolding flatten
  IsSplit-one gap [] p h = elim h [ ]
  IsSplit-one gap (s ∷ []) p h = rw append-nil h
  IsSplit-one gap (s ∷ t ∷ ts) p h = elim h [ ]

  partition_loop-Follows :
      (gap : ℕ) (seen : List ℕ) (p : Candle D) (cs : List (Candle D)) (acc : SegmentationResult D)
      {res : SegmentationResult D}
      → Follows gap p cs
      → partition_loop gap seen (some p) cs acc ≡ ok res
      → res.gaps ≡ acc.gaps
  unfolding partition_loop note_gap
  partition_loop-Follows gap seen p [] acc f e = ground arith
  partition_loop-Follows gap seen p (c ∷ cs) acc {res = res} f e =
      partition_loop-Follows gap (c.open_time_ms ∷ seen) c cs (with_candle acc c) {res = res} f.1
        (ground arith)

  partition_into_segments-run :
      (c : Candle D) (cs : List (Candle D)) (interval : String) {gap : ℕ}
      {res : SegmentationResult D}
      → interval_to_ms interval ≡ ok gap
      → partition_into_segments (c ∷ cs) interval ≡ ok res
      → partition_loop gap
          (c.open_time_ms ∷ [])
          (some c)
          cs
          (record { segments = (c ∷ []) ∷ []; gaps = [] })
        ≡ ok res
  unfolding partition_into_segments partition_loop note_gap
  partition_into_segments-run c cs interval known e = ground arith

  partition_into_segments_returns-ne :
      (cs : List (Candle D)) (interval : String) {res : SegmentationResult D}
      → partition_into_segments cs interval ≡ ok res
      → cs ≢ []
  unfolding partition_into_segments
  partition_into_segments_returns-ne [] interval e h = ground arith
  partition_into_segments_returns-ne (c ∷ cs) interval e h = cc

  -- Where the research split returns, it has found no gap exactly when the live check accepts the same
  -- series for the same interval.
  pub partition-no_gaps_iff_validate :
      (cs : List (Candle D)) (interval : String) {res : SegmentationResult D}
      → partition_into_segments cs interval ≡ ok res
      → (res.gaps ≡ []) ↔ (validate_candle_sequence cs interval ≡ ok cs)
  partition-no_gaps_iff_validate [] interval {res = res} e =
      absurd (partition_into_segments_returns-ne [] interval {res = res} e refl)
  partition-no_gaps_iff_validate (c ∷ cs) interval {res = res} e =
      let (joined, found) = partition_into_segments_splits (c ∷ cs) interval e in
      let (gap, p, known, last, split) = found in
      let accepts = validate_candle_sequence_accepts (c ∷ cs) (c ∷ cs) interval known in
      (
        (λ h.
            let one : IsSplit gap res.segments [] p = rw h at split in
            let run : Run gap (c ∷ cs) p = rw joined at (IsSplit-one gap res.segments p one) in
            accepts.1 (refl, Run-Follows gap c cs p run)),
        λ h.
            partition_loop-Follows gap (c.open_time_ms ∷ []) c cs
              (record { segments = (c ∷ []) ∷ []; gaps = [] }) {res = res} (accepts.0 h).1
              (partition_into_segments-run c cs interval known e),
      )

  -- For a candle after `p` the record of the hole counts the whole intervals that are absent: the
  -- later candle opens that many intervals, and a rest shorter than one, after the expected time. If
  -- it opens less than one interval after `p`, the count is -1.
  pub missing_intervals_count :
      (gap : ℕ) (p c : Candle D)
      → 0 < gap
      → p.open_time_ms < c.open_time_ms
      → let g = gap_between gap p c in
        ((n rest : ℕ) × (g.missing_intervals ≡ pos n)
          × (c.open_time_ms ≡ g.expected_open_time_ms + n * gap + rest)
          × (rest < gap))
        ⊎ ((g.missing_intervals ≡ negsuc 0) × (c.open_time_ms < g.expected_open_time_ms))
  missing_intervals_count gap p c positive lt =
      let d = c.open_time_ms - p.open_time_ms in
      elim (dec_lt d gap) [
        | yes short ↦
            let none_whole : d / gap ≡ 0 = div-eq_of_lt short in
            inr (ground (arith, none_whole), omega arith)
        | no long ↦
            let e = d - gap in
            let whole : d / gap ≡ e / gap + 1 = div-eq-sub-div positive (omega arith) in
            let parts = div-add-mod' e gap in
            inl (e / gap, e % gap, ground (arith, whole), omega (arith, parts), mod-lt e positive)
      ]
