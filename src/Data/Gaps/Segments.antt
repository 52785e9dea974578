-- ===== src/Data/Gaps/Segments.antt =====
-- The segments and gaps that `partition_into_segments` returns.
use mathlib.Core.List.{append_assoc, append-nil, flatten}
use binance_testnet_trading.Base.{
  Bool-cases, List, Result-cases, String, [], ap, arith, inl, inr, last?, leb, ok, refl, some, ℕ,
  ◌++◌, ◌+◌, ◌-◌, ◌<◌, ◌==◌, ◌∷◌, ◌≡◌, ◌≢◌,
}
use binance_testnet_trading.Data.{Candle, interval_to_ms}
use binance_testnet_trading.Data.Gaps.{
  GapRecord, SegmentationResult, append_last, gap_between, note_gap, partition_into_segments,
  partition_loop, with_candle,
}
use binance_testnet_trading.Data.Validation.{seen_before}

module _ {D : Type 0} where
  -- A segment: not empty, each candle one interval after the one before it, ending in `p`.
  abbrev pub Run : ℕ → List (Candle D) → Candle D → Type 0
  Run gap [] p = ⊥
  Run gap (x ∷ []) p = x ≡ p
  Run gap (x ∷ y ∷ ys) p = (y.open_time_ms ≡ x.open_time_ms + gap) × Run gap (y ∷ ys) p

  -- `g` records the hole between the candle `q` and the segment that comes next.
  abbrev pub GapAfter : ℕ → Candle D → GapRecord → List (Candle D) → Type 0
  GapAfter gap q g [] = ⊥
  GapAfter gap q g (c ∷ cs) =
      (g ≡ gap_between gap q c)
      × (q.open_time_ms < c.open_time_ms)
      × (c.open_time_ms ≢ q.open_time_ms + gap)

  -- Segments with one recorded gap between each two of them, the last one ending in `p`.
  abbrev pub IsSplit : ℕ → List (List (Candle D)) → List GapRecord → Candle D → Type 0
  IsSplit gap [] gaps p = ⊥
  IsSplit gap (s ∷ []) [] p = Run gap s p
  IsSplit gap (s ∷ []) (g ∷ gaps) p = ⊥
  IsSplit gap (s ∷ t ∷ ts) [] p = ⊥
  IsSplit gap (s ∷ t ∷ ts) (g ∷ gaps) p =
      ((q : Candle D) × Run gap s q × GapAfter gap q g t) × IsSplit gap (t ∷ ts) gaps p

  Run-follow :
      (gap : ℕ) (s : List (Candle D)) (p c : Candle D)
      → Run gap s p
      → c.open_time_ms ≡ p.open_time_ms + gap
      → Run gap (s ++ c ∷ []) c
  Run-follow gap [] p c r e = elim r [ ]
  Run-follow gap (x ∷ []) p c r e = (rw r e, refl)
  Run-follow gap (x ∷ y ∷ ys) p c r e = (r.0, Run-follow gap (y ∷ ys) p c r.1 e)

  GapAfter-follow :
      (gap : ℕ) (q : Candle D) (g : GapRecord) (t : List (Candle D)) (c : Candle D)
      → GapAfter gap q g t
      → GapAfter gap q g (t ++ c ∷ [])
  GapAfter-follow gap q g [] c h = elim h [ ]
  GapAfter-follow gap q g (x ∷ xs) c h = h

  IsSplit-follow :
      (gap : ℕ) (ss : List (List (Candle D))) (gaps : List GapRecord) (p c : Candle D)
      → IsSplit gap ss gaps p
      → c.open_time_ms ≡ p.open_time_ms + gap
      → IsSplit gap (append_last ss c) gaps c
  IsSplit-follow gap [] gaps p c h e = elim h [ ]
  IsSplit-follow gap (s ∷ []) [] p c h e = Run-follow gap s p c h e
  IsSplit-follow gap (s ∷ []) (g ∷ gaps) p c h e = elim h [ ]
  IsSplit-follow gap (s ∷ t ∷ ts) [] p c h e = elim h [ ]
  IsSplit-follow gap (s ∷ t ∷ []) (g ∷ gaps) p c h e = (
    (h.0.0, h.0.1, GapAfter-follow gap h.0.0 g t c h.0.2),
    IsSplit-follow gap (t ∷ []) gaps p c h.1 e,
  )
  IsSplit-follow gap (s ∷ t ∷ u ∷ us) (g ∷ gaps) p c h e =
      (h.0, IsSplit-follow gap (t ∷ u ∷ us) gaps p c h.1 e)

  IsSplit-open :
      (gap : ℕ) (ss : List (List (Candle D))) (gaps : List GapRecord) (p c : Candle D)
      → IsSplit gap ss gaps p
      → p.open_time_ms < c.open_time_ms
      → c.open_time_ms ≢ p.open_time_ms + gap
      → IsSplit gap (append_last (ss ++ [] ∷ []) c) (gaps ++ gap_between gap p c ∷ []) c
  IsSplit-open gap [] gaps p c h l n = elim h [ ]
  IsSplit-open gap (s ∷ []) [] p c h l n = ((p, h, (refl, l, n)), refl)
  IsSplit-open gap (s ∷ []) (g ∷ gaps) p c h l n = elim h [ ]
  IsSplit-open gap (s ∷ t ∷ ts) [] p c h l n = elim h [ ]
  IsSplit-open gap (s ∷ t ∷ []) (g ∷ gaps) p c h l n =
      (h.0, IsSplit-open gap (t ∷ []) gaps p c h.1 l n)
  IsSplit-open gap (s ∷ t ∷ u ∷ us) (g ∷ gaps) p c h l n =
      (h.0, IsSplit-open gap (t ∷ u ∷ us) gaps p c h.1 l n)

  flatten-append_last :
      (ss : List (List (Candle D))) (c : Candle D)
      → flatten (append_last ss c) ≡ flatten ss ++ c ∷ []
  unfolding flatten
  flatten-append_last [] c = refl
  flatten-append_last (s ∷ []) c = simp append-nil
  flatten-append_last (s ∷ t ∷ ts) c = simp (flatten-append_last (t ∷ ts) c, append_assoc)

  flatten-open : (ss : List (List (Candle D))) → flatten (ss ++ [] ∷ []) ≡ flatten ss
  unfolding flatten
  flatten-open [] = refl
  flatten-open (s ∷ ss) = ap (λ l. s ++ l) (flatten-open ss)

  -- What the loop has established when `p` is the candle that it last added.
  abbrev IsDone : ℕ → List (Candle D) → Candle D → SegmentationResult D → Type 0
  IsDone gap done p acc = (flatten acc.segments ≡ done) × IsSplit gap acc.segments acc.gaps p

  note_gap-IsDone :
      (gap : ℕ) (done : List (Candle D)) (p c : Candle D) (acc : SegmentationResult D)
      {next : SegmentationResult D}
      → IsDone gap done p acc
      → note_gap gap (some p) c acc ≡ ok next
      → IsDone gap (done ++ c ∷ []) c (with_candle next c)
  unfolding note_gap
  note_gap-IsDone gap done p c acc {next = next} h e =
      elim (Bool-cases (leb c.open_time_ms p.open_time_ms)) [
        | inl late ↦ ground arith
        | inr later ↦ elim (Bool-cases (c.open_time_ms - p.open_time_ms == gap)) [
          | inl follows ↦
              let same : next ≡ acc = ground arith in
              rw same (
                rw (flatten-append_last acc.segments c, h.0) refl,
                IsSplit-follow gap acc.segments acc.gaps p c h.1 (ground arith),
              )
          | inr apart ↦
              let opened : next ≡ record {
                segments = acc.segments ++ [] ∷ [];
                gaps = acc.gaps ++ gap_between gap p c ∷ [];
              } =
                ground arith in
              rw opened (
                rw (flatten-append_last (acc.segments ++ [] ∷ []) c, flatten-open acc.segments, h.0)
                    refl,
                IsSplit-open gap acc.segments acc.gaps p c h.1 (ground arith) (ground arith),
              )
        ]
      ]

  partition_loop-IsDone :
      (gap : ℕ) (seen : List ℕ) (done : List (Candle D)) (p : Candle D) (cs : List (Candle D))
      (acc : SegmentationResult D) {res : SegmentationResult D}
      → IsDone gap done p acc
      → partition_loop gap seen (some p) cs acc ≡ ok res
      → (q : Candle D) × (last? (p ∷ cs) ≡ some q) × IsDone gap (done ++ cs) q res
  unfolding partition_loop
  partition_loop-IsDone gap seen done p [] acc {res = res} h e =
      let same : res ≡ acc = ground arith in rw same (p, refl, (rw append-nil h.0, h.1))
  partition_loop-IsDone gap seen done p (c ∷ cs) acc {res = res} h e =
      elim (Bool-cases (seen_before seen c)) [
        | inl dup ↦ ground arith
        | inr fresh ↦ elim (Result-cases (note_gap gap (some p) c acc)) [
          | inl (next, en) ↦
              let rest : partition_loop gap (c.open_time_ms ∷ seen) (some c) cs (with_candle next c)
                  ≡ ok res =
                ground arith in
              let (q, last, found) =
                partition_loop-IsDone gap (c.open_time_ms ∷ seen) (done ++ c ∷ []) c cs
                  (with_candle next c) (note_gap-IsDone gap done p c acc h en) rest in
              (q, last, (rw append_assoc at found.0, found.1))
          | inr (x, en) ↦ ground arith
        ]
      ]

  -- When `partition_into_segments` returns, the interval is a supported one; the segments joined in
  -- order are the input, none dropped, added or moved; each segment is contiguous; and between each
  -- two segments stands one record, which is that of the hole between the last candle of the one and
  -- the first of the other: a later candle that does not open one interval after.
  pub partition_into_segments_splits :
      (cs : List (Candle D)) (interval : String) {res : SegmentationResult D}
      → partition_into_segments cs interval ≡ ok res
      → (flatten res.segments ≡ cs)
        × ((gap : ℕ) × (p : Candle D) × (interval_to_ms interval ≡ ok gap)
            × (last? cs ≡ some p)
            × IsSplit gap res.segments res.gaps p)
  unfolding partition_into_segments partition_loop note_gap flatten
  partition_into_segments_splits [] interval e = ground arith
  partition_into_segments_splits (c ∷ cs) interval {res = res} e =
      elim (Result-cases (interval_to_ms interval)) [
        | inl (gap, known) ↦
            let first : SegmentationResult D = record { segments = (c ∷ []) ∷ []; gaps = [] } in
            let run : partition_loop gap (c.open_time_ms ∷ []) (some c) cs first ≡ ok res =
              ground arith in
            let (q, last, found) =
              partition_loop-IsDone gap (c.open_time_ms ∷ []) (c ∷ []) c cs first (refl, refl)
                run in
            (found.0, (gap, q, known, last, found.1))
        | inr (x, unknown) ↦ ground arith
      ]
