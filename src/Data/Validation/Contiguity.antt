-- ===== src/Data/Validation/Contiguity.antt =====
-- What `validate_candle_sequence` and `validate_not_stale` accept.
use mathlib.Core.Bool.{false}
use binance_testnet_trading.Base.{
  All, List, Option-cases, String, [], arith, inl, inr, last?, ok, refl, some, ℕ, ◌*◌, ◌+◌, ◌<◌,
  ◌↔◌, ◌∷◌, ◌≡◌, ◌≤◌,
}
use binance_testnet_trading.Data.{Candle, interval_to_ms, interval_to_ms_pos}
use binance_testnet_trading.Data.Validation.{
  seen_before, validate_candle_sequence, validate_loop, validate_not_stale,
}

-- No open time of the list lies after `t`.
abbrev pub Behind : ℕ → List ℕ → Type 0
Behind t = All (λ s. s ≤ t)

pub Behind-later : (seen : List ℕ) (t u : ℕ) → t ≤ u → Behind t seen → Behind u seen
Behind-later [] t u le h = tt
Behind-later (s ∷ seen) t u le h = (omega arith, Behind-later seen t u le h.1)

module _ {D : Type 0} where
  -- Each candle opens exactly `gap` after the one before it.
  abbrev pub Follows : ℕ → Candle D → List (Candle D) → Type 0
  Follows gap p [] = Unit {0}
  Follows gap p (c ∷ cs) = (c.open_time_ms ≡ p.open_time_ms + gap) × Follows gap c cs

  abbrev pub IsContiguous : ℕ → List (Candle D) → Type 0
  IsContiguous gap [] = ⊥
  IsContiguous gap (c ∷ cs) = Follows gap c cs

  pub not_seen :
      (seen : List ℕ) (t : ℕ) (c : Candle D)
      → Behind t seen
      → t < c.open_time_ms
      → seen_before seen c ≡ false
  not_seen [] t c h lt = refl
  not_seen (s ∷ seen) t c h lt = ground (arith, not_seen seen t c h.1 lt)

  validate_loop_sound :
      (gap : ℕ) (seen : List ℕ) (p : Candle D) (cs : List (Candle D))
      → validate_loop gap seen (some p) cs ≡ ok tt
      → Follows gap p cs
  unfolding validate_loop
  validate_loop_sound gap seen p [] e = tt
  validate_loop_sound gap seen p (c ∷ cs) e =
      ground (arith, validate_loop_sound gap (c.open_time_ms ∷ seen) c cs)

  validate_loop_complete :
      (gap : ℕ) (seen : List ℕ) (p : Candle D) (cs : List (Candle D))
      → 0 < gap
      → Behind p.open_time_ms seen
      → Follows gap p cs
      → validate_loop gap seen (some p) cs ≡ ok tt
  unfolding validate_loop
  validate_loop_complete gap seen p [] g b f = refl
  validate_loop_complete gap seen p (c ∷ cs) g b f =
      let later = Behind-later seen p.open_time_ms c.open_time_ms (omega arith) b in
      ground (
        arith,
        not_seen seen p.open_time_ms c b,
        validate_loop_complete gap (c.open_time_ms ∷ seen) c cs g (omega arith, later) f.1,
      )

  -- A series is accepted, and returned unchanged, exactly when it is not empty and each candle opens
  -- one interval after the one before it. The interval is a supported one.
  pub validate_candle_sequence_accepts :
      (cs ds : List (Candle D)) (interval : String) {gap : ℕ}
      → interval_to_ms interval ≡ ok gap
      → (validate_candle_sequence cs interval ≡ ok ds) ↔ ((cs ≡ ds) × IsContiguous gap cs)
  unfolding validate_candle_sequence validate_loop
  validate_candle_sequence_accepts [] ds interval e = (λ h. ground arith, λ h. ground arith)
  validate_candle_sequence_accepts (c ∷ cs) ds interval {gap = gap} e =
      let pos = interval_to_ms_pos interval e in
      rw e (
        (λ h. ground (arith, validate_loop_sound gap (c.open_time_ms ∷ []) c cs)),
        (λ h. ground (arith, validate_loop_complete gap (c.open_time_ms ∷ []) c cs pos)),
      )

  -- A series passes the staleness check, unchanged, exactly when it has a last candle and that one
  -- closed at most `max_age_seconds` seconds before the reference time.
  pub validate_not_stale_accepts :
      (cs ds : List (Candle D)) (reference_time_ms max_age_seconds : ℕ)
      → (validate_not_stale cs reference_time_ms max_age_seconds ≡ ok ds) ↔ (
          (cs ≡ ds)
          × ((c : Candle D) × (last? cs ≡ some c)
              × (reference_time_ms ≤ max_age_seconds * 1000 + c.close_time_ms)))
  unfolding validate_not_stale
  validate_not_stale_accepts [] ds r m = (λ h. ground arith, λ h. ground arith)
  validate_not_stale_accepts (c ∷ cs) ds r m = elim (Option-cases (last? (c ∷ cs))) [
    | inl e ↦ (λ h. ground arith, λ h. ground arith)
    | inr (l, e) ↦ ((λ h. (ground arith, (l, e, ground arith))), λ h. ground arith)
  ]
