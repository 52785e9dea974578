-- ===== src/Research/Cutoff.antt =====
-- research/cutoff.py: data at or after 2025-05-16T00:00:00Z may not reach a candidate.
use mathlib.Core.List.Perm
use binance_testnet_trading.Base.{
  All, All-keep, Bool-cases, List, Perm, Result, [], arith, false, inl, inr, keep, leb, leb→le, ltb,
  ltb→lt, ok, perm_middle, raise, refl, true, ℕ, ◌++◌, ◌<◌, ◌↔◌, ◌∷◌, ◌≡◌, ◌≤◌,
}
use binance_testnet_trading.Data.{Candle}

-- 2025-05-16T00:00:00Z in milliseconds since the epoch.
abbrev pub research_cutoff_ms : ℕ
research_cutoff_ms = 1_747_353_600_000

-- `ResearchCutoffViolation`
pub data CutoffError : Type 0 where
  research_cutoff_violation : CutoffError

module _ {D : Type 0} where
  pub assert_pre_cutoff : List (Candle D) → Result CutoffError (Unit {0})
  assert_pre_cutoff candles = elim (keep (λ c. leb research_cutoff_ms c.open_time_ms) candles) [
    | [] ↦ ok tt
    | c ∷ cs ↦ raise research_cutoff_violation
  ]

  pub split_at_cutoff : List (Candle D) → List (Candle D) × List (Candle D)
  split_at_cutoff candles = (
    keep (λ c. ltb c.open_time_ms research_cutoff_ms) candles,
    keep (λ c. leb research_cutoff_ms c.open_time_ms) candles,
  )

  abbrev pub IsPreCutoff : List (Candle D) → Type 0
  IsPreCutoff = All (λ c. c.open_time_ms < research_cutoff_ms)

  -- The check passes exactly when every candle opens before the cutoff.
  pub assert_pre_cutoff_passes :
      (cs : List (Candle D)) → (assert_pre_cutoff cs ≡ ok tt) ↔ IsPreCutoff cs
  unfolding assert_pre_cutoff
  assert_pre_cutoff_passes [] = (λ h. tt, λ h. refl)
  assert_pre_cutoff_passes (c ∷ cs) = elim (Bool-cases (leb research_cutoff_ms c.open_time_ms)) [
    | inl late ↦ rw (late, assert_pre_cutoff) (λ h. cc, λ h. absurd (ground (arith, h.0)))
    | inr early ↦
        rw (early, assert_pre_cutoff)
          (
            λ h. (ground arith, (assert_pre_cutoff_passes cs).0 h),
            λ h. (assert_pre_cutoff_passes cs).1 h.1,
          )
  ]

  keep_perm :
      (cs : List (Candle D))
      → Perm
          (keep (λ c. ltb c.open_time_ms research_cutoff_ms) cs
            ++ keep (λ c. leb research_cutoff_ms c.open_time_ms) cs)
          cs
  keep_perm [] = Perm.refl []
  keep_perm (c ∷ cs) = elim (Bool-cases (ltb c.open_time_ms research_cutoff_ms)) [
    | inl early ↦
        let not_late : leb research_cutoff_ms c.open_time_ms ≡ false = ground arith in
        rw (early, not_late) (Perm.cons c (keep_perm cs))
    | inr late ↦
        let is_late : leb research_cutoff_ms c.open_time_ms ≡ true = ground arith in
        rw (late, is_late) (Perm.trans (perm_middle _ _) (Perm.cons c (keep_perm cs)))
  ]

  -- The first part of a split passes the check, every candle of the second opens at or after the
  -- cutoff, and together they hold the candles of the input, each as often.
  pub split_at_cutoff_separates :
      (cs : List (Candle D))
      → let (pre, consumed) = split_at_cutoff cs in
        (assert_pre_cutoff pre ≡ ok tt)
        × All (λ c. research_cutoff_ms ≤ c.open_time_ms) consumed
        × Perm (pre ++ consumed) cs
  unfolding split_at_cutoff
  split_at_cutoff_separates cs = (
    (assert_pre_cutoff_passes _).1 (All-keep _ _ (λ c h. ltb→lt _ _ h) cs),
    All-keep _ _ (λ c h. leb→le _ _ h) cs,
    keep_perm cs,
  )
