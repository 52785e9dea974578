-- ===== src/Shadow/Boundary.antt =====
-- shadow/boundary.py: shadow mode has no candle of its own from before a fixed instant.
use text.Mathlib.Text.{◌==◌ as str_eq}
use binance_testnet_trading.Base.{
  Bool-cases, List, Option, Result, String, [], arith, false, if◌then◌else◌, inl, inr, keep, leb,
  ltb, none, not, ok, raise, refl, some, ℕ, ◌∷◌, ◌≡◌,
}
use binance_testnet_trading.Data.{Candle}

-- 2026-09-06T00:00:00Z in milliseconds since the epoch.
abbrev pub shadow_start_boundary_ms : ℕ
shadow_start_boundary_ms = 1_788_652_800_000

abbrev pub required_shadow_interval : String
required_shadow_interval = "1h"

-- ShadowConfigError and ShadowBoundaryViolation
pub data BoundaryError : Type 0 where
  shadow_config_error shadow_boundary_violation : BoundaryError

module _ {D : Type 0} where
  unfoldable pub assert_no_pre_boundary_candles : List (Candle D) → Result BoundaryError (Unit {0})
  assert_no_pre_boundary_candles candles =
      elim (keep (λ c. ltb c.open_time_ms shadow_start_boundary_ms) candles) [
        | [] ↦ ok tt
        | c ∷ cs ↦ raise shadow_boundary_violation
      ]

  abbrev pub filter_from_boundary : List (Candle D) → List (Candle D)
  filter_from_boundary = keep (λ c. leb shadow_start_boundary_ms c.open_time_ms)

  -- What the filter lets through passes the check.
  pub filter_from_boundary_passes :
      (cs : List (Candle D)) → assert_no_pre_boundary_candles (filter_from_boundary cs) ≡ ok tt
  unfolding assert_no_pre_boundary_candles
  filter_from_boundary_passes [] = refl
  filter_from_boundary_passes (c ∷ cs) =
      let rest = filter_from_boundary_passes cs in
      elim (Bool-cases (leb shadow_start_boundary_ms c.open_time_ms)) [
        | inl late ↦
            let not_early : ltb c.open_time_ms shadow_start_boundary_ms ≡ false =
              ground (arith, late) in
            rw (late, assert_no_pre_boundary_candles, not_early) rest
        | inr early ↦ rw early rest
      ]

-- The mode of the configuration, by its value, and the interval.
unfoldable pub assert_valid_shadow_config : Option String → String → Result BoundaryError (Unit {0})
assert_valid_shadow_config none interval = raise shadow_config_error
assert_valid_shadow_config (some mode) interval =
    if not (str_eq mode "shadow")
    then raise shadow_config_error
    else if not (str_eq interval required_shadow_interval)
    then raise shadow_config_error
    else ok tt
