-- ===== src/Shadow/Engine/Early.antt =====
-- Candles from before the boundary, under the storing of new candles and in verification.
use binance_testnet_trading.Base.{
  Bool, Bool-cases, List, Option, String, [], ap, arith, false, if◌then◌else◌, inl, inr, keep, leb,
  ltb, refl, some, sym, true, ℕ, ◌<◌, ◌∙◌, ◌∷◌, ◌≡◌,
}
use binance_testnet_trading.Data.{Candle}
use binance_testnet_trading.Data.Storage.{
  CandleDb, candle_key, get_candles, is_in_series, same_key, upsert, upserts,
}
use binance_testnet_trading.Shadow.Boundary.{filter_from_boundary, shadow_start_boundary_ms}
use binance_testnet_trading.Shadow.Store.{ShadowBootstrapState, ShadowDb}
use binance_testnet_trading.Data.Storage.Lookup.{same_key_sound}
use binance_testnet_trading.Shadow.Bootstrap.{verify_bootstrap_complete}
use binance_testnet_trading.Data.History.{sort_by_open_time}

abbrev pub is_early : {D : Type 0} → Candle D → Bool
is_early c = ltb c.open_time_ms shadow_start_boundary_ms

module _ {D : Type 0} where
  early_upsert :
      (c : Candle D) (table : List (Candle D))
      → leb shadow_start_boundary_ms c.open_time_ms ≡ true
      → keep is_early (upsert candle_key c table) ≡ keep is_early table
  unfolding upsert
  early_upsert c [] late =
      let not_early : is_early c ≡ false = ground (arith, late) in rw not_early refl
  early_upsert c (r ∷ rs) late =
      let not_early : is_early c ≡ false = ground (arith, late) in
      let rest = early_upsert c rs late in
      elim (Bool-cases (same_key (candle_key r) (candle_key c))) [
        | inl same ↦
            let time : r.open_time_ms ≡ c.open_time_ms =
              ap (λ k. k.2) (same_key_sound (candle_key r) (candle_key c) same) in
            let replaced : is_early r ≡ false =
              ap (λ t. ltb t shadow_start_boundary_ms) time ∙ not_early in
            rw (same, not_early, replaced) refl
        | inr other ↦ rw other (ap (λ l. if is_early r then r ∷ l else l) rest)
      ]

  pub early_upserts :
      (cs table : List (Candle D))
      → keep is_early (upserts candle_key (filter_from_boundary cs) table) ≡ keep is_early table
  unfolding upserts
  early_upserts [] table = refl
  early_upserts (c ∷ cs) table = elim (Bool-cases (leb shadow_start_boundary_ms c.open_time_ms)) [
    | inl late ↦
        rw (late, upserts)
          (early_upserts cs (upsert candle_key c table) ∙ early_upsert c table late)
    | inr early ↦ rw early (early_upserts cs table)
  ]

keep_within :
    {A : Type 0} (p q : A → Bool) (xs : List A)
    → ((x : A) → p x ≡ true → q x ≡ true)
    → keep p (keep q xs) ≡ keep p xs
keep_within p q [] within = refl
keep_within p q (x ∷ xs) within =
    let rest = keep_within p q xs within in
    elim (Bool-cases (p x)) [
      | inl inside ↦ rw (within x inside, inside) (ap (λ l. x ∷ l) rest)
      | inr outside ↦ elim (Bool-cases (q x)) [
        | inl kept ↦ rw (kept, outside) rest
        | inr left ↦ rw (left, outside) rest
      ]
    ]

module _ {D : Type 0} where
  early_candles :
      (symbol interval : String) (start_time_ms : Option ℕ) (end_time_ms : ℕ) (a b : CandleDb D)
      → end_time_ms < shadow_start_boundary_ms
      → keep is_early a.candles ≡ keep is_early b.candles
      → get_candles symbol interval start_time_ms (some end_time_ms) a
        ≡ get_candles symbol interval start_time_ms (some end_time_ms) b
  unfolding get_candles
  early_candles symbol interval start_time_ms end_time_ms a b early same =
      let in_range = is_in_series symbol interval start_time_ms (some end_time_ms) in
      let within : (c : Candle D) → in_range c ≡ true → is_early c ≡ true =
        λ c inside. ground (arith, inside, early) in
      ap sort_by_open_time (
        sym (keep_within in_range is_early a.candles within)
        ∙ (ap (keep in_range) same ∙ keep_within in_range is_early b.candles within))

module _ {D F : Type 0} where
  -- Verification reads nothing but the record and the candles of its range.
  pub verify_same :
      (symbol interval : String) (a b : CandleDb D) (x y : ShadowDb D F)
      (state : ShadowBootstrapState)
      → state.warmup_last_open_time_ms < shadow_start_boundary_ms
      → keep is_early a.candles ≡ keep is_early b.candles
      → x.bootstrap_state ≡ some state
      → y.bootstrap_state ≡ some state
      → verify_bootstrap_complete symbol interval a x
        ≡ verify_bootstrap_complete symbol interval b y
  unfolding verify_bootstrap_complete
  verify_same symbol interval a b x y state early same first second =
      rw
        (
          first,
          second,
          verify_bootstrap_complete,
          early_candles symbol interval (some state.warmup_start_time_ms)
              state.warmup_last_open_time_ms a b early same,
        )
        refl
