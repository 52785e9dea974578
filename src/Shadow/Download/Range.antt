-- ===== src/Shadow/Download/Range.antt =====
-- Candles that are put into a store with no other candle in their range.
use text.Mathlib.TextEquality.{eq_iff}
use mathlib.Core.List.{append_assoc}
use mathlib.Core.Path.{subst}
use binance_testnet_trading.Data.History.Series.{IsOf}
use binance_testnet_trading.Base.{
  All, All-append, Bool, Bool-cases, List, Option-cases, String, [], ap, arith, inl, inr, keep,
  last?, refl, some, true, ℕ, ◌++◌, ◌<◌, ◌∙◌, ◌∷◌, ◌≡◌, ◌≤◌,
}
use binance_testnet_trading.Data.{Candle}
use binance_testnet_trading.Data.History.{sort_by_open_time}
use binance_testnet_trading.Data.History.Dictionary.{sort_by_open_time-Ascends}
use binance_testnet_trading.Data.Storage.{
  CandleDb, candle_key, get_candles, is_in_series, same_key, upsert, upserts,
}
use binance_testnet_trading.Data.Storage.Lookup.{same_key_sound}
use binance_testnet_trading.Data.Gaps.Acceptance.{Ascends}
use binance_testnet_trading.Shadow.Store.{ShadowBootstrapState}
use binance_testnet_trading.Shadow.Bootstrap.{covers_range}

module _ {D : Type 0} (symbol interval : String) (first last : ℕ) where
  abbrev pub in_range : Candle D → Bool
  in_range = is_in_series symbol interval (some first) (some last)

  in_range_same : (a b : Candle D) → candle_key a ≡ candle_key b → in_range a ≡ in_range b
  in_range_same a b same = rw (ap (λ k. k.0) same, ap (λ k. k.1) same, ap (λ k. k.2) same) refl

  keep-upsert :
      (c : Candle D) (table : List (Candle D))
      → in_range c ≡ true
      → keep in_range (upsert candle_key c table) ≡ upsert candle_key c (keep in_range table)
  unfolding upsert
  keep-upsert c [] inside = rw inside refl
  keep-upsert c (r ∷ rs) inside =
      let rest = keep-upsert c rs inside in
      elim (Bool-cases (same_key (candle_key r) (candle_key c))) [
        | inl same ↦
            let replaced : in_range r ≡ true =
              in_range_same r c (same_key_sound (candle_key r) (candle_key c) same) ∙ inside in
            rw (same, inside, replaced, same) refl
        | inr other ↦ elim (Bool-cases (in_range r)) [
          | inl kept ↦ rw (other, kept, other) (ap (λ l. r ∷ l) rest)
          | inr left ↦ rw (other, left) rest
        ]
      ]

  keep-upserts :
      (cs table : List (Candle D))
      → All (λ c. in_range c ≡ true) cs
      → keep in_range (upserts candle_key cs table) ≡ upserts candle_key cs (keep in_range table)
  unfolding upserts
  keep-upserts [] table inside = refl
  keep-upserts (c ∷ cs) table inside =
      keep-upserts cs (upsert candle_key c table) inside.1
      ∙ ap (upserts candle_key cs) (keep-upsert c table inside.0)

module _ {D : Type 0} where
  upsert_later :
      (c : Candle D) (table : List (Candle D))
      → All (λ r. r.open_time_ms < c.open_time_ms) table
      → upsert candle_key c table ≡ table ++ (c ∷ [])
  unfolding upsert
  upsert_later c [] later = refl
  upsert_later c (r ∷ rs) later = elim (Bool-cases (same_key (candle_key r) (candle_key c))) [
    | inl same ↦
        let times = ap (λ k. k.2) (same_key_sound (candle_key r) (candle_key c) same) in
        let before = later.0 in absurd (omega (arith, times, before))
    | inr other ↦ rw other (ap (λ l. r ∷ l) (upsert_later c rs later.1))
  ]

  All_before :
      (t u : ℕ) (table : List (Candle D))
      → t < u
      → All (λ r. r.open_time_ms < t) table
      → All (λ r. r.open_time_ms < u) table
  All_before t u [] lt later = tt
  All_before t u (r ∷ rs) lt later =
      let head = later.0 in (omega (arith, lt, head), All_before t u rs lt later.1)

  upserts_later :
      (c : Candle D) (cs table : List (Candle D))
      → Ascends c cs
      → All (λ r. r.open_time_ms < c.open_time_ms) table
      → upserts candle_key (c ∷ cs) table ≡ table ++ (c ∷ cs)
  unfolding upserts
  upserts_later c [] table ascends later = upsert_later c table later
  upserts_later c (d ∷ ds) table ascends later =
      let earlier = All_before c.open_time_ms d.open_time_ms table ascends.0 later in
      rw (upsert_later c table later) (
        upserts_later d ds (table ++ (c ∷ [])) ascends.1
          (All-append _ table (c ∷ []) earlier (ascends.0, tt))
        ∙ append_assoc table (c ∷ []) (d ∷ ds))

  lower_bound :
      (t : ℕ) (c : Candle D) (cs : List (Candle D))
      → t ≤ c.open_time_ms
      → Ascends c cs
      → All (λ r. t ≤ r.open_time_ms) (c ∷ cs)
  lower_bound t c [] le ascends = (le, tt)
  lower_bound t c (d ∷ ds) le ascends =
      let step = ascends.0 in (le, lower_bound t d ds (omega (arith, le, step)) ascends.1)

  upper_bound :
      (c : Candle D) (cs : List (Candle D)) (last : Candle D)
      → Ascends c cs
      → last? (c ∷ cs) ≡ some last
      → All (λ r. r.open_time_ms ≤ last.open_time_ms) (c ∷ cs)
  upper_bound c [] last ascends ends =
      let same : c.open_time_ms ≡ last.open_time_ms = ground (arith, ends) in
      (omega (arith, same), tt)
  upper_bound c (d ∷ ds) last ascends ends =
      let rest = upper_bound d ds last ascends.1 ends in
      let step = ascends.0 in let head = rest.0 in (omega (arith, step, head), rest)

  all_in_range :
      (symbol interval : String) (first last : ℕ) (cs : List (Candle D))
      → All (IsOf symbol interval) cs
      → All (λ r. first ≤ r.open_time_ms) cs
      → All (λ r. r.open_time_ms ≤ last) cs
      → All (λ c. in_range symbol interval first last c ≡ true) cs
  all_in_range symbol interval first last [] of_series from to = tt
  all_in_range symbol interval first last (c ∷ cs) of_series from to =
      let a = (eq_iff c.symbol symbol).1 of_series.0.0 in
      let b = (eq_iff c.interval interval).1 of_series.0.1 in
      let lower = from.0 in
      let upper = to.0 in
      (
        ground (arith, a, b, lower, upper),
        all_in_range symbol interval first last cs of_series.1 from.1 to.1,
      )

  -- What the store gives back for the range after the candles were put there.
  pub stored_range :
      (symbol interval : String) (state : ShadowBootstrapState) (c : Candle D)
      (cs : List (Candle D)) (db : CandleDb D)
      → Ascends c cs
      → covers_range state (c ∷ cs) ≡ true
      → All (IsOf symbol interval) (c ∷ cs)
      → keep
          (in_range symbol interval state.warmup_start_time_ms state.warmup_last_open_time_ms)
          db.candles
        ≡ []
      → get_candles symbol interval
          (some state.warmup_start_time_ms)
          (some state.warmup_last_open_time_ms)
          (record db { candles = upserts candle_key (c ∷ cs) db.candles })
        ≡ c ∷ cs
  unfolding get_candles
  stored_range symbol interval state c cs db ascends covers of_series empty =
      elim (Option-cases (last? (c ∷ cs))) [
        | inl nothing ↦ absurd (ground (arith, nothing, covers))
        | inr (last, ends) ↦
            let first : c.open_time_ms ≡ state.warmup_start_time_ms =
              ground (arith, covers, ends) in
            let final : last.open_time_ms ≡ state.warmup_last_open_time_ms =
              ground (arith, covers, ends) in
            let to =
              subst (λ t. All (λ r. r.open_time_ms ≤ t) (c ∷ cs)) final
                (upper_bound c cs last ascends ends) in
            let inside =
              all_in_range symbol interval state.warmup_start_time_ms state.warmup_last_open_time_ms
                (c ∷ cs) of_series
                (lower_bound state.warmup_start_time_ms c cs (omega (arith, first)) ascends) to in
            ap sort_by_open_time (
              keep-upserts symbol interval state.warmup_start_time_ms state.warmup_last_open_time_ms
                (c ∷ cs) db.candles inside
              ∙ (ap (upserts candle_key (c ∷ cs)) empty ∙ upserts_later c cs [] ascends tt))
            ∙ sort_by_open_time-Ascends c cs ascends
      ]
