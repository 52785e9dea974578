-- ===== src/Data/Forensics/Verdicts.antt =====
-- What `_analyze_one_gap` of data/gap_recovery.py returns.
use mathlib.Core.List.{map-append}
use binance_testnet_trading.Base.{
  All, All-append, All-keep, Bool, Bool-cases, List, Option, Option-cases, String, [], ap, arith,
  if◌then◌else◌, inl, inr, keep, leb, length, ltb, ltb→lt, map, none, refl, some, suc, true, ℕ, ◌+◌,
  ◌<◌, ◌∙◌, ◌∷◌, ◌≡◌,
}
use binance_testnet_trading.Numbers.{Decimals, Floats, IsOrdered}
use binance_testnet_trading.Data.Ingestion.{KlineRequest}
use binance_testnet_trading.Data.History.{PageAnswer}
use binance_testnet_trading.Data.{Candle}
use binance_testnet_trading.Data.History.Paging.{StartsPages}
use binance_testnet_trading.Data.Forensics.Outcomes.{
  IsAnswered, IsSound, IsSoundResult, Returns, continue-Returns, fetch_1m_range-Returns,
  fetch_klines-Returns, hours_split, pure-Returns,
}
use binance_testnet_trading.Data.Forensics.{
  MissingHourOutcome, aggregate_1m_to_1h, differs, is_continuous_60_minutes, minutes_per_hour,
  missing_hours_for_gap, one_hour_ms, unresolved,
}
use binance_testnet_trading.Data.Forensics.Analysis.{
  Audit, StopReason, analyze_one_gap, classify_hour, classify_hours, cross_check, fetch_hours,
  fetch_native_1h, judge, minutes_of_hour, not_reached, unrecovered,
}
use binance_testnet_trading.Research.Cutoff.{research_cutoff_ms}
use binance_testnet_trading.Data.Gaps.{GapRecord}
use binance_testnet_trading.Data.Forensics.Minutes.{aggregate-IsHourOf}
use binance_testnet_trading.Base.Int.{pos_part}
use binance_testnet_trading.Data.History.Dictionary.{
  All_kept, put_candles-All, sort_by_open_time-All,
}
use binance_testnet_trading.Base.Exec.{pure}

module _ {D F : Type 0} ⦃num : Decimals D⦄ ⦃fl : Floats D F⦄
    (get_klines : List KlineRequest → KlineRequest → PageAnswer D)
    (now_fn : List KlineRequest → ℕ → F) (content_hash : Candle D → String) (symbol : String)
    (documented : StartsPages get_klines) (ordered : IsOrdered D) where
  abbrev Sound : MissingHourOutcome D → Type 0
  Sound = IsSound get_klines now_fn content_hash symbol

  abbrev Given : List (Candle D) → Type 0
  Given = All (IsAnswered get_klines now_fn content_hash symbol "1m")

  cross_check-Returns :
      (deadline : F) (hour max_retries : ℕ) (s : Audit)
      → Returns
          (λ r. Unit {0})
          (cross_check get_klines now_fn content_hash symbol deadline hour max_retries s)
  unfolding cross_check fetch_native_1h
  cross_check-Returns deadline hour max_retries s =
      elim (Bool-cases (fl.at_most deadline (now_fn s.sent s.readings))) [
        | inl late ↦ rw late (pure-Returns _ _ _ tt)
        | inr early ↦
            let answered =
              fetch_klines-Returns get_klines now_fn content_hash symbol documented "1h" hour
                (hour + one_hour_ms) 1 max_retries (record s { readings = suc s.readings }) in
            rw early (
              continue-Returns _
                (continue-Returns (λ r. Unit {0}) answered
                  (λ answer after held. elim (Option-cases answer) [
                    | inl nothing ↦ rw nothing (pure-Returns _ _ after tt)
                    | inr (found, given) ↦ rw given (pure-Returns _ _ after tt)
                  ]))
                (λ native after held. pure-Returns _ _ after tt))
      ]

  judge-IsSound :
      (now_ms hour : ℕ) (c : Candle D) (cs : List (Candle D)) (native : Option (Candle D))
      (skipped : Bool)
      → hour < research_cutoff_ms
      → is_continuous_60_minutes (c ∷ cs) hour ≡ true
      → Given (c ∷ cs)
      → ((judge get_klines now_fn content_hash symbol now_ms hour c cs native skipped).open_time_ms
          ≡ hour)
        × Sound (judge get_klines now_fn content_hash symbol now_ms hour c cs native skipped)
  unfolding judge
  judge-IsSound now_ms hour c cs none skipped early whole given =
      let rebuilt = aggregate-IsHourOf ordered symbol hour c cs whole in
      (refl, (early, rebuilt.counted, (c, cs, rebuilt, given)))
  judge-IsSound now_ms hour c cs (some n) skipped early whole given =
      let rebuilt = aggregate-IsHourOf ordered symbol hour c cs whole in
      elim (Bool-cases (differs n (aggregate_1m_to_1h symbol hour c cs))) [
        | inl refuted ↦ rw refuted (refl, tt)
        | inr agrees ↦ rw agrees (refl, (early, rebuilt.counted, (c, cs, rebuilt, given)))
      ]

  classify_hour-IsSound :
      (now_ms : ℕ) (deadline : F) (max_retries hour : ℕ) (candles : List (Candle D)) (s : Audit)
      → hour < research_cutoff_ms
      → Given candles
      → Returns
          (λ o. (o.open_time_ms ≡ hour) × Sound o)
          (classify_hour get_klines now_fn content_hash symbol now_ms deadline max_retries hour
            candles s)
  unfolding classify_hour
  classify_hour-IsSound now_ms deadline max_retries hour [] s early given =
      pure-Returns _ _ s (refl, refl)
  classify_hour-IsSound now_ms deadline max_retries hour (c ∷ cs) s early given =
      elim (Bool-cases (is_continuous_60_minutes (c ∷ cs) hour)) [
        | inl whole ↦ rw whole (
            continue-Returns _ (cross_check-Returns deadline hour max_retries s) (λ r after held.
              pure-Returns _ _ after (judge-IsSound now_ms hour c cs r.0 r.1 early whole given)))
        | inr broken ↦ elim (Bool-cases (ltb (length (c ∷ cs)) minutes_per_hour)) [
          | inl few ↦
              rw (broken, few)
                (pure-Returns _ _ s (refl, (omega arith, ltb→lt (length (c ∷ cs)) 60 few)))
          | inr enough ↦ rw (broken, enough) (pure-Returns _ _ s (refl, tt))
        ]
      ]

  classify_hours-IsSound :
      (now_ms : ℕ) (deadline : F) (max_retries : ℕ) (fetched : List (Candle D))
      (reached_up_to_ms : ℕ) (stopped : Option StopReason) (hours : List ℕ) (s : Audit)
      → Given fetched
      → All (λ h. h < research_cutoff_ms) hours
      → Returns
          (λ os. (map (λ o. o.open_time_ms) os ≡ hours) × All Sound os)
          (classify_hours get_klines now_fn content_hash symbol now_ms deadline max_retries fetched
            reached_up_to_ms stopped hours s)
  unfolding classify_hours
  classify_hours-IsSound now_ms deadline max_retries fetched reached stopped [] s given early =
      pure-Returns _ _ s (refl, tt)
  classify_hours-IsSound now_ms deadline max_retries fetched reached stopped (h ∷ hs) s given
        early =
      let minutes =
        sort_by_open_time-All _ _ (All_kept _ _ _ (put_candles-All _ fetched [] given tt)) in
      let first : Returns (λ o. (o.open_time_ms ≡ h) × Sound o)
          ((if not_reached get_klines now_fn content_hash symbol stopped reached h
              then pure (unrecovered get_klines now_fn content_hash symbol h unresolved 0)
              else classify_hour get_klines now_fn content_hash symbol now_ms deadline max_retries h
                  (minutes_of_hour get_klines now_fn content_hash symbol fetched h))
            s) =
        elim (Bool-cases (not_reached get_klines now_fn content_hash symbol stopped reached h)) [
          | inl cut ↦ rw cut (pure-Returns _ _ s (refl, tt))
          | inr fetched_all ↦
              rw fetched_all
                (classify_hour-IsSound now_ms deadline max_retries h _ s early.0 minutes)
        ] in
      continue-Returns _ first (λ o after sound.
        continue-Returns _
          (classify_hours-IsSound now_ms deadline max_retries fetched reached stopped hs after given
            early.1)
          (λ os done all_sound.
            pure-Returns _ _ done (rw (sound.0, all_sound.0) refl, (sound.1, all_sound.1))))

  fetch_hours-Returns :
      (max_retries : ℕ) (deadline : F) (hours : List ℕ) (s : Audit)
      → Returns
          (λ r. Given r.0)
          (fetch_hours get_klines now_fn content_hash symbol max_retries deadline hours s)
  unfolding fetch_hours
  fetch_hours-Returns max_retries deadline [] s = pure-Returns _ _ s tt
  fetch_hours-Returns max_retries deadline (h ∷ hs) s =
      fetch_1m_range-Returns get_klines now_fn content_hash symbol documented _ _ max_retries
        deadline h [] s (omega arith) tt

  not_fetched :
      (hours : List ℕ)
      → (map
            (λ o. o.open_time_ms)
            (map (λ h. unrecovered get_klines now_fn content_hash symbol h unresolved 0) hours)
          ≡ hours)
        × All Sound
            (map (λ h. unrecovered get_klines now_fn content_hash symbol h unresolved 0) hours)
  not_fetched [] = (refl, tt)
  not_fetched (h ∷ hs) = let rest = not_fetched hs in (ap (λ l. h ∷ l) rest.0, (tt, rest.1))

  -- The analysis of a gap ends, whatever the clock reads and the exchange answers, as long as a page
  -- holds no candle from before the start that is asked for. Its result has one outcome for each
  -- missing hour, in order. An hour that is fully recoverable opens before the research cutoff; its
  -- candle is made of sixty candles that the exchange gave for the symbol's 1m interval, at the
  -- sixty minutes of the hour: the first's open, the last's close, the greatest high and the least
  -- low. No other outcome has a candle; one that is partial counts between 1 and 59 minutes, and one
  -- of a genuine absence none.
  pub analyze_one_gap-Returns :
      (gap : GapRecord) (max_retries : ℕ) (max_seconds_per_gap : F) (now_ms : ℕ) (s : Audit)
      → Returns (IsSoundResult get_klines now_fn content_hash symbol gap) (
          analyze_one_gap get_klines now_fn content_hash symbol gap max_retries max_seconds_per_gap
            now_ms s)
  unfolding analyze_one_gap
  analyze_one_gap-Returns gap max_retries max_seconds now_ms s =
      let all_hours = missing_hours_for_gap gap in
      let fetchable = keep (λ h. ltb h research_cutoff_ms) all_hours in
      let beyond = keep (λ h. leb research_cutoff_ms h) all_hours in
      let early : All (λ h. h < research_cutoff_ms) fetchable =
        All-keep _ _ (λ h e. ltb→lt h research_cutoff_ms e) all_hours in
      let deadline = fl.plus (now_fn s.sent s.readings) max_seconds in
      let late = not_fetched beyond in
      continue-Returns _
        (fetch_hours-Returns max_retries deadline fetchable
          (record s { readings = suc s.readings }))
        (λ r after given.
          continue-Returns _
            (classify_hours-IsSound now_ms deadline max_retries r.0 r.1 r.2 fetchable after given
              early)
            (λ os done sound. pure-Returns _ _ done (
              refl,
              map-append (λ o. o.open_time_ms) os _
                  ∙ rw (sound.0, late.0)
                      (hours_split research_cutoff_ms gap.expected_open_time_ms
                        (pos_part gap.missing_intervals)),
              All-append Sound os _ sound.1 late.1,
            )))
