-- ===== src/Data/Forensics/Outcomes.antt =====
-- The fetches of data/gap_recovery.py, and what the outcome of an hour says.
use mathlib.Core.Path.{subst}
use binance_testnet_trading.Base.{
  All, All-append, Bool-cases, In, List, Option, Option-cases, Result, String, [], ap, arith, false,
  inl, inr, keep, last?, leb, length, ltb, ltb→lt, map, none, ok, refl, some, suc, true, zero, ℕ,
  ◌++◌, ◌+◌, ◌-◌, ◌<◌, ◌∷◌, ◌≡◌, ◌≤◌,
}
use binance_testnet_trading.Data.Forensics.{
  GapForensicResult, MissingHourOutcome, RecoveryOutcome, fully_recoverable, genuine_no_data,
  hours_from, missing_hours_for_gap, one_hour_ms, partially_recoverable, unresolved,
}
use binance_testnet_trading.Numbers.{Decimals, Floats}
use binance_testnet_trading.Data.History.{HistoryError, PageAnswer, page}
use binance_testnet_trading.Data.Forensics.Analysis.{
  Audit, Run, fetch_1m_range, fetch_klines_with_bounded_retries, kline_page_limit,
}
use binance_testnet_trading.Data.Ingestion.{KlineRequest}
use binance_testnet_trading.Data.{Candle, minute}
use binance_testnet_trading.Base.Exec.{continue}
use binance_testnet_trading.Research.Cutoff.{research_cutoff_ms}
use binance_testnet_trading.Data.History.Dictionary.{All_kept}
use binance_testnet_trading.Data.History.Paging.{All_last, StartsPages}
use binance_testnet_trading.Data.Gaps.{GapRecord}
use binance_testnet_trading.Data.Boundary.{below_exclusive_end, exclusive_upper_bound_for_request}
use binance_testnet_trading.Data.Forensics.Minutes.{IsHourOf}
use binance_testnet_trading.Data.History.Recovery.{PageAnswer-cases}

-- The run comes to its end with a value for which `P` holds.
pub record Returns {A : Type 0} (P : A → Type 0) (run : Result HistoryError A × Audit)
    : Type 0 where
  pub value : A
  pub returned : run.0 ≡ ok value
  pub holds : P value

pub pure-Returns : {A : Type 0} (P : A → Type 0) (a : A) (s : Audit) → P a → Returns P (ok a, s)
pure-Returns P a s p = record { value = a; returned = refl; holds = p }

pub continue-Returns :
    {A B : Type 0} {P : A → Type 0} (Q : B → Type 0) {run : Result HistoryError A × Audit}
    {k : A → Run B}
    → Returns P run
    → ((a : A) (s : Audit) → P a → Returns Q (k a s))
    → Returns Q (continue run.0 k run.1)
continue-Returns Q {run = run} h next = rw h.returned (next h.value run.1 h.holds)

pub All_of_In : {A : Type 0} (P : A → Type 0) (xs : List A) → ((a : A) → In a xs → P a) → All P xs
All_of_In P [] h = tt
All_of_In P (x ∷ xs) h = (h x (inl refl), All_of_In P xs (λ a m. h a (inr m)))

-- The hours before the cutoff come first.
hours_after : (cut first n : ℕ) → cut ≤ first → keep (λ h. ltb h cut) (hours_from first n) ≡ []
hours_after cut first zero h = refl
hours_after cut first (suc n) h =
    let rest = hours_after cut (first + one_hour_ms) n (omega (arith, h)) in ground (arith, h, rest)

all_hours_after :
    (cut first n : ℕ)
    → cut ≤ first
    → keep (λ h. leb cut h) (hours_from first n) ≡ hours_from first n
all_hours_after cut first zero h = refl
all_hours_after cut first (suc n) h =
    let rest = all_hours_after cut (first + one_hour_ms) n (omega (arith, h)) in
    let kept : leb cut first ≡ true = ground (arith, h) in rw kept (ap (λ hs. first ∷ hs) rest)

pub hours_split :
    (cut first n : ℕ)
    → keep (λ h. ltb h cut) (hours_from first n) ++ keep (λ h. leb cut h) (hours_from first n)
      ≡ hours_from first n
hours_split cut first zero = refl
hours_split cut first (suc n) = elim (Bool-cases (ltb first cut)) [
  | inl before ↦
      let after : leb cut first ≡ false = ground (arith, before) in
      rw (before, after) (ap (λ hs. first ∷ hs) (hours_split cut (first + one_hour_ms) n))
  | inr after ↦
      let from : cut ≤ first = ground (arith, after) in
      rw (hours_after cut first (suc n) from) (all_hours_after cut first (suc n) from)
]

module _ {D F : Type 0} ⦃num : Decimals D⦄ ⦃fl : Floats D F⦄
    (get_klines : List KlineRequest → KlineRequest → PageAnswer D)
    (now_fn : List KlineRequest → ℕ → F) (content_hash : Candle D → String) (symbol : String) where
  -- The exchange gave the candle, in answer to a request for the symbol's candles of an interval.
  abbrev pub IsAnswered : String → Candle D → Type 0
  IsAnswered interval c =
      (sent : List KlineRequest) × (request : KlineRequest) × (candles : List (Candle D))
      × (get_klines sent request ≡ page candles)
      × (request.symbol ≡ symbol)
      × (request.interval ≡ interval)
      × In c candles

  abbrev pub IsPage : String → ℕ → Option (List (Candle D)) → Type 0
  IsPage interval start none = Unit
  IsPage interval start (some candles) =
      All (λ c. start ≤ c.open_time_ms) candles × All (IsAnswered interval) candles

  -- What an outcome says of its hour.
  abbrev pub Holds : RecoveryOutcome → ℕ → ℕ → Option (Candle D) → Type 0
  Holds fully_recoverable hour count (some candle) =
      (hour < research_cutoff_ms)
      × (count ≡ 60)
      × ((c : Candle D) × (cs : List (Candle D)) × IsHourOf symbol hour c cs candle
          × All (IsAnswered "1m") (c ∷ cs))
  Holds fully_recoverable hour count none = ⊥
  Holds partially_recoverable hour count none = (0 < count) × (count < 60)
  Holds partially_recoverable hour count (some candle) = ⊥
  Holds genuine_no_data hour count none = count ≡ 0
  Holds genuine_no_data hour count (some candle) = ⊥
  Holds unresolved hour count none = Unit
  Holds unresolved hour count (some candle) = ⊥

  abbrev pub IsSound : MissingHourOutcome D → Type 0
  IsSound o = Holds o.outcome o.open_time_ms o.found_1m_candle_count o.reconstructed_candle

  -- The result has an outcome for each missing hour, in order, and each is sound.
  abbrev pub IsSoundResult : GapRecord → GapForensicResult D → Type 0
  IsSoundResult gap result =
      (result.gap ≡ gap)
      × (map (λ o. o.open_time_ms) result.missing_hours ≡ missing_hours_for_gap gap)
      × All IsSound result.missing_hours

  module _ (documented : StartsPages get_klines) where
    pub fetch_klines-Returns :
        (interval : String) (start_ms end_ms limit left : ℕ) (s : Audit)
        → Returns (IsPage interval start_ms) (
            fetch_klines_with_bounded_retries get_klines now_fn content_hash symbol interval
              start_ms end_ms limit left s)
    unfolding fetch_klines_with_bounded_retries below_exclusive_end
    fetch_klines-Returns interval start_ms end_ms limit zero s =
        pure-Returns (IsPage interval start_ms) none s tt
    fetch_klines-Returns interval start_ms end_ms limit (suc left) s =
        let request : KlineRequest = record {
          symbol = symbol;
          interval = interval;
          start_time_ms = some start_ms;
          end_time_ms = some (exclusive_upper_bound_for_request end_ms);
          limit = limit;
        } in
        elim (PageAnswer-cases (get_klines s.sent request)) [
          | inl (candles, paged) ↦
              let from = documented.starts s.sent request start_ms candles refl paged in
              let given =
                All_of_In (IsAnswered interval) candles
                  (λ c m. (s.sent, request, candles, paged, refl, refl, m)) in
              rw paged (
                pure-Returns (IsPage interval start_ms)
                  (some (keep (λ c. ltb c.open_time_ms end_ms) candles)) _
                  (All_kept _ _ candles from, All_kept _ _ candles given))
          | inr failed ↦ rw failed (
              fetch_klines-Returns interval start_ms end_ms limit left
                (record s { sent = request ∷ s.sent }))
        ]

    pub fetch_1m_range-Returns :
        (fuel end_ms max_retries : ℕ) (deadline : F) (cursor : ℕ) (all_candles : List (Candle D))
        (s : Audit)
        → end_ms - cursor < fuel
        → All (IsAnswered "1m") all_candles
        → Returns
            (λ r. All (IsAnswered "1m") r.0)
            (fetch_1m_range get_klines now_fn content_hash symbol fuel end_ms max_retries deadline
              cursor all_candles s)
    unfolding fetch_1m_range
    fetch_1m_range-Returns zero end_ms max_retries deadline cursor all_candles s m h =
        absurd (omega (arith, m))
    fetch_1m_range-Returns (suc fuel) end_ms max_retries deadline cursor all_candles s m h =
        elim (Bool-cases (ltb cursor end_ms)) [
          | inr over ↦ rw (over, fetch_1m_range) (pure-Returns _ _ s h)
          | inl inside ↦ elim (Bool-cases (fl.at_most deadline (now_fn s.sent s.readings))) [
            | inl late ↦ rw (inside, late, fetch_1m_range) (pure-Returns _ _ _ h)
            | inr early ↦
                rw (inside, early, fetch_1m_range)
                  (continue-Returns _
                    (fetch_klines-Returns "1m" cursor end_ms kline_page_limit max_retries
                      (record s { readings = suc s.readings }))
                    (λ answer after paged. elim (Option-cases answer) [
                      | inl nothing ↦ rw nothing (pure-Returns _ _ after h)
                      | inr (found, given) ↦
                          let held = subst (IsPage "1m" cursor) given paged in
                          let grown = All-append _ all_candles found h held.1 in
                          elim (Option-cases (last? found)) [
                            | inl empty ↦ rw (given, empty) (pure-Returns _ _ after h)
                            | inr (last, ends) ↦
                                let at_least : cursor ≤ last.open_time_ms =
                                  All_last (λ c. cursor ≤ c.open_time_ms) found held.0 ends in
                                elim (Bool-cases (ltb (length found) kline_page_limit)) [
                                  | inl short ↦
                                      rw (given, ends, short) (pure-Returns _ _ after grown)
                                  | inr full ↦
                                      rw (given, ends, full)
                                        (fetch_1m_range-Returns fuel end_ms max_retries deadline
                                          (last.open_time_ms + minute) (all_candles ++ found) after
                                          (omega (arith, at_least, m, ltb→lt cursor end_ms inside))
                                          grown)
                                ]
                          ]
                    ]))
          ]
        ]
