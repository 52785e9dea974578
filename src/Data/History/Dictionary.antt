-- ===== src/Data/History/Dictionary.antt =====
-- The dictionary of candles by opening time in data/historical_fetch.py and data/gap_recovery.py.
use binance_testnet_trading.Base.{
  All, Bool, Bool-cases, List, [], ap, arith, false, inl, inr, keep, ltb, refl, ◌==◌, ◌∙◌, ◌∷◌, ◌≡◌,
}
use binance_testnet_trading.Data.{Candle}
use binance_testnet_trading.Data.Gaps.Acceptance.{Ascends}
use binance_testnet_trading.Data.History.{
  dedup_by_open_time, insert_by_open_time, put_candle, put_candles, sort_by_open_time,
}

pub All_kept :
    {A : Type 0} (p : A → Bool) (P : A → Type 0) (xs : List A) → All P xs → All P (keep p xs)
All_kept p P [] h = tt
All_kept p P (x ∷ xs) h = elim (Bool-cases (p x)) [
  | inl kept ↦ rw kept (h.0, All_kept p P xs h.1)
  | inr left ↦ rw left (All_kept p P xs h.1)
]

module _ {D : Type 0} (P : Candle D → Type 0) where
  put_candle-All :
      (c : Candle D) (seen : List (Candle D)) → P c → All P seen → All P (put_candle c seen)
  unfolding put_candle
  put_candle-All c [] h hs = (h, tt)
  put_candle-All c (d ∷ ds) h hs =
      let rest = put_candle-All c ds h hs.1 in
      elim (Bool-cases (d.open_time_ms == c.open_time_ms)) [
        | inl same ↦ rw same (h, hs.1)
        | inr other ↦ rw other (hs.0, rest)
      ]

  pub put_candles-All :
      (cs seen : List (Candle D)) → All P cs → All P seen → All P (put_candles cs seen)
  unfolding put_candles
  put_candles-All [] seen h hs = hs
  put_candles-All (c ∷ cs) seen h hs =
      put_candles-All cs (put_candle c seen) h.1 (put_candle-All c seen h.0 hs)

  insert_by_open_time-All :
      (c : Candle D) (cs : List (Candle D)) → P c → All P cs → All P (insert_by_open_time c cs)
  unfolding insert_by_open_time
  insert_by_open_time-All c [] h hs = (h, tt)
  insert_by_open_time-All c (d ∷ ds) h hs =
      let rest = insert_by_open_time-All c ds h hs.1 in
      elim (Bool-cases (ltb d.open_time_ms c.open_time_ms)) [
        | inl later ↦ rw later (hs.0, rest)
        | inr first ↦ rw first (h, hs)
      ]

  pub sort_by_open_time-All : (cs : List (Candle D)) → All P cs → All P (sort_by_open_time cs)
  unfolding sort_by_open_time
  sort_by_open_time-All [] h = tt
  sort_by_open_time-All (c ∷ cs) h =
      insert_by_open_time-All c (sort_by_open_time cs) h.0 (sort_by_open_time-All cs h.1)

  pub dedup_by_open_time-All : (cs : List (Candle D)) → All P cs → All P (dedup_by_open_time cs)
  unfolding dedup_by_open_time
  dedup_by_open_time-All cs h =
      sort_by_open_time-All (put_candles cs []) (put_candles-All cs [] h tt)

module _ {D : Type 0} where
  -- A list whose opening times ascend is sorted as it stands.
  pub sort_by_open_time-Ascends :
      (c : Candle D) (cs : List (Candle D)) → Ascends c cs → sort_by_open_time (c ∷ cs) ≡ c ∷ cs
  unfolding sort_by_open_time insert_by_open_time
  sort_by_open_time-Ascends c [] h = refl
  sort_by_open_time-Ascends c (d ∷ ds) h =
      let rest = sort_by_open_time-Ascends d ds h.1 in
      let first : ltb d.open_time_ms c.open_time_ms ≡ false =
        let before = h.0 in ground (arith, before) in
      ap (insert_by_open_time c) rest ∙ rw first refl
