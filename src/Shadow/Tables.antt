-- ===== src/Shadow/Tables.antt =====
-- Tables of a database as lists of rows: `INSERT ... ON CONFLICT DO NOTHING` and `ORDER BY`.
use mathlib.Core.List.{append-nil, append_assoc}
use binance_testnet_trading.Base.{
  All, Bool, List, [], ap, arith, false, if◌then◌else◌, keep, ltb, lt→ltb, map, refl, sym, ℕ, ◌++◌,
  ◌<◌, ◌==◌, ◌∙◌, ◌∷◌, ◌≡◌, ◌≤◌,
}
use binance_testnet_trading.Backtest.Growth.Later.{Rises, Rises-weaken}

module _ {A : Type 0} where
  -- `ON CONFLICT DO NOTHING`: a row with the key of one that is there changes nothing.
  abbrev pub insert_new : (A → A → Bool) → A → List A → List A
  insert_new same row [] = row ∷ []
  insert_new same row (r ∷ rs) =
      let rest = insert_new same row rs in if same r row then r ∷ rs else r ∷ rest

  -- One insertion for each row, in order.
  abbrev pub insert_all : (A → A → Bool) → List A → List A → List A
  insert_all same [] table = table
  insert_all same (row ∷ rows) table = insert_all same rows (insert_new same row table)

  -- `ORDER BY key ASC`
  abbrev pub insert_on : (A → ℕ) → A → List A → List A
  insert_on key x [] = x ∷ []
  insert_on key x (y ∷ ys) =
      let rest = insert_on key x ys in if ltb (key y) (key x) then y ∷ rest else x ∷ y ∷ ys

  abbrev pub sort_on : (A → ℕ) → List A → List A
  sort_on key [] = []
  sort_on key (x ∷ xs) = insert_on key x (sort_on key xs)

module _ {A : Type 0} (key : A → ℕ) where
  -- Rows of one number as the key.
  abbrev pub same_on : A → A → Bool
  same_on a b = key a == key b

  -- Every key of the table lies at or before a time.
  abbrev pub Until : ℕ → List A → Type 0
  Until last rows = All (λ t. t ≤ last) (map key rows)

  insert_new_later :
      (last : ℕ) (row : A) (table : List A)
      → Until last table
      → last < key row
      → insert_new same_on row table ≡ table ++ (row ∷ [])
  insert_new_later last row [] u lt = refl
  insert_new_later last row (r ∷ rs) u lt =
      let rest = insert_new_later last row rs u.1 lt in
      let differ : same_on r row ≡ false = ground (arith, u.0, lt) in
      rw differ (ap (λ l. r ∷ l) rest)

  pub Until-weaken :
      (earlier later : ℕ) (rows : List A) → earlier ≤ later → Until earlier rows → Until later rows
  Until-weaken earlier later [] le u = tt
  Until-weaken earlier later (r ∷ rs) le u =
      (omega (arith, le, u.0), Until-weaken earlier later rs le u.1)

  pub Until-append :
      (last : ℕ) (old new : List A) → Until last old → Until last new → Until last (old ++ new)
  Until-append last [] new o n = n
  Until-append last (x ∷ xs) new o n = (o.0, Until-append last xs new o.1 n)

  -- Rows with later keys are appended.
  pub insert_all_later :
      (last : ℕ) (rows table : List A)
      → Until last table
      → Rises last (map key rows)
      → insert_all same_on rows table ≡ table ++ rows
  insert_all_later last [] table u r = sym (append-nil table)
  insert_all_later last (row ∷ rows) table u r =
      let first = insert_new_later last row table u r.0 in
      let until : Until (key row) (table ++ (row ∷ [])) =
        Until-append (key row) table (row ∷ [])
          (Until-weaken last (key row) table (omega (arith, r.0)) u) (omega arith, tt) in
      rw first (
        insert_all_later (key row) rows (table ++ (row ∷ [])) until r.1
        ∙ append_assoc table (row ∷ []) rows)

  -- A table in the order of its keys is read as it is.
  pub sort_on_rising :
      (after : ℕ) (rows : List A) → Rises after (map key rows) → sort_on key rows ≡ rows
  sort_on_rising after [] r = refl
  sort_on_rising after (x ∷ []) r = refl
  sort_on_rising after (x ∷ y ∷ ys) r =
      let rest = sort_on_rising (key x) (y ∷ ys) r.1 in
      let later : ltb (key y) (key x) ≡ false = let lt = r.1.0 in ground (arith, lt) in
      ap (insert_on key x) rest ∙ rw later refl

  -- Of rows up to a time and rows after it, the later ones are kept.
  pub keep_later :
      (last : ℕ) (old new : List A)
      → Until last old
      → Rises last (map key new)
      → keep (λ r. ltb last (key r)) (old ++ new) ≡ new
  keep_later last [] [] u r = refl
  keep_later last [] (n ∷ ns) u r =
      let later = lt→ltb last (key n) r.0 in
      let rest =
        keep_later last [] ns tt
          (Rises-weaken last (key n) (map key ns) (let lt = r.0 in omega (arith, lt)) r.1) in
      rw later (ap (λ l. n ∷ l) rest)
  keep_later last (o ∷ os) new u r =
      let early : ltb last (key o) ≡ false = let le = u.0 in ground (arith, le) in
      rw early (keep_later last os new u.1 r)

  pub Rises_append :
      (after last : ℕ) (old new : List A)
      → Rises after (map key old)
      → Until last old
      → after ≤ last
      → Rises last (map key new)
      → Rises after (map key (old ++ new))
  Rises_append after last [] new o u le n = Rises-weaken after last (map key new) le n
  Rises_append after last (x ∷ xs) new o u le n =
      (o.0, Rises_append (key x) last xs new o.1 u.1 u.0 n)
