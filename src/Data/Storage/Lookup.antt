-- ===== src/Data/Storage/Lookup.antt =====
-- The tables of data/storage.py as maps from primary keys to rows.
use text.Mathlib.Text.{◌==◌ as str_eq}
use text.Mathlib.TextEquality.{eq_iff}
use binance_testnet_trading.Base.{
  ==_iff, Bool, Bool-cases, In, List, Option, [], ap, arith, false, if◌then◌else◌, inl, inr, none,
  refl, some, sym, true, ◌&&◌, ◌==◌, ◌∙◌, ◌∷◌, ◌≡◌, ◌⊎◌,
}
use binance_testnet_trading.Data.Storage.{Key, delete_keys, is_listed, same_key, upsert, upserts}

both_true : (a b : Bool) → (a && b) ≡ true → (a ≡ true) × (b ≡ true)
both_true a b h = ground arith

pub same_key_sound : (a b : Key) → same_key a b ≡ true → a ≡ b
same_key_sound (s, i, t) (s', i', t') h =
    let (symbols, rest) = both_true (str_eq s s') (str_eq i i' && t == t') h in
    let (intervals, times) = both_true (str_eq i i') (t == t') rest in
    let e : s ≡ s' = (eq_iff s s').0 symbols in
    let f : i ≡ i' = (eq_iff i i').0 intervals in
    let g : t ≡ t' = (==_iff t t').0 times in rw (e, f, g) refl

module _ {A : Type 0} (key : A → Key) where
  -- The row at a key.
  abbrev pub row_at : Key → List A → Option A
  row_at k [] = none
  row_at k (r ∷ rs) = let rest = row_at k rs in if same_key (key r) k then some r else rest

  -- The last of the rows with a key, or else what was there.
  abbrev latest : Key → List A → Option A → Option A
  latest k [] old = old
  latest k (r ∷ rs) old = latest k rs (if same_key (key r) k then some r else old)

  row_at-upsert :
      (k : Key) (row : A) (table : List A)
      → row_at k (upsert key row table)
        ≡ (if same_key (key row) k then some row else row_at k table)
  unfolding upsert
  row_at-upsert k row [] = refl
  row_at-upsert k row (r ∷ rs) =
      let rest = row_at-upsert k row rs in
      elim (Bool-cases (same_key (key r) (key row))) [
        | inl same ↦
            let e : key r ≡ key row = same_key_sound (key r) (key row) same in
            rw (same, e)
              (elim (Bool-cases (same_key (key row) k)) [
                | inl here ↦ rw here refl
                | inr there ↦ rw there refl
              ])
        | inr other ↦ rw other (elim (Bool-cases (same_key (key r) k)) [
          | inr there ↦ rw there rest
          | inl here ↦ elim (Bool-cases (same_key (key row) k)) [
            | inr elsewhere ↦ rw (here, elsewhere) refl
            | inl both ↦
                let e : key r ≡ k = same_key_sound (key r) k here in
                let f : key row ≡ k = same_key_sound (key row) k both in
                let same : same_key (key r) (key row) ≡ true =
                  ap (λ x. same_key (key r) x) (f ∙ sym e)
                  ∙ (ap (λ x. same_key (key r) x) e ∙ here) in
                absurd (ground (arith, same, other))
          ]
        ])
      ]

  row_at-upserts :
      (k : Key) (rows table : List A)
      → row_at k (upserts key rows table) ≡ latest k rows (row_at k table)
  unfolding upserts
  row_at-upserts k [] table = refl
  row_at-upserts k (row ∷ rows) table =
      row_at-upserts k rows (upsert key row table) ∙ ap (latest k rows) (row_at-upsert k row table)

  row_at-delete_keys :
      (k : Key) (keys : List Key) (table : List A)
      → row_at k (delete_keys key keys table)
        ≡ (if is_listed key keys k then none else row_at k table)
  row_at-delete_keys k keys [] = elim (Bool-cases (is_listed key keys k)) [
    | inl listed ↦ rw listed refl
    | inr kept ↦ rw kept refl
  ]
  row_at-delete_keys k keys (r ∷ rs) =
      let rest = row_at-delete_keys k keys rs in
      elim (Bool-cases (is_listed key keys (key r))) [
        | inl gone ↦ elim (Bool-cases (same_key (key r) k)) [
          | inl here ↦
              let e : key r ≡ k = same_key_sound (key r) k here in
              let listed : is_listed key keys k ≡ true = ap (is_listed key keys) (sym e) ∙ gone in
              rw gone (rest ∙ rw listed refl)
          | inr there ↦ rw (gone, there) rest
        ]
        | inr kept ↦ elim (Bool-cases (same_key (key r) k)) [
          | inl here ↦
              let e : key r ≡ k = same_key_sound (key r) k here in
              let spared : is_listed key keys k ≡ false = ap (is_listed key keys) (sym e) ∙ kept in
              rw (kept, here, spared) refl
          | inr there ↦ rw (kept, there) rest
        ]
      ]

  -- The rows either hide what was there or leave it.
  latest-cases :
      (k : Key) (rows : List A)
      → ((old : Option A) → latest k rows old ≡ old)
        ⊎ ((r : A) × ((old : Option A) → latest k rows old ≡ some r))
  latest-cases k [] = inl (λ old. refl)
  latest-cases k (r ∷ rs) = elim (latest-cases k rs) [
    | inr (last, hides) ↦ inr (last, λ old. hides (if same_key (key r) k then some r else old))
    | inl leaves ↦ elim (Bool-cases (same_key (key r) k)) [
      | inl here ↦ inr (r, λ old. rw here (leaves (some r)))
      | inr there ↦ inl (λ old. rw there (leaves old))
    ]
  ]

  -- What is left at a key, after rows were deleted and others put in.
  abbrev replaced : Key → List Key → List A → Option A → Option A
  replaced k keys rows old = latest k rows (if is_listed key keys k then none else old)

  pub replaced_twice :
      (k : Key) (keys : List Key) (rows : List A) (old : Option A)
      → replaced k keys rows (replaced k keys rows old) ≡ replaced k keys rows old
  replaced_twice k keys rows old = elim (latest-cases k rows) [
    | inr (r, hides) ↦ hides _ ∙ sym (hides _)
    | inl leaves ↦ elim (Bool-cases (is_listed key keys k)) [
      | inl listed ↦ rw listed refl
      | inr kept ↦ rw kept (leaves _)
    ]
  ]

  -- The table after rows were deleted and others put in.
  abbrev pub replace_rows : List Key → List A → List A → List A
  replace_rows keys rows table = upserts key rows (delete_keys key keys table)

  row_at-replace_rows :
      (k : Key) (keys : List Key) (rows table : List A)
      → row_at k (replace_rows keys rows table) ≡ replaced k keys rows (row_at k table)
  row_at-replace_rows k keys rows table =
      row_at-upserts k rows (delete_keys key keys table)
      ∙ ap (latest k rows) (row_at-delete_keys k keys table)

  pub replace_rows_twice :
      (k : Key) (keys : List Key) (rows table : List A)
      → row_at k (replace_rows keys rows (replace_rows keys rows table))
        ≡ row_at k (replace_rows keys rows table)
  replace_rows_twice k keys rows table =
      row_at-replace_rows k keys rows (replace_rows keys rows table)
      ∙ (ap (replaced k keys rows) (row_at-replace_rows k keys rows table)
          ∙ (replaced_twice k keys rows (row_at k table)
              ∙ sym (row_at-replace_rows k keys rows table)))

  pub upserts_twice :
      (k : Key) (rows table : List A)
      → row_at k (upserts key rows (upserts key rows table)) ≡ row_at k (upserts key rows table)
  upserts_twice k rows table =
      row_at-upserts k rows (upserts key rows table)
      ∙ (ap (latest k rows) (row_at-upserts k rows table)
          ∙ (replaced_twice k [] rows (row_at k table) ∙ sym (row_at-upserts k rows table)))

  latest-In :
      (k : Key) (rows : List A) (old : Option A)
      → (latest k rows old ≡ old)
        ⊎ ((r : A) × In r rows × (key r ≡ k) × (latest k rows old ≡ some r))
  latest-In k [] old = inl refl
  latest-In k (r ∷ rs) old = elim (Bool-cases (same_key (key r) k)) [
    | inr there ↦ rw there (elim (latest-In k rs old) [
      | inl left ↦ inl left
      | inr (c, found, at, last) ↦ inr (c, inr found, at, last)
    ])
    | inl here ↦
        let e : key r ≡ k = same_key_sound (key r) k here in
        rw here (elim (latest-In k rs (some r)) [
          | inl left ↦ inr (r, inl refl, e, left)
          | inr (c, found, at, last) ↦ inr (c, inr found, at, last)
        ])
  ]

  -- What is at a key after rows were put in: one of them, or what was there.
  pub row_at-upserts-In :
      (k : Key) (rows table : List A)
      → (row_at k (upserts key rows table) ≡ row_at k table)
        ⊎ ((r : A) × In r rows × (key r ≡ k) × (row_at k (upserts key rows table) ≡ some r))
  row_at-upserts-In k rows table =
      rw (row_at-upserts k rows table) (latest-In k rows (row_at k table))
