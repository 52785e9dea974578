-- ===== src/Store/Pending.antt =====
-- The table of pending orders under each statement.
use mathlib.Core.List.Perm
use text.Mathlib.Text.{◌==◌ as str_eq}
use text.Mathlib.TextEquality.{eq_iff}
use binance_testnet_trading.Base.{
  All, Bool-cases, List, Perm, String, [], arith, inl, inr, keep, ltb, ltb→lt, refl, some, ℕ, ◌&&◌,
  ◌∷◌, ◌≡◌, ◌≢◌, ◌≤◌,
}
use binance_testnet_trading.Store.{
  ExecutionStateStore, PendingOrder, find_pending, insert_by_time, is_submitted, load_open_pending,
  sort_by_time, update_rows,
}

module _ {D : Type 0} where
  -- `f` keeps the key of every row.
  abbrev pub KeepsId : (PendingOrder D → PendingOrder D) → Type 0
  KeepsId f = (p : PendingOrder D) → (f p).client_order_id ≡ p.client_order_id

  pub find_pending-id :
      (id : String) (ps : List (PendingOrder D)) {p : PendingOrder D}
      → find_pending id ps ≡ some p
      → p.client_order_id ≡ id
  unfolding find_pending
  find_pending-id id [] e = cc
  find_pending-id id (q ∷ ps) {p = p} e =
      ground (arith, eq_iff q.client_order_id id, find_pending-id id ps {p = p})

  pub find_pending-update_rows :
      (id : String) (f : PendingOrder D → PendingOrder D) (ps : List (PendingOrder D))
      {p : PendingOrder D}
      → KeepsId f
      → find_pending id ps ≡ some p
      → find_pending id (update_rows id f ps) ≡ some (f p)
  unfolding find_pending update_rows
  find_pending-update_rows id f [] keeps e = cc
  find_pending-update_rows id f (q ∷ ps) {p = p} keeps e =
      ground (arith, keeps q, find_pending-update_rows id f ps {p = p} keeps)

  pub find_pending-update_rows_ne :
      (id other : String) (f : PendingOrder D → PendingOrder D) (ps : List (PendingOrder D))
      → KeepsId f
      → other ≢ id
      → find_pending other (update_rows id f ps) ≡ find_pending other ps
  unfolding find_pending update_rows
  find_pending-update_rows_ne id other f [] keeps ne = refl
  find_pending-update_rows_ne id other f (q ∷ ps) keeps ne = ground (
    arith,
    keeps q,
    eq_iff q.client_order_id id,
    eq_iff q.client_order_id other,
    find_pending-update_rows_ne id other f ps keeps ne,
  )

  pub update_rows-update_rows :
      (id : String) (f g : PendingOrder D → PendingOrder D) (ps : List (PendingOrder D))
      → KeepsId f
      → ((p : PendingOrder D) → g (f p) ≡ f p)
      → update_rows id g (update_rows id f ps) ≡ update_rows id f ps
  unfolding update_rows
  update_rows-update_rows id f g [] keeps same = refl
  update_rows-update_rows id f g (q ∷ ps) keeps same =
      ground (arith, keeps q, same q, update_rows-update_rows id f g ps keeps same)

  insert_by_time-perm :
      (p : PendingOrder D) (ps : List (PendingOrder D)) → Perm (insert_by_time p ps) (p ∷ ps)
  unfolding insert_by_time
  insert_by_time-perm p [] = Perm.refl (p ∷ [])
  insert_by_time-perm p (q ∷ qs) = elim (Bool-cases (ltb q.submitted_at_ms p.submitted_at_ms)) [
    | inl later ↦ rw later (Perm.trans (Perm.cons q (insert_by_time-perm p qs)) (Perm.swap p q qs))
    | inr first ↦ rw first (Perm.refl (p ∷ q ∷ qs))
  ]

  sort_by_time-perm : (ps : List (PendingOrder D)) → Perm (sort_by_time ps) ps
  unfolding sort_by_time
  sort_by_time-perm [] = Perm.refl []
  sort_by_time-perm (p ∷ ps) =
      Perm.trans (insert_by_time-perm p (sort_by_time ps)) (Perm.cons p (sort_by_time-perm ps))

  -- Oldest first.
  abbrev pub IsByTime : List (PendingOrder D) → Type 0
  IsByTime [] = Unit {0}
  IsByTime (p ∷ ps) = All (λ q. p.submitted_at_ms ≤ q.submitted_at_ms) ps × IsByTime ps

  All-insert_by_time :
      (t : ℕ) (p : PendingOrder D) (ps : List (PendingOrder D))
      → t ≤ p.submitted_at_ms
      → All (λ q. t ≤ q.submitted_at_ms) ps
      → All (λ q. t ≤ q.submitted_at_ms) (insert_by_time p ps)
  unfolding insert_by_time
  All-insert_by_time t p [] h a = (h, tt)
  All-insert_by_time t p (q ∷ qs) h a =
      elim (Bool-cases (ltb q.submitted_at_ms p.submitted_at_ms)) [
        | inl later ↦ rw later (a.0, All-insert_by_time t p qs h a.1)
        | inr first ↦ rw first (h, a)
      ]

  All-later :
      (t u : ℕ) (ps : List (PendingOrder D))
      → t ≤ u
      → All (λ q. u ≤ q.submitted_at_ms) ps
      → All (λ q. t ≤ q.submitted_at_ms) ps
  All-later t u [] h a = tt
  All-later t u (p ∷ ps) h a = (omega arith, All-later t u ps h a.1)

  insert_by_time-IsByTime :
      (p : PendingOrder D) (ps : List (PendingOrder D))
      → IsByTime ps
      → IsByTime (insert_by_time p ps)
  unfolding insert_by_time
  insert_by_time-IsByTime p [] s = (tt, tt)
  insert_by_time-IsByTime p (q ∷ qs) s =
      elim (Bool-cases (ltb q.submitted_at_ms p.submitted_at_ms)) [
        | inl later ↦
            let lt = ltb→lt q.submitted_at_ms p.submitted_at_ms later in
            rw later (
              All-insert_by_time q.submitted_at_ms p qs (omega arith) s.0,
              insert_by_time-IsByTime p qs s.1,
            )
        | inr first ↦
            let earlier : p.submitted_at_ms ≤ q.submitted_at_ms = ground arith in
            rw first ((earlier, All-later p.submitted_at_ms q.submitted_at_ms qs earlier s.0), s)
      ]

  sort_by_time-IsByTime : (ps : List (PendingOrder D)) → IsByTime (sort_by_time ps)
  unfolding sort_by_time
  sort_by_time-IsByTime [] = tt
  sort_by_time-IsByTime (p ∷ ps) =
      insert_by_time-IsByTime p (sort_by_time ps) (sort_by_time-IsByTime ps)

  -- The open orders of a symbol are its submitted rows, each once, oldest first.
  pub load_open_pending_lists :
      (symbol : String) (store : ExecutionStateStore D)
      → IsByTime (load_open_pending symbol store)
        × Perm
            (load_open_pending symbol store)
            (keep (λ p. str_eq p.symbol symbol && is_submitted p.status) store.pendings)
  unfolding load_open_pending
  load_open_pending_lists symbol store =
      let rows = keep (λ p. str_eq p.symbol symbol && is_submitted p.status) store.pendings in
      (sort_by_time-IsByTime rows, sort_by_time-perm rows)
