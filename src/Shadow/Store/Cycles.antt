-- ===== src/Shadow/Store/Cycles.antt =====
-- `record_cycle_atomically` of shadow/store.py when it fails, and when the same rows are recorded
-- again.

use text.Mathlib.TextPositions.{eq_refl}
use binance_testnet_trading.Base.{
  All, Bool, Bool-cases, List, Option, [], ap, arith, inl, inr, ok, raise, refl, some, true, ℕ, ◌+◌,
  ◌==◌, ◌∙◌, ◌∷◌, ◌≡◌, ◌⊎◌,
}
use binance_testnet_trading.Shadow.Store.{
  CycleFault, CycleRows, CycleStatus, EventId, ShadowDb, ShadowJournalEntry, advanced, after_equity,
  after_journal, after_notifications, after_trades, before_commit, cycle_statements,
  daily_summary_event, entry_event, exit_event, exit_of, get_run_state, injected_test_fault,
  is_fault, record_cycle_atomically, same_entry, same_event, same_notification, time_of,
}
use binance_testnet_trading.Shadow.Tables.{insert_all, insert_new, same_on}

module _ {A : Type 0} (same : A → A → Bool) where
  -- A row with the same key is there.
  abbrev Has : A → List A → Type 0
  Has row [] = ⊥
  Has row (r ∷ rs) = (same r row ≡ true) ⊎ Has row rs

  insert_new_old : (row : A) (table : List A) → Has row table → insert_new same row table ≡ table
  insert_new_old row [] h = elim h [ ]
  insert_new_old row (r ∷ rs) h = elim (Bool-cases (same r row)) [
    | inl here ↦ rw here refl
    | inr other ↦ elim h [
      | inl here ↦ absurd (ground (arith, here, other))
      | inr there ↦ rw other (ap (λ l. r ∷ l) (insert_new_old row rs there))
    ]
  ]

  Has-insert_new :
      (row other : A) (table : List A) → Has row table → Has row (insert_new same other table)
  Has-insert_new row other [] h = elim h [ ]
  Has-insert_new row other (r ∷ rs) h = elim (Bool-cases (same r other)) [
    | inl here ↦ rw here h
    | inr apart ↦
        rw apart (elim h [ inl e ↦ inl e | inr there ↦ inr (Has-insert_new row other rs there) ])
  ]

  Has-insert_all :
      (row : A) (rows table : List A) → Has row table → Has row (insert_all same rows table)
  Has-insert_all row [] table h = h
  Has-insert_all row (other ∷ rows) table h =
      Has-insert_all row rows (insert_new same other table) (Has-insert_new row other table h)

  insert_all_old :
      (rows table : List A) → All (λ r. Has r table) rows → insert_all same rows table ≡ table
  insert_all_old [] table h = refl
  insert_all_old (row ∷ rows) table h =
      rw (insert_new_old row table h.0) (insert_all_old rows table h.1)

  module _ (reflexive : (r : A) → same r r ≡ true) where
    insert_new-Has : (row : A) (table : List A) → Has row (insert_new same row table)
    insert_new-Has row [] = inl (reflexive row)
    insert_new-Has row (r ∷ rs) = elim (Bool-cases (same r row)) [
      | inl here ↦ rw here (inl here)
      | inr apart ↦ rw apart (inr (insert_new-Has row rs))
    ]

    insert_all-Has : (rows table : List A) → All (λ r. Has r (insert_all same rows table)) rows
    insert_all-Has [] table = tt
    insert_all-Has (row ∷ rows) table =
        let inserted = insert_new same row table in
        (Has-insert_all row rows inserted (insert_new-Has row table), insert_all-Has rows inserted)

    insert_all_twice :
        (rows table : List A)
        → insert_all same rows (insert_all same rows table) ≡ insert_all same rows table
    insert_all_twice rows table =
        insert_all_old rows (insert_all same rows table) (insert_all-Has rows table)

same_number : (n : ℕ) → (n == n) ≡ true
same_number n = ground arith

pub same_event_refl : (e : EventId) → same_event e e ≡ true
same_event_refl (entry_event t) = same_number t
same_event_refl (exit_event t) = same_number t
same_event_refl (daily_summary_event d) = eq_refl d

same_entry_refl : (e : ShadowJournalEntry) → same_entry e e ≡ true
same_entry_refl e = rw (eq_refl e.entry_type) (same_number e.timestamp_ms)

module _ {D F : Type 0} (fault : Option CycleFault) (rows : CycleRows D F) (now_ms : ℕ)
    (status : CycleStatus) where
  -- The database with the rows of a cycle.
  abbrev pub with_rows : ShadowDb D F → ShadowDb D F
  with_rows db = record db {
    trades = insert_all (same_on exit_of) rows.new_trades db.trades;
    equity = insert_all (same_on time_of) rows.new_equity_points db.equity;
    journal_entries = insert_all same_entry rows.new_journal_entries db.journal_entries;
    outbox = insert_all same_notification rows.notification_events db.outbox;
    run_state = some (advanced rows now_ms status (get_run_state db).total_cycles);
  }

  abbrev pub IsDecided : Type 0
  IsDecided =
      ((db : ShadowDb D F)
        → record_cycle_atomically fault rows now_ms status db ≡ (raise injected_test_fault, db))
      ⊎ ((db : ShadowDb D F)
          → record_cycle_atomically fault rows now_ms status db ≡ (ok tt, with_rows db))

  pub record_cycle_atomically-IsDecided : IsDecided
  unfolding record_cycle_atomically cycle_statements
  record_cycle_atomically-IsDecided = elim (Bool-cases (is_fault fault after_trades)) [
    | inl a ↦ rw (a, record_cycle_atomically, cycle_statements) (inl (λ db. refl))
    | inr a ↦ elim (Bool-cases (is_fault fault after_equity)) [
      | inl b ↦ rw (a, b, record_cycle_atomically, cycle_statements) (inl (λ db. refl))
      | inr b ↦ elim (Bool-cases (is_fault fault after_journal)) [
        | inl c ↦ rw (a, b, c, record_cycle_atomically, cycle_statements) (inl (λ db. refl))
        | inr c ↦ elim (Bool-cases (is_fault fault after_notifications)) [
          | inl d ↦ rw (a, b, c, d, record_cycle_atomically, cycle_statements) (inl (λ db. refl))
          | inr d ↦ elim (Bool-cases (is_fault fault before_commit)) [
            | inl e ↦
                rw (a, b, c, d, e, record_cycle_atomically, cycle_statements) (inl (λ db. refl))
            | inr e ↦
                rw (a, b, c, d, e, record_cycle_atomically, cycle_statements) (inr (λ db. refl))
          ]
        ]
      ]
    ]
  ]

  -- Recording a cycle either raises and leaves the database as it was, or it returns, and then
  -- recording the same rows again returns too and leaves every table of rows, the high-water mark and
  -- the open position as they are; only the cycle is counted once more.
  pub record_cycle_atomically_twice :
      (db : ShadowDb D F)
      → (record_cycle_atomically fault rows now_ms status db ≡ (raise injected_test_fault, db))
        ⊎ ((once : ShadowDb D F) × (record_cycle_atomically fault rows now_ms status db
              ≡ (ok tt, once))
            × (record_cycle_atomically fault rows now_ms status once ≡ (
              ok tt,
              record once {
                run_state =
                    some (advanced rows now_ms status ((get_run_state db).total_cycles + 1));
              },
            )))
  unfolding get_run_state
  record_cycle_atomically_twice db = elim record_cycle_atomically-IsDecided [
    | inl fails ↦ inl (fails db)
    | inr writes ↦ inr (
      with_rows db,
      writes db,
      writes (with_rows db)
          ∙ rw
              (
                insert_all_twice (same_on exit_of) (λ r. same_number (exit_of r)) rows.new_trades
                    db.trades,
                insert_all_twice (same_on time_of) (λ p. same_number p.timestamp_ms)
                    rows.new_equity_points db.equity,
                insert_all_twice same_entry same_entry_refl rows.new_journal_entries
                    db.journal_entries,
                insert_all_twice same_notification (λ n. same_event_refl n.event_id)
                    rows.notification_events db.outbox,
              )
              refl,
    )
  ]
