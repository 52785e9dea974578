-- ===== src/Shadow/Sender/Delivery.antt =====
-- The outbox and the sent texts after a delivery.
use binance_testnet_trading.Base.{
  All, Bool, Bool-cases, In, List, Option, Option-cases, String, [], any, ap, arith, false, inl,
  inr, is_some, keep, length, ltb, none, refl, sym, true, ℕ, ◌||◌, ◌∙◌, ◌∷◌, ◌≡◌, ◌⊎◌,
}
use binance_testnet_trading.Shadow.Store.{NotificationEvent, same_event}
use binance_testnet_trading.Shadow.Sender.{
  Chat, FlushResult, SendOutcome, SendResult, TelegramSettings, counted, deliver,
  flush_pending_notifications, is_pending, is_telegram_active, outcome_to_status, pending_events,
  send_outcome_ambiguous, send_outcome_failed, send_outcome_sent, update_notification_status,
}
use binance_testnet_trading.Shadow.Tables.{insert_on, sort_on}
use binance_testnet_trading.Shadow.Store.Cycles.{same_event_refl}
use binance_testnet_trading.Data.Forensics.Outcomes.{All_of_In}

-- A row is not pending, or one of the events still to be sent is its own.
abbrev Covered : List NotificationEvent → NotificationEvent → Type 0
Covered events row =
    (is_pending row.status ≡ false) ⊎ (any (λ e. same_event row.event_id e.event_id) events ≡ true)

outcome_not_pending : (o : SendOutcome) → is_pending (outcome_to_status o) ≡ false
outcome_not_pending send_outcome_sent = refl
outcome_not_pending send_outcome_ambiguous = refl
outcome_not_pending send_outcome_failed = refl

update_covers :
    (event : NotificationEvent) (events : List NotificationEvent) (answer : SendResult) (now_ms : ℕ)
    (outbox : List NotificationEvent)
    → All (Covered (event ∷ events)) outbox
    → All (Covered events) (update_notification_status event answer now_ms outbox)
update_covers event events answer now_ms [] c = tt
update_covers event events answer now_ms (row ∷ rows) c =
    let rest = update_covers event events answer now_ms rows c.1 in
    elim (Bool-cases (same_event row.event_id event.event_id)) [
      | inl own ↦ rw own (inl (outcome_not_pending answer.outcome), rest)
      | inr other ↦ rw other (
        elim c.0 [ inl settled ↦ inl settled | inr waiting ↦ inr (ground (arith, other, waiting)) ],
        rest,
      )
    ]

-- The texts, sent one after the other.
abbrev pub logged : List NotificationEvent → List String → List String
logged [] messages = messages
logged (event ∷ events) messages = logged events (event.payload_text ∷ messages)

any-insert_on :
    (p : NotificationEvent → Bool) (x : NotificationEvent) (xs : List NotificationEvent)
    → any p (insert_on (λ n. n.created_at_ms) x xs) ≡ any p (x ∷ xs)
any-insert_on p x [] = refl
any-insert_on p x (y ∷ ys) =
    let rest = any-insert_on p x ys in
    elim (Bool-cases (ltb y.created_at_ms x.created_at_ms)) [
      | inl later ↦ rw (later, rest) (ground arith)
      | inr first ↦ rw first refl
    ]

any-sort_on :
    (p : NotificationEvent → Bool) (xs : List NotificationEvent)
    → any p (sort_on (λ n. n.created_at_ms) xs) ≡ any p xs
any-sort_on p [] = refl
any-sort_on p (x ∷ xs) =
    any-insert_on p x (sort_on (λ n. n.created_at_ms) xs) ∙ ap (λ b. p x || b) (any-sort_on p xs)

counted_keeps :
    (o : SendOutcome) (r : FlushResult)
    → ((counted o r).attempted ≡ r.attempted) × ((counted o r).skipped_reason ≡ r.skipped_reason)
counted_keeps send_outcome_sent r = (refl, refl)
counted_keeps send_outcome_ambiguous r = (refl, refl)
counted_keeps send_outcome_failed r = (refl, refl)

any_or : (a b : Bool) → b ≡ true → (a || b) ≡ true
any_or a b h = ground (arith, h)

own_event :
    (row : NotificationEvent) (rows : List NotificationEvent)
    → In row rows
    → is_pending row.status ≡ true
    → any (λ e. same_event row.event_id e.event_id) (keep (λ n. is_pending n.status) rows) ≡ true
own_event row [] m h = elim m [ ]
own_event row (r ∷ rows) m h = elim m [
  | inl e ↦
      let pending : is_pending r.status ≡ true = ap (λ n. is_pending n.status) (sym e) ∙ h in
      let own : same_event row.event_id r.event_id ≡ true =
        ap (λ n. same_event row.event_id n.event_id) (sym e) ∙ same_event_refl row.event_id in
      rw (pending, own) refl
  | inr there ↦
      let rest = own_event row rows there h in
      elim (Bool-cases (is_pending r.status)) [
        | inl kept ↦ rw kept (any_or (same_event row.event_id r.event_id) _ rest)
        | inr left ↦ rw left rest
      ]
]

-- Every pending row has itself among the pending events.
pending-Covered : (outbox : List NotificationEvent) → All (Covered (pending_events outbox)) outbox
pending-Covered outbox = All_of_In (Covered (pending_events outbox)) outbox (λ row m.
    elim (Bool-cases (is_pending row.status)) [
      | inr settled ↦ inl settled
      | inl pending ↦ inr (
          any-sort_on (λ e. same_event row.event_id e.event_id)
            (keep (λ n. is_pending n.status) outbox)
          ∙ own_event row outbox m pending)
    ])

all_settled :
    (outbox : List NotificationEvent)
    → All (Covered []) outbox
    → All (λ n. is_pending n.status ≡ false) outbox
all_settled [] c = tt
all_settled (row ∷ rows) c =
    (elim c.0 [ inl settled ↦ settled | inr waiting ↦ ground arith ], all_settled rows c.1)

module _ (send_message : List String → String → Option SendResult) (clock : List String → ℕ)
    (settings : TelegramSettings)
    (answers : (messages : List String) (text : String)
      → is_some (send_message messages text) ≡ true) where
  deliver_settles :
      (events : List NotificationEvent) (result : FlushResult) (chat : Chat)
      → All (Covered events) chat.outbox
      → let (done, after) = deliver send_message clock settings events result chat in
        (done.attempted ≡ result.attempted)
        × (done.skipped_reason ≡ result.skipped_reason)
        × All (λ n. is_pending n.status ≡ false) after.outbox
        × (after.messages ≡ logged events chat.messages)
  unfolding deliver
  deliver_settles [] result chat c = (refl, refl, all_settled chat.outbox c, refl)
  deliver_settles (event ∷ events) result chat c =
      elim (Option-cases (send_message chat.messages event.payload_text)) [
        | inl raised ↦
            let some_answer = answers chat.messages event.payload_text in
            ground (arith, raised, some_answer)
        | inr (answer, sent) ↦
            let rest =
              deliver_settles events (counted answer.outcome result)
                (record {
                  outbox =
                      update_notification_status event answer (clock chat.messages) chat.outbox;
                  messages = event.payload_text ∷ chat.messages;
                })
                (update_covers event events answer (clock chat.messages) chat.outbox c) in
            let same = counted_keeps answer.outcome result in
            rw (sent, deliver) (rest.0 ∙ same.0, rest.1 ∙ same.1, rest.2, rest.3)
      ]

  -- Where notifications are active, the secrets are there and Telegram's client answers, a flush
  -- attempts every pending notification, sends each of their texts once, in the order in which they
  -- were made, and leaves none pending, whatever the answers.
  pub flush_pending_notifications_settles :
      (chat : Chat)
      → is_telegram_active settings ≡ none
      → settings.has_secrets ≡ true
      → let (done, after) = flush_pending_notifications send_message clock settings chat in
        (done.attempted ≡ length (pending_events chat.outbox))
        × (done.skipped_reason ≡ none)
        × All (λ n. is_pending n.status ≡ false) after.outbox
        × (after.messages ≡ logged (pending_events chat.outbox) chat.messages)
  unfolding flush_pending_notifications
  flush_pending_notifications_settles chat active secrets =
      rw (active, secrets, flush_pending_notifications)
        (deliver_settles (pending_events chat.outbox) _ chat (pending-Covered chat.outbox))
