-- ===== src/Shadow/Sender.antt =====
-- shadow/notifications/sender.py: the delivery of what is in the outbox. Telegram's answer to a message
-- may depend on all messages before, and may be any exception; the clock is read once a message.
pub mod Delivery
use binance_testnet_trading.Base.{
  Bool, List, Option, String, [], false, if◌then◌else◌, keep, length, none, not, some, true, ℕ, ◌+◌,
  ◌||◌, ◌∷◌,
}
use binance_testnet_trading.Shadow.Store.{
  EventId, NotificationEvent, NotificationStatus, ambiguous_status, failed_status, pending_status,
  same_event, sent_status,
}
use binance_testnet_trading.Shadow.Tables.{sort_on}

pub data SendOutcome : Type 0 where
  send_outcome_sent send_outcome_ambiguous send_outcome_failed : SendOutcome

pub record SendResult : Type 0 where
  pub outcome : SendOutcome
  pub attempts : ℕ
  pub safe_error : Option String

abbrev pub outcome_to_status : SendOutcome → NotificationStatus
outcome_to_status send_outcome_sent = sent_status
outcome_to_status send_outcome_ambiguous = ambiguous_status
outcome_to_status send_outcome_failed = failed_status

pub data SkipReason : Type 0 where
  telegram_not_enabled notifications_disabled telegram_not_configured unexpected_error : SkipReason

pub record FlushResult : Type 0 where
  pub attempted : ℕ
  pub sent : ℕ
  pub ambiguous : ℕ
  pub failed : ℕ
  pub skipped_reason : Option SkipReason

abbrev pub nothing_attempted : SkipReason → FlushResult
nothing_attempted reason = record {
  attempted = 0;
  sent = 0;
  ambiguous = 0;
  failed = 0;
  skipped_reason = some reason;
}

-- `telegram.enabled`, the kill switch of notifications, and whether the secrets are present.
pub record TelegramSettings : Type 0 where
  pub enabled : Bool
  pub is_disabled : Bool
  pub has_secrets : Bool

unfoldable pub is_telegram_active : TelegramSettings → Option SkipReason
is_telegram_active settings =
    if not settings.enabled
    then some telegram_not_enabled
    else if settings.is_disabled
    then some notifications_disabled
    else none

abbrev pub is_pending : NotificationStatus → Bool
is_pending pending_status = true
is_pending _ = false

abbrev pub is_sent : NotificationStatus → Bool
is_sent sent_status = true
is_sent _ = false

-- The outbox, and the texts sent so far, latest first.
pub record Chat : Type 0 where
  pub outbox : List NotificationEvent
  pub messages : List String

-- `list_notifications(status=PENDING)`
abbrev pub pending_events : List NotificationEvent → List NotificationEvent
pending_events outbox = sort_on (λ n. n.created_at_ms) (keep (λ n. is_pending n.status) outbox)

abbrev pub with_result : NotificationEvent → SendResult → ℕ → NotificationEvent → NotificationEvent
with_result event result now_ms row =
    let status = outcome_to_status result.outcome in
    record row {
      status = status;
      attempt_count = event.attempt_count + result.attempts;
      last_attempt_at_ms = some now_ms;
      last_error = result.safe_error;
      sent_at_ms = if is_sent status then some now_ms else none;
    }

-- `UPDATE ... WHERE event_id = ?`
abbrev pub update_notification_status :
    NotificationEvent → SendResult → ℕ → List NotificationEvent → List NotificationEvent
update_notification_status event result now_ms [] = []
update_notification_status event result now_ms (row ∷ rows) =
    let rest = update_notification_status event result now_ms rows in
    (if same_event row.event_id event.event_id then with_result event result now_ms row else row)
    ∷ rest

abbrev pub counted : SendOutcome → FlushResult → FlushResult
counted send_outcome_sent r = record r { sent = r.sent + 1 }
counted send_outcome_ambiguous r = record r { ambiguous = r.ambiguous + 1 }
counted send_outcome_failed r = record r { failed = r.failed + 1 }

module _ (send_message : List String → String → Option SendResult) (clock : List String → ℕ)
    (settings : TelegramSettings) where
  -- `for event in pending`; what was written before an exception stays written.
  unfoldable pub deliver : List NotificationEvent → FlushResult → Chat → FlushResult × Chat
  deliver [] result chat = (result, chat)
  deliver (event ∷ events) result chat =
      let sending = event.payload_text ∷ chat.messages in
      elim (send_message chat.messages event.payload_text) [
        | none ↦ (nothing_attempted unexpected_error, record chat { messages = sending })
        | some answer ↦ deliver events (counted answer.outcome result) (record {
          outbox = update_notification_status event answer (clock chat.messages) chat.outbox;
          messages = sending;
        })
      ]

  unfoldable pub flush_pending_notifications : Chat → FlushResult × Chat
  unfolding deliver
  flush_pending_notifications chat = elim (is_telegram_active settings) [
    | some reason ↦ (nothing_attempted reason, chat)
    | none ↦
        if not settings.has_secrets
        then (nothing_attempted telegram_not_configured, chat)
        else let pending = pending_events chat.outbox in
          deliver pending
            (record {
              attempted = length pending;
              sent = 0;
              ambiguous = 0;
              failed = 0;
              skipped_reason = none;
            })
            chat
  ]

  abbrev pub get_notification : EventId → List NotificationEvent → Option NotificationEvent
  get_notification event_id [] = none
  get_notification event_id (row ∷ rows) =
      let rest = get_notification event_id rows in
      if same_event row.event_id event_id then some row else rest

  -- `RetryResult.new_status`, or none where nothing was sent; the outer none is an exception.
  unfoldable pub retry_notification : EventId → Chat → Option (Option NotificationStatus) × Chat
  retry_notification event_id chat = elim (get_notification event_id chat.outbox) [
    | none ↦ (some none, chat)
    | some event ↦
        if is_sent event.status || not settings.has_secrets
        then (some none, chat)
        else elim (send_message chat.messages event.payload_text) [
          | none ↦ (none, record chat { messages = event.payload_text ∷ chat.messages })
          | some answer ↦ (
            some (some (outcome_to_status answer.outcome)),
            record {
              outbox = update_notification_status event answer (clock chat.messages) chat.outbox;
              messages = event.payload_text ∷ chat.messages;
            },
          )
        ]
  ]
