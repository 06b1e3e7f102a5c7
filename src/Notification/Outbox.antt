-- ===== src/Notification/Outbox.antt =====
-- internal/notification/outbox.go, the `notifications` table (migrations 000001 and 000003) and
-- internal/notification/domain/notification.go.
use profundiza_uq_backend.Base.{ℕ, Option, none, List, [], ◌∷◌, ◌++◌, Uuid, Time}
use profundiza_uq_backend.Base.Text.{Text, null_if_empty}

pub data Channel : Type 0 where
  email in_app : Channel

-- The column's CHECK of migration 000003; `sending` is the worker's transient status.
pub data DeliveryStatus : Type 0 where
  pending sending sent failed cancelled : DeliveryStatus

-- `Message`; an empty id is `none`.
pub record Message : Type 0 where
  pub recipient_user_id : Option Uuid
  pub recipient_email : Text
  pub kind : Text
  pub subject : Text
  pub body : Text
  pub related_entity_type : Text
  pub related_entity_id : Option Uuid

-- A row of `notifications`.
pub record Notification : Type 0 where
  pub id : Uuid
  pub recipient_user_id : Option Uuid
  pub recipient_email : Text
  pub kind : Text
  pub channel : Channel
  pub subject : Text
  pub body : Text
  pub delivery_status : DeliveryStatus
  pub related_entity_type : Option Text
  pub related_entity_id : Option Uuid
  pub read_at : Option Time
  pub created_at : Time
  pub sent_at : Option Time
  pub failed_at : Option Time
  pub failure_reason : Option Text
  pub attempt_count : ℕ
  pub next_attempt_at : Option Time
  pub claimed_at : Option Time

-- The row that the INSERT makes, with the column defaults; the database draws the id.
unfoldable pub new_row : Uuid → Time → Channel → Message → Notification
new_row id now channel m = record {
  id = id;
  recipient_user_id = m.recipient_user_id;
  recipient_email = m.recipient_email;
  kind = m.kind;
  channel = channel;
  subject = m.subject;
  body = m.body;
  delivery_status = pending;
  related_entity_type = null_if_empty m.related_entity_type;
  related_entity_id = m.related_entity_id;
  read_at = none;
  created_at = now;
  sent_at = none;
  failed_at = none;
  failure_reason = none;
  attempt_count = 0;
  next_attempt_at = none;
  claimed_at = none;
}

-- `Enqueue`: one row for the inbox, then one for the mail.
unfoldable pub enqueue : Uuid → Uuid → Time → Message → List Notification → List Notification
unfolding new_row
enqueue inbox_id mail_id now m rows =
    (rows ++ new_row inbox_id now in_app m ∷ []) ++ new_row mail_id now email m ∷ []
