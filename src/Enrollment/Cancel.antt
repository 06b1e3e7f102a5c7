-- ===== src/Enrollment/Cancel.antt =====
-- internal/enrollment/adapter/postgres/cancel.go: a student cancels a request.
pub mod Steps
pub mod Effects
use profundiza_uq_backend.Base.{
  Option, none, some, [], ◌∷◌, Uuid, ◌==◌, not, Result, ok, err, guard, or_err, ◌>>=◌, ◌>>◌,
}
use profundiza_uq_backend.Base.Table.{find, modify}
use profundiza_uq_backend.Base.Text.{Text, text}
use profundiza_uq_backend.Shared.Audit.{ActorType, object, uuid, name, write}
use profundiza_uq_backend.Notification.Outbox.{enqueue}
use profundiza_uq_backend.Enrollment.Status.{cancelled_by_student, is_terminal}
use profundiza_uq_backend.Enrollment.Database.{
  EnrollmentRequest, Student, Database, RequestView, request_id, student_key, get,
}
use profundiza_uq_backend.Enrollment.Submit.{
  EnrollmentError, not_found, forbidden, not_cancelable, Session, status_name,
}

pub record CancelInput : Type 0 where
  pub request_id : Uuid
  pub student_id : Uuid

-- The locked row and the student's email: the JOIN with `students`.
unfoldable pub locked_request : Database → Uuid → Option (EnrollmentRequest × Student)
locked_request db id = elim (find request_id id db.requests) [
  | none ↦ none
  | some r ↦ elim (find student_key r.student_id db.students) [
    | none ↦ none
    | some st ↦ some (r, st)
  ]
]

-- The UPDATE of the row.
abbrev pub cancelled : Session → EnrollmentRequest → EnrollmentRequest
cancelled s r = record r { status = cancelled_by_student; cancelled_at = some s.now }

-- The UPDATE, the audit event and the notification.
unfoldable pub cancel_writes :
    Session → CancelInput → EnrollmentRequest → Text → Database → Database
unfolding text
cancel_writes s i r email db = record db {
  requests = modify request_id i.request_id (cancelled s) db.requests;
  audit_events =
      write s.meta
        (record {
          actor_type = ActorType.student;
          actor_id = some i.student_id;
          action = text "ENROLLMENT_CANCELLED_BY_STUDENT";
          entity_type = text "EnrollmentRequest";
          entity_id = uuid i.request_id;
          previous_value = some (object ((text "status", name (status_name r.status)) ∷ []));
          new_value = some (object ((text "status", name (status_name cancelled_by_student)) ∷ []));
          reason = [];
          ip_address = [];
          user_agent = [];
        })
        db.audit_events;
  notifications =
      enqueue s.inbox_uuid s.mail_uuid s.now
        (record {
          recipient_user_id = some i.student_id;
          recipient_email = email;
          kind = text "REQUEST_CANCELLED_BY_STUDENT";
          subject = text "Your enrollment request was cancelled";
          body =
              text
                "You cancelled your enrollment request. Your previous position is no longer reserved.";
          related_entity_type = text "EnrollmentRequest";
          related_entity_id = some i.request_id;
        })
        db.notifications;
}

-- The transaction: the database after it, or the error that rolls it back.
unfoldable pub cancel_tx : Session → CancelInput → Database → Result EnrollmentError Database
unfolding locked_request
cancel_tx s i db = do
  (r, st) ← or_err (locked_request db i.request_id) not_found
  guard (r.student_id == i.student_id) forbidden
  guard (not (is_terminal r.status)) not_cancelable
  ok (cancel_writes s i r st.institutional_email db)

-- `Cancel`, which reads the row back after the commit.
unfoldable pub cancel :
    Session → CancelInput → Database → Database × Result EnrollmentError RequestView
cancel s i db = elim (cancel_tx s i db) [
  | err e ↦ (db, err e)
  | ok db' ↦ (db', or_err (get db' i.request_id) not_found)
]
