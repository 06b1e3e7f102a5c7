-- ===== src/Review/Decide.antt =====
-- internal/review/adapter/postgres/decide.go: the decision transaction. It holds the locks of the
-- request's row and of the group whose seats it counts from its first reads to its commit.
pub mod Steps
pub mod Effects
use profundiza_uq_backend.Base.{
  Bool, Option, none, some, List, [], ◌∷◌, ◌++◌, Uuid, ◌==◌, leb, ◌&&◌, not, is_some, if◌then◌else◌,
  Result, ok, err, guard, or_err, ◌>>=◌, ◌>>◌,
}
use profundiza_uq_backend.Base.Table.{is_in, length, count, select_one, find, modify}
use profundiza_uq_backend.Base.Text.{Text, text, btrim}
use profundiza_uq_backend.Shared.Audit.{ActorType, object, uuid, name, write}
use profundiza_uq_backend.Notification.Outbox.{Message, Notification, enqueue}
use profundiza_uq_backend.Enrollment.Status.{RequestStatus, is_active}
use profundiza_uq_backend.Enrollment.Rules.{
  DecisionType, accept, reject, admin_cancel, move_to_review, create_group_acceptance,
  capacity_adjustment_acceptance, unknown, RuleError, target_group_required, DecisionContext,
  apply_decision, is_create_group,
}
use profundiza_uq_backend.Enrollment.Database.{
  OfferingGroup, EnrollmentRequest, EnrollmentDecision, Database, RequestView, group_id, request_id,
  seated_in, accepted_in_semester, active_in_group, get,
}
use profundiza_uq_backend.Enrollment.Submit.{Session, status_name}
use profundiza_uq_backend.Enrollment.Cancel.{locked_request}

-- `check_failed` is PostgreSQL's refusal of a decision row whose reason is too short, and
-- `admin_missing` that of one whose administrator does not exist.
pub data ReviewError : Type 0 where
  rule : RuleError → ReviewError
  request_not_found target_group_not_found target_group_offering_mismatch : ReviewError
  duplicate_active_in_target_group group_missing check_failed admin_missing : ReviewError

-- `DecisionInput`; an empty target group id is `none`.
pub record DecisionInput : Type 0 where
  pub request_id : Uuid
  pub admin_user_id : Uuid
  pub decision_type : DecisionType
  pub reason : Text
  pub target_group_id : Option Uuid

pub record DecisionResult : Type 0 where
  pub request : RequestView
  pub decision : EnrollmentDecision

-- The stored names of the decisions.
unfoldable pub decision_name : DecisionType → Text
unfolding text
decision_name accept = text "ACCEPT"
decision_name reject = text "REJECT"
decision_name admin_cancel = text "ADMIN_CANCEL"
decision_name move_to_review = text "MOVE_TO_REVIEW"
decision_name create_group_acceptance = text "CREATE_GROUP_ACCEPTANCE"
decision_name capacity_adjustment_acceptance = text "CAPACITY_ADJUSTMENT_ACCEPTANCE"
decision_name (unknown s) = s

-- The group whose seats are counted: the target of a create-group acceptance, which must exist and
-- belong to the request's offering, else the request's own.
unfoldable pub capacity_group :
    DecisionInput → EnrollmentRequest → Database → Result ReviewError Uuid
capacity_group i r db =
    if is_create_group i.decision_type
    then (do
      target ← or_err i.target_group_id (rule target_group_required)
      g ← or_err (find group_id target db.groups) target_group_not_found
      guard (g.offering_id == r.offering_id) target_group_offering_mismatch
      ok target)
    else ok r.offering_group_id

-- The facts that the rules are given.
unfoldable pub context :
    DecisionInput → EnrollmentRequest → OfferingGroup → Database → DecisionContext
context i r g db = record {
  current_status = r.status;
  reason = i.reason;
  group_capacity = g.capacity;
  group_accepted_count = count (seated_in g.id) db.requests;
  student_accepted_in_semester =
      count (accepted_in_semester r.student_id r.semester_id) db.requests;
  target_group_id = i.target_group_id;
}

abbrev pub lift_rule : Result RuleError RequestStatus → Result ReviewError RequestStatus
lift_rule (ok a) = ok a
lift_rule (err e) = err (rule e)

-- The UPDATE of the row: a create-group acceptance also moves it to the target.
unfoldable pub decided :
    DecisionInput → Uuid → RequestStatus → EnrollmentRequest → EnrollmentRequest
decided i target status r =
    if is_create_group i.decision_type
    then record r { status = status; offering_group_id = target }
    else record r { status = status }

-- Whether that UPDATE breaks `uq_active_request_per_group`: another active request of the student
-- stands in the target group. Only the move can break it.
unfoldable pub moves_onto_active :
    DecisionInput → Uuid → RequestStatus → EnrollmentRequest → Database → Bool
moves_onto_active i target status r db =
    is_create_group i.decision_type
    && is_active status
    && is_some (
        select_one (λ q. not (q.id == r.id) && active_in_group r.student_id r.semester_id target q)
          db.requests)

-- The CHECK of `enrollment_decisions.reason`, in characters.
unfoldable pub reason_check : Text → Bool
reason_check reason = leb 3 (length (btrim reason))

-- `notifyFor`; no message for a move to review.
unfoldable pub notify_for : DecisionType → Text → Option (Text × Text × Text)
unfolding text
notify_for accept reason = some (
  text "REQUEST_ACCEPTED",
  text "Your enrollment request was accepted",
  text "Your enrollment request has been accepted. Reason: " ++ reason,
)
notify_for create_group_acceptance reason = some (
  text "REQUEST_ACCEPTED",
  text "Your enrollment request was accepted",
  text "Your enrollment request has been accepted. Reason: " ++ reason,
)
notify_for capacity_adjustment_acceptance reason = some (
  text "REQUEST_ACCEPTED",
  text "Your enrollment request was accepted",
  text "Your enrollment request has been accepted. Reason: " ++ reason,
)
notify_for reject reason = some (
  text "REQUEST_REJECTED",
  text "Your enrollment request was rejected",
  text "Your enrollment request was rejected. Reason: " ++ reason,
)
notify_for admin_cancel reason = some (
  text "REQUEST_CANCELLED_BY_ADMIN",
  text "Your enrollment request was cancelled",
  text "Your enrollment request was cancelled by an administrator. Reason: " ++ reason,
)
notify_for move_to_review reason = none
notify_for (unknown s) reason = none

-- The message for the student, where there is one.
abbrev pub message_for : EnrollmentRequest → Text → Text × Text × Text → Message
message_for r email (kind, subject, body) = record {
  recipient_user_id = some r.student_id;
  recipient_email = email;
  kind = kind;
  subject = subject;
  body = body;
  related_entity_type = text "EnrollmentRequest";
  related_entity_id = some r.id;
}

unfoldable pub notify_student :
    Session
    → EnrollmentRequest
    → Text
    → Option (Text × Text × Text)
    → List Notification
    → List Notification
notify_student s r email none rows = rows
notify_student s r email (some m) rows =
    enqueue s.inbox_uuid s.mail_uuid s.now (message_for r email m) rows

-- The row of `enrollment_decisions`.
abbrev pub new_decision :
    Session → DecisionInput → EnrollmentRequest → RequestStatus → EnrollmentDecision
new_decision s i r status = record {
  id = s.request_uuid;
  enrollment_request_id = i.request_id;
  admin_user_id = i.admin_user_id;
  decision_type = i.decision_type;
  previous_status = r.status;
  new_status = status;
  reason = i.reason;
  created_at = s.now;
}

-- The UPDATE, the decision, the audit event and the notification.
unfoldable pub decide_writes :
    Session → DecisionInput → Uuid → EnrollmentRequest → Text → RequestStatus → Database → Database
unfolding text
decide_writes s i target r email status db = record db {
  requests = modify request_id i.request_id (decided i target status) db.requests;
  decisions = db.decisions ++ new_decision s i r status ∷ [];
  audit_events =
      write s.meta
        (record {
          actor_type = ActorType.admin;
          actor_id = some i.admin_user_id;
          action = text "ENROLLMENT_DECISION_" ++ decision_name i.decision_type;
          entity_type = text "EnrollmentRequest";
          entity_id = uuid i.request_id;
          previous_value = some (object ((text "status", name (status_name r.status)) ∷ []));
          new_value = some (object ((text "status", name (status_name status)) ∷ []));
          reason = i.reason;
          ip_address = [];
          user_agent = [];
        })
        db.audit_events;
  notifications = notify_student s r email (notify_for i.decision_type i.reason) db.notifications;
}

-- The transaction: the database after it and the decision, or the error that rolls it back.
unfoldable pub decide_tx :
    Session → DecisionInput → Database → Result ReviewError (Database × EnrollmentDecision)
unfolding locked_request
decide_tx s i db = do
  (r, st) ← or_err (locked_request db i.request_id) request_not_found
  target ← capacity_group i r db
  g ← or_err (find group_id target db.groups) group_missing
  status ← lift_rule (apply_decision i.decision_type (context i r g db))
  guard (not (moves_onto_active i target status r db)) duplicate_active_in_target_group
  guard (reason_check i.reason) check_failed
  guard (is_in db.admins i.admin_user_id) admin_missing
  ok (decide_writes s i target r st.institutional_email status db, new_decision s i r status)

-- `Decide`, which reads the row back after the commit.
unfoldable pub decide :
    Session → DecisionInput → Database → Database × Result ReviewError DecisionResult
decide s i db = elim (decide_tx s i db) [
  | err e ↦ (db, err e)
  | ok (db', d) ↦ elim (get db' i.request_id) [
    | none ↦ (db', err request_not_found)
    | some view ↦ (db', ok (record { request = view; decision = d }))
  ]
]
