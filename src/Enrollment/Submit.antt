-- ===== src/Enrollment/Submit.antt =====
-- internal/enrollment/app/submit.go and internal/enrollment/adapter/postgres/submit.go: the
-- submission transaction. It holds the locks of the group's and the student's row from its first
-- reads to its commit, so it is one step on the database. The idempotency look-up before it is a
-- step of its own: `env` is what other sessions commit in between.
pub mod Steps
pub mod Seats
pub mod Effects
use profundiza_uq_backend.Base.{
  ℕ, suc, Bool, true, false, Option, none, some, List, [], ◌∷◌, ◌++◌, map, Uuid, Time, ◌==◌, leb,
  ◌&&◌, ◌||◌, not, is_some, if◌then◌else◌, Result, ok, err, ◌>>=◌, ◌>>◌, or_err,
}
use profundiza_uq_backend.Base.Table.{find, count, select, select_one, least}
use profundiza_uq_backend.Base.Text.{Text, text, to_lower}
use profundiza_uq_backend.Shared.Shift.{AcademicShift, same_as}
use profundiza_uq_backend.Shared.Audit.{Meta, ActorType, object, name, uuid, write}
use profundiza_uq_backend.Notification.Outbox.{enqueue}
use profundiza_uq_backend.Enrollment.Status.{
  PriorityGroup, direct_same_shift, waitlist_same_shift, waitlist_opposite_shift, RequestStatus,
  submitted, pending_review, waitlisted_same_shift, waitlisted_opposite_shift, accepted, rejected,
  cancelled_by_student, cancelled_by_admin, is_pending_review, is_direct,
}
use profundiza_uq_backend.Enrollment.Classify.{GroupOccupancy, classify}
use profundiza_uq_backend.Enrollment.Rules.{RuleError, validate_submission_allowed}
use profundiza_uq_backend.Enrollment.Database.{
  OfferingGroup, Student, EnrollmentWindow, EnrollmentRequest, Database, RowStatus, is_live,
  group_id, student_key, holds_in_semester, seated_in, active_in_group, has_key,
}

pub data EnrollmentError : Type 0 where
  group_not_found student_not_found window_closed : EnrollmentError
  rule : RuleError → EnrollmentError
  not_found forbidden not_cancelable duplicate_batch_item : EnrollmentError
  duplicate_active_request insert_failed : EnrollmentError

pub record SubmitInput : Type 0 where
  pub semester_id : Uuid
  pub student_id : Uuid
  pub offering_group_id : Uuid
  pub idempotency_key : Text

pub record SubmittedRequest : Type 0 where
  pub id : Uuid
  pub offering_id : Uuid
  pub status : RequestStatus
  pub priority_group : PriorityGroup
  pub arrival_sequence : ℕ
  pub existed : Bool

-- What the environment supplies to a transaction: `now()`, the ids that `gen_random_uuid()` draws,
-- the request's metadata, and which unique index PostgreSQL reports when a row violates both.
pub record Session : Type 0 where
  pub now : Time
  pub request_uuid : Uuid
  pub inbox_uuid : Uuid
  pub mail_uuid : Uuid
  pub meta : Meta
  pub reports_idempotency_first : Bool

-- The stored names of the statuses and priorities.
unfoldable pub status_name : RequestStatus → Text
unfolding text
status_name submitted = text "SUBMITTED"
status_name pending_review = text "PENDING_REVIEW"
status_name waitlisted_same_shift = text "WAITLIST_SAME_SHIFT"
status_name waitlisted_opposite_shift = text "WAITLIST_OPPOSITE_SHIFT"
status_name accepted = text "ACCEPTED"
status_name rejected = text "REJECTED"
status_name cancelled_by_student = text "CANCELLED_BY_STUDENT"
status_name cancelled_by_admin = text "CANCELLED_BY_ADMIN"

unfoldable pub priority_name : PriorityGroup → Text
unfolding text
priority_name direct_same_shift = text "DIRECT_SAME_SHIFT"
priority_name waitlist_same_shift = text "WAITLIST_SAME_SHIFT"
priority_name waitlist_opposite_shift = text "WAITLIST_OPPOSITE_SHIFT"

-- `strings.ReplaceAll(s, "_", " ")`
abbrev spaced : ℕ → ℕ
spaced c = if c == b'_' then b' ' else c

-- `humanStatus`
unfoldable pub human_status : RequestStatus → Text
unfolding text status_name to_lower
human_status pending_review = text "pending review"
human_status waitlisted_same_shift = text "on the waitlist"
human_status waitlisted_opposite_shift = text "on the waitlist"
human_status s = to_lower (map spaced (status_name s))

-- `findByIdempotencyKey`
unfoldable pub find_by_idempotency_key : SubmitInput → Database → Option SubmittedRequest
find_by_idempotency_key i db =
    elim (select_one (has_key i.student_id i.semester_id i.idempotency_key) db.requests) [
      | none ↦ none
      | some r ↦ some (record {
        id = r.id;
        offering_id = r.offering_id;
        status = r.status;
        priority_group = r.priority_group;
        arrival_sequence = r.arrival_sequence;
        existed = true;
      })
    ]

abbrev pub if_live {ℓ} : {A : Type ℓ} → (A → RowStatus) → Option A → Option A
if_live status none = none
if_live status (some a) = if is_live (status a) then some a else none

-- Step 1: the active group.
unfoldable pub lock_group : Database → Uuid → Option OfferingGroup
lock_group db group = if_live (λ g. g.status) (find group_id group db.groups)

-- Step 2: the active student.
unfoldable pub lock_student : Database → Uuid → Option Student
lock_student db student = if_live (λ s. s.status) (find student_key student db.students)

abbrev pub admits : AcademicShift → Option AcademicShift → Bool
admits shift none = true
admits shift (some target) = same_as target shift

-- The WHERE clause of step 3.
unfoldable pub is_open : Uuid → AcademicShift → Time → EnrollmentWindow → Bool
is_open semester shift now w =
    w.semester_id == semester
    && is_live w.status
    && leb w.starts_at now
    && leb now w.ends_at
    && admits shift w.target_shift

-- Step 3: the open window that ends first.
unfoldable pub open_window : Database → Uuid → AcademicShift → Time → Option EnrollmentWindow
unfolding is_open
open_window db semester shift now =
    least (λ w. w.ends_at) (select (is_open semester shift now) db.windows)

-- The pending requests that hold a direct slot.
abbrev pub holds_direct_slot : Uuid → EnrollmentRequest → Bool
holds_direct_slot group r =
    r.offering_group_id == group && is_pending_review r.status && is_direct r.priority_group

-- The seats of a group as the transaction counts them.
unfoldable pub occupancy : Database → OfferingGroup → GroupOccupancy
occupancy db g = record {
  capacity = g.capacity;
  accepted_count = count (seated_in g.id) db.requests;
  pending_direct_count = count (holds_direct_slot g.id) db.requests;
}

abbrev pub lift_rule {ℓ} : {A : Type ℓ} → Result RuleError A → Result EnrollmentError A
lift_rule (ok a) = ok a
lift_rule (err e) = err (rule e)

-- The row of the INSERT.
unfoldable pub new_request :
    Session
    → SubmitInput
    → Database
    → OfferingGroup
    → Student
    → EnrollmentWindow
    → EnrollmentRequest
new_request s i db g st w =
    let (priority, status) = classify st.academic_shift g.shift (occupancy db g) in
    record {
      id = s.request_uuid;
      semester_id = i.semester_id;
      student_id = i.student_id;
      offering_id = g.offering_id;
      offering_group_id = i.offering_group_id;
      enrollment_window_id = some w.id;
      student_shift = st.academic_shift;
      offering_shift = g.shift;
      priority_group = priority;
      status = status;
      arrival_sequence = db.arrival_seq;
      idempotency_key = i.idempotency_key;
      submitted_at = s.now;
      cancelled_at = none;
    }

-- Steps 1 to 5: the reads and checks up to the INSERT, with the student's email.
unfoldable pub prepare :
    Session → SubmitInput → Database → Result EnrollmentError (EnrollmentRequest × Text)
unfolding validate_submission_allowed
prepare s i db = do
  g ← or_err (lock_group db i.offering_group_id) group_not_found
  st ← or_err (lock_student db i.student_id) student_not_found
  w ← or_err (open_window db i.semester_id st.academic_shift s.now) window_closed
  lift_rule (
      validate_submission_allowed
        (count (holds_in_semester i.student_id i.semester_id) db.requests))
  ok (new_request s i db g st w, st.institutional_email)

-- How the INSERT ends: the row is stored, or one of the two unique indexes refuses it.
pub data Inserted : Type 0 where
  stored active_conflict key_conflict : Inserted

unfoldable pub insert_outcome : Bool → EnrollmentRequest → List EnrollmentRequest → Inserted
insert_outcome key_first r requests =
    let key_taken =
      is_some (select_one (has_key r.student_id r.semester_id r.idempotency_key) requests) in
    let group_taken =
      is_some
        (select_one (active_in_group r.student_id r.semester_id r.offering_group_id) requests) in
    if key_taken && (key_first || not group_taken)
    then key_conflict
    else if group_taken
    then active_conflict
    else stored

-- Step 7: the audit event and the notification of a stored request.
unfoldable pub record_submission : Session → EnrollmentRequest → Text → Database → Database
unfolding text
record_submission s r email db = record db {
  requests = db.requests ++ r ∷ [];
  audit_events =
      write s.meta
        (record {
          actor_type = ActorType.student;
          actor_id = some r.student_id;
          action = text "ENROLLMENT_SUBMITTED";
          entity_type = text "EnrollmentRequest";
          entity_id = uuid r.id;
          previous_value = none;
          new_value = some (
              object (
                (text "status", name (status_name r.status))
                ∷ (text "priorityGroup", name (priority_name r.priority_group))
                ∷ (text "offeringGroupId", uuid r.offering_group_id)
                ∷ []));
          reason = [];
          ip_address = [];
          user_agent = [];
        })
        db.audit_events;
  notifications =
      enqueue s.inbox_uuid s.mail_uuid s.now
        (record {
          recipient_user_id = some r.student_id;
          recipient_email = email;
          kind = text "REQUEST_SUBMITTED";
          subject = text "We received your enrollment request";
          body =
              text "Your enrollment request was received and is now "
              ++ (human_status r.status ++ text ".");
          related_entity_type = text "EnrollmentRequest";
          related_entity_id = some r.id;
        })
        db.notifications;
  arrival_seq = suc db.arrival_seq;
}

-- A refused INSERT is rolled back, and has used up a number of the sequence.
abbrev pub burn : Database → Database
burn db = record db { arrival_seq = suc db.arrival_seq }

abbrev pub outcome_of : EnrollmentRequest → SubmittedRequest
outcome_of r = record {
  id = r.id;
  offering_id = r.offering_id;
  status = r.status;
  priority_group = r.priority_group;
  arrival_sequence = r.arrival_sequence;
  existed = false;
}

-- After a conflict on the key the transaction is rolled back and the request looked up again.
abbrev pub replay : Option SubmittedRequest → Result EnrollmentError SubmittedRequest
replay none = err insert_failed
replay (some existing) = ok existing

-- Steps 6 and 7.
unfoldable pub finish :
    Session
    → SubmitInput
    → Database
    → EnrollmentRequest
    → Text
    → Inserted
    → Database × Result EnrollmentError SubmittedRequest
finish s i db r email stored = (record_submission s r email db, ok (outcome_of r))
finish s i db r email active_conflict = (burn db, err duplicate_active_request)
finish s i db r email key_conflict = (burn db, replay (find_by_idempotency_key i db))

-- The transaction of `Submit`.
unfoldable pub submit_tx :
    Session → SubmitInput → Database → Database × Result EnrollmentError SubmittedRequest
unfolding finish
submit_tx s i db = elim (prepare s i db) [
  | err e ↦ (db, err e)
  | ok (r, email) ↦ finish s i db r email (insert_outcome s.reports_idempotency_first r db.requests)
]

-- `Submit`
unfoldable pub submit :
    Session
    → (Database → Database)
    → SubmitInput
    → Database
    → Database × Result EnrollmentError SubmittedRequest
submit s env i db = elim (find_by_idempotency_key i db) [
  | some existing ↦ (env db, ok existing)
  | none ↦ submit_tx s i (env db)
]
