-- ===== src/Enrollment/Submit/Effects.antt =====
-- What a submission writes.
use profundiza_uq_backend.Base.{
  suc, ◌+◌, ◌≡◌, refl, none, some, [], ◌∷◌, ◌++◌, sym, ◌⊎◌, inl, inr, Bool, false, not, Uuid,
  Result, ok, err,
}
use mathlib.Core.Path.{subst}
use profundiza_uq_backend.Base.Table.{length}
use profundiza_uq_backend.Base.Table.Laws.{length-insert, length-append_two}
use profundiza_uq_backend.Base.Text.{Text, text}
use profundiza_uq_backend.Shared.Audit.{Row, uuid, write, to_row, resolve_event_meta}
use profundiza_uq_backend.Notification.Outbox.{
  Notification, in_app, email, pending, enqueue, new_row,
}
use profundiza_uq_backend.Enrollment.Database.{EnrollmentRequest, OfferingGroup, Student, Database}
use profundiza_uq_backend.Enrollment.Classify.{classify}
use profundiza_uq_backend.Enrollment.Submit.{
  SubmitInput, SubmittedRequest, EnrollmentError, duplicate_active_request, Session,
  record_submission, submit_tx, lock_group, lock_student, occupancy, new_request, outcome_of,
  replay, find_by_idempotency_key,
}
use profundiza_uq_backend.Enrollment.Submit.Steps.{
  IsPrepared, refused, stored_row, conflicted, submit_tx-Ends,
}
use profundiza_uq_backend.Enrollment.Submit.Seats.{replay_existed}

-- The result reports a request that did not exist before.
abbrev pub is_new : Result EnrollmentError SubmittedRequest → Bool
is_new (ok out) = not out.existed
is_new (err e) = false

-- The row of a submission: what the client asked for, in the place that its shift and the free seats
-- give it.
pub record IsRequested (s : Session) (i : SubmitInput) (db : Database) (r : EnrollmentRequest)
    : Type 0 where
  pub id : r.id ≡ s.request_uuid
  pub semester : r.semester_id ≡ i.semester_id
  pub student : r.student_id ≡ i.student_id
  pub group : r.offering_group_id ≡ i.offering_group_id
  pub key : r.idempotency_key ≡ i.idempotency_key
  pub arrival : r.arrival_sequence ≡ db.arrival_seq
  pub instant : (r.submitted_at ≡ s.now) × (r.cancelled_at ≡ none)
  pub asked_group : OfferingGroup
  pub asking : Student
  pub group_found : lock_group db i.offering_group_id ≡ some asked_group
  pub student_found : lock_student db i.student_id ≡ some asking
  pub place :
      (r.priority_group, r.status)
      ≡ classify asking.academic_shift asked_group.shift (occupancy db asked_group)

-- The audit event and the two notifications of a submission, for the student and about the request.
pub record IsTold (s : Session) (r : EnrollmentRequest) (event : Row) (inbox mail : Notification)
    : Type 0 where
  pub action : event.action ≡ text "ENROLLMENT_SUBMITTED"
  pub actor : event.actor_id ≡ some r.student_id
  pub entity : event.entity_id ≡ uuid r.id
  pub channels : (inbox.channel ≡ in_app) × (mail.channel ≡ email)
  pub recipients :
      (inbox.recipient_user_id ≡ some r.student_id) × (mail.recipient_user_id ≡ some r.student_id)
  pub about : (inbox.related_entity_id ≡ some r.id) × (mail.related_entity_id ≡ some r.id)
  pub waiting : mail.delivery_status ≡ pending

-- The reported request is stored with its event and its notifications; no other row of any table
-- is touched.
pub record StoresOne (s : Session) (i : SubmitInput) (db : Database)
    (out : Database × Result EnrollmentError SubmittedRequest) : Type 0 where
  pub row : EnrollmentRequest
  pub event : Row
  pub inbox : Notification
  pub mail : Notification
  pub reported : out.1 ≡ ok (outcome_of row)
  pub requested : IsRequested s i db row
  pub told : IsTold s row event inbox mail
  pub tables : out.0 ≡ record db {
    requests = db.requests ++ row ∷ [];
    audit_events = db.audit_events ++ event ∷ [];
    notifications = (db.notifications ++ inbox ∷ []) ++ mail ∷ [];
    arrival_seq = suc db.arrival_seq;
  }

-- Only the sequence may have moved on.
abbrev pub LeavesTables : Database → Database → Type 0
LeavesTables db db' = (db' ≡ db) ⊎ (db' ≡ record db { arrival_seq = suc db.arrival_seq })

pub length-write : (m : _) (e : _) (log : _) → length (write m e log) ≡ length log + 1
unfolding write
length-write m e log = length-insert log _

pub length-enqueue :
    (a b : Uuid) (t : _) (m : _) (rows : _) → length (enqueue a b t m rows) ≡ length rows + 2
unfolding enqueue
length-enqueue a b t m rows = length-append_two rows _ _

prepared-IsRequested :
    (s : Session) (i : SubmitInput) (db : Database) (r : EnrollmentRequest)
    → IsPrepared s i db r
    → IsRequested s i db r
unfolding new_request
prepared-IsRequested s i db r p = subst (IsRequested s i db) (sym p.row) (record {
  id = refl;
  semester = refl;
  student = refl;
  group = refl;
  key = refl;
  arrival = refl;
  instant = (refl, refl);
  asked_group = p.group;
  asking = p.student;
  group_found = p.group_found;
  student_found = p.student_found;
  place = refl;
})

record_submission-StoresOne :
    (s : Session) (i : SubmitInput) (db : Database) (r : EnrollmentRequest) (address : Text)
    → IsPrepared s i db r
    → StoresOne s i db (record_submission s r address db, ok (outcome_of r))
unfolding record_submission write to_row resolve_event_meta enqueue new_row
record_submission-StoresOne s i db r address p = record {
  row = r;
  event = _;
  inbox = _;
  mail = _;
  reported = refl;
  requested = prepared-IsRequested s i db r p;
  told = record {
    action = refl;
    actor = refl;
    entity = refl;
    channels = (refl, refl);
    recipients = (refl, refl);
    about = (refl, refl);
    waiting = refl;
  };
  tables = refl;
}

replay_not_new :
    (i : SubmitInput) (db : Database) (x : Result EnrollmentError SubmittedRequest)
    → (x ≡ err duplicate_active_request) ⊎ (x ≡ replay (find_by_idempotency_key i db))
    → is_new x ≡ false
replay_not_new i db (ok out) (inl e) = cc
replay_not_new i db (ok out) (inr e) = rw (replay_existed i db out (sym e))
replay_not_new i db (err e) h = refl

-- A submission is all or nothing. Either it reports a new request and stores it: the row has the ids
-- and the key of the input and the place that `classify` gives, and comes with one audit event and
-- the two notifications of that request, and no other row changes. Or it reports an error or an
-- existing request, and leaves every table as it was.
pub submit_atomic :
    (s : Session) (i : SubmitInput) (db : Database)
    → StoresOne s i db (submit_tx s i db)
      ⊎ ((is_new (submit_tx s i db).1 ≡ false) × LeavesTables db (submit_tx s i db).0)
submit_atomic s i db = elim (submit_tx-Ends s i db) [
  | refused e _ end ↦ rw end (inr (refl, inl refl))
  | stored_row r address p _ _ end ↦ rw end (inl (record_submission-StoresOne s i db r address p))
  | conflicted x end why ↦ rw end (inr (replay_not_new i db x why, inr refl))
]
