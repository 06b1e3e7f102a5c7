-- ===== src/System/Changes.antt =====
-- What one transaction may do to the requests: nothing, insert one, or update one.
use profundiza_uq_backend.Base.{
  suc, ◌≤◌, ◌<◌, ◌≡◌, refl, ap, ◌⊎◌, inl, inr, true, false, none, some, [], ◌∷◌, ◌++◌, arith, Uuid,
  ok, err, Result-cases, Bool-cases,
}
use profundiza_uq_backend.Base.Table.{count, select_one, modify, find}
use profundiza_uq_backend.Base.Table.Laws.{key-find}
use profundiza_uq_backend.Base.Text.{Text}
use profundiza_uq_backend.Enrollment.Status.{
  RequestStatus, accepted, is_active, is_accepted, is_terminal,
}
use profundiza_uq_backend.Enrollment.Classify.{classify}
use profundiza_uq_backend.Enrollment.Rules.{is_create_group, max_electives_per_semester}
use profundiza_uq_backend.Enrollment.Rules.Decisions.{
  apply_decision-eq-accepted_iff, apply_decision_from_active,
}
use profundiza_uq_backend.Enrollment.Database.{
  OfferingGroup, EnrollmentRequest, Database, group_id, request_id, holds_in_semester, seated_in,
  has_key,
}
use profundiza_uq_backend.Enrollment.Submit.{
  SubmitInput, Session, new_request, record_submission, submit_tx,
}
use profundiza_uq_backend.Enrollment.Submit.Steps.{
  IsPrepared, refused, stored_row, conflicted, submit_tx-Ends,
}
use profundiza_uq_backend.Enrollment.Cancel.{
  CancelInput, cancelled, cancel_writes, cancel_tx, cancel,
}
use profundiza_uq_backend.Enrollment.Cancel.Steps.{
  find_of_locked, cancel_tx-IsCancelled, cancel_commits, cancel_rolls_back,
}
use profundiza_uq_backend.Review.Decide.{
  DecisionInput, capacity_group, context, decided, decide_writes, decide_tx, decide,
}
use profundiza_uq_backend.Review.Decide.Steps.{
  IsDecided, decide_tx-IsDecided, decide_commits, decide_rolls_back,
}

-- A group has a free seat.
pub record HasSeat (db : Database) (group : Uuid) : Type 0 where
  pub row : OfferingGroup
  pub found : find group_id group db.groups ≡ some row
  pub room : count (seated_in group) db.requests < row.capacity

pub record Inserts (before after : Database) (r : EnrollmentRequest) : Type 0 where
  pub requests : after.requests ≡ before.requests ++ r ∷ []
  pub groups : after.groups ≡ before.groups
  pub arrival : r.arrival_sequence ≡ before.arrival_seq
  pub next : after.arrival_seq ≡ suc before.arrival_seq
  pub unseated : is_accepted r.status ≡ false
  pub below_cap :
      count (holds_in_semester r.student_id r.semester_id) before.requests
      < max_electives_per_semester
  pub key_free :
      select_one (has_key r.student_id r.semester_id r.idempotency_key) before.requests ≡ none

pub record Updates (before after : Database) (id : Uuid) (f : EnrollmentRequest → EnrollmentRequest)
    (r : EnrollmentRequest) : Type 0 where
  pub found : find request_id id before.requests ≡ some r
  pub requests : after.requests ≡ modify request_id id f before.requests
  pub groups : after.groups ≡ before.groups
  pub next : after.arrival_seq ≡ before.arrival_seq
  pub keeps_arrival : (q : EnrollmentRequest) → (f q).arrival_sequence ≡ q.arrival_sequence
  pub keeps_id : (f r).id ≡ r.id
  pub keeps_student : (f r).student_id ≡ r.student_id
  pub keeps_semester : (f r).semester_id ≡ r.semester_id
  pub keeps_key : (f r).idempotency_key ≡ r.idempotency_key
  pub was_active : is_active r.status ≡ true
  pub seat : is_accepted (f r).status ≡ true → HasSeat before (f r).offering_group_id

pub data Change (before after : Database) : Type 0 where
  same :
      after.requests ≡ before.requests
      → after.groups ≡ before.groups
      → before.arrival_seq ≤ after.arrival_seq
      → Change before after
  inserted : (r : EnrollmentRequest) → Inserts before after r → Change before after
  updated :
      (id : Uuid) (f : EnrollmentRequest → EnrollmentRequest) (r : EnrollmentRequest)
      → Updates before after id f r
      → Change before after

record_submission-Inserts :
    (s : Session) (i : SubmitInput) (db : Database) (r : EnrollmentRequest) (email : Text)
    → IsPrepared s i db r
    → select_one (has_key r.student_id r.semester_id r.idempotency_key) db.requests ≡ none
    → Inserts db (record_submission s r email db) r
unfolding record_submission new_request classify
record_submission-Inserts s i db r email p key_free = record {
  requests = refl;
  groups = refl;
  arrival = ap (λ q. q.arrival_sequence) p.row;
  next = refl;
  unseated = ground arith;
  below_cap = rw p.row p.below_cap;
  key_free = key_free;
}

pub submit_tx-Change :
    (s : Session) (i : SubmitInput) (db : Database) → Change db (submit_tx s i db).0
submit_tx-Change s i db = elim (submit_tx-Ends s i db) [
  | refused e _ h ↦ rw h (same refl refl (omega arith))
  | stored_row r email p key_free _ h ↦
      rw h (inserted r (record_submission-Inserts s i db r email p key_free))
  | conflicted x h _ ↦ rw h (same refl refl (omega arith))
]

pub active_of_pending : (s : RequestStatus) → is_terminal s ≡ false → is_active s ≡ true
unfolding is_terminal is_active
active_of_pending s h = ground arith

cancel_writes-Updates :
    (s : Session) (i : CancelInput) (db : Database) (r : EnrollmentRequest) (email : Text)
    → find request_id i.request_id db.requests ≡ some r
    → is_terminal r.status ≡ false
    → Updates db (cancel_writes s i r email db) i.request_id (cancelled s) r
unfolding cancel_writes
cancel_writes-Updates s i db r email found pending = record {
  found = found;
  requests = refl;
  groups = refl;
  next = refl;
  keeps_arrival = λ q. refl;
  keeps_id = refl;
  keeps_student = refl;
  keeps_semester = refl;
  keeps_key = refl;
  was_active = active_of_pending r.status pending;
  seat = λ h. cc;
}

cancel-Change_of :
    (s : Session) (i : CancelInput) (db : Database)
    → ((out : Database) × (cancel_tx s i db ≡ ok out)) ⊎ ((e : _) × (cancel_tx s i db ≡ err e))
    → Change db (cancel s i db).0
cancel-Change_of s i db (inl (out, h)) =
    let c = cancel_tx-IsCancelled s i db out h in
    rw (cancel_commits s i db out h, c.written)
      (updated i.request_id (cancelled s) c.request
        (cancel_writes-Updates s i db c.request c.student.institutional_email c.found c.pending))
cancel-Change_of s i db (inr (e, h)) =
    rw (cancel_rolls_back s i db e h) (same refl refl (omega arith))

pub cancel-Change : (s : Session) (i : CancelInput) (db : Database) → Change db (cancel s i db).0
cancel-Change s i db = cancel-Change_of s i db (Result-cases (cancel_tx s i db))

-- The moved row stands in the group whose seats were counted.
group_of_decided :
    (i : DecisionInput) (r : EnrollmentRequest) (db : Database) (target : Uuid)
    (status : RequestStatus)
    → capacity_group i r db ≡ ok target
    → (decided i target status r).offering_group_id ≡ target
unfolding decided capacity_group
group_of_decided i r db target status h = elim (Bool-cases (is_create_group i.decision_type)) [
  | inl e ↦ rw e
  | inr e ↦ rw e (ground arith)
]

status_of_decided :
    (i : DecisionInput) (target : Uuid) (status : RequestStatus) (r : EnrollmentRequest)
    → (decided i target status r).status ≡ status
unfolding decided
status_of_decided i target status r = ground arith

accepted_of_test : (s : RequestStatus) → is_accepted s ≡ true → s ≡ accepted
accepted_of_test s h = ground arith

IsDecided-HasSeat :
    (s : Session) (i : DecisionInput) (db : Database) (out : _) (d : IsDecided s i db out)
    → is_accepted d.status ≡ true
    → HasSeat db d.target
unfolding context
IsDecided-HasSeat s i db out d h =
    let key : d.group.id ≡ d.target = key-find group_id d.target db.groups d.group_found in
    let may =
      (apply_decision-eq-accepted_iff i.decision_type (context i d.request d.group db)).0
        (rw (← (accepted_of_test d.status h)) d.allowed) in
    record { row = d.group; found = d.group_found; room = rw (← key) may.room }

-- Such an UPDATE leaves all but the status and the group alone.
decided_keeps :
    (i : DecisionInput) (target : Uuid) (status : RequestStatus) (r : EnrollmentRequest)
    → ((decided i target status r).arrival_sequence ≡ r.arrival_sequence)
      × ((decided i target status r).student_id ≡ r.student_id)
      × ((decided i target status r).semester_id ≡ r.semester_id)
      × ((decided i target status r).idempotency_key ≡ r.idempotency_key)
      × ((decided i target status r).id ≡ r.id)
unfolding decided
decided_keeps i target status r = ground arith

pub decide_writes-Updates :
    (s : Session) (i : DecisionInput) (db : Database) (out : _) (d : IsDecided s i db out)
    → Updates db
        (decide_writes s i d.target d.request d.student.institutional_email d.status db)
        i.request_id
        (decided i d.target d.status)
        d.request
unfolding decide_writes context
decide_writes-Updates s i db out d =
    let moved = group_of_decided i d.request db d.target d.status d.counted in
    let kept = decided_keeps i d.target d.status d.request in
    let active =
      apply_decision_from_active i.decision_type (context i d.request d.group db) d.status
        d.allowed in
    record {
      found = find_of_locked db i.request_id d.request d.student d.found;
      requests = refl;
      groups = refl;
      next = refl;
      keeps_arrival = λ q. (decided_keeps i d.target d.status q).0;
      keeps_id = kept.4;
      keeps_student = kept.1;
      keeps_semester = kept.2;
      keeps_key = kept.3;
      was_active = active.0;
      seat = λ h. rw moved (
          IsDecided-HasSeat s i db out d
            (rw (status_of_decided i d.target d.status d.request) at h));
    }

decide-Change_of :
    (s : Session) (i : DecisionInput) (db : Database)
    → ((out : _) × (decide_tx s i db ≡ ok out)) ⊎ ((e : _) × (decide_tx s i db ≡ err e))
    → Change db (decide s i db).0
decide-Change_of s i db (inl (out, h)) =
    let d = decide_tx-IsDecided s i db out h in
    rw (decide_commits s i db out h, ap (λ o. o.0) d.written)
      (updated i.request_id (decided i d.target d.status) d.request
        (decide_writes-Updates s i db out d))
decide-Change_of s i db (inr (e, h)) =
    rw (decide_rolls_back s i db e h) (same refl refl (omega arith))

pub decide-Change : (s : Session) (i : DecisionInput) (db : Database) → Change db (decide s i db).0
decide-Change s i db = decide-Change_of s i db (Result-cases (decide_tx s i db))
