-- ===== src/Enrollment/Cancel/Effects.antt =====
-- What a cancellation writes, and when it is refused.
use profundiza_uq_backend.Base.{
  ◌+◌, ◌≡◌, refl, sym, ◌⊎◌, inl, inr, true, false, none, some, arith, Result, ok, err, ◌==◌, ==_iff,
  Result-cases, Option-cases, Bool-cases, ◌≢◌,
}
use profundiza_uq_backend.Base.Table.{find, length}
use profundiza_uq_backend.Enrollment.Status.{is_terminal}
use profundiza_uq_backend.Enrollment.Database.{EnrollmentRequest, Student, Database, request_id}
use profundiza_uq_backend.Enrollment.Submit.{
  EnrollmentError, Session, not_found, forbidden, not_cancelable,
}
use profundiza_uq_backend.Enrollment.Cancel.{
  CancelInput, locked_request, cancelled, cancel_writes, cancel_tx, cancel,
}
use profundiza_uq_backend.Base.Table.Laws.{find-modify_self}
use mathlib.Core.Path.{subst}
use profundiza_uq_backend.Enrollment.Submit.Effects.{length-write, length-enqueue}
use profundiza_uq_backend.Enrollment.Cancel.Steps.{
  IsCancelled, cancel_tx-IsCancelled, cancel_commits, cancel_rolls_back,
}

-- The request before and after, and what was recorded of it.
pub record Cancels (s : Session) (i : CancelInput) (db db' : Database) : Type 0 where
  pub before : EnrollmentRequest
  pub found : find request_id i.request_id db.requests ≡ some before
  pub owned : before.student_id ≡ i.student_id
  pub pending : is_terminal before.status ≡ false
  pub after : find request_id i.request_id db'.requests ≡ some (cancelled s before)
  pub groups : db'.groups ≡ db.groups
  pub decisions : db'.decisions ≡ db.decisions
  pub audit_events : length db'.audit_events ≡ length db.audit_events + 1
  pub notifications : length db'.notifications ≡ length db.notifications + 2

-- Which error a cancellation that writes nothing reports.
pub data Refusal (i : CancelInput) (db : Database) : EnrollmentError → Type 0 where
  missing : locked_request db i.request_id ≡ none → Refusal i db not_found
  foreign :
      (r : EnrollmentRequest) (st : Student)
      → locked_request db i.request_id ≡ some (r, st)
      → r.student_id ≢ i.student_id
      → Refusal i db forbidden
  settled :
      (r : EnrollmentRequest) (st : Student)
      → locked_request db i.request_id ≡ some (r, st)
      → r.student_id ≡ i.student_id
      → is_terminal r.status ≡ true
      → Refusal i db not_cancelable

written-Cancels :
    (s : Session) (i : CancelInput) (db out : Database)
    → (c : IsCancelled s i db out)
    → Cancels s i db (cancel_writes s i c.request c.student.institutional_email db)
unfolding cancel_writes
written-Cancels s i db out c = record {
  before = c.request;
  found = c.found;
  owned = c.owned;
  pending = c.pending;
  after = find-modify_self request_id i.request_id (cancelled s) db.requests refl c.found;
  groups = refl;
  decisions = refl;
  audit_events = length-write _ _ db.audit_events;
  notifications = length-enqueue _ _ _ _ db.notifications;
}

same_error :
    {x e : EnrollmentError} (m : Result EnrollmentError Database) → m ≡ err x → m ≡ err e → x ≡ e
same_error m h k = cc

cancel_tx-missing :
    (s : Session) (i : CancelInput) (db : Database)
    → locked_request db i.request_id ≡ none
    → cancel_tx s i db ≡ err not_found
unfolding cancel_tx
cancel_tx-missing s i db absent = rw absent refl

cancel_tx-found :
    (s : Session) (i : CancelInput) (db : Database) (r : EnrollmentRequest) (st : Student)
    → locked_request db i.request_id ≡ some (r, st)
    → ((r.student_id == i.student_id) ≡ false → cancel_tx s i db ≡ err forbidden)
      × ((r.student_id == i.student_id) ≡ true
          → is_terminal r.status ≡ true
          → cancel_tx s i db ≡ err not_cancelable)
      × ((r.student_id == i.student_id) ≡ true
          → is_terminal r.status ≡ false
          → cancel_tx s i db ≡ ok (cancel_writes s i r st.institutional_email db))
unfolding cancel_tx
cancel_tx-found s i db r st found = (
  λ other. rw (found, other) refl,
  λ own done. rw (found, own, done) refl,
  λ own live. rw (found, own, live) refl,
)

cancel_tx-Refusal :
    (s : Session) (i : CancelInput) (db : Database) (e : EnrollmentError)
    → cancel_tx s i db ≡ err e
    → Refusal i db e
cancel_tx-Refusal s i db e h = elim (Option-cases (locked_request db i.request_id)) [
  | inl absent ↦
      subst (Refusal i db) (same_error _ (cancel_tx-missing s i db absent) h) (missing absent)
  | inr ((r, st), found) ↦
      let (f, t, o) = cancel_tx-found s i db r st found in
      elim (Bool-cases (r.student_id == i.student_id)) [
        | inr other ↦
            subst (Refusal i db) (same_error _ (f other) h) (foreign r st found (ground arith))
        | inl own ↦ elim (Bool-cases (is_terminal r.status)) [
          | inl done ↦
              subst (Refusal i db) (same_error _ (t own done) h)
                (settled r st found ((==_iff _ _).0 own) done)
          | inr live ↦ let committed = o own live in ground arith
        ]
      ]
]

-- A cancellation either commits, for the student's own request that is still pending: its status
-- becomes CANCELLED_BY_STUDENT, and one audit event and two notifications are recorded. Or it
-- changes nothing and reports that the request is missing, is another student's, or is settled.
pub cancel_effects :
    (s : Session) (i : CancelInput) (db : Database)
    → Cancels s i db (cancel s i db).0
      ⊎ ((e : EnrollmentError) × (cancel s i db ≡ (db, err e)) × Refusal i db e)
cancel_effects s i db = elim (Result-cases (cancel_tx s i db)) [
  | inl (out, done) ↦
      let c = cancel_tx-IsCancelled s i db out done in
      inl (
        subst (Cancels s i db) (sym (cancel_commits s i db out done))
          (subst (Cancels s i db) (sym c.written) (written-Cancels s i db out c)))
  | inr (e, failed) ↦ inr (e, cancel_rolls_back s i db e failed, cancel_tx-Refusal s i db e failed)
]
