-- ===== src/Enrollment/Cancel/Steps.antt =====
-- What a cancellation that commits has read.
use profundiza_uq_backend.Base.{
  ◌≡◌, Bool, true, false, not, some, arith, Uuid, ok, err, or_err, guard, ◌==◌, ==_iff, >>=-eq-ok,
  or_err-eq-ok, guard-eq-ok,
}
use profundiza_uq_backend.Base.Table.{find}
use profundiza_uq_backend.Enrollment.Status.{is_terminal}
use profundiza_uq_backend.Enrollment.Database.{EnrollmentRequest, Student, Database, request_id}
use profundiza_uq_backend.Enrollment.Submit.{Session}
use profundiza_uq_backend.Enrollment.Cancel.{
  CancelInput, locked_request, cancel_writes, cancel_tx, cancel,
}

-- The JOIN finds the request's row.
pub find_of_locked :
    (db : Database) (id : Uuid) (r : EnrollmentRequest) (st : Student)
    → locked_request db id ≡ some (r, st)
    → find request_id id db.requests ≡ some r
unfolding locked_request
find_of_locked db id r st h = ground arith

not-eq-true : (b : Bool) → not b ≡ true → b ≡ false
not-eq-true b h = ground arith

-- What a cancellation that commits has read.
pub record IsCancelled (s : Session) (i : CancelInput) (db out : Database) : Type 0 where
  pub request : EnrollmentRequest
  pub student : Student
  pub found : find request_id i.request_id db.requests ≡ some request
  pub owned : request.student_id ≡ i.student_id
  pub pending : is_terminal request.status ≡ false
  pub written : out ≡ cancel_writes s i request student.institutional_email db

pub cancel_tx-IsCancelled :
    (s : Session) (i : CancelInput) (db out : Database)
    → cancel_tx s i db ≡ ok out
    → IsCancelled s i db out
unfolding cancel_tx
cancel_tx-IsCancelled s i db out h =
    let ((r, st), hr, h₁) = >>=-eq-ok (or_err (locked_request db i.request_id) _) _ h in
    let (u, hu, h₂) = >>=-eq-ok (guard (r.student_id == i.student_id) _) _ h₁ in
    let (v, hv, h₃) = >>=-eq-ok (guard (not (is_terminal r.status)) _) _ h₂ in
    record {
      request = r;
      student = st;
      found = find_of_locked db i.request_id r st (or_err-eq-ok _ _ hr);
      owned = (==_iff _ _).0 (guard-eq-ok _ _ hu);
      pending = not-eq-true _ (guard-eq-ok _ _ hv);
      written = ground arith;
    }

pub cancel_commits :
    (s : Session) (i : CancelInput) (db out : Database)
    → cancel_tx s i db ≡ ok out
    → (cancel s i db).0 ≡ out
unfolding cancel
cancel_commits s i db out h = ground arith

pub cancel_rolls_back :
    (s : Session) (i : CancelInput) (db : Database) (e : _)
    → cancel_tx s i db ≡ err e
    → cancel s i db ≡ (db, err e)
unfolding cancel
cancel_rolls_back s i db e h = ground arith
