-- ===== src/Enrollment/Submit/Steps.antt =====
-- How the submission transaction can end.
use profundiza_uq_backend.Base.{
  ℕ, ◌<◌, ◌≡◌, refl, ◌⊎◌, inl, inr, Bool, none, some, List, arith, Result, ok, err, or_err,
  >>=-eq-ok, or_err-eq-ok,
}
use profundiza_uq_backend.Base.Table.{count, select_one}
use profundiza_uq_backend.Base.Text.{Text}
use profundiza_uq_backend.Enrollment.Rules.{validate_submission_allowed, max_electives_per_semester}
use profundiza_uq_backend.Enrollment.Database.{
  OfferingGroup, Student, EnrollmentWindow, EnrollmentRequest, Database, holds_in_semester,
  active_in_group, has_key,
}
use profundiza_uq_backend.Enrollment.Submit.{
  EnrollmentError, duplicate_active_request, SubmitInput, SubmittedRequest, Session, lock_group,
  lock_student, open_window, new_request, prepare, lift_rule, Inserted, stored, active_conflict,
  key_conflict, insert_outcome, record_submission, burn, outcome_of, replay, finish, submit_tx,
  find_by_idempotency_key,
}

-- What the reads of a transaction that reaches its INSERT have found.
pub record IsPrepared (s : Session) (i : SubmitInput) (db : Database) (r : EnrollmentRequest)
    : Type 0 where
  pub group : OfferingGroup
  pub student : Student
  pub window : EnrollmentWindow
  pub group_found : lock_group db i.offering_group_id ≡ some group
  pub student_found : lock_student db i.student_id ≡ some student
  pub window_found : open_window db i.semester_id student.academic_shift s.now ≡ some window
  pub below_cap :
      count (holds_in_semester i.student_id i.semester_id) db.requests < max_electives_per_semester
  pub row : r ≡ new_request s i db group student window

below_cap_of_ok :
    (n : ℕ) {u : Unit {0}}
    → lift_rule (validate_submission_allowed n) ≡ ok u
    → n < max_electives_per_semester
unfolding validate_submission_allowed
below_cap_of_ok n h = ground arith

pub prepare-IsPrepared :
    (s : Session) (i : SubmitInput) (db : Database) (p : EnrollmentRequest × Text)
    → prepare s i db ≡ ok p
    → IsPrepared s i db p.0
unfolding prepare
prepare-IsPrepared s i db p h =
    let (g, hg, h₁) = >>=-eq-ok (or_err (lock_group db i.offering_group_id) _) _ h in
    let (st, hs, h₂) = >>=-eq-ok (or_err (lock_student db i.student_id) _) _ h₁ in
    let (w, hw, h₃) =
      >>=-eq-ok (or_err (open_window db i.semester_id st.academic_shift s.now) _) _ h₂ in
    let (u, hu, h₄) =
      >>=-eq-ok
        (lift_rule (
          validate_submission_allowed
            (count (holds_in_semester i.student_id i.semester_id) db.requests)))
        _ h₃ in
    record {
      group = g;
      student = st;
      window = w;
      group_found = or_err-eq-ok _ _ hg;
      student_found = or_err-eq-ok _ _ hs;
      window_found = or_err-eq-ok _ _ hw;
      below_cap = below_cap_of_ok _ hu;
      row = ground arith;
    }

stored_of_outcome :
    (first : Bool) (r : EnrollmentRequest) (rows : List EnrollmentRequest)
    → insert_outcome first r rows ≡ stored
    → (select_one (has_key r.student_id r.semester_id r.idempotency_key) rows ≡ none)
      × (select_one (active_in_group r.student_id r.semester_id r.offering_group_id) rows ≡ none)
unfolding insert_outcome
stored_of_outcome first r rows h = ground arith

-- The three ends: refused before the INSERT, stored, and refused by a unique index.
pub data Ends (s : Session) (i : SubmitInput) (db : Database)
    (out : Database × Result EnrollmentError SubmittedRequest) : Type 0 where
  refused : (e : EnrollmentError) → prepare s i db ≡ err e → out ≡ (db, err e) → Ends s i db out
  stored_row :
      (r : EnrollmentRequest) (email : Text)
      → IsPrepared s i db r
      → select_one (has_key r.student_id r.semester_id r.idempotency_key) db.requests ≡ none
      → select_one (active_in_group r.student_id r.semester_id r.offering_group_id) db.requests
        ≡ none
      → out ≡ (record_submission s r email db, ok (outcome_of r))
      → Ends s i db out
  conflicted :
      (x : Result EnrollmentError SubmittedRequest)
      → out ≡ (burn db, x)
      → (x ≡ err duplicate_active_request) ⊎ (x ≡ replay (find_by_idempotency_key i db))
      → Ends s i db out

finish-Ends :
    (s : Session) (i : SubmitInput) (db : Database) (r : EnrollmentRequest) (email : Text)
    (o : Inserted)
    → IsPrepared s i db r
    → insert_outcome s.reports_idempotency_first r db.requests ≡ o
    → Ends s i db (finish s i db r email o)
unfolding finish
finish-Ends s i db r email stored p e =
    let (key_free, group_free) = stored_of_outcome _ r db.requests e in
    stored_row r email p key_free group_free refl
finish-Ends s i db r email active_conflict p e = conflicted _ refl (inl refl)
finish-Ends s i db r email key_conflict p e = conflicted _ refl (inr refl)

submit_tx-Ends_of :
    (s : Session) (i : SubmitInput) (db : Database)
    (m : Result EnrollmentError (EnrollmentRequest × Text))
    → prepare s i db ≡ m
    → Ends s i db (elim m [
      | err e ↦ (db, err e)
      | ok (r, email) ↦
          finish s i db r email (insert_outcome s.reports_idempotency_first r db.requests)
    ])
submit_tx-Ends_of s i db (err e) h = refused e h refl
submit_tx-Ends_of s i db (ok (r, email)) h =
    finish-Ends s i db r email _ (prepare-IsPrepared s i db (r, email) h) refl

pub submit_tx-Ends :
    (s : Session) (i : SubmitInput) (db : Database) → Ends s i db (submit_tx s i db)
unfolding submit_tx
submit_tx-Ends s i db = submit_tx-Ends_of s i db (prepare s i db) refl
