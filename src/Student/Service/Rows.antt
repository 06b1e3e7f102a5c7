-- ===== src/Student/Service/Rows.antt =====
-- The students that are stored.
use profundiza_uq_backend.Base.{
  ◌≤◌, ◌≡◌, sym, inl, inr, arith, ℕ, true, false, not, none, some, List, [], ◌∷◌, ◌++◌, Uuid, Time,
  ok, guard, or_err, >>=-eq-ok, guard-eq-ok, or_err-eq-ok, Option-cases,
}
use mathlib.Core.Path.{subst}
use profundiza_uq_backend.Base.Int.{to_ℕ?}
use profundiza_uq_backend.Base.Table.{All, find, select_one, modify}
use profundiza_uq_backend.Base.Table.Laws.{All-insert, All-find}
use profundiza_uq_backend.Base.Table.Keys.{All-modify_found}
use profundiza_uq_backend.Base.Table.Distinct.{IsDistinct, insert-IsDistinct, modify-IsDistinct}
use profundiza_uq_backend.Shared.Audit.{Meta}
use profundiza_uq_backend.Shared.Shift.{valid}
use profundiza_uq_backend.Shared.Validation.{if_given, has_at, is_blank}
use profundiza_uq_backend.Student.Domain.{
  Student, valid_status, NewStudent, StudentPatch, validate, validate_patch, count_in_range,
  max_completed_electives,
}
use profundiza_uq_backend.Student.Service.{
  Tables, Actor, student_id, same_email, same_document, new_student, is_taken, insert_student,
  create, patched, update_student, update, count_or, checked,
}

-- What `Validate` asks of a student.
abbrev pub IsRow : Student → Type 0
IsRow s =
    (has_at s.institutional_email ≡ true)
    × (is_blank s.document_number ≡ false)
    × (is_blank s.full_name ≡ false)
    × (valid s.academic_shift ≡ true)
    × (s.completed_count ≤ max_completed_electives)

-- Every student is valid, and no two share an email or a document number.
pub record IsSound (rows : List Student) : Type 0 where
  pub rows_valid : All IsRow rows
  pub emails : IsDistinct same_email rows
  pub documents : IsDistinct same_document rows

validated :
    (now : Time) (id : Uuid) (i : NewStudent) (completed : ℕ)
    → checked (validate i) ≡ ok tt
    → to_ℕ? i.completed_count ≡ some completed
    → IsRow (new_student now id i completed)
unfolding new_student validate count_in_range
validated now id i completed h c =
    (ground arith, ground arith, ground arith, ground arith, ground arith)

pub created :
    (m : Meta) (now : Time) (id : Uuid) (i : NewStudent) (actor : Actor) (db : Tables)
    (out : Tables × Student)
    → create m now id i actor db ≡ ok out
    → (completed : ℕ) × (checked (validate i) ≡ ok tt)
      × (to_ℕ? i.completed_count ≡ some completed)
      × (is_taken (new_student now id i completed) db.students ≡ false)
      × (out.0.students ≡ db.students ++ new_student now id i completed ∷ [])
unfolding create insert_student
created m now id i actor db out h =
    let (u, valid_input, h₁) = >>=-eq-ok (checked (validate i)) _ h in
    let (v, shift, h₂) = >>=-eq-ok (guard (valid i.academic_shift) _) _ h₁ in
    let (completed, given_count, h₃) = >>=-eq-ok (or_err (to_ℕ? i.completed_count) _) _ h₂ in
    let (w, free, h₄) =
      >>=-eq-ok (guard (not (is_taken (new_student now id i completed) db.students)) _) _ h₃ in
    let test = guard-eq-ok (not (is_taken (new_student now id i completed) db.students)) _ free in
    (completed, valid_input, or_err-eq-ok _ _ given_count, ground arith, ground arith)

free_email :
    (s : Student) (rows : List Student)
    → is_taken s rows ≡ false
    → (select_one (λ t. same_email t s) rows ≡ none)
      × (select_one (λ t. same_document t s) rows ≡ none)
unfolding is_taken
free_email s rows h = (
  elim (Option-cases (select_one (λ t. same_email t s) rows)) [
    | inl e ↦ e
    | inr (t, e) ↦ ground arith
  ],
  elim (Option-cases (select_one (λ t. same_document t s) rows)) [
    | inl e ↦ e
    | inr (t, e) ↦ ground arith
  ],
)

insert-IsSound :
    (rows : List Student) (s : Student)
    → IsRow s
    → is_taken s rows ≡ false
    → IsSound rows
    → IsSound (rows ++ s ∷ [])
insert-IsSound rows s row free sound =
    let (email, document) = free_email s rows free in
    record {
      rows_valid = All-insert IsRow rows s sound.rows_valid row;
      emails = insert-IsDistinct same_email rows s email sound.emails;
      documents = insert-IsDistinct same_document rows s document sound.documents;
    }

pub create-IsSound :
    (m : Meta) (now : Time) (id : Uuid) (i : NewStudent) (actor : Actor) (db : Tables)
    (out : Tables × Student)
    → create m now id i actor db ≡ ok out
    → IsSound db.students
    → IsSound out.0.students
create-IsSound m now id i actor db out h sound =
    let (completed, fine, count, free, table) = created m now id i actor db out h in
    subst IsSound (sym table) (
      insert-IsSound db.students (new_student now id i completed)
        (validated now id i completed fine count) free sound)

pub updated :
    (m : Meta) (now : Time) (id : Uuid) (p : StudentPatch) (actor : Actor) (db : Tables)
    (out : Tables × Student)
    → update m now id p actor db ≡ ok out
    → (before : Student) × (completed : ℕ) × (checked (validate_patch p) ≡ ok tt)
      × (find student_id id db.students ≡ some before)
      × (count_or before.completed_count p.completed_count ≡ some completed)
      × (out.0.students ≡ modify student_id id (patched now p completed) db.students)
unfolding update update_student
updated m now id p actor db out h =
    let (u, fine, h₁) = >>=-eq-ok (checked (validate_patch p)) _ h in
    let (before, found, h₂) = >>=-eq-ok (or_err (find student_id id db.students) _) _ h₁ in
    let (v, shift, h₃) = >>=-eq-ok (guard (if_given valid p.academic_shift) _) _ h₂ in
    let (w, status, h₄) = >>=-eq-ok (guard (if_given valid_status p.status) _) _ h₃ in
    let (completed, counted, h₅) =
      >>=-eq-ok (or_err (count_or before.completed_count p.completed_count) _) _ h₄ in
    (before, completed, fine, or_err-eq-ok _ _ found, or_err-eq-ok _ _ counted, ground arith)

patched-IsRow :
    (now : Time) (p : StudentPatch) (completed : ℕ) (s : Student)
    → checked (validate_patch p) ≡ ok tt
    → count_or s.completed_count p.completed_count ≡ some completed
    → IsRow s
    → IsRow (patched now p completed s)
unfolding patched validate_patch count_in_range
patched-IsRow now p completed s fine counted (a, b, c, d, e) =
    (ground arith, ground arith, ground arith, ground arith, ground arith)

pub update-IsSound :
    (m : Meta) (now : Time) (id : Uuid) (p : StudentPatch) (actor : Actor) (db : Tables)
    (out : Tables × Student)
    → update m now id p actor db ≡ ok out
    → IsSound db.students
    → IsSound out.0.students
unfolding patched
update-IsSound m now id p actor db out h sound =
    let (before, completed, fine, found, counted, table) = updated m now id p actor db out h in
    let row = All-find IsRow student_id id db.students sound.rows_valid found in
    subst IsSound (sym table) (record {
      rows_valid =
          All-modify_found IsRow student_id id (patched now p completed) db.students found
            (patched-IsRow now p completed before fine counted row) sound.rows_valid;
      emails =
          modify-IsDistinct same_email student_id id (patched now p completed) db.students
            (λ x y. ground arith) (λ x y. ground arith) sound.emails;
      documents =
          modify-IsDistinct same_document student_id id (patched now p completed) db.students
            (λ x y. ground arith) (λ x y. ground arith) sound.documents;
    })
