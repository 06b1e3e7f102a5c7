-- ===== src/Student/Service.antt =====
-- internal/student/app/service.go and internal/student/adapter/postgres/repo.go. Each transaction is
-- one step on the tables of students, of their records and of the audit events.
pub mod Rows
pub mod Records
pub mod Import
pub mod Summary
pub mod Listing
pub mod Reach
use profundiza_uq_backend.Base.{
  ℕ, suc, ◌+◌, Bool, true, false, not, ◌&&◌, ◌||◌, Option, none, some, List, [], ◌∷◌, ◌++◌, Uuid,
  Time, ◌==◌, ltb, if◌then◌else◌, is_some, option_eq, Result, ok, err, guard, or_err, ◌>>=◌, ◌>>◌,
}
use profundiza_uq_backend.Base.Int.{ℤ, to_ℕ?}
use profundiza_uq_backend.Base.Table.{
  find, select, select_one, modify, count, limit, skip, order_by,
}
use profundiza_uq_backend.Base.Text.{Text, text, text_eq, is_empty}
use profundiza_uq_backend.Enrollment.Service.{itoa}
use profundiza_uq_backend.Shared.Audit.{
  ActorType, Meta, Document, object, Value, Row, name, number, null, uuid, write,
}
use profundiza_uq_backend.Shared.Paging.{page_of, page_size_of, offset_of}
use profundiza_uq_backend.Shared.Shift.{AcademicShift, day, night, other, same_as, valid}
use profundiza_uq_backend.Shared.Validation.{if_given, ValidationError, given}
use profundiza_uq_backend.Student.Domain.{
  Status, active, inactive, unknown, valid_status, Student, AcademicRecord, NewStudent, validate,
  StudentPatch, validate_patch, is_empty_patch, NewAcademicRecord, validate_record,
}

-- `ErrStudentNotFound`, `ErrEmailTaken`, the errors of the domain, and what the database refuses.
pub data StudentError : Type 0 where
  not_found email_taken database : StudentError
  invalid : ValidationError → StudentError

-- `Actor`; an empty type is SYSTEM, which is resolved before.
pub record Actor : Type 0 where
  pub kind : ActorType
  pub id : Option Uuid

pub record Tables : Type 0 where
  pub students : List Student
  pub records : List AcademicRecord
  pub audit_events : List Row

abbrev pub student_id : Student → Uuid
student_id s = s.id

abbrev pub same_email : Student → Student → Bool
same_email s t = text_eq s.institutional_email t.institutional_email

abbrev pub same_document : Student → Student → Bool
same_document s t = text_eq s.document_number t.document_number

abbrev pub shift_name : AcademicShift → Text
shift_name day = text "DAY"
shift_name night = text "NIGHT"
shift_name (other s) = s

abbrev pub status_name : Status → Text
status_name active = text "ACTIVE"
status_name inactive = text "INACTIVE"
status_name (unknown s) = s

-- A student in an audit document.
unfoldable pub student_document : Student → Document
unfolding text
student_document s = object (
    (text "ID", uuid s.id)
    ∷ (text "InstitutionalEmail", name s.institutional_email)
    ∷ (text "DocumentNumber", name s.document_number)
    ∷ (text "FullName", name s.full_name)
    ∷ (text "AcademicShift", name (shift_name s.academic_shift))
    ∷ (text "Status", name (status_name s.status))
    ∷ (text "CompletedProfessionalElectivesCount", number s.completed_count)
    ∷ (text "CreatedAt", number s.created_at)
    ∷ (text "UpdatedAt", number s.updated_at)
    ∷ [])

abbrev pub semester_value : Option Uuid → Value
semester_value none = null
semester_value (some id) = uuid id

unfoldable pub record_document : AcademicRecord → Document
unfolding text
record_document r = object (
    (text "ID", uuid r.id)
    ∷ (text "StudentID", uuid r.student_id)
    ∷ (text "SemesterID", semester_value r.semester_id)
    ∷ (text "Notes", name r.notes)
    ∷ (text "Source", name r.source)
    ∷ (text "CreatedAt", number r.created_at)
    ∷ (text "UpdatedAt", number r.updated_at)
    ∷ [])

-- `writeAudit`
unfoldable pub write_audit :
    Meta → Actor → Text → Text → Uuid → Option Document → Option Document → List Row → List Row
write_audit m actor action entity id previous next log =
    write m
      (record {
        actor_type = actor.kind;
        actor_id = actor.id;
        action = action;
        entity_type = entity;
        entity_id = uuid id;
        previous_value = previous;
        new_value = next;
        reason = [];
        ip_address = [];
        user_agent = [];
      })
      log

unfoldable pub new_student : Time → Uuid → NewStudent → ℕ → Student
new_student now id i completed = record {
  id = id;
  institutional_email = i.institutional_email;
  document_number = i.document_number;
  full_name = i.full_name;
  academic_shift = i.academic_shift;
  status = active;
  completed_count = completed;
  created_at = now;
  updated_at = now;
}

-- The row meets one of the unique columns. `mapWriteErr` gives each the same error.
unfoldable pub is_taken : Student → List Student → Bool
is_taken s rows =
    is_some (find student_id s.id rows)
    || is_some (select_one (λ t. same_email t s) rows)
    || is_some (select_one (λ t. same_document t s) rows)

-- `Repo.Create`: the INSERT behind the CHECKs and the unique columns, and its audit event.
unfoldable pub insert_student :
    Meta → Time → Uuid → NewStudent → Actor → Tables → Result StudentError (Tables × Student)
unfolding new_student is_taken write_audit student_document text
insert_student m now id i actor db = do
  guard (valid i.academic_shift) database
  completed ← or_err (to_ℕ? i.completed_count) database
  guard (not (is_taken (new_student now id i completed) db.students)) email_taken
  ok (
    record {
      students = db.students ++ new_student now id i completed ∷ [];
      records = db.records;
      audit_events =
          write_audit m actor (text "STUDENT_CREATED") (text "STUDENT") id none
            (some (student_document (new_student now id i completed))) db.audit_events;
    },
    new_student now id i completed,
  )

abbrev pub checked : Result ValidationError (Unit {0}) → Result StudentError (Unit {0})
checked (ok u) = ok u
checked (err e) = err (invalid e)

-- `Service.Create`
unfoldable pub create :
    Meta → Time → Uuid → NewStudent → Actor → Tables → Result StudentError (Tables × Student)
unfolding insert_student validate
create m now id i actor db = checked (validate i) >> insert_student m now id i actor db

-- The count of a patch as its column takes it.
abbrev pub count_or : ℕ → Option ℤ → Option ℕ
count_or n none = some n
count_or n (some z) = to_ℕ? z

-- The UPDATE of a patch that is not empty.
unfoldable pub patched : Time → StudentPatch → ℕ → Student → Student
unfolding is_empty_patch
patched now p completed s = if is_empty_patch p then s else record s {
  full_name = given s.full_name p.full_name;
  academic_shift = given s.academic_shift p.academic_shift;
  status = given s.status p.status;
  completed_count = completed;
  updated_at = now;
}

-- `Repo.Update`; `none` for a student is the error not_found of the service.
unfoldable pub update_student :
    Meta → Time → Uuid → StudentPatch → Actor → Tables → Result StudentError (Tables × Student)
unfolding patched write_audit student_document text valid_status
update_student m now id p actor db = do
  before ← or_err (find student_id id db.students) not_found
  guard (if_given valid p.academic_shift) database
  guard (if_given valid_status p.status) database
  completed ← or_err (count_or before.completed_count p.completed_count) database
  ok (
    record {
      students = modify student_id id (patched now p completed) db.students;
      records = db.records;
      audit_events =
          write_audit m actor (text "STUDENT_UPDATED") (text "STUDENT") id
            (some (student_document before))
            (some (student_document (patched now p completed before))) db.audit_events;
    },
    patched now p completed before,
  )

-- `Service.Update`
unfoldable pub update :
    Meta → Time → Uuid → StudentPatch → Actor → Tables → Result StudentError (Tables × Student)
unfolding update_student validate_patch
update m now id p actor db = checked (validate_patch p) >> update_student m now id p actor db

-- `Service.Get`
unfoldable pub get : Uuid → Tables → Result StudentError Student
get id db = or_err (find student_id id db.students) not_found

-- A transaction that fails is rolled back.
unfoldable pub commit {ℓ} :
    {A : Type ℓ} → Tables → Result StudentError (Tables × A) → Tables × Result StudentError A
commit db (ok (db', a)) = (db', ok a)
commit db (err e) = (db, err e)
