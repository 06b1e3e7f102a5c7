-- ===== src/Student/Service/Records.antt =====
-- The manual academic records of internal/student: CreateAcademicRecord and ListAcademicRecords.
use profundiza_uq_backend.Base.{
  Bool, true, ◌&&◌, ◌||◌, Option, none, some, List, [], ◌∷◌, ◌++◌, Uuid, Time, ◌==◌, ltb, Result,
  ok, err, guard, ◌>>=◌, ◌>>◌, option_eq, is_some,
}
use profundiza_uq_backend.Base.Table.{find, select, order_by}
use profundiza_uq_backend.Base.Text.{Text, text}
use profundiza_uq_backend.Shared.Audit.{Meta}
use profundiza_uq_backend.Student.Domain.{AcademicRecord, NewAcademicRecord, validate_record}
use profundiza_uq_backend.Student.Service.{
  StudentError, not_found, database, Actor, Tables, student_id, write_audit, record_document,
  checked, get,
}

-- What the database makes of a semester id that a client sends.
pub data Reference : Type 0 where
  malformed unknown : Reference
  known : Uuid → Reference

-- `mapWriteErr`: the violation of the semester's foreign key is ErrStudentNotFound.
abbrev pub referred : Reference → Result StudentError Uuid
referred malformed = err database
referred unknown = err not_found
referred (known id) = ok id

unfoldable pub new_record : Time → Uuid → Uuid → Uuid → NewAcademicRecord → AcademicRecord
new_record now id student semester i = record {
  id = id;
  student_id = student;
  semester_id = some semester;
  notes = i.notes;
  source = i.source;
  created_at = now;
  updated_at = now;
}

-- `Repo.CreateAcademicRecord`
unfoldable pub insert_record :
    Meta
    → (Text → Reference)
    → Time
    → Uuid
    → Uuid
    → NewAcademicRecord
    → Actor
    → Tables
    → Result StudentError (Tables × AcademicRecord)
unfolding new_record write_audit record_document text
insert_record m resolve now id student i actor db = do
  guard (is_some (find student_id student db.students)) not_found
  semester ← referred (resolve i.semester_id)
  ok (
    record {
      students = db.students;
      records = db.records ++ new_record now id student semester i ∷ [];
      audit_events =
          write_audit m actor (text "STUDENT_ACADEMIC_RECORD_CREATED")
            (text "STUDENT_ACADEMIC_RECORD") id none
            (some (record_document (new_record now id student semester i))) db.audit_events;
    },
    new_record now id student semester i,
  )

-- `Service.CreateAcademicRecord`
unfoldable pub create_record :
    Meta
    → (Text → Reference)
    → Time
    → Uuid
    → Uuid
    → NewAcademicRecord
    → Actor
    → Tables
    → Result StudentError (Tables × AcademicRecord)
unfolding insert_record validate_record
create_record m resolve now id student i actor db =
    checked (validate_record i) >> insert_record m resolve now id student i actor db

-- `ORDER BY created_at DESC, id DESC`
unfoldable pub latest_record : AcademicRecord → AcademicRecord → Bool
latest_record x y = ltb y.created_at x.created_at || (x.created_at == y.created_at && ltb y.id x.id)

-- `$2::uuid IS NULL OR semester_id = $2`
abbrev pub of_semester : Option Uuid → AcademicRecord → Bool
of_semester none r = true
of_semester (some id) r = option_eq ◌==◌ r.semester_id (some id)

-- `ListAcademicRecords`
unfoldable pub list_records :
    Uuid → Option Uuid → Tables → Result StudentError (List AcademicRecord)
unfolding get latest_record
list_records student semester db = do
  s ← get student db
  ok (
      order_by latest_record
        (select (λ r. r.student_id == student && of_semester semester r) db.records))
