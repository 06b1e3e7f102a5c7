-- ===== src/Student/Service/Import.antt =====
-- `Service.Import` of internal/student/app/service.go: each row is created in a transaction of its
-- own, and a row that fails is counted and skipped.
use profundiza_uq_backend.Base.{ℕ, ◌+◌, List, [], ◌∷◌, ◌++◌, Uuid, Time, ok, err}
use profundiza_uq_backend.Base.Text.{Text, text}
use profundiza_uq_backend.Enrollment.Service.{itoa}
use profundiza_uq_backend.Shared.Audit.{Meta}
use profundiza_uq_backend.Student.Domain.{NewStudent}
use profundiza_uq_backend.Student.Service.{
  StudentError, not_found, email_taken, database, invalid, Actor, Tables, create,
}

-- `ImportResult`
pub record ImportResult : Type 0 where
  pub accepted_rows : ℕ
  pub rejected_rows : ℕ
  pub errors : List Text

-- What one row's transaction meets: its instant, the id that is drawn, and what the other sessions
-- commit before it.
pub record Turn : Type 0 where
  pub now : Time
  pub id : Uuid
  pub before : Tables → Tables

-- `err.Error()`; the text of an error of the database is the driver's.
unfoldable pub error_text : Text → StudentError → Text
unfolding text
error_text driver not_found = text "student: not found"
error_text driver email_taken = text "student: institutional email already in use"
error_text driver database = driver
error_text driver (invalid e) = e.field ++ text ": " ++ e.message

-- `rowError`
unfoldable pub row_error : Text → ℕ → StudentError → Text
unfolding text itoa error_text
row_error driver index e = text "row " ++ itoa (index + 1) ++ text ": " ++ error_text driver e

abbrev pub count_accepted : ImportResult → ImportResult
count_accepted r = record r { accepted_rows = r.accepted_rows + 1 }

abbrev pub count_rejected : Text → ImportResult → ImportResult
count_rejected message r = record r {
  rejected_rows = r.rejected_rows + 1;
  errors = r.errors ++ message ∷ [];
}

-- The tables and the summary after one row.
unfoldable pub import_row :
    Text → Meta → Actor → Turn → ℕ → NewStudent → Tables × ImportResult → Tables × ImportResult
unfolding create row_error
import_row driver m actor t index row (db, r) = elim (create m t.now t.id row actor (t.before db)) [
  | ok out ↦ (out.0, count_accepted r)
  | err e ↦ (t.before db, count_rejected (row_error driver index e) r)
]

-- The loop of `Import`.
unfoldable pub import_from :
    Text
    → Meta
    → Actor
    → (ℕ → Turn)
    → ℕ
    → List NewStudent
    → Tables × ImportResult
    → Tables × ImportResult
unfolding import_row
import_from driver m actor turns index [] state = state
import_from driver m actor turns index (row ∷ rest) state =
    import_from driver m actor turns (index + 1) rest
      (import_row driver m actor (turns index) index row state)

-- `Import`
unfoldable pub import_students :
    Text → Meta → Actor → (ℕ → Turn) → List NewStudent → Tables → Tables × ImportResult
unfolding import_from
import_students driver m actor turns rows db =
    import_from driver m actor turns 0 rows
      (db, record { accepted_rows = 0; rejected_rows = 0; errors = [] })
