-- ===== src/Tests/Students.antt =====
-- Students.
use profundiza_uq_backend.Base.{ℕ, none, some, List, [], ◌∷◌, ◌++◌, ◌≡◌, ◌+◌, refl, arith}
use profundiza_uq_backend.Base.Int.{pos}
use profundiza_uq_backend.Base.Table.{length, count, select, order_by}
use profundiza_uq_backend.Base.Text.{Text, text_eq}
use profundiza_uq_backend.Shared.Audit.{ActorType, Meta}
use profundiza_uq_backend.Shared.Shift.{day, same_as}
use profundiza_uq_backend.Shared.Paging.{page_size_of}
use profundiza_uq_backend.Student.Domain.{active, Student, NewStudent, StudentPatch}
use profundiza_uq_backend.Student.Service.{Actor, Tables, update, commit}
use profundiza_uq_backend.Student.Service.Import.{Turn, import_students}
use profundiza_uq_backend.Student.Service.Summary.{import_students_lem}
use profundiza_uq_backend.Student.Service.Listing.{
  ListFilter, matches, latest, collected, list_pages,
}
use profundiza_uq_backend.Student.Service.Rows.{IsSound}
use profundiza_uq_backend.Student.Service.Reach.{Reach, here, next, imports, updates, Reach-IsSound}

abbrev from_client : Meta
from_client = record { ip_address = []; user_agent = [] }

abbrev registrar : Actor
registrar = record { kind = ActorType.admin; id = some 40 }

abbrev no_students : Tables
no_students = record { students = []; records = []; audit_events = [] }

abbrev newcomer : Text → Text → NewStudent
newcomer email document = record {
  institutional_email = email;
  document_number = document;
  full_name = b'N' ∷ [];
  academic_shift = day;
  completed_count = pos 2;
}

-- The second row has the email of the first one, and the third one has no name at all.
abbrev sheet : List NewStudent
sheet =
    newcomer (b'a' ∷ b'@' ∷ b'u' ∷ []) (b'1' ∷ [])
    ∷ newcomer (b'a' ∷ b'@' ∷ b'u' ∷ []) (b'2' ∷ [])
    ∷ record (newcomer (b'b' ∷ b'@' ∷ b'u' ∷ []) (b'3' ∷ [])) { full_name = [] }
    ∷ newcomer (b'c' ∷ b'@' ∷ b'u' ∷ []) (b'4' ∷ [])
    ∷ []

abbrev rows_in_turn : ℕ → Turn
rows_in_turn i = record { now = 100 + i; id = i; before = λ db. db }

abbrev imported : Tables
imported = (import_students [] from_client registrar rows_in_turn sheet no_students).0

import_students_lem_example :
    (added : List Student) × ((import_students [] from_client registrar rows_in_turn sheet
        no_students).0.students
      ≡ [] ++ added)
    × ((import_students [] from_client registrar rows_in_turn sheet no_students).1.accepted_rows
        ≡ length added)
    × ((import_students [] from_client registrar rows_in_turn sheet no_students).1.accepted_rows
          + (import_students [] from_client registrar rows_in_turn sheet
              no_students).1.rejected_rows
        ≡ length sheet)
    × (length (import_students [] from_client registrar rows_in_turn sheet no_students).1.errors
        ≡ (import_students [] from_client registrar rows_in_turn sheet no_students).1.rejected_rows)
    × (length
          (import_students [] from_client registrar rows_in_turn sheet no_students).0.audit_events
        ≡ 0 + length added)
import_students_lem_example =
    import_students_lem [] from_client registrar rows_in_turn sheet no_students (λ i db. refl)

abbrev promoted : StudentPatch
promoted = record {
  full_name = none;
  academic_shift = none;
  status = none;
  completed_count = some (pos 4);
}

registry_history :
    Reach no_students (commit imported (update from_client 200 0 promoted registrar imported)).0
registry_history =
    next (next here (imports [] from_client registrar rows_in_turn sheet (λ i db. refl)))
      (updates from_client 200 0 promoted registrar)

Reach-IsSound_example :
    IsSound (commit imported (update from_client 200 0 promoted registrar imported)).0.students
Reach-IsSound_example =
    Reach-IsSound registry_history (record { rows_valid = tt; emails = tt; documents = tt })

abbrev two_per_page : ListFilter
two_per_page = record { page = pos 1; page_size = pos 2; q = []; shift = some day; status = none }

abbrev pupil : ℕ → Student
pupil id = record {
  id = id;
  institutional_email = b'a' ∷ b'@' ∷ id ∷ [];
  document_number = id ∷ [];
  full_name = b'N' ∷ [];
  academic_shift = day;
  status = active;
  completed_count = 0;
  created_at = 100;
  updated_at = 100;
}

abbrev registry : Tables
registry = record { students = pupil 1 ∷ pupil 2 ∷ pupil 3 ∷ []; records = []; audit_events = [] }

list_pages_example :
    collected text_eq two_per_page registry 2
    ≡ order_by latest (select (matches text_eq two_per_page) registry.students)
unfolding matches count page_size_of same_as
list_pages_example = list_pages text_eq two_per_page registry 2 (omega arith) (omega arith)
