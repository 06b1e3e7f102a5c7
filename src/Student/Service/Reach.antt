-- ===== src/Student/Service/Reach.antt =====
-- The states that the operations on students reach.
use profundiza_uq_backend.Base.{
  ℕ, ◌+◌, ◌≡◌, refl, sym, inl, inr, arith, List, [], ◌∷◌, Uuid, Time, Result, ok, err, Result-cases,
  >>=-eq-ok, guard, is_some,
}
use mathlib.Core.Path.{subst}
use profundiza_uq_backend.Base.Table.{find}
use profundiza_uq_backend.Base.Text.{Text}
use profundiza_uq_backend.Shared.Audit.{Meta}
use profundiza_uq_backend.Student.Domain.{
  AcademicRecord, NewStudent, StudentPatch, NewAcademicRecord, validate_record,
}
use profundiza_uq_backend.Student.Service.{
  StudentError, Actor, Tables, create, update, commit, checked, student_id, not_found,
}
use profundiza_uq_backend.Student.Service.Records.{
  Reference, create_record, insert_record, referred,
}
use profundiza_uq_backend.Student.Service.Import.{
  Turn, ImportResult, import_row, import_from, import_students,
}
use profundiza_uq_backend.Student.Service.Rows.{IsSound, create-IsSound, update-IsSound}
use profundiza_uq_backend.Student.Service.Summary.{import_row-ok, import_row-err}

-- One request, on the tables that it leaves.
pub data Step (db : Tables) : Tables → Type 0 where
  creates :
      (m : Meta) (now : Time) (id : Uuid) (i : NewStudent) (actor : Actor)
      → Step db (commit db (create m now id i actor db)).0
  updates :
      (m : Meta) (now : Time) (id : Uuid) (p : StudentPatch) (actor : Actor)
      → Step db (commit db (update m now id p actor db)).0
  records :
      (m : Meta) (resolve : Text → Reference) (now : Time) (id student : Uuid)
      (i : NewAcademicRecord) (actor : Actor)
      → Step db (commit db (create_record m resolve now id student i actor db)).0
  imports :
      (driver : Text) (m : Meta) (actor : Actor) (turns : ℕ → Turn) (rows : List NewStudent)
      → ((i : ℕ) (t : Tables) → (turns i).before t ≡ t)
      → Step db (import_students driver m actor turns rows db).0

pub data Reach (db : Tables) : Tables → Type 0 where
  here : Reach db db
  next : {t u : Tables} → Reach db t → Step t u → Reach db u

committed-IsSound {ℓ} :
    {A : Type ℓ} (db : Tables) (tx : Result StudentError (Tables × A))
    → IsSound db.students
    → ((out : Tables × A) → tx ≡ ok out → IsSound out.0.students)
    → IsSound (commit db tx).0.students
unfolding commit
committed-IsSound db (ok out) sound h = h out refl
committed-IsSound db (err e) sound h = sound

record-students :
    (m : Meta) (resolve : Text → Reference) (now : Time) (id student : Uuid) (i : NewAcademicRecord)
    (actor : Actor) (db : Tables) (out : Tables × AcademicRecord)
    → create_record m resolve now id student i actor db ≡ ok out
    → out.0.students ≡ db.students
unfolding create_record insert_record
record-students m resolve now id student i actor db out h =
    let (u, fine, h₁) = >>=-eq-ok (checked (validate_record i)) _ h in
    let (v, exists, h₂) =
      >>=-eq-ok (guard (is_some (find student_id student db.students)) not_found) _ h₁ in
    let (w, semester, h₃) = >>=-eq-ok (referred (resolve i.semester_id)) _ h₂ in ground arith

import_from-IsSound :
    (driver : Text) (m : Meta) (actor : Actor) (turns : ℕ → Turn) (index : ℕ)
    (rows : List NewStudent) (state : Tables × ImportResult)
    → ((i : ℕ) (t : Tables) → (turns i).before t ≡ t)
    → IsSound state.0.students
    → IsSound (import_from driver m actor turns index rows state).0.students
unfolding import_from
import_from-IsSound driver m actor turns index [] state alone sound = sound
import_from-IsSound driver m actor turns index (row ∷ rest) state alone sound =
    import_from-IsSound driver m actor turns (index + 1) rest _ alone one
  where
    one : IsSound (import_row driver m actor (turns index) index row state).0.students
    one = elim (Result-cases (create m (turns index).now (turns index).id row actor state.0)) [
      | inl (out, h) ↦
          rw
            (import_row-ok driver m actor (turns index) index row state.0 state.1 out
              (alone index state.0) h)
            (create-IsSound m _ _ row actor state.0 out h sound)
      | inr (e, h) ↦
          rw
            (import_row-err driver m actor (turns index) index row state.0 state.1 e
              (alone index state.0) h)
            sound
    ]

Step-IsSound : {db db' : Tables} → Step db db' → IsSound db.students → IsSound db'.students
unfolding import_students
Step-IsSound {db} (creates m now id i actor) sound =
    committed-IsSound db (create m now id i actor db) sound
      (λ out h. create-IsSound m now id i actor db out h sound)
Step-IsSound {db} (updates m now id p actor) sound =
    committed-IsSound db (update m now id p actor db) sound
      (λ out h. update-IsSound m now id p actor db out h sound)
Step-IsSound {db} (records m resolve now id student i actor) sound =
    committed-IsSound db (create_record m resolve now id student i actor db) sound (λ out h.
      subst IsSound (sym (record-students m resolve now id student i actor db out h)) sound)
Step-IsSound {db} (imports driver m actor turns rows alone) sound =
    import_from-IsSound driver m actor turns 0 rows (db, _) alone sound

-- Whatever students are created, imported, updated or given records, and in any order, each stored
-- student passes the domain's checks, with zero to four completed electives, and no two share an
-- email or a document number, if this holds at the start.
pub Reach-IsSound : {db db' : Tables} → Reach db db' → IsSound db.students → IsSound db'.students
Reach-IsSound here sound = sound
Reach-IsSound (next path step) sound = Step-IsSound step (Reach-IsSound path sound)
