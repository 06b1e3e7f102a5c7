-- ===== src/Student/Service/Summary.antt =====
-- What an import leaves, and what its summary says.
use mathlib.Core.List.{append_assoc, append-nil}
use profundiza_uq_backend.Base.{
  ℕ, suc, ◌+◌, ◌≡◌, refl, ◌∙◌, sym, ap, inl, inr, arith, List, [], ◌∷◌, ◌++◌, Uuid, Time, Result,
  ok, err, Result-cases, guard, or_err, >>=-eq-ok, not,
}
use profundiza_uq_backend.Base.Int.{to_ℕ?}
use profundiza_uq_backend.Base.Table.{length}
use profundiza_uq_backend.Base.Table.Laws.{length-insert}
use profundiza_uq_backend.Base.Text.{Text}
use profundiza_uq_backend.Shared.Audit.{Meta, length-write}
use profundiza_uq_backend.Shared.Shift.{valid}
use profundiza_uq_backend.Student.Domain.{Student, NewStudent, validate}
use profundiza_uq_backend.Student.Service.{
  StudentError, Actor, Tables, create, insert_student, write_audit, checked, is_taken, new_student,
}
use profundiza_uq_backend.Student.Service.Import.{
  Turn, ImportResult, import_row, import_from, import_students, row_error, count_accepted,
  count_rejected,
}
use profundiza_uq_backend.Student.Service.Rows.{created}

abbrev events : Result StudentError (Tables × Student) → ℕ
events (ok out) = length out.0.audit_events
events (err e) = 0

create-audits :
    (m : Meta) (now : Time) (id : Uuid) (i : NewStudent) (actor : Actor) (db : Tables)
    (out : Tables × Student)
    → create m now id i actor db ≡ ok out
    → length out.0.audit_events ≡ length db.audit_events + 1
unfolding create insert_student write_audit
create-audits m now id i actor db out h =
    let (u, valid_input, h₁) = >>=-eq-ok (checked (validate i)) _ h in
    let (v, shift, h₂) = >>=-eq-ok (guard (valid i.academic_shift) _) _ h₁ in
    let (completed, given_count, h₃) = >>=-eq-ok (or_err (to_ℕ? i.completed_count) _) _ h₂ in
    let (w, free, h₄) =
      >>=-eq-ok (guard (not (is_taken (new_student now id i completed) db.students)) _) _ h₃ in
    ap events (sym h₄) ∙ length-write m _ db.audit_events

-- The tables and the summary of a part of an import, from what stood before it.
abbrev Accounts : ℕ → Tables × ImportResult → Tables × ImportResult → Type 0
Accounts rows before after =
    (added : List Student) × (after.0.students ≡ before.0.students ++ added)
    × (after.1.accepted_rows ≡ before.1.accepted_rows + length added)
    × (after.1.accepted_rows + after.1.rejected_rows
        ≡ before.1.accepted_rows + before.1.rejected_rows + rows)
    × (length after.1.errors + before.1.rejected_rows
        ≡ length before.1.errors + after.1.rejected_rows)
    × (length after.0.audit_events ≡ length before.0.audit_events + length added)

length-append : (xs ys : List Student) → length (xs ++ ys) ≡ length xs + length ys
length-append [] ys = omega arith
length-append (x ∷ xs) ys = omega (arith, length-append xs ys)

Accounts-trans :
    (a b : ℕ) (x y z : Tables × ImportResult)
    → Accounts a x y
    → Accounts b y z
    → Accounts (a + b) x z
Accounts-trans a b x y z (first, s, n, r, e, l) (second, s', n', r', e', l') =
    let both = length-append first second in
    (
      first ++ second,
      s' ∙ ap (λ t. t ++ second) s ∙ append_assoc x.0.students first second,
      omega arith,
      omega arith,
      omega arith,
      omega arith,
    )

module _ (driver : Text) (m : Meta) (actor : Actor) (t : Turn) (index : ℕ) (row : NewStudent) where
  pub import_row-ok :
      (db : Tables) (r : ImportResult) (out : Tables × Student)
      → t.before db ≡ db
      → create m t.now t.id row actor db ≡ ok out
      → import_row driver m actor t index row (db, r) ≡ (out.0, count_accepted r)
  unfolding import_row
  import_row-ok db r out alone h = rw (import_row, alone, h) refl

  pub import_row-err :
      (db : Tables) (r : ImportResult) (e : StudentError)
      → t.before db ≡ db
      → create m t.now t.id row actor db ≡ err e
      → import_row driver m actor t index row (db, r)
        ≡ (db, count_rejected (row_error driver index e) r)
  unfolding import_row
  import_row-err db r e alone h =
      let h' : create m t.now t.id row actor (t.before db) ≡ err e =
        ap (create m t.now t.id row actor) alone ∙ h in
      let skipped : import_row driver m actor t index row (db, r)
          ≡ (t.before db, count_rejected (row_error driver index e) r) =
        rw (import_row, h') refl in
      skipped ∙ ap (λ d. (d, count_rejected (row_error driver index e) r)) alone

import_row-Accounts :
    (driver : Text) (m : Meta) (actor : Actor) (t : Turn) (index : ℕ) (row : NewStudent)
    (state : Tables × ImportResult)
    → t.before state.0 ≡ state.0
    → Accounts 1 state (import_row driver m actor t index row state)
unfolding import_row
import_row-Accounts driver m actor t index row state alone =
    elim (Result-cases (create m t.now t.id row actor state.0)) [
      | inl (out, h) ↦
          let (completed, fine, count, free, table) =
            created m t.now t.id row actor state.0 out h in
          let events = create-audits m t.now t.id row actor state.0 out h in
          rw (import_row-ok driver m actor t index row state.0 state.1 out alone h) (
            new_student t.now t.id row completed ∷ [],
            table,
            omega arith,
            omega arith,
            omega arith,
            omega arith,
          )
      | inr (e, h) ↦
          let longer = length-insert state.1.errors (row_error driver index e) in
          rw (import_row-err driver m actor t index row state.0 state.1 e alone h) (
            [],
            sym (append-nil state.0.students),
            omega arith,
            omega arith,
            omega arith,
            omega arith,
          )
    ]

import_from-Accounts :
    (driver : Text) (m : Meta) (actor : Actor) (turns : ℕ → Turn) (index : ℕ)
    (rows : List NewStudent) (state : Tables × ImportResult)
    → ((i : ℕ) (db : Tables) → (turns i).before db ≡ db)
    → Accounts (length rows) state (import_from driver m actor turns index rows state)
unfolding import_from
import_from-Accounts driver m actor turns index [] state alone =
    ([], sym (append-nil state.0.students), omega arith, omega arith, omega arith, omega arith)
import_from-Accounts driver m actor turns index (row ∷ rest) state alone =
    let next = import_row driver m actor (turns index) index row state in
    let first =
      import_row-Accounts driver m actor (turns index) index row state (alone index state.0) in
    let others = import_from-Accounts driver m actor turns (index + 1) rest next alone in
    let e : 1 + length rest ≡ suc (length rest) = omega arith in
    let last = import_from driver m actor turns (index + 1) rest next in
    let whole = Accounts-trans 1 (length rest) state next last first others in rw (sym e) whole

-- An import counts each row once: as accepted, when it adds a student behind those that were there
-- and an audit event, or as rejected, when it adds a message. This holds if no other session writes
-- to the tables meanwhile.
pub import_students_lem :
    (driver : Text) (m : Meta) (actor : Actor) (turns : ℕ → Turn) (rows : List NewStudent)
    (db : Tables)
    → ((i : ℕ) (db : Tables) → (turns i).before db ≡ db)
    → (added : List Student) × ((import_students driver m actor turns rows db).0.students
        ≡ db.students ++ added)
      × ((import_students driver m actor turns rows db).1.accepted_rows ≡ length added)
      × ((import_students driver m actor turns rows db).1.accepted_rows
            + (import_students driver m actor turns rows db).1.rejected_rows
          ≡ length rows)
      × (length (import_students driver m actor turns rows db).1.errors
          ≡ (import_students driver m actor turns rows db).1.rejected_rows)
      × (length (import_students driver m actor turns rows db).0.audit_events
          ≡ length db.audit_events + length added)
unfolding import_students
import_students_lem driver m actor turns rows db alone =
    let (added, s, n, r, e, l) = import_from-Accounts driver m actor turns 0 rows (db, _) alone in
    (added, s, ground arith, ground arith, ground arith, l)
