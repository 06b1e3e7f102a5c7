-- ===== src/Enrollment/Service/Batch.antt =====
-- When a batch is refused as a whole, and why its items cannot meet the cap half-way.
use profundiza_uq_backend.Base.{
  ℕ, suc, ◌+◌, ◌≤◌, ◌<◌, ◌≡◌, ◌≢◌, refl, ◌∙◌, ◌⊎◌, inl, inr, ◌&&◌, none, some, List, [], ◌∷◌, arith,
  Uuid, ◌==◌, ltb, Result, ok, err, Bool-cases, Option-cases,
}
use profundiza_uq_backend.Base.Table.{length, count, select, tally-le_one}
use profundiza_uq_backend.Base.Table.Laws.{count-insert}
use profundiza_uq_backend.Base.Text.{Text}
use profundiza_uq_backend.Enrollment.Status.{is_active}
use profundiza_uq_backend.Enrollment.Rules.{
  max_electives_reached, max_electives_per_semester, validate_submission_allowed,
}
use profundiza_uq_backend.Enrollment.Database.{
  EnrollmentRequest, Database, holds_in_semester, list_mine,
}
use profundiza_uq_backend.Enrollment.Submit.{
  EnrollmentError, rule, duplicate_batch_item, duplicate_active_request, SubmitInput,
  SubmittedRequest, Session, prepare, submit, submit_tx, find_by_idempotency_key, replay,
  record_submission, outcome_of,
}
use profundiza_uq_backend.Enrollment.Submit.Steps.{refused, stored_row, conflicted, submit_tx-Ends}
use profundiza_uq_backend.Enrollment.Service.Refusals.{
  NamesTwice, NamesActive, has_duplicate-NamesTwice, has_duplicate-not,
  has_active_group-NamesActive, has_active_group-not, count-sort,
}
use profundiza_uq_backend.Enrollment.Service.{
  Turn, BatchInput, item, Outcome, submit_items, submit_batch, has_duplicate, has_active_group,
}

-- The active requests that the batch counts.
abbrev pub active_count : BatchInput → Database → ℕ
active_count b db = count (holds_in_semester b.student_id b.semester_id) db.requests

count-select :
    (b : BatchInput) (xs : List EnrollmentRequest)
    → count
        (λ v. is_active v.status)
        (select (λ r. r.student_id == b.student_id && r.semester_id == b.semester_id) xs)
      ≡ count (holds_in_semester b.student_id b.semester_id) xs
unfolding count select
count-select b [] = refl
count-select b (x ∷ xs) =
    let ih = count-select b xs in
    elim (Bool-cases (x.student_id == b.student_id && x.semester_id == b.semester_id)) [
      | inl e ↦ rw e (ground arith)
      | inr e ↦ rw e (ground arith)
    ]

count-list_mine :
    (b : BatchInput) (db : Database)
    → count (λ v. is_active v.status) (list_mine db b.student_id b.semester_id) ≡ active_count b db
unfolding list_mine
count-list_mine b db = count-sort _ _ ∙ count-select b db.requests

-- No other session commits anything during the batch.
abbrev pub Quiet : (ℕ → Turn) → Type 0
Quiet turns = (i : ℕ) (db : Database) → ((turns i).earlier db ≡ db) × ((turns i).between db ≡ db)

prepare_below :
    (s : Session) (i : SubmitInput) (db : Database) (e : EnrollmentError)
    → count (holds_in_semester i.student_id i.semester_id) db.requests < max_electives_per_semester
    → prepare s i db ≡ err e
    → e ≢ rule max_electives_reached
unfolding prepare validate_submission_allowed
prepare_below s i db e room h = ground arith

not_refused :
    (i : SubmitInput) (db : Database) (x : Result EnrollmentError SubmittedRequest)
    → (x ≡ err duplicate_active_request) ⊎ (x ≡ replay (find_by_idempotency_key i db))
    → x ≢ err (rule max_electives_reached)
not_refused i db x (inl h) k = cc
not_refused i db x (inr h) k = elim (Option-cases (find_by_idempotency_key i db)) [
  | inl e ↦ ground arith
  | inr (out, e) ↦ ground arith
]

-- A submission below the cap does not meet it, and adds at most one active request.
Below : SubmitInput → Database → Database × Result EnrollmentError SubmittedRequest → Type 0
Below i db out =
    (out.1 ≢ err (rule max_electives_reached))
    × (count (holds_in_semester i.student_id i.semester_id) out.0.requests
        ≤ suc (count (holds_in_semester i.student_id i.semester_id) db.requests))

stored-Below :
    (s : Session) (i : SubmitInput) (db : Database) (r : EnrollmentRequest) (email : Text)
    → Below i db (record_submission s r email db, ok (outcome_of r))
unfolding record_submission Below
stored-Below s i db r email =
    let counted = count-insert (holds_in_semester i.student_id i.semester_id) db.requests r in
    let one = tally-le_one (holds_in_semester i.student_id i.semester_id r) in
    (λ k. cc, rw counted (omega arith))

submit_tx-Below :
    (s : Session) (i : SubmitInput) (db : Database)
    → count (holds_in_semester i.student_id i.semester_id) db.requests < max_electives_per_semester
    → Below i db (submit_tx s i db)
unfolding Below
submit_tx-Below s i db room = elim (submit_tx-Ends s i db) [
  | refused e h end ↦
      let other = prepare_below s i db e room h in rw end (λ k. other (ground arith), omega arith)
  | stored_row r email p _ _ end ↦ rw end (stored-Below s i db r email)
  | conflicted x end why ↦ rw end (not_refused i db x why, omega arith)
]

submit_found :
    (s : Session) (between : Database → Database) (i : SubmitInput) (db : Database)
    (out : SubmittedRequest)
    → find_by_idempotency_key i db ≡ some out
    → submit s between i db ≡ (between db, ok out)
unfolding submit
submit_found s between i db out e = ground arith

submit_fresh :
    (s : Session) (between : Database → Database) (i : SubmitInput) (db : Database)
    → find_by_idempotency_key i db ≡ none
    → submit s between i db ≡ submit_tx s i (between db)
unfolding submit
submit_fresh s between i db e = ground arith

found-Below : (i : SubmitInput) (db : Database) (out : SubmittedRequest) → Below i db (db, ok out)
unfolding Below
found-Below i db out = (λ k. cc, omega arith)

submit-Below :
    (s : Session) (between : Database → Database) (i : SubmitInput) (db : Database)
    → between db ≡ db
    → count (holds_in_semester i.student_id i.semester_id) db.requests < max_electives_per_semester
    → Below i db (submit s between i db)
submit-Below s between i db quiet room = elim (Option-cases (find_by_idempotency_key i db)) [
  | inl e ↦ rw (submit_fresh s between i db e, quiet) (submit_tx-Below s i db room)
  | inr (out, e) ↦ rw (submit_found s between i db out e, quiet) (found-Below i db out)
]

abbrev MeetsCap : Database × Outcome → Type 0
MeetsCap out = out.1.1 ≡ some (rule max_electives_reached)

-- The loop after one item has ended.
abbrev after_item :
    (ℕ → Turn)
    → BatchInput
    → ℕ
    → List Uuid
    → Database × Result EnrollmentError SubmittedRequest
    → Database × Outcome
after_item turns b i rest (db', err e) = (db', ([], some e))
after_item turns b i rest (db', ok out) =
    let (db'', (later, e)) = submit_items turns b i rest db' in (db'', (out ∷ later, e))

after_item_below :
    (turns : ℕ → Turn) (b : BatchInput) (i : ℕ) (rest : List Uuid)
    (out : Database × Result EnrollmentError SubmittedRequest)
    → out.1 ≢ err (rule max_electives_reached)
    → ¬ (MeetsCap (submit_items turns b i rest out.0))
    → ¬ (MeetsCap (after_item turns b i rest out))
after_item_below turns b i rest (db', err e) n m k = n (ground arith)
after_item_below turns b i rest (db', ok out) n m k = m k

after_item_of :
    (turns : ℕ → Turn) (b : BatchInput) (i : ℕ) (rest : List Uuid)
    (out : Database × Result EnrollmentError SubmittedRequest)
    → elim out.1 as (λ x. Database × Outcome) [
      | err e ↦ (out.0, ([], some e))
      | ok o ↦ let (db'', (later, e)) = submit_items turns b i rest out.0 in (db'', (o ∷ later, e))
    ]
      ≡ after_item turns b i rest out
after_item_of turns b i rest (db', err e) = refl
after_item_of turns b i rest (db', ok o) = refl

submit_items-cons :
    (turns : ℕ → Turn) (b : BatchInput) (i : ℕ) (group : Uuid) (rest : List Uuid) (db : Database)
    → submit_items turns b i (group ∷ rest) db
      ≡ after_item turns b
          (suc i)
          rest
          (submit (turns i).session (turns i).between (item b i group) ((turns i).earlier db))
unfolding submit_items
submit_items-cons turns b i group rest db =
    after_item_of turns b (suc i) rest
      (submit (turns i).session (turns i).between (item b i group) ((turns i).earlier db))

submit_items_below :
    (turns : ℕ → Turn) (b : BatchInput) (i : ℕ) (groups : List Uuid) (db : Database)
    → Quiet turns
    → active_count b db + length groups ≤ max_electives_per_semester
    → ¬ (MeetsCap (submit_items turns b i groups db))
unfolding submit_items Below
submit_items_below turns b i [] db quiet room = λ k. cc
submit_items_below turns b i (group ∷ rest) db quiet room =
    let (earlier, between) = quiet i db in
    let (fits, grows) =
      submit-Below (turns i).session (turns i).between (item b i group) db between (omega arith) in
    let ih =
      submit_items_below turns b (suc i) rest
        (submit (turns i).session (turns i).between (item b i group) db).0 quiet (omega arith) in
    rw (submit_items-cons turns b i group rest db, earlier)
      (after_item_below turns b (suc i) rest
        (submit (turns i).session (turns i).between (item b i group) db) fits ih)

abbrev pub Exceeds : BatchInput → List Uuid → Database → Type 0
Exceeds b groups db = max_electives_per_semester < active_count b db + length groups

abbrev pub refused_with : EnrollmentError → Database → Database × Outcome
refused_with e db = (db, ([], some e))

pub submit_batch_lem :
    (turns : ℕ → Turn) (b : BatchInput) (groups : List Uuid) (db : Database)
    → (NamesTwice groups × (submit_batch turns b groups db ≡ refused_with duplicate_batch_item db))
      ⊎ ((¬ (NamesTwice groups)
            × NamesActive b.student_id b.semester_id groups db
            × (submit_batch turns b groups db ≡ refused_with duplicate_active_request db))
          ⊎ ((¬ (NamesTwice groups)
                × ¬ (NamesActive b.student_id b.semester_id groups db)
                × Exceeds b groups db
                × (submit_batch turns b groups db ≡ refused_with (rule max_electives_reached) db))
              ⊎ (¬ (NamesTwice groups)
                  × ¬ (NamesActive b.student_id b.semester_id groups db)
                  × ¬ (Exceeds b groups db)
                  × (submit_batch turns b groups db ≡ submit_items turns b 0 groups db))))
unfolding submit_batch
submit_batch_lem turns b groups db =
    let counted = count-list_mine b db in
    elim (Bool-cases (has_duplicate [] groups)) [
      | inl e ↦ inl (has_duplicate-NamesTwice groups e, rw (submit_batch, e) refl)
      | inr e ↦
          let once : ¬ (NamesTwice groups) = has_duplicate-not groups e in
          elim (Bool-cases (has_active_group (list_mine db b.student_id b.semester_id) groups)) [
            | inl f ↦ inr (
                inl (
                  once,
                  has_active_group-NamesActive b.student_id b.semester_id groups db f,
                  rw (submit_batch, e, f) refl,
                ))
            | inr f ↦
                let idle : ¬ (NamesActive b.student_id b.semester_id groups db) =
                  has_active_group-not b.student_id b.semester_id groups db f in
                elim (Bool-cases
                  (ltb max_electives_per_semester (active_count b db + length groups))) [
                    | inl g ↦ inr (
                        inr (
                          inl (once, idle, ground arith, rw (submit_batch, e, f, counted, g) refl)))
                    | inr g ↦ inr (
                        inr (
                          inr (
                            once,
                            idle,
                            λ more. ground arith,
                            rw (submit_batch, e, f, counted, g) refl,
                          )))
                  ]
          ]
    ]

-- While no other session interferes, no item of a batch that fits the cap meets it half-way.
pub submit_batch_fits :
    (turns : ℕ → Turn) (b : BatchInput) (groups : List Uuid) (db : Database)
    → Quiet turns
    → active_count b db + length groups ≤ max_electives_per_semester
    → (submit_batch turns b groups db).1.1 ≢ some (rule max_electives_reached)
submit_batch_fits turns b groups db quiet room = elim (submit_batch_lem turns b groups db) [
  | inl (_, e) ↦ λ k. let bad = rw e at k in ground arith
  | inr (inl (_, _, e)) ↦ λ k. let bad = rw e at k in ground arith
  | inr (inr (inl (_, _, more, e))) ↦ absurd (omega arith)
  | inr (inr (inr (_, _, _, e))) ↦ rw e (submit_items_below turns b 0 groups db quiet room)
]
