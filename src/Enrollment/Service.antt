-- ===== src/Enrollment/Service.antt =====
-- internal/enrollment/app/service.go: the batch of submissions, and the reads of one request.
-- `Submit`, `Cancel` and `ListMine` of the service are the operations of the store.
pub mod Keys
pub mod Refusals
pub mod Batch
use profundiza_uq_backend.Base.{
  ℕ, zero, suc, ◌+◌, ◌/◌, ◌%◌, Bool, true, false, not, ◌&&◌, ◌||◌, Option, none, some, List, [],
  ◌∷◌, ◌++◌, Uuid, ◌==◌, ltb, is_some, if◌then◌else◌, Result, ok, err,
}
use profundiza_uq_backend.Base.Table.{length, count, select_one}
use profundiza_uq_backend.Base.Text.{Text}
use profundiza_uq_backend.Enrollment.Status.{is_active}
use profundiza_uq_backend.Enrollment.Rules.{max_electives_reached, max_electives_per_semester}
use profundiza_uq_backend.Enrollment.Database.{
  EnrollmentRequest, Database, RequestView, list_mine, get,
}
use profundiza_uq_backend.Enrollment.Submit.{
  EnrollmentError, rule, not_found, forbidden, duplicate_batch_item, duplicate_active_request,
  SubmitInput, SubmittedRequest, Session, submit,
}

-- The digits of `itoa`, the last one first; the fuel bounds the divisions by ten.
unfoldable pub itoa_loop : ℕ → ℕ → Text → Text
itoa_loop zero i digits = digits
itoa_loop (suc fuel) zero digits = digits
itoa_loop (suc fuel) (suc i) digits = itoa_loop fuel (suc i / 10) ((b'0' + suc i % 10) ∷ digits)

-- `itoa`
unfoldable pub itoa : ℕ → Text
unfolding itoa_loop
itoa zero = b'0' ∷ []
itoa (suc i) = itoa_loop (suc i) (suc i) []

-- `baseIdemKey + ":" + itoa(i)`
unfoldable pub item_key : Text → ℕ → Text
unfolding itoa
item_key base i = base ++ b':' ∷ itoa i

abbrev pub member : Uuid → List Uuid → Bool
member id [] = false
member id (x ∷ xs) = (x == id) || member id xs

-- Step (a): a group that was seen before.
unfoldable pub has_duplicate : List Uuid → List Uuid → Bool
has_duplicate seen [] = false
has_duplicate seen (group ∷ rest) = member group seen || has_duplicate (group ∷ seen) rest

-- Step (b): a group of an active request.
unfoldable pub has_active_group : List EnrollmentRequest → List Uuid → Bool
has_active_group views [] = false
has_active_group views (group ∷ rest) =
    is_some (select_one (λ v. is_active v.status && v.offering_group_id == group) views)
    || has_active_group views rest

-- One item's submission: its transaction's environment, and what other sessions commit before its
-- look-up and before its transaction.
pub record Turn : Type 0 where
  pub session : Session
  pub earlier : Database → Database
  pub between : Database → Database

pub record BatchInput : Type 0 where
  pub semester_id : Uuid
  pub student_id : Uuid
  pub base_key : Text

abbrev pub item : BatchInput → ℕ → Uuid → SubmitInput
item b i group = record {
  semester_id = b.semester_id;
  student_id = b.student_id;
  offering_group_id = group;
  idempotency_key = item_key b.base_key i;
}

-- The results so far, and the error that ended the batch.
abbrev pub Outcome : Type 0
Outcome = List SubmittedRequest × Option EnrollmentError

-- The loop over the items, from the i-th.
unfoldable pub submit_items :
    (ℕ → Turn) → BatchInput → ℕ → List Uuid → Database → Database × Outcome
submit_items turns b i [] db = (db, ([], none))
submit_items turns b i (group ∷ rest) db =
    let t = turns i in
    let (db', result) = submit t.session t.between (item b i group) (t.earlier db) in
    elim result [
      | err e ↦ (db', ([], some e))
      | ok out ↦
          let (db'', (later, e)) = submit_items turns b (suc i) rest db' in (db'', (out ∷ later, e))
    ]

-- `SubmitBatch`
unfoldable pub submit_batch : (ℕ → Turn) → BatchInput → List Uuid → Database → Database × Outcome
unfolding has_duplicate has_active_group
submit_batch turns b groups db =
    let views = list_mine db b.student_id b.semester_id in
    let active = count (λ v. is_active v.status) views in
    let items = submit_items turns b 0 groups db in
    if has_duplicate [] groups
    then (db, ([], some duplicate_batch_item))
    else if has_active_group views groups
    then (db, ([], some duplicate_active_request))
    else if ltb max_electives_per_semester (active + length groups)
    then (db, ([], some (rule max_electives_reached)))
    else items

-- `Get`
unfoldable pub get_request : Uuid → Uuid → Bool → Database → Result EnrollmentError RequestView
get_request request student is_admin db = elim (get db request) [
  | none ↦ err not_found
  | some view ↦
      if not is_admin && not (view.row.student_id == student) then err forbidden else ok view
]
