-- ===== src/System/Idempotency.antt =====
-- The idempotency key of a submission, through everything that may happen later.
use profundiza_uq_backend.Base.{
  ℕ, ◌≡◌, refl, sym, ◌∙◌, ap, ◌⊎◌, inl, inr, true, none, some, List, arith, Uuid, Result, ok, err,
  Result-cases, Option-cases,
}
use profundiza_uq_backend.Base.Table.{select_one}
use profundiza_uq_backend.Base.Table.Laws.{
  select_one-insert_old, select_one-insert_new, select_one-modify,
}
use profundiza_uq_backend.Base.Text.{Text, text_eq_iff}
use profundiza_uq_backend.Shared.Audit.{Meta}
use profundiza_uq_backend.Enrollment.Database.{EnrollmentRequest, Database, request_id, has_key}
use profundiza_uq_backend.Enrollment.Submit.{
  SubmitInput, SubmittedRequest, EnrollmentError, Session, find_by_idempotency_key, new_request,
  record_submission, submit_tx, submit, outcome_of, replay,
}
use profundiza_uq_backend.Enrollment.Submit.Steps.{
  IsPrepared, refused, stored_row, conflicted, submit_tx-Ends,
}
use profundiza_uq_backend.Enrollment.Cancel.{CancelInput, cancel}
use profundiza_uq_backend.Review.Decide.{DecisionInput, decide}
use profundiza_uq_backend.Catalog.Capacity.{AdjustCapacityInput, adjust_capacity, adjust_tx}
use profundiza_uq_backend.System.Changes.{
  Updates, Change, same, inserted, updated, submit_tx-Change, cancel-Change, decide-Change,
}
use profundiza_uq_backend.System.Reach.{
  adjust_tx-IsResized, adjust_commits, adjust_rolls_back, adjust_writes_requests,
}

-- A stored request answers to a key, with this id and this arrival number.
pub record Answers (i : SubmitInput) (id arrival : ℕ) (rows : List EnrollmentRequest) : Type 0 where
  pub row : EnrollmentRequest
  pub found : select_one (has_key i.student_id i.semester_id i.idempotency_key) rows ≡ some row
  pub same_id : row.id ≡ id
  pub same_arrival : row.arrival_sequence ≡ arrival

has_key_kept :
    (i : SubmitInput) (q r : EnrollmentRequest)
    → q.student_id ≡ r.student_id
    → q.semester_id ≡ r.semester_id
    → q.idempotency_key ≡ r.idempotency_key
    → has_key i.student_id i.semester_id i.idempotency_key q
      ≡ has_key i.student_id i.semester_id i.idempotency_key r
has_key_kept i q r e₁ e₂ e₃ = rw (e₁, e₂, e₃)

update-Answers :
    (i : SubmitInput) (n m : ℕ) (before after : Database) (id : Uuid)
    (f : EnrollmentRequest → EnrollmentRequest) (r : EnrollmentRequest)
    → Updates before after id f r
    → Answers i n m before.requests
    → Answers i n m after.requests
update-Answers i n m before after id f r u a =
    let kept = has_key_kept i (f r) r u.keeps_student u.keeps_semester u.keeps_key in
    elim (select_one-modify (has_key i.student_id i.semester_id i.idempotency_key) request_id id f
      before.requests u.found kept a.found) [
        | inl old ↦ record {
          row = a.row;
          found = rw u.requests old;
          same_id = a.same_id;
          same_arrival = a.same_arrival;
        }
        | inr (e, new) ↦ record {
          row = f r;
          found = rw u.requests new;
          same_id = u.keeps_id ∙ (ap (λ q. q.id) (sym e) ∙ a.same_id);
          same_arrival =
              u.keeps_arrival r ∙ (ap (λ q. q.arrival_sequence) (sym e) ∙ a.same_arrival);
        }
      ]

Change-Answers :
    (i : SubmitInput) (n m : ℕ) (before after : Database)
    → Change before after
    → Answers i n m before.requests
    → Answers i n m after.requests
Change-Answers i n m before after (same e _ _) a = rw e a
Change-Answers i n m before after (inserted r c) a = record {
  row = a.row;
  found = rw c.requests (
      select_one-insert_old (has_key i.student_id i.semester_id i.idempotency_key) before.requests r
        a.found);
  same_id = a.same_id;
  same_arrival = a.same_arrival;
}
Change-Answers i n m before after (updated id f r u) a =
    update-Answers i n m before after id f r u a

-- A resize leaves the requests alone.
adjust_requests_of :
    (m : Meta) (i : AdjustCapacityInput) (db : Database)
    → ((out : _) × (adjust_tx m i db ≡ ok out)) ⊎ ((e : _) × (adjust_tx m i db ≡ err e))
    → (adjust_capacity m i db).0.requests ≡ db.requests
adjust_requests_of m i db (inr (e, failed)) = rw (adjust_rolls_back m i db e failed)
adjust_requests_of m i db (inl (out, done)) =
    let r = adjust_tx-IsResized m i db out done in
    rw (adjust_commits m i db out done, r.written)
      (adjust_writes_requests m i r.capacity r.group db).0

-- Whatever the sessions do, in any order: the groups may also be resized below their accepted
-- requests.
pub data Act (db : Database) : Database → Type 0 where
  submits : (s : Session) (i : SubmitInput) → Act db (submit_tx s i db).0
  cancels : (s : Session) (i : CancelInput) → Act db (cancel s i db).0
  decides : (s : Session) (i : DecisionInput) → Act db (decide s i db).0
  resizes : (m : Meta) (i : AdjustCapacityInput) → Act db (adjust_capacity m i db).0

pub data History (db : Database) : Database → Type 0 where
  start : History db db
  then_act : {t u : Database} → History db t → Act t u → History db u

Act-Answers :
    {t u : Database} (i : SubmitInput) (n m : ℕ)
    → Act t u
    → Answers i n m t.requests
    → Answers i n m u.requests
Act-Answers {t} i n m (submits s j) a =
    Change-Answers i n m t (submit_tx s j t).0 (submit_tx-Change s j t) a
Act-Answers {t} i n m (cancels s j) a =
    Change-Answers i n m t (cancel s j t).0 (cancel-Change s j t) a
Act-Answers {t} i n m (decides s j) a =
    Change-Answers i n m t (decide s j t).0 (decide-Change s j t) a
Act-Answers {t} i n m (resizes meta j) a =
    rw (adjust_requests_of meta j t (Result-cases (adjust_tx meta j t))) a

History-Answers :
    {t u : Database} (i : SubmitInput) (n m : ℕ)
    → History t u
    → Answers i n m t.requests
    → Answers i n m u.requests
History-Answers i n m start a = a
History-Answers i n m (then_act r act) a = Act-Answers i n m act (History-Answers i n m r a)

new_row_has_key :
    (s : Session) (i : SubmitInput) (db : Database) (r : EnrollmentRequest)
    → IsPrepared s i db r
    → (r.student_id ≡ i.student_id)
      × (r.semester_id ≡ i.semester_id)
      × (r.idempotency_key ≡ i.idempotency_key)
unfolding new_request
new_row_has_key s i db r p = rw p.row (refl, refl, refl)

has_own_key :
    (r : EnrollmentRequest) → has_key r.student_id r.semester_id r.idempotency_key r ≡ true
has_own_key r = ground (arith, text_eq_iff r.idempotency_key r.idempotency_key)

stored-Answers :
    (s : Session) (i : SubmitInput) (db : Database) (r : EnrollmentRequest) (email : Text)
    → IsPrepared s i db r
    → select_one (has_key r.student_id r.semester_id r.idempotency_key) db.requests ≡ none
    → Answers i r.id r.arrival_sequence (record_submission s r email db).requests
unfolding record_submission
stored-Answers s i db r email p key_free =
    let (student, semester, key) = new_row_has_key s i db r p in
    record {
      row = r;
      found =
          rw (← student, ← semester, ← key)
            (select_one-insert_new (has_key r.student_id r.semester_id r.idempotency_key)
              db.requests r key_free (has_own_key r));
      same_id = refl;
      same_arrival = refl;
    }

found-Answers :
    (i : SubmitInput) (db : Database) (out : SubmittedRequest)
    → replay (find_by_idempotency_key i db) ≡ ok out
    → Answers i out.id out.arrival_sequence db.requests
unfolding find_by_idempotency_key
found-Answers i db out h =
    elim (Option-cases
      (select_one (has_key i.student_id i.semester_id i.idempotency_key) db.requests)) [
        | inl e ↦ absurd (ground (arith, h, e))
        | inr (x, e) ↦ record {
          row = x;
          found = e;
          same_id = ground (arith, h, e);
          same_arrival = ground (arith, h, e);
        }
      ]

ok_injective :
    {a b : SubmittedRequest}
    → ◌≡◌ {A = Result EnrollmentError SubmittedRequest} (ok a) (ok b)
    → a ≡ b
ok_injective h = cc

submitted-Answers :
    (s : Session) (i : SubmitInput) (db : Database) (out : SubmittedRequest)
    → (submit_tx s i db).1 ≡ ok out
    → Answers i out.id out.arrival_sequence (submit_tx s i db).0.requests
submitted-Answers s i db out h = elim (submit_tx-Ends s i db) [
  | refused e _ end ↦ let bad = rw end at h in cc bad
  | stored_row r email p key_free _ end ↦
      let same : outcome_of r ≡ out = ok_injective (rw end at h) in
      rw (end, ← same) (stored-Answers s i db r email p key_free)
  | conflicted x end (inl dup) ↦ let bad = rw (end, dup) at h in cc bad
  | conflicted x end (inr again) ↦ rw end (found-Answers i db out (rw (end, again) at h))
]

-- A key that is answered makes `Submit` answer the stored request, and do nothing.
submit_answered :
    (s : Session) (env : Database → Database) (i : SubmitInput) (db : Database) (n m : ℕ)
    → Answers i n m db.requests
    → (again : SubmittedRequest) × (submit s env i db ≡ (env db, ok again))
      × (again.id ≡ n)
      × (again.arrival_sequence ≡ m)
      × (again.existed ≡ true)
unfolding submit find_by_idempotency_key
submit_answered s env i db n m a = (
  record {
    id = a.row.id;
    offering_id = a.row.offering_id;
    status = a.row.status;
    priority_group = a.row.priority_group;
    arrival_sequence = a.row.arrival_sequence;
    existed = true;
  },
  ground (arith, a.found),
  a.same_id,
  a.same_arrival,
  refl,
)

-- Once a submission has succeeded, any later one with the same student, semester and key, at any
-- moment after any submissions, cancellations, decisions and resizes, and whatever group it names,
-- succeeds with the same request id and arrival number, is marked as existing, and changes nothing itself.
pub submit_idempotent :
    (s again : Session) (env : Database → Database) (i j : SubmitInput) (db later : Database)
    (out : SubmittedRequest)
    → (submit_tx s i db).1 ≡ ok out
    → History (submit_tx s i db).0 later
    → j.student_id ≡ i.student_id
    → j.semester_id ≡ i.semester_id
    → j.idempotency_key ≡ i.idempotency_key
    → (found : SubmittedRequest) × (submit again env j later ≡ (env later, ok found))
      × (found.id ≡ out.id)
      × (found.arrival_sequence ≡ out.arrival_sequence)
      × (found.existed ≡ true)
submit_idempotent s again env i j db later out h history e₁ e₂ e₃ =
    let a =
      History-Answers i out.id out.arrival_sequence history (submitted-Answers s i db out h) in
    submit_answered again env j later out.id out.arrival_sequence (record {
      row = a.row;
      found = rw (e₁, e₂, e₃) a.found;
      same_id = a.same_id;
      same_arrival = a.same_arrival;
    })
