-- ===== src/Enrollment/Submit/Seats.antt =====
-- Direct slots are never overbooked by submissions.
use profundiza_uq_backend.Base.{
  ℕ, ◌+◌, ◌≤◌, ◌<◌, ◌≡◌, sym, ◌∙◌, ◌⊎◌, inl, inr, true, false, some, List, [], ◌∷◌, arith, Uuid, ok,
}
use profundiza_uq_backend.Base.Table.{tally, tally-le_one, count, find}
use profundiza_uq_backend.Base.Table.Laws.{count-insert, key-find}
use profundiza_uq_backend.Base.Text.{Text}
use profundiza_uq_backend.Shared.Shift.{same_as_iff}
use profundiza_uq_backend.Enrollment.Status.{is_direct}
use profundiza_uq_backend.Enrollment.Classify.{classify}
use profundiza_uq_backend.Enrollment.Database.{
  OfferingGroup, Student, EnrollmentWindow, EnrollmentRequest, Database, group_id, seated_in,
}
use profundiza_uq_backend.Enrollment.Submit.{
  SubmitInput, SubmittedRequest, Session, lock_group, lock_student, holds_direct_slot, occupancy,
  new_request, record_submission, submit_tx, outcome_of, replay, find_by_idempotency_key,
}
use profundiza_uq_backend.Enrollment.Submit.Steps.{
  IsPrepared, refused, stored_row, conflicted, submit_tx-Ends,
}

-- The seats of a group that are taken: accepted, or held by a pending direct request.
abbrev pub taken : Uuid → List EnrollmentRequest → ℕ
taken group rows = count (seated_in group) rows + count (holds_direct_slot group) rows

-- No group has more seats taken than it has.
abbrev pub IsDirectSeated : Database → Type 0
IsDirectSeated db =
    (id : Uuid) (g : OfferingGroup)
    → find group_id id db.groups ≡ some g
    → taken id db.requests ≤ g.capacity

pub find_of_locked_group :
    (db : Database) (id : Uuid) (g : OfferingGroup)
    → lock_group db id ≡ some g
    → find group_id id db.groups ≡ some g
unfolding lock_group
find_of_locked_group db id g h = ground arith

-- A new request takes no seat as accepted, and a direct slot only where one is free.
new_row_takes :
    (s : Session) (i : SubmitInput) (db : Database) (g : OfferingGroup) (st : Student)
    (w : EnrollmentWindow) (id : Uuid)
    → (tally (seated_in id (new_request s i db g st w)) ≡ 0)
      × ((tally (holds_direct_slot id (new_request s i db g st w)) ≡ 0)
          ⊎ ((i.offering_group_id ≡ id)
              × (count (seated_in g.id) db.requests + count (holds_direct_slot g.id) db.requests
                  < g.capacity)))
unfolding new_request classify occupancy
new_row_takes s i db g st w id = ground arith

same_capacity : (g h : OfferingGroup) → some g ≡ some h → g.capacity ≡ h.capacity
same_capacity g h e = ground arith

record_submission-IsDirectSeated :
    (s : Session) (i : SubmitInput) (db : Database) (r : EnrollmentRequest) (email : Text)
    → IsPrepared s i db r
    → IsDirectSeated db
    → IsDirectSeated (record_submission s r email db)
unfolding record_submission
record_submission-IsDirectSeated s i db r email p h id g found =
    let row = p.row in
    let locked = find_of_locked_group db i.offering_group_id p.group p.group_found in
    let key : p.group.id ≡ i.offering_group_id =
      key-find group_id i.offering_group_id db.groups locked in
    let (unseated, slot) = new_row_takes s i db p.group p.student p.window id in
    rw
      (count-insert (seated_in id) db.requests r, count-insert (holds_direct_slot id) db.requests r)
      (rw (row, unseated)
        (elim slot [
          | inl no_slot ↦ rw no_slot (omega (arith, h id g found))
          | inr (here, room) ↦
              let capacity = same_capacity p.group g (sym locked ∙ (rw here found)) in
              let free = rw (key, here) at room in
              omega (
                arith,
                free,
                capacity,
                tally-le_one (holds_direct_slot id (new_request s i db p.group p.student p.window)),
              )
        ]))

-- One submission, however it ends.
pub submit_tx-IsDirectSeated :
    (s : Session) (i : SubmitInput) (db : Database)
    → IsDirectSeated db
    → IsDirectSeated (submit_tx s i db).0
submit_tx-IsDirectSeated s i db h = elim (submit_tx-Ends s i db) [
  | refused e _ out ↦ rw out h
  | stored_row r email p _ _ out ↦ rw out (record_submission-IsDirectSeated s i db r email p h)
  | conflicted x out _ ↦ rw out h
]

-- The submissions of many sessions, in the order in which the row locks let them through.
unfoldable pub run : List (Session × SubmitInput) → Database → Database
run [] db = db
run ((s, i) ∷ more) db = run more (submit_tx s i db).0

-- However many sessions submit, and in whatever order, the accepted and pending direct requests of
-- a group never exceed its capacity, if they did not at the start.
pub run-IsDirectSeated :
    (work : List (Session × SubmitInput)) (db : Database)
    → IsDirectSeated db
    → IsDirectSeated (run work db)
unfolding run
run-IsDirectSeated [] db h = h
run-IsDirectSeated ((s, i) ∷ more) db h =
    run-IsDirectSeated more (submit_tx s i db).0 (submit_tx-IsDirectSeated s i db h)

-- A request that is found again is reported as existing.
pub replay_existed :
    (i : SubmitInput) (db : Database) (out : SubmittedRequest)
    → replay (find_by_idempotency_key i db) ≡ ok out
    → out.existed ≡ true
unfolding find_by_idempotency_key
replay_existed i db out h = ground arith

-- An end that reports a new request stored it.
pub stored_of_new :
    (s : Session) (i : SubmitInput) (db : Database) (out : SubmittedRequest)
    → (submit_tx s i db).1 ≡ ok out
    → out.existed ≡ false
    → (r : EnrollmentRequest) × (email : Text) × IsPrepared s i db r
      × (submit_tx s i db ≡ (record_submission s r email db, ok (outcome_of r)))
      × (out ≡ outcome_of r)
stored_of_new s i db out h new = elim (submit_tx-Ends s i db) [
  | refused e _ end ↦ let bad = rw end at h in cc bad
  | stored_row r email p _ _ end ↦ let good = rw end at h in (r, email, p, end, cc good)
  | conflicted x end (inl dup) ↦ let bad = rw (end, dup) at h in cc bad
  | conflicted x end (inr again) ↦
      let found = rw (end, again) at h in cc (replay_existed i db out found)
]

direct_row_fits :
    (s : Session) (i : SubmitInput) (db : Database) (g : OfferingGroup) (st : Student)
    (w : EnrollmentWindow)
    → is_direct (new_request s i db g st w).priority_group ≡ true
    → (st.academic_shift ≡ g.shift)
      × (count (seated_in g.id) db.requests + count (holds_direct_slot g.id) db.requests
          < g.capacity)
unfolding new_request classify occupancy
direct_row_fits s i db g st w h = ground (arith, same_as_iff st.academic_shift g.shift)

taken_after :
    (s : Session) (i : SubmitInput) (db : Database) (r : EnrollmentRequest) (email : Text)
    → IsPrepared s i db r
    → (id : Uuid) → taken id (record_submission s r email db).requests ≤ taken id db.requests + 1
unfolding record_submission
taken_after s i db r email p id =
    let (unseated, _) = new_row_takes s i db p.group p.student p.window id in
    omega (
      arith,
      count-insert (seated_in id) db.requests r,
      count-insert (holds_direct_slot id) db.requests r,
      rw (← p.row) at unseated,
      tally-le_one (holds_direct_slot id r),
    )

-- A request that gets a direct slot finds its student and its group active and of one shift, and
-- fits: after it the group has no more seats taken than its capacity.
pub submit_direct_fits :
    (s : Session) (i : SubmitInput) (db : Database) (out : SubmittedRequest)
    → (submit_tx s i db).1 ≡ ok out
    → out.existed ≡ false
    → is_direct out.priority_group ≡ true
    → (g : OfferingGroup) × (st : Student) × (lock_group db i.offering_group_id ≡ some g)
      × (lock_student db i.student_id ≡ some st)
      × (st.academic_shift ≡ g.shift)
      × (taken i.offering_group_id (submit_tx s i db).0.requests ≤ g.capacity)
submit_direct_fits s i db out h new direct =
    let (r, email, p, end, same) = stored_of_new s i db out h new in
    let (shift, room) =
      direct_row_fits s i db p.group p.student p.window (rw (same, p.row) at direct) in
    let locked = find_of_locked_group db i.offering_group_id p.group p.group_found in
    let key : p.group.id ≡ i.offering_group_id =
      key-find group_id i.offering_group_id db.groups locked in
    let free = rw key at room in
    (
      p.group,
      p.student,
      p.group_found,
      p.student_found,
      shift,
      rw end (omega (arith, free, taken_after s i db r email p i.offering_group_id)),
    )
