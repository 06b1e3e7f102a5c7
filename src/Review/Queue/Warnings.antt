-- ===== src/Review/Queue/Warnings.antt =====
-- What the queue tells of a decision.
use profundiza_uq_backend.Base.{
  ℕ, ◌+◌, ◌≡◌, inl, inr, arith, refl, Bool, true, false, leb, ok, Option-cases,
}
use mathlib.Core.Path.{subst}
use profundiza_uq_backend.Base.Table.{count, tally, find}
use profundiza_uq_backend.Enrollment.Database.{
  Database, EnrollmentRequest, accepted_in_semester, seated_in,
}
use profundiza_uq_backend.Enrollment.Rules.{max_electives_per_semester}
use profundiza_uq_backend.Enrollment.Status.{
  PriorityGroup, direct_same_shift, waitlist_same_shift, waitlist_opposite_shift,
}
use profundiza_uq_backend.Student.Domain.{Student}
use profundiza_uq_backend.Catalog.Admin.{Elective, Group, elective_key, offering_key}
use profundiza_uq_backend.Catalog.Browse.{GroupSeats, with_counts}
use profundiza_uq_backend.Review.Queue.{
  QueueItem, Warning, at_maximum, at_capacity, Snapshot, joined, queue_row, student_id, group_key,
  warnings_for,
}

abbrev pub is_at_maximum : Warning → Bool
is_at_maximum at_maximum = true
is_at_maximum _ = false

abbrev pub is_at_capacity : Warning → Bool
is_at_capacity at_capacity = true
is_at_capacity _ = false

counted_warnings :
    (s : Student) (n : ℕ) (g : GroupSeats) (p : PriorityGroup)
    → (count is_at_maximum (warnings_for s n g p)
        ≡ tally (leb max_electives_per_semester (s.completed_count + n)))
      × (count is_at_capacity (warnings_for s n g p)
          ≡ tally (leb g.group.capacity g.accepted_count))
unfolding warnings_for count
counted_warnings s n g direct_same_shift = ground arith
counted_warnings s n g waitlist_same_shift = ground arith
counted_warnings s n g waitlist_opposite_shift = ground arith

-- What a row of the queue says of its request.
record IsRowOf (t : Snapshot) (r : EnrollmentRequest) (q : QueueItem) : Type 0 where
  row : q.request.row ≡ r
  capacity_counted :
      count is_at_capacity q.warnings
      ≡ tally
          (leb q.group.group.capacity (count (seated_in q.group.group.id) t.enrollment.requests))
  electives_counted :
      count is_at_maximum q.warnings
      ≡ tally (
          leb max_electives_per_semester (
            q.student.completed_count
            + count (accepted_in_semester r.student_id r.semester_id) t.enrollment.requests))

queue_row-IsRowOf :
    (t : Snapshot) (r : EnrollmentRequest) (s : Student) (e : Elective) (g : Group)
    → IsRowOf t r (queue_row t r s e g)
unfolding queue_row with_counts
queue_row-IsRowOf t r s e g =
    let accepted_now =
      count (accepted_in_semester r.student_id r.semester_id) t.enrollment.requests in
    let warned =
      counted_warnings s accepted_now (with_counts t.enrollment.requests g) r.priority_group in
    record { row = refl; capacity_counted = warned.1; electives_counted = warned.0 }

joined-IsRowOf :
    (t : Snapshot) (r : EnrollmentRequest) {q : QueueItem} → joined t r ≡ ok q → IsRowOf t r q
unfolding joined
joined-IsRowOf t r {q} h = elim (Option-cases (find student_id r.student_id t.students)) [
  | inl e ↦ absurd (ground arith)
  | inr (s, e0) ↦ elim (Option-cases (find offering_key r.offering_id t.catalog.offerings)) [
    | inl e ↦ absurd (ground arith)
    | inr (o, e1) ↦ elim (Option-cases (find elective_key o.elective_id t.catalog.electives)) [
      | inl e ↦ absurd (ground arith)
      | inr (el, e2) ↦ elim (Option-cases (find group_key r.offering_group_id t.catalog.groups)) [
        | inl e ↦ absurd (ground arith)
        | inr (g, e3) ↦
            let same : queue_row t r s el g ≡ q = ground arith in
            subst (IsRowOf t r) same (queue_row-IsRowOf t r s el g)
      ]
    ]
  ]
]

pub joined-row :
    (t : Snapshot) (r : EnrollmentRequest) {q : QueueItem} → joined t r ≡ ok q → q.request.row ≡ r
joined-row t r h = (joined-IsRowOf t r h).row
