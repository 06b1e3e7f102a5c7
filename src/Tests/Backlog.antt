-- ===== src/Tests/Backlog.antt =====
-- The review queue with one request.
use profundiza_uq_backend.Base.{none, some, [], ◌∷◌, ◌≡◌, ◌≤◌, ◌*◌, arith, refl, ok, is_ok, true}
use profundiza_uq_backend.Base.Int.{pos}
use profundiza_uq_backend.Base.Table.{All, count, find, select, order_by}
use profundiza_uq_backend.Base.Table.Ordered.{IsOrdered}
use profundiza_uq_backend.Shared.Shift.{day}
use profundiza_uq_backend.Enrollment.Database.{group_id, active, EnrollmentRequest}
use profundiza_uq_backend.Enrollment.Status.{pending_review, direct_same_shift}
use profundiza_uq_backend.Student.Domain.{Student}
use profundiza_uq_backend.Catalog.Admin.{Elective, Group}
use profundiza_uq_backend.Catalog.Browse.Seats.{columns}
use profundiza_uq_backend.Review.Queue.{
  QueueFilter, QueueItem, Snapshot, joined, queue_row, in_queue, is_before, is_reviewable,
  queue_page_size, attach_offering_groups,
}
use profundiza_uq_backend.Review.Queue.Siblings.{HasSiblings, attach_offering_groups_lem}
use profundiza_uq_backend.Review.Queue.Listing.{collected, queue_pages}
use profundiza_uq_backend.Tests.Fixtures.{empty}

abbrev asked : EnrollmentRequest
asked = record {
  id = 100;
  semester_id = 1;
  student_id = 20;
  offering_id = 7;
  offering_group_id = 5;
  enrollment_window_id = some 30;
  student_shift = day;
  offering_shift = day;
  priority_group = direct_same_shift;
  status = pending_review;
  arrival_sequence = 1;
  idempotency_key = 107 ∷ [];
  submitted_at = 100;
  cancelled_at = none;
}

abbrev applicant : Student
applicant = record {
  id = 20;
  institutional_email = 97 ∷ [];
  document_number = b'1' ∷ [];
  full_name = b'A' ∷ [];
  academic_shift = day;
  status = profundiza_uq_backend.Student.Domain.active;
  completed_count = 1;
  created_at = 10;
  updated_at = 10;
}

abbrev morning : Group
morning = record {
  id = 5;
  offering_id = 7;
  group_code = b'M' ∷ [];
  shift = day;
  teacher_name = none;
  schedule_text = b'M' ∷ [];
  capacity = 2;
  status = active;
  created_at = 3;
  updated_at = 3;
}

abbrev logic : Elective
logic = record {
  id = 2;
  name = b'L' ∷ [];
  area = b'A' ∷ [];
  description = [];
  status = active;
  created_at = 1;
  updated_at = 1;
}

abbrev one_asked : Snapshot
one_asked = record {
  enrollment = record empty { groups = columns morning ∷ []; requests = asked ∷ [] };
  students = applicant ∷ [];
  catalog = record {
    electives = logic ∷ [];
    prerequisites = [];
    offerings = record { id = 7; semester_id = 1; elective_id = 2; status = active } ∷ [];
    offering_prerequisites = [];
    groups = morning ∷ [];
    audit_events = [];
  };
}

abbrev asked_row : QueueItem
asked_row = queue_row one_asked asked applicant logic morning

one_row_joined : joined one_asked asked ≡ ok asked_row
unfolding joined queue_row find
one_row_joined = refl

attach_offering_groups_lem_example :
    All
      (HasSiblings (λ g h. true) one_asked (λ s. true))
      (attach_offering_groups (λ g h. true) one_asked (asked_row ∷ []))
attach_offering_groups_lem_example =
    attach_offering_groups_lem (λ g h. true) one_asked (λ s. true) (asked_row ∷ [])

abbrev whole_queue : QueueFilter
whole_queue = record {
  semester_id = 1;
  offering_id = none;
  group_id = none;
  status = [];
  priority_group = [];
  page = pos 1;
  page_size = pos 20;
}

one_page_enough :
    count (in_queue whole_queue) one_asked.enrollment.requests
    ≤ 1 * queue_page_size whole_queue.page_size
unfolding count in_queue queue_page_size is_reviewable
one_page_enough = omega arith

row_joined : is_ok (joined one_asked asked) ≡ true
row_joined = rw one_row_joined refl

queue_pages_example :
    (collected (λ g h. true) whole_queue one_asked 1
      ≡ order_by is_before (select (in_queue whole_queue) one_asked.enrollment.requests))
    × IsOrdered is_before (collected (λ g h. true) whole_queue one_asked 1)
queue_pages_example =
    queue_pages (λ g h. true) whole_queue one_asked 1 (row_joined, tt) (omega arith) one_page_enough
