-- ===== src/Review/Queue.antt =====
-- internal/review/adapter/postgres/queue.go and Queue of internal/review/app/service.go: the
-- prioritized queue of the requests to be decided.
pub mod Warnings
pub mod Siblings
pub mod Listing
use profundiza_uq_backend.Base.{
  ℕ, zero, suc, ◌+◌, Bool, true, false, ◌&&◌, ◌||◌, Option, none, some, List, [], ◌∷◌, ◌++◌, map,
  Uuid, ◌==◌, leb, ltb, if◌then◌else◌, Result, ok, err, or_err, ◌>>=◌,
}
use profundiza_uq_backend.Base.Int.{ℤ, pos, negsuc}
use profundiza_uq_backend.Base.Table.{is_in, count, select, find, limit, skip, order_by}
use profundiza_uq_backend.Base.Text.{Text, text_eq, is_empty}
use profundiza_uq_backend.Shared.Paging.{page_of, offset_of}
use profundiza_uq_backend.Shared.Shift.{AcademicShift}
use profundiza_uq_backend.Shared.Validation.{if_given}
use profundiza_uq_backend.Enrollment.Database.{
  Database, EnrollmentRequest, RequestView, RowStatus, accepted_in_semester, latest_reason, is_live,
}
use profundiza_uq_backend.Enrollment.Rules.{max_electives_per_semester}
use profundiza_uq_backend.Enrollment.Status.{
  PriorityGroup, direct_same_shift, waitlist_same_shift, waitlist_opposite_shift, RequestStatus,
  submitted, pending_review, waitlisted_same_shift, waitlisted_opposite_shift, is_accepted,
}
use profundiza_uq_backend.Enrollment.Submit.{status_name, priority_name}
use profundiza_uq_backend.Student.Domain.{Student}
use profundiza_uq_backend.Catalog.Admin.{
  Elective, Group, Offering, Tables, elective_key, offering_key,
}
use profundiza_uq_backend.Catalog.Browse.{GroupSeats, with_counts}

-- `QueueFilter`; an empty id is `none`.
pub record QueueFilter : Type 0 where
  pub semester_id : Uuid
  pub offering_id : Option Uuid
  pub group_id : Option Uuid
  pub status : Text
  pub priority_group : Text
  pub page : ℤ
  pub page_size : ℤ

-- The three strings of `warningsFor`.
pub data Warning : Type 0 where
  at_maximum at_capacity opposite_shift : Warning

-- The columns of a group that `attachOfferingGroups` reads.
pub record SiblingGroup : Type 0 where
  pub id : Uuid
  pub offering_id : Uuid
  pub group_code : Text
  pub shift : AcademicShift
  pub schedule_text : Text
  pub capacity : ℕ
  pub status : RowStatus
  pub accepted_count : ℕ

-- `QueueItem`
pub record QueueItem : Type 0 where
  pub request : RequestView
  pub student : Student
  pub elective : Elective
  pub group : GroupSeats
  pub offering_groups : List SiblingGroup
  pub warnings : List Warning

-- The tables that the queue joins; the groups of `catalog` are those of the requests.
pub record Snapshot : Type 0 where
  pub enrollment : Database
  pub students : List Student
  pub catalog : Tables

-- `reviewableStatuses`
unfoldable pub is_reviewable : RequestStatus → Bool
is_reviewable submitted = true
is_reviewable pending_review = true
is_reviewable waitlisted_same_shift = true
is_reviewable waitlisted_opposite_shift = true
is_reviewable _ = false

-- `priorityRank`
unfoldable pub priority_rank : PriorityGroup → ℕ
priority_rank direct_same_shift = 0
priority_rank waitlist_same_shift = 1
priority_rank waitlist_opposite_shift = 2

-- The two clamps of `Queue`: a page that is too large is one of the default size.
unfoldable pub queue_page_size : ℤ → ℕ
queue_page_size (pos zero) = 20
queue_page_size (pos (suc n)) = if ltb 100 (suc n) then 20 else suc n
queue_page_size (negsuc n) = 20

-- The WHERE clause that `ListQueue` builds.
unfoldable pub in_queue : QueueFilter → EnrollmentRequest → Bool
unfolding is_reviewable
in_queue f r =
    r.semester_id == f.semester_id
    && if_given (λ o. r.offering_id == o) f.offering_id
    && if_given (λ g. r.offering_group_id == g) f.group_id
    && (is_empty f.priority_group || text_eq (priority_name r.priority_group) f.priority_group)
    && (if is_empty f.status
        then is_reviewable r.status
        else text_eq (status_name r.status) f.status)

abbrev pub is_opposite : PriorityGroup → Bool
is_opposite waitlist_opposite_shift = true
is_opposite _ = false

-- `warningsFor`: the student, the accepted requests of the semester, the group, the priority.
unfoldable pub warnings_for : Student → ℕ → GroupSeats → PriorityGroup → List Warning
warnings_for s student_accepted g priority =
    (if leb max_electives_per_semester (s.completed_count + student_accepted)
      then at_maximum ∷ []
      else [])
    ++ (if leb g.group.capacity g.accepted_count then at_capacity ∷ [] else [])
    ++ (if is_opposite priority then opposite_shift ∷ [] else [])

-- The columns of one row, and its warnings.
unfoldable pub queue_row : Snapshot → EnrollmentRequest → Student → Elective → Group → QueueItem
unfolding with_counts warnings_for
queue_row t r s e g = record {
  request = record { row = r; latest_reason = latest_reason t.enrollment r.id };
  student = s;
  elective = e;
  group = with_counts t.enrollment.requests g;
  offering_groups = [];
  warnings =
      warnings_for s (count (accepted_in_semester r.student_id r.semester_id) t.enrollment.requests)
        (with_counts t.enrollment.requests g) r.priority_group;
}

abbrev pub student_id : Student → Uuid
student_id s = s.id

abbrev pub group_key : Group → Uuid
group_key g = g.id

-- The JOINs of the query for one request; `err` is a request that they drop.
unfoldable pub joined : Snapshot → EnrollmentRequest → Result (Unit {0}) QueueItem
unfolding queue_row
joined t r = do
  s ← or_err (find student_id r.student_id t.students) tt
  o ← or_err (find offering_key r.offering_id t.catalog.offerings) tt
  e ← or_err (find elective_key o.elective_id t.catalog.electives) tt
  g ← or_err (find group_key r.offering_group_id t.catalog.groups) tt
  ok (queue_row t r s e g)

abbrev pub add_row : Result (Unit {0}) QueueItem → List QueueItem → List QueueItem
add_row (err e) rest = rest
add_row (ok item) rest = item ∷ rest

unfoldable pub joined_rows : Snapshot → List EnrollmentRequest → List QueueItem
unfolding joined
joined_rows t [] = []
joined_rows t (r ∷ rest) = add_row (joined t r) (joined_rows t rest)

-- `ORDER BY priorityRank, r.arrival_sequence`
unfoldable pub is_before : EnrollmentRequest → EnrollmentRequest → Bool
unfolding priority_rank
is_before r q =
    ltb (priority_rank r.priority_group) (priority_rank q.priority_group)
    || (priority_rank r.priority_group == priority_rank q.priority_group
        && leb r.arrival_sequence q.arrival_sequence)

abbrev pub row_of : QueueItem → EnrollmentRequest
row_of q = q.request.row

abbrev pub is_earlier : QueueItem → QueueItem → Bool
is_earlier x y = is_before (row_of x) (row_of y)

-- The ids of the page's offerings, each once; `ids` are those of the rows before.
unfoldable pub add_new : List Uuid → Uuid → List Uuid
add_new ids id = if is_in ids id then ids else ids ++ id ∷ []

unfoldable pub distinct_offerings : List Uuid → List QueueItem → List Uuid
unfolding add_new
distinct_offerings ids [] = ids
distinct_offerings ids (q ∷ rest) = distinct_offerings (add_new ids q.request.row.offering_id) rest

abbrev pub sibling : List EnrollmentRequest → Group → SiblingGroup
sibling requests g = record {
  id = g.id;
  offering_id = g.offering_id;
  group_code = g.group_code;
  shift = g.shift;
  schedule_text = g.schedule_text;
  capacity = g.capacity;
  status = g.status;
  accepted_count =
      count (λ (r : EnrollmentRequest). r.offering_group_id == g.id && is_accepted r.status)
        requests;
}

-- The batch query of `attachOfferingGroups`; `by_offering` orders by the offering and the code.
unfoldable pub offering_groups_of :
    (Group → Group → Bool) → Snapshot → List Uuid → List SiblingGroup
offering_groups_of by_offering t ids = map (sibling t.enrollment.requests) (
    order_by by_offering
      (select (λ g. is_in ids g.offering_id && is_live g.status) t.catalog.groups))

abbrev pub with_groups : List SiblingGroup → QueueItem → QueueItem
with_groups rows q = record q {
  offering_groups = select (λ (g : SiblingGroup). g.offering_id == q.request.row.offering_id) rows;
}

-- `attachOfferingGroups`
unfoldable pub attach_offering_groups :
    (Group → Group → Bool) → Snapshot → List QueueItem → List QueueItem
unfolding distinct_offerings offering_groups_of
attach_offering_groups by_offering t items =
    map (with_groups (offering_groups_of by_offering t (distinct_offerings [] items))) items

-- The page of `ListQueue`, before the groups of its offerings are read.
unfoldable pub page_rows : QueueFilter → ℕ → Snapshot → List QueueItem
unfolding in_queue joined_rows is_before queue_page_size
page_rows f offset t =
    limit (queue_page_size f.page_size) (
      skip offset (order_by is_earlier (joined_rows t (select (in_queue f) t.enrollment.requests))))

-- `Queue`: a page and the total. `during` and `later` are what other sessions commit between its three
-- queries, and `none` is the error of the database on a negative OFFSET.
unfoldable pub list_queue :
    (Group → Group → Bool)
    → QueueFilter
    → (Snapshot → Snapshot)
    → (Snapshot → Snapshot)
    → Snapshot
    → Option (List QueueItem × ℕ)
unfolding page_rows attach_offering_groups page_of offset_of queue_page_size
list_queue by_offering f during later t =
    elim (offset_of (page_of f.page) (queue_page_size f.page_size)) [
      | none ↦ none
      | some offset ↦ some (
        attach_offering_groups by_offering (later (during t)) (page_rows f offset (during t)),
        count (in_queue f) t.enrollment.requests,
      )
    ]
