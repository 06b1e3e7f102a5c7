-- ===== src/Enrollment/Database.antt =====
-- The tables that the enrollment transactions read and write (migrations/000001_init.up.sql), and
-- the queries that internal/enrollment and internal/review share.
use profundiza_uq_backend.Base.{
  ℕ, Bool, true, false, Option, none, some, List, [], ◌∷◌, Uuid, Time, ◌==◌, leb, ◌&&◌,
  if◌then◌else◌,
}
use profundiza_uq_backend.Base.Table.{select, greatest, find}
use profundiza_uq_backend.Base.Text.{Text, text_eq}
use profundiza_uq_backend.Shared.Shift.{AcademicShift}
use profundiza_uq_backend.Shared.Audit.{Row}
use profundiza_uq_backend.Notification.Outbox.{Notification}
use profundiza_uq_backend.Enrollment.Status.{PriorityGroup, RequestStatus, is_active, is_accepted}
use profundiza_uq_backend.Enrollment.Rules.{DecisionType}

-- The status of a group or a window, and of a student (`active` or `inactive`).
pub data RowStatus : Type 0 where
  active inactive closed : RowStatus

abbrev pub is_live : RowStatus → Bool
is_live active = true
is_live _ = false

pub record OfferingGroup : Type 0 where
  pub id : Uuid
  pub offering_id : Uuid
  pub shift : AcademicShift
  pub capacity : ℕ
  pub status : RowStatus

pub record Student : Type 0 where
  pub id : Uuid
  pub institutional_email : Text
  pub academic_shift : AcademicShift
  pub status : RowStatus

pub record EnrollmentWindow : Type 0 where
  pub id : Uuid
  pub semester_id : Uuid
  pub starts_at : Time
  pub ends_at : Time
  pub target_shift : Option AcademicShift
  pub status : RowStatus

pub record EnrollmentRequest : Type 0 where
  pub id : Uuid
  pub semester_id : Uuid
  pub student_id : Uuid
  pub offering_id : Uuid
  pub offering_group_id : Uuid
  pub enrollment_window_id : Option Uuid
  pub student_shift : AcademicShift
  pub offering_shift : AcademicShift
  pub priority_group : PriorityGroup
  pub status : RequestStatus
  pub arrival_sequence : ℕ
  pub idempotency_key : Text
  pub submitted_at : Time
  pub cancelled_at : Option Time

pub record EnrollmentDecision : Type 0 where
  pub id : Uuid
  pub enrollment_request_id : Uuid
  pub admin_user_id : Uuid
  pub decision_type : DecisionType
  pub previous_status : RequestStatus
  pub new_status : RequestStatus
  pub reason : Text
  pub created_at : Time

-- A row of `group_capacity_adjustments`.
pub record CapacityAdjustment : Type 0 where
  pub offering_group_id : Uuid
  pub admin_user_id : Uuid
  pub previous_capacity : ℕ
  pub new_capacity : ℕ
  pub reason : Text

-- `admins` are the ids of `admin_users`. `arrival_seq` is the next value of `enrollment_arrival_seq`, which a rollback does not take back.
pub record Database : Type 0 where
  pub groups : List OfferingGroup
  pub students : List Student
  pub admins : List Uuid
  pub windows : List EnrollmentWindow
  pub requests : List EnrollmentRequest
  pub decisions : List EnrollmentDecision
  pub adjustments : List CapacityAdjustment
  pub audit_events : List Row
  pub notifications : List Notification
  pub arrival_seq : ℕ

abbrev pub group_id : OfferingGroup → Uuid
group_id g = g.id

abbrev pub student_key : Student → Uuid
student_key s = s.id

abbrev pub request_id : EnrollmentRequest → Uuid
request_id r = r.id

-- The active requests of a student in a semester.
abbrev pub holds_in_semester : Uuid → Uuid → EnrollmentRequest → Bool
holds_in_semester student semester r =
    r.student_id == student && r.semester_id == semester && is_active r.status

-- The accepted requests of a group, and of a student in a semester.
abbrev pub seated_in : Uuid → EnrollmentRequest → Bool
seated_in group r = r.offering_group_id == group && is_accepted r.status

abbrev pub accepted_in_semester : Uuid → Uuid → EnrollmentRequest → Bool
accepted_in_semester student semester r =
    r.student_id == student && r.semester_id == semester && is_accepted r.status

-- The rows of the partial index `uq_active_request_per_group`, and of `uq_request_idempotency`.
abbrev pub active_in_group : Uuid → Uuid → Uuid → EnrollmentRequest → Bool
active_in_group student semester group r =
    r.offering_group_id == group && holds_in_semester student semester r

abbrev pub has_key : Uuid → Uuid → Text → EnrollmentRequest → Bool
has_key student semester key r =
    r.student_id == student && r.semester_id == semester && text_eq r.idempotency_key key

-- `RequestView` and `RequestRow`: a row with the reason of its latest decision.
pub record RequestView : Type 0 where
  pub row : EnrollmentRequest
  pub latest_reason : Option Text

pub latest_reason : Database → Uuid → Option Text
latest_reason db id =
    elim (greatest (λ d. d.created_at) (select (λ d. d.enrollment_request_id == id) db.decisions)) [
      | none ↦ none
      | some d ↦ some d.reason
    ]

-- `SubmitRepo.Get`
unfoldable pub get : Database → Uuid → Option RequestView
unfolding latest_reason
get db id = elim (find request_id id db.requests) [
  | none ↦ none
  | some r ↦ some (record { row = r; latest_reason = latest_reason db id })
]

-- `ORDER BY arrival_sequence DESC`
unfoldable pub insert_by_arrival :
    EnrollmentRequest → List EnrollmentRequest → List EnrollmentRequest
insert_by_arrival r [] = r ∷ []
insert_by_arrival r (x ∷ xs) =
    if leb x.arrival_sequence r.arrival_sequence then r ∷ x ∷ xs else x ∷ insert_by_arrival r xs

unfoldable pub sort_by_arrival : List EnrollmentRequest → List EnrollmentRequest
unfolding insert_by_arrival
sort_by_arrival [] = []
sort_by_arrival (x ∷ xs) = insert_by_arrival x (sort_by_arrival xs)

-- `SubmitRepo.ListMine`, whose views are read for their rows alone
unfoldable pub list_mine : Database → Uuid → Uuid → List EnrollmentRequest
unfolding sort_by_arrival
list_mine db student semester =
    sort_by_arrival (select (λ r. r.student_id == student && r.semester_id == semester) db.requests)
