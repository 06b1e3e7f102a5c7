-- ===== src/Enrollment/Status.antt =====
-- internal/enrollment/domain/status.go. The columns of these types have a CHECK constraint, so a
-- stored status or priority is one of the named ones.
use profundiza_uq_backend.Base.{◌≡◌, ◌↔◌, ◌||◌, Bool, true, false, arith}

pub data PriorityGroup : Type 0 where
  direct_same_shift waitlist_same_shift waitlist_opposite_shift : PriorityGroup

pub data RequestStatus : Type 0 where
  submitted pending_review waitlisted_same_shift waitlisted_opposite_shift : RequestStatus
  accepted rejected cancelled_by_student cancelled_by_admin : RequestStatus

-- `IsActive`
unfoldable pub is_active : RequestStatus → Bool
is_active submitted = true
is_active pending_review = true
is_active waitlisted_same_shift = true
is_active waitlisted_opposite_shift = true
is_active accepted = true
is_active _ = false

-- `IsTerminal`
unfoldable pub is_terminal : RequestStatus → Bool
is_terminal accepted = true
is_terminal rejected = true
is_terminal cancelled_by_student = true
is_terminal cancelled_by_admin = true
is_terminal _ = false

-- `IsCancellableByAdmin`
unfoldable pub is_cancellable_by_admin : RequestStatus → Bool
is_cancellable_by_admin rejected = false
is_cancellable_by_admin cancelled_by_student = false
is_cancellable_by_admin cancelled_by_admin = false
is_cancellable_by_admin _ = true

abbrev pub is_accepted : RequestStatus → Bool
is_accepted accepted = true
is_accepted _ = false

abbrev pub is_pending_review : RequestStatus → Bool
is_pending_review pending_review = true
is_pending_review _ = false

abbrev pub is_direct : PriorityGroup → Bool
is_direct direct_same_shift = true
is_direct _ = false

-- The three predicates agree: an admin may cancel exactly the active statuses, each status is active or
-- terminal, and `accepted` is the only status that is both active and terminal.
pub status_predicates :
    (s : RequestStatus)
    → (is_cancellable_by_admin s ≡ is_active s)
      × ((is_active s || is_terminal s) ≡ true)
      × (((is_active s ≡ true) × (is_terminal s ≡ true)) ↔ (s ≡ accepted))
unfolding is_active is_terminal is_cancellable_by_admin
status_predicates submitted = ground arith
status_predicates _ = ground arith
