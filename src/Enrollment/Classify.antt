-- ===== src/Enrollment/Classify.antt =====
-- internal/enrollment/domain/classify.go: where a new request is placed.
use profundiza_uq_backend.Base.{
  ℕ, ◌+◌, ◌≤◌, ◌<◌, ◌≡◌, ◌≢◌, ◌↔◌, Bool, arith, not, ltb, if◌then◌else◌,
}
use profundiza_uq_backend.Shared.Shift.{AcademicShift, same_as, same_as_iff}
use profundiza_uq_backend.Enrollment.Status.{
  PriorityGroup, direct_same_shift, waitlist_same_shift, waitlist_opposite_shift, RequestStatus,
  pending_review, waitlisted_same_shift, waitlisted_opposite_shift,
}

pub record GroupOccupancy : Type 0 where
  pub capacity : ℕ
  pub accepted_count : ℕ
  pub pending_direct_count : ℕ

-- `directSlotsTaken`
unfoldable pub direct_slots_taken : GroupOccupancy → ℕ
direct_slots_taken o = o.accepted_count + o.pending_direct_count

-- `HasDirectRoom`
unfoldable pub has_direct_room : GroupOccupancy → Bool
unfolding direct_slots_taken
has_direct_room o = ltb (direct_slots_taken o) o.capacity

unfoldable pub classify :
    AcademicShift → AcademicShift → GroupOccupancy → PriorityGroup × RequestStatus
unfolding has_direct_room
classify student_shift group_shift occ =
    if not (same_as student_shift group_shift)
    then (waitlist_opposite_shift, waitlisted_opposite_shift)
    else if has_direct_room occ
    then (direct_same_shift, pending_review)
    else (waitlist_same_shift, waitlisted_same_shift)

-- A request takes a direct slot exactly if the shifts match and a seat is free, the same-shift
-- waitlist exactly if they match and no seat is free, and the opposite-shift waitlist exactly if
-- the shifts differ.
pub classify_lem :
    (s g : AcademicShift) (o : GroupOccupancy)
    → ((classify s g o ≡ (direct_same_shift, pending_review))
        ↔ ((s ≡ g) × (o.accepted_count + o.pending_direct_count < o.capacity)))
      × ((classify s g o ≡ (waitlist_same_shift, waitlisted_same_shift))
          ↔ ((s ≡ g) × (o.capacity ≤ o.accepted_count + o.pending_direct_count)))
      × ((classify s g o ≡ (waitlist_opposite_shift, waitlisted_opposite_shift)) ↔ (s ≢ g))
unfolding classify
classify_lem s g o = ground (arith, same_as_iff s g)
