-- ===== src/Tests/Reviews.antt =====
-- Decisions, and the rules under them.
use profundiza_uq_backend.Base.{none, [], ◌∷◌, ◌≡◌, ◌≤◌, ◌<◌, ◌+◌, ◌↔◌, ◌⊎◌, ◌≢◌, ok, err}
use profundiza_uq_backend.Shared.Shift.{day}
use profundiza_uq_backend.Shared.Audit.{uuid, ActorType, Event}
use profundiza_uq_backend.Enrollment.Status.{
  pending_review, accepted, rejected, direct_same_shift, waitlist_same_shift,
  waitlist_opposite_shift, waitlisted_same_shift, waitlisted_opposite_shift,
}
use profundiza_uq_backend.Enrollment.Classify.{GroupOccupancy, classify, classify_lem}
use profundiza_uq_backend.Enrollment.Rules.{DecisionContext, accept, apply_decision}
use profundiza_uq_backend.Enrollment.Rules.Decisions.{MayAccept, apply_decision-eq-accepted_iff}
use profundiza_uq_backend.Enrollment.Database.{Database, EnrollmentDecision}
use profundiza_uq_backend.Enrollment.Submit.{submit_tx}
use profundiza_uq_backend.Review.Decide.{ReviewError, decide, decide_tx}
use profundiza_uq_backend.Review.Decide.Effects.{Records, decide_effects}
use profundiza_uq_backend.Tests.Fixtures.{empty, session, asks, accepts}

abbrev history : Database
history = (submit_tx (session 100) (asks 20 10 107) empty).0

decide_effects_example :
    ((d : EnrollmentDecision) × (decide_tx (session 200) (accepts 100) history
        ≡ ok ((decide (session 200) (accepts 100) history).0, d))
      × Records (accepts 100) history (decide (session 200) (accepts 100) history).0 d)
    ⊎ ((e : ReviewError) × (decide (session 200) (accepts 100) history ≡ (history, err e)))
decide_effects_example = decide_effects (session 200) (accepts 100) history

abbrev pending_context : DecisionContext
pending_context = record {
  current_status = pending_review;
  reason = 102 ∷ 105 ∷ 116 ∷ [];
  group_capacity = 2;
  group_accepted_count = 1;
  student_accepted_in_semester = 0;
  target_group_id = none;
}

apply_decision-eq-accepted_iff_example :
    (apply_decision accept pending_context ≡ ok accepted) ↔ MayAccept accept pending_context
apply_decision-eq-accepted_iff_example = apply_decision-eq-accepted_iff accept pending_context

abbrev accepted_context : DecisionContext
accepted_context = record pending_context { current_status = accepted }

abbrev settled_context : DecisionContext
settled_context = record pending_context { current_status = rejected }

abbrev one_seat : GroupOccupancy
one_seat = record { capacity = 2; accepted_count = 1; pending_direct_count = 0 }

classify_lem_example :
    ((classify day day one_seat ≡ (direct_same_shift, pending_review))
      ↔ ((day ≡ day) × (1 + 0 < 2)))
    × ((classify day day one_seat ≡ (waitlist_same_shift, waitlisted_same_shift))
        ↔ ((day ≡ day) × (2 ≤ 1 + 0)))
    × ((classify day day one_seat ≡ (waitlist_opposite_shift, waitlisted_opposite_shift))
        ↔ (day ≢ day))
classify_lem_example = classify_lem day day one_seat

abbrev plain_event : Event
plain_event = record {
  actor_type = ActorType.admin;
  actor_id = none;
  action = 97 ∷ [];
  entity_type = 98 ∷ [];
  entity_id = uuid 5;
  previous_value = none;
  new_value = none;
  reason = [];
  ip_address = [];
  user_agent = 99 ∷ [];
}
