-- ===== src/Enrollment/Rules/Decisions.antt =====
-- What `ApplyDecision` guarantees.
use profundiza_uq_backend.Base.{◌<◌, ◌≡◌, ◌↔◌, ◌⊎◌, Bool, true, false, arith, ok, err, is_some}
use profundiza_uq_backend.Enrollment.Status.{
  RequestStatus, pending_review, accepted, rejected, cancelled_by_admin, is_active, is_terminal,
  is_cancellable_by_admin,
}
use profundiza_uq_backend.Enrollment.Rules.{
  DecisionType, accept, reject, admin_cancel, move_to_review, create_group_acceptance,
  capacity_adjustment_acceptance, DecisionContext, reason_is_valid, apply_decision, is_create_group,
  already_terminal, reason_required, max_electives_per_semester,
}

-- The decisions that end in an acceptance.
abbrev pub is_acceptance : DecisionType → Bool
is_acceptance accept = true
is_acceptance create_group_acceptance = true
is_acceptance capacity_adjustment_acceptance = true
is_acceptance _ = false

-- What an acceptance needs.
pub record MayAccept (dt : DecisionType) (ctx : DecisionContext) : Type 0 where
  pub acceptance : is_acceptance dt ≡ true
  pub reason : reason_is_valid ctx.reason ≡ true
  pub pending : is_terminal ctx.current_status ≡ false
  pub target : is_create_group dt ≡ true → is_some ctx.target_group_id ≡ true
  pub electives : ctx.student_accepted_in_semester < max_electives_per_semester
  pub room : ctx.group_accepted_count < ctx.group_capacity

MayAccept-to :
    (dt : DecisionType) (ctx : DecisionContext)
    → apply_decision dt ctx ≡ ok accepted
    → MayAccept dt ctx
unfolding apply_decision
MayAccept-to accept ctx h = ground arith
MayAccept-to _ ctx h = ground arith

MayAccept-from :
    (dt : DecisionType) (ctx : DecisionContext)
    → MayAccept dt ctx
    → apply_decision dt ctx ≡ ok accepted
unfolding apply_decision
MayAccept-from accept ctx h = ground arith
MayAccept-from _ ctx h = ground arith

-- A decision accepts a request exactly if it is one of the three acceptances, the reason is long
-- enough, the request is not terminal, the target group is named where one is needed, the student
-- has fewer than four accepted requests in the semester, and the group has a free seat.
pub apply_decision-eq-accepted_iff :
    (dt : DecisionType) (ctx : DecisionContext)
    → (apply_decision dt ctx ≡ ok accepted) ↔ MayAccept dt ctx
apply_decision-eq-accepted_iff dt ctx = (MayAccept-to dt ctx, MayAccept-from dt ctx)

-- A decision that succeeds was made on an active request with a valid reason.
pub apply_decision_from_active :
    (dt : DecisionType) (ctx : DecisionContext) (s : RequestStatus)
    → apply_decision dt ctx ≡ ok s
    → (is_active ctx.current_status ≡ true) × (reason_is_valid ctx.reason ≡ true)
unfolding apply_decision is_active is_terminal is_cancellable_by_admin
apply_decision_from_active accept ctx s h = ground arith
apply_decision_from_active _ ctx s h = ground arith

-- The only decision on an accepted request that succeeds cancels it.
pub apply_decision_accepted :
    (dt : DecisionType) (ctx : DecisionContext) (s : RequestStatus)
    → ctx.current_status ≡ accepted
    → apply_decision dt ctx ≡ ok s
    → (dt ≡ admin_cancel) × (s ≡ cancelled_by_admin)
unfolding apply_decision is_active is_terminal is_cancellable_by_admin
apply_decision_accepted accept ctx s held h = ground arith
apply_decision_accepted _ ctx s held h = ground arith

-- No decision changes a settled request: it is refused for its reason, or as already terminal.
pub apply_decision_settled :
    (dt : DecisionType) (ctx : DecisionContext)
    → is_active ctx.current_status ≡ false
    → (apply_decision dt ctx ≡ err reason_required) ⊎ (apply_decision dt ctx ≡ err already_terminal)
unfolding apply_decision is_active is_terminal is_cancellable_by_admin
apply_decision_settled accept ctx h = ground arith
apply_decision_settled _ ctx h = ground arith

-- The status that a successful decision gives, by its kind.
abbrev pub resulting : DecisionType → RequestStatus
resulting reject = rejected
resulting admin_cancel = cancelled_by_admin
resulting move_to_review = pending_review
resulting _ = accepted

pub apply_decision-resulting :
    (dt : DecisionType) (ctx : DecisionContext) (s : RequestStatus)
    → apply_decision dt ctx ≡ ok s
    → s ≡ resulting dt
unfolding apply_decision
apply_decision-resulting accept ctx s h = ground arith
apply_decision-resulting _ ctx s h = ground arith
