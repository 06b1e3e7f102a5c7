-- ===== src/Enrollment/Rules.antt =====
-- internal/enrollment/domain/rules.go: the cap of a semester, and administrative decisions.
pub mod Decisions
use profundiza_uq_backend.Base.{
  ℕ, Uuid, Bool, true, false, Option, none, some, arith, not, leb, is_some, if◌then◌else◌, Result,
  ok, err, guard, ◌>>◌, ◌&&◌, ◌>>=◌,
}
use profundiza_uq_backend.Base.Text.{Text, byte_len, trim_space}
use profundiza_uq_backend.Enrollment.Status.{
  RequestStatus, pending_review, accepted, rejected, cancelled_by_admin, is_terminal,
  is_cancellable_by_admin,
}

abbrev pub max_electives_per_semester : ℕ
max_electives_per_semester = 4

abbrev pub min_reason_length : ℕ
min_reason_length = 3

pub data RuleError : Type 0 where
  max_electives_reached reason_required capacity_exceeded unknown_decision : RuleError
  already_terminal target_group_required : RuleError

-- `DecisionType` is a string from the client; `unknown` is any other string.
pub data DecisionType : Type 0 where
  accept reject admin_cancel move_to_review create_group_acceptance : DecisionType
  capacity_adjustment_acceptance : DecisionType
  unknown : Text → DecisionType

-- `ValidateSubmissionAllowed`
unfoldable pub validate_submission_allowed : ℕ → Result RuleError (Unit {0})
validate_submission_allowed active_count =
    if leb max_electives_per_semester active_count then err max_electives_reached else ok tt

-- `reasonIsValid`
unfoldable pub reason_is_valid : Text → Bool
reason_is_valid reason = leb min_reason_length (byte_len (trim_space reason))

-- `DecisionContext`; a blank target group id is `none`.
pub record DecisionContext : Type 0 where
  pub current_status : RequestStatus
  pub reason : Text
  pub group_capacity : ℕ
  pub group_accepted_count : ℕ
  pub student_accepted_in_semester : ℕ
  pub target_group_id : Option Uuid

-- The checks that the three acceptance cases share, after the target's.
accept_into : DecisionContext → Result RuleError RequestStatus
accept_into ctx = do
  guard (not (leb max_electives_per_semester ctx.student_accepted_in_semester))
      max_electives_reached
  guard (not (leb ctx.group_capacity ctx.group_accepted_count)) capacity_exceeded
  ok accepted

-- The `switch` of `ApplyDecision`, reached by no settled request.
by_type : DecisionType → DecisionContext → Result RuleError RequestStatus
unfolding accept_into
by_type accept ctx = accept_into ctx
by_type capacity_adjustment_acceptance ctx = accept_into ctx
by_type create_group_acceptance ctx = do
  guard (is_some ctx.target_group_id) target_group_required
  accept_into ctx
by_type reject ctx = ok rejected
by_type move_to_review ctx = ok pending_review
by_type admin_cancel ctx = ok cancelled_by_admin
by_type (unknown s) ctx = err unknown_decision

abbrev pub is_admin_cancel : DecisionType → Bool
is_admin_cancel admin_cancel = true
is_admin_cancel _ = false

abbrev pub is_create_group : DecisionType → Bool
is_create_group create_group_acceptance = true
is_create_group _ = false

-- `ApplyDecision`
unfoldable pub apply_decision : DecisionType → DecisionContext → Result RuleError RequestStatus
unfolding by_type
apply_decision dt ctx = do
  guard (reason_is_valid ctx.reason) reason_required
  if is_admin_cancel dt
      then guard (is_cancellable_by_admin ctx.current_status) already_terminal
        >> ok cancelled_by_admin
      else guard (not (is_terminal ctx.current_status)) already_terminal >> by_type dt ctx
