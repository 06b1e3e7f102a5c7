-- ===== src/Review/Decide/Steps.antt =====
-- What a decision that commits has read.
use profundiza_uq_backend.Base.{
  ◌≡◌, Bool, true, false, some, arith, Uuid, Result, ok, err, or_err, guard, >>=-eq-ok,
  or_err-eq-ok, guard-eq-ok, not,
}
use profundiza_uq_backend.Base.Table.{find, is_in}
use profundiza_uq_backend.Enrollment.Status.{RequestStatus}
use profundiza_uq_backend.Enrollment.Rules.{apply_decision}
use profundiza_uq_backend.Enrollment.Database.{
  OfferingGroup, EnrollmentRequest, EnrollmentDecision, Student, Database, group_id,
}
use profundiza_uq_backend.Enrollment.Submit.{Session}
use profundiza_uq_backend.Enrollment.Cancel.{locked_request}
use profundiza_uq_backend.Review.Decide.{
  DecisionInput, capacity_group, context, lift_rule, moves_onto_active, reason_check, new_decision,
  decide_writes, decide_tx, decide,
}

pub record IsDecided (s : Session) (i : DecisionInput) (db : Database)
    (out : Database × EnrollmentDecision) : Type 0 where
  pub request : EnrollmentRequest
  pub student : Student
  pub target : Uuid
  pub group : OfferingGroup
  pub status : RequestStatus
  pub found : locked_request db i.request_id ≡ some (request, student)
  pub counted : capacity_group i request db ≡ ok target
  pub group_found : find group_id target db.groups ≡ some group
  pub allowed : apply_decision i.decision_type (context i request group db) ≡ ok status
  pub no_clash : moves_onto_active i target status request db ≡ false
  pub checked : reason_check i.reason ≡ true
  pub decided_by : is_in db.admins i.admin_user_id ≡ true
  pub written : out ≡ (
    decide_writes s i target request student.institutional_email status db,
    new_decision s i request status,
  )

lift_rule-eq-ok : (m : Result _ RequestStatus) {a : RequestStatus} → lift_rule m ≡ ok a → m ≡ ok a
lift_rule-eq-ok (ok a) h = cc
lift_rule-eq-ok (err e) h = cc

not-eq-true : (b : Bool) → not b ≡ true → b ≡ false
not-eq-true b h = ground arith

pub decide_tx-IsDecided :
    (s : Session) (i : DecisionInput) (db : Database) (out : Database × EnrollmentDecision)
    → decide_tx s i db ≡ ok out
    → IsDecided s i db out
unfolding decide_tx
decide_tx-IsDecided s i db out h =
    let ((r, st), hr, h₁) = >>=-eq-ok (or_err (locked_request db i.request_id) _) _ h in
    let (target, ht, h₂) = >>=-eq-ok (capacity_group i r db) _ h₁ in
    let (g, hg, h₃) = >>=-eq-ok (or_err (find group_id target db.groups) _) _ h₂ in
    let (status, hs, h₄) =
      >>=-eq-ok (lift_rule (apply_decision i.decision_type (context i r g db))) _ h₃ in
    let (u, hu, h₅) = >>=-eq-ok (guard (not (moves_onto_active i target status r db)) _) _ h₄ in
    let (v, hv, h₆) = >>=-eq-ok (guard (reason_check i.reason) _) _ h₅ in
    let (w, hw, h₇) = >>=-eq-ok (guard (is_in db.admins i.admin_user_id) _) _ h₆ in
    record {
      request = r;
      student = st;
      target = target;
      group = g;
      status = status;
      found = or_err-eq-ok _ _ hr;
      counted = ht;
      group_found = or_err-eq-ok _ _ hg;
      allowed = lift_rule-eq-ok _ hs;
      no_clash = not-eq-true _ (guard-eq-ok _ _ hu);
      checked = guard-eq-ok _ _ hv;
      decided_by = guard-eq-ok _ _ hw;
      written = ground arith;
    }

pub decide_commits :
    (s : Session) (i : DecisionInput) (db : Database) (out : _)
    → decide_tx s i db ≡ ok out
    → (decide s i db).0 ≡ out.0
unfolding decide
decide_commits s i db out h = ground arith

pub decide_rolls_back :
    (s : Session) (i : DecisionInput) (db : Database) (e : _)
    → decide_tx s i db ≡ err e
    → decide s i db ≡ (db, err e)
unfolding decide
decide_rolls_back s i db e h = ground arith
