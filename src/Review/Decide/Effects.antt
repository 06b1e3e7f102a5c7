-- ===== src/Review/Decide/Effects.antt =====
-- What a decision writes, and when it cannot be written.
use profundiza_uq_backend.Base.{
  ℕ, Bool-cases, if◌then◌else◌, ◌+◌, ◌≡◌, refl, sym, ◌∙◌, ap, ◌⊎◌, inl, inr, true, false, some,
  List, [], ◌∷◌, ◌++◌, arith, Uuid, ok, err, Result-cases,
}
use mathlib.Core.Path.{subst}
use profundiza_uq_backend.Base.Table.{length, find}
use profundiza_uq_backend.Base.Table.Laws.{find-modify_self}
use profundiza_uq_backend.Base.Text.{Text}
use profundiza_uq_backend.Notification.Outbox.{Notification}
use profundiza_uq_backend.Enrollment.Status.{RequestStatus, is_active}
use profundiza_uq_backend.Enrollment.Rules.{DecisionType, move_to_review, unknown, is_create_group}
use profundiza_uq_backend.Enrollment.Rules.Decisions.{
  resulting, apply_decision-resulting, apply_decision_from_active,
}
use profundiza_uq_backend.Enrollment.Database.{
  EnrollmentRequest, EnrollmentDecision, Database, request_id,
}
use profundiza_uq_backend.Enrollment.Submit.{Session}
use profundiza_uq_backend.Enrollment.Submit.Effects.{length-write, length-enqueue}
use profundiza_uq_backend.Enrollment.Cancel.Steps.{find_of_locked}
use profundiza_uq_backend.Review.Decide.{
  ReviewError, DecisionInput, capacity_group, context, decided, decide_writes, notify_for,
  notify_student, new_decision, decide_tx, decide,
}
use profundiza_uq_backend.Review.Decide.Steps.{
  IsDecided, decide_tx-IsDecided, decide_commits, decide_rolls_back,
}

-- A move to review tells the student nothing. (An unknown decision is never recorded.)
abbrev pub notices : DecisionType → ℕ
notices move_to_review = 0
notices (unknown s) = 0
notices _ = 2

-- The request that was decided, before and after, and what was recorded of it.
pub record Records (i : DecisionInput) (db db' : Database) (d : EnrollmentDecision) : Type 0 where
  pub before : EnrollmentRequest
  pub after : EnrollmentRequest
  pub found : find request_id i.request_id db.requests ≡ some before
  pub kept : find request_id i.request_id db'.requests ≡ some after
  pub was_active : is_active before.status ≡ true
  pub status : after.status ≡ resulting i.decision_type
  pub group : some after.offering_group_id ≡ (
      if is_create_group i.decision_type then i.target_group_id else some before.offering_group_id)
  pub decisions : db'.decisions ≡ db.decisions ++ d ∷ []
  pub previous_status : d.previous_status ≡ before.status
  pub new_status : d.new_status ≡ after.status
  pub audit_events : length db'.audit_events ≡ length db.audit_events + 1
  pub notifications : length db'.notifications ≡ length db.notifications + notices i.decision_type

target_of_counted :
    (i : DecisionInput) (r : EnrollmentRequest) (db : Database) (target : Uuid)
    → capacity_group i r db ≡ ok target
    → is_create_group i.decision_type ≡ true
    → some target ≡ i.target_group_id
unfolding capacity_group
target_of_counted i r db target h e = ground arith

decided_fields :
    (i : DecisionInput) (target : Uuid) (status : RequestStatus) (r : EnrollmentRequest)
    → ((decided i target status r).id ≡ r.id)
      × ((decided i target status r).status ≡ status)
      × ((is_create_group i.decision_type ≡ false)
          → (decided i target status r).offering_group_id ≡ r.offering_group_id)
      × ((is_create_group i.decision_type ≡ true)
          → (decided i target status r).offering_group_id ≡ target)
unfolding decided
decided_fields i target status r =
    (ground arith, ground arith, λ e. ground arith, λ e. ground arith)

length-notify_student :
    (s : Session) (r : EnrollmentRequest) (email reason : Text) (dt : DecisionType)
    (rows : List Notification)
    → length (notify_student s r email (notify_for dt reason) rows) ≡ length rows + notices dt
unfolding notify_student notify_for
length-notify_student s r email reason move_to_review rows = omega arith
length-notify_student s r email reason (unknown t) rows = omega arith
length-notify_student s r email reason _ rows = length-enqueue _ _ _ _ rows

written-Records :
    (s : Session) (i : DecisionInput) (db : Database) (out : Database × EnrollmentDecision)
    (d : IsDecided s i db out)
    → Records i db
        (decide_writes s i d.target d.request d.student.institutional_email d.status db)
        (new_decision s i d.request d.status)
unfolding decide_writes context
written-Records s i db out d =
    let found = find_of_locked db i.request_id d.request d.student d.found in
    let (same_id, same_status, stays, moves) = decided_fields i d.target d.status d.request in
    let active =
      apply_decision_from_active i.decision_type (context i d.request d.group db) d.status
        d.allowed in
    record {
      before = d.request;
      after = decided i d.target d.status d.request;
      found = found;
      kept =
          find-modify_self request_id i.request_id (decided i d.target d.status) db.requests same_id
            found;
      was_active = active.0;
      status = same_status ∙ apply_decision-resulting i.decision_type _ d.status d.allowed;
      group = elim (Bool-cases (is_create_group i.decision_type)) [
        | inl e ↦ rw e (ap some (moves e) ∙ target_of_counted i d.request db d.target d.counted e)
        | inr e ↦ rw e (ap some (stays e))
      ];
      decisions = refl;
      previous_status = refl;
      new_status = sym same_status;
      audit_events = length-write _ _ db.audit_events;
      notifications = length-notify_student s d.request _ i.reason i.decision_type db.notifications;
    }

-- A decision that commits was made on an active request. Afterwards the request has the status of
-- the decision, and its group, or for a create-group acceptance the named target; the decision is
-- appended with the status before and after, with one audit event, and with the two notifications
-- unless it moves the request to review. A decision that fails rolls everything back.
pub decide_effects :
    (s : Session) (i : DecisionInput) (db : Database)
    → ((d : EnrollmentDecision) × (decide_tx s i db ≡ ok ((decide s i db).0, d))
        × Records i db (decide s i db).0 d)
      ⊎ ((e : ReviewError) × (decide s i db ≡ (db, err e)))
decide_effects s i db = elim (Result-cases (decide_tx s i db)) [
  | inl ((db', d), done) ↦
      let read = decide_tx-IsDecided s i db (db', d) done in
      let commits = decide_commits s i db (db', d) done in
      let records =
        subst (λ out. Records i db out.0 out.1) (sym read.written)
          (written-Records s i db (db', d) read) in
      inl (
        d,
        done ∙ ap (λ x. ok (x, d)) (sym commits),
        subst (λ x. Records i db x d) (sym commits) records,
      )
  | inr (e, failed) ↦ inr (e, decide_rolls_back s i db e failed)
]
