-- ===== src/Tests/Mail.antt =====
-- The outbox, its worker, the rate limiter and the semesters.
use profundiza_uq_backend.Base.{
  Bool, none, some, List, [], ◌∷◌, Uuid, Time, ◌≡◌, ◌≤◌, ◌*◌, ◌^◌, refl, true, false, arith,
  seconds, if◌then◌else◌, ◌&&◌, not,
}
use profundiza_uq_backend.Base.Int.{pos}
use profundiza_uq_backend.Base.Table.{select, find, All, length, modify_where, select_one, count}
use profundiza_uq_backend.Notification.Outbox.{Notification, email, pending}
use profundiza_uq_backend.Notification.Worker.{
  is_due, is_owned, outcome, restamped, is_in_delivery, deliver, claim, reap_stuck_sending,
  is_claimable, back_to_pending, is_lease_expired, batch, backoff_base, max_backoff, retry_backoff,
  in_delivery, job_of,
}
use profundiza_uq_backend.Notification.Worker.Backoff.{smaller, retry_backoff_lem}
use profundiza_uq_backend.Notification.Worker.Delivery.{
  notification_id, deliver-outcome, reap_recovers,
}
use profundiza_uq_backend.Notification.Worker.Claiming.{Marked, claim_lem}
use profundiza_uq_backend.Platform.Ratelimit.{new}
use profundiza_uq_backend.Platform.Ratelimit.Windows.{passes, allow_bounded}
use profundiza_uq_backend.Semester.Service.{Semester, Tables, draft, committed, activate_tx}
use profundiza_uq_backend.Semester.Service.Single.{
  IsSingle, Reach, here, next, activates, Reach-IsSingle,
}

abbrev pub mail : Uuid → Notification
mail id = record {
  id = id;
  recipient_user_id = none;
  recipient_email = 97 ∷ [];
  kind = 98 ∷ [];
  channel = email;
  subject = 99 ∷ [];
  body = 100 ∷ [];
  delivery_status = pending;
  related_entity_type = none;
  related_entity_id = none;
  read_at = none;
  created_at = id;
  sent_at = none;
  failed_at = none;
  failure_reason = none;
  attempt_count = 0;
  next_attempt_at = none;
  claimed_at = none;
}

abbrev noon : Time
noon = seconds 43200

abbrev sending_mail : Notification
sending_mail = in_delivery noon (mail 1)

abbrev pub outbox : List Notification
outbox = sending_mail ∷ mail 2 ∷ []

retry_backoff_lem_example : retry_backoff (pos 3) ≡ smaller max_backoff (backoff_base * 2 ^ 2)
retry_backoff_lem_example = retry_backoff_lem 2

deliver-outcome_example :
    ((deliver noon noon (λ rows. rows) none (job_of (mail 1)) outbox).1 ≡ true)
    × (find notification_id 1 (deliver noon noon (λ rows. rows) none (job_of (mail 1)) outbox).0
        ≡ some (
            if is_owned 1 noon sending_mail
            then outcome noon (job_of (mail 1)) none sending_mail
            else sending_mail))
unfolding find modify_where
deliver-outcome_example =
    deliver-outcome noon noon (λ rows. rows) none (job_of (mail 1)) outbox sending_mail sending_mail
      refl refl refl

reap_recovers_example :
    (after : Notification) × (find notification_id 1 (reap_stuck_sending (seconds 43261) outbox)
      ≡ some after)
    × (after ≡ (
        if is_lease_expired noon (seconds 43261)
        then back_to_pending sending_mail
        else sending_mail))
    × (is_claimable (seconds 43261) (λ k. false) after ≡ (
        is_lease_expired noon (seconds 43261)
        && is_due (seconds 43261) sending_mail.next_attempt_at
        && not false))
unfolding find
reap_recovers_example =
    reap_recovers (seconds 43261) noon (λ k. false) outbox sending_mail 1 refl refl refl refl

-- The mail of a slow worker, reaped after 61 seconds and claimed by a second worker.
abbrev reclaimed : List Notification
reclaimed = (claim (seconds 43261) (λ k. false) (reap_stuck_sending (seconds 43261) outbox)).0

abbrev slow_worker : List Notification → List Notification × Bool
slow_worker rows = deliver (seconds 43263) (seconds 43263) (λ r. r) none (job_of (mail 1)) rows

-- While the second worker sends it, the first one stamps it again and sends it too.
late_mail_sent_twice :
    ((deliver
        (seconds 43262)
        (seconds 43262)
        (λ rows. (slow_worker rows).0)
        none
        (job_of (mail 1))
        reclaimed).1
      ≡ true)
    × ((slow_worker (modify_where (is_in_delivery 1) (restamped (seconds 43262)) reclaimed)).1
        ≡ true)
unfolding deliver claim reap_stuck_sending modify_where select select_one
late_mail_sent_twice = (refl, refl)

claim_lem_example :
    (length (claim noon (λ k. false) outbox).1 ≤ batch)
    × All
        (λ j. Marked noon (claim noon (λ k. false) outbox).0 j.id)
        (claim noon (λ k. false) outbox).1
claim_lem_example = claim_lem noon (λ k. false) outbox

abbrev three_calls : List (Time × Uuid)
three_calls = (1, 7) ∷ (2, 8) ∷ (3, 7) ∷ (4, 7) ∷ []

allow_bounded_example : passes 7 three_calls (new (pos 2) 10) ≤ 2
unfolding new
allow_bounded_example = allow_bounded 0 7 three_calls (new (pos 2) 10) tt (
  (omega arith, omega arith),
  ((omega arith, omega arith), ((omega arith, omega arith), ((omega arith, omega arith), tt))),
)

abbrev spring : Semester
spring = record {
  id = 1;
  code = 97 ∷ [];
  name = 98 ∷ [];
  starts_at = 0;
  ends_at = 10;
  status = draft;
  created_at = 0;
  updated_at = 0;
}

abbrev semesters : Tables
semesters = record { semesters = spring ∷ []; audit_events = [] }

spring-IsSingle : IsSingle (spring ∷ [])
unfolding count
spring-IsSingle = record { keyed = λ id. ground arith; single = omega arith }

activation :
    Reach semesters
      (committed semesters
        (activate_tx (record { ip_address = []; user_agent = [] }) 5 1 40 semesters)).0
activation = next here (activates (record { ip_address = []; user_agent = [] }) 5 1 40)

Reach-IsSingle_example :
    IsSingle
      (committed semesters
        (activate_tx (record { ip_address = []; user_agent = [] }) 5 1 40 semesters)).0.semesters
Reach-IsSingle_example = Reach-IsSingle activation spring-IsSingle
