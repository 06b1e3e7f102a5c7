-- ===== src/Notification/Worker.antt =====
-- internal/notification/worker.go: the worker that drains the outbox. Each of its SQL statements is a
-- function on the table of notifications; the mail server and the other workers are arguments.
pub mod Backoff
pub mod Delivery
pub mod Claiming
pub mod Drain
use profundiza_uq_backend.Base.{
  ℕ, zero, suc, is_some, ◌+◌, ◌-◌, ◌*◌, ◌/◌, ◌%◌, ◌^◌, Bool, true, false, not, ◌&&◌, ◌||◌, Option,
  none, some, List, [], ◌∷◌, map, Uuid, Time, seconds, ◌==◌, ltb, leb, if◌then◌else◌,
}
use profundiza_uq_backend.Base.Int.{ℤ, pos, negsuc}
use profundiza_uq_backend.Base.Table.{select, select_one, modify_where, limit}
use profundiza_uq_backend.Base.Text.{Text}
use profundiza_uq_backend.Notification.Outbox.{
  Channel, email, in_app, DeliveryStatus, pending, sending, sent, failed, cancelled, Notification,
}

abbrev pub max_delivery_attempts : ℕ
max_delivery_attempts = 5

abbrev pub lease_threshold : Time
lease_threshold = seconds 60

-- `Worker.batch`
abbrev pub batch : ℕ
batch = 20

-- `job`
pub record Job : Type 0 where
  pub id : Uuid
  pub to : Text
  pub subject : Text
  pub body : Text
  pub attempts : ℕ

abbrev pub is_email : Notification → Bool
is_email n = elim n.channel [ email ↦ true | in_app ↦ false ]

abbrev pub is_pending : Notification → Bool
is_pending n = elim n.delivery_status [ pending ↦ true | _ ↦ false ]

abbrev pub is_sending : Notification → Bool
is_sending n = elim n.delivery_status [ sending ↦ true | _ ↦ false ]

-- `claimed_at < $1`, which a NULL does not satisfy.
abbrev pub claimed_before : Time → Option Time → Bool
claimed_before cutoff none = false
claimed_before cutoff (some t) = ltb t cutoff

-- `claimed_at = $1`
abbrev pub claimed_at_is : Time → Option Time → Bool
claimed_at_is own none = false
claimed_at_is own (some t) = t == own

-- `next_attempt_at IS NULL OR next_attempt_at <= now()`
abbrev pub is_due : Time → Option Time → Bool
is_due now none = true
is_due now (some t) = leb t now

-- `isLeaseExpired`
unfoldable pub is_lease_expired : Time → Time → Bool
is_lease_expired claimed_at now = ltb lease_threshold (now - claimed_at)

abbrev pub is_stuck : Time → Notification → Bool
is_stuck cutoff n = is_email n && is_sending n && claimed_before cutoff n.claimed_at

abbrev pub back_to_pending : Notification → Notification
back_to_pending n = record n { delivery_status = pending; claimed_at = none }

-- `reapStuckSending`
unfoldable pub reap_stuck_sending : Time → List Notification → List Notification
reap_stuck_sending now rows = modify_where (is_stuck (now - lease_threshold)) back_to_pending rows

-- The WHERE clause of `claim`; `locked` are the rows that other transactions hold.
unfoldable pub is_claimable : Time → (Uuid → Bool) → Notification → Bool
is_claimable now locked n =
    is_email n && is_pending n && is_due now n.next_attempt_at && not (locked n.id)

-- `ORDER BY created_at`, which keeps the insertion order of rows of one instant.
unfoldable pub insert_by_creation : Notification → List Notification → List Notification
insert_by_creation n [] = n ∷ []
insert_by_creation n (m ∷ rest) =
    if ltb m.created_at n.created_at then m ∷ insert_by_creation n rest else n ∷ m ∷ rest

unfoldable pub by_creation : List Notification → List Notification
unfolding insert_by_creation
by_creation [] = []
by_creation (n ∷ rest) = insert_by_creation n (by_creation rest)

abbrev pub job_of : Notification → Job
job_of n = record {
  id = n.id;
  to = n.recipient_email;
  subject = n.subject;
  body = n.body;
  attempts = n.attempt_count;
}

-- The UPDATE of one claimed row.
abbrev pub in_delivery : Time → Notification → Notification
in_delivery now n = record n { delivery_status = sending; claimed_at = some now }

unfoldable pub mark_claimed : Time → List Job → List Notification → List Notification
mark_claimed now [] rows = rows
mark_claimed now (j ∷ rest) rows =
    mark_claimed now rest (modify_where (λ n. n.id == j.id) (in_delivery now) rows)

-- `claim`: the table after its transaction, and the jobs.
unfoldable pub claim : Time → (Uuid → Bool) → List Notification → List Notification × List Job
unfolding is_claimable by_creation limit mark_claimed
claim now locked rows =
    let jobs = map job_of (limit batch (by_creation (select (is_claimable now locked) rows))) in
    (mark_claimed now jobs rows, jobs)

-- `retryBackoff`, in nanoseconds: the int64 that the shift makes is negative from 2^63.
abbrev pub backoff_base : ℕ
backoff_base = 30000000000

abbrev pub max_backoff : ℕ
max_backoff = 300000000000

abbrev pub at_least_one : ℤ → ℕ
at_least_one (pos zero) = 1
at_least_one (pos (suc n)) = suc n
at_least_one (negsuc n) = 1

unfoldable pub capped_backoff : ℕ → ℕ
capped_backoff d = if leb (2 ^ 63) d || d == 0 || ltb max_backoff d then max_backoff else d

unfoldable pub retry_backoff : ℤ → ℕ
unfolding capped_backoff
retry_backoff attempt =
    let n = at_least_one attempt in
    if ltb 10 n then max_backoff else capped_backoff (backoff_base * 2 ^ (n - 1) % 2 ^ 64)

-- `UPDATE ... WHERE id=$1 AND delivery_status='SENDING'`
abbrev pub is_in_delivery : Uuid → Notification → Bool
is_in_delivery id n = n.id == id && is_sending n

-- The guard of the writes that follow a send.
abbrev pub is_owned : Uuid → Time → Notification → Bool
is_owned id own n = n.id == id && is_sending n && claimed_at_is own n.claimed_at

abbrev pub restamped : Time → Notification → Notification
restamped own n = record n { claimed_at = some own }

abbrev pub marked_sent : Time → Notification → Notification
marked_sent now n = record n { delivery_status = sent; sent_at = some now; claimed_at = none }

abbrev pub marked_failed : Time → Text → ℕ → Notification → Notification
marked_failed now reason attempts n = record n {
  delivery_status = failed;
  failed_at = some now;
  failure_reason = some reason;
  attempt_count = attempts;
  claimed_at = none;
}

abbrev pub marked_retry : Time → Text → ℕ → Notification → Notification
marked_retry next reason attempts n = record n {
  delivery_status = pending;
  attempt_count = attempts;
  failure_reason = some reason;
  next_attempt_at = some next;
  claimed_at = none;
}

-- What the row becomes when the send is over; `none` is a send without an error.
unfoldable pub outcome : Time → Job → Option Text → Notification → Notification
unfolding retry_backoff
outcome now j none n = marked_sent now n
outcome now j (some reason) n =
    let attempts = j.attempts + 1 in
    if leb max_delivery_attempts attempts
    then marked_failed now reason attempts n
    else marked_retry (now + retry_backoff (pos attempts) / 1000) reason attempts n

-- The UPDATE after the send.
unfoldable pub record_outcome :
    Time → Time → Job → Option Text → List Notification → List Notification
unfolding outcome
record_outcome own now j send_error rows =
    modify_where (is_owned j.id own) (outcome now j send_error) rows

abbrev pub affected : (Notification → Bool) → List Notification → Bool
affected p rows = is_some (select_one p rows)

-- `deliver`: the table after it, and whether the mail was handed to the server. `during` is what
-- the other sessions commit while the mail is being sent.
unfoldable pub deliver :
    Time
    → Time
    → (List Notification → List Notification)
    → Option Text
    → Job
    → List Notification
    → List Notification × Bool
unfolding record_outcome
deliver own now during send_error j rows =
    if affected (is_in_delivery j.id) rows
    then (
      record_outcome own now j send_error
          (during (modify_where (is_in_delivery j.id) (restamped own) rows)),
      true,
    )
    else (rows, false)
