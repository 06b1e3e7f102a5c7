-- ===== src/Notification/Worker/Delivery.antt =====
-- What the worker's statements do to one row of the outbox.
use profundiza_uq_backend.Base.{
  ◌-◌, ◌≡◌, refl, ◌∙◌, ap, inl, inr, Bool, true, false, Option, none, some, List, [], ◌∷◌, arith,
  Uuid, Time, ◌==◌, if◌then◌else◌, Bool-cases, Option-cases, ◌&&◌, not,
}
use profundiza_uq_backend.Base.Table.{select_one, modify_where, find}
use profundiza_uq_backend.Base.Table.Laws.{key-find}
use profundiza_uq_backend.Base.Text.{Text}
use profundiza_uq_backend.Notification.Outbox.{email, sending, Notification}
use profundiza_uq_backend.Notification.Worker.{
  Job, is_sending, is_lease_expired, is_stuck, back_to_pending, reap_stuck_sending, lease_threshold,
  is_claimable, is_in_delivery, is_owned, restamped, outcome, affected, deliver, is_due,
}

abbrev pub notification_id : Notification → Uuid
notification_id n = n.id

abbrev pub when_some : (Notification → Notification) → Option Notification → Option Notification
when_some f none = none
when_some f (some n) = some (f n)

abbrev pub where_holds :
    (Notification → Bool) → (Notification → Notification) → Notification → Notification
where_holds p f n = if p n then f n else n

-- An UPDATE that keeps the ids acts on the row of each id.
pub find-modify_where :
    (p : Notification → Bool) (f : Notification → Notification) (k : Uuid)
    (rows : List Notification)
    → ((n : Notification) → (f n).id ≡ n.id)
    → find notification_id k (modify_where p f rows)
      ≡ when_some (where_holds p f) (find notification_id k rows)
unfolding find modify_where
find-modify_where p f k [] keeps = refl
find-modify_where p f k (n ∷ rest) keeps =
    let h = find-modify_where p f k rest keeps in let e = keeps n in ground arith

pub outcome-id :
    (now : Time) (j : Job) (send_error : Option Text) (n : Notification)
    → (outcome now j send_error n).id ≡ n.id
unfolding outcome
outcome-id now j none n = refl
outcome-id now j (some reason) n = ground arith

affected_found :
    (id : Uuid) (rows : List Notification) (n : Notification)
    → find notification_id id rows ≡ some n
    → is_sending n ≡ true
    → affected (is_in_delivery id) rows ≡ true
unfolding find select_one
affected_found id [] n h s = cc
affected_found id (m ∷ rest) n h s = elim (Bool-cases (m.id == id)) [
  | inl e ↦ ground arith
  | inr e ↦
      let found : find notification_id id rest ≡ some n = ground arith in
      let ih = affected_found id rest n found s in ground arith
]

-- The delivery of a row that is SENDING hands the mail to the server. Whatever the other sessions
-- do during the send, the row they leave is given the outcome when it still is SENDING with the
-- worker's own stamp, and is left alone otherwise.
pub deliver-outcome :
    (own now : Time) (during : List Notification → List Notification) (send_error : Option Text)
    (j : Job) (rows : List Notification) (n left : Notification)
    → find notification_id j.id rows ≡ some n
    → is_sending n ≡ true
    → find notification_id j.id (during (modify_where (is_in_delivery j.id) (restamped own) rows))
      ≡ some left
    → ((deliver own now during send_error j rows).1 ≡ true)
      × (find notification_id j.id (deliver own now during send_error j rows).0
          ≡ some (if is_owned j.id own left then outcome now j send_error left else left))
unfolding deliver
deliver-outcome own now during send_error j rows n left h s after =
    let taken = affected_found j.id rows n h s in
    let written =
      find-modify_where (is_owned j.id own) (outcome now j send_error) j.id
        (during (modify_where (is_in_delivery j.id) (restamped own) rows))
        (outcome-id now j send_error) in
    rw taken (
      refl,
      written ∙ ap (when_some (where_holds (is_owned j.id own) (outcome now j send_error))) after,
    )

unowned :
    (own now : Time) (send_error : Option Text) (j : Job) (k : Uuid) (n : Notification)
    → n.id ≡ k
    → (k == j.id) ≡ false
    → where_holds (is_owned j.id own) (outcome now j send_error) n ≡ n
unowned own now send_error j k n same other = ground arith

foreign_untouched :
    (own now : Time) (send_error : Option Text) (j : Job) (k : Uuid) (rows : List Notification)
    → (k == j.id) ≡ false
    → when_some
        (where_holds (is_owned j.id own) (outcome now j send_error))
        (find notification_id k rows)
      ≡ find notification_id k rows
foreign_untouched own now send_error j k rows other =
    elim (Option-cases (find notification_id k rows)) [
      | inl e ↦ rw e refl
      | inr (n, e) ↦
          let same = key-find notification_id k rows e in
          rw e (ap some (unowned own now send_error j k n same other))
    ]

-- A delivery whose row is SENDING leaves every other row as the other sessions leave it.
pub deliver_others :
    (own now : Time) (during : List Notification → List Notification) (send_error : Option Text)
    (j : Job) (rows : List Notification) (k : Uuid)
    → (k == j.id) ≡ false
    → affected (is_in_delivery j.id) rows ≡ true
    → find notification_id k (deliver own now during send_error j rows).0
      ≡ find notification_id k (during (modify_where (is_in_delivery j.id) (restamped own) rows))
unfolding deliver
deliver_others own now during send_error j rows k other live = rw live (
    find-modify_where (is_owned j.id own) (outcome now j send_error) k
      (during (modify_where (is_in_delivery j.id) (restamped own) rows))
      (outcome-id now j send_error)
    ∙ foreign_untouched own now send_error j k
        (during (modify_where (is_in_delivery j.id) (restamped own) rows)) other)

stuck_expired :
    (now claimed : Time) (n : Notification)
    → n.channel ≡ email
    → n.delivery_status ≡ sending
    → n.claimed_at ≡ some claimed
    → where_holds (is_stuck (now - lease_threshold)) back_to_pending n
      ≡ (if is_lease_expired claimed now then back_to_pending n else n)
unfolding is_lease_expired
stuck_expired now claimed n mail busy stamp = ground arith

-- Reaping treats a mail that is SENDING since a recorded instant by `isLeaseExpired`: it goes back to
-- PENDING exactly when its lease has run out. Afterwards the WHERE clause of a claim at the instant of
-- the reaping takes its row exactly if the lease has run out, the next attempt is due, and no other
-- transaction holds the row.
pub reap_recovers :
    (now claimed : Time) (locked : Uuid → Bool) (rows : List Notification) (n : Notification)
    (id : Uuid)
    → find notification_id id rows ≡ some n
    → n.channel ≡ email
    → n.delivery_status ≡ sending
    → n.claimed_at ≡ some claimed
    → (after : Notification) × (find notification_id id (reap_stuck_sending now rows) ≡ some after)
      × (after ≡ (if is_lease_expired claimed now then back_to_pending n else n))
      × (is_claimable now locked after
          ≡ (is_lease_expired claimed now && is_due now n.next_attempt_at && not (locked n.id)))
unfolding reap_stuck_sending is_lease_expired is_claimable
reap_recovers now claimed locked rows n id h mail busy stamp =
    let reaped =
      find-modify_where (is_stuck (now - lease_threshold)) back_to_pending id rows (λ m. refl) in
    (
      if is_lease_expired claimed now then back_to_pending n else n,
      reaped
          ∙ ap (when_some (where_holds (is_stuck (now - lease_threshold)) back_to_pending)) h
          ∙ ap some (stuck_expired now claimed n mail busy stamp),
      refl,
      ground arith,
    )
