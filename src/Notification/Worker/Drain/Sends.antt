-- ===== src/Notification/Worker/Drain/Sends.antt =====
-- How often a worker sends: five times for each mail of the outbox at most.
use profundiza_uq_backend.Base.{
  ◌+◌, ◌-◌, ◌*◌, ◌≤◌, ◌≡◌, refl, inl, inr, Option, List, [], ◌∷◌, arith, Time, Bool-cases,
}
use profundiza_uq_backend.Base.Table.Keys.{IsKeyed, modify_where-IsKeyed}
use profundiza_uq_backend.Base.Table.{length, All, modify_where}
use profundiza_uq_backend.Base.Text.{Text}
use profundiza_uq_backend.Notification.Outbox.{Notification}
use profundiza_uq_backend.Notification.Worker.{
  Job, claim, is_in_delivery, is_owned, is_stuck, back_to_pending, restamped, outcome,
  record_outcome, affected, deliver, reap_stuck_sending, lease_threshold, max_delivery_attempts,
}
use profundiza_uq_backend.Notification.Worker.Drain.{Round, deliver_all, drain, run}
use profundiza_uq_backend.Notification.Worker.Delivery.{notification_id, outcome-id}
use profundiza_uq_backend.Notification.Worker.Drain.Budget.{
  budget-modify_where, deliver_all_spends, IsAlone, budget,
}
use profundiza_uq_backend.Notification.Worker.Drain.Claims.{
  claim-Agrees, budget-claim, claim-IsKeyed,
}

reap-IsKeyed :
    (now : Time) (rows : List Notification)
    → IsKeyed notification_id rows
    → IsKeyed notification_id (reap_stuck_sending now rows)
unfolding reap_stuck_sending
reap-IsKeyed now rows h =
    modify_where-IsKeyed notification_id (is_stuck (now - lease_threshold)) back_to_pending rows
      (λ n. refl) h

budget-reap :
    (now : Time) (rows : List Notification) → budget (reap_stuck_sending now rows) ≤ budget rows
unfolding reap_stuck_sending
budget-reap now rows =
    budget-modify_where (is_stuck (now - lease_threshold)) back_to_pending rows λ n e. ground arith

deliver-IsKeyed :
    (own now : Time) (during : List Notification → List Notification) (send_error : Option Text)
    (j : Job) (rows : List Notification)
    → ((left : List Notification) → during left ≡ left)
    → IsKeyed notification_id rows
    → IsKeyed notification_id (deliver own now during send_error j rows).0
unfolding deliver record_outcome
deliver-IsKeyed own now during send_error j rows alone h =
    elim (Bool-cases (affected (is_in_delivery j.id) rows)) [
      | inl e ↦
          rw (e, alone (modify_where (is_in_delivery j.id) (restamped own) rows))
            (modify_where-IsKeyed notification_id (is_owned j.id own) (outcome now j send_error) _
              (outcome-id now j send_error)
              (modify_where-IsKeyed notification_id (is_in_delivery j.id) (restamped own) rows
                (λ n. refl) h))
      | inr e ↦ rw e h
    ]

deliver_all-IsKeyed :
    (r : Round) (jobs : List Job) (rows : List Notification)
    → IsAlone r
    → IsKeyed notification_id rows
    → IsKeyed notification_id (deliver_all r jobs rows).0
unfolding deliver_all
deliver_all-IsKeyed r [] rows alone h = h
deliver_all-IsKeyed r (j ∷ rest) rows alone h =
    deliver_all-IsKeyed r rest _ alone
      (deliver-IsKeyed (r.own j) (r.sent_at j) (r.during j) (r.send j) j rows (alone j) h)

-- A round of a worker that is alone uses up an attempt of the outbox for each mail that it sends.
pub drain_spends :
    (r : Round) (rows : List Notification)
    → IsAlone r
    → IsKeyed notification_id rows
    → ((drain r rows).1 + budget (drain r rows).0 ≤ budget rows)
      × IsKeyed notification_id (drain r rows).0
unfolding drain
drain_spends r rows alone h =
    let reaped : List Notification = reap_stuck_sending r.reaped_at rows in
    let keyed = reap-IsKeyed r.reaped_at rows h in
    let jobs : List Job = (claim r.now r.locked reaped).1 in
    let claimed : List Notification = (claim r.now r.locked reaped).0 in
    let spent =
      deliver_all_spends r jobs claimed alone (claim-Agrees r.now r.locked reaped keyed) in
    let less = budget-claim r.now r.locked reaped keyed in
    let same = budget-reap r.reaped_at rows in
    (
      omega arith,
      deliver_all-IsKeyed r jobs claimed alone (claim-IsKeyed r.now r.locked reaped keyed),
    )

budget-le : (rows : List Notification) → budget rows ≤ 5 * length rows
unfolding budget
budget-le [] = omega arith
budget-le (n ∷ rest) = ground (arith, budget-le rest)

run_spends :
    (rounds : List Round) (rows : List Notification)
    → All IsAlone rounds
    → IsKeyed notification_id rows
    → (run rounds rows).1 + budget (run rounds rows).0 ≤ budget rows
unfolding run
run_spends [] rows alone h = omega arith
run_spends (r ∷ rest) rows (here, there) h =
    let (spent, keyed) = drain_spends r rows here h in
    let more = run_spends rest (drain r rows).0 there keyed in omega arith

-- However many rounds a worker runs, and whatever the mail server answers, it hands at most five
-- mails to the server for each row of the outbox at the start, if the ids of the rows differ and no
-- other session writes to the outbox during the rounds.
pub run_sends :
    (rounds : List Round) (rows : List Notification)
    → All IsAlone rounds
    → IsKeyed notification_id rows
    → (run rounds rows).1 ≤ max_delivery_attempts * length rows
run_sends rounds rows alone h =
    let spent = run_spends rounds rows alone h in let most = budget-le rows in omega arith
