-- ===== src/Notification/Worker/Drain/Claims.antt =====
-- A claim keeps the sends that are left, and its jobs agree with their rows.
use profundiza_uq_backend.Base.{
  ◌≤◌, ◌≡◌, refl, inl, inr, Bool, true, false, List, [], ◌∷◌, map, arith, Uuid, Time, ◌==◌,
  Bool-cases,
}
use profundiza_uq_backend.Base.Table.{All, modify_where}
use profundiza_uq_backend.Base.Table.Keys.{
  IsKeyed, All-modify_where, modify_where-IsKeyed, All-select,
}
use profundiza_uq_backend.Notification.Worker.Delivery.{notification_id}
use profundiza_uq_backend.Base.Table.Laws.{All-weaken}
use profundiza_uq_backend.Notification.Outbox.{Notification}
use profundiza_uq_backend.Notification.Worker.{
  Job, is_claimable, job_of, in_delivery, mark_claimed, claim, batch,
}
use profundiza_uq_backend.Notification.Worker.Claiming.{by_creation-All, limit-All}
use profundiza_uq_backend.Notification.Worker.Drain.Budget.{Agrees, remaining, budget}

-- The rows of the job's id are live and have its attempt count.
abbrev Matches : Job → Notification → Type 0
Matches j n = (n.id == j.id) ≡ true → (n.attempt_count ≡ j.attempts) × (1 ≤ remaining n)

Matches-Agrees : (j : Job) (n : Notification) → Matches j n → Agrees j n
Matches-Agrees j n h = λ e. ground (arith, h)

jobs_of-All :
    (P : Job → Type 0) (rows : List Notification)
    → All (λ n. P (job_of n)) rows
    → All P (map job_of rows)
jobs_of-All P [] h = tt
jobs_of-All P (n ∷ rest) (here, there) = (here, jobs_of-All P rest there)

keyed-Matches :
    (now : Time) (locked : Uuid → Bool) (rows : List Notification)
    → IsKeyed notification_id rows
    → All (λ n. is_claimable now locked n ≡ true → All (Matches (job_of n)) rows) rows
unfolding is_claimable
keyed-Matches now locked [] h = tt
keyed-Matches now locked (n ∷ rest) (other, h) = (
  λ live. (λ e. ground arith, All-weaken rest (λ m apart. λ e. ground arith) other),
  against_first rest rest other (keyed-Matches now locked rest h),
)
  where
    against_first :
        (all some_rows : List Notification)
        → All (λ m. (m.id == n.id) ≡ false) some_rows
        → All (λ m. is_claimable now locked m ≡ true → All (Matches (job_of m)) all) some_rows
        → All (λ m. is_claimable now locked m ≡ true → All (Matches (job_of m)) (n ∷ all)) some_rows
    against_first all [] a b = tt
    against_first all (m ∷ ms) (a, apart) (b, live_rows) =
        (λ live. (λ e. ground arith, b live), against_first all ms apart live_rows)

mark-Matches :
    (now : Time) (j k : Job) (rows : List Notification)
    → All (Matches k) rows
    → All (Matches k) (modify_where (λ n. n.id == j.id) (in_delivery now) rows)
mark-Matches now j k rows h =
    All-modify_where (Matches k) (λ n. n.id == j.id) (in_delivery now) rows
      (λ n m. λ e. let both = m e in (both.0, ground arith)) h

mark_claimed-Matches :
    (now : Time) (k : Job) (jobs : List Job) (rows : List Notification)
    → All (Matches k) rows
    → All (Matches k) (mark_claimed now jobs rows)
unfolding mark_claimed
mark_claimed-Matches now k [] rows h = h
mark_claimed-Matches now k (j ∷ rest) rows h =
    mark_claimed-Matches now k rest _ (mark-Matches now j k rows h)

in_delivery-remaining :
    (now : Time) (n : Notification) → 1 ≤ remaining n → remaining (in_delivery now n) ≤ remaining n
in_delivery-remaining now n h = ground arith

budget-mark :
    (now : Time) (j : Job) (rows : List Notification)
    → All (Matches j) rows
    → budget (modify_where (λ n. n.id == j.id) (in_delivery now) rows) ≤ budget rows
unfolding modify_where budget
budget-mark now j [] h = omega arith
budget-mark now j (n ∷ rest) (here, there) =
    let ih = budget-mark now j rest there in
    elim (Bool-cases (n.id == j.id)) [
      | inl e ↦ let less = in_delivery-remaining now n (here e).1 in rw e (omega arith)
      | inr e ↦ rw e (omega arith)
    ]

budget-mark_claimed :
    (now : Time) (jobs : List Job) (rows : List Notification)
    → All (λ j. All (Matches j) rows) jobs
    → budget (mark_claimed now jobs rows) ≤ budget rows
unfolding mark_claimed
budget-mark_claimed now [] rows h = omega arith
budget-mark_claimed now (j ∷ rest) rows (here, there) =
    let first = budget-mark now j rows here in
    let more =
      budget-mark_claimed now rest (modify_where (λ n. n.id == j.id) (in_delivery now) rows)
        (All-weaken rest (λ k m. mark-Matches now j k rows m) there) in
    omega arith

mark_claimed-IsKeyed :
    (now : Time) (jobs : List Job) (rows : List Notification)
    → IsKeyed notification_id rows
    → IsKeyed notification_id (mark_claimed now jobs rows)
unfolding mark_claimed
mark_claimed-IsKeyed now [] rows h = h
mark_claimed-IsKeyed now (j ∷ rest) rows h =
    mark_claimed-IsKeyed now rest _ (
      modify_where-IsKeyed notification_id (λ n. n.id == j.id) (in_delivery now) rows (λ n. refl) h)

claim-Matches :
    (now : Time) (locked : Uuid → Bool) (rows : List Notification)
    → IsKeyed notification_id rows
    → All (λ j. All (Matches j) rows) (claim now locked rows).1
unfolding claim
claim-Matches now locked rows h =
    let Fits : Notification → Type 0 = λ n. All (Matches (job_of n)) rows in
    jobs_of-All (λ j. All (Matches j) rows) _
      (limit-All Fits batch _ (
        by_creation-All Fits _
          (All-select Fits (is_claimable now locked) rows (keyed-Matches now locked rows h))))

pub claim-Agrees :
    (now : Time) (locked : Uuid → Bool) (rows : List Notification)
    → IsKeyed notification_id rows
    → All (λ j. All (Agrees j) (claim now locked rows).0) (claim now locked rows).1
unfolding claim
claim-Agrees now locked rows h =
    All-weaken (claim now locked rows).1
      (λ j m.
        All-weaken (claim now locked rows).0 (Matches-Agrees j)
          (mark_claimed-Matches now j (claim now locked rows).1 rows m))
      (claim-Matches now locked rows h)

pub budget-claim :
    (now : Time) (locked : Uuid → Bool) (rows : List Notification)
    → IsKeyed notification_id rows
    → budget (claim now locked rows).0 ≤ budget rows
unfolding claim
budget-claim now locked rows h =
    budget-mark_claimed now (claim now locked rows).1 rows (claim-Matches now locked rows h)

pub claim-IsKeyed :
    (now : Time) (locked : Uuid → Bool) (rows : List Notification)
    → IsKeyed notification_id rows
    → IsKeyed notification_id (claim now locked rows).0
unfolding claim
claim-IsKeyed now locked rows h = mark_claimed-IsKeyed now (claim now locked rows).1 rows h
