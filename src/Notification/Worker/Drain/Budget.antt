-- ===== src/Notification/Worker/Drain/Budget.antt =====
-- The sends that the mails of the outbox may still see, and what the deliveries of a round use up.
use profundiza_uq_backend.Base.{
  ℕ, suc, ◌+◌, ◌-◌, ◌≤◌, ◌≡◌, refl, inl, inr, Bool, true, false, Option, List, [], ◌∷◌, arith, Time,
  if◌then◌else◌, Bool-cases,
}
use profundiza_uq_backend.Base.Table.{tally, All, select_one, modify_where}
use profundiza_uq_backend.Base.Table.Laws.{All-weaken}
use profundiza_uq_backend.Base.Text.{Text}
use profundiza_uq_backend.Notification.Outbox.{pending, sending, Notification}
use profundiza_uq_backend.Notification.Worker.{
  Job, is_in_delivery, is_owned, restamped, outcome, record_outcome, affected, deliver,
}
use profundiza_uq_backend.Notification.Worker.Drain.{Round, deliver_all}

-- The sends that a mail may still see: none once it is SENT, FAILED or CANCELLED.
abbrev pub remaining : Notification → ℕ
remaining n = elim n.delivery_status [
  | pending ↦ suc (4 - n.attempt_count)
  | sending ↦ suc (4 - n.attempt_count)
  | _ ↦ 0
]

unfoldable pub budget : List Notification → ℕ
budget [] = 0
budget (n ∷ rest) = remaining n + budget rest

-- Nothing else writes to the outbox during a send.
abbrev pub IsAlone : Round → Type 0
IsAlone r = (j : Job) (rows : List Notification) → r.during j rows ≡ rows

module _ (p : Notification → Bool) (f : Notification → Notification) where
  pub budget-modify_where :
      (rows : List Notification)
      → ((n : Notification) → p n ≡ true → remaining (f n) ≤ remaining n)
      → budget (modify_where p f rows) ≤ budget rows
  unfolding modify_where budget
  budget-modify_where [] less = omega arith
  budget-modify_where (n ∷ rest) less =
      let ih = budget-modify_where rest less in
      elim (Bool-cases (p n)) [
        | inl e ↦ let h = less n e in rw e (omega arith)
        | inr e ↦ rw e (omega arith)
      ]

-- The job still has the attempt count of its row, if the row is in delivery.
abbrev pub Agrees : Job → Notification → Type 0
Agrees j n = is_in_delivery j.id n ≡ true → n.attempt_count ≡ j.attempts

module _ (own now : Time) (j : Job) (send_error : Option Text) where
  unfoldable written : List Notification → List Notification
  written rows =
      record_outcome own now j send_error (modify_where (is_in_delivery j.id) (restamped own) rows)

  written-nil : written [] ≡ []
  unfolding written record_outcome modify_where
  written-nil = refl

  -- What the two UPDATEs make of one row.
  unfoldable written_row : Notification → Notification
  written_row n =
      let stamped = if is_in_delivery j.id n then restamped own n else n in
      if is_owned j.id own stamped then outcome now j send_error stamped else stamped

  written-cons :
      (n : Notification) (rest : List Notification)
      → written (n ∷ rest) ≡ written_row n ∷ written rest
  unfolding written record_outcome modify_where written_row
  written-cons n rest = refl

  row_spends :
      (n : Notification)
      → Agrees j n
      → is_in_delivery j.id n ≡ true
      → suc (remaining (written_row n)) ≤ remaining n
  unfolding written_row outcome
  row_spends n same e = let h = same e in ground arith

  row_kept : (n : Notification) → is_in_delivery j.id n ≡ false → written_row n ≡ n
  unfolding written_row
  row_kept n e = ground arith

  row-Agrees : (k : Job) (n : Notification) → Agrees k n → Agrees k (written_row n)
  unfolding written_row outcome
  row-Agrees k n same = λ e. ground (arith, same)

  written-Agrees :
      (k : Job) (rows : List Notification) → All (Agrees k) rows → All (Agrees k) (written rows)
  written-Agrees k [] h = rw written-nil tt
  written-Agrees k (n ∷ rest) (here, there) =
      rw (written-cons n rest) (row-Agrees k n here, written-Agrees k rest there)

  row-remaining : (n : Notification) → Agrees j n → remaining (written_row n) ≤ remaining n
  row-remaining n same = elim (Bool-cases (is_in_delivery j.id n)) [
    | inl e ↦ let h = row_spends n same e in omega arith
    | inr e ↦ rw (row_kept n e) (omega arith)
  ]

  budget-written :
      (rows : List Notification) → All (Agrees j) rows → budget (written rows) ≤ budget rows
  unfolding budget
  budget-written [] h = rw written-nil (omega arith)
  budget-written (n ∷ rest) (here, there) =
      let ih = budget-written rest there in
      let first = row-remaining n here in rw (written-cons n rest) (omega arith)

  -- A send uses up one of the attempts that are left.
  written_spends :
      (rows : List Notification)
      → All (Agrees j) rows
      → affected (is_in_delivery j.id) rows ≡ true
      → suc (budget (written rows)) ≤ budget rows
  unfolding budget select_one
  written_spends [] h live = cc
  written_spends (n ∷ rest) (here, there) live = elim (Bool-cases (is_in_delivery j.id n)) [
    | inl e ↦
        let first = row_spends n here e in
        let others = budget-written rest there in rw (written-cons n rest) (omega arith)
    | inr e ↦
        let still : affected (is_in_delivery j.id) rest ≡ true = ground arith in
        let ih = written_spends rest there still in
        rw (written-cons n rest) (rw (row_kept n e) (omega arith))
  ]

deliver_spends :
    (own now : Time) (j : Job) (send_error : Option Text)
    (during : List Notification → List Notification) (rows : List Notification)
    → ((left : List Notification) → during left ≡ left)
    → All (Agrees j) rows
    → tally (deliver own now during send_error j rows).1
        + budget (deliver own now during send_error j rows).0
      ≤ budget rows
unfolding deliver written
deliver_spends own now j send_error during rows alone h =
    elim (Bool-cases (affected (is_in_delivery j.id) rows)) [
      | inl e ↦
          let spent = written_spends own now j send_error rows h e in
          rw (e, alone (modify_where (is_in_delivery j.id) (restamped own) rows)) (omega arith)
      | inr e ↦ rw e (omega arith)
    ]

deliver-Agrees :
    (own now : Time) (j k : Job) (send_error : Option Text)
    (during : List Notification → List Notification) (rows : List Notification)
    → ((left : List Notification) → during left ≡ left)
    → All (Agrees k) rows
    → All (Agrees k) (deliver own now during send_error j rows).0
unfolding deliver written
deliver-Agrees own now j k send_error during rows alone h =
    elim (Bool-cases (affected (is_in_delivery j.id) rows)) [
      | inl e ↦
          rw (e, alone (modify_where (is_in_delivery j.id) (restamped own) rows))
            (written-Agrees own now j send_error k rows h)
      | inr e ↦ rw e h
    ]

pub deliver_all_spends :
    (r : Round) (jobs : List Job) (rows : List Notification)
    → IsAlone r
    → All (λ j. All (Agrees j) rows) jobs
    → (deliver_all r jobs rows).1 + budget (deliver_all r jobs rows).0 ≤ budget rows
unfolding deliver_all
deliver_all_spends r [] rows alone h = omega arith
deliver_all_spends r (j ∷ rest) rows alone (here, there) =
    let first =
      deliver_spends (r.own j) (r.sent_at j) j (r.send j) (r.during j) rows (alone j) here in
    let left = (deliver (r.own j) (r.sent_at j) (r.during j) (r.send j) j rows).0 in
    let still =
      All-weaken rest
        (λ k a. deliver-Agrees (r.own j) (r.sent_at j) j k (r.send j) (r.during j) rows (alone j) a)
        there in
    let more = deliver_all_spends r rest left alone still in omega arith
