-- ===== src/System/Invariant.antt =====
-- What holds of the requests between two transactions.
use mathlib.Core.Path.{subst}
use profundiza_uq_backend.Base.{
  ℕ, suc, ◌≤◌, ◌<◌, ◌≡◌, sym, ◌∙◌, inl, inr, true, false, some, List, [], ◌∷◌, ◌++◌, arith, Uuid,
  Bool-cases, ◌==◌,
}
use profundiza_uq_backend.Base.Table.{tally, tally-le_one, All, count, modify, find}
use profundiza_uq_backend.Base.Table.Laws.{count-insert, count-modify, All-insert}
use profundiza_uq_backend.Enrollment.Status.{is_active, is_accepted}
use profundiza_uq_backend.Enrollment.Rules.{max_electives_per_semester}
use profundiza_uq_backend.Enrollment.Database.{
  OfferingGroup, EnrollmentRequest, Database, group_id, request_id, holds_in_semester, seated_in,
}
use profundiza_uq_backend.System.Changes.{
  HasSeat, Inserts, Updates, Change, same, inserted, updated,
}

-- No student holds more than four active requests in a semester.
abbrev pub IsCapped : List EnrollmentRequest → Type 0
IsCapped rows =
    (student semester : Uuid)
    → count (holds_in_semester student semester) rows ≤ max_electives_per_semester

-- No group has more accepted requests than its capacity.
abbrev pub IsSeated : Database → Type 0
IsSeated db =
    (id : Uuid) (g : OfferingGroup)
    → find group_id id db.groups ≡ some g
    → count (seated_in id) db.requests ≤ g.capacity

-- The rows stand in arrival order, each below the next number of the sequence.
abbrev pub IsArranged : ℕ → List EnrollmentRequest → Type 0
IsArranged next [] = Unit
IsArranged next (r ∷ rows) =
    (r.arrival_sequence < next)
    × All (λ q. r.arrival_sequence < q.arrival_sequence) rows
    × IsArranged next rows

pub record Inv (db : Database) : Type 0 where
  pub capped : IsCapped db.requests
  pub seated : IsSeated db
  pub arranged : IsArranged db.arrival_seq db.requests

same_holder :
    (student semester : Uuid) (r : EnrollmentRequest)
    → holds_in_semester student semester r ≡ true
    → (student ≡ r.student_id) × (semester ≡ r.semester_id)
same_holder student semester r h = ground arith

insert-IsCapped :
    (before after : Database) (r : EnrollmentRequest)
    → Inserts before after r
    → IsCapped before.requests
    → IsCapped after.requests
insert-IsCapped before after r c h student semester =
    rw (c.requests, count-insert (holds_in_semester student semester) before.requests r)
      (elim (Bool-cases (holds_in_semester student semester r)) [
        | inl e ↦
            let (same_student, same_semester) = same_holder student semester r e in
            rw (e, same_student, same_semester) (omega (arith, c.below_cap))
        | inr e ↦ rw e (omega (arith, h student semester))
      ])

-- An UPDATE never makes a request hold that did not hold before.
holds_before :
    (student semester : Uuid) (r q : EnrollmentRequest)
    → q.student_id ≡ r.student_id
    → q.semester_id ≡ r.semester_id
    → is_active r.status ≡ true
    → tally (holds_in_semester student semester q) ≤ tally (holds_in_semester student semester r)
holds_before student semester r q e₁ e₂ a = ground arith

update-IsCapped :
    (before after : Database) (id : Uuid) (f : EnrollmentRequest → EnrollmentRequest)
    (r : EnrollmentRequest)
    → Updates before after id f r
    → IsCapped before.requests
    → IsCapped after.requests
update-IsCapped before after id f r u h student semester = rw u.requests (
    omega (
      arith,
      h student semester,
      count-modify (holds_in_semester student semester) request_id id f before.requests u.found,
      holds_before student semester r (f r) u.keeps_student u.keeps_semester u.was_active,
    ))

unseated_tally :
    (group : Uuid) (r : EnrollmentRequest)
    → is_accepted r.status ≡ false
    → tally (seated_in group r) ≡ 0
unseated_tally group r h = ground arith

insert-IsSeated :
    (before after : Database) (r : EnrollmentRequest)
    → Inserts before after r
    → IsSeated before
    → IsSeated after
insert-IsSeated before after r c h id g found =
    rw (c.requests, count-insert (seated_in id) before.requests r, unseated_tally id r c.unseated)
      (omega (arith, h id g (rw c.groups at found)))

-- A row that an UPDATE seats in a group stands there, and is accepted.
seated_row :
    (group : Uuid) (q : EnrollmentRequest)
    → seated_in group q ≡ true
    → (q.offering_group_id ≡ group) × (is_accepted q.status ≡ true)
seated_row group q h = ground arith

some_row : (g h : OfferingGroup) → some g ≡ some h → g.capacity ≡ h.capacity
some_row g h e = ground arith

room_of :
    (db : Database) (id group : Uuid) (g : OfferingGroup)
    → HasSeat db id
    → id ≡ group
    → find group_id group db.groups ≡ some g
    → count (seated_in group) db.requests < g.capacity
room_of db id group g s e found =
    let at_group : HasSeat db group = subst (HasSeat db) e s in
    omega (arith, at_group.room, some_row at_group.row g (sym at_group.found ∙ found))

update-IsSeated :
    (before after : Database) (id : Uuid) (f : EnrollmentRequest → EnrollmentRequest)
    (r : EnrollmentRequest)
    → Updates before after id f r
    → IsSeated before
    → IsSeated after
update-IsSeated before after id f r u h group g found =
    let found' : find group_id group before.groups ≡ some g = rw u.groups at found in
    let trade = count-modify (seated_in group) request_id id f before.requests u.found in
    rw u.requests (elim (Bool-cases (seated_in group (f r))) [
      | inl e ↦
          let (stands, seated) = seated_row group (f r) e in
          let room = room_of before _ group g (u.seat seated) stands found' in
          omega (arith, trade, room, tally-le_one (seated_in group (f r)))
      | inr e ↦ omega (arith, rw e at trade, h group g found')
    ])

bumped : (n : ℕ) (r : EnrollmentRequest) → r.arrival_sequence < n → r.arrival_sequence < suc n
bumped n r h = omega arith

IsArranged-le :
    (m n : ℕ) (rows : List EnrollmentRequest) → m ≤ n → IsArranged m rows → IsArranged n rows
IsArranged-le m n [] le h = tt
IsArranged-le m n (r ∷ rows) le h = (omega arith, h.1, IsArranged-le m n rows le h.2)

insert-IsArranged :
    (n : ℕ) (rows : List EnrollmentRequest) (r : EnrollmentRequest)
    → r.arrival_sequence ≡ n
    → IsArranged n rows
    → IsArranged (suc n) (rows ++ r ∷ [])
insert-IsArranged n [] r e h = (omega arith, tt, tt)
insert-IsArranged n (q ∷ rows) r e h = (
  omega arith,
  All-insert (λ x. q.arrival_sequence < x.arrival_sequence) rows r h.1 (omega arith),
  insert-IsArranged n rows r e h.2,
)

module _ (id : Uuid) (f : EnrollmentRequest → EnrollmentRequest)
    (keeps : (q : EnrollmentRequest) → (f q).arrival_sequence ≡ q.arrival_sequence) where
  modify-All_later :
      (n : ℕ) (rows : List EnrollmentRequest)
      → All (λ q. n < q.arrival_sequence) rows
      → All (λ q. n < q.arrival_sequence) (modify request_id id f rows)
  unfolding modify
  modify-All_later n [] h = tt
  modify-All_later n (q ∷ rows) h = elim (Bool-cases (q.id == id)) [
    | inl e ↦ rw e (omega (arith, keeps q), h.1)
    | inr e ↦ rw e (h.0, modify-All_later n rows h.1)
  ]

  modify-IsArranged :
      (n : ℕ) (rows : List EnrollmentRequest)
      → IsArranged n rows
      → IsArranged n (modify request_id id f rows)
  unfolding modify
  modify-IsArranged n [] h = tt
  modify-IsArranged n (q ∷ rows) h = elim (Bool-cases (q.id == id)) [
    | inl e ↦ rw e (rw (keeps q) h)
    | inr e ↦ rw e (h.0, modify-All_later q.arrival_sequence rows h.1, modify-IsArranged n rows h.2)
  ]

-- Whatever a transaction changes, the invariant stays.
pub Change-Inv : (before after : Database) → Change before after → Inv before → Inv after
Change-Inv before after (same e g n) h = record {
  capped = rw e h.capped;
  seated = rw (e, g) h.seated;
  arranged = rw e (IsArranged-le before.arrival_seq after.arrival_seq before.requests n h.arranged);
}
Change-Inv before after (inserted r c) h = record {
  capped = insert-IsCapped before after r c h.capped;
  seated = insert-IsSeated before after r c h.seated;
  arranged =
      rw (c.requests, c.next)
        (insert-IsArranged before.arrival_seq before.requests r c.arrival h.arranged);
}
Change-Inv before after (updated id f r u) h = record {
  capped = update-IsCapped before after id f r u h.capped;
  seated = update-IsSeated before after id f r u h.seated;
  arranged =
      rw (u.requests, u.next)
        (modify-IsArranged id f u.keeps_arrival before.arrival_seq before.requests h.arranged);
}
