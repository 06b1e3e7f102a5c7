-- ===== src/Notification/Worker/Claiming.antt =====
-- What a claim does to the rows that it takes.
use profundiza_uq_backend.Base.{
  ℕ, zero, suc, ◌≤◌, ◌≡◌, refl, sym, ◌∙◌, ap, inl, inr, Bool, true, some, List, [], ◌∷◌, map, arith,
  Uuid, Time, ◌==◌, ==_self, ==_iff, ltb, Bool-cases,
}
use mathlib.Core.Path.{subst}
use profundiza_uq_backend.Base.Table.{select, modify_where, find, length, All, limit}
use profundiza_uq_backend.Base.Table.Laws.{All-weaken, key-find}
use profundiza_uq_backend.Notification.Outbox.{sending, Notification}
use profundiza_uq_backend.Notification.Worker.{
  Job, is_claimable, by_creation, job_of, in_delivery, mark_claimed, claim, batch,
  insert_by_creation,
}
use profundiza_uq_backend.Notification.Worker.Delivery.{
  notification_id, find-modify_where, when_some, where_holds,
}

length-limit : (k : ℕ) (xs : List Notification) → length (limit k xs) ≤ k
unfolding limit
length-limit zero xs = omega arith
length-limit (suc k) [] = omega arith
length-limit (suc k) (x ∷ xs) = let h = length-limit k xs in omega arith

length-map_jobs : (xs : List Notification) → length (map job_of xs) ≡ length xs
length-map_jobs [] = refl
length-map_jobs (x ∷ xs) = ap suc (length-map_jobs xs)

-- The row of an id is SENDING since `now`.
abbrev pub Marked : Time → List Notification → Uuid → Type 0
Marked now rows id =
    (n : Notification) × (find notification_id id rows ≡ some n)
    × (n.delivery_status ≡ sending)
    × (n.claimed_at ≡ some now)

mark-Marked :
    (now : Time) (rows : List Notification) (id k : Uuid)
    → Marked now rows id
    → Marked now (modify_where (λ n. n.id == k) (in_delivery now) rows) id
mark-Marked now rows id k (n, h, s, c) =
    let updated = find-modify_where (λ m. m.id == k) (in_delivery now) id rows (λ m. refl) in
    elim (Bool-cases (n.id == k)) [
      | inl e ↦ (
        in_delivery now n,
        updated ∙ ap (when_some (where_holds (λ m. m.id == k) (in_delivery now))) h ∙ rw e refl,
        refl,
        refl,
      )
      | inr e ↦ (
        n,
        updated ∙ ap (when_some (where_holds (λ m. m.id == k) (in_delivery now))) h ∙ rw e refl,
        s,
        c,
      )
    ]

mark_new :
    (now : Time) (rows : List Notification) (id : Uuid) (n : Notification)
    → find notification_id id rows ≡ some n
    → (n.id == id) ≡ true
    → Marked now (modify_where (λ m. m.id == id) (in_delivery now) rows) id
mark_new now rows id n h e = (
  in_delivery now n,
  find-modify_where (λ m. m.id == id) (in_delivery now) id rows (λ m. refl)
      ∙ ap (when_some (where_holds (λ m. m.id == id) (in_delivery now))) h
      ∙ rw e refl,
  refl,
  refl,
)

abbrev Present : List Notification → Uuid → Type 0
Present rows id = (n : Notification) × (find notification_id id rows ≡ some n)

Present-cons :
    (x : Notification) (rows : List Notification) (id : Uuid)
    → Present rows id
    → Present (x ∷ rows) id
unfolding find
Present-cons x rows id (n, h) = elim (Bool-cases (x.id == id)) [
  | inl e ↦ (x, ground arith)
  | inr e ↦ (n, ground arith)
]

rows-Present : (rows : List Notification) → All (λ n. Present rows n.id) rows
unfolding find
rows-Present [] = tt
rows-Present (x ∷ rest) = (
  (x, rw (==_self x.id) refl),
  All-weaken rest (λ n h. Present-cons x rest n.id h) (rows-Present rest),
)

module _ (P : Notification → Type 0) where
  pub select-All :
      (p : Notification → Bool) (rows : List Notification) → All P rows → All P (select p rows)
  unfolding select
  select-All p [] h = tt
  select-All p (x ∷ rest) (here, there) =
      let ih = select-All p rest there in
      elim (Bool-cases (p x)) [ inl e ↦ rw e (here, ih) | inr e ↦ rw e ih ]

  insert-All :
      (x : Notification) (rows : List Notification)
      → P x
      → All P rows
      → All P (insert_by_creation x rows)
  unfolding insert_by_creation
  insert-All x [] px h = (px, tt)
  insert-All x (y ∷ rest) px (py, h) =
      let ih = insert-All x rest px h in
      elim (Bool-cases (ltb y.created_at x.created_at)) [
        | inl e ↦ rw e (py, ih)
        | inr e ↦ rw e (px, (py, h))
      ]

  pub by_creation-All : (rows : List Notification) → All P rows → All P (by_creation rows)
  unfolding by_creation
  by_creation-All [] h = tt
  by_creation-All (x ∷ rest) (px, h) = insert-All x (by_creation rest) px (by_creation-All rest h)

  pub limit-All : (k : ℕ) (rows : List Notification) → All P rows → All P (limit k rows)
  unfolding limit
  limit-All zero rows h = tt
  limit-All (suc k) [] h = tt
  limit-All (suc k) (x ∷ rest) (px, h) = (px, limit-All k rest h)

pub jobs-All :
    (P : Uuid → Type 0) (rows : List Notification)
    → All (λ n. P n.id) rows
    → All (λ j. P j.id) (map job_of rows)
jobs-All P [] h = tt
jobs-All P (x ∷ rest) (px, h) = (px, jobs-All P rest h)

mark_claimed-Marked :
    (now : Time) (jobs : List Job) (rows : List Notification) (id : Uuid)
    → Marked now rows id
    → Marked now (mark_claimed now jobs rows) id
unfolding mark_claimed
mark_claimed-Marked now [] rows id m = m
mark_claimed-Marked now (j ∷ rest) rows id m =
    mark_claimed-Marked now rest _ id (mark-Marked now rows id j.id m)

mark-Present :
    (now : Time) (rows : List Notification) (id k : Uuid)
    → Present rows id
    → Present (modify_where (λ n. n.id == k) (in_delivery now) rows) id
mark-Present now rows id k (n, h) = (
  where_holds (λ m. m.id == k) (in_delivery now) n,
  find-modify_where (λ m. m.id == k) (in_delivery now) id rows (λ m. refl)
      ∙ ap (when_some (where_holds (λ m. m.id == k) (in_delivery now))) h,
)

claimed-Marked :
    (now : Time) (jobs : List Job) (rows : List Notification)
    → All (λ j. Present rows j.id) jobs
    → All (λ j. Marked now (mark_claimed now jobs rows) j.id) jobs
unfolding mark_claimed
claimed-Marked now [] rows h = tt
claimed-Marked now (j ∷ rest) rows ((n, found), h) =
    let rows' : List Notification = modify_where (λ m. m.id == j.id) (in_delivery now) rows in
    let same : n.id ≡ j.id = key-find notification_id j.id rows found in
    let first = mark_new now rows j.id n found ((==_iff n.id j.id).1 same) in
    (
      mark_claimed-Marked now rest rows' j.id first,
      claimed-Marked now rest rows' (All-weaken rest (λ i p. mark-Present now rows i.id j.id p) h),
    )

-- A claim takes at most a batch of rows, and each of them is SENDING with the instant of the claim
-- when its transaction commits.
pub claim_lem :
    (now : Time) (locked : Uuid → Bool) (rows : List Notification)
    → (length (claim now locked rows).1 ≤ batch)
      × All (λ j. Marked now (claim now locked rows).0 j.id) (claim now locked rows).1
unfolding claim
claim_lem now locked rows =
    let PresentRow : Notification → Type 0 = λ n. Present rows n.id in
    let chosen : List Notification =
      limit batch (by_creation (select (is_claimable now locked) rows)) in
    (
      subst (λ k. k ≤ batch) (sym (length-map_jobs chosen)) (length-limit batch _),
      claimed-Marked now (map job_of chosen) rows (
          jobs-All (Present rows) chosen (
            limit-All PresentRow batch _ (
              by_creation-All PresentRow _
                (select-All PresentRow (is_claimable now locked) rows (rows-Present rows))))),
    )
