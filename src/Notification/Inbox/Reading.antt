-- ===== src/Notification/Inbox/Reading.antt =====
-- What marking a notification as read changes.
use profundiza_uq_backend.Base.{
  ◌+◌, ◌≡◌, ◌⊎◌, refl, ap, inl, inr, arith, Bool, true, false, ◌&&◌, none, some, List, [], ◌∷◌,
  Uuid, Time, ◌==◌, is_some, Bool-cases, Option-cases,
}
use profundiza_uq_backend.Base.Table.{All, count, find, select_one, modify_where}
use profundiza_uq_backend.Base.Table.Laws.{key-find}
use profundiza_uq_backend.Base.Table.Keys.{IsKeyed}
use profundiza_uq_backend.Notification.Outbox.{Notification}
use profundiza_uq_backend.Notification.Inbox.{is_unread_of, read_since, mark_read, unread_count}
use profundiza_uq_backend.Notification.Worker.Delivery.{notification_id}

module _ (id user : Uuid) (now : Time) where
  -- The rows that the UPDATE meets.
  abbrev target : Notification → Bool
  target n = n.id == id && is_unread_of user n

  untouched :
      (rows : List Notification)
      → select_one target rows ≡ none
      → modify_where target (read_since now) rows ≡ rows
  unfolding select_one modify_where
  untouched [] h = refl
  untouched (n ∷ rest) h = elim (Bool-cases (target n)) [
    | inl e ↦ ground arith
    | inr e ↦
        let none_left : select_one target rest ≡ none = ground arith in
        rw e (ap (λ t. n ∷ t) (untouched rest none_left))
  ]

  other_ids :
      (n : Notification) (rest : List Notification)
      → n.id ≡ id
      → All (λ m. (m.id == n.id) ≡ false) rest
      → select_one target rest ≡ none
  unfolding select_one
  other_ids n [] same apart = refl
  other_ids n (m ∷ rest) same (here, there) = let ih = other_ids n rest same there in ground arith

  now_read : (n : Notification) → is_unread_of user (read_since now n) ≡ false
  unfolding is_unread_of
  now_read n = ground arith

  others :
      (x : Notification) (rest : List Notification) {n : Notification}
      → All (λ m. (m.id == x.id) ≡ false) rest
      → find notification_id id rest ≡ some n
      → (x.id == id) ≡ false
  unfolding find
  others x [] apart h = cc
  others x (m ∷ rest) {n} (here, there) h = elim (Bool-cases (m.id == id)) [
    | inl e ↦ ground arith
    | inr e ↦
        let later : find notification_id id rest ≡ some n = ground arith in
        others x rest there later
  ]

  -- What the update of the row `n` does.
  abbrev Read : List Notification → Notification → Type 0
  Read rows n =
      (find notification_id id rows ≡ some n)
      × (is_unread_of user n ≡ true)
      × (find notification_id id (modify_where target (read_since now) rows)
          ≡ some (read_since now n))
      × (count (is_unread_of user) (modify_where target (read_since now) rows) + 1
          ≡ count (is_unread_of user) rows)
      × (select_one target (modify_where target (read_since now) rows) ≡ none)

  hit :
      (rows : List Notification) {n : Notification}
      → IsKeyed notification_id rows
      → select_one target rows ≡ some n
      → Read rows n
  unfolding select_one modify_where find count
  hit [] keyed h = cc
  hit (x ∷ rest) {n} (apart, keyed) h = elim (Bool-cases (target x)) [
    | inl e ↦
        let row : x ≡ n = ground arith in
        let own : x.id ≡ id = ground arith in
        let unread : is_unread_of user x ≡ true = ground arith in
        let left = other_ids x rest own apart in
        let same = untouched rest left in
        let seen = now_read x in
        (ground arith, ground arith, ground arith, ground arith, ground arith)
    | inr e ↦
        let later : select_one target rest ≡ some n = ground arith in
        let (found, unread, after, fewer, done) = hit rest keyed later in
        let own : n.id ≡ id = key-find notification_id id rest found in
        (
          ground (arith, others x rest apart found),
          unread,
          ground (arith, others x rest apart found),
          ground arith,
          ground arith,
        )
  ]

-- Marking a notification as read answers true exactly when it is an unread one of the user's inbox;
-- then it is read, the user has one unread notification less, and marking it again answers false.
-- Otherwise nothing changes.
pub mark_read_lem :
    (id user : Uuid) (now later : Time) (rows : List Notification)
    → IsKeyed notification_id rows
    → ((mark_read id user now rows ≡ (rows, false))
        × (select_one (λ n. n.id == id && is_unread_of user n) rows ≡ none))
      ⊎ ((n : Notification) × ((mark_read id user now rows).1 ≡ true)
          × (find notification_id id rows ≡ some n)
          × (is_unread_of user n ≡ true)
          × (find notification_id id (mark_read id user now rows).0 ≡ some (read_since now n))
          × (unread_count user (mark_read id user now rows).0 + 1 ≡ unread_count user rows)
          × ((mark_read id user later (mark_read id user now rows).0).1 ≡ false))
unfolding mark_read unread_count
mark_read_lem id user now later rows keyed =
    elim (Option-cases (select_one (target id user now) rows)) [
      | inl e ↦ inl (rw (mark_read, e, untouched id user now rows e) refl, e)
      | inr (n, e) ↦
          let (found, unread, after, fewer, done) = hit id user now rows keyed e in
          inr (n, ap is_some e, found, unread, after, fewer, ap is_some done)
    ]
