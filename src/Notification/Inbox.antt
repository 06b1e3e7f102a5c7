-- ===== src/Notification/Inbox.antt =====
-- internal/notification/app and internal/notification/adapter/postgres: the notifications that a user
-- reads in the application.
pub mod Reading
use profundiza_uq_backend.Base.{
  ℕ, zero, suc, ◌-◌, ◌*◌, Bool, true, false, not, ◌&&◌, Option, none, some, List, [], ◌∷◌, Uuid,
  Time, ◌==◌, ltb, leb, is_some, if◌then◌else◌,
}
use profundiza_uq_backend.Base.Int.{ℤ, pos, negsuc}
use profundiza_uq_backend.Base.Table.{
  count, select, select_one, modify_where, limit, skip, order_by,
}
use profundiza_uq_backend.Notification.Outbox.{Notification, email, in_app}
use profundiza_uq_backend.Shared.Paging.{page_of, offset_of}

-- `recipient_user_id = $1 AND channel = 'IN_APP'`
unfoldable pub is_inbox_of : Uuid → Notification → Bool
is_inbox_of user n =
    elim n.recipient_user_id [ none ↦ false | some id ↦ id == user ]
    && elim n.channel [ in_app ↦ true | email ↦ false ]

-- `... AND read_at IS NULL`
unfoldable pub is_unread_of : Uuid → Notification → Bool
unfolding is_inbox_of
is_unread_of user n = is_inbox_of user n && not (is_some n.read_at)

abbrev pub read_since : Time → Notification → Notification
read_since now n = record n { read_at = some now }

-- `MarkRead`: the table, and whether a row was affected.
unfoldable pub mark_read : Uuid → Uuid → Time → List Notification → List Notification × Bool
unfolding is_unread_of
mark_read id user now rows = (
  modify_where (λ n. n.id == id && is_unread_of user n) (read_since now) rows,
  is_some (select_one (λ n. n.id == id && is_unread_of user n) rows),
)

-- `UnreadCount`
unfoldable pub unread_count : Uuid → List Notification → ℕ
unfolding is_unread_of
unread_count user rows = count (is_unread_of user) rows

-- The page size that `Service.ListInApp` takes.
unfoldable pub inbox_page_size : ℤ → ℕ
inbox_page_size (pos zero) = 20
inbox_page_size (pos (suc n)) = if leb (suc n) 100 then suc n else 20
inbox_page_size (negsuc n) = 20

-- `ORDER BY created_at DESC`
unfoldable pub newest : Notification → Notification → Bool
newest m n = ltb n.created_at m.created_at

-- `ListInApp`: the items and the total; `none` is a negative OFFSET, and `during` what other sessions
-- commit between the count and the query.
unfoldable pub list_in_app :
    Uuid
    → ℤ
    → ℤ
    → (List Notification → List Notification)
    → List Notification
    → Option (List Notification × ℕ)
unfolding is_inbox_of newest page_of offset_of inbox_page_size
list_in_app user page size during rows = elim (offset_of (page_of page) (inbox_page_size size)) [
  | none ↦ none
  | some offset ↦ some (
    limit (inbox_page_size size)
        (skip offset (order_by newest (select (is_inbox_of user) (during rows)))),
    count (is_inbox_of user) rows,
  )
]
