-- ===== src/Notification/Worker/Drain.antt =====
-- `drain` of internal/notification/worker.go: one round of the worker, and rounds one after another.
pub mod Budget
pub mod Claims
pub mod Sends
use profundiza_uq_backend.Base.{ℕ, ◌+◌, Option, List, [], ◌∷◌, Uuid, Time, Bool}
use profundiza_uq_backend.Base.Table.{tally}
use profundiza_uq_backend.Base.Text.{Text}
use profundiza_uq_backend.Notification.Outbox.{Notification}
use profundiza_uq_backend.Notification.Worker.{Job, reap_stuck_sending, claim, deliver}

-- What a round meets: the instants of its statements, the rows that other transactions hold, the
-- mail server's answers, and what the other sessions commit during each send.
pub record Round : Type 0 where
  pub reaped_at : Time
  pub now : Time
  pub locked : Uuid → Bool
  pub own : Job → Time
  pub sent_at : Job → Time
  pub send : Job → Option Text
  pub during : Job → List Notification → List Notification

-- The loop of `drain`, with the number of mails that it hands to the server.
unfoldable pub deliver_all : Round → List Job → List Notification → List Notification × ℕ
deliver_all r [] rows = (rows, 0)
deliver_all r (j ∷ rest) rows =
    let (delivered, handed) = deliver (r.own j) (r.sent_at j) (r.during j) (r.send j) j rows in
    let (final, more) = deliver_all r rest delivered in (final, tally handed + more)

-- `drain`
unfoldable pub drain : Round → List Notification → List Notification × ℕ
unfolding deliver_all
drain r rows =
    let (claimed, jobs) = claim r.now r.locked (reap_stuck_sending r.reaped_at rows) in
    deliver_all r jobs claimed

-- The ticks of `Run`.
unfoldable pub run : List Round → List Notification → List Notification × ℕ
unfolding drain
run [] rows = (rows, 0)
run (r ∷ rest) rows =
    let (after, sent) = drain r rows in let (final, more) = run rest after in (final, sent + more)
