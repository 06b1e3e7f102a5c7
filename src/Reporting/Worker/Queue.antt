-- ===== src/Reporting/Worker/Queue.antt =====
-- The queue of exports.
use profundiza_uq_backend.Base.{
  ◌≤◌, ◌⊎◌, ◌≡◌, refl, ◌∙◌, ap, inl, inr, Bool, true, false, none, some, List, arith, Uuid, Time,
  ◌==◌, ==_iff, Bool-cases, Option-cases, Result, Result-cases, ok, err, ◌⊎◌,
}
use profundiza_uq_backend.Base.Text.{Text}
use profundiza_uq_backend.Base.Table.{All, select, least, modify, find, count}
use profundiza_uq_backend.Base.Table.Laws.{find-modify_self, find-modify_ne, All-weaken}
use profundiza_uq_backend.Base.Table.Keys.{
  IsKeyed, find-IsKeyed, All-select, All-least, least-le, least-none, select-none,
}
use profundiza_uq_backend.Reporting.Export.{ReportExport, export_id, completed, failed}
use profundiza_uq_backend.Reporting.Worker.{
  is_requested, is_claimable, started, claim_next, finish, Turn, with_file, with_failure,
}

-- A job comes out of the queue: it is a requested row, no claimable row is older.
pub claimed_row :
    (now : Time) (locked : Uuid → Bool) (rows : List ReportExport)
    {out : List ReportExport × ReportExport}
    → IsKeyed export_id rows
    → claim_next now locked rows ≡ some out
    → (e : ReportExport) × (find export_id e.id rows ≡ some e)
      × (is_claimable locked e ≡ true)
      × All (λ x. e.requested_at ≤ x.requested_at) (select (is_claimable locked) rows)
      × (out.1 ≡ started now e)
      × (out.0 ≡ modify export_id e.id (started now) rows)
unfolding claim_next
claimed_row now locked rows {out} keyed h =
    elim (Option-cases
      (least (λ (e : ReportExport). e.requested_at) (select (is_claimable locked) rows))) [
        | inl e ↦ ground arith
        | inr (e, found) ↦
            let P : ReportExport → Type 0 =
              λ x. (find export_id x.id rows ≡ some x) × (is_claimable locked x ≡ true) in
            let here : P e = All-least P _ _ found (
              All-select P (is_claimable locked) rows
                (All-weaken rows (λ x p. λ test. (p, test)) (find-IsKeyed export_id rows keyed))) in
            (e, here.0, here.1, least-le _ _ found, ground arith, ground arith)
      ]

pub nothing_claimable :
    (now : Time) (locked : Uuid → Bool) (rows : List ReportExport)
    → claim_next now locked rows ≡ none
    → count (is_claimable locked) rows ≡ 0
unfolding claim_next
nothing_claimable now locked rows h = select-none (is_claimable locked) rows (
    least-none (λ (e : ReportExport). e.requested_at) (select (is_claimable locked) rows)
      (ground arith))

-- The worker claims nothing exactly when no export can be claimed. Otherwise its job is a requested
-- export that no session holds, none of those being older; the row becomes the job, which is
-- PROCESSING since the claim, and the other rows stay.
pub claim_next_lem :
    (now : Time) (locked : Uuid → Bool) (rows : List ReportExport) (j : Uuid)
    → IsKeyed export_id rows
    → ((claim_next now locked rows ≡ none) × (count (is_claimable locked) rows ≡ 0))
      ⊎ ((e : ReportExport) × (out : List ReportExport) × (claim_next now locked rows
            ≡ some (out, started now e))
          × (find export_id e.id rows ≡ some e)
          × (is_claimable locked e ≡ true)
          × All (λ x. e.requested_at ≤ x.requested_at) (select (is_claimable locked) rows)
          × (find export_id e.id out ≡ some (started now e))
          × ((j ≡ e.id) ⊎ (find export_id j out ≡ find export_id j rows)))
unfolding claim_next
claim_next_lem now locked rows j keyed = elim (Option-cases (claim_next now locked rows)) [
  | inl e ↦ inl (e, nothing_claimable now locked rows e)
  | inr (out, h) ↦
      let (e, here, test, oldest, job, table) = claimed_row now locked rows keyed h in
      inr (
        e,
        modify export_id e.id (started now) rows,
        h ∙ ap some (rw (job, table) refl),
        here,
        test,
        oldest,
        find-modify_self export_id e.id (started now) rows refl here,
        elim (Bool-cases (j == e.id)) [
          | inl same ↦ inl ((==_iff j e.id).0 same)
          | inr other ↦ inr (
              find-modify_ne export_id j e.id (started now) rows (λ r. refl) (λ same. ground arith))
        ],
      )
]

-- A file, or the reason why there is none.
abbrev pub IsFinished : ReportExport → Type 0
IsFinished e =
    ((e.status ≡ completed) × (path : Text) × (e.file_path ≡ some path))
    ⊎ ((e.status ≡ failed) × (reason : Text) × (e.failure_reason ≡ some reason))

-- No other session holds a row or writes to the table.
abbrev pub IsAlone : Turn → Type 0
IsAlone t =
    ((id : Uuid) → t.locked id ≡ false) × ((rows : List ReportExport) → t.during rows ≡ rows)

-- The row after the mark.
unfoldable pub mark_row : Time → Result Text Text → ReportExport → ReportExport
mark_row now (err reason) e = with_failure now reason e
mark_row now (ok path) e = with_file now path e

pub finish-eq-modify :
    (t : Turn) (job : ReportExport) (rows : List ReportExport)
    → finish t job rows ≡ modify export_id job.id (mark_row t.finished_at (t.generate job)) rows
unfolding finish mark_row
finish-eq-modify t job rows = elim (Result-cases (t.generate job)) [
  | inl (path, e) ↦ rw (finish, e, mark_row) refl
  | inr (reason, e) ↦ rw (finish, e, mark_row) refl
]

pub mark_row-IsFinished :
    (now : Time) (outcome : Result Text Text) (e : ReportExport)
    → IsFinished (mark_row now outcome e)
unfolding mark_row
mark_row-IsFinished now (err reason) e = inr (refl, reason, refl)
mark_row-IsFinished now (ok path) e = inl (refl, path, refl)

pub mark_row-id :
    (now : Time) (outcome : Result Text Text) (e : ReportExport)
    → (mark_row now outcome e).id ≡ e.id
unfolding mark_row
mark_row-id now (err reason) e = refl
mark_row-id now (ok path) e = refl

pub not_requested : (e : ReportExport) → IsFinished e → is_requested e ≡ false
not_requested e (inl (h, path, p)) = rw h refl
not_requested e (inr (h, reason, p)) = rw h refl
