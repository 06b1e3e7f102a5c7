-- ===== src/Reporting/Worker.antt =====
-- internal/reporting/app/worker.go, with ClaimNext, MarkCompleted and MarkFailed of
-- internal/reporting/adapter/postgres/repo.go: the worker that generates the requested exports.
pub mod Queue
pub mod Draining
use profundiza_uq_backend.Base.{
  ℕ, zero, suc, ◌+◌, Bool, true, false, not, ◌&&◌, Option, none, some, List, [], ◌∷◌, Uuid, Time,
  ◌==◌, Result, ok, err,
}
use profundiza_uq_backend.Base.Table.{select, least, modify}
use profundiza_uq_backend.Base.Text.{Text}
use profundiza_uq_backend.Reporting.Export.{
  ReportExport, requested, processing, completed, failed, export_id,
}

abbrev pub is_requested : ReportExport → Bool
is_requested e = elim e.status [ requested ↦ true | _ ↦ false ]

-- The WHERE clause of the claim; `locked` are the rows that other transactions hold.
abbrev pub is_claimable : (Uuid → Bool) → ReportExport → Bool
is_claimable locked e = is_requested e && not (locked e.id)

abbrev pub started : Time → ReportExport → ReportExport
started now e = record e { status = processing; started_at = some now }

-- `ClaimNext`: the table and the job; `none` is `ErrNoJob`.
unfoldable pub claim_next :
    Time → (Uuid → Bool) → List ReportExport → Option (List ReportExport × ReportExport)
claim_next now locked rows =
    elim (least (λ (e : ReportExport). e.requested_at) (select (is_claimable locked) rows)) [
      | none ↦ none
      | some e ↦ some (modify export_id e.id (started now) rows, started now e)
    ]

abbrev pub with_file : Time → Text → ReportExport → ReportExport
with_file now path e = record e {
  status = completed;
  file_path = some path;
  failure_reason = none;
  completed_at = some now;
}

-- `MarkCompleted`
unfoldable pub mark_completed : Time → Uuid → Text → List ReportExport → List ReportExport
mark_completed now id path rows = modify export_id id (with_file now path) rows

abbrev pub with_failure : Time → Text → ReportExport → ReportExport
with_failure now reason e = record e {
  status = failed;
  failure_reason = some reason;
  completed_at = some now;
}

-- `MarkFailed`
unfoldable pub mark_failed : Time → Uuid → Text → List ReportExport → List ReportExport
mark_failed now id reason rows = modify export_id id (with_failure now reason) rows

-- What one call of `processOne` meets: the instants of its statements, the rows that are locked,
-- what the generator answers, and what the other sessions commit while it generates.
pub record Turn : Type 0 where
  pub claimed_at : Time
  pub finished_at : Time
  pub locked : Uuid → Bool
  pub generate : ReportExport → Result Text Text
  pub during : List ReportExport → List ReportExport

-- The mark that follows the generation.
unfoldable pub finish : Turn → ReportExport → List ReportExport → List ReportExport
unfolding mark_completed mark_failed
finish t e rows = elim (t.generate e) [
  | err reason ↦ mark_failed t.finished_at e.id reason rows
  | ok path ↦ mark_completed t.finished_at e.id path rows
]

-- `processOne`: the table, and whether a job was processed.
unfoldable pub process_one : Turn → List ReportExport → List ReportExport × Bool
unfolding claim_next finish
process_one t rows = elim (claim_next t.claimed_at t.locked rows) [
  | none ↦ (rows, false)
  | some claimed ↦ (finish t claimed.1 (t.during claimed.0), true)
]

-- The inner loop of `Run`, on fuel; `none` is a loop that has not ended. The k-th call from `k` on
-- meets the turn of its number.
unfoldable pub drain : ℕ → (ℕ → Turn) → ℕ → List ReportExport → Option (List ReportExport)
unfolding process_one
drain zero turns k rows = none
drain (suc fuel) turns k rows = elim ((process_one (turns k) rows).1) [
  | true ↦ drain fuel turns (k + 1) (process_one (turns k) rows).0
  | false ↦ some (process_one (turns k) rows).0
]
