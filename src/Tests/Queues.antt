-- ===== src/Tests/Queues.antt =====
-- The rounds of the notification worker and of the reporting worker.
use profundiza_uq_backend.Base.{
  true, false, none, some, List, [], ◌∷◌, Uuid, ◌≡◌, ◌≤◌, ◌*◌, ◌⊎◌, refl, arith, ok,
}
use profundiza_uq_backend.Base.Table.{find, All, length, select, count}
use profundiza_uq_backend.Notification.Worker.{max_delivery_attempts}
use profundiza_uq_backend.Notification.Worker.Drain.{Round, run}
use profundiza_uq_backend.Notification.Worker.Drain.Sends.{run_sends}
use profundiza_uq_backend.Reporting.Export.{ReportExport, requested, audit, pdf, export_id}
use profundiza_uq_backend.Reporting.Worker.{
  Turn, claim_next, started, is_claimable, is_requested, drain,
}
use profundiza_uq_backend.Reporting.Worker.Queue.{claim_next_lem}
use profundiza_uq_backend.Reporting.Worker.Draining.{Settled, drain_finishes}
use profundiza_uq_backend.Tests.Mail.{outbox}

abbrev failing_round : Round
failing_round = record {
  reaped_at = 50;
  now = 50;
  locked = λ id. false;
  own = λ j. 51;
  sent_at = λ j. 52;
  send = λ j. some (120 ∷ []);
  during = λ j rows. rows;
}

run_sends_example :
    (run (failing_round ∷ failing_round ∷ []) outbox).1 ≤ max_delivery_attempts * length outbox
run_sends_example =
    run_sends (failing_round ∷ failing_round ∷ []) outbox ((λ j rows. refl), ((λ j rows. refl), tt))
      ((refl, tt), (tt, tt))

abbrev asked : Uuid → ReportExport
asked id = record {
  id = id;
  requested_by_admin_id = 40;
  semester_id = some (49 ∷ []);
  report_type = audit;
  format = pdf;
  status = requested;
  filters = [];
  file_path = none;
  failure_reason = none;
  requested_at = 10 * id;
  started_at = none;
  completed_at = none;
}

abbrev exports : List ReportExport
exports = asked 2 ∷ asked 1 ∷ []

abbrev generating : Turn
generating = record {
  claimed_at = 100;
  finished_at = 200;
  locked = λ id. false;
  generate = λ e. ok (47 ∷ []);
  during = λ rows. rows;
}

claim_next_lem_example :
    ((claim_next 100 (λ id. false) exports ≡ none)
      × (count (is_claimable (λ id. false)) exports ≡ 0))
    ⊎ ((e : ReportExport) × (out : List ReportExport) × (claim_next 100 (λ id. false) exports
          ≡ some (out, started 100 e))
        × (find export_id e.id exports ≡ some e)
        × (is_claimable (λ id. false) e ≡ true)
        × All (λ x. e.requested_at ≤ x.requested_at) (select (is_claimable (λ id. false)) exports)
        × (find export_id e.id out ≡ some (started 100 e))
        × ((2 ≡ e.id) ⊎ (find export_id 2 out ≡ find export_id 2 exports)))
claim_next_lem_example = claim_next_lem 100 (λ id. false) exports 2 ((refl, tt), (tt, tt))

drain_finishes_example :
    (after : List ReportExport) × (drain 3 (λ i. generating) 0 exports ≡ some after)
    × (count is_requested after ≡ 0)
    × Settled (find export_id 1 exports) (find export_id 1 after)
unfolding count
drain_finishes_example =
    drain_finishes 3 (λ i. generating) 0 exports 1 (λ i. ((λ id. refl), (λ rows. refl)))
      ((refl, tt), (tt, tt)) (omega arith)
