-- ===== src/Reporting/Worker/Draining.antt =====
-- The inner loop of the reporting worker ends, and finishes every export that was requested.
use profundiza_uq_backend.Base.{
  ℕ, zero, suc, ◌+◌, ◌<◌, ◌⊎◌, ◌≡◌, refl, sym, ◌∙◌, ap, inl, inr, true, false, Option, none, some,
  List, arith, Uuid, ◌==◌, ==_iff, Bool-cases, Option-cases, ◌≢◌,
}
use profundiza_uq_backend.Base.Table.{modify, find, count}
use profundiza_uq_backend.Base.Table.Laws.{
  count-modify, find-modify_self, find-modify_ne, count_mono,
}
use profundiza_uq_backend.Base.Table.Keys.{IsKeyed, modify-IsKeyed}
use profundiza_uq_backend.Reporting.Export.{ReportExport, export_id}
use profundiza_uq_backend.Reporting.Worker.{
  is_requested, is_claimable, started, claim_next, finish, process_one, drain, Turn,
}
use profundiza_uq_backend.Reporting.Worker.Queue.{
  claimed_row, nothing_claimable, IsFinished, IsAlone, mark_row, finish-eq-modify,
  mark_row-IsFinished, mark_row-id, not_requested,
}

-- A row before and after: it stays, or it was requested and is finished.
abbrev pub Settled : Option ReportExport → Option ReportExport → Type 0
Settled before after =
    (after ≡ before)
    ⊎ ((e : ReportExport) × (d : ReportExport) × (before ≡ some e)
        × (is_requested e ≡ true)
        × (after ≡ some d)
        × IsFinished d)

-- A turn that processes a job finishes one requested export.
abbrev Advances : List ReportExport → List ReportExport → Type 0
Advances rows out =
    IsKeyed export_id out
    × (count is_requested out + 1 ≡ count is_requested rows)
    × ((j : Uuid) → Settled (find export_id j rows) (find export_id j out))

module _ (t : Turn) (rows : List ReportExport) (e : ReportExport) where
  abbrev done : ReportExport → ReportExport
  done = mark_row t.finished_at (t.generate (started t.claimed_at e))

  abbrev finished : List ReportExport
  finished = modify export_id e.id done (modify export_id e.id (started t.claimed_at) rows)

  done-id : (x : ReportExport) → (done x).id ≡ x.id
  done-id x = mark_row-id t.finished_at (t.generate (started t.claimed_at e)) x

  finished-found :
      find export_id e.id rows ≡ some e
      → find export_id e.id finished ≡ some (done (started t.claimed_at e))
  finished-found here =
      find-modify_self export_id e.id done (modify export_id e.id (started t.claimed_at) rows)
        (done-id (started t.claimed_at e))
        (find-modify_self export_id e.id (started t.claimed_at) rows refl here)

  finished-others : (j : Uuid) → j ≢ e.id → find export_id j finished ≡ find export_id j rows
  finished-others j other =
      find-modify_ne export_id j e.id done (modify export_id e.id (started t.claimed_at) rows)
        done-id other
      ∙ find-modify_ne export_id j e.id (started t.claimed_at) rows (λ r. refl) other

  finished-count :
      find export_id e.id rows ≡ some e
      → is_requested e ≡ true
      → count is_requested finished + 1 ≡ count is_requested rows
  finished-count here test =
      let first = count-modify is_requested export_id e.id (started t.claimed_at) rows here in
      let second =
        count-modify is_requested export_id e.id done
          (modify export_id e.id (started t.claimed_at) rows)
          (find-modify_self export_id e.id (started t.claimed_at) rows refl here) in
      let closed = not_requested (done (started t.claimed_at e)) (
        mark_row-IsFinished t.finished_at (t.generate (started t.claimed_at e))
          (started t.claimed_at e)) in
      ground (arith, closed, test, first, second)

  finished-Advances :
      IsKeyed export_id rows
      → find export_id e.id rows ≡ some e
      → is_requested e ≡ true
      → Advances rows finished
  finished-Advances keyed here test = (
    modify-IsKeyed export_id e.id done _ done-id
        (modify-IsKeyed export_id e.id (started t.claimed_at) rows (λ r. refl) keyed),
    finished-count here test,
    λ j. elim (Bool-cases (j == e.id)) [
      | inl same ↦
          let eq = (==_iff j e.id).0 same in
          rw eq (
            inr (
              e,
              done (started t.claimed_at e),
              here,
              test,
              finished-found here,
              mark_row-IsFinished t.finished_at (t.generate (started t.claimed_at e))
                  (started t.claimed_at e),
            ))
      | inr other ↦ inl (finished-others j (λ same. ground arith))
    ],
  )

process_one-none :
    (t : Turn) (rows : List ReportExport)
    → claim_next t.claimed_at t.locked rows ≡ none
    → process_one t rows ≡ (rows, false)
unfolding process_one
process_one-none t rows h = rw (process_one, h) refl

process_one-some :
    (t : Turn) (rows : List ReportExport) {out : List ReportExport × ReportExport}
    → claim_next t.claimed_at t.locked rows ≡ some out
    → process_one t rows ≡ (finish t out.1 (t.during out.0), true)
unfolding process_one
process_one-some t rows h = rw (process_one, h) refl

process_one_lem :
    (t : Turn) (rows : List ReportExport)
    → IsAlone t
    → IsKeyed export_id rows
    → (((process_one t rows).1 ≡ false)
        × ((process_one t rows).0 ≡ rows)
        × (count (is_claimable t.locked) rows ≡ 0))
      ⊎ (((process_one t rows).1 ≡ true) × Advances rows (process_one t rows).0)
unfolding process_one
process_one_lem t rows alone keyed = elim (Option-cases (claim_next t.claimed_at t.locked rows)) [
  | inl e ↦
      rw (process_one-none t rows e)
        (inl (refl, refl, nothing_claimable t.claimed_at t.locked rows e))
  | inr (out, h) ↦
      let (e, here, test, oldest, job, table) = claimed_row t.claimed_at t.locked rows keyed h in
      let requested : is_requested e ≡ true = ground arith in
      let after : finish t out.1 (t.during out.0) ≡ finished t rows e =
        finish-eq-modify t out.1 (t.during out.0) ∙ rw (alone.1 out.0, job, table) refl in
      rw (process_one-some t rows h)
        (rw after (inr (refl, finished-Advances t rows e keyed here requested)))
]

none_requested :
    (t : Turn) (rows : List ReportExport)
    → IsAlone t
    → count (is_claimable t.locked) rows ≡ 0
    → count is_requested rows ≡ 0
none_requested t rows alone h =
    let less =
      count_mono is_requested (is_claimable t.locked) rows
        (λ x p. let free = alone.0 x.id in ground arith) in
    omega arith

Settled-trans : (x y z : Option ReportExport) → Settled x y → Settled y z → Settled x z
Settled-trans x y z (inl a) (inl b) = inl (b ∙ a)
Settled-trans x y z (inl a) (inr (e, d, before, test, after, f)) =
    inr (e, d, sym a ∙ before, test, after, f)
Settled-trans x y z (inr (e, d, before, test, after, f)) (inl b) =
    inr (e, d, before, test, b ∙ after, f)
Settled-trans x y z (inr (e, d, before, test, after, f))
      (inr (e', d', before', test', after', f')) =
    inr (e, d', before, test, after', f')

drain_stops :
    (fuel : ℕ) (turns : ℕ → Turn) (k : ℕ) (rows : List ReportExport)
    → (process_one (turns k) rows).1 ≡ false
    → drain (suc fuel) turns k rows ≡ some (process_one (turns k) rows).0
unfolding drain
drain_stops fuel turns k rows h = rw (drain, h) refl

drain_runs :
    (fuel : ℕ) (turns : ℕ → Turn) (k : ℕ) (rows : List ReportExport)
    → (process_one (turns k) rows).1 ≡ true
    → drain (suc fuel) turns k rows ≡ drain fuel turns (k + 1) (process_one (turns k) rows).0
unfolding drain
drain_runs fuel turns k rows h = rw (drain, h) refl

-- The inner loop of the worker ends after as many turns as there are requested exports, and one
-- more. No export is requested any more; each of those that were has a file or the reason why it has
-- none, and the other rows stay. This holds if the ids differ and no other session uses the table.
pub drain_finishes :
    (fuel : ℕ) (turns : ℕ → Turn) (k : ℕ) (rows : List ReportExport) (j : Uuid)
    → ((i : ℕ) → IsAlone (turns i))
    → IsKeyed export_id rows
    → count is_requested rows < fuel
    → (after : List ReportExport) × (drain fuel turns k rows ≡ some after)
      × (count is_requested after ≡ 0)
      × Settled (find export_id j rows) (find export_id j after)
unfolding drain
drain_finishes zero turns k rows j alone keyed h = absurd (omega arith)
drain_finishes (suc fuel) turns k rows j alone keyed h =
    elim (process_one_lem (turns k) rows (alone k) keyed) [
      | inl (stops, same, idle) ↦
          let ends = drain_stops fuel turns k rows stops ∙ ap some same in
          (rows, ends, none_requested (turns k) rows (alone k) idle, inl refl)
      | inr (runs, (next, fewer, settled)) ↦
          let (after, ends, empty, rest) =
            drain_finishes fuel turns (k + 1) (process_one (turns k) rows).0 j alone next
              (omega arith) in
          (
            after,
            drain_runs fuel turns k rows runs ∙ ends,
            empty,
            Settled-trans _ _ _ (settled j) rest,
          )
    ]
