-- ===== src/Window/Service/Dates.antt =====
-- The windows that are stored begin before they end.
use profundiza_uq_backend.Base.{
  >>=-eq-ok, or_err-eq-ok, guard-eq-ok, or_err, guard, ◌<◌, ◌≡◌, refl, true, some, [], ◌∷◌, ◌++◌,
  arith, Uuid, Time, ltb, Result, ok, err,
}
use profundiza_uq_backend.Base.Table.{All, find, modify}
use profundiza_uq_backend.Base.Table.Laws.{All-insert}
use profundiza_uq_backend.Base.Table.Keys.{All-modify_found}
use profundiza_uq_backend.Shared.Audit.{Meta}
use profundiza_uq_backend.Window.Service.{
  Window, CreateInput, UpdateInput, WindowError, Tables, window_id, new_window, create_window,
  updated_window, update_window, commit, has_dates,
}

abbrev pub IsDated : Window → Type 0
IsDated w = w.starts_at < w.ends_at

pub data Step (db : Tables) : Tables → Type 0 where
  creates :
      (m : Meta) (now : Time) (id : Uuid) (i : CreateInput)
      → Step db (commit db (create_window m now id i db)).0
  updates :
      (m : Meta) (now : Time) (i : UpdateInput) → Step db (commit db (update_window m now i db)).0

pub data Reach (db : Tables) : Tables → Type 0 where
  here : Reach db db
  next : {t u : Tables} → Reach db t → Step t u → Reach db u

committed-IsDated :
    (db : Tables) (tx : Result WindowError (Tables × Window))
    → All IsDated db.windows
    → ((out : Tables × Window) → tx ≡ ok out → All IsDated out.0.windows)
    → All IsDated (commit db tx).0.windows
unfolding commit
committed-IsDated db (ok out) w h = h out refl
committed-IsDated db (err e) w h = w

begins_before : (a b : Time) → ltb a b ≡ true → a < b
begins_before a b h = ground arith

created :
    (m : Meta) (now : Time) (id : Uuid) (i : CreateInput) (db : Tables) (out : Tables × Window)
    → create_window m now id i db ≡ ok out
    → (semester : Uuid) × (i.starts_at < i.ends_at)
      × (out.0.windows ≡ db.windows ++ new_window now id semester i ∷ [])
unfolding create_window
created m now id i db out h =
    let (semester, given, h₁) = >>=-eq-ok (or_err i.semester_id _) _ h in
    (semester, ground arith, ground arith)

updated :
    (m : Meta) (now : Time) (i : UpdateInput) (db : Tables) (out : Tables × Window)
    → update_window m now i db ≡ ok out
    → (w : Window) × (find window_id i.id db.windows ≡ some w)
      × IsDated (updated_window now i w)
      × (out.0.windows ≡ modify window_id i.id (updated_window now i) db.windows)
unfolding update_window
updated m now i db out h =
    let (w, found, h₁) = >>=-eq-ok (or_err (find window_id i.id db.windows) _) _ h in
    let (u, dated, h₂) = >>=-eq-ok (guard (has_dates (updated_window now i w)) _) _ h₁ in
    let passes = guard-eq-ok (has_dates (updated_window now i w)) _ dated in
    (w, or_err-eq-ok _ _ found, begins_before _ _ passes, ground arith)

Step-IsDated : {db db' : Tables} → Step db db' → All IsDated db.windows → All IsDated db'.windows
Step-IsDated {db} (creates m now id i) w =
    committed-IsDated db (create_window m now id i db) w (λ out h.
      let (semester, dated, rows) = created m now id i db out h in
      rw rows (All-insert IsDated db.windows (new_window now id semester i) w dated))
Step-IsDated {db} (updates m now i) w = committed-IsDated db (update_window m now i db) w (λ out h.
    let (old, found, dated, rows) = updated m now i db out h in
    rw rows
      (All-modify_found IsDated window_id i.id (updated_window now i) db.windows found dated w))

-- Whatever windows are created and updated, and in any order, each stored window begins before it
-- ends, if the windows at the start do.
pub Reach-IsDated :
    {db db' : Tables} → Reach db db' → All IsDated db.windows → All IsDated db'.windows
Reach-IsDated here w = w
Reach-IsDated (next path step) w = Step-IsDated step (Reach-IsDated path w)
