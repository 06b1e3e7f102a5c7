-- ===== src/Semester/Service/Single.antt =====
-- At most one semester is ACTIVE.
use profundiza_uq_backend.Base.{
  ◌≤◌, ◌≡◌, refl, ◌∙◌, inl, inr, Bool, true, false, not, ◌&&◌, ◌||◌, none, some, List, [], ◌∷◌,
  ◌++◌, arith, Uuid, Time, ◌==◌, if◌then◌else◌, Result, ok, err, Bool-cases, ==_iff, is_some,
}
use mathlib.Core.Path.{subst}
use profundiza_uq_backend.Base.Table.{count, find, modify_where, tally-le_one}
use profundiza_uq_backend.Base.Table.Laws.{count-insert, key-find}
use profundiza_uq_backend.Base.Text.{Text}
use profundiza_uq_backend.Shared.Audit.{Meta}
use profundiza_uq_backend.Semester.Service.{
  Status, active, closed, Semester, CreateInput, SemesterError, not_found, Tables, is_current,
  semester_id, new_semester, create_tx, with_status, close_others, set_status, activate_tx,
  close_tx, committed,
}

abbrev has_id : Uuid → Semester → Bool
has_id id s = s.id == id

-- An UPDATE whose rows that pass `p` passed `r` before.
count-update :
    (p q r : Semester → Bool) (f : Semester → Semester) (xs : List Semester)
    → ((s : Semester) → p (if q s then f s else s) ≡ true → r s ≡ true)
    → count p (modify_where q f xs) ≤ count r xs
unfolding count modify_where
count-update p q r f [] h = omega arith
count-update p q r f (x ∷ xs) h =
    let ih = count-update p q r f xs h in
    let at = h x in
    elim (Bool-cases (p (if q x then f x else x))) [
      | inl e ↦ rw (e, at e) (omega arith)
      | inr e ↦ rw e (omega arith)
    ]

-- The ids are a key, and at most one semester is ACTIVE.
pub record IsSingle (semesters : List Semester) : Type 0 where
  pub keyed : (id : Uuid) → count (has_id id) semesters ≤ 1
  pub single : count is_current semesters ≤ 1

set_status-keyed :
    (status : Status) (now : Time) (id k : Uuid) (xs : List Semester)
    → count (has_id k) (set_status status now id xs) ≤ count (has_id k) xs
unfolding set_status
set_status-keyed status now id k xs = count-update _ _ _ _ xs (λ s h. ground arith)

close_others-keyed :
    (now : Time) (id k : Uuid) (xs : List Semester)
    → count (has_id k) (close_others now id xs) ≤ count (has_id k) xs
unfolding close_others
close_others-keyed now id k xs = count-update _ _ _ _ xs (λ s h. ground arith)

activated_count :
    (now : Time) (id : Uuid) (xs : List Semester)
    → count is_current (set_status active now id (close_others now id xs)) ≤ count (has_id id) xs
unfolding set_status close_others
activated_count now id xs =
    let second =
      count-update is_current (has_id id) (λ s. has_id id s || is_current s)
        (with_status active now) (close_others now id xs) (λ s h. ground arith) in
    let first =
      count-update (λ s. has_id id s || is_current s) (λ s. is_current s && not (s.id == id))
        (has_id id) (with_status closed now) xs (λ s h. ground arith) in
    omega arith

closed_count :
    (now : Time) (id : Uuid) (xs : List Semester)
    → count is_current (set_status closed now id xs) ≤ count is_current xs
unfolding set_status
closed_count now id xs = count-update _ _ _ _ xs (λ s h. ground arith)

missing_count :
    (id : Uuid) (xs : List Semester)
    → is_some (find semester_id id xs) ≡ false
    → count (has_id id) xs ≡ 0
unfolding find count
missing_count id [] h = refl
missing_count id (x ∷ xs) h = ground (arith, missing_count id xs)

insert-IsSingle :
    (now : Time) (id : Uuid) (i : CreateInput) (xs : List Semester)
    → is_some (find semester_id id xs) ≡ false
    → IsSingle xs
    → IsSingle (xs ++ new_semester now id i ∷ [])
unfolding new_semester
insert-IsSingle now id i xs fresh w = record {
  keyed = λ k.
      let counted = count-insert (has_id k) xs (new_semester now id i) in
      let bound = w.keyed k in
      let absent = missing_count id xs fresh in
      elim (Bool-cases (id == k)) [
        | inl e ↦
            let none_yet : count (has_id k) xs ≡ 0 =
              subst (λ x. count (has_id x) xs ≡ 0) ((==_iff id k).0 e) absent in
            rw counted (let one = tally-le_one (id == k) in omega arith)
        | inr e ↦ rw (counted, e) (omega arith)
      ];
  single =
      let counted = count-insert is_current xs (new_semester now id i) in
      let bound = w.single in rw counted (omega arith);
}

activate-IsSingle :
    (now : Time) (id : Uuid) (xs : List Semester)
    → IsSingle xs
    → IsSingle (set_status active now id (close_others now id xs))
activate-IsSingle now id xs w = record {
  keyed = λ k.
      let first = close_others-keyed now id k xs in
      let second = set_status-keyed active now id k (close_others now id xs) in
      let bound = w.keyed k in omega arith;
  single = let h = activated_count now id xs in let bound = w.keyed id in omega arith;
}

close-IsSingle :
    (now : Time) (id : Uuid) (xs : List Semester)
    → IsSingle xs
    → IsSingle (set_status closed now id xs)
close-IsSingle now id xs w = record {
  keyed = λ k. let h = set_status-keyed closed now id k xs in let bound = w.keyed k in omega arith;
  single = let h = closed_count now id xs in let bound = w.single in omega arith;
}

create_tx-semesters :
    (m : Meta) (now : Time) (id : Uuid) (i : CreateInput) (db : Tables) (out : Tables × Semester)
    → create_tx m now id i db ≡ ok out
    → (is_some (find semester_id id db.semesters) ≡ false)
      × (out.0.semesters ≡ db.semesters ++ new_semester now id i ∷ [])
unfolding create_tx
create_tx-semesters m now id i db out h = (ground arith, ground arith)

activate_tx-semesters :
    (m : Meta) (now : Time) (id actor : Uuid) (db : Tables) (out : Tables × Semester)
    → activate_tx m now id actor db ≡ ok out
    → out.0.semesters ≡ set_status active now id (close_others now id db.semesters)
unfolding activate_tx
activate_tx-semesters m now id actor db out h = ground arith

close_tx-semesters :
    (m : Meta) (now : Time) (id actor : Uuid) (reason : Text) (db : Tables)
    (out : Tables × Semester)
    → close_tx m now id actor reason db ≡ ok out
    → out.0.semesters ≡ set_status closed now id db.semesters
unfolding close_tx
close_tx-semesters m now id actor reason db out h = ground arith

-- What the service may do to the semesters.
pub data Step (db : Tables) : Tables → Type 0 where
  creates :
      (m : Meta) (now : Time) (id : Uuid) (i : CreateInput)
      → Step db (committed db (create_tx m now id i db)).0
  activates :
      (m : Meta) (now : Time) (id actor : Uuid)
      → Step db (committed db (activate_tx m now id actor db)).0
  closes :
      (m : Meta) (now : Time) (id actor : Uuid) (reason : Text)
      → Step db (committed db (close_tx m now id actor reason db)).0

pub data Reach (db : Tables) : Tables → Type 0 where
  here : Reach db db
  next : {t u : Tables} → Reach db t → Step t u → Reach db u

-- A transaction keeps the invariant when what it commits has it.
committed-IsSingle :
    (db : Tables) (tx : Result SemesterError (Tables × Semester))
    → IsSingle db.semesters
    → ((out : Tables × Semester) → tx ≡ ok out → IsSingle out.0.semesters)
    → IsSingle (committed db tx).0.semesters
unfolding committed
committed-IsSingle db (ok out) w h = h out refl
committed-IsSingle db (err e) w h = w

Step-IsSingle : {db db' : Tables} → Step db db' → IsSingle db.semesters → IsSingle db'.semesters
Step-IsSingle {db} (creates m now id i) w =
    committed-IsSingle db (create_tx m now id i db) w (λ out h.
      let (fresh, rows) = create_tx-semesters m now id i db out h in
      rw rows (insert-IsSingle now id i db.semesters fresh w))
Step-IsSingle {db} (activates m now id actor) w =
    committed-IsSingle db (activate_tx m now id actor db) w (λ out h.
      rw (activate_tx-semesters m now id actor db out h) (activate-IsSingle now id db.semesters w))
Step-IsSingle {db} (closes m now id actor reason) w =
    committed-IsSingle db (close_tx m now id actor reason db) w (λ out h.
      rw (close_tx-semesters m now id actor reason db out h) (close-IsSingle now id db.semesters w))

-- Whatever semesters are created, activated and closed, and in any order, the ids stay a key and at
-- most one semester is ACTIVE.
pub Reach-IsSingle :
    {db db' : Tables} → Reach db db' → IsSingle db.semesters → IsSingle db'.semesters
Reach-IsSingle here w = w
Reach-IsSingle (next path step) w = Step-IsSingle step (Reach-IsSingle path w)

find-where :
    (id : Uuid) (q : Semester → Bool) (f : Semester → Semester) (xs : List Semester)
    → ((s : Semester) → (f s).id ≡ s.id)
    → find semester_id id (modify_where q f xs)
      ≡ elim (find semester_id id xs) [ none ↦ none | some s ↦ some (if q s then f s else s) ]
unfolding find modify_where
find-where id q f [] keeps = refl
find-where id q f (x ∷ xs) keeps =
    let ih = find-where id q f xs keeps in let e = keeps x in ground arith

activated_row :
    (now : Time) (id : Uuid) (xs : List Semester)
    → ((s : Semester)
        → find semester_id id xs ≡ some s
        → find semester_id id (set_status active now id (close_others now id xs))
          ≡ some (with_status active now s))
      × (find semester_id id xs ≡ none
          → find semester_id id (set_status active now id (close_others now id xs)) ≡ none)
unfolding close_others set_status
activated_row now id xs =
    let closing =
      find-where id (λ s. is_current s && not (s.id == id)) (with_status closed now) xs
        (λ s. refl) in
    let opening =
      find-where id (λ s. s.id == id) (with_status active now) (close_others now id xs)
        (λ s. refl) in
    (
      λ s found.
          let same : s.id ≡ id = key-find semester_id id xs found in
          let kept : find semester_id id (close_others now id xs) ≡ some s =
            closing ∙ rw found (ground arith) in
          opening ∙ rw kept (ground arith),
      λ absent.
          let kept : find semester_id id (close_others now id xs) ≡ none =
            closing ∙ rw absent refl in
          opening ∙ rw kept refl,
    )

-- An activation of a semester that exists commits, and makes it ACTIVE.
pub activate_lem :
    (m : Meta) (now : Time) (id actor : Uuid) (db : Tables) (s : Semester)
    → find semester_id id db.semesters ≡ some s
    → find semester_id id (committed db (activate_tx m now id actor db)).0.semesters
      ≡ some (with_status active now s)
unfolding committed activate_tx
activate_lem m now id actor db s found =
    let active_row = (activated_row now id db.semesters).0 s found in rw active_row active_row

-- An activation of a semester that does not exist reports `not_found`, and leaves the tables as they
-- were, the semester that was ACTIVE included.
pub activate_missing :
    (m : Meta) (now : Time) (id actor : Uuid) (db : Tables)
    → find semester_id id db.semesters ≡ none
    → committed db (activate_tx m now id actor db) ≡ (db, err not_found)
unfolding committed activate_tx
activate_missing m now id actor db absent = rw ((activated_row now id db.semesters).1 absent) refl
