-- ===== src/System/Reach.antt =====
-- Any number of sessions that submit, cancel, decide and resize groups, in any order.
use profundiza_uq_backend.Base.{
  ℕ, ◌≤◌, ◌≡◌, refl, ◌≢◌, sym, ◌∙◌, ◌⊎◌, inl, inr, true, false, some, arith, ok, err, Result-cases,
  >>=-eq-ok, or_err, or_err-eq-ok, guard, leb, ltb, ◌^◌, ◌==◌, Bool-cases,
}
use profundiza_uq_backend.Base.Table.{is_in, count, find, length}
use profundiza_uq_backend.Base.Table.Laws.{find-modify_self, find-modify_ne}
use profundiza_uq_backend.Base.Text.{byte_len, btrim}
use profundiza_uq_backend.Base.Int.{to_ℕ?}
use profundiza_uq_backend.Shared.Audit.{Meta}
use profundiza_uq_backend.Enrollment.Database.{OfferingGroup, Database, group_id, seated_in}
use profundiza_uq_backend.Enrollment.Submit.{Session, SubmitInput, submit_tx}
use profundiza_uq_backend.Enrollment.Cancel.{CancelInput, cancel}
use profundiza_uq_backend.Review.Decide.{DecisionInput, decide}
use profundiza_uq_backend.Catalog.Capacity.{
  AdjustCapacityInput, resized, adjust_writes, adjust_tx, adjust_capacity,
}
use profundiza_uq_backend.System.Changes.{submit_tx-Change, cancel-Change, decide-Change}
use profundiza_uq_backend.System.Invariant.{IsSeated, Inv, Change-Inv}

-- The new capacity holds the accepted requests of the group.
abbrev pub HoldsAccepted : AdjustCapacityInput → Database → Type 0
HoldsAccepted i db =
    (n : ℕ) → to_ℕ? i.new_capacity ≡ some n → count (seated_in i.group_id) db.requests ≤ n

pub data Step (db : Database) : Database → Type 0 where
  submits : (s : Session) (i : SubmitInput) → Step db (submit_tx s i db).0
  cancels : (s : Session) (i : CancelInput) → Step db (cancel s i db).0
  decides : (s : Session) (i : DecisionInput) → Step db (decide s i db).0
  resizes :
      (m : Meta) (i : AdjustCapacityInput) → HoldsAccepted i db → Step db (adjust_capacity m i db).0

pub data Reach (db : Database) : Database → Type 0 where
  here : Reach db db
  next : {t u : Database} → Reach db t → Step t u → Reach db u

-- What a resize that commits has read.
pub record IsResized (m : Meta) (i : AdjustCapacityInput) (db : Database)
    (out : Database × OfferingGroup) : Type 0 where
  pub capacity : ℕ
  pub group : OfferingGroup
  pub given : to_ℕ? i.new_capacity ≡ some capacity
  pub found : find group_id i.group_id db.groups ≡ some group
  pub written : out ≡ (adjust_writes m i capacity group db, resized capacity group)

pub adjust_tx-IsResized :
    (m : Meta) (i : AdjustCapacityInput) (db : Database) (out : Database × OfferingGroup)
    → adjust_tx m i db ≡ ok out
    → IsResized m i db out
unfolding adjust_tx
adjust_tx-IsResized m i db out h =
    let (n, hn, h₁) = >>=-eq-ok (or_err (to_ℕ? i.new_capacity) _) _ h in
    let (u, hu, h₂) = >>=-eq-ok (guard (leb 3 (byte_len i.reason)) _) _ h₁ in
    let (g, hg, h₃) = >>=-eq-ok (or_err (find group_id i.group_id db.groups) _) _ h₂ in
    let (fits, hf, h₄) = >>=-eq-ok (guard (ltb n (2 ^ 31)) _) _ h₃ in
    let (v, hv, h₅) = >>=-eq-ok (guard (leb 3 (length (btrim i.reason))) _) _ h₄ in
    let (w, hw, h₆) = >>=-eq-ok (guard (is_in db.admins i.actor_id) _) _ h₅ in
    record {
      capacity = n;
      group = g;
      given = or_err-eq-ok _ _ hn;
      found = or_err-eq-ok _ _ hg;
      written = ground arith;
    }

pub adjust_commits :
    (m : Meta) (i : AdjustCapacityInput) (db : Database) (out : _)
    → adjust_tx m i db ≡ ok out
    → adjust_capacity m i db ≡ (out.0, ok out.1)
unfolding adjust_capacity
adjust_commits m i db out h = ground arith

pub adjust_rolls_back :
    (m : Meta) (i : AdjustCapacityInput) (db : Database) (e : _)
    → adjust_tx m i db ≡ err e
    → adjust_capacity m i db ≡ (db, err e)
unfolding adjust_capacity
adjust_rolls_back m i db e h = ground arith

capacity_of_resized :
    (n : ℕ) (old g : OfferingGroup) → some (resized n old) ≡ some g → g.capacity ≡ n
capacity_of_resized n old g h = ground arith

ne_of_test : (a b : ℕ) → (a == b) ≡ false → a ≢ b
ne_of_test a b h = ground arith

eq_of_test : (a b : ℕ) → (a == b) ≡ true → a ≡ b
eq_of_test a b h = ground arith

adjust_writes-IsSeated :
    (m : Meta) (i : AdjustCapacityInput) (n : ℕ) (old : OfferingGroup) (db : Database)
    → find group_id i.group_id db.groups ≡ some old
    → count (seated_in i.group_id) db.requests ≤ n
    → IsSeated db
    → IsSeated (adjust_writes m i n old db)
unfolding adjust_writes
adjust_writes-IsSeated m i n old db found fits h id g e = elim (Bool-cases (id == i.group_id)) [
  | inl same ↦
      let hit = find-modify_self group_id i.group_id (resized n) db.groups refl found in
      let at_group = eq_of_test _ _ same in
      let capacity = capacity_of_resized n old g (sym hit ∙ (rw at_group at e)) in
      rw (at_group, capacity) fits
  | inr other ↦ h id g (
      sym (
        find-modify_ne group_id id i.group_id (resized n) db.groups (λ r. refl)
          (ne_of_test _ _ other))
      ∙ e)
]

-- A resize touches neither the requests nor the sequence.
pub adjust_writes_requests :
    (m : Meta) (i : AdjustCapacityInput) (n : ℕ) (old : OfferingGroup) (db : Database)
    → ((adjust_writes m i n old db).requests ≡ db.requests)
      × ((adjust_writes m i n old db).arrival_seq ≡ db.arrival_seq)
unfolding adjust_writes
adjust_writes_requests m i n old db = (refl, refl)

adjust-Inv_of :
    (m : Meta) (i : AdjustCapacityInput) (db : Database)
    → HoldsAccepted i db
    → Inv db
    → ((out : _) × (adjust_tx m i db ≡ ok out)) ⊎ ((e : _) × (adjust_tx m i db ≡ err e))
    → Inv (adjust_capacity m i db).0
adjust-Inv_of m i db fits h (inr (e, failed)) = rw (adjust_rolls_back m i db e failed) h
adjust-Inv_of m i db fits h (inl (out, done)) =
    let r = adjust_tx-IsResized m i db out done in
    let (rows, seq) = adjust_writes_requests m i r.capacity r.group db in
    let resized-Inv : Inv (adjust_writes m i r.capacity r.group db) = record {
      capped = rw rows h.capped;
      seated =
          adjust_writes-IsSeated m i r.capacity r.group db r.found (fits r.capacity r.given)
            h.seated;
      arranged = rw (rows, seq) h.arranged;
    } in
    rw (adjust_commits m i db out done, r.written) resized-Inv

pub Step-Inv : {t u : Database} → Step t u → Inv t → Inv u
Step-Inv {t} (submits s i) h = Change-Inv t (submit_tx s i t).0 (submit_tx-Change s i t) h
Step-Inv {t} (cancels s i) h = Change-Inv t (cancel s i t).0 (cancel-Change s i t) h
Step-Inv {t} (decides s i) h = Change-Inv t (decide s i t).0 (decide-Change s i t) h
Step-Inv {t} (resizes m i fits) h = adjust-Inv_of m i t fits h (Result-cases (adjust_tx m i t))

-- Start from a database that satisfies the invariant and let any sessions submit, cancel, decide
-- and resize groups in any order, where no group is resized below its accepted requests. Then at
-- every moment no student has more than four active requests in a semester, no group has more
-- accepted requests than seats, and the arrival numbers rise strictly in the order of insertion.
pub Reach-Inv : {db db' : Database} → Reach db db' → Inv db → Inv db'
Reach-Inv here h = h
Reach-Inv (next r st) h = Step-Inv st (Reach-Inv r h)
