-- ===== src/Semester/Service.antt =====
-- internal/semester/app/service.go and internal/semester/adapter/postgres/repo.go. Each transaction
-- is one step on the table of semesters and the audit log.
pub mod Single
use profundiza_uq_backend.Base.{
  ℕ, Bool, true, false, not, ◌&&◌, ◌||◌, Option, none, some, List, [], ◌∷◌, ◌++◌, Uuid, Time, ◌==◌,
  ltb, leb, is_some, Result, ok, err, guard, or_err, ◌>>=◌, ◌>>◌,
}
use profundiza_uq_backend.Base.Table.{find, select_one, modify_where}
use profundiza_uq_backend.Base.Text.{Text, text, text_eq, is_empty, byte_len}
use profundiza_uq_backend.Shared.Audit.{ActorType, Meta, Value, object, Row, uuid, name, write}

-- `Status`
pub data Status : Type 0 where
  draft active closed : Status

-- `Semester`
pub record Semester : Type 0 where
  pub id : Uuid
  pub code : Text
  pub name : Text
  pub starts_at : Time
  pub ends_at : Time
  pub status : Status
  pub created_at : Time
  pub updated_at : Time

-- `CreateInput`
pub record CreateInput : Type 0 where
  pub code : Text
  pub name : Text
  pub starts_at : Time
  pub ends_at : Time
  pub actor_id : Uuid

-- `conflict` is a unique index that refuses a row.
pub data SemesterError : Type 0 where
  not_found invalid conflict : SemesterError

pub record Tables : Type 0 where
  pub semesters : List Semester
  pub audit_events : List Row

abbrev pub is_current : Semester → Bool
is_current s = elim s.status [ active ↦ true | _ ↦ false ]

abbrev pub semester_id : Semester → Uuid
semester_id s = s.id

-- `audit.Write`, by an administrator.
abbrev audited : Meta → Uuid → Text → Uuid → List (Text × Value) → Text → List Row → List Row
audited m actor action id new_value reason log =
    write m
      (record {
        actor_type = ActorType.admin;
        actor_id = some actor;
        action = action;
        entity_type = text "Semester";
        entity_id = uuid id;
        previous_value = none;
        new_value = some (object new_value);
        reason = reason;
        ip_address = [];
        user_agent = [];
      })
      log

-- `GetActive`
unfoldable pub get_active : Tables → Option Semester
get_active db = select_one is_current db.semesters

-- `Get`
unfoldable pub get : Uuid → Tables → Result SemesterError Semester
get id db = or_err (find semester_id id db.semesters) not_found

unfoldable pub new_semester : Time → Uuid → CreateInput → Semester
new_semester now id i = record {
  id = id;
  code = i.code;
  name = i.name;
  starts_at = i.starts_at;
  ends_at = i.ends_at;
  status = draft;
  created_at = now;
  updated_at = now;
}

-- `Create`: the service's guard, and the INSERT behind the unique id and code.
unfoldable pub create_tx :
    Meta → Time → Uuid → CreateInput → Tables → Result SemesterError (Tables × Semester)
unfolding new_semester text
create_tx m now id i db = do
  guard (not (is_empty i.code || is_empty i.name || not (ltb i.starts_at i.ends_at))) invalid
  guard (not (is_some (find semester_id id db.semesters))) conflict
  guard (not (is_some (select_one (λ s. text_eq s.code i.code) db.semesters))) conflict
  ok (
    record {
      semesters = db.semesters ++ new_semester now id i ∷ [];
      audit_events =
          audited m i.actor_id (text "SEMESTER_CREATED") id
            ((text "code", name i.code) ∷ (text "name", name i.name) ∷ []) [] db.audit_events;
    },
    new_semester now id i,
  )

abbrev pub with_status : Status → Time → Semester → Semester
with_status status now s = record s { status = status; updated_at = now }

-- The first UPDATE of `Activate`.
unfoldable pub close_others : Time → Uuid → List Semester → List Semester
close_others now id semesters =
    modify_where (λ s. is_current s && not (s.id == id)) (with_status closed now) semesters

-- `UPDATE semesters SET status=... WHERE id=$1`
unfoldable pub set_status : Status → Time → Uuid → List Semester → List Semester
set_status status now id semesters =
    modify_where (λ s. s.id == id) (with_status status now) semesters

-- `Activate`
unfoldable pub activate_tx :
    Meta → Time → Uuid → Uuid → Tables → Result SemesterError (Tables × Semester)
unfolding close_others set_status text
activate_tx m now id actor db = do
  s ←
      or_err (find semester_id id (set_status active now id (close_others now id db.semesters)))
        not_found
  ok (
    record {
      semesters = set_status active now id (close_others now id db.semesters);
      audit_events =
          audited m actor (text "SEMESTER_ACTIVATED") id
            ((text "status", name (text "ACTIVE")) ∷ []) [] db.audit_events;
    },
    s,
  )

-- `Close`
unfoldable pub close_tx :
    Meta → Time → Uuid → Uuid → Text → Tables → Result SemesterError (Tables × Semester)
unfolding set_status text
close_tx m now id actor reason db = do
  guard (leb 3 (byte_len reason)) invalid
  s ← or_err (find semester_id id (set_status closed now id db.semesters)) not_found
  ok (
    record {
      semesters = set_status closed now id db.semesters;
      audit_events =
          audited m actor (text "SEMESTER_CLOSED") id ((text "status", name (text "CLOSED")) ∷ [])
            reason db.audit_events;
    },
    s,
  )

-- A transaction that fails is rolled back.
unfoldable pub committed :
    Tables → Result SemesterError (Tables × Semester) → Tables × Result SemesterError Semester
committed db (ok (db', s)) = (db', ok s)
committed db (err e) = (db, err e)
