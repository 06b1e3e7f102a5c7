-- ===== src/Window/Service.antt =====
-- internal/window/app/service.go and internal/window/adapter/postgres/repo.go. The semester that a
-- new window names is taken to exist: the foreign key is not modelled.
pub mod Dates
use profundiza_uq_backend.Base.{
  Bool, true, false, not, ◌||◌, Option, none, some, List, [], ◌∷◌, ◌++◌, Uuid, Time, ltb, is_some,
  Result, ok, err, guard, or_err, ◌>>=◌, ◌>>◌,
}
use profundiza_uq_backend.Base.Table.{find, modify}
use profundiza_uq_backend.Base.Text.{Text, text, is_empty}
use profundiza_uq_backend.Shared.Shift.{AcademicShift}
use profundiza_uq_backend.Shared.Audit.{ActorType, Meta, Row, object, name, uuid, write}
use profundiza_uq_backend.Enrollment.Database.{RowStatus, active}

-- `Window`
pub record Window : Type 0 where
  pub id : Uuid
  pub semester_id : Uuid
  pub name : Text
  pub starts_at : Time
  pub ends_at : Time
  pub target_shift : Option AcademicShift
  pub status : RowStatus
  pub created_at : Time
  pub updated_at : Time

-- `CreateInput`; an empty semester id is `none`.
pub record CreateInput : Type 0 where
  pub semester_id : Option Uuid
  pub name : Text
  pub starts_at : Time
  pub ends_at : Time
  pub target_shift : Option AcademicShift
  pub actor_id : Uuid

-- `UpdateInput`; a field that is not given is `none`.
pub record UpdateInput : Type 0 where
  pub id : Uuid
  pub name : Option Text
  pub starts_at : Option Time
  pub ends_at : Option Time
  pub target_shift : Option AcademicShift
  pub status : Option RowStatus
  pub actor_id : Uuid

-- `check_failed` is the constraint `window_dates_valid`, `conflict` the primary key.
pub data WindowError : Type 0 where
  not_found invalid check_failed conflict : WindowError

pub record Tables : Type 0 where
  pub windows : List Window
  pub audit_events : List Row

abbrev pub window_id : Window → Uuid
window_id w = w.id

abbrev pub has_dates : Window → Bool
has_dates w = ltb w.starts_at w.ends_at

-- `Get`
unfoldable pub get : Uuid → Tables → Result WindowError Window
get id db = or_err (find window_id id db.windows) not_found

abbrev pub new_window : Time → Uuid → Uuid → CreateInput → Window
new_window now id semester i = record {
  id = id;
  semester_id = semester;
  name = i.name;
  starts_at = i.starts_at;
  ends_at = i.ends_at;
  target_shift = i.target_shift;
  status = active;
  created_at = now;
  updated_at = now;
}

-- `Create`: the service's guard, then the transaction.
unfoldable pub create_window :
    Meta → Time → Uuid → CreateInput → Tables → Result WindowError (Tables × Window)
unfolding text
create_window m now id i db = do
  semester ← or_err i.semester_id invalid
  guard (not (is_empty i.name || not (ltb i.starts_at i.ends_at))) invalid
  guard (not (is_some (find window_id id db.windows))) conflict
  ok (
    record {
      windows = db.windows ++ new_window now id semester i ∷ [];
      audit_events =
          write m
            (record {
              actor_type = ActorType.admin;
              actor_id = some i.actor_id;
              action = text "WINDOW_CREATED";
              entity_type = text "EnrollmentWindow";
              entity_id = uuid id;
              previous_value = none;
              new_value =
                  some
                    (object ((text "semesterId", uuid semester) ∷ (text "name", name i.name) ∷ []));
              reason = [];
              ip_address = [];
              user_agent = [];
            })
            db.audit_events;
    },
    new_window now id semester i,
  )

-- `COALESCE($n, column)`
abbrev pub coalesce {ℓ} : {A : Type ℓ} → Option A → A → A
coalesce none column = column
coalesce (some a) column = a

abbrev pub coalesce_null {ℓ} : {A : Type ℓ} → Option A → Option A → Option A
coalesce_null none column = column
coalesce_null (some a) column = some a

-- The SET clause of the UPDATE.
abbrev pub updated_window : Time → UpdateInput → Window → Window
updated_window now i w = record w {
  name = coalesce i.name w.name;
  starts_at = coalesce i.starts_at w.starts_at;
  ends_at = coalesce i.ends_at w.ends_at;
  target_shift = coalesce_null i.target_shift w.target_shift;
  status = coalesce i.status w.status;
  updated_at = now;
}

-- `Update`
unfoldable pub update_window :
    Meta → Time → UpdateInput → Tables → Result WindowError (Tables × Window)
unfolding text
update_window m now i db = do
  w ← or_err (find window_id i.id db.windows) not_found
  guard (has_dates (updated_window now i w)) check_failed
  ok (
    record {
      windows = modify window_id i.id (updated_window now i) db.windows;
      audit_events =
          write m
            (record {
              actor_type = ActorType.admin;
              actor_id = some i.actor_id;
              action = text "WINDOW_UPDATED";
              entity_type = text "EnrollmentWindow";
              entity_id = uuid i.id;
              previous_value = none;
              new_value = none;
              reason = [];
              ip_address = [];
              user_agent = [];
            })
            db.audit_events;
    },
    updated_window now i w,
  )

-- A transaction that fails is rolled back.
unfoldable pub commit :
    Tables → Result WindowError (Tables × Window) → Tables × Result WindowError Window
commit db (ok (db', w)) = (db', ok w)
commit db (err e) = (db, err e)
