-- ===== src/Catalog/Admin/Groups.antt =====
-- CreateGroup and UpdateGroup of internal/catalog/app/admin.go and
-- internal/catalog/adapter/postgres/admin_repo.go.
use profundiza_uq_backend.Base.{
  ℕ, ◌==◌, Bool, false, not, ◌&&◌, ◌||◌, Option, none, some, List, [], ◌∷◌, ◌++◌, Uuid, Time,
  is_some, leb, Result, ok, guard, or_err, ◌>>=◌, ◌>>◌,
}
use profundiza_uq_backend.Base.Int.{ℤ, to_ℕ?}
use profundiza_uq_backend.Base.Table.{find, select_one, modify}
use profundiza_uq_backend.Base.Text.{Text, text, is_empty, byte_len}
use profundiza_uq_backend.Enrollment.Database.{active, RowStatus}
use profundiza_uq_backend.Shared.Audit.{Meta, object, name, number}
use profundiza_uq_backend.Shared.Shift.{AcademicShift, valid}
use profundiza_uq_backend.Shared.Validation.{given}
use profundiza_uq_backend.Catalog.Admin.{
  Group, Tables, AdminError, invalid, not_found, database, StatusInput, group_key, offering_key,
  same_code, audited, status_or,
}

-- `CreateGroupInput`
pub record CreateGroupInput : Type 0 where
  pub offering_id : Uuid
  pub group_code : Text
  pub shift : AcademicShift
  pub teacher_name : Option Text
  pub schedule_text : Text
  pub capacity : ℤ
  pub reason : Text
  pub actor_id : Uuid

-- `UpdateGroupInput`
pub record UpdateGroupInput : Type 0 where
  pub id : Uuid
  pub group_code : Option Text
  pub teacher_name : Option Text
  pub schedule_text : Option Text
  pub status : Option StatusInput
  pub reason : Text
  pub actor_id : Uuid

unfoldable pub new_group : Time → Uuid → CreateGroupInput → ℕ → Group
new_group now id i capacity = record {
  id = id;
  offering_id = i.offering_id;
  group_code = i.group_code;
  shift = i.shift;
  teacher_name = i.teacher_name;
  schedule_text = i.schedule_text;
  capacity = capacity;
  status = active;
  created_at = now;
  updated_at = now;
}

-- The primary key or `uq_group_code_per_offering` refuses the row.
unfoldable pub is_taken : Group → List Group → Bool
is_taken g rows =
    is_some (find group_key g.id rows) || is_some (select_one (λ h. same_code h g) rows)

-- `CreateGroup`: a capacity that is negative is invalid.
unfoldable pub create_group :
    Meta → Time → Uuid → CreateGroupInput → Tables → Result AdminError (Tables × Group)
unfolding new_group is_taken audited text
create_group m now id i db = do
  capacity ← or_err (to_ℕ? i.capacity) invalid
  guard
      (not (is_empty i.group_code || is_empty i.schedule_text)
        && leb 3 (byte_len i.reason)
        && valid i.shift)
      invalid
  guard (not (is_taken (new_group now id i capacity) db.groups)) database
  guard (is_some (find offering_key i.offering_id db.offerings)) database
  ok (
    record db {
      groups = db.groups ++ new_group now id i capacity ∷ [];
      audit_events =
          audited m i.actor_id (text "GROUP_CREATED") (text "OfferingGroup") id
            (some (
              object
                ((text "groupCode", name i.group_code) ∷ (text "capacity", number capacity) ∷ [])))
            i.reason db.audit_events;
    },
    new_group now id i capacity,
  )

-- `COALESCE($3, teacher_name)`
abbrev pub or_old : Option Text → Option Text → Option Text
or_old old none = old
or_old old (some t) = some t

unfoldable pub updated_group : Time → UpdateGroupInput → RowStatus → Group → Group
updated_group now i status g = record g {
  group_code = given g.group_code i.group_code;
  teacher_name = or_old g.teacher_name i.teacher_name;
  schedule_text = given g.schedule_text i.schedule_text;
  status = status;
  updated_at = now;
}

-- Another group of the offering has the code already.
unfoldable pub clashes : Group → List Group → Bool
clashes g [] = false
clashes g (h ∷ rest) = (not (h.id == g.id) && same_code h g) || clashes g rest

-- `UpdateGroup`
unfoldable pub update_group :
    Meta → Time → UpdateGroupInput → Tables → Result AdminError (Tables × Group)
unfolding updated_group clashes audited text
update_group m now i db = do
  guard (leb 3 (byte_len i.reason)) invalid
  g ← or_err (find group_key i.id db.groups) not_found
  status ← or_err (status_or g.status i.status) database
  guard (not (clashes (updated_group now i status g) db.groups)) database
  ok (
    record db {
      groups = modify group_key i.id (updated_group now i status) db.groups;
      audit_events =
          audited m i.actor_id (text "GROUP_UPDATED") (text "OfferingGroup") i.id none i.reason
            db.audit_events;
    },
    updated_group now i status g,
  )
