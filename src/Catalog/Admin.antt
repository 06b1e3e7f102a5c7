-- ===== src/Catalog/Admin.antt =====
-- internal/catalog/app/admin.go and internal/catalog/adapter/postgres/admin_repo.go: the electives,
-- their prerequisites, the offerings and the groups. AdjustCapacity is in `Catalog.Capacity`.
pub mod Writes
pub mod Groups
pub mod Unique
pub mod Steps
pub mod Reach
use profundiza_uq_backend.Base.{
  ℕ, Bool, true, false, not, ◌&&◌, ◌||◌, Option, none, some, List, [], ◌∷◌, ◌++◌, Uuid, Time, ◌==◌,
  is_some, Result, ok, err, guard, or_err, ◌>>=◌, ◌>>◌,
}
use profundiza_uq_backend.Base.Table.{find, select, select_one, modify, order_by}
use profundiza_uq_backend.Base.Text.{Text, text, text_eq, is_empty}
use profundiza_uq_backend.Enrollment.Database.{RowStatus, active, inactive, closed, is_live}
use profundiza_uq_backend.Shared.Audit.{ActorType, Meta, Document, Row, object, name, uuid, write}
use profundiza_uq_backend.Shared.Shift.{AcademicShift}

-- `domain.Elective`
pub record Elective : Type 0 where
  pub id : Uuid
  pub name : Text
  pub area : Text
  pub description : Text
  pub status : RowStatus
  pub created_at : Time
  pub updated_at : Time

-- `PrerequisiteSource`: the values of the CHECK, and any other string.
pub data Source : Type 0 where
  elective_default offering_specific : Source
  other_source : Text → Source

-- A row of `prerequisites`, whose owner is an elective, or of `offering_prerequisites`, whose owner
-- is an offering.
pub record Prerequisite : Type 0 where
  pub id : Uuid
  pub owner : Uuid
  pub name : Text
  pub description : Text
  pub plan_type : Option Text
  pub source : Source
  pub status : RowStatus

pub record Offering : Type 0 where
  pub id : Uuid
  pub semester_id : Uuid
  pub elective_id : Uuid
  pub status : RowStatus

-- `domain.Group`, without the counts of its requests.
pub record Group : Type 0 where
  pub id : Uuid
  pub offering_id : Uuid
  pub group_code : Text
  pub shift : AcademicShift
  pub teacher_name : Option Text
  pub schedule_text : Text
  pub capacity : ℕ
  pub status : RowStatus
  pub created_at : Time
  pub updated_at : Time

pub record Tables : Type 0 where
  pub electives : List Elective
  pub prerequisites : List Prerequisite
  pub offerings : List Offering
  pub offering_prerequisites : List Prerequisite
  pub groups : List Group
  pub audit_events : List Row

-- `ErrAdminInvalid`, `ErrAdminNotFound`, `ErrAdminDuplicate`, and an error of the database that the
-- code passes on.
pub data AdminError : Type 0 where
  invalid not_found duplicate database : AdminError

-- `CreateElectiveInput`
pub record CreateElectiveInput : Type 0 where
  pub name : Text
  pub area : Text
  pub description : Text
  pub actor_id : Uuid

-- A status that a client sends, if it is one of the CHECK's.
abbrev pub StatusInput : Type 0
StatusInput = Option RowStatus

-- `UpdateElectiveInput`
pub record UpdateElectiveInput : Type 0 where
  pub id : Uuid
  pub name : Option Text
  pub area : Option Text
  pub description : Option Text
  pub status : Option StatusInput
  pub actor_id : Uuid

-- `CreatePrerequisiteInput`
pub record CreatePrerequisiteInput : Type 0 where
  pub elective_id : Uuid
  pub name : Text
  pub description : Text
  pub plan_type : Option Text
  pub actor_id : Uuid

-- `CreateOfferingInput`; `none` is an empty string.
pub record CreateOfferingInput : Type 0 where
  pub semester_id : Option Uuid
  pub elective_id : Option Uuid
  pub actor_id : Uuid

-- `CreateOfferingPrereqInput`; `none` is an empty source.
pub record CreateOfferingPrereqInput : Type 0 where
  pub offering_id : Uuid
  pub name : Text
  pub description : Text
  pub plan_type : Option Text
  pub source : Option Source
  pub actor_id : Uuid

abbrev pub elective_key : Elective → Uuid
elective_key e = e.id

abbrev pub prerequisite_key : Prerequisite → Uuid
prerequisite_key p = p.id

abbrev pub offering_key : Offering → Uuid
offering_key o = o.id

abbrev pub group_key : Group → Uuid
group_key g = g.id

-- `uq_prerequisites_active_name` and `uq_offering_prerequisites_active_name`
abbrev pub same_active_name : Prerequisite → Prerequisite → Bool
same_active_name p q =
    p.owner == q.owner && text_eq p.name q.name && is_live p.status && is_live q.status

-- `uq_offering_per_semester`
abbrev pub same_offering : Offering → Offering → Bool
same_offering o p = o.semester_id == p.semester_id && o.elective_id == p.elective_id

-- `uq_group_code_per_offering`
abbrev pub same_code : Group → Group → Bool
same_code g h = g.offering_id == h.offering_id && text_eq g.group_code h.group_code

-- `audit.Write`, by an administrator.
unfoldable pub audited :
    Meta → Uuid → Text → Text → Uuid → Option Document → Text → List Row → List Row
audited m actor action entity id next reason log =
    write m
      (record {
        actor_type = ActorType.admin;
        actor_id = some actor;
        action = action;
        entity_type = entity;
        entity_id = uuid id;
        previous_value = none;
        new_value = next;
        reason = reason;
        ip_address = [];
        user_agent = [];
      })
      log

-- The value of a patched status; `none` is a violation of the CHECK.
abbrev pub status_or : RowStatus → Option StatusInput → Option RowStatus
status_or s none = some s
status_or s (some t) = t

-- `inTx`: a transaction that fails is rolled back.
unfoldable pub in_tx {ℓ} :
    {A : Type ℓ} → Tables → Result AdminError (Tables × A) → Tables × Result AdminError A
in_tx db (ok (db', a)) = (db', ok a)
in_tx db (err e) = (db, err e)
