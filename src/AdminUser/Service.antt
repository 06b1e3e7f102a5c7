-- ===== src/AdminUser/Service.antt =====
-- internal/adminuser/app/service.go and internal/adminuser/adapter/postgres/repo.go. Each transaction
-- is one step on the table of administrators and the audit log.
pub mod Effects
use profundiza_uq_backend.Base.{
  ℕ, Bool, true, false, not, ◌&&◌, ◌||◌, Option, none, some, List, [], ◌∷◌, ◌++◌, Uuid, Time, ◌==◌,
  ltb, if◌then◌else◌, is_some, Result, ok, err, guard, or_err, ◌>>=◌, ◌>>◌,
}
use profundiza_uq_backend.Base.Int.{ℤ}
use profundiza_uq_backend.Base.Table.{
  find, select, select_one, modify, count, limit, skip, order_by,
}
use profundiza_uq_backend.Base.Text.{Text, text, text_eq}
use profundiza_uq_backend.Shared.Audit.{
  ActorType, Meta, Document, object, Row, name, number, uuid, write,
}
use profundiza_uq_backend.Shared.Paging.{page_of, page_size_of, offset_of}
use profundiza_uq_backend.Shared.Validation.{ValidationError, if_given, given}
use profundiza_uq_backend.AdminUser.Domain.{
  Role, admin, super_admin, other_role, Status, active, inactive, other_status, valid_role,
  valid_status, AdminUser, NewAdminUser, validate, AdminUserPatch, validate_patch,
}

-- `ErrNotFound`, `ErrEmailTaken`, the errors of the domain, and what the database refuses.
pub data AdminUserError : Type 0 where
  not_found email_taken database : AdminUserError
  invalid : ValidationError → AdminUserError

-- `Actor`; an empty type is SYSTEM, which is resolved before.
pub record Actor : Type 0 where
  pub kind : ActorType
  pub id : Option Uuid

pub record Tables : Type 0 where
  pub admin_users : List AdminUser
  pub audit_events : List Row

abbrev pub admin_id : AdminUser → Uuid
admin_id u = u.id

abbrev pub same_email : AdminUser → AdminUser → Bool
same_email u v = text_eq u.institutional_email v.institutional_email

abbrev pub role_name : Role → Text
role_name admin = text "ADMIN"
role_name super_admin = text "SUPER_ADMIN"
role_name (other_role s) = s

abbrev pub status_name : Status → Text
status_name active = text "ACTIVE"
status_name inactive = text "INACTIVE"
status_name (other_status s) = s

-- An administrator in an audit document.
unfoldable pub admin_document : AdminUser → Document
unfolding text
admin_document u = object (
    (text "ID", uuid u.id)
    ∷ (text "InstitutionalEmail", name u.institutional_email)
    ∷ (text "FullName", name u.full_name)
    ∷ (text "Role", name (role_name u.role))
    ∷ (text "Status", name (status_name u.status))
    ∷ (text "CreatedAt", number u.created_at)
    ∷ (text "UpdatedAt", number u.updated_at)
    ∷ [])

-- `writeAudit`
unfoldable pub write_audit :
    Meta → Actor → Text → Uuid → Option Document → Option Document → List Row → List Row
unfolding text
write_audit m actor action id previous next log =
    write m
      (record {
        actor_type = actor.kind;
        actor_id = actor.id;
        action = action;
        entity_type = text "ADMIN_USER";
        entity_id = uuid id;
        previous_value = previous;
        new_value = next;
        reason = [];
        ip_address = [];
        user_agent = [];
      })
      log

unfoldable pub new_admin : Time → Uuid → NewAdminUser → AdminUser
new_admin now id i = record {
  id = id;
  institutional_email = i.institutional_email;
  full_name = i.full_name;
  role = i.role;
  status = active;
  created_at = now;
  updated_at = now;
}

-- The row meets one of the unique columns. `mapWriteErr` gives each the same error.
unfoldable pub is_taken : AdminUser → List AdminUser → Bool
is_taken u rows =
    is_some (find admin_id u.id rows) || is_some (select_one (λ v. same_email v u) rows)

-- `Repo.Create`: the INSERT behind the CHECK and the unique columns, and its audit event.
unfoldable pub insert_admin :
    Meta → Time → Uuid → NewAdminUser → Actor → Tables → Result AdminUserError (Tables × AdminUser)
unfolding new_admin is_taken write_audit admin_document text
insert_admin m now id i actor db = do
  guard (valid_role i.role) database
  guard (not (is_taken (new_admin now id i) db.admin_users)) email_taken
  ok (
    record {
      admin_users = db.admin_users ++ new_admin now id i ∷ [];
      audit_events =
          write_audit m actor (text "ADMIN_USER_CREATED") id none
            (some (admin_document (new_admin now id i))) db.audit_events;
    },
    new_admin now id i,
  )

abbrev pub checked : Result ValidationError (Unit {0}) → Result AdminUserError (Unit {0})
checked (ok u) = ok u
checked (err e) = err (invalid e)

-- `Service.Create`
unfoldable pub create :
    Meta → Time → Uuid → NewAdminUser → Actor → Tables → Result AdminUserError (Tables × AdminUser)
unfolding insert_admin validate
create m now id i actor db = checked (validate i) >> insert_admin m now id i actor db

-- `set == ""`
unfoldable pub is_empty_patch : AdminUserPatch → Bool
is_empty_patch p = not (is_some p.full_name) && not (is_some p.role) && not (is_some p.status)

-- The UPDATE of a patch that is not empty.
unfoldable pub patched : Time → AdminUserPatch → AdminUser → AdminUser
unfolding is_empty_patch
patched now p u = if is_empty_patch p then u else record u {
  full_name = given u.full_name p.full_name;
  role = given u.role p.role;
  status = given u.status p.status;
  updated_at = now;
}

-- `Repo.Update`: the CHECKs refuse a role or a status that a patch brings in.
unfoldable pub update_admin :
    Meta
    → Time
    → Uuid
    → AdminUserPatch
    → Actor
    → Tables
    → Result AdminUserError (Tables × AdminUser)
unfolding patched write_audit admin_document text
update_admin m now id p actor db = do
  before ← or_err (find admin_id id db.admin_users) not_found
  guard (if_given valid_role p.role && if_given valid_status p.status) database
  ok (
    record {
      admin_users = modify admin_id id (patched now p) db.admin_users;
      audit_events =
          write_audit m actor (text "ADMIN_USER_UPDATED") id (some (admin_document before))
            (some (admin_document (patched now p before))) db.audit_events;
    },
    patched now p before,
  )

-- `Service.Update`
unfoldable pub update :
    Meta
    → Time
    → Uuid
    → AdminUserPatch
    → Actor
    → Tables
    → Result AdminUserError (Tables × AdminUser)
unfolding update_admin validate_patch
update m now id p actor db = checked (validate_patch p) >> update_admin m now id p actor db

-- `Service.Get`
unfoldable pub get : Uuid → Tables → Result AdminUserError AdminUser
get id db = or_err (find admin_id id db.admin_users) not_found

-- A transaction that fails is rolled back.
unfoldable pub commit :
    Tables → Result AdminUserError (Tables × AdminUser) → Tables × Result AdminUserError AdminUser
commit db (ok (db', u)) = (db', ok u)
commit db (err e) = (db, err e)

-- `ListFilter`
pub record ListFilter : Type 0 where
  pub page : ℤ
  pub page_size : ℤ
  pub role : Option Role
  pub status : Option Status

-- `Page`
pub record Page : Type 0 where
  pub items : List AdminUser
  pub page : ℕ
  pub page_size : ℕ
  pub total : ℕ

-- The WHERE clause of `Repo.List`.
unfoldable pub matches : ListFilter → AdminUser → Bool
unfolding text
matches f u =
    if_given (λ r. text_eq (role_name u.role) (role_name r)) f.role
    && if_given (λ s. text_eq (status_name u.status) (status_name s)) f.status

-- `ORDER BY created_at DESC, id DESC`
unfoldable pub latest : AdminUser → AdminUser → Bool
latest x y = ltb y.created_at x.created_at || (x.created_at == y.created_at && ltb y.id x.id)

-- `List`; `during` is what other sessions commit between the count and the query.
unfoldable pub list : ListFilter → (Tables → Tables) → Tables → Result AdminUserError Page
unfolding matches latest page_of page_size_of offset_of
list f during db = do
  offset ← or_err (offset_of (page_of f.page) (page_size_of f.page_size)) database
  ok (record {
    items =
        limit (page_size_of f.page_size)
          (skip offset (order_by latest (select (matches f) (during db).admin_users)));
    page = page_of f.page;
    page_size = page_size_of f.page_size;
    total = count (matches f) db.admin_users;
  })
