-- ===== src/AdminUser/Service/Effects.antt =====
-- What the update of an administrator changes.
use profundiza_uq_backend.Base.{◌≡◌, ◌⊎◌, some, [], ◌∷◌, ◌++◌, Uuid, Time}
use profundiza_uq_backend.Base.Text.{text}
use profundiza_uq_backend.Base.Table.{find, modify}
use profundiza_uq_backend.Shared.Audit.{uuid, Meta, Row}
use profundiza_uq_backend.AdminUser.Domain.{AdminUser, AdminUserPatch}
use profundiza_uq_backend.AdminUser.Service.{
  Tables, Actor, admin_id, admin_document, patched, write_audit,
}

-- An update that changes the row of `id` and records it.
abbrev pub Changed : Time → Uuid → AdminUserPatch → Uuid → Tables → Tables → AdminUser → Type 0
Changed now id p j db after before =
    (find admin_id id after.admin_users ≡ some (patched now p before))
    × ((j ≡ id) ⊎ (find admin_id j after.admin_users ≡ find admin_id j db.admin_users))
    × (r : Row) × (after.audit_events ≡ db.audit_events ++ r ∷ [])
    × (r.entity_id ≡ uuid id)
    × (r.previous_value ≡ some (admin_document before))
    × (r.new_value ≡ some (admin_document (patched now p before)))

module _ (m : Meta) (now : Time) (id : Uuid) (p : AdminUserPatch) (actor : Actor)
    (db : Tables) where
  abbrev after_update : AdminUser → Tables
  after_update before = record {
    admin_users = modify admin_id id (patched now p) db.admin_users;
    audit_events =
        write_audit m actor (text "ADMIN_USER_UPDATED") id (some (admin_document before))
          (some (admin_document (patched now p before))) db.audit_events;
  }
