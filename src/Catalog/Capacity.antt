-- ===== src/Catalog/Capacity.antt =====
-- `AdjustCapacity` of internal/catalog/app/admin.go and of
-- internal/catalog/adapter/postgres/admin_repo.go.
use profundiza_uq_backend.Base.{
  ℕ, ◌^◌, ltb, some, [], ◌∷◌, ◌++◌, Uuid, leb, Result, ok, err, guard, or_err, ◌>>=◌, ◌>>◌,
}
use profundiza_uq_backend.Base.Int.{ℤ, to_ℕ?}
use profundiza_uq_backend.Base.Table.{is_in, find, modify, length}
use profundiza_uq_backend.Base.Text.{Text, text, byte_len, btrim}
use profundiza_uq_backend.Shared.Audit.{ActorType, Meta, object, uuid, number, write}
use profundiza_uq_backend.Enrollment.Database.{OfferingGroup, Database, group_id}

-- `no_rows` is `pgx.ErrNoRows`, `out_of_range` a capacity that does not fit the INT of its column,
-- `check_failed` the CHECK of the adjustment's reason, and `admin_missing` its foreign key.
pub data CatalogError : Type 0 where
  invalid no_rows out_of_range check_failed admin_missing : CatalogError

pub record AdjustCapacityInput : Type 0 where
  pub group_id : Uuid
  pub new_capacity : ℤ
  pub reason : Text
  pub actor_id : Uuid

abbrev pub resized : ℕ → OfferingGroup → OfferingGroup
resized capacity g = record g { capacity = capacity }

-- The UPDATE, the adjustment row and the audit event.
unfoldable pub adjust_writes : Meta → AdjustCapacityInput → ℕ → OfferingGroup → Database → Database
unfolding text
adjust_writes m i capacity g db = record db {
  groups = modify group_id i.group_id (resized capacity) db.groups;
  adjustments =
      db.adjustments
      ++ record {
        offering_group_id = i.group_id;
        admin_user_id = i.actor_id;
        previous_capacity = g.capacity;
        new_capacity = capacity;
        reason = i.reason;
      }
        ∷ [];
  audit_events =
      write m
        (record {
          actor_type = ActorType.admin;
          actor_id = some i.actor_id;
          action = text "GROUP_CAPACITY_ADJUSTED";
          entity_type = text "OfferingGroup";
          entity_id = uuid g.id;
          previous_value = some (object ((text "capacity", number g.capacity) ∷ []));
          new_value = some (object ((text "capacity", number capacity) ∷ []));
          reason = i.reason;
          ip_address = [];
          user_agent = [];
        })
        db.audit_events;
}

-- The transaction behind the service's guard.
unfoldable pub adjust_tx :
    Meta → AdjustCapacityInput → Database → Result CatalogError (Database × OfferingGroup)
adjust_tx m i db = do
  capacity ← or_err (to_ℕ? i.new_capacity) invalid
  guard (leb 3 (byte_len i.reason)) invalid
  g ← or_err (find group_id i.group_id db.groups) no_rows
  guard (ltb capacity (2 ^ 31)) out_of_range
  guard (leb 3 (length (btrim i.reason))) check_failed
  guard (is_in db.admins i.actor_id) admin_missing
  ok (adjust_writes m i capacity g db, resized capacity g)

unfoldable pub adjust_capacity :
    Meta → AdjustCapacityInput → Database → Database × Result CatalogError OfferingGroup
adjust_capacity m i db = elim (adjust_tx m i db) [ err e ↦ (db, err e) | ok (db', g) ↦ (db', ok g) ]
