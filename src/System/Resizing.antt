-- ===== src/System/Resizing.antt =====
-- What a capacity adjustment does to the seats of its group.
use profundiza_uq_backend.Base.{
  ℕ, ◌+◌, ◌≡◌, refl, sym, ap, ◌∙◌, ◌⊎◌, inl, inr, some, [], ◌∷◌, ◌++◌, err, Result-cases,
}
use mathlib.Core.Path.{subst}
use profundiza_uq_backend.Base.Int.{to_ℕ?}
use profundiza_uq_backend.Base.Table.{length, find}
use profundiza_uq_backend.Base.Table.Laws.{find-modify_self}
use profundiza_uq_backend.Shared.Audit.{Meta}
use profundiza_uq_backend.Enrollment.Database.{
  OfferingGroup, CapacityAdjustment, Database, group_id,
}
use profundiza_uq_backend.Enrollment.Submit.Effects.{length-write}
use profundiza_uq_backend.Catalog.Capacity.{
  AdjustCapacityInput, CatalogError, resized, adjust_writes, adjust_tx, adjust_capacity,
}
use profundiza_uq_backend.System.Reach.{
  IsResized, adjust_tx-IsResized, adjust_commits, adjust_rolls_back,
}

-- The group before and after, and what was recorded of it.
pub record Resizes (i : AdjustCapacityInput) (db db' : Database) : Type 0 where
  pub before : OfferingGroup
  pub capacity : ℕ
  pub given : to_ℕ? i.new_capacity ≡ some capacity
  pub found : find group_id i.group_id db.groups ≡ some before
  pub after : find group_id i.group_id db'.groups ≡ some (resized capacity before)
  pub adjustment : CapacityAdjustment
  pub adjustments : db'.adjustments ≡ db.adjustments ++ adjustment ∷ []
  pub previous : adjustment.previous_capacity ≡ before.capacity
  pub current : adjustment.new_capacity ≡ capacity
  pub audit_events : length db'.audit_events ≡ length db.audit_events + 1
  pub requests : db'.requests ≡ db.requests
  pub notifications : db'.notifications ≡ db.notifications

written-Resizes :
    (m : Meta) (i : AdjustCapacityInput) (db : Database) (out : Database × OfferingGroup)
    (r : IsResized m i db out)
    → Resizes i db (adjust_writes m i r.capacity r.group db)
unfolding adjust_writes
written-Resizes m i db out r = record {
  before = r.group;
  capacity = r.capacity;
  given = r.given;
  found = r.found;
  after = find-modify_self group_id i.group_id (resized r.capacity) db.groups refl r.found;
  adjustment = record {
    offering_group_id = i.group_id;
    admin_user_id = i.actor_id;
    previous_capacity = r.group.capacity;
    new_capacity = r.capacity;
    reason = i.reason;
  };
  adjustments = refl;
  previous = refl;
  current = refl;
  audit_events = length-write _ _ db.audit_events;
  requests = refl;
  notifications = refl;
}

-- A capacity adjustment that commits gives the group the new capacity and records the old and the
-- new one with one audit event; the requests stay, also when more of them are accepted than the new
-- capacity has seats. One that fails changes nothing.
pub adjust_capacity_effects :
    (m : Meta) (i : AdjustCapacityInput) (db : Database)
    → Resizes i db (adjust_capacity m i db).0
      ⊎ ((e : CatalogError) × (adjust_capacity m i db ≡ (db, err e)))
adjust_capacity_effects m i db = elim (Result-cases (adjust_tx m i db)) [
  | inl (out, done) ↦
      let r = adjust_tx-IsResized m i db out done in
      let committed = ap (λ x. x.0) (adjust_commits m i db out done) in
      inl (
        subst (Resizes i db) (sym (committed ∙ ap (λ x. x.0) r.written))
          (written-Resizes m i db out r))
  | inr (e, failed) ↦ inr (e, adjust_rolls_back m i db e failed)
]
