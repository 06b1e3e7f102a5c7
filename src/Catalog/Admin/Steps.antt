-- ===== src/Catalog/Admin/Steps.antt =====
-- Each operation on the catalog keeps its unique indexes.
use profundiza_uq_backend.Base.{
  ◌≡◌, refl, ap, arith, Bool, true, not, ◌&&◌, ◌||◌, Uuid, Time, is_some, leb, Result, ok, guard,
  or_err, >>=-eq-ok, guard-eq-ok, or_err-eq-ok,
}
use mathlib.Core.Path.{subst}
use profundiza_uq_backend.Base.Int.{to_ℕ?}
use profundiza_uq_backend.Base.Table.{find}
use profundiza_uq_backend.Base.Table.Laws.{All-insert}
use profundiza_uq_backend.Base.Table.Keys.{insert-IsKeyed, modify-IsKeyed, All-modify}
use profundiza_uq_backend.Base.Table.Distinct.{insert-IsDistinct}
use profundiza_uq_backend.Base.Text.{is_empty, byte_len}
use profundiza_uq_backend.Shared.Audit.{Meta}
use profundiza_uq_backend.Shared.Shift.{valid}
use profundiza_uq_backend.Shared.Validation.{given}
use profundiza_uq_backend.Catalog.Admin.{
  offering_specific, Group, Tables, AdminError, CreateElectiveInput, UpdateElectiveInput,
  CreatePrerequisiteInput, CreateOfferingInput, CreateOfferingPrereqInput, group_key, offering_key,
  same_active_name, same_offering, same_code, status_or, elective_key,
}
use profundiza_uq_backend.Catalog.Admin.Writes.{
  create_elective, update_elective, new_prerequisite, is_duplicate, create_prerequisite,
  new_offering, is_offered, create_offering, new_offering_prereq, create_offering_prereq,
  source_known,
}
use profundiza_uq_backend.Catalog.Admin.Groups.{
  CreateGroupInput, UpdateGroupInput, new_group, is_taken, create_group, updated_group, clashes,
  update_group,
}
use profundiza_uq_backend.Catalog.Admin.Unique.{
  IsCatalog, renamed-IsDistinct, free_name, free_offering, free_code, tables_of,
}

-- An operation that succeeds keeps what `IsCatalog` says.
abbrev pub Keeps {ℓ} : {A : Type ℓ} → Tables → Result AdminError (Tables × A) → Type ℓ
Keeps {A = A} db tx = (out : Tables × A) → tx ≡ ok out → IsCatalog db → IsCatalog out.0

pub create_elective-IsCatalog :
    (m : Meta) (now : Time) (id : Uuid) (i : CreateElectiveInput) (db : Tables)
    → Keeps db (create_elective m now id i db)
unfolding create_elective
create_elective-IsCatalog m now id i db out h c =
    let (u, given_texts, h₁) = >>=-eq-ok (guard (not (is_empty i.name || is_empty i.area)) _) _ h in
    let (v, free, h₂) =
      >>=-eq-ok (guard (not (is_some (find elective_key id db.electives))) _) _ h₁ in
    subst IsCatalog (ap (tables_of db) h₂) (record {
      prerequisites = c.prerequisites;
      offering_prerequisites = c.offering_prerequisites;
      offerings = c.offerings;
      codes = c.codes;
      keys = c.keys;
      shifts = c.shifts;
    })

pub update_elective-IsCatalog :
    (m : Meta) (now : Time) (i : UpdateElectiveInput) (db : Tables)
    → Keeps db (update_elective m now i db)
unfolding update_elective
update_elective-IsCatalog m now i db out h c =
    let (e, found, h₁) = >>=-eq-ok (or_err (find elective_key i.id db.electives) _) _ h in
    let (status, known, h₂) = >>=-eq-ok (or_err (status_or e.status i.status) _) _ h₁ in
    subst IsCatalog (ap (tables_of db) h₂) (record {
      prerequisites = c.prerequisites;
      offering_prerequisites = c.offering_prerequisites;
      offerings = c.offerings;
      codes = c.codes;
      keys = c.keys;
      shifts = c.shifts;
    })

pub create_prerequisite-IsCatalog :
    (m : Meta) (id : Uuid) (i : CreatePrerequisiteInput) (db : Tables)
    → Keeps db (create_prerequisite m id i db)
unfolding create_prerequisite
create_prerequisite-IsCatalog m id i db out h c =
    let p = new_prerequisite id i in
    let (u, named, h₁) = >>=-eq-ok (guard (not (is_empty i.name)) _) _ h in
    let (v, free, h₂) = >>=-eq-ok (guard (not (is_duplicate p db.prerequisites)) _) _ h₁ in
    let (w, exists, h₃) =
      >>=-eq-ok (guard (is_some (find elective_key i.elective_id db.electives)) _) _ h₂ in
    let test = guard-eq-ok (not (is_duplicate p db.prerequisites)) _ free in
    subst IsCatalog (ap (tables_of db) h₃) (record {
      prerequisites =
          insert-IsDistinct same_active_name db.prerequisites p
            (free_name p db.prerequisites (ground (arith, test))) c.prerequisites;
      offering_prerequisites = c.offering_prerequisites;
      offerings = c.offerings;
      codes = c.codes;
      keys = c.keys;
      shifts = c.shifts;
    })

pub create_offering-IsCatalog :
    (m : Meta) (known : Uuid → Bool) (id : Uuid) (i : CreateOfferingInput) (db : Tables)
    → Keeps db (create_offering m known id i db)
unfolding create_offering
create_offering-IsCatalog m known id i db out h c =
    let (semester, s, h₁) = >>=-eq-ok (or_err i.semester_id _) _ h in
    let (elective, e, h₂) = >>=-eq-ok (or_err i.elective_id _) _ h₁ in
    let o = new_offering id semester elective in
    let (v, free, h₃) = >>=-eq-ok (guard (not (is_offered o db.offerings)) _) _ h₂ in
    let (w, exist, h₄) =
      >>=-eq-ok (guard (known semester && is_some (find elective_key elective db.electives)) _) _
        h₃ in
    let test = guard-eq-ok (not (is_offered o db.offerings)) _ free in
    subst IsCatalog (ap (tables_of db) h₄) (record {
      prerequisites = c.prerequisites;
      offering_prerequisites = c.offering_prerequisites;
      offerings =
          insert-IsDistinct same_offering db.offerings o
            (free_offering o db.offerings (ground (arith, test))) c.offerings;
      codes = c.codes;
      keys = c.keys;
      shifts = c.shifts;
    })

pub create_offering_prereq-IsCatalog :
    (m : Meta) (id : Uuid) (i : CreateOfferingPrereqInput) (db : Tables)
    → Keeps db (create_offering_prereq m id i db)
unfolding create_offering_prereq
create_offering_prereq-IsCatalog m id i db out h c =
    let p = new_offering_prereq id i in
    let (u, named, h₁) = >>=-eq-ok (guard (not (is_empty i.name)) _) _ h in
    let (t, sourced, h₂) =
      >>=-eq-ok (guard (source_known (given offering_specific i.source)) _) _ h₁ in
    let (v, free, h₃) = >>=-eq-ok (guard (not (is_duplicate p db.offering_prerequisites)) _) _ h₂ in
    let (w, exists, h₄) =
      >>=-eq-ok (guard (is_some (find offering_key i.offering_id db.offerings)) _) _ h₃ in
    let test = guard-eq-ok (not (is_duplicate p db.offering_prerequisites)) _ free in
    subst IsCatalog (ap (tables_of db) h₄) (record {
      prerequisites = c.prerequisites;
      offering_prerequisites =
          insert-IsDistinct same_active_name db.offering_prerequisites p
            (free_name p db.offering_prerequisites (ground (arith, test))) c.offering_prerequisites;
      offerings = c.offerings;
      codes = c.codes;
      keys = c.keys;
      shifts = c.shifts;
    })

pub create_group-IsCatalog :
    (m : Meta) (now : Time) (id : Uuid) (i : CreateGroupInput) (db : Tables)
    → Keeps db (create_group m now id i db)
unfolding create_group
create_group-IsCatalog m now id i db out h c =
    let (capacity, n, h₁) = >>=-eq-ok (or_err (to_ℕ? i.capacity) _) _ h in
    let g = new_group now id i capacity in
    let input =
      not (is_empty i.group_code || is_empty i.schedule_text)
      && leb 3 (byte_len i.reason)
      && valid i.shift in
    let (u, fine, h₂) = >>=-eq-ok (guard input _) _ h₁ in
    let (v, free, h₃) = >>=-eq-ok (guard (not (is_taken g db.groups)) _) _ h₂ in
    let (w, exists, h₄) =
      >>=-eq-ok (guard (is_some (find offering_key i.offering_id db.offerings)) _) _ h₃ in
    let test = guard-eq-ok (not (is_taken g db.groups)) _ free in
    let passed = guard-eq-ok input _ fine in
    let (new_key, new_code) = free_code g db.groups (ground (arith, test)) in
    subst IsCatalog (ap (tables_of db) h₄) (record {
      prerequisites = c.prerequisites;
      offering_prerequisites = c.offering_prerequisites;
      offerings = c.offerings;
      codes = insert-IsDistinct same_code db.groups g new_code c.codes;
      keys = insert-IsKeyed group_key db.groups g new_key c.keys;
      shifts =
          All-insert (λ (x : Group). valid x.shift ≡ true) db.groups g c.shifts
            (ground (arith, passed));
    })

pub update_group-IsCatalog :
    (m : Meta) (now : Time) (i : UpdateGroupInput) (db : Tables)
    → Keeps db (update_group m now i db)
unfolding update_group
update_group-IsCatalog m now i db out h c =
    let (u, reason, h₁) = >>=-eq-ok (guard (leb 3 (byte_len i.reason)) _) _ h in
    let (g, found, h₂) = >>=-eq-ok (or_err (find group_key i.id db.groups) _) _ h₁ in
    let (status, known, h₃) = >>=-eq-ok (or_err (status_or g.status i.status) _) _ h₂ in
    let f = updated_group now i status in
    let (v, free, h₄) = >>=-eq-ok (guard (not (clashes (f g) db.groups)) _) _ h₃ in
    let test = guard-eq-ok (not (clashes (f g) db.groups)) _ free in
    let row = or_err-eq-ok (find group_key i.id db.groups) _ found in
    subst IsCatalog (ap (tables_of db) h₄) (record {
      prerequisites = c.prerequisites;
      offering_prerequisites = c.offering_prerequisites;
      offerings = c.offerings;
      codes =
          renamed-IsDistinct i.id f db.groups (λ x. refl) row (ground (arith, test)) c.keys c.codes;
      keys = modify-IsKeyed group_key i.id f db.groups (λ x. refl) c.keys;
      shifts =
          All-modify (λ (x : Group). valid x.shift ≡ true) group_key i.id f db.groups (λ x e. e)
            c.shifts;
    })
