-- ===== src/Catalog/Admin/Writes.antt =====
-- Electives, prerequisites and offerings: the writes and reads of
-- internal/catalog/adapter/postgres/admin_repo.go behind the checks of internal/catalog/app/admin.go.
use profundiza_uq_backend.Base.{
  Bool, true, false, not, ◌&&◌, ◌||◌, none, some, List, [], ◌∷◌, ◌++◌, Uuid, Time, ◌==◌, is_some,
  Result, ok, guard, or_err, ◌>>=◌, ◌>>◌,
}
use profundiza_uq_backend.Base.Table.{find, select, select_one, modify, order_by}
use profundiza_uq_backend.Base.Text.{Text, text, text_eq, is_empty}
use profundiza_uq_backend.Enrollment.Database.{active, is_live, RowStatus}
use profundiza_uq_backend.Shared.Audit.{Meta, object, name, uuid}
use profundiza_uq_backend.Shared.Validation.{given}
use profundiza_uq_backend.Catalog.Admin.{
  Elective, Source, elective_default, offering_specific, other_source, Prerequisite, Offering,
  Tables, AdminError, invalid, not_found, duplicate, database, CreateElectiveInput,
  UpdateElectiveInput, CreatePrerequisiteInput, CreateOfferingInput, CreateOfferingPrereqInput,
  elective_key, prerequisite_key, offering_key, same_active_name, same_offering, audited, status_or,
}

unfoldable pub new_elective : Time → Uuid → CreateElectiveInput → Elective
new_elective now id i = record {
  id = id;
  name = i.name;
  area = i.area;
  description = i.description;
  status = active;
  created_at = now;
  updated_at = now;
}

-- `CreateElective`
unfoldable pub create_elective :
    Meta → Time → Uuid → CreateElectiveInput → Tables → Result AdminError (Tables × Elective)
unfolding new_elective audited text
create_elective m now id i db = do
  guard (not (is_empty i.name || is_empty i.area)) invalid
  guard (not (is_some (find elective_key id db.electives))) database
  ok (
    record db {
      electives = db.electives ++ new_elective now id i ∷ [];
      audit_events =
          audited m i.actor_id (text "ELECTIVE_CREATED") (text "Elective") id
            (some (object ((text "name", name i.name) ∷ []))) [] db.audit_events;
    },
    new_elective now id i,
  )

unfoldable pub updated_elective : Time → UpdateElectiveInput → RowStatus → Elective → Elective
updated_elective now i status e = record e {
  name = given e.name i.name;
  area = given e.area i.area;
  description = given e.description i.description;
  status = status;
  updated_at = now;
}

-- `UpdateElective`
unfoldable pub update_elective :
    Meta → Time → UpdateElectiveInput → Tables → Result AdminError (Tables × Elective)
unfolding updated_elective audited text
update_elective m now i db = do
  e ← or_err (find elective_key i.id db.electives) not_found
  status ← or_err (status_or e.status i.status) database
  ok (
    record db {
      electives = modify elective_key i.id (updated_elective now i status) db.electives;
      audit_events =
          audited m i.actor_id (text "ELECTIVE_UPDATED") (text "Elective") i.id none []
            db.audit_events;
    },
    updated_elective now i status e,
  )

-- `GetElective`
unfoldable pub get_elective : Uuid → Tables → Result AdminError Elective
get_elective id db = or_err (find elective_key id db.electives) not_found

-- `ListElectives`; `ilike` is PostgreSQL's ILIKE, and `by_name` the order of the collation.
unfoldable pub list_electives :
    (Text → Text → Bool) → (Elective → Elective → Bool) → Text → Text → Tables → List Elective
list_electives ilike by_name q area db = order_by by_name (
    select
      (λ e.
        (is_empty q || ilike e.name (b'%' ∷ q ++ b'%' ∷ []))
        && (is_empty area || text_eq e.area area))
      db.electives)

-- `ListElectivePrerequisites`
unfoldable pub list_elective_prerequisites :
    (Prerequisite → Prerequisite → Bool) → Uuid → Tables → List Prerequisite
list_elective_prerequisites by_name elective db =
    order_by by_name (select (λ p. p.owner == elective && is_live p.status) db.prerequisites)

unfoldable pub new_prerequisite : Uuid → CreatePrerequisiteInput → Prerequisite
new_prerequisite id i = record {
  id = id;
  owner = i.elective_id;
  name = i.name;
  description = i.description;
  plan_type = i.plan_type;
  source = elective_default;
  status = active;
}

-- A unique index refuses the row; `asDuplicate` gives each the same error.
unfoldable pub is_duplicate : Prerequisite → List Prerequisite → Bool
is_duplicate p rows =
    is_some (find prerequisite_key p.id rows)
    || is_some (select_one (λ q. same_active_name q p) rows)

-- `CreatePrerequisite`
unfoldable pub create_prerequisite :
    Meta → Uuid → CreatePrerequisiteInput → Tables → Result AdminError (Tables × Prerequisite)
unfolding new_prerequisite is_duplicate audited text
create_prerequisite m id i db = do
  guard (not (is_empty i.name)) invalid
  guard (not (is_duplicate (new_prerequisite id i) db.prerequisites)) duplicate
  guard (is_some (find elective_key i.elective_id db.electives)) database
  ok (
    record db {
      prerequisites = db.prerequisites ++ new_prerequisite id i ∷ [];
      audit_events =
          audited m i.actor_id (text "PREREQUISITE_CREATED") (text "Prerequisite") id none []
            db.audit_events;
    },
    new_prerequisite id i,
  )

unfoldable pub new_offering : Uuid → Uuid → Uuid → Offering
new_offering id semester elective = record {
  id = id;
  semester_id = semester;
  elective_id = elective;
  status = active;
}

unfoldable pub is_offered : Offering → List Offering → Bool
is_offered o rows =
    is_some (find offering_key o.id rows) || is_some (select_one (λ p. same_offering p o) rows)

-- `CreateOffering`; `known` are the semesters. A second offering of the elective in the semester is
-- an error of the database that the code passes on.
unfoldable pub create_offering :
    Meta → (Uuid → Bool) → Uuid → CreateOfferingInput → Tables → Result AdminError (Tables × Uuid)
unfolding new_offering is_offered audited text
create_offering m known id i db = do
  semester ← or_err i.semester_id invalid
  elective ← or_err i.elective_id invalid
  guard (not (is_offered (new_offering id semester elective) db.offerings)) database
  guard (known semester && is_some (find elective_key elective db.electives)) database
  ok (
    record db {
      offerings = db.offerings ++ new_offering id semester elective ∷ [];
      audit_events =
          audited m i.actor_id (text "OFFERING_CREATED") (text "ElectiveOffering") id
            (some (
              object
                ((text "semesterId", uuid semester) ∷ (text "electiveId", uuid elective) ∷ [])))
            [] db.audit_events;
    },
    id,
  )

-- The CHECK of the source.
abbrev pub source_known : Source → Bool
source_known (other_source s) = false
source_known _ = true

unfoldable pub new_offering_prereq : Uuid → CreateOfferingPrereqInput → Prerequisite
new_offering_prereq id i = record {
  id = id;
  owner = i.offering_id;
  name = i.name;
  description = i.description;
  plan_type = i.plan_type;
  source = given offering_specific i.source;
  status = active;
}

-- `CreateOfferingPrereq`
unfoldable pub create_offering_prereq :
    Meta → Uuid → CreateOfferingPrereqInput → Tables → Result AdminError (Tables × Prerequisite)
unfolding new_offering_prereq is_duplicate audited text
create_offering_prereq m id i db = do
  guard (not (is_empty i.name)) invalid
  guard (source_known (given offering_specific i.source)) database
  guard (not (is_duplicate (new_offering_prereq id i) db.offering_prerequisites)) duplicate
  guard (is_some (find offering_key i.offering_id db.offerings)) database
  ok (
    record db {
      offering_prerequisites = db.offering_prerequisites ++ new_offering_prereq id i ∷ [];
      audit_events =
          audited m i.actor_id (text "OFFERING_PREREQUISITE_CREATED") (text "OfferingPrerequisite")
            id none [] db.audit_events;
    },
    new_offering_prereq id i,
  )
