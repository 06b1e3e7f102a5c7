-- ===== src/Catalog/Admin/Reach.antt =====
-- The states that the administration of the catalog reaches.
use profundiza_uq_backend.Base.{refl, Bool, Uuid, Time, Result, ok, err}
use profundiza_uq_backend.Shared.Audit.{Meta}
use profundiza_uq_backend.Catalog.Admin.{
  Tables, AdminError, CreateElectiveInput, UpdateElectiveInput, CreatePrerequisiteInput,
  CreateOfferingInput, CreateOfferingPrereqInput, in_tx,
}
use profundiza_uq_backend.Catalog.Admin.Writes.{
  create_elective, update_elective, create_prerequisite, create_offering, create_offering_prereq,
}
use profundiza_uq_backend.Catalog.Admin.Groups.{
  CreateGroupInput, UpdateGroupInput, create_group, update_group,
}
use profundiza_uq_backend.Catalog.Admin.Unique.{IsCatalog}
use profundiza_uq_backend.Catalog.Admin.Steps.{
  Keeps, create_elective-IsCatalog, update_elective-IsCatalog, create_prerequisite-IsCatalog,
  create_offering-IsCatalog, create_offering_prereq-IsCatalog, create_group-IsCatalog,
  update_group-IsCatalog,
}

-- One request, on the tables that it leaves.
pub data Step (db : Tables) : Tables → Type 0 where
  creates_elective :
      (m : Meta) (now : Time) (id : Uuid) (i : CreateElectiveInput)
      → Step db (in_tx db (create_elective m now id i db)).0
  updates_elective :
      (m : Meta) (now : Time) (i : UpdateElectiveInput)
      → Step db (in_tx db (update_elective m now i db)).0
  creates_prerequisite :
      (m : Meta) (id : Uuid) (i : CreatePrerequisiteInput)
      → Step db (in_tx db (create_prerequisite m id i db)).0
  creates_offering :
      (m : Meta) (known : Uuid → Bool) (id : Uuid) (i : CreateOfferingInput)
      → Step db (in_tx db (create_offering m known id i db)).0
  creates_offering_prereq :
      (m : Meta) (id : Uuid) (i : CreateOfferingPrereqInput)
      → Step db (in_tx db (create_offering_prereq m id i db)).0
  creates_group :
      (m : Meta) (now : Time) (id : Uuid) (i : CreateGroupInput)
      → Step db (in_tx db (create_group m now id i db)).0
  updates_group :
      (m : Meta) (now : Time) (i : UpdateGroupInput)
      → Step db (in_tx db (update_group m now i db)).0

pub data Reach (db : Tables) : Tables → Type 0 where
  here : Reach db db
  next : {t u : Tables} → Reach db t → Step t u → Reach db u

in_tx-IsCatalog {ℓ} :
    {A : Type ℓ} (db : Tables) (tx : Result AdminError (Tables × A))
    → Keeps db tx
    → IsCatalog db
    → IsCatalog (in_tx db tx).0
unfolding in_tx
in_tx-IsCatalog db (ok out) keeps c = keeps out refl c
in_tx-IsCatalog db (err e) keeps c = c

Step-IsCatalog : {db db' : Tables} → Step db db' → IsCatalog db → IsCatalog db'
Step-IsCatalog {db} (creates_elective m now id i) c =
    in_tx-IsCatalog db (create_elective m now id i db) (create_elective-IsCatalog m now id i db) c
Step-IsCatalog {db} (updates_elective m now i) c =
    in_tx-IsCatalog db (update_elective m now i db) (update_elective-IsCatalog m now i db) c
Step-IsCatalog {db} (creates_prerequisite m id i) c =
    in_tx-IsCatalog db (create_prerequisite m id i db) (create_prerequisite-IsCatalog m id i db) c
Step-IsCatalog {db} (creates_offering m known id i) c =
    in_tx-IsCatalog db (create_offering m known id i db) (create_offering-IsCatalog m known id i db)
      c
Step-IsCatalog {db} (creates_offering_prereq m id i) c =
    in_tx-IsCatalog db (create_offering_prereq m id i db)
      (create_offering_prereq-IsCatalog m id i db) c
Step-IsCatalog {db} (creates_group m now id i) c =
    in_tx-IsCatalog db (create_group m now id i db) (create_group-IsCatalog m now id i db) c
Step-IsCatalog {db} (updates_group m now i) c =
    in_tx-IsCatalog db (update_group m now i db) (update_group-IsCatalog m now i db) c

-- However the catalog is administered, no elective and no offering gets two active prerequisites of
-- one name, no semester offers an elective twice, no offering gets two groups of one code or of one
-- id, and each group is of the day or the night, if this holds at the start.
pub Reach-IsCatalog : {db db' : Tables} → Reach db db' → IsCatalog db → IsCatalog db'
Reach-IsCatalog here c = c
Reach-IsCatalog (next path step) c = Step-IsCatalog step (Reach-IsCatalog path c)
