-- ===== src/Tests/Catalog.antt =====
-- The administration of the catalog.
use profundiza_uq_backend.Base.{none, some, [], ◌∷◌, ◌≡◌, ◌↔◌, refl, true}
use profundiza_uq_backend.Base.Int.{pos}
use profundiza_uq_backend.Base.Table.{All}
use profundiza_uq_backend.Enrollment.Database.{active, Database}
use profundiza_uq_backend.Shared.Audit.{Meta}
use profundiza_uq_backend.Shared.Shift.{night}
use profundiza_uq_backend.Catalog.Admin.{Group, Tables, in_tx}
use profundiza_uq_backend.Catalog.Browse.{
  OfferingFilter, has_open_seats, with_counts, list_offerings,
}
use profundiza_uq_backend.Catalog.Browse.Seats.{
  IsOpen, IsOpenSummary, has_open_seats_iff, list_offerings-IsOpenSummary,
}
use profundiza_uq_backend.Catalog.Admin.Groups.{
  CreateGroupInput, UpdateGroupInput, create_group, update_group,
}
use profundiza_uq_backend.Catalog.Admin.Unique.{IsCatalog}
use profundiza_uq_backend.Catalog.Admin.Reach.{
  Reach, here, next, creates_group, updates_group, Reach-IsCatalog,
}

abbrev from_office : Meta
from_office = record { ip_address = []; user_agent = [] }

abbrev one_offering : Tables
one_offering = record {
  electives =
      record {
        id = 2;
        name = b'L' ∷ [];
        area = b'A' ∷ [];
        description = [];
        status = active;
        created_at = 1;
        updated_at = 1;
      }
      ∷ [];
  prerequisites = [];
  offerings = record { id = 7; semester_id = 1; elective_id = 2; status = active } ∷ [];
  offering_prerequisites = [];
  groups = [];
  audit_events = [];
}

abbrev evening : CreateGroupInput
evening = record {
  offering_id = 7;
  group_code = b'E' ∷ [];
  shift = night;
  teacher_name = none;
  schedule_text = b'M' ∷ [];
  capacity = pos 20;
  reason = b'n' ∷ b'e' ∷ b'w' ∷ [];
  actor_id = 40;
}

abbrev recoded : UpdateGroupInput
recoded = record {
  id = 5;
  group_code = some (b'F' ∷ []);
  teacher_name = none;
  schedule_text = none;
  status = none;
  reason = b'w' ∷ b'h' ∷ b'y' ∷ [];
  actor_id = 40;
}

abbrev with_group : Tables
with_group = (in_tx one_offering (create_group from_office 3 5 evening one_offering)).0

catalog_history :
    Reach one_offering (in_tx with_group (update_group from_office 4 recoded with_group)).0
catalog_history =
    next (next here (creates_group from_office 3 5 evening)) (updates_group from_office 4 recoded)

Reach-IsCatalog_example :
    IsCatalog (in_tx with_group (update_group from_office 4 recoded with_group)).0
Reach-IsCatalog_example = Reach-IsCatalog catalog_history (record {
  prerequisites = tt;
  offering_prerequisites = tt;
  offerings = (tt, tt);
  codes = tt;
  keys = tt;
  shifts = tt;
})

abbrev shown : Group
shown = record {
  id = 5;
  offering_id = 7;
  group_code = b'E' ∷ [];
  shift = night;
  teacher_name = none;
  schedule_text = b'M' ∷ [];
  capacity = 20;
  status = active;
  created_at = 3;
  updated_at = 3;
}

abbrev unused : Database
unused = record {
  groups = [];
  students = [];
  admins = 40 ∷ [];
  windows = [];
  requests = [];
  decisions = [];
  adjustments = [];
  audit_events = [];
  notifications = [];
  arrival_seq = 1;
}

abbrev open_only : OfferingFilter
open_only = record { semester_id = 1; shift = some night; only_open = true }

has_open_seats_iff_example :
    (has_open_seats (with_counts unused.requests shown) ≡ true) ↔ IsOpen unused shown
has_open_seats_iff_example = has_open_seats_iff unused shown

list_offerings-IsOpenSummary_example : All (IsOpenSummary unused) (
    list_offerings
      (λ o p. true)
      (λ g h. true)
      unused.requests
      open_only
      (record one_offering { groups = shown ∷ [] }))
list_offerings-IsOpenSummary_example =
    list_offerings-IsOpenSummary (λ o p. true) (λ g h. true) unused open_only
      (record one_offering { groups = shown ∷ [] }) refl
