-- ===== src/Catalog/Browse.antt =====
-- internal/catalog/app/service.go, internal/catalog/adapter/postgres/repo.go and HasOpenSeats of
-- internal/catalog/domain/catalog.go: the offerings that students browse.
pub mod Seats
use profundiza_uq_backend.Base.{
  ℕ, ◌+◌, Bool, true, false, not, ◌&&◌, Option, none, some, List, [], ◌∷◌, map, Uuid, ◌==◌, ltb,
  if◌then◌else◌, Result, or_err, ◌>>=◌, ok, err,
}
use profundiza_uq_backend.Base.Table.{count, select, find, order_by}
use profundiza_uq_backend.Enrollment.Database.{EnrollmentRequest, is_live}
use profundiza_uq_backend.Enrollment.Status.{
  is_accepted, is_pending_review, is_direct, waitlisted_same_shift, waitlisted_opposite_shift,
}
use profundiza_uq_backend.Shared.Shift.{AcademicShift, same_as}
use profundiza_uq_backend.Shared.Validation.{if_given}
use profundiza_uq_backend.Catalog.Admin.{
  Elective, Offering, Prerequisite, Group, Tables, elective_key, offering_key,
}

-- `domain.Group` with its counts.
pub record GroupSeats : Type 0 where
  pub group : Group
  pub accepted_count : ℕ
  pub pending_direct_count : ℕ
  pub waitlist_same_shift_count : ℕ
  pub waitlist_opposite_shift_count : ℕ

-- `OfferingFilter`
pub record OfferingFilter : Type 0 where
  pub semester_id : Uuid
  pub shift : Option AcademicShift
  pub only_open : Bool

-- `OfferingSummary`
pub record OfferingSummary : Type 0 where
  pub id : Uuid
  pub semester_id : Uuid
  pub elective : Elective
  pub groups : List GroupSeats

-- `OfferingDetail`
pub record OfferingDetail : Type 0 where
  pub id : Uuid
  pub semester_id : Uuid
  pub elective : Elective
  pub prerequisites : List Prerequisite
  pub groups : List GroupSeats

-- `HasOpenSeats`
unfoldable pub has_open_seats : GroupSeats → Bool
has_open_seats g =
    is_live g.group.status && ltb (g.accepted_count + g.pending_direct_count) g.group.capacity

abbrev pub is_waitlisted_same : EnrollmentRequest → Bool
is_waitlisted_same r = elim r.status [ waitlisted_same_shift ↦ true | _ ↦ false ]

abbrev pub is_waitlisted_opposite : EnrollmentRequest → Bool
is_waitlisted_opposite r = elim r.status [ waitlisted_opposite_shift ↦ true | _ ↦ false ]

-- The counts of `groupsQuery`; a group without requests has zeros.
unfoldable pub with_counts : List EnrollmentRequest → Group → GroupSeats
with_counts requests g = record {
  group = g;
  accepted_count =
      count (λ (r : EnrollmentRequest). r.offering_group_id == g.id && is_accepted r.status)
        requests;
  pending_direct_count =
      count
        (λ (r : EnrollmentRequest).
          r.offering_group_id == g.id && is_pending_review r.status && is_direct r.priority_group)
        requests;
  waitlist_same_shift_count =
      count (λ (r : EnrollmentRequest). r.offering_group_id == g.id && is_waitlisted_same r)
        requests;
  waitlist_opposite_shift_count =
      count (λ (r : EnrollmentRequest). r.offering_group_id == g.id && is_waitlisted_opposite r)
        requests;
}

-- `groupsFor`, for one offering; `by_code` is the order of the collation.
unfoldable pub groups_for :
    (Group → Group → Bool)
    → List EnrollmentRequest
    → Option AcademicShift
    → Uuid
    → Tables
    → List GroupSeats
unfolding with_counts
groups_for by_code requests shift offering t = map (with_counts requests) (
    order_by by_code
      (select (λ g. g.offering_id == offering && if_given (same_as g.shift) shift) t.groups))

-- `filterGroups`
unfoldable pub filter_groups : Bool → List GroupSeats → List GroupSeats
unfolding has_open_seats
filter_groups only_open groups = if only_open then select has_open_seats groups else groups

-- The JOIN with the elective.
unfoldable pub summary :
    (Group → Group → Bool)
    → List EnrollmentRequest
    → OfferingFilter
    → Tables
    → Offering
    → Option OfferingSummary
unfolding groups_for filter_groups
summary by_code requests f t o = elim (find elective_key o.elective_id t.electives) [
  | none ↦ none
  | some e ↦ some (record {
    id = o.id;
    semester_id = o.semester_id;
    elective = e;
    groups = filter_groups f.only_open (groups_for by_code requests f.shift o.id t);
  })
]

abbrev pub has_groups : OfferingSummary → Bool
has_groups s = elim s.groups [ [] ↦ false | g ∷ rest ↦ true ]

abbrev pub add_summary : Bool → Option OfferingSummary → List OfferingSummary → List OfferingSummary
add_summary only_open none rest = rest
add_summary only_open (some s) rest = if only_open && not (has_groups s) then rest else s ∷ rest

-- The loop of `ListOfferings`.
unfoldable pub summaries :
    (Group → Group → Bool)
    → List EnrollmentRequest
    → OfferingFilter
    → Tables
    → List Offering
    → List OfferingSummary
unfolding summary
summaries by_code requests f t [] = []
summaries by_code requests f t (o ∷ rest) =
    add_summary f.only_open (summary by_code requests f t o) (summaries by_code requests f t rest)

-- `ListOfferings`; `by_elective` orders the offerings by the names of their electives.
unfoldable pub list_offerings :
    (Offering → Offering → Bool)
    → (Group → Group → Bool)
    → List EnrollmentRequest
    → OfferingFilter
    → Tables
    → List OfferingSummary
unfolding summaries
list_offerings by_elective by_code requests f t = summaries by_code requests f t (
    order_by by_elective
      (select (λ o. o.semester_id == f.semester_id && is_live o.status) t.offerings))

-- `ListEffectivePrerequisites`; `by_source` orders by the source and the name.
unfoldable pub list_effective_prerequisites :
    (Prerequisite → Prerequisite → Bool) → Uuid → Tables → List Prerequisite
list_effective_prerequisites by_source offering t =
    order_by by_source
      (select (λ p. p.owner == offering && is_live p.status) t.offering_prerequisites)

-- `GetOfferingDetail`; `none` is a nil detail.
unfoldable pub get_offering_detail :
    (Group → Group → Bool)
    → (Prerequisite → Prerequisite → Bool)
    → List EnrollmentRequest
    → Uuid
    → Tables
    → Option OfferingDetail
unfolding groups_for list_effective_prerequisites
get_offering_detail by_code by_source requests offering t =
    elim (find offering_key offering t.offerings) [
      | none ↦ none
      | some o ↦ elim (find elective_key o.elective_id t.electives) [
        | none ↦ none
        | some e ↦ some (record {
          id = o.id;
          semester_id = o.semester_id;
          elective = e;
          prerequisites = list_effective_prerequisites by_source offering t;
          groups = groups_for by_code requests none offering t;
        })
      ]
    ]
