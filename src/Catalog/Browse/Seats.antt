-- ===== src/Catalog/Browse/Seats.antt =====
-- The seats that a student sees and the place that a submission gets.
use profundiza_uq_backend.Base.{
  ◌≡◌, ◌↔◌, inl, inr, arith, Bool, true, some, List, [], ◌∷◌, map, Bool-cases, Option-cases,
}
use mathlib.Core.Path.{subst}
use profundiza_uq_backend.Base.Table.{All, find}
use profundiza_uq_backend.Base.Table.Keys.{All-select}
use profundiza_uq_backend.Enrollment.Classify.{classify, has_direct_room, direct_slots_taken}
use profundiza_uq_backend.Enrollment.Database.{Database, OfferingGroup, is_live}
use profundiza_uq_backend.Enrollment.Status.{direct_same_shift, pending_review}
use profundiza_uq_backend.Enrollment.Submit.{occupancy}
use profundiza_uq_backend.Shared.Shift.{same_as_iff}
use profundiza_uq_backend.Catalog.Admin.{Group, Offering, Tables, elective_key}
use profundiza_uq_backend.Catalog.Browse.{
  GroupSeats, OfferingFilter, OfferingSummary, has_open_seats, with_counts, groups_for,
  filter_groups, summary, has_groups, summaries, list_offerings,
}

-- The columns of a group that the enrollment transactions read.
abbrev pub columns : Group → OfferingGroup
columns g = record {
  id = g.id;
  offering_id = g.offering_id;
  shift = g.shift;
  capacity = g.capacity;
  status = g.status;
}

-- A submission by a student of the group's shift would take a direct slot of an active group.
abbrev pub IsOpen : Database → Group → Type 0
IsOpen db g =
    (is_live g.status ≡ true)
    × (classify g.shift g.shift (occupancy db (columns g)) ≡ (direct_same_shift, pending_review))

-- The counts that the catalog shows are those of the submission: a group is shown with open seats
-- exactly if it is active and a student of its shift would get a direct slot.
pub has_open_seats_iff :
    (db : Database) (g : Group) → (has_open_seats (with_counts db.requests g) ≡ true) ↔ IsOpen db g
unfolding has_open_seats with_counts classify has_direct_room direct_slots_taken occupancy
has_open_seats_iff db g = ground (arith, same_as_iff g.shift g.shift)

counted :
    (db : Database) (gs : List Group)
    → All
        (λ (s : GroupSeats). has_open_seats s ≡ true → IsOpen db s.group)
        (map (with_counts db.requests) gs)
unfolding with_counts
counted db [] = tt
counted db (g ∷ rest) = ((has_open_seats_iff db g).0, counted db rest)

-- What a listing of the open groups may show.
abbrev pub IsOpenSummary : Database → OfferingSummary → Type 0
IsOpenSummary db s = (has_groups s ≡ true) × All (λ (g : GroupSeats). IsOpen db g.group) s.groups

module _ (by_code : Group → Group → Bool) (db : Database) (f : OfferingFilter) (t : Tables)
    (only : f.only_open ≡ true) where
  shown_groups :
      (o : Offering)
      → All
          (λ (g : GroupSeats). IsOpen db g.group)
          (filter_groups f.only_open (groups_for by_code db.requests f.shift o.id t))
  unfolding filter_groups groups_for
  shown_groups o =
      rw only (All-select (λ (g : GroupSeats). IsOpen db g.group) has_open_seats _ (counted db _))

  shown_summary :
      (o : Offering) (s : OfferingSummary)
      → summary by_code db.requests f t o ≡ some s
      → All (λ (g : GroupSeats). IsOpen db g.group) s.groups
  unfolding summary
  shown_summary o s h = elim (Option-cases (find elective_key o.elective_id t.electives)) [
    | inl e ↦ ground arith
    | inr (elective, e) ↦
        let groups : filter_groups f.only_open (groups_for by_code db.requests f.shift o.id t)
            ≡ s.groups =
          ground arith in
        subst (All (λ (g : GroupSeats). IsOpen db g.group)) groups (shown_groups o)
  ]

  shown_summaries :
      (os : List Offering) → All (IsOpenSummary db) (summaries by_code db.requests f t os)
  unfolding summaries
  shown_summaries [] = tt
  shown_summaries (o ∷ rest) =
      let ih = shown_summaries rest in
      elim (Option-cases (summary by_code db.requests f t o)) [
        | inl e ↦ rw e ih
        | inr (s, e) ↦ elim (Bool-cases (has_groups s)) [
          | inl some_group ↦ rw (e, only, some_group) ((some_group, shown_summary o s e), ih)
          | inr no_group ↦ rw (e, only, no_group) ih
        ]
      ]

-- With the filter for open groups, each offering that is listed has a group, and each group that is
-- shown is active and has a direct slot for a student of its shift, by the counts of the submission.
pub list_offerings-IsOpenSummary :
    (by_elective : Offering → Offering → Bool) (by_code : Group → Group → Bool) (db : Database)
    (f : OfferingFilter) (t : Tables)
    → f.only_open ≡ true
    → All (IsOpenSummary db) (list_offerings by_elective by_code db.requests f t)
unfolding list_offerings
list_offerings-IsOpenSummary by_elective by_code db f t only = shown_summaries by_code db f t only _
