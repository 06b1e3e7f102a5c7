-- ===== src/Review/Queue/Siblings.antt =====
-- The groups that are read for a page of the queue in one query.
use profundiza_uq_backend.Base.{
  ◌≡◌, refl, ap, ◌∙◌, arith, Bool, true, ◌&&◌, List, [], ◌∷◌, map, ◌++◌, Uuid, ◌==◌, ==_self,
  Bool-cases, inl, inr,
}
use profundiza_uq_backend.Base.Table.{is_in, All, count}
use profundiza_uq_backend.Base.Table.Pages.{count-order_by, count-select, count-map, count-ext}
use profundiza_uq_backend.Enrollment.Database.{is_live}
use profundiza_uq_backend.Catalog.Admin.{Group}
use profundiza_uq_backend.Review.Queue.{
  QueueItem, SiblingGroup, Snapshot, distinct_offerings, offering_groups_of, add_new, sibling,
  with_groups, attach_offering_groups,
}

abbrev offering_of : QueueItem → Uuid
offering_of q = q.request.row.offering_id

is_in-append : (ids more : List Uuid) (x : Uuid) → is_in ids x ≡ true → is_in (ids ++ more) x ≡ true
is_in-append [] more x h = absurd (ground arith)
is_in-append (y ∷ ids) more x h = elim (Bool-cases (y == x)) [
  | inl e ↦ rw e refl
  | inr e ↦
      let later : is_in ids x ≡ true = ground arith in
      let ih = is_in-append ids more x later in rw e ih
]

is_in-last : (ids : List Uuid) (x : Uuid) → is_in (ids ++ x ∷ []) x ≡ true
is_in-last [] x = rw (==_self x) refl
is_in-last (y ∷ ids) x = elim (Bool-cases (y == x)) [
  | inl e ↦ rw e refl
  | inr e ↦ rw e (is_in-last ids x)
]

is_in-add_new :
    (ids : List Uuid) (id x : Uuid) → is_in ids x ≡ true → is_in (add_new ids id) x ≡ true
unfolding add_new
is_in-add_new ids id x h = elim (Bool-cases (is_in ids id)) [
  | inl e ↦ rw e h
  | inr e ↦ rw e (is_in-append ids _ x h)
]

is_in-add_new_self : (ids : List Uuid) (id : Uuid) → is_in (add_new ids id) id ≡ true
unfolding add_new
is_in-add_new_self ids id = elim (Bool-cases (is_in ids id)) [
  | inl e ↦ rw e e
  | inr e ↦ rw e (is_in-last ids id)
]

is_in-distinct :
    (ids : List Uuid) (items : List QueueItem) (x : Uuid)
    → is_in ids x ≡ true
    → is_in (distinct_offerings ids items) x ≡ true
unfolding distinct_offerings
is_in-distinct ids [] x h = h
is_in-distinct ids (q ∷ rest) x h =
    is_in-distinct (add_new ids (offering_of q)) rest x (is_in-add_new ids _ x h)

-- The offering of each item is in the batch.
every_offering_read :
    (ids : List Uuid) (items : List QueueItem)
    → All (λ (q : QueueItem). is_in (distinct_offerings ids items) (offering_of q) ≡ true) items
unfolding distinct_offerings
every_offering_read ids [] = tt
every_offering_read ids (q ∷ rest) = (
  is_in-distinct (add_new ids (offering_of q)) rest _ (is_in-add_new_self ids (offering_of q)),
  every_offering_read (add_new ids (offering_of q)) rest,
)

-- The active groups of an item's offering, as a query for it alone would count them.
abbrev pub is_sibling : QueueItem → Group → Bool
is_sibling q g = g.offering_id == q.request.row.offering_id && is_live g.status

module _ (by_offering : Group → Group → Bool) (t : Snapshot) (p : SiblingGroup → Bool) where
  abbrev pub HasSiblings : QueueItem → Type 0
  HasSiblings q =
      count p q.offering_groups
      ≡ count (λ (g : Group). is_sibling q g && p (sibling t.enrollment.requests g))
          t.catalog.groups

  same_test :
      (ids : List Uuid) (q : QueueItem)
      → is_in ids (offering_of q) ≡ true
      → (g : Group)
      → ((is_in ids g.offering_id && is_live g.status)
          && ((g.offering_id == offering_of q) && p (sibling t.enrollment.requests g)))
        ≡ (is_sibling q g && p (sibling t.enrollment.requests g))
  same_test ids q h g = elim (Bool-cases (g.offering_id == offering_of q)) [
    | inl e ↦
        let same : g.offering_id ≡ offering_of q = ground arith in
        let listed : is_in ids g.offering_id ≡ true = ap (is_in ids) same ∙ h in ground arith
    | inr e ↦ ground arith
  ]

  with_groups-HasSiblings :
      (ids : List Uuid) (q : QueueItem)
      → is_in ids (offering_of q) ≡ true
      → HasSiblings (with_groups (offering_groups_of by_offering t ids) q)
  unfolding offering_groups_of
  with_groups-HasSiblings ids q h =
      count-select p (λ (g : SiblingGroup). g.offering_id == offering_of q) _
      ∙ count-map _ (sibling t.enrollment.requests) _
      ∙ count-order_by _ by_offering _
      ∙ count-select _ _ t.catalog.groups
      ∙ count-ext _ _ (same_test ids q h) t.catalog.groups

  map-HasSiblings :
      (ids : List Uuid) (items : List QueueItem)
      → All (λ (q : QueueItem). is_in ids (offering_of q) ≡ true) items
      → All HasSiblings (map (with_groups (offering_groups_of by_offering t ids)) items)
  map-HasSiblings ids [] h = tt
  map-HasSiblings ids (q ∷ rest) (here, there) =
      (with_groups-HasSiblings ids q here, map-HasSiblings ids rest there)

-- The one query for the groups of a page gives each item the active groups of its own offering and no
-- other, as a query for the item alone would: any test holds for as many of them.
pub attach_offering_groups_lem :
    (by_offering : Group → Group → Bool) (t : Snapshot) (p : SiblingGroup → Bool)
    (items : List QueueItem)
    → All (HasSiblings by_offering t p) (attach_offering_groups by_offering t items)
unfolding attach_offering_groups
attach_offering_groups_lem by_offering t p items =
    map-HasSiblings by_offering t p (distinct_offerings [] items) items
      (every_offering_read [] items)
