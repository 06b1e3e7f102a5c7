-- ===== src/Review/Queue/Listing.antt =====
-- The pages of the queue, one after another.
use profundiza_uq_backend.Base.{
  ℕ, zero, suc, ◌+◌, ◌-◌, ◌*◌, ◌^◌, ◌≤◌, ◌<◌, ◌≡◌, refl, sym, ◌∙◌, ap, inl, inr, arith, Bool, true,
  false, Option, none, some, List, [], ◌∷◌, ◌++◌, map, is_ok, Result-cases,
}
use profundiza_uq_backend.Base.Int.{ℤ, pos, negsuc}
use profundiza_uq_backend.Base.Table.{All, count, select, limit, skip, order_by}
use profundiza_uq_backend.Base.Table.Keys.{All-select}
use profundiza_uq_backend.Base.Table.Laws.{All-weaken}
use profundiza_uq_backend.Base.Table.Ordered.{
  IsOrdered, order_by-IsOrdered, map-order_by, map-limit, map-skip,
}
use profundiza_uq_backend.Base.Table.Pages.{limit_add, limit_all, length-order_by, length-select}
use profundiza_uq_backend.Shared.Paging.{page_of, offset_of_exact, max_page_size, mul_bound}
use profundiza_uq_backend.Enrollment.Database.{EnrollmentRequest}
use profundiza_uq_backend.Catalog.Admin.{Group}
use profundiza_uq_backend.Review.Queue.{
  QueueFilter, QueueItem, SiblingGroup, Snapshot, joined, joined_rows, row_of, is_before,
  is_earlier, in_queue, queue_page_size, page_rows, with_groups, attach_offering_groups, list_queue,
}
use profundiza_uq_backend.Review.Queue.Warnings.{joined-row}

is_before_total : (r q : EnrollmentRequest) → is_before r q ≡ false → is_before q r ≡ true
unfolding is_before
is_before_total r q h = ground arith

queue_page_size-bounds : (z : ℤ) → queue_page_size z ≤ max_page_size
unfolding queue_page_size
queue_page_size-bounds (pos zero) = omega arith
queue_page_size-bounds (pos (suc n)) = ground arith
queue_page_size-bounds (negsuc n) = omega arith

-- Each request finds its student, its elective and its group: the foreign keys of the tables.
abbrev pub IsJoined : Snapshot → EnrollmentRequest → Type 0
IsJoined t r = is_ok (joined t r) ≡ true

rows_of_joined :
    (t : Snapshot) (rs : List EnrollmentRequest)
    → All (IsJoined t) rs
    → map row_of (joined_rows t rs) ≡ rs
unfolding joined_rows
rows_of_joined t [] h = refl
rows_of_joined t (r ∷ rs) (here, there) =
    let ih = rows_of_joined t rs there in
    elim (Result-cases (joined t r)) [
      | inl (q, e) ↦
          let same = joined-row t r e in
          rw e (ap (λ x. x ∷ map row_of (joined_rows t rs)) same ∙ ap (λ x. r ∷ x) ih)
      | inr (u, e) ↦ absurd (ground arith)
    ]

rows_of_attached :
    (rows : List SiblingGroup) (items : List QueueItem)
    → map row_of (map (with_groups rows) items) ≡ map row_of items
rows_of_attached rows [] = refl
rows_of_attached rows (q ∷ items) = ap (λ x. row_of q ∷ x) (rows_of_attached rows items)

-- The requests of a page.
abbrev pub requests_of : Option (List QueueItem × ℕ) → List EnrollmentRequest
requests_of none = []
requests_of (some (items, total)) = map row_of items

module _ (by_offering : Group → Group → Bool) (f : QueueFilter) (t : Snapshot) where
  -- The requests that match the filter, by the rank of their priority and then by their arrival.
  abbrev pub queued : List EnrollmentRequest
  queued = order_by is_before (select (in_queue f) t.enrollment.requests)

  -- The page of a number.
  abbrev pub page : ℕ → Option (List QueueItem × ℕ)
  page n = list_queue by_offering (record f { page = pos n }) (λ u. u) (λ u. u) t

  -- What an administrator sees who asks for the first pages one after another.
  unfoldable pub collected : ℕ → List EnrollmentRequest
  collected zero = []
  collected (suc n) = collected n ++ requests_of (page (suc n))

  rows_of_page :
      (offset : ℕ)
      → All (IsJoined t) t.enrollment.requests
      → map row_of (page_rows f offset t) ≡ limit (queue_page_size f.page_size) (skip offset queued)
  unfolding page_rows
  rows_of_page offset joins =
      let matching =
        All-select (IsJoined t) (in_queue f) t.enrollment.requests
          (All-weaken t.enrollment.requests (λ r h e. h) joins) in
      map-limit row_of _ _
      ∙ ap (limit (queue_page_size f.page_size)) (
          map-skip row_of offset _
          ∙ ap (skip offset) (
              map-order_by row_of is_earlier is_before (λ x y. refl) _
              ∙ ap (order_by is_before) (rows_of_joined t _ matching)))

  page-rows :
      (n : ℕ)
      → All (IsJoined t) t.enrollment.requests
      → n * queue_page_size f.page_size < 2 ^ 63
      → requests_of (page (suc n))
        ≡ limit (queue_page_size f.page_size) (skip (n * queue_page_size f.page_size) queued)
  unfolding list_queue attach_offering_groups page_of
  page-rows n joins h =
      let e : suc n - 1 ≡ n = omega arith in
      let exact =
        offset_of_exact (suc n) (queue_page_size f.page_size) (rw e h)
        ∙ ap (λ k. some (k * queue_page_size f.page_size)) e in
      rw (list_queue, exact)
        (rows_of_attached _ _ ∙ rows_of_page (n * queue_page_size f.page_size) joins)

  collected-eq-limit :
      (n : ℕ)
      → All (IsJoined t) t.enrollment.requests
      → n * max_page_size < 2 ^ 63
      → collected n ≡ limit (n * queue_page_size f.page_size) queued
  unfolding collected limit
  collected-eq-limit zero joins h =
      let e : 0 * queue_page_size f.page_size ≡ 0 = omega arith in rw e refl
  collected-eq-limit (suc n) joins h =
      let size = queue_page_size f.page_size in
      let less = mul_bound n size (queue_page_size-bounds f.page_size) in
      let ih = collected-eq-limit n joins (omega arith) in
      let e : suc n * size ≡ n * size + size = omega arith in
      rw (ih, page-rows n joins (omega arith))
        (sym (limit_add (n * size) size queued) ∙ ap (λ k. limit k queued) (sym e))

  -- The pages of the queue, asked for one after another while the tables stay as they are, show each
  -- request that matches the filter once, ordered by the rank of the priority and then by the
  -- arrival, if each request has its student, elective and group, there are as many pages as the
  -- matching requests need, and the offset fits an int.
  pub queue_pages :
      (n : ℕ)
      → All (IsJoined t) t.enrollment.requests
      → n * max_page_size < 2 ^ 63
      → count (in_queue f) t.enrollment.requests ≤ n * queue_page_size f.page_size
      → (collected n ≡ order_by is_before (select (in_queue f) t.enrollment.requests))
        × IsOrdered is_before (collected n)
  queue_pages n joins h enough =
      let rows = select (in_queue f) t.enrollment.requests in
      let total = length-order_by is_before rows in
      let counted = length-select (in_queue f) t.enrollment.requests in
      let all =
        collected-eq-limit n joins h
        ∙ limit_all (n * queue_page_size f.page_size) queued (omega arith) in
      (all, rw all (order_by-IsOrdered is_before is_before_total rows))
