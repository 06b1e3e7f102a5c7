-- ===== src/Student/Service/Listing.antt =====
-- `List` of internal/student: a page of the students that match a filter.
use profundiza_uq_backend.Base.{
  ℕ, zero, suc, ◌+◌, ◌-◌, ◌*◌, ◌^◌, ◌≤◌, ◌<◌, ◌≡◌, refl, sym, ◌∙◌, ap, arith, Bool, true, false,
  ◌&&◌, ◌||◌, Option, some, List, [], ◌∷◌, ◌++◌, ◌==◌, ltb, Result, ok, err, or_err, ◌>>=◌,
}
use profundiza_uq_backend.Base.Int.{ℤ, pos}
use profundiza_uq_backend.Base.Table.{count, select, limit, skip, order_by}
use profundiza_uq_backend.Base.Table.Pages.{limit_add, limit_all, length-order_by, length-select}
use profundiza_uq_backend.Base.Text.{Text, text_eq, is_empty}
use profundiza_uq_backend.Shared.Paging.{
  page_of, page_size_of, offset_of, max_page_size, mul_bound, page_size_of-bounds, offset_of_exact,
}
use profundiza_uq_backend.Shared.Shift.{AcademicShift, same_as}
use profundiza_uq_backend.Shared.Validation.{if_given}
use profundiza_uq_backend.Student.Domain.{Status, active, inactive, unknown, Student}
use profundiza_uq_backend.Student.Service.{StudentError, database, Tables}

-- `ListFilter`
pub record ListFilter : Type 0 where
  pub page : ℤ
  pub page_size : ℤ
  pub q : Text
  pub shift : Option AcademicShift
  pub status : Option Status

-- `Page`
pub record Page : Type 0 where
  pub items : List Student
  pub page : ℕ
  pub page_size : ℕ
  pub total : ℕ

unfoldable pub same_status : Status → Status → Bool
same_status active active = true
same_status inactive inactive = true
same_status (unknown s) (unknown t) = text_eq s t
same_status _ _ = false

-- `ORDER BY created_at DESC, id DESC`
unfoldable pub latest : Student → Student → Bool
latest x y = ltb y.created_at x.created_at || (x.created_at == y.created_at && ltb y.id x.id)

-- `ilike` is PostgreSQL's ILIKE: a column and a pattern.
module _ (ilike : Text → Text → Bool) where
  -- The WHERE clause that `Repo.List` builds.
  unfoldable pub matches : ListFilter → Student → Bool
  unfolding same_status
  matches f s =
      (is_empty f.q
        || ilike s.full_name (b'%' ∷ f.q ++ b'%' ∷ [])
        || ilike s.institutional_email (b'%' ∷ f.q ++ b'%' ∷ [])
        || ilike s.document_number (b'%' ∷ f.q ++ b'%' ∷ []))
      && if_given (same_as s.academic_shift) f.shift
      && if_given (same_status s.status) f.status

  -- `Service.List`; `during` is what other sessions commit between the count and the query.
  unfoldable pub list : ListFilter → (Tables → Tables) → Tables → Result StudentError Page
  unfolding matches latest page_of page_size_of offset_of
  list f during db = do
    offset ← or_err (offset_of (page_of f.page) (page_size_of f.page_size)) database
    ok (record {
      items =
          limit (page_size_of f.page_size)
            (skip offset (order_by latest (select (matches f) (during db).students)));
      page = page_of f.page;
      page_size = page_size_of f.page_size;
      total = count (matches f) db.students;
    })

  abbrev items_of : Result StudentError Page → List Student
  items_of (ok p) = p.items
  items_of (err e) = []

  -- What a client collects that asks for the first pages one after another.
  unfoldable pub collected : ListFilter → Tables → ℕ → List Student
  collected f db zero = []
  collected f db (suc n) =
      collected f db n ++ items_of (list (record f { page = pos (suc n) }) (λ t. t) db)

  page-items :
      (f : ListFilter) (db : Tables) (n : ℕ)
      → n * page_size_of f.page_size < 2 ^ 63
      → items_of (list (record f { page = pos (suc n) }) (λ t. t) db)
        ≡ limit
            (page_size_of f.page_size)
            (skip (n * page_size_of f.page_size) (order_by latest (select (matches f) db.students)))
  unfolding list page_of
  page-items f db n h =
      let e : suc n - 1 ≡ n = omega arith in
      let exact : offset_of (suc n) (page_size_of f.page_size)
          ≡ some (n * page_size_of f.page_size) =
        offset_of_exact (suc n) (page_size_of f.page_size) (rw e h)
        ∙ ap (λ k. some (k * page_size_of f.page_size)) e in
      rw (list, exact) refl

  collected-eq-limit :
      (f : ListFilter) (db : Tables) (n : ℕ)
      → n * max_page_size < 2 ^ 63
      → collected f db n
        ≡ limit (n * page_size_of f.page_size) (order_by latest (select (matches f) db.students))
  unfolding collected limit
  collected-eq-limit f db zero h =
      let e : 0 * page_size_of f.page_size ≡ 0 = omega arith in rw e refl
  collected-eq-limit f db (suc n) h =
      let size = page_size_of f.page_size in
      let bound = page_size_of-bounds f.page_size in
      let less = mul_bound n size bound.1 in
      let ih = collected-eq-limit f db n (omega arith) in
      let e : suc n * size ≡ n * size + size = omega arith in
      rw (ih, page-items f db n (omega arith))
        (sym (limit_add (n * size) size (order_by latest (select (matches f) db.students)))
          ∙ ap (λ k. limit k (order_by latest (select (matches f) db.students))) (sym e))

  -- The pages of a filter, asked for one after another while the students stay as they are, show each
  -- student that matches once and in one order, if there are as many pages as the total asks for and
  -- the offset fits an int.
  pub list_pages :
      (f : ListFilter) (db : Tables) (n : ℕ)
      → n * max_page_size < 2 ^ 63
      → count (matches f) db.students ≤ n * page_size_of f.page_size
      → collected f db n ≡ order_by latest (select (matches f) db.students)
  list_pages f db n h enough =
      let rows = select (matches f) db.students in
      let total = length-order_by latest rows in
      let counted = length-select (matches f) db.students in
      collected-eq-limit f db n h ∙ limit_all (n * page_size_of f.page_size) _ (omega arith)
