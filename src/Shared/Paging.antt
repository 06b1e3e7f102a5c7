-- ===== src/Shared/Paging.antt =====
-- The pagination of the paged listings: Normalize of internal/student/app/service.go, which
-- internal/adminuser/app/service.go repeats. Go's int has 64 bits.
use profundiza_uq_backend.Base.{
  ℕ, zero, suc, ◌+◌, ◌-◌, ◌*◌, ◌%◌, ◌^◌, ◌≤◌, ◌<◌, ◌≡◌, Option, none, some, arith, ltb,
  if◌then◌else◌,
}
use profundiza_uq_backend.Base.Int.{ℤ, pos, negsuc}

abbrev pub default_page_size : ℕ
default_page_size = 20

abbrev pub max_page_size : ℕ
max_page_size = 100

-- `if f.Page < 1 { f.Page = defaultPage }`
unfoldable pub page_of : ℤ → ℕ
page_of (pos zero) = 1
page_of (pos (suc n)) = suc n
page_of (negsuc n) = 1

-- The two clamps of the page size.
unfoldable pub page_size_of : ℤ → ℕ
page_size_of (pos zero) = default_page_size
page_size_of (pos (suc n)) = if ltb max_page_size (suc n) then max_page_size else suc n
page_size_of (negsuc n) = default_page_size

-- `(f.Page - 1) * f.PageSize`, where `none` is a product that wraps around to a negative number.
unfoldable pub offset_of : ℕ → ℕ → Option ℕ
offset_of page size =
    let wrapped = (page - 1) * size % 2 ^ 64 in if ltb wrapped (2 ^ 63) then some wrapped else none

pub page_of-bounds : (p : ℤ) → 1 ≤ page_of p
unfolding page_of
page_of-bounds (pos zero) = omega arith
page_of-bounds (pos (suc n)) = omega arith
page_of-bounds (negsuc n) = omega arith

pub page_size_of-bounds : (s : ℤ) → (1 ≤ page_size_of s) × (page_size_of s ≤ max_page_size)
unfolding page_size_of
page_size_of-bounds (pos zero) = omega arith
page_size_of-bounds (pos (suc n)) = ground arith
page_size_of-bounds (negsuc n) = omega arith

pub offset_of_exact :
    (page size : ℕ) → (page - 1) * size < 2 ^ 63 → offset_of page size ≡ some ((page - 1) * size)
unfolding offset_of
offset_of_exact page size h = ground arith

pub mul_bound : (n size : ℕ) → size ≤ max_page_size → n * size ≤ n * max_page_size
mul_bound zero size h = omega arith
mul_bound (suc n) size h =
    let ih = mul_bound n size h in
    let a : suc n * size ≡ n * size + size = omega arith in
    let b : suc n * max_page_size ≡ n * max_page_size + max_page_size = omega arith in omega arith
