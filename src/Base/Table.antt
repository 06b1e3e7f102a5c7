-- ===== src/Base/Table.antt =====
-- A database table as a list of rows in insertion order, found and updated by a key.
pub mod Laws
pub mod Keys
pub mod Pages
pub mod Distinct
pub mod Ordered
use Prim.Native.Nat.{ℕ, zero, suc, ◌+◌, ◌≤◌}
use mathlib.Core.Bool.{Bool, true, false, ◌||◌}
use mathlib.Core.Option.{Option, none, some}
use mathlib.Core.List.{List, [], ◌∷◌}
use native.Mathlib.Omega.{arith}
use profundiza_uq_backend.Base.Tests.{◌==◌, leb, if◌then◌else◌}

abbrev pub tally : Bool → ℕ
tally true = 1
tally false = 0

pub tally-le_one : (b : Bool) → tally b ≤ 1
tally-le_one true = omega arith
tally-le_one false = omega arith

abbrev pub is_in : List ℕ → ℕ → Bool
is_in [] id = false
is_in (x ∷ xs) id = x == id || is_in xs id

-- A foreign key that may be NULL, to the rows of these ids.
abbrev pub refers : Option ℕ → List ℕ → Bool
refers none ids = true
refers (some id) ids = is_in ids id

module _ {ℓ} {A : Type ℓ} where
  abbrev pub length : List A → ℕ
  length [] = 0
  length (x ∷ xs) = suc (length xs)

  abbrev pub All {κ} : (A → Type κ) → List A → Type κ
  All P [] = Unit
  All P (x ∷ xs) = P x × All P xs

  -- `SELECT count(*) ... WHERE p`
  unfoldable pub count : (A → Bool) → List A → ℕ
  count p [] = 0
  count p (x ∷ xs) = tally (p x) + count p xs

  -- `SELECT ... WHERE p`
  unfoldable pub select : (A → Bool) → List A → List A
  select p [] = []
  select p (x ∷ xs) = let rest = select p xs in if p x then x ∷ rest else rest

  -- `SELECT ... WHERE p` for one row
  unfoldable pub select_one : (A → Bool) → List A → Option A
  select_one p [] = none
  select_one p (x ∷ xs) = if p x then some x else select_one p xs

  -- `SELECT ... WHERE p ORDER BY by LIMIT 1`, after the best row found so far
  unfoldable pub least_from : (A → ℕ) → Option A → List A → Option A
  least_from by best [] = best
  least_from by none (x ∷ xs) = least_from by (some x) xs
  least_from by (some b) (x ∷ xs) = least_from by (if leb (by b) (by x) then some b else some x) xs

  unfoldable pub least : (A → ℕ) → List A → Option A
  unfolding least_from
  least by xs = least_from by none xs

  -- `... ORDER BY by DESC LIMIT 1`
  unfoldable pub greatest_from : (A → ℕ) → Option A → List A → Option A
  greatest_from by best [] = best
  greatest_from by none (x ∷ xs) = greatest_from by (some x) xs
  greatest_from by (some b) (x ∷ xs) =
      greatest_from by (if leb (by x) (by b) then some b else some x) xs

  unfoldable pub greatest : (A → ℕ) → List A → Option A
  unfolding greatest_from
  greatest by xs = greatest_from by none xs

  -- `UPDATE ... WHERE key = k`, for a primary key
  unfoldable pub modify : (A → ℕ) → ℕ → (A → A) → List A → List A
  modify key k f [] = []
  modify key k f (x ∷ xs) = if key x == k then f x ∷ xs else x ∷ modify key k f xs

  -- `UPDATE ... WHERE p`
  unfoldable pub modify_where : (A → Bool) → (A → A) → List A → List A
  modify_where p f [] = []
  modify_where p f (x ∷ xs) = (if p x then f x else x) ∷ modify_where p f xs

  -- `SELECT ... WHERE key = k`
  unfoldable pub find : (A → ℕ) → ℕ → List A → Option A
  find key k [] = none
  find key k (x ∷ xs) = if key x == k then some x else find key k xs

  -- `LIMIT n`
  unfoldable pub limit : ℕ → List A → List A
  limit zero xs = []
  limit (suc n) [] = []
  limit (suc n) (x ∷ xs) = x ∷ limit n xs

  -- `OFFSET n`
  unfoldable pub skip : ℕ → List A → List A
  skip zero xs = xs
  skip (suc n) [] = []
  skip (suc n) (x ∷ xs) = skip n xs

  -- `ORDER BY`: `before x y` says that `x` comes first.
  unfoldable pub insert_by : (A → A → Bool) → A → List A → List A
  insert_by before x [] = x ∷ []
  insert_by before x (y ∷ ys) =
      let later = insert_by before x ys in if before x y then x ∷ y ∷ ys else y ∷ later

  unfoldable pub order_by : (A → A → Bool) → List A → List A
  unfolding insert_by
  order_by before [] = []
  order_by before (x ∷ xs) = insert_by before x (order_by before xs)
