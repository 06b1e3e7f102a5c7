-- ===== src/Base/Table/Ordered.antt =====
-- ORDER BY sorts, and a page of sorted rows is sorted.
use Prim.Native.Nat.{ℕ, zero, suc}
use mathlib.Core.Path.{◌≡◌, refl, ap, ◌∙◌}
use mathlib.Core.Logic.{inl, inr}
use mathlib.Core.Bool.{Bool, true, false}
use mathlib.Core.List.{List, [], ◌∷◌, map}
use profundiza_uq_backend.Base.Tests.{Bool-cases}
use profundiza_uq_backend.Base.Table.{limit, skip, insert_by, order_by}

module _ {ℓ} {A : Type ℓ} (before : A → A → Bool) where
  abbrev pub IsFirst : A → List A → Type 0
  IsFirst x [] = Unit
  IsFirst x (y ∷ rest) = before x y ≡ true

  -- Each row comes before the next one.
  abbrev pub IsOrdered : List A → Type 0
  IsOrdered [] = Unit
  IsOrdered (x ∷ rest) = IsFirst x rest × IsOrdered rest

  limit-IsFirst : (x : A) (n : ℕ) (xs : List A) → IsFirst x xs → IsFirst x (limit n xs)
  unfolding limit
  limit-IsFirst x zero xs h = tt
  limit-IsFirst x (suc n) [] h = tt
  limit-IsFirst x (suc n) (y ∷ ys) h = h

  pub limit-IsOrdered : (n : ℕ) (xs : List A) → IsOrdered xs → IsOrdered (limit n xs)
  unfolding limit
  limit-IsOrdered zero xs h = tt
  limit-IsOrdered (suc n) [] h = tt
  limit-IsOrdered (suc n) (x ∷ xs) (least, h) = (limit-IsFirst x n xs least, limit-IsOrdered n xs h)

  pub skip-IsOrdered : (n : ℕ) (xs : List A) → IsOrdered xs → IsOrdered (skip n xs)
  unfolding skip
  skip-IsOrdered zero xs h = h
  skip-IsOrdered (suc n) [] h = tt
  skip-IsOrdered (suc n) (x ∷ xs) (least, h) = skip-IsOrdered n xs h

  module _ (total : (x y : A) → before x y ≡ false → before y x ≡ true) where
    insert_by-IsFirst :
        (y x : A) (xs : List A)
        → before y x ≡ true
        → IsFirst y xs
        → IsFirst y (insert_by before x xs)
    unfolding insert_by
    insert_by-IsFirst y x [] e h = e
    insert_by-IsFirst y x (z ∷ zs) e h = elim (Bool-cases (before x z)) [
      | inl b ↦ rw b e
      | inr b ↦ rw b h
    ]

    insert_by-IsOrdered : (x : A) (xs : List A) → IsOrdered xs → IsOrdered (insert_by before x xs)
    unfolding insert_by
    insert_by-IsOrdered x [] h = (tt, tt)
    insert_by-IsOrdered x (y ∷ ys) (least, h) =
        let ih = insert_by-IsOrdered x ys h in
        elim (Bool-cases (before x y)) [
          | inl e ↦ rw e (e, (least, h))
          | inr e ↦ rw e (insert_by-IsFirst y x ys (total x y e) least, ih)
        ]

    pub order_by-IsOrdered : (xs : List A) → IsOrdered (order_by before xs)
    unfolding order_by
    order_by-IsOrdered [] = tt
    order_by-IsOrdered (x ∷ xs) = insert_by-IsOrdered x _ (order_by-IsOrdered xs)

-- A map that keeps the order of the rows commutes with ORDER BY, LIMIT and OFFSET.
module _ {ℓ κ} {A : Type ℓ} {B : Type κ} (f : A → B) where
  module _ (before : A → A → Bool) (before' : B → B → Bool)
      (same : (x y : A) → before x y ≡ before' (f x) (f y)) where
    map-insert_by :
        (x : A) (xs : List A) → map f (insert_by before x xs) ≡ insert_by before' (f x) (map f xs)
    unfolding insert_by
    map-insert_by x [] = refl
    map-insert_by x (y ∷ ys) =
        let ih = map-insert_by x ys in
        let agrees = same x y in
        elim (Bool-cases (before' (f x) (f y))) [
          | inl e ↦ rw (agrees, e) refl
          | inr e ↦ rw (agrees, e) (ap (λ t. f y ∷ t) ih)
        ]

    pub map-order_by : (xs : List A) → map f (order_by before xs) ≡ order_by before' (map f xs)
    unfolding order_by
    map-order_by [] = refl
    map-order_by (x ∷ xs) =
        map-insert_by x (order_by before xs) ∙ ap (insert_by before' (f x)) (map-order_by xs)

  pub map-limit : (n : ℕ) (xs : List A) → map f (limit n xs) ≡ limit n (map f xs)
  unfolding limit
  map-limit zero xs = refl
  map-limit (suc n) [] = refl
  map-limit (suc n) (x ∷ xs) = ap (λ t. f x ∷ t) (map-limit n xs)

  pub map-skip : (n : ℕ) (xs : List A) → map f (skip n xs) ≡ skip n (map f xs)
  unfolding skip
  map-skip zero xs = refl
  map-skip (suc n) [] = refl
  map-skip (suc n) (x ∷ xs) = map-skip n xs
