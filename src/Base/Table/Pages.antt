-- ===== src/Base/Table/Pages.antt =====
-- Pages of an ordered query: consecutive LIMITs and OFFSETs show each row once.
use Prim.Native.Nat.{ℕ, zero, suc, ◌+◌, ◌≤◌}
use mathlib.Core.Path.{◌≡◌, refl, ap}
use mathlib.Core.Logic.{inl, inr}
use mathlib.Core.Bool.{Bool, ◌&&◌}
use mathlib.Core.List.{List, [], ◌∷◌, ◌++◌, map}
use native.Mathlib.Omega.{arith}
use profundiza_uq_backend.Base.Tests.{Bool-cases}
use profundiza_uq_backend.Base.Table.{
  length, tally, count, select, limit, skip, insert_by, order_by,
}

module _ {ℓ} {A : Type ℓ} where
  pub limit_add : (a b : ℕ) (xs : List A) → limit (a + b) xs ≡ limit a xs ++ limit b (skip a xs)
  unfolding limit skip
  limit_add zero b xs = let e : 0 + b ≡ b = omega arith in rw e refl
  limit_add (suc a) zero [] = let e : suc a + 0 ≡ suc a = omega arith in rw e refl
  limit_add (suc a) (suc b) [] = let e : suc a + suc b ≡ suc (a + suc b) = omega arith in rw e refl
  limit_add (suc a) b (x ∷ xs) =
      let e : suc a + b ≡ suc (a + b) = omega arith in rw e (ap (λ t. x ∷ t) (limit_add a b xs))

  pub length-limit_le : (k : ℕ) (xs : List A) → length (limit k xs) ≤ k
  unfolding limit
  length-limit_le zero xs = omega arith
  length-limit_le (suc k) [] = omega arith
  length-limit_le (suc k) (x ∷ xs) = let h = length-limit_le k xs in omega arith

  pub limit_all : (k : ℕ) (xs : List A) → length xs ≤ k → limit k xs ≡ xs
  unfolding limit
  limit_all zero [] h = refl
  limit_all zero (x ∷ xs) h = absurd (omega arith)
  limit_all (suc k) [] h = refl
  limit_all (suc k) (x ∷ xs) h = ap (λ t. x ∷ t) (limit_all k xs (omega arith))

  length-insert_by :
      (before : A → A → Bool) (x : A) (xs : List A)
      → length (insert_by before x xs) ≡ suc (length xs)
  unfolding insert_by
  length-insert_by before x [] = refl
  length-insert_by before x (y ∷ ys) =
      let ih = length-insert_by before x ys in
      elim (Bool-cases (before x y)) [ inl e ↦ rw e refl | inr e ↦ rw e (ap suc ih) ]

  pub length-order_by :
      (before : A → A → Bool) (xs : List A) → length (order_by before xs) ≡ length xs
  unfolding order_by
  length-order_by before [] = refl
  length-order_by before (x ∷ xs) =
      let ih = length-order_by before xs in
      let h = length-insert_by before x (order_by before xs) in omega arith

  pub length-select : (p : A → Bool) (xs : List A) → length (select p xs) ≡ count p xs
  unfolding select count
  length-select p [] = refl
  length-select p (x ∷ xs) = ground (arith, length-select p xs)

  count-insert_by :
      (p : A → Bool) (before : A → A → Bool) (x : A) (xs : List A)
      → count p (insert_by before x xs) ≡ tally (p x) + count p xs
  unfolding insert_by count
  count-insert_by p before x [] = refl
  count-insert_by p before x (y ∷ ys) =
      let ih = count-insert_by p before x ys in
      elim (Bool-cases (before x y)) [ inl e ↦ rw e refl | inr e ↦ rw e (omega arith) ]

  -- An order keeps the rows of each test.
  pub count-order_by :
      (p : A → Bool) (before : A → A → Bool) (xs : List A)
      → count p (order_by before xs) ≡ count p xs
  unfolding order_by count
  count-order_by p before [] = refl
  count-order_by p before (x ∷ xs) =
      let ih = count-order_by p before xs in
      let h = count-insert_by p before x (order_by before xs) in omega arith

  pub count-select :
      (p q : A → Bool) (xs : List A) → count p (select q xs) ≡ count (λ x. q x && p x) xs
  unfolding select count
  count-select p q [] = refl
  count-select p q (x ∷ xs) =
      let ih = count-select p q xs in
      elim (Bool-cases (q x)) [ inl e ↦ rw e (omega arith) | inr e ↦ rw e (omega arith) ]

  pub count-map {κ} :
      {B : Type κ} (p : B → Bool) (f : A → B) (xs : List A)
      → count p (map f xs) ≡ count (λ x. p (f x)) xs
  unfolding count
  count-map p f [] = refl
  count-map p f (x ∷ xs) = ap (λ n. tally (p (f x)) + n) (count-map p f xs)

  pub count-ext : (p q : A → Bool) → ((x : A) → p x ≡ q x) → (xs : List A) → count p xs ≡ count q xs
  unfolding count
  count-ext p q same [] = refl
  count-ext p q same (x ∷ xs) = rw (same x, count-ext p q same xs) refl

  pub length-map {κ} : {B : Type κ} (f : A → B) (xs : List A) → length (map f xs) ≡ length xs
  length-map f [] = refl
  length-map f (x ∷ xs) = ap suc (length-map f xs)
