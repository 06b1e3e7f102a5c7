-- ===== src/Base/Table/Distinct.antt =====
-- A unique index: no two rows of a table agree.
use Prim.Native.Nat.{ℕ}
use mathlib.Core.Path.{◌≡◌, ◌∙◌}
use mathlib.Core.Logic.{inl, inr}
use mathlib.Core.Bool.{Bool, false}
use mathlib.Core.Option.{none}
use mathlib.Core.List.{List, [], ◌∷◌, ◌++◌}
use native.Mathlib.Omega.{arith}
use profundiza_uq_backend.Base.Tests.{◌==◌, Bool-cases}
use profundiza_uq_backend.Base.Table.{All, select_one, modify}
use profundiza_uq_backend.Base.Table.Laws.{All-insert, All-weaken}
use profundiza_uq_backend.Base.Table.Keys.{All-modify}

module _ {ℓ} {A : Type ℓ} (agrees : A → A → Bool) where
  abbrev pub IsDistinct : List A → Type 0
  IsDistinct [] = Unit
  IsDistinct (x ∷ rest) = All (λ y. agrees x y ≡ false) rest × IsDistinct rest

  -- An insert behind the index's test.
  pub insert-IsDistinct :
      (xs : List A) (x : A)
      → select_one (λ y. agrees y x) xs ≡ none
      → IsDistinct xs
      → IsDistinct (xs ++ x ∷ [])
  unfolding select_one
  insert-IsDistinct [] x free h = (tt, tt)
  insert-IsDistinct (y ∷ ys) x free (apart, h) = elim (Bool-cases (agrees y x)) [
    | inl e ↦ ground arith
    | inr e ↦
        let rest : select_one (λ z. agrees z x) ys ≡ none = ground arith in
        (All-insert (λ z. agrees y z ≡ false) ys x apart e, insert-IsDistinct ys x rest h)
  ]

  -- An update that leaves the indexed columns.
  pub modify-IsDistinct :
      (key : A → ℕ) (k : ℕ) (f : A → A) (xs : List A)
      → ((x y : A) → agrees (f x) y ≡ agrees x y)
      → ((x y : A) → agrees x (f y) ≡ agrees x y)
      → IsDistinct xs
      → IsDistinct (modify key k f xs)
  unfolding modify
  modify-IsDistinct key k f [] left right h = tt
  modify-IsDistinct key k f (x ∷ xs) left right (apart, h) =
      let ih = modify-IsDistinct key k f xs left right h in
      let rest = All-modify (λ y. agrees x y ≡ false) key k f xs (λ y e. right x y ∙ e) apart in
      elim (Bool-cases (key x == k)) [
        | inl e ↦ rw e (All-weaken xs (λ y a. left x y ∙ a) apart, h)
        | inr e ↦ rw e (rest, ih)
      ]
