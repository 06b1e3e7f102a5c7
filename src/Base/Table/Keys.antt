-- ===== src/Base/Table/Keys.antt =====
-- Tables with a primary key: no two rows have one key, and a lookup finds each row by its own.
use Prim.Native.Nat.{ℕ, ◌≤◌}
use mathlib.Core.Path.{◌≡◌, refl, subst}
use mathlib.Core.Logic.{inl, inr}
use mathlib.Core.Bool.{Bool, true, false}
use mathlib.Core.Option.{none, some}
use mathlib.Core.List.{List, [], ◌∷◌, ◌++◌}
use native.Mathlib.Omega.{arith}
use profundiza_uq_backend.Base.Table.Laws.{All-insert}
use profundiza_uq_backend.Base.Tests.{◌==◌, ==_self, leb, Bool-cases}
use profundiza_uq_backend.Base.Table.{
  All, select, modify, modify_where, find, least_from, least, count,
}

module _ {ℓ} {A : Type ℓ} (key : A → ℕ) where
  abbrev pub IsKeyed : List A → Type 0
  IsKeyed [] = Unit
  IsKeyed (x ∷ rest) = All (λ y. (key y == key x) ≡ false) rest × IsKeyed rest

  found_later :
      (x y : A) (rest : List A)
      → (key y == key x) ≡ false
      → find key (key y) rest ≡ some y
      → find key (key y) (x ∷ rest) ≡ some y
  unfolding find
  found_later x y rest apart h = ground arith

  found_in_rest :
      (x : A) (rest some_rows : List A)
      → All (λ y. (key y == key x) ≡ false) some_rows
      → All (λ y. find key (key y) rest ≡ some y) some_rows
      → All (λ y. find key (key y) (x ∷ rest) ≡ some y) some_rows
  found_in_rest x rest [] apart h = tt
  found_in_rest x rest (y ∷ ys) (apart, others) (here, there) =
      (found_later x y rest apart here, found_in_rest x rest ys others there)

  -- A lookup finds each row by its own key.
  pub find-IsKeyed : (xs : List A) → IsKeyed xs → All (λ y. find key (key y) xs ≡ some y) xs
  unfolding find
  find-IsKeyed [] h = tt
  find-IsKeyed (x ∷ rest) (apart, h) =
      (rw (==_self (key x)) refl, found_in_rest x rest rest apart (find-IsKeyed rest h))

module _ {ℓ} {A : Type ℓ} where
  pub All-modify {κ} :
      (P : A → Type κ) (key : A → ℕ) (k : ℕ) (f : A → A) (xs : List A)
      → ((x : A) → P x → P (f x))
      → All P xs
      → All P (modify key k f xs)
  unfolding modify
  All-modify P key k f [] keep h = tt
  All-modify P key k f (x ∷ xs) keep (here, there) =
      let ih = All-modify P key k f xs keep there in
      elim (Bool-cases (key x == k)) [ inl e ↦ rw e (keep x here, there) | inr e ↦ rw e (here, ih) ]

  -- An insert of a new key.
  pub insert-IsKeyed :
      (key : A → ℕ) (xs : List A) (x : A)
      → find key (key x) xs ≡ none
      → IsKeyed key xs
      → IsKeyed key (xs ++ x ∷ [])
  unfolding find
  insert-IsKeyed key [] x free h = (tt, tt)
  insert-IsKeyed key (y ∷ ys) x free (apart, h) = elim (Bool-cases (key y == key x)) [
    | inl e ↦ ground arith
    | inr e ↦
        let rest : find key (key x) ys ≡ none = ground arith in
        let other : (key x == key y) ≡ false = ground arith in
        (
          All-insert (λ z. (key z == key y) ≡ false) ys x apart other,
          insert-IsKeyed key ys x rest h,
        )
  ]

  -- An update of the row of a key, whose new value satisfies what all rows do.
  pub All-modify_found {κ} :
      (P : A → Type κ) (key : A → ℕ) (k : ℕ) (f : A → A) (xs : List A) {r : A}
      → find key k xs ≡ some r
      → P (f r)
      → All P xs
      → All P (modify key k f xs)
  unfolding find modify
  All-modify_found P key k f [] found new h = tt
  All-modify_found P key k f (x ∷ xs) {r} found new (here, there) = elim (Bool-cases (key x == k)) [
    | inl e ↦ let same : x ≡ r = ground arith in rw e (rw same new, there)
    | inr e ↦
        let rest : find key k xs ≡ some r = ground arith in
        rw e (here, All-modify_found P key k f xs rest new there)
  ]

  pub modify-IsKeyed :
      (key : A → ℕ) (k : ℕ) (f : A → A) (xs : List A)
      → ((x : A) → key (f x) ≡ key x)
      → IsKeyed key xs
      → IsKeyed key (modify key k f xs)
  unfolding modify
  modify-IsKeyed key k f [] same h = tt
  modify-IsKeyed key k f (x ∷ xs) same (apart, h) =
      let ih = modify-IsKeyed key k f xs same h in
      let rest =
        All-modify (λ y. (key y == key x) ≡ false) key k f xs (λ y e. rw (same y) e) apart in
      elim (Bool-cases (key x == k)) [
        | inl e ↦ rw e (rw (same x) apart, h)
        | inr e ↦ rw e (rest, ih)
      ]

  pub All-modify_where {κ} :
      (P : A → Type κ) (p : A → Bool) (f : A → A) (xs : List A)
      → ((x : A) → P x → P (f x))
      → All P xs
      → All P (modify_where p f xs)
  unfolding modify_where
  All-modify_where P p f [] keep h = tt
  All-modify_where P p f (x ∷ xs) keep (here, there) =
      let ih = All-modify_where P p f xs keep there in
      elim (Bool-cases (p x)) [ inl e ↦ rw e (keep x here, ih) | inr e ↦ rw e (here, ih) ]

  pub modify_where-IsKeyed :
      (key : A → ℕ) (p : A → Bool) (f : A → A) (xs : List A)
      → ((x : A) → key (f x) ≡ key x)
      → IsKeyed key xs
      → IsKeyed key (modify_where p f xs)
  unfolding modify_where
  modify_where-IsKeyed key p f [] same h = tt
  modify_where-IsKeyed key p f (x ∷ xs) same (apart, h) =
      let ih = modify_where-IsKeyed key p f xs same h in
      let rest =
        All-modify_where (λ y. (key y == key x) ≡ false) p f xs (λ y e. rw (same y) e) apart in
      elim (Bool-cases (p x)) [ inl e ↦ rw e (rw (same x) rest, ih) | inr e ↦ rw e (rest, ih) ]

  -- The rows of a query satisfy its test, and whatever the rows with that test do.
  pub All-select {κ} :
      (P : A → Type κ) (p : A → Bool) (xs : List A)
      → All (λ x. p x ≡ true → P x) xs
      → All P (select p xs)
  unfolding select
  All-select P p [] h = tt
  All-select P p (x ∷ xs) (here, there) =
      let ih = All-select P p xs there in
      elim (Bool-cases (p x)) [ inl e ↦ rw e (here e, ih) | inr e ↦ rw e ih ]

  least_from-All {κ} :
      (P : A → Type κ) (by : A → ℕ) (b : A) (xs : List A) {r : A}
      → least_from by (some b) xs ≡ some r
      → P b
      → All P xs
      → P r
  unfolding least_from
  least_from-All P by b [] {r} h pb ps = let same : b ≡ r = ground arith in subst P same pb
  least_from-All P by b (x ∷ xs) {r} h pb (px, ps) = elim (Bool-cases (leb (by b) (by x))) [
    | inl e ↦
        let rest : least_from by (some b) xs ≡ some r = ground arith in
        least_from-All P by b xs rest pb ps
    | inr e ↦
        let rest : least_from by (some x) xs ≡ some r = ground arith in
        least_from-All P by x xs rest px ps
  ]

  least_from-le :
      (by : A → ℕ) (b : A) (xs : List A) {r : A}
      → least_from by (some b) xs ≡ some r
      → (by r ≤ by b) × All (λ x. by r ≤ by x) xs
  unfolding least_from
  least_from-le by b [] h = (ground arith, tt)
  least_from-le by b (x ∷ xs) {r} h = elim (Bool-cases (leb (by b) (by x))) [
    | inl e ↦
        let rest : least_from by (some b) xs ≡ some r = ground arith in
        let (first, others) = least_from-le by b xs rest in (first, (ground arith, others))
    | inr e ↦
        let rest : least_from by (some x) xs ≡ some r = ground arith in
        let (first, others) = least_from-le by x xs rest in (ground arith, (first, others))
  ]

  -- The least row has every property that all rows have.
  pub All-least {κ} :
      (P : A → Type κ) (by : A → ℕ) (xs : List A) {r : A} → least by xs ≡ some r → All P xs → P r
  unfolding least least_from
  All-least P by [] h ps = cc
  All-least P by (x ∷ xs) h (px, ps) = least_from-All P by x xs h px ps

  pub least-le :
      (by : A → ℕ) (xs : List A) {r : A} → least by xs ≡ some r → All (λ x. by r ≤ by x) xs
  unfolding least least_from
  least-le by [] h = cc
  least-le by (x ∷ xs) h = least_from-le by x xs h

  least_from-some :
      (by : A → ℕ) (b : A) (xs : List A) → (r : A) × (least_from by (some b) xs ≡ some r)
  unfolding least_from
  least_from-some by b [] = (b, refl)
  least_from-some by b (x ∷ xs) = elim (Bool-cases (leb (by b) (by x))) [
    | inl e ↦ rw e (least_from-some by b xs)
    | inr e ↦ rw e (least_from-some by x xs)
  ]

  pub least-none : (by : A → ℕ) (xs : List A) → least by xs ≡ none → xs ≡ []
  unfolding least least_from
  least-none by [] h = refl
  least-none by (x ∷ xs) h = let (r, found) = least_from-some by x xs in ground arith

  pub select-none : (p : A → Bool) (xs : List A) → select p xs ≡ [] → count p xs ≡ 0
  unfolding select count
  select-none p [] h = refl
  select-none p (x ∷ xs) h = ground (arith, select-none p xs)
