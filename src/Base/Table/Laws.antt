-- ===== src/Base/Table/Laws.antt =====
-- Laws of tables: how counts and lookups follow an INSERT and an UPDATE.
use Prim.Native.Nat.{ℕ, ◌+◌, ◌≤◌}
use mathlib.Core.Path.{◌≡◌, refl, subst}
use mathlib.Core.Logic.{◌⊎◌, inl, inr, ◌≢◌}
use mathlib.Core.Bool.{Bool, true, false}
use mathlib.Core.Option.{none, some}
use mathlib.Core.List.{List, [], ◌∷◌, ◌++◌}
use native.Mathlib.Omega.{arith}
use profundiza_uq_backend.Base.Table.{
  tally, length, All, count, select_one, modify, modify_where, find,
}

module _ {ℓ} {A : Type ℓ} where
  pub count-append : (p : A → Bool) (xs ys : List A) → count p (xs ++ ys) ≡ count p xs + count p ys
  unfolding count
  count-append p [] ys = omega arith
  count-append p (x ∷ xs) ys = omega (arith, count-append p xs ys)

  -- An insert counts one more if the new row passes.
  pub count-insert :
      (p : A → Bool) (xs : List A) (x : A) → count p (xs ++ x ∷ []) ≡ count p xs + tally (p x)
  unfolding count
  count-insert p [] x = omega arith
  count-insert p (y ∷ xs) x = omega (arith, count-insert p xs x)

  -- An update trades the old row for the new one.
  pub count-modify :
      (p : A → Bool) (key : A → ℕ) (k : ℕ) (f : A → A) (xs : List A) {r : A}
      → find key k xs ≡ some r
      → count p (modify key k f xs) + tally (p r) ≡ count p xs + tally (p (f r))
  unfolding count modify find
  count-modify p key k f [] h = cc
  count-modify p key k f (x ∷ xs) {r} h = ground (arith, count-modify p key k f xs {r = r})

  pub modify_missing :
      (key : A → ℕ) (k : ℕ) (f : A → A) (xs : List A)
      → find key k xs ≡ none
      → modify key k f xs ≡ xs
  unfolding modify find
  modify_missing key k f [] h = refl
  modify_missing key k f (x ∷ xs) h = ground (arith, modify_missing key k f xs)

  pub key-find : (key : A → ℕ) (k : ℕ) (xs : List A) {r : A} → find key k xs ≡ some r → key r ≡ k
  unfolding find
  key-find key k [] h = cc
  key-find key k (x ∷ xs) {r} h = ground (arith, key-find key k xs {r = r})

  -- A lookup answers the first row, or looks through the others.
  find-cons :
      (key : A → ℕ) (k : ℕ) (x : A) (xs : List A) {r : A}
      → find key k (x ∷ xs) ≡ some r
      → (x ≡ r) ⊎ (find key k xs ≡ some r)
  unfolding find
  find-cons key k x xs h = ground arith

  -- A row found passes a test that all rows pass.
  pub All-find {κ} :
      (P : A → Type κ) (key : A → ℕ) (k : ℕ) (xs : List A) {r : A}
      → All P xs
      → find key k xs ≡ some r
      → P r
  unfolding find
  All-find P key k [] a h = cc
  All-find P key k (x ∷ xs) {r} a h = elim (find-cons key k x xs h) [
    | inl e ↦ subst P e a.0
    | inr found ↦ All-find P key k xs a.1 found
  ]

  pub find-modify_self :
      (key : A → ℕ) (k : ℕ) (f : A → A) (xs : List A) {r : A}
      → key (f r) ≡ key r
      → find key k xs ≡ some r
      → find key k (modify key k f xs) ≡ some (f r)
  unfolding modify find
  find-modify_self key k f [] e h = cc
  find-modify_self key k f (x ∷ xs) {r} e h = ground (arith, find-modify_self key k f xs {r = r} e)

  pub find-modify_ne :
      (key : A → ℕ) (j k : ℕ) (f : A → A) (xs : List A)
      → ((r : A) → key (f r) ≡ key r)
      → j ≢ k
      → find key j (modify key k f xs) ≡ find key j xs
  unfolding modify find
  find-modify_ne key j k f [] e ne = refl
  find-modify_ne key j k f (x ∷ xs) e ne = ground (arith, e x, find-modify_ne key j k f xs e ne)

  pub length-modify :
      (key : A → ℕ) (k : ℕ) (f : A → A) (xs : List A) → length (modify key k f xs) ≡ length xs
  unfolding modify
  length-modify key k f [] = refl
  length-modify key k f (x ∷ xs) = ground (arith, length-modify key k f xs)

  pub length-insert : (xs : List A) (x : A) → length (xs ++ x ∷ []) ≡ length xs + 1
  length-insert [] x = omega arith
  length-insert (y ∷ xs) x = omega (arith, length-insert xs x)

  pub find-insert_old :
      (key : A → ℕ) (k : ℕ) (xs : List A) (x : A) {r : A}
      → find key k xs ≡ some r
      → find key k (xs ++ x ∷ []) ≡ some r
  unfolding find
  find-insert_old key k [] x h = cc
  find-insert_old key k (y ∷ xs) x {r} h = ground (arith, find-insert_old key k xs x {r = r})

  pub find-insert_new :
      (key : A → ℕ) (k : ℕ) (xs : List A) (x : A)
      → find key k xs ≡ none
      → key x ≡ k
      → find key k (xs ++ x ∷ []) ≡ some x
  unfolding find
  find-insert_new key k [] x h e = ground arith
  find-insert_new key k (y ∷ xs) x h e = ground (arith, find-insert_new key k xs x)

  pub select_one_sound :
      (p : A → Bool) (xs : List A) {r : A} → select_one p xs ≡ some r → p r ≡ true
  unfolding select_one
  select_one_sound p [] h = cc
  select_one_sound p (x ∷ xs) {r} h = ground (arith, select_one_sound p xs {r = r})

  pub select_one-none : (p : A → Bool) (xs : List A) → select_one p xs ≡ none → count p xs ≡ 0
  unfolding select_one count
  select_one-none p [] h = refl
  select_one-none p (x ∷ xs) h = ground (arith, select_one-none p xs)

  pub select_one-some :
      (p : A → Bool) (xs : List A) {r : A} → select_one p xs ≡ some r → 1 ≤ count p xs
  unfolding select_one count
  select_one-some p [] h = cc
  select_one-some p (x ∷ xs) {r} h = ground (arith, select_one-some p xs {r = r})

  pub select_one-insert_old :
      (p : A → Bool) (xs : List A) (x : A) {r : A}
      → select_one p xs ≡ some r
      → select_one p (xs ++ x ∷ []) ≡ some r
  unfolding select_one
  select_one-insert_old p [] x h = cc
  select_one-insert_old p (y ∷ xs) x {r} h = ground (arith, select_one-insert_old p xs x {r = r})

  pub select_one-insert_new :
      (p : A → Bool) (xs : List A) (x : A)
      → select_one p xs ≡ none
      → p x ≡ true
      → select_one p (xs ++ x ∷ []) ≡ some x
  unfolding select_one
  select_one-insert_new p [] x h e = ground arith
  select_one-insert_new p (y ∷ xs) x h e = ground (arith, select_one-insert_new p xs x)

  -- A weaker test counts no fewer rows.
  pub count_mono :
      (p q : A → Bool) (xs : List A) → ((x : A) → p x ≡ true → q x ≡ true) → count p xs ≤ count q xs
  unfolding count
  count_mono p q [] h = omega arith
  count_mono p q (x ∷ xs) h = ground (arith, h x, count_mono p q xs h)

  pub All-insert {κ} :
      (P : A → Type κ) (xs : List A) (x : A) → All P xs → P x → All P (xs ++ x ∷ [])
  All-insert P [] x a h = (h, tt)
  All-insert P (y ∷ xs) x a h = (a.0, All-insert P xs x a.1 h)

  pub All-weaken {κ μ} :
      {P : A → Type κ} {Q : A → Type μ} (xs : List A) → ((x : A) → P x → Q x) → All P xs → All Q xs
  All-weaken [] f a = tt
  All-weaken (x ∷ xs) f a = (f x a.0, All-weaken xs f a.1)

  -- An update that keeps a test's answer keeps the row that is found, or replaces it.
  pub select_one-modify :
      (p : A → Bool) (key : A → ℕ) (k : ℕ) (f : A → A) (xs : List A) {r x : A}
      → find key k xs ≡ some r
      → p (f r) ≡ p r
      → select_one p xs ≡ some x
      → (select_one p (modify key k f xs) ≡ some x)
        ⊎ ((x ≡ r) × (select_one p (modify key k f xs) ≡ some (f r)))
  unfolding find select_one modify
  select_one-modify p key k f [] found e h = cc
  select_one-modify p key k f (y ∷ xs) {r} {x} found e h =
      ground (arith, select_one-modify p key k f xs {r = r} {x = x})

  -- An update of the rows of a test that they still pass.
  pub select_one-modify_where_self :
      (p : A → Bool) (f : A → A) (xs : List A) {r : A}
      → ((x : A) → p (f x) ≡ p x)
      → select_one p xs ≡ some r
      → select_one p (modify_where p f xs) ≡ some (f r)
  unfolding select_one modify_where
  select_one-modify_where_self p f [] keep h = cc
  select_one-modify_where_self p f (x ∷ xs) {r} keep h =
      ground (arith, keep x, select_one-modify_where_self p f xs {r = r} keep)

  -- An update of rows that another query does not look for.
  pub select_one-modify_where_other :
      (p q : A → Bool) (f : A → A) (xs : List A)
      → ((x : A) → q (f x) ≡ q x)
      → ((x : A) → p x ≡ true → q x ≡ false)
      → select_one q (modify_where p f xs) ≡ select_one q xs
  unfolding select_one modify_where
  select_one-modify_where_other p q f [] keep apart = refl
  select_one-modify_where_other p q f (x ∷ xs) keep apart =
      ground (arith, keep x, apart x, select_one-modify_where_other p q f xs keep apart)

  pub select_one-insert_other :
      (q : A → Bool) (xs : List A) (x : A)
      → q x ≡ false
      → select_one q (xs ++ x ∷ []) ≡ select_one q xs
  unfolding select_one
  select_one-insert_other q [] x h = ground arith
  select_one-insert_other q (y ∷ xs) x h = ground (arith, select_one-insert_other q xs x h)

  pub length-append_two :
      (xs : List A) (x y : A) → length ((xs ++ x ∷ []) ++ y ∷ []) ≡ length xs + 2
  length-append_two xs x y = omega (arith, length-insert (xs ++ x ∷ []) y, length-insert xs x)
