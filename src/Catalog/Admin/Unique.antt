-- ===== src/Catalog/Admin/Unique.antt =====
-- The unique indexes of the catalog, and the groups that it keeps.
use profundiza_uq_backend.Base.{
  ◌==◌, ◌≡◌, refl, sym, inl, inr, arith, true, false, none, some, List, [], ◌∷◌, Uuid, Result, ok,
  err, Bool-cases, Option-cases,
}
use mathlib.Core.Path.{subst}
use profundiza_uq_backend.Base.Table.{All, find, select_one, modify}
use profundiza_uq_backend.Base.Table.Laws.{key-find}
use profundiza_uq_backend.Base.Table.Keys.{IsKeyed, All-modify_found}
use profundiza_uq_backend.Base.Table.Distinct.{IsDistinct}
use profundiza_uq_backend.Base.Text.{Text, text_eq}
use profundiza_uq_backend.Shared.Shift.{valid}
use profundiza_uq_backend.Catalog.Admin.{
  Prerequisite, Offering, Group, Tables, AdminError, group_key, same_active_name, same_offering,
  same_code,
}
use profundiza_uq_backend.Catalog.Admin.Writes.{is_duplicate, is_offered}
use profundiza_uq_backend.Catalog.Admin.Groups.{is_taken, clashes}

-- No elective and no offering has two active prerequisites of one name, no semester offers an
-- elective twice, no offering has two groups of one code, and each group is of the day or the night.
pub record IsCatalog (db : Tables) : Type 0 where
  pub prerequisites : IsDistinct same_active_name db.prerequisites
  pub offering_prerequisites : IsDistinct same_active_name db.offering_prerequisites
  pub offerings : IsDistinct same_offering db.offerings
  pub codes : IsDistinct same_code db.groups
  pub keys : IsKeyed group_key db.groups
  pub shifts : All (λ (g : Group). valid g.shift ≡ true) db.groups

text_eq_sym : (s t : Text) → text_eq s t ≡ text_eq t s
unfolding text_eq
text_eq_sym [] [] = refl
text_eq_sym [] (b ∷ t) = refl
text_eq_sym (a ∷ s) [] = refl
text_eq_sym (a ∷ s) (b ∷ t) = ground (arith, text_eq_sym s t)

same_code_sym : (g h : Group) → same_code g h ≡ same_code h g
same_code_sym g h = ground (arith, text_eq_sym g.group_code h.group_code)

-- The rows but the one of its own id do not have the code of `g`.
apart_from :
    (g : Group) (rows : List Group)
    → clashes g rows ≡ false
    → All (λ h. (h.id == g.id) ≡ false) rows
    → All (λ h. same_code g h ≡ false) rows
unfolding clashes
apart_from g [] clear other = tt
apart_from g (h ∷ rest) clear (here, there) =
    (ground (arith, same_code_sym g h), apart_from g rest (ground arith) there)

pub renamed-IsDistinct :
    (k : Uuid) (f : Group → Group) (rows : List Group) {g : Group}
    → ((h : Group) → (f h).id ≡ h.id)
    → find group_key k rows ≡ some g
    → clashes (f g) rows ≡ false
    → IsKeyed group_key rows
    → IsDistinct same_code rows
    → IsDistinct same_code (modify group_key k f rows)
unfolding find modify clashes
renamed-IsDistinct k f [] same found clear keyed h = tt
renamed-IsDistinct k f (x ∷ rest) {g} same found clear (other, keyed) (apart, h) =
    elim (Bool-cases (x.id == k)) [
      | inl e ↦
          let row : x ≡ g = ground arith in
          let left : clashes (f x) rest ≡ false = ground (arith, same x) in
          rw e (
            apart_from (f x) rest left
                (subst (λ i. All (λ h. (h.id == i) ≡ false) rest) (sym (same x)) other),
            h,
          )
      | inr e ↦
          let later : find group_key k rest ≡ some g = ground arith in
          let own : g.id ≡ k = key-find group_key k rest later in
          let left : clashes (f g) rest ≡ false = ground arith in
          let new : same_code x (f g) ≡ false = ground (arith, same g) in
          let ih = renamed-IsDistinct k f rest same later left keyed h in
          rw e
            (All-modify_found (λ y. same_code x y ≡ false) group_key k f rest later new apart, ih)
    ]

pub free_name :
    (p : Prerequisite) (rows : List Prerequisite)
    → is_duplicate p rows ≡ false
    → select_one (λ q. same_active_name q p) rows ≡ none
unfolding is_duplicate
free_name p rows h = elim (Option-cases (select_one (λ q. same_active_name q p) rows)) [
  | inl e ↦ e
  | inr (q, e) ↦ ground arith
]

pub free_offering :
    (o : Offering) (rows : List Offering)
    → is_offered o rows ≡ false
    → select_one (λ p. same_offering p o) rows ≡ none
unfolding is_offered
free_offering o rows h = elim (Option-cases (select_one (λ p. same_offering p o) rows)) [
  | inl e ↦ e
  | inr (q, e) ↦ ground arith
]

pub free_code :
    (g : Group) (rows : List Group)
    → is_taken g rows ≡ false
    → (find group_key g.id rows ≡ none) × (select_one (λ h. same_code h g) rows ≡ none)
unfolding is_taken
free_code g rows h = (
  elim (Option-cases (find group_key g.id rows)) [ inl e ↦ e | inr (q, e) ↦ ground arith ],
  elim (Option-cases (select_one (λ h. same_code h g) rows)) [
    | inl e ↦ e
    | inr (q, e) ↦ ground arith
  ],
)

-- The tables of a transaction.
abbrev pub tables_of {ℓ} : {A : Type ℓ} → Tables → Result AdminError (Tables × A) → Tables
tables_of db (ok out) = out.0
tables_of db (err e) = db
