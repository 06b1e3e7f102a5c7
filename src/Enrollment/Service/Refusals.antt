-- ===== src/Enrollment/Service/Refusals.antt =====
-- What the first two checks of a batch find: a group named twice, and a group of an active request.
use profundiza_uq_backend.Base.{
  ℕ, ◌+◌, ◌≤◌, ◌≡◌, refl, ap, ◌∙◌, ◌⊎◌, inl, inr, Bool, true, false, ◌&&◌, List, [], ◌∷◌, arith,
  Uuid, ◌==◌, ==_self, ==_iff, leb, is_some, Bool-cases,
}
use mathlib.Core.Path.{subst}
use profundiza_uq_backend.Base.Table.{count, select_one, tally}
use profundiza_uq_backend.Base.Table.Pages.{count-select, count-ext}
use profundiza_uq_backend.Enrollment.Status.{is_active}
use profundiza_uq_backend.Enrollment.Database.{
  EnrollmentRequest, Database, active_in_group, list_mine, sort_by_arrival, insert_by_arrival,
}
use profundiza_uq_backend.Enrollment.Service.{member, has_duplicate, has_active_group}

-- How often a batch names a group.
abbrev pub times : Uuid → List Uuid → ℕ
times g groups = count (λ x. x == g) groups

abbrev pub NamesTwice : List Uuid → Type 0
NamesTwice groups = (g : Uuid) × (2 ≤ times g groups)

twice_of_test :
    (seen groups : List Uuid)
    → has_duplicate seen groups ≡ true
    → (g : Uuid) × (((member g seen ≡ true) × (1 ≤ times g groups)) ⊎ (2 ≤ times g groups))
unfolding has_duplicate count
twice_of_test seen [] h = absurd (ground arith)
twice_of_test seen (x ∷ rest) h = elim (Bool-cases (member x seen)) [
  | inl e ↦ (x, inl (e, rw (==_self x) (omega arith)))
  | inr e ↦
      let later : has_duplicate (x ∷ seen) rest ≡ true = ground arith in
      let (g, found) = twice_of_test (x ∷ seen) rest later in
      elim (Bool-cases (x == g)) [
        | inl same ↦ (g, inr (rw same (ground arith)))
        | inr other ↦ (g, rw other (ground arith))
      ]
]

once_of_test :
    (seen groups : List Uuid)
    → has_duplicate seen groups ≡ false
    → (g : Uuid) → (times g groups ≤ 1) × (member g seen ≡ true → times g groups ≡ 0)
unfolding has_duplicate count
once_of_test seen [] h g = (omega arith, λ e. refl)
once_of_test seen (x ∷ rest) h g =
    let fresh : member x seen ≡ false = ground arith in
    let later : has_duplicate (x ∷ seen) rest ≡ false = ground arith in
    let (few, none_left) = once_of_test (x ∷ seen) rest later g in
    elim (Bool-cases (x == g)) [
      | inl same ↦
          let none_more : times g rest ≡ 0 = none_left (rw same refl) in
          let eq : x ≡ g = (==_iff x g).0 same in
          let unseen : member g seen ≡ false = subst (λ y. member y seen ≡ false) eq fresh in
          (rw same (omega arith), λ e. absurd (ground arith))
      | inr other ↦ (
        rw other (omega arith),
        λ e. let zero_left : times g rest ≡ 0 = none_left (rw other e) in rw other (omega arith),
      )
    ]

pub has_duplicate-NamesTwice :
    (groups : List Uuid) → has_duplicate [] groups ≡ true → NamesTwice groups
has_duplicate-NamesTwice groups h =
    let (g, found) = twice_of_test [] groups h in
    elim found [ inl (seen, _) ↦ absurd (ground arith) | inr twice ↦ (g, twice) ]

pub has_duplicate-not :
    (groups : List Uuid) → has_duplicate [] groups ≡ false → ¬ (NamesTwice groups)
has_duplicate-not groups h (g, twice) =
    let few = (once_of_test [] groups h g).0 in absurd (omega arith)

count-sort_insert :
    (p : EnrollmentRequest → Bool) (r : EnrollmentRequest) (xs : List EnrollmentRequest)
    → count p (insert_by_arrival r xs) ≡ tally (p r) + count p xs
unfolding count insert_by_arrival
count-sort_insert p r [] = refl
count-sort_insert p r (x ∷ xs) =
    let ih = count-sort_insert p r xs in
    elim (Bool-cases (leb x.arrival_sequence r.arrival_sequence)) [
      | inl e ↦ rw e refl
      | inr e ↦ rw e (omega arith)
    ]

pub count-sort :
    (p : EnrollmentRequest → Bool) (xs : List EnrollmentRequest)
    → count p (sort_by_arrival xs) ≡ count p xs
unfolding count sort_by_arrival
count-sort p [] = refl
count-sort p (x ∷ xs) =
    count-sort_insert p x (sort_by_arrival xs) ∙ ap (λ n. tally (p x) + n) (count-sort p xs)

abbrev is_active_in : Uuid → EnrollmentRequest → Bool
is_active_in g v = is_active v.status && v.offering_group_id == g

is_some-select_one :
    (p : EnrollmentRequest → Bool) (xs : List EnrollmentRequest)
    → is_some (select_one p xs) ≡ leb 1 (count p xs)
unfolding select_one count
is_some-select_one p [] = refl
is_some-select_one p (x ∷ xs) =
    let ih = is_some-select_one p xs in
    elim (Bool-cases (p x)) [ inl e ↦ rw e (ground arith) | inr e ↦ rw e (ground arith) ]

active_of_test :
    (views : List EnrollmentRequest) (groups : List Uuid)
    → has_active_group views groups ≡ true
    → (g : Uuid) × (1 ≤ times g groups) × (1 ≤ count (is_active_in g) views)
unfolding has_active_group count
active_of_test views [] h = absurd (ground arith)
active_of_test views (x ∷ rest) h =
    let test = is_some-select_one (is_active_in x) views in
    elim (Bool-cases (is_some (select_one (is_active_in x) views))) [
      | inl e ↦ (x, rw (==_self x) (omega arith), ground arith)
      | inr e ↦
          let later : has_active_group views rest ≡ true = ground arith in
          let (g, named, held) = active_of_test views rest later in (g, omega arith, held)
    ]

idle_of_test :
    (views : List EnrollmentRequest) (groups : List Uuid)
    → has_active_group views groups ≡ false
    → (g : Uuid) → 1 ≤ times g groups
    → count (is_active_in g) views ≡ 0
unfolding has_active_group count
idle_of_test views [] h g named = absurd (omega arith)
idle_of_test views (x ∷ rest) h g named =
    let test = is_some-select_one (is_active_in x) views in
    let free : is_some (select_one (is_active_in x) views) ≡ false = ground arith in
    let later : has_active_group views rest ≡ false = ground arith in
    elim (Bool-cases (x == g)) [
      | inl same ↦
          let eq : x ≡ g = (==_iff x g).0 same in
          let idle : count (is_active_in x) views ≡ 0 = ground arith in
          subst (λ y. count (is_active_in y) views ≡ 0) eq idle
      | inr other ↦
          let at_rest = rw other at named in
          let still : 1 ≤ times g rest = omega arith in idle_of_test views rest later g still
    ]

count-list_mine :
    (student semester g : Uuid) (db : Database)
    → count (is_active_in g) (list_mine db student semester)
      ≡ count (active_in_group student semester g) db.requests
unfolding list_mine
count-list_mine student semester g db =
    count-sort (is_active_in g) _
    ∙ count-select (is_active_in g) _ db.requests
    ∙ count-ext _ _ (λ r. ground arith) db.requests

-- The batch names a group in which the student has an active request of the semester.
abbrev pub NamesActive : Uuid → Uuid → List Uuid → Database → Type 0
NamesActive student semester groups db =
    (g : Uuid) × (1 ≤ times g groups) × (1 ≤ count (active_in_group student semester g) db.requests)

module _ (student semester : Uuid) (groups : List Uuid) (db : Database) where
  pub has_active_group-NamesActive :
      has_active_group (list_mine db student semester) groups ≡ true
      → NamesActive student semester groups db
  has_active_group-NamesActive h =
      let (g, named, held) = active_of_test (list_mine db student semester) groups h in
      let same = count-list_mine student semester g db in (g, named, omega arith)

  pub has_active_group-not :
      has_active_group (list_mine db student semester) groups ≡ false
      → ¬ (NamesActive student semester groups db)
  has_active_group-not h (g, named, held) =
      let idle = idle_of_test (list_mine db student semester) groups h g named in
      let same = count-list_mine student semester g db in absurd (omega arith)
