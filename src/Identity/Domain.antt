-- ===== src/Identity/Domain.antt =====
-- internal/identity/domain/identity.go and the allow-list of internal/identity/adapter/policy/policy.go.
use profundiza_uq_backend.Base.{
  ◌≡◌, ◌≢◌, refl, ap, inl, inr, Bool, true, false, Option, none, some, List, [], ◌∷◌, ◌++◌, arith,
  ◌==◌, ◌||◌, if◌then◌else◌, Option-cases,
}
use mathlib.Core.Path.{subst}
use profundiza_uq_backend.Base.Text.{Text, is_empty, trim_space, to_lower, equal_fold}

-- `NormalizeEmail`
unfoldable pub normalize_email : Text → Text
normalize_email email = to_lower (trim_space email)

-- What follows the last `@`, if there is one.
unfoldable pub after_last_at : Text → Option Text
after_last_at [] = none
after_last_at (c ∷ s) = elim (after_last_at s) [
  | some domain ↦ some domain
  | none ↦ if c == b'@' then some s else none
]

unfoldable pub is_listed : Text → List Text → Bool
is_listed domain [] = false
is_listed domain (d ∷ rest) = equal_fold domain (trim_space d) || is_listed domain rest

-- `IsAllowedDomain`
unfoldable pub is_allowed_domain : Text → List Text → Bool
unfolding after_last_at is_listed
is_allowed_domain email [] = true
is_allowed_domain email (d ∷ rest) = elim (after_last_at email) [
  | none ↦ false
  | some domain ↦ if is_empty domain then false else is_listed domain (d ∷ rest)
]

-- The entries of the setting that are not blank.
unfoldable pub trimmed : List Text → List Text
trimmed [] = []
trimmed (d ∷ rest) = if is_empty (trim_space d) then trimmed rest else trim_space d ∷ trimmed rest

-- `DomainPolicy.AllowedDomains`; `none` is a setting that is absent or cannot be read or parsed.
unfoldable pub policy_domains : Option (List Text) → Option (List Text)
unfolding trimmed
policy_domains none = none
policy_domains (some raw) = elim (trimmed raw) [ [] ↦ none | d ∷ rest ↦ some (d ∷ rest) ]

-- `allowedDomains`
unfoldable pub effective_domains : Option (List Text) → List Text → List Text
unfolding policy_domains
effective_domains setting configured = elim (policy_domains setting) [
  | none ↦ configured
  | some domains ↦ domains
]

-- A runtime setting never opens the login to every domain: the effective list is empty only when the
-- configured one is.
pub effective_domains_lem :
    (setting : Option (List Text)) (configured : List Text)
    → configured ≢ []
    → effective_domains setting configured ≢ []
unfolding effective_domains
effective_domains_lem none configured h = h
effective_domains_lem (some raw) configured h = ground arith

abbrev pub NoAt : Text → Type 0
NoAt [] = Unit
NoAt (c ∷ s) = ((c == b'@') ≡ false) × NoAt s

NoAt-of_none : (s : Text) → after_last_at s ≡ none → NoAt s
unfolding after_last_at
NoAt-of_none [] h = tt
NoAt-of_none (c ∷ s) h = elim (Option-cases (after_last_at s)) [
  | inl e ↦ (ground arith, NoAt-of_none s e)
  | inr (d, e) ↦ ground arith
]

-- A text whose last `@` stands before `domain`.
abbrev pub SplitsAt : Text → Text → Type 0
SplitsAt email domain = (local : Text) × (email ≡ local ++ b'@' ∷ domain) × NoAt domain

after_last_at-SplitsAt :
    (email domain : Text) → after_last_at email ≡ some domain → SplitsAt email domain
unfolding after_last_at
after_last_at-SplitsAt [] domain h = cc
after_last_at-SplitsAt (c ∷ s) domain h = elim (Option-cases (after_last_at s)) [
  | inl e ↦
      let at : c ≡ b'@' = ground arith in
      let same : s ≡ domain = ground arith in
      ([], rw (at, same) refl, subst NoAt same (NoAt-of_none s e))
  | inr (d, e) ↦
      let (local, split, clear) = after_last_at-SplitsAt s domain (ground arith) in
      (c ∷ local, ap (λ t. c ∷ t) split, clear)
]

-- With an allow-list, an email is allowed only when what follows its last `@` is not empty and is,
-- up to case and outer space, an entry of the list.
pub is_allowed_domain_lem :
    (email d : Text) (rest : List Text)
    → is_allowed_domain email (d ∷ rest) ≡ true
    → (domain : Text) × SplitsAt email domain
      × (is_empty domain ≡ false)
      × (is_listed domain (d ∷ rest) ≡ true)
unfolding is_allowed_domain
is_allowed_domain_lem email d rest h = elim (Option-cases (after_last_at email)) [
  | inl e ↦ ground arith
  | inr (domain, e) ↦ (domain, after_last_at-SplitsAt email domain e, ground arith, ground arith)
]
