-- ===== src/Platform/Authn/Guards.antt =====
-- Who gets past the guards.
use profundiza_uq_backend.Base.{
  ◌≡◌, refl, ◌⊎◌, inl, inr, arith, true, false, not, ◌||◌, Option, none, some, List, [], ◌∷◌, Uuid,
  Time, ltb, is_some, ok, guard, or_err, >>=-eq-ok, guard-eq-ok, or_err-eq-ok, Result-cases,
  Option-cases, Bool-cases, ==_iff, sym, ap, ◌∙◌,
}
use mathlib.Core.Path.{subst}
use profundiza_uq_backend.Base.Table.{find}
use profundiza_uq_backend.Base.Table.Laws.{key-find}
use profundiza_uq_backend.Identity.Auth.{
  Role, SessionRecord, Principal, Tables, authenticate, principal_from, find_by_subject, session_id,
}
use profundiza_uq_backend.Platform.Authn.{
  Request, Handler, principal_of, middleware, require_auth, require_csrf, require_role, secured,
  allowed, is_safe, token_matches, super_admin_group, same_role,
}

-- A session of the request's cookie that has not expired, of an account that is active.
abbrev pub IsLive : Time → Tables → Request → SessionRecord → Type 0
IsLive now t r s =
    (r.session_cookie ≡ some s.id)
    × (find session_id s.id t.sessions ≡ some s)
    × (ltb s.expires_at now ≡ false)
    × (is_some (find_by_subject s.subject_type s.subject_id t) ≡ true)

authenticated :
    (now : Time) (session : Uuid) (t : Tables) (p : Principal)
    → authenticate now session t ≡ ok p
    → (s : SessionRecord) × (find session_id session t.sessions ≡ some s)
      × (ltb s.expires_at now ≡ false)
      × (is_some (find_by_subject s.subject_type s.subject_id t) ≡ true)
      × (p ≡ principal_from s [] [])
unfolding authenticate
authenticated now session t p h =
    let (s, found, h₁) = >>=-eq-ok (or_err (find session_id session t.sessions) _) _ h in
    let (u, fresh, h₂) = >>=-eq-ok (guard (not (ltb s.expires_at now)) _) _ h₁ in
    let (v, known, h₃) =
      >>=-eq-ok (guard (is_some (find_by_subject s.subject_type s.subject_id t)) _) _ h₂ in
    let test = guard-eq-ok (not (ltb s.expires_at now)) _ fresh in
    (s, or_err-eq-ok _ _ found, ground arith, guard-eq-ok _ _ known, ground arith)

principal_of-some :
    (now : Time) (t : Tables) (cookie : Option Uuid) (p : Principal)
    → principal_of now t cookie ≡ some p
    → (session : Uuid) × (cookie ≡ some session) × (authenticate now session t ≡ ok p)
unfolding principal_of
principal_of-some now t none p h = cc
principal_of-some now t (some session) p h = elim (Result-cases (authenticate now session t)) [
  | inl (q, e) ↦ let same : q ≡ p = ground arith in (session, refl, e ∙ ap ok same)
  | inr (x, e) ↦ ground arith
]

header_matches :
    (header : Option Uuid) (csrf : Uuid) → token_matches header csrf ≡ true → header ≡ some csrf
header_matches none csrf h = cc
header_matches (some token) csrf h = ap some ((==_iff token csrf).0 h)

module _ {ℓ} {A : Type ℓ} (roles : List Role) (next : Handler A) (r : Request) where
  -- The guards of an authenticated group let a principal through.
  passes :
      (p : Principal) {a : A}
      → secured (require_role roles next) r (some p) ≡ ok a
      → (allowed roles p.role ≡ true)
        × ((is_safe r.method ≡ true) ⊎ (r.csrf_header ≡ some p.csrf_token))
        × (next r (some p) ≡ ok a)
  unfolding secured require_auth require_csrf require_role
  passes p {a} h =
      elim (Bool-cases (is_safe r.method || token_matches r.csrf_header p.csrf_token)) [
        | inr e ↦ ground arith
        | inl e ↦ elim (Bool-cases (allowed roles p.role)) [
          | inr f ↦ ground arith
          | inl f ↦ (
            f,
            elim (Bool-cases (is_safe r.method)) [
              | inl safe ↦ inl safe
              | inr unsafe ↦ inr (header_matches r.csrf_header p.csrf_token (ground arith))
            ],
            ground arith,
          )
        ]
      ]

  stops : {a : A} → secured (require_role roles next) r none ≡ ok a → ⊥
  unfolding secured require_auth
  stops h = cc

  -- A response of the handler needs a live session with one of the roles, and its token unless the
  -- method is safe.
  pub guarded :
      (now : Time) (t : Tables) {a : A}
      → middleware now t (secured (require_role roles next)) r ≡ ok a
      → (s : SessionRecord) × IsLive now t r s
        × (allowed roles s.role ≡ true)
        × ((is_safe r.method ≡ true) ⊎ (r.csrf_header ≡ some s.csrf_token))
        × (next r (some (principal_from s [] [])) ≡ ok a)
  unfolding middleware principal_from
  guarded now t {a} h = elim (Option-cases (principal_of now t r.session_cookie)) [
    | inl e ↦ absurd (stops (subst (λ o. secured (require_role roles next) r o ≡ ok a) e h))
    | inr (p, e) ↦
        let (session, cookie, known) = principal_of-some now t r.session_cookie p e in
        let (s, found, fresh, active, same) = authenticated now session t p known in
        let own : s.id ≡ session = key-find session_id session t.sessions found in
        let through : secured (require_role roles next) r (some (principal_from s [] [])) ≡ ok a =
          subst (λ q. secured (require_role roles next) r (some q) ≡ ok a) same
            (subst (λ o. secured (require_role roles next) r o ≡ ok a) e h) in
        let (role, token, answer) = passes (principal_from s [] []) through in
        (
          s,
          (
            cookie ∙ ap some (sym own),
            subst (λ k. find session_id k t.sessions ≡ some s) (sym own) found,
            fresh,
            active,
          ),
          role,
          token,
          answer,
        )
  ]

-- A handler of the superadmin group answers only on a session of the request's cookie that has not
-- expired, whose account is active and whose role was superadmin when it was opened; a method that
-- may change the state needs the session's CSRF token in the header too. The handler gets the
-- principal of that session.
pub super_admin_guarded {ℓ} :
    {A : Type ℓ} (next : Handler A) (r : Request) (now : Time) (t : Tables) {a : A}
    → middleware now t (super_admin_group next) r ≡ ok a
    → (s : SessionRecord) × IsLive now t r s
      × (s.role ≡ Role.super_admin)
      × ((is_safe r.method ≡ true) ⊎ (r.csrf_header ≡ some s.csrf_token))
      × (next r (some (principal_from s [] [])) ≡ ok a)
unfolding super_admin_group allowed
super_admin_guarded next r now t h =
    let (s, live, role, token, answer) = guarded (Role.super_admin ∷ []) next r now t h in
    (s, live, only_super s.role (ground arith), token, answer)
  where
    only_super : (role : Role) → same_role Role.super_admin role ≡ true → role ≡ Role.super_admin
    only_super Role.super_admin h = refl
    only_super Role.admin h = cc
    only_super Role.student h = cc
