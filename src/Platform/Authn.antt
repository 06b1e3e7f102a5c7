-- ===== src/Platform/Authn.antt =====
-- internal/platform/authn/authn.go, and the guards of the route groups of cmd/api/main.go. A handler
-- gets the principal that the request carries, if any.
pub mod Guards
use profundiza_uq_backend.Base.{
  ℕ, Bool, true, false, ◌||◌, Option, none, some, List, [], ◌∷◌, Uuid, Time, ◌==◌, if◌then◌else◌,
  Result, ok, err,
}
use profundiza_uq_backend.Identity.Auth.{
  Role, SubjectType, student_subject, admin_subject, Principal, Tables, authenticate,
}

-- `r.Method`
pub data Method : Type 0 where
  get head options post put patch delete : Method

-- What the guards read of a request; `none` is a cookie or a header that is missing or empty.
pub record Request : Type 0 where
  pub method : Method
  pub session_cookie : Option Uuid
  pub csrf_header : Option Uuid

-- The responses that the guards write.
pub data Refusal : Type 0 where
  unauthorized bad_csrf_token forbidden : Refusal

-- `http.Handler`, on a request with its principal.
abbrev pub Handler {ℓ} : Type ℓ → Type ℓ
Handler A = Request → Option Principal → Result Refusal A

-- `Principal.StudentID`
unfoldable pub student_id : Principal → Option Uuid
student_id p = elim p.subject_type [ student_subject ↦ some p.subject_id | admin_subject ↦ none ]

-- `Principal.AdminUserID`
unfoldable pub admin_user_id : Principal → Option Uuid
admin_user_id p = elim p.subject_type [ admin_subject ↦ some p.subject_id | student_subject ↦ none ]

-- The principal that `Middleware` attaches.
unfoldable pub principal_of : Time → Tables → Option Uuid → Option Principal
principal_of now t none = none
principal_of now t (some session) = elim (authenticate now session t) [
  | ok p ↦ some p
  | err e ↦ none
]

-- `Middleware`
unfoldable pub middleware {ℓ} :
    {A : Type ℓ} → Time → Tables → Handler A → Request → Result Refusal A
unfolding principal_of
middleware now t next r = next r (principal_of now t r.session_cookie)

-- `RequireAuth`
unfoldable pub require_auth {ℓ} : {A : Type ℓ} → Handler A → Handler A
require_auth next r none = err unauthorized
require_auth next r (some p) = next r (some p)

-- The methods that `RequireCSRF` exempts.
abbrev pub is_safe : Method → Bool
is_safe get = true
is_safe head = true
is_safe options = true
is_safe _ = false

abbrev pub token_matches : Option Uuid → Uuid → Bool
token_matches none csrf = false
token_matches (some token) csrf = token == csrf

-- `RequireCSRF`
unfoldable pub require_csrf {ℓ} : {A : Type ℓ} → Handler A → Handler A
require_csrf next r none = next r none
require_csrf next r (some p) =
    if is_safe r.method || token_matches r.csrf_header p.csrf_token
    then next r (some p)
    else err bad_csrf_token

abbrev pub same_role : Role → Role → Bool
same_role Role.student Role.student = true
same_role Role.admin Role.admin = true
same_role Role.super_admin Role.super_admin = true
same_role _ _ = false

unfoldable pub allowed : List Role → Role → Bool
allowed [] role = false
allowed (r ∷ rest) role = same_role r role || allowed rest role

-- `RequireRole`
unfoldable pub require_role {ℓ} : {A : Type ℓ} → List Role → Handler A → Handler A
unfolding allowed
require_role roles next r none = err unauthorized
require_role roles next r (some p) = if allowed roles p.role then next r (some p) else err forbidden

-- The authenticated group of main.go.
unfoldable pub secured {ℓ} : {A : Type ℓ} → Handler A → Handler A
unfolding require_auth require_csrf
secured next = require_auth (require_csrf next)

-- The admin group of main.go.
unfoldable pub admin_group {ℓ} : {A : Type ℓ} → Handler A → Handler A
unfolding secured require_role
admin_group next = secured (require_role (Role.admin ∷ Role.super_admin ∷ []) next)

-- The superadmin group of main.go.
unfoldable pub super_admin_group {ℓ} : {A : Type ℓ} → Handler A → Handler A
unfolding secured require_role
super_admin_group next = secured (require_role (Role.super_admin ∷ []) next)
