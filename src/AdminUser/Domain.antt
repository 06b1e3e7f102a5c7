-- ===== src/AdminUser/Domain.antt =====
-- internal/adminuser/domain/adminuser.go
use profundiza_uq_backend.Base.{
  Bool, true, false, not, ◌||◌, Option, Uuid, Time, Result, guard, ◌>>◌,
}
use profundiza_uq_backend.Base.Text.{Text, text}
use profundiza_uq_backend.Shared.Validation.{ValidationError, refusal, is_blank, has_at, if_given}

-- `Role`; `other_role` is any string but the two.
pub data Role : Type 0 where
  admin super_admin : Role
  other_role : Text → Role

-- `Status`
pub data Status : Type 0 where
  active inactive : Status
  other_status : Text → Status

-- `Role.Valid`
unfoldable pub valid_role : Role → Bool
valid_role admin = true
valid_role super_admin = true
valid_role (other_role s) = false

-- `Status.Valid`
unfoldable pub valid_status : Status → Bool
valid_status active = true
valid_status inactive = true
valid_status (other_status s) = false

-- `AdminUser`
pub record AdminUser : Type 0 where
  pub id : Uuid
  pub institutional_email : Text
  pub full_name : Text
  pub role : Role
  pub status : Status
  pub created_at : Time
  pub updated_at : Time

-- `NewAdminUser`
pub record NewAdminUser : Type 0 where
  pub institutional_email : Text
  pub full_name : Text
  pub role : Role

-- `NewAdminUser.Validate`
unfoldable pub validate : NewAdminUser → Result ValidationError (Unit {0})
unfolding text
validate n = do
  guard (not (is_blank n.institutional_email || not (has_at n.institutional_email)))
      (refusal (text "institutionalEmail") (text "a valid institutional email is required"))
  guard (not (is_blank n.full_name)) (refusal (text "fullName") (text "full name is required"))
  guard (valid_role n.role) (refusal (text "role") (text "role must be ADMIN or SUPER_ADMIN"))

-- `AdminUserPatch`
pub record AdminUserPatch : Type 0 where
  pub full_name : Option Text
  pub role : Option Role
  pub status : Option Status

-- `AdminUserPatch.Validate`
unfoldable pub validate_patch : AdminUserPatch → Result ValidationError (Unit {0})
unfolding text
validate_patch p = do
  guard (if_given (λ s. not (is_blank s)) p.full_name)
      (refusal (text "fullName") (text "full name cannot be empty"))
  guard (if_given valid_role p.role)
      (refusal (text "role") (text "role must be ADMIN or SUPER_ADMIN"))
  guard (if_given valid_status p.status)
      (refusal (text "status") (text "status must be ACTIVE or INACTIVE"))
