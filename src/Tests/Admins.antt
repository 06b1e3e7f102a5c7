-- ===== src/Tests/Admins.antt =====
-- Administrators.
use profundiza_uq_backend.Base.{none, some, [], ◌∷◌}
use profundiza_uq_backend.Shared.Audit.{ActorType, Meta}
use profundiza_uq_backend.AdminUser.Domain.{
  super_admin, active, inactive, AdminUser, AdminUserPatch,
}
use profundiza_uq_backend.AdminUser.Service.{Tables, Actor}

abbrev terminal : Meta
terminal = record { ip_address = []; user_agent = [] }

abbrev dean : AdminUser
dean = record {
  id = 40;
  institutional_email = b'd' ∷ b'@' ∷ b'u' ∷ [];
  full_name = b'D' ∷ [];
  role = super_admin;
  status = active;
  created_at = 1;
  updated_at = 1;
}

abbrev staff : Tables
staff = record { admin_users = dean ∷ []; audit_events = [] }

abbrev by_dean : Actor
by_dean = record { kind = ActorType.admin; id = some 40 }

abbrev retired : AdminUserPatch
retired = record { full_name = none; role = none; status = some inactive }
