-- ===== src/Tests/Guards.antt =====
-- The guards of the routes, and the inbox.
use profundiza_uq_backend.Base.{ℕ, some, List, [], ◌∷◌, ◌≡◌, ◌⊎◌, refl, true, ok, Uuid}
use profundiza_uq_backend.Base.Table.{find, select_one}
use profundiza_uq_backend.Identity.Auth.{
  Role, admin_subject, Account, SessionRecord, Tables, principal_from, authenticate,
  find_by_subject,
}
use profundiza_uq_backend.Notification.Outbox.{Notification, in_app}
use profundiza_uq_backend.Platform.Authn.{
  Request, post, Handler, middleware, super_admin_group, is_safe, principal_of, secured,
  require_auth, require_csrf, require_role, allowed,
}
use profundiza_uq_backend.Platform.Authn.Guards.{IsLive, super_admin_guarded}
use profundiza_uq_backend.Tests.Mail.{mail}

abbrev director : Account
director = record {
  id = 40;
  role = Role.super_admin;
  full_name = b'D' ∷ [];
  institutional_email = b'd' ∷ b'@' ∷ b'u' ∷ [];
  is_enabled = true;
}

abbrev director_session : SessionRecord
director_session = record {
  id = 80;
  subject_type = admin_subject;
  subject_id = 40;
  role = Role.super_admin;
  csrf_token = 81;
  expires_at = 9000;
}

abbrev logged_in : Tables
logged_in = record {
  challenges = [];
  sessions = director_session ∷ [];
  admins = director ∷ [];
  students = [];
}

abbrev change : Request
change = record { method = post; session_cookie = some 80; csrf_header = some 81 }

abbrev answering : Handler ℕ
answering r p = ok 204

super_admin_guarded_example :
    (s : SessionRecord) × IsLive 100 logged_in change s
    × (s.role ≡ Role.super_admin)
    × ((is_safe post ≡ true) ⊎ (change.csrf_header ≡ some s.csrf_token))
    × (answering change (some (principal_from s [] [])) ≡ ok 204)
unfolding middleware super_admin_group principal_of authenticate find find_by_subject select_one
    secured require_auth require_csrf require_role allowed principal_from
super_admin_guarded_example = super_admin_guarded answering change 100 logged_in refl

abbrev notice : Uuid → Notification
notice id = record (mail id) { channel = in_app; recipient_user_id = some 20 }

abbrev inbox : List Notification
inbox = notice 1 ∷ notice 2 ∷ []
