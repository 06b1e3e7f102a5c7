-- ===== src/Tests/Accounts.antt =====
-- Logins and sessions. The hash of these runs keeps the code as it is.
use profundiza_uq_backend.Base.{
  ℕ, none, some, [], ◌∷◌, ◌++◌, ◌≡◌, refl, true, ok, err, arith, is_some,
}
use profundiza_uq_backend.Base.Table.{find, modify, select, select_one, greatest}
use profundiza_uq_backend.Base.Text.{Text, text_eq, to_lower, trim_space, equal_fold}
use profundiza_uq_backend.Identity.Domain.{normalize_email, is_allowed_domain, effective_domains}
use profundiza_uq_backend.Identity.Auth.{
  Challenge, Account, Tables, Config, Draw, Others, Tokens, Principal, SessionRecord, student,
  student_subject, invalid_code, challenge_id, find_by_email, latest_active, new_challenge,
  start_login, verify_login, verify_challenge, authenticate, open_session, principal_from,
}
use profundiza_uq_backend.Identity.Auth.Attempts.{
  LogsIn, verify_login-LogsIn, verify_login_wrong, verify_login_locked, start_login_sends,
}
use profundiza_uq_backend.Identity.Auth.Sessions.{login_authenticates}

-- `a@u`
abbrev address : Text
address = b'a' ∷ b'@' ∷ b'u' ∷ []

abbrev ana : Account
ana = record {
  id = 20;
  role = student;
  full_name = 65 ∷ [];
  institutional_email = address;
  is_enabled = true;
}

abbrev cfg : Config
cfg = record {
  allowed_domains = (b'u' ∷ []) ∷ [];
  domain_setting = none;
  otp_ttl = 600;
  session_ttl = 9000;
}

abbrev challenge : ℕ → Challenge
challenge attempts = record {
  id = 5;
  email = address;
  code_hash = 49 ∷ [];
  expires_at = 700;
  consumed_at = none;
  attempts = attempts;
  created_at = 100;
}

abbrev accounts : Tables
accounts = record { challenges = []; sessions = []; admins = []; students = ana ∷ [] }

abbrev challenged : ℕ → Tables
challenged attempts = record accounts { challenges = challenge attempts ∷ [] }

abbrev hash : Text → Text
hash code = code

abbrev draw : Draw
draw = record { challenge_uuid = 5; code = some (49 ∷ []); mail_accepted = true }

abbrev tokens : Tokens
tokens = record { session = some 80; csrf = some 81 }

abbrev alone : Others
alone = record { first = λ t. t; second = λ t. t; third = λ t. t }

start_login_sends_example :
    (address ≡ normalize_email address)
    × (is_allowed_domain address (effective_domains none ((b'u' ∷ []) ∷ [])) ≡ true)
    × (is_some (find_by_email address accounts) ≡ true)
    × (latest_active address 100 [] ≡ none)
    × ((start_login hash cfg 100 draw alone address accounts).0.challenges
        ≡ [] ++ new_challenge 100 600 5 address (49 ∷ []) ∷ [])
unfolding start_login is_allowed_domain effective_domains normalize_email to_lower trim_space
    equal_fold find_by_email select_one latest_active greatest select
start_login_sends_example =
    start_login_sends hash cfg 100 draw alone address address (49 ∷ []) accounts refl

verify_login_wrong_example :
    ((verify_login hash cfg 100 tokens alone address (50 ∷ []) (challenged 2)).1 ≡ err invalid_code)
    × ((verify_login hash cfg 100 tokens alone address (50 ∷ []) (challenged 2)).0.sessions ≡ [])
    × (find challenge_id 5
          (verify_login hash cfg 100 tokens alone address (50 ∷ []) (challenged 2)).0.challenges
        ≡ some (challenge 3))
unfolding find latest_active greatest select text_eq normalize_email to_lower trim_space
verify_login_wrong_example =
    verify_login_wrong hash cfg 100 tokens alone address (50 ∷ []) (challenged 2) (challenge 2)
      (challenge 2) refl (omega arith) (λ h. ground arith) refl

verify_login_locked_example :
    verify_login hash cfg 100 tokens alone address (49 ∷ []) (challenged 5)
    ≡ (challenged 5, err invalid_code)
unfolding latest_active greatest select text_eq normalize_email to_lower trim_space
verify_login_locked_example =
    verify_login_locked hash cfg 100 tokens alone address (49 ∷ []) (challenged 5) (challenge 5)
      refl (omega arith)

abbrev opened_session : SessionRecord
opened_session = record {
  id = 80;
  subject_type = student_subject;
  subject_id = 20;
  role = student;
  csrf_token = 81;
  expires_at = 9100;
}

abbrev opened_tables : Tables
opened_tables = record accounts {
  challenges = record (challenge 2) { consumed_at = some 100 } ∷ [];
  sessions = opened_session ∷ [];
}

abbrev opened_principal : Principal
opened_principal = principal_from opened_session address (65 ∷ [])

login :
    verify_login hash cfg 100 tokens alone address (49 ∷ []) (challenged 2)
    ≡ (opened_tables, ok (opened_principal, 80))
unfolding verify_login verify_challenge find_by_email select_one find modify open_session
    principal_from latest_active greatest select text_eq normalize_email to_lower trim_space
login = refl

verify_login-LogsIn_example :
    LogsIn hash cfg 100 alone address (49 ∷ []) (challenged 2) opened_tables opened_principal 80
verify_login-LogsIn_example =
    verify_login-LogsIn hash cfg 100 tokens alone address (49 ∷ []) (challenged 2) opened_tables
      opened_principal 80 login

login_authenticates_example :
    authenticate 200 80 opened_tables ≡ ok (record opened_principal { email = []; full_name = [] })
login_authenticates_example =
    login_authenticates hash cfg 100 200 tokens alone address (49 ∷ []) (challenged 2) opened_tables
      opened_principal 80 login refl refl (omega arith)
