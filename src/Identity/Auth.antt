-- ===== src/Identity/Auth.antt =====
-- internal/identity/app/auth.go and internal/identity/adapter/postgres/repos.go. The database, the
-- mail server and the random generator fail only where a draw says so; SHA-256 is the parameter
-- `hash`.
pub mod Attempts
pub mod Sessions
use profundiza_uq_backend.Base.{
  ℕ, ◌+◌, ◌/◌, Bool, true, false, not, ◌&&◌, Option, none, some, List, [], ◌∷◌, ◌++◌, Uuid, Time,
  ◌==◌, ltb, leb, is_some, if◌then◌else◌, Result, ok, err, guard, or_err, ◌>>=◌, ◌>>◌,
}
use profundiza_uq_backend.Base.Table.{find, select, select_one, modify, greatest}
use profundiza_uq_backend.Base.Text.{Text, text_eq, to_lower}
use profundiza_uq_backend.Identity.Domain.{normalize_email, is_allowed_domain, effective_domains}

abbrev pub max_otp_attempts : ℕ
max_otp_attempts = 5

-- `Challenge`: a row of `login_challenges`.
pub record Challenge : Type 0 where
  pub id : Uuid
  pub email : Text
  pub code_hash : Text
  pub expires_at : Time
  pub consumed_at : Option Time
  pub attempts : ℕ
  pub created_at : Time

pub data Role : Type 0 where
  student admin super_admin : Role

pub data SubjectType : Type 0 where
  student_subject admin_subject : SubjectType

-- A row of `students` or `admin_users`.
pub record Account : Type 0 where
  pub id : Uuid
  pub role : Role
  pub full_name : Text
  pub institutional_email : Text
  pub is_enabled : Bool

-- `DirectoryUser`
pub record DirectoryUser : Type 0 where
  pub role : Role
  pub subject_type : SubjectType
  pub subject_id : Uuid
  pub email : Text
  pub full_name : Text

-- `SessionRecord`
pub record SessionRecord : Type 0 where
  pub id : Uuid
  pub subject_type : SubjectType
  pub subject_id : Uuid
  pub role : Role
  pub csrf_token : Uuid
  pub expires_at : Time

-- `authn.Principal`
pub record Principal : Type 0 where
  pub session_id : Uuid
  pub role : Role
  pub subject_type : SubjectType
  pub subject_id : Uuid
  pub email : Text
  pub full_name : Text
  pub csrf_token : Uuid

pub record Tables : Type 0 where
  pub challenges : List Challenge
  pub sessions : List SessionRecord
  pub admins : List Account
  pub students : List Account

-- `Config`, with the allow-list of the settings, if there is one.
pub record Config : Type 0 where
  pub allowed_domains : List Text
  pub domain_setting : Option (List Text)
  pub otp_ttl : Time
  pub session_ttl : Time

-- `internal` is a failure of the random generator, the mail server or a unique index.
pub data AuthError : Type 0 where
  invalid_code no_session internal : AuthError

abbrev pub challenge_id : Challenge → Uuid
challenge_id c = c.id

abbrev pub session_id : SessionRecord → Uuid
session_id s = s.id

abbrev is_unspent : Challenge → Bool
is_unspent c = elim c.consumed_at [ none ↦ true | some t ↦ false ]

-- `ChallengeRepo.LatestActive`
unfoldable pub latest_active : Text → Time → List Challenge → Option Challenge
latest_active email now challenges =
    greatest (λ c. c.created_at)
      (select (λ c. text_eq c.email email && is_unspent c && ltb now c.expires_at) challenges)

abbrev pub admin_user : Account → DirectoryUser
admin_user a = record {
  role = a.role;
  subject_type = admin_subject;
  subject_id = a.id;
  email = a.institutional_email;
  full_name = a.full_name;
}

abbrev pub student_user : Account → DirectoryUser
student_user a = record {
  role = student;
  subject_type = student_subject;
  subject_id = a.id;
  email = a.institutional_email;
  full_name = a.full_name;
}

abbrev pub first_user : (Account → DirectoryUser) → Option Account → Option DirectoryUser
first_user to none = none
first_user to (some a) = some (to a)

abbrev pub has_email : Text → Account → Bool
has_email email a = text_eq (to_lower a.institutional_email) email && a.is_enabled

abbrev pub is_account : Uuid → Account → Bool
is_account id a = a.id == id && a.is_enabled

-- `DirectoryRepo.FindByEmail`
unfoldable pub find_by_email : Text → Tables → Option DirectoryUser
find_by_email email t = elim (select_one (has_email email) t.admins) [
  | some a ↦ some (admin_user a)
  | none ↦ first_user student_user (select_one (has_email email) t.students)
]

-- `DirectoryRepo.FindBySubject`
unfoldable pub find_by_subject : SubjectType → Uuid → Tables → Option DirectoryUser
find_by_subject admin_subject id t = first_user admin_user (select_one (is_account id) t.admins)
find_by_subject student_subject id t =
    first_user student_user (select_one (is_account id) t.students)

-- What a login draws: the challenge's id, the code, and whether the mail is accepted.
pub record Draw : Type 0 where
  pub challenge_uuid : Uuid
  pub code : Option Text
  pub mail_accepted : Bool

-- The INSERT of `ChallengeRepo.Create`.
abbrev pub new_challenge : Time → Time → Uuid → Text → Text → Challenge
new_challenge now ttl id email code_hash = record {
  id = id;
  email = email;
  code_hash = code_hash;
  expires_at = now + ttl;
  consumed_at = none;
  attempts = 0;
  created_at = now;
}

-- A new code: the tables, and the mail that is sent or the error.
unfoldable pub issue_code :
    (Text → Text)
    → Config
    → Time
    → Draw
    → Text
    → Tables
    → Tables × Result AuthError (Option (Text × Text))
issue_code hash cfg now d email t = elim d.code [
  | none ↦ (t, err internal)
  | some code ↦ (
    record t {
      challenges =
          t.challenges ++ new_challenge now cfg.otp_ttl d.challenge_uuid email (hash code) ∷ [];
    },
    if d.mail_accepted then ok (some (email, code)) else err internal,
  )
]

-- What other sessions commit between the statements of a login, which no transaction joins.
pub record Others : Type 0 where
  pub first : Tables → Tables
  pub second : Tables → Tables
  pub third : Tables → Tables

-- `StartLogin`: the tables, and the mail if there is one. The response is the same in each case
-- without an error. The others come after the look-up of the account and after that of the
-- challenge.
unfoldable pub start_login :
    (Text → Text)
    → Config
    → Time
    → Draw
    → Others
    → Text
    → Tables
    → Tables × Result AuthError (Option (Text × Text))
unfolding issue_code
start_login hash cfg now d o raw_email t =
    let email = normalize_email raw_email in
    let issued = issue_code hash cfg now d email (o.second (o.first t)) in
    if not (is_allowed_domain email (effective_domains cfg.domain_setting cfg.allowed_domains))
    then (t, ok none)
    else if not (is_some (find_by_email email t))
    then (t, ok none)
    else if is_some (latest_active email now (o.first t).challenges)
    then (o.first t, ok none)
    else issued

-- `principalFrom`
unfoldable pub principal_from : SessionRecord → Text → Text → Principal
principal_from s email full_name = record {
  session_id = s.id;
  role = s.role;
  subject_type = s.subject_type;
  subject_id = s.subject_id;
  email = email;
  full_name = full_name;
  csrf_token = s.csrf_token;
}

abbrev pub with_attempt : Challenge → Challenge
with_attempt c = record c { attempts = c.attempts + 1 }

abbrev pub consumed : Time → Challenge → Challenge
consumed now c = record c { consumed_at = some now }

-- The ids that `NewSessionID` and `NewCSRFToken` draw.
pub record Tokens : Type 0 where
  pub session : Option Uuid
  pub csrf : Option Uuid

abbrev pub new_session : Config → Time → DirectoryUser → Uuid → Uuid → SessionRecord
new_session cfg now u session csrf = record {
  id = session;
  subject_type = u.subject_type;
  subject_id = u.subject_id;
  role = u.role;
  csrf_token = csrf;
  expires_at = now + cfg.session_ttl;
}

-- The session of a consumed challenge; the unique id refuses one that exists.
unfoldable pub open_session :
    Config → Time → Tokens → DirectoryUser → Tables → Tables × Result AuthError (Principal × Uuid)
unfolding principal_from
open_session cfg now k u t =
    elim (do
      id ← or_err k.session internal
      csrf ← or_err k.csrf internal
      guard (not (is_some (find session_id id t.sessions))) internal
      ok (new_session cfg now u id csrf)) [
        | err e ↦ (t, err e)
        | ok s ↦ (
          record t { sessions = t.sessions ++ s ∷ [] },
          ok (principal_from s u.email u.full_name, s.id),
        )
      ]

-- The challenges after `Consume`, and what comes before the session is created.
abbrev pub after_consume : Time → Others → Challenge → Tables → Tables
after_consume now o c t =
    let read = o.second (o.first t) in
    o.third (record read { challenges = modify challenge_id c.id (consumed now) read.challenges })

-- The challenges after `IncrementAttempts`.
abbrev pub after_attempt : Others → Challenge → Tables → Tables
after_attempt o c t = record (o.first t) {
  challenges = modify challenge_id c.id with_attempt (o.first t).challenges;
}

-- `VerifyLogin` for the challenge that it has read. The others come after that look-up, after the
-- look-up of the account, and after `Consume`.
unfoldable pub verify_challenge :
    (Text → Text)
    → Config
    → Time
    → Tokens
    → Others
    → Text
    → Text
    → Challenge
    → Tables
    → Tables × Result AuthError (Principal × Uuid)
unfolding open_session
verify_challenge hash cfg now k o email code c t =
    if leb max_otp_attempts c.attempts
    then (t, err invalid_code)
    else if not (text_eq (hash code) c.code_hash)
    then (after_attempt o c t, err invalid_code)
    else elim (find_by_email email (o.first t)) [
      | none ↦ (o.first t, err invalid_code)
      | some u ↦ open_session cfg now k u (after_consume now o c t)
    ]

-- `VerifyLogin`
unfoldable pub verify_login :
    (Text → Text)
    → Config
    → Time
    → Tokens
    → Others
    → Text
    → Text
    → Tables
    → Tables × Result AuthError (Principal × Uuid)
verify_login hash cfg now k o raw_email code t =
    elim (latest_active (normalize_email raw_email) now t.challenges) [
      | none ↦ (t, err invalid_code)
      | some c ↦ verify_challenge hash cfg now k o (normalize_email raw_email) code c t
    ]

-- `Authenticate`
unfoldable pub authenticate : Time → Uuid → Tables → Result AuthError Principal
unfolding principal_from
authenticate now session t = do
  s ← or_err (find session_id session t.sessions) no_session
  guard (not (ltb s.expires_at now)) no_session
  guard (is_some (find_by_subject s.subject_type s.subject_id t)) no_session
  ok (principal_from s [] [])

-- `Logout`
unfoldable pub logout : Uuid → Tables → Tables
logout session t = record t { sessions = select (λ s. not (s.id == session)) t.sessions }

-- `SessionRepo.DeleteExpired`
unfoldable pub delete_expired : Time → Tables → Tables
delete_expired now t = record t { sessions = select (λ s. not (ltb s.expires_at now)) t.sessions }

-- `CurrentUser`
unfoldable pub current_user : Principal → Tables → Result AuthError DirectoryUser
current_user p t = or_err (find_by_subject p.subject_type p.subject_id t) no_session
