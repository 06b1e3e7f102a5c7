-- ===== src/Identity/Auth/Sessions.antt =====
-- The life of a session.
use profundiza_uq_backend.Base.{
  ◌+◌, ◌≤◌, ◌≡◌, ◌≢◌, refl, sym, ap, ◌∙◌, inl, inr, Bool, true, false, not, Option, none, some,
  List, [], ◌∷◌, arith, Uuid, Time, ◌==◌, ==_self, ltb, is_some, ok, err, Option-cases, Bool-cases,
}
use mathlib.Core.Path.{subst}
use profundiza_uq_backend.Base.Table.{find, select, select_one}
use profundiza_uq_backend.Base.Table.Laws.{find-insert_new, select_one_sound}
use profundiza_uq_backend.Base.Text.{Text}
use profundiza_uq_backend.Identity.Domain.{normalize_email}
use profundiza_uq_backend.Identity.Auth.{
  Account, DirectoryUser, SessionRecord, Principal, Tables, Config, no_session, SubjectType,
  student_subject, admin_subject, session_id, find_by_email, find_by_subject, principal_from,
  Tokens, Others, after_consume, verify_login, authenticate, logout, has_email, is_account,
  admin_user, student_user, first_user, new_session,
}
use profundiza_uq_backend.Identity.Auth.Attempts.{verify_login-LogsIn}

find-select_out :
    (k : Uuid) (xs : List SessionRecord)
    → find session_id k (select (λ s. not (s.id == k)) xs) ≡ none
unfolding find select
find-select_out k [] = refl
find-select_out k (x ∷ xs) =
    let ih = find-select_out k xs in
    elim (Bool-cases (x.id == k)) [ inl e ↦ rw e ih | inr e ↦ rw e (rw e ih) ]

find-select_other :
    (k j : Uuid) (xs : List SessionRecord)
    → j ≢ k
    → find session_id j (select (λ s. not (s.id == k)) xs) ≡ find session_id j xs
unfolding find select
find-select_other k j [] other = refl
find-select_other k j (x ∷ xs) other =
    let ih = find-select_other k j xs other in
    elim (Bool-cases (x.id == k)) [ inl e ↦ ground arith | inr e ↦ rw e (ground arith) ]

subject_kept :
    (st : SubjectType) (id k : Uuid) (t : Tables)
    → find_by_subject st id (logout k t) ≡ find_by_subject st id t
unfolding find_by_subject logout
subject_kept student_subject id k t = refl
subject_kept admin_subject id k t = refl

authenticate_kept :
    (now : Time) (j k : Uuid) (t : Tables)
    → find session_id j (logout k t).sessions ≡ find session_id j t.sessions
    → authenticate now j (logout k t) ≡ authenticate now j t
unfolding authenticate
authenticate_kept now j k t h = elim (Option-cases (find session_id j t.sessions)) [
  | inl e ↦ rw (h, e) refl
  | inr (s, e) ↦ rw (h, e, subject_kept s.subject_type s.subject_id k t) refl
]

-- After a logout the session no longer authenticates.
pub logout_lem :
    (now : Time) (k : Uuid) (t : Tables) → authenticate now k (logout k t) ≡ err no_session
unfolding authenticate logout
logout_lem now k t = rw (find-select_out k t.sessions) refl

-- A logout leaves every other session as it was.
pub logout_others :
    (now : Time) (j k : Uuid) (t : Tables)
    → j ≢ k
    → authenticate now j (logout k t) ≡ authenticate now j t
unfolding logout
logout_others now j k t other = authenticate_kept now j k t (find-select_other k j t.sessions other)

select_one-implied :
    (p q : Account → Bool) (xs : List Account) (a : Account)
    → q a ≡ true
    → select_one p xs ≡ some a
    → is_some (select_one q xs) ≡ true
unfolding select_one
select_one-implied p q [] a h found = cc
select_one-implied p q (x ∷ xs) a h found = elim (Bool-cases (p x)) [
  | inl e ↦ let same : x ≡ a = ground arith in rw (ap q same ∙ h) refl
  | inr e ↦
      let rest : select_one p xs ≡ some a = ground arith in
      let ih = select_one-implied p q xs a h rest in
      elim (Bool-cases (q x)) [ inl f ↦ rw f refl | inr f ↦ rw f ih ]
]

first_user-some :
    (to : Account → DirectoryUser) (o : Option Account)
    → is_some o ≡ true
    → is_some (first_user to o) ≡ true
first_user-some to none h = cc
first_user-some to (some a) h = refl

enabled_found :
    (email : Text) (to : Account → DirectoryUser) (xs : List Account) (a : Account)
    → select_one (has_email email) xs ≡ some a
    → is_some (first_user to (select_one (is_account a.id) xs)) ≡ true
enabled_found email to xs a found =
    let sound : has_email email a ≡ true = select_one_sound (has_email email) xs found in
    let enabled : a.is_enabled ≡ true = ground arith in
    first_user-some to (select_one (is_account a.id) xs) (
      select_one-implied (has_email email) (is_account a.id) xs a (rw (==_self a.id, enabled) refl)
        found)

-- The account of an email is the enabled account of its id.
subject_of_email :
    (email : Text) (t : Tables) (u : DirectoryUser)
    → find_by_email email t ≡ some u
    → is_some (find_by_subject u.subject_type u.subject_id t) ≡ true
unfolding find_by_email find_by_subject
subject_of_email email t u h = elim (Option-cases (select_one (has_email email) t.admins)) [
  | inr (a, e) ↦
      let same : admin_user a ≡ u = ground arith in
      subst (λ x. is_some (find_by_subject x.subject_type x.subject_id t) ≡ true) same
        (enabled_found email admin_user t.admins a e)
  | inl e ↦ elim (Option-cases (select_one (has_email email) t.students)) [
    | inl f ↦ ground arith
    | inr (a, f) ↦
        let same : student_user a ≡ u = ground arith in
        subst (λ x. is_some (find_by_subject x.subject_type x.subject_id t) ≡ true) same
          (enabled_found email student_user t.students a f)
  ]
]

authenticate_session :
    (later : Time) (k : Uuid) (t : Tables) (s : SessionRecord)
    → find session_id k t.sessions ≡ some s
    → later ≤ s.expires_at
    → is_some (find_by_subject s.subject_type s.subject_id t) ≡ true
    → authenticate later k t ≡ ok (principal_from s [] [])
unfolding authenticate
authenticate_session later k t s found alive known =
    let live : ltb s.expires_at later ≡ false = ground arith in rw (found, live, known) refl

subject_same :
    (st : SubjectType) (id : Uuid) (t t' : Tables)
    → t'.admins ≡ t.admins
    → t'.students ≡ t.students
    → find_by_subject st id t' ≡ find_by_subject st id t
unfolding find_by_subject
subject_same student_subject id t t' a b = rw b refl
subject_same admin_subject id t t' a b = rw a refl

-- The session that a login opens authenticates, with the same ids, role and token, while it has not
-- expired and the accounts are as the login read them.
pub login_authenticates :
    (hash : Text → Text) (cfg : Config) (now later : Time) (k : Tokens) (o : Others)
    (raw code : Text) (t t' : Tables) (p : Principal) (session : Uuid)
    → verify_login hash cfg now k o raw code t ≡ (t', ok (p, session))
    → t'.admins ≡ (o.first t).admins
    → t'.students ≡ (o.first t).students
    → later ≤ now + cfg.session_ttl
    → authenticate later session t' ≡ ok (record p { email = []; full_name = [] })
unfolding principal_from
login_authenticates hash cfg now later k o raw code t t' p session h admins students alive =
    let anonymous : Principal → Principal = λ x. record x { email = []; full_name = [] } in
    let d = verify_login-LogsIn hash cfg now k o raw code t t' p session h in
    let s : SessionRecord = new_session cfg now d.user session d.csrf in
    let stored : find session_id session t'.sessions ≡ some s =
      ap (λ x. find session_id session x.sessions) d.tables
      ∙ find-insert_new session_id session (after_consume now o d.challenge t).sessions s d.fresh
          refl in
    let known = subject_same s.subject_type s.subject_id (o.first t) t' admins students in
    authenticate_session later session t' s stored alive
      (rw known (subject_of_email (normalize_email raw) (o.first t) d.user d.account))
    ∙ ap (λ x. ok (anonymous x)) (sym d.principal)
