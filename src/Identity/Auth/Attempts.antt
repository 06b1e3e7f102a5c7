-- ===== src/Identity/Auth/Attempts.antt =====
-- When a code is sent, and when it opens a session.
use profundiza_uq_backend.Base.{
  ◌≤◌, ◌<◌, ◌≡◌, ◌⊎◌, ◌≢◌, refl, sym, ap, ◌∙◌, inl, inr, Bool, true, false, not, Option, none, some,
  [], ◌∷◌, ◌++◌, arith, Uuid, Time, leb, is_some, if◌then◌else◌, Result, ok, err, Option-cases,
  Bool-cases,
}
use mathlib.Core.Path.{subst}
use profundiza_uq_backend.Base.Table.{find}
use profundiza_uq_backend.Base.Table.Laws.{find-modify_self}
use profundiza_uq_backend.Base.Text.{Text, text_eq, text_eq_iff}
use profundiza_uq_backend.Identity.Domain.{normalize_email, is_allowed_domain, effective_domains}
use profundiza_uq_backend.Identity.Auth.{
  max_otp_attempts, Challenge, DirectoryUser, Principal, Tables, Config, AuthError, invalid_code,
  challenge_id, session_id, latest_active, find_by_email, Draw, new_challenge, issue_code,
  start_login, principal_from, with_attempt, Tokens, new_session, open_session, verify_challenge,
  verify_login, Others, after_consume,
}

issued :
    (hash : Text → Text) (cfg : Config) (now : Time) (d : Draw) (to email code : Text) (t : Tables)
    → (issue_code hash cfg now d to t).1 ≡ ok (some (email, code))
    → (email ≡ to)
      × ((issue_code hash cfg now d to t).0.challenges
          ≡ t.challenges ++ new_challenge now cfg.otp_ttl d.challenge_uuid to (hash code) ∷ [])
unfolding issue_code
issued hash cfg now d to email code t h = elim (Option-cases d.code) [
  | inl e ↦ ground arith
  | inr (drawn, e) ↦
      let same : (drawn ≡ code) × (to ≡ email) = ground arith in (sym (same.1), rw (e, same.0) refl)
]

abbrev Attempt : Type 0
Attempt = Tables × Result AuthError (Option (Text × Text))

passed :
    (allowed known live : Bool) (t t₁ : Tables) (y : Attempt) {mail : Text × Text}
    → (if not allowed
        then (t, ok none)
        else if not known
        then (t, ok none)
        else if live
        then (t₁, ok none)
        else y).1
      ≡ ok (some mail)
    → (allowed ≡ true)
      × (known ≡ true)
      × (live ≡ false)
      × ((if not allowed
            then (t, ok none)
            else if not known
            then (t, ok none)
            else if live
            then (t₁, ok none)
            else y)
          ≡ y)
passed true true false t t₁ y h = (refl, refl, refl, refl)
passed true true true t t₁ y h = ground arith
passed true false live t t₁ y h = ground arith
passed false known live t t₁ y h = ground arith

-- A login that sends a mail has issued a code.
sent_issued :
    (hash : Text → Text) (cfg : Config) (now : Time) (d : Draw) (o : Others) (raw email code : Text)
    (t : Tables)
    → (start_login hash cfg now d o raw t).1 ≡ ok (some (email, code))
    → (is_allowed_domain
          (normalize_email raw)
          (effective_domains cfg.domain_setting cfg.allowed_domains)
        ≡ true)
      × (is_some (find_by_email (normalize_email raw) t) ≡ true)
      × (is_some (latest_active (normalize_email raw) now (o.first t).challenges) ≡ false)
      × (start_login hash cfg now d o raw t
          ≡ issue_code hash cfg now d (normalize_email raw) (o.second (o.first t)))
unfolding start_login
sent_issued hash cfg now d o raw email code t h = passed _ _ _ t (o.first t) _ h

-- A login that mails a code is of an enabled account of an allowed domain with no live challenge
-- when it looks, and stores a challenge of that code.
pub start_login_sends :
    (hash : Text → Text) (cfg : Config) (now : Time) (d : Draw) (o : Others) (raw email code : Text)
    (t : Tables)
    → (start_login hash cfg now d o raw t).1 ≡ ok (some (email, code))
    → (email ≡ normalize_email raw)
      × (is_allowed_domain email (effective_domains cfg.domain_setting cfg.allowed_domains) ≡ true)
      × (is_some (find_by_email email t) ≡ true)
      × (latest_active email now (o.first t).challenges ≡ none)
      × ((start_login hash cfg now d o raw t).0.challenges
          ≡ (o.second (o.first t)).challenges
            ++ new_challenge now cfg.otp_ttl d.challenge_uuid email (hash code) ∷ [])
start_login_sends hash cfg now d o raw email code t sent =
    let (allowed, known, idle, same) = sent_issued hash cfg now d o raw email code t sent in
    let (address, stored) =
      issued hash cfg now d (normalize_email raw) email code (o.second (o.first t))
        (ap (λ x. x.1) (sym same) ∙ sent) in
    rw address (refl, allowed, known, ground arith, ap (λ x. x.0.challenges) same ∙ stored)

-- A login that finds a live challenge keeps it with its attempts and sends no mail.
pub start_login_reuses :
    (hash : Text → Text) (cfg : Config) (now : Time) (d : Draw) (o : Others) (raw : Text)
    (t : Tables) (c : Challenge)
    → latest_active (normalize_email raw) now (o.first t).challenges ≡ some c
    → ((start_login hash cfg now d o raw t ≡ (t, ok none))
        ⊎ (start_login hash cfg now d o raw t ≡ (o.first t, ok none)))
unfolding start_login
start_login_reuses hash cfg now d o raw t c live = ground arith

-- What a login that succeeds has read, and the session that it stores.
pub record LogsIn (hash : Text → Text) (cfg : Config) (now : Time) (o : Others) (raw code : Text)
    (t t' : Tables) (p : Principal) (session : Uuid) : Type 0 where
  pub challenge : Challenge
  pub user : DirectoryUser
  pub csrf : Uuid
  pub live : latest_active (normalize_email raw) now t.challenges ≡ some challenge
  pub attempts : challenge.attempts < max_otp_attempts
  pub matches : hash code ≡ challenge.code_hash
  pub account : find_by_email (normalize_email raw) (o.first t) ≡ some user
  pub fresh : find session_id session (after_consume now o challenge t).sessions ≡ none
  pub tables : t' ≡ record (after_consume now o challenge t) {
    sessions =
        (after_consume now o challenge t).sessions ++ new_session cfg now user session csrf ∷ [];
  }
  pub principal :
      p ≡ principal_from (new_session cfg now user session csrf) user.email user.full_name

opened :
    (cfg : Config) (now : Time) (k : Tokens) (u : DirectoryUser) (t t' : Tables) (p : Principal)
    (session : Uuid)
    → open_session cfg now k u t ≡ (t', ok (p, session))
    → (csrf : Uuid) × (find session_id session t.sessions ≡ none)
      × (t' ≡ record t { sessions = t.sessions ++ new_session cfg now u session csrf ∷ [] })
      × (p ≡ principal_from (new_session cfg now u session csrf) u.email u.full_name)
unfolding open_session
opened cfg now k u t t' p session h = elim (Option-cases k.session) [
  | inl e ↦ ground arith
  | inr (id, e) ↦ elim (Option-cases k.csrf) [
    | inl f ↦ ground arith
    | inr (csrf, f) ↦ elim (Option-cases (find session_id id t.sessions)) [
      | inl g ↦
          let same : id ≡ session = ground arith in
          (
            csrf,
            subst (λ x. find session_id x t.sessions ≡ none) same g,
            ground arith,
            ground arith,
          )
      | inr (s, g) ↦ ground arith
    ]
  ]
]

verified :
    (hash : Text → Text) (cfg : Config) (now : Time) (k : Tokens) (o : Others) (raw code : Text)
    (c : Challenge) (t t' : Tables) (p : Principal) (session : Uuid)
    → verify_challenge hash cfg now k o (normalize_email raw) code c t ≡ (t', ok (p, session))
    → (u : DirectoryUser) × (c.attempts < max_otp_attempts)
      × (hash code ≡ c.code_hash)
      × (find_by_email (normalize_email raw) (o.first t) ≡ some u)
      × (open_session cfg now k u (after_consume now o c t) ≡ (t', ok (p, session)))
unfolding verify_challenge
verified hash cfg now k o raw code c t t' p session h =
    elim (Bool-cases (leb max_otp_attempts c.attempts)) [
      | inl spent ↦ ground arith
      | inr left ↦ elim (Bool-cases (text_eq (hash code) c.code_hash)) [
        | inr wrong ↦ ground arith
        | inl right ↦ elim (Option-cases (find_by_email (normalize_email raw) (o.first t))) [
          | inl none_found ↦ ground arith
          | inr (u, known) ↦ (u, ground arith, (text_eq_iff _ _).0 right, known, ground arith)
        ]
      ]
    ]

-- A login that succeeds has read a live challenge of fewer than five failed attempts whose hash is
-- the code's, and then an enabled account of the email. It consumes the challenge, and stores one
-- session, under a fresh id, with the account's role and the configured life time; the principal is
-- of that session. What other sessions commit between its statements stays.
pub verify_login-LogsIn :
    (hash : Text → Text) (cfg : Config) (now : Time) (k : Tokens) (o : Others) (raw code : Text)
    (t t' : Tables) (p : Principal) (session : Uuid)
    → verify_login hash cfg now k o raw code t ≡ (t', ok (p, session))
    → LogsIn hash cfg now o raw code t t' p session
unfolding verify_login
verify_login-LogsIn hash cfg now k o raw code t t' p session h =
    elim (Option-cases (latest_active (normalize_email raw) now t.challenges)) [
      | inl e ↦ ground arith
      | inr (c, e) ↦
          let (u, left, right, known, opening) =
            verified hash cfg now k o raw code c t t' p session (ground arith) in
          let (csrf, fresh, stored, shown) = opened cfg now k u _ t' p session opening in
          record {
            challenge = c;
            user = u;
            csrf = csrf;
            live = e;
            attempts = left;
            matches = right;
            account = known;
            fresh = fresh;
            tables = stored;
            principal = shown;
          }
    ]

verify_live :
    (hash : Text → Text) (cfg : Config) (now : Time) (k : Tokens) (o : Others) (raw code : Text)
    (t : Tables) (c : Challenge)
    → latest_active (normalize_email raw) now t.challenges ≡ some c
    → verify_login hash cfg now k o raw code t
      ≡ verify_challenge hash cfg now k o (normalize_email raw) code c t
unfolding verify_login
verify_live hash cfg now k o raw code t c live = ground arith

text_differs : (s t : Text) → s ≢ t → text_eq s t ≡ false
text_differs s t h = elim (Bool-cases (text_eq s t)) [
  | inl e ↦ elim (h ((text_eq_iff s t).0 e)) [ ]
  | inr e ↦ e
]

-- A wrong code for a live challenge with attempts left is refused, opens no session, and is counted
-- on the challenge as the other sessions leave it.
pub verify_login_wrong :
    (hash : Text → Text) (cfg : Config) (now : Time) (k : Tokens) (o : Others) (raw code : Text)
    (t : Tables) (c counted : Challenge)
    → latest_active (normalize_email raw) now t.challenges ≡ some c
    → c.attempts < max_otp_attempts
    → hash code ≢ c.code_hash
    → find challenge_id c.id (o.first t).challenges ≡ some counted
    → ((verify_login hash cfg now k o raw code t).1 ≡ err invalid_code)
      × ((verify_login hash cfg now k o raw code t).0.sessions ≡ (o.first t).sessions)
      × (find challenge_id c.id (verify_login hash cfg now k o raw code t).0.challenges
          ≡ some (with_attempt counted))
unfolding verify_challenge
verify_login_wrong hash cfg now k o raw code t c counted live left wrong found =
    let room : leb max_otp_attempts c.attempts ≡ false = ground arith in
    let differs : text_eq (hash code) c.code_hash ≡ false = text_differs _ _ wrong in
    rw (verify_live hash cfg now k o raw code t c live, room, differs)
      (
        refl,
        refl,
        find-modify_self challenge_id c.id with_attempt (o.first t).challenges refl found,
      )

-- A login that reads a challenge with five failed attempts refuses every code, the right one included,
-- and changes nothing.
pub verify_login_locked :
    (hash : Text → Text) (cfg : Config) (now : Time) (k : Tokens) (o : Others) (raw code : Text)
    (t : Tables) (c : Challenge)
    → latest_active (normalize_email raw) now t.challenges ≡ some c
    → max_otp_attempts ≤ c.attempts
    → verify_login hash cfg now k o raw code t ≡ (t, err invalid_code)
unfolding verify_challenge
verify_login_locked hash cfg now k o raw code t c live spent =
    let full : leb max_otp_attempts c.attempts ≡ true = ground arith in
    rw (verify_live hash cfg now k o raw code t c live, full) refl
