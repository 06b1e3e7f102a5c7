-- ===== src/Settings/Service/Policy.antt =====
-- internal/identity/adapter/policy/policy.go over the settings: the allow-list of the logins. The
-- parser of JSON arrays of strings is an argument.
use profundiza_uq_backend.Base.{
  ◌≡◌, ◌≢◌, refl, sym, ◌∙◌, ap, inl, inr, arith, Bool, true, false, Option, none, some, List, [],
  ◌∷◌, Time, ok,
}
use mathlib.Core.Path.{subst}
use profundiza_uq_backend.Base.Text.{Text, text, is_empty}
use profundiza_uq_backend.Shared.Audit.{Meta}
use profundiza_uq_backend.Identity.Domain.{
  trimmed, policy_domains, effective_domains, is_allowed_domain, is_listed, SplitsAt,
  is_allowed_domain_lem,
}
use profundiza_uq_backend.Settings.Service.{
  GlobalSetting, UpsertSetting, Actor, Tables, get_by_key, upsert,
}
use profundiza_uq_backend.Settings.Service.Effects.{upsert_lem}

-- `AllowedEmailDomainsKey`
unfoldable pub allowed_email_domains_key : Text
unfolding text
allowed_email_domains_key = text "allowed_email_domains"

-- The list of the setting, if there is one that can be parsed.
unfoldable pub setting_domains : (Text → Option (List Text)) → Tables → Option (List Text)
unfolding get_by_key
setting_domains parse db = elim (get_by_key allowed_email_domains_key db) [
  | none ↦ none
  | some s ↦ parse s.value
]

-- The allow-list that `StartLogin` and `VerifyLogin` use.
unfoldable pub allowed_domains : (Text → Option (List Text)) → List Text → Tables → List Text
unfolding setting_domains
allowed_domains parse configured db = effective_domains (setting_domains parse db) configured

setting_domains-found :
    (parse : Text → Option (List Text)) (db : Tables) (s : GlobalSetting)
    → get_by_key allowed_email_domains_key db ≡ some s
    → setting_domains parse db ≡ parse s.value
unfolding setting_domains
setting_domains-found parse db s h = rw (setting_domains, h) refl

nonempty :
    (raw : List Text) (configured : List Text)
    → trimmed raw ≢ []
    → effective_domains (some raw) configured ≡ trimmed raw
unfolding effective_domains policy_domains
nonempty raw configured h = ground arith

listed :
    (email : Text) (domains : List Text)
    → domains ≢ []
    → is_allowed_domain email domains ≡ true
    → (domain : Text) × SplitsAt email domain
      × (is_empty domain ≡ false)
      × (is_listed domain domains ≡ true)
listed email [] some_domain h = absurd (some_domain refl)
listed email (d ∷ rest) some_domain h = is_allowed_domain_lem email d rest h

-- After an upsert of the setting of the allow-list, the logins follow it, whatever list was
-- configured or stored before: if its JSON is a list with an entry that is not blank, then an email
-- is allowed only when what follows its last `@` is not empty and is one of those entries, up to
-- case.
pub upsert_restricts_logins :
    (json_valid : Text → Bool) (jsonb : Text → Option Text) (m : Meta) (now : Time)
    (u : UpsertSetting) (actor : Actor) (between : Tables → Tables) (db : Tables)
    (out : Tables × GlobalSetting) (parse : Text → Option (List Text)) (value : Text)
    (configured raw : List Text) (email : Text)
    → u.key ≡ allowed_email_domains_key
    → upsert json_valid jsonb m now u actor between db ≡ ok out
    → jsonb u.value ≡ some value
    → parse value ≡ some raw
    → trimmed raw ≢ []
    → is_allowed_domain email (allowed_domains parse configured out.0) ≡ true
    → (domain : Text) × SplitsAt email domain
      × (is_empty domain ≡ false)
      × (is_listed domain (trimmed raw) ≡ true)
unfolding allowed_domains
upsert_restricts_logins json_valid jsonb m now u actor between db out parse value configured raw
      email key done converted parsed entries allowed =
    elim (upsert_lem json_valid jsonb m now u actor between db allowed_email_domains_key) [
      | inl (e, wrong, failed) ↦ ground arith
      | inr (inl (fine, why, failed)) ↦ ground arith
      | inr (inr (kept, as_kept, known, does)) ↦
          let (after, s, success, fine, read, (same, held, by, at), others, r, appended, recorded) =
            does in
          let kept_value : kept ≡ value = ground arith in
          let table : out.0 ≡ after = ground arith in
          let found : get_by_key allowed_email_domains_key out.0 ≡ some s =
            subst (λ k. get_by_key k out.0 ≡ some s) key
              (subst (λ d. get_by_key u.key d ≡ some s) (sym table) read) in
          let list : allowed_domains parse configured out.0 ≡ trimmed raw =
            ap (λ o. effective_domains o configured)
              (setting_domains-found parse out.0 s found ∙ ap parse (held ∙ kept_value) ∙ parsed)
            ∙ nonempty raw configured entries in
          listed email (trimmed raw) entries
            (subst (λ l. is_allowed_domain email l ≡ true) list allowed)
    ]
