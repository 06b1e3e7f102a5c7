-- ===== src/Tests/Settings.antt =====
-- Settings, and the allow-list of the logins.
use profundiza_uq_backend.Base.{none, some, List, [], ◌∷◌, ◌≡◌, refl, true, false, Option, arith}
use profundiza_uq_backend.Base.Table.{select_one}
use profundiza_uq_backend.Base.Text.{
  Text, text, text_eq, is_empty, trim_space, trim_left, trim, is_space, byte_len, equal_fold,
  to_lower, rune_lower,
}
use profundiza_uq_backend.Shared.Validation.{is_blank}
use profundiza_uq_backend.Shared.Audit.{
  write, resolve_event_meta, to_row, ActorType, Meta, name, raw,
}
use profundiza_uq_backend.Identity.Domain.{
  is_allowed_domain, effective_domains, policy_domains, after_last_at, SplitsAt, is_listed, trimmed,
}
use profundiza_uq_backend.Settings.Service.{
  write_audit, insert_or_overwrite, new_setting, Tables, Actor, GlobalSetting, UpsertSetting,
  get_by_key, validate, upsert,
}
use profundiza_uq_backend.Settings.Service.Policy.{
  setting_domains, allowed_domains, allowed_email_domains_key, upsert_restricts_logins,
}

abbrev console : Meta
console = record { ip_address = []; user_agent = [] }

abbrev in_settings : Actor
in_settings = record { kind = ActorType.admin; id = some 40 }

abbrev nothing_set : Tables
nothing_set = record { settings = []; admins = 40 ∷ []; audit_events = [] }

-- The JSON of the list of `u` alone, for a parser that knows this text only.
abbrev list_of_u : Text
list_of_u = b'[' ∷ b'u' ∷ b']' ∷ []

abbrev parse_list : Text → Option (List Text)
parse_list s = some ((b'u' ∷ []) ∷ [])

abbrev restricting : UpsertSetting
restricting = record {
  key = allowed_email_domains_key;
  value = list_of_u;
  reason = b'w' ∷ b'h' ∷ b'y' ∷ [];
}

abbrev restricted : Tables × GlobalSetting
restricted = (
  record {
    settings =
        record {
          key = allowed_email_domains_key;
          value = list_of_u;
          description = [];
          updated_by_admin_user_id = some 40;
          updated_at = 9;
        }
        ∷ [];
    admins = 40 ∷ [];
    audit_events =
        record {
          actor_type = ActorType.admin;
          actor_id = some 40;
          action = text "GLOBAL_SETTING_UPDATED";
          entity_type = text "GLOBAL_SETTING";
          entity_id = name allowed_email_domains_key;
          previous_value = none;
          new_value = some (raw list_of_u);
          reason = some (b'w' ∷ b'h' ∷ b'y' ∷ []);
          ip_address = none;
          user_agent = none;
        }
        ∷ [];
  },
  record {
    key = allowed_email_domains_key;
    value = list_of_u;
    description = [];
    updated_by_admin_user_id = some 40;
    updated_at = 9;
  },
)

upsert_restricts_logins_example :
    (domain : Text) × SplitsAt (b'a' ∷ b'@' ∷ b'u' ∷ []) domain
    × (is_empty domain ≡ false)
    × (is_listed domain (trimmed ((b'u' ∷ []) ∷ [])) ≡ true)
unfolding upsert is_blank trim_space trim_left trim is_space allowed_email_domains_key text text_eq
    byte_len select_one write write_audit resolve_event_meta to_row insert_or_overwrite new_setting
    validate get_by_key allowed_domains setting_domains effective_domains policy_domains trimmed
    is_allowed_domain after_last_at is_listed equal_fold to_lower rune_lower
upsert_restricts_logins_example =
    upsert_restricts_logins (λ s. true) (λ s. some s) console 9 restricting in_settings (λ t. t)
      nothing_set restricted parse_list list_of_u [] ((b'u' ∷ []) ∷ []) (b'a' ∷ b'@' ∷ b'u' ∷ [])
      refl refl refl refl (λ e. ground arith) refl
