-- ===== src/Settings/Service.antt =====
-- internal/settings: the domain's checks, the service, and internal/settings/adapter/postgres/repo.go.
-- What PostgreSQL's jsonb makes of a JSON text, where it accepts it, and which texts json.Valid
-- accepts, are arguments.
pub mod Effects
pub mod Policy
use profundiza_uq_backend.Base.{
  ℕ, Bool, true, false, not, ◌&&◌, ◌||◌, Option, none, some, List, [], ◌∷◌, ◌++◌, Uuid, Time, leb,
  if◌then◌else◌, is_some, Result, ok, err, guard, or_err, ◌>>=◌, ◌>>◌,
}
use profundiza_uq_backend.Base.Int.{ℤ}
use profundiza_uq_backend.Base.Table.{
  refers, length, select_one, modify_where, limit, skip, order_by,
}
use profundiza_uq_backend.Base.Text.{Text, text, text_eq, is_empty, byte_len, trim_space}
use profundiza_uq_backend.Shared.Audit.{ActorType, Meta, Document, Row, raw, name, write}
use profundiza_uq_backend.Shared.Paging.{page_of, page_size_of, offset_of}
use profundiza_uq_backend.Shared.Validation.{ValidationError, refusal, is_blank}

abbrev pub min_reason_length : ℕ
min_reason_length = 3

-- `GlobalSetting`; the value is the text of its JSON.
pub record GlobalSetting : Type 0 where
  pub key : Text
  pub value : Text
  pub description : Text
  pub updated_by_admin_user_id : Option Uuid
  pub updated_at : Time

-- `UpsertSetting`
pub record UpsertSetting : Type 0 where
  pub key : Text
  pub value : Text
  pub reason : Text

-- `Actor`; an empty type is SYSTEM, which is resolved before.
pub record Actor : Type 0 where
  pub kind : ActorType
  pub id : Option Uuid

-- `admins` are the ids of `admin_users`.
pub record Tables : Type 0 where
  pub settings : List GlobalSetting
  pub admins : List Uuid
  pub audit_events : List Row

-- `database` is an error of PostgreSQL: a negative OFFSET, a JSON text that jsonb refuses, or an
-- administrator that does not exist.
pub data SettingError : Type 0 where
  database : SettingError
  invalid : ValidationError → SettingError

abbrev pub has_key : Text → GlobalSetting → Bool
has_key key s = text_eq s.key key

-- `GetByKey`
unfoldable pub get_by_key : Text → Tables → Option GlobalSetting
get_by_key key db = select_one (has_key key) db.settings

-- `UpsertSetting.Validate`; `json_valid` is json.Valid.
unfoldable pub validate : (Text → Bool) → UpsertSetting → Result SettingError (Unit {0})
unfolding text
validate json_valid u = do
  guard (not (is_blank u.key))
      (invalid (refusal (text "settingKey") (text "setting key is required")))
  guard (not (is_empty u.value || not (json_valid u.value)))
      (invalid (refusal (text "value") (text "value must be a valid JSON document")))
  guard (not (text_eq u.value (text "null")))
      (invalid (refusal (text "value") (text "value cannot be null")))
  guard (leb min_reason_length (byte_len (trim_space u.reason)))
      (invalid (refusal (text "reason") (text "a reason of at least 3 characters is required")))

unfoldable pub new_setting : Text → Time → UpsertSetting → Actor → GlobalSetting
new_setting value now u actor = record {
  key = u.key;
  value = value;
  description = [];
  updated_by_admin_user_id = actor.id;
  updated_at = now;
}

-- The SET clause of `ON CONFLICT (key) DO UPDATE`.
unfoldable pub overwritten : Text → Time → UpsertSetting → Actor → GlobalSetting → GlobalSetting
overwritten value now u actor s = record s {
  value = value;
  updated_by_admin_user_id = actor.id;
  updated_at = now;
}

-- `INSERT ... ON CONFLICT (key) DO UPDATE ... RETURNING`
unfoldable pub insert_or_overwrite :
    Text → Time → UpsertSetting → Actor → List GlobalSetting → List GlobalSetting × GlobalSetting
unfolding new_setting overwritten
insert_or_overwrite value now u actor rows = elim (select_one (has_key u.key) rows) [
  | none ↦ (rows ++ new_setting value now u actor ∷ [], new_setting value now u actor)
  | some s ↦ (
    modify_where (has_key u.key) (overwritten value now u actor) rows,
    overwritten value now u actor s,
  )
]

abbrev pub value_document : Option GlobalSetting → Option Document
value_document none = none
value_document (some s) = some (raw s.value)

-- The audit event of `Upsert`.
unfoldable pub write_audit :
    Meta → Actor → UpsertSetting → Option GlobalSetting → GlobalSetting → List Row → List Row
unfolding text
write_audit m actor u previous s log =
    write m
      (record {
        actor_type = actor.kind;
        actor_id = actor.id;
        action = text "GLOBAL_SETTING_UPDATED";
        entity_type = text "GLOBAL_SETTING";
        entity_id = name s.key;
        previous_value = value_document previous;
        new_value = some (raw s.value);
        reason = u.reason;
        ip_address = [];
        user_agent = [];
      })
      log

-- `Service.Upsert` and `Repo.Upsert`. The first SELECT locks the row of the key, if there is one;
-- `between` is what other sessions commit after it and before the INSERT, which converts the value
-- and checks the foreign key of `updated_by_admin_user_id`.
unfoldable pub upsert :
    (Text → Bool)
    → (Text → Option Text)
    → Meta
    → Time
    → UpsertSetting
    → Actor
    → (Tables → Tables)
    → Tables
    → Result SettingError (Tables × GlobalSetting)
unfolding validate get_by_key insert_or_overwrite write_audit
upsert json_valid jsonb m now u actor between db = do
  validate json_valid u
  let previous = get_by_key u.key db
  value ← or_err (jsonb u.value) database
  guard (refers actor.id (between db).admins) database
  let (rows, s) = insert_or_overwrite value now u actor (between db).settings
  ok (
    record (between db) {
      settings = rows;
      audit_events = write_audit m actor u previous s (between db).audit_events;
    },
    s,
  )

-- `ListFilter`
pub record ListFilter : Type 0 where
  pub page : ℤ
  pub page_size : ℤ

-- `Page`
pub record Page : Type 0 where
  pub items : List GlobalSetting
  pub page : ℕ
  pub page_size : ℕ
  pub total : ℕ

-- `List`; `by_key` is the order of the database's collation, and `during` is what other sessions
-- commit between the count and the query.
unfoldable pub list :
    (GlobalSetting → GlobalSetting → Bool)
    → ListFilter
    → (Tables → Tables)
    → Tables
    → Result SettingError Page
unfolding page_of page_size_of offset_of
list by_key f during db = do
  offset ← or_err (offset_of (page_of f.page) (page_size_of f.page_size)) database
  ok (record {
    items = limit (page_size_of f.page_size) (skip offset (order_by by_key (during db).settings));
    page = page_of f.page;
    page_size = page_size_of f.page_size;
    total = length db.settings;
  })
