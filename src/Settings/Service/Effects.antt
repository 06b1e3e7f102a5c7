-- ===== src/Settings/Service/Effects.antt =====
-- What an upsert of a setting changes.
use profundiza_uq_backend.Base.{
  ◌≡◌, ◌⊎◌, refl, sym, ◌∙◌, ap, inl, inr, arith, Bool, true, false, Option, none, some, List, [],
  ◌∷◌, ◌++◌, Time, ok, err, Result-cases, Option-cases, Bool-cases,
}
use profundiza_uq_backend.Base.Table.{select_one, refers}
use profundiza_uq_backend.Base.Table.Laws.{
  select_one_sound, select_one-insert_new, select_one-insert_other, select_one-modify_where_self,
  select_one-modify_where_other,
}
use profundiza_uq_backend.Base.Text.{Text, text_eq, text_eq_iff, null_if_empty}
use profundiza_uq_backend.Shared.Audit.{Meta, Row, name, raw, write, to_row, resolve_event_meta}
use profundiza_uq_backend.Settings.Service.{
  GlobalSetting, UpsertSetting, Actor, Tables, SettingError, database, has_key, get_by_key,
  validate, new_setting, overwritten, insert_or_overwrite, write_audit, upsert, value_document,
}

keys_apart :
    (j k : Text) (s : GlobalSetting)
    → text_eq j k ≡ false
    → has_key j s ≡ true
    → has_key k s ≡ false
keys_apart j k s h e =
    let same = (text_eq_iff s.key j).0 e in
    elim (Bool-cases (text_eq s.key k)) [
      | inl f ↦
          let other = (text_eq_iff s.key k).0 f in
          let equal = (text_eq_iff j k).1 (sym same ∙ other) in ground arith
      | inr f ↦ f
    ]

module _ (value : Text) (now : Time) (u : UpsertSetting) (actor : Actor) where
  -- The row that an upsert leaves under its key.
  abbrev pub Stored : GlobalSetting → Type 0
  Stored s =
      (s.key ≡ u.key)
      × (s.value ≡ value)
      × (s.updated_by_admin_user_id ≡ actor.id)
      × (s.updated_at ≡ now)

  pub insert_or_overwrite_lem :
      (rows : List GlobalSetting) (k : Text)
      → (select_one (has_key u.key) (insert_or_overwrite value now u actor rows).0
          ≡ some (insert_or_overwrite value now u actor rows).1)
        × Stored (insert_or_overwrite value now u actor rows).1
        × ((text_eq u.key k ≡ true)
            ⊎ (select_one (has_key k) (insert_or_overwrite value now u actor rows).0
                ≡ select_one (has_key k) rows))
  unfolding insert_or_overwrite new_setting overwritten
  insert_or_overwrite_lem rows k = elim (Option-cases (select_one (has_key u.key) rows)) [
    | inl e ↦
        let row = new_setting value now u actor in
        let self : text_eq u.key u.key ≡ true = (text_eq_iff u.key u.key).1 refl in
        rw (insert_or_overwrite, e)
          (
            select_one-insert_new (has_key u.key) rows row e self,
            (refl, refl, refl, refl),
            elim (Bool-cases (text_eq u.key k)) [
              | inl f ↦ inl f
              | inr f ↦ inr (select_one-insert_other (has_key k) rows row f)
            ],
          )
    | inr (s, e) ↦
        let same = (text_eq_iff s.key u.key).0 (select_one_sound (has_key u.key) rows e) in
        let f = overwritten value now u actor in
        rw (insert_or_overwrite, e)
          (
            select_one-modify_where_self (has_key u.key) f rows (λ x. refl) e,
            (same, refl, refl, refl),
            elim (Bool-cases (text_eq u.key k)) [
              | inl g ↦ inl g
              | inr g ↦ inr (
                  select_one-modify_where_other (has_key u.key) (has_key k) f rows (λ x. refl)
                    (λ x h. keys_apart u.key k x g h))
            ],
          )
  ]

-- The audit row of an upsert that saw `previous`.
abbrev pub Recorded : Text → UpsertSetting → Option GlobalSetting → Row → Type 0
Recorded value u previous r =
    (r.entity_id ≡ name u.key)
    × (r.previous_value ≡ value_document previous)
    × (r.new_value ≡ some (raw (value)))
    × (r.reason ≡ null_if_empty u.reason)

write_audit-Recorded :
    (value : Text) (m : Meta) (actor : Actor) (u : UpsertSetting) (previous : Option GlobalSetting)
    (s : GlobalSetting) (log : List Row)
    → s.key ≡ u.key
    → s.value ≡ value
    → (r : Row) × (write_audit m actor u previous s log ≡ log ++ r ∷ [])
      × Recorded value u previous r
unfolding write_audit write to_row resolve_event_meta
write_audit-Recorded value m actor u previous s log key same =
    (_, refl, (ap name key, refl, ap (λ v. some (raw v)) same, refl))

module _ (json_valid : Text → Bool) (jsonb : Text → Option Text) (m : Meta) (now : Time)
    (u : UpsertSetting) (actor : Actor) (between : Tables → Tables) (db : Tables) where
  abbrev stored : Text → List GlobalSetting × GlobalSetting
  stored value = insert_or_overwrite value now u actor (between db).settings

  abbrev after_upsert : Text → Tables
  after_upsert value = record (between db) {
    settings = (stored value).0;
    audit_events =
        write_audit m actor u (get_by_key u.key db) (stored value).1 (between db).audit_events;
  }

  -- Why PostgreSQL refuses the INSERT.
  abbrev pub IsRefused : Type 0
  IsRefused = (jsonb u.value ≡ none) ⊎ (refers actor.id (between db).admins ≡ false)

  upsert-ok :
      (value : Text)
      → validate json_valid u ≡ ok tt
      → jsonb u.value ≡ some value
      → refers actor.id (between db).admins ≡ true
      → upsert json_valid jsonb m now u actor between db ≡ ok (after_upsert value, (stored value).1)
  unfolding upsert
  upsert-ok value fine converted known = rw (upsert, fine, converted, known) refl

  upsert-err :
      (e : SettingError)
      → validate json_valid u ≡ err e
      → upsert json_valid jsonb m now u actor between db ≡ err e
  unfolding upsert
  upsert-err e wrong = rw (upsert, wrong) refl

  upsert-refused :
      validate json_valid u ≡ ok tt
      → IsRefused
      → upsert json_valid jsonb m now u actor between db ≡ err database
  unfolding upsert
  upsert-refused fine (inl bad) = rw (upsert, fine, bad) refl
  upsert-refused fine (inr unknown) = elim (Option-cases (jsonb u.value)) [
    | inl bad ↦ rw (upsert, fine, bad) refl
    | inr (value, converted) ↦ rw (upsert, fine, converted, unknown) refl
  ]

  -- What an upsert that is stored does.
  abbrev pub IsUpserted : Text → Text → Type 0
  IsUpserted k value =
      (out : Tables) × (s : GlobalSetting) × (upsert json_valid jsonb m now u actor between db
        ≡ ok (out, s))
      × (validate json_valid u ≡ ok tt)
      × (get_by_key u.key out ≡ some s)
      × Stored value now u actor s
      × ((text_eq u.key k ≡ true) ⊎ (get_by_key k out ≡ get_by_key k (between db)))
      × (r : Row) × (out.audit_events ≡ (between db).audit_events ++ r ∷ [])
      × Recorded value u (get_by_key u.key db) r

  upserted :
      (k value : Text)
      → validate json_valid u ≡ ok tt
      → jsonb u.value ≡ some value
      → refers actor.id (between db).admins ≡ true
      → IsUpserted k value
  unfolding get_by_key
  upserted k value fine converted known =
      let (read, (key, same, by, at), others) =
        insert_or_overwrite_lem value now u actor (between db).settings k in
      let (row, appended, recorded) =
        write_audit-Recorded value m actor u (get_by_key u.key db) (stored value).1
          (between db).audit_events key same in
      (
        after_upsert value,
        (stored value).1,
        upsert-ok value fine converted known,
        fine,
        read,
        (key, same, by, at),
        others,
        row,
        appended,
        recorded,
      )

  pub upsert_lem :
      (k : Text)
      → ((e : SettingError) × (validate json_valid u ≡ err e)
          × (upsert json_valid jsonb m now u actor between db ≡ err e))
        ⊎ (((validate json_valid u ≡ ok tt)
              × IsRefused
              × (upsert json_valid jsonb m now u actor between db ≡ err database))
            ⊎ ((value : Text) × (jsonb u.value ≡ some value)
                × (refers actor.id (between db).admins ≡ true)
                × IsUpserted k value))
  upsert_lem k = elim (Result-cases (validate json_valid u)) [
    | inr (e, wrong) ↦ inl (e, wrong, upsert-err e wrong)
    | inl (passed, fine) ↦ elim (Option-cases (jsonb u.value)) [
      | inl bad ↦ inr (inl (fine, inl bad, upsert-refused fine (inl bad)))
      | inr (value, converted) ↦ elim (Bool-cases (refers actor.id (between db).admins)) [
        | inl known ↦ inr (inr (value, converted, known, upserted k value fine converted known))
        | inr unknown ↦ inr (inl (fine, inr unknown, upsert-refused fine (inr unknown)))
      ]
    ]
  ]
