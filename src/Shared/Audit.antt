-- ===== src/Shared/Audit.antt =====
-- internal/shared/audit/writer.go and internal/shared/reqmeta/reqmeta.go: the append-only audit
-- log. The JSON documents of an event stand as their keys and values, before `json.Marshal`.
use profundiza_uq_backend.Base.{
  ℕ, ◌+◌, ◌≡◌, refl, Option, List, [], ◌∷◌, ◌++◌, arith, Uuid, ◌||◌, if◌then◌else◌,
}
use profundiza_uq_backend.Base.Table.{length}
use profundiza_uq_backend.Base.Table.Laws.{length-insert}
use profundiza_uq_backend.Base.Text.{Text, is_empty, null_if_empty}

pub data ActorType : Type 0 where
  student admin system : ActorType

-- A value in a JSON document: a name, an id, a number, or null.
pub data Value : Type 0 where
  name : Text → Value
  uuid : Uuid → Value
  number : ℕ → Value
  null : Value

-- A document: the keys of an object with their values, or JSON that a client sent.
pub data Document : Type 0 where
  object : List (Text × Value) → Document
  raw : Text → Document

-- `Event`; an empty actor id is `none`, and the entity has an id or, for a setting, a key.
pub record Event : Type 0 where
  pub actor_type : ActorType
  pub actor_id : Option Uuid
  pub action : Text
  pub entity_type : Text
  pub entity_id : Value
  pub previous_value : Option Document
  pub new_value : Option Document
  pub reason : Text
  pub ip_address : Text
  pub user_agent : Text

-- `reqmeta.Meta`
pub record Meta : Type 0 where
  pub ip_address : Text
  pub user_agent : Text

-- A row of `audit_events`.
pub record Row : Type 0 where
  pub actor_type : ActorType
  pub actor_id : Option Uuid
  pub action : Text
  pub entity_type : Text
  pub entity_id : Value
  pub previous_value : Option Document
  pub new_value : Option Document
  pub reason : Option Text
  pub ip_address : Option Text
  pub user_agent : Option Text

-- `resolveEventMeta`
unfoldable pub resolve_event_meta : Meta → Event → Event
resolve_event_meta m e =
    if is_empty e.ip_address || is_empty e.user_agent
    then record e {
      ip_address = if is_empty e.ip_address then m.ip_address else e.ip_address;
      user_agent = if is_empty e.user_agent then m.user_agent else e.user_agent;
    }
    else e

-- The row that `Write` inserts for a resolved event.
unfoldable pub to_row : Event → Row
to_row e = record {
  actor_type = e.actor_type;
  actor_id = e.actor_id;
  action = e.action;
  entity_type = e.entity_type;
  entity_id = e.entity_id;
  previous_value = e.previous_value;
  new_value = e.new_value;
  reason = null_if_empty e.reason;
  ip_address = null_if_empty e.ip_address;
  user_agent = null_if_empty e.user_agent;
}

-- `Write`
unfoldable pub write : Meta → Event → List Row → List Row
unfolding resolve_event_meta to_row
write m e log = log ++ to_row (resolve_event_meta m e) ∷ []

pub length-write : (m : Meta) (e : Event) (log : List Row) → length (write m e log) ≡ length log + 1
unfolding write
length-write m e log = length-insert log (to_row (resolve_event_meta m e))

-- The value that an audit column gets: the event's own if it has one, else the request's, and NULL
-- if both are empty.
abbrev pub resolved : Text → Text → Option Text
resolved own from_request = null_if_empty (if is_empty own then from_request else own)

-- A write keeps every earlier row and appends one, whose address and agent are the event's own
-- where it sets them, else the request's; empty texts become NULL, and the action, the entity and
-- the two documents are the event's.
pub write_appends :
    (m : Meta) (e : Event) (log : List Row)
    → (r : Row) × (write m e log ≡ log ++ r ∷ [])
      × (r.ip_address ≡ resolved e.ip_address m.ip_address)
      × (r.user_agent ≡ resolved e.user_agent m.user_agent)
      × (r.action ≡ e.action)
      × (r.entity_id ≡ e.entity_id)
      × (r.previous_value ≡ e.previous_value)
      × (r.new_value ≡ e.new_value)
unfolding write
write_appends m e log = (
  to_row (resolve_event_meta m e),
  refl,
  ground arith,
  ground arith,
  ground arith,
  ground arith,
  ground arith,
  ground arith,
)
