-- ===== src/Memory.antt =====
-- storage/short_term/memory.py: the store that routes by the prefix of its key, with the stream and
-- the hash of storage/short_term/dragonfly.py that it uses. Python's values are a type with the
-- operations of `json` as a record. Any command to the server may raise.
pub mod Trips
pub mod Refines
use text.Mathlib.Text.{starts_with}
use segnog.Prelude.{
  ℕ, suc, String, Bool, true, false, Option, none, some, List, [], ◌∷◌, ◌==◌, Dict, lookup, insert,
  remove, take, keep_if, if◌then◌else◌,
}
use segnog.Exec.{Exec, pure, attempt, branch, gets, modify, from_option, ◌>>=◌, ◌>>◌}

-- An entry of a stream.
pub record Event (J : Type 0) : Type 0 where
  pub event_id : String
  pub event_type : String
  pub timestamp : ℕ
  pub content : J

-- Values: `str`, `json.dumps`, `json.loads`, `isinstance`, and `dict.get`; `wrap` makes the
-- dictionary with the keys "value" and "updated_at", `event_data` that of an event, and `list_of` the
-- list of parsed events.
pub record Values (J : Type 0) : Type 0 where
  pub text : String → J
  pub as_text : J → Option String
  pub str : J → String
  pub is_container : J → Bool
  pub is_dict : J → Bool
  pub wrap : String → ℕ → J
  pub value_of : J → Option J
  pub dumps : J → String
  pub loads : String → Option J
  pub event_data : J → J
  pub list_of : List (Event J) → J

-- The client's connection, the server's hash "state", the stream of the scope, newest first, the
-- dictionary in memory, and the number of commands.
pub record Store (J : Type 0) : Type 0 where
  pub connected : Bool
  pub state : Dict String
  pub events : List (Event J)
  pub memory : Dict J
  pub commands : ℕ

module _ {J A : Type 0} where
  unfoldable pub request : (ℕ → Bool) → (Store J → Store J × A) → Exec (Store J) A
  request outages f s =
      let sent = record s { commands = suc s.commands } in
      if outages s.commands then (sent, none) else ((f sent).0, some (f sent).1)

  -- Without a connection, or where a command raises, the answer is the default.
  unfoldable pub or_default : A → Exec (Store J) A → Exec (Store J) A
  unfolding attempt pure
  or_default default m s = if s.connected then attempt m (pure default) s else (s, some default)

module _ {J : Type 0} (v : Values J) (outages : ℕ → Bool) where
  -- `DragonflyClient.hset` of one field, whose value is a text.
  unfoldable pub put_state : String → String → Exec (Store J) (Unit {0})
  unfolding or_default request insert
  put_state key text =
      or_default tt (request outages (λ s. (record s { state = insert key text s.state }, tt)))

  -- `DragonflyClient.hgetall`: a text that is not JSON stays a text.
  unfoldable pub parse_fields : Dict String → Dict J
  parse_fields [] = []
  parse_fields ((k, t) ∷ d) =
      (k, elim (v.loads t) [ none ↦ v.text t | some j ↦ j ]) ∷ parse_fields d

  unfoldable pub fields : Exec (Store J) (Dict J)
  unfolding or_default request parse_fields
  fields = or_default [] (request outages (λ s. (s, parse_fields s.state)))

  unfoldable pub serialize : J → String
  serialize value = if v.is_container value then v.dumps value else v.str value

  unfoldable pub save_state : String → J → ℕ → Exec (Store J) (Unit {0})
  unfolding put_state serialize
  save_state key value now = put_state key (v.dumps (v.wrap (serialize value) now))

  -- `json.loads(value)`, or the value if it is no text or no JSON.
  unfoldable pub decode : J → J
  decode value = elim (v.as_text value) [
    | none ↦ value
    | some t ↦ elim (v.loads t) [ none ↦ value | some j ↦ j ]
  ]

  -- A dictionary's entry "value"; any other value stands for itself.
  unfoldable pub inner : J → J → Option J
  inner field parsed = if v.is_dict parsed then v.value_of parsed else some field

  -- What `_get_state` makes of the field; `none` is `None`.
  unfoldable pub state_value : J → Option J
  unfolding decode inner
  state_value field = elim (v.as_text field) [
    | none ↦ elim (inner field field) [ none ↦ none | some j ↦ some (decode j) ]
    | some t ↦ elim (v.loads t) [
      | none ↦ some field
      | some parsed ↦ elim (inner field parsed) [ none ↦ none | some j ↦ some (decode j) ]
    ]
  ]

  unfoldable pub get_state : String → Exec (Store J) (Option J)
  unfolding ◌>>=◌ pure fields state_value lookup
  get_state key = do
    found ← fields
    pure (elim (lookup key found) [ none ↦ none | some field ↦ state_value field ])

  -- `DragonflyClient.log_event`, with a fresh id and the time.
  unfoldable pub log_event : String → ℕ → String → J → Exec (Store J) (Option String)
  unfolding or_default request
  log_event event_id now event_type content = or_default none (
      request outages (λ s. (
        record s {
          events =
              record {
                event_id = event_id;
                event_type = event_type;
                timestamp = now;
                content = content;
              }
              ∷ s.events;
        },
        some event_id,
      )))

  -- The last `count` events, and of these the ones of the type, if one is asked for.
  unfoldable pub get_recent_events : ℕ → Option String → Exec (Store J) (List (Event J))
  unfolding or_default request keep_if
  get_recent_events count event_type = or_default [] (
      request outages (λ s. (
        s,
        elim event_type [
          | none ↦ take count s.events
          | some t ↦ keep_if (λ e. e.event_type == t) (take count s.events)
        ],
      )))

  -- `event_type_of` is the second part of the key; the id and the time are arguments.
  unfoldable pub save : (String → String) → String → ℕ → String → J → Exec (Store J) (Unit {0})
  unfolding ◌>>=◌ pure branch modify log_event save_state insert
  save event_type_of event_id now key value =
      branch (starts_with key "event:")
        (log_event event_id now (event_type_of key) (v.event_data value) >> pure tt)
        (branch (starts_with key "state:") (save_state key value now)
          (modify (λ s. record s { memory = insert key value s.memory })))

  -- `asked` reads the number and the type out of a key, or raises.
  unfoldable pub get : (String → Option (ℕ × Option String)) → String → Exec (Store J) (Option J)
  unfolding ◌>>=◌ pure branch gets from_option get_recent_events get_state lookup
  get asked key =
      branch (starts_with key "recent_events")
        (do
          wanted ← from_option (asked key)
          events ← get_recent_events wanted.0 wanted.1
          pure (some (v.list_of events)))
        (branch (starts_with key "state:") (get_state key) (gets (λ s. lookup key s.memory)))

  unfoldable pub delete : String → Exec (Store J) (Unit {0})
  unfolding modify remove
  delete key = modify (λ s. record s { memory = remove key s.memory })
