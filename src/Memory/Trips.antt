-- ===== src/Memory/Trips.antt =====
-- What is saved under a key that begins with "state:" is what is got under it
-- (storage/short_term/memory.py `_save_state`, `_get_state`).
use text.Mathlib.Text.{starts_with}
use segnog.Prelude.{
  ℕ, suc, ◌≤◌, String, Bool, true, false, Option, none, some, List, [], ◌∷◌, ◌≡◌, refl, inl, inr,
  ◌==◌, Dict, lookup, insert, length, length-take-le, length-keep_if-le, take, keep_if, keep_if_lem,
  All, eq_self, Bool-cases, arith,
}
use segnog.Exec.{pure, attempt, branch, ◌>>=◌, ◌>>◌}
use segnog.Memory.{
  Values, Event, Store, request, or_default, put_state, parse_fields, fields, serialize, save_state,
  decode, inner, state_value, get_state, get_recent_events, save, get,
}

-- What JSON and the dictionary of `_save_state` do.
pub record IsJson {J : Type 0} (v : Values J) : Type 0 where
  pub trip : (j : J) → v.loads (v.dumps j) ≡ some j
  pub text_text : (s : String) → v.as_text (v.text s) ≡ some s
  pub wrap_text : (s : String) (t : ℕ) → v.as_text (v.wrap s t) ≡ none
  pub wrap_dict : (s : String) (t : ℕ) → v.is_dict (v.wrap s t) ≡ true
  pub wrap_value : (s : String) (t : ℕ) → v.value_of (v.wrap s t) ≡ some (v.text s)

module _ {J : Type 0} (v : Values J) (json : IsJson v) (outages : ℕ → Bool) where
  lookup-parse_fields :
      (key : String) (j : J) (d : Dict String)
      → lookup key (parse_fields v outages (insert key (v.dumps j) d)) ≡ some j
  unfolding lookup parse_fields insert
  lookup-parse_fields key j [] = rw (eq_self key, json.trip j) refl
  lookup-parse_fields key j ((k, t) ∷ d) = elim (Bool-cases (key == k)) [
    | inl same ↦ rw (same, same, json.trip j) refl
    | inr other ↦ rw (other, other) (lookup-parse_fields key j d)
  ]

  decode-text : (value : J) → decode v outages (v.text (v.dumps value)) ≡ value
  unfolding decode
  decode-text value = rw (json.text_text (v.dumps value), decode, json.trip value) refl

  inner-wrap :
      (field : J) (text : String) (now : ℕ)
      → inner v outages field (v.wrap text now) ≡ some (v.text text)
  unfolding inner
  inner-wrap field text now = rw (json.wrap_dict text now, json.wrap_value text now) refl

  pub state_value-wrap :
      (value : J) (now : ℕ) → state_value v outages (v.wrap (v.dumps value) now) ≡ some value
  unfolding state_value
  state_value-wrap value now =
      let field = v.wrap (v.dumps value) now in
      rw
        (
          json.wrap_text (v.dumps value) now,
          state_value,
          inner-wrap field (v.dumps value) now,
          decode-text value,
        )
        refl

-- If the client is connected, no command raises and JSON reads what it wrote, then a dictionary or a
-- list that is saved under a key that begins with "state:", and asks for no event, is what is got
-- under the key.
pub get-save :
    {J : Type 0} (v : Values J) (json : IsJson v) (outages : ℕ → Bool)
    (event_type_of : String → String) (event_id : String)
    (asked : String → Option (ℕ × Option String)) (now : ℕ) (key : String) (value : J) (s : Store J)
    → ((k : ℕ) → outages k ≡ false)
    → s.connected ≡ true
    → starts_with key "event:" ≡ false
    → starts_with key "recent_events" ≡ false
    → starts_with key "state:" ≡ true
    → v.is_container value ≡ true
    → ((save v outages event_type_of event_id now key value >> get v outages asked key) s).1
      ≡ some (some value)
unfolding ◌>>=◌ save get save_state put_state get_state fields or_default request branch attempt
    pure serialize
get-save v json outages event_type_of event_id asked now key value s fine on no_event no_recent
      is_state container =
    rw
      (
        no_event,
        is_state,
        container,
        on,
        fine s.commands,
        no_recent,
        fine (suc s.commands),
        lookup-parse_fields v json outages key (v.wrap (v.dumps value) now) s.state,
      )
      (rw (state_value-wrap v json outages value now) refl)

-- Whichever commands raise, the recent events are at most as many as are asked for, and each is of
-- the type that is asked for.
pub get_recent_events-le :
    {J : Type 0} (v : Values J) (outages : ℕ → Bool) (count : ℕ) (event_type : String) (s : Store J)
    → (events : List (Event J)) × ((get_recent_events v outages count (some event_type) s).1
        ≡ some events)
      × (length events ≤ count)
      × All (λ e. (e.event_type == event_type) ≡ true) events
unfolding get_recent_events or_default request attempt pure
get_recent_events-le v outages count event_type s = elim (Bool-cases s.connected) [
  | inr away ↦ rw away ([], refl, omega arith, tt)
  | inl on ↦ elim (Bool-cases (outages s.commands)) [
    | inl raises ↦ rw (on, raises) ([], refl, omega arith, tt)
    | inr fine ↦
        let wanted = λ (e : Event _). e.event_type == event_type in
        rw (on, fine)
          (
            keep_if wanted (take count s.events),
            refl,
            omega (
              arith,
              length-keep_if-le wanted (take count s.events),
              length-take-le count s.events,
            ),
            keep_if_lem wanted (take count s.events),
          )
  ]
]
