-- ===== src/Memory/Refines/Views.antt =====
-- What storage/short_term/memory.py keeps under a key, and what a call changes of it.
use text.Mathlib.Text.{starts_with}
use segnog.Prelude.{
  ℕ, String, Bool, true, false, Option, none, some, List, [], ◌∷◌, ◌≡◌, refl, ◌⊎◌, ◌&&◌, not, inl,
  inr, ◌==◌, Dict, lookup, insert, lookup-insert, eq_self, eq_iff, Bool-cases, if◌then◌else◌,
}
use segnog.Exec.{Exec, pure, attempt, branch, modify, ◌>>=◌}
use segnog.Memory.{
  Values, Store, request, or_default, put_state, parse_fields, serialize, save_state, state_value,
  log_event, save, delete,
}
use segnog.Memory.Trips.{IsJson, state_value-wrap}

pub data Op (J : Type 0) : Type 0 where
  put : String → J → Op J
  drop : String → Op J

module _ {J : Type 0} (v : Values J) (outages : ℕ → Bool) (event_type_of : String → String)
    (event_id : String) (now : ℕ) where
  abbrev pub perform : Op J → Exec (Store J) (Unit {0})
  perform (put key value) = save v outages event_type_of event_id now key value
  perform (drop key) = delete v outages key

  -- The calls, one after the other.
  abbrev pub run_ops : List (Op J) → Store J → Store J
  run_ops [] s = s
  run_ops (op ∷ ops) s = run_ops ops (perform op s).0

  abbrev pub read_field : Option J → Option J
  read_field none = none
  read_field (some field) = state_value v outages field

  -- What is kept under a key.
  abbrev pub view_of : Dict String → Dict J → String → Option J
  view_of state memory key =
      if starts_with key "state:"
      then read_field (lookup key (parse_fields v outages state))
      else lookup key memory

  abbrev pub view : Store J → String → Option J
  view s = view_of s.state s.memory

-- A function, changed at one key.
abbrev pub update : {J : Type 0} → (String → Option J) → String → Option J → String → Option J
update f key r k = if k == key then r else f k

-- What the calls mean: an event is not kept under its key, and `delete` does not reach the state.
abbrev pub replay : {J : Type 0} → List (Op J) → (String → Option J) → String → Option J
replay [] f = f
replay (put key value ∷ ops) f =
    replay ops (if starts_with key "event:" then f else update f key (some value))
replay (drop key ∷ ops) f = replay ops (if starts_with key "state:" then f else update f key none)

-- What is saved under a key of the state is a dictionary or a list.
abbrev pub IsStorable : {J : Type 0} → Values J → Op J → Type 0
IsStorable v (put key value) =
    (starts_with key "event:" ≡ true)
    ⊎ ((starts_with key "state:" && not (v.is_container value)) ≡ false)
IsStorable v (drop key) = Unit

module _ {J : Type 0} (v : Values J) (json : IsJson v) (outages : ℕ → Bool)
    (event_type_of : String → String) (event_id : String) (now : ℕ) where
  abbrev Has : Store J → Dict String → Dict J → Type 0
  Has s state memory = (s.connected ≡ true) × (s.state ≡ state) × (s.memory ≡ memory)

  pub saved :
      (key : String) (value : J) (s : Store J)
      → ((k : ℕ) → outages k ≡ false)
      → s.connected ≡ true
      → Has
          (save v outages event_type_of event_id now key value s).0
          (if starts_with key "event:"
            then s.state
            else if starts_with key "state:"
            then insert key (v.dumps (v.wrap (serialize v outages value) now)) s.state
            else s.state)
          (if starts_with key "event:"
            then s.memory
            else if starts_with key "state:"
            then s.memory
            else insert key value s.memory)
  unfolding save log_event save_state put_state or_default request branch attempt pure modify ◌>>=◌
  saved key value s fine on = elim (Bool-cases (starts_with key "event:")) [
    | inl event ↦ rw (event, on, fine s.commands) (refl, refl, refl)
    | inr plain ↦ elim (Bool-cases (starts_with key "state:")) [
      | inl state ↦ rw (plain, state, on, fine s.commands) (refl, refl, refl)
      | inr other ↦ rw (plain, other) (on, refl, refl)
    ]
  ]

  -- The fields of the hash, read after one is written.
  parse_fields-insert :
      (key : String) (j : J) (d : Dict String)
      → parse_fields v outages (insert key (v.dumps j) d) ≡ insert key j (parse_fields v outages d)
  unfolding parse_fields insert
  parse_fields-insert key j [] = rw (json.trip j) refl
  parse_fields-insert key j ((k, t) ∷ d) = elim (Bool-cases (key == k)) [
    | inl same ↦ rw (same, json.trip j) refl
    | inr other ↦ rw (other, parse_fields-insert key j d) refl
  ]

  pub same_key : (k key : String) → (k == key) ≡ true → k ≡ key
  same_key k key e = (eq_iff k key).0 e

  abbrev pub seen : Dict String → Dict J → String → Option J
  seen = view_of v outages event_type_of event_id now

  pub view-put_state :
      (key : String) (value : J) (state : Dict String) (memory : Dict J) (k : String)
      → starts_with key "state:" ≡ true
      → v.is_container value ≡ true
      → seen (insert key (v.dumps (v.wrap (serialize v outages value) now)) state) memory k
        ≡ update (seen state memory) key (some value) k
  unfolding serialize
  view-put_state key value state memory k is_state container =
      let field = v.wrap (v.dumps value) now in
      elim (Bool-cases (k == key)) [
        | inl same ↦
            rw
              (
                same_key k key same,
                is_state,
                container,
                parse_fields-insert key field state,
                lookup-insert key key field (parse_fields v outages state),
                eq_self key,
              )
              (state_value-wrap v json outages value now)
        | inr other ↦ elim (Bool-cases (starts_with k "state:")) [
          | inl k_state ↦
              rw
                (
                  container,
                  k_state,
                  parse_fields-insert key field state,
                  lookup-insert key k field (parse_fields v outages state),
                  other,
                )
                refl
          | inr k_other ↦ rw (k_other, other) refl
        ]
      ]

  -- A change of the dictionary in memory at a key that is none of the state.
  pub view-memory :
      (key : String) (r : Option J) (state : Dict String) (memory memory' : Dict J) (k : String)
      → starts_with key "state:" ≡ false
      → ((j : String) → lookup j memory' ≡ (if j == key then r else lookup j memory))
      → seen state memory' k ≡ update (seen state memory) key r k
  view-memory key r state memory memory' k no_state found = elim (Bool-cases (k == key)) [
    | inl same ↦ rw (same_key k key same, no_state, found key, eq_self key) refl
    | inr other ↦ elim (Bool-cases (starts_with k "state:")) [
      | inl k_state ↦ rw (k_state, other) refl
      | inr k_other ↦ rw (k_other, found k, other) refl
    ]
  ]
