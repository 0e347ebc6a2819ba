-- ===== src/Memory/Refines.antt =====
-- storage/short_term/memory.py as a function from keys to values, over any sequence of calls.
pub mod Views
use mathlib.Core.Path.{fun_ext}
use text.Mathlib.Text.{starts_with}
use segnog.Prelude.{
  ℕ, String, Bool, true, false, Option, none, some, List, [], ◌∷◌, ◌≡◌, refl, ap, ◌∙◌, ◌⊎◌, ◌&&◌,
  not, inl, inr, ◌==◌, Dict, lookup, insert, remove, lookup-insert, lookup-remove, All, eq_self,
  eq_iff, Bool-cases, arith, if◌then◌else◌,
}
use segnog.Exec.{Exec, pure, attempt, branch, gets, modify, ◌>>=◌}
use segnog.Memory.{
  Values, Store, request, or_default, put_state, parse_fields, fields, serialize, save_state,
  state_value, get_state, log_event, save, get, delete,
}
use segnog.Memory.Trips.{IsJson, state_value-wrap}
use segnog.Memory.Refines.Views.{
  Op, put, drop, perform, run_ops, view_of, view, update, replay, IsStorable, saved, same_key,
  view-put_state, view-memory,
}

module _ {J : Type 0} (v : Values J) (json : IsJson v) (outages : ℕ → Bool)
    (event_type_of : String → String) (event_id : String) (now : ℕ) where
  abbrev seen : Dict String → Dict J → String → Option J
  seen = view_of v outages event_type_of event_id now

  abbrev done : Op J → Store J → Store J
  done op s = (perform v outages event_type_of event_id now op s).0

  abbrev stepped : Op J → (String → Option J) → String → Option J
  stepped (put key value) f = if starts_with key "event:" then f else update f key (some value)
  stepped (drop key) f = if starts_with key "state:" then f else update f key none

  perform_refines :
      (op : Op J) (s : Store J)
      → ((k : ℕ) → outages k ≡ false)
      → s.connected ≡ true
      → IsStorable v op
      → ((done op s).connected ≡ true)
        × (seen (done op s).state (done op s).memory ≡ stepped op (seen s.state s.memory))
  unfolding delete modify
  perform_refines (put key value) s fine on storable =
      let (still_on, state, memory) =
        saved v json outages event_type_of event_id now key value s fine on in
      (
        still_on,
        rw (state, memory) (fun_ext λ k. put_seen k (Bool-cases (starts_with key "event:"))),
      )
    where
      container_of :
          starts_with key "event:" ≡ false
          → starts_with key "state:" ≡ true
          → (starts_with key "event:" ≡ true)
            ⊎ ((starts_with key "state:" && not (v.is_container value)) ≡ false)
          → v.is_container value ≡ true
      container_of plain state (inl event) = absurd (cc (plain, event))
      container_of plain state (inr h) = ground (arith, h, state)

      put_seen :
          (k : String)
          → (starts_with key "event:" ≡ true) ⊎ (starts_with key "event:" ≡ false)
          → seen
              (if starts_with key "event:"
                then s.state
                else if starts_with key "state:"
                then insert key (v.dumps (v.wrap (serialize v outages value) now)) s.state
                else s.state)
              (if starts_with key "event:"
                then s.memory
                else if starts_with key "state:"
                then s.memory
                else insert key value s.memory)
              k
            ≡ stepped (put key value) (seen s.state s.memory) k
      put_seen k (inl event) = rw event refl
      put_seen k (inr plain) = elim (Bool-cases (starts_with key "state:")) [
        | inl state ↦
            rw (plain, state)
              (view-put_state v json outages event_type_of event_id now key value s.state s.memory k
                state (container_of plain state storable))
        | inr other ↦
            rw (plain, other)
              (view-memory v json outages event_type_of event_id now key (some value) s.state
                s.memory (insert key value s.memory) k other
                (λ j. lookup-insert key j value s.memory))
      ]
  perform_refines (drop key) s fine on storable = (on, fun_ext λ k. drop_seen k)
    where
      apart :
          (k : String)
          → starts_with key "state:" ≡ true
          → starts_with k "state:" ≡ false
          → (k == key) ≡ false
      apart k state k_other = elim (Bool-cases (k == key)) [
        | inl same ↦
            absurd
              (cc (same_key v json outages event_type_of event_id now k key same, state, k_other))
        | inr other ↦ other
      ]

      -- A key of the state is not in the way of the others.
      dropped_state :
          (k : String)
          → starts_with key "state:" ≡ true
          → seen s.state (remove key s.memory) k ≡ seen s.state s.memory k
      dropped_state k state = elim (Bool-cases (starts_with k "state:")) [
        | inl k_state ↦ rw k_state refl
        | inr k_other ↦ rw (k_other, lookup-remove key k s.memory, apart k state k_other) refl
      ]

      drop_seen :
          (k : String)
          → seen s.state (remove key s.memory) k ≡ stepped (drop key) (seen s.state s.memory) k
      drop_seen k = elim (Bool-cases (starts_with key "state:")) [
        | inl state ↦ rw state (dropped_state k state)
        | inr other ↦ rw other (
            view-memory v json outages event_type_of event_id now key none s.state s.memory
              (remove key s.memory) k other (λ j. lookup-remove key j s.memory))
      ]

  run_refines :
      (ops : List (Op J)) (s : Store J)
      → ((k : ℕ) → outages k ≡ false)
      → s.connected ≡ true
      → All (IsStorable v) ops
      → ((run_ops v outages event_type_of event_id now ops s).connected ≡ true)
        × (view v outages event_type_of event_id now
              (run_ops v outages event_type_of event_id now ops s)
            ≡ replay ops (view v outages event_type_of event_id now s))
  run_refines [] s fine on storable = (on, refl)
  run_refines (put key value ∷ ops) s fine on storable =
      let (still_on, step) = perform_refines (put key value) s fine on storable.0 in
      let (up, rest) = run_refines ops (done (put key value) s) fine still_on storable.1 in
      (up, rest ∙ ap (replay ops) step)
  run_refines (drop key ∷ ops) s fine on storable =
      let (still_on, step) = perform_refines (drop key) s fine on storable.0 in
      let (up, rest) = run_refines ops (done (drop key) s) fine still_on storable.1 in
      (up, rest ∙ ap (replay ops) step)

  get-view :
      (asked : String → Option (ℕ × Option String)) (key : String) (s : Store J)
      → ((k : ℕ) → outages k ≡ false)
      → s.connected ≡ true
      → starts_with key "recent_events" ≡ false
      → (get v outages asked key s).1 ≡ some (view v outages event_type_of event_id now s key)
  unfolding get get_state fields or_default request branch attempt pure gets ◌>>=◌
  get-view asked key s fine on no_recent = elim (Bool-cases (starts_with key "state:")) [
    | inl state ↦ rw (no_recent, state, on, fine s.commands) refl
    | inr other ↦ rw (no_recent, other) refl
  ]

-- With a connection on which no command fails, and JSON that reads what it wrote, the store stands for
-- a function from keys to values: after any calls of save and delete, where dictionaries or lists are
-- saved under the keys of the state, what is got under a key, other than the list of recent events, is what the
-- same calls make of the function that the store stood for. There saving changes the function at the
-- key, unless it logs an event, and deleting changes it to none, but not under a key of the state.
pub get_refines :
    {J : Type 0} (v : Values J) (json : IsJson v) (outages : ℕ → Bool)
    (event_type_of : String → String) (event_id : String) (now : ℕ)
    (asked : String → Option (ℕ × Option String)) (ops : List (Op J)) (key : String) (s : Store J)
    → ((k : ℕ) → outages k ≡ false)
    → s.connected ≡ true
    → All (IsStorable v) ops
    → starts_with key "recent_events" ≡ false
    → (get v outages asked key (run_ops v outages event_type_of event_id now ops s)).1
      ≡ some (replay ops (view v outages event_type_of event_id now s) key)
get_refines v json outages event_type_of event_id now asked ops key s fine on storable no_recent =
    let (up, same) = run_refines v json outages event_type_of event_id now ops s fine on storable in
    get-view v json outages event_type_of event_id now asked key _ fine up no_recent
    ∙ ap (λ f. some (f key)) same
