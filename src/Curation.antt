-- ===== src/Curation.antt =====
-- workers/curation_worker.py: episode events are accumulated by group and handed to a curation
-- when a group is large enough or has waited too long
-- (src/memory_service/workers/curation_worker.py). The clock is an argument of each operation, in
-- milliseconds. What `json.loads` and the validation of an event say of a message, and whether
-- `ack` and `nak` raise, are parts of the message.
pub mod Trigger
pub mod Groups
pub mod Delivery
pub mod Run
pub mod Timeouts
pub mod Scheduled
use segnog.Prelude.{
  ℕ, ◌-◌, String, Bool, true, false, Option, none, some, List, [], ◌∷◌, ◌++◌, ◌&&◌, ◌==◌, Dict,
  keys, lookup, insert, remove, contains, length, ltb, leb, if◌then◌else◌,
}

-- messaging/schemas.py, `EpisodeStoredEvent`: the fields that the worker reads.
pub record Event : Type 0 where
  pub episode_uuid : String
  pub group_id : String
  pub episode_type : String
  pub consolidation_status : String

pub record Accumulator : Type 0 where
  pub min_episodes : ℕ
  pub max_wait : ℕ
  pub groups : Dict (List Event)
  pub first_seen : Dict ℕ

abbrev pub events_or_empty : Option (List Event) → List Event
events_or_empty none = []
events_or_empty (some events) = events

-- `self._groups[group_id]` of a defaultdict, as far as its value goes.
unfoldable pub pending : Accumulator → String → List Event
unfolding lookup
pending a g = events_or_empty (lookup g a.groups)

-- `episode_type != "raw" or status != "pending"` is the failure of this.
unfoldable pub is_pending_raw : Event → Bool
is_pending_raw e = e.episode_type == "raw" && e.consolidation_status == "pending"

abbrev first_or : Option ℕ → ℕ → Dict ℕ → String → Dict ℕ
first_or none now seen g = insert g now seen
first_or (some first) now seen g = seen

-- The accumulator with `e` appended to its group.
unfoldable pub append_event : Event → ℕ → Accumulator → Accumulator
unfolding pending lookup insert
append_event e now a = record a {
  groups = insert e.group_id (pending a e.group_id ++ e ∷ []) a.groups;
  first_seen = first_or (lookup e.group_id a.first_seen) now a.first_seen e.group_id;
}

-- `GroupAccumulator.add`: `none` is an event that the validation rejects.
unfoldable pub add : Option Event → ℕ → Accumulator → Accumulator × Option String
add none now a = (a, none)
add (some e) now a =
    let a' = append_event e now a in
    if is_pending_raw e
    then (a', if leb a.min_episodes (length (pending a' e.group_id)) then some e.group_id else none)
    else (a, none)

-- `GroupAccumulator.pop_group`
unfoldable pub pop_group : String → Accumulator → Accumulator × List Event
pop_group g a =
    (record a { groups = remove g a.groups; first_seen = remove g a.first_seen }, pending a g)

-- `GroupAccumulator.get_timed_out_groups`, over the entries of `first_seen`.
pub timed_out : ℕ → Accumulator → Dict ℕ → List String
timed_out now a [] = []
timed_out now a ((g, first) ∷ rest) =
    let others = timed_out now a rest in
    if ltb a.max_wait (now - first) && ltb 0 (length (pending a g)) then g ∷ others else others

unfoldable pub get_timed_out_groups : ℕ → Accumulator → List String
unfolding timed_out
get_timed_out_groups now a = timed_out now a a.first_seen

-- What a JetStream message is for the worker: `broken` makes `json.loads` raise.
pub data Body : Type 0 where
  broken : Body
  parsed : Option Event → Body

pub record Message : Type 0 where
  pub body : Body
  pub ack_raises : Bool

pub data Reply : Type 0 where
  acked naked : Reply

-- The worker: its accumulator, the `_trigger_curation` tasks that have been created and not run,
-- the curations with their events, and the replies to messages.
pub record Worker : Type 0 where
  pub accumulator : Accumulator
  pub tasks : List String
  pub curated : List (String × List Event)
  pub replies : List Reply

abbrev pub task_of : Option String → List String
task_of none = []
task_of (some g) = if g == "" then [] else g ∷ []

-- One turn of the loop of `_process_messages`. What `add` has done stays done if `ack` raises.
unfoldable pub process_message : Message → ℕ → Worker → Worker
process_message m now w = elim m.body [
  | broken ↦ record w { replies = w.replies ++ naked ∷ [] }
  | parsed event ↦
      let (a, ready) = add event now w.accumulator in
      if m.ack_raises
      then record w { accumulator = a; replies = w.replies ++ naked ∷ [] }
      else record w {
        accumulator = a;
        tasks = w.tasks ++ task_of ready;
        replies = w.replies ++ acked ∷ [];
      }
]

-- One turn of `_check_timeouts`.
unfoldable pub check_timeouts : ℕ → Worker → Worker
check_timeouts now w = record w { tasks = w.tasks ++ get_timed_out_groups now w.accumulator }

abbrev curation_of : String → List Event → List (String × List Event)
curation_of g [] = []
curation_of g (e ∷ events) = (g, e ∷ events) ∷ []

-- A `_trigger_curation` task up to its semaphore: it takes the group, and goes on if that has
-- events.
unfoldable pub trigger_curation : String → Worker → Worker
trigger_curation g w =
    let (a, events) = pop_group g w.accumulator in
    record w { accumulator = a; curated = w.curated ++ curation_of g events }
