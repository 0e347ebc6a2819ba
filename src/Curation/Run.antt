-- ===== src/Curation/Run.antt =====
-- The runs of the worker of workers/curation_worker.py: its two loops and the tasks they create
-- interleave in any order, and a task runs at any time after it was created, in any order.
use segnog.Prelude.{ℕ, String, List, [], ◌∷◌, ◌++◌, ◌≡◌}
use segnog.Curation.{
  Event, Body, broken, parsed, Message, Worker, process_message, check_timeouts, trigger_curation,
}
use segnog.Curation.Groups.{accepted, of_group}

-- The worker with its tasks put to `tasks`.
abbrev pub with_tasks : List String → Worker → Worker
with_tasks tasks w = record w { tasks = tasks }

-- `Run start w messages`: from `start`, the worker comes to `w` on those messages, in order.
pub data Run (start : Worker) : Worker → List Message → Type 0 where
  begin : Run start start []
  receive :
      {w : Worker} {messages : List Message} (m : Message) (now : ℕ)
      → Run start w messages
      → Run start (process_message m now w) (messages ++ m ∷ [])
  timeouts :
      {w : Worker} {messages : List Message} (now : ℕ)
      → Run start w messages
      → Run start (check_timeouts now w) messages
  task :
      {w : Worker} {messages : List Message} (g : String) (before after : List String)
      → w.tasks ≡ before ++ g ∷ after
      → Run start w messages
      → Run start (trigger_curation g (with_tasks (before ++ after) w)) messages

-- The events that the accumulator takes from a message.
abbrev pub events_of_body : Body → List Event
events_of_body broken = []
events_of_body (parsed event) = accepted event

abbrev pub received : List Message → List Event
received [] = []
received (m ∷ messages) = events_of_body m.body ++ received messages

-- The events of a group that went into curations, in order.
abbrev pub curated_events : String → List (String × List Event) → List Event
curated_events g [] = []
curated_events g ((j, events) ∷ rest) = of_group g events ++ curated_events g rest
