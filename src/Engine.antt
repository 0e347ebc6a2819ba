-- ===== src/Engine.antt =====
-- workflows/engine.py: running a workflow's stages in topological order
-- (src/memory_service/workflows/engine.py). A handler is an argument: a function from a payload
-- to what the coroutine does, its result or an exception, and after how many milliseconds.
-- JetStream is an argument too: it says of each message, after those it has taken, whether
-- `publish` returns or raises. `json.dumps` is asked only for whether it raises.
pub mod Calls
pub mod Payload
pub mod Queue
use Prim.Native.String.{◌++◌ as ◌+++◌}
use Prim.Native.Char.{Char, code}
use segnog.Prelude.{
  ℕ, String, Bool, true, false, Option, none, some, List, [], ◌∷◌, ◌++◌, ◌||◌, Dict, lookup, insert,
  ltb, eqb, if◌then◌else◌,
}
use segnog.Workflow
use segnog.Workflow.{Stage, Workflow, Error, topological_order}

-- A Python value: a text, or any other, of which only `json.dumps` is asked.
pub data Value (J : Type 0) : Type 0 where
  text : String → Value J
  other : J → Value J

abbrev pub Payload : Type 0 → Type 0
Payload J = Dict (Value J)

-- What awaiting a handler does: `none` is an exception.
pub record Run (J : Type 0) : Type 0 where
  pub took : ℕ
  pub outcome : Option (Value J)

abbrev pub Step : Type 0 → Type 0
Step J = Stage (Payload J) (Run J)

pub record Message (J : Type 0) : Type 0 where
  pub subject : String
  pub body : Payload J

-- What `execute` changes: its local `results`, and for the outside the handlers that it has
-- awaited with their payloads, the messages that JetStream has taken, and the background tasks.
pub record World (J : Type 0) : Type 0 where
  pub results : Payload J
  pub called : List (String × Payload J)
  pub published : List (Message J)
  pub tasks : List (String × Payload J)

abbrev pub start : {J : Type 0} → World J
start = record { results = []; called = []; published = []; tasks = [] }

-- What leaves `execute`: the `ValueError` of the order, or the `AttributeError` of a group id that
-- is no text; the state at the raise is kept.
pub data Outcome (J : Type 0) : Type 0 where
  returned : World J → Outcome J
  bad_workflow : Error → Outcome J
  bad_group : World J → Outcome J

pub is_unsafe : Char → Bool
is_unsafe c = eqb (code c) b'.' || eqb (code c) b' '

-- `group_id.replace(".", "-").replace(" ", "-")`
unfoldable pub sanitize_group_id : String → String
unfolding is_unsafe
sanitize_group_id String.[] = String.[]
sanitize_group_id (String.◌∷◌ c s) =
    if is_unsafe c then "-" +++ sanitize_group_id s else String.◌∷◌ c (sanitize_group_id s)

-- `asyncio.wait_for`: a run that takes longer than the timeout is cancelled and counts as failed.
pub wait_for : {J : Type 0} → Run J → ℕ → Option (Value J)
wait_for run timeout = if ltb timeout run.took then none else run.outcome

module _ {J : Type 0} where
  pub add_results : Payload J → Payload J → Payload J
  add_results payload [] = payload
  add_results payload ((k, v) ∷ rest) = add_results (insert (k +++ "_result") v payload) rest

  -- `{**context, **{f"{k}_result": v for k, v in results.items()}}`
  unfoldable pub merge_payload : Payload J → Payload J → Payload J
  unfolding add_results insert
  merge_payload context results = add_results context results

  -- The group id of a payload: "default" if there is none, `none` if it is no text.
  unfoldable pub group_id : Payload J → Option String
  unfolding lookup
  group_id payload = elim (lookup "group_id" payload) [
    | none ↦ some "default"
    | some v ↦ elim v [ text s ↦ some s | other j ↦ none ]
  ]

  pub subject_of : Step J → String → String
  subject_of s gid = "memory.pipeline." +++ s.name +++ "." +++ sanitize_group_id gid

  -- `results[stage.name] = result`; a failure and a timeout are only logged.
  pub keep_result : String → Option (Value J) → World J → World J
  keep_result name none world = world
  keep_result name (some v) world = record world { results = insert name v world.results }

  pub run_sync : Step J → Payload J → World J → World J
  run_sync s payload world =
      keep_result s.name (wait_for (s.handler payload) s.timeout)
        (record world { called = world.called ++ (s.name, payload) ∷ [] })

  -- `asyncio.create_task(self._run_async_safe(stage, payload))`
  pub create_task : Step J → Payload J → World J → World J
  create_task s payload world = record world { tasks = world.tasks ++ (s.name, payload) ∷ [] }

module _ {J : Type 0} (dumps_ok : J → Bool) where
  unfoldable pub json_safe : Payload J → Payload J
  json_safe [] = []
  json_safe ((k, text s) ∷ rest) = (k, text s) ∷ json_safe rest
  json_safe ((k, other j) ∷ rest) =
      let kept = json_safe rest in if dumps_ok j then (k, other j) ∷ kept else kept

  -- A `publish` that raises is only logged.
  pub publish : (List (Message J) → Message J → Bool) → Message J → World J → World J
  publish takes m world =
      if takes world.published m
      then record world { published = world.published ++ m ∷ [] }
      else world

  -- `none` is the exception that leaves `_queue_async`.
  pub queue_async :
      Option (List (Message J) → Message J → Bool) → Step J → Payload J → World J → Option (World J)
  unfolding publish
  queue_async none s payload world = some (create_task s payload world)
  queue_async (some takes) s payload world = elim (group_id payload) [
    | none ↦ none
    | some gid ↦
        some (publish takes (record { subject = subject_of s gid; body = json_safe payload }) world)
  ]

  module _ (nats : Option (List (Message J) → Message J → Bool)) where
    pub run_stage : Step J → Payload J → World J → Option (World J)
    run_stage s payload world =
        if s.sync then some (run_sync s payload world) else queue_async nats s payload world

    pub run_stages : Payload J → List (Step J) → World J → Outcome J
    run_stages context [] world = returned world
    run_stages context (s ∷ rest) world =
        elim (run_stage s (merge_payload context world.results) world) [
          | none ↦ bad_group world
          | some world' ↦ run_stages context rest world'
        ]

    unfoldable pub execute : Workflow (Payload J) (Run J) → Payload J → Outcome J
    unfolding run_stages run_stage run_sync keep_result wait_for queue_async create_task json_safe
        subject_of merge_payload group_id topological_order
    execute w context = elim (topological_order w) [
      | Workflow.ok order ↦ run_stages context order start
      | Workflow.err e ↦ bad_workflow e
    ]
