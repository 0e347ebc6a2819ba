-- ===== src/Tests/Workflow.antt =====
-- The theorems on workflows/base.py and workflows/engine.py at the curation workflow, whose
-- handlers answer at once, and at a workflow with a cycle.
use segnog.Prelude.{
  ℕ, String, Bool, true, false, Option, none, some, List, [], ◌∷◌, ◌≡◌, ◌≢◌, ◌↔◌, refl, All, Among,
  Distinct, keys, map, contains,
}
use segnog.Workflow
use segnog.Workflow.{Stage, Workflow, Error, cycle, topological_order, async_stages}
use segnog.Workflow.Order.{names, DepsBefore, topological_order_lem}
use segnog.Workflow.Errors.{Reaches, topological_order-Explains}
use segnog.Workflow.Acyclic.{DependenciesKnown, IsAcyclic, topological_order_iff}
use segnog.Pipelines.{curation_workflow}
use segnog.Engine.{
  text, Payload, Run, Step, World, Message, Outcome, returned, execute, group_id, subject_of,
  sanitize_group_id, start,
}
use segnog.Engine.Calls.{Answers, execute-Answers}
use segnog.Engine.Queue.{execute-published}

abbrev J : Type 0
J = Unit {0}

-- A handler that answers with a text after `took` milliseconds.
abbrev answer : ℕ → String → Payload J → Run J
answer took reply payload = record { took = took; outcome = some (text reply) }

-- `knowledge` is too slow.
abbrev curation : Workflow (Payload J) (Run J)
unfolding curation_workflow
curation =
    curation_workflow (answer 10 "r") (answer 130_000 "k") (answer 1 "a") (answer 1 "c")
      (answer 1 "o")

abbrev context : Payload J
context = ("group_id", text "a b.c") ∷ []

program : Unit {0}
unfolding topological_order curation contains group_id
program = tt

curation_order : topological_order curation ≡ Workflow.ok curation.stages
unfolding program
curation_order = refl

group_known : group_id context ≢ none
unfolding group_id
group_known h = cc

topological_order_lem_example :
    Distinct (names curation.stages)
    × DepsBefore [] curation.stages
    × All (λ s. Among s curation.stages) curation.stages
    × All (λ s. contains s.name (names curation.stages) ≡ true) curation.stages
topological_order_lem_example = topological_order_lem curation curation.stages curation_order

-- Two stages that depend on one another.
abbrev loop : Workflow (Payload J) (Run J)
loop = record {
  name = "loop";
  stages =
      record { name = "a"; handler = answer 1 "a"; sync = true; depends_on = "b" ∷ []; timeout = 9 }
      ∷ record {
        name = "b";
        handler = answer 1 "b";
        sync = false;
        depends_on = "a" ∷ [];
        timeout = 9;
      }
      ∷ [];
}

topological_order-Explains_example : Reaches loop "a" "a"
unfolding topological_order
topological_order-Explains_example = topological_order-Explains loop (cycle "a") refl

topological_order_iff_example :
    ((l : List (Step J)) × (topological_order curation ≡ Workflow.ok l))
    ↔ (DependenciesKnown curation × IsAcyclic curation)
unfolding curation_workflow contains
topological_order_iff_example =
    topological_order_iff curation ((refl, (refl, (refl, (refl, (refl, tt))))))

abbrev one_result : Payload J
one_result = ("a", text "v") ∷ []

execute-Answers_example :
    (after : World J) × (execute (λ j. true) none curation context ≡ returned after)
    × Answers curation.stages start after
execute-Answers_example =
    execute-Answers (λ j. true) none curation context curation.stages curation_order group_known

abbrev world_of : Outcome J → World J
world_of (returned w) = w
world_of _ = start

abbrev Nats : Type 0
Nats = Option (List (Message J) → Message J → Bool)

abbrev ran : Nats → World J
ran nats = world_of (execute (λ j. true) nats curation context)

-- `knowledge` is cut off, and the stages behind it go on.
without_nats : keys (ran none).results ≡ "reflection" ∷ []
unfolding program execute
without_nats = refl

ran-returned :
    (execute (λ j. true) none curation context ≡ returned (ran none))
    × (execute (λ j. true) (some (λ sent m. true)) curation context
        ≡ returned (ran (some (λ sent m. true))))
unfolding program execute
ran-returned = (refl, refl)

with_nats :
    map (λ m. m.subject) (ran (some (λ sent m. true))).published
    ≡ "memory.pipeline.artifacts.a-b-c" ∷ "memory.pipeline.causals.a-b-c"
      ∷ "memory.pipeline.ontology.a-b-c" ∷ []
unfolding program execute sanitize_group_id
with_nats = refl

execute-published_example :
    map (λ m. m.subject) (ran (some (λ sent m. true))).published
    ≡ map (λ s. subject_of s "a b.c") (async_stages curation.stages)
unfolding program
execute-published_example =
    execute-published (λ j. true) (λ sent m. true) curation context curation.stages
      (ran (some (λ sent m. true))) "a b.c" (λ sent m. refl) refl curation_order ran-returned.1
