-- ===== src/Engine/Queue.antt =====
-- The async stages of `WorkflowEngine.execute` (workflows/engine.py): JetStream messages, or
-- background tasks if there is no NATS client.
use mathlib.Core.List.{append_assoc, append-nil, map-append}
use mathlib.Core.Path.{subst}
use text.Mathlib.TextLemmas.{cons-append, nil-append}
use segnog.Prelude.{
  String, Bool, true, false, Option, none, some, List, [], ◌∷◌, ◌++◌, ◌≡◌, refl, sym, some_eq, ◌∙◌,
  map, keys, Bool-cases, Option-cases, inl, inr, arith,
}
use segnog.Workflow
use segnog.Workflow.{Workflow, async_stages, topological_order}
use segnog.Workflow.Order.{names}
use segnog.Engine.{
  Payload, Run, Step, Message, World, Outcome, returned, merge_payload, group_id, subject_of,
  json_safe, sanitize_group_id, is_unsafe, create_task, publish, queue_async, keep_result, run_sync,
  run_stages, execute, start,
}
use segnog.Engine.Payload.{group_id-merge_payload}
use segnog.Engine.Calls.{run_stages-sync, run_stages-async, run_stages-stuck}

-- No character of the text is a dot or a space.
abbrev pub IsToken : String → Type 0
IsToken String.[] = Unit
IsToken (String.◌∷◌ c s) = (is_unsafe c ≡ false) × IsToken s

-- A sanitised group id is one token of a NATS subject.
pub sanitize_group_id-IsToken : (s : String) → IsToken (sanitize_group_id s)
unfolding sanitize_group_id
sanitize_group_id-IsToken String.[] = tt
sanitize_group_id-IsToken (String.◌∷◌ c s) = elim (Bool-cases (is_unsafe c)) [
  | inl bad ↦ rw (bad, cons-append, nil-append) (refl, sanitize_group_id-IsToken s)
  | inr good ↦ rw good (good, sanitize_group_id-IsToken s)
]

abbrev subjects : {J : Type 0} → List (Message J) → List String
subjects = map (λ m. m.subject)

module _ {J : Type 0} where
  async_stages-cons :
      (s : Step J) (rest : List (Step J))
      → s.sync ≡ false
      → async_stages (s ∷ rest) ≡ s ∷ async_stages rest
  unfolding async_stages
  async_stages-cons s rest off = ground arith

  async_stages-skip :
      (s : Step J) (rest : List (Step J))
      → s.sync ≡ true
      → async_stages (s ∷ rest) ≡ async_stages rest
  unfolding async_stages
  async_stages-skip s rest on = ground arith

  returned_eq : {u v : World J} → ◌≡◌ {A = Outcome J} (returned u) (returned v) → u ≡ v
  returned_eq h = cc

-- A list that sync stages leave alone and to which each async stage adds one entry.
module _ {J : Type 0} (dumps_ok : J → Bool) (nats : Option (List (Message J) → Message J → Bool))
    (context : Payload J) (view : World J → List String) (entry : Step J → String)
    (still : (s : Step J) (p : Payload J) (w : World J) → view (run_sync s p w) ≡ view w)
    (adds : (s : Step J) (p : Payload J) (w w' : World J)
      → group_id p ≡ group_id context
      → queue_async dumps_ok nats s p w ≡ some w'
      → view w' ≡ view w ++ entry s ∷ []) where
  run_stages_nil :
      (w after : World J) → run_stages dumps_ok nats context [] w ≡ returned after → after ≡ w
  unfolding run_stages
  run_stages_nil w after h = cc

  view-run_stages :
      (rest : List (Step J)) (w after : World J)
      → run_stages dumps_ok nats context rest w ≡ returned after
      → view after ≡ view w ++ map entry (async_stages rest)
  unfolding async_stages
  view-run_stages [] w after h = rw (run_stages_nil w after h, append-nil (view w))
  view-run_stages (s ∷ rest) w after h =
      let p = merge_payload context w.results in
      elim (Bool-cases s.sync) [
        | inl on ↦ rw (
          async_stages-skip s rest on,
          view-run_stages rest (run_sync s p w) after
              (sym (run_stages-sync dumps_ok nats context s rest w on) ∙ h),
          still s p w,
        )
        | inr off ↦ elim (Option-cases (queue_async dumps_ok nats s p w)) [
          | inr failed ↦ cc (sym (run_stages-stuck dumps_ok nats context s rest w off failed) ∙ h)
          | inl (w', queued) ↦ rw (
            async_stages-cons s rest off,
            view-run_stages rest w' after
                (sym (run_stages-async dumps_ok nats context s rest w w' off queued) ∙ h),
            adds s p w w' (group_id-merge_payload context w.results) queued,
            append_assoc,
          )
        ]
      ]

  view-execute :
      (w : Workflow (Payload J) (Run J)) (l : List (Step J)) (after : World J)
      → topological_order w ≡ Workflow.ok l
      → execute dumps_ok nats w context ≡ returned after
      → view after ≡ view start ++ map entry (async_stages l)
  view-execute w l after ordered h =
      view-run_stages l start after (unfold execute in rw (ordered, execute) at h)

module _ {J : Type 0} (dumps_ok : J → Bool) where
  tasks-run_sync :
      (s : Step J) (p : Payload J) (w : World J) → keys (run_sync s p w).tasks ≡ keys w.tasks
  unfolding run_sync keep_result
  tasks-run_sync s p w = ground arith

  published-run_sync :
      (s : Step J) (p : Payload J) (w : World J)
      → subjects (run_sync s p w).published ≡ subjects w.published
  unfolding run_sync keep_result
  published-run_sync s p w = ground arith

  tasks-queue_async :
      (s : Step J) (p : Payload J) (w w' : World J)
      → queue_async dumps_ok none s p w ≡ some w'
      → keys w'.tasks ≡ keys w.tasks ++ s.name ∷ []
  unfolding queue_async create_task
  tasks-queue_async s p w w' h =
      subst (λ (v : World J). keys v.tasks ≡ keys w.tasks ++ s.name ∷ []) (some_eq h)
        (map-append (λ e. e.0) w.tasks ((s.name, p) ∷ []))

  published-publish :
      (takes : List (Message J) → Message J → Bool) (m : Message J) (w : World J)
      → takes w.published m ≡ true
      → subjects (publish dumps_ok takes m w).published ≡ subjects w.published ++ m.subject ∷ []
  unfolding publish
  published-publish takes m w taken =
      rw taken (map-append (λ (m : Message J). m.subject) w.published (m ∷ []))

  published-queue_async :
      (takes : List (Message J) → Message J → Bool) (gid : String) (s : Step J) (p : Payload J)
      (w w' : World J)
      → ((sent : List (Message J)) (m : Message J) → takes sent m ≡ true)
      → group_id p ≡ some gid
      → queue_async dumps_ok (some takes) s p w ≡ some w'
      → subjects w'.published ≡ subjects w.published ++ subject_of s gid ∷ []
  unfolding queue_async
  published-queue_async takes gid s p w w' all known h =
      let m : Message J = record { subject = subject_of s gid; body = json_safe dumps_ok p } in
      subst (λ (v : World J). subjects v.published ≡ subjects w.published ++ subject_of s gid ∷ [])
        (some_eq (rw (known, queue_async) at h)) (published-publish takes m w (all w.published m))

  -- Without a NATS client, an execution that returns has started one background task for each
  -- async stage, in the order's sequence.
  pub execute-tasks :
      (w : Workflow (Payload J) (Run J)) (context : Payload J) (l : List (Step J)) (after : World J)
      → topological_order w ≡ Workflow.ok l
      → execute dumps_ok none w context ≡ returned after
      → keys after.tasks ≡ names (async_stages l)
  execute-tasks w context l after =
      view-execute dumps_ok none context (λ v. keys v.tasks) (λ s. s.name) tasks-run_sync
        (λ s p w w' same. tasks-queue_async s p w w') w l after

  -- With JetStream taking every message, an execution that returns has published one message for
  -- each async stage, in the order's sequence, to the stage's subject for the group id.
  pub execute-published :
      (takes : List (Message J) → Message J → Bool) (w : Workflow (Payload J) (Run J))
      (context : Payload J) (l : List (Step J)) (after : World J) (gid : String)
      → ((sent : List (Message J)) (m : Message J) → takes sent m ≡ true)
      → group_id context ≡ some gid
      → topological_order w ≡ Workflow.ok l
      → execute dumps_ok (some takes) w context ≡ returned after
      → subjects after.published ≡ map (λ s. subject_of s gid) (async_stages l)
  execute-published takes w context l after gid all known =
      view-execute dumps_ok (some takes) context (λ v. subjects v.published) (λ s. subject_of s gid)
        published-run_sync
        (λ s p w w' same. published-queue_async takes gid s p w w' all (same ∙ known)) w l after
