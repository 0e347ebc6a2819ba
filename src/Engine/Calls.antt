-- ===== src/Engine/Calls.antt =====
-- What `WorkflowEngine.execute` of workflows/engine.py does for each stage of an order.
use mathlib.Core.List.{append_assoc, append-nil, map-append}
use mathlib.Core.Path.{subst}
use segnog.Prelude.{
  String, Bool, true, false, Option, none, some, List, [], ◌∷◌, ◌++◌, ◌≡◌, ◌≢◌, refl, sym, ◌∙◌,
  lookup, keys, contains, Distinct, lookup-insert, contains-ne, contains_head, contains_tail, Among,
  Among-last, Among-append_left, contains-cons, eq_self, arith, ◌==◌, Bool-cases, Option-cases, inl,
  inr, ◌⊎◌, if◌then◌else◌,
}
use segnog.Workflow
use segnog.Workflow.{Workflow, Stage, sync_stages, async_stages, topological_order}
use segnog.Workflow.Order.{names, topological_order_lem}
use segnog.Engine.{
  Value, Payload, Run, Step, Message, World, returned, bad_group, wait_for, merge_payload, group_id,
  subject_of, json_safe, create_task, publish, queue_async, keep_result, run_sync, run_stage,
  run_stages, execute, start,
}
use segnog.Engine.Payload.{or_else, group_id-merge_payload}

module _ {J : Type 0} where
  -- What a run of `rest` that leads from `before` to `after` has done for its sync stages: each
  -- was awaited once, in order, and its result is there exactly if it came in time.
  pub record Answers (rest : List (Step J)) (before after : World J) : Type 0 where
    pub called : keys after.called ≡ keys before.called ++ names (sync_stages rest)
    pub kept : (c : String × Payload J) → Among c before.called → Among c after.called
    pub others :
        (n : String)
        → contains n (names rest) ≡ false
        → lookup n after.results ≡ lookup n before.results
    pub answered :
        (s : Step J)
        → Among s (sync_stages rest)
        → (p : Payload J) × Among (s.name, p) after.called
          × (lookup s.name after.results ≡ wait_for (s.handler p) s.timeout)

  Answers-nil : (w : World J) → Answers [] w w
  unfolding sync_stages
  Answers-nil w = record {
    called = sym (append-nil (keys w.called));
    kept = λ c m. m;
    others = λ n h. refl;
    answered = λ s m. absurd m;
  }

  Answers-async :
      (s : Step J) (rest : List (Step J)) (before mid after : World J)
      → s.sync ≡ false
      → mid.results ≡ before.results
      → mid.called ≡ before.called
      → Answers rest mid after
      → Answers (s ∷ rest) before after
  unfolding sync_stages contains
  Answers-async s rest before mid after off same same' a = record {
    called = rw (off, ← same') a.called;
    kept = λ c m. a.kept c (rw same' m);
    others = λ n h. rw (← same) (a.others n (ground arith));
    answered = λ t m. a.answered t (rw off at m);
  }

  called-keep_result :
      (s : String) (o : Option (Value J)) (w : World J) → (keep_result s o w).called ≡ w.called
  unfolding keep_result
  called-keep_result s none w = refl
  called-keep_result s (some v) w = refl

  lookup-keep_result :
      (s n : String) (o : Option (Value J)) (w : World J)
      → lookup n (keep_result s o w).results
        ≡ (if n == s then or_else o (lookup n w.results) else lookup n w.results)
  unfolding keep_result
  lookup-keep_result s n none w = ground arith
  lookup-keep_result s n (some v) w = lookup-insert s n v w.results

  new_sync :
      (s : Step J) (rest : List (Step J)) (p : Payload J) (w : World J)
      → contains s.name (names rest) ≡ false
      → ((n : String) → contains n (names (s ∷ rest)) ≡ true → lookup n w.results ≡ none)
      → (n : String) → contains n (names rest) ≡ true
      → lookup n (run_sync s p w).results ≡ none
  unfolding run_sync
  new_sync s rest p w once new n m = ground (
    arith,
    lookup-keep_result s.name n (wait_for (s.handler p) s.timeout)
        (record w { called = w.called ++ (s.name, p) ∷ [] }),
    contains-ne s.name n (names rest),
    new n,
    contains_tail n s.name (names rest),
  )

  new_async :
      (s : Step J) (rest : List (Step J)) (w w' : World J)
      → w'.results ≡ w.results
      → ((n : String) → contains n (names (s ∷ rest)) ≡ true → lookup n w.results ≡ none)
      → (n : String) → contains n (names rest) ≡ true
      → lookup n w'.results ≡ none
  new_async s rest w w' same new n m = rw same (new n (contains_tail n s.name (names rest) m))

  sync_stages-cons :
      (s : Step J) (rest : List (Step J))
      → s.sync ≡ true
      → sync_stages (s ∷ rest) ≡ s ∷ sync_stages rest
  unfolding sync_stages
  sync_stages-cons s rest on = ground arith

  Answers-sync :
      (s : Step J) (rest : List (Step J)) (p : Payload J) (before after : World J)
      → s.sync ≡ true
      → contains s.name (names rest) ≡ false
      → lookup s.name before.results ≡ none
      → Answers rest (run_sync s p before) after
      → Answers (s ∷ rest) before after
  unfolding sync_stages run_sync
  Answers-sync s rest p before after on once new a =
      let mid = record before { called = before.called ++ (s.name, p) ∷ [] } in
      let o = wait_for (s.handler p) s.timeout in
      record {
        called = rw (a.called, called-keep_result s.name o mid, map-append, append_assoc, on);
        kept = λ c m.
            a.kept c (rw (called-keep_result s.name o mid) (Among-append_left c before.called _ m));
        others = λ n h. ground (
          arith,
          a.others n,
          lookup-keep_result s.name n o mid,
          contains-cons n s.name (names rest),
        );
        answered = λ t m.
            let m' : (t ≡ s) ⊎ Among t (sync_stages rest) =
              subst (Among t) (sync_stages-cons s rest on) m in
            let end : lookup s.name after.results ≡ o = ground (
              arith,
              a.others s.name once,
              lookup-keep_result s.name s.name o mid,
              eq_self s.name,
            ) in
            let last = Among-last (s.name, p) before.called in
            elim m' [
              | inl e ↦
                  (p, a.kept (t.name, p) (rw (e, called-keep_result s.name o mid) last), rw e end)
              | inr later ↦ a.answered t later
            ];
      }

module _ {J : Type 0} (dumps_ok : J → Bool) where
  publish-keeps :
      (takes : List (Message J) → Message J → Bool) (m : Message J) (w : World J)
      → ((publish dumps_ok takes m w).results ≡ w.results)
        × ((publish dumps_ok takes m w).called ≡ w.called)
  unfolding publish
  publish-keeps takes m w = ground arith

  queue_async-keeps :
      (nats : Option (List (Message J) → Message J → Bool)) (s : Step J) (p : Payload J)
      (w : World J)
      → group_id p ≢ none
      → (w' : World J) × (queue_async dumps_ok nats s p w ≡ some w')
        × (w'.results ≡ w.results)
        × (w'.called ≡ w.called)
  unfolding queue_async
  queue_async-keeps none s p w known =
      (create_task s p w, refl, unfold create_task in refl, unfold create_task in refl)
  queue_async-keeps (some takes) s p w known = elim (Option-cases (group_id p)) [
    | inr missing ↦ absurd (known missing)
    | inl (gid, found) ↦
        let m : Message J = record { subject = subject_of s gid; body = json_safe dumps_ok p } in
        let (same, same') = publish-keeps takes m w in
        (publish dumps_ok takes m w, rw (found, queue_async), same, same')
  ]

  module _ (nats : Option (List (Message J) → Message J → Bool)) where
    pub run_stages-sync :
        (context : Payload J) (s : Step J) (rest : List (Step J)) (w : World J)
        → s.sync ≡ true
        → run_stages dumps_ok nats context (s ∷ rest) w
          ≡ run_stages dumps_ok nats context rest (run_sync s (merge_payload context w.results) w)
    unfolding run_stages run_stage
    run_stages-sync context s rest w on = ground arith

    pub run_stages-async :
        (context : Payload J) (s : Step J) (rest : List (Step J)) (w w' : World J)
        → s.sync ≡ false
        → queue_async dumps_ok nats s (merge_payload context w.results) w ≡ some w'
        → run_stages dumps_ok nats context (s ∷ rest) w ≡ run_stages dumps_ok nats context rest w'
    unfolding run_stages run_stage
    run_stages-async context s rest w w' off queued = ground arith

    pub run_stages-stuck :
        (context : Payload J) (s : Step J) (rest : List (Step J)) (w : World J)
        → s.sync ≡ false
        → queue_async dumps_ok nats s (merge_payload context w.results) w ≡ none
        → run_stages dumps_ok nats context (s ∷ rest) w ≡ bad_group w
    unfolding run_stages run_stage
    run_stages-stuck context s rest w off failed = ground arith

    run_stages_lem :
        (context : Payload J) (rest : List (Step J)) (w : World J)
        → group_id context ≢ none
        → Distinct (names rest)
        → ((n : String) → contains n (names rest) ≡ true → lookup n w.results ≡ none)
        → (after : World J) × (run_stages dumps_ok nats context rest w ≡ returned after)
          × Answers rest w after
    run_stages_lem context [] w known dis new = (w, unfold run_stages in refl, Answers-nil w)
    run_stages_lem context (s ∷ rest) w known dis new =
        let p = merge_payload context w.results in
        elim (Bool-cases s.sync) [
          | inl on ↦
              let fresh = new_sync s rest p w dis.0 new in
              let (after, ran, a) =
                run_stages_lem context rest (run_sync s p w) known dis.1 fresh in
              let own = new s.name (contains_head s.name (names rest)) in
              (
                after,
                run_stages-sync context s rest w on ∙ ran,
                Answers-sync s rest p w after on dis.0 own a,
              )
          | inr off ↦
              let (mid, queued, same, same') =
                queue_async-keeps nats s p w (rw group_id-merge_payload known) in
              let fresh = new_async s rest w mid same new in
              let (after, ran, a) = run_stages_lem context rest mid known dis.1 fresh in
              (
                after,
                run_stages-async context s rest w mid off queued ∙ ran,
                Answers-async s rest w mid after off same same' a,
              )
        ]

    -- If the order is `l` and the context's group id is a text or absent, then `execute` returns
    -- whatever the handlers do; it has awaited the sync stages of `l`, in this order and each once,
    -- and of each it keeps the value that its handler gave for the payload of its call, if it gave
    -- one within the timeout, and nothing otherwise.
    pub execute-Answers :
        (w : Workflow (Payload J) (Run J)) (context : Payload J) (l : List (Step J))
        → topological_order w ≡ Workflow.ok l
        → group_id context ≢ none
        → (after : World J) × (execute dumps_ok nats w context ≡ returned after)
          × Answers l start after
    unfolding execute
    execute-Answers w context l ordered known =
        let (dis, deps, own, all) = topological_order_lem w l ordered in
        let (after, ran, a) =
          run_stages_lem context l start known dis (λ n m. unfold lookup in refl) in
        (after, rw (ordered, execute) ran, a)
