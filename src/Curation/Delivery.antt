-- ===== src/Curation/Delivery.antt =====
-- What the curation worker does with the events of a group, whatever the order in which its loops
-- and tasks run.
use segnog.Prelude.{
  ℕ, Option, String, List, [], ◌∷◌, ◌++◌, ◌≡◌, refl, sym, ◌⊎◌, inl, inr, ◌==◌, Bool-cases, arith,
  eq_iff, if◌then◌else◌,
}
use segnog.Curation.{
  Event, pending, pop_group, Body, broken, parsed, Message, Worker, process_message, check_timeouts,
  curation_of, trigger_curation,
}
use segnog.Curation.Groups.{
  of_group, of_group-append, pending-add, pending-pop_group, append_nil, append_assoc,
}
use segnog.Curation.Run.{
  Run, begin, receive, timeouts, task, events_of_body, received, curated_events,
}

pub body_cases : (b : Body) → (b ≡ broken) ⊎ ((event : Option Event) × (b ≡ parsed event))
body_cases broken = inl refl
body_cases (parsed event) = inr (event, refl)

-- The accumulator after a message, whatever its reply.
process_message-accumulator :
    (m : Message) (now : ℕ) (w : Worker) (g : String)
    → pending (process_message m now w).accumulator g
      ≡ pending w.accumulator g ++ of_group g (events_of_body m.body)
unfolding process_message of_group
process_message-accumulator m now w g = elim (body_cases m.body) [
  | inl broke ↦ rw broke (append_nil (pending w.accumulator g))
  | inr (event, read) ↦ elim (Bool-cases m.ack_raises) [
    | inl raises ↦ rw read (rw raises (pending-add event now w.accumulator g))
    | inr acks ↦ rw read (rw acks (pending-add event now w.accumulator g))
  ]
]

of_group-of_group :
    (j g : String) (events : List Event)
    → of_group j (of_group g events) ≡ (if j == g then of_group g events else [])
unfolding of_group
of_group-of_group j g [] = ground arith
of_group-of_group j g (e ∷ events) =
    ground
      (arith, of_group-of_group j g events, eq_iff j g, eq_iff g e.group_id, eq_iff j e.group_id)

curated_events-append :
    (g : String) (xs ys : List (String × List Event))
    → curated_events g (xs ++ ys) ≡ curated_events g xs ++ curated_events g ys
curated_events-append g [] ys = refl
curated_events-append g ((j, events) ∷ xs) ys = ground (
  arith,
  curated_events-append g xs ys,
  append_assoc (of_group g events) (curated_events g xs) (curated_events g ys),
)

received-append_one :
    (g : String) (messages : List Message) (m : Message)
    → of_group g (received (messages ++ m ∷ []))
      ≡ of_group g (received messages) ++ of_group g (events_of_body m.body)
received-append_one g messages m = ground (
  arith,
  received_append messages m,
  of_group-append g (received messages) (events_of_body m.body),
)
  where
    received_append :
        (messages : List Message) (m : Message)
        → received (messages ++ m ∷ []) ≡ received messages ++ events_of_body m.body
    received_append [] m = sym (append_nil (events_of_body m.body))
    received_append (n ∷ messages) m = ground (
      arith,
      received_append messages m,
      append_assoc (events_of_body n.body) (received messages) (events_of_body m.body),
    )

-- Each group's list holds that group's events only, and what was curated of a group with what is
-- still pending makes up what was received of it.
record IsAccounted (w : Worker) (messages : List Message) : Type 0 where
  sorted :
      (j g : String)
      → of_group j (pending w.accumulator g) ≡ (if j == g then pending w.accumulator g else [])
  total :
      (g : String)
      → curated_events g w.curated ++ pending w.accumulator g ≡ of_group g (received messages)

process_message-curated :
    (m : Message) (now : ℕ) (w : Worker) → (process_message m now w).curated ≡ w.curated
unfolding process_message
process_message-curated m now w = elim (body_cases m.body) [
  | inl broke ↦ rw broke refl
  | inr (event, read) ↦ elim (Bool-cases m.ack_raises) [
    | inl raises ↦ rw read (rw raises refl)
    | inr acks ↦ rw read (rw acks refl)
  ]
]

receive-IsAccounted :
    (m : Message) (now : ℕ) (w : Worker) (messages : List Message)
    → IsAccounted w messages
    → IsAccounted (process_message m now w) (messages ++ m ∷ [])
receive-IsAccounted m now w messages a = record {
  sorted = λ j g. rw (process_message-accumulator m now w g) (
      ground (
        arith,
        of_group-append j (pending w.accumulator g) (of_group g (events_of_body m.body)),
        of_group-of_group j g (events_of_body m.body),
        a.sorted j g,
      ));
  total = λ g. ground (
    arith,
    process_message-accumulator m now w g,
    process_message-curated m now w,
    received-append_one g messages m,
    a.total g,
    append_assoc (curated_events g w.curated) (pending w.accumulator g)
        (of_group g (events_of_body m.body)),
  );
}

curated_events-curation_of :
    (j g : String) (events : List Event)
    → curated_events j (curation_of g events) ≡ of_group j events
unfolding of_group
curated_events-curation_of j g [] = refl
curated_events-curation_of j g (e ∷ events) = sym (append_nil (of_group j (e ∷ events)))

trigger_curation-IsAccounted :
    (g : String) (w : Worker) (messages : List Message)
    → IsAccounted w messages
    → IsAccounted (trigger_curation g w) messages
unfolding trigger_curation pop_group of_group
trigger_curation-IsAccounted g w messages a = record {
  sorted = λ j i. ground (arith, pending-pop_group g w.accumulator i, a.sorted j i);
  total = λ j. ground (
    arith,
    curated_events-append j w.curated (curation_of g (pending w.accumulator g)),
    curated_events-curation_of j g (pending w.accumulator g),
    pending-pop_group g w.accumulator j,
    a.sorted j g,
    a.total j,
    eq_iff j g,
    append_nil (curated_events j w.curated ++ pending w.accumulator g),
    append_nil (curated_events j w.curated),
  );
}

-- A worker that has just started.
abbrev pub fresh : ℕ → ℕ → Worker
fresh min wait = record {
  accumulator = record { min_episodes = min; max_wait = wait; groups = []; first_seen = [] };
  tasks = [];
  curated = [];
  replies = [];
}

fresh-IsAccounted : (min wait : ℕ) → IsAccounted (fresh min wait) []
unfolding pending of_group
fresh-IsAccounted min wait = record { sorted = λ j g. ground arith; total = λ g. refl }

Run-IsAccounted :
    {min wait : ℕ} {w : Worker} {messages : List Message}
    → Run (fresh min wait) w messages
    → IsAccounted w messages
unfolding check_timeouts
Run-IsAccounted begin = fresh-IsAccounted _ _
Run-IsAccounted (receive m now run) = receive-IsAccounted m now _ _ (Run-IsAccounted run)
Run-IsAccounted (timeouts now run) =
    let before = Run-IsAccounted run in record { sorted = before.sorted; total = before.total }
Run-IsAccounted (task g before after waiting run) =
    let a = Run-IsAccounted run in
    trigger_curation-IsAccounted g _ _ (record { sorted = a.sorted; total = a.total })

-- Whatever the order in which messages, timeout checks and tasks are run, the events of a group
-- that went into curations, followed by those still pending, are the pending raw events received
-- for that group, each once for each time it was received and in the order of arrival.
pub Run-total :
    {min wait : ℕ} {w : Worker} {messages : List Message}
    → Run (fresh min wait) w messages
    → (g : String)
    → curated_events g w.curated ++ pending w.accumulator g ≡ of_group g (received messages)
Run-total run g = (Run-IsAccounted run).total g
