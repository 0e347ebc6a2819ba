-- ===== src/Curation/Timeouts.antt =====
-- The timeout check of workers/curation_worker.py, in any run of the worker.
use segnog.Prelude.{
  ℕ, ◌-◌, Bool, true, false, Option, none, some, String, List, [], ◌∷◌, ◌≡◌, ◌≢◌, refl, inl, inr,
  ◌==◌, ◌&&◌, Dict, keys, lookup, Distinct, lookup_absent, lookup_present, ap, length, ltb,
  contains, Bool-cases, Option-cases, arith, eq_iff, eq_self,
}
use segnog.Curation.{
  Accumulator, events_or_empty, pending, Message, Worker, timed_out, get_timed_out_groups,
  process_message, check_timeouts, trigger_curation,
}
use segnog.Curation.Groups.{IsTimed, add-IsTimed, pop_group-IsTimed}
use segnog.Curation.Run.{Run, begin, receive, timeouts, task}
use segnog.Curation.Delivery.{fresh, body_cases}

-- The group has waited too long and has events.
abbrev pub is_late : ℕ → Accumulator → String → Option ℕ → Bool
is_late now a g none = false
is_late now a g (some first) = ltb a.max_wait (now - first) && ltb 0 (length (pending a g))

contains-timed_out :
    (now : ℕ) (a : Accumulator) (d : Dict ℕ) (g : String)
    → Distinct (keys d)
    → contains g (timed_out now a d) ≡ is_late now a g (lookup g d)
unfolding timed_out contains lookup
contains-timed_out now a [] g dis = refl
contains-timed_out now a ((j, first) ∷ d) g dis = elim (Bool-cases (g == j)) [
  | inl e ↦
      ground
        (arith, contains-timed_out now a d g dis.1, lookup_absent j d dis.0, eq_iff g j, eq_self j)
  | inr e ↦ ground (arith, contains-timed_out now a d g dis.1)
]

process_message-IsTimed :
    (m : Message) (now : ℕ) (w : Worker)
    → IsTimed w.accumulator
    → IsTimed (process_message m now w).accumulator
unfolding process_message
process_message-IsTimed m now w t = elim (body_cases m.body) [
  | inl broke ↦ rw broke t
  | inr (event, read) ↦ elim (Bool-cases m.ack_raises) [
    | inl raises ↦ rw read (rw raises (add-IsTimed event now w.accumulator t))
    | inr acks ↦ rw read (rw acks (add-IsTimed event now w.accumulator t))
  ]
]

Run-IsTimed :
    {min wait : ℕ} {w : Worker} {messages : List Message}
    → Run (fresh min wait) w messages
    → IsTimed w.accumulator
unfolding check_timeouts trigger_curation
Run-IsTimed begin = record { distinct = tt; same = λ g. refl }
Run-IsTimed (receive m now run) = process_message-IsTimed m now _ (Run-IsTimed run)
Run-IsTimed (timeouts now run) = Run-IsTimed run
Run-IsTimed (task g before after waiting run) = pop_group-IsTimed g _ (Run-IsTimed run)

-- In any run, a timeout check starts a task for a group exactly if the time that is recorded for
-- the group's first event is more than the maximal wait ago, and the group has events.
pub contains-get_timed_out_groups :
    {min wait : ℕ} {w : Worker} {messages : List Message}
    → Run (fresh min wait) w messages
    → (now : ℕ) (g : String)
    → contains g (get_timed_out_groups now w.accumulator)
      ≡ is_late now w.accumulator g (lookup g w.accumulator.first_seen)
unfolding get_timed_out_groups
contains-get_timed_out_groups {w = w} run now g =
    contains-timed_out now w.accumulator w.accumulator.first_seen g (Run-IsTimed run).distinct

-- In any run, a group with pending events has the time of a first event recorded.
pub pending-first_seen :
    {min wait : ℕ} {w : Worker} {messages : List Message}
    → Run (fresh min wait) w messages
    → (g : String) → pending w.accumulator g ≢ []
    → contains g (keys w.accumulator.first_seen) ≡ true
unfolding pending
pending-first_seen {w = w} run g some_pending =
    elim (Option-cases (lookup g w.accumulator.groups)) [
      | inl (events, found) ↦
          ground
            (arith, (Run-IsTimed run).same g, lookup_present g events w.accumulator.groups found)
      | inr none_found ↦ absurd (some_pending (ap events_or_empty none_found))
    ]
