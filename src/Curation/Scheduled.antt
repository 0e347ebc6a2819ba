-- ===== src/Curation/Scheduled.antt =====
-- A group that has reached the threshold has a task that waits to curate it.
use segnog.Prelude.{
  ℕ, Bool, true, false, Option, none, some, String, List, [], ◌∷◌, ◌++◌, ◌≡◌, refl, inl, inr, ◌==◌,
  ◌&&◌, ◌||◌, length, ltb, leb, All, contains, contains-append, contains-cons, Bool-cases, arith,
  eq_iff, eq_self, if◌then◌else◌,
}
use segnog.Curation.{
  Event, Accumulator, pending, get_timed_out_groups, is_pending_raw, append_event, add, pop_group,
  task_of, Message, Worker, process_message, check_timeouts, trigger_curation,
}
use segnog.Curation.Groups.{pending-pop_group, pending-append_event}
use segnog.Curation.Run.{with_tasks, Run, begin, receive, timeouts, task}
use segnog.Curation.Delivery.{fresh, body_cases}

-- The group has events, and as many as start a curation.
unfoldable pub is_full : Accumulator → String → Bool
is_full a g = ltb 0 (length (pending a g)) && leb a.min_episodes (length (pending a g))

abbrev pub IsScheduled : Worker → Type 0
IsScheduled w =
    (g : String) → (g == "") ≡ false → is_full w.accumulator g ≡ true → contains g w.tasks ≡ true

abbrev pub IsAcked : Message → Type 0
IsAcked m = m.ack_raises ≡ false

min_episodes-append_event :
    (e : Event) (now : ℕ) (a : Accumulator) → (append_event e now a).min_episodes ≡ a.min_episodes
unfolding append_event
min_episodes-append_event e now a = refl

full-append_event :
    (e : Event) (now : ℕ) (a : Accumulator) (g : String)
    → (g == "") ≡ false
    → is_full (append_event e now a) g ≡ true
    → (is_full a g
        || contains g (
            task_of (
              if leb a.min_episodes (length (pending (append_event e now a) e.group_id))
              then some e.group_id
              else none)))
      ≡ true
unfolding is_full contains
full-append_event e now a g named full = elim (Bool-cases (g == e.group_id)) [
  | inl same ↦ ground (arith, min_episodes-append_event e now a, eq_iff g e.group_id, eq_self g)
  | inr other ↦ ground (arith, min_episodes-append_event e now a, pending-append_event e now a g)
]

-- A group that `add` leaves full was full before, or is the one that it reports.
full-add :
    (event : Option Event) (now : ℕ) (a : Accumulator) (g : String)
    → (g == "") ≡ false
    → is_full (add event now a).0 g ≡ true
    → (is_full a g || contains g (task_of (add event now a).1)) ≡ true
unfolding add
full-add none now a g named full = ground arith
full-add (some e) now a g named full = elim (Bool-cases (is_pending_raw e)) [
  | inl fits ↦ rw fits (full-append_event e now a g named (ground arith))
  | inr other ↦ rw other (ground arith)
]

process_message-IsScheduled :
    (m : Message) (now : ℕ) (w : Worker)
    → IsAcked m
    → IsScheduled w
    → IsScheduled (process_message m now w)
unfolding process_message
process_message-IsScheduled m now w acked s = elim (body_cases m.body) [
  | inl broke ↦ rw broke s
  | inr (event, read) ↦ rw read (
      rw acked (λ g named full. ground (
        arith,
        full-add event now w.accumulator g named full,
        s g named,
        contains-append g w.tasks (task_of (add event now w.accumulator).1),
      )))
]

check_timeouts-IsScheduled :
    (now : ℕ) (w : Worker) → IsScheduled w → IsScheduled (check_timeouts now w)
unfolding check_timeouts
check_timeouts-IsScheduled now w s = λ g named full.
    ground
      (arith, s g named full, contains-append g w.tasks (get_timed_out_groups now w.accumulator))

full-pop_group :
    (g j : String) (a : Accumulator)
    → is_full (pop_group g a).0 j ≡ true
    → ((j == g) ≡ false) × (is_full a j ≡ true)
unfolding is_full pop_group
full-pop_group g j a full = ground (arith, pending-pop_group g a j)

trigger_curation-IsScheduled :
    (g : String) (before after : List String) (w : Worker)
    → w.tasks ≡ before ++ g ∷ after
    → IsScheduled w
    → IsScheduled (trigger_curation g (with_tasks (before ++ after) w))
unfolding trigger_curation
trigger_curation-IsScheduled g before after w waiting s = λ j named full.
    let (other, was_full) = full-pop_group g j w.accumulator full in
    ground (
      arith,
      s j named was_full,
      waiting,
      contains-append j before (g ∷ after),
      contains-cons j g after,
      contains-append j before after,
    )

fresh-IsScheduled : (min wait : ℕ) → IsScheduled (fresh min wait)
unfolding is_full pending
fresh-IsScheduled min wait = λ g named full. cc

init_and_last :
    {A : Type 0} (P : A → Type 0) (xs : List A) (y : A) → All P (xs ++ y ∷ []) → All P xs × P y
init_and_last P [] y h = (tt, h.0)
init_and_last P (x ∷ xs) y h = let (hxs, hy) = init_and_last P xs y h.1 in ((h.0, hxs), hy)

-- In any run in which no `ack` raises, a group with a name and with as many pending events as start
-- a curation, and at least one, has a task that waits to curate it.
pub Run-IsScheduled :
    {min wait : ℕ} {w : Worker} {messages : List Message}
    → Run (fresh min wait) w messages
    → All IsAcked messages
    → (g : String) → (g == "") ≡ false
    → is_full w.accumulator g ≡ true
    → contains g w.tasks ≡ true
Run-IsScheduled begin acked = fresh-IsScheduled _ _
Run-IsScheduled (receive m now run) acked =
    let (earlier, last) = init_and_last IsAcked _ m acked in
    process_message-IsScheduled m now _ last (Run-IsScheduled run earlier)
Run-IsScheduled (timeouts now run) acked =
    check_timeouts-IsScheduled now _ (Run-IsScheduled run acked)
Run-IsScheduled (task g before after waiting run) acked =
    trigger_curation-IsScheduled g before after _ waiting (Run-IsScheduled run acked)
