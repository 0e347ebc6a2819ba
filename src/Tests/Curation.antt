-- ===== src/Tests/Curation.antt =====
-- The theorems of Curation at a run with two messages, the second of which fills the group.
use segnog.Prelude.{
  String, true, false, some, List, [], ◌∷◌, ◌++◌, ◌≡◌, ◌≢◌, refl, contains, lookup, insert,
}
use segnog.Curation.{
  Event, pending, add, append_event, is_pending_raw, parsed, Message, Worker, process_message,
  trigger_curation,
}
use segnog.Curation.Run.{Run, begin, receive, task, with_tasks, received, curated_events}
use segnog.Curation.Groups.{of_group}
use segnog.Curation.Delivery.{fresh, Run-total}
use segnog.Curation.Scheduled.{is_full, Run-IsScheduled}

abbrev raw_event : String → String → Event
raw_event uuid group = record {
  episode_uuid = uuid;
  group_id = group;
  episode_type = "raw";
  consolidation_status = "pending";
}

abbrev message_of : Event → Message
message_of e = record { body = parsed (some e); ack_raises = false }

abbrev first_event : Event
first_event = raw_event "e1" "team"

abbrev second_event : Event
second_event = raw_event "e2" "team"

abbrev two_messages : List Message
two_messages = message_of first_event ∷ message_of second_event ∷ []

abbrev one_received : Worker
one_received = process_message (message_of first_event) 10 (fresh 2 30000)

abbrev both_received : Worker
both_received = process_message (message_of second_event) 20 one_received

abbrev both_curated : Worker
both_curated = trigger_curation "team" (with_tasks [] both_received)

one_received-Run : Run (fresh 2 30000) one_received (message_of first_event ∷ [])
one_received-Run = receive (message_of first_event) 10 begin

both_received-Run : Run (fresh 2 30000) both_received two_messages
both_received-Run = receive (message_of second_event) 20 one_received-Run

both_curated-Run : Run (fresh 2 30000) both_curated two_messages
unfolding process_message add append_event pending lookup insert is_pending_raw
both_curated-Run = task "team" [] [] refl both_received-Run

Run-total_example :
    curated_events "team" both_curated.curated ++ pending both_curated.accumulator "team"
    ≡ of_group "team" (received two_messages)
Run-total_example = Run-total both_curated-Run "team"

one_received_pending : pending one_received.accumulator "team" ≢ []
unfolding process_message add append_event pending lookup insert is_pending_raw
one_received_pending h = cc

both_received_full : is_full both_received.accumulator "team" ≡ true
unfolding is_full process_message add append_event pending lookup insert is_pending_raw
both_received_full = refl

Run-IsScheduled_example : contains "team" both_received.tasks ≡ true
Run-IsScheduled_example =
    Run-IsScheduled both_received-Run (refl, (refl, tt)) "team" refl both_received_full
