-- ===== src/Tests/Workers.antt =====
-- The theorems of Workers at a message that asks for a reply, and at a server with two queues.
use segnog.Prelude.{
  String, true, false, Option, none, some, List, [], ◌∷◌, ◌≡◌, ◌↔◌, refl, ap, ◌∙◌, ◌==◌,
  if◌then◌else◌,
}
use segnog.Workers.{ran, replied, acked, Message, process_sync}
use segnog.Workers.Settle.{is_acked, Answered, IsSent, process_sync_iff}
use segnog.Workers.Priority.{
  Queue, fast, normal, Fetched, messages, timed_out, Server, IsFifo, tail, turns, IsDrained,
  turns_lem,
}

abbrev job : String → Message String
job payload = record {
  body = some payload;
  reply = "inbox";
  ack_raises = false;
  nak_raises = false;
}

-- A handler that raises on one payload.
abbrev handle : String → Option String
handle payload = if payload == "bad" then none else some payload

process_sync_iff_example :
    (is_acked (process_sync (λ r. some r) (λ s d. true) handle (job "good")) ≡ true) ↔ (
      (result : String) × Answered handle (job "good") result
      × IsSent (λ r. some r) (λ s d. true) (job "good") result
      × ((job "good").ack_raises ≡ false))
process_sync_iff_example = process_sync_iff handle (λ r. some r) (λ s d. true) (job "good")

process_sync_run :
    process_sync (λ r. some r) (λ s d. false) handle (job "good")
    ≡ ran "good" ∷ replied "inbox" "good" ∷ acked ∷ []
unfolding process_sync
process_sync_run = refl

-- A server that has its queues in two lists.
abbrev Lists : Type 0
Lists = List (Message String) × List (Message String)

abbrev waiting : Queue → Lists → List (Message String)
waiting fast s = s.0
waiting normal s = s.1

abbrev first_of : List (Message String) → Fetched String
first_of [] = timed_out
first_of (m ∷ rest) = messages (m ∷ [])

abbrev fetch_first : Queue → Lists → Lists × Fetched String
fetch_first fast s = ((tail s.0, s.1), first_of s.0)
fetch_first normal s = ((s.0, tail s.1), first_of s.1)

abbrev two_lists : Server String Lists
two_lists = record { fetch = fetch_first }

fetched-first_of : (q : Queue) (s : Lists) → (fetch_first q s).1 ≡ first_of (waiting q s)
fetched-first_of fast s = refl
fetched-first_of normal s = refl

taken-tail : (q : Queue) (s : Lists) → waiting q (fetch_first q s).0 ≡ tail (waiting q s)
taken-tail fast s = refl
taken-tail normal s = refl

two_lists-IsFifo : IsFifo two_lists waiting
two_lists-IsFifo = record {
  first = λ q s m rest h. fetched-first_of q s ∙ ap first_of h;
  none_left = λ q s h. fetched-first_of q s ∙ ap first_of h;
  taken = taken-tail;
  fast_kept = λ s. refl;
  normal_kept = λ s. refl;
}

abbrev one_each : Lists
one_each = (job "f" ∷ [], job "n" ∷ [])

turns_lem_example :
    IsDrained two_lists handle handle waiting two_lists-IsFifo []
      (job "f" ∷ [])
      (job "n" ∷ [])
      (turns two_lists handle handle 2 (one_each, []))
turns_lem_example = turns_lem two_lists handle handle waiting two_lists-IsFifo one_each
