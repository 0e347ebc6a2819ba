-- ===== src/Tests/Spans.antt =====
-- The theorems of Spans at two spans that overlap, with times in milliseconds.
use Prim.Native.String.{◌++◌ as ◌+++◌}
use segnog.Prelude.{
  ℕ, ◌-◌, String, Option, none, some, List, [], ◌∷◌, ◌++◌, ltb, ◌==◌, if◌then◌else◌,
}
use segnog.Spans.{Times, Aggregator, Fields, process_span_event, process_all}
use segnog.Spans.Pairs.{empty}

abbrev to_number : String → Option ℕ
to_number s = if s == "100" then some 100 else if s == "250" then some 250 else none

abbrev millis : Times ℕ
millis = record {
  nought = 0;
  float = to_number;
  duration = λ start end. end - start;
  is_stale = λ now start. ltb 60_000 (now - start);
}

abbrev event_of : String → String → String → Fields
event_of phase id ts =
    ("phase", phase) ∷ ("span_id", id) ∷ ("ts", ts) ∷ ("operation", "observe") ∷ ("step", id) ∷ []

-- An end event as SpanTracer sends it, with the start time too.
abbrev end_of : String → String → String → Fields
end_of id ts ts_start = ("ts_start", ts_start) ∷ event_of "end" id ts

abbrev overlapping : List (Fields × ℕ)
overlapping =
    (event_of "start" "a" "100", 1)
    ∷ (event_of "start" "b" "100", 2)
    ∷ (end_of "a" "250" "100", 3)
    ∷ []

abbrev after_b : Aggregator ℕ
after_b =
    process_all millis ((event_of "start" "b" "100", 2) ∷ [])
      (process_span_event millis (event_of "start" "a" "100") 1 empty)
