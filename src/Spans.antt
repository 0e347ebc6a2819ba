-- ===== src/Spans.antt =====
-- workers/span_aggregator.py: the start and end events of timing spans are paired by their id
-- (src/memory_service/workers/span_aggregator.py). The times and their arithmetic are a parameter.
pub mod Pairs
pub mod Match
use Prim.Native.String.{◌++◌ as ◌+++◌}
use segnog.Prelude.{
  String, Bool, true, false, Option, none, some, List, [], ◌∷◌, ◌++◌, ◌==◌, Dict, lookup, insert,
  remove, if◌then◌else◌,
}

-- What the code does with times: `float` of a text raises if it is no number; `is_stale now start`
-- is `now - start > _STALE_SPAN_TTL`, and `duration start end` is `(end - start) * 1000.0`.
pub record Times (F : Type 0) : Type 0 where
  pub nought : F
  pub float : String → Option F
  pub duration : F → F → F
  pub is_stale : F → F → Bool

pub record Span (F : Type 0) : Type 0 where
  pub operation : String
  pub step : String
  pub session_id : String
  pub ts_start : F

-- A recorded latency: the span's id, which names the task, the key, and the duration.
pub record Latency (F : Type 0) : Type 0 where
  pub span_id : String
  pub key : String
  pub duration_ms : F

pub record Aggregator (F : Type 0) : Type 0 where
  pub pending : Dict (Span F)
  pub recorded : List (Latency F)

-- The fields of a stream event; `_get` is "" for a field that is not there.
abbrev pub Fields : Type 0
Fields = Dict String

abbrev text_or : Option String → String
text_or none = ""
text_or (some s) = s

unfoldable pub get : String → Fields → String
unfolding lookup
get name fields = text_or (lookup name fields)

module _ {F : Type 0} (t : Times F) where
  -- `float(_get(name) or default)`
  unfoldable pub float_or : String → Fields → F → Option F
  unfolding get
  float_or name fields default =
      if get name fields == "" then some default else t.float (get name fields)

  pub start_span : String → Fields → Aggregator F → Aggregator F
  unfolding get insert float_or
  start_span id fields a = elim (float_or "ts" fields t.nought) [
    | none ↦ a
    | some ts ↦ record a {
      pending =
          insert id
            (record {
              operation = get "operation" fields;
              step = get "step" fields;
              session_id = get "session_id" fields;
              ts_start = ts;
            })
            a.pending;
    }
  ]

  -- `create_task(dragonfly.record_latency(…))` for the span that was popped.
  pub record_span : String → Fields → F → Span F → Aggregator F → Aggregator F
  unfolding float_or
  record_span id fields now info a = elim (float_or "ts_start" fields info.ts_start) [
    | none ↦ a
    | some ts_start ↦ elim (float_or "ts" fields now) [
      | none ↦ a
      | some ts_end ↦ record a {
        recorded =
            a.recorded
            ++ record {
              span_id = id;
              key = info.operation +++ (":" +++ info.step);
              duration_ms = t.duration ts_start ts_end;
            }
              ∷ [];
      }
    ]
  ]

  pub end_span : String → Fields → F → Aggregator F → Aggregator F
  unfolding record_span lookup remove
  end_span id fields now a = elim (lookup id a.pending) [
    | none ↦ a
    | some info ↦ record_span id fields now info (record a { pending = remove id a.pending })
  ]

  -- `_process_span_event`
  unfoldable pub process_span_event : Fields → F → Aggregator F → Aggregator F
  unfolding start_span end_span
  process_span_event fields now a =
      let phase = get "phase" fields in
      let span_id = get "span_id" fields in
      let started = start_span span_id fields a in
      let ended = end_span span_id fields now a in
      if span_id == ""
      then a
      else if phase == "start"
      then started
      else if phase == "end"
      then ended
      else a

  -- The messages of a batch, each with the time when it is processed.
  pub process_all : List (Fields × F) → Aggregator F → Aggregator F
  process_all [] a = a
  process_all ((fields, now) ∷ rest) a = process_all rest (process_span_event fields now a)

  -- The pending spans that are not stale.
  pub prune : F → Dict (Span F) → Dict (Span F)
  prune now [] = []
  prune now ((id, info) ∷ rest) =
      let kept = prune now rest in if t.is_stale now info.ts_start then kept else (id, info) ∷ kept

  -- One poll that finds messages, with the time of the pruning.
  unfoldable pub poll : List (Fields × F) → F → Aggregator F → Aggregator F
  unfolding process_all prune
  poll batch now a = let a' = process_all batch a in record a' { pending = prune now a'.pending }

  unfoldable pub polls : List (List (Fields × F) × F) → Aggregator F → Aggregator F
  unfolding poll
  polls [] a = a
  polls ((batch, now) ∷ rest) a = polls rest (poll batch now a)
