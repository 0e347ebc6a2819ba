-- ===== src/Spans/Match.antt =====
-- A start event and the end event of the same span, in workers/span_aggregator.py.
use Prim.Native.String.{◌++◌ as ◌+++◌}
use segnog.Prelude.{String, false, some, ◌++◌, ◌≡◌, ◌==◌}
use segnog.Spans.{Times, Span, Fields, get, float_or}

-- The event is about another span.
abbrev pub IsOther : {F : Type 0} → String → Fields × F → Type 0
IsOther id e = (get "span_id" e.0 == id) ≡ false

module _ {F : Type 0} (t : Times F) where
  -- The start event of a span, with a time.
  pub record IsStart (id : String) (ts : F) (fields : Fields) : Type 0 where
    pub phase : get "phase" fields ≡ "start"
    pub span_id : get "span_id" fields ≡ id
    pub time : float_or t "ts" fields t.nought ≡ some ts

  -- The end event of a span that began at `started`, with a time: `begun` is the start time that the
  -- event names, or `started` if it names none.
  pub record IsEnd (id : String) (started begun ts now : F) (fields : Fields) : Type 0 where
    pub phase : get "phase" fields ≡ "end"
    pub span_id : get "span_id" fields ≡ id
    pub time : float_or t "ts" fields now ≡ some ts
    pub start : float_or t "ts_start" fields started ≡ some begun

  abbrev span_of : Fields → F → Span F
  span_of fields ts = record {
    operation = get "operation" fields;
    step = get "step" fields;
    session_id = get "session_id" fields;
    ts_start = ts;
  }
