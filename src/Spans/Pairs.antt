-- ===== src/Spans/Pairs.antt =====
-- How the span aggregator of workers/span_aggregator.py pairs starts with ends.
use Prim.Native.String.{◌++◌ as ◌+++◌}
use segnog.Prelude.{
  ℕ, suc, ◌+◌, ◌≤◌, String, Bool, true, false, List, [], ◌∷◌, ◌++◌, ◌≡◌, ◌⊎◌, refl, inl, inr, ◌==◌,
  ◌&&◌, Dict, keys, lookup, insert, remove, contains, contains-insert, contains-remove,
  lookup_present, All, Bool-cases, Option-cases, eq_iff, arith, if◌then◌else◌,
}
use segnog.Spans.{
  Times, Span, Latency, Aggregator, Fields, get, float_or, start_span, record_span, end_span,
  process_span_event, process_all, prune, poll, polls,
}

-- The latencies that are recorded for a span's id.
unfoldable pub count : {F : Type 0} → String → List (Latency F) → ℕ
count id [] = 0
count id (l ∷ ls) = let rest = count id ls in if l.span_id == id then suc rest else rest

-- One if the id's span is pending.
unfoldable pub held : {F : Type 0} → String → Dict (Span F) → ℕ
unfolding contains
held id pending = if contains id (keys pending) then 1 else 0

-- The event starts the id's span.
unfoldable pub is_start : String → Fields → Bool
is_start id fields = get "span_id" fields == id && get "phase" fields == "start"

abbrev pub start_count : {F : Type 0} → String → List (Fields × F) → ℕ
start_count id [] = 0
start_count id (e ∷ rest) =
    let later = start_count id rest in if is_start id e.0 then suc later else later

abbrev pub total_starts : {F : Type 0} → String → List (List (Fields × F) × F) → ℕ
total_starts id [] = 0
total_starts id ((batch, now) ∷ rest) = start_count id batch + total_starts id rest

abbrev pub empty : {F : Type 0} → Aggregator F
empty = record { pending = []; recorded = [] }

count-append_one :
    {F : Type 0} (id : String) (ls : List (Latency F)) (l : Latency F)
    → count id (ls ++ l ∷ []) ≡ (if l.span_id == id then suc (count id ls) else count id ls)
unfolding count
count-append_one id [] l = refl
count-append_one id (m ∷ ls) l = ground (arith, count-append_one id ls l)

module _ {F : Type 0} (t : Times F) where
  pub start_span-cases :
      (sid : String) (fields : Fields) (a : Aggregator F)
      → (start_span t sid fields a ≡ a)
        ⊎ ((s : Span F) × (start_span t sid fields a
              ≡ record a { pending = insert sid s a.pending }))
  unfolding start_span
  start_span-cases sid fields a = elim (Option-cases (float_or t "ts" fields t.nought)) [
    | inr bad ↦ inl (rw (bad, start_span) refl)
    | inl (ts, fine) ↦ inr (
      record {
        operation = get "operation" fields;
        step = get "step" fields;
        session_id = get "session_id" fields;
        ts_start = ts;
      },
      rw (fine, start_span) refl,
    )
  ]

  pub record_span-cases :
      (sid : String) (fields : Fields) (now : F) (info : Span F) (a : Aggregator F)
      → (record_span t sid fields now info a ≡ a)
        ⊎ ((l : Latency F) × (l.span_id ≡ sid)
            × (record_span t sid fields now info a ≡ record a { recorded = a.recorded ++ l ∷ [] }))
  unfolding record_span
  record_span-cases sid fields now info a =
      elim (Option-cases (float_or t "ts_start" fields info.ts_start)) [
        | inr bad ↦ inl (rw (bad, record_span) refl)
        | inl (ts_start, fine) ↦ elim (Option-cases (float_or t "ts" fields now)) [
          | inr bad ↦ inl (rw (fine, bad, record_span) refl)
          | inl (ts_end, fine') ↦ inr (
            record {
              span_id = sid;
              key = info.operation +++ (":" +++ info.step);
              duration_ms = t.duration ts_start ts_end;
            },
            refl,
            rw (fine, fine', record_span) refl,
          )
        ]
      ]

  -- The recorded and the pending spans of an id.
  abbrev owed : String → Aggregator F → ℕ
  owed id a = count id a.recorded + held id a.pending

  owed-start_span :
      (id sid : String) (fields : Fields) (a : Aggregator F)
      → owed id (start_span t sid fields a) ≤ (if sid == id then suc (owed id a) else owed id a)
  unfolding held
  owed-start_span id sid fields a = elim (start_span-cases sid fields a) [
    | inl same ↦ rw same (ground arith)
    | inr (s, put) ↦
        rw put (ground (arith, contains-insert sid id s a.pending, eq_iff id sid, eq_iff sid id))
  ]

  owed-record_span :
      (id sid : String) (fields : Fields) (now : F) (info : Span F) (a : Aggregator F)
      → owed id (record_span t sid fields now info a)
        ≤ (if sid == id then suc (owed id a) else owed id a)
  owed-record_span id sid fields now info a = elim (record_span-cases sid fields now info a) [
    | inl same ↦ rw same (ground arith)
    | inr (l, named, put) ↦ rw put (ground (arith, count-append_one id a.recorded l, named))
  ]

  owed-end_span :
      (id sid : String) (fields : Fields) (now : F) (a : Aggregator F)
      → owed id (end_span t sid fields now a) ≤ owed id a
  unfolding end_span held
  owed-end_span id sid fields now a = elim (Option-cases (lookup sid a.pending)) [
    | inr absent ↦ rw (absent, end_span) (ground arith)
    | inl (info, found) ↦
        rw (found, end_span)
          (ground (
            arith,
            owed-record_span id sid fields now info (record a { pending = remove sid a.pending }),
            contains-remove sid id a.pending,
            lookup_present sid info a.pending found,
            eq_iff id sid,
            eq_iff sid id,
          ))
  ]

  owed-process_span_event :
      (id : String) (fields : Fields) (now : F) (a : Aggregator F)
      → owed id (process_span_event t fields now a)
        ≤ (if is_start id fields then suc (owed id a) else owed id a)
  unfolding process_span_event is_start
  owed-process_span_event id fields now a = ground (
    arith,
    owed-start_span id (get "span_id" fields) fields a,
    owed-end_span id (get "span_id" fields) fields now a,
    eq_iff (get "phase" fields) "start",
  )

  owed-process_all :
      (id : String) (batch : List (Fields × F)) (a : Aggregator F)
      → owed id (process_all t batch a) ≤ owed id a + start_count id batch
  unfolding process_all
  owed-process_all id [] a = omega arith
  owed-process_all id ((fields, now) ∷ rest) a = ground (
    arith,
    owed-process_all id rest (process_span_event t fields now a),
    owed-process_span_event id fields now a,
  )

  contains-prune :
      (id : String) (now : F) (pending : Dict (Span F))
      → contains id (keys (prune t now pending)) ≡ true
      → contains id (keys pending) ≡ true
  unfolding prune contains
  contains-prune id now [] h = h
  contains-prune id now ((k, info) ∷ rest) h = ground (arith, contains-prune id now rest)

  owed-poll :
      (id : String) (batch : List (Fields × F)) (now : F) (a : Aggregator F)
      → owed id (poll t batch now a) ≤ owed id a + start_count id batch
  unfolding poll held
  owed-poll id batch now a =
      ground
        (arith, owed-process_all id batch a, contains-prune id now (process_all t batch a).pending)

  owed-polls :
      (id : String) (ps : List (List (Fields × F) × F)) (a : Aggregator F)
      → owed id (polls t ps a) ≤ owed id a + total_starts id ps
  unfolding polls
  owed-polls id [] a = omega arith
  owed-polls id ((batch, now) ∷ rest) a =
      omega (arith, owed-polls id rest (poll t batch now a), owed-poll id batch now a)

  -- Whatever events are polled, in whatever order, no more latencies are recorded for a span's id
  -- than there were start events for it, even with those that are still pending.
  pub count-polls :
      (id : String) (ps : List (List (Fields × F) × F))
      → count id (polls t ps empty).recorded + held id (polls t ps empty).pending
        ≤ total_starts id ps
  unfolding count held contains
  count-polls id ps = omega (arith, owed-polls id ps empty)

  fresh-prune :
      (now : F) (pending : Dict (Span F))
      → All (λ e. t.is_stale now e.1.ts_start ≡ false) (prune t now pending)
  unfolding prune
  fresh-prune now [] = tt
  fresh-prune now ((k, info) ∷ rest) = elim (Bool-cases (t.is_stale now info.ts_start)) [
    | inl old ↦ rw old (fresh-prune now rest)
    | inr new ↦ rw new (new, fresh-prune now rest)
  ]

  -- After a poll, no span that is pending is stale.
  pub fresh-poll :
      (batch : List (Fields × F)) (now : F) (a : Aggregator F)
      → All (λ e. t.is_stale now e.1.ts_start ≡ false) (poll t batch now a).pending
  unfolding poll
  fresh-poll batch now a = fresh-prune now (process_all t batch a).pending
