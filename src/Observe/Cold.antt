-- ===== src/Observe/Cold.antt =====
-- services/observe.py: what a call that writes stores, and when it takes the session for a new one.
pub mod Items
pub mod Prefill
pub mod Storing
use mathlib.Core.Path.{subst}
use segnog.Prelude.{
  ℕ, suc, String, true, false, Option, none, some, List, ◌∷◌, ◌≡◌, refl, sym, ap, ◌∙◌, ◌⊎◌, inl,
  inr, Dict, insert, lookup, length, eqb,
}
use segnog.Exec.{pure, branch}
use segnog.Exec.Triples.{
  Triple, NoRaise, returned, Triple-pure, Triple-branch, Triple-bind, Triple-weaken, Triple-given,
}
use segnog.Sessions.{Server, session}
use segnog.Sessions.Exact.{length-insert_new}
use segnog.Sessions.Search.{Hit}
use segnog.Observe.{
  ContextEntry, Sources, Service, Request, Observation, Task, ensure_session, hydration, span_start,
  span_end, works, spawn,
}
use segnog.Observe.Paths.{
  Fresh, local_entry, store_observation, session_entries, answer_new, answer_of, observe_write,
  observe_minimal, observe_read, observe_core_inner, make_answer,
}
use segnog.Observe.Tracing.{With, Triple-span_start, Triple-span_end}
use segnog.Observe.ReadOnly.{Same, Triple-session_entries, Triple-answer_of}
use segnog.Observe.Cold.Storing.{old, with_entry, Stored, Triple-store_observation}

module _ {E F : Type 0} (o : Sources E F) (req : Request) (v : E) (s0 : Server)
    (up : s0.connected ≡ true) (fine : (k : ℕ) → o.outages k ≡ false) where
  abbrev Holds : Fresh E → Server → Type 0
  Holds = Stored o req v s0 up fine

  -- The rest of the call, where the scoring and the formatting answer.
  module _ (tasks : List Task)
      (scores : (uuid : String) (hits : List (Hit F))
        → (scored : List (Hit F)) × (o.score_3dim uuid hits ≡ some scored))
      (formats : (entries : Dict (ContextEntry F))
        → (text : String) × (o.format_entries entries ≡ some text)) where
    abbrev Ended : Observation F → Service → Type 0
    Ended a s =
        (works s.tasks ≡ hydration req.session_id req.content a.episode_uuid ∷ tasks)
        × (a.episode_uuid ≡ o.fresh_uuid s0)
        × (a.is_cold ≡ eqb (length (old o req v s0 up fine)) 0)
        × (lookup a.episode_uuid (session req.session_id s.server)
            ≡ some (o.codec.dumps (local_entry req v)))
        × ((a.is_cold ≡ true)
            ⊎ (session req.session_id s.server ≡ with_entry o req v s0 up fine a.episode_uuid))

    abbrev Untouched : Server → Service → Type 0
    Untouched server = With (Same server.sessions) tasks

    Triple-hydration :
        (uuid : String) (server : Server)
        → Triple
            (Untouched server)
            (spawn (hydration req.session_id req.content uuid))
            (λ _ s.
              (s.server.sessions ≡ server.sessions)
              × (works s.tasks ≡ hydration req.session_id req.content uuid ∷ tasks))
            NoRaise
    unfolding spawn works
    Triple-hydration uuid server = record {
      at = λ s h. (h.0, ap (λ l. hydration req.session_id req.content uuid ∷ l) h.1);
    }

    -- The session does not change when the entries are read and the task is started.
    same_session :
        (s s' : Server) (d : Dict String)
        → s'.sessions ≡ s.sessions
        → session req.session_id s ≡ d
        → session req.session_id s' ≡ d
    unfolding session
    same_session s s' d same h = rw same h

    same_entry :
        (s s' : Server) (uuid text : String)
        → s'.sessions ≡ s.sessions
        → lookup uuid (session req.session_id s) ≡ some text
        → lookup uuid (session req.session_id s') ≡ some text
    unfolding session
    same_entry s s' uuid text same h = rw same h

    Triple-answer_new :
        (new : Fresh E) (server : Server)
        → Holds new server
        → Triple (Untouched server) (answer_new o req v new) Ended NoRaise
    unfolding answer_new make_answer
    Triple-answer_new new server held =
        let uuid = new.episode_uuid in
        let task = hydration req.session_id req.content uuid in
        Triple-bind (session_entries o req uuid (some v)) _ (λ _. Untouched server)
          (Triple-session_entries o server.sessions tasks NoRaise req uuid (some v)
            (λ hits gone s h. let (scored, found) = scores uuid hits in absurd (cc (gone, found))))
          (λ entries.
            let answer = make_answer o req uuid new.is_cold entries in
            Triple-bind (answer_of o req uuid new.is_cold entries) _
              (λ a s. (a ≡ answer) × Untouched server s)
              (Triple-answer_of o server.sessions tasks NoRaise req uuid new.is_cold entries
                (λ shown gone s h. let (text, found) = formats shown in absurd (cc (gone, found))))
              (λ a.
                Triple-given _ (λ s h. h.0)
                  (λ made.
                    Triple-bind (spawn task) _
                      (λ _ s.
                        (s.server.sessions ≡ server.sessions) × (works s.tasks ≡ task ∷ tasks))
                      (Triple-weaken (spawn task) (λ s h. h.1) (λ u s h. h) (λ s h. h)
                        (Triple-hydration uuid server))
                      (λ _. Triple-pure a (λ s h. rw made (ends entries s h))))))
      where
        ends :
            (entries : Dict (ContextEntry F)) (s : Service)
            → (s.server.sessions ≡ server.sessions)
              × (works s.tasks ≡ hydration req.session_id req.content new.episode_uuid ∷ tasks)
            → Ended (make_answer o req new.episode_uuid new.is_cold entries) s
        ends entries s h =
            let (chosen, count, entry, kept) = held in
            (
              h.1,
              chosen,
              count,
              same_entry server s.server new.episode_uuid _ h.0 entry.1,
              elim kept [
                | inl cold ↦ inl cold
                | inr stored ↦ inr (same_session server s.server _ h.0 stored)
              ],
            )

    Triple-observe_write :
        Triple (With (λ s. s ≡ s0) tasks) (observe_write o req (some v)) Ended NoRaise
    unfolding observe_write
    Triple-observe_write =
        let Start : Server → Type 0 = λ s. s ≡ s0 in
        Triple-bind (spawn (span_start "embed")) _ (λ _. With Start tasks)
          (Triple-span_start Start tasks "embed")
          (λ _.
            Triple-bind (spawn (span_end "embed" false)) _ (λ _. With Start tasks)
              (Triple-span_end Start tasks "embed" false)
              (λ _.
                Triple-bind (store_observation o req v) (answer_new o req v)
                  (λ new. With (Holds new) tasks)
                  (Triple-weaken (store_observation o req v) (λ s h. h) (λ a s h. h) (λ s h. h.0)
                    (Triple-store_observation o req v s0 up fine tasks))
                  (λ new. record {
                    at = λ s h. (Triple-answer_new new s.server h.0).at s (refl, h.1);
                  })))

Triple-observe_core_inner :
    {E F : Type 0} (o : Sources E F) (req : Request) (v : E) (s : Service)
    → req.read_only ≡ false
    → req.minimal ≡ false
    → (up : s.server.connected ≡ true) (fine : (k : ℕ) → o.outages k ≡ false)
    → o.embed req.content ≡ some v
    → (scores : (uuid : String) (hits : List (Hit F))
        → (scored : List (Hit F)) × (o.score_3dim uuid hits ≡ some scored))
      (formats : (entries : Dict (ContextEntry F))
        → (text : String) × (o.format_entries entries ≡ some text))
    → Triple
        (λ s'. s' ≡ s)
        (observe_core_inner o req)
        (Ended o req v s.server up fine
          (ensure_session req.session_id req.parent_session_id ∷ works s.tasks)
          scores
          formats)
        NoRaise
unfolding observe_core_inner spawn works
Triple-observe_core_inner {F = F} o req v s writes full up fine embedded scores formats =
    let tasks = ensure_session req.session_id req.parent_session_id ∷ works s.tasks in
    let write = observe_write o req (o.embed req.content) in
    Triple-bind
      (branch req.read_only (pure tt) (spawn (ensure_session req.session_id req.parent_session_id)))
      _ (λ _. With (λ s'. s' ≡ s.server) tasks)
      (Triple-branch req.read_only (pure tt)
        (spawn (ensure_session req.session_id req.parent_session_id)) (λ e. absurd (cc (e, writes)))
        (λ e. record {
          at = λ s' h. (
            ap (λ t. t.server) h,
            ap (λ t. ensure_session req.session_id req.parent_session_id ∷ works t.tasks) h,
          );
        }))
      (λ _.
        Triple-branch req.minimal (observe_minimal o req)
          (branch req.read_only (observe_read o req) write) (λ e. absurd (cc (e, full)))
          (λ e.
            Triple-branch req.read_only (observe_read o req) write (λ e. absurd (cc (e, writes)))
              (λ e.
                subst
                  (λ r.
                    Triple (With (λ s'. s' ≡ s.server) tasks) (observe_write o req r)
                      (Ended o req v s.server up fine tasks scores formats) NoRaise)
                  (sym embedded)
                  (Triple-observe_write o req v s.server up fine tasks scores formats))))

-- With a connection on which no command fails, an embedding, a scoring and a formatting that answer,
-- and a fresh uuid that the session does not hold, an observation that is not minimal and not only
-- read returns under this uuid. It takes the session for a new one exactly when it was empty. But for
-- the tasks that report the spans of its steps, it has started the one for the session's node and
-- then the one for the episode it names. The session has the observation under the uuid that is
-- returned, also where a new session is filled with what a search finds; a session that was not empty
-- has it as one more entry, and is otherwise as it was.
pub observe_core_inner-stores :
    {E F : Type 0} (o : Sources E F) (req : Request) (v : E) (s : Service)
    → req.read_only ≡ false
    → req.minimal ≡ false
    → s.server.connected ≡ true
    → ((k : ℕ) → o.outages k ≡ false)
    → o.embed req.content ≡ some v
    → ((uuid : String) (hits : List (Hit F))
        → (scored : List (Hit F)) × (o.score_3dim uuid hits ≡ some scored))
    → ((entries : Dict (ContextEntry F)) → (text : String) × (o.format_entries entries ≡ some text))
    → lookup (o.fresh_uuid s.server) (session req.session_id s.server) ≡ none
    → let ran = observe_core_inner o req s in
      let before = session req.session_id s.server in
      (a : Observation F) × (ran.1 ≡ some a)
      × (a.episode_uuid ≡ o.fresh_uuid s.server)
      × (works ran.0.tasks
          ≡ hydration req.session_id req.content a.episode_uuid
            ∷ ensure_session req.session_id req.parent_session_id
            ∷ works s.tasks)
      × (a.is_cold ≡ eqb (length before) 0)
      × (lookup a.episode_uuid (session req.session_id ran.0.server)
          ≡ some (o.codec.dumps (local_entry req v)))
      × ((a.is_cold ≡ true)
          ⊎ ((session req.session_id ran.0.server
                ≡ insert a.episode_uuid (o.codec.dumps (local_entry req v)) before)
              × (length (session req.session_id ran.0.server) ≡ suc (length before))))
observe_core_inner-stores o req v s writes full up fine embedded scores formats new =
    let (a, ends, (started, chosen, cold, entry, held)) =
      returned (observe_core_inner o req) s
        (Triple-observe_core_inner o req v s writes full up fine embedded scores formats) refl in
    (
      a,
      ends,
      chosen,
      started,
      cold,
      entry,
      elim held [
        | inl was_empty ↦ inl was_empty
        | inr stored ↦ inr (
          stored,
          ap length stored
              ∙ ap
                  (λ uuid. length (
                    insert uuid (o.codec.dumps (local_entry req v)) (old o req v s.server up fine)))
                  chosen
              ∙ length-insert_new (o.fresh_uuid s.server) (o.codec.dumps (local_entry req v))
                  (session req.session_id s.server) new,
        )
      ],
    )
