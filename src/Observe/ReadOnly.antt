-- ===== src/Observe/ReadOnly.antt =====
-- services/observe.py: what a call that only reads leaves as it was.
use segnog.Prelude.{
  String, true, Option, none, some, List, [], ◌≡◌, ◌⊎◌, refl, inl, inr, Dict, Bool, false, length,
  eqb, Bool-cases,
}
use segnog.Exec.{pure, from_option, branch}
use segnog.Exec.Triples.{
  Triple, NoRaise, Triple-pure, Triple-branch, Triple-attempt, Triple-bind, Triple-weaken,
  Triple-from_option,
}
use segnog.Exec.Always.{Always, Always-after, Always-pure, Always-bind, Always-option}
use segnog.Sessions.{Entry, Server, Codec, Outages, read_entries, session, session_get_all}
use segnog.Sessions.Limits.{Triple-command, Triple-when_connected}
use segnog.Sessions.Search.{Hit, session_search}
use segnog.Observe.{
  ContextEntry, Sources, Service, Request, Task, ensure_session, works, spawn, traced, on_server,
}
use segnog.Observe.Context.{others}
use segnog.Observe.Tracing.{With, Triple-on_server, Triple-traced}
use segnog.Observe.Paths.{
  session_entries, format_context, make_answer, augment, answer_of, observe_read, observe_write,
  observe_minimal, minimal_nodes, observe_core_inner,
}

-- The sessions are as they were.
abbrev pub Same : Dict (Dict String) → Server → Type 0
Same sessions s = s.sessions ≡ sessions

module _ {E : Type 0} (sessions : Dict (Dict String)) where
  pub Triple-session_get_all :
      (codec : Codec E) (outages : Outages) (session_id : String)
      → Triple
          (Same sessions)
          (session_get_all codec outages session_id)
          (λ _. Same sessions)
          NoRaise
  unfolding session_get_all
  Triple-session_get_all codec outages session_id =
      Triple-when_connected _ _ (λ s h e. h)
        (Triple-attempt _ _ (Same sessions)
          (Triple-command {Q = λ _. Same sessions} {X = Same sessions} outages
            (λ s. (s, read_entries codec outages (session session_id s))) (λ s h e. h) (λ s h. h))
          (Always-none []))
    where
      Always-none :
          (d : Dict (Entry E)) → Triple (Same sessions) (pure d) (λ _. Same sessions) NoRaise
      Always-none d = Triple-pure d (λ s h. h)

module _ {E F : Type 0} (o : Sources E F) (sessions : Dict (Dict String)) (tasks : List Task)
    (X : Service → Type 0) where
  -- The sessions are as they were, and the tasks but for those of spans.
  abbrev Untouched : Service → Type 0
  Untouched = With (Same sessions) tasks

  Triple-get_all :
      (session_id : String)
      → Triple Untouched
          (on_server (session_get_all o.codec o.outages session_id))
          (λ _. Untouched)
          X
  Triple-get_all session_id =
      Triple-weaken (on_server (session_get_all o.codec o.outages session_id)) (λ s h. h)
        (λ a s h. h) (λ s h. absurd h.0)
        (Triple-on_server (session_get_all o.codec o.outages session_id) tasks
          (Triple-session_get_all sessions o.codec o.outages session_id))

  Triple-search :
      (req : Request) (v : E)
      → Triple Untouched
          (on_server (
            session_search o.numbers o.cosine o.codec o.outages
              (o.has_norm v)
              req.session_id
              v
              req.top_k
              o.numbers.nought))
          (λ _. Untouched)
          X
  unfolding session_search
  Triple-search req v =
      Triple-weaken
        (on_server (
          session_search o.numbers o.cosine o.codec o.outages (o.has_norm v) req.session_id v
            req.top_k o.numbers.nought))
        (λ s h. h) (λ a s h. h) (λ s h. absurd h.0)
        (Triple-on_server
          (session_search o.numbers o.cosine o.codec o.outages (o.has_norm v) req.session_id v
            req.top_k o.numbers.nought)
          tasks
          (Triple-bind (session_get_all o.codec o.outages req.session_id) _ (λ _. Same sessions)
            (Triple-session_get_all sessions o.codec o.outages req.session_id)
            (λ all. Triple-pure _ (λ s h. h))))

  -- Reading the entries changes no session, and raises only where the scoring does.
  pub Triple-session_entries :
      (req : Request) (episode_uuid : String) (v : Option E)
      → ((hits : List (Hit F))
          → o.score_3dim episode_uuid hits ≡ none
          → (s : Service) → Untouched s
          → X s)
      → Triple Untouched (session_entries o req episode_uuid v) (λ _. Untouched) X
  unfolding session_entries
  Triple-session_entries req episode_uuid none fails =
      Triple-bind (on_server (session_get_all o.codec o.outages req.session_id)) _ (λ _. Untouched)
        (Triple-get_all req.session_id) (λ all. Triple-pure _ (λ s h. h))
  Triple-session_entries req episode_uuid (some v) fails =
      Triple-bind
        (traced "session_search" (
          on_server (
            session_search o.numbers o.cosine o.codec o.outages (o.has_norm v) req.session_id v
              req.top_k o.numbers.nought)))
        _ (λ _. Untouched)
        (Triple-traced (Same sessions) (λ _. Same sessions) "session_search" _ tasks
          (Triple-search req v))
        (λ hits.
          let found = others o episode_uuid hits in
          Triple-bind (traced "score_3dim" (from_option (o.score_3dim episode_uuid found))) _
            (λ _. Untouched)
            (Triple-traced (Same sessions) (λ _. Same sessions) "score_3dim" _ tasks
              (Triple-from_option (o.score_3dim episode_uuid found) (fails found)
                (λ scored s h. h)))
            (λ scored. Triple-pure _ (λ s h. h)))

  -- The answer is made without a change, and making it raises only where the text does.
  pub Triple-answer_of :
      (req : Request) (episode_uuid : String) (is_cold : Bool) (entries : Dict (ContextEntry F))
      → ((shown : Dict (ContextEntry F))
          → o.format_entries shown ≡ none
          → (s : Service) → Untouched s
          → X s)
      → Triple Untouched
          (answer_of o req episode_uuid is_cold entries)
          (λ a s. (a ≡ make_answer o req episode_uuid is_cold entries) × Untouched s)
          X
  unfolding answer_of format_context
  Triple-answer_of req episode_uuid is_cold entries fails =
      let shown = (make_answer o req episode_uuid is_cold entries).entries in
      Triple-bind (format_context o shown) _ (λ _. Untouched)
        (elim (Bool-cases (eqb (length shown) 0)) [
          | inl e ↦ rw e (Triple-pure "" (λ s h. h))
          | inr e ↦ rw e (
              Triple-traced (Same sessions) (λ _. Same sessions) "format"
                (from_option (o.format_entries shown)) tasks
                (Triple-from_option (o.format_entries shown) (fails shown) (λ text s h. h)))
        ])
        (λ _. Triple-pure _ (λ s h. (refl, h)))

module _ {E F : Type 0} (o : Sources E F) (req : Request) where
  Always-observe_read :
      (sessions : Dict (Dict String)) (tasks : List Task)
      → Always (With (Same sessions) tasks) (observe_read o req)
  unfolding observe_read
  Always-observe_read sessions tasks =
      let P : Service → Type 0 = With (Same sessions) tasks in
      Always-bind (session_entries o req "" (o.embed req.content)) _
        (Triple-session_entries o sessions tasks P req "" (o.embed req.content) (λ hits e s h. h))
        (λ entries.
          let more = augment o req.content (o.embed req.content) entries in
          Triple-weaken (answer_of o req "" false more) (λ s h. h) (λ a s h. h.1) (λ s h. h)
            (Triple-answer_of o sessions tasks P req "" false more (λ shown e s h. h)))

  Always-observe_minimal : {P : Service → Type 0} → Always P (observe_minimal o req)
  unfolding observe_minimal
  Always-observe_minimal = Always-option (o.search_hybrid req.content) _ (λ facts.
      Always-option (o.search_episodes req.content) _ (λ episodes.
        Always-option (minimal_nodes o (o.embed req.content)) _ (λ nodes. Always-pure _)))

  -- A call that only reads keeps what its path keeps.
  Always-observe_core_inner :
      (P : Service → Type 0)
      → req.read_only ≡ true
      → (req.minimal ≡ false → Always P (observe_read o req))
      → Always P (observe_core_inner o req)
  unfolding observe_core_inner
  Always-observe_core_inner P reads path =
      let write = observe_write o req (o.embed req.content) in
      Always-bind _ _
        (Triple-branch req.read_only (pure tt)
          (spawn (ensure_session req.session_id req.parent_session_id)) (λ e. Always-pure tt)
          (λ e. absurd (cc (e, reads))))
        (λ _.
          Triple-branch req.minimal (observe_minimal o req)
            (branch req.read_only (observe_read o req) write) (λ e. Always-observe_minimal)
            (λ full.
              Triple-branch req.read_only (observe_read o req) write (λ e. path full)
                (λ e. absurd (cc (e, reads)))))

-- A call that only reads changes no session, on the minimal path too, and whatever raises. The only
-- tasks that it starts with asyncio.create_task are those that report the spans of its steps; on the
-- minimal path it starts none.
pub observe_core_inner-read_only :
    {E F : Type 0} (o : Sources E F) (req : Request) (s : Service)
    → req.read_only ≡ true
    → ((observe_core_inner o req s).0.server.sessions ≡ s.server.sessions)
      × (works (observe_core_inner o req s).0.tasks ≡ works s.tasks)
      × ((req.minimal ≡ false) ⊎ ((observe_core_inner o req s).0.tasks ≡ s.tasks))
observe_core_inner-read_only o req s reads =
    let P = With (Same s.server.sessions) (works s.tasks) in
    let (kept, untouched) =
      Always-after P (observe_core_inner o req) s
        (Always-observe_core_inner o req P reads
          (λ full. Always-observe_read o req s.server.sessions (works s.tasks)))
        (refl, refl) in
    (
      kept,
      untouched,
      elim (Bool-cases req.minimal) [
        | inr full ↦ inl full
        | inl short ↦
            let Still : Service → Type 0 = λ s'. s'.tasks ≡ s.tasks in
            inr (
              Always-after Still (observe_core_inner o req) s
                (Always-observe_core_inner o req Still reads (λ full. absurd (cc (full, short))))
                refl)
      ],
    )
