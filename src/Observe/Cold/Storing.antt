-- ===== src/Observe/Cold/Storing.antt =====
-- services/observe.py: the writes of an observation, on a connection on which no command fails.
use segnog.Prelude.{
  ℕ, suc, String, List, true, false, ◌≡◌, refl, ap, ◌⊎◌, inl, inr, Dict, insert, lookup-insert,
  eq_self, length, eqb,
}
use segnog.Exec.{pure, gets, attempt, branch, ◌>>=◌}
use segnog.Exec.Triples.{
  Triple, NoRaise, Triple-pure, Triple-gets, Triple-branch, Triple-bind, Triple-weaken,
  Triple-given,
}
use segnog.Sessions.{Server, session, session_add, session_count, when_connected, command}
use segnog.Sessions.Limits.{sent, session-hset}
use segnog.Observe.{Sources, Request, Task, traced, on_server}
use segnog.Observe.Tracing.{With, Triple-on_server, Triple-traced}
use segnog.Observe.Cold.Items.{Has}
use segnog.Observe.Cold.Prefill.{Triple-cold_start_prefill}
use segnog.Observe.Paths.{Fresh, local_entry, cold_start_prefill, store_counted, store_observation}

module _ {E F : Type 0} (o : Sources E F) (req : Request) (v : E) (s0 : Server)
    (up : s0.connected ≡ true) (fine : (k : ℕ) → o.outages k ≡ false) where
  -- The session before the call, and with the new entry.
  abbrev pub old : Dict String
  old = session req.session_id s0

  abbrev pub with_entry : String → Dict String
  with_entry uuid = insert uuid (o.codec.dumps (local_entry req v)) old

  -- The text under the uuid, on a connection that is up.
  abbrev Kept : String → Server → Type 0
  Kept uuid = Has o fine req.session_id uuid (o.codec.dumps (local_entry req v))

  -- The uuid is the one that was chosen and has the new entry, and the session was empty, or it has
  -- one entry more.
  abbrev pub Stored : Fresh E → Server → Type 0
  Stored new s =
      (new.episode_uuid ≡ o.fresh_uuid s0)
      × (new.is_cold ≡ eqb (length old) 0)
      × Kept new.episode_uuid s
      × ((new.is_cold ≡ true) ⊎ (session req.session_id s ≡ with_entry new.episode_uuid))

  Triple-session_count :
      Triple
        (λ s. s ≡ s0)
        (session_count o.outages req.session_id)
        (λ k s. (k ≡ length old) × (s ≡ sent s0))
        NoRaise
  unfolding session_count when_connected attempt command session
  Triple-session_count = record { at = λ s h. rw (h, up, fine s0.commands) (refl, refl) }

  -- The session is up and has the new entry.
  abbrev Added : String → Server → Type 0
  Added uuid s = (s.connected ≡ true) × (session req.session_id s ≡ with_entry uuid)

  added-Kept : (uuid : String) (s : Server) → Added uuid s → Kept uuid s
  added-Kept uuid s h =
      let text = o.codec.dumps (local_entry req v) in
      (h.0, rw (h.1, lookup-insert uuid uuid text old, eq_self uuid) refl)

  Triple-session_add :
      (uuid : String)
      → Triple
          (λ s. s ≡ sent s0)
          (session_add o.codec o.outages req.session_id uuid (local_entry req v))
          (λ _. Added uuid)
          NoRaise
  unfolding session_add when_connected attempt command ◌>>=◌
  Triple-session_add uuid = record {
    at = λ s h.
        rw (h, up, fine (suc s0.commands), fine (suc (suc s0.commands)))
          (refl, session-hset req.session_id uuid (o.codec.dumps (local_entry req v)) s0);
  }

  Triple-prefill :
      (uuid : String) (k : ℕ)
      → Triple
          (Added uuid)
          (branch (eqb k 0) (cold_start_prefill o req.session_id req.content v uuid) (pure tt))
          (λ _ s. Kept uuid s × ((eqb k 0 ≡ true) ⊎ (session req.session_id s ≡ with_entry uuid)))
          NoRaise
  Triple-prefill uuid k =
      let text = o.codec.dumps (local_entry req v) in
      Triple-branch (eqb k 0) (cold_start_prefill o req.session_id req.content v uuid) (pure tt)
        (λ cold.
          Triple-weaken (cold_start_prefill o req.session_id req.content v uuid)
            (λ s h. added-Kept uuid s h) (λ a s h. (h, inl cold)) (λ s h. h)
            (Triple-cold_start_prefill o fine req.session_id uuid text req.content v))
        (λ warm. Triple-pure tt (λ s h. (added-Kept uuid s h, inr h.1)))

  module _ (tasks : List Task) where
    -- What is left once the entries are counted.
    Triple-store_counted :
        (uuid : String) (k : ℕ)
        → uuid ≡ o.fresh_uuid s0
        → k ≡ length old
        → Triple
            (With (λ s. s ≡ sent s0) tasks)
            (store_counted o req v uuid k)
            (λ new. With (Stored new) tasks)
            (With NoRaise tasks)
    unfolding store_counted
    Triple-store_counted uuid k chosen counted =
        let Ready : Server → Type 0 =
          λ s. Kept uuid s × ((eqb k 0 ≡ true) ⊎ (session req.session_id s ≡ with_entry uuid)) in
        let add = session_add o.codec o.outages req.session_id uuid (local_entry req v) in
        let prefill =
          branch (eqb k 0) (cold_start_prefill o req.session_id req.content v uuid) (pure tt) in
        Triple-bind (traced "session_add" (on_server add)) _ (λ _. With (Added uuid) tasks)
          (Triple-traced (λ s. s ≡ sent s0) (λ _. Added uuid) "session_add" (on_server add) tasks
            (Triple-on_server add tasks (Triple-session_add uuid)))
          (λ _.
            Triple-bind (on_server prefill) _ (λ _. With Ready tasks)
              (Triple-on_server prefill tasks (Triple-prefill uuid k))
              (λ _.
                Triple-pure (record { episode_uuid = uuid; embedding = v; is_cold = eqb k 0 })
                  (λ s h. ((chosen, ap (λ j. eqb j 0) counted, h.0.0, h.0.1), h.1))))

    pub Triple-store_observation :
        Triple
          (With (λ s. s ≡ s0) tasks)
          (store_observation o req v)
          (λ new. With (Stored new) tasks)
          (With NoRaise tasks)
    unfolding store_observation
    Triple-store_observation =
        let count = session_count o.outages req.session_id in
        Triple-bind (gets (λ s. o.fresh_uuid s.server)) _
          (λ uuid s. (uuid ≡ o.fresh_uuid s0) × With (λ s'. s' ≡ s0) tasks s)
          (Triple-gets _ (λ s h. (ap o.fresh_uuid h.0, h)))
          (λ uuid.
            Triple-given _ (λ s h. h.0)
              (λ chosen.
                Triple-bind (on_server count) (store_counted o req v uuid)
                  (λ k. With (λ s. (k ≡ length old) × (s ≡ sent s0)) tasks)
                  (Triple-weaken (on_server count) (λ s h. h.1) (λ a s h. h) (λ s h. h)
                    (Triple-on_server count tasks Triple-session_count))
                  (λ k.
                    Triple-given (store_counted o req v uuid k) (λ s h. h.0.0)
                      (λ counted.
                        Triple-weaken (store_counted o req v uuid k) (λ s h. (h.0.1, h.1))
                          (λ a s h. h) (λ s h. h) (Triple-store_counted uuid k chosen counted)))))
