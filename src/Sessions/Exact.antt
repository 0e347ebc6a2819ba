-- ===== src/Sessions/Exact.antt =====
-- What the hydration of a session does where the server answers: it adds new entries only.
use segnog.Prelude.{
  ℕ, suc, ◌+◌, String, true, false, Option, none, some, List, [], ◌∷◌, ◌≡◌, refl, ◌∙◌, inl, inr,
  ◌==◌, Dict, lookup, insert, lookup-insert, lookup_entries, keys, Distinct, All, All-map, length,
  leb, if◌then◌else◌, eq_iff, Bool-cases, Option-cases, arith,
}
use segnog.Scoring.{Numbers}
use segnog.Exec.{pure}
use segnog.Exec.Triples.{
  NoRaise, returned, Triple, Triple-pure, Triple-attempt, Triple-bind, Triple-branch, Triple-weaken,
}
use segnog.Sessions.{
  Entry, Server, Codec, Outages, session, command, hset, session_add, is_in, session_has,
}
use segnog.Sessions.Hydration.{
  Found, is_left_out, embedding_of, entry_of, add_embedded, hydrate_episode, hydrate_loop,
  hydrate_episodes,
}
use segnog.Sessions.Limits.{sent, Triple-command, Triple-when_connected, session-hset}

pub length-insert_new :
    (k v : String) (d : Dict String) → lookup k d ≡ none → length (insert k v d) ≡ suc (length d)
unfolding insert lookup
length-insert_new k v [] h = refl
length-insert_new k v ((j, w) ∷ d) h = ground (arith, length-insert_new k v d)

lookup-insert_new :
    (k j v w : String) (d : Dict String)
    → lookup k d ≡ none
    → lookup j d ≡ some w
    → lookup j (insert k v d) ≡ some w
lookup-insert_new k j v w d new held = elim (Bool-cases (j == k)) [
  | inr other ↦ rw (lookup-insert k j v d, other) held
  | inl same ↦ absurd (
      let clash : ◌≡◌ {A = Option String} none (some w) = rw ((eq_iff j k).0 same, new) at held in
      cc)
]

not_in : (k : String) (d : Dict String) → is_in k d ≡ false → lookup k d ≡ none
unfolding is_in
not_in k d h = elim (Option-cases (lookup k d)) [
  | inr missing ↦ missing
  | inl (v, found) ↦ absurd (let there : true ≡ false = rw (found, is_in) at h in cc)
]

module _ {E F : Type 0} (n : Numbers F) (near : F) (embed : String → Option E) (codec : Codec E)
    (outages : Outages) (fine : (k : ℕ) → outages k ≡ false) (session_id episode_uuid : String)
    (size : ℕ) (start : Dict String) where
  -- The session has `k` entries more than `size`, and has those of the start still.
  abbrev pub Grew : ℕ → Server → Type 0
  Grew k s =
      (s.connected ≡ true)
      × (length (session session_id s) ≡ size + k)
      × All (λ e. lookup e.0 (session session_id s) ≡ some e.1) start

  abbrev GrewWithout : String → ℕ → Server → Type 0
  GrewWithout uuid k s = Grew k s × (is_in uuid (session session_id s) ≡ false)

  no_outage : {X : Type 0} (s : Server) → outages s.commands ≡ true → X
  no_outage s raises = absurd (let none_raises = fine s.commands in cc)

  Triple-session_add :
      (uuid : String) (entry : Entry E) (k : ℕ)
      → Triple
          (GrewWithout uuid k)
          (session_add codec outages session_id uuid entry)
          (λ _. Grew (suc k))
          NoRaise
  unfolding session_add session hset
  Triple-session_add uuid entry k =
      Triple-when_connected tt _ (λ s h away. let on = h.0.0 in cc)
        (Triple-attempt _ (pure tt) NoRaise
          (Triple-bind (command outages (hset session_id uuid (codec.dumps entry))) _
            (λ _. Grew (suc k))
            (Triple-command outages (hset session_id uuid (codec.dumps entry))
              (λ s h raises. no_outage s raises) (λ s h. added s h))
            (λ _.
              Triple-command outages (λ s. (s, tt)) (λ s h raises. no_outage s raises) (λ s h. h)))
          (Triple-pure tt (λ s h. absurd h)))
    where
      added :
          (s : Server)
          → GrewWithout uuid k s
          → Grew (suc k) (hset session_id uuid (codec.dumps entry) (sent s)).0
      added s h =
          let value = codec.dumps entry in
          let new = not_in uuid (session session_id s) h.1 in
          let kept = h.0.2 in
          (
            h.0.0,
            rw (session-hset session_id uuid value (sent s))
                (omega (arith, h.0.1, length-insert_new uuid value (session session_id s) new)),
            rw (session-hset session_id uuid value (sent s)) (
                All-map (λ e. lookup e.0 (session session_id s) ≡ some e.1)
                  (λ e. lookup e.0 (insert uuid value (session session_id s)) ≡ some e.1) start
                  (λ e held. lookup-insert_new uuid e.0 value e.1 (session session_id s) new held)
                  kept),
          )

  Triple-hydrate_episode :
      (ep : Found E F) (k : ℕ)
      → Triple
          (Grew k)
          (hydrate_episode n near embed codec outages session_id episode_uuid ep)
          (λ done. Grew (if done then suc k else k))
          NoRaise
  unfolding hydrate_episode session_has session
  Triple-hydrate_episode ep k =
      Triple-branch (is_left_out n near embed codec outages episode_uuid ep) (pure false) _
        (λ e. Triple-pure false (λ s h. h))
        (λ kept.
          Triple-bind (session_has outages session_id ep.uuid) _
            (λ there s. Grew k s × (is_in ep.uuid (session session_id s) ≡ there))
            (Triple-when_connected false _ (λ s h away. let on = h.0 in cc)
              (Triple-attempt _ (pure false) NoRaise
                (Triple-command outages (λ s. (s, is_in ep.uuid (session session_id s)))
                  (λ s h raises. no_outage s raises) (λ s h. (h, refl)))
                (Triple-pure false (λ s h. absurd h))))
            (λ there.
              Triple-branch there (pure false) _ (λ e. Triple-pure false (λ s h. h.0))
                (λ e.
                  Triple-weaken
                    (add_embedded n near embed codec outages session_id ep
                      (embedding_of n near embed codec outages ep))
                    (λ s h. (h.0, h.1 ∙ e)) (λ done s h. h) (λ s h. h)
                    (add (embedding_of n near embed codec outages ep)))))
    where
      add :
          (w : Option E)
          → Triple
              (GrewWithout ep.uuid k)
              (add_embedded n near embed codec outages session_id ep w)
              (λ done. Grew (if done then suc k else k))
              NoRaise
      add none = Triple-pure false (λ s h. h.0)
      add (some w) =
          Triple-bind
            (session_add codec outages session_id ep.uuid
              (entry_of n near embed codec outages ep w))
            _ (λ _. Grew (suc k))
            (Triple-session_add ep.uuid (entry_of n near embed codec outages ep w) k)
            (λ _. Triple-pure true (λ s h. h))

  pub Triple-hydrate_loop :
      (max_items hydrated : ℕ) (eps : List (Found E F))
      → Triple
          (Grew hydrated)
          (hydrate_loop n near embed codec outages session_id episode_uuid max_items hydrated eps)
          Grew
          NoRaise
  unfolding hydrate_loop
  Triple-hydrate_loop max_items hydrated [] = Triple-pure hydrated (λ s h. h)
  Triple-hydrate_loop max_items hydrated (ep ∷ eps) =
      Triple-branch (leb max_items hydrated) (pure hydrated) _
        (λ e. Triple-pure hydrated (λ s h. h))
        (λ e.
          Triple-bind (hydrate_episode n near embed codec outages session_id episode_uuid ep) _
            (λ done. Grew (if done then suc hydrated else hydrated))
            (Triple-hydrate_episode ep hydrated)
            (λ done. Triple-hydrate_loop max_items (if done then suc hydrated else hydrated) eps))

-- If the client is connected, no command raises and the session's keys are distinct, as those of a
-- hash are, then, for an empty session too, the number that hydration returns is the number of
-- entries that the session has more, and every entry that was there is there unchanged.
pub hydrate_episodes-exact :
    {E F : Type 0} (n : Numbers F) (near : F) (embed : String → Option E) (codec : Codec E)
    (outages : Outages) (session_id episode_uuid : String) (max_items : ℕ) (eps : List (Found E F))
    (s : Server)
    → ((k : ℕ) → outages k ≡ false)
    → s.connected ≡ true
    → Distinct (keys (session session_id s))
    → (k : ℕ) × ((hydrate_episodes n near embed codec outages session_id episode_uuid max_items eps
          s).1
        ≡ some k)
      × (length (
            session session_id
              (hydrate_episodes n near embed codec outages session_id episode_uuid max_items eps
                s).0)
          ≡ length (session session_id s) + k)
      × All
          (λ e.
            lookup e.0 (
              session session_id
                (hydrate_episodes n near embed codec outages session_id episode_uuid max_items eps
                  s).0)
            ≡ some e.1)
          (session session_id s)
unfolding hydrate_episodes
hydrate_episodes-exact n near embed codec outages session_id episode_uuid max_items eps s fine on
      dis =
    let start = session session_id s in
    let (k, ends, (still, more, kept)) =
      returned
        {Q = Grew n near embed codec outages fine session_id episode_uuid (length start) start}
        (hydrate_loop n near embed codec outages session_id episode_uuid max_items 0 eps) s
        (Triple-hydrate_loop n near embed codec outages fine session_id episode_uuid (length start)
          start max_items 0 eps)
        (on, omega arith, lookup_entries start dis) in
    (k, ends, more, kept)
