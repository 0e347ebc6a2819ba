-- ===== src/Sessions/Limits.antt =====
-- What the hydration of a session (services/observe.py `_hydrate_episodes`) does whichever commands
-- to the server raise.
use segnog.Prelude.{
  ℕ, suc, ◌+◌, ◌≤◌, String, Bool, true, false, Option, none, some, List, [], ◌∷◌, ◌≡◌, refl, inl,
  inr, ◌==◌, Dict, lookup, insert, lookup-insert, length, leb, if◌then◌else◌, eq_iff, eq_self,
  Bool-cases, arith,
}
use segnog.Scoring.{Numbers}
use segnog.Exec.{Exec, pure}
use segnog.Exec.Triples.{
  Ends, NoRaise, returned, Triple, Triple-pure, Triple-attempt, Triple-bind, Triple-branch,
}
use segnog.Sessions.{
  Entry, Server, Codec, Outages, session, command, when_connected, hset, session_add, is_in,
  session_has,
}
use segnog.Sessions.Hydration.{
  Found, is_left_out, embedding_of, entry_of, add_embedded, hydrate_episode, hydrate_loop,
  hydrate_episodes,
}

abbrev pub sent : Server → Server
sent s = record s { commands = suc s.commands }

module _ {A : Type 0} {P : Server → Type 0} {Q : A → Server → Type 0} {X : Server → Type 0} where
  pub Triple-command :
      (outages : Outages) (f : Server → Server × A)
      → ((s : Server) → P s → outages s.commands ≡ true → X (sent s))
      → ((s : Server) → P s → Q (f (sent s)).1 (f (sent s)).0)
      → Triple P (command outages f) Q X
  unfolding command
  Triple-command outages f hx hq = record {
    at = λ s h. elim (Bool-cases (outages s.commands)) [
      | inl raises ↦ rw raises (hx s h raises)
      | inr fine ↦ rw fine (hq s h)
    ];
  }

  pub Triple-when_connected :
      (default : A) (m : Exec Server A)
      → ((s : Server) → P s → s.connected ≡ false → Q default s)
      → Triple P m Q X
      → Triple P (when_connected default m) Q X
  unfolding when_connected
  Triple-when_connected default m off t = record { at = λ s h. pick s h s.connected refl }
    where
      pick :
          (s : Server)
          → P s
          → (b : Bool) → s.connected ≡ b
          → Ends Q X
              (if b then m s else (s, some default)).0
              (if b then m s else (s, some default)).1
      pick s h true e = t.at s h
      pick s h false e = off s h e

pub session-hset :
    (session_id uuid value : String) (s : Server)
    → session session_id (hset session_id uuid value s).0 ≡ insert uuid value (session session_id s)
unfolding session hset
session-hset session_id uuid value s =
    rw
      (
        lookup-insert session_id session_id (insert uuid value (session session_id s)) s.sessions,
        eq_self session_id,
      )
      refl

length-insert-le : (k v : String) (d : Dict String) → length (insert k v d) ≤ suc (length d)
unfolding insert
length-insert-le k v [] = omega arith
length-insert-le k v ((j, w) ∷ d) = ground (arith, length-insert-le k v d)

module _ {E F : Type 0} (n : Numbers F) (near : F) (embed : String → Option E) (codec : Codec E)
    (outages : Outages) (session_id episode_uuid : String) (start : Dict String) where
  -- The entries of the session grew by at most `k`, and that of the episode itself is as before.
  abbrev Grown : ℕ → Server → Type 0
  Grown k s =
      (length (session session_id s) ≤ length start + k)
      × (lookup episode_uuid (session session_id s) ≡ lookup episode_uuid start)

  one_more : (k : ℕ) (s : Server) → Grown k s → Grown (suc k) s
  one_more k s h = (omega (arith, h.0), h.1)

  Triple-session_add :
      (uuid : String) (entry : Entry E) (k : ℕ)
      → (uuid == episode_uuid) ≡ false
      → Triple
          (Grown k)
          (session_add codec outages session_id uuid entry)
          (λ _. Grown (suc k))
          NoRaise
  unfolding session_add session
  Triple-session_add uuid entry k other =
      Triple-when_connected tt _ (λ s h away. one_more k s h)
        (Triple-attempt _ (pure tt) (Grown (suc k))
          (Triple-bind (command outages (hset session_id uuid (codec.dumps entry))) _
            (λ _. Grown (suc k))
            (Triple-command outages (hset session_id uuid (codec.dumps entry))
              (λ s h raises. one_more k s h) (λ s h. added s h))
            (λ _. Triple-command outages (λ s. (s, tt)) (λ s h raises. h) (λ s h. h)))
          (Triple-pure tt (λ s h. h)))
    where
      added :
          (s : Server)
          → Grown k s
          → Grown (suc k) (hset session_id uuid (codec.dumps entry) (sent s)).0
      added s h =
          let value = codec.dumps entry in
          let apart : (episode_uuid == uuid) ≡ false =
            ground (arith, eq_iff uuid episode_uuid, eq_iff episode_uuid uuid) in
          rw (session-hset session_id uuid value (sent s)) (
            omega (arith, h.0, length-insert-le uuid value (session session_id s)),
            rw (lookup-insert uuid episode_uuid value (session session_id s), apart) h.1,
          )

  -- One turn counts the entry that it may have added.
  Triple-hydrate_episode :
      (ep : Found E F) (k : ℕ)
      → Triple
          (Grown k)
          (hydrate_episode n near embed codec outages session_id episode_uuid ep)
          (λ done. Grown (if done then suc k else k))
          NoRaise
  unfolding hydrate_episode session_has is_left_out session
  Triple-hydrate_episode ep k =
      Triple-branch (is_left_out n near embed codec outages episode_uuid ep) (pure false) _
        (λ e. Triple-pure false (λ s h. h))
        (λ kept.
          Triple-bind (session_has outages session_id ep.uuid) _ (λ _. Grown k)
            (Triple-when_connected false _ (λ s h away. h)
              (Triple-attempt _ (pure false) (Grown k)
                (Triple-command outages (λ s. (s, is_in ep.uuid (session session_id s)))
                  (λ s h raises. h) (λ s h. h))
                (Triple-pure false (λ s h. h))))
            (λ there.
              Triple-branch there (pure false) _ (λ e. Triple-pure false (λ s h. h))
                (λ e. add (embedding_of n near embed codec outages ep) (ground arith))))
    where
      add :
          (v : Option E)
          → (ep.uuid == episode_uuid) ≡ false
          → Triple
              (Grown k)
              (add_embedded n near embed codec outages session_id ep v)
              (λ done. Grown (if done then suc k else k))
              NoRaise
      add none other = Triple-pure false (λ s h. h)
      add (some v) other =
          Triple-bind
            (session_add codec outages session_id ep.uuid
              (entry_of n near embed codec outages ep v))
            _ (λ _. Grown (suc k))
            (Triple-session_add ep.uuid (entry_of n near embed codec outages ep v) k other)
            (λ _. Triple-pure true (λ s h. h))

  Triple-hydrate_loop :
      (max_items hydrated : ℕ) (eps : List (Found E F))
      → hydrated ≤ max_items
      → Triple
          (Grown hydrated)
          (hydrate_loop n near embed codec outages session_id episode_uuid max_items hydrated eps)
          (λ k s. (k ≤ max_items) × Grown k s)
          NoRaise
  unfolding hydrate_loop
  Triple-hydrate_loop max_items hydrated [] few = Triple-pure hydrated (λ s h. (few, h))
  Triple-hydrate_loop max_items hydrated (ep ∷ eps) few =
      Triple-branch (leb max_items hydrated) (pure hydrated) _
        (λ e. Triple-pure hydrated (λ s h. (few, h)))
        (λ e.
          Triple-bind (hydrate_episode n near embed codec outages session_id episode_uuid ep) _
            (λ done. Grown (if done then suc hydrated else hydrated))
            (Triple-hydrate_episode ep hydrated)
            (λ done.
              Triple-hydrate_loop max_items (if done then suc hydrated else hydrated) eps
                (more done e)))
    where
      more :
          (done : Bool)
          → leb max_items hydrated ≡ false
          → (if done then suc hydrated else hydrated) ≤ max_items
      more true e = ground arith
      more false e = few

-- Hydration never raises, counts no more episodes than it is to, adds no more entries to the session
-- than it counts, and leaves the entry of the episode that was searched for as it is, whichever
-- commands to the server and embeddings fail.
pub hydrate_episodes-le :
    {E F : Type 0} (n : Numbers F) (near : F) (embed : String → Option E) (codec : Codec E)
    (outages : Outages) (session_id episode_uuid : String) (max_items : ℕ) (eps : List (Found E F))
    (s : Server)
    → (k : ℕ) × ((hydrate_episodes n near embed codec outages session_id episode_uuid max_items eps
          s).1
        ≡ some k)
      × (k ≤ max_items)
      × (length (
            session session_id
              (hydrate_episodes n near embed codec outages session_id episode_uuid max_items eps
                s).0)
          ≤ length (session session_id s) + k)
      × (lookup episode_uuid (
            session session_id
              (hydrate_episodes n near embed codec outages session_id episode_uuid max_items eps
                s).0)
          ≡ lookup episode_uuid (session session_id s))
unfolding hydrate_episodes
hydrate_episodes-le n near embed codec outages session_id episode_uuid max_items eps s =
    let start = session session_id s in
    let (k, ends, (few, grown)) =
      returned
        {Q = λ k s'.
          (k ≤ max_items) × Grown n near embed codec outages session_id episode_uuid start k s'}
        (hydrate_loop n near embed codec outages session_id episode_uuid max_items 0 eps) s
        (Triple-hydrate_loop n near embed codec outages session_id episode_uuid start max_items 0
          eps (omega arith))
        (omega arith, refl) in
    (k, ends, few, grown.0, grown.1)
