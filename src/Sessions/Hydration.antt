-- ===== src/Sessions/Hydration.antt =====
-- services/observe.py `_hydrate_episodes`: what a search found goes to the session, unless it is
-- there.
use segnog.Prelude.{
  ℕ, suc, String, Bool, true, false, Option, none, some, List, [], ◌∷◌, ◌==◌, ◌||◌, Dict, insert,
  leb, if◌then◌else◌,
}
use segnog.Scoring.{Numbers, get_or}
use segnog.Exec.{Exec, pure, branch, ◌>>=◌, ◌>>◌}
use segnog.Sessions.{Entry, Server, Codec, Outages, session_add, session_has}

-- An episode that a search found.
pub record Found (E F : Type 0) : Type 0 where
  pub uuid : String
  pub content : String
  pub score : Option F
  pub semantic_score : Option F
  pub embedding : Option E
  pub metadata : Dict String
  pub episode_type : String

module _ {E F : Type 0} (n : Numbers F) (near : F) (embed : String → Option E) (codec : Codec E)
    (outages : Outages) where
  -- The episode itself, one without a uuid, and one that says the same are left out; `near` is 0.99.
  unfoldable pub is_left_out : String → Found E F → Bool
  is_left_out episode_uuid ep =
      ep.uuid == ""
      || ep.uuid == episode_uuid
      || n.lt near (get_or ep.semantic_score (get_or ep.score n.nought))

  unfoldable pub embedding_of : Found E F → Option E
  embedding_of ep = elim ep.embedding [ none ↦ embed ep.content | some v ↦ some v ]

  unfoldable pub entry_of : Found E F → E → Entry E
  unfolding insert
  entry_of ep v = record {
    content = ep.content;
    embedding = some v;
    metadata =
        if ep.episode_type == ""
        then ep.metadata
        else insert "episode_type" ep.episode_type ep.metadata;
    source_type = "hydrated";
  }

  unfoldable pub add_embedded : String → Found E F → Option E → Exec Server Bool
  unfolding pure ◌>>=◌ session_add entry_of
  add_embedded session_id ep none = pure false
  add_embedded session_id ep (some v) =
      session_add codec outages session_id ep.uuid (entry_of ep v) >> pure true

  -- One turn of the loop: whether it counted the episode.
  unfoldable pub hydrate_episode : String → String → Found E F → Exec Server Bool
  unfolding pure branch ◌>>=◌ is_left_out session_has embedding_of add_embedded
  hydrate_episode session_id episode_uuid ep = branch (is_left_out episode_uuid ep) (pure false) (do
    there ← session_has outages session_id ep.uuid
    branch there (pure false) (add_embedded session_id ep (embedding_of ep)))

  -- The loop, with the number hydrated so far.
  unfoldable pub hydrate_loop : String → String → ℕ → ℕ → List (Found E F) → Exec Server ℕ
  unfolding pure branch ◌>>=◌ hydrate_episode
  hydrate_loop session_id episode_uuid max_items hydrated [] = pure hydrated
  hydrate_loop session_id episode_uuid max_items hydrated (ep ∷ eps) =
      branch (leb max_items hydrated) (pure hydrated) (do
        done ← hydrate_episode session_id episode_uuid ep
        hydrate_loop session_id episode_uuid max_items (if done then suc hydrated else hydrated)
            eps)

  unfoldable pub hydrate_episodes : String → String → ℕ → List (Found E F) → Exec Server ℕ
  unfolding hydrate_loop
  hydrate_episodes session_id episode_uuid max_items eps =
      hydrate_loop session_id episode_uuid max_items 0 eps
