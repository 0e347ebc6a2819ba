-- ===== src/Sessions/Search.antt =====
-- dragonfly.py `session_search`: the cosine similarity is an argument, which gives none where a
-- norm is nought.
use segnog.Prelude.{
  ℕ, String, Bool, Option, none, some, List, [], ◌∷◌, Dict, take, sort_by, if◌then◌else◌,
}
use segnog.Scoring.{Numbers}
use segnog.Exec.{Exec, pure, ◌>>=◌}
use segnog.Sessions.{Entry, Server, Codec, Outages, session_get_all}

pub record Hit (F : Type 0) : Type 0 where
  pub uuid : String
  pub content : String
  pub metadata : Dict String
  pub source_type : String
  pub score : F

module _ {E F : Type 0} (n : Numbers F) (cosine : E → E → Option F) where
  unfoldable pub score_of : E → Entry E → Option F
  score_of v entry = elim entry.embedding [ none ↦ none | some w ↦ cosine v w ]

  unfoldable pub hits : E → F → Dict (Entry E) → List (Hit F)
  hits v min_score [] = []
  hits v min_score ((uuid, entry) ∷ entries) =
      let rest = hits v min_score entries in
      elim (score_of v entry) [
        | none ↦ rest
        | some score ↦
            if n.le min_score score
            then record {
              uuid = uuid;
              content = entry.content;
              metadata = entry.metadata;
              source_type = entry.source_type;
              score = score;
            }
              ∷ rest
            else rest
      ]

  -- `has_norm` is whether the norm of the query is not nought.
  unfoldable pub session_search :
      Codec E → Outages → Bool → String → E → ℕ → F → Exec Server (List (Hit F))
  unfolding ◌>>=◌ pure session_get_all hits sort_by
  session_search codec outages has_norm session_id v top_k min_score = do
    entries ← session_get_all codec outages session_id
    pure (
        if has_norm
        then take top_k (sort_by (λ y x. n.lt x.score y.score) (hits v min_score entries))
        else [])
