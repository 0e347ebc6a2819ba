-- ===== src/Entities.antt =====
-- The entities of the long-term memory (src/memory_service/storage/long_term/ontology_store.py) in
-- the graph database, one node for a normalized name, with the RELATES edges between them and the
-- ABOUT edges from episodes. A query may raise, and has changed nothing then.
pub mod Texts
pub mod Summary
pub mod Pipeline
pub mod Keeps
pub mod Linked
pub mod Clean
pub mod Relates
pub mod Windows
pub mod Errors
use segnog.Prelude.{
  ℕ, suc, ◌+◌, String, Bool, true, false, Option, none, some, List, [], ◌∷◌, ◌==◌, ◌&&◌, not, Dict,
  lookup, insert, keys, contains, if◌then◌else◌,
}
use segnog.Scoring.{Numbers, get_or}
use segnog.Ontology.{Ontology}
use segnog.Ontology.Inverses.{get_inverse, is_symmetric}
use segnog.Ontology.Normalize.{normalize_class, normalize_predicate}
use segnog.Entities.Texts.{name_slug}
use segnog.Exec.{Exec, pure, raise, gets, from_option, attempt, branch, ◌>>=◌, ◌>>◌}

-- An OntologyNode, under its name; times are milliseconds.
pub record OntologyNode (E : Type 0) : Type 0 where
  pub uuid : String
  pub group_id : String
  pub schema_type : String
  pub display_name : String
  pub summary : String
  pub embedding : E
  pub created_at : ℕ
  pub updated_at : ℕ
  pub source_count : Option ℕ

pub record Edge (F : Type 0) : Type 0 where
  pub subject : String
  pub predicate : String
  pub object : String
  pub confidence : F
  pub created_at : ℕ

-- The nodes by name, the edges, the uuids of the episodes, and the number of queries sent.
pub record Kg (E F : Type 0) : Type 0 where
  pub nodes : Dict (OntologyNode E)
  pub relates : List (Edge F)
  pub about : List (String × String)
  pub episodes : List String
  pub queries : ℕ

-- What the store is built with: arithmetic of floats, `str.lower`, the vocabulary, the embedding
-- service, the clock, `uuid4()`, and which queries raise, by their number.
pub record Services (E F : Type 0) : Type 0 where
  pub numbers : Numbers F
  pub lower : String → String
  pub ontology : Ontology
  pub embed : String → Option E
  pub clock : Kg E F → ℕ
  pub fresh_uuid : Kg E F → String
  pub faults : ℕ → Bool

-- A query that answers `f`.
unfoldable pub send : {E F A : Type 0} → (ℕ → Bool) → (Kg E F → Kg E F × A) → Exec (Kg E F) A
send faults f d =
    let sent = record d { queries = suc d.queries } in
    if faults d.queries then (sent, none) else ((f sent).0, some (f sent).1)

module _ {E : Type 0} where
  -- `ON MATCH SET …`, where the uuid, the group and the time of creation stay.
  unfoldable pub refresh : Option (OntologyNode E) → OntologyNode E → OntologyNode E
  refresh none fresh = fresh
  refresh (some old) fresh = record fresh {
    uuid = old.uuid;
    group_id = old.group_id;
    created_at = old.created_at;
    source_count = some (get_or old.source_count 0 + 1);
  }

module _ {F : Type 0} where
  unfoldable pub is_relates : String → String → String → Edge F → Bool
  is_relates subject predicate object e =
      e.subject == subject && e.predicate == predicate && e.object == object

  -- MERGE of an edge: `ON MATCH` keeps the greater confidence.
  unfoldable pub merge_relates : Numbers F → Edge F → List (Edge F) → List (Edge F)
  unfolding is_relates
  merge_relates n e [] = e ∷ []
  merge_relates n e (old ∷ edges) =
      let more = if n.lt old.confidence e.confidence then e.confidence else old.confidence in
      let later = merge_relates n e edges in
      if is_relates e.subject e.predicate e.object old
      then record old { confidence = more } ∷ edges
      else old ∷ later

unfoldable pub has_link : String → String → List (String × String) → Bool
has_link episode name [] = false
has_link episode name (l ∷ links) =
    if l.0 == episode && l.1 == name then true else has_link episode name links

module _ {E F : Type 0} where
  unfoldable pub merge_node : String → OntologyNode E → Kg E F → Kg E F × String
  unfolding insert lookup refresh
  merge_node name fresh d =
      let node = refresh (lookup name d.nodes) fresh in
      (record d { nodes = insert name node d.nodes }, node.uuid)

  unfoldable pub is_node : String → Kg E F → Bool
  unfolding contains
  is_node name d = contains name (keys d.nodes)

  -- The query of `_merge_relates_edge`, and whether its count is above 0.
  unfoldable pub relate : Numbers F → Edge F → Kg E F → Kg E F × Bool
  unfolding merge_relates is_node
  relate n e d =
      if is_node e.subject d && is_node e.object d
      then (record d { relates = merge_relates n e d.relates }, true)
      else (d, false)

  unfoldable pub link : String → String → Kg E F → Kg E F × Unit {0}
  unfolding is_node has_link contains
  link episode name d = (
    if contains episode d.episodes && is_node name d && not (has_link episode name d.about)
        then record d { about = (episode, name) ∷ d.about }
        else d,
    tt,
  )

-- An inverse that is there and not the predicate itself.
unfoldable pub other_inverse : String → Option String → Option String
other_inverse predicate none = none
other_inverse predicate (some q) = if q == "" then none else if q == predicate then none else some q

module _ {E F : Type 0} (o : Services E F) where
  unfoldable pub new_node : String → String → String → String → E → ℕ → String → OntologyNode E
  new_node group_id schema_type display_name summary v now uuid = record {
    uuid = uuid;
    group_id = group_id;
    schema_type = schema_type;
    display_name = display_name;
    summary = summary;
    embedding = v;
    created_at = now;
    updated_at = now;
    source_count = some 1;
  }

  unfoldable pub upsert_node : String → String → String → String → String → Exec (Kg E F) String
  unfolding name_slug normalize_class ◌>>=◌ branch raise from_option gets send merge_node new_node
  upsert_node name schema_type display_name summary group_id =
      branch (name_slug o.lower name == "") raise (do
        v ← from_option (o.embed summary)
        now ← gets o.clock
        uuid ← gets o.fresh_uuid
        send o.faults (
            merge_node (name_slug o.lower name) (
              new_node group_id (normalize_class o.lower o.ontology schema_type) display_name
                summary v now uuid)))

  unfoldable pub get_node : String → Exec (Kg E F) (Option (OntologyNode E))
  unfolding send name_slug lookup
  get_node name = send o.faults (λ d. (d, lookup (name_slug o.lower name) d.nodes))

  -- An exception is logged.
  unfoldable pub merge_relates_edge : Edge F → Exec (Kg E F) Bool
  unfolding attempt send pure relate
  merge_relates_edge e = attempt (send o.faults (relate o.numbers e)) (pure false)

  unfoldable pub edge_of : String → String → String → F → ℕ → Edge F
  edge_of subject predicate object confidence now = record {
    subject = subject;
    predicate = predicate;
    object = object;
    confidence = confidence;
    created_at = now;
  }

  unfoldable pub store_inverse : String → String → F → ℕ → Option String → Exec (Kg E F) Bool
  unfolding pure merge_relates_edge edge_of
  store_inverse subject object confidence now none = pure true
  store_inverse subject object confidence now (some inverse) =
      merge_relates_edge (edge_of object inverse subject confidence now)

  unfoldable pub store_reverse : String → String → String → F → ℕ → Exec (Kg E F) Bool
  unfolding pure branch merge_relates_edge edge_of is_symmetric
  store_reverse subject predicate object confidence now =
      branch (is_symmetric o.ontology predicate)
        (merge_relates_edge (edge_of object predicate subject confidence now)) (pure true)

  -- The edges that follow from the forward edge.
  unfoldable pub infer_edges : String → String → String → F → ℕ → Exec (Kg E F) Bool
  unfolding ◌>>=◌ pure get_inverse other_inverse store_reverse store_inverse
  infer_edges subject predicate object confidence now = do
    store_reverse subject predicate object confidence now
    store_inverse subject object confidence now
        (other_inverse predicate (get_inverse o.ontology predicate))
    pure true

  unfoldable pub store_edges : String → String → String → F → ℕ → Exec (Kg E F) Bool
  unfolding ◌>>=◌ pure branch merge_relates_edge edge_of infer_edges
  store_edges subject predicate object confidence now = do
    stored ← merge_relates_edge (edge_of subject predicate object confidence now)
    branch stored (infer_edges subject predicate object confidence now) (pure false)

  unfoldable pub store_relates : String → String → String → F → Exec (Kg E F) Bool
  unfolding ◌>>=◌ gets normalize_predicate store_edges
  store_relates subject predicate object confidence = do
    now ← gets o.clock
    store_edges subject (normalize_predicate o.lower o.ontology predicate) object confidence now

  unfoldable pub link_about : String → String → Exec (Kg E F) (Unit {0})
  unfolding attempt send pure link name_slug
  link_about episode name =
      attempt (send o.faults (link episode (name_slug o.lower name))) (pure tt)
