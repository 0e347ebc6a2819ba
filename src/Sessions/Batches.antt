-- ===== src/Sessions/Batches.antt =====
-- services/observe.py `_hydrate_knowledge` and `_hydrate_ontology_nodes`: the entries that the
-- session has not yet, embedded in one call where they have no embedding.
use Prim.Native.String.{◌++◌ as ◌+++◌}
use segnog.Prelude.{
  ℕ, suc, String, Bool, true, false, Option, none, some, List, [], ◌∷◌, ◌==◌, ◌||◌, Dict, take,
  if◌then◌else◌,
}
use segnog.Exec.{Exec, pure, ◌>>=◌, ◌>>◌}
use segnog.Sessions.{Server, Codec, Outages, session_add, session_has}

-- What a search found: an entry of the knowledge, and a node of the ontology, whose display name is
-- its name if it has no other.
pub record Fact (E : Type 0) : Type 0 where
  pub uuid : String
  pub content : String
  pub knowledge_type : String
  pub embedding : Option E

pub record Node (E : Type 0) : Type 0 where
  pub uuid : String
  pub display_name : String
  pub summary : String
  pub embedding : Option E

-- An entry to write: its key, its content, its embedding if it has one, and its metadata.
pub record Item (E : Type 0) : Type 0 where
  pub key : String
  pub content : String
  pub embedding : Option E
  pub metadata : Dict String

module _ {E : Type 0} where
  unfoldable pub fact_items : List (Fact E) → List (Item E)
  fact_items [] = []
  fact_items (kn ∷ kns) =
      let rest = fact_items kns in
      if kn.uuid == "" || kn.content == ""
      then rest
      else record {
        key = "kn_" +++ kn.uuid;
        content = kn.content;
        embedding = kn.embedding;
        metadata = ("knowledge_type", kn.knowledge_type) ∷ [];
      }
        ∷ rest

  unfoldable pub node_items : List (Node E) → List (Item E)
  node_items [] = []
  node_items (node ∷ nodes) =
      let rest = node_items nodes in
      if node.uuid == "" || node.summary == ""
      then rest
      else record {
        key = "onto_" +++ node.uuid;
        content =
            if node.display_name == ""
            then node.summary
            else node.display_name +++ ": " +++ node.summary;
        embedding = node.embedding;
        metadata = [];
      }
        ∷ rest

  -- The contents that have no embedding yet, in their order.
  unfoldable pub needs_embed : List (Item E) → List String
  needs_embed [] = []
  needs_embed (item ∷ items) =
      let rest = needs_embed items in
      elim item.embedding [ none ↦ item.content ∷ rest | some v ↦ rest ]

  -- Each of these gets the next embedding of the batch, as far as there are some.
  unfoldable pub fill : List (Item E) → List E → List (Item E)
  fill [] vs = []
  fill (item ∷ items) vs = elim item.embedding [
    | some v ↦ item ∷ fill items vs
    | none ↦ elim vs [
      | [] ↦ item ∷ fill items []
      | w ∷ ws ↦ record item { embedding = some w } ∷ fill items ws
    ]
  ]

  -- A batch that fails leaves the entries without an embedding.
  unfoldable pub embed_items : (List String → Option (List E)) → List (Item E) → List (Item E)
  unfolding needs_embed fill
  embed_items embed_batch items = elim (needs_embed items) [
    | [] ↦ items
    | c ∷ cs ↦ elim (embed_batch (c ∷ cs)) [ none ↦ items | some vs ↦ fill items vs ]
  ]

module _ {E : Type 0} (codec : Codec E) (outages : Outages) (session_id : String) where
  unfoldable pub keep_missing : List (Item E) → Exec Server (List (Item E))
  unfolding pure ◌>>=◌ session_has
  keep_missing [] = pure []
  keep_missing (item ∷ items) = do
    there ← session_has outages session_id item.key
    rest ← keep_missing items
    pure (if there then rest else item ∷ rest)

  unfoldable pub add_item : String → Item E → Option E → Exec Server Bool
  unfolding pure ◌>>=◌ session_add
  add_item source_type item none = pure false
  add_item source_type item (some v) =
      session_add codec outages session_id item.key (record {
        content = item.content;
        embedding = some v;
        metadata = item.metadata;
        source_type = source_type;
      })
      >> pure true

  unfoldable pub add_items : String → List (Item E) → Exec Server ℕ
  unfolding pure ◌>>=◌ add_item
  add_items source_type [] = pure 0
  add_items source_type (item ∷ items) = do
    done ← add_item source_type item item.embedding
    count ← add_items source_type items
    pure (if done then suc count else count)

  unfoldable pub hydrate_knowledge :
      (List String → Option (List E)) → ℕ → List (Fact E) → Exec Server ℕ
  unfolding ◌>>=◌ keep_missing fact_items embed_items add_items
  hydrate_knowledge embed_batch max_items knowledge = do
    items ← keep_missing (fact_items (take max_items knowledge))
    add_items "hydrated_knowledge" (embed_items embed_batch items)

  unfoldable pub hydrate_ontology_nodes :
      (List String → Option (List E)) → ℕ → List (Node E) → Exec Server ℕ
  unfolding ◌>>=◌ keep_missing node_items embed_items add_items
  hydrate_ontology_nodes embed_batch max_items nodes = do
    items ← keep_missing (node_items (take max_items nodes))
    add_items "ontology_node" (embed_items embed_batch items)
