-- ===== src/Sessions/Counts.antt =====
-- How much the hydration of knowledge entries and ontology nodes (services/observe.py) counts,
-- whichever commands to the server and batches of embeddings fail.
use segnog.Prelude.{
  ℕ, suc, ◌≤◌, String, true, false, Option, none, some, List, [], ◌∷◌, ◌≡◌, refl, take, length,
  length-take-le, if◌then◌else◌, Option-cases, inl, inr, arith,
}
use segnog.Exec.{pure, ◌>>=◌}
use segnog.Exec.Triples.{
  NoRaise, returned, Triple, Triple-pure, Triple-attempt, Triple-bind, Triple-weaken, Triple-given,
}
use segnog.Sessions.{
  Entry, Server, Codec, Outages, session, command, hset, is_in, session_add, session_has,
}
use segnog.Sessions.Batches.{
  Fact, Node, Item, fact_items, node_items, needs_embed, fill, embed_items, keep_missing, add_item,
  add_items, hydrate_knowledge, hydrate_ontology_nodes,
}
use segnog.Sessions.Limits.{Triple-command, Triple-when_connected}

abbrev Anything : Server → Type 0
Anything s = Unit

module _ {E : Type 0} where
  length-fact_items : (kns : List (Fact E)) → length (fact_items kns) ≤ length kns
  unfolding fact_items
  length-fact_items [] = omega arith
  length-fact_items (kn ∷ kns) = ground (arith, length-fact_items kns)

  length-node_items : (nodes : List (Node E)) → length (node_items nodes) ≤ length nodes
  unfolding node_items
  length-node_items [] = omega arith
  length-node_items (node ∷ nodes) = ground (arith, length-node_items nodes)

  length-fill : (items : List (Item E)) (vs : List E) → length (fill items vs) ≡ length items
  unfolding fill
  length-fill [] vs = refl
  length-fill (item ∷ items) vs = elim (Option-cases item.embedding) [
    | inl (v, e) ↦ rw e (omega (arith, length-fill items vs))
    | inr e ↦ rw e (rest vs (λ ws. length-fill items ws))
  ]
    where
      rest :
          (vs : List E)
          → ((ws : List E) → length (fill items ws) ≡ length items)
          → length (elim vs [
            | [] ↦ item ∷ fill items []
            | w ∷ ws ↦ record item { embedding = some w } ∷ fill items ws
          ])
            ≡ suc (length items)
      rest [] ih = omega (arith, ih [])
      rest (w ∷ ws) ih = omega (arith, ih ws)

  length-embed_items :
      (embed_batch : List String → Option (List E)) (items : List (Item E))
      → length (embed_items embed_batch items) ≡ length items
  unfolding embed_items
  length-embed_items embed_batch items = from (needs_embed items)
    where
      from :
          (needs : List String)
          → length (elim needs [
            | [] ↦ items
            | c ∷ cs ↦ elim (embed_batch (c ∷ cs)) [ none ↦ items | some vs ↦ fill items vs ]
          ])
            ≡ length items
      from [] = refl
      from (c ∷ cs) = elim (Option-cases (embed_batch (c ∷ cs))) [
        | inl (vs, e) ↦ rw e (length-fill items vs)
        | inr e ↦ rw e refl
      ]

module _ {E : Type 0} (codec : Codec E) (outages : Outages) (session_id : String) where
  Triple-keep_missing :
      (items : List (Item E))
      → Triple Anything
          (keep_missing codec outages session_id items)
          (λ kept s. length kept ≤ length items)
          NoRaise
  unfolding keep_missing session_has
  Triple-keep_missing [] = Triple-pure [] (λ s h. omega arith)
  Triple-keep_missing (item ∷ items) =
      Triple-bind (session_has outages session_id item.key) _ (λ _. Anything)
        (Triple-when_connected false _ (λ s h away. tt)
          (Triple-attempt _ (pure false) Anything
            (Triple-command outages (λ s. (s, is_in item.key (session session_id s)))
              (λ s h raises. tt) (λ s h. tt))
            (Triple-pure false (λ s h. tt))))
        λ there.
          Triple-bind (keep_missing codec outages session_id items) _
            (λ kept s. length kept ≤ length items) (Triple-keep_missing items)
            λ rest. Triple-pure (if there then rest else item ∷ rest) (λ s h. ground arith)

  Triple-add_items :
      (source_type : String) (items : List (Item E))
      → Triple Anything
          (add_items codec outages session_id source_type items)
          (λ count s. count ≤ length items)
          NoRaise
  unfolding add_items session_add
  Triple-add_items source_type [] = Triple-pure 0 (λ s h. omega arith)
  Triple-add_items source_type (item ∷ items) =
      Triple-bind (add_item codec outages session_id source_type item item.embedding) _
        (λ _. Anything) (add item.embedding)
        λ done.
          Triple-bind (add_items codec outages session_id source_type items) _
            (λ count s. count ≤ length items) (Triple-add_items source_type items)
            λ count. Triple-pure (if done then suc count else count) (λ s h. ground arith)
    where
      add :
          (v : Option E)
          → Triple Anything
              (add_item codec outages session_id source_type item v)
              (λ _. Anything)
              NoRaise
      add none = Triple-pure false (λ s h. tt)
      add (some v) =
          let entry : Entry E = record {
            content = item.content;
            embedding = some v;
            metadata = item.metadata;
            source_type = source_type;
          } in
          Triple-bind (session_add codec outages session_id item.key entry) _ (λ _. Anything)
            (Triple-when_connected tt _ (λ s h away. tt)
              (Triple-attempt _ (pure tt) Anything
                (Triple-bind (command outages (hset session_id item.key (codec.dumps entry))) _
                  (λ _. Anything)
                  (Triple-command outages (hset session_id item.key (codec.dumps entry))
                    (λ s h raises. tt) (λ s h. tt))
                  (λ _. Triple-command outages (λ s. (s, tt)) (λ s h raises. tt) (λ s h. tt)))
                (Triple-pure tt (λ s h. tt))))
            (λ _. Triple-pure true (λ s h. tt))

  Triple-batch :
      (embed_batch : List String → Option (List E)) (source_type : String) (wanted : List (Item E))
      (max_items : ℕ)
      → length wanted ≤ max_items
      → Triple Anything
          (keep_missing codec outages session_id wanted >>= λ items.
            add_items codec outages session_id source_type (embed_items embed_batch items))
          (λ k s. k ≤ max_items)
          NoRaise
  Triple-batch embed_batch source_type wanted max_items few =
      Triple-bind (keep_missing codec outages session_id wanted) _
        (λ kept s. length kept ≤ length wanted) (Triple-keep_missing wanted)
        λ items.
          let embedded = embed_items embed_batch items in
          Triple-given {C = length items ≤ length wanted}
            (add_items codec outages session_id source_type embedded) (λ s h. h)
            λ fewer.
              Triple-weaken (add_items codec outages session_id source_type embedded) (λ s h. tt)
                (λ k s h. omega (arith, h, few, fewer, length-embed_items embed_batch items))
                (λ s h. h) (Triple-add_items source_type embedded)

-- The hydrations of knowledge entries and of ontology nodes never raise, and each counts no more
-- entries than it is to, whichever commands and embeddings fail.
pub hydrations-le :
    {E : Type 0} (codec : Codec E) (outages : Outages) (session_id : String)
    (embed_batch : List String → Option (List E)) (max_facts max_nodes : ℕ) (facts : List (Fact E))
    (nodes : List (Node E)) (s : Server)
    → ((k : ℕ) × ((hydrate_knowledge codec outages session_id embed_batch max_facts facts s).1
          ≡ some k)
        × (k ≤ max_facts))
      × ((k : ℕ) × ((hydrate_ontology_nodes codec outages session_id embed_batch max_nodes nodes
              s).1
            ≡ some k)
          × (k ≤ max_nodes))
unfolding hydrate_knowledge hydrate_ontology_nodes
hydrations-le codec outages session_id embed_batch max_facts max_nodes facts nodes s =
    let some_facts = fact_items (take max_facts facts) in
    let some_nodes = node_items (take max_nodes nodes) in
    (
      returned (hydrate_knowledge codec outages session_id embed_batch max_facts facts) s
          (Triple-batch codec outages session_id embed_batch "hydrated_knowledge" some_facts
            max_facts
            (omega
              (arith, length-fact_items (take max_facts facts), length-take-le max_facts facts)))
          tt,
      returned (hydrate_ontology_nodes codec outages session_id embed_batch max_nodes nodes) s
          (Triple-batch codec outages session_id embed_batch "ontology_node" some_nodes max_nodes (
            omega
              (arith, length-node_items (take max_nodes nodes), length-take-le max_nodes nodes)))
          tt,
    )
