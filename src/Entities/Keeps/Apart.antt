-- ===== src/Entities/Keeps/Apart.antt =====
-- The causal store beside the ontology store (intelligence/graph/ontology_pipeline.py).
use segnog.Prelude.{
  String, Option, none, some, List, ◌≡◌, ◌&&◌, not, inl, inr, Dict, contains, Bool-cases,
}
use segnog.Exec.{Exec}
use segnog.Exec.Triples.{Ends}
use segnog.Entities.{OntologyNode, Edge, Kg, Services, relate, link, is_node, has_link}
use segnog.Entities.Pipeline.{Extraction}
use segnog.Exec.Always.{Always}
use segnog.Entities.Keeps.{IsKept}

-- The calls of the causal store leave the entities and the edges between them alone.
abbrev pub SameGraph : {E F : Type 0} → Kg E F → Kg E F → Type 0
SameGraph d d' = (d'.nodes ≡ d.nodes) × (d'.relates ≡ d.relates)

pub record IsApart {E F C : Type 0} (x : Extraction E F C) : Type 0 where
  pub claim : (c : C) (d : Kg E F) → SameGraph d (x.upsert_claim c d).0
  pub beliefs : (d : Kg E F) → SameGraph d (x.revise_beliefs d).0
  pub chain : (d : Kg E F) → SameGraph d (x.auto_chain d).0

module _ {E F C : Type 0} (o : Services E F) (x : Extraction E F C)
    (P : Dict (OntologyNode E) → List (Edge F) → Type 0) (apart : IsApart x) where
  same :
      {A : Type 0} (m : Exec (Kg E F) A)
      → ((d : Kg E F) → SameGraph d (m d).0)
      → Always (λ d. P d.nodes d.relates) m
  same {A = A} m eq = record { at = λ d h. ends d (m d).0 (m d).1 (eq d) h }
    where
      ends :
          (d d' : Kg E F) (r : Option A)
          → SameGraph d d'
          → P d.nodes d.relates
          → Ends (λ _ d. P d.nodes d.relates) (λ d. P d.nodes d.relates) d' r
      ends d d' none eq h = rw (eq.0, eq.1) h
      ends d d' (some a) eq h = rw (eq.0, eq.1) h

  linked :
      (episode name : String) (d : Kg E F)
      → P d.nodes d.relates
      → P (link episode name d).0.nodes (link episode name d).0.relates
  unfolding link
  linked episode name d h =
      elim (Bool-cases
        (contains episode d.episodes && is_node name d && not (has_link episode name d.about))) [
          | inl e ↦ rw e h
          | inr e ↦ rw e h
        ]

  -- A condition on the entities and the edges between them needs to be kept by the queries for edges.
  pub graph-IsKept :
      ((e : Edge F) (d : Kg E F)
        → P d.nodes d.relates
        → P (relate o.numbers e d).0.nodes (relate o.numbers e d).0.relates)
      → IsKept o x (λ d. P d.nodes d.relates)
  graph-IsKept edge = record {
    counting = λ d h. h;
    edge = edge;
    mention = linked;
    claim = λ c. same (x.upsert_claim c) (apart.claim c);
    beliefs = same x.revise_beliefs apart.beliefs;
    chain = same x.auto_chain apart.chain;
  }
