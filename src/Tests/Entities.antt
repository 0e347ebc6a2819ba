-- ===== src/Tests/Entities.antt =====
-- The theorems of Entities at a graph of two nodes, and runs of the ontology update on it.
use segnog.Prelude.{
  ℕ, ◌≤◌, String, Bool, true, false, none, some, List, [], ◌∷◌, ◌≡◌, ◌⊎◌, refl, ◌&&◌, All, length,
  contains, arith, eqb,
}
use segnog.Ontology.{Ontology}
use segnog.Ontology.Normalize.{normalize_predicate}
use segnog.Exec.{pure}
use segnog.Entities.{OntologyNode, Edge, Kg, Services, is_node, store_relates}
use segnog.Entities.Summary.{is_rejected, any_of}
use segnog.Entities.Texts.{includes, starts_with, name_slug, codes, text_of}
use segnog.Entities.Pipeline.{
  EpisodeText, Extraction, all_windows, fast_coverage_ontology, extract_and_store_batch,
  update_group_ontology,
}
use segnog.Entities.Keeps.Apart.{IsApart, SameGraph}
use segnog.Entities.Linked.{IsLinked, update_group_ontology-IsLinked}
use segnog.Entities.Clean.{AllClean, update_group_ontology-AllClean}
use segnog.Entities.Relates.Merging.{Stands, IsStrict}
use segnog.Entities.Relates.{inferred, store_relates-inferred}
use segnog.Entities.Windows.{each_batch, CoversMost, all_windows-CoversMost}
use segnog.Entities.Errors.{CannotExtract, update_group_ontology-returns}
use segnog.Names.{normalizer}
use segnog.Tests.Numbers.{thousandths}

abbrev vocabulary : Ontology
vocabulary = record {
  classes = [];
  properties = [];
  inverses = ("member", "memberOf") ∷ [];
  class_lower = [];
  prop_lower = [];
}

abbrev services : (ℕ → Bool) → Services ℕ ℕ
services faults = record {
  numbers = thousandths;
  lower = λ s. s;
  ontology = vocabulary;
  embed = λ text. some 1;
  clock = λ d. 5;
  fresh_uuid = λ d. "u";
  faults = faults;
}

abbrev extraction : Extraction ℕ ℕ String
extraction = record {
  llm = λ prompt. some "I cannot complete this summary.";
  extract_entities = λ content. some (record { name = some "ann lee"; schema_type = none } ∷ []);
  extract_relationships = λ content. some (
      record {
        subject_norm = "ann-lee";
        predicate = "knows";
        object_norm = "bob";
        confidence = none;
      }
      ∷ []);
  extract_causal_claims = λ content. none;
  upsert_claim = λ c. pure tt;
  revise_beliefs = pure tt;
  auto_chain = pure tt;
  has_causal_store = true;
  max_name_words = 4;
  window_size = 2;
}

abbrev node : String → OntologyNode ℕ
node summary = record {
  uuid = "n";
  group_id = "g";
  schema_type = "Person";
  display_name = "Bob";
  summary = summary;
  embedding = 1;
  created_at = 1;
  updated_at = 1;
  source_count = some 1;
}

abbrev edge : Edge ℕ
edge = record {
  subject = "bob";
  predicate = "member";
  object = "club";
  confidence = 700;
  created_at = 1;
}

abbrev kg : Kg ℕ ℕ
kg = record {
  nodes = ("bob", node "Bob is a baker.") ∷ ("club", node "A club.") ∷ [];
  relates = edge ∷ [];
  about = [];
  episodes = "e1" ∷ [];
  queries = 0;
}

abbrev episode : String → EpisodeText
episode uuid = record { uuid = some uuid; content = "Ann Lee and Bob met at the club." }

abbrev three_episodes : List EpisodeText
three_episodes = episode "e1" ∷ episode "e2" ∷ episode "e3" ∷ []

abbrev third_fails : ℕ → Bool
third_fails k = eqb k 2

name_slug_runs : name_slug (λ s. s) "ann lee 2_" ≡ "ann-lee-2"
unfolding name_slug codes text_of normalizer
name_slug_runs = refl

extraction-IsApart : IsApart extraction
unfolding pure
extraction-IsApart = record {
  claim = λ c d. (refl, refl);
  beliefs = λ d. (refl, refl);
  chain = λ d. (refl, refl);
}

kg-IsLinked : IsLinked kg.nodes kg.relates
unfolding contains
kg-IsLinked = record { joined = ((refl, refl), tt); single = (tt, tt) }

update_group_ontology-IsLinked_example :
    IsLinked
      (update_group_ontology (services third_fails) extraction "g" three_episodes "text" kg).0.nodes
      (update_group_ontology
        (services third_fails)
        extraction
        "g"
        three_episodes
        "text"
        kg).0.relates
    × IsLinked
        (fast_coverage_ontology (services third_fails) extraction "g" three_episodes kg).0.nodes
        (fast_coverage_ontology (services third_fails) extraction "g" three_episodes kg).0.relates
update_group_ontology-IsLinked_example =
    update_group_ontology-IsLinked (services third_fails) extraction "g" "text" three_episodes kg
      extraction-IsApart kg-IsLinked

kg-AllClean : AllClean kg.nodes
unfolding is_rejected any_of includes starts_with
kg-AllClean = (refl, (refl, tt))

update_group_ontology-AllClean_example :
    AllClean
      (update_group_ontology
        (services third_fails)
        extraction
        "g"
        three_episodes
        "a longer text"
        kg).0.nodes
update_group_ontology-AllClean_example =
    update_group_ontology-AllClean (services third_fails) extraction "g" "a longer text"
      three_episodes kg extraction-IsApart kg-AllClean

thousandths-IsStrict : IsStrict thousandths
thousandths-IsStrict = (λ c. ground arith, λ a b c h k. ground arith)

store_relates-inferred_example :
    let ran = store_relates (services (λ k. false)) "bob" "member" "club" 800 kg in
    (((is_node "bob" kg && is_node "club" kg) ≡ true)
      × (ran.1 ≡ some true)
      × All
          (λ e. Stands thousandths e ran.0.relates)
          (inferred
            (services (λ k. false))
            "bob"
            (normalize_predicate (λ s. s) vocabulary "member")
            "club"
            800
            5)
      × All (λ e. Stands thousandths e ran.0.relates) (edge ∷ []))
    ⊎ (((is_node "bob" kg && is_node "club" kg) ≡ false)
        × (ran.1 ≡ some false)
        × SameGraph kg ran.0)
store_relates-inferred_example =
    store_relates-inferred (services (λ k. false)) "bob" "member" "club" 800 kg (λ k. refl)
      thousandths-IsStrict

all_windows-CoversMost_example :
    (batches : List (List EpisodeText)) × (all_windows
        (services third_fails)
        extraction
        "g"
        (λ names. extract_and_store_batch (services third_fails) extraction "g" "text" names none)
        []
        three_episodes
        kg
      ≡ each_batch
          (services third_fails)
          extraction
          "g"
          (λ names. extract_and_store_batch (services third_fails) extraction "g" "text" names none)
          []
          batches
          kg)
    × All (λ l. (2 ≤ length l) × (length l ≤ 2)) batches
    × CoversMost batches three_episodes
all_windows-CoversMost_example =
    all_windows-CoversMost (services third_fails) extraction "g"
      (λ names. extract_and_store_batch (services third_fails) extraction "g" "text" names none) []
      three_episodes kg (omega arith) (omega arith)

update_group_ontology-returns_example :
    ((fast_coverage_ontology (services third_fails) extraction "g" three_episodes kg).1 ≡ some tt)
    × (((update_group_ontology (services third_fails) extraction "g" three_episodes "text" kg).1
          ≡ some tt)
        ⊎ CannotExtract extraction)
update_group_ontology-returns_example =
    update_group_ontology-returns (services third_fails) extraction "g" "text" three_episodes kg
      refl
