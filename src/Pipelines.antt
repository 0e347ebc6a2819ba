-- ===== src/Pipelines.antt =====
-- The two workflows of the program: workflows/curation_workflow.py and
-- workflows/fast_ontology_workflow.py (src/memory_service/workflows). Timeouts are in
-- milliseconds; the handlers are arguments.
use segnog.Prelude.{true, false, [], ◌∷◌}
use segnog.Workflow.{Workflow}

module _ {V R : Type 0} where
  unfoldable pub curation_workflow :
      (reflection knowledge artifacts causals ontology : V → R) → Workflow V R
  curation_workflow reflection knowledge artifacts causals ontology = record {
    name = "curation";
    stages =
        record {
          name = "reflection";
          handler = reflection;
          sync = true;
          depends_on = [];
          timeout = 120_000;
        }
        ∷ record {
          name = "knowledge";
          handler = knowledge;
          sync = true;
          depends_on = "reflection" ∷ [];
          timeout = 120_000;
        }
        ∷ record {
          name = "artifacts";
          handler = artifacts;
          sync = false;
          depends_on = "knowledge" ∷ [];
          timeout = 60_000;
        }
        ∷ record {
          name = "causals";
          handler = causals;
          sync = false;
          depends_on = "knowledge" ∷ [];
          timeout = 60_000;
        }
        ∷ record {
          name = "ontology";
          handler = ontology;
          sync = false;
          depends_on = "knowledge" ∷ [];
          timeout = 60_000;
        }
        ∷ [];
  }

  unfoldable pub fast_ontology_workflow : (handler : V → R) → Workflow V R
  fast_ontology_workflow handler = record {
    name = "fast_ontology";
    stages =
        record {
          name = "fast_ontology";
          handler = handler;
          sync = false;
          depends_on = [];
          timeout = 60_000;
        }
        ∷ [];
  }
