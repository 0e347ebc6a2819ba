-- ===== src/Tests/Observe.antt =====
-- The theorems of Observe at a service with two sessions.
use segnog.Prelude.{
  ℕ, suc, ◌≤◌, ◌<◌, Bool, true, false, none, some, [], ◌∷◌, ◌≡◌, ◌⊎◌, refl, Dict, keys, lookup,
  insert, contains, Distinct, All, length, eqb,
}
use segnog.Sessions.{Codec, session}
use segnog.Observe.{
  ContextEntry, Sources, Service, Request, Observation, ensure_session, hydration, span_start,
  span_end, works,
}
use segnog.Observe.Paths.{
  local_entry, warm_nodes, warm_claims, augment, make_answer, observe_core_inner,
}
use segnog.Observe.ReadOnly.{observe_core_inner-read_only}
use segnog.Observe.Bounds.{augment-Extends}
use segnog.Observe.Cold.{observe_core_inner-stores}
use segnog.Observe.Background.{
  Work, Slotted, background_hydrate, store_raw, hold_slot, background_hydrate-balanced,
}
use segnog.Exec.{pure, raise}
use segnog.Tests.Numbers.{thousandths}

abbrev codec : Codec ℕ
codec = record {
  dumps = λ e. e.content;
  loads = λ text.
      some (record { content = text; embedding = some 1; metadata = []; source_type = "local" });
}

abbrev sources : (ℕ → Bool) → Sources ℕ ℕ
sources outages = record {
  numbers = thousandths;
  marks = record { knowledge = 750; claim = 800; node = 850; near = 990 };
  codec = codec;
  outages = outages;
  embed = λ text. some 1;
  embed_batch = λ texts. none;
  cosine = λ v w. some 600;
  has_norm = λ v. true;
  fresh_uuid = λ s. "new";
  created_at = λ uuid. 0;
  score_3dim = λ uuid hits. some hits;
  format_entries = λ entries. some "text";
  search_falkordb = λ content v uuid. some ([], []);
  search_hybrid = λ content. some (
      (
        record { uuid = "k1"; content = "Ann bakes."; knowledge_type = "fact"; embedding = none },
        some 700,
      )
      ∷ []);
  search_episodes = λ content. none;
  search_with_embedding = λ v. none;
  has_ontology_store = true;
  hydrate_ontology = true;
  search_nodes = λ v. some (
      (
        record { uuid = "n1"; display_name = "Ann"; summary = "Ann is a baker."; embedding = none },
        none,
      )
      ∷ []);
  has_causal_store = true;
  search_claims = λ v. some (record { uuid = "c1"; text = "rain"; score = none } ∷ []);
}

abbrev service : Service
service = record {
  server = record {
    connected = true;
    sessions = ("s", ("u", "old") ∷ []) ∷ ("t", []) ∷ [];
    commands = 0;
  };
  tasks = [];
}

abbrev request : Bool → Request
request read_only = record {
  session_id = "s";
  content = "Ann met Bob.";
  metadata = [];
  read_only = read_only;
  minimal = false;
  top_k = 10;
  parent_session_id = none;
}

abbrev found : Dict (ContextEntry ℕ)
found =
    ("u", record { content = "old"; source_type = "local"; rank = some 600 })
    ∷ ("onto_n1", record { content = "seen"; source_type = "local"; rank = some 500 })
    ∷ []

found-Distinct : Distinct (keys found)
unfolding contains
found-Distinct = (refl, (refl, tt))

observe_core_inner-read_only_example :
    let ran = observe_core_inner (sources (λ k. eqb k 0)) (request true) service in
    (ran.0.server.sessions ≡ service.server.sessions)
    × (works ran.0.tasks ≡ works [])
    × ((false ≡ false) ⊎ (ran.0.tasks ≡ []))
observe_core_inner-read_only_example =
    observe_core_inner-read_only (sources (λ k. eqb k 0)) (request true) service refl

augment-Extends_example :
    let o = sources (λ k. false) in
    let more = augment o "Ann met Bob." (some 1) (warm_claims o 1 (warm_nodes o true 1 found)) in
    let shown = (make_answer o (request true) "" false more).entries in
    Distinct (keys more)
    × All (λ e. lookup e.0 more ≡ some e.1) found
    × (length shown ≤ 30)
    × Distinct (keys shown)
    × All (λ e. lookup e.0 more ≡ some e.1) shown
augment-Extends_example =
    augment-Extends (sources (λ k. false)) (request true) "" false 1 found found-Distinct

new_uuid : lookup "new" (session "s" service.server) ≡ none
unfolding session lookup
new_uuid = refl

observe_core_inner-stores_example :
    let ran = observe_core_inner (sources (λ k. false)) (request false) service in
    let before = session "s" service.server in
    (a : Observation ℕ) × (ran.1 ≡ some a)
    × (a.episode_uuid ≡ "new")
    × (works ran.0.tasks
        ≡ hydration "s" "Ann met Bob." a.episode_uuid ∷ ensure_session "s" none ∷ works [])
    × (a.is_cold ≡ eqb (length before) 0)
    × (lookup a.episode_uuid (session "s" ran.0.server)
        ≡ some (codec.dumps (local_entry (request false) 1)))
    × ((a.is_cold ≡ true)
        ⊎ ((session "s" ran.0.server
              ≡ insert a.episode_uuid (codec.dumps (local_entry (request false) 1)) before)
            × (length (session "s" ran.0.server) ≡ suc (length before))))
observe_core_inner-stores_example =
    observe_core_inner-stores (sources (λ k. false)) (request false) 1 service refl refl refl
      (λ k. refl) refl (λ uuid hits. (hits, refl)) (λ entries. ("text", refl)) new_uuid

-- The tasks of an observation that writes, the last one first.
observe_core_inner_run :
    (observe_core_inner (sources (λ k. false)) (request false) service).0.tasks
    ≡ hydration "s" "Ann met Bob." "new"
      ∷ span_end "format" false
      ∷ span_start "format"
      ∷ span_end "score_3dim" false
      ∷ span_start "score_3dim"
      ∷ span_end "session_search" false
      ∷ span_start "session_search"
      ∷ span_end "session_add" false
      ∷ span_start "session_add"
      ∷ span_end "embed" false
      ∷ span_start "embed"
      ∷ ensure_session "s" none
      ∷ []
unfolding observe_core_inner segnog.Sessions.Search.score_of
observe_core_inner_run = refl

-- Calls most of which raise.
abbrev work : Work ℕ ℕ
work = record {
  store_with_embedding = raise;
  has_extraction = true;
  extract_knowledge = pure true;
  store_knowledge = raise;
  set_extracted = pure tt;
  hebbian_reinforcement = true;
  reinforce_hebbian = λ found. raise;
  has_judge = true;
  judge_observation = raise;
}

abbrev world : Slotted
world = record { service = service; value = 1 }

background_hydrate-balanced_example :
    let o = sources (λ k. false) in
    let ran = background_hydrate o work "s" "Ann met Bob." 1 "new" none world in
    let stored = (store_raw o work "s" "Ann met Bob." 1 "new" service).0 in
    (ran.1 ≡ some tt)
    × (ran.0.value ≡ 1)
    × (((world.value ≡ 0) × (ran.0.service ≡ stored))
        ⊎ ((0 < 1) × (ran.0.service ≡ (hold_slot o work "s" "Ann met Bob." 1 "new" none stored).0)))
background_hydrate-balanced_example =
    background_hydrate-balanced (sources (λ k. false)) work "s" "Ann met Bob." 1 "new" none world
