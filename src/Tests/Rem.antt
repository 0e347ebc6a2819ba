-- ===== src/Tests/Rem.antt =====
-- The theorems of Rem and Graph at a database of four episodes, with the other components as
-- functions that answer.
use Prim.Native.String.{◌++◌ as ◌+++◌}
use text.Mathlib.TextLemmas.{nil-append, cons-append}
use segnog.Prelude.{
  ℕ, suc, ◌+◌, ◌≤◌, String, true, false, Option, none, some, List, [], ◌∷◌, ◌≡◌, ◌⊎◌, refl, ap, inl,
  inr, ◌==◌, Dict, keys, lookup, contains, Distinct, All, All-map, length, map, eq_iff, eqb, arith,
  if◌then◌else◌, Bool-cases,
}
use segnog.Graph.{Episode, CoActivated, Database, Faults}
use segnog.Graph.Bounds.{IsBounded, reinforce_co_activations-IsBounded}
use segnog.Graph.Load.{reinforce_co_activations-le}
use segnog.Graph.Hebbian.{reinforce_co_activations}
use segnog.Rem.{Outside, Settings, GroupInfo}
use segnog.Rem.Discovery.{find_pending_groups}
use segnog.Rem.Consolidation.{Outcome, consolidate_group}
use segnog.Rem.Decay.{decay_hebbian_weights, decay_hebbian_weights-IsBounded}
use segnog.Rem.Cycle.{run_cycle}
use segnog.Rem.Ready.Tallies.{IsReady}
use segnog.Rem.Ready.{find_pending_groups-IsReady}
use segnog.Rem.Lifecycle.{MayStep, IsSettled, Since-refl}
use segnog.Rem.Lifecycle.Quiet.{IsQuiet}
use segnog.Rem.Lifecycle.Cycles.{run_cycle-MayStep}
use segnog.Rem.Settled.Marking.{IsUp}
use segnog.Rem.Settled.{fetched, consolidate_group-IsSettled}
use segnog.Rem.Sweeps.{run_cycle-returns}
use segnog.Curation.Trigger.{curate_events, MayConsolidate, curate_events-MayConsolidate}
use segnog.Tests.Numbers.{thousandths, thousandths-IsGrowing}

abbrev size : String → ℕ
size String.[] = 0
size (String.◌∷◌ c s) = suc (size s)

size-append : (s t : String) → size (s +++ t) ≡ size s + size t
size-append String.[] t = rw nil-append (omega arith)
size-append (String.◌∷◌ c s) t = rw cons-append (omega (arith, size-append s t))

-- A text that is longer than each of the others.
abbrev longer : List String → String
longer [] = "x"
longer (s ∷ ss) = s +++ longer ss

longer_lem :
    (ss : List String) → All (λ s. suc (size s) ≤ size (longer ss)) ss × (1 ≤ size (longer ss))
longer_lem [] = (tt, omega arith)
longer_lem (s ∷ ss) =
    let (each, some_more) = longer_lem ss in
    let sum = size-append s (longer ss) in
    (
      (
        omega (arith, some_more, sum),
        All-map (λ k. suc (size k) ≤ size (longer ss)) (λ k. suc (size k) ≤ size (longer (s ∷ ss)))
            ss (λ k h. omega (arith, h, sum)) each,
      ),
      omega (arith, some_more, sum),
    )

not_among :
    (t : String) (ss : List String) → All (λ s. suc (size s) ≤ size t) ss → contains t ss ≡ false
unfolding contains
not_among t [] h = refl
not_among t (s ∷ ss) h = elim (Bool-cases (t == s)) [
  | inl same ↦ absurd (omega (arith, h.0, ap size ((eq_iff t s).0 same)))
  | inr other ↦ rw other (not_among t ss h.1)
]

abbrev outside : Outside ℕ ℕ
outside = record {
  numbers = thousandths;
  hundredth = 10;
  similarity = λ a b. if eqb a b then 1000 else 0;
  embed = λ text. some 1;
  fresh_uuid = λ d. longer (keys d.episodes);
  run_curation = λ gid uuids text d. (d, some tt);
  fast_coverage_ontology = λ gid uuids text d. (d, some tt);
  create_about_edges_by_similarity = λ gid d. (d, some tt);
  update_group_ontology = λ gid uuids text d. (d, some tt);
}

outside-IsQuiet : IsQuiet outside
outside-IsQuiet = record {
  curation = λ gid uuids text. record { at = λ d dis. Since-refl d.episodes dis };
  coverage = λ gid uuids text. record { at = λ d dis. Since-refl d.episodes dis };
  about_edges = λ gid. record { at = λ d dis. Since-refl d.episodes dis };
  ontology = λ gid uuids text. record { at = λ d dis. Since-refl d.episodes dis };
  fresh =
      λ d. not_among (longer (keys d.episodes)) (keys d.episodes) (longer_lem (keys d.episodes)).0;
}

outside-IsUp : IsUp outside
outside-IsUp = record {
  curation = λ gid uuids text d. refl;
  coverage = λ gid uuids text d. refl;
  about_edges = λ gid d. refl;
  ontology = λ gid uuids text d. refl;
  embedding = λ text. (1, refl);
}

abbrev settings : Settings ℕ
settings = record {
  batch_size = 5;
  min_episodes = 2;
  has_ontology_store = true;
  dedup_threshold = 900;
  hebbian_enabled = true;
  decay_rate = 50;
  decay_interval = 3_600_000;
}

abbrev raw_episode : String → ℕ → Option ℕ → Episode ℕ
raw_episode status time v = record {
  group_id = "g";
  content = status;
  episode_type = "raw";
  consolidation_status = status;
  created_at = time;
  embedding = v;
  knowledge_extracted = false;
  activation_count = none;
  last_activated_at = none;
}

abbrev stored : Dict (Episode ℕ)
stored =
    ("a", raw_episode "pending" 10 (some 5))
    ∷ ("b", raw_episode "pending" 20 none)
    ∷ ("c", raw_episode "pending" 5 (some 7))
    ∷ ("d", raw_episode "consolidated" 1 (some 5))
    ∷ []

abbrev edge : ℕ → CoActivated ℕ
edge w = record {
  from = "a";
  to = "b";
  weight = w;
  co_activation_count = 1;
  created_at = 0;
  last_activated_at = 0;
}

abbrev database : Database ℕ ℕ
database = record {
  episodes = stored;
  knowledge = [];
  co_activated = edge 500 ∷ edge 10 ∷ [];
  derived_from = [];
  duplicate_of = [];
  follows = [];
  about = [];
  queries = 0;
}

abbrev group : GroupInfo
group = record { group_id = "g"; raw_count = 3; oldest_ts = 5; is_priority = true }

abbrev second_fails : Faults
second_fails k = eqb k 1

abbrev no_faults : Faults
no_faults k = false

stored-Distinct : Distinct (keys stored)
unfolding contains
stored-Distinct = (refl, (refl, (refl, (refl, tt))))

run_cycle-MayStep_example :
    (e : Episode ℕ) × (lookup "a"
        (run_cycle outside settings second_fails 0 100 200 database).0.episodes
      ≡ some e)
    × MayStep (raw_episode "pending" 10 (some 5)) e
unfolding lookup
run_cycle-MayStep_example =
    run_cycle-MayStep outside outside-IsQuiet settings second_fails 0 100 200 database
      stored-Distinct "a" (raw_episode "pending" 10 (some 5)) refl

run_cycle-returns_example :
    (t : ℕ) × ((run_cycle outside settings second_fails 30 100 200 database).1 ≡ some t)
    × ((t ≡ 100) ⊎ (t ≡ 30))
run_cycle-returns_example = run_cycle-returns outside settings second_fails 30 100 200 database

find_pending_groups-IsReady_example :
    (gs : List GroupInfo) × ((find_pending_groups no_faults 0 2 5 200 database).1 ≡ some gs)
    × (length gs ≤ 5)
    × All (IsReady 0 2 stored) gs
    × ((find_pending_groups no_faults 0 2 5 200 database).0.episodes ≡ stored)
find_pending_groups-IsReady_example = find_pending_groups-IsReady no_faults 0 2 5 200 database

consolidate_group-IsSettled_example :
    (outcome : Outcome) × ((consolidate_group outside settings no_faults group 200 database).1
      ≡ some outcome)
    × All
        (λ uuid.
          (e : Episode ℕ) × (lookup uuid
              (consolidate_group outside settings no_faults group 200 database).0.episodes
            ≡ some e)
          × IsSettled e)
        (fetched "g" database)
consolidate_group-IsSettled_example =
    consolidate_group-IsSettled outside outside-IsQuiet outside-IsUp settings no_faults group 200
      database (λ k. refl) stored-Distinct

database-IsBounded : IsBounded thousandths 100 database
database-IsBounded = record {
  counts = (omega arith, (omega arith, (omega arith, (omega arith, tt))));
  weights = ((refl, refl), ((refl, refl), tt));
  loopless = (refl, (refl, tt));
}

decay_hebbian_weights-IsBounded_example :
    IsBounded thousandths 100
      (decay_hebbian_weights outside settings second_fails 9_000_000 database).0
decay_hebbian_weights-IsBounded_example =
    decay_hebbian_weights-IsBounded outside settings thousandths-IsGrowing second_fails 100
      9_000_000 database (refl, refl) database-IsBounded

reinforce_co_activations-IsBounded_example :
    IsBounded thousandths 100
      (reinforce_co_activations thousandths second_fails "a"
        ("b" ∷ "a" ∷ "c" ∷ [])
        300
        10
        100
        50
        database).0
reinforce_co_activations-IsBounded_example =
    reinforce_co_activations-IsBounded thousandths thousandths-IsGrowing second_fails "a"
      ("b" ∷ "a" ∷ "c" ∷ []) 300 10 100 50 database (refl, refl) database-IsBounded

reinforce_co_activations-le_example :
    (length
        (reinforce_co_activations thousandths second_fails "a"
          ("b" ∷ "a" ∷ "c" ∷ [])
          300
          2
          100
          50
          database).0.co_activated
      ≤ length database.co_activated + 2)
    × ((reinforce_co_activations thousandths second_fails "a"
          ("b" ∷ "a" ∷ "c" ∷ [])
          300
          2
          100
          50
          database).0.queries
        ≤ 5)
reinforce_co_activations-le_example =
    reinforce_co_activations-le thousandths second_fails 100 50 "a" ("b" ∷ "a" ∷ "c" ∷ []) 300 2
      database

-- A cycle without faults: one duplicate, two episodes consolidated, one compressed.
statuses : Database ℕ ℕ → List String
statuses d = map (λ e. e.1.consolidation_status) d.episodes

run_cycle_run :
    statuses (run_cycle outside settings no_faults 0 100 200 database).0
    ≡ "consolidated" ∷ "duplicate" ∷ "consolidated" ∷ "consolidated" ∷ "consolidated" ∷ []
unfolding statuses run_cycle
run_cycle_run = refl

curate_events-MayConsolidate_example :
    ((curate_events outside settings second_fails "g" ("a" ∷ "b" ∷ []) 200 database).1 ≡ some tt)
    × All
        (λ row.
          (e : Episode ℕ) × (lookup row.0
              (curate_events outside settings second_fails "g"
                ("a" ∷ "b" ∷ [])
                200
                database).0.episodes
            ≡ some e)
          × MayConsolidate ("a" ∷ "b" ∷ []) row.0 row.1 e)
        database.episodes
curate_events-MayConsolidate_example =
    curate_events-MayConsolidate outside outside-IsQuiet settings second_fails "g" ("a" ∷ "b" ∷ [])
      200 database stored-Distinct

curate_events_run :
    statuses (curate_events outside settings no_faults "g" ("a" ∷ "b" ∷ []) 200 database).0
    ≡ "consolidated" ∷ "consolidated" ∷ "consolidated" ∷ "pending" ∷ "consolidated" ∷ []
unfolding statuses curate_events
curate_events_run = refl
