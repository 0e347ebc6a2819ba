-- ===== src/Tests/Sessions.antt =====
-- The theorems of Sessions at a server with two sessions.
use segnog.Prelude.{
  ℕ, ◌+◌, ◌≤◌, String, true, false, none, some, List, [], ◌∷◌, ◌≡◌, refl, ◌⊎◌, Dict, keys, lookup,
  contains, Distinct, All, length, eqb,
}
use segnog.Exec.{◌>>◌}
use segnog.Sessions.{Entry, Server, Codec, Outages, session, session_add, session_get_all}
use segnog.Sessions.Hydration.{Found, hydrate_episodes}
use segnog.Sessions.Batches.{Fact, Node, hydrate_knowledge, hydrate_ontology_nodes}
use segnog.Sessions.Limits.{hydrate_episodes-le}
use segnog.Sessions.Exact.{hydrate_episodes-exact}
use segnog.Sessions.Counts.{hydrations-le}
use segnog.Sessions.Trips.{session_get_all-session_add}
use segnog.Sessions.Slots.{
  Slots, free_slots, start_slots, try_acquire_hydrate_slot, enter_run, release_hydrate_slot, enter,
  stop, step, Reaches-IsExclusive,
}
use segnog.Tests.Numbers.{thousandths}

abbrev plain : String → Entry ℕ
plain content = record {
  content = content;
  embedding = some 1;
  metadata = [];
  source_type = "local";
}

-- Texts that stand for the entries with the same content.
abbrev codec : Codec ℕ
codec = record { dumps = λ e. e.content; loads = λ text. some (plain text) }

abbrev server : Server
server = record {
  connected = true;
  sessions = ("s", ("u", "old") ∷ []) ∷ ("t", []) ∷ [];
  commands = 0;
}

abbrev found_episode : String → Found ℕ ℕ
found_episode uuid = record {
  uuid = uuid;
  content = "seen";
  score = some 500;
  semantic_score = none;
  embedding = none;
  metadata = [];
  episode_type = "raw";
}

abbrev found_episodes : List (Found ℕ ℕ)
found_episodes =
    found_episode "trigger"
    ∷ found_episode "u"
    ∷ found_episode "v"
    ∷ found_episode "w"
    ∷ found_episode "x"
    ∷ []

abbrev third_fails : Outages
third_fails k = eqb k 2

hydrate_episodes-le_example :
    (k : ℕ) × ((hydrate_episodes thousandths 990
        (λ c. some 1)
        codec
        third_fails
        "s"
        "trigger"
        2
        found_episodes
        server).1
      ≡ some k)
    × (k ≤ 2)
    × (length (
          session "s"
            (hydrate_episodes thousandths 990
              (λ c. some 1)
              codec
              third_fails
              "s"
              "trigger"
              2
              found_episodes
              server).0)
        ≤ length (session "s" server) + k)
    × (lookup "trigger" (
          session "s"
            (hydrate_episodes thousandths 990
              (λ c. some 1)
              codec
              third_fails
              "s"
              "trigger"
              2
              found_episodes
              server).0)
        ≡ lookup "trigger" (session "s" server))
hydrate_episodes-le_example =
    hydrate_episodes-le thousandths 990 (λ c. some 1) codec third_fails "s" "trigger" 2
      found_episodes server

session-Distinct : Distinct (keys (session "s" server))
unfolding session lookup contains
session-Distinct = (refl, tt)

hydrate_episodes-exact_example :
    (k : ℕ) × ((hydrate_episodes thousandths 990
        (λ c. some 1)
        codec
        (λ k. false)
        "s"
        "trigger"
        2
        found_episodes
        server).1
      ≡ some k)
    × (length (
          session "s"
            (hydrate_episodes thousandths 990
              (λ c. some 1)
              codec
              (λ k. false)
              "s"
              "trigger"
              2
              found_episodes
              server).0)
        ≡ length (session "s" server) + k)
    × All
        (λ e.
          lookup e.0 (
            session "s"
              (hydrate_episodes thousandths 990
                (λ c. some 1)
                codec
                (λ k. false)
                "s"
                "trigger"
                2
                found_episodes
                server).0)
          ≡ some e.1)
        (session "s" server)
hydrate_episodes-exact_example =
    hydrate_episodes-exact thousandths 990 (λ c. some 1) codec (λ k. false) "s" "trigger" 2
      found_episodes server (λ k. refl) refl session-Distinct

hydrate_episodes_run :
    (hydrate_episodes thousandths 990
      (λ c. some 1)
      codec
      (λ k. false)
      "s"
      "trigger"
      2
      found_episodes
      server).0.sessions
    ≡ ("s", ("u", "old") ∷ ("v", "seen") ∷ ("w", "seen") ∷ []) ∷ ("t", []) ∷ []
unfolding hydrate_episodes session
hydrate_episodes_run = refl

abbrev facts : List (Fact ℕ)
facts =
    record { uuid = "f"; content = "fact"; knowledge_type = "skill"; embedding = none }
    ∷ record { uuid = ""; content = "lost"; knowledge_type = ""; embedding = some 4 }
    ∷ []

abbrev nodes : List (Node ℕ)
nodes = record { uuid = "n"; display_name = "Node"; summary = "about"; embedding = some 3 } ∷ []

hydrations-le_example :
    ((k : ℕ) × ((hydrate_knowledge codec third_fails "s" (λ cs. some (7 ∷ [])) 10 facts server).1
        ≡ some k)
      × (k ≤ 10))
    × ((k : ℕ) × ((hydrate_ontology_nodes codec third_fails "s"
            (λ cs. some (7 ∷ []))
            5
            nodes
            server).1
          ≡ some k)
        × (k ≤ 5))
hydrations-le_example =
    hydrations-le codec third_fails "s" (λ cs. some (7 ∷ [])) 10 5 facts nodes server

session_get_all-session_add_example :
    (entries : Dict (Entry ℕ)) × (((session_add codec (λ k. false) "s" "v" (plain "new")
          >> session_get_all codec (λ k. false) "s")
        server).1
      ≡ some entries)
    × (lookup "v" entries ≡ some (plain "new"))
session_get_all-session_add_example =
    session_get_all-session_add codec (λ k. false) "s" "v" (plain "new") server (λ k. refl) refl
      refl

abbrev two_runs : Slots
two_runs = enter_run "b" (enter_run "a" (free_slots 1))

Reaches-IsExclusive_example :
    (length two_runs.holders ≤ 1)
    × (two_runs.value + length two_runs.holders ≡ 1)
    × (((try_acquire_hydrate_slot two_runs.value).1 ≡ true)
        ⊎ ((try_acquire_hydrate_slot two_runs.value).1 ≡ false) × (length two_runs.holders ≡ 1))
Reaches-IsExclusive_example = Reaches-IsExclusive 1 (step (step stop (enter "a")) (enter "b"))

-- The second run is skipped, and a third takes the slot when the first has ended.
slots_run :
    enter_run "c" (record {
      value = release_hydrate_slot (enter_run "b" (enter_run "a" start_slots)).value;
      holders = [];
      skipped = (enter_run "b" (enter_run "a" start_slots)).skipped;
    })
    ≡ record { value = 0; holders = "c" ∷ []; skipped = "b" ∷ [] }
unfolding enter_run start_slots release_hydrate_slot
slots_run = refl
