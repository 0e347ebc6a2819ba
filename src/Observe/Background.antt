-- ===== src/Observe/Background.antt =====
-- services/observe.py: the task `background_hydrate`, with the slot that it takes. What it calls works
-- on the service, which does not hold the slot; the dictionaries that it passes on are left to them.
-- Its caller passes the flags of the pipeline, so that it does not load them itself.
use segnog.Prelude.{
  ℕ, suc, ◌-◌, ◌<◌, String, Bool, Option, none, some, List, ◌≡◌, refl, ◌⊎◌, inl, inr, ltb,
  Bool-cases, arith,
}
use segnog.Exec.{Exec, pure, from_option, attempt, branch, finally, handle, ◌>>=◌, ◌>>◌}
use segnog.Sessions.Hydration.{Found, hydrate_episodes}
use segnog.Sessions.Batches.{Fact, hydrate_knowledge}
use segnog.Sessions.Slots.{try_acquire_hydrate_slot, release_hydrate_slot}
use segnog.Observe.{Sources, Service, on_server}
use segnog.Observe.Paths.{search_and_hydrate_ontology}

-- The calls of the task, and the flags of the pipeline. `extract_knowledge` is whether the extraction
-- found any entries; it and `store_knowledge` may raise, and so may the others.
pub record Work (E F : Type 0) : Type 0 where
  pub store_with_embedding : Exec Service (Unit {0})
  pub has_extraction : Bool
  pub extract_knowledge : Exec Service Bool
  pub store_knowledge : Exec Service (Unit {0})
  pub set_extracted : Exec Service (Unit {0})
  pub hebbian_reinforcement : Bool
  pub reinforce_hebbian : List (Found E F) × List (Fact E) → Exec Service (Unit {0})
  pub has_judge : Bool
  pub judge_observation : Exec Service (Unit {0})

-- The service with the value of the semaphore.
pub record Slotted : Type 0 where
  pub service : Service
  pub value : ℕ

unfoldable pub on_service : {A : Type 0} → Exec Service A → Exec Slotted A
on_service m w = let (service', r) = m w.service in (record w { service = service' }, r)

unfoldable pub acquire : Exec Slotted Bool
unfolding try_acquire_hydrate_slot
acquire w =
    let (value', taken) = try_acquire_hydrate_slot w.value in
    (record w { value = value' }, some taken)

unfoldable pub release : Slotted → Slotted
unfolding release_hydrate_slot
release w = record w { value = release_hydrate_slot w.value }

module _ {E F : Type 0} (o : Sources E F) (k : Work E F) (session_id content : String) (v : E)
    (episode_uuid : String) where
  unfoldable pub keep_extracted : Bool → Exec Service (Unit {0})
  unfolding ◌>>=◌ pure attempt branch
  keep_extracted found =
      branch found (k.store_knowledge >> attempt k.set_extracted (pure tt)) (pure tt)

  unfoldable pub extract : Exec Service (Unit {0})
  unfolding ◌>>=◌ pure attempt branch keep_extracted
  extract =
      branch k.has_extraction (attempt (k.extract_knowledge >>= keep_extracted) (pure tt)) (pure tt)

  unfoldable pub hydrate_found :
      List (Found E F) × List (Fact E) → Exec Service (List (Found E F) × List (Fact E))
  unfolding ◌>>=◌ pure on_server hydrate_episodes hydrate_knowledge search_and_hydrate_ontology
  hydrate_found (episodes, knowledge) = do
    on_server (
        hydrate_episodes o.numbers o.marks.near o.embed o.codec o.outages session_id episode_uuid 15
          episodes)
    on_server (hydrate_knowledge o.codec o.outages session_id o.embed_batch 10 knowledge)
    on_server (search_and_hydrate_ontology o session_id v)
    pure (episodes, knowledge)

  -- What the cold start has found is taken as it is; else there is a search.
  unfoldable pub found_or_hydrated :
      Option (List (Found E F) × List (Fact E)) → Exec Service (List (Found E F) × List (Fact E))
  unfolding ◌>>=◌ pure from_option hydrate_found
  found_or_hydrated (some prefill) = pure prefill
  found_or_hydrated none = from_option (o.search_falkordb content v episode_uuid) >>= hydrate_found

  unfoldable pub hold_slot : Option (List (Found E F) × List (Fact E)) → Exec Service (Unit {0})
  unfolding ◌>>=◌ pure attempt branch extract found_or_hydrated
  hold_slot prefill = do
    extract
    found ← found_or_hydrated prefill
    branch k.hebbian_reinforcement (k.reinforce_hebbian found) (pure tt)
    branch k.has_judge (attempt k.judge_observation (pure tt)) (pure tt)

  unfoldable pub store_raw : Exec Service (Unit {0})
  unfolding attempt pure
  store_raw = attempt k.store_with_embedding (pure tt)

  unfoldable pub background_hydrate :
      Option (List (Found E F) × List (Fact E)) → Exec Slotted (Unit {0})
  unfolding ◌>>=◌ pure attempt branch finally on_service acquire release store_raw hold_slot
  background_hydrate prefill =
      attempt
        (do
          on_service store_raw
          taken ← acquire
          branch taken (finally (on_service (hold_slot prefill)) release) (pure tt))
        (pure tt)

  -- Storing the episode never raises.
  stored : (s : Service) → (store_raw s).1 ≡ some tt
  unfolding store_raw attempt pure
  stored s = handled (k.store_with_embedding s).1
    where
      handled :
          (r : Option (Unit {0})) → (handle (pure tt) (k.store_with_embedding s).0 r).1 ≡ some tt
      handled none = refl
      handled (some u) = refl

  ended : (w : Slotted) (r : Option (Unit {0})) → handle (pure tt) w r ≡ (w, some tt)
  unfolding pure
  ended w none = refl
  ended w (some u) = refl

-- Whatever its calls do, the background task ends without an exception and with the slot as free as
-- it was. If the slot was taken it has tried to store the episode and done nothing else; if it was free
-- it has gone on with the rest of its work.
pub background_hydrate-balanced :
    {E F : Type 0} (o : Sources E F) (k : Work E F) (session_id content : String) (v : E)
    (episode_uuid : String) (prefill : Option (List (Found E F) × List (Fact E))) (w : Slotted)
    → let ran = background_hydrate o k session_id content v episode_uuid prefill w in
      let stored = (store_raw o k session_id content v episode_uuid w.service).0 in
      (ran.1 ≡ some tt)
      × (ran.0.value ≡ w.value)
      × (((w.value ≡ 0) × (ran.0.service ≡ stored))
          ⊎ ((0 < w.value)
              × (ran.0.service
                  ≡ (hold_slot o k session_id content v episode_uuid prefill stored).0)))
unfolding background_hydrate attempt ◌>>=◌ on_service acquire try_acquire_hydrate_slot branch
    finally release release_hydrate_slot pure
background_hydrate-balanced o k session_id content v episode_uuid prefill w =
    let kept = (store_raw o k session_id content v episode_uuid w.service).0 in
    let work = hold_slot o k session_id content v episode_uuid prefill kept in
    elim (Bool-cases (ltb 0 w.value)) [
      | inl free ↦
          rw
            (
              stored o k session_id content v episode_uuid w.service,
              free,
              ended o k session_id content v episode_uuid
                  (record { service = work.0; value = suc (w.value - 1) }) work.1,
            )
            (refl, ground arith, inr (ground arith, refl))
      | inr taken ↦
          rw (stored o k session_id content v episode_uuid w.service, taken)
            (refl, refl, inl (ground arith, refl))
    ]
