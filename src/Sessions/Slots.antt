-- ===== src/Sessions/Slots.antt =====
-- The slot of services/observe.py for the background hydration: the semaphore's value, and the runs
-- of `background_hydrate` between the attempt to take the slot and the `finally` that gives it
-- back. Between two awaits a run is not interrupted, so a step is what a run does with the slot.
use segnog.Prelude.{
  ℕ, suc, ◌+◌, ◌-◌, ◌≤◌, String, Bool, true, false, List, [], ◌∷◌, ◌++◌, ◌≡◌, refl, length,
  length-append, ltb, if◌then◌else◌, Bool-cases, inl, inr, ◌⊎◌, arith,
}

-- `_try_acquire_hydrate_slot` on the semaphore's value: the value then, and whether it was taken.
unfoldable pub try_acquire_hydrate_slot : ℕ → ℕ × Bool
try_acquire_hydrate_slot value = if ltb 0 value then (value - 1, true) else (value, false)

unfoldable pub release_hydrate_slot : ℕ → ℕ
release_hydrate_slot value = suc value

-- The semaphore's value, the episodes whose runs hold the slot, and those whose runs were skipped.
pub record Slots : Type 0 where
  pub value : ℕ
  pub holders : List String
  pub skipped : List String

-- `asyncio.Semaphore(value)`, which no run holds yet
unfoldable pub free_slots : ℕ → Slots
free_slots value = record { value = value; holders = []; skipped = [] }

-- `asyncio.Semaphore(1)`
unfoldable pub start_slots : Slots
unfolding free_slots
start_slots = free_slots 1

-- A run comes to the slot: it takes it, or returns.
unfoldable pub enter_run : String → Slots → Slots
unfolding try_acquire_hydrate_slot
enter_run episode_uuid s =
    let (value', taken) = try_acquire_hydrate_slot s.value in
    if taken
    then record s { value = value'; holders = episode_uuid ∷ s.holders }
    else record s { value = value'; skipped = episode_uuid ∷ s.skipped }

-- What may happen next: a run comes to the slot, or one that holds it ends, in whatever way.
pub data Step : Slots → Slots → Type 0 where
  enter : (episode_uuid : String) {s : Slots} → Step s (enter_run episode_uuid s)
  leave :
      (before : List String) (episode_uuid : String) (after : List String) {value : ℕ}
      {skipped : List String}
      → Step
          (record { value = value; holders = before ++ episode_uuid ∷ after; skipped = skipped })
          (record {
            value = release_hydrate_slot value;
            holders = before ++ after;
            skipped = skipped;
          })

pub data Reaches : Slots → Slots → Type 0 where
  stop : {s : Slots} → Reaches s s
  step : {s t u : Slots} → Reaches s t → Step t u → Reaches s u

abbrev IsBalanced : ℕ → Slots → Type 0
IsBalanced capacity s = s.value + length s.holders ≡ capacity

Step-IsBalanced :
    {capacity : ℕ} {s t : Slots} → Step s t → IsBalanced capacity s → IsBalanced capacity t
unfolding enter_run try_acquire_hydrate_slot release_hydrate_slot
Step-IsBalanced (enter u {s}) h = elim (Bool-cases (ltb 0 s.value)) [
  | inl free ↦ rw free (ground arith)
  | inr taken ↦ rw taken h
]
Step-IsBalanced (leave before u after) h =
    omega (arith, h, length-append before (u ∷ after), length-append before after)

-- However many runs a semaphore is created for (the code creates it for one, where the comment
-- beside it says two), and however the runs interleave and end, at most that many of them hold the
-- slot at once, and what is free with what is held makes up the whole: a run is skipped only while
-- that many others hold it.
pub Reaches-IsExclusive :
    (capacity : ℕ) {s : Slots}
    → Reaches (free_slots capacity) s
    → (length s.holders ≤ capacity)
      × (s.value + length s.holders ≡ capacity)
      × (((try_acquire_hydrate_slot s.value).1 ≡ true)
          ⊎ ((try_acquire_hydrate_slot s.value).1 ≡ false) × (length s.holders ≡ capacity))
unfolding free_slots try_acquire_hydrate_slot
Reaches-IsExclusive capacity {s} r =
    let balanced = keeps r in
    (
      omega (arith, balanced),
      balanced,
      elim (Bool-cases (ltb 0 s.value)) [
        | inl free ↦ rw free (inl refl)
        | inr taken ↦ rw taken (inr (refl, ground (arith, balanced, taken)))
      ],
    )
  where
    keeps : {t : Slots} → Reaches (free_slots capacity) t → IsBalanced capacity t
    keeps stop = omega arith
    keeps (step r k) = Step-IsBalanced k (keeps r)
