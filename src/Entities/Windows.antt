-- ===== src/Entities/Windows.antt =====
-- The windows of the pass over several episodes (intelligence/graph/ontology_pipeline.py).
use segnog.Prelude.{
  ℕ, zero, suc, ◌≤◌, String, true, false, Option, none, some, List, [], ◌∷◌, ◌++◌, ◌≡◌, refl, ap,
  ◌∙◌, ◌⊎◌, inl, inr, take, length, length-take-le, All, ltb, leb, eqb, Bool-cases, arith,
  if◌then◌else◌,
}
use segnog.Exec.{Exec, pure, branch, continue, ◌>>=◌}
use segnog.Entities.{Kg, Services}
use segnog.Entities.Pipeline.{
  EpisodeText, Extraction, drop, windows, windows_loop, batch_content, per_window, all_windows,
}

abbrev pub flatten : {A : Type 0} → List (List A) → List A
flatten [] = []
flatten (l ∷ ls) = l ++ flatten ls

module _ {A : Type 0} where
  -- All of the list, or all but its last entry.
  abbrev pub CoversMost : List (List A) → List A → Type 0
  CoversMost ls xs = (flatten ls ≡ xs) ⊎ ((last : A) × (flatten ls ++ last ∷ [] ≡ xs))

  take-drop : (n : ℕ) (xs : List A) → take n xs ++ drop n xs ≡ xs
  take-drop zero xs = refl
  take-drop (suc n) [] = refl
  take-drop (suc n) (x ∷ xs) = ap (λ l. x ∷ l) (take-drop n xs)

  drop_le : (n : ℕ) (xs : List A) → length (drop n xs) ≤ length xs
  drop_le zero xs = omega arith
  drop_le (suc n) [] = omega arith
  drop_le (suc n) (x ∷ xs) = omega (arith, drop_le n xs)

  append_assoc : (xs ys zs : List A) → (xs ++ ys) ++ zs ≡ xs ++ (ys ++ zs)
  append_assoc [] ys zs = refl
  append_assoc (x ∷ xs) ys zs = ap (λ l. x ∷ l) (append_assoc xs ys zs)

  abbrev at_least_two : List (List A) → List (List A)
  at_least_two [] = []
  at_least_two (l ∷ ls) = let rest = at_least_two ls in if ltb (length l) 2 then rest else l ∷ rest

  -- A window of two entries or more in front of windows that cover the rest.
  covers_front :
      (n : ℕ) (xs : List A) (ls : List (List A))
      → CoversMost ls (drop n xs)
      → CoversMost (take n xs ∷ ls) xs
  covers_front n xs ls (inl e) = inl (ap (λ l. take n xs ++ l) e ∙ take-drop n xs)
  covers_front n xs ls (inr (last, e)) = inr (
    last,
    append_assoc (take n xs) (flatten ls) (last ∷ []) ∙ ap (λ l. take n xs ++ l) e ∙ take-drop n xs,
  )

  windows_loop-CoversMost :
      (fuel n : ℕ) (xs : List A)
      → length xs ≤ fuel
      → CoversMost (at_least_two (windows_loop fuel (suc (suc n)) xs)) xs
  unfolding windows_loop
  windows_loop-CoversMost zero n [] few = inl refl
  windows_loop-CoversMost zero n (x ∷ xs) few = absurd (omega (arith, few))
  windows_loop-CoversMost (suc fuel) n [] few = inl refl
  windows_loop-CoversMost (suc zero) n (x ∷ []) few = inr (x, refl)
  windows_loop-CoversMost (suc (suc fuel)) n (x ∷ []) few = inr (x, refl)
  windows_loop-CoversMost (suc fuel) n (x ∷ y ∷ xs) few =
      let two : ltb (suc (suc (length (take n xs)))) 2 ≡ false = ground arith in
      rw two (
        covers_front (suc (suc n)) (x ∷ y ∷ xs)
          (at_least_two (windows_loop fuel (suc (suc n)) (drop n xs)))
          (windows_loop-CoversMost fuel n (drop n xs) (omega (arith, few, drop_le n xs))))

  windows_loop-sizes :
      (fuel n : ℕ) (xs : List A)
      → All (λ l. (2 ≤ length l) × (length l ≤ n)) (at_least_two (windows_loop fuel n xs))
  unfolding windows_loop
  windows_loop-sizes zero n xs = tt
  windows_loop-sizes (suc fuel) n [] = tt
  windows_loop-sizes (suc fuel) n (x ∷ xs) = elim (Bool-cases (ltb (length (take n (x ∷ xs))) 2)) [
    | inl e ↦ rw e (windows_loop-sizes fuel n (drop n (x ∷ xs)))
    | inr e ↦
        rw e
          ((ground arith, length-take-le n (x ∷ xs)), windows_loop-sizes fuel n (drop n (x ∷ xs)))
  ]

module _ {E F C : Type 0} (o : Services E F) (x : Extraction E F C) (group_id : String) where
  -- What each of the batches stores, one after the other.
  abbrev pub each_batch :
      (List String → String → Exec (Kg E F) (List String))
      → List String
      → List (List EpisodeText)
      → Exec (Kg E F) (List String)
  each_batch store seen [] = pure seen
  each_batch store seen (batch ∷ batches) =
      store seen (batch_content batch) >>= λ seen'. each_batch store seen' batches

  after_batch :
      (f g : List String → Exec (Kg E F) (List String)) (d : Kg E F) (r : Option (List String))
      → ((seen : List String) (d' : Kg E F) → f seen d' ≡ g seen d')
      → continue f d r ≡ continue g d r
  after_batch f g d none same = refl
  after_batch f g d (some seen) same = same seen d

  per_window-each :
      (store : List String → String → Exec (Kg E F) (List String)) (seen : List String)
      (batches : List (List EpisodeText)) (d : Kg E F)
      → per_window o x group_id store seen batches d
        ≡ each_batch store seen (at_least_two batches) d
  unfolding per_window branch ◌>>=◌
  per_window-each store seen [] d = refl
  per_window-each store seen (batch ∷ batches) d = elim (Bool-cases (ltb (length batch) 2)) [
    | inl e ↦ rw e (per_window-each store seen batches d)
    | inr e ↦ rw e (
        after_batch (λ seen'. per_window o x group_id store seen' batches)
          (λ seen'. each_batch store seen' (at_least_two batches))
          (store seen (batch_content batch) d).0 (store seen (batch_content batch) d).1
          (λ seen' d'. per_window-each store seen' batches d'))
  ]

  -- For windows of two or more and two episodes or more, the pass does what it does for one window
  -- after the other, each with at least two episodes and no more than the size says, which together
  -- are all episodes in their order, but perhaps for the last one.
  pub all_windows-CoversMost :
      (store : List String → String → Exec (Kg E F) (List String)) (seen : List String)
      (episodes : List EpisodeText) (d : Kg E F)
      → 2 ≤ x.window_size
      → 2 ≤ length episodes
      → (batches : List (List EpisodeText)) × (all_windows o x group_id store seen episodes d
          ≡ each_batch store seen batches d)
        × All (λ l. (2 ≤ length l) × (length l ≤ x.window_size)) batches
        × CoversMost batches episodes
  unfolding all_windows branch windows
  all_windows-CoversMost store seen episodes d wide several = (
    at_least_two (windows x.window_size episodes),
    run,
    windows_loop-sizes (length episodes) x.window_size episodes,
    covers x.window_size wide,
  )
    where
      run :
          all_windows o x group_id store seen episodes d
          ≡ each_batch store seen (at_least_two (windows x.window_size episodes)) d
      run =
          let more : leb 2 (length episodes) ≡ true = ground arith in
          let some_step : eqb x.window_size 0 ≡ false = ground arith in
          rw (more, some_step) (per_window-each store seen (windows x.window_size episodes) d)

      covers : (n : ℕ) → 2 ≤ n → CoversMost (at_least_two (windows n episodes)) episodes
      covers zero h = absurd (omega (arith, h))
      covers (suc zero) h = absurd (omega (arith, h))
      covers (suc (suc n)) h = windows_loop-CoversMost (length episodes) n episodes (omega arith)
