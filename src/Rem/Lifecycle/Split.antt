-- ===== src/Rem/Lifecycle/Split.antt =====
-- The loop that parts duplicates from unique episodes: what it makes of its list.
use segnog.Prelude.{
  String, false, Option, none, some, List, [], ◌∷◌, ◌≡◌, refl, inl, inr, ◌⊎◌, Dict, contains,
  Distinct, All, Option-cases, eq_iff, arith, map,
}
use segnog.Exec.{pure}
use segnog.Exec.Triples.{NoRaise, Triple, Triple-pure, Triple-attempt, Triple-bind}
use segnog.Graph.{Episode, Database, Faults, run_query, ro_query}
use segnog.Rem.{Outside, Settings}
use segnog.Rem.Consolidation.{
  link_duplicate_query, find_similar_consolidated, similar_to, link_duplicate_episode,
  split_duplicates, add_part, link_if_similar, most_similar,
}
use segnog.Rem.Lifecycle.{ArePending}
use segnog.Rem.Lifecycle.Quiet.{IsStable, Triple-quiet, Triple-ro_query}

abbrev pub Parts : Type 0 → Type 0
Parts E = List String × List (String × Episode E)

module _ {E : Type 0} where
  -- Each episode goes to one of the parts, in its order.
  abbrev pub IsSplit : List (String × Episode E) → Parts E → Type 0
  IsSplit [] parts = parts ≡ ([], [])
  IsSplit (ep ∷ eps) parts =
      (rest : Parts E) × IsSplit eps rest
      × ((parts ≡ (rest.0, ep ∷ rest.1)) ⊎ (parts ≡ (ep.0 ∷ rest.0, rest.1)))

  pub split-ArePending :
      (eps : List (String × Episode E)) (parts : Parts E) (d : Dict (Episode E))
      → IsSplit eps parts
      → ArePending (map (λ ep. ep.0) eps) d
      → ArePending parts.0 d × ArePending (map (λ ep. ep.0) parts.1) d
  split-ArePending [] parts d s h = rw s (tt, tt)
  split-ArePending (ep ∷ eps) parts d (rest, s, inl e) h =
      let (hd, hu) = split-ArePending eps rest d s h.1 in rw e (hd, (h.0, hu))
  split-ArePending (ep ∷ eps) parts d (rest, s, inr e) h =
      let (hd, hu) = split-ArePending eps rest d s h.1 in rw e ((h.0, hd), hu)

  absent :
      (k : String) (eps : List (String × Episode E)) (parts : Parts E)
      → IsSplit eps parts
      → contains k (map (λ ep. ep.0) eps) ≡ false
      → (contains k parts.0 ≡ false) × (contains k (map (λ ep. ep.0) parts.1) ≡ false)
  unfolding contains
  absent k [] parts s h = rw s (refl, refl)
  absent k (ep ∷ eps) parts (rest, s, inl e) h =
      let (hd, hu) = absent k eps rest s (ground arith) in rw e (hd, ground arith)
  absent k (ep ∷ eps) parts (rest, s, inr e) h =
      let (hd, hu) = absent k eps rest s (ground arith) in rw e (ground arith, hu)

  -- No unique episode is one of the duplicates.
  pub split-disjoint :
      (eps : List (String × Episode E)) (parts : Parts E)
      → IsSplit eps parts
      → Distinct (map (λ ep. ep.0) eps)
      → All (λ u. contains u parts.0 ≡ false) (map (λ ep. ep.0) parts.1)
  unfolding contains
  split-disjoint [] parts s h = rw s tt
  split-disjoint (ep ∷ eps) parts (rest, s, inl e) h =
      rw e ((absent ep.0 eps rest s h.0).0, split-disjoint eps rest s h.1)
  split-disjoint (ep ∷ eps) parts (rest, s, inr e) h = rw e (
      others rest.0 (map (λ ep. ep.0) rest.1) (absent ep.0 eps rest s h.0).1
        (split-disjoint eps rest s h.1))
    where
      others :
          (ds us : List String)
          → contains ep.0 us ≡ false
          → All (λ u. contains u ds ≡ false) us
          → All (λ u. contains u (ep.0 ∷ ds) ≡ false) us
      others ds [] hn ha = tt
      others ds (u ∷ us) hn ha =
          (ground (arith, eq_iff u ep.0, eq_iff ep.0 u), others ds us (ground arith) ha.1)

add_part_cases :
    {E : Type 0} (ep : String × Episode E) (similar : Option String) (rest : Parts E)
    → (add_part ep similar rest ≡ (rest.0, ep ∷ rest.1))
      ⊎ (add_part ep similar rest ≡ (ep.0 ∷ rest.0, rest.1))
unfolding add_part
add_part_cases ep none rest = inl refl
add_part_cases ep (some original) rest = inr refl

module _ {E F : Type 0} {P : Database E F → Type 0} (st : IsStable P) (o : Outside E F)
    (cfg : Settings F) (faults : Faults) where
  Triple-similar_to :
      (gid : String) (e : Episode E) → Triple P (similar_to o cfg faults gid e) (λ _. P) NoRaise
  unfolding similar_to find_similar_consolidated
  Triple-similar_to gid e = elim (Option-cases e.embedding) [
    | inr missing ↦ rw missing (Triple-pure none (λ d h. h))
    | inl (v, present) ↦ rw present (
        Triple-attempt (ro_query faults (most_similar o cfg gid v)) (pure none) P
          (Triple-ro_query st faults (most_similar o cfg gid v)) (Triple-pure none (λ d h. h)))
  ]

  Triple-link_duplicate_episode :
      (dup original : String)
      → Triple P (link_duplicate_episode {E = E} {F = F} faults dup original) (λ _. P) NoRaise
  unfolding link_duplicate_episode link_duplicate_query
  Triple-link_duplicate_episode dup original =
      Triple-attempt (run_query faults (link_duplicate_query dup original)) (pure tt) P
        (Triple-quiet st faults (link_duplicate_query dup original) (λ d. ground arith))
        (Triple-pure tt (λ d h. h))

  Triple-link_if_similar :
      (dup : String) (similar : Option String)
      → Triple P (link_if_similar o cfg faults dup similar) (λ _. P) NoRaise
  unfolding link_if_similar
  Triple-link_if_similar dup none = Triple-pure tt (λ d h. h)
  Triple-link_if_similar dup (some original) = Triple-link_duplicate_episode dup original

  -- The loop keeps what is stable, also where it raises.
  pub Triple-split_duplicates :
      (gid : String) (eps : List (String × Episode E))
      → Triple P
          (split_duplicates o cfg faults gid eps)
          (λ parts d. P d × IsSplit eps parts)
          NoRaise
  unfolding split_duplicates
  Triple-split_duplicates gid [] = Triple-pure ([], []) (λ d h. (h, refl))
  Triple-split_duplicates gid (ep ∷ eps) =
      Triple-bind (similar_to o cfg faults gid ep.1) _ (λ _. P) (Triple-similar_to gid ep.1)
        λ similar.
          Triple-bind (link_if_similar o cfg faults ep.0 similar) _ (λ _. P)
            (Triple-link_if_similar ep.0 similar)
            λ _.
              Triple-bind (split_duplicates o cfg faults gid eps) _
                (λ rest d. P d × IsSplit eps rest) (Triple-split_duplicates gid eps)
                λ rest.
                  Triple-pure (add_part ep similar rest)
                    (λ d h. (h.0, (rest, h.1, add_part_cases ep similar rest)))
