-- ===== src/Observe/Bounds.antt =====
-- services/observe.py: the entries of the context as they are added and cut.
use Prim.Native.String.{◌++◌ as ◌+++◌}
use segnog.Prelude.{
  ◌≤◌, String, Bool, true, false, Option, none, some, List, [], ◌∷◌, ◌≡◌, ◌==◌, ◌||◌, ◌&&◌, not,
  Dict, keys, lookup, lookup-insert, lookup_absent, lookup_entries, contains, Distinct,
  Distinct-insert, Distinct-take, Distinct-sort_by, All, All-map, All-take, All-sort_by, length,
  length-take-le, sort_by, ltb, inl, inr, Bool-cases, eq_iff, arith, if◌then◌else◌,
}
use segnog.Sessions.Hydration.{Found}
use segnog.Sessions.Batches.{Fact, Node}
use segnog.Observe.{ContextEntry, ClaimHit, Sources, Request}
use segnog.Observe.Context.{
  add_new, add_nodes, add_claims, add_episodes, add_facts, cap_entries, max_context_entries,
  node_entry, fact_entry, claim_entry, episode_entry,
}
use segnog.Observe.Paths.{or_nil, warm_nodes, warm_claims, augment, make_answer}

-- `more` has the entries of `entries`, and distinct keys.
pub record Extends {V : Type 0} (entries more : Dict V) : Type 0 where
  pub distinct : Distinct (keys more)
  pub kept : (k : String) (v : V) → lookup k entries ≡ some v → lookup k more ≡ some v

module _ {V : Type 0} where
  Extends-refl : (entries : Dict V) → Distinct (keys entries) → Extends entries entries
  Extends-refl entries dis = record { distinct = dis; kept = λ k v h. h }

  Extends-trans : (a b c : Dict V) → Extends a b → Extends b c → Extends a c
  Extends-trans a b c p q = record {
    distinct = q.distinct;
    kept = λ k v h. q.kept k v (p.kept k v h);
  }

  Extends-add_new :
      (key : String) (v : V) (entries : Dict V)
      → Distinct (keys entries)
      → Extends entries (add_new key v entries)
  unfolding add_new
  Extends-add_new key v entries dis = elim (Bool-cases (contains key (keys entries))) [
    | inl there ↦ rw there (Extends-refl entries dis)
    | inr absent ↦ rw absent (record {
      distinct = Distinct-insert key v entries dis;
      kept = λ k w h.
          ground (
            arith,
            lookup-insert key k v entries,
            lookup_absent key entries absent,
            eq_iff k key,
            h,
          );
    })
  ]

  -- A step that adds an entry or does not.
  Extends-unless :
      (skip : Bool) (key : String) (v : V) (entries : Dict V)
      → Distinct (keys entries)
      → Extends entries (if skip then entries else add_new key v entries)
  Extends-unless true key v entries dis = Extends-refl entries dis
  Extends-unless false key v entries dis = Extends-add_new key v entries dis

  Extends-if :
      (b : Bool) (entries a c : Dict V)
      → Extends entries a
      → Extends entries c
      → Extends entries (if b then a else c)
  Extends-if true entries a c p q = p
  Extends-if false entries a c p q = q

module _ {E F : Type 0} (o : Sources E F) where
  Extends-nodes :
      (hits : List (Node E × Option F)) (entries : Dict (ContextEntry F))
      → Distinct (keys entries)
      → Extends entries (add_nodes o hits entries)
  unfolding add_nodes
  Extends-nodes [] entries dis = Extends-refl entries dis
  Extends-nodes (hit ∷ hits) entries dis =
      let step =
        Extends-unless (hit.0.uuid == "" || hit.0.summary == "") ("onto_" +++ hit.0.uuid)
          (node_entry o hit) entries dis in
      Extends-trans entries _ _ step (Extends-nodes hits _ step.distinct)

  Extends-claims :
      (claims : List (ClaimHit F)) (entries : Dict (ContextEntry F))
      → Distinct (keys entries)
      → Extends entries (add_claims o claims entries)
  unfolding add_claims
  Extends-claims [] entries dis = Extends-refl entries dis
  Extends-claims (claim ∷ claims) entries dis =
      let step =
        Extends-unless (claim.uuid == "") ("causal_" +++ claim.uuid) (claim_entry o claim) entries
          dis in
      Extends-trans entries _ _ step (Extends-claims claims _ step.distinct)

  Extends-episodes :
      (eps : List (Found E F)) (entries : Dict (ContextEntry F))
      → Distinct (keys entries)
      → Extends entries (add_episodes o eps entries)
  unfolding add_episodes
  Extends-episodes [] entries dis = Extends-refl entries dis
  Extends-episodes (ep ∷ eps) entries dis =
      let step =
        Extends-unless (ep.uuid == "" || contains ep.uuid (keys entries)) ("ep_" +++ ep.uuid)
          (episode_entry o "hydrated" ep) entries dis in
      Extends-trans entries _ _ step (Extends-episodes eps _ step.distinct)

  Extends-facts :
      (hits : List (Fact E × Option F)) (entries : Dict (ContextEntry F))
      → Distinct (keys entries)
      → Extends entries (add_facts o hits entries)
  unfolding add_facts
  Extends-facts [] entries dis = Extends-refl entries dis
  Extends-facts (hit ∷ hits) entries dis =
      let step =
        Extends-unless (hit.0.uuid == "") ("kn_" +++ hit.0.uuid) (fact_entry o hit) entries dis in
      Extends-trans entries _ _ step (Extends-facts hits _ step.distinct)

  Extends-warm :
      (read_only : Bool) (v : E) (entries : Dict (ContextEntry F))
      → Distinct (keys entries)
      → Extends entries (warm_claims o v (warm_nodes o read_only v entries))
  unfolding warm_claims warm_nodes
  Extends-warm read_only v entries dis =
      let nodes =
        Extends-if (not read_only && o.has_ontology_store) entries
          (add_nodes o (or_nil (o.search_nodes v)) entries) entries
          (Extends-nodes (or_nil (o.search_nodes v)) entries dis) (Extends-refl entries dis) in
      let claims =
        Extends-if o.has_causal_store _ _ _
          (Extends-claims (or_nil (o.search_claims v)) _ nodes.distinct)
          (Extends-refl _ nodes.distinct) in
      Extends-trans entries _ _ nodes claims

  Extends-augment :
      (content : String) (v : Option E) (entries : Dict (ContextEntry F))
      → Distinct (keys entries)
      → Extends entries (augment o content v entries)
  unfolding augment
  Extends-augment content none entries dis = Extends-refl entries dis
  Extends-augment content (some v) entries dis =
      let eps = Extends-episodes (or_nil (o.search_with_embedding v)) entries dis in
      let facts = Extends-facts (or_nil (o.search_hybrid content)) _ eps.distinct in
      let nodes =
        Extends-nodes (if o.has_ontology_store then or_nil (o.search_nodes v) else []) _
          facts.distinct in
      Extends-trans entries _ _ eps (Extends-trans _ _ _ facts nodes)

  -- The cut keeps distinct keys and entries of the dictionary, and no more than it may.
  cap_entries_lem :
      (P : String × ContextEntry F → Type 0) (entries : Dict (ContextEntry F))
      → Distinct (keys entries)
      → All P entries
      → (length (cap_entries o entries) ≤ max_context_entries)
        × Distinct (keys (cap_entries o entries))
        × All P (cap_entries o entries)
  unfolding cap_entries
  cap_entries_lem P entries dis h = elim (Bool-cases (ltb max_context_entries (length entries))) [
    | inl many ↦ rw many (
      length-take-le max_context_entries (sort_by _ entries),
      Distinct-take max_context_entries (sort_by _ entries) (Distinct-sort_by _ entries dis),
      All-take P max_context_entries (sort_by _ entries) (All-sort_by P _ entries h),
    )
    | inr few ↦ rw few (ground arith, dis, h)
  ]

-- From distinct keys, the entries that the session gives are all kept unchanged by what a call adds to
-- them, on the warm path and in a call that only reads, the keys stay distinct, and the answer holds
-- at most 30 of the entries, each under its own key.
pub augment-Extends :
    {E F : Type 0} (o : Sources E F) (req : Request) (episode_uuid : String) (is_cold : Bool)
    (v : E) (entries : Dict (ContextEntry F))
    → Distinct (keys entries)
    → let more =
        augment o req.content (some v) (warm_claims o v (warm_nodes o req.read_only v entries)) in
      let shown = (make_answer o req episode_uuid is_cold more).entries in
      Distinct (keys more)
      × All (λ e. lookup e.0 more ≡ some e.1) entries
      × (length shown ≤ 30)
      × Distinct (keys shown)
      × All (λ e. lookup e.0 more ≡ some e.1) shown
unfolding make_answer
augment-Extends o req episode_uuid is_cold v entries dis =
    let warm = Extends-warm o req.read_only v entries dis in
    let more = Extends-augment o req.content (some v) _ warm.distinct in
    let all = Extends-trans entries _ _ warm more in
    let (few, single, own) = cap_entries_lem o _ _ all.distinct (lookup_entries _ all.distinct) in
    (
      all.distinct,
      All-map _ _ entries (λ e h. all.kept e.0 e.1 h) (lookup_entries entries dis),
      few,
      single,
      own,
    )
