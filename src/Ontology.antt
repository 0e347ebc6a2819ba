-- ===== src/Ontology.antt =====
-- ontology/schema_org.py: the parsed Schema.org vocabulary
-- (src/memory_service/ontology/schema_org.py). The dictionaries are read-only once they are
-- loaded. This file has the record types, the class hierarchy and the checks on triples;
-- names and inverses are in the modules below, and so are the proofs.
pub mod Tables
pub mod Hierarchy
pub mod Triples
pub mod Excluded
pub mod Inverses
pub mod Normalize
pub mod Json
pub mod Load
use segnog.Prelude.{
  ℕ, zero, suc, ◌+◌, String, Bool, true, false, Option, none, some, List, [], ◌∷◌, ◌++◌, ◌&&◌, ◌||◌,
  Dict, lookup, contains, length, if◌then◌else◌,
}
use segnog.Ontology.Tables.{excluded_parents}

pub record ClassInfo : Type 0 where
  pub name : String
  pub uri : String
  pub parents : List String
  pub comment : String

pub record PropertyInfo : Type 0 where
  pub name : String
  pub uri : String
  pub domain : List String
  pub range : List String
  pub inverse_of : Option String
  pub comment : String

pub record Ontology : Type 0 where
  pub classes : Dict ClassInfo
  pub properties : Dict PropertyInfo
  pub inverses : Dict String
  pub class_lower : Dict String
  pub prop_lower : Dict String

-- The parents that a visit of a class adds to the queue: none for an unknown name.
unfoldable pub parents_of : Dict ClassInfo → String → List String
unfolding lookup
parents_of classes name = elim (lookup name classes) [ none ↦ [] | some info ↦ info.parents ]

-- The links from classes to parents.
pub links : Dict ClassInfo → ℕ
links [] = 0
links ((k, info) ∷ rest) = length info.parents + links rest

-- `while queue:` of `ancestors`. The set `visited` has the members of `result`, to which every
-- class is added at the same time; one list stands for both. `none` if the fuel runs out.
pub ancestors_loop : ℕ → Dict ClassInfo → List String → List String → Option (List String)
ancestors_loop zero classes queue result = none
ancestors_loop (suc fuel) classes [] result = some result
ancestors_loop (suc fuel) classes (current ∷ queue) result =
    let skip = ancestors_loop fuel classes queue result in
    let visit =
      ancestors_loop fuel classes (queue ++ parents_of classes current) (result ++ current ∷ []) in
    if contains current result then skip else visit

abbrev pub or_empty : Option (List String) → List String
or_empty none = []
or_empty (some l) = l

-- Each link is followed once at most, and the start is taken from the queue too.
unfoldable pub ancestors : Ontology → String → List String
unfolding ancestors_loop links contains parents_of
ancestors o class_name =
    or_empty (ancestors_loop (suc (suc (links o.classes))) o.classes (class_name ∷ []) [])

unfoldable pub is_subclass_of : Ontology → String → String → Bool
unfolding ancestors
is_subclass_of o child parent = contains parent (ancestors o child)

-- `queue.extend(parents)` for a queue whose last entry is taken: the head here is the last entry
-- of the Python list.
pub extend : List String → List String → List String
extend [] stack = stack
extend (p ∷ parents) stack = extend parents (p ∷ stack)

-- `while queue:` of `_is_excluded`.
pub excluded_loop : ℕ → Dict ClassInfo → List String → List String → Option Bool
excluded_loop zero classes stack visited = none
excluded_loop (suc fuel) classes [] visited = some false
excluded_loop (suc fuel) classes (current ∷ stack) visited =
    let skip = excluded_loop fuel classes stack visited in
    let visit =
      excluded_loop fuel classes (extend (parents_of classes current) stack) (current ∷ visited) in
    if contains current visited
    then skip
    else if contains current excluded_parents
    then some true
    else visit

abbrev pub or_false : Option Bool → Bool
or_false none = false
or_false (some b) = b

unfoldable pub is_excluded : Ontology → String → Bool
unfolding excluded_loop extend links contains parents_of
is_excluded o name = or_false (excluded_loop (suc (suc (links o.classes))) o.classes (name ∷ []) [])

-- `any(d in ancestors for d in names)`
unfoldable pub any_in : List String → List String → Bool
unfolding contains
any_in names [] = false
any_in names (d ∷ ds) = contains d names || any_in names ds

-- `if names: if not any(…): return False`
pub allows : List String → List String → Bool
unfolding any_in
allows found [] = true
allows found (d ∷ ds) = any_in found (d ∷ ds)

unfoldable pub validate_triple : Ontology → String → String → String → Bool
validate_triple o subj_type predicate obj_type = elim (lookup predicate o.properties) [
  | none ↦ false
  | some prop ↦
      allows (ancestors o subj_type) prop.domain && allows (ancestors o obj_type) prop.range
]
