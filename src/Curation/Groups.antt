-- ===== src/Curation/Groups.antt =====
-- The accumulator of workers/curation_worker.py: what each operation does to every group.
use segnog.Prelude.{
  ℕ, String, Option, none, some, List, [], ◌∷◌, ◌++◌, ◌≡◌, refl, inl, inr, ◌==◌, keys, lookup,
  lookup-insert, lookup-remove, contains-insert, contains-remove, lookup_present, contains,
  Distinct, Distinct-insert, Distinct-remove, Bool-cases, Option-cases, arith, eq_iff,
  if◌then◌else◌,
}
use segnog.Curation.{Event, Accumulator, pending, is_pending_raw, append_event, add, pop_group}

pub pending-append_event :
    (e : Event) (now : ℕ) (a : Accumulator) (g : String)
    → pending (append_event e now a) g
      ≡ (if g == e.group_id then pending a g ++ e ∷ [] else pending a g)
unfolding pending append_event
pending-append_event e now a g = ground (
  arith,
  lookup-insert e.group_id g (pending a e.group_id ++ e ∷ []) a.groups,
  eq_iff g e.group_id,
)

pub append_nil : {A : Type 0} (xs : List A) → xs ≡ xs ++ []
append_nil [] = refl
append_nil (x ∷ xs) = ground (arith, append_nil xs)

pub append_assoc : {A : Type 0} (xs ys zs : List A) → (xs ++ ys) ++ zs ≡ xs ++ (ys ++ zs)
append_assoc [] ys zs = refl
append_assoc (x ∷ xs) ys zs = ground (arith, append_assoc xs ys zs)

-- The events that `add` takes from a message.
abbrev pub accepted : Option Event → List Event
accepted none = []
accepted (some e) = if is_pending_raw e then e ∷ [] else []

-- The events of a group, in order.
unfoldable pub of_group : String → List Event → List Event
of_group g [] = []
of_group g (e ∷ events) = let rest = of_group g events in if g == e.group_id then e ∷ rest else rest

pub of_group-append :
    (g : String) (xs ys : List Event) → of_group g (xs ++ ys) ≡ of_group g xs ++ of_group g ys
unfolding of_group
of_group-append g [] ys = refl
of_group-append g (e ∷ xs) ys = ground (arith, of_group-append g xs ys)

-- `add` appends what it accepts to the event's group, and touches no other group.
pub pending-add :
    (o : Option Event) (now : ℕ) (a : Accumulator) (g : String)
    → pending (add o now a).0 g ≡ pending a g ++ of_group g (accepted o)
unfolding add of_group
pending-add none now a g = append_nil (pending a g)
pending-add (some e) now a g = elim (Bool-cases (is_pending_raw e)) [
  | inl fits ↦ rw fits (
      ground (arith, pending-append_event e now a g, append_nil (pending a g), eq_iff g e.group_id))
  | inr other ↦ rw other (append_nil (pending a g))
]

pub pending-pop_group :
    (g : String) (a : Accumulator) (j : String)
    → pending (pop_group g a).0 j ≡ (if j == g then [] else pending a j)
unfolding pending pop_group
pending-pop_group g a j = ground (arith, lookup-remove g j a.groups)

-- Every group that is kept has the time of its first event, and only those.
pub record IsTimed (a : Accumulator) : Type 0 where
  pub distinct : Distinct (keys a.first_seen)
  pub same : (g : String) → contains g (keys a.groups) ≡ contains g (keys a.first_seen)

append_event-IsTimed :
    (e : Event) (now : ℕ) (a : Accumulator) → IsTimed a → IsTimed (append_event e now a)
unfolding append_event
append_event-IsTimed e now a t = elim (Option-cases (lookup e.group_id a.first_seen)) [
  | inl (first, seen) ↦ rw seen (record {
    distinct = t.distinct;
    same = λ j. ground (
      arith,
      contains-insert e.group_id j (pending a e.group_id ++ e ∷ []) a.groups,
      t.same j,
      lookup_present e.group_id first a.first_seen seen,
      eq_iff j e.group_id,
    );
  })
  | inr unseen ↦ rw unseen (record {
    distinct = Distinct-insert e.group_id now a.first_seen t.distinct;
    same = λ j. ground (
      arith,
      contains-insert e.group_id j (pending a e.group_id ++ e ∷ []) a.groups,
      t.same j,
      contains-insert e.group_id j now a.first_seen,
    );
  })
]

pub add-IsTimed :
    (o : Option Event) (now : ℕ) (a : Accumulator) → IsTimed a → IsTimed (add o now a).0
unfolding add
add-IsTimed none now a t = t
add-IsTimed (some e) now a t = elim (Bool-cases (is_pending_raw e)) [
  | inl fits ↦ rw fits (append_event-IsTimed e now a t)
  | inr other ↦ rw other t
]

pub pop_group-IsTimed : (g : String) (a : Accumulator) → IsTimed a → IsTimed (pop_group g a).0
unfolding pop_group
pop_group-IsTimed g a t = record {
  distinct = Distinct-remove g a.first_seen t.distinct;
  same =
      λ j. ground (arith, contains-remove g j a.groups, contains-remove g j a.first_seen, t.same j);
}
