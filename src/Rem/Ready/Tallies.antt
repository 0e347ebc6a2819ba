-- ===== src/Rem/Ready/Tallies.antt =====
-- The rows of workers/rem_worker.py's discovery query, against an independent count of each group's
-- raw pending episodes.
use segnog.Prelude.{
  ℕ, suc, ◌≤◌, String, Bool, true, Option, none, some, [], ◌∷◌, ◌≡◌, refl, sym, ap, ◌∙◌, map, inl,
  inr, ◌==◌, ◌&&◌, Dict, keys, lookup, lookup-insert, Distinct, Distinct-insert, lookup_entries,
  All, All-map, All-both, All-keep_if, All-sort_by, All-take, keep_if, keep_if_lem, length-take-le,
  sort_by, length, ltb, leb, eq_iff, if◌then◌else◌, Bool-cases, arith,
}
use segnog.Graph.{Episode}
use segnog.Rem.{GroupInfo}
use segnog.Rem.Discovery.{Tally, is_new, add_to, pending_rows, discovery_rows, group_of}

abbrev raw_of : Option Tally → ℕ
raw_of none = 0
raw_of (some t) = t.raw_count

module _ {E : Type 0} where
  -- The number of the group's episodes that are raw, pending and newer than the last sweep.
  abbrev pub count_pending : String → ℕ → Dict (Episode E) → ℕ
  count_pending gid since [] = 0
  count_pending gid since ((uuid, e) ∷ es) =
      let rest = count_pending gid since es in
      if is_new since e && gid == e.group_id then suc rest else rest

  add_to-raw : (t : Option Tally) (e : Episode E) → (add_to t e).raw_count ≡ suc (raw_of t)
  unfolding add_to
  add_to-raw none e = refl
  add_to-raw (some t) e = refl

  rows-count :
      (gid : String) (since : ℕ) (es : Dict (Episode E))
      → raw_of (lookup gid (pending_rows since es)) ≡ count_pending gid since es
  unfolding pending_rows lookup
  rows-count gid since [] = refl
  rows-count gid since ((uuid, e) ∷ es) =
      let rows = pending_rows since es in
      let new = add_to (lookup e.group_id rows) e in
      let ih = rows-count gid since es in
      elim (Bool-cases (is_new since e)) [
        | inr old ↦ rw old ih
        | inl fresh ↦
            rw (fresh, lookup-insert e.group_id gid new rows)
              (elim (Bool-cases (gid == e.group_id)) [
                | inl same ↦
                    rw
                      (
                        same,
                        add_to-raw (lookup e.group_id rows) e,
                        ← (eq_iff gid e.group_id).0 same,
                        ih,
                      )
                      refl
                | inr other ↦ rw (other, ih) refl
              ])
      ]

  Distinct-rows : (since : ℕ) (es : Dict (Episode E)) → Distinct (keys (pending_rows since es))
  unfolding pending_rows
  Distinct-rows since [] = tt
  Distinct-rows since ((uuid, e) ∷ es) = elim (Bool-cases (is_new since e)) [
    | inl fresh ↦ rw fresh (
        Distinct-insert e.group_id (add_to (lookup e.group_id (pending_rows since es)) e)
          (pending_rows since es) (Distinct-rows since es))
    | inr old ↦ rw old (Distinct-rows since es)
  ]

  abbrev pub IsCounted : ℕ → ℕ → Dict (Episode E) → String × Tally → Type 0
  IsCounted since min_episodes es row =
      (row.1.raw_count ≡ count_pending row.0 since es) × (leb min_episodes row.1.raw_count ≡ true)

  pub discovery_rows-IsCounted :
      (since min_episodes limit : ℕ) (es : Dict (Episode E))
      → All (IsCounted since min_episodes es) (discovery_rows since min_episodes limit es)
  unfolding discovery_rows
  discovery_rows-IsCounted since min_episodes limit es =
      let rows = pending_rows since es in
      let more = λ (y x : String × Tally). ltb y.1.raw_count x.1.raw_count in
      let most = λ (y x : String × Tally). ltb x.1.raw_count y.1.raw_count in
      let enough = λ (row : String × Tally). leb min_episodes row.1.raw_count in
      let counted = λ (row : String × Tally). row.1.raw_count ≡ count_pending row.0 since es in
      let found =
        All-map (λ row. lookup row.0 rows ≡ some row.1) counted rows
          (λ row h. sym (ap raw_of h) ∙ rows-count row.0 since es)
          (lookup_entries rows (Distinct-rows since es)) in
      All-take (IsCounted since min_episodes es) limit (sort_by most (keep_if enough rows)) (
        All-sort_by (IsCounted since min_episodes es) most (keep_if enough rows) (
          All-both counted (λ row. enough row ≡ true) (IsCounted since min_episodes es)
            (keep_if enough rows) (All-keep_if counted enough rows found) (keep_if_lem enough rows)
            (λ row h k. (h, k))))

  pub discovery_rows-length :
      (since min_episodes limit : ℕ) (es : Dict (Episode E))
      → length (discovery_rows since min_episodes limit es) ≤ limit
  unfolding discovery_rows
  discovery_rows-length since min_episodes limit es = length-take-le limit _

  -- At least as many raw pending episodes as the worker asks for.
  abbrev pub IsReady : ℕ → ℕ → Dict (Episode E) → GroupInfo → Type 0
  IsReady since min_episodes es g = min_episodes ≤ count_pending g.group_id since es

  pub groups-IsReady :
      (since min_episodes : ℕ) (priority : Bool) (es : Dict (Episode E)) (rows : Dict Tally)
      → All (IsCounted since min_episodes es) rows
      → All (IsReady since min_episodes es) (map (group_of priority) rows)
  unfolding group_of
  groups-IsReady since min_episodes priority es [] h = tt
  groups-IsReady since min_episodes priority es (row ∷ rows) h =
      (ground (arith, h.0), groups-IsReady since min_episodes priority es rows h.1)
