-- ===== src/Sessions/Trips.antt =====
-- What is written to a session is read from it (storage/short_term/dragonfly.py `session_add`,
-- `session_get_all`, `session_search`).
use segnog.Prelude.{
  ℕ, suc, ◌≤◌, String, Bool, true, false, Option, some, List, [], ◌∷◌, ◌≡◌, refl, inl, inr, ◌==◌,
  Dict, lookup, insert, length, length-take-le, take, sort_by, All, All-take, All-sort_by,
  if◌then◌else◌, eq_self, Bool-cases, Option-cases, arith,
}
use segnog.Scoring.{Numbers}
use segnog.Exec.{pure, attempt, ◌>>=◌, ◌>>◌}
use segnog.Exec.Triples.{returned, Triple-pure, Triple-attempt, Triple-bind}
use segnog.Sessions.{
  Entry, Server, Codec, Outages, session, command, when_connected, hset, session_add, read_entries,
  session_get_all,
}
use segnog.Sessions.Search.{Hit, score_of, hits, session_search}
use segnog.Sessions.Limits.{Triple-command, Triple-when_connected, session-hset}

module _ {E : Type 0} (codec : Codec E) (outages : Outages) where
  lookup-read_entries :
      (uuid : String) (entry : Entry E) (d : Dict String)
      → codec.loads (codec.dumps entry) ≡ some entry
      → lookup uuid (read_entries codec outages (insert uuid (codec.dumps entry) d)) ≡ some entry
  unfolding lookup read_entries insert
  lookup-read_entries uuid entry [] trip = rw (trip, eq_self uuid) refl
  lookup-read_entries uuid entry ((j, w) ∷ d) trip = elim (Bool-cases (uuid == j)) [
    | inl same ↦ rw (same, trip, same) refl
    | inr other ↦
        let ih = lookup-read_entries uuid entry d trip in
        rw other (elim (Option-cases (codec.loads w)) [
          | inr bad ↦ rw bad ih
          | inl (e, good) ↦ rw (good, other) ih
        ])
  ]

-- If the client is connected, no command raises, and an entry's text is read as the entry again,
-- then an entry that is written to a session is among the entries that are read from it.
pub session_get_all-session_add :
    {E : Type 0} (codec : Codec E) (outages : Outages) (session_id uuid : String) (entry : Entry E)
    (s : Server)
    → ((k : ℕ) → outages k ≡ false)
    → s.connected ≡ true
    → codec.loads (codec.dumps entry) ≡ some entry
    → (entries : Dict (Entry E)) × (((session_add codec outages session_id uuid entry
            >> session_get_all codec outages session_id)
          s).1
        ≡ some entries)
      × (lookup uuid entries ≡ some entry)
unfolding ◌>>=◌ session_add session_get_all when_connected attempt command pure session hset
session_get_all-session_add codec outages session_id uuid entry s fine on trip =
    let value = codec.dumps entry in
    let s' = record s { commands = suc s.commands } in
    let stored = (hset session_id uuid value s').0 in
    (
      read_entries codec outages (session session_id stored),
      rw (on, fine s.commands, fine (suc s.commands), fine (suc (suc s.commands))) refl,
      rw (session-hset session_id uuid value s')
          (lookup-read_entries codec outages uuid entry (session session_id s') trip),
    )

hits-le :
    {E F : Type 0} (n : Numbers F) (cosine : E → E → Option F) (v : E) (min_score : F)
    (entries : Dict (Entry E))
    → All (λ hit. n.le min_score hit.score ≡ true) (hits n cosine v min_score entries)
unfolding hits
hits-le n cosine v min_score [] = tt
hits-le n cosine v min_score ((uuid, entry) ∷ entries) =
    elim (Option-cases (score_of n cosine v entry)) [
      | inr missing ↦ rw (missing, hits) (hits-le n cosine v min_score entries)
      | inl (score, found) ↦ elim (Bool-cases (n.le min_score score)) [
        | inl enough ↦ rw (found, enough, hits) (enough, hits-le n cosine v min_score entries)
        | inr low ↦ rw (found, low, hits) (hits-le n cosine v min_score entries)
      ]
    ]

-- A search of a session never raises, whichever commands do: it gives no more hits than it is asked
-- for, and each scores at least the least score.
pub session_search-le :
    {E F : Type 0} (n : Numbers F) (cosine : E → E → Option F) (codec : Codec E) (outages : Outages)
    (has_norm : Bool) (session_id : String) (v : E) (top_k : ℕ) (min_score : F) (s : Server)
    → (found : List (Hit F)) × ((session_search n cosine codec outages has_norm session_id v top_k
          min_score s).1
        ≡ some found)
      × (length found ≤ top_k)
      × All (λ hit. n.le min_score hit.score ≡ true) found
unfolding session_search session_get_all
session_search-le {E = E} {F = F} n cosine codec outages has_norm session_id v top_k min_score s =
    let (found, ends, (few, good)) =
      returned {P = λ _. Unit}
        {Q = λ (found : List (Hit F)) _. (length found ≤ top_k) × All enough found}
        (session_search n cosine codec outages has_norm session_id v top_k min_score) s
        (Triple-bind (session_get_all codec outages session_id) _ (λ _ _. Unit)
          (Triple-when_connected [] _ (λ s h away. tt)
            (Triple-attempt _ (pure []) (λ _. Unit)
              (Triple-command outages (λ s. (s, read_entries codec outages (session session_id s)))
                (λ s h raises. tt) (λ s h. tt))
              (Triple-pure [] (λ s h. tt))))
          (λ entries. Triple-pure _ (λ s h. cut has_norm entries)))
        tt in
    (found, ends, few, good)
  where
    enough : Hit F → Type 0
    enough hit = n.le min_score hit.score ≡ true

    better : Hit F → Hit F → Bool
    better y x = n.lt x.score y.score

    cut :
        (norm : Bool) (entries : Dict (Entry E))
        → (length
              (if norm then take top_k (sort_by better (hits n cosine v min_score entries)) else [])
            ≤ top_k)
          × All enough
              (if norm then take top_k (sort_by better (hits n cosine v min_score entries)) else [])
    cut true entries = (
      length-take-le top_k (sort_by better (hits n cosine v min_score entries)),
      All-take enough top_k (sort_by better (hits n cosine v min_score entries)) (
          All-sort_by enough better (hits n cosine v min_score entries)
            (hits-le n cosine v min_score entries)),
    )
    cut false entries = (omega arith, tt)
