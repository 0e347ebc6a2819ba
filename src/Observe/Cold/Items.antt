-- ===== src/Observe/Cold/Items.antt =====
-- services/observe.py: a batch of knowledge or ontology entries is added beside an entry that is in
-- the session already, on a connection on which no command fails.
use mathlib.Core.Path.{subst}
use segnog.Prelude.{
  ℕ, String, Bool, true, false, Option, none, some, List, [], ◌∷◌, ◌≡◌, ◌⊎◌, refl, inl, inr, ◌==◌,
  lookup, lookup-insert, All, eq_iff, eq_self, if◌then◌else◌, Bool-cases, Option-cases, arith,
}
use segnog.Exec.{pure, ◌>>=◌}
use segnog.Exec.Triples.{
  NoRaise, Triple, Triple-pure, Triple-attempt, Triple-bind, Triple-weaken, Triple-given,
}
use segnog.Sessions.{Entry, Server, session, command, hset, is_in, session_add, session_has}
use segnog.Sessions.Limits.{sent, session-hset, Triple-command, Triple-when_connected}
use segnog.Sessions.Batches.{
  Item, needs_embed, fill, embed_items, keep_missing, add_item, add_items,
}
use segnog.Observe.{Sources}

module _ {E F : Type 0} (o : Sources E F) (fine : (k : ℕ) → o.outages k ≡ false)
    (session_id uuid text : String) where
  -- The session has the text under the uuid.
  abbrev pub Has : Server → Type 0
  Has s = (s.connected ≡ true) × (lookup uuid (session session_id s) ≡ some text)

  -- None of the items has the uuid as its key.
  abbrev Apart : List (Item E) → Type 0
  Apart = All (λ item. (item.key == uuid) ≡ false)

  no_outage : {X : Type 0} (s : Server) → o.outages s.commands ≡ true → X
  no_outage s raises = absurd (let none_raises = fine s.commands in cc)

  is_in-apart :
      (key : String) (s : Server)
      → Has s
      → is_in key (session session_id s) ≡ false
      → (key == uuid) ≡ false
  unfolding is_in
  is_in-apart key s h missing = elim (Bool-cases (key == uuid)) [
    | inr other ↦ other
    | inl same ↦ absurd (
        let there : is_in uuid (session session_id s) ≡ true = rw (h.1, is_in) refl in
        let none_there =
          subst (λ k. is_in k (session session_id s) ≡ false) ((eq_iff key uuid).0 same) missing in
        cc)
  ]

  Triple-keep_missing :
      (items : List (Item E))
      → Triple Has
          (keep_missing o.codec o.outages session_id items)
          (λ kept s. Apart kept × Has s)
          NoRaise
  unfolding keep_missing session_has
  Triple-keep_missing [] = Triple-pure [] (λ s h. (tt, h))
  Triple-keep_missing (item ∷ items) =
      Triple-bind (session_has o.outages session_id item.key) _
        (λ there s. ((there ≡ true) ⊎ ((item.key == uuid) ≡ false)) × Has s)
        (Triple-when_connected false _ (λ s h away. let on = h.0 in cc)
          (Triple-attempt _ (pure false) NoRaise
            (Triple-command o.outages (λ s. (s, is_in item.key (session session_id s)))
              (λ s h raises. no_outage s raises)
              (λ s h. (
                elim (Bool-cases (is_in item.key (session session_id s))) [
                  | inl there ↦ inl there
                  | inr missing ↦ inr (is_in-apart item.key s h missing)
                ],
                h,
              )))
            (Triple-pure false (λ s h. absurd h))))
        (λ there.
          Triple-given _ (λ s h. h.0)
            (λ seen.
              Triple-bind (keep_missing o.codec o.outages session_id items) _
                (λ kept s. Apart kept × Has s)
                (Triple-weaken (keep_missing o.codec o.outages session_id items) (λ s h. h.1)
                  (λ a s h. h) (λ s h. h) (Triple-keep_missing items))
                (λ rest.
                  Triple-pure (if there then rest else item ∷ rest)
                    (λ s h. (kept there rest seen h.0, h.1)))))
    where
      kept :
          (there : Bool) (rest : List (Item E))
          → ((there ≡ true) ⊎ ((item.key == uuid) ≡ false))
          → Apart rest
          → Apart (if there then rest else item ∷ rest)
      kept true rest seen h = h
      kept false rest (inl impossible) h = cc
      kept false rest (inr other) h = (other, h)

  Apart-fill : (items : List (Item E)) (vs : List E) → Apart items → Apart (fill items vs)
  unfolding fill
  Apart-fill [] vs h = tt
  Apart-fill (item ∷ items) vs h = elim (Option-cases item.embedding) [
    | inl (v, e) ↦ rw e (h.0, Apart-fill items vs h.1)
    | inr e ↦ rw e (rest vs (λ ws. Apart-fill items ws h.1))
  ]
    where
      rest :
          (vs : List E)
          → ((ws : List E) → Apart (fill items ws))
          → Apart (elim vs [
            | [] ↦ item ∷ fill items []
            | w ∷ ws ↦ record item { embedding = some w } ∷ fill items ws
          ])
      rest [] ih = (h.0, ih [])
      rest (w ∷ ws) ih = (h.0, ih ws)

  Apart-embed_items :
      (items : List (Item E)) → Apart items → Apart (embed_items o.embed_batch items)
  unfolding embed_items
  Apart-embed_items items h = from (needs_embed items)
    where
      from :
          (needs : List String)
          → Apart (elim needs [
            | [] ↦ items
            | c ∷ cs ↦ elim (o.embed_batch (c ∷ cs)) [ none ↦ items | some vs ↦ fill items vs ]
          ])
      from [] = h
      from (c ∷ cs) = elim (Option-cases (o.embed_batch (c ∷ cs))) [
        | inl (vs, e) ↦ rw e (Apart-fill items vs h)
        | inr e ↦ rw e h
      ]

  Triple-add :
      (key : String) (entry : Entry E)
      → (key == uuid) ≡ false
      → Triple Has (session_add o.codec o.outages session_id key entry) (λ _. Has) NoRaise
  unfolding session_add session hset
  Triple-add key entry other =
      Triple-when_connected tt _ (λ s h away. let on = h.0 in cc)
        (Triple-attempt _ (pure tt) NoRaise
          (Triple-bind (command o.outages (hset session_id key (o.codec.dumps entry))) _ (λ _. Has)
            (Triple-command o.outages (hset session_id key (o.codec.dumps entry))
              (λ s h raises. no_outage s raises) (λ s h. (h.0, added s h)))
            (λ _.
              Triple-command o.outages (λ s. (s, tt)) (λ s h raises. no_outage s raises)
                (λ s h. h)))
          (Triple-pure tt (λ s h. absurd h)))
    where
      apart : (uuid == key) ≡ false
      apart = ground (arith, other, eq_iff uuid key, eq_self uuid)

      added :
          (s : Server)
          → Has s
          → lookup uuid (session session_id (hset session_id key (o.codec.dumps entry) (sent s)).0)
            ≡ some text
      added s h =
          rw
            (
              session-hset session_id key (o.codec.dumps entry) (sent s),
              lookup-insert key uuid (o.codec.dumps entry) (session session_id s),
              apart,
            )
            h.1

  Triple-add_items :
      (source_type : String) (items : List (Item E))
      → Apart items
      → Triple Has (add_items o.codec o.outages session_id source_type items) (λ _. Has) NoRaise
  unfolding add_items
  Triple-add_items source_type [] h = Triple-pure 0 (λ s k. k)
  Triple-add_items source_type (item ∷ items) h =
      Triple-bind (add_item o.codec o.outages session_id source_type item item.embedding) _
        (λ _. Has) (add item.embedding)
        (λ done.
          Triple-bind (add_items o.codec o.outages session_id source_type items) _ (λ _. Has)
            (Triple-add_items source_type items h.1) (λ count. Triple-pure _ (λ s k. k)))
    where
      add :
          (v : Option E)
          → Triple Has (add_item o.codec o.outages session_id source_type item v) (λ _. Has) NoRaise
      add none = Triple-pure false (λ s k. k)
      add (some v) =
          let entry : Entry E = record {
            content = item.content;
            embedding = some v;
            metadata = item.metadata;
            source_type = source_type;
          } in
          Triple-bind (session_add o.codec o.outages session_id item.key entry) _ (λ _. Has)
            (Triple-add item.key entry h.0) (λ _. Triple-pure true (λ s k. k))

  -- The entries of a batch that are missing are added beside it.
  pub Triple-batch :
      (source_type : String) (wanted : List (Item E))
      → Triple Has
          (keep_missing o.codec o.outages session_id wanted >>= λ items.
            add_items o.codec o.outages session_id source_type (embed_items o.embed_batch items))
          (λ _. Has)
          NoRaise
  Triple-batch source_type wanted =
      Triple-bind (keep_missing o.codec o.outages session_id wanted) _
        (λ kept s. Apart kept × Has s) (Triple-keep_missing wanted)
        (λ items.
          Triple-given _ (λ s h. h.0)
            (λ apart.
              Triple-weaken
                (add_items o.codec o.outages session_id source_type
                  (embed_items o.embed_batch items))
                (λ s h. h.1) (λ a s h. h) (λ s h. h)
                (Triple-add_items source_type (embed_items o.embed_batch items)
                  (Apart-embed_items items apart))))
