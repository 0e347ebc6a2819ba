-- ===== src/Sessions.antt =====
-- The sessions that storage/short_term/dragonfly.py keeps in DragonflyDB: a hash for each session,
-- from the uuid of an entry to its JSON text. Any command to the server may raise; expiry by the
-- server is left out.
pub mod Search
pub mod Hydration
pub mod Batches
pub mod Counts
pub mod Limits
pub mod Exact
pub mod Trips
pub mod Slots
use segnog.Prelude.{
  ℕ, suc, String, Bool, true, false, Option, none, some, [], ◌∷◌, Dict, lookup, insert, length,
  if◌then◌else◌,
}
use segnog.Scoring.{get_or}
use segnog.Exec.{Exec, pure, attempt, branch, ◌>>=◌, ◌>>◌}

-- An entry of a session, as the JSON text holds it; `created_at` is left to the text.
pub record Entry (E : Type 0) : Type 0 where
  pub content : String
  pub embedding : Option E
  pub metadata : Dict String
  pub source_type : String

-- The client and the server's hashes, with the number of commands that were sent.
pub record Server : Type 0 where
  pub connected : Bool
  pub sessions : Dict (Dict String)
  pub commands : ℕ

-- `json.dumps` and `json.loads` of an entry.
pub record Codec (E : Type 0) : Type 0 where
  pub dumps : Entry E → String
  pub loads : String → Option (Entry E)

-- Which commands raise, by their number.
abbrev pub Outages : Type 0
Outages = ℕ → Bool

-- The hash of a session.
unfoldable pub session : String → Server → Dict String
unfolding lookup
session session_id s = get_or (lookup session_id s.sessions) []

module _ {A : Type 0} where
  unfoldable pub command : Outages → (Server → Server × A) → Exec Server A
  command outages f s =
      let sent = record s { commands = suc s.commands } in
      if outages s.commands then (sent, none) else ((f sent).0, some (f sent).1)

  -- `if not self.connected: return …`
  unfoldable pub when_connected : A → Exec Server A → Exec Server A
  when_connected default m s = if s.connected then m s else (s, some default)

unfoldable pub hset : String → String → String → Server → Server × Unit {0}
unfolding insert session
hset session_id entry_uuid value s = (
  record s {
    sessions = insert session_id (insert entry_uuid value (session session_id s)) s.sessions;
  },
  tt,
)

module _ {E : Type 0} (codec : Codec E) (outages : Outages) where
  -- The two commands of the pipeline; an exception is logged.
  unfoldable pub session_add : String → String → Entry E → Exec Server (Unit {0})
  unfolding when_connected attempt command hset pure ◌>>=◌
  session_add session_id entry_uuid entry = when_connected tt (
      attempt
        (command outages (hset session_id entry_uuid (codec.dumps entry))
          >> command outages (λ s. (s, tt)))
        (pure tt))

  -- The entries whose text can be read.
  unfoldable pub read_entries : Dict String → Dict (Entry E)
  read_entries [] = []
  read_entries ((uuid, text) ∷ d) =
      let rest = read_entries d in
      elim (codec.loads text) [ none ↦ rest | some entry ↦ (uuid, entry) ∷ rest ]

  unfoldable pub session_get_all : String → Exec Server (Dict (Entry E))
  unfolding when_connected attempt command session read_entries pure
  session_get_all session_id =
      when_connected []
        (attempt (command outages (λ s. (s, read_entries (session session_id s)))) (pure []))

unfoldable pub is_in : String → Dict String → Bool
unfolding lookup
is_in uuid d = elim (lookup uuid d) [ none ↦ false | some v ↦ true ]

unfoldable pub session_has : Outages → String → String → Exec Server Bool
unfolding when_connected attempt command session is_in pure
session_has outages session_id entry_uuid =
    when_connected false
      (attempt (command outages (λ s. (s, is_in entry_uuid (session session_id s)))) (pure false))

unfoldable pub session_count : Outages → String → Exec Server ℕ
unfolding when_connected attempt command session pure
session_count outages session_id =
    when_connected 0 (attempt (command outages (λ s. (s, length (session session_id s)))) (pure 0))
