-- ===== src/Workers/Priority.antt =====
-- `PriorityAsyncWorker.run` of workers/pipeline_worker.py over an interface of the JetStream server
-- that it fetches from.
use segnog.Prelude.{
  ℕ, suc, zero, Option, none, some, List, [], ◌∷◌, ◌++◌, ◌≡◌, refl, sym, ap, ◌∙◌, length,
}
use mathlib.Core.Path.{subst}
use mathlib.Core.List.{append-nil, append_assoc}
use segnog.Workers.{Effect, Message, process}

pub data Queue : Type 0 where
  fast normal : Queue

-- What `fetch(batch=1)` answers: messages, no message in time, or another exception.
pub data Fetched (J : Type 0) : Type 0 where
  messages : List (Message J) → Fetched J
  timed_out failed : Fetched J

-- The server with its two subscriptions: `S` is its state.
pub record Server (J S : Type 0) : Type 0 where
  pub fetch : Queue → S → S × Fetched J

abbrev pub tail : {A : Type 0} → List A → List A
tail [] = []
tail (x ∷ xs) = xs

-- A server that keeps each queue in the order of arrival and gives out its messages one by one.
pub record IsFifo {J S : Type 0} (server : Server J S) (waiting : Queue → S → List (Message J))
    : Type 0 where
  pub first :
      (q : Queue) (s : S) (m : Message J) (rest : List (Message J))
      → waiting q s ≡ m ∷ rest
      → (server.fetch q s).1 ≡ messages (m ∷ [])
  pub none_left : (q : Queue) (s : S) → waiting q s ≡ [] → (server.fetch q s).1 ≡ timed_out
  pub taken : (q : Queue) (s : S) → waiting q (server.fetch q s).0 ≡ tail (waiting q s)
  pub fast_kept : (s : S) → waiting fast (server.fetch normal s).0 ≡ waiting fast s
  pub normal_kept : (s : S) → waiting normal (server.fetch fast s).0 ≡ waiting normal s

module _ {J R S : Type 0} (server : Server J S) (fast_handler normal_handler : J → Option R) where
  -- `if msgs: await self._process_msg(msgs[0], …)`, and whether there was a message.
  pub process_first : (J → Option R) → Fetched J → Option (List (Effect J))
  process_first handler (messages (m ∷ rest)) = some (process handler m)
  process_first handler _ = none

  abbrev pub or_nothing : Option (List (Effect J)) → List (Effect J)
  or_nothing none = []
  or_nothing (some es) = es

  -- One turn of the loop: the server and what has been done go through it. A `continue` leaves the
  -- normal queue alone.
  pub turn : S × List (Effect J) → S × List (Effect J)
  unfolding process_first
  turn (s, done) =
      let (s', got) = server.fetch fast s in
      elim (process_first fast_handler got) [
        | some es ↦ (s', done ++ es)
        | none ↦
            let (s'', got') = server.fetch normal s' in
            (s'', done ++ or_nothing (process_first normal_handler got'))
      ]

  unfoldable pub turns : ℕ → S × List (Effect J) → S × List (Effect J)
  unfolding turn
  turns zero st = st
  turns (suc n) st = turns n (turn st)

  abbrev pub process_each : (J → Option R) → List (Message J) → List (Effect J)
  process_each handler [] = []
  process_each handler (m ∷ ms) = process handler m ++ process_each handler ms

  module _ (waiting : Queue → S → List (Message J)) (fifo : IsFifo server waiting) where
    turn-fast :
        (s : S) (done : List (Effect J)) (m : Message J) (rest : List (Message J))
        → waiting fast s ≡ m ∷ rest
        → turn (s, done) ≡ ((server.fetch fast s).0, done ++ process fast_handler m)
    unfolding turn process_first
    turn-fast s done m rest h = rw (fifo.first fast s m rest h, turn) refl

    turn-normal :
        (s : S) (done : List (Effect J)) (m : Message J) (rest : List (Message J))
        → waiting fast s ≡ []
        → waiting normal s ≡ m ∷ rest
        → turn (s, done)
          ≡ ((server.fetch normal (server.fetch fast s).0).0, done ++ process normal_handler m)
    unfolding turn process_first
    turn-normal s done m rest h k =
        rw
          (
            fifo.none_left fast s h,
            fifo.first normal (server.fetch fast s).0 m rest (fifo.normal_kept s ∙ k),
            turn,
          )
          refl

    -- After `done`, the fast messages were processed, and then the normal ones, and none is left.
    abbrev pub IsDrained :
        List (Effect J) → List (Message J) → List (Message J) → S × List (Effect J) → Type 0
    IsDrained done fasts normals st =
        (st.1 ≡ done ++ (process_each fast_handler fasts ++ process_each normal_handler normals))
        × (waiting fast st.0 ≡ [])
        × (waiting normal st.0 ≡ [])

    turns-IsDrained :
        (fasts normals : List (Message J)) (s : S) (done : List (Effect J))
        → waiting fast s ≡ fasts
        → waiting normal s ≡ normals
        → IsDrained done fasts normals (turns (length (fasts ++ normals)) (s, done))
    unfolding turns
    turns-IsDrained [] [] s done h k = (sym (append-nil done), h, k)
    turns-IsDrained (m ∷ fasts) normals s done h k =
        let s' = (server.fetch fast s).0 in
        let done' = done ++ process fast_handler m in
        let (effects, no_fast, no_normal) =
          turns-IsDrained fasts normals s' done' (fifo.taken fast s ∙ ap tail h)
            (fifo.normal_kept s ∙ k) in
        subst (λ st. IsDrained done (m ∷ fasts) normals (turns (length (fasts ++ normals)) st))
          (sym (turn-fast s done m fasts h)) (effects ∙ simp append_assoc, no_fast, no_normal)
    turns-IsDrained [] (m ∷ normals) s done h k =
        let s' = (server.fetch fast s).0 in
        let s'' = (server.fetch normal s').0 in
        let done' = done ++ process normal_handler m in
        let (effects, no_fast, no_normal) =
          turns-IsDrained [] normals s'' done' (fifo.fast_kept s' ∙ fifo.taken fast s ∙ ap tail h)
            (fifo.taken normal s' ∙ ap tail (fifo.normal_kept s ∙ k)) in
        subst (λ st. IsDrained done [] (m ∷ normals) (turns (length normals) st))
          (sym (turn-normal s done m normals h k)) (effects ∙ simp append_assoc, no_fast, no_normal)

    -- With no message arriving or coming back meanwhile, the loop empties both queues in as many
    -- turns as they have messages: it processes each once, those of the fast queue in order and then
    -- those of the normal queue in order.
    pub turns_lem :
        (s : S)
        → IsDrained []
            (waiting fast s)
            (waiting normal s)
            (turns (length (waiting fast s ++ waiting normal s)) (s, []))
    turns_lem s = turns-IsDrained (waiting fast s) (waiting normal s) s [] refl refl

    -- While the fast queue has a message, a turn takes none of the normal queue, whatever that holds.
    pub turn_lem :
        (s : S) (done : List (Effect J)) (m : Message J) (rest : List (Message J))
        → waiting fast s ≡ m ∷ rest
        → ((turn (s, done)).1 ≡ done ++ process fast_handler m)
          × (waiting normal (turn (s, done)).0 ≡ waiting normal s)
    turn_lem s done m rest h = rw (turn-fast s done m rest h) (refl, fifo.normal_kept s)
