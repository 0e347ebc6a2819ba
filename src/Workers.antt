-- ===== src/Workers.antt =====
-- workers/pipeline_worker.py: the workers that run a handler on each message of a queue
-- (src/memory_service/workers/pipeline_worker.py). An action is what it did and its value, which is
-- `none` if it raised.
pub mod Settle
pub mod Priority
use segnog.Prelude.{
  ℕ, zero, suc, String, Bool, true, false, Option, none, some, List, [], ◌∷◌, ◌++◌, ◌==◌,
  if◌then◌else◌,
}

-- What a worker does that others see. `J` is what `json.loads` gives for a message, and `ran` the
-- call of a handler on it.
pub data Effect (J : Type 0) : Type 0 where
  ran : J → Effect J
  replied : String → String → Effect J
  acked naked : Effect J

-- A message, and what happens when it is read and settled: `body` is `none` if `json.loads` raises,
-- and an empty `reply` is that of a message whose sender waits for none.
pub record Message (J : Type 0) : Type 0 where
  pub body : Option J
  pub reply : String
  pub ack_raises : Bool
  pub nak_raises : Bool

abbrev pub Action : Type 0 → Type 0 → Type 0
Action J A = List (Effect J) × Option A

infixl 5 ◌>>=◌
abbrev pub ◌>>=◌ : {J A B : Type 0} → Action J A → (A → Action J B) → Action J B
(es, none) >>= f = (es, none)
(es, some a) >>= f = (es ++ (f a).0, (f a).1)

module _ {J : Type 0} where
  -- `json.loads(msg.data.decode())`
  abbrev pub loads : Message J → Action J J
  loads m = ([], m.body)

  abbrev pub ack : Message J → Action J (Unit {0})
  ack m = if m.ack_raises then ([], none) else (acked ∷ [], some tt)

  -- `await msg.nak()`, whose exception is dropped.
  abbrev pub nak : Message J → List (Effect J)
  nak m = if m.nak_raises then [] else naked ∷ []

  -- The `except` of the three `_process` methods.
  pub or_nak : Message J → Action J (Unit {0}) → List (Effect J)
  or_nak m (es, none) = es ++ nak m
  or_nak m (es, some done) = es

-- `R` is what a handler returns.
module _ {J R : Type 0} where
  abbrev pub call : (J → Option R) → J → Action J R
  call handler payload = (ran payload ∷ [], handler payload)

  -- `AsyncWorker._process`, and `PriorityAsyncWorker._process_msg`, which differs in the log only.
  unfoldable pub process : (J → Option R) → Message J → List (Effect J)
  unfolding or_nak
  process handler m = or_nak m (loads m >>= λ payload. call handler payload >>= λ result. ack m)

  module _ (dumps : R → Option String) (publish_raises : String → String → Bool) where
    -- `nc.publish(msg.reply, json.dumps(result).encode())`, if there is a subject for the reply.
    pub send_reply : Message J → R → Action J (Unit {0})
    send_reply m result = if m.reply == "" then ([], some tt) else (elim (dumps result) [
      | none ↦ ([], none)
      | some bytes ↦
          if publish_raises m.reply bytes then ([], none) else (replied m.reply bytes ∷ [], some tt)
    ])

    -- `SyncWorker._process`
    unfoldable pub process_sync : (J → Option R) → Message J → List (Effect J)
    unfolding or_nak send_reply
    process_sync handler m = or_nak m (
        loads m >>= λ payload.
        call handler payload >>= λ result. send_reply m result >>= λ sent. ack m)
