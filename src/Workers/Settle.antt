-- ===== src/Workers/Settle.antt =====
-- What the workers of workers/pipeline_worker.py do with one message: how often it is settled, and
-- when it is acknowledged.
use segnog.Prelude.{
  ℕ, suc, String, Bool, true, false, Option, some, List, [], ◌∷◌, ◌≡◌, ◌↔◌, ◌⊎◌, inl, inr, ◌==◌,
  Bool-cases, Option-cases, arith, eq_iff,
}
use segnog.Workers.{Effect, acked, naked, Message, or_nak, process, send_reply, process_sync}

module _ {J : Type 0} where
  -- How many of the effects acknowledge or return the message.
  unfoldable pub settlements : List (Effect J) → ℕ
  settlements [] = 0
  settlements (acked ∷ es) = suc (settlements es)
  settlements (naked ∷ es) = suc (settlements es)
  settlements (_ ∷ es) = settlements es

  -- The last effect acknowledges the message.
  unfoldable pub is_acked : List (Effect J) → Bool
  is_acked [] = false
  is_acked (acked ∷ []) = true
  is_acked (_ ∷ es) = is_acked es

-- The handler returns `result` for what the message holds.
pub record Answered {J R : Type 0} (handler : J → Option R) (m : Message J) (result : R)
    : Type 0 where
  pub payload : J
  pub body : m.body ≡ some payload
  pub answer : handler payload ≡ some result

-- The sender waits for no reply, or the reply is published.
abbrev pub IsSent :
    {J R : Type 0} → (R → Option String) → (String → String → Bool) → Message J → R → Type 0
IsSent dumps publish_raises m result =
    (m.reply ≡ "")
    ⊎ ((bytes : String) × (dumps result ≡ some bytes) × (publish_raises m.reply bytes ≡ false))

module _ {J R : Type 0} (handler : J → Option R) where
  -- If `nak` does not raise, then an async worker acknowledges a message or returns it, and does
  -- one of the two once, whatever fails.
  pub settlements-process :
      (m : Message J) → m.nak_raises ≡ false → settlements (process handler m) ≡ 1
  unfolding process or_nak settlements
  settlements-process m fine = ground arith

  -- An async worker acknowledges a message exactly if it can be read, the handler returns and `ack`
  -- does not raise.
  pub process_iff :
      (m : Message J)
      → (is_acked (process handler m) ≡ true)
        ↔ ((result : R) × Answered handler m result × (m.ack_raises ≡ false))
  unfolding process or_nak is_acked
  process_iff m = (
    λ h. elim (Option-cases m.body) [
      | inr unread ↦ absurd (ground arith)
      | inl (payload, body) ↦ elim (Option-cases (handler payload)) [
        | inr failed ↦ absurd (ground arith)
        | inl (result, answer) ↦
            (result, record { payload = payload; body = body; answer = answer }, ground arith)
      ]
    ],
    λ (result, a, done). ground (arith, a.body, a.answer, done),
  )

  module _ (dumps : R → Option String) (publish_raises : String → String → Bool) where
    -- If `nak` does not raise, then a sync worker acknowledges a message or returns it, and does
    -- one of the two once, whatever fails.
    pub settlements-process_sync :
        (m : Message J)
        → m.nak_raises ≡ false
        → settlements (process_sync dumps publish_raises handler m) ≡ 1
    unfolding process_sync send_reply or_nak settlements
    settlements-process_sync m fine = ground arith

    -- A sync worker acknowledges a message exactly if it can be read, the handler returns, the reply
    -- is published or none is waited for, and `ack` does not raise.
    pub process_sync_iff :
        (m : Message J)
        → (is_acked (process_sync dumps publish_raises handler m) ≡ true) ↔ (
            (result : R) × Answered handler m result
            × IsSent dumps publish_raises m result
            × (m.ack_raises ≡ false))
    unfolding process_sync send_reply or_nak is_acked
    process_sync_iff m = (
      λ h. elim (Option-cases m.body) [
        | inr unread ↦ absurd (ground arith)
        | inl (payload, body) ↦ elim (Option-cases (handler payload)) [
          | inr failed ↦ absurd (ground arith)
          | inl (result, answer) ↦ (
            result,
            record { payload = payload; body = body; answer = answer },
            (elim (Bool-cases (m.reply == "")) [
              | inl unasked ↦ inl ((eq_iff m.reply "").0 unasked)
              | inr asked ↦ elim (Option-cases (dumps result)) [
                | inr unwritten ↦ absurd (ground arith)
                | inl (bytes, written) ↦ inr (bytes, written, ground arith)
              ]
            ]),
            ground arith,
          )
        ]
      ],
      λ (result, a, sent, done). elim sent [
        | inl unasked ↦ ground (arith, a.body, a.answer, done, eq_iff m.reply "")
        | inr (bytes, written, published) ↦ ground (arith, a.body, a.answer, done)
      ],
    )
