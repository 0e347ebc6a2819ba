-- ===== src/Entities/Summary.antt =====
-- intelligence/graph/update_ontology.py: the new summary of an entity, from a language model. `llm`
-- is `llm_call` with the system prompt of the file, which may raise.
use Prim.Native.String.{◌++◌ as ◌+++◌}
use segnog.Prelude.{
  ◌≤◌, String, Bool, false, Option, none, some, List, [], ◌∷◌, ◌≡◌, refl, ◌⊎◌, inl, inr, ◌||◌, ◌==◌,
  ltb, if◌then◌else◌, Bool-cases, arith,
}
use segnog.Entities.Texts.{size, slice, strip, includes}

abbrev pub reject_patterns : List String
reject_patterns =
    "I cannot" ∷ "I don't see" ∷ "I'm checking" ∷ "I should" ∷ "Let me" ∷ "I need to" ∷ "Action:"
    ∷ "web_search" ∷ "```" ∷ "I'll run" ∷ "Based on the context provided, I don't"
    ∷ "I cannot complete" ∷ "two required inputs" ∷ []

-- `any(p in s for p in patterns)`
unfoldable pub any_of : List String → String → Bool
unfolding includes
any_of [] s = false
any_of (p ∷ ps) s = includes p s || any_of ps s

unfoldable pub is_rejected : String → Bool
unfolding any_of
is_rejected s = any_of reject_patterns s

unfoldable pub summary_prompt : String → String → String → String → String
summary_prompt entity_name schema_type existing text =
    let before = if existing == "" then "(no existing summary)" else existing in
    "Entity: " +++ entity_name +++ " (type: " +++ schema_type +++ ")\n\nExisting summary:\n"
    +++ before +++ "\n\nNew episode text:\n" +++ text +++ "\n\nWrite the updated prose summary for "
    +++ entity_name +++ ":"

-- What is made of the model's answer.
unfoldable pub accept_summary : String → Option String → String
unfolding strip size is_rejected
accept_summary existing none = existing
accept_summary existing (some answer) =
    let updated = strip answer in
    if ltb (size updated) 10 || is_rejected updated then existing else updated

unfoldable pub update_ontology_summary :
    (String → Option String) → String → String → String → String → String
unfolding size strip slice summary_prompt accept_summary
update_ontology_summary llm entity_name schema_type existing text =
    if ltb (size (strip text)) 5
    then existing
    else accept_summary existing
        (llm (summary_prompt entity_name schema_type existing (slice 16_000 text)))

-- The summary holds none of the phrases of a model that talks about its task.
abbrev pub IsClean : String → Type 0
IsClean summary = is_rejected summary ≡ false

accept_summary-IsClean :
    (existing : String) (answer : Option String)
    → (accept_summary existing answer ≡ existing)
      ⊎ ((10 ≤ size (accept_summary existing answer)) × IsClean (accept_summary existing answer))
unfolding accept_summary
accept_summary-IsClean existing none = inl refl
accept_summary-IsClean existing (some answer) =
    elim (Bool-cases (ltb (size (strip answer)) 10 || is_rejected (strip answer))) [
      | inl e ↦ rw e (inl refl)
      | inr e ↦ rw e (inr (ground arith, ground arith))
    ]

-- The summary stays as it is, or becomes a text of ten characters or more without such a phrase.
pub update_ontology_summary-IsClean :
    (llm : String → Option String) (entity_name schema_type existing text : String)
    → let updated = update_ontology_summary llm entity_name schema_type existing text in
      (updated ≡ existing) ⊎ ((10 ≤ size updated) × IsClean updated)
unfolding update_ontology_summary
update_ontology_summary-IsClean llm entity_name schema_type existing text =
    elim (Bool-cases (ltb (size (strip text)) 5)) [
      | inl e ↦ rw e (inl refl)
      | inr e ↦ rw e (
          accept_summary-IsClean existing
            (llm (summary_prompt entity_name schema_type existing (slice 16_000 text))))
    ]
