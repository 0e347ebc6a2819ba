-- ===== src/Engine/Payload.antt =====
-- The payload that workflows/engine.py merges for a stage: the results under their keys with the
-- suffix "_result", and the context under the rest.
use Prim.Native.Char.{code}
use Prim.Native.String.{◌++◌ as ◌+++◌}
use text.Mathlib.TextLemmas.{nil-append, cons-append, append_cancel_right}
use segnog.Prelude.{
  ℕ, String, Option, none, some, [], ◌∷◌, ◌≡◌, refl, ap, lookup, insert, keys, Distinct,
  lookup-insert, lookup_absent, eq_of_both, eq_iff, arith, ◌==◌, Bool-cases, inl, inr,
}
use segnog.Engine.{Value, Payload, add_results, merge_payload, group_id}

-- The code of a text's last character, or `d` if it is empty.
last_code : ℕ → String → ℕ
last_code d String.[] = d
last_code d (String.◌∷◌ c s) = last_code (code c) s

last_code-append : (d : ℕ) (s t : String) → last_code d (s +++ t) ≡ last_code (last_code d s) t
unfolding last_code
last_code-append d String.[] t = rw nil-append
last_code-append d (String.◌∷◌ c s) t = rw cons-append (last_code-append (code c) s t)

result_key-ne-group_id : (k : String) → ((k +++ "_result") ≡ "group_id") → ⊥
unfolding last_code
result_key-ne-group_id k e =
    let ends : last_code 0 (k +++ "_result") ≡ last_code 0 "group_id" = ap (last_code 0) e in
    omega (arith, ends, last_code-append 0 k "_result")

result_key_eq : (k j : String) → ((k +++ "_result") == (j +++ "_result")) ≡ (k == j)
result_key_eq k j =
    eq_of_both _ _ (λ h. (eq_iff k j).1 (append_cancel_right k j "_result" ((eq_iff _ _).0 h)))
      (λ h. (eq_iff _ _).1 (ap (λ s. s +++ "_result") ((eq_iff k j).0 h)))

module _ {J : Type 0} where
  -- The first of two lookups that finds something.
  abbrev pub or_else : Option (Value J) → Option (Value J) → Option (Value J)
  or_else (some v) o = some v
  or_else none o = o

  lookup-add_results :
      (k : String) (context results : Payload J)
      → Distinct (keys results)
      → lookup (k +++ "_result") (add_results context results)
        ≡ or_else (lookup k results) (lookup (k +++ "_result") context)
  unfolding add_results lookup
  lookup-add_results k context [] d = refl
  lookup-add_results k context ((i, v) ∷ rest) d = elim (Bool-cases (k == i)) [
    | inl e ↦
        let absent : lookup k rest ≡ none = lookup_absent k rest (rw ((eq_iff k i).0 e) d.0) in
        rw (
          lookup-add_results k (insert (i +++ "_result") v context) rest d.1,
          absent,
          lookup-insert,
          result_key_eq,
          e,
        )
    | inr e ↦ rw (
      lookup-add_results k (insert (i +++ "_result") v context) rest d.1,
      lookup-insert,
      result_key_eq,
      e,
    )
  ]

  group_id-add_results :
      (context results : Payload J)
      → lookup "group_id" (add_results context results) ≡ lookup "group_id" context
  unfolding add_results
  group_id-add_results context [] = refl
  group_id-add_results context ((k, v) ∷ rest) =
      rw (group_id-add_results (insert (k +++ "_result") v context) rest, lookup-insert)
        (ground (arith, eq_iff "group_id" (k +++ "_result"), result_key-ne-group_id k))

  -- A stage finds the result of a stage `k` that has one under `k` with the suffix "_result",
  -- and what the context has under that key otherwise.
  pub lookup-merge_payload :
      (k : String) (context results : Payload J)
      → Distinct (keys results)
      → lookup (k +++ "_result") (merge_payload context results)
        ≡ or_else (lookup k results) (lookup (k +++ "_result") context)
  unfolding merge_payload
  lookup-merge_payload = lookup-add_results

  -- No result takes the place of the context's group id.
  pub group_id-merge_payload :
      (context results : Payload J) → group_id (merge_payload context results) ≡ group_id context
  unfolding merge_payload group_id
  group_id-merge_payload context results =
      rw (group_id-add_results context results, merge_payload, group_id)
