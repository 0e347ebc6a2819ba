-- ===== src/Tests/Memory.antt =====
-- The theorems of Memory with texts and dictionaries that stand for their "value".
use Prim.Native.Char.{code}
use segnog.Prelude.{
  String, Bool, true, false, Option, none, some, List, [], ◌∷◌, ◌≡◌, refl, inl, inr, All, eqb,
  if◌then◌else◌,
}
use segnog.Memory.{Values, Event, Store, get}
use segnog.Memory.Trips.{IsJson}
use segnog.Memory.Refines.Views.{Op, put, drop, run_ops, view, replay, IsStorable}
use segnog.Memory.Refines.{get_refines}

data Value : Type 0 where
  word : String → Value
  dict : String → Value

-- A text begins with a "t", a dictionary with a "d".
abbrev dumps : Value → String
dumps (word s) = String.◌∷◌ "t" s
dumps (dict s) = String.◌∷◌ "d" s

abbrev loads : String → Option Value
loads String.[] = none
loads (String.◌∷◌ c s) =
    if eqb (code c) b't' then some (word s) else (if eqb (code c) b'd' then some (dict s) else none)

abbrev as_text : Value → Option String
as_text (word s) = some s
as_text (dict s) = none

abbrev is_dict : Value → Bool
is_dict (word s) = false
is_dict (dict s) = true

abbrev value_of : Value → Option Value
value_of (word s) = none
value_of (dict s) = some (word s)

abbrev values : Values Value
values = record {
  text = λ s. word s;
  as_text = as_text;
  str = dumps;
  is_container = is_dict;
  is_dict = is_dict;
  wrap = λ s t. dict s;
  value_of = value_of;
  dumps = dumps;
  loads = loads;
  event_data = λ v. v;
  list_of = λ es. word "events";
}

trip : (v : Value) → loads (dumps v) ≡ some v
trip (word s) = refl
trip (dict s) = refl

values-IsJson : IsJson values
values-IsJson = record {
  trip = trip;
  text_text = λ s. refl;
  wrap_text = λ s t. refl;
  wrap_dict = λ s t. refl;
  wrap_value = λ s t. refl;
}

abbrev event : String → Event Value
event t = record { event_id = "e"; event_type = t; timestamp = 1; content = word "x" }

abbrev store : Store Value
store = record {
  connected = true;
  state = ("state:a", "tx") ∷ [];
  events = event "plan" ∷ event "act" ∷ event "plan" ∷ [];
  memory = [];
  commands = 0;
}

abbrev calls : List (Op Value)
calls =
    put "state:a" (dict "1")
    ∷ put "note" (word "hello")
    ∷ put "event:x" (word "seen")
    ∷ drop "state:a"
    ∷ drop "note"
    ∷ []

calls-IsStorable : All (IsStorable values) calls
calls-IsStorable = (inr refl, (inr refl, (inl refl, (tt, (tt, tt)))))

get_refines_example :
    (get values
      (λ k. false)
      (λ key. none)
      "state:a"
      (run_ops values (λ k. false) (λ key. key) "1" 5 calls store)).1
    ≡ some (replay calls (view values (λ k. false) (λ key. key) "1" 5 store) "state:a")
get_refines_example =
    get_refines values values-IsJson (λ k. false) (λ key. key) "1" 5 (λ key. none) calls "state:a"
      store (λ k. refl) refl calls-IsStorable refl
