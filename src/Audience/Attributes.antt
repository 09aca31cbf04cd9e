-- ===== src/Audience/Attributes.antt =====
-- internal/audience/domain/attributes.go: the free-form data of a subscriber.
use nvelope.Platform.Apperr.{Failure, new_incorrect_input}
use nvelope.Common.Action.{ok, err}
use nvelope.Common.Action
use nvelope.Common.{
  if◌then◌else◌, Bool, String, is_empty, true, trim_space, text_eq, false, not, ◌&&◌,
}

abbrev pub Result : Type 0 → Type 0
Result A = Action.Result Failure A

-- A value of Go's `any`: a number by its literal, and `opaque` for what jsonValue refuses. A map
-- is the list of its entries.
mutual
  pub data Value : Type 0 where
    null : Value
    boolean : Bool → Value
    number : String → Value
    text : String → Value
    array : Values → Value
    object : Entries → Value
    opaque : Value

  pub data Values : Type 0 where
    no_values : Values
    value : Value → Values → Values

  pub data Entries : Type 0 where
    no_entries : Entries
    entry : String → Value → Entries → Entries

unfoldable mutual
  pub json_value : Value → Bool
  json_value null = true
  json_value (boolean b) = true
  json_value (number n) = true
  json_value (text s) = true
  json_value (array vs) = json_values vs
  json_value (object es) = json_entries es
  json_value opaque = false

  pub json_values : Values → Bool
  json_values no_values = true
  json_values (value v vs) = json_value v && json_values vs

  pub json_entries : Entries → Bool
  json_entries no_entries = true
  json_entries (entry k v es) = json_value v && json_entries es

abbrev pub Attributes : Type 0
Attributes = Entries

unfoldable pub validation_failed : String → Failure
validation_failed m = new_incorrect_input "validation_failed" m

unfoldable pub new_attributes : Entries → Result Attributes
new_attributes no_entries = ok no_entries
new_attributes (entry k v es) =
    if is_empty (trim_space k)
    then err (validation_failed "attribute keys must be non-empty")
    else if not (json_value v)
    then err (validation_failed "attribute values must be scalars, arrays, or objects")
    else Action.and_then (new_attributes es) λ rest. ok (entry k v rest)

-- Attributes.Get, as the text that ConfirmSubscription takes of it.
unfoldable pub get_text : Attributes → String → String
get_text no_entries key = ""
get_text (entry k v es) key =
    let rest = get_text es key in if text_eq k key then (elim v [ text s ↦ s | _ ↦ "" ]) else rest
