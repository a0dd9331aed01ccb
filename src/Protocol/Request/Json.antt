-- ===== src/Protocol/Request/Json.antt =====
-- JSON values, as serde_json hands them to the deserializers that `#[derive(Deserialize)]` makes.
use bitsafe.Prelude.{
  ℕ, Bool, true, false, ◌&&◌, ◌||◌, Option, none, some, List, [], ◌∷◌, if◌then◌else◌,
}
use bitsafe.Prelude.Texts.{Text, text_eq}

mutual
  pub data Value : Type 0 where
    null : Value
    boolean : Bool → Value
    number : ℕ → Value
    string : Text → Value
    array : Items → Value
    object : Fields → Value

  pub data Items : Type 0 where
    nil : Items
    cons : Value → Items → Items

  pub data Fields : Type 0 where
    stop : Fields
    field : Text → Value → Fields → Fields

-- The value of the first field of that name.
unfoldable pub get_field : Text → Fields → Option Value
get_field name stop = none
get_field name (field key v rest) = if text_eq key name then some v else get_field name rest

abbrev pub name_in : Text → List Text → Bool
name_in key [] = false
name_in key (name ∷ names) = text_eq key name || name_in key names

abbrev pub is_none : Option Value → Bool
is_none none = true
is_none (some v) = false

-- `deny_unknown_fields`, and serde's refusal of a field that comes twice.
unfoldable pub fields_fit : List Text → Fields → Bool
unfolding get_field
fields_fit names stop = true
fields_fit names (field key v rest) =
    name_in key names && (is_none (get_field key rest) && fields_fit names rest)

abbrev values_of : List Text → Fields → List (Option Value)
values_of [] fs = []
values_of (name ∷ names) fs = get_field name fs ∷ values_of names fs

-- An array gives the fields in their order; the ones that it lacks are absent.
unfoldable pub in_order : List Text → Items → Option (List (Option Value))
in_order [] nil = some []
in_order [] (cons v vs) = none
in_order (name ∷ names) nil = elim (in_order names nil) [
  | none ↦ none
  | some slots ↦ some (none ∷ slots)
]
in_order (name ∷ names) (cons v vs) = elim (in_order names vs) [
  | none ↦ none
  | some slots ↦ some (some v ∷ slots)
]

-- The fields of a struct, one for each name, or `none` where the value is no such struct.
unfoldable pub slots : List Text → Value → Option (List (Option Value))
unfolding fields_fit in_order get_field
slots names (object fs) = if fields_fit names fs then some (values_of names fs) else none
slots names (array vs) = in_order names vs
slots names _ = none
