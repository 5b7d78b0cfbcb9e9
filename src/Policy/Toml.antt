-- ===== src/Policy/Toml.antt =====
-- The values of a parsed TOML document.
use steam_cli.Prelude.{
  ℕ, suc, Bool, true, false, ◌||◌, if◌then◌else◌, String, str_eq, Option, none, some, List, [], ◌∷◌,
}

-- An integer of the document; `negative n` is -(n + 1).
pub data Integer : Type 0 where
  natural : ℕ → Integer
  negative : ℕ → Integer

-- `real_or_date` stands for floats, dates and times, which no key of a policy takes.
mutual
  pub data Value : Type 0 where
    boolean : Bool → Value
    integer : Integer → Value
    text : String → Value
    array : Items → Value
    table : Fields → Value
    real_or_date : Value

  pub data Items : Type 0 where
    no_items : Items
    item : Value → Items → Items

  pub data Fields : Type 0 where
    no_fields : Fields
    field : String → Value → Fields → Fields

-- `table.get(key)`; a document has each key once.
abbrev pub get : String → Fields → Option Value
get key no_fields = none
get key (field k v fs) = let rest = get key fs in if str_eq k key then some v else rest

abbrev pub contains : List String → String → Bool
contains [] s = false
contains (x ∷ xs) s = str_eq x s || contains xs s

-- `set(table) - names` is empty.
abbrev pub only_keys : List String → Fields → Bool
only_keys names no_fields = true
only_keys names (field k v fs) = if contains names k then only_keys names fs else false

abbrev pub count_items : Items → ℕ
count_items no_items = 0
count_items (item _ xs) = suc (count_items xs)

-- `table.get(key, {})`, and `isinstance(…, dict)`.
abbrev pub subtable : String → Fields → Option Fields
subtable key fs = elim (get key fs) [
  | none ↦ some no_fields
  | some v ↦ elim v [
    | table t ↦ some t
    | boolean _ ↦ none
    | integer _ ↦ none
    | text _ ↦ none
    | array _ ↦ none
    | real_or_date ↦ none
  ]
]
