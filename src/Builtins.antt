-- ===== src/Builtins.antt =====
-- filter/filter.go and transform/transform.go: the built-in filters and transforms. A regular
-- expression is any test of texts, and the test for a prefix, which the code writes with slices, an
-- argument, as is the value that the current time has in a row.
mod Tests
use laredo.Common.{
  ℕ, String, Bool, false, Option, none, some, List, [], ◌∷◌, Assoc, get, put, comparable_string,
}
use laredo.Types.{Value, null, text, other, Row, get_value, without, same_value}

-- `FieldEquals`
pub record FieldEquals : Type 0 where
  pub field : String
  pub value : Value

-- `FieldPrefix`
pub record FieldPrefix : Type 0 where
  pub field : String
  pub prefix : String

-- `FieldRegex`
pub record FieldRegex : Type 0 where
  pub field : String
  pub pattern : String → Bool

-- `==` on values that are not texts is an argument.
unfoldable pub include_equals : (ℕ → ℕ → Bool) → FieldEquals → Row → Bool
unfolding same_value
include_equals same f row = same_value same (get_value row f.field) f.value

-- the test of a field that holds a text
unfoldable pub include_text : String → (String → Bool) → Row → Bool
include_text field passes row = elim (get_value row field) [
  | null ↦ false
  | text s ↦ passes s
  | other n ↦ false
]

unfoldable pub include_prefix : (String → String → Bool) → FieldPrefix → Row → Bool
unfolding include_text
include_prefix has_prefix f row = include_text f.field (λ s. has_prefix s f.prefix) row

unfoldable pub include_regex : FieldRegex → Row → Bool
unfolding include_text
include_regex f row = include_text f.field f.pattern row

-- `DropFields.Transform`
unfoldable pub drop_fields : List String → Row → Row
unfolding without
drop_fields fields row = without row fields

-- the loop of `RenameFields.Transform`, in the order of one iteration of the row
unfoldable pub rename_each : Assoc String String → Row → Row → Row
rename_each mapping out [] = out
rename_each mapping out ((k, v) ∷ row) = elim (get mapping k) [
  | none ↦ rename_each mapping (put out k v) row
  | some name ↦ rename_each mapping (put out name v) row
]

unfoldable pub rename_fields : Assoc String String → Row → Row
unfolding rename_each
rename_fields mapping row = rename_each mapping [] row

-- `AddTimestamp.Transform`
unfoldable pub add_timestamp : String → Value → Row → Row
add_timestamp field now row = put row field now
