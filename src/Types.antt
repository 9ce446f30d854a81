-- ===== src/Types.antt =====
-- types.go: rows, change actions, column definitions.
use laredo.Common.{
  ℕ, String, Bool, true, false, Option, none, some, List, [], ◌∷◌, Assoc, get, delete, ◌==◌,
  comparable_string,
}

-- A Go `any`: nil, a string, or a value of another type, whose representation the code leaves to
-- the runtime.
pub data Value : Type 0 where
  null : Value
  text : String → Value
  other : ℕ → Value

-- `Row`, a map from column names to values.
abbrev pub Row : Type 0
Row = Assoc String Value

-- A nil row reads as an empty one.
abbrev pub present : Option Row → Row
present none = []
present (some row) = row

-- `row[col]`: nil where the column is missing.
abbrev pub get_value : Row → String → Value
get_value r col = elim (get r col) [ none ↦ null | some v ↦ v ]

-- `Row.GetString`: empty where the key is missing or holds no string.
unfoldable pub get_string : Row → String → String
get_string r key = elim (get r key) [ some (text s) ↦ s | _ ↦ "" ]

pub data ChangeAction : Type 0 where
  insert update remove truncate : ChangeAction

-- `ChangeAction.String`
unfoldable pub action_string : ChangeAction → String
action_string insert = "INSERT"
action_string update = "UPDATE"
action_string remove = "DELETE"
action_string truncate = "TRUNCATE"

-- The fields of `ColumnDefinition` that the modelled code reads.
pub record ColumnDefinition : Type 0 where
  pub name : String
  pub primary_key : Bool
  pub primary_key_ordinal : ℕ

-- `Row.Without`: a copy of the row that lacks the given keys.
unfoldable pub without : Row → List String → Row
without r [] = r
without r (k ∷ ks) = without (delete r k) ks

-- What the code takes from package fmt: how `%v` prints a value and a row, and the text of a fan-out
-- snapshot's ID from its sequence and its time in milliseconds.
pub record Printing : Type 0 where
  pub sprint : Value → String
  pub sprint_row : Row → String
  pub snapshot_id : ℕ → ℕ → String

-- `IndexDefinition`
pub record IndexDefinition : Type 0 where
  pub name : String
  pub fields : List String
  pub unique : Bool

-- `==` on the values that the model has, from `==` on those of other types, which need not be
-- reflexive (a NaN). It panics on a slice or a map; rows with such values are left out.
unfoldable pub same_value : (ℕ → ℕ → Bool) → Value → Value → Bool
same_value same null null = true
same_value same (text s) (text t) = s == t
same_value same (other m) (other n) = same m n
same_value same _ _ = false
