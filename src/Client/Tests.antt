-- ===== src/Client/Tests.antt =====
-- A client that saves its replica and loads it again.
use laredo.Common.{String, ◌≡◌, refl, false, some, [], ◌∷◌, comparable_string}
use laredo.Types.{Value, null, text, other, Row, Printing}
use laredo.Client.{Client, SecondaryIndex, apply_insert, sync_request}
use laredo.Client.Local.{save_snapshot, load_snapshot, lookup, lookup_by_index}

print_value : Value → String
print_value null = "<nil>"
print_value (text s) = s
print_value (other n) = "other"

abbrev printing : Printing
printing = record { sprint = print_value; sprint_row = λ r. "map"; snapshot_id = λ s t. "snapshot" }

abbrev by_city : SecondaryIndex
by_city = record { fields = "city" ∷ []; entries = [] }

abbrev fresh : Client
fresh = record {
  store = [];
  indexes = by_city ∷ [];
  last_seq = 3;
  last_snapshot_id = "";
  last_source_position = "p";
  ready = false;
  columns = [];
}

abbrev person : Row
person = ("id", text "1") ∷ ("city", text "Bern") ∷ []

abbrev filled : Client
filled = apply_insert printing "," fresh (some person)

abbrev loaded : Client
loaded = load_snapshot fresh (some (save_snapshot filled))

-- The loaded replica has the row and makes the same request, and its index does not have the row.
loaded_row : lookup printing "," loaded "city" (text "Bern") ≡ some person
unfolding lookup print_value apply_insert save_snapshot load_snapshot
loaded_row = refl

loaded_request : sync_request loaded false ≡ sync_request filled false
unfolding sync_request save_snapshot load_snapshot apply_insert
loaded_request = refl

loaded_index :
    (loaded.indexes ≡ by_city ∷ [])
    × (lookup_by_index printing "," loaded by_city (text "Bern" ∷ []) ≡ [])
unfolding lookup_by_index print_value save_snapshot load_snapshot apply_insert
loaded_index = (refl, refl)
