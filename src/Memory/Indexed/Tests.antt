-- ===== src/Memory/Indexed/Tests.antt =====
-- The theorems on the indexed target at a concrete run.
use laredo.Common.{
  ℕ, String, ◌≡◌, refl, true, false, none, List, [], ◌∷◌, ◌++◌, keep_if, ◌==◌, comparable_string,
}
use laredo.Types.{Row, text, ColumnDefinition}
use laredo.Memory.{build_key}
use laredo.Memory.Indexed.{
  IndexedTarget, SecondaryIndex, key_of, on_init, on_insert, on_update, on_delete,
  build_key_from_values, lookup_all, export_snapshot, count,
}
use laredo.Memory.Indexed.Calls.{Call, inserts, updates, deletes, run, step, lookup_all-run}
use laredo.Memory.Indexed.Reinserted.{lookup_all-reinserted}

abbrev print : ℕ → String
print n = "n"

-- By ID, with an index on the city.
abbrev empty : IndexedTarget
empty = record {
  lookup_fields = [];
  index_defs = record { name = "city"; fields = "city" ∷ []; unique = false } ∷ [];
  columns = [];
  pk_cols = [];
  store = [];
  lookup_index = none;
  indexes = [];
}

abbrev columns : List ColumnDefinition
columns =
    record { name = "id"; primary_key = true; primary_key_ordinal = 1 }
    ∷ record { name = "city"; primary_key = false; primary_key_ordinal = 0 }
    ∷ []

abbrev person : String → String → Row
person id city = ("id", text id) ∷ ("city", text city) ∷ []

abbrev calls : List Call
calls =
    inserts (person "1" "Bern")
    ∷ inserts (person "2" "Bern")
    ∷ updates (person "1" "Ulm") (person "1" "Bern")
    ∷ inserts (person "3" "Bern")
    ∷ deletes (person "2" "Bern")
    ∷ []

abbrev started : IndexedTarget
started = (on_init print "," (λ cs. cs) empty columns).0

abbrev index : SecondaryIndex
index = record {
  def = record { name = "city"; fields = "city" ∷ []; unique = false };
  unique_rows = [];
  nonuniq = ("Bern", person "3" "Bern" ∷ []) ∷ ("Ulm", person "1" "Ulm" ∷ []) ∷ [];
}

lookup_all-run_example :
    lookup_all print "," (run print "," started calls) "city" (text "Bern" ∷ [])
    ≡ keep_if
        (λ r.
          key_of print "," ("city" ∷ []) r == build_key_from_values print "," (text "Bern" ∷ []))
        (export_snapshot print "," (run print "," started calls))
unfolding on_init run step on_insert on_update on_delete build_key
lookup_all-run_example =
    lookup_all-run print "," (λ cs. cs) empty columns calls "city" (text "Bern" ∷ []) index refl
      (refl, (refl, (refl, (refl, (tt, tt))))) refl refl

abbrev kept : IndexedTarget
kept = run print "," started (inserts (person "1" "Bern") ∷ [])

-- The same person again: one row in the target, two in the index.
person_twice :
    (count print "," (on_insert print "," kept (person "1" "Bern")).0 ≡ count print "," kept)
    × (lookup_all print ","
          (on_insert print "," kept (person "1" "Bern")).0
          "city"
          (text "Bern" ∷ [])
        ≡ lookup_all print "," kept "city" (text "Bern" ∷ []) ++ (person "1" "Bern" ∷ []))
unfolding on_init run step on_insert build_key build_key_from_values
person_twice =
    lookup_all-reinserted print "," kept (person "1" "Bern") (person "1" "Bern") "city"
      (text "Bern" ∷ []) (record index { nonuniq = ("Bern", person "1" "Bern" ∷ []) ∷ [] }) refl
      refl refl refl
