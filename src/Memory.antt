-- ===== src/Memory.antt =====
-- target/memory/memory.go: the compiled target. The compiler, the filter and the printing of values
-- that are neither nil nor strings are arguments. A handler returns the target and what it tells the
-- listeners: the old and the new object of each notification.
pub mod AsTarget
pub mod Sound
pub mod Restore
pub mod Indexed
mod Tests
use laredo.Common.{
  ℕ, String, Bool, true, false, not, ◌||◌, Option, none, some, List, [], ◌∷◌, map, if◌then◌else◌,
  length, Assoc, get, put, delete, ◌==◌, comparable_string,
}
use laredo.Types.{Value, null, text, other, Row, get_value, ColumnDefinition}
use laredo.Fanout.Target.{join}

-- `compiledEntry`
pub record CompiledEntry (C : Type 0) : Type 0 where
  pub compiled : C
  pub row : Row

-- `CompiledTarget`, without its listeners
pub record CompiledTarget (C : Type 0) : Type 0 where
  pub compiler : Row → Option C
  pub key_fields : List String
  pub filter : Option (Row → Bool)
  pub columns : List ColumnDefinition
  pub store : Assoc String (CompiledEntry C)

abbrev pub Notice : Type 0 → Type 0
Notice C = Option C × Option C

has_column : List ColumnDefinition → String → Bool
has_column [] field = false
has_column (c ∷ cs) field = (c.name == field) || has_column cs field

-- whether each key field is a column
unfoldable pub fields_found : List ColumnDefinition → List String → Bool
unfolding has_column
fields_found columns [] = true
fields_found columns (f ∷ fs) = if has_column columns f then fields_found columns fs else false

module _ (print_other : ℕ → String) (separator : String) where
  -- `formatValue`
  unfoldable pub format_value : Value → String
  format_value null = "<nil>"
  format_value (text s) = s
  format_value (other n) = print_other n

  format_fields : Row → List String → List String
  unfolding format_value
  format_fields row [] = []
  format_fields row (f ∷ fs) = format_value (get_value row f) ∷ format_fields row fs

  -- `buildKey`
  unfoldable pub build_key : Row → List String → String
  unfolding join format_fields
  build_key row fields = join separator (format_fields row fields)

  module _ {C : Type 0} where
    -- the test of the filter, where there is one
    unfoldable pub admits : CompiledTarget C → Row → Bool
    admits t row = elim t.filter [ none ↦ true | some passes ↦ passes row ]

    -- `OnInit`: `false` is its error
    unfoldable pub on_init : CompiledTarget C → List ColumnDefinition → CompiledTarget C × Bool
    unfolding fields_found
    on_init t columns =
        if fields_found columns t.key_fields
        then (record t { columns = columns; store = [] }, true)
        else (record t { columns = columns }, false)

    -- `insertRow`, of `OnBaselineRow` and `OnInsert`
    unfoldable pub insert_row : CompiledTarget C → Row → CompiledTarget C × List (Notice C)
    unfolding admits build_key
    insert_row t row =
        if admits t row
        then elim (t.compiler row) [
          | none ↦ (t, [])
          | some compiled ↦ (
            record t {
              store =
                  put t.store (build_key row t.key_fields)
                    (record { compiled = compiled; row = row });
            },
            (none, some compiled) ∷ [],
          )
        ]
        else (t, [])

    -- the removal of the entry under a key, where there is one
    unfoldable pub remove_key : CompiledTarget C → String → CompiledTarget C × List (Notice C)
    remove_key t key = elim (get t.store key) [
      | none ↦ (t, [])
      | some old ↦ (record t { store = delete t.store key }, (some old.compiled, none) ∷ [])
    ]

    -- `OnUpdate`
    unfoldable pub on_update : CompiledTarget C → Row → Row → CompiledTarget C × List (Notice C)
    unfolding admits build_key remove_key
    on_update t row identity =
        let old_key = build_key identity t.key_fields in
        if admits t row
        then elim (t.compiler row) [
          | none ↦ (t, [])
          | some compiled ↦ (
            record t {
              store =
                  put
                    (elim (get t.store old_key) [
                      | none ↦ t.store
                      | some old ↦ delete t.store old_key
                    ])
                    (build_key row t.key_fields) (record { compiled = compiled; row = row });
            },
            (
              elim (get t.store old_key) [ none ↦ none | some old ↦ some old.compiled ],
              some compiled,
            )
                ∷ [],
          )
        ]
        else remove_key t old_key

    -- `OnDelete`
    unfoldable pub on_delete : CompiledTarget C → Row → CompiledTarget C × List (Notice C)
    unfolding build_key remove_key
    on_delete t identity = remove_key t (build_key identity t.key_fields)

    -- `OnTruncate`
    unfoldable pub on_truncate : CompiledTarget C → CompiledTarget C × List (Notice C)
    on_truncate t = (record t { store = [] }, (none, none) ∷ [])

    rows : Assoc String (CompiledEntry C) → List Row
    rows [] = []
    rows ((key, e) ∷ rest) = e.row ∷ rows rest

    -- `ExportSnapshot`
    unfoldable pub export_snapshot : CompiledTarget C → List Row
    unfolding rows
    export_snapshot t = rows t.store

    -- the loop of `RestoreSnapshot`: an insertion without a notice
    unfoldable pub restore_each : CompiledTarget C → List Row → CompiledTarget C
    unfolding insert_row
    restore_each t [] = t
    restore_each t (row ∷ rest) = restore_each (insert_row t row).0 rest

    -- `RestoreSnapshot`
    unfoldable pub restore_snapshot : CompiledTarget C → List Row → CompiledTarget C
    unfolding restore_each
    restore_snapshot t entries = restore_each (record t { store = [] }) entries

    -- `Get`, of the key that the values make, and `Count`
    unfoldable pub get_compiled : CompiledTarget C → String → Option C
    get_compiled t key = elim (get t.store key) [ none ↦ none | some e ↦ some e.compiled ]

    unfoldable pub count : CompiledTarget C → ℕ
    count t = length t.store
