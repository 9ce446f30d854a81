-- ===== src/Memory/Indexed.antt =====
-- target/memory/memory.go: the indexed target: its rows by primary key, the lookup index and the
-- secondary indexes. The printing of values that are neither nil nor strings and the sorting of the
-- key columns by ordinal (package slices) are arguments. A handler returns the target and what it
-- tells the listeners. `OnInit` makes the maps; no other call comes before it.
pub mod Stored
pub mod Agree
pub mod Calls
pub mod Reinserted
mod Tests
use laredo.Common.{
  ℕ, String, Bool, true, false, not, ◌&&◌, Option, none, some, List, [], ◌∷◌, ◌++◌, map,
  if◌then◌else◌, keep_if, length, ltb, Assoc, get, put, delete, ◌==◌, comparable_string,
}
use laredo.Types.{Value, Row, ColumnDefinition, IndexDefinition}
use laredo.Memory.{fields_found, build_key, format_value}
use laredo.Fanout.Target.{join, SchemaChangeAction, schema_continue, schema_re_baseline}

-- `secondaryIndex`: of the two maps one is used, by whether the index is unique
pub record SecondaryIndex : Type 0 where
  pub def : IndexDefinition
  pub unique_rows : Assoc String Row
  pub nonuniq : Assoc String (List Row)

-- `IndexedTarget`, without its listeners; a nil lookup index is none
pub record IndexedTarget : Type 0 where
  pub lookup_fields : List String
  pub index_defs : List IndexDefinition
  pub columns : List ColumnDefinition
  pub pk_cols : List String
  pub store : Assoc String Row
  pub lookup_index : Option (Assoc String Row)
  pub indexes : Assoc String SecondaryIndex

abbrev pub Told : Type 0
Told = Option Row × Option Row

-- `idx.nonuniq[key]`
abbrev pub rows_at : Assoc String (List Row) → String → List Row
rows_at m key = elim (get m key) [ none ↦ [] | some rows ↦ rows ]

-- a change of each index of a map
abbrev pub each_index :
    (SecondaryIndex → SecondaryIndex) → Assoc String SecondaryIndex → Assoc String SecondaryIndex
each_index f [] = []
each_index f ((name, idx) ∷ rest) = (name, f idx) ∷ each_index f rest

-- the rows of the store
abbrev pub rows_of : Assoc String Row → List Row
rows_of [] = []
rows_of ((key, row) ∷ rest) = row ∷ rows_of rest

-- whether each field of each index is a column
unfoldable pub defs_found : List ColumnDefinition → List IndexDefinition → Bool
unfolding fields_found
defs_found columns [] = true
defs_found columns (d ∷ ds) = if fields_found columns d.fields then defs_found columns ds else false

unfoldable pub make_indexes :
    List IndexDefinition → Assoc String SecondaryIndex → Assoc String SecondaryIndex
make_indexes [] made = made
make_indexes (d ∷ ds) made =
    make_indexes ds (put made d.name (record { def = d; unique_rows = []; nonuniq = [] }))

-- `clear` of the maps of an index
unfoldable pub clear_index : SecondaryIndex → SecondaryIndex
clear_index idx =
    if idx.def.unique then record idx { unique_rows = [] } else record idx { nonuniq = [] }

-- the names of some columns
unfoldable pub names_of : List ColumnDefinition → List String
names_of = map (λ c. c.name)

-- `OnSchemaChange`
unfoldable pub on_schema_change : List ColumnDefinition → List ColumnDefinition → SchemaChangeAction
unfolding names_of fields_found
on_schema_change old_columns new_columns =
    if fields_found new_columns (names_of old_columns)
      && ltb (length old_columns) (length new_columns)
    then schema_continue
    else schema_re_baseline

module _ (print_other : ℕ → String) (separator : String) where
  -- `buildKeyFromValues`
  unfoldable pub build_key_from_values : List Value → String
  unfolding join format_value
  build_key_from_values values = join separator (map (format_value print_other separator) values)

  abbrev pub key_of : List String → Row → String
  key_of fields row = build_key print_other separator row fields

  -- one index of `addToIndexes`
  unfoldable pub add_to_index : Row → SecondaryIndex → SecondaryIndex
  add_to_index row idx =
      let key = key_of idx.def.fields row in
      if idx.def.unique
      then record idx { unique_rows = put idx.unique_rows key row }
      else record idx { nonuniq = put idx.nonuniq key (rows_at idx.nonuniq key ++ (row ∷ [])) }

  -- one index of `removeFromIndexes`
  unfoldable pub remove_from_index : List String → Row → SecondaryIndex → SecondaryIndex
  remove_from_index pk_cols row idx =
      let key = key_of idx.def.fields row in
      let left =
        keep_if (λ r. not (key_of pk_cols r == key_of pk_cols row)) (rows_at idx.nonuniq key) in
      if idx.def.unique
      then record idx { unique_rows = delete idx.unique_rows key }
      else record idx {
        nonuniq = elim left [ [] ↦ delete idx.nonuniq key | r ∷ rs ↦ put idx.nonuniq key (r ∷ rs) ];
      }

  -- `addToIndexes`
  unfoldable pub add_to_indexes : IndexedTarget → Row → IndexedTarget
  unfolding add_to_index
  add_to_indexes t row = record t {
    lookup_index = elim t.lookup_index [
      | none ↦ none
      | some m ↦ some (put m (key_of t.lookup_fields row) row)
    ];
    indexes = each_index (add_to_index row) t.indexes;
  }

  -- `removeFromIndexes`
  unfoldable pub remove_from_indexes : IndexedTarget → Row → IndexedTarget
  unfolding remove_from_index
  remove_from_indexes t row = record t {
    lookup_index = elim t.lookup_index [
      | none ↦ none
      | some m ↦ some (delete m (key_of t.lookup_fields row))
    ];
    indexes = each_index (remove_from_index t.pk_cols row) t.indexes;
  }

  -- `OnInit`: `false` is its error, which leaves the maps as they were
  unfoldable pub on_init :
      (List ColumnDefinition → List ColumnDefinition)
      → IndexedTarget
      → List ColumnDefinition
      → IndexedTarget × Bool
  unfolding fields_found defs_found make_indexes names_of
  on_init sort_by_ordinal t columns =
      let known : IndexedTarget = record t {
        columns = columns;
        pk_cols = names_of (sort_by_ordinal (keep_if (λ c. c.primary_key) columns));
      } in
      if fields_found columns t.lookup_fields && defs_found columns t.index_defs
      then (
        record known {
          store = [];
          lookup_index = elim t.lookup_fields [ [] ↦ t.lookup_index | f ∷ fs ↦ some [] ];
          indexes = make_indexes t.index_defs [];
        },
        true,
      )
      else (known, false)

  -- a row into the store and the indexes
  unfoldable pub store_row : IndexedTarget → Row → IndexedTarget
  unfolding add_to_indexes
  store_row t row = add_to_indexes (record t { store = put t.store (key_of t.pk_cols row) row }) row

  -- the row under a key out of the indexes and the store
  unfoldable pub drop_row : IndexedTarget → String → Row → IndexedTarget
  unfolding remove_from_indexes
  drop_row t key old = record (remove_from_indexes t old) { store = delete t.store key }

  -- `OnBaselineRow` and `OnInsert`
  unfoldable pub on_insert : IndexedTarget → Row → IndexedTarget × List Told
  unfolding store_row
  on_insert t row = (store_row t row, (none, some row) ∷ [])

  -- the target without the row of an identity, where there is one
  unfoldable pub without_old : IndexedTarget → Row → IndexedTarget
  unfolding drop_row
  without_old t identity =
      let key = key_of t.pk_cols identity in
      elim (get t.store key) [ none ↦ t | some old ↦ drop_row t key old ]

  -- `OnUpdate`
  unfoldable pub on_update : IndexedTarget → Row → Row → IndexedTarget × List Told
  unfolding store_row without_old
  on_update t row identity = (
    store_row (without_old t identity) row,
    (get t.store (key_of t.pk_cols identity), some row) ∷ [],
  )

  -- `OnDelete`
  unfoldable pub on_delete : IndexedTarget → Row → IndexedTarget × List Told
  unfolding without_old
  on_delete t identity = (
    without_old t identity,
    elim (get t.store (key_of t.pk_cols identity)) [ none ↦ [] | some old ↦ (some old, none) ∷ [] ],
  )

  -- the maps cleared
  unfoldable pub cleared : IndexedTarget → IndexedTarget
  unfolding clear_index
  cleared t = record t {
    store = [];
    lookup_index = elim t.lookup_index [ none ↦ none | some m ↦ some [] ];
    indexes = each_index clear_index t.indexes;
  }

  -- `OnTruncate`
  unfoldable pub on_truncate : IndexedTarget → IndexedTarget × List Told
  unfolding cleared
  on_truncate t = (cleared t, (none, none) ∷ [])

  -- `ExportSnapshot`; `All` gives the same rows with their keys
  unfoldable pub export_snapshot : IndexedTarget → List Row
  export_snapshot t = rows_of t.store

  unfoldable pub restore_each : IndexedTarget → List Row → IndexedTarget
  unfolding store_row
  restore_each t [] = t
  restore_each t (row ∷ rest) = restore_each (store_row t row) rest

  -- `RestoreSnapshot`
  unfoldable pub restore_snapshot : IndexedTarget → List Row → IndexedTarget
  unfolding cleared restore_each
  restore_snapshot t entries = restore_each (cleared t) entries

  -- `Lookup`
  unfoldable pub lookup : IndexedTarget → List Value → Option Row
  unfolding build_key_from_values
  lookup t values = elim t.lookup_index [
    | none ↦ none
    | some m ↦ get m (build_key_from_values values)
  ]

  -- the rows of one index under a key
  unfoldable pub rows_under : SecondaryIndex → String → List Row
  rows_under idx key =
      if idx.def.unique
      then (elim (get idx.unique_rows key) [ none ↦ [] | some row ↦ row ∷ [] ])
      else rows_at idx.nonuniq key

  -- `LookupAll`
  unfoldable pub lookup_all : IndexedTarget → String → List Value → List Row
  unfolding build_key_from_values rows_under
  lookup_all t index_name values = elim (get t.indexes index_name) [
    | none ↦ []
    | some idx ↦ rows_under idx (build_key_from_values values)
  ]

  -- `Get` and `Count`
  unfoldable pub get_row : IndexedTarget → List Value → Option Row
  unfolding build_key_from_values
  get_row t values = get t.store (build_key_from_values values)

  unfoldable pub count : IndexedTarget → ℕ
  count t = length t.store
