-- ===== src/Memory/Indexed/Reinserted.antt =====
-- An insertion under a primary key that the target holds.
use laredo.Common.{
  ℕ, String, false, ◌≡◌, ap, some, List, [], ◌∷◌, ◌++◌, arith, Bool-cases, inl, inr, Assoc, get,
  put, get-put, suc, length, ◌==◌, ==_refl, comparable_string,
}
use laredo.Types.{Value, Row}
use laredo.Memory.Indexed.{
  SecondaryIndex, IndexedTarget, rows_at, each_index, key_of, add_to_index, add_to_indexes,
  store_row, on_insert, build_key_from_values, rows_under, lookup_all, count,
}

length-put_held :
    (m : Assoc String Row) (key : String) (row old : Row)
    → get m key ≡ some old
    → length (put m key row) ≡ length m
length-put_held [] key row old e = cc
length-put_held ((j, w) ∷ m) key row old e = elim (Bool-cases (j == key)) [
  | inl y ↦ rw y
  | inr n ↦ rw n (ap suc (length-put_held m key row old (ground arith)))
]

module _ (print_other : ℕ → String) (separator : String) where
  get-each_index :
      (f : SecondaryIndex → SecondaryIndex) (m : Assoc String SecondaryIndex) (name : String)
      (idx : SecondaryIndex)
      → get m name ≡ some idx
      → get (each_index f m) name ≡ some (f idx)
  get-each_index f [] name idx e = cc
  get-each_index f ((j, i) ∷ m) name idx e = elim (Bool-cases (j == name)) [
    | inl y ↦ let it : i ≡ idx = ground arith in rw (y, it)
    | inr n ↦ rw n (get-each_index f m name idx (ground arith))
  ]

  add_to_index-rows :
      (row : Row) (idx : SecondaryIndex)
      → idx.def.unique ≡ false
      → rows_under print_other separator
          (add_to_index print_other separator row idx)
          (key_of print_other separator idx.def.fields row)
        ≡ rows_under print_other separator idx (key_of print_other separator idx.def.fields row)
          ++ (row ∷ [])
  unfolding add_to_index rows_under
  add_to_index-rows row idx off =
      let key : String = key_of print_other separator idx.def.fields row in
      ground (
        arith,
        off,
        ==_refl key,
        get-put idx.nonuniq key key (rows_at idx.nonuniq key ++ (row ∷ [])),
      )

  -- The opposite case: a row that arrives as an insertion under a primary key that the target already
  -- holds replaces the row there, so the count stays as it was, and is added to each non-unique
  -- index beside what stands there: under the values of its own fields `LookupAll` gives one row
  -- more than before.
  pub lookup_all-reinserted :
      (t : IndexedTarget) (row old : Row) (name : String) (values : List Value)
      (idx : SecondaryIndex)
      → get t.store (key_of print_other separator t.pk_cols row) ≡ some old
      → get t.indexes name ≡ some idx
      → idx.def.unique ≡ false
      → build_key_from_values print_other separator values
        ≡ key_of print_other separator idx.def.fields row
      → (count print_other separator (on_insert print_other separator t row).0
          ≡ count print_other separator t)
        × (lookup_all print_other separator (on_insert print_other separator t row).0 name values
            ≡ lookup_all print_other separator t name values ++ (row ∷ []))
  unfolding lookup_all on_insert store_row add_to_indexes count
  lookup_all-reinserted t row old name values idx held at off key = (
    length-put_held t.store (key_of print_other separator t.pk_cols row) row old held,
    rw
        (
          lookup_all,
          get-each_index (add_to_index print_other separator row) t.indexes name idx at,
          at,
          key,
        )
        (add_to_index-rows row idx off),
  )
