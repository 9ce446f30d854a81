-- ===== src/Memory/Indexed/Calls.antt =====
-- What `LookupAll` finds in a non-unique index after any calls.
use laredo.Common.{
  ℕ, String, Bool, true, false, ◌≡◌, refl, sym, none, some, List, [], ◌∷◌, arith, if◌then◌else◌,
  Bool-cases, Option-cases, inl, inr, Assoc, get, put, delete, get-delete, ◌&&◌, ◌==◌,
  comparable_string, keep_if, All, subst,
}
use laredo.Types.{Value, Row, ColumnDefinition, IndexDefinition}
use laredo.Memory.{fields_found}
use laredo.Memory.Indexed.{
  SecondaryIndex, IndexedTarget, rows_of, each_index, key_of, add_to_index, remove_from_index,
  clear_index, add_to_indexes, store_row, drop_row, remove_from_indexes, without_old, on_init,
  on_insert, on_update, on_delete, on_truncate, cleared, make_indexes, build_key_from_values,
  rows_under, lookup_all, export_snapshot, defs_found, names_of, names_of,
}
use laredo.Memory.Indexed.Stored.{
  Once, put-Once, delete-Once, rows_of-put, Keyed, put-Keyed, delete-Keyed, but_key, rows_of-delete,
  get-own, one_with, Agrees,
}
use laredo.Memory.Indexed.Agree.{add_to_index-Agrees, remove_from_index-Agrees, clear_index-Agrees}

-- A call of a handler.
pub data Call : Type 0 where
  inserts : Row → Call
  updates : Row → Row → Call
  deletes : Row → Call
  truncates : Call

each_index-All :
    (P Q : SecondaryIndex → Type 0) (f : SecondaryIndex → SecondaryIndex)
    (m : Assoc String SecondaryIndex)
    → ((idx : SecondaryIndex) → P idx → Q (f idx))
    → All (λ e. P e.1) m
    → All (λ e. Q e.1) (each_index f m)
each_index-All P Q f [] step h = tt
each_index-All P Q f ((name, idx) ∷ m) step h = (step idx h.0, each_index-All P Q f m step h.1)

get-All :
    (P : SecondaryIndex → Type 0) (m : Assoc String SecondaryIndex) (name : String)
    (idx : SecondaryIndex)
    → All (λ e. P e.1) m
    → get m name ≡ some idx
    → P idx
get-All P [] name idx h e = cc
get-All P ((j, i) ∷ m) name idx h e = elim (Bool-cases (j == name)) [
  | inl y ↦ let it : i ≡ idx = ground arith in subst P it h.0
  | inr n ↦ get-All P m name idx h.1 (ground arith)
]

put-All :
    (P : SecondaryIndex → Type 0) (m : Assoc String SecondaryIndex) (name : String)
    (idx : SecondaryIndex)
    → P idx
    → All (λ e. P e.1) m
    → All (λ e. P e.1) (put m name idx)
put-All P [] name idx p h = (p, tt)
put-All P ((j, i) ∷ m) name idx p h = pick (j == name) (put-All P m name idx p h.1)
  where
    pick :
        (b : Bool)
        → All (λ e. P e.1) (put m name idx)
        → All (λ e. P e.1) (if b then (name, idx) ∷ m else (j, i) ∷ put m name idx)
    pick true rest = (p, h.1)
    pick false rest = (h.0, rest)

module _ (print_other : ℕ → String) (separator : String) where
  unfoldable pub step : IndexedTarget → Call → IndexedTarget
  step t (inserts row) = (on_insert print_other separator t row).0
  step t (updates row identity) = (on_update print_other separator t row identity).0
  step t (deletes identity) = (on_delete print_other separator t identity).0
  step t truncates = (on_truncate print_other separator t).0

  unfoldable pub run : IndexedTarget → List Call → IndexedTarget
  unfolding step
  run t [] = t
  run t (c ∷ cs) = run (step t c) cs

  -- A call writes a row under a key that the target does not hold by then.
  abbrev pub IsFresh : IndexedTarget → Call → Type 0
  IsFresh t (inserts row) = get t.store (key_of print_other separator t.pk_cols row) ≡ none
  IsFresh t (updates row identity) =
      get (delete t.store (key_of print_other separator t.pk_cols identity))
        (key_of print_other separator t.pk_cols row)
      ≡ none
  IsFresh t (deletes identity) = Unit {0}
  IsFresh t truncates = Unit {0}

  abbrev pub AllFresh : IndexedTarget → List Call → Type 0
  AllFresh t [] = Unit {0}
  AllFresh t (c ∷ cs) = IsFresh t c × AllFresh (step t c) cs

  -- The rows stand under their own keys, each once, and the non-unique indexes agree with them.
  pub record IsSound (t : IndexedTarget) : Type 0 where
    pub once : Once t.store
    pub keyed : Keyed print_other separator t.pk_cols t.store
    pub agreed : All (λ e. Agrees print_other separator t.pk_cols (rows_of t.store) e.1) t.indexes

  store_row-IsSound :
      (t : IndexedTarget) (row : Row)
      → get t.store (key_of print_other separator t.pk_cols row) ≡ none
      → IsSound t
      → IsSound (store_row print_other separator t row)
  unfolding store_row add_to_indexes
  store_row-IsSound t row fresh s = record {
    once = put-Once t.store _ row fresh s.once;
    keyed = put-Keyed print_other separator t.pk_cols t.store row s.keyed;
    agreed = rw (rows_of-put t.store (key_of print_other separator t.pk_cols row) row fresh) (
        each_index-All _ _ (add_to_index print_other separator row) t.indexes
          (add_to_index-Agrees print_other separator t.pk_cols (rows_of t.store) row) s.agreed);
  }

  drop_row-IsSound :
      (t : IndexedTarget) (key : String) (old : Row)
      → get t.store key ≡ some old
      → IsSound t
      → IsSound (drop_row print_other separator t key old)
  unfolding drop_row remove_from_indexes
  drop_row-IsSound t key old held s = record {
    once = delete-Once t.store key s.once;
    keyed = delete-Keyed print_other separator t.pk_cols t.store key s.keyed;
    agreed =
        let own = get-own print_other separator t.pk_cols t.store key old held s.keyed in
        rw (rows_of-delete print_other separator t.pk_cols t.store key s.keyed) (
          subst
            (λ k.
              All
                (λ e.
                  Agrees print_other separator t.pk_cols
                    (but_key print_other separator t.pk_cols k (rows_of t.store)) e.1)
                (each_index (remove_from_index print_other separator t.pk_cols old) t.indexes))
            own
            (each_index-All (Agrees print_other separator t.pk_cols (rows_of t.store))
              (Agrees print_other separator t.pk_cols (
                but_key print_other separator t.pk_cols (key_of print_other separator t.pk_cols old)
                  (rows_of t.store)))
              (remove_from_index print_other separator t.pk_cols old) t.indexes
              (λ idx.
                remove_from_index-Agrees print_other separator t.pk_cols (rows_of t.store) old idx (
                  one_with print_other separator t.pk_cols t.store
                    (key_of print_other separator t.pk_cols old) old
                    (subst (λ k. get t.store k ≡ some old) (sym own) held) s.once s.keyed))
              s.agreed));
  }

  without_old-IsSound :
      (t : IndexedTarget) (identity : Row)
      → IsSound t
      → IsSound (without_old print_other separator t identity)
  unfolding without_old
  without_old-IsSound t identity s =
      elim (Option-cases (get t.store (key_of print_other separator t.pk_cols identity))) [
        | inl e ↦ rw (without_old, e) s
        | inr (old, e) ↦
            rw (without_old, e)
              (drop_row-IsSound t (key_of print_other separator t.pk_cols identity) old e s)
      ]

  cleared-IsSound : (t : IndexedTarget) → IsSound t → IsSound (cleared print_other separator t)
  unfolding cleared
  cleared-IsSound t s = record {
    once = tt;
    keyed = tt;
    agreed =
        each_index-All _ _ clear_index t.indexes
          (λ idx h. clear_index-Agrees print_other separator t.pk_cols idx) s.agreed;
  }

  without_old-store :
      (t : IndexedTarget) (identity : Row) (key : String)
      → get (delete t.store (key_of print_other separator t.pk_cols identity)) key ≡ none
      → get (without_old print_other separator t identity).store key ≡ none
  unfolding without_old drop_row remove_from_indexes
  without_old-store t identity key fresh =
      let old_key : String = key_of print_other separator t.pk_cols identity in
      elim (Option-cases (get t.store old_key)) [
        | inr (old, e) ↦ rw (without_old, e) fresh
        | inl e ↦
            rw (without_old, e)
              (ground (
                arith,
                fresh,
                get-delete t.store old_key key,
                comparable_string.same_iff old_key key,
              ))
      ]

  without_old-pk_cols :
      (t : IndexedTarget) (identity : Row)
      → (without_old print_other separator t identity).pk_cols ≡ t.pk_cols
  unfolding without_old drop_row remove_from_indexes
  without_old-pk_cols t identity =
      elim (Option-cases (get t.store (key_of print_other separator t.pk_cols identity))) [
        | inl e ↦ rw (without_old, e) refl
        | inr (old, e) ↦ rw (without_old, e) refl
      ]

  step-IsSound : (t : IndexedTarget) (c : Call) → IsFresh t c → IsSound t → IsSound (step t c)
  unfolding step on_insert on_update on_delete on_truncate
  step-IsSound t (inserts row) fresh s = store_row-IsSound t row fresh s
  step-IsSound t (updates row identity) fresh s =
      store_row-IsSound (without_old print_other separator t identity) row
        (rw (without_old-pk_cols t identity)
          (without_old-store t identity (key_of print_other separator t.pk_cols row) fresh))
        (without_old-IsSound t identity s)
  step-IsSound t (deletes identity) fresh s = without_old-IsSound t identity s
  step-IsSound t truncates fresh s = cleared-IsSound t s

  run-IsSound :
      (cs : List Call) (t : IndexedTarget) → AllFresh t cs → IsSound t → IsSound (run t cs)
  unfolding run
  run-IsSound [] t fresh s = s
  run-IsSound (c ∷ cs) t fresh s = run-IsSound cs (step t c) fresh.1 (step-IsSound t c fresh.0 s)

  make_indexes-Agrees :
      (pk_cols : List String) (ds : List IndexDefinition) (made : Assoc String SecondaryIndex)
      → All (λ e. Agrees print_other separator pk_cols [] e.1) made
      → All (λ e. Agrees print_other separator pk_cols [] e.1) (make_indexes ds made)
  unfolding make_indexes
  make_indexes-Agrees pk_cols [] made h = h
  make_indexes-Agrees pk_cols (d ∷ ds) made h =
      make_indexes-Agrees pk_cols ds _
        (put-All (Agrees print_other separator pk_cols []) made d.name _ (λ off key. refl) h)

  on_init-IsSound :
      (sort_by_ordinal : List ColumnDefinition → List ColumnDefinition) (t : IndexedTarget)
      (columns : List ColumnDefinition)
      → (on_init print_other separator sort_by_ordinal t columns).1 ≡ true
      → IsSound (on_init print_other separator sort_by_ordinal t columns).0
  unfolding on_init
  on_init-IsSound sort_by_ordinal t columns ok =
      let found : Bool = fields_found columns t.lookup_fields && defs_found columns t.index_defs in
      elim (Bool-cases found) [
        | inl y ↦
            rw (on_init, y)
              (record {
                once = tt;
                keyed = tt;
                agreed =
                    make_indexes-Agrees
                      (names_of (sort_by_ordinal (keep_if (λ c. c.primary_key) columns)))
                      t.index_defs [] tt;
              })
        | inr n ↦ absurd (ground arith)
      ]

  -- An indexed target that was initialised without an error, and then told any changes of which each
  -- writes its row under a primary key that the target does not hold by then: `LookupAll` on an index
  -- that is not unique gives exactly the rows that the target holds with the values' key in the
  -- fields of that index.
  pub lookup_all-run :
      (sort_by_ordinal : List ColumnDefinition → List ColumnDefinition) (t : IndexedTarget)
      (columns : List ColumnDefinition) (cs : List Call) (name : String) (values : List Value)
      (idx : SecondaryIndex)
      → (on_init print_other separator sort_by_ordinal t columns).1 ≡ true
      → AllFresh (on_init print_other separator sort_by_ordinal t columns).0 cs
      → get (run (on_init print_other separator sort_by_ordinal t columns).0 cs).indexes name
        ≡ some idx
      → idx.def.unique ≡ false
      → lookup_all print_other separator
          (run (on_init print_other separator sort_by_ordinal t columns).0 cs)
          name
          values
        ≡ keep_if
            (λ r.
              key_of print_other separator idx.def.fields r
              == build_key_from_values print_other separator values)
            (export_snapshot print_other separator
              (run (on_init print_other separator sort_by_ordinal t columns).0 cs))
  unfolding lookup_all rows_under export_snapshot
  lookup_all-run sort_by_ordinal t columns cs name values idx ok fresh at off =
      let ended : IndexedTarget =
        run (on_init print_other separator sort_by_ordinal t columns).0 cs in
      let s = run-IsSound cs _ fresh (on_init-IsSound sort_by_ordinal t columns ok) in
      rw (lookup_all, at, rows_under, off)
        (get-All (Agrees print_other separator ended.pk_cols (rows_of ended.store)) ended.indexes
          name idx s.agreed at off _)
