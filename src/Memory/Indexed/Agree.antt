-- ===== src/Memory/Indexed/Agree.antt =====
-- What an index holds under a key, and what the store holds, after a row is added or dropped.
use laredo.Common.{
  ℕ, String, Bool, true, false, ◌≡◌, refl, sym, ap, ◌∙◌, none, some, List, [], ◌∷◌, ◌++◌, arith,
  if◌then◌else◌, Bool-cases, inl, inr, Assoc, get, put, delete, get-put, get-delete, ◌==◌,
  comparable_string, keep_if, keep_if-append, All,
}
use mathlib.Core.List.{append-nil}
use laredo.Types.{Row}
use laredo.Memory.Indexed.{
  SecondaryIndex, rows_at, key_of, add_to_index, remove_from_index, clear_index,
}
use laredo.Memory.Indexed.Stored.{with_key, but_key, Agrees}

rows_at-put :
    (m : Assoc String (List Row)) (key j : String) (rows : List Row)
    → rows_at (put m key rows) j ≡ (if key == j then rows else rows_at m j)
rows_at-put m key j rows = rw (rows_at, get-put m key j rows) (pick (key == j))
  where
    pick :
        (b : Bool)
        → (elim (if b then some rows else get m j) [ none ↦ [] | some rs ↦ rs ])
          ≡ (if b then rows else rows_at m j)
    pick true = refl
    pick false = refl

rows_at-delete :
    (m : Assoc String (List Row)) (key j : String)
    → rows_at (delete m key) j ≡ (if key == j then [] else rows_at m j)
rows_at-delete m key j = rw (rows_at, get-delete m key j) (pick (key == j))
  where
    pick :
        (b : Bool)
        → (elim (if b then none else get m j) [ none ↦ [] | some rs ↦ rs ])
          ≡ (if b then [] else rows_at m j)
    pick true = refl
    pick false = refl

-- the list of a key written back, an empty one by removing the key
rows_at-rewritten :
    (m : Assoc String (List Row)) (key j : String) (left : List Row)
    → rows_at (elim left [ [] ↦ delete m key | r ∷ rs ↦ put m key (r ∷ rs) ]) j
      ≡ (if key == j then left else rows_at m j)
rows_at-rewritten m key j [] = rows_at-delete m key j
rows_at-rewritten m key j (r ∷ rs) = rows_at-put m key j (r ∷ rs)

keep_if-swap :
    (p q : Row → Bool) (xs : List Row) → keep_if p (keep_if q xs) ≡ keep_if q (keep_if p xs)
keep_if-swap p q [] = refl
keep_if-swap p q (x ∷ xs) = ground (arith, keep_if-swap p q xs)

module _ (print_other : ℕ → String) (separator : String) (pk_cols : List String) where
  other_key :
      (fields : List String) (key : String) (old : Row) (rows : List Row)
      → (key_of print_other separator fields old == key) ≡ false
      → All
          (λ r.
            (key_of print_other separator pk_cols r == key_of print_other separator pk_cols old)
              ≡ true
            → r ≡ old)
          rows
      → with_key print_other separator pk_cols fields key
          (but_key print_other separator pk_cols (key_of print_other separator pk_cols old) rows)
        ≡ with_key print_other separator pk_cols fields key rows
  other_key fields key old [] off h = refl
  other_key fields key old (r ∷ rows) off h =
      let ih = other_key fields key old rows off h.1 in
      elim (Bool-cases
        (key_of print_other separator pk_cols r == key_of print_other separator pk_cols old)) [
          | inr n ↦ ground (arith, n, ih)
          | inl y ↦
              let same : (key_of print_other separator fields r == key) ≡ false = rw (h.0 y) off in
              ground (arith, y, ih, same)
        ]

  add-parts :
      (rows : List Row) (row : Row) (name : String) (fields : List String) (unique : Bool)
      (u : Assoc String Row) (m : Assoc String (List Row))
      → Agrees print_other separator pk_cols rows (record {
        def = record { name = name; fields = fields; unique = unique };
        unique_rows = u;
        nonuniq = m;
      })
      → Agrees print_other separator pk_cols (rows ++ (row ∷ [])) (
          add_to_index print_other separator row (record {
            def = record { name = name; fields = fields; unique = unique };
            unique_rows = u;
            nonuniq = m;
          }))
  unfolding add_to_index
  add-parts rows row name fields true u m h off key = cc
  add-parts rows row name fields false u m h off key =
      let own_key : String = key_of print_other separator fields row in
      rows_at-put m own_key key (rows_at m own_key ++ (row ∷ []))
      ∙ elim (Bool-cases (own_key == key)) [
        | inl y ↦
            let same : own_key ≡ key = (comparable_string.same_iff own_key key).0 y in
            rw (keep_if-append, y) (ap (λ l. l ++ (row ∷ [])) (ap (rows_at m) same ∙ h refl key))
        | inr n ↦ rw (keep_if-append, n) (h refl key ∙ sym (append-nil _))
      ]

  pub add_to_index-Agrees :
      (rows : List Row) (row : Row) (idx : SecondaryIndex)
      → Agrees print_other separator pk_cols rows idx
      → Agrees print_other separator pk_cols
          (rows ++ (row ∷ []))
          (add_to_index print_other separator row idx)
  add_to_index-Agrees rows row idx h =
      add-parts rows row idx.def.name idx.def.fields idx.def.unique idx.unique_rows idx.nonuniq h

  remove-parts :
      (rows : List Row) (old : Row) (name : String) (fields : List String) (unique : Bool)
      (u : Assoc String Row) (m : Assoc String (List Row))
      → All
          (λ r.
            (key_of print_other separator pk_cols r == key_of print_other separator pk_cols old)
              ≡ true
            → r ≡ old)
          rows
      → Agrees print_other separator pk_cols rows (record {
        def = record { name = name; fields = fields; unique = unique };
        unique_rows = u;
        nonuniq = m;
      })
      → Agrees print_other separator pk_cols
          (but_key print_other separator pk_cols (key_of print_other separator pk_cols old) rows)
          (remove_from_index print_other separator pk_cols old (record {
            def = record { name = name; fields = fields; unique = unique };
            unique_rows = u;
            nonuniq = m;
          }))
  unfolding remove_from_index
  remove-parts rows old name fields true u m only h off key = cc
  remove-parts rows old name fields false u m only h off key =
      let old_key : String = key_of print_other separator fields old in
      let left : List Row =
        but_key print_other separator pk_cols (key_of print_other separator pk_cols old)
          (rows_at m old_key) in
      rows_at-rewritten m old_key key left ∙ elim (Bool-cases (old_key == key)) [
        | inl y ↦
            let same : old_key ≡ key = (comparable_string.same_iff old_key key).0 y in
            rw y (
              ap (but_key print_other separator pk_cols (key_of print_other separator pk_cols old))
                (ap (rows_at m) same ∙ h refl key)
              ∙ keep_if-swap _ _ rows)
        | inr n ↦ rw n (h refl key ∙ sym (other_key fields key old rows n only))
      ]

  pub remove_from_index-Agrees :
      (rows : List Row) (old : Row) (idx : SecondaryIndex)
      → All
          (λ r.
            (key_of print_other separator pk_cols r == key_of print_other separator pk_cols old)
              ≡ true
            → r ≡ old)
          rows
      → Agrees print_other separator pk_cols rows idx
      → Agrees print_other separator pk_cols
          (but_key print_other separator pk_cols (key_of print_other separator pk_cols old) rows)
          (remove_from_index print_other separator pk_cols old idx)
  remove_from_index-Agrees rows old idx only h =
      remove-parts rows old idx.def.name idx.def.fields idx.def.unique idx.unique_rows idx.nonuniq
        only h

  clear-parts :
      (name : String) (fields : List String) (unique : Bool) (u : Assoc String Row)
      (m : Assoc String (List Row))
      → Agrees print_other separator pk_cols [] (
          clear_index (record {
            def = record { name = name; fields = fields; unique = unique };
            unique_rows = u;
            nonuniq = m;
          }))
  unfolding clear_index
  clear-parts name fields true u m off key = cc
  clear-parts name fields false u m off key = refl

  pub clear_index-Agrees :
      (idx : SecondaryIndex) → Agrees print_other separator pk_cols [] (clear_index idx)
  clear_index-Agrees idx =
      clear-parts idx.def.name idx.def.fields idx.def.unique idx.unique_rows idx.nonuniq
