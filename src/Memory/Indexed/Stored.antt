-- ===== src/Memory/Indexed/Stored.antt =====
-- The rows of the store by their keys, after a row is added or dropped.
use laredo.Common.{
  ℕ, String, true, false, not, ◌≡◌, refl, sym, ap, ◌∙◌, none, some, List, [], ◌∷◌, ◌++◌, arith,
  Bool-cases, inl, inr, Assoc, get, put, delete, get-put, get-delete, ◌==◌, comparable_string,
  keep_if, All,
}
use laredo.Types.{Row}
use laredo.Memory.Indexed.{SecondaryIndex, rows_at, rows_of, key_of}

-- Each key stands once.
abbrev pub Once : Assoc String Row → Type 0
Once [] = Unit {0}
Once ((key, row) ∷ m) = (get m key ≡ none) × Once m

pub put-Once :
    (m : Assoc String Row) (key : String) (row : Row)
    → get m key ≡ none
    → Once m
    → Once (put m key row)
put-Once [] key row fresh h = (refl, tt)
put-Once ((j, w) ∷ m) key row fresh h = ground (
  arith,
  comparable_string.same_iff j key,
  comparable_string.same_iff key j,
  get-put m key j row,
  put-Once m key row,
)

pub delete-Once : (m : Assoc String Row) (key : String) → Once m → Once (delete m key)
delete-Once [] key h = tt
delete-Once ((j, w) ∷ m) key h =
    ground (arith, comparable_string.same_iff j key, get-delete m key j, delete-Once m key h.1)

-- a new key's row comes last
pub rows_of-put :
    (m : Assoc String Row) (key : String) (row : Row)
    → get m key ≡ none
    → rows_of (put m key row) ≡ rows_of m ++ (row ∷ [])
rows_of-put [] key row fresh = refl
rows_of-put ((j, w) ∷ m) key row fresh = ground (arith, rows_of-put m key row)

module _ (print_other : ℕ → String) (separator : String) (pk_cols : List String) where
  abbrev own : Row → String
  own = key_of print_other separator pk_cols

  -- Each row stands under its own key.
  abbrev pub Keyed : Assoc String Row → Type 0
  Keyed = All (λ e. own e.1 ≡ e.0)

  pub put-Keyed : (m : Assoc String Row) (row : Row) → Keyed m → Keyed (put m (own row) row)
  put-Keyed [] row h = (refl, tt)
  put-Keyed ((j, w) ∷ m) row h =
      ground (arith, comparable_string.same_iff j (own row), put-Keyed m row h.1)

  pub delete-Keyed : (m : Assoc String Row) (key : String) → Keyed m → Keyed (delete m key)
  delete-Keyed [] key h = tt
  delete-Keyed ((j, w) ∷ m) key h = ground (arith, delete-Keyed m key h.1)

  -- the rows of one index key
  abbrev pub with_key : List String → String → List Row → List Row
  with_key fields key rows = keep_if (λ r. key_of print_other separator fields r == key) rows

  -- the rows that stay when a primary key is dropped
  abbrev pub but_key : String → List Row → List Row
  but_key key rows = keep_if (λ r. not (own r == key)) rows

  pub rows_of-delete :
      (m : Assoc String Row) (key : String)
      → Keyed m
      → rows_of (delete m key) ≡ but_key key (rows_of m)
  rows_of-delete [] key h = refl
  rows_of-delete ((j, w) ∷ m) key h =
      let ih : rows_of (delete m key) ≡ but_key key (rows_of m) = rows_of-delete m key h.1 in
      rw h.0 (ground (arith, ih))

  -- Where a non-unique index agrees with some rows: under each key stand the rows of that key.
  abbrev pub Agrees : List Row → SecondaryIndex → Type 0
  Agrees rows idx =
      idx.def.unique ≡ false
      → (key : String) → rows_at idx.nonuniq key ≡ with_key idx.def.fields key rows

  pub get-own :
      (m : Assoc String Row) (key : String) (old : Row)
      → get m key ≡ some old
      → Keyed m
      → own old ≡ key
  get-own [] key old e h = cc
  get-own ((j, w) ∷ m) key old e h = elim (Bool-cases (j == key)) [
    | inl y ↦
        let it : w ≡ old = ground arith in
        sym (ap own it) ∙ h.0 ∙ (comparable_string.same_iff j key).0 y
    | inr n ↦ get-own m key old (ground arith) h.1
  ]

  none_with :
      (m : Assoc String Row) (key : String)
      → get m key ≡ none
      → Keyed m
      → All (λ r. (own r == key) ≡ false) (rows_of m)
  none_with [] key e h = tt
  none_with ((j, w) ∷ m) key e h = elim (Bool-cases (j == key)) [
    | inl y ↦ absurd (ground arith)
    | inr n ↦ (rw h.0 n, none_with m key (ground arith) h.1)
  ]

  -- of the rows of a store, the one under a key is the only one with that key
  pub one_with :
      (m : Assoc String Row) (key : String) (old : Row)
      → get m key ≡ some old
      → Once m
      → Keyed m
      → All (λ r. (own r == key) ≡ true → r ≡ old) (rows_of m)
  one_with [] key old e o h = tt
  one_with ((j, w) ∷ m) key old e o h = elim (Bool-cases (j == key)) [
    | inl y ↦
        let same : j ≡ key = (comparable_string.same_iff j key).0 y in
        let it : w ≡ old = ground arith in
        let gone : get m key ≡ none = rw (← same) o.0 in
        (λ z. it, none-one (rows_of m) key old (none_with m key gone h.1))
    | inr n ↦ (λ z. absurd (ground (arith, h.0)), one_with m key old (ground arith) o.1 h.1)
  ]
    where
      none-one :
          (rows : List Row) (key : String) (old : Row)
          → All (λ r. (own r == key) ≡ false) rows
          → All (λ r. (own r == key) ≡ true → r ≡ old) rows
      none-one [] key old h = tt
      none-one (r ∷ rows) key old h = (λ y. absurd (ground (arith, h.0)), none-one rows key old h.1)
