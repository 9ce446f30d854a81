-- ===== src/Pg/Decode.antt =====
-- What a message of replication tells the handler, and what the relations are after it.
use Prim.Native.String.{◌++◌ as str_append}
use laredo.Common.{
  ℕ, String, Bool, true, false, ◌≡◌, refl, ◌∙◌, subst, sym, ◌⊎◌, inl, inr, ◌↔◌, Option, none, some,
  List, [], ◌∷◌, arith, if◌then◌else◌, Bool-cases, Option-cases, Assoc, get, put, get-put, ◌==◌,
  comparable_string, comparable_nat, map,
}
use laredo.Types.{Value, null, text, Row, ChangeAction, insert, update, remove, truncate}
use laredo.DeadLetter.{ChangeEvent}
use laredo.Pg.{
  Relation, TupleColumn, null_column, text_column, unchanged_column, other_column, LogicalMessage,
  relation_message, insert_message, update_message, delete_message, truncate_message,
  boundary_message, set_column, fill_row, tuple_to_row, table_name, in_tables, known_relation,
  insert_event, update_event, delete_event, truncate_event, Handler, change_of, truncate_each,
  handle_wal_data,
}

-- the value that a column gives
abbrev pub value_of : TupleColumn → Option Value
value_of null_column = some null
value_of (text_column s) = some (text s)
value_of unchanged_column = none
value_of other_column = none

-- The value of a name in a tuple: that of the last column of this name which gives one.
abbrev pub value_at : List String → List TupleColumn → String → Option Value
value_at names [] name = none
value_at [] (col ∷ cols) name = none
value_at (n ∷ names) (col ∷ cols) name = elim (value_at names cols name) [
  | some v ↦ some v
  | none ↦ if n == name then value_of col else none
]

-- A row of an event is missing where its tuple is, and else has just the tuple's values.
abbrev pub RowOf : List String → Option (List TupleColumn) → Option Row → Type 0
RowOf names none r = r ≡ none
RowOf names (some cols) r =
    (row : Row) × (r ≡ some row) × ((name : String) → get row name ≡ value_at names cols name)

-- What a message asks of one relation: an action, with the tuples of the new and of the old row.
pub record Request : Type 0 where
  pub relation_id : ℕ
  pub action : ChangeAction
  pub new_tuple : Option (List TupleColumn)
  pub old_tuple : Option (List TupleColumn)

abbrev pub truncation : ℕ → Request
truncation id = record { relation_id = id; action = truncate; new_tuple = none; old_tuple = none }

abbrev pub requests : LogicalMessage → List Request
requests (relation_message rel) = []
requests (insert_message id tuple) =
    record { relation_id = id; action = insert; new_tuple = tuple; old_tuple = none } ∷ []
requests (update_message id old new) =
    record { relation_id = id; action = update; new_tuple = new; old_tuple = old } ∷ []
requests (delete_message id old) =
    record { relation_id = id; action = remove; new_tuple = none; old_tuple = old } ∷ []
requests (truncate_message ids) = map truncation ids
requests boundary_message = []

-- An event carries out a request on a relation.
pub record Describes (rel : Relation) (q : Request) (e : ChangeEvent ℕ) : Type 0 where
  pub table : e.table ≡ str_append rel.namespace (str_append "." rel.relation_name)
  pub action : e.action ≡ q.action
  pub unplaced : e.position ≡ none
  pub news : RowOf rel.columns q.new_tuple e.new_values
  pub olds : RowOf rel.columns q.old_tuple e.old_values

abbrev pub Listed : List String → String → Type 0
Listed [] name = ⊥
Listed (t ∷ ts) name = (t ≡ name) ⊎ Listed ts name

-- the relation that a message leaves under an ID
abbrev pub announced : Assoc ℕ Relation → LogicalMessage → ℕ → Option Relation
announced relations (relation_message rel) id =
    if rel.relation_id == id then some rel else get relations id
announced relations _ id = get relations id

get-fill_row :
    (row : Row) (names : List String) (cols : List TupleColumn) (name : String)
    → get (fill_row row names cols) name
      ≡ elim (value_at names cols name) [ some v ↦ some v | none ↦ get row name ]
unfolding fill_row set_column
get-fill_row row names [] name = refl
get-fill_row row [] (col ∷ cols) name = refl
get-fill_row row (n ∷ names) (null_column ∷ cols) name =
    let ih = get-fill_row (put row n null) names cols name in
    elim (Option-cases (value_at names cols name)) [
      | inl e ↦ rw (ih, e) (get-put row n name null ∙ ground arith)
      | inr (v, e) ↦ rw (ih, e) refl
    ]
get-fill_row row (n ∷ names) (text_column s ∷ cols) name =
    let ih = get-fill_row (put row n (text s)) names cols name in
    elim (Option-cases (value_at names cols name)) [
      | inl e ↦ rw (ih, e) (get-put row n name (text s) ∙ ground arith)
      | inr (v, e) ↦ rw (ih, e) refl
    ]
get-fill_row row (n ∷ names) (unchanged_column ∷ cols) name =
    rw (get-fill_row row names cols name) (ground arith)
get-fill_row row (n ∷ names) (other_column ∷ cols) name =
    rw (get-fill_row row names cols name) (ground arith)

tuple_to_row-RowOf :
    (rel : Relation) (tuple : Option (List TupleColumn))
    → RowOf rel.columns tuple (tuple_to_row rel tuple)
unfolding tuple_to_row
tuple_to_row-RowOf rel none = refl
tuple_to_row-RowOf rel (some cols) = (
  fill_row [] rel.columns cols,
  refl,
  λ name. rw (get-fill_row [] rel.columns cols name) (ground arith),
)

in_tables_iff : (ts : List String) (name : String) → (in_tables ts name ≡ true) ↔ Listed ts name
unfolding in_tables
in_tables_iff [] name = (λ h. ground (arith, h), λ h. absurd h)
in_tables_iff (t ∷ ts) name =
    let first = comparable_string.same_iff t name in
    let rest = in_tables_iff ts name in
    elim (Bool-cases (t == name)) [
      | inl y ↦ ((λ h. inl (first.0 y)), (λ h. ground (arith, y)))
      | inr n ↦ (
        (λ h. inr (rest.0 (ground (arith, n, h)))),
        (λ h. elim h [
          | inl e ↦ absurd (ground (arith, n, first.1 e))
          | inr l ↦ ground (arith, rest.1 l)
        ]),
      )
    ]

module _ {S : Type 0} (h : Handler S) (tables : List String) (relations : Assoc ℕ Relation) where
  -- The relation of a request is unknown, or its table is not replicated.
  abbrev pub Passed : Request → Type 0
  Passed q =
      (get relations q.relation_id ≡ none)
      ⊎ ((rel : Relation) × (get relations q.relation_id ≡ some rel)
          × ¬ Listed tables (str_append rel.namespace (str_append "." rel.relation_name)))

  -- The relation of a request is known, and its table is replicated.
  abbrev pub Replicated : Request → Relation → Type 0
  Replicated q rel =
      (get relations q.relation_id ≡ some rel)
      × Listed tables (str_append rel.namespace (str_append "." rel.relation_name))

  -- The handler is given an event for each request that is not passed over, in order, up to the
  -- first that it refuses.
  pub data Served : S → List Request → S × Bool → Type 0 where
    finishes : {s : S} → Served s [] (s, true)
    passes :
        {s : S} {q : Request} {qs : List Request} {result : S × Bool}
        → Passed q
        → Served s qs result
        → Served s (q ∷ qs) result
    goes_on :
        {s s' : S} {q : Request} {qs : List Request} {result : S × Bool} {rel : Relation}
        {e : ChangeEvent ℕ}
        → Replicated q rel
        → Describes rel q e
        → h.on_change s e ≡ (s', true)
        → Served s' qs result
        → Served s (q ∷ qs) result
    refuses :
        {s s' : S} {q : Request} {qs : List Request} {rel : Relation} {e : ChangeEvent ℕ}
        → Replicated q rel
        → Describes rel q e
        → h.on_change s e ≡ (s', false)
        → Served s (q ∷ qs) (s', false)

  known_cases :
      (q : Request)
      → ((known_relation tables relations q.relation_id ≡ none) × Passed q)
        ⊎ ((rel : Relation) × (known_relation tables relations q.relation_id ≡ some rel)
            × Replicated q rel)
  unfolding known_relation table_name
  known_cases q = elim (Option-cases (get relations q.relation_id)) [
    | inl e ↦ inl (rw (known_relation, e) refl, inl e)
    | inr (rel, e) ↦ elim (Bool-cases (in_tables tables (table_name rel))) [
      | inl y ↦ inr (rel, rw (known_relation, e, y) refl, (e, (in_tables_iff tables _).0 y))
      | inr n ↦ inl (
        rw (known_relation, e, n) refl,
        inr (rel, e, λ l. ground (arith, n, (in_tables_iff tables (table_name rel)).1 l)),
      )
    ]
  ]

  -- one request, and then others
  change_of-Served :
      (s : S) (q : Request) (qs : List Request) (event : Relation → ChangeEvent ℕ) (rest : S × Bool)
      → ((rel : Relation) → Describes rel q (event rel))
      → let (s', ok) = change_of h tables s relations q.relation_id event in
        Served s' qs rest → Served s (q ∷ qs) (if ok then rest else (s', false))
  unfolding change_of
  change_of-Served s q qs event rest described later = elim (known_cases q) [
    | inl (e, passed) ↦ rw (change_of, e) (passes passed (rw (change_of, e) at later))
    | inr (rel, e, replicated) ↦
        let given = h.on_change s (event rel) in
        elim (Bool-cases given.1) [
          | inl y ↦
              rw (change_of, e, y)
                (goes_on replicated (described rel) (rw y refl) (rw (change_of, e) at later))
          | inr n ↦ rw (change_of, e, n) (refuses replicated (described rel) (rw n refl))
        ]
  ]

  one-Served :
      (s : S) (q : Request) (event : Relation → ChangeEvent ℕ)
      → ((rel : Relation) → Describes rel q (event rel))
      → Served s (q ∷ []) (change_of h tables s relations q.relation_id event)
  one-Served s q event described =
      let given = change_of h tables s relations q.relation_id event in
      let served = change_of-Served s q [] event (given.0, true) described finishes in
      elim (Bool-cases given.1) [
        | inl y ↦
            subst (λ ok. Served s (q ∷ []) (given.0, ok)) (sym y)
              (subst (λ ok. Served s (q ∷ []) (if ok then (given.0, true) else (given.0, false))) y
                served)
        | inr n ↦
            subst (λ ok. Served s (q ∷ []) (given.0, ok)) (sym n)
              (subst (λ ok. Served s (q ∷ []) (if ok then (given.0, true) else (given.0, false))) n
                served)
      ]

  truncate_each-Served :
      (s : S) (ids : List ℕ)
      → Served s (map truncation ids) (truncate_each h tables s relations ids)
  unfolding truncate_each truncate_event table_name
  truncate_each-Served s [] = finishes
  truncate_each-Served s (id ∷ ids) =
      change_of-Served s (truncation id) (map truncation ids) truncate_event _
        (λ rel. record { table = refl; action = refl; unplaced = refl; news = refl; olds = refl })
        (truncate_each-Served (change_of h tables s relations id truncate_event).0 ids)

  handle-Served :
      (s : S) (msg : LogicalMessage)
      → let result = handle_wal_data h tables relations s msg in
        Served s (requests msg) (result.1, result.2)
  unfolding handle_wal_data insert_event update_event delete_event table_name
  handle-Served s (relation_message rel) = finishes
  handle-Served s (insert_message id tuple) =
      one-Served s _ (λ rel. insert_event rel tuple)
        (λ rel. record {
          table = refl;
          action = refl;
          unplaced = refl;
          news = tuple_to_row-RowOf rel tuple;
          olds = refl;
        })
  handle-Served s (update_message id old new) =
      one-Served s _ (λ rel. update_event rel old new)
        (λ rel. record {
          table = refl;
          action = refl;
          unplaced = refl;
          news = tuple_to_row-RowOf rel new;
          olds = tuple_to_row-RowOf rel old;
        })
  handle-Served s (delete_message id old) =
      one-Served s _ (λ rel. delete_event rel old)
        (λ rel. record {
          table = refl;
          action = refl;
          unplaced = refl;
          news = refl;
          olds = tuple_to_row-RowOf rel old;
        })
  handle-Served s (truncate_message ids) = truncate_each-Served s ids
  handle-Served s boundary_message = finishes

  -- What a message does, whatever the handler does with the events that it is given. For each row that
  -- the message inserts, updates or deletes, and for each relation that it truncates, in order, up to
  -- the first event that the handler refuses: where the relation is known and its table is among those
  -- replicated, the handler is given one event, of that table and action and without a position, whose
  -- new and old rows have for each name the value of the last column of that name that is null or a
  -- text, and nothing for other columns; else nothing. A relation message, and no other, replaces the
  -- relation of its ID.
  pub handle_wal_data-Served :
      (s : S) (msg : LogicalMessage)
      → let result = handle_wal_data h tables relations s msg in
        Served s (requests msg) (result.1, result.2)
        × ((id : ℕ) → get result.0 id ≡ announced relations msg id)
  unfolding handle_wal_data
  handle_wal_data-Served s msg = (handle-Served s msg, go msg)
    where
      go :
          (m : LogicalMessage) (id : ℕ)
          → get (handle_wal_data h tables relations s m).0 id ≡ announced relations m id
      go (relation_message rel) id = get-put relations rel.relation_id id rel
      go (insert_message id' tuple) id = refl
      go (update_message id' old new) id = refl
      go (delete_message id' old) id = refl
      go (truncate_message ids) id = refl
      go boundary_message id = refl
