-- ===== src/Pg/Tests.antt =====
-- The theorem on a message at a concrete one, and a run of the stream.
use laredo.Common.{ℕ, true, false, ◌≡◌, refl, none, some, List, [], ◌∷◌, get, comparable_nat}
use laredo.Types.{null, text, insert}
use laredo.DeadLetter.{ChangeEvent}
use laredo.Pg.{
  Relation, relation_message, insert_message, null_column, text_column, unchanged_column, Handler,
  x_log_data, keepalive, Received, Turn, Stream, start_streaming, tuple_to_row, TupleColumn,
  handle_wal_data,
}
use laredo.Pg.Decode.{Served, requests, announced, handle_wal_data-Served}

abbrev users : Relation
users = record {
  relation_id = 7;
  namespace = "public";
  relation_name = "users";
  columns = "id" ∷ "name" ∷ [];
}

-- It keeps the changes, and refuses one that comes after another.
abbrev keeper : Handler (List (ChangeEvent ℕ))
keeper = record {
  on_change = λ s e. elim s [ [] ↦ (e ∷ [], true) | x ∷ xs ↦ (x ∷ xs, false) ];
  on_heartbeat = none;
}

abbrev stream : Stream (List (ChangeEvent ℕ))
stream = record { current_lsn = 0; relations = []; handler = []; statuses = [] }

abbrev of_frame : Received → Turn
of_frame r = record {
  cancelled = false;
  due = false;
  status_sent = true;
  received = r;
  reply_sent = true;
}

abbrev turns : List Turn
turns =
    of_frame (x_log_data 10 5 (some (relation_message users)))
    ∷ of_frame
        (x_log_data 15 5 (some (insert_message 7 (some (text_column "1" ∷ null_column ∷ [])))))
    ∷ of_frame (keepalive 90 true)
    ∷ []

abbrev tuple : List TupleColumn
tuple = text_column "1" ∷ null_column ∷ []

handle_wal_data-Served_example :
    let result =
      handle_wal_data keeper
        ("public.users" ∷ [])
        ((7, users) ∷ [])
        []
        (insert_message 7 (some tuple)) in
    Served keeper
      ("public.users" ∷ [])
      ((7, users) ∷ [])
      []
      (requests (insert_message 7 (some tuple)))
      (result.1, result.2)
    × ((id : ℕ) → get result.0 id ≡ announced ((7, users) ∷ []) (insert_message 7 (some tuple)) id)
handle_wal_data-Served_example =
    handle_wal_data-Served keeper ("public.users" ∷ []) ((7, users) ∷ []) []
      (insert_message 7 (some tuple))

-- the change is delivered, and the end of the server's log is reported
keeps_one :
    (start_streaming keeper ("public.users" ∷ []) stream turns).handler
    ≡ record {
      table = "public.users";
      action = insert;
      position = none;
      xid = 0;
      new_values = some (("id", text "1") ∷ ("name", null) ∷ []);
      old_values = none;
    }
      ∷ []
unfolding start_streaming
keeps_one = refl

reports_end : (start_streaming keeper ("public.users" ∷ []) stream turns).statuses ≡ 90 ∷ []
unfolding start_streaming
reports_end = refl

-- A column whose value is unchanged is missing from the row.
unchanged_missing :
    tuple_to_row users (some (text_column "1" ∷ unchanged_column ∷ []))
    ≡ some (("id", text "1") ∷ [])
unfolding tuple_to_row
unchanged_missing = refl
