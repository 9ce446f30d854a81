-- ===== src/Pg.antt =====
-- source/pg/replication.go: decoding the messages of logical replication, and the loop that receives
-- them. What package pglogrepl parses from a frame is an argument, with `none` where it cannot; so are
-- the clock and whether a status can be sent. A position is an LSN, a number.
pub mod Decode
pub mod Source
mod Tests
use Prim.Native.String.{◌++◌ as str_append}
use laredo.Common.{
  ℕ, ◌+◌, String, Bool, true, false, ◌||◌, Option, none, some, List, [], ◌∷◌, ◌++◌, if◌then◌else◌,
  ltb, Assoc, get, put, ◌==◌, comparable_string, comparable_nat,
}
use laredo.Types.{Row, null, text, insert, update, remove, truncate}
use laredo.DeadLetter.{ChangeEvent}

-- `RelationMessage`, with the names of its columns
pub record Relation : Type 0 where
  pub relation_id : ℕ
  pub namespace : String
  pub relation_name : String
  pub columns : List String

-- a column of `TupleData`, by its data type
pub data TupleColumn : Type 0 where
  null_column : TupleColumn
  text_column : String → TupleColumn
  unchanged_column : TupleColumn
  other_column : TupleColumn

-- The messages that `Parse` returns; a tuple may be missing.
pub data LogicalMessage : Type 0 where
  relation_message : Relation → LogicalMessage
  insert_message : ℕ → Option (List TupleColumn) → LogicalMessage
  update_message : ℕ → Option (List TupleColumn) → Option (List TupleColumn) → LogicalMessage
  delete_message : ℕ → Option (List TupleColumn) → LogicalMessage
  truncate_message : List ℕ → LogicalMessage
  boundary_message : LogicalMessage

unfoldable pub set_column : Row → String → TupleColumn → Row
set_column row name null_column = put row name null
set_column row name (text_column s) = put row name (text s)
set_column row name unchanged_column = row
set_column row name other_column = row

-- the loop of `tupleToRow`
unfoldable pub fill_row : Row → List String → List TupleColumn → Row
unfolding set_column
fill_row row names [] = row
fill_row row [] (col ∷ cols) = row
fill_row row (name ∷ names) (col ∷ cols) = fill_row (set_column row name col) names cols

-- `tupleToRow`; a missing tuple is a nil row
unfoldable pub tuple_to_row : Relation → Option (List TupleColumn) → Option Row
unfolding fill_row
tuple_to_row rel none = none
tuple_to_row rel (some cols) = some (fill_row [] rel.columns cols)

unfoldable pub table_name : Relation → String
table_name rel = str_append rel.namespace (str_append "." rel.relation_name)

-- `tableSet[tableName]`
unfoldable pub in_tables : List String → String → Bool
in_tables [] name = false
in_tables (t ∷ ts) name = (t == name) || in_tables ts name

-- the relation of a message: none where it is unknown, or its table is not replicated
unfoldable pub known_relation : List String → Assoc ℕ Relation → ℕ → Option Relation
unfolding table_name in_tables
known_relation tables relations id = elim (get relations id) [
  | none ↦ none
  | some rel ↦ if in_tables tables (table_name rel) then some rel else none
]

-- the events that the messages make; none has a position
unfoldable pub insert_event : Relation → Option (List TupleColumn) → ChangeEvent ℕ
unfolding table_name tuple_to_row
insert_event rel tuple = record {
  table = table_name rel;
  action = insert;
  position = none;
  xid = 0;
  new_values = tuple_to_row rel tuple;
  old_values = none;
}

unfoldable pub update_event :
    Relation → Option (List TupleColumn) → Option (List TupleColumn) → ChangeEvent ℕ
unfolding table_name tuple_to_row
update_event rel old new = record {
  table = table_name rel;
  action = update;
  position = none;
  xid = 0;
  new_values = tuple_to_row rel new;
  old_values = tuple_to_row rel old;
}

unfoldable pub delete_event : Relation → Option (List TupleColumn) → ChangeEvent ℕ
unfolding table_name tuple_to_row
delete_event rel old = record {
  table = table_name rel;
  action = remove;
  position = none;
  xid = 0;
  new_values = none;
  old_values = tuple_to_row rel old;
}

unfoldable pub truncate_event : Relation → ChangeEvent ℕ
unfolding table_name
truncate_event rel = record {
  table = table_name rel;
  action = truncate;
  position = none;
  xid = 0;
  new_values = none;
  old_values = none;
}

-- `ChangeHandler`, and `OnHeartbeat` where the handler has it; each returns whether it succeeded.
pub record Handler (S : Type 0) : Type 0 where
  pub on_change : S → ChangeEvent ℕ → S × Bool
  pub on_heartbeat : Option (S → ℕ → S × Bool)

-- What one call of `ReceiveMessage` comes to. A failed one includes the end of the context, and an
-- unparsed frame a message that `Parse` refuses.
pub data Received : Type 0 where
  timed_out : Received
  failed : Received
  unparsed : Received
  x_log_data : ℕ → ℕ → Option LogicalMessage → Received
  keepalive : ℕ → Bool → Received
  error_response : Received
  ignored : Received

-- One turn of the loop: whether the context is done, whether a status is due, whether it can be
-- sent, what is received, and whether a reply can be sent.
pub record Turn : Type 0 where
  pub cancelled : Bool
  pub due : Bool
  pub status_sent : Bool
  pub received : Received
  pub reply_sent : Bool

-- The stream: the LSN, the relations, the handler, and the statuses that were sent.
pub record Stream (S : Type 0) : Type 0 where
  pub current_lsn : ℕ
  pub relations : Assoc ℕ Relation
  pub handler : S
  pub statuses : List ℕ

abbrev pub with_relations : {S : Type 0} → Assoc ℕ Relation → S × Bool → Assoc ℕ Relation × S × Bool
with_relations relations r = (relations, r.0, r.1)

module _ {S : Type 0} where
  -- the heartbeat of a keepalive
  unfoldable pub beat : Handler S → S → ℕ → S × Bool
  beat h s lsn = elim h.on_heartbeat [ none ↦ (s, true) | some on_heartbeat ↦ on_heartbeat s lsn ]

  -- `sendStandbyStatus` of the LSN; whether the loop goes on
  unfoldable pub send_standby_status : Stream S → Bool → Stream S × Bool
  send_standby_status st sent =
      (if sent then record st { statuses = st.statuses ++ (st.current_lsn ∷ []) } else st, sent)

module _ {S : Type 0} (h : Handler S) (tables : List String) where
  -- the message of one relation, if it is known; an unknown one is passed over
  unfoldable pub change_of : S → Assoc ℕ Relation → ℕ → (Relation → ChangeEvent ℕ) → S × Bool
  unfolding known_relation
  change_of s relations id event = elim (known_relation tables relations id) [
    | none ↦ (s, true)
    | some rel ↦ h.on_change s (event rel)
  ]

  -- the loop over the relations of a truncation, up to the first error
  unfoldable pub truncate_each : S → Assoc ℕ Relation → List ℕ → S × Bool
  unfolding change_of truncate_event
  truncate_each s relations [] = (s, true)
  truncate_each s relations (id ∷ ids) =
      let (s', ok) = change_of s relations id truncate_event in
      let rest = truncate_each s' relations ids in if ok then rest else (s', false)

  -- `handleWALData` on a parsed message: the relations, the handler, and whether it succeeded
  unfoldable pub handle_wal_data :
      Assoc ℕ Relation → S → LogicalMessage → Assoc ℕ Relation × S × Bool
  unfolding change_of truncate_each insert_event update_event delete_event
  handle_wal_data relations s (relation_message rel) = (put relations rel.relation_id rel, s, true)
  handle_wal_data relations s (insert_message id tuple) =
      with_relations relations (change_of s relations id (λ rel. insert_event rel tuple))
  handle_wal_data relations s (update_message id old new) =
      with_relations relations (change_of s relations id (λ rel. update_event rel old new))
  handle_wal_data relations s (delete_message id old) =
      with_relations relations (change_of s relations id (λ rel. delete_event rel old))
  handle_wal_data relations s (truncate_message ids) =
      with_relations relations (truncate_each s relations ids)
  handle_wal_data relations s boundary_message = (relations, s, true)

  unfoldable pub receive_keepalive : Stream S → ℕ → Bool → Bool → Stream S × Bool
  unfolding beat send_standby_status
  receive_keepalive st server_wal_end reply_requested reply_sent =
      let lsn = if ltb st.current_lsn server_wal_end then server_wal_end else st.current_lsn in
      let (s, ok) = beat h st.handler lsn in
      let st' = record st { current_lsn = lsn; handler = s } in
      if ok
      then (if reply_requested then send_standby_status st' reply_sent else (st', true))
      else (st', false)

  unfoldable pub receive_wal_data : Stream S → ℕ → Option LogicalMessage → Stream S × Bool
  unfolding handle_wal_data
  receive_wal_data st lsn none = (record st { current_lsn = lsn }, false)
  receive_wal_data st lsn (some msg) =
      let (relations, s, ok) = handle_wal_data st.relations st.handler msg in
      (record st { current_lsn = lsn; relations = relations; handler = s }, ok)

  -- the `switch` on what was received
  unfoldable pub receive_frame : Stream S → Received → Bool → Stream S × Bool
  unfolding receive_keepalive receive_wal_data
  receive_frame st timed_out reply_sent = (st, true)
  receive_frame st failed reply_sent = (st, false)
  receive_frame st unparsed reply_sent = (st, false)
  receive_frame st (x_log_data start size msg) reply_sent = receive_wal_data st (start + size) msg
  receive_frame st (keepalive server_wal_end reply_requested) reply_sent =
      receive_keepalive st server_wal_end reply_requested reply_sent
  receive_frame st error_response reply_sent = (st, false)
  receive_frame st ignored reply_sent = (st, true)

  -- the status that is due at the start of a turn
  unfoldable pub report_due : Stream S → Turn → Stream S × Bool
  unfolding send_standby_status
  report_due st t = if t.due then send_standby_status st t.status_sent else (st, true)

  -- one turn of the loop of `startStreaming`; whether the loop goes on
  unfoldable pub turn : Stream S → Turn → Stream S × Bool
  unfolding report_due receive_frame
  turn st t =
      let (st', ok) = report_due st t in
      let received = receive_frame st' t.received t.reply_sent in
      if t.cancelled then (st, false) else if ok then received else (st', false)

  -- `startStreaming`, once the server has started
  unfoldable pub start_streaming : Stream S → List Turn → Stream S
  unfolding turn
  start_streaming st [] = st
  start_streaming st (t ∷ ts) =
      let (st', on) = turn st t in let later = start_streaming st' ts in if on then later else st'
