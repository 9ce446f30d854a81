-- ===== src/Client.antt =====
-- client/fanout/client.go: the replica that a fan-out client keeps, with its secondary indexes, and
-- the journal entry as service/replication/replication.go sends it. Rows cross the wire as structpb
-- values: `over_wire` is what a row is on the other side, or none where structpb takes no such row. The
-- error is discarded there, and the message has no row. Listeners are left out.
pub mod Local
mod Tests
use Prim.Native.String.{◌++◌ as str_append}
use laredo.Common.{
  ℕ, String, Bool, true, false, Option, none, some, List, [], ◌∷◌, ◌++◌, map, if◌then◌else◌, Assoc,
  get, put, delete, ◌==◌, comparable_string,
}
use laredo.Types.{Value, Row, get_value, action_string, Printing, ColumnDefinition}
use laredo.Fanout.Journal.{JournalEntry}

-- `ReplicationJournalEntry`
pub record WireEntry : Type 0 where
  pub sequence : ℕ
  pub action : String
  pub source_position : String
  pub old_values : Option Row
  pub new_values : Option Row

-- `secondaryIndex`: index keys to the keys of the rows
pub record SecondaryIndex : Type 0 where
  pub fields : List String
  pub entries : Assoc String (List String)

-- the fields of `Client` that messages change
pub record Client : Type 0 where
  pub store : Assoc String Row
  pub indexes : List SecondaryIndex
  pub last_seq : ℕ
  pub last_snapshot_id : String
  pub last_source_position : String
  pub ready : Bool
  pub columns : List ColumnDefinition

-- `SyncResponse`; a row message may come without a row
pub data Message : Type 0 where
  snapshot_begin : String → Message
  snapshot_row : Option Row → Message
  snapshot_end : ℕ → Message
  journal_entry : WireEntry → Message
  handshake : List ColumnDefinition → Message
  heartbeat : Message
  schema_change : Message
  go_away : Message

-- a row in a message; none where the entry has none, and where the conversion fails
abbrev pub send_row : (Row → Option Row) → Option Row → Option Row
send_row over_wire none = none
send_row over_wire (some row) = over_wire row

module _ {P : Type 0} (over_wire : Row → Option Row) (position_string : P → String) where
  -- `sendJournalEntry`, with the `posToStr` of `Sync`
  unfoldable pub wire_entry : JournalEntry P → WireEntry
  wire_entry e = record {
    sequence = e.sequence;
    action = action_string e.action;
    source_position = elim e.position [ none ↦ "" | some p ↦ position_string p ];
    old_values = send_row over_wire e.old_values;
    new_values = send_row over_wire e.new_values;
  }

clear_index : SecondaryIndex → SecondaryIndex
clear_index idx = record idx { entries = [] }

-- `clearIndexes`
unfoldable pub clear_indexes : List SecondaryIndex → List SecondaryIndex
unfolding clear_index
clear_indexes = map clear_index

module _ (f : Printing) (separator : String) where
  -- `rowKey`
  unfoldable pub row_key : Row → String
  row_key row = elim (get row "id") [ none ↦ f.sprint_row row | some v ↦ f.sprint v ]

  index_rest : List Value → String
  index_rest [] = ""
  index_rest (v ∷ vs) = str_append separator (str_append (f.sprint v) (index_rest vs))

  -- `indexKey`
  unfoldable pub index_key : List Value → String
  unfolding index_rest
  index_key [] = ""
  index_key (v ∷ vs) = str_append (f.sprint v) (index_rest vs)

  abbrev pub index_key_of : SecondaryIndex → Row → String
  index_key_of idx row = index_key (map (get_value row) idx.fields)

  abbrev pub get_keys : Assoc String (List String) → String → List String
  get_keys m k = elim (get m k) [ none ↦ [] | some ks ↦ ks ]

  -- the first occurrence of a key is removed
  unfoldable pub remove_first : String → List String → List String
  remove_first rk [] = []
  remove_first rk (k ∷ ks) = if k == rk then ks else k ∷ remove_first rk ks

  add_to_index : String → Row → SecondaryIndex → SecondaryIndex
  add_to_index rk row idx =
      let key = index_key_of idx row in
      record idx { entries = put idx.entries key (get_keys idx.entries key ++ (rk ∷ [])) }

  remove_from_index : String → Row → SecondaryIndex → SecondaryIndex
  unfolding remove_first
  remove_from_index rk row idx =
      let key = index_key_of idx row in
      let left = remove_first rk (get_keys idx.entries key) in
      record idx {
        entries = elim left [ [] ↦ delete idx.entries key | k ∷ ks ↦ put idx.entries key (k ∷ ks) ];
      }

  -- `addToIndexes` and `removeFromIndexes`
  unfoldable pub add_to_indexes : String → Row → List SecondaryIndex → List SecondaryIndex
  unfolding add_to_index
  add_to_indexes rk row = map (add_to_index rk row)

  unfoldable pub remove_from_indexes : String → Row → List SecondaryIndex → List SecondaryIndex
  unfolding remove_from_index
  remove_from_indexes rk row = map (remove_from_index rk row)

  -- removes the row under the key from the indexes, if there is one
  drop_indexed : Client → String → List SecondaryIndex
  unfolding remove_from_indexes
  drop_indexed c key = elim (get c.store key) [
    | none ↦ c.indexes
    | some old ↦ remove_from_indexes key old c.indexes
  ]

  unfoldable pub apply_insert : Client → Option Row → Client
  unfolding row_key add_to_indexes
  apply_insert c none = c
  apply_insert c (some row) = record c {
    store = put c.store (row_key row) row;
    indexes = add_to_indexes (row_key row) row c.indexes;
  }

  unfoldable pub apply_update : Client → Option Row → Client
  unfolding row_key add_to_indexes drop_indexed
  apply_update c none = c
  apply_update c (some row) = record c {
    store = put c.store (row_key row) row;
    indexes = add_to_indexes (row_key row) row (drop_indexed c (row_key row));
  }

  unfoldable pub apply_delete : Client → Option Row → Client
  unfolding row_key drop_indexed
  apply_delete c none = c
  apply_delete c (some row) = record c {
    store = delete c.store (row_key row);
    indexes = drop_indexed c (row_key row);
  }

  unfoldable pub apply_truncate : Client → Client
  unfolding clear_indexes
  apply_truncate c = record c { store = []; indexes = clear_indexes c.indexes }

  -- the `switch` of `applyJournalEntry` on the action's name
  unfoldable pub apply_action : Client → WireEntry → Client
  unfolding apply_insert apply_update apply_delete apply_truncate
  apply_action c e =
      if e.action == "INSERT"
      then apply_insert c e.new_values
      else if e.action == "UPDATE"
      then apply_update c e.new_values
      else if e.action == "DELETE"
      then apply_delete c e.old_values
      else if e.action == "TRUNCATE"
      then apply_truncate c
      else c

  -- `applyJournalEntry`
  unfoldable pub apply_journal_entry : Client → WireEntry → Client
  unfolding apply_action
  apply_journal_entry c e =
      let position =
        if e.source_position == "" then c.last_source_position else e.source_position in
      let c' = apply_action c e in
      record c' { last_seq = e.sequence; last_source_position = position; ready = true }

  -- `applyMessage`: the new replica, and whether the server asks to leave
  unfoldable pub apply_message : Client → Message → Client × Bool
  unfolding row_key add_to_indexes clear_indexes apply_journal_entry
  apply_message c (snapshot_begin id) = (
    record c {
      store = [];
      indexes = clear_indexes c.indexes;
      last_snapshot_id = id;
      last_source_position = "";
    },
    false,
  )
  apply_message c (snapshot_row none) = (c, false)
  apply_message c (snapshot_row (some row)) = (
    record c {
      store = put c.store (row_key row) row;
      indexes = add_to_indexes (row_key row) row c.indexes;
    },
    false,
  )
  apply_message c (snapshot_end seq) = (record c { ready = true; last_seq = seq }, false)
  apply_message c (journal_entry e) = (apply_journal_entry c e, false)
  apply_message c (handshake []) = (c, false)
  apply_message c (handshake (col ∷ cols)) = (record c { columns = col ∷ cols }, false)
  apply_message c heartbeat = (c, false)
  apply_message c schema_change = (c, false)
  apply_message c go_away = (c, true)

-- `SyncRequest`: what a client says of its replica
pub record SyncRequest : Type 0 where
  pub last_known_sequence : ℕ
  pub last_snapshot_id : String
  pub last_known_source_position : String

-- the request of `dial`; the table, the client's ID and its filters are the configuration's
unfoldable pub sync_request : Client → Bool → SyncRequest
sync_request c resume_by_position = record {
  last_known_sequence = if resume_by_position then 0 else c.last_seq;
  last_snapshot_id = c.last_snapshot_id;
  last_known_source_position = c.last_source_position;
}
