-- ===== src/Client/Local.antt =====
-- client/fanout/client.go: reading the replica, and the snapshot that a client keeps in a file.
-- Encoding it and the file are I/O: `none` is a file that cannot be read or decoded.
use laredo.Common.{
  ℕ, String, Option, none, some, List, [], ◌∷◌, if◌then◌else◌, Assoc, get, ◌==◌, comparable_string,
}
use laredo.Types.{Value, Row, get_value, Printing}
use laredo.Client.{Client, SecondaryIndex, index_key, get_keys}

-- `localSnapshot`
pub record LocalSnapshot : Type 0 where
  pub last_seq : ℕ
  pub snapshot_id : String
  pub last_source_position : String
  pub rows : Assoc String Row

-- `saveSnapshot`: what is written
unfoldable pub save_snapshot : Client → LocalSnapshot
save_snapshot c = record {
  last_seq = c.last_seq;
  snapshot_id = c.last_snapshot_id;
  last_source_position = c.last_source_position;
  rows = c.store;
}

-- `loadSnapshot`: the indexes stay as they are
unfoldable pub load_snapshot : Client → Option LocalSnapshot → Client
load_snapshot c none = c
load_snapshot c (some snap) = record c {
  store = snap.rows;
  last_seq = snap.last_seq;
  last_snapshot_id = snap.snapshot_id;
  last_source_position = snap.last_source_position;
}

-- `All`
unfoldable pub all_rows : Assoc String Row → List Row
all_rows [] = []
all_rows ((k, row) ∷ m) = row ∷ all_rows m

module _ (f : Printing) (separator : String) where
  -- the loop of `Lookup`
  unfoldable pub lookup_in : Assoc String Row → String → String → Option Row
  lookup_in [] field wanted = none
  lookup_in ((k, row) ∷ m) field wanted =
      let rest = lookup_in m field wanted in
      if f.sprint (get_value row field) == wanted then some row else rest

  unfoldable pub lookup : Client → String → Value → Option Row
  unfolding lookup_in
  lookup c field value = lookup_in c.store field (f.sprint value)

  -- the rows under these keys; a key without a row is passed over
  unfoldable pub rows_at : Assoc String Row → List String → List Row
  rows_at store [] = []
  rows_at store (k ∷ ks) = elim (get store k) [
    | none ↦ rows_at store ks
    | some row ↦ row ∷ rows_at store ks
  ]

  -- `LookupByIndex` on one index
  unfoldable pub lookup_by_index : Client → SecondaryIndex → List Value → List Row
  unfolding rows_at index_key
  lookup_by_index c idx values =
      rows_at c.store (get_keys f separator idx.entries (index_key f separator values))
