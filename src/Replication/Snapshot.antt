-- ===== src/Replication/Snapshot.antt =====
-- service/replication/replication.go: the full snapshot that `Sync` sends to a new client.
use laredo.Common.{Option, some, List, [], ◌∷◌, ◌++◌, keep_if}
use laredo.Types.{Row}
use laredo.Fanout.Target.{Snapshot}
use laredo.Client.{Message, snapshot_begin, snapshot_row, snapshot_end, send_row}
use laredo.Replication.Filter.{Scalars, CompiledPredicate, match_row}

module _ (over_wire : Row → Option Row) where
  -- the loop over the rows
  unfoldable pub row_messages : List Row → List Message
  row_messages [] = []
  row_messages (row ∷ rows) = snapshot_row (send_row over_wire (some row)) ∷ row_messages rows

  -- the messages of the snapshot; `match_row` without a filter admits every row, as the code does
  unfoldable pub full_snapshot_messages :
      Scalars → Option (List CompiledPredicate) → Snapshot → List Message
  unfolding row_messages
  full_snapshot_messages g filter snap =
      (snapshot_begin snap.id ∷ row_messages (keep_if (match_row g filter) snap.rows))
      ++ (snapshot_end snap.sequence ∷ [])
