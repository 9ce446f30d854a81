-- ===== src/Replication/Cold.antt =====
-- service/replication/cold_replay.go: a replay of the archive for a client that the journal no longer
-- covers. Reading the manifest and the artifacts, reading a position and formatting the ID of the
-- snapshot are arguments. The outer `none` of a plan is a loop over a chain of diffs that has not
-- ended within the fuel.
pub mod Bridge
pub mod Cut
mod Tests
use Prim.Native.Nat.{Ordering}
use laredo.Common.{
  ℕ, String, Bool, true, false, Option, none, some, List, [], ◌∷◌, ◌++◌, if◌then◌else◌, keep_if,
}
use laredo.Types.{Row, present, insert, update, remove, truncate, action_string}
use laredo.Fanout.Journal.{Journal, resume_seq_for_position}
use laredo.Client.{
  WireEntry, Message, snapshot_begin, snapshot_row, snapshot_end, journal_entry, send_row,
}
use laredo.Snapshotter.{Artifact, Manifest, Change}
use laredo.Snapshotter.Reader.{ReplayPlan, plan}
use laredo.Replication.Snapshot.{row_messages}
use laredo.Replication.Filter.{Scalars, CompiledPredicate, match_row}

-- `coldDiff`
pub record ColdDiff : Type 0 where
  pub position : String
  pub changes : List Change

-- `coldReplay`; the snapshot, where there is one, with its ID
pub record ColdReplay : Type 0 where
  pub snapshot : Option (String × List Row)
  pub diffs : List ColdDiff
  pub resume_seq : ℕ

-- The reader of an archive: what its calls return; none is an error.
pub record Archive : Type 0 where
  pub load_manifest : Option Manifest
  pub read_snapshot : Artifact → Option (List Row)
  pub read_diff : Artifact → Option (List Change)

-- The source's methods on positions.
pub record Positions (P : Type 0) : Type 0 where
  pub position_from_string : String → Option P
  pub compare_positions : P → P → Ordering

module _ {P : Type 0} (src : Positions P) where
  -- the `cmp` of `planColdReplay`
  unfoldable pub compare_strings : String → String → Ordering
  compare_strings a b = elim (src.position_from_string a) [
    | none ↦ Ordering.eq
    | some pa ↦ elim (src.position_from_string b) [
      | none ↦ Ordering.eq
      | some pb ↦ src.compare_positions pa pb
    ]
  ]

  -- the loop that reads the diffs
  unfoldable pub read_diffs : Archive → List Artifact → Option (List ColdDiff)
  read_diffs r [] = some []
  read_diffs r (d ∷ rest) = elim (r.read_diff d) [
    | none ↦ none
    | some changes ↦ elim (read_diffs r rest) [
      | none ↦ none
      | some diffs ↦ some (record { position = d.to_position; changes = changes } ∷ diffs)
    ]
  ]

  -- the snapshot of a plan, read; the outer none is an error
  unfoldable pub read_base :
      (ℕ → String) → Archive → Option Artifact → Option (Option (String × List Row))
  read_base archive_id r none = some none
  read_base archive_id r (some a) = elim (r.read_snapshot a) [
    | none ↦ none
    | some rows ↦ some (some (archive_id a.epoch, rows))
  ]

  -- a plan whose head the journal covers, materialized
  unfoldable pub materialize :
      (ℕ → String) → Archive → Journal P → ReplayPlan → P → Option ColdReplay
  unfolding read_diffs read_base
  materialize archive_id r j p head =
      let (seq, covered) = resume_seq_for_position src.compare_positions j head in
      if covered
      then (elim (read_base archive_id r p.snapshot) [
        | none ↦ none
        | some base ↦ elim (read_diffs r p.diffs) [
          | none ↦ none
          | some diffs ↦ some (record { snapshot = base; diffs = diffs; resume_seq = seq })
        ]
      ])
      else none

  unfoldable pub bridged :
      (ℕ → String) → Archive → Journal P → Option ReplayPlan → Option ColdReplay
  unfolding materialize
  bridged archive_id r j none = none
  bridged archive_id r j (some p) = elim (src.position_from_string p.head_position) [
    | none ↦ none
    | some head ↦ materialize archive_id r j p head
  ]

  -- `planColdReplay`
  unfoldable pub plan_cold_replay :
      ℕ → (ℕ → String) → Option Archive → Journal P → String → Option (Option ColdReplay)
  unfolding compare_strings bridged
  plan_cold_replay fuel archive_id none j from_position = some none
  plan_cold_replay fuel archive_id (some r) j from_position = elim r.load_manifest [
    | none ↦ some none
    | some m ↦ elim (plan compare_strings fuel m from_position) [
      | none ↦ none
      | some p ↦ some (bridged archive_id r j p)
    ]
  ]

module _ (g : Scalars) (over_wire : Row → Option Row) where
  -- `changeMatchesFilter`
  unfoldable pub change_matches_filter : Option (List CompiledPredicate) → Change → Bool
  change_matches_filter none ch = true
  change_matches_filter (some preds) ch = elim ch.action [
    | remove ↦ match_row g (some preds) (present ch.old)
    | truncate ↦ true
    | insert ↦ match_row g (some preds) (present ch.new)
    | update ↦ match_row g (some preds) (present ch.new)
  ]

  -- `sendArchiveChange`
  unfoldable pub archive_entry : Change → String → ℕ → WireEntry
  archive_entry ch position seq = record {
    sequence = seq;
    action = action_string ch.action;
    source_position = position;
    old_values = send_row over_wire ch.old;
    new_values = send_row over_wire ch.new;
  }

  -- the snapshot's messages; `match_row` without a filter admits every row, as the code does
  unfoldable pub base_messages :
      Option (List CompiledPredicate) → ℕ → Option (String × List Row) → List Message
  unfolding row_messages
  base_messages filter seq none = []
  base_messages filter seq (some (id, rows)) =
      (snapshot_begin id ∷ row_messages over_wire (keep_if (match_row g filter) rows))
      ++ (snapshot_end seq ∷ [])

  -- the messages of one diff
  unfoldable pub diff_messages :
      Option (List CompiledPredicate) → ℕ → String → List Change → List Message
  unfolding change_matches_filter archive_entry
  diff_messages filter seq position [] = []
  diff_messages filter seq position (ch ∷ rest) =
      let later = diff_messages filter seq position rest in
      if change_matches_filter filter ch
      then journal_entry (archive_entry ch position seq) ∷ later
      else later

  unfoldable pub all_diff_messages :
      Option (List CompiledPredicate) → ℕ → List ColdDiff → List Message
  unfolding diff_messages
  all_diff_messages filter seq [] = []
  all_diff_messages filter seq (d ∷ rest) =
      diff_messages filter seq d.position d.changes ++ all_diff_messages filter seq rest

  -- `streamColdReplay`: the messages, in order; where a send fails, the rest is not sent
  unfoldable pub stream_cold_replay : ColdReplay → Option (List CompiledPredicate) → List Message
  unfolding base_messages all_diff_messages
  stream_cold_replay cr filter =
      base_messages filter cr.resume_seq cr.snapshot
      ++ all_diff_messages filter cr.resume_seq cr.diffs
