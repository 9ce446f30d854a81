-- ===== src/Replication/Session.antt =====
-- service/replication/replication.go: one stream of `Sync`. The journal changes between the steps, so
-- each step takes the journal as it stands then. The filter of the subscription is any test of entries;
-- `none` for the answer by position stands for a client without one, or one that cannot be read.
use laredo.Common.{
  ℕ, String, Bool, true, ◌&&◌, not, Option, none, some, List, [], ◌∷◌, ◌++◌, if◌then◌else◌, ltb,
  leb, keep_if, ◌==◌, comparable_string,
}
use laredo.Fanout.Journal.{JournalEntry, Journal, entries_since, current_sequence}
use laredo.Fanout.Target.{Snapshot}

-- `SyncMode`
pub data SyncMode : Type 0 where
  delta delta_from_snapshot full_snapshot replay_archive : SyncMode

-- the loop over `ListSnapshots`: the first snapshot of that ID that the journal still follows
unfoldable pub find_snapshot : String → ℕ → List Snapshot → Option Snapshot
find_snapshot id oldest [] = none
find_snapshot id oldest (s ∷ rest) =
    let others = find_snapshot id oldest rest in
    if (s.id == id) && leb oldest s.sequence then some s else others

unfoldable pub by_snapshot : Option Snapshot → SyncMode × ℕ × String
by_snapshot none = (full_snapshot, 0, "")
by_snapshot (some s) = (delta_from_snapshot, s.sequence, s.id)

unfoldable pub by_sequence : ℕ → ℕ → String → List Snapshot → SyncMode × ℕ × String
unfolding find_snapshot by_snapshot
by_sequence last_seq oldest snapshot_id snapshots =
    if ltb 0 last_seq && leb oldest last_seq
    then (delta, last_seq, "")
    else if not (snapshot_id == "")
    then by_snapshot (find_snapshot snapshot_id oldest snapshots)
    else (full_snapshot, 0, "")

-- The mode of the stream, the sequence to resume after and the snapshot of the handshake. The first
-- argument is the answer of `ResumeSequenceForPosition`, the second the sequence of a cold replay.
unfoldable pub choose_mode :
    Option (ℕ × Bool) → Option ℕ → ℕ → ℕ → String → List Snapshot → SyncMode × ℕ × String
unfolding by_sequence
choose_mode (some (seq, true)) cold last_seq oldest snapshot_id snapshots = (delta, seq, "")
choose_mode position (some seq) last_seq oldest snapshot_id snapshots = (replay_archive, seq, "")
choose_mode position none last_seq oldest snapshot_id snapshots =
    by_sequence last_seq oldest snapshot_id snapshots

-- The stream: the last sequence that was passed, and the entries that were sent.
pub record Session (P : Type 0) : Type 0 where
  pub last_seq_sent : ℕ
  pub sent : List (JournalEntry P)

module _ {P : Type 0} (matches : JournalEntry P → Bool) where
  -- the journal catch-up, from the sequence to resume after
  unfoldable pub catch_up : Journal P → ℕ → List (JournalEntry P)
  catch_up j resume_seq = keep_if matches (entries_since j resume_seq)

  -- from the catch-up to the live phase
  unfoldable pub go_live : Journal P → List (JournalEntry P) → Session P
  go_live j sent = record { last_seq_sent = current_sequence j; sent = sent }

  -- one entry in the live loop
  unfoldable pub offer : Session P → JournalEntry P → Session P
  offer s e = record {
    last_seq_sent = e.sequence;
    sent = if matches e then s.sent ++ (e ∷ []) else s.sent;
  }

  unfoldable pub offer_each : Session P → List (JournalEntry P) → Session P
  unfolding offer
  offer_each s [] = s
  offer_each s (e ∷ es) = offer_each (offer s e) es

  -- one turn of the live loop
  unfoldable pub poll : Session P → Journal P → Session P
  unfolding offer_each
  poll s j = offer_each s (entries_since j s.last_seq_sent)

  unfoldable pub polls : Session P → List (Journal P) → Session P
  unfolding poll
  polls s [] = s
  polls s (j ∷ js) = polls (poll s j) js

  -- the journal entries of `Sync`: caught up from one journal, live from another, then polled
  unfoldable pub sync : Journal P → ℕ → Journal P → List (Journal P) → Session P
  unfolding catch_up go_live polls
  sync caught resume_seq live js = polls (go_live live (catch_up caught resume_seq)) js
