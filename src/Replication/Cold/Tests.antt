-- ===== src/Replication/Cold/Tests.antt =====
-- The theorems on the replay of the archive at a concrete archive and a concrete client.
use Prim.Native.Nat.{compare}
use laredo.Common.{
  nat_beq, ℕ, String, true, ◌≡◌, refl, Option, none, some, [], ◌∷◌, ◌++◌, arith, if◌then◌else◌,
  ◌==◌, comparable_string, false,
}
use laredo.Types.{Row, Printing, text, insert}
use laredo.Fanout.Journal.{JournalEntry, Journal, resume_seq_for_position}
use laredo.Fanout.Journal.Sequence.{IsValid}
use laredo.Fanout.Journal.Resume.{Comparator, Ordered}
use laredo.Client.{Client, sync_request}
use laredo.Snapshotter.{Artifact, diff, Manifest, Change}
use laredo.Replication.Filter.{Scalars}
use laredo.Snapshotter.Reader.{plan, contiguous_diff_chain}
use laredo.Replication.Cold.{
  bridged, change_matches_filter, Archive, ColdReplay, diff_messages, plan_cold_replay,
  stream_cold_replay,
}
use laredo.Replication.Cold.Bridge.{Bridges, plan_cold_replay-Bridges}
use laredo.Replication.Stream.{receive_all}
use laredo.Replication.Cold.Cut.{ending, cold_replay-cut}

abbrev by_number : Comparator ℕ
by_number = record { cmp = compare; trans = λ a b c h k. ground arith }

abbrev position_of : String → Option ℕ
position_of s = if s == "a" then some 100 else if s == "b" then some 300 else none

abbrev added : String → Change
added v = record { action = insert; key = v; old = none; new = some (("id", text v) ∷ []) }

abbrev first_diff : Artifact
first_diff = record {
  kind = diff;
  epoch = 1;
  from_position = some "a";
  to_position = "b";
  created_at = 0;
  row_count = 0;
  change_count = 2;
  formats = [];
}

abbrev manifest : Manifest
manifest = record {
  manifest_version = 1;
  table = "users";
  epoch = 1;
  updated_at = 0;
  head_position = "b";
  artifacts = first_diff ∷ [];
  columns = [];
}

abbrev archive : Archive
archive = record {
  load_manifest = some manifest;
  read_snapshot = λ a. none;
  read_diff = λ d. some (added "1" ∷ added "2" ∷ []);
}

abbrev last : JournalEntry ℕ
last = record {
  sequence = 3;
  timestamp = 30;
  action = insert;
  old_values = none;
  new_values = some (("id", text "2") ∷ []);
  position = some 300;
}

abbrev journal : Journal ℕ
journal = record { entries = last ∷ []; max_entries = 5; max_age = 0; next_seq = 4; pins = [] }

journal-IsValid : IsValid journal
journal-IsValid = omega arith

journal-Ordered : Ordered by_number journal.entries
journal-Ordered = ((300, refl), tt, tt)

abbrev replayed : ColdReplay
replayed = record {
  snapshot = none;
  diffs = record { position = "b"; changes = added "1" ∷ added "2" ∷ [] } ∷ [];
  resume_seq = 3;
}

plan_cold_replay-Bridges_example :
    Bridges by_number position_of 3 (λ e. "archive") archive journal "a" replayed
unfolding plan_cold_replay plan contiguous_diff_chain bridged resume_seq_for_position
plan_cold_replay-Bridges_example =
    plan_cold_replay-Bridges by_number position_of 3 (λ e. "archive") archive journal "a" replayed
      journal-IsValid journal-Ordered refl

abbrev printing : Printing
printing = record { sprint = λ v. "v"; sprint_row = λ r. "r"; snapshot_id = λ t u. "s" }

abbrev scalars : Scalars
scalars = record { to_float = λ n. n; same_number = nat_beq; has_prefix = λ s p. false }

abbrev client : Client
client = record {
  store = [];
  indexes = [];
  last_seq = 1;
  last_snapshot_id = "";
  last_source_position = "a";
  ready = true;
  columns = [];
}

abbrev nothing : ColdReplay
nothing = record replayed { diffs = [] }

abbrev unchanged : Row → Option Row
unchanged row = some row

cold_replay-cut_example :
    (stream_cold_replay scalars unchanged (ending nothing "b" (added "1" ∷ added "2" ∷ [])) none
      ≡ stream_cold_replay scalars unchanged (ending nothing "b" (added "1" ∷ [])) none
        ++ diff_messages scalars unchanged none 3 "b" (added "2" ∷ []))
    × (sync_request
          (receive_all printing "," client
            (stream_cold_replay scalars unchanged (ending nothing "b" (added "1" ∷ [])) none))
          true
        ≡ sync_request
            (receive_all printing "," client (
              stream_cold_replay scalars unchanged
                (ending nothing "b" (added "1" ∷ added "2" ∷ []))
                none))
            true)
unfolding change_matches_filter
cold_replay-cut_example =
    cold_replay-cut printing "," scalars unchanged none client nothing "b" [] (added "1")
      (added "2" ∷ []) true refl
