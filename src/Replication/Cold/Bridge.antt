-- ===== src/Replication/Cold/Bridge.antt =====
-- From the archive to the journal.
use laredo.Common.{ℕ, String, true, ◌≡◌, Option, none, some, arith, keep_if, Option-cases, inl, inr}
use laredo.Fanout.Journal.{Journal, entries_since, resume_seq_for_position, strictly_newer}
use laredo.Fanout.Journal.Sequence.{IsValid}
use laredo.Fanout.Journal.Resume.{Comparator, Ordered, resume-covered}
use laredo.Snapshotter.{Manifest}
use laredo.Snapshotter.Chains.{Planned, plan-Planned}
use laredo.Snapshotter.Reader.{ReplayPlan, plan}
use laredo.Replication.Cold.{
  ColdReplay, Archive, Positions, compare_strings, read_diffs, read_base, materialize, bridged,
  plan_cold_replay,
}

module _ {P : Type 0} (c : Comparator P) (position_from_string : String → Option P) where
  abbrev src : Positions P
  src = record { position_from_string = position_from_string; compare_positions = c.cmp }

  -- What a replay was made from: a plan of the archive's manifest, whose diffs are linked, the position
  -- of its head, and what the archive reads of its base and its diffs. After it the journal's entries
  -- are those newer than the head.
  pub record Bridges (fuel : ℕ) (archive_id : ℕ → String) (r : Archive) (j : Journal P)
      (from_position : String) (cr : ColdReplay) : Type 0 where
    pub manifest : Manifest
    pub loaded : r.load_manifest ≡ some manifest
    pub chosen : ReplayPlan
    pub planned : plan (compare_strings src) fuel manifest from_position ≡ some (some chosen)
    pub chained : Planned manifest from_position chosen
    pub head : P
    pub headed : position_from_string chosen.head_position ≡ some head
    pub based : read_base src archive_id r chosen.snapshot ≡ some cr.snapshot
    pub read : read_diffs src r chosen.diffs ≡ some cr.diffs
    pub gapless : entries_since j cr.resume_seq ≡ keep_if (strictly_newer c.cmp head) j.entries

  materialize-parts :
      (archive_id : ℕ → String) (r : Archive) (j : Journal P) (p : ReplayPlan) (head : P)
      (cr : ColdReplay)
      → materialize src archive_id r j p head ≡ some cr
      → ((resume_seq_for_position c.cmp j head).1 ≡ true)
        × (read_base src archive_id r p.snapshot ≡ some cr.snapshot)
        × (read_diffs src r p.diffs ≡ some cr.diffs)
        × ((resume_seq_for_position c.cmp j head).0 ≡ cr.resume_seq)
  unfolding materialize
  materialize-parts archive_id r j p head cr made = ground arith

  pub plan_cold_replay-Bridges :
      (fuel : ℕ) (archive_id : ℕ → String) (r : Archive) (j : Journal P) (from_position : String)
      (cr : ColdReplay)
      → IsValid j
      → Ordered c j.entries
      → plan_cold_replay src fuel archive_id (some r) j from_position ≡ some (some cr)
      → Bridges fuel archive_id r j from_position cr
  unfolding plan_cold_replay bridged
  plan_cold_replay-Bridges fuel archive_id r j from_position cr valid ordered made =
      elim (Option-cases r.load_manifest) [
        | inl e ↦ absurd (ground (arith, rw (plan_cold_replay, e) at made))
        | inr (m, loaded) ↦ elim (Option-cases (plan (compare_strings src) fuel m from_position)) [
          | inl e ↦ absurd (ground (arith, rw (plan_cold_replay, loaded, e) at made))
          | inr (none, e) ↦ absurd (ground (arith, rw (plan_cold_replay, loaded, e) at made))
          | inr (some p, planned) ↦ elim (Option-cases (position_from_string p.head_position)) [
            | inl e ↦ absurd (ground (arith, rw (plan_cold_replay, loaded, planned, e) at made))
            | inr (head, headed) ↦
                let built : materialize src archive_id r j p head ≡ some cr =
                  ground (arith, rw (plan_cold_replay, loaded, planned, headed) at made) in
                let (covered, based, read, seq) =
                  materialize-parts archive_id r j p head cr built in
                record {
                  manifest = m;
                  loaded = loaded;
                  chosen = p;
                  planned = planned;
                  chained = plan-Planned (compare_strings src) fuel m from_position p planned;
                  head = head;
                  headed = headed;
                  based = based;
                  read = read;
                  gapless = rw (← seq) (resume-covered c j head valid ordered covered);
                }
          ]
        ]
      ]
