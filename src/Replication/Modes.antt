-- ===== src/Replication/Modes.antt =====
-- How a stream starts when the client has no position that the journal covers.
use laredo.Common.{
  ℕ, ◌≤◌, ◌≡◌, refl, String, ◌&&◌, none, some, List, [], ◌∷◌, ◌⊎◌, inl, inr, arith, ltb, leb, ◌==◌,
  comparable_string, Bool-cases,
}
use laredo.Fanout.Target.{Snapshot}
use laredo.Replication.Session.{full_snapshot, find_snapshot, by_snapshot, by_sequence, choose_mode}

find_snapshot-le :
    (id : String) (oldest : ℕ) (ss : List Snapshot)
    → (find_snapshot id oldest ss ≡ none)
      ⊎ ((s : Snapshot) × (find_snapshot id oldest ss ≡ some s) × (oldest ≤ s.sequence))
unfolding find_snapshot
find_snapshot-le id oldest [] = inl refl
find_snapshot-le id oldest (s ∷ ss) = elim (Bool-cases ((s.id == id) && leb oldest s.sequence)) [
  | inl y ↦ rw y (inr (s, refl, ground arith))
  | inr n ↦ rw n (find_snapshot-le id oldest ss)
]

-- Without a position and a cold archive, the stream starts with a full snapshot, or resumes after a
-- number that is not below the oldest one of the journal.
pub choose_mode-le :
    (last_seq oldest : ℕ) (snapshot_id : String) (snapshots : List Snapshot)
    → let (mode, resume_seq, id) = choose_mode none none last_seq oldest snapshot_id snapshots in
      (mode ≡ full_snapshot) ⊎ (oldest ≤ resume_seq)
unfolding choose_mode by_sequence by_snapshot
choose_mode-le last_seq oldest snapshot_id snapshots =
    elim (Bool-cases (ltb 0 last_seq && leb oldest last_seq)) [
      | inl y ↦ rw y (inr (ground arith))
      | inr n ↦ elim (Bool-cases (snapshot_id == "")) [
        | inl e ↦ rw (n, e) (inl refl)
        | inr k ↦ elim (find_snapshot-le snapshot_id oldest snapshots) [
          | inl none_found ↦ rw (n, k, none_found) (inl refl)
          | inr (s, found, h) ↦ rw (n, k, found) (inr h)
        ]
      ]
    ]
