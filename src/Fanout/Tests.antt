-- ===== src/Fanout/Tests.antt =====
-- Runs of the fan-out journal, and its theorems at concrete journals.
use Prim.Native.Nat.{Ordering, compare}
use laredo.Common.{
  ℕ, ◌+◌, ◌≤◌, ◌<◌, ◌≡◌, ◌≢◌, refl, inl, true, Option, none, some, [], ◌∷◌, arith, length, All,
}
use laredo.Types.{Row, text, insert, update, remove}
use laredo.Fanout.Journal.{
  Clock, JournalEntry, Journal, new_journal, append, prune, entries_since, oldest_sequence, min_pin,
  current_sequence, new_entry, resume_seq_for_position, strictly_newer,
}
use laredo.Fanout.Journal.Sequence.{
  pins, unpins, appends, backfills, run, Chain, IsValid, run-new_journal-IsValid,
  entries_since-gapless,
}
use laredo.Fanout.Journal.Newest.{EndsIn, append-newest}
use laredo.Fanout.Journal.Retention.{Fits, append-Fits, prune-keeps-pinned, prune-loses-pinned}
use laredo.Fanout.Journal.Resume.{Comparator, Ordered, resume-covered, resume-uncovered}
use laredo.Fanout.Clients.{new_client_registry, count}
use laredo.Fanout.Clients.Capacity.{registers, unregisters, count-run, run as run_clients}

abbrev at : ℕ → Clock
at t = record { first = t; second = t + 1; third = t + 2 }

abbrev row : Row
row = ("id", text "1") ∷ []

abbrev entry : ℕ → ℕ → Option ℕ → JournalEntry ℕ
entry seq time position = record {
  sequence = seq;
  timestamp = time;
  action = insert;
  old_values = none;
  new_values = some row;
  position = position;
}

-- Four entries with a limit of two, the third of which a client has pinned.
abbrev held : Journal ℕ
held = record {
  entries =
      entry 1 10 (some 100)
      ∷ entry 2 20 (some 200)
      ∷ entry 3 30 (some 300)
      ∷ entry 4 40 (some 300)
      ∷ [];
  max_entries = 2;
  max_age = 0;
  next_seq = 5;
  pins = ("client", 3) ∷ [];
}

held-IsValid : IsValid held
held-IsValid = omega arith

-- The same journal with the oldest entry pinned.
abbrev pinned : Journal ℕ
pinned = record held { pins = ("client", 1) ∷ [] }

run-new_journal-IsValid_example : IsValid (
    run (new_journal ℕ 2 15) (
      appends (at 10) insert none (some row) none
      ∷ backfills (some 100)
      ∷ pins "client" 1
      ∷ appends (at 20) update none (some row) (some 200)
      ∷ unpins "client"
      ∷ appends (at 40) remove (some row) none (some 300)
      ∷ []))
run-new_journal-IsValid_example = run-new_journal-IsValid 2 15 (
    appends (at 10) insert none (some row) none
    ∷ backfills (some 100)
    ∷ pins "client" 1
    ∷ appends (at 20) update none (some row) (some 200)
    ∷ unpins "client"
    ∷ appends (at 40) remove (some row) none (some 300)
    ∷ [])

entries_since-gapless_example :
    (3 + length (entries_since held 2) ≡ 5) × Chain 5 (entries_since held 2)
unfolding oldest_sequence current_sequence
entries_since-gapless_example =
    entries_since-gapless held 2 held-IsValid (omega arith) (omega arith) (omega arith)

append-newest_example :
    let (j', seq) = append held (at 50) remove (some row) none (some 400) in
    (seq ≡ 5)
    × (j'.next_seq ≡ 6)
    × EndsIn (new_entry held (at 50) remove (some row) none (some 400)) held.entries j'.entries
unfolding append
append-newest_example = append-newest held (at 50) remove (some row) none (some 400) (inl refl)

append-Fits_example : Fits 2 3 (append held (at 50) remove (some row) none (some 400)).0.entries
unfolding min_pin
append-Fits_example = append-Fits held (at 50) remove (some row) none (some 400) (omega arith)

prune-keeps-pinned_example : entries_since (prune held 50) 2 ≡ entries_since held 2
unfolding min_pin
prune-keeps-pinned_example = prune-keeps-pinned held 50 (omega arith) (omega arith)

prune-loses-pinned_example : length (prune pinned 50).entries ≤ 2
unfolding min_pin
prune-loses-pinned_example =
    prune-loses-pinned pinned 50 (entry 1 10 (some 100))
      (entry 2 20 (some 200) ∷ entry 3 30 (some 300) ∷ entry 4 40 (some 300) ∷ []) refl
      (omega arith) (omega arith) (omega arith) (omega arith)

-- The entries 1 and 2 go although the client has pinned 1.
pinned_entries_go : oldest_sequence (prune pinned 50) ≡ 3
unfolding prune min_pin oldest_sequence
pinned_entries_go = refl

abbrev by_number : Comparator ℕ
by_number = record { cmp = compare; trans = λ a b c h k. ground arith }

known_le :
    (m n : ℕ) → m ≤ n → (a b : ℕ) → some m ≡ some a → some n ≡ some b → compare a b ≢ Ordering.gt
known_le m n h a b p q = ground arith

held-Ordered : Ordered by_number held.entries
held-Ordered =
    let early : 100 ≤ 200 = omega arith in
    let mid : 100 ≤ 300 = omega arith in
    let late : 200 ≤ 300 = omega arith in
    let last : 300 ≤ 300 = omega arith in
    (
      (100, refl),
      (known_le _ _ early, (known_le _ _ mid, (known_le _ _ mid, tt))),
      (
        (200, refl),
        (known_le _ _ late, (known_le _ _ late, tt)),
        ((300, refl), (known_le _ _ last, tt), ((300, refl), tt, tt)),
      ),
    )

resume-covered_example :
    entries_since held (resume_seq_for_position compare held 200).0
    ≡ entry 3 30 (some 300) ∷ entry 4 40 (some 300) ∷ []
unfolding resume_seq_for_position
resume-covered_example = resume-covered by_number held 200 held-IsValid held-Ordered refl

resume-uncovered_example : (0 < 4) × All (λ e. strictly_newer compare 50 e ≡ true) held.entries
unfolding resume_seq_for_position
resume-uncovered_example = resume-uncovered by_number held 50 held-Ordered refl

count-run_example :
    count (
      run_clients
        (new_client_registry 1)
        (registers 10 "a" ∷ registers 11 "b" ∷ registers 12 "a" ∷ unregisters "a" ∷ []))
    ≤ 1
count-run_example =
    count-run 1 (registers 10 "a" ∷ registers 11 "b" ∷ registers 12 "a" ∷ unregisters "a" ∷ [])
      (omega arith)
