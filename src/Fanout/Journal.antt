-- ===== src/Fanout/Journal.antt =====
-- target/fanout/journal.go: the bounded change journal. Times are nanoseconds since the epoch and
-- an argument of each method that reads the clock; sequence numbers are counted from 1 and stay below
-- 2 ^ 63; a limit that the code takes for disabled (zero or less) is 0. The lock makes each method
-- one step.
pub mod Suffix
pub mod Sequence
pub mod Retention
pub mod Newest
pub mod Resume
use laredo.Common.{
  ℕ, suc, zero, ◌+◌, ◌-◌, String, Bool, true, false, ◌&&◌, Option, none, some, List, [], ◌∷◌, ◌++◌,
  map, if◌then◌else◌, ltb, leb, nat_beq, length, drop, keep_if, Assoc, put, delete,
  comparable_string,
}
use Prim.Native.Nat.{Ordering}
use laredo.Types.{Row, ChangeAction}

-- what the clock shows at a method's first, second and third reading
pub record Clock : Type 0 where
  pub first : ℕ
  pub second : ℕ
  pub third : ℕ

-- `JournalEntry`, over the source's type of positions
pub record JournalEntry (P : Type 0) : Type 0 where
  pub sequence : ℕ
  pub timestamp : ℕ
  pub action : ChangeAction
  pub old_values : Option Row
  pub new_values : Option Row
  pub position : Option P

pub record Journal (P : Type 0) : Type 0 where
  pub entries : List (JournalEntry P)
  pub max_entries : ℕ
  pub max_age : ℕ
  pub next_seq : ℕ
  pub pins : Assoc String ℕ

module _ {P : Type 0} where
  -- `pin` and `unpin`
  unfoldable pub pin : Journal P → String → ℕ → Journal P
  pin j client seq = record j { pins = put j.pins client seq }

  unfoldable pub unpin : Journal P → String → Journal P
  unpin j client = record j { pins = delete j.pins client }

  -- the loop of `pruneLocked` that spends the excess on entries before the pin; it never moves
  -- past the first entry
  unfoldable pub spend : ℕ → List (JournalEntry P) → ℕ → ℕ
  spend zero es min_pin = 0
  spend (suc excess) [] min_pin = suc excess
  spend (suc excess) (e ∷ es) min_pin =
      if ltb e.sequence min_pin then spend excess (e ∷ es) min_pin else suc excess

  -- the loop that drops entries before the pin while there are too many
  unfoldable pub drop_to_pin : ℕ → ℕ → List (JournalEntry P) → List (JournalEntry P)
  drop_to_pin max_entries min_pin [] = []
  drop_to_pin max_entries min_pin (e ∷ es) =
      if ltb e.sequence min_pin && ltb max_entries (length (e ∷ es))
      then drop_to_pin max_entries min_pin es
      else e ∷ es

  -- the loop that drops entries older than the cutoff, up to the pin
  unfoldable pub drop_aged : ℕ → ℕ → ℕ → List (JournalEntry P) → List (JournalEntry P)
  drop_aged max_age min_pin now [] = []
  drop_aged max_age min_pin now (e ∷ es) =
      if ltb (e.timestamp + max_age) now
      then (if ltb 0 min_pin && leb min_pin e.sequence
          then e ∷ es
          else drop_aged max_age min_pin now es)
      else e ∷ es

  unfoldable pub prune_by_age : ℕ → ℕ → ℕ → List (JournalEntry P) → List (JournalEntry P)
  unfolding drop_aged
  prune_by_age max_age min_pin now es =
      if ltb 0 max_age then drop_aged max_age min_pin now es else es

-- the lowest pin, 0 where there is none
unfoldable pub min_pin_from : ℕ → Assoc String ℕ → ℕ
min_pin_from low [] = low
min_pin_from low ((client, seq) ∷ pins) =
    min_pin_from (if nat_beq low 0 then seq else if ltb seq low then seq else low) pins

unfoldable pub min_pin : Assoc String ℕ → ℕ
unfolding min_pin_from
min_pin pins = min_pin_from 0 pins

module _ {P : Type 0} where
  -- the entries that `pruneLocked` leaves, by the limits and the lowest pin
  unfoldable pub pruned : ℕ → ℕ → ℕ → ℕ → List (JournalEntry P) → List (JournalEntry P)
  unfolding spend drop_to_pin prune_by_age
  pruned max_entries max_age low now es =
      let excess = length es - max_entries in
      let left = spend excess es low in
      if ltb 0 max_entries && ltb max_entries (length es)
      then (if ltb 0 low
          then (if nat_beq left 0
              then drop_to_pin max_entries low es
              else prune_by_age max_age low now (drop left es))
          else prune_by_age max_age low now (drop excess es))
      else prune_by_age max_age low now es

  -- `pruneLocked`
  unfoldable pub prune : Journal P → ℕ → Journal P
  unfolding min_pin pruned
  prune j now = record j { entries = pruned j.max_entries j.max_age (min_pin j.pins) now j.entries }

  -- the entry that `append` builds
  abbrev pub new_entry :
      Journal P → Clock → ChangeAction → Option Row → Option Row → Option P → JournalEntry P
  new_entry j now action old new position = record {
    sequence = j.next_seq;
    timestamp = now.first;
    action = action;
    old_values = old;
    new_values = new;
    position = position;
  }

  -- `append`: the new journal and the entry's sequence number. The clock is read for the entry and
  -- again for the pruning.
  unfoldable pub append :
      Journal P → Clock → ChangeAction → Option Row → Option Row → Option P → Journal P × ℕ
  unfolding prune
  append j now action old new position = (
    prune
        (record j {
          next_seq = suc j.next_seq;
          entries = j.entries ++ (new_entry j now action old new position ∷ []);
        })
        now.second,
    j.next_seq,
  )

  stamp : P → JournalEntry P → JournalEntry P
  stamp p e = elim e.position [ none ↦ record e { position = some p } | some q ↦ e ]

  -- `backfillNilPositions`
  unfoldable pub backfill_nil_positions : Journal P → Option P → Journal P
  unfolding stamp
  backfill_nil_positions j none = j
  backfill_nil_positions j (some p) = record j { entries = map (stamp p) j.entries }

  -- `entriesSince`
  unfoldable pub entries_since : Journal P → ℕ → List (JournalEntry P)
  entries_since j after_seq = keep_if (λ e. ltb after_seq e.sequence) j.entries

  -- `currentSequence`, `oldestSequence`, `len`, `clear`
  unfoldable pub current_sequence : Journal P → ℕ
  current_sequence j = j.next_seq - 1

  unfoldable pub oldest_sequence : Journal P → ℕ
  oldest_sequence j = elim j.entries [ [] ↦ 0 | e ∷ es ↦ e.sequence ]

  unfoldable pub len : Journal P → ℕ
  len j = length j.entries

  unfoldable pub clear : Journal P → Journal P
  clear j = record j { entries = [] }

-- `newJournal`
unfoldable pub new_journal : (P : Type 0) → ℕ → ℕ → Journal P
new_journal P max_entries max_age = record {
  entries = [];
  max_entries = max_entries;
  max_age = max_age;
  next_seq = 1;
  pins = [];
}

module _ {P : Type 0} (cmp : P → P → Ordering) where
  -- a position that is known and at or before the client's
  abbrev pub at_or_before : P → JournalEntry P → Bool
  at_or_before p e = elim e.position [
    | none ↦ false
    | some q ↦ elim (cmp q p) [ Ordering.gt ↦ false | _ ↦ true ]
  ]

  abbrev pub strictly_newer : P → JournalEntry P → Bool
  strictly_newer p e = elim e.position [
    | none ↦ false
    | some q ↦ elim (cmp q p) [ Ordering.gt ↦ true | _ ↦ false ]
  ]

  -- the loop of `resumeSeqForPosition`
  unfoldable pub resume_scan : P → ℕ → List (JournalEntry P) → ℕ
  resume_scan p seq [] = seq
  resume_scan p seq (e ∷ es) = resume_scan p (if at_or_before p e then e.sequence else seq) es

  -- `resumeSeqForPosition` over the retained entries
  resume_from : ℕ → List (JournalEntry P) → P → ℕ × Bool
  unfolding resume_scan
  resume_from next_seq [] p = (next_seq - 1, true)
  resume_from next_seq (e ∷ es) p =
      if strictly_newer p e then (0, false) else (resume_scan p (e.sequence - 1) (e ∷ es), true)

  -- `resumeSeqForPosition`: the sequence to resume after, and whether the position is covered
  unfoldable pub resume_seq_for_position : Journal P → P → ℕ × Bool
  unfolding resume_from
  resume_seq_for_position j p = resume_from j.next_seq j.entries p
