-- ===== src/Fanout/Journal/Sequence.antt =====
-- Sequence numbers of the journal: no gap, no repetition, in every state that its methods reach.
use laredo.Common.{
  ℕ, suc, ◌+◌, ◌≤◌, ◌<◌, ◌≡◌, refl, ap, inl, inr, String, true, Option, none, some, List, [], ◌∷◌,
  ◌++◌, map, arith, ltb, length, length-append, keep_if, keep_if-All, All, Bool-cases,
}
use laredo.Types.{Row, ChangeAction}
use laredo.Fanout.Journal.{
  Clock, JournalEntry, Journal, pin, unpin, prune, append, new_entry, stamp, backfill_nil_positions,
  clear, new_journal, entries_since, current_sequence, oldest_sequence, min_pin,
}
use laredo.Fanout.Journal.Suffix.{Drops, here, skip, pruned-Any}

-- A call of one of the journal's methods that changes it.
pub data Call (P : Type 0) : Type 0 where
  pins : String → ℕ → Call P
  unpins : String → Call P
  appends : Clock → ChangeAction → Option Row → Option Row → Option P → Call P
  prunes : ℕ → Call P
  backfills : Option P → Call P
  clears : Call P

module _ {P : Type 0} where
  -- The entries carry the last sequence numbers before `next`, one each, from 1 on.
  abbrev pub Chain : ℕ → List (JournalEntry P) → Type 0
  Chain next [] = Unit {0}
  Chain next (e ∷ es) = (0 < e.sequence) × (e.sequence + length (e ∷ es) ≡ next) × Chain next es

  pub record IsValid (j : Journal P) : Type 0 where
    pub chain : Chain j.next_seq j.entries
    pub started : 0 < j.next_seq

  pub Drops-Chain :
      {Q : JournalEntry P → Type 0} {xs ys : List (JournalEntry P)} (n : ℕ)
      → Drops Q xs ys
      → Chain n ys
      → Chain n xs
  Drops-Chain n here c = c
  Drops-Chain n (skip q d) c = Drops-Chain n d c.2

  pub Chain-snoc :
      (n : ℕ) (es : List (JournalEntry P)) (e : JournalEntry P)
      → e.sequence ≡ n
      → 0 < n
      → Chain n es
      → Chain (suc n) (es ++ (e ∷ []))
  Chain-snoc n [] e q h c = (omega arith, omega arith, tt)
  Chain-snoc n (x ∷ es) e q h c =
      (c.0, omega (arith, length-append es (e ∷ []), c.1), Chain-snoc n es e q h c.2)

  sequence-stamp : (p : P) (e : JournalEntry P) → (stamp p e).sequence ≡ e.sequence
  unfolding stamp
  sequence-stamp p e = ground arith

  length-stamp : (p : P) (es : List (JournalEntry P)) → length (map (stamp p) es) ≡ length es
  length-stamp p [] = refl
  length-stamp p (e ∷ es) = ap suc (length-stamp p es)

  Chain-stamp :
      (n : ℕ) (p : P) (es : List (JournalEntry P)) → Chain n es → Chain n (map (stamp p) es)
  Chain-stamp n p [] c = tt
  Chain-stamp n p (e ∷ es) c =
      rw (sequence-stamp p e, length-stamp p es) (c.0, c.1, Chain-stamp n p es c.2)

  pub prune-IsValid : (j : Journal P) (now : ℕ) → IsValid j → IsValid (prune j now)
  unfolding prune
  prune-IsValid j now v = record {
    chain =
        Drops-Chain j.next_seq (pruned-Any j.max_entries j.max_age (min_pin j.pins) now j.entries)
          v.chain;
    started = v.started;
  }

  pub append-IsValid :
      (j : Journal P) (now : Clock) (action : ChangeAction) (old new : Option Row)
      (position : Option P)
      → IsValid j
      → IsValid (append j now action old new position).0
  unfolding append
  append-IsValid j now action old new position v = prune-IsValid _ now.second (record {
    chain =
        Chain-snoc j.next_seq j.entries (new_entry j now action old new position) refl v.started
          v.chain;
    started = omega arith;
  })

  pub step : Journal P → Call P → Journal P
  step j (pins client seq) = pin j client seq
  step j (unpins client) = unpin j client
  step j (appends now action old new position) = (append j now action old new position).0
  step j (prunes now) = prune j now
  step j (backfills position) = backfill_nil_positions j position
  step j clears = clear j

  pub run : Journal P → List (Call P) → Journal P
  run j [] = j
  run j (c ∷ cs) = run (step j c) cs

  pub step-IsValid : (j : Journal P) (c : Call P) → IsValid j → IsValid (step j c)
  unfolding step pin unpin backfill_nil_positions clear
  step-IsValid j (pins client seq) v = record { chain = v.chain; started = v.started }
  step-IsValid j (unpins client) v = record { chain = v.chain; started = v.started }
  step-IsValid j (appends now action old new position) v =
      append-IsValid j now action old new position v
  step-IsValid j (prunes now) v = prune-IsValid j now v
  step-IsValid j (backfills none) v = v
  step-IsValid j (backfills (some p)) v = record {
    chain = Chain-stamp j.next_seq p j.entries v.chain;
    started = v.started;
  }
  step-IsValid j clears v = record { chain = tt; started = v.started }

  run-IsValid : (j : Journal P) (cs : List (Call P)) → IsValid j → IsValid (run j cs)
  unfolding run
  run-IsValid j [] v = v
  run-IsValid j (c ∷ cs) v = run-IsValid (step j c) cs (step-IsValid j c v)

  -- In every state that calls of the methods reach from a new journal, the retained entries carry
  -- consecutive sequence numbers, the last of them the one before the next to be given.
  pub run-new_journal-IsValid :
      (max_entries max_age : ℕ) (cs : List (Call P))
      → IsValid (run (new_journal P max_entries max_age) cs)
  unfolding new_journal
  run-new_journal-IsValid max_entries max_age cs =
      run-IsValid _ cs (record { chain = tt; started = omega arith })

  All-newer :
      (a next : ℕ) (es : List (JournalEntry P))
      → Chain next es
      → suc a + length es ≤ next
      → All (λ e. ltb a e.sequence ≡ true) es
  All-newer a next [] c h = tt
  All-newer a next (e ∷ es) c h = (ground arith, All-newer a next es c.2 (omega arith))

  since_gapless :
      (a next : ℕ) (es : List (JournalEntry P))
      → Chain next es
      → a < next
      → next ≤ suc a + length es
      → let newer = keep_if (λ e. ltb a e.sequence) es in
        (suc a + length newer ≡ next) × Chain next newer
  since_gapless a next [] c h k = (omega arith, tt)
  since_gapless a next (e ∷ es) c h k = elim (Bool-cases (ltb a e.sequence)) [
    | inl y ↦
        let all : keep_if (λ e. ltb a e.sequence) es ≡ es =
          keep_if-All _ es (All-newer a next es c.2 (ground arith)) in
        rw (y, all) (ground arith, c)
    | inr n ↦ rw n (since_gapless a next es c.2 h (ground arith))
  ]

  covers :
      (a next : ℕ) (es : List (JournalEntry P))
      → Chain next es
      → 0 < length es
      → elim es [ [] ↦ 0 | e ∷ rest ↦ e.sequence ] ≤ suc a
      → next ≤ suc a + length es
  covers a next [] c n o = elim n [ ]
  covers a next (e ∷ es) c n o = omega arith

  -- A client that has everything up to `after` gets from `entries_since` exactly the entries
  -- `after + 1`, `after + 2`, … up to the current sequence, provided that the journal still holds
  -- its successor: `oldest ≤ after + 1`.
  pub entries_since-gapless :
      (j : Journal P) (after : ℕ)
      → IsValid j
      → 0 < length j.entries
      → oldest_sequence j ≤ suc after
      → after ≤ current_sequence j
      → (suc after + length (entries_since j after) ≡ j.next_seq)
        × Chain j.next_seq (entries_since j after)
  unfolding entries_since oldest_sequence current_sequence
  entries_since-gapless j after v n o h =
      since_gapless after j.next_seq j.entries v.chain (omega (arith, v.started))
        (covers after j.next_seq j.entries v.chain n o)
