-- ===== src/Replication/History.antt =====
-- The journal of a streaming target holds the last part of everything that was appended to it.
use mathlib.Core.List.{append-nil, append_assoc}
use laredo.Common.{
  ℕ, suc, ◌-◌, ◌≤◌, ◌<◌, ◌≡◌, refl, sym, ◌∙◌, String, true, false, Option, List, [], ◌∷◌, ◌++◌,
  arith, ltb, length, keep_if, keep_if-append, keep_if-All, keep_if-none, All,
}
use laredo.Types.{Row, ChangeAction, Printing}
use laredo.Fanout.Journal.{
  Clock, JournalEntry, Journal, min_pin, append, new_entry, entries_since, current_sequence,
  oldest_sequence, pin, unpin, prune,
}
use laredo.Fanout.Journal.Suffix.{
  Drops, here, skip, Any, pruned-Any, Drops-trans, Drops-keep_if, Drops-length,
}
use laredo.Fanout.Journal.Sequence.{Chain, IsValid, Drops-Chain, Chain-snoc}
use laredo.Fanout.Target.{
  Target, set_change_position, on_insert, on_update, on_delete, on_truncate, take_snapshot,
  pin_journal, unpin_journal,
}
use laredo.Replication.Stream.{
  Event, positions, inserts, updates, deletes, truncates, snapshots, pins, unpins, step, run,
  emitted, history,
}

module _ {P : Type 0} where
  Drops-append :
      {Q : JournalEntry P → Type 0} {xs ys : List (JournalEntry P)} (zs : List (JournalEntry P))
      → Drops Q xs ys
      → Drops Q (xs ++ zs) (ys ++ zs)
  Drops-append zs here = here
  Drops-append zs (skip q d) = skip q (Drops-append zs d)

  -- What an append does to the entries and to the next sequence number.
  append_Drops :
      (j : Journal P) (now : Clock) (a : ChangeAction) (old new : Option Row) (p : Option P)
      → Drops Any
          (append j now a old new p).0.entries
          (j.entries ++ (new_entry j now a old new p ∷ []))
  unfolding append prune
  append_Drops j now a old new p =
      pruned-Any j.max_entries j.max_age (min_pin j.pins) now.second
        (j.entries ++ (new_entry j now a old new p ∷ []))

module _ {P : Type 0} (f : Printing) (separator : String) where
  step-Drops :
      (t : Target P) (now : Clock) (e : Event P)
      → Drops Any (step f separator t now e).j.entries (t.j.entries ++ emitted f separator t now e)
  unfolding step emitted on_insert on_update on_delete on_truncate take_snapshot pin_journal
      unpin_journal set_change_position pin unpin
  step-Drops t now (positions p) = rw append-nil here
  step-Drops t now (inserts row) = append_Drops _ now _ _ _ _
  step-Drops t now (updates row identity) = append_Drops _ now _ _ _ _
  step-Drops t now (deletes identity) = append_Drops _ now _ _ _ _
  step-Drops t now truncates = append_Drops _ now _ _ _ _
  step-Drops t now snapshots = rw append-nil here
  step-Drops t now (pins client seq) = rw append-nil here
  step-Drops t now (unpins client) = rw append-nil here

  run-Drops :
      (t : Target P) (es : List (Clock × Event P))
      → Drops Any (run f separator t es).j.entries (t.j.entries ++ history f separator t es)
  unfolding run history
  run-Drops t [] = rw append-nil here
  run-Drops t ((now, e) ∷ es) =
      let t' : Target P = step f separator t now e in
      rw (← append_assoc) (
        Drops-trans (run-Drops t' es)
          (Drops-append (history f separator t' es) (step-Drops t now e)))

  step-Chain :
      (t : Target P) (now : Clock) (e : Event P) (pre : List (JournalEntry P))
      → 0 < t.j.next_seq
      → Chain t.j.next_seq pre
      → Chain (step f separator t now e).j.next_seq (pre ++ emitted f separator t now e)
  unfolding step emitted on_insert on_update on_delete on_truncate take_snapshot pin_journal
      unpin_journal set_change_position pin unpin append prune
  step-Chain t now (positions p) pre h c = rw append-nil c
  step-Chain t now (inserts row) pre h c = Chain-snoc _ pre _ refl h c
  step-Chain t now (updates row identity) pre h c = Chain-snoc _ pre _ refl h c
  step-Chain t now (deletes identity) pre h c = Chain-snoc _ pre _ refl h c
  step-Chain t now truncates pre h c = Chain-snoc _ pre _ refl h c
  step-Chain t now snapshots pre h c = rw append-nil c
  step-Chain t now (pins client seq) pre h c = rw append-nil c
  step-Chain t now (unpins client) pre h c = rw append-nil c

  -- A call never takes a sequence number back, and numbers its entries from the next one on.
  step_numbers :
      (t : Target P) (now : Clock) (e : Event P) (s : ℕ)
      → s < t.j.next_seq
      → (s < (step f separator t now e).j.next_seq)
        × All (λ x. ltb s x.sequence ≡ true) (emitted f separator t now e)
  unfolding step emitted on_insert on_update on_delete on_truncate take_snapshot pin_journal
      unpin_journal set_change_position pin unpin append prune
  step_numbers t now (positions p) s h = (h, tt)
  step_numbers t now (inserts row) s h = (omega arith, (ground arith, tt))
  step_numbers t now (updates row identity) s h = (omega arith, (ground arith, tt))
  step_numbers t now (deletes identity) s h = (omega arith, (ground arith, tt))
  step_numbers t now truncates s h = (omega arith, (ground arith, tt))
  step_numbers t now snapshots s h = (h, tt)
  step_numbers t now (pins client seq) s h = (h, tt)
  step_numbers t now (unpins client) s h = (h, tt)

  run-Chain :
      (t : Target P) (es : List (Clock × Event P)) (pre : List (JournalEntry P))
      → 0 < t.j.next_seq
      → Chain t.j.next_seq pre
      → Chain (run f separator t es).j.next_seq (pre ++ history f separator t es)
  unfolding run history
  run-Chain t [] pre h c = rw append-nil c
  run-Chain t ((now, e) ∷ es) pre h c = rw (← append_assoc) (
      run-Chain (step f separator t now e) es _ (step_numbers t now e 0 h).0
        (step-Chain t now e pre h c))

  All-append :
      (Q : JournalEntry P → Type 0) (xs ys : List (JournalEntry P))
      → All Q xs
      → All Q ys
      → All Q (xs ++ ys)
  All-append Q [] ys p q = q
  All-append Q (x ∷ xs) ys p q = (p.0, All-append Q xs ys p.1 q)

  history_numbers :
      (t : Target P) (es : List (Clock × Event P)) (s : ℕ)
      → s < t.j.next_seq
      → All (λ x. ltb s x.sequence ≡ true) (history f separator t es)
  unfolding history
  history_numbers t [] s h = tt
  history_numbers t ((now, e) ∷ es) s h =
      let (later, new) = step_numbers t now e s h in
      All-append _ _ _ new (history_numbers (step f separator t now e) es s later)

  Chain-old :
      (n s : ℕ) (es : List (JournalEntry P))
      → Chain n es
      → n ≤ suc s
      → All (λ x. ltb s x.sequence ≡ false) es
  Chain-old n s [] c h = tt
  Chain-old n s (e ∷ es) c h = (ground arith, Chain-old n s es c.2 h)

  -- What was dropped from the front of a chain stands before its first entry.
  Drops-old :
      (n s : ℕ) (e : JournalEntry P) (es : List (JournalEntry P)) {whole : List (JournalEntry P)}
      → Drops Any (e ∷ es) whole
      → Chain n whole
      → e.sequence ≤ suc s
      → Drops (λ x. x.sequence ≤ s) (e ∷ es) whole
  Drops-old n s e es here c h = here
  Drops-old n s e es (skip {a = a} q d) c h =
      skip (omega (arith, Drops-length d, c.1, (Drops-Chain n d c.2).1))
        (Drops-old n s e es d c.2 h)

  since_Drops :
      (n s : ℕ) (es : List (JournalEntry P)) {whole : List (JournalEntry P)}
      → Drops Any es whole
      → Chain n whole
      → 0 < length es
      → elim es [ [] ↦ 0 | e ∷ rest ↦ e.sequence ] ≤ suc s
      → keep_if (λ x. ltb s x.sequence) es ≡ keep_if (λ x. ltb s x.sequence) whole
  since_Drops n s [] d c k h = elim k [ ]
  since_Drops n s (e ∷ es) d c k h =
      sym (Drops-keep_if (λ x. ltb s x.sequence) (λ x q. ground arith) (Drops-old n s e es d c h))

  -- Whatever was pruned meanwhile: as long as the journal still holds the entry after `s`, the
  -- sequence at which a client stood, `entries_since` gives all that was appended since.
  pub entries_since-run :
      (t : Target P) (es : List (Clock × Event P))
      → IsValid t.j
      → 0 < length (run f separator t es).j.entries
      → oldest_sequence (run f separator t es).j ≤ suc (current_sequence t.j)
      → entries_since (run f separator t es).j (current_sequence t.j) ≡ history f separator t es
  unfolding entries_since oldest_sequence current_sequence
  entries_since-run t es v k h =
      let s : ℕ = t.j.next_seq - 1 in
      since_Drops _ s _ (run-Drops t es) (run-Chain t es t.j.entries v.started v.chain) k h
      ∙ keep_if-append (λ x. ltb s x.sequence) t.j.entries (history f separator t es)
      ∙ (rw
          (keep_if-none (λ x. ltb s x.sequence) t.j.entries
            (Chain-old t.j.next_seq s t.j.entries v.chain (omega arith)))
          (keep_if-All (λ x. ltb s x.sequence) (history f separator t es)
            (history_numbers t es s (omega (arith, v.started)))))
