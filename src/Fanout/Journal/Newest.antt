-- ===== src/Fanout/Journal/Newest.antt =====
-- The entry that `append` adds is never the one that its pruning drops.
use laredo.Common.{
  ℕ, zero, suc, ◌+◌, ◌-◌, ◌≤◌, ◌<◌, ◌≡◌, refl, ap, ◌⊎◌, inl, inr, Option, List, [], ◌∷◌, ◌++◌, ◌&&◌,
  arith, ltb, nat_beq, length, length-append, drop, Bool-cases, le→ltb,
}
use laredo.Types.{Row, ChangeAction}
use laredo.Fanout.Journal.{
  Clock, JournalEntry, Journal, prune, pruned, append, new_entry, min_pin, drop_to_pin, drop_aged,
  prune_by_age, spend,
}
use laredo.Fanout.Journal.Suffix.{Drops, here, skip, Any, pruned-Any}
use laredo.Fanout.Journal.Retention.{spend-le}

module _ {P : Type 0} where
  -- `xs` ends in `a`, after the last few of the entries `front`.
  abbrev pub EndsIn : JournalEntry P → List (JournalEntry P) → List (JournalEntry P) → Type 0
  EndsIn a front xs =
      (rest : List (JournalEntry P)) × (xs ≡ rest ++ (a ∷ [])) × Drops Any rest front

  Drops-nil : {xs ys : List (JournalEntry P)} → Drops Any xs ys → ys ≡ [] → xs ≡ []
  Drops-nil here e = e
  Drops-nil (skip q d) e = cc

  Drops-snoc :
      (a : JournalEntry P) {xs : List (JournalEntry P)} (front : List (JournalEntry P))
      {whole : List (JournalEntry P)}
      → Drops Any xs whole
      → whole ≡ front ++ (a ∷ [])
      → (xs ≡ []) ⊎ EndsIn a front xs
  Drops-snoc a front here e = inr (front, e, here)
  Drops-snoc a [] (skip q d) e = inl (Drops-nil d (ground arith))
  Drops-snoc a (x ∷ front) (skip q d) e = elim (Drops-snoc a front d (ground arith)) [
    | inl z ↦ inl z
    | inr (rest, p, r) ↦ inr (rest, p, skip tt r)
  ]

  drop_to_pin-length :
      (m low : ℕ) (es : List (JournalEntry P)) → m ≤ length es → m ≤ length (drop_to_pin m low es)
  unfolding drop_to_pin
  drop_to_pin-length m low [] h = h
  drop_to_pin-length m low (e ∷ es) h = ground (arith, drop_to_pin-length m low es)

  -- An entry that is not older than the cutoff stops the pruning by age.
  aged_stops :
      (age low now : ℕ) (es : List (JournalEntry P)) (e : JournalEntry P)
      → now ≤ e.timestamp + age
      → 0 < length (drop_aged age low now (es ++ (e ∷ [])))
  unfolding drop_aged
  aged_stops age low now [] e h = rw (le→ltb (e.timestamp + age) now (omega arith)) (omega arith)
  aged_stops age low now (x ∷ es) e h = ground (arith, aged_stops age low now es e h)

  by_age_stops :
      (age low now : ℕ) (es : List (JournalEntry P)) (e : JournalEntry P)
      → (age ≡ 0) ⊎ (now ≤ e.timestamp + age)
      → 0 < length (prune_by_age age low now (es ++ (e ∷ [])))
  unfolding prune_by_age
  by_age_stops age low now es e (inl z) =
      rw (le→ltb 0 age (omega arith)) (omega (arith, length-append es (e ∷ [])))
  by_age_stops age low now es e (inr h) =
      ground (arith, aged_stops age low now es e h, length-append es (e ∷ []))

  drop-snoc :
      (k : ℕ) (es : List (JournalEntry P)) (e : JournalEntry P)
      → k ≤ length es
      → drop k (es ++ (e ∷ [])) ≡ drop k es ++ (e ∷ [])
  drop-snoc zero es e h = refl
  drop-snoc (suc k) [] e h = absurd (omega arith)
  drop-snoc (suc k) (x ∷ es) e h = drop-snoc k es e (omega arith)

  by_age_drop_stops :
      (age low now k : ℕ) (es : List (JournalEntry P)) (e : JournalEntry P)
      → (age ≡ 0) ⊎ (now ≤ e.timestamp + age)
      → k ≤ length es
      → 0 < length (prune_by_age age low now (drop k (es ++ (e ∷ []))))
  by_age_drop_stops age low now k es e h b =
      rw (drop-snoc k es e b) (by_age_stops age low now (drop k es) e h)

  pruned_nonempty :
      (m age low now : ℕ) (es : List (JournalEntry P)) (e : JournalEntry P)
      → (age ≡ 0) ⊎ (now ≤ e.timestamp + age)
      → 0 < length (pruned m age low now (es ++ (e ∷ [])))
  unfolding pruned
  pruned_nonempty m age low now es e h =
      let whole : List (JournalEntry P) = es ++ (e ∷ []) in
      let size : length whole ≡ length es + 1 = length-append es (e ∷ []) in
      elim (Bool-cases (ltb 0 m && ltb m (length whole))) [
        | inr n ↦ rw (n, pruned) (by_age_stops age low now es e h)
        | inl y ↦ elim (Bool-cases (ltb 0 low)) [
          | inr n ↦
              rw (y, n, pruned)
                (by_age_drop_stops age low now (length whole - m) es e h (ground arith))
          | inl z ↦ elim (Bool-cases (nat_beq (spend (length whole - m) whole low) 0)) [
            | inl w ↦ rw (y, z, w, pruned) (ground (arith, drop_to_pin-length m low whole))
            | inr w ↦
                rw (y, z, w, pruned)
                  (by_age_drop_stops age low now (spend (length whole - m) whole low) es e h
                    (ground (arith, spend-le (length whole - m) low whole)))
          ]
        ]
      ]

  -- `append` returns the next sequence number and leaves a journal that ends in the new entry,
  -- under that number, after the last few of the entries that it held before. Where entries age,
  -- this needs the call itself to take no longer than an entry may age.
  pub append-newest :
      (j : Journal P) (now : Clock) (action : ChangeAction) (old new : Option Row)
      (position : Option P)
      → (j.max_age ≡ 0) ⊎ (now.second ≤ now.first + j.max_age)
      → let (j', seq) = append j now action old new position in
        (seq ≡ j.next_seq)
        × (j'.next_seq ≡ suc seq)
        × EndsIn (new_entry j now action old new position) j.entries j'.entries
  unfolding append prune
  append-newest j now action old new position h =
      let e : JournalEntry P = new_entry j now action old new position in
      (
        refl,
        refl,
        elim (Drops-snoc e j.entries
            (pruned-Any j.max_entries j.max_age (min_pin j.pins) now.second (j.entries ++ (e ∷ [])))
            refl) [
              | inl z ↦ absurd (
                  omega (
                    arith,
                    ap length z,
                    pruned_nonempty j.max_entries j.max_age (min_pin j.pins) now.second j.entries e
                        h,
                  ))
              | inr r ↦ r
            ],
      )
