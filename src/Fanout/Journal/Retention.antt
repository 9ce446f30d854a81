-- ===== src/Fanout/Journal/Retention.antt =====
-- What pruning keeps: the newest entry always, the size limit, and what a pin protects.
use laredo.Common.{
  ℕ, zero, suc, ◌-◌, ◌≤◌, ◌<◌, ◌≡◌, refl, sym, subst, ◌⊎◌, inl, inr, false, Option, List, [], ◌∷◌,
  ◌++◌, ◌&&◌, arith, ltb, nat_beq, length, length-drop, drop, Bool-cases, lt→ltb, le→ltb,
}
use laredo.Types.{Row, ChangeAction}
use laredo.Fanout.Journal.{
  Clock, JournalEntry, Journal, prune, pruned, append, new_entry, entries_since, min_pin,
  drop_to_pin, prune_by_age, spend,
}
use laredo.Fanout.Journal.Suffix.{
  Drops-keep_if, Drops-length, HeadBefore, pruned-Drops, prune_by_age-Any, spend-zero,
}

module _ {P : Type 0} where
  -- While the oldest entry stands before the lowest pin, pruning loses no entry at or after the
  -- pin: a client that resumes there is served the same entries as before.
  pub prune-keeps-pinned :
      (j : Journal P) (now : ℕ)
      → 0 < min_pin j.pins
      → HeadBefore (min_pin j.pins) j.entries
      → entries_since (prune j now) (min_pin j.pins - 1) ≡ entries_since j (min_pin j.pins - 1)
  unfolding prune entries_since
  prune-keeps-pinned j now h b = sym (
      Drops-keep_if (λ e. ltb (min_pin j.pins - 1) e.sequence) (λ a q. ground arith)
        (pruned-Drops j.max_entries j.max_age (min_pin j.pins) now j.entries h b))

  spend-at_pin :
      (excess low : ℕ) (es : List (JournalEntry P)) (e : JournalEntry P)
      → low ≤ e.sequence
      → spend excess (e ∷ es) low ≡ excess
  unfolding spend
  spend-at_pin zero low es e h = refl
  spend-at_pin (suc excess) low es e h = rw (le→ltb e.sequence low h)

  pruned_over_pin :
      (m age low now : ℕ) (es : List (JournalEntry P)) (e : JournalEntry P)
      → 0 < low
      → low ≤ e.sequence
      → 0 < m
      → m < length (e ∷ es)
      → pruned m age low now (e ∷ es)
        ≡ prune_by_age age low now (drop (length (e ∷ es) - m) (e ∷ es))
  unfolding pruned
  pruned_over_pin m age low now es e h p k o =
      let excess : ℕ = length (e ∷ es) - m in
      let some_left : nat_beq excess 0 ≡ false = ground arith in
      rw (
        lt→ltb 0 m k,
        lt→ltb m (length (e ∷ es)) o,
        lt→ltb 0 low h,
        spend-at_pin excess low es e p,
        some_left,
      )

  prune_by_age-le :
      (age low now n : ℕ) (es : List (JournalEntry P))
      → length es ≤ n
      → length (prune_by_age age low now es) ≤ n
  prune_by_age-le age low now n es h = omega (arith, Drops-length (prune_by_age-Any age low now es))

  -- The opposite case breaks the promise of `pin`: once the oldest entry is itself pinned, a
  -- journal over its size limit is cut to the limit whatever the pin says.
  pub prune-loses-pinned :
      (j : Journal P) (now : ℕ) (e : JournalEntry P) (es : List (JournalEntry P))
      → j.entries ≡ e ∷ es
      → 0 < min_pin j.pins
      → min_pin j.pins ≤ e.sequence
      → 0 < j.max_entries
      → j.max_entries < length j.entries
      → length (prune j now).entries ≤ j.max_entries
  unfolding prune
  prune-loses-pinned j now e es q h p m o =
      let over : j.max_entries < length (e ∷ es) = subst (λ l. j.max_entries < length l) q o in
      rw (q, pruned_over_pin j.max_entries j.max_age (min_pin j.pins) now es e h p m over)
        (prune_by_age-le j.max_age (min_pin j.pins) now j.max_entries _
          (omega (arith, length-drop {0} (length (e ∷ es) - j.max_entries) (e ∷ es))))

  -- At most `m` entries, or all of them pinned.
  abbrev pub Fits : ℕ → ℕ → List (JournalEntry P) → Type 0
  Fits m low [] = Unit {0}
  Fits m low (e ∷ es) = (length (e ∷ es) ≤ m) ⊎ ((0 < low) × (low ≤ e.sequence))

  drop_to_pin-Fits :
      (m low : ℕ) (es : List (JournalEntry P)) → 0 < low → Fits m low (drop_to_pin m low es)
  unfolding drop_to_pin
  drop_to_pin-Fits m low [] h = tt
  drop_to_pin-Fits m low (e ∷ es) h =
      elim (Bool-cases (ltb e.sequence low && ltb m (length (e ∷ es)))) [
        | inl y ↦ rw (y, drop_to_pin) (drop_to_pin-Fits m low es h)
        | inr n ↦ rw (n, drop_to_pin) (ground arith)
      ]

  Fits-le : (m low : ℕ) (es : List (JournalEntry P)) → length es ≤ m → Fits m low es
  Fits-le m low [] h = tt
  Fits-le m low (e ∷ es) h = inl h

  pub spend-le : (excess low : ℕ) (es : List (JournalEntry P)) → spend excess es low ≤ excess
  unfolding spend
  spend-le zero low es = omega arith
  spend-le (suc excess) low [] = omega arith
  spend-le (suc excess) low (e ∷ es) = ground (arith, spend-le excess low (e ∷ es))

  -- Either the whole excess is left, or none of it.
  spend_all_or_none :
      (excess low : ℕ) (es : List (JournalEntry P))
      → (spend excess es low ≡ excess) ⊎ (spend excess es low ≡ 0)
  unfolding spend
  spend_all_or_none zero low es = inl refl
  spend_all_or_none (suc excess) low [] = inl refl
  spend_all_or_none (suc excess) low (e ∷ es) = elim (Bool-cases (ltb e.sequence low)) [
    | inl y ↦ inr (rw y (spend-zero excess low es e (ground arith)))
    | inr n ↦ inl (rw n)
  ]

  pruned-Fits :
      (m age low now : ℕ) (es : List (JournalEntry P))
      → 0 < m
      → Fits m low (pruned m age low now es)
  unfolding pruned
  pruned-Fits m age low now es h = elim (Bool-cases (ltb 0 m && ltb m (length es))) [
    | inr n ↦ rw (n, pruned) (Fits-le m low _ (prune_by_age-le age low now m es (ground arith)))
    | inl y ↦ elim (Bool-cases (ltb 0 low)) [
      | inr n ↦
          rw (y, n, pruned)
            (Fits-le m low _
              (prune_by_age-le age low now m _ (omega (arith, length-drop {0} (length es - m) es))))
      | inl z ↦ elim (Bool-cases (nat_beq (spend (length es - m) es low) 0)) [
        | inl w ↦ rw (y, z, w, pruned) (drop_to_pin-Fits m low es (ground arith))
        | inr w ↦
            rw (y, z, w, pruned)
              (Fits-le m low _ (
                prune_by_age-le age low now m _ (
                  ground (
                    arith,
                    spend_all_or_none (length es - m) low es,
                    length-drop (spend (length es - m) es low) es,
                  ))))
      ]
    ]
  ]

  -- A journal with a size limit holds at most that many entries after every append, unless the
  -- oldest of them stands at or after the lowest pin.
  pub append-Fits :
      (j : Journal P) (now : Clock) (action : ChangeAction) (old new : Option Row)
      (position : Option P)
      → 0 < j.max_entries
      → Fits j.max_entries (min_pin j.pins) (append j now action old new position).0.entries
  unfolding append prune
  append-Fits j now action old new position h =
      pruned-Fits j.max_entries j.max_age (min_pin j.pins) now.second
        (j.entries ++ (new_entry j now action old new position ∷ [])) h
