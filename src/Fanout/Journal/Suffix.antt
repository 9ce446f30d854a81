-- ===== src/Fanout/Journal/Suffix.antt =====
-- Each loop of `pruneLocked` drops entries from the front of the journal, and only ones of a kind.
use laredo.Common.{
  ℕ, zero, suc, ◌+◌, ◌-◌, ◌≤◌, ◌<◌, ◌≡◌, refl, inl, inr, Bool, false, ◌&&◌, List, [], ◌∷◌, arith,
  ltb, leb, length, drop, keep_if, Bool-cases, nat_beq, lt→ltb,
}
use laredo.Fanout.Journal.{JournalEntry, drop_to_pin, drop_aged, prune_by_age, spend, pruned}

-- `rest` is what is left of the index list when entries of the kind `Q` are dropped from its front.
pub data Drops {A : Type 0} (Q : A → Type 0) (rest : List A) : List A → Type 0 where
  here : Drops Q rest rest
  skip : {a : A} {whole : List A} → Q a → Drops Q rest whole → Drops Q rest (a ∷ whole)

module _ {A : Type 0} where
  pub Drops-trans :
      {Q : A → Type 0} {xs ys zs : List A} → Drops Q xs ys → Drops Q ys zs → Drops Q xs zs
  Drops-trans d here = d
  Drops-trans d (skip q d') = skip q (Drops-trans d d')

  pub Drops-mono :
      {Q R : A → Type 0} {xs ys : List A} → ((a : A) → Q a → R a) → Drops Q xs ys → Drops R xs ys
  Drops-mono f here = here
  Drops-mono f (skip {a = a} q d) = skip (f a q) (Drops-mono f d)

  pub Drops-drop : (k : ℕ) (xs : List A) → Drops (λ _. Unit {0}) (drop k xs) xs
  Drops-drop zero xs = here
  Drops-drop (suc k) [] = here
  Drops-drop (suc k) (x ∷ xs) = skip tt (Drops-drop k xs)

  pub Drops-keep_if :
      {Q : A → Type 0} {xs ys : List A} (p : A → Bool)
      → ((a : A) → Q a → p a ≡ false)
      → Drops Q xs ys
      → keep_if p ys ≡ keep_if p xs
  Drops-keep_if p f here = refl
  Drops-keep_if p f (skip {a = a} q d) = ground (arith, f a q, Drops-keep_if p f d)

  pub Drops-length : {Q : A → Type 0} {xs ys : List A} → Drops Q xs ys → length xs ≤ length ys
  Drops-length here = omega arith
  Drops-length (skip q d) = omega (arith, Drops-length d)

module _ {P : Type 0} where
  -- before the pin
  abbrev pub Before : ℕ → JournalEntry P → Type 0
  Before low e = e.sequence < low

  abbrev pub Any : JournalEntry P → Type 0
  Any e = Unit {0}

  pub drop_to_pin-Drops :
      (m low : ℕ) (es : List (JournalEntry P)) → Drops (Before low) (drop_to_pin m low es) es
  unfolding drop_to_pin
  drop_to_pin-Drops m low [] = here
  drop_to_pin-Drops m low (e ∷ es) =
      elim (Bool-cases (ltb e.sequence low && ltb m (length (e ∷ es)))) [
        | inl y ↦ rw (y, drop_to_pin) (skip (ground arith) (drop_to_pin-Drops m low es))
        | inr n ↦ rw (n, drop_to_pin) here
      ]

  pub drop_aged-Drops :
      (age low now : ℕ) (es : List (JournalEntry P))
      → 0 < low
      → Drops (Before low) (drop_aged age low now es) es
  unfolding drop_aged
  drop_aged-Drops age low now [] h = here
  drop_aged-Drops age low now (e ∷ es) h = elim (Bool-cases (ltb (e.timestamp + age) now)) [
    | inr n ↦ rw (n, drop_aged) here
    | inl y ↦ elim (Bool-cases (ltb 0 low && leb low e.sequence)) [
      | inl z ↦ rw (y, z, drop_aged) here
      | inr z ↦ rw (y, z, drop_aged) (skip (ground arith) (drop_aged-Drops age low now es h))
    ]
  ]

  drop_aged-Any :
      (age low now : ℕ) (es : List (JournalEntry P)) → Drops Any (drop_aged age low now es) es
  unfolding drop_aged
  drop_aged-Any age low now [] = here
  drop_aged-Any age low now (e ∷ es) = elim (Bool-cases (ltb (e.timestamp + age) now)) [
    | inr n ↦ rw (n, drop_aged) here
    | inl y ↦ elim (Bool-cases (ltb 0 low && leb low e.sequence)) [
      | inl z ↦ rw (y, z, drop_aged) here
      | inr z ↦ rw (y, z, drop_aged) (skip tt (drop_aged-Any age low now es))
    ]
  ]

  pub prune_by_age-Drops :
      (age low now : ℕ) (es : List (JournalEntry P))
      → 0 < low
      → Drops (Before low) (prune_by_age age low now es) es
  unfolding prune_by_age
  prune_by_age-Drops age low now es h = elim (Bool-cases (ltb 0 age)) [
    | inl y ↦ rw y (drop_aged-Drops age low now es h)
    | inr n ↦ rw n here
  ]

  pub prune_by_age-Any :
      (age low now : ℕ) (es : List (JournalEntry P)) → Drops Any (prune_by_age age low now es) es
  unfolding prune_by_age
  prune_by_age-Any age low now es = elim (Bool-cases (ltb 0 age)) [
    | inl y ↦ rw y (drop_aged-Any age low now es)
    | inr n ↦ rw n here
  ]

  -- Whatever the limits and the pins, pruning leaves a suffix of the journal.
  pub pruned-Any :
      (m age low now : ℕ) (es : List (JournalEntry P)) → Drops Any (pruned m age low now es) es
  unfolding pruned
  pruned-Any m age low now es = elim (Bool-cases (ltb 0 m && ltb m (length es))) [
    | inr n ↦ rw (n, pruned) (prune_by_age-Any age low now es)
    | inl y ↦ elim (Bool-cases (ltb 0 low)) [
      | inr n ↦
          rw (y, n, pruned)
            (Drops-trans (prune_by_age-Any age low now _) (Drops-drop (length es - m) es))
      | inl z ↦ elim (Bool-cases (nat_beq (spend (length es - m) es low) 0)) [
        | inl w ↦ rw (y, z, w, pruned) (Drops-mono (λ a q. tt) (drop_to_pin-Drops m low es))
        | inr w ↦
            rw (y, z, w, pruned)
              (Drops-trans (prune_by_age-Any age low now _)
                (Drops-drop (spend (length es - m) es low) es))
      ]
    ]
  ]

  -- The first entry stands before the pin, or there is none.
  abbrev pub HeadBefore : ℕ → List (JournalEntry P) → Type 0
  HeadBefore low [] = Unit {0}
  HeadBefore low (e ∷ es) = e.sequence < low

  pub spend-zero :
      (excess low : ℕ) (es : List (JournalEntry P)) (e : JournalEntry P)
      → e.sequence < low
      → spend excess (e ∷ es) low ≡ 0
  unfolding spend
  spend-zero zero low es e h = refl
  spend-zero (suc excess) low es e h = ground (arith, spend-zero excess low es e h)

  -- While the first entry stands before the lowest pin, pruning drops only entries before the pin.
  pub pruned-Drops :
      (m age low now : ℕ) (es : List (JournalEntry P))
      → 0 < low
      → HeadBefore low es
      → Drops (Before low) (pruned m age low now es) es
  unfolding pruned
  pruned-Drops m age low now [] h b =
      let empty : (ltb 0 m && ltb m 0) ≡ false = ground arith in
      rw (empty, pruned) (prune_by_age-Drops age low now [] h)
  pruned-Drops m age low now (e ∷ es) h b = elim (Bool-cases (ltb 0 m && ltb m (length (e ∷ es)))) [
    | inr n ↦ rw (n, pruned) (prune_by_age-Drops age low now (e ∷ es) h)
    | inl y ↦
        rw (y, lt→ltb 0 low h, spend-zero (length (e ∷ es) - m) low es e b, pruned)
          (drop_to_pin-Drops m low (e ∷ es))
  ]
