-- ===== src/Fanout/Journal/Resume.antt =====
-- Resuming a client by its source position.
use Prim.Native.Nat.{Ordering}
use laredo.Common.{
  ℕ, suc, ◌+◌, ◌-◌, ◌≤◌, ◌<◌, ◌≡◌, refl, sym, ◌∙◌, ◌≢◌, inl, inr, true, false, some, List, [], ◌∷◌,
  arith, ltb, length, keep_if, keep_if-All, All, Bool-cases,
}
use laredo.Fanout.Journal.{
  JournalEntry, Journal, entries_since, at_or_before, strictly_newer, resume_scan, resume_from,
  resume_seq_for_position,
}
use laredo.Fanout.Journal.Sequence.{Chain, IsValid}

-- What the code relies on of `SyncSource.ComparePositions`.
pub record Comparator (P : Type 0) : Type 0 where
  pub cmp : P → P → Ordering
  pub trans : (a b c : P) → cmp a b ≢ Ordering.gt → cmp b c ≢ Ordering.gt → cmp a c ≢ Ordering.gt

module _ {P : Type 0} (c : Comparator P) where
  open c use {cmp, trans}

  abbrev pub NotBehind : JournalEntry P → JournalEntry P → Type 0
  NotBehind e f = (a b : P) → e.position ≡ some a → f.position ≡ some b → cmp a b ≢ Ordering.gt

  -- Every entry has a position, and none is behind an earlier one's.
  abbrev pub Ordered : List (JournalEntry P) → Type 0
  Ordered [] = Unit {0}
  Ordered (e ∷ es) = ((a : P) × (e.position ≡ some a)) × All (NotBehind e) es × Ordered es

  gt_of_le : (a b p : P) → cmp a b ≢ Ordering.gt → cmp a p ≡ Ordering.gt → cmp b p ≡ Ordering.gt
  gt_of_le a b p le gt = go (cmp b p) refl
    where
      go : (o : Ordering) → cmp b p ≡ o → cmp b p ≡ Ordering.gt
      go Ordering.lt e = absurd (trans a b p le (λ x. cc) gt)
      go Ordering.eq e = absurd (trans a b p le (λ x. cc) gt)
      go Ordering.gt e = e

  newer_after :
      (p a b : P) (e f : JournalEntry P)
      → e.position ≡ some a
      → f.position ≡ some b
      → NotBehind e f
      → strictly_newer cmp p e ≡ true
      → strictly_newer cmp p f ≡ true
  newer_after p a b e f ha hb le h = ground (arith, gt_of_le a b p (le a b ha hb))

  All-newer :
      (p a : P) (e : JournalEntry P) (es : List (JournalEntry P))
      → e.position ≡ some a
      → All (NotBehind e) es
      → Ordered es
      → strictly_newer cmp p e ≡ true
      → All (λ f. strictly_newer cmp p f ≡ true) es
  All-newer p a e [] ha le o h = tt
  All-newer p a e (f ∷ es) ha le o h =
      (newer_after p a (o.0).0 e f ha (o.0).1 le.0 h, All-newer p a e es ha le.1 o.2 h)

  not_before :
      (p : P) (e : JournalEntry P) → strictly_newer cmp p e ≡ true → at_or_before cmp p e ≡ false
  not_before p e h = ground arith

  before_or_newer :
      (p a : P) (e : JournalEntry P)
      → e.position ≡ some a
      → strictly_newer cmp p e ≡ false
      → at_or_before cmp p e ≡ true
  before_or_newer p a e ha h = ground arith

  scan_newer :
      (p : P) (s : ℕ) (es : List (JournalEntry P))
      → All (λ f. strictly_newer cmp p f ≡ true) es
      → resume_scan cmp p s es ≡ s
  unfolding resume_scan
  scan_newer p s [] h = refl
  scan_newer p s (e ∷ es) h = rw (not_before p e h.0) (scan_newer p s es h.1)

  scan-le :
      (p : P) (s next : ℕ) (es : List (JournalEntry P))
      → Chain next es
      → suc s + length es ≤ next
      → s ≤ resume_scan cmp p s es
  unfolding resume_scan
  scan-le p s next [] c h = omega arith
  scan-le p s next (e ∷ es) c h = elim (Bool-cases (at_or_before cmp p e)) [
    | inl y ↦ rw y (omega (arith, scan-le p e.sequence next es c.2))
    | inr n ↦ rw n (omega (arith, scan-le p s next es c.2))
  ]

  Chain-newer :
      (s next : ℕ) (es : List (JournalEntry P))
      → Chain next es
      → suc s + length es ≤ next
      → All (λ e. ltb s e.sequence ≡ true) es
  Chain-newer s next [] c h = tt
  Chain-newer s next (e ∷ es) c h = (ground arith, Chain-newer s next es c.2 (omega arith))

  scan_splits :
      (p : P) (s r next : ℕ) (es : List (JournalEntry P))
      → Chain next es
      → suc s + length es ≤ next
      → Ordered es
      → resume_scan cmp p s es ≡ r
      → keep_if (λ e. ltb r e.sequence) es ≡ keep_if (strictly_newer cmp p) es
  unfolding resume_scan
  scan_splits p s r next [] c h o q = refl
  scan_splits p s r next (e ∷ es) c h o q = elim (Bool-cases (strictly_newer cmp p e)) [
    | inl y ↦
        let later = All-newer p (o.0).0 e es (o.0).1 o.1 o.2 y in
        let start : s ≡ r = sym (scan_newer p s (e ∷ es) (y, later)) ∙ q in
        keep_if-All (λ f. ltb r f.sequence) (e ∷ es) (Chain-newer r next (e ∷ es) c (omega arith))
        ∙ sym (keep_if-All (strictly_newer cmp p) (e ∷ es) (y, later))
    | inr n ↦
        let before : at_or_before cmp p e ≡ true = before_or_newer p (o.0).0 e (o.0).1 n in
        let rest : resume_scan cmp p e.sequence es ≡ r = ground (arith, before, q) in
        let passed : ltb r e.sequence ≡ false =
          ground (arith, rest, scan-le p e.sequence next es c.2) in
        rw (n, passed) (scan_splits p e.sequence r next es c.2 (omega arith) o.2 rest)
  ]

  covered_splits :
      (p : P) (r next : ℕ) (es : List (JournalEntry P))
      → Chain next es
      → Ordered es
      → resume_from cmp next es p ≡ (r, true)
      → keep_if (λ e. ltb r e.sequence) es ≡ keep_if (strictly_newer cmp p) es
  unfolding resume_from
  covered_splits p r next [] c o h = refl
  covered_splits p r next (e ∷ es) c o h =
      scan_splits p (e.sequence - 1) r next (e ∷ es) c (omega arith) o (ground arith)

  -- In a valid journal whose entries each have a position, none behind that of an entry before it:
  -- where a position is covered, the entries after the sequence to resume from are exactly the
  -- retained entries whose position is newer than the client's: none is missing, none is sent again.
  pub resume-covered :
      (j : Journal P) (p : P)
      → IsValid j
      → Ordered j.entries
      → (resume_seq_for_position cmp j p).1 ≡ true
      → entries_since j (resume_seq_for_position cmp j p).0
        ≡ keep_if (strictly_newer cmp p) j.entries
  unfolding resume_seq_for_position entries_since
  resume-covered j p v o h =
      covered_splits p (resume_from cmp j.next_seq j.entries p).0 j.next_seq j.entries v.chain o
        (ground (arith, h))

  uncovered_newer :
      (p : P) (next : ℕ) (es : List (JournalEntry P))
      → Ordered es
      → (resume_from cmp next es p).1 ≡ false
      → (0 < length es) × All (λ e. strictly_newer cmp p e ≡ true) es
  unfolding resume_from
  uncovered_newer p next [] o h = cc
  uncovered_newer p next (e ∷ es) o h = elim (Bool-cases (strictly_newer cmp p e)) [
    | inl y ↦ (omega arith, (y, All-newer p (o.0).0 e es (o.0).1 o.1 o.2 y))
    | inr n ↦ ground arith
  ]

  -- In a journal whose entries each have a position, none behind that of an entry before it: a
  -- position is refused only where the journal is not empty and every retained entry is newer.
  pub resume-uncovered :
      (j : Journal P) (p : P)
      → Ordered j.entries
      → (resume_seq_for_position cmp j p).1 ≡ false
      → (0 < length j.entries) × All (λ e. strictly_newer cmp p e ≡ true) j.entries
  unfolding resume_seq_for_position
  resume-uncovered j p o h = uncovered_newer p j.next_seq j.entries o h
