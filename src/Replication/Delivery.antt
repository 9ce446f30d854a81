-- ===== src/Replication/Delivery.antt =====
-- What a stream delivers: the live loop misses nothing, and the step to the live phase may.
use mathlib.Core.List.{append-nil, append_assoc}
use laredo.Common.{
  ℕ, suc, ◌+◌, ◌-◌, ◌≤◌, ◌<◌, ◌≡◌, refl, sym, ◌⊎◌, inl, inr, Bool, List, [], ◌∷◌, ◌++◌, arith, ltb,
  length, keep_if, All, Bool-cases,
}
use laredo.Fanout.Journal.{JournalEntry, Journal, entries_since, current_sequence, oldest_sequence}
use laredo.Fanout.Journal.Sequence.{Chain, IsValid, entries_since-gapless}
use laredo.Replication.Session.{Session, catch_up, go_live, offer, offer_each, poll, polls, sync}

module _ {P : Type 0} where
  -- At or before the first number, or after the second.
  abbrev pub Outside : ℕ → ℕ → JournalEntry P → Type 0
  Outside a b e = (e.sequence ≤ a) ⊎ (b < e.sequence)

module _ {P : Type 0} (matches : JournalEntry P → Bool) where
  last_sequence : ℕ → List (JournalEntry P) → ℕ
  last_sequence n [] = n
  last_sequence n (e ∷ es) = last_sequence e.sequence es

  offer_each-sent :
      (s : Session P) (es : List (JournalEntry P))
      → (offer_each matches s es).sent ≡ s.sent ++ keep_if matches es
  unfolding offer_each offer
  offer_each-sent s [] = sym (append-nil s.sent)
  offer_each-sent s (e ∷ es) = elim (Bool-cases (matches e)) [
    | inl y ↦
        rw (offer_each-sent (offer matches s e) es, offer, y)
          (append_assoc s.sent (e ∷ []) (keep_if matches es))
    | inr n ↦ rw (offer_each-sent (offer matches s e) es, offer, n) refl
  ]

  offer_each-last :
      (s : Session P) (next : ℕ) (es : List (JournalEntry P))
      → Chain next es
      → suc s.last_seq_sent + length es ≡ next
      → suc (offer_each matches s es).last_seq_sent ≡ next
  unfolding offer_each offer
  offer_each-last s next [] c h = omega arith
  offer_each-last s next (e ∷ es) c h =
      offer_each-last (offer matches s e) next es c.2 (omega arith)

  -- While the journal still holds the successor of what a stream has passed, a turn of the live loop
  -- sends every later entry that the filter admits, in order, and then stands at the current sequence.
  pub poll-delivers :
      (s : Session P) (j : Journal P)
      → IsValid j
      → 0 < length j.entries
      → oldest_sequence j ≤ suc s.last_seq_sent
      → s.last_seq_sent ≤ current_sequence j
      → ((poll matches s j).sent ≡ s.sent ++ keep_if matches (entries_since j s.last_seq_sent))
        × ((poll matches s j).last_seq_sent ≡ current_sequence j)
  unfolding poll current_sequence
  poll-delivers s j v n o h =
      let (count, chain) = entries_since-gapless j s.last_seq_sent v n o h in
      (
        offer_each-sent s (entries_since j s.last_seq_sent),
        omega (
          arith,
          v.started,
          offer_each-last s j.next_seq (entries_since j s.last_seq_sent) chain count,
        ),
      )

  Chain-Outside :
      (next b : ℕ) (es : List (JournalEntry P)) → Chain next es → All (Outside (next - 1) b) es
  Chain-Outside next b [] c = tt
  Chain-Outside next b (e ∷ es) c = (inl (omega arith), Chain-Outside next b es c.2)

  All-keep_if :
      (Q : JournalEntry P → Type 0) (p : JournalEntry P → Bool) (es : List (JournalEntry P))
      → All Q es
      → All Q (keep_if p es)
  All-keep_if Q p [] h = tt
  All-keep_if Q p (e ∷ es) h = elim (Bool-cases (p e)) [
    | inl y ↦ rw y (h.0, All-keep_if Q p es h.1)
    | inr n ↦ rw n (All-keep_if Q p es h.1)
  ]

  All-append :
      (Q : JournalEntry P → Type 0) (xs ys : List (JournalEntry P))
      → All Q xs
      → All Q ys
      → All Q (xs ++ ys)
  All-append Q [] ys h k = k
  All-append Q (x ∷ xs) ys h k = (h.0, All-append Q xs ys h.1 k)

  -- all that was sent lies outside, and the stream has passed the gap
  abbrev Skips : ℕ → ℕ → Session P → Type 0
  Skips a b s = (b ≤ s.last_seq_sent) × All (Outside a b) s.sent

  since-newer :
      (b n : ℕ) (es : List (JournalEntry P))
      → b ≤ n
      → All (λ e. b < e.sequence) (keep_if (λ e. ltb n e.sequence) es)
  since-newer b n [] h = tt
  since-newer b n (e ∷ es) h = elim (Bool-cases (ltb n e.sequence)) [
    | inl y ↦ rw y (ground arith, since-newer b n es h)
    | inr o ↦ rw o (since-newer b n es h)
  ]

  offer_each-Skips :
      (a b : ℕ) (s : Session P) (es : List (JournalEntry P))
      → All (λ e. b < e.sequence) es
      → Skips a b s
      → Skips a b (offer_each matches s es)
  unfolding offer_each offer
  offer_each-Skips a b s [] h k = k
  offer_each-Skips a b s (e ∷ es) h (p, k) = elim (Bool-cases (matches e)) [
    | inl y ↦
        offer_each-Skips a b (offer matches s e) es h.1
          (rw y (omega (arith, h), All-append (Outside a b) s.sent (e ∷ []) k (inr h.0, tt)))
    | inr n ↦ offer_each-Skips a b (offer matches s e) es h.1 (rw n (omega (arith, h), k))
  ]

  polls-Skips :
      (a b : ℕ) (s : Session P) (js : List (Journal P))
      → Skips a b s
      → Skips a b (polls matches s js)
  unfolding polls poll entries_since
  polls-Skips a b s [] k = k
  polls-Skips a b s (j ∷ js) k = polls-Skips a b (poll matches s j) js (
      offer_each-Skips a b s (entries_since j s.last_seq_sent)
        (since-newer b s.last_seq_sent j.entries k.0) k)

  -- Whatever journals the stream polls later, it never sends an entry that was appended after its
  -- catch-up and before its live phase: each entry that it sends has a number up to the current
  -- sequence of the journal that it caught up from, or beyond that of the journal it went live from.
  pub sync-Outside :
      (caught : Journal P) (resume_seq : ℕ) (live : Journal P) (js : List (Journal P))
      → IsValid caught
      → All
          (Outside (current_sequence caught) (current_sequence live))
          (sync matches caught resume_seq live js).sent
  unfolding sync catch_up go_live entries_since current_sequence
  sync-Outside caught resume_seq live js v =
      let a : ℕ = caught.next_seq - 1 in
      let b : ℕ = live.next_seq - 1 in
      (polls-Skips a b (go_live matches live (catch_up matches caught resume_seq)) js (
        omega arith,
        All-keep_if (Outside a b) matches (entries_since caught resume_seq) (
            All-keep_if (Outside a b) (λ e. ltb resume_seq e.sequence) caught.entries
              (Chain-Outside caught.next_seq b caught.entries v.chain)),
      )).1
