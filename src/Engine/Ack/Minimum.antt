-- ===== src/Engine/Ack/Minimum.antt =====
-- The position that is acknowledged is at or before what every active pipeline has confirmed.
use Prim.Native.Nat.{Ordering}
use laredo.Common.{
  String, true, false, not, ◌||◌, ◌≡◌, ◌≢◌, refl, ap, ◌∙◌, ◌⊎◌, inl, inr, Option, none, some, [],
  ◌∷◌, arith, Assoc, get, ◌==◌, comparable_string, Bool-cases, Option-cases,
}
use laredo.Engine.Ack.{
  Compare, AckTracker, is_skipped, lower, min_position, acknowledge, ack_with, ack_position,
}

-- What the code relies on of a source's comparator. What it makes of nil is left open.
pub record Comparator (P : Type 0) : Type 0 where
  pub cmp : Compare P
  pub flip : (a b : P) → cmp (some a) (some b) ≢ Ordering.lt → cmp (some b) (some a) ≢ Ordering.gt
  pub trans :
      (a b c : P)
      → cmp (some a) (some b) ≢ Ordering.gt
      → cmp (some b) (some c) ≢ Ordering.gt
      → cmp (some a) (some c) ≢ Ordering.gt

module _ {P : Type 0} (c : Comparator P) where
  open c use {cmp, flip, trans}

  le_self : (a : P) → cmp (some a) (some a) ≢ Ordering.gt
  le_self a h = flip a a (λ k. cc) h

  -- The minimum is at or before the one that the loop starts from.
  abbrev AtMost : P → Option P → Type 0
  AtMost m none = Unit {0}
  AtMost m (some low) = cmp (some m) (some low) ≢ Ordering.gt

  below_new :
      (m pos : P) (low : Option P)
      → AtMost m (lower cmp (some pos) low)
      → cmp (some m) (some pos) ≢ Ordering.gt
  unfolding lower
  below_new m pos none h = h
  below_new m pos (some low) h = go (cmp (some pos) (some low)) refl
    where
      go : (o : Ordering) → cmp (some pos) (some low) ≡ o → cmp (some m) (some pos) ≢ Ordering.gt
      go Ordering.lt e = rw (lower, e) at h
      go Ordering.eq e = trans m low pos (rw (lower, e) at h) (flip pos low (λ k. cc))
      go Ordering.gt e = trans m low pos (rw (lower, e) at h) (flip pos low (λ k. cc))

  below_old : (m pos : P) (low : Option P) → AtMost m (lower cmp (some pos) low) → AtMost m low
  unfolding lower
  below_old m pos none h = tt
  below_old m pos (some low) h = go (cmp (some pos) (some low)) refl
    where
      go : (o : Ordering) → cmp (some pos) (some low) ≡ o → cmp (some m) (some low) ≢ Ordering.gt
      go Ordering.lt e = trans m pos low (rw (lower, e) at h) (λ k. cc)
      go Ordering.eq e = rw (lower, e) at h
      go Ordering.gt e = rw (lower, e) at h

  -- No pipeline has confirmed a nil position, but for skipped ones.
  abbrev pub Known : AckTracker P → Type 0
  Known a = (q : String) → get a.positions q ≡ some none → is_skipped a q ≡ true

  -- Each pipeline of the source in the list is skipped, or has confirmed a position that is not
  -- before `m`.
  abbrev Bounded : AckTracker P → String → P → Assoc String String → Type 0
  Bounded a source m [] = Unit {0}
  Bounded a source m ((pipeline, s) ∷ rest) =
      (((not (s == source) || is_skipped a pipeline) ≡ true)
        ⊎ ((pos : P) × (get a.positions pipeline ≡ some (some pos))
            × (cmp (some m) (some pos) ≢ Ordering.gt)))
      × Bounded a source m rest

  min_position-Bounded :
      (a : AckTracker P) (source : String) (m : P) (ps : Assoc String String) (low : Option P)
      → Known a
      → min_position a cmp source ps low ≡ some (some m)
      → AtMost m low × Bounded a source m ps
  unfolding min_position
  min_position-Bounded a source m [] none known e = absurd (ground (arith, e))
  min_position-Bounded a source m [] (some low) known e =
      let same : low ≡ m = cc e in (rw same (le_self m), tt)
  min_position-Bounded a source m ((pipeline, s) ∷ ps) low known e =
      elim (Bool-cases (not (s == source) || is_skipped a pipeline)) [
        | inl y ↦
            let (less, rest) =
              min_position-Bounded a source m ps low known (rw (y, min_position) at e) in
            (less, (inl y, rest))
        | inr n ↦ elim (Option-cases (get a.positions pipeline)) [
          | inl gone ↦ absurd (ground (arith, rw (n, gone, min_position) at e))
          | inr (none, found) ↦ absurd (ground (arith, n, known pipeline found))
          | inr (some pos, found) ↦
              let (less, rest) =
                min_position-Bounded a source m ps (lower cmp (some pos) low) known
                  (rw (n, found, min_position) at e) in
              (below_old m pos low less, (inr (pos, found, below_new m pos low less), rest))
        ]
      ]

  Bounded-get :
      (a : AckTracker P) (source : String) (m : P) (ps : Assoc String String) (pipeline : String)
      → Bounded a source m ps
      → get ps pipeline ≡ some source
      → is_skipped a pipeline ≡ false
      → (pos : P) × (get a.positions pipeline ≡ some (some pos))
        × (cmp (some m) (some pos) ≢ Ordering.gt)
  Bounded-get a source m [] pipeline b e k = absurd (ground (arith, e))
  Bounded-get a source m ((p, s) ∷ ps) pipeline b e k = elim (Bool-cases (p == pipeline)) [
    | inr n ↦ Bounded-get a source m ps pipeline b.1 (rw n at e) k
    | inl y ↦
        let own : some s ≡ some source = rw y at e in
        elim b.0 [
          | inl w ↦ absurd (
              ground (
                arith,
                w,
                comparable_string.same_iff p pipeline,
                comparable_string.same_iff s source,
                own,
              ))
          | inr h ↦ rw (← (comparable_string.same_iff p pipeline).0 y) h
        ]
  ]

  acknowledged :
      (a : AckTracker P) (source : String) (low m : P)
      → (acknowledge a cmp source low).1 ≡ some m
      → low ≡ m
  unfolding acknowledge
  acknowledged a source low m e = ground (arith, e)

  acked_minimum :
      (a : AckTracker P) (source : String) (m : P)
      → (ack_with a source (some cmp)).1 ≡ some m
      → min_position a cmp source a.pipeline_source none ≡ some (some m)
  unfolding ack_with
  acked_minimum a source m e = go (min_position a cmp source a.pipeline_source none) refl
    where
      go :
          (r : Option (Option P))
          → min_position a cmp source a.pipeline_source none ≡ r
          → min_position a cmp source a.pipeline_source none ≡ some (some m)
      go none q = absurd (ground (arith, rw (q, ack_with) at e))
      go (some none) q = absurd (ground (arith, rw (q, ack_with) at e))
      go (some (some low)) q =
          let same : low ≡ m = acknowledged a source low m (rw (q, ack_with) at e) in
          q ∙ ap (λ x. some (some x)) same

  -- Where no pipeline that is not skipped has confirmed a nil position: the position that is given out
  -- for a source is at or before the confirmed position of every pipeline of that source that is not
  -- skipped; each of them has confirmed one.
  pub ack_position-le :
      (a : AckTracker P) (source pipeline : String) (m : P)
      → get a.comparators source ≡ some cmp
      → (ack_position a source).1 ≡ some m
      → get a.pipeline_source pipeline ≡ some source
      → is_skipped a pipeline ≡ false
      → Known a
      → (pos : P) × (get a.positions pipeline ≡ some (some pos))
        × (cmp (some m) (some pos) ≢ Ordering.gt)
  unfolding ack_position
  ack_position-le a source pipeline m r e own active known =
      Bounded-get a source m a.pipeline_source pipeline
        (min_position-Bounded a source m a.pipeline_source none known
          (acked_minimum a source m (rw r at e))).1
        own active
