-- ===== src/Engine/Ack/Nil.antt =====
-- What the tracker makes of a pipeline that confirms a nil position.
use Prim.Native.Nat.{Ordering}
use laredo.Common.{
  String, true, false, ◌≡◌, ◌≢◌, refl, ◌∙◌, inl, inr, Option, none, some, [], ◌∷◌, arith, Assoc,
  get, get-put, ◌==◌, comparable_string, Bool-cases, Option-cases,
}
use laredo.Engine.Ack.{
  Compare, AckTracker, is_skipped, confirm, skip, lower, min_position, acknowledge, ack_with,
  ack_position,
}

module _ {P : Type 0} (compare : Compare P)
    (nil_late : (low : P) → compare none (some low) ≢ Ordering.lt) where
  lower_nil : (low : Option P) → lower compare none low ≡ low
  unfolding lower
  lower_nil none = refl
  lower_nil (some low) = go (compare none (some low)) refl
    where
      go : (o : Ordering) → compare none (some low) ≡ o → lower compare none (some low) ≡ some low
      go Ordering.lt e = absurd (nil_late low e)
      go Ordering.eq e = rw (lower, e) refl
      go Ordering.gt e = rw (lower, e) refl

  min_position_nil :
      (a : AckTracker P) (p source : String) (ps : Assoc String String) (low : Option P)
      → min_position (confirm a p none) compare source ps low
        ≡ min_position (skip a p) compare source ps low
  unfolding min_position confirm skip
  min_position_nil a p source [] low = refl
  min_position_nil a p source ((q, s) ∷ ps) low =
      let ih = min_position_nil a p source ps low in
      elim (Bool-cases (s == source)) [
        | inr n ↦ rw (min_position, n) ih
        | inl y ↦ elim (Bool-cases (p == q)) [
          | inl same ↦
              let nil : get (confirm a p none).positions q ≡ some none =
                rw (get-put a.positions p q none, same) refl in
              let out : is_skipped (skip a p) q ≡ true =
                rw (is_skipped, get-put a.skipped p q true, same) refl in
              elim (Bool-cases (is_skipped a q)) [
                | inl k ↦
                    let also : is_skipped (confirm a p none) q ≡ true = k in rw (y, out, also) ih
                | inr k ↦
                    let also : is_skipped (confirm a p none) q ≡ false = k in
                    rw (y, out, also, nil, lower_nil low) ih
              ]
          | inr other ↦
              let kept : get (confirm a p none).positions q ≡ get a.positions q =
                rw (get-put a.positions p q none, other) refl in
              let still : is_skipped (skip a p) q ≡ is_skipped a q =
                rw (is_skipped, get-put a.skipped p q true, other) refl in
              elim (Bool-cases (is_skipped a q)) [
                | inl k ↦
                    let also : is_skipped (confirm a p none) q ≡ true = k in
                    rw (y, still ∙ k, also) ih
                | inr k ↦
                    let also : is_skipped (confirm a p none) q ≡ false = k in
                    elim (Option-cases (get a.positions q)) [
                      | inl gone ↦
                          let held : get (skip a p).positions q ≡ none = gone in
                          rw (y, still ∙ k, also, kept ∙ gone, held) refl
                      | inr (pos, found) ↦
                          let held : get (skip a p).positions q ≡ some pos = found in
                          rw (y, still ∙ k, also, kept ∙ found, held)
                            (min_position_nil a p source ps (lower compare pos low))
                    ]
              ]
        ]
      ]

  -- Where the comparator of the source puts nil before no position, as the one of the PostgreSQL source
  -- does, which takes nil as equal to each: a pipeline that confirms a nil position counts as one that
  -- is skipped. `AckPosition` then gives out the same position for the source, and says the same of
  -- whether it advanced, whatever the pipeline confirmed before.
  pub ack_position-confirm_nil :
      (a : AckTracker P) (p source : String)
      → get a.comparators source ≡ some compare
      → ((ack_position (confirm a p none) source).1 ≡ (ack_position (skip a p) source).1)
        × ((ack_position (confirm a p none) source).2 ≡ (ack_position (skip a p) source).2)
  unfolding ack_position ack_with acknowledge confirm skip
  ack_position-confirm_nil a p source known =
      go (min_position (skip a p) compare source a.pipeline_source none) refl
    where
      goal : Type 0
      goal =
          ((ack_position (confirm a p none) source).1 ≡ (ack_position (skip a p) source).1)
          × ((ack_position (confirm a p none) source).2 ≡ (ack_position (skip a p) source).2)

      go :
          (r : Option (Option P))
          → min_position (skip a p) compare source a.pipeline_source none ≡ r
          → goal
      go r e =
          let e' : min_position (confirm a p none) compare source a.pipeline_source none ≡ r =
            min_position_nil a p source a.pipeline_source none ∙ e in
          ground (arith, known, e, e')
