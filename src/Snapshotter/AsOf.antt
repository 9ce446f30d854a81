-- ===== src/Snapshotter/AsOf.antt =====
-- The plan for a point in time.
use Prim.Native.Nat.{Ordering}
use laredo.Common.{
  ℕ, zero, suc, ◌-◌, ◌≤◌, ◌<◌, ◌≡◌, ◌≢◌, refl, String, true, ◌⊎◌, inl, inr, Option, none, some,
  List, [], ◌∷◌, ◌++◌, arith, if◌then◌else◌, Assoc, get, comparable_string, Bool-cases,
  Option-cases,
}
use laredo.Snapshotter.{Artifact, ArtifactKind, snapshot, diff, Manifest}
use laredo.Snapshotter.Reader.{
  ReplayPlan, by_from, diffs_of, at_most, better_base, choose_base, follow_to, as_of_base,
  plan_as_of,
}
use laredo.Snapshotter.Chains.{Linked, StartsAtKey, by_from-StartsAtKey, Linked-append}

module _ (cmp : String → String → Ordering) (position : String) where
  -- not after the position that is asked for
  abbrev pub InTime : String → Type 0
  InTime p = cmp p position ≢ Ordering.gt

  at_most-InTime : (p : String) → at_most (cmp p position) ≡ true → InTime p
  unfolding at_most
  at_most-InTime p h k = ground (arith, h, k)

  better_base-InTime :
      (base : Option Artifact) (a : Artifact)
      → better_base cmp position base a ≡ true
      → InTime a.to_position
  unfolding better_base
  better_base-InTime base a h = elim (Bool-cases (at_most (cmp a.to_position position))) [
    | inl y ↦ at_most-InTime a.to_position y
    | inr n ↦ absurd (ground (arith, rw (better_base, n) at h))
  ]

  abbrev BaseInTime : Option Artifact → Type 0
  BaseInTime none = Unit {0}
  BaseInTime (some b) = InTime b.to_position

  choose_base-InTime :
      (arts : List Artifact) (base : Option Artifact)
      → BaseInTime base
      → BaseInTime (choose_base cmp position base arts)
  unfolding choose_base better_base
  choose_base-InTime [] base h = h
  choose_base-InTime (a ∷ arts) base h = choose_base-InTime arts _ (next a.kind)
    where
      next :
          (k : ArtifactKind)
          → BaseInTime (elim k [
            | diff ↦ base
            | snapshot ↦ if better_base cmp position base a then some a else base
          ])
      next diff = h
      next snapshot = elim (Bool-cases (better_base cmp position base a)) [
        | inl y ↦ rw y (better_base-InTime base a y)
        | inr n ↦ rw n h
      ]

  -- A plan from a base to its head: the diffs are linked, and the head is not after the position.
  pub record AsOf (plan : ReplayPlan) : Type 0 where
    pub base : Artifact
    pub from_base : plan.snapshot ≡ some base
    pub linked : Linked base.to_position plan.diffs plan.head_position
    pub in_time : InTime plan.head_position

  module _ (m : Assoc String Artifact) (rank : String → ℕ) (bound : ℕ) (keyed : StartsAtKey m)
      (rises : (k : String) (d : Artifact)
        → get m k ≡ some d
        → (rank k < rank d.to_position) × (rank d.to_position ≤ bound)) where
    follow_to-finds :
        (fuel : ℕ) (start cur : String) (chain : List Artifact)
        → bound - rank cur < fuel
        → Linked start chain cur
        → InTime cur
        → (r : List Artifact × String) × (follow_to cmp fuel m position cur (chain, cur) ≡ some r)
          × Linked start r.0 r.1
          × InTime r.1
    unfolding follow_to
    follow_to-finds zero start cur chain enough l i = ground arith
    follow_to-finds (suc fuel) start cur chain enough l i = elim (Option-cases (get m cur)) [
      | inl n ↦ ((chain, cur), rw (follow_to, n) refl, l, i)
      | inr (d, h) ↦ elim (Bool-cases (at_most (cmp d.to_position position))) [
        | inr late ↦ ((chain, cur), rw (follow_to, h, late) refl, l, i)
        | inl y ↦
            let (low, high) = rises cur d h in
            let (r, eq, linked, in_time) =
              follow_to-finds fuel start d.to_position (chain ++ (d ∷ [])) (omega arith)
                (Linked-append start cur chain d l (keyed cur d h))
                (at_most-InTime d.to_position y) in
            (r, rw (follow_to, h, y) eq, linked, in_time)
      ]
    ]

-- Where every followed diff leads to a position of higher rank, and no rank passes the bound, fuel
-- beyond the bound is enough. The planner then finds no base, or a plan from a base whose diffs are
-- linked and whose head is not after the position that was asked for.
pub plan_as_of-AsOf :
    (cmp : String → String → Ordering) (position : String) (m : Manifest) (rank : String → ℕ)
    (bound fuel : ℕ)
    → ((k : String) (d : Artifact)
        → get (by_from [] (diffs_of m.artifacts)) k ≡ some d
        → (rank k < rank d.to_position) × (rank d.to_position ≤ bound))
    → bound < fuel
    → ((choose_base cmp position none m.artifacts ≡ none)
        × (plan_as_of cmp fuel m position ≡ some none))
      ⊎ ((plan : ReplayPlan) × (plan_as_of cmp fuel m position ≡ some (some plan))
          × AsOf cmp position plan)
unfolding plan_as_of as_of_base
plan_as_of-AsOf cmp position m rank bound fuel rises enough =
    go (choose_base cmp position none m.artifacts) refl
  where
    go :
        (base : Option Artifact)
        → choose_base cmp position none m.artifacts ≡ base
        → ((choose_base cmp position none m.artifacts ≡ none)
            × (plan_as_of cmp fuel m position ≡ some none))
          ⊎ ((plan : ReplayPlan) × (plan_as_of cmp fuel m position ≡ some (some plan))
              × AsOf cmp position plan)
    go none e = inl (e, rw (plan_as_of, e) refl)
    go (some base) e =
        let i : BaseInTime cmp position (some base) =
          rw e at (choose_base-InTime cmp position m.artifacts none tt) in
        let ((chain, head), eq, l, t) =
          follow_to-finds cmp position (by_from [] (diffs_of m.artifacts)) rank bound
            (by_from-StartsAtKey [] (diffs_of m.artifacts) (λ k d h. ground (arith, h))) rises fuel
            base.to_position base.to_position [] (omega (arith, enough)) refl i in
        inr (
          record { snapshot = some base; diffs = chain; head_position = head },
          rw (plan_as_of, e, as_of_base, eq) refl,
          record { base = base; from_base = refl; linked = l; in_time = t },
        )
