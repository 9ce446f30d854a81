-- ===== src/Snapshotter/Reader.antt =====
-- snapshotter/reader.go: planning the chain of artifacts, and folding it. The loops over the chain
-- take fuel; `none` is a loop that has not ended. Fetching and decoding are an argument.
use Prim.Native.Nat.{Ordering}
use laredo.Common.{
  ℕ, zero, suc, String, Bool, true, false, ◌&&◌, Option, none, some, List, [], ◌∷◌, ◌++◌,
  if◌then◌else◌, Assoc, get, put, delete, ◌==◌, comparable_string,
}
use laredo.Types.{Row, remove, truncate}
use laredo.Snapshotter.{Artifact, snapshot, diff, Manifest, Change, latest_snapshot}

-- `ReplayPlan`
pub record ReplayPlan : Type 0 where
  pub snapshot : Option Artifact
  pub diffs : List Artifact
  pub head_position : String

-- the diffs of a manifest that have a start
unfoldable pub diffs_of : List Artifact → List Artifact
diffs_of [] = []
diffs_of (a ∷ rest) =
    let others = diffs_of rest in
    elim a.kind [
      | snapshot ↦ others
      | diff ↦ elim a.from_position [ none ↦ others | some p ↦ a ∷ others ]
    ]

-- the map `byFrom`: a later diff with the same start takes the place of an earlier one
unfoldable pub by_from : Assoc String Artifact → List Artifact → Assoc String Artifact
by_from m [] = m
by_from m (d ∷ rest) = by_from (elim d.from_position [ none ↦ m | some p ↦ put m p d ]) rest

-- the loop of `contiguousDiffChain`: the chain, its head and whether any diff was found
unfoldable pub follow :
    ℕ
    → Assoc String Artifact
    → String
    → List Artifact × String × Bool
    → Option (List Artifact × String × Bool)
follow zero m cur found = none
follow (suc fuel) m cur (chain, head, ok) = elim (get m cur) [
  | none ↦ some (chain, head, ok)
  | some d ↦ follow fuel m d.to_position (chain ++ (d ∷ []), d.to_position, true)
]

-- `contiguousDiffChain`
unfoldable pub contiguous_diff_chain :
    ℕ → List Artifact → String → Option (List Artifact × String × Bool)
unfolding follow by_from
contiguous_diff_chain fuel diffs start = follow fuel (by_from [] diffs) start ([], "", false)

unfoldable pub at_least : Ordering → Bool
at_least Ordering.lt = false
at_least _ = true

unfoldable pub at_most : Ordering → Bool
at_most Ordering.gt = false
at_most _ = true

module _ (cmp : String → String → Ordering) where
  unfoldable pub from_snapshot :
      ℕ → Manifest → List Artifact → Option Artifact → Option (Option ReplayPlan)
  unfolding contiguous_diff_chain
  from_snapshot fuel m diffs none = some none
  from_snapshot fuel m diffs (some snap) =
      elim (contiguous_diff_chain fuel diffs snap.to_position) [
        | none ↦ none
        | some (chain, head, ok) ↦ some (
            some (record {
              snapshot = some snap;
              diffs = chain;
              head_position = if head == "" then snap.to_position else head;
            }))
      ]

  -- `Plan`: the outer option is the fuel, the inner one the nil plan
  unfoldable pub plan : ℕ → Manifest → String → Option (Option ReplayPlan)
  unfolding contiguous_diff_chain from_snapshot diffs_of at_least
  plan fuel m from_position = elim m.artifacts [
    | [] ↦ some none
    | a ∷ rest ↦ elim (contiguous_diff_chain fuel (diffs_of (a ∷ rest)) from_position) [
      | none ↦ none
      | some (chain, head, ok) ↦
          let based = from_snapshot fuel m (diffs_of (a ∷ rest)) (latest_snapshot m) in
          if ok && at_least (cmp head m.head_position)
          then some (some (record { snapshot = none; diffs = chain; head_position = head }))
          else based
    ]
  ]

  -- whether a snapshot at or before the position is later than the best so far
  unfoldable pub better_base : String → Option Artifact → Artifact → Bool
  unfolding at_most
  better_base position base a = at_most (cmp a.to_position position) && (elim base [
    | none ↦ true
    | some b ↦ elim (cmp a.to_position b.to_position) [ Ordering.gt ↦ true | _ ↦ false ]
  ])

  -- the loop of `PlanAsOf` that chooses the base
  unfoldable pub choose_base : String → Option Artifact → List Artifact → Option Artifact
  unfolding better_base
  choose_base position base [] = base
  choose_base position base (a ∷ rest) =
      choose_base position
        (elim a.kind [
          | diff ↦ base
          | snapshot ↦ if better_base position base a then some a else base
        ])
        rest

  -- the loop of `PlanAsOf` over the chain
  unfoldable pub follow_to :
      ℕ
      → Assoc String Artifact
      → String
      → String
      → List Artifact × String
      → Option (List Artifact × String)
  unfolding at_most
  follow_to zero m position cur found = none
  follow_to (suc fuel) m position cur (chain, head) = elim (get m cur) [
    | none ↦ some (chain, head)
    | some d ↦
        let further = follow_to fuel m position d.to_position (chain ++ (d ∷ []), d.to_position) in
        if at_most (cmp d.to_position position) then further else some (chain, head)
  ]

  unfoldable pub as_of_base : ℕ → Manifest → String → Option Artifact → Option (Option ReplayPlan)
  unfolding follow_to by_from diffs_of
  as_of_base fuel m position none = some none
  as_of_base fuel m position (some base) =
      elim (follow_to fuel (by_from [] (diffs_of m.artifacts)) position base.to_position
        ([], base.to_position)) [
          | none ↦ none
          | some (chain, head) ↦
              some (some (record { snapshot = some base; diffs = chain; head_position = head }))
        ]

  -- `PlanAsOf`
  unfoldable pub plan_as_of : ℕ → Manifest → String → Option (Option ReplayPlan)
  unfolding choose_base as_of_base
  plan_as_of fuel m position = as_of_base fuel m position (choose_base position none m.artifacts)

-- one change of a diff, in `ReconstructAsOf`
unfoldable pub apply_change : Assoc String Row → Change → Assoc String Row
apply_change state ch = elim ch.action [
  | remove ↦ delete state ch.key
  | truncate ↦ []
  | _ ↦ elim ch.new [ none ↦ put state ch.key [] | some row ↦ put state ch.key row ]
]

unfoldable pub apply_changes : Assoc String Row → List Change → Assoc String Row
unfolding apply_change
apply_changes state [] = state
apply_changes state (ch ∷ rest) = apply_changes (apply_change state ch) rest
