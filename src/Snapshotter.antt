-- ===== src/Snapshotter.antt =====
-- snapshotter: a table is written to an archive as base snapshots and diffs, listed by a manifest,
-- and read back. Types, the manifest's own operations, and the policy.
pub mod Writer
pub mod Reader
pub mod Buffering
pub mod Chains
pub mod AsOf
mod Tests
use laredo.Common.{
  ℕ, ◌+◌, ◌≤◌, String, Bool, true, false, ◌&&◌, Option, none, some, List, [], ◌∷◌, if◌then◌else◌,
  ltb, leb, nat_beq, keep_if, Assoc,
}
use laredo.Types.{Row, ChangeAction, ColumnDefinition}

-- `ArtifactKind`
pub data ArtifactKind : Type 0 where
  snapshot diff : ArtifactKind

-- `Change`
pub record Change : Type 0 where
  pub action : ChangeAction
  pub key : String
  pub old : Option Row
  pub new : Option Row

-- `FormatRef`
pub record FormatRef : Type 0 where
  pub uri : String
  pub size_bytes : ℕ

-- `Artifact`
pub record Artifact : Type 0 where
  pub kind : ArtifactKind
  pub epoch : ℕ
  pub from_position : Option String
  pub to_position : String
  pub created_at : ℕ
  pub row_count : ℕ
  pub change_count : ℕ
  pub formats : Assoc String FormatRef

-- `Manifest`
pub record Manifest : Type 0 where
  pub manifest_version : ℕ
  pub table : String
  pub epoch : ℕ
  pub updated_at : ℕ
  pub head_position : String
  pub artifacts : List Artifact
  pub columns : List ColumnDefinition

-- the constant `ManifestVersion`
abbrev pub manifest_version : ℕ
manifest_version = 1

-- the loop of `latestSnapshot`
unfoldable pub newest_snapshot : Option Artifact → List Artifact → Option Artifact
newest_snapshot latest [] = latest
newest_snapshot latest (a ∷ rest) =
    newest_snapshot
      (elim a.kind [
        | diff ↦ latest
        | snapshot ↦ elim latest [
          | none ↦ some a
          | some l ↦ if ltb l.epoch a.epoch then some a else some l
        ]
      ])
      rest

-- `latestSnapshot`
unfoldable pub latest_snapshot : Manifest → Option Artifact
unfolding newest_snapshot
latest_snapshot m = newest_snapshot none m.artifacts

-- `prune`: the least epoch that is kept is the current one less `keep_epochs`, plus 1
unfoldable pub prune : Manifest → ℕ → Manifest
prune m keep_epochs = if nat_beq keep_epochs 0 then m else record m {
  artifacts = keep_if (λ a. leb (m.epoch + 1) (a.epoch + keep_epochs)) m.artifacts;
}

-- The floating-point thresholds: a fraction, whether it is positive, and whether a number is at
-- least that fraction of another.
pub record Fractions : Type 1 where
  pub Fraction : Type 0
  pub positive : Fraction → Bool
  pub reaches : ℕ → Fraction → ℕ → Bool

module _ (f : Fractions) where
  open f use {Fraction, positive, reaches}

  -- `Policy`; a threshold that is zero or less is 0
  pub record Policy : Type 0 where
    pub diff_interval : ℕ
    pub min_interval : ℕ
    pub max_interval : ℕ
    pub max_diff_bytes : ℕ
    pub max_diff_fraction : Fraction
    pub max_churn_records : ℕ
    pub max_churn_fraction : Fraction

-- `triggerState`
pub record TriggerState : Type 0 where
  pub since_snapshot : ℕ
  pub diff_bytes : ℕ
  pub churn_records : ℕ
  pub dataset_size : ℕ
  pub last_snapshot_bytes : ℕ

-- `shouldSnapshot`
unfoldable pub should_snapshot : (f : Fractions) → Policy f → TriggerState → Bool × String
should_snapshot f p st =
    if ltb 0 p.min_interval && ltb st.since_snapshot p.min_interval
    then (false, "")
    else if ltb 0 p.max_interval && leb p.max_interval st.since_snapshot
    then (true, "max_interval")
    else if ltb 0 p.max_diff_bytes && leb p.max_diff_bytes st.diff_bytes
    then (true, "max_diff_bytes")
    else if f.positive p.max_diff_fraction
        && (ltb 0 st.last_snapshot_bytes
            && f.reaches st.diff_bytes p.max_diff_fraction st.last_snapshot_bytes)
    then (true, "max_diff_fraction")
    else if ltb 0 p.max_churn_records && leb p.max_churn_records st.churn_records
    then (true, "max_churn_records")
    else if f.positive p.max_churn_fraction
        && (ltb 0 st.dataset_size
            && f.reaches st.churn_records p.max_churn_fraction st.dataset_size)
    then (true, "max_churn_fraction")
    else (false, "")
