-- ===== src/Snapshotter/Tests.antt =====
-- The theorems on the snapshotter at concrete writers and manifests.
use Prim.Native.Nat.{Ordering, compare}
use laredo.Common.{
  ℕ, ◌<◌, ◌≤◌, String, Bool, true, false, ◌≡◌, refl, none, some, List, [], ◌∷◌, arith, get,
  if◌then◌else◌, ◌==◌, Bool-cases, inl, inr, sym, comparable_string,
}
use laredo.Types.{Printing, text, insert}
use laredo.Snapshotter.{Artifact, diff, Manifest, Change, Fractions, should_snapshot}
use laredo.Snapshotter.Writer.{Writer, World, flush, on_changes}
use laredo.Snapshotter.Reader.{
  by_from, diffs_of, contiguous_diff_chain, plan, choose_base, plan_as_of, ReplayPlan,
}
use laredo.Snapshotter.AsOf.{AsOf, plan_as_of-AsOf}
use laredo.Common.{◌⊎◌, none}
use laredo.Snapshotter.{snapshot}
use laredo.Snapshotter.Buffering.{newer_or, flush-failed-diff}
use laredo.Snapshotter.Chains.{Found, contiguous_diff_chain-Found, arrived, over, plan_self}

abbrev printing : Printing
printing = record { sprint = λ v. "v"; sprint_row = λ r. "r"; snapshot_id = λ t u. "s" }

abbrev percent : Fractions
percent = record { Fraction = ℕ; positive = λ x. true; reaches = λ a b c. false }

abbrev empty : Manifest
empty = record {
  manifest_version = 1;
  table = "users";
  epoch = 1;
  updated_at = 0;
  head_position = "5";
  artifacts = [];
  columns = [];
}

abbrev change : String → Change
change v = record { action = insert; key = "v"; old = none; new = some (("id", text v) ∷ []) }

-- A writer with one buffered change, which rebases after `limit` changes.
abbrev writer : ℕ → Writer percent
writer limit = record {
  table = "users";
  policy = record {
    diff_interval = 30;
    min_interval = 0;
    max_interval = 0;
    max_diff_bytes = 0;
    max_diff_fraction = 0;
    max_churn_records = limit;
    max_churn_fraction = 0;
  };
  key_fields = [];
  keep_epochs = 2;
  buffer = ("v", change "1") ∷ [];
  churn = 1;
  epoch = 1;
  from_pos = "5";
  last_snapshot_at = 0;
  last_snapshot_bytes = 10;
  head_pos = "5";
  manifest = empty;
}

-- Nothing can be uploaded, and one change arrives while the diff is written.
abbrev offline : World
offline = record {
  now = 60;
  current_position = "6";
  count = 1;
  diff_size = some 4;
  diff_uploads = none;
  snapshot_rows = [];
  snapshot_position = "6";
  snapshot_uploads = none;
  committed = true;
  columns = none;
  raced = (none, some (("id", text "2") ∷ [])) ∷ [];
  raced_snapshot = [];
}

flush-failed-diff_example :
    get (flush printing (λ vs. "") (writer 100) offline).0.buffer "v"
    ≡ newer_or (some (change "2")) (some (change "1"))
unfolding on_changes flush should_snapshot
flush-failed-diff_example =
    flush-failed-diff printing (λ vs. "") (writer 100) offline "v" (λ size e. refl) refl

abbrev diff_of : String → String → Artifact
diff_of from to = record {
  kind = diff;
  epoch = 1;
  from_position = some from;
  to_position = to;
  created_at = 0;
  row_count = 0;
  change_count = 1;
  formats = [];
}

-- the position of the two that the diffs below go through
abbrev rank : String → ℕ
rank s = if "a" == s then 0 else if "b" == s then 1 else 2

rank-rises :
    (k : String) (d : Artifact)
    → get (by_from [] (diff_of "a" "b" ∷ diff_of "b" "c" ∷ [])) k ≡ some d
    → (rank k < rank d.to_position) × (rank d.to_position ≤ 2)
unfolding by_from
rank-rises k d h = elim (Bool-cases ("a" == k)) [
  | inl y ↦
      let e : some (diff_of "a" "b") ≡ some d = rw y at h in
      let to : "b" ≡ d.to_position = ground (arith, e) in rw (y, sym to) (omega arith, omega arith)
  | inr n ↦ elim (Bool-cases ("b" == k)) [
    | inl y ↦
        let e : some (diff_of "b" "c") ≡ some d = rw (n, y) at h in
        let to : "c" ≡ d.to_position = ground (arith, e) in
        rw (n, y, sym to) (omega arith, omega arith)
    | inr o ↦ absurd (ground (arith, rw (n, o) at h))
  ]
]

contiguous_diff_chain-Found_example :
    (r : List Artifact × String × Bool) × (contiguous_diff_chain 3
        (diff_of "a" "b" ∷ diff_of "b" "c" ∷ [])
        "a"
      ≡ some r)
    × Found "a" (by_from [] (diff_of "a" "b" ∷ diff_of "b" "c" ∷ [])) r
contiguous_diff_chain-Found_example =
    contiguous_diff_chain-Found (diff_of "a" "b" ∷ diff_of "b" "c" ∷ []) "a" rank 2 3 rank-rises
      (omega arith)

plan_self_example :
    plan
      (λ a b. Ordering.eq)
      100
      (record empty { artifacts = diff_of "4" "5" ∷ diff_of "5" "5" ∷ [] })
      "4"
    ≡ none
unfolding by_from diffs_of
plan_self_example =
    plan_self (λ a b. Ordering.eq) 100
      (record empty { artifacts = diff_of "4" "5" ∷ diff_of "5" "5" ∷ [] }) (diff_of "5" "5") "4"
      (over {x = diff_of "4" "5"} refl (arrived refl))

abbrev base_at : String → Artifact
base_at p = record (diff_of p p) { kind = snapshot; from_position = none }

abbrev archive : Manifest
archive = record empty { artifacts = base_at "a" ∷ diff_of "a" "b" ∷ diff_of "b" "c" ∷ [] }

abbrev by_rank : String → String → Ordering
by_rank a b = compare (rank a) (rank b)

plan_as_of-AsOf_example :
    ((choose_base by_rank "b" none archive.artifacts ≡ none)
      × (plan_as_of by_rank 3 archive "b" ≡ some none))
    ⊎ ((plan : ReplayPlan) × (plan_as_of by_rank 3 archive "b" ≡ some (some plan))
        × AsOf by_rank "b" plan)
unfolding diffs_of
plan_as_of-AsOf_example = plan_as_of-AsOf by_rank "b" archive rank 2 3 rank-rises (omega arith)
