-- ===== src/Snapshotter/Writer.antt =====
-- snapshotter/writer.go, writer_manifest.go and keys.go: the writer of one table. What the outside
-- gives to one call is a `World`: the subscription's answers, whether the uploads and the commit of
-- the manifest succeed, and the changes that arrive while the lock is free.
-- `now` stands for every reading of the clock in the call. Errors are `false`.
use laredo.Common.{
  ℕ, suc, ◌+◌, ◌-◌, String, Bool, true, false, Option, none, some, List, [], ◌∷◌, ◌++◌, map,
  if◌then◌else◌, length, Assoc, get, put, comparable_string,
}
use laredo.Types.{
  Value, null, Row, get_value, Printing, ColumnDefinition, insert, update, remove, truncate,
}
use laredo.Snapshotter.{
  Artifact, snapshot, diff, Change, FormatRef, Manifest, manifest_version, prune, Fractions, Policy,
  should_snapshot,
}

-- the fields of `Config` and `Writer` that the modelled methods read
pub record Writer (f : Fractions) : Type 0 where
  pub table : String
  pub policy : Policy f
  pub key_fields : List String
  pub keep_epochs : ℕ
  pub buffer : Assoc String Change
  pub churn : ℕ
  pub epoch : ℕ
  pub from_pos : String
  pub last_snapshot_at : ℕ
  pub last_snapshot_bytes : ℕ
  pub head_pos : String
  pub manifest : Manifest

-- An `old` and a `new` row, as a subscription reports a change.
abbrev pub RowChange : Type 0
RowChange = Option Row × Option Row

pub record World : Type 0 where
  pub now : ℕ
  -- `CurrentPosition` and `Count`
  pub current_position : String
  pub count : ℕ
  -- the encoded size of the diff in its first format, if encoding succeeds
  pub diff_size : Option ℕ
  -- the uploaded formats of the diff, if encoding and every upload succeed
  pub diff_uploads : Option (Assoc String FormatRef)
  -- `Snapshot`: the rows and their position
  pub snapshot_rows : List Row
  pub snapshot_position : String
  -- the uploaded formats of the snapshot, and the size of the first
  pub snapshot_uploads : Option (Assoc String FormatRef × ℕ)
  -- whether every destination takes the manifest
  pub committed : Bool
  -- the schema, where the subscription has it
  pub columns : Option (List ColumnDefinition)
  -- the changes that arrive after the buffer was drained, and after the snapshot emptied it
  pub raced : List RowChange
  pub raced_snapshot : List RowChange

-- the loop of `remerge`
unfoldable pub remerge_into : Assoc String Change → Assoc String Change → Assoc String Change
remerge_into buffer [] = buffer
remerge_into buffer ((k, c) ∷ drained) =
    remerge_into (elim (get buffer k) [ none ↦ put buffer k c | some newer ↦ buffer ]) drained

module _ (p : Printing) (sprint_values : List Value → String) where
  values_of : Option Row → List String → List Value
  values_of none fields = map (λ c. null) fields
  values_of (some row) fields = map (get_value row) fields

  -- `RowKey`
  unfoldable pub row_key : Option Row → List String → String
  unfolding values_of
  row_key row [] = elim (values_of row ("id" ∷ [])) [ v ∷ [] ↦ p.sprint v | vs ↦ sprint_values vs ]
  row_key row (k ∷ ks) = elim (values_of row (k ∷ ks)) [
    | v ∷ [] ↦ p.sprint v
    | vs ↦ sprint_values vs
  ]

  change_of : String → Option Row → Option Row → Change
  change_of key none (some new) = record { action = insert; key = key; old = none; new = some new }
  change_of key (some old) (some new) = record {
    action = update;
    key = key;
    old = some old;
    new = some new;
  }
  change_of key (some old) none = record { action = remove; key = key; old = some old; new = none }
  change_of key none none = record { action = truncate; key = key; old = none; new = none }

  module _ {f : Fractions} where
    -- `keyOf`, of the new row, or of the old one where there is none
    unfoldable pub key_of : Writer f → Option Row → Option Row → String
    unfolding row_key
    key_of w old none = row_key old w.key_fields
    key_of w old (some new) = row_key (some new) w.key_fields

    -- `onChange`
    unfoldable pub on_change : Writer f → RowChange → Writer f
    unfolding key_of change_of
    on_change w (none, none) =
        let key = key_of w none none in
        record w { churn = suc w.churn; buffer = (key, change_of key none none) ∷ [] }
    on_change w (old, new) =
        let key = key_of w old new in
        record w { churn = suc w.churn; buffer = put w.buffer key (change_of key old new) }

    unfoldable pub on_changes : Writer f → List RowChange → Writer f
    unfolding on_change
    on_changes w [] = w
    on_changes w (c ∷ cs) = on_changes (on_change w c) cs

    -- `remerge`
    unfoldable pub remerge : Writer f → Assoc String Change → Writer f
    unfolding remerge_into
    remerge w drained = record w { buffer = remerge_into w.buffer drained }

    -- the manifest that `commit` marshals; the writer keeps it whether or not the write succeeds
    unfoldable pub manifest_with : Writer f → Artifact → World → Manifest
    manifest_with w art world =
        prune
          (record {
            manifest_version = manifest_version;
            table = w.table;
            epoch = elim art.kind [ snapshot ↦ art.epoch | diff ↦ w.manifest.epoch ];
            updated_at = world.now;
            head_position = art.to_position;
            artifacts = w.manifest.artifacts ++ (art ∷ []);
            columns = elim world.columns [ none ↦ w.manifest.columns | some cs ↦ cs ];
          })
          w.keep_epochs

    -- `commit`
    unfoldable pub commit : Writer f → Artifact → World → Writer f × Bool
    unfolding manifest_with
    commit w art world = (record w { manifest = manifest_with w art world }, world.committed)

    -- the base that `snapshot` writes
    abbrev pub base_artifact : Writer f → World → Assoc String FormatRef → Artifact
    base_artifact w world formats = record {
      kind = snapshot;
      epoch = w.epoch + 1;
      from_position = none;
      to_position = world.snapshot_position;
      created_at = world.now;
      row_count = length world.snapshot_rows;
      change_count = 0;
      formats = formats;
    }

    -- `snapshot`
    unfoldable pub write_snapshot : Writer f → World → Writer f × Bool
    unfolding commit on_changes
    write_snapshot w world =
        let emptied = on_changes (record w { buffer = []; churn = 0 }) world.raced_snapshot in
        elim world.snapshot_uploads [
          | none ↦ (emptied, false)
          | some (formats, size) ↦
              let (w', ok) = commit emptied (base_artifact w world formats) world in
              if ok
              then (
                record w' {
                  epoch = w.epoch + 1;
                  from_pos = world.snapshot_position;
                  head_pos = world.snapshot_position;
                  last_snapshot_at = world.now;
                  last_snapshot_bytes = size;
                },
                true,
              )
              else (w', false)
        ]

    -- the diff that `flush` writes
    abbrev pub diff_artifact : Writer f → World → Assoc String FormatRef → Artifact
    diff_artifact w world formats = record {
      kind = diff;
      epoch = w.epoch;
      from_position = some w.from_pos;
      to_position = world.current_position;
      created_at = world.now;
      row_count = 0;
      change_count = length w.buffer;
      formats = formats;
    }

    unfoldable pub write_diff : Writer f → Writer f → World → Writer f × Bool
    unfolding commit remerge
    write_diff w drained world = elim world.diff_uploads [
      | none ↦ (remerge drained w.buffer, false)
      | some formats ↦
          let (w', ok) = commit drained (diff_artifact w world formats) world in
          if ok
          then (
            record w' { from_pos = world.current_position; head_pos = world.current_position },
            true,
          )
          else (remerge w' w.buffer, false)
    ]

    -- the decision of `flush`, for a diff of the given size
    abbrev pub trigger : Writer f → World → ℕ → Bool
    trigger w world size =
        (should_snapshot f w.policy (record {
          since_snapshot = world.now - w.last_snapshot_at;
          diff_bytes = size;
          churn_records = w.churn;
          dataset_size = world.count;
          last_snapshot_bytes = w.last_snapshot_bytes;
        })).0

    -- `flush` once the buffer is drained
    unfoldable pub flush_drained : Writer f → Writer f → World → Writer f × Bool
    unfolding remerge write_snapshot write_diff
    flush_drained w drained world = elim world.diff_size [
      | none ↦ (remerge drained w.buffer, false)
      | some size ↦
          if trigger w world size then write_snapshot drained world else write_diff w drained world
    ]

    -- `flush`
    unfoldable pub flush : Writer f → World → Writer f × Bool
    unfolding flush_drained on_changes
    flush w world = elim w.buffer [
      | [] ↦ (w, true)
      | c ∷ cs ↦ flush_drained w (on_changes (record w { buffer = [] }) world.raced) world
    ]
