-- ===== src/Core/Baseline.antt =====
-- engine.go: how the pipelines of one source come to stream: `runSource` up to its loop, the restore
-- of a snapshot, and the baseline. What the source delivers is an argument, with the time of each row.
use laredo.Common.{
  ℕ, suc, String, Bool, true, false, not, ◌&&◌, ◌||◌, Option, none, some, List, [], ◌∷◌,
  if◌then◌else◌, get_elem?, ◌==◌, comparable_string, nat_beq, pos, sucℤ,
}
use laredo.Types.{Row, ColumnDefinition}
use laredo.Pipeline.{
  Pipeline, SyncTarget, pipeline_initializing, pipeline_baselining, pipeline_streaming,
  pipeline_error, validation_warn, apply_filters_and_transforms, is_row_expired,
}
use laredo.Engine.Ack.{confirm}
use laredo.Engine.Readiness.{set_ready}
use laredo.Core.{
  CoreEngine, on_pipeline, same_state, transition_pipeline, transition_pipelines, advance_ack,
}

-- A row that `Baseline` delivers, with its table and the time at which it is dispatched.
abbrev pub BaselineRow : Type 0
BaselineRow = ℕ × String × Row

-- `rowCounts[table]` after these rows
unfoldable pub row_count : String → List BaselineRow → ℕ
row_count table [] = 0
row_count table ((now, t, row) ∷ rows) =
    if t == table then suc (row_count table rows) else row_count table rows

module _ {T P : Type 0} (s : SyncTarget T P) where
  -- a handler's call on a target; an error leads to ERROR
  unfoldable pub call_target : CoreEngine T P → ℕ → Pipeline T → T × Bool → CoreEngine T P
  unfolding transition_pipeline
  call_target c idx p (target, ok) =
      let c' = on_pipeline c idx (λ q. record q { target = target }) in
      if ok then c' else transition_pipeline c' idx pipeline_error

  -- `SetReady`; the callbacks that it runs change nothing here
  unfoldable pub make_ready : CoreEngine T P → String → CoreEngine T P
  make_ready c id = record c { readiness = (set_ready c.readiness id).0 }

  -- the call of `OnInit` on each target
  unfoldable pub init_each :
      CoreEngine T P → List ℕ → (String → List ColumnDefinition) → CoreEngine T P
  unfolding call_target
  init_each c [] schemas = c
  init_each c (idx ∷ idxs) schemas =
      init_each
        (elim (get_elem? c.pipelines idx) [
          | none ↦ c
          | some p ↦ call_target c idx p (s.on_init p.target (schemas p.table))
        ])
        idxs schemas

  -- the pipelines that still initialize go to STREAMING and are ready
  unfoldable pub stream_initialized : CoreEngine T P → List ℕ → CoreEngine T P
  unfolding transition_pipeline same_state make_ready
  stream_initialized c [] = c
  stream_initialized c (idx ∷ idxs) =
      stream_initialized
        (elim (get_elem? c.pipelines idx) [
          | none ↦ c
          | some p ↦
              if same_state p.state pipeline_initializing
              then make_ready (transition_pipeline c idx pipeline_streaming) p.id
              else c
        ])
        idxs

  -- the restore of each target; false is an error, which leaves the rest alone
  unfoldable pub restore_targets :
      CoreEngine T P → List ℕ → (String → List Row) → CoreEngine T P × Bool
  unfolding same_state
  restore_targets c [] entries = (c, true)
  restore_targets c (idx ∷ idxs) entries = elim (get_elem? c.pipelines idx) [
    | none ↦ restore_targets c idxs entries
    | some p ↦ elim (same_state p.state pipeline_initializing) [
      | false ↦ restore_targets c idxs entries
      | true ↦
          let (target, ok) = s.restore_snapshot p.target (entries p.table) in
          let c' = on_pipeline c idx (λ q. record q { target = target }) in
          elim ok [ true ↦ restore_targets c' idxs entries | false ↦ (c', false) ]
    ]
  ]

  -- `trySnapshotRestore`, of the latest snapshot where it loads, with its position for the source
  unfoldable pub try_snapshot_restore :
      CoreEngine T P → List ℕ → Option (Option P × (String → List Row)) → CoreEngine T P × Option P
  unfolding restore_targets stream_initialized
  try_snapshot_restore c idxs none = (c, none)
  try_snapshot_restore c idxs (some (none, entries)) = (c, none)
  try_snapshot_restore c idxs (some (some position, entries)) =
      let (restored, ok) = restore_targets c idxs entries in
      if ok then (stream_initialized restored idxs, some position) else (restored, none)

  -- the reset of the expected rows
  unfoldable pub reset_each : CoreEngine T P → List ℕ → CoreEngine T P
  unfolding same_state
  reset_each c [] = c
  reset_each c (idx ∷ idxs) =
      reset_each
        (on_pipeline c idx (λ p.
          if same_state p.state pipeline_baselining then record p { expected_rows = pos 0 } else p))
        idxs

  -- one pipeline of `dispatchBaselineRow`
  unfoldable pub baseline_row : ℕ → String → Row → Pipeline T → Pipeline T
  unfolding apply_filters_and_transforms is_row_expired same_state
  baseline_row now table row p =
      if not (p.table == table) || not (same_state p.state pipeline_baselining)
      then p
      else elim (apply_filters_and_transforms p (some row)) [
        | none ↦ p
        | some r ↦
            if is_row_expired p now r
            then p
            else (let (target, ok) = s.on_baseline_row p.target r in
                if ok
                then record p { target = target; expected_rows = sucℤ p.expected_rows }
                else record p { target = target; state = pipeline_error })
      ]

  -- `dispatchBaselineRow`
  unfoldable pub dispatch_baseline_row : CoreEngine T P → List ℕ → ℕ → String → Row → CoreEngine T P
  unfolding baseline_row
  dispatch_baseline_row c [] now table row = c
  dispatch_baseline_row c (idx ∷ idxs) now table row =
      dispatch_baseline_row (on_pipeline c idx (baseline_row now table row)) idxs now table row

  unfoldable pub dispatch_rows : CoreEngine T P → List ℕ → List BaselineRow → CoreEngine T P
  unfolding dispatch_baseline_row
  dispatch_rows c idxs [] = c
  dispatch_rows c idxs ((now, table, row) ∷ rows) =
      dispatch_rows (dispatch_baseline_row c idxs now table row) idxs rows

  -- the call of `OnBaselineComplete` on each target that still baselines
  unfoldable pub complete_each : CoreEngine T P → List ℕ → P → CoreEngine T P
  unfolding same_state call_target
  complete_each c [] position = c
  complete_each c (idx ∷ idxs) position =
      complete_each
        (elim (get_elem? c.pipelines idx) [
          | none ↦ c
          | some p ↦
              if same_state p.state pipeline_baselining
              then call_target c idx p
                  (s.on_baseline_complete (s.set_change_position p.target (some position)))
              else c
        ])
        idxs position

  -- whether the validation of a target that still baselines leads to ERROR
  unfoldable pub mismatched : Pipeline T → ℕ → Bool
  unfolding same_state
  mismatched p source_count = same_state p.state pipeline_baselining && (elim (s.count p.target) [
    | none ↦ false
    | some target_count ↦
        not (nat_beq source_count target_count)
        && (elim p.validation_action [ validation_warn ↦ false | _ ↦ true ])
  ])

  -- the validation after the baseline
  unfoldable pub validate_each : CoreEngine T P → List ℕ → (String → ℕ) → CoreEngine T P
  unfolding mismatched transition_pipeline
  validate_each c [] row_counts = c
  validate_each c (idx ∷ idxs) row_counts =
      validate_each
        (elim (get_elem? c.pipelines idx) [
          | none ↦ c
          | some p ↦
              if mismatched p (row_counts p.table)
              then transition_pipeline c idx pipeline_error
              else c
        ])
        idxs row_counts

  -- the pipelines that still baseline go to STREAMING, are ready, and confirm the position
  unfoldable pub stream_each : CoreEngine T P → List ℕ → P → CoreEngine T P
  unfolding transition_pipeline same_state make_ready
  stream_each c [] position = c
  stream_each c (idx ∷ idxs) position =
      stream_each
        (elim (get_elem? c.pipelines idx) [
          | none ↦ c
          | some p ↦
              if same_state p.state pipeline_baselining
              then (let c' = make_ready (transition_pipeline c idx pipeline_streaming) p.id in
                  record c' { ack_tracker = confirm c'.ack_tracker p.id (some position) })
              else c
        ])
        idxs position

  -- `runBaseline`, by the rows that the source delivers, whether the context is done, whether the
  -- source takes the acknowledgement, and the position, where `Baseline` returns one
  unfoldable pub run_baseline :
      CoreEngine T P
      → String
      → List ℕ
      → List BaselineRow
      → Bool
      → Bool
      → Option P
      → CoreEngine T P × Option P
  unfolding transition_pipelines reset_each dispatch_rows complete_each validate_each stream_each
      advance_ack row_count
  run_baseline c source_id idxs rows done taken position =
      let dispatched =
        dispatch_rows (reset_each (transition_pipelines c idxs pipeline_baselining) idxs) idxs
          rows in
      elim position [
        | none ↦
            (if done then dispatched else transition_pipelines dispatched idxs pipeline_error, none)
        | some at ↦
            let completed = complete_each dispatched idxs at in
            let valid = validate_each completed idxs (λ table. row_count table rows) in
            (advance_ack (stream_each valid idxs at) source_id taken, some at)
      ]
