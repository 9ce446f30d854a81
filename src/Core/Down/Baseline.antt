-- ===== src/Core/Down/Baseline.antt =====
-- A pipeline that is down, through a baseline and the restore of a snapshot.
use laredo.Common.{
  ℕ, String, Bool, true, false, ◌≡◌, ◌≢◌, refl, Option, none, some, List, [], ◌∷◌, arith,
  if◌then◌else◌, Bool-cases, Option-cases, inl, inr, get_elem?, comparable_string,
}
use laredo.Types.{Row}
use laredo.Pipeline.{
  Pipeline, SyncTarget, pipeline_initializing, pipeline_baselining, pipeline_streaming,
  pipeline_error,
}
use laredo.Core.{CoreEngine, on_pipeline, same_state, is_down, advance_ack}
use laredo.Core.Baseline.{
  BaselineRow, call_target, make_ready, stream_initialized, restore_targets, try_snapshot_restore,
  reset_each, baseline_row, dispatch_baseline_row, dispatch_rows, complete_each, mismatched,
  validate_each, stream_each, run_baseline,
}
use laredo.Core.Frame.{
  Holds, on_pipeline-Holds, up_elsewhere, at-Holds, if-Holds, transition-Holds,
  transition_pipelines-Holds, is_down-same_state,
}
use laredo.Core.Down.{same_state-up}

module _ {T P : Type 0} (s : SyncTarget T P) (i : ℕ) (p : Pipeline T)
    (down : is_down p.state ≡ true) where
  not_baselining : same_state p.state pipeline_baselining ≡ false
  unfolding is_down
  not_baselining = is_down-same_state p.state pipeline_baselining down refl

  pub reset_each-Holds :
      (idxs : List ℕ) (c : CoreEngine T P) → Holds i p down c → Holds i p down (reset_each s c idxs)
  unfolding reset_each
  reset_each-Holds [] c h = h
  reset_each-Holds (n ∷ idxs) c h =
      reset_each-Holds idxs _ (on_pipeline-Holds i p down c n _ h (λ same. rw not_baselining refl))

  baseline_row_same : (now : ℕ) (table : String) (row : Row) → baseline_row s now table row p ≡ p
  unfolding baseline_row
  baseline_row_same now table row =
      let off : same_state p.state pipeline_baselining ≡ false = not_baselining in ground arith

  dispatch_baseline_row-Holds :
      (idxs : List ℕ) (c : CoreEngine T P) (now : ℕ) (table : String) (row : Row)
      → Holds i p down c
      → Holds i p down (dispatch_baseline_row s c idxs now table row)
  unfolding dispatch_baseline_row
  dispatch_baseline_row-Holds [] c now table row h = h
  dispatch_baseline_row-Holds (n ∷ idxs) c now table row h =
      dispatch_baseline_row-Holds idxs _ now table row
        (on_pipeline-Holds i p down c n _ h (λ same. baseline_row_same now table row))

  pub dispatch_rows-Holds :
      (rows : List BaselineRow) (idxs : List ℕ) (c : CoreEngine T P)
      → Holds i p down c
      → Holds i p down (dispatch_rows s c idxs rows)
  unfolding dispatch_rows
  dispatch_rows-Holds [] idxs c h = h
  dispatch_rows-Holds ((now, table, row) ∷ rows) idxs c h =
      dispatch_rows-Holds rows idxs _ (dispatch_baseline_row-Holds idxs c now table row h)

  pub call_target-Holds :
      (c : CoreEngine T P) (n : ℕ) (q : Pipeline T) (r : T × Bool)
      → Holds i p down c
      → n ≢ i
      → Holds i p down (call_target s c n q r)
  unfolding call_target
  call_target-Holds c n q (target, ok) h other =
      let called =
        on_pipeline-Holds i p down c n (λ r. record r { target = target }) h
          (λ same. absurd (other same)) in
      if-Holds i p down ok _ _ (λ y. called)
        (λ n'.
          transition-Holds i p down (on_pipeline c n (λ r. record r { target = target })) n
            pipeline_error called other)

  -- a step at a pipeline that still baselines
  baselining-Holds :
      (c : CoreEngine T P) (n : ℕ) (f : Pipeline T → CoreEngine T P)
      → Holds i p down c
      → ((q : Pipeline T) → n ≢ i → Holds i p down (f q))
      → Holds i p down (elim (get_elem? c.pipelines n) [
        | none ↦ c
        | some q ↦ if same_state q.state pipeline_baselining then f q else c
      ])
  unfolding is_down
  baselining-Holds c n f h each = at-Holds i p down c n _ h (λ q e.
      if-Holds i p down (same_state q.state pipeline_baselining) (f q) c
        (λ on. each q (
          up_elsewhere i p down c n q h e
            (same_state-up s i p down q.state pipeline_baselining refl on)))
        (λ off. h))

  pub complete_each-Holds :
      (idxs : List ℕ) (c : CoreEngine T P) (at : P)
      → Holds i p down c
      → Holds i p down (complete_each s c idxs at)
  unfolding complete_each
  complete_each-Holds [] c at h = h
  complete_each-Holds (n ∷ idxs) c at h =
      complete_each-Holds idxs _ at
        (baselining-Holds c n _ h (λ q other. call_target-Holds c n q _ h other))

  mismatched_up : (q : Pipeline T) (n : ℕ) → mismatched s q n ≡ true → is_down q.state ≡ false
  unfolding mismatched is_down
  mismatched_up q n y = elim (Bool-cases (same_state q.state pipeline_baselining)) [
    | inl on ↦ same_state-up s i p down q.state pipeline_baselining refl on
    | inr off ↦ absurd (ground arith)
  ]

  validate_each-Holds :
      (idxs : List ℕ) (c : CoreEngine T P) (counts : String → ℕ)
      → Holds i p down c
      → Holds i p down (validate_each s c idxs counts)
  unfolding validate_each
  validate_each-Holds [] c counts h = h
  validate_each-Holds (n ∷ idxs) c counts h = validate_each-Holds idxs _ counts (
      at-Holds i p down c n _ h (λ q e.
        if-Holds i p down (mismatched s q (counts q.table)) _ c
          (λ y.
            transition-Holds i p down c n pipeline_error h
              (up_elsewhere i p down c n q h e (mismatched_up q (counts q.table) y)))
          (λ y. h)))

  stream_each-Holds :
      (idxs : List ℕ) (c : CoreEngine T P) (at : P)
      → Holds i p down c
      → Holds i p down (stream_each s c idxs at)
  unfolding stream_each make_ready
  stream_each-Holds [] c at h = h
  stream_each-Holds (n ∷ idxs) c at h = stream_each-Holds idxs _ at (
      baselining-Holds c n _ h
        (λ q other. transition-Holds i p down c n pipeline_streaming h other))

  pub run_baseline-Holds :
      (c : CoreEngine T P) (source_id : String) (idxs : List ℕ) (rows : List BaselineRow)
      (done taken : Bool) (position : Option P)
      → Holds i p down c
      → Holds i p down (run_baseline s c source_id idxs rows done taken position).0
  unfolding run_baseline advance_ack
  run_baseline-Holds c source_id idxs rows done taken none h =
      let dispatched = dispatch_rows-Holds rows idxs _ (
        reset_each-Holds idxs _
          (transition_pipelines-Holds i p down c idxs pipeline_baselining h)) in
      if-Holds i p down done _ _ (λ y. dispatched)
        (λ y. transition_pipelines-Holds i p down _ idxs pipeline_error dispatched)
  run_baseline-Holds c source_id idxs rows done taken (some at) h = stream_each-Holds idxs _ at (
      validate_each-Holds idxs _ _ (
        complete_each-Holds idxs _ at (
          dispatch_rows-Holds rows idxs _ (
            reset_each-Holds idxs _
              (transition_pipelines-Holds i p down c idxs pipeline_baselining h)))))

  stream_initialized-Holds :
      (idxs : List ℕ) (c : CoreEngine T P)
      → Holds i p down c
      → Holds i p down (stream_initialized s c idxs)
  unfolding stream_initialized make_ready is_down
  stream_initialized-Holds [] c h = h
  stream_initialized-Holds (n ∷ idxs) c h = stream_initialized-Holds idxs _ (
      at-Holds i p down c n _ h (λ q e.
        if-Holds i p down (same_state q.state pipeline_initializing) _ c
          (λ on. transition-Holds i p down c n pipeline_streaming h (
            up_elsewhere i p down c n q h e
              (same_state-up s i p down q.state pipeline_initializing refl on)))
          (λ off. h)))

  restore_targets-Holds :
      (idxs : List ℕ) (c : CoreEngine T P) (entries : String → List Row)
      → Holds i p down c
      → Holds i p down (restore_targets s c idxs entries).0
  unfolding restore_targets is_down
  restore_targets-Holds [] c entries h = h
  restore_targets-Holds (n ∷ idxs) c entries h = elim (Option-cases (get_elem? c.pipelines n)) [
    | inl e ↦ rw (restore_targets, e) (restore_targets-Holds idxs c entries h)
    | inr (q, e) ↦ elim (Bool-cases (same_state q.state pipeline_initializing)) [
      | inr off ↦ rw (restore_targets, e, off) (restore_targets-Holds idxs c entries h)
      | inl on ↦
          let called =
            on_pipeline-Holds i p down c n
              (λ r. record r { target = (s.restore_snapshot q.target (entries q.table)).0 }) h
              (λ same. absurd (
                up_elsewhere i p down c n q h e
                  (same_state-up s i p down q.state pipeline_initializing refl on) same)) in
          elim (Bool-cases (s.restore_snapshot q.target (entries q.table)).1) [
            | inl y ↦ rw (restore_targets, e, on, y) (restore_targets-Holds idxs _ entries called)
            | inr no' ↦ rw (restore_targets, e, on, no') called
          ]
    ]
  ]

  pub try_snapshot_restore-Holds :
      (idxs : List ℕ) (c : CoreEngine T P) (snapshot : Option (Option P × (String → List Row)))
      → Holds i p down c
      → Holds i p down (try_snapshot_restore s c idxs snapshot).0
  unfolding try_snapshot_restore
  try_snapshot_restore-Holds idxs c none h = h
  try_snapshot_restore-Holds idxs c (some (none, entries)) h = h
  try_snapshot_restore-Holds idxs c (some (some at, entries)) h =
      elim (Bool-cases (restore_targets s c idxs entries).1) [
        | inl y ↦
            rw (try_snapshot_restore, y)
              (stream_initialized-Holds idxs _ (restore_targets-Holds idxs c entries h))
        | inr no' ↦ rw (try_snapshot_restore, no') (restore_targets-Holds idxs c entries h)
      ]
