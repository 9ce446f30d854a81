-- ===== src/Core/Lifecycle.antt =====
-- engine.go: the methods of the engine: starting and stopping, pausing and resuming a source, the
-- reload of a table, readiness, and what a snapshot holds. Each call on a source is an argument: whether
-- it succeeds. A method returns the engine and its error.
use laredo.Common.{
  ℕ, ◌+◌, String, Bool, true, false, not, ◌&&◌, ◌||◌, Option, none, some, List, [], ◌∷◌, ◌++◌,
  if◌then◌else◌, get_elem?, positions_from, ◌==◌, comparable_string, Assoc, get, put, length,
}
use laredo.Types.{Row}
use laredo.Pipeline.{
  Pipeline, PipelineState, SyncTarget, pipeline_baselining, pipeline_streaming, pipeline_paused,
  pipeline_error, pipeline_stopped,
}
use laredo.Engine.Ack.{last_acked}
use laredo.Core.{CoreEngine, on_pipeline, in_state, same_state, transition_pipeline, advance_ack}
use laredo.Core.Baseline.{BaselineRow, call_target, reset_each, dispatch_rows, complete_each}

pub data EngineError : Type 0 where
  not_started already_started stopped_already unknown_source no_active_pipelines : EngineError
  source_failed baseline_failed timed_out : EngineError

-- `snapshotMetadata.SourcePositions`, the exported rows by table, and the row count of each pipeline
pub record Exported (P : Type 0) : Type 0 where
  pub source_positions : Assoc String P
  pub entries : Assoc String (List Row)
  pub tables : List (String × ℕ)

has_source : List String → String → Bool
has_source [] id = false
has_source (x ∷ xs) id = (x == id) || has_source xs id

module _ {T : Type 0} where
  -- STREAMING or PAUSED
  unfoldable pub is_active : Pipeline T → Bool
  unfolding same_state
  is_active p = same_state p.state pipeline_streaming || same_state p.state pipeline_paused

  -- some pipeline of the source, and each of them active
  ready_each : String → List (Pipeline T) → Bool → Bool
  unfolding is_active
  ready_each source_id [] found = found
  ready_each source_id (p ∷ ps) found =
      if p.source_id == source_id
      then (if is_active p then ready_each source_id ps true else false)
      else ready_each source_id ps found

  -- `affectedIdxs` of `Reload`: the active pipelines of the source and table
  unfoldable pub affected : ℕ → List (Pipeline T) → String → String → List ℕ
  unfolding is_active
  affected n [] source_id table = []
  affected n (p ∷ ps) source_id table =
      let rest = affected (n + 1) ps source_id table in
      if (p.source_id == source_id) && ((p.table == table) && is_active p) then n ∷ rest else rest

  -- `Targets`
  unfoldable pub targets : List (Pipeline T) → String → String → List T
  targets [] source_id table = []
  targets (p ∷ ps) source_id table =
      let rest = targets ps source_id table in
      if ((source_id == "") || (p.source_id == source_id)) && (p.table == table)
      then p.target ∷ rest
      else rest

module _ {T P : Type 0} where
  -- the guard that `Reload`, `Pause` and `Resume` share
  unfoldable pub guarded : CoreEngine T P → String → Option EngineError
  unfolding has_source
  guarded c source_id =
      if not c.started
      then some not_started
      else if c.stopped
      then some stopped_already
      else if has_source c.sources source_id
      then none
      else some unknown_source

  -- `Start`, but for the goroutines that it starts
  unfoldable pub start : CoreEngine T P → CoreEngine T P × Option EngineError
  start c =
      if c.stopped
      then (c, some stopped_already)
      else if c.started
      then (c, some already_started)
      else (record c { started = true }, none)

  -- the pipelines of a source in one state go to another
  unfoldable pub move_each :
      CoreEngine T P
      → List ℕ
      → String
      → (Pipeline T → Bool)
      → (Pipeline T → Pipeline T)
      → CoreEngine T P
  move_each c [] source_id chosen change = c
  move_each c (idx ∷ idxs) source_id chosen change =
      move_each
        (on_pipeline c idx (λ p. if (p.source_id == source_id) && chosen p then change p else p))
        idxs source_id chosen change

  -- `Pause`
  unfoldable pub pause : CoreEngine T P → String → Bool → CoreEngine T P × Option EngineError
  unfolding guarded move_each same_state
  pause c source_id paused = elim (guarded c source_id) [
    | some err ↦ (c, some err)
    | none ↦
        if paused
        then (
          move_each c (positions_from 0 c.pipelines) source_id
              (λ p. same_state p.state pipeline_streaming)
              (λ p. record p { state = pipeline_paused }),
          none,
        )
        else (c, some source_failed)
  ]

  -- `Resume`
  unfoldable pub resume : CoreEngine T P → String → Bool → CoreEngine T P × Option EngineError
  unfolding guarded move_each same_state
  resume c source_id resumed = elim (guarded c source_id) [
    | some err ↦ (c, some err)
    | none ↦
        if resumed
        then (
          move_each c (positions_from 0 c.pipelines) source_id
              (λ p. same_state p.state pipeline_paused)
              (λ p. record p { state = pipeline_streaming }),
          none,
        )
        else (c, some source_failed)
  ]

  -- `IsSourceReady`
  unfoldable pub is_source_ready : CoreEngine T P → String → Bool
  unfolding ready_each
  is_source_ready c source_id = ready_each source_id c.pipelines false

  -- a transition of each, whatever its state
  unfoldable pub transition_each : CoreEngine T P → List ℕ → PipelineState → CoreEngine T P
  unfolding transition_pipeline
  transition_each c [] state = c
  transition_each c (idx ∷ idxs) state =
      transition_each (transition_pipeline c idx state) idxs state

  -- the pipelines that still baseline go to STREAMING
  unfoldable pub stream_again : CoreEngine T P → List ℕ → CoreEngine T P
  unfolding transition_pipeline in_state same_state
  stream_again c [] = c
  stream_again c (idx ∷ idxs) =
      stream_again
        (if in_state c idx (same_state pipeline_baselining)
          then transition_pipeline c idx pipeline_streaming
          else c)
        idxs

  module _ (s : SyncTarget T P) where
    unfoldable pub truncate_each : CoreEngine T P → List ℕ → CoreEngine T P
    unfolding call_target
    truncate_each c [] = c
    truncate_each c (idx ∷ idxs) =
        truncate_each
          (elim (get_elem? c.pipelines idx) [
            | none ↦ c
            | some p ↦ call_target s c idx p (s.on_truncate p.target)
          ])
          idxs

    -- `Reload` once the source is paused
    unfoldable pub reloaded :
        CoreEngine T P
        → List ℕ
        → List BaselineRow
        → Option P
        → Bool
        → CoreEngine T P × Option EngineError
    unfolding transition_each truncate_each reset_each dispatch_rows complete_each stream_again
    reloaded c idxs rows position resumed =
        let emptied = truncate_each (transition_each c idxs pipeline_baselining) idxs in
        let dispatched = dispatch_rows s (reset_each s emptied idxs) idxs rows in
        elim position [
          | none ↦ (transition_each dispatched idxs pipeline_error, some baseline_failed)
          | some at ↦ (
            stream_again (complete_each s dispatched idxs at) idxs,
            if resumed then none else some source_failed,
          )
        ]

    -- `Reload`, by whether the source pauses, what its baseline delivers and returns, and whether it
    -- resumes
    unfoldable pub reload :
        CoreEngine T P
        → String
        → String
        → Bool
        → List BaselineRow
        → Option P
        → Bool
        → CoreEngine T P × Option EngineError
    unfolding guarded affected reloaded
    reload c source_id table paused rows position resumed = elim (guarded c source_id) [
      | some err ↦ (c, some err)
      | none ↦ elim (affected 0 c.pipelines source_id table) [
        | [] ↦ (c, some no_active_pipelines)
        | idx ∷ idxs ↦
            if paused
            then reloaded c (idx ∷ idxs) rows position resumed
            else (c, some source_failed)
      ]
    ]

    -- the final acknowledgement to each source
    final_acks : CoreEngine T P → List String → (String → Bool) → CoreEngine T P
    unfolding advance_ack
    final_acks c [] taken = c
    final_acks c (source_id ∷ rest) taken =
        final_acks (advance_ack c source_id (taken source_id)) rest taken

    close_pipeline : Pipeline T → Pipeline T
    unfolding same_state
    close_pipeline p =
        if same_state p.state pipeline_stopped
        then p
        else record p { target = s.on_close p.target; state = pipeline_stopped }

    close_each : List (Pipeline T) → List (Pipeline T)
    unfolding close_pipeline
    close_each [] = []
    close_each (p ∷ ps) = close_pipeline p ∷ close_each ps

    -- `Stop`, by whether the goroutines finish in time and what the sources take
    unfoldable pub stop :
        CoreEngine T P → Bool → (String → Bool) → CoreEngine T P × Option EngineError
    unfolding final_acks close_each
    stop c finished taken =
        let ending : CoreEngine T P = record c { stopped = true; cancelled = true } in
        let acked = final_acks ending ending.sources taken in
        if c.stopped
        then (c, some stopped_already)
        else if not c.started
        then (c, some not_started)
        else if finished
        then (record acked { pipelines = close_each acked.pipelines }, none)
        else (ending, some timed_out)

    -- the exports of `doSnapshot`; none is an export that fails
    export_each :
        List (Pipeline T)
        → Assoc String (List Row)
        → List (String × ℕ)
        → Option (Assoc String (List Row) × List (String × ℕ))
    unfolding is_active
    export_each [] entries tables = some (entries, tables)
    export_each (p ∷ ps) entries tables =
        if is_active p
        then elim (s.export_snapshot p.target) [
          | none ↦ none
          | some rows ↦
              export_each ps
                (put entries p.table
                  ((elim (get entries p.table) [ none ↦ [] | some old ↦ old ]) ++ rows))
                (tables ++ ((p.table, length rows) ∷ []))
        ]
        else export_each ps entries tables

    positions_of : CoreEngine T P → List String → Assoc String P
    positions_of c [] = []
    positions_of c (id ∷ ids) = elim (last_acked c.ack_tracker id) [
      | none ↦ positions_of c ids
      | some position ↦ (id, position) ∷ positions_of c ids
    ]

    -- what `doSnapshot` saves, once every source has paused
    unfoldable pub exported : CoreEngine T P → Option (Exported P)
    unfolding export_each positions_of
    exported c = elim (export_each c.pipelines [] []) [
      | none ↦ none
      | some (entries, tables) ↦ some (record {
        source_positions = positions_of c c.sources;
        entries = entries;
        tables = tables;
      })
    ]
