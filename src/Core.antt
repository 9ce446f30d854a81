-- ===== src/Core.antt =====
-- engine.go: the engine's state, the transitions of its pipelines, the error policies and the
-- acknowledgement to a source. A pipeline is named by its position in the list, as in the code.
-- Observers are left out: they are told what happens and change nothing.
pub mod Consumer
pub mod Baseline
pub mod Lifecycle
pub mod Scanner
pub mod Applied
pub mod Frame
pub mod Down
pub mod Configure
mod Tests
use laredo.Common.{
  ℕ, String, Bool, true, false, not, ◌&&◌, ◌||◌, Option, none, some, List, [], ◌∷◌, ◌++◌,
  if◌then◌else◌, get_elem?, modify_at, positions_from, ◌==◌, comparable_string,
}
use laredo.Pipeline.{
  Pipeline, PipelineState, pipeline_initializing, pipeline_baselining, pipeline_streaming,
  pipeline_paused, pipeline_error, pipeline_stopped, error_isolate, error_stop_source,
  error_stop_all,
}
use laredo.DeadLetter.{MemoryStore}
use laredo.Engine.Ack.{AckTracker, skip, ack_position}
use laredo.Engine.Readiness.{ReadinessTracker}

-- `coreEngine`; `acked` lists what the sources took by `Ack`, and `cancelled` is the engine's context
pub record CoreEngine (T P : Type 0) : Type 0 where
  pub sources : List String
  pub pipelines : List (Pipeline T)
  pub readiness : ReadinessTracker
  pub ack_tracker : AckTracker P
  pub dead_letter_store : Option (MemoryStore P)
  pub acked : List (String × P)
  pub started : Bool
  pub stopped : Bool
  pub cancelled : Bool

-- Whether two states are the same one.
unfoldable pub same_state : PipelineState → PipelineState → Bool
same_state pipeline_initializing pipeline_initializing = true
same_state pipeline_baselining pipeline_baselining = true
same_state pipeline_streaming pipeline_streaming = true
same_state pipeline_paused pipeline_paused = true
same_state pipeline_error pipeline_error = true
same_state pipeline_stopped pipeline_stopped = true
same_state _ _ = false

-- ERROR or STOPPED
unfoldable pub is_down : PipelineState → Bool
is_down pipeline_error = true
is_down pipeline_stopped = true
is_down _ = false

module _ {T P : Type 0} where
  -- a change of the pipeline at a position
  abbrev pub on_pipeline : CoreEngine T P → ℕ → (Pipeline T → Pipeline T) → CoreEngine T P
  on_pipeline c idx change = record c { pipelines = modify_at c.pipelines idx change }

  -- `transitionPipeline`
  unfoldable pub transition_pipeline : CoreEngine T P → ℕ → PipelineState → CoreEngine T P
  transition_pipeline c idx state = on_pipeline c idx (λ p. record p { state = state })

  -- whether there is a pipeline at the position, in a state that passes
  unfoldable pub in_state : CoreEngine T P → ℕ → (PipelineState → Bool) → Bool
  in_state c idx passes = elim (get_elem? c.pipelines idx) [
    | none ↦ false
    | some p ↦ passes p.state
  ]

  -- `transitionPipelines`
  unfoldable pub transition_pipelines : CoreEngine T P → List ℕ → PipelineState → CoreEngine T P
  unfolding transition_pipeline in_state is_down
  transition_pipelines c [] state = c
  transition_pipelines c (idx ∷ idxs) state =
      transition_pipelines (if in_state c idx is_down then c else transition_pipeline c idx state)
        idxs state

  -- the transition to ERROR of a pipeline that is not down, which the tracker then skips
  unfoldable pub fail : CoreEngine T P → ℕ → (Pipeline T → Bool) → CoreEngine T P
  unfolding transition_pipeline is_down
  fail c idx chosen = elim (get_elem? c.pipelines idx) [
    | none ↦ c
    | some p ↦
        if chosen p && not (is_down p.state)
        then record (transition_pipeline c idx pipeline_error) {
          ack_tracker = skip c.ack_tracker p.id;
        }
        else c
  ]

  unfoldable pub fail_each : CoreEngine T P → List ℕ → (Pipeline T → Bool) → CoreEngine T P
  unfolding fail
  fail_each c [] chosen = c
  fail_each c (idx ∷ idxs) chosen = fail_each (fail c idx chosen) idxs chosen

  -- `applyErrorPolicy` for the given pipeline, with whether the engine is to stop
  unfoldable pub apply_error_policy :
      CoreEngine T P → ℕ → Pipeline T → String → List ℕ → CoreEngine T P × Bool
  unfolding transition_pipeline fail_each
  apply_error_policy c failed_idx p source_id idxs = elim p.error_policy [
    | error_isolate ↦ (
      record (transition_pipeline c failed_idx pipeline_error) {
        ack_tracker = skip c.ack_tracker p.id;
      },
      false,
    )
    | error_stop_source ↦ (fail_each c idxs (λ pp. pp.source_id == source_id), false)
    | error_stop_all ↦ (
      record (fail_each c (positions_from 0 c.pipelines) (λ pp. true)) { cancelled = true },
      true,
    )
  ]

  -- `AckPosition` and the `Ack` that follows it, which the source takes or refuses
  unfoldable pub advance_ack : CoreEngine T P → String → Bool → CoreEngine T P
  advance_ack c source_id taken =
      let (tracker, position, advanced) = ack_position c.ack_tracker source_id in
      record c {
        ack_tracker = tracker;
        acked = elim position [
          | none ↦ c.acked
          | some pos ↦ if advanced && taken then c.acked ++ ((source_id, pos) ∷ []) else c.acked
        ];
      }
