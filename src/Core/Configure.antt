-- ===== src/Core/Configure.antt =====
-- engine.go: the configuration of the engine and of its pipelines, and the options that make it. The
-- observer, the snapshot store and serializer and the intervals are kept as far as the validation
-- reads them.
pub mod Validate
pub mod Registered
mod Tests
use Prim.Native.String.{◌++◌ as str_append}
use laredo.Common.{
  ℕ, zero, suc, ◌+◌, String, Bool, true, false, not, ◌&&◌, ◌||◌, Option, none, some, List, [], ◌∷◌,
  ◌++◌, map, if◌then◌else◌, Assoc, get, put, ◌==◌, comparable_string, ℤ, pos, negsuc,
}
use laredo.Types.{Row}
use laredo.Pipeline.{
  Pipeline, pipeline_initializing, ErrorPolicyKind, error_isolate, BufferPolicy, buffer_block,
  ValidationAction, validation_warn,
}
use laredo.DeadLetter.{MemoryStore}
use laredo.Engine.Ack.{Compare}

-- `TableIdentifier`
pub record TableIdentifier : Type 0 where
  pub schema : String
  pub table : String

-- `TableIdentifier.String`
unfoldable pub table_string : TableIdentifier → String
table_string t = str_append t.schema (str_append "." t.table)

-- `pipelineConfig`, but for its two intervals; a nil target is none
pub record PipelineConfig (T : Type 0) : Type 0 where
  pub source_id : String
  pub table : TableIdentifier
  pub target : Option T
  pub filters : List (Row → Bool)
  pub transforms : List (Row → Option Row)
  pub buffer_size : ℤ
  pub buffer_policy : BufferPolicy
  pub error_policy : ErrorPolicyKind
  pub max_retries : ℤ
  pub ttl_func : Option (Row → Option ℕ)
  pub validation_action : ValidationAction

-- `engineConfig`; of the store and the serializer, whether they are there
pub record EngineConfig (T P : Type 0) : Type 0 where
  -- of a source the engine's construction takes only `ComparePositions`
  pub sources : Assoc String (Option (Compare P))
  pub pipelines : List (PipelineConfig T)
  pub snapshot_store : Bool
  pub snapshot_serializer : Bool
  pub snapshot_schedule : ℤ
  pub dead_letter_store : Option (MemoryStore P)

-- The errors of `validateConfig`; a number is the position of the pipeline.
pub data ConfigError : Type 0 where
  no_source no_pipeline negative_schedule no_serializer empty_source_id : ConfigError
  nil_source : String → ConfigError
  no_source_id unknown_source no_table nil_target bad_buffer_size bad_retries : ℕ → ConfigError
  duplicate_id : ℕ → String → ConfigError

-- an error where a test fails
abbrev pub unless : Bool → ConfigError → List ConfigError
unless b e = if b then [] else e ∷ []

-- `PipelineOption` and `Option`
abbrev pub PipelineOption : Type 0 → Type 0
PipelineOption T = PipelineConfig T → PipelineConfig T

abbrev pub EngineOption : Type 0 → Type 0 → Type 0
EngineOption T P = EngineConfig T P → EngineConfig T P

module _ {T : Type 0} where
  -- `PipelineFilterOpt`
  unfoldable pub pipeline_filter_opt : (Row → Bool) → PipelineOption T
  pipeline_filter_opt f c = record c { filters = c.filters ++ (f ∷ []) }

  -- `PipelineTransformOpt`
  unfoldable pub pipeline_transform_opt : (Row → Option Row) → PipelineOption T
  pipeline_transform_opt t c = record c { transforms = c.transforms ++ (t ∷ []) }

  -- `BufferSize`
  unfoldable pub buffer_size_opt : ℤ → PipelineOption T
  buffer_size_opt n c = record c { buffer_size = n }

  -- `BufferPolicyOpt`
  unfoldable pub buffer_policy_opt : BufferPolicy → PipelineOption T
  buffer_policy_opt p c = record c { buffer_policy = p }

  -- `ErrorPolicyOpt`
  unfoldable pub error_policy_opt : ErrorPolicyKind → PipelineOption T
  error_policy_opt p c = record c { error_policy = p }

  -- `MaxRetries`
  unfoldable pub max_retries_opt : ℤ → PipelineOption T
  max_retries_opt n c = record c { max_retries = n }

  -- `WithTTL`
  unfoldable pub with_ttl : (Row → Option ℕ) → PipelineOption T
  with_ttl f c = record c { ttl_func = some f }

  -- `WithValidationAction`
  unfoldable pub with_validation_action : ValidationAction → PipelineOption T
  with_validation_action action c = record c { validation_action = action }

  unfoldable pub apply_pipeline_options :
      List (PipelineOption T) → PipelineConfig T → PipelineConfig T
  apply_pipeline_options [] c = c
  apply_pipeline_options (o ∷ os) c = apply_pipeline_options os (o c)

  -- what `WithPipeline` starts from
  unfoldable pub default_pipeline : String → TableIdentifier → Option T → PipelineConfig T
  default_pipeline source_id table target = record {
    source_id = source_id;
    table = table;
    target = target;
    filters = [];
    transforms = [];
    buffer_size = pos 10000;
    buffer_policy = buffer_block;
    error_policy = error_isolate;
    max_retries = pos 5;
    ttl_func = none;
    validation_action = validation_warn;
  }

module _ {T P : Type 0} where
  -- `WithSource`
  unfoldable pub with_source : String → Option (Compare P) → EngineOption T P
  with_source id source c = record c { sources = put c.sources id source }

  -- `WithPipeline`
  unfoldable pub with_pipeline :
      String → TableIdentifier → Option T → List (PipelineOption T) → EngineOption T P
  unfolding apply_pipeline_options default_pipeline
  with_pipeline source_id table target options c = record c {
    pipelines =
        c.pipelines
        ++ (apply_pipeline_options options (default_pipeline source_id table target) ∷ []);
  }

  -- `WithSnapshotStore`, `WithSnapshotSerializer`, `WithSnapshotSchedule`, `WithDeadLetterStore`
  unfoldable pub with_snapshot_store : EngineOption T P
  with_snapshot_store c = record c { snapshot_store = true }

  unfoldable pub with_snapshot_serializer : EngineOption T P
  with_snapshot_serializer c = record c { snapshot_serializer = true }

  unfoldable pub with_snapshot_schedule : ℤ → EngineOption T P
  with_snapshot_schedule d c = record c { snapshot_schedule = d }

  unfoldable pub with_dead_letter_store : MemoryStore P → EngineOption T P
  with_dead_letter_store store c = record c { dead_letter_store = some store }

  unfoldable pub apply_options : List (EngineOption T P) → EngineConfig T P → EngineConfig T P
  apply_options [] c = c
  apply_options (o ∷ os) c = apply_options os (o c)

  abbrev pub empty_config : EngineConfig T P
  empty_config = record {
    sources = [];
    pipelines = [];
    snapshot_store = false;
    snapshot_serializer = false;
    snapshot_schedule = pos 0;
    dead_letter_store = none;
  }
