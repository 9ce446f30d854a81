-- ===== src/Core/Configure/Validate.antt =====
-- engine.go: the validation of the configuration, the IDs of pipelines, and `NewEngine`. The name of a
-- target's type (package reflect) is an argument.
use Prim.Native.String.{◌++◌ as str_append}
use laredo.Common.{
  ℕ, zero, suc, ◌+◌, String, Bool, true, false, not, ◌||◌, Option, none, some, List, [], ◌∷◌, ◌++◌,
  map, if◌then◌else◌, Assoc, get, ◌==◌, comparable_string, ℤ, pos, negsuc,
}
use laredo.Pipeline.{Pipeline, pipeline_initializing}
use laredo.Engine.Ack.{AckTracker, new_ack_tracker, register_pipeline}
use laredo.Engine.Readiness.{new_readiness_tracker}
use laredo.Core.{CoreEngine}
use laredo.Engine.Ack.{Compare}
use laredo.Core.Configure.{
  TableIdentifier, table_string, PipelineConfig, EngineConfig, ConfigError, no_source, no_pipeline,
  negative_schedule, no_serializer, empty_source_id, nil_source, no_source_id, unknown_source,
  no_table, nil_target, bad_buffer_size, bad_retries, duplicate_id, unless, EngineOption,
  apply_options, empty_config,
}

unfoldable pub is_positive : ℤ → Bool
is_positive (pos zero) = false
is_positive (pos (suc n)) = true
is_positive (negsuc n) = false

unfoldable pub is_negative : ℤ → Bool
is_negative (pos n) = false
is_negative (negsuc n) = true

unfoldable pub has_id : List String → String → Bool
has_id [] id = false
has_id (x ∷ xs) id = (x == id) || has_id xs id

abbrev pub as_nat : ℤ → ℕ
as_nat (pos n) = n
as_nat (negsuc n) = 0

module _ {T : Type 0} (target_type_name : T → String) where
  -- `generatePipelineID`
  unfoldable pub generate_pipeline_id : String → TableIdentifier → T → String
  unfolding table_string
  generate_pipeline_id source_id table target =
      str_append source_id (
        str_append ":" (str_append (table_string table) (str_append ":" (target_type_name target))))

  -- the pipelines that `NewEngine` makes, a table by its text; validation lets none through without
  -- a target
  unfoldable pub resolve : List (PipelineConfig T) → List (Pipeline T)
  unfolding generate_pipeline_id table_string
  resolve [] = []
  resolve (pc ∷ pcs) = elim pc.target [
    | none ↦ resolve pcs
    | some t ↦
        record {
          id = generate_pipeline_id pc.source_id pc.table t;
          source_id = pc.source_id;
          table = table_string pc.table;
          target = t;
          filters = pc.filters;
          transforms = pc.transforms;
          buffer_size = as_nat pc.buffer_size;
          buffer_policy = pc.buffer_policy;
          error_policy = pc.error_policy;
          max_retries = as_nat pc.max_retries;
          ttl_func = pc.ttl_func;
          validation_action = pc.validation_action;
          state = pipeline_initializing;
          expected_rows = pos 0;
        }
        ∷ resolve pcs
  ]

module _ {T P : Type 0} (target_type_name : T → String) where
  -- the loop of `validateConfig` over the sources
  unfoldable pub validate_sources : Assoc String (Option (Compare P)) → List ConfigError
  validate_sources [] = []
  validate_sources ((id, source) ∷ rest) =
      unless (not (id == "")) empty_source_id
      ++ ((elim source [ none ↦ nil_source id ∷ [] | some compare ↦ [] ]) ++ validate_sources rest)

  -- the checks of one pipeline, but for its ID
  unfoldable pub validate_pipeline :
      Assoc String (Option (Compare P)) → ℕ → PipelineConfig T → List ConfigError
  unfolding is_positive is_negative
  validate_pipeline sources i pc =
      (if pc.source_id == ""
        then no_source_id i ∷ []
        else (elim (get sources pc.source_id) [ none ↦ unknown_source i ∷ [] | some s ↦ [] ]))
      ++ (unless (not (pc.table.table == "")) (no_table i)
          ++ ((elim pc.target [ none ↦ nil_target i ∷ [] | some t ↦ [] ])
              ++ (unless (is_positive pc.buffer_size) (bad_buffer_size i)
                  ++ unless (not (is_negative pc.max_retries)) (bad_retries i))))

  -- the loop over the pipelines, with the IDs seen so far
  unfoldable pub validate_pipelines :
      Assoc String (Option (Compare P))
      → ℕ
      → List String
      → List (PipelineConfig T)
      → List ConfigError
  unfolding validate_pipeline has_id generate_pipeline_id
  validate_pipelines sources i seen [] = []
  validate_pipelines sources i seen (pc ∷ pcs) = elim pc.target [
    | none ↦ validate_pipeline sources i pc ++ validate_pipelines sources (i + 1) seen pcs
    | some t ↦
        let id = generate_pipeline_id target_type_name pc.source_id pc.table t in
        validate_pipeline sources i pc
        ++ (unless (not (has_id seen id)) (duplicate_id i id)
            ++ validate_pipelines sources (i + 1) (id ∷ seen) pcs)
  ]

  -- `validateConfig`
  unfoldable pub validate_config : EngineConfig T P → List ConfigError
  unfolding validate_sources validate_pipelines is_negative
  validate_config c =
      (elim c.sources [ [] ↦ no_source ∷ [] | s ∷ ss ↦ [] ])
      ++ (validate_sources c.sources
          ++ ((elim c.pipelines [ [] ↦ no_pipeline ∷ [] | p ∷ ps ↦ [] ])
              ++ (validate_pipelines c.sources 0 [] c.pipelines
                  ++ (unless (not (is_negative c.snapshot_schedule)) negative_schedule
                      ++ unless (not c.snapshot_store || c.snapshot_serializer) no_serializer))))

  -- the registration of each pipeline whose source is not nil
  unfoldable pub register_each :
      Assoc String (Option (Compare P)) → AckTracker P → List (Pipeline T) → AckTracker P
  register_each sources a [] = a
  register_each sources a (p ∷ ps) = elim (get sources p.source_id) [
    | some (some compare) ↦ register_each sources (register_pipeline a p.id p.source_id compare) ps
    | _ ↦ register_each sources a ps
  ]

  -- the engine of a configuration
  unfoldable pub build : EngineConfig T P → CoreEngine T P
  unfolding resolve register_each
  build c = record {
    sources = map (λ s. s.0) c.sources;
    pipelines = resolve target_type_name c.pipelines;
    readiness = new_readiness_tracker (map (λ p. p.id) (resolve target_type_name c.pipelines));
    ack_tracker =
        register_each c.sources (new_ack_tracker P) (resolve target_type_name c.pipelines);
    dead_letter_store = c.dead_letter_store;
    acked = [];
    started = false;
    stopped = false;
    cancelled = false;
  }

  -- `NewEngine`
  unfoldable pub new_engine : List (EngineOption T P) → Option (CoreEngine T P) × List ConfigError
  unfolding validate_config build apply_options
  new_engine options =
      let c = apply_options options empty_config in
      elim (validate_config c) [ [] ↦ (some (build c), []) | e ∷ es ↦ (none, e ∷ es) ]
