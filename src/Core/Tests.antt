-- ===== src/Core/Tests.antt =====
-- The theorems on the engine at a concrete one, and runs.
use laredo.Common.{
  ℕ, String, true, false, ◌≡◌, refl, none, some, List, [], ◌∷◌, pos, get_elem?, comparable_string,
}
use laredo.Types.{Row, text, insert}
use laredo.DeadLetter.{ChangeEvent}
use laredo.Pipeline.{
  Pipeline, SyncTarget, pipeline_streaming, pipeline_error, buffer_block, error_isolate,
  validation_warn, apply_change_to_target,
}
use laredo.Memory.{CompiledTarget, insert_row}
use laredo.Memory.AsTarget.{compiled_target}
use laredo.Core.{CoreEngine}
use laredo.Core.Consumer.{Turn, attempt, consume, consume_all, change}
use laredo.Core.Lifecycle.{reload}
use laredo.Core.Down.Reach.{turns, reloads, here, next, Reach-down}
use laredo.Core.Applied.{apply_all, as_items, Runs, consume_all-apply_all}

abbrev names : SyncTarget (CompiledTarget Row) ℕ
names = compiled_target (λ n. "n") ","

abbrev pipe : Pipeline (CompiledTarget Row)
pipe = record {
  id = "p";
  source_id = "s";
  table = "t";
  target = record {
    compiler = λ row. some row;
    key_fields = "id" ∷ [];
    filter = none;
    columns = [];
    store = [];
  };
  filters = [];
  transforms = [];
  buffer_size = 4;
  buffer_policy = buffer_block;
  error_policy = error_isolate;
  max_retries = 1;
  ttl_func = none;
  validation_action = validation_warn;
  state = pipeline_streaming;
  expected_rows = pos 0;
}

abbrev engine : CoreEngine (CompiledTarget Row) ℕ
engine = record {
  sources = "s" ∷ [];
  pipelines = pipe ∷ [];
  readiness = record { ready = []; closed = true; callbacks = [] };
  ack_tracker = record {
    pipeline_source = ("p", "s") ∷ [];
    positions = ("p", some 3) ∷ [];
    last_acked = [];
    comparators = [];
    skipped = [];
  };
  dead_letter_store = none;
  acked = [];
  started = true;
  stopped = false;
  cancelled = false;
}

abbrev turn : Turn
turn = record { now = 1; timer = λ left. none; taken = true; message = "failed" }

abbrev inserted : String → ℕ → ChangeEvent ℕ
inserted id at = record {
  table = "t";
  action = insert;
  position = some at;
  xid = 0;
  new_values = some (("id", text id) ∷ []);
  old_values = none;
}

abbrev changes : List (Turn × ChangeEvent ℕ)
changes = (turn, inserted "1" 7) ∷ (turn, inserted "2" 8) ∷ []

consume_all-apply_all_example :
    Runs names engine
      (consume_all names engine 0 (0 ∷ []) "s" (as_items names changes))
      0
      pipe
      changes
consume_all-apply_all_example =
    consume_all-apply_all names (λ t. refl) engine 0 (0 ∷ []) "s" changes pipe refl refl refl

-- Both insertions are in the target.
applied_changes : (apply_all names pipe changes).1 ≡ some (some 8)
unfolding apply_all attempt apply_change_to_target insert_row
applied_changes = refl

abbrev broken : Pipeline (CompiledTarget Row)
broken = record pipe { state = pipeline_error }

-- Beside the pipeline that streams, one that has failed.
abbrev half_down : CoreEngine (CompiledTarget Row) ℕ
half_down = record engine { pipelines = pipe ∷ broken ∷ [] }

abbrev consumed : CoreEngine (CompiledTarget Row) ℕ
consumed = (consume names half_down turn 1 (0 ∷ 1 ∷ []) "s" (change (inserted "1" 7))).0

Reach-down_example :
    get_elem? (reload names consumed "s" "t" true [] (some 9) true).0.pipelines 1 ≡ some broken
unfolding consume
Reach-down_example = Reach-down names 1 broken {c = half_down} refl refl (
    next (next here (turns turn 1 (0 ∷ 1 ∷ []) "s" (change (inserted "1" 7))))
      (reloads "s" "t" true [] (some 9) true))
