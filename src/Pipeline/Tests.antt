-- ===== src/Pipeline/Tests.antt =====
-- The theorem on retries at a target that fails twice, and runs.
use laredo.Common.{
  ℕ, zero, suc, Bool, true, false, ◌≡◌, refl, none, some, [], ◌∷◌, pos, comparable_string,
}
use laredo.Types.{Row, text, insert, update}
use laredo.DeadLetter.{ChangeEvent}
use laredo.Pipeline.{
  Pipeline, SyncTarget, pipeline_streaming, buffer_block, error_isolate, validation_warn,
  apply_change_to_target, retry_change,
}
use laredo.Pipeline.Retry.{no_attempt, attempt_fails, retry_change-succeeds}

-- the target: how many insertions will still fail
abbrev try_insert : ℕ → ℕ × Bool
try_insert zero = (zero, true)
try_insert (suc n) = (n, false)

abbrev flaky : SyncTarget ℕ ℕ
flaky = record {
  on_init = λ t columns. (t, true);
  on_baseline_row = λ t row. (t, true);
  on_baseline_complete = λ t. (t, true);
  on_insert = λ t row. try_insert t;
  on_update = λ t row old. (t, true);
  on_delete = λ t old. (t, true);
  on_truncate = λ t. (t, true);
  is_durable = λ t. true;
  export_snapshot = λ t. none;
  restore_snapshot = λ t entries. (t, true);
  on_close = λ t. t;
  set_change_position = λ t position. t;
  count = λ t. none;
}

abbrev pipe : ℕ → Pipeline ℕ
pipe failures = record {
  id = "p";
  source_id = "s";
  table = "t";
  target = failures;
  filters = [];
  transforms = [];
  buffer_size = 4;
  buffer_policy = buffer_block;
  error_policy = error_isolate;
  max_retries = 5;
  ttl_func = none;
  validation_action = validation_warn;
  state = pipeline_streaming;
  expected_rows = pos 0;
}

abbrev row : Row
row = ("id", text "1") ∷ []

abbrev inserted : ChangeEvent ℕ
inserted = record {
  table = "t";
  action = insert;
  position = some 7;
  xid = 0;
  new_values = some row;
  old_values = none;
}

-- The first two of five retries fail, and the third one counts.
retry_change-succeeds_example :
    retry_change flaky 5 (λ left. some left) (pipe 2) inserted
    ≡ ((apply_change_to_target flaky 2 (pipe 0) inserted).0, true)
unfolding apply_change_to_target
retry_change-succeeds_example =
    retry_change-succeeds flaky (λ left. some left) inserted 5 2 2 (pipe 2) (pipe 0)
      (attempt_fails 4 refl refl (attempt_fails 3 refl refl no_attempt)) refl refl

-- An update whose new row a filter leaves out leaves the target alone, whatever it held.
filtered_update :
    (apply_change_to_target flaky 0
      (record (pipe 0) { filters = (λ r. false) ∷ [] })
      (record inserted { action = update; old_values = some row })).0.expected_rows
    ≡ pos 0
unfolding apply_change_to_target
filtered_update = refl
