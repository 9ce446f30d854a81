-- ===== src/Memory/AsTarget.antt =====
-- target/memory/memory.go: the compiled target as the engine sees it. No handler but `OnInit` returns
-- an error, what the listeners are told is dropped, and a nil identity reads as an empty row.
use laredo.Common.{String, ℕ, true, some}
use laredo.Types.{present}
use laredo.Pipeline.{SyncTarget}
use laredo.Memory.{
  CompiledTarget, on_init, insert_row, on_update, on_delete, on_truncate, export_snapshot,
  restore_snapshot, count,
}

module _ (print_other : ℕ → String) (separator : String) where
  abbrev pub compiled_target : {C P : Type 0} → SyncTarget (CompiledTarget C) P
  compiled_target = record {
    on_init = on_init print_other separator;
    on_baseline_row = λ t row. ((insert_row print_other separator t row).0, true);
    on_baseline_complete = λ t. (t, true);
    on_insert = λ t row. ((insert_row print_other separator t row).0, true);
    on_update = λ t row old. ((on_update print_other separator t row (present old)).0, true);
    on_delete = λ t old. ((on_delete print_other separator t (present old)).0, true);
    on_truncate = λ t. ((on_truncate print_other separator t).0, true);
    is_durable = λ t. true;
    export_snapshot = λ t. some (export_snapshot print_other separator t);
    restore_snapshot = λ t entries. (restore_snapshot print_other separator t entries, true);
    on_close = λ t. t;
    set_change_position = λ t position. t;
    count = λ t. some (count print_other separator t);
  }
