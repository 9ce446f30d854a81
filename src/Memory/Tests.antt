-- ===== src/Memory/Tests.antt =====
-- The theorem on the compiled target at a concrete run.
use laredo.Common.{String, ◌≡◌, refl, true, none, some, List, [], ◌∷◌, comparable_string}
use laredo.Types.{Row, text}
use laredo.Memory.{
  CompiledTarget, admits, build_key, get_compiled, on_init, insert_row, on_update, export_snapshot,
  restore_snapshot,
}
use laredo.Memory.Restore.{restore_snapshot-export_snapshot}
use laredo.Memory.Sound.{inits, inserts, updates, run, step, Call, get_compiled-run}

-- A target that keeps the names of the rows, by their IDs.
abbrev names : CompiledTarget Row
names = record {
  compiler = λ row. some row;
  key_fields = "id" ∷ [];
  filter = none;
  columns = [];
  store = [];
}

abbrev named : String → Row
named name = ("id", text "1") ∷ ("name", text name) ∷ []

abbrev calls : List Call
calls =
    inits (record { name = "id"; primary_key = true; primary_key_ordinal = 1 } ∷ [])
    ∷ inserts (named "a")
    ∷ updates (named "b") (named "a")
    ∷ []

get_compiled-run_example :
    (row : Row) × (admits (λ n. "n") "," (run (λ n. "n") "," names calls) row ≡ true)
    × ((run (λ n. "n") "," names calls).compiler row ≡ some (named "b"))
    × (build_key (λ n. "n") "," row (run (λ n. "n") "," names calls).key_fields ≡ "1")
unfolding run step get_compiled on_init insert_row on_update
get_compiled-run_example = get_compiled-run (λ n. "n") "," names calls "1" (named "b") refl refl

-- What was exported goes into a target that holds another row.
restore_snapshot-export_snapshot_example :
    (restore_snapshot
      (λ n. "n")
      ","
      (record (run (λ n. "n") "," names calls) {
        columns = [];
        store = ("2", record { compiled = []; row = [] }) ∷ [];
      })
      (export_snapshot (λ n. "n") "," (run (λ n. "n") "," names calls))).store
    ≡ (run (λ n. "n") "," names calls).store
restore_snapshot-export_snapshot_example =
    restore_snapshot-export_snapshot (λ n. "n") "," names calls []
      (("2", record { compiled = []; row = [] }) ∷ []) refl

-- The run leaves one row.
exported_rows : export_snapshot (λ n. "n") "," (run (λ n. "n") "," names calls) ≡ named "b" ∷ []
unfolding run step on_init insert_row on_update export_snapshot
exported_rows = refl
