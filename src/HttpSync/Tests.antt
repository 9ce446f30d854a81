-- ===== src/HttpSync/Tests.antt =====
-- The theorems on the HTTP target at concrete runs.
use laredo.Common.{
  true, ◌≡◌, refl, ◌==◌, comparable_nat, if◌then◌else◌, none, some, List, [], ◌∷◌, ◌++◌, arith,
}
use laredo.Types.{Row, text}
use laredo.HttpSync.{
  accepted, refused, Answers, HttpTarget, new, buffer_change, flush_changes, insert_entry,
  delete_entry, on_insert, on_update, on_truncate,
}
use laredo.HttpSync.Batches.{
  Call, inserts, updates, truncates, step, run, entries_of, delivered, run-delivered,
}
use laredo.HttpSync.Lost.{retried-loses}

abbrev answered : Answers
answered = record { marshalled = true; attempt = λ left. accepted }

abbrev down : Answers
down = record { marshalled = true; attempt = λ left. refused }

-- The first of two attempts fails.
abbrev late : Answers
late = record { marshalled = true; attempt = λ left. if left == 0 then accepted else refused }

abbrev named : Row
named = ("id", text "1") ∷ []

abbrev calls : List Call
calls = inserts named answered ∷ updates named none late ∷ truncates answered answered ∷ []

run-delivered_example :
    (delivered (run (new 2 2) calls).0.posted ++ (run (new 2 2) calls).0.change_buf
      ≡ entries_of calls)
    × ((run (new 2 2) calls).0.durable ≡ true
        → delivered (run (new 2 2) calls).0.posted ≡ entries_of calls)
unfolding run step new on_insert on_update on_truncate
run-delivered_example = run-delivered 2 2 calls (omega arith) refl

-- A target that has taken one change into a batch of two.
abbrev taken : HttpTarget
taken = record (new 2 1) { change_buf = insert_entry named ∷ [] }

retried-loses_example :
    ((buffer_change
        (buffer_change taken (delete_entry (some named)) down).0
        (delete_entry (some named))
        answered).1
      ≡ true)
    × ((flush_changes
          (buffer_change
            (buffer_change taken (delete_entry (some named)) down).0
            (delete_entry (some named))
            answered).0
          answered).0.durable
        ≡ true)
    × (delivered
          (flush_changes
            (buffer_change
              (buffer_change taken (delete_entry (some named)) down).0
              (delete_entry (some named))
              answered).0
            answered).0.posted
        ≡ delivered taken.posted ++ (delete_entry (some named) ∷ []))
unfolding new buffer_change flush_changes
retried-loses_example =
    retried-loses taken (delete_entry (some named)) down answered answered (omega arith)
      (omega arith) refl refl
