-- ===== src/DeadLetter/Tests.antt =====
-- The theorem on the dead letter store at a concrete history.
use laredo.Common.{ℕ, suc, ◌≡◌, refl, true, none, some, List, [], ◌∷◌, length}
use laredo.Types.{text, insert}
use laredo.DeadLetter.{ChangeEvent, Handlers, new_memory_store, read, count, replay}
use laredo.DeadLetter.History.{Call, writes, purges, run, since_purge, Replayed, read-history}

abbrev failed : ℕ → ChangeEvent ℕ
failed xid = record {
  table = "users";
  action = insert;
  position = some xid;
  xid = xid;
  new_values = some (("id", text "1") ∷ []);
  old_values = none;
}

-- a target that counts the calls
abbrev counting : Handlers ℕ
counting = record {
  on_insert = λ n t new. (suc n, true);
  on_update = λ n t new old. (suc n, true);
  on_delete = λ n t old. (suc n, true);
  on_truncate = λ n t. (suc n, true);
}

abbrev calls : List (Call ℕ)
calls =
    writes "p" (failed 1) "timeout"
    ∷ purges "p"
    ∷ writes "p" (failed 2) "timeout"
    ∷ writes "q" (failed 3) "timeout"
    ∷ []

kept_go :
    since_purge "p" [] calls
    ≡ record { pipeline_id = "p"; change = failed 2; error = "timeout" } ∷ []
unfolding since_purge
kept_go = refl

read-history_example :
    let s = run new_memory_store calls in
    let kept = since_purge "p" [] calls in
    (read s "p" 0 ≡ kept)
    × (count s "p" ≡ length kept)
    × Replayed counting 7 kept (replay counting s "p" 7)
read-history_example = read-history counting 7 "p" calls
