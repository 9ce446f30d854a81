-- ===== src/HttpSync.antt =====
-- target/httpsync/httpsync.go: the target that forwards rows and changes as batched requests. What
-- comes back from package net/http is an argument of each call: for each attempt of a post, its
-- answer. `posted` keeps the requests that were answered with a status of success, in order; the
-- code has no such field. The waits between attempts change nothing and are left out.
pub mod Batches
pub mod Lost
mod Tests
use laredo.Common.{
  ℕ, zero, suc, String, Bool, true, false, not, ◌&&◌, Option, none, some, List, [], ◌∷◌, ◌++◌,
  if◌then◌else◌, leb, ltb, length,
}
use laredo.Types.{Row, ColumnDefinition}

-- `changeEntry`
pub record ChangeEntry : Type 0 where
  pub action : String
  pub row : Option Row
  pub identity : Option Row

-- The requests, by their paths.
pub data Request : Type 0 where
  baseline_start : List ColumnDefinition → Request
  baseline_batch : List Row → Request
  baseline_complete : Request
  changes : List ChangeEntry → Request

-- One attempt: answered with a status from 200 to 299, failed, or one that ends the loop with an
-- error, since the context is done during the wait or the request cannot be made.
pub data Attempt : Type 0 where
  accepted refused ends : Attempt

-- What a post meets: whether the payload can be marshalled, and each attempt, by those left after it.
pub record Answers : Type 0 where
  pub marshalled : Bool
  pub attempt : ℕ → Attempt

-- `Target`, with the fields of `config` that its handlers read. A batch size of zero or less is 0;
-- `attempts` is `retryCount + 1`, or 0 where that is negative.
pub record HttpTarget : Type 0 where
  pub batch_size : ℕ
  pub attempts : ℕ
  pub baseline_buf : List Row
  pub change_buf : List ChangeEntry
  pub durable : Bool
  pub last_flush_failed : Bool
  pub posted : List Request

-- `New`
unfoldable pub new : ℕ → ℕ → HttpTarget
new batch_size attempts = record {
  batch_size = batch_size;
  attempts = attempts;
  baseline_buf = [];
  change_buf = [];
  durable = false;
  last_flush_failed = false;
  posted = [];
}

-- the loop of `postJSONWithRetry`
unfoldable pub try_post : ℕ → (ℕ → Attempt) → Bool
try_post zero attempt = false
try_post (suc left) attempt =
    let rest = try_post left attempt in
    elim (attempt left) [ accepted ↦ true | refused ↦ rest | ends ↦ false ]

-- `postJSONWithRetry`: without any attempt there is no error
unfoldable pub post_with_retry : ℕ → Answers → Bool
unfolding try_post
post_with_retry attempts answers =
    answers.marshalled && (if ltb 0 attempts then try_post attempts answers.attempt else true)

-- `postJSON`
unfoldable pub post : HttpTarget → Request → Answers → HttpTarget × Bool
unfolding post_with_retry
post t request answers =
    let ok = post_with_retry t.attempts answers in
    (
      record t { posted = if ok && ltb 0 t.attempts then t.posted ++ (request ∷ []) else t.posted },
      ok,
    )

-- `flushBaselineBatch` and `flushChangeBatch`
unfoldable pub flush_batch : HttpTarget → Request → Answers → HttpTarget × Bool
unfolding post
flush_batch t request answers =
    let (sent, ok) = post t request answers in
    (record sent { durable = ok; last_flush_failed = not ok }, ok)

-- `OnInit`
unfoldable pub on_init : HttpTarget → List ColumnDefinition → Answers → HttpTarget × Bool
unfolding post
on_init t columns answers = post t (baseline_start columns) answers

-- `OnBaselineRow`
unfoldable pub on_baseline_row : HttpTarget → Row → Answers → HttpTarget × Bool
unfolding flush_batch
on_baseline_row t row answers =
    let buf = t.baseline_buf ++ (row ∷ []) in
    if leb t.batch_size (length buf)
    then flush_batch (record t { baseline_buf = [] }) (baseline_batch buf) answers
    else (record t { baseline_buf = buf }, true)

-- `OnBaselineComplete`; the second answers are those of the signal of completion
unfoldable pub on_baseline_complete : HttpTarget → Answers → Answers → HttpTarget × Bool
unfolding flush_batch post
on_baseline_complete t answers completion =
    let emptied : HttpTarget = record t { baseline_buf = [] } in
    elim t.baseline_buf [
      | [] ↦ post emptied baseline_complete completion
      | row ∷ rows ↦
          let (flushed, ok) = flush_batch emptied (baseline_batch (row ∷ rows)) answers in
          if ok then post flushed baseline_complete completion else (flushed, false)
    ]

-- `bufferChange`
unfoldable pub buffer_change : HttpTarget → ChangeEntry → Answers → HttpTarget × Bool
unfolding flush_batch
buffer_change t entry answers =
    let buf = t.change_buf ++ (entry ∷ []) in
    if leb t.batch_size (length buf)
    then flush_batch (record t { change_buf = []; durable = false }) (changes buf) answers
    else (record t { change_buf = buf; durable = false }, true)

-- `flushChanges`
unfoldable pub flush_changes : HttpTarget → Answers → HttpTarget × Bool
unfolding flush_batch
flush_changes t answers = elim t.change_buf [
  | [] ↦ (record t { change_buf = [] }, true)
  | e ∷ es ↦ flush_batch (record t { change_buf = [] }) (changes (e ∷ es)) answers
]

-- the entries that the handlers of changes make
abbrev pub insert_entry : Row → ChangeEntry
insert_entry row = record { action = "INSERT"; row = some row; identity = none }

abbrev pub update_entry : Row → Option Row → ChangeEntry
update_entry row identity = record { action = "UPDATE"; row = some row; identity = identity }

abbrev pub delete_entry : Option Row → ChangeEntry
delete_entry identity = record { action = "DELETE"; row = none; identity = identity }

abbrev pub truncate_entry : ChangeEntry
truncate_entry = record { action = "TRUNCATE"; row = none; identity = none }

-- `OnInsert`
unfoldable pub on_insert : HttpTarget → Row → Answers → HttpTarget × Bool
unfolding buffer_change
on_insert t row answers = buffer_change t (insert_entry row) answers

-- `OnUpdate`
unfoldable pub on_update : HttpTarget → Row → Option Row → Answers → HttpTarget × Bool
unfolding buffer_change
on_update t row identity answers = buffer_change t (update_entry row identity) answers

-- `OnDelete`
unfoldable pub on_delete : HttpTarget → Option Row → Answers → HttpTarget × Bool
unfolding buffer_change
on_delete t identity answers = buffer_change t (delete_entry identity) answers

-- `OnTruncate`: what is buffered, and then the truncation by itself
unfoldable pub on_truncate : HttpTarget → Answers → Answers → HttpTarget × Bool
unfolding flush_changes post
on_truncate t answers truncation =
    let (flushed, ok) = flush_changes t answers in
    if ok then post flushed (changes (truncate_entry ∷ [])) truncation else (flushed, false)

-- `OnClose`
unfoldable pub on_close : HttpTarget → Answers → HttpTarget
unfolding flush_changes
on_close t answers = (flush_changes t answers).0
