-- ===== src/HttpSync/Lost.antt =====
-- A batch that the service refuses, and the retry of the change that filled it.
use laredo.Common.{true, false, ◌≡◌, [], ◌∷◌, ◌++◌, arith, ◌<◌}
use laredo.HttpSync.{
  ChangeEntry, changes, Answers, HttpTarget, post, flush_batch, buffer_change, flush_changes,
}
use laredo.HttpSync.Batches.{delivered, delivered-append}

-- a full batch that fails is dropped
buffer_change-failed :
    (t : HttpTarget) (e : ChangeEntry) (answers : Answers)
    → (buffer_change t e answers).1 ≡ false
    → ((buffer_change t e answers).0.change_buf ≡ [])
      × ((buffer_change t e answers).0.posted ≡ t.posted)
      × ((buffer_change t e answers).0.batch_size ≡ t.batch_size)
      × ((buffer_change t e answers).0.attempts ≡ t.attempts)
unfolding buffer_change flush_batch post
buffer_change-failed t e answers failed = ground arith

-- a change that does not fill the batch is buffered
buffer_change-first :
    (t : HttpTarget) (e : ChangeEntry) (answers : Answers)
    → t.change_buf ≡ []
    → 1 < t.batch_size
    → ((buffer_change t e answers).1 ≡ true)
      × ((buffer_change t e answers).0.change_buf ≡ e ∷ [])
      × ((buffer_change t e answers).0.posted ≡ t.posted)
      × ((buffer_change t e answers).0.attempts ≡ t.attempts)
unfolding buffer_change flush_batch post
buffer_change-first t e answers empty more = rw empty (ground arith)

flush_changes-accepted :
    (t : HttpTarget) (e : ChangeEntry) (answers : Answers)
    → t.change_buf ≡ e ∷ []
    → 0 < t.attempts
    → (flush_changes t answers).1 ≡ true
    → ((flush_changes t answers).0.durable ≡ true)
      × ((flush_changes t answers).0.posted ≡ t.posted ++ (changes (e ∷ []) ∷ []))
unfolding flush_changes flush_batch post
flush_changes-accepted t e answers held tries ok = ground arith

-- A target that batches more than one change loses changes that it has taken: where a change fills
-- the batch and the post fails, the change is answered with an error; a retry of it is then answered
-- without one; and once the next flush succeeds the target says that it is durable, while the service
-- has accepted this one change since, and none of those that the batch held before it.
pub retried-loses :
    (t : HttpTarget) (e : ChangeEntry) (first second third : Answers)
    → 1 < t.batch_size
    → 0 < t.attempts
    → (buffer_change t e first).1 ≡ false
    → (flush_changes (buffer_change (buffer_change t e first).0 e second).0 third).1 ≡ true
    → ((buffer_change (buffer_change t e first).0 e second).1 ≡ true)
      × ((flush_changes (buffer_change (buffer_change t e first).0 e second).0 third).0.durable
          ≡ true)
      × (delivered
            (flush_changes (buffer_change (buffer_change t e first).0 e second).0 third).0.posted
          ≡ delivered t.posted ++ (e ∷ []))
unfolding delivered
retried-loses t e first second third more tries failed flushed =
    let (empty, kept, size, attempts) = buffer_change-failed t e first failed in
    let (ok, held, kept', attempts') =
      buffer_change-first (buffer_change t e first).0 e second empty (rw size more) in
    let (durable, posted) =
      flush_changes-accepted (buffer_change (buffer_change t e first).0 e second).0 e third held
        (rw (attempts', attempts) tries) flushed in
    (ok, durable, rw (posted, kept', kept) (delivered-append t.posted (changes (e ∷ []) ∷ [])))
