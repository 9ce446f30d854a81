-- ===== src/HttpSync/Batches.antt =====
-- What the service was sent, after calls that reported no error.
use mathlib.Core.List.{append-nil, append_assoc}
use laredo.Common.{
  ℕ, Bool, true, false, ◌&&◌, ◌≡◌, refl, sym, ap, subst, ◌∙◌, Option, List, [], ◌∷◌, ◌++◌, arith,
  leb, ltb, length, ◌<◌, Bool-cases, inl, inr,
}
use laredo.Types.{Row}
use laredo.HttpSync.{
  ChangeEntry, Request, baseline_start, baseline_batch, baseline_complete, changes, Answers,
  HttpTarget, new, post_with_retry, post, flush_batch, buffer_change, flush_changes, insert_entry,
  update_entry, delete_entry, truncate_entry, on_insert, on_update, on_delete, on_truncate,
}

-- A call of a handler of changes, with the answers that it meets.
pub data Call : Type 0 where
  inserts : Row → Answers → Call
  updates : Row → Option Row → Answers → Call
  deletes : Option Row → Answers → Call
  truncates : Answers → Answers → Call

unfoldable pub step : HttpTarget → Call → HttpTarget × Bool
step t (inserts row answers) = on_insert t row answers
step t (updates row identity answers) = on_update t row identity answers
step t (deletes identity answers) = on_delete t identity answers
step t (truncates answers truncation) = on_truncate t answers truncation

-- the change that a call stands for
unfoldable pub entry_of : Call → ChangeEntry
entry_of (inserts row answers) = insert_entry row
entry_of (updates row identity answers) = update_entry row identity
entry_of (deletes identity answers) = delete_entry identity
entry_of (truncates answers truncation) = truncate_entry

unfoldable pub entries_of : List Call → List ChangeEntry
unfolding entry_of
entries_of [] = []
entries_of (c ∷ cs) = entry_of c ∷ entries_of cs

-- the calls one after the other, and whether none reported an error
unfoldable pub run : HttpTarget → List Call → HttpTarget × Bool
unfolding step
run t [] = (t, true)
run t (c ∷ cs) = let (t', ok) = step t c in let (t'', later) = run t' cs in (t'', ok && later)

-- The changes that the service accepted, in the order of the requests.
unfoldable pub delivered : List Request → List ChangeEntry
delivered [] = []
delivered (changes es ∷ rest) = es ++ delivered rest
delivered (baseline_start columns ∷ rest) = delivered rest
delivered (baseline_batch rows ∷ rest) = delivered rest
delivered (baseline_complete ∷ rest) = delivered rest

pub delivered-append : (rs qs : List Request) → delivered (rs ++ qs) ≡ delivered rs ++ delivered qs
unfolding delivered
delivered-append [] qs = refl
delivered-append (changes es ∷ rest) qs =
    ap (λ l. es ++ l) (delivered-append rest qs)
    ∙ sym (append_assoc es (delivered rest) (delivered qs))
delivered-append (baseline_start columns ∷ rest) qs = delivered-append rest qs
delivered-append (baseline_batch rows ∷ rest) qs = delivered-append rest qs
delivered-append (baseline_complete ∷ rest) qs = delivered-append rest qs

-- All of the changes so far, accepted or buffered; and a target that says that it is durable has
-- nothing in its buffer.
pub record Holds (so_far : List ChangeEntry) (t : HttpTarget) : Type 0 where
  pub tries : ltb 0 t.attempts ≡ true
  pub all : delivered t.posted ++ t.change_buf ≡ so_far
  pub flushed : t.durable ≡ true → t.change_buf ≡ []

-- a post leaves the buffer
buf-post :
    (t : HttpTarget) (r : Request) (answers : Answers)
    → (post t r answers).0.change_buf ≡ t.change_buf
unfolding post
buf-post t r answers = refl

buf-flush :
    (t : HttpTarget) (r : Request) (answers : Answers)
    → (flush_batch t r answers).0.change_buf ≡ t.change_buf
unfolding flush_batch
buf-flush t r answers = refl

post-changes :
    (t : HttpTarget) (es so_far : List ChangeEntry) (answers : Answers)
    → ltb 0 t.attempts ≡ true
    → t.change_buf ≡ []
    → delivered t.posted ≡ so_far
    → (post t (changes es) answers).1 ≡ true
    → Holds (so_far ++ es) (post t (changes es) answers).0
unfolding post delivered
post-changes t es so_far answers tries empty old ok =
    let sent : post_with_retry t.attempts answers ≡ true = ok in
    record {
      tries = tries;
      all =
          rw (sent, tries, empty, delivered-append, old)
            (append-nil _ ∙ ap (λ l. so_far ++ l) (append-nil es));
      flushed = λ d. empty;
    }

-- the same for a flush
flush-changes :
    (t : HttpTarget) (es so_far : List ChangeEntry) (answers : Answers)
    → ltb 0 t.attempts ≡ true
    → t.change_buf ≡ []
    → delivered t.posted ≡ so_far
    → (flush_batch t (changes es) answers).1 ≡ true
    → Holds (so_far ++ es) (flush_batch t (changes es) answers).0
unfolding flush_batch
flush-changes t es so_far answers tries empty old ok =
    let sent = post-changes t es so_far answers tries empty old ok in
    record {
      tries = sent.tries;
      all = sent.all;
      flushed = λ d. buf-post t (changes es) answers ∙ empty;
    }

buffer_change-Holds :
    (t : HttpTarget) (e : ChangeEntry) (so_far : List ChangeEntry) (answers : Answers)
    → Holds so_far t
    → (buffer_change t e answers).1 ≡ true
    → Holds (so_far ++ (e ∷ [])) (buffer_change t e answers).0
unfolding buffer_change
buffer_change-Holds t e so_far answers h ok =
    let buf : List ChangeEntry = t.change_buf ++ (e ∷ []) in
    let whole : delivered t.posted ++ buf ≡ so_far ++ (e ∷ []) =
      sym (append_assoc (delivered t.posted) t.change_buf (e ∷ []))
      ∙ ap (λ l. l ++ (e ∷ [])) h.all in
    elim (Bool-cases (leb t.batch_size (length buf))) [
      | inr n ↦
          rw (buffer_change, n)
            (record { tries = h.tries; all = whole; flushed = λ (d : false ≡ true). absurd (cc) })
      | inl y ↦
          rw (buffer_change, y)
            (subst
              (λ l.
                Holds l
                  (flush_batch (record t { change_buf = []; durable = false }) (changes buf)
                    answers).0)
              whole
              (flush-changes (record t { change_buf = []; durable = false }) buf
                (delivered t.posted) answers h.tries refl refl (rw (buffer_change, y) at ok)))
    ]

flush_changes-Holds :
    (t : HttpTarget) (so_far : List ChangeEntry) (answers : Answers)
    → Holds so_far t
    → (flush_changes t answers).1 ≡ true
    → Holds so_far (flush_changes t answers).0 × ((flush_changes t answers).0.change_buf ≡ [])
unfolding flush_changes
flush_changes-Holds t so_far answers h ok = go t.change_buf refl
  where
    go :
        (buf : List ChangeEntry)
        → t.change_buf ≡ buf
        → Holds so_far (flush_changes t answers).0 × ((flush_changes t answers).0.change_buf ≡ [])
    go [] e =
        rw (flush_changes, e)
          (record { tries = h.tries; all = rw (← e) h.all; flushed = λ d. refl }, refl)
    go (x ∷ xs) e =
        let emptied : HttpTarget = record t { change_buf = [] } in
        let done : (flush_batch emptied (changes (x ∷ xs)) answers).1 ≡ true =
          rw (flush_changes, e) at ok in
        rw (flush_changes, e)
          (
            subst (λ l. Holds l (flush_batch emptied (changes (x ∷ xs)) answers).0) (rw (← e) h.all)
                (flush-changes emptied (x ∷ xs) (delivered t.posted) answers h.tries refl refl
                  done),
            buf-flush emptied (changes (x ∷ xs)) answers,
          )

on_truncate-Holds :
    (t : HttpTarget) (so_far : List ChangeEntry) (answers truncation : Answers)
    → Holds so_far t
    → (on_truncate t answers truncation).1 ≡ true
    → Holds (so_far ++ (truncate_entry ∷ [])) (on_truncate t answers truncation).0
unfolding on_truncate
on_truncate-Holds t so_far answers truncation h ok = elim (Bool-cases (flush_changes t answers).1) [
  | inr n ↦ absurd (ground arith)
  | inl y ↦
      let (flushed, empty) = flush_changes-Holds t so_far answers h y in
      rw (on_truncate, y)
        (post-changes (flush_changes t answers).0 (truncate_entry ∷ []) so_far truncation
          flushed.tries empty
          (sym (append-nil _)
            ∙ ap (λ l. delivered (flush_changes t answers).0.posted ++ l) (sym empty)
            ∙ flushed.all)
          (rw (on_truncate, y) at ok))
]

step-Holds :
    (t : HttpTarget) (c : Call) (so_far : List ChangeEntry)
    → Holds so_far t
    → (step t c).1 ≡ true
    → Holds (so_far ++ (entry_of c ∷ [])) (step t c).0
unfolding step entry_of on_insert on_update on_delete
step-Holds t (inserts row answers) so_far h ok =
    buffer_change-Holds t (insert_entry row) so_far answers h ok
step-Holds t (updates row identity answers) so_far h ok =
    buffer_change-Holds t (update_entry row identity) so_far answers h ok
step-Holds t (deletes identity answers) so_far h ok =
    buffer_change-Holds t (delete_entry identity) so_far answers h ok
step-Holds t (truncates answers truncation) so_far h ok =
    on_truncate-Holds t so_far answers truncation h ok

run-Holds :
    (cs : List Call) (t : HttpTarget) (so_far : List ChangeEntry)
    → Holds so_far t
    → (run t cs).1 ≡ true
    → Holds (so_far ++ entries_of cs) (run t cs).0
unfolding run entries_of
run-Holds [] t so_far h ok = rw (append-nil so_far) h
run-Holds (c ∷ cs) t so_far h ok =
    let first : (step t c).1 ≡ true = ground arith in
    let rest : (run (step t c).0 cs).1 ≡ true = ground arith in
    subst (λ l. Holds l (run (step t c).0 cs).0)
      (append_assoc so_far (entry_of c ∷ []) (entries_of cs))
      (run-Holds cs (step t c).0 (so_far ++ (entry_of c ∷ [])) (step-Holds t c so_far h first) rest)

-- A new target that posts at least once, told any changes none of which it answered with an error:
-- the changes that the service accepted, followed by those that are buffered, are the changes told,
-- in their order. Where the target then says that it is durable, the service accepted all of them.
pub run-delivered :
    (batch_size attempts : ℕ) (cs : List Call)
    → 0 < attempts
    → (run (new batch_size attempts) cs).1 ≡ true
    → (delivered (run (new batch_size attempts) cs).0.posted
          ++ (run (new batch_size attempts) cs).0.change_buf
        ≡ entries_of cs)
      × ((run (new batch_size attempts) cs).0.durable ≡ true
          → delivered (run (new batch_size attempts) cs).0.posted ≡ entries_of cs)
unfolding new delivered
run-delivered batch_size attempts cs some_try ok =
    let start : Holds [] (new batch_size attempts) = record {
      tries = ground arith;
      all = refl;
      flushed = λ d. refl;
    } in
    let h = run-Holds cs (new batch_size attempts) [] start ok in
    (
      h.all,
      λ d.
          sym (append-nil _)
          ∙ ap (λ l. delivered (run (new batch_size attempts) cs).0.posted ++ l) (sym (h.flushed d))
          ∙ h.all,
    )
