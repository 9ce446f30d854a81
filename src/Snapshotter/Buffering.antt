-- ===== src/Snapshotter/Buffering.antt =====
-- Which buffered changes survive a failed flush.
use laredo.Common.{
  ℕ, String, false, ◌≡◌, refl, inl, inr, Option, none, some, List, [], ◌∷◌, arith, Assoc, get, put,
  get-put, comparable_string, Bool-cases, Option-cases,
}
use laredo.Types.{Value, Printing}
use laredo.Snapshotter.{Change, Fractions}
use laredo.Snapshotter.Writer.{
  Writer, World, RowChange, remerge_into, remerge, write_diff, flush, flush_drained, trigger,
  on_changes, commit,
}

-- The newer change where there is one, and else the older.
abbrev pub newer_or : Option Change → Option Change → Option Change
newer_or none older = older
newer_or (some c) older = some c

get-remerge_into :
    (buffer drained : Assoc String Change) (k : String)
    → get (remerge_into buffer drained) k ≡ newer_or (get buffer k) (get drained k)
unfolding remerge_into
get-remerge_into buffer [] k = ground arith
get-remerge_into buffer ((j, c) ∷ drained) k = elim (Option-cases (get buffer j)) [
  | inl n ↦
      rw (n, get-remerge_into (put buffer j c) drained k, get-put buffer j k c)
        (ground (arith, comparable_string.same_iff j k, n))
  | inr (d, e) ↦
      rw (e, get-remerge_into buffer drained k) (ground (arith, comparable_string.same_iff j k, e))
]

module _ (p : Printing) (sprint_values : List Value → String) {f : Fractions} where
  -- What has arrived since the buffer was drained.
  abbrev pub arrived : Writer f → List RowChange → Writer f
  arrived w raced = on_changes p sprint_values (record w { buffer = [] }) raced

  get-write_diff :
      (w drained : Writer f) (world : World) (k : String)
      → (write_diff p sprint_values w drained world).1 ≡ false
      → get (write_diff p sprint_values w drained world).0.buffer k
        ≡ newer_or (get drained.buffer k) (get w.buffer k)
  unfolding write_diff commit remerge
  get-write_diff w drained world k h = elim (Option-cases world.diff_uploads) [
    | inl n ↦ rw n (get-remerge_into drained.buffer w.buffer k)
    | inr (formats, e) ↦ elim (Bool-cases world.committed) [
      | inl y ↦ ground (arith, rw (e, y) at h)
      | inr n ↦ rw (e, n) (get-remerge_into drained.buffer w.buffer k)
    ]
  ]

  flush-drains :
      (w : Writer f) (world : World) (c : String × Change) (cs : Assoc String Change)
      → w.buffer ≡ c ∷ cs
      → flush p sprint_values w world
        ≡ flush_drained p sprint_values w (arrived w world.raced) world
  unfolding flush
  flush-drains w world c cs e = simp (flush, e)

  flush-failed :
      (w : Writer f) (world : World) (b : Assoc String Change)
      → w.buffer ≡ b
      → (flush p sprint_values w world).1 ≡ false
      → flush p sprint_values w world
        ≡ flush_drained p sprint_values w (arrived w world.raced) world
  unfolding flush
  flush-failed w world [] e h = ground (arith, rw (flush, e) at h)
  flush-failed w world (c ∷ cs) e h = flush-drains w world c cs e

  get-flush_drained :
      (w drained : Writer f) (world : World) (k : String)
      → ((size : ℕ) → world.diff_size ≡ some size → trigger p sprint_values w world size ≡ false)
      → (flush_drained p sprint_values w drained world).1 ≡ false
      → get (flush_drained p sprint_values w drained world).0.buffer k
        ≡ newer_or (get drained.buffer k) (get w.buffer k)
  unfolding flush_drained remerge
  get-flush_drained w drained world k no_rebase h = elim (Option-cases world.diff_size) [
    | inl n ↦ rw n (get-remerge_into drained.buffer w.buffer k)
    | inr (size, e) ↦
        rw (e, no_rebase size e)
          (get-write_diff w drained world k (rw (flush_drained, e, no_rebase size e) at h))
  ]

  -- When a flush that does not rebase reports an error, no buffered change is lost: each key has the
  -- change that arrived for it meanwhile, and else the one that it had before the flush.
  pub flush-failed-diff :
      (w : Writer f) (world : World) (k : String)
      → ((size : ℕ) → world.diff_size ≡ some size → trigger p sprint_values w world size ≡ false)
      → (flush p sprint_values w world).1 ≡ false
      → get (flush p sprint_values w world).0.buffer k
        ≡ newer_or (get (arrived w world.raced).buffer k) (get w.buffer k)
  flush-failed-diff w world k no_rebase h =
      let drained = flush-failed w world w.buffer refl h in
      rw drained (get-flush_drained w (arrived w world.raced) world k no_rebase (rw drained at h))
