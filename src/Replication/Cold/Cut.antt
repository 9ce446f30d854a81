-- ===== src/Replication/Cold/Cut.antt =====
-- A client that loses its stream inside a replay of the archive.
use mathlib.Core.List.{append-nil, append_assoc}
use laredo.Common.{
  ℕ, String, Bool, true, ◌≡◌, refl, ap, sym, ◌∙◌, Option, none, some, List, [], ◌∷◌, ◌++◌,
  if◌then◌else◌, ◌==◌, comparable_string, Bool-cases, inl, inr,
}
use laredo.Types.{Row, Printing}
use laredo.Client.{
  Client, WireEntry, Message, journal_entry, apply_insert, apply_update, apply_delete,
  apply_truncate, apply_action, apply_journal_entry, apply_message, sync_request,
}
use laredo.Replication.Stream.{receive_all, receive_all-++}
use laredo.Snapshotter.{Change}
use laredo.Replication.Filter.{Scalars, CompiledPredicate}
use laredo.Replication.Cold.{
  ColdDiff, ColdReplay, change_matches_filter, archive_entry, base_messages, diff_messages,
  all_diff_messages, stream_cold_replay,
}

-- A replay that ends with these changes of one diff.
abbrev pub ending : ColdReplay → String → List Change → ColdReplay
ending cr position changes = record cr {
  diffs = cr.diffs ++ (record { position = position; changes = changes } ∷ []);
}

module _ (f : Printing) (separator : String) where
  -- What a client tells the server of itself is the same.
  abbrev SameRequest : Client → Client → Type 0
  SameRequest c d =
      (c.last_seq ≡ d.last_seq)
      × (c.last_snapshot_id ≡ d.last_snapshot_id)
      × (c.last_source_position ≡ d.last_source_position)

  insert-keeps : (c : Client) (row : Option Row) → SameRequest (apply_insert f separator c row) c
  unfolding apply_insert
  insert-keeps c none = (refl, refl, refl)
  insert-keeps c (some row) = (refl, refl, refl)

  update-keeps : (c : Client) (row : Option Row) → SameRequest (apply_update f separator c row) c
  unfolding apply_update
  update-keeps c none = (refl, refl, refl)
  update-keeps c (some row) = (refl, refl, refl)

  delete-keeps : (c : Client) (row : Option Row) → SameRequest (apply_delete f separator c row) c
  unfolding apply_delete
  delete-keeps c none = (refl, refl, refl)
  delete-keeps c (some row) = (refl, refl, refl)

  action-keeps : (c : Client) (e : WireEntry) → SameRequest (apply_action f separator c e) c
  unfolding apply_action apply_truncate
  action-keeps c e = elim (Bool-cases (e.action == "INSERT")) [
    | inl t ↦ rw t (insert-keeps c e.new_values)
    | inr t ↦ elim (Bool-cases (e.action == "UPDATE")) [
      | inl u ↦ rw (t, u) (update-keeps c e.new_values)
      | inr u ↦ elim (Bool-cases (e.action == "DELETE")) [
        | inl v ↦ rw (t, u, v) (delete-keeps c e.old_values)
        | inr v ↦ elim (Bool-cases (e.action == "TRUNCATE")) [
          | inl w ↦ rw (t, u, v, w) (refl, refl, refl)
          | inr w ↦ rw (t, u, v, w) (refl, refl, refl)
        ]
      ]
    ]
  ]

  -- The client has passed an entry of this number and this position.
  abbrev Passed : Client → ℕ → String → Type 0
  Passed c seq position =
      (c.last_seq ≡ seq)
      × ((if position == "" then c.last_source_position else position) ≡ c.last_source_position)

  request-same :
      (c d : Client) (by_position : Bool)
      → SameRequest d c
      → sync_request c by_position ≡ sync_request d by_position
  unfolding sync_request
  request-same c d by_position same = rw (same.0, same.1, same.2) refl

  module _ (g : Scalars) (over_wire : Row → Option Row)
      (filter : Option (List CompiledPredicate)) where
    entry-Passed :
        (c : Client) (ch : Change) (position : String) (seq : ℕ)
        → Passed
            (apply_journal_entry f separator c (archive_entry g over_wire ch position seq))
            seq
            position
    unfolding apply_journal_entry archive_entry
    entry-Passed c ch position seq =
        (refl, elim (Bool-cases (position == "")) [ inl e ↦ rw e refl | inr e ↦ rw e refl ])

    entry-again :
        (c : Client) (ch : Change) (position : String) (seq : ℕ)
        → Passed c seq position
        → SameRequest
            (apply_journal_entry f separator c (archive_entry g over_wire ch position seq))
            c
    unfolding apply_journal_entry archive_entry
    entry-again c ch position seq passed =
        (sym passed.0, (action-keeps c (archive_entry g over_wire ch position seq)).1, passed.1)

    rest-again :
        (c : Client) (position : String) (seq : ℕ) (rest : List Change)
        → Passed c seq position
        → SameRequest
            (receive_all f separator c (diff_messages g over_wire filter seq position rest))
            c
    unfolding receive_all apply_message diff_messages
    rest-again c position seq [] passed = (refl, refl, refl)
    rest-again c position seq (ch ∷ rest) passed =
        let c' = apply_journal_entry f separator c (archive_entry g over_wire ch position seq) in
        let before = rest-again c position seq rest passed in
        let after = rest-again c' position seq rest (entry-Passed c ch position seq) in
        let again = entry-again c ch position seq passed in
        elim (Bool-cases (change_matches_filter g over_wire filter ch)) [
          | inl e ↦ rw e (after.0 ∙ again.0, after.1 ∙ again.1, after.2 ∙ again.2)
          | inr e ↦ rw e before
        ]

    diff-app :
        (seq : ℕ) (position : String) (xs ys : List Change)
        → diff_messages g over_wire filter seq position (xs ++ ys)
          ≡ diff_messages g over_wire filter seq position xs
            ++ diff_messages g over_wire filter seq position ys
    unfolding diff_messages
    diff-app seq position [] ys = refl
    diff-app seq position (x ∷ xs) ys =
        let ih = diff-app seq position xs ys in
        elim (Bool-cases (change_matches_filter g over_wire filter x)) [
          | inl e ↦ rw (e, ih) refl
          | inr e ↦ rw e ih
        ]

    all-app :
        (seq : ℕ) (ds : List ColdDiff) (d : ColdDiff)
        → all_diff_messages g over_wire filter seq (ds ++ (d ∷ []))
          ≡ all_diff_messages g over_wire filter seq ds
            ++ diff_messages g over_wire filter seq d.position d.changes
    unfolding all_diff_messages
    all-app seq [] d = append-nil (diff_messages g over_wire filter seq d.position d.changes)
    all-app seq (x ∷ ds) d = rw (all-app seq ds d) (
        sym (
          append_assoc (diff_messages g over_wire filter seq x.position x.changes)
            (all_diff_messages g over_wire filter seq ds)
            (diff_messages g over_wire filter seq d.position d.changes)))

    -- what is sent before the last diff
    abbrev begun : ColdReplay → List Message
    begun cr =
        base_messages g over_wire filter cr.resume_seq cr.snapshot
        ++ all_diff_messages g over_wire filter cr.resume_seq cr.diffs

    stream-ending :
        (cr : ColdReplay) (position : String) (changes : List Change)
        → stream_cold_replay g over_wire (ending cr position changes) filter
          ≡ begun cr ++ diff_messages g over_wire filter cr.resume_seq position changes
    unfolding stream_cold_replay
    stream-ending cr position changes =
        ap (λ ms. base_messages g over_wire filter cr.resume_seq cr.snapshot ++ ms)
          (all-app cr.resume_seq cr.diffs (record { position = position; changes = changes }))
        ∙ sym (
            append_assoc (base_messages g over_wire filter cr.resume_seq cr.snapshot)
              (all_diff_messages g over_wire filter cr.resume_seq cr.diffs)
              (diff_messages g over_wire filter cr.resume_seq position changes))

    stream-cut :
        (cr : ColdReplay) (position : String) (before : List Change) (ch : Change)
        (rest : List Change)
        → stream_cold_replay g over_wire (ending cr position (before ++ (ch ∷ rest))) filter
          ≡ stream_cold_replay g over_wire (ending cr position (before ++ (ch ∷ []))) filter
            ++ diff_messages g over_wire filter cr.resume_seq position rest
    stream-cut cr position before ch rest =
        rw
          (
            stream-ending cr position (before ++ (ch ∷ rest)),
            stream-ending cr position (before ++ (ch ∷ [])),
            ← append_assoc before (ch ∷ []) rest,
            diff-app cr.resume_seq position (before ++ (ch ∷ [])) rest,
          )
          (sym (
            append_assoc (begun cr)
              (diff_messages g over_wire filter cr.resume_seq position (before ++ (ch ∷ [])))
              (diff_messages g over_wire filter cr.resume_seq position rest)))

    cut-Passed :
        (c : Client) (cr : ColdReplay) (position : String) (before : List Change) (ch : Change)
        → change_matches_filter g over_wire filter ch ≡ true
        → Passed
            (receive_all f separator c
              (stream_cold_replay g over_wire (ending cr position (before ++ (ch ∷ []))) filter))
            cr.resume_seq
            position
    unfolding receive_all apply_message diff_messages
    cut-Passed c cr position before ch admitted =
        rw
          (
            stream-ending cr position (before ++ (ch ∷ [])),
            diff-app cr.resume_seq position before (ch ∷ []),
            receive_all-++ f separator c (begun cr),
          )
          (rw admitted (
            rw
              (receive_all-++ f separator (receive_all f separator c (begun cr))
                (diff_messages g over_wire filter cr.resume_seq position before)
                (journal_entry (archive_entry g over_wire ch position cr.resume_seq) ∷ []))
              (entry-Passed
                (receive_all f separator (receive_all f separator c (begun cr))
                  (diff_messages g over_wire filter cr.resume_seq position before))
                ch position cr.resume_seq)))

    -- A client whose stream ends inside the last diff of a cold replay, after any change of it that
    -- the filter admits, has been sent the replay up to there; and its next request is the very
    -- request it would make after the whole diff.
    pub cold_replay-cut :
        (c : Client) (cr : ColdReplay) (position : String) (before : List Change) (ch : Change)
        (rest : List Change) (by_position : Bool)
        → change_matches_filter g over_wire filter ch ≡ true
        → let cut = ending cr position (before ++ (ch ∷ [])) in
          let whole = ending cr position (before ++ (ch ∷ rest)) in
          (stream_cold_replay g over_wire whole filter
            ≡ stream_cold_replay g over_wire cut filter
              ++ diff_messages g over_wire filter cr.resume_seq position rest)
          × (sync_request
                (receive_all f separator c (stream_cold_replay g over_wire cut filter))
                by_position
              ≡ sync_request
                  (receive_all f separator c (stream_cold_replay g over_wire whole filter))
                  by_position)
    cold_replay-cut c cr position before ch rest by_position admitted =
        let cut =
          stream_cold_replay g over_wire (ending cr position (before ++ (ch ∷ []))) filter in
        let c' = receive_all f separator c cut in
        (
          stream-cut cr position before ch rest,
          rw (stream-cut cr position before ch rest, receive_all-++ f separator c cut)
              (request-same c'
                (receive_all f separator c'
                  (diff_messages g over_wire filter cr.resume_seq position rest))
                by_position
                (rest-again c' position cr.resume_seq rest
                  (cut-Passed c cr position before ch admitted))),
        )
