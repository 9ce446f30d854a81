-- ===== src/Replication/Convergence.antt =====
-- A client that applies the journal ends with the rows of the target.
use laredo.Common.{
  suc, ◌≤◌, ◌<◌, ◌≡◌, refl, sym, ap, ◌∙◌, String, Option, none, some, List, [], ◌∷◌, ◌++◌, arith,
  length, Assoc, get, put, delete, get-put, get-delete, ◌==◌, comparable_string, Bool-cases,
  Option-cases, inl, inr, subst,
}
use laredo.Types.{Row, Printing, ColumnDefinition, action_string}
use laredo.Fanout.Journal.{Clock, JournalEntry, entries_since, current_sequence, oldest_sequence}
use laredo.Fanout.Journal.Sequence.{IsValid}
use laredo.Fanout.Target.{
  Target, build_key, set_change_position, on_insert, on_update, on_delete, on_truncate,
  take_snapshot, pin_journal, unpin_journal,
}
use laredo.Client.{Client, wire_entry, send_row, row_key, apply_action, apply_journal_entry}
use laredo.Replication.Stream.{
  Event, positions, inserts, updates, deletes, truncates, snapshots, pins, unpins, step, run,
  emitted, history, receive,
}
use laredo.Replication.History.{entries_since-run}

-- The client's rows are the target's, each under the same key, as they look over the wire.
abbrev pub SameRows : (Row → Option Row) → Assoc String Row → Assoc String Row → Type 0
SameRows over_wire replica store = (k : String) → get replica k ≡ send_row over_wire (get store k)

module _ (over_wire : Row → Option Row) where
  same_put :
      (replica store : Assoc String Row) (k : String) (row sent : Row)
      → over_wire row ≡ some sent
      → SameRows over_wire replica store
      → SameRows over_wire (put replica k sent) (put store k row)
  same_put replica store k row sent e s j =
      rw (get-put replica k j sent, get-put store k j row)
        (elim (Bool-cases (k == j)) [ inl y ↦ rw (y, e) refl | inr n ↦ rw n (s j) ])

  same_delete :
      (replica store : Assoc String Row) (k : String)
      → SameRows over_wire replica store
      → SameRows over_wire (delete replica k) (delete store k)
  same_delete replica store k s j =
      rw (get-delete replica k j, get-delete store k j) (ground (arith, s j))

  -- Deleting a key that is not there is no change.
  same_delete_missing :
      (replica store : Assoc String Row) (k : String)
      → get store k ≡ none
      → SameRows over_wire replica store
      → SameRows over_wire replica (delete store k)
  same_delete_missing replica store k e s j =
      rw (get-delete store k j) (elim (Bool-cases (k == j)) [
        | inl y ↦
            let q : k ≡ j = (comparable_string.same_iff k j).0 y in
            let gone : get store j ≡ none = rw (← q) e in rw y (s j ∙ ap (send_row over_wire) gone)
        | inr n ↦ rw n (s j)
      ])

module _ {P : Type 0} (f : Printing) (separator : String) (over_wire : Row → Option Row)
    (position_string : P → String) where
  -- The row converts for the wire, and the target and the client compute the same key for it.
  abbrev pub SameKey : List ColumnDefinition → Row → Type 0
  SameKey cols row =
      (sent : Row) × (over_wire row ≡ some sent)
      × (row_key f separator sent ≡ build_key f separator cols row)

  -- Each row of the store stands under its key, which is the client's too.
  abbrev pub Keyed : Target P → Type 0
  Keyed t =
      (k : String) (row : Row)
      → get t.store k ≡ some row
      → (build_key f separator t.cols row ≡ k) × SameKey t.cols row

  abbrev pub KeyedEvent : List ColumnDefinition → Event P → Type 0
  KeyedEvent cols (inserts row) = SameKey cols row
  KeyedEvent cols (updates row identity) = SameKey cols row
  KeyedEvent cols _ = Unit {0}

  store-receive :
      (c : Client) (e : JournalEntry P)
      → (apply_journal_entry f separator c (wire_entry over_wire position_string e)).store
        ≡ (apply_action f separator c (wire_entry over_wire position_string e)).store
  unfolding apply_journal_entry
  store-receive c e = refl

  -- what a client makes of the entries of one call
  abbrev hears : Client → Target P → Clock → Event P → Client
  hears c t now e = receive f separator over_wire position_string c (emitted f separator t now e)

  insert_store :
      (c : Client) (t : Target P) (now : Clock) (row : Row)
      → SameRows over_wire c.store t.store
      → SameKey t.cols row
      → SameRows over_wire
          (hears c t now (inserts row)).store
          (step f separator t now (inserts row)).store
  unfolding receive emitted step apply_journal_entry apply_action wire_entry action_string on_insert
  insert_store c t now row s (sent, e, k) =
      rw (e, k) (same_put over_wire c.store t.store _ row sent e s)

  update_store :
      (c : Client) (t : Target P) (now : Clock) (row identity : Row)
      → SameRows over_wire c.store t.store
      → SameKey t.cols row
      → SameRows over_wire
          (hears c t now (updates row identity)).store
          (step f separator t now (updates row identity)).store
  unfolding receive emitted step apply_journal_entry apply_action wire_entry action_string on_update
  update_store c t now row identity s (sent, e, k) =
      rw (e, k) (same_put over_wire c.store t.store _ row sent e s)

  delete_store :
      (c : Client) (t : Target P) (now : Clock) (identity : Row)
      → SameRows over_wire c.store t.store
      → Keyed t
      → SameRows over_wire
          (hears c t now (deletes identity)).store
          (step f separator t now (deletes identity)).store
  unfolding receive emitted step apply_journal_entry apply_action wire_entry action_string on_delete
  delete_store c t now identity s k =
      let key = build_key f separator t.cols identity in
      elim (Option-cases (get t.store key)) [
        | inl e ↦ rw e (same_delete_missing over_wire c.store t.store key e s)
        | inr (row, e) ↦
            let (own, (sent, there, same)) = k key row e in
            rw (e, there, same, own) (same_delete over_wire c.store t.store key s)
      ]

  truncate_store :
      (c : Client) (t : Target P) (now : Clock)
      → SameRows over_wire (hears c t now truncates).store (step f separator t now truncates).store
  unfolding receive emitted step apply_journal_entry apply_action wire_entry action_string
      on_truncate
  truncate_store c t now k = refl

  step_store :
      (c : Client) (t : Target P) (now : Clock) (e : Event P)
      → SameRows over_wire c.store t.store
      → Keyed t
      → KeyedEvent t.cols e
      → SameRows over_wire (hears c t now e).store (step f separator t now e).store
  unfolding receive emitted step set_change_position take_snapshot pin_journal unpin_journal
  step_store c t now (positions p) s k g = s
  step_store c t now (inserts row) s k g = insert_store c t now row s g
  step_store c t now (updates row identity) s k g = update_store c t now row identity s g
  step_store c t now (deletes identity) s k g = delete_store c t now identity s k
  step_store c t now truncates s k g = truncate_store c t now
  step_store c t now snapshots s k g = s
  step_store c t now (pins client seq) s k g = s
  step_store c t now (unpins client) s k g = s

  cols-step : (t : Target P) (now : Clock) (e : Event P) → (step f separator t now e).cols ≡ t.cols
  unfolding step set_change_position on_insert on_update on_delete on_truncate take_snapshot
      pin_journal unpin_journal
  cols-step t now (positions p) = refl
  cols-step t now (inserts row) = refl
  cols-step t now (updates row identity) = refl
  cols-step t now (deletes identity) = refl
  cols-step t now truncates = refl
  cols-step t now snapshots = refl
  cols-step t now (pins client seq) = refl
  cols-step t now (unpins client) = refl

  -- every row of a store is under its own key, and the client's key for it is the same
  abbrev KeyedStore : List ColumnDefinition → Assoc String Row → Type 0
  KeyedStore cols store =
      (k : String) (row : Row)
      → get store k ≡ some row
      → (build_key f separator cols row ≡ k) × SameKey cols row

  put_keyed :
      (cols : List ColumnDefinition) (store : Assoc String Row) (row : Row)
      → KeyedStore cols store
      → SameKey cols row
      → KeyedStore cols (put store (build_key f separator cols row) row)
  put_keyed cols store row s g k r e =
      let key = build_key f separator cols row in
      elim (Bool-cases (key == k)) [
        | inl y ↦
            let found : some row ≡ some r = rw (get-put store key k row, y) at e in
            let same : row ≡ r = cc found in rw (← same) ((comparable_string.same_iff key k).0 y, g)
        | inr n ↦ s k r (rw (get-put store key k row, n) at e)
      ]

  delete_keyed :
      (cols : List ColumnDefinition) (store : Assoc String Row) (key : String)
      → KeyedStore cols store
      → KeyedStore cols (delete store key)
  delete_keyed cols store key s k r e = elim (Bool-cases (key == k)) [
    | inl y ↦
        let gone : none ≡ some r = rw (get-delete store key k, y) at e in
        absurd (ground (arith, gone))
    | inr n ↦ s k r (rw (get-delete store key k, n) at e)
  ]

  step-Keyed :
      (t : Target P) (now : Clock) (e : Event P)
      → Keyed t
      → KeyedEvent t.cols e
      → Keyed (step f separator t now e)
  unfolding step set_change_position on_insert on_update on_delete on_truncate take_snapshot
      pin_journal unpin_journal
  step-Keyed t now (positions p) k g = k
  step-Keyed t now (inserts row) k g = put_keyed t.cols t.store row k g
  step-Keyed t now (updates row identity) k g = put_keyed t.cols t.store row k g
  step-Keyed t now (deletes identity) k g = delete_keyed t.cols t.store _ k
  step-Keyed t now truncates k g = λ key row e. absurd (ground (arith, e))
  step-Keyed t now snapshots k g = k
  step-Keyed t now (pins client seq) k g = k
  step-Keyed t now (unpins client) k g = k

  abbrev pub KeyedEvents : List ColumnDefinition → List (Clock × Event P) → Type 0
  KeyedEvents cols [] = Unit {0}
  KeyedEvents cols ((now, e) ∷ es) = KeyedEvent cols e × KeyedEvents cols es

  receive-append :
      (c : Client) (xs ys : List (JournalEntry P))
      → receive f separator over_wire position_string c (xs ++ ys)
        ≡ receive f separator over_wire position_string
            (receive f separator over_wire position_string c xs)
            ys
  unfolding receive
  receive-append c [] ys = refl
  receive-append c (x ∷ xs) ys =
      receive-append (apply_journal_entry f separator c (wire_entry over_wire position_string x)) xs
        ys

  history_store :
      (c : Client) (t : Target P) (es : List (Clock × Event P))
      → SameRows over_wire c.store t.store
      → Keyed t
      → KeyedEvents t.cols es
      → SameRows over_wire
          (receive f separator over_wire position_string c (history f separator t es)).store
          (run f separator t es).store
  unfolding history run receive
  history_store c t [] s k g = s
  history_store c t ((now, e) ∷ es) s k g =
      rw
        (receive-append c (emitted f separator t now e)
          (history f separator (step f separator t now e) es))
        (history_store (hears c t now e) (step f separator t now e) es
          (step_store c t now e s k g.0) (step-Keyed t now e k g.0)
          (subst (λ cols. KeyedEvents cols es) (sym (cols-step t now e)) g.1))

  -- A client that held the target's rows at one time, and is sent what `entries_since` gives for
  -- that time's sequence after any further calls that set a position, insert, update, delete, truncate,
  -- take a snapshot, pin or unpin, holds the target's rows of that later time. This needs a
  -- valid journal, which at the end holds an entry and has not dropped the first that the client lacks,
  -- and the rows of the target and of the calls to convert for the wire, with one key to target and
  -- client.
  pub receive-converges :
      (c : Client) (t : Target P) (es : List (Clock × Event P))
      → IsValid t.j
      → Keyed t
      → KeyedEvents t.cols es
      → SameRows over_wire c.store t.store
      → 0 < length (run f separator t es).j.entries
      → oldest_sequence (run f separator t es).j ≤ suc (current_sequence t.j)
      → SameRows over_wire
          (receive f separator over_wire position_string c
            (entries_since (run f separator t es).j (current_sequence t.j))).store
          (run f separator t es).store
  receive-converges c t es v k g s n o =
      rw (entries_since-run f separator t es v n o) (history_store c t es s k g)
