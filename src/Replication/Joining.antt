-- ===== src/Replication/Joining.antt =====
-- A client that joins: the full snapshot, and then the journal.
use laredo.Common.{
  ℕ, suc, ◌≤◌, ◌<◌, ◌≡◌, refl, ap, ◌∙◌, String, none, some, Option, List, [], ◌∷◌, length, Assoc,
  get, get-put, Distinct, not_front, ◌==◌, ==_refl, comparable_string, Bool-cases, inl, inr,
  keep_if, if◌then◌else◌,
}
use laredo.Types.{Row, Printing}
use laredo.Fanout.Journal.{
  Journal, JournalEntry, Clock, entries_since, current_sequence, oldest_sequence,
}
use laredo.Fanout.Journal.Sequence.{IsValid}
use laredo.Fanout.Target.{Target, rows_of, take_snapshot}
use laredo.Client.{
  Client, apply_message, snapshot_row, send_row, row_key, snapshot_begin, snapshot_end,
}
use laredo.Replication.Filter.{Scalars, match_row, match_entry}
use laredo.Replication.Session.{catch_up}
use laredo.Replication.Snapshot.{row_messages, full_snapshot_messages}
use laredo.Replication.Stream.{Event, run, receive, receive_all, receive_all-++}
use laredo.Replication.Convergence.{SameRows, Keyed, KeyedEvents, receive-converges}

-- the first of two that is there
first_of : Option Row → Option Row → Option Row
first_of none b = b
first_of (some a) b = some a

all_kept : (g : Scalars) (rows : List Row) → keep_if (match_row g none) rows ≡ rows
unfolding match_row
all_kept g [] = refl
all_kept g (row ∷ rows) = ap (λ xs. row ∷ xs) (all_kept g rows)

catch_up_all :
    {P : Type 0} (g : Scalars) (j : Journal P) (seq : ℕ)
    → catch_up (match_entry g none) j seq ≡ entries_since j seq
unfolding catch_up match_entry
catch_up_all {P = P} g j seq = go (entries_since j seq)
  where
    go : (es : List (JournalEntry P)) → keep_if (match_entry g none) es ≡ es
    go [] = refl
    go (e ∷ es) = ap (λ xs. e ∷ xs) (go es)

module _ (f : Printing) (separator : String) (over_wire : Row → Option Row) where
  -- Each row of a store converts, and stands under the key that the client computes for it.
  ClientKeyed : Assoc String Row → Type 0
  ClientKeyed m =
      (k : String) (row : Row)
      → get m k ≡ some row
      → (sent : Row) × (over_wire row ≡ some sent) × (row_key f separator sent ≡ k)

  rows_store :
      (c : Client) (m : Assoc String Row) (j : String)
      → Distinct m
      → ClientKeyed m
      → get (receive_all f separator c (row_messages over_wire (rows_of m))).store j
        ≡ first_of (send_row over_wire (get m j)) (get c.store j)
  unfolding receive_all apply_message row_messages first_of ClientKeyed
  rows_store c [] j d keyed = refl
  rows_store c ((k, row) ∷ m) j (fresh, d) keyed =
      let (sent, there, own) = keyed k row (rw (==_refl k) refl) in
      let c' = (apply_message f separator c (snapshot_row (over_wire row))).0 in
      let stored : get c'.store j ≡ (if k == j then some sent else get c.store j) =
        rw (there, own) (get-put c.store k j sent) in
      rows_store c' m j d (λ i r h. keyed i r (rw (not_front m k i r fresh h) h))
      ∙ (rw stored (elim (Bool-cases (k == j)) [
        | inl y ↦
            let gone : get m j ≡ none = rw (← (comparable_string.same_iff k j).0 y) fresh in
            rw (y, gone, there) refl
        | inr n ↦ rw n refl
      ]))

  first_of-none : (o : Option Row) → first_of o none ≡ o
  unfolding first_of
  first_of-none none = refl
  first_of-none (some row) = refl

  -- what a client holds after a snapshot of a store
  snapshot_store :
      (g : Scalars) (c : Client) (id : String) (seq count taken : ℕ) (m : Assoc String Row)
      → Distinct m
      → ClientKeyed m
      → SameRows over_wire
          (receive_all f separator c (
            full_snapshot_messages over_wire g none (record {
              id = id;
              sequence = seq;
              row_count = count;
              rows = rows_of m;
              created_at = taken;
            }))).store
          m
  unfolding full_snapshot_messages receive_all apply_message
  snapshot_store g c id seq count taken m d keyed j =
      let c' = (apply_message f separator c (snapshot_begin id)).0 in
      rw (all_kept g (rows_of m)) (
        rw
          (receive_all-++ f separator c' (row_messages over_wire (rows_of m))
            (snapshot_end seq ∷ []))
          (rows_store c' m j d keyed ∙ first_of-none (send_row over_wire (get m j))))

  module _ {P : Type 0} (position_string : P → String) where
    -- A client in any state that is sent the full snapshot of a target, and then the catch-up from the
    -- snapshot's sequence after any further calls that set a position, insert, update, delete,
    -- truncate, take a snapshot, pin or unpin, both without a filter, holds the target's rows of that
    -- later time. This needs a valid journal, which at the end holds an entry and has not dropped the
    -- first after the snapshot, a store whose keys stand once, and the rows of the target and of the
    -- calls to convert for the wire, with one key to target and client.
    pub full_snapshot-converges :
        (g : Scalars) (c : Client) (t : Target P) (now : Clock) (es : List (Clock × Event P))
        → IsValid t.j
        → Distinct t.store
        → Keyed f separator over_wire position_string t
        → KeyedEvents f separator over_wire position_string t.cols es
        → 0 < length (run f separator (take_snapshot f separator t now).0 es).j.entries
        → oldest_sequence (run f separator (take_snapshot f separator t now).0 es).j
          ≤ suc (current_sequence t.j)
        → SameRows over_wire
            (receive f separator over_wire position_string
              (receive_all f separator c
                (full_snapshot_messages over_wire g none (take_snapshot f separator t now).1))
              (catch_up
                (match_entry g none)
                (run f separator (take_snapshot f separator t now).0 es).j
                (take_snapshot f separator t now).1.sequence)).store
            (run f separator (take_snapshot f separator t now).0 es).store
    unfolding take_snapshot ClientKeyed
    full_snapshot-converges g c t now es valid distinct keyed events some_entries holds =
        let taken = take_snapshot f separator t now in
        let c' = receive_all f separator c (full_snapshot_messages over_wire g none taken.1) in
        let rows_are : SameRows over_wire c'.store t.store =
          snapshot_store g c _ _ _ _ t.store distinct (λ k row h.
            let (own, (sent, there, same)) = keyed k row h in (sent, there, same ∙ own)) in
        rw (catch_up_all g (run f separator taken.0 es).j (current_sequence t.j)) (
          receive-converges f separator over_wire position_string c' taken.0 es valid keyed events
            rows_are some_entries holds)
