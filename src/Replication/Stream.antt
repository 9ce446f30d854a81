-- ===== src/Replication/Stream.antt =====
-- The calls that a fan-out target receives while it streams, and what a client that is sent the
-- journal entries makes of them.
use laredo.Common.{
  ℕ, ◌≡◌, refl, String, Option, none, some, List, [], ◌∷◌, ◌++◌, get, comparable_string,
}
use laredo.Types.{Row, Printing, insert, update, remove, truncate}
use laredo.Fanout.Journal.{Clock, JournalEntry, new_entry}
use laredo.Fanout.Target.{
  Target, build_key, set_change_position, on_insert, on_update, on_delete, on_truncate,
  take_snapshot, pin_journal, unpin_journal,
}
use laredo.Client.{Client, Message, wire_entry, apply_journal_entry, apply_message}

-- What the engine delivers, and what the replication service asks for.
pub data Event (P : Type 0) : Type 0 where
  positions : Option P → Event P
  inserts : Row → Event P
  updates : Row → Row → Event P
  deletes : Row → Event P
  truncates : Event P
  snapshots : Event P
  pins : String → ℕ → Event P
  unpins : String → Event P

module _ {P : Type 0} (f : Printing) (separator : String) where
  unfoldable pub step : Target P → Clock → Event P → Target P
  step t now (positions p) = set_change_position f separator t p
  step t now (inserts row) = on_insert f separator t now row
  step t now (updates row identity) = on_update f separator t now row identity
  step t now (deletes identity) = on_delete f separator t now identity
  step t now truncates = on_truncate f separator t now
  step t now snapshots = (take_snapshot f separator t now).0
  step t now (pins client seq) = pin_journal f separator t client seq
  step t now (unpins client) = unpin_journal f separator t client

  unfoldable pub run : Target P → List (Clock × Event P) → Target P
  run t [] = t
  run t ((now, e) ∷ es) = run (step t now e) es

  -- the journal entries that a call adds
  unfoldable pub emitted : Target P → Clock → Event P → List (JournalEntry P)
  emitted t now (inserts row) = new_entry t.j now insert none (some row) t.cur_pos ∷ []
  emitted t now (updates row identity) =
      new_entry t.j now update (get t.store (build_key f separator t.cols row)) (some row) t.cur_pos
      ∷ []
  emitted t now (deletes identity) =
      new_entry t.j now remove (get t.store (build_key f separator t.cols identity)) none t.cur_pos
      ∷ []
  emitted t now truncates = new_entry t.j now truncate none none t.cur_pos ∷ []
  emitted t now _ = []

  unfoldable pub history : Target P → List (Clock × Event P) → List (JournalEntry P)
  history t [] = []
  history t ((now, e) ∷ es) = emitted t now e ++ history (step t now e) es

module _ {P : Type 0} (f : Printing) (separator : String) (over_wire : Row → Option Row)
    (position_string : P → String) where
  -- a client that receives these entries, in this order
  unfoldable pub receive : Client → List (JournalEntry P) → Client
  receive c [] = c
  receive c (e ∷ es) =
      receive (apply_journal_entry f separator c (wire_entry over_wire position_string e)) es

module _ (f : Printing) (separator : String) where
  -- a client that receives these messages, in this order
  unfoldable pub receive_all : Client → List Message → Client
  unfolding apply_message
  receive_all c [] = c
  receive_all c (m ∷ ms) = receive_all (apply_message f separator c m).0 ms

  pub receive_all-++ :
      (c : Client) (xs ys : List Message)
      → receive_all c (xs ++ ys) ≡ receive_all (receive_all c xs) ys
  unfolding receive_all
  receive_all-++ c [] ys = refl
  receive_all-++ c (x ∷ xs) ys = receive_all-++ (apply_message f separator c x).0 xs ys
