-- ===== src/Replication/Tests.antt =====
-- A target that streams and a client that follows it, on concrete rows.
mod Joining
use laredo.Common.{
  ℕ, ◌+◌, ◌≡◌, refl, String, true, false, Option, none, some, List, [], ◌∷◌, arith,
  comparable_string,
}
use laredo.Types.{Value, null, text, other, Row, Printing, ColumnDefinition}
use laredo.Fanout.Journal.{
  Clock, append, prune, min_pin, entries_since, current_sequence, oldest_sequence,
}
use laredo.Fanout.Target.{Target, build_key, set_change_position, on_insert, on_update, on_delete}
use laredo.Client.{Client, row_key}
use laredo.Replication.Stream.{Event, positions, inserts, updates, deletes, step, run, receive}
use laredo.Replication.Convergence.{SameRows, Keyed, receive-converges}
use laredo.Common.{keep_if, All, get}
use laredo.Types.{insert}
use laredo.Fanout.Journal.{Journal}
use laredo.Replication.Stream.{emitted}
use laredo.Replication.Session.{poll, sync, choose_mode, full_snapshot}
use laredo.Fanout.Target.{Snapshot}
use laredo.Replication.Modes.{choose_mode-le}
use laredo.Common.{◌⊎◌, ◌≤◌, ◌↔◌, nat_beq}
use laredo.Replication.Delivery.{poll-delivers, sync-Outside, Outside}
use laredo.Replication.Filter.{
  match_row, compile_subscription_filter, compile_match, normalize, Scalars, FieldPredicate,
  CompiledPredicate, equals, match_entry, match_all, match_predicate,
}
use laredo.Replication.Slice.{match_row-compile, Meets}

print_value : Value → String
print_value null = "<nil>"
print_value (text s) = s
print_value (other n) = "other"

abbrev printing : Printing
printing = record { sprint = print_value; sprint_row = λ r. "map"; snapshot_id = λ s t. "snapshot" }

abbrev unchanged : Row → Option Row
unchanged row = some row

abbrev no_position : ℕ → String
no_position p = ""

abbrev id_column : ColumnDefinition
id_column = record { name = "id"; primary_key = true; primary_key_ordinal = 1 }

abbrev started : Target ℕ
started = record {
  cfg = record {
    max_journal_entries = 100;
    max_journal_age = 0;
    snapshot_keep_count = 0;
    snapshot_max_age = 0;
  };
  store = [];
  j = record { entries = []; max_entries = 100; max_age = 0; next_seq = 1; pins = [] };
  ready = true;
  cols = id_column ∷ [];
  snapshots = [];
  cur_pos = none;
  draining = false;
  drain_reason = "";
  drain_deadline = 0;
}

abbrev empty_client : Client
empty_client = record {
  store = [];
  indexes = [];
  last_seq = 0;
  last_snapshot_id = "";
  last_source_position = "";
  ready = false;
  columns = [];
}

abbrev at : ℕ → Clock
at t = record { first = t; second = t + 1; third = t + 2 }

abbrev first : Row
first = ("id", text "1") ∷ ("name", text "a") ∷ []

abbrev changed : Row
changed = ("id", text "1") ∷ ("name", text "b") ∷ []

abbrev second : Row
second = ("id", text "2") ∷ []

abbrev calls : List (Clock × Event ℕ)
calls =
    (at 10, positions (some 7))
    ∷ (at 10, inserts first)
    ∷ (at 11, inserts second)
    ∷ (at 12, updates changed first)
    ∷ (at 13, deletes second)
    ∷ []

started-Keyed : Keyed printing "," unchanged no_position started
started-Keyed k row e = absurd (ground (arith, e))

final_rows : (run printing "," started calls).store ≡ ("1", changed) ∷ []
unfolding run step build_key on_insert on_update on_delete set_change_position print_value
final_rows = refl

receive-converges_example :
    SameRows unchanged
      (receive printing "," unchanged no_position empty_client
        (entries_since (run printing "," started calls).j 0)).store
      (run printing "," started calls).store
unfolding run step build_key row_key on_insert on_update on_delete set_change_position print_value
    append prune min_pin current_sequence oldest_sequence
receive-converges_example =
    receive-converges printing "," unchanged no_position empty_client started calls
      (record { chain = tt; started = omega arith }) started-Keyed
      (tt, ((first, refl, refl), ((second, refl, refl), ((changed, refl, refl), (tt, tt)))))
      (λ k. refl) (omega arith) (omega arith)

-- The journal before and after an entry that comes between catching up and going live.
abbrev before : Journal ℕ
before = (append started.j (at 10) insert none (some first) none).0

abbrev between : Journal ℕ
between = (append before (at 11) insert none (some second) none).0

poll-delivers_example :
    ((poll (λ e. true) (record { last_seq_sent = 1; sent = [] }) between).sent
      ≡ keep_if (λ e. true) (entries_since between 1))
    × ((poll (λ e. true) (record { last_seq_sent = 1; sent = [] }) between).last_seq_sent
        ≡ current_sequence between)
unfolding append prune min_pin oldest_sequence current_sequence
poll-delivers_example =
    poll-delivers (λ e. true) (record { last_seq_sent = 1; sent = [] }) between
      (record {
        chain = (omega arith, omega arith, (omega arith, omega arith, tt));
        started = omega arith;
      })
      (omega arith) (omega arith) (omega arith)

sync-Outside_example :
    All
      (Outside (current_sequence before) (current_sequence between))
      (sync (λ e. true) before 0 between (between ∷ [])).sent
unfolding append prune min_pin
sync-Outside_example =
    sync-Outside (λ e. true) before 0 between (between ∷ [])
      (record { chain = (omega arith, omega arith, tt); started = omega arith })

abbrev scalars : Scalars
scalars = record { to_float = λ n. n; same_number = nat_beq; has_prefix = λ s p. false }

-- only rows with the name "a"
abbrev named_a : CompiledPredicate
named_a = record { field = "name"; kind = equals (text "a") }

-- the same as a client writes it
abbrev only_a : List FieldPredicate
only_a = record { field = "name"; condition = some (equals (text "a")) } ∷ []

match_row-compile_example :
    (match_row scalars (some (named_a ∷ [])) first ≡ true) ↔ All (Meets scalars first) only_a
unfolding compile_subscription_filter compile_match normalize
match_row-compile_example = match_row-compile scalars first only_a (some (named_a ∷ [])) refl

abbrev kept : Snapshot
kept = record { id = "s2"; sequence = 4; row_count = 0; rows = []; created_at = 10 }

choose_mode-le_example :
    let (mode, resume_seq, id) = choose_mode none none 1 3 "s2" (kept ∷ []) in
    (mode ≡ full_snapshot) ⊎ (3 ≤ resume_seq)
choose_mode-le_example = choose_mode-le 1 3 "s2" (kept ∷ [])
