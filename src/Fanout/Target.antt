-- ===== src/Fanout/Target.antt =====
-- target/fanout/fanout.go: the fan-out target, its row store, journal and snapshots. The clock is an
-- argument of each method that reads it. Contexts, table arguments and locks are left out: each
-- method is one step under the lock.
use Prim.Native.String.{◌++◌ as str_append}
use laredo.Common.{
  ℕ, ◌+◌, ◌/◌, String, Bool, true, false, Option, none, some, List, [], ◌∷◌, map, if◌then◌else◌,
  ltb, ◌&&◌, length, take, head?, Assoc, get, put, delete, comparable_string,
}
use laredo.Types.{Row, get_value, ColumnDefinition, insert, update, remove, truncate, Printing}
use laredo.Fanout.Journal.{
  Clock, Journal, new_journal, append, backfill_nil_positions, current_sequence, pin, unpin,
}

-- `Snapshot`
pub record Snapshot : Type 0 where
  pub id : String
  pub sequence : ℕ
  pub row_count : ℕ
  pub rows : List Row
  pub created_at : ℕ

-- the fields of `config` that the modelled methods read
pub record Config : Type 0 where
  pub max_journal_entries : ℕ
  pub max_journal_age : ℕ
  pub snapshot_keep_count : ℕ
  pub snapshot_max_age : ℕ

-- `Target`; its client registry is in Fanout/Clients.antt
pub record Target (P : Type 0) : Type 0 where
  pub cfg : Config
  pub store : Assoc String Row
  pub j : Journal P
  pub ready : Bool
  pub cols : List ColumnDefinition
  pub snapshots : List Snapshot
  pub cur_pos : Option P
  pub draining : Bool
  pub drain_reason : String
  pub drain_deadline : ℕ

-- `SchemaChangeAction`
pub data SchemaChangeAction : Type 0 where
  schema_continue schema_re_baseline schema_error : SchemaChangeAction

-- `strings.Join`
unfoldable pub join : String → List String → String
join sep [] = ""
join sep (s ∷ []) = s
join sep (s ∷ t ∷ ts) = str_append s (str_append sep (join sep (t ∷ ts)))

-- the names of the primary key columns, in column order
unfoldable pub key_columns : List ColumnDefinition → List String
key_columns [] = []
key_columns (c ∷ cs) = if c.primary_key then c.name ∷ key_columns cs else key_columns cs

-- `New`, for the options that `cfg` stands for
unfoldable pub new : (P : Type 0) → Config → Target P
new P cfg = record {
  cfg = cfg;
  store = [];
  j = new_journal P cfg.max_journal_entries cfg.max_journal_age;
  ready = false;
  cols = [];
  snapshots = [];
  cur_pos = none;
  draining = false;
  drain_reason = "";
  drain_deadline = 0;
}

-- the rows of the store, as one iteration of the map meets them
abbrev pub rows_of : Assoc String Row → List Row
rows_of [] = []
rows_of ((k, row) ∷ m) = row ∷ rows_of m

-- the loop of `pruneSnapshots`: everything from the first snapshot that is too old goes
unfoldable pub cut_aged : ℕ → ℕ → List Snapshot → List Snapshot
cut_aged max_age now [] = []
cut_aged max_age now (s ∷ ss) =
    if ltb (s.created_at + max_age) now then [] else s ∷ cut_aged max_age now ss

-- `pruneSnapshots`
unfoldable pub prune_snapshots : Config → ℕ → List Snapshot → List Snapshot
unfolding cut_aged
prune_snapshots cfg now ss =
    let kept =
      if ltb 0 cfg.snapshot_keep_count && ltb cfg.snapshot_keep_count (length ss)
      then take cfg.snapshot_keep_count ss
      else ss in
    if ltb 0 cfg.snapshot_max_age then cut_aged cfg.snapshot_max_age now kept else kept

module _ (f : Printing) (separator : String) where
  -- `buildKey`: `separator` is the byte 0
  unfoldable pub build_key : List ColumnDefinition → Row → String
  unfolding join key_columns
  build_key cols row = elim (map (λ c. f.sprint (get_value row c)) (key_columns cols)) [
    | [] ↦ elim (get row "id") [ none ↦ "" | some v ↦ f.sprint v ]
    | s ∷ ss ↦ join separator (s ∷ ss)
  ]

  restore_rows : List ColumnDefinition → Assoc String Row → List Row → Assoc String Row
  restore_rows cols store [] = store
  restore_rows cols store (row ∷ rows) = restore_rows cols (put store (build_key cols row) row) rows

  module _ {P : Type 0} where
    -- `SetChangePosition`
    unfoldable pub set_change_position : Target P → Option P → Target P
    set_change_position t position = record t { cur_pos = position }

    -- `OnInit`
    unfoldable pub on_init : Target P → List ColumnDefinition → Target P
    on_init t columns = record t { cols = columns }

    -- `OnBaselineRow`
    unfoldable pub on_baseline_row : Target P → Clock → Row → Target P
    unfolding build_key
    on_baseline_row t now row = record t {
      store = put t.store (build_key t.cols row) row;
      j = (append t.j now insert none (some row) none).0;
    }

    -- `OnBaselineComplete`
    unfoldable pub on_baseline_complete : Target P → Target P
    on_baseline_complete t = record t { ready = true; j = backfill_nil_positions t.j t.cur_pos }

    -- `OnInsert`
    unfoldable pub on_insert : Target P → Clock → Row → Target P
    on_insert t now row = record t {
      store = put t.store (build_key t.cols row) row;
      j = (append t.j now insert none (some row) t.cur_pos).0;
    }

    -- `OnUpdate`: the identity is not read
    unfoldable pub on_update : Target P → Clock → Row → Row → Target P
    on_update t now row identity =
        let key = build_key t.cols row in
        record t {
          store = put t.store key row;
          j = (append t.j now update (get t.store key) (some row) t.cur_pos).0;
        }

    -- `OnDelete`
    unfoldable pub on_delete : Target P → Clock → Row → Target P
    on_delete t now identity =
        let key = build_key t.cols identity in
        record t {
          store = delete t.store key;
          j = (append t.j now remove (get t.store key) none t.cur_pos).0;
        }

    -- `OnTruncate`
    unfoldable pub on_truncate : Target P → Clock → Target P
    on_truncate t now = record t { store = []; j = (append t.j now truncate none none t.cur_pos).0 }

    -- `OnSchemaChange`: the marker is a truncate entry, and the rows stay
    unfoldable pub on_schema_change :
        Target P → Clock → List ColumnDefinition → Target P × SchemaChangeAction
    on_schema_change t now new_columns = (
      record t { cols = new_columns; j = (append t.j now truncate none none t.cur_pos).0 },
      schema_re_baseline,
    )

    -- `ExportSnapshot`
    unfoldable pub export_snapshot : Target P → List Row
    export_snapshot t = rows_of t.store

    -- `RestoreSnapshot`: the journal stays as it is
    unfoldable pub restore_snapshot : Target P → List Row → Target P
    unfolding restore_rows
    restore_snapshot t entries = record t { store = restore_rows t.cols [] entries; ready = true }

    -- `OnClose`
    unfoldable pub on_close : Target P → Target P
    on_close t = record t { ready = false }

    -- `TakeSnapshot`; `UnixMilli` is the time in nanoseconds over a million
    unfoldable pub take_snapshot : Target P → Clock → Target P × Snapshot
    unfolding prune_snapshots
    take_snapshot t now =
        let snap : Snapshot = record {
          id = f.snapshot_id (current_sequence t.j) (now.first / 1_000_000);
          sequence = current_sequence t.j;
          row_count = length (rows_of t.store);
          rows = rows_of t.store;
          created_at = now.second;
        } in
        (record t { snapshots = prune_snapshots t.cfg now.third (snap ∷ t.snapshots) }, snap)

    -- `LatestSnapshot`
    unfoldable pub latest_snapshot : Target P → Option Snapshot
    latest_snapshot t = head? t.snapshots

    -- `Drain`, the first call of which counts; the closed channel is `draining`
    unfoldable pub drain : Target P → String → ℕ → Target P
    drain t reason deadline =
        if t.draining
        then t
        else record t { draining = true; drain_reason = reason; drain_deadline = deadline }

    -- `PinJournal` and `UnpinJournal`
    unfoldable pub pin_journal : Target P → String → ℕ → Target P
    pin_journal t client seq = record t { j = pin t.j client seq }

    unfoldable pub unpin_journal : Target P → String → Target P
    unpin_journal t client = record t { j = unpin t.j client }
