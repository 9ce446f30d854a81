-- ===== src/DeadLetter.antt =====
-- deadletter/memory.go: the dead letter store in memory, by pipeline. The target that a replay calls
-- is a table of its handlers, each of which returns the target and whether it succeeded.
pub mod History
mod Tests
use laredo.Common.{
  ℕ, ◌+◌, String, Bool, true, false, Option, none, some, List, [], ◌∷◌, ◌++◌, if◌then◌else◌, ltb,
  ◌&&◌, length, take, Assoc, get, put, delete, comparable_string,
}
use laredo.Types.{Row, ChangeAction, insert, update, remove, truncate}

-- `ChangeEvent`, without its times
pub record ChangeEvent (P : Type 0) : Type 0 where
  pub table : String
  pub action : ChangeAction
  pub position : Option P
  pub xid : ℕ
  pub new_values : Option Row
  pub old_values : Option Row

-- `Entry`, with the message of its error
pub record Entry (P : Type 0) : Type 0 where
  pub pipeline_id : String
  pub change : ChangeEvent P
  pub error : String

-- `MemoryStore`
abbrev pub MemoryStore : Type 0 → Type 0
MemoryStore P = Assoc String (List (Entry P))

-- the handlers of `SyncTarget` that `Replay` calls
pub record Handlers (T : Type 0) : Type 0 where
  pub on_insert : T → String → Option Row → T × Bool
  pub on_update : T → String → Option Row → Option Row → T × Bool
  pub on_delete : T → String → Option Row → T × Bool
  pub on_truncate : T → String → T × Bool

module _ {P : Type 0} where
  -- `NewMemoryStore`
  abbrev pub new_memory_store : MemoryStore P
  new_memory_store = []

  -- a missing key of a map to slices reads as nil
  abbrev pub entries_of : MemoryStore P → String → List (Entry P)
  entries_of s pipeline = elim (get s pipeline) [ none ↦ [] | some entries ↦ entries ]

  -- `Write`
  unfoldable pub write : MemoryStore P → String → ChangeEvent P → String → MemoryStore P
  write s pipeline change err = put s pipeline (
      entries_of s pipeline
      ++ (record { pipeline_id = pipeline; change = change; error = err } ∷ []))

  -- `Read`; a limit of zero or less is 0
  unfoldable pub read : MemoryStore P → String → ℕ → List (Entry P)
  read s pipeline limit =
      if ltb 0 limit && ltb limit (length (entries_of s pipeline))
      then take limit (entries_of s pipeline)
      else entries_of s pipeline

  unfoldable pub replay_change : {T : Type 0} → Handlers T → T → ChangeEvent P → T × Bool
  replay_change h target c = elim c.action [
    | insert ↦ h.on_insert target c.table c.new_values
    | update ↦ h.on_update target c.table c.new_values c.old_values
    | remove ↦ h.on_delete target c.table c.old_values
    | truncate ↦ h.on_truncate target c.table
  ]

  -- the loop of `Replay`, which returns at the first error
  unfoldable pub replay_each : {T : Type 0} → Handlers T → T → List (Entry P) → T × Bool
  unfolding replay_change
  replay_each h target [] = (target, true)
  replay_each h target (e ∷ rest) =
      let (target', ok) = replay_change h target e.change in
      let others = replay_each h target' rest in if ok then others else (target', false)

  -- `Replay`
  unfoldable pub replay : {T : Type 0} → Handlers T → MemoryStore P → String → T → T × Bool
  unfolding replay_each
  replay h s pipeline target = replay_each h target (entries_of s pipeline)

  -- `Purge`
  unfoldable pub purge : MemoryStore P → String → MemoryStore P
  purge s pipeline = delete s pipeline

  -- `Count`
  unfoldable pub count : MemoryStore P → String → ℕ
  count s pipeline = length (entries_of s pipeline)

  -- `Total`
  unfoldable pub total : MemoryStore P → ℕ
  total [] = 0
  total ((pipeline, entries) ∷ rest) = length entries + total rest
