-- ===== src/Lib.antt =====
-- laredo copies the tables of a source to targets, and keeps them up to date change by change.
-- This library models the parts that decide what a reader ends up with: the engine with its options
-- and its pipelines, the targets (the two in memory, the fan-out target with its journal and the
-- HTTP target), the clients that follow the journal, the trackers that decide what may be
-- acknowledged to the source, the archive of snapshots and diffs with its replay, and the dead letter
-- store.
--
-- How the parts interact. The engine reads a baseline from a source and then its changes, puts
-- each into the buffer of every pipeline of its table, and for each pipeline one consumer takes
-- them out, applies them to the target (filters, transforms, retries), and confirms the
-- position. A target is behind the interface `SyncTarget`, a record of its handlers. In memory
-- (target/memory) the compiled target keeps an object for each row, and the indexed target each
-- row with its indexes. The HTTP target (target/httpsync) forwards changes in batches. The
-- fan-out target (target/fanout) applies each change to its rows and appends it to its journal;
-- the replication service (service/replication) sends the entries to the clients
-- (client/fanout), which apply them to their replicas; a client that the journal no longer
-- covers is sent the archive first, up to where the journal goes on. What targets have
-- confirmed goes to the ACK tracker (internal/engine), which computes what the source may
-- forget. The snapshotter writes a table as base snapshots and diffs, and its reader plans a
-- chain of them. A change that a target refuses goes to the dead letter store (deadletter).
--
-- Files, and the code that they model:
--   Common, Common/*       lists, options, Go maps as association lists, numbers and tests
--   Types                  types.go: rows, values, actions, columns
--   Fanout/Journal         target/fanout/journal.go: `journal` and each of its methods
--   Fanout/Journal/*       Suffix and Newest (what pruning leaves), Sequence (numbers), Retention
--                          (pins and size), Resume (resuming by position)
--   Fanout/Target          target/fanout/fanout.go: `Target`, its handlers and its snapshots
--   Fanout/Clients         target/fanout/clients.go: `clientRegistry`; Capacity is its limit
--   Client                 client/fanout/client.go: the replica, its indexes and the messages;
--                          service/replication/replication.go: `sendJournalEntry`
--   Client/Local           client/fanout/client.go: lookups, saving and loading the replica
--   Replication/*          Stream (calls of the target and the entries that they add), History (the
--                          journal is the history of calls), Convergence (a replica follows the target)
--   Replication/Session    service/replication/replication.go: the mode, catch-up and live loop of `Sync`;
--                          Modes and Delivery are on it
--   Replication/Snapshot   the same file: the full snapshot; Joining is on it
--   Replication/Filter     service/replication/subscription_filter.go; Slice is on it
--   Replication/Cold       service/replication/cold_replay.go; Bridge (from the archive to the journal)
--                          and Cut (a stream that ends inside a diff) are on it
--   Engine/Ack             internal/engine/ack.go; Minimum, Advance and Nil are its theorems
--   Engine/Readiness       internal/engine/readiness.go; Callbacks is its theorem
--   Engine/Buffer          internal/engine/buffer.go; Fifo is its theorem
--   Snapshotter            snapshotter/types.go, policy.go: the manifest and when to rebase
--   Snapshotter/Writer     snapshotter/writer.go, writer_manifest.go, keys.go; Buffering is on it
--   Snapshotter/Reader     snapshotter/reader.go: planning and folding; Chains and AsOf are on it
--   Memory                 target/memory/memory.go: `CompiledTarget`; Sound and Restore are on it
--   Memory/AsTarget        the same as the engine sees it
--   Memory/Indexed         target/memory/memory.go: `IndexedTarget`; Stored, Agree and Calls (the
--                          indexes and the rows), and Reinserted are on it
--   HttpSync               target/httpsync/httpsync.go; Batches and Lost are on it
--   Pipeline               pipeline.go, target.go, errors.go, and from engine.go filters, transforms,
--                          expiry, `applyChangeToTarget`, `retryChange`; Retry is on it
--   Builtins               filter/filter.go, transform/transform.go
--   Core                   engine.go: `coreEngine`, transitions, error policies, acknowledging
--   Core/Consumer          engine.go: `runPipelineConsumer`, `dispatchToBuffers`; Applied is on it
--   Core/Baseline          engine.go: `runBaseline`, `trySnapshotRestore`, the start of `runSource`
--   Core/Lifecycle         engine.go: `Start`, `Stop`, `Pause`, `Resume`, `Reload`, `doSnapshot`
--   Core/Configure         engine.go: the options; Validate is `validateConfig` and `NewEngine`, and
--                          Registered is on it
--   Core/Frame, Core/Down  what the engine's steps leave alone; Down/Reach puts the steps together
--   Core/Scanner           engine.go: a tick of `runTTLScanner` and of `runValidationScanner`
--   Pg                     source/pg/replication.go: `startStreaming` and the decoding of messages;
--                          Decode is on it
--   Pg/Source              source/pg/pg.go: the slot of `Init`, `Baseline`, `LastAckedPosition`, `Stream`
--   Lsn                    source/pg/lsn.go, internal/lsn/lsn.go; Text and Order are on it
--   DeadLetter             deadletter/memory.go, deadletter.go; History is on it
--   .../Tests              the theorems at concrete inputs, and runs
--
-- How the code is read. A method with a receiver takes the state and returns the new state with
-- its results; a lock makes a method one step. A Go map is an association list in the order of one
-- iteration. Sequence numbers, sizes and times are natural numbers: they count up from zero or one
-- and the code compares them and subtracts a smaller from a larger; overflow of 64 bits is not
-- modelled. A limit that the code takes as unset when zero or less is 0. Each reading of the clock
-- is an argument. Positions are of any type, with the comparator of the source as an argument;
-- a nil position is `none`, also where one is confirmed. Rows with a value that Go cannot compare
-- (a slice, a map) are left out of the filters, where `==` would panic.
--
-- Parameters. What texts of LSNs are made of (`Texts`), package fmt's printing of values and
-- rows (`Printing`), the separator of keys, the sorting of key columns, the name of a target's
-- type, the answers to the attempts of a post (`Answers`), what the archive reads (`Archive`),
-- what package pglogrepl parses from a frame and the handler of a source's changes
-- (`Received`, `Handler`), what a row becomes as a message and back, where it converts
-- (`over_wire`), the comparator's laws (`Comparator`), the floating-point thresholds
-- (`Fractions`), float64 and prefixes (`Scalars`), regular expressions, uploads and the write
-- of the manifest (`World`), the handlers of a target (`SyncTarget`, and `Handlers` for a
-- replay), and for the engine the timers, the rows and positions that a source delivers and
-- whether its calls succeed (`Turn`, and arguments of the methods). What a theorem needs of
-- them it takes as a hypothesis.
--
-- Fuel. Only the reader's two loops over a chain of diffs have no bound in the code; they take
-- fuel, and `none` is a loop that has not ended.
--
-- Turns. A turn of a consumer, a dispatch, a tick of a scanner and a method of the engine are
-- each one step; that the engine's goroutines overlap within one is not modelled, but for
-- what a consumer takes from a full buffer while `SendDropOldest` makes room in it. Retries are
-- bounded by the code. In the PostgreSQL stream a turn is one round of its loop; the statuses
-- that `Ack` sends beside it are not among those of the loop.
--
-- Not modelled: the engine's observers, of the PostgreSQL source its publication and its
-- queries, the other sources, configuration files, stores on files and objects, metrics and
-- commands; connecting, timeouts and encodings, which are I/O. In the HTTP target the waits
-- between attempts and the headers; in the indexed target the registration of listeners and the
-- iteration.
pub mod Builtins
pub mod Client
pub mod Common
pub mod Core
pub mod DeadLetter
pub mod Engine
pub mod Fanout
pub mod HttpSync
pub mod Lsn
pub mod Memory
pub mod Pg
pub mod Pipeline
pub mod Replication
pub mod Snapshotter
pub mod Types
