-- ===== src/Lib.antt =====
-- The durable core of reve: sessions that survive a crash of the process at any byte.
--
-- The program keeps one session in memory as maps (src/storage/mod.rs) that are the replay of a file
-- of JSON lines (src/storage/jsonl.rs), one line to a transaction. One task owns them
-- (src/session.rs); lanes and the interface send it commits that name the sequence numbers they have
-- read of registers, and lose when one of them has moved. What an interrupted operation needs in order
-- to go on is a register value, its program counter (src/state.rs).
--
-- Entry (with Namespace) is src/entry.rs: entries, usage rows, registers, writes and the lines of the
-- file. Storage is src/storage/mod.rs: `commit` is `validate`, the stamping loop with its checks, then
-- `publish`, the append and the loop of `apply`; Storage.Scan has the queries. Jsonl is
-- src/storage/jsonl.rs: Jsonl.Read has `read_lines` with its loop, Jsonl.Open has `open_file`
-- (`Storage::open`) and `compact_file`. State is src/state.rs. Model is the part of src/model.rs that
-- keeps a settled turn as a message. Session is src/session.rs: `commit_if` is the owner's handler of
-- a commit, Session.Restore is `restore` with `validate_current` (their loops and tests in
-- Session.Checks), Session.Context is `project_context`, Session.Lanes what `ensure_lane` and
-- `set_fact` ask the owner to commit. Compaction is src/compaction.rs. Harness has the calls of
-- src/harness.rs that start, feed and stop an operation: each is a plan, the commit that it sends
-- after its reads, so that other messages may come between; Harness.Calls has what each starting call
-- hands to `start`.
--
-- Driver is src/lane.rs, the state machine that carries a lane from one checkpoint to the next. A step
-- plans a `Move` (commit this, end the drive, or stop on an error) from what it reads in the storage
-- and from a `World`, which holds the answers of the model, the tools, the hooks, the policies and the
-- clock. `perform` runs the move against the owner, with the messages of others (`others`) served in
-- between; a commit that lost its race is planned again. `drive` is the loop. Driver.World has the
-- world and the moves, Driver.Checkpoint to Driver.Compact a module for each group of phases,
-- Driver.Step their dispatch. Hooks is src/hooks.rs: a hook is a function to what its future comes to.
-- Provider.Sse is src/provider/sse.rs, on texts as lists of code points.
--
-- A storage is a record and every operation gives the next one. The file is the list of its bytes. An
-- append meets an outcome: done, or failed after a number of bytes, which is also what a crash leaves.
-- Whether the lock is held and how a rewrite ends are arguments too. Errors of reading the file and of
-- cutting its tail off are left out. The clock and the minted ids are arguments.
--
-- Parameters, for code that is not in the repository: the JSON value type V with serde_json's
-- accessors (Json.Json), the codecs of the register types (Json.Serde, and Json.Codec for pending
-- content, of which no law is asked: a payload that is null reads back as none), and the text of a
-- line with its parser (Storage.Wire). Theorems on files ask of the lines in them that their text has
-- no line break and reads back, which is what serde_json documents of compact text
-- (Jsonl.Bytes.Readable).
--
-- Numbers are native; the 64-bit sums of sequence numbers, counts and usage wrap (`wrap64`), and
-- theorems that need it ask that the sequence numbers stay below 2 ^ 64. A map is an association list
-- in key order; the code never walks a HashMap. Three loops have no bound of their own. The walk of
-- `scan_branch` along the parents runs on fuel; on a well-formed tree the next sequence number plus
-- one is enough, and the driver's reads give it one more; on a branch that goes round, such as that of
-- an entry that is its own parent, where the code would not come back, a read of the driver is taken
-- to be empty. The decoder's loop over the lines of its buffer runs on the length of the buffer, since
-- every line takes its break with it. `drive` runs on fuel: what the model and the tools answer
-- decides how long a run is, so `none` says that the operation has not ended yet.
--
-- Not modelled: the events that a step emits to observers and the wording of its corruption messages
-- (each is a constructor), since the program reads neither back; of src/harness.rs its construction,
-- `resume_all` and the cancel channels; the identifiers of src/ids.rs, which are arguments; provider
-- adapters, tools, the sandbox, Lua and the terminal interface, which are requests, processes and
-- rendering around this core.
mod Prelude
pub mod Map
pub mod Json
pub mod Namespace
pub mod Entry
pub mod Storage
pub mod Jsonl
pub mod State
pub mod Model
pub mod Session
pub mod Compaction
pub mod Driver
pub mod Hooks
pub mod Harness
pub mod Provider
