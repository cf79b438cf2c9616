-- ===== src/Lib.antt =====
-- Verification of trx-rs, a modular transceiver control stack.
--
-- The program is a server that owns the radios, a client that talks to the server and offers
-- frontends, and libraries that both use. In the server a task for each rig drives a state machine,
-- checks a command against it, executes it on a backend and retries what may pass; audio from the
-- rig goes through decoders for AIS, APRS, FT8 and others, and what they find goes to the client.
-- The HTTP frontend of the client guards its routes with sessions. The development models the parts
-- that decide something without floating point, each from its source:
--
--   Rig/Types, Rig/Command  src/trx-core/src/rig/mod.rs, rig/state.rs, rig/response.rs,
--                           rig/command.rs, rig/controller/handlers.rs (the data)
--   Rig/Machine             src/trx-core/src/rig/controller/machine.rs: `next_state` is the match of
--                           `process_event`, `set_state` the bookkeeping of a transition
--   Rig/Handlers            src/trx-core/src/rig/controller/handlers.rs: `can_execute` and `execute`
--                           of every command
--   Rig/Policies            src/trx-core/src/rig/controller/policies.rs, rig/response.rs, and
--                           `refresh_state_with_retry` of src/trx-server/src/rig_task.rs
--   Rig/Modes               equality of modes, which src/trx-core/src/rig/state.rs derives
--   Task                    src/trx-server/src/rig_task.rs, the task of one rig: State and
--                           State/Snapshot the state of src/trx-core/src/rig/state.rs, Sync how it
--                           follows the machine, Backend the calls of the rig, Tuning `apply_freq`
--                           and the decoders' resets, Tuning/Modes the modes in which the tasks of
--                           src/trx-server/src/audio.rs run, Route and Process `process_command`, Batch
--                           the coalescing and draining of the requests (rig/request.rs), Start the
--                           initialisation, Loop one turn of `run_rig_task` and any number of them
--   Channels                src/trx-client/trx-frontend/trx-frontend-http/src/vchan.rs: Keys the two
--                           maps, Edit what a call does to the channels of one rig, Scheduler
--                           `reconcile`, Upkeep the manager under any sequence of calls
--   Ftx/Text, Ftx/Decimal   src/decoders/trx-ftx/src/common/text.rs
--   Ftx/HashTable           src/decoders/trx-ftx/src/common/callsign_hash.rs
--   Ftx/Message             src/decoders/trx-ftx/src/common/message.rs: Places has the loops over
--                           characters, Callsign, Grid, FreeText, Standard and Nonstandard the fields
--                           and kinds of message, Dispatch the choice among them
--   Ftx/Crc                 src/decoders/trx-ftx/src/common/crc.rs
--   Hdlc                    the receiver behind the demodulators of src/decoders/trx-ais/src/lib.rs
--                           (`process_symbol`, `bits_to_frame`) and src/decoders/trx-aprs/src/lib.rs
--                           (`process_bit`, `bits_to_bytes`), which are the same up to the last step
--   Cat                     src/trx-core/src/math/bcd.rs, and the VFO and mode code of
--                           src/trx-server/trx-backend/trx-backend-ft817/src/lib.rs
--   Auth                    src/trx-client/trx-frontend/trx-frontend-http/src/auth.rs
--   Protocol                src/trx-protocol/src/auth.rs (Token), codec.rs (Mode: the mode names), types.rs
--                           mapping.rs (Command) and decoders.rs (Decoders), over the texts of the
--                           standard library (Text)
--   Wspr                    src/decoders/trx-wspr/src/protocol.rs, `unpack_message`
--   Server                  src/trx-server/src/listener.rs: Lines is `read_limited_line`, Connections the
--                           tracker, Requests what `handle_client` does with a line
--
-- Common holds the shared names, Boolean tests, lists over native numbers and the laws of bit_xor.
-- In each part the files beside the definitions hold the proofs; Hdlc/Stuffing has the transmitter
-- of the HDLC standard, which the program does not contain and against which its receiver is
-- specified. Examples holds the theorems at concrete inputs.
--
-- State is passed explicitly. A field keeps its name, a clock reading is an argument of the
-- operation that reads the clock, and so are a jitter and a random session identifier. Numbers are
-- natural numbers; where the source has a fixed width and wraps or saturates, the definition says
-- so. Text is a native string where the program only compares it, and a list of codes where it walks
-- over it or slices it; a slice that a character is in the way of is a panic. A HashMap is a
-- function, in Channels a list of entries. Floating-point fields of a status are stored and passed
-- on only, so they are bit patterns.
--
-- Loops over a buffer follow the buffer. The probing loops of the callsign table run on fuel, with
-- table_size = 256 rounds, one for each slot that the source's loop can visit. The checksum loops
-- run for as many bits as the source's `for` does, and the retry loop runs on the number of attempts
-- that the policy has left. `coalesce` and `drain` of the rig task take a request from the batch in
-- each round, so the length of the batch is fuel enough.
--
-- Not modelled: the demodulators, filters, equalizers and soft decoders (floating point), sockets,
-- HTTP plumbing, files and configuration formats, and the parts of the listed files that only log
-- or format. Of the rig task: a timeout that drops a call midway, the listeners of its notifications
-- (it is started with none), and its sleeps. Of the virtual channels: the JSON of their events and
-- how the audio commands reach the server. Serde's encodings, the hash maps of the standard library
-- and the random numbers are outside the repository.
pub mod Common
pub mod Rig
pub mod Ftx
pub mod Hdlc
pub mod Auth
pub mod Cat
pub mod Wspr
pub mod Protocol
pub mod Server
pub mod Task
pub mod Channels
mod Examples
