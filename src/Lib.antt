-- ===== src/Lib.antt =====
-- A verification library for vitis, which lets coding agents talk to one another: a broker hands the
-- reply of one peer to the next, over an in-process bus, until a cap on turns, a sentinel token in a
-- reply, a failure or a cancelled context ends the conversation.
--
-- The parts and their files, and the Go code that each models:
--
--   Prelude    the library names, Boolean tests and list functions that the rest shares; Text is what
--              the code uses of package strings, on lists of code points
--   Model      internal/model/peer_id.go, internal/model/conversation.go; Model.Session has the
--              records of single-shot runs
--   Policy     internal/conversation/policy: the trailer <<NEXT: id>>, the round robin, and
--              AddressedPolicy.Next
--   Sentinel   internal/terminator/sentinel.go: StripSentinel, containsOnOwnLine; Sentinel.Watch has
--              NewSentinel, Start, Stop and the loop
--   Bus        internal/bus/bus.go: messages and topics; Bus.Inproc is internal/bus/inproc/inproc.go,
--              as a store of subscriptions with one function for each operation
--   Envelope   internal/conversation/briefing.go and envelope.go; Envelope.Style is style.go and
--              Envelope.Marker is marker.go
--   Peer       internal/peer/provider/persistent.go: the marker search and the echo; Peer.Persistent is
--              PersistentProcess, its pump and ConverseTurn; Peer.Transport is provider.go and
--              Peer.Spawner is spawner.go beside it; Peer.Scripted is internal/peer/mock/mock.go
--   Adapters   internal/adapter/claudecode/adapter.go and internal/adapter/codex/adapter.go: commands
--   Cli        internal/cli/converse_npeer.go: Cli.Pairs is parseKeyValueList, Cli.Specs is
--              parsePeerSpec, parseNPeerSpecs and toV2Conversation; Cli.Wiring is the part of
--              converse_npeer_run.go that makes the broker's dependencies, Cli.TwoPeers that of
--              converse.go; Cli.Knobs has the checks of the flags that both modes share
--   Terminal   internal/terminal: Terminal.Normalize is ansi.go, Terminal.Transcript is transcript.go;
--              Terminal.Screen is screen.go: Screen.Params and Screen.Csi are the control sequences,
--              Screen.Grid and Screen.Scroll the rows, Screen.Write the bytes
--   Store      internal/store/file: Store.Disk is a file system of the store's four directories,
--              Store.Records reads and writes JSON and JSON lines, Store.File has the operations of
--              file_store.go and Store.Listing those of file_store_list.go; Store.Spec is the abstract
--              store, maps from ids to records and logs; Store.Compat is internal/store/v1compat
--   Orchestrator   internal/orchestrator: Orchestrator.Completion is completion_loop.go, Orchestrator.Run
--              with Orchestrator.Result is orchestrator.go, Orchestrator.Config the files that it reads
--   Broker     internal/conversation/broker.go and result.go: Broker.Peers starts and stops the peers,
--              Broker.Round is one turn of the loop of Run, Broker.Run is Run
--   Examples   runs on concrete inputs; Examples.Toy is a world for the broker
--
-- How they interact: Run asks the policy for the next speaker, strips the sentinel from the response
-- that the next peer sees, builds the envelope with a fresh marker token, and reads the terminator's
-- verdicts from the control topic. The sentinel's loop reads the turns that Run publishes.
--
-- Effects are explicit. The broker is generic in the record `Env` of Broker.antt, which holds the
-- store, the bus, the peers, the terminator, the context, the clock and the entropy source as
-- functions on a world; nothing is assumed of them but what a theorem names. A panic is a result of
-- its own. JSON coding is a parameter. An operation of the bus under its lock is one step, and every
-- interleaving of the steps is a value of Bus.Reach.
--
-- A single-shot run is generic in the record `Env` of Orchestrator.antt in the same way; what the
-- selects of its completion loop yield is a list, and a loop that waits for more is a result.
--
-- Bounds and fuel: the loop of Run has one unit of fuel more than the cap of turns, since a round that
-- goes on has added a turn and the cap ends the loop. `itoa` has one more than its number, which has
-- at most as many digits. The loops of the flag parser and of the marker search have one more than
-- the length of the text, of which each round consumes a part. Counts and times are natural
-- numbers, and so is the cap of turns: the panic of `make` for a negative or a huge one, which no flag
-- allows, is left out. The position in an error of the flag parser counts characters, not bytes.
--
-- The file store: an operation on the disk whose directory or file denies access is an error. The
-- coding of each record as JSON is a pair of functions. Ids are file names without a slash. sort.Slice
-- is an insertion sort, which is one of the orders that it may give. A scanner takes lines below its
-- limit, 65536 bytes for turns and 1048576 for conversation turns.
--
-- The screen: rows and columns are Go's ints, whose sums wrap around at 2^63, and an index out of
-- range is the result `none`, a panic. The theorem on panics bounds the rows by 2^62.
--
-- Not modelled: processes and PTYs, which are input and output, so that what terminal/runtime.go adds
-- to a spec, the environment of the broker's own process, is not seen; what the adapters observe and
-- extract, which tests regular expressions; the HTTP API, the postgres store and the other commands,
-- which call other components, format and print.
pub mod Adapters
pub mod Broker
pub mod Bus
pub mod Cli
pub mod Envelope
pub mod Examples
pub mod Model
pub mod Orchestrator
pub mod Peer
pub mod Policy
pub mod Prelude
pub mod Sentinel
pub mod Store
pub mod Terminal
pub mod Text
