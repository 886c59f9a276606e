-- ===== src/Lib.antt =====
-- Verification library of DF-AI: the binary protocol between the orchestrator and the plugin inside
-- Dwarf Fortress, the commands that are sent over it, the plan of the deliberator, the predictions of
-- what the plan will do to the map, the map of open tiles, and the reconciler that compares them.
--
-- The program. A plugin in the game and the orchestrator (Go) exchange length-prefixed messages
-- (internal/protocol): a message is validated, serialized behind a header of six bytes, sent over a
-- TCP connection, and at the other side framed, checked, decoded and validated again. Commands are
-- one of the 13 message types and have 44 types of their own. The deliberator commits to steps in a
-- plan (internal/plan), a graph of nodes with dependencies; the executor sends the actions of ready
-- nodes and marks what became of them, by which others become ready. A command is built, registered
-- and awaited by the command executor (internal/commands), whose tracker is changed by the caller,
-- by the arrival of acknowledgements and by two periodic checks. What a dig should do to the tiles
-- is kept as predictions (internal/worldmodel), and what is known of the tiles in two bit arrays
-- (internal/topology). The reconciler (internal/reconcile) confirms the predictions that the
-- overlay bears out, and marks nodes as progressed, stalled or done.
--
-- Which file models which part:
--   Base            Boolean tests, lists measured by native numbers, signed integers and their words,
--                   Go's (value, error) pairs (Result), strings as lists of bytes.
--   Protocol/Wire   what the codec uses of encoding/binary, bytes and io: put_u32 is a binary.Write of
--                   a uint32, read_u32 a binary.Read, read_full is io.ReadFull, a Reader is a read
--                   from a bytes.Reader. Wire/Reads undoes a chain of writes.
--   Protocol/Command
--                   the designations of internal/protocol/message.go with write_x and read_x, the
--                   cases of serializeCommand and deserializeCommand of internal/protocol/codec.go
--                   (Areas, Zones, Sites, People, Burrows, Orders, Jobs by what they are about);
--                   Types has the command types, Message the CommandMessage, Serialize and
--                   Deserialize the switches, Validate the checks. Carry says which fields a type
--                   sends.
--   Protocol/Messages
--                   the other message types: validate_x is the method Validate, serialize_x and
--                   deserialize_x are the functions of that name.
--   Protocol/Frame  SerializeMessage and DeserializeMessage, EncodeCommand and DecodeCommand.
--   Protocol/Connection
--                   internal/protocol/connection.go: states, Send, Receive, Close over a byte stream.
--   Plan/Node       internal/plan/types.go.
--   Plan/Dag        internal/plan/dag.go: Dag is the struct DAG, add, update, mark_active, mark_done,
--                   mark_failed, note_progress, note_stall its methods, Dag/Queries and Dag/Views its
--                   readers.
--   Plan/Executor   internal/plan/executor.go: execute_node is executeNode, drain is drain. The answer
--                   to a command is an input, and so is the function that formats a result text.
--   Commands/Send   the Send methods of internal/commands/executor.go: send_x builds the message of SendX,
--                   its last argument is the id that GenerateCommandID gave. Commands/Request has one
--                   constructor per method, message_of applies the method.
--   Commands/Types, Commands/Tracker
--                   internal/commands/types.go and tracker.go (Progress: CheckProgress). The map of
--                   pointers to commands is a list of cells, one per command ever made, and a map
--                   from ids to positions in it, so that a command which left the map is still seen
--                   by the call that waits for it. The channel of capacity one is an Option.
--   Commands/Executor
--                   SendCommand, HandleAck and the two loops of internal/commands/executor.go as events:
--                   a call registers its command (request_begins), its client call fails or returns
--                   (client_fails, client_sends), it takes its result (result_received); in between an
--                   acknowledgement arrives (ack_arrives) or a check runs (timeouts_checked,
--                   commands_cleaned). run_events is any interleaving of them.
--   World/Predicted internal/worldmodel/predicted.go: PredictedState and its methods; the maps are
--                   association lists. Change has one constructor per method that changes the state.
--   Reconcile       internal/reconcile: Events is types.go, Scan is reconciler.go. scan works on the plan,
--                   the predictions and the overlay together.
--   Topology        internal/topology/overlay.go, state.go and query.go: Bits has the bit arrays.
-- Files named Tests apply the theorems to concrete values.
--
-- Conventions. Numbers of the Go types are natural numbers with their range as a hypothesis, signed
-- ones are integers that are written as two's complement words; a conversion such as uint16(len(s))
-- wraps as in Go. An error is its kind, without the text of its message. The run-time panic of a
-- slice expression is the error slice_panic, that of an index out of range index_panic. All loops
-- are structural recursion over a list or over a count, so no function takes fuel. Go's map of
-- nodes is the list of its values; the order in which a loop goes through the map is an argument,
-- and so is the clock.
--
-- Not modelled: locks and goroutines (an operation is one step), partial writes to a socket, logs,
-- the commands and the predictions of the executor of the plan, the bulk build, the statistics and
-- the compression of the overlay, the rest of the world model, and the parts of the program around
-- them: the MCP server, the renderers, the deliberator's prompts, the stores, the game plugin in
-- C++.
pub mod Base
pub mod Protocol
pub mod Commands
pub mod Plan
pub mod World
pub mod Topology
pub mod Reconcile
