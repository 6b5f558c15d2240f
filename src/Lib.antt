-- ===== src/Lib.antt =====
-- lattice_hub: a model of the hub of a sensor mesh, and theorems about it.
--
-- The hub (server/orchestrator) speaks to one or two master nodes over serial links. It keeps which
-- nodes are trusted, which nodes there are and what IDs they have, which zones the artists defined
-- and which commands await an answer; it tells subscribers of events and writes records to Kafka.
--
-- The parts and their files, sources below server/orchestrator
-- unless said otherwise:
--   Base      shared lists, texts, options, results, files, and Go maps as association lists
--   Mac       the texts of MAC addresses: macToString and StringToMAC of mesh/node_registry.go,
--             macToString, ParseMAC and ParsePublicKey of nodeauth/registry.go, parseMAC of
--             envconfig.go
--   Protocol  mesh/constants.go and the message record of mesh/mesh.pb.go
--   Builder   mesh/message_builder.go: one function for each Build, Parse and Is method
--   Nodes     mesh/node_registry.go: the registry is a map, one function for each method; Ids, ById,
--             Routes, Invariant and Calls have its laws, Storage has Persist and Load, Order forgets
--             the order in which an iteration visits the entries
--   Auth      nodeauth/registry.go; Storage has nodeauth/persistence.go, Replay nodeauth/replay.go
--   Zones     mesh/zone_registry.go
--   Commands  mesh/command_store.go
--   Events    mesh/event_broker.go
--   Serial    WriteFrame and ReadFrame of mesh/serial.go, on streams of bytes; Transport opens the
--             port: openTransport with its attempts, FlushBuffer
--   Server    mesh/server.go: the state of MeshServer is a record with the registries in it; a
--             handler is a function from a server to a server and an error. Enrollment has
--             ApproveEnrollment, resendJoinAck, RejectEnrollment and handleEnrollmentRequest,
--             Enrollment.Interleaved approvals that take turns, Receive has messageProcessor,
--             handleMessage and the handlers behind it, Liveness the offline detector and the
--             masters' state, Send what the hub sends on its own account, with Send.WellTyped for
--             all frames, Lifecycle has Start and Stop, with Lifecycle.Waiting for the goroutines
--             that Stop waits for, Steps the step relation that puts all of them together
--   Api       mesh/api.go, middleware.go, cors.go and the api_v1_*.go files: a handler is a function
--             from the server and a decoded request to the server and a response. Ids, Nodes,
--             Commands, Zones, Enrollments and Control have the handlers, Access the checks of the
--             keys, Routes all routes as one function; Safety, Unchanged, Registry and Commands.Laws
--             have the laws. Events has the event stream: the handler's loop as a run over what the
--             broker publishes and what the client is sent
--   Metrics   mesh/metrics.go and the calls of it in the server and the middleware, as labelled counts
--   Sim       meshsim: the simulated nodes. Config, Nodes, Frames, Ticks, Handle and Control have the
--             operations, Serve the listener and its connections; Heard, Joining, Capitals and
--             Commands set them against the hub
--   EventStore  eventStore: the writer to Kafka and its statistics; Ensure creates the topics, Calls
--             puts the calls in sequence, Counts, Ready and Backoff have the laws; Mock has the
--             stand-in of mesh/mock_event_store.go, Contract the interface of the two, as the hub
--             uses it
--   Startup   NewMeshServer of mesh/server.go, mesh/masterkey.go, envconfig.go and main.go: Main
--             has main from the flags to the start, Shutdown its end
--   System    the steps of Server, the requests to the API, and the starts and stops, in any order
--   Sidecar   server/sidecar, beside the orchestrator: Secrets, Containers, Recent, Health and Probes
--             have what handlers/ computes, Routes the requests with what Docker answers
--
-- How the code is rendered. Every method holds its registry's lock for its whole body, so it is one
-- step; the server's handlers are steps as well. What another goroutine does between two calls of
-- one handler is modelled in two places: approvals that take turns in
-- Server.Enrollment.Interleaved, and Stop beside the persistence loops, whose saves come in the
-- order that an `Env` gives, and beside a goroutine that it waits for, in Server.Lifecycle.Waiting.
-- A handler that panics sends no response. A Go map is a list of entries in the order that an
-- iteration visits them; Go leaves that order open, and statements are about every list. Numbers
-- are natural numbers, with `% 2 ^ w` written out where the code converts; an int32 is its bit
-- pattern. Times are nanoseconds since Go's zero time. What leaves the hub (frames, Kafka records,
-- saved files) is recorded in the field `effects`, newest first, and an `Env` says what the time
-- is, which writes succeed, and in what order goroutines take their turns.
--
-- Bounds. No function needs fuel but NextFreeNodeID's loop, which counts the 255 rounds of the
-- source, read_frames, which is told how many frames to read, and dial_loop, which counts the 30
-- attempts of the source. The loop that creates topics runs over the list of what its attempts
-- meet.
--
-- Outside the repository, and therefore parameters: the protobuf codec (Serial), uuid.Parse
-- (Commands, Server.Receive), uuid.New, net.ParseMAC and adapter.IsOutput (Api), what the Kafka
-- client and the broker answer (EventStore, Sidecar), os.ReadFile and json.Unmarshal (Sim.Config),
-- json.Marshal of an event (Api.Events), what the network and the serial driver answer
-- (Serial.Transport), the parsed flags (Startup.Main), what Docker answers (Sidecar.Routes), the
-- curve and the random bytes (Startup.MasterKey), strconv.Atoi (Startup.Variables, Sidecar). Of
-- Go's library, decimal digits, hex coding and the part of fmt.Sscanf that MAC addresses use are
-- written out in Mac.
--
-- Not modelled: the http.Server of the API and the matching of its router, the wording of its
-- messages, log lines, waits and tickers, the exposition of the metrics and the histogram's
-- buckets, the binary of the simulator, and the TypeScript clients. File writes are whole, but for
-- the master key's file; a partial write of another is not modelled.
pub mod Base
pub mod Mac
pub mod Protocol
pub mod Builder
pub mod Nodes
pub mod Auth
pub mod Zones
pub mod Commands
pub mod Events
pub mod Serial
pub mod Server
pub mod Api
pub mod Sim
pub mod EventStore
pub mod Startup
pub mod Sidecar
pub mod Metrics
pub mod System
