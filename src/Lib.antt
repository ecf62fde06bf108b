-- ===== src/Lib.antt =====
-- A verification library for the parts of the MLS experiments that decide something: which client
-- of a group commits next, what a client does with the messages it receives and the commits it
-- sends, how these travel between clients and the delivery service, and what the service and a
-- client's store keep and hand out.
--
-- The parts and how they interact. Each simulated client (emulated_client/src/user.rs) holds one
-- `Orchestrator` per group (emulated_client/src/orchestrator.rs). After each commit it passes the
-- seed that the group shares, the number of members and the new members to `process_commit`, which
-- tells it to commit, to listen or that it is inactive. Clients exchange messages through a broker
-- or through the delivery service (delivery-service/ds/src/main.rs), an HTTP server whose state is
-- three maps behind locks; the data it stores is declared in delivery-service/ds-lib/src/lib.rs.
-- All paths of this header are below emulated_client/.
--
-- Files. Config: emulated_client/src/config/mod.rs, the enumerations and the parameters, and
-- Config/Settings: how they are read, with config/user_parameters.rs. Rng: the generator `StdRng`,
-- a parameter. Orchestrator: emulated_client/src/orchestrator.rs, with the functions `new`,
-- `process_commit` (cut into `sample_position`, `place`, `place_all`, `reroll`, `elect`, `settle`
-- and `decide`, one for each loop or match of its body), `remove_members` and `process_ack`; its
-- children hold the proofs, by slots, placing, election, the winner, policies, removal and
-- acknowledgements.
-- Agent: emulated_client/src/client_agent/, the actions of an independent agent (Independent), the
-- bodies of the loops over groups in its `run` (Turn: `group_turn`, cut at its `continue`s, and
-- `join_turn`), and the actions and the turn of an orchestrated agent (Orchestrated), over an
-- interface of the methods of `User`; Balance and Commits put an account beside the user, and
-- Display writes an action. Conversation: emulated_client/src/conversation.rs. Identity:
-- emulated_client/src/identity.rs. User: emulated_client/src/user.rs, its records and the libraries
-- that it calls; its children hold the methods by what they do: Members looks up the members of a
-- group, Logs writes the log, Delivery reaches the delivery service, the brokers and the agent,
-- Commits confirms what was sent (`post_process_commit`, `confirm_commit`), Messages and Receive
-- have `process_protocol_message`, Inbox what arrives (`process_in_message`, `fetch_updates`,
-- `process_ack`) and `is_authorised`, Groups and Proposals the actions of a user, and Setup a new
-- user and how it fills the agents' interface. User/Monad has the effects of a method, Blocks how
-- they run, Keeps one rule for each of them, and Frames, Reception and Arrivals what each method
-- leaves alone; Pending, Sent, Inactive, Journal, Acks, Counting and Roster state what follows.
-- Mqtt: emulated_client/src/pubsub/mqtt_updater.rs, the loop of the listener (`step`, `run`), and
-- Mqtt/Parsing: `parse_message` of emulated_client/src/pubsub/mod.rs; Mqtt/Wishes, Mqtt/Deliveries
-- and Mqtt/Counts state what follows. Gossip: the types of
-- emulated_client/src/pubsub/gossipsub_updater.rs, and Gossip/Listener its handlers and its loop
-- (`handle_command`, `on_query`, `step`, `run`); Gossip/Counts, Gossip/Turns and Gossip/Answers
-- count its answers and Gossip/Records takes a record. Broker: Broker/Mqtt and Broker/Gossip are
-- the methods of emulated_client/src/pubsub/mqtt_broker.rs and gossipsub_broker.rs. Network:
-- emulated_client/src/network/networking.rs, and Network/Backend the requests of
-- emulated_client/src/network/backend.rs; Network/Service makes the delivery service what these
-- requests reach, Network/Handled has one lemma for each way a request can go, and Network/EndToEnd
-- and Network/Directory state what follows. Backend and Broker/Gossip fill the interface through
-- which a user reaches key packages and group infos (`as_directory`). DsLib:
-- delivery-service/ds-lib/src/lib.rs, the stored data, `ClientInfo::new` and `consume_kp`;
-- DsLib/Codec its serializers, DsLib/RoundTrips and DsLib/Sizes what is read back and how long it
-- is. Ds: delivery-service/ds/src/main.rs, the state `DsData` and the loops of the handlers;
-- Ds/Handlers and Ds/Queues have one function per handler, from a state and the parts of a request
-- to a state and a response, and Ds/Requests the routes and lists of requests. Ds/Rules has one
-- rule for each way a handler can return early, and Ds/Copies looks at the loops over recipients.
-- Storage: emulated_client/src/provider/null_storage_provider.rs, the labels, the keys and the
-- helpers of the store; Storage/Provider and Storage/Queues are the operations that OpenMLS calls,
-- on one entry and on lists, and Storage/Keys, Storage/Proposals and Storage/Epochs state what
-- follows. Base: lists, maps and outcomes.
--
-- State. A method of the user takes its state to a new one and a result, and what it has changed
-- stays when it ends in an error. A handler that mutates takes the old state to the new one. A lock
-- carries a flag that says whether a panic has poisoned it. Handlers that run at the same time
-- serialise on the locks, so that a history of the service is a list of requests. A `HashMap` is an
-- association list; the order in which Rust iterates over it is the order of the list, and theorems
-- hold for each order.
--
-- Bounds and fuel. Numbers are natural numbers: the source counts list elements with `usize` and
-- compares epochs of 64 bits, to which a user adds one at a time. Two loops have no bound. `reroll`
-- runs the `while` in `process_commit` on fuel, and says `spins` when the fuel is used up;
-- `act_loop` so runs the inner loop of an orchestrated agent, which ends only if its user accepts a
-- commit. What fuel is enough for `reroll` depends on the draws, so that it is stated under a
-- condition on the draws of the one run, `DrawsAll`: from where the placing leaves the generator of
-- the seed, each candidate's slot is drawn at some time. An `i64` of the settings has a sign and no
-- bound, and `as usize` wraps it at 64 bits. `trim_start_matches` of the listener has the length of
-- the text as fuel, and each turn takes the prefix off it.
--
-- Parameters. The numbers `f64` (`F64`); the draws of the thread's generator (`ThreadRng`); the
-- generator of the election, with the documented bounds of `gen_range`; the types of OpenMLS and
-- what the service reads of them (`Mls`); what the user calls of OpenMLS, the clock, the profiler
-- and the connections (`Library`); the client of MQTT (`Client`); the encodings that the service
-- calls (`Wire`), and the codecs of `tls_codec` and of the types of OpenMLS (`Tls`, with `TlsLaws`
-- and `SizeLaws`); URLs and `base64` (`Web`), the HTTP client (`Http`) and the HTTP server (`Site`,
-- with `SiteLaws`, on names that are not empty and queries with the plain name of a user); the
-- swarm of `libp2p` (`Swarm`); the queues to the listeners (`Connection`, `Queue`); `serde_json`
-- (`Format`, `Json`). The tests instantiate each of them.
--
-- Not modelled. The start and the outer loop of an agent's `run`. OpenMLS and the crates beside it,
-- which the program uses as a library; the command line; how the gossipsub swarm is configured; the
-- transports; the input and output of files, and log lines (with logging at the level of debug,
-- `msg_recv` also panics on an identity that is no UTF-8, which is left out with the log line).
pub mod Base
pub mod Config
pub mod Rng
pub mod Orchestrator
pub mod Agent
pub mod Conversation
pub mod Identity
pub mod User
pub mod Mqtt
pub mod DsLib
pub mod Ds
pub mod Broker
pub mod Gossip
pub mod Network
pub mod Storage
