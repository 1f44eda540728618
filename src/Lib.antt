-- ===== src/Lib.antt =====
-- Verification of BUS, a local message bus.
--
-- A daemon (crates/busd) accepts peers on a Unix socket, decodes the frames that they send with the
-- codec of crates/bus-protocol, and applies them to one broker, crates/bus-broker, which asks a policy
-- of crates/bus-policy what a peer may do and answers with events: messages to deliver and outcomes
-- to report. The broker and the codec do no input or output, and are modelled whole. Applications use
-- the client library, crates/bus-client.
--
-- Prelude, Action, Order, Map: helpers. Action is code that changes a state and may fail. Map is Rust's BTreeMap as an association list in key order, and
-- BTreeSet as a list in order; Order is the order of their keys. Strings has
-- the methods of str that the repository uses.
--
-- Protocol (crates/bus-protocol/src/lib.rs). Types has the identities, enumerations and frames;
-- Names the parsing of names; Options and Tags the checks and one-byte tags that both codecs share;
-- Writer and Encode the push_ functions, `encode_body` and `encode_with_limits`; Reader and Decode
-- the Reader and `decode_with_limits`. A writer returns the bytes that it appends; the state of a
-- reader is the bytes from its position on. Limits says what Rust's types already promise of a frame.
-- RoundTrip has the proofs about the two codecs together: one rule for each way to compose writers
-- and readers (Rules), then fields, frames and packets. Accepts is about the header of a packet.
--
-- Policy (crates/bus-policy/src/lib.rs). The credentials, actions and requests, and the policies
-- AllowAll and SafeDefaults. A policy is any function from requests to Bool. Config has
-- `validate_config` and the ConfigPolicy, Parse `Config::parse`; Decision describes what a
-- configuration decides, Files what a policy file says line by line, Lines, Significant and Errors are
-- about its lines.
--
-- Broker (crates/bus-broker/src/lib.rs). Types has the state, one record, and the errors and events.
-- A method is a function from the state to a result and a state (Exec): what it wrote before an error
-- stays written. Session has `connect_session`, `authorize` and `record_monitor`; Registry `claim`,
-- `subscribe_with_filters`, `unsubscribe` and `register_dbus_name`; Routing `route`; Delivery and
-- Responses `begin_delivery` and `complete_response`; Acknowledge `acknowledge`; Tick `tick`;
-- Disconnect `remove_peer` and `disconnect_with_events`; Views the queries; Checks, Reliability and
-- Labels the free functions. Steps makes the calls the steps of a transition system. Invariant has
-- the invariant of its states, with one child for each group of methods. The other modules are named
-- for what they are about: Admission, Release, Deadlines, Backoff, Refusals, Ownership, Quotas,
-- Recipients, Dispatch, Confirmations and Answers. Scenario and Examples run the broker at concrete
-- values.
--
-- Client (crates/bus-client/src/lib.rs). Dedup has the DeduplicationCache by which a receiver drops
-- messages that a retry delivers again; Cache and Window are about what it remembers. Transport has
-- the errors, the options and the interface of the native transport, over any state of the other
-- side; Bus the methods of `Bus`, Request the messages and the loop of `request`, Reconnect the
-- `ReconnectingBus`. Log records the calls of the transport; Controls, Greeting, Await, Misread, Replay
-- and Restore are about them.
--
-- Daemon (crates/busd/src/main.rs). Codes has `broker_error_code` and `codec_error_code`; Events
-- `dispatch_delivery_events`; Session the body of the loop of `dispatch_session`, split where the
-- broker's lock is released: `handle` calls the broker and says what is left to do, `perform` does it;
-- Serve `dispatch_session` and `serve_peer` as one thread runs them alone. System has the threads of
-- all connections and the scheduler in any interleaving: the state of each is a phase between two
-- points where others can run, and a move takes one thread to its next phase (the sends of one event are one
-- move, and so is the refusal of a client with its answer). Transport (the module at
-- the root) has the errors of I/O, the packets sent so far, and what the kernel answers to `send` and
-- `dup`, which is a parameter that may depend on all that was sent. Control and Calls put a client of
-- the Client modules and the daemon on the two sides of a socket. Requests, Delivery, Oversize and
-- Teardown are about the daemon alone; Examples and Exchanges run it at concrete values.
--
-- Command, in Daemon, is the command line (`parse_command`), Start the policy that it asks for, and
-- Identity `credentials_from_peer`. Authority is about a policy that is loaded from a file.
--
-- Native (crates/bus-transport-unix/src/lib.rs): packets with file descriptors, their control data,
-- and (Sockets) addresses and peer credentials. What the system calls answer is a parameter. The machine's
-- integers are little-endian and usize has eight bytes; a sum that exceeds it is an error of the
-- model, where a build that checks arithmetic panics. Parcels has the proofs about descriptors.
--
-- Dbus (crates/bus-transport-dbus/src/lib.rs): the validation of names.
--
-- Numbers are natural numbers. A u64 counter saturates or is checked where the code does so, against
-- `u64_max`; usize is taken to be as wide. The attempts of a delivery, a u8, wrap around. Text is its
-- bytes in UTF-8. On fuel are only these: the decimal printing
-- of numbers, with twenty digits, as many as a u64 has, and the loop of `request` of the client, for
-- which as many rounds as packets arrive and one more are enough. `trim` and `trim_start_matches` take off at most as many
-- characters as the text has bytes; the loop over control data
-- runs at most once for each byte. All other loops are over lists or
-- down from a count. A session's input is the list of what it receives, at the end of which the client
-- has closed the connection.
--
-- Not modelled: accept, shutdown and dup (bus-transport-unix), which are one system call each; the
-- D-Bus connection (bus-transport-dbus), which calls zbus; the health check and the listener's loop
-- (busd), logging, and locks poisoned by a panic. The files below /proc and a policy file are
-- parameters. Memory is not bounded in the model.
pub mod Prelude
pub mod Action
pub mod Order
pub mod Map
pub mod Protocol
pub mod Strings
pub mod Policy
pub mod Broker
pub mod Transport
pub mod Client
pub mod Daemon
pub mod Dbus
pub mod Native
