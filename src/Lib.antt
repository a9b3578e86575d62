-- ===== src/Lib.antt =====
-- Models of the client SDK, of its state machines, transports and stores, with what makes them correct.
--
-- The program. A client talks to a home node over transports. `src/pool/UplinkPool.js` keeps one
-- connection per uplink, with an active one, warm spares, failover and reconnects;
-- `src/connection/ConnectionStateMachine.js` drives a single transport through connecting and
-- authenticating, with a backoff; `src/inbox/InboxClaimStore.js` keeps the signed claims of the
-- client's inboxes, in memory and in a key-value store; `src/peer-link/PeerLinkStateMachine.js` is the
-- life cycle of a link to a peer, `src/peer-link/createKeyValueBackedPeerLinkStorage.js` keeps the
-- links, sessions, handshakes, events and keys, and `src/peer-link/DevicePeerSessions.js` one session
-- for each device of a peer over it; `src/relay/RelayContractFloorStore.js` and
-- `src/relay/DowngradePolicy.js` remember the highest contract a relay was seen with, and refuse a
-- downgrade; `src/auth/AuthStateMachine.js` is the challenge-response handshake, as an account or as a
-- claimant of an inbox; `src/transport/WsTransport.js` and `src/transport/TcpTransport.js` send requests
-- and match their answers; `src/filetransfer/FileTransferService.js` sends a file in chunks, and makes the
-- file of the chunks that come in; `src/e2ee/SecureChannelManager.js` encrypts and decrypts payloads over
-- ratchet sessions; `src/device-link/DeviceLinkRequester.js` is the new device's half of linking it. The connection machine and the pool call the auth machine and the
-- transports, and report to the event bus; the auth machine asks the policy before it authenticates as
-- an account, and records the floor afterwards.
--
-- The files.
--   Common: names of the libraries, lists, JavaScript's `trim` and values, maps by insertion order.
--   PeerLink: `Lifecycle` is `PEER_LINK_STATE`, the table and its checks; `Graph` reads the table as a
--     step relation. `Storage` has the five stores, with their keys as texts: `Base` what they share,
--     `Distinct` why keys do not meet, `Reading` what is read back. `Devices` is `DevicePeerSessions`.
--   Relay: `Floor` is the floor store over memory or a backing; `Policy` is `permitsAccountModeAuth`.
--   Auth: `Principal` has the identities and the payloads, `Setup` the constructor, `Handshake` is
--     `authenticate` in both modes: one definition, in which the principal decides what is signed.
--   Connection: `Machine` is `ConnectionStateMachine`. Every `await` ends a step, so that calls, the
--     timer and the transport interleave: `handle` in `Steps` is one step, and the calls of `connect` that wait
--     stand in `runs`.
--   Pool: `State` holds the fields and small steps, `Connect` is `#ensureConnected`, `#runConnect` and
--     `#ensureWarmSpareTarget`, `Failover` the promotion of spares and the reconnects, `Requests` is
--     `sendRequest`, `History` any sequence of operations.
--   Inbox: `Claim` is `#normalizeStored` and the rows of `#persistAll`, `Store` the operations.
--   Events: `Bus` is `src/events/TypedEventBus.js`; the code of a handler is a sequence of calls that
--     stand between the steps of the emission that called it.
--   Metrics: `src/observability/MetricsCollector.js`, over natural numbers.
--   Transport: `Requests` is the pending table that both transports share, `Framing` the frames on a byte
--     stream; `Ws` and `Tcp` have the transport's state with its calls and events (`Socket`, and
--     `Inbound` for `#onRawFrame`), as steps that the environment chooses in any order.
--   FileTransfer: the service, with its sessions and buffers; `RoundTrip` is a file that is sent and
--     received, `Duplicate` a chunk that comes twice.
--   E2ee: `Base` is what the secure channel asks of the core library, `Sessions` how sessions are made,
--     `Channel` is `encryptPayload` and `decryptPayload`; `Sync` has both ends, `Failure` what throws.
--   DeviceLink: `Requester` is `runDeviceLinkRequester` as what it does and how it ends; `Confirmed` and
--     `Timeout` what that shows.
--   Tests: runs on concrete inputs, and the theorems applied to them.
--
-- What is outside. For the pool, the answers of transports, the auth machine and the hooks are a
-- `World`, which says how each question is answered in turn; for the handshake, the node is a `Node`,
-- whose answers may depend on all that it is sent, and WebCrypto with the binding check of relay
-- identities is a `Crypto`; `RCapability` of @rezprotocol/core is a parameter that writes
-- and reads JSON; the key-value store under the peer links is a parameter with `get`, `set` and `delete`,
-- and the ratchet, X3DH and the packet codec of the core library are a record of functions, as are its
-- chunker, hash and session records under the file transfer, and its X3DH, ratchet, codec and session
-- table under the secure channel; the transports' sockets and timers are
-- events, and their frame codec is a function; the backing of the floors is a parameter with `get` and
-- `set`; what a write of the key-value store of the inboxes does, and the keys, signatures and times of
-- a re-mint, are arguments.
--
-- Bounds. Numbers are natural numbers where the code holds counters and times (they differ from its
-- doubles from 2^53 on); loops over lists need no fuel. The loop of `#onData` takes the length of the buffer as fuel: each round takes four bytes
-- or more, and the loop is proved to end by its own test. Values that callers hand in are JavaScript
-- values: a whole number, a half (which stands for any fraction), an infinity, NaN, a text, and so on;
-- `Number(text)` is modelled for decimal digits, and any other text that is no blank counts as NaN. `Math.random()` is
-- `r / 2^53`, and a delay is kept in units of 2^-53 milliseconds.
--
-- Not modelled. In the pool and the inbox store an operation runs to its end before the next one
-- begins, so that the promises which join calls do not occur, and no transport reports a change in the
-- middle of an operation. The inbound frames of the pool (flood gate, duplicates, warnings) and the
-- signed payloads of the inbox store (`createClaim`, `createReattestation`, `createTerminalClose`,
-- `createNodeDelegation`) are left out, as are the reasons inside the events of the connection machine,
-- and the client version and the extra fields of an account's hello.
-- In the transports, what a listener calls while it runs comes as a later call. In the peer-link stores
-- the key-value store does not fail, and a call is one step; an update of a link also stands as the steps
-- between its awaits (`Steps` of `Links`). The file transfer leaves out what the progress listener is told.
-- The requester of a device link is asked one question for all that comes before its first record, and
-- its sleeps have no length.
-- The other parts of the SDK (peer-link service, capabilities, client, the approver of device links, the
-- browser's crypto provider, storage backends) are not modelled.
pub mod Common
pub mod PeerLink
pub mod Relay
pub mod Metrics
pub mod Events
pub mod Auth
pub mod Transport
pub mod FileTransfer
pub mod E2ee
pub mod DeviceLink
pub mod Connection
pub mod Pool
pub mod Inbox
mod Tests
