-- ===== src/Lib.antt =====
-- Peer-to-peer file sharing between two browsers, with a signaling server that pairs them
-- (client/src, server/src and shared/src, in TypeScript).
--
-- A sender creates a session at the signaling server and gets a session id, a token and a pairing
-- code; a receiver joins with them, and the server relays WebRTC offers, answers and candidates
-- between the two. The file's bytes then go over a data channel from browser to browser: a pump
-- reads the file chunk by chunk, hashes and perhaps encrypts it and puts it on the channel; a
-- receiver decrypts each chunk, writes it to a sink and hashes it, and at the end both digests are
-- compared. When the connection breaks, the receiver asks for the rest.
--
-- Base and its children hold what all modules share: strings as lists of UTF-16 units (Keys),
-- lists over native numbers (Lists), Boolean tests (Tests), and a JavaScript `Map` as a list of
-- entries in insertion order (Dict).
--
-- Shared/Constants: shared/src/constants.ts.
-- Transfer/ChunkSize: client/src/services/transfer/chunkSize.ts and the number of chunks that
--   SenderSession.start derives from it.
-- Transfer/StateMachine: client/src/services/transfer/stateMachine.ts; Paths has its walks.
-- Transfer/Crypto: client/src/services/crypto. The hash and the cipher are the record `Crypto`, a
--   parameter: hashing in pieces is hashing the whole, hexadecimal digits decode to the bytes, and
--   decryption undoes encryption under one key and IV. Iv has ivForChunk.
-- Transfer/Pump: client/src/services/transfer/chunkPump.ts. The loop is a state machine over its
--   `await` points, and `run` folds it over a list of events: turns of the loop, calls of pause,
--   resume and cancel, and the channel's `bufferedamountlow`. No fuel is needed: a run is as long
--   as its events, and Finish counts the turns that are enough.
-- Transfer/Sink: client/src/services/storage/fileWriter.ts and the chunk repository of db.ts. The
--   browser's file stream is a parameter; IndexedDB is a map from file and index to bytes, with its
--   cursors as a parameter. The loop of deleteAllForFile gets a round for each record, and Deleted
--   shows that it ends by its own test. A sink is one that rejects no write at the end of a file.
-- Transfer/ChunkReceiver: client/src/services/transfer/chunkReceiver.ts. The loop of
--   resumeFromChunk gets one round more than there are received chunks, and Resume shows by the
--   pigeonhole principle that it ends by its own test.
-- Transfer/Delivery: the file channel, from SenderSession.sendFile to
--   ReceiverSession.handleFileChannelData, and the theorems from end to end (Whole).
-- Server/RateLimiter: server/src/security/rateLimiter.ts; Window compares it with the history of
--   its calls.
-- Shared/Json: the values of JSON.parse, and reading a property of one.
-- Shared/Schemas: the payloads of shared/src/schemas.ts that the server reads.
-- Server/Ids: server/src/utils/id.ts, over given random bytes.
-- Server/Sessions: server/src/sessions/sessionManager.ts. `createSession` draws until an id and a
--   code are free; `draw_free` follows it for a given number of draws, and Created shows that it
--   ends with the first free one among them. Consistent has the invariant of the two maps, Found
--   what lookups find, Swept what a sweep leaves.
-- Server/Handlers: the handlers of server/src/signaling/relay.ts. Agreement shows that they keep
--   the invariant, Scope whom relayed messages reach, Admission who may join.
-- Server/Relay: the guards before the handlers and the events of the server; Reachable has what
--   holds after any of them. A session object that the source changes in place is the entry of its
--   id in the map.
-- Client/Signaling: client/src/services/signaling/SignalingClient.ts as a state machine with the
--   actions of each step; Attempts bounds its reconnections, and Listeners has who hears which
--   messages.
-- Client/TransferStore: client/src/stores/useTransferStore.ts.
-- Client/Storage: the history and the checkpoints of client/src/services/storage/db.ts.
-- Server/Origin: server/src/security/origin.ts and clientIpFor of the relay.
-- Shared/FileNames: sanitizeFileName and the metadata schema of shared/src/schemas.ts; a regular
--   expression is a function over the units.
-- Client/QrPayload: client/src/services/qr/qrPayload.ts; RoundTrip reads a built payload back.
-- Transfer/ControlProtocol: the messages of the data channels, shared/src/types.ts, and
--   client/src/services/transfer/controlProtocol.ts.
-- Transfer/Receiver: client/src/services/transfer/ReceiverSession.ts. Handlers has the signaling
--   and connection handlers, Messages the offer and its answer, Files the chunks, the end of a file
--   and of a session, and Steps the events; Kept says once what the steps
--   keep, for the invariants of Once (with Tally) and GiveUp; Verdict and Whole follow one file.
-- Transfer/Sender: client/src/services/transfer/SenderSession.ts. Handlers, Connection and Loop have
--   its operations and Steps the events; Kept says once what the steps keep, for
--   the invariants of Attempts and Complete (Orderly has the one of Complete), and Planned has what
--   is made of the queue.
--   In both sessions a method that awaits ends there, and what follows is a step of its own; what a
--   step does to the outside is a list of effects. Connections, pumps and timers are numbered.
-- Client/PeerConnection: client/src/services/webrtc/PeerConnectionManager.ts; Candidates follows
--   the ICE candidates of the other side.
-- Client/ConnectionStore, Client/SettingsStore, Client/SessionStore, Client/HistoryStore: the
--   stores of client/src/stores; HistoryStore stands on the repository of Client/Storage.
-- Shared/Offers: the schema of an offer and the offer's JSON; RoundTrip reads it back.
-- Transfer/Speed: client/src/utils/rollingAverage.ts. Speeds are exact fractions here, where the
--   code rounds to floating point; Window follows the history of its calls.
-- Server/Startup: server/src/server.ts, its upgrade, heartbeat and sweep; Heartbeat follows a socket
--   from one round to the next.
-- Transfer/Crypto/Hash: sha256HexOfBlob of client/src/services/crypto/hash.ts, with a round of its
--   loop for each byte at most, which a positive chunk size makes enough.
--
-- Tests has runs at concrete inputs, and shows that the hypotheses of the results can hold.
--
-- Numbers are exact naturals: sizes and times of the program are far below 2 ^ 53. A rejected
-- promise or a thrown error is a `none` or a result of its own.
--
-- Not modelled: the user interface, the WebRTC and WebSocket objects themselves, the clocks behind
-- the timers, logging, listening and shutdown, and the speeds and times that the
-- sessions' handlers read from their trackers, which are values given from outside.
pub mod Base
pub mod Client
pub mod Shared
pub mod Server
pub mod Transfer
pub mod Tests
