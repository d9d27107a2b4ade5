-- ===== src/Lib.antt =====
-- orgsync: an offline-first, peer-to-peer replicated SQLite for an organisation. This library models
-- the Rust core, from rust/p2p-core/src, the seed server, from rust/seed-server/src, and what the
-- terminal and mobile clients add to the core, and states why they are correct.
--
-- How the parts interact: a local write is captured by triggers and turned into signed change
-- records, stamped by a hybrid logical clock. Changes travel between devices by push, gossip and
-- anti-entropy. A receiving replica stores each change, resolves last-writer-wins for each cell and
-- rebuilds the app's rows. The seed server holds the organisation's key: it redeems invites for device
-- certificates and publishes the list of revoked ones, by which devices trust each other offline.
--
-- Which file models what:
--   Base        shared names; total orders, tables with a primary key, sorting, the winner of a log, and
--               decimal numbers as the code prints and parses them (Base.Decimal)
--   Error       rust/p2p-core/src/error.rs: the variants, without their texts
--   Crypto      what is used of libp2p, ed25519, blake3 and hex: an interface, with its documented laws
--   Hlc         rust/p2p-core/src/hlc.rs: `Hlc`, `to_hex`, `from_hex`, `tick`, `observe`
--   Value       rust/p2p-core/src/db/value.rs: `SqlValue`, `to_storage`, `from_storage`
--   Change      rust/p2p-core/src/db/change.rs: records, signing bytes, version vector
--   Db          rust/p2p-core/src/db/mod.rs and db/schema.rs: the tables (Db.Tables), `materialize`
--               (Db.Materialize), `apply_remote` (Db.Apply), convergence (Db.Converge), `version_vector`
--               and `changes_since` (Db.Sync), `flush_local` (Db.Local), `unbroadcast_local` and
--               `mark_broadcast` (Db.Outbox), `open_authenticated` and `register_table` (Db.Open)
--   Identity    rust/p2p-core/src/identity.rs: roles and keys, `RevocationList` (Identity.Crl),
--               `DeviceCert` (Identity.Cert), proofs of possession (Identity.Proof)
--   Enroll      rust/p2p-core/src/enroll.rs: codes, requests, `accept`, `validate`, `merge_crl`;
--               `save` and `load` (Enroll.Saved)
--   Seed        rust/seed-server/src/store.rs: the tables and their operations, codes (Seed.Token), the
--               server over time (Seed.Run), and the handler of rust/seed-server/src/http.rs that a
--               device joins by (Seed.Joining); rust/seed-server/src/main.rs: the commands, the announced
--               addresses and the server's own enrolment (Seed.Main)
--   Node        rust/p2p-core/src/net/node.rs and net/proto.rs: `Runtime`, the trust gate `accept_peer`,
--               and the handlers; events over time (Node.Gate), `flush_and_push` and `broadcast`
--               (Node.Broadcast), the peer table and `spawn` (Node.Peers), what is saved of a hello
--               (Node.Saving)
--   Http        rust/seed-server/src/http.rs: `token_matches`; the handlers (Http.Handlers) and requests
--               over time (Http.Handlers.Serve)
--   Cli         rust/p2p-cli/src/main.rs: printing, `print_new_messages`, `enroll` and `run` up to the node
--               (Cli.Peer)
--   Mobile      rust/p2p-mobile/src/lib.rs: `P2pClient` with its calls, and values as JSON (Mobile.Json)
--   Tests       runs on concrete inputs
--
-- Conventions: a Rust string is the list of its UTF-8 bytes, an i64 its two's complement pattern and
-- an f64 its bit pattern. A method returns the new state with its result. The readings of the system
-- clock are an arbitrary sequence, so it may jump. The app's own tables are an interface, since SQLite
-- runs statements on tables that the app has laid out. Where the model asks for a signature check it
-- calls the interface, and serde_json is one too. What SQLite does with a statement of the app and
-- whether libp2p can build its swarm are arguments, and an effect `try_publish` is the attempt to
-- publish, of which the source only logs a failure. The loops are structural recursions on the lists they
-- walk; the binary search of a revocation list has the length of the
-- list as its fuel, which is enough because each round but the last shortens the slice. A list is cut
-- into pieces with its length as fuel, since no piece is empty, and a number is printed with twenty
-- digits, which 64 bits do not exceed. A sequence number is an i64 of SQLite: what is said of the
-- outbox is said below 2 ^ 63 rows.
--
-- Not modelled: failures of SQLite on the replication tables, a statement of the app that opens a
-- transaction or attaches a database, the mutexes (each method is one transaction), the texts of errors, logging, the serde codecs, what the node does about addresses and
-- discovery, its status report, the parsing of command lines, the HTTP
-- calls of the clients, and the mobile app.
pub mod Base
pub mod Hlc
pub mod Identity
pub mod Enroll
pub mod Seed
pub mod Node
pub mod Http
pub mod Cli
pub mod Mobile
pub mod Error
pub mod Crypto
pub mod Value
pub mod Change
pub mod Db
mod Tests
