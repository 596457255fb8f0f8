-- ===== src/Lib.antt =====
-- A replicated key-value store on top of the OmniPaxos library. It is a server that proposes the
-- commands of its clients to the library's replicated log, executes the log's decided entries on an
-- in-memory map, answers the clients, and saves the map to a snapshot file; and a client that turns
-- HTTP calls into requests to one server. A server's main loop (run_step) hands the cluster's messages
-- to the library, applies what is decided (handle_decided_entries, Database.handle_command), answers
-- through Network.send_to_client and saves with Database.save_snapshot; start signals go from the leader
-- to the other servers and from each server to its clients.
--
-- Parts and files:
--   Base       Boolean tests, lists, wrap-around addition, hash maps as association lists, decimals.
--   Common     src/common.rs. Kv and Messages hold its types; Snapshot is KVSnapshot (create, merge),
--              with what create collects (Snapshot/Create) and what merge does (Snapshot/Merge). Spec is
--              not code: it is the sequential store that the replicas stand for (apply, respond, replay).
--              Framing is the module utils: how a TCP stream is framed into messages. Tasks is what the
--              reader and writer tasks of both programs run on, and the writer that two of them share.
--              Connection is a connection with its channel and its two tasks, on any sequence of sends and
--              turns. Output is how both write a text to a file, Settings how both read their configuration.
--   Server     Database is src/server/database.rs: handle_command, save_snapshot, recover. Its proofs are
--              in Database/Commands and Database/Recovery. Configs is src/server/configs.rs. Network is
--              src/server/network.rs: the peer slots and the client table; its proofs are in
--              Network/Peers, Network/Clients, Network/Topology and Network/Startup. Connections holds the
--              tasks of that file: the readers, the writers, the registration, and the loops that listen
--              and dial. In the tables of Network an outbox holds what a writer takes.
--              Node and Node/Handlers are src/server/server.rs: one function per method, and run_step and
--              establish_step for a round of the two event loops. Node/Agreement states what is relied
--              on of the OmniPaxos library, Node/Invariant the invariant of a server with its files, and
--              Node/Run the relation of a server's life, with kills and restarts. Node/Calls holds the
--              handlers that cannot panic, Node/Panics why a run panics. Node/Durable is about
--              what is on disk after a save that succeeds, Node/Program about run as a whole, and Node/Told
--              about what clients are sent, by each handler and by the whole loop. Main is
--              src/server/main.rs, with OmniPaxosServer::new and Network::new from the configuration on.
--   Client     src/client. Data is src/client/data_collection.rs, Configs src/client/configs.rs, Network
--              src/client/network.rs with its proofs in Network/Slots and Network/Connect, and with its
--              tasks in Connections. ShimClient is src/client/test_client.rs: run_step is a round of its
--              loop, on calls of the HTTP shim, messages of the server and the idle timer. Its invariant
--              is in ShimClient/Soundness, ShimClient/Run is the relation of its life, ShimClient/Program
--              run as a whole, and ShimClient/Waiting and ShimClient/Matching say which response answers
--              a call; ShimClient/Automatic holds the two functions that nothing calls. Shim is
--              src/client/shim.rs: the handlers, and in Shim/Service the handlers beside the client, one
--              event at a time. Shim/Served is the invariant of that, Shim/Replies says what requests are
--              told. Main is src/client/main.rs. LoadClient is src/client/client.rs, with its whole run
--              in LoadClient/Program; Results is how it saves what it has measured. Api is
--              src/client/api.rs: the line protocol and the connections that serve it.
--   Link       The two programs together: a writer task of one end, the frames on the stream, and the
--              reader task of the other end (Delivery), the requests of a client up to what its server
--              proposes (Requests), a call up to that (Asked), a call from the log of the servers to its
--              caller (Answers) and on to the HTTP response (Http), and what one server sends to another
--              (Peers).
--
-- How code and model correspond: a struct is a record with the fields' names; a method is a function with
-- the method's name from the old state to the new one; a panic is the result none. Log output is left
-- out. Machine words wrap at 2 ^ 64 (wrapping_add), as in a release build. A tokio channel is the list of
-- what was sent and whether its receiver lives; what a task reads from the network is an argument. A
-- channel to a reader's receiver (Inbox) takes a number of messages, or any number, and then its receiver
-- is dropped. A TCP stream is the list of reads that it yields, each with the frames that it completes.
-- A file system is a function from paths to contents, and save_snapshot is the list of the states that
-- it passes through, each of its calls failing or not as an argument says, so that a crash can be
-- placed at each of them.
--
-- Parameters: the OmniPaxos library is the record OmniPaxos (Server.Node). Library holds what it does on
-- any messages of the cluster: appends are accepted, and reading a decided suffix returns entries.
-- Agreement holds what it does while the log is not replaced by a snapshot: decided entries are a prefix
-- of one log that only grows, and reading a decided suffix returns the commands of that part of it. A
-- genuine event of a server, where Agreement is assumed, brings messages of nodes of the cluster that
-- bring no snapshot in place of entries; Node/Panics is about all messages. serde_json is the record
-- Json, and JsonLaws says that it reads back what it wrote. Bincode with its length-delimited frames is
-- the record Bincode, and ReadsBack says of it that it reads back what it wrote. Address resolution is a
-- function argument, and so is the config crate (Loader).
--
-- Loops run over the lists of what arrives. The client's loop of attempts to reconnect runs over a list of
-- attempts, and says whether one of them succeeded. Fuel is used for the digits of a decimal number only:
-- one more than the number, which has fewer digits. Of tokio's interval it is relied on that a period of
-- nothing is a panic.
--
-- Not modelled: what bincode and serde make of a message, how tasks are scheduled, what the config
-- crate makes of files and environment variables, how axum matches a call with a route and extracts its
-- parts, and the programs in other languages.

mod Base
pub mod Common
pub mod Server
pub mod Client
pub mod Link
