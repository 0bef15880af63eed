-- ===== src/Lib.antt =====
-- go_redis: a server for a part of the Redis protocol, in Go.
--
-- A connection's bytes are parsed into payloads (resp/parser), each command line is run on the
-- database that the connection has selected (database), whose keys stand in a dictionary
-- (datastruct/dict) and whose KEYS command matches glob patterns (lib/wildcard). Commands that change
-- a database are appended to a file (aof), which is replayed when the server starts; replies and
-- logged lines are written by resp/reply.
--
-- The files:
--   Base        shared types and lemmas: bytes as ℕ, byte strings as lists, indexing, Boolean tests
--   Strconv     strconv.Itoa, FormatInt, ParseUint and ParseInt of Go's library, base ten
--   Reply       resp/reply: a constructor for each reply type, `to_bytes` for the ToBytes methods,
--               `error_text` for the Error methods, `is_err_reply` for IsErrReply
--   Parser      resp/parser/parser.go: Parser/ReadLine is readLine on a buffered reader, `on_message`
--               the body of the loop of parse0 behind it, `parse_stream` the whole goroutine; what
--               goes over the channel is a list, and how the goroutine ends is a value; Parser/Replies
--               is about the bytes of replies, Parser/Torn about input that is cut off
--   Dict        datastruct/dict/sync_dict.go on an association list; Dict/Threads has the operations of
--               goroutines, one access of sync.Map at a time
--   Wildcard    lib/wildcard/wildcard.go: CompilePattern rune by rune and the table of IsMatch row by
--               row; Wildcard/Spec says what a match is, Wildcard/Utf8 decodes a Go string
--   Utils       lib/utils/utils.go and strings.ToLower; Utils/Random: rand_string.go
--   Config      config/config.go: parse on the lines of the file, with the fields of the reflection
--               written out, and the condition of MakeRespHandler in resp/handler
--   Main        main.go and SetupConfig: the properties and the address
--   Database    Db: database/db.go; Strings, Keys: string.go, keys.go and ping.go; Commands: commend.go
--               and DB.Exec; Standalone: standalone_database.go. Workers: the change of the
--               data and AddAof as two steps of a goroutine. Workers/Distinct has any number of clients on
--               keys of their own (Overlay has their changes on top of the file). The other modules of
--               Database are about what the commands do, log and keep
--   Aof         aof/aof.go: AddAof with the results of its writes, LoadAof from the bytes of a file;
--               Aof/System joins it to the databases as NewStandaloneDatabase does; Aof/Crash is about
--               a file of which only the first bytes are left; Aof/Start is the start of the server with a
--               file that may be missing or cannot be opened
--   Handler     resp/handler/handler.go: the loop of Handler over the payloads of one connection, with
--               Connection.Write of resp/connection; what net.Conn does with a write is a parameter;
--               Handler/Connection the other methods
--   Consistenthash  lib/consistenthash/consistenthash.go, with the hash as a parameter
--   Client      resp/client/client.go: `do_request`, `finish_request`, `handle_read` and the other
--               methods, and Client/Pipeline, whose relation `Step` has one step of one goroutine
--   Cluster     cluster/: Relay is cluster_database.go and com.go, Router the router with the commands
--               of del.go, flushdb.go, ping.go, rename.go and select.go, and ClusterDatabase.Exec;
--               Wire and Agreement join the nodes, with Handler, Client and both parsers between them;
--               Pool is client_pool.go
--   Sync        lib/sync: the flag of atomic.Boolean and the counter of wait.Wait
--   Tcp         tcp/server.go with the closing of resp/handler: each connection's goroutine, the loop of
--               Accept and the goroutine that waits for the signal, a step of relation `Step` at a time;
--               Tcp/Late, Tcp/Blocked and Tcp/Drain are about the shutdown, Tcp/Echo is tcp/echo.go
--   Logger      lib/logger/logger.go: the calls of Output and the goroutine of a logger, which share
--               entries by their addresses; Logger/Owner and Logger/Calls have the invariant that
--               Logger/Order uses, Logger/Files is files.go and the file for each date, and Logger/Lines and
--               Logger/Rotation are about the messages in it
--   Tests       concrete inputs
--
-- State. A database is a record with its dictionary; a command is a function from a database and
-- its arguments to an `Effect`: the database behind it, the lines given to addAof, and the reply.
-- `none` is a panic. `Server` holds the databases and the index that the connection has selected;
-- `Aof` holds the bytes of the file and currentDBIndex; `System` holds the databases and the file.
-- In Cluster `State` is a node's own server, what it logs, and the network, whose operations are
-- the record `Peers`. In Client the two channels are lists, `finished` are the requests whose wait
-- is over, and the connection is the record `Net`; the state of either network is any type. In Tcp
-- a connection is the stage of its goroutine and whether it is open. In Logger the heap of entries
-- is a list, and the pool, the channel and the goroutines hold addresses in it.
--
-- Bounds. The parser's rounds are counted by a fuel of one more than the length of the input, since a
-- round that does not end the loop takes a byte. A length that `make` cannot allocate (2^48 bytes) is
-- a panic, as for Go on a 64-bit machine; smaller requests are taken to succeed. A count of arguments
-- has 32 bits and a length 64 bits, as the source asks strconv for. An argument is plain if it is not
-- empty, does not begin with `$` and its bulk is less than that bound; a command is plain if it has a
-- first word, fewer than 2^32 words, and each is plain.
--
-- What is taken as given. `sync.Map.Range` visits in an order that is a parameter; where a count
-- depends on it, that it visits each entry once is a hypothesis. Commands run one after another,
-- except in Dict/Threads, Database/Workers, Tcp and Logger, where goroutines interleave. The pools
-- of connections, the network and the hash of the ring are parameters, as is the order of `range`
-- over a map. A send on a full channel and a receive on an empty one are steps that are not there
-- yet; the clock is left open, and so is what a sync.Pool gives or drops. rand.Shuffle and Intn
-- are parameters, as are the operating system and path.Join for the logger. In Cluster/Wire the
-- network loses nothing, and each request and reply is read to the end of its own bytes.
-- strings.ToLower is modelled on ASCII letters. The dynamic type of DataEntity.Data is either a
-- byte slice or another kind. In Aof/System the writes to the file succeed; AddAof itself is
-- modelled with writes that fail.
--
-- Not modelled. That the address can be listened on, and the channels by which a signal reaches
-- ListenAndServe (tcp, main.go); RemoteAddr of a connection; the time that a wait takes; the
-- layout of a line of Go's own log.Logger; the formatting of fmt behind the logger; the pool of
-- another project that calls cluster/client_pool.go; the methods on the nil database that a start
-- returns whose append-only file cannot be opened.
pub mod Base
pub mod Strconv
pub mod Reply
pub mod Parser
pub mod Dict
pub mod Wildcard
pub mod Utils
pub mod Database
pub mod Aof
pub mod Handler
pub mod Consistenthash
pub mod Config
pub mod Sync
pub mod Tcp
pub mod Logger
pub mod Main
pub mod Client
pub mod Cluster
pub mod Tests
