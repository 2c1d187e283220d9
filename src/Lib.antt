-- ===== src/Lib.antt =====
-- DesKaOne SDK, a library of Go packages for network clients, proxies and databases: a model of its
-- core, with the theorems that make it correct.
--
-- Parts, and how they interact
--   network/network_stream.go     Stream: a growing byte buffer with a position, typed reads and writes
--                                 on it, and Seek. Children: Capacity (the growing loop), Contents (a
--                                 write lays its bytes over the contents), Append, Reads, Seek, Values
--                                 (a value of every type, written and read), Moves and Runs (any
--                                 sequence of calls).
--   the standard net.Conn         Wire: the connection that all network parts use, as data: what the
--                                 peer will send, in which cuts single reads deliver it, how it ends,
--                                 and how much the peer accepts. Exec is a function on it that may fail.
--   network/tcp_client.go         Tcp: a connection with the flag that it is given up.
--   network/http_client.go        Http: requests, headers and redirects. Http.Lines and Http.Body: the
--                                 lines of an answer, and the readers of its body, by length or in
--                                 chunks. Http.Requests and Http.Exchange: the text of a request, and the
--                                 head of the answer on a Tcp client. Http.Client: one exchange with its
--                                 call of Close, and the loop over redirects; Http.Attempts: the loop of Do and
--                                 DoStream. Their children hold what is proved.
--   network/websocket_client.go   WebSocket.Frame: one frame, built and read (Lengths, RoundTrip, Server,
--                                 Consumes). WebSocket.Client: sending, pings, close, and the loop of
--                                 ReadMessage over frames. It uses Tcp for writes, and the frame reader
--                                 on the connection. Children: Ends (the loop ends), Messages (fragments
--                                 are joined), Whole (all that a message may be) and Closing.
--                                 WebSocket.Handshake: the constructor with the opening handshake, whose
--                                 answer the readers of Http.Lines take apart (Accepted).
--                                 WebSocket.Listen: the loops of Listen and StartPing over a client, and
--                                 the JSON messages (Delivered: what the callbacks get).
--   proxy/                        Proxy: kinds of proxies, validated configurations and their printed
--                                 forms; Proxy.Picker: the pickers, as functions of what they keep.
--   network/handler/              Handler.Socks5, Handler.Socks4 and Handler.Connect: the client sides of
--                                 the proxy protocols over a Wire connection, with a Proxy configuration.
--   storage/storage.go            Storage: the padding, the encrypted file with its backup, and the map.
--                                 Saving: what is read back. Panics: when Initialize panics.
--   database/                     Database: the two dialects with their statements (Shapes, Statements).
--                                 Transactions: what the driver promises. Database.Engine and
--                                 Database.Reads: the writes and reads of one table, with Queries and
--                                 Batches; Database.Opening: opening, script files, the
--                                 migrations, and the decisions of the maintenance.
--   database/postgres/            Postgres: migration files, their order, and the run of Migrate over
--                                 the table of what is applied.
--   Shared holds lists, integers, bytes and texts over the native numbers: Go's int as a mathematical
--   integer that is wrapped where the code's sum can leave 64 bits, strings as lists of bytes, and the
--   functions of strings, strconv and base64 that the code uses.
--
-- How code corresponds to definitions
--   A method is the function of its name in snake_case. A pointer receiver is a state that is passed
--   in and returned; `(value, error)` is a Result; a nil pointer is none. A function that only a
--   branch of a method is made into is named for what it does.
--
-- Bounds and fuel
--   The loop that doubles a buffer has 64 rounds: 2 ^ 62 is reached from one byte in 62, so a loop that
--   outlasts them does not end, which is none. The sizes of a stream are taken below 2 ^ 61. The loops of
--   readHeaders, WriteFull and ReadMessage have one round more than there are bytes to read or write,
--   and each round takes at least one byte (so what a peer sends is finite, if as long as you like); so have those over header lines and trailers. io.ReadAll has
--   as many reads as it is given, and the theorems ask for more than the body has bytes. Redirects and
--   attempts are counted as the code counts them. An outcome named `unfinished` stands for no fuel.
--
-- Parameters
--   JSON, of which nothing is assumed, and AES in CBC mode with the storage's key, with what it promises in
--   the record Codec; the
--   parsing of an IPv4 host (net.ParseIP and To4), the sum of a script (SHA-256), path.Join, and
--   whether the server commits a script are arguments of the definitions. The record Http.Exchange.Outside
--   holds what the HTTP client uses: net/url, dialling, the wait between attempts, strconv.Quote, and the
--   decompressors, as functions on states of their own. Database.Engine.DriverOf and
--   Database.Opening.Server hold database/sql, as functions on a state of the database and its transaction;
--   Database.Transactions.Transactional is what it promises of Begin, Rollback and Commit. Masking keys, which
--   crypto/rand draws, are part of a client's state; the random bytes of the handshake, SHA-1, url.Parse
--   and dialling are arguments of it.
--
-- Not modelled
--   Dialling, TLS and the connection to the database server; goroutines, channels and timers: Listen and
--   StartPing are the loops of their goroutines, each run alone, and the end of the context comes between
--   two calls; the Listen of the TCP client, the channels of the stream and the tickers of the
--   maintenance are left out; the typed reads and the exports of the storage; the reconnecting client,
--   the emitter, the debouncer, the logger and the terminal colours; error texts, which are constructors
--   here, but for those that a handler builds from what the proxy sent. The example programs only call
--   the packages.
pub mod Shared
pub mod Stream
pub mod Wire
pub mod Tcp
pub mod Http
pub mod WebSocket
pub mod Proxy
pub mod Handler
pub mod Database
pub mod Postgres
pub mod Storage
