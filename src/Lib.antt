-- ===== src/Lib.antt =====
-- A verification library for open-snell, a Go client and server of the Snell proxy protocol.
--
-- The program. A client listens for SOCKS5 (components/socks5), opens a connection to the server,
-- dresses it as TLS or HTTP (components/simple-obfs), encrypts it in chunks (components/aead), and
-- sends a request header with the target (components/snell). The server undoes each layer, dials the
-- target and relays. In protocol version 2 a session ends with an empty chunk, and the connection
-- serves the next session.
--
-- The files, with the code that each is about:
--   Base, Base/*       names of the libraries, tests on numbers, lists, bytes and 16-bit fields
--   Io, Io/*           what the code uses of Go's io and net: a connection as the bytes to come, the
--                      error behind them, the cuts and faults of the network, and the bytes sent;
--                      Read, io.ReadFull and Write as a state and error monad with panics
--   Socks5/Defs        components/socks5/protocol.go: SplitAddr and ReadAddr
--   Socks5/Text        ParseAddr, Addr.String, ParseAddrToSocksAddr, Addr.UDPAddr
--   Socks5/Packet      DecodeUDPPacket, EncodeUDPPacket;  Socks5/Handshake  both handshakes
--   Socks5/Listener    components/socks5/server.go;  Socks5/Closing  Close of both listeners
--   Socks5/Streams, Decode, Parse, Meet, Listening: proofs about these
--   Aead/Nonce         components/aead/stream.go: increment;  Aead/Writer  writer;  Aead/Reader  reader
--   Aead/Cipher        components/aead/cipher.go;  Aead/Stream  streamConn of stream.go, with its
--                      salts, its lazy reader and writer, and the switch of the cipher
--   Aead/Counter, Frames, Sealing, Opening, Plain, RoundTrip, Pending, FirstRead, Negotiate: proofs about
--                      these
--   Tls/Block, Hello, Writing, Client, Server: components/simple-obfs/tls
--   Tls/Records, Shape, ServerFlow, ClientFlow, Sending: proofs about these
--   Http/Types         components/simple-obfs/http: what both ends keep;  Http/Client, Http/Server
--   Http/Taps, Meets, Answers: proofs about these
--   Snell/Defs         components/snell/common.go;  Snell/Header  WriteHeader (client.go) and
--                      SnellServer.ServerHandshake (server.go);  Snell/Session  clientSession.Read
--                      (client.go) and SnellServer.writeError (server.go)
--   Snell/Connect, Reply: proofs about these
--   Udp/Request        components/snell/server.go: a packet in handleUDPRequest;  Udp/Forward  its
--                      loop with the cache of addresses;  Udp/Ingress  handleUDPIngress's replies
--   Udp/Formats, Cached: proofs about these
--   Relay/Steps        components/utils/relay.go, as a step relation
--   Relay/Linked, Outcome, Ends: proofs about it
--   Mux/Link           a connection cut at its zero chunks, and the loops over it that both ends have
--   Mux/Server         SnellServer.handleSnell (components/snell/server.go)
--   Mux/Client         SnellClient's handling of a session (components/snell/client.go)
--   Mux/Drains, Visits, Serving, Takes, Halts, Position, Copied, Reuse, Answers, Meet, Hostile: proofs
--                      about these
--   Pool/Store         components/snell/pool.go: snellPool and snellPoolConn;  Pool/Steps  the goroutines
--                      of SnellClient.handleSnell and DropSession (client.go), by their use of the pool
--   Pool/Counts, Places, Owned: proofs about these
--   Alloc/Bits         components/utils/pool/alloc.go: msb;  Alloc/Pools  Get and Put
--   Alloc/Filed, Classes: proofs about these
--   Layers/Loop        io.ReadFull over the Read of a layer;  Layers/TlsEnds, HttpEnds  the ends of both
--                      disguises as connections;  Layers/SealedStream  streamConn on one
--   Layers/TlsWrites, TlsReplies, ReplyStream: the answers of the server through the TLS disguise
--   Layers/Whole, Follow, Through, Handshakes, Replies: proofs about the layers on one another
--   Setup/Obfs         components/simple-obfs/obfs.go;  Setup/Ends  NewSnellServer (server.go)
--                      with its accept loop, NewSnellClient and newSession (client.go)
--   Setup/Commands     the settings of cmd/snell-server/main.go and cmd/snell-client/main.go
--   Setup/Agree: a proof about these
--   Examples/*         the theorems at concrete inputs, and runs of the code
--
-- The model. A byte is a number below 256, and conversions to byte and uint16 are written out as
-- remainders. A method on a pointer returns the new record. A slice expression behind the end is the
-- result `panic`. A connection's Read returns between one byte and as many as the slice holds, by a
-- list of cuts that stands for the network; io.ReadFull does not depend on the cuts. A Write takes
-- everything or fails with an error after some bytes, by a list of faults. A deadline shows in the
-- relay and in the sessions, as the error of a Read. Locks, logs and the use of pooled buffers, which
-- are filled before they are read, do not show in the model.
--
-- Layers. The reader and the writer of the encrypted stream, streamConn, WriteHeader,
-- ServerHandshake and the reading of a reply stand on any connection (`NetConn`: io.ReadFull and
-- Write). What the layers prove
-- about one another goes through `ByteSource` (the bytes that are still to be read), `ByteSink` (those
-- that were written) and `Channel` (the two ends of a connection) of Io/Streams; a plain connection,
-- both disguises (TLS in both directions) and, for reading, the encrypted stream itself are instances.
--
-- Fuel. The loop of ReadFrom takes a byte of its source in each round but the last, and its fuel is
-- the length of the source and one more; the loop of WriteTo takes two bytes of its input, and its
-- fuel is the length of the input and one more; the loop of the TLS Write takes the length of the
-- slice; the digits of a 32-bit number are counted in 32 rounds; io.ReadFull over
-- a layer takes the length of its slice, the bound on the Reads that return nothing, and one more. The loop of
-- handleSnell takes three bytes in each round that leads to another, and its fuel is the number of the
-- bytes and parts to come and one more; the loops that read up to the next error take the length of
-- the part and one more. A loop that is out of fuel has a result of its own (none, or hung), and the
-- theorems about them say that they return.
--
-- Parameters. Go's parser and printer of addresses (`NetLib`), the ciphers and the key derivation
-- (`Aead` with the laws `IsAead`, `CryptoLib`), the cache of addresses (`CacheLib` with the laws
-- `IsCacheLib`), the UDP socket (`Socket`, whose
-- answers vary from packet to packet), the pool of icpz/pool (`PoolLib` with the
-- laws `IsPool`: it loses no item and makes none up), requests and responses
-- of net/http (`HttpLib`), the sections of the configuration file (`Section`), and the random parts
-- of the disguises (`Draw`, `Random`, `Stamp`).
--
-- Sessions. The loops of both ends stand on `Link`, the decrypted stream with the error behind each
-- of its parts; Aead.RoundTrip says that a zero chunk is such an error. A relay within a session is
-- one of the ways in which Relay says that a copy ends, by a parameter of the session (`Turn`,
-- `Local`). A deadline that comes within a chunk of the cipher is not modelled: the bytes of that
-- chunk that were read are lost then, and the stream behind it does not open.
--
-- The relay. A copy is in its Read or in its Write. A deadline ends a Read of the connection, but not a
-- Write, nor a Read that finds bytes in a buffer above the connection, as HTTP and the cipher have them. A
-- Write that its sink holds up is a step that does not come.
--
-- The pool. A goroutine of the client owns its session between Get and Close, so that one step stands
-- for all that it does with the connection; the order of the goroutines' steps on the pool is free.
-- Connections are numbered in the order in which they were dialled.
--
-- Not modelled: how the goroutines of the accept loops interleave (each is modelled by itself), socket
-- options, and the signals that end the commands. The ends of
-- both disguises stand on a plain connection each. The session loops stand on the decrypted stream
-- (`Link`), and are not composed with the layers below it.
pub mod Base
pub mod Io
pub mod Socks5
pub mod Aead
pub mod Tls
pub mod Http
pub mod Snell
pub mod Relay
pub mod Udp
pub mod Mux
pub mod Pool
pub mod Layers
pub mod Setup
pub mod Alloc
pub mod Examples
