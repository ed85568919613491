-- ===== src/Lib.antt =====
-- A model of whet, which forwards TCP ports over WebRTC data channels that are set up by an HTTP
-- request, with the theorems on what it does.
--
-- The parts and their files:
--   Base, Strings, Decimal: lists, texts, Go's `int` of 64 bits (Base/Int), association lists, results,
--     and what the program uses of `strings` and `strconv`. Go strings are lists of bytes.
--   PortSpec: pkg/forwardportid.go. `parse_forward` and `parse_listen` are the two `Parse...FromString`
--     functions, and the `_all` functions those that build the maps from a slice of texts.
--   Http: the request fields and the response writer that the handlers use.
--   Connection: the struct of pkg/connection.go that client and server share.
--   Server: pkg/server.go. `whet_handler` (Server/Handler) is `WhetHandler`, from a request and a world
--     to a response and a world. Server/State has the world: the server, a heap of connection objects,
--     `OpenConnections` as a map from UUIDs to places of the heap, the sockets that were closed and
--     the peers that were made.
--     Server/Select has the checks of a POST, Server/Registry the map, Server/Routes the mux and
--     the path of the reverse proxy, Server/Front what the whole server answers by its mux,
--     Server/Opening the body of `OnOpen` after its `Detach`, which is in Server/Opening/Detaching,
--     Server/Listeners `AddListener` and `WhetListener`, and Server/Health the handler of
--     pkg/serverapi.go. Server/Session has the goroutines of one data channel to a TCP target as a
--     step relation, Server/Offering those of one to a listener, Server/Channels the wait groups
--     that the data channels of a peer share, Server/Serving the start and the shutdown, and
--     Server/Abstract what `OpenConnections` promises, as a registry without places and heap.
--   FlowControl: the wait on `sendMoreCh` and the callback that ends it, as a step relation.
--   Transfer: `SendRawDataChannel` and `SendDataTCP` of pkg/connection.go.
--   Stream: pkg/webrtcconn.go and `ReceiveRaw`. Stream/Close is `Close`, and Stream/Made has the two
--     constructors.
--   Handshake: pkg/handshake.go. Handshake/Protocol puts both sides together over ordered channels.
--   Mirror: pkg/util.go, the mirror server that tests talk to.
--   Pump: the loops of pkg/server.go and pkg/client.go between TCP and the channel, in detached mode;
--     Pump/Attached is the callback of the client's attached mode, also against a detached server.
--   Client: pkg/client.go. Client has the URLs, Client/Dial `dial_client` (`DialClientConnection`) and
--     `handle_client` (`HandleClientConnection` up to its loops), and Client/Dial/Meeting,
--     Lifetime and Refused put a dial, its close and the server's handler together. Client/Tunnel has the
--     goroutines of a port forward of `HandleClientConnection` in detached mode as a step relation,
--     and Client/Dial/Waiting the dials of a process that wait with the lock of the map held.
--   Bridge: lib/main.go, the handles of the C library, and wasm/main.go (Bridge/Script), each promise
--     by how it is settled.
--   Peer: `setupWebRTCConnection` and the configuration of a peer, from pkg/connection.go.
--   Command: cmd/main.go, the flags and what `main` starts. Command/Run is `runClient`, and Command/Serve
--     `runServer`, `runServerNGROK` and the whole program.
--
-- A POST selects a target with `PortSpec`'s records, and registers a `Connection`; the data channel
-- then runs the `Handshake`, and a `Pump` moves the data by `Transfer` under `FlowControl`; a `Stream`
-- is the net.Conn that a listener or a dialling client gets. The client finds the server by the URLs of
-- `Client`, and closes by a DELETE of the location that the POST returned.
--
-- Parameters: pion's calls (`Webrtc` of the server, `Peers` of a client, `Pion` of the set-up of a
-- peer), the HTTP client and the URL parser (`Web`, and `Client` of `Close`), `uuid.Parse` and the fresh
-- UUIDs, the clock, the choice of `http.ServeMux`, the reverse proxy and the file server (`Backends`),
-- ngrok, the environment and the sockets that can be listened on (`Host`), `net.Dial` and `net.Listen`,
-- the patterns that a mux refuses besides those that are registered,
-- and the outcomes of the reads and writes of sockets and data channels, which are lists that the loops
-- consume. A loop whose outcomes have ended is blocked.
--
-- Fuel: only `Close` has fuel, 101 rounds, which its own limit of 100 makes enough; other loops are
-- structural in their text or in their outcomes.
--
-- Not modelled: the parsing of flags, which is package flag; the accept loop of `runClient`;
-- pkg/proxy.go, which is commented out; the deadlines and addresses of a `WebRTCConn`, which
-- are constants; the browser code. In `Client.Dial` the fields of a dialled object are taken to be set
-- before `OnOpen` runs, but not in Client/Dial/Waiting. Locks are taken to make each handler's access to
-- the map one step.
pub mod Strings
pub mod Decimal
pub mod PortSpec
pub mod Http
pub mod Connection
pub mod Peer
pub mod Server
pub mod Bridge
pub mod FlowControl
pub mod Transfer
pub mod Stream
pub mod Pump
pub mod Handshake
pub mod Mirror
pub mod Client
pub mod Command
mod Base
