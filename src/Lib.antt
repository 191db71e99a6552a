-- ===== src/Lib.antt =====
-- Softadastra discovery: how nearby nodes announce themselves and find each other.
--
-- The program's parts, and the files that model them (paths of the repository; headers stand under
-- include/softadastra/discovery/):
--   types/*.hpp                        Types/MessageType, Types/PeerState, Types/Status
--   core/*.hpp, utils/Datagram.hpp     Core/Message, Core/Announcement, Core/Envelope,
--                                      Core/Datagram, Core/Config
--   encoding/DiscoveryEncoder.hpp      Encoding/Encode
--   encoding/DiscoveryDecoder.hpp      Encoding/Decode
--   peer/DiscoveredPeer.hpp            Peer/DiscoveredPeer
--   peer/DiscoveryRegistry.hpp         Peer/Registry
--   core/DiscoveryContext.hpp          Core/Context
--   backend/IDiscoveryBackend.hpp      Backend, and its contract in Backend/Contract
--   backend/UdpDiscoveryBackend.hpp    Backend/Udp
--   platform/linux/UdpSocket.hpp and platform/linux/UdpSocket.cpp
--                                      Platform (the interface of sockets), Platform/Linux
--   platform/windows/UdpSocket.hpp and platform/windows/UdpSocket.cpp
--                                      Platform/Windows
--   client/DiscoveryClient.hpp         Client
--   server/DiscoveryServer.hpp         Client/Server
--   engine/DiscoveryEngine.hpp         Engine (state, life cycle, peers), Engine/Traffic (messages,
--                                      handlers, polling), Engine/AnnouncementCodec (payloads)
--   DiscoveryOptions.hpp, Peer.hpp     Options, Peer/Published
--   DiscoveryService.hpp               Service
-- The service owns an engine and turns its options into the configuration. The engine owns a
-- registry, a client and a server; the last two only pass calls to the backend. The UDP backend
-- owns a socket, which owns a handle of the operating system. The engine asks the context for the
-- configuration and for the transport engine; the message codec runs inside a backend.
--
-- What is proved of the codec stands in Encoding/Fields, Wire, RoundTrip and Datagrams; of the
-- registry in the children of Peer/Registry; of the engine in Engine/AnnouncementWire, Frame,
-- Sessions, Fixed, Soundness, Invariant, Conduct, Upheld, Truth, Uptime, Sizes, Candour,
-- Synchrony, Handles, Hearing, OverUdp, Broadcast, Polling and Answering; of the service in
-- Service/Listing, Serving, Histories and OverUdp; of the UDP backend in the children of
-- Backend/Udp; and of the sockets in Platform/Ownership, Platform/Timeouts, Linux/Retries and the
-- two Laws. Network composes any number of services over one system, in steps that interleave
-- their calls with moves of the network, and its children show what no interleaving breaks: Truth
-- for any backends, Carried and Opening for UDP, Linux and Windows for the two sockets, OverUdp
-- for the services over them and Listed for what they list. Base holds the shared notation and
-- lemmas, and Tests the concrete runs.
--
-- A struct is a record with the source's fields, and a method a function of the method's name that
-- takes the object last and returns the new one. A `std::string` and a vector of `std::uint8_t`
-- are lists of numbers; that each is a byte is a hypothesis where it matters. A std::optional is
-- an Option, and a reader's offset argument is part of its result. uint32 counters wrap;
-- millisecond counts are integers that do not wrap, since the code only subtracts and compares two
-- of them. An unordered map is the list of its entries, whose order stands for the unspecified
-- order of iteration.
--
-- What the repository only calls is a parameter (External): the timestamps and durations of
-- softadastra/core, the Serializer of softadastra/store, and PeerInfo and TransportEngine of
-- softadastra/transport. What the code relies on there is named: a serializer's field can be read
-- where it was written, a read accepts only what a write would have put there, the bounds test is
-- exact, and a timestamp is its count of milliseconds. Tests/Wire gives a big-endian serializer
-- that meets this. External/System has the calls of POSIX and of Winsock, over a world of the
-- caller's choice, with the table of the handles that UDP sockets have open: only opening and closing
-- a UDP socket change the table, and a call moves no more bytes than it is given room for. A
-- connection of the transport engine is not in that table. Tests/System gives a system that meets
-- this, and Tests/Dialling a run in which a transport engine opens handles too. External/Carrying
-- says the same of what is sent: a predicate tells which payloads are on the way in a world, only
-- sending puts one there, and what is received is one of them or the beginning of one.
--
-- `Timestamp::now()` is an argument of each registry call that reads it. The engine's state ends
-- in a world, of a type that the caller chooses, which holds the backend, the transport engine and
-- the clock: each call on one of them maps a world to the next, so a clock may give a new time at
-- each reading, and a backend may fail at any call.
--
-- Every loop is a structural recursion, over the entries or over the limit of poll_many, with two
-- exceptions. The decimal digits of a correlation id take fuel, 20 digits, and no 64-bit integer
-- has more. The Linux socket's loops on EINTR take fuel, one more than a bound that the world
-- gives, since nothing bounds how often signals interrupt a call: within the bound they do what the
-- source does, and where a call is interrupted more often the model stops, with no result, and the
-- source goes on. A call of the system is a function, so that it returns is not shown; one that
-- blocks for ever is not modelled.
--
-- The UDP backend's world is its own state with the system behind it, so an engine over UDP is an
-- engine whose backend is that of Backend/Udp; Service/OverUdp has the service with the UDP
-- backend that it makes of its options. A destructor is the stop or close that it calls. A socket
-- that is moved from is part of the result.
--
-- Not modelled: a handler that calls the service again; examples, tests and build files.
pub mod Base
pub mod External
pub mod Types
pub mod Core
pub mod Encoding
pub mod Peer
pub mod Platform
pub mod Backend
pub mod Client
pub mod Engine
pub mod Options
pub mod Service
pub mod Network
pub mod Tests
