-- ===== src/Lib.antt =====
-- PortForwardX forwards TCP connections and UDP datagrams from a listening address to a target.
--
-- How the parts interact. The settings (include/portforwardx/net/forward_config.hpp) choose protocol,
-- families and times. The resolver (src/net/dns_resolver.cpp) turns a host into endpoints, which the
-- forwarder (src/net/forwarder.cpp) sorts and keeps; a thread resolves them again from time to time.
-- For TCP each accepted client is connected to the first endpoint that serves, and the pair of sockets
-- becomes a session (src/net/forward_session.cpp) with two relays. For UDP each client address has a
-- session with a socket of its own towards the target, made by the thread that reads the listening
-- socket; idle sessions are cleaned up. All of it calls src/net/socket_platform.cpp.
--
-- Files.
--   System, System/Calls, System/Sockets: the operating system as an argument. `Os` gives the result of
--     a call from the history of all calls (a trace), so a statement for every `Os` is one for every
--     behaviour of the system. A computation is `Sys A = Trace → A × Trace`. `is_open` says which
--     sockets are open after a history; `IsPosix`, that `socket` and `accept` return descriptors that
--     are not open.
--   Config, Config/Names, Config/Families: ForwardConfig; ParseAddressFamily, AddressFamilyToString and
--     their likes; EffectiveListenFamily and EffectiveTargetFamily.
--   Platform: the functions of src/net/socket_platform.cpp, in their POSIX build.
--   Endpoint: ResolvedEndpoint, SortEndpoints and the small functions of src/net/forwarder.cpp.
--   Resolver: DnsResolver::Resolve.
--   Connect: ConnectToEndpoints and CreateUdpSocketForEndpoint.
--   Relay: SendAll and RelayOneDirection. Session: ForwardSession; Session/Threads has its threads as a
--     step relation.
--   Targets: ResolveTargetEndpoints. Refresh: ResolverLoop.
--   Udp: UdpSession, GetOrCreateUdpSession, CleanupIdleUdpSessions; Udp/Loops: the bodies of UdpLoop and
--     UdpUpstreamToClientLoop; Udp/Threads: these threads as a step relation;
--     Udp/Datagrams, Udp/Delivery and Udp/Routes: the datagrams in a history, and where they go.
--   Tcp: the bodies of AcceptLoop and CleanupFinishedSessions; Tcp/Threads: accepting and the ends of
--     sessions as a step relation; Tcp/Ids: the numbers of the sessions. Listen: Impl::Start, without the
--     start of its threads.
--   Forwarder: the fields of Impl and of the class Forwarder, Start, the rounds of the threads on the
--     whole state and the parts of Stop. Forwarder/Threads: one forwarder with all its threads and a
--     caller of Start and Stop, as a step relation. Account, Stages, Started and Sound under
--     Forwarder: its open sockets and the stages of Stop; Stopped: the end of Stop;
--     Contract: what its caller sees. Going, Woken and Returns (with Tcp/Going): a call of Stop and what
--     it waits for.
--   Main: the settings that src/main.cpp makes of the options. Main/CommandLine: the answer of Boost and
--     the defaults of the options; Version: the text of the version (src/version.cpp). Main/Run: the
--     start of the forwarders and what main prints; Main/Threads: main with all its forwarders as a step
--     relation. Main/Books: the sockets of all forwarders; Main/Exit: the end of main; Main/Idle
--     and Main/Shutdown: its run from the signal on.
--   Prelude: Boolean tests, lists and texts on native numbers. Tests: a concrete system and the theorems
--     applied to it.
--
-- Conventions. Integers of a fixed width keep their wrap-around where the program computes with them.
-- A text is a list of character codes; the newline at the end of a printed line is left out. A pointer
-- for an error message is an option: `none` is a null pointer. `kInvalidSocket` is `invalid_socket`.
--
-- Bounds and fuel. `send_loop` runs on fuel of one more than the bytes to send, which is enough: every
-- round that goes on sends one byte at least. `relay_one_direction` runs on any fuel, and `none` means
-- that it is still going on.
--
-- Not modelled. The Windows build; memory and the standard library; exceptions of `std::thread`. In the
-- step relations a thread may end when its flag reads so, and the relays of a session at any time: the
-- relations have more runs than the program. Forwarder/Returns and Main/Shutdown restrict them, for what
-- must come to an end. A start and a round of a loop are one step each, so the races inside of a round
-- on the fields of one session are not seen, nor what a thread does between the close of the listening
-- socket and the clearing of `listen_socket_`. Sleeping makes no call. The list of options that is printed
-- after a message is left out. The tests of the program, the build and the scripts hold no logic.
pub mod Prelude
pub mod Config
pub mod System
pub mod Platform
pub mod Endpoint
pub mod Resolver
pub mod Connect
pub mod Relay
pub mod Session
pub mod Targets
pub mod Refresh
pub mod Udp
pub mod Tcp
pub mod Listen
pub mod Forwarder
pub mod Version
pub mod Main
mod Tests
