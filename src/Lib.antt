-- ===== src/Lib.antt =====
-- PeerBridge: two computers behind routers, joined into a small virtual network by a UDP link
-- between their clients (client/), which find each other by a signaling server (backend/). This
-- library models the client and the server and proves what their parts promise one another.
--
-- The parts. `P2PSystem` (client/src/P2PSystem.cpp) owns the rest: the state machine and event
-- queue (client/src/systemstatemanager.cpp), the UDP link (client/src/NetworkingModule.cpp), the
-- virtual interface (client/src/TUNInterface.cpp), its configuration by commands to Windows
-- (client/src/networkconfigmanager.cpp) and the client of the signaling server
-- (client/src/signaling.cpp). The server tells the client of its peer; the link punches a hole to
-- it and queues an event when the first packet comes in; the monitor thread takes events off the
-- queue and starts or stops the tunnel; packets then go from tunnel to link and from link to
-- tunnel. `main` (client/src/main.cpp) starts the system, reads commands and ends it; the address
-- that it is reached at comes from a STUN server (client/src/stun.cpp). The signaling server
-- (backend/app.py) keeps the users by connection and by name, passes a request to chat on and,
-- when it is accepted, tells each of the two clients the address of the other.
--
-- The files.
--
--   Common: tests, lists, texts, options, integers; Common.Dict: dictionaries. Bits: the bit
--     operations on words.
--   StateManager: SystemStateManager. `set_state` is setState, `queue_event` queueEvent, and so
--     on; PeerConnection is PeerConnectionInfo. StateManager.Interleaving has setState as a load
--     and a store, in any order with those of other threads.
--   Decimal, Ip: client/include/utils.hpp, `ip_to_uint32` and `uint32_to_ip`.
--   Wire: the header (attachCustomHeader) and the words read from a packet.
--   Network: UDPNetwork. Network.State has its state and what it sends, Network.Receive what
--     arrives (handleReceiveFrom, processReceivedData, handleKeepAlive), Network.Connection its
--     lifecycle. The other files below Network hold proofs.
--   Tun: TunInterface, one round of its threads at a time.
--   Routing: NetworkConfigManager.
--   Signaling: SignalingClient. Signaling.Utf8 is UTF-8, which the JSON library's `dump` asks of a
--     text.
--   System: P2PSystem. System.Packets forwards packets, System.Connection has the requests,
--     connection, monitor and shutdown, System.Threads the initialisation and the handlers of each
--     thread, System.Dump the dump of a packet.
--   Stun: StunClient (client/src/stun.cpp).
--   Logger: the folder of the logs and the limiter of the traffic log (client/src/logger.cpp,
--     client/include/logger.hpp). Logger.Times: the reading and printing of times. Logger.Setup:
--     initLogging, with what the logging library is given.
--   Cli: the commands of main. Main: the program around the system, with its threads, signals and
--     exit codes. Run: the whole client as one machine, whose events are the runs of handlers;
--     below it the proofs about histories.
--   Server: the signaling server. Server.State has its tables and the monad of its handlers,
--     Server.Users what it is to be registered, Server a function for each type of message; below
--     it the proofs. Server.Values takes the values of the client's JSON objects as the values of
--     the server. Run.Meeting joins two clients and the server.
--   Tests: examples.
--
-- How the code is read. A handler is a function from state to state; two handlers do not overlap,
-- so a history is a list of events; only StateManager.Interleaving splits a call, setState. A
-- handler of the server handles a message in one step; an exception leaves what has been done and
-- ends it. An exception of the client that nothing catches ends the program. Words are numbers
-- with their wrap-around written out. A call that follows a null pointer, or that reads past a
-- buffer or at a missing key, and one that throws where nothing catches it, has no result (`none`,
-- `fault`, `undefined`). Boost, Wintun, Windows, the WebSocket and the JSON library are not the
-- program's: what they answer is an argument, what they are given is recorded in the state.
--
-- Bounds. The monitor loop is given one round more than there are events in its queue, since no
-- handler that it calls adds to the queue. The wait for the server is the code's own 50 looks. The
-- loop over STUN attributes has a bound of the length of the response, and a round moves on by
-- four bytes at least. The bits of the network mask are counted in 32 rounds, one for each digit
-- of the word.
--
-- Not modelled: the logging library, the header of Wintun (a copy of another project's), and the
-- lines that the other parts log; handlers of the server that overlap at an await; data races
-- between the client's handlers, other than those of setState. The limiter of the log works on
-- doubles, which are a parameter with the few laws that it relies on.
pub mod Common
pub mod Bits
pub mod StateManager
pub mod Decimal
pub mod PeerConnection
pub mod Wire
pub mod Network
pub mod Ip
pub mod Routing
pub mod Tun
pub mod Signaling
pub mod Stun
pub mod Server
pub mod Logger
pub mod System
pub mod Cli
pub mod Run
pub mod Main
pub mod Tests
