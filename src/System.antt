-- ===== src/System.antt =====
-- client/include/P2PSystem.hpp and client/src/P2PSystem.cpp, the object that ties the parts
-- together: its state and the packets that it passes on (`State`, `Packets`), the life of a
-- connection (`Connection`), and the threads that call it (`Threads`).
pub mod State
pub mod Packets
pub mod Filter
pub mod Tunnel
pub mod Connection
pub mod Threads
pub mod Dump
