-- ===== src/Network.antt =====
-- client/include/NetworkingModule.hpp and client/src/NetworkingModule.cpp, the UDP link to the
-- peer: its state and sends (`State`), what arrives (`Receive`), and its lifecycle (`Connection`).
pub mod State
pub mod Receive
pub mod Connection
pub mod Packets
pub mod Safety
pub mod Delivery
pub mod Acks
pub mod Events
pub mod Handlers
pub mod Timer
pub mod Datagrams
