-- ===== src/StopWait.antt =====
-- The stop-and-wait file transfer of build 2/assign2/FTP_UDP. Client and server have their own copies of
-- `udpsend` and `udprecv`, over members of the same names; what the copies share stands in `Exchange`.
pub mod State
pub mod Exchange
pub mod Transfer
pub mod Server
pub mod Bounds
pub mod Client
pub mod Closed
pub mod Cut
pub mod Delivery
pub mod Handshake
pub mod Overflow
pub mod Packets
pub mod Receiving
pub mod Sending
pub mod Stable
pub mod Upload
