-- ===== src/Sock.antt =====
-- The class SockLib of build3/sample-3/common/socklib.h and socklib.cpp.
pub mod State
pub mod Wire
pub mod Tcp
pub mod Window
pub mod Sender
pub mod Receiver
pub mod Setup
pub mod Logic
