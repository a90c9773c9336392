-- ===== src/PairWait.antt =====
-- The two programs of build3/Assign3_zcl, which send the long part of a file in pairs of packets:
-- Server/Server.cpp and Client/Cllient.cpp.
pub mod State
pub mod Exchange
pub mod Reply
pub mod Last
pub mod Transfer
pub mod Server
pub mod Client
pub mod Lift
pub mod Stream
pub mod Receiving
pub mod Upload
pub mod Starved
pub mod Missing
pub mod Sizes
pub mod Agreed
