-- ===== src/Lib.antt =====
-- File transfer programs over UDP: a client and a server that talk through a router which drops and
-- delays packets. Three generations of them are modelled, build3/sample-3 (Sock, Router, Endpoint), the
-- programs of build3/Assign3_zcl, which send pairs of packets (PairWait), and the stop-and-wait programs
-- of build 2/assign2/FTP_UDP (StopWait); and the TCP server and client of build 1/Assign (TcpThread,
-- TcpClient) that came before them.
--
-- In build3/sample-3 client and server inherit from the class SockLib (common/socklib.cpp). A sender
-- numbers its frames in five bits and keeps those that are not acknowledged in a window (copy_2_winbuf);
-- when the window is full, or a message ends, it sends the window and waits for answers
-- (send_all_win_packets, udp_sendtoEx). The receiver takes the frame in turn and no other (chk_seqEx),
-- and answers with ACK, NACK or SACK. Before the first request a handshake is exchanged by stop and wait
-- (udp_sendto).
--
-- In build 2 the classes TcpServer (Server/server.cpp) and TcpClient (client/client.cpp) send one packet of
-- 260 bytes at a time and wait for an answer (udpsend), and answer each packet that comes (udprecv); a
-- packet with the number of the one before is a repetition. The commands LIST, GET, PUT and DEL go out as
-- packets, and so does a file, after a packet with its name and size.
--
-- In build3/Assign3_zcl the classes TcpServer (Server/Server.cpp) and TcpClient (Client/Cllient.cpp) start
-- with a handshake. While more than 260 bytes of a file are left, 260 of them go out as two packets of 130
-- (udpsend), which are answered together (udprecv): two ACKs for the pair in turn or the one before, two NAKs
-- for any other. All else goes as one packet (udplastsend, udplastrecv), which is sent at most five times.
--
-- The files:
-- - Base, Base/Tests, Base/Lists: library names, Boolean tests, lists.
-- - Text, Text/Print, Text/Strings: C strings, to_string, atoi, find_first_of, as the programs use them.
-- - Files, Chunks: a disk, and files cut into chunks, for all programs.
-- - Run, Run/Leaves: the monad of build 2 and build 1. A call returns, waits for ever, or
--   does what C++ leaves undefined.
-- - Protocol, Protocol/Codec: common/protocol.h, its structs and their bytes.
-- - Sock/State: the members of SockLib, and the monad of its methods. A method returns, returns -1, or
--   waits for a packet that never comes. The network is a list of events (what each select and recvfrom
--   gives), a list of datagrams that went out, and a function that says which calls of sendto fail;
--   the disk maps a name to its bytes.
-- - Sock/Wire: lib_recvfrom, lib_sendto, send_ack, send_special_request, add_udpheader.
-- - Sock/Tcp, Sock/Tcp/Transfer: sock_recv, sock_send, init, client_init, server_init, resolve_name.
-- - Sock/Window: remove_packets_from_win and get_max_seq. Its child modules hold the lemmas on arrays,
--   on removal and on the acknowledged run.
-- - Sock/Sender: send_all_win_packets, copy_2_winbuf, udp_sendtoEx, sock_sendtoEx, send_file,
--   udp_sendto, sock_sendto. Its child modules hold the invariant, the rounds of the loop, whole
--   transfers, what a peer that acknowledges all frames leads to, and the loss of a chunk.
-- - Sock/Receiver: chk_seq, chk_seqEx, sock_recvfrom, recv_file, srv_wait4cnn. Its child modules hold
--   single frames, streams of frames, messages, files, files cut as send_file cuts them, and the
--   window's invariant.
-- - Sock/Setup: udp_init, set_dstAddr, setWindowsSize and the statistics.
-- - Sock/Logic: rules for what a method keeps, also on the paths where it returns -1 or waits.
-- - Router: Router::Run and SendProc of Router/Router.cpp. Router/Conserve counts the packets, and
--   Router/Flush follows one that is held back.
-- - Endpoint/Client, Endpoint/Server: SockClient of Client/client.cpp and SockServer of
--   Server/server.cpp, with what holds for a handshake, a put and the request loop.
-- - StopWait/State: the members of the two classes of build 2, and their world: events, sent datagrams,
--   files. StopWait/Exchange: udpsend and udprecv, which are alike in both classes but for the length of a
--   datagram. StopWait/Transfer: the loops that send and receive a file.
-- - StopWait/Server: run, PutFileToClient, GetFileFromClient, delFiles, listFiles of TcpServer.
--   StopWait/Client: connectserver, PutFileToServer, GetFileFromServer, DeleteServerFiles,
--   listServerFiles of TcpClient, and main. StopWait/Handshake: threeWayHandShake of TcpClient.
-- - StopWait/Exchange/Out, StopWait/Exchange/In: what one call of udpsend and of udprecv does.
--   StopWait/Packets and StopWait/Sending: the packets of a file, and the loop that sends them.
--   StopWait/Receiving and StopWait/Upload: the loop that receives them. StopWait/Delivery joins both
--   sides. StopWait/Stable: what the exchanges keep, all operations keep; StopWait/Bounds and
--   StopWait/Closed use it. StopWait/Overflow and StopWait/Cut: transfers that go wrong.
-- - PairWait/State: the members that the classes of build3/Assign3_zcl add to those of build 2.
--   PairWait/Exchange: udpsend. PairWait/Reply: udprecv. PairWait/Last: udplastsend, udplastrecv, and the
--   parts of the handshake. PairWait/Transfer: the loop that receives a file. PairWait/Server and
--   PairWait/Client: the two classes, run and main.
--   PairWait/Reply/Judged, PairWait/Exchange/Acked and PairWait/Exchange/Unacked: one call of udprecv and of
--   udpsend; PairWait/Agreed joins them. PairWait/Last/Turn and PairWait/Last/Out: single packets.
--   PairWait/Lift carries them over. PairWait/Stream, PairWait/Receiving and PairWait/Upload: a file that
--   comes. PairWait/Sizes: the announcement with two sizes. PairWait/Starved and PairWait/Missing: what goes wrong.
-- - TcpThread: the class of this name in Server/Server.cpp of build 1: run, GetFileFromClient,
--   PutFileToClient, listFiles, DeleteServerFiles. The stream is a list of bytes, cut by a list of calls of
--   recv. TcpThread/Upload and TcpThread/Download follow a file. TcpClient: the class of this name in
--   Client/TcpClient.cpp; TcpClient/Download and TcpClient/Upload join both sides.
-- - Tests: sample states, and the theorems at these states.
--
-- Loops whose end depends on the network run on fuel. Each of their rounds takes at least one event, so
-- one more than the number of events is enough; a postcondition (Post, Sure, Through) is false where the fuel
-- runs out. The retry counts 7 and 1000 are the code's. Numbers of 32 bits wrap around (add_u32,
-- sub_u32), and those of frames are masked to five bits. Slots of the window behind its size are
-- memory that holds anything, and so is what lies behind a local object that a frame is copied from.
--
-- In build 2 the fuel of a file's loops is its size, since each round sends or takes at least one byte, and
-- the last fuel is for the packet that ends it; that of list_loop is one more than the number of events. The world that
-- has no events left lets a program wait for ever (stuck). A failing sendto is only printed by the code,
-- so every call of it counts as sent. Console output has no part in the models; what the user types is an
-- argument.
--
-- In build3/Assign3_zcl the fuel of the loop that receives is the size and one more than the number of
-- events, since each round takes an event or ends the loop. udprecv returns the address of a local
-- buffer; what its callers read there is an argument (stale).
--
-- Not modelled: the loggers, the thread wrapper, console input and output, the local directory listings,
-- the setup of Winsock in build 2 and in build3/Assign3_zcl, null pointers as file names, the server's
-- threeWayHandShake of build 2 (it writes beyond its buffer first of all), the listener of build 1, the
-- menu of its client, and Client/Server.cpp there, an older draft of the server. The routers of build 2
-- and of build3/Assign3_zcl are the file that is modelled for build3/sample-3.
pub mod Base
pub mod Chunks
pub mod Files
pub mod Text
pub mod Run
pub mod Protocol
pub mod TcpThread
pub mod TcpClient
pub mod PairWait
pub mod Sock
pub mod Router
pub mod Endpoint
pub mod StopWait
pub mod Tests
