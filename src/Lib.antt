-- ===== src/Lib.antt =====
-- A TCP library on `select`: a server that keeps a `ClientSocket` for each connection, and
-- clients. Both sides cut the byte stream into messages that begin with their length, and queue
-- the messages they send.
--
-- The parts, and the files that model them:
-- * Buffer (CommonLib/IOBuffer.h): the cursors `IBuffer`, `IOBuffer` and `OBuffer`. A cursor is a
--   record, its array is passed beside it, and a failed assertion is `none`.
-- * Protocol (CommonLib/Macro.h, CommonLib/Msg.h): `Sizes` has the sizes and limits, `Messages`
--   the message classes.
-- * Framing (the loop of `ClientSocket::ProcessorRecv`): `read_package` is one round, `recv_loop`
--   the loop. `Cuts` describes the messages of a stream without a buffer.
-- * Queue (CommonLib/IQueue.h, CommonLib/MyQueue.h): `Api` is what the sockets ask of a queue, on
--   lists; `Linked` is the linked list of `MyQueue` over a pool of nodes, and `Safe` is
--   `SafeQueue` (CommonLib/SafeQueue.h), a place in it.
-- * Memory (CommonLib/MemoryPool.cpp, CommonLib/VarMemPool.cpp): `Api` is what the sockets ask of
--   the memory pool, as a record of operations and laws; `Block` is a block of units of one size,
--   `Pool` the list of blocks of `MemoryPool`, and `VarPool` the choice among the pools by size.
--   `Blocks` has the invariant of the list, over which the other modules describe `Alloc`, `Free`,
--   `FreeAll` and `GetInfo`; `Nodes` makes of its units the nodes of the linked queue, and
--   `Serving` of pools of units and the system what the sockets ask.
-- * ClientSocket (CommonLib/ClientSocket.h, CommonLib/ClientSocket.cpp): `State` has the fields
--   and `Close`, `Receive` is `ProcessorRecv`, `Send` is `SendData`, `SendMsg`, `SendToKernelBuf`
--   and `ProcessorSend`. The other modules prove what these do.
-- * SelectClient (CommonLib/SelectClient.cpp): the client of one connection; `State` has its
--   fields and operations.
-- * SelectServer (CommonLib/SelectServer.h, CommonLib/SelectServer.cpp): the server of one thread.
--   `State` has its fields, `Bind`, `Listen`, `Close` and the set of sockets it watches, `Pass`
--   the loop of `OnRun` over the clients, `Run` the rest of `OnRun` and `Broadcast`. It runs the
--   operations of ClientSocket on each client.
-- * SelectServerThread (CommonLib/SelectServer_Thread.h, CommonLib/SelectServer_Thread.cpp):
--   `Handle` has what the accepting thread does with a new client, and what the handling thread
--   does with the messages of its queue; `Turn` has the rounds of the handling thread over its
--   clients, which test a client as SelectServer does; `Server` has the accepting thread, whose
--   `Close` waits for the handling threads: `last_rounds` is what each of them still does until it
--   has left its loop.
-- * SelectClientThread (CommonLib/SelectClient_Thread.h, CommonLib/SelectClient_Thread.cpp): the
--   client whose messages pass through queues. `State` has its fields, `Connect`, `Close`,
--   `SendData` and `SendMsg`, `Receive` has `ProcessorRecv`, `RecvThread` and `OnRun`, and `Send`
--   has `ProcessorSend` and `SendThread`. It cuts the stream with the rounds of Framing, and keeps
--   the messages in blocks of the pool.
-- * Utils (CommonLib/Utils.cpp): `Strings` has `strcmp_ex` and `writeBuffer`, and `Splitting` has
--   `strsplit` and `strtrim` with what they use of `std::string`.
-- * Config (CommonLib/ConfigHelp.cpp): `Options` reads the lines of a file and looks options up.
-- * EasyTcp (EasyTcpServer/EasyTcpServer.hpp, EasyTcpServer/MessageHeader.hpp,
--   EasyTcpClient/EasyTcpClient.hpp): the first version. `Header` has the messages, `MsgBuf` is
--   `RecvData`, with `memcpy` as a parameter, `Server` has `CellServer` and `EasyTcpServer`, and
--   `Client` is `EasyTcpClient`.
--
-- The operating system is a parameter: `recv` is a function that gives bytes or fails, and
-- `Kernel` gives the results of `select` and `send`, of which `send` is assumed to take no more
-- than it is given. Of `memcpy` within one buffer, a parameter of `RecvData` of the first version,
-- it is assumed only that regions that do not overlap are copied. The class that handles the
-- messages is a parameter too; it acts on the sending half of the socket that it is given, and not
-- on the other clients. The memory pool of the sockets, `operator new` and `malloc` are assumed to
-- hand out no block that is in use.
--
-- The loops run on fuel. The search of `VarMemPool` runs on as much fuel as there are pools, and
-- the loops over the blocks of a `MemoryPool` need a round for each block. The loops of `strsplit`
-- and `strtrim` need more fuel than there are characters. The receive loop needs more fuel than
-- there are messages in the buffer, at most one for each byte. `measure` bounds the rounds of
-- `ProcessorSend`: two for each byte and each message that is left, one for a message to be taken
-- up, and one for a full buffer.
--
-- Not modelled: the locks (the calls of one socket are run one after another), the demonstration
-- programs, and the platform headers. `char` is a number that is only moved. Counters do not
-- overflow.
pub mod Base
pub mod Buffer
pub mod Protocol
pub mod Framing
pub mod Queue
pub mod Memory
pub mod ClientSocket
pub mod Config
pub mod EasyTcp
pub mod SelectClient
pub mod SelectClientThread
pub mod SelectServer
pub mod SelectServerThread
pub mod Utils
