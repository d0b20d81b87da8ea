-- ===== src/Lib.antt =====
-- cpp-shared: small C++ components for threads, memory and state machines (src/), and a server and a
-- client that exchange packets over TCP (tcpserver/src/).
--
-- The program's parts, and the modules that model them:
--   * Allocator: `LazyAllocator` of src/LazyAlloctor.hpp, a cache of arrays by size class. Its heap,
--     that of the packets too, is Memory. Session and Runs have clients that return what they hold.
--   * Pipeline: src/pipeline.hpp, a queue that four worker threads empty. Pipeline.antt has one
--     function for each critical section; System interleaves clients, workers, `start` and `stop`.
--   * Fsm: `LazyFSM` of src/LazyFsm.h, events, transitions, and the listener thread's round;
--     Fsm/Stopping.antt interleaves it with `start`, `stop` and `setEvent`.
--   * SpinLock: src/spinlock.h. Singleton: src/singleton.hpp. Both for any number of threads.
--   * Observer: src/observer.hpp. Buffer: src/buffer.hpp. Registry: src/factory.hpp and
--     src/interface.hpp.
--   * Sending: the loops of `sendMessage`, src/tcppipe.hpp and tcpserver/src/socket.hpp.
--   * Packet: the structure of tcpserver/src/packet.h in memory, and what is done to its bytes said of
--     its fields. PacketPool: `ObjectPool` of tcpserver/src/tcpserver.h.
--   * TcpServer: tcpserver/src/tcpserver.cpp. TcpServer.antt is the thread in `run`, Process the
--     thread in `process` and the other member functions, System the two threads interleaved; Show
--     is the handler of tcpserver/src/serverhandler.cpp, Program is tcpserver/src/serverd.cpp with
--     its signal handler. Accounting follows the packets, Contents what is in them, and Delivery
--     puts the clients' packets before it and the handlers behind.
--   * Client: tcpserver/src/tcpclient.cpp; Program is `main` of tcpserver/src/clientd.cpp, and
--     Session sends packets to a client's `run`.
--   * Net: the sockets over the system calls. ServerSocket is tcpserver/src/socket.hpp, PipeSocket
--     and WindowsSocket are those of src/tcppipe.hpp; Setup and Connecting are the functions that
--     open a socket to listen or to connect.
--   * Protocol, Epoll, Select and Pipe: the message text, the servers over `epoll` and `select`, and
--     `TcpServer`, `TcpClient` and `TcpPipe` of src/tcppipe.hpp.
--   * Log: src/log.hpp and src/logger.hpp. Plugin: src/pluginloader.h; Animal is
--     testplugin/main.cpp and Library testplugin/lib/animal.cpp.
--
-- The server takes its packets from PacketPool and answers through Sending; the client sends through
-- Sending and reads the type of a packet as the server does. A client of Pipe sends through Sending
-- and Protocol, and its server is one of Epoll and Select; both open their sockets through Net.
--
-- How the code is read. A critical section, an atomic access or a system call is one step. State is
-- a record that the operations take and return; threads are interleaved by step relations.
-- Undefined behaviour (a null pointer, the front of an empty queue, an access past the end of a
-- block, a pointer that was deleted) is a result of its own: `none`, `faults`, `undefined` or
-- `overruns`. A `std::map` is a list in the order of its keys. Numbers are natural; sizes and
-- lengths of 64 bits keep their wrap-around where the code can meet it. The accesses to one
-- variable are in an order and data races are not modelled, except in Singleton, where a read of
-- the pointer during its assignment is one. A `join` that need not return is given its result as an
-- argument. Condition variables may wake at any time, which the code allows for.
--
-- The system calls are not in the repository: `send` is a parameter, with its documented results as
-- the hypothesis `IsConforming` or, for a socket that takes everything, `SendsAll`; the results of
-- `socket`, `bind`, `listen`, `accept`, `select`, `recv` and `epoll_wait` are arguments, with any
-- value, except that `epoll_wait` names watched descriptors. Where descriptors are opened and
-- closed, the calls are a record of operations over a state of the system, `Calls`, and `IsLawful`
-- says of each which descriptors are open afterwards. The dynamic linker is such a record too,
-- `Linker`, with its counts of references in `IsLinker`; what its failures print is left out. The
-- clock and `localtime` are arguments; the files are a record of their contents. Handlers, actions
-- and observers are parameters too; a handler of the server writes to its own packet only, and the
-- write of `TcpServer_Show` past its end is in Show. The descriptors that the server of
-- tcpserver/src puts into an fd_set are below FD_SETSIZE.
--
-- Bounds and fuel. Only the loops of Sending take fuel, one unit for a round. A round of the text
-- version takes at least one byte further or is the last, so that one unit for each byte and one
-- more is enough. The version for data repeats a `send` that failed, so that no amount need be.
--
-- Not modelled: `WSAStartup` and `WSACleanup`, which change no socket, and the tests, which only call
-- the library and print.
pub mod Prelude
pub mod Allocator
pub mod Pipeline
pub mod Fsm
pub mod SpinLock
pub mod Singleton
pub mod Observer
pub mod Buffer
pub mod Memory
pub mod Sending
pub mod Packet
pub mod PacketPool
pub mod TcpServer
pub mod Client
pub mod Protocol
pub mod Epoll
pub mod Registry
pub mod Net
pub mod Select
pub mod Pipe
pub mod Log
pub mod Plugin
