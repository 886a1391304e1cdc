-- ===== src/Lib.antt =====
-- cpp_programming is a collection of C++ programs. This library models simple_http, an HTTP server
-- over epoll with a pool of reading and writing threads, the asynchronous server and client of
-- learn_grpc and their semaphore, an edge-triggered epoll server, an echo server with a completion
-- port of Windows, a program that sends what is typed over TCP, four readers of pipes, the
-- allocator of mock_malloc and a pointer that counts its copies, and states what makes its parts
-- correct.
--
-- The server. It (simple_http/tcp_server/src/server.cpp) waits for events of the listening socket
-- and of its connections, and reports them to the connection manager (connection.cpp), which keeps
-- a map from ids to connections, a queue of connections to read and one of connections to write,
-- and a cache of content to write. Two threads take connections from each queue. A connection
-- reads its socket through a SocketHandler (socket_handler.cpp), hands the bytes to its
-- HttpRequestHandler (http_server/src/http_request.cpp), which parses them as a request and, once
-- it is complete, writes a response through the manager. Config reads the port and the log level
-- (config/src/config.cpp), Logger writes the log (log/).
--
-- The server of learn_grpc (learn_grpc/hello_world/src/server/async) hands operations to gRPC with
-- a token each, and gets the tokens back from a completion queue when the operations end. A token
-- is an event with a key and an option (lib/event/event.h): the key finds the handler of the call
-- in a registry (lib/event/event_handler_manager.h), and the option tells the handler which
-- operation has ended. A handler answers with the next operation of its call, and one that gets a
-- call makes another of its class for the next one.
--
-- The epoll server (linux_programming/socket/server/use_epoll/edge_triggered/main.cpp) has one
-- thread: it reports events of its connections to a manager of sessions, each of which splits what
-- it reads at full stops and writes each text back turned around.
--
-- The echo server with a completion port (win32_programming/use_iocp/iocp_demo) keeps a context
-- for each connection, found by the key of a packet that the port gives to one of its threads.
-- Each context has one operation at a time: a receive into its buffer, or a send out of it. A
-- thread that gets the packet of an ended operation starts the next one.
--
-- The TCP peer (socket/tcp/main.cpp) reads its command line into a Config, connects or accepts by
-- it, and then in rounds of poll or select prints what the socket gives and sends the lines that
-- are typed, some of which are commands.
--
-- The files. Base holds what all share: tests and lists over the native numbers, the outcome of a
-- call that may throw (Outcome, Result), and functions that change a state and may throw (Reply,
-- Action, with do blocks). Text holds strings as lists of bytes, with find, stoi and to_string as
-- the C++ library documents them, and what the kernel answers to read and write. Base/Maps holds
-- dictionaries with numbers as keys.
-- SimpleHttp/Trim: Ltrim, Rtrim and Trim of tcp_server/include/utils.h.
-- SimpleHttp/Request: the class HttpRequest, each of its functions by its name; Request/Loop and
-- Cases hold lemmas, Chunks, Messages, Invariant and Fuel what is proved.
-- SimpleHttp/Handler: the state of HttpRequestHandler and its response.
-- SimpleHttp/Config, SimpleHttp/Logger: the classes Config and Logger.
-- SimpleHttp/Socket: the class SocketHandler, against a list of the kernel's answers; Reading and
-- Writing hold what is proved.
-- SimpleHttp/Connection: the state of a connection and of the manager, with the operations of
-- ConnectionMap, ConnectionQueue, WriteCache and EventNotifier. Connections are named by addresses
-- on a heap, since the map, the queues and the threads share them.
-- SimpleHttp/Manager: every function of Connection and ConnectionManager; Manager/Serving follows
-- one connection through its rounds. Manager/Frame holds what a call leaves as it is.
-- SimpleHttp/Server: the classes SocketMap and Server, with the calls of the kernel and of the
-- reporting functions as a list of effects, and what the threads of the manager take out of the
-- socket map meanwhile as arguments; Server/Sockets, Events and Reports hold what is proved.
-- SimpleHttp/Threads: the functions of the manager split into the steps between which other
-- threads may run; Threads/Steps relates the states of the whole program by such steps,
-- Threads/Tickets says what each step does to the queues and the marks, and Steps/Exclusion what
-- follows.
-- SimpleHttp/Tests: runs at concrete inputs.
-- Semaphore: learn_grpc/hello_world/src/lib/utils/semaphore.h by the steps of its threads;
-- Semaphore/Interleavings holds what is proved.
-- LearnGrpc/Event, LearnGrpc/Registry: the classes Event and EventHandlerManager; Registry/Keys
-- holds what is proved of the keys.
-- LearnGrpc/Handlers: the classes of server/async/event_handler and ServerProactor;
-- Handlers/Reactions and Classes say how a handler reacts to an event, Accounting how handlers and
-- pending operations match, Runs relates the states of the loop by its steps, Requests counts the
-- calls that the server waits for, Talks follows one call of a Talk through rounds of the loop.
-- LearnGrpc/Client: the classes of calls of client/async and a round of ClientProactor, for one
-- call; Client/Calls keeps accounts of the operations of a call and its semaphore, Rounds and
-- Lives say that each round keeps them, Courses relates the states of a call by its steps.
-- LearnGrpc/Config: the classes AbstractConfig, ClientConfig and ServerConfig, with the functions
-- of boost as parameters; Config/Files holds what is proved. LearnGrpc/Services: what the services
-- of server/sync answer, and the asynchronous Talk against them, run by what it has pending.
-- LearnGrpc/Tests and Client/Tests: runs at concrete inputs.
-- EpollServer/State, Sessions, Loop: the classes of the epoll server, ConnHandler, Session with
-- SessionManager, and Server; EpollServer/Frames, Pieces, Events and Release hold what is proved,
-- Links and Upkeep what it rests on. EpollServer/Tests: runs at concrete inputs.
-- IocpServer/Contexts: the class ClientContext and the map of contexts of the class IOCP;
-- IocpServer/Port: acceptConnection and process; IocpServer/Service: start, stop and the pool of
-- threads. IocpServer/Steps relates the states of the port by the calls of its threads and what
-- the system does before them; Fresh, Echo and Pool hold what is proved, Slices, Lines,
-- Completions, Changes, Invariant and Touches what it rests on. IocpServer/Tests: runs at concrete
-- inputs.
-- TcpPeer/CommandLine: the class Config; TcpPeer/Peer: Read, Write, Shutdown and what is done with
-- a typed text; TcpPeer/Rounds: Process with poll and with select; TcpPeer/Run: Run. Arguments,
-- Typed, Sent, Versions and Once hold what is proved. TcpPeer/Tests: runs at concrete inputs.
-- PipeReaders/Reading, Rounds: the programs of
-- linux_programming/read/nonblock_read/read_from_pipe; PipeReaders/Endings holds what is proved,
-- PipeReaders/Tests runs at concrete inputs.
-- SharedPtr: smart_pointer/my_shared_ptr/my_shared_ptr.h on a heap of cells; SharedPtr/Counts
-- holds what is proved, SharedPtr/Tests runs at concrete inputs.
-- MockMalloc: mock_malloc/lib/my_malloc.c, a second program: the functions that stand before
-- malloc and its kin and serve requests from a buffer until the real ones are found;
-- MockMalloc/Chunks holds what is proved.
--
-- Bounds. Numbers that the source keeps in 16, 32 or 64 bits are reduced where they are made
-- (to_unsigned); positions and lengths of strings are not bounded. The loop of SetHeaders runs on
-- fuel, one more than the length of the buffer: each round removes a line end. The loops of the
-- sockets recur on the list of the kernel's answers; a list that ends stands for a call that has
-- not come back. The loop of Release of the epoll server has fuel for a round for each connection,
-- and that of Session::Read for one more than the bytes of its input. The loop of
-- EventHandlerManager::add has fuel for 2^32 rounds, after which the key has come back to where it
-- was. The loop of createClientContext has fuel for a round for each context and two more. The
-- rounds of Services run on fuel, two for each request and three more. In mock_malloc `init` is
-- not called within itself, as `initializing` is set. A call of process is one step, since a
-- thread leaves the context alone once it has posted its next operation. The counters isReadable
-- and isWritable do not wrap around.
--
-- Not modelled. The texts of exceptions and of debug lines, client addresses, memory orders, the
-- signal handler, and the set-up of the listening socket. The server and the manager are modelled
-- apart: the reports of the server are the events of the step relation; the memory of a new
-- connection is an address that no queue and no thread holds. Of the client of learn_grpc one call
-- is modelled, as calls share only the registry, and what its user does is one step each. Of the
-- server of learn_grpc one thread with its queue is modelled, the times in requests and responses
-- are left out, and gRPC is what gives each token back once, in any order and with any outcome. Of
-- the echo server with a completion port the loop of the thread that waits for connections, of the
-- TCP peer the settings of descriptors, and of the readers of pipes the texts of the messages are
-- left out; the functions of boost are parameters. The other programs of the repository are
-- demonstrations, or stand in the manifest as not modelled.
pub mod Base
pub mod Text
pub mod SharedPtr
pub mod SimpleHttp
pub mod MockMalloc
pub mod Semaphore
pub mod EpollServer
pub mod IocpServer
pub mod TcpPeer
pub mod PipeReaders
pub mod LearnGrpc
