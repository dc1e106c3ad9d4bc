-- ===== src/Lib.antt =====
-- linux_cpp_web_server: a model of the HTTP and WebSocket server in C++, with what was proved of it.
--
-- The main reactor accepts connections and hands them to sub reactors, one thread each. A sub reactor
-- waits for events and passes reads and writes to a pool of worker threads, which answer by an action.
-- A connection reads bytes, parses HTTP requests, routes them to handlers and writes the responses; a
-- request that asks for it makes it a WebSocket connection, whose text messages are JSON and drive a
-- server of chat rooms. Timers close idle connections, pools keep connections, buffers and connections
-- to the database, and log lines pass through a blocking queue to a writer.
--
-- Files, and the code that they are about:
--   Common       tests, lists, byte strings with the calls of std::string, and maps
--   Config       src/Config.cpp
--   Server       the rest of src/webserver/WebServer.cpp and main.cpp: init, in Main eventListen, the
--                destructor and main, in Routes the routes. Rules, Table, Answers, Turns and LoggedIn follow
--                requests through the routes and the handlers; Startup and Shutdown follow main.
--   MainReactor  the loop of src/webserver/WebServer.cpp; Pipes: what each sub reactor is sent;
--                Signals: the pipe of signals, with Tools::sig_handler; Ends: how the loop ends
--   Reactor      src/webserver/SubReactor.cpp: handle_action and the queue of tasks, with addfd, modfd and
--                removefd of src/Tools.cpp; Events: the event loop and new connections; Reuse: timers
--                whose address comes again; Ending: its descriptors and its destructor
--   ThreadPool   src/ThreadPool.cpp; Steps: the threads in every interleaving; Drain: the destructor
--   Tools        include/tools/Tools.h: what a connection asks of its reactor; Text and Clients: the
--                functions of src/Tools.cpp on texts and on the timers of clients
--   Handler      src/Handler.cpp, with handle_static_file in Static
--   Http         Request, Response, Form, Parser, Router and Connection: include/http and src/http.
--                HttpParser::parse is Parser.parse; its loop is parse_loop, a switch is parse_step;
--                handle_multipart is in Parser/Multipart. HttpConnection is in Connection, the loop of
--                its handle_write in Connection/Writing. ConnectionPool: HttpConnectionPool.cpp and
--                ManagedConnection; BufferPool: BufferPool.h; Exchange: a request and its response
--                through these parts
--   WebSocket    Frame: parseFrames, pack_text_frame and unmaskPayload of src/websocket/WebSocketConn.cpp;
--                Conn: the rest of that file; Server: src/websocket/WebSocketServer.cpp, with the
--                handlers of messages in Server/Messages
--   Log          src/Log.cpp; BlockQueue: include/log/BlockQueue.h; Fifo: the bounded queue that it
--                implements
--   Sql          src/SqlConnectionPool.cpp
--   Timer        src/Timer.cpp
--
-- State is a record, and an operation is a function from the old state to the new one. Sockets answer
-- by values: a list of chunks for recv, a list of results for send, write and sendfile, and lists of
-- events for epoll_wait. The JSON library, the MySQL library, regular expressions, the file system,
-- files, getopt, OpenSSL and the clock are parameters. Pointers are numbers, and what `new` answers to a
-- sub reactor is a function, so that an address may come again. The room of the pipe of signals is a
-- number. The loop of a reactor says, when the answers are used up, whether it has stopped or waits for
-- more. A mutex makes an operation one step, and interleavings are rows of such steps. A closure that is
-- queued is a value that names the call. size_t and uint64_t sums are taken modulo 2 ^ 64 where the code
-- adds them; an index behind a table and the overflow of an int are the answer `none`.
--
-- Fuel: parseFrames runs on the number of bytes plus one, parse on the length of the buffer plus one
-- and handle_multipart on twice the length plus two: a round that goes on takes a frame, a line, bytes
-- of the body or a boundary, but for the round that ends a part. The loop over the pipe of signals runs
-- on the number of its bytes plus one. `none` means that the fuel ran out.
--
-- Not modelled: epoll, sockets, pipes and threads themselves, create_parent_dirs and setnonblocking,
-- which only call the kernel, several sub reactors at work on the one WebSocket server, and the lines of
-- the log that the parts print.
pub mod Common
pub mod Http
pub mod Handler
pub mod ThreadPool
pub mod Reactor
pub mod MainReactor
pub mod Log
pub mod Tools
pub mod Sql
pub mod Timer
pub mod WebSocket
pub mod Config
pub mod Server
