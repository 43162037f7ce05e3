-- ===== src/Lib.antt =====
-- Verification of nev, an event-driven TCP library over libev.
--
-- A shallow embedding of the library's C++ code. Pure methods are functions; a method that changes an
-- object takes the object's state and returns the new one. What the operating system or another
-- thread decides (the result of a write, the bytes received, the thread that calls) is an argument.
-- `DCHECK`s and log lines are not executed. Where the order of events is open, a step relation
-- has a constructor for each event, and its runs are `Reach`.
--
-- Base has what the modules share: Boolean tests, lists over the native numbers, `size_t` arithmetic
-- with its wrap-around at 2 ^ 64 (Base/Word), windows of an array and strings of bytes.
-- Buffer (include/nev/buffer.h, src/nev/buffer.cc) is the byte queue that a connection reads into and
-- writes from. Its record has the three members; an iterator is an index. That memory can be had, up to
-- `PTRDIFF_MAX` bytes, is the hypothesis `HasRoom`. Buffer/Refine relates any sequence of operations to
-- a plain list of bytes, Buffer/ReadFd models both versions of `readFd`, Buffer/Integers the
-- integers in network byte order, over a byte swap that is a parameter, and Buffer/Find the search for
-- line ends.
-- Channel (include/nev/channel.h, src/nev/channel.cc) is one descriptor's interest in events, with
-- the `ev_io` watcher that `EventLoop::updateChannel` restarts.
-- TcpConnection (include/nev/tcp_connection.h, src/nev/tcp_connection.cc) is a state machine over
-- a channel and two buffers. TcpConnection/Events has the handlers, with the Windows version of
-- `Buffer::readFd`, and TcpConnection/Step the relation of all steps that callers, the kernel, timers
-- and the queue of the loop can take, in any order. Its `runs` step takes one functor of the connection
-- from the front of the queue.
-- `connectDestroyed` may come in any state, since the server's destructor calls it.
-- EventLoop (include/nev/event_loop.h, src/nev/event_loop.cc, src/nev/timer.cc) is the queue of functors
-- that `doPendingFunctors` runs, with the wakeups, `quit` and the map of timers. What a
-- callback calls on its loop is a list of actions, given by a parameter. libev is two flags and the
-- order of its watchers: the poll returns, callbacks run, then the check watcher runs the queue.
-- Outside of `loop()` its thread may make the same calls; the wakeups of EventLoop/Wakeups exclude what it
-- queues there, by a hypothesis on the run. The counter of timers is shared by all loops.
-- EventLoop/ThreadLocal has the pointer by which a thread knows its loop.
-- EventLoopThread (src/nev/event_loop_thread.cc) starts a thread and waits for its loop: the statements of
-- both threads are steps that interleave in any order, and so is the end of the owning pool. A field that
-- is used behind a delete is marked and still read.
-- EventLoopThreadPool (src/nev/event_loop_thread_pool.cc) hands out the loops.
-- Sockets (src/nev/sockets_ops.cc, src/nev/socket.cc) wraps the system calls: commands over the log of calls, in
-- do blocks, that return or end the process. What a call returns is an argument; Sockets/Descriptors
-- reads from a log which descriptors are open, and non-blocking, as on Windows.
-- Acceptor (src/nev/acceptor.cc) and TcpServer (src/nev/tcp_server.cc) accept and keep connections:
-- Acceptor/Owner adds the acceptor's socket, by the commands of Sockets, and
-- TcpServer takes a loop from the pool for each; TcpServer/System puts the server and its connections
-- together, each with the tasks that wait on its loop. The printing of a connection's number is a parameter,
-- with the hypothesis that numbers below 2 ^ 31 are printed differently; the number is an `int`, and a
-- run has fewer connections than that.
-- Connector (src/nev/connector.cc) and TcpClient (src/nev/tcp_client.cc) make a connection; TcpClient/System
-- puts the client and its connection together. That an attempt starts only on a connector that is
-- disconnected, as a `DCHECK` asks, is a condition on the run. The destructors of the client and of the server
-- are functions; the runs of TcpClient/System and TcpServer/System come before them.
-- IpEndPoint (src/nev/ip_address.cc, src/nev/ip_endpoint.cc) has addresses with their order, their text
-- and their conversion to `sockaddr_in`.
-- Http (include/nev/http, src/nev/http) has requests, responses and the server's handlers, which send
-- over TcpConnection. The generated parser is a parameter, and so is the printing of numbers. Http/Exchange
-- runs the server's callbacks on a connection with its context (TcpConnection/Context): its steps are
-- the events of that connection, each with the handler that it calls.
-- Demos (demos/nev_echo.cc, demos/nev_httpd.cc, examples/simple/discard/discard_server.cc) has the callbacks of servers
-- built on the library, and Demos/Echo the steps of a connection of the echo server.
--
-- No loop of the code needs fuel: each runs over a list.
--
-- Not modelled: the sockets API and libev themselves (deps/libev), logging, start-up code, the setters of
-- connection and message callbacks, whose calls are logged, and the HTTP parser (src/nev/http/http11_parser.rl),
-- which is Mongrel2's and generated.
mod Base
pub mod Buffer
pub mod Channel
pub mod EventLoop
pub mod EventLoopThreadPool
pub mod Acceptor
pub mod TcpConnection
pub mod TcpServer
pub mod Connector
pub mod TcpClient
pub mod IpEndPoint
pub mod Sockets
pub mod EventLoopThread
pub mod Demos
pub mod Http
