-- ===== src/Lib.antt =====
-- Flux, a reactor network library with an HTTP server, and what is proved of it.
--
-- The program. An EventLoop (source/Reactor/EventLoop.hpp) waits in its Poller (Poller.hpp) for events,
-- lets the Channel (Channel.hpp) of each call its callbacks, and runs the tasks that other threads
-- have queued. A LoopThread runs one loop, a LoopThreadPool several, and TcpServer gives the
-- connections that its Acceptor accepts to them in turn. A Connection reads bytes from its Socket
-- into an input Buffer and sends from an output Buffer (Buffer.hpp), and a TimerWheel of its loop
-- (TimerWheel.hpp) closes it when it stays idle. The HTTP server (source/Http/http.hpp) takes
-- requests from the input buffer, decodes and checks their path and query with class Util, keeps
-- its state in a value of class Any, and answers through the output buffer.
--
-- The modules.
-- - Prelude: shared names, tests, lists and byte strings over the native numbers, uint64_t
--   arithmetic with its wrap-around, and the results of code that can stop the process.
-- - Buffer: class Buffer of source/Reactor/Buffer.hpp, one definition for each method, under the
--   method's name in snake case. Inv has the invariant and the readable bytes, Space and Write the
--   writes, Read and Lines the reads, Transfer the copies between buffers, Stream the queue of bytes
--   that a buffer implements.
-- - Http.Tables and Http.Util: the tables and class Util of source/Http/http.hpp. Split, Url, Path
--   and Mime have the proofs about the methods of these names, Tokens the parts that Split is to
--   return, Encoded the codes of paths, Files ReadFile, WriteFile, IsDirectory and IsRegular.
-- - Http.Request and Http.Response: the classes HttpRequest and HttpResponse of the same file, and
--   the headers and the text of HttpServer::MakeResponse. Headers has the tables, Length and Decimal
--   std::stol, Complete and Digits the headers that MakeResponse adds.
-- - Http.Line: the regular expression of HttpContext::ParseHttpLine, and in Printed what its parts
--   match of a line that a client writes.
-- - Http.Context: class HttpContext, the state machine of a request that takes its bytes from the
--   input buffer. Progress, Head and Safety have its invariant, Body the bytes of the body,
--   Printed with Head and Whole what becomes of a request that a client writes.
-- - Http.Server: class HttpServer. Routes, Serving and Confined have the proofs about Route, Message is
--   OnMessage as the events that it asks for, its Steps and Total the proof that it ends, by the
--   measure of Http.Context.Bound. Session is OnMessage on a Connection; Follows, Shutdown, Answers
--   and Refines prove that the connection goes the way of these events; Costs, Rounds and Safe that
--   every history of a connection of the server keeps the invariant of Connection.
-- - TimerWheel: classes TimerTask and TimerWheel of source/Reactor/TimerWheel.hpp. Slots has the
--   vectors of the wheel, Tick the tasks that a tick destroys, Schedule and Pushes the time that a
--   task is due, Timers and Refresh the methods.
-- - TcpServer: class TcpServer of source/Reactor/TcpServer.hpp with LoopThreadPool of
--   LoopThreadPool.hpp. Table has the numbers and the table of the connections, Admit NewConnection
--   on a Connection.
-- - Channel: class Channel of source/Reactor/Channel.hpp. Masks has the switches that its event mask
--   implements, Events what a reset calls.
-- - EventLoop: class EventLoop of source/Reactor/EventLoop.hpp as the steps of its thread and of the
--   threads that queue tasks. Order has the order of the tasks, Wakeup the eventfd, Progress the
--   rounds of the loop.
-- - Socket: class Socket of source/Reactor/Socket.hpp, the system calls being parameters. Results has
--   Recv and Send, Server CreateServer, Close the closing.
-- - Connection: class Connection of source/Reactor/Connection.hpp over Buffer, Channel, Socket and
--   TimerWheel. Basics has the methods that run no callback, Handlers those that do, Inv and Steps
--   the invariant, Methods every handler under it, Stream their histories, Output SendInLoop,
--   Shutdown, Release and Inactive the methods of these names, Silent callbacks that make no calls.
-- - Poller: class Poller of source/Reactor/Poller.hpp beside the interest list of the kernel; Watched
--   compares the two. Acceptor: class Acceptor of Acceptor.hpp. LoopThread: class LoopThread of
--   LoopThread.hpp as the steps of its thread and of its owner; Join has the destructor.
-- - Any: class Any of source/Reactor/Any.hpp, variables over a heap of holders. Values, Reset and Assign
--   have the constructors and the methods, History the values that the variables stand for.
--
-- Conventions. A byte is a number; a std::string is a list of bytes. A failed assert, a copy outside
-- an array, a null pointer that is followed and an exception that nothing catches are faults of Prelude. The capacity of a vector
-- follows libstdc++. The loop of Split runs on fuel, one more than the text is long, and is proved
-- never to run out for a separator of one byte, which is all that the program uses. The loop of
-- RecvHttpHead has one round more than the buffer has readable bytes, and each round but the last
-- takes at least one of them. OnMessage is proved to end within three rounds more than there are
-- readable bytes. User handlers, the patterns of the routes and the file system are parameters. A
-- shared_ptr to a timer is the number of its task, and a task lives while the wheel holds its number;
-- timer callbacks are opaque; Release of a connection, which is one, calls TimerCancel, which changes
-- nothing for a task that is being destroyed. The callbacks of a connection are
-- numbers; of the user's callbacks a program, a parameter, tells the calls that each makes, and
-- they nest up to a depth, as the stack allows, and what runs out of it is a fault; those of the
-- HTTP server are its own methods, with fuel for three rounds more than the largest buffer has
-- bytes, which is proved never to run out. The bytes and errors that the kernel gives, which
-- calls of epoll_ctl it refuses, and the order of the steps of several threads, are arbitrary.
--
-- Not modelled: Socket's GetPeerString, and logging. The files of class Util are what the streams and
-- stat answer, which are arguments.
-- wrk_test_server holds a copy of another project; example and test hold programs of their own.
pub mod Prelude
pub mod Buffer
pub mod Http
pub mod TimerWheel
pub mod TcpServer
pub mod Channel
pub mod EventLoop
pub mod LoopThread
pub mod Socket
pub mod Acceptor
pub mod Any
pub mod Poller
pub mod Connection
