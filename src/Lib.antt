-- ===== src/Lib.antt =====
-- A model of the green_turtle C++ library: the containers and the network core that a server of it
-- stands on, and the theorems that make them correct.
--
-- The parts, and the files that model them:   Base            numbers, Boolean tests, lists, bits
-- and words that the other parts share   MessageQueue    green_turtle/message_queue.h: the ring
-- queue between two threads.                   MessageQueue/Track relates it to the history of
-- pushed values, Made is about the                   constructor; Threads runs
-- `Push` and `Pop` one shared access at a time, in any interleaving   UnorderedList
-- green_turtle/unordered_list.h: slots with a free list; Slots sees them as a
-- partial map, Walk is about `for_each`   VectorMap       green_turtle/vector_map.h: a sorted
-- vector of pairs; Order is about its keys,                   Lookup takes the operations apart
-- pair by pair, Sorted sees it as a partial map   BlockingQueue   green_turtle/blocking_queue.h;
-- Batches runs any sequence of calls   Buffer          green_turtle/buffer.h: the byte buffer;
-- Bytes is about its readable bytes, Reads about                   HasRead and sizes past an int
-- MySql           the result sets and commands of green_turtle/mysqlcxx.{h,cc}; Rows is the loop
-- over                   a result, Connection the calls of the client library, Statements of it
-- about                   commands   XmlDocCache     green_turtle/xml_doc_cache.h; Times is about
-- what loading leaves in the cache   CommandFlags    green_turtle/flags.{h,cc}; Values is about the
-- value of a flag   Format          green_turtle/format.h; Digits is about hexadecimal digits,
-- Pieces about Format,                   Upper about ToUpper   Logger
-- green_turtle/logger.{h,cc} and log_file.{h,cc}; Header is about the header of an
-- entry, Entries about the buffers, Links about the link of a file   Net/TimerQueue
-- green_turtle/net/timer.{h,cc} and timer_queue.{h,cc}: the timing wheel, whose
-- slots are the lists of UnorderedList. Arithmetic is about the constructor and the
-- times, Links about the links between timers and slots, Fire about the inner loop,
-- Ends about the end of Update   Net/Descriptors  who closes which descriptor, in
-- green_turtle/net/socket_option.cc,                   tcp_acceptor.cc and event_handler.cc, over a
-- table that the system keeps   Net/SocketOption  the results of the system calls of
-- green_turtle/net/socket_option.cc   Net/BufferedSocket  green_turtle/net/buffered_socket.{h,cc}:
-- queued messages and two buffers of                   Buffer; Stream and Wire are about sending,
-- Receive about reading   Net/EventHandler  green_turtle/net/event_handler.{h,cc}; Answers is about
-- HandleEvent   Net/Poller, Net/PollPoller  green_turtle/net/poller.{h,cc} and poll_poller.{h,cc}:
-- Places and                   Removal keep the index that a handler has in the array, Masks is
-- about PollOnce.                   Poller/Backend is the interface of a poller with its laws,
-- which                   PollPoller/Methods and EpollPoller/Methods meet   Net/EpollPoller,
-- Net/KqueuePoller  green_turtle/net/epoll_poller.{h,cc} and
-- kqueue_poller.{h,cc}; Agrees is about both kinds of PollOnce, Filters and Refused
-- about the filters of kqueue   Net/IoLoop      green_turtle/net/io_loop.{h,cc}, over any poller:
-- View is the set of handlers                   that a loop stands for, Due and Changes are about
-- its queue, Handling, Rounds and                   WholeRound about a round, TimeOuts about
-- time-outs   Net/ConnManager   green_turtle/net/conn_manager.{h,cc}; Held is about what a
-- descriptor has   Net/EventLoop, Net/TcpAcceptor  the round robin of
-- green_turtle/net/event_loop.cc and                   tcp_acceptor.cc, on the arithmetic of
-- Net/Balance. EventLoop/Run is the main                   thread: Passes is about a pass, Whole
-- about all, Threads about the start   Net/Message     the byte string of
-- green_turtle/net/message.h; Members is about the pointers                   into it
-- Kv/Protocol, Kv/MessageLoop, Kv/Server  kv/protocol.h, kv/message_loop.{h,cc} and the IoTask of
-- kv/server.cc
--
-- A socket of BufferedSocket is an EventHandler, which a poller of its IoLoop fires; the acceptor
-- hands new ones to the loops and the ConnManager records them. The server's IoTask is a
-- BufferedSocket whose Decoding cuts the buffer into messages for the MessageLoop of their
-- affinity.
--
-- A method is the function of its name in snake_case, from a state to a state. A `size_t` or
-- `uint64_t` is a number below 2^64, whose sums and differences wrap (`add64`, `sub64`). Pointers to
-- timers are their addresses. What the program supplies (`OnTimeOut`, `Decoding`) and what the system
-- calls return are parameters.
--
-- Out of bounds accesses and copies past the end of an array are `none`. Loops that need not end
-- take fuel, and `none` is also what they give when it runs out: the loop of a timer takes as many
-- rounds as `firings` counts and one more, the loop of the constructor one more than the exponent,
-- and `Decoding` one more than the messages. A descriptor is taken to be small enough for an int to
-- hold twice it, and a system call gives what its manual says.
--
-- A pass of the main thread turns the wheel and then tells of the connections that the threads
-- reported to the ConnManager; it is given what the clock, the callback and the threads do in it.
--
-- A round of an IoLoop is given what the clock, the system, the handlers and the other threads
-- answer in it; its poller is any that keeps the laws of Poller/Backend. `Run` is told where it
-- stands when the passes are used up: a `join` returns where the loop of the thread was told to
-- end. The stores of an entry of the logger past the end of its buffer are told by their index.
--
-- Not modelled: decimal digits, `Pop` of one value of a BlockingQueue, destructors that free
-- memory, `reserve`, the fences of `std::atomic`, and what only forwards system calls.
pub mod Base
pub mod MessageQueue
pub mod UnorderedList
pub mod VectorMap
pub mod BlockingQueue
pub mod Buffer
pub mod MySql
pub mod XmlDocCache
pub mod CommandFlags
pub mod Format
pub mod Logger
pub mod Net
pub mod Kv
