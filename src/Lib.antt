-- ===== src/Lib.antt =====
-- handy is an event-driven network library in C++. This library models its core and proves what
-- makes it correct. Paths are from the repository's root.
--
-- Bytes come in at a TCP connection (Conn: handy/conn.h, handy/conn.cc) whose channel a poller
-- watches (Poller: the epoll half of handy/poller.cc, and Channel in handy/event_base.cc; Kqueue:
-- its other half). The connection gathers them in a buffer (Buffer: handy/net.h, handy/net.cc); the
-- loop of onMsg (Dispatch: handy/conn.cc) asks a codec (Codec: handy/codec.h, handy/codec.cc, over
-- Endian: handy/port_posix.h) for messages, which are slices (Slice: handy/slice.h), and hands them
-- on. Http (handy/http.h, handy/http.cc) decodes its own messages from the same input. Timers and
-- Idle (handy/event_base.cc) are what the event loop runs besides; other threads reach it by a
-- SafeQueue (handy/threads.h) and a pipe that wakes it (EventLoop: handy/event_base.cc). Server
-- (handy/conn.cc) accepts connections and deals them out to the loops; Hsha (handy/conn.cc,
-- handy/udp.cc, handy/threads.cc) has requests answered by the threads of a pool, whose steps and
-- those of the loop come in any order. Udp (handy/udp.h, handy/udp.cc) is the same for datagrams.
-- Beside them stand Conf (handy/conf.h, handy/conf.cc) for configuration files, Logger
-- (handy/logging.h, handy/logging.cc), Status (handy/status.h), Daemon (handy/daemon.cc), Files
-- (handy/file.h, handy/file.cc), over a file system that is a parameter, StatServer
-- (handy/stat-svr.cc), which answers requests of HTTP with pages that callbacks fill in or that are
-- files (Files.Serving), and Proto (protobuf/proto_msg.h, protobuf/proto_msg.cc), for messages of
-- the protobuf library, which is a parameter. Two programs are modelled too: RawEpoll
-- (raw-examples/epoll.cc), a server over epoll without the library, as it treats one connection, and
-- Load (10m/10m-svr.cc, 10m/10m-cli.cc), the reports and the schedule of the load test.
--
-- Base holds what these share: lists over the native numbers, Boolean tests, scans by a test, the
-- arithmetic of size_t and int. Each component's file holds its state and operations, under the
-- names that the source has; the files below it prove what they are named for. Tests runs them on
-- short inputs.
--
-- Modelling. A size_t wraps modulo 2 ^ 64 where the source adds or subtracts, and an int is its
-- value in 32 bits. An iterator or pointer that points at nothing is `none`. What the kernel, the
-- clock and the user's callbacks do are arguments: the results of reads and writes, the time, and
-- functions on the state. Conn.Lifecycle has connect, attach, close and the timers' tasks,
-- Conn.Stages to Conn.Moves what keeps a connection's channel in step with its state. Threads are an
-- indexed step relation: the push and the write of safeCall are two steps, and so are the read of
-- the pipe and each pop behind it. A connection's buffers are their bytes, since Buffer.Refinement
-- shows that a buffer is a queue of bytes; its address, its idle list and its callbacks' code are
-- not kept.
--
-- Fuel. The loop of onMsg, that of handleTimeouts, that of Conf.parse, that over header lines and
-- that of callIdles run on fuel; out of fuel the first two give `none` and the others stop. The
-- length of the input and one more is enough for the first, and the input's length for parsing; a
-- file's line, a header line and a part of a query each take at least one byte. callIdles takes the
-- list's length and one more, which is enough for every idle time but 0. handleTimeouts takes a
-- round for each timer that is due and for each further time that a repeated one comes to be due,
-- and one more, where the tasks set no new timer that is due, as calls of runAt for a later time do
-- not (Timers.Calls). The threads of Hsha and of a loop's wake-ups come to rest within a weight that
-- each step lessens.
--
-- EventLoop.Looping is the loop itself: in each round the poller's loop is a function on the base,
-- the timers are those of Timers. What cleanup of a connection does to the base is a function too.
-- kevent is a parameter of Kqueue; what the property needs of it is in Kqueue.Filters.IsKevent. A
-- method that is called through a NULL channel_ ends the program; a connection notes that with the
-- effect calls_null and goes on, so that what is proved of it holds up to there and beyond.
--
-- The file system of Files.System is a record of the system's calls; what the properties need of it
-- is in Files.System.IsLawful: a call that fails has a positive errno, write takes at most what it
-- is given, the reads of a file are its pieces in order, and no two names are of one file.
--
-- Not modelled: making and destroying a poller; the resolver, the clock and printf-style formatting,
-- which are calls of the system; Conf::getReal, for it is floating point; the short example
-- programs, of which raw-examples/epoll-et.cc repeats raw-examples/epoll.cc with edge-triggered
-- events; the part of the load test that only sets up the library's objects; tests.
mod Base
mod Tests
pub mod Slice
pub mod Buffer
pub mod Endian
pub mod Codec
pub mod Dispatch
pub mod Timers
pub mod SafeQueue
pub mod Conn
pub mod Conf
pub mod Http
pub mod Poller
pub mod Kqueue
pub mod Idle
pub mod EventLoop
pub mod Files
pub mod Hsha
pub mod RawEpoll
pub mod Server
pub mod Load
pub mod Logger
pub mod Status
pub mod Udp
pub mod Proto
pub mod StatServer
pub mod Daemon
