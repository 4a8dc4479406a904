-- ===== src/Lib.antt =====
-- AORTA: an HTTP server with an event loop for each thread, and a load balancer in front of several
-- such servers.
--
-- The server reads bytes from its connections into HttpParser, and the requests that the parser
-- completes go to the router and the handlers. The load balancer accepts connections, chooses a
-- backend for each (round robin, or a consistent hash of the client's address) among the backends
-- that its HealthChecker holds for healthy, and copies bytes both ways. This library models the
-- parser, a connection's buffers, the router, the handlers and the responses, the pool of threads that
-- works for the handlers, the tasks, the server's metrics, the choice of a backend, the health checks,
-- and how a connection fails over and is closed.
--
-- Which file is about which part (paths from the repository's root):
--   Prelude, Prelude/*        shared tests, lists, byte strings, numbers and maps
--   Http/Ctype                the character classes of <cctype> that the parser uses
--   Http/Request              include/http/HttpRequest.hpp, src/http/HttpRequest.cpp
--                             (Tokens: the elements of a header's value)
--   Http/Names                header names whatever the case of their letters
--   Http/Response             include/http/HttpResponse.hpp, src/http/HttpResponse.cpp
--     Defs, Framing, Reading    the setters and the text; its framing; a client's reading of it
--   Http/Router               src/http/HttpRouter.cpp; Outcome: its three outcomes
--   Http/StaticFile           src/http/StaticFileHandler.cpp; Safe: the paths it accepts
--   Http/Handler              src/http/HttpHandler.cpp
--     Escape, Json, Reading     escapeJson and the tasks' JSON; a reader of JSON, at that text
--     Form                      urlDecode, getFormValue
--     Encoding, Submitted       a browser's two encoders; the forms that it prints with them
--     TaskId, Body              parseTaskId; the title and the flag of a request
--     Answers, Dispatch         the responses; registerRoutes, the handlers and handle
--     Framed, Answered          what holds of every answer
--   Http/Parser               src/http/HttpParser.cpp, include/http/HttpParser.hpp
--     Defs                      constants, the state, reset, consumeParsedBytes, the validity tests
--     Outcome, Steps, Loop      parse: a step per `if(state == ...)`, and the `while(true)` around them
--     Bounds, Total, Accepted   the limits, termination, and what an accepted request satisfies
--     Session                   parse as src/net/Connection.cpp calls it, over a sequence of buffers
--   Net/Connection            include/net/Connection.hpp, src/net/Connection.cpp
--     Defs, Input, Output       the state, the receive buffer with its parser, the output queue
--     Writes, Frames            the rule of the write loop, and what an operation leaves alone
--     Accounts, Stream, Complete, Run   the queue's size, the bytes sent, any order of calls
--   Server/Metrics            include/server/Metrics.hpp, src/server/Metrics.cpp
--     Defs, Tally, Percentiles  the counters and getters; the histogram; the percentiles
--   Worker                    include/worker/WorkerPool.hpp, src/worker/WorkerPool.cpp
--     Defs, Sums, Run           the steps under each mutex, and the states that they reach
--     Channels, Steps, Conserved   what each step keeps, and what holds of every state
--     Wakes                     the signals to src/server/Reactor.cpp's handleCompletions
--   Tasks                     include/task/TaskManager.hpp, src/task/TaskManager.cpp
--     Defs, Sorted              the works of the calls; a listing
--   Lb/Backend                include/lb/Backend.hpp, src/lb/BackendPool.cpp
--   Lb/BackendConfig          src/lb/BackendConfig.cpp: load; Valid: the backends it lists
--   Lb/ConsistentHash         src/lb/ConsistentHash.cpp: hash, build, getBackend
--   Lb/Selection              src/lb/LoadBalancer.cpp: loadRoutingMode, selectRoundRobinBackend,
--                             selectBackend
--   Lb/HealthChecker          src/lb/HealthChecker.cpp
--     Defs, Start, Io, Events   its operations; Run: the states that they reach
--     Hysteresis, Descriptors, Deadlines, Timeout   its properties
--   Lb/Connections            src/lb/LoadBalancer.cpp: connectToBackend, closeConnection,
--                             connectClientToBackend, failoverConnection, closeAllConnections
--     Defs, Failover, Connect   the operations
--     Counted, Kept, Connected, Accounts   the connection counts
--
-- A byte string is a list of numbers. A member function is a function on a record of the class's
-- fields, an early return in the middle of a loop is an `Outcome`, and an output parameter is a
-- component of the result. What a system call answers is an argument: `Probe`, `Sent`, `Received`
-- and `Event` of Lb/HealthChecker list the answers that the source distinguishes, and a list of
-- them holds what a loop is answered before it would block. The calls on descriptors are a log in
-- the state. In Net/Connection, `Arrival` and `Transfer` are the answers of recv and of send and
-- sendfile, `wire` records the bytes that the socket took, and `files` says what stands in a file. In
-- Http, `stat`, the task manager's acceptance and the text of the metrics are arguments, and `handle`
-- returns the call of the task manager that it made. In Worker, a work and its completion are a number,
-- and a step is a block under a mutex or one system call, so that threads interleave between steps;
-- whether the write to an eventfd succeeds is an argument. The clock is a number of nanoseconds that the
-- calls are given. Maps are association lists, and the ring, a std::map, is one in the order of its
-- keys.
--
-- Fuel: `run` of Http/Parser/Loop has 2 * length buffer + 2 rounds; every round but the last of a
-- state moves the cursor or the state forward, which Http/Parser/Total proves to be enough. `walk` of
-- Lb/ConsistentHash has one round for each entry of the ring, since the source's loop ends when it
-- is back at its start. `to_string` has a round for each digit. The loops of hasHeaderToken and of
-- getFormValue have a round for each character of the text, and each round leaves a shorter rest.
--
-- Machine integers: the hash is computed modulo 2^64, and the parser's subtractions of std::size_t
-- wrap where the source's do; its sums are of lengths of buffers in memory and do not. The time
-- that nextTimeoutMs waits is a signed difference that is converted to an int of 32 bits. The failure
-- counter of a backend is an int that rises at most once in five seconds, and its overflow is left
-- out.
--
-- Not modelled: the rest of the load balancer (accepting, the copying of bytes, its event loop,
-- its metrics), the reactor, and Redis, which is an interface of Tasks. Sockets, epoll and timers are
-- input and output.
pub mod Prelude
pub mod Http
pub mod Net
pub mod Server
pub mod Worker
pub mod Tasks
pub mod Lb
