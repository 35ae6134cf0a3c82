-- ===== src/Lib.antt =====
-- The verification library of the wrapper, the program between Waterproof (a proof editor, the client)
-- and sertop (a front end of Coq). Clients connect to a socket of the server and send requests; the
-- conductor starts, destroys and feeds one worker for each instance; each worker runs one sertop
-- process and gives its answers back to the conductor, which hands them to the server as responses.
--
-- The parts of the program and the files that model them:
--   * Utils/Buffers: src/utils/buffers.h, buffers.cpp: 32-bit words in a buffer of bytes.
--   * Utils/Config, Utils/Exceptions: src/utils/config.cpp, exceptions.cpp.
--   * Message: src/waterproof/message.h, message.cpp: requests and responses, `operator<`, and
--     `from_json` and `to_json`. Json is nlohmann::json as a parameter: what the code calls are fields
--     of `Json`, what it relies on are fields of `IsJson`; Json/Toy is an instance.
--   * Platform/Setup: constructors as rows of calls that may fail, with what they acquire and release.
--   * Platform: the calls of src/posix/api.h as fields of `Api`, with the documented behaviour of
--     stream sockets as `IsStream` and `IsReliable`; Platform/Pipe is an instance.
--   * Server: src/waterproof/server.h, server.cpp. Server/Queue is the priority queue of responses,
--     Server/Frame is `read` and `write`, Server/State has the members and `enqueue`, `unmap`, `fail`,
--     `invalidate`; Server/Loops has a round of `accept_loop`, `read_loop` and `write_loop`.
--     Server/Startup has the constructor and the destructor, for POSIX (server_posix.cpp) and for Windows
--     (server_win.cpp).
--   * Worker: src/sertop/worker.h, worker.cpp, worker_posix.cpp. Worker/Parse is `parse`; Worker/Posix
--     has the constructor, the child process, the destructor, `fail` and `enqueue`;
--     Worker/Posix/Loops has a round of `read_loop` and `write_loop`. Worker/Windows is worker_win.cpp:
--     the constructor, the destructor, `fail`, the overlapped `write` and `read_loop`.
--   * Conductor: src/conductor.h, conductor.cpp: the callbacks and `handle_request`; Conductor/Round is
--     the loop `run`; Conductor/Service is what the conductor promises, as an abstract service.
--   * System: the conductor, the server and the reports of the workers as one system of moves, each a
--     round of a thread or a callback, in any order. System/Input follows requests from a client's
--     socket to sertop's standard input, System/Output follows sertop's output to the client.
--   * Locks: the mutexes that the threads of the conductor, the server and the workers lock and unlock,
--     and the threads that they join, in order, with the turns in which they go on.
--   * Program: src/main.cpp.
--   * Base: lists, maps, integers, bits and tests. Tests: runs at concrete inputs.
--
-- Each component is a record of its members. An operation is a function to the new members and a list
-- of effects in order: what it does outside them, such as a call of a callback or the closing of a
-- descriptor. It runs under the mutex of the members that it touches, so it is one step; the rounds of
-- the threads are steps as well. What `poll`, `accept` and the locks give in a round is an argument.
-- Exceptions and undefined behaviour are values of the results.
--
-- Fuel: the loops of `read` and `write` run on fuel. `read` gives each loop as many rounds as it has
-- bytes to read, which are enough since each round that goes on has read one at least; `write` takes
-- its fuel as an argument, and as many rounds as the message has bytes are enough on a socket that
-- takes a byte at least in each call. On another socket the source may loop for ever, too.
--
-- Not modelled: the forwarding wrappers of the platform, `wait` and `last_error`, logging, the waiting on
-- condition variables, and, but for the mutexes and joins in Locks, the interleavings of the threads
-- within a round. The destruction of a worker joins its threads: whether they end is a parameter
-- (`threads_end`), and on a thread of the worker itself the join ends the program. Lengths of messages
-- from sertop stay below 2 ^ 31, and keys of the `int` map of clients are taken as the instance ids that
-- they are.
pub mod Base
pub mod Utils
pub mod Json
pub mod Message
pub mod Platform
pub mod Server
pub mod Worker
pub mod Conductor
pub mod System
pub mod Program
pub mod Locks
pub mod Tests
