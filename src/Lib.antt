-- ===== src/Lib.antt =====
-- libsg is a C++20 library of helpers: networking over Boost.Asio, threads that tick, buffers, file
-- and byte helpers. This development models the parts that have logic of their own.
--
-- Parts, files and the code that they model:
--
-- - TcpSession (net/src/tcp_session.cpp, net/include/sg/net/tcp_session.h): `tcp_session`. The record
--   `Session` has the members under their names without `m_`, and beside them where `start()`, the
--   coroutines `reader()` and `writer()`, the callers of `close()` and `close_impl()` stand.
--   `TcpSession.Calls` has what other threads call, `TcpSession.Strand` what runs on the strand; each
--   critical section, each atomic operation that others can observe and each stretch of a coroutine
--   between two suspensions is one function. `TcpSession.System` lets them interleave (`Step`,
--   `Steps`, `Reach`) under `Rules`, which say what the environment may do. Child modules named for
--   what they prove follow. The socket enters as the steps that succeed or fail with an error code
--   or after taking some of the bytes.
-- - RollingBuffer (common/include/sg/rolling_contiguous_buffer.h): `rolling_contiguous_buffer<T>`.
--   `RollingBuffer.Storage` is the part of std::vector that it uses, with the growth policy as a
--   parameter (`Growth`, whose two laws are what the standard libraries document: enough room, and at
--   most doubling unless more is needed). `size_t` arithmetic wraps at 2 ^ 64.
-- - Worker (common/src/worker.cpp, common/include/sg/worker.h): `worker`, a thread that ticks. The
--   record `Worker` has the atomics of the class and where the thread of `action()` stands;
--   `Worker.System` lets the thread, the callers of `start()` and those of `notify()` and
--   `request_stop()` interleave. Time enters only as the step that ends a wait.
-- - StateMachine (common/include/sg/state_machine.h): `state_machine<TState>` on top of the worker.
--   States and callbacks are numbers, the map of states is an association list, and what callbacks
--   do (call `set_state`, throw) is a parameter, `Behaviour`. The log holds the callbacks in the
--   order in which they are invoked. `StateMachine.Registry` has the members that fill the map,
--   `StateMachine.Expected` says which callbacks a run should invoke, without running the machine.
-- - Listener (net/src/tcp_server.cpp): `tcp_server::listener`. One turn of its loop is an `Attempt`,
--   with what it reads of the stop flag, what the accept gives and what the filter says; the log has
--   what the loop does to the outside. Times are milliseconds.
-- - FileWriter (common/src/file_writer.cpp, common/include/sg/file_writer.h): `file_writer`. The thread
--   of `action()`, `write_async()` and `stop()` interleave (`FileWriter.System`); what the semaphore
--   makes of `release()` is a parameter.
-- - TcpServer (net/src/tcp_server.cpp, net/include/sg/net/tcp_server.h): `tcp_server`. `Server` has the
--   flags and counts of the class and the list of the sessions of this run by their id; `start()`, the
--   thread of `stop_async()`, the listeners, the users and the callbacks of each session interleave.
--   `TcpServer.Sight` has what the server sees of a session of `TcpSession`, `seen`, and
--   `TcpServer.Hosting` compares the steps of that session with those that the server allows.
-- - IoPool (net/src/asio_io_pool.cpp, net/include/sg/net/asio_io_pool.h): `asio_io_pool`. `Inner` is
--   what the pool's threads do by themselves, `Step` adds the callers.
-- - Crc (common/src/crc.cpp, common/src/include/crc32c_tabular.h): CRC-32 and CRC-32C by tables, on a
--   little-endian processor. `Crc.Bytewise.bytewise` is the definition bit by bit; `blocks` takes the
--   number of bytes as fuel.
-- - TcpClientSync (net/src/tcp_client_sync.cpp, net/include/sg/net/tcp_client_sync.h): `tcp_client_sync`.
--   Beside its members, `Client` has two histories, `received` and `returned`. What an operation of
--   Boost.Asio did when `run_with_timeout` returns is an `Answer`; `TcpClientSync.Contract` has what
--   Boost.Asio documents of it.
-- - TcpClient (net/src/tcp_client.cpp): `tcp_client`, on the sessions of `TcpSession`: `TcpClient.System.Step`
--   lets the steps of the current session interleave with the calls of the client's user.
-- - Bytes (common/include/sg/bytes.h): bytes of integers and floating point numbers in a chosen order, on
--   a processor of any byte order. `Bytes.Message` reads and writes several one after the other.
-- - Buffers (common/include/sg/buffer.h, common/src/memory.cpp, common/include/sg/memory.h): `unique_buffer`
--   and `shared_buffer` over blocks from malloc, with `free` as their deleter, and with the heap. `Memory`
--   has the allocated blocks with their sizes, all variables, the blocks that the user has as bare
--   pointers, and those that a shared pointer will give to `delete[]` instead;
--   `Buffers.Allocation` has what allocates, `Buffers.Ownership.Step` is what a program may do.
-- - Channels (common/include/sg/data/channel_vector.h, common/include/sg/data/channel_rolling.h):
--   `from_bytes` of both channels, on the buffer of `RollingBuffer` and the bytes of `Bytes`.
-- - Math (common/include/sg/math.h): the helpers on powers of two, for each unsigned type. The loop takes
--   as fuel the number of digits of the type: its shift doubles up to half of that.
-- - Ranges (common/include/sg/ranges.h): `flatten` of ranges nested to any depth. A vector is a list of
--   fixed length, an iterator a position in it.
-- - Bounds (common/include/sg/bounds.h): indices of bounds in a sorted array of numbers.
-- - BackgroundTimer (common/src/background_timer.cpp): `background_timer::impl`. Its thread, the caller
--   of `start()` and `wait_for_stop()`, one at a time, and any other callers interleave; how long the
--   sleep is does not enter.
-- - Common: the library names that all use, lists over native numbers, words, the binary operations
--   by their lowest digit, the last elements of a list.
--
-- Where the code is concurrent, `mutex` and strand exclusion are guards of the step relation and
-- memory is sequentially consistent; the orders that the code asks for (acquire, release) are not
-- told apart. A catch block of the session loads the state in one step and stores the error in a
-- later one. Loops are over lists; `Worker.Iterations.run` takes a number of steps, and what is said of it gives the number
-- and that it is enough.
--
-- Not modelled: socket options and endpoints beyond success or failure, the text of exceptions,
-- `set_keepalive`, waiting (`wait_until_stopped`), aliasing of an element pushed into its own buffer,
-- and the parts that PROJECT.json lists as not modelled: code that only calls the operating system,
-- Boost, ImGui or zstd, and the copies of other libraries under common/include/sg/internal.
pub mod BackgroundTimer
pub mod Bounds
pub mod Buffers
pub mod Bytes
pub mod Channels
pub mod Common
pub mod Crc
pub mod FileWriter
pub mod IoPool
pub mod Listener
pub mod Math
pub mod Ranges
pub mod RollingBuffer
pub mod StateMachine
pub mod TcpClient
pub mod TcpClientSync
pub mod TcpServer
pub mod TcpSession
pub mod Worker
