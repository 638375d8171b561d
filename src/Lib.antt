-- ===== src/Lib.antt =====
-- Verification of incite, a Go library that runs CloudWatch Logs Insights queries.
--
-- A query (QuerySpec, incite.go) that a manager accepts (mgr.Query, mgr.go) becomes a stream
-- (stream.go), whose range is cut into chunks (chunk.go). The manager hands chunks to three
-- workers (worker.go) with a rate limiter each (regulator.go, adapter.go): the starter
-- (starter.go) starts the query of a chunk with the service, the poller (poller.go) asks for its
-- results and appends them to the stream in blocks, and the stopper (stopper.go) stops it. The
-- poller decides to complete, restart or split a chunk. A client reads rows from the stream (Read,
-- and ReadAll in readall.go).
--
-- The files, and the code they are about:
--   Base      shared names, Boolean tests, integers over the native numbers, lists, texts
--   Clock     time.go, and time.Time and time.Duration as far as the program uses them
--   Stats     Stats and its add (incite.go)
--   Errors    errors.go: the errors as a data type, and classifyError
--   Stream    QuerySpec and ResultField (incite.go), stream.go: setErr is set_err, Close is
--             close, Read is blocking_read, nextChunkRange is next_chunk_range; Queue is a stream as
--             its callers see it
--   ReadAll   readall.go
--   Query     mgr.Query (mgr.go), a check per block of the source, and the new stream
--   Chunk     chunk.go, the first chunks (getReadyChunk) and the children (splitChunk) in mgr.go
--   Adapter   adapter.go
--   Regulator regulator.go, and the wait in the stopper's release
--   Service   what the workers use of the types of the AWS SDK
--   Worker    worker.go: loop is round_of, a round at a time; Ring and States are about the chunks
--             that a round keeps
--   Starter   manipulate and release in starter.go and stopper.go
--   Poller    poller.go: manipulate is poller_manipulate, and the translations of results
--   Manager   mgr.go: the handlers of the loop under their names, addQuery, getReadyChunk in
--             fill_ready and send_first, the inner loop of loop in dispatch, shutdown; the chunks
--             with a worker are those that were sent to it and have not come back; Sound, Counts
--             and Consistency are about its steps, Dispatching about the inner loop, Priority
--             about the order of the queue, Final and Others about what the handlers make of a stream
--   Setup     Config (incite.go), NewQueryManager and Close (mgr.go), the constructors of the
--             workers, the tables in cloudwatchlogs_actions.go, and the function Query (query.go)
--   Version   version.go
--   Working   a round of a worker's loop with its manipulate, what it leaves of the streams included
--   System    the manager with its workers and the channels between them: step is an event of the
--             loop of the manager, a round of a worker, or a call of a client; Kinds and Served are
--             about what is with a worker, Sends and Refills what the manager sends, Ends, Rounds
--             and Panics what a worker does, Coherence, Rests and Steps how they agree, Room what
--             is in the channels, Tracked and Accounts the chunks of the streams, Eof their end
--   Unmarshal unmarshal.go: Types and GoValues what reflection tells of Go types and values,
--             Numbers strconv, Columns the decodeCol functions, Select the sel functions, Rows the
--             functions that these return, Targets Unmarshal and array; the proofs in Typing (what
--             fill leaves), Decoders, Safety, RowSafety and Plain (what is chosen can decode),
--             Soundness and Total (all rows), Maps, Order (errors), Digits (numbers) and Panics;
--             Messages is the method Error of InvalidUnmarshalError
--   Examples  concrete inputs
--
-- How the code is represented. A time.Time is a number of nanoseconds since Go's zero time, so
-- times before the year 1 are left out; a time.Duration is an int64 with its wrap-around, and
-- Sub saturates. Texts are lists of code points. A map from texts to true is the list of its
-- keys, and the order in which Go visits it is a parameter. Pointers to a stream are its number
-- or an argument. A float64 of an adapter is a number of units, 2000000000 of which make 1.0, and
-- its rounding is left out; the metrics in Stats are whole counts. The answers of the service are
-- arguments of the functions that read them. An int has 64 bits, and make panics on a channel with
-- room for more pointers than an address space of 48 bits has; that memory runs out is left out.
-- Channels are lists with a flag, and what blocks or panics is a result of its own. Contexts, locks
-- and log texts are left out. In Unmarshal a function returns none where reflect panics. A Go value
-- is a tree, so two pointers to one target are left out; floats, times, JSON, the UnmarshalText of
-- a type, and whether a type has the methods of an interface, are parameters.
--
-- Fuel: split_children has a unit for each nanosecond of the chunk and one more, which is enough
-- since a child takes at least one; read_all has one list of changes for each round; fill_ready
-- has the length of the queue, since each stream that is dropped leaves it; dispatch has as much as
-- its caller gives, and the parallelism is enough, since each round sends a chunk or is the last:
-- System gives that much.
--
-- Not modelled: which of the goroutines runs next (the events come as a list, or as the steps of a
-- relation), other events during a round of a worker or of the manager, the shutdown as events,
-- the heap of container/heap (a parameter), a Result that Unmarshal takes for rows, GetStats, which
-- copies a field, and logging (log.go).
pub mod Base
pub mod Clock
pub mod Stats
pub mod Errors
pub mod Stream
pub mod ReadAll
pub mod Query
pub mod Chunk
pub mod Adapter
pub mod Regulator
pub mod Service
pub mod Worker
pub mod Starter
pub mod Poller
pub mod Manager
pub mod Setup
pub mod Version
pub mod Working
pub mod System
pub mod Unmarshal
pub mod Examples
