-- ===== src/Lib.antt =====
-- gpuq (src/gpuq/): a scheduler that runs queued commands on one GPU, one at a time, and lends the
-- GPU to interactive work by leases. A daemon (daemon/server.py) owns the state; clients send it
-- requests over a socket.
--
-- The parts, and the files that model them:
--
-- state.py, the SQLite tables, is State: a row is a JobRecord, a table the list of its rows in
-- rowid order. State/Jobs has the methods of JobRepo by their SQL (get, insert_job for insert,
-- delete, find, update_state, max_queued_priority, bump, next_queued, running_jobs for running),
-- State/Leases those of LeaseRepo. ORDER BY is a stable sort: rows that compare equal stay in
-- rowid order, where SQL leaves the order open. A second row with an id, an IntegrityError, is
-- none. cmd and env are stored as JSON; a JobRecord holds the values. State/Rows has the columns
-- of the table as SQLite keeps them: _row_to_job, the arguments of the INSERT, and the schema and
-- migrations of Store.init. State/Rows/LeaseRows has the rows of leases. State/Store is the table
-- up to the order of its rows. Priorities are integers without SQLite's bound of 64 bits.
--
-- daemon/queue.py is Queue: the class Queue over the table and the flag of its asyncio.Event, and
-- Queue/Runtime (pid_alive, recent_mean_runtime, wedge_signature; Queue/Runtime/Mean bounds the
-- mean, Queue/Runtime/Wedge says which jobs are wedged). Queue/View is the abstract queue, the
-- queued rows in the order in which they will run.
--
-- protocol.py is Protocol: the decoded requests and events as records and data types, with the
-- payloads that the daemon builds. Its children are about the frames: Protocol/Json has JSON
-- values, Protocol/Schema the dataclasses with their fields and the tables of ops and types,
-- Protocol/Codec encode_request, decode_request, encode_event, decode_event, _dump and _load,
-- Protocol/Instances the requests and events as instances of their dataclasses, and Protocol/Typed
-- the way back, which the handlers take for granted. Protocol/Verdict and Protocol/Filled say what
-- any line decodes to. json.dumps and json.loads are fields of a record.
--
-- daemon/server.py is Bus and Server. A handler is a function from the server to an Outcome: the
-- events sent to its client, the server after it, and whether an exception left it. Server/Inspect
-- is ps, show and bump; Server/Submit is submit and retry; Server/Eta is _compute_eta;
-- Server/Stream is _stream_until_terminal; Server/Attach is _handle_attach, on the logs, and
-- Server/Attach/Mirror the way of a line from the pumps to the bus; Server/Cancel is cancel, with
-- the servers seen at its polls as arguments, and Server/Cancel/Timed the same with its deadlines
-- and the clock; Server/Repair is doctor and prune; Server/Lease is lease and release; Server/Run
-- is _run_job, cut where it awaits; Server itself has start and _reconcile_on_startup.
-- Server/Schedule puts these together: a Step is what the scheduler's task or a client's handler
-- does between two awaits, and Reach is any sequence of them, so that a theorem on Reach holds for
-- every interleaving; Server/Drained is the scheduler alone. Server/Connection is _handle and
-- _dispatch: a line from a client, the handler of its request, and the error event for what goes
-- wrong. Server/Current is about _current_job_id, Server/Exclusive about the lease that is held.
--
-- daemon/main.py is Daemon, with start and stop of daemon/server.py: a run of the daemon, and what
-- it leaves to the next.
--
-- daemon/runner.py is Runner and ollama.py is Ollama: what their child processes do is an
-- argument. Runner/Job has the run of a job as a whole, the pieces of Server/Run with the runner
-- in between. lease.py is Client, over Server/Connection. ids.py is Ids, paths.py is Paths.
--
-- logs.py is Logs: the four files of a job as what was written to them, and the queues of the
-- followers. Logs/Appended, Logs/Followed and Logs/Tail are about append, follow and tail;
-- Logs/Index has index.jsonl as its text. cli.py is Cli: submit, the exit code of cancel and bump,
-- and the states that ps asks for; Cli/Requests has the requests of the other commands,
-- Cli/Printed and Cli/Status what they print, Cli/Wire the lines of the connection, Cli/Duration
-- _parse_duration and _fmt_dur.
--
-- Texts are lists of code points; Common/Strings has the methods of str that the source calls,
-- Common/Decimal the digits of an int. Readings of the clock, new ids, parsed stamps, log sizes
-- and live processes are arguments. What other tasks do while a handler waits is an argument too:
-- the servers that it sees at its polls. Durations are whole microseconds. Every loop is a
-- recursion on a list, but for the digits of a number, which take the number as their fuel: it has
-- no more digits than that, and the waits of cancel, whose fuel counts their turns: one more than
-- the timeout has sleeps is enough. A request's filter on states is one of six names, or any other
-- text.
--
-- Not modelled: the set-up of logging and of the signal handlers in daemon/main.py; click's
-- parsing of the options; errors of the socket and of the database file. OllamaController.restore
-- does nothing and is left out of the steps. A request of more than the 64 KiB of asyncio's stream
-- reader is not modelled, and neither is what a child does after a line beyond that limit.
pub mod Common
pub mod Daemon
pub mod Ids
pub mod Logs
pub mod Client
pub mod Ollama
pub mod State
pub mod Queue
pub mod Paths
pub mod Protocol
pub mod Bus
pub mod Server
pub mod Runner
pub mod Cli
pub mod Tests
