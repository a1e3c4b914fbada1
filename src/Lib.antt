-- ===== src/Lib.antt =====
-- nastd: a daemon that answers queries for keys over a socket, from a cache in memory, a constant
-- database file, and a queue of requests that worker threads take to a MySQL database.
--
-- The files and the sources, whose paths are from the repository's root:
-- * Array models server/array.c: `string_t` is a list of bytes and `array_t` a list of these. Each
--   operation keeps its C name.
-- * Thread models the read-write lock of server/thread.c. Thread/System runs any number of threads
--   that share a lock in any order, with spurious wakeups. Thread/Posix has the whole functions with
--   the POSIX calls that they make; Errors and Released are about calls that fail.
-- * Memdb models server/memdb.c. Memdb/Entries has the entries and chains, and Add, Del, Get and Upd
--   the operations `memdb_add`, `memdb_del`, `memdb_get` and `memdb_upd`. Chains, States, Steps,
--   Lookup, Invariant, Cache and Deadlock are about these. Abstract is what a client may rely on, a
--   map from keys to items, and Forward and Refine relate the code to it.
-- * Cdb models server/cdb.c, server/cdb_find.c, server/cdb_hash.c and server/cdb_unpack.c. Cdb/Find is
--   the search, Cdb/Load is `cdb_new`, and Cdb/Query is `cdb_get` and `cdb_periodic`; Match, Sound,
--   Reload and Queried are about these.
-- * Fqm models server/fqm.c: the queue, in Fqm/System its clients and workers in any order, and in
--   Pool, Delete and Start the pool of threads, its end and its start. Order, Wait, Shutdown,
--   Deletes, Started and Returns are about these.
-- * Socket has the loop over `write` that the server and the client share.
-- * Mysqldb models server/mysqldb.c over a parameter for libmysqlclient, and Mysqldb/Laws is about it.
-- * Rate has the `_collate` functions of server/memdb.c, server/cdb.c and server/mysqldb.c, and
--   Periodic the timer of server/periodic.c; Periodic/Looks is about it.
-- * Log models server/log.c, and Daemon server/nastd.c: in Daemon the sockets and the accepting of a
--   client, in Daemon/Init `init_daemon` and `main` up to its loop, and in Daemon/Loop the loop. Told,
--   Ready, Ends, Begins and Served are about these. The state `Daemon` holds what the other parts make
--   for it, by their own functions, and the calls of the system that have been made, in order.
-- * Ipc has the constants of include/nastipc.h and the options of include/nastd.h.
-- * Server models server/nastdio.c: the responses in Server/Respond, the options in Server/Options,
--   `do_get` in Server/Lookup, `do_fallthrough` in Server/Fallthrough, `do_update` in Server/Update,
--   `do_stats` in Server/Stats, and the loops of `process_cmd` and `io_looper` in Server/Command. A
--   handler is a function of the state `Server`, which holds the state of the cache, of the database
--   file and of the queue, and calls the functions of those parts. Fallthrough/Missed follows a key
--   from a lookup through the queue and the database into the cache, and Stats/Texts has the texts of
--   the `_stats` functions of server/memdb.c, server/cdb.c and server/mysqldb.c.
-- * Client models client/nastapi.c: the table of responses and the parsing of a result, in
--   Client/Connect the start and end of a connection, in Client/Session `sendcmd`, in Client/Receive
--   `getresponse`, and in Client/Commands the commands. Table, Results, Answers, Delivered, Parsed,
--   Finishes, Ends, Whole, Returns and Asked are about these; Replies, Shared and Unheard are about
--   threads that share a connection; Exchange, Update, Options and Reported follow a lookup, an update, the options and a report to
--   the server and back. Number has `thread_id` of client/thread.c.
-- * Prelude has what these share, and Tests runs them on concrete inputs.
--
-- A byte is a number below 256, and a buffer with its length is a list. Memory that cannot be had is a
-- list of outcomes of the next calls of `malloc`, which any function may run through. A call that
-- waits for itself is `blocked`, and one that leaves its memory is `fault`. A lookup in `do_get`
-- during which memory runs out is `fault` as well, since what the half-built array then holds is not
-- modelled. Unsigned arithmetic of 32 bits is written with its remainder, and the `short` of a length
-- on the wire with its sign.
--
-- Fuel: `match` has a round for each byte of the file and one more; `memdb_del` calls itself once;
-- `process_cmd` takes fuel as an argument, since it does not end on every input; `getresponse` has a
-- pass for each arrival and 52 more, for its 51 tries and the last look, and its loop over one read a
-- round for each byte and one more. A caller that waits for the threads of the pool takes what they
-- do in the meantime from a list, and is `blocked` past its end.
--
-- Parameters: `md5_calc` of server/md5.c, a copy of the reference implementation; what `open`, `stat`,
-- `write`, `select`, `recv`, `socket`, `bind`, `accept`, `fork` and `getopt` give; libmysqlclient;
-- libconfig's `config_init`; how many bytes may be written to a block of `malloc`; the arithmetic of
-- `float`, the time, and the conversions of `snprintf` and `strftime`.
--
-- Not modelled: the messages that the other parts write to the log, and the text of `usage`; the other
-- threads of a client process between the calls of one; what the callers of a lock do where a POSIX
-- call on it fails; `fqm_changemaxitems` behind its first return, which is never reached; server/md5.c, a copy of
-- the reference implementation; libconfig/, which is Objective-C; perl/, common/ and tests/, which are
-- not the daemon's core.
pub mod Prelude
pub mod Array
pub mod Thread
pub mod Log
pub mod Memdb
pub mod Cdb
pub mod Daemon
pub mod Fqm
pub mod Socket
pub mod Mysqldb
pub mod Rate
pub mod Periodic
pub mod Ipc
pub mod Server
pub mod Client
pub mod Tests
