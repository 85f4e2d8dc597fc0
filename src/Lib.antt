-- ===== src/Lib.antt =====
-- Verification of the C++ utilities of this repository: a concurrent map, thread pools, timers, a
-- process monitor, a crash handler and an HTTP client. Each component of the repository stands
-- alone, so each has a module of its own here; the components meet only in the HTTP client, which
-- keeps a cookie file and a thread pool.
--
-- Prelude and Std are shared. Prelude passes on names of the library and holds lists over the
-- native numbers; Std.Order is the order of the keys of a std::map (a strict weak order), Std.Map
-- is a std::map as an association list sorted by it, and Std.Text holds bytes, C strings and the
-- calls of std::string and std::getline that the code makes. Std.Ends is what it takes for a join to
-- return: a run that is over after finitely many steps, whichever they are.
--
-- ConcurrentMap is concurrent_map/concurrent_map.h. ConcurrentMap/Bucket is ConcurrentBucket, a
-- std::map under a lock; ConcurrentMap is the vector of buckets, and picks one by the hash of the
-- key. Each method is a function of the same name in the spelling of this library, from the state
-- to the new state and the result. The locked part of a method is one step. ConcurrentMap/Threads
-- has the calls of several threads as one list in the order of their steps: a method that works on
-- one key is one step, and GetAllKey is one step for each bucket. That the mutex of a bucket makes
-- these parts exclusive is taken from the C++ standard library.
--
-- HttpCookie is http_client/http_cookie.cpp and .h. The file is the list of chunks that fread
-- returns and the bytes that fputs writes. A function returns none where the code has undefined
-- behaviour or throws: an index past the end of a vector, or a null FILE pointer.
--
-- SingleInstance is single_instance_process/single_instance_process.cpp and .h, as one process
-- sees the pid file. The answers of open, flock, read, write and kill are a record that the
-- functions take. SingleInstance/Instances has any number of processes with one pid file, as a
-- relation in which each call of CheckOnly is one step. SingleInstance/Overlap has calls that overlap,
-- whose steps are the two opens and what is done under the lock; there the processes that go on do not
-- end. Std/Decimal is sprintf with %d and atol, whose value is taken modulo 2 ^ 32 for the assignment
-- to a pid_t.
--
-- Timer is timer/timer.cpp and .h. The queue of the io_context is a list of handlers, of which a
-- worker takes the first; the pending wait of the timer is an option, and its expiry a step. Time
-- points are numbers of nanoseconds without a bound. Timer/Workers is the table of times at which
-- threads were last seen, with the worker threads as a step relation. Timer/Timely adds the clock: `lag` is
-- a parameter that bounds how long a handler waits for a worker, how late the timer is, and the time
-- from one reading of the clock to the next, or to the table. A run there is its start, and Stop and
-- ClearDelayedEvent are not among the steps. Stop is two operations, between which workers may run.
--
-- Netlink is netlink/netlink_proc_mon.cpp and .h. The socket calls go to a trace, and a record
-- gives their answers. Netlink/Events has the receiving loop, over a list of results of recv, and
-- the dispatching thread as a relation of single steps that interleave with the producer and with
-- Stop. Netlink/Sessions has any calls of Start and Stop. Netlink/Rmem is
-- SaveRmemSize, which has no caller.
--
-- NetThreadPool is net::ThreadPool of http_client/thread_pool.cpp and .h: a relation of single
-- steps of callers and threads, in which waits may also end without a notification. stop is its
-- locked part; the joins are the states in which all threads have returned. NetThreadPool/Drain has
-- the steps without calls of run and stop and without ends of waits that nobody notified. NetThread is
-- http_client/thread.cpp and .h, the handle on one std::thread, with calls that end well, in a null
-- pointer, in an exception or in the end of the process.
--
-- WorkPool is thread_pool/thread_pool.cpp and .h: the pool as functions from state to state, with
-- the number that Rand returns and the number of cores as arguments. WorkPool/Rand is Rand, with the
-- number of rand as an argument and its double arithmetic on natural numbers, for ranges in which
-- that arithmetic is exact. WorkPool/Worker is one
-- WorkThread as a relation of single steps of its thread and of those who push, delete and stop;
-- the status of an object is a function of its number, which all share. The future that PostWork
-- returns is left out, and a return without a value is the result refused.
--
-- CrashHandler is crash_handler/crash_handler.cpp: the removal of old files and the making of the
-- log directory, on a file system that says which paths exist. CrashHandler/Naming is the names of
-- the files, with the printing of times. CrashHandler/Descriptors has the functions that open files
-- and pipes, as the list of their calls on descriptors, in the debug build. CrashHandler/Signals is
-- Init and ProcessCrashSig on the actions of the signals, with the log path of the class, which is
-- constant and empty; what the default action of a signal does
-- to the process is left out. What a call of snprintf makes of a std::string is an argument, and so
-- is the line of a frame with its address.
--
-- HttpClient is http_client/http_client.cpp with http_request.h and http_response.h. libcurl is a
-- parameter: which options it accepts after those that were set, and how a transfer with them
-- ends. A handle is the list of its options. HttpClient/Stream is the file of an upload and
-- readCallback. The threads that run processResponse are those of NetThreadPool or of the caller:
-- HttpClient/Sending is the client on that pool, with the threads of sendImmediate, for settings
-- that do not change meanwhile; a callback that throws ends the process and is left out.
-- HttpClient/Closing is the destructor of the client and of its
-- pool, with the steps of the threads that go on meanwhile.
--
-- Library is load_library/load_library.h, with boost::dll as a parameter.
--
-- Every loop runs over a list that the code runs over or that the environment supplies, and needs no
-- fuel, but for the digits of a number in Std/Decimal: the fuel is the number plus one, and the
-- lemma on what is written proves that it is enough for every number.
--
-- Not modelled: the test programs and the build files.
pub mod Prelude
pub mod Std
pub mod ConcurrentMap
pub mod HttpCookie
pub mod SingleInstance
pub mod Timer
pub mod Netlink
pub mod NetThreadPool
pub mod WorkPool
pub mod CrashHandler
pub mod HttpClient
pub mod NetThread
pub mod Library
