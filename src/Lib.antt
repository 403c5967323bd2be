-- ===== src/Lib.antt =====
-- MultiTaskApp: tasks that send each other messages, on Linux. This library models the C code of
-- platform/os/linux/base, with the types of platform/os/include, and of some of the programs that
-- stand on it, and proves what the parts do.
--
-- The parts and how they interact
--   Tasks are threads in a list; a task may own a queue. A sender looks the receiver's queue up by
--   the task's name and pushes a message on it; the receiver waits on its own queue. The queue is a
--   list of pointers under a mutex and a condition variable. All of these allocate with MALLOC,
--   which traces each block at the calling task and in one list for the process. Beside them stand
--   an event loop over epoll or GLib, functions that read and write whole files, a pool of threads
--   that take their work from such a queue, clients and servers on sockets, a log, a stop watch,
--   and the programs of init and sample, whose tasks use all this.
--
-- Files and code
--   Prelude   Boolean tests and lists over native numbers, shared by all.
--   Alloc     The interface `Allocator`: MALLOC and FREE as functions of a store, with the laws
--             that a client relies on. Mm/Interface fills it with the functions of os_mm.c.
--             `Libc` is the interface to malloc and free beside it.
--   Queue     os_queue.c. A queue is its address and the nodes its list links. Each function takes
--             the store and gives it back; a pointer that may be NULL is an Option. Ops has a
--             sequence of calls, Refine the double-ended queue that it implements, Memory the
--             blocks that it owns, View what its callers can see of it.
--   AsyncQueue  os_async_queue.c. The threads that wait on `cond`, and those that it released, are
--             part of the state. os_async_queue_pop is two steps, os_async_queue_pop_wait and
--             os_async_queue_pop_resume, since cond_wait gives the mutex back; every other function
--             is one. System has the events of a schedule and their effect; Fifo, Signal, Handover,
--             LostWakeup and Lifetime what holds of it.
--   Task      os_task.c: the task list, the searches in it, and os_task_mm_add, os_task_mm_del and
--             os_task_mm_show. Lookup, Ledger and Show prove what they do. Life has os_task_create,
--             __os_task_routine and os_task_exit; Spawned and Ended what they leave behind.
--   Mm        os_mm.c: os_mm_malloc and os_mm_free with both lists of traces. What the code is
--             compiled with is the record `Config`; `as_built` is what the repository defines.
--             Leak is about that, Live about what the macros are meant for.
--   Msg       os_msg.c over Task and AsyncQueue: messages, queues and tasks in one record `Net`.
--             System has the events of tasks that send and receive; Ordered and Order are about
--             every schedule.
--   File      os_file.c: the loops over write and read, and the functions built on them.
--   Evdriver  os_evdriver.c: os_evdriver_create, _add, _del, _run and _destroy; what the kernel
--             answers is the record `Kernel`, the process's descriptors the record `Fds`.
--   Sockets   os_broadcast.c, os_multicast.c and os_tcp_client.c, a file each: what creation and
--             destruction do to the descriptors and the blocks. TcpServer has os_tcp_server.c over
--             Task and Threadpool; Opened is about the failures of its creation, and
--             Datagrams about where the sends go. Service has the events of a server at work;
--             Queued, Accepted, Worked and Ordered are about every schedule of them. Shutdown has
--             the steps of a server that is to be destroyed, Endless what they lead to.
--   Threadpool  os_threadpool.c over AsyncQueue. Creation is about os_threadpool_create. System has
--             the events of the threads that add and of the workers, whose pops, calls and frees
--             are steps of their own; Backed, Running, Worked and Order are about every schedule.
--   Misc      os_misc.c: child_pid_get over the bytes that its command prints. Bounds is about the
--             array that it fills, Words about the numbers in it.
--   Log       os_log.c, and time2str of os_misc.c: the pieces of a line and the array that they
--             are printed into. Line is about what comes out.
--   Timer     os_timer.c over the readings of the clock; Elapsed is about the time that it shows.
--   Thread    os_thread.c over the record `Pthread` of the functions of libpthread. Blocks is about
--             the memory behind its handles.
--   Glib      platform/os/linux_glib/base/os_evdriver.c: the sources that os_evdriver_add attaches,
--             and their callbacks. Timers and Sources are about a source's dispatches.
--   Monitor   os_task_mm_show of os_task.c with the threads that child_pid_get lists; Rows is about
--             what it shows.
--   App       init/main.c: the tasks that main starts. Conversation is about the producer and a
--             consumer, Start about main, Blocks about the memory of the other tasks. Scheduled has
--             the events of all these tasks: a consumer's round is three, that of another task one;
--             Accounts, Conversing, Rounds, Received, Steps, Runs and Order are about any sequence
--             of them. Locks has the steps of the tasks lock and die_lock,
--             and Deadlock what becomes of them.
--   Sample    sample/sample.c: its tasks and its main function; Ended is about how they end.
--             TaskShow is sample/task_show.c, whose producer and consumers end too; Heard is
--             about their ends.
--             Reports has a round of each of sample/mm_broadcast.c, task_broadcast.c,
--             task_multicast.c and task_json.c; Reported is about what they send.
--   Discovery  sample/udp_tcp_server.c and udp_tcp_client.c: the broadcasts that announce a server.
--             Announced is about what a client learns from them.
--   Echo      sample/tcp_server.c and tcp_client.c, and the TCP task of udp_tcp_client.c: a text
--             that goes to a server and back. Answered is about the text, Rounds about the task.
--   Tests     Concrete instances: a small libc, an allocator over it, a task, a queue.
--
-- Conventions
--   A list of klist.h is the sequence of the entries that it links, in order; an entry that is
--   unlinked or freed has its own address. NULL is 0, and a block's address is never 0. Sizes are
--   those of a 64-bit target. A function that holds a mutex throughout is one step.
--   unsigned int is a number modulo 2 ^ 32 where the code adds to one: the byte counts of os_file.c.
--   A schedule is any list of events; the scheduler's choice of the thread that a signal releases
--   is an argument of the step.
--   The loops of os_file.c run over a list of the kernel's answers, and end with `none` where the
--   list ends before the loop does; os_evdriver_run2 runs over a list of the rounds of epoll_wait
--   in the same way. A theorem that the code returns says how long a list is enough. The loop of
--   child_pid_get runs on fuel of one more than the bytes of the line: each round takes one at
--   least. The loops of sample.c run on fuel too: 21 rounds are enough for its tasks, and 11 for
--   main; of task_show.c 16 are enough for its tasks, and 21 for main. Texts are lists of bytes.
--
-- Parameters
--   malloc of libc: `libc live n` is the address for a block of n bytes while `live` are given out.
--   What is asked of it, where a theorem says so, is that it is not NULL, which is `NeverNull` of
--   Mm/Trace. `Allocator` asks for MALLOC and FREE what os_mm.c gives: the result is not NULL, and
--   the live blocks change by the one block. `Libc` of Alloc has the same for malloc and free where
--   the code calls them directly, and malloc may return NULL there; `Fresh` and
--   `LibcFresh` there ask that they give an address where no block is live. The kernel's
--   answers to open, write, read, close, socket, bind, listen, accept, epoll_ctl, epoll_wait,
--   timerfd_create, signalfd and pthread_create are data, and so are the output of popen, the text
--   of strftime, the readings of clock_gettime, and what printf makes of a number or an entry.
--   `Pthread` has the functions of libpthread, of which nothing is asked, and `Json` those of
--   parson, of which `Documented` of Discovery/Announced asks that a field that is set can be got,
--   and others stay.
--
-- Not modelled
--   klist.h and parson.c are copies of other projects' code. os_sys.c and os_stdlibc.c pass one call
--   on to libc, and so do thread_name_get and thread_name_set. inits.h places functions in sections
--   of the linker. sample/task.c does not fit the headers; of the other samples the functions that
--   make a TCP server and destroy it are left out, and the tasks that are those of another sample
--   again. Of linux_glib, os_async_queue.c and the rest of os_evdriver.c pass calls on to GLib,
--   os_queue.c and the TCP files are stubs, and the other files are those of linux again.
--   What the functions print is not part of the model, but for the lines of the log and the rows of
--   os_mm_show and os_task_mm_show. In Mm/Interface the place of a call, which the traces record,
--   is one fixed place. The traces are in the store that Mm has: a theorem over an `Allocator`
--   counts the blocks that callers hold and not those of the traces, which Mm/Leak counts, and the
--   heads of the tasks in `Net` change only where a function of os_task.c changes them itself.
pub mod Prelude
pub mod Alloc
pub mod Queue
pub mod AsyncQueue
pub mod Task
pub mod Mm
pub mod Msg
pub mod File
pub mod Evdriver
pub mod Sockets
pub mod Threadpool
pub mod Misc
pub mod Log
pub mod Timer
pub mod Thread
pub mod Glib
pub mod Monitor
pub mod App
pub mod Sample
pub mod Discovery
pub mod Echo
pub mod Tests
