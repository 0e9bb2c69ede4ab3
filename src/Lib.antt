-- ===== src/Lib.antt =====
-- Persephone: a dispatcher of requests to worker threads over DPDK.
--
-- A net worker polls a NIC queue, turns each packet into a task with an execution context of its
-- own, and puts the task in the dispatcher's queue. The dispatcher's rounds hand tasks to idle
-- workers through a pair of cells for each worker, and collect what the workers report. A worker
-- runs the context until it swaps back, finished or preempted. Message channels in shared memory
-- connect the dispatcher to other workers.
--
-- Which module models which part:
-- - Lrpc: include/psp/libos/io/lrpc.h. `lrpc_send`, `lrpc_recv` and the rest are the functions of
--   these names; the tables and the write-back words lie in a `Memory` that both ends share.
--   Lrpc/Queue is the FIFO that a channel promises, Lrpc/Linked the relation between the two ends.
-- - Udp: src/c++/libos/io/udp_dpdk/context.cc and include/psp/libos/io/udp_dpdk/context.hh, as
--   built without NET_DEBUG. What the NIC receives and how much of a burst it sends are
--   parameters.
-- - Mempool: include/base/mempool.h. What malloc returns is a parameter of `mempool_create`.
-- - TaskQueue and Context: include/psp/taskqueue.h. A task queue takes its nodes from a pool, and
--   TaskQueue/Fifo is the bounded FIFO that it promises; a context takes itself and its stack.
-- - LrpcContext: src/c++/libos/io/lrpc/context.cc and include/psp/libos/io/lrpc/context.hh, and
--   `register_dpt` of src/c++/libos/common/Worker.cc, which pairs a worker with the dispatcher.
-- - NetWorker: src/c++/libos/su/net_su.cc. `receive_batch` is the loop of `work` over the inbound
--   queue; it is given a number of rounds, of which nine are enough while contexts are left.
-- - Scheduler: include/psp/dispatch.h, `Dispatcher::dispatch` with its handlers in
--   src/c++/libos/su/dispatch_su.cc, and a worker's round in src/c++/libos/common/Worker.cc.
--   Scheduler/View is what the dispatcher's round does to a queue and a place for each worker, and
--   Scheduler/Protocol interleaves the dispatcher's visits with the workers' steps; a visit, the
--   taking of a request and the running of one up to its report are each one step.
-- - AppWorker: `app_work` and `app_dequeue` of src/c++/libos/common/Worker.cc; `process_request`
--   is a parameter.
-- - ReqType and Request: include/psp/libos/Request.hh, and `push_to_rqueue` of
--   src/c++/libos/su/dispatch_su.cc.
-- - Drain: `drain_queue`, `enqueue` and `signal_free_worker` of that dispatch_su.cc; Drain/Peers
--   reads the mask of free workers as a list. One more round than requests is enough.
-- - Histogram: include/psp/hist.hh.
-- - Dpdk: src/c++/libos/io/udp_dpdk/dpdk.cc. A `Driver` answers the calls; Dpdk/Steps and
--   Dpdk/Setup follow the calls that `init_dpdk_port` makes, Dpdk/Link those that wait for the
--   link.
-- - Ingress: `generate_ipv4_flow` of that file and `set_fdir` of
--   src/c++/libos/io/udp_dpdk/context.cc; Ingress/Select says which packets a rule selects.
-- - Workers: the parts of the constructor of `Psp` (src/c++/libos/common/persephone.cc) that make
--   the workers, and `get_workers` and `stop_all` of include/psp/libos/persephone.hh.
--   Workers/Links is the channels, Workers/Made the loop over the application's workers,
--   Workers/Setup the whole for one net worker.
-- - Threads: `launch` and `main_loop` of src/c++/libos/common/Worker.cc, as two threads over the
--   flags of a worker. Threads/Consistent is what the flags say, Threads/Launched what `launch` returns.
-- - Config: the part of the constructor of `Psp` in src/c++/libos/common/persephone.cc that
--   registers the types of requests; Config/Policy is the modes of
--   include/psp/libos/su/DispatchSu.hh. Config/Latest reads the
--   map as the last type of the file with a service time.
-- - Backend: `process_request` of src/c++/libos/su/mb_su.cc and rocksdb_su.cc.
-- - ClientTypes, Client, Sampling and Play: src/c++/apps/client/msg.hh, schedule.hh and client.hh.
--   Client builds and sends a request and finds the one that an answer belongs to; Sampling is
--   `sample_into`; Play is `play_schedule` with its loops, over the polls of the NIC and the
--   readings of the clock.
-- - Setup: `parse_config` of src/c++/apps/client/common.hh, and `main` of client.cc from there up
--   to the set-up of the NIC. Setup/Ready is the checks of a schedule, Setup/Placed the clients.
-- - Log and Throughput: `log_latency` with `check_hist`, and `log_throughput`, of that client.hh.
--   The lines are values; their loops over the buckets are given rounds, of which two more than
--   the number of the largest bucket are enough.
-- - Base: lists, arrays, machine words, Boolean tests and the results of a call. `Run` has an
--   outcome for a call of psp_fail, whose default handler aborts (`panic`), and for a null
--   dereference or an access outside a vector, or the size of an empty vector as a divisor
--   (`fault`).
--
-- Numbers: a counter of the code is a natural number with its wrap-around written out; the
-- position of a message or packet in its queue's history is a natural number that the counter is
-- the residue of. Loops are structural recursion: over the list of a burst, over the rounds of the
-- burst that are left (`max_tx_burst`), over the items of a new pool, over the workers, and over
-- the rounds of `simple_generic_work`; none of these runs out before the loop of the code ends.
-- The loops of `play_schedule` are given rounds, with a theorem on how many are enough.
--
-- Not modelled: the order of memory accesses inside one call, the context switch itself (a context
-- is modelled by the point that it has reached), printing, the generation of a client's schedule,
-- which draws random numbers, the reading of the configuration files, and the joining of threads.
-- Assertions are compiled out, as in a release build.
pub mod Base
pub mod Lrpc
pub mod LrpcContext
pub mod Udp
pub mod Mempool
pub mod TaskQueue
pub mod Context
pub mod Scheduler
pub mod NetWorker
pub mod AppWorker
pub mod ReqType
pub mod Request
pub mod Drain
pub mod Histogram
pub mod Dpdk
pub mod Ingress
pub mod ClientTypes
pub mod Client
pub mod Play
pub mod Sampling
pub mod Setup
pub mod Log
pub mod Throughput
pub mod Config
pub mod Workers
pub mod Threads
pub mod Backend
