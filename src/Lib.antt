-- ===== src/Lib.antt =====
-- A verification library for hypertile, a work-stealing runtime for native futures and Python
-- coroutines.
--
-- The program. A spawned future is a task cell (hypertile-core/src/task.rs) that the pool holds as a
-- handle in a queue. The pool (hypertile-core/src/executor.rs) has one shared injector and a registry
-- of workers; each worker (hypertile-core/src/worker.rs) owns a deque in a slot of its thread
-- (hypertile-core/src/waker.rs), takes tasks from it, from the injector and from its peers, and runs
-- them. A waker puts a task back into the pool. One global runtime (hypertile-core/src/runtime.rs)
-- owns a pool, one timer driver (hypertile-core/src/timer.rs) wakes sleeping tasks, and the C and
-- Python interfaces (hypertile-capi/src/lib.rs, hypertile-sys/src/lib.rs) spawn work and batches.
--
-- The files and what they model.
--   * Base: tests on numbers, lists over them, weighted sums, the parkers of crossbeam-utils.
--   * Task: hypertile-core/src/task.rs. Task/Cell has the state of a cell and where each thread is in
--     a method; Task/Methods has one function per method, each call of which is one atomic access
--     (a load, a compare-and-exchange, a swap, a lock or what is done under one); Task/System lets any
--     number of threads interleave. The future is a parameter: the schedule gives each poll's answer.
--     `published`, `woken` and `joined` are traces of what was stored, woken and returned.
--   * Registry: `WorkerRegistry` of hypertile-core/src/executor.rs, one function per method on the
--     whole record. The hash map is an association list; counters wrap at 2^64.
--     Registry/Steps has `unpark_one_idle` lock by lock, with other threads in between.
--   * Pool: `ExecutorCore`, hypertile-core/src/waker.rs and worker.rs. Pool/Crossbeam states what is
--     used of the deques of the crate crossbeam-deque, which is a parameter; Pool/Local has the
--     operations on a thread's deque and injection; Pool/Worker has `find_task`, `WorkerHandle::new`
--     and the drop of `WorkerGuard`. The loop that flushes a deque has one round of fuel for each task
--     in it and one more, which finds it empty; flushing does not add to that deque. A deque that is taken
--     from its slot, or dropped, leaves the pool with what it holds.
--     Pool/Loop has the loops of a worker, with the rounds as fuel, since `run_loop` goes on until the
--     pool stops; what running a task does to the pool is a parameter.
--   * Executor: the cells of Task, with the steps of all their threads, over the pool of Pool: a handle is
--     the number of its task. Threads join the pool as workers with deques of their own and leave it. A
--     spawn injects the handle of the new task, a step that queues a task does too, and a worker runs the
--     one that it finds, if its place in that cell is free.
--   * Python: the tasks, batches and completion callbacks of hypertile-sys/src/lib.rs.
--     Python/Completion has the end of a task and `add_completion_callback`, access by access, over
--     what Python/Flag asks of the done flag or of the count of items left. Python/Outcome has what is
--     stored and what `result` and `__next__` make of it, Python/Chunk and Python/Batches the chunks of
--     a batch. What the user's code gives is a parameter; a call of a callback is one step.
--     Python/Pipeline has `run_crypto_pipeline`, and Python/Worker the workers that Python registers
--     over the pool; `run_until_idle` has the tasks that it may run as fuel.
--   * Runtime: hypertile-core/src/runtime.rs. Runtime/Sizing has the size policy and the parsing of the
--     environment's value, over lists of characters; Runtime/Global has the once-only publication of
--     the runtime, with `configure_global_runtime` in the two steps between which threads race.
--     Runtime/Blocking has `block_on`, step by step, over the parkers of crossbeam-utils and a future
--     that other threads change; Runtime/Shutdown has `Runtime` with its spawning and its end. The wait
--     of `shutdown_with_timeout` has its rounds as fuel: one more than the timeout has milliseconds.
--   * Batch: `hypertile_batch_spawn` of hypertile-capi/src/lib.rs. Batch/Chunks cuts a batch, also as
--     hypertile-sys/src/lib.rs does; Batch/Run has the chunks' tasks, item by item, in any
--     interleaving. A pointer is a number, null is 0; a batch is below 2^63 items, as any array is.
--   * Capi: the registration of threads as workers, of hypertile-capi/src/lib.rs, with
--     hypertile-core/src/registration.rs, over the pool. What tasks do while a registered worker runs
--     them is a parameter. Capi/Task has `hypertile_spawn`, `hypertile_poll` and `hypertile_wait`, access
--     by access; a thread makes one call, and the parkers of the crate crossbeam-utils are a parameter.
--     Capi/Callback has `hypertile_spawn_with_callback`.
--   * Coroutine: hypertile-sys/src/bilingual.rs and cancel.rs, with `spawn_coroutine` and `run_level1` of
--     hypertile-sys/src/lib.rs. Coroutine/Run has `PyCoroutineTask::run` and the hook it leaves with a
--     future, over an interpreter that is a parameter and may panic in `send` and `throw`; a
--     future calls each hook once. Coroutine/Drive has the same coroutine by itself, given one input
--     after the other.
--   * Timer: hypertile-core/src/timer.rs. Instants are numbers of nanoseconds, the binary heap is the
--     list of its entries in the order of removal, and a slot for a waker is an address. Driver and Sleep
--     have each operation at once, Loop the thread of the timer between the calls of other threads.
--
-- Memory orders weaker than sequential consistency and the scheduling by the operating system are
-- not modelled; the parking of a worker ends by itself, as its timeout does. Left for later are
-- `bridge_task_await` of the Python module, which drives an event loop of the interpreter, and the
-- freeing of the handles of the C interface.
pub mod Base
pub mod Batch
pub mod Capi
pub mod Coroutine
pub mod Executor
pub mod Pool
pub mod Python
pub mod Registry
pub mod Runtime
pub mod Task
pub mod Timer
