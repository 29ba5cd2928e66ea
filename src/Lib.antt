-- ===== src/Lib.antt =====
-- Six post-mortems of C++ programs, each a pair under cases/: broken.cpp shows a defect as it was
-- reported and fixed.cpp repairs it. The pairs do not call each other; each program is one file with
-- its own `main`, and this library has one module tree for each pair.
--
--   Overflow      cases/04-overflow-removes-check. Overflow/Broken and Overflow/Fixed have `fits` and
--                 `main`; undefined behaviour is `none`. Overflow/Semantics has int arithmetic and
--                 what the check means. `fits_optimised` is what evidence/04-broken-disassembly.txt
--                 shows of the build at -O2.
--   Counter       cases/01-dropped-counters. Counter/Broken has the plain counter, whose `++` is a
--                 load and a store; Counter/Fixed has the atomic one. The plain race is undefined in
--                 C++; the model is what the hardware does with aligned 64-bit loads and stores.
--   Transfer      cases/02-lock-order-inversion. Transfer/Broken has TracedLock and
--                 `transfer` step by step, Transfer/Broken/Process adds `watchdog` and `main`.
--                 Transfer/Broken/Escape is about which of its states can still return,
--                 Transfer/Broken/Ends about where the threads can stop, Transfer/Broken/Sights and
--                 Transfer/Broken/Alarm about what the watchdog's loads and its report say,
--                 Transfer/Broken/Fate about how a deadlock ends. The `-=` and `+=` on a balance are
--                 a load and a store each, in both programs.
--                 Transfer/Fixed has `transfer` with std::scoped_lock and `main` of fixed.cpp,
--                 Transfer/Fixed/Contract what it relies on in the lock algorithm: what the algorithm
--                 has and when it may wait, and that it gets on while the mutexes are free and keeps
--                 none forever, which only Transfer/Fixed/Steps and Transfer/Fixed/Finish use.
--   Dangling      cases/03-dangling-reference. Dangling/Vector is std::vector by its documentation,
--                 on a store of blocks; Dangling/Sensors has the loop, Dangling/Broken and
--                 Dangling/Fixed the two `main`.
--   FalseSharing  cases/05-false-sharing. FalseSharing/Run has `worker` and `runWith` on the four
--                 counters, FalseSharing/Memory on the bytes of memory at which they lie.
--                 FalseSharing/Broken and FalseSharing/Fixed have the layout, the threads in memory
--                 and `main`, FalseSharing/Exact is about what a run leaves in memory, and
--                 FalseSharing/Same compares their runs. FalseSharing/Lines is about
--                 cache lines, FalseSharing/Coherence counts the increments that find their line
--                 taken away.
--   Inversion     cases/06-priority-inversion. Inversion/Priority has `setPriority`, Inversion/Work
--                 `spinWork`, Inversion/Calibrate `calibrate`, Inversion/Control the loop of
--                 `highPriorityControl` over the waits it measures, Inversion/Broken and
--                 Inversion/Fixed the two `main`. Inversion/Threads has `lowPriorityDiagnostics`,
--                 `mediumPriorityHog`, `highPriorityControl` and what `main` does with them, step by
--                 step: every line that the clock, the mutex or another thread can tell apart is a
--                 step, and Inversion/Threads/PriorityLock the same of fixed.cpp, whose
--                 threads lock through a PriorityLock. What differs is the protocol of the
--                 mutex, an argument of the scheduler, Inversion/Threads/Scheduler. Under it,
--                 Exclusion, Joins and Progress are about any run, Left and Finish about how it can
--                 go on to the last join. Budget is a general budget for the time a thread waits for
--                 the mutex, with the instances Inheritance, under PTHREAD_PRIO_INHERIT, and Bursts,
--                 without it; Hog is the wait of the reported failure. Outcome has what is judged
--                 past the joins, Recorded and Refinement connect a run with the two `main`, and
--                 Answers has what they return. Kernel has the threads with `setPriority` over the
--                 kernel of Inversion/Priority in place of what was granted; Kernel/Refinement is
--                 about any kernel, Kernel/Generous about one that grants every request, and
--                 Kernel/Answers has what the two `main` return over that one, Kernel/Errors when they
--                 refuse to conclude, for what Kernel/Returned says that the calls returned. Simulation is a scheduler that can be executed.
--
-- Threads is the fork-join shape of cases 01 and 05: `main` starts and joins workers, and the workers
-- interleave one shared access at a time. Threads/Invariant and Threads/Progress carry what holds of
-- every such program, and the cases give them their own worker. Prelude has the shared names, Boolean
-- tests, integers and lists. Modules called Tests have concrete runs.
--
-- Concurrent programs are step functions into Option, where `none` means that the actor waits or has
-- ended, and a run is any sequence of steps from the initial state (Reach), so the scheduler is
-- arbitrary and sleeps last any time. In case 06 the scheduler is SCHED_FIFO on one processor by its
-- documentation: a step is made by a thread of the highest priority among those that can run, takes
-- any time up to a bound, and the processor stands still only while none can. Unsigned 64-bit
-- arithmetic wraps at 2 ^ 64, which is written out; int and long are ℤ, and the
-- balances of case 02 are bounded by a theorem; the clock of case 06 counts
-- nanoseconds, and the wait is cut to microseconds, as duration_cast does. The affine map of
-- Inversion/Work/Skip is computed on fuel, and a number of iterations below 2 ^ fuel is enough for
-- it. Inversion/Threads/Simulation makes a number of rounds, and the concrete runs say how many reach
-- the last join. Nothing else needs fuel: the loops of the sources count to a bound or are steps.
--
-- Parameters, since their code is not in the repository: floating point and the readings of the
-- clocks, the two pthread calls of `setPriority`, what a thread is granted, how long a step takes and
-- a sleep lasts, the growth of std::vector, std::to_string, the algorithm of std::scoped_lock. The
-- vector, the mutexes and the scheduler of case 06 follow their documentation.
--
-- Not modelled: percentages and the exact text of messages, `reportRealtimeLimit`, which only prints,
-- the throttling of real-time threads by the kernel, and the scripts.
pub mod Prelude
pub mod Overflow
pub mod Threads
pub mod Counter
pub mod Dangling
pub mod Transfer
pub mod FalseSharing
pub mod Inversion
