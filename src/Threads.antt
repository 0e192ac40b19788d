-- ===== src/Threads.antt =====
-- The user-level threads: 3. Thread Synchronisation/threads.c and ec440threads.h, whose scheduler,
-- creation and exit are those of 2. Threading Library/threads.c.
pub mod State
pub mod Scheduler
pub mod RoundRobin
pub mod Fairness
pub mod Lifecycle
pub mod Exit
pub mod ExitCases
pub mod Execution
pub mod WaitList
pub mod WaitQueue
pub mod Sync
pub mod Barrier
pub mod Mutex
pub mod BarrierRounds
pub mod BarrierRun
pub mod BarrierHolds
pub mod BarrierOfOne
mod Tests
mod SyncTests
mod BarrierTests
