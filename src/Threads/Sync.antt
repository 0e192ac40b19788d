-- ===== src/Threads/Sync.antt =====
-- The mutexes and barriers of 3. Thread Synchronisation/threads.c, with their control blocks on a heap.
use ec.Base.{ℕ, ◌-◌, ◌^◌, Bool, true, false, not, Option, none, some, ◌==◌, if◌then◌else◌, update}
use ec.Threads.State.{
  ThreadStatus, ready, blocked, JmpBuf, Machine, set_status, Outcome, jump, spin, finish,
  out_of_bounds,
}
use ec.Threads.Scheduler.{schedule}
use ec.Threads.WaitList.{Nodes, Waiters, insert_tail, get_head, is_empty}

-- `mutex_state`; the enumeration gives LOCKED the value 0 and UNLOCKED the value 1.
pub data MutexState : Type 0 where
  locked unlocked : MutexState

abbrev pub is_unlocked : MutexState → Bool
is_unlocked locked = false
is_unlocked unlocked = true

-- `MutexControlBlock`
pub record MutexBlock : Type 0 where
  pub state : MutexState
  pub wait_list : ℕ
  pub wait_list_tail : ℕ

-- `BarrierControlBlock`
pub record BarrierBlock : Type 0 where
  pub init : ℕ
  pub flag : ℕ
  pub calling_thread : ℕ
  pub count : ℕ
  pub left : ℕ

-- The threads with the blocks of memory that the calls below allocate. The address 0 is NULL; a block
-- that is read and not there is a fault.
pub record Sync : Type 0 where
  pub machine : Machine
  pub nodes : Nodes
  pub mutexes : ℕ → Option MutexBlock
  pub barriers : ℕ → Option BarrierBlock

-- What the calls return: 0, EBUSY, EINVAL, -1 and PTHREAD_BARRIER_SERIAL_THREAD.
pub data Code : Type 0 where
  success busy invalid failure serial : Code

-- How a stretch of a call ends: it returns, or it has called `schedule`, which switches threads or
-- loops for ever, and goes on when the thread is resumed; or it reads through a bad pointer.
pub data Result : Type 0 where
  returns : Code → Sync → Result
  switches : JmpBuf → Sync → Result
  hangs : Result
  fault : Result

-- `lock` and `unlock` mask SIGALRM.
abbrev pub lock_alarm : Sync → Sync
lock_alarm s = record s { machine = record (s.machine) { masked = true } }

abbrev pub unlock_alarm : Sync → Sync
unlock_alarm s = record s { machine = record (s.machine) { masked = false } }

abbrev pub with_outcome : Sync → Outcome → Result
with_outcome s (jump regs m) = switches regs (record s { machine = m })
with_outcome s spin = hangs
with_outcome s (finish code m) = fault
with_outcome s out_of_bounds = fault

-- A call of `schedule` inside one of the calls below.
unfoldable pub yield : JmpBuf → Sync → Result
yield live s = with_outcome s (schedule live s.machine)

abbrev pub store_mutex : Sync → ℕ → MutexBlock → Sync
store_mutex s p b = record s { mutexes = update s.mutexes p (some b) }

abbrev pub store_barrier : Sync → ℕ → BarrierBlock → Sync
store_barrier s p b = record s { barriers = update s.barriers p (some b) }

-- `TCB_Table[tid].status = status`
abbrev pub mark : Sync → ℕ → ThreadStatus → Sync
mark s tid status = record s { machine = set_status s.machine tid status }

abbrev pub waiters : Sync → MutexBlock → Waiters
waiters s b = record { list = b.wait_list; tail = b.wait_list_tail; nodes = s.nodes }

-- `pthread_mutex_init`, where `block` is what `malloc` returns and becomes `mutex->__align`.
unfoldable pub pthread_mutex_init : ℕ → Sync → Result
pthread_mutex_init block s =
    if block == 0
    then fault
    else returns success
        (store_mutex s block (record { state = unlocked; wait_list = 0; wait_list_tail = 0 }))

destroy_mutex : ℕ → Sync → Option MutexBlock → Result
destroy_mutex p s none = fault
destroy_mutex p s (some b) =
    if is_unlocked b.state
    then returns success (record s { mutexes = update s.mutexes p none })
    else returns failure s

-- `pthread_mutex_destroy`, where `p` is `mutex->__align`.
unfoldable pub pthread_mutex_destroy : ℕ → Sync → Result
unfolding destroy_mutex
pthread_mutex_destroy p s = destroy_mutex p s (s.mutexes p)

-- The state of the mutex and of the queue once the thread is in it.
unfoldable pub enqueued : JmpBuf → ℕ → MutexBlock → Sync → Option Waiters → Result
enqueued live p b s none = fault
enqueued live p b s (some w) = yield live (
    unlock_alarm (
      store_mutex (record s { nodes = w.nodes }) p
        (record b { wait_list = w.list; wait_list_tail = w.tail })))

-- The thread that finds the mutex locked waits; resumed, it returns EBUSY (`lock_resumed`).
unfoldable pub wait_for_mutex : JmpBuf → ℕ → ℕ → MutexBlock → Sync → Result
wait_for_mutex live fresh p b s =
    let s1 = mark (lock_alarm s) s.machine.current blocked in
    enqueued live p b s1 (insert_tail fresh s.machine.current (waiters s1 b))

unfoldable pub lock_block : JmpBuf → ℕ → ℕ → Sync → Option MutexBlock → Result
lock_block live fresh p s none = fault
lock_block live fresh p s (some b) =
    if is_unlocked b.state
    then returns success (unlock_alarm (store_mutex (lock_alarm s) p (record b { state = locked })))
    else wait_for_mutex live fresh p b s

-- `pthread_mutex_lock`; `fresh` is what `malloc` returns in `insert_tail`.
unfoldable pub pthread_mutex_lock : JmpBuf → ℕ → ℕ → Sync → Result
pthread_mutex_lock live fresh p s = lock_block live fresh p s (s.mutexes p)

-- What `pthread_mutex_lock` does when a waiting thread is resumed.
unfoldable pub lock_resumed : Sync → Result
lock_resumed s = returns busy s

-- The first waiter is made ready. The source stores 1 in the state, which is UNLOCKED.
unfoldable pub hand_over : JmpBuf → ℕ → MutexBlock → Sync → Option (ℕ × Waiters) → Result
hand_over live p b s none = fault
hand_over live p b s (some (next_thread, w)) = yield live (
    unlock_alarm (
      mark
        (store_mutex (record s { nodes = w.nodes }) p
          (record { state = unlocked; wait_list = w.list; wait_list_tail = w.tail }))
        next_thread ready))

unfoldable pub unlock_block : JmpBuf → ℕ → Sync → Option MutexBlock → Result
unlock_block live p s none = fault
unlock_block live p s (some b) =
    if is_empty b.wait_list
    then returns success
        (unlock_alarm (store_mutex (lock_alarm s) p (record b { state = unlocked })))
    else (let s1 = lock_alarm s in hand_over live p b s1 (get_head (waiters s1 b)))

-- `pthread_mutex_unlock`; when it has called `schedule` it returns 0 once resumed (`unlock_resumed`).
unfoldable pub pthread_mutex_unlock : JmpBuf → ℕ → Sync → Result
pthread_mutex_unlock live p s = unlock_block live p s (s.mutexes p)

unfoldable pub unlock_resumed : Sync → Result
unlock_resumed s = returns success s

abbrev pub no_thread : ℕ
no_thread = 2 ^ 64 - 1

-- `pthread_barrier_init`, where `block` is what `malloc` returns.
unfoldable pub pthread_barrier_init : ℕ → ℕ → Sync → Result
pthread_barrier_init block count s =
    if count == 0
    then returns invalid s
    else if block == 0
    then fault
    else returns success (
        store_barrier s block
          (record { init = 1; flag = 0; calling_thread = no_thread; count = count; left = count }))

unfoldable pub destroy_barrier : ℕ → Sync → Option BarrierBlock → Result
destroy_barrier p s none = fault
destroy_barrier p s (some b) =
    if not (b.init == 1)
    then returns success (record s { barriers = update s.barriers p none })
    else returns failure s

-- `pthread_barrier_destroy`
unfoldable pub pthread_barrier_destroy : ℕ → Sync → Result
pthread_barrier_destroy p s = destroy_barrier p s (s.barriers p)
