-- ===== src/Threads/SyncTests.antt =====
-- The theorems about wait lists, mutexes and barriers at small states, and runs of the code on them.
use ec.Base.{
  ℕ, ◌≡◌, refl, ◌≢◌, ◌↔◌, ◌⊎◌, true, false, none, some, [], ◌∷◌, ◌==◌, if◌then◌else◌, arith,
}
use ec.Threads.State.{running, ready, empty, blocked, JmpBuf, Machine, status_at}
use ec.Threads.WaitList.{Nodes, Waiters, get_head}
use ec.Threads.WaitQueue.{Cells, IsQueue, get_head-IsQueue}
use ec.Threads.Sync.{
  locked, unlocked, MutexBlock, Sync, success, serial, returns, switches, hangs, pthread_mutex_lock,
  pthread_mutex_unlock,
}
use ec.Threads.Mutex.{
  IsMutex, pthread_mutex_lock-waits, pthread_mutex_unlock-wakes, lock-after-unlock,
}
use ec.Threads.Barrier.{arrive, release, leave}
use ec.Threads.BarrierRounds.{
  Round, start, after_arrive, after_pass, after_leave, arrives, passes, leaves, Reach, here, next,
  serial_unique,
}

abbrev zeros : JmpBuf
zeros = record { rbx = 0; rbp = 0; r12 = 0; r13 = 0; r14 = 0; r15 = 0; rsp = 0; pc = 0 }

-- Thread 0 runs, thread 1 waits and thread 2 is ready.
abbrev machine : Machine
machine = record {
  table = λ i. record {
    tid = i;
    stack = 0;
    regs = zeros;
    status =
        if i == 0 then running else if i == 1 then blocked else if i == 2 then ready else empty;
  };
  current = 0;
  is_first_call = false;
  interval = 50000;
  handled = true;
  masked = false;
  allocated = λ a. true;
  words = λ a. 0;
}

-- Thread 1 waits in the node at 500.
abbrev one_node : Nodes
one_node a = if a == 500 then some (record { tid = 1; next = 0 }) else none

abbrev one_waiter : Waiters
one_waiter = record { list = 500; tail = 500; nodes = one_node }

abbrev one_cell : Cells
one_cell = (500, 1) ∷ []

one_waiter-IsQueue : IsQueue one_waiter one_cell
one_waiter-IsQueue = record { head = refl; last = refl; chain = (omega arith, refl, tt, tt) }

get_head-IsQueue_example :
    (w : Waiters) × (get_head one_waiter ≡ some (1, w)) × IsQueue w [] × (w.nodes 500 ≡ none)
get_head-IsQueue_example = get_head-IsQueue one_waiter (500, 1) [] one_waiter-IsQueue

abbrev taken : MutexBlock
taken = record { state = locked; wait_list = 500; wait_list_tail = 500 }

-- Thread 0 has the mutex at 40.
abbrev contended : Sync
contended = record {
  machine = machine;
  nodes = one_node;
  mutexes = λ a. if a == 40 then some taken else none;
  barriers = λ a. none;
}

contended-IsMutex : IsMutex contended 40 taken one_cell
contended-IsMutex = record { block = refl; queue = one_waiter-IsQueue; asleep = (refl, tt) }

pthread_mutex_lock-waits_example :
    (pthread_mutex_lock zeros 600 40 contended ≡ hangs)
    ⊎ ((regs : JmpBuf) × (s' : Sync) × (b' : MutexBlock) × (pthread_mutex_lock zeros 600 40
            contended
          ≡ switches regs s')
        × IsMutex s' 40 b' ((500, 1) ∷ (600, 0) ∷ [])
        × (b'.state ≡ locked)
        × (s'.machine.current ≢ 0))
pthread_mutex_lock-waits_example =
    pthread_mutex_lock-waits zeros 600 40 contended taken one_cell (omega arith) contended-IsMutex
      refl (omega arith) (omega arith, tt)

pthread_mutex_unlock-wakes_example :
    (regs : JmpBuf) × (s' : Sync) × (b' : MutexBlock) × (pthread_mutex_unlock zeros 40 contended
      ≡ switches regs s')
    × IsMutex s' 40 b' []
    × ((1 ≡ s'.machine.current) ⊎ (status_at s'.machine 1 ≡ ready))
    × (b'.state ≡ unlocked)
pthread_mutex_unlock-wakes_example =
    pthread_mutex_unlock-wakes zeros 40 contended taken (500, 1) [] (omega arith) (omega arith) tt
      contended-IsMutex

-- Thread 2 waits for the mutex, and thread 1, whose turn comes first, is ready.
abbrev before_waiter : Sync
before_waiter = record {
  machine = record machine {
    table = λ i. record {
      tid = i;
      stack = 0;
      regs = zeros;
      status =
          if i == 0 then running else if i == 1 then ready else if i == 2 then blocked else empty;
    };
  };
  nodes = λ a. if a == 500 then some (record { tid = 2; next = 0 }) else none;
  mutexes = λ a. if a == 40 then some taken else none;
  barriers = λ a. none;
}

before_waiter-IsMutex : IsMutex before_waiter 40 taken ((500, 2) ∷ [])
before_waiter-IsMutex = record {
  block = refl;
  queue = record { head = refl; last = refl; chain = (omega arith, refl, tt, tt) };
  asleep = (refl, tt);
}

lock-after-unlock_example :
    (regs : JmpBuf) × (s' s'' : Sync) × (pthread_mutex_unlock zeros 40 before_waiter
      ≡ switches regs s')
    × (pthread_mutex_lock zeros 700 40 s' ≡ returns success s'')
    × (s''.machine.current ≢ 2)
    × (status_at s''.machine 2 ≡ ready)
lock-after-unlock_example =
    lock-after-unlock zeros zeros 700 40 1 before_waiter taken (500, 2) [] (omega arith)
      (omega arith) tt before_waiter-IsMutex (omega arith) refl (omega arith)

-- Threads 5 and 6 go through a barrier for two, thread 5 first.
abbrev round1 : Round
round1 = after_arrive 5 (start 2)

abbrev round2 : Round
round2 = after_arrive 6 round1

abbrev round3 : Round
round3 = after_pass 6 round2

abbrev round4 : Round
round4 = after_leave 6 round3

abbrev round5 : Round
round5 = after_pass 5 round4

abbrev round6 : Round
round6 = after_leave 5 round5

reach4 : Reach 2 (start 2) round4
unfolding arrive release leave
reach4 =
    next
      (next
        (next (next here (arrives 5 refl (omega arith) refl)) (arrives 6 refl (omega arith) refl))
        (passes 6 refl refl refl))
      (leaves 6 refl refl)

reach6 : Reach 2 (start 2) round6
unfolding arrive release leave
reach6 = next (next reach4 (passes 5 refl refl refl)) (leaves 5 refl refl)

serial_unique_example : (success ≡ serial) ↔ ◌≡◌ {A = ℕ} 5 6
unfolding arrive release leave
serial_unique_example = serial_unique 2 5 6 success (omega arith) reach6 refl refl
