-- ===== src/Threads/Scheduler.antt =====
-- `schedule`, `scheduler_init`, `pthread_create`, `pthread_exit` and `pthread_self` of threads.c.
use Prim.Native.Nat.{bit_xor}
use ec.Base.{
  ℕ, zero, suc, ◌+◌, ◌-◌, ◌*◌, ◌/◌, ◌%◌, ◌^◌, Bool, true, false, not, ◌&&◌, ◌||◌, Option, none,
  some, ◌==◌, ltb, if◌then◌else◌, update, first_index,
}
use ec.Threads.State.{
  ThreadStatus, exited, running, ready, empty, blocked, is_running, is_ready, is_exited, is_empty,
  JmpBuf, Tcb, max_threads, thread_stack_size, scheduler_interval_usecs, Machine, status_at,
  set_status, save_regs, Outcome, jump, spin, finish, out_of_bounds,
}

-- The `switch` at the head of `schedule`: a running thread becomes ready.
unfoldable pub preempt : Machine → Machine
preempt m = if is_running (status_at m m.current) then set_status m m.current ready else m

-- The next index, going round at the end of the table.
abbrev pub advance : ℕ → ℕ
advance tid = if tid == max_threads - 1 then 0 else tid + 1

-- The `while(1)` loop: `none` after `fuel` rounds without a ready thread. As the loop changes
-- nothing but the index, `max_threads` rounds without one mean that it never ends.
unfoldable pub find_ready : (ℕ → Tcb) → ℕ → ℕ → Option ℕ
find_ready table zero tid = none
find_ready table (suc fuel) tid =
    let rest = find_ready table fuel (advance tid) in
    if is_ready (table (advance tid)).status then some (advance tid) else rest

-- `TID = current_tid; TCB_Table[TID].status = TS_RUNNING; longjmp(TCB_Table[TID].regs, 1)`
unfoldable pub switch_to : ℕ → Machine → Outcome
switch_to tid m =
    let m' = set_status (record m { current = tid }) tid running in jump (m'.table tid).regs m'

-- The end of `schedule`, at the thread that the loop has found.
unfoldable pub save_and_switch : JmpBuf → Machine → Option ℕ → Outcome
save_and_switch live m none = spin
save_and_switch live m (some tid) =
    switch_to tid (if is_exited (status_at m m.current) then m else save_regs m m.current live)

-- Called by a thread, or as the handler of SIGALRM; `live` are the registers that `setjmp` saves.
unfoldable pub schedule : JmpBuf → Machine → Outcome
schedule live m =
    let m1 = preempt m in save_and_switch live m1 (find_ready m1.table max_threads m1.current)

-- The loop over the table, then `ualarm` and `sigaction`.
unfoldable pub scheduler_init : Machine → Machine
scheduler_init m = record m {
  table =
      λ i. if ltb i max_threads then record (m.table i) { status = empty; tid = i } else m.table i;
  interval = scheduler_interval_usecs;
  handled = true;
}

abbrev pub word_mod : ℕ
word_mod = 2 ^ 64

-- `ptr_mangle`: exclusive or with the guard at %fs:0x30, then a rotation to the left by 0x11.
unfoldable pub ptr_mangle : ℕ → ℕ → ℕ
ptr_mangle guard p = let x = bit_xor p guard in x * 2 ^ 17 % word_mod + x / 2 ^ 47

-- What a call of `pthread_create` is given by its caller and by the platform: the routine and its
-- argument, the block that `malloc` returns, the pointer guard, the addresses of the two functions
-- that it names, and the registers at its calls of `setjmp`.
pub record Spawn : Type 0 where
  pub routine : ℕ
  pub arg : ℕ
  pub block : ℕ
  pub guard : ℕ
  pub start_thunk : ℕ
  pub return_save : ℕ
  pub live_main : JmpBuf
  pub live_new : JmpBuf
  pub live_schedule : JmpBuf

-- The first call sets up the scheduler and thread 0.
unfoldable pub first_call : Spawn → Machine → Machine
first_call s m =
    if m.is_first_call
    then (let m' = record (scheduler_init m) { is_first_call = false } in
        save_regs (set_status m' 0 ready) 0 s.live_main)
    else m

-- The top of the new stack holds the address of `pthread_function_return_save`.
abbrev pub stack_top : Spawn → ℕ
stack_top s = s.block + thread_stack_size - 8

-- The registers, stack and status of a new thread.
unfoldable pub install : Spawn → ℕ → Machine → Machine
install s tid m = record m {
  table = update m.table tid (record {
    tid = tid;
    stack = s.block;
    regs = record (s.live_new) {
      pc = ptr_mangle s.guard s.start_thunk;
      r13 = s.arg;
      r12 = s.routine;
      rsp = ptr_mangle s.guard (stack_top s);
    };
    status = ready;
  });
  allocated = update m.allocated s.block true;
  words = update m.words (stack_top s) s.return_save;
}

-- The body of `pthread_create` behind the loop for a free slot. The loop reads the status before it
-- tests the index, so with no slot free it reads beyond the table.
unfoldable pub spawn_in : Spawn → Machine → Option ℕ → Option ℕ × Outcome
spawn_in s m none = (none, out_of_bounds)
spawn_in s m (some tid) =
    if tid == max_threads
    then (none, finish 1 m)
    else (some tid, schedule s.live_schedule (install s tid m))

-- The slot at which that loop stops.
unfoldable pub free_slot : (ℕ → Tcb) → Option ℕ
free_slot table = first_index (λ i. is_empty (table i).status) 1 (max_threads - 1)

-- `pthread_create`: the ID stored in `*thread`, if one is, and how the call ends.
unfoldable pub pthread_create : Spawn → Machine → Option ℕ × Outcome
pthread_create s m = let m1 = first_call s m in spawn_in s m1 (free_slot m1.table)

abbrev pub is_left : ThreadStatus → Bool
is_left ready = true
is_left running = true
is_left blocked = true
is_left _ = false

-- The first loop of `pthread_exit`: whether one of the first `n` threads is left.
unfoldable pub threads_left : (ℕ → Tcb) → ℕ → Bool
threads_left table zero = false
threads_left table (suc n) = threads_left table n || is_left (table n).status

-- `for(i = 0; i < n; i++) if(TCB_Table[i].status == TS_EXITED) free(TCB_Table[i].stack)`, where
-- freeing NULL does nothing.
unfoldable pub free_stacks : (ℕ → Tcb) → ℕ → (ℕ → Bool) → ℕ → Bool
free_stacks table zero allocated = allocated
free_stacks table (suc n) allocated =
    let before = free_stacks table n allocated in
    if is_exited (table n).status && not ((table n).stack == 0)
    then update before (table n).stack false
    else before

-- `pthread_exit`. The call of `schedule` does not return, as an exited thread is not saved.
unfoldable pub pthread_exit : JmpBuf → Machine → Outcome
pthread_exit live m =
    let m1 = set_status m m.current exited in
    let tid = (m1.table m1.current).tid in
    let m2 = if tid == m1.current then m1 else set_status m1 tid ready in
    if threads_left m2.table max_threads
    then schedule live m2
    else finish 0 (record m2 { allocated = free_stacks m2.table max_threads m2.allocated })

unfoldable pub pthread_self : Machine → ℕ
pthread_self m = m.current
