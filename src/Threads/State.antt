-- ===== src/Threads/State.antt =====
-- The data of ec440threads.h: thread control blocks, saved registers, and the globals of threads.c.
use ec.Base.{ℕ, ◌*◌, Bool, true, false, update}

-- `enum thread_status`
pub data ThreadStatus : Type 0 where
  exited running ready empty blocked : ThreadStatus

abbrev pub is_running : ThreadStatus → Bool
is_running running = true
is_running _ = false

abbrev pub is_ready : ThreadStatus → Bool
is_ready ready = true
is_ready _ = false

abbrev pub is_exited : ThreadStatus → Bool
is_exited exited = true
is_exited _ = false

abbrev pub is_empty : ThreadStatus → Bool
is_empty empty = true
is_empty _ = false

-- The registers of a `jmp_buf`, in the order of the JB_ constants.
pub record JmpBuf : Type 0 where
  pub rbx : ℕ
  pub rbp : ℕ
  pub r12 : ℕ
  pub r13 : ℕ
  pub r14 : ℕ
  pub r15 : ℕ
  pub rsp : ℕ
  pub pc : ℕ

-- `thread_control_block`; a stack is its address, 0 for NULL.
pub record Tcb : Type 0 where
  pub tid : ℕ
  pub stack : ℕ
  pub regs : JmpBuf
  pub status : ThreadStatus

abbrev pub max_threads : ℕ
max_threads = 128

abbrev pub thread_stack_size : ℕ
thread_stack_size = 32767

abbrev pub scheduler_interval_usecs : ℕ
scheduler_interval_usecs = 50 * 1000

-- The globals of threads.c with what the calls of libc change: the interval of the alarm (0 if it
-- is not set), whether SIGALRM has its handler and is masked, which blocks of memory are allocated,
-- and the words of memory.
pub record Machine : Type 0 where
  pub table : ℕ → Tcb
  pub current : ℕ
  pub is_first_call : Bool
  pub interval : ℕ
  pub handled : Bool
  pub masked : Bool
  pub allocated : ℕ → Bool
  pub words : ℕ → ℕ

abbrev pub status_at : Machine → ℕ → ThreadStatus
status_at m i = (m.table i).status

-- `TCB_Table[i].status = s`
abbrev pub set_status : Machine → ℕ → ThreadStatus → Machine
set_status m i s = record m { table = update m.table i (record (m.table i) { status = s }) }

-- `setjmp(TCB_Table[i].regs)`, where `live` are the registers of the processor.
abbrev pub save_regs : Machine → ℕ → JmpBuf → Machine
save_regs m i live = record m { table = update m.table i (record (m.table i) { regs = live }) }

-- How a call that may switch threads ends: `longjmp` to saved registers, a loop for ever, the end of
-- the process with a status, or a read beyond `TCB_Table`.
pub data Outcome : Type 0 where
  jump : JmpBuf → Machine → Outcome
  spin : Outcome
  finish : ℕ → Machine → Outcome
  out_of_bounds : Outcome
