-- ===== src/Threads/Lifecycle.antt =====
-- `pthread_create` and `pthread_exit` of threads.c: the slot that a new thread takes, what it starts
-- with, and how the last threads end.
use ec.Base.{
  ℕ, ◌+◌, ◌-◌, ◌≤◌, ◌<◌, ◌≡◌, ◌≢◌, true, false, some, ≢→==, arith, IsFirst, first_index-IsFirst,
}
use ec.Threads.State.{ready, is_empty, JmpBuf, Machine, status_at, jump}
use ec.Threads.Scheduler.{
  schedule, Spawn, first_call, ptr_mangle, install, spawn_in, free_slot, pthread_create,
}
use ec.Threads.RoundRobin.{Turn}

pub spawn_in-of_slot :
    (s : Spawn) (m : Machine) (t : ℕ)
    → t < 128
    → spawn_in s m (some t) ≡ (some t, schedule s.live_schedule (install s t m))
unfolding spawn_in
spawn_in-of_slot s m t h = rw (≢→== t 128 (omega arith))

-- The slot that is found is the lowest empty one behind slot 0.
pub record IsLowestEmpty (m : Machine) (t : ℕ) : Type 0 where
  pub in_table : (1 ≤ t) × (t < 128)
  pub unused : is_empty (status_at m t) ≡ true
  pub lowest : (j : ℕ) → 1 ≤ j → j < t → is_empty (status_at m j) ≡ false

pub free_slot-IsLowestEmpty : (m : Machine) {t : ℕ} → free_slot m.table ≡ some t → IsLowestEmpty m t
unfolding free_slot
free_slot-IsLowestEmpty m {t} e =
    let f : IsFirst (λ i. is_empty (status_at m i)) 1 127 t = first_index-IsFirst _ 1 127 e in
    record { in_table = (f.from, omega (arith, f.below)); unused = f.passes; lowest = f.least }

-- The thread `t` of `m'` is ready to start: resumed, it jumps to the mangled address of `start_thunk` with the
-- routine in R12 and its argument in R13, on a stack whose top holds the address of
-- `pthread_function_return_save`. No other thread differs from `m`.
pub record Prepared (s : Spawn) (m m' : Machine) (t : ℕ) : Type 0 where
  pub its_status : status_at m' t ≡ ready
  pub its_tid : (m'.table t).tid ≡ t
  pub starts_at : ((m'.table t).regs).pc ≡ ptr_mangle s.guard s.start_thunk
  pub its_routine : ((m'.table t).regs).r12 ≡ s.routine
  pub its_argument : ((m'.table t).regs).r13 ≡ s.arg
  pub its_stack : (m'.table t).stack ≡ s.block
  pub stack_pointer : ((m'.table t).regs).rsp ≡ ptr_mangle s.guard (s.block + 32767 - 8)
  pub returns_to : m'.words (s.block + 32767 - 8) ≡ s.return_save
  pub is_allocated : m'.allocated s.block ≡ true
  pub others : (i : ℕ) → i ≢ t → m'.table i ≡ m.table i

-- What a successful call of `pthread_create` has done when it switches away.
pub record Created (s : Spawn) (m : Machine) (t : ℕ) : Type 0 where
  pub slot : IsLowestEmpty (first_call s m) t
  pub started : Machine
  pub prepared : Prepared s (first_call s m) started t
  pub regs : JmpBuf
  pub after : Machine
  pub result : pthread_create s m ≡ (some t, jump regs after)
  pub turn : Turn s.live_schedule started regs after
