-- ===== src/Threads/BarrierTests.antt =====
-- The theorems about barriers at small machines, and runs of the code on them.
use ec.Base.{ℕ, ◌≡◌, refl, ap, true, false, none, ◌==◌, if◌then◌else◌, arith}
use ec.Threads.State.{running, ready, empty, JmpBuf}
use ec.Threads.Scheduler.{schedule, preempt, find_ready, switch_to, save_and_switch}
use ec.Threads.Sync.{
  Sync, success, failure, serial, returns, yield, no_thread, store_barrier, pthread_barrier_init,
  pthread_barrier_destroy,
}
use ec.Threads.Barrier.{
  arrive, release, leave, loop_block, barrier_loop, finish_block, barrier_finish, wait_block,
  pthread_barrier_wait, at_loop, at_finish,
}
use ec.Threads.BarrierRun.{
  not_called, inside, returned_with, Run, calls, loops, finishes, alarm, Reach, start, step, Begins,
  is_past,
}
use ec.Threads.BarrierHolds.{barrier_holds, pthread_barrier_destroy-Reach}
use ec.Threads.BarrierOfOne.{IsStuck, barrier_of_one-IsStuck}

abbrev regs_of : ℕ → JmpBuf
regs_of i = record { rbx = i; rbp = 0; r12 = 0; r13 = 0; r14 = 0; r15 = 0; rsp = 0; pc = 0 }

-- Thread 0 runs and thread 1 is ready.
abbrev two_ready : Sync
two_ready = record {
  machine = record {
    table = λ i. record {
      tid = i;
      stack = 0;
      regs = regs_of i;
      status = if i == 0 then running else if i == 1 then ready else empty;
    };
    current = 0;
    is_first_call = false;
    interval = 50000;
    handled = true;
    masked = false;
    allocated = λ a. true;
    words = λ a. 0;
  };
  nodes = λ a. none;
  mutexes = λ a. none;
  barriers = λ a. none;
}

abbrev made_for : ℕ → Run
made_for n = record {
  sync =
      store_barrier two_ready 80
        (record { init = 1; flag = 0; calling_thread = no_thread; count = n; left = n });
  progress = λ t. not_called;
  arrived = 0;
}

two_Begins : Begins 2 80 (made_for 2)
unfolding pthread_barrier_init
two_Begins = record { before = two_ready; made = refl; nobody = λ t. refl; none_arrived = refl }

one_Begins : Begins 1 80 (made_for 1)
unfolding pthread_barrier_init
one_Begins = record { before = two_ready; made = refl; nobody = λ t. refl; none_arrived = refl }

-- Both threads call: the first is blocked, the second gets behind the loop.
both : (r : Run) × Reach 2 80 (made_for 2) r × (r.progress 1 ≡ inside at_finish)
unfolding pthread_barrier_wait wait_block barrier_loop loop_block arrive release yield schedule
    preempt find_ready switch_to save_and_switch
both = (
  _,
  step (step start (calls (regs_of 7) _ at_loop _ refl (omega arith) refl refl))
      (calls (regs_of 8) _ at_finish _ refl (omega arith) refl refl),
  refl,
)

barrier_holds_example : both.0.arrived ≡ 2
barrier_holds_example = barrier_holds 2 80 1 (omega arith) two_Begins both.1 (ap is_past both.2)

-- Then both return, the first to call with PTHREAD_BARRIER_SERIAL_THREAD.
both_return :
    (r : Run) × Reach 2 80 (made_for 2) r
    × (r.progress 0 ≡ returned_with serial)
    × (r.progress 1 ≡ returned_with success)
unfolding pthread_barrier_wait wait_block barrier_loop loop_block arrive release yield schedule
    preempt find_ready switch_to save_and_switch barrier_finish finish_block leave
both_return = (
  _,
  step
      (step
        (step
          (step
            (step (step start (calls (regs_of 7) _ at_loop _ refl (omega arith) refl refl))
              (calls (regs_of 8) _ at_finish _ refl (omega arith) refl refl))
            (loops (regs_of 9) _ at_finish _ refl refl refl))
          (finishes success _ refl refl refl))
        (alarm (regs_of 8) _ _ refl refl))
      (finishes serial _ refl refl refl),
  refl,
  refl,
)

pthread_barrier_destroy-Reach_example :
    pthread_barrier_destroy 80 both_return.0.sync ≡ returns failure both_return.0.sync
pthread_barrier_destroy-Reach_example =
    pthread_barrier_destroy-Reach 2 80 (omega arith) two_Begins both_return.1

-- Thread 0 calls at a barrier for one.
alone : (r : Run) × Reach 1 80 (made_for 1) r × (r.progress 0 ≡ inside at_loop)
unfolding pthread_barrier_wait wait_block arrive yield schedule preempt find_ready switch_to
    save_and_switch
alone = (_, step start (calls (regs_of 7) _ at_loop _ refl (omega arith) refl refl), refl)

barrier_of_one-IsStuck_example : IsStuck alone.0 0
barrier_of_one-IsStuck_example = barrier_of_one-IsStuck 80 0 one_Begins (omega arith) alone.1
