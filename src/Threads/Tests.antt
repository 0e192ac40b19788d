-- ===== src/Threads/Tests.antt =====
-- The theorems about the threads at small machines, and runs of the code on them.
use ec.Base.{ℕ, ◌*◌, ◌≤◌, ◌<◌, ◌≡◌, refl, ◌↔◌, true, false, some, ◌==◌, if◌then◌else◌, arith}
use ec.Threads.State.{
  ThreadStatus, exited, running, ready, empty, blocked, is_ready, JmpBuf, Machine, status_at,
  Outcome, jump, spin, finish,
}
use ec.Threads.Scheduler.{
  preempt, find_ready, switch_to, save_and_switch, schedule, scheduler_init, first_call, install,
  spawn_in, free_slot, pthread_create, Spawn, pthread_exit,
}
use ec.Threads.RoundRobin.{Turn, schedule-Turn, schedule-eq-spin_iff}
use ec.Threads.Fairness.{turns, no_starvation}
use ec.Threads.ExitCases.{Exits, pthread_exit-Exits}
use ec.Threads.Exit.{WellFormed}
use ec.Threads.Execution.{Initial, alarm, here, next, Gone, Reach-WellFormed, Reach-Gone}

abbrev zeros : JmpBuf
zeros = record { rbx = 0; rbp = 0; r12 = 0; r13 = 0; r14 = 0; r15 = 0; rsp = 0; pc = 0 }

abbrev at_pc : ℕ → JmpBuf
at_pc n = record zeros { pc = n }

-- Thread 0 runs, and the others have these statuses.
abbrev with_statuses : (ℕ → ThreadStatus) → Machine
with_statuses f = record {
  table = λ i. record { tid = i; stack = 1000 * i; regs = at_pc i; status = f i };
  current = 0;
  is_first_call = false;
  interval = 50000;
  handled = true;
  masked = false;
  allocated = λ a. true;
  words = λ a. 0;
}

-- The statuses of the first three threads; the other slots are empty.
abbrev three : ThreadStatus → ThreadStatus → ThreadStatus → Machine
three a b c =
    with_statuses (λ i. if i == 0 then a else if i == 1 then b else if i == 2 then c else empty)

abbrev pair : Machine
pair = three running blocked ready

abbrev regs_of : Outcome → JmpBuf
regs_of (jump regs m) = regs
regs_of _ = zeros

abbrev machine_of : Outcome → Machine
machine_of (jump regs m) = m
machine_of (finish code m) = m
machine_of _ = pair

-- The machine after thread 2 has taken its turn.
abbrev swapped : Machine
swapped = machine_of (schedule (at_pc 77) pair)

pair_switches : schedule (at_pc 77) pair ≡ jump (regs_of (schedule (at_pc 77) pair)) swapped
unfolding schedule preempt find_ready switch_to save_and_switch
pair_switches = refl

swapped_statuses :
    (swapped.current ≡ 2)
    × (status_at swapped 0 ≡ ready)
    × (status_at swapped 1 ≡ blocked)
    × (status_at swapped 2 ≡ running)
    × ((swapped.table 0).regs ≡ at_pc 77)
unfolding schedule preempt find_ready switch_to save_and_switch
swapped_statuses = (refl, refl, refl, refl, refl)

schedule-Turn_example : Turn (at_pc 77) pair (regs_of (schedule (at_pc 77) pair)) swapped
schedule-Turn_example = schedule-Turn (at_pc 77) pair (omega arith) pair_switches

-- A thread that blocks when no other is ready.
schedule-eq-spin_iff_example :
    (schedule zeros (three blocked exited blocked) ≡ spin)
    ↔ ((i : ℕ) → i < 128 → is_ready (status_at (preempt (three blocked exited blocked)) i) ≡ false)
schedule-eq-spin_iff_example =
    schedule-eq-spin_iff zeros (three blocked exited blocked) (omega arith)

no_starvation_example :
    (n : ℕ) × (m' : Machine) × (n ≤ 128) × (turns n zeros pair ≡ some m') × (m'.current ≡ 2)
no_starvation_example = no_starvation zeros pair 2 (omega arith) (omega arith) refl

pair-WellFormed : WellFormed pair
pair-WellFormed = record {
  one = record { in_table = omega arith; alone = λ i h. ground arith };
  tids = λ i h. refl;
}

-- Thread 1 has exited; thread 0 is interrupted.
abbrev widowed : Machine
widowed = three running exited ready

widowed-Gone : Gone 1 widowed
widowed-Gone = record {
  well_formed = record {
    one = record { in_table = omega arith; alone = λ i h. ground arith };
    tids = λ i h. refl;
  };
  started = refl;
  gone = refl;
}

widowed_switches :
    schedule (at_pc 77) widowed
    ≡ jump (regs_of (schedule (at_pc 77) widowed)) (machine_of (schedule (at_pc 77) widowed))
unfolding schedule preempt find_ready switch_to save_and_switch
widowed_switches = refl

Reach-Gone_example : Gone 1 (machine_of (schedule (at_pc 77) widowed))
Reach-Gone_example = Reach-Gone 1 widowed-Gone (next here (alarm (at_pc 77) _ widowed_switches))

abbrev spawn : Spawn
spawn = record {
  routine = 4242;
  arg = 7;
  block = 9000;
  guard = 0;
  start_thunk = 11;
  return_save = 13;
  live_main = zeros;
  live_new = zeros;
  live_schedule = at_pc 99;
}

-- The program as it starts.
abbrev zeroed : Machine
zeroed = record {
  table = λ i. record { tid = 0; stack = 0; regs = zeros; status = exited };
  current = 0;
  is_first_call = true;
  interval = 0;
  handled = false;
  masked = false;
  allocated = λ a. false;
  words = λ a. 0;
}

zeroed-Initial : Initial zeroed
zeroed-Initial = record { no_call = refl; main_thread = refl; zeroed = λ i. refl }

abbrev first_created : Machine
first_created = machine_of (pthread_create spawn zeroed).1

creates_first :
    pthread_create spawn zeroed
    ≡ (some 1, jump (regs_of (pthread_create spawn zeroed).1) first_created)
unfolding pthread_create spawn_in free_slot first_call scheduler_init install schedule preempt
    find_ready switch_to save_and_switch ec.Base.first_index
creates_first = refl

-- The alarm lets the main thread go on.
abbrev main_again : Machine
main_again = machine_of (schedule (at_pc 77) first_created)

interrupted :
    schedule (at_pc 77) first_created
    ≡ jump (regs_of (schedule (at_pc 77) first_created)) main_again
unfolding pthread_create spawn_in free_slot first_call scheduler_init install schedule preempt
    find_ready switch_to save_and_switch ec.Base.first_index
interrupted = refl

Reach-WellFormed_example : WellFormed main_again
Reach-WellFormed_example =
    Reach-WellFormed spawn 1 (regs_of (pthread_create spawn zeroed).1) zeroed zeroed-Initial
      creates_first (next here (alarm (at_pc 77) _ interrupted))

pthread_exit-Exits_example : Exits zeros pair (pthread_exit zeros pair)
pthread_exit-Exits_example = pthread_exit-Exits zeros pair pair-WellFormed
