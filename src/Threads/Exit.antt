-- ===== src/Threads/Exit.antt =====
-- `pthread_exit` of threads.c: who runs next, when the process ends, and when it hangs.
use ec.Base.{
  ◌∙◌, ℕ, zero, suc, ◌<◌, ◌≡◌, refl, ◌≢◌, inl, inr, Bool, true, false, ◌==◌, if◌then◌else◌, ==→≡,
  ==→≢, sym, Bool-cases, arith,
}
use ec.Threads.State.{
  ThreadStatus, exited, blocked, is_ready, is_exited, JmpBuf, Tcb, Machine, status_at, set_status,
  jump, spin, finish,
}
use ec.Threads.Scheduler.{preempt, schedule, is_left, threads_left, free_stacks, pthread_exit}
use ec.Threads.RoundRobin.{Turn, schedule-Turn, schedule-switches, schedule-eq-spin_iff}
use ec.Threads.Fairness.{OneRunning, ready-preempt}

threads_left-of_left :
    (table : ℕ → Tcb) (n j : ℕ)
    → j < n
    → is_left (table j).status ≡ true
    → threads_left table n ≡ true
unfolding threads_left
threads_left-of_left table zero j h l = absurd (omega arith)
threads_left-of_left table (suc n) j h l = elim (Bool-cases (j == n)) [
  | inl e ↦ ground (arith, ==→≡ j n e)
  | inr e ↦ ground (arith, threads_left-of_left table n j (omega (arith, ==→≢ j n e)) l)
]

threads_left-of_none :
    (table : ℕ → Tcb) (n : ℕ)
    → ((j : ℕ) → j < n → is_left (table j).status ≡ false)
    → threads_left table n ≡ false
unfolding threads_left
threads_left-of_none table zero h = refl
threads_left-of_none table (suc n) h =
    rw (threads_left-of_none table n (λ j l. h j (omega arith)), h n (omega arith))

-- Every TCB of the table knows its own index.
pub record WellFormed (m : Machine) : Type 0 where
  pub one : OneRunning m
  pub tids : (i : ℕ) → i < 128 → (m.table i).tid ≡ i

-- The machine in which `pthread_exit` looks for the threads that are left.
abbrev pub marked : Machine → Machine
marked m = set_status m m.current exited

pub pthread_exit-eq :
    (live : JmpBuf) (m : Machine)
    → WellFormed m
    → pthread_exit live m ≡ (
        if threads_left (marked m).table 128
        then schedule live (marked m)
        else finish 0
            (record (marked m) { allocated = free_stacks (marked m).table 128 m.allocated }))
unfolding pthread_exit
pthread_exit-eq live m v = ground (arith, v.tids m.current v.one.in_table)

pub status-preempt-marked :
    (m : Machine) (i : ℕ) → status_at (preempt (marked m)) i ≡ status_at (marked m) i
unfolding preempt
status-preempt-marked m i = ground arith

left-of_ready : (s : ThreadStatus) → is_ready s ≡ true → is_left s ≡ true
left-of_ready s h = ground arith

-- While another thread is ready, `pthread_exit` takes a turn and does not come back: the caller stays
-- exited, and another thread runs.
pub pthread_exit-switches :
    (live : JmpBuf) (m : Machine) (j : ℕ)
    → WellFormed m
    → j < 128
    → j ≢ m.current
    → is_ready (status_at m j) ≡ true
    → (regs : JmpBuf) × (m' : Machine) × (pthread_exit live m ≡ jump regs m')
      × Turn live (marked m) regs m'
      × (m'.current ≢ m.current)
      × (status_at m' m.current ≡ exited)
pthread_exit-switches live m j v hj ne r =
    let r1 : is_ready (status_at (marked m) j) ≡ true = ground arith in
    let left : threads_left (marked m).table 128 ≡ true =
      threads_left-of_left _ 128 j hj (left-of_ready _ r1) in
    let (regs, m', e) =
      schedule-switches live (marked m) j v.one.in_table hj (ready-preempt (marked m) j r1) in
    let w : Turn live (marked m) regs m' = schedule-Turn live (marked m) v.one.in_table e in
    let gone : status_at (marked m) m.current ≡ exited = ground arith in
    let other : m'.current ≢ m.current =
      (λ s. cc (w.was_ready, status-preempt-marked m m.current, gone)) in
    (
      regs,
      m',
      rw (pthread_exit-eq live m v, left) e,
      w,
      other,
      w.others m.current (λ s. other (sym s)) ∙ status-preempt-marked m m.current ∙ gone,
    )

-- The final loop frees the stacks of the exited threads among the first `n`, and nothing else.
pub free_stacks-frees :
    (table : ℕ → Tcb) (n : ℕ) (allocated : ℕ → Bool) (j : ℕ)
    → j < n
    → is_exited (table j).status ≡ true
    → (table j).stack ≢ 0
    → free_stacks table n allocated (table j).stack ≡ false
unfolding free_stacks
free_stacks-frees table zero allocated j h x ne = absurd (omega arith)
free_stacks-frees table (suc n) allocated j h x ne = elim (Bool-cases (j == n)) [
  | inl e ↦ ground (arith, ==→≡ j n e)
  | inr e ↦ ground (arith, free_stacks-frees table n allocated j (omega (arith, ==→≢ j n e)) x ne)
]

pub free_stacks-keeps :
    (table : ℕ → Tcb) (n : ℕ) (allocated : ℕ → Bool) (a : ℕ)
    → ((j : ℕ) → j < n → is_exited (table j).status ≡ true → (table j).stack ≢ a)
    → free_stacks table n allocated a ≡ allocated a
unfolding free_stacks
free_stacks-keeps table zero allocated a h = refl
free_stacks-keeps table (suc n) allocated a h =
    ground
      (arith, free_stacks-keeps table n allocated a (λ j l. h j (omega arith)), h n (omega arith))

-- With no other thread left `pthread_exit` ends the process with status 0, and by then the stack of
-- every exited thread has been freed, the caller's own included.
pub pthread_exit-finishes :
    (live : JmpBuf) (m : Machine)
    → WellFormed m
    → ((j : ℕ) → j < 128 → j ≢ m.current → is_left (status_at m j) ≡ false)
    → (m' : Machine) × (pthread_exit live m ≡ finish 0 m')
      × ((j : ℕ)
          → j < 128
          → is_exited (status_at m' j) ≡ true
          → (m'.table j).stack ≢ 0
          → m'.allocated (m'.table j).stack ≡ false)
pthread_exit-finishes live m v h =
    let table = (marked m).table in
    let none_left : (j : ℕ) → j < 128 → is_left (table j).status ≡ false = λ j hj.
      elim (Bool-cases (m.current == j)) [
        | inl e ↦ rw e
        | inr e ↦ rw e (h j hj (λ s. ==→≢ m.current j e (sym s)))
      ] in
    (
      record (marked m) { allocated = free_stacks table 128 m.allocated },
      rw (pthread_exit-eq live m v, threads_left-of_none table 128 none_left),
      λ j hj x ne. free_stacks-frees table 128 m.allocated j hj x ne,
    )

-- When the threads that are left are all blocked, the call of `pthread_exit` never ends.
pub pthread_exit-hangs :
    (live : JmpBuf) (m : Machine) (b : ℕ)
    → WellFormed m
    → b < 128
    → b ≢ m.current
    → status_at m b ≡ blocked
    → ((j : ℕ) → j < 128 → j ≢ m.current → is_ready (status_at m j) ≡ false)
    → pthread_exit live m ≡ spin
pthread_exit-hangs live m b v hb ne s h =
    let left : threads_left (marked m).table 128 ≡ true =
      threads_left-of_left _ 128 b hb (ground arith) in
    rw (pthread_exit-eq live m v, left)
      ((schedule-eq-spin_iff live (marked m) v.one.in_table).1 λ j hj.
        elim (Bool-cases (m.current == j)) [
          | inl e ↦ rw (status-preempt-marked m j) (ground arith)
          | inr e ↦
              let k : is_ready (status_at m j) ≡ false = h j hj (λ s. ==→≢ m.current j e (sym s)) in
              rw (status-preempt-marked m j) (ground arith)
        ])
