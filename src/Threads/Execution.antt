-- ===== src/Threads/Execution.antt =====
-- The threads as a whole: the steps that the program can take through threads.c, in any order, and
-- what holds of every machine that they reach.
use ec.Base.{
  ◌∙◌, ℕ, ◌<◌, ◌≡◌, refl, inl, inr, true, false, Option, none, some, ◌==◌, ==→≡, sym, Bool-cases,
  arith,
}
use ec.Threads.State.{exited, JmpBuf, Machine, status_at, Outcome, jump, out_of_bounds}
use ec.Threads.Scheduler.{
  preempt, schedule, scheduler_init, Spawn, first_call, install, spawn_in, free_slot,
  pthread_create, pthread_exit, threads_left,
}
use ec.Threads.RoundRobin.{Turn, schedule-Turn}
use ec.Threads.Fairness.{schedule-OneRunning}
use ec.Threads.Lifecycle.{IsLowestEmpty, free_slot-IsLowestEmpty, spawn_in-of_slot}
use ec.Threads.Exit.{WellFormed, marked, pthread_exit-eq}

-- What the running thread, or the alarm that interrupts it, can do to the machine. Between these steps
-- the threads run code of their own, which the machine does not see.
pub data Step (m m' : Machine) : Type 0 where
  alarm : (live regs : JmpBuf) → schedule live m ≡ jump regs m' → Step m m'
  create :
      (s : Spawn) (t : ℕ) (regs : JmpBuf) → pthread_create s m ≡ (some t, jump regs m') → Step m m'
  exit : (live regs : JmpBuf) → pthread_exit live m ≡ jump regs m' → Step m m'

schedule-WellFormed :
    (live : JmpBuf) (m : Machine) {regs : JmpBuf} {m' : Machine}
    → WellFormed m
    → schedule live m ≡ jump regs m'
    → WellFormed m'
schedule-WellFormed live m {regs} {m'} v e = record {
  one = (schedule-OneRunning live m v.one e).0;
  tids = λ i hi. (schedule-Turn live m v.one.in_table e).same_owner i ∙ v.tids i hi;
}

first_call-WellFormed : (s : Spawn) (m : Machine) → WellFormed m → WellFormed (first_call s m)
unfolding first_call scheduler_init
first_call-WellFormed s m v = record {
  one = record {
    in_table = ground (arith, v.one.in_table);
    alone = λ i r. ground (arith, v.one.alone i);
  };
  tids = λ i hi. ground (arith, v.tids i hi);
}

install-WellFormed : (s : Spawn) (t : ℕ) (m : Machine) → WellFormed m → WellFormed (install s t m)
unfolding install
install-WellFormed s t m v = record {
  one = record { in_table = v.one.in_table; alone = λ i r. ground (arith, v.one.alone i) };
  tids = λ i hi. ground (arith, v.tids i hi);
}

marked-WellFormed : (m : Machine) → WellFormed m → WellFormed (marked m)
marked-WellFormed m v = record {
  one = record { in_table = v.one.in_table; alone = λ i r. ground (arith, v.one.alone i) };
  tids = λ i hi. ground (arith, v.tids i hi);
}

spawn_in-none : (s : Spawn) (m : Machine) → spawn_in s m none ≡ (none, out_of_bounds)
unfolding spawn_in
spawn_in-none s m = refl

pair_inv :
    (u t : ℕ) (o p : Outcome)
    → ◌≡◌ {A = Option ℕ × Outcome} (some u, o) (some t, p)
    → (u ≡ t) × (o ≡ p)
pair_inv u t o p e = ground arith

pthread_create-inv :
    (s : Spawn) (m : Machine) (t : ℕ) {regs : JmpBuf} {m' : Machine}
    → pthread_create s m ≡ (some t, jump regs m')
    → IsLowestEmpty (first_call s m) t
      × (schedule s.live_schedule (install s t (first_call s m)) ≡ jump regs m')
unfolding pthread_create
pthread_create-inv s m t {regs} {m'} e = split (free_slot (first_call s m).table) refl
  where
    split :
        (o : Option ℕ)
        → free_slot (first_call s m).table ≡ o
        → IsLowestEmpty (first_call s m) t
          × (schedule s.live_schedule (install s t (first_call s m)) ≡ jump regs m')
    split none f = cc (spawn_in-none s (first_call s m), e, f)
    split (some u) f =
        let m1 = first_call s m in
        let v : IsLowestEmpty m1 u = free_slot-IsLowestEmpty m1 f in
        let (same, switched) =
          pair_inv u t (schedule s.live_schedule (install s u m1)) (jump regs m')
            (sym (spawn_in-of_slot s m1 u v.in_table.1) ∙ (rw f at e)) in
        (rw same at v, rw same at switched)

pthread_exit-inv :
    (live : JmpBuf) (m : Machine) {regs : JmpBuf} {m' : Machine}
    → WellFormed m
    → pthread_exit live m ≡ jump regs m'
    → schedule live (marked m) ≡ jump regs m'
pthread_exit-inv live m v e = elim (Bool-cases (threads_left (marked m).table 128)) [
  | inl l ↦ cc (pthread_exit-eq live m v, e, l)
  | inr l ↦ cc (rw l at (pthread_exit-eq live m v), e)
]

-- Every step of the program keeps the table well formed: one thread at most is marked running, the
-- current one, and each control block holds its own index.
pub Step-WellFormed : {m m' : Machine} → Step m m' → WellFormed m → WellFormed m'
Step-WellFormed {m} {m'} (alarm live regs e) v = schedule-WellFormed live m v e
Step-WellFormed {m} {m'} (create s t regs e) v =
    schedule-WellFormed s.live_schedule (install s t (first_call s m))
      (install-WellFormed s t (first_call s m) (first_call-WellFormed s m v))
      (pthread_create-inv s m t e).1
Step-WellFormed {m} {m'} (exit live regs e) v =
    schedule-WellFormed live (marked m) (marked-WellFormed m v) (pthread_exit-inv live m v e)

exited-preempt : (m : Machine) (i : ℕ) → status_at m i ≡ exited → status_at (preempt m) i ≡ exited
unfolding preempt
exited-preempt m i x = ground arith

exited-schedule :
    (live : JmpBuf) (m : Machine) (i : ℕ) {regs : JmpBuf} {m' : Machine}
    → m.current < 128
    → status_at m i ≡ exited
    → schedule live m ≡ jump regs m'
    → status_at m' i ≡ exited
exited-schedule live m i {regs} {m'} hc x e =
    let w : Turn live m regs m' = schedule-Turn live m hc e in
    let x' : status_at (preempt m) i ≡ exited = exited-preempt m i x in
    w.others i (λ s. cc (w.was_ready, x')) ∙ x'

pub data Reach (m : Machine) : Machine → Type 0 where
  here : Reach m m
  next : {m' m'' : Machine} → Reach m m' → Step m' m'' → Reach m m''

WellFormed-Reach : {m m' : Machine} → WellFormed m → Reach m m' → WellFormed m'
WellFormed-Reach v here = v
WellFormed-Reach v (next r st) = Step-WellFormed st (WellFormed-Reach v r)

-- The globals as the program starts: all zero, which is TS_EXITED as a status.
pub record Initial (m : Machine) : Type 0 where
  pub no_call : m.is_first_call ≡ true
  pub main_thread : m.current ≡ 0
  pub zeroed : (i : ℕ) → status_at m i ≡ exited

first_call-Initial : (s : Spawn) (m : Machine) → Initial m → WellFormed (first_call s m)
unfolding first_call scheduler_init
first_call-Initial s m v = record {
  one = record {
    in_table = ground (arith, v.no_call, v.main_thread);
    alone = λ i r. ground (arith, v.no_call, v.zeroed i);
  };
  tids = λ i hi. ground (arith, v.no_call);
}

-- The program starts with zeroed globals and calls `pthread_create`, which switches. Then in every machine that
-- calls of `pthread_create` and `pthread_exit` and the alarm reach, in any order, one thread at most is marked
-- running, the current one, which is in the table, and each control block holds its own index.
pub Reach-WellFormed :
    (s : Spawn) (t : ℕ) (regs : JmpBuf) (m : Machine) {m1 m' : Machine}
    → Initial m
    → pthread_create s m ≡ (some t, jump regs m1)
    → Reach m1 m'
    → WellFormed m'
Reach-WellFormed s t regs m v e r =
    WellFormed-Reach
      (schedule-WellFormed s.live_schedule (install s t (first_call s m))
        (install-WellFormed s t (first_call s m) (first_call-Initial s m v))
        (pthread_create-inv s m t e).1)
      r

-- What holds of a machine after the first call of `pthread_create`, once the thread `i` has exited.
pub record Gone (i : ℕ) (m : Machine) : Type 0 where
  pub well_formed : WellFormed m
  pub started : m.is_first_call ≡ false
  pub gone : status_at m i ≡ exited

Gone-schedule :
    (live : JmpBuf) (m : Machine) (i : ℕ) {regs : JmpBuf} {m' : Machine}
    → Gone i m
    → schedule live m ≡ jump regs m'
    → Gone i m'
Gone-schedule live m i {regs} {m'} g e = record {
  well_formed = schedule-WellFormed live m g.well_formed e;
  started = (schedule-Turn live m g.well_formed.one.in_table e).same_start ∙ g.started;
  gone = exited-schedule live m i g.well_formed.one.in_table g.gone e;
}

first_call-later : (s : Spawn) (m : Machine) → m.is_first_call ≡ false → first_call s m ≡ m
unfolding first_call
first_call-later s m h = rw h

Gone-install :
    (s : Spawn) (t : ℕ) (m : Machine) (i : ℕ)
    → IsLowestEmpty m t
    → Gone i m
    → Gone i (install s t m)
unfolding install
Gone-install s t m i u g = record {
  well_formed = install-WellFormed s t m g.well_formed;
  started = g.started;
  gone = elim (Bool-cases (t == i)) [
    | inl e ↦ cc (==→≡ t i e, u.unused, g.gone)
    | inr e ↦ ground (arith, g.gone)
  ];
}

Gone-marked : (m : Machine) (i : ℕ) → Gone i m → Gone i (marked m)
Gone-marked m i g = record {
  well_formed = marked-WellFormed m g.well_formed;
  started = g.started;
  gone = ground (arith, g.gone);
}

Step-Gone : {i : ℕ} {m m' : Machine} → Step m m' → Gone i m → Gone i m'
Step-Gone {i} {m} {m'} (alarm live regs e) g = Gone-schedule live m i g e
Step-Gone {i} {m} {m'} (create s t regs e) g =
    let same : first_call s m ≡ m = first_call-later s m g.started in
    let (u, e') = pthread_create-inv s m t e in
    Gone-schedule s.live_schedule (install s t m) i (Gone-install s t m i (rw same at u) g)
      (rw same at e')
Step-Gone {i} {m} {m'} (exit live regs e) g =
    Gone-schedule live (marked m) i (Gone-marked m i g) (pthread_exit-inv live m g.well_formed e)

-- A thread that has exited stays exited, whatever steps follow: it never runs again, and its slot is
-- never given to a new thread.
pub Reach-Gone : (i : ℕ) {m m' : Machine} → Gone i m → Reach m m' → Gone i m'
Reach-Gone i g here = g
Reach-Gone i g (next r st) = Step-Gone st (Reach-Gone i g r)
