-- ===== src/Threads/BarrierOfOne.antt =====
-- A barrier of threads.c for one thread.
use ec.Base.{
  ℕ, ◌+◌, ◌<◌, ◌≡◌, ◌≢◌, ◌⊎◌, refl, sym, ◌∙◌, ap, inl, inr, true, some, ◌==◌, update_self,
  Bool-cases, arith,
}
use ec.Threads.State.{blocked, JmpBuf, Machine, status_at, jump}
use ec.Threads.Scheduler.{schedule}
use ec.Threads.RoundRobin.{Turn, schedule-Turn}
use ec.Threads.Mutex.{blocked-Turn}
use ec.Threads.Sync.{
  BarrierBlock, Sync, switches, lock_alarm, unlock_alarm, mark, no_thread, store_barrier,
  pthread_barrier_init,
}
use ec.Threads.Barrier.{Stage, at_loop, decrement, arrive, wait_block, pthread_barrier_wait}
use ec.Threads.BarrierRun.{
  not_called, inside, Run, moved, Step, calls, loops, finishes, alarm, Reach, start, step, Begins,
  yield-inv,
}

-- The thread has not called, or it is blocked in its call and does not run.
abbrev pub IsStuck : Run → ℕ → Type 0
IsStuck r t =
    (r.progress t ≡ not_called)
    ⊎ ((r.progress t ≡ inside at_loop)
        × (status_at r.sync.machine t ≡ blocked)
        × (t ≢ r.sync.machine.current))

record Alone (p : ℕ) (r : Run) : Type 0 where
  in_table : r.sync.machine.current < 128
  stuck : (t : ℕ) → IsStuck r t
  unset : r.arrived ≡ 0 → (b : BarrierBlock) × (r.sync.barriers p ≡ some b) × (b.flag ≡ 0)

Begins-Alone : (p : ℕ) (r : Run) → Begins 1 p r → r.sync.machine.current < 128 → Alone p r
unfolding pthread_barrier_init
Begins-Alone p r b hc = record {
  in_table = hc;
  stuck = λ t. inl (b.nobody t);
  unset = λ _. elim (Bool-cases (p == 0)) [
    | inl f ↦ cc (rw f at b.made)
    | inr f ↦
        let x : BarrierBlock = record {
          init = 1;
          flag = 0;
          calling_thread = no_thread;
          count = 1;
          left = 1;
        } in
        let same : store_barrier b.before p x ≡ r.sync = cc (rw f at b.made) in
        (x, ap (λ q. q.barriers p) (sym same) ∙ update_self b.before.barriers p (some x), refl)
  ];
}

-- A turn leaves the blocked threads where they are.
IsStuck-Turn :
    (r r' : Run) (t : ℕ) {live regs : JmpBuf} {m m' : Machine}
    → Turn live m regs m'
    → r'.progress t ≡ r.progress t
    → r'.sync.machine ≡ m'
    → (status_at r.sync.machine t ≡ blocked → status_at m t ≡ blocked)
    → IsStuck r t
    → IsStuck r' t
IsStuck-Turn r r' t w same now k (inl o) = inl (same ∙ o)
IsStuck-Turn r r' t w same now k (inr (o, b, ne)) =
    let (ne', b') = blocked-Turn t w (k b) in
    inr (same ∙ o, ap (λ z. status_at z t) now ∙ b', λ e. ne' (e ∙ ap (λ z. z.current) now))

-- The state in which the caller calls `schedule`.
abbrev waiting : ℕ → Sync → BarrierBlock → Sync
waiting p s b = unlock_alarm (
    mark
      (lock_alarm (
        store_barrier s p
          (record b { left = decrement b.left; calling_thread = s.machine.current; flag = 1 })))
      s.machine.current blocked)

caller_waits :
    (p : ℕ) (s : Sync) (b : BarrierBlock) (u : ℕ)
    → (s.machine.current == u) ≡ true
    → status_at (waiting p s b).machine u ≡ blocked
caller_waits p s b u h = ground arith

others_keep :
    (p : ℕ) (s : Sync) (b : BarrierBlock) (u : ℕ)
    → status_at s.machine u ≡ blocked
    → status_at (waiting p s b).machine u ≡ blocked
others_keep p s b u h = ground arith

first_waits :
    (live regs : JmpBuf) (p : ℕ) (s : Sync) (b : BarrierBlock) (g : Stage) (s' : Sync)
    → s.barriers p ≡ some b
    → b.flag ≡ 0
    → pthread_barrier_wait live p s ≡ (g, switches regs s')
    → (g ≡ at_loop)
      × (m : Machine) × (schedule live (waiting p s b).machine ≡ jump regs m)
      × (s'.machine ≡ m)
unfolding pthread_barrier_wait wait_block arrive
first_waits live regs p s b g s' here f e =
    let e' = rw f at (sym (ap (wait_block live p s) here) ∙ e) in
    let (m, turned, same) = yield-inv live (waiting p s b) (ap (λ q. q.1) e') in
    (sym (ap (λ q. q.0) e'), m, turned, ap (λ q. q.machine) same)

calls-Alone :
    (p : ℕ) (r : Run) (live regs : JmpBuf) (g : Stage) (s : Sync)
    → r.arrived < 1
    → pthread_barrier_wait live p r.sync ≡ (g, switches regs s)
    → Alone p r
    → Alone p (record (moved r s (inside g)) { arrived = r.arrived + 1 })
calls-Alone p r live regs g s h e a =
    let t = r.sync.machine.current in
    let (b, here, f) = a.unset (omega arith) in
    let (g', m, turned, now) = first_waits live regs p r.sync b g s here f e in
    let w : Turn live (waiting p r.sync b).machine regs m =
      schedule-Turn live _ a.in_table turned in
    let r' : Run = record (moved r s (inside g)) { arrived = r.arrived + 1 } in
    record {
      in_table = omega (arith, w.in_table, ap (λ z. z.current) now);
      unset = λ z. absurd (omega arith);
      stuck = λ u. elim (Bool-cases (t == u)) [
        | inl q ↦
            let (ne, asleep) = blocked-Turn u w (caller_waits p r.sync b u q) in
            inr (
              rw q (ap inside g'),
              ap (λ z. status_at z u) now ∙ asleep,
              λ k. ne (k ∙ ap (λ z. z.current) now),
            )
        | inr q ↦ IsStuck-Turn r r' u w (rw q refl) now (others_keep p r.sync b u) (a.stuck u)
      ];
    }

-- The thread that runs is not inside its call.
running-not_inside :
    (r : Run) (x : Stage)
    → IsStuck r r.sync.machine.current
    → r.progress r.sync.machine.current ≢ inside x
running-not_inside r x (inl o) e = cc (o, e)
running-not_inside r x (inr (_, _, ne)) e = ne refl

Step-Alone : (p : ℕ) {r r' : Run} → Step 1 p r r' → Alone p r → Alone p r'
Step-Alone p {r} (calls live regs g s o h e q) a = rw q (calls-Alone p r live regs g s h e a)
Step-Alone p {r} (loops live regs g s o e q) a =
    absurd (running-not_inside r _ (a.stuck r.sync.machine.current) o)
Step-Alone p {r} (finishes code s o e q) a =
    absurd (running-not_inside r _ (a.stuck r.sync.machine.current) o)
Step-Alone p {r} (alarm live regs m e q) a =
    let w : Turn live r.sync.machine regs m = schedule-Turn live r.sync.machine a.in_table e in
    rw q (record {
      in_table = w.in_table;
      unset = a.unset;
      stuck = λ t.
          IsStuck-Turn r (record r { sync = record (r.sync) { machine = m } }) t w refl refl
            (λ k. k) (a.stuck t);
    })

Reach-Alone :
    (p : ℕ) {r r' : Run} → Begins 1 p r → r.sync.machine.current < 128 → Reach 1 p r r' → Alone p r'
Reach-Alone p {r} b hc start = Begins-Alone p r b hc
Reach-Alone p {r} b hc (step h st) = Step-Alone p st (Reach-Alone p b hc h)

-- A barrier that `pthread_barrier_init` has just made for one thread, while a thread of the table runs, never lets it go: whatever `schedule` and the
-- alarm do after the call of `pthread_barrier_wait`, the caller is blocked in it and does not run, so that the
-- call never returns. Every other thread has not called.
pub barrier_of_one-IsStuck :
    (p t : ℕ) {r r' : Run}
    → Begins 1 p r
    → r.sync.machine.current < 128
    → Reach 1 p r r'
    → IsStuck r' t
barrier_of_one-IsStuck p t b hc h = (Reach-Alone p b hc h).stuck t
