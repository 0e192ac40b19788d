-- ===== src/Threads/BarrierRun.antt =====
-- The calls of `pthread_barrier_wait` of threads.c on the machine: the running thread executes a stretch of its
-- call, `schedule` or the alarm picks the thread that goes on.
use ec.Base.{
  ℕ, ◌+◌, ◌<◌, ◌≡◌, refl, sym, ◌∙◌, ap, inl, inr, Bool, true, false, some, ◌==◌, if◌then◌else◌,
  update, update_self, Bool-cases, ==→≡, arith,
}
use ec.Threads.State.{ready, JmpBuf, Machine, Outcome, jump, spin, finish, out_of_bounds}
use ec.Threads.Scheduler.{schedule}
use ec.Threads.Sync.{
  BarrierBlock, Sync, Code, success, returns, switches, with_outcome, yield, store_barrier,
  lock_alarm, mark, pthread_barrier_init,
}
use ec.Threads.Barrier.{
  Stage, at_loop, at_finish, decrement, arrive, release, loop_block, barrier_loop, wait_block,
  pthread_barrier_wait, barrier_finish,
}

-- What a thread has done: it has not called, it goes on at a stage of its call, or its call has returned.
pub data Progress : Type 0 where
  not_called : Progress
  inside : Stage → Progress
  returned_with : Code → Progress

-- The machine with its barriers, where each thread stands, and how many have called.
pub record Run : Type 0 where
  pub sync : Sync
  pub progress : ℕ → Progress
  pub arrived : ℕ

abbrev pub moved : Run → Sync → Progress → Run
moved r s x = record r { sync = s; progress = update r.progress r.sync.machine.current x }

-- The running thread calls, goes on in the loop or behind it, or the alarm interrupts it. At most `n` threads
-- call `pthread_barrier_wait` on the barrier `p`, each once.
pub data Step (n p : ℕ) (r r' : Run) : Type 0 where
  calls :
      (live regs : JmpBuf) (g : Stage) (s : Sync)
      → r.progress r.sync.machine.current ≡ not_called
      → r.arrived < n
      → pthread_barrier_wait live p r.sync ≡ (g, switches regs s)
      → r' ≡ record (moved r s (inside g)) { arrived = r.arrived + 1 }
      → Step n p r r'
  loops :
      (live regs : JmpBuf) (g : Stage) (s : Sync)
      → r.progress r.sync.machine.current ≡ inside at_loop
      → barrier_loop live p r.sync ≡ (g, switches regs s)
      → r' ≡ moved r s (inside g)
      → Step n p r r'
  finishes :
      (code : Code) (s : Sync)
      → r.progress r.sync.machine.current ≡ inside at_finish
      → barrier_finish p r.sync ≡ returns code s
      → r' ≡ moved r s (returned_with code)
      → Step n p r r'
  alarm :
      (live regs : JmpBuf) (m : Machine)
      → schedule live r.sync.machine ≡ jump regs m
      → r' ≡ record r { sync = record (r.sync) { machine = m } }
      → Step n p r r'

pub data Reach (n p : ℕ) (r : Run) : Run → Type 0 where
  start : Reach n p r r
  step : {r' r'' : Run} → Reach n p r r' → Step n p r' r'' → Reach n p r r''

-- The barrier at `p` has just been made for `n` threads, and nobody has called.
pub record Begins (n p : ℕ) (r : Run) : Type 0 where
  pub before : Sync
  pub made : pthread_barrier_init p n before ≡ returns success r.sync
  pub nobody : (t : ℕ) → r.progress t ≡ not_called
  pub none_arrived : r.arrived ≡ 0

-- The thread is behind the loop.
abbrev pub is_past : Progress → Bool
is_past not_called = false
is_past (inside at_loop) = false
is_past (inside at_finish) = true
is_past (returned_with c) = true

with_outcome-inv :
    (s : Sync) (o : Outcome) {regs : JmpBuf} {s' : Sync}
    → with_outcome s o ≡ switches regs s'
    → (m : Machine) × (o ≡ jump regs m) × (s' ≡ record s { machine = m })
with_outcome-inv s (jump regs m) e = (m, cc, cc)
with_outcome-inv s spin e = cc
with_outcome-inv s (finish c m) e = cc
with_outcome-inv s out_of_bounds e = cc

pub yield-inv :
    (live : JmpBuf) (s : Sync) {regs : JmpBuf} {s' : Sync}
    → yield live s ≡ switches regs s'
    → (m : Machine) × (schedule live s.machine ≡ jump regs m) × (s' ≡ record s { machine = m })
unfolding yield
yield-inv live s e = with_outcome-inv s (schedule live s.machine) e

-- What a stretch leaves of the barrier, whose block was `b` once it had counted the caller.
pub record Stretch (p : ℕ) (b : BarrierBlock) (g : Stage) (s : Sync) : Type 0 where
  pub block : BarrierBlock
  pub stored : s.barriers p ≡ some block
  pub left : block.left ≡ b.left
  pub count : block.count ≡ b.count
  pub init : block.init ≡ b.init
  pub opened : g ≡ at_finish → b.left ≡ 0

release-Stretch :
    (p : ℕ) (b : BarrierBlock) (g : Stage) (s : Sync)
    → s.barriers p ≡ some (release b).0
    → b.left ≡ 0
    → Stretch p b g s
unfolding release
release-Stretch p b g s e z = record {
  block = (release b).0;
  stored = e;
  left = ground arith;
  count = ground arith;
  init = ground arith;
  opened = λ _. z;
}

pub loop_block-Stretch :
    (live regs : JmpBuf) (p : ℕ) (s : Sync) (b : BarrierBlock) (g : Stage) (s' : Sync)
    → s.barriers p ≡ some b
    → loop_block live p s (some b) ≡ (g, switches regs s')
    → Stretch p b g s'
unfolding loop_block
loop_block-Stretch live regs p s b g s' h e = elim (Bool-cases (b.left == 0)) [
  | inl z ↦
      let (m, _, same) = yield-inv live _ (ap (λ q. q.1) (rw z at e)) in
      release-Stretch p b g s' (ap (λ q. q.barriers p) same ∙ kept (release b).1) (==→≡ b.left 0 z)
  | inr z ↦
      let f = rw z at e in
      let (m, _, same) = yield-inv live s (ap (λ q. q.1) f) in
      record {
        block = b;
        stored = ap (λ q. q.barriers p) same ∙ h;
        left = refl;
        count = refl;
        init = refl;
        opened = λ k. cc (ap (λ q. q.0) f, k);
      }
]
  where
    kept :
        (wakes : Bool)
        → (if wakes
              then mark (store_barrier (lock_alarm s) p (release b).0) b.calling_thread ready
              else store_barrier (lock_alarm s) p (release b).0).barriers
            p
          ≡ some (release b).0
    kept true = update_self s.barriers p (some (release b).0)
    kept false = update_self s.barriers p (some (release b).0)

-- The block once the caller is counted.
abbrev pub counted_down : BarrierBlock → BarrierBlock
counted_down b = record b { left = decrement b.left }

pub wait_block-Stretch :
    (live regs : JmpBuf) (p : ℕ) (s : Sync) (b : BarrierBlock) (g : Stage) (s' : Sync)
    → wait_block live p s (some b) ≡ (g, switches regs s')
    → Stretch p (counted_down b) g s'
unfolding wait_block arrive barrier_loop
wait_block-Stretch live regs p s b g s' e = elim (Bool-cases (b.flag == 1)) [
  | inl f ↦
      let s1 : Sync = store_barrier s p (counted_down b) in
      let here : s1.barriers p ≡ some (counted_down b) = update_self s.barriers p _ in
      loop_block-Stretch live regs p s1 (counted_down b) g s' here
        (sym (ap (loop_block live p s1) here) ∙ (rw f at e))
  | inr f ↦
      let e' = rw f at e in
      let (m, _, same) = yield-inv live _ (ap (λ q. q.1) e') in
      record {
        block = record (counted_down b) { calling_thread = s.machine.current; flag = 1 };
        stored = ap (λ q. q.barriers p) same ∙ update_self s.barriers p _;
        left = refl;
        count = refl;
        init = refl;
        opened = λ k. cc (ap (λ q. q.0) e', k);
      }
]
