-- ===== src/Threads/BarrierHolds.antt =====
-- What holds in every machine that the calls of `pthread_barrier_wait` of threads.c reach: the barrier holds the
-- threads back, and cannot be destroyed.
use ec.Base.{
  ℕ, ◌+◌, ◌^◌, ◌≤◌, ◌<◌, ◌≡◌, ◌⊎◌, refl, sym, ◌∙◌, ap, inl, inr, true, some, ◌==◌, update,
  update_self, Bool-cases, arith,
}
use ec.Threads.State.{JmpBuf}
use ec.Threads.Sync.{
  BarrierBlock, Sync, Code, failure, returns, switches, no_thread, store_barrier,
  pthread_barrier_init, destroy_barrier, pthread_barrier_destroy,
}
use ec.Threads.Barrier.{
  Stage, at_loop, at_finish, decrement, leave, loop_block, barrier_loop, wait_block,
  pthread_barrier_wait, finish_block, barrier_finish,
}
use ec.Threads.BarrierRun.{
  Progress, inside, returned_with, Run, moved, Step, calls, loops, finishes, alarm, Reach, start,
  step, Begins, is_past, Stretch, loop_block-Stretch, counted_down, wait_block-Stretch,
}

-- What holds of the barrier in every machine that is reached.
record Inv (n p : ℕ) (r : Run) : Type 0 where
  block : BarrierBlock
  stored : r.sync.barriers p ≡ some block
  bound : r.arrived ≤ n
  counted : (block.left + r.arrived ≡ n) ⊎ ((block.left ≡ n) × (r.arrived ≡ n))
  count : block.count ≡ n
  init : block.init ≡ 1
  past : (t : ℕ) → is_past (r.progress t) ≡ true → r.arrived ≡ n

Begins-Inv : (n p : ℕ) (r : Run) → Begins n p r → Inv n p r
unfolding pthread_barrier_init
Begins-Inv n p r b =
    let s0 = b.before in
    elim (Bool-cases (n == 0)) [
      | inl e ↦ cc (rw e at b.made)
      | inr e ↦ elim (Bool-cases (p == 0)) [
        | inl f ↦ cc (rw (e, f) at b.made)
        | inr f ↦
            let x : BarrierBlock = record {
              init = 1;
              flag = 0;
              calling_thread = no_thread;
              count = n;
              left = n;
            } in
            let same : store_barrier s0 p x ≡ r.sync = cc (rw (e, f) at b.made) in
            record {
              block = x;
              stored = ap (λ q. q.barriers p) (sym same) ∙ update_self s0.barriers p (some x);
              bound = omega (arith, b.none_arrived);
              counted = inl (omega (arith, b.none_arrived));
              count = refl;
              init = refl;
              past = λ t h. cc (b.nobody t, h);
            }
      ]
    ]

past-update :
    (n a : ℕ) (progress : ℕ → Progress) (u : ℕ) (x : Progress)
    → ((t : ℕ) → is_past (progress t) ≡ true → a ≡ n)
    → (is_past x ≡ true → a ≡ n)
    → (t : ℕ) → is_past (update progress u x t) ≡ true
    → a ≡ n
past-update n a progress u x h k t e = elim (Bool-cases (u == t)) [
  | inl q ↦ k (rw q at e)
  | inr q ↦ h t (rw q at e)
]

calls-Inv :
    (n p : ℕ) (r : Run) (live regs : JmpBuf) (g : Stage) (s : Sync)
    → n < 2 ^ 32
    → r.arrived < n
    → pthread_barrier_wait live p r.sync ≡ (g, switches regs s)
    → Inv n p r
    → Inv n p (record (moved r s (inside g)) { arrived = r.arrived + 1 })
unfolding pthread_barrier_wait
calls-Inv n p r live regs g s small h e v =
    let w : Stretch p (counted_down v.block) g s =
      wait_block-Stretch live regs p r.sync v.block g s
        (sym (ap (wait_block live p r.sync) v.stored) ∙ e) in
    let lower : decrement v.block.left + 1 ≡ v.block.left = ground (arith, v.counted) in
    record {
      block = w.block;
      stored = w.stored;
      bound = omega arith;
      counted = inl (ground (arith, v.counted, w.left, lower));
      count = w.count ∙ v.count;
      init = w.init ∙ v.init;
      past =
          past-update n (r.arrived + 1) r.progress r.sync.machine.current (inside g)
            (λ t k. absurd (omega (arith, v.past t k))) (opens g w);
    }
  where
    opens :
        (g : Stage)
        → Stretch p (counted_down v.block) g s
        → is_past (inside g) ≡ true
        → r.arrived + 1 ≡ n
    opens at_loop w k = cc
    opens at_finish w k = ground (arith, v.counted, w.opened refl)

loops-Inv :
    (n p : ℕ) (r : Run) (live regs : JmpBuf) (g : Stage) (s : Sync)
    → barrier_loop live p r.sync ≡ (g, switches regs s)
    → Inv n p r
    → Inv n p (moved r s (inside g))
unfolding barrier_loop
loops-Inv n p r live regs g s e v =
    let w : Stretch p v.block g s =
      loop_block-Stretch live regs p r.sync v.block g s v.stored
        (sym (ap (loop_block live p r.sync) v.stored) ∙ e) in
    record {
      block = w.block;
      stored = w.stored;
      bound = v.bound;
      counted = ground (arith, v.counted, w.left);
      count = w.count ∙ v.count;
      init = w.init ∙ v.init;
      past =
          past-update n r.arrived r.progress r.sync.machine.current (inside g) v.past (opens g w);
    }
  where
    opens : (g : Stage) → Stretch p v.block g s → is_past (inside g) ≡ true → r.arrived ≡ n
    opens at_loop w k = cc
    opens at_finish w k = ground (arith, v.counted, w.opened refl)

finishes-Inv :
    (n p : ℕ) (r : Run) (code : Code) (s : Sync)
    → r.progress r.sync.machine.current ≡ inside at_finish
    → barrier_finish p r.sync ≡ returns code s
    → Inv n p r
    → Inv n p (moved r s (returned_with code))
unfolding barrier_finish finish_block leave
finishes-Inv n p r code s o e v =
    let all : r.arrived ≡ n = v.past r.sync.machine.current (rw o) in
    let x : BarrierBlock = (leave r.sync.machine.current v.block).0 in
    let same : store_barrier r.sync p x ≡ s = cc (sym (ap (finish_block p r.sync) v.stored) ∙ e) in
    record {
      block = x;
      stored = ap (λ q. q.barriers p) (sym same) ∙ update_self r.sync.barriers p (some x);
      bound = v.bound;
      counted = ground (arith, v.counted, v.count);
      count = ground (arith, v.count);
      init = ground (arith, v.init);
      past =
          past-update n r.arrived r.progress r.sync.machine.current (returned_with code) v.past
            (λ _. all);
    }

Step-Inv : (n p : ℕ) {r r' : Run} → n < 2 ^ 32 → Step n p r r' → Inv n p r → Inv n p r'
Step-Inv n p {r} small (calls live regs g s o h e q) v =
    rw q (calls-Inv n p r live regs g s small h e v)
Step-Inv n p {r} small (loops live regs g s o e q) v = rw q (loops-Inv n p r live regs g s e v)
Step-Inv n p {r} small (finishes code s o e q) v = rw q (finishes-Inv n p r code s o e v)
Step-Inv n p {r} small (alarm live regs m e q) v = rw q (record {
  block = v.block;
  stored = v.stored;
  bound = v.bound;
  counted = v.counted;
  count = v.count;
  init = v.init;
  past = v.past;
})

Reach-Inv : (n p : ℕ) {r r' : Run} → n < 2 ^ 32 → Begins n p r → Reach n p r r' → Inv n p r'
Reach-Inv n p {r} small b start = Begins-Inv n p r b
Reach-Inv n p {r} small b (step h st) = Step-Inv n p small st (Reach-Inv n p small b h)

-- From a barrier that `pthread_barrier_init` has just made for `n` threads, in a round in which at most `n` threads
-- call `pthread_barrier_wait`, each once, and in whatever order `schedule` and the alarm let them go on: no
-- thread gets behind the loop of the call, and none returns, before `n` threads have called. `n` is an unsigned int.
pub barrier_holds :
    (n p t : ℕ) {r r' : Run}
    → n < 2 ^ 32
    → Begins n p r
    → Reach n p r r'
    → is_past (r'.progress t) ≡ true
    → r'.arrived ≡ n
barrier_holds n p t small b h e = (Reach-Inv n p small b h).past t e

-- From a barrier that `pthread_barrier_init` has just made for `n` threads, at every point of a round in which at
-- most `n` threads call `pthread_barrier_wait`, each once, between two stretches of the calls, before the first
-- call and after the last one has returned too: `pthread_barrier_destroy` returns -1 and frees nothing. `n` is an
-- unsigned int.
pub pthread_barrier_destroy-Reach :
    (n p : ℕ) {r r' : Run}
    → n < 2 ^ 32
    → Begins n p r
    → Reach n p r r'
    → pthread_barrier_destroy p r'.sync ≡ returns failure r'.sync
unfolding pthread_barrier_destroy destroy_barrier
pthread_barrier_destroy-Reach n p small b h =
    let v = Reach-Inv n p small b h in rw (v.stored, v.init) refl
