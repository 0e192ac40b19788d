-- ===== src/Threads/Fairness.antt =====
-- The scheduler over many calls: no ready thread waits for ever, and one thread runs at a time.
use native.Mathlib.Decide.{dec_lt}
use ec.Base.{
  ℕ, zero, suc, ◌≤◌, ◌<◌, ◌≡◌, ◌≢◌, inl, inr, true, false, Option, none, some, ◌==◌, ==→≡, ==→≢,
  sym, Bool-cases, arith,
}
use ec.Threads.State.{running, is_running, is_ready, JmpBuf, Machine, status_at, jump}
use ec.Threads.Scheduler.{preempt, schedule}
use ec.Threads.RoundRobin.{ahead, Turn, schedule-Turn, schedule-switches}

-- A machine between two calls: a thread of the table runs, and no other thread is marked running.
pub record OneRunning (m : Machine) : Type 0 where
  pub in_table : m.current < 128
  pub alone : (i : ℕ) → is_running (status_at m i) ≡ true → i ≡ m.current

pub ready-preempt :
    (m : Machine) (t : ℕ)
    → is_ready (status_at m t) ≡ true
    → is_ready (status_at (preempt m) t) ≡ true
unfolding preempt
ready-preempt m t h = ground arith

-- Where two threads of the table stand in the turn.
ahead-lt :
    (c t u : ℕ)
    → c < 128
    → t < 128
    → u < 128
    → ahead c u ≤ ahead c t
    → t ≢ u
    → ahead u t < ahead c t
ahead-lt c t u hc ht hu h ne = ground arith

-- A ready thread other than the one that is picked stays ready, and is nearer to its turn.
pub schedule_approaches :
    (live : JmpBuf) (m : Machine) (t : ℕ) {regs : JmpBuf} {m' : Machine}
    → m.current < 128
    → t < 128
    → is_ready (status_at m t) ≡ true
    → schedule live m ≡ jump regs m'
    → t ≢ m'.current
    → (is_ready (status_at m' t) ≡ true) × (ahead m'.current t < ahead m.current t)
schedule_approaches live m t {regs} {m'} hc ht r e ne =
    let v : Turn live m regs m' = schedule-Turn live m hc e in
    let r' : is_ready (status_at (preempt m) t) ≡ true = ready-preempt m t r in
    (
      rw (v.others t ne) r',
      elim (dec_lt (ahead m.current t) (ahead m.current m'.current)) [
        | yes h ↦ cc (r', v.in_turn t ht h)
        | no h ↦ ahead-lt m.current t m'.current hc ht v.in_table (omega arith) ne
      ],
    )

-- `n` calls of `schedule`, one after another: the machine after the last.
pub turns : ℕ → JmpBuf → Machine → Option Machine
turns zero live m = some m
turns (suc n) live m = elim (schedule live m) [ jump regs m' ↦ turns n live m' | _ ↦ none ]

no_starvation_within :
    (bound : ℕ) (live : JmpBuf) (m : Machine) (t : ℕ)
    → ahead m.current t < bound
    → m.current < 128
    → t < 128
    → is_ready (status_at m t) ≡ true
    → (n : ℕ) × (m' : Machine) × (n ≤ bound) × (turns n live m ≡ some m') × (m'.current ≡ t)
unfolding turns
no_starvation_within zero live m t b hc ht r = absurd (omega arith)
no_starvation_within (suc bound) live m t b hc ht r =
    let (regs, m', e) = schedule-switches live m t hc ht (ready-preempt m t r) in
    elim (Bool-cases (t == m'.current)) [
      | inl s ↦ (suc zero, m', omega arith, rw (e, turns), sym (==→≡ t m'.current s))
      | inr s ↦
          let (r', near) = schedule_approaches live m t hc ht r e (==→≢ t m'.current s) in
          let v : Turn live m regs m' = schedule-Turn live m hc e in
          let (n, m'', le, run, last) =
            no_starvation_within bound live m' t (omega arith) v.in_table ht r' in
          (suc n, m'', omega arith, rw (e, turns) run, last)
    ]

-- No ready thread starves: some number of calls of `schedule`, at most 128, makes it the current one,
-- and none of them loops for ever.
pub no_starvation :
    (live : JmpBuf) (m : Machine) (t : ℕ)
    → m.current < 128
    → t < 128
    → is_ready (status_at m t) ≡ true
    → (n : ℕ) × (m' : Machine) × (n ≤ 128) × (turns n live m ≡ some m') × (m'.current ≡ t)
no_starvation live m t hc ht r = no_starvation_within 128 live m t (omega arith) hc ht r

OneRunning-preempt :
    (m : Machine) (i : ℕ) → OneRunning m → is_running (status_at (preempt m) i) ≡ false
unfolding preempt
OneRunning-preempt m i v = ground (arith, v.alone i)

-- After every switch exactly the current thread is marked running.
pub schedule-OneRunning :
    (live : JmpBuf) (m : Machine) {regs : JmpBuf} {m' : Machine}
    → OneRunning m
    → schedule live m ≡ jump regs m'
    → OneRunning m' × (status_at m' m'.current ≡ running)
schedule-OneRunning live m {regs} {m'} v e =
    let w : Turn live m regs m' = schedule-Turn live m v.in_table e in
    (
      record {
        in_table = w.in_table;
        alone = λ i r. elim (Bool-cases (i == m'.current)) [
          | inl s ↦ ==→≡ i m'.current s
          | inr s ↦ cc (w.others i (==→≢ i m'.current s), OneRunning-preempt m i v)
        ];
      },
      w.now_running,
    )
