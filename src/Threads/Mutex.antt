-- ===== src/Threads/Mutex.antt =====
-- The mutexes of threads.c: who waits, in which order waiters are woken, and what an unlock leaves.
use ec.Base.{
  ℕ, ◌<◌, ◌≡◌, refl, ◌≢◌, ◌⊎◌, sym, subst, ◌∙◌, inl, inr, some, [], ◌∷◌, ◌++◌, ◌==◌, Bool-cases,
  ==→≡, ==→≢, ≢→==, arith,
}
use ec.Threads.State.{ready, blocked, JmpBuf, Machine, status_at, set_status}
use ec.Threads.Scheduler.{preempt}
use ec.Threads.RoundRobin.{ahead, Turn, schedule-Turn, schedule-cases, schedule-switches}
use ec.Threads.Fairness.{ready-preempt}
use ec.Threads.WaitList.{Waiters, insert_tail, get_head}
use ec.Threads.WaitQueue.{Cells, Apart, IsQueue, insert_tail-IsQueue, get_head-IsQueue}
use ec.Threads.Sync.{
  locked, unlocked, MutexBlock, Sync, success, returns, switches, hangs, lock_alarm, unlock_alarm,
  yield, store_mutex, mark, waiters, enqueued, wait_for_mutex, lock_block, pthread_mutex_lock,
  hand_over, unlock_block, pthread_mutex_unlock,
}

-- The threads that wait are blocked.
abbrev pub Asleep : Machine → Cells → Type 0
Asleep m [] = Unit {0}
Asleep m (c ∷ cs) = (status_at m c.1 ≡ blocked) × Asleep m cs

-- The mutex at `p`, and the threads that wait for it in order.
pub record IsMutex (s : Sync) (p : ℕ) (b : MutexBlock) (cs : Cells) : Type 0 where
  pub block : s.mutexes p ≡ some b
  pub queue : IsQueue (waiters s b) cs
  pub asleep : Asleep s.machine cs

blocked-preempt :
    (m : Machine) (t : ℕ) → status_at m t ≡ blocked → status_at (preempt m) t ≡ blocked
unfolding preempt
blocked-preempt m t h = ground arith

pub blocked-Turn :
    {live : JmpBuf} {m : Machine} {regs : JmpBuf} {m' : Machine} (t : ℕ)
    → Turn live m regs m'
    → status_at m t ≡ blocked
    → (t ≢ m'.current) × (status_at m' t ≡ blocked)
blocked-Turn {live} {m} {regs} {m'} t w h =
    let h' : status_at (preempt m) t ≡ blocked = blocked-preempt m t h in
    let ne : t ≢ m'.current = (λ e. cc (w.was_ready, h')) in (ne, w.others t ne ∙ h')

Asleep-Turn :
    {live : JmpBuf} {m : Machine} {regs : JmpBuf} {m' : Machine} (cs : Cells)
    → Turn live m regs m'
    → Asleep m cs
    → Asleep m' cs
Asleep-Turn [] w a = tt
Asleep-Turn (c ∷ cs) w a = ((blocked-Turn c.1 w a.0).1, Asleep-Turn cs w a.1)

Asleep-mark : (m : Machine) (t : ℕ) (cs : Cells) → Asleep m cs → Asleep (set_status m t blocked) cs
Asleep-mark m t [] a = tt
Asleep-mark m t (c ∷ cs) a = (ground (arith, a.0), Asleep-mark m t cs a.1)

Asleep-append :
    (m : Machine) (a t : ℕ) (cs : Cells)
    → Asleep m cs
    → status_at m t ≡ blocked
    → Asleep m (cs ++ (a, t) ∷ [])
Asleep-append m a t [] h e = (e, tt)
Asleep-append m a t (c ∷ cs) h e = (h.0, Asleep-append m a t cs h.1 e)

-- A call of `schedule` either never ends, or switches; the mutex and its waiters stay as they are.
yield-IsMutex :
    (live : JmpBuf) (s : Sync) (p : ℕ) (b : MutexBlock) (cs : Cells)
    → s.machine.current < 128
    → IsMutex s p b cs
    → (yield live s ≡ hangs)
      ⊎ ((regs : JmpBuf) × (s' : Sync) × (yield live s ≡ switches regs s')
          × Turn live s.machine regs s'.machine
          × IsMutex s' p b cs)
unfolding yield
yield-IsMutex live s p b cs hc v = elim (schedule-cases live s.machine hc) [
  | inl e ↦ inl (rw e)
  | inr (regs, m', e) ↦
      let w : Turn live s.machine regs m' = schedule-Turn live s.machine hc e in
      inr (
        regs,
        record s { machine = m' },
        rw e,
        w,
        record { block = v.block; queue = v.queue; asleep = Asleep-Turn cs w v.asleep },
      )
]

-- The thread does not wait a second time.
abbrev pub Distinct : ℕ → Cells → Type 0
Distinct t [] = Unit {0}
Distinct t (c ∷ cs) = (c.1 ≢ t) × Distinct t cs

yield-ne-hangs :
    (live : JmpBuf) (s : Sync) (t : ℕ)
    → s.machine.current < 128
    → t < 128
    → status_at s.machine t ≡ ready
    → yield live s ≢ hangs
unfolding yield
yield-ne-hangs live s t hc ht r e =
    let (regs, m', switched) =
      schedule-switches live s.machine t hc ht (ready-preempt s.machine t (rw r)) in
    cc (rw switched at e)

-- The state in which a thread that must wait calls `schedule`.
abbrev asleep_in : ℕ → MutexBlock → Sync → Waiters → Sync
asleep_in p b s w = unlock_alarm (
    store_mutex (record (mark (lock_alarm s) s.machine.current blocked) { nodes = w.nodes }) p
      (record b { wait_list = w.list; wait_list_tail = w.tail }))

pthread_mutex_lock-eq :
    (live : JmpBuf) (fresh p : ℕ) (s : Sync) (b : MutexBlock) (w : Waiters)
    → s.mutexes p ≡ some b
    → b.state ≡ locked
    → insert_tail fresh s.machine.current (waiters s b) ≡ some w
    → pthread_mutex_lock live fresh p s ≡ yield live (asleep_in p b s w)
unfolding pthread_mutex_lock lock_block wait_for_mutex enqueued
pthread_mutex_lock-eq live fresh p s b w e l i = rw e (rw l (rw i))

-- A thread that finds the mutex locked is blocked and put behind the threads that wait already: unless
-- no thread is ready and the call loops for ever, another thread runs, the mutex keeps its owner, every
-- waiter is blocked, and the waiters stand in the order of their calls.
pub pthread_mutex_lock-waits :
    (live : JmpBuf) (fresh p : ℕ) (s : Sync) (b : MutexBlock) (cs : Cells)
    → s.machine.current < 128
    → IsMutex s p b cs
    → b.state ≡ locked
    → fresh ≢ 0
    → Apart fresh cs
    → (pthread_mutex_lock live fresh p s ≡ hangs)
      ⊎ ((regs : JmpBuf) × (s' : Sync) × (b' : MutexBlock) × (pthread_mutex_lock live fresh p s
            ≡ switches regs s')
          × IsMutex s' p b' (cs ++ (fresh, s.machine.current) ∷ [])
          × (b'.state ≡ locked)
          × (s'.machine.current ≢ s.machine.current))
pthread_mutex_lock-waits live fresh p s b cs hc v l nz apart =
    let t = s.machine.current in
    let (w, i, q) = insert_tail-IsQueue fresh t (waiters s b) cs v.queue nz apart in
    let s1 = asleep_in p b s w in
    let b' : MutexBlock = record b { wait_list = w.list; wait_list_tail = w.tail } in
    let here : status_at s1.machine t ≡ blocked = ground arith in
    let v1 : IsMutex s1 p b' (cs ++ (fresh, t) ∷ []) = record {
      block = ground arith;
      queue = q;
      asleep = Asleep-append s1.machine fresh t cs (Asleep-mark s.machine t cs v.asleep) here;
    } in
    elim (yield-IsMutex live s1 p b' (cs ++ (fresh, t) ∷ []) hc v1) [
      | inl e ↦ inl (rw (pthread_mutex_lock-eq live fresh p s b w v.block l i) e)
      | inr (regs, s', e, turn, v') ↦ inr (
        regs,
        s',
        b',
        rw (pthread_mutex_lock-eq live fresh p s b w v.block l i) e,
        v',
        l,
        λ same. (blocked-Turn t turn here).0 (sym same),
      )
    ]

-- The state in which an unlock with waiters calls `schedule`.
abbrev handed_over : ℕ → ℕ → Sync → Waiters → Sync
handed_over p tid s w = unlock_alarm (
    mark
      (store_mutex (record (lock_alarm s) { nodes = w.nodes }) p
        (record { state = unlocked; wait_list = w.list; wait_list_tail = w.tail }))
      tid ready)

pthread_mutex_unlock-eq :
    (live : JmpBuf) (p : ℕ) (s : Sync) (b : MutexBlock) (tid : ℕ) (w : Waiters)
    → s.mutexes p ≡ some b
    → b.wait_list ≢ 0
    → get_head (waiters s b) ≡ some (tid, w)
    → pthread_mutex_unlock live p s ≡ yield live (handed_over p tid s w)
unfolding pthread_mutex_unlock unlock_block hand_over
pthread_mutex_unlock-eq live p s b tid w e ne g = rw e (rw (≢→== b.wait_list 0 ne) (rw g))

Asleep-wake :
    (m : Machine) (t : ℕ) (cs : Cells)
    → Distinct t cs
    → Asleep m cs
    → Asleep (set_status m t ready) cs
Asleep-wake m t [] d a = tt
Asleep-wake m t (c ∷ cs) d a = (ground (arith, a.0), Asleep-wake m t cs d.1 a.1)

ready_stays : (m : Machine) (t : ℕ) → status_at m t ≡ ready → status_at (preempt m) t ≡ ready
unfolding preempt
ready_stays m t h = ground arith

ready-Turn :
    {live : JmpBuf} {m : Machine} {regs : JmpBuf} {m' : Machine} (t : ℕ)
    → Turn live m regs m'
    → status_at m t ≡ ready
    → (t ≡ m'.current) ⊎ (status_at m' t ≡ ready)
ready-Turn {live} {m} {regs} {m'} t w h = elim (Bool-cases (t == m'.current)) [
  | inl e ↦ inl (==→≡ t m'.current e)
  | inr e ↦ inr (w.others t (==→≢ t m'.current e) ∙ ready_stays m t h)
]

-- What the unlock does, with the turn that it takes.
unlock-Turn :
    (live : JmpBuf) (p : ℕ) (s : Sync) (b : MutexBlock) (c : ℕ × ℕ) (cs : Cells)
    → s.machine.current < 128
    → c.1 < 128
    → Distinct c.1 cs
    → IsMutex s p b (c ∷ cs)
    → (w : Waiters) × (regs : JmpBuf) × (s' : Sync) × (pthread_mutex_unlock live p s
        ≡ switches regs s')
      × IsMutex s' p (record { state = unlocked; wait_list = w.list; wait_list_tail = w.tail }) cs
      × Turn live (handed_over p c.1 s w).machine regs s'.machine
unlock-Turn live p s b c cs hc ht d v =
    let (w, g, q, freed) = get_head-IsQueue (waiters s b) c cs v.queue in
    let s1 = handed_over p c.1 s w in
    let b' : MutexBlock = record {
      state = unlocked;
      wait_list = w.list;
      wait_list_tail = w.tail;
    } in
    let woken : status_at s1.machine c.1 ≡ ready = ground arith in
    let v1 : IsMutex s1 p b' cs = record {
      block = ground arith;
      queue = q;
      asleep = Asleep-wake s.machine c.1 cs d v.asleep.1;
    } in
    let ne : b.wait_list ≢ 0 = (λ e. v.queue.chain.0 (sym v.queue.head ∙ e)) in
    let run : pthread_mutex_unlock live p s ≡ yield live s1 =
      pthread_mutex_unlock-eq live p s b c.1 w v.block ne g in
    elim (yield-IsMutex live s1 p b' cs hc v1) [
      | inl e ↦ absurd (yield-ne-hangs live s1 c.1 hc ht woken e)
      | inr (regs, s', e, turn, v') ↦ (w, regs, s', run ∙ e, v', turn)
    ]

-- An unlock with waiters takes the thread that has waited longest off the queue and makes it ready: the
-- call always switches, that thread runs or is ready, and the others go on waiting in their order. The
-- mutex is left unlocked, although the woken thread takes itself for its owner.
pub pthread_mutex_unlock-wakes :
    (live : JmpBuf) (p : ℕ) (s : Sync) (b : MutexBlock) (c : ℕ × ℕ) (cs : Cells)
    → s.machine.current < 128
    → c.1 < 128
    → Distinct c.1 cs
    → IsMutex s p b (c ∷ cs)
    → (regs : JmpBuf) × (s' : Sync) × (b' : MutexBlock) × (pthread_mutex_unlock live p s
        ≡ switches regs s')
      × IsMutex s' p b' cs
      × ((c.1 ≡ s'.machine.current) ⊎ (status_at s'.machine c.1 ≡ ready))
      × (b'.state ≡ unlocked)
pthread_mutex_unlock-wakes live p s b c cs hc ht d v =
    let (w, regs, s', e, v', turn) = unlock-Turn live p s b c cs hc ht d v in
    let woken : status_at (handed_over p c.1 s w).machine c.1 ≡ ready = ground arith in
    (regs, s', _, e, v', ready-Turn c.1 turn woken, refl)

-- An unlock hands the mutex over to a waiter while a thread `j` is ready whose turn comes before the waiter's.
-- Then the thread that runs next is not the woken one, and a call of lock by it succeeds at once. So it has the
-- mutex, and the woken thread is ready to go on behind its own call of lock.
pub lock-after-unlock :
    (live live' : JmpBuf) (fresh p j : ℕ) (s : Sync) (b : MutexBlock) (c : ℕ × ℕ) (cs : Cells)
    → s.machine.current < 128
    → c.1 < 128
    → Distinct c.1 cs
    → IsMutex s p b (c ∷ cs)
    → j < 128
    → status_at s.machine j ≡ ready
    → ahead s.machine.current j < ahead s.machine.current c.1
    → (regs : JmpBuf) × (s' s'' : Sync) × (pthread_mutex_unlock live p s ≡ switches regs s')
      × (pthread_mutex_lock live' fresh p s' ≡ returns success s'')
      × (s''.machine.current ≢ c.1)
      × (status_at s''.machine c.1 ≡ ready)
unfolding pthread_mutex_lock lock_block
lock-after-unlock live live' fresh p j s b c cs hc ht d v hj r sooner =
    let (w, regs, s', e, v', turn) = unlock-Turn live p s b c cs hc ht d v in
    let s1 = handed_over p c.1 s w in
    let woken : status_at s1.machine c.1 ≡ ready = ground arith in
    let still : status_at s1.machine j ≡ ready = ground (arith, r) in
    let not_it : s'.machine.current ≢ c.1 = (λ q. cc (
      turn.in_turn j hj
          (subst (λ z. ahead s.machine.current j < ahead s.machine.current z) (sym q) sooner),
      ready_stays s1.machine j still,
    )) in
    (
      regs,
      s',
      unlock_alarm (
          store_mutex (lock_alarm s') p
            (record { state = locked; wait_list = w.list; wait_list_tail = w.tail })),
      e,
      rw v'.block refl,
      not_it,
      elim (ready-Turn c.1 turn woken) [ inl q ↦ absurd (not_it (sym q)) | inr q ↦ q ],
    )
