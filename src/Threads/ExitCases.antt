-- ===== src/Threads/ExitCases.antt =====
-- All cases of `pthread_exit` of threads.c.
use ec.Base.{
  ℕ, ◌<◌, ◌≡◌, refl, subst, ◌⊎◌, ◌≢◌, inl, inr, Bool, true, false, not, ◌&&◌, ◌==◌, ==→≢, sym,
  Bool-cases, Option-cases, arith, IsFirst, first_index, first_index-IsFirst, first_index-eq-none,
}
use ec.Threads.State.{
  ThreadStatus, empty, ready, running, exited, blocked, is_ready, is_running, is_exited, JmpBuf,
  Machine, status_at, Outcome, jump, spin, finish,
}
use ec.Threads.Scheduler.{is_left, pthread_exit}
use ec.Threads.RoundRobin.{Turn}
use ec.Threads.Exit.{
  WellFormed, marked, pthread_exit-switches, pthread_exit-finishes, pthread_exit-hangs,
}

-- How a call of `pthread_exit` ends.
pub data Exits (live : JmpBuf) (m : Machine) : Outcome → Type 0 where
  switches :
      (j : ℕ) (regs : JmpBuf) (m' : Machine)
      → j < 128
      → j ≢ m.current
      → is_ready (status_at m j) ≡ true
      → Turn live (marked m) regs m'
      → m'.current ≢ m.current
      → status_at m' m.current ≡ exited
      → Exits live m (jump regs m')
  finishes :
      (m' : Machine)
      → ((j : ℕ) → j < 128 → j ≢ m.current → is_left (status_at m j) ≡ false)
      → ((j : ℕ)
          → j < 128
          → is_exited (status_at m' j) ≡ true
          → (m'.table j).stack ≢ 0
          → m'.allocated (m'.table j).stack ≡ false)
      → Exits live m (finish 0 m')
  hangs :
      (b : ℕ)
      → b < 128
      → b ≢ m.current
      → status_at m b ≡ blocked
      → ((j : ℕ) → j < 128 → j ≢ m.current → is_ready (status_at m j) ≡ false)
      → Exits live m spin

-- A thread other than the caller for which a test holds, or none.
other_with :
    (test : ℕ → Bool) (c : ℕ)
    → ((j : ℕ) → j < 128 → j ≢ c → test j ≡ false)
      ⊎ ((j : ℕ) × (j < 128) × (j ≢ c) × (test j ≡ true))
other_with test c = elim (Option-cases (first_index (λ j. not (j == c) && test j) 0 128)) [
  | inl e ↦ inl (λ j h ne. fails j ne (first_index-eq-none _ 0 128 j e (omega arith) (omega arith)))
  | inr (j, e) ↦ inr (passes j (first_index-IsFirst _ 0 128 e))
]
  where
    fails : (j : ℕ) → j ≢ c → (not (j == c) && test j) ≡ false → test j ≡ false
    fails j ne e = ground arith

    passes :
        (j : ℕ)
        → IsFirst (λ j. not (j == c) && test j) 0 128 j
        → (j : ℕ) × (j < 128) × (j ≢ c) × (test j ≡ true)
    passes j f =
        let p : (not (j == c) && test j) ≡ true = f.passes in
        (j, omega (arith, f.below), ==→≢ j c (ground arith), ground arith)

only_blocked :
    (s : ThreadStatus) → is_left s ≡ true → is_ready s ≡ false → is_running s ≡ false → s ≡ blocked
only_blocked blocked l r n = refl
only_blocked running l r n = cc
only_blocked ready l r n = cc
only_blocked exited l r n = cc
only_blocked empty l r n = cc

-- A call of `pthread_exit` in a well formed machine ends in one of three ways: another thread is ready, and
-- the call takes a turn, marks the caller as exited and runs another thread; or no other thread is left, and
-- the process ends with status 0 when the stack of every exited thread has been freed; or the threads that
-- are left are all blocked, and the call never ends.
pub pthread_exit-Exits :
    (live : JmpBuf) (m : Machine) → WellFormed m → Exits live m (pthread_exit live m)
pthread_exit-Exits live m v = elim (other_with (λ j. is_ready (status_at m j)) m.current) [
  | inr (j, h, ne, r) ↦
      let (regs, m', e, t, o, x) = pthread_exit-switches live m j v h ne r in
      subst (Exits live m) (sym e) (switches j regs m' h ne r t o x)
  | inl idle ↦ elim (other_with (λ j. is_left (status_at m j)) m.current) [
    | inl none_left ↦
        let (m', e, f) = pthread_exit-finishes live m v none_left in
        subst (Exits live m) (sym e) (finishes m' none_left f)
    | inr (b, h, ne, l) ↦
        let stopped : status_at m b ≡ blocked =
          only_blocked (status_at m b) l (idle b h ne) (stands b ne) in
        subst (Exits live m) (sym (pthread_exit-hangs live m b v h ne stopped idle))
          (hangs b h ne stopped idle)
  ]
]
  where
    stands : (b : ℕ) → b ≢ m.current → is_running (status_at m b) ≡ false
    stands b ne = elim (Bool-cases (is_running (status_at m b))) [
      | inl u ↦ absurd (ne (v.one.alone b u))
      | inr e ↦ e
    ]
