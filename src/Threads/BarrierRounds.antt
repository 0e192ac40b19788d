-- ===== src/Threads/BarrierRounds.antt =====
-- One round of a barrier on its control block: threads arrive, pass and leave in any order that the scheduler and the alarm
-- may choose, by the stretches of `pthread_barrier_wait` in `Barrier`.
use ec.Base.{
  ℕ, ◌+◌, ◌^◌, ◌≤◌, ◌<◌, ◌≡◌, refl, ◌≢◌, ◌⊎◌, ◌↔◌, sym, ◌∙◌, inl, Bool, true, false, if◌then◌else◌,
  update, arith,
}
use ec.Threads.Sync.{BarrierBlock, Code, success, serial, no_thread}
use ec.Threads.Barrier.{is_open, arrive, release, leave}

-- Where a thread stands: before its call, blocked as the first to arrive, in the loop, behind the loop,
-- or returned.
pub data Place : Type 0 where
  outside asleep looping leaving : Place
  returned : Code → Place

-- The barrier, where each thread stands, and how many have arrived.
pub record Round : Type 0 where
  pub block : BarrierBlock
  pub place : ℕ → Place
  pub arrived : ℕ

abbrev pub fresh_block : ℕ → BarrierBlock
fresh_block n = record { init = 1; flag = 0; calling_thread = no_thread; count = n; left = n }

abbrev pub start : ℕ → Round
start n = record { block = fresh_block n; place = λ _. outside; arrived = 0 }

abbrev pub after_arrive : ℕ → Round → Round
after_arrive t r =
    let (b, blocks) = arrive t r.block in
    record {
      block = b;
      place = update r.place t (if blocks then asleep else looping);
      arrived = r.arrived + 1;
    }

abbrev pub after_pass : ℕ → Round → Round
after_pass t r =
    let (b, wakes) = release r.block in
    record r {
      block = b;
      place =
          update (if wakes then update r.place r.block.calling_thread looping else r.place) t
            leaving;
    }

abbrev pub after_leave : ℕ → Round → Round
after_leave t r =
    let (b, code) = leave t r.block in
    record r { block = b; place = update r.place t (returned code) }

-- At most `n` threads take part in the round of a barrier for `n`, each once.
pub data Step (n : ℕ) (r r' : Round) : Type 0 where
  arrives : (t : ℕ) → r.place t ≡ outside → r.arrived < n → r' ≡ after_arrive t r → Step n r r'
  passes :
      (t : ℕ) → r.place t ≡ looping → is_open r.block ≡ true → r' ≡ after_pass t r → Step n r r'
  leaves : (t : ℕ) → r.place t ≡ leaving → r' ≡ after_leave t r → Step n r r'

pub data Reach (n : ℕ) (r : Round) : Round → Type 0 where
  here : Reach n r r
  next : {r' r'' : Round} → Reach n r r' → Step n r' r'' → Reach n r r''

-- The thread is behind the loop.
abbrev pub is_past : Place → Bool
is_past leaving = true
is_past (returned c) = true
is_past _ = false

pub record Inv (n : ℕ) (r : Round) : Type 0 where
  pub bound : r.arrived ≤ n
  pub counted : (r.block.left + r.arrived ≡ n) ⊎ ((r.block.left ≡ n) × (r.arrived ≡ n))
  pub same_count : r.block.count ≡ n
  pub nobody : r.arrived ≡ 0 → (t : ℕ) → r.place t ≡ outside
  pub closed : 0 < r.arrived → r.arrived < n → r.block.flag ≡ 1
  pub past : (t : ℕ) → is_past (r.place t) ≡ true → r.arrived ≡ n
  pub first : (t : ℕ) → r.place t ≡ returned serial → t ≡ r.block.calling_thread
  pub others : (t : ℕ) → r.place t ≡ returned success → t ≢ r.block.calling_thread

start-Inv : (n : ℕ) → Inv n (start n)
start-Inv n = record {
  bound = omega arith;
  counted = inl (omega arith);
  same_count = refl;
  nobody = λ _ t. refl;
  closed = λ h. absurd (omega arith);
  past = λ t h. cc;
  first = λ t h. cc;
  others = λ t h. cc;
}

arrive-Inv :
    (n : ℕ) (t : ℕ) (r : Round)
    → n < 2 ^ 32
    → r.place t ≡ outside
    → r.arrived < n
    → Inv n r
    → Inv n (after_arrive t r)
unfolding arrive
arrive-Inv n t r small o h v = record {
  bound = omega arith;
  counted = inl (ground (arith, v.counted));
  same_count = ground (arith, v.same_count);
  nobody = λ e. absurd (omega arith);
  closed = λ a b. ground arith;
  past = λ u p. ground (arith, v.past u);
  first = λ u p. ground (arith, v.past u);
  others = λ u p. ground (arith, v.past u);
}

pass-Inv :
    (n : ℕ) (t : ℕ) (r : Round)
    → r.place t ≡ looping
    → is_open r.block ≡ true
    → Inv n r
    → Inv n (after_pass t r)
unfolding release
pass-Inv n t r o z v = record {
  bound = v.bound;
  counted = ground (arith, v.counted);
  same_count = ground (arith, v.same_count);
  nobody = λ e u. ground (arith, v.nobody e t);
  closed = λ a b. ground (arith, v.counted);
  past = λ u p. ground (arith, v.counted);
  first = λ u p. ground (arith, v.first u);
  others = λ u p. ground (arith, v.others u);
}

leave-Inv : (n : ℕ) (t : ℕ) (r : Round) → r.place t ≡ leaving → Inv n r → Inv n (after_leave t r)
unfolding leave
leave-Inv n t r o v =
    let all : r.arrived ≡ n = v.past t (rw o) in
    record {
      bound = v.bound;
      counted = ground (arith, v.counted, v.same_count);
      same_count = ground (arith, v.same_count);
      nobody = λ e u. ground (arith, v.nobody e t);
      closed = λ a b. absurd (omega arith);
      past = λ u p. all;
      first = λ u p. ground (arith, v.first u);
      others = λ u p. ground (arith, v.others u);
    }

Step-Inv : (n : ℕ) {r r' : Round} → n < 2 ^ 32 → Step n r r' → Inv n r → Inv n r'
Step-Inv n {r} {r'} small (arrives t o h e) v = rw e (arrive-Inv n t r small o h v)
Step-Inv n {r} {r'} small (passes t o z e) v = rw e (pass-Inv n t r o z v)
Step-Inv n {r} {r'} small (leaves t o e) v = rw e (leave-Inv n t r o v)

Reach-Inv : (n : ℕ) {r : Round} → n < 2 ^ 32 → Reach n (start n) r → Inv n r
Reach-Inv n small here = start-Inv n
Reach-Inv n small (next h st) = Step-Inv n small st (Reach-Inv n small h)

returned-injective : {c d : Code} → returned c ≡ returned d → c ≡ d
returned-injective h = cc

-- In a round at most one thread is told PTHREAD_BARRIER_SERIAL_THREAD: when `t` was, a thread `u` that
-- has returned was told the same exactly if it is `t`.
pub serial_unique :
    (n : ℕ) (t u : ℕ) (c : Code) {r : Round}
    → n < 2 ^ 32
    → Reach n (start n) r
    → r.place t ≡ returned serial
    → r.place u ≡ returned c
    → (c ≡ serial) ↔ (t ≡ u)
serial_unique n t u c {r} small h s e =
    let v : Inv n r = Reach-Inv n small h in
    (
      (λ k. v.first t s ∙ sym (v.first u (rw k at e))),
      (λ k. returned-injective (sym e ∙ (rw k at s))),
    )
