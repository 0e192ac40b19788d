-- ===== src/Threads/RoundRobin.antt =====
-- `schedule` of threads.c: which thread it picks, what a switch changes, and when it never ends.
use ec.Base.{
  ◌∙◌, ◌↔◌, ◌⊎◌, ℕ, zero, suc, ◌+◌, ◌-◌, ◌%◌, ◌<◌, ◌≡◌, ◌≢◌, inl, inr, true, false, none, some,
  ◌==◌, if◌then◌else◌, ==→≡, ==→≢, sym, Bool-cases, Option-cases, arith,
}
use ec.Threads.State.{
  running, is_ready, is_exited, JmpBuf, Tcb, Machine, status_at, save_regs, jump, spin,
}
use ec.Threads.Scheduler.{preempt, advance, find_ready, switch_to, save_and_switch, schedule}

-- How many threads come before `t` in the turn that starts behind `c`.
abbrev pub ahead : ℕ → ℕ → ℕ
ahead c t = (t + 127 - c) % 128

advance-lt : (c : ℕ) → c < 128 → advance c < 128
advance-lt c h = ground arith

ahead-advance :
    (c t : ℕ) → c < 128 → t < 128 → t ≢ advance c → ahead c t ≡ suc (ahead (advance c) t)
ahead-advance c t hc ht ne = ground arith

ahead-self_advance : (c : ℕ) → c < 128 → ahead c (advance c) ≡ 0
ahead-self_advance c h = ground arith

-- What the search returns is the first ready thread in turn, among `n`.
pub record IsNext (table : ℕ → Tcb) (n c t : ℕ) : Type 0 where
  pub in_table : t < 128
  pub is_next_ready : is_ready (table t).status ≡ true
  pub within : ahead c t < n
  pub skipped : (j : ℕ) → j < 128 → ahead c j < ahead c t → is_ready (table j).status ≡ false

IsNext-here :
    (table : ℕ → Tcb) (n c t : ℕ)
    → c < 128
    → is_ready (table t).status ≡ true
    → t ≡ advance c
    → IsNext table (suc n) c t
IsNext-here table n c t hc r e = record {
  in_table = omega (arith, advance-lt c hc);
  is_next_ready = r;
  within = ground (arith, ahead-self_advance c hc);
  skipped = λ j hj h. absurd (ground (arith, ahead-self_advance c hc));
}

IsNext-later :
    (table : ℕ → Tcb) (n c t : ℕ)
    → c < 128
    → is_ready (table (advance c)).status ≡ false
    → IsNext table n (advance c) t
    → IsNext table (suc n) c t
IsNext-later table n c t hc r v = record {
  in_table = v.in_table;
  is_next_ready = v.is_next_ready;
  within = omega (arith, step t v.in_table (λ e. cc (v.is_next_ready)));
  skipped = λ j hj h. elim (Bool-cases (j == advance c)) [
    | inl e ↦ rw (==→≡ j (advance c) e) r
    | inr e ↦ v.skipped j hj (
        omega (
          arith,
          step j hj (==→≢ j (advance c) e),
          step t v.in_table (λ e'. cc (v.is_next_ready)),
          h,
        ))
  ];
}
  where
    step : (j : ℕ) → j < 128 → j ≢ advance c → ahead c j ≡ suc (ahead (advance c) j)
    step j hj = ahead-advance c j hc hj

pub find_ready-IsNext :
    (table : ℕ → Tcb) (n c : ℕ) {t : ℕ}
    → c < 128
    → find_ready table n c ≡ some t
    → IsNext table n c t
unfolding find_ready
find_ready-IsNext table zero c hc e = cc
find_ready-IsNext table (suc n) c {t} hc e =
    elim (Bool-cases (is_ready (table (advance c)).status)) [
      | inl r ↦
          let found : some (advance c) ≡ some t = rw r at e in
          let here : advance c ≡ t = cc in IsNext-here table n c t hc (rw here at r) (sym here)
      | inr r ↦
          IsNext-later table n c t hc r
            (find_ready-IsNext table n (advance c) (advance-lt c hc) (rw r at e))
    ]

pub find_ready-eq-none :
    (table : ℕ → Tcb) (n c j : ℕ)
    → c < 128
    → find_ready table n c ≡ none
    → j < 128
    → ahead c j < n
    → is_ready (table j).status ≡ false
unfolding find_ready
find_ready-eq-none table zero c j hc e hj h = absurd (omega arith)
find_ready-eq-none table (suc n) c j hc e hj h =
    elim (Bool-cases (is_ready (table (advance c)).status)) [
      | inl r ↦ cc (rw r at e)
      | inr r ↦ elim (Bool-cases (j == advance c)) [
        | inl s ↦ rw (==→≡ j (advance c) s) r
        | inr s ↦
            find_ready-eq-none table n (advance c) j (advance-lt c hc) (rw r at e) hj
              (omega (arith, ahead-advance c j hc hj (==→≢ j (advance c) s)))
      ]
    ]

-- What a call of `schedule` that switches from `m` to `m'` does, with `live` the registers at the call
-- and `regs` those that are loaded.
pub record Turn (live : JmpBuf) (m : Machine) (regs : JmpBuf) (m' : Machine) : Type 0 where
  pub in_table : m'.current < 128
  pub was_ready : is_ready (status_at (preempt m) m'.current) ≡ true
  pub in_turn :
      (j : ℕ)
      → j < 128
      → ahead m.current j < ahead m.current m'.current
      → is_ready (status_at (preempt m) j) ≡ false
  pub now_running : status_at m' m'.current ≡ running
  pub others : (i : ℕ) → i ≢ m'.current → status_at m' i ≡ status_at (preempt m) i
  pub same_owner : (i : ℕ) → (m'.table i).tid ≡ (m.table i).tid
  pub same_start : m'.is_first_call ≡ m.is_first_call
  pub resumes : m'.current ≢ m.current → regs ≡ (m.table m'.current).regs
  pub saves : is_exited (status_at m m.current) ≡ false → (m'.table m.current).regs ≡ live

current-preempt : (m : Machine) → (preempt m).current ≡ m.current
unfolding preempt
current-preempt m = ground arith

regs-preempt : (m : Machine) (i : ℕ) → ((preempt m).table i).regs ≡ (m.table i).regs
unfolding preempt
regs-preempt m i = ground arith

exited-preempt :
    (m : Machine) → is_exited (status_at (preempt m) m.current) ≡ is_exited (status_at m m.current)
unfolding preempt
exited-preempt m = ground arith

switch_to-ne-spin : (t : ℕ) (m : Machine) → switch_to t m ≢ spin
unfolding switch_to
switch_to-ne-spin t m e = cc

-- The machine as `schedule` leaves it before it switches.
abbrev saved : JmpBuf → Machine → Machine
saved live m =
    let m1 = preempt m in
    if is_exited (status_at m1 m1.current) then m1 else save_regs m1 m1.current live

status-saved :
    (live : JmpBuf) (m : Machine) (i : ℕ) → status_at (saved live m) i ≡ status_at (preempt m) i
status-saved live m i = ground arith

tid-saved : (live : JmpBuf) (m : Machine) (i : ℕ) → ((saved live m).table i).tid ≡ (m.table i).tid
unfolding preempt
tid-saved live m i = ground arith

start-saved : (live : JmpBuf) (m : Machine) → (saved live m).is_first_call ≡ m.is_first_call
unfolding preempt
start-saved live m = ground arith

regs-saved_ne :
    (live : JmpBuf) (m : Machine) (i : ℕ)
    → i ≢ m.current
    → ((saved live m).table i).regs ≡ (m.table i).regs
regs-saved_ne live m i h = ground (arith, current-preempt m, regs-preempt m i)

regs-saved :
    (live : JmpBuf) (m : Machine)
    → is_exited (status_at m m.current) ≡ false
    → ((saved live m).table m.current).regs ≡ live
regs-saved live m h = ground (arith, current-preempt m, exited-preempt m)

switch_to-Turn :
    (live : JmpBuf) (m : Machine) (t : ℕ) {regs : JmpBuf} {m' : Machine}
    → IsNext (preempt m).table 128 m.current t
    → switch_to t (saved live m) ≡ jump regs m'
    → Turn live m regs m'
unfolding switch_to
switch_to-Turn live m t {regs} {m'} n e =
    let e0 : m'.current ≡ t = ground arith in
    record {
      in_table = ground (arith, n.in_table);
      was_ready = rw e0 n.is_next_ready;
      in_turn = rw e0 n.skipped;
      now_running = ground arith;
      same_owner = λ i. ground (arith, tid-saved live m i);
      same_start = ground (arith, start-saved live m);
      others = λ i h. ground (arith, status-saved live m i);
      resumes = λ h. ground (arith, regs-saved_ne live m t);
      saves = λ h. ground (arith, regs-saved live m h);
    }

schedule-of_some :
    (live : JmpBuf) (m : Machine) (t : ℕ)
    → find_ready (preempt m).table 128 m.current ≡ some t
    → schedule live m ≡ switch_to t (saved live m)
unfolding schedule save_and_switch
schedule-of_some live m t f = rw (current-preempt m, f)

schedule-of_none :
    (live : JmpBuf) (m : Machine)
    → find_ready (preempt m).table 128 m.current ≡ none
    → schedule live m ≡ spin
unfolding schedule save_and_switch
schedule-of_none live m f = rw (current-preempt m, f)

-- A call of `schedule` that switches threads picks the first ready thread behind the current one,
-- going round the table, marks it running and resumes it where it was saved; the current thread, if it
-- was running, becomes ready and its registers are saved unless it has exited; no other status changes.
pub schedule-Turn :
    (live : JmpBuf) (m : Machine) {regs : JmpBuf} {m' : Machine}
    → m.current < 128
    → schedule live m ≡ jump regs m'
    → Turn live m regs m'
schedule-Turn live m {regs} {m'} hc e =
    elim (Option-cases (find_ready (preempt m).table 128 m.current)) [
      | inl n ↦ cc (schedule-of_none live m n)
      | inr (t, f) ↦
          switch_to-Turn live m t (find_ready-IsNext (preempt m).table 128 m.current hc f)
            (sym (schedule-of_some live m t f) ∙ e)
    ]

-- `schedule` loops for ever exactly when no thread of the table is ready once the current one has
-- been preempted.
pub schedule-eq-spin_iff :
    (live : JmpBuf) (m : Machine)
    → m.current < 128
    → (schedule live m ≡ spin) ↔ ((i : ℕ) → i < 128 → is_ready (status_at (preempt m) i) ≡ false)
schedule-eq-spin_iff live m hc = elim (Option-cases (find_ready (preempt m).table 128 m.current)) [
  | inl n ↦ (
    (λ _ i hi. find_ready-eq-none _ 128 m.current i hc n hi (omega arith)),
    (λ _. schedule-of_none live m n),
  )
  | inr (t, f) ↦
      let v : IsNext (preempt m).table 128 m.current t = find_ready-IsNext _ 128 m.current hc f in
      (
        (λ e. absurd (switch_to-ne-spin t (saved live m) (sym (schedule-of_some live m t f) ∙ e))),
        (λ h. cc (h t v.in_table, v.is_next_ready)),
      )
]

-- A call with a ready thread switches.
pub schedule-switches :
    (live : JmpBuf) (m : Machine) (t : ℕ)
    → m.current < 128
    → t < 128
    → is_ready (status_at (preempt m) t) ≡ true
    → (regs : JmpBuf) × (m' : Machine) × (schedule live m ≡ jump regs m')
unfolding switch_to
schedule-switches live m t hc ht r =
    elim (Option-cases (find_ready (preempt m).table 128 m.current)) [
      | inl n ↦ cc (r, find_ready-eq-none _ 128 m.current t hc n ht (omega arith))
      | inr (u, f) ↦ (_, _, schedule-of_some live m u f)
    ]

-- A call either loops for ever or switches.
pub schedule-cases :
    (live : JmpBuf) (m : Machine)
    → m.current < 128
    → (schedule live m ≡ spin)
      ⊎ ((regs : JmpBuf) × (m' : Machine) × (schedule live m ≡ jump regs m'))
unfolding switch_to
schedule-cases live m hc = elim (Option-cases (find_ready (preempt m).table 128 m.current)) [
  | inl n ↦ inl (schedule-of_none live m n)
  | inr (u, f) ↦ inr (_, _, schedule-of_some live m u f)
]
