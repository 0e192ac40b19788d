-- ===== src/Threads/Barrier.antt =====
-- `pthread_barrier_wait` of threads.c in the stretches between its calls of `schedule`.
use ec.Base.{ℕ, ◌+◌, ◌-◌, ◌%◌, ◌^◌, Bool, true, false, not, Option, none, some, ◌==◌, if◌then◌else◌}
use ec.Threads.State.{ready, blocked, JmpBuf}
use ec.Threads.Sync.{
  BarrierBlock, Sync, Code, success, serial, Result, returns, fault, lock_alarm, unlock_alarm,
  yield, store_barrier, mark,
}

-- Where a thread goes on when it is resumed inside the call.
pub data Stage : Type 0 where
  at_loop at_finish : Stage

-- `(BCB->left)--` on an unsigned int
abbrev pub decrement : ℕ → ℕ
decrement left = (left + 2 ^ 32 - 1) % 2 ^ 32

-- The first thread to arrive sets the flag and is blocked; `none` if the flag is set already.
unfoldable pub arrive : ℕ → BarrierBlock → BarrierBlock × Bool
arrive tid b =
    let b1 = record b { left = decrement b.left } in
    if b.flag == 1 then (b1, false) else (record b1 { calling_thread = tid; flag = 1 }, true)

-- Behind the loop: the thread to unblock, if the flag is still set.
unfoldable pub release : BarrierBlock → BarrierBlock × Bool
release b = if b.flag == 1 then (record b { flag = 0 }, true) else (b, false)

-- The end of the call.
unfoldable pub leave : ℕ → BarrierBlock → BarrierBlock × Code
leave tid b =
    if b.calling_thread == tid then (record b { left = b.count }, serial) else (b, success)

-- The loop ends.
abbrev pub is_open : BarrierBlock → Bool
is_open b = b.left == 0

-- The `while` loop, and what follows it up to the last call of `schedule`: the stage at which the thread
-- goes on, and how the stretch ends.
unfoldable pub loop_block : JmpBuf → ℕ → Sync → Option BarrierBlock → Stage × Result
loop_block live p s none = (at_loop, fault)
loop_block live p s (some b) =
    if not (is_open b)
    then (at_loop, yield live s)
    else (let (b', wakes) = release b in
        let s1 = store_barrier (lock_alarm s) p b' in
        (
          at_finish,
          yield live (unlock_alarm (if wakes then mark s1 b.calling_thread ready else s1)),
        ))

unfoldable pub barrier_loop : JmpBuf → ℕ → Sync → Stage × Result
barrier_loop live p s = loop_block live p s (s.barriers p)

-- The call up to its first call of `schedule`.
unfoldable pub wait_block : JmpBuf → ℕ → Sync → Option BarrierBlock → Stage × Result
wait_block live p s none = (at_loop, fault)
wait_block live p s (some b) =
    let (b', blocks) = arrive s.machine.current b in
    let s1 = store_barrier s p b' in
    if blocks
    then (at_loop, yield live (unlock_alarm (mark (lock_alarm s1) s.machine.current blocked)))
    else barrier_loop live p s1

unfoldable pub pthread_barrier_wait : JmpBuf → ℕ → Sync → Stage × Result
pthread_barrier_wait live p s = wait_block live p s (s.barriers p)

unfoldable pub finish_block : ℕ → Sync → Option BarrierBlock → Result
finish_block p s none = fault
finish_block p s (some b) =
    let (b', code) = leave s.machine.current b in returns code (store_barrier s p b')

-- The call from its last call of `schedule` on.
unfoldable pub barrier_finish : ℕ → Sync → Result
barrier_finish p s = finish_block p s (s.barriers p)
