-- ===== src/Sleep.antt =====
-- Sleeping and the clock: system/sleep.c, unsleep.c, wakeup.c and clkhandler.c.
pub mod Sleepms
use cs503_lab.Base.{
  ℕ, zero, suc, ◌+◌, ◌*◌, ◌^◌, ◌%◌, ◌&&◌, Bool, true, false, not, ◌==◌, if◌then◌else◌, slt, ltb,
  add32, sub32,
}
use cs503_lab.Config.{nproc, ok, syserr, PrState, is_bad_pid}
use cs503_lab.Queue.{first_id, is_empty, getitem, dequeue, insertd, set_key}
use cs503_lab.Kernel.{
  Kernel, quantum, set_state, resched, make_ready, defer_start, defer_stop, yield,
}

abbrev pub max_seconds : ℕ
max_seconds = 4294967

abbrev pub is_asleep : PrState → Bool
is_asleep PrState.sleep = true
is_asleep PrState.rectim = true
is_asleep _ = false

pub sleepms : ℕ → Kernel → ℕ × Kernel
sleepms delay k =
    if delay == 0
    then (ok, (yield k).1)
    else let (r, queues) = insertd k.procs k.currpid k.sleepq delay k.queues in
      let k' = record k { queues = queues } in
      if r == syserr then (syserr, k') else (ok, resched (set_state k'.currpid PrState.sleep k'))

-- `sleep` returns OK, whatever `sleepms` returns.
pub sleep : ℕ → Kernel → ℕ × Kernel
sleep delay k =
    if ltb max_seconds delay then (syserr, k) else (ok, (sleepms ((1000 * delay) % 2 ^ 32) k).1)

pub unsleep : ℕ → Kernel → ℕ × Kernel
unsleep pid k =
    if is_bad_pid k.procs pid
    then (syserr, k)
    else if not (is_asleep (k.procs.state pid))
    then (syserr, k)
    else let t = k.queues in
      let next = t.next pid in
      let t' = if slt next nproc then set_key next (add32 (t.key next) (t.key pid)) t else t in
      (ok, record k { queues = (getitem pid t').1 })

-- `while (nonempty(sleepq) && (firstkey(sleepq) <= 0)) ready(dequeue(sleepq))`, on fuel
pub wake_due : ℕ → Kernel → Kernel
wake_due zero k = k
wake_due (suc n) k =
    let (pid, queues) = dequeue k.sleepq k.queues in
    let further = wake_due n (make_ready pid (record k { queues = queues })).1 in
    if not (is_empty k.queues k.sleepq) && not (slt 0 (k.queues.key (first_id k.queues k.sleepq)))
    then further
    else k

pub wakeup : Kernel → Kernel
unfolding wake_due
wakeup k = (defer_stop (wake_due (nproc + 1) (defer_start k))).1

-- `clkhandler`'s counters: `myglobalclock`, `count1000` and `clktime`.
pub record Clock : Type 0 where
  pub ticks : ℕ
  pub count1000 : ℕ
  pub clktime : ℕ

tick_clock : Clock → Clock
tick_clock c =
    let left = sub32 c.count1000 1 in
    if left == 0
    then record { ticks = add32 c.ticks 1; count1000 = 1000; clktime = add32 c.clktime 1 }
    else record c { ticks = add32 c.ticks 1; count1000 = left }

tick_sleepers : Kernel → Kernel
unfolding wakeup
tick_sleepers k =
    if is_empty k.queues k.sleepq
    then k
    else let first = first_id k.queues k.sleepq in
      let key = sub32 (k.queues.key first) 1 in
      let k' = record k { queues = set_key first key k.queues } in
      if not (slt 0 key) then wakeup k' else k'

tick_quantum : Kernel → Kernel
tick_quantum k =
    let left = sub32 k.preempt 1 in
    if left == 0 then resched (record k { preempt = quantum }) else record k { preempt = left }

pub clkhandler : Clock × Kernel → Clock × Kernel
unfolding tick_clock tick_sleepers tick_quantum
clkhandler (c, k) = (tick_clock c, tick_quantum (tick_sleepers k))
