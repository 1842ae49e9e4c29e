-- ===== src/Kernel.antt =====
-- The kernel's global state, and the scheduler: system/resched.c, ready.c and yield.c.
-- A call that blocks is modelled up to the context switch; what it does once its process runs
-- again is a function of its own. Every call runs with interrupts disabled.
pub mod Invariant
pub mod Ready
pub mod Resched
pub mod Schedule
pub mod Chosen
pub mod Running
pub mod Leave
use cs503_lab.Base.{
  ℕ, ◌+◌, ◌-◌, ◌^◌, ◌%◌, ◌≤◌, ◌<◌, ◌||◌, ◌&&◌, Bool, true, false, not, List, ◌==◌, if◌then◌else◌,
  slt, sge, add32, sub32, put,
}
use cs503_lab.Config.{nproc, nsem, ok, syserr, PrState, curr, ready, free, ProcTab, is_bad_pid}
use cs503_lab.Queue.{QTab, first_id, insert, dequeue}

pub record Kernel : Type 0 where
  pub procs : ProcTab
  pub queues : QTab
  -- `semtab`: `sstate == S_USED`, `scount`, `squeue`
  pub sem_used : ℕ → Bool
  pub sem_count : ℕ → ℕ
  pub sem_queue : ℕ → ℕ
  -- `Defer`
  pub ndefers : ℕ
  pub attempt : Bool
  pub currpid : ℕ
  pub readylist : ℕ
  pub sleepq : ℕ
  pub preempt : ℕ
  pub prcount : ℕ
  -- the page directory that the processor uses
  pub cr3 : ℕ
  -- the statics of `newsem` and `newpid`
  pub next_sem : ℕ
  pub next_pid : ℕ

abbrev pub quantum : ℕ
quantum = 2

abbrev pub is_curr : PrState → Bool
is_curr PrState.curr = true
is_curr _ = false

abbrev pub set_state : ℕ → PrState → Kernel → Kernel
set_state p s k = record k { procs = record (k.procs) { state = put k.procs.state p s } }

-- The second half of `resched`: the first of the ready list becomes current.
unfoldable pub switch : Kernel → Kernel
switch k =
    let (pid, queues) = dequeue k.readylist k.queues in
    record k {
      queues = queues;
      currpid = pid;
      procs = record (k.procs) { state = put k.procs.state pid PrState.curr };
      preempt = quantum;
      cr3 = k.procs.pdbr pid;
    }

-- `insert(pid, readylist, prptr->prprio)` with the state set to PR_READY
unfoldable pub put_ready : ℕ → Kernel → Kernel
put_ready pid k =
    let k' = set_state pid PrState.ready k in
    record k' { queues = (insert k'.procs pid k'.readylist (k'.procs.prio pid) k'.queues).1 }

unfoldable pub resched : Kernel → Kernel
unfolding switch put_ready
resched k =
    if slt 0 k.ndefers
    then record k { attempt = true }
    else if is_curr (k.procs.state k.currpid)
    then if slt (k.queues.key (first_id k.queues k.readylist)) (k.procs.prio k.currpid)
      then k
      else switch (put_ready k.currpid k)
    else switch k

unfoldable pub make_ready : ℕ → Kernel → ℕ × Kernel
unfolding put_ready resched
make_ready pid k = if is_bad_pid k.procs pid then (syserr, k) else (ok, resched (put_ready pid k))

pub defer_start : Kernel → Kernel
defer_start k = record k {
  ndefers = add32 k.ndefers 1;
  attempt = if k.ndefers == 0 then false else k.attempt;
}

pub defer_stop : Kernel → ℕ × Kernel
unfolding resched
defer_stop k =
    if not (slt 0 k.ndefers)
    then (syserr, k)
    else let k' = record k { ndefers = sub32 k.ndefers 1 } in
      (ok, if k'.ndefers == 0 && k'.attempt then resched k' else k')

pub yield : Kernel → ℕ × Kernel
unfolding resched
yield k = (ok, resched k)
