-- ===== src/Semaphore.antt =====
-- Counting semaphores: system/wait.c, signal.c, signaln.c, semcreate.c, semdelete.c, semreset.c and
-- semcount.c, with the macro of include/semaphore.h.
pub mod Counts
pub mod Wait
pub mod Signal
pub mod Create
use cs503_lab.Base.{
  ℕ, zero, suc, ◌+◌, ◌-◌, ◌^◌, ◌%◌, ◌≤◌, ◌<◌, ◌||◌, Bool, true, false, not, ◌==◌, if◌then◌else◌,
  slt, sge, add32, sub32, put, leb,
}
use cs503_lab.Config.{nproc, nsem, ok, syserr, empty, PrState, ProcTab}
use cs503_lab.Queue.{QTab, enqueue, dequeue, getfirst}
use cs503_lab.Kernel.{Kernel, set_state, resched, make_ready, defer_start, defer_stop}

-- `isbadsem`, and the test of `sstate == S_FREE` that follows it
abbrev pub is_bad_sem : ℕ → Bool
is_bad_sem s = slt s 0 || sge s nsem

abbrev pub is_dead_sem : Kernel → ℕ → Bool
is_dead_sem k s = is_bad_sem s || not (k.sem_used s)

abbrev pub set_count : ℕ → ℕ → Kernel → Kernel
set_count s n k = record k { sem_count = put k.sem_count s n }

-- `wait` puts the current process on the semaphore's queue.
pub block_on : ℕ → Kernel → Kernel
block_on s k =
    let pid = k.currpid in
    record k {
      procs = record (k.procs) {
        state = put k.procs.state pid PrState.wait;
        sem = put k.procs.sem pid s;
      };
      queues =
          (enqueue
            (record (k.procs) {
              state = put k.procs.state pid PrState.wait;
              sem = put k.procs.sem pid s;
            })
            pid (k.sem_queue s) k.queues).1;
    }

unfoldable pub wait : ℕ → Kernel → ℕ × Kernel
unfolding block_on
wait s k =
    if is_dead_sem k s
    then (syserr, k)
    else let count = sub32 (k.sem_count s) 1 in
      let k' = set_count s count k in (ok, if slt count 0 then resched (block_on s k') else k')

-- `ready(dequeue(semptr->squeue))`
pub release : ℕ → Kernel → Kernel
release s k =
    let (pid, queues) = dequeue (k.sem_queue s) k.queues in
    (make_ready pid (record k { queues = queues })).1

-- `if ((semptr->scount++) < 0) ready(dequeue(semptr->squeue))`
pub signal_once : ℕ → Kernel → Kernel
unfolding release
signal_once s k =
    let k' = set_count s (add32 (k.sem_count s) 1) k in
    if slt (k.sem_count s) 0 then release s k' else k'

unfoldable pub signal : ℕ → Kernel → ℕ × Kernel
unfolding signal_once
signal s k = if is_dead_sem k s then (syserr, k) else (ok, signal_once s k)

pub signal_times : ℕ → ℕ → Kernel → Kernel
signal_times s zero k = k
signal_times s (suc n) k = signal_times s n (signal_once s k)

pub signaln : ℕ → ℕ → Kernel → ℕ × Kernel
unfolding signal_times
signaln s count k =
    if is_bad_sem s || slt count 0 || not (k.sem_used s)
    then (syserr, k)
    else (ok, (defer_stop (signal_times s count (defer_start k))).1)

-- `newsem` tries each index once, from the static `nextsem` on.
pub newsem : ℕ → Kernel → ℕ × Kernel
newsem zero k = (syserr, k)
newsem (suc n) k =
    let s = k.next_sem in
    let k' = record k { next_sem = if leb nsem (s + 1) then 0 else s + 1 } in
    let further = newsem n k' in
    if k.sem_used s then further else (s, record k' { sem_used = put k.sem_used s true })

unfoldable pub semcreate : ℕ → Kernel → ℕ × Kernel
unfolding newsem
semcreate count k =
    if slt count 0
    then (syserr, k)
    else let (s, k') = newsem nsem k in
      if s == syserr then (syserr, k') else (s, set_count s count k')

-- `while (semptr->scount++ < 0) ready(getfirst(semptr->squeue))`, on fuel
pub release_all : ℕ → ℕ → Kernel → Kernel
release_all s zero k = k
release_all s (suc n) k =
    let k' = set_count s (add32 (k.sem_count s) 1) k in
    let (pid, queues) = getfirst (k'.sem_queue s) k'.queues in
    let further = release_all s n (make_ready pid (record k' { queues = queues })).1 in
    if slt (k.sem_count s) 0 then further else k'

pub semdelete : ℕ → Kernel → ℕ × Kernel
unfolding release_all
semdelete s k =
    if is_dead_sem k s
    then (syserr, k)
    else let k' = record k { sem_used = put k.sem_used s false } in
      (ok, (defer_stop (release_all s (nproc + 1) (defer_start k'))).1)

-- `while ((pid=getfirst(semqueue)) != EMPTY) ready(pid)`, on fuel
pub empty_queue : ℕ → ℕ → Kernel → Kernel
empty_queue q zero k = k
empty_queue q (suc n) k =
    let (pid, queues) = getfirst q k.queues in
    let further = empty_queue q n (make_ready pid (record k { queues = queues })).1 in
    if pid == empty then k else further

pub semreset : ℕ → ℕ → Kernel → ℕ × Kernel
unfolding empty_queue
semreset s count k = if slt count 0 || is_dead_sem k s then (syserr, k) else (
  ok,
  (defer_stop (set_count s count (empty_queue (k.sem_queue s) (nproc + 1) (defer_start k)))).1,
)

pub semcount : ℕ → Kernel → ℕ
semcount s k = if is_dead_sem k s then syserr else k.sem_count s
