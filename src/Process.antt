-- ===== src/Process.antt =====
-- System calls on processes: system/resume.c, suspend.c, chprio.c and getprio.c; Create has
-- create.c.
pub mod Suspend
pub mod Priority
pub mod Create
use cs503_lab.Base.{
  ℕ, ◌+◌, ◌-◌, ◌^◌, ◌%◌, ◌≤◌, ◌<◌, ◌||◌, ◌&&◌, Bool, true, false, not, ◌==◌, if◌then◌else◌, slt,
  sge, put,
}
use cs503_lab.Config.{nproc, ok, syserr, PrState, ProcTab, is_bad_pid}
use cs503_lab.Queue.{QTab, getitem}
use cs503_lab.Kernel.{Kernel, is_curr, set_state, resched, make_ready}

abbrev pub is_ready : PrState → Bool
is_ready PrState.ready = true
is_ready _ = false

abbrev pub is_susp : PrState → Bool
is_susp PrState.susp = true
is_susp _ = false

unfoldable pub resume : ℕ → Kernel → ℕ × Kernel
resume pid k =
    if is_bad_pid k.procs pid
    then (syserr, k)
    else if not (is_susp (k.procs.state pid))
    then (syserr, k)
    else let prio = k.procs.prio pid in (prio, (make_ready pid k).1)

-- The priority is read after the reschedule, so the record is that of the process when it runs
-- again; no call but `chprio` changes it.
unfoldable pub suspend : ℕ → Kernel → ℕ × Kernel
suspend pid k =
    if is_bad_pid k.procs pid || pid == 0
    then (syserr, k)
    else if not (is_curr (k.procs.state pid)) && not (is_ready (k.procs.state pid))
    then (syserr, k)
    else let k' =
        if is_ready (k.procs.state pid)
        then set_state pid PrState.susp (record k { queues = (getitem pid k.queues).1 })
        else resched (set_state pid PrState.susp k) in
      (k'.procs.prio pid, k')

pub chprio : ℕ → ℕ → Kernel → ℕ × Kernel
chprio pid prio k = if is_bad_pid k.procs pid then (syserr, k) else (
  k.procs.prio pid,
  record k { procs = record (k.procs) { prio = put k.procs.prio pid prio } },
)

pub getprio : ℕ → Kernel → ℕ
getprio pid k = if is_bad_pid k.procs pid then syserr else k.procs.prio pid
