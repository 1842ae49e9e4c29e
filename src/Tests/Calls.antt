-- ===== src/Tests/Calls.antt =====
-- The system calls on the booted and on the busy kernel.
use cs503_lab.Base.{
  ℕ, true, false, [], ◌≡◌, refl, ap, ◌<◌, arith, ◌^◌, ◌-◌, ◌≢◌, ◌⊎◌, if◌then◌else◌, slt, bias, not,
  put, ◌∷◌, ◌||◌, sub32,
}
use cs503_lab.Config.{PrState, min_key, nproc, nsem, ok, syserr, is_free}
use cs503_lab.Kernel.Chosen.{Chosen, next_run}
use cs503_lab.Queue.{tail_of, insert, dequeue, enqueue, newqueue}
use cs503_lab.Queue.Remove.{take_first}
use cs503_lab.Queue.Contents.{Idle}
use cs503_lab.Kernel.{is_curr, Kernel, make_ready, put_ready, resched, switch}
use cs503_lab.Kernel.Invariant.{Keyed, IsKernel-Loose}
use cs503_lab.Kernel.Resched.{Switched, is_eligible}
use cs503_lab.Kernel.Schedule.{resched-Switched}
use cs503_lab.Kernel.Running.{Running, Readied, make_ready-Readied}
use cs503_lab.Boot.{sysinit, sysinit-Running}
use cs503_lab.Process.{resume, suspend, chprio}
use cs503_lab.Process.Suspend.{Suspended, suspend_lem, resume_lem}
use cs503_lab.Process.Create.{create}
use cs503_lab.Process.Create.Alloc.{Created, create_lem}
use cs503_lab.Message.{is_rectim, send, receive_wait}
use cs503_lab.Process.Priority.{chprio-not_Keyed}
use cs503_lab.Message.Send.{Sent, send_lem}
use cs503_lab.Message.Receive.{Awaits, receive_wait-Awaits}
use cs503_lab.Semaphore.{wait, signal, semcreate}
use cs503_lab.Semaphore.Wait.{SemCall, lowered, waited, wait_lem}
use cs503_lab.Semaphore.Signal.{raised, released, signal_lem}
use cs503_lab.Semaphore.Create.{NewSem, semcreate_lem}
use cs503_lab.Tests.Kernels.{
  raw, boot, boot_running, boot_next, with_sem, with_sem_running, with_proc, with_proc_running,
  with_proc_susp, busy, busy_lists, busy_running, busy_curr, busy_state, busy_used, one_nonneg,
  twenty,
}

sysinit-Running_example : Running (sysinit 0 raw) (λ q. [])
sysinit-Running_example = sysinit-Running 0 raw

resched-Switched_example : Switched busy (resched busy) busy_lists
resched-Switched_example =
    resched-Switched busy_running.kernel busy_running.keyed busy_running.immediate

proc-Idle : Idle (λ q. []) 1
proc-Idle = (omega arith, λ q iq. refl)

make_ready-Readied_example :
    ((make_ready 1 with_proc).0 ≡ ok)
    × Readied 1 with_proc (make_ready 1 with_proc).1 (λ q. [])
    × Chosen with_proc
        (make_ready 1 with_proc).1
        (λ q. [])
        (next_run
          (put with_proc.queues.key 1 (with_proc.procs.prio 1))
          with_proc.procs.prio
          (is_curr (put with_proc.procs.state 1 PrState.ready with_proc.currpid))
          with_proc.currpid
          (tail_of with_proc.readylist)
          (1 ∷ []))
make_ready-Readied_example =
    make_ready-Readied 1 (IsKernel-Loose 1 with_proc_running.kernel) with_proc_running.keyed
      with_proc_running.counted proc-Idle with_proc_running.immediate (ap is_free with_proc_susp)

resume_lem_example :
    ((resume 1 with_proc).0 ≡ with_proc.procs.prio 1)
    × Readied 1 with_proc (resume 1 with_proc).1 (λ q. [])
resume_lem_example = resume_lem with_proc_running 1 (omega arith) with_proc_susp

suspend_lem_example :
    ((suspend 1 busy).0 ≡ busy.procs.prio 1)
    × Suspended busy_running 1 (omega arith) (suspend 1 busy).1
suspend_lem_example =
    suspend_lem busy_running 1 (omega arith) (omega arith) (ap is_eligible busy_state)

semcreate_lem_example :
    NewSem 1 boot (semcreate 1 boot).1 (λ q. []) (semcreate 1 boot).0
    ⊎ ((semcreate 1 boot).0 ≡ syserr) × ((s : ℕ) → s < nsem → boot.sem_used s ≡ true)
semcreate_lem_example =
    semcreate_lem boot_running 1 (omega (arith, boot_next)) (omega arith) one_nonneg

create_lem_example :
    let r = create 0 0 4096 0 1024 20 [] [] with_sem in
    Created 20 with_sem r.1 (λ q. []) r.0
    ⊎ (r.0 ≡ syserr) × ((p : ℕ) → p < nproc → is_free (with_sem.procs.state p) ≡ false)
create_lem_example = create_lem with_sem_running 0 0 4096 0 1024 20 [] [] (omega arith) twenty

busy_not_null : busy.currpid ≢ 0
busy_not_null = omega (arith, busy_curr)

-- The busy process takes the semaphore, and then waits for it.
abbrev held : Kernel
held = (wait 0 busy).1

abbrev held_call :
    SemCall busy held 0
      (lowered busy 0)
      (if slt (lowered busy 0) 0 then waited busy 0 busy.currpid busy_lists else busy_lists)
held_call = (wait_lem busy_running 0 (omega arith) busy_used busy_not_null).1

held_not_null : held.currpid ≢ 0
unfolding sysinit semcreate create resume make_ready put_ready resched switch insert dequeue
    newqueue bias wait sub32
held_not_null = let e : held.currpid ≡ 1 = refl in omega (arith, e)

held_used : held.sem_used 0 ≡ true
unfolding sysinit semcreate create resume make_ready put_ready resched switch insert dequeue
    newqueue bias wait sub32
held_used = refl

abbrev full : Kernel
full = (wait 0 held).1

abbrev full_call :
    SemCall held full 0 (lowered held 0) (
      if slt (lowered held 0) 0
      then waited held 0 held.currpid held_call.lists
      else held_call.lists)
full_call = (wait_lem held_call.running 0 (omega arith) held_used held_not_null).1

full_used : full.sem_used 0 ≡ true
unfolding sysinit semcreate create resume make_ready put_ready resched switch insert dequeue enqueue
    newqueue bias wait sub32
full_used = refl

full_count : full.sem_count 0 ≡ 2 ^ 32 - 1
unfolding sysinit semcreate create resume make_ready put_ready resched switch insert dequeue enqueue
    newqueue bias wait sub32
full_count = refl

signal_lem_example :
    ((signal 0 full).0 ≡ ok)
    × SemCall full
        (signal 0 full).1
        0
        (raised full 0)
        (if slt (full.sem_count 0) 0 then released full 0 full_call.lists else full_call.lists)
    × ((not (slt (full.sem_count 0) 0)
          || is_eligible
              ((signal 0 full).1.procs.state (take_first (full_call.lists (full.sem_queue 0))).0))
        ≡ true)
signal_lem_example =
    signal_lem full_call.running 0 (omega arith) full_used (omega (arith, full_count))

busy_empty : busy.procs.has_msg busy.currpid ≡ false
unfolding sysinit semcreate create resume make_ready put_ready resched switch insert dequeue
    newqueue bias
busy_empty = refl

receive_wait-Awaits_example : Awaits busy.currpid busy (receive_wait busy) busy_lists
receive_wait-Awaits_example = receive_wait-Awaits busy_running busy_not_null busy_empty

-- The busy process waits for a message.
abbrev waiting : Kernel
waiting = receive_wait busy

abbrev waiting_call : Awaits busy.currpid busy waiting busy_lists
waiting_call = receive_wait-Awaits busy_running busy_not_null busy_empty

send_lem_example :
    ((send busy.currpid 7 waiting).0 ≡ ok)
    × Sent busy.currpid 7 waiting (send busy.currpid 7 waiting).1 waiting_call.lists
send_lem_example =
    send_lem waiting_call.running busy.currpid 7 (omega (arith, busy_curr))
      (ap is_free waiting_call.state) waiting_call.no_msg (ap is_rectim waiting_call.state)

thirty : slt min_key 30 ≡ true
unfolding bias
thirty = refl

null_ready : busy.procs.state 0 ≡ PrState.ready
unfolding sysinit semcreate create resume make_ready put_ready resched switch insert dequeue
    newqueue bias
null_ready = refl

null_prio : busy.procs.prio 0 ≡ 0
unfolding sysinit semcreate create resume make_ready put_ready resched switch insert dequeue
    newqueue bias
null_prio = refl

chprio-not_Keyed_example :
    ((chprio 0 5 busy).1.queues ≡ busy.queues)
    × ((chprio 0 5 busy).1.procs.prio 0 ≡ 5)
    × ¬ (Keyed (chprio 0 5 busy).1 busy_lists)
chprio-not_Keyed_example =
    chprio-not_Keyed busy_running 0 5 (omega arith) null_ready (omega (arith, null_prio))
