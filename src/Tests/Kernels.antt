-- ===== src/Tests/Kernels.antt =====
-- Kernels that the other tests share: just booted, and busy.
use cs503_lab.Base.{ℕ, true, false, List, [], ◌≡◌, refl, inl, inr, arith, slt, bias}
use cs503_lab.Config.{PrState, ProcTab}
use cs503_lab.Queue.{insert, dequeue, newqueue}
use cs503_lab.Kernel.{Kernel, make_ready, put_ready, resched, switch}
use cs503_lab.Kernel.Running.{Running}
use cs503_lab.Semaphore.{semcreate}
use cs503_lab.Semaphore.Create.{semcreate_lem}
use cs503_lab.Process.Create.{create}
use cs503_lab.Process.Create.Alloc.{create_lem}
use cs503_lab.Process.{resume}
use cs503_lab.Process.Suspend.{resume_lem}
use cs503_lab.Boot.{sysinit, sysinit-Running}

abbrev pub raw : Kernel
raw = record {
  procs = record {
    state = λ i. PrState.susp;
    prio = λ i. 7;
    stkptr = λ i. 7;
    stkbase = λ i. 7;
    stklen = λ i. 7;
    name = λ i. [];
    sem = λ i. 7;
    parent = λ i. 7;
    msg = λ i. 7;
    has_msg = λ i. true;
    desc = λ i. [];
    pdbr = λ i. 7;
  };
  queues = record { key = λ i. 7; next = λ i. 7; prev = λ i. 7 };
  sem_used = λ i. true;
  sem_count = λ i. 7;
  sem_queue = λ i. 7;
  ndefers = 7;
  attempt = true;
  currpid = 7;
  readylist = 7;
  sleepq = 7;
  preempt = 7;
  prcount = 7;
  cr3 = 7;
  next_sem = 0;
  next_pid = 1;
}

-- A table in which every process is alive
abbrev pub awake : ProcTab
awake = raw.procs

pub one_nonneg : slt 1 0 ≡ false
unfolding bias
one_nonneg = refl

pub twenty : slt 20 1 ≡ false
unfolding bias
twenty = refl

abbrev pub boot : Kernel
boot = sysinit 0 raw

pub boot_running : Running boot (λ q. [])
boot_running = sysinit-Running 0 raw

pub boot_next : boot.next_sem ≡ 0
unfolding sysinit
boot_next = refl

boot_frees : boot.procs.state 1 ≡ PrState.free
unfolding sysinit
boot_frees = refl

-- A semaphore of count 1
abbrev pub with_sem : Kernel
with_sem = (semcreate 1 boot).1

with_sem_is : (semcreate 1 boot).0 ≡ 0
unfolding sysinit semcreate bias
with_sem_is = refl

pub with_sem_running : Running with_sem (λ q. [])
with_sem_running =
    elim (semcreate_lem boot_running 1 (omega (arith, boot_next)) (omega arith) one_nonneg) [
      | inl m ↦ m.running
      | inr f ↦ absurd (omega (arith, with_sem_is, f.0))
    ]

-- A process of priority 20
abbrev pub with_proc : Kernel
with_proc = (create 0 0 4096 0 1024 20 [] [] with_sem).1

pub with_proc_is : (create 0 0 4096 0 1024 20 [] [] with_sem).0 ≡ 1
unfolding sysinit semcreate create bias
with_proc_is = refl

pub with_proc_susp : with_proc.procs.state 1 ≡ PrState.susp
unfolding sysinit semcreate create bias
with_proc_susp = refl

pub with_proc_running : Running with_proc (λ q. [])
with_proc_running =
    elim (create_lem with_sem_running 0 0 4096 0 1024 20 [] [] (omega arith) twenty) [
      | inl m ↦ m.running
      | inr f ↦ absurd (omega (arith, with_proc_is, f.0))
    ]

-- It runs in place of the null process.
abbrev pub busy : Kernel
busy = (resume 1 with_proc).1

abbrev pub busy_lists : ℕ → List ℕ
busy_lists = (resume_lem with_proc_running 1 (omega arith) with_proc_susp).1.lists

pub busy_running : Running busy busy_lists
busy_running = (resume_lem with_proc_running 1 (omega arith) with_proc_susp).1.running

pub busy_curr : busy.currpid ≡ 1
unfolding sysinit semcreate create resume make_ready put_ready resched switch insert dequeue
    newqueue bias
busy_curr = refl

pub busy_state : busy.procs.state 1 ≡ PrState.curr
unfolding sysinit semcreate create resume make_ready put_ready resched switch insert dequeue
    newqueue bias
busy_state = refl

pub busy_used : busy.sem_used 0 ≡ true
unfolding sysinit semcreate create resume make_ready put_ready resched switch insert dequeue
    newqueue bias
busy_used = refl
