-- ===== src/Kernel/Invariant.antt =====
-- What holds of the kernel between two calls: each process stands in the queue that its state
-- names, and in no other.
use cs503_lab.Base.{
  ℕ, ◌-◌, ◌^◌, ◌≤◌, ◌<◌, ◌≡◌, ◌∙◌, ◌≢◌, ◌⊎◌, inr, Bool, true, false, List, [], arith, ◌==◌,
  if◌then◌else◌, has, length, slt, bias,
}
use cs503_lab.Config.{nproc, nsem, PrState, ProcTab, is_bad_pid, min_key, is_free}
use cs503_lab.Queue.Contents.{IsQid, Holds, Idle}
use cs503_lab.Queue.Insert.{Bounded, Desc}
use cs503_lab.Kernel.{Kernel, is_curr}

-- Does state `s`, on semaphore queue `w`, put a process in queue `q`?
abbrev pub homed : ℕ → ℕ → ℕ → PrState → ℕ → Bool
homed readylist sleepq w PrState.ready q = q == readylist
homed readylist sleepq w PrState.sleep q = q == sleepq
homed readylist sleepq w PrState.rectim q = q == sleepq
homed readylist sleepq w PrState.wait q = q == w
homed readylist sleepq w _ q = false

abbrev pub home : Kernel → ℕ → ℕ → Bool
home k p q = homed k.readylist k.sleepq (k.sem_queue (k.procs.sem p)) (k.procs.state p) q

-- The queues that sysinit and clkinit gave to the ready list, to the sleepers and to the
-- semaphores.
pub record Layout (readylist sleepq : ℕ) (sem_queue : ℕ → ℕ) : Type 0 where
  pub ready_id : IsQid readylist
  pub sleep_id : IsQid sleepq
  pub sem_id : (s : ℕ) → s < nsem → IsQid (sem_queue s)
  pub ready_sleep : readylist ≢ sleepq
  pub ready_sem : (s : ℕ) → s < nsem → sem_queue s ≢ readylist
  pub sleep_sem : (s : ℕ) → s < nsem → sem_queue s ≢ sleepq
  pub sems : (s r : ℕ) → s < nsem → r < nsem → sem_queue s ≡ sem_queue r → s ≡ r

-- How many processes a count says are waiting: `-count`, if the count is negative.
abbrev pub deficit : ℕ → ℕ
deficit count = if slt count 0 then 2 ^ 32 - count else 0

pub record IsKernel (k : Kernel) (c : ℕ → List ℕ) : Type 0 where
  pub holds : Holds k.queues c
  pub bounded : Bounded k.queues
  pub layout : Layout k.readylist k.sleepq k.sem_queue
  pub homes : (p q : ℕ) → p < nproc → IsQid q → has p (c q) ≡ home k p q
  pub sorted : Desc k.queues.key (c k.readylist)
  pub one_curr : (p : ℕ) → p < nproc → is_curr (k.procs.state p) ≡ true → p ≡ k.currpid
  pub curr_in : k.currpid < nproc
  pub null_in : (k.procs.state 0 ≡ PrState.curr) ⊎ (k.procs.state 0 ≡ PrState.ready)
  pub waits_in : (p : ℕ) → p < nproc → k.procs.state p ≡ PrState.wait → k.procs.sem p < nsem
  pub prios : (p : ℕ) → p < nproc → slt min_key (k.procs.prio p) ≡ true

-- The same, but for process `p`, which is on its way from one state to another.
pub record Loose (p : ℕ) (k : Kernel) (c : ℕ → List ℕ) : Type 0 where
  pub holds : Holds k.queues c
  pub bounded : Bounded k.queues
  pub layout : Layout k.readylist k.sleepq k.sem_queue
  pub homes : (a q : ℕ) → a < nproc → a ≢ p → IsQid q → has a (c q) ≡ home k a q
  pub sorted : Desc k.queues.key (c k.readylist)
  pub one_curr : (a : ℕ) → a < nproc → a ≢ p → is_curr (k.procs.state a) ≡ true → a ≡ k.currpid
  pub curr_in : k.currpid < nproc
  pub null_in : (p ≡ 0) ⊎ ((k.procs.state 0 ≡ PrState.curr) ⊎ (k.procs.state 0 ≡ PrState.ready))
  pub waits_in : (a : ℕ) → a < nproc → a ≢ p → k.procs.state a ≡ PrState.wait → k.procs.sem a < nsem
  pub prios : (a : ℕ) → a < nproc → slt min_key (k.procs.prio a) ≡ true

pub IsKernel-Loose : {k : Kernel} {c : ℕ → List ℕ} (p : ℕ) → IsKernel k c → Loose p k c
IsKernel-Loose p v = record {
  holds = v.holds;
  bounded = v.bounded;
  layout = v.layout;
  homes = λ a q lt ne iq. v.homes a q lt iq;
  sorted = v.sorted;
  one_curr = λ a lt ne e. v.one_curr a lt e;
  curr_in = v.curr_in;
  null_in = inr v.null_in;
  waits_in = λ a lt ne e. v.waits_in a lt e;
  prios = v.prios;
}

-- The count of each used semaphore is below zero by the number of processes that wait on it.
pub record Counted (k : Kernel) (c : ℕ → List ℕ) : Type 0 where
  pub counts :
      (s : ℕ)
      → s < nsem
      → k.sem_used s ≡ true
      → (k.sem_count s < 2 ^ 32) × (length (c (k.sem_queue s)) ≡ deficit (k.sem_count s))
  pub unused : (s : ℕ) → s < nsem → k.sem_used s ≡ false → c (k.sem_queue s) ≡ []

-- No process is current: a switch is under way.
abbrev pub NoCurr : Kernel → Type 0
NoCurr k = (p : ℕ) → p < nproc → is_curr (k.procs.state p) ≡ false

-- The current process runs, and none that is ready goes before it.
pub record Scheduled (k : Kernel) (c : ℕ → List ℕ) : Type 0 where
  pub runs : k.procs.state k.currpid ≡ PrState.curr
  pub first :
      (p : ℕ) → has p (c k.readylist) ≡ true → bias (k.queues.key p) ≤ bias (k.procs.prio k.currpid)

-- The key of a ready process is its priority.
abbrev pub Keyed : Kernel → (ℕ → List ℕ) → Type 0
Keyed k c = (p : ℕ) → has p (c k.readylist) ≡ true → k.queues.key p ≡ k.procs.prio p

module _ {k : Kernel} {c : ℕ → List ℕ} (v : IsKernel k c) where
  -- A process whose state names no queue stands in none.
  pub home-Idle : (p : ℕ) → p < nproc → ((q : ℕ) → IsQid q → home k p q ≡ false) → Idle c p
  home-Idle p lt none = (lt, λ q iq. v.homes p q lt iq ∙ none q iq)

  -- The ready list is the processes that are ready.
  pub ready-mem :
      (p : ℕ) → p < nproc → k.procs.state p ≡ PrState.ready → has p (c k.readylist) ≡ true
  ready-mem p lt e = ground (arith, v.homes p k.readylist lt v.layout.ready_id)

pub is_bad_pid-lt :
    (procs : ProcTab) (p : ℕ)
    → p < nproc
    → is_free (procs.state p) ≡ false
    → is_bad_pid procs p ≡ false
unfolding bias
is_bad_pid-lt procs p lt alive = ground arith
