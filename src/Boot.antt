-- ===== src/Boot.antt =====
-- system/initialize.c: what `sysinit` does to the process table, the semaphores and the queues, with
-- the sleep queue that clkinit.c makes.
use cs503_lab.Base.{
  ℕ, zero, suc, ◌+◌, ◌*◌, ◌≤◌, ◌<◌, ◌≡◌, refl, sym, ap, ◌∙◌, ◌≢◌, inl, inr, false, List, [], ◌∷◌,
  arith, ◌==◌, ltb, if◌then◌else◌, put, Bool-cases, bias,
}
use mathlib.Core.Path.{subst}
use cs503_lab.Config.{nproc, nsem, nqent, PrState}
use cs503_lab.Queue.{newqueue}
use cs503_lab.Queue.Contents.{Holds}
use cs503_lab.Queue.Insert.{Bounded}
use cs503_lab.Queue.Create.{Made, newqueue-next, newqueue-Made, none_made, Made-Holds}
use cs503_lab.Kernel.{Kernel, quantum}
use cs503_lab.Kernel.Running.{Running}

-- `for (i = 0; i < NSEM; i++)`: the semaphores, with a queue each
init_sems : ℕ → ℕ → ℕ → Kernel → ℕ × Kernel
init_sems zero i next k = (next, k)
init_sems (suc n) i next k =
    let (q, next', t) = newqueue next k.queues in
    init_sems n (i + 1) next' (record k {
      sem_used = put k.sem_used i false;
      sem_count = put k.sem_count i 0;
      sem_queue = put k.sem_queue i q;
      queues = t;
    })

-- "prnull"
abbrev prnull : List ℕ
prnull = b'p' ∷ b'r' ∷ b'n' ∷ b'u' ∷ b'l' ∷ b'l' ∷ []

-- `for (i = 0; i < NPROC; i++)`: all processes free; then the null process
-- `stk` is what `getstk(NULLSTK)` returns.
init_procs : ℕ → Kernel → Kernel
init_procs stk k = record k {
  prcount = 1;
  ndefers = 0;
  procs = record (k.procs) {
    state = put (λ i. if ltb i nproc then PrState.free else k.procs.state i) 0 PrState.curr;
    name = put (λ i. if ltb i nproc then [] else k.procs.name i) 0 prnull;
    stkbase = put (λ i. if ltb i nproc then 0 else k.procs.stkbase i) 0 stk;
    prio = put (λ i. if ltb i nproc then 0 else k.procs.prio i) 0 0;
    stklen = put k.procs.stklen 0 8192;
    stkptr = put k.procs.stkptr 0 0;
  };
  currpid = 0;
}

init_lists : ℕ × Kernel → Kernel
init_lists (next, k) =
    let (ready, next1, t1) = newqueue next k.queues in
    let (asleep, next2, t2) = newqueue next1 t1 in
    record k { readylist = ready; sleepq = asleep; queues = t2; preempt = quantum }

-- `sysinit` up to its devices, from memory with any contents
unfoldable pub sysinit : ℕ → Kernel → Kernel
unfolding init_sems init_procs init_lists
sysinit stk k = init_lists (init_sems nsem 0 nproc (init_procs stk k))

-- What the loop over the semaphores leaves.
record Sems (i n next : ℕ) (k : Kernel) (r : ℕ × Kernel) : Type 0 where
  end : r.0 ≡ next + 2 * n
  made : Made (next + 2 * n) r.1.queues
  used : (s : ℕ) → s < i + n → r.1.sem_used s ≡ false
  queue : (s : ℕ) → s < i + n → r.1.sem_queue s ≡ nproc + 2 * s
  procs : r.1.procs ≡ k.procs
  current : (r.1.currpid ≡ k.currpid) × (r.1.ndefers ≡ k.ndefers)

init_sems-Sems :
    (n i next : ℕ) (k : Kernel)
    → next ≡ nproc + 2 * i
    → next + 2 * n ≤ nqent
    → Made next k.queues
    → ((s : ℕ) → s < i → (k.sem_used s ≡ false) × (k.sem_queue s ≡ nproc + 2 * s))
    → Sems i n next k (init_sems n i next k)
unfolding init_sems
init_sems-Sems zero i next k e le m done = record {
  end = omega arith;
  made = subst (λ j. Made j k.queues) (omega arith) m;
  used = λ s lt. (done s (omega arith)).0;
  queue = λ s lt. (done s (omega arith)).1;
  procs = refl;
  current = (refl, refl);
}
init_sems-Sems (suc n) i next k e le m done =
    let q = newqueue-next next k.queues (omega arith) in
    let m' = newqueue-Made next k.queues (omega arith) m in
    let next' = (newqueue next k.queues).1 in
    let e' : next' ≡ next + 2 = q.1 in
    let s =
      init_sems-Sems n (i + 1) next'
        (record k {
          sem_used = put k.sem_used i false;
          sem_count = put k.sem_count i 0;
          sem_queue = put k.sem_queue i (newqueue next k.queues).0;
          queues = (newqueue next k.queues).2;
        })
        (omega (arith, q)) (omega (arith, q))
        (subst (λ j. Made j (newqueue next k.queues).2) (sym q.1) m')
        (λ a lt. ground (arith, done a, q.0)) in
    record {
      end = omega (arith, q.1, s.end);
      made =
          subst (λ j. Made j (init_sems (suc n) i next k).1.queues)
            (let f : next' + 2 * n ≡ next + 2 * suc n = omega (arith, q.1) in f) s.made;
      used = λ a lt. s.used a (omega arith);
      queue = λ a lt. s.queue a (omega arith);
      procs = s.procs;
      current = s.current;
    }

-- A kernel in which only the null process lives, with empty queues, is well formed.
record Fresh (k : Kernel) : Type 0 where
  holds : Holds k.queues (λ q. [])
  bounded : Bounded k.queues
  ready_id : k.readylist ≡ nproc + 2 * nsem
  sleep_id : k.sleepq ≡ nproc + 2 * nsem + 2
  sem_id : (s : ℕ) → s < nsem → k.sem_queue s ≡ nproc + 2 * s
  unused : (s : ℕ) → s < nsem → k.sem_used s ≡ false
  current : k.currpid ≡ 0
  immediate : k.ndefers ≡ 0
  null : k.procs.state 0 ≡ PrState.curr
  frees : (a : ℕ) → a < nproc → a ≢ 0 → k.procs.state a ≡ PrState.free
  prios : (a : ℕ) → a < nproc → k.procs.prio a ≡ 0

Fresh-Running : {k : Kernel} → Fresh k → Running k (λ q. [])
unfolding bias
Fresh-Running {k} f = record {
  kernel = record {
    holds = f.holds;
    bounded = f.bounded;
    layout = record {
      ready_id = omega (arith, f.ready_id);
      sleep_id = omega (arith, f.sleep_id);
      sem_id = λ s lt. omega (arith, f.sem_id s lt);
      ready_sleep = omega (arith, f.ready_id, f.sleep_id);
      ready_sem = λ s lt. omega (arith, f.ready_id, f.sem_id s lt);
      sleep_sem = λ s lt. omega (arith, f.sleep_id, f.sem_id s lt);
      sems = λ s r ls lr e. omega (arith, f.sem_id s ls, f.sem_id r lr, e);
    };
    homes = λ p q lt iq. elim (Bool-cases (p == 0)) [
      | inl e ↦ let z : p ≡ 0 = ground arith in rw (z, f.null)
      | inr e ↦ rw (f.frees p lt (ground arith))
    ];
    sorted = tt;
    one_curr = λ p lt e. ground (arith, f.frees p lt, f.current);
    curr_in = omega (arith, f.current);
    null_in = inl f.null;
    waits_in = λ p lt e. ground (arith, f.frees p lt, f.null);
    prios = λ p lt. rw (f.prios p lt);
  };
  keyed = λ p m. absurd (cc);
  counted = record {
    counts = λ s lt u. absurd (ground (arith, f.unused s lt));
    unused = λ s lt u. refl;
  };
  scheduled = record { runs = rw f.current f.null; first = λ p m. absurd (cc) };
  immediate = rw f.immediate;
}

init_lists-Fresh :
    (k : Kernel) (r : ℕ × Kernel)
    → Sems 0 nsem nproc k r
    → k.currpid ≡ 0
    → k.ndefers ≡ 0
    → k.procs.state 0 ≡ PrState.curr
    → ((a : ℕ) → a < nproc → a ≢ 0 → k.procs.state a ≡ PrState.free)
    → ((a : ℕ) → a < nproc → k.procs.prio a ≡ 0)
    → Fresh (init_lists r)
unfolding init_lists
init_lists-Fresh k (end, k') s cur defers null frees prios =
    let q1 = newqueue-next end k'.queues (omega (arith, s.end)) in
    let m1 =
      newqueue-Made end k'.queues (omega (arith, s.end))
        (subst (λ j. Made j k'.queues) (sym s.end) s.made) in
    let next1 = (newqueue end k'.queues).1 in
    let t1 = (newqueue end k'.queues).2 in
    let q2 = newqueue-next next1 t1 (omega (arith, s.end, q1)) in
    let m2 =
      newqueue-Made next1 t1 (omega (arith, s.end, q1)) (subst (λ j. Made j t1) (sym q1.1) m1) in
    let h = Made-Holds (next1 + 2) (newqueue next1 t1).2 (omega (arith, s.end, q1)) m2 in
    record {
      holds = h.0;
      bounded = h.1;
      ready_id = omega (arith, q1.0, s.end);
      sleep_id = omega (arith, q2.0, q1.1, s.end);
      sem_id = λ a lt. s.queue a lt;
      unused = λ a lt. s.used a lt;
      current = s.current.0 ∙ cur;
      immediate = s.current.1 ∙ defers;
      null = ap (λ g. g.state 0) s.procs ∙ null;
      frees = λ a lt ne. ap (λ g. g.state a) s.procs ∙ frees a lt ne;
      prios = λ a lt. ap (λ g. g.prio a) s.procs ∙ prios a lt;
    }

-- From memory with any contents, `sysinit` leaves a well formed kernel: the null process runs, all
-- queues are empty, and every process, semaphore and list has the queue that its state names.
pub sysinit-Running : (stk : ℕ) (k : Kernel) → Running (sysinit stk k) (λ q. [])
unfolding sysinit
sysinit-Running stk k = Fresh-Running (
    init_lists-Fresh (init_procs stk k) (init_sems nsem 0 nproc (init_procs stk k))
      (init_sems-Sems nsem 0 nproc (init_procs stk k) (omega arith) (omega arith)
        (none_made (init_procs stk k).queues) (λ s lt. absurd (omega arith)))
      refl refl refl (λ a lt ne. ground arith) (λ a lt. ground arith))
