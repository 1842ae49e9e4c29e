-- ===== src/Process/Create/Alloc.antt =====
-- `newpid` and `create` of system/create.c: the entry that a new process gets.
use cs503_lab.Base.{
  ℕ, zero, suc, ◌+◌, ◌-◌, ◌%◌, ◌<◌, ◌≡◌, refl, ◌≢◌, ◌⊎◌, inl, inr, true, false, ◌==◌, slt, put_self,
  put_ne, bias, List, arith, Bool-cases, has, take,
}
use mathlib.Core.Path.{subst}
use cs503_lab.Config.{nproc, syserr, PrState, is_free}
use cs503_lab.Kernel.{Kernel}
use cs503_lab.Kernel.Invariant.{IsKernel}
use cs503_lab.Kernel.Running.{Running}
use cs503_lab.Process.Create.{newpid, set_entry, create, stack_size, stack_words}

-- `newpid` took the free index `pid`, and changed no more than the static.
pub record Found (k : Kernel) (r : ℕ × Kernel) : Type 0 where
  pub within : r.0 < nproc
  pub was_free : k.procs.state r.0 ≡ PrState.free
  pub rest : r.1 ≡ record k { next_pid = r.0 + 1 }

-- `newpid` found that the `n` indices from the static on are in use.
pub record Full (n : ℕ) (k : Kernel) (r : ℕ × Kernel) : Type 0 where
  pub refused : r.0 ≡ syserr
  pub in_use : (j : ℕ) → j < n → is_free (k.procs.state ((k.next_pid + j) % nproc)) ≡ false
  pub rest : r.1 ≡ record k { next_pid = r.1.next_pid }

is_free-eq : (x : PrState) → is_free x ≡ true → x ≡ PrState.free
is_free-eq PrState.free e = refl
is_free-eq _ e = absurd (cc)

abbrev skip_pid : Kernel → Kernel
skip_pid k = record k { next_pid = k.next_pid % nproc + 1 }

newpid-step :
    (n : ℕ) (k : Kernel)
    → is_free (k.procs.state (k.next_pid % nproc)) ≡ false
    → newpid (suc n) k ≡ newpid n (skip_pid k)
unfolding newpid
newpid-step n k e = rw e

Full-step :
    (n : ℕ) (k : Kernel) (r : ℕ × Kernel)
    → is_free (k.procs.state (k.next_pid % nproc)) ≡ false
    → Full n (skip_pid k) r
    → Full (suc n) k r
Full-step n k r e f = record { refused = f.refused; in_use = λ j lt. all j lt; rest = f.rest }
  where
    all : (j : ℕ) → j < suc n → is_free (k.procs.state ((k.next_pid + j) % nproc)) ≡ false
    all zero lt =
        let same : k.next_pid % nproc ≡ (k.next_pid + 0) % nproc = omega arith in
        subst (λ i. is_free (k.procs.state i) ≡ false) same e
    all (suc j) lt =
        let same : (k.next_pid % nproc + 1 + j) % nproc ≡ (k.next_pid + suc j) % nproc =
          omega arith in
        subst (λ i. is_free (k.procs.state i) ≡ false) same (f.in_use j (omega arith))

newpid-try : (n : ℕ) (k : Kernel) → Found k (newpid n k) ⊎ Full n k (newpid n k)
unfolding newpid
newpid-try zero k =
    inr (record { refused = refl; in_use = λ j lt. absurd (omega arith); rest = refl })
newpid-try (suc n) k = elim (Bool-cases (is_free (k.procs.state (k.next_pid % nproc)))) [
  | inl e ↦ rw e (inl (record { within = omega arith; was_free = is_free-eq _ e; rest = refl }))
  | inr e ↦ rw e (elim (newpid-try n (skip_pid k)) [
    | inl f ↦ inl (record { within = f.within; was_free = f.was_free; rest = f.rest })
    | inr f ↦ inr (Full-step n k _ e f)
  ])
]

-- `newpid` finds a free index, or fails when none is free.
pub newpid_lem :
    (k : Kernel)
    → Found k (newpid nproc k)
      ⊎ ((newpid nproc k).0 ≡ syserr) × ((p : ℕ) → p < nproc → is_free (k.procs.state p) ≡ false)
newpid_lem k = elim (newpid-try nproc k) [
  | inl f ↦ inl f
  | inr f ↦ inr (
    f.refused,
    λ p lt.
        let same : (k.next_pid + (p + nproc - k.next_pid % nproc) % nproc) % nproc ≡ p =
          omega arith in
        subst (λ i. is_free (k.procs.state i) ≡ false) same (f.in_use _ (omega arith)),
  )
]

-- The process `p` that `create` made: it was free, and is suspended, in no queue, with its priority
-- and its parent.
pub record Created (priority : ℕ) (k k' : Kernel) (c : ℕ → List ℕ) (p : ℕ) : Type 0 where
  pub within : p < nproc
  pub was_free : k.procs.state p ≡ PrState.free
  pub state : k'.procs.state p ≡ PrState.susp
  pub prio : k'.procs.prio p ≡ priority
  pub parent : k'.procs.parent p ≡ k.currpid
  pub no_msg : k'.procs.has_msg p ≡ false
  pub running : Running k' c
  pub others : (a : ℕ) → a ≢ p → k'.procs.state a ≡ k.procs.state a

module _ {k : Kernel} {c : ℕ → List ℕ} (r : Running k c) (console pid saddr priority : ℕ)
    (name : List ℕ) (size : ℕ) (words : List ℕ) (next : ℕ) (lt : pid < nproc)
    (was : k.procs.state pid ≡ PrState.free) (positive : slt priority 1 ≡ false) where
  abbrev made : Kernel
  made = set_entry console pid saddr priority name size words (record k { next_pid = next })

  not_null : pid ≢ 0
  not_null = ground (arith, r.kernel.null_in)

  not_listed : (a q : ℕ) → a ≡ pid → q ≡ k.readylist → has a (c q) ≡ false
  not_listed a q e f = ground (arith, r.kernel.homes pid k.readylist lt r.kernel.layout.ready_id)

  set_entry-IsKernel : IsKernel made c
  unfolding set_entry bias
  set_entry-IsKernel = record {
    holds = r.kernel.holds;
    bounded = r.kernel.bounded;
    layout = r.kernel.layout;
    homes = λ a q la iq. ground (arith, r.kernel.homes a q la iq);
    sorted = r.kernel.sorted;
    one_curr = λ a la e. ground (arith, r.kernel.one_curr a la);
    curr_in = r.kernel.curr_in;
    null_in = ground (arith, r.kernel.null_in, not_null);
    waits_in = λ a la e. ground (arith, r.kernel.waits_in a la);
    prios = λ a la. ground (arith, r.kernel.prios a la);
  }

  set_entry-Created : Created priority k made c pid
  unfolding set_entry bias
  set_entry-Created = record {
    within = lt;
    was_free = was;
    state = put_self k.procs.state pid PrState.susp;
    prio = put_self k.procs.prio pid priority;
    parent = put_self k.procs.parent pid k.currpid;
    no_msg = put_self k.procs.has_msg pid false;
    running = record {
      kernel = set_entry-IsKernel;
      keyed = λ a m. ground (arith, not_listed a k.readylist, r.keyed a m);
      counted = record { counts = r.counted.counts; unused = r.counted.unused };
      scheduled = record {
        runs = ground (arith, r.scheduled.runs);
        first = λ a m. ground (arith, r.scheduled.first a m, r.scheduled.runs);
      };
      immediate = r.immediate;
    };
    others = λ a ne. put_ne k.procs.state pid PrState.susp a ne;
  }

not_syserr : (p : ℕ) → p < nproc → (p == syserr) ≡ false
not_syserr p lt = ground arith

is_syserr : (p : ℕ) → p ≡ syserr → (p == syserr) ≡ true
is_syserr p e = ground arith

ne_syserr : (p : ℕ) → p ≢ syserr → (p == syserr) ≡ false
ne_syserr p ne = ground arith

module _ {k : Kernel} {c : ℕ → List ℕ} (r : Running k c)
    (console initret saddr funcaddr ssize priority : ℕ) (name args : List ℕ) where
  abbrev result : ℕ × Kernel
  result = create console initret saddr funcaddr ssize priority name args k

  -- `create` with a stack and a priority of at least 1: a free process becomes the new one,
  -- suspended, and the kernel stays well formed with the same queues; or no process is free, and
  -- the call fails.
  pub create_lem :
      saddr ≢ syserr
      → slt priority 1 ≡ false
      → Created priority k result.1 c result.0
        ⊎ (result.0 ≡ syserr) × ((p : ℕ) → p < nproc → is_free (k.procs.state p) ≡ false)
  unfolding create
  create_lem stack positive = elim (newpid_lem k) [
    | inl f ↦
        let none : (saddr == syserr) ≡ false = ne_syserr saddr stack in
        let good : ((newpid nproc k).0 == syserr) ≡ false = not_syserr _ f.within in
        let m =
          set_entry-Created r console (newpid nproc k).0 saddr priority (take 15 name)
            (stack_size ssize) (stack_words saddr initret funcaddr args) ((newpid nproc k).0 + 1)
            f.within f.was_free positive in
        rw (none, good, positive, f.rest) (inl m)
    | inr f ↦
        let none : (saddr == syserr) ≡ false = ne_syserr saddr stack in
        let bad : ((newpid nproc k).0 == syserr) ≡ true = is_syserr _ f.0 in
        rw (none, bad) (inr (refl, f.1))
  ]
