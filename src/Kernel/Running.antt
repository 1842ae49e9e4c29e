-- ===== src/Kernel/Running.antt =====
-- What holds while a process runs, and how it survives a call that ends in a reschedule.
use cs503_lab.Base.{
  ℕ, ◌≡◌, refl, sym, ap, ◌∙◌, ◌≢◌, true, false, List, arith, length, put, put_ne, slt,
}
use mathlib.Core.Path.{subst}
use cs503_lab.Config.{PrState, ok, is_free}
use cs503_lab.Queue.Contents.{Idle}
use cs503_lab.Queue.{tail_of}
use cs503_lab.Queue.Insert.{place}
use cs503_lab.Kernel.Chosen.{Chosen, next_run, put_ready-Chosen}
use cs503_lab.Kernel.{is_curr, Kernel, put_ready, resched, make_ready}
use cs503_lab.Kernel.Invariant.{
  IsKernel, Loose, Layout, Keyed, Scheduled, Counted, deficit, is_bad_pid-lt,
}
use cs503_lab.Kernel.Ready.{readied, put_ready-IsKernel, put_ready-Keyed}
use cs503_lab.Kernel.Resched.{SameFields, is_eligible}
use cs503_lab.Kernel.Schedule.{resched-Switched}

-- A process runs, no reschedule is deferred, and `c` lists the queues.
pub record Running (k : Kernel) (c : ℕ → List ℕ) : Type 0 where
  pub kernel : IsKernel k c
  pub keyed : Keyed k c
  pub counted : Counted k c
  pub scheduled : Scheduled k c
  pub immediate : slt 0 k.ndefers ≡ false

-- The counts hold still if no list of a semaphore changes.
pub Counted-others :
    {k k' : Kernel} {c c' : ℕ → List ℕ}
    → Layout k.readylist k.sleepq k.sem_queue
    → Counted k c
    → ((q : ℕ) → q ≢ k.readylist → c' q ≡ c q)
    → (k'.sem_count ≡ k.sem_count) × (k'.sem_used ≡ k.sem_used)
    → k'.sem_queue ≡ k.sem_queue
    → Counted k' c'
Counted-others {k} {k'} {c} {c'} layout n others sems queue = record {
  counts = λ s lt u.
      let e = others (k.sem_queue s) (layout.ready_sem s lt) in
      let f : k'.sem_queue s ≡ k.sem_queue s = ap (λ g. g s) queue in
      let h : k'.sem_count s ≡ k.sem_count s = ap (λ g. g s) sems.0 in
      let old = n.counts s lt (sym (ap (λ g. g s) sems.1) ∙ u) in
      (rw h old.0, ap length (ap c' f ∙ e) ∙ old.1 ∙ ap deficit (sym h));
  unused = λ s lt u.
      let f : k'.sem_queue s ≡ k.sem_queue s = ap (λ g. g s) queue in
      ap c' f
      ∙ others (k.sem_queue s) (layout.ready_sem s lt)
      ∙ n.unused s lt (sym (ap (λ g. g s) sems.1) ∙ u);
}

-- The kernel `k'` after a reschedule: a process runs, and of the lists of `c` only the ready list
-- has changed.
pub record Resumed (k k' : Kernel) (c : ℕ → List ℕ) : Type 0 where
  pub lists : ℕ → List ℕ
  pub running : Running k' lists
  pub others : (q : ℕ) → q ≢ k.readylist → lists q ≡ c q
  pub sems : (k'.sem_count ≡ k.sem_count) × (k'.sem_used ≡ k.sem_used)
  pub fields : SameFields k.procs k'.procs
  pub kept : (a : ℕ) → is_eligible (k.procs.state a) ≡ false → k'.procs.state a ≡ k.procs.state a
  pub stays : (a : ℕ) → is_eligible (k.procs.state a) ≡ true → is_eligible (k'.procs.state a) ≡ true

module _ {k : Kernel} {c : ℕ → List ℕ} (v : IsKernel k c) (keyed : Keyed k c) (n : Counted k c)
    (now : slt 0 k.ndefers ≡ false) where
  pub resched-Resumed : Resumed k (resched k) c
  resched-Resumed =
      let s = resched-Switched v keyed now in
      record {
        lists = s.lists;
        running = record {
          kernel = s.kernel;
          keyed = s.keyed;
          counted = Counted-others v.layout n s.others s.sems s.queues.0;
          scheduled = s.scheduled;
          immediate = subst (λ d. slt 0 d ≡ false) (sym s.defers) now;
        };
        others = s.others;
        sems = s.sems;
        fields = s.fields;
        kept = s.kept;
        stays = s.stays;
      }

-- The kernel `k'` after process `p` was made ready in `k`.
pub record Readied (p : ℕ) (k k' : Kernel) (c : ℕ → List ℕ) : Type 0 where
  pub lists : ℕ → List ℕ
  pub running : Running k' lists
  pub others : (q : ℕ) → q ≢ k.readylist → lists q ≡ c q
  pub sems : (k'.sem_count ≡ k.sem_count) × (k'.sem_used ≡ k.sem_used)
  pub fields : SameFields k.procs k'.procs
  pub kept :
      (a : ℕ) → a ≢ p → is_eligible (k.procs.state a) ≡ false → k'.procs.state a ≡ k.procs.state a
  pub woken : is_eligible (k'.procs.state p) ≡ true

module _ {k : Kernel} {c : ℕ → List ℕ} (p : ℕ) (v : Loose p k c) (keyed : Keyed k c)
    (n : Counted k c) (idle : Idle c p) where
  put_ready-Counted : Counted (put_ready p k) (readied k p c)
  unfolding put_ready
  put_ready-Counted =
      Counted-others v.layout n (λ q ne. put_ne c k.readylist _ q ne) (refl, refl) refl

  put_ready-ndefers : slt 0 k.ndefers ≡ false → slt 0 (put_ready p k).ndefers ≡ false
  unfolding put_ready
  put_ready-ndefers now = now

  pub resched-put_ready :
      slt 0 k.ndefers ≡ false → Resumed (put_ready p k) (resched (put_ready p k)) (readied k p c)
  resched-put_ready now =
      resched-Resumed (put_ready-IsKernel p v idle) (put_ready-Keyed p v idle keyed)
        put_ready-Counted (put_ready-ndefers now)

  -- In a well formed kernel with no reschedule deferred, `ready` of a process whose table entry is in
  -- use and that is in no queue returns OK and leaves the kernel well formed, with the process ready or
  -- running and all queues but the ready list as they were. The process joins the ready list behind
  -- exactly those of at least its priority. Then the current process goes on if its priority exceeds
  -- that of the first in the list; if not, it joins the list in the same way, the first of the list
  -- runs, and the rest is the ready list that is left.
  pub make_ready-Readied :
      slt 0 k.ndefers ≡ false
      → is_free (k.procs.state p) ≡ false
      → ((make_ready p k).0 ≡ ok)
        × Readied p k (make_ready p k).1 c
        × Chosen k (make_ready p k).1 c (
            next_run
              (put k.queues.key p (k.procs.prio p))
              k.procs.prio
              (is_curr (put k.procs.state p PrState.ready k.currpid))
              k.currpid
              (tail_of k.readylist)
              (place k.queues.key (k.procs.prio p) p (c k.readylist)))
  unfolding make_ready
  make_ready-Readied now alive =
      rw (is_bad_pid-lt k.procs p idle.0 alive)
        (refl, readied_of (resched-put_ready now), put_ready-Chosen p v keyed idle now)
    where
      readied_of :
          Resumed (put_ready p k) (resched (put_ready p k)) (readied k p c)
          → Readied p k (resched (put_ready p k)) c
      readied_of m = record {
        lists = m.lists;
        running = m.running;
        others = λ q ne. m.others q ne ∙ put_ne c k.readylist _ q ne;
        sems = m.sems;
        fields = record {
          prio = m.fields.prio;
          sem = m.fields.sem;
          msg = m.fields.msg;
          has_msg = m.fields.has_msg;
        };
        kept = λ a ne e.
            let same : (put_ready p k).procs.state a ≡ k.procs.state a = ground arith in
            m.kept a (rw same e) ∙ same;
        woken = m.stays p (ground arith);
      }
