-- ===== src/Process/Priority.antt =====
-- chprio.c on a running kernel.
use cs503_lab.Base.{
  ℕ, ◌<◌, ◌≡◌, refl, sym, ◌∙◌, ◌≢◌, inl, inr, true, false, List, arith, ◌==◌, has, put, put_self,
  Bool-cases, slt,
}
use cs503_lab.Config.{nproc, PrState, min_key, is_free}
use cs503_lab.Kernel.{Kernel}
use cs503_lab.Kernel.Invariant.{IsKernel, Keyed, ready-mem, is_bad_pid-lt}
use cs503_lab.Kernel.Resched.{is_eligible}
use cs503_lab.Kernel.Running.{Running}
use cs503_lab.Process.{chprio}

module _ {k : Kernel} {c : ℕ → List ℕ} (r : Running k c) (p prio : ℕ) (lt : p < nproc) where
  abbrev changed : Kernel
  changed = record k { procs = record (k.procs) { prio = put k.procs.prio p prio } }

  changed-IsKernel : slt min_key prio ≡ true → IsKernel changed c
  changed-IsKernel above = record {
    holds = r.kernel.holds;
    bounded = r.kernel.bounded;
    layout = r.kernel.layout;
    homes = r.kernel.homes;
    sorted = r.kernel.sorted;
    one_curr = r.kernel.one_curr;
    curr_in = r.kernel.curr_in;
    null_in = r.kernel.null_in;
    waits_in = r.kernel.waits_in;
    prios = λ a al. elim (Bool-cases (a == p)) [
      | inl e ↦ rw e above
      | inr e ↦ rw e (r.kernel.prios a al)
    ];
  }

  not_listed : is_eligible (k.procs.state p) ≡ false → has p (c k.readylist) ≡ false
  not_listed e = ground (
    arith,
    r.kernel.homes p k.readylist lt r.kernel.layout.ready_id,
    r.kernel.layout.ready_sleep,
    r.kernel.layout.ready_sem (k.procs.sem p),
    r.kernel.waits_in p lt,
  )

  -- `chprio` of a live process that is neither current nor ready, to a priority above the least
  -- number, returns the old priority, and the kernel stays well formed.
  pub chprio_lem :
      is_free (k.procs.state p) ≡ false
      → is_eligible (k.procs.state p) ≡ false
      → slt min_key prio ≡ true
      → ((chprio p prio k).0 ≡ k.procs.prio p)
        × ((chprio p prio k).1.procs.prio p ≡ prio)
        × Running (chprio p prio k).1 c
  unfolding chprio
  chprio_lem alive idle above =
      let out = not_listed idle in
      let differs : (a : ℕ) → has a (c k.readylist) ≡ true → (a == p) ≡ false =
        λ a m. ground arith in
      let other : (k.currpid == p) ≡ false = ground (arith, r.scheduled.runs) in
      rw (is_bad_pid-lt k.procs p lt alive) (
        refl,
        put_self k.procs.prio p prio,
        record {
          kernel = changed-IsKernel above;
          keyed = λ a m. rw (differs a m) (r.keyed a m);
          counted = record { counts = r.counted.counts; unused = r.counted.unused };
          scheduled = record {
            runs = r.scheduled.runs;
            first = λ a m. rw other (r.scheduled.first a m);
          };
          immediate = r.immediate;
        },
      )

  -- `chprio` of a ready process to another priority leaves the ready list and its keys as they
  -- were, so that the key of the process is no longer its priority.
  pub chprio-not_Keyed :
      k.procs.state p ≡ PrState.ready
      → prio ≢ k.procs.prio p
      → ((chprio p prio k).1.queues ≡ k.queues)
        × ((chprio p prio k).1.procs.prio p ≡ prio)
        × ¬ (Keyed (chprio p prio k).1 c)
  unfolding chprio
  chprio-not_Keyed e ne = rw (is_bad_pid-lt k.procs p lt (ground arith)) (
    refl,
    put_self k.procs.prio p prio,
    λ keyed.
        let m = ready-mem r.kernel p lt e in
        let new = keyed p m ∙ put_self k.procs.prio p prio in ne (sym new ∙ r.keyed p m),
  )
