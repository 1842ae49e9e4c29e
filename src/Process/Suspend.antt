-- ===== src/Process/Suspend.antt =====
-- `suspend` and `resume` on a running kernel.
use cs503_lab.Base.{
  ℕ, ◌≤◌, ◌<◌, ◌≡◌, refl, sym, ap, ◌∙◌, ◌≢◌, inl, inr, true, false, ◌||◌, ◌&&◌, not, List, arith,
  ◌==◌, has, has-remove-of, put, put_self, put_ne, Bool-cases, bias, remove,
}
use mathlib.Core.Path.{subst}
use cs503_lab.Config.{nproc, syserr, PrState, is_bad_pid}
use cs503_lab.Queue.{getitem}
use cs503_lab.Queue.Remove.{getitem-Holds}
use cs503_lab.Queue.Ends.{getitem-key}
use cs503_lab.Kernel.{Kernel, is_curr, set_state}
use cs503_lab.Kernel.Invariant.{IsKernel-Loose, home-Idle, ready-mem, is_bad_pid-lt}
use cs503_lab.Kernel.Resched.{is_eligible}
use cs503_lab.Kernel.Running.{Running, Readied, resched-Resumed, make_ready-Readied, Counted-others}
use cs503_lab.Kernel.Leave.{Left, Loose-Left, Loose-park}
use cs503_lab.Process.{is_ready, is_susp, resume, suspend}

module _ {k : Kernel} {c : ℕ → List ℕ} (r : Running k c) (p : ℕ) (lt : p < nproc) where
  -- `resume` of a suspended process makes it ready and reschedules, and returns its priority.
  pub resume_lem :
      k.procs.state p ≡ PrState.susp
      → ((resume p k).0 ≡ k.procs.prio p) × Readied p k (resume p k).1 c
  unfolding resume
  resume_lem e =
      let good = is_bad_pid-lt k.procs p lt (ground arith) in
      let test : is_susp (k.procs.state p) ≡ true = ground arith in
      rw (good, test)
        (
          refl,
          (make_ready-Readied p (IsKernel-Loose p r.kernel) r.keyed r.counted
              (home-Idle r.kernel p lt (λ q iq. ground arith)) r.immediate (ground arith)).1,
        )

  getitem-Left : has p (c k.readylist) ≡ true → Left p k.readylist k.queues (getitem p k.queues).1 c
  getitem-Left m = record {
    holds = getitem-Holds r.kernel.holds k.readylist r.kernel.layout.ready_id p m;
    keys = getitem-key p k.queues;
  }

  abbrev unready : Kernel
  unready = set_state p PrState.susp (record k { queues = (getitem p k.queues).1 })

  unready-Running :
      k.procs.state p ≡ PrState.ready
      → p ≢ 0
      → Running unready (put c k.readylist (remove p (c k.readylist)))
  unready-Running e ne =
      let m = ready-mem r.kernel p lt e in
      let l =
        Loose-Left p k.readylist (getitem p k.queues).1 r.kernel r.kernel.layout.ready_id m
          (getitem-Left m) in
      let keys = getitem-key p k.queues in
      let inside : (a : ℕ)
          → has a (put c k.readylist (remove p (c k.readylist)) k.readylist) ≡ true
          → has a (c k.readylist) ≡ true =
        λ a i.
          has-remove-of a p (c k.readylist)
            (subst (λ l. has a l ≡ true) (put_self c k.readylist _) i) in
      record {
        kernel = Loose-park p PrState.susp l.0 l.1 ne refl;
        keyed = λ a i. subst (λ f. f a ≡ k.procs.prio a) (sym keys) (r.keyed a (inside a i));
        counted =
            Counted-others r.kernel.layout r.counted (λ q nq. put_ne c k.readylist _ q nq)
              (refl, refl) refl;
        scheduled = record {
          runs = ground (arith, r.scheduled.runs);
          first = λ a i.
              subst (λ f. bias (f a) ≤ bias (k.procs.prio k.currpid)) (sym keys)
                (r.scheduled.first a (inside a i));
        };
        immediate = r.immediate;
      }

  -- A call that leaves the suspended process in no list, with another running if it was current.
  pub record Suspended (k' : Kernel) : Type 0 where
    pub lists : ℕ → List ℕ
    pub running : Running k' lists
    pub others : (q : ℕ) → q ≢ k.readylist → lists q ≡ c q
    pub state : k'.procs.state p ≡ PrState.susp

  module _ (ne : p ≢ 0) where
    good : is_eligible (k.procs.state p) ≡ true → (is_bad_pid k.procs p || p == 0) ≡ false
    good e = rw (is_bad_pid-lt k.procs p lt (ground arith)) (ground arith)

    suspend-ready :
        k.procs.state p ≡ PrState.ready
        → ((suspend p k).0 ≡ k.procs.prio p) × Suspended (suspend p k).1
    unfolding suspend
    suspend-ready e =
        let is : is_ready (k.procs.state p) ≡ true = ground arith in
        let isnt : is_curr (k.procs.state p) ≡ false = ground arith in
        rw (good (ground arith), is, isnt)
          (
            refl,
            record {
              lists = put c k.readylist (remove p (c k.readylist));
              running = unready-Running e ne;
              others = λ q nq. put_ne c k.readylist _ q nq;
              state = ground arith;
            },
          )

    suspend-curr :
        k.procs.state p ≡ PrState.curr
        → ((suspend p k).0 ≡ k.procs.prio p) × Suspended (suspend p k).1
    unfolding suspend
    suspend-curr e =
        let isnt : is_ready (k.procs.state p) ≡ false = ground arith in
        let is : is_curr (k.procs.state p) ≡ true = ground arith in
        let idle = home-Idle r.kernel p lt (λ q iq. ground arith) in
        let m =
          resched-Resumed (Loose-park p PrState.susp (IsKernel-Loose p r.kernel) idle ne refl)
            r.keyed (Counted-others r.kernel.layout r.counted (λ q nq. refl) (refl, refl) refl)
            r.immediate in
        rw (good (ground arith), is, isnt)
          (
            ap (λ f. f p) m.fields.prio,
            record {
              lists = m.lists;
              running = m.running;
              others = m.others;
              state =
                  let s : put k.procs.state p PrState.susp p ≡ PrState.susp =
                    put_self k.procs.state p PrState.susp in
                  m.kept p (rw s) ∙ s;
            },
          )

    -- `suspend` of a process other than the null process that is current or ready: it leaves the
    -- ready list, is suspended, its priority is returned and the kernel stays well formed.
    pub suspend_lem :
        is_eligible (k.procs.state p) ≡ true
        → ((suspend p k).0 ≡ k.procs.prio p) × Suspended (suspend p k).1
    suspend_lem e = eligible (k.procs.state p) refl e
      where
        eligible :
            (x : PrState)
            → k.procs.state p ≡ x
            → is_eligible x ≡ true
            → ((suspend p k).0 ≡ k.procs.prio p) × Suspended (suspend p k).1
        eligible PrState.curr s e = suspend-curr s
        eligible PrState.ready s e = suspend-ready s
        eligible _ s e = absurd (cc)

is_eligible-tests : (x : PrState) → (not (is_curr x) && not (is_ready x)) ≡ not (is_eligible x)
is_eligible-tests PrState.curr = refl
is_eligible-tests PrState.ready = refl
is_eligible-tests PrState.free = refl
is_eligible-tests PrState.recv = refl
is_eligible-tests PrState.sleep = refl
is_eligible-tests PrState.susp = refl
is_eligible-tests PrState.wait = refl
is_eligible-tests PrState.rectim = refl

-- `suspend` refuses a number that is no process, the null process, and a process that is neither
-- current nor ready: it returns SYSERR and changes nothing.
pub suspend_refused :
    (p : ℕ) (k : Kernel)
    → ((is_bad_pid k.procs p || p == 0) || not (is_eligible (k.procs.state p))) ≡ true
    → suspend p k ≡ (syserr, k)
unfolding suspend
suspend_refused p k bad = elim (Bool-cases (is_bad_pid k.procs p || p == 0)) [
  | inl b ↦ rw b
  | inr b ↦
      let e : not (is_eligible (k.procs.state p)) ≡ true =
        subst (λ x. (x || not (is_eligible (k.procs.state p))) ≡ true) b bad in
      rw (b, is_eligible-tests (k.procs.state p), e)
]
