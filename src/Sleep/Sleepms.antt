-- ===== src/Sleep/Sleepms.antt =====
-- sleep.c on a running kernel: the caller stands in the sleep queue, and another process runs.
use cs503_lab.Base.{
  ℕ, ◌+◌, ◌-◌, ◌^◌, ◌≤◌, ◌<◌, ◌≡◌, refl, sym, ap, ◌∙◌, ◌≢◌, inl, inr, true, false, ◌||◌, List, [],
  ◌∷◌, arith, ◌==◌, has, put, put_self, put_ne, Bool-cases, length,
}
use mathlib.Core.Path.{subst}
use cs503_lab.Config.{nproc, ok, syserr, PrState, is_free}
use cs503_lab.Queue.{QTab, insertd}
use cs503_lab.Queue.Contents.{Holds, Idle, Holds-OnlyIn}
use cs503_lab.Queue.Insert.{Desc}
use cs503_lab.Queue.Delta.{Delays, delay_place, delay_keys, delay_keys-outside, insertd-delay_place}
use cs503_lab.Kernel.{Kernel, set_state, resched}
use cs503_lab.Kernel.Invariant.{IsKernel, Counted, Keyed, home-Idle, is_bad_pid-lt}
use cs503_lab.Kernel.Running.{Running, Resumed, resched-Resumed}
use cs503_lab.Sleep.{sleepms}

has-delay_place :
    (keys : ℕ → ℕ) (k p a : ℕ) (l : List ℕ) → has a (delay_place keys k p l) ≡ (a == p || has a l)
has-delay_place keys k p a [] = ground arith
has-delay_place keys k p a (x ∷ xs) = ground (arith, has-delay_place keys (k - keys x) p a xs)

-- Keys that are the same on a list keep its order.
Desc-same :
    (keys keys' : ℕ → ℕ) (l : List ℕ)
    → ((a : ℕ) → has a l ≡ true → keys' a ≡ keys a)
    → Desc keys l
    → Desc keys' l
Desc-same keys keys' [] same d = tt
Desc-same keys keys' (x ∷ []) same d = tt
Desc-same keys keys' (x ∷ y ∷ r) same d =
    let e = same x (ground arith) in
    let f = same y (ground arith) in
    (rw (e, f) d.0, Desc-same keys keys' (y ∷ r) (λ a m. same a (ground arith)) d.1)

module _ {k : Kernel} {c : ℕ → List ℕ} (r : Running k c) (delay : ℕ) (small : delay < 2 ^ 31)
    (delays : Delays k.queues.key (c k.sleepq)) (ne : k.currpid ≢ 0) where
  idle : Idle c k.currpid
  idle = home-Idle r.kernel k.currpid r.kernel.curr_in (λ q iq. ground (arith, r.scheduled.runs))

  abbrev after : QTab
  after = (insertd k.procs k.currpid k.sleepq delay k.queues).1

  -- The lists with the caller behind all that wake no later.
  abbrev pub bedded : ℕ → List ℕ
  bedded = put c k.sleepq (delay_place k.queues.key delay k.currpid (c k.sleepq))

  abbrev laid : Kernel
  laid = set_state k.currpid PrState.sleep (record k { queues = after })

  inserted :
      ((insertd k.procs k.currpid k.sleepq delay k.queues).0 ≡ ok)
      × Holds after bedded
      × (after.key ≡ delay_keys k.queues.key delay k.currpid (c k.sleepq))
  inserted =
      insertd-delay_place r.kernel.holds k.sleepq r.kernel.layout.sleep_id k.currpid idle delay
        delays small k.procs
        (is_bad_pid-lt k.procs k.currpid r.kernel.curr_in (ap is_free r.scheduled.runs))

  same_key : (a : ℕ) → has a (k.currpid ∷ c k.sleepq) ≡ false → after.key a ≡ k.queues.key a
  same_key a out =
      ap (λ f. f a) inserted.2 ∙ delay_keys-outside k.queues.key delay k.currpid (c k.sleepq) a out

  same_head : (a : ℕ) → nproc ≤ a → after.key a ≡ k.queues.key a
  same_head a le = same_key a (elim (Bool-cases (has a (c k.sleepq))) [
    | inl m ↦ absurd (omega (arith, r.kernel.holds.pids k.sleepq a r.kernel.layout.sleep_id m))
    | inr out ↦ ground (arith, r.kernel.curr_in)
  ])

  same_ready : (a : ℕ) → has a (c k.readylist) ≡ true → after.key a ≡ k.queues.key a
  same_ready a m =
      let apart =
        Holds-OnlyIn k.readylist a r.kernel.holds r.kernel.layout.ready_id m k.sleepq
          r.kernel.layout.sleep_id (λ e. r.kernel.layout.ready_sleep (sym e)) in
      same_key a (ground (arith, idle.1 k.readylist r.kernel.layout.ready_id))

  ready_list : bedded k.readylist ≡ c k.readylist
  ready_list = put_ne c k.sleepq _ k.readylist r.kernel.layout.ready_sleep

  laid-IsKernel : IsKernel laid bedded
  laid-IsKernel = record {
    holds = inserted.1;
    bounded = record {
      head = λ q iq. same_head q iq.0 ∙ r.kernel.bounded.head q iq;
      tail = λ q iq. same_head (q + 1) (omega (arith, iq)) ∙ r.kernel.bounded.tail q iq;
    };
    layout = r.kernel.layout;
    homes = λ a q lt iq. ground (
      arith,
      r.kernel.homes a q lt iq,
      has-delay_place k.queues.key delay k.currpid a (c k.sleepq),
      idle.1 q iq,
    );
    sorted =
        subst (Desc after.key) (sym ready_list)
          (Desc-same k.queues.key after.key (c k.readylist) same_ready r.kernel.sorted);
    one_curr = λ a lt e. r.kernel.one_curr a lt (ground arith);
    curr_in = r.kernel.curr_in;
    null_in = ground (arith, r.kernel.null_in);
    waits_in = λ a lt e. r.kernel.waits_in a lt (ground arith);
    prios = r.kernel.prios;
  }

  laid-Keyed : Keyed laid bedded
  laid-Keyed a m =
      let m' : has a (c k.readylist) ≡ true = subst (λ l. has a l ≡ true) ready_list m in
      same_ready a m' ∙ r.keyed a m'

  laid-Counted : Counted laid bedded
  laid-Counted = record {
    counts = λ s lt u.
        let e : bedded (k.sem_queue s) ≡ c (k.sem_queue s) =
          put_ne c k.sleepq _ (k.sem_queue s) (r.kernel.layout.sleep_sem s lt) in
        ((r.counted.counts s lt u).0, ap length e ∙ (r.counted.counts s lt u).1);
    unused = λ s lt u.
        put_ne c k.sleepq _ (k.sem_queue s) (r.kernel.layout.sleep_sem s lt)
        ∙ r.counted.unused s lt u;
  }

  -- The caller sleeps in `k'`; outside the ready list the queues are those of `bedded`.
  pub record Slept (k' : Kernel) : Type 0 where
    pub lists : ℕ → List ℕ
    pub running : Running k' lists
    pub asleep : lists k.sleepq ≡ delay_place k.queues.key delay k.currpid (c k.sleepq)
    pub others : (q : ℕ) → q ≢ k.readylist → q ≢ k.sleepq → lists q ≡ c q
    pub state : k'.procs.state k.currpid ≡ PrState.sleep

  Resumed-Slept : Resumed laid (resched laid) bedded → Slept (resched laid)
  Resumed-Slept m = record {
    lists = m.lists;
    running = m.running;
    asleep = m.others k.sleepq (λ e. r.kernel.layout.ready_sleep (sym e)) ∙ put_self c k.sleepq _;
    others = λ q nr ns. m.others q nr ∙ put_ne c k.sleepq _ q ns;
    state =
        let s : put k.procs.state k.currpid PrState.sleep k.currpid ≡ PrState.sleep =
          put_self k.procs.state k.currpid PrState.sleep in
        m.kept k.currpid (rw s) ∙ s;
  }

  -- `sleepms` for a positive time below 2 ^ 31 ms, by a process other than the null process, when no
  -- sleeper's delay is negative: the call succeeds, the caller sleeps behind all that wake no later,
  -- another process runs, and the kernel stays well formed; no queue but the ready list and the
  -- sleep queue changes.
  pub sleepms_lem : delay ≢ 0 → ((sleepms delay k).0 ≡ ok) × Slept (sleepms delay k).1
  unfolding sleepms
  sleepms_lem pos =
      let some : (delay == 0) ≡ false = ground arith in
      let accepted : ((insertd k.procs k.currpid k.sleepq delay k.queues).0 == syserr) ≡ false =
        ap (λ i. i == syserr) inserted.0 in
      rw (some, accepted)
        (refl, Resumed-Slept (resched-Resumed laid-IsKernel laid-Keyed laid-Counted r.immediate))
