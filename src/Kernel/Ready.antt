-- ===== src/Kernel/Ready.antt =====
-- ready.c up to its call of `resched`: a process goes on the ready list.
use cs503_lab.Base.{ℕ, ◌≡◌, sym, List, arith, put, put_self}
use mathlib.Core.Path.{subst}
use cs503_lab.Config.{PrState}
use cs503_lab.Queue.Contents.{Holds, Idle}
use cs503_lab.Queue.Insert.{Desc, place, place-Desc, has-place, insert-place, Bounded-put}
use cs503_lab.Kernel.{Kernel, set_state, put_ready}
use cs503_lab.Kernel.Invariant.{IsKernel, Loose, is_bad_pid-lt, Keyed}

-- The lists after `p` has gone on the ready list.
abbrev pub readied : Kernel → ℕ → (ℕ → List ℕ) → ℕ → List ℕ
readied k p c = put c k.readylist (place k.queues.key (k.procs.prio p) p (c k.readylist))

module _ {k : Kernel} {c : ℕ → List ℕ} (p : ℕ) (v : Loose p k c) (idle : Idle c p) where
  pub put_ready-insert :
      Holds (put_ready p k).queues (readied k p c)
      × ((put_ready p k).queues.key ≡ put k.queues.key p (k.procs.prio p))
  unfolding put_ready
  put_ready-insert =
      let procs = (set_state p PrState.ready k).procs in
      let good = is_bad_pid-lt procs p idle.0 (ground arith) in
      let r =
        insert-place v.holds v.bounded k.readylist v.layout.ready_id p idle (k.procs.prio p)
          (v.prios p idle.0) procs good in
      (r.1, r.2)

  -- A process that stands in no queue goes on the ready list, behind all of at least its priority.
  pub put_ready-IsKernel : IsKernel (put_ready p k) (readied k p c)
  unfolding put_ready
  put_ready-IsKernel = record {
    holds = put_ready-insert.0;
    bounded =
        Bounded-put (put_ready p k).queues p (k.procs.prio p) v.bounded idle.0 put_ready-insert.1;
    layout = v.layout;
    homes = λ a q lt iq. ground (
      arith,
      v.homes a q lt,
      idle.1 q iq,
      has-place k.queues.key (k.procs.prio p) p a (c k.readylist),
    );
    sorted =
        subst (λ f. Desc f (readied k p c k.readylist)) (sym put_ready-insert.1)
          (subst (Desc (put k.queues.key p (k.procs.prio p))) (sym (put_self c k.readylist _)) (
            place-Desc k.queues.key (k.procs.prio p) p (c k.readylist)
              (idle.1 k.readylist v.layout.ready_id) v.sorted));
    one_curr = λ a lt e. v.one_curr a lt (ground arith) (ground arith);
    curr_in = v.curr_in;
    null_in = ground (arith, v.null_in);
    waits_in = λ a lt e. v.waits_in a lt (ground arith) (ground arith);
    prios = v.prios;
  }

  pub put_ready-Keyed : Keyed k c → Keyed (put_ready p k) (readied k p c)
  unfolding put_ready
  put_ready-Keyed keyed = λ a m.
      subst (λ f. f a ≡ k.procs.prio a) (sym put_ready-insert.1)
        (ground (arith, keyed a, has-place k.queues.key (k.procs.prio p) p a (c k.readylist)))
