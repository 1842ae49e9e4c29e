-- ===== src/Kernel/Chosen.antt =====
-- resched.c and ready.c: which process runs next, and the ready list that is left.
use mathlib.Core.Path.{fun_ext, subst}
use cs503_lab.Base.{
  ℕ, ◌≡◌, refl, sym, ap, ◌∙◌, inl, inr, Bool, true, false, List, if◌then◌else◌, put, put_self,
  put_same, Bool-cases, slt, arith,
}
use cs503_lab.Config.{PrState}
use cs503_lab.Queue.{first_id, tail_of}
use cs503_lab.Queue.Contents.{Holds, Idle}
use cs503_lab.Queue.Enqueue.{first_or}
use cs503_lab.Queue.Insert.{place, next-first_or}
use cs503_lab.Queue.Remove.{take_first}
use cs503_lab.Queue.Ends.{dequeue-take_first}
use cs503_lab.Kernel.{Kernel, is_curr, switch, put_ready, resched}
use cs503_lab.Kernel.Invariant.{IsKernel, IsKernel-Loose, Loose, Keyed}
use cs503_lab.Kernel.Ready.{readied, put_ready-insert, put_ready-IsKernel, put_ready-Keyed}
use cs503_lab.Kernel.Resched.{curr-Idle}

-- The process that runs after a reschedule with the ready list `l`, and the list that is left: a
-- current process `cur` goes on if its priority exceeds the first one's, and else joins the list behind
-- all of at least its priority, whose first runs.
abbrev pub next_run : (ℕ → ℕ) → (ℕ → ℕ) → Bool → ℕ → ℕ → List ℕ → ℕ × List ℕ
next_run keys prio running cur tail l =
    if running
    then (if slt (keys (first_or tail l)) (prio cur)
        then (cur, l)
        else take_first (place keys (prio cur) cur l))
    else take_first l

-- Process `r.0` runs, and the ready list is `r.1`; the other queues are those of `c`.
pub record Chosen (k k' : Kernel) (c : ℕ → List ℕ) (r : ℕ × List ℕ) : Type 0 where
  pub runs : k'.currpid ≡ r.0
  pub ready : Holds k'.queues (put c k.readylist r.1)

put-put {ℓ} : {A : Type ℓ} (f : ℕ → A) (i : ℕ) (v w : A) → put (put f i v) i w ≡ put f i w
put-put f i v w = fun_ext λ j. ground arith

module _ {k : Kernel} {c : ℕ → List ℕ} (v : IsKernel k c) where
  switch-Chosen : Chosen k (switch k) c (take_first (c k.readylist))
  unfolding switch
  switch-Chosen =
      let r = dequeue-take_first v.holds k.readylist v.layout.ready_id in
      record { runs = r.0; ready = r.1 }

  -- The current process joins the list, and the first of that runs.
  preempt-Chosen :
      Keyed k c
      → is_curr (k.procs.state k.currpid) ≡ true
      → Chosen k
          (switch (put_ready k.currpid k))
          c
          (take_first (place k.queues.key (k.procs.prio k.currpid) k.currpid (c k.readylist)))
  unfolding switch put_ready
  preempt-Chosen keyed runs =
      let cur = k.currpid in
      let idle = curr-Idle v keyed runs in
      let loose = IsKernel-Loose cur v in
      let l = place k.queues.key (k.procs.prio cur) cur (c k.readylist) in
      let r =
        dequeue-take_first (put_ready-insert cur loose idle).0 k.readylist v.layout.ready_id in
      let at = ap take_first (put_self c k.readylist l) in
      record {
        runs = r.0 ∙ ap (λ i. i.0) at;
        ready =
            subst (Holds _) (put-put c k.readylist l _ ∙ ap (λ i. put c k.readylist i.1) at) r.1;
      }

  pub resched-Chosen :
      Keyed k c
      → slt 0 k.ndefers ≡ false
      → Chosen k (resched k) c (
          next_run k.queues.key k.procs.prio
            (is_curr (k.procs.state k.currpid))
            k.currpid
            (tail_of k.readylist)
            (c k.readylist))
  unfolding resched
  resched-Chosen keyed now =
      let at : first_id k.queues k.readylist ≡ first_or (tail_of k.readylist) (c k.readylist) =
        next-first_or k.queues k.readylist (c k.readylist)
          (v.holds.chain k.readylist v.layout.ready_id) in
      let key = ap k.queues.key at in
      elim (Bool-cases (is_curr (k.procs.state k.currpid))) [
        | inl runs ↦
            elim (Bool-cases
              (slt (k.queues.key (first_id k.queues k.readylist)) (k.procs.prio k.currpid))) [
                | inl above ↦
                    let above' = ap (λ i. slt i (k.procs.prio k.currpid)) (sym key) ∙ above in
                    rw (now, runs, above, above')
                      (record {
                        runs = refl;
                        ready = subst (Holds k.queues) (sym (put_same c k.readylist)) v.holds;
                      })
                | inr below ↦
                    let below' = ap (λ i. slt i (k.procs.prio k.currpid)) (sym key) ∙ below in
                    rw (now, runs, below, below') (preempt-Chosen keyed runs)
              ]
        | inr stopped ↦ rw (now, stopped) switch-Chosen
      ]

-- The same after `p` joined the ready list
pub put_ready-Chosen :
    {k : Kernel} {c : ℕ → List ℕ} (p : ℕ) (v : Loose p k c) (keyed : Keyed k c) (idle : Idle c p)
    → slt 0 k.ndefers ≡ false
    → Chosen k (resched (put_ready p k)) c (
        next_run
          (put k.queues.key p (k.procs.prio p))
          k.procs.prio
          (is_curr (put k.procs.state p PrState.ready k.currpid))
          k.currpid
          (tail_of k.readylist)
          (place k.queues.key (k.procs.prio p) p (c k.readylist)))
unfolding put_ready
put_ready-Chosen {k} {c} p v keyed idle now =
    let l = place k.queues.key (k.procs.prio p) p (c k.readylist) in
    let next : (ℕ → ℕ) → List ℕ → ℕ × List ℕ = λ keys m.
      next_run keys k.procs.prio (is_curr (put k.procs.state p PrState.ready k.currpid)) k.currpid
        (tail_of k.readylist) m in
    let r = resched-Chosen (put_ready-IsKernel p v idle) (put_ready-Keyed p v idle keyed) now in
    let same =
      ap (λ keys. next keys (readied k p c k.readylist)) (put_ready-insert p v idle).1
      ∙ ap (next (put k.queues.key p (k.procs.prio p))) (put_self c k.readylist l) in
    record {
      runs = r.runs ∙ ap (λ i. i.0) same;
      ready =
          subst (Holds _) (put-put c k.readylist l _ ∙ ap (λ i. put c k.readylist i.1) same)
            r.ready;
    }
