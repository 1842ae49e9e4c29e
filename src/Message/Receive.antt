-- ===== src/Message/Receive.antt =====
-- receive.c on a running kernel.
use cs503_lab.Base.{ℕ, ◌≡◌, refl, ap, ◌∙◌, ◌≢◌, false, List, arith, put, put_self}
use cs503_lab.Config.{PrState}
use cs503_lab.Kernel.{Kernel}
use cs503_lab.Kernel.Invariant.{IsKernel-Loose, home-Idle}
use cs503_lab.Kernel.Running.{Running, resched-Resumed, Counted-others}
use cs503_lab.Kernel.Leave.{Loose-park}
use cs503_lab.Message.{receive_wait}

-- Process `p` waits for a message in `k'`, in no queue.
pub record Awaits (p : ℕ) (k k' : Kernel) (c : ℕ → List ℕ) : Type 0 where
  pub lists : ℕ → List ℕ
  pub running : Running k' lists
  pub others : (q : ℕ) → q ≢ k.readylist → lists q ≡ c q
  pub state : k'.procs.state p ≡ PrState.recv
  pub no_msg : k'.procs.has_msg p ≡ false

-- `receive` by a process other than the null process that has no message: it waits for one, in no
-- queue, another process runs, and the kernel stays well formed; outside the ready list no queue
-- changes.
pub receive_wait-Awaits :
    {k : Kernel} {c : ℕ → List ℕ} (r : Running k c)
    → k.currpid ≢ 0
    → k.procs.has_msg k.currpid ≡ false
    → Awaits k.currpid k (receive_wait k) c
unfolding receive_wait
receive_wait-Awaits {k} {c} r ne none =
    let p = k.currpid in
    let idle = home-Idle r.kernel p r.kernel.curr_in (λ q iq. ground (arith, r.scheduled.runs)) in
    let m =
      resched-Resumed (Loose-park p PrState.recv (IsKernel-Loose p r.kernel) idle ne refl) r.keyed
        (Counted-others r.kernel.layout r.counted (λ q nq. refl) (refl, refl) refl) r.immediate in
    rw none (record {
      lists = m.lists;
      running = m.running;
      others = m.others;
      state =
          let s : put k.procs.state p PrState.recv p ≡ PrState.recv =
            put_self k.procs.state p PrState.recv in
          m.kept p (rw s) ∙ s;
      no_msg = ap (λ f. f p) m.fields.has_msg ∙ none;
    })
