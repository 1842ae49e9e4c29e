-- ===== src/Message/Send.antt =====
-- send.c on a running kernel.
use cs503_lab.Base.{
  ℕ, ◌<◌, ◌≡◌, refl, ap, ◌∙◌, ◌≢◌, inl, inr, true, false, ◌||◌, not, List, arith, put_self,
  Bool-cases,
}
use cs503_lab.Config.{nproc, ok, is_free}
use cs503_lab.Kernel.{Kernel, make_ready}
use cs503_lab.Kernel.Invariant.{IsKernel-Loose, home-Idle, is_bad_pid-lt}
use cs503_lab.Kernel.Resched.{is_eligible}
use cs503_lab.Kernel.Running.{Running, Readied, make_ready-Readied}
use cs503_lab.Message.{is_recv, is_rectim, deliver, send}

-- A message is no matter of the lists.
deliver-Running :
    {k : Kernel} {c : ℕ → List ℕ} (p msg : ℕ) → Running k c → Running (deliver p msg k) c
deliver-Running p msg r = record {
  kernel = record {
    holds = r.kernel.holds;
    bounded = r.kernel.bounded;
    layout = r.kernel.layout;
    homes = r.kernel.homes;
    sorted = r.kernel.sorted;
    one_curr = r.kernel.one_curr;
    curr_in = r.kernel.curr_in;
    null_in = r.kernel.null_in;
    waits_in = r.kernel.waits_in;
    prios = r.kernel.prios;
  };
  keyed = r.keyed;
  counted = record { counts = r.counted.counts; unused = r.counted.unused };
  scheduled = record { runs = r.scheduled.runs; first = r.scheduled.first };
  immediate = r.immediate;
}

-- The kernel `k'` after `msg` was sent to process `p`.
pub record Sent (p msg : ℕ) (k k' : Kernel) (c : ℕ → List ℕ) : Type 0 where
  pub lists : ℕ → List ℕ
  pub running : Running k' lists
  pub others : (q : ℕ) → q ≢ k.readylist → lists q ≡ c q
  pub received : k'.procs.msg p ≡ msg
  pub pending : k'.procs.has_msg p ≡ true
  pub sems : k'.sem_count ≡ k.sem_count
  pub woken : (not (is_recv (k.procs.state p)) || is_eligible (k'.procs.state p)) ≡ true

module _ {k : Kernel} {c : ℕ → List ℕ} (r : Running k c) (p msg : ℕ) (lt : p < nproc) where
  Readied-Sent :
      is_recv (k.procs.state p) ≡ true
      → (k' : Kernel) → Readied p (deliver p msg k) k' c
      → Sent p msg k k' c
  Readied-Sent e k' m = record {
    lists = m.lists;
    running = m.running;
    others = m.others;
    received = ap (λ f. f p) m.fields.msg ∙ put_self k.procs.msg p msg;
    pending = ap (λ f. f p) m.fields.has_msg ∙ put_self k.procs.has_msg p true;
    sems = m.sems.0;
    woken = rw (e, m.woken) refl;
  }

  kept : is_recv (k.procs.state p) ≡ false → Sent p msg k (deliver p msg k) c
  kept e = record {
    lists = c;
    running = deliver-Running p msg r;
    others = λ q ne. refl;
    received = put_self k.procs.msg p msg;
    pending = put_self k.procs.has_msg p true;
    sems = refl;
    woken = rw e refl;
  }

  -- `send` to a live process that has no message and does not wait for one with a time limit: the
  -- message is the process's, the kernel stays well formed, and if the process waited for a message
  -- it is ready or current; outside the ready list no queue changes.
  pub send_lem :
      is_free (k.procs.state p) ≡ false
      → k.procs.has_msg p ≡ false
      → is_rectim (k.procs.state p) ≡ false
      → ((send p msg k).0 ≡ ok) × Sent p msg k (send p msg k).1 c
  unfolding send
  send_lem alive none untimed =
      let good = is_bad_pid-lt k.procs p lt alive in
      elim (Bool-cases (is_recv (k.procs.state p))) [
        | inl e ↦ rw (good, alive, none, e) (refl, Readied-Sent e _ (wake e))
        | inr e ↦ rw (good, alive, none, e, untimed) (refl, kept e)
      ]
    where
      wake :
          is_recv (k.procs.state p) ≡ true
          → Readied p (deliver p msg k) (make_ready p (deliver p msg k)).1 c
      wake e =
          let d = deliver-Running p msg r in
          (make_ready-Readied p (IsKernel-Loose p d.kernel) d.keyed d.counted
            (home-Idle d.kernel p lt (λ q iq. ground arith)) d.immediate alive).1
