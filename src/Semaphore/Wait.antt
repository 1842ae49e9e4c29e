-- ===== src/Semaphore/Wait.antt =====
-- wait.c against the lists: the caller goes on, or stands last on the semaphore's queue.
use cs503_lab.Base.{
  ℕ, ◌≤◌, ◌<◌, ◌≡◌, refl, sym, ◌≢◌, inl, inr, true, false, List, [], ◌∷◌, ◌++◌, arith,
  if◌then◌else◌, has-append, length-append, put, put_same, Bool-cases, slt, sub32,
}
use mathlib.Core.Path.{subst}
use cs503_lab.Config.{nproc, nsem, ok, PrState}
use cs503_lab.Queue.Contents.{Holds, Idle, length-contents}
use cs503_lab.Queue.Insert.{Desc}
use cs503_lab.Queue.Enqueue.{enqueue-append, enqueue-key}
use cs503_lab.Kernel.{Kernel, resched}
use cs503_lab.Kernel.Invariant.{IsKernel, Keyed, NoCurr, Counted, deficit, home-Idle, is_bad_pid-lt}
use cs503_lab.Kernel.Resched.{Bounded-key}
use cs503_lab.Kernel.Running.{Running, resched-Resumed}
use cs503_lab.Semaphore.{set_count, block_on, wait}
use cs503_lab.Semaphore.Counts.{
  deficit-dec_blocks, deficit-dec_passes, sub32-lt, is_bad_sem-lt, Counted-put,
}

-- Changing a count is no matter of the lists.
pub set_count-IsKernel :
    {k : Kernel} {c : ℕ → List ℕ} (s n : ℕ) → IsKernel k c → IsKernel (set_count s n k) c
set_count-IsKernel s n v = record {
  holds = v.holds;
  bounded = v.bounded;
  layout = v.layout;
  homes = v.homes;
  sorted = v.sorted;
  one_curr = v.one_curr;
  curr_in = v.curr_in;
  null_in = v.null_in;
  waits_in = v.waits_in;
  prios = v.prios;
}

-- The lists with `p` behind all others that wait on semaphore `s`.
abbrev pub waited : Kernel → ℕ → ℕ → (ℕ → List ℕ) → ℕ → List ℕ
waited k s p c = put c (k.sem_queue s) (c (k.sem_queue s) ++ p ∷ [])

module _ {k : Kernel} {c : ℕ → List ℕ} (v : IsKernel k c) (s : ℕ) (lt : s < nsem)
    (runs : k.procs.state k.currpid ≡ PrState.curr) where
  idle : Idle c k.currpid
  idle = home-Idle v k.currpid v.curr_in (λ q iq. ground (arith, runs))

  block_on-enqueue :
      Holds (block_on s k).queues (waited k s k.currpid c)
      × ((block_on s k).queues.key ≡ k.queues.key)
  unfolding block_on
  block_on-enqueue =
      let procs = record (k.procs) {
        state = put k.procs.state k.currpid PrState.wait;
        sem = put k.procs.sem k.currpid s;
      } in
      (
        (enqueue-append v.holds (k.sem_queue s) (v.layout.sem_id s lt) k.currpid idle procs
            (is_bad_pid-lt procs k.currpid v.curr_in (ground arith))).1,
        enqueue-key procs k.currpid (k.sem_queue s) k.queues,
      )

  pub block_on-IsKernel : k.currpid ≢ 0 → IsKernel (block_on s k) (waited k s k.currpid c)
  unfolding block_on
  block_on-IsKernel ne = record {
    holds = block_on-enqueue.0;
    bounded = Bounded-key (block_on s k).queues v.bounded block_on-enqueue.1;
    layout = v.layout;
    homes = λ a q al iq.
        ground (
          arith,
          v.homes a q al iq,
          has-append a (c (k.sem_queue s)) (k.currpid ∷ []),
          idle.1 q iq,
        );
    sorted =
        subst (λ f. Desc f (waited k s k.currpid c k.readylist)) (sym block_on-enqueue.1)
          (ground (arith, v.sorted, v.layout.ready_sem s lt));
    one_curr = λ a al e. v.one_curr a al (ground arith);
    curr_in = v.curr_in;
    null_in = ground (arith, v.null_in);
    waits_in = λ a al e. ground (arith, v.waits_in a al);
    prios = v.prios;
  }

  block_on-NoCurr : NoCurr (block_on s k)
  unfolding block_on
  block_on-NoCurr a al = ground (arith, v.one_curr a al)

  block_on-Keyed : Keyed k c → Keyed (block_on s k) (waited k s k.currpid c)
  unfolding block_on
  block_on-Keyed keyed a m =
      subst (λ f. f a ≡ k.procs.prio a) (sym block_on-enqueue.1)
        (ground (arith, keyed a, v.layout.ready_sem s lt))

-- The kernel after a call on semaphore `s`: its count is `n`, a process runs, and outside the ready
-- list the queues are those of `c'`.
pub record SemCall (k k' : Kernel) (s n : ℕ) (c' : ℕ → List ℕ) : Type 0 where
  pub lists : ℕ → List ℕ
  pub running : Running k' lists
  pub others : (q : ℕ) → q ≢ k.readylist → lists q ≡ c' q
  pub count : k'.sem_count ≡ put k.sem_count s n

abbrev pub lowered : Kernel → ℕ → ℕ
lowered k s = sub32 (k.sem_count s) 1

module _ {k : Kernel} {c : ℕ → List ℕ} (r : Running k c) (s : ℕ) (lt : s < nsem)
    (used : k.sem_used s ≡ true) (ne : k.currpid ≢ 0) where
  small : deficit (k.sem_count s) ≤ nproc
  small = omega (
    arith,
    length-contents (k.sem_queue s) r.kernel.holds (r.kernel.layout.sem_id s lt),
    (r.counted.counts s lt used).1,
  )

  blocks :
      slt (lowered k s) 0 ≡ true
      → SemCall k
          (resched (block_on s (set_count s (lowered k s) k)))
          s
          (lowered k s)
          (waited k s k.currpid c)
  unfolding block_on
  blocks neg =
      let k' = set_count s (lowered k s) k in
      let v = set_count-IsKernel s (lowered k s) r.kernel in
      let runs = r.scheduled.runs in
      let n : Counted (block_on s k') (waited k s k.currpid c) =
        Counted-put s (lowered k s) (c (k.sem_queue s) ++ k.currpid ∷ []) r.kernel.layout r.counted
          lt used (sub32-lt (k.sem_count s) 1)
          (omega (
            arith,
            length-append {0} (c (k.sem_queue s)) (k.currpid ∷ []),
            (r.counted.counts s lt used).1,
            deficit-dec_blocks (k.sem_count s) (r.counted.counts s lt used).0 small neg,
          ))
          refl (refl, refl) in
      let m =
        resched-Resumed (block_on-IsKernel v s lt runs ne) (block_on-Keyed v s lt runs r.keyed) n
          r.immediate in
      record { lists = m.lists; running = m.running; others = m.others; count = m.sems.0 }

  passes : slt (lowered k s) 0 ≡ false → SemCall k (set_count s (lowered k s) k) s (lowered k s) c
  passes nonneg =
      let d = deficit-dec_passes (k.sem_count s) (r.counted.counts s lt used).0 nonneg small in
      let n : Counted (set_count s (lowered k s) k) (put c (k.sem_queue s) (c (k.sem_queue s))) =
        Counted-put s (lowered k s) (c (k.sem_queue s)) r.kernel.layout r.counted lt used
          (sub32-lt (k.sem_count s) 1) (omega (arith, d, (r.counted.counts s lt used).1)) refl
          (refl, refl) in
      record {
        lists = c;
        running = record {
          kernel = set_count-IsKernel s (lowered k s) r.kernel;
          keyed = r.keyed;
          counted = subst (Counted (set_count s (lowered k s) k)) (put_same c (k.sem_queue s)) n;
          scheduled = record { runs = r.scheduled.runs; first = r.scheduled.first };
          immediate = r.immediate;
        };
        others = λ q ne. refl;
        count = refl;
      }

  pub wait_lem :
      ((wait s k).0 ≡ ok)
      × SemCall k
          (wait s k).1
          s
          (lowered k s)
          (if slt (lowered k s) 0 then waited k s k.currpid c else c)
  unfolding wait
  wait_lem = elim (Bool-cases (slt (lowered k s) 0)) [
    | inl neg ↦ rw (is_bad_sem-lt s lt, used, neg) (refl, blocks neg)
    | inr nonneg ↦ rw (is_bad_sem-lt s lt, used, nonneg) (refl, passes nonneg)
  ]
