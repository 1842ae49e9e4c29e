-- ===== src/Semaphore/Signal.antt =====
-- signal.c against the lists: the first of the semaphore's queue is released.
use cs503_lab.Base.{
  ℕ, ◌-◌, ◌^◌, ◌<◌, ◌≡◌, refl, sym, ap, ◌∙◌, ◌≢◌, inl, inr, true, false, ◌||◌, not, List, [], ◌∷◌,
  arith, if◌then◌else◌, has, length, put, put_same, Bool-cases, slt, add32, remove, length-remove,
}
use mathlib.Core.Path.{subst}
use cs503_lab.Config.{nsem, ok, PrState}
use cs503_lab.Queue.{QTab, dequeue}
use cs503_lab.Queue.Contents.{Holds}
use cs503_lab.Queue.Remove.{take_first}
use cs503_lab.Queue.Ends.{dequeue-take_first, dequeue-key}
use cs503_lab.Kernel.{Kernel, make_ready}
use cs503_lab.Kernel.Invariant.{Keyed, Counted}
use cs503_lab.Kernel.Resched.{is_eligible}
use cs503_lab.Kernel.Running.{Running, Readied, make_ready-Readied}
use cs503_lab.Kernel.Leave.{Left, Loose-Left}
use cs503_lab.Semaphore.{set_count, release, signal}
use cs503_lab.Semaphore.Counts.{deficit-inc, deficit-inc_idle, add32-lt, is_bad_sem-lt, Counted-put}
use cs503_lab.Semaphore.Wait.{set_count-IsKernel, SemCall}

abbrev pub raised : Kernel → ℕ → ℕ
raised k s = add32 (k.sem_count s) 1

-- The lists with the first of semaphore `s` taken off its queue.
abbrev pub released : Kernel → ℕ → (ℕ → List ℕ) → ℕ → List ℕ
released k s c = put c (k.sem_queue s) (take_first (c (k.sem_queue s))).1

module _ {k : Kernel} {c : ℕ → List ℕ} (r : Running k c) (s : ℕ) (lt : s < nsem)
    (used : k.sem_used s ≡ true) where
  module _ (p : ℕ) (xs : List ℕ) (e : c (k.sem_queue s) ≡ p ∷ xs)
      (neg : slt (k.sem_count s) 0 ≡ true) where
    mem : has p (c (k.sem_queue s)) ≡ true
    mem = subst (λ l. has p l ≡ true) (sym e) (ground arith)

    rest : remove p (c (k.sem_queue s)) ≡ xs
    rest = subst (λ l. remove p l ≡ xs) (sym e) (ground arith)

    dequeued : QTab
    dequeued = (dequeue (k.sem_queue s) k.queues).1

    dequeued-first : (dequeue (k.sem_queue s) k.queues).0 ≡ p
    dequeued-first =
        (dequeue-take_first r.kernel.holds (k.sem_queue s) (r.kernel.layout.sem_id s lt)).0
        ∙ ap (λ l. (take_first l).0) e

    dequeued-Left : Left p (k.sem_queue s) k.queues dequeued c
    unfolding dequeued
    dequeued-Left = record {
      holds =
          subst (λ l. Holds dequeued (put c (k.sem_queue s) l))
            (ap (λ l. (take_first l).1) e ∙ sym rest)
            (dequeue-take_first r.kernel.holds (k.sem_queue s) (r.kernel.layout.sem_id s lt)).1;
      keys = dequeue-key (k.sem_queue s) k.queues;
    }

    abbrev between : Kernel
    between = record (set_count s (raised k s) k) { queues = dequeued }

    waits : k.procs.state p ≡ PrState.wait
    waits =
        let iq = r.kernel.layout.sem_id s lt in
        ground (
          arith,
          r.kernel.homes p (k.sem_queue s) (r.kernel.holds.pids (k.sem_queue s) p iq mem) iq,
          mem,
          r.kernel.layout.ready_sem s lt,
          r.kernel.layout.sleep_sem s lt,
        )

    between-Counted : Counted between (put c (k.sem_queue s) (remove p (c (k.sem_queue s))))
    between-Counted =
        Counted-put s (raised k s) (remove p (c (k.sem_queue s))) r.kernel.layout r.counted lt used
          (add32-lt (k.sem_count s) 1)
          (omega (
            arith,
            length-remove p (c (k.sem_queue s)) mem,
            (r.counted.counts s lt used).1,
            deficit-inc (k.sem_count s) (r.counted.counts s lt used).0 neg,
          ))
          refl (refl, refl)

    between-Keyed : Keyed between (put c (k.sem_queue s) (remove p (c (k.sem_queue s))))
    between-Keyed a m =
        subst (λ f. f a ≡ k.procs.prio a) (sym dequeued-Left.keys)
          (ground (arith, r.keyed a, r.kernel.layout.ready_sem s lt))

    between-Readied :
        Readied p between
          (make_ready p between).1
          (put c (k.sem_queue s) (remove p (c (k.sem_queue s))))
    between-Readied =
        let l =
          Loose-Left p (k.sem_queue s) dequeued (set_count-IsKernel s (raised k s) r.kernel)
            (r.kernel.layout.sem_id s lt) mem dequeued-Left in
        (make_ready-Readied p l.0 between-Keyed between-Counted l.1 r.immediate
          (ground (arith, waits))).1

    between-release : release s (set_count s (raised k s) k) ≡ (make_ready p between).1
    unfolding release dequeued
    between-release =
        ap
          (λ i.
            (make_ready i (record (set_count s (raised k s) k) {
              queues = (dequeue (k.sem_queue s) k.queues).1;
            })).1)
          dequeued-first

    releases :
        SemCall k (release s (set_count s (raised k s) k)) s (raised k s) (released k s c)
        × (is_eligible ((release s (set_count s (raised k s) k)).procs.state p) ≡ true)
    releases =
        let m = between-Readied in
        let l : remove p (c (k.sem_queue s)) ≡ (take_first (c (k.sem_queue s))).1 =
          rest ∙ sym (ap (λ l. (take_first l).1) e) in
        subst
          (λ k'.
            SemCall k k' s (raised k s) (released k s c) × (is_eligible (k'.procs.state p) ≡ true))
          (sym between-release)
          (
            record {
              lists = m.lists;
              running = m.running;
              others = λ q ne. m.others q ne ∙ ap (λ l. put c (k.sem_queue s) l q) l;
              count = m.sems.0;
            },
            m.woken,
          )

  wakes_one :
      (l : List ℕ)
      → c (k.sem_queue s) ≡ l
      → slt (k.sem_count s) 0 ≡ true
      → SemCall k (release s (set_count s (raised k s) k)) s (raised k s) (released k s c)
        × (is_eligible (
              (release s (set_count s (raised k s) k)).procs.state
                (take_first (c (k.sem_queue s))).0)
            ≡ true)
  wakes_one [] e neg = absurd (
      omega (
        arith,
        ap (length {0}) e,
        (r.counted.counts s lt used).1,
        deficit-inc (k.sem_count s) (r.counted.counts s lt used).0 neg,
      ))
  wakes_one (p ∷ xs) e neg =
      let m = releases p xs e neg in
      (
        m.0,
        subst (λ i. is_eligible ((release s (set_count s (raised k s) k)).procs.state i) ≡ true)
            (sym (ap (λ l. (take_first l).0) e)) m.1,
      )

  wakes_none :
      slt (k.sem_count s) 0 ≡ false
      → k.sem_count s ≢ 2 ^ 31 - 1
      → SemCall k (set_count s (raised k s) k) s (raised k s) c
  wakes_none nonneg ne =
      let d = deficit-inc_idle (k.sem_count s) (r.counted.counts s lt used).0 nonneg ne in
      let n : Counted (set_count s (raised k s) k) (put c (k.sem_queue s) (c (k.sem_queue s))) =
        Counted-put s (raised k s) (c (k.sem_queue s)) r.kernel.layout r.counted lt used
          (add32-lt (k.sem_count s) 1) (omega (arith, d, (r.counted.counts s lt used).1)) refl
          (refl, refl) in
      record {
        lists = c;
        running = record {
          kernel = set_count-IsKernel s (raised k s) r.kernel;
          keyed = r.keyed;
          counted = subst (Counted (set_count s (raised k s) k)) (put_same c (k.sem_queue s)) n;
          scheduled = record { runs = r.scheduled.runs; first = r.scheduled.first };
          immediate = r.immediate;
        };
        others = λ q ne. refl;
        count = refl;
      }

  -- `signal` on a used semaphore whose count can rise: the count rises by one; if it was negative,
  -- the process that has waited longest leaves the semaphore's queue and becomes ready or current.
  -- No other list but the ready list changes, and the kernel stays well formed.
  pub signal_lem :
      k.sem_count s ≢ 2 ^ 31 - 1
      → ((signal s k).0 ≡ ok)
        × SemCall k
            (signal s k).1
            s
            (raised k s)
            (if slt (k.sem_count s) 0 then released k s c else c)
        × ((not (slt (k.sem_count s) 0)
              || is_eligible ((signal s k).1.procs.state (take_first (c (k.sem_queue s))).0))
            ≡ true)
  unfolding signal
  signal_lem ne = elim (Bool-cases (slt (k.sem_count s) 0)) [
    | inl neg ↦
        let m = wakes_one (c (k.sem_queue s)) refl neg in
        rw (is_bad_sem-lt s lt, used, neg) (refl, m.0, m.1)
    | inr nonneg ↦ rw (is_bad_sem-lt s lt, used, nonneg) (refl, wakes_none nonneg ne, refl)
  ]
