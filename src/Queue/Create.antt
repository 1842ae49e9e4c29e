-- ===== src/Queue/Create.antt =====
-- newqueue.c: an empty queue at the next pair of entries, and the queues that sysinit makes.
use cs503_lab.Base.{ℕ, zero, suc, ◌+◌, ◌*◌, ◌%◌, ◌≤◌, ◌<◌, ◌≡◌, sym, false, [], arith, ltb, ◌∙◌}
use mathlib.Core.Path.{subst}
use cs503_lab.Config.{nproc, nsem, nqent, syserr, min_key, max_key}
use cs503_lab.Queue.{QTab, tail_of, newqueue, newqueues}
use cs503_lab.Queue.Chain.{Edge}
use cs503_lab.Queue.Contents.{IsQid, Holds}
use cs503_lab.Queue.Insert.{Bounded}

-- The queues below `next` are empty, with the keys of their ends in place.
pub record Made (next : ℕ) (t : QTab) : Type 0 where
  even : next % 2 ≡ 0
  above : nproc ≤ next
  edge : (q : ℕ) → IsQid q → q < next → Edge t q (tail_of q)
  head : (q : ℕ) → IsQid q → q < next → t.key q ≡ max_key
  tail : (q : ℕ) → IsQid q → q < next → t.key (tail_of q) ≡ min_key

pub newqueue-next :
    (next : ℕ) (t : QTab)
    → next ≤ nqent
    → ((newqueue next t).0 ≡ next) × ((newqueue next t).1 ≡ next + 2)
unfolding newqueue
newqueue-next next t le = ground arith

pub newqueue-Made :
    (next : ℕ) (t : QTab) → next ≤ nqent → Made next t → Made (next + 2) (newqueue next t).2
unfolding newqueue
newqueue-Made next t le m =
    let room : ltb nqent next ≡ false = ground arith in
    record {
      even = ground (arith, m.even);
      above = ground (arith, m.above);
      edge = λ q iq lt. rw room (ground (arith, m.edge q iq, m.even));
      head = λ q iq lt. rw room (ground (arith, m.head q iq, m.even));
      tail = λ q iq lt. rw room (ground (arith, m.tail q iq, m.even));
    }

newqueues-Made :
    (n next : ℕ) (t : QTab)
    → next + 2 * n ≤ nqent
    → Made next t
    → ((newqueues n next t).0 ≡ next + 2 * n) × Made (next + 2 * n) (newqueues n next t).1
unfolding newqueues
newqueues-Made zero next t le m =
    let e : next ≡ next + 2 * 0 = omega arith in (e, subst (λ k. Made k t) e m)
newqueues-Made (suc n) next t le m =
    let s = newqueue-next next t (omega arith) in
    let r =
      newqueues-Made n (next + 2) (newqueue next t).2 (omega arith)
        (newqueue-Made next t (omega arith) m) in
    let e : next + 2 + 2 * n ≡ next + 2 * suc n = omega arith in
    let t' = (newqueue next t).2 in
    subst
      (λ i.
        ((newqueues n i t').0 ≡ next + 2 * suc n) × Made (next + 2 * suc n) (newqueues n i t').1)
      (sym s.1) (r.0 ∙ e, subst (λ k. Made k (newqueues n (next + 2) t').1) e r.1)

pub none_made : (t : QTab) → Made nproc t
none_made t = record {
  even = omega arith;
  above = omega arith;
  edge = λ q iq lt. absurd (omega arith);
  head = λ q iq lt. absurd (omega arith);
  tail = λ q iq lt. absurd (omega arith);
}

-- A table that is all made holds empty queues.
pub Made-Holds : (next : ℕ) (t : QTab) → nqent ≤ next → Made next t → Holds t (λ q. []) × Bounded t
Made-Holds next t le made = (
  record {
    chain = λ q iq. (made.edge q iq (omega arith), tt);
    pids = λ q p iq i. absurd (cc);
    distinct = λ q iq. tt;
    apart = λ q r p iq ir i j. absurd (cc);
  },
  record {
    head = λ q iq. made.head q iq (omega arith);
    tail = λ q iq. made.tail q iq (omega arith);
  },
)

-- sysinit's calls fill the table exactly, from any contents: all queues are empty, and their ends
-- have the keys that stop each walk.
pub newqueues-Holds :
    (t : QTab)
    → ((newqueues (nsem + 2) nproc t).0 ≡ nqent)
      × Holds (newqueues (nsem + 2) nproc t).1 (λ q. [])
      × Bounded (newqueues (nsem + 2) nproc t).1
newqueues-Holds t =
    let m = newqueues-Made (nsem + 2) nproc t (omega arith) (none_made t) in
    let h = Made-Holds nqent (newqueues (nsem + 2) nproc t).1 (omega arith) m.1 in (m.0, h.0, h.1)

-- The check of `newqueue` stops no call before the table is overrun: the next queue after those
-- of sysinit gets the index one past the last entry, which is no queue, and not SYSERR.
pub newqueue_overrun :
    (t : QTab)
    → let (next, t1) = newqueues (nsem + 2) nproc t in
      ((newqueue next t1).0 ≡ nqent)
      × ¬ ((newqueue next t1).0 ≡ syserr)
      × ¬ IsQid ((newqueue next t1).0)
newqueue_overrun t =
    let m = newqueues-Holds t in
    let r =
      newqueue-next (newqueues (nsem + 2) nproc t).0 (newqueues (nsem + 2) nproc t).1
        (omega (arith, m.0)) in
    let e : (newqueue (newqueues (nsem + 2) nproc t).0 (newqueues (nsem + 2) nproc t).1).0 ≡ nqent =
      r.0 ∙ m.0 in
    (e, omega (arith, e), omega (arith, e))
