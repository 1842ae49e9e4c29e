-- ===== src/Kernel/Resched.antt =====
-- resched.c: the switch to the first of the ready list.
use cs503_lab.Base.{
  ℕ, ◌+◌, ◌≤◌, ◌<◌, ◌≡◌, refl, sym, ap, ◌∙◌, ◌≢◌, inl, inr, Bool, true, false, List, [], ◌∷◌, arith,
  ◌==◌, has, put, put_self, Bool-cases, slt, bias, Distinct,
}
use mathlib.Core.Path.{subst}
use cs503_lab.Config.{nproc, PrState, ProcTab, min_key, max_key}
use cs503_lab.Queue.{QTab, dequeue, first_id, tail_of}
use cs503_lab.Queue.Contents.{Holds, Idle}
use cs503_lab.Queue.Insert.{Bounded, Desc, next-first_or}
use cs503_lab.Queue.Enqueue.{first_or}
use cs503_lab.Queue.Remove.{take_first}
use cs503_lab.Queue.Ends.{dequeue-take_first, dequeue-key}
use cs503_lab.Kernel.{Kernel, is_curr, switch, put_ready}
use cs503_lab.Kernel.Invariant.{IsKernel, Keyed, NoCurr, Scheduled, ready-mem, home-Idle}

pub Bounded-key : {t : QTab} (t' : QTab) → Bounded t → t'.key ≡ t.key → Bounded t'
Bounded-key {t} t' b e = record {
  head = λ q iq. subst (λ f. f q ≡ max_key) (sym e) (b.head q iq);
  tail = λ q iq. subst (λ f. f (q + 1) ≡ min_key) (sym e) (b.tail q iq);
}

Desc-tail : (keys : ℕ → ℕ) (x : ℕ) (xs : List ℕ) → Desc keys (x ∷ xs) → Desc keys xs
Desc-tail keys x [] d = tt
Desc-tail keys x (y ∷ ys) d = d.1

-- The first of a descending list has the largest key.
Desc-first :
    (keys : ℕ → ℕ) (x a : ℕ) (xs : List ℕ)
    → Desc keys (x ∷ xs)
    → has a xs ≡ true
    → bias (keys a) ≤ bias (keys x)
Desc-first keys x a [] d m = absurd (cc)
Desc-first keys x a (y ∷ ys) d m = elim (Bool-cases (a == y)) [
  | inl e ↦ ground (arith, d.0)
  | inr e ↦ omega (arith, d.0, Desc-first keys y a ys d.1 (ground arith))
]

module _ {k : Kernel} {c : ℕ → List ℕ} (v : IsKernel k c) (none : NoCurr k) (p : ℕ) (xs : List ℕ)
    (e : c k.readylist ≡ p ∷ xs) where
  dequeued :
      ((dequeue k.readylist k.queues).0 ≡ p)
      × Holds (dequeue k.readylist k.queues).1 (put c k.readylist xs)
  dequeued =
      let r = dequeue-take_first v.holds k.readylist v.layout.ready_id in
      (
        r.0 ∙ ap (λ l. (take_first l).0) e,
        subst (λ l. Holds (dequeue k.readylist k.queues).1 (put c k.readylist l))
            (ap (λ l. (take_first l).1) e) r.1,
      )

  first_mem : has p (c k.readylist) ≡ true
  first_mem = subst (λ l. has p l ≡ true) (sym e) (ground arith)

  first_lt : p < nproc
  first_lt = v.holds.pids k.readylist p v.layout.ready_id first_mem

  first_ready : k.procs.state p ≡ PrState.ready
  first_ready = ground (
    arith,
    v.homes p k.readylist first_lt v.layout.ready_id,
    first_mem,
    v.layout.ready_sleep,
    v.layout.ready_sem (k.procs.sem p),
    v.waits_in p first_lt,
  )

  first_once : has p xs ≡ false
  first_once = (subst Distinct e (v.holds.distinct k.readylist v.layout.ready_id)).0

  -- The first of the ready list becomes current, and leaves the list.
  pub switch-IsKernel : IsKernel (switch k) (put c k.readylist xs)
  unfolding switch
  switch-IsKernel = rw dequeued.0 (record {
    holds = dequeued.1;
    bounded = Bounded-key _ v.bounded (dequeue-key k.readylist k.queues);
    layout = v.layout;
    homes = λ a q lt iq. ground (arith, v.homes a q lt iq, ap (has a) e, first_once, first_ready);
    sorted =
        subst (λ f. Desc f (put c k.readylist xs k.readylist))
          (sym (dequeue-key k.readylist k.queues))
          (subst (Desc k.queues.key) (sym (put_self c k.readylist xs))
            (Desc-tail k.queues.key p xs (subst (Desc k.queues.key) e v.sorted)));
    one_curr = λ a lt m. ground (arith, none a lt);
    curr_in = first_lt;
    null_in = ground (arith, v.null_in);
    waits_in = λ a lt m. v.waits_in a lt (ground arith);
    prios = v.prios;
  })

  pub switch-Scheduled :
      Keyed k c
      → Scheduled (switch k) (put c k.readylist xs) × Keyed (switch k) (put c k.readylist xs)
  unfolding switch
  switch-Scheduled keyed =
      let keys = dequeue-key k.readylist k.queues in
      rw dequeued.0 (
        record {
          runs = ground arith;
          first = λ a m.
              subst (λ f. bias (f a) ≤ bias (k.procs.prio p)) (sym keys)
                (ground (
                  arith,
                  keyed p first_mem,
                  Desc-first k.queues.key p a xs (subst (Desc k.queues.key) e v.sorted),
                ));
        },
        λ a m. subst (λ f. f a ≡ k.procs.prio a) (sym keys) (ground (arith, keyed a, ap (has a) e)),
      )

abbrev pub is_eligible : PrState → Bool
is_eligible PrState.curr = true
is_eligible PrState.ready = true
is_eligible _ = false

-- All of the process table that scheduling leaves alone.
pub record SameFields (procs procs' : ProcTab) : Type 0 where
  pub prio : procs'.prio ≡ procs.prio
  pub sem : procs'.sem ≡ procs.sem
  pub msg : procs'.msg ≡ procs.msg
  pub has_msg : procs'.has_msg ≡ procs.has_msg

abbrev pub same_fields : (procs : ProcTab) → SameFields procs procs
same_fields procs = record { prio = refl; sem = refl; msg = refl; has_msg = refl }

-- What a call leaves behind that ends in a switch, if one is due.
pub record Switched (k k' : Kernel) (c : ℕ → List ℕ) : Type 0 where
  pub lists : ℕ → List ℕ
  pub kernel : IsKernel k' lists
  pub keyed : Keyed k' lists
  pub scheduled : Scheduled k' lists
  pub others : (q : ℕ) → q ≢ k.readylist → lists q ≡ c q
  pub sems : (k'.sem_count ≡ k.sem_count) × (k'.sem_used ≡ k.sem_used)
  pub queues : (k'.sem_queue ≡ k.sem_queue) × (k'.readylist ≡ k.readylist)
  pub defers : k'.ndefers ≡ k.ndefers
  pub fields : SameFields k.procs k'.procs
  pub kept : (a : ℕ) → is_eligible (k.procs.state a) ≡ false → k'.procs.state a ≡ k.procs.state a
  pub stays : (a : ℕ) → is_eligible (k.procs.state a) ≡ true → is_eligible (k'.procs.state a) ≡ true

module _ {k : Kernel} {c : ℕ → List ℕ} (v : IsKernel k c) (keyed : Keyed k c) where
  -- With no current process the null process is ready, so the switch finds one.
  pub switch-Switched : NoCurr k → Switched k (switch k) c
  unfolding switch
  switch-Switched none = go (c k.readylist) refl
    where
      null_mem : has 0 (c k.readylist) ≡ true
      null_mem = ready-mem v 0 (omega arith) (ground (arith, v.null_in, none 0))

      go : (l : List ℕ) → c k.readylist ≡ l → Switched k (switch k) c
      go [] e = absurd (ground (arith, null_mem, ap (has 0) e))
      go (p ∷ xs) e =
          let s = switch-Scheduled v none p xs e keyed in
          record {
            lists = put c k.readylist xs;
            kernel = switch-IsKernel v none p xs e;
            keyed = s.1;
            scheduled = s.0;
            others = λ q ne. ground arith;
            sems = (refl, refl);
            queues = (refl, refl);
            defers = refl;
            fields = record { prio = refl; sem = refl; msg = refl; has_msg = refl };
            kept = λ a m.
                subst (λ i. put k.procs.state i PrState.curr a ≡ k.procs.state a)
                  (sym (dequeued v none p xs e).0) (ground (arith, first_ready v none p xs e));
            stays = λ a m. ground arith;
          }

  -- While nothing is to change, the current process stays: its priority exceeds the first key.
  pub keep-Scheduled :
      is_curr (k.procs.state k.currpid) ≡ true
      → slt (k.queues.key (first_id k.queues k.readylist)) (k.procs.prio k.currpid) ≡ true
      → Scheduled k c
  keep-Scheduled is_current above = record { runs = ground arith; first = go (c k.readylist) refl }
    where
      go :
          (l : List ℕ)
          → c k.readylist ≡ l
          → (a : ℕ) → has a (c k.readylist) ≡ true
          → bias (k.queues.key a) ≤ bias (k.procs.prio k.currpid)
      go [] e a m = absurd (ground (arith, ap (has a) e))
      go (p ∷ xs) e a m =
          let first : k.queues.next k.readylist ≡ p =
            next-first_or k.queues k.readylist (c k.readylist)
              (v.holds.chain k.readylist v.layout.ready_id)
            ∙ ap (first_or (tail_of k.readylist)) e in
          ground (
            arith,
            first,
            ap (has a) e,
            Desc-first k.queues.key p a xs (subst (Desc k.queues.key) e v.sorted),
          )

  pub curr-Idle : is_curr (k.procs.state k.currpid) ≡ true → Idle c k.currpid
  curr-Idle is_current = home-Idle v k.currpid v.curr_in (λ q iq. ground arith)

  pub NoCurr-put_ready : NoCurr (put_ready k.currpid k)
  unfolding put_ready
  NoCurr-put_ready a lt = ground (arith, v.one_curr a lt)

  pub no_curr : is_curr (k.procs.state k.currpid) ≡ false → NoCurr k
  no_curr stopped a lt = ground (arith, v.one_curr a lt)
