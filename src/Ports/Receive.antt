-- ===== src/Ports/Receive.antt =====
-- ptrecv.c: the first message leaves the port's list.
use cs503_lab.Base.{
  ℕ, ◌≡◌, refl, sym, ap, ◌∙◌, ◌≢◌, inl, inr, true, false, Bool-cases, List, [], ◌∷◌, arith, ◌==◌,
  has, Disjoint, length, take, drop, put,
}
use mathlib.Core.Path.{subst}
use cs503_lab.Config.{syserr}
use cs503_lab.Semaphore.{signal}
use cs503_lab.Ports.Lists.{
  Linked, last_of, messages, Holds, Stores, has-last_of, Linked-put, Stores-kernel,
}
use cs503_lab.Ports.{Ports, take_msg, was_reset, ptrecv_rest}

module _ (t : Ports) (p : ℕ) (fs : List ℕ) where
  abbrev node : ℕ
  node = t.head p

  emptied : Ports
  emptied = record t {
    head = put t.head p 0;
    tail = put t.tail p 0;
    ptnext = put t.ptnext node t.ptfree;
    ptfree = node;
  }

  shortened : Ports
  shortened = record t {
    head = put t.head p (t.ptnext node);
    ptnext = put t.ptnext node t.ptfree;
    ptfree = node;
  }

  take_msg-last : Holds t p (node ∷ []) fs → take_msg p t ≡ (t.ptmsg node, emptied)
  unfolding take_msg emptied
  take_msg-last h =
      let e : (t.head p == t.tail p) ≡ true = let l = h.last in ground arith in rw e refl

  take_msg-further :
      (n : ℕ) (ns : List ℕ)
      → Holds t p (node ∷ n ∷ ns) fs
      → take_msg p t ≡ (t.ptmsg node, shortened)
  unfolding take_msg shortened
  take_msg-further n ns h =
      let m = has-last_of n ns in
      let out = h.distinct.0 in
      let e : (t.head p == t.tail p) ≡ false =
        rw (h.last)
          (elim (Bool-cases (t.head p == last_of n ns)) [ inl q ↦ ground arith | inr q ↦ q ]) in
      rw e refl

  -- The node taken is the first free one.
  freed :
      (ns : List ℕ)
      → Holds t p (node ∷ ns) fs
      → Linked (put t.ptnext node t.ptfree) node (node ∷ fs)
  freed ns h =
      let o : has node fs ≡ false = h.apart node (ground arith) in
      let e : put t.ptnext node t.ptfree node ≡ t.ptfree = ground arith in
      (
        refl,
        h.queue.1,
        subst (λ b. Linked (put t.ptnext node t.ptfree) b fs) (sym e)
            (Linked-put t.ptnext node t.ptfree t.ptfree fs o h.frees),
      )

  kept :
      (ns : List ℕ)
      → Holds t p (node ∷ ns) fs
      → Linked (put t.ptnext node t.ptfree) (t.ptnext node) ns
  kept ns h = Linked-put t.ptnext node t.ptfree (t.ptnext node) ns h.distinct.0 h.queue.2

  apart_after : (ns : List ℕ) → Holds t p (node ∷ ns) fs → Disjoint ns (node ∷ fs)
  apart_after ns h = λ a m.
      let o = h.distinct.0 in
      let q = h.apart a (ground arith) in
      elim (Bool-cases (a == node)) [
        | inl e ↦
            let same : a ≡ node = ground arith in
            let c = subst (λ k. has k ns ≡ true) same m in ground arith
        | inr e ↦ ground arith
      ]

  take_msg-Holds :
      (ns : List ℕ)
      → Holds t p (node ∷ ns) fs
      → ((take_msg p t).0 ≡ t.ptmsg node)
        × Stores (take_msg p t).1 p (messages t.ptmsg ns) (node ∷ fs)
  unfolding emptied shortened
  take_msg-Holds [] h = rw (take_msg-last h) (
    refl,
    record {
      nodes = [];
      holds = record {
        queue = ground arith;
        last = ground arith;
        frees = freed [] h;
        distinct = tt;
        distinct_free = (h.apart node (ground arith), h.distinct_free);
        apart = apart_after [] h;
      };
      same = refl;
    },
  )
  take_msg-Holds (n ∷ ns) h =
      let e : put t.head p (t.ptnext node) p ≡ t.ptnext node = ground arith in
      rw (take_msg-further n ns h) (
        refl,
        record {
          nodes = n ∷ ns;
          holds = record {
            queue =
                subst (λ b. Linked (put t.ptnext node t.ptfree) b (n ∷ ns)) (sym e)
                  (kept (n ∷ ns) h);
            last = h.last;
            frees = freed (n ∷ ns) h;
            distinct = h.distinct.1;
            distinct_free = (h.apart node (ground arith), h.distinct_free);
            apart = apart_after (n ∷ ns) h;
          };
          same = refl;
        },
      )

take_msg-nodes :
    (t : Ports) (p m : ℕ) (ns ms fs : List ℕ)
    → Holds t p ns fs
    → messages t.ptmsg ns ≡ m ∷ ms
    → ((take_msg p t).0 ≡ m) × Stores (take_msg p t).1 p ms (t.head p ∷ fs)
take_msg-nodes t p m [] ms fs h e = let c = ap length e in absurd (omega (arith, c))
take_msg-nodes t p m (n ∷ ns) ms fs h e =
    let r = take_msg-Holds t p fs ns (subst (λ k. Holds t p (k ∷ ns) fs) (sym h.queue.0) h) in
    let a : t.ptmsg (t.head p) ≡ m = ap t.ptmsg h.queue.0 ∙ ap (λ l. last_of 0 (take 1 l)) e in
    let b : messages t.ptmsg ns ≡ ms = ap (drop 1) e in
    (r.0 ∙ a, subst (λ l. Stores (take_msg p t).1 p l (t.head p ∷ fs)) b r.1)

module _ {t : Ports} {p m : ℕ} {ms fs : List ℕ} where
  -- `take_msg` returns the oldest message, the port keeps the others in their order, and the node is
  -- the first free one.
  pub take_msg-Stores :
      Stores t p (m ∷ ms) fs → ((take_msg p t).0 ≡ m) × Stores (take_msg p t).1 p ms (t.head p ∷ fs)
  take_msg-Stores s = take_msg-nodes t p m s.nodes ms fs s.holds s.same

take_msg-signal :
    (t : Ports) (p : ℕ)
    → (signal ((take_msg p t).1.ssem p) (take_msg p t).1.kernel).1 ≡ (signal (t.ssem p) t.kernel).1
unfolding take_msg
take_msg-signal t p = elim (Bool-cases (t.head p == t.tail p)) [
  | inl e ↦ rw e refl
  | inr e ↦ rw e refl
]

module _ {t : Ports} {p m : ℕ} {ms fs : List ℕ} (seq r : ℕ) (done : r ≢ syserr)
    (kept_open : was_reset p seq t ≡ false) where
  -- `ptrecv`, after its `wait` returned without an error and the port was neither deleted nor reset:
  -- it returns the oldest message of the port, which keeps the others in their order, the node of the
  -- message is the first free one, and `signal` was called for the senders' semaphore.
  pub ptrecv_rest-Stores :
      Stores t p (m ∷ ms) fs
      → ((ptrecv_rest p seq r t).0 ≡ m)
        × ((ptrecv_rest p seq r t).1.kernel ≡ (signal (t.ssem p) t.kernel).1)
        × Stores (ptrecv_rest p seq r t).1 p ms (t.head p ∷ fs)
  unfolding ptrecv_rest
  ptrecv_rest-Stores s =
      let (e, s1) = take_msg-Stores s in
      let n : (r == syserr) ≡ false = ground arith in
      let t1 = (take_msg p t).1 in
      rw (n, kept_open) (e, take_msg-signal t p, Stores-kernel (signal (t1.ssem p) t1.kernel).1 s1)
