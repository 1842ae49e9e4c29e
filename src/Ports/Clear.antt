-- ===== src/Ports/Clear.antt =====
-- ptclear.c and ptreset.c: a port that is reset has no messages, and its nodes are free.
use cs503_lab.Base.{
  ℕ, zero, suc, ◌≡◌, refl, sym, ap, ◌∙◌, ◌<◌, ◌^◌, inl, inr, false, Bool-cases, List, [], ◌∷◌, ◌++◌,
  arith, ◌==◌, some, Distinct, Distinct-append, Disjoint, length, put, add32,
}
use mathlib.Core.Path.{subst}
use cs503_lab.Config.{ok}
use cs503_lab.Kernel.{Kernel}
use cs503_lab.Semaphore.{semreset}
use cs503_lab.Ports.Lists.{Linked, last_of, messages, Holds, Stores, has-last_of, Linked-put}
use cs503_lab.Ports.{
  Ports, PortState, is_closed, walk_max, drop_msgs, dispose_msgs, end_clear, ptclear, ptreset,
}

-- `dispose` gets the messages `ms`, one after the other.
abbrev pub dispose_each :
    {D : Type 0} → (ℕ → Kernel × D → Kernel × D) → List ℕ → Kernel × D → Kernel × D
dispose_each dispose [] s = s
dispose_each dispose (m ∷ ms) s = dispose_each dispose ms (dispose m s)

-- The walk ends, and all the messages went to `dispose`, the oldest first.
dispose_msgs_each :
    {D : Type 0} (dispose : ℕ → Kernel × D → Kernel × D) (ptmsg ptnext : ℕ → ℕ) (n a : ℕ)
    (ns : List ℕ) (s : Kernel × D)
    → Linked ptnext a ns
    → length ns < n
    → dispose_msgs dispose ptmsg ptnext n a s ≡ some (dispose_each dispose (messages ptmsg ns) s)
unfolding dispose_msgs
dispose_msgs_each dispose ptmsg ptnext zero a ns s l lt = absurd (omega arith)
dispose_msgs_each dispose ptmsg ptnext (suc n) a [] s l lt = rw l refl
dispose_msgs_each dispose ptmsg ptnext (suc n) a (m ∷ ns) s l lt =
    let z : (m == 0) ≡ false = let q = l.1 in ground arith in
    rw (l.0, z)
      (dispose_msgs_each dispose ptmsg ptnext n (ptnext m) ns (dispose (ptmsg m) s) l.2
        (omega arith))

-- The list `fs` is linked in behind the last of the nodes.
Linked-join :
    (next : ℕ → ℕ) (a b n : ℕ) (ns fs : List ℕ)
    → Distinct (n ∷ ns)
    → Disjoint (n ∷ ns) fs
    → Linked next a (n ∷ ns)
    → Linked next b fs
    → Linked (put next (last_of n ns) b) a ((n ∷ ns) ++ fs)
Linked-join next a b n [] fs d o l f =
    let e : put next n b n ≡ b = ground arith in
    (
      l.0,
      l.1,
      subst (λ c. Linked (put next n b) c fs) (sym e)
          (Linked-put next n b b fs (o n (ground arith)) f),
    )
Linked-join next a b n (x ∷ ns) fs d o l f =
    let h = has-last_of x ns in
    let e : put next (last_of x ns) b n ≡ next n = let q = d.0 in ground arith in
    (
      l.0,
      l.1,
      subst (λ c. Linked (put next (last_of x ns) b) c ((x ∷ ns) ++ fs)) (sym e)
          (Linked-join next (next n) b x ns fs d.1 (λ k m. o k (ground arith)) l.2 f),
    )

module _ (t : Ports) (p : ℕ) (fs : List ℕ) where
  joined : ℕ → Ports
  joined last = record t { ptnext = put t.ptnext last t.ptfree; ptfree = t.head p }

  drop_msgs-joined :
      (n : ℕ) (ns : List ℕ) → Holds t p (n ∷ ns) fs → drop_msgs p t ≡ joined (last_of n ns)
  unfolding drop_msgs joined
  drop_msgs-joined n ns h =
      let z : (t.head p == 0) ≡ false = let q = h.queue.0 in let c = h.queue.1 in ground arith in
      rw (z, h.last) refl

  drop_msgs-Linked :
      (ns : List ℕ)
      → Holds t p ns fs
      → Linked (drop_msgs p t).ptnext (drop_msgs p t).ptfree (ns ++ fs)
  unfolding drop_msgs joined
  drop_msgs-Linked [] h = let q = h.queue in rw q (h.frees)
  drop_msgs-Linked (n ∷ ns) h =
      subst (λ u. Linked u.ptnext u.ptfree ((n ∷ ns) ++ fs)) (sym (drop_msgs-joined n ns h))
        (Linked-join t.ptnext (t.head p) t.ptfree n ns fs h.distinct h.apart h.queue h.frees)

drop_msgs-kept :
    (t : Ports) (p : ℕ)
    → drop_msgs p t ≡ record t { ptnext = (drop_msgs p t).ptnext; ptfree = (drop_msgs p t).ptfree }
unfolding drop_msgs
drop_msgs-kept t p = elim (Bool-cases (t.head p == 0)) [ inl e ↦ rw e refl | inr e ↦ rw e refl ]

-- What `ptreset` of port `p` leaves, with the kernel `k` after the calls of `dispose`
pub record Reset (p : ℕ) (k : Kernel) (fs : List ℕ) (t t' : Ports) : Type 0 where
  pub stores : Stores t' p [] fs
  pub kernel : t'.kernel ≡ (semreset (t.rsem p) 0 (semreset (t.ssem p) (t.maxcnt p) k).1).1
  pub state : t'.state ≡ put (put t.state p PortState.limbo) p PortState.alloc
  pub seq : t'.seq ≡ put t.seq p (add32 (t.seq p) 1)

module _ {D : Type 0} (dispose : ℕ → Kernel × D → Kernel × D) (t : Ports) (p : ℕ) (d : D)
    {ms fs : List ℕ} (kept_open : is_closed t p ≡ false) (s : Stores t p ms fs) where
  -- `ptreset` of an open port with fewer than 2 ^ 32 nodes returns OK. `dispose` has got each of the
  -- port's messages once, the oldest first, and then both semaphores were reset, the senders' to the
  -- size of the port. The port is allocated, has the next sequence number and no messages; its nodes
  -- are the first free ones.
  pub ptreset-Stores :
      length s.nodes < 2 ^ 32
      → (t' : Ports) × (ptreset dispose p t d
          ≡ some (ok, t', (dispose_each dispose ms (t.kernel, d)).1))
        × Reset p (dispose_each dispose ms (t.kernel, d)).0 (s.nodes ++ fs) t t'
  unfolding ptreset ptclear end_clear
  ptreset-Stores small =
      let h = s.holds in
      let after = dispose_each dispose ms (t.kernel, d) in
      let walk =
        dispose_msgs_each dispose t.ptmsg t.ptnext walk_max (t.head p) s.nodes (t.kernel, d) h.queue
          small
        ∙ ap (λ l. some (dispose_each dispose l (t.kernel, d))) s.same in
      let t1 : Ports = record t {
        state = put t.state p PortState.limbo;
        seq = put t.seq p (add32 (t.seq p) 1);
        kernel = after.0;
      } in
      let h1 : Holds t1 p s.nodes fs = record {
        queue = h.queue;
        last = h.last;
        frees = h.frees;
        distinct = h.distinct;
        distinct_free = h.distinct_free;
        apart = h.apart;
      } in
      let kept = drop_msgs-kept t1 p in
      (
        end_clear p PortState.alloc (drop_msgs p t1),
        rw (kept_open, walk) refl,
        record {
          stores = record {
            nodes = [];
            holds = record {
              queue = ground arith;
              last = ground arith;
              frees = drop_msgs-Linked t1 p fs s.nodes h1;
              distinct = tt;
              distinct_free = Distinct-append s.nodes fs h.distinct h.distinct_free h.apart;
              apart = λ a m. ground arith;
            };
            same = refl;
          };
          kernel =
              ap (λ u. (semreset (u.rsem p) 0 (semreset (u.ssem p) (u.maxcnt p) u.kernel).1).1)
                kept;
          state = ap (λ u. put u.state p PortState.alloc) kept;
          seq = ap (λ u. u.seq) kept;
        },
      )
