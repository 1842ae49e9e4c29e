-- ===== src/Ports/Send.antt =====
-- ptsend.c: a message goes to the end of the port's list.
use cs503_lab.Base.{
  ℕ, ◌≡◌, refl, sym, ◌≢◌, inl, inr, false, Bool-cases, List, [], ◌∷◌, ◌++◌, arith, ◌==◌, has,
  has-append, Distinct-append, some, put,
}
use mathlib.Core.Path.{subst}
use cs503_lab.Config.{ok, syserr}
use cs503_lab.Semaphore.{signal}
use cs503_lab.Ports.Lists.{
  last_of, messages, Holds, Stores, has-last_of, last_of-append, Linked-put, Linked-append,
  messages-put, has-Linked, Stores-kernel,
}
use cs503_lab.Ports.{Ports, put_msg, was_reset, signal_port, ptsend_rest}

-- `put_msg` gives `t'`, where port `p` holds `ms` and nothing but the lists has changed that is read later.
pub record Sent (t : Ports) (p msg : ℕ) (ms fs : List ℕ) (t' : Ports) : Type 0 where
  pub done : put_msg p msg t ≡ some t'
  pub kernel : t'.kernel ≡ t.kernel
  pub rsem : t'.rsem ≡ t.rsem
  pub stores : Stores t' p ms fs

module _ (t : Ports) (p msg : ℕ) (fs : List ℕ) where
  abbrev f : ℕ
  f = t.ptfree

  taken : Ports
  taken = record t { ptfree = t.ptnext f; ptnext = put t.ptnext f 0; ptmsg = put t.ptmsg f msg }

  after : ℕ → Ports
  after n = record taken { ptnext = put taken.ptnext n f; tail = put t.tail p f }

  put_msg-empty :
      Holds t p [] (f ∷ fs)
      → put_msg p msg t ≡ some (record taken { head = put t.head p f; tail = put t.tail p f })
  unfolding put_msg taken
  put_msg-empty h = let a = h.frees.1 in let b = h.last in ground arith

  put_msg-further :
      (n : ℕ) (ns : List ℕ)
      → Holds t p (n ∷ ns) (f ∷ fs)
      → put_msg p msg t ≡ some (after (last_of n ns))
  unfolding put_msg taken after
  put_msg-further n ns h =
      let a = h.frees.1 in
      let b = has-Linked t.ptnext (t.head p) (last_of n ns) (n ∷ ns) h.queue (has-last_of n ns) in
      rw (h.last) (ground arith)

  put_msg-empty-Holds :
      Holds t p [] (f ∷ fs)
      → Holds (record taken { head = put t.head p f; tail = put t.tail p f }) p (f ∷ []) fs
  unfolding taken
  put_msg-empty-Holds h = record {
    queue = (ground arith, h.frees.1, ground arith);
    last = ground arith;
    frees = Linked-put t.ptnext t.ptfree 0 (t.ptnext t.ptfree) fs h.distinct_free.0 h.frees.2;
    distinct = (ground arith, tt);
    distinct_free = h.distinct_free.1;
    apart = λ a m. let o = h.distinct_free.0 in ground arith;
  }

  module _ (n : ℕ) (ns : List ℕ) (h : Holds t p (n ∷ ns) (f ∷ fs)) where
    out : has f (n ∷ ns) ≡ false
    out = elim (Bool-cases (has f (n ∷ ns))) [
      | inl e ↦ let c = h.apart f e in ground (arith, c)
      | inr e ↦ e
    ]

    last_out : has (last_of n ns) fs ≡ false
    last_out = let c = h.apart (last_of n ns) (has-last_of n ns) in ground (arith, c)

    put_msg-further-Holds : Holds (after (last_of n ns)) p ((n ∷ ns) ++ f ∷ []) fs
    unfolding after taken
    put_msg-further-Holds = record {
      queue = Linked-append t.ptnext f (t.head p) n ns h.frees.1 out h.distinct h.queue;
      last = let e = last_of-append n ns f in ground (arith, e);
      frees =
          Linked-put (put t.ptnext f 0) (last_of n ns) f (t.ptnext f) fs last_out
            (Linked-put t.ptnext f 0 (t.ptnext f) fs h.distinct_free.0 h.frees.2);
      distinct =
          Distinct-append (n ∷ ns) (f ∷ []) h.distinct (ground arith, tt)
            (λ a m. let o = out in ground arith);
      distinct_free = h.distinct_free.1;
      apart = λ a m.
          let o = h.distinct_free.0 in ground (arith, has-append a (n ∷ ns) (f ∷ []), h.apart a);
    }

  put_msg-Holds :
      (ns : List ℕ)
      → Holds t p ns (f ∷ fs)
      → (t' : Ports) × Sent t p msg (messages t.ptmsg ns ++ msg ∷ []) fs t'
  unfolding after taken
  put_msg-Holds [] h = (
    record taken { head = put t.head p f; tail = put t.tail p f },
    record {
      done = put_msg-empty h;
      kernel = refl;
      rsem = refl;
      stores = record {
        nodes = f ∷ [];
        holds = put_msg-empty-Holds h;
        same = messages-put t.ptmsg f msg [] refl;
      };
    },
  )
  put_msg-Holds (n ∷ ns) h = (
    after (last_of n ns),
    record {
      done = put_msg-further n ns h;
      kernel = refl;
      rsem = refl;
      stores = record {
        nodes = (n ∷ ns) ++ f ∷ [];
        holds = put_msg-further-Holds n ns h;
        same = messages-put t.ptmsg f msg (n ∷ ns) (out n ns h);
      };
    },
  )

module _ {t : Ports} {p f : ℕ} {ms fs : List ℕ} where
  -- While a node is free, `put_msg` adds the message behind the ones the port holds, in that node.
  pub put_msg-Stores :
      (msg : ℕ) → Stores t p ms (f ∷ fs) → (t' : Ports) × Sent t p msg (ms ++ msg ∷ []) fs t'
  put_msg-Stores msg s =
      let h : Holds t p s.nodes (t.ptfree ∷ fs) =
        subst (λ a. Holds t p s.nodes (a ∷ fs)) (sym s.holds.frees.0) s.holds in
      subst (λ l. (t' : Ports) × Sent t p msg (l ++ msg ∷ []) fs t') s.same
        (put_msg-Holds t p msg fs s.nodes h)

module _ {t : Ports} {p f : ℕ} {ms fs : List ℕ} (seq r : ℕ) (done : r ≢ syserr)
    (kept_open : was_reset p seq t ≡ false) where
  -- `ptsend`, after its `wait` returned without an error and the port was neither deleted nor reset:
  -- while a node is free, it returns OK, the port holds the message behind the ones it held, and
  -- `signal` was called for the receivers' semaphore.
  pub ptsend_rest-Stores :
      (msg : ℕ)
      → Stores t p ms (f ∷ fs)
      → (t' : Ports) × (ptsend_rest p msg seq r t ≡ some (ok, t'))
        × (t'.kernel ≡ (signal (t.rsem p) t.kernel).1)
        × Stores t' p (ms ++ msg ∷ []) fs
  unfolding ptsend_rest
  ptsend_rest-Stores msg s =
      let (t1, v) = put_msg-Stores msg s in
      let n : (r == syserr) ≡ false = ground arith in
      (
        signal_port (t1.rsem p) t1,
        rw (n, kept_open, v.done) refl,
        rw (v.kernel, v.rsem) refl,
        Stores-kernel (signal (t1.rsem p) t1.kernel).1 v.stores,
      )
