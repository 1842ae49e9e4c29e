-- ===== src/Ports/Lists.antt =====
-- The nodes of a port and the free nodes, as lists.
use cs503_lab.Base.{
  ℕ, ◌≡◌, refl, sym, ◌≢◌, inl, inr, true, false, Bool-cases, List, [], ◌∷◌, ◌++◌, arith, ◌==◌, has,
  Distinct, Disjoint, put,
}
use mathlib.Core.Path.{subst}
use cs503_lab.Kernel.{Kernel}
use cs503_lab.Ports.{Ports}

-- The nodes `ns` are linked from the address `a` on, and NULL follows the last one.
abbrev pub Linked : (ℕ → ℕ) → ℕ → List ℕ → Type 0
Linked next a [] = a ≡ 0
Linked next a (n ∷ ns) = (a ≡ n) × (n ≢ 0) × Linked next (next n) ns

abbrev pub last_of : ℕ → List ℕ → ℕ
last_of a [] = a
last_of a (n ∷ ns) = last_of n ns

abbrev pub messages : (ℕ → ℕ) → List ℕ → List ℕ
messages ptmsg [] = []
messages ptmsg (n ∷ ns) = ptmsg n ∷ messages ptmsg ns

-- The nodes of port `p` are `ns`, and `fs` are free.
pub record Holds (t : Ports) (p : ℕ) (ns fs : List ℕ) : Type 0 where
  pub queue : Linked t.ptnext (t.head p) ns
  pub last : t.tail p ≡ last_of 0 ns
  pub frees : Linked t.ptnext t.ptfree fs
  pub distinct : Distinct ns
  pub distinct_free : Distinct fs
  pub apart : Disjoint ns fs

-- Port `p` holds the messages `ms`, the oldest first, and the nodes `fs` are free.
pub record Stores (t : Ports) (p : ℕ) (ms fs : List ℕ) : Type 0 where
  pub nodes : List ℕ
  pub holds : Holds t p nodes fs
  pub same : messages t.ptmsg nodes ≡ ms

pub has-last_of : (n : ℕ) (ns : List ℕ) → has (last_of n ns) (n ∷ ns) ≡ true
has-last_of n [] = ground arith
has-last_of n (x ∷ ns) = ground (arith, has-last_of x ns)

pub last_of-append : (a : ℕ) (ns : List ℕ) (z : ℕ) → last_of a (ns ++ z ∷ []) ≡ z
last_of-append a [] z = refl
last_of-append a (x ∷ ns) z = last_of-append x ns z

pub Linked-put :
    (next : ℕ → ℕ) (k v a : ℕ) (ns : List ℕ)
    → has k ns ≡ false
    → Linked next a ns
    → Linked (put next k v) a ns
Linked-put next k v a [] out l = l
Linked-put next k v a (n ∷ ns) out l =
    let e : put next k v n ≡ next n = ground arith in
    (
      l.0,
      l.1,
      subst (λ b. Linked (put next k v) b ns) (sym e)
          (Linked-put next k v (next n) ns (ground arith) l.2),
    )

-- Node `f` is linked in behind the last of the nodes.
pub Linked-append :
    (next : ℕ → ℕ) (f a n : ℕ) (ns : List ℕ)
    → f ≢ 0
    → has f (n ∷ ns) ≡ false
    → Distinct (n ∷ ns)
    → Linked next a (n ∷ ns)
    → Linked (put (put next f 0) (last_of n ns) f) a ((n ∷ ns) ++ f ∷ [])
Linked-append next f a n [] nz out d l = (l.0, l.1, (ground arith, nz, ground arith))
Linked-append next f a n (x ∷ ns) nz out d l =
    let h = has-last_of x ns in
    let e : put (put next f 0) (last_of x ns) f n ≡ next n = ground arith in
    (
      l.0,
      l.1,
      subst (λ b. Linked (put (put next f 0) (last_of x ns) f) b ((x ∷ ns) ++ f ∷ [])) (sym e)
          (Linked-append next f (next n) x ns nz (ground arith) d.1 l.2),
    )

pub messages-put :
    (ptmsg : ℕ → ℕ) (f msg : ℕ) (ns : List ℕ)
    → has f ns ≡ false
    → messages (put ptmsg f msg) (ns ++ f ∷ []) ≡ messages ptmsg ns ++ msg ∷ []
messages-put ptmsg f msg [] out = ground arith
messages-put ptmsg f msg (n ∷ ns) out =
    let e : put ptmsg f msg n ≡ ptmsg n = ground arith in
    rw (e, messages-put ptmsg f msg ns (ground arith)) refl

pub has-Linked : (next : ℕ → ℕ) (a k : ℕ) (ns : List ℕ) → Linked next a ns → has k ns ≡ true → k ≢ 0
has-Linked next a k [] l m = ground arith
has-Linked next a k (n ∷ ns) l m = elim (Bool-cases (k == n)) [
  | inl e ↦ (λ z. l.1 (ground arith))
  | inr e ↦ has-Linked next (next n) k ns l.2 (ground arith)
]

-- The lists do not depend on the kernel's state.
pub Stores-kernel :
    {t : Ports} {p : ℕ} {ms fs : List ℕ} (k : Kernel)
    → Stores t p ms fs
    → Stores (record t { kernel = k }) p ms fs
Stores-kernel k s =
    let h = s.holds in
    record {
      nodes = s.nodes;
      holds = record {
        queue = h.queue;
        last = h.last;
        frees = h.frees;
        distinct = h.distinct;
        distinct_free = h.distinct_free;
        apart = h.apart;
      };
      same = s.same;
    }
