-- ===== src/Queue/Insert.antt =====
-- insert.c: a process goes behind all of at least its key.
use cs503_lab.Base.{
  ℕ, zero, suc, ◌≤◌, ◌<◌, ◌≡◌, refl, sym, ap, ◌∙◌, inl, inr, true, false, ◌||◌, List, [], ◌∷◌, ◌++◌,
  arith, ◌==◌, if◌then◌else◌, has, length, put, Bool-cases, slt, sge, bias,
}
use mathlib.Core.Path.{subst}
use cs503_lab.Config.{nproc, nqent, ok, min_key, max_key, ProcTab, is_bad_pid}
use cs503_lab.Queue.{QTab, tail_of, set_key, insert, seek}
use cs503_lab.Queue.Chain.{Chain}
use cs503_lab.Queue.Links.{link_in}
use cs503_lab.Queue.Contents.{IsQid, nodes, Holds, Idle, Holds-SameLinks, length-contents}
use cs503_lab.Queue.Ends.{is_bad_qid-IsQid}
use cs503_lab.Queue.Enqueue.{first_or, link_in-Holds}

-- The keys at the two ends of each queue, as `newqueue` leaves them.
pub record Bounded (t : QTab) : Type 0 where
  pub head : (q : ℕ) → IsQid q → t.key q ≡ max_key
  pub tail : (q : ℕ) → IsQid q → t.key (tail_of q) ≡ min_key

-- `p` behind all processes whose key is at least `k`.
abbrev pub place : (ℕ → ℕ) → ℕ → ℕ → List ℕ → List ℕ
place keys k p [] = p ∷ []
place keys k p (x ∷ xs) = if sge (keys x) k then x ∷ place keys k p xs else p ∷ x ∷ xs

record Found (t : QTab) (k p fuel z : ℕ) (l : List ℕ) : Type 0 where
  front : List ℕ
  back : List ℕ
  whole : l ≡ front ++ back
  placed : place t.key k p l ≡ front ++ p ∷ back
  found : seek t k fuel (first_or z l) ≡ first_or z back

-- The walk ends before the fuel, at the first entry with a smaller key.
seek-Found :
    (t : QTab) (k p z fuel : ℕ) (l : List ℕ)
    → Chain t (l ++ z ∷ [])
    → sge (t.key z) k ≡ false
    → length l < fuel
    → Found t k p fuel z l
unfolding seek
seek-Found t k p z zero l c low lt = absurd (omega arith)
seek-Found t k p z (suc fuel) [] c low lt = record {
  front = [];
  back = [];
  whole = refl;
  placed = refl;
  found = rw low;
}
seek-Found t k p z (suc fuel) (x ∷ xs) c low lt = elim (Bool-cases (sge (t.key x) k)) [
  | inl e ↦
      let r = seek-Found t k p z fuel xs (Chain-tail xs c) low (omega arith) in
      record {
        front = x ∷ r.front;
        back = r.back;
        whole = ap (λ l. x ∷ l) r.whole;
        placed = rw e (ap (λ l. x ∷ l) r.placed);
        found = rw (e, next-first xs c) r.found;
      }
  | inr e ↦ record { front = []; back = x ∷ xs; whole = refl; placed = rw e; found = rw e }
]
  where
    Chain-tail : (xs : List ℕ) → Chain t (x ∷ xs ++ z ∷ []) → Chain t (xs ++ z ∷ [])
    Chain-tail [] c = c.1
    Chain-tail (y ∷ ys) c = c.1

    next-first : (xs : List ℕ) → Chain t (x ∷ xs ++ z ∷ []) → t.next x ≡ first_or z xs
    next-first [] c = c.0.0
    next-first (y ∷ ys) c = c.0.0

pub next-first_or :
    (t : QTab) (q : ℕ) (l : List ℕ) → Chain t (nodes q l) → t.next q ≡ first_or (tail_of q) l
next-first_or t q [] c = c.0.0
next-first_or t q (x ∷ xs) c = c.0.0

Chain-behind : (t : QTab) (q : ℕ) (l : List ℕ) → Chain t (nodes q l) → Chain t (l ++ tail_of q ∷ [])
Chain-behind t q [] c = c.1
Chain-behind t q (x ∷ xs) c = c.1

module _ {t : QTab} {c : ℕ → List ℕ} (h : Holds t c) (b : Bounded t) (q : ℕ) (iq : IsQid q) (p : ℕ)
    (idle : Idle c p) (k : ℕ) (above : slt min_key k ≡ true) where
  seek-place : Found t k p nqent (tail_of q) (c q)
  seek-place =
      seek-Found t k p (tail_of q) nqent (c q) (Chain-behind t q (c q) (h.chain q iq))
        (rw (b.tail q iq, above)) (omega (arith, length-contents q h iq))

  -- `insert` puts a process that is in no queue behind exactly those whose key is at least its
  -- own, records the key, and leaves all other queues and keys alone. The walk always ends.
  pub insert-place :
      (procs : ProcTab)
      → is_bad_pid procs p ≡ false
      → ((insert procs p q k t).0 ≡ ok)
        × Holds (insert procs p q k t).1 (put c q (place t.key k p (c q)))
        × ((insert procs p q k t).1.key ≡ put t.key p k)
  unfolding insert
  insert-place procs good =
      let f = seek-place in
      let at : seek t k nqent (t.next q) ≡ first_or (tail_of q) f.back =
        ap (seek t k nqent) (next-first_or t q (c q) (h.chain q iq)) ∙ f.found in
      let h' = Holds-SameLinks (set_key p k t) h (λ i m. (refl, refl)) in
      let v = first_or (tail_of q) f.back in
      let t' = link_in (t.prev v) p v (set_key p k t) in
      rw (is_bad_qid-IsQid q iq, good, at)
        (
          refl,
          subst (λ l. Holds t' (put c q l)) (sym f.placed)
              (link_in-Holds h' q iq p idle f.front f.back f.whole),
          refl,
        )

-- Descending keys, as signed numbers.
abbrev pub Desc : (ℕ → ℕ) → List ℕ → Type 0
Desc keys [] = Unit
Desc keys (x ∷ []) = Unit
Desc keys (x ∷ y ∷ r) = (bias (keys y) ≤ bias (keys x)) × Desc keys (y ∷ r)

Desc-put :
    (keys : ℕ → ℕ) (p k : ℕ) (l : List ℕ) → has p l ≡ false → Desc keys l → Desc (put keys p k) l
Desc-put keys p k [] out d = tt
Desc-put keys p k (x ∷ []) out d = tt
Desc-put keys p k (x ∷ y ∷ r) out d = (ground arith, Desc-put keys p k (y ∷ r) (ground arith) d.1)

-- A descending list stays descending.
pub place-Desc :
    (keys : ℕ → ℕ) (k p : ℕ) (l : List ℕ)
    → has p l ≡ false
    → Desc keys l
    → Desc (put keys p k) (place keys k p l)
place-Desc keys k p [] out d = tt
place-Desc keys k p (x ∷ []) out d = elim (Bool-cases (sge (keys x) k)) [
  | inl e ↦ rw e (ground arith, tt)
  | inr e ↦ rw e (ground arith, tt)
]
place-Desc keys k p (x ∷ y ∷ r) out d = elim (Bool-cases (sge (keys x) k)) [
  | inl e ↦
      let rest = place-Desc keys k p (y ∷ r) (ground arith) d.1 in
      rw e (elim (Bool-cases (sge (keys y) k)) [
        | inl f ↦ rw f (ground arith, rw f at rest)
        | inr f ↦ rw f (ground arith, rw f at rest)
      ])
  | inr e ↦ rw e (ground arith, Desc-put keys p k (x ∷ y ∷ r) out d)
]

pub has-place :
    (keys : ℕ → ℕ) (k p a : ℕ) (l : List ℕ) → has a (place keys k p l) ≡ (a == p || has a l)
has-place keys k p a [] = ground arith
has-place keys k p a (x ∷ xs) = ground (arith, has-place keys k p a xs)

-- A new key of a process changes no end of a queue.
pub Bounded-put :
    {t : QTab} (t' : QTab) (p k : ℕ) → Bounded t → p < nproc → t'.key ≡ put t.key p k → Bounded t'
Bounded-put {t} t' p k b lt e = record {
  head = λ q iq. subst (λ f. f q ≡ max_key) (sym e) (ground (arith, b.head q iq));
  tail = λ q iq. subst (λ f. f (tail_of q) ≡ min_key) (sym e) (ground (arith, b.tail q iq));
}
