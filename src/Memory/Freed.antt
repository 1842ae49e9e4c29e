-- ===== src/Memory/Freed.antt =====
-- freemem.c as a whole: the heap after a block was given back.
use cs503_lab.Base.{
  ℕ, ◌+◌, ◌-◌, ◌^◌, ◌%◌, ◌≤◌, ◌<◌, ◌≡◌, refl, sym, ap, ◌∙◌, ◌⊎◌, inl, inr, ◌||◌, true, false, List,
  arith, ◌==◌, ltb, add32, add32-small, put_self, Bool-cases,
}
use mathlib.Core.Path.{subst}
use cs503_lab.Config.{ok, syserr}
use cs503_lab.Memory.{
  Mem, roundmb, seek_block, top_of, overlaps, credit, join_prev, join_next, freemem,
}
use cs503_lab.Memory.Blocks.{
  Seg, Spaced, total, inside, covers, IsHeap, Spaced-length, Spaced-total, Seg-frame,
}
use cs503_lab.Memory.Getmem.{roundmb-unit}
use cs503_lab.Memory.Place.{Gave, Clash}
use cs503_lab.Memory.Freemem.{walk}

top_of-credit : (n p : ℕ) (m : Mem) → top_of p (credit n m) ≡ top_of p m
unfolding credit
top_of-credit n p m = elim (Bool-cases (p == m.memlist)) [ inl e ↦ rw e refl | inr e ↦ rw e refl ]

overlaps-credit :
    (b n : ℕ) (at : ℕ × ℕ) (m : Mem) → overlaps b n at (credit n m) ≡ overlaps b n at m
unfolding credit
overlaps-credit b n (p, next) m = elim (Bool-cases (p == m.memlist)) [
  | inl e ↦ rw e refl
  | inr e ↦ rw e refl
]

-- What a release of `n` bytes at `b` makes of the free blocks `l`: the heap is well formed, and
-- exactly the bytes from `b` on, which were not free, are now.
pub record Freed (b n : ℕ) (l : List (ℕ × ℕ)) (m m' : Mem) : Type 0 where
  pub rest : List (ℕ × ℕ)
  pub heap : IsHeap m' rest
  pub sum : total rest ≡ n + total l
  pub split : (x : ℕ) → covers rest x ≡ (inside b n x || covers l x)
  pub apart : (x : ℕ) → inside b n x ≡ true → covers l x ≡ false

module _ {m : Mem} {l : List (ℕ × ℕ)} (h : IsHeap m l) (b n : ℕ) (whole : b % 8 ≡ 0)
    (unit : n % 8 ≡ 0) (pos : 0 < n) (low : m.minheap ≤ b) (within : b + n ≤ m.maxheap) where
  credit-Seg : Seg (credit n m) m.memlist l
  unfolding credit
  credit-Seg =
      Seg-frame m (credit n m) m.minheap m.maxheap m.memlist m.memlist l h.spaced refl
        (λ x le. ground (arith, h.head)) h.seg

  Gave-Freed :
      (m' : Mem)
      → Gave b n m.maxheap h.top whole unit pos within m.minheap m.memlist l (credit n m) m'
      → Freed b n l m m'
  unfolding credit
  Gave-Freed m' t =
      let all = Spaced-total m.minheap m.maxheap t.rest (omega (arith, h.bottom)) t.spaced in
      record {
        rest = t.rest;
        heap = record {
          seg = subst (λ p. Seg m' p t.rest) (sym t.bounds.0) t.seg;
          spaced =
              subst (λ i. Spaced i m'.maxheap t.rest) (sym t.bounds.1)
                (subst (λ i. Spaced m.minheap i t.rest) (sym t.bounds.2) t.spaced);
          free =
              ap m'.size t.bounds.0
              ∙ t.length_p
              ∙ put_self m.size m.memlist (add32 (m.size m.memlist) n)
              ∙ ap (λ i. add32 i n) h.free
              ∙ add32-small (total l) n (omega (arith, all, t.sum, h.top, h.head))
              ∙ (let e : total l + n ≡ total t.rest = omega (arith, t.sum) in e);
          head = omega (arith, h.head, t.bounds);
          top = omega (arith, h.top, t.bounds);
          bottom = omega (arith, h.bottom, t.bounds);
        };
        sum = t.sum;
        split = t.split;
        apart = t.apart;
      }

  calm : top_of m.memlist (credit n m) < b
  unfolding credit
  calm =
      let listed : (m.memlist == m.memlist) ≡ true = ground arith in
      rw listed (omega (arith, h.head))

  found : ℕ × ℕ
  found = seek_block m.next b m.maxheap m.memlist (m.next m.memlist)

  walked :
      ((overlaps b n found m ≡ true) × Clash b n m.maxheap h.top whole unit pos within l)
      ⊎ ((overlaps b n found m ≡ false)
          × Freed b n l m (join_next found.1 (join_prev b n found (top_of found.0 m) (credit n m))))
  unfolding found credit
  walked =
      let fuel = Spaced-length m.minheap m.maxheap l (omega (arith, h.bottom)) h.spaced in
      elim (walk b n m.maxheap h.top whole unit pos within (credit n m) m.maxheap m.minheap
        m.memlist l h.head (omega (arith, h.head)) low h.head credit-Seg h.spaced calm
        (omega (arith, fuel, h.bottom, h.head))) [
          | inl c ↦ inl (sym (overlaps-credit b n found m) ∙ c.0, c.1)
          | inr t ↦ inr (
            sym (overlaps-credit b n found m) ∙ t.0,
            subst (λ i. Freed b n l m (join_next found.1 (join_prev b n found i (credit n m))))
                (top_of-credit n found.0 m) (Gave-Freed _ t.1),
          )
        ]

-- `freemem` of a block inside the heap whose address is a multiple of 8: either the call succeeds,
-- and then no byte of the rounded block was free, all are afterwards, the other free bytes stay so,
-- and the heap stays well formed, with no two free blocks adjacent; or some byte of it is free
-- already, and the call fails and changes nothing.
pub freemem_lem :
    {m : Mem} {l : List (ℕ × ℕ)} (h : IsHeap m l) (b nbytes : ℕ)
    → 0 < nbytes
    → nbytes ≤ 2 ^ 32 - 8
    → b % 8 ≡ 0
    → m.minheap ≤ b
    → b + roundmb nbytes ≤ m.maxheap
    → (((freemem b nbytes m).0 ≡ ok) × Freed b (roundmb nbytes) l m (freemem b nbytes m).1)
      ⊎ ((freemem b nbytes m ≡ (syserr, m))
          × ((x : ℕ) × (inside b (roundmb nbytes) x ≡ true) × (covers l x ≡ true)))
unfolding freemem found
freemem_lem {m} {l} h b nbytes pos small whole low within =
    let u = roundmb-unit nbytes pos small in
    let test : ((nbytes == 0 || ltb b m.minheap) || ltb m.maxheap b) ≡ false = ground arith in
    elim (walked h b (roundmb nbytes) whole u.0 (omega (arith, u)) low within) [
      | inl c ↦ rw (test, c.0) (inr (refl, c.1))
      | inr t ↦ rw (test, t.0) (inl (refl, t.1))
    ]
