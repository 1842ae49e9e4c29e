-- ===== src/Memory/Getmem.antt =====
-- getmem.c against the blocks of the free list.
use cs503_lab.Base.{
  ℕ, zero, suc, ◌+◌, ◌-◌, ◌^◌, ◌%◌, ◌≤◌, ◌<◌, ◌≡◌, refl, sym, ap, ◌∙◌, ◌≢◌, ◌⊎◌, inl, inr, ◌||◌,
  true, false, List, [], ◌∷◌, arith, ◌==◌, leb, sub32, sub32-small, put_self, Bool-cases, length,
}
use mathlib.Core.Path.{subst}
use cs503_lab.Config.{syserr}
use cs503_lab.Memory.{Mem, roundmb, find_fit, take_fit, charge, getmem}
use cs503_lab.Memory.Blocks.{
  Seg, Spaced, total, inside, covers, IsHeap, Spaced-length, Spaced-total, Seg-frame,
}
use cs503_lab.Memory.Take.{Took, NoFit, Took-behind, take_here}

module _ (m : Mem) (n : ℕ) (unit : n % 8 ≡ 0) (pos : 0 < n) (high : ℕ) (top : high < 2 ^ 32) where
  -- The walk from `p` finds the first block that fits, and what it does to that block; or it ends
  -- with no block.
  alloc : ℕ → ℕ → Mem
  alloc fuel p = take_fit n (find_fit m n fuel p (m.next p)) m

  find_fit-skip :
      (fuel p a s : ℕ)
      → m.next p ≡ a
      → m.size a ≡ s
      → a ≢ 0
      → s < n
      → find_fit m n (suc fuel) p (m.next p) ≡ find_fit m n fuel a (m.next a)
  unfolding find_fit
  find_fit-skip fuel p a s at size ne less =
      let test : (a == 0 || leb n s) ≡ false = ground arith in rw (at, size, test) refl

  find_fit-here :
      (fuel p a s : ℕ)
      → m.next p ≡ a
      → m.size a ≡ s
      → n ≤ s
      → find_fit m n (suc fuel) p (m.next p) ≡ (p, m.next p)
  unfolding find_fit
  find_fit-here fuel p a s at size le =
      let test : (a == 0 || leb n s) ≡ true = ground arith in rw (at, size, test) refl

  find_fit-ends : (fuel p : ℕ) → m.next p ≡ 0 → (find_fit m n (suc fuel) p (m.next p)).1 ≡ 0
  unfolding find_fit
  find_fit-ends fuel p at = rw at refl

  -- What the walk of `fuel` steps from `p` comes to.
  pub Walked : ℕ → ℕ → ℕ → List (ℕ × ℕ) → Type 0
  unfolding alloc
  Walked fuel low p l =
      let a = (find_fit m n fuel p (m.next p)).1 in
      (a ≢ 0) × Took n low high p a l m (alloc fuel p) ⊎ (a ≡ 0) × NoFit n l

  walk :
      (fuel low p : ℕ) (l : List (ℕ × ℕ))
      → p < low
      → Seg m p l
      → Spaced low high l
      → length l < fuel
      → Walked fuel low p l
  unfolding Walked alloc
  walk zero low p l lt g d le = absurd (omega arith)
  walk (suc fuel) low p [] lt g d le = inr (find_fit-ends fuel p g, tt)
  walk (suc fuel) low p ((a, s) ∷ r) lt g d le = elim (Bool-cases (leb n s)) [
    | inl e ↦
        let here = find_fit-here fuel p a s g.0 g.1 (ground arith) in
        rw here (
          inl (
            omega (arith, g.0, d.0),
            subst (λ b. Took n low high p b ((a, s) ∷ r) m (take_fit n (p, m.next p) m)) (sym g.0)
                (take_here m n unit pos high top low p a s r lt g d (ground arith)),
          ))
    | inr e ↦
        let skip = find_fit-skip fuel p a s g.0 g.1 (omega (arith, d.0)) (ground arith) in
        rw skip (elim (walk fuel (a + s + 1) a r (omega arith) g.2 d.5 (omega arith)) [
          | inl t ↦ inl (t.0, Took-behind m n unit pos high top low p a s _ r _ lt g d t.1)
          | inr none ↦ inr (none.0, (ground arith, none.1))
        ])
  ]

-- What an allocation of `n` bytes leaves of the free blocks `l`: the heap is well formed, and
-- exactly the bytes from `a` on, which were free, are no longer.
pub record Got (n a : ℕ) (l : List (ℕ × ℕ)) (m m' : Mem) : Type 0 where
  pub rest : List (ℕ × ℕ)
  pub heap : IsHeap m' rest
  pub sum : total l ≡ n + total rest
  pub split : (x : ℕ) → covers l x ≡ (inside a n x || covers rest x)
  pub apart : (x : ℕ) → inside a n x ≡ true → covers rest x ≡ false
  pub within : (m.minheap ≤ a) × (a + n ≤ m.maxheap) × (a % 8 ≡ 0)
  pub bounds : (m'.memlist ≡ m.memlist) × (m'.minheap ≡ m.minheap) × (m'.maxheap ≡ m.maxheap)

pub charge-Got :
    {m m' : Mem} {l : List (ℕ × ℕ)} (n a : ℕ)
    → IsHeap m l
    → Took n m.minheap m.maxheap m.memlist a l m m'
    → Got n a l m (charge n m')
unfolding charge
charge-Got {m} {m'} {l} n a h t =
    let high : m.maxheap < 2 ^ 32 = h.top in
    let all = Spaced-total m.minheap m.maxheap l (omega (arith, h.bottom)) h.spaced in
    record {
      rest = t.rest;
      heap = record {
        seg =
            subst (λ p. Seg (charge n m') p t.rest) (sym t.bounds.0)
              (Seg-frame m' (charge n m') m.minheap m.maxheap m.memlist m.memlist t.rest t.spaced
                refl (λ x le. ground (arith, h.head, t.bounds.0)) t.seg);
        spaced =
            subst (λ b. Spaced b m'.maxheap t.rest) (sym t.bounds.1)
              (subst (λ b. Spaced m.minheap b t.rest) (sym t.bounds.2) t.spaced);
        free =
            put_self m'.size m'.memlist (sub32 (m'.size m'.memlist) n)
            ∙ ap (λ p. sub32 (m'.size p) n) t.bounds.0
            ∙ ap (λ f. sub32 f n) (t.length_p ∙ h.free)
            ∙ sub32-small (total l) n (omega (arith, t.sum)) (omega (arith, all, h.head))
            ∙ (let e : total l - n ≡ total t.rest = omega (arith, t.sum) in e);
        head = omega (arith, h.head, t.bounds);
        top = omega (arith, h.top, t.bounds);
        bottom = omega (arith, h.bottom, t.bounds);
      };
      sum = t.sum;
      split = t.split;
      apart = t.apart;
      within = t.within;
      bounds = t.bounds;
    }

pub is_null-eq : (a : ℕ) → a ≡ 0 → (a == 0) ≡ true
is_null-eq a e = ground arith

pub is_null-ne : (a : ℕ) → a ≢ 0 → (a == 0) ≡ false
is_null-ne a ne = ground arith

pub roundmb-unit :
    (nbytes : ℕ)
    → 0 < nbytes
    → nbytes ≤ 2 ^ 32 - 8
    → (roundmb nbytes % 8 ≡ 0) × (nbytes ≤ roundmb nbytes) × (roundmb nbytes < nbytes + 8)
roundmb-unit nbytes pos small = (omega arith, omega arith, omega arith)

-- `getmem` of a size that does not wrap when it is rounded up: either it returns a block of whole
-- units inside the heap, of which every byte was free and none is after the call, while all other
-- free bytes stay so and the heap stays well formed; or it fails, changes nothing, and no free
-- block is long enough.
pub getmem_lem :
    {m : Mem} {l : List (ℕ × ℕ)} (h : IsHeap m l) (nbytes : ℕ)
    → 0 < nbytes
    → nbytes ≤ 2 ^ 32 - 8
    → Got (roundmb nbytes) (getmem nbytes m).0 l m (getmem nbytes m).1
      ⊎ (getmem nbytes m ≡ (syserr, m)) × NoFit (roundmb nbytes) l
unfolding getmem Walked alloc
getmem_lem {m} {l} h nbytes pos small =
    let u = roundmb-unit nbytes pos small in
    let some : (nbytes == 0) ≡ false = ground arith in
    let fuel = Spaced-length m.minheap m.maxheap l (omega (arith, h.bottom)) h.spaced in
    elim (walk m (roundmb nbytes) u.0 (omega (arith, u)) m.maxheap h.top m.maxheap m.minheap
      m.memlist l h.head h.seg h.spaced (omega (arith, fuel, h.head, h.bottom))) [
        | inl t ↦
            let found : ((find_fit m (roundmb nbytes) m.maxheap m.memlist (m.next m.memlist)).1
                  == 0)
                ≡ false =
              is_null-ne _ t.0 in
            rw (some, found) (inl (charge-Got (roundmb nbytes) _ h t.1))
        | inr none ↦
            let missed : ((find_fit m (roundmb nbytes) m.maxheap m.memlist (m.next m.memlist)).1
                  == 0)
                ≡ true =
              is_null-eq _ none.0 in
            rw (some, missed) (inr (refl, none.1))
      ]
