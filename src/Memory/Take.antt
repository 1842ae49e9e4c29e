-- ===== src/Memory/Take.antt =====
-- getmem.c: what taking a block does to the free list.
use cs503_lab.Base.{
  ℕ, ◌+◌, ◌-◌, ◌^◌, ◌%◌, ◌≤◌, ◌<◌, ◌≡◌, refl, sym, ap, ◌∙◌, ◌≢◌, inl, inr, ◌||◌, true, false, List,
  [], ◌∷◌, arith, ◌==◌, add32, add32-small, sub32, sub32-small, put, put_self, Bool-cases,
}
use mathlib.Core.Path.{subst}
use cs503_lab.Memory.{Mem, set_mnext, set_mlength, take_fit}
use cs503_lab.Memory.Blocks.{
  Seg, Spaced, total, inside, covers, Spaced-weaken, covers-below, Seg-frame,
}

-- From the node at `p` on, the blocks `l` of memory `m` have become `rest` in `m'`, without the `n`
-- addresses from `a` on. The nodes below `p` and the length at `p` are as before.
pub record Took (n low high p a : ℕ) (l : List (ℕ × ℕ)) (m m' : Mem) : Type 0 where
  pub rest : List (ℕ × ℕ)
  pub seg : Seg m' p rest
  pub spaced : Spaced low high rest
  pub sum : total l ≡ n + total rest
  pub split : (x : ℕ) → covers l x ≡ (inside a n x || covers rest x)
  pub apart : (x : ℕ) → inside a n x ≡ true → covers rest x ≡ false
  pub frame : (x : ℕ) → x < p → (m'.next x ≡ m.next x) × (m'.size x ≡ m.size x)
  pub length_p : m'.size p ≡ m.size p
  pub bounds : (m'.memlist ≡ m.memlist) × (m'.minheap ≡ m.minheap) × (m'.maxheap ≡ m.maxheap)
  pub within : (low ≤ a) × (a + n ≤ high) × (a % 8 ≡ 0)

-- No block is long enough.
abbrev pub NoFit : ℕ → List (ℕ × ℕ) → Type 0
NoFit n [] = Unit
NoFit n ((a, s) ∷ r) = (s < n) × NoFit n r

module _ (m : Mem) (n : ℕ) (unit : n % 8 ≡ 0) (pos : 0 < n) (high : ℕ) (top : high < 2 ^ 32) where
  take_exact :
      (low p a s : ℕ) (r : List (ℕ × ℕ))
      → p < low
      → Seg m p ((a, s) ∷ r)
      → Spaced low high ((a, s) ∷ r)
      → s ≡ n
      → Took n low high p a ((a, s) ∷ r) m (take_fit n (p, m.next p) m)
  unfolding take_fit
  take_exact low p a s r lt g d e =
      let test : (m.size (m.next p) == n) ≡ true = ground (arith, g.0, g.1) in
      let next : m.next (m.next p) ≡ m.next a = ap m.next g.0 in
      rw test (record {
        rest = r;
        seg =
            Seg-frame m (set_mnext p (m.next (m.next p)) m) (a + s + 1) high a p r d.5
              (put_self m.next p (m.next (m.next p)) ∙ next) (λ x le. ground (arith, d.0)) g.2;
        spaced = Spaced-weaken (a + s + 1) low high r (omega (arith, d.0)) d.5;
        sum = omega arith;
        split = λ x. ground arith;
        apart = λ x i. covers-below (a + s + 1) high r x d.5 (ground arith);
        frame = λ x xl. ground arith;
        length_p = refl;
        bounds = (refl, refl, refl);
        within = (d.0, omega (arith, d.4), d.2);
      })

  -- The memory after a block at `a` of `s` bytes, to which `p` links, has lost its lower `n` bytes
  abbrev cut : ℕ → ℕ → ℕ → Mem
  cut p a s = set_mlength (a + n) (s - n) (set_mnext (a + n) (m.next a) (set_mnext p (a + n) m))

  take_fit-cut :
      (p a s : ℕ)
      → p ≢ a
      → m.next p ≡ a
      → m.size a ≡ s
      → n < s
      → a + s < 2 ^ 32
      → take_fit n (p, m.next p) m ≡ cut p a s
  unfolding take_fit
  take_fit-cut p a s ne at size less small =
      let test : (m.size a == n) ≡ false = ground (arith, size) in
      let left : add32 a n ≡ a + n = add32-small a n (omega arith) in
      let rest : sub32 s n ≡ s - n = sub32-small s n (omega arith) (omega arith) in
      let keep : (a == p) ≡ false = ground arith in rw (at, test, left, size, rest, keep) refl

  take_bigger :
      (low p a s : ℕ) (r : List (ℕ × ℕ))
      → p < low
      → Seg m p ((a, s) ∷ r)
      → Spaced low high ((a, s) ∷ r)
      → n < s
      → Took n low high p a ((a, s) ∷ r) m (cut p a s)
  take_bigger low p a s r lt g d less = record {
    rest = (a + n, s - n) ∷ r;
    seg = (
      ground (arith, d.0),
      put_self m.size (a + n) (s - n),
      Seg-frame m (cut p a s) (a + s + 1) high a (a + n) r d.5
          (put_self (put m.next p (a + n)) (a + n) (m.next a)) (λ x le. ground (arith, d.0)) g.2,
    );
    spaced = (
      omega (arith, d.0),
      omega arith,
      omega (arith, d.2),
      omega (arith, d.3),
      omega (arith, d.4),
      Spaced-weaken (a + s + 1) (a + n + (s - n) + 1) high r (omega arith) d.5,
    );
    sum = omega arith;
    split = λ x. ground arith;
    apart = λ x i. ground (arith, covers-below (a + s + 1) high r x d.5);
    frame = λ x xl. ground (arith, d.0);
    length_p = ground (arith, d.0);
    bounds = (refl, refl, refl);
    within = (d.0, omega (arith, d.4), d.2);
  }

  pub Took-behind :
      (low p a s b : ℕ) (r : List (ℕ × ℕ)) (m' : Mem)
      → p < low
      → Seg m p ((a, s) ∷ r)
      → Spaced low high ((a, s) ∷ r)
      → Took n (a + s + 1) high a b r m m'
      → Took n low high p b ((a, s) ∷ r) m m'
  Took-behind low p a s b r m' lt g d t = record {
    rest = (a, s) ∷ t.rest;
    seg = ((t.frame p (omega (arith, d.0))).0 ∙ g.0, t.length_p ∙ g.1, t.seg);
    spaced = (d.0, d.1, d.2, d.3, d.4, t.spaced);
    sum = omega (arith, t.sum);
    split = λ x. ground (arith, t.split x);
    apart = λ x i. ground (arith, t.apart x, t.within.0);
    frame = λ x xl. t.frame x (omega (arith, d.0));
    length_p = (t.frame p (omega (arith, d.0))).1;
    bounds = t.bounds;
    within = (omega (arith, d.0, t.within), t.within.1, t.within.2);
  }

  pub take_here :
      (low p a s : ℕ) (r : List (ℕ × ℕ))
      → p < low
      → Seg m p ((a, s) ∷ r)
      → Spaced low high ((a, s) ∷ r)
      → n ≤ s
      → Took n low high p a ((a, s) ∷ r) m (take_fit n (p, m.next p) m)
  take_here low p a s r lt g d le = elim (Bool-cases (s == n)) [
    | inl e ↦ take_exact low p a s r lt g d (ground arith)
    | inr e ↦
        let less : n < s = ground arith in
        subst (Took n low high p a ((a, s) ∷ r) m)
          (sym (take_fit-cut p a s (omega (arith, d.0)) g.0 g.1 less (omega (arith, d.4))))
          (take_bigger low p a s r lt g d less)
  ]
