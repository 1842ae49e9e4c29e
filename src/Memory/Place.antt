-- ===== src/Memory/Place.antt =====
-- freemem.c: what linking a block in does to the free list.
use cs503_lab.Base.{
  ℕ, ◌+◌, ◌^◌, ◌%◌, ◌≤◌, ◌<◌, ◌≡◌, refl, ◌∙◌, ◌||◌, true, false, List, ◌∷◌, arith, ◌==◌, add32,
  add32-small, put, put_self,
}
use mathlib.Core.Path.{subst}
use cs503_lab.Memory.{Mem, set_mnext, set_mlength, top_of, join_prev, join_next}
use cs503_lab.Memory.Blocks.{Seg, Spaced, total, inside, covers, covers-below, Seg-frame}
use cs503_lab.Memory.Join.{Joined, join_next-Joined}

module _ (b n high : ℕ) (top : high < 2 ^ 32) (whole : b % 8 ≡ 0) (unit : n % 8 ≡ 0) (pos : 0 < n)
    (within : b + n ≤ high) where
  -- Both joins, at the place that the walk found
  abbrev pub give : Mem → ℕ × ℕ → Mem
  give m at = join_next at.1 (join_prev b n at (top_of at.0 m) m)

  -- From the node at `p` on, the blocks `l` of memory `m` have become `rest` in `m'`, with the `n`
  -- addresses from `b` on added.
  pub record Gave (low p : ℕ) (l : List (ℕ × ℕ)) (m m' : Mem) : Type 0 where
    pub rest : List (ℕ × ℕ)
    pub seg : Seg m' p rest
    pub spaced : Spaced low high rest
    pub sum : total rest ≡ n + total l
    pub split : (x : ℕ) → covers rest x ≡ (inside b n x || covers l x)
    pub apart : (x : ℕ) → inside b n x ≡ true → covers l x ≡ false
    pub frame : (x : ℕ) → x < p → (m'.next x ≡ m.next x) × (m'.size x ≡ m.size x)
    pub length_p : m'.size p ≡ m.size p
    pub bounds : (m'.memlist ≡ m.memlist) × (m'.minheap ≡ m.minheap) × (m'.maxheap ≡ m.maxheap)

  -- A byte of the block is already free.
  abbrev pub Clash : List (ℕ × ℕ) → Type 0
  Clash l = (x : ℕ) × (inside b n x ≡ true) × (covers l x ≡ true)

  abbrev linked : ℕ → Mem → Mem
  linked p m = set_mnext p b (set_mlength b n (set_mnext b (m.next p) m))

  pub new_node :
      (m : Mem) (low p : ℕ) (l : List (ℕ × ℕ))
      → p < b
      → low ≤ b
      → Seg m p l
      → Spaced (b + n) high l
      → (top_of p m == b) ≡ false
      → Gave low p l m (give m (p, m.next p))
  unfolding join_prev
  new_node m low p l lt le g d apart =
      let next : (linked p m).next b ≡ m.next p = ground arith in
      let j =
        join_next-Joined high top b n (omega arith) pos unit within (linked p m)
          (put_self m.size b n) l
          (Seg-frame m (linked p m) (b + n) high p b l d next (λ x l. ground arith) g) d in
      let j' = subst (λ i. Joined high b n l (linked p m) (join_next i (b, linked p m))) next j in
      rw apart (record {
        rest = (b, j'.size) ∷ j'.rest;
        seg = (
          (j'.frame p (omega arith)).0 ∙ put_self (put m.next b (m.next p)) p b,
          j'.size_b,
          j'.seg,
        );
        spaced = (le, omega (arith, j'.within), whole, j'.unit, j'.within.1, j'.spaced);
        sum = j'.sum;
        split = j'.split;
        apart = λ x i. covers-below (b + n) high l x d (ground arith);
        frame =
            λ x xl. let f = j'.frame x (omega arith) in (f.0 ∙ ground arith, f.1 ∙ ground arith);
        length_p = (j'.frame p (omega arith)).1 ∙ ground arith;
        bounds = j'.bounds;
      })

  abbrev grown : ℕ → ℕ → Mem → Mem
  grown a s m = set_mlength a (s + n) m

  pub coalesce :
      (m : Mem) (low p a s : ℕ) (r : List (ℕ × ℕ))
      → p < low
      → m.memlist < low
      → Seg m p ((a, s) ∷ r)
      → Spaced low high ((a, s) ∷ r)
      → a + s ≡ b
      → Spaced (b + n) high r
      → Gave low p ((a, s) ∷ r) m (give m (a, m.next a))
  unfolding join_prev
  coalesce m low p a s r lt ml g d e d' =
      let j =
        join_next-Joined high top a (s + n) (omega (arith, d.0)) (omega arith) (omega (arith, d.3))
          (omega arith) (grown a s m) (put_self m.size a (s + n)) r
          (Seg-frame m (grown a s m) (a + s + 1) high a a r d.5 refl (λ x l. ground arith) g.2)
          (subst (λ i. Spaced i high r) (let f : b + n ≡ a + (s + n) = omega arith in f) d') in
      let sum : add32 a s ≡ b = add32-small a s (omega arith) ∙ e in
      let listed : (a == m.memlist) ≡ false = ground (arith, d.0) in
      let test : (b == b) ≡ true = ground arith in
      let more : add32 s n ≡ s + n = add32-small s n (omega arith) in
      rw (listed, g.1, sum, test, more)
        (record {
          rest = (a, j.size) ∷ j.rest;
          seg = ((j.frame p (omega (arith, d.0))).0 ∙ g.0, j.size_b, j.seg);
          spaced = (d.0, omega (arith, j.within), d.2, j.unit, j.within.1, j.spaced);
          sum = omega (arith, j.sum);
          split = λ x. ground (arith, j.split x);
          apart = λ x i. ground (arith, covers-below (b + n) high r x d');
          frame =
              λ x xl. let f = j.frame x (omega (arith, d.0)) in (f.0, f.1 ∙ ground (arith, d.0));
          length_p = (j.frame p (omega (arith, d.0))).1 ∙ ground (arith, d.0);
          bounds = j.bounds;
        })

  pub Gave-behind :
      (m m' : Mem) (low p a s : ℕ) (r : List (ℕ × ℕ))
      → p < low
      → Seg m p ((a, s) ∷ r)
      → Spaced low high ((a, s) ∷ r)
      → a + s < b
      → Gave (a + s + 1) a r m m'
      → Gave low p ((a, s) ∷ r) m m'
  Gave-behind m m' low p a s r lt g d past t = record {
    rest = (a, s) ∷ t.rest;
    seg = ((t.frame p (omega (arith, d.0))).0 ∙ g.0, t.length_p ∙ g.1, t.seg);
    spaced = (d.0, d.1, d.2, d.3, d.4, t.spaced);
    sum = omega (arith, t.sum);
    split = λ x. ground (arith, t.split x);
    apart = λ x i. ground (arith, t.apart x);
    frame = λ x xl. t.frame x (omega (arith, d.0));
    length_p = (t.frame p (omega (arith, d.0))).1;
    bounds = t.bounds;
  }
