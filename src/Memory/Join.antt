-- ===== src/Memory/Join.antt =====
-- freemem.c's last step: a block is joined to the next one, if that is adjacent.
use cs503_lab.Base.{
  ℕ, ◌+◌, ◌^◌, ◌%◌, ◌≤◌, ◌<◌, ◌≡◌, refl, ap, ◌∙◌, ◌≢◌, inl, inr, ◌||◌, true, false, List, [], ◌∷◌,
  arith, ◌==◌, add32, add32-small, put_self, Bool-cases,
}
use cs503_lab.Memory.{Mem, set_mnext, set_mlength, join_next}
use cs503_lab.Memory.Blocks.{Seg, Spaced, total, inside, covers, Seg-frame, Spaced-weaken}

-- The block at `b` of `s` bytes, before the blocks `r` of memory `m`, has grown in `m'` to `size`
-- bytes, before the blocks `rest`: the same bytes are free.
pub record Joined (high b s : ℕ) (r : List (ℕ × ℕ)) (m m' : Mem) : Type 0 where
  pub size : ℕ
  pub rest : List (ℕ × ℕ)
  pub size_b : m'.size b ≡ size
  pub seg : Seg m' b rest
  pub unit : size % 8 ≡ 0
  pub spaced : Spaced (b + size + 1) high rest
  pub within : (s ≤ size) × (b + size ≤ high)
  pub sum : size + total rest ≡ s + total r
  pub split : (x : ℕ) → (inside b size x || covers rest x) ≡ (inside b s x || covers r x)
  pub frame : (x : ℕ) → x ≢ b → (m'.next x ≡ m.next x) × (m'.size x ≡ m.size x)
  pub bounds : (m'.memlist ≡ m.memlist) × (m'.minheap ≡ m.minheap) × (m'.maxheap ≡ m.maxheap)

module _ (high : ℕ) (top : high < 2 ^ 32) (b s : ℕ) (pos : 0 < b) (some : 0 < s) (unit : s % 8 ≡ 0)
    (le : b + s ≤ high) (m : Mem) (size : m.size b ≡ s) where
  end_of : add32 b (m.size b) ≡ b + s
  end_of = ap (add32 b) size ∙ add32-small b s (omega arith)

  unjoined : (r : List (ℕ × ℕ)) → Seg m b r → Spaced (b + s + 1) high r → Joined high b s r m m
  unjoined r g d = record {
    size = s;
    rest = r;
    size_b = size;
    seg = g;
    unit = unit;
    spaced = d;
    within = (omega arith, le);
    sum = refl;
    split = λ x. refl;
    frame = λ x ne. (refl, refl);
    bounds = (refl, refl, refl);
  }

  abbrev merged : ℕ → ℕ → Mem
  merged a t = set_mnext b (m.next a) (set_mlength b (s + t) m)

  joined :
      (a t : ℕ) (r : List (ℕ × ℕ))
      → Seg m b ((a, t) ∷ r)
      → Spaced (b + s) high ((a, t) ∷ r)
      → b + s ≡ a
      → Joined high b s ((a, t) ∷ r) m (merged a t)
  joined a t r g d e = record {
    size = s + t;
    rest = r;
    size_b = put_self m.size b (s + t);
    seg =
        Seg-frame m (merged a t) (a + t + 1) high a b r d.5 (put_self m.next b (m.next a))
          (λ x l. ground (arith, d.0)) g.2;
    unit = omega (arith, d.3);
    spaced = Spaced-weaken (a + t + 1) (b + (s + t) + 1) high r (omega arith) d.5;
    within = (omega arith, omega (arith, d.4));
    sum = omega arith;
    split = λ x. ground arith;
    frame = λ x ne. ground arith;
    bounds = (refl, refl, refl);
  }

  -- The step on a block with its end at or below the next one
  pub join_next-Joined :
      (r : List (ℕ × ℕ))
      → Seg m b r
      → Spaced (b + s) high r
      → Joined high b s r m (join_next (m.next b) (b, m))
  unfolding join_next
  join_next-Joined [] g d =
      let test : (add32 b (m.size b) == m.next b) ≡ false = ground (arith, end_of, g) in
      rw test (unjoined [] g tt)
  join_next-Joined ((a, t) ∷ r) g d = elim (Bool-cases (b + s == a)) [
    | inl e ↦
        let test : (add32 b (m.size b) == m.next b) ≡ true = ground (arith, end_of, g.0) in
        let grown : add32 (m.size b) (m.size (m.next b)) ≡ s + t =
          ap (λ i. add32 i (m.size (m.next b))) size
          ∙ ap (λ i. add32 s (m.size i)) g.0
          ∙ ap (add32 s) g.1
          ∙ add32-small s t (omega (arith, d.4, d.0)) in
        let at : m.next (m.next b) ≡ m.next a = ap m.next g.0 in
        rw (test, grown, at) (joined a t r g d (ground arith))
    | inr ne ↦
        let test : (add32 b (m.size b) == m.next b) ≡ false = ground (arith, end_of, g.0) in
        rw test (unjoined ((a, t) ∷ r) g (ground (arith, d.0), d.1, d.2, d.3, d.4, d.5))
  ]
