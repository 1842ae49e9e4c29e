-- ===== src/Memory/Getstk.antt =====
-- getstk.c against the blocks of the free list.
use cs503_lab.Base.{
  ℕ, zero, suc, ◌+◌, ◌-◌, ◌^◌, ◌%◌, ◌≤◌, ◌<◌, ◌≡◌, refl, sym, ap, ◌∙◌, ◌≢◌, ◌⊎◌, inl, inr, true,
  false, List, [], ◌∷◌, arith, ◌==◌, if◌then◌else◌, leb, add32, add32-small, sub32, sub32-small,
  put_self, Bool-cases, length,
}
use mathlib.Core.Path.{subst}
use cs503_lab.Config.{syserr}
use cs503_lab.Memory.{Mem, set_mnext, set_mlength, roundmb, scan_fits, take_top, getstk}
use cs503_lab.Memory.Blocks.{
  Seg, Spaced, IsHeap, Spaced-weaken, covers-below, Spaced-length, Seg-frame,
}
use cs503_lab.Memory.Take.{Took, NoFit, Took-behind}
use cs503_lab.Memory.Getmem.{Got, charge-Got, roundmb-unit, is_null-eq, is_null-ne}

-- The `n` bytes from `a` on are the top of the last block of the list that is long enough.
abbrev pub LastFit : ℕ → ℕ → List (ℕ × ℕ) → Type 0
LastFit n a [] = ⊥
LastFit n a ((b, s) ∷ r) = (NoFit n r × (n ≤ s) × (a ≡ b + (s - n))) ⊎ LastFit n a r

module _ (m : Mem) (n : ℕ) (unit : n % 8 ≡ 0) (pos : 0 < n) (high : ℕ) (top : high < 2 ^ 32) where
  -- The whole block, or its upper part
  take_whole :
      (low p a s : ℕ) (r : List (ℕ × ℕ))
      → p < low
      → Seg m p ((a, s) ∷ r)
      → Spaced low high ((a, s) ∷ r)
      → n ≡ s
      → Took n low high p (take_top n (p, a) m).0 ((a, s) ∷ r) m (take_top n (p, a) m).1
  unfolding take_top
  take_whole low p a s r lt g d e =
      let test : (n == m.size a) ≡ true = ground (arith, g.1) in
      rw test (record {
        rest = r;
        seg =
            Seg-frame m (set_mnext p (m.next a) m) (a + s + 1) high a p r d.5
              (put_self m.next p (m.next a)) (λ x le. ground (arith, d.0)) g.2;
        spaced = Spaced-weaken (a + s + 1) low high r (omega (arith, d.0)) d.5;
        sum = omega arith;
        split = λ x. ground arith;
        apart = λ x i. covers-below (a + s + 1) high r x d.5 (ground arith);
        frame = λ x xl. ground arith;
        length_p = refl;
        bounds = (refl, refl, refl);
        within = (d.0, omega (arith, d.4), d.2);
      })

  abbrev shortened : ℕ → ℕ → Mem
  shortened a s = set_mlength a (s - n) m

  take_top-shortened :
      (p a s : ℕ)
      → m.size a ≡ s
      → n < s
      → a + s < 2 ^ 32
      → take_top n (p, a) m ≡ (a + (s - n), shortened a s)
  unfolding take_top
  take_top-shortened p a s size less small =
      let test : (n == s) ≡ false = ground arith in
      let rest : sub32 s n ≡ s - n = sub32-small s n (omega arith) (omega arith) in
      let same : (a == a) ≡ true = ground arith in
      let at : add32 a (s - n) ≡ a + (s - n) = add32-small a (s - n) (omega arith) in
      rw (size, test, rest, same, at) refl

  take_upper :
      (low p a s : ℕ) (r : List (ℕ × ℕ))
      → p < low
      → Seg m p ((a, s) ∷ r)
      → Spaced low high ((a, s) ∷ r)
      → n < s
      → Took n low high p (a + (s - n)) ((a, s) ∷ r) m (shortened a s)
  take_upper low p a s r lt g d less = record {
    rest = (a, s - n) ∷ r;
    seg = (
      g.0,
      put_self m.size a (s - n),
      Seg-frame m (shortened a s) (a + s + 1) high a a r d.5 refl (λ x le. ground arith) g.2,
    );
    spaced = (
      d.0,
      omega arith,
      d.2,
      omega (arith, d.3),
      omega (arith, d.4),
      Spaced-weaken (a + s + 1) (a + (s - n) + 1) high r (omega arith) d.5,
    );
    sum = omega arith;
    split = λ x. ground arith;
    apart = λ x i. ground (arith, covers-below (a + s + 1) high r x d.5);
    frame = λ x xl. ground (arith, d.0);
    length_p = ground (arith, d.0);
    bounds = (refl, refl, refl);
    within = (omega (arith, d.0), omega (arith, d.4), omega (arith, d.2, d.3));
  }

  take_fits :
      (low p a s : ℕ) (r : List (ℕ × ℕ))
      → p < low
      → Seg m p ((a, s) ∷ r)
      → Spaced low high ((a, s) ∷ r)
      → n ≤ s
      → Took n low high p (take_top n (p, a) m).0 ((a, s) ∷ r) m (take_top n (p, a) m).1
  take_fits low p a s r lt g d le = elim (Bool-cases (n == s)) [
    | inl e ↦ take_whole low p a s r lt g d (ground arith)
    | inr e ↦
        let less : n < s = ground arith in
        rw (take_top-shortened p a s g.1 less (omega (arith, d.4)))
          (take_upper low p a s r lt g d less)
  ]

  take_top-at :
      (p a s : ℕ) → m.size a ≡ s → n ≤ s → a + s < 2 ^ 32 → (take_top n (p, a) m).0 ≡ a + (s - n)
  unfolding take_top
  take_top-at p a s size le small = elim (Bool-cases (n == s)) [
    | inl e ↦ let whole : a ≡ a + (s - n) = ground arith in rw (size, e) whole
    | inr e ↦ ap (λ i. i.0) (take_top-shortened p a s size (ground arith) small)
  ]

  -- What the scan from `p` comes to, with `fits` the last block that fitted before.
  abbrev Scanned : ℕ × ℕ → ℕ × ℕ → ℕ → ℕ → List (ℕ × ℕ) → Type 0
  Scanned fits found low p l =
      ((found ≡ fits) × NoFit n l)
      ⊎ ((found.1 ≢ 0)
          × Took n low high p (take_top n found m).0 l m (take_top n found m).1
          × LastFit n (take_top n found m).0 l)

  scan_fits-step :
      (fuel p a : ℕ) (fits : ℕ × ℕ)
      → m.next p ≡ a
      → a ≢ 0
      → scan_fits m n (suc fuel) p (m.next p) fits
        ≡ scan_fits m n fuel a (m.next a) (if leb n (m.size a) then (p, a) else fits)
  unfolding scan_fits
  scan_fits-step fuel p a fits at ne =
      let test : (a == 0) ≡ false = ground arith in rw (at, test) refl

  scan_fits-end :
      (fuel p : ℕ) (fits : ℕ × ℕ) → m.next p ≡ 0 → scan_fits m n fuel p (m.next p) fits ≡ fits
  unfolding scan_fits
  scan_fits-end zero p fits at = refl
  scan_fits-end (suc fuel) p fits at = rw at refl

  Scanned-behind :
      (fits found : ℕ × ℕ) (low p a s : ℕ) (r : List (ℕ × ℕ))
      → p < low
      → Seg m p ((a, s) ∷ r)
      → Spaced low high ((a, s) ∷ r)
      → Scanned (if leb n s then (p, a) else fits) found (a + s + 1) a r
      → Scanned fits found low p ((a, s) ∷ r)
  Scanned-behind fits found low p a s r lt g d (inr t) =
      inr (t.0, Took-behind m n unit pos high top low p a s _ r _ lt g d t.1, inr t.2)
  Scanned-behind fits found low p a s r lt g d (inl (e, none)) = elim (Bool-cases (leb n s)) [
    | inl f ↦
        let e' : found ≡ (p, a) = e ∙ ap (λ t. if t then (p, a) else fits) f in
        inr (
          subst (λ i. i.1 ≢ 0) (sym e') (omega (arith, d.0)),
          subst (λ i. Took n low high p (take_top n i m).0 ((a, s) ∷ r) m (take_top n i m).1)
              (sym e') (take_fits low p a s r lt g d (ground arith)),
          inl (
            none,
            ground arith,
            ap (λ i. (take_top n i m).0) e'
                ∙ take_top-at p a s g.1 (ground arith) (omega (arith, d.4)),
          ),
        )
    | inr f ↦ inl (e ∙ ap (λ t. if t then (p, a) else fits) f, (ground arith, none))
  ]

  scan :
      (fuel low p : ℕ) (l : List (ℕ × ℕ)) (fits : ℕ × ℕ)
      → p < low
      → Seg m p l
      → Spaced low high l
      → length l < fuel
      → Scanned fits (scan_fits m n fuel p (m.next p) fits) low p l
  scan fuel low p [] fits lt g d le = inl (scan_fits-end fuel p fits g, tt)
  scan zero low p ((a, s) ∷ r) fits lt g d le = absurd (omega arith)
  scan (suc fuel) low p ((a, s) ∷ r) fits lt g d le =
      let e = scan_fits-step fuel p a fits g.0 (omega (arith, d.0)) in
      let e' =
        e ∙ ap (λ i. scan_fits m n fuel a (m.next a) (if leb n i then (p, a) else fits)) g.1 in
      subst (λ i. Scanned fits i low p ((a, s) ∷ r)) (sym e')
        (Scanned-behind fits _ low p a s r lt g d (
          scan fuel (a + s + 1) a r (if leb n s then (p, a) else fits) (omega arith) g.2 d.5
            (omega arith)))

top_word : (a n : ℕ) → a + n < 2 ^ 32 → 4 ≤ n → sub32 (add32 a n) 4 ≡ a + n - 4
top_word a n lt le =
    ap (λ i. sub32 i 4) (add32-small a n lt) ∙ sub32-small (a + n) 4 (omega arith) lt

-- `getstk` of a size above zero that does not wrap when it is rounded up: either the top of the last
-- free block that is long enough is taken, in whole units, the heap stays well formed and all other
-- free bytes stay free, and the address of the last word taken is returned; or the call fails, changes
-- nothing, and no free block is long enough.
pub getstk_lem :
    {m : Mem} {l : List (ℕ × ℕ)} (h : IsHeap m l) (nbytes : ℕ)
    → 0 < nbytes
    → nbytes ≤ 2 ^ 32 - 8
    → ((a : ℕ) × ((getstk nbytes m).0 ≡ a + roundmb nbytes - 4)
        × Got (roundmb nbytes) a l m (getstk nbytes m).1
        × LastFit (roundmb nbytes) a l)
      ⊎ ((getstk nbytes m ≡ (syserr, m)) × NoFit (roundmb nbytes) l)
unfolding getstk
getstk_lem {m} {l} h nbytes pos small =
    let n = roundmb nbytes in
    let u = roundmb-unit nbytes pos small in
    let some : (nbytes == 0) ≡ false = ground arith in
    let fuel = Spaced-length m.minheap m.maxheap l (omega (arith, h.bottom)) h.spaced in
    let found = scan_fits m n m.maxheap m.memlist (m.next m.memlist) (0, 0) in
    elim (scan m n u.0 (omega (arith, u)) m.maxheap h.top m.maxheap m.minheap m.memlist l (0, 0)
      h.head h.seg h.spaced (omega (arith, fuel, h.head, h.bottom))) [
        | inl none ↦
            let missed : (found.1 == 0) ≡ true = is_null-eq _ (ap (λ i. i.1) none.0) in
            rw (some, missed) (inr (refl, none.1))
        | inr t ↦
            let hit : (found.1 == 0) ≡ false = is_null-ne _ t.0 in
            let a = (take_top n found m).0 in
            rw (some, hit)
              (inl (
                a,
                top_word a n (omega (arith, t.1.within, h.top)) (omega (arith, u)),
                charge-Got n a h t.1,
                t.2,
              ))
      ]
