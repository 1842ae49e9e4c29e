-- ===== src/Memory/Freemem.antt =====
-- freemem.c against the blocks of the free list.
use cs503_lab.Base.{
  ℕ, zero, suc, ◌+◌, ◌^◌, ◌%◌, ◌≤◌, ◌<◌, ◌≡◌, refl, sym, ◌∙◌, ◌≢◌, ◌⊎◌, inl, inr, ◌&&◌, true, false,
  not, List, [], ◌∷◌, arith, ◌==◌, ltb, add32, add32-small, Bool-cases, length,
}
use mathlib.Core.Path.{subst}
use cs503_lab.Memory.{Mem, seek_block, top_of, overlaps}
use cs503_lab.Memory.Blocks.{Seg, Spaced, covers}
use cs503_lab.Memory.Place.{Gave, Clash, give, new_node, coalesce, Gave-behind}

-- The walk stops at the first block that is not below `b`.
seek_block-stop :
    (m : Mem) (b low high fuel p : ℕ) (l : List (ℕ × ℕ))
    → 0 < fuel
    → b ≤ low
    → Seg m p l
    → Spaced low high l
    → seek_block m.next b fuel p (m.next p) ≡ (p, m.next p)
unfolding seek_block
seek_block-stop m b low high zero p l lt le g d = absurd (omega arith)
seek_block-stop m b low high (suc fuel) p [] lt le g d = rw g refl
seek_block-stop m b low high (suc fuel) p ((a, s) ∷ r) lt le g d =
    let test : (not (a == 0) && ltb a b) ≡ false = ground (arith, d.0) in rw (g.0, test) refl

seek_block-skip :
    (m : Mem) (b fuel p a : ℕ)
    → m.next p ≡ a
    → a ≢ 0
    → a < b
    → seek_block m.next b (suc fuel) p (m.next p) ≡ seek_block m.next b fuel a (m.next a)
unfolding seek_block
seek_block-skip m b fuel p a at ne lt =
    let test : (not (a == 0) && ltb a b) ≡ true = ground arith in rw (at, test) refl

module _ (b n high : ℕ) (top : high < 2 ^ 32) (whole : b % 8 ≡ 0) (unit : n % 8 ≡ 0) (pos : 0 < n)
    (within : b + n ≤ high) where
  -- At a node that ends below `b`, only the next block can overlap.
  overlaps-calm :
      (m : Mem) (p next : ℕ)
      → top_of p m < b
      → overlaps b n (p, next) m ≡ (not (next == 0) && ltb next (b + n))
  overlaps-calm m p next lt =
      let end : add32 b n ≡ b + n = add32-small b n (omega arith) in
      let test : ltb b (top_of p m) ≡ false = ground arith in rw (end, test) (ground arith)

  abbrev pub Gives : ℕ → ℕ → List (ℕ × ℕ) → Mem → Mem → Type 0
  Gives = Gave b n high top whole unit pos within

  abbrev pub Clashes : List (ℕ × ℕ) → Type 0
  Clashes = Clash b n high top whole unit pos within

  abbrev pub placed : Mem → ℕ × ℕ → Mem
  placed = give b n high top whole unit pos within

  -- What the walk from `p` comes to.
  abbrev pub Outcome : Mem → ℕ × ℕ → ℕ → ℕ → List (ℕ × ℕ) → Type 0
  Outcome m at low p l =
      ((overlaps b n at m ≡ true) × Clashes l)
      ⊎ ((overlaps b n at m ≡ false) × Gives low p l m (placed m at))

  -- The walk stops behind `p`, which ends below `b`.
  stop_behind :
      (m : Mem) (low p : ℕ) (l : List (ℕ × ℕ))
      → p < b
      → low ≤ b
      → 0 < low
      → Seg m p l
      → Spaced b high l
      → top_of p m < b
      → Outcome m (p, m.next p) low p l
  stop_behind m low p [] lt le pos_low g d calm = inr (
    overlaps-calm m p (m.next p) calm ∙ ground (arith, g),
    new_node b n high top whole unit pos within m low p [] lt le g tt (ground arith),
  )
  stop_behind m low p ((a, s) ∷ r) lt le pos_low g d calm = elim (Bool-cases (ltb a (b + n))) [
    | inl e ↦ inl (
      overlaps-calm m p (m.next p) calm ∙ ground (arith, g.0, d.0),
      (a, ground (arith, d.0), ground (arith, d.1)),
    )
    | inr e ↦ inr (
      overlaps-calm m p (m.next p) calm ∙ ground (arith, g.0, d.0),
      new_node b n high top whole unit pos within m low p ((a, s) ∷ r) lt le g
          (ground arith, d.1, d.2, d.3, d.4, d.5) (ground arith),
    )
  ]

  overlaps-under :
      (m : Mem) (p next : ℕ) → p ≢ m.memlist → b < top_of p m → overlaps b n (p, next) m ≡ true
  overlaps-under m p next ne lt =
      let listed : (p == m.memlist) ≡ false = ground arith in
      let test : ltb b (top_of p m) ≡ true = ground arith in rw (test, listed) refl

  overlaps-flush :
      (m : Mem) (p next : ℕ)
      → top_of p m ≡ b
      → overlaps b n (p, next) m ≡ (not (next == 0) && ltb next (b + n))
  overlaps-flush m p next e =
      let end : add32 b n ≡ b + n = add32-small b n (omega arith) in
      let test : ltb b (top_of p m) ≡ false = ground arith in rw (end, test) (ground arith)

  -- The walk stops at the block `a`, which ends at `b` or above.
  stop_at :
      (m : Mem) (low p a s : ℕ) (r : List (ℕ × ℕ))
      → p < low
      → m.memlist < low
      → Seg m p ((a, s) ∷ r)
      → Spaced low high ((a, s) ∷ r)
      → a < b
      → b ≤ a + s
      → Outcome m (a, m.next a) low p ((a, s) ∷ r)
  stop_at m low p a s r lt ml g d below reach = elim (Bool-cases (b == a + s)) [
    | inl e ↦ flush r refl (ground arith)
    | inr e ↦ inl (
      overlaps-under m a (m.next a) (omega (arith, d.0))
          (let above : b < a + s = ground arith in omega (arith, end, above)),
      (b, ground arith, ground arith),
    )
  ]
    where
      end : top_of a m ≡ a + s
      end =
          let listed : (a == m.memlist) ≡ false = ground (arith, d.0) in
          rw (listed, g.1) (add32-small a s (omega (arith, d.4)))

      flush : (l : List (ℕ × ℕ)) → r ≡ l → b ≡ a + s → Outcome m (a, m.next a) low p ((a, s) ∷ r)
      flush [] e f =
          let g' : m.next a ≡ 0 = subst (Seg m a) e g.2 in
          inr (
            overlaps-flush m a (m.next a) (end ∙ sym f) ∙ ground (arith, g'),
            coalesce b n high top whole unit pos within m low p a s r lt ml g d (sym f)
                (subst (Spaced (b + n) high) (sym e) tt),
          )
      flush ((a2, s2) ∷ r2) e f =
          let g' = subst (Seg m a) e g.2 in
          let d' = subst (Spaced (a + s + 1) high) e d.5 in
          elim (Bool-cases (ltb a2 (b + n))) [
            | inl h ↦ inl (
              overlaps-flush m a (m.next a) (end ∙ sym f) ∙ ground (arith, g'.0, d'.0),
              (
                a2,
                ground (arith, d'.0),
                subst (λ l. covers ((a, s) ∷ l) a2 ≡ true) (sym e) (ground (arith, d'.1)),
              ),
            )
            | inr h ↦ inr (
              overlaps-flush m a (m.next a) (end ∙ sym f) ∙ ground (arith, g'.0, d'.0),
              coalesce b n high top whole unit pos within m low p a s r lt ml g d (sym f) (
                  subst (Spaced (b + n) high) (sym e) (ground arith, d'.1, d'.2, d'.3, d'.4, d'.5)),
            )
          ]

  Outcome-behind :
      (m : Mem) (at : ℕ × ℕ) (low p a s : ℕ) (r : List (ℕ × ℕ))
      → p < low
      → Seg m p ((a, s) ∷ r)
      → Spaced low high ((a, s) ∷ r)
      → a + s < b
      → Outcome m at (a + s + 1) a r
      → Outcome m at low p ((a, s) ∷ r)
  Outcome-behind m at low p a s r lt g d past (inl (o, (x, i, y))) = inl (o, (x, i, ground arith))
  Outcome-behind m at low p a s r lt g d past (inr (o, t)) =
      inr (o, Gave-behind b n high top whole unit pos within m _ low p a s r lt g d past t)

  top_of-lt : (m : Mem) (a s : ℕ) → m.size a ≡ s → a ≢ m.memlist → a + s < b → top_of a m < b
  top_of-lt m a s size ne past =
      let listed : (a == m.memlist) ≡ false = ground arith in
      let end : add32 a s ≡ a + s = add32-small a s (omega arith) in rw (listed, size, end) past

  pub walk :
      (m : Mem) (fuel low p : ℕ) (l : List (ℕ × ℕ))
      → p < low
      → p < b
      → low ≤ b
      → m.memlist < low
      → Seg m p l
      → Spaced low high l
      → top_of p m < b
      → length l < fuel
      → Outcome m (seek_block m.next b fuel p (m.next p)) low p l
  walk m fuel low p [] lt under le ml g d calm enough =
      let stop = seek_block-stop m b b high fuel p [] (omega arith) (omega arith) g tt in
      rw stop (stop_behind m low p [] under le (omega arith) g tt calm)
  walk m zero low p ((a, s) ∷ r) lt under le ml g d calm enough = absurd (omega arith)
  walk m (suc fuel) low p ((a, s) ∷ r) lt under le ml g d calm enough =
      elim (Bool-cases (ltb a b)) [
        | inr e ↦
            let d' : Spaced b high ((a, s) ∷ r) = (ground arith, d.1, d.2, d.3, d.4, d.5) in
            let stop =
              seek_block-stop m b b high (suc fuel) p ((a, s) ∷ r) (omega arith) (omega arith) g
                d' in
            rw stop (stop_behind m low p ((a, s) ∷ r) under le (omega arith) g d' calm)
        | inl e ↦
            let below : a < b = ground arith in
            let skip = seek_block-skip m b fuel p a g.0 (omega (arith, d.0)) below in
            rw skip (elim (Bool-cases (ltb (a + s) b)) [
              | inl f ↦
                  let past : a + s < b = ground arith in
                  Outcome-behind m _ low p a s r lt g d past (
                    walk m fuel (a + s + 1) a r (omega arith) below (omega arith)
                      (omega (arith, d.0)) g.2 d.5 (top_of-lt m a s g.1 (omega (arith, d.0)) past)
                      (omega arith))
              | inr f ↦
                  let reach : b ≤ a + s = ground arith in
                  let stop =
                    seek_block-stop m b (a + s + 1) high fuel a r (omega arith) (omega arith) g.2
                      d.5 in
                  rw stop (stop_at m low p a s r lt ml g d below reach)
            ])
      ]
