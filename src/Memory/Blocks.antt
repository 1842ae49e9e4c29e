-- ===== src/Memory/Blocks.antt =====
-- The free list as a list of blocks, each an address and a length.
use cs503_lab.Base.{
  ℕ, ◌+◌, ◌*◌, ◌^◌, ◌%◌, ◌≤◌, ◌<◌, ◌≡◌, refl, ◌∙◌, ◌||◌, ◌&&◌, Bool, false, List, [], ◌∷◌, arith,
  ltb, leb, length,
}
use cs503_lab.Memory.{Mem}

-- The links from `p` on run through the blocks and end in NULL.
abbrev pub Seg : Mem → ℕ → List (ℕ × ℕ) → Type 0
Seg m p [] = m.next p ≡ 0
Seg m p ((a, s) ∷ r) = (m.next p ≡ a) × (m.size a ≡ s) × Seg m a r

-- Blocks of whole units between `low` and `high`, in order, and no two of them adjacent.
abbrev pub Spaced : ℕ → ℕ → List (ℕ × ℕ) → Type 0
Spaced low high [] = Unit
Spaced low high ((a, s) ∷ r) =
    (low ≤ a) × (0 < s) × (a % 8 ≡ 0) × (s % 8 ≡ 0) × (a + s ≤ high) × Spaced (a + s + 1) high r

abbrev pub total : List (ℕ × ℕ) → ℕ
total [] = 0
total ((a, s) ∷ r) = s + total r

-- Does address `x` lie in the block, or in one of them?
abbrev pub inside : ℕ → ℕ → ℕ → Bool
inside a s x = leb a x && ltb x (a + s)

abbrev pub covers : List (ℕ × ℕ) → ℕ → Bool
covers [] x = false
covers ((a, s) ∷ r) x = inside a s x || covers r x

pub record IsHeap (m : Mem) (l : List (ℕ × ℕ)) : Type 0 where
  pub seg : Seg m m.memlist l
  pub spaced : Spaced m.minheap m.maxheap l
  pub free : m.size m.memlist ≡ total l
  pub head : m.memlist < m.minheap
  pub top : m.maxheap < 2 ^ 32
  pub bottom : m.minheap ≤ m.maxheap

pub Spaced-weaken :
    (low low' high : ℕ) (l : List (ℕ × ℕ)) → low' ≤ low → Spaced low high l → Spaced low' high l
Spaced-weaken low low' high [] le s = tt
Spaced-weaken low low' high (b ∷ r) le s = (omega (arith, s.0), s.1, s.2, s.3, s.4, s.5)

pub covers-below :
    (low high : ℕ) (l : List (ℕ × ℕ)) (x : ℕ) → Spaced low high l → x < low → covers l x ≡ false
covers-below low high [] x s lt = refl
covers-below low high ((a, n) ∷ r) x s lt =
    ground (arith, s.0, covers-below (a + n + 1) high r x s.5 (omega (arith, s.0)))

-- Each block takes at least two addresses, with the gap behind it.
pub Spaced-length :
    (low high : ℕ) (l : List (ℕ × ℕ))
    → low ≤ high + 1
    → Spaced low high l
    → 2 * length l + low ≤ high + 1
Spaced-length low high [] le s = omega arith
Spaced-length low high ((a, n) ∷ r) le s =
    omega (arith, Spaced-length (a + n + 1) high r (omega (arith, s.4)) s.5, s.0)

pub Spaced-total :
    (low high : ℕ) (l : List (ℕ × ℕ))
    → low ≤ high + 1
    → Spaced low high l
    → total l + low ≤ high + 1
Spaced-total low high [] le s = omega arith
Spaced-total low high ((a, n) ∷ r) le s =
    omega (arith, Spaced-total (a + n + 1) high r (omega (arith, s.4)) s.5, s.0)

-- A list of blocks depends on the links and lengths of its nodes, and on the link to its first.
pub Seg-frame :
    (m m' : Mem) (low high p p' : ℕ) (l : List (ℕ × ℕ))
    → Spaced low high l
    → m'.next p' ≡ m.next p
    → ((x : ℕ) → low ≤ x → (m'.next x ≡ m.next x) × (m'.size x ≡ m.size x))
    → Seg m p l
    → Seg m' p' l
Seg-frame m m' low high p p' [] s e same g = e ∙ g
Seg-frame m m' low high p p' ((a, n) ∷ r) s e same g = (
  e ∙ g.0,
  (same a s.0).1 ∙ g.1,
  Seg-frame m m' (a + n + 1) high a a r s.5 (same a s.0).0 (λ x le. same x (omega (arith, s.0)))
      g.2,
)
