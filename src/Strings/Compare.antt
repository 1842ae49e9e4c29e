-- ===== src/Strings/Compare.antt =====
-- lib/strlen.c and strcmp.c on strings in memory.
use cs503_lab.Base.{
  ℕ, zero, suc, ◌+◌, ◌-◌, ◌^◌, ◌<◌, ◌≡◌, refl, sym, ap, ◌∙◌, ◌≢◌, ◌⊎◌, inl, inr, true, false, List,
  [], ◌∷◌, length, arith, ◌==◌, if◌then◌else◌, some, slt, Bool-cases,
}
use mathlib.Core.Path.{subst}
use cs503_lab.Strings.{schar, count_chars, strcmp}

-- The string at `a` is `l`.
unfoldable pub IsStr : (ℕ → ℕ) → ℕ → List ℕ → Type 0
IsStr mem a [] = mem a ≡ 0
IsStr mem a (c ∷ l) = (mem a ≡ c) × (c ≢ 0) × IsStr mem (a + 1) l

-- The character at index `k`, or the NUL at the end
unfoldable pub char_at : ℕ → List ℕ → ℕ
char_at k [] = 0
char_at zero (c ∷ l) = c
char_at (suc k) (c ∷ l) = char_at k l

count_chars-IsStr :
    (fuel : ℕ) (mem : ℕ → ℕ) (a n : ℕ) (l : List ℕ)
    → IsStr mem a l
    → length l < fuel
    → count_chars fuel mem a n ≡ some (n + length l)
unfolding count_chars IsStr
count_chars-IsStr zero mem a n l h lt = absurd (omega arith)
count_chars-IsStr (suc fuel) mem a n [] h lt =
    let same : n ≡ n + 0 = omega arith in
    let at : (mem a == 0) ≡ true = ground arith in rw at (ap (λ i. some i) same)
count_chars-IsStr (suc fuel) mem a n (c ∷ l) h lt =
    let at : (mem a == 0) ≡ false = ground (arith, h.0, h.1) in
    let same : n + 1 + length l ≡ n + suc (length l) = omega arith in
    rw at (count_chars-IsStr fuel mem (a + 1) (n + 1) l h.2 (omega arith) ∙ ap (λ i. some i) same)

-- The first index where two strings differ, and what `strcmp` makes of the characters there
pub record Differ (l m : List ℕ) (k r : ℕ) : Type 0 where
  pub before : (j : ℕ) → j < k → char_at j l ≡ char_at j m
  pub here : char_at k l ≢ char_at k m
  pub order : r ≡ (if slt (schar (char_at k l)) (schar (char_at k m)) then 2 ^ 32 - 1 else 1)

-- What a comparison of `l` and `m` from here on says one character further up
Differ-behind : (c : ℕ) (l m : List ℕ) (k r : ℕ) → Differ l m k r → Differ (c ∷ l) (c ∷ m) (suc k) r
unfolding char_at
Differ-behind c l m k r d = record { before = λ j lt. behind j lt; here = d.here; order = d.order }
  where
    behind : (j : ℕ) → j < suc k → char_at j (c ∷ l) ≡ char_at j (c ∷ m)
    behind zero lt = refl
    behind (suc j) lt = d.before j (omega arith)

-- The loop stops where two characters differ.
strcmp-here :
    (fuel : ℕ) (mem : ℕ → ℕ) (a b : ℕ) (l m : List ℕ)
    → mem a ≡ char_at 0 l
    → mem b ≡ char_at 0 m
    → char_at 0 l ≢ char_at 0 m
    → (r : ℕ) × (strcmp (suc fuel) mem a b ≡ some r) × Differ l m 0 r
unfolding strcmp
strcmp-here fuel mem a b l m ea eb ne =
    let test : (char_at 0 l == char_at 0 m) ≡ false = ground arith in
    let order = slt (schar (char_at 0 l)) (schar (char_at 0 m)) in
    (
      (if order then 2 ^ 32 - 1 else 1),
      rw (ea, eb, test) (elim (Bool-cases order) [ inl e ↦ rw e refl | inr e ↦ rw e refl ]),
      record { before = λ j lt. absurd (omega arith); here = ne; order = refl },
    )

-- `strcmp` of two strings, with fuel for the first: 0 if they are equal; else the first index where
-- they differ decides, by the characters there as signed numbers, with NUL behind the last one.
pub strcmp-Differ :
    (fuel : ℕ) (mem : ℕ → ℕ) (a b : ℕ) (l m : List ℕ)
    → IsStr mem a l
    → IsStr mem b m
    → length l < fuel
    → ((l ≡ m) × (strcmp fuel mem a b ≡ some 0))
      ⊎ ((k : ℕ) × (r : ℕ) × (strcmp fuel mem a b ≡ some r) × Differ l m k r)
unfolding strcmp IsStr char_at
strcmp-Differ zero mem a b l m h g lt = absurd (omega arith)
strcmp-Differ (suc fuel) mem a b [] [] h g lt =
    let same : (mem a == mem b) ≡ true = ground arith in
    let end : (mem a == 0) ≡ true = ground arith in inl (refl, rw (same, end) refl)
strcmp-Differ (suc fuel) mem a b [] (d ∷ m) h g lt =
    let r = strcmp-here fuel mem a b [] (d ∷ m) h g.0 (λ e. g.1 (sym e)) in inr (0, r.0, r.1, r.2)
strcmp-Differ (suc fuel) mem a b (c ∷ l) [] h g lt =
    let r = strcmp-here fuel mem a b (c ∷ l) [] h.0 g h.1 in inr (0, r.0, r.1, r.2)
strcmp-Differ (suc fuel) mem a b (c ∷ l) (d ∷ m) h g lt = elim (Bool-cases (c == d)) [
  | inr e ↦
      let r = strcmp-here fuel mem a b (c ∷ l) (d ∷ m) h.0 g.0 (ground arith) in
      inr (0, r.0, r.1, r.2)
  | inl e ↦
      let same : c ≡ d = ground arith in
      let test : (mem a == mem b) ≡ true = ground (arith, h.0, g.0) in
      let more : (mem a == 0) ≡ false = ground (arith, h.0, h.1) in
      elim (strcmp-Differ fuel mem (a + 1) (b + 1) l m h.2 g.2 (omega arith)) [
        | inl q ↦ inl (ap (λ x. x ∷ l) same ∙ ap (λ t. d ∷ t) q.0, rw (test, more) q.1)
        | inr q ↦ inr (
          suc q.0,
          q.1,
          rw (test, more) q.2,
          subst (λ x. Differ (c ∷ l) (x ∷ m) (suc q.0) q.1) same (Differ-behind c l m q.0 q.1 q.3),
        )
      ]
]
